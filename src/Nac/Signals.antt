-- ===== src/Nac/Signals.antt =====
-- The signals of tfnac: `signal_handler` and `safe_quit` of tfnac/main.c.
use tflib.Common.{ℕ, ◌+◌, ◌-◌, ◌≤◌, ◌≡◌, refl, sym, ap, subst, arith, ltb, if◌then◌else◌}
use tflib.Common.{Bool, true, false, not, ◌||◌, List, [], ◌∷◌}

pub data Signal : Type 0 where
  sigint : Signal
  sigterm : Signal
  sighup : Signal
  sigquit : Signal
  sigpipe : Signal
  sigusr1 : Signal
  sigusr2 : Signal

abbrev pub log_level_nums : ℕ
log_level_nums = 8

-- The part of the process manager that the signals change, with the messages handed to `ipc_write_queue` for the thread
-- that waits for responses, the last one first.
pub record Control : Type 0 where
  pub log_level : ℕ
  pub quitting : Bool
  pub stop : Bool
  pub mq_exit : Bool
  pub posted : List (List ℕ)

unfoldable pub safe_quit : Control → Control
safe_quit m = record m {
  stop = true;
  posted = if not m.mq_exit then (b'0' ∷ b'0' ∷ b'0' ∷ b'0' ∷ []) ∷ m.posted else m.posted;
}

unfoldable pub quit : Control → Control
quit m = if not m.quitting then safe_quit (record m { quitting = true }) else m

unfoldable pub signal_handler : Signal → Control → Control
signal_handler sigint m = quit m
signal_handler sigterm m = quit m
signal_handler sighup m = m
signal_handler sigquit m = quit m
signal_handler sigpipe m = m
signal_handler sigusr1 m = record m {
  log_level = if ltb m.log_level log_level_nums then m.log_level + 1 else 0;
}
signal_handler sigusr2 m = record m { log_level = if ltb 0 m.log_level then m.log_level - 1 else 4 }

-- One signal after the other.
abbrev pub handle_all : List Signal → Control → Control
handle_all [] m = m
handle_all (signal ∷ signals) m = handle_all signals (signal_handler signal m)

-- Whether the process quits behind the signals, where `b` says whether it did before.
abbrev pub quits : Signal → Bool
quits sigint = true
quits sigterm = true
quits sigquit = true
quits _ = false

abbrev pub any_quits : List Signal → Bool → Bool
any_quits [] b = b
any_quits (signal ∷ signals) b = any_quits signals (quits signal || b)

-- What a process with this `mq_exit` has posted, once it quits.
abbrev pub quit_posts : Bool → Bool → List (List ℕ)
quit_posts mq_exit false = []
quit_posts true true = []
quit_posts false true = (b'0' ∷ b'0' ∷ b'0' ∷ b'0' ∷ []) ∷ []

-- A process that quits or not.
pub record IsControl (quitting : Bool) (m : Control) : Type 0 where
  pub level : m.log_level ≤ log_level_nums
  pub quits : m.quitting ≡ quitting
  pub stops : m.stop ≡ quitting
  pub posts : m.posted ≡ quit_posts m.mq_exit quitting

quit_posts-first :
    (mq_exit : Bool) (posted : List (List ℕ))
    → posted ≡ quit_posts mq_exit false
    → (if not mq_exit then (b'0' ∷ b'0' ∷ b'0' ∷ b'0' ∷ []) ∷ posted else posted)
      ≡ quit_posts mq_exit true
quit_posts-first true posted e = e
quit_posts-first false posted e = ap (◌∷◌ (b'0' ∷ b'0' ∷ b'0' ∷ b'0' ∷ [])) e

safe_quit-IsControl :
    (m : Control) → IsControl false m → IsControl true (safe_quit (record m { quitting = true }))
unfolding safe_quit
safe_quit-IsControl m c = record {
  level = c.level;
  quits = refl;
  stops = refl;
  posts = quit_posts-first m.mq_exit m.posted c.posts;
}

quit-IsControl : (b : Bool) (m : Control) → IsControl b m → IsControl true (quit m)
unfolding quit
quit-IsControl true m c =
    subst (λ q. IsControl true (if not q then safe_quit (record m { quitting = true }) else m))
      (sym c.quits) c
quit-IsControl false m c =
    subst (λ q. IsControl true (if not q then safe_quit (record m { quitting = true }) else m))
      (sym c.quits) (safe_quit-IsControl m c)

signal_handler-IsControl :
    (signal : Signal) (b : Bool) (m : Control)
    → IsControl b m
    → IsControl (quits signal || b) (signal_handler signal m)
unfolding signal_handler
signal_handler-IsControl sigint b m c = quit-IsControl b m c
signal_handler-IsControl sigterm b m c = quit-IsControl b m c
signal_handler-IsControl sighup b m c = c
signal_handler-IsControl sigquit b m c = quit-IsControl b m c
signal_handler-IsControl sigpipe b m c = c
signal_handler-IsControl sigusr1 b m c = record {
  level = ground (arith, c.level);
  quits = c.quits;
  stops = c.stops;
  posts = c.posts;
}
signal_handler-IsControl sigusr2 b m c = record {
  level = ground (arith, c.level);
  quits = c.quits;
  stops = c.stops;
  posts = c.posts;
}

-- Whatever signals come, in whatever order: the log level stays between 0 and 8; the process quits, and its
-- loop is stopped, where one of them says to quit or it did before; and it has posted one message then for the
-- thread that waits for responses, where that has not ended, however many of them say so.
pub signal_handler-IsControl_all :
    (signals : List Signal) (b : Bool) (m : Control)
    → IsControl b m
    → IsControl (any_quits signals b) (handle_all signals m)
signal_handler-IsControl_all [] b m c = c
signal_handler-IsControl_all (signal ∷ signals) b m c =
    signal_handler-IsControl_all signals (quits signal || b) (signal_handler signal m)
      (signal_handler-IsControl signal b m c)
