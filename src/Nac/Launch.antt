-- ===== src/Nac/Launch.antt =====
-- The start of tfnac: `main` of tfnac/main.c with its options, up to the call of `aeMain`.
pub mod Starting
pub mod Serving
pub mod Whole
use tflib.Common.{ℕ, zero, suc, ◌+◌, ◌==◌, if◌then◌else◌, ◌>>=◌}
use tflib.Common.Bytes.{bytes_eq}
use tflib.Common.{Bool, true, false, not, ◌&&◌, Option, none, some, List, [], ◌∷◌}
use tflib.Common.Int.{ℤ, pos, negsuc}
use tflib.EventLoop.{EventLoop, ae_readable, create_event_loop, create_file_event}
use tflib.EventLoop.Timers.{create_time_event}
use tflib.Socket.{ReadAnswer}
use tflib.Socket.Opening.{SystemAnswers, Net, Opened, tcp_server2}
use tflib.Nac.{ProcessMgr, max_peer_nums}
use tflib.Nac.Limits.{adjust_peers_limit}
use tflib.Nac.Startup.{IpcAnswers, Initialized, copy_name, initialize}

pub record Options : Type 0 where
  pub conf_file : Option (List ℕ)
  pub console : Bool

unfoldable pub is_option : List ℕ → Bool
is_option (c ∷ d ∷ arg) = c == b'-'
is_option _ = false

-- Whether the last argument was `-f`. Where no argument is behind it, it has no effect.
unfoldable pub parse_options : List (List ℕ) → Bool → Options → Option Options
parse_options [] file_next options = some options
parse_options (arg ∷ args) true options = do
  file ← copy_name arg
  parse_options args false (record options { conf_file = some file })
parse_options (arg ∷ args) false options =
    let file = parse_options args true options in
    let console = parse_options args false (record options { console = true }) in
    let other = parse_options args false options in
    if not (is_option arg)
    then some options
    else if bytes_eq arg (b'-' ∷ b'f' ∷ [])
    then file
    else if bytes_eq arg (b'-' ∷ b'c' ∷ b'l' ∷ b'i' ∷ [])
    then console
    else other

-- The callbacks, as numbers that stand for their addresses.
abbrev pub accept_tcp_proc : ℕ
accept_tcp_proc = 2

abbrev pub message_response_proc : ℕ
message_response_proc = 3

abbrev pub life_cycle_proc : ℕ
life_cycle_proc = 4

-- What the system answers: to the calls for the socket; whether the loop can be made, at the time `now`;
-- the polling layer's answers; the pair of sockets, if it is made; the time of the timer;
-- and the limit on open files, and what `setrlimit` answers to one.
pub record LaunchAnswers : Type 0 where
  pub sockets : SystemAnswers
  pub makes_loop : Bool
  pub now : ℕ
  pub added : EventLoop → ℕ → ℕ → Bool
  pub pair : Option (ℕ × ℕ)
  pub cur_sec : ℕ
  pub cur_ms : ℕ
  pub oldlimit : Option ℕ
  pub sets : ℕ → Bool

-- The loop with the server's descriptor; no loop where `main` is `quitting`.
pub record Served : Type 0 where
  pub el : Option EventLoop
  pub quitting : Bool

-- The loop that was made, or none.
unfoldable pub serve_loop : LaunchAnswers → Bool → ℕ → Option Served
serve_loop answers false server_fd = some (record { el = none; quitting = true })
serve_loop answers true server_fd = do
  (el, ok) ←
      create_file_event answers.added (create_event_loop (max_peer_nums + 1024) answers.now)
        server_fd ae_readable accept_tcp_proc 0
  some (
      if ok
      then record { el = some el; quitting = false }
      else record { el = none; quitting = true })

unfoldable pub serve_on : LaunchAnswers → Option ℕ → Option Served
serve_on answers none = some (record { el = none; quitting = true })
serve_on answers (some server_fd) = serve_loop answers answers.makes_loop server_fd

unfoldable pub open_server : LaunchAnswers → ℕ → ℕ → Net → Option Served
open_server answers port ip net =
    if port == 0
    then some (record { el = none; quitting = false })
    else serve_on answers (tcp_server2 answers.sockets port ip net).result

-- The state at the call of `aeMain`. An application's id is not negative.
unfoldable pub manager : Initialized → EventLoop → ℤ → Option ProcessMgr
manager i el (negsuc n) = none
manager i el (pos app_id) = some (record {
  app_id = app_id;
  socket_timeout = i.settings.socket_timeout;
  connections = 0;
  cycle_step = i.settings.cycle_step;
  device_out_queue_id = some i.out_queue;
  el = el;
  slots = i.slots;
  closed = [];
  queued = [];
  written = [];
})

-- `some none` is the end of the process before `aeMain`.
unfoldable pub start_events :
    LaunchAnswers → Initialized → EventLoop → ℕ × ℕ → Option (Option ProcessMgr)
start_events answers i el (mqueue_read, mqueue_write) = do
  (el', ok) ← create_file_event answers.added el mqueue_read ae_readable message_response_proc 0
  let (el'', _) =
      create_time_event answers.cur_sec answers.cur_ms el' i.settings.cycle_step life_cycle_proc 0 0
  if not ok then some none else (do m ← manager i el'' i.settings.app_id; some (some m))

-- Without a port there is no loop, and `aeCreateFileEvent` follows its null pointer: a fault.
unfoldable pub pair_events :
    LaunchAnswers → Initialized → Option EventLoop → Option (ℕ × ℕ) → Option (Option ProcessMgr)
pair_events answers i el none = some none
pair_events answers i none (some mqueue) = none
pair_events answers i (some el) (some mqueue) = start_events answers i el mqueue

unfoldable pub launch : LaunchAnswers → Initialized → Net → Option (Option ProcessMgr)
launch answers i net = do
  served ← open_server answers i.settings.server_port i.settings.server_ip net
  if served.quitting then some none else pair_events answers i served.el answers.pair

-- How `main` goes, but for the thread that waits for responses: it exits with a code, or enters the loop.
pub data Outcome : Type 0 where
  exits : ℕ → Outcome
  runs : ProcessMgr → Outcome

unfoldable pub run_initialized : LaunchAnswers → Bool → Net → Option Initialized → Option Outcome
run_initialized answers console net none = some (exits 1)
run_initialized answers true net (some i) = some (exits 0)
run_initialized answers false net (some i) = do
  limit ← adjust_peers_limit answers.sets answers.oldlimit
  launched ← launch answers i net
  some (elim launched [ none ↦ exits 0 | some m ↦ runs m ])

-- `file` is what a configuration file's name opens, if anything.
unfoldable pub run_file :
    (List ℕ → Option (List ReadAnswer))
    → (List ℕ → ℕ)
    → IpcAnswers
    → LaunchAnswers
    → Net
    → Bool
    → Option (List ℕ)
    → Option Outcome
run_file file pton ipc answers net console none = some (exits 1)
run_file file pton ipc answers net console (some conf_file) = do
  initialized ← initialize pton ipc console (file conf_file)
  run_initialized answers console net initialized

unfoldable pub main :
    (List ℕ → Option (List ReadAnswer))
    → (List ℕ → ℕ)
    → IpcAnswers
    → LaunchAnswers
    → Net
    → List (List ℕ)
    → Option Outcome
main file pton ipc answers net args = do
  options ← parse_options args false (record { conf_file = none; console = false })
  run_file file pton ipc answers net options.console options.conf_file
