-- ===== src/EventLoop/Poll.antt =====
-- The poll of `aeProcessEvents` of tflib/ae/ae.c: how long it may wait, and the calls for the events
-- that fired. Flags are `AE_FILE_EVENTS` 1, `AE_TIME_EVENTS` 2 and `AE_DONT_WAIT` 4.
pub mod Laws
use tflib.Common.{ℕ, ◌+◌, ◌-◌, ◌*◌, bit_and, ltb, ◌==◌, if◌then◌else◌, ◌>>=◌}
use tflib.Common.{Bool, true, false, not, ◌&&◌, ◌||◌, Option, none, some, List, [], ◌∷◌, get_elem?}
use tflib.EventLoop.{ae_readable, ae_writable, TimeEvent, EventLoop}
use tflib.EventLoop.Timers.{search_nearest_timer}

abbrev pub ae_time_events : ℕ
ae_time_events = 2

abbrev pub ae_dont_wait : ℕ
ae_dont_wait = 4

-- The `timeval` until the timer is due, in seconds and microseconds. The differences stop at 0, as the
-- tests for a negative part make them.
unfoldable pub time_left : ℕ → ℕ → TimeEvent → ℕ × ℕ
time_left now_sec now_ms shortest =
    if ltb shortest.when_ms now_ms
    then (shortest.when_sec - now_sec - 1, (shortest.when_ms + 1000 - now_ms) * 1000)
    else (shortest.when_sec - now_sec, (shortest.when_ms - now_ms) * 1000)

unfoldable pub timeout_of : ℕ → ℕ → ℕ → Option TimeEvent → Option (ℕ × ℕ)
timeout_of now_sec now_ms flags (some shortest) = some (time_left now_sec now_ms shortest)
timeout_of now_sec now_ms flags none = if bit_and flags ae_dont_wait == 0 then none else some (0, 0)

-- `tvp`; `none` is `NULL`, a wait without end.
unfoldable pub poll_timeout : ℕ → ℕ → EventLoop → ℕ → Option (ℕ × ℕ)
poll_timeout now_sec now_ms l flags = timeout_of now_sec now_ms flags (
    if not (bit_and flags ae_time_events == 0) && bit_and flags ae_dont_wait == 0
    then search_nearest_timer l
    else none)

-- A callback is called with the loop, the descriptor, the client data and the mask, and leaves the
-- loop that it changed.
abbrev pub Callback : Type 0
Callback = EventLoop → ℕ → ℕ → ℕ → EventLoop

module _ (run : ℕ → Callback) where
  -- The call for a readable descriptor, and `rfired`.
  unfoldable pub call_readable : EventLoop → ℕ → ℕ → Option (EventLoop × Bool)
  call_readable l fd mask = do
    fe ← get_elem? l.events fd
    if bit_and (bit_and fe.mask mask) ae_readable == 0
        then some (l, false)
        else some (run fe.rfile_proc l fd fe.client_data mask, true)

  unfoldable pub call_writable : EventLoop → ℕ → ℕ → Bool → Option EventLoop
  call_writable l fd mask rfired = do
    fe ← get_elem? l.events fd
    if bit_and (bit_and fe.mask mask) ae_writable == 0
        then some l
        else if not rfired || not (fe.wfile_proc == fe.rfile_proc)
        then some (run fe.wfile_proc l fd fe.client_data mask)
        else some l

  -- The events that fired, each a descriptor and a mask; the result counts them.
  unfoldable pub process_fired : List (ℕ × ℕ) → EventLoop → ℕ → Option (EventLoop × ℕ)
  process_fired [] l processed = some (l, processed)
  process_fired (e ∷ fired) l processed = do
    (l₁, rfired) ← call_readable l e.0 e.1
    l₂ ← call_writable l₁ e.0 e.1 rfired
    process_fired fired l₂ (processed + 1)
