-- ===== src/EventLoop.antt =====
-- tflib/ae/ae.c and tflib/ae/ae.h: the state of the event loop, its registered file events and the
-- calls that change them. Callbacks and client data are numbers that stand for pointers.
pub mod MaxFd
pub mod Registering
pub mod Timers
pub mod Poll
pub mod Process
use tflib.Common.{ℕ, zero, suc, ◌-◌, ◌^◌, bit_and, bit_or, ltb, leb, ◌==◌, if◌then◌else◌, ◌>>=◌}
use tflib.Common.{Bool, true, false, not, ◌&&◌, Option, none, some, List, [], ◌∷◌}
use tflib.Common.{get_elem?, set, replicate}

abbrev pub ae_none : ℕ
ae_none = 0

abbrev pub ae_readable : ℕ
ae_readable = 1

abbrev pub ae_writable : ℕ
ae_writable = 2

pub record FileEvent : Type 0 where
  pub mask : ℕ
  pub rfile_proc : ℕ
  pub wfile_proc : ℕ
  pub client_data : ℕ

pub record TimeEvent : Type 0 where
  pub id : ℕ
  pub when_sec : ℕ
  pub when_ms : ℕ
  pub time_proc : ℕ
  pub finalizer_proc : ℕ
  pub client_data : ℕ

-- A `maxfd` of -1 is `none`. `time_events` is the list from `timeEventHead` on.
pub record EventLoop : Type 0 where
  pub maxfd : Option ℕ
  pub setsize : ℕ
  pub time_event_next_id : ℕ
  pub last_time : ℕ
  pub events : List FileEvent
  pub time_events : List TimeEvent
  pub stop : Bool

abbrev pub unset_event : FileEvent
unset_event = record { mask = ae_none; rfile_proc = 0; wfile_proc = 0; client_data = 0 }

-- At the time `now`, where the memory is there and the polling layer is set up.
unfoldable pub create_event_loop : ℕ → ℕ → EventLoop
create_event_loop setsize now = record {
  maxfd = none;
  setsize = setsize;
  time_event_next_id = 0;
  last_time = now;
  events = replicate setsize unset_event;
  time_events = [];
  stop = false;
}

-- `fd > eventLoop->maxfd`.
abbrev pub above : ℕ → Option ℕ → Bool
above fd none = true
above fd (some m) = ltb m fd

abbrev pub at_max : ℕ → Option ℕ → Bool
at_max fd none = false
at_max fd (some m) = fd == m

-- The event that a registration leaves.
abbrev pub registered : FileEvent → ℕ → ℕ → ℕ → FileEvent
registered fe mask proc client_data = record {
  mask = bit_or fe.mask mask;
  rfile_proc = if bit_and mask ae_readable == 0 then fe.rfile_proc else proc;
  wfile_proc = if bit_and mask ae_writable == 0 then fe.wfile_proc else proc;
  client_data = client_data;
}

-- `added` is what the polling layer answers; the result says whether it is `AE_OK`. The outer `none`
-- is an access out of bounds.
unfoldable pub create_file_event :
    (EventLoop → ℕ → ℕ → Bool) → EventLoop → ℕ → ℕ → ℕ → ℕ → Option (EventLoop × Bool)
create_file_event added l fd mask proc client_data =
    if leb l.setsize fd then some (l, false) else (do
      fe ← get_elem? l.events fd
      let l' = record l {
        events = set l.events fd (registered fe mask proc client_data);
        maxfd = if above fd l.maxfd then some fd else l.maxfd;
      }
      some (if added l fd mask then (l', true) else (l, false)))

-- `for (j = maxfd-1; j >= 0; j--)`, from `n - 1` down; `none` is the -1 that the loop ends with.
unfoldable pub scan_down : List FileEvent → ℕ → Option (Option ℕ)
scan_down events zero = some none
scan_down events (suc j) = do
  fe ← get_elem? events j
  let rest = scan_down events j
  if not (fe.mask == ae_none) then some (some j) else rest

-- `mask & ~dropped` of a 32-bit `int`.
abbrev pub mask_off : ℕ → ℕ → ℕ
mask_off mask dropped = bit_and mask (2 ^ 32 - 1 - dropped)

unfoldable pub delete_file_event : EventLoop → ℕ → ℕ → Option EventLoop
delete_file_event l fd mask = if leb l.setsize fd then some l else (do
  fe ← get_elem? l.events fd
  let mask' = mask_off fe.mask mask
  let events = set l.events fd (record fe { mask = mask' })
  if fe.mask == ae_none
      then some l
      else if at_max fd l.maxfd && mask' == ae_none
      then (do maxfd ← scan_down events fd; some (record l { events = events; maxfd = maxfd }))
      else some (record l { events = events }))

unfoldable pub get_file_events : EventLoop → ℕ → Option ℕ
get_file_events l fd =
    if leb l.setsize fd then some 0 else (do fe ← get_elem? l.events fd; some fe.mask)
