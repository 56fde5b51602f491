-- ===== src/EventLoop/Process.antt =====
-- `processTimeEvents` and `aeProcessEvents` of tflib/ae/ae.c. The readings of the clock are a list.
pub mod Rounds
pub mod Laws
use tflib.Common.{ℕ, ◌+◌, bit_and, ltb, leb, ◌==◌, if◌then◌else◌, ◌>>=◌, map}
use tflib.Common.{Bool, true, false, not, ◌&&◌, ◌||◌, Option, none, some, List, [], ◌∷◌}
use tflib.EventLoop.{TimeEvent, EventLoop}
use tflib.EventLoop.Timers.{add_milliseconds_to_now, postpone, delete_time_event}
use tflib.EventLoop.Poll.{ae_time_events, ae_dont_wait, poll_timeout, Callback, process_fired}

abbrev pub ae_file_events : ℕ
ae_file_events = 1

-- A callback is called with the loop, the id and the client data. It leaves the loop that it changed,
-- and asks for another call after a delay, or for none, which is `AE_NOMORE`.
abbrev pub TimeCallback : Type 0
TimeCallback = EventLoop → ℕ → ℕ → EventLoop × Option ℕ

-- What the clock says where the loop looks at an event, in seconds and milliseconds, and what it says
-- behind the callback, if that is called.
pub record Reading : Type 0 where
  pub now_sec : ℕ
  pub now_ms : ℕ
  pub after_sec : ℕ
  pub after_ms : ℕ

unfoldable pub is_due : Reading → TimeEvent → Bool
is_due r te = ltb te.when_sec r.now_sec || r.now_sec == te.when_sec && leb te.when_ms r.now_ms

-- A finalizer is called with the loop and the client data, and leaves the loop that it changed; one that
-- is null changes nothing.
abbrev pub Finalizer : Type 0
Finalizer = EventLoop → ℕ → EventLoop

-- What `aeDeleteTimeEvent` does with the event that it found.
unfoldable pub finalized : (ℕ → Finalizer) → EventLoop × Option TimeEvent → EventLoop
finalized finalize (l, none) = l
finalized finalize (l, some te) = finalize te.finalizer_proc l te.client_data

-- The event is deleted, or due again after the delay. Where the callback deleted it and asks for another
-- call, the code writes to freed memory, which is `none`.
unfoldable pub settle_event :
    (ℕ → Finalizer) → Reading → EventLoop → ℕ → Option ℕ → Option EventLoop
settle_event finalize r l id none = some (finalized finalize (delete_time_event l id))
settle_event finalize r l id (some delay) =
    let (sec, ms) = add_milliseconds_to_now r.after_sec r.after_ms delay in
    let (events, found) = postpone l.time_events id sec ms in
    if found then some (record l { time_events = events }) else none

-- The events from `te` on, without those in front that the callbacks registered; `limit` is
-- `maxId + 1`.
unfoldable pub skip_new : ℕ → List TimeEvent → List TimeEvent
skip_new limit [] = []
skip_new limit (te ∷ rest) =
    let later = skip_new limit rest in if leb limit te.id then later else te ∷ rest

abbrev pub by_head {ℓ} : {A : Type ℓ} → List TimeEvent → A → (TimeEvent → List TimeEvent → A) → A
by_head [] done go = done
by_head (te ∷ rest) done go = go te rest

module _ (run : ℕ → TimeCallback) (finalize : ℕ → Finalizer) where
  unfoldable pub fire : Reading → EventLoop → TimeEvent → Option EventLoop
  fire r l te =
      let (l', delay) = run te.time_proc l te.id te.client_data in
      settle_event finalize r l' te.id delay

  -- One round of the loop for each reading; `te` is the head of `rest`. `none` waits for a reading.
  unfoldable pub time_loop :
      List Reading → ℕ → EventLoop → List TimeEvent → ℕ → Option (EventLoop × ℕ)
  time_loop [] limit l rest processed =
      by_head (skip_new limit rest) (some (l, processed)) (λ te rest'. none)
  time_loop (r ∷ clock) limit l rest processed =
      by_head (skip_new limit rest) (some (l, processed)) (λ te rest'.
        let next = time_loop clock limit l rest' processed in
        if is_due r te
        then fire r l te >>= (λ l'. time_loop clock limit l' l'.time_events (processed + 1))
        else next)

  -- At the time `now`; a clock that was set back makes all events due.
  unfoldable pub process_time_events : ℕ → List Reading → EventLoop → Option (EventLoop × ℕ)
  process_time_events now clock l =
      let events =
        if ltb now l.last_time
        then map (λ (te : TimeEvent). record te { when_sec = 0 }) l.time_events
        else l.time_events in
      time_loop clock l.time_event_next_id (record l { time_events = events; last_time = now })
        events 0

abbrev pub has_files : EventLoop → Bool
has_files l = elim l.maxfd [ none ↦ false | some fd ↦ true ]

-- What fires is the polling layer's answer.
module _ (run : ℕ → Callback) (time_run : ℕ → TimeCallback) (finalize : ℕ → Finalizer)
    (poll : EventLoop → Option (ℕ × ℕ) → List (ℕ × ℕ)) where
  unfoldable pub process_files : ℕ → ℕ → ℕ → EventLoop → Option (EventLoop × ℕ)
  process_files flags sec ms l =
      if has_files l || (not (bit_and flags ae_time_events == 0) && bit_and flags ae_dont_wait == 0)
      then process_fired run (poll l (poll_timeout sec ms l flags)) l 0
      else some (l, 0)

  unfoldable pub process_times : ℕ → ℕ → List Reading → EventLoop × ℕ → Option (EventLoop × ℕ)
  process_times flags now clock (l, processed) =
      if bit_and flags ae_time_events == 0
      then some (l, processed)
      else do (l', n) ← process_time_events time_run finalize now clock l; some (l', processed + n)

  unfoldable pub process_events : ℕ → ℕ → ℕ → ℕ → List Reading → EventLoop → Option (EventLoop × ℕ)
  process_events flags sec ms now clock l =
      if bit_and flags ae_time_events == 0 && bit_and flags ae_file_events == 0
      then some (l, 0)
      else process_files flags sec ms l >>= process_times flags now clock
