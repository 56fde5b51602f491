-- ===== src/EventLoop/Process/Laws.antt =====
-- The time events that `processTimeEvents` of tflib/ae/ae.c runs, where the clock stands.
use tflib.Common.{ℕ, suc, ◌+◌, ◌*◌, ◌≤◌, ◌<◌, ◌≡◌, ◌≢◌, if◌then◌else◌}
use tflib.Common.{Bool, Option, some, List, ◌∷◌, ◌++◌, length, Returns}
use tflib.EventLoop.{TimeEvent, EventLoop}
use tflib.EventLoop.Timers.{}
use tflib.EventLoop.Timers.Laws.{HasIds}
use tflib.EventLoop.Process.{TimeCallback, Finalizer, Reading, time_loop}
use tflib.EventLoop.Process.Rounds.{IsQuiet, LeavesEvents, settled, count_due, NotDue}

module _ (answer : ℕ → Option ℕ) (run : ℕ → TimeCallback) (finalize : ℕ → Finalizer)
    (sec ms n most : ℕ) (quiet : IsQuiet answer run) (leaves : LeavesEvents finalize)
    (word : ms < 1000) (later : (id : ℕ) → answer id ≢ some 0) where
  -- The events are settled, and the calls counted.
  abbrev Settled : List TimeEvent → ℕ → EventLoop × ℕ → Type 0
  Settled es processed r =
      (r.0.time_events ≡ settled answer sec ms es) × (r.1 ≡ processed + count_due answer sec ms es)

  -- The loop settles the events from `rest` on, where there are enough readings.
  abbrev Settles : List Reading → Type 0
  Settles clock =
      (l : EventLoop) (before rest : List TimeEvent) (processed : ℕ)
      → l.time_event_next_id ≡ n
      → HasIds l
      → l.time_events ≡ before ++ rest
      → NotDue answer sec ms before
      → length (before ++ rest) ≤ most
      → count_due answer sec ms rest * most + length rest ≤ length clock
      → Returns (time_loop run finalize clock n l rest processed) (Settled l.time_events processed)

  -- One round, at the event `te`.
  module _ (clock : List Reading) (go : Settles clock) (l : EventLoop) (before : List TimeEvent)
      (te : TimeEvent) (rest : List TimeEvent) (processed : ℕ)
      (e : l.time_events ≡ before ++ (te ∷ rest)) (late : NotDue answer sec ms before)
      (size : length (before ++ (te ∷ rest)) ≤ most)
      (enough : count_due answer sec ms (te ∷ rest) * most + suc (length rest)
        ≤ suc (length clock)) where
    abbrev base : ℕ
    base = count_due answer sec ms rest

    abbrev by_due : Bool → ℕ
    by_due b = (if b then 1 else 0) + base
