-- ===== src/Checks/Events.antt =====
-- Inputs of the theorems on tflib/ae/ae.c.
use tflib.Common.{ℕ, refl, ◌≡◌, arith, true, Returns}
use tflib.EventLoop.{EventLoop, create_event_loop, create_file_event, delete_file_event}
use tflib.EventLoop.MaxFd.{highest, IsValid, create_file_event-delete_file_event-IsValid}
use tflib.EventLoop.Timers.{create_time_event, delete_time_event, search_nearest_timer}
use tflib.EventLoop.Timers.{modify_time_event}
use tflib.Common.{Option, some, none, if◌then◌else◌, ◌==◌}
use tflib.EventLoop.Timers.Laws.{HasIds, Removed, IsNearest, search_nearest_timer-IsNearest}
use tflib.EventLoop.Timers.Laws.{create-delete-modify-HasIds, delete_time_event-Removed}

empty-IsValid : IsValid (create_event_loop 2 0)
unfolding create_event_loop highest
empty-IsValid = record { sized = refl; maximal = refl }

empty-setsize : (create_event_loop 2 0).setsize ≡ 2
unfolding create_event_loop
empty-setsize = refl

create_file_event-delete_file_event-IsValid_example :
    Returns
      (create_file_event (λ l fd mask. true) (create_event_loop 2 0) 1 3 10 20)
      (λ r. IsValid r.0)
    × Returns (delete_file_event (create_event_loop 2 0) 1 3) IsValid
create_file_event-delete_file_event-IsValid_example =
    create_file_event-delete_file_event-IsValid (λ l fd mask. true) (create_event_loop 2 0) 1 3 10
      20 empty-IsValid (λ e. omega (arith, e))

-- A loop with two timers.
abbrev timed : EventLoop
timed =
    (create_time_event 5 900 (create_time_event 5 900 (create_event_loop 2 5) 50 1 2 3).0 20 4 5
      6).0

timed-HasIds : HasIds timed
unfolding create_event_loop create_time_event
timed-HasIds = (omega arith, (omega arith, tt))

create-delete-modify-HasIds_example :
    HasIds (create_time_event 6 0 timed 10 7 8 9).0
    × HasIds (delete_time_event timed 0).0
    × HasIds (modify_time_event 6 0 timed 0 10).0
create-delete-modify-HasIds_example = create-delete-modify-HasIds timed 6 0 0 10 7 8 9 timed-HasIds

delete_time_event-Removed_example :
    Removed 0 timed.time_events
      (delete_time_event timed 0).0.time_events
      (delete_time_event timed 0).1
delete_time_event-Removed_example = delete_time_event-Removed timed 0 timed-HasIds

search_nearest_timer-IsNearest_example : IsNearest timed.time_events (search_nearest_timer timed)
search_nearest_timer-IsNearest_example = search_nearest_timer-IsNearest timed

-- The timer 0 ends, and the timer 1 is called again after 50 milliseconds.
abbrev answer : ℕ → Option ℕ
answer id = if id == 0 then none else some 50
