-- ===== src/EventLoop/Timers.antt =====
-- The time events of tflib/ae/ae.c: when they are due, and their list, newest first.
pub mod Laws
use tflib.Common.{ℕ, suc, ◌+◌, ◌-◌, ◌/◌, ◌%◌, ltb, leb, ◌==◌, if◌then◌else◌}
use tflib.Common.{Bool, true, false, ◌&&◌, ◌||◌, Option, none, some, List, [], ◌∷◌}
use tflib.EventLoop.{TimeEvent, EventLoop}

-- `aeAddMillisecondsToNow` at the time `cur_sec`, `cur_ms`, for a delay that is not negative: the
-- seconds and milliseconds when it is over.
unfoldable pub add_milliseconds_to_now : ℕ → ℕ → ℕ → ℕ × ℕ
add_milliseconds_to_now cur_sec cur_ms milliseconds =
    let when_sec = cur_sec + milliseconds / 1000 in
    let when_ms = cur_ms + milliseconds % 1000 in
    if leb 1000 when_ms then (when_sec + 1, when_ms - 1000) else (when_sec, when_ms)

-- The loop with the new event, and its id.
unfoldable pub create_time_event : ℕ → ℕ → EventLoop → ℕ → ℕ → ℕ → ℕ → EventLoop × ℕ
create_time_event cur_sec cur_ms l milliseconds proc client_data finalizer =
    let (sec, ms) = add_milliseconds_to_now cur_sec cur_ms milliseconds in
    (
      record l {
        time_event_next_id = l.time_event_next_id + 1;
        time_events =
            record {
              id = l.time_event_next_id;
              when_sec = sec;
              when_ms = ms;
              time_proc = proc;
              finalizer_proc = finalizer;
              client_data = client_data;
            }
            ∷ l.time_events;
      },
      l.time_event_next_id,
    )

-- The list without the first event of that id, and that event.
unfoldable pub remove_event : List TimeEvent → ℕ → List TimeEvent × Option TimeEvent
remove_event [] id = ([], none)
remove_event (te ∷ rest) id =
    let (rest', found) = remove_event rest id in
    if te.id == id then (rest, some te) else (te ∷ rest', found)

-- The event that comes back is `AE_OK`: its finalizer is called, and its memory freed. `none` is
-- `AE_ERR`.
unfoldable pub delete_time_event : EventLoop → ℕ → EventLoop × Option TimeEvent
delete_time_event l id =
    let (rest, found) = remove_event l.time_events id in (record l { time_events = rest }, found)

unfoldable pub postpone : List TimeEvent → ℕ → ℕ → ℕ → List TimeEvent × Bool
postpone [] id sec ms = ([], false)
postpone (te ∷ rest) id sec ms =
    let (rest', found) = postpone rest id sec ms in
    if te.id == id
    then (record te { when_sec = sec; when_ms = ms } ∷ rest, true)
    else (te ∷ rest', found)

unfoldable pub modify_time_event : ℕ → ℕ → EventLoop → ℕ → ℕ → EventLoop × Bool
modify_time_event cur_sec cur_ms l id milliseconds =
    let (sec, ms) = add_milliseconds_to_now cur_sec cur_ms milliseconds in
    let (events, found) = postpone l.time_events id sec ms in
    (record l { time_events = events }, found)

-- `te` is due before `other`.
unfoldable pub sooner : TimeEvent → TimeEvent → Bool
sooner te other =
    ltb te.when_sec other.when_sec || te.when_sec == other.when_sec && ltb te.when_ms other.when_ms

unfoldable pub nearest_loop : List TimeEvent → Option TimeEvent → Option TimeEvent
nearest_loop [] nearest = nearest
nearest_loop (te ∷ rest) none = nearest_loop rest (some te)
nearest_loop (te ∷ rest) (some nearest) =
    nearest_loop rest (some (if sooner te nearest then te else nearest))

unfoldable pub search_nearest_timer : EventLoop → Option TimeEvent
search_nearest_timer l = nearest_loop l.time_events none
