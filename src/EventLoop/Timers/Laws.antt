-- ===== src/EventLoop/Timers/Laws.antt =====
-- The laws of the time events of tflib/ae/ae.c.
use tflib.Common.{ℕ, ◌+◌, ◌*◌, ◌≤◌, ◌<◌, ◌≡◌, ◌≢◌, refl, ap, arith, ◌==◌}
use tflib.Common.{
  true, false, Bool-cases, inl, inr, ◌⊎◌, Option, none, some, List, [], ◌∷◌, ◌++◌, All, All-append,
  append_assoc, append-nil, subst, sym, ◌∙◌, ==_iff, if◌then◌else◌,
}
use tflib.EventLoop.{TimeEvent, EventLoop}
use tflib.EventLoop.Timers.{
  add_milliseconds_to_now, create_time_event, remove_event, delete_time_event,
}
use tflib.EventLoop.Timers.{postpone, modify_time_event, sooner, nearest_loop, search_nearest_timer}

-- The time that is stored is the present one and the delay, in seconds and less than 1000
-- milliseconds.
pub add_milliseconds_to_now_lem :
    (sec ms delay : ℕ)
    → ms < 1000
    → ((add_milliseconds_to_now sec ms delay).0 * 1000 + (add_milliseconds_to_now sec ms delay).1
        ≡ sec * 1000 + ms + delay)
      × ((add_milliseconds_to_now sec ms delay).1 < 1000)
unfolding add_milliseconds_to_now
add_milliseconds_to_now_lem sec ms delay h = ground arith

-- The ids fall from the head on, all below `n`; so no two events share one.
abbrev pub FallingBelow : ℕ → List TimeEvent → Type 0
FallingBelow n [] = Unit {0}
FallingBelow n (te ∷ rest) = (te.id < n) × FallingBelow te.id rest

abbrev pub HasIds : EventLoop → Type 0
HasIds l = FallingBelow l.time_event_next_id l.time_events

FallingBelow-le : (m n : ℕ) (es : List TimeEvent) → m ≤ n → FallingBelow m es → FallingBelow n es
FallingBelow-le m n [] le h = tt
FallingBelow-le m n (te ∷ rest) le h = (omega (arith, h.0), h.1)

remove_event-FallingBelow :
    (n : ℕ) (es : List TimeEvent) (id : ℕ)
    → FallingBelow n es
    → FallingBelow n (remove_event es id).0
unfolding remove_event
remove_event-FallingBelow n [] id h = tt
remove_event-FallingBelow n (te ∷ rest) id h = elim (Bool-cases (te.id == id)) [
  | inl e ↦ rw e (FallingBelow-le te.id n rest (omega (arith, h.0)) h.1)
  | inr ne ↦ rw ne (h.0, remove_event-FallingBelow te.id rest id h.1)
]

postpone-FallingBelow :
    (n : ℕ) (es : List TimeEvent) (id sec ms : ℕ)
    → FallingBelow n es
    → FallingBelow n (postpone es id sec ms).0
unfolding postpone
postpone-FallingBelow n [] id sec ms h = tt
postpone-FallingBelow n (te ∷ rest) id sec ms h = elim (Bool-cases (te.id == id)) [
  | inl e ↦ rw e (h.0, h.1)
  | inr ne ↦ rw ne (h.0, postpone-FallingBelow te.id rest id sec ms h.1)
]

-- Creating, deleting and postponing a time event, at any time and with any id, each keep the ids of
-- the events apart: they fall from the head of the list on, below the next id to be given.
pub create-delete-modify-HasIds :
    (l : EventLoop) (sec ms id delay proc client_data finalizer : ℕ)
    → HasIds l
    → HasIds (create_time_event sec ms l delay proc client_data finalizer).0
      × HasIds (delete_time_event l id).0
      × HasIds (modify_time_event sec ms l id delay).0
unfolding create_time_event delete_time_event modify_time_event
create-delete-modify-HasIds l sec ms id delay proc client_data finalizer h = (
  (omega arith, h),
  remove_event-FallingBelow l.time_event_next_id l.time_events id h,
  postpone-FallingBelow l.time_event_next_id l.time_events id
      (add_milliseconds_to_now sec ms delay).0 (add_milliseconds_to_now sec ms delay).1 h,
)

abbrev pub Lacks : ℕ → List TimeEvent → Type 0
Lacks id es = All (λ te. te.id ≢ id) es

-- One event of the id was taken out and none is left, or there was none and nothing changed.
abbrev pub Removed : ℕ → List TimeEvent → List TimeEvent → Option TimeEvent → Type 0
Removed id es es' none = (es' ≡ es) × Lacks id es
Removed id es es' (some te) =
    (before after : List TimeEvent) × (te.id ≡ id)
    × (es ≡ before ++ te ∷ after)
    × (es' ≡ before ++ after)
    × Lacks id es'

FallingBelow-Lacks :
    (n : ℕ) (es : List TimeEvent) (id : ℕ) → n ≤ id → FallingBelow n es → Lacks id es
FallingBelow-Lacks n [] id le h = tt
FallingBelow-Lacks n (te ∷ rest) id le h =
    (λ e. omega (arith, h.0), FallingBelow-Lacks te.id rest id (omega (arith, h.0)) h.1)

Removed-skip :
    (te : TimeEvent) (es es' : List TimeEvent) (id : ℕ) (found : Option TimeEvent)
    → te.id ≢ id
    → Removed id es es' found
    → Removed id (te ∷ es) (te ∷ es') found
Removed-skip te es es' id none ne (e, lacks) = (ap (◌∷◌ te) e, (ne, lacks))
Removed-skip te es es' id (some x) ne (before, after, same, e, e', lacks) =
    (te ∷ before, after, same, ap (◌∷◌ te) e, ap (◌∷◌ te) e', (ne, lacks))

remove_event-Removed :
    (n : ℕ) (es : List TimeEvent) (id : ℕ)
    → FallingBelow n es
    → Removed id es (remove_event es id).0 (remove_event es id).1
unfolding remove_event
remove_event-Removed n [] id h = (refl, tt)
remove_event-Removed n (te ∷ rest) id h = elim (Bool-cases (te.id == id)) [
  | inl e ↦
      let same : te.id ≡ id = (==_iff te.id id).0 e in
      rw e ([], rest, same, refl, refl, FallingBelow-Lacks te.id rest id (omega arith) h.1)
  | inr ne ↦ rw ne (
      Removed-skip te rest (remove_event rest id).0 id (remove_event rest id).1 (ground arith)
        (remove_event-Removed te.id rest id h.1))
]

-- Deleting a time event takes out the one event of that id, and none of that id is left; where there
-- was none, it says so and nothing changes.
pub delete_time_event-Removed :
    (l : EventLoop) (id : ℕ)
    → HasIds l
    → Removed id l.time_events (delete_time_event l id).0.time_events (delete_time_event l id).1
unfolding delete_time_event
delete_time_event-Removed l id h = remove_event-Removed l.time_event_next_id l.time_events id h

-- The event `te` is not due before `n`.
abbrev pub NotSooner : TimeEvent → TimeEvent → Type 0
NotSooner n te =
    (n.when_sec < te.when_sec) ⊎ ((n.when_sec ≡ te.when_sec) × (n.when_ms ≤ te.when_ms))

-- A nearest event is in the list, and no event of the list is due before it.
abbrev pub IsNearest : List TimeEvent → Option TimeEvent → Type 0
IsNearest es none = es ≡ []
IsNearest es (some n) =
    (before after : List TimeEvent) × (es ≡ before ++ n ∷ after) × All (NotSooner n) es

NotSooner-trans : (a b c : TimeEvent) → NotSooner a b → NotSooner b c → NotSooner a c
NotSooner-trans a b c h k = ground arith

sooner→NotSooner : (a b : TimeEvent) → sooner a b ≡ true → NotSooner a b
unfolding sooner
sooner→NotSooner a b h = ground arith

sooner_false→NotSooner : (a b : TimeEvent) → sooner a b ≡ false → NotSooner b a
unfolding sooner
sooner_false→NotSooner a b h = ground arith

NotSooner-All :
    (a b : TimeEvent) (es : List TimeEvent)
    → NotSooner a b
    → All (NotSooner b) es
    → All (NotSooner a) es
NotSooner-All a b [] h k = tt
NotSooner-All a b (te ∷ rest) h k = (NotSooner-trans a b te h k.0, NotSooner-All a b rest h k.1)

-- The nearest of `seen` and `te`, from the nearest of `seen`.
IsNearest-append :
    (seen : List TimeEvent) (te n : TimeEvent)
    → IsNearest seen (some n)
    → IsNearest (seen ++ te ∷ []) (some (if sooner te n then te else n))
IsNearest-append seen te n (before, after, e, all) = elim (Bool-cases (sooner te n)) [
  | inl y ↦
      let first : NotSooner te n = sooner→NotSooner te n y in
      let self : NotSooner te te = inr (refl, omega arith) in
      rw y (
        seen,
        [],
        refl,
        All-append (NotSooner te) seen (te ∷ []) (NotSooner-All te n seen first all) (self, tt),
      )
  | inr z ↦ rw z (
    before,
    after ++ te ∷ [],
    ap (λ l. l ++ te ∷ []) e ∙ append_assoc before (n ∷ after) (te ∷ []),
    All-append (NotSooner n) seen (te ∷ []) all (sooner_false→NotSooner te n z, tt),
  )
]

nearest_loop-IsNearest :
    (seen es : List TimeEvent) (n : TimeEvent)
    → IsNearest seen (some n)
    → IsNearest (seen ++ es) (nearest_loop es (some n))
unfolding nearest_loop
nearest_loop-IsNearest seen [] n h = subst (λ l. IsNearest l (some n)) (sym (append-nil seen)) h
nearest_loop-IsNearest seen (te ∷ rest) n h =
    let next = if sooner te n then te else n in
    subst (λ l. IsNearest l (nearest_loop rest (some next))) (append_assoc seen (te ∷ []) rest)
      (nearest_loop-IsNearest (seen ++ te ∷ []) rest next (IsNearest-append seen te n h))

IsNearest-one : (te : TimeEvent) → IsNearest (te ∷ []) (some te)
IsNearest-one te = ([], [], refl, (inr (refl, omega arith), tt))

nearest_loop-none-IsNearest : (es : List TimeEvent) → IsNearest es (nearest_loop es none)
unfolding nearest_loop
nearest_loop-none-IsNearest [] = refl
nearest_loop-none-IsNearest (te ∷ rest) =
    nearest_loop-IsNearest (te ∷ []) rest te (IsNearest-one te)

-- The timer that is searched for is one of the loop's and none of them is due before it; there is
-- none only where the loop has no time event.
pub search_nearest_timer-IsNearest :
    (l : EventLoop) → IsNearest l.time_events (search_nearest_timer l)
unfolding search_nearest_timer
search_nearest_timer-IsNearest l = nearest_loop-none-IsNearest l.time_events
