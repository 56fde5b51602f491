-- ===== src/EventLoop/Process/Rounds.antt =====
-- One event that `processTimeEvents` of tflib/ae/ae.c runs, and what it leaves.
use tflib.Common.{
  ℕ, zero, suc, ◌+◌, ◌≤◌, ◌<◌, ◌≡◌, ◌≢◌, refl, sym, ap, ◌∙◌, arith, if◌then◌else◌, subst,
  ne→==_false, ==_iff, lt→leb_false,
}
use tflib.Common.{
  ltb, ◌==◌, Bool, not, ◌&&◌, ◌||◌, true, false, Option, none, some, List, [], ◌∷◌, ◌++◌, All,
  length, Returns,
}
use tflib.EventLoop.{TimeEvent, EventLoop}
use tflib.EventLoop.Timers.{
  add_milliseconds_to_now, postpone, remove_event, delete_time_event, modify_time_event,
}
use tflib.EventLoop.Timers.Laws.{FallingBelow, HasIds, create-delete-modify-HasIds}
use tflib.EventLoop.Process.{
  TimeCallback, Finalizer, Reading, is_due, finalized, settle_event, skip_new, fire,
}

-- The callbacks leave the time events alone, and what they ask for is given by the id.
abbrev pub IsQuiet : (ℕ → Option ℕ) → (ℕ → TimeCallback) → Type 0
IsQuiet answer run =
    (proc : ℕ) (l : EventLoop) (id client_data : ℕ)
    → ((run proc l id client_data).0.time_events ≡ l.time_events)
      × ((run proc l id client_data).0.time_event_next_id ≡ l.time_event_next_id)
      × ((run proc l id client_data).1 ≡ answer id)

-- The finalizers leave the time events alone too.
abbrev pub LeavesEvents : (ℕ → Finalizer) → Type 0
LeavesEvents finalize =
    (proc : ℕ) (l : EventLoop) (client_data : ℕ)
    → ((finalize proc l client_data).time_events ≡ l.time_events)
      × ((finalize proc l client_data).time_event_next_id ≡ l.time_event_next_id)

-- The time of the event is not later than now.
abbrev pub due : ℕ → ℕ → TimeEvent → Bool
due sec ms te = not (ltb sec te.when_sec || te.when_sec == sec && ltb ms te.when_ms)

pub is_due-due :
    (sec ms : ℕ) (te : TimeEvent)
    → is_due (record { now_sec = sec; now_ms = ms; after_sec = sec; after_ms = ms }) te
      ≡ due sec ms te
unfolding is_due
is_due-due sec ms te = ground arith

abbrev pub reading : ℕ → ℕ → Reading
reading sec ms = record { now_sec = sec; now_ms = ms; after_sec = sec; after_ms = ms }

abbrev pub postponed : ℕ → ℕ → TimeEvent → ℕ → TimeEvent
postponed sec ms te delay =
    let (when_sec, when_ms) = add_milliseconds_to_now sec ms delay in
    record te { when_sec = when_sec; when_ms = when_ms }

-- What is left of an event that is run.
abbrev pub after_run : ℕ → ℕ → TimeEvent → Option ℕ → List TimeEvent
after_run sec ms te none = []
after_run sec ms te (some delay) = postponed sec ms te delay ∷ []

module _ (answer : ℕ → Option ℕ) (sec ms : ℕ) where
  abbrev pub settled : List TimeEvent → List TimeEvent
  settled [] = []
  settled (te ∷ rest) =
      (if due sec ms te then after_run sec ms te (answer te.id) else te ∷ []) ++ settled rest

  abbrev pub count_due : List TimeEvent → ℕ
  count_due [] = 0
  count_due (te ∷ rest) = (if due sec ms te then 1 else 0) + count_due rest

  abbrev pub NotDue : List TimeEvent → Type 0
  NotDue es = All (λ te. due sec ms te ≡ false) es

  pub count_due-le : (es : List TimeEvent) → count_due es ≤ length es
  count_due-le [] = omega arith
  count_due-le (te ∷ rest) = ground (arith, count_due-le rest)

  pub settled-NotDue :
      (before rest : List TimeEvent)
      → NotDue before
      → settled (before ++ rest) ≡ before ++ settled rest
  settled-NotDue [] rest h = refl
  settled-NotDue (te ∷ before) rest (late, h) = rw late (ap (◌∷◌ te) (settled-NotDue before rest h))

  pub count_due-NotDue :
      (before rest : List TimeEvent) → NotDue before → count_due (before ++ rest) ≡ count_due rest
  count_due-NotDue [] rest h = refl
  count_due-NotDue (te ∷ before) rest (late, h) =
      rw late (omega (arith, count_due-NotDue before rest h))

  postponed-late :
      (te : TimeEvent) (delay : ℕ)
      → ms < 1000
      → 0 < delay
      → due sec ms (postponed sec ms te delay) ≡ false
  unfolding add_milliseconds_to_now
  postponed-late te delay h pos = ground arith

  pub after_run-NotDue :
      (te : TimeEvent) (a : Option ℕ) → ms < 1000 → (a ≢ some 0) → NotDue (after_run sec ms te a)
  after_run-NotDue te none h pos = tt
  after_run-NotDue te (some zero) h pos = absurd (pos refl)
  after_run-NotDue te (some (suc delay)) h pos = (postponed-late te (suc delay) h (omega arith), tt)

Apart : ℕ → List TimeEvent → Type 0
Apart id es = All (λ te. te.id ≢ id) es

FallingBelow-Apart :
    (n : ℕ) (before : List TimeEvent) (te : TimeEvent) (after : List TimeEvent)
    → FallingBelow n (before ++ (te ∷ after))
    → (te.id < n) × Apart te.id before
unfolding Apart
FallingBelow-Apart n [] te after h = (h.0, tt)
FallingBelow-Apart n (x ∷ before) te after h =
    let (lt, apart) = FallingBelow-Apart x.id before te after h.1 in
    (omega (arith, lt, h.0), ((λ e. omega (arith, lt, e)), apart))

remove_event-Apart :
    (before : List TimeEvent) (te : TimeEvent) (after : List TimeEvent)
    → Apart te.id before
    → (remove_event (before ++ (te ∷ after)) te.id).0 ≡ before ++ after
unfolding remove_event Apart
remove_event-Apart [] te after h = rw ((==_iff te.id te.id).1 refl) refl
remove_event-Apart (x ∷ before) te after (ne, h) =
    rw (ne→==_false x.id te.id ne) (ap (◌∷◌ x) (remove_event-Apart before te after h))

postpone-Apart :
    (before : List TimeEvent) (te : TimeEvent) (after : List TimeEvent) (sec ms : ℕ)
    → Apart te.id before
    → postpone (before ++ (te ∷ after)) te.id sec ms
      ≡ (before ++ (record te { when_sec = sec; when_ms = ms } ∷ after), true)
unfolding postpone Apart
postpone-Apart [] te after sec ms h = rw ((==_iff te.id te.id).1 refl) refl
postpone-Apart (x ∷ before) te after sec ms (ne, h) =
    rw (ne→==_false x.id te.id ne, postpone-Apart before te after sec ms h) refl

pub skip_new-old :
    (n : ℕ) (before rest : List TimeEvent)
    → FallingBelow n (before ++ rest)
    → skip_new n rest ≡ rest
unfolding skip_new
skip_new-old n before [] h = refl
skip_new-old n before (te ∷ rest) h =
    rw (lt→leb_false n te.id (FallingBelow-Apart n before te rest h).0) refl

module _ (sec ms n : ℕ) where
  -- The event `te` was run and gave `a`; it stood between `before` and `after`.
  abbrev pub Ran : List TimeEvent → TimeEvent → Option ℕ → List TimeEvent → EventLoop → Type 0
  Ran before te a after l' =
      (l'.time_events ≡ before ++ (after_run sec ms te a ++ after))
      × (l'.time_event_next_id ≡ n)
      × HasIds l'

  finalized-Ran :
      (finalize : ℕ → Finalizer) (before : List TimeEvent) (te : TimeEvent) (after : List TimeEvent)
      → LeavesEvents finalize
      → (d : EventLoop × Option TimeEvent) → Ran before te none after d.0
      → Ran before te none after (finalized finalize d)
  unfolding finalized
  finalized-Ran finalize before te after leaves (l, none) ran = ran
  finalized-Ran finalize before te after leaves (l, some x) (events, next, ids) =
      let (events', next') = leaves x.finalizer_proc l x.client_data in
      let l' = finalize x.finalizer_proc l x.client_data in
      (
        events' ∙ events,
        next' ∙ next,
        subst (λ k. FallingBelow k l'.time_events) (sym next')
            (subst (FallingBelow l.time_event_next_id) (sym events') ids),
      )

  settle_event-Ran :
      (finalize : ℕ → Finalizer) (l : EventLoop) (before : List TimeEvent) (te : TimeEvent)
      (after : List TimeEvent) (a : Option ℕ)
      → LeavesEvents finalize
      → l.time_event_next_id ≡ n
      → HasIds l
      → l.time_events ≡ before ++ (te ∷ after)
      → Apart te.id before
      → Returns (settle_event finalize (reading sec ms) l te.id a) (Ran before te a after)
  unfolding settle_event delete_time_event modify_time_event
  settle_event-Ran finalize l before te after none leaves same h e apart =
      finalized-Ran finalize before te after leaves (delete_time_event l te.id) (
        ap (λ es. (remove_event es te.id).0) e ∙ remove_event-Apart before te after apart,
        same,
        (create-delete-modify-HasIds l sec ms te.id 0 0 0 0 h).1,
      )
  settle_event-Ran finalize l before te after (some delay) leaves same h e apart =
      let (when_sec, when_ms) = add_milliseconds_to_now sec ms delay in
      let moved : postpone l.time_events te.id when_sec when_ms
          ≡ (before ++ (postponed sec ms te delay ∷ after), true) =
        ap (λ es. postpone es te.id when_sec when_ms) e
        ∙ postpone-Apart before te after when_sec when_ms apart in
      let ids : FallingBelow l.time_event_next_id
          (postpone l.time_events te.id when_sec when_ms).0 =
        (create-delete-modify-HasIds l sec ms te.id delay 0 0 0 h).2 in
      rw moved (refl, same, subst (λ r. FallingBelow l.time_event_next_id r.0) moved ids)

  pub fire-Ran :
      (answer : ℕ → Option ℕ) (run : ℕ → TimeCallback) (finalize : ℕ → Finalizer) (l : EventLoop)
      (before : List TimeEvent) (te : TimeEvent) (after : List TimeEvent)
      → IsQuiet answer run
      → LeavesEvents finalize
      → l.time_event_next_id ≡ n
      → HasIds l
      → l.time_events ≡ before ++ (te ∷ after)
      → Returns (fire run finalize (reading sec ms) l te) (Ran before te (answer te.id) after)
  unfolding fire
  fire-Ran answer run finalize l before te after quiet leaves same h e =
      let (events, next, asks) = quiet te.time_proc l te.id te.client_data in
      let l' = (run te.time_proc l te.id te.client_data).0 in
      let ids : HasIds l' =
        subst (λ k. FallingBelow k l'.time_events) (sym next)
          (subst (FallingBelow l.time_event_next_id) (sym events) h) in
      let apart =
        (FallingBelow-Apart l.time_event_next_id before te after
          (subst (FallingBelow l.time_event_next_id) e h)).1 in
      subst
        (λ a.
          Returns (settle_event finalize (reading sec ms) l' te.id a)
            (Ran before te (answer te.id) after))
        (sym asks)
        (settle_event-Ran finalize l' before te after (answer te.id) leaves (next ∙ same) ids
          (events ∙ e) apart)
