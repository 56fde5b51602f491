-- ===== src/EventLoop/Registering.antt =====
-- New loops of tflib/ae/ae.c, and registrations that succeed.
use tflib.Common.{ℕ, zero, suc, ◌<◌, ◌≡◌, refl, sym, arith, leb, Bool-cases, inl, inr, Returns}
use tflib.Common.{Bool, true, Option, none, some, length-replicate, replicate}
use tflib.EventLoop.{EventLoop, unset_event, ae_readable, create_event_loop, create_file_event}
use tflib.EventLoop.Timers.{create_time_event}
use tflib.EventLoop.MaxFd.{IsValid, highest, in_range, create_file_event-delete_file_event-IsValid}

highest-replicate : (n : ℕ) → highest (replicate n unset_event) ≡ none
unfolding highest
highest-replicate zero = refl
highest-replicate (suc n) = rw (highest-replicate n) refl

pub create_event_loop-IsValid : (setsize now : ℕ) → IsValid (create_event_loop setsize now)
unfolding create_event_loop
create_event_loop-IsValid setsize now = record {
  sized = length-replicate setsize unset_event;
  maximal = sym (highest-replicate setsize);
}

-- A registration that the polling layer takes succeeds within the array.
abbrev pub Registers : EventLoop → ℕ → Bool → EventLoop × Bool → Type 0
Registers l fd added r = (r.0.setsize ≡ l.setsize) × (fd < l.setsize → added ≡ true → r.1 ≡ true)

create_file_event-Registers :
    (added : EventLoop → ℕ → ℕ → Bool) (l : EventLoop) (fd mask proc client_data : ℕ)
    → IsValid l
    → Returns
        (create_file_event added l fd mask proc client_data)
        (Registers l fd (added l fd mask))
unfolding create_file_event
create_file_event-Registers added l fd mask proc client_data v =
    elim (Bool-cases (leb l.setsize fd)) [
      | inl out ↦ rw out (refl, λ lt. absurd (ground (arith, out, lt)))
      | inr h ↦
          let (fe, g) = in_range l.events fd (ground (arith, v.sized)) in
          rw (h, g)
            (elim (Bool-cases (added l fd mask)) [
              | inl ok ↦ rw ok (refl, λ lt e. refl)
              | inr off ↦ rw off (refl, λ lt e. cc)
            ])
    ]

pub Returns-both :
    {A : Type 0} (o : Option A) (P Q : A → Type 0)
    → Returns o P
    → Returns o Q
    → Returns o (λ a. P a × Q a)
Returns-both none P Q h k = h
Returns-both (some a) P Q h k = (h, k)

pub registration :
    (added : EventLoop → ℕ → ℕ → Bool) (l : EventLoop) (fd proc : ℕ)
    → IsValid l
    → Returns
        (create_file_event added l fd ae_readable proc 0)
        (λ r. IsValid r.0 × Registers l fd (added l fd ae_readable) r)
registration added l fd proc v =
    Returns-both (create_file_event added l fd ae_readable proc 0) (λ r. IsValid r.0) _
      (create_file_event-delete_file_event-IsValid added l fd ae_readable proc 0 v
        (λ e. omega (arith, e))).0
      (create_file_event-Registers added l fd ae_readable proc 0 v)

pub create_time_event-IsValid :
    (cur_sec cur_ms : ℕ) (l : EventLoop) (milliseconds proc client_data finalizer : ℕ)
    → IsValid l
    → IsValid (create_time_event cur_sec cur_ms l milliseconds proc client_data finalizer).0
unfolding create_time_event
create_time_event-IsValid cur_sec cur_ms l milliseconds proc client_data finalizer v = record {
  sized = v.sized;
  maximal = v.maximal;
}
