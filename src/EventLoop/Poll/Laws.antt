-- ===== src/EventLoop/Poll/Laws.antt =====
-- The laws of the poll of tflib/ae/ae.c.
use tflib.Common.{
  ℕ, zero, suc, ◌+◌, ◌*◌, ◌≤◌, ◌<◌, ◌≡◌, arith, bit_and, ◌==◌, Bool, Bool-cases, inl, inr,
}
use tflib.Common.{
  not, ◌||◌, List, [], ◌∷◌, All, length, get_elem?, Returns, Returns-bind, Returns-map,
}
use tflib.EventLoop.{ae_readable, ae_writable, FileEvent, TimeEvent, EventLoop}
use tflib.EventLoop.MaxFd.{IsValid}
use tflib.EventLoop.Poll.{time_left, Callback, call_readable, call_writable, process_fired}

-- The time in microseconds, of seconds and milliseconds.
abbrev pub micros : ℕ → ℕ → ℕ
micros sec ms = (sec * 1000 + ms) * 1000

-- The poll waits just until the nearest timer, where that is not over; where it is, for less than a
-- second; the microseconds are always less than a million.
pub time_left_lem :
    (now_sec now_ms : ℕ) (te : TimeEvent)
    → now_ms < 1000
    → te.when_ms < 1000
    → (micros now_sec now_ms ≤ micros te.when_sec te.when_ms
        → micros now_sec now_ms
            + (time_left now_sec now_ms te).0 * 1_000_000
            + (time_left now_sec now_ms te).1
          ≡ micros te.when_sec te.when_ms)
      × (micros te.when_sec te.when_ms < micros now_sec now_ms
          → (time_left now_sec now_ms te).0 ≡ 0)
      × ((time_left now_sec now_ms te).1 < 1_000_000)
unfolding time_left
time_left_lem now_sec now_ms te h k =
    (λ e. ground (arith, h, k, e), λ e. ground (arith, h, k, e), ground (arith, h, k))

-- The loop is consistent, and has `n` descriptors.
abbrev pub IsValidOf : ℕ → EventLoop → Type 0
IsValidOf n l = IsValid l × (l.setsize ≡ n)

-- Every callback keeps the loop consistent, as all calls that it has for the loop do.
abbrev pub Keeps : ℕ → (ℕ → Callback) → Type 0
Keeps n run =
    (proc : ℕ) (l : EventLoop) (fd client_data mask : ℕ)
    → IsValidOf n l
    → IsValidOf n (run proc l fd client_data mask)

get_elem?-in_range :
    (es : List FileEvent) (i : ℕ) → i < length es → Returns (get_elem? es i) (λ e. Unit {0})
get_elem?-in_range [] i h = elim h [ ]
get_elem?-in_range (e ∷ es) zero h = tt
get_elem?-in_range (e ∷ es) (suc i) h = get_elem?-in_range es i (omega arith)

module _ (n : ℕ) (run : ℕ → Callback) (keeps : Keeps n run) where
  get-event :
      (l : EventLoop) (fd : ℕ)
      → IsValidOf n l
      → fd < n
      → Returns (get_elem? l.events fd) (λ e. Unit {0})
  get-event l fd v h = get_elem?-in_range l.events fd (omega (arith, v.0.sized, v.1))

  call_readable-IsValidOf :
      (l : EventLoop) (fd mask : ℕ)
      → IsValidOf n l
      → fd < n
      → Returns (call_readable run l fd mask) (λ r. IsValidOf n r.0)
  unfolding call_readable
  call_readable-IsValidOf l fd mask v h =
      Returns-bind (get_elem? l.events fd) _ (λ e. Unit {0}) (λ r. IsValidOf n r.0)
        (get-event l fd v h)
        (λ fe u. elim (Bool-cases (bit_and (bit_and fe.mask mask) ae_readable == 0)) [
          | inl e ↦ rw e v
          | inr ne ↦ rw ne (keeps fe.rfile_proc l fd fe.client_data mask v)
        ])

  call_writable-IsValidOf :
      (l : EventLoop) (fd mask : ℕ) (rfired : Bool)
      → IsValidOf n l
      → fd < n
      → Returns (call_writable run l fd mask rfired) (IsValidOf n)
  unfolding call_writable
  call_writable-IsValidOf l fd mask rfired v h =
      Returns-bind (get_elem? l.events fd) _ (λ e. Unit {0}) (IsValidOf n) (get-event l fd v h)
        (λ fe u. elim (Bool-cases (bit_and (bit_and fe.mask mask) ae_writable == 0)) [
          | inl e ↦ rw e v
          | inr ne ↦ elim (Bool-cases (not rfired || not (fe.wfile_proc == fe.rfile_proc))) [
            | inl y ↦ rw (ne, y) (keeps fe.wfile_proc l fd fe.client_data mask v)
            | inr z ↦ rw (ne, z) v
          ]
        ])

  process_fired-loop :
      (fired : List (ℕ × ℕ)) (l : EventLoop) (processed : ℕ)
      → IsValidOf n l
      → All (λ e. e.0 < n) fired
      → Returns
          (process_fired run fired l processed)
          (λ r. IsValidOf n r.0 × (r.1 ≡ processed + length fired))
  unfolding process_fired
  process_fired-loop [] l processed v h = (v, omega arith)
  process_fired-loop (e ∷ fired) l processed v h =
      Returns-bind (call_readable run l e.0 e.1) _ (λ r. IsValidOf n r.0) _
        (call_readable-IsValidOf l e.0 e.1 v h.0)
        (λ r k.
          Returns-bind (call_writable run r.0 e.0 e.1 r.1) _ (IsValidOf n) _
            (call_writable-IsValidOf r.0 e.0 e.1 r.1 k h.0)
            (λ l₂ k₂.
              Returns-map (process_fired run fired l₂ (processed + 1)) _ _
                (process_fired-loop fired l₂ (processed + 1) k₂ h.1)
                (λ s t. (t.0, omega (arith, t.1)))))

-- Whatever descriptors of the loop fire, and whatever the callbacks do that keep the loop consistent and
-- its size: their processing comes back, without an access out of bounds, the loop is consistent,
-- and the events are counted.
pub process_fired-IsValid :
    (n : ℕ) (run : ℕ → Callback) (fired : List (ℕ × ℕ)) (l : EventLoop)
    → Keeps n run
    → IsValid l
    → l.setsize ≡ n
    → All (λ e. e.0 < n) fired
    → Returns (process_fired run fired l 0) (λ r. IsValid r.0 × (r.1 ≡ length fired))
process_fired-IsValid n run fired l keeps v same h =
    Returns-map (process_fired run fired l 0) _ _
      (process_fired-loop n run keeps fired l 0 (v, same) h) (λ s t. (t.0.0, omega (arith, t.1)))
