-- ===== src/EventLoop/MaxFd.antt =====
-- `maxfd` of tflib/ae/ae.c is the highest descriptor that is registered.
use tflib.Common.{ℕ, zero, suc, ◌-◌, ◌/◌, ◌≤◌, ◌<◌, ◌≡◌, ◌≢◌, refl, ap, sym, ◌∙◌, arith, bit_or}
use tflib.Common.{leb, ◌==◌, if◌then◌else◌, ◌>>=◌, Bool, false, ◌&&◌, Bool-cases, inl, inr}
use tflib.Common.{Option, none, some, List, [], ◌∷◌, ◌++◌, length, get_elem?, set, take, Returns}
use tflib.Common.{Option-cases, length-take, length-set, ==_iff}
use tflib.Common.Bits.{bit_or-halves}
use tflib.EventLoop.{FileEvent, EventLoop, at_max, ae_none, above, registered}
use tflib.EventLoop.{create_file_event, scan_down, mask_off, delete_file_event}

-- The highest index with an event that is registered.
unfoldable pub highest : List FileEvent → Option ℕ
highest [] = none
highest (e ∷ es) = elim (highest es) [
  | some j ↦ some (suc j)
  | none ↦ if e.mask == ae_none then none else some 0
]

-- The array has `setsize` events, and `maxfd` is the highest descriptor that is registered.
pub record IsValid (l : EventLoop) : Type 0 where
  pub sized : length l.events ≡ l.setsize
  pub maximal : l.maxfd ≡ highest l.events

raise : Option ℕ → ℕ → Option ℕ
raise m fd = if above fd m then some fd else m

bit_or-ne-zero : (n m k : ℕ) → k ≤ n → k ≢ 0 → bit_or m k ≢ 0
bit_or-ne-zero zero m k h ne e = ne (omega arith)
bit_or-ne-zero (suc n) m zero h ne e = ne refl
bit_or-ne-zero (suc n) m (suc k) h ne e = elim (Bool-cases (suc k / 2 == 0)) [
  | inl z ↦ ground (arith, bit_or-halves m (suc k))
  | inr nz ↦
      bit_or-ne-zero n (m / 2) (suc k / 2) (omega arith) (ground arith)
        (omega (arith, bit_or-halves m (suc k)))
]

highest-set_registered :
    (es : List FileEvent) (fd : ℕ) (e : FileEvent)
    → fd < length es
    → e.mask ≢ 0
    → highest (set es fd e) ≡ raise (highest es) fd
unfolding highest raise
highest-set_registered [] fd e h ne = elim h [ ]
highest-set_registered (x ∷ es) zero e h ne = ground arith
highest-set_registered (x ∷ es) (suc fd) e h ne =
    ground (arith, highest-set_registered es fd e (omega arith) ne)

-- A change below the highest registered descriptor.
highest-set_below :
    (es : List FileEvent) (fd m : ℕ) (e : FileEvent)
    → highest es ≡ some m
    → fd < m
    → highest (set es fd e) ≡ some m
unfolding highest
highest-set_below [] fd m e h lt = cc
highest-set_below (x ∷ es) zero m e h lt = ground arith
highest-set_below (x ∷ es) (suc fd) m e h lt = ground (arith, highest-set_below es fd (m - 1) e)

-- The highest registered descriptor is freed: the highest one before it is what is left.
highest-set_top :
    (es : List FileEvent) (m : ℕ) (e : FileEvent)
    → highest es ≡ some m
    → e.mask ≡ 0
    → highest (set es m e) ≡ highest (take m es)
unfolding highest
highest-set_top [] m e h z = cc
highest-set_top (x ∷ es) zero e h z = ground arith
highest-set_top (x ∷ es) (suc m) e h z = ground (arith, highest-set_top es m e)

-- A registered descriptor is at most the highest one.
registered-le-highest :
    (es : List FileEvent) (fd : ℕ) (e : FileEvent)
    → get_elem? es fd ≡ some e
    → e.mask ≢ 0
    → (m : ℕ) × (highest es ≡ some m) × (fd ≤ m)
unfolding highest
registered-le-highest [] fd e g ne = cc
registered-le-highest (x ∷ es) zero e g ne = elim (Option-cases (highest es)) [
  | inl h ↦ (0, ground arith, omega arith)
  | inr (m, h) ↦ (suc m, rw h, omega arith)
]
registered-le-highest (x ∷ es) (suc fd) e g ne =
    let (m, h, le) = registered-le-highest es fd e g ne in (suc m, rw h, omega arith)

highest-snoc :
    (es : List FileEvent) (e : FileEvent)
    → highest (es ++ (e ∷ [])) ≡ (if e.mask == ae_none then highest es else some (length es))
unfolding highest
highest-snoc [] e = ground arith
highest-snoc (x ∷ es) e = ground (arith, highest-snoc es e)

take-suc :
    (es : List FileEvent) (j : ℕ) (e : FileEvent)
    → get_elem? es j ≡ some e
    → take (suc j) es ≡ take j es ++ (e ∷ [])
take-suc [] j e g = cc
take-suc (x ∷ es) zero e g = cc
take-suc (x ∷ es) (suc j) e g = ap (◌∷◌ x) (take-suc es j e g)

pub in_range :
    (es : List FileEvent) (j : ℕ) → j < length es → (e : FileEvent) × (get_elem? es j ≡ some e)
in_range [] j h = elim h [ ]
in_range (x ∷ es) zero h = (x, refl)
in_range (x ∷ es) (suc j) h = in_range es j (omega arith)

-- The loop over the descriptors below `n` finds the highest that is registered.
scan_down-highest :
    (es : List FileEvent) (n : ℕ) → n ≤ length es → scan_down es n ≡ some (highest (take n es))
unfolding scan_down
scan_down-highest es zero h = unfold highest in refl
scan_down-highest es (suc j) h =
    let (e, g) = in_range es j h in
    let len : length (take j es) ≡ j = omega (arith, length-take j es) in
    rw (g, take-suc es j e g, highest-snoc (take j es) e, len)
      (elim (Bool-cases (e.mask == ae_none)) [
        | inl z ↦ rw z (scan_down-highest es j (omega arith))
        | inr nz ↦ rw nz
      ])

nonzero : (n : ℕ) → (n == ae_none) ≡ false → n ≢ 0
nonzero n h z = ground arith

take-set : (es : List FileEvent) (i : ℕ) (e : FileEvent) → take i (set es i e) ≡ take i es
take-set [] i e = refl
take-set (x ∷ es) zero e = refl
take-set (x ∷ es) (suc i) e = ap (◌∷◌ x) (take-set es i e)

module _ (l : EventLoop) (fd : ℕ) (v : IsValid l) where
  event_at : leb l.setsize fd ≡ false → (e : FileEvent) × (get_elem? l.events fd ≡ some e)
  event_at h = in_range l.events fd (ground (arith, v.sized))

  created-IsValid :
      (added : EventLoop → ℕ → ℕ → Bool) (mask proc client_data : ℕ)
      → mask ≢ 0
      → Returns (create_file_event added l fd mask proc client_data) (λ r. IsValid r.0)
  unfolding create_file_event
  created-IsValid added mask proc client_data ne = elim (Bool-cases (leb l.setsize fd)) [
    | inl out ↦ rw out v
    | inr h ↦
        let (fe, g) = event_at h in
        rw (h, g)
          (elim (Bool-cases (added l fd mask)) [
            | inl ok ↦ rw ok (record {
              sized = length-set l.events fd (registered fe mask proc client_data) ∙ v.sized;
              maximal = sym (
                  highest-set_registered l.events fd (registered fe mask proc client_data)
                    (ground (arith, v.sized)) (bit_or-ne-zero mask fe.mask mask (omega arith) ne)
                  ∙ unfold raise in ap (λ m. if above fd m then some fd else m) (sym v.maximal));
            })
            | inr err ↦ rw err v
          ])
  ]

  -- The change of a registered event's mask to `mask'`.
  freed :
      (fe : FileEvent)
      → get_elem? l.events fd ≡ some fe
      → (fe.mask == ae_none) ≡ false
      → fd < length l.events
      → (mask' : ℕ)
      → Returns
          (if at_max fd l.maxfd && mask' == ae_none
            then (do
              maxfd ← scan_down (set l.events fd (record fe { mask = mask' })) fd
              some (record l {
                events = set l.events fd (record fe { mask = mask' });
                maxfd = maxfd;
              }))
            else some (record l { events = set l.events fd (record fe { mask = mask' }) }))
          IsValid
  freed fe g nz lt mask' =
      let (m, top, le) = registered-le-highest l.events fd fe g (nonzero fe.mask nz) in
      rw (v.maximal ∙ top) (elim (Bool-cases (fd == m)) [
        | inl same ↦ elim (Bool-cases (mask' == ae_none)) [
          | inl z ↦
              rw (same, z)
                (rw
                  (scan_down-highest (set l.events fd (record fe { mask = mask' })) fd
                    (omega (arith, length-set l.events fd (record fe { mask = mask' }))))
                  (record {
                    sized = length-set l.events fd (record fe { mask = mask' }) ∙ v.sized;
                    maximal =
                        ap highest (take-set l.events fd (record fe { mask = mask' }))
                        ∙ sym (
                            highest-set_top l.events fd (record fe { mask = mask' })
                              (top ∙ ap some (sym ((==_iff fd m).0 same))) ((==_iff mask' 0).0 z));
                  }))
          | inr live ↦
              rw (same, live)
                (record {
                  sized = length-set l.events fd (record fe { mask = mask' }) ∙ v.sized;
                  maximal = sym (
                      highest-set_registered l.events fd (record fe { mask = mask' }) lt
                        (nonzero mask' live)
                      ∙ unfold raise in
                        (ap (λ t. if above fd t then some fd else t) top
                          ∙ ground (arith, (==_iff fd m).0 same)));
                })
        ]
        | inr other ↦ rw other (record {
          sized = length-set l.events fd (record fe { mask = mask' }) ∙ v.sized;
          maximal = sym (
              highest-set_below l.events fd m (record fe { mask = mask' }) top
                (ground (arith, le)));
        })
      ])

  deleted-IsValid : (mask : ℕ) → Returns (delete_file_event l fd mask) IsValid
  unfolding delete_file_event
  deleted-IsValid mask = elim (Bool-cases (leb l.setsize fd)) [
    | inl out ↦ rw out v
    | inr h ↦
        let (fe, g) = event_at h in
        rw (h, g)
          (elim (Bool-cases (fe.mask == ae_none)) [
            | inl z ↦ rw z v
            | inr nz ↦ rw nz (freed fe g nz (ground (arith, v.sized)) (mask_off fe.mask mask))
          ])
  ]

-- Every registration and every removal of a file event keeps `maxfd` the highest registered
-- descriptor, in range or out of it, and whatever the polling layer answers; neither reads out of
-- bounds. A registration is for some event.
pub create_file_event-delete_file_event-IsValid :
    (added : EventLoop → ℕ → ℕ → Bool) (l : EventLoop) (fd mask proc client_data : ℕ)
    → IsValid l
    → mask ≢ 0
    → Returns (create_file_event added l fd mask proc client_data) (λ r. IsValid r.0)
      × Returns (delete_file_event l fd mask) IsValid
create_file_event-delete_file_event-IsValid added l fd mask proc client_data v ne =
    (created-IsValid l fd v added mask proc client_data ne, deleted-IsValid l fd v mask)
