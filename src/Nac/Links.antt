-- ===== src/Nac/Links.antt =====
-- The links between the peers of tfnac and the event loop's descriptors.
use tflib.Common.{ℕ, zero, suc, ◌+◌, ◌≤◌, ◌<◌, ◌≡◌, ◌≢◌, refl, sym, ap, ◌∙◌, arith, if◌then◌else◌}
use tflib.Common.{
  true, false, inl, inr, ◌⊎◌, subst, some, List, [], ◌∷◌, All, length, get_elem?, set,
}
use tflib.EventLoop.{FileEvent}
use tflib.EventLoop.MaxFd.{IsValid}
use tflib.Nac.{PeerInfo, ProcessMgr, max_peer_nums}

-- The mask of a descriptor, 0 out of range.
unfoldable pub mask_at : List FileEvent → ℕ → ℕ
mask_at [] fd = 0
mask_at (e ∷ es) zero = e.mask
mask_at (e ∷ es) (suc fd) = mask_at es fd

unfoldable pub count_active : List PeerInfo → ℕ
count_active [] = 0
count_active (p ∷ slots) = if p.active then 1 + count_active slots else count_active slots

-- The descriptor of an active peer is registered for reading.
abbrev pub Linked : List FileEvent → PeerInfo → Type 0
Linked es p = p.active ≡ true → mask_at es p.fd ≡ 1

-- No active peer has the descriptor.
abbrev pub Unused : ℕ → List PeerInfo → Type 0
Unused fd slots = All (λ p. p.active ≡ true → p.fd ≢ fd) slots

abbrev pub Distinct : List PeerInfo → Type 0
Distinct [] = Unit {0}
Distinct (p ∷ slots) = (p.active ≡ true → Unused p.fd slots) × Distinct slots

-- Between two events of the loop: `maxfd` is right; the active peers are counted; they have different
-- descriptors, each registered for reading.
pub record IsConsistent (m : ProcessMgr) : Type 0 where
  pub loop : IsValid m.el
  pub full : length m.slots ≡ max_peer_nums
  pub counted : m.connections ≡ count_active m.slots
  pub linked : All (Linked m.el.events) m.slots
  pub distinct : Distinct m.slots

-- The two lists of events differ at one descriptor at most.
abbrev pub SameBut : ℕ → List FileEvent → List FileEvent → Type 0
SameBut fd es es' = (j : ℕ) → j ≢ fd → mask_at es' j ≡ mask_at es j

pub mask_at-set : (es : List FileEvent) (fd : ℕ) (e : FileEvent) → SameBut fd es (set es fd e)
unfolding mask_at
mask_at-set [] fd e j ne = refl
mask_at-set (x ∷ es) zero e zero ne = absurd (ne refl)
mask_at-set (x ∷ es) zero e (suc j) ne = refl
mask_at-set (x ∷ es) (suc fd) e zero ne = refl
mask_at-set (x ∷ es) (suc fd) e (suc j) ne = mask_at-set es fd e j (λ e'. ne (ap suc e'))

pub mask_at-set_self :
    (es : List FileEvent) (fd : ℕ) (e : FileEvent)
    → fd < length es
    → mask_at (set es fd e) fd ≡ e.mask
unfolding mask_at
mask_at-set_self [] fd e h = elim h [ ]
mask_at-set_self (x ∷ es) zero e h = refl
mask_at-set_self (x ∷ es) (suc fd) e h = mask_at-set_self es fd e (omega arith)

pub mask_at-get_elem? :
    (es : List FileEvent) (fd : ℕ) (e : FileEvent)
    → get_elem? es fd ≡ some e
    → mask_at es fd ≡ e.mask
unfolding mask_at
mask_at-get_elem? [] fd e h = cc
mask_at-get_elem? (x ∷ es) zero e h = ground arith
mask_at-get_elem? (x ∷ es) (suc fd) e h = mask_at-get_elem? es fd e h

pub count_active-le : (slots : List PeerInfo) → count_active slots ≤ length slots
unfolding count_active
count_active-le [] = omega arith
count_active-le (p ∷ slots) = ground (arith, count_active-le slots)

-- The peers that are not at a descriptor stay linked where it changes.
pub All-Linked_other :
    (es es' : List FileEvent) (fd : ℕ) (slots : List PeerInfo)
    → SameBut fd es es'
    → Unused fd slots
    → All (Linked es) slots
    → All (Linked es') slots
All-Linked_other es es' fd [] same unused h = tt
All-Linked_other es es' fd (p ∷ slots) same unused h =
    (λ a. same p.fd (unused.0 a) ∙ h.0 a, All-Linked_other es es' fd slots same unused.1 h.1)

-- A descriptor that is not registered is no active peer's.
pub Unused-unregistered :
    (es : List FileEvent) (fd : ℕ) (slots : List PeerInfo)
    → mask_at es fd ≡ 0
    → All (Linked es) slots
    → Unused fd slots
Unused-unregistered es fd [] z h = tt
Unused-unregistered es fd (p ∷ slots) z h =
    (λ a e. omega (arith, h.0 a, z, ap (mask_at es) e), Unused-unregistered es fd slots z h.1)

-- The change of one slot that holds `p` to `q`.
module _ (p q : PeerInfo) where
  pub All-set_slot {κ} :
      (P : PeerInfo → Type κ) (slots : List PeerInfo) (i : ℕ)
      → All P slots
      → P q
      → All P (set slots i q)
  All-set_slot P [] i h k = tt
  All-set_slot P (x ∷ slots) zero h k = (k, h.1)
  All-set_slot P (x ∷ slots) (suc i) h k = (h.0, All-set_slot P slots i h.1 k)

  pub All-at {κ} :
      (P : PeerInfo → Type κ) (slots : List PeerInfo) (i : ℕ)
      → get_elem? slots i ≡ some p
      → All P slots
      → P p
  All-at P [] i e h = cc
  All-at P (x ∷ slots) zero e h = let same : x ≡ p = cc in subst P same h.0
  All-at P (x ∷ slots) (suc i) e h = All-at P slots i e h.1

  pub count_active-set :
      (slots : List PeerInfo) (i : ℕ)
      → get_elem? slots i ≡ some p
      → count_active (set slots i q) + (if p.active then 1 else 0)
        ≡ count_active slots + (if q.active then 1 else 0)
  unfolding count_active
  count_active-set [] i e = cc
  count_active-set (x ∷ slots) zero e = ground arith
  count_active-set (x ∷ slots) (suc i) e = ground (arith, count_active-set slots i e)

  -- `q` is not active, keeps what was `p`'s descriptor, or has one that no active peer has.
  pub Distinct-set :
      (slots : List PeerInfo) (i : ℕ)
      → get_elem? slots i ≡ some p
      → (q.active ≡ true → ((p.active ≡ true) × (q.fd ≡ p.fd)) ⊎ Unused q.fd slots)
      → Distinct slots
      → Distinct (set slots i q)
  Distinct-set [] i e h d = tt
  Distinct-set (x ∷ slots) zero e h d =
      let same : x ≡ p = cc in
      (
        λ a. elim (h a) [
          | inl (pa, fd) ↦
              let xa : x.active ≡ true = ap (λ (r : PeerInfo). r.active) same ∙ pa in
              let xfd : x.fd ≡ q.fd = ap (λ (r : PeerInfo). r.fd) same ∙ sym fd in
              subst (λ f. Unused f slots) xfd (d.0 xa)
          | inr unused ↦ unused.1
        ],
        d.1,
      )
  Distinct-set (x ∷ slots) (suc i) e h d = (
    λ a.
        All-set_slot (λ r. r.active ≡ true → r.fd ≢ x.fd) slots i (d.0 a)
          (λ qa. elim (h qa) [
            | inl (pa, fd) ↦
                λ e'. All-at (λ r. r.active ≡ true → r.fd ≢ x.fd) slots i e (d.0 a) pa (sym fd ∙ e')
            | inr unused ↦ λ e'. unused.0 a (sym e')
          ]),
    Distinct-set slots i e (λ qa. elim (h qa) [ inl same ↦ inl same | inr unused ↦ inr unused.1 ])
        d.1,
  )

  -- `p` is closed, and its descriptor with it.
  pub All-Linked_closed :
      (es es' : List FileEvent) (slots : List PeerInfo) (i : ℕ)
      → get_elem? slots i ≡ some p
      → p.active ≡ true
      → q.active ≡ false
      → SameBut p.fd es es'
      → All (Linked es) slots
      → Distinct slots
      → All (Linked es') (set slots i q)
  All-Linked_closed es es' [] i e pa qa same h d = tt
  All-Linked_closed es es' (x ∷ slots) zero e pa qa same h d =
      let same_peer : x ≡ p = cc in
      let xa : x.active ≡ true = ap (λ (r : PeerInfo). r.active) same_peer ∙ pa in
      let xfd : x.fd ≡ p.fd = ap (λ (r : PeerInfo). r.fd) same_peer in
      (
        λ a. absurd (ground (arith, qa, a)),
        All-Linked_other es es' p.fd slots same (subst (λ f. Unused f slots) xfd (d.0 xa)) h.1,
      )
  All-Linked_closed es es' (x ∷ slots) (suc i) e pa qa same h d = (
    λ a.
        same x.fd (λ e'. All-at (λ r. r.active ≡ true → r.fd ≢ x.fd) slots i e (d.0 a) pa (sym e'))
        ∙ h.0 a,
    All-Linked_closed es es' slots i e pa qa same h.1 d.1,
  )

  -- `p` is no active peer, and `q` is linked.
  pub All-Linked_opened :
      (es es' : List FileEvent) (slots : List PeerInfo) (i : ℕ)
      → SameBut q.fd es es'
      → mask_at es' q.fd ≡ 1
      → Unused q.fd slots
      → All (Linked es) slots
      → All (Linked es') (set slots i q)
  All-Linked_opened es es' slots i same one unused h =
      All-set_slot (Linked es') slots i (All-Linked_other es es' q.fd slots same unused h)
        (λ a. one)
