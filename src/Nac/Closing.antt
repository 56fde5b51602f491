-- ===== src/Nac/Closing.antt =====
-- `close_peer` of tfnac/main.c, and what `aeDeleteFileEvent` does to the masks.
use tflib.Common.{
  ℕ, zero, suc, ◌+◌, ◌<◌, ◌≡◌, ◌≢◌, refl, sym, ◌∙◌, arith, ◌==◌, leb, ==_iff, if◌then◌else◌, ◌>>=◌,
}
use tflib.Common.{
  Bool, true, false, ◌&&◌, Bool-cases, Option-cases, inl, inr, subst, Option, some, List, [], ◌∷◌,
  length, get_elem?, set,
}
use tflib.Common.{Returns, Returns-value, length-set}
use tflib.EventLoop.{
  FileEvent, EventLoop, ae_readable, at_max, mask_off, scan_down, delete_file_event,
}
use tflib.EventLoop.MaxFd.{IsValid, create_file_event-delete_file_event-IsValid}
use tflib.Nac.{PeerInfo, ProcessMgr, close_peer}
use tflib.Nac.Links.{
  mask_at, mask_at-set, mask_at-set_self, mask_at-get_elem?, SameBut, count_active, Linked,
  IsConsistent,
}
use tflib.Nac.Links.{count_active-set, count_active-le, Distinct-set, All-Linked_closed, All-at}

-- A descriptor that is in use is in range.
mask_at-range :
    (es : List FileEvent) (fd : ℕ)
    → mask_at es fd ≢ 0
    → (fe : FileEvent) × (get_elem? es fd ≡ some fe) × (fd < length es)
unfolding mask_at
mask_at-range [] fd ne = absurd (ne refl)
mask_at-range (e ∷ es) zero ne = (e, refl, omega arith)
mask_at-range (e ∷ es) (suc fd) ne =
    let (fe, g, lt) = mask_at-range es fd ne in (fe, g, omega (arith, lt))

pub event_at :
    (es : List FileEvent) (i : ℕ) → i < length es → (fe : FileEvent) × (get_elem? es i ≡ some fe)
event_at [] i h = elim h [ ]
event_at (e ∷ es) zero h = (e, refl)
event_at (e ∷ es) (suc i) h = event_at es i (omega arith)

-- The descriptor's mask is cleared, and nothing else changes of the masks.
abbrev Cleared : ℕ → EventLoop → EventLoop → Type 0
Cleared fd l l' =
    SameBut fd l.events l'.events × (mask_at l'.events fd ≡ 0) × (l'.setsize ≡ l.setsize)

Cleared-events :
    (l : EventLoop) (fd : ℕ) (fe : FileEvent) (maxfd : Option ℕ)
    → fd < length l.events
    → Cleared fd l (record l { events = set l.events fd (record fe { mask = 0 }); maxfd = maxfd })
Cleared-events l fd fe maxfd lt = (
  mask_at-set l.events fd (record fe { mask = 0 }),
  mask_at-set_self l.events fd (record fe { mask = 0 }) lt,
  refl,
)

some_injective {ℓ} : {A : Type ℓ} {x y : A} → some x ≡ some y → x ≡ y
some_injective h = cc

-- The change of the mask to 0, with `maxfd` searched again where it may have to be.
freed-Cleared :
    (l : EventLoop) (fd : ℕ) (fe : FileEvent)
    → fd < length l.events
    → (top : Bool) (l' : EventLoop)
    → (if top
        then (do
          maxfd ← scan_down (set l.events fd (record fe { mask = 0 })) fd
          some (record l { events = set l.events fd (record fe { mask = 0 }); maxfd = maxfd }))
        else some (record l { events = set l.events fd (record fe { mask = 0 }) }))
      ≡ some l'
    → Cleared fd l l'
freed-Cleared l fd fe lt false l' e =
    subst (Cleared fd l) (some_injective e) (Cleared-events l fd fe l.maxfd lt)
freed-Cleared l fd fe lt true l' e =
    elim (Option-cases (scan_down (set l.events fd (record fe { mask = 0 })) fd)) [
      | inl z ↦ absurd (let e' = (rw z at e) in cc)
      | inr (maxfd, z) ↦
          subst (Cleared fd l) (some_injective (rw z at e)) (Cleared-events l fd fe maxfd lt)
    ]

delete_file_event-Cleared :
    (l : EventLoop) (fd : ℕ)
    → length l.events ≡ l.setsize
    → mask_at l.events fd ≡ 1
    → (l' : EventLoop) → delete_file_event l fd ae_readable ≡ some l'
    → Cleared fd l l'
unfolding delete_file_event
delete_file_event-Cleared l fd sized one l' e =
    let (fe, g, lt) = mask_at-range l.events fd (λ z. omega (arith, one, z)) in
    let range : leb l.setsize fd ≡ false = ground (arith, sized, lt) in
    let mask : fe.mask ≡ 1 = sym (mask_at-get_elem? l.events fd fe g) ∙ one in
    let body : ℕ → Option EventLoop = λ k.
      if k == 0
      then some l
      else (if at_max fd l.maxfd && mask_off k 1 == 0
          then (do
            maxfd ← scan_down (set l.events fd (record fe { mask = mask_off k 1 })) fd
            some (record l {
              events = set l.events fd (record fe { mask = mask_off k 1 });
              maxfd = maxfd;
            }))
          else some (record l { events = set l.events fd (record fe { mask = mask_off k 1 }) })) in
    let at_mask : body fe.mask ≡ some l' = (rw (range, g) at e) in
    let at_one : body 1 ≡ some l' = subst (λ k. body k ≡ some l') mask at_mask in
    freed-Cleared l fd fe lt (at_max fd l.maxfd && true) l' at_one

-- Deleting a registered descriptor comes back, with the loop valid and the descriptor cleared.
pub deleted-Cleared :
    (l : EventLoop) (fd : ℕ)
    → IsValid l
    → mask_at l.events fd ≡ 1
    → (l' : EventLoop) × (delete_file_event l fd ae_readable ≡ some l')
      × IsValid l'
      × Cleared fd l l'
deleted-Cleared l fd v one =
    let both =
      create_file_event-delete_file_event-IsValid (λ l fd mask. true) l fd 1 0 0 v
        (λ e. omega (arith, e)) in
    let (l', e, v') = Returns-value (delete_file_event l fd ae_readable) IsValid both.1 in
    (l', e, v', delete_file_event-Cleared l fd v.sized one l' e)

-- Nothing happens to a descriptor that is not registered.
pub delete_file_event-unregistered :
    (l : EventLoop) (fd mask : ℕ)
    → length l.events ≡ l.setsize
    → mask_at l.events fd ≡ 0
    → delete_file_event l fd mask ≡ some l
unfolding delete_file_event
delete_file_event-unregistered l fd mask sized z = elim (Bool-cases (leb l.setsize fd)) [
  | inl out ↦ rw out refl
  | inr inside ↦
      let (fe, g) = event_at l.events fd (ground (arith, sized)) in
      let unset : (fe.mask == 0) ≡ true =
        (==_iff fe.mask 0).1 (sym (mask_at-get_elem? l.events fd fe g) ∙ z) in
      rw (inside, g, unset) refl
]

-- What closing a peer leaves.
abbrev pub closed_peer : PeerInfo → PeerInfo
closed_peer p = record p { active = false; authed = false }

-- Closing an active peer of a consistent state comes back: the state is consistent, the peer's
-- descriptor is closed and no longer registered, and the other slots are as they were.
pub close_peer-IsConsistent :
    (m : ProcessMgr) (i : ℕ) (p : PeerInfo)
    → IsConsistent m
    → get_elem? m.slots i ≡ some p
    → p.active ≡ true
    → Returns (close_peer m i) (λ m'.
      IsConsistent m'
      × (m'.slots ≡ set m.slots i (closed_peer p))
      × (m'.closed ≡ p.fd ∷ m.closed)
      × (mask_at m'.el.events p.fd ≡ 0)
      × (m'.cycle_step ≡ m.cycle_step))
unfolding close_peer
close_peer-IsConsistent m i p c e a =
    let one : mask_at m.el.events p.fd ≡ 1 =
      All-at p p (Linked m.el.events) m.slots i e c.linked a in
    let (l', d, v, cleared) = deleted-Cleared m.el p.fd c.loop one in
    let count = count_active-set p (closed_peer p) m.slots i e in
    let less : count_active (set m.slots i (closed_peer p)) + 1 ≡ count_active m.slots =
      ground (arith, count, a) in
    rw (e, d)
      (
        record {
          loop = v;
          full = length-set m.slots i (closed_peer p) ∙ c.full;
          counted = omega (arith, less, c.counted, c.full, count_active-le m.slots);
          linked =
              All-Linked_closed p (closed_peer p) m.el.events l'.events m.slots i e a refl cleared.0
                c.linked c.distinct;
          distinct =
              Distinct-set p (closed_peer p) m.slots i e (λ f. absurd (ground arith)) c.distinct;
        },
        refl,
        refl,
        cleared.1,
        refl,
      )
