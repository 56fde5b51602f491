-- ===== src/Nac/Cycles.antt =====
-- The life cycle of tfnac/main.c: the timers of the peers, and their end.
use tflib.Common.{
  ℕ, zero, suc, ◌+◌, ◌-◌, ◌%◌, ◌^◌, ◌≤◌, ◌<◌, ◌≡◌, refl, sym, ap, ◌∙◌, arith, ◌==◌, if◌then◌else◌,
  ◌>>=◌,
}
use tflib.Common.{
  Bool, true, false, Bool-cases, inl, inr, subst, Option, some, List, [], ◌∷◌, length, get_elem?,
  set, map, length-set,
}
use tflib.Common.{Returns, Returns-bind, Returns-map, get_elem?-set_self, set-set}
use tflib.Nac.{
  PeerInfo, ProcessMgr, close_peer, cycle_peer, cycle_loop, life_cycle_handler, max_peer_nums,
}
use tflib.Nac.Links.{IsConsistent}
use tflib.Nac.Closing.{closed_peer, close_peer-IsConsistent}
use tflib.Nac.Steps.{set_slot-IsConsistent}

abbrev pub tick : PeerInfo → PeerInfo
tick p = record p { session_timer = (p.session_timer + 2 ^ 16 - 1) % 2 ^ 16 }

-- What a cycle makes of a peer: one that is active is a tick older, and closed at 0.
unfoldable pub cycled : PeerInfo → PeerInfo
cycled p =
    if p.active then (if (tick p).session_timer == 0 then closed_peer (tick p) else tick p) else p

-- The state is consistent, has these slots, and its delay from one cycle to the next is kept.
abbrev CycledTo : ProcessMgr → List PeerInfo → ProcessMgr → Type 0
CycledTo m slots m' = IsConsistent m' × (m'.slots ≡ slots) × (m'.cycle_step ≡ m.cycle_step)

set_same :
    (slots : List PeerInfo) (i : ℕ) (p : PeerInfo)
    → get_elem? slots i ≡ some p
    → set slots i p ≡ slots
set_same [] i p e = refl
set_same (x ∷ slots) zero p e = cc
set_same (x ∷ slots) (suc i) p e = ap (◌∷◌ x) (set_same slots i p e)

-- The tick of an active peer; `b` is whether it is the last one.
cycle_peer-active :
    (m : ProcessMgr) (i : ℕ) (p : PeerInfo) (b : Bool)
    → get_elem? m.slots i ≡ some p
    → p.active ≡ true
    → ((tick p).session_timer == 0) ≡ b
    → cycle_peer m i ≡ (
        let m' = record m { slots = set m.slots i (tick p) } in
        if b then close_peer m' i else some m')
unfolding cycle_peer
cycle_peer-active m i p b e busy now =
    let m' = record m { slots = set m.slots i (tick p) } in
    let by_timer : Bool → Option ProcessMgr = λ b. if b then close_peer m' i else some m' in
    let by_active : Bool → Option ProcessMgr =
      λ b. if b then by_timer ((tick p).session_timer == 0) else some m in
    let at_peer : cycle_peer m i ≡ by_active p.active = rw e refl in
    at_peer ∙ ap by_active busy ∙ ap by_timer now

cycle_peer-idle :
    (m : ProcessMgr) (i : ℕ) (p : PeerInfo)
    → get_elem? m.slots i ≡ some p
    → p.active ≡ false
    → cycle_peer m i ≡ some m
unfolding cycle_peer
cycle_peer-idle m i p e idle =
    let m' = record m { slots = set m.slots i (tick p) } in
    let ticked : Option ProcessMgr =
      if (tick p).session_timer == 0 then close_peer m' i else some m' in
    let by_active : Bool → Option ProcessMgr = λ b. if b then ticked else some m in
    let at_peer : cycle_peer m i ≡ by_active p.active = rw e refl in at_peer ∙ ap by_active idle

cycled-idle : (p : PeerInfo) → p.active ≡ false → cycled p ≡ p
unfolding cycled
cycled-idle p idle =
    ap
      (λ b. if b then (if (tick p).session_timer == 0 then closed_peer (tick p) else tick p) else p)
      idle

cycled-if_active :
    (p : PeerInfo) (b : Bool)
    → p.active ≡ true
    → ((tick p).session_timer == 0) ≡ b
    → cycled p ≡ (if b then closed_peer (tick p) else tick p)
unfolding cycled
cycled-if_active p b busy now =
    ap
      (λ b. if b then (if (tick p).session_timer == 0 then closed_peer (tick p) else tick p) else p)
      busy
    ∙ ap (λ b. if b then closed_peer (tick p) else tick p) now

cycle_peer-CycledTo :
    (m : ProcessMgr) (i : ℕ) (p : PeerInfo)
    → IsConsistent m
    → get_elem? m.slots i ≡ some p
    → Returns (cycle_peer m i) (CycledTo m (set m.slots i (cycled p)))
unfolding cycle_peer cycled
cycle_peer-CycledTo m i p c e = elim (Bool-cases p.active) [
  | inr idle ↦
      subst (λ r. Returns r (CycledTo m (set m.slots i (cycled p))))
        (sym (cycle_peer-idle m i p e idle))
        (c, sym (ap (set m.slots i) (cycled-idle p idle) ∙ set_same m.slots i p e), refl)
  | inl busy ↦
      let m' = record m { slots = set m.slots i (tick p) } in
      let c' = set_slot-IsConsistent m i p (tick p) m.queued m.written c e refl refl in
      let e' = get_elem?-set_self m.slots i (tick p) p e in
      elim (Bool-cases ((tick p).session_timer == 0)) [
        | inr later ↦
            subst (λ r. Returns r (CycledTo m (set m.slots i (cycled p))))
              (sym (cycle_peer-active m i p false e busy later))
              (c', ap (set m.slots i) (sym (cycled-if_active p false busy later)), refl)
        | inl now ↦
            subst (λ r. Returns r (CycledTo m (set m.slots i (cycled p))))
              (sym (cycle_peer-active m i p true e busy now))
              (Returns-map (close_peer m' i) _ _ (close_peer-IsConsistent m' i (tick p) c' e' busy)
                (λ s r. (
                  r.0,
                  r.1
                      ∙ set-set m.slots i (tick p) (closed_peer (tick p))
                      ∙ ap (set m.slots i) (sym (cycled-if_active p true busy now)),
                  r.4,
                )))
      ]
]

-- The peers from the one at `i` on are cycled.
abbrev cycled_from : ℕ → List PeerInfo → List PeerInfo
cycled_from zero slots = map cycled slots
cycled_from (suc i) [] = []
cycled_from (suc i) (p ∷ slots) = p ∷ cycled_from i slots

cycled_from-set :
    (slots : List PeerInfo) (i : ℕ) (p : PeerInfo)
    → get_elem? slots i ≡ some p
    → cycled_from (suc i) (set slots i (cycled p)) ≡ cycled_from i slots
cycled_from-set [] i p e = cc
cycled_from-set (x ∷ slots) zero p e =
    let same : x ≡ p = cc in ap (λ y. cycled y ∷ map cycled slots) (sym same)
cycled_from-set (x ∷ slots) (suc i) p e = ap (◌∷◌ x) (cycled_from-set slots i p e)

cycled_from-length :
    (slots : List PeerInfo) (i : ℕ) → length slots ≤ i → cycled_from i slots ≡ slots
cycled_from-length [] zero h = refl
cycled_from-length [] (suc i) h = refl
cycled_from-length (p ∷ slots) zero h = absurd (omega arith)
cycled_from-length (p ∷ slots) (suc i) h = ap (◌∷◌ p) (cycled_from-length slots i (omega arith))

peer_at :
    (slots : List PeerInfo) (i : ℕ)
    → i < length slots
    → (p : PeerInfo) × (get_elem? slots i ≡ some p)
peer_at [] i h = elim h [ ]
peer_at (p ∷ slots) zero h = (p, refl)
peer_at (p ∷ slots) (suc i) h = peer_at slots i (omega arith)

cycle_loop-CycledTo :
    (n i : ℕ) (m : ProcessMgr)
    → IsConsistent m
    → i + n ≡ length m.slots
    → Returns (cycle_loop n i m) (CycledTo m (cycled_from i m.slots))
unfolding cycle_loop
cycle_loop-CycledTo zero i m c e = (c, sym (cycled_from-length m.slots i (omega (arith, e))), refl)
cycle_loop-CycledTo (suc n) i m c e =
    let (p, at) = peer_at m.slots i (omega (arith, e)) in
    let next : i + 1 ≡ suc i = omega arith in
    Returns-bind (cycle_peer m i) (cycle_loop n (i + 1)) (CycledTo m (set m.slots i (cycled p))) _
      (cycle_peer-CycledTo m i p c at)
      (λ m' r.
        let size : i + 1 + n ≡ length m'.slots =
          omega (arith, e, ap length r.1, length-set m.slots i (cycled p)) in
        Returns-map (cycle_loop n (i + 1) m') _ _ (cycle_loop-CycledTo n (i + 1) m' r.0 size)
          (λ m'' s. (
            s.0,
            s.1
                ∙ ap (λ k. cycled_from k m'.slots) next
                ∙ ap (cycled_from (suc i)) r.1
                ∙ cycled_from-set m.slots i p at,
            s.2 ∙ r.2,
          )))

-- A cycle of a consistent state comes back: the state is consistent, every active peer is a tick older
-- and closed where its timer is then 0, the others are as they were, and the delay to the next cycle is
-- the one that is configured.
pub life_cycle_handler-cycled :
    (m : ProcessMgr)
    → IsConsistent m
    → Returns
        (life_cycle_handler m)
        (λ r. IsConsistent r.0 × (r.0.slots ≡ map cycled m.slots) × (r.1 ≡ m.cycle_step))
unfolding life_cycle_handler
life_cycle_handler-cycled m c =
    Returns-bind (cycle_loop max_peer_nums 0 m) _ (CycledTo m (cycled_from 0 m.slots)) _
      (cycle_loop-CycledTo max_peer_nums 0 m c (omega (arith, c.full))) (λ m' r. (r.0, r.1, r.2))

-- `n` cycles, one after the other.
unfoldable pub cycles : ℕ → ProcessMgr → Option ProcessMgr
cycles zero m = some m
cycles (suc n) m = do r ← life_cycle_handler m; cycles n r.0

get_elem?-map-cycled :
    (slots : List PeerInfo) (i : ℕ) (p : PeerInfo)
    → get_elem? slots i ≡ some p
    → get_elem? (map cycled slots) i ≡ some (cycled p)
get_elem?-map-cycled [] i p e = cc
get_elem?-map-cycled (x ∷ slots) zero p e = let same : x ≡ p = cc in ap (λ y. some (cycled y)) same
get_elem?-map-cycled (x ∷ slots) (suc i) p e = get_elem?-map-cycled slots i p e

-- The peer at a slot.
abbrev At : ℕ → (PeerInfo → Type 0) → ProcessMgr → Type 0
At i P m = (p : PeerInfo) × (get_elem? m.slots i ≡ some p) × P p

cycled-active :
    (p : PeerInfo)
    → p.active ≡ true
    → p.session_timer < 2 ^ 16
    → 1 < p.session_timer
    → ((cycled p).active ≡ true) × ((cycled p).session_timer + 1 ≡ p.session_timer)
unfolding cycled
cycled-active p a word h = ground arith

cycled-last : (p : PeerInfo) → p.active ≡ true → p.session_timer ≡ 1 → (cycled p).active ≡ false
unfolding cycled
cycled-last p a h = ground arith

-- A peer is active until the last cycle of its timer, and closed after it, where nothing else happens in
-- between: a timer that is not 0 is the number of cycles that the peer has left.
pub cycles-closes :
    (n : ℕ) (m : ProcessMgr) (i : ℕ) (p : PeerInfo)
    → IsConsistent m
    → get_elem? m.slots i ≡ some p
    → p.active ≡ true
    → p.session_timer < 2 ^ 16
    → p.session_timer ≡ suc n
    → Returns (cycles n m) (At i (λ q. q.active ≡ true))
      × Returns (cycles (suc n) m) (At i (λ q. q.active ≡ false))
unfolding cycles
cycles-closes zero m i p c e a word h = (
  (p, e, a),
  Returns-bind (life_cycle_handler m) (λ r. cycles zero r.0) _ _ (life_cycle_handler-cycled m c)
      (λ r k. (
        cycled p,
        ap (λ slots. get_elem? slots i) k.1 ∙ get_elem?-map-cycled m.slots i p e,
        cycled-last p a (omega (arith, h)),
      )),
)
cycles-closes (suc n) m i p c e a word h =
    let older = cycled-active p a word (omega (arith, h)) in
    let later = λ (m' : ProcessMgr). λ (c' : IsConsistent m').
      λ (s : m'.slots ≡ map cycled m.slots).
        cycles-closes n m' i (cycled p) c'
          (ap (λ slots. get_elem? slots i) s ∙ get_elem?-map-cycled m.slots i p e) older.0
          (omega (arith, older.1, word)) (omega (arith, older.1, h)) in
    (
      Returns-bind (life_cycle_handler m) (λ r. cycles n r.0) _ _ (life_cycle_handler-cycled m c)
          (λ r k. (later r.0 k.0 k.1).0),
      Returns-bind (life_cycle_handler m) (λ r. cycles (suc n) r.0) _ _
          (life_cycle_handler-cycled m c) (λ r k. (later r.0 k.0 k.1).1),
    )
