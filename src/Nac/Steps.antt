-- ===== src/Nac/Steps.antt =====
-- The handlers of tfnac/main.c keep its state consistent.
use tflib.Common.{ℕ, suc, ◌+◌, ◌%◌, ◌^◌, ◌<◌, ◌≡◌, refl, sym, ap, ◌∙◌, arith, leb, if◌then◌else◌}
use tflib.Common.{
  Bool, true, false, Bool-cases, Option-cases, inl, inr, ◌⊎◌, subst, some, List, [], ◌∷◌, length,
  get_elem?, set,
}
use tflib.Common.{Returns, length-set, get_elem?-set_self, set-set, bit_or}
use tflib.EventLoop.{EventLoop, ae_readable, above, registered, create_file_event}
use tflib.EventLoop.MaxFd.{IsValid, create_file_event-delete_file_event-IsValid}
use tflib.Nac.{
  PeerInfo, ProcessMgr, close_peer, get_idle_peer, open_peer, seat_peer, peer_request_proc,
  accept_tcp_handler,
}
use tflib.Nac.Links.{
  mask_at, mask_at-set, mask_at-set_self, mask_at-get_elem?, SameBut, count_active, count_active-le,
  Linked, IsConsistent,
}
use tflib.Nac.Links.{
  count_active-set, Distinct-set, All-Linked_opened, All-set_slot, Unused-unregistered, All-at,
}
use tflib.Nac.Closing.{event_at, delete_file_event-unregistered, closed_peer}

-- A change of a slot that keeps the descriptor and whether the peer is active.
pub set_slot-IsConsistent :
    (m : ProcessMgr) (i : ℕ) (p q : PeerInfo) (queued written : List (ℕ × List ℕ))
    → IsConsistent m
    → get_elem? m.slots i ≡ some p
    → q.active ≡ p.active
    → q.fd ≡ p.fd
    → IsConsistent (record m { slots = set m.slots i q; queued = queued; written = written })
set_slot-IsConsistent m i p q queued written c e a f = record {
  loop = c.loop;
  full = length-set m.slots i q ∙ c.full;
  counted = ground (arith, count_active-set p q m.slots i e, a, c.counted);
  linked = All-set_slot p q (Linked m.el.events) m.slots i c.linked (λ qa.
      ap (mask_at m.el.events) f
      ∙ All-at p q (Linked m.el.events) m.slots i e c.linked (sym a ∙ qa));
  distinct = Distinct-set p q m.slots i e (λ qa. inl (sym a ∙ qa, f)) c.distinct;
}

get_idle_peer-idle :
    (slots : List PeerInfo) (k i : ℕ)
    → get_idle_peer slots k ≡ some i
    → (j : ℕ) × (p : PeerInfo) × (i ≡ k + j) × (get_elem? slots j ≡ some p) × (p.active ≡ false)
unfolding get_idle_peer
get_idle_peer-idle [] k i e = absurd (cc)
get_idle_peer-idle (p ∷ slots) k i e = elim (Bool-cases p.active) [
  | inr idle ↦ (0, p, ground arith, refl, idle)
  | inl busy ↦
      let e' : get_idle_peer slots (k + 1) ≡ some i = ground arith in
      let (j, q, at, g, a) = get_idle_peer-idle slots (k + 1) i e' in
      (suc j, q, omega (arith, at), g, a)
]

-- A registration for reading of a descriptor that is not registered.
created :
    (added : EventLoop → ℕ → ℕ → Bool) (l : EventLoop) (fd client_data : ℕ)
    → IsValid l
    → mask_at l.events fd ≡ 0
    → (create_file_event added l fd ae_readable peer_request_proc client_data ≡ some (l, false))
      ⊎ ((l' : EventLoop) × (create_file_event added l fd ae_readable peer_request_proc client_data
            ≡ some (l', true))
          × IsValid l'
          × SameBut fd l.events l'.events
          × (mask_at l'.events fd ≡ 1))
unfolding create_file_event
created added l fd client_data v z = elim (Bool-cases (leb l.setsize fd)) [
  | inl out ↦ inl (rw out refl)
  | inr inside ↦
      let lt : fd < length l.events = ground (arith, v.sized) in
      let (fe, g) = event_at l.events fd lt in
      let unset : fe.mask ≡ 0 = sym (mask_at-get_elem? l.events fd fe g) ∙ z in
      elim (Bool-cases (added l fd ae_readable)) [
        | inr refused ↦ inl (rw (inside, g, refused) refl)
        | inl accepted ↦
            let e = registered fe ae_readable peer_request_proc client_data in
            let l' : EventLoop = record l {
              events = set l.events fd e;
              maxfd = if above fd l.maxfd then some fd else l.maxfd;
            } in
            let made : create_file_event added l fd ae_readable peer_request_proc client_data
                ≡ some (l', true) =
              rw (inside, g, accepted) refl in
            let valid =
              (create_file_event-delete_file_event-IsValid added l fd ae_readable peer_request_proc
                client_data v (λ e. omega (arith, e))).0 in
            inr (
              l',
              made,
              subst (λ o. Returns o (λ r. IsValid r.0)) made valid,
              mask_at-set l.events fd e,
              mask_at-set_self l.events fd e lt ∙ ap (λ k. bit_or k 1) unset,
            )
      ]
]

-- A connection for the idle peer `p`, on a descriptor that is not registered.
open_peer-IsConsistent :
    (added : EventLoop → ℕ → ℕ → Bool) (m : ProcessMgr) (i cfd cip cport : ℕ) (p : PeerInfo)
    → IsConsistent m
    → get_elem? m.slots i ≡ some p
    → p.active ≡ false
    → mask_at m.el.events cfd ≡ 0
    → Returns (open_peer added m i cfd cip cport) IsConsistent
unfolding open_peer close_peer
open_peer-IsConsistent added m i cfd cip cport p c e idle z =
    let opened = record p { fd = cfd; ip = cip % 2 ^ 32; port = cport % 2 ^ 16; active = true } in
    let back = closed_peer opened in
    let timed = record opened { session_timer = m.socket_timeout } in
    let at_i = get_elem?-set_self m.slots i opened p e in
    let unused = Unused-unregistered m.el.events cfd m.slots z c.linked in
    elim (created added m.el cfd i c.loop z) [
      | inl refused ↦
          let count = count_active-set p back m.slots i e in
          let same : count_active (set m.slots i back) ≡ count_active m.slots =
            ground (arith, count, idle) in
          rw
            (
              e,
              refused,
              at_i,
              delete_file_event-unregistered m.el cfd ae_readable c.loop.sized z,
              set-set m.slots i opened back,
            )
            (record {
              loop = c.loop;
              full = length-set m.slots i back ∙ c.full;
              counted = omega (arith, same, c.counted, c.full, count_active-le m.slots);
              linked =
                  All-set_slot p back (Linked m.el.events) m.slots i c.linked
                    (λ a. absurd (ground arith));
              distinct = Distinct-set p back m.slots i e (λ a. absurd (ground arith)) c.distinct;
            })
      | inr (l', made, v, same, one) ↦
          let count = count_active-set p timed m.slots i e in
          let more : count_active (set m.slots i timed) ≡ count_active m.slots + 1 =
            ground (arith, count, idle) in
          let few = count_active-le (set m.slots i timed) in
          rw (e, made)
            (record {
              loop = v;
              full = length-set m.slots i timed ∙ c.full;
              counted = omega (arith, more, few, c.counted, c.full, length-set m.slots i timed);
              linked =
                  All-Linked_opened p timed m.el.events l'.events m.slots i same one unused
                    c.linked;
              distinct = Distinct-set p timed m.slots i e (λ a. inr unused) c.distinct;
            })
    ]

-- The connection of a descriptor that is not registered, or none, leaves a consistent state, whatever the
-- polling layer answers.
pub accept_tcp_handler-IsConsistent :
    (added : EventLoop → ℕ → ℕ → Bool) (m : ProcessMgr) (cfd cip cport : ℕ)
    → IsConsistent m
    → mask_at m.el.events cfd ≡ 0
    → Returns (accept_tcp_handler added m (some (cfd, cip, cport))) IsConsistent
unfolding accept_tcp_handler seat_peer
accept_tcp_handler-IsConsistent added m cfd cip cport c z =
    elim (Option-cases (get_idle_peer m.slots 0)) [
      | inl full ↦ rw full c
      | inr (i, found) ↦
          let (j, p, at, g, idle) = get_idle_peer-idle m.slots 0 i found in
          let same : i ≡ j = omega (arith, at) in
          rw found (
            subst (λ k. Returns (open_peer added m k cfd cip cport) IsConsistent) (sym same)
              (open_peer-IsConsistent added m j cfd cip cport p c g idle z))
    ]
