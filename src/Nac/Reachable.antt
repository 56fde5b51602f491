-- ===== src/Nac/Reachable.antt =====
-- The states that the handlers of tfnac/main.c lead to, one call of the event loop after the other.
use tflib.Common.{
  ℕ, suc, ◌+◌, ◌≡◌, refl, sym, ap, ◌∙◌, arith, subst, Bool, true, some, List, [], ◌∷◌, All, map,
  length, get_elem?, Returns,
}
use tflib.Socket.{ReadResult}
use tflib.EventLoop.{FileEvent, EventLoop}
use tflib.EventLoop.MaxFd.{IsValid}
use tflib.Nac.{
  PeerInfo, ProcessMgr, init_peers, max_peer_nums, accept_tcp_handler, life_cycle_handler,
}
use tflib.Nac.Handlers.{peer_request_handler, message_response_handler}
use tflib.Nac.Links.{IsConsistent, mask_at, Linked, Distinct, count_active}
use tflib.Nac.Steps.{accept_tcp_handler-IsConsistent}
use tflib.Nac.Serving.{
  Announces, AnnouncesResponse, peer_request_handler-IsConsistent,
  message_response_handler-IsConsistent,
}
use tflib.Nac.Cycles.{cycled, life_cycle_handler-cycled}

-- The state before the first event: the peers are set up, and the loop has the descriptors of the
-- server and of the socket pair, or none.
pub record IsStart (m : ProcessMgr) : Type 0 where
  pub loop : IsValid m.el
  pub before : List PeerInfo
  pub whole : length before ≡ max_peer_nums
  pub peers : m.slots ≡ init_peers before 0
  pub none_yet : m.connections ≡ 0

-- One call of a handler that comes back.
pub data Step (m m' : ProcessMgr) : Type 0 where
  accept :
      (added : EventLoop → ℕ → ℕ → Bool) (cfd cip cport : ℕ)
      → mask_at m.el.events cfd ≡ 0
      → accept_tcp_handler added m (some (cfd, cip, cport)) ≡ some m'
      → Step m m'
  request :
      (i : ℕ) (p : PeerInfo) (now : ℕ) (sends : Bool) (head : ReadResult) (body : ℕ → ReadResult)
      → get_elem? m.slots i ≡ some p
      → p.active ≡ true
      → Announces head body
      → peer_request_handler now sends head body m i ≡ some m'
      → Step m m'
  response :
      (taken : Bool) (head : ReadResult) (body : ℕ → ReadResult)
      → AnnouncesResponse head body
      → message_response_handler taken head body m ≡ some m'
      → Step m m'
  cycle : (delay : ℕ) → life_cycle_handler m ≡ some (m', delay) → Step m m'

pub data Reach (m : ProcessMgr) : ProcessMgr → Type 0 where
  here : Reach m m
  next : {m' m'' : ProcessMgr} → Reach m m' → Step m' m'' → Reach m m''

Step-IsConsistent : {m m' : ProcessMgr} → Step m m' → IsConsistent m → IsConsistent m'
Step-IsConsistent {m} {m'} (accept added cfd cip cport z e) c =
    subst (λ r. Returns r IsConsistent) e
      (accept_tcp_handler-IsConsistent added m cfd cip cport c z)
Step-IsConsistent {m} {m'} (request i p now sends head body at active a e) c =
    subst (λ r. Returns r IsConsistent) e
      (peer_request_handler-IsConsistent m i p c at active now sends head body a)
Step-IsConsistent {m} {m'} (response taken head body a e) c =
    subst (λ r. Returns r IsConsistent) e
      (message_response_handler-IsConsistent taken head body m c a)
Step-IsConsistent {m} {m'} (cycle delay e) c =
    (subst
      (λ r.
        Returns r (λ s. IsConsistent s.0 × (s.0.slots ≡ map cycled m.slots) × (s.1 ≡ m.cycle_step)))
      e (life_cycle_handler-cycled m c)).0

init_peers-none :
    (es : List FileEvent) (before : List PeerInfo) (i : ℕ)
    → (length (init_peers before i) ≡ length before)
      × (count_active (init_peers before i) ≡ 0)
      × All (Linked es) (init_peers before i)
      × Distinct (init_peers before i)
unfolding init_peers count_active
init_peers-none es [] i = (refl, refl, tt, tt)
init_peers-none es (peer ∷ before) i =
    let rest = init_peers-none es before (i + 1) in
    (
      ap suc rest.0,
      rest.1,
      (λ a. absurd (ground arith), rest.2),
      (λ a. absurd (ground arith), rest.3),
    )

pub start-IsConsistent : (m : ProcessMgr) → IsStart m → IsConsistent m
start-IsConsistent m s =
    let none = init_peers-none m.el.events s.before 0 in
    record {
      loop = s.loop;
      full = ap length s.peers ∙ none.0 ∙ s.whole;
      counted = omega (arith, s.none_yet, ap count_active s.peers, none.1);
      linked = subst (All (Linked m.el.events)) (sym s.peers) none.2;
      distinct = subst Distinct (sym s.peers) none.3;
    }

-- Connections, requests, responses and rounds of the life cycle are handled from the start on, in any order.
-- Each call of a handler comes back. A descriptor that is accepted is not registered; a request is read for
-- an active peer, and announces at most 4080 bytes or more than 4096; a response announces 16 to 4096 bytes;
-- each read fails or gives as many bytes as it was asked for. Then in each state that is reached the number of connections is that of
-- the active peers, these have different descriptors, each registered for reading, and `maxfd` is right.
pub Reach-IsConsistent : {m m' : ProcessMgr} → IsStart m → Reach m m' → IsConsistent m'
Reach-IsConsistent {m} s here = start-IsConsistent m s
Reach-IsConsistent s (next r st) = Step-IsConsistent st (Reach-IsConsistent s r)
