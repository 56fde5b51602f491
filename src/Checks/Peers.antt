-- ===== src/Checks/Peers.antt =====
-- Inputs of the theorems on tfnac.
use tflib.Common.{
  ℕ, ◌+◌, ◌≡◌, ◌≢◌, refl, arith, Bool, true, false, some, none, List, [], ◌∷◌, ◌++◌, length, drop,
  set, get_elem?,
}
use tflib.Common.{Returns, replicate}
use tflib.EventLoop.{EventLoop, create_event_loop, create_file_event}
use tflib.EventLoop.MaxFd.{highest, IsValid}
use tflib.Common.{length-replicate}
use tflib.Nac.{
  PeerInfo, ProcessMgr, init_peers, zero_peer, max_peer_nums, accept_tcp_handler, get_idle_peer,
  seat_peer, open_peer, peer_id_offset,
}
use tflib.Nac.Links.{IsConsistent, mask_at}
use tflib.Socket.{received, host16cpy, net32cpy}
use tflib.Nac.Handlers.{destination, wait_response, peer_request_handler}
use tflib.Nac.Packets.{
  answered, forwarded, respond, peer_request_handler-forwarded, peer_request_handler-long,
  wait_response-answered,
}
use tflib.Nac.Cycles.{cycles, cycles-closes}
use tflib.Nac.Reachable.{IsStart, Step, Reach, Reach-IsConsistent}

-- A state with the first slot and the others.
module _ (first : PeerInfo) (others : List PeerInfo) where
  abbrev with_slots : ProcessMgr
  with_slots = record {
    app_id = 1;
    socket_timeout = 1;
    connections = 0;
    cycle_step = 60;
    device_out_queue_id = some 9;
    el = create_event_loop 16 0;
    slots = first ∷ others;
    closed = [];
    queued = [];
    written = [];
  }

abbrev first : PeerInfo
first = record {
  id = peer_id_offset;
  fd = 0;
  active = false;
  authed = false;
  ip = 0;
  port = 0;
  session_timer = 0;
}

abbrev start : ProcessMgr
start = with_slots first (init_peers (replicate 9999 zero_peer) 1)

start-slots : start.slots ≡ init_peers (replicate max_peer_nums zero_peer) 0
unfolding init_peers
start-slots = refl

start-IsValid : IsValid (create_event_loop 16 0)
unfolding create_event_loop highest
start-IsValid = record { sized = refl; maximal = refl }

start-IsStart : IsStart start
start-IsStart = record {
  loop = start-IsValid;
  before = replicate max_peer_nums zero_peer;
  whole = length-replicate max_peer_nums zero_peer;
  peers = start-slots;
  none_yet = refl;
}

unregistered : mask_at (create_event_loop 16 0).events 5 ≡ 0
unfolding create_event_loop mask_at
unregistered = refl

abbrev yes : EventLoop → ℕ → ℕ → Bool
yes l fd mask = true

-- A connection on the descriptor 5, and the peer that it makes.
abbrev peer : PeerInfo
peer = record first { fd = 5; ip = 7; port = 80; active = true; session_timer = 1 }

abbrev serving_with : List PeerInfo → ProcessMgr
serving_with others = record (with_slots peer others) {
  connections = 1;
  el = record (create_event_loop 16 0) {
    maxfd = some 5;
    events =
        set (create_event_loop 16 0).events 5
          (record { mask = 1; rfile_proc = 1; wfile_proc = 0; client_data = 0 });
  };
}

accepts :
    (others : List PeerInfo)
    → accept_tcp_handler yes (with_slots first others) (some (5, 7, 80))
      ≡ some (serving_with others)
unfolding accept_tcp_handler seat_peer open_peer get_idle_peer create_file_event create_event_loop
accepts others = refl

abbrev serving : ProcessMgr
serving = serving_with (init_peers (replicate 9999 zero_peer) 1)

Reach-IsConsistent_example : IsConsistent serving
Reach-IsConsistent_example = Reach-IsConsistent start-IsStart (
    Reach.next Reach.here
      (Step.accept yes 5 7 80 unregistered (accepts (init_peers (replicate 9999 zero_peer) 1))))

serving-IsConsistent : IsConsistent serving
serving-IsConsistent = Reach-IsConsistent start-IsStart (
    Reach.next Reach.here
      (Step.accept yes 5 7 80 unregistered (accepts (init_peers (replicate 9999 zero_peer) 1))))

cycles-closes_example :
    Returns
      (cycles 0 serving)
      (λ m. (q : PeerInfo) × (get_elem? m.slots 0 ≡ some q) × (q.active ≡ true))
    × Returns
        (cycles 1 serving)
        (λ m. (q : PeerInfo) × (get_elem? m.slots 0 ≡ some q) × (q.active ≡ false))
cycles-closes_example =
    cycles-closes 0 serving 0 peer serving-IsConsistent refl refl (omega arith) refl

-- A request of ten bytes for the destination 3.
abbrev packet : List ℕ
packet = 0 ∷ 3 ∷ 0 ∷ 1 ∷ 0 ∷ 0 ∷ 0 ∷ 0 ∷ 65 ∷ 66 ∷ []

packet-word : net32cpy packet ≡ some 196609
unfolding net32cpy
packet-word = refl

packet-typed : destination 196609 ≢ 0
unfolding destination
packet-typed e = omega (arith, e)

peer_request_handler-forwarded_example :
    peer_request_handler 99 true
      (received (host16cpy (length packet)))
      (λ len. received packet)
      serving
      0
    ≡ some (forwarded serving 0 peer 99 196609 packet)
peer_request_handler-forwarded_example =
    peer_request_handler-forwarded serving 0 peer 99 196609 9 packet (λ len. received packet) refl
      packet-word refl refl (omega arith) (omega arith) packet-typed

-- A request of 4090 bytes.
abbrev long : List ℕ
long = 0 ∷ 3 ∷ 0 ∷ 1 ∷ replicate 4086 0

long-word : net32cpy long ≡ some 196609
unfolding net32cpy
long-word = refl

peer_request_handler-long_example :
    peer_request_handler 99 true
      (received (host16cpy (length long)))
      (λ len. received long)
      serving
      0
    ≡ none
peer_request_handler-long_example =
    peer_request_handler-long serving 0 peer 99 196609 long (λ len. received long) true refl
      long-word refl (omega arith) (omega arith)

-- A response of 25 bytes for the second peer.
abbrev message : List ℕ
message = replicate 8 0 ++ (1 ∷ 51 ∷ 79 ∷ 225 ∷ []) ++ replicate 12 0 ++ (65 ∷ [])

abbrev written : List ℕ
written = host16cpy 25 ++ message

message-written : wait_response message ≡ some written
unfolding wait_response
message-written = refl

message-word : net32cpy (drop 8 message) ≡ some (peer_id_offset + 1)
unfolding net32cpy
message-word = refl

abbrev second : ProcessMgr
second = record serving { slots = first ∷ peer ∷ [] }

wait_response-answered_example :
    respond written true second ≡ some (answered second 1 peer (host16cpy 9 ++ drop 16 message))
wait_response-answered_example =
    wait_response-answered message written message-written (omega arith) second 1 peer refl refl
      (omega arith) (omega arith) message-word
