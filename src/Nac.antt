-- ===== src/Nac.antt =====
-- tfnac: the peers of tfnac/main.c and tfnac/config.c, which are connected clients, and the handlers
-- that the event loop calls. A peer is named by its slot. The descriptors closed, the messages put on the
-- queue and the bytes written to sockets are recorded, the last one first.
pub mod Startup
pub mod Launch
pub mod Limits
pub mod Signals
pub mod Handlers
pub mod Links
pub mod Closing
pub mod Steps
pub mod Serving
pub mod Cycles
pub mod Packets
pub mod Reachable
use tflib.Common.{ℕ, zero, suc, ◌+◌, ◌-◌, ◌%◌, ◌^◌, ltb, ◌==◌, if◌then◌else◌, ◌>>=◌}
use tflib.Common.{Bool, true, false, not, ◌&&◌, Option, none, some, List, [], ◌∷◌, get_elem?, set}
use tflib.EventLoop.{EventLoop, ae_readable, create_file_event, delete_file_event}

abbrev pub max_peer_nums : ℕ
max_peer_nums = 10000

abbrev pub peer_id_offset : ℕ
peer_id_offset = 20140000

pub record PeerInfo : Type 0 where
  pub id : ℕ
  pub fd : ℕ
  pub active : Bool
  pub authed : Bool
  pub ip : ℕ
  pub port : ℕ
  pub session_timer : ℕ

pub record ProcessMgr : Type 0 where
  pub app_id : ℕ
  pub socket_timeout : ℕ
  pub connections : ℕ
  pub cycle_step : ℕ
  pub device_out_queue_id : Option ℕ
  pub el : EventLoop
  pub slots : List PeerInfo
  pub closed : List ℕ
  pub queued : List (ℕ × List ℕ)
  pub written : List (ℕ × List ℕ)

-- The memory that `load_sharememory` creates is 0.
abbrev pub zero_peer : PeerInfo
zero_peer = record {
  id = 0;
  fd = 0;
  active = false;
  authed = false;
  ip = 0;
  port = 0;
  session_timer = 0;
}

-- The slots from `i` on, where `reload` is set.
unfoldable pub init_peers : List PeerInfo → ℕ → List PeerInfo
init_peers [] i = []
init_peers (peer ∷ slots) i =
    record peer {
      id = i + peer_id_offset;
      fd = 0;
      active = false;
      authed = false;
      session_timer = 0;
    }
    ∷ init_peers slots (i + 1)

-- The slot, from `i` on, of the first peer that is not active.
unfoldable pub get_idle_peer : List PeerInfo → ℕ → Option ℕ
get_idle_peer [] i = none
get_idle_peer (peer ∷ slots) i =
    let rest = get_idle_peer slots (i + 1) in if not peer.active then some i else rest

-- `none` is an access out of bounds, `some none` is `NULL`. The index is an `int`, which 2^31 and
-- more are negative for.
unfoldable pub get_active_peer : List PeerInfo → ℕ → Option (Option ℕ)
get_active_peer slots id =
    let index = (id + 2 ^ 32 - peer_id_offset) % 2 ^ 32 in
    if ltb 0 index && ltb index max_peer_nums
    then (do peer ← get_elem? slots index; some (if peer.active then some index else none))
    else some none

unfoldable pub close_peer : ProcessMgr → ℕ → Option ProcessMgr
close_peer m i = do
  peer ← get_elem? m.slots i
  el ← delete_file_event m.el peer.fd ae_readable
  some (record m {
    el = el;
    slots = set m.slots i (record peer { active = false; authed = false });
    closed = peer.fd ∷ m.closed;
    connections = (m.connections + 2 ^ 16 - 1) % 2 ^ 16;
  })

-- One peer of `life_cycle_handler`. The timer is a 16-bit word.
unfoldable pub cycle_peer : ProcessMgr → ℕ → Option ProcessMgr
cycle_peer m i = do
  peer ← get_elem? m.slots i
  let timer = (peer.session_timer + 2 ^ 16 - 1) % 2 ^ 16
  let m' = record m { slots = set m.slots i (record peer { session_timer = timer }) }
  if peer.active then (if timer == 0 then close_peer m' i else some m') else some m

-- The peers from `i` on, `n` of them.
unfoldable pub cycle_loop : ℕ → ℕ → ProcessMgr → Option ProcessMgr
cycle_loop zero i m = some m
cycle_loop (suc n) i m = do m' ← cycle_peer m i; cycle_loop n (i + 1) m'

-- What the handler returns is the delay until it is called again.
unfoldable pub life_cycle_handler : ProcessMgr → Option (ProcessMgr × ℕ)
life_cycle_handler m = do m' ← cycle_loop max_peer_nums 0 m; some (m', m'.cycle_step)

-- What `tfnet_tcp_accept2` gives: a descriptor, an address and a port, or an error.
abbrev pub Accepted : Type 0
Accepted = Option (ℕ × ℕ × ℕ)

-- `peer_request_handler`, as a number that stands for its address.
abbrev pub peer_request_proc : ℕ
peer_request_proc = 1

-- A peer that was found for the connection.
unfoldable pub open_peer :
    (EventLoop → ℕ → ℕ → Bool) → ProcessMgr → ℕ → ℕ → ℕ → ℕ → Option ProcessMgr
open_peer added m i cfd cip cport = do
  peer ← get_elem? m.slots i
  let opened = record peer { fd = cfd; ip = cip % 2 ^ 32; port = cport % 2 ^ 16; active = true }
  let m₁ = record m { slots = set m.slots i opened; connections = (m.connections + 1) % 2 ^ 16 }
  (el, ok) ← create_file_event added m₁.el cfd ae_readable peer_request_proc i
  if ok
      then some (record m₁ {
        el = el;
        slots = set m.slots i (record opened { session_timer = m.socket_timeout });
      })
      else close_peer (record m₁ { el = el }) i

-- The slot that was found, if any; where there is none, the descriptor stays open.
unfoldable pub seat_peer :
    (EventLoop → ℕ → ℕ → Bool) → ProcessMgr → ℕ × ℕ × ℕ → Option ℕ → Option ProcessMgr
seat_peer added m (cfd, cip, cport) none = some m
seat_peer added m (cfd, cip, cport) (some i) = open_peer added m i cfd cip cport

-- `added` is the polling layer's answer.
unfoldable pub accept_tcp_handler :
    (EventLoop → ℕ → ℕ → Bool) → ProcessMgr → Accepted → Option ProcessMgr
accept_tcp_handler added m none = some m
accept_tcp_handler added m (some connection) =
    seat_peer added m connection (get_idle_peer m.slots 0)
