-- ===== src/Nac/Launch/Serving.antt =====
-- Whether the states of tfnac are consistent from its start on.
use tflib.Common.{
  ℕ, ◌≡◌, ◌≢◌, refl, sym, ap, ◌∙◌, Returns, Returns-map, Bool, true, false, Option, none, some,
  List, length, length-replicate, replicate,
}
use tflib.Common.Int.{pos}
use tflib.Socket.Opening.{Net}
use tflib.Nac.{PeerInfo, ProcessMgr, max_peer_nums, zero_peer, init_peers}
use tflib.Nac.Startup.{
  Settings, IpcAnswers, Initialized, load_sharememory, create_messagequeue, open_ipc,
}
use tflib.Nac.Launch.{LaunchAnswers, launch}
use tflib.Nac.Launch.Starting.{Succeeds, Enters, launch-Enters}
use tflib.Nac.Links.{IsConsistent, count_active}
use tflib.Nac.Reachable.{Reach, Reach-IsConsistent}

-- Both queues, and the memory or the chance to create it.
abbrev pub ipc_of : Option (List PeerInfo) → Bool → ℕ → ℕ → IpcAnswers
ipc_of memory creates in_queue out_queue = record {
  memory = memory;
  creates = creates;
  in_queue = some in_queue;
  out_queue = some out_queue;
}

-- The peers will be set up: there is no shared memory yet, and it can be created, or it has all the slots
-- and the settings say to reload it.
abbrev pub Fresh : Option (List PeerInfo) → Bool → Bool → Type 0
Fresh none creates reload = creates ≡ true
Fresh (some slots) creates reload = (reload ≡ true) × (length slots ≡ max_peer_nums)

-- What `open_ipc` gives then.
abbrev pub Ready : Settings → Initialized → Type 0
Ready settings i =
    ((before : List PeerInfo) × (length before ≡ max_peer_nums) × (i.slots ≡ init_peers before 0))
    × (i.settings.app_id ≡ settings.app_id)
    × (i.settings.server_port ≡ settings.server_port)
    × (i.settings.server_ip ≡ settings.server_ip)

open_ipc-Ready :
    (memory : Option (List PeerInfo)) (creates : Bool) (in_queue out_queue : ℕ)
    (settings : Settings)
    → Fresh memory creates settings.reload
    → Returns
        (open_ipc
          (record {
            memory = memory;
            creates = creates;
            in_queue = some in_queue;
            out_queue = some out_queue;
          })
          false
          settings)
        (Ready settings)
unfolding open_ipc load_sharememory create_messagequeue
open_ipc-Ready none creates in_queue out_queue settings fresh = rw fresh (
  (replicate max_peer_nums zero_peer, length-replicate max_peer_nums zero_peer, refl),
  refl,
  refl,
  refl,
)
open_ipc-Ready (some slots) creates in_queue out_queue settings fresh =
    rw fresh.0 ((slots, fresh.1, refl), refl, refl, refl)

-- Where the process comes to `aeMain`, each state that follows is consistent; where all calls succeed it does
-- come there.
abbrev pub Runs : LaunchAnswers → Option ProcessMgr → Type 0
Runs answers none = ¬ Succeeds answers
Runs answers (some m) = (m' : ProcessMgr) → Reach m m' → IsConsistent m'

Enters-Runs :
    (answers : LaunchAnswers) (i : Initialized) (before : List PeerInfo) (o : Option ProcessMgr)
    → length before ≡ max_peer_nums
    → i.slots ≡ init_peers before 0
    → Enters answers i o
    → Runs answers o
Enters-Runs answers i before none whole slots h = h
Enters-Runs answers i before (some m) whole slots h = λ m' r.
    Reach-IsConsistent
      (record { loop = h.0; before = before; whole = whole; peers = h.1 ∙ slots; none_yet = h.2 }) r

-- Where the peers will be set up, the queues are there, the application's id is not negative and the port is
-- not 0: `initialize` succeeds behind the settings, and no answer of the system makes the rest of `main`
-- fault. Where it comes to `aeMain`, which it does where all calls succeed, each state that is reached from
-- there by the steps of `Reach`, on their conditions, is consistent.
pub open_ipc-launch-Reach :
    (memory : Option (List PeerInfo)) (creates : Bool) (in_queue out_queue app_id : ℕ)
    (settings : Settings) (answers : LaunchAnswers) (net : Net)
    → Fresh memory creates settings.reload
    → settings.app_id ≡ pos app_id
    → settings.server_port ≢ 0
    → Returns
        (open_ipc (ipc_of memory creates in_queue out_queue) false settings)
        (λ i. Returns (launch answers i net) (Runs answers))
open_ipc-launch-Reach memory creates in_queue out_queue app_id settings answers net fresh app port =
    Returns-map (open_ipc (ipc_of memory creates in_queue out_queue) false settings)
      (Ready settings) _ (open_ipc-Ready memory creates in_queue out_queue settings fresh)
      (λ i ready.
        let (before, whole, slots) = ready.0 in
        Returns-map (launch answers i net) (Enters answers i) (Runs answers)
          (launch-Enters answers i app_id net (ready.1 ∙ app) (λ e. port (sym ready.2 ∙ e)))
          (λ o. Enters-Runs answers i before o whole slots))

-- The slots are those of the memory, and the count of connections is not that of the active peers; or the
-- process does not come to `aeMain`, since a call fails.
abbrev pub Stale : List PeerInfo → LaunchAnswers → Option ProcessMgr → Type 0
Stale slots answers none = ¬ Succeeds answers
Stale slots answers (some m) = (m.slots ≡ slots) × (m.connections ≢ count_active m.slots)

Enters-Stale :
    (slots : List PeerInfo) (answers : LaunchAnswers) (i : Initialized) (o : Option ProcessMgr)
    → i.slots ≡ slots
    → count_active slots ≢ 0
    → Enters answers i o
    → Stale slots answers o
Enters-Stale slots answers i none same active h = h
Enters-Stale slots answers i (some m) same active h =
    let kept : m.slots ≡ slots = h.1 ∙ same in
    (kept, λ e. active (sym (ap count_active kept) ∙ sym e ∙ h.2))

open_ipc-keeps :
    (slots : List PeerInfo) (creates : Bool) (in_queue out_queue : ℕ) (settings : Settings)
    → settings.reload ≡ false
    → Returns (open_ipc (ipc_of (some slots) creates in_queue out_queue) false settings) (λ i.
      (i.slots ≡ slots)
      × (i.settings.app_id ≡ settings.app_id)
      × (i.settings.server_port ≡ settings.server_port))
unfolding open_ipc load_sharememory create_messagequeue
open_ipc-keeps slots creates in_queue out_queue settings off = rw off (refl, refl, refl)

-- Where there is shared memory with its 10000 slots and a peer that is still active, and the settings do not say
-- to reload it, `initialize` succeeds behind the settings and nothing faults, but where the process comes to
-- `aeMain`, which it does where all calls succeed, it has these slots, and its count of connections is not the
-- number of its active peers. The queues are there, the application's id is not negative and the port is not 0.
pub open_ipc-launch-Stale :
    (slots : List PeerInfo) (creates : Bool) (in_queue out_queue app_id : ℕ) (settings : Settings)
    (answers : LaunchAnswers) (net : Net)
    → length slots ≡ max_peer_nums
    → settings.reload ≡ false
    → count_active slots ≢ 0
    → settings.app_id ≡ pos app_id
    → settings.server_port ≢ 0
    → Returns
        (open_ipc (ipc_of (some slots) creates in_queue out_queue) false settings)
        (λ i. Returns (launch answers i net) (Stale slots answers))
open_ipc-launch-Stale slots creates in_queue out_queue app_id settings answers net whole off active
      app port =
    Returns-map (open_ipc (ipc_of (some slots) creates in_queue out_queue) false settings) _ _
      (open_ipc-keeps slots creates in_queue out_queue settings off)
      (λ i kept.
        Returns-map (launch answers i net) (Enters answers i) (Stale slots answers)
          (launch-Enters answers i app_id net (kept.1 ∙ app) (λ e. port (sym kept.2 ∙ e)))
          (λ o. Enters-Stale slots answers i o kept.0 active))
