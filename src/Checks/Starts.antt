-- ===== src/Checks/Starts.antt =====
-- Inputs of the theorems on the start, the limits and the signals of tfnac.
use tflib.Common.{zero, suc, replicate, length-replicate}
use tflib.Common.{ℕ, ◌<◌, ◌≤◌, ◌≡◌, ◌⊎◌, refl, arith, Returns, true, false, some, [], ◌∷◌}
use tflib.Common.Int.{pos}
use tflib.Socket.Opening.{SystemAnswers, Net, connected}
use tflib.Common.{List}
use tflib.Common.{ap}
use tflib.Conf.{Group}
use tflib.Nac.Startup.Keys.{general_key, default_log_file, default_share_path, default_queue_path}
use tflib.Nac.{PeerInfo, zero_peer}
use tflib.Nac.Startup.{Settings, open_ipc}
use tflib.Nac.Launch.{LaunchAnswers, launch}
use tflib.Nac.Launch.Serving.{ipc_of, Stale, open_ipc-launch-Stale}
use tflib.Nac.Links.{count_active}
use tflib.Nac.Limits.{max_files, adjust_peers_limit, adjust_peers_limit_lem}
use tflib.Nac.Signals.{
  sigint, sigterm, sigusr1, Control, IsControl, any_quits, handle_all, signal_handler-IsControl_all,
}

abbrev good_sockets : SystemAnswers
good_sockets = record {
  socket = some 3;
  reuses = true;
  gets_flags = true;
  sets_flags = true;
  connects = connected;
  binds = true;
  listens = true;
}

abbrev good_answers : LaunchAnswers
good_answers = record {
  sockets = good_sockets;
  makes_loop = true;
  now = 100;
  added = λ l fd mask. true;
  pair = some (4, 5);
  cur_sec = 100;
  cur_ms = 0;
  oldlimit = some 1024;
  sets = λ limit. true;
}

abbrev some_settings : Settings
some_settings = record {
  log_level = 0;
  log_file = [];
  app_id = pos 120;
  device_id = pos 1200;
  reload = false;
  app_share_path = [];
  app_memory_id = pos 1;
  device_queue_path = [];
  device_in_msg_id = pos 15;
  device_out_msg_id = pos 16;
  server_ip = 2130706433;
  server_port = 7960;
  socket_timeout = 300;
  cycle_step = 1000;
}

abbrev no_sockets : Net
no_sockets = record { held = []; asked = [] }

-- `[general]`, without a line's end, and nothing in the group.
abbrev general_line : List ℕ
general_line = b'[' ∷ b'g' ∷ b'e' ∷ b'n' ∷ b'e' ∷ b'r' ∷ b'a' ∷ b'l' ∷ b']' ∷ []

abbrev general_group : Group
general_group = record { name = general_key; pairs = [] }

-- The settings that are there without a pair.
abbrev default_settings : Settings
default_settings = record {
  log_level = 0;
  log_file = default_log_file;
  app_id = pos 120;
  device_id = pos 1200;
  reload = false;
  app_share_path = default_share_path;
  app_memory_id = pos 1;
  device_queue_path = default_queue_path;
  device_in_msg_id = pos 15;
  device_out_msg_id = pos 16;
  server_ip = 2130706433;
  server_port = 7960;
  socket_timeout = 300;
  cycle_step = 1000;
}

-- A peer that the process before left active.
abbrev left_peer : PeerInfo
left_peer = record zero_peer { fd = 9; active = true }

-- It is in the first slot, and the others are as they were created.
abbrev left_slots : List PeerInfo
left_slots = left_peer ∷ replicate 9999 zero_peer

count_active-zero_peers : (n : ℕ) → count_active (replicate n zero_peer) ≡ 0
unfolding count_active
count_active-zero_peers zero = refl
count_active-zero_peers (suc n) = count_active-zero_peers n

one_active : count_active left_slots ≡ 1
unfolding count_active
one_active = ap suc (count_active-zero_peers 9999)

open_ipc-launch-Stale_example :
    Returns
      (open_ipc (ipc_of (some left_slots) true 7 8) false default_settings)
      (λ i. Returns (launch good_answers i no_sockets) (Stale left_slots good_answers))
open_ipc-launch-Stale_example =
    open_ipc-launch-Stale left_slots true 7 8 120 default_settings good_answers no_sockets
      (ap suc (length-replicate 9999 zero_peer)) refl (λ e. omega (arith, e, one_active)) refl
      (λ e. omega (arith, e))

adjust_peers_limit_example :
    Returns
      (adjust_peers_limit (λ f. true) (some 1024))
      (λ r. (f : ℕ) × (r ≡ some f) × ((f ≡ 1024) ⊎ ((1024 < f) × (f ≤ max_files) × (true ≡ true))))
adjust_peers_limit_example = adjust_peers_limit_lem (λ f. true) 1024 (omega arith)

abbrev calm : Control
calm = record { log_level = 0; quitting = false; stop = false; mq_exit = false; posted = [] }

calm-IsControl : IsControl false calm
calm-IsControl = record { level = omega arith; quits = refl; stops = refl; posts = refl }

signal_handler-IsControl_all_example :
    IsControl
      (any_quits (sigusr1 ∷ sigint ∷ sigterm ∷ []) false)
      (handle_all (sigusr1 ∷ sigint ∷ sigterm ∷ []) calm)
signal_handler-IsControl_all_example =
    signal_handler-IsControl_all (sigusr1 ∷ sigint ∷ sigterm ∷ []) false calm calm-IsControl
