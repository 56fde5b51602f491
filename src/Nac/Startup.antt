-- ===== src/Nac/Startup.antt =====
-- The start of tfnac: `initialize` of tfnac/config.c, over the configuration file and the answers of the
-- system, with the shared memory and the message queues.
pub mod Keys
use tflib.Common.{ℕ, ◌+◌, ◌-◌, ◌%◌, ◌^◌, leb, if◌then◌else◌, ◌>>=◌}
use tflib.Common.{
  Bool, true, false, not, ◌||◌, Option, none, some, List, [], ◌∷◌, length, replicate, get_elem?,
}
use tflib.Common.Int.{ℤ, pos, negsuc}
use tflib.Socket.{ReadAnswer}
use tflib.Conf.{
  Group, Config, max_filename_len, cfg_create, find_group, get_string, get_bool, get_int,
}
use tflib.Nac.{PeerInfo, max_peer_nums, zero_peer, init_peers}
use tflib.Nac.Startup.Keys.{
  general_key, log_file_level_key, log_file_name_key, app_id_key, device_id_key, reload_key,
  app_share_path_key, app_memory_id_key, device_queue_path_key, device_in_msg_id_key,
  device_out_msg_id_key, server_ip_key, server_port_key, socket_timeout_key, cycle_step_key,
  default_log_file, default_share_path, default_queue_path, default_ip,
}

-- What the process manager takes from the file.
pub record Settings : Type 0 where
  pub log_level : ℕ
  pub log_file : List ℕ
  pub app_id : ℤ
  pub device_id : ℤ
  pub reload : Bool
  pub app_share_path : List ℕ
  pub app_memory_id : ℤ
  pub device_queue_path : List ℕ
  pub device_in_msg_id : ℤ
  pub device_out_msg_id : ℤ
  pub server_ip : ℕ
  pub server_port : ℕ
  pub socket_timeout : ℕ
  pub cycle_step : ℕ

-- An `int` kept in an unsigned word of `w` bits.
unfoldable pub unsigned_of : ℕ → ℤ → ℕ
unsigned_of w (pos n) = n % 2 ^ w
unsigned_of w (negsuc n) = 2 ^ w - 1 - n % 2 ^ w

-- `strcpy` into an array of `MAX_FILENAME_LEN` bytes.
unfoldable pub copy_name : List ℕ → Option (List ℕ)
copy_name name = if leb max_filename_len (length name) then none else some name

-- `pton` is the address that `tfnet_pton` gives for a text.
unfoldable pub read_settings : (List ℕ → ℕ) → List (List ℕ × List ℕ) → Option Settings
read_settings pton group = do
  log_level ← get_int group log_file_level_key (pos 0)
  log_name ← get_string group log_file_name_key default_log_file
  log_file ← copy_name log_name
  app_id ← get_int group app_id_key (pos 120)
  device_id ← get_int group device_id_key (pos 1200)
  reload ← get_bool group reload_key false
  share_name ← get_string group app_share_path_key default_share_path
  share_path ← copy_name share_name
  memory_id ← get_int group app_memory_id_key (pos 1)
  queue_name ← get_string group device_queue_path_key default_queue_path
  queue_path ← copy_name queue_name
  in_msg_id ← get_int group device_in_msg_id_key (pos 15)
  out_msg_id ← get_int group device_out_msg_id_key (pos 16)
  ip ← get_string group server_ip_key default_ip
  port ← get_int group server_port_key (pos 7960)
  timeout ← get_int group socket_timeout_key (pos 300)
  step ← get_int group cycle_step_key (pos 1000)
  some (record {
    log_level = unsigned_of 8 log_level;
    log_file = log_file;
    app_id = app_id;
    device_id = device_id;
    reload = reload;
    app_share_path = share_path;
    app_memory_id = memory_id;
    device_queue_path = queue_path;
    device_in_msg_id = in_msg_id;
    device_out_msg_id = out_msg_id;
    server_ip = pton ip;
    server_port = unsigned_of 16 port;
    socket_timeout = unsigned_of 16 timeout;
    cycle_step = unsigned_of 32 step;
  })

-- The slots of the shared memory that there is, or of one that is created, which sets `reload`.
unfoldable pub load_sharememory :
    Option (List PeerInfo) → Bool → Bool → Option (List PeerInfo × Bool)
load_sharememory (some slots) creates reload = some (slots, reload)
load_sharememory none creates reload =
    if creates then some (replicate max_peer_nums zero_peer, true) else none

unfoldable pub create_messagequeue : Option ℕ → Option ℕ → Option (ℕ × ℕ)
create_messagequeue none out_queue = none
create_messagequeue (some in_queue) none = none
create_messagequeue (some in_queue) (some out_queue) = some (in_queue, out_queue)

-- What the system answers: the contents of the shared memory, if there is one, and whether one can be
-- created; and the two queues.
pub record IpcAnswers : Type 0 where
  pub memory : Option (List PeerInfo)
  pub creates : Bool
  pub in_queue : Option ℕ
  pub out_queue : Option ℕ

pub record Initialized : Type 0 where
  pub settings : Settings
  pub slots : List PeerInfo
  pub in_queue : ℕ
  pub out_queue : ℕ

-- What follows the settings; a `none` is a failure of `initialize`.
unfoldable pub open_ipc : IpcAnswers → Bool → Settings → Option Initialized
open_ipc ipc console settings = do
  (slots, reload) ← load_sharememory ipc.memory ipc.creates settings.reload
  (in_queue, out_queue) ← create_messagequeue ipc.in_queue ipc.out_queue
  some (record {
    settings = record settings { reload = reload };
    slots = if console || not reload then slots else init_peers slots 0;
    in_queue = in_queue;
    out_queue = out_queue;
  })

-- The group of the settings, if it was found.
unfoldable pub initialize_group :
    (List ℕ → ℕ) → IpcAnswers → Bool → List Group → Option ℕ → Option (Option Initialized)
initialize_group pton ipc console groups none = some none
initialize_group pton ipc console groups (some i) = do
  group ← get_elem? groups i
  settings ← read_settings pton group.pairs
  some (open_ipc ipc console settings)

-- `none` is a fault, `some none` is a failure: no file that opens, no group, or a call that fails.
unfoldable pub initialize :
    (List ℕ → ℕ) → IpcAnswers → Bool → Option (List ReadAnswer) → Option (Option Initialized)
initialize pton ipc console none = some none
initialize pton ipc console (some answers) = do
  cfg ← cfg_create answers
  initialize_group pton ipc console cfg.groups (find_group cfg.groups general_key 0)
