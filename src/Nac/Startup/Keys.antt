-- ===== src/Nac/Startup/Keys.antt =====
-- The keys of the configuration file of tfnac, and the texts that stand for missing ones, in
-- `initialize` of tfnac/config.c.
use tflib.Common.{ℕ, List, [], ◌∷◌}

abbrev pub general_key : List ℕ
general_key = b'g' ∷ b'e' ∷ b'n' ∷ b'e' ∷ b'r' ∷ b'a' ∷ b'l' ∷ []

abbrev pub log_file_level_key : List ℕ
log_file_level_key =
    b'l' ∷ b'o' ∷ b'g' ∷ b'_' ∷ b'f' ∷ b'i' ∷ b'l' ∷ b'e' ∷ b'_' ∷ b'l' ∷ b'e' ∷ b'v' ∷ b'e' ∷ b'l'
    ∷ []

abbrev pub log_file_name_key : List ℕ
log_file_name_key =
    b'l' ∷ b'o' ∷ b'g' ∷ b'_' ∷ b'f' ∷ b'i' ∷ b'l' ∷ b'e' ∷ b'_' ∷ b'n' ∷ b'a' ∷ b'm' ∷ b'e' ∷ []

abbrev pub app_id_key : List ℕ
app_id_key = b'a' ∷ b'p' ∷ b'p' ∷ b'_' ∷ b'i' ∷ b'd' ∷ []

abbrev pub device_id_key : List ℕ
device_id_key = b'd' ∷ b'e' ∷ b'v' ∷ b'i' ∷ b'c' ∷ b'e' ∷ b'_' ∷ b'i' ∷ b'd' ∷ []

abbrev pub reload_key : List ℕ
reload_key = b'r' ∷ b'e' ∷ b'l' ∷ b'o' ∷ b'a' ∷ b'd' ∷ []

abbrev pub app_share_path_key : List ℕ
app_share_path_key =
    b'a' ∷ b'p' ∷ b'p' ∷ b'_' ∷ b's' ∷ b'h' ∷ b'a' ∷ b'r' ∷ b'e' ∷ b'_' ∷ b'p' ∷ b'a' ∷ b't' ∷ b'h'
    ∷ []

abbrev pub app_memory_id_key : List ℕ
app_memory_id_key =
    b'a' ∷ b'p' ∷ b'p' ∷ b'_' ∷ b'm' ∷ b'e' ∷ b'm' ∷ b'o' ∷ b'r' ∷ b'y' ∷ b'_' ∷ b'i' ∷ b'd' ∷ []

abbrev pub device_queue_path_key : List ℕ
device_queue_path_key =
    b'd' ∷ b'e' ∷ b'v' ∷ b'i' ∷ b'c' ∷ b'e' ∷ b'_' ∷ b'q' ∷ b'u' ∷ b'e' ∷ b'u' ∷ b'e' ∷ b'_' ∷ b'p'
    ∷ b'a' ∷ b't' ∷ b'h' ∷ []

abbrev pub device_in_msg_id_key : List ℕ
device_in_msg_id_key =
    b'd' ∷ b'e' ∷ b'v' ∷ b'i' ∷ b'c' ∷ b'e' ∷ b'_' ∷ b'i' ∷ b'n' ∷ b'_' ∷ b'm' ∷ b's' ∷ b'g' ∷ b'_'
    ∷ b'i' ∷ b'd' ∷ []

abbrev pub device_out_msg_id_key : List ℕ
device_out_msg_id_key =
    b'd' ∷ b'e' ∷ b'v' ∷ b'i' ∷ b'c' ∷ b'e' ∷ b'_' ∷ b'o' ∷ b'u' ∷ b't' ∷ b'_' ∷ b'm' ∷ b's' ∷ b'g'
    ∷ b'_' ∷ b'i' ∷ b'd' ∷ []

abbrev pub server_ip_key : List ℕ
server_ip_key = b's' ∷ b'e' ∷ b'r' ∷ b'v' ∷ b'e' ∷ b'r' ∷ b'_' ∷ b'i' ∷ b'p' ∷ []

abbrev pub server_port_key : List ℕ
server_port_key = b's' ∷ b'e' ∷ b'r' ∷ b'v' ∷ b'e' ∷ b'r' ∷ b'_' ∷ b'p' ∷ b'o' ∷ b'r' ∷ b't' ∷ []

abbrev pub socket_timeout_key : List ℕ
socket_timeout_key =
    b's' ∷ b'o' ∷ b'c' ∷ b'k' ∷ b'e' ∷ b't' ∷ b'_' ∷ b't' ∷ b'i' ∷ b'm' ∷ b'e' ∷ b'o' ∷ b'u' ∷ b't'
    ∷ []

abbrev pub cycle_step_key : List ℕ
cycle_step_key = b'c' ∷ b'y' ∷ b'c' ∷ b'l' ∷ b'e' ∷ b'_' ∷ b's' ∷ b't' ∷ b'e' ∷ b'p' ∷ []

abbrev pub default_log_file : List ℕ
default_log_file =
    b'/' ∷ b't' ∷ b'm' ∷ b'p' ∷ b'/' ∷ b'n' ∷ b'a' ∷ b'c' ∷ b'-' ∷ b's' ∷ b'e' ∷ b'r' ∷ b'v' ∷ b'i'
    ∷ b'c' ∷ b'e' ∷ b'.' ∷ b'l' ∷ b'o' ∷ b'g' ∷ []

abbrev pub default_share_path : List ℕ
default_share_path =
    b'/' ∷ b'o' ∷ b'p' ∷ b't' ∷ b'/' ∷ b'k' ∷ b'r' ∷ b'i' ∷ b's' ∷ b'/' ∷ b'e' ∷ b't' ∷ b'c' ∷ b'/'
    ∷ b'm' ∷ b'e' ∷ b'm' ∷ b'o' ∷ b'r' ∷ b'y' ∷ b'.' ∷ b'i' ∷ b'p' ∷ b'c' ∷ []

abbrev pub default_queue_path : List ℕ
default_queue_path =
    b'/' ∷ b'o' ∷ b'p' ∷ b't' ∷ b'/' ∷ b'k' ∷ b'r' ∷ b'i' ∷ b's' ∷ b'/' ∷ b'e' ∷ b't' ∷ b'c' ∷ b'/'
    ∷ b'm' ∷ b's' ∷ b'g' ∷ b'q' ∷ b'u' ∷ b'e' ∷ b'u' ∷ b'e' ∷ b'.' ∷ b'i' ∷ b'p' ∷ b'c' ∷ []

abbrev pub default_ip : List ℕ
default_ip = b'1' ∷ b'2' ∷ b'7' ∷ b'.' ∷ b'0' ∷ b'.' ∷ b'0' ∷ b'.' ∷ b'1' ∷ []
