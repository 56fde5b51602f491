-- ===== src/Nac/Handlers.antt =====
-- The requests of peers and the responses to them, of tfnac/main.c, and the message queue of
-- tflib/tf_ipc.c. What `tfnet_read` and `tfnet_write` did is given by their results.
use tflib.Common.{ℕ, ◌+◌, ◌-◌, ◌/◌, ◌%◌, ◌^◌, bit_and, ltb, leb, ◌==◌, if◌then◌else◌, ◌>>=◌}
use tflib.Common.{Bool, false, ◌||◌, Option, none, some, List, ◌∷◌, ◌++◌}
use tflib.Common.{get_elem?, set, length, drop}
use tflib.Common.Bytes.{read_bytes}
use tflib.Socket.{ReadResult, failed, received, net16cpy, net32cpy, host16cpy, host32cpy}
use tflib.Nac.{ProcessMgr, close_peer, get_active_peer}

abbrev pub max_mqueue_len : ℕ
max_mqueue_len = 4096

abbrev pub max_packet_len : ℕ
max_packet_len = 4096

-- A message to the queue; `sends` is whether the system's `msgsnd` takes it.
unfoldable pub ipc_write_queue : Bool → Option ℕ → ℕ → ℕ → Bool
ipc_write_queue sends none msg_type len = false
ipc_write_queue sends (some id) msg_type len =
    if leb max_mqueue_len len || len == 0 then false else if msg_type == 0 then false else sends

-- The bits 16 to 27 of the command.
unfoldable pub destination : ℕ → ℕ
destination cmd = bit_and 0x0fff_0000 cmd / 2 ^ 16

-- The message of a request: six words, and what follows the first eight bytes of the packet.
unfoldable pub request_message : ℕ → ℕ → ℕ → ℕ → List ℕ → List ℕ
request_message app_id peer_id now cmd buffer =
    host32cpy app_id
    ++ (host32cpy (destination cmd)
        ++ (host32cpy peer_id
            ++ (host32cpy now ++ (host32cpy cmd ++ (host32cpy 0 ++ drop 8 buffer)))))

-- A packet of `len` bytes in `buffer`. The message is built in a region of `max_mqueue_len` bytes.
unfoldable pub forward_packet : ℕ → Bool → ProcessMgr → ℕ → List ℕ → Option ProcessMgr
forward_packet now sends m i buffer = do
  cmd ← net32cpy buffer
  peer ← get_elem? m.slots i
  let message = request_message m.app_id peer.id now cmd buffer
  if ltb max_mqueue_len (length message)
      then none
      else if ipc_write_queue sends m.device_out_queue_id (destination cmd) (length message)
      then some (record m {
        slots = set m.slots i (record peer { session_timer = m.socket_timeout });
        queued = (destination cmd, message) ∷ m.queued;
      })
      else close_peer m i

unfoldable pub request_body : ℕ → Bool → ProcessMgr → ℕ → ReadResult → Option ProcessMgr
request_body now sends m i failed = close_peer m i
request_body now sends m i (received buffer) = forward_packet now sends m i buffer

-- `body` is what the read of `len` bytes gives.
unfoldable pub request_of : ℕ → Bool → (ℕ → ReadResult) → ProcessMgr → ℕ → ℕ → Option ProcessMgr
request_of now sends body m i len =
    if ltb max_packet_len len || ltb len 8
    then close_peer m i
    else request_body now sends m i (body len)

-- The callback of the slot `i`, at the time `now`; `head` is what the read of the two bytes of the length
-- gives.
unfoldable pub peer_request_handler :
    ℕ → Bool → ReadResult → (ℕ → ReadResult) → ProcessMgr → ℕ → Option ProcessMgr
peer_request_handler now sends failed body m i = close_peer m i
peer_request_handler now sends (received bytes) body m i = do
  len ← net16cpy bytes
  request_of now sends body m i len

-- `wait_response_thread`: what it writes to the socket pair for a message that the queue gave, if
-- anything. Four bytes are the message to quit.
unfoldable pub wait_response : List ℕ → Option (List ℕ)
wait_response message =
    if length message == 4
    then none
    else if ltb (length message) 24
    then none
    else some (host16cpy (length message) ++ message)

-- The response that was read into `buffer`, for the peer at `i`; `taken` is whether all is written.
unfoldable pub send_response : Bool → ProcessMgr → List ℕ → ℕ → Option ProcessMgr
send_response taken m buffer i = do
  peer ← get_elem? m.slots i
  let wlen = (length buffer + 2 ^ 16 - 16) % 2 ^ 16
  bytes ← read_bytes (host16cpy wlen ++ drop 16 buffer) (wlen + 2)
  if taken
      then some (record m {
        slots = set m.slots i (record peer { session_timer = m.socket_timeout });
        written = (peer.fd, bytes) ∷ m.written;
      })
      else close_peer m i

-- `none` is a peer that is not there any more.
unfoldable pub deliver : Bool → ProcessMgr → List ℕ → Option ℕ → Option ProcessMgr
deliver taken m buffer none = some m
deliver taken m buffer (some i) = send_response taken m buffer i

-- Where fewer than 12 bytes were read, the id is not one of this response, which is a fault.
unfoldable pub response_body : Bool → ProcessMgr → ReadResult → Option ProcessMgr
response_body taken m failed = some m
response_body taken m (received buffer) = do
  id ← net32cpy (drop 8 buffer)
  found ← get_active_peer m.slots id
  deliver taken m buffer found

-- The response is read into a region of `max_mqueue_len` bytes.
unfoldable pub message_response_handler :
    Bool → ReadResult → (ℕ → ReadResult) → ProcessMgr → Option ProcessMgr
message_response_handler taken failed body m = some m
message_response_handler taken (received bytes) body m = do
  len ← net16cpy bytes
  if ltb max_mqueue_len len then none else response_body taken m (body len)
