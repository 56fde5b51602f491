-- ===== src/Nac/Packets.antt =====
-- What goes out for a request and for a response, of tfnac/main.c.
use tflib.Common.{bit_and, ◌/◌}
use tflib.Socket.{host32cpy}
use tflib.Common.{ℕ, ◌+◌, ◌-◌, ◌%◌, ◌^◌, ◌≤◌, ◌<◌, ◌≡◌, ◌≢◌, refl, ◌∙◌, arith, ◌==◌, leb, ltb}
use tflib.Common.{
  Bool, true, false, Option, none, some, List, [], ◌∷◌, ◌++◌, length, get_elem?, set, take, drop,
}
use tflib.Common.{take-all}
use tflib.Common.{lt→ltb, le→ltb_false, ne→==_false}
use tflib.Socket.{ReadResult, received, net16cpy, net32cpy, host16cpy}
use tflib.Socket.Orders.{net16cpy-host16cpy}
use tflib.Nac.{PeerInfo, ProcessMgr, get_active_peer, max_peer_nums, peer_id_offset}
use tflib.Nac.Handlers.{
  destination, request_message, ipc_write_queue, forward_packet, request_body, request_of,
  peer_request_handler,
}
use tflib.Nac.Handlers.{
  wait_response, send_response, deliver, response_body, message_response_handler,
}
use tflib.Nac.Serving.{length-request_message, response_bytes}

-- The answer to a peer: the bytes go out on its descriptor, and its timer starts again.
abbrev pub answered : ProcessMgr → ℕ → PeerInfo → List ℕ → ProcessMgr
answered m i p bytes = record m {
  slots = set m.slots i (record p { session_timer = m.socket_timeout });
  written = (p.fd, bytes) ∷ m.written;
}

-- The packet that was read goes on as a message: the application, the bits 16 to 27 of the command, the peer,
-- the time, the command, 0, and what follows the first eight bytes of the packet.
abbrev pub forwarded : ProcessMgr → ℕ → PeerInfo → ℕ → ℕ → List ℕ → ProcessMgr
forwarded m i p now cmd packet = record m {
  slots = set m.slots i (record p { session_timer = m.socket_timeout });
  queued =
      (
        bit_and 0x0fff_0000 cmd / 2 ^ 16,
        host32cpy m.app_id
            ++ (host32cpy (bit_and 0x0fff_0000 cmd / 2 ^ 16)
                ++ (host32cpy p.id
                    ++ (host32cpy now ++ (host32cpy cmd ++ (host32cpy 0 ++ drop 8 packet))))),
      )
      ∷ m.queued;
}

get_active_peer-active :
    (slots : List PeerInfo) (i : ℕ) (p : PeerInfo)
    → get_elem? slots i ≡ some p
    → p.active ≡ true
    → 0 < i
    → i < max_peer_nums
    → get_active_peer slots (peer_id_offset + i) ≡ some (some i)
unfolding get_active_peer
get_active_peer-active slots i p at active least most =
    let index : (peer_id_offset + i + 2 ^ 32 - peer_id_offset) % 2 ^ 32 ≡ i = omega arith in
    let low : ltb 0 i ≡ true = lt→ltb 0 i least in
    let high : ltb i max_peer_nums ≡ true = lt→ltb i max_peer_nums most in
    rw (index, low, high) (rw at (rw active refl))

get_active_peer-first : (slots : List PeerInfo) → get_active_peer slots peer_id_offset ≡ some none
unfolding get_active_peer
get_active_peer-first slots = refl

module _ (m : ProcessMgr) (i : ℕ) (p : PeerInfo) (at : get_elem? m.slots i ≡ some p) (now cmd : ℕ)
    (packet : List ℕ) (word : net32cpy packet ≡ some cmd) where
  forward_packet-long :
      (sends : Bool) → 4080 < length packet → forward_packet now sends m i packet ≡ none
  unfolding forward_packet
  forward_packet-long sends long =
      let full : ltb 4096 (length (request_message m.app_id p.id now cmd packet)) ≡ true =
        lt→ltb 4096 _ (omega (arith, length-request_message m.app_id p.id now cmd packet, long)) in
      rw word (rw at (rw full refl))

  forward_packet-sent :
      (id : ℕ)
      → m.device_out_queue_id ≡ some id
      → 8 ≤ length packet
      → length packet < 4080
      → destination cmd ≢ 0
      → forward_packet now true m i packet ≡ some (forwarded m i p now cmd packet)
  unfolding forward_packet ipc_write_queue destination request_message
  forward_packet-sent id queue least most to =
      let message = request_message m.app_id p.id now cmd packet in
      let size = length-request_message m.app_id p.id now cmd packet in
      let room : ltb 4096 (length message) ≡ false =
        le→ltb_false 4096 _ (omega (arith, size, least, most)) in
      let short : leb 4096 (length message) ≡ false = ground (arith, size, least, most) in
      let some_bytes : (length message == 0) ≡ false = ne→==_false _ 0 (omega (arith, size)) in
      let typed : (destination cmd == 0) ≡ false = ne→==_false _ 0 to in
      rw word (rw at (rw room (rw queue (rw short (rw some_bytes (rw typed refl))))))

  -- A packet of `length packet` bytes, announced and then read.
  module _ (body : ℕ → ReadResult) (read : body (length packet) ≡ received packet) where
    request_of-read :
        (sends : Bool)
        → 8 ≤ length packet
        → length packet ≤ 4096
        → peer_request_handler now sends (received (host16cpy (length packet))) body m i
          ≡ forward_packet now sends m i packet
    unfolding peer_request_handler request_of request_body host16cpy
    request_of-read sends least most =
        let announced : net16cpy (host16cpy (length packet)) ≡ some (length packet) =
          net16cpy-host16cpy (length packet) [] (omega (arith, most)) in
        let room : ltb 4096 (length packet) ≡ false = le→ltb_false 4096 (length packet) most in
        let header : ltb (length packet) 8 ≡ false = le→ltb_false (length packet) 8 least in
        rw announced (rw (room, header) (rw read refl))

-- A packet of 8 to 4079 bytes that is announced and read, and that names a destination other than 0, is
-- put on the open queue, where the system takes it: the message has the header's six words and what follows
-- the first eight bytes of the packet. The peer stays, and its timer starts again.
pub peer_request_handler-forwarded :
    (m : ProcessMgr) (i : ℕ) (p : PeerInfo) (now cmd id : ℕ) (packet : List ℕ)
    (body : ℕ → ReadResult)
    → get_elem? m.slots i ≡ some p
    → net32cpy packet ≡ some cmd
    → body (length packet) ≡ received packet
    → m.device_out_queue_id ≡ some id
    → 8 ≤ length packet
    → length packet < 4080
    → destination cmd ≢ 0
    → peer_request_handler now true (received (host16cpy (length packet))) body m i
      ≡ some (forwarded m i p now cmd packet)
peer_request_handler-forwarded m i p now cmd id packet body at word read queue least most to =
    request_of-read m i p at now cmd packet word body read true least (omega (arith, most))
    ∙ forward_packet-sent m i p at now cmd packet word id queue least most to

-- A packet of 4081 to 4096 bytes, which the handler takes, is written past the end of the message.
pub peer_request_handler-long :
    (m : ProcessMgr) (i : ℕ) (p : PeerInfo) (now cmd : ℕ) (packet : List ℕ) (body : ℕ → ReadResult)
    (sends : Bool)
    → get_elem? m.slots i ≡ some p
    → net32cpy packet ≡ some cmd
    → body (length packet) ≡ received packet
    → 4080 < length packet
    → length packet ≤ 4096
    → peer_request_handler now sends (received (host16cpy (length packet))) body m i ≡ none
peer_request_handler-long m i p now cmd packet body sends at word read least most =
    request_of-read m i p at now cmd packet word body read sends (omega (arith, least)) most
    ∙ forward_packet-long m i p at now cmd packet word sends least

-- What the thread wrote is read in two parts, the length first.
abbrev pub respond : List ℕ → Bool → ProcessMgr → Option ProcessMgr
respond bytes taken m =
    message_response_handler taken (received (take 2 bytes))
      (λ len. received (take len (drop 2 bytes))) m

-- What `wait_response_thread` writes for a message, as `message_response_handler` reads it.
module _ (message bytes : List ℕ) (wrote : wait_response message ≡ some bytes)
    (most : length message ≤ 4096) where
  wait_response-bytes : (24 ≤ length message) × (bytes ≡ host16cpy (length message) ++ message)
  unfolding wait_response
  wait_response-bytes = ground arith

  respond-read :
      (taken : Bool) (m : ProcessMgr)
      → respond bytes taken m ≡ response_body taken m (received message)
  unfolding message_response_handler host16cpy
  respond-read taken m =
      let b = wait_response-bytes in
      let region = host16cpy (length message) ++ message in
      let announced : net16cpy (take 2 region) ≡ some (length message) =
        net16cpy-host16cpy (length message) [] (omega (arith, most)) in
      let room : ltb 4096 (length message) ≡ false = le→ltb_false 4096 (length message) most in
      let all : take (length message) (drop 2 region) ≡ message =
        take-all (length message) message (omega arith) in
      rw b.1 (rw announced (rw room (rw all refl)))

  -- The response goes to the active peer whose id is the message's third word, unless it is the first peer,
  -- as the length of what follows the first sixteen bytes, and that.
  pub wait_response-answered :
      (m : ProcessMgr) (i : ℕ) (p : PeerInfo)
      → get_elem? m.slots i ≡ some p
      → p.active ≡ true
      → 0 < i
      → i < max_peer_nums
      → net32cpy (drop 8 message) ≡ some (peer_id_offset + i)
      → respond bytes true m
        ≡ some (answered m i p (host16cpy (length message - 16) ++ drop 16 message))
  unfolding response_body deliver send_response
  wait_response-answered m i p at active first last id =
      let b = wait_response-bytes in
      respond-read true m
      ∙ rw id (
          rw (get_active_peer-active m.slots i p at active first last)
            (rw at (rw (response_bytes message (omega (arith, b.0)) (omega (arith, most))) refl)))

  -- A response to the first peer is dropped.
  pub wait_response-first_peer :
      (taken : Bool) (m : ProcessMgr)
      → net32cpy (drop 8 message) ≡ some peer_id_offset
      → respond bytes taken m ≡ some m
  unfolding response_body deliver
  wait_response-first_peer taken m id =
      respond-read taken m ∙ rw id (rw (get_active_peer-first m.slots) refl)
