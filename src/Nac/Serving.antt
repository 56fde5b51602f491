-- ===== src/Nac/Serving.antt =====
-- The requests and responses of tfnac/main.c keep its state consistent.
use tflib.Common.{◌*◌, ℕ, zero, suc, ◌+◌, ◌-◌, ◌%◌, ◌^◌, ◌≤◌, ◌<◌, ◌≡◌, refl, arith, ltb}
use tflib.Common.{
  Bool, true, false, ◌&&◌, ◌||◌, Bool-cases, inl, inr, ◌⊎◌, Option, none, some, List, [], ◌∷◌, ◌++◌,
  length, get_elem?, drop, length-drop,
}
use tflib.Common.{Returns, Returns-map, take-all, le→leb, le→ltb_false}
use tflib.Common.Bytes.{read_bytes}
use tflib.Socket.{ReadResult, failed, received, net16cpy, net32cpy, host16cpy, host32cpy}
use tflib.Nac.{PeerInfo, ProcessMgr, close_peer, get_active_peer, max_peer_nums, peer_id_offset}
use tflib.Nac.Links.{IsConsistent}
use tflib.Nac.Closing.{close_peer-IsConsistent}
use tflib.Nac.Steps.{set_slot-IsConsistent}
use tflib.Nac.Handlers.{
  destination, request_message, ipc_write_queue, forward_packet, request_body, request_of,
  peer_request_handler,
}
use tflib.Nac.Handlers.{send_response, deliver, response_body, message_response_handler}

-- What a read of `len` bytes gives is a failure, or as many.
abbrev pub Delivers : ℕ → ReadResult → Type 0
Delivers len failed = Unit {0}
Delivers len (received buffer) = length buffer ≡ len

-- The length of the packet is one that a message has room for, or is refused.
abbrev pub Announces : ReadResult → (ℕ → ReadResult) → Type 0
Announces failed body = Unit {0}
Announces (received bytes) body =
    (len : ℕ) × (net16cpy bytes ≡ some len)
    × ((len ≤ 4080) ⊎ (4096 < len))
    × Delivers len (body len)

net32cpy-total : (buffer : List ℕ) → 4 ≤ length buffer → (n : ℕ) × (net32cpy buffer ≡ some n)
unfolding net32cpy
net32cpy-total [] h = absurd (omega arith)
net32cpy-total (a ∷ []) h = absurd (omega arith)
net32cpy-total (a ∷ b ∷ []) h = absurd (omega arith)
net32cpy-total (a ∷ b ∷ c ∷ []) h = absurd (omega arith)
net32cpy-total (a ∷ b ∷ c ∷ d ∷ rest) h = (((a * 256 + b) * 256 + c) * 256 + d, refl)

pub length-request_message :
    (app_id peer_id now cmd : ℕ) (buffer : List ℕ)
    → length (request_message app_id peer_id now cmd buffer) ≡ 24 + (length buffer - 8)
unfolding request_message host32cpy
length-request_message app_id peer_id now cmd buffer = omega (arith, length-drop 8 buffer)

-- The bytes of a response: the length of what follows, and that.
pub response_bytes :
    (buffer : List ℕ)
    → 16 ≤ length buffer
    → length buffer < 2 ^ 16
    → (let wlen = (length buffer + 2 ^ 16 - 16) % 2 ^ 16 in
        read_bytes (host16cpy wlen ++ drop 16 buffer) (wlen + 2))
      ≡ some (host16cpy (length buffer - 16) ++ drop 16 buffer)
unfolding host16cpy
response_bytes buffer least most =
    let wlen : (length buffer + 2 ^ 16 - 16) % 2 ^ 16 ≡ length buffer - 16 = omega arith in
    let region = host16cpy (length buffer - 16) ++ drop 16 buffer in
    let size : length region ≡ length buffer - 16 + 2 = omega (arith, length-drop 16 buffer) in
    rw wlen (
      rw
        (
          le→leb (length buffer - 16 + 2) (length region) (omega (arith, size)),
          take-all (length buffer - 16 + 2) region (omega (arith, size)),
        )
        refl)

-- What a search for an active peer finds.
abbrev FoundActive : List PeerInfo → Option ℕ → Type 0
FoundActive slots none = Unit {0}
FoundActive slots (some i) = (p : PeerInfo) × (get_elem? slots i ≡ some p) × (p.active ≡ true)

peer_at :
    (slots : List PeerInfo) (i : ℕ)
    → i < length slots
    → (p : PeerInfo) × (get_elem? slots i ≡ some p)
peer_at [] i h = elim h [ ]
peer_at (p ∷ slots) zero h = (p, refl)
peer_at (p ∷ slots) (suc i) h = peer_at slots i (omega arith)

get_active_peer-FoundActive :
    (slots : List PeerInfo) (id : ℕ)
    → length slots ≡ max_peer_nums
    → (found : Option ℕ) × (get_active_peer slots id ≡ some found) × FoundActive slots found
unfolding get_active_peer
get_active_peer-FoundActive slots id full =
    let index = (id + 2 ^ 32 - peer_id_offset) % 2 ^ 32 in
    elim (Bool-cases (ltb 0 index && ltb index max_peer_nums)) [
      | inr out ↦ (none, rw out refl, tt)
      | inl inside ↦
          let (p, g) = peer_at slots index (ground (arith, full)) in
          elim (Bool-cases p.active) [
            | inr idle ↦ (none, rw (inside, g, idle) refl, tt)
            | inl busy ↦ (some index, rw (inside, g, busy) refl, (p, g, busy))
          ]
    ]

module _ (m : ProcessMgr) (i : ℕ) (p : PeerInfo) (c : IsConsistent m)
    (at : get_elem? m.slots i ≡ some p) (active : p.active ≡ true) where
  closes : Returns (close_peer m i) IsConsistent
  closes =
      Returns-map (close_peer m i) _ IsConsistent (close_peer-IsConsistent m i p c at active)
        (λ m' r. r.0)

  forward_packet-IsConsistent :
      (now : ℕ) (sends : Bool) (buffer : List ℕ)
      → 8 ≤ length buffer
      → length buffer ≤ 4080
      → Returns (forward_packet now sends m i buffer) IsConsistent
  unfolding forward_packet
  forward_packet-IsConsistent now sends buffer least most =
      let (cmd, e) = net32cpy-total buffer (omega (arith, least)) in
      let message = request_message m.app_id p.id now cmd buffer in
      let fits : ltb 4096 (length message) ≡ false =
        le→ltb_false 4096 (length message)
          (omega (arith, length-request_message m.app_id p.id now cmd buffer, most)) in
      elim (Bool-cases
        (ipc_write_queue sends m.device_out_queue_id (destination cmd) (length message))) [
          | inl sent ↦
              rw (e, at, fits, sent)
                (set_slot-IsConsistent m i p (record p { session_timer = m.socket_timeout })
                  ((destination cmd, message) ∷ m.queued) m.written c at refl refl)
          | inr refused ↦ rw (e, at, fits, refused) closes
        ]

  request_body-IsConsistent :
      (now : ℕ) (sends : Bool) (len : ℕ) (body : ReadResult)
      → 8 ≤ len
      → len ≤ 4080
      → Delivers len body
      → Returns (request_body now sends m i body) IsConsistent
  unfolding request_body
  request_body-IsConsistent now sends len failed least most d = closes
  request_body-IsConsistent now sends len (received buffer) least most d =
      forward_packet-IsConsistent now sends buffer (omega (arith, d)) (omega (arith, d))

  request_of-IsConsistent :
      (now : ℕ) (sends : Bool) (body : ℕ → ReadResult) (len : ℕ)
      → (len ≤ 4080) ⊎ (4096 < len)
      → Delivers len (body len)
      → Returns (request_of now sends body m i len) IsConsistent
  unfolding request_of
  request_of-IsConsistent now sends body len room d =
      elim (Bool-cases (ltb 4096 len || ltb len 8)) [
        | inl refused ↦ rw refused closes
        | inr taken ↦ rw taken (
            request_body-IsConsistent now sends len (body len) (ground arith) (ground (arith, room))
              d)
      ]

  -- A request of an active peer, read or not, leaves a consistent state, whatever the queue answers,
  -- where its length is not above 4080 and below 4097.
  pub peer_request_handler-IsConsistent :
      (now : ℕ) (sends : Bool) (head : ReadResult) (body : ℕ → ReadResult)
      → Announces head body
      → Returns (peer_request_handler now sends head body m i) IsConsistent
  unfolding peer_request_handler
  peer_request_handler-IsConsistent now sends failed body a = closes
  peer_request_handler-IsConsistent now sends (received bytes) body (len, e, room, d) =
      rw e (request_of-IsConsistent now sends body len room d)

  send_response-IsConsistent :
      (taken : Bool) (buffer : List ℕ)
      → 16 ≤ length buffer
      → length buffer < 2 ^ 16
      → Returns (send_response taken m buffer i) IsConsistent
  unfolding send_response host16cpy
  send_response-IsConsistent taken buffer least most =
      let bytes = host16cpy (length buffer - 16) ++ drop 16 buffer in
      elim (Bool-cases taken) [
        | inl all ↦
            rw (at, response_bytes buffer least most, all)
              (set_slot-IsConsistent m i p (record p { session_timer = m.socket_timeout }) m.queued
                ((p.fd, bytes) ∷ m.written) c at refl refl)
        | inr part ↦ rw (at, response_bytes buffer least most, part) closes
      ]

-- What a response announces is from 16 to 4096 bytes.
abbrev pub AnnouncesResponse : ReadResult → (ℕ → ReadResult) → Type 0
AnnouncesResponse failed body = Unit {0}
AnnouncesResponse (received bytes) body =
    (len : ℕ) × (net16cpy bytes ≡ some len) × (16 ≤ len) × (len ≤ 4096) × Delivers len (body len)

deliver-IsConsistent :
    (m : ProcessMgr) (taken : Bool) (buffer : List ℕ) (found : Option ℕ)
    → IsConsistent m
    → FoundActive m.slots found
    → 16 ≤ length buffer
    → length buffer < 2 ^ 16
    → Returns (deliver taken m buffer found) IsConsistent
unfolding deliver
deliver-IsConsistent m taken buffer none c f least most = c
deliver-IsConsistent m taken buffer (some i) c (p, at, active) least most =
    send_response-IsConsistent m i p c at active taken buffer least most

response_body-IsConsistent :
    (m : ProcessMgr) (taken : Bool) (len : ℕ) (body : ReadResult)
    → IsConsistent m
    → 16 ≤ len
    → len ≤ 4096
    → Delivers len body
    → Returns (response_body taken m body) IsConsistent
unfolding response_body
response_body-IsConsistent m taken len failed c least most d = c
response_body-IsConsistent m taken len (received buffer) c least most d =
    let (id, e) = net32cpy-total (drop 8 buffer) (omega (arith, length-drop 8 buffer, d)) in
    let (found, g, f) = get_active_peer-FoundActive m.slots id c.full in
    rw (e, g) (deliver-IsConsistent m taken buffer found c f (omega (arith, d)) (omega (arith, d)))

-- A response that is announced to have from 16 to 4096 bytes, read or not, leaves a consistent state,
-- whether its peer is there or not, and whether the write succeeds or not.
pub message_response_handler-IsConsistent :
    (taken : Bool) (head : ReadResult) (body : ℕ → ReadResult) (m : ProcessMgr)
    → IsConsistent m
    → AnnouncesResponse head body
    → Returns (message_response_handler taken head body m) IsConsistent
unfolding message_response_handler
message_response_handler-IsConsistent taken failed body m c a = c
message_response_handler-IsConsistent taken (received bytes) body m c (len, e, least, most, d) =
    rw (e, le→ltb_false 4096 len most)
      (response_body-IsConsistent m taken len (body len) c least most d)
