-- ===== src/Http/WebSocket.antt =====
-- http/Client: the WebSocket part of `handleInput`, `sendWebSocket` and `closeWebSocket`. What the
-- calls hand on to the server comes out as a list of events.
pub mod Masking
pub mod Frames
pub mod Delivery
pub mod Sending
use Prim.Native.Nat.{bit_or, bit_xor, min}
use algiz.Base.{
  ℕ, zero, suc, ◌+◌, ◌-◌, ◌*◌, ◌/◌, ◌%◌, ◌^◌, ◌≡◌, refl, List, [], ◌∷◌, ◌++◌, Option, none, some,
  Bool, true, false, not, ◌&&◌, ◌||◌, if◌then◌else◌, length, take, drop, ltb, leb, ◌==◌,
}
use algiz.Base.Bytes.{Bytes, codes, is_empty}

-- `close_frame` is `closeWebSocket`, `refused` is `send400` and `removeSelf`.
pub data Event : Type 0 where
  message : Bytes → Event
  pong : Bytes → Event
  close_frame : Event
  refused : Event

pub record Ws : Type 0 where
  pub awaiting : Bool
  pub last_fin : Bool
  pub mask : ℕ
  pub mask_offset : ℕ
  pub remaining : ℕ
  pub packet : Bytes
  pub leftover : Bytes
  pub max_length : ℕ

abbrev pub Step : Type 0
Step = List Event × Ws

-- Bytes read as a number, the first one being the highest: `memcpy` and a byte swap.
unfoldable pub big_endian : ℕ → Bytes → ℕ
big_endian n [] = n
big_endian n (b ∷ s) = big_endian (n * 256 + b) s

-- `uint8_t(webSocketMask >> (8 * (3 - maskOffset)))`.
unfoldable pub mask_byte : ℕ → ℕ → ℕ
mask_byte mask offset = (mask / 2 ^ (8 * (3 - offset))) % 256

-- The loop that unmasks bytes, and the offset behind it.
unfoldable pub unmask : ℕ → ℕ → Bytes → Bytes
unfolding mask_byte
unmask mask offset [] = []
unmask mask offset (b ∷ s) = bit_xor b (mask_byte mask offset) ∷ unmask mask ((offset + 1) % 4) s

unfoldable pub offset_after : ℕ → Bytes → ℕ
offset_after offset [] = offset
offset_after offset (b ∷ s) = offset_after ((offset + 1) % 4) s

-- `CHECKSIZE` on too short a message: it is kept.
abbrev pub wait : Ws → Bytes → Step
wait ws input = ([], record ws { leftover = input })

abbrev pub fin_event : Bool → Bytes → Event
fin_event true packet = message packet
fin_event false packet = close_frame

-- What follows the payload for any opcode but a ping; `end` is where it ends in the message.
unfoldable pub conclude : Ws → Bytes → ℕ → Step
conclude ws input end =
    if ltb end (length input)
    then (
      fin_event ws.last_fin ws.packet ∷ [],
      record ws {
        awaiting = true;
        leftover = drop end input;
        remaining = if ws.last_fin then 0 else ws.remaining;
        packet = [];
      },
    )
    else if (end == length input) && (ws.remaining == 0)
    then (
      fin_event ws.last_fin ws.packet ∷ [],
      record ws { awaiting = true; packet = []; leftover = [] },
    )
    else ([], record ws { awaiting = false; leftover = [] })

-- The state with the payload bytes at hand unmasked behind the packet.
unfoldable pub absorb : Ws → Bytes → ℕ → ℕ → Ws
absorb ws input payload_length mask_index =
    let mask = big_endian 0 (take 4 (drop mask_index input)) in
    let here = min payload_length (length input - mask_index - 4) in
    let body = take here (drop (mask_index + 4) input) in
    record ws {
      mask = mask;
      mask_offset = offset_after 0 body;
      remaining = payload_length - here;
      packet = ws.packet ++ unmask mask 0 body;
    }

-- A ping is answered with the packet, if it is short; nothing else changes.
abbrev pub ping : Ws → ℕ → Step
ping ws payload_length =
    if leb payload_length 125 then (pong ws.packet ∷ [], ws) else (close_frame ∷ [], ws)

unfoldable pub deliver : Ws → Bytes → ℕ → ℕ → ℕ → Step
deliver ws input opcode payload_length mask_index =
    let ws' = absorb ws input payload_length mask_index in
    let end = min payload_length (length input - mask_index - 4) + mask_index + 4 in
    if opcode == 9 then ping ws' payload_length else conclude ws' input end

-- The length in the header and the index of the mask; `none` is a header that is cut off.
unfoldable pub length_field : ℕ → Bytes → Option (ℕ × ℕ)
length_field short input =
    if short == 126
    then (if ltb (length input) 4 then none else some (big_endian 0 (take 2 (drop 2 input)), 4))
    else if short == 127
    then (if ltb (length input) 10 then none else some (big_endian 0 (take 8 (drop 2 input)), 10))
    else some (short, 2)

unfoldable pub with_length : Ws → Bytes → ℕ → ℕ → Option (ℕ × ℕ) → Step
with_length ws input byte1 byte2 none = wait ws input
with_length ws input byte1 byte2 (some (payload_length, mask_index)) =
    if ltb byte2 128 || ltb ws.max_length payload_length
    then (refused ∷ [], ws)
    else if ltb (length input) (mask_index + 4)
    then wait ws input
    else deliver ws input (byte1 % 16) payload_length mask_index

-- The branch that awaits a header.
unfoldable pub handle_header : Ws → Bytes → Step
handle_header ws [] = wait ws []
handle_header ws (byte1 ∷ []) = wait ws (byte1 ∷ [])
handle_header ws (byte1 ∷ byte2 ∷ rest) =
    with_length (record ws { last_fin = leb 128 byte1 }) (byte1 ∷ byte2 ∷ rest) byte1 byte2
      (length_field (byte2 % 128) (byte1 ∷ byte2 ∷ rest))

-- The end of the branch that continues a packet.
unfoldable pub complete : Ws → Step
complete ws =
    if ws.remaining == 0
    then (if ws.last_fin
        then (message ws.packet ∷ [], record ws { awaiting = true; packet = [] })
        else ([], record ws { awaiting = true }))
    else ([], ws)

unfoldable pub handle_more : Ws → Bytes → Step
unfolding complete
handle_more ws input =
    let here = min ws.remaining (length input) in
    let body = take here input in
    complete (record ws {
      packet = ws.packet ++ unmask ws.mask ws.mask_offset body;
      mask_offset = offset_after ws.mask_offset body;
      leftover = if ltb ws.remaining (length input) then drop here input else ws.leftover;
      remaining = if ltb ws.remaining (length input) then 0 else ws.remaining - here;
    })

-- `handleInput` of a WebSocket: what was left over goes before the input, and stays in place until a
-- branch replaces it.
dispatch : Bool → Ws → Bytes → Step
dispatch true ws input = handle_header ws input
dispatch false ws input = handle_more ws input

unfoldable pub handle_input : Ws → Bytes → Step
unfolding dispatch
handle_input ws input =
    dispatch ws.awaiting
      (record ws { leftover = if is_empty ws.leftover then [] else ws.leftover ++ input })
      (ws.leftover ++ input)

-- The inputs of several reads.
unfoldable pub handle_all : Ws → List Bytes → Step
handle_all ws [] = ([], ws)
handle_all ws (input ∷ inputs) =
    let first = handle_input ws input in
    let rest = handle_all first.1 inputs in (first.0 ++ rest.0, rest.1)

-- `sendWebSocket`: the header, and what is sent in all.
unfoldable pub length_bytes : ℕ → Bytes
length_bytes size =
    if leb size 125
    then size ∷ []
    else if ltb size 65536
    then 126 ∷ (size / 2 ^ 8) % 256 ∷ size % 256 ∷ []
    else 127
      ∷ (size / 2 ^ 56) % 256
      ∷ (size / 2 ^ 48) % 256
      ∷ (size / 2 ^ 40) % 256
      ∷ (size / 2 ^ 32) % 256
      ∷ (size / 2 ^ 24) % 256
      ∷ (size / 2 ^ 16) % 256
      ∷ (size / 2 ^ 8) % 256
      ∷ size % 256
      ∷ []

unfoldable pub send_opcode : Bool → ℕ → ℕ
send_opcode is_binary override =
    if not (override == 255) then override else if is_binary then 2 else 1

unfoldable pub send_websocket : Bytes → Bool → ℕ → Bytes
send_websocket text is_binary override =
    (bit_or 128 (send_opcode is_binary override) ∷ length_bytes (length text)) ++ text

-- `closeWebSocket` sends this before it closes.
unfoldable pub close_websocket : Bytes
unfolding send_websocket
close_websocket = send_websocket (codes "Error") false 8
