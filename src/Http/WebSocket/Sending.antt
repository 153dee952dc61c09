-- ===== src/Http/WebSocket/Sending.antt =====
-- http/Client: the frames that `sendWebSocket` writes, read by the rules of the protocol.
use Prim.Native.Nat.{bit_or}
use algiz.Base.{
  ℕ, zero, suc, ◌+◌, ◌/◌, ◌%◌, ◌^◌, ◌≡◌, ◌<◌, refl, [], ◌∷◌, ◌++◌, Option, none, some, Bool, true,
  if◌then◌else◌, length, take, drop, ltb, leb, ◌==◌, arith, ◌∙◌, ap₂, Bool-cases, inl, inr, ◌&&◌,
  append_assoc, take-length-append, drop-length-append,
}
use algiz.Base.Bytes.{Bytes}
use algiz.Http.WebSocket.{big_endian, length_bytes, send_opcode, send_websocket}

-- What a peer reads from a frame with no mask: the final bit, the opcode and the payload, with what
-- stands behind the frame.
pub record Frame : Type 0 where
  pub fin : Bool
  pub opcode : ℕ
  pub payload : Bytes
  pub rest : Bytes

abbrev cut : Bool → ℕ → ℕ → Bytes → Frame
cut fin opcode n s = record { fin = fin; opcode = opcode; payload = take n s; rest = drop n s }

unfoldable pub read_frame : Bytes → Option Frame
read_frame [] = none
read_frame (a ∷ []) = none
read_frame (a ∷ b ∷ s) =
    if ltb b 126
    then some (cut (leb 128 a) (a % 128) b s)
    else if b == 126
    then some (cut (leb 128 a) (a % 128) (big_endian 0 (take 2 s)) (drop 2 s))
    else if b == 127
    then some (cut (leb 128 a) (a % 128) (big_endian 0 (take 8 s)) (drop 8 s))
    else none

abbrev table : ℕ → Bool
table zero = true
table (suc n) = (bit_or 128 n == (128 + n)) && table n

or_table : table 16 ≡ true
or_table = refl

or_all : (k n : ℕ) → table k ≡ true → n < k → bit_or 128 n ≡ 128 + n
or_all zero n h lt = absurd (omega arith)
or_all (suc k) n h lt = ground (arith, or_all k n)

final_bit : (opcode : ℕ) → opcode < 16 → bit_or 128 opcode ≡ 128 + opcode
final_bit opcode h = or_all 16 opcode or_table h

big_endian_eight :
    (n : ℕ)
    → n < 2 ^ 64
    → big_endian 0 (
        (n / 2 ^ 56) % 256
        ∷ (n / 2 ^ 48) % 256
        ∷ (n / 2 ^ 40) % 256
        ∷ (n / 2 ^ 32) % 256
        ∷ (n / 2 ^ 24) % 256
        ∷ (n / 2 ^ 16) % 256
        ∷ (n / 2 ^ 8) % 256
        ∷ n % 256
        ∷ [])
      ≡ n
unfolding big_endian
big_endian_eight n h = omega arith

big_endian_two : (n : ℕ) → n < 65536 → big_endian 0 ((n / 2 ^ 8) % 256 ∷ n % 256 ∷ []) ≡ n
unfolding big_endian
big_endian_two n h = omega arith

read_length :
    (opcode n : ℕ) (s : Bytes)
    → opcode < 16
    → n < 2 ^ 64
    → read_frame ((128 + opcode) ∷ (length_bytes n ++ s)) ≡ some (cut true opcode n s)
unfolding read_frame length_bytes
read_length opcode n s ho h =
    let op : (128 + opcode) % 128 ≡ opcode = omega arith in
    let fin : leb 128 (128 + opcode) ≡ true = ground arith in
    elim (Bool-cases (leb n 125)) [
      | inl small ↦ let b : ltb n 126 ≡ true = ground arith in rw small (rw (op, b, fin) refl)
      | inr big ↦ elim (Bool-cases (ltb n 65536)) [
        | inl middle ↦ rw (big, middle) (rw (op, fin, big_endian_two n (ground arith)) refl)
        | inr large ↦ rw (big, large) (rw (op, fin, big_endian_eight n h) refl)
      ]
    ]

-- What `sendWebSocket` sends for a text of any length and an opcode of four bits is read by a peer as
-- one final frame with that opcode and that text, and what follows it is left.
pub read_frame-send_websocket :
    (text tail : Bytes) (is_binary : Bool) (override : ℕ)
    → length text < 2 ^ 64
    → send_opcode is_binary override < 16
    → read_frame (send_websocket text is_binary override ++ tail)
      ≡ some (record {
        fin = true;
        opcode = send_opcode is_binary override;
        payload = text;
        rest = tail;
      })
unfolding send_websocket
read_frame-send_websocket text tail is_binary override h ho =
    ap₂ (λ a s. read_frame (a ∷ s)) (final_bit (send_opcode is_binary override) ho)
      (append_assoc (length_bytes (length text)) text tail)
    ∙ read_length (send_opcode is_binary override) (length text) (text ++ tail) ho h
    ∙ ap₂
        (λ p r.
          some
            (record { fin = true; opcode = send_opcode is_binary override; payload = p; rest = r }))
        (take-length-append text tail) (drop-length-append text tail)
