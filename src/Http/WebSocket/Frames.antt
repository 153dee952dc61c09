-- ===== src/Http/WebSocket/Frames.antt =====
-- http/Client: the header of a frame as a client writes it, and what `handleInput` reads from it.
use Prim.Native.Nat.{min}
use algiz.Base.{
  ℕ, ◌+◌, ◌-◌, ◌/◌, ◌%◌, ◌^◌, ◌≡◌, ◌≢◌, ◌≤◌, ◌<◌, refl, [], ◌∷◌, ◌++◌, Option, some, Bool, true,
  false, if◌then◌else◌, length, length-append, take, drop, drop-add, drop-length-append, ltb, leb,
  arith, ◌∙◌, ap, ap₂, Bool-cases, inl, inr,
}
use algiz.Base.Bytes.{Bytes}
use algiz.Http.WebSocket.{
  Ws, big_endian, unmask, offset_after, conclude, absorb, deliver, length_field, with_length,
  handle_header,
}

-- The seven bits for the length, and the bytes that follow them.
unfoldable pub short_length : ℕ → ℕ
short_length n = if ltb n 126 then n else if ltb n 65536 then 126 else 127

unfoldable pub long_length : ℕ → Bytes
long_length n =
    if ltb n 126
    then []
    else if ltb n 65536
    then (n / 2 ^ 8) ∷ n % 256 ∷ []
    else (n / 2 ^ 56) % 256
      ∷ (n / 2 ^ 48) % 256
      ∷ (n / 2 ^ 40) % 256
      ∷ (n / 2 ^ 32) % 256
      ∷ (n / 2 ^ 24) % 256
      ∷ (n / 2 ^ 16) % 256
      ∷ (n / 2 ^ 8) % 256
      ∷ n % 256
      ∷ []

abbrev pub mask_bytes : ℕ → Bytes
mask_bytes mask = (mask / 2 ^ 24) ∷ (mask / 2 ^ 16) % 256 ∷ (mask / 2 ^ 8) % 256 ∷ mask % 256 ∷ []

abbrev pub fin_bit : Bool → ℕ
fin_bit true = 128
fin_bit false = 0

abbrev pub frame_header : Bool → ℕ → ℕ → ℕ → Bytes → Bytes
frame_header fin opcode mask n rest =
    (fin_bit fin + opcode) ∷ (128 + short_length n) ∷ (long_length n ++ (mask_bytes mask ++ rest))

big_endian_mask : (mask : ℕ) → mask < 2 ^ 32 → big_endian 0 (mask_bytes mask) ≡ mask
unfolding big_endian
big_endian_mask mask h = omega arith

big_endian_eight :
    (n : ℕ)
    → n < 2 ^ 64
    → big_endian 0 (
        (n / 2 ^ 56) % 256
        ∷ (n / 2 ^ 48) % 256
        ∷ (n / 2 ^ 40) % 256
        ∷ (n / 2 ^ 32) % 256
        ∷ (n / 2 ^ 24) % 256
        ∷ (n / 2 ^ 16) % 256
        ∷ (n / 2 ^ 8) % 256
        ∷ n % 256
        ∷ [])
      ≡ n
unfolding big_endian
big_endian_eight n h = omega arith

-- Where the mask stands in a frame with `n` bytes of payload.
abbrev pub mask_at : ℕ → ℕ
mask_at n = 2 + length (long_length n)

length_field-frame :
    (n a b : ℕ) (rest : Bytes)
    → n < 2 ^ 64
    → length_field (short_length n) (a ∷ b ∷ (long_length n ++ rest)) ≡ some (n, mask_at n)
unfolding length_field short_length long_length
length_field-frame n a b rest h = elim (Bool-cases (ltb n 126)) [
  | inl small ↦ rw small (ground arith)
  | inr big ↦ elim (Bool-cases (ltb n 65536)) [
    | inl middle ↦ rw (big, middle) (unfold big_endian in ground arith)
    | inr large ↦ rw (big, large) (ground (arith, big_endian_eight n h))
  ]
]

drop_header : (n a b : ℕ) (rest : Bytes) → drop (mask_at n) (a ∷ b ∷ (long_length n ++ rest)) ≡ rest
drop_header n a b rest =
    drop-add 2 (length (long_length n)) (a ∷ b ∷ (long_length n ++ rest))
    ∙ drop-length-append (long_length n) rest

drop_mask :
    (fin : Bool) (opcode mask n : ℕ) (rest : Bytes)
    → drop (mask_at n + 4) (frame_header fin opcode mask n rest) ≡ rest
drop_mask fin opcode mask n rest =
    drop-add (mask_at n) 4 (frame_header fin opcode mask n rest)
    ∙ ap (drop 4)
        (drop_header n (fin_bit fin + opcode) (128 + short_length n) (mask_bytes mask ++ rest))

pub length-frame_header :
    (fin : Bool) (opcode mask n : ℕ) (rest : Bytes)
    → length (frame_header fin opcode mask n rest) ≡ mask_at n + 4 + length rest
length-frame_header fin opcode mask n rest =
    omega (arith, length-append (long_length n) (mask_bytes mask ++ rest))

-- The state when the header of a frame has been read with the first bytes of its masked payload.
abbrev pub here : ℕ → Bytes → ℕ
here n rest = min n (length rest)

abbrev pub begun : Ws → Bool → ℕ → ℕ → Bytes → Ws
begun ws fin mask n rest = record ws {
  last_fin = fin;
  mask = mask;
  mask_offset = offset_after 0 (take (here n rest) rest);
  remaining = n - here n rest;
  packet = ws.packet ++ unmask mask 0 (take (here n rest) rest);
}

absorb-frame :
    (ws : Ws) (fin : Bool) (opcode mask n : ℕ) (rest : Bytes)
    → mask < 2 ^ 32
    → absorb (record ws { last_fin = fin }) (frame_header fin opcode mask n rest) n (mask_at n)
      ≡ begun ws fin mask n rest
unfolding absorb
absorb-frame ws fin opcode mask n rest h =
    let frame : Bytes = frame_header fin opcode mask n rest in
    let at_mask : big_endian 0 (take 4 (drop (mask_at n) frame)) ≡ mask =
      ap (λ t. big_endian 0 (take 4 t))
        (drop_header n (fin_bit fin + opcode) (128 + short_length n) (mask_bytes mask ++ rest))
      ∙ big_endian_mask mask h in
    let room : length frame - mask_at n - 4 ≡ length rest =
      omega (arith, length-frame_header fin opcode mask n rest) in
    rw (at_mask, room, drop_mask fin opcode mask n rest) refl

short_length-lt : (n : ℕ) → short_length n < 128
unfolding short_length
short_length-lt n = ground arith

fin_of_byte :
    (fin : Bool) (opcode : ℕ)
    → opcode < 16
    → (leb 128 (fin_bit fin + opcode) ≡ fin) × ((fin_bit fin + opcode) % 16 ≡ opcode)
fin_of_byte true opcode h = (ground arith, omega arith)
fin_of_byte false opcode h = (ground arith, omega arith)

read_lengths :
    (ws : Ws) (fin : Bool) (opcode mask n : ℕ) (rest : Bytes)
    → opcode < 16
    → n < 2 ^ 64
    → handle_header ws (frame_header fin opcode mask n rest)
      ≡ with_length
          (record ws { last_fin = fin })
          (frame_header fin opcode mask n rest)
          (fin_bit fin + opcode)
          (128 + short_length n)
          (some (n, mask_at n))
unfolding handle_header
read_lengths ws fin opcode mask n rest ho hn =
    let short : (128 + short_length n) % 128 ≡ short_length n = omega (arith, short_length-lt n) in
    ap₂
      (λ (f : Bool) (field : Option (ℕ × ℕ)).
        with_length (record ws { last_fin = f }) (frame_header fin opcode mask n rest)
          (fin_bit fin + opcode) (128 + short_length n) field)
      (fin_of_byte fin opcode ho).0
      (ap (λ l. length_field l (frame_header fin opcode mask n rest)) short
        ∙ length_field-frame n (fin_bit fin + opcode) (128 + short_length n)
            (mask_bytes mask ++ rest) hn)

with_length-fits :
    (ws : Ws) (input : Bytes) (byte1 byte2 n at : ℕ)
    → 128 ≤ byte2
    → n ≤ ws.max_length
    → at + 4 ≤ length input
    → with_length ws input byte1 byte2 (some (n, at)) ≡ deliver ws input (byte1 % 16) n at
unfolding with_length
with_length-fits ws input byte1 byte2 n at a b d = ground arith

deliver-data :
    (ws : Ws) (input : Bytes) (opcode n at : ℕ)
    → opcode ≢ 9
    → deliver ws input opcode n at
      ≡ conclude (absorb ws input n at) input (min n (length input - at - 4) + at + 4)
unfolding deliver
deliver-data ws input opcode n at h = ground arith

-- The header of a frame that is no ping and not too long is read whatever part of the payload follows
-- it.
pub handle_header-frame :
    (ws : Ws) (fin : Bool) (opcode mask n : ℕ) (rest : Bytes)
    → opcode < 16
    → opcode ≢ 9
    → mask < 2 ^ 32
    → n < 2 ^ 64
    → n ≤ ws.max_length
    → handle_header ws (frame_header fin opcode mask n rest)
      ≡ conclude
          (begun ws fin mask n rest)
          (frame_header fin opcode mask n rest)
          (here n rest + mask_at n + 4)
handle_header-frame ws fin opcode mask n rest ho h9 hm hn fits =
    let frame : Bytes = frame_header fin opcode mask n rest in
    let size : length frame ≡ mask_at n + 4 + length rest =
      length-frame_header fin opcode mask n rest in
    let room : length frame - mask_at n - 4 ≡ length rest = omega arith in
    read_lengths ws fin opcode mask n rest ho hn
    ∙ with_length-fits (record ws { last_fin = fin }) frame (fin_bit fin + opcode)
        (128 + short_length n) n (mask_at n) (omega arith) fits (omega arith)
    ∙ ap (λ op. deliver (record ws { last_fin = fin }) frame op n (mask_at n))
        (fin_of_byte fin opcode ho).1
    ∙ deliver-data (record ws { last_fin = fin }) frame opcode n (mask_at n) h9
    ∙ ap₂ (λ w m. conclude w frame (min n m + mask_at n + 4))
        (absorb-frame ws fin opcode mask n rest hm) room
