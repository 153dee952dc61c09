-- ===== src/Util/Base64/RoundTrip.antt =====
-- util/Base64: the decoder inverts the encoder.
use algiz.Base.{
  ℕ, zero, suc, ◌+◌, ◌-◌, ◌*◌, ◌/◌, ◌%◌, ◌^◌, ◌<◌, ◌≤◌, ◌≡◌, refl, [], ◌∷◌, ◌++◌, arith, replicate,
  length, append_assoc, append-nil, ap, ◌∙◌, sym, ap₂, Bool-cases, inl, inr, ◌==◌,
}
use algiz.Base.Bytes.{Bytes, IsBytes}
use algiz.Util.Base64.Table.{char_at, value_of-char_at, value_of_pad}
use algiz.Util.Base64.{encode_loop, pad, base64_encode, decode_loop, base64_decode}

-- `val` after three bytes.
abbrev packed : ℕ → ℕ → ℕ → ℕ → ℕ
packed v a b c = (((v * 256 + a) % 2 ^ 32 * 256 + b) % 2 ^ 32 * 256 + c) % 2 ^ 32

encode_three :
    (v a b c : ℕ) (s : Bytes)
    → a < 256
    → b < 256
    → c < 256
    → encode_loop v 0 (a ∷ b ∷ c ∷ s)
      ≡ char_at (a / 4)
        ∷ char_at ((a % 4) * 16 + b / 16)
        ∷ char_at ((b % 16) * 4 + c / 64)
        ∷ char_at (c % 64)
        ∷ encode_loop (packed v a b c) 0 s
unfolding encode_loop
encode_three v a b c s ha hb hc = ground arith

encode_two :
    (v a b : ℕ)
    → a < 256
    → b < 256
    → encode_loop v 0 (a ∷ b ∷ [])
      ≡ char_at (a / 4) ∷ char_at ((a % 4) * 16 + b / 16) ∷ char_at ((b % 16) * 4) ∷ []
unfolding encode_loop
encode_two v a b ha hb = ground arith

encode_one :
    (v a : ℕ) → a < 256 → encode_loop v 0 (a ∷ []) ≡ char_at (a / 4) ∷ char_at ((a % 4) * 16) ∷ []
unfolding encode_loop
encode_one v a ha = ground arith

decode_digit :
    (v bits i : ℕ) (s : Bytes)
    → i < 64
    → bits < 2
    → decode_loop v bits (char_at i ∷ s) ≡ decode_loop ((v * 64 + i) % 2 ^ 32) (bits + 6) s
unfolding decode_loop
decode_digit v bits i s hi hb = rw (value_of-char_at i hi, decode_loop) (ground arith)

decode_byte :
    (v bits i : ℕ) (s : Bytes)
    → i < 64
    → 2 ≤ bits
    → decode_loop v bits (char_at i ∷ s)
      ≡ ((((v * 64 + i) % 2 ^ 32) / 2 ^ (bits + 6 - 8)) % 256)
        ∷ decode_loop ((v * 64 + i) % 2 ^ 32) (bits + 6 - 8) s
unfolding decode_loop
decode_byte v bits i s hi hb = rw (value_of-char_at i hi, decode_loop) (ground arith)

decode_four :
    (v i j k l : ℕ) (s : Bytes)
    → i < 64
    → j < 64
    → k < 64
    → l < 64
    → (w : ℕ) × (decode_loop v 0 (char_at i ∷ char_at j ∷ char_at k ∷ char_at l ∷ s)
        ≡ (i * 4 + j / 16) ∷ ((j % 16) * 16 + k / 4) ∷ ((k % 4) * 64 + l) ∷ decode_loop w 0 s)
decode_four v i j k l s hi hj hk hl = (
  _,
  decode_digit v 0 i _ hi (omega arith)
      ∙ decode_byte _ 6 j _ hj (omega arith)
      ∙ ap₂ ◌∷◌ (omega arith) (
          decode_byte _ 4 k _ hk (omega arith)
          ∙ ap₂ ◌∷◌ (omega arith)
              (decode_byte _ 2 l s hl (omega arith) ∙ ap₂ ◌∷◌ (omega arith) refl)),
)

-- What padding adds is read as nothing.
decode_pad : (v bits k : ℕ) → decode_loop v bits (replicate k b'=') ≡ []
unfolding decode_loop
decode_pad v bits zero = refl
decode_pad v bits (suc k) = rw (value_of_pad, decode_loop) refl

pad-eq-append : (fuel : ℕ) (out : Bytes) → (k : ℕ) × (pad fuel out ≡ out ++ replicate k b'=')
unfolding pad
pad-eq-append zero out = (0, sym (append-nil out))
pad-eq-append (suc fuel) out = elim (Bool-cases (length out % 4 == 0)) [
  | inl e ↦ (0, rw e (sym (append-nil out)))
  | inr e ↦
      let (k, more) = pad-eq-append fuel (out ++ b'=' ∷ []) in
      (suc k, rw e (more ∙ append_assoc out (b'=' ∷ []) (replicate k b'=')))
]

-- Whatever the registers hold, the decoder undoes the encoder up to the padding.
decode-encode :
    (v w k : ℕ) (s : Bytes)
    → IsBytes s
    → decode_loop w 0 (encode_loop v 0 s ++ replicate k b'=') ≡ s
decode-encode v w k [] h = unfold encode_loop in decode_pad w 0 k
decode-encode v w k (a ∷ []) (ha, _) = rw (encode_one v a ha) (
    decode_digit w 0 (a / 4) _ (omega arith) (omega arith)
    ∙ decode_byte _ 6 ((a % 4) * 16) _ (omega arith) (omega arith)
    ∙ ap₂ ◌∷◌ (omega arith) (decode_pad _ 4 k))
decode-encode v w k (a ∷ b ∷ []) (ha, (hb, _)) = rw (encode_two v a b ha hb) (
    decode_digit w 0 (a / 4) _ (omega arith) (omega arith)
    ∙ decode_byte _ 6 ((a % 4) * 16 + b / 16) _ (omega arith) (omega arith)
    ∙ ap₂ ◌∷◌ (omega arith) (
        decode_byte _ 4 ((b % 16) * 4) _ (omega arith) (omega arith)
        ∙ ap₂ ◌∷◌ (omega arith) (decode_pad _ 2 k)))
decode-encode v w k (a ∷ b ∷ c ∷ s) (ha, (hb, (hc, hs))) =
    let (w', four) =
      decode_four w (a / 4) ((a % 4) * 16 + b / 16) ((b % 16) * 4 + c / 64) (c % 64)
        (encode_loop (packed v a b c) 0 s ++ replicate k b'=') (omega arith) (omega arith)
        (omega arith) (omega arith) in
    rw (encode_three v a b c s ha hb hc) (
      four
      ∙ ap₂ ◌∷◌ (omega arith) (
          ap₂ ◌∷◌ (omega arith) (ap₂ ◌∷◌ (omega arith) (decode-encode (packed v a b c) w' k s hs))))

-- Every byte string is read back from its Base64 text.
pub base64_decode-base64_encode : (s : Bytes) → IsBytes s → base64_decode (base64_encode s) ≡ s
unfolding base64_decode base64_encode
base64_decode-base64_encode s h =
    let (k, padded) = pad-eq-append 3 (encode_loop 0 0 s) in
    ap (decode_loop 0 0) padded ∙ decode-encode 0 0 k s h
