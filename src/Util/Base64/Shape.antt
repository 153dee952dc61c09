-- ===== src/Util/Base64/Shape.antt =====
-- util/Base64: how long the encoded text is.
use algiz.Base.{
  ℕ, zero, suc, ◌+◌, ◌-◌, ◌*◌, ◌/◌, ◌%◌, ◌^◌, ◌≤◌, ◌≡◌, [], ◌∷◌, ◌++◌, arith, length, length-append,
}
use algiz.Base.Bytes.{Bytes}
use algiz.Util.Base64.{encode_loop, pad, base64_encode}

-- `val` after three bytes.
abbrev packed : ℕ → ℕ → ℕ → ℕ → ℕ
packed v a b c = (((v * 256 + a) % 2 ^ 32 * 256 + b) % 2 ^ 32 * 256 + c) % 2 ^ 32

length-encode_loop : (v : ℕ) (s : Bytes) → length (encode_loop v 0 s) ≡ (length s * 4 + 2) / 3
unfolding encode_loop
length-encode_loop v [] = omega arith
length-encode_loop v (a ∷ []) = ground arith
length-encode_loop v (a ∷ b ∷ []) = ground arith
length-encode_loop v (a ∷ b ∷ c ∷ s) = ground (arith, length-encode_loop (packed v a b c) s)

length-pad :
    (fuel : ℕ) (out : Bytes)
    → (4 - length out % 4) % 4 ≤ fuel
    → length (pad fuel out) ≡ (length out + 3) / 4 * 4
unfolding pad
length-pad zero out h = omega arith
length-pad (suc fuel) out h =
    ground (arith, length-pad fuel (out ++ b'=' ∷ []), length-append out (b'=' ∷ []))

-- Every three bytes begun make four characters.
pub length-base64_encode : (s : Bytes) → length (base64_encode s) ≡ 4 * ((length s + 2) / 3)
unfolding base64_encode
length-base64_encode s =
    omega (arith, length-pad 3 (encode_loop 0 0 s) (omega arith), length-encode_loop 0 s)
