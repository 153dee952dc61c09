-- ===== src/Util/Base64.antt =====
-- util/Base64: `base64Encode` and `base64Decode`.
-- `int val` is the 32-bit pattern, wrapped at each shift; the program reads `(val >> valb) & mask`
-- with `valb` at most 6, which the sign bit does not reach. The counter `valb` starts at -6 (-8 in
-- the decoder), so the model counts the unread bits `valb + 6` (`valb + 8`) instead.
mod Table
pub mod RoundTrip
pub mod Shape
use algiz.Base.{
  ℕ, zero, suc, ◌+◌, ◌-◌, ◌*◌, ◌/◌, ◌%◌, ◌^◌, ◌≡◌, refl, List, [], ◌∷◌, ◌++◌, Option, none, some,
  leb, ltb, ◌==◌, if◌then◌else◌, length,
}
use algiz.Base.Bytes.{Bytes, codes}
use Table.{char_at, value_of}

-- `while (0 <= valb)`: the characters written, and the bits left. A round takes six bits.
unfoldable pub drain : ℕ → ℕ → ℕ → Bytes × ℕ
drain zero val bits = ([], bits)
drain (suc fuel) val bits =
    let rest = drain fuel val (bits - 6) in
    if leb 6 bits then (char_at ((val / 2 ^ (bits - 6)) % 64) ∷ rest.0, rest.1) else ([], bits)

-- The loop over the input, and the character for the bits that are left at its end.
unfoldable pub encode_loop : ℕ → ℕ → Bytes → Bytes
unfolding drain
encode_loop val bits [] =
    if ltb 0 bits then char_at ((((val * 256) % 2 ^ 32) / 2 ^ (bits + 2)) % 64) ∷ [] else []
encode_loop val bits (c ∷ input) =
    let val' = (val * 256 + c) % 2 ^ 32 in
    let out = drain (bits + 8) val' (bits + 8) in out.0 ++ encode_loop val' out.1 input

-- `while (out.size() % 4 != 0) out += '='`: at most three rounds.
unfoldable pub pad : ℕ → Bytes → Bytes
pad zero out = out
pad (suc fuel) out =
    let more = pad fuel (out ++ b'=' ∷ []) in if length out % 4 == 0 then out else more

unfoldable pub base64_encode : Bytes → Bytes
unfolding encode_loop pad
base64_encode input = pad 3 (encode_loop 0 0 input)

unfoldable pub decode_loop : ℕ → ℕ → Bytes → Bytes
decode_loop val bits [] = []
decode_loop val bits (c ∷ input) = elim (value_of c) [
  | none ↦ []
  | some digit ↦
      let val' = (val * 64 + digit) % 2 ^ 32 in
      let wait = decode_loop val' (bits + 6) input in
      let byte = ((val' / 2 ^ (bits + 6 - 8)) % 256) ∷ decode_loop val' (bits + 6 - 8) input in
      if leb 8 (bits + 6) then byte else wait
]

unfoldable pub base64_decode : Bytes → Bytes
unfolding decode_loop
base64_decode input = decode_loop 0 0 input
