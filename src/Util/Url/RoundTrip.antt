-- ===== src/Util/Url/RoundTrip.antt =====
-- util/Util: `unescape` undoes `escapeURL`.
use algiz.Base.{
  ℕ, ◌+◌, ◌/◌, ◌%◌, ◌^◌, ◌≡◌, ◌≤◌, ◌<◌, refl, [], ◌∷◌, ◌++◌, none, some, ◌==◌, length, Bool, true,
  false, ◌&&◌, arith, ap, ◌∙◌, inl, inr, ◌⊎◌,
}
use algiz.Base.Bytes.{Bytes, IsBytes, find_byte}
use algiz.Util.Url.{
  hex_digit, char_hex, escape_url_char, escape_url, is_xdigit, digit_value, hex_pair, push,
  unescape_loop, found, unescape,
}

is_xdigit-hex_digit : (n : ℕ) → n < 16 → is_xdigit (hex_digit n) ≡ true
unfolding is_xdigit hex_digit
is_xdigit-hex_digit n h = ground arith

digit_value-hex_digit : (n : ℕ) → n < 16 → digit_value (hex_digit n) ≡ n
unfolding digit_value hex_digit
digit_value-hex_digit n h = ground arith

hex_pair-hex_digit :
    (c : ℕ) → c < 256 → hex_pair (hex_digit ((c / 16) % 16)) (hex_digit (c % 16)) ≡ c
unfolding hex_pair
hex_pair-hex_digit c h = omega (
  arith,
  digit_value-hex_digit ((c / 16) % 16) (omega arith),
  digit_value-hex_digit (c % 16) (omega arith),
)

-- One percent triple is read back as its byte.
loop_triple :
    (size i c : ℕ) (rest : Bytes)
    → c < 256
    → i + 3 ≤ size
    → size < 2 ^ 64
    → unescape_loop true size i 0 (b'%' ∷ char_hex c ++ rest)
      ≡ push c (unescape_loop true size (i + 1 + 1 + 1) 0 rest)
unfolding unescape_loop char_hex
loop_triple size i c rest hc hi hs =
    rw
      (
        is_xdigit-hex_digit ((c / 16) % 16) (omega arith),
        is_xdigit-hex_digit (c % 16) (omega arith),
        hex_pair-hex_digit c hc,
      )
      (ground arith)

-- The two kinds of piece that are one byte.
loop_space :
    (size i : ℕ) (rest : Bytes)
    → unescape_loop true size i 0 (b'+' ∷ rest) ≡ push b' ' (unescape_loop true size (i + 1) 0 rest)
unfolding unescape_loop
loop_space size i rest = refl

loop_plain :
    (plus : Bool) (size i c : ℕ) (rest : Bytes)
    → (plus && c == b'+') ≡ false
    → (c == b'%') ≡ false
    → unescape_loop plus size i 0 (c ∷ rest) ≡ push c (unescape_loop plus size (i + 1) 0 rest)
unfolding unescape_loop
loop_plain plus size i c rest h k = rw (h, k) refl

-- The three kinds of piece that `escapeURL` writes.
piece_cases :
    (c : ℕ)
    → ((c ≡ b' ') × (escape_url_char c ≡ b'+' ∷ []))
      ⊎ (((c == b'+') ≡ false) × ((c == b'%') ≡ false) × (escape_url_char c ≡ c ∷ []))
      ⊎ (escape_url_char c ≡ b'%' ∷ char_hex c)
unfolding escape_url_char
piece_cases c = ground arith

-- A byte's piece is read back as that byte.
loop_piece :
    (size i c : ℕ) (rest : Bytes)
    → c < 256
    → i + length (escape_url_char c ++ rest) ≡ size
    → size < 2 ^ 64
    → (j : ℕ) × (j + length rest ≡ size)
      × (unescape_loop true size i 0 (escape_url_char c ++ rest)
          ≡ push c (unescape_loop true size j 0 rest))
unfolding char_hex
loop_piece size i c rest hc hi hs = elim (piece_cases c) [
  | inl (ce, pe) ↦ (i + 1, grind arith, rw (pe, ce) (loop_space size i rest))
  | inr (inl (h, k, pe)) ↦ (i + 1, grind arith, rw pe (loop_plain true size i c rest h k))
  | inr (inr pe) ↦
      (i + 1 + 1 + 1, grind arith, rw pe (loop_triple size i c rest hc (grind arith) hs))
]

loop-escape_url :
    (size i : ℕ) (s : Bytes)
    → IsBytes s
    → i + length (escape_url s) ≡ size
    → size < 2 ^ 64
    → unescape_loop true size i 0 (escape_url s) ≡ some s
unfolding escape_url
loop-escape_url size i [] h hi hs = unfold unescape_loop in refl
loop-escape_url size i (c ∷ s) (hc, h) hi hs =
    let (j, len, step) = loop_piece size i c (escape_url s) hc hi hs in
    step ∙ ap (push c) (loop-escape_url size j s h len hs)

-- On a text with nothing to decode the loop copies, so the early return changes nothing.
loop_copy :
    (plus : Bool) (size i : ℕ) (s : Bytes)
    → find_byte b'%' s ≡ none
    → (plus && found (find_byte b'+' s)) ≡ false
    → unescape_loop plus size i 0 s ≡ some s
unfolding unescape_loop find_byte
loop_copy plus size i [] h k = refl
loop_copy plus size i (c ∷ s) h k = ground (arith, loop_copy plus size (i + 1) s)

pub unescape-eq-loop :
    (s : Bytes) (plus : Bool) → unescape s plus ≡ unescape_loop plus (length s) 0 0 s
unfolding unescape
unescape-eq-loop s plus = ground (arith, loop_copy plus (length s) 0 s)

-- Every byte string, escaped for a URL and unescaped with `plus_to_space`, comes back.
pub unescape-escape_url :
    (s : Bytes) → IsBytes s → length (escape_url s) < 2 ^ 64 → unescape (escape_url s) true ≡ some s
unescape-escape_url s h fits =
    rw unescape-eq-loop (loop-escape_url (length (escape_url s)) 0 s h (omega arith) fits)
