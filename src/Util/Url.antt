-- ===== src/Util/Url.antt =====
-- util/Util: `escapeURL`, `charHex`, `hexString` and `unescape`.
pub mod RoundTrip
pub mod Faults
use Prim.Native.Nat.{bit_and}
use algiz.Base.{
  ℕ, zero, suc, ◌+◌, ◌-◌, ◌*◌, ◌/◌, ◌%◌, ◌^◌, ◌≡◌, refl, List, [], ◌∷◌, ◌++◌, Option, none, some,
  leb, ltb, ◌==◌, if◌then◌else◌, length, Bool, true, false, ◌&&◌, ◌||◌, not,
}
use algiz.Base.Bytes.{Bytes, codes, find_byte}

-- `<` of two `char`s, which are signed: the bytes from 128 on stand below 0.
abbrev pub char_lt : ℕ → ℕ → Bool
char_lt a b = ltb ((a + 128) % 256) ((b + 128) % 256)

abbrev pub char_le : ℕ → ℕ → Bool
char_le a b = leb ((a + 128) % 256) ((b + 128) % 256)

-- `nibble + (nibble < 10? '0' : 'a' - 10)`.
unfoldable pub hex_digit : ℕ → ℕ
hex_digit nibble = if ltb nibble 10 then nibble + b'0' else nibble + (b'a' - 10)

unfoldable pub char_hex : ℕ → Bytes
unfolding hex_digit
char_hex ch = hex_digit ((ch / 16) % 16) ∷ hex_digit (ch % 16) ∷ []

unfoldable pub hex_string : Bytes → Bytes
unfolding hex_digit
hex_string [] = []
hex_string (b ∷ s) = hex_digit (b / 16) ∷ hex_digit (b % 16) ∷ hex_string s

-- What one round of `escapeURL` appends.
unfoldable pub escape_url_char : ℕ → Bytes
unfolding char_hex
escape_url_char ch =
    if ch == b' '
    then b'+' ∷ []
    else if (ch == b'.') || (ch == b'_')
    then ch ∷ []
    else if char_lt ch b'0'
        || (char_lt b'9' ch && char_lt ch b'A')
        || (char_lt b'Z' ch && char_lt ch b'a')
        || char_lt b'z' ch
    then b'%' ∷ char_hex ch
    else ch ∷ []

unfoldable pub escape_url : Bytes → Bytes
unfolding escape_url_char
escape_url [] = []
escape_url (ch ∷ s) = escape_url_char ch ++ escape_url s

-- `std::isxdigit`.
unfoldable pub is_xdigit : ℕ → Bool
is_xdigit c = (leb b'0' c && leb c b'9') || (leb b'a' c && leb c b'f') || (leb b'A' c && leb c b'F')

-- The three ladders of `unescape` on a digit's value.
unfoldable pub digit_value : ℕ → ℕ
digit_value c =
    if leb b'a' c && leb c b'f'
    then c - b'a' + 10
    else if leb b'A' c && leb c b'F'
    then c - b'A' + 10
    else c - b'0'

-- `char to_add`, wrapped to a byte.
unfoldable pub hex_pair : ℕ → ℕ → ℕ
unfolding digit_value
hex_pair next after = (digit_value next * 16 + digit_value after) % 256

-- `path[i + 1]` and `path[i + 2]`, read before any test; `none` is a read past the end.
unfoldable pub look_ahead : Bytes → Option (ℕ × ℕ)
look_ahead [] = none
look_ahead (next ∷ []) = none
look_ahead (next ∷ after ∷ rest) = some (next, after)

abbrev pub push : ℕ → Option Bytes → Option Bytes
push c none = none
push c (some out) = some (c ∷ out)

-- The loop of `unescape` at index `i`, with the bytes from `i` on. `skip` counts the rounds that
-- `i += 2` leaves out. `size - 3` is computed in `size_t`. `none` is an out-of-range read.
unfoldable pub unescape_loop : Bool → ℕ → ℕ → ℕ → Bytes → Option Bytes
unfolding is_xdigit hex_pair look_ahead
unescape_loop plus size i skip [] = some []
unescape_loop plus size i (suc skip) (ch ∷ rest) = unescape_loop plus size (i + 1) skip rest
unescape_loop plus size i zero (ch ∷ rest) =
    let next_round = unescape_loop plus size (i + 1) 0 rest in
    let after_pair = unescape_loop plus size (i + 1) 2 rest in
    if plus && ch == b'+'
    then push b' ' next_round
    else if not (ch == b'%') || ltb ((size + 2 ^ 64 - 3) % 2 ^ 64) i
    then push ch next_round
    else elim (look_ahead rest) [
      | none ↦ none
      | some (next, after) ↦
          if not (is_xdigit next) || not (is_xdigit after)
          then push ch next_round
          else push (hex_pair next after) after_pair
    ]

abbrev pub found : Option ℕ → Bool
found none = false
found (some n) = true

unfoldable pub unescape : Bytes → Bool → Option Bytes
unfolding unescape_loop
unescape path plus =
    if not (found (find_byte b'%' path)) && not (plus && found (find_byte b'+' path))
    then some path
    else unescape_loop plus (length path) 0 0 path
