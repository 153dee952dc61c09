-- ===== src/Util/Numbers.antt =====
-- util/Util: `parseLong` and `parseUlong` over `strtol`, `strtoul` and `std::from_chars`, in base
-- ten, the base of every call; and the decimal print of `std::to_string`.
pub mod Digits
pub mod RoundTrip
use algiz.Base.{
  ℕ, zero, suc, ◌+◌, ◌-◌, ◌*◌, ◌/◌, ◌%◌, ◌^◌, ◌≡◌, refl, List, [], ◌∷◌, ◌++◌, Option, none, some,
  Bool, true, false, not, ◌&&◌, ◌||◌, leb, ltb, ◌==◌, if◌then◌else◌,
}
use algiz.Base.Bytes.{Bytes, is_empty}
use algiz.Base.Int.{ℤ, pos, negsuc, sub_ℕ}
use algiz.Util.Case.{is_digit}

-- `unspecified` is a read of a variable that no one has written.
pub data Parsed (A : Type 0) : Type 0 where
  ok : A → Parsed A
  invalid_argument : Parsed A
  unspecified : Parsed A

-- The value of the digits that a text begins with, behind `n`, and the text behind them.
unfoldable pub read_digits : ℕ → Bytes → ℕ × Bytes
unfolding is_digit
read_digits n [] = (n, [])
read_digits n (c ∷ s) =
    let more = read_digits (n * 10 + (c - b'0')) s in if is_digit c then more else (n, c ∷ s)

abbrev pub begins_with_digit : Bytes → Bool
begins_with_digit [] = false
begins_with_digit (c ∷ s) = leb b'0' c && leb c b'9'

-- `parseUlong(std::string_view)`: `from_chars` leaves `out` alone when the number is too large, and
-- the text behind the number is not looked at.
unfoldable pub parse_ulong_view : Bytes → Parsed ℕ
unfolding read_digits
parse_ulong_view view =
    if not (begins_with_digit view)
    then invalid_argument
    else if ltb (read_digits 0 view).0 (2 ^ 64)
    then ok (read_digits 0 view).0
    else unspecified

signed_view : Bool → Bytes → Parsed ℤ
signed_view minus view =
    if not (begins_with_digit view)
    then invalid_argument
    else if leb (read_digits 0 view).0 (if minus then 2 ^ 63 else 2 ^ 63 - 1)
    then ok (if minus then sub_ℕ 0 (read_digits 0 view).0 else pos (read_digits 0 view).0)
    else unspecified

-- `parseLong(std::string_view)`.
unfoldable pub parse_long_view : Bytes → Parsed ℤ
unfolding signed_view read_digits
parse_long_view [] = signed_view false []
parse_long_view (c ∷ s) = if c == b'-' then signed_view true s else signed_view false (c ∷ s)

-- `isspace`, which `strtol` skips.
unfoldable pub skip_spaces : Bytes → Bytes
skip_spaces [] = []
skip_spaces (c ∷ s) = if (c == b' ') || (leb 9 c && leb c 13) then skip_spaces s else c ∷ s

-- The sign that `strtol` takes, and the text behind it.
unfoldable pub take_sign : Bytes → Bool × Bytes
take_sign [] = (false, [])
take_sign (c ∷ s) =
    if c == b'-' then (true, s) else if c == b'+' then (false, s) else (false, c ∷ s)

-- `strtol`: the magnitude read, or `none` if there is no digit, with the end that it reports.
scan_number : Bytes → Option (Bool × ℕ × Bytes)
unfolding skip_spaces take_sign read_digits
scan_number str =
    let signed = take_sign (skip_spaces str) in
    if begins_with_digit signed.1
    then some (signed.0, (read_digits 0 signed.1).0, (read_digits 0 signed.1).1)
    else none

-- `LONG_MAX` and `LONG_MIN` stand for what does not fit.
abbrev clamp : ℕ → ℕ → ℕ
clamp bound n = if ltb bound n then bound else n

-- `parseLong(const std::string &)`: without a digit `end` is the start of the text, which is also
-- its end when the text is empty.
unfoldable pub parse_long : Bytes → Parsed ℤ
unfolding scan_number
parse_long str = elim (scan_number str) [
  | none ↦ if is_empty str then ok (pos 0) else invalid_argument
  | some (minus, n, rest) ↦
      if not (is_empty rest)
      then invalid_argument
      else ok (if minus then sub_ℕ 0 (clamp (2 ^ 63) n) else pos (clamp (2 ^ 63 - 1) n))
]

-- `parseUlong(const std::string &)`: `strtoul` negates behind a minus sign.
unfoldable pub parse_ulong : Bytes → Parsed ℕ
unfolding scan_number
parse_ulong str = elim (scan_number str) [
  | none ↦ if is_empty str then ok 0 else invalid_argument
  | some (minus, n, rest) ↦
      if not (is_empty rest)
      then invalid_argument
      else if ltb (2 ^ 64 - 1) n
      then ok (2 ^ 64 - 1)
      else ok (if minus then (2 ^ 64 - n) % 2 ^ 64 else n)
]

-- `std::to_string` of an unsigned number; the fuel is the number, which has fewer digits.
unfoldable pub print_digits : ℕ → ℕ → Bytes → Bytes
print_digits zero n out = ((n % 10) + b'0') ∷ out
print_digits (suc fuel) n out =
    let more = print_digits fuel (n / 10) (((n % 10) + b'0') ∷ out) in
    if ltb n 10 then ((n % 10) + b'0') ∷ out else more

unfoldable pub decimal : ℕ → Bytes
unfolding print_digits
decimal n = print_digits n n []

-- `std::to_string` of a signed number.
unfoldable pub decimal_signed : ℤ → Bytes
unfolding decimal
decimal_signed (pos n) = decimal n
decimal_signed (negsuc n) = b'-' ∷ decimal (suc n)
