-- ===== src/Util/Numbers/RoundTrip.antt =====
-- util/Util: decimal prints are parsed back.
use algiz.Base.{
  ℕ, zero, suc, ◌+◌, ◌/◌, ◌%◌, ◌^◌, ◌<◌, ◌≤◌, ◌≡◌, refl, [], ◌∷◌, ◌++◌, ltb, arith, Bool-cases, inl,
  inr, ◌∙◌, true, false, some, subst, append-nil,
}
use algiz.Base.Bytes.{Bytes}
use algiz.Base.Int.{ℤ, pos, negsuc, pos_part, neg_part}
use algiz.Util.Numbers.{
  ok, read_digits, begins_with_digit, parse_ulong_view, parse_long, print_digits, decimal,
  decimal_signed, skip_spaces, take_sign, scan_number,
}

-- Reading the last digit behind the others gives the number.
read_last : (n : ℕ) (s : Bytes) → read_digits (n / 10) (((n % 10) + b'0') ∷ s) ≡ read_digits n s
unfolding read_digits
read_last n s = ground arith

print_begins : (fuel n : ℕ) (out : Bytes) → begins_with_digit (print_digits fuel n out) ≡ true
unfolding print_digits
print_begins zero n out = ground arith
print_begins (suc fuel) n out = ground (arith, print_begins fuel (n / 10) (((n % 10) + b'0') ∷ out))

read-print :
    (fuel n : ℕ) (out : Bytes)
    → n ≤ fuel
    → read_digits 0 (print_digits fuel n out) ≡ read_digits n out
unfolding print_digits
read-print zero n out h = let e : n ≡ 0 = omega arith in rw e (read_last 0 out)
read-print (suc fuel) n out h = elim (Bool-cases (ltb n 10)) [
  | inl e ↦ let small : 0 ≡ n / 10 = ground arith in rw (e, small) (read_last n out)
  | inr e ↦
      rw e (read-print fuel (n / 10) (((n % 10) + b'0') ∷ out) (ground arith) ∙ read_last n out)
]

print-append :
    (fuel n : ℕ) (out rest : Bytes)
    → print_digits fuel n out ++ rest ≡ print_digits fuel n (out ++ rest)
unfolding print_digits
print-append zero n out rest = refl
print-append (suc fuel) n out rest =
    ground (arith, print-append fuel (n / 10) (((n % 10) + b'0') ∷ out) rest)

read_stop : (n : ℕ) (rest : Bytes) → begins_with_digit rest ≡ false → read_digits n rest ≡ (n, rest)
unfolding read_digits
read_stop n [] h = refl
read_stop n (c ∷ s) h = ground arith

-- A printed number is read up to its end, whatever text that begins with no digit follows.
pub read_digits-decimal :
    (n : ℕ) (rest : Bytes)
    → begins_with_digit rest ≡ false
    → read_digits 0 (decimal n ++ rest) ≡ (n, rest)
unfolding decimal
read_digits-decimal n rest h =
    rw (print-append n n [] rest) (read-print n n rest (omega arith) ∙ read_stop n rest h)

pub decimal_begins : (n : ℕ) (rest : Bytes) → begins_with_digit (decimal n ++ rest) ≡ true
unfolding decimal
decimal_begins n rest = rw (print-append n n [] rest) (print_begins n n rest)

-- `parseUlong` of a view gives back every printed 64-bit number, also where text that does not begin with
-- a digit follows it.
pub parse_ulong_view-decimal :
    (n : ℕ) (rest : Bytes)
    → n < 2 ^ 64
    → begins_with_digit rest ≡ false
    → parse_ulong_view (decimal n ++ rest) ≡ ok n
unfolding parse_ulong_view
parse_ulong_view-decimal n rest fits h =
    rw (decimal_begins n rest, read_digits-decimal n rest h) (ground arith)

-- A text that begins with a digit has no space or sign to take off.
scan_plain :
    (s : Bytes)
    → begins_with_digit s ≡ true
    → scan_number s ≡ some (false, (read_digits 0 s).0, (read_digits 0 s).1)
unfolding scan_number skip_spaces take_sign
scan_plain [] h = cc
scan_plain (c ∷ s) h = ground arith

scan_minus :
    (s : Bytes)
    → begins_with_digit s ≡ true
    → scan_number (b'-' ∷ s) ≡ some (true, (read_digits 0 s).0, (read_digits 0 s).1)
unfolding scan_number skip_spaces take_sign
scan_minus s h = ground arith

scan-decimal : (n : ℕ) → scan_number (decimal n) ≡ some (false, n, [])
scan-decimal n =
    let begins : begins_with_digit (decimal n) ≡ true =
      subst (λ t. begins_with_digit t ≡ true) (append-nil (decimal n)) (decimal_begins n []) in
    let value : read_digits 0 (decimal n) ≡ (n, []) =
      subst (λ t. read_digits 0 t ≡ (n, [])) (append-nil (decimal n))
        (read_digits-decimal n [] refl) in
    rw (scan_plain (decimal n) begins, value)

scan_minus-decimal : (n : ℕ) → scan_number (b'-' ∷ decimal n) ≡ some (true, n, [])
scan_minus-decimal n =
    let begins : begins_with_digit (decimal n) ≡ true =
      subst (λ t. begins_with_digit t ≡ true) (append-nil (decimal n)) (decimal_begins n []) in
    let value : read_digits 0 (decimal n) ≡ (n, []) =
      subst (λ t. read_digits 0 t ≡ (n, [])) (append-nil (decimal n))
        (read_digits-decimal n [] refl) in
    rw (scan_minus (decimal n) begins, value)

abbrev pub IsLong : ℤ → Type 0
IsLong z = (pos_part z < 2 ^ 63) × (neg_part z ≤ 2 ^ 63)

-- `parseLong` of a string gives back every printed 64-bit signed number.
pub parse_long-decimal_signed : (z : ℤ) → IsLong z → parse_long (decimal_signed z) ≡ ok z
unfolding parse_long decimal_signed
parse_long-decimal_signed (pos n) h = rw (scan-decimal n, parse_long) (ground arith)
parse_long-decimal_signed (negsuc n) h = rw (scan_minus-decimal (suc n), parse_long) (ground arith)
