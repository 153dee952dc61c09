-- ===== src/Util/Numbers/Digits.antt =====
-- util/Util: a printed number consists of digits.
use algiz.Base.{ℕ, zero, suc, ◌+◌, ◌/◌, ◌%◌, ◌≤◌, [], ◌∷◌, arith, All}
use algiz.Base.Bytes.{Bytes}
use algiz.Util.Numbers.{decimal, print_digits}

abbrev pub IsDigitByte : ℕ → Type 0
IsDigitByte c = (b'0' ≤ c) × (c ≤ b'9')

print_digits-All :
    (fuel n : ℕ) (out : Bytes) → All IsDigitByte out → All IsDigitByte (print_digits fuel n out)
unfolding print_digits
print_digits-All zero n out h = (omega arith, h)
print_digits-All (suc fuel) n out h =
    ground (arith, print_digits-All fuel (n / 10) (((n % 10) + b'0') ∷ out))

pub decimal-All : (n : ℕ) → All IsDigitByte (decimal n)
unfolding decimal
decimal-All n = print_digits-All n n [] tt
