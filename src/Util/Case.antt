-- ===== src/Util/Case.antt =====
-- util/Util: `toLower`, `toUpper`, `isNumeric` and `findLast`.
use algiz.Base.{
  ℕ, zero, suc, ◌+◌, ◌-◌, ◌≡◌, ◌<◌, refl, [], ◌∷◌, Option, none, some, Bool, true, false, not, ◌&&◌,
  leb, if◌then◌else◌, length, drop, arith, ap₂,
}
use algiz.Base.Bytes.{Bytes, starts_with, is_empty, succ?}

-- One round of `toLower`; both letter ranges are below 128, so the sign of `char` is no matter.
unfoldable pub lower : ℕ → ℕ
lower c = if leb b'A' c && leb c b'Z' then c + (b'a' - b'A') else c

unfoldable pub upper : ℕ → ℕ
upper c = if leb b'a' c && leb c b'z' then c - (b'a' - b'A') else c

unfoldable pub to_lower : Bytes → Bytes
unfolding lower
to_lower [] = []
to_lower (c ∷ s) = lower c ∷ to_lower s

unfoldable pub to_upper : Bytes → Bytes
unfolding upper
to_upper [] = []
to_upper (c ∷ s) = upper c ∷ to_upper s

unfoldable pub is_digit : ℕ → Bool
is_digit ch = leb b'0' ch && leb ch b'9'

all_digits : Bytes → Bool
all_digits [] = true
all_digits (c ∷ s) = if not (is_digit c) then false else all_digits s

unfoldable pub is_numeric : Bytes → Bool
unfolding all_digits is_digit
is_numeric str = if is_empty str then false else all_digits str

-- `std::find_end`: the last position where the needle fits.
abbrev or_else : Option ℕ → Option ℕ → Option ℕ
or_else none d = d
or_else (some n) d = some n

unfoldable pub find_end : Bytes → Bytes → Option ℕ
find_end [] needle = none
find_end (c ∷ s) needle =
    or_else (succ? (find_end s needle)) (if starts_with (c ∷ s) needle then some 0 else none)

unfoldable pub find_last : Bytes → Bytes → Option ℕ
unfolding find_end
find_last haystack needle =
    if is_empty needle then some (length haystack) else find_end haystack needle

lower-lower : (c : ℕ) → lower (lower c) ≡ lower c
unfolding lower
lower-lower c = ground arith

lower-upper : (c : ℕ) → lower (upper c) ≡ lower c
unfolding lower upper
lower-upper c = ground arith

-- Lower case is a canonical form: it is kept by a second pass, and the upper case of a text has
-- the same.
pub to_lower-canonical :
    (s : Bytes) → (to_lower (to_lower s) ≡ to_lower s) × (to_lower (to_upper s) ≡ to_lower s)
unfolding to_lower to_upper
to_lower-canonical [] = (refl, refl)
to_lower-canonical (c ∷ s) =
    let (a, b) = to_lower-canonical s in (ap₂ ◌∷◌ (lower-lower c) a, ap₂ ◌∷◌ (lower-upper c) b)

find_end_occurs :
    (s p : Bytes) (n : ℕ)
    → find_end s p ≡ some n
    → (starts_with (drop n s) p ≡ true) × (n < length s)
unfolding find_end
find_end_occurs [] p n h = cc
find_end_occurs (c ∷ s) p zero h = ground arith
find_end_occurs (c ∷ s) p (suc n) h = ground (arith, find_end_occurs s p n)

find_end-none :
    (s p : Bytes) (m : ℕ) → find_end s p ≡ none → m < length s → starts_with (drop m s) p ≡ false
unfolding find_end
find_end-none [] p m h b = absurd (omega arith)
find_end-none (c ∷ s) p zero h b = ground arith
find_end-none (c ∷ s) p (suc m) h b = ground (arith, find_end-none s p m)

find_end_last :
    (s p : Bytes) (n m : ℕ)
    → find_end s p ≡ some n
    → n < m
    → m < length s
    → starts_with (drop m s) p ≡ false
unfolding find_end
find_end_last [] p n m h a b = absurd (omega arith)
find_end_last (c ∷ s) p n zero h a b = absurd (omega arith)
find_end_last (c ∷ s) p zero (suc m) h a b = ground (arith, find_end-none s p m)
find_end_last (c ∷ s) p (suc n) (suc m) h a b =
    ground (arith, find_end-none s p m, find_end_last s p n m)

-- Where `findLast` gives a position of a needle that is not empty, the needle occurs there and at
-- no later position.
pub find_last_lem :
    (s p : Bytes) (n : ℕ)
    → is_empty p ≡ false
    → find_last s p ≡ some n
    → (starts_with (drop n s) p ≡ true)
      × (n < length s)
      × ((m : ℕ) → n < m → m < length s → starts_with (drop m s) p ≡ false)
unfolding find_last
find_last_lem s p n e h =
    let h' : find_end s p ≡ some n = ground arith in
    let (occurs, inside) = find_end_occurs s p n h' in
    (occurs, inside, λ m a b. find_end_last s p n m h' a b)
