-- ===== src/Http/Request/Ranges/Open.antt =====
-- http/Request: a range with no end, `bytes=N-`, from its text to the answer of `valid`.
use algiz.Base.{
  ℕ, suc, ◌-◌, ◌^◌, ◌≡◌, ◌<◌, refl, List, [], ◌∷◌, ◌++◌, true, false, arith, All, none, length,
  ◌==◌, take, ◌∙◌, ap, take-length-append, length-append, some, subst, append-nil,
}
use algiz.Base.Bytes.{Bytes, codes, find_text, find_byte, find_byte-append, Lacks}
use algiz.Util.Numbers.{decimal, print_digits, begins_with_digit, parse_ulong_view}
use algiz.Util.Numbers
use algiz.Util.Numbers.Digits.{IsDigitByte, decimal-All}
use algiz.Util.Numbers.RoundTrip.{parse_ulong_view-decimal, decimal_begins}
use algiz.Http.Request.{Request, Span, ok, parse_number}
use algiz.Http.Request.Ranges.{
  max_size, valid_loop, last_end, valid_sorted, valid, parse_range, range_loop, parse_piece,
}

length_of_begins : (s : Bytes) → begins_with_digit s ≡ true → (k : ℕ) × (length s ≡ suc k)
length_of_begins [] h = cc
length_of_begins (c ∷ s) h = (length s, refl)

no_separator : (s : Bytes) → All IsDigitByte s → find_text (codes ", ") (s ++ b'-' ∷ []) ≡ none
unfolding find_text
no_separator [] h = refl
no_separator (c ∷ s) (hc, h) = ground (arith, no_separator s h)

digits_lack : (s : Bytes) → All IsDigitByte s → Lacks b'-' s
digits_lack [] h = tt
digits_lack (c ∷ s) (hc, h) = (omega arith, digits_lack s h)

parse_number-decimal : (n : ℕ) → n < 2 ^ 64 → parse_number (decimal n) ≡ ok n
unfolding parse_number
parse_number-decimal n h =
    let value : parse_ulong_view (decimal n) ≡ Numbers.Parsed.ok n =
      subst (λ t. parse_ulong_view t ≡ Numbers.Parsed.ok n) (append-nil (decimal n))
        (parse_ulong_view-decimal n [] h refl) in
    rw (value, parse_number) refl

decimal-length : (n : ℕ) → (k : ℕ) × (length (decimal n) ≡ suc k)
decimal-length n =
    length_of_begins (decimal n)
      (subst (λ t. begins_with_digit t ≡ true) (append-nil (decimal n)) (decimal_begins n []))

abbrev with_range : Request → ℕ → ℕ → Request
with_range r start end = record r { ranges = r.ranges ++ (start, end) ∷ [] }

-- A piece whose first hyphen is its last byte.
open_piece :
    (s : Bytes) (k n : ℕ) (r : Request)
    → length s ≡ suc k
    → Lacks b'-' s
    → parse_number s ≡ ok n
    → parse_piece (s ++ b'-' ∷ []) r ≡ ok (with_range r n max_size)
unfolding parse_piece
open_piece s k n r len h value =
    let at : find_byte b'-' (s ++ b'-' ∷ []) ≡ some (suc k) =
      find_byte-append b'-' s [] h ∙ ap some len in
    let whole : take (suc k) (s ++ b'-' ∷ []) ≡ s =
      subst (λ m. take m (s ++ b'-' ∷ []) ≡ s) len (take-length-append s (b'-' ∷ [])) in
    let last : (suc k == length (s ++ b'-' ∷ []) - 1) ≡ true =
      ground (arith, length-append s (b'-' ∷ [])) in
    rw (at, parse_piece) (rw (whole, value, last) refl)

single_round :
    (fuel k : ℕ) (s : Bytes) (r : Request)
    → length s ≡ suc k
    → find_text (codes ", ") s ≡ none
    → range_loop (suc fuel) s r ≡ parse_piece s r
unfolding range_loop
single_round fuel k [] r len h = absurd (omega arith)
single_round fuel k (c ∷ s) r len h = rw (h, range_loop) refl

open_loop :
    (fuel n : ℕ) (r : Request)
    → n < 2 ^ 64
    → range_loop (suc fuel) (decimal n ++ b'-' ∷ []) r ≡ ok (with_range r n max_size)
open_loop fuel n r h =
    let (k, len) = decimal-length n in
    single_round fuel (suc k) (decimal n ++ b'-' ∷ []) r
      (omega (arith, length-append (decimal n) (b'-' ∷ [])))
      (no_separator (decimal n) (decimal-All n))
    ∙ open_piece (decimal n) k n r len (digits_lack (decimal n) (decimal-All n))
        (parse_number-decimal n h)

-- A header that asks for everything from a position on is read as one range up to the largest
-- number, and that range is not valid for a file of any size below that number.
pub open_range_refused :
    (sort : List Span → List Span) (n total : ℕ) (r : Request)
    → ((span : Span) → sort (span ∷ []) ≡ span ∷ [])
    → n < 2 ^ 64
    → total < max_size
    → (r' : Request) × (parse_range (codes "bytes=" ++ (decimal n ++ b'-' ∷ [])) r ≡ ok r')
      × (r'.ranges ≡ (n, max_size) ∷ [])
      × ((valid sort total r').0 ≡ false)
unfolding parse_range valid valid_sorted last_end valid_loop
open_range_refused sort n total r one h small = (
  with_range (record r { ranges = [] }) n max_size,
  open_loop (length (codes "bytes=" ++ (decimal n ++ b'-' ∷ []))) n (record r { ranges = [] }) h,
  refl,
  rw (one (n, max_size)) (ground arith),
)
