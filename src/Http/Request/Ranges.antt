-- ===== src/Http/Request/Ranges.antt =====
-- http/Request: `parseRange`, `valid` and `hackRanges`.
pub mod Bounds
pub mod Open
use algiz.Base.{
  ℕ, zero, suc, ◌+◌, ◌-◌, ◌%◌, ◌^◌, ◌≡◌, ◌≤◌, ◌<◌, refl, List, [], ◌∷◌, ◌++◌, Option, none, some,
  Bool, true, false, not, ◌&&◌, ◌||◌, if◌then◌else◌, length, take, drop, arith, ltb, leb, ◌==◌,
}
use algiz.Base.Bytes.{Bytes, codes, find_byte, find_text, is_empty, beq}
use algiz.Http.Request.{Request, Span, Outcome, ok, undefined, parse_error, ◌>>=◌, parse_number}

-- `size_t end = -1`.
abbrev pub max_size : ℕ
max_size = 2 ^ 64 - 1

-- One piece between separators: a suffix length, or a range at the end of the list. A hyphen that is
-- not there is at `npos`, which is also `piece.size() - 1` of an empty piece, and `npos + 1` is 0.
unfoldable pub parse_piece : Bytes → Request → Outcome Request
parse_piece piece r = elim (find_byte b'-' piece) [
  | some zero ↦
      if length piece == 1
      then parse_error
      else do suffix ← parse_number (drop 1 piece); ok (record r { suffix_length = suffix })
  | some (suc h) ↦ do
    start ← parse_number (take (suc h) piece)
    end ← if suc h == length piece - 1 then ok max_size else parse_number (drop (suc h + 1) piece)
    ok (record r { ranges = r.ranges ++ (start, end) ∷ [] })
  | none ↦ do
    start ← parse_number piece
    end ← if is_empty piece then ok max_size else parse_number piece
    ok (record r { ranges = r.ranges ++ (start, end) ∷ [] })
]

-- `while (!content.empty())`: each round but the last takes a piece and a separator off.
unfoldable pub range_loop : ℕ → Bytes → Request → Outcome Request
unfolding parse_piece
range_loop zero content r = undefined
range_loop (suc fuel) [] r = ok r
range_loop (suc fuel) (c ∷ content) r = elim (find_text (codes ", ") (c ∷ content)) [
  | none ↦ parse_piece (c ∷ content) r
  | some separator ↦ do
    more ← parse_piece (take separator (c ∷ content)) r
    range_loop fuel (drop (separator + 2) (c ∷ content)) more
]

unfoldable pub parse_range : Bytes → Request → Outcome Request
unfolding range_loop
parse_range content r =
    if not (beq (take 6 content) (codes "bytes="))
    then parse_error
    else range_loop (suc (length content)) (drop 6 content) (record r { ranges = [] })

-- The loop of `valid` from the second range on, with the end of the range before it.
unfoldable pub valid_loop : ℕ → ℕ → List Span → Bool
valid_loop total prev_end [] = true
valid_loop total prev_end ((start, end) ∷ rest) =
    if leb end start || ltb start prev_end || leb total start || ltb total end
    then false
    else valid_loop total end rest

-- `std::get<1>(ranges.back())`.
unfoldable pub last_end : ℕ → List Span → ℕ
last_end end [] = end
last_end end ((start, end') ∷ rest) = last_end end' rest

valid_sorted : ℕ → ℕ → List Span → Bool
unfolding valid_loop last_end
valid_sorted total suffix [] = true
valid_sorted total suffix ((start, end) ∷ rest) =
    if valid_loop total end rest then leb (last_end end rest) (total - suffix) else false

unfoldable pub is_nil : List Span → Bool
is_nil [] = true
is_nil (span ∷ rest) = false

-- `std::sort` is called with a comparison that is no strict weak order, so its result is a parameter:
-- the ranges in some order.
unfoldable pub valid : (List Span → List Span) → ℕ → Request → Bool × Request
unfolding valid_sorted is_nil
valid sort total r =
    if ltb total r.suffix_length
    then (false, r)
    else if is_nil r.ranges
    then (true, r)
    else (valid_sorted total r.suffix_length (sort r.ranges), record r { ranges = sort r.ranges })

-- `hackRanges`: one range over everything is no range.
whole : List Span → Bool
whole [] = false
whole ((start, end) ∷ []) = (start == 0) && (end == max_size)
whole ((start, end) ∷ next ∷ rest) = false

unfoldable pub hack_ranges : Request → Bool × Request
unfolding whole
hack_ranges r = if whole r.ranges then (true, record r { ranges = [] }) else (false, r)
