-- ===== src/Http/Request/Ranges/Bounds.antt =====
-- http/Request: what `valid` makes sure of, and which ranges it never lets through.
use algiz.Base.{ℕ, ◌-◌, ◌≡◌, ◌≤◌, ◌<◌, refl, List, [], ◌∷◌, true, false, arith, ◌↔◌}
use algiz.Http.Request.{Request, Span}
use algiz.Http.Request.Ranges.{valid_loop, last_end, valid_sorted, valid, is_nil}

-- Behind `prev_end` the ranges are not empty, do not overlap and lie inside the file.
abbrev pub IsChain : ℕ → ℕ → List Span → Type 0
IsChain total prev_end [] = Unit {0}
IsChain total prev_end ((start, end) ∷ rest) =
    (prev_end ≤ start) × (start < end) × (end ≤ total) × IsChain total end rest

IsChain-of_loop :
    (total prev_end : ℕ) (spans : List Span)
    → valid_loop total prev_end spans ≡ true
    → IsChain total prev_end spans
unfolding valid_loop
IsChain-of_loop total prev_end [] h = tt
IsChain-of_loop total prev_end ((start, end) ∷ rest) h =
    ground (arith, IsChain-of_loop total end rest)

loop_of_chain :
    (total prev_end : ℕ) (spans : List Span)
    → IsChain total prev_end spans
    → valid_loop total prev_end spans ≡ true
unfolding valid_loop
loop_of_chain total prev_end [] h = refl
loop_of_chain total prev_end ((start, end) ∷ rest) (a, b, d, h) =
    ground (arith, loop_of_chain total end rest h)

-- What the ranges of a valid request are, in the order that they were sorted in.
abbrev pub IsServable : ℕ → ℕ → List Span → Type 0
IsServable total suffix [] = Unit {0}
IsServable total suffix ((start, end) ∷ rest) =
    IsChain total end rest × (last_end end rest ≤ total - suffix)

sorted_iff :
    (total suffix : ℕ) (spans : List Span)
    → (valid_sorted total suffix spans ≡ true) ↔ IsServable total suffix spans
unfolding valid_sorted
sorted_iff total suffix [] = (λ h. tt, λ h. refl)
sorted_iff total suffix ((start, end) ∷ rest) = (
  λ h. ground (arith, IsChain-of_loop total end rest),
  λ h. ground (arith, loop_of_chain total end rest h.0),
)

-- A request with at least one range is valid exactly when its suffix fits into the file and its
-- ranges, sorted, do not overlap, those behind the first are not empty and lie inside the file, and
-- the last one ends before the suffix.
pub valid_iff :
    (sort : List Span → List Span) (total : ℕ) (r : Request)
    → is_nil r.ranges ≡ false
    → ((valid sort total r).0 ≡ true)
      ↔ ((r.suffix_length ≤ total) × IsServable total r.suffix_length (sort r.ranges))
unfolding valid
valid_iff sort total r some_range = (
  λ h.
      let fits : r.suffix_length ≤ total = ground arith in
      (fits, (sorted_iff total r.suffix_length (sort r.ranges)).0 (ground arith)),
  λ h.
      let sorted = (sorted_iff total r.suffix_length (sort r.ranges)).1 h.1 in
      let fits = h.0 in ground arith,
)
