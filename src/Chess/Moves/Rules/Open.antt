-- ===== src/Chess/Moves/Rules/Open.antt =====
-- plugins/probchess/piece/Piece: the two tests of `filter`, as a rule.
use algiz.Base.{
  ℕ, ◌≡◌, ◌≢◌, refl, sym, subst, ap, ◌↔◌, ◌⊎◌, Option, none, some, false, arith, Bool-cases, inl,
  inr, ◌<◌,
}
use algiz.Base.Int.{ℤ, pos, negsuc}
use algiz.Chess.Square.{Color, Square, square, off_board, color_eq}
use algiz.Chess.Board.{Board, Piece, at}
use algiz.Chess.Moves.{same_color}
use algiz.Chess.Equality.{color-eq, color_refl}
use algiz.Chess.Moves.Legal.{IsLegal}

-- One of the 64 squares, empty or held by the other side.
abbrev pub IsOpen : Board → Color → Square → Type 0
IsOpen board color s =
    ((r : ℕ) × (c : ℕ) × (r < 8) × (c < 8) × (s ≡ square (pos r) (pos c)))
    × ((at board s ≡ none) ⊎ ((other : Piece) × (at board s ≡ some other) × (other.color ≢ color)))

on_lem :
    (r c : ℤ)
    → off_board (square r c) ≡ false
    → (r' : ℕ) × (c' : ℕ) × (r' < 8) × (c' < 8) × (square r c ≡ square (pos r') (pos c'))
unfolding off_board
on_lem (pos r) (pos c) h = (r, c, ground arith, ground arith, refl)
on_lem (pos r) (negsuc c) h = absurd (ground arith)
on_lem (negsuc r) c h = absurd (ground arith)

within : (r c : ℕ) → r < 8 → c < 8 → off_board (square (pos r) (pos c)) ≡ false
unfolding off_board
within r c hr hc = ground arith

other_side :
    (o : Option Piece) (color : Color)
    → (same_color o color ≡ false)
      ↔ ((o ≡ none) ⊎ ((other : Piece) × (o ≡ some other) × (other.color ≢ color)))
unfolding same_color
other_side none color = (λ h. inl refl, λ h. refl)
other_side (some other) color = (
  λ h. inr (other, refl, apart h),
  λ h. elim h [ inl n ↦ absurd (ground arith) | inr (other', e, k) ↦ differs other' e k ],
)
  where
    apart : color_eq other.color color ≡ false → other.color ≢ color
    apart h e =
        let same : color_eq color color ≡ false = subst (λ c. color_eq c color ≡ false) e h in
        absurd (ground (arith, color_refl color))

    differs :
        (other' : Piece)
        → some other ≡ some other'
        → other'.color ≢ color
        → color_eq other.color color ≡ false
    differs other' e k = elim (Bool-cases (color_eq other.color color)) [
      | inl h ↦ absurd (k (subst (λ c. c ≡ color) (ap color_of e) (color-eq other.color color h)))
      | inr h ↦ h
    ]
      where
        color_of : Option Piece → Color
        color_of none = other.color
        color_of (some p) = p.color

pub IsOpen-iff :
    (board : Board) (color : Color) (s : Square) → IsLegal board color s ↔ IsOpen board color s
IsOpen-iff board color s = (
  λ (on, free). (on_lem s.row s.column on, (other_side (at board s) color).0 free),
  λ ((r, c, hr, hc, e), free). (
    subst (λ t. off_board t ≡ false) (sym e) (within r c hr hc),
    (other_side (at board s) color).1 free,
  ),
)
