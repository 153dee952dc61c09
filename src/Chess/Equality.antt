-- ===== src/Chess/Equality.antt =====
-- plugins/probchess: the equality tests of squares and colours decide equality.
use algiz.Base.{
  ◌≡◌, refl, sym, ap, ap₂, subst, ◌∙◌, List, [], ◌∷◌, Bool, true, ◌&&◌, if◌then◌else◌, Bool-cases,
  inl, inr, arith,
}
use algiz.Base.Int.{ℤ, pos, negsuc, eqb_ℤ}
use algiz.Chess.Square.{Color, black, white, color_eq, Square, square, square_eq}
use algiz.Chess.Moves.Legal.{In}
use algiz.Chess.Check.{has}

pub eqb-eq : (a b : ℤ) → eqb_ℤ a b ≡ true → a ≡ b
eqb-eq (pos a) (pos b) h = ap pos (ground arith)
eqb-eq (pos a) (negsuc b) h = absurd (ground arith)
eqb-eq (negsuc a) (pos b) h = absurd (ground arith)
eqb-eq (negsuc a) (negsuc b) h = ap negsuc (ground arith)

pub eqb_refl : (a : ℤ) → eqb_ℤ a a ≡ true
eqb_refl a = ground arith

pub and-true : (a b : Bool) → (a && b) ≡ true → (a ≡ true) × (b ≡ true)
and-true a b h = ground arith

pub square-eq : (s t : Square) → square_eq s t ≡ true → s ≡ t
unfolding square_eq
square-eq s t h =
    let (r, c) = and-true (eqb_ℤ s.row t.row) (eqb_ℤ s.column t.column) h in
    ap₂ square (eqb-eq s.row t.row r) (eqb-eq s.column t.column c)

pub square_refl : (s : Square) → square_eq s s ≡ true
unfolding square_eq
square_refl s = rw (eqb_refl s.row, eqb_refl s.column) refl

pub has-In : (s : Square) (ss : List Square) → has s ss ≡ true → In s ss
has-In s [] h = absurd (ground arith)
has-In s (t ∷ ss) h = elim (Bool-cases (square_eq t s)) [
  | inl e ↦ inl (sym (square-eq t s e))
  | inr e ↦ inr (has-In s ss (sym (ap (λ b. if b then true else has s ss) e) ∙ h))
]

pub In-has : (s : Square) (ss : List Square) → In s ss → has s ss ≡ true
In-has s [] h = absurd h
In-has s (t ∷ ss) (inl e) =
    ap (λ b. if b then true else has s ss) (subst (λ t. square_eq t s ≡ true) e (square_refl s))
In-has s (t ∷ ss) (inr m) = ground (arith, In-has s ss m)

pub color-eq : (a b : Color) → color_eq a b ≡ true → a ≡ b
unfolding color_eq
color-eq black black h = refl
color-eq white white h = refl
color-eq black white h = absurd (ground arith)
color-eq white black h = absurd (ground arith)

pub color_refl : (a : Color) → color_eq a a ≡ true
unfolding color_eq
color_refl black = refl
color_refl white = refl
