-- ===== src/Chess/Moves/Legal.antt =====
-- plugins/probchess/piece/Piece: the squares a piece may be moved to.
use algiz.Base.{
  ◌≡◌, sym, subst, List, [], ◌∷◌, some, Bool, true, false, ◌||◌, if◌then◌else◌, arith, Bool-cases,
  inl, inr, ◌⊎◌, ◌↔◌,
}
use algiz.Chess.Square.{Color, Square, off_board}
use algiz.Chess.Board.{Board, Piece, at}
use algiz.Chess.Moves.{filter, can_move_to, same_color, candidates}

abbrev pub Holds : Board → Color → Square → Type 0
Holds board color s = (other : Piece) × (at board s ≡ some other) × (other.color ≡ color)

-- On the board and not held by a piece of the colour.
abbrev pub IsLegal : Board → Color → Square → Type 0
IsLegal board color s = (off_board s ≡ false) × (same_color (at board s) color ≡ false)

abbrev pub In : Square → List Square → Type 0
In s [] = ⊥
In s (t ∷ ts) = (s ≡ t) ⊎ In s ts

abbrev refused : Board → Color → Square → Bool
refused board color s = off_board s || same_color (at board s) color

or-false : (a b : Bool) → (a || b) ≡ false → (a ≡ false) × (b ≡ false)
or-false a b h = ground arith

or-true : (a b : Bool) → (a || b) ≡ true → a ≡ false → b ≡ false → ⊥
or-true a b h ha hb = ground arith

filter_sound :
    (board : Board) (color : Color) (s : Square) (ss : List Square)
    → In s (filter board color ss)
    → In s ss × IsLegal board color s
unfolding filter
filter_sound board color s [] h = absurd h
filter_sound board color s (t ∷ ss) h = elim (Bool-cases (refused board color t)) [
  | inl e ↦
      let (m, l) =
        filter_sound board color s ss (
          subst (λ b. In s (if b then filter board color ss else t ∷ filter board color ss)) e h) in
      (inr m, l)
  | inr e ↦
      elim (subst (λ b. In s (if b then filter board color ss else t ∷ filter board color ss)) e
        h) [
          | inl st ↦ (
            inl st,
            subst (IsLegal board color) (sym st)
                (or-false (off_board t) (same_color (at board t) color) e),
          )
          | inr m ↦ let (m, l) = filter_sound board color s ss m in (inr m, l)
        ]
]

filter_complete :
    (board : Board) (color : Color) (s : Square) (ss : List Square)
    → In s ss
    → IsLegal board color s
    → In s (filter board color ss)
unfolding filter
filter_complete board color s [] h l = absurd h
filter_complete board color s (t ∷ ss) (inl st) l =
    let (on, free) = subst (IsLegal board color) st l in rw (on, free) (inl st)
filter_complete board color s (t ∷ ss) (inr m) l = elim (Bool-cases (refused board color t)) [
  | inl e ↦
      subst (λ b. In s (if b then filter board color ss else t ∷ filter board color ss)) (sym e)
        (filter_complete board color s ss m l)
  | inr e ↦
      subst (λ b. In s (if b then filter board color ss else t ∷ filter board color ss)) (sym e)
        (inr (filter_complete board color s ss m l))
]

-- What `filter` leaves.
pub can_move_to-In :
    (board : Board) (piece : Piece) (s : Square)
    → In s (can_move_to board piece)
      ↔ (In s (candidates board piece.color piece.kind piece.square) × IsLegal board piece.color s)
unfolding can_move_to
can_move_to-In board piece s =
    let all = candidates board piece.color piece.kind piece.square in
    (filter_sound board piece.color s all, λ (m, l). filter_complete board piece.color s all m l)
