-- ===== src/Chess/Board/Placed.antt =====
-- plugins/probchess/Board: every piece knows its square, before and after each change of the board.
use algiz.Base.{
  ℕ, ◌≡◌, refl, sym, subst, Option, none, some, Bool, true, false, ◌&&◌, if◌then◌else◌, ◌==◌, ==→eq,
  Bool-cases, inl, inr, arith,
}
use algiz.Base.Int.{ℤ, pos, negsuc}
use algiz.Chess.Square.{Color, Square, square, off_board}
use algiz.Chess.Board.{Board, Piece, Kind, put, index, IsPlaced, set, erase, move}

-- What stands at a place knows it.
abbrev pub IsAt : ℕ → ℕ → Option Piece → Type 0
IsAt r c none = Unit
IsAt r c (some piece) = piece.square ≡ square (pos r) (pos c)

IsAt-some :
    (r c : ℕ) (o : Option Piece) (piece : Piece)
    → IsAt r c o
    → o ≡ some piece
    → piece.square ≡ square (pos r) (pos c)
IsAt-some r c none piece h e = absurd (ground arith)
IsAt-some r c (some other) piece h e = subst (IsAt r c) e h

some-IsAt :
    (board : Board) (r c : ℕ) (o : Option Piece) → IsPlaced board → board r c ≡ o → IsAt r c o
some-IsAt board r c none h e = tt
some-IsAt board r c (some piece) h e = h r c piece e

and-true : (a b : Bool) → (a && b) ≡ true → (a ≡ true) × (b ≡ true)
and-true a b h = ground arith

put-IsAt :
    (board : Board) (r c : ℕ) (o : Option Piece) (i j : ℕ)
    → IsAt r c o
    → IsAt i j (board i j)
    → IsAt i j (put board r c o i j)
unfolding put
put-IsAt board r c o i j h k = elim (Bool-cases ((i == r) && (j == c))) [
  | inl e ↦
      let (ei, ej) = and-true (i == r) (j == c) e in
      subst (λ b. IsAt i j (if b then o else board i j)) (sym e)
        (subst (λ n. IsAt n j o) (sym (==→eq i r ei))
          (subst (λ n. IsAt r n o) (sym (==→eq j c ej)) h))
  | inr e ↦ subst (λ b. IsAt i j (if b then o else board i j)) (sym e) k
]

pub put-IsPlaced :
    (board : Board) (r c : ℕ) (o : Option Piece)
    → IsAt r c o
    → IsPlaced board
    → IsPlaced (put board r c o)
put-IsPlaced board r c o h placed = λ i j piece e.
    IsAt-some i j (put board r c o i j) piece
      (put-IsAt board r c o i j h (some-IsAt board i j (board i j) placed refl)) e

row-index :
    (row column : ℤ)
    → off_board (square row column) ≡ false
    → square (pos (index row)) (pos (index column)) ≡ square row column
unfolding index off_board
row-index (pos r) (pos c) h = refl
row-index (pos r) (negsuc c) h = absurd (ground arith)
row-index (negsuc r) c h = absurd (ground arith)

pub square-index :
    (s : Square) → off_board s ≡ false → square (pos (index s.row)) (pos (index s.column)) ≡ s
square-index s h = row-index s.row s.column h

pub erase-IsPlaced : (board : Board) (o : Option Piece) → IsPlaced board → IsPlaced (erase board o)
unfolding erase
erase-IsPlaced board none placed = placed
erase-IsPlaced board (some piece) placed =
    put-IsPlaced board (index piece.square.row) (index piece.square.column) none tt placed

pub set-IsPlaced :
    (board : Board) (kind : Kind) (color : Color) (r c : ℕ)
    → IsPlaced board
    → IsPlaced (set board kind color r c)
unfolding set
set-IsPlaced board k color r c placed = put-IsPlaced board r c _ refl placed

-- A move to a square of the board keeps every piece aware of its square.
pub move-IsPlaced :
    (board : Board) (piece : Piece) (to : Square)
    → IsPlaced board
    → off_board to ≡ false
    → IsPlaced (move board (some piece) to).1
unfolding move
move-IsPlaced board piece to placed on =
    put-IsPlaced _ (index piece.square.row) (index piece.square.column) none tt (
      put-IsPlaced board (index to.row) (index to.column) (some (record piece { square = to }))
        (sym (square-index to on)) placed)
