-- ===== src/Chess/Board.antt =====
-- plugins/probchess: Piece and Board. A piece is told by its value: a board is the only owner of the
-- pieces on it, and a copy of a board clones them.
pub mod Placed
use algiz.Base.{
  ℕ, suc, ◌+◌, ◌-◌, ◌≡◌, ◌≤◌, ◌<◌, ◌≢◌, refl, List, [], ◌∷◌, ◌++◌, Option, none, some, Bool, true,
  false, not, ◌&&◌, ◌||◌, if◌then◌else◌, ltb, leb, ◌==◌, arith,
}
use algiz.Base.Bytes.{Bytes, codes}
use algiz.Base.Int.{ℤ, pos, negsuc}
use algiz.Chess.Square.{Color, black, white, color_eq, Square, square}

pub data Kind : Type 0 where
  bishop king knight pawn queen rook : Kind

pub record Piece : Type 0 where
  pub square : Square
  pub color : Color
  pub kind : Kind

unfoldable pub kind_eq : Kind → Kind → Bool
kind_eq bishop bishop = true
kind_eq king king = true
kind_eq knight knight = true
kind_eq pawn pawn = true
kind_eq queen queen = true
kind_eq rook rook = true
kind_eq _ _ = false

unfoldable pub kind_name : Kind → Bytes
kind_name bishop = codes "bishop"
kind_name king = codes "king"
kind_name knight = codes "knight"
kind_name pawn = codes "pawn"
kind_name queen = codes "queen"
kind_name rook = codes "rook"

-- `pieces[row][column]`, for indices below 8.
abbrev pub Board : Type 0
Board = ℕ → ℕ → Option Piece

abbrev pub empty : Board
empty row column = none

unfoldable pub put : Board → ℕ → ℕ → Option Piece → Board
put board row column piece r c = if (r == row) && (c == column) then piece else board r c

-- `at(int, int)` and `at(Square)`.
unfoldable pub at_int : Board → ℤ → ℤ → Option Piece
at_int board (pos row) (pos column) = if leb 8 row || leb 8 column then none else board row column
at_int board (pos row) (negsuc column) = none
at_int board (negsuc row) column = none

unfoldable pub at : Board → Square → Option Piece
unfolding at_int
at board s = at_int board s.row s.column

-- An index into `pieces`; a negative one is out of range.
unfoldable pub index : ℤ → ℕ
index (pos n) = n
index (negsuc n) = 0

unfoldable pub set : Board → Kind → Color → ℕ → ℕ → Board
unfolding put
set board kind color row column =
    put board row column
      (some (record { square = square (pos row) (pos column); color = color; kind = kind }))

-- `erase(std::shared_ptr<Piece>)`.
unfoldable pub erase : Board → Option Piece → Board
unfolding put index
erase board none = board
erase board (some piece) = put board (index piece.square.row) (index piece.square.column) none

-- `move`: the new place is written, the old one cleared, and the piece told its new square.
unfoldable pub move : Board → Option Piece → Square → Bool × Board
unfolding put index
move board none to = (false, board)
move board (some piece) to = (
  true,
  put (put board (index to.row) (index to.column) (some (record piece { square = to })))
      (index piece.square.row) (index piece.square.column) none,
)

-- A row of pawns: the loop over the columns.
pawns : ℕ → Board → Board
unfolding set
pawns ℕ.zero board = board
pawns (suc n) board = set (set (pawns n board) pawn black 1 n) pawn white 6 n

unfoldable pub place_pieces : Board
unfolding set pawns
place_pieces =
    let b₀ =
      set (set (set (set empty rook black 0 0) knight black 0 1) bishop black 0 2) queen black 0
        3 in
    let b₁ =
      set (set (set (set b₀ king black 0 4) bishop black 0 5) knight black 0 6) rook black 0 7 in
    let b₂ =
      set (set (set (set b₁ rook white 7 0) knight white 7 1) bishop white 7 2) queen white 7 3 in
    let b₃ =
      set (set (set (set b₂ king white 7 4) bishop white 7 5) knight white 7 6) rook white 7 7 in
    pawns 8 b₃

-- Every piece on the board knows where it stands.
abbrev pub IsPlaced : Board → Type 0
IsPlaced board =
    (row column : ℕ) (piece : Piece)
    → board row column ≡ some piece
    → piece.square ≡ square (pos row) (pos column)
