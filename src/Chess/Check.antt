-- ===== src/Chess/Check.antt =====
-- plugins/probchess/Board: attacks, check and mate, and the lists of all moves and pieces.
pub mod Attack
pub mod Restore
use algiz.Base.{
  ℕ, zero, suc, ◌≡◌, refl, List, [], ◌∷◌, ◌++◌, Option, none, some, Bool, true, false, not, ◌&&◌,
  ◌||◌, if◌then◌else◌, ◌-◌, map, ltb, arith,
}
use algiz.Base.Int.{ℤ, pos, negsuc}
use algiz.Chess.Square.{Color, black, white, color_eq, other_color, Square, square, square_eq, Move}
use algiz.Chess.Board.{Board, Piece, Kind, king, rook, kind_eq, at, put, index, move}
use algiz.Chess.Moves.{can_move_to}

-- The places of a row from `column` on, then those of the rows below.
abbrev columns_from : ℕ → ℕ → ℕ → List (ℕ × ℕ) → List (ℕ × ℕ)
columns_from zero row column more = more
columns_from (suc n) row column more = (row, column) ∷ columns_from n row (suc column) more

abbrev rows_from : ℕ → ℕ → List (ℕ × ℕ)
rows_from zero row = []
rows_from (suc n) row = columns_from 8 row 0 (rows_from n (suc row))

-- The order of the loops over rows and columns.
abbrev pub places : List (ℕ × ℕ)
places = rows_from 8 0

abbrev pub has : Square → List Square → Bool
has s [] = false
has s (t ∷ ts) = if square_eq t s then true else has s ts

-- Whether a piece of the colour stands there and reaches the square.
abbrev pub reaches : Board → Color → Square → Option Piece → Bool
reaches board color s none = false
reaches board color s (some piece) = color_eq piece.color color && has s (can_move_to board piece)

unfoldable pub attack_loop : Board → Color → Square → List (ℕ × ℕ) → Bool
attack_loop board color s [] = false
attack_loop board color s ((row, column) ∷ rest) =
    if reaches board color s (board row column) then true else attack_loop board color s rest

abbrev pub rook_of : Color → Square → Piece
rook_of color s = record { square = s; color = other_color color; kind = rook }

-- The board on which the square holds a rook of the other colour.
unfoldable pub with_rook : Board → Color → Square → Board
with_rook board color s = put board (index s.row) (index s.column) (some (rook_of color s))

-- `isAttacked`, with the board that it leaves.
unfoldable pub is_attacked : Board → Color → Square → Bool × Board
is_attacked board color s = (
  attack_loop (with_rook board color s) color s places,
  put (with_rook board color s) (index s.row) (index s.column) (at board s),
)

abbrev pub is_king_of : Color → Option Piece → Bool
is_king_of color none = false
is_king_of color (some piece) = color_eq piece.color color && kind_eq piece.kind king

unfoldable pub king_loop : Board → Color → List (ℕ × ℕ) → Option Piece
king_loop board color [] = none
king_loop board color ((row, column) ∷ rest) =
    if is_king_of color (board row column) then board row column else king_loop board color rest

-- `findKing`; `none` is the NoKingError.
unfoldable pub find_king : Board → Color → Option Piece
find_king board color = king_loop board color places

unfoldable pub is_in_check : Board → Color → Bool × Board
is_in_check board color = elim (find_king board color) [
  | none ↦ (false, board)
  | some piece ↦ is_attacked board color piece.square
]

-- The loop over the king's moves; `old` is the copy that each round starts from.
unfoldable pub mate_loop : Board → Board → Color → Piece → List Square → Bool × Board
mate_loop old board color piece [] = (true, board)
mate_loop old board color piece (s ∷ rest) =
    let (moved, after) = move board (some piece) s in
    let (attacked, left) = is_attacked after color s in
    if attacked then mate_loop old old color piece rest else (false, left)

unfoldable pub is_checkmated : Board → Color → Bool × Board
is_checkmated board color = elim (find_king board color) [
  | none ↦ (true, board)
  | some piece ↦
      let (attacked, left) = is_attacked board color piece.square in
      if attacked then mate_loop left left color piece (can_move_to left piece) else (false, left)
]

abbrev moves_of : Board → (Color → Bool) → Option Piece → List Move
moves_of board wanted none = []
moves_of board wanted (some piece) =
    if wanted piece.color
    then map (λ to. record { from = piece.square; to = to }) (can_move_to board piece)
    else []

unfoldable pub moves_loop : Board → (Color → Bool) → List (ℕ × ℕ) → List Move
moves_loop board wanted [] = []
moves_loop board wanted ((row, column) ∷ rest) =
    moves_of board wanted (board row column) ++ moves_loop board wanted rest

unfoldable pub all_moves : Board → List Move
all_moves board = moves_loop board (λ c. true) places

unfoldable pub all_moves_of : Board → Color → List Move
all_moves_of board color = moves_loop board (λ c. color_eq c color) places

abbrev if_color : Color → Option Piece → List Piece
if_color color none = []
if_color color (some piece) = if color_eq piece.color color then piece ∷ [] else []

abbrev at_row : Board → ℕ → ℕ → Option Piece
at_row board row column = at board (square (pos row) (pos column))

-- The two loops of `getPieces` from the test of the inner one on: the inner one counts the rows up.
-- `none` is the fuel that ran out.
unfoldable pub pieces_loop : ℕ → Board → Color → ℕ → ℕ → List Piece → Option (List Piece)
pieces_loop zero board color row column out = none
pieces_loop (suc fuel) board color row column out =
    let inner =
      pieces_loop fuel board color (suc row) column
        (out ++ if_color color (at_row board row column)) in
    let outer = pieces_loop fuel board color (suc row) 0 out in
    if ltb column 8 then inner else if ltb (suc row) 8 then outer else some out

unfoldable pub get_pieces : ℕ → Board → Color → Option (List Piece)
get_pieces fuel board color = pieces_loop fuel board color 0 0 []
