-- ===== src/Chess/Moves.antt =====
-- plugins/probchess: `canMoveTo` of the six pieces, and `Piece::filter`.
pub mod Rays
pub mod Legal
pub mod Rules
use algiz.Base.{
  ℕ, zero, suc, ◌+◌, ◌≡◌, refl, List, [], ◌∷◌, ◌++◌, Option, none, some, Bool, true, false, not,
  ◌&&◌, ◌||◌, if◌then◌else◌,
}
use algiz.Base.Int.{ℤ, pos, negsuc, eqb_ℤ}
use algiz.Chess.Square.{Color, black, white, color_eq, Square, square, shift, off_board}
use algiz.Chess.Board.{Board, Piece, Kind, bishop, king, knight, pawn, queen, rook, at}

-- One loop of at most `n` rounds: it ends behind the edge or on the first piece.
unfoldable pub ray : ℕ → Board → ℤ × ℤ → Square → List Square
ray zero board d from = []
ray (suc n) board d from =
    let next = shift from d in
    elim (off_board next) [
      | true ↦ []
      | false ↦ elim (at board next) [ none ↦ next ∷ ray n board d next | some piece ↦ next ∷ [] ]
    ]

unfoldable pub same_color : Option Piece → Color → Bool
same_color none color = false
same_color (some other) color = color_eq other.color color

-- `filter`.
unfoldable pub filter : Board → Color → List Square → List Square
unfolding same_color
filter board color [] = []
filter board color (s ∷ squares) =
    if off_board s || same_color (at board s) color
    then filter board color squares
    else s ∷ filter board color squares

abbrev pub up : ℤ × ℤ
up = (negsuc 0, pos 0)

abbrev pub down : ℤ × ℤ
down = (pos 1, pos 0)

abbrev pub left : ℤ × ℤ
left = (pos 0, negsuc 0)

abbrev pub right : ℤ × ℤ
right = (pos 0, pos 1)

unfoldable pub rook_squares : Board → Square → List Square
rook_squares board s =
    ray 7 board up s ++ (ray 7 board down s ++ (ray 7 board left s ++ ray 7 board right s))

unfoldable pub bishop_squares : Board → Square → List Square
bishop_squares board s =
    ray 7 board (pos 1, pos 1) s
    ++ (ray 7 board (pos 1, negsuc 0) s
        ++ (ray 7 board (negsuc 0, negsuc 0) s ++ ray 7 board (negsuc 0, pos 1) s))

unfoldable pub queen_squares : Board → Square → List Square
unfolding bishop_squares rook_squares
queen_squares board s = bishop_squares board s ++ rook_squares board s

unfoldable pub knight_squares : Square → List Square
knight_squares s =
    shift s (negsuc 1, negsuc 0)
    ∷ shift s (negsuc 1, pos 1)
    ∷ shift s (negsuc 0, pos 2)
    ∷ shift s (pos 1, pos 2)
    ∷ shift s (pos 2, pos 1)
    ∷ shift s (pos 2, negsuc 0)
    ∷ shift s (pos 1, negsuc 1)
    ∷ shift s (negsuc 0, negsuc 1)
    ∷ []

unfoldable pub king_squares : Square → List Square
king_squares s =
    shift s (negsuc 0, pos 0)
    ∷ shift s (negsuc 0, pos 1)
    ∷ shift s (pos 0, pos 1)
    ∷ shift s (pos 1, pos 1)
    ∷ shift s (pos 1, pos 0)
    ∷ shift s (pos 1, negsuc 0)
    ∷ shift s (pos 0, negsuc 0)
    ∷ shift s (negsuc 0, negsuc 0)
    ∷ []

abbrev is_free : Option Piece → Bool
is_free none = true
is_free (some piece) = false

abbrev pub forward : Color → ℤ × ℤ
forward black = (pos 1, pos 0)
forward white = (negsuc 0, pos 0)

abbrev home_row : Color → ℤ
home_row black = pos 1
home_row white = pos 6

abbrev if_free : Board → Square → List Square → List Square
if_free board s more = if is_free (at board s) then s ∷ more else []

abbrev if_taken : Board → Square → List Square
if_taken board s = if is_free (at board s) then [] else s ∷ []

-- One step ahead, two from the home row, and a capture on either side.
unfoldable pub pawn_squares : Board → Color → Square → List Square
pawn_squares board color s =
    let next = shift s (forward color) in
    if_free board next
      (if eqb_ℤ s.row (home_row color) then if_free board (shift next (forward color)) [] else [])
    ++ (if_taken board (shift next left) ++ if_taken board (shift next right))

unfoldable pub candidates : Board → Color → Kind → Square → List Square
unfolding rook_squares bishop_squares queen_squares knight_squares king_squares pawn_squares
candidates board color bishop s = bishop_squares board s
candidates board color king s = king_squares s
candidates board color knight s = knight_squares s
candidates board color pawn s = pawn_squares board color s
candidates board color queen s = queen_squares board s
candidates board color rook s = rook_squares board s

unfoldable pub can_move_to : Board → Piece → List Square
unfolding filter candidates
can_move_to board piece =
    filter board piece.color (candidates board piece.color piece.kind piece.square)
