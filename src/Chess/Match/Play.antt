-- ===== src/Chess/Match/Play.antt =====
-- plugins/probchess: `makeMove` of Match. The player is the one in a seat of the match.
pub mod Accept
pub mod Outcome
pub mod Victory
use algiz.Base.{
  ℕ, ◌≡◌, refl, List, [], ◌∷◌, ◌++◌, Option, none, some, Bool, true, false, not, ◌&&◌, ◌||◌,
  if◌then◌else◌, ltb, ◌==◌,
}
use algiz.Base.Bytes.{Bytes, codes}
use algiz.Base.Int.{ℤ, pos, negsuc}
use algiz.Chess.Square.{Color, color_eq, Square, square, square_eq, print_square, Move}
use algiz.Chess.Board.{Board, Piece, Kind, king, kind_eq, at, erase, move}
use algiz.Chess.Moves.{can_move_to}
use algiz.Chess.Check.{has}
use algiz.Chess.Match.{
  Match, Role, host, guest, is_some, send_all, end, is_ready, has_client, current_player,
}
use algiz.Chess.Match.Turn.{contains, after_move, check_pawns, send_board, captured_message}

-- A ChessError, or the match as it goes on: `none` where a loop of `after_move` has no fuel left.
pub data Made : Type 0 where
  refused : Bytes → Made
  made : Option Match → Made

abbrev pub seat : Match → Role → Option ℕ
seat m host = m.host_client
seat m guest = m.guest_client

abbrev pub role_eq : Role → Role → Bool
role_eq host host = true
role_eq guest guest = true
role_eq _ _ = false

abbrev pub known_client : Option ℕ → Match → Bool
known_client none m = false
known_client (some client) m = has_client client m

abbrev pub in_columns : ℤ → List ℕ → Bool
in_columns (pos column) columns = contains column columns
in_columns (negsuc column) columns = false

abbrev move_made : Move → Bytes
move_made mv = codes ":MoveMade " ++ print_square mv.from ++ codes " " ++ print_square mv.to

-- The board after the move and the promotions, sent to everyone.
unfoldable pub place_piece : Piece → Move → Match → Match × List Square
place_piece piece mv m =
    let (moved, placed) = move m.board (some piece) mv.to in
    let (board, promoted) = check_pawns placed in
    (send_all (move_made mv) (send_board (record m { board = board })), promoted)

promotions : List Square → Match → Match
promotions [] m = m
promotions (s ∷ ss) m = promotions ss (send_all (codes ":Promote " ++ print_square s) m)

unfoldable pub take_piece : Piece → Match → Match
take_piece piece m =
    let told = send_all (captured_message piece) m in
    record told { captured = told.captured ++ piece ∷ []; board = erase told.board (some piece) }

-- The king is taken: the match is over.
unfoldable pub win : Piece → Move → Match → Match
unfolding place_piece
win piece mv m =
    let (placed, promoted) = place_piece piece mv m in
    end (some (if color_eq placed.host_color placed.current_turn then host else guest))
      (record placed { winner_color = some placed.current_turn })

unfoldable pub go_on : ℕ → ℕ → (ℕ → ℕ) → Piece → Move → Match → Option Match
unfolding place_piece promotions
go_on rounds fuel rand piece mv m =
    let (placed, promoted) = place_piece piece mv m in
    after_move rounds fuel rand (promotions promoted placed)

-- `makeMove` from the search for the piece on the target square on.
unfoldable pub capture : ℕ → ℕ → (ℕ → ℕ) → Piece → Move → Match → Option Piece → Made
capture rounds fuel rand piece mv m none = made (go_on rounds fuel rand piece mv m)
capture rounds fuel rand piece mv m (some other) =
    if color_eq other.color m.current_turn
    then refused (codes "Can't capture one of your own pieces.")
    else if kind_eq other.kind king
    then made (some (win piece mv (take_piece other m)))
    else made (go_on rounds fuel rand piece mv (take_piece other m))

-- `makeMove` from the test of the moved piece on.
unfoldable pub move_piece : ℕ → ℕ → (ℕ → ℕ) → Move → Match → Option Piece → Made
move_piece rounds fuel rand mv m none = refused (codes "No source piece.")
move_piece rounds fuel rand mv m (some piece) =
    if not (color_eq piece.color m.current_turn)
    then refused (codes "Not your piece.")
    else if square_eq mv.from mv.to
    then refused (codes "Move must actually move a piece.")
    else if not (in_columns mv.from.column m.columns)
    then refused (codes "Incorrect column.")
    else if not (has mv.to (can_move_to m.board piece))
    then refused (codes "Invalid move.")
    else capture rounds fuel rand piece mv m (at m.board mv.to)

unfoldable pub make_move : ℕ → ℕ → (ℕ → ℕ) → Role → Move → Match → Made
make_move rounds fuel rand player mv m =
    if not (is_ready m)
    then refused (codes "Match is missing a participant.")
    else if is_some m.winner_color
    then refused (codes "Match already over.")
    else if not (known_client (seat m player) m)
    then refused (codes "Invalid connection.")
    else if not (role_eq player (current_player m))
    then refused (codes "Invalid turn.")
    else move_piece rounds fuel rand mv m (at m.board mv.from)
