-- ===== src/Tests/Chess.antt =====
-- plugins/probchess: the theorems at concrete inputs.
use algiz.Base.{ℕ, ◌≡◌, ◌≢◌, ◌↔◌, refl, [], ◌∷◌, none, some, true, false, arith}
use algiz.Base.Bytes.{codes}
use algiz.Base.Int.{pos, ◌+ℤ◌}
use algiz.Chess.Square.{
  Color, black, white, color_eq, other_color, square, square_eq, off_board, shift, Move,
}
use algiz.Chess.Board.{
  Board, Piece, Kind, king, rook, queen, knight, kind_eq, empty, put, at, move, at_int, index,
  IsPlaced, place_pieces,
}
use algiz.Chess.Board.Placed.{put-IsPlaced}
use algiz.Chess.Moves.{ray, can_move_to, filter, same_color, candidates, rook_squares, king_squares}
use algiz.Chess.Moves.Legal.{In}
use algiz.Chess.Moves.Rules.{IsRule, can_move_to_iff}
use algiz.Chess.Moves.Rules.Open.{IsOpen}
use algiz.Chess.Check.{
  is_attacked, find_king, king_loop, has, is_in_check, is_checkmated, get_pieces, mate_loop,
  attack_loop, with_rook,
}
use algiz.Chess.Check.Restore.{is_checkmated-restores}
use algiz.Chess.Check.Attack.{IsAlone, is_in_check-alone, get_pieces_endless}
use algiz.Chess.Equality.{has-In}
use algiz.Chess.Match.{Match, host, new_match, is_ready, current_player}
use algiz.Chess.Match.Turn.{check_pawns}
use algiz.Chess.Lobby.{
  Lobby, Result, done, threw, against_machine, undefined, endless, find_id, find_client,
}
use algiz.Chess.Lobby.Joining.{join_match, join_found, start_match}
use algiz.Chess.Lobby.Seats.{seats, sits, join_match-seats}
use algiz.Chess.Match.Promotion.{HasNoPawn, check_pawns-HasNoPawn}
use algiz.Chess.Match.Play.{make_move}
use algiz.Chess.Match.Play.Accept.{IsAllowed, IsMade, make_move-IsAllowed}
use algiz.Chess.Match.Play.Outcome.{KeepsPlaced, make_move-IsPlaced}
use algiz.Chess.Match.Play.Victory.{IsWon, make_move-king}

abbrev piece_at : Kind → Color → ℕ → ℕ → Piece
piece_at k color r c = record { square = square (pos r) (pos c); color = color; kind = k }

abbrev start_knight : Piece
start_knight = piece_at knight white 7 1

can_move_to_iff_example : In (square (pos 5) (pos 2)) (can_move_to place_pieces start_knight) ↔ (
    IsRule place_pieces white knight (square (pos 7) (pos 1)) (square (pos 5) (pos 2))
    × IsOpen place_pieces white (square (pos 5) (pos 2)))
can_move_to_iff_example = can_move_to_iff place_pieces start_knight (square (pos 5) (pos 2))

-- A white king in the line of a black queen.
abbrev white_king : Piece
white_king = piece_at king white 7 4

abbrev threatened : Board
threatened = put (put empty 0 4 (some (piece_at queen black 0 4))) 7 4 (some white_king)

threatened_king : find_king threatened white ≡ some white_king
unfolding find_king king_loop put color_eq kind_eq
threatened_king = refl

threatened-IsAlone : IsAlone threatened white (square (pos 7) (pos 4))
unfolding put index
threatened-IsAlone r c piece h color = ground arith

is_in_check-alone_example :
    ((is_in_check threatened white).0 ≡ false) × ((is_checkmated threatened white).0 ≡ false)
is_in_check-alone_example =
    is_in_check-alone threatened white white_king threatened_king threatened-IsAlone

get_pieces_endless_example : get_pieces 100 place_pieces white ≡ none
get_pieces_endless_example = get_pieces_endless 100 place_pieces white

abbrev dice : ℕ → ℕ
dice n = n

-- A white rook in the row of the black king, with the column of the rook rolled.
abbrev white_rook : Piece
white_rook = piece_at rook white 4 4

abbrev duel : Board
duel = put (put empty 4 6 (some (piece_at king black 4 6))) 4 4 (some white_rook)

duel-IsPlaced : IsPlaced duel
duel-IsPlaced = put-IsPlaced _ 4 4 (some white_rook) refl (
    put-IsPlaced empty 4 6 (some (piece_at king black 4 6)) refl
      (λ r c piece h. absurd (ground arith)))

abbrev duel_match : Match
duel_match = record (new_match (codes "m") false false 1 white 1 []) {
  guest_client = some 2;
  board = duel;
  columns = 4 ∷ [];
}

abbrev take_king : Move
take_king = record { from = square (pos 4) (pos 4); to = square (pos 4) (pos 6) }

make_move-IsAllowed_example :
    IsMade (make_move 5 5 dice host take_king duel_match) ↔ IsAllowed host take_king duel_match
make_move-IsAllowed_example = make_move-IsAllowed 5 5 dice host take_king duel_match

make_move-IsPlaced_example : KeepsPlaced (make_move 5 5 dice host take_king duel_match)
unfolding new_match
make_move-IsPlaced_example = make_move-IsPlaced 5 5 dice host take_king duel_match duel-IsPlaced

reached : has (square (pos 4) (pos 6)) (can_move_to duel white_rook) ≡ true
unfolding can_move_to filter candidates rook_squares ray at at_int put shift off_board square_eq
    same_color color_eq ◌+ℤ◌
reached = refl

duel-IsAllowed : IsAllowed host take_king duel_match
unfolding new_match is_ready current_player color_eq at at_int put
duel-IsAllowed = (
  refl,
  (
    refl,
    (
      refl,
      (
        white_rook,
        (
          refl,
          (refl, (refl, has-In (square (pos 4) (pos 6)) (can_move_to duel white_rook) reached)),
        ),
      ),
    ),
  ),
)

make_move-king_example : IsWon white (make_move 5 5 dice host take_king duel_match)
unfolding new_match at at_int put
make_move-king_example =
    make_move-king 5 5 dice host take_king duel_match (piece_at king black 4 6) duel-IsAllowed refl
      refl

check_pawns-HasNoPawn_example :
    HasNoPawn white 0 3 (check_pawns place_pieces).0
    × HasNoPawn black 7 3 (check_pawns place_pieces).0
check_pawns-HasNoPawn_example = check_pawns-HasNoPawn place_pieces 3 (omega arith)

-- A white king in the corner; every square it may reach, and its own, is in the line of a white rook.
abbrev corner_king : Piece
corner_king = piece_at king white 7 7

abbrev cornered : Board
cornered =
    put (put (put empty 7 0 (some (piece_at rook white 7 0))) 6 0 (some (piece_at rook white 6 0)))
      7 7 (some corner_king)

cornered_king : find_king cornered white ≡ some corner_king
unfolding find_king king_loop put color_eq kind_eq
cornered_king = refl

cornered_mated : (is_checkmated cornered white).0 ≡ true
unfolding is_checkmated mate_loop is_attacked attack_loop with_rook find_king king_loop put index at
    at_int move can_move_to filter same_color candidates rook_squares king_squares ray shift
    off_board square_eq color_eq kind_eq other_color ◌+ℤ◌
cornered_mated = refl

is_checkmated-restores_example : (is_checkmated cornered white).1 ≡ cornered
unfolding off_board
is_checkmated-restores_example =
    is_checkmated-restores cornered white corner_king cornered_king refl cornered_mated

-- A lobby with one match, of client 1.
abbrev one_match : Lobby
one_match = record {
  matches = λ address. new_match (codes "m") false true 8 white 1 (1 ∷ []);
  started = λ address. true;
  next = 1;
  by_id = (codes "m", 0) ∷ [];
  by_client = (1, 0) ∷ [];
  connections = 1 ∷ 2 ∷ [];
  sent = [];
  broadcasts = [];
  drawn = 0;
}

abbrev ones : ℕ → ℕ
ones n = 0

-- The lobby behind the join of client 2.
abbrev lobby_of : Result → Lobby
lobby_of (done l) = l
lobby_of (threw l) = l
lobby_of against_machine = one_match
lobby_of undefined = one_match
lobby_of endless = one_match

abbrev joined_lobby : Lobby
joined_lobby = lobby_of (join_match 1 1 ones 2 (codes "m") false one_match)

joins : join_match 1 1 ones 2 (codes "m") false one_match ≡ done joined_lobby
unfolding join_match find_id find_client join_found start_match new_match is_ready
joins = refl

join_match-seats_example :
    (seats (joined_lobby.matches 0) ≡ sits 2 false (seats (one_match.matches 0)))
    × ((other : ℕ) → other ≢ 0 → joined_lobby.matches other ≡ one_match.matches other)
unfolding find_client find_id
join_match-seats_example =
    join_match-seats 1 1 ones 2 (codes "m") false one_match 0 joined_lobby refl refl joins
