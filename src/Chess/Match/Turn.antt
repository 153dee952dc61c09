-- ===== src/Chess/Match/Turn.antt =====
-- plugins/probchess: the turns of Match and HumanMatch.
use algiz.Base.{
  ℕ, zero, suc, ◌+◌, ◌-◌, ◌%◌, List, [], ◌∷◌, ◌++◌, Option, none, some, Bool, true, false, ◌&&◌,
  if◌then◌else◌, ltb, ◌==◌,
}
use algiz.Base.Bytes.{Bytes, codes}
use algiz.Util.Numbers.{decimal}
use algiz.Chess.Square.{
  Color, black, white, color_eq, color_name, other_color, Square, print_square,
}
use algiz.Chess.Board.{
  Board, Piece, Kind, bishop, king, knight, pawn, queen, rook, kind_eq, kind_name, set, erase,
}
use algiz.Chess.Moves.{can_move_to}
use algiz.Chess.Check.{places}
use algiz.Chess.Match.{Match, send_all}

-- Two dice, brought into the eight columns.
abbrev pub column_of : ℕ → ℕ → ℕ
column_of a b = let sum = (a % 6 + 1) + (b % 6 + 1) in (if ltb 8 sum then sum - 8 else sum) - 1

abbrev pub contains : ℕ → List ℕ → Bool
contains c [] = false
contains c (d ∷ columns) = if d == c then true else contains c columns

-- `std::set::insert`.
abbrev pub insert : ℕ → List ℕ → List ℕ
insert c [] = c ∷ []
insert c (d ∷ columns) =
    if c == d then d ∷ columns else if ltb c d then c ∷ d ∷ columns else d ∷ insert c columns

-- The loops of `roll`: `n` columns are missing. Each round of the inner loop takes two values of
-- `rand`; `none` is the fuel that ran out.
unfoldable pub roll_loop : ℕ → (ℕ → ℕ) → ℕ → List ℕ → ℕ → Option (List ℕ × ℕ)
roll_loop fuel rand zero columns drawn = some (columns, drawn)
roll_loop zero rand (suc n) columns drawn = none
roll_loop (suc fuel) rand (suc n) columns drawn =
    let column = column_of (rand drawn) (rand (suc drawn)) in
    let again = roll_loop fuel rand (suc n) columns (2 + drawn) in
    let taken = roll_loop fuel rand n (insert column columns) (2 + drawn) in
    if contains column columns then again else taken

column_words : List ℕ → Bytes
column_words [] = []
column_words (c ∷ columns) = b' ' ∷ (decimal c ++ column_words columns)

unfoldable pub column_message : Match → Bytes
unfolding column_words
column_message m = codes ":Columns" ++ column_words m.columns

unfoldable pub roll : ℕ → (ℕ → ℕ) → Match → Option Match
unfolding send_all column_message
roll fuel rand m = elim (roll_loop fuel rand m.column_count [] m.drawn) [
  | none ↦ none
  | some (columns, drawn) ↦
      let rolled = record m { columns = columns; drawn = drawn } in
      some (send_all (column_message rolled) rolled)
]

-- A piece of the colour in turn that has a move.
abbrev pub can_go : Board → Color → Option Piece → Bool
can_go board color none = false
can_go board color (some piece) =
    color_eq piece.color color && elim (can_move_to board piece) [ [] ↦ false | s ∷ ss ↦ true ]

unfoldable pub column_can_go : Board → Color → ℕ → ℕ → Bool
column_can_go board color column zero = false
column_can_go board color column (suc rows) =
    if can_go board color (board (8 - suc rows) column)
    then true
    else column_can_go board color column rows

unfoldable pub columns_can_go : Board → Color → List ℕ → Bool
columns_can_go board color [] = false
columns_can_go board color (column ∷ columns) =
    if column_can_go board color column 8 then true else columns_can_go board color columns

unfoldable pub can_move : Match → Bool
can_move m = columns_can_go m.board m.current_turn m.columns

abbrev all_columns : List ℕ
all_columns = 0 ∷ 1 ∷ 2 ∷ 3 ∷ 4 ∷ 5 ∷ 6 ∷ 7 ∷ []

unfoldable pub any_can_move : Match → Bool
any_can_move m = columns_can_go m.board m.current_turn all_columns

unfoldable pub invert_turn : Match → Match
invert_turn m = record m { current_turn = other_color m.current_turn }

-- `do roll(); while (!canMove());`
unfoldable pub reroll : ℕ → ℕ → (ℕ → ℕ) → Match → Option Match
reroll zero fuel rand m = none
reroll (suc rounds) fuel rand m = elim (roll fuel rand m) [
  | none ↦ none
  | some rolled ↦ elim (can_move rolled) [
    | true ↦ some rolled
    | false ↦ reroll rounds fuel rand rolled
  ]
]

abbrev pub next_turn : Match → Match
next_turn m =
    let turned = invert_turn m in send_all (codes ":Turn " ++ color_name turned.current_turn) turned

unfoldable pub skip_loop : ℕ → ℕ → (ℕ → ℕ) → Match → Option Match
skip_loop zero fuel rand m = none
skip_loop (suc rounds) fuel rand m = elim (roll fuel rand (next_turn m)) [
  | none ↦ none
  | some rolled ↦ elim (can_move rolled) [
    | true ↦ some rolled
    | false ↦ skip_loop rounds fuel rand (send_all (codes ":Skip") rolled)
  ]
]

-- `HumanMatch::afterMove`; `none` is the fuel of one of its loops that ran out.
unfoldable pub after_move : ℕ → ℕ → (ℕ → ℕ) → Match → Option Match
after_move rounds fuel rand m =
    if m.no_skip then reroll rounds fuel rand (next_turn m) else skip_loop rounds fuel rand m

abbrev pub is_pawn : Color → Option Piece → Bool
is_pawn color none = false
is_pawn color (some piece) = kind_eq piece.kind pawn && color_eq piece.color color

abbrev pub square_of : Option Piece → List Square
square_of none = []
square_of (some piece) = piece.square ∷ []

-- One loop of `checkPawns`, over the `n` last columns of a row.
unfoldable pub promote_row : Color → ℕ → ℕ → Board → Board × List Square
unfolding erase set
promote_row color row zero board = (board, [])
promote_row color row (suc n) board =
    let here = board row (8 - suc n) in
    let (crowned, more) =
      promote_row color row n (set (erase board here) queen color row (8 - suc n)) in
    let (same, others) = promote_row color row n board in
    if is_pawn color here then (crowned, square_of here ++ more) else (same, others)

unfoldable pub check_pawns : Board → Board × List Square
check_pawns board =
    let (first, white_squares) = promote_row white 0 8 board in
    let (second, black_squares) = promote_row black 7 8 first in
    (second, white_squares ++ black_squares)

abbrev piece_code : Option Piece → Bytes
piece_code none = codes "__"
piece_code (some piece) =
    kind_code piece.kind ∷ (if color_eq piece.color white then b'W' else b'B') ∷ []
  where
    kind_code : Kind → ℕ
    kind_code bishop = b'b'
    kind_code king = b'k'
    kind_code knight = b'h'
    kind_code pawn = b'p'
    kind_code queen = b'q'
    kind_code rook = b'r'

board_codes : Board → List (ℕ × ℕ) → Bytes
board_codes board [] = []
board_codes board ((row, column) ∷ rest) = piece_code (board row column) ++ board_codes board rest

unfoldable pub send_board : Match → Match
unfolding board_codes
send_board m = send_all (codes ":Board " ++ board_codes m.board places) m

unfoldable pub captured_message : Piece → Bytes
captured_message piece =
    codes ":Capture "
    ++ print_square piece.square
    ++ codes " "
    ++ kind_name piece.kind
    ++ codes " "
    ++ color_name piece.color
