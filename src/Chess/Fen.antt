-- ===== src/Chess/Fen.antt =====
-- plugins/probchess/Board: `toFEN` and `loadFEN`.
use algiz.Base.{
  ℕ, zero, suc, ◌+◌, ◌-◌, ◌==◌, List, [], ◌∷◌, ◌++◌, Option, none, some, false, if◌then◌else◌, leb,
  ltb, ◌&&◌,
}
use algiz.Base.Bytes.{Bytes, codes}
use algiz.Util.Numbers.{decimal}
use algiz.Util.Split.{split}
use algiz.Chess.Square.{Color, white, black}
use algiz.Chess.Board.{Board, Kind, bishop, king, knight, pawn, queen, rook, set}

unfoldable pub kind_letter : Kind → ℕ
kind_letter bishop = b'B'
kind_letter king = b'K'
kind_letter knight = b'N'
kind_letter pawn = b'P'
kind_letter queen = b'Q'
kind_letter rook = b'R'

-- `Piece::toFEN`: a letter, small for black.
unfoldable pub piece_letter : Kind → Color → ℕ
piece_letter kind white = kind_letter kind
piece_letter kind black = kind_letter kind + 32

abbrev blanks_text : ℕ → Bytes
blanks_text zero = []
blanks_text (suc n) = decimal (suc n)

-- The loop over the `n` last columns of a row, behind some blanks.
row_text : Board → ℕ → ℕ → ℕ → Bytes
row_text board row zero blanks = blanks_text blanks
row_text board row (suc n) blanks = elim (board row (8 - suc n)) [
  | none ↦ row_text board row n (suc blanks)
  | some piece ↦ blanks_text blanks ++ piece_letter piece.kind piece.color ∷ row_text board row n 0
]

-- The `n` last rows.
rows_text : Board → ℕ → Bytes
unfolding row_text
rows_text board zero = []
rows_text board (suc zero) = row_text board 7 8 0
rows_text board (suc (suc n)) =
    row_text board (8 - suc (suc n)) 8 0 ++ b'/' ∷ rows_text board (suc n)

abbrev turn_text : Color → Bytes
turn_text white = codes "w"
turn_text black = codes "b"

unfoldable pub to_fen : Board → Color → Bytes
unfolding rows_text
to_fen board color = rows_text board 8 ++ (codes " " ++ (turn_text color ++ codes " - - 0 1"))

kind_of_letter : ℕ → Option (Kind × Color)
kind_of_letter ch =
    if ch == b'B'
    then some (bishop, white)
    else if ch == b'b'
    then some (bishop, black)
    else if ch == b'K'
    then some (king, white)
    else if ch == b'k'
    then some (king, black)
    else if ch == b'N'
    then some (knight, white)
    else if ch == b'n'
    then some (knight, black)
    else if ch == b'P'
    then some (pawn, white)
    else if ch == b'p'
    then some (pawn, black)
    else if ch == b'Q'
    then some (queen, white)
    else if ch == b'q'
    then some (queen, black)
    else if ch == b'R'
    then some (rook, white)
    else if ch == b'r'
    then some (rook, black)
    else none

-- How reading ends: the board, the runtime_error of a letter that is no piece, or a write outside the
-- eight rows and columns.
pub data Loaded : Type 0 where
  loaded : Board → Loaded
  threw : Loaded
  undefined : Loaded

abbrev then_read : Loaded → (Board → Loaded) → Loaded
then_read (loaded board) k = k board
then_read threw k = threw
then_read undefined k = undefined

-- A piece is written where its row and its column are on the board.
abbrev place : Kind → Color → ℕ → ℕ → Board → Loaded
place kind color row column board =
    if ltb row 8 && ltb column 8 then loaded (set board kind color row column) else undefined

-- The loop over a row.
unfoldable pub load_row : ℕ → ℕ → Bytes → Board → Loaded
unfolding kind_of_letter
load_row row column [] board = loaded board
load_row row column (ch ∷ rest) board =
    if leb b'0' ch && leb ch b'9'
    then load_row row (column + (ch - b'0')) rest board
    else elim (kind_of_letter ch) [
      | none ↦ threw
      | some (kind, color) ↦
          then_read (place kind color row column board)
            (λ next. load_row row (column + 1) rest next)
    ]

load_rows : ℕ → List Bytes → Board → Loaded
load_rows row [] board = loaded board
load_rows row (text ∷ texts) board =
    then_read (load_row row 0 text board) (λ next. load_rows (suc row) texts next)

-- `split` has fuel enough for any text, so it gives the rows.
unfoldable pub load_fen : Bytes → Board → Loaded
unfolding load_rows
load_fen fen board = elim (split fen (codes "/") false) [
  | none ↦ undefined
  | some rows ↦ load_rows 0 rows board
]
