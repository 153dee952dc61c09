-- ===== src/Chess/Square.antt =====
-- plugins/probchess: Color, Square and Move. The `int` coordinates stay within a few steps of the
-- board, so they are integers that do not wrap.
use algiz.Base.{
  ℕ, ◌-◌, ◌%◌, ◌≡◌, ◌∷◌, ◌++◌, Option, none, some, Bool, true, false, not, ◌&&◌, ◌||◌,
  if◌then◌else◌, ◌==◌, arith,
}
use algiz.Base.Bytes.{Bytes, codes}
use algiz.Base.Int.{ℤ, pos, negsuc, ◌+ℤ◌, ◌-ℤ◌, ltb_ℤ, leb_ℤ, eqb_ℤ}
use algiz.Util.Numbers.{decimal_signed}

pub data Color : Type 0 where
  black white : Color

unfoldable pub color_eq : Color → Color → Bool
color_eq black black = true
color_eq black white = false
color_eq white black = false
color_eq white white = true

unfoldable pub color_name : Color → Bytes
color_name black = codes "black"
color_name white = codes "white"

unfoldable pub other_color : Color → Color
other_color black = white
other_color white = black

pub record Square : Type 0 where
  pub row : ℤ
  pub column : ℤ

abbrev pub square : ℤ → ℤ → Square
square r c = record { row = r; column = c }

unfoldable pub square_eq : Square → Square → Bool
square_eq a b = eqb_ℤ a.row b.row && eqb_ℤ a.column b.column

-- `operator!`.
unfoldable pub off_board : Square → Bool
off_board s =
    ltb_ℤ s.row (pos 0) || ltb_ℤ (pos 7) s.row || ltb_ℤ s.column (pos 0) || ltb_ℤ (pos 7) s.column

-- `operator bool`.
unfoldable pub on_board : Square → Bool
on_board s =
    leb_ℤ (pos 0) s.row && ltb_ℤ s.row (pos 8) && leb_ℤ (pos 0) s.column && ltb_ℤ s.column (pos 8)

-- `operator+` of a pair; the row and column shifts are the pairs with a zero.
unfoldable pub shift : Square → ℤ × ℤ → Square
shift s (rows, columns) = record { row = s.row +ℤ rows; column = s.column +ℤ columns }

-- `operator std::string`.
unfoldable pub print_square : Square → Bytes
print_square s = decimal_signed s.row ++ decimal_signed s.column

-- `int` arithmetic on a `char`, narrowed to a byte where a character is made of it.
abbrev char_of : ℤ → ℕ
char_of (pos n) = n % 256
char_of (negsuc n) = 255 - n % 256

unfoldable pub algebraic : Square → Bytes
algebraic s = char_of (pos b'a' +ℤ s.column) ∷ decimal_signed (pos 8 -ℤ s.row)

-- The parity test of `getColor`, on the board.
unfoldable pub square_color : ℕ → ℕ → Color
square_color row column = if row % 2 == column % 2 then white else black

pub record Move : Type 0 where
  pub from : Square
  pub to : Square

-- `Move(std::string_view)`; `none` is a text of fewer than four bytes, read past its end.
unfoldable pub parse_move : Bytes → Option Move
parse_move (a ∷ b ∷ c ∷ d ∷ rest) = some (record {
  from = square (pos 8 -ℤ (pos b -ℤ pos b'0')) (pos a -ℤ pos b'a');
  to = square (pos 8 -ℤ (pos d -ℤ pos b'0')) (pos c -ℤ pos b'a');
})
parse_move s = none

unfoldable pub pseudoalgebraic : Move → Bytes
unfolding algebraic
pseudoalgebraic m = algebraic m.from ++ algebraic m.to

-- The two tests of a square are opposites.
pub on_board-not : (s : Square) → on_board s ≡ not (off_board s)
unfolding on_board off_board
on_board-not s = ground arith
