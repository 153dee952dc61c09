-- ===== src/Chess/Check/Attack.antt =====
-- plugins/probchess/Board: what the tests for attack, check and mate see, and what they leave behind.
use algiz.Base.{
  ℕ, zero, suc, ◌≡◌, refl, sym, ap, ◌∙◌, fun_ext, List, [], ◌∷◌, Option, none, some, false, ◌&&◌,
  if◌then◌else◌, ◌==◌, ==→eq, Bool-cases, Option-cases, inl, inr, arith,
}
use algiz.Base.Int.{ℤ, pos, negsuc}
use algiz.Chess.Square.{Color, black, white, color_eq, other_color, Square, square, off_board}
use algiz.Chess.Board.{Board, Piece, at, at_int, put, index}
use algiz.Chess.Moves.{can_move_to}
use algiz.Chess.Equality.{color-eq, and-true}
use algiz.Chess.Check.{
  is_attacked, attack_loop, with_rook, rook_of, places, reaches, is_in_check, find_king,
  pieces_loop, get_pieces, mate_loop, is_checkmated,
}

at_int-index :
    (board : Board) (r c : ℤ)
    → off_board (square r c) ≡ false
    → at_int board r c ≡ board (index r) (index c)
unfolding at_int index off_board
at_int-index board (pos r) (pos c) h = ground arith
at_int-index board (pos r) (negsuc c) h = absurd (ground arith)
at_int-index board (negsuc r) c h = absurd (ground arith)

at-index :
    (board : Board) (s : Square)
    → off_board s ≡ false
    → at board s ≡ board (index s.row) (index s.column)
unfolding at
at-index board s h = at_int-index board s.row s.column h

put-put :
    (board : Board) (r c : ℕ) (o old : Option Piece)
    → board r c ≡ old
    → put (put board r c o) r c old ≡ board
unfolding put
put-put board r c o old h = fun_ext (λ i. fun_ext (λ j. elim (Bool-cases ((i == r) && (j == c))) [
  | inl e ↦
      let (ei, ej) = and-true (i == r) (j == c) e in
      ap (λ b. if b then old else (if b then o else board i j)) e
      ∙ (sym h ∙ (ap (λ n. board n c) (sym (==→eq i r ei)) ∙ ap (board i) (sym (==→eq j c ej))))
  | inr e ↦ ap (λ b. if b then old else (if b then o else board i j)) e
]))

-- The test for an attack leaves the board as it was, whatever it finds.
pub is_attacked-restores :
    (board : Board) (color : Color) (s : Square)
    → off_board s ≡ false
    → (is_attacked board color s).1 ≡ board
unfolding is_attacked with_rook
is_attacked-restores board color s h =
    put-put board (index s.row) (index s.column) _ (at board s) (sym (at-index board s h))

-- The square holds the only piece of the colour, if any.
abbrev pub IsAlone : Board → Color → Square → Type 0
IsAlone board color s =
    (r c : ℕ) (piece : Piece)
    → board r c ≡ some piece
    → piece.color ≡ color
    → (r ≡ index s.row) × (c ≡ index s.column)

none_reach :
    (board : Board) (color : Color) (s : Square) (ps : List (ℕ × ℕ))
    → ((r c : ℕ) → reaches board color s (board r c) ≡ false)
    → attack_loop board color s ps ≡ false
unfolding attack_loop
none_reach board color s [] h = refl
none_reach board color s ((r, c) ∷ ps) h = rw (h r c, attack_loop) (none_reach board color s ps h)

other-ne : (a : Color) → color_eq (other_color a) a ≡ false
unfolding color_eq other_color
other-ne black = refl
other-ne white = refl

other_reaches :
    (board : Board) (color : Color) (s : Square) (piece : Piece)
    → color_eq piece.color color ≡ false
    → reaches board color s (some piece) ≡ false
other_reaches board color s piece h = rw h refl

rook_reaches :
    (board temp : Board) (color : Color) (s : Square) (r c : ℕ)
    → IsAlone board color s
    → reaches temp color s (with_rook board color s r c) ≡ false
unfolding with_rook put
rook_reaches board temp color s r c alone =
    elim (Bool-cases ((r == index s.row) && (c == index s.column))) [
      | inl e ↦
          ap (λ b. reaches temp color s (if b then some (rook_of color s) else board r c)) e
          ∙ other_reaches temp color s _ (other-ne color)
      | inr e ↦
          ap (λ b. reaches temp color s (if b then some (rook_of color s) else board r c)) e
          ∙ elim (Option-cases (board r c)) [
            | inl none_here ↦ ap (reaches temp color s) none_here
            | inr (piece, h) ↦
                ap (reaches temp color s) h ∙ elim (Bool-cases (color_eq piece.color color)) [
                  | inr f ↦ other_reaches temp color s piece f
                  | inl t ↦
                      let (er, ec) = alone r c piece h (color-eq piece.color color t) in
                      absurd (ground (arith, e, er, ec))
                ]
          ]
    ]

-- A square is never found attacked by the other colour: where the only piece of the colour given
-- stands on the square asked about, the answer is no, whatever pieces the other colour has.
pub is_attacked-alone :
    (board : Board) (color : Color) (s : Square)
    → IsAlone board color s
    → (is_attacked board color s).0 ≡ false
unfolding is_attacked
is_attacked-alone board color s alone =
    none_reach _ color s places (λ r c. rook_reaches board _ color s r c alone)

-- A king without any other piece of its colour is neither in check nor mated, wherever the other
-- colour's pieces stand.
pub is_in_check-alone :
    (board : Board) (color : Color) (piece : Piece)
    → find_king board color ≡ some piece
    → IsAlone board color piece.square
    → ((is_in_check board color).0 ≡ false) × ((is_checkmated board color).0 ≡ false)
unfolding is_in_check is_checkmated
is_in_check-alone board color piece h alone =
    let left = (is_attacked board color piece.square).1 in
    (
      rw (h, is_in_check) (is_attacked-alone board color piece.square alone),
      rw (h, is_checkmated)
          (ap
            (λ b.
              (if b
                then mate_loop left left color piece (can_move_to left piece)
                else (false, left)).0)
            (is_attacked-alone board color piece.square alone)),
    )

loop_endless :
    (fuel : ℕ) (board : Board) (color : Color) (row : ℕ) (out : List Piece)
    → pieces_loop fuel board color row 0 out ≡ none
unfolding pieces_loop
loop_endless zero board color row out = refl
loop_endless (suc fuel) board color row out = loop_endless fuel board color (suc row) _

-- The loops of `getPieces` never end: no amount of fuel lets them return.
pub get_pieces_endless :
    (fuel : ℕ) (board : Board) (color : Color) → get_pieces fuel board color ≡ none
unfolding get_pieces
get_pieces_endless fuel board color = loop_endless fuel board color 0 []
