-- ===== src/Chess/Match/Promotion.antt =====
-- plugins/probchess: what `checkPawns` leaves on the last rows.
use algiz.Base.{
  ℕ, zero, suc, ◌-◌, ◌≡◌, refl, sym, subst, List, Option, none, some, false, ◌&&◌, ◌==◌, ==_refl,
  ==→eq, Bool-cases, if-both, inl, inr, ◌⊎◌, ◌<◌, ◌≤◌, arith,
}
use algiz.Chess.Square.{Color, black, white, Square}
use algiz.Chess.Board.{Board, Piece, queen, kind_eq, put, index, erase, set}
use algiz.Chess.Match.Turn.{promote_row, check_pawns, is_pawn}

-- No pawn of the colour stands there.
abbrev pub HasNoPawn : Color → ℕ → ℕ → Board → Type 0
HasNoPawn color r c board = is_pawn color (board r c) ≡ false

put-HasNoPawn :
    (color : Color) (r c i j : ℕ) (o : Option Piece) (board : Board)
    → is_pawn color o ≡ false
    → HasNoPawn color r c board
    → HasNoPawn color r c (put board i j o)
unfolding put
put-HasNoPawn color r c i j o board ho h =
    if-both (λ (o : Option Piece). is_pawn color o ≡ false) ((r == i) && (c == j)) o (board r c)
      (λ _. ho) (λ _. h)

erase-HasNoPawn :
    (color : Color) (r c : ℕ) (o : Option Piece) (board : Board)
    → HasNoPawn color r c board
    → HasNoPawn color r c (erase board o)
unfolding erase
erase-HasNoPawn color r c none board h = h
erase-HasNoPawn color r c (some piece) board h =
    put-HasNoPawn color r c (index piece.square.row) (index piece.square.column) none board refl h

set_queen :
    (color other : Color) (r c i j : ℕ) (board : Board)
    → HasNoPawn color r c board
    → HasNoPawn color r c (set board queen other i j)
unfolding set kind_eq
set_queen color other r c i j board h = put-HasNoPawn color r c i j _ board refl h

queen_here :
    (color other : Color) (r c : ℕ) (board : Board)
    → HasNoPawn color r c (set board queen other r c)
unfolding set put kind_eq
queen_here color other r c board =
    if-both (λ (o : Option Piece). is_pawn color o ≡ false) ((r == r) && (c == c)) _ (board r c)
      (λ _. refl) (λ e. absurd (ground (arith, ==_refl r, ==_refl c)))

promote_row_keeps :
    (color other : Color) (r c row n : ℕ) (board : Board)
    → HasNoPawn color r c board
    → HasNoPawn color r c (promote_row other row n board).0
unfolding promote_row
promote_row_keeps color other r c row zero board h = h
promote_row_keeps color other r c row (suc n) board h =
    let here = board row (8 - suc n) in
    if-both (λ (b : Board × List Square). HasNoPawn color r c b.0) (is_pawn other here) _ _
      (λ _. promote_row_keeps color other r c row n _ (
        set_queen color other r c row (8 - suc n) (erase board here)
          (erase-HasNoPawn color r c here board h)))
      (λ _. promote_row_keeps color other r c row n board h)

promote_row_clears :
    (color : Color) (row c n : ℕ) (board : Board)
    → n ≤ 8
    → 8 - n ≤ c
    → c < 8
    → HasNoPawn color row c (promote_row color row n board).0
unfolding promote_row
promote_row_clears color row c zero board hn lo hi = absurd (omega arith)
promote_row_clears color row c (suc n) board hn lo hi =
    let here = board row (8 - suc n) in
    let crowned = set (erase board here) queen color row (8 - suc n) in
    let first : (c ≡ 8 - suc n) ⊎ (8 - n ≤ c) = elim (Bool-cases (c == 8 - suc n)) [
      | inl e ↦ inl (omega (arith, ==→eq c (8 - suc n) e))
      | inr e ↦ inr (ground arith)
    ] in
    if-both (λ (b : Board × List Square). HasNoPawn color row c b.0) (is_pawn color here) _ _
      (λ _. elim first [
        | inl e ↦ promote_row_keeps color color row c row n crowned (
            subst (λ c. HasNoPawn color row c crowned) (sym e)
              (queen_here color color row (8 - suc n) (erase board here)))
        | inr m ↦ promote_row_clears color row c n crowned (omega arith) m hi
      ])
      (λ no. elim first [
        | inl e ↦
            promote_row_keeps color color row c row n board
              (subst (λ c. HasNoPawn color row c board) (sym e) no)
        | inr m ↦ promote_row_clears color row c n board (omega arith) m hi
      ])

-- After the promotions no white pawn stands on the first row and no black one on the last.
pub check_pawns-HasNoPawn :
    (board : Board) (c : ℕ)
    → c < 8
    → HasNoPawn white 0 c (check_pawns board).0 × HasNoPawn black 7 c (check_pawns board).0
unfolding check_pawns
check_pawns-HasNoPawn board c hc = (
  promote_row_keeps white black 0 c 7 8 _
      (promote_row_clears white 0 c 8 board (omega arith) (omega arith) hc),
  promote_row_clears black 7 c 8 _ (omega arith) (omega arith) hc,
)
