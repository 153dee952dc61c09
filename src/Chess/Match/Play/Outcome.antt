-- ===== src/Chess/Match/Play/Outcome.antt =====
-- plugins/probchess: what a move leaves behind.
use algiz.Base.{
  ℕ, zero, suc, ◌-◌, ◌≡◌, refl, sym, subst, ◌∙◌, List, [], ◌∷◌, Option, none, some, false, not,
  Bool-cases, if-both, Option-cases, inl, inr,
}
use algiz.Base.Bytes.{Bytes}
use algiz.Chess.Square.{Color, black, white, color_eq, Square, square_eq, off_board, Move}
use algiz.Chess.Board.{Board, Piece, king, queen, kind_eq, at, IsPlaced}
use algiz.Chess.Board.Placed.{erase-IsPlaced, set-IsPlaced, move-IsPlaced}
use algiz.Chess.Moves.{can_move_to}
use algiz.Chess.Moves.Legal.{can_move_to-In}
use algiz.Chess.Equality.{has-In}
use algiz.Chess.Check.{has}
use algiz.Chess.Match.{
  Match, Role, host, guest, is_some, end, announce, leave_parent, broadcast, send_all, send_both,
  send_host, send_guest, send_spectators, is_ready, current_player,
}
use algiz.Chess.Match.Turn.{
  promote_row, check_pawns, is_pawn, roll, roll_loop, can_move, reroll, skip_loop, next_turn,
  after_move, send_board, invert_turn,
}
use algiz.Chess.Match.Play.{
  Made, refused, made, place_piece, promotions, take_piece, win, go_on, capture, move_piece,
  make_move, in_columns, known_client, role_eq, seat,
}
use algiz.Chess.Match.Play.Accept.{not-false}

promote_row-IsPlaced :
    (color : Color) (row n : ℕ) (board : Board)
    → IsPlaced board
    → IsPlaced (promote_row color row n board).0
unfolding promote_row
promote_row-IsPlaced color row zero board placed = placed
promote_row-IsPlaced color row (suc n) board placed =
    if-both (λ (b : Board × List Square). IsPlaced b.0) (is_pawn color (board row (8 - suc n))) _ _
      (λ _. promote_row-IsPlaced color row n _ (
        set-IsPlaced _ queen color row (8 - suc n)
          (erase-IsPlaced board (board row (8 - suc n)) placed)))
      (λ _. promote_row-IsPlaced color row n board placed)

check_pawns-IsPlaced : (board : Board) → IsPlaced board → IsPlaced (check_pawns board).0
unfolding check_pawns
check_pawns-IsPlaced board placed =
    promote_row-IsPlaced black 7 8 _ (promote_row-IsPlaced white 0 8 board placed)

send_all-board : (message : Bytes) (m : Match) → (send_all message m).board ≡ m.board
unfolding send_all send_both send_host send_guest send_spectators
send_all-board message m = refl

announce-board : (winner : Option Role) (m : Match) → (announce winner m).board ≡ m.board
unfolding announce send_all send_both send_host send_guest send_spectators
announce-board none m = refl
announce-board (some host) m = elim (Bool-cases (is_some m.host_client)) [
  | inl e ↦ rw e refl
  | inr e ↦ rw e refl
]
announce-board (some guest) m = elim (Bool-cases (is_some m.guest_client)) [
  | inl e ↦ rw e refl
  | inr e ↦ rw e refl
]

end-board : (winner : Option Role) (m : Match) → (end winner m).board ≡ m.board
unfolding end leave_parent broadcast
end-board winner m =
    if-both (λ (e : Match). e.board ≡ m.board) m.hidden _ _ (λ _. announce-board winner m)
      (λ _. announce-board winner m)

place_piece-IsPlaced :
    (piece : Piece) (mv : Move) (m : Match)
    → off_board mv.to ≡ false
    → IsPlaced m.board
    → IsPlaced (place_piece piece mv m).0.board
unfolding place_piece send_board send_all send_both send_host send_guest send_spectators
place_piece-IsPlaced piece mv m on placed =
    check_pawns-IsPlaced _ (move-IsPlaced m.board piece mv.to placed on)

promotions-board : (ss : List Square) (m : Match) → (promotions ss m).board ≡ m.board
unfolding promotions
promotions-board [] m = refl
promotions-board (s ∷ ss) m = promotions-board ss (send_all _ m) ∙ send_all-board _ m

-- A result that kept the board, where there is one.
abbrev SameBoard : Board → Option Match → Type 0
SameBoard board none = Unit
SameBoard board (some m) = m.board ≡ board

turn-board : (m : Match) → (next_turn m).board ≡ m.board
unfolding invert_turn
turn-board m = send_all-board _ (invert_turn m)

roll-board : (fuel : ℕ) (rand : ℕ → ℕ) (m : Match) → SameBoard m.board (roll fuel rand m)
unfolding roll send_all send_both send_host send_guest send_spectators
roll-board fuel rand m = elim (Option-cases (roll_loop fuel rand m.column_count [] m.drawn)) [
  | inl e ↦ rw (e, roll) tt
  | inr ((columns, drawn), e) ↦ rw (e, roll) refl
]

reroll-board :
    (rounds fuel : ℕ) (rand : ℕ → ℕ) (m : Match) (board : Board)
    → m.board ≡ board
    → SameBoard board (reroll rounds fuel rand m)
unfolding reroll
reroll-board zero fuel rand m board h = tt
reroll-board (suc rounds) fuel rand m board h = elim (Option-cases (roll fuel rand m)) [
  | inl e ↦ rw (e, reroll) tt
  | inr (rolled, e) ↦
      let same : rolled.board ≡ board = subst (SameBoard m.board) e (roll-board fuel rand m) ∙ h in
      elim (Bool-cases (can_move rolled)) [
        | inl c ↦ rw (e, c, reroll) same
        | inr c ↦ rw (e, c, reroll) (reroll-board rounds fuel rand rolled board same)
      ]
]

skip_loop-board :
    (rounds fuel : ℕ) (rand : ℕ → ℕ) (m : Match) (board : Board)
    → m.board ≡ board
    → SameBoard board (skip_loop rounds fuel rand m)
unfolding skip_loop
skip_loop-board zero fuel rand m board h = tt
skip_loop-board (suc rounds) fuel rand m board h =
    elim (Option-cases (roll fuel rand (next_turn m))) [
      | inl e ↦ rw (e, skip_loop) tt
      | inr (rolled, e) ↦
          let same : rolled.board ≡ board =
            subst (SameBoard _) e (roll-board fuel rand (next_turn m)) ∙ (turn-board m ∙ h) in
          elim (Bool-cases (can_move rolled)) [
            | inl c ↦ rw (e, c, skip_loop) same
            | inr c ↦
                rw (e, c, skip_loop)
                  (skip_loop-board rounds fuel rand _ board (send_all-board _ rolled ∙ same))
          ]
    ]

after_move-board :
    (rounds fuel : ℕ) (rand : ℕ → ℕ) (m : Match) (board : Board)
    → m.board ≡ board
    → SameBoard board (after_move rounds fuel rand m)
unfolding after_move
after_move-board rounds fuel rand m board h =
    if-both (SameBoard board) m.no_skip _ _
      (λ _. reroll-board rounds fuel rand _ board (turn-board m ∙ h))
      (λ _. skip_loop-board rounds fuel rand m board h)

-- A board in which every piece knows its square, where there is a match.
abbrev pub KeepsPlaced : Made → Type 0
KeepsPlaced (refused e) = Unit
KeepsPlaced (made none) = Unit
KeepsPlaced (made (some m)) = IsPlaced m.board

placed-made :
    (board : Board) (o : Option Match) → IsPlaced board → SameBoard board o → KeepsPlaced (made o)
placed-made board none placed h = tt
placed-made board (some m) placed h = subst IsPlaced (sym h) placed

go_on-IsPlaced :
    (rounds fuel : ℕ) (rand : ℕ → ℕ) (piece : Piece) (mv : Move) (m : Match)
    → off_board mv.to ≡ false
    → IsPlaced m.board
    → KeepsPlaced (made (go_on rounds fuel rand piece mv m))
unfolding go_on
go_on-IsPlaced rounds fuel rand piece mv m on placed =
    let after = (place_piece piece mv m).0 in
    let promoted = (place_piece piece mv m).1 in
    placed-made after.board _ (place_piece-IsPlaced piece mv m on placed) (
      after_move-board rounds fuel rand (promotions promoted after) after.board
        (promotions-board promoted after))

win-IsPlaced :
    (piece : Piece) (mv : Move) (m : Match)
    → off_board mv.to ≡ false
    → IsPlaced m.board
    → IsPlaced (win piece mv m).board
unfolding win
win-IsPlaced piece mv m on placed =
    subst IsPlaced (sym (end-board _ _)) (place_piece-IsPlaced piece mv m on placed)

take_piece-IsPlaced :
    (piece : Piece) (m : Match) → IsPlaced m.board → IsPlaced (take_piece piece m).board
unfolding take_piece send_all send_both send_host send_guest send_spectators
take_piece-IsPlaced piece m placed = erase-IsPlaced m.board (some piece) placed

capture-IsPlaced :
    (rounds fuel : ℕ) (rand : ℕ → ℕ) (piece : Piece) (mv : Move) (m : Match) (o : Option Piece)
    → off_board mv.to ≡ false
    → IsPlaced m.board
    → KeepsPlaced (capture rounds fuel rand piece mv m o)
unfolding capture
capture-IsPlaced rounds fuel rand piece mv m none on placed =
    go_on-IsPlaced rounds fuel rand piece mv m on placed
capture-IsPlaced rounds fuel rand piece mv m (some other) on placed =
    if-both KeepsPlaced (color_eq other.color m.current_turn) _ _ (λ _. tt)
      (λ _.
        if-both KeepsPlaced (kind_eq other.kind king) _ _
          (λ _. win-IsPlaced piece mv (take_piece other m) on (take_piece-IsPlaced other m placed))
          (λ _.
            go_on-IsPlaced rounds fuel rand piece mv (take_piece other m) on
              (take_piece-IsPlaced other m placed)))

move_piece-IsPlaced :
    (rounds fuel : ℕ) (rand : ℕ → ℕ) (mv : Move) (m : Match) (o : Option Piece)
    → IsPlaced m.board
    → KeepsPlaced (move_piece rounds fuel rand mv m o)
unfolding move_piece
move_piece-IsPlaced rounds fuel rand mv m none placed = tt
move_piece-IsPlaced rounds fuel rand mv m (some piece) placed =
    if-both KeepsPlaced (not (color_eq piece.color m.current_turn)) _ _ (λ _. tt)
      (λ _.
        if-both KeepsPlaced (square_eq mv.from mv.to) _ _ (λ _. tt)
          (λ _.
            if-both KeepsPlaced (not (in_columns mv.from.column m.columns)) _ _ (λ _. tt)
              (λ _.
                if-both KeepsPlaced (not (has mv.to (can_move_to m.board piece))) _ _ (λ _. tt)
                  (λ reached.
                    capture-IsPlaced rounds fuel rand piece mv m (at m.board mv.to)
                      ((can_move_to-In m.board piece mv.to).0
                        (has-In mv.to _ (not-false _ reached))).1.0
                      placed))))

-- Whatever a player sends, every piece on the board of the match that comes out knows its square,
-- where every piece did before.
pub make_move-IsPlaced :
    (rounds fuel : ℕ) (rand : ℕ → ℕ) (player : Role) (mv : Move) (m : Match)
    → IsPlaced m.board
    → KeepsPlaced (make_move rounds fuel rand player mv m)
unfolding make_move
make_move-IsPlaced rounds fuel rand player mv m placed =
    if-both KeepsPlaced (not (is_ready m)) _ _ (λ _. tt)
      (λ _.
        if-both KeepsPlaced (is_some m.winner_color) _ _ (λ _. tt)
          (λ _.
            if-both KeepsPlaced (not (known_client (seat m player) m)) _ _ (λ _. tt)
              (λ _.
                if-both KeepsPlaced (not (role_eq player (current_player m))) _ _ (λ _. tt)
                  (λ _. move_piece-IsPlaced rounds fuel rand mv m (at m.board mv.from) placed))))
