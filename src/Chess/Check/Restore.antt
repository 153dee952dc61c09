-- ===== src/Chess/Check/Restore.antt =====
-- plugins/probchess/Board: the board behind the test for mate.
use algiz.Base.{
  ◌≡◌, refl, sym, ap, subst, ◌∙◌, List, [], ◌∷◌, some, Bool, true, false, if◌then◌else◌, Bool-cases,
  inl, inr, arith,
}
use algiz.Chess.Square.{Color, Square, off_board}
use algiz.Chess.Board.{Board, Piece, move}
use algiz.Chess.Moves.{can_move_to}
use algiz.Chess.Check.{is_attacked, find_king, mate_loop, is_checkmated}
use algiz.Chess.Check.Attack.{is_attacked-restores}

mate_loop-restores :
    (old board : Board) (color : Color) (piece : Piece) (ss : List Square)
    → board ≡ old
    → (mate_loop old board color piece ss).0 ≡ true
    → (mate_loop old board color piece ss).1 ≡ old
unfolding mate_loop
mate_loop-restores old board color piece [] same h = same
mate_loop-restores old board color piece (s ∷ ss) same h =
    let result = is_attacked (move board (some piece) s).1 color s in
    elim (Bool-cases result.0) [
      | inl e ↦
          rw (e, mate_loop)
            (mate_loop-restores old old color piece ss refl (
              subst
                (λ b. (if b then mate_loop old old color piece ss else (false, result.1)).0 ≡ true)
                e h))
      | inr e ↦ absurd (
          ground (
            arith,
            subst
                (λ b. (if b then mate_loop old old color piece ss else (false, result.1)).0 ≡ true)
                e h,
          ))
    ]

after_attack : Board → Color → Piece → Bool × Board → Bool × Board
after_attack board color piece (attacked, left) =
    if attacked then mate_loop left left color piece (can_move_to left piece) else (false, left)

found_king :
    (board : Board) (color : Color) (piece : Piece)
    → find_king board color ≡ some piece
    → is_checkmated board color
      ≡ after_attack board color piece (is_attacked board color piece.square)
unfolding is_checkmated after_attack
found_king board color piece found = rw (found, is_checkmated) refl

after_attack-restores :
    (board : Board) (color : Color) (piece : Piece) (result : Bool × Board)
    → result.1 ≡ board
    → (after_attack board color piece result).0 ≡ true
    → (after_attack board color piece result).1 ≡ board
unfolding after_attack
after_attack-restores board color piece (true, left) same h =
    mate_loop-restores left left color piece (can_move_to left piece) refl h ∙ same
after_attack-restores board color piece (false, left) same h = same

-- Where a king of the colour stands on the board and is found mated, the board is left as it was.
pub is_checkmated-restores :
    (board : Board) (color : Color) (piece : Piece)
    → find_king board color ≡ some piece
    → off_board piece.square ≡ false
    → (is_checkmated board color).0 ≡ true
    → (is_checkmated board color).1 ≡ board
is_checkmated-restores board color piece found on h =
    let e = found_king board color piece found in
    ap (λ (r : Bool × Board). r.1) e
    ∙ after_attack-restores board color piece (is_attacked board color piece.square)
        (is_attacked-restores board color piece.square on)
        (sym (ap (λ (r : Bool × Board). r.0) e) ∙ h)
