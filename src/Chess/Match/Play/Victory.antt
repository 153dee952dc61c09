-- ===== src/Chess/Match/Play/Victory.antt =====
-- plugins/probchess: the capture of a king.
use algiz.Base.{ℕ, ◌≡◌, refl, sym, subst, ◌∙◌, Option, none, some, true, false, if-both, arith}
use algiz.Chess.Square.{Color, color_eq, Move}
use algiz.Chess.Board.{Piece, king, kind_eq, at}
use algiz.Chess.Moves.{same_color}
use algiz.Chess.Match.{
  Match, Role, host, guest, is_some, end, announce, leave_parent, broadcast, send_all, send_both,
  send_host, send_guest, send_spectators,
}
use algiz.Chess.Match.Turn.{send_board}
use algiz.Chess.Match.Play.{Made, refused, made, place_piece, take_piece, win, capture, make_move}
use algiz.Chess.Match.Play.Accept.{IsAllowed, make_move-pass, legal-free}

-- Over, no longer listed, and won by the colour.
abbrev pub IsWon : Color → Made → Type 0
IsWon color (refused e) = ⊥
IsWon color (made none) = ⊥
IsWon color (made (some m)) = (m.winner_color ≡ some color) × ((m.over ≡ true) × (m.listed ≡ false))

announce-winner :
    (winner : Option Role) (m : Match) → (announce winner m).winner_color ≡ m.winner_color
unfolding announce send_all send_both send_host send_guest send_spectators
announce-winner none m = refl
announce-winner (some host) m =
    if-both (λ (e : Match). e.winner_color ≡ m.winner_color) (is_some m.host_client) _ _ (λ _. refl)
      (λ _. refl)
announce-winner (some guest) m =
    if-both (λ (e : Match). e.winner_color ≡ m.winner_color) (is_some m.guest_client) _ _
      (λ _. refl) (λ _. refl)

end-IsWon :
    (winner : Option Role) (m : Match) (color : Color)
    → m.winner_color ≡ some color
    → IsWon color (made (some (end winner m)))
unfolding end leave_parent broadcast
end-IsWon winner m color h =
    if-both (λ (e : Match). IsWon color (made (some e))) m.hidden _ _
      (λ _. (announce-winner winner m ∙ h, (refl, refl)))
      (λ _. (announce-winner winner m ∙ h, (refl, refl)))

win-IsWon :
    (piece : Piece) (mv : Move) (m : Match) → IsWon m.current_turn (made (some (win piece mv m)))
unfolding win place_piece send_board send_all send_both send_host send_guest send_spectators
win-IsWon piece mv m = end-IsWon _ _ m.current_turn refl

capture-king :
    (rounds fuel : ℕ) (rand : ℕ → ℕ) (piece : Piece) (mv : Move) (m : Match) (o : Option Piece)
    (other : Piece)
    → o ≡ some other
    → other.kind ≡ king
    → same_color o m.current_turn ≡ false
    → IsWon m.current_turn (capture rounds fuel rand piece mv m o)
unfolding capture same_color kind_eq take_piece send_all send_both send_host send_guest
    send_spectators
capture-king rounds fuel rand piece mv m o other h k free =
    let foe : color_eq other.color m.current_turn ≡ false =
      subst (λ o. same_color o m.current_turn ≡ false) h free in
    let royal : kind_eq other.kind king ≡ true = subst (λ k. kind_eq k king ≡ true) (sym k) refl in
    subst (λ o. IsWon m.current_turn (capture rounds fuel rand piece mv m o)) (sym h)
      (if-both (IsWon m.current_turn) (color_eq other.color m.current_turn) _ _
        (λ own. absurd (ground (arith, own, foe)))
        (λ _.
          if-both (IsWon m.current_turn) (kind_eq other.kind king) _ _
            (λ _. win-IsWon piece mv (take_piece other m))
            (λ common. absurd (ground (arith, common, royal)))))

-- An allowed move onto a king wins the match for the colour in turn, and ends it, whatever `rand`
-- gives.
pub make_move-king :
    (rounds fuel : ℕ) (rand : ℕ → ℕ) (player : Role) (mv : Move) (m : Match) (other : Piece)
    → IsAllowed player mv m
    → at m.board mv.to ≡ some other
    → other.kind ≡ king
    → IsWon m.current_turn (make_move rounds fuel rand player mv m)
make_move-king rounds fuel rand player mv m other allowed h k =
    let (ready, (open_match, (current, (piece, (there, (hc, (column, reached))))))) = allowed in
    make_move-pass (IsWon m.current_turn) rounds fuel rand player mv m allowed (
      capture-king rounds fuel rand piece mv m (at m.board mv.to) other h k
        (legal-free m.board piece m.current_turn mv.to hc reached))
