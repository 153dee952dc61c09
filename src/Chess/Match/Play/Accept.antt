-- ===== src/Chess/Match/Play/Accept.antt =====
-- plugins/probchess: which moves `makeMove` accepts.
use algiz.Base.{
  ℕ, ◌≡◌, refl, sym, ap, subst, ◌∙◌, Option, none, some, Bool, true, false, not, ◌||◌,
  if◌then◌else◌, ==_refl, Bool-cases, inl, inr, ◌⊎◌, ◌↔◌, arith,
}
use algiz.Base.Bytes.{Bytes}
use algiz.Chess.Square.{Color, color_eq, Square, square_eq, Move}
use algiz.Chess.Board.{Board, Piece, king, kind_eq, at}
use algiz.Chess.Moves.{can_move_to, same_color}
use algiz.Chess.Moves.Legal.{In, can_move_to-In}
use algiz.Chess.Check.{has}
use algiz.Chess.Equality.{square-eq, has-In, In-has, color-eq, color_refl, and-true}
use algiz.Chess.Match.{
  Match, Role, host, guest, is_some, is_ready, has_client, is_client, current_player,
}
use algiz.Chess.Match.Play.{
  Made, refused, made, seat, role_eq, known_client, in_columns, capture, move_piece, make_move,
}

-- What a player may do: in a match with both players that nobody has won, the player whose turn it
-- is moves a piece of his colour that stands in a rolled column to a square that the piece reaches.
abbrev pub IsAllowed : Role → Move → Match → Type 0
IsAllowed player mv m =
    (is_ready m ≡ true)
    × ((m.winner_color ≡ none)
        × ((player ≡ current_player m)
            × ((piece : Piece) × ((at m.board mv.from ≡ some piece)
                  × ((piece.color ≡ m.current_turn)
                      × ((in_columns mv.from.column m.columns ≡ true)
                          × In mv.to (can_move_to m.board piece)))))))

abbrev pub IsMade : Made → Type 0
IsMade (refused e) = ⊥
IsMade (made r) = Unit

pub guard-made :
    (b : Bool) (e : Bytes) (x : Made) → IsMade (if b then refused e else x) → (b ≡ false) × IsMade x
guard-made true e x h = absurd h
guard-made false e x h = (refl, h)

pass :
    (P : Made → Type 0) (b : Bool) (e : Bytes) (x : Made)
    → b ≡ false
    → P x
    → P (if b then refused e else x)
pass P b e x hb h = subst (λ b. P (if b then refused e else x)) (sym hb) h

role-eq : (a b : Role) → role_eq a b ≡ true → a ≡ b
role-eq host host h = refl
role-eq guest guest h = refl
role-eq host guest h = absurd (ground arith)
role-eq guest host h = absurd (ground arith)

role_refl : (a : Role) → role_eq a a ≡ true
role_refl host = refl
role_refl guest = refl

pub not-false : (b : Bool) → not b ≡ false → b ≡ true
not-false b h = ground arith

none-some : {A : Type 0} (o : Option A) → is_some o ≡ false → o ≡ none
none-some none h = refl
none-some (some a) h = absurd (ground arith)

move_piece_sound :
    (rounds fuel : ℕ) (rand : ℕ → ℕ) (mv : Move) (m : Match) (o : Option Piece)
    → IsMade (move_piece rounds fuel rand mv m o)
    → (piece : Piece) × ((o ≡ some piece)
        × ((piece.color ≡ m.current_turn)
            × ((in_columns mv.from.column m.columns ≡ true)
                × In mv.to (can_move_to m.board piece))))
unfolding move_piece
move_piece_sound rounds fuel rand mv m none h = absurd h
move_piece_sound rounds fuel rand mv m (some piece) h =
    let (a, h₁) = guard-made (not (color_eq piece.color m.current_turn)) _ _ h in
    let (b, h₂) = guard-made (square_eq mv.from mv.to) _ _ h₁ in
    let (c, h₃) = guard-made (not (in_columns mv.from.column m.columns)) _ _ h₂ in
    let (d, h₄) = guard-made (not (has mv.to (can_move_to m.board piece))) _ _ h₃ in
    (piece, (refl, (color-eq _ _ (not-false _ a), (not-false _ c, has-In _ _ (not-false _ d)))))

make_move_sound :
    (rounds fuel : ℕ) (rand : ℕ → ℕ) (player : Role) (mv : Move) (m : Match)
    → IsMade (make_move rounds fuel rand player mv m)
    → IsAllowed player mv m
unfolding make_move
make_move_sound rounds fuel rand player mv m h =
    let (a, h₁) = guard-made (not (is_ready m)) _ _ h in
    let (b, h₂) = guard-made (is_some m.winner_color) _ _ h₁ in
    let (c, h₃) = guard-made (not (known_client (seat m player) m)) _ _ h₂ in
    let (d, h₄) = guard-made (not (role_eq player (current_player m))) _ _ h₃ in
    (
      not-false _ a,
      (none-some _ b, (role-eq _ _ (not-false _ d), move_piece_sound rounds fuel rand mv m _ h₄)),
    )

own_client :
    (a b : Option ℕ) (client : ℕ)
    → (a ≡ some client) ⊎ (b ≡ some client)
    → (is_client client a || is_client client b) ≡ true
own_client a b client (inl e) = rw e (ground (arith, ==_refl client))
own_client none b client (inr e) = rw e (ground (arith, ==_refl client))
own_client (some c) b client (inr e) = rw e (ground (arith, ==_refl client))

known-host :
    (o : Option ℕ) (m : Match) → m.host_client ≡ o → is_some o ≡ true → known_client o m ≡ true
unfolding has_client
known-host none m e h = absurd (ground arith)
known-host (some client) m e h = own_client m.host_client m.guest_client client (inl e)

known-guest :
    (o : Option ℕ) (m : Match) → m.guest_client ≡ o → is_some o ≡ true → known_client o m ≡ true
unfolding has_client
known-guest none m e h = absurd (ground arith)
known-guest (some client) m e h = own_client m.host_client m.guest_client client (inr e)

known-seat : (m : Match) (player : Role) → is_ready m ≡ true → known_client (seat m player) m ≡ true
unfolding is_ready
known-seat m host h = known-host m.host_client m refl (and-true _ _ h).0
known-seat m guest h = known-guest m.guest_client m refl (and-true _ _ h).1

either-IsMade : (b : Bool) (x y : Option Match) → IsMade (if b then made x else made y)
either-IsMade true x y = tt
either-IsMade false x y = tt

capture_complete :
    (rounds fuel : ℕ) (rand : ℕ → ℕ) (piece : Piece) (mv : Move) (m : Match) (o : Option Piece)
    → same_color o m.current_turn ≡ false
    → IsMade (capture rounds fuel rand piece mv m o)
unfolding capture same_color
capture_complete rounds fuel rand piece mv m none h = tt
capture_complete rounds fuel rand piece mv m (some other) h =
    pass IsMade (color_eq other.color m.current_turn) _ _ h
      (either-IsMade (kind_eq other.kind king) _ _)

-- A square that holds the piece's own colour is no target, so the piece does not stay.
stays-not :
    (board : Board) (piece : Piece) (color : Color) (from to : Square)
    → at board from ≡ some piece
    → piece.color ≡ color
    → same_color (at board to) color ≡ false
    → square_eq from to ≡ false
unfolding same_color
stays-not board piece color from to h hc free = elim (Bool-cases (square_eq from to)) [
  | inl e ↦
      let there : at board to ≡ some piece =
        subst (λ s. at board s ≡ some piece) (square-eq from to e) h in
      let no : color_eq piece.color color ≡ false =
        sym (ap (λ o. same_color o color) there) ∙ free in
      let yes : color_eq piece.color color ≡ true =
        subst (λ c. color_eq piece.color c ≡ true) hc (color_refl piece.color) in
      absurd (ground (arith, yes, no))
  | inr e ↦ e
]

pub legal-free :
    (board : Board) (piece : Piece) (color : Color) (s : Square)
    → piece.color ≡ color
    → In s (can_move_to board piece)
    → same_color (at board s) color ≡ false
legal-free board piece color s hc reached =
    subst (λ c. same_color (at board s) c ≡ false) hc ((can_move_to-In board piece s).0 reached).1.1

-- What holds of the rest of the handler holds of it where the tests before let a move through.
move_piece-pass :
    (P : Made → Type 0) (rounds fuel : ℕ) (rand : ℕ → ℕ) (mv : Move) (m : Match) (piece : Piece)
    → at m.board mv.from ≡ some piece
    → piece.color ≡ m.current_turn
    → in_columns mv.from.column m.columns ≡ true
    → In mv.to (can_move_to m.board piece)
    → P (capture rounds fuel rand piece mv m (at m.board mv.to))
    → P (move_piece rounds fuel rand mv m (some piece))
unfolding move_piece
move_piece-pass P rounds fuel rand mv m piece h hc column reached rest =
    let free = legal-free m.board piece m.current_turn mv.to hc reached in
    pass P (not (color_eq piece.color m.current_turn)) _ _
      (ap not (subst (λ c. color_eq piece.color c ≡ true) hc (color_refl piece.color)))
      (pass P (square_eq mv.from mv.to) _ _
        (stays-not m.board piece m.current_turn mv.from mv.to h hc free)
        (pass P (not (in_columns mv.from.column m.columns)) _ _ (ap not column) (
          pass P (not (has mv.to (can_move_to m.board piece))) _ _ (ap not (In-has mv.to _ reached))
            rest)))

pub make_move-pass :
    (P : Made → Type 0) (rounds fuel : ℕ) (rand : ℕ → ℕ) (player : Role) (mv : Move) (m : Match)
    → (allowed : IsAllowed player mv m)
    → P (capture rounds fuel rand allowed.1.1.1.0 mv m (at m.board mv.to))
    → P (make_move rounds fuel rand player mv m)
unfolding make_move
make_move-pass P rounds fuel rand player mv m
      (ready, (open_match, (current, (piece, (h, (hc, (column, reached))))))) rest =
    pass P (not (is_ready m)) _ _ (ap not ready) (
      pass P (is_some m.winner_color) _ _ (ap is_some open_match) (
        pass P (not (known_client (seat m player) m)) _ _ (ap not (known-seat m player ready)) (
          pass P (not (role_eq player (current_player m))) _ _
            (ap not (subst (λ r. role_eq player r ≡ true) current (role_refl player)))
            (subst (λ o. P (move_piece rounds fuel rand mv m o)) (sym h)
              (move_piece-pass P rounds fuel rand mv m piece h hc column reached rest)))))

make_move_complete :
    (rounds fuel : ℕ) (rand : ℕ → ℕ) (player : Role) (mv : Move) (m : Match)
    → IsAllowed player mv m
    → IsMade (make_move rounds fuel rand player mv m)
make_move_complete rounds fuel rand player mv m allowed =
    let (ready, (open_match, (current, (piece, (h, (hc, (column, reached))))))) = allowed in
    make_move-pass IsMade rounds fuel rand player mv m allowed (
      capture_complete rounds fuel rand piece mv m (at m.board mv.to)
        (legal-free m.board piece m.current_turn mv.to hc reached))

-- `makeMove` throws no ChessError exactly where the player may make the move, whether or not the dice
-- then let the next turn begin within the fuel; the guards on the connection, on a move that stays and
-- on a capture of an own piece refuse nothing more.
pub make_move-IsAllowed :
    (rounds fuel : ℕ) (rand : ℕ → ℕ) (player : Role) (mv : Move) (m : Match)
    → IsMade (make_move rounds fuel rand player mv m) ↔ IsAllowed player mv m
make_move-IsAllowed rounds fuel rand player mv m =
    (make_move_sound rounds fuel rand player mv m, make_move_complete rounds fuel rand player mv m)
