-- ===== src/Chess/Moves/Rules/Pawn.antt =====
-- plugins/probchess/piece/Pawn: the moves of a pawn, as a rule.
use algiz.Base.{
  ◌≡◌, refl, sym, subst, ap, ◌∙◌, ◌↔◌, ◌⊎◌, List, [], ◌∷◌, ◌++◌, Option, none, some, Bool, true,
  false, arith, inl, inr, if◌then◌else◌,
}
use algiz.Base.Int.{ℤ, pos, negsuc, eqb_ℤ}
use algiz.Chess.Square.{Color, black, white, Square, shift}
use algiz.Chess.Board.{Board, Piece, at}
use algiz.Chess.Moves.{pawn_squares, is_free, if_free, if_taken, left, right}
use algiz.Chess.Equality.{eqb-eq, eqb_refl}
use algiz.Chess.Moves.Legal.{In}
use algiz.Chess.Moves.Rules.Lists.{In-append, append-In}
use algiz.Chess.Moves.Rules.Steps.{mag, signs}

-- One step ahead of a pawn, and the row on which it may take two.
abbrev ahead : Color → Square → Square
ahead white s = shift s (negsuc 0, pos 0)
ahead black s = shift s (pos 1, pos 0)

abbrev first_row : Color → ℤ
first_row white = pos 6
first_row black = pos 1

abbrev beside : Square → ℤ → Square
beside s columns = shift s (pos 0, columns)

-- A pawn steps ahead onto an empty square, takes two such steps from its first row, or captures beside
-- the square ahead.
abbrev pub IsPawnMove : Board → Color → Square → Square → Type 0
IsPawnMove board color from s =
    ((s ≡ ahead color from) × (at board s ≡ none))
    ⊎ (((s ≡ ahead color (ahead color from))
          × (at board s ≡ none)
          × (from.row ≡ first_row color)
          × (at board (ahead color from) ≡ none))
        ⊎ ((columns : ℤ) × (mag columns ≡ 1)
            × (s ≡ beside (ahead color from) columns)
            × (other : Piece) × (at board s ≡ some other)))

free_In :
    (o : Option Piece) (s n : Square) (more : List Square)
    → In s (if is_free o then n ∷ more else []) ↔ ((o ≡ none) × ((s ≡ n) ⊎ In s more))
free_In none s n more = (λ h. (refl, h), λ (e, h). h)
free_In (some p) s n more = (λ h. absurd h, λ (e, h). absurd (ground arith))

taken_In :
    (o : Option Piece) (s n : Square)
    → In s (if is_free o then [] else n ∷ []) ↔ ((s ≡ n) × (other : Piece) × (o ≡ some other))
taken_In none s n = (λ h. absurd h, λ (e, other, h). absurd (ground arith))
taken_In (some p) s n =
    (λ h. elim h [ inl e ↦ (e, p, refl) | inr k ↦ absurd k ], λ (e, other, h). inl e)

-- The same for any square ahead, any square behind it and any test of the row.
abbrev IsAdvance : Board → Square → Square → Type 0 → Square → Type 0
IsAdvance board next second Start s =
    ((s ≡ next) × (at board s ≡ none))
    ⊎ (((s ≡ second) × (at board s ≡ none) × Start × (at board next ≡ none))
        ⊎ ((columns : ℤ) × (mag columns ≡ 1)
            × (s ≡ beside next columns)
            × (other : Piece) × (at board s ≡ some other)))

module _ (board : Board) (s next second : Square) (row home : ℤ) where
  abbrev advance : List Square
  advance = if_free board next (if eqb_ℤ row home then if_free board second [] else [])

  abbrev captures : List Square
  captures = if_taken board (shift next left) ++ if_taken board (shift next right)

  Rule : Type 0
  Rule = IsAdvance board next second (row ≡ home) s

  at_same : {n : Square} {o : Option Piece} → s ≡ n → at board n ≡ o → at board s ≡ o
  at_same e h = ap (at board) e ∙ h

  second_sound :
      (b : Bool)
      → eqb_ℤ row home ≡ b
      → at board next ≡ none
      → In s (if b then if_free board second [] else [])
      → Rule
  unfolding Rule
  second_sound true h free m =
      let (n, one) = (free_In (at board second) s second []).0 m in
      elim one [ inl e ↦ inr (inl (e, at_same e n, eqb-eq row home h, free)) | inr k ↦ absurd k ]
  second_sound false h free m = absurd m

  advance_sound : In s advance → Rule
  unfolding Rule
  advance_sound m =
      let (free, one) = (free_In (at board next) s next _).0 m in
      elim one [
        | inl e ↦ inl (e, at_same e free)
        | inr k ↦ second_sound (eqb_ℤ row home) refl free k
      ]

  capture_sound :
      (columns : ℤ) → mag columns ≡ 1 → In s (if_taken board (beside next columns)) → Rule
  unfolding Rule
  capture_sound columns h m =
      let (e, other, taken) =
        (taken_In (at board (beside next columns)) s (beside next columns)).0 m in
      inr (inr (columns, h, e, other, at_same e taken))

  sound : In s (advance ++ captures) → Rule
  sound m = elim (In-append s advance captures m) [
    | inl k ↦ advance_sound k
    | inr k ↦ elim (In-append s (if_taken board (shift next left)) _ k) [
      | inl l ↦ capture_sound (negsuc 0) refl l
      | inr l ↦ capture_sound (pos 1) refl l
    ]
  ]

  at_that : {n : Square} {o : Option Piece} → s ≡ n → at board s ≡ o → at board n ≡ o
  at_that e h = sym (ap (at board) e) ∙ h

  second_complete :
      s ≡ second
      → at board s ≡ none
      → row ≡ home
      → In s (if eqb_ℤ row home then if_free board second [] else [])
  second_complete e free start =
      let on : eqb_ℤ row home ≡ true = subst (λ h. eqb_ℤ row h ≡ true) start (eqb_refl row) in
      subst (λ b. In s (if b then if_free board second [] else [])) (sym on)
        ((free_In (at board second) s second []).1 (at_that e free, inl e))

  captured :
      (columns : ℤ) (other : Piece)
      → s ≡ beside next columns
      → at board s ≡ some other
      → In s (if_taken board (beside next columns))
  captured columns other e taken =
      (taken_In (at board (beside next columns)) s (beside next columns)).1
        (e, other, at_that e taken)

  complete : Rule → In s (advance ++ captures)
  unfolding Rule
  complete (inl (e, free)) =
      append-In s advance captures
        (inl ((free_In (at board next) s next _).1 (at_that e free, inl e)))
  complete (inr (inl (e, free, start, way))) =
      append-In s advance captures
        (inl ((free_In (at board next) s next _).1 (way, inr (second_complete e free start))))
  complete (inr (inr (columns, h, e, other, taken))) = append-In s advance captures (
      inr (
        append-In s (if_taken board (shift next left)) (if_taken board (shift next right))
          (elim (signs 0 columns h) [
            | inl p ↦ inr (captured (pos 1) other (e ∙ ap (beside next) p) taken)
            | inr n ↦ inl (captured (negsuc 0) other (e ∙ ap (beside next) n) taken)
          ])))

pub pawn_In :
    (board : Board) (color : Color) (from s : Square)
    → In s (pawn_squares board color from) ↔ IsPawnMove board color from s
unfolding pawn_squares Rule
pawn_In board white from s =
    let next = ahead white from in
    let second = ahead white next in
    (sound board s next second from.row (pos 6), complete board s next second from.row (pos 6))
pawn_In board black from s =
    let next = ahead black from in
    let second = ahead black next in
    (sound board s next second from.row (pos 1), complete board s next second from.row (pos 1))
