-- ===== src/Chess/Moves/Rules.antt =====
-- plugins/probchess/piece: the rules of chess for the six kinds, without the lists of the code, and
-- `canMoveTo` compared with them.
pub mod Steps
pub mod Lists
pub mod Open
pub mod Pawn
use algiz.Base.{◌≡◌, ◌↔◌, List, [], ◌∷◌, map, inl, inr}
use algiz.Base.Int.{ℤ, pos, negsuc}
use algiz.Chess.Square.{Color, Square, shift}
use algiz.Chess.Board.{Board, Piece, Kind, bishop, king, knight, pawn, queen, rook}
use algiz.Chess.Moves.{
  can_move_to, candidates, king_squares, knight_squares, bishop_squares, rook_squares,
  queen_squares, up, down, left, right,
}
use algiz.Chess.Moves.Legal.{In, can_move_to-In}
use algiz.Chess.Moves.Rays.{IsReached}
use algiz.Chess.Moves.Rules.Open.{IsOpen, IsOpen-iff}
use algiz.Chess.Moves.Rules.Pawn.{IsPawnMove, pawn_In}
use algiz.Chess.Moves.Rules.Lists.{In-append, append-In, rays_In, shifted_In, rays}
use algiz.Chess.Moves.Rules.Steps.{
  IsStraight, IsDiagonal, IsStep, IsLeap, OneOf, around, leaps, IsStraight-iff, IsDiagonal-iff,
  IsStep-iff, IsLeap-iff,
}

abbrev pub Slides : (ℤ × ℤ → Type 0) → Board → Square → Square → Type 0
Slides IsWay board from s = (d : ℤ × ℤ) × IsWay d × IsReached board d from 7 s

abbrev pub Jumps : (ℤ × ℤ → Type 0) → Square → Square → Type 0
Jumps IsJump from s = (d : ℤ × ℤ) × IsJump d × (s ≡ shift from d)

abbrev pub IsRule : Board → Color → Kind → Square → Square → Type 0
IsRule board color king from s = Jumps IsStep from s
IsRule board color knight from s = Jumps IsLeap from s
IsRule board color rook from s = Slides IsStraight board from s
IsRule board color bishop from s = Slides IsDiagonal board from s
IsRule board color queen from s = Slides IsStep board from s
IsRule board color pawn from s = IsPawnMove board color from s

module _ (board : Board) (from s : Square) where
  Jumps-In :
      (IsJump : ℤ × ℤ → Type 0) (ds : List (ℤ × ℤ))
      → ((d : ℤ × ℤ) → IsJump d ↔ OneOf d ds)
      → In s (map (shift from) ds) ↔ Jumps IsJump from s
  Jumps-In IsJump ds those = (
    λ m. let (d, one, e) = (shifted_In from s ds).0 m in (d, (those d).1 one, e),
    λ (d, jump, e). (shifted_In from s ds).1 (d, (those d).0 jump, e),
  )

  Slides-In :
      (IsWay : ℤ × ℤ → Type 0) (d₀ : ℤ × ℤ) (ds : List (ℤ × ℤ))
      → ((d : ℤ × ℤ) → IsWay d ↔ OneOf d (d₀ ∷ ds))
      → In s (rays board from d₀ ds) ↔ Slides IsWay board from s
  Slides-In IsWay d₀ ds those = (
    λ m. let (d, one, e) = (rays_In board from s d₀ ds).0 m in (d, (those d).1 one, e),
    λ (d, way, e). (rays_In board from s d₀ ds).1 (d, (those d).0 way, e),
  )

  rook_In : In s (rook_squares board from) ↔ Slides IsStraight board from s
  unfolding rook_squares
  rook_In = Slides-In IsStraight up (down ∷ left ∷ right ∷ []) IsStraight-iff

  bishop_In : In s (bishop_squares board from) ↔ Slides IsDiagonal board from s
  unfolding bishop_squares
  bishop_In =
      Slides-In IsDiagonal (pos 1, pos 1)
        ((pos 1, negsuc 0) ∷ (negsuc 0, negsuc 0) ∷ (negsuc 0, pos 1) ∷ []) IsDiagonal-iff

  queen_In : In s (queen_squares board from) ↔ Slides IsStep board from s
  unfolding queen_squares
  queen_In = (
    λ m. elim (In-append s (bishop_squares board from) (rook_squares board from) m) [
      | inl k ↦ let (d, way, e) = bishop_In.0 k in (d, inl way, e)
      | inr k ↦ let (d, way, e) = rook_In.0 k in (d, inr way, e)
    ],
    λ (d, way, e).
        append-In s (bishop_squares board from) (rook_squares board from)
          (elim way [ inl w ↦ inl (bishop_In.1 (d, w, e)) | inr w ↦ inr (rook_In.1 (d, w, e)) ]),
  )

  candidates_In :
      (color : Color) (kind : Kind)
      → In s (candidates board color kind from) ↔ IsRule board color kind from s
  unfolding candidates king_squares knight_squares
  candidates_In color king = Jumps-In IsStep around IsStep-iff
  candidates_In color knight = Jumps-In IsLeap leaps IsLeap-iff
  candidates_In color rook = rook_In
  candidates_In color bishop = bishop_In
  candidates_In color queen = queen_In
  candidates_In color pawn = pawn_In board color from s

-- `canMoveTo` gives exactly the squares that the rules allow, castling and taking in passing apart: the
-- square is one of the 64 and empty or held by the other colour, and the piece comes there as its kind
-- does. A king comes one step in any of the eight directions, a knight one along one axis and two along the
-- other, a rook along a row or a column, a bishop along a diagonal and a queen along any of these, with
-- only empty squares between. A pawn comes one step ahead onto an empty square, two such steps from its
-- first row, or one step ahead and one aside where a piece is taken.
pub can_move_to_iff :
    (board : Board) (piece : Piece) (s : Square)
    → In s (can_move_to board piece)
      ↔ (IsRule board piece.color piece.kind piece.square s × IsOpen board piece.color s)
can_move_to_iff board piece s =
    let members = can_move_to-In board piece s in
    let rule = candidates_In board piece.square s piece.color piece.kind in
    let free = IsOpen-iff board piece.color s in
    (
      λ m. let (k, legal) = members.0 m in (rule.0 k, free.0 legal),
      λ (k, open_square). members.1 (rule.1 k, free.1 open_square),
    )
