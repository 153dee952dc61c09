-- ===== src/Chess/Moves/Rays.antt =====
-- plugins/probchess/piece/{Rook,Bishop}: how far a sliding piece reaches.
use algiz.Base.{
  ℕ, zero, suc, ◌≡◌, refl, sym, subst, ap, ◌∙◌, ◌↔◌, List, [], ◌∷◌, Option, none, some, Bool, true,
  false, arith, Bool-cases, Option-cases, inl, inr, ◌<◌,
}
use algiz.Base.Int.{ℤ}
use algiz.Chess.Square.{Square, off_board, shift}
use algiz.Chess.Board.{Board, Piece, at}
use algiz.Chess.Moves.{ray}
use algiz.Chess.Moves.Legal.{In}

-- `k` further steps from `s`.
abbrev pub steps : ℤ × ℤ → Square → ℕ → Square
steps d s zero = s
steps d s (suc k) = steps d (shift s d) k

-- The next `k` squares lie on the board and are empty.
abbrev pub IsClear : Board → ℤ × ℤ → Square → ℕ → Type 0
IsClear board d s zero = Unit
IsClear board d s (suc k) =
    (off_board (shift s d) ≡ false)
    × ((at board (shift s d) ≡ none) × IsClear board d (shift s d) k)

abbrev pub IsReached : Board → ℤ × ℤ → Square → ℕ → Square → Type 0
IsReached board d from n s =
    (k : ℕ) × ((k < n)
      × (IsClear board d from k
          × ((off_board (steps d from (suc k)) ≡ false) × (s ≡ steps d from (suc k)))))

-- One round of the loop, by what it finds.
abbrev round : ℕ → Board → ℤ × ℤ → Square → Bool → Option Piece → List Square
round n board d next true o = []
round n board d next false none = next ∷ ray n board d next
round n board d next false (some piece) = next ∷ []

ray-suc :
    (n : ℕ) (board : Board) (d : ℤ × ℤ) (from : Square)
    → ray (suc n) board d from
      ≡ round n board d (shift from d) (off_board (shift from d)) (at board (shift from d))
unfolding ray
ray-suc n board d from = elim (Bool-cases (off_board (shift from d))) [
  | inl e ↦ rw (e, ray) refl
  | inr e ↦ elim (Option-cases (at board (shift from d))) [
    | inl o ↦ rw (e, o, ray) refl
    | inr (piece, o) ↦ rw (e, o, ray) refl
  ]
]

ray-at :
    (n : ℕ) (board : Board) (d : ℤ × ℤ) (from : Square) {b : Bool} {o : Option Piece}
    → off_board (shift from d) ≡ b
    → at board (shift from d) ≡ o
    → ray (suc n) board d from ≡ round n board d (shift from d) b o
ray-at n board d from e f =
    ray-suc n board d from
    ∙ (ap (λ b. round n board d (shift from d) b (at board (shift from d))) e
        ∙ ap (round n board d (shift from d) _) f)

ray_sound :
    (n : ℕ) (board : Board) (d : ℤ × ℤ) (from s : Square)
    → In s (ray n board d from)
    → IsReached board d from n s
unfolding ray
ray_sound zero board d from s h = absurd h
ray_sound (suc n) board d from s h = elim (Bool-cases (off_board (shift from d))) [
  | inl e ↦ absurd (subst (In s) (ray-at n board d from e refl) h)
  | inr e ↦ elim (Option-cases (at board (shift from d))) [
    | inl o ↦ elim (subst (In s) (ray-at n board d from e o) h) [
      | inl st ↦ (0, (omega arith, (tt, (e, st))))
      | inr m ↦
          let (k, (hk, (clear, (on, eq)))) = ray_sound n board d (shift from d) s m in
          (suc k, (omega arith, ((e, (o, clear)), (on, eq))))
    ]
    | inr (piece, o) ↦ elim (subst (In s) (ray-at n board d from e o) h) [
      | inl st ↦ (0, (omega arith, (tt, (e, st))))
      | inr m ↦ absurd m
    ]
  ]
]

ray-first :
    (n : ℕ) (board : Board) (d : ℤ × ℤ) (from : Square)
    → off_board (shift from d) ≡ false
    → In (shift from d) (ray (suc n) board d from)
ray-first n board d from e = elim (Option-cases (at board (shift from d))) [
  | inl o ↦ subst (In (shift from d)) (sym (ray-at n board d from e o)) (inl refl)
  | inr (piece, o) ↦ subst (In (shift from d)) (sym (ray-at n board d from e o)) (inl refl)
]

ray_complete :
    (n : ℕ) (board : Board) (d : ℤ × ℤ) (from s : Square)
    → IsReached board d from n s
    → In s (ray n board d from)
ray_complete zero board d from s (k, (h, _)) = absurd (omega arith)
ray_complete (suc n) board d from s (zero, (h, (_, (on, eq)))) =
    subst (λ t. In t (ray (suc n) board d from)) (sym eq) (ray-first n board d from on)
ray_complete (suc n) board d from s (suc k, (h, ((e, (o, clear)), (on, eq)))) =
    subst (In s) (sym (ray-at n board d from e o))
      (inr (ray_complete n board d (shift from d) s (k, (omega arith, (clear, (on, eq))))))

-- A loop of `n` rounds in one direction finds exactly the squares on the board that are at most `n`
-- steps away with only empty squares of the board between.
pub ray-In :
    (n : ℕ) (board : Board) (d : ℤ × ℤ) (from s : Square)
    → In s (ray n board d from) ↔ IsReached board d from n s
ray-In n board d from s = (ray_sound n board d from s, ray_complete n board d from s)
