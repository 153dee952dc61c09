-- ===== src/Chess/Moves/Rules/Lists.antt =====
-- plugins/probchess/piece: what the lists and loops of the code hold, by the directions they go.
use algiz.Base.{◌≡◌, refl, subst, ap, ◌∙◌, ◌↔◌, ◌⊎◌, List, [], ◌∷◌, ◌++◌, map, inl, inr}
use algiz.Base.Int.{ℤ}
use algiz.Chess.Square.{Square, shift}
use algiz.Chess.Board.{Board}
use algiz.Chess.Moves.{ray}
use algiz.Chess.Moves.Legal.{In}
use algiz.Chess.Moves.Rays.{IsReached, ray-In}
use algiz.Chess.Moves.Rules.Steps.{OneOf}

pub In-append : (s : Square) (a b : List Square) → In s (a ++ b) → In s a ⊎ In s b
In-append s [] b h = inr h
In-append s (t ∷ a) b (inl e) = inl (inl e)
In-append s (t ∷ a) b (inr h) = elim (In-append s a b h) [ inl m ↦ inl (inr m) | inr m ↦ inr m ]

pub append-In : (s : Square) (a b : List Square) → In s a ⊎ In s b → In s (a ++ b)
append-In s [] b (inl h) = absurd h
append-In s [] b (inr h) = h
append-In s (t ∷ a) b (inl (inl e)) = inl e
append-In s (t ∷ a) b (inl (inr h)) = inr (append-In s a b (inl h))
append-In s (t ∷ a) b (inr h) = inr (append-In s a b (inr h))

-- A list of shifts is what it reaches by one of them.
pub shifted_In :
    (from s : Square) (ds : List (ℤ × ℤ))
    → In s (map (shift from) ds) ↔ ((d : ℤ × ℤ) × OneOf d ds × (s ≡ shift from d))
shifted_In from s ds = (reaches ds, λ (d, m, e). reached ds d m e)
  where
    reaches :
        (ds : List (ℤ × ℤ))
        → In s (map (shift from) ds)
        → (d : ℤ × ℤ) × OneOf d ds × (s ≡ shift from d)
    reaches [] h = absurd h
    reaches (d ∷ ds) (inl e) = (d, inl refl, e)
    reaches (d ∷ ds) (inr h) = let (d', m, e) = reaches ds h in (d', inr m, e)

    reached :
        (ds : List (ℤ × ℤ)) (d : ℤ × ℤ) → OneOf d ds → s ≡ shift from d → In s (map (shift from) ds)
    reached [] d h e = absurd h
    reached (d' ∷ ds) d (inl h) e = inl (e ∙ ap (shift from) h)
    reached (d' ∷ ds) d (inr h) e = inr (reached ds d h e)

-- The loops in the given directions, one after the other.
abbrev pub rays : Board → Square → ℤ × ℤ → List (ℤ × ℤ) → List Square
rays board from d [] = ray 7 board d from
rays board from d (d' ∷ ds) = ray 7 board d from ++ rays board from d' ds

pub rays_In :
    (board : Board) (from s : Square) (d₀ : ℤ × ℤ) (ds : List (ℤ × ℤ))
    → In s (rays board from d₀ ds) ↔ ((d : ℤ × ℤ) × OneOf d (d₀ ∷ ds) × IsReached board d from 7 s)
rays_In board from s d₀ ds = (reaches d₀ ds, λ (d, m, e). reached d₀ ds d m e)
  where
    reaches :
        (d₀ : ℤ × ℤ) (ds : List (ℤ × ℤ))
        → In s (rays board from d₀ ds)
        → (d : ℤ × ℤ) × OneOf d (d₀ ∷ ds) × IsReached board d from 7 s
    reaches d₀ [] h = (d₀, inl refl, (ray-In 7 board d₀ from s).0 h)
    reaches d₀ (d₁ ∷ ds) h = elim (In-append s (ray 7 board d₀ from) (rays board from d₁ ds) h) [
      | inl m ↦ (d₀, inl refl, (ray-In 7 board d₀ from s).0 m)
      | inr m ↦ let (d, one, e) = reaches d₁ ds m in (d, inr one, e)
    ]

    at_first : (d₀ d : ℤ × ℤ) → d ≡ d₀ → IsReached board d from 7 s → In s (ray 7 board d₀ from)
    at_first d₀ d h e = (ray-In 7 board d₀ from s).1 (subst (λ d. IsReached board d from 7 s) h e)

    reached :
        (d₀ : ℤ × ℤ) (ds : List (ℤ × ℤ)) (d : ℤ × ℤ)
        → OneOf d (d₀ ∷ ds)
        → IsReached board d from 7 s
        → In s (rays board from d₀ ds)
    reached d₀ [] d (inl h) e = at_first d₀ d h e
    reached d₀ [] d (inr h) e = absurd h
    reached d₀ (d₁ ∷ ds) d (inl h) e =
        append-In s (ray 7 board d₀ from) (rays board from d₁ ds) (inl (at_first d₀ d h e))
    reached d₀ (d₁ ∷ ds) d (inr h) e =
        append-In s (ray 7 board d₀ from) (rays board from d₁ ds) (inr (reached d₁ ds d h e))
