-- ===== src/Util/Split/Join.antt =====
-- util/Util: what `split` cuts, `join` puts together again.
use algiz.Base.{
  ℕ, zero, suc, ◌+◌, ◌<◌, ◌≡◌, refl, List, [], ◌∷◌, ◌++◌, some, false, length, take, drop, arith,
  ap, ◌∙◌, sym, append-nil, Option-cases, inl, inr, length-drop, drop-add,
}
use algiz.Base.Bytes.{Bytes, find_text, find_text-cut}
use algiz.Util.Split.{split_loop, split_found, split, join_rest, join}

-- The text behind a found delimiter.
rest_of :
    (p s : Bytes) (n : ℕ) → find_text p s ≡ some n → s ≡ take n s ++ (p ++ drop (n + length p) s)
rest_of p s n h =
    (find_text-cut p s n h).0 ∙ ap (λ t. take n s ++ (p ++ t)) (sym (drop-add n (length p) s))

-- With empty pieces kept, the loop is given fuel for every text that is not longer, and its pieces
-- spell the text.
loop_spells :
    (fuel : ℕ) (delimiter rest : Bytes)
    → 0 < length delimiter
    → length rest < fuel
    → (out : List Bytes) × (split_loop fuel delimiter false rest ≡ some out)
      × (join_rest out delimiter ≡ delimiter ++ rest)
unfolding split_loop join_rest
loop_spells zero d rest pos h = absurd (omega arith)
loop_spells (suc fuel) d rest pos h = elim (Option-cases (find_text d rest)) [
  | inl e ↦ (rest ∷ [], rw (e, split_loop) (ground arith), rw append-nil refl)
  | inr (n, e) ↦
      let (more, run, spell) =
        loop_spells fuel d (drop (n + length d) rest) pos
          (grind (arith, find_text-cut d rest n e, length-drop (n + length d) rest)) in
      (
        take n rest ∷ more,
        rw (e, split_loop, run) (ground arith),
        rw spell (ap (◌++◌ d) (sym (rest_of d rest n e))),
      )
]

-- Splitting at a delimiter that is not empty, with empty pieces kept, ends for every text, and
-- joining the pieces with the delimiter gives the text back.
pub join-split :
    (str delimiter : Bytes)
    → 0 < length delimiter
    → (pieces : List Bytes) × (split str delimiter false ≡ some pieces)
      × (join pieces delimiter ≡ str)
unfolding split split_found join
join-split [] d pos = ([], refl, refl)
join-split (c ∷ s) d pos = elim (Option-cases (find_text d (c ∷ s))) [
  | inl e ↦ ((c ∷ s) ∷ [], rw (e, split_found), unfold join_rest in append-nil (c ∷ s))
  | inr (n, e) ↦
      let (more, run, spell) =
        loop_spells (suc (length (c ∷ s))) d (drop (n + length d) (c ∷ s)) pos
          (grind (arith, length-drop (n + length d) (c ∷ s))) in
      (take n (c ∷ s) ∷ more, rw (e, split_found, run) refl, rw spell (sym (rest_of d (c ∷ s) n e)))
]
