-- ===== src/Util/Split/Condense.antt =====
-- util/Util: what `condense` leaves out of a split.
use algiz.Base.{
  ℕ, zero, suc, ◌+◌, ◌≡◌, refl, List, [], ◌∷◌, Option, none, some, true, false, length, drop, arith,
  Option-cases, inl, inr, if◌then◌else◌,
}
use algiz.Base.Bytes.{Bytes, find_text, is_empty}
use algiz.Util.Split.{split_loop, split_found, split}

-- The pieces that are not empty.
abbrev pub drop_empty : List Bytes → List Bytes
drop_empty [] = []
drop_empty (p ∷ ps) = if is_empty p then drop_empty ps else p ∷ drop_empty ps

abbrev pub behind_first : List Bytes → List Bytes
behind_first [] = []
behind_first (p ∷ ps) = p ∷ drop_empty ps

abbrev pub on_some : (List Bytes → List Bytes) → Option (List Bytes) → Option (List Bytes)
on_some f none = none
on_some f (some out) = some (f out)

loop_condense :
    (fuel : ℕ) (delimiter rest : Bytes)
    → split_loop fuel delimiter true rest
      ≡ on_some drop_empty (split_loop fuel delimiter false rest)
unfolding split_loop
loop_condense zero d rest = refl
loop_condense (suc fuel) d rest = elim (Option-cases (find_text d rest)) [
  | inl e ↦ rw (e, split_loop) (ground arith)
  | inr (n, e) ↦
      rw (e, split_loop) (ground (arith, loop_condense fuel d (drop (n + length d) rest)))
]

-- With `condense` the same pieces come out less the empty ones, but the first piece stays, also
-- where it is empty.
pub split_condense :
    (str delimiter : Bytes)
    → split str delimiter true ≡ on_some behind_first (split str delimiter false)
unfolding split split_found
split_condense [] d = refl
split_condense (c ∷ s) d = elim (Option-cases (find_text d (c ∷ s))) [
  | inl e ↦ rw (e, split_found) refl
  | inr (n, e) ↦
      rw (e, split_found)
        (ground (arith, loop_condense (suc (length (c ∷ s))) d (drop (n + length d) (c ∷ s))))
]
