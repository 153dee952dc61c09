-- ===== src/Plugins/Hmac.antt =====
-- src/plugins/game3ci/Game3CI.cpp: the comparison of two digests.
use algiz.Base.{
  ℕ, suc, ◌+◌, ◌*◌, ◌≡◌, refl, sym, ap, ap₂, subst, ◌∙◌, ◌↔◌, [], ◌∷◌, Option, none, some, Bool,
  true, false, if◌then◌else◌, length, ◌==◌, ==→eq, ==_refl, Bool-cases, inl, inr, arith,
}
use algiz.Base.Bytes.{Bytes}
use algiz.Base.Int.{ℤ, pos, ◌+ℤ◌, ◌-ℤ◌, eqb_ℤ}

-- The loop: one less for each equal byte, one more for each other.
unfoldable pub sum_loop : ℤ → Bytes → Bytes → ℤ
sum_loop sum [] two = sum
sum_loop sum one [] = sum
sum_loop sum (a ∷ one) (b ∷ two) =
    let less = sum_loop (sum -ℤ pos 1) one two in
    let more = sum_loop (sum +ℤ pos 1) one two in if a == b then less else more

-- `none` is the runtime_error. The sum is at most twice a length, so it does not wrap.
unfoldable pub compare_hmac : Bytes → Bytes → Option Bool
compare_hmac one two =
    if length one == length two
    then some (eqb_ℤ (sum_loop (pos (length one)) one two) (pos 0))
    else none

-- How many places differ.
abbrev differences : Bytes → Bytes → ℕ
differences [] two = 0
differences one [] = 0
differences (a ∷ one) (b ∷ two) = if a == b then differences one two else suc (differences one two)

less_one : (m n : ℕ) → m ≡ suc n → pos m -ℤ pos 1 ≡ pos n
unfolding ◌-ℤ◌
less_one m n h = ground arith

one_more : (n : ℕ) → pos n +ℤ pos 1 ≡ pos (suc n)
unfolding ◌+ℤ◌
one_more n = ground arith

sum_loop_lem :
    (one two : Bytes) (k : ℕ)
    → length one ≡ length two
    → sum_loop (pos (length one + k)) one two ≡ pos (k + 2 * differences one two)
unfolding sum_loop
sum_loop_lem [] [] k h = ap pos (omega arith)
sum_loop_lem [] (b ∷ two) k h = absurd (omega arith)
sum_loop_lem (a ∷ one) [] k h = absurd (omega arith)
sum_loop_lem (a ∷ one) (b ∷ two) k h = elim (Bool-cases (a == b)) [
  | inl e ↦
      rw (e, sum_loop)
        (ap (λ z. sum_loop z one two)
            (less_one (suc (length one) + k) (length one + k) (omega arith))
          ∙ sum_loop_lem one two k (omega arith))
  | inr e ↦
      rw (e, sum_loop)
        (ap (λ z. sum_loop z one two) (one_more (suc (length one) + k) ∙ ap pos (omega arith))
          ∙ (sum_loop_lem one two (suc (suc k)) (omega arith) ∙ ap pos (omega arith)))
]

differences-zero : (one two : Bytes) → length one ≡ length two → differences one two ≡ 0 → one ≡ two
differences-zero [] [] h d = refl
differences-zero [] (b ∷ two) h d = absurd (omega arith)
differences-zero (a ∷ one) [] h d = absurd (omega arith)
differences-zero (a ∷ one) (b ∷ two) h d = elim (Bool-cases (a == b)) [
  | inl e ↦ ap₂ ◌∷◌ (==→eq a b e) (differences-zero one two (omega arith) (ground arith))
  | inr e ↦ absurd (ground arith)
]

differences_same : (one : Bytes) → differences one one ≡ 0
differences_same [] = refl
differences_same (a ∷ one) = ground (arith, differences_same one)

eqb-zero : (n : ℕ) → eqb_ℤ (pos n) (pos 0) ≡ true → n ≡ 0
eqb-zero n h = ground arith

is_true : Option Bool → Bool
is_true none = false
is_true (some b) = b

compared :
    (one two : Bytes)
    → length one ≡ length two
    → compare_hmac one two ≡ some (eqb_ℤ (pos (2 * differences one two)) (pos 0))
unfolding compare_hmac
compared one two h =
    let zero_more : 0 + 2 * differences one two ≡ 2 * differences one two = omega arith in
    let e : pos (length one) ≡ pos (length one + 0) = ap pos (omega arith) in
    let same : (length one == length two) ≡ true =
      subst (λ n. (length one == n) ≡ true) h (==_refl (length one)) in
    rw same (
      ap (λ z. some (eqb_ℤ z (pos 0)))
        (ap (λ z. sum_loop z one two) e ∙ (sum_loop_lem one two 0 h ∙ ap pos zero_more)))

-- Two digests of one length are found equal exactly when they are: bytes that agree never make up for
-- bytes that differ.
pub compare_hmac_iff :
    (one two : Bytes) → length one ≡ length two → (compare_hmac one two ≡ some true) ↔ (one ≡ two)
unfolding is_true
compare_hmac_iff one two h = (
  λ found.
      let zero_sum : eqb_ℤ (pos (2 * differences one two)) (pos 0) ≡ true =
        ap is_true (sym (compared one two h) ∙ found) in
      let none_differ : 2 * differences one two ≡ 0 = eqb-zero (2 * differences one two) zero_sum in
      differences-zero one two h (omega arith),
  λ same.
      let none_differ : differences one two ≡ 0 =
        subst (λ s. differences one s ≡ 0) same (differences_same one) in
      compared one two h ∙ ap (λ n. some (eqb_ℤ (pos (2 * n)) (pos 0))) none_differ,
)
