-- ===== src/Base/Table.antt =====
-- `std::map<int, V>` as a function from its keys.
use algiz.Base.Tests.{◌==◌, if◌then◌else◌, ==→eq, ==_refl, Bool-cases}
use Prim.Native.Nat.{ℕ}
use mathlib.Core.Path.{◌≡◌, sym, ap, ◌∙◌, fun_ext}
use mathlib.Core.Logic.{◌≢◌, inl, inr}

abbrev pub Table {ℓ} : Type ℓ → Type ℓ
Table V = ℕ → V

abbrev pub update {ℓ} : {V : Type ℓ} → Table V → ℕ → V → Table V
update t k v j = if j == k then v else t j

module _ {ℓ} {V : Type ℓ} where
  pub update_self : (t : Table V) (k : ℕ) (v : V) → update t k v k ≡ v
  update_self t k v = ap (λ b. if b then v else t k) (==_refl k)

  pub update-other : (t : Table V) (k j : ℕ) (v : V) → j ≢ k → update t k v j ≡ t j
  update-other t k j v h = elim (Bool-cases (j == k)) [
    | inl e ↦ absurd (h (==→eq j k e))
    | inr e ↦ ap (λ b. if b then v else t j) e
  ]

  at_same : (t : Table V) (k j : ℕ) (v : V) → v ≡ t k → update t k v j ≡ t j
  at_same t k j v e = elim (Bool-cases (j == k)) [
    | inl h ↦ ap (λ b. if b then v else t j) h ∙ (e ∙ ap t (sym (==→eq j k h)))
    | inr h ↦ ap (λ b. if b then v else t j) h
  ]

  pub update_same : (t : Table V) (k : ℕ) (v : V) → v ≡ t k → update t k v ≡ t
  update_same t k v e = fun_ext (λ j. at_same t k j v e)

  at_twice : (t : Table V) (k j : ℕ) (u v : V) → update (update t k u) k v j ≡ update t k v j
  at_twice t k j u v = elim (Bool-cases (j == k)) [
    | inl h ↦ ap (λ b. if b then v else update t k u j) h ∙ sym (ap (λ b. if b then v else t j) h)
    | inr h ↦
        ap (λ b. if b then v else update t k u j) h
        ∙ (ap (λ b. if b then u else t j) h ∙ sym (ap (λ b. if b then v else t j) h))
  ]

  pub update-update : (t : Table V) (k : ℕ) (u v : V) → update (update t k u) k v ≡ update t k v
  update-update t k u v = fun_ext (λ j. at_twice t k j u v)
