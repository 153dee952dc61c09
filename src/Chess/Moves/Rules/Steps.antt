-- ===== src/Chess/Moves/Rules/Steps.antt =====
-- plugins/probchess/piece: the directions of the loops and lists of the code, as rules.
use algiz.Base.{
  ℕ, suc, ◌≡◌, refl, sym, subst, ap, ap₂, ◌↔◌, ◌⊎◌, List, [], ◌∷◌, All, arith, inl, inr,
}
use algiz.Base.Int.{ℤ, pos, negsuc}
use algiz.Chess.Moves.{up, down, left, right}

-- How far, whatever the side.
abbrev pub mag : ℤ → ℕ
mag (pos n) = n
mag (negsuc n) = suc n

abbrev pub IsStraight : ℤ × ℤ → Type 0
IsStraight (rows, columns) =
    ((mag rows ≡ 1) × (mag columns ≡ 0)) ⊎ ((mag rows ≡ 0) × (mag columns ≡ 1))

abbrev pub IsDiagonal : ℤ × ℤ → Type 0
IsDiagonal (rows, columns) = (mag rows ≡ 1) × (mag columns ≡ 1)

abbrev pub IsStep : ℤ × ℤ → Type 0
IsStep d = IsDiagonal d ⊎ IsStraight d

abbrev pub IsLeap : ℤ × ℤ → Type 0
IsLeap (rows, columns) = ((mag rows ≡ 1) × (mag columns ≡ 2)) ⊎ ((mag rows ≡ 2) × (mag columns ≡ 1))

abbrev pub OneOf : ℤ × ℤ → List (ℤ × ℤ) → Type 0
OneOf d [] = ⊥
OneOf d (e ∷ ds) = (d ≡ e) ⊎ OneOf d ds

of_all : (P : ℤ × ℤ → Type 0) (ds : List (ℤ × ℤ)) (d : ℤ × ℤ) → All P ds → OneOf d ds → P d
of_all P [] d all h = absurd h
of_all P (e ∷ ds) d (p, all) (inl h) = subst P (sym h) p
of_all P (e ∷ ds) d (p, all) (inr h) = of_all P ds d all h

nil : (z : ℤ) → mag z ≡ 0 → z ≡ pos 0
nil (pos n) h = ap pos h
nil (negsuc n) h = absurd (omega arith)

pub signs : (k : ℕ) (z : ℤ) → mag z ≡ suc k → (z ≡ pos (suc k)) ⊎ (z ≡ negsuc k)
signs k (pos n) h = inl (ap pos h)
signs k (negsuc n) h = inr (ap negsuc (omega arith))

abbrev both : {r r' c c' : ℤ} → r ≡ r' → c ≡ c' → ◌≡◌ {A = ℤ × ℤ} (r, c) (r', c')
both h k = ap₂ (λ (r c : ℤ). (r, c)) h k

abbrev pub straight : List (ℤ × ℤ)
straight = up ∷ down ∷ left ∷ right ∷ []

abbrev pub diagonal : List (ℤ × ℤ)
diagonal = (pos 1, pos 1) ∷ (pos 1, negsuc 0) ∷ (negsuc 0, negsuc 0) ∷ (negsuc 0, pos 1) ∷ []

abbrev pub around : List (ℤ × ℤ)
around =
    (negsuc 0, pos 0)
    ∷ (negsuc 0, pos 1)
    ∷ (pos 0, pos 1)
    ∷ (pos 1, pos 1)
    ∷ (pos 1, pos 0)
    ∷ (pos 1, negsuc 0)
    ∷ (pos 0, negsuc 0)
    ∷ (negsuc 0, negsuc 0)
    ∷ []

abbrev pub leaps : List (ℤ × ℤ)
leaps =
    (negsuc 1, negsuc 0)
    ∷ (negsuc 1, pos 1)
    ∷ (negsuc 0, pos 2)
    ∷ (pos 1, pos 2)
    ∷ (pos 2, pos 1)
    ∷ (pos 2, negsuc 0)
    ∷ (pos 1, negsuc 1)
    ∷ (negsuc 0, negsuc 1)
    ∷ []

pub IsStraight-iff : (d : ℤ × ℤ) → IsStraight d ↔ OneOf d straight
IsStraight-iff d = (
  there d,
  of_all IsStraight straight d
      (inl (refl, refl), (inl (refl, refl), (inr (refl, refl), (inr (refl, refl), tt)))),
)
  where
    there : (d : ℤ × ℤ) → IsStraight d → OneOf d straight
    there (r, c) (inl (h, k)) = elim (signs 0 r h) [
      | inl e ↦ inr (inl (both e (nil c k)))
      | inr e ↦ inl (both e (nil c k))
    ]
    there (r, c) (inr (h, k)) = elim (signs 0 c k) [
      | inl e ↦ inr (inr (inr (inl (both (nil r h) e))))
      | inr e ↦ inr (inr (inl (both (nil r h) e)))
    ]

pub IsDiagonal-iff : (d : ℤ × ℤ) → IsDiagonal d ↔ OneOf d diagonal
IsDiagonal-iff d = (
  there d,
  of_all IsDiagonal diagonal d ((refl, refl), ((refl, refl), ((refl, refl), ((refl, refl), tt)))),
)
  where
    there : (d : ℤ × ℤ) → IsDiagonal d → OneOf d diagonal
    there (r, c) (h, k) = elim (signs 0 r h) [
      | inl e ↦ elim (signs 0 c k) [ inl f ↦ inl (both e f) | inr f ↦ inr (inl (both e f)) ]
      | inr e ↦ elim (signs 0 c k) [
        | inl f ↦ inr (inr (inr (inl (both e f))))
        | inr f ↦ inr (inr (inl (both e f)))
      ]
    ]

pub IsStep-iff : (d : ℤ × ℤ) → IsStep d ↔ OneOf d around
IsStep-iff d = (
  there d,
  of_all IsStep around d (
    inr (inl (refl, refl)),
    (
      inl (refl, refl),
      (
        inr (inr (refl, refl)),
        (
          inl (refl, refl),
          (
            inr (inl (refl, refl)),
            (inl (refl, refl), (inr (inr (refl, refl)), (inl (refl, refl), tt))),
          ),
        ),
      ),
    ),
  ),
)
  where
    there : (d : ℤ × ℤ) → IsStep d → OneOf d around
    there (r, c) (inl (h, k)) = elim (signs 0 r h) [
      | inl e ↦ elim (signs 0 c k) [
        | inl f ↦ inr (inr (inr (inl (both e f))))
        | inr f ↦ inr (inr (inr (inr (inr (inl (both e f))))))
      ]
      | inr e ↦ elim (signs 0 c k) [
        | inl f ↦ inr (inl (both e f))
        | inr f ↦ inr (inr (inr (inr (inr (inr (inr (inl (both e f))))))))
      ]
    ]
    there (r, c) (inr (inl (h, k))) = elim (signs 0 r h) [
      | inl e ↦ inr (inr (inr (inr (inl (both e (nil c k))))))
      | inr e ↦ inl (both e (nil c k))
    ]
    there (r, c) (inr (inr (h, k))) = elim (signs 0 c k) [
      | inl e ↦ inr (inr (inl (both (nil r h) e)))
      | inr e ↦ inr (inr (inr (inr (inr (inr (inl (both (nil r h) e)))))))
    ]

pub IsLeap-iff : (d : ℤ × ℤ) → IsLeap d ↔ OneOf d leaps
IsLeap-iff d = (
  there d,
  of_all IsLeap leaps d (
    inr (refl, refl),
    (
      inr (refl, refl),
      (
        inl (refl, refl),
        (
          inl (refl, refl),
          (inr (refl, refl), (inr (refl, refl), (inl (refl, refl), (inl (refl, refl), tt)))),
        ),
      ),
    ),
  ),
)
  where
    there : (d : ℤ × ℤ) → IsLeap d → OneOf d leaps
    there (r, c) (inl (h, k)) = elim (signs 0 r h) [
      | inl e ↦ elim (signs 1 c k) [
        | inl f ↦ inr (inr (inr (inl (both e f))))
        | inr f ↦ inr (inr (inr (inr (inr (inr (inl (both e f)))))))
      ]
      | inr e ↦ elim (signs 1 c k) [
        | inl f ↦ inr (inr (inl (both e f)))
        | inr f ↦ inr (inr (inr (inr (inr (inr (inr (inl (both e f))))))))
      ]
    ]
    there (r, c) (inr (h, k)) = elim (signs 1 r h) [
      | inl e ↦ elim (signs 0 c k) [
        | inl f ↦ inr (inr (inr (inr (inl (both e f)))))
        | inr f ↦ inr (inr (inr (inr (inr (inl (both e f))))))
      ]
      | inr e ↦ elim (signs 0 c k) [ inl f ↦ inr (inl (both e f)) | inr f ↦ inl (both e f) ]
    ]
