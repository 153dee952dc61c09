-- ===== src/Util/Base64/Table.antt =====
-- util/Base64: the alphabet `CHARS` and its inverse, the array `t`.
use algiz.Base.{
  ℕ, ◌+◌, ◌<◌, ◌≡◌, refl, List, [], ◌∷◌, Option, none, some, arith, Bool, true, ◌==◌, replicate,
  set, get_elem?,
}
use algiz.Base.Finite.{passes, passes-at}
use algiz.Base.Bytes.{Bytes, codes}

abbrev pub chars : Bytes
chars = codes "ABCDEFGHIJKLMNOPQRSTUVWXYZabcdefghijklmnopqrstuvwxyz0123456789+/"

abbrev pub get_or : ℕ → Option ℕ → ℕ
get_or d none = d
get_or d (some n) = n

-- `CHARS[i]`; every index that the program uses is below 64.
unfoldable pub char_at : ℕ → ℕ
char_at i = get_or 0 (get_elem? chars i)

-- `out.fill(-1)`, then `out[CHARS[i]] = i` for each `i`; `none` is -1.
fill : ℕ → Bytes → List (Option ℕ) → List (Option ℕ)
fill i [] out = out
fill i (c ∷ rest) out = fill (i + 1) rest (set out c (some i))

abbrev entry : Option (Option ℕ) → Option ℕ
entry none = none
entry (some e) = e

-- `t[c]`.
unfoldable pub value_of : ℕ → Option ℕ
unfolding fill
value_of c = entry (get_elem? (fill 0 chars (replicate 256 none)) c)

same : ℕ → Option ℕ → Bool
same i none = i == 64
same i (some j) = i == j

inverse_table : passes (λ i. same i (value_of (char_at i))) 64 ≡ true
unfolding passes char_at value_of same
inverse_table = refl

same→eq : (i : ℕ) (o : Option ℕ) → i < 64 → same i o ≡ true → o ≡ some i
unfolding same
same→eq i none lt h = absurd (ground arith)
same→eq i (some j) lt h = ground arith

-- The array inverts the alphabet.
pub value_of-char_at : (i : ℕ) → i < 64 → value_of (char_at i) ≡ some i
value_of-char_at i lt =
    same→eq i (value_of (char_at i)) lt
      (passes-at (λ i. same i (value_of (char_at i))) 64 i lt inverse_table)

pub value_of_pad : value_of b'=' ≡ none
unfolding value_of
value_of_pad = refl
