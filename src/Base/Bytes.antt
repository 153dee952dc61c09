-- ===== src/Base/Bytes.antt =====
-- Texts of the program as lists of bytes: `std::string` and `std::string_view`, and the searches
-- of them that the source calls.
use Prim.Native.Char.{code}
use Prim.Native.String.{String}
use algiz.Base.Tests.{◌==◌, if◌then◌else◌}
use algiz.Base.Lists.{length, take, drop, All}
use Prim.Native.Nat.{ℕ, zero, suc, ◌+◌, ◌≤◌, ◌<◌}
use mathlib.Core.Path.{◌≡◌, refl}
use mathlib.Core.Logic.{◌≢◌}
use mathlib.Core.Bool.{Bool, true, false, ◌&&◌}
use mathlib.Core.Option.{Option, none, some}
use mathlib.Core.List.{List, [], ◌∷◌, ◌++◌}
use native.Mathlib.Omega.{arith}

abbrev pub Bytes : Type 0
Bytes = List ℕ

-- The bytes of an ASCII literal.
abbrev pub codes : String → Bytes
codes String.[] = []
codes (String.◌∷◌ c s) = code c ∷ codes s

abbrev pub IsBytes : Bytes → Type 0
IsBytes = All (λ b. b < 256)

-- operator== of two texts.
abbrev pub beq : Bytes → Bytes → Bool
beq [] [] = true
beq [] (y ∷ ys) = false
beq (x ∷ xs) [] = false
beq (x ∷ xs) (y ∷ ys) = (x == y) && beq xs ys

abbrev pub is_empty : Bytes → Bool
is_empty [] = true
is_empty (x ∷ xs) = false

pub beq_refl : (s : Bytes) → beq s s ≡ true
beq_refl [] = refl
beq_refl (x ∷ s) = ground (arith, beq_refl s)

pub beq→eq : (s t : Bytes) → beq s t ≡ true → s ≡ t
beq→eq [] [] h = refl
beq→eq [] (y ∷ t) h = cc
beq→eq (x ∷ s) [] h = cc
beq→eq (x ∷ s) (y ∷ t) h = ground (arith, beq→eq s t)

pub ne→beq : (s t : Bytes) → s ≢ t → beq s t ≡ false
ne→beq [] [] h = absurd (h refl)
ne→beq [] (y ∷ t) h = refl
ne→beq (x ∷ s) [] h = refl
ne→beq (x ∷ s) (y ∷ t) h = ground (arith, beq→eq s t)

-- `starts_with`, and `substr(0, n) == prefix`.
abbrev pub starts_with : Bytes → Bytes → Bool
starts_with s [] = true
starts_with [] (p ∷ ps) = false
starts_with (c ∷ s) (p ∷ ps) = (c == p) && starts_with s ps

-- `find(char)`: `none` is `npos`.
abbrev pub succ? : Option ℕ → Option ℕ
succ? none = none
succ? (some n) = some (suc n)

unfoldable pub find_byte : ℕ → Bytes → Option ℕ
find_byte b [] = none
find_byte b (c ∷ s) = if c == b then some 0 else succ? (find_byte b s)

-- `find(text)`.
unfoldable pub find_text : Bytes → Bytes → Option ℕ
find_text p [] = if starts_with [] p then some 0 else none
find_text p (c ∷ s) = if starts_with (c ∷ s) p then some 0 else succ? (find_text p s)

abbrev pub Lacks : ℕ → Bytes → Type 0
Lacks b = All (λ c. c ≢ b)

pub find_byte-Lacks : (b : ℕ) (s : Bytes) → Lacks b s → find_byte b s ≡ none
unfolding find_byte
find_byte-Lacks b [] h = refl
find_byte-Lacks b (c ∷ s) (hc, hs) = ground (arith, find_byte-Lacks b s hs)

pub find_byte-append :
    (b : ℕ) (s t : Bytes) → Lacks b s → find_byte b (s ++ b ∷ t) ≡ some (length s)
unfolding find_byte
find_byte-append b [] t h = ground arith
find_byte-append b (c ∷ s) t (hc, hs) = ground (arith, find_byte-append b s t hs)

-- What a found position says: the text is cut at the first `b`.
pub find_byte-cut :
    (b : ℕ) (s : Bytes) (n : ℕ)
    → find_byte b s ≡ some n
    → (s ≡ take n s ++ b ∷ drop (suc n) s) × Lacks b (take n s) × (n < length s)
unfolding find_byte
find_byte-cut b [] n h = cc
find_byte-cut b (c ∷ s) zero h = ground arith
find_byte-cut b (c ∷ s) (suc n) h = ground (arith, find_byte-cut b s n)

pub starts_with-append : (s p : Bytes) → starts_with s p ≡ true → s ≡ p ++ drop (length p) s
starts_with-append s [] h = refl
starts_with-append [] (c ∷ p) h = cc
starts_with-append (b ∷ s) (c ∷ p) h = ground (arith, starts_with-append s p)

pub starts_with-le : (s p : Bytes) → starts_with s p ≡ true → length p ≤ length s
starts_with-le s [] h = omega arith
starts_with-le [] (c ∷ p) h = cc
starts_with-le (b ∷ s) (c ∷ p) h = ground (arith, starts_with-le s p)

pub starts_with_of_append : (p s : Bytes) → starts_with (p ++ s) p ≡ true
starts_with_of_append [] s = refl
starts_with_of_append (c ∷ p) s = ground (arith, starts_with_of_append p s)

-- A found position cuts the text around the pattern, and the pattern fits behind it.
pub find_text-cut :
    (p s : Bytes) (n : ℕ)
    → find_text p s ≡ some n
    → (s ≡ take n s ++ (p ++ drop (length p) (drop n s))) × (n + length p ≤ length s)
unfolding find_text
find_text-cut [] [] n h = ground arith
find_text-cut (b ∷ p) [] n h = ground arith
find_text-cut p (c ∷ s) zero h =
    ground (arith, starts_with-append (c ∷ s) p, starts_with-le (c ∷ s) p)
find_text-cut p (c ∷ s) (suc n) h = ground (arith, find_text-cut p s n)

-- Several pieces as one text.
abbrev pub flat : List Bytes → Bytes
flat [] = []
flat (s ∷ ss) = s ++ flat ss
