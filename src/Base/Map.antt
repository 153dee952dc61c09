-- ===== src/Base/Map.antt =====
-- `std::map<std::string, V>` as an association list in the order of its keys, and its operations.
use algiz.Base.Tests.{ltb, ◌==◌, if◌then◌else◌}
use algiz.Base.Bytes.{Bytes, beq, beq_refl, beq→eq, ne→beq}
use mathlib.Core.Path.{◌≡◌}
use mathlib.Core.Logic.{◌≢◌}
use mathlib.Core.Bool.{Bool, true, false}
use mathlib.Core.Option.{Option, none, some}
use mathlib.Core.List.{List, [], ◌∷◌}
use native.Mathlib.Omega.{arith}

-- `std::less<std::string>`.
abbrev pub bytes_lt : Bytes → Bytes → Bool
bytes_lt [] [] = false
bytes_lt [] (y ∷ ys) = true
bytes_lt (x ∷ xs) [] = false
bytes_lt (x ∷ xs) (y ∷ ys) = if ltb x y then true else if x == y then bytes_lt xs ys else false

module _ {V : Type 0} where
  unfoldable pub lookup : Bytes → List (Bytes × V) → Option V
  lookup k [] = none
  lookup k ((j, v) ∷ m) = if beq j k then some v else lookup k m

  abbrev pub is_some : Option V → Bool
  is_some none = false
  is_some (some v) = true

  unfoldable pub contains : Bytes → List (Bytes × V) → Bool
  contains k m = is_some (lookup k m)

  -- `m[k] = v`.
  unfoldable pub insert : Bytes → V → List (Bytes × V) → List (Bytes × V)
  insert k v [] = (k, v) ∷ []
  insert k v ((j, w) ∷ m) =
      if beq j k
      then (k, v) ∷ m
      else if bytes_lt k j
      then (k, v) ∷ (j, w) ∷ m
      else (j, w) ∷ insert k v m

  -- `m.erase(k)`.
  unfoldable pub erase : Bytes → List (Bytes × V) → List (Bytes × V)
  erase k [] = []
  erase k ((j, v) ∷ m) = if beq j k then m else (j, v) ∷ erase k m

  pub lookup-insert_self :
      (k : Bytes) (v : V) (m : List (Bytes × V)) → lookup k (insert k v m) ≡ some v
  unfolding lookup insert
  lookup-insert_self k v [] = ground (arith, beq_refl k)
  lookup-insert_self k v ((j, w) ∷ m) = ground (arith, beq_refl k, lookup-insert_self k v m)

  pub lookup-insert_ne :
      (k j : Bytes) (v : V) (m : List (Bytes × V)) → k ≢ j → lookup j (insert k v m) ≡ lookup j m
  unfolding lookup insert
  lookup-insert_ne k j v [] h = ground (arith, ne→beq k j h)
  lookup-insert_ne k j v ((i, w) ∷ m) h =
      ground (arith, ne→beq k j h, beq→eq i k, beq→eq i j, lookup-insert_ne k j v m h)
