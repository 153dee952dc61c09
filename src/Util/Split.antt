-- ===== src/Util/Split.antt =====
-- util/Util: `split` and the template `join`.
pub mod Join
pub mod Condense
use algiz.Base.{
  ℕ, zero, suc, ◌+◌, ◌≡◌, refl, List, [], ◌∷◌, ◌++◌, Option, none, some, Bool, true, false, not,
  ◌||◌, if◌then◌else◌, length, take, drop,
}
use algiz.Base.Bytes.{Bytes, find_text, is_empty, codes}

-- `if (!sub.empty() || !condense) out.push_back(sub)`.
abbrev pub keep : Bool → Bytes → List Bytes → List Bytes
keep condense sub out = if not (is_empty sub) || not condense then sub ∷ out else out

-- The loop, on the text behind the delimiter found last; `none` when the fuel runs out.
unfoldable pub split_loop : ℕ → Bytes → Bool → Bytes → Option (List Bytes)
split_loop zero delimiter condense rest = none
split_loop (suc fuel) delimiter condense rest = elim (find_text delimiter rest) [
  | none ↦ some (keep condense rest [])
  | some next ↦ elim (split_loop fuel delimiter condense (drop (next + length delimiter) rest)) [
    | none ↦ none
    | some out ↦ some (keep condense (take next rest) out)
  ]
]

abbrev prepend : Bytes → Option (List Bytes) → Option (List Bytes)
prepend piece none = none
prepend piece (some out) = some (piece ∷ out)

split_found : Bytes → Bytes → Bool → Option ℕ → Option (List Bytes)
split_found str delimiter condense none = some (str ∷ [])
split_found str delimiter condense (some next) =
    prepend (take next str)
      (split_loop (suc (length str)) delimiter condense (drop (next + length delimiter) str))

-- The fuel is the length of the text and one more round. The first piece is pushed whatever
-- `condense` says.
unfoldable pub split : Bytes → Bytes → Bool → Option (List Bytes)
unfolding split_loop split_found
split [] delimiter condense = some []
split (c ∷ str) delimiter condense =
    split_found (c ∷ str) delimiter condense (find_text delimiter (c ∷ str))

-- `join`: the delimiter before every item but the first.
unfoldable pub join_rest : List Bytes → Bytes → Bytes
join_rest [] delimiter = []
join_rest (item ∷ items) delimiter = delimiter ++ (item ++ join_rest items delimiter)

unfoldable pub join : List Bytes → Bytes → Bytes
unfolding join_rest
join [] delimiter = []
join (item ∷ items) delimiter = item ++ join_rest items delimiter
