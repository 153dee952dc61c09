-- ===== src/Http/Request/Params.antt =====
-- http/Request: `getPath`, `getParameters` and `pathWithParameters`.
pub mod RoundTrip
use algiz.Base.{
  ℕ, zero, suc, ◌+◌, ◌-◌, ◌≡◌, ◌≤◌, ◌<◌, refl, List, [], ◌∷◌, ◌++◌, Option, none, some, Bool, true,
  false, not, if◌then◌else◌, length, take, drop, arith,
}
use algiz.Base.Bytes.{Bytes, codes, find_byte, is_empty}
use algiz.Base.Map.{insert}
use algiz.Util.Url.{unescape}
use algiz.Http.Request.{Params, Outcome, ok, undefined, parse_error, ◌>>=◌}

-- `path.substr(0, path.find('?'))`.
unfoldable pub get_path : Bytes → Bytes
get_path path = elim (find_byte b'?' path) [ none ↦ path | some n ↦ take n path ]

abbrev pub decoded : Option Bytes → Outcome Bytes
decoded none = undefined
decoded (some s) = ok s

-- `add_parameter` for the text of one pair.
unfoldable pub add_parameter : Bytes → Params → Outcome Params
add_parameter [] parameters = ok parameters
add_parameter (c ∷ pair) parameters = elim (find_byte b'=' (c ∷ pair)) [
  | none ↦ do key ← decoded (unescape (c ∷ pair) true); ok (insert key [] parameters)
  | some equals ↦ do
    value ← decoded (unescape (drop (equals + 1) (c ∷ pair)) true)
    key ← decoded (unescape (take equals (c ∷ pair)) true)
    ok (insert key value parameters)
]

-- The loop over `&`: one round for each; a text of `n` bytes has at most `n`, so `n + 1` rounds do.
unfoldable pub parameters_loop : ℕ → Bytes → Params → Outcome Params
unfolding add_parameter
parameters_loop zero path parameters = undefined
parameters_loop (suc fuel) path parameters = elim (find_byte b'&' path) [
  | none ↦ add_parameter path parameters
  | some ampersand ↦ do
    more ← add_parameter (take ampersand path) parameters
    parameters_loop fuel (drop (ampersand + 1) path) more
]

unfoldable pub get_parameters : Bytes → Bool → Outcome Params
unfolding parameters_loop
get_parameters path false = parameters_loop (suc (length path)) path []
get_parameters path true = elim (find_byte b'?' path) [
  | none ↦ ok []
  | some mark ↦ parameters_loop (suc (length (drop (mark + 1) path))) (drop (mark + 1) path) []
]

print_rest : Bool → Params → Bytes
print_rest first [] = []
print_rest first ((key, value) ∷ rest) =
    (if first then b'?' else b'&') ∷ key
    ++ ((if is_empty value then [] else b'=' ∷ value) ++ print_rest false rest)

unfoldable pub path_with_parameters : Bytes → Params → Bytes
unfolding print_rest
path_with_parameters path parameters = path ++ print_rest true parameters
