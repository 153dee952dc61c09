-- ===== src/Http/Request.antt =====
-- http/Request: the state of a request that is being read, and how its calls end.
pub mod Auth
pub mod Params
pub mod Ranges
pub mod Lines
pub mod Failed
use algiz.Base.{ℕ, ◌≡◌, refl, List, [], ◌∷◌, Bool, true, false}
use algiz.Base.Bytes.{Bytes, codes}
use algiz.Util.Numbers

pub data Mode : Type 0 where
  reading_method reading_headers reading_content : Mode

pub data Method : Type 0 where
  invalid get head put post : Method

pub data HandleResult : Type 0 where
  continue disable_line_mode done : HandleResult

-- `undefined` is a call that reads out of range or reads a variable that no one has written.
pub data Outcome {ℓ} (A : Type ℓ) : Type ℓ where
  ok : A → Outcome A
  parse_error : Outcome A
  unsupported_method : Outcome A
  undefined : Outcome A

infixl 5 ◌>>=◌
abbrev pub ◌>>=◌ {ℓ κ} : {A : Type ℓ} {B : Type κ} → Outcome A → (A → Outcome B) → Outcome B
ok a >>= f = f a
parse_error >>= f = parse_error
unsupported_method >>= f = unsupported_method
undefined >>= f = undefined

abbrev pub Params : Type 0
Params = List (Bytes × Bytes)

-- `std::tuple<size_t, size_t>`: both ends.
abbrev pub Span : Type 0
Span = ℕ × ℕ

pub record Request : Type 0 where
  pub mode : Mode
  pub content_length : ℕ
  pub length_remaining : ℕ
  pub method : Method
  pub path : Bytes
  pub version : Bytes
  pub content : Bytes
  pub headers : Params
  pub parameters : Params
  pub post_parameters : Params
  pub ranges : List Span
  pub suffix_length : ℕ

unfoldable pub fresh : Request
fresh = record {
  mode = reading_method;
  content_length = 0;
  length_remaining = 0;
  method = invalid;
  path = [];
  version = [];
  content = [];
  headers = [];
  parameters = [];
  post_parameters = [];
  ranges = [];
  suffix_length = 0;
}

-- `parseUlong` of a view, with `std::invalid_argument` turned into a `ParseError`.
unfoldable pub parse_number : Bytes → Outcome ℕ
parse_number view = elim (Numbers.parse_ulong_view view) [
  | Numbers.Parsed.ok n ↦ ok n
  | Numbers.Parsed.invalid_argument ↦ parse_error
  | Numbers.Parsed.unspecified ↦ undefined
]
