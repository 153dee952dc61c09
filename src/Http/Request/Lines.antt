-- ===== src/Http/Request/Lines.antt =====
-- http/Request: `handleLine`, `absorbPOST` and `getHeader`. The fields of the client that the calls
-- change stand beside the request; the option `postMax` of a path is an argument.
pub mod Body
pub mod Head
use algiz.Base.{
  ℕ, zero, suc, ◌+◌, ◌-◌, ◌^◌, ◌≡◌, ◌≤◌, ◌<◌, refl, List, [], ◌∷◌, ◌++◌, Option, none, some, Bool,
  true, false, not, ◌&&◌, ◌||◌, if◌then◌else◌, length, take, drop, arith, ltb, ◌==◌,
}
use algiz.Base.Bytes.{Bytes, codes, find_byte, find_text, is_empty, beq}
use algiz.Base.Map.{lookup, contains, insert}
use algiz.Util.Case.{to_lower}
use algiz.Http.Request.{
  Request, Mode, reading_method, reading_headers, reading_content, Method, invalid, get, head, put,
  post, HandleResult, continue, disable_line_mode, done, Outcome, ok, undefined, parse_error,
  unsupported_method, ◌>>=◌, parse_number, Params,
}
use algiz.Http.Request.Params.{get_path, get_parameters}
use algiz.Http.Request.Ranges.{parse_range}

-- The request, `client.maxRead` and `client.keepAlive`.
pub record Conn : Type 0 where
  pub request : Request
  pub max_read : ℕ
  pub keep_alive : Bool

abbrev pub Step : Type 0
Step = HandleResult × Conn

-- POST_MAX of Options.h.
abbrev pub post_max_default : ℕ
post_max_default = 2 ^ 24

-- `line.remove_suffix(1)` where the line ends in the byte.
unfoldable pub drop_suffix : ℕ → Bytes → Bytes
drop_suffix b [] = []
drop_suffix b (c ∷ []) = if c == b then [] else c ∷ []
drop_suffix b (c ∷ d ∷ s) = c ∷ drop_suffix b (d ∷ s)

unfoldable pub read_method : Bytes → Outcome Method
read_method word =
    if beq word (codes "GET")
    then ok get
    else if beq word (codes "HEAD")
    then ok head
    else if beq word (codes "PUT")
    then ok put
    else if beq word (codes "POST")
    then ok post
    else unsupported_method

-- The part of the method line behind the method.
unfoldable pub target_line : Conn → Method → Bytes → Outcome Step
target_line c m line = elim (find_byte b' ' line) [
  | none ↦ parse_error
  | some next_space ↦ do
    parameters ← get_parameters (take next_space line) true
    let version = drop (next_space + 1) line
    if not (beq version (codes "HTTP/1.1")) && not (beq version (codes "HTTP/1.0"))
        then parse_error
        else ok (
          continue,
          record c {
            request = record (c.request) {
              method = m;
              path = get_path (take next_space line);
              parameters = parameters;
              version = version;
              mode = reading_headers;
            };
          },
        )
]

unfoldable pub method_line : Conn → Bytes → Outcome Step
unfolding target_line read_method
method_line c line = elim (find_byte b' ' line) [
  | none ↦ parse_error
  | some first_space ↦ do
    m ← read_method (take first_space line)
    target_line c m (drop (first_space + 1) line)
]

-- A header that is there already gets the new content behind a space, or alone if it was empty.
abbrev pub combined : Option Bytes → Bytes → Bytes
combined none new = new
combined (some old) new = if is_empty old then new else old ++ b' ' ∷ new

unfoldable pub add_header : Bytes → Bytes → Params → Params
add_header name new headers = insert name (combined (lookup name headers) new) headers

abbrev pub is_post : Method → Bool
is_post invalid = false
is_post get = false
is_post head = false
is_post put = false
is_post post = true

-- What the options of a path say of the longest content: nothing, a number, or that the path is outside
-- the web root.
pub data PostMax : Type 0 where
  unset : PostMax
  limit : ℕ → PostMax
  outside : PostMax

-- The comparison with the option; the exception for a path outside the web root becomes a ParseError.
abbrev too_long : PostMax → ℕ → Outcome Bool
too_long unset n = ok (ltb post_max_default n)
too_long (limit most) n = ok (ltb most n)
too_long outside n = parse_error

-- The three headers that change the state, told by their exact spelling.
unfoldable pub special_header : (Bytes → PostMax) → Conn → Bytes → Bytes → Outcome Conn
special_header post_max c name value =
    if beq name (codes "Content-Length")
    then (do
      n ← parse_number value
      refused ← if is_post c.request.method then too_long (post_max c.request.path) n else ok false
      if refused
          then parse_error
          else ok (record c {
            request = record (c.request) { length_remaining = n; content_length = n };
          }))
    else if beq name (codes "Range")
    then (do r ← parse_range value c.request; ok (record c { request = r }))
    else if beq name (codes "Connection")
    then ok (record c { keep_alive = not (beq value (codes "close")) })
    else ok c

unfoldable pub header_line : (Bytes → PostMax) → Conn → Bytes → Outcome Step
header_line post_max c line = elim (find_text (codes ": ") line) [
  | none ↦ parse_error
  | some separator ↦ do
    let name = take separator line
    let value = drop (separator + 2) line
    c' ←
        special_header post_max
          (record c {
            request = record (c.request) {
              headers = add_header (to_lower name) value c.request.headers;
            };
          })
          name value
    ok (continue, c')
]

-- `absorbPOST`: the content becomes parameters, unless its type says that it is something else.
unfoldable pub absorbs : Option Bytes → Bool
absorbs none = true
absorbs (some content_type) = beq content_type (codes "application/x-www-form-urlencoded")

unfoldable pub absorb_post : Request → Outcome Request
unfolding absorbs
absorb_post r = if not (absorbs (lookup (codes "content-type") r.headers)) then ok r else do
  parameters ← get_parameters r.content false
  ok (record r { post_parameters = parameters; content = [] })

abbrev pub finish : Conn → Request → Outcome Step
finish c r = do
  r' ← if is_post r.method then absorb_post r else ok r
  ok (done, record c { request = record r' { mode = reading_method } })

-- The case `Mode::Content`. The first branch appends what lies behind the awaited bytes.
unfoldable pub content_line : Conn → Bytes → Outcome Step
unfolding absorb_post
content_line c line =
    if ltb c.request.length_remaining (length line)
    then finish c (record (c.request) {
      content = c.request.content ++ drop c.request.length_remaining line;
      length_remaining = 0;
    })
    else if c.request.length_remaining == length line
    then finish c (record (c.request) { content = c.request.content ++ line; length_remaining = 0 })
    else if c.request.length_remaining == 0
    then finish c c.request
    else ok (
      continue,
      record c {
        request = record (c.request) {
          content = c.request.content ++ line;
          length_remaining = c.request.length_remaining - length line;
        };
      },
    )

-- The empty line behind the headers.
unfoldable pub end_headers : Conn → Step
end_headers c =
    if contains (codes "content-length") c.request.headers
    then (
      disable_line_mode,
      record c {
        request = record (c.request) { mode = reading_content };
        max_read = c.request.content_length;
      },
    )
    else (done, record c { request = record (c.request) { mode = reading_content } })

abbrev pub trim : Bytes → Bytes
trim line = drop_suffix b'\r' (drop_suffix b'\n' line)

unfoldable pub in_mode : (Bytes → PostMax) → Mode → Conn → Bytes → Outcome Step
in_mode post_max reading_method c line = method_line c (trim line)
in_mode post_max reading_headers c line =
    if is_empty (trim line) then ok (end_headers c) else header_line post_max c (trim line)
in_mode post_max reading_content c line = content_line c line

unfoldable pub handle_line : (Bytes → PostMax) → Conn → Bytes → Outcome Step
unfolding in_mode
handle_line post_max c line = in_mode post_max c.request.mode c line
