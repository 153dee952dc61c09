-- ===== src/Http/Request/Failed.antt =====
-- http/Request: what a line that ends in a ParseError leaves in the request.
use algiz.Base.{ℕ, zero, suc, ◌+◌, [], none, some, true, not, if◌then◌else◌, length, take, drop}
use algiz.Base.Bytes.{Bytes, codes, find_byte, find_text, beq}
use algiz.Util.Case.{to_lower}
use algiz.Http.Request.{
  Request, Mode, reading_method, reading_headers, reading_content, Method, Outcome, ok, parse_error,
  unsupported_method, undefined, parse_number,
}
use algiz.Http.Request.Params.{get_path, get_parameters}
use algiz.Http.Request.Ranges.{parse_piece}
use algiz.Http.Request.Lines.{Conn, read_method, add_header, trim}

abbrev or_keep {ℓ} : {A : Type ℓ} → A → Outcome A → A
or_keep a (ok b) = b
or_keep a parse_error = a
or_keep a unsupported_method = a
or_keep a undefined = a

-- Both errors behind a method: no second space, and a version that is not known.
target_left : Conn → Method → Bytes → Conn
target_left c m line = elim (find_byte b' ' line) [
  | none ↦ record c { request = record (c.request) { method = m } }
  | some next_space ↦ record c {
    request = record (c.request) {
      method = m;
      path = get_path (take next_space line);
      parameters = or_keep c.request.parameters (get_parameters (take next_space line) true);
      version = drop (next_space + 1) line;
    };
  }
]

unfoldable pub method_left : Conn → Bytes → Conn
unfolding target_left
method_left c line = elim (find_byte b' ' line) [
  | none ↦ c
  | some first_space ↦ elim (read_method (take first_space line)) [
    | ok m ↦ target_left c m (drop (first_space + 1) line)
    | parse_error ↦ c
    | unsupported_method ↦ c
    | undefined ↦ c
  ]
]

-- The pieces in front of the one that fails.
range_left : ℕ → Bytes → Request → Request
range_left zero content r = r
range_left (suc fuel) content r = elim (find_text (codes ", ") content) [
  | none ↦ r
  | some separator ↦
      let next = or_keep r (parse_piece (take separator content) r) in
      let rest = range_left fuel (drop (separator + 2) content) next in
      elim (parse_piece (take separator content) r) [
        | ok more ↦ rest
        | parse_error ↦ r
        | unsupported_method ↦ r
        | undefined ↦ r
      ]
]

special_left : Conn → Bytes → Bytes → Conn
unfolding range_left
special_left c name value =
    if beq name (codes "Content-Length")
    then elim (parse_number value) [
      | ok n ↦ record c {
        request = record (c.request) { length_remaining = n; content_length = n };
      }
      | parse_error ↦ c
      | unsupported_method ↦ c
      | undefined ↦ c
    ]
    else if not (beq (take 6 value) (codes "bytes="))
    then c
    else record c {
      request = range_left (length value) (drop 6 value) (record (c.request) { ranges = [] });
    }

unfoldable pub header_left : Conn → Bytes → Conn
unfolding special_left
header_left c line = elim (find_text (codes ": ") line) [
  | none ↦ c
  | some separator ↦
      special_left
        (record c {
          request = record (c.request) {
            headers =
                add_header (to_lower (take separator line)) (drop (separator + 2) line)
                  c.request.headers;
          };
        })
        (take separator line) (drop (separator + 2) line)
]

unfoldable pub left_in : Mode → Conn → Bytes → Conn
left_in reading_method c line = method_left c (trim line)
left_in reading_headers c line = header_left c (trim line)
left_in reading_content c line = c

unfoldable pub left_behind : Conn → Bytes → Conn
unfolding left_in
left_behind c line = left_in c.request.mode c line
