-- ===== src/Http/Response.antt =====
-- http/Response: the fields of a response, its setters, and its text.
pub mod Codes
pub mod Text
use algiz.Base.{
  ℕ, ◌≡◌, refl, List, [], ◌∷◌, ◌++◌, Option, none, some, Bool, true, false, not, ◌&&◌,
  if◌then◌else◌, length,
}
use algiz.Base.Bytes.{Bytes, codes, beq, is_empty}
use algiz.Base.Map.{lookup, contains, insert, erase}
use algiz.Util.Case.{to_lower}
use algiz.Util.Numbers.{decimal}
use Codes.{description}

pub record Response : Type 0 where
  pub code : ℕ
  pub mime : Bytes
  pub content : Bytes
  pub charset : Bytes
  pub headers : List (Bytes × Bytes)
  pub no_content_type : Bool

unfoldable pub set_header : Bytes → Bytes → Response → Response
set_header header value r = record r { headers = insert (to_lower header) value r.headers }

is_close : Option Bytes → Bool
is_close none = false
is_close (some value) = beq value (codes "close")

unfoldable pub set_close : Bool → Response → Response
unfolding set_header is_close
set_close true r = set_header (codes "Connection") (codes "close") r
set_close false r =
    if is_close (lookup (codes "connection") r.headers)
    then record r { headers = erase (codes "connection") r.headers }
    else r

-- The constructors: each ends in `setClose(true)`.
unfoldable pub response : ℕ → Bytes → Bytes → Response
unfolding set_close
response code content mime = set_close true (record {
  code = code;
  mime = mime;
  content = content;
  charset = [];
  headers = [];
  no_content_type = false;
})

unfoldable pub set_mime : Bytes → Response → Response
set_mime mime r = record r { mime = mime }

unfoldable pub set_charset : Bytes → Response → Response
set_charset charset r = record r { charset = charset }

unfoldable pub set_no_content_type : Bool → Response → Response
set_no_content_type value r = record r { no_content_type = value }

unfoldable pub set_accept_ranges : Bool → Response → Response
set_accept_ranges value r =
    if value
    then record r { headers = insert (codes "accept-ranges") (codes "bytes") r.headers }
    else record r { headers = erase (codes "accept-ranges") r.headers }

abbrev pub crlf : Bytes
crlf = 13 ∷ 10 ∷ []

-- `generate500`: a whole response with a body.
unfoldable pub generate500 : Bytes
generate500 =
    codes "HTTP/1.1 500 Internal Server Error"
    ++ crlf
    ++ codes "Content-Type: text/html; charset=UTF-8"
    ++ crlf
    ++ codes "Content-Length: 21"
    ++ crlf
    ++ codes "Connection: close"
    ++ crlf
    ++ crlf
    ++ codes "Internal Server Error"

unfoldable pub print_headers : List (Bytes × Bytes) → Bytes
print_headers [] = []
print_headers ((header, value) ∷ rest) =
    (header ++ (codes ": " ++ (value ++ crlf))) ++ print_headers rest

-- `noContent`: the text of everything but the content.
unfoldable pub no_content : Response → Bytes
unfolding print_headers
no_content r = elim (description r.code) [
  | none ↦ generate500
  | some text ↦
      (codes "HTTP/1.1 " ++ (decimal r.code ++ (b' ' ∷ (text ++ crlf))))
      ++ ((if not r.no_content_type && not (contains (codes "content-type") r.headers)
            then codes "Content-Type: "
              ++ (r.mime
                  ++ ((if is_empty r.charset then [] else codes "; charset=" ++ r.charset) ++ crlf))
            else [])
          ++ ((if not (contains (codes "content-length") r.headers)
                then codes "Content-Length: " ++ (decimal (length r.content) ++ crlf)
                else [])
              ++ (print_headers r.headers ++ crlf)))
]

-- `operator std::string`.
unfoldable pub to_string : Response → Bytes
to_string r = no_content r ++ r.content
