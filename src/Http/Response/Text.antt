-- ===== src/Http/Response/Text.antt =====
-- http/Response: the text of a response, read back by the rules of HTTP.
use algiz.Base.{
  ℕ, zero, suc, ◌+◌, ◌≡◌, ◌≢◌, refl, List, [], ◌∷◌, ◌++◌, Option, none, some, Bool, true, false,
  not, ◌&&◌, if◌then◌else◌, length, take, drop, arith, All, All-append, ap, ap₂, ◌∙◌, sym,
  append_assoc, take-length-append, drop-length-append, drop-add, Bool-cases, inl, inr,
}
use algiz.Base.Bytes.{Bytes, codes, is_empty, Lacks, find_text}
use algiz.Base.Map.{contains}
use algiz.Util.Numbers.{decimal}
use algiz.Util.Numbers.Digits.{IsDigitByte, decimal-All}
use algiz.Http.Response.{Response, no_content, to_string, crlf, print_headers}
use algiz.Http.Response.Codes.{description, description-Lacks}

-- A head, line by line up to the first empty one, and what stands behind it.
unfoldable pub read_head : ℕ → Bytes → Option (List Bytes × Bytes)
read_head zero s = none
read_head (suc fuel) s = elim (find_text crlf s) [
  | none ↦ none
  | some zero ↦ some ([], drop 2 s)
  | some (suc n) ↦ elim (read_head fuel (drop (suc n + 2) s)) [
    | none ↦ none
    | some (lines, rest) ↦ some (take (suc n) s ∷ lines, rest)
  ]
]

abbrev pub print_lines : List Bytes → Bytes
print_lines [] = []
print_lines (line ∷ lines) = (line ++ crlf) ++ print_lines lines

find_crlf :
    (line rest : Bytes)
    → Lacks 13 line
    → find_text crlf (line ++ (crlf ++ rest)) ≡ some (length line)
unfolding find_text
find_crlf [] rest h = refl
find_crlf (c ∷ line) rest (hc, h) = ground (arith, find_crlf line rest h)

-- A line of a head: not empty, and with no carriage return.
abbrev pub IsLine : Bytes → Type 0
IsLine line = (is_empty line ≡ false) × Lacks 13 line

drop_line : (line rest : Bytes) → drop (length line + 2) (line ++ (crlf ++ rest)) ≡ rest
drop_line line rest =
    drop-add (length line) 2 (line ++ (crlf ++ rest))
    ∙ ap (drop 2) (drop-length-append line (crlf ++ rest))

read_line :
    (fuel : ℕ) (line rest : Bytes) (lines : List Bytes) (body : Bytes)
    → IsLine line
    → read_head fuel rest ≡ some (lines, body)
    → read_head (suc fuel) (line ++ (crlf ++ rest)) ≡ some (line ∷ lines, body)
unfolding read_head
read_line fuel [] rest lines body h e = absurd (ground arith)
read_line fuel (c ∷ line) rest lines body (_, h) e =
    rw (find_crlf (c ∷ line) rest h, read_head)
      (rw (drop_line (c ∷ line) rest, e, read_head)
        (ap (λ t. some (t ∷ lines, body)) (take-length-append (c ∷ line) (crlf ++ rest))))

read-print :
    (lines : List Bytes) (body : Bytes)
    → All IsLine lines
    → read_head (suc (length lines)) (print_lines lines ++ (crlf ++ body)) ≡ some (lines, body)
read-print [] body h = unfold read_head find_text in refl
read-print (line ∷ lines) body (p, h) =
    ap (read_head (suc (suc (length lines)))) (
      append_assoc (line ++ crlf) (print_lines lines) (crlf ++ body)
      ∙ append_assoc line crlf (print_lines lines ++ (crlf ++ body)))
    ∙ read_line (suc (length lines)) line (print_lines lines ++ (crlf ++ body)) lines body p
        (read-print lines body h)

-- The lines of a response with a known code.
abbrev pub status_line : Response → Bytes → Bytes
status_line r text = codes "HTTP/1.1 " ++ (decimal r.code ++ (b' ' ∷ text))

abbrev pub type_line : Response → List Bytes
type_line r =
    if not r.no_content_type && not (contains (codes "content-type") r.headers)
    then (codes "Content-Type: "
        ++ (r.mime ++ (if is_empty r.charset then [] else codes "; charset=" ++ r.charset)))
      ∷ []
    else []

abbrev pub length_line : Response → List Bytes
length_line r =
    if not (contains (codes "content-length") r.headers)
    then (codes "Content-Length: " ++ decimal (length r.content)) ∷ []
    else []

abbrev pub header_lines : List (Bytes × Bytes) → List Bytes
header_lines [] = []
header_lines ((header, value) ∷ rest) = (header ++ (codes ": " ++ value)) ∷ header_lines rest

abbrev pub head_lines : Response → Bytes → List Bytes
head_lines r text = status_line r text ∷ (type_line r ++ (length_line r ++ header_lines r.headers))

print_lines-append :
    (xs ys : List Bytes) → print_lines (xs ++ ys) ≡ print_lines xs ++ print_lines ys
print_lines-append [] ys = refl
print_lines-append (x ∷ xs) ys =
    ap (◌++◌ (x ++ crlf)) (print_lines-append xs ys)
    ∙ sym (append_assoc (x ++ crlf) (print_lines xs) (print_lines ys))

print_headers-lines :
    (headers : List (Bytes × Bytes)) → print_headers headers ≡ print_lines (header_lines headers)
unfolding print_headers
print_headers-lines [] = refl
print_headers-lines ((header, value) ∷ rest) =
    ap₂ ◌++◌
      (ap (◌++◌ header) (sym (append_assoc (codes ": ") value crlf))
        ∙ sym (append_assoc header (codes ": " ++ value) crlf))
      (print_headers-lines rest)

no_content-lines :
    (r : Response) (text : Bytes)
    → description r.code ≡ some text
    → no_content r ≡ print_lines (head_lines r text) ++ crlf
unfolding no_content
no_content-lines r text e =
    rw (e, no_content)
      (rw (print_headers-lines r.headers)
        (elim (Bool-cases
          (not r.no_content_type && not (contains (codes "content-type") r.headers))) [
            | inl a ↦ elim (Bool-cases (not (contains (codes "content-length") r.headers))) [
              | inl b ↦ rw (a, b) (simp append_assoc)
              | inr b ↦ rw (a, b) (simp append_assoc)
            ]
            | inr a ↦ elim (Bool-cases (not (contains (codes "content-length") r.headers))) [
              | inl b ↦ rw (a, b) (simp append_assoc)
              | inr b ↦ rw (a, b) (simp append_assoc)
            ]
          ]))

-- A response whose texts hold no carriage return.
abbrev pub IsSafe : Response → Type 0
IsSafe r =
    Lacks 13 r.mime
    × Lacks 13 r.charset
    × All (λ (h : Bytes × Bytes). Lacks 13 h.0 × Lacks 13 h.1) r.headers

Lacks-append : (s t : Bytes) → Lacks 13 s → Lacks 13 t → Lacks 13 (s ++ t)
Lacks-append = All-append (λ c. c ≢ 13)

digits_lack : (s : Bytes) → All IsDigitByte s → Lacks 13 s
digits_lack [] h = tt
digits_lack (c ∷ s) (hc, h) = (omega arith, digits_lack s h)

decimal-Lacks : (n : ℕ) → Lacks 13 (decimal n)
decimal-Lacks n = digits_lack (decimal n) (decimal-All n)

type_line-IsLine : (r : Response) → Lacks 13 r.mime → Lacks 13 r.charset → All IsLine (type_line r)
type_line-IsLine r m c =
    elim (Bool-cases (not r.no_content_type && not (contains (codes "content-type") r.headers))) [
      | inl a ↦ rw a (
        (
          refl,
          Lacks-append (codes "Content-Type: ") _ (omega arith)
              (Lacks-append r.mime _ m (charset_lacks (is_empty r.charset))),
        ),
        tt,
      )
      | inr a ↦ rw a tt
    ]
  where
    charset_lacks : (b : Bool) → Lacks 13 (if b then [] else codes "; charset=" ++ r.charset)
    charset_lacks true = tt
    charset_lacks false = Lacks-append (codes "; charset=") r.charset (omega arith) c

length_line-IsLine : (r : Response) → All IsLine (length_line r)
length_line-IsLine r = elim (Bool-cases (not (contains (codes "content-length") r.headers))) [
  | inl a ↦ rw a (
    (
      refl,
      Lacks-append (codes "Content-Length: ") _ (omega arith) (decimal-Lacks (length r.content)),
    ),
    tt,
  )
  | inr a ↦ rw a tt
]

is_empty-header : (name value : Bytes) → is_empty (name ++ b':' ∷ value) ≡ false
is_empty-header [] value = refl
is_empty-header (c ∷ name) value = refl

header_lines-IsLine :
    (headers : List (Bytes × Bytes))
    → All (λ (h : Bytes × Bytes). Lacks 13 h.0 × Lacks 13 h.1) headers
    → All IsLine (header_lines headers)
header_lines-IsLine [] h = tt
header_lines-IsLine ((name, value) ∷ rest) ((hn, hv), h) = (
  (
    is_empty-header name (b' ' ∷ value),
    Lacks-append name _ hn (Lacks-append (codes ": ") value (omega arith) hv),
  ),
  header_lines-IsLine rest h,
)

head_lines-IsLine :
    (r : Response) (text : Bytes) → IsSafe r → Lacks 13 text → All IsLine (head_lines r text)
head_lines-IsLine r text (m, c, h) t = (
  (
    refl,
    Lacks-append (codes "HTTP/1.1 ") _ (omega arith)
        (Lacks-append (decimal r.code) _ (decimal-Lacks r.code) ((λ e. cc), t)),
  ),
  All-append IsLine (type_line r) _ (type_line-IsLine r m c) (
      All-append IsLine (length_line r) _ (length_line-IsLine r) (header_lines-IsLine r.headers h)),
)

-- A response with a code of the table, whose texts hold no carriage return, is read back by the rules
-- of HTTP as the status line, the lines for the type and the length where no header gives them, and a
-- line for each header in the order of the map, with exactly the content behind the head.
pub read_head-to_string :
    (r : Response) (text : Bytes)
    → description r.code ≡ some text
    → IsSafe r
    → read_head (suc (length (head_lines r text))) (to_string r)
      ≡ some (head_lines r text, r.content)
unfolding to_string
read_head-to_string r text e safe =
    ap (read_head (suc (length (head_lines r text)))) (
      ap (λ t. t ++ r.content) (no_content-lines r text e)
      ∙ append_assoc (print_lines (head_lines r text)) crlf r.content)
    ∙ read-print (head_lines r text) r.content
        (head_lines-IsLine r text safe (description-Lacks r.code text e))
