-- ===== src/Tests/Util.antt =====
-- util: the theorems at concrete inputs.
use algiz.Base.{
  ◌^◌, ◌<◌, ◌≡◌, refl, List, [], ◌∷◌, ◌++◌, none, some, true, false, length, All, arith,
}
use algiz.Base.Bytes.{Bytes, codes, IsBytes, find_byte, find_text}
use algiz.Util.Base64.{base64_encode, base64_decode}
use algiz.Util.Base64.RoundTrip.{base64_decode-base64_encode}
use algiz.Util.Url.{escape_url, unescape}
use algiz.Util.Url.RoundTrip.{unescape-escape_url}
use algiz.Util.Url.Faults.{unescape_short}
use algiz.Util.Split.{split, join}
use algiz.Util.Split.Join.{join-split}
use algiz.Util.Split.Condense.{split_condense, on_some, behind_first}
use algiz.Util.Escape.{escape, escape_html, IsInert, escape_html-IsInert}
use algiz.Util.Escape.Literal.{read_literal, read_literal-escape}
use algiz.Util.Numbers.{ok, parse_ulong_view, decimal}
use algiz.Util.Numbers.RoundTrip.{parse_ulong_view-decimal}

abbrev key : Bytes
key = codes "a&b"

key-IsBytes : IsBytes key
key-IsBytes = (omega arith, (omega arith, (omega arith, tt)))

base64_decode-base64_encode_example : base64_decode (base64_encode key) ≡ key
base64_decode-base64_encode_example = base64_decode-base64_encode key key-IsBytes

escaped_key : escape_url key ≡ codes "a%26b"
unfolding escape_url
escaped_key = refl

short_key : length (escape_url key) < 2 ^ 64
short_key = rw escaped_key (omega arith)

unescape-escape_url_example : unescape (escape_url key) true ≡ some key
unescape-escape_url_example = unescape-escape_url key key-IsBytes short_key

unescape_short_example : unescape (codes "%") true ≡ none
unfolding find_byte
unescape_short_example = unescape_short (codes "%") true 0 (omega arith) refl

abbrev words : Bytes
words = codes ",x,,y"

join-split_example :
    (pieces : List Bytes) × (split words (codes ",") false ≡ some pieces)
    × (join pieces (codes ",") ≡ words)
join-split_example = join-split words (codes ",") (omega arith)

split_condense_example :
    split words (codes ",") true ≡ on_some behind_first (split words (codes ",") false)
split_condense_example = split_condense words (codes ",")

split-words : split words (codes ",") true ≡ some ([] ∷ codes "x" ∷ codes "y" ∷ [])
unfolding split find_text
split-words = refl

escape_html-IsInert_example : All IsInert (escape_html (codes "<b>&"))
escape_html-IsInert_example = escape_html-IsInert (codes "<b>&")

read_literal-escape_example :
    read_literal (escape (codes "a\"b") ++ 34 ∷ codes ";") ≡ some (codes "a\"b", codes ";")
read_literal-escape_example =
    read_literal-escape (codes "a\"b") (codes ";")
      ((omega arith, omega arith), ((omega arith, omega arith), ((omega arith, omega arith), tt)))

parse_ulong_view-decimal_example : parse_ulong_view (decimal 4096 ++ codes "-") ≡ ok 4096
parse_ulong_view-decimal_example = parse_ulong_view-decimal 4096 (codes "-") (omega arith) refl
