-- ===== src/Util/Escape.antt =====
-- util/Util: `escape`, `escapeQuotes`, `escapeHTML` and `escapeANSI`, loops that append a piece for
-- each byte.
pub mod Literal
use algiz.Base.{ℕ, ◌≡◌, ◌≢◌, refl, List, [], ◌∷◌, ◌++◌, if◌then◌else◌, ◌==◌, arith, All, All-append}
use algiz.Base.Bytes.{Bytes, codes, Lacks}

unfoldable pub escape_char : ℕ → Bytes
escape_char ch =
    if ch == 9
    then b'\\' ∷ b't' ∷ []
    else if ch == 13
    then b'\\' ∷ b'r' ∷ []
    else if ch == 10
    then b'\\' ∷ b'n' ∷ []
    else if ch == 11
    then b'\\' ∷ b'v' ∷ []
    else if ch == 8
    then b'\\' ∷ b'b' ∷ []
    else if ch == 7
    then b'\\' ∷ b'a' ∷ []
    else if ch == 12
    then b'\\' ∷ b'f' ∷ []
    else if ch == 0
    then b'\\' ∷ b'0' ∷ []
    else if ch == b'\\'
    then b'\\' ∷ b'\\' ∷ []
    else if ch == 34
    then b'\\' ∷ 34 ∷ []
    else if ch == 27
    then b'\\' ∷ b'x' ∷ b'1' ∷ b'b' ∷ []
    else ch ∷ []

unfoldable pub escape : Bytes → Bytes
unfolding escape_char
escape [] = []
escape (ch ∷ s) = escape_char ch ++ escape s

unfoldable pub escape_quotes : Bytes → Bytes
escape_quotes [] = []
escape_quotes (ch ∷ s) = (if ch == 34 then b'\\' ∷ 34 ∷ [] else ch ∷ []) ++ escape_quotes s

unfoldable pub escape_html_char : ℕ → Bytes
escape_html_char ch =
    if ch == b'<'
    then codes "&lt;"
    else if ch == b'>'
    then codes "&gt;"
    else if ch == 34
    then codes "&quot;"
    else ch ∷ []

unfoldable pub escape_html : Bytes → Bytes
unfolding escape_html_char
escape_html [] = []
escape_html (ch ∷ s) = escape_html_char ch ++ escape_html s

-- "\x1b[2m\\x1b\x1b[22m".
unfoldable pub escape_ansi_char : ℕ → Bytes
escape_ansi_char ch =
    if ch == 27
    then 27 ∷ codes "[2m\\x1b" ++ 27 ∷ codes "[22m"
    else if ch == 9
    then b'\\' ∷ b't' ∷ []
    else if ch == 13
    then b'\\' ∷ b'r' ∷ []
    else if ch == 10
    then b'\\' ∷ b'n' ∷ []
    else if ch == 11
    then b'\\' ∷ b'v' ∷ []
    else if ch == 8
    then b'\\' ∷ b'b' ∷ []
    else if ch == 7
    then b'\\' ∷ b'a' ∷ []
    else if ch == 12
    then b'\\' ∷ b'f' ∷ []
    else if ch == 0
    then b'\\' ∷ b'0' ∷ []
    else if ch == b'\\'
    then b'\\' ∷ b'\\' ∷ []
    else ch ∷ []

unfoldable pub escape_ansi : Bytes → Bytes
unfolding escape_ansi_char
escape_ansi [] = []
escape_ansi (ch ∷ s) = escape_ansi_char ch ++ escape_ansi s

-- A byte that is not markup.
abbrev pub IsInert : ℕ → Type 0
IsInert c = (c ≢ b'<') × (c ≢ b'>') × (c ≢ 34)

escape_html_char-IsInert : (ch : ℕ) → All IsInert (escape_html_char ch)
unfolding escape_html_char
escape_html_char-IsInert ch = ground arith

-- Text escaped for HTML holds no angle bracket and no double quote.
pub escape_html-IsInert : (s : Bytes) → All IsInert (escape_html s)
unfolding escape_html
escape_html-IsInert [] = tt
escape_html-IsInert (ch ∷ s) =
    All-append IsInert (escape_html_char ch) (escape_html s) (escape_html_char-IsInert ch)
      (escape_html-IsInert s)
