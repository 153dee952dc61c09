-- ===== src/Util/Escape/Literal.antt =====
-- util/Util: what `escape` writes between double quotes, read as a C++ string literal.
use algiz.Base.{
  ℕ, ◌≡◌, ◌≢◌, refl, [], ◌∷◌, ◌++◌, Option, none, some, if◌then◌else◌, ◌==◌, arith, All,
  append_assoc, ◌||◌,
}
use algiz.Base.Bytes.{Bytes}
use algiz.Util.Escape.{escape_char, escape}

abbrev push : ℕ → Option Bytes → Option Bytes
push c none = none
push c (some out) = some (c ∷ out)

-- The byte that a simple escape sequence of the language stands for.
simple : ℕ → Option ℕ
simple c =
    if c == b't'
    then some 9
    else if c == b'r'
    then some 13
    else if c == b'n'
    then some 10
    else if c == b'v'
    then some 11
    else if c == b'b'
    then some 8
    else if c == b'a'
    then some 7
    else if c == b'f'
    then some 12
    else if c == b'\\'
    then some b'\\'
    else if c == 34
    then some 34
    else none

-- The contents of a literal with simple escape sequences, up to its closing quote. It fails on an
-- unknown sequence, a line break and a missing quote.
unfoldable pub read_literal : Bytes → Option (Bytes × Bytes)
unfolding simple
read_literal [] = none
read_literal (c ∷ []) = if c == 34 then some ([], []) else none
read_literal (c ∷ d ∷ s) =
    if c == 34
    then some ([], d ∷ s)
    else if c == b'\\'
    then elim (simple d) [
      | none ↦ none
      | some b ↦ elim (read_literal s) [ none ↦ none | some (out, rest) ↦ some (b ∷ out, rest) ]
    ]
    else if (c == 10) || (c == 13)
    then none
    else elim (read_literal (d ∷ s)) [ none ↦ none | some (out, rest) ↦ some (c ∷ out, rest) ]

read_char :
    (ch : ℕ) (s out rest : Bytes)
    → ch ≢ 0
    → ch ≢ 27
    → read_literal s ≡ some (out, rest)
    → read_literal (escape_char ch ++ s) ≡ some (ch ∷ out, rest)
unfolding read_literal escape_char
read_char ch [] out rest a b h = ground arith
read_char ch (d ∷ s) out rest a b h = ground arith

-- A text with no NUL and no escape byte, escaped and put in double quotes, is read back as itself by
-- the rules of a string literal, and the literal ends where it was closed.
pub read_literal-escape :
    (s rest : Bytes)
    → All (λ c. (c ≢ 0) × (c ≢ 27)) s
    → read_literal (escape s ++ 34 ∷ rest) ≡ some (s, rest)
unfolding escape
read_literal-escape [] [] h = unfold read_literal in refl
read_literal-escape [] (c ∷ rest) h = unfold read_literal in refl
read_literal-escape (c ∷ s) rest (hc, h) =
    rw (append_assoc (escape_char c) (escape s) (34 ∷ rest))
      (read_char c (escape s ++ 34 ∷ rest) s rest hc.0 hc.1 (read_literal-escape s rest h))
