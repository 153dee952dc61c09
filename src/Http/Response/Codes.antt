-- ===== src/Http/Response/Codes.antt =====
-- http/Response: the table `codeDescriptions`.
use algiz.Base.{
  ℕ, List, [], ◌∷◌, Option, none, some, if◌then◌else◌, ◌==◌, ◌≡◌, refl, Bool, true, not, ◌&&◌,
  arith, Bool-cases, inl, inr,
}
use algiz.Base.Bytes.{Bytes, codes, Lacks}

unfoldable pub code_descriptions : List (ℕ × Bytes)
code_descriptions =
    (100, codes "Continue")
    ∷ (101, codes "Switching Protocols")
    ∷ (102, codes "Processing")
    ∷ (103, codes "Early Hints")
    ∷ (200, codes "OK")
    ∷ (201, codes "Created")
    ∷ (202, codes "Accepted")
    ∷ (203, codes "Non-Authoritative Information")
    ∷ (204, codes "No Content")
    ∷ (205, codes "Reset Content")
    ∷ (206, codes "Partial Content")
    ∷ (207, codes "Multi-Status")
    ∷ (208, codes "Already Reported")
    ∷ (226, codes "IM Used")
    ∷ (300, codes "Multiple Choices")
    ∷ (301, codes "Moved Permanently")
    ∷ (302, codes "Found")
    ∷ (303, codes "See Other")
    ∷ (304, codes "Not Modified")
    ∷ (305, codes "Use Proxy")
    ∷ (306, codes "Switch Proxy")
    ∷ (307, codes "Temporary Redirect")
    ∷ (308, codes "Permanent Redirect")
    ∷ (400, codes "Bad Request")
    ∷ (401, codes "Unauthorized")
    ∷ (402, codes "Payment Required")
    ∷ (403, codes "Forbidden")
    ∷ (404, codes "Not Found")
    ∷ (405, codes "Method Not Allowed")
    ∷ (406, codes "Not Acceptable")
    ∷ (407, codes "Proxy Authentication Required")
    ∷ (408, codes "Request Timeout")
    ∷ (409, codes "Conflict")
    ∷ (410, codes "Gone")
    ∷ (411, codes "Length Required")
    ∷ (412, codes "Precondition Failed")
    ∷ (413, codes "Payload Too Large")
    ∷ (414, codes "URI Too Long")
    ∷ (415, codes "Unsupported Media Type")
    ∷ (416, codes "Range Not Satisfiable")
    ∷ (417, codes "Expectation Failed")
    ∷ (418, codes "I'm a teapot")
    ∷ (421, codes "Misdirected Request")
    ∷ (422, codes "Unprocessable Entity")
    ∷ (423, codes "Locked")
    ∷ (424, codes "Failed Dependency")
    ∷ (425, codes "Too Early")
    ∷ (426, codes "Upgrade Required")
    ∷ (428, codes "Precondition Required")
    ∷ (429, codes "Too Many Requests")
    ∷ (431, codes "Request Header Fields Too Large")
    ∷ (451, codes "Unavailable For Legal Reasons")
    ∷ (500, codes "Internal Server Error")
    ∷ (501, codes "Not Implemented")
    ∷ (502, codes "Bad Gateway")
    ∷ (503, codes "Service Unavailable")
    ∷ (504, codes "Gateway Timeout")
    ∷ (505, codes "HTTP Version Not Supported")
    ∷ (506, codes "Variant Also Negotiates")
    ∷ (507, codes "Insufficient Storage")
    ∷ (508, codes "Loop Detected")
    ∷ (510, codes "Not Extended")
    ∷ (511, codes "Network Authentication Required")
    ∷ []

pub find_code : ℕ → List (ℕ × Bytes) → Option Bytes
find_code code [] = none
find_code code ((c, text) ∷ rest) = if c == code then some text else find_code code rest

-- `codeDescriptions.contains(code)` and `.at(code)`.
unfoldable pub description : ℕ → Option Bytes
unfolding find_code code_descriptions
description code = find_code code code_descriptions

abbrev plain : Bytes → Bool
plain [] = true
plain (c ∷ s) = not (c == 13) && plain s

abbrev all_plain : List (ℕ × Bytes) → Bool
all_plain [] = true
all_plain ((code, text) ∷ rest) = plain text && all_plain rest

table_plain : all_plain code_descriptions ≡ true
unfolding code_descriptions
table_plain = refl

plain-Lacks : (s : Bytes) → plain s ≡ true → Lacks 13 s
plain-Lacks [] h = tt
plain-Lacks (c ∷ s) h = (ground arith, plain-Lacks s (ground arith))

find_code-Lacks :
    (code : ℕ) (table : List (ℕ × Bytes)) (text : Bytes)
    → all_plain table ≡ true
    → find_code code table ≡ some text
    → Lacks 13 text
unfolding find_code
find_code-Lacks code [] text h e = cc
find_code-Lacks code ((c, t) ∷ rest) text h e = elim (Bool-cases (c == code)) [
  | inl hit ↦ let same : t ≡ text = ground arith in rw (← same) (plain-Lacks t (ground arith))
  | inr miss ↦ find_code-Lacks code rest text (ground arith) (rw miss at e)
]

-- No description breaks a line.
pub description-Lacks : (code : ℕ) (text : Bytes) → description code ≡ some text → Lacks 13 text
unfolding description
description-Lacks code text = find_code-Lacks code code_descriptions text table_plain
