-- ===== src/Http/Request/Params/RoundTrip.antt =====
-- http/Request: a query string that a client prints, read back.
use algiz.Base.{
  ℕ, zero, suc, ◌/◌, ◌%◌, ◌^◌, ap₂, ◌≡◌, ◌≢◌, ◌≤◌, ◌<◌, refl, List, [], ◌∷◌, ◌++◌, true, length,
  length-append, arith, ◌∙◌, All, All-append, take-length-append, drop-append_suc, append-nil,
}
use algiz.Base.Bytes.{Bytes, IsBytes, Lacks, find_byte, find_byte-append, find_byte-Lacks}
use algiz.Base.Map.{insert}
use algiz.Util.Url.{escape_url, escape_url_char, char_hex, hex_digit, unescape}
use algiz.Util.Url.RoundTrip.{unescape-escape_url}
use algiz.Http.Request.{Params, ok, ◌>>=◌}
use algiz.Http.Request.Params.{add_parameter, parameters_loop, get_parameters, decoded}

-- A byte that has no meaning in a query.
abbrev pub IsQuiet : ℕ → Type 0
IsQuiet c = (c ≢ b'&') × (c ≢ b'=') × (c ≢ b'?')

hex_digit-IsQuiet : (n : ℕ) → n < 16 → IsQuiet (hex_digit n)
unfolding hex_digit
hex_digit-IsQuiet n h = ground arith

escape_url_char-IsQuiet : (c : ℕ) → All IsQuiet (escape_url_char c)
unfolding escape_url_char char_hex
escape_url_char-IsQuiet c =
    ground (arith, hex_digit-IsQuiet ((c / 16) % 16), hex_digit-IsQuiet (c % 16))

escape_url-IsQuiet : (s : Bytes) → All IsQuiet (escape_url s)
unfolding escape_url
escape_url-IsQuiet [] = tt
escape_url-IsQuiet (c ∷ s) =
    All-append IsQuiet (escape_url_char c) (escape_url s) (escape_url_char-IsQuiet c)
      (escape_url-IsQuiet s)

Lacks-amp : (s : Bytes) → All IsQuiet s → Lacks b'&' s
Lacks-amp [] h = tt
Lacks-amp (c ∷ s) (hc, h) = (hc.0, Lacks-amp s h)

Lacks-equals : (s : Bytes) → All IsQuiet s → Lacks b'=' s
Lacks-equals [] h = tt
Lacks-equals (c ∷ s) (hc, h) = (hc.1, Lacks-equals s h)

abbrev pub print_pair : Bytes × Bytes → Bytes
print_pair (key, value) = escape_url key ++ b'=' ∷ escape_url value

abbrev pub print_more : List (Bytes × Bytes) → Bytes
print_more [] = []
print_more (pair ∷ rest) = b'&' ∷ (print_pair pair ++ print_more rest)

abbrev pub print_query : List (Bytes × Bytes) → Bytes
print_query [] = []
print_query (pair ∷ rest) = print_pair pair ++ print_more rest

-- Bytes that fit a machine's address space when they are printed.
abbrev pub IsText : Bytes → Type 0
IsText s = IsBytes s × (length (escape_url s) < 2 ^ 64)

abbrev pub IsPair : Bytes × Bytes → Type 0
IsPair (key, value) = IsText key × IsText value

abbrev pub insert_all : List (Bytes × Bytes) → Params → Params
insert_all [] parameters = parameters
insert_all ((key, value) ∷ rest) parameters = insert_all rest (insert key value parameters)

add_split :
    (t u : Bytes) (parameters : Params)
    → Lacks b'=' t
    → add_parameter (t ++ b'=' ∷ u) parameters ≡ (do
      value ← decoded (unescape u true)
      key ← decoded (unescape t true)
      ok (insert key value parameters))
unfolding add_parameter find_byte
add_split [] u parameters h = refl
add_split (c ∷ t) u parameters h =
    rw (find_byte-append b'=' (c ∷ t) u h, add_parameter)
      (ap₂
        (λ (a b : Bytes). decoded (unescape a true) >>= λ value.
          decoded (unescape b true) >>= λ key. ok (insert key value parameters))
        (drop-append_suc (c ∷ t) b'=' u) (take-length-append (c ∷ t) (b'=' ∷ u)))

add_pair :
    (key value : Bytes) (parameters : Params)
    → IsPair (key, value)
    → add_parameter (print_pair (key, value)) parameters ≡ ok (insert key value parameters)
add_pair key value parameters ((k, fk), (v, fv)) =
    add_split (escape_url key) (escape_url value) parameters
      (Lacks-equals (escape_url key) (escape_url-IsQuiet key))
    ∙ rw (unescape-escape_url value v fv, unescape-escape_url key k fk) refl

Lacks-append : (b : ℕ) (s t : Bytes) → Lacks b s → Lacks b t → Lacks b (s ++ t)
Lacks-append b = All-append (λ c. c ≢ b)

pair-Lacks : (key value : Bytes) → Lacks b'&' (print_pair (key, value))
pair-Lacks key value =
    Lacks-append b'&' (escape_url key) (b'=' ∷ escape_url value)
      (Lacks-amp (escape_url key) (escape_url-IsQuiet key))
      ((λ e. cc), Lacks-amp (escape_url value) (escape_url-IsQuiet value))

loop_more :
    (fuel : ℕ) (key value : Bytes) (rest : List (Bytes × Bytes)) (parameters : Params)
    → length rest < fuel
    → IsPair (key, value)
    → All IsPair rest
    → parameters_loop fuel (print_query ((key, value) ∷ rest)) parameters
      ≡ ok (insert_all ((key, value) ∷ rest) parameters)
unfolding parameters_loop
loop_more zero key value rest parameters h p ps = absurd (omega arith)
loop_more (suc fuel) key value [] parameters h p ps = rw (append-nil (print_pair (key, value))) (
    rw (find_byte-Lacks b'&' (print_pair (key, value)) (pair-Lacks key value), parameters_loop)
      (add_pair key value parameters p))
loop_more (suc fuel) key value ((k, v) ∷ rest) parameters h p (q, ps) =
    let pair : Bytes = print_pair (key, value) in
    let tail : Bytes = print_query ((k, v) ∷ rest) in
    rw (find_byte-append b'&' pair tail (pair-Lacks key value), parameters_loop)
      (rw
        (
          take-length-append pair (b'&' ∷ tail),
          drop-append_suc pair b'&' tail,
          add_pair key value parameters p,
        )
        (loop_more fuel k v rest (insert key value parameters) (omega arith) q ps))

length-print_more : (pairs : List (Bytes × Bytes)) → length pairs ≤ length (print_more pairs)
length-print_more [] = omega arith
length-print_more (pair ∷ rest) =
    omega (arith, length-append (print_pair pair) (print_more rest), length-print_more rest)

-- Pairs of any bytes, printed behind a question mark with keys and values escaped for a URL, are all
-- read back, in their order, into the map of the parameters.
pub get_parameters-print_query :
    (path : Bytes) (pairs : List (Bytes × Bytes))
    → Lacks b'?' path
    → All IsPair pairs
    → get_parameters (path ++ b'?' ∷ print_query pairs) true ≡ ok (insert_all pairs [])
unfolding get_parameters
get_parameters-print_query path pairs h ps =
    rw (find_byte-append b'?' path (print_query pairs) h, get_parameters)
      (rw (drop-append_suc path b'?' (print_query pairs)) (loop pairs ps))
  where
    loop :
        (pairs : List (Bytes × Bytes))
        → All IsPair pairs
        → parameters_loop (suc (length (print_query pairs))) (print_query pairs) []
          ≡ ok (insert_all pairs [])
    loop [] ps = unfold parameters_loop find_byte in refl
    loop ((key, value) ∷ rest) (p, ps) =
        loop_more (suc (length (print_query ((key, value) ∷ rest)))) key value rest []
          (omega (
            arith,
            length-append (print_pair (key, value)) (print_more rest),
            length-print_more rest,
          ))
          p ps
