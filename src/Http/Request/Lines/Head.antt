-- ===== src/Http/Request/Lines/Head.antt =====
-- http/Request: the head of a request as a client prints it, read line by line.
use algiz.Base.{
  ℕ, suc, ◌+◌, ◌≡◌, ◌≢◌, refl, List, [], ◌∷◌, ◌++◌, true, false, some, length, arith, ◌∙◌, ap, All,
  drop, take-length-append, drop-append_suc, map,
}
use algiz.Base.Bytes.{Bytes, codes, is_empty, Lacks, find_text, find_byte-append, ne→beq}
use algiz.Util.Case.{to_lower}
use algiz.Http.Request.{reading_headers, reading_method, Method, continue, Outcome, ok, Params}
use algiz.Http.Request.Params.{get_path, get_parameters}
use algiz.Http.Request.Lines.{
  Conn, Step, PostMax, handle_line, end_headers, in_mode, trim, drop_suffix, add_header,
  special_header, header_line, method_line, target_line, read_method,
}
use algiz.Http.Request.Lines.Body.{feed, after}

drop_suffix-append : (b : ℕ) (s : Bytes) → drop_suffix b (s ++ b ∷ []) ≡ s
unfolding drop_suffix
drop_suffix-append b [] = ground arith
drop_suffix-append b (c ∷ []) = ground arith
drop_suffix-append b (c ∷ d ∷ s) = ap (◌∷◌ c) (drop_suffix-append b (d ∷ s))

drop_suffix-keep : (a b : ℕ) (s : Bytes) → a ≢ b → drop_suffix b (s ++ a ∷ []) ≡ s ++ a ∷ []
unfolding drop_suffix
drop_suffix-keep a b [] h = ground arith
drop_suffix-keep a b (c ∷ []) h = ground arith
drop_suffix-keep a b (c ∷ d ∷ s) h = ap (◌∷◌ c) (drop_suffix-keep a b (d ∷ s) h)

trim-append : (s : Bytes) → trim (s ++ b'\r' ∷ []) ≡ s
trim-append s = rw (drop_suffix-keep b'\r' b'\n' s (λ e. cc)) (drop_suffix-append b'\r' s)

find_separator :
    (name value : Bytes)
    → Lacks b':' name
    → find_text (codes ": ") (name ++ b':' ∷ b' ' ∷ value) ≡ some (length name)
unfolding find_text
find_separator [] value h = refl
find_separator (c ∷ name) value (hc, h) = ground (arith, find_separator name value h)

-- A header whose name has no colon and is none of the three that change the state.
abbrev pub IsPlain : Bytes × Bytes → Type 0
IsPlain (name, value) =
    Lacks b':' name
    × (name ≢ codes "Content-Length")
    × (name ≢ codes "Range")
    × (name ≢ codes "Connection")

abbrev pub print_header : Bytes × Bytes → Bytes
print_header (name, value) = (name ++ b':' ∷ b' ' ∷ value) ++ b'\r' ∷ []

-- The headers behind those of `headers`, each under its name in lower case.
abbrev pub add_all : List (Bytes × Bytes) → Params → Params
add_all [] headers = headers
add_all ((name, value) ∷ rest) headers = add_all rest (add_header (to_lower name) value headers)

abbrev pub with_headers : Conn → Params → Conn
with_headers c headers = record c { request = record (c.request) { headers = headers } }

special_plain :
    (post_max : Bytes → PostMax) (c : Conn) (name value : Bytes)
    → IsPlain (name, value)
    → special_header post_max c name value ≡ ok c
unfolding special_header
special_plain post_max c name value (_, a, b, d) =
    rw (ne→beq name _ a, ne→beq name _ b, ne→beq name _ d) refl

is_empty-header : (name value : Bytes) → is_empty (name ++ b':' ∷ value) ≡ false
is_empty-header [] value = refl
is_empty-header (c ∷ name) value = refl

drop-colon : (name value : Bytes) → drop (length name + 2) (name ++ b':' ∷ b' ' ∷ value) ≡ value
drop-colon [] value = refl
drop-colon (c ∷ name) value =
    let e : suc (length name) + 2 ≡ suc (length name + 2) = omega arith in
    rw e (drop-colon name value)

plain_line :
    (post_max : Bytes → PostMax) (c : Conn) (name value : Bytes)
    → IsPlain (name, value)
    → header_line post_max c (name ++ b':' ∷ b' ' ∷ value)
      ≡ ok (continue, with_headers c (add_header (to_lower name) value c.request.headers))
unfolding header_line
plain_line post_max c name value p =
    rw (find_separator name value p.0, header_line)
      (rw
        (
          take-length-append name (b':' ∷ b' ' ∷ value),
          drop-colon name value,
          special_plain post_max
              (with_headers c (add_header (to_lower name) value c.request.headers)) name value p,
        )
        refl)

read_header :
    (post_max : Bytes → PostMax) (c : Conn) (name value : Bytes)
    → IsPlain (name, value)
    → c.request.mode ≡ reading_headers
    → handle_line post_max c (print_header (name, value))
      ≡ ok (continue, with_headers c (add_header (to_lower name) value c.request.headers))
unfolding handle_line in_mode
read_header post_max c name value p e =
    ap (λ m. in_mode post_max m c (print_header (name, value))) e
    ∙ rw (trim-append (name ++ b':' ∷ b' ' ∷ value), is_empty-header name (b' ' ∷ value))
        (plain_line post_max c name value p)

abbrev pub blank : Bytes
blank = b'\r' ∷ []

pub read_blank :
    (post_max : Bytes → PostMax) (c : Conn)
    → c.request.mode ≡ reading_headers
    → handle_line post_max c blank ≡ ok (end_headers c)
unfolding handle_line in_mode drop_suffix
read_blank post_max c e = ap (λ m. in_mode post_max m c blank) e

after_end :
    (c : Conn) (next : Conn → Outcome Step) → after next (end_headers c) ≡ ok (end_headers c)
unfolding after end_headers
after_end c next = ground arith

-- Headers of any names but the three special ones, each printed on a line, are all read, in their
-- order, before what comes behind them.
pub feed_headers :
    (post_max : Bytes → PostMax) (c : Conn) (hs : List (Bytes × Bytes)) (tail : List Bytes)
    → All IsPlain hs
    → c.request.mode ≡ reading_headers
    → feed post_max c (map print_header hs ++ tail)
      ≡ feed post_max (with_headers c (add_all hs c.request.headers)) tail
unfolding feed after
feed_headers post_max c [] tail h e = refl
feed_headers post_max c ((name, value) ∷ hs) tail (p, h) e =
    rw (read_header post_max c name value p e) (
      feed_headers post_max (with_headers c (add_header (to_lower name) value c.request.headers)) hs
        tail h e)

feed-blank :
    (post_max : Bytes → PostMax) (c : Conn)
    → c.request.mode ≡ reading_headers
    → feed post_max c (blank ∷ []) ≡ ok (end_headers c)
unfolding feed after
feed-blank post_max c e = rw (read_blank post_max c e) (after_end c _)

abbrev pub method_name : Method → Bytes
method_name Method.invalid = []
method_name Method.get = codes "GET"
method_name Method.head = codes "HEAD"
method_name Method.put = codes "PUT"
method_name Method.post = codes "POST"

abbrev pub print_target : Method → Bytes → Bytes
print_target m target = (method_name m ++ b' ' ∷ (target ++ b' ' ∷ codes "HTTP/1.1")) ++ b'\r' ∷ []

abbrev pub IsRead : Method → Type 0
IsRead m = m ≢ Method.invalid

method-Lacks : (m : Method) → Lacks b' ' (method_name m)
method-Lacks Method.invalid = tt
method-Lacks Method.get = omega arith
method-Lacks Method.head = omega arith
method-Lacks Method.put = omega arith
method-Lacks Method.post = omega arith

read_method_lem : (m : Method) → IsRead m → read_method (method_name m) ≡ ok m
unfolding read_method
read_method_lem Method.invalid h = absurd (h refl)
read_method_lem Method.get h = refl
read_method_lem Method.head h = refl
read_method_lem Method.put h = refl
read_method_lem Method.post h = refl

-- The connection behind a method line.
abbrev pub opened : Conn → Method → Bytes → Params → Conn
opened c m target parameters = record c {
  request = record (c.request) {
    method = m;
    path = get_path target;
    parameters = parameters;
    version = codes "HTTP/1.1";
    mode = reading_headers;
  };
}

read_target :
    (c : Conn) (m : Method) (target : Bytes) (parameters : Params)
    → Lacks b' ' target
    → get_parameters target true ≡ ok parameters
    → target_line c m (target ++ b' ' ∷ codes "HTTP/1.1")
      ≡ ok (continue, opened c m target parameters)
unfolding target_line
read_target c m target parameters h g =
    rw (find_byte-append b' ' target (codes "HTTP/1.1") h, target_line)
      (rw
        (
          take-length-append target (b' ' ∷ codes "HTTP/1.1"),
          drop-append_suc target b' ' (codes "HTTP/1.1"),
          g,
        )
        refl)

read_method_line :
    (c : Conn) (m : Method) (target : Bytes) (parameters : Params)
    → IsRead m
    → Lacks b' ' target
    → get_parameters target true ≡ ok parameters
    → method_line c (method_name m ++ b' ' ∷ (target ++ b' ' ∷ codes "HTTP/1.1"))
      ≡ ok (continue, opened c m target parameters)
unfolding method_line
read_method_line c m target parameters r h g =
    let rest : Bytes = target ++ b' ' ∷ codes "HTTP/1.1" in
    rw (find_byte-append b' ' (method_name m) rest (method-Lacks m), method_line)
      (rw
        (
          take-length-append (method_name m) (b' ' ∷ rest),
          drop-append_suc (method_name m) b' ' rest,
          read_method_lem m r,
        )
        (read_target c m target parameters h g))

read_first :
    (post_max : Bytes → PostMax) (c : Conn) (m : Method) (target : Bytes) (parameters : Params)
    → IsRead m
    → Lacks b' ' target
    → get_parameters target true ≡ ok parameters
    → c.request.mode ≡ reading_method
    → handle_line post_max c (print_target m target) ≡ ok (continue, opened c m target parameters)
unfolding handle_line in_mode
read_first post_max c m target parameters r h g e =
    ap (λ mode. in_mode post_max mode c (print_target m target)) e
    ∙ rw (trim-append (method_name m ++ b' ' ∷ (target ++ b' ' ∷ codes "HTTP/1.1")))
        (read_method_line c m target parameters r h g)

-- The connection behind the lines of a head.
abbrev pub headed : Conn → Method → Bytes → Params → List (Bytes × Bytes) → Conn
headed c m target parameters hs =
    with_headers (opened c m target parameters) (add_all hs c.request.headers)

pub feed_start :
    (post_max : Bytes → PostMax) (c : Conn) (m : Method) (target : Bytes) (parameters : Params)
    (hs : List (Bytes × Bytes)) (tail : List Bytes)
    → IsRead m
    → Lacks b' ' target
    → get_parameters target true ≡ ok parameters
    → All IsPlain hs
    → c.request.mode ≡ reading_method
    → feed post_max c (print_target m target ∷ (map print_header hs ++ tail))
      ≡ feed post_max (headed c m target parameters hs) tail
unfolding feed after
feed_start post_max c m target parameters hs tail r h g p e =
    rw (read_first post_max c m target parameters r h g e)
      (feed_headers post_max (opened c m target parameters) hs tail p refl)

-- The head of a request, printed for any of the four methods, a target with no space and headers of
-- any names but the three special ones, is read to its end, and sets the method, the path, the
-- parameters of the target, the version and the headers in their order.
pub feed_head :
    (post_max : Bytes → PostMax) (c : Conn) (m : Method) (target : Bytes) (parameters : Params)
    (hs : List (Bytes × Bytes))
    → IsRead m
    → Lacks b' ' target
    → get_parameters target true ≡ ok parameters
    → All IsPlain hs
    → c.request.mode ≡ reading_method
    → feed post_max c (print_target m target ∷ (map print_header hs ++ blank ∷ []))
      ≡ ok
          (end_headers (with_headers (opened c m target parameters) (add_all hs c.request.headers)))
feed_head post_max c m target parameters hs r h g p e =
    feed_start post_max c m target parameters hs (blank ∷ []) r h g p e
    ∙ feed-blank post_max (headed c m target parameters hs) refl
