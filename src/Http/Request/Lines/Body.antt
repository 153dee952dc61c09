-- ===== src/Http/Request/Lines/Body.antt =====
-- http/Request: the content of a request, read in chunks, and what follows a request.
use algiz.Base.{
  ◌+◌, ◌-◌, ◌≡◌, ◌<◌, refl, List, [], ◌∷◌, ◌++◌, true, false, length, length-append, arith,
  append_assoc, ◌∙◌, ap, sym, if◌then◌else◌, ◌==◌, ltb, drop,
}
use algiz.Base.Bytes.{Bytes, flat, codes}
use algiz.Base.Map.{contains}
use algiz.Http.Request.{
  Request, reading_content, reading_headers, reading_method, continue, disable_line_mode, done,
  Outcome, ok, parse_error, undefined, unsupported_method, ◌>>=◌,
}
use algiz.Http.Request.Lines.{
  Conn, Step, PostMax, handle_line, content_line, finish, end_headers, in_mode, drop_suffix,
  is_post, absorb_post,
}

-- Lines handed over one after the other until one ends the request or its head.
unfoldable pub after : (Conn → Outcome Step) → Step → Outcome Step
after next (continue, c) = next c
after next (disable_line_mode, c) = ok (disable_line_mode, c)
after next (done, c) = ok (done, c)

unfoldable pub feed : (Bytes → PostMax) → Conn → List Bytes → Outcome Step
unfolding after
feed post_max c [] = ok (continue, c)
feed post_max c (line ∷ lines) =
    handle_line post_max c line >>= after (λ c'. feed post_max c' lines)

-- The request with its whole content.
abbrev pub filled : Conn → Bytes → Request
filled c body = record (c.request) { content = c.request.content ++ body; length_remaining = 0 }

content_mode :
    (post_max : Bytes → PostMax) (c : Conn) (line : Bytes)
    → c.request.mode ≡ reading_content
    → handle_line post_max c line ≡ content_line c line
unfolding handle_line in_mode
content_mode post_max c line e = ap (λ m. in_mode post_max m c line) e

content_whole :
    (c : Conn) (line : Bytes)
    → length line ≡ c.request.length_remaining
    → content_line c line ≡ finish c (filled c line)
unfolding content_line
content_whole c line e =
    let a : ltb c.request.length_remaining (length line) ≡ false = ground arith in
    let b : (c.request.length_remaining == length line) ≡ true = ground arith in rw a (rw b refl)

abbrev pub partly : Conn → Bytes → Conn
partly c line = record c {
  request = record (c.request) {
    content = c.request.content ++ line;
    length_remaining = c.request.length_remaining - length line;
  };
}

content_part :
    (c : Conn) (line : Bytes)
    → length line < c.request.length_remaining
    → content_line c line ≡ ok (continue, partly c line)
unfolding content_line
content_part c line h =
    let a : ltb c.request.length_remaining (length line) ≡ false = ground arith in
    let b : (c.request.length_remaining == length line) ≡ false = ground arith in
    let d : (c.request.length_remaining == 0) ≡ false = ground arith in rw a (rw b (rw d refl))

after-finish :
    (c : Conn) (r : Request) (next : Conn → Outcome Step) → (finish c r >>= after next) ≡ finish c r
unfolding after
after-finish c r next = go (if is_post r.method then absorb_post r else ok r)
  where
    go :
        (o : Outcome Request)
        → ((o >>= λ r'. ok (done, record c { request = record r' { mode = reading_method } }))
            >>= after next)
          ≡ (o >>= λ r'. ok (done, record c { request = record r' { mode = reading_method } }))
    go (ok r') = refl
    go parse_error = refl
    go unsupported_method = refl
    go undefined = refl

-- A content that arrives in any chunks, whose lengths add up to the announced one and the last of
-- which is not empty, is appended whole, and the request is finished at the last chunk.
pub feed_chunks :
    (post_max : Bytes → PostMax) (c : Conn) (chunks : List Bytes) (last : Bytes)
    → c.request.mode ≡ reading_content
    → length (flat chunks) + length last ≡ c.request.length_remaining
    → 0 < length last
    → feed post_max c (chunks ++ last ∷ []) ≡ finish c (filled c (flat chunks ++ last))
unfolding feed
feed_chunks post_max c [] last e total pos =
    rw (content_mode post_max c last e, content_whole c last (omega arith)) (after-finish c _ _)
feed_chunks post_max c (s ∷ chunks) last e total pos =
    rw
      (content_mode post_max c s e, content_part c s (grind (arith, length-append s (flat chunks))))
      (feed_chunks post_max (partly c s) chunks last e
          (grind (arith, length-append s (flat chunks))) pos
        ∙ ap (λ body. finish c (record (c.request) { content = body; length_remaining = 0 }))
            (append_assoc c.request.content s (flat chunks ++ last)
              ∙ ap (◌++◌ c.request.content) (sym (append_assoc s (flat chunks) last))))

abbrev blank : Bytes
blank = b'\r' ∷ []

-- The state behind a request that has no content: the mode is left at the content.
abbrev idle : Conn → Conn
idle c = record c { request = record (c.request) { mode = reading_content } }

blank_ends :
    (post_max : Bytes → PostMax) (c : Conn)
    → c.request.mode ≡ reading_headers
    → contains (codes "content-length") c.request.headers ≡ false
    → handle_line post_max c blank ≡ ok (done, idle c)
unfolding handle_line in_mode end_headers drop_suffix
blank_ends post_max c e h = ap (λ m. in_mode post_max m c blank) e ∙ rw (h, end_headers)

plain_finish :
    (c : Conn) (r : Request)
    → is_post r.method ≡ false
    → finish c r ≡ ok (done, record c { request = record r { mode = reading_method } })
plain_finish c r h = rw h refl

content_beyond :
    (c : Conn) (line : Bytes)
    → c.request.length_remaining < length line
    → content_line c line
      ≡ finish c (record (c.request) {
        content = c.request.content ++ drop c.request.length_remaining line;
        length_remaining = 0;
      })
unfolding content_line
content_beyond c line h =
    let a : ltb c.request.length_remaining (length line) ≡ true = ground arith in rw a refl

-- Behind a request with no content, other than a POST, that the blank line has ended, any next line
-- ends a request again: one with the path and the method of the first.
pub keep_alive_replays :
    (post_max : Bytes → PostMax) (c : Conn) (next : Bytes)
    → c.request.mode ≡ reading_headers
    → contains (codes "content-length") c.request.headers ≡ false
    → c.request.length_remaining ≡ 0
    → is_post c.request.method ≡ false
    → (c₁ : Conn) × (c₂ : Conn) × (handle_line post_max c blank ≡ ok (done, c₁))
      × (handle_line post_max c₁ next ≡ ok (done, c₂))
      × (c₂.request.path ≡ c₁.request.path)
      × (c₂.request.method ≡ c₁.request.method)
keep_alive_replays post_max c [] e h z m = (
  idle c,
  _,
  blank_ends post_max c e h,
  content_mode post_max (idle c) [] refl
      ∙ content_whole (idle c) [] (omega arith)
      ∙ plain_finish (idle c) (filled (idle c) []) m,
  refl,
  refl,
)
keep_alive_replays post_max c (x ∷ next) e h z m = (
  idle c,
  _,
  blank_ends post_max c e h,
  content_mode post_max (idle c) (x ∷ next) refl
      ∙ content_beyond (idle c) (x ∷ next) (omega arith)
      ∙ plain_finish (idle c) _ m,
  refl,
  refl,
)
