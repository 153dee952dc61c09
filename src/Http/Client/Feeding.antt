-- ===== src/Http/Client/Feeding.antt =====
-- src/net/Server.cpp, http/Request, http/Client and http/Server together: a head that arrives in one read.
use algiz.Base.{
  ℕ, ◌≡◌, ◌≤◌, ◌<◌, refl, sym, ap, ◌∙◌, List, [], ◌∷◌, ◌++◌, append-nil, map, true, false,
  if◌then◌else◌, length, All, arith, Bool-cases, inl, inr,
}
use algiz.Base.Bytes.{Bytes, flat, Lacks, codes}
use algiz.Base.Map.{contains}
use algiz.Base.Table.{update, update_self, update_same, update-update}
use algiz.Http.Request.{
  Method, reading_method, reading_headers, HandleResult, continue, disable_line_mode, done, Outcome,
  ok, parse_error, unsupported_method, undefined, ◌>>=◌, Params, reading_content,
}
use algiz.Http.Request.Params.{get_parameters}
use algiz.Http.Request.Lines.{Conn, PostMax, Step, handle_line, end_headers}
use algiz.Http.Request.Lines.Body.{feed, after}
use algiz.Http.Request.Lines.Head.{
  IsRead, IsPlain, print_target, print_header, headed, blank, feed_start, read_blank,
}
use algiz.Http.Client.{
  handle_message, handle_input, input_line, after_line, caught, with_conn, http_client,
  handle_request,
}
use algiz.Http.Session.{World, Handlers, change}
use algiz.Net.Read.{
  Handled, handled, Reading, going, and_then, handled_then, end_round, handle_read,
}
use algiz.Net.Read.Lines.{deliver, ended, handle_read-deliver}

module _ {ℓ} {σ : Type ℓ} (post_max : Bytes → PostMax) (handlers : Handlers σ) (client : ℕ) where
  abbrev pub reading_by : Conn → World σ → World σ
  reading_by c w = change client (with_conn post_max handlers client c) w

  -- A client that is connected and no WebSocket.
  abbrev pub IsReading : World σ → Type 0
  IsReading w = ((w.sessions client).attached ≡ true) × ((w.sessions client).is_websocket ≡ false)

  pub at_client :
      (c : Conn) (w : World σ)
      → (reading_by c w).sessions client ≡ with_conn post_max handlers client c (w.sessions client)
  at_client c w = update_self w.sessions client _

  pub stays : (c : Conn) (w : World σ) → IsReading w → IsReading (reading_by c w)
  stays c w (a, b) =
      (ap (λ s. s.attached) (at_client c w) ∙ a, ap (λ s. s.is_websocket) (at_client c w) ∙ b)

  pub reading_same : (c : Conn) (w : World σ) → c ≡ (w.sessions client).conn → reading_by c w ≡ w
  reading_same c w e =
      ap (λ t. record w { sessions = t })
        (update_same w.sessions client _
          (ap (λ c. with_conn post_max handlers client c (w.sessions client)) e))

  reading_twice : (c d : Conn) (w : World σ) → reading_by d (reading_by c w) ≡ reading_by d w
  reading_twice c d w =
      ap (λ t. record w { sessions = t })
        (ap
            (λ s.
              update
                (update w.sessions client
                  (with_conn post_max handlers client c (w.sessions client)))
                client (with_conn post_max handlers client d s))
            (at_client c w)
          ∙ update-update w.sessions client _ _)

  pub plain_input :
      (w : World σ) (message : Bytes)
      → IsReading w
      → handle_message post_max handlers client w message
        ≡ caught post_max handlers client (input_line post_max handlers client message w)
  unfolding handle_message handle_input
  plain_input w message (_, plain) = rw plain refl

  line_read :
      (w : World σ) (line : Bytes) (c : Conn)
      → handle_line post_max (w.sessions client).conn line ≡ ok (continue, c)
      → input_line post_max handlers client line w ≡ (ok (reading_by c w), reading_by c w)
  unfolding input_line after_line
  line_read w line c h = rw (h, input_line) refl

  line_done :
      (w : World σ) (line : Bytes) (c : Conn)
      → handle_line post_max (w.sessions client).conn line ≡ ok (done, c)
      → input_line post_max handlers client line w
        ≡ (handle_request post_max handlers client (reading_by c w), reading_by c w)
  unfolding input_line after_line
  line_done w line c h = rw (h, input_line) refl

  ok_inj : {c d : Conn} → ◌≡◌ {A = Outcome Step} (ok (continue, c)) (ok (continue, d)) → c ≡ d
  ok_inj {c} h = ap (λ o. elim o [ ok (result, e) ↦ e | _ ↦ c ]) h

  -- The first of several lines that leave the request unfinished.
  first_line :
      (next : Conn → Outcome (HandleResult × Conn)) (o : Outcome (HandleResult × Conn)) (c : Conn)
      → (o >>= after next) ≡ ok (continue, c)
      → (d : Conn) × (o ≡ ok (continue, d)) × (next d ≡ ok (continue, c))
  unfolding after
  first_line next (ok (continue, d)) c h = (d, refl, h)
  first_line next (ok (disable_line_mode, d)) c h = absurd (ground arith)
  first_line next (ok (done, d)) c h = absurd (ground arith)
  first_line next parse_error c h = absurd (ground arith)
  first_line next unsupported_method c h = absurd (ground arith)
  first_line next undefined c h = absurd (ground arith)

  one_line :
      (w : World σ) (line : Bytes) (lines : List Bytes) (rest : Bytes) (d : Conn)
      → IsReading w
      → handle_line post_max (w.sessions client).conn line ≡ ok (continue, d)
      → deliver (http_client post_max handlers client) w (line ∷ lines) rest
        ≡ deliver (http_client post_max handlers client) (reading_by d w) lines rest
  unfolding deliver caught
  one_line w line lines rest d reading h =
      ap
        (λ m.
          handled_then (http_client post_max handlers client) m
            (λ w'. deliver (http_client post_max handlers client) w' lines rest))
        (plain_input w line reading ∙ ap (caught post_max handlers client) (line_read w line d h))
      ∙ ap
          (λ b.
            if b
            then deliver (http_client post_max handlers client) (reading_by d w) lines rest
            else Reading.stale)
          (stays d w reading).0

  -- Lines that leave the request unfinished are read one after the other, and the reader goes on with the
  -- lines behind them.
  pub deliver-feed :
      (w : World σ) (lines tail : List Bytes) (rest : Bytes) (c : Conn)
      → IsReading w
      → feed post_max (w.sessions client).conn lines ≡ ok (continue, c)
      → deliver (http_client post_max handlers client) w (lines ++ tail) rest
        ≡ deliver (http_client post_max handlers client) (reading_by c w) tail rest
  unfolding feed
  deliver-feed w [] tail rest c reading h =
      ap (λ v. deliver (http_client post_max handlers client) v tail rest)
        (sym (reading_same c w (sym (ok_inj h))))
  deliver-feed w (line ∷ lines) tail rest c reading h =
      let (d, first, more) =
        first_line (λ c'. feed post_max c' lines)
          (handle_line post_max (w.sessions client).conn line) c h in
      one_line w line (lines ++ tail) rest d reading first
      ∙ (deliver-feed (reading_by d w) lines tail rest c (stays d w reading)
            (ap (λ s. feed post_max s.conn lines) (at_client d w) ∙ more)
          ∙ ap (λ v. deliver (http_client post_max handlers client) v tail rest)
              (reading_twice d c w))

  -- A request whose head is read and that has no content.
  abbrev pub finished : Conn → Conn
  finished c = record c { request = record (c.request) { mode = reading_content } }

  blank_line :
      (c : Conn)
      → c.request.mode ≡ reading_headers
      → contains (codes "content-length") c.request.headers ≡ false
      → handle_line post_max c blank ≡ ok (done, finished c)
  unfolding end_headers
  blank_line c mode bare = read_blank post_max c mode ∙ rw bare refl

  abbrev pub requested : Conn → World σ → Handled (World σ)
  requested c w =
      caught post_max handlers client
        (handle_request post_max handlers client (reading_by c w), reading_by c w)

  end_line :
      (w : World σ) (c : Conn)
      → IsReading w
      → c.request.mode ≡ reading_headers
      → contains (codes "content-length") c.request.headers ≡ false
      → handle_message post_max handlers client (reading_by c w) blank ≡ requested (finished c) w
  end_line w c reading mode bare =
      plain_input (reading_by c w) blank (stays c w reading)
      ∙ (ap (caught post_max handlers client) (
            line_done (reading_by c w) blank (finished c) (
              ap (λ s. handle_line post_max s.conn blank) (at_client c w) ∙ blank_line c mode bare))
          ∙ ap (λ v. caught post_max handlers client (handle_request post_max handlers client v, v))
              (reading_twice c (finished c) w))

  -- A round that ends with an empty buffer ends as its last handler does.
  nothing_left :
      (h : Handled (World σ))
      → and_then
          (http_client post_max handlers client)
          (handled_then (http_client post_max handlers client) h (λ w. going w []))
          (end_round (http_client post_max handlers client))
        ≡ handled_then (http_client post_max handlers client) h (λ w. going w [])
  unfolding end_round
  nothing_left (handled w) = elim (Bool-cases (w.sessions client).attached) [
    | inl e ↦ rw e refl
    | inr e ↦ rw e refl
  ]
  nothing_left (Handled.threw w) = refl
  nothing_left Handled.wild = refl

  abbrev pub head_lines : Method → Bytes → List (Bytes × Bytes) → List Bytes
  head_lines m target hs = print_target m target ∷ map print_header hs

  deliver-head :
      (w : World σ) (m : Method) (target : Bytes) (parameters : Params) (hs : List (Bytes × Bytes))
      → IsReading w
      → (w.sessions client).conn.request.mode ≡ reading_method
      → IsRead m
      → Lacks b' ' target
      → get_parameters target true ≡ ok parameters
      → All IsPlain hs
      → deliver (http_client post_max handlers client) w (head_lines m target hs ++ blank ∷ []) []
        ≡ deliver
            (http_client post_max handlers client)
            (reading_by (headed (w.sessions client).conn m target parameters hs) w)
            (blank ∷ [])
            []
  unfolding feed
  deliver-head w m target parameters hs reading mode read one_word query plain =
      deliver-feed w (head_lines m target hs) (blank ∷ []) []
        (headed (w.sessions client).conn m target parameters hs) reading
        (ap (λ t. feed post_max (w.sessions client).conn (print_target m target ∷ t))
            (sym (append-nil (map print_header hs)))
          ∙ feed_start post_max (w.sessions client).conn m target parameters hs [] read one_word
              query plain mode)

  some_text : (line more : Bytes) → 0 < length (ended line ++ more)
  some_text [] more = omega arith
  some_text (b ∷ line) more = omega arith

  -- The head of a request, printed for any of the four methods, a target without a space and headers
  -- of any names but the three special ones, with no line break in them and no content-length among
  -- them, arrives in one read that takes all of it and is no longer than a line may be, on a
  -- connection in line mode that waits for a request, is no WebSocket and has no limit on what is
  -- read. The read is then what the server does with the request of the printed method, path,
  -- parameters and headers, and ends with an empty buffer if the client is still there.
  pub handle_read-head :
      (size : ℕ) (w : World σ) (m : Method) (target : Bytes) (parameters : Params)
      (hs : List (Bytes × Bytes))
      → IsReading w
      → (w.sessions client).line_mode ≡ true
      → (w.sessions client).conn.max_read ≡ 0
      → (w.sessions client).conn.request.mode ≡ reading_method
      → IsRead m
      → Lacks b' ' target
      → get_parameters target true ≡ ok parameters
      → All IsPlain hs
      → All (Lacks b'\n') (head_lines m target hs ++ blank ∷ [])
      → contains
          (codes "content-length")
          (headed (w.sessions client).conn m target parameters hs).request.headers
        ≡ false
      → length (flat (map ended (head_lines m target hs ++ blank ∷ []))) ≤ size
      → length (flat (map ended (head_lines m target hs ++ blank ∷ []))) ≤ 8192
      → handle_read
          (http_client post_max handlers client)
          size
          w
          []
          (flat (map ended (head_lines m target hs ++ blank ∷ [])))
        ≡ handled_then
            (http_client post_max handlers client)
            (requested (finished (headed (w.sessions client).conn m target parameters hs)) w)
            (λ w'. going w' [])
  unfolding deliver
  handle_read-head size w m target parameters hs reading lines unlimited mode read one_word query
        plain unbroken bare fits short =
      handle_read-deliver (http_client post_max handlers client) size w []
        (flat (map ended (head_lines m target hs ++ blank ∷ [])))
        (head_lines m target hs ++ blank ∷ []) [] lines unlimited
        (some_text (print_target m target) (flat (map ended (map print_header hs ++ blank ∷ []))))
        fits (omega (arith, short))
        (sym (append-nil (flat (map ended (head_lines m target hs ++ blank ∷ []))))) unbroken tt
      ∙ (ap
            (λ r.
              and_then (http_client post_max handlers client) r
                (end_round (http_client post_max handlers client)))
            (deliver-head w m target parameters hs reading mode read one_word query plain
              ∙ ap (λ h. handled_then (http_client post_max handlers client) h (λ w'. going w' []))
                  (end_line w (headed (w.sessions client).conn m target parameters hs) reading refl
                    bare))
          ∙ nothing_left
              (requested (finished (headed (w.sessions client).conn m target parameters hs)) w))
