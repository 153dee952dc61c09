-- ===== src/Http/Client/Refused.antt =====
-- http/Request, http/Client, Core.cpp: lines that are no method lines.
use algiz.Base.{
  ℕ, ◌==◌, ◌≡◌, refl, sym, ap, ◌∙◌, List, [], ◌∷◌, ◌++◌, append_assoc, append-nil, true, false,
  if◌then◌else◌, drop, All, Bool-cases, inl, inr,
}
use algiz.Base.Bytes.{Bytes, Lacks, codes, is_empty, find_byte-Lacks}
use algiz.Base.Table.{update, update_self, update-update}
use algiz.Http.Request.{reading_method, parse_error}
use algiz.Http.Request.Failed.{left_behind, method_left, left_in}
use algiz.Http.Request.Lines.{Conn, PostMax, handle_line, method_line, in_mode, trim, drop_suffix}
use algiz.Http.Response.{response, to_string, no_content, set_close}
use algiz.Http.Response.Codes.{description}
use algiz.Http.Client.{handle_message, input_line, caught, http_client, sorry_text}
use algiz.Http.Client.Feeding.{IsReading, reading_by, reading_same, plain_input}
use algiz.Http.Server.{close, final}
use algiz.Http.Session.{Session, World, Handlers, change, send, send_response}
use algiz.Net.Read.{handled, Reading, going, handled_then}
use algiz.Net.Read.Lines.{deliver}

drop_suffix-Lacks : (a b : ℕ) (s : Bytes) → Lacks a s → Lacks a (drop_suffix b s)
unfolding drop_suffix
drop_suffix-Lacks a b [] h = tt
drop_suffix-Lacks a b (c ∷ []) h = elim (Bool-cases (c == b)) [ inl e ↦ rw e tt | inr e ↦ rw e h ]
drop_suffix-Lacks a b (c ∷ d ∷ s) (hc, h) = (hc, drop_suffix-Lacks a b (d ∷ s) h)

trim-Lacks : (a : ℕ) (s : Bytes) → Lacks a s → Lacks a (trim s)
trim-Lacks a s h = drop_suffix-Lacks a b'\r' (drop_suffix b'\n' s) (drop_suffix-Lacks a b'\n' s h)

refused_line :
    (post_max : Bytes → PostMax) (c : Conn) (line : Bytes)
    → c.request.mode ≡ reading_method
    → Lacks b' ' line
    → handle_line post_max c line ≡ parse_error
unfolding handle_line in_mode method_line
refused_line post_max c line mode h =
    ap (λ m. in_mode post_max m c line) mode
    ∙ rw (find_byte-Lacks b' ' (trim line) (trim-Lacks b' ' line h), method_line) refl

nothing_behind :
    (c : Conn) (line : Bytes)
    → c.request.mode ≡ reading_method
    → Lacks b' ' line
    → left_behind c line ≡ c
unfolding left_behind left_in method_left
nothing_behind c line mode h =
    ap (λ m. left_in m c line) mode
    ∙ rw (find_byte-Lacks b' ' (trim line) (trim-Lacks b' ' line h), method_left) refl

abbrev pub sorry : Bytes
sorry = to_string (response 400 sorry_text (codes "text/html"))

is_empty-append : (s : Bytes) (b : ℕ) (t : Bytes) → is_empty (s ++ b ∷ t) ≡ false
is_empty-append [] b t = refl
is_empty-append (c ∷ s) b t = refl

not_empty : (s : Bytes) → is_empty (s ++ sorry) ≡ false
unfolding to_string no_content description response set_close
not_empty s = is_empty-append s 72 (drop 1 sorry)

-- The texts that answer the lines.
abbrev pub answers : List Bytes → Bytes
answers [] = []
answers (line ∷ lines) = sorry ++ answers lines

abbrev pub leaving_with : Bytes → Session → Session
leaving_with text s = record s { output = s.output ++ text; leaving = true }

module _ {ℓ} {σ : Type ℓ} (post_max : Bytes → PostMax) (handlers : Handlers σ) (client : ℕ) where
  spoiled_same :
      (w : World σ) (line : Bytes)
      → (w.sessions client).conn.request.mode ≡ reading_method
      → Lacks b' ' line
      → reading_by post_max handlers client (left_behind (w.sessions client).conn line) w ≡ w
  spoiled_same w line mode h =
      reading_same post_max handlers client _ w
        (nothing_behind (w.sessions client).conn line mode h)

  input_refused :
      (w : World σ) (line : Bytes)
      → (w.sessions client).conn.request.mode ≡ reading_method
      → Lacks b' ' line
      → input_line post_max handlers client line w ≡ (parse_error, w)
  unfolding input_line
  input_refused w line mode h =
      rw (refused_line post_max (w.sessions client).conn line mode h, input_line)
        (ap (λ v. (parse_error, v)) (spoiled_same w line mode h))

  sent :
      (text : Bytes) (w : World σ)
      → (w.sessions client).attached ≡ true
      → send client text w ≡ change client (λ s. record s { output = s.output ++ text }) w
  unfolding send
  sent text w e =
      ap (λ b. change client (λ s. if b then record s { output = s.output ++ text } else s) w) e

  queued :
      (w : World σ)
      → (w.sessions client).attached ≡ true
      → is_empty (w.sessions client).output ≡ false
      → close handlers client w ≡ change client (λ s. record s { leaving = true }) w
  unfolding close
  queued w e h = rw (e, h) refl

  abbrev after_text : Bytes → World σ → World σ
  after_text text w = change client (λ s. record s { output = s.output ++ text }) w

  at_text :
      (text : Bytes) (w : World σ)
      → (after_text text w).sessions client
        ≡ record (w.sessions client) { output = (w.sessions client).output ++ text }
  at_text text w = update_self w.sessions client _

  final_queued :
      (w : World σ)
      → (w.sessions client).attached ≡ true
      → final handlers client 400 sorry_text w ≡ change client (leaving_with sorry) w
  unfolding send_response
  final_queued w e =
      ap (close handlers client) (sent sorry w e)
      ∙ (queued (after_text sorry w) (ap (λ s. s.attached) (at_text sorry w) ∙ e)
            (ap (λ s. is_empty s.output) (at_text sorry w) ∙ not_empty (w.sessions client).output)
          ∙ ap (λ t. record w { sessions = t })
              (ap
                  (λ s.
                    update
                      (update w.sessions client (record (w.sessions client) {
                        output = (w.sessions client).output ++ sorry;
                      }))
                      client (record s { leaving = true }))
                  (at_text sorry w)
                ∙ update-update w.sessions client _ _))

  -- A line without a space in place of a method line is answered with a 400, whose text is not yet
  -- written when the connection is to be closed: the client stays and waits for a method line.
  one_refused :
      (w : World σ) (line : Bytes)
      → IsReading post_max handlers client w
      → (w.sessions client).conn.request.mode ≡ reading_method
      → Lacks b' ' line
      → handle_message post_max handlers client w line
        ≡ handled (change client (leaving_with sorry) w)
  unfolding caught
  one_refused w line reading mode h =
      plain_input post_max handlers client w line reading
      ∙ (ap (caught post_max handlers client) (input_refused w line mode h)
          ∙ ap handled (final_queued w reading.0))

  IsReading-kept :
      (text : Bytes) (w : World σ)
      → IsReading post_max handlers client w
      → IsReading post_max handlers client (change client (leaving_with text) w)
  IsReading-kept text w (a, b) = (
    ap (λ s. s.attached) (update_self w.sessions client (leaving_with text (w.sessions client)))
        ∙ a,
    ap (λ s. s.is_websocket) (update_self w.sessions client (leaving_with text (w.sessions client)))
        ∙ b,
  )

  joined :
      (text more : Bytes) (w : World σ)
      → change client (leaving_with more) (change client (leaving_with text) w)
        ≡ change client (leaving_with (text ++ more)) w
  joined text more w =
      ap (λ t. record w { sessions = t })
        (ap
            (λ s.
              update (update w.sessions client (leaving_with text (w.sessions client))) client
                (leaving_with more s))
            (update_self w.sessions client (leaving_with text (w.sessions client)))
          ∙ (update-update w.sessions client _ _
              ∙ ap
                  (λ t.
                    update w.sessions client
                      (record (w.sessions client) { output = t; leaving = true }))
                  (append_assoc (w.sessions client).output text more)))

  refused_then :
      (w : World σ) (line : Bytes) (lines : List Bytes) (rest : Bytes)
      → IsReading post_max handlers client w
      → (w.sessions client).conn.request.mode ≡ reading_method
      → Lacks b' ' line
      → deliver (http_client post_max handlers client) w (line ∷ lines) rest
        ≡ deliver
            (http_client post_max handlers client)
            (change client (leaving_with sorry) w)
            lines
            rest
  unfolding deliver
  refused_then w line lines rest reading mode h =
      ap
        (λ m.
          handled_then (http_client post_max handlers client) m
            (λ w'. deliver (http_client post_max handlers client) w' lines rest))
        (one_refused w line reading mode h)
      ∙ ap
          (λ b.
            if b
            then deliver (http_client post_max handlers client)
                (change client (leaving_with sorry) w) lines rest
            else Reading.stale)
          (IsReading-kept sorry w reading).0

  -- On a connection that waits for a request, and is no WebSocket, each of several lines without a
  -- space in place of a method line is answered with a 400 of its own: the first answer closes the
  -- connection, but as its text is not yet written, the client stays, and the lines behind it are
  -- handled in the same way.
  pub deliver-refused :
      (w : World σ) (line : Bytes) (lines : List Bytes) (rest : Bytes)
      → IsReading post_max handlers client w
      → (w.sessions client).conn.request.mode ≡ reading_method
      → All (Lacks b' ') (line ∷ lines)
      → deliver (http_client post_max handlers client) w (line ∷ lines) rest
        ≡ going (change client (leaving_with (answers (line ∷ lines))) w) rest
  unfolding deliver
  deliver-refused w line [] rest reading mode (h, hs) =
      refused_then w line [] rest reading mode h
      ∙ ap (λ t. going (change client (leaving_with t) w) rest) (sym (append-nil sorry))
  deliver-refused w line (next ∷ lines) rest reading mode (h, hs) =
      refused_then w line (next ∷ lines) rest reading mode h
      ∙ (deliver-refused (change client (leaving_with sorry) w) next lines rest
            (IsReading-kept sorry w reading)
            (ap (λ s. s.conn.request.mode)
                (update_self w.sessions client (leaving_with sorry (w.sessions client)))
              ∙ mode)
            hs
          ∙ ap (λ v. going v rest) (joined sorry (answers (next ∷ lines)) w))
