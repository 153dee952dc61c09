-- ===== src/Http/Client/Caught.antt =====
-- http/Client and Core.cpp: which exceptions of a client's input leave the message handler.
use algiz.Base.{
  ℕ, ◌≡◌, refl, ap, ◌∙◌, ◌⊎◌, inl, inr, Bool-cases, Option, none, some, Bool, false, if◌then◌else◌,
}
use algiz.Base.Bytes.{Bytes}
use algiz.Http.Request.{
  Request, Method, HandleResult, continue, disable_line_mode, done, Outcome, ok, parse_error,
  unsupported_method, undefined,
}
use algiz.Http.Request.Failed.{left_behind}
use algiz.Http.Request.Lines.{Step, PostMax, handle_line}
use algiz.Http.Client.{
  on_events, or_undefined, by_method, handle_request, with_conn, after_line, input_line,
  handle_input, caught, handle_message, sorry_text,
}
use algiz.Http.Server.{close, final, handle_get, handle_post}
use algiz.Http.Session.{World, Handlers, change, send400}
use algiz.Http.WebSocket.{handle_input as websocket_input}
use algiz.Net.Read.{handled, wild}

-- What the message handler catches, or what is no exception.
abbrev IsCaught {ℓ} : {A : Type ℓ} → Outcome A → Type 0
IsCaught (ok w) = Unit
IsCaught parse_error = Unit
IsCaught undefined = Unit
IsCaught unsupported_method = ⊥

module _ {ℓ} {σ : Type ℓ} (post_max : Bytes → PostMax) (handlers : Handlers σ) (client : ℕ) where
  WithCaught : Outcome (World σ) × World σ → Type 0
  WithCaught (o, left) = IsCaught o

  given : (o : Option (World σ)) → IsCaught (or_undefined post_max handlers client o)
  given none = tt
  given (some w) = tt

  method-IsCaught :
      (m : Method) (request : Request) (w : World σ)
      → IsCaught (by_method post_max handlers client m request w)
  unfolding by_method
  method-IsCaught Method.get request w = given (handle_get handlers client request w)
  method-IsCaught Method.post request w = given (handle_post handlers client request w)
  method-IsCaught Method.head request w = tt
  method-IsCaught Method.put request w = tt
  method-IsCaught Method.invalid request w = tt

  after_caught :
      (r : HandleResult) (w : World σ) → WithCaught (after_line post_max handlers client r w)
  unfolding after_line handle_request WithCaught
  after_caught continue w = tt
  after_caught disable_line_mode w = tt
  after_caught done w =
      method-IsCaught (w.sessions client).conn.request.method (w.sessions client).conn.request w

  outcome_caught :
      (o : Outcome Step) (spoiled w : World σ)
      → WithCaught (elim o [
        | ok (result, c) ↦
            after_line post_max handlers client result
              (change client (with_conn post_max handlers client c) w)
        | parse_error ↦ (parse_error, spoiled)
        | unsupported_method ↦ (ok (close handlers client (send400 client w)), w)
        | undefined ↦ (undefined, w)
      ])
  unfolding WithCaught
  outcome_caught (ok (result, c)) spoiled w = after_caught result _
  outcome_caught parse_error spoiled w = tt
  outcome_caught unsupported_method spoiled w = tt
  outcome_caught undefined spoiled w = tt

  line_caught :
      (message : Bytes) (w : World σ) → WithCaught (input_line post_max handlers client message w)
  unfolding input_line
  line_caught message w =
      outcome_caught (handle_line post_max (w.sessions client).conn message)
        (change client
          (with_conn post_max handlers client (left_behind (w.sessions client).conn message)) w)
        w

  caught_ends :
      (o : Outcome (World σ)) (left : World σ)
      → IsCaught o
      → ((v : World σ) × (caught post_max handlers client (o, left) ≡ handled v))
        ⊎ ((o ≡ undefined) × (caught post_max handlers client (o, left) ≡ wild))
  unfolding caught
  caught_ends (ok w) left h = inl (w, refl)
  caught_ends parse_error left h = inl (final handlers client 400 sorry_text left, refl)
  caught_ends undefined left h = inr (refl, refl)
  caught_ends unsupported_method left h = absurd h

  websocket_caught : (v : World σ) → caught post_max handlers client (ok v, v) ≡ handled v
  unfolding caught
  websocket_caught v = refl

  -- A message is handled, unless a line makes the code do what is undefined.
  pub message_ends :
      (w : World σ) (message : Bytes)
      → ((v : World σ) × (handle_message post_max handlers client w message ≡ handled v))
        ⊎ (((w.sessions client).is_websocket ≡ false)
            × ((handle_input post_max handlers client message w).0 ≡ undefined)
            × (handle_message post_max handlers client w message ≡ wild))
  unfolding handle_message handle_input WithCaught
  message_ends w message = elim (Bool-cases (w.sessions client).is_websocket) [
    | inl b ↦
        inl (after, ap (λ b. caught post_max handlers client (either b)) b ∙ websocket_caught after)
    | inr b ↦ elim (caught_ends line.0 line.1 (line_caught message w)) [
      | inl (v, e) ↦ inl (v, ap (λ b. caught post_max handlers client (either b)) b ∙ e)
      | inr (u, e) ↦ inr (
        b,
        ap (λ b. (either b).0) b ∙ u,
        ap (λ b. caught post_max handlers client (either b)) b ∙ e,
      )
    ]
  ]
    where
      after : World σ
      after =
          on_events post_max handlers client (websocket_input (w.sessions client).ws message).0 (
            change client
              (λ s. record s { ws = (websocket_input (w.sessions client).ws message).1 }) w)

      line : Outcome (World σ) × World σ
      line = input_line post_max handlers client message w

      either : Bool → Outcome (World σ) × World σ
      either b = if b then (ok after, after) else line
