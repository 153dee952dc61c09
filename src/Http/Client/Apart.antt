-- ===== src/Http/Client/Apart.antt =====
-- http/Client: the input of one client, and the other clients.
use algiz.Base.{
  ℕ, ◌≡◌, ◌≢◌, refl, subst, ◌⊎◌, inl, inr, ◌∙◌, List, [], ◌∷◌, Option, none, some, false, All,
  if-both,
}
use algiz.Base.Bytes.{Bytes}
use algiz.Base.Table.{update-other}
use algiz.Http.Request.{
  Request, Method, HandleResult, continue, disable_line_mode, done, Outcome, ok, parse_error,
  unsupported_method, undefined,
}
use algiz.Http.Request.Failed.{left_behind}
use algiz.Http.Request.Lines.{Step, PostMax, handle_line}
use algiz.Http.Client.Caught.{message_ends}
use algiz.Http.Client.{
  on_event, on_events, or_undefined, by_method, handle_request, with_conn, after_line, input_line,
  handle_input, caught, handle_message, sorry_text,
}
use algiz.Http.Server.{close, handle_get, handle_post}
use algiz.Http.Session.{Session, World, Handlers, change, send400}
use algiz.Http.Server.Kept.{
  Rule, AtHandler, AtConnection, AtMessage, Within, kept_send, kept_close, kept_close_websocket,
  kept_send400, kept_final, kept_get, kept_post, kept_message,
}
use algiz.Http.WebSocket.{Event, handle_input as websocket_input}
use algiz.Net.Read.{Handled, handled, threw, wild}
use algiz.Plugins.Host.{Keeps}

-- What holds of the world that a handler leaves, if it leaves one.
abbrev pub Leaves {ℓ κ} : {A : Type ℓ} → (A → Type κ) → Handled A → Type κ
Leaves P (handled w) = P w
Leaves P (threw w) = P w
Leaves P wild = Unit

-- The session of a client is the given one.
abbrev pub Has {ℓ} : {σ : Type ℓ} → ℕ → Session → World σ → Type 0
Has other s w = w.sessions other ≡ s

abbrev Gives {ℓ κ} : {A : Type ℓ} → (A → Type κ) → Outcome A → Type κ
Gives P (ok w) = P w
Gives P parse_error = Unit
Gives P unsupported_method = Unit
Gives P undefined = Unit

module _ {ℓ κ} {σ : Type ℓ} (post_max : Bytes → PostMax) (handlers : Handlers σ) (client : ℕ)
    (P : World σ → Type κ) (rule : Rule handlers client P) where
  open rule use {on_change}

  kept_event : (e : Event) (w : World σ) → P w → P (on_event post_max handlers client e w)
  unfolding on_event
  kept_event (Event.message packet) w h = kept_message handlers client P rule packet w h
  kept_event (Event.pong packet) w h = kept_send handlers client P rule _ w h
  kept_event Event.close_frame w h =
      kept_close_websocket handlers client P rule _ (kept_send handlers client P rule _ w h)
  kept_event Event.refused w h =
      kept_close handlers client P rule _ (kept_send400 handlers client P rule w h)

  kept_events : (es : List Event) (w : World σ) → P w → P (on_events post_max handlers client es w)
  kept_events [] w h = h
  kept_events (e ∷ es) w h = kept_events es _ (kept_event e w h)

  gives : (o : Option (World σ)) → Within P o → Gives P (or_undefined post_max handlers client o)
  gives none h = tt
  gives (some w) h = h

  kept_method :
      (m : Method) (request : Request) (w : World σ)
      → P w
      → Gives P (by_method post_max handlers client m request w)
  unfolding by_method
  kept_method Method.get request w h =
      gives (handle_get handlers client request w) (kept_get handlers client P rule request w h)
  kept_method Method.post request w h =
      gives (handle_post handlers client request w) (kept_post handlers client P rule request w h)
  kept_method Method.head request w h = tt
  kept_method Method.put request w h = tt
  kept_method Method.invalid request w h = tt

  Both : Outcome (World σ) × World σ → Type κ
  Both (o, w) = Gives P o × P w

  kept_after :
      (r : HandleResult) (w : World σ) → P w → Both (after_line post_max handlers client r w)
  unfolding after_line handle_request Both
  kept_after continue w h = (h, h)
  kept_after disable_line_mode w h = (on_change (λ s. record s { line_mode = false }) w h, h)
  kept_after done w h =
      (kept_method (w.sessions client).conn.request.method (w.sessions client).conn.request w h, h)

  kept_outcome :
      (o : Outcome Step) (spoiled w : World σ)
      → P spoiled
      → P w
      → Both (elim o [
        | ok (result, c) ↦
            after_line post_max handlers client result
              (change client (with_conn post_max handlers client c) w)
        | parse_error ↦ (parse_error, spoiled)
        | unsupported_method ↦ (ok (close handlers client (send400 client w)), w)
        | undefined ↦ (undefined, w)
      ])
  unfolding Both
  kept_outcome (ok (result, c)) spoiled w k h =
      kept_after result _ (on_change (with_conn post_max handlers client c) w h)
  kept_outcome parse_error spoiled w k h = (tt, k)
  kept_outcome unsupported_method spoiled w k h =
      (kept_close handlers client P rule _ (kept_send400 handlers client P rule w h), h)
  kept_outcome undefined spoiled w k h = (tt, h)

  kept_input :
      (message : Bytes) (w : World σ) → P w → Both (input_line post_max handlers client message w)
  unfolding input_line
  kept_input message w h =
      kept_outcome (handle_line post_max (w.sessions client).conn message) _ w
        (on_change
          (with_conn post_max handlers client (left_behind (w.sessions client).conn message)) w h)
        h

  kept_handle :
      (message : Bytes) (w : World σ) → P w → Both (handle_input post_max handlers client message w)
  unfolding handle_input Both
  kept_handle message w h =
      let kept = kept_events (websocket_input (w.sessions client).ws message).0 _ (
        on_change (λ s. record s { ws = (websocket_input (w.sessions client).ws message).1 }) w
          h) in
      if-both Both (w.sessions client).is_websocket _ _ (λ _. (kept, kept))
        (λ _. kept_input message w h)

  kept_caught :
      (o : Outcome (World σ)) (w : World σ)
      → Gives P o
      → P w
      → Leaves P (caught post_max handlers client (o, w))
  unfolding caught
  kept_caught (ok v) w k h = k
  kept_caught parse_error w k h = kept_final handlers client P rule 400 sorry_text w h
  kept_caught unsupported_method w k h = tt
  kept_caught undefined w k h = tt

  -- Whatever a client sends, be it a line of a request, its content or a frame of a WebSocket, keeps each
  -- property of the world that the handlers of the plugins keep and that does not depend on the client.
  pub handle_message-Leaves :
      (w : World σ) (message : Bytes)
      → P w
      → Leaves P (handle_message post_max handlers client w message)
  unfolding handle_message Both
  handle_message-Leaves w message h =
      let (k, v) = kept_handle message w h in
      kept_caught (handle_input post_max handlers client message w).0
        (handle_input post_max handlers client message w).1 k v

-- The handlers of the plugins leave the session of another client as it is.
pub record LeaveAlone {ℓ} {σ : Type ℓ} (handlers : Handlers σ) (client other : ℕ) (s : Session)
    : Type ℓ where
  pub on_get : All (Keeps (AtHandler client (Has other s))) handlers.get_handlers
  pub on_post : All (Keeps (AtHandler client (Has other s))) handlers.post_handlers
  pub on_connection : All (Keeps (AtConnection client (Has other s))) handlers.connection_handlers
  pub on_message :
      (w : World σ) (pointer : ℕ)
      → Keeps (AtMessage client (Has other s)) (handlers.message_handler w pointer)
  pub on_close :
      (w : World σ) (pointer : ℕ) (handler : ℕ → World σ → World σ)
      → handlers.close_handler w pointer ≡ some handler
      → (v : World σ) → Has other s v
      → Has other s (handler client v)

module _ {ℓ} {σ : Type ℓ} (post_max : Bytes → PostMax) (handlers : Handlers σ)
    (client other : ℕ) where
  change-Has :
      (s : Session)
      → other ≢ client
      → (f : Session → Session) (w : World σ) → Has other s w
      → Has other s (change client f w)
  change-Has s apart f w h = update-other w.sessions client other (f (w.sessions client)) apart ∙ h

  -- Whatever a client sends is handled and leaves the session of another client as it is, if the handlers
  -- of the plugins leave it alone: its request, its mode, its place in the server and what is to be written
  -- to it. The only messages that are not handled come on a connection that is no WebSocket: a line that
  -- makes the code do what is undefined, itself or by the request that it ends. Nothing is said of what
  -- such a line leaves.
  pub handle_message-apart :
      (w : World σ) (message : Bytes)
      → other ≢ client
      → LeaveAlone handlers client other (w.sessions other)
      → ((v : World σ) × (handle_message post_max handlers client w message ≡ handled v)
          × (v.sessions other ≡ w.sessions other))
        ⊎ (((w.sessions client).is_websocket ≡ false)
            × ((handle_input post_max handlers client message w).0 ≡ undefined)
            × (handle_message post_max handlers client w message ≡ wild))
  handle_message-apart w message apart alone =
      elim (message_ends post_max handlers client w message) [
        | inl (v, e) ↦ inl (v, e, subst (Leaves (Has other (w.sessions other))) e leaves)
        | inr ends ↦ inr ends
      ]
    where
      leaves :
          Leaves (Has other (w.sessions other)) (handle_message post_max handlers client w message)
      leaves =
          handle_message-Leaves post_max handlers client (Has other (w.sessions other))
            (record {
              on_change = change-Has (w.sessions other) apart;
              on_get = alone.on_get;
              on_post = alone.on_post;
              on_connection = alone.on_connection;
              on_message = alone.on_message;
              on_close = alone.on_close;
            })
            w message refl
