-- ===== src/Http/Server/Kept.antt =====
-- http/Server: what its operations keep, if the handlers of the plugins keep it.
use algiz.Base.{ℕ, ◌≡◌, refl, List, [], ◌∷◌, Option, none, some, true, false, not, All, if-both}
use algiz.Base.Bytes.{Bytes, codes, is_empty}
use algiz.Http.Request.{Request}
use algiz.Http.Response.{Response, to_string}
use algiz.Http.Server.{
  run_all, run_close_handlers, detach, close, close_websocket, final, passed, ask, upgrade,
  handle_get, handle_post, handle_websocket_message, lock_all, validate_path, wants_websocket,
  websocket_key, get_protocols, get_parts, with_parts,
}
use algiz.Http.Session.{
  Session, World, HandlerArgs, ConnectionArgs, MessageArgs, Handlers, change, append_output, send,
  send_response, send400, upgraded,
}
use algiz.Plugins.Host.{
  Handler, HandlerResult, goes_on, stops, before_multi, Keeps, before_multi-Keeps,
}

-- A property of the world, of arguments that are about one client.
abbrev pub AtHandler {ℓ κ} : {σ : Type ℓ} → ℕ → (World σ → Type κ) → HandlerArgs σ → Type κ
AtHandler client P a = (a.client ≡ client) × P a.world

abbrev pub AtConnection {ℓ κ} : {σ : Type ℓ} → ℕ → (World σ → Type κ) → ConnectionArgs σ → Type κ
AtConnection client P a = (a.args.client ≡ client) × P a.args.world

abbrev pub AtMessage {ℓ κ} : {σ : Type ℓ} → ℕ → (World σ → Type κ) → MessageArgs σ → Type κ
AtMessage client P a = (a.from_client ≡ client) × P a.at_message

-- What the plugins keep, and any change to the one client.
pub record Rule {ℓ κ} {σ : Type ℓ} (handlers : Handlers σ) (client : ℕ) (P : World σ → Type κ)
    : Type (ℓ ⊔ κ) where
  pub on_change : (f : Session → Session) (w : World σ) → P w → P (change client f w)
  pub on_get : All (Keeps (AtHandler client P)) handlers.get_handlers
  pub on_post : All (Keeps (AtHandler client P)) handlers.post_handlers
  pub on_connection : All (Keeps (AtConnection client P)) handlers.connection_handlers
  pub on_message :
      (w : World σ) (pointer : ℕ) → Keeps (AtMessage client P) (handlers.message_handler w pointer)
  pub on_close :
      (w : World σ) (pointer : ℕ) (handler : ℕ → World σ → World σ)
      → handlers.close_handler w pointer ≡ some handler
      → (v : World σ) → P v
      → P (handler client v)

abbrev pub Within {ℓ κ} : {A : Type ℓ} → (A → Type κ) → Option A → Type κ
Within P none = Unit
Within P (some a) = P a

module _ {ℓ κ} {σ : Type ℓ} (handlers : Handlers σ) (client : ℕ) (P : World σ → Type κ)
    (rule : Rule handlers client P) where
  open rule use {on_change, on_get, on_post, on_connection, on_message, on_close}

  pub kept_send : (text : Bytes) (w : World σ) → P w → P (send client text w)
  unfolding send
  kept_send text w h = on_change (append_output text) w h

  pub kept_response : (r : Response) (w : World σ) → P w → P (send_response client r w)
  unfolding send_response
  kept_response r w h = kept_send (to_string r) w h

  run_next :
      (pointers : List ℕ) (w : World σ) (o : Option (ℕ → World σ → World σ))
      → ((v : World σ) → P v → P (run_all handlers pointers client v))
      → ((handler : ℕ → World σ → World σ) → o ≡ some handler → P (handler client w))
      → P w
      → P (elim o [
        | none ↦ run_all handlers pointers client w
        | some handler ↦ run_all handlers pointers client (handler client w)
      ])
  run_next pointers w none ih k h = ih w h
  run_next pointers w (some handler) ih k h = ih (handler client w) (k handler refl)

  kept_run : (pointers : List ℕ) (w : World σ) → P w → P (run_all handlers pointers client w)
  unfolding run_all
  kept_run [] w h = h
  kept_run (pointer ∷ pointers) w h =
      run_next pointers w (handlers.close_handler w pointer) (λ v. kept_run pointers v)
        (λ handler e. on_close w pointer handler e w h) h

  run_registered :
      (o : Option (List ℕ)) (w : World σ)
      → P w
      → P (elim o [ none ↦ w | some pointers ↦ run_all handlers pointers client w ])
  run_registered none w h = h
  run_registered (some pointers) w h = kept_run pointers w h

  kept_run_handlers : (w : World σ) → P w → P (run_close_handlers handlers client w)
  unfolding run_close_handlers
  kept_run_handlers w h = run_registered (w.close_handlers client) w h

  pub kept_detach : (w : World σ) → P w → P (detach handlers client w)
  unfolding detach
  kept_detach w h = kept_run_handlers _ (on_change (λ s. record s { attached = false }) w h)

  pub kept_close : (w : World σ) → P w → P (close handlers client w)
  unfolding close
  kept_close w h =
      if-both P (not (w.sessions client).attached) _ _ (λ _. h)
        (λ _.
          if-both P (is_empty (w.sessions client).output) _ _ (λ _. kept_detach w h)
            (λ _. on_change (λ s. record s { leaving = true }) w h))

  pub kept_close_websocket : (w : World σ) → P w → P (close_websocket handlers client w)
  unfolding close_websocket
  kept_close_websocket w h = kept_close _ (kept_run_handlers w h)

  pub kept_send400 : (w : World σ) → P w → P (send400 client w)
  unfolding send400
  kept_send400 w h = kept_response _ w h

  pub kept_final :
      (code : ℕ) (text : Bytes) (w : World σ) → P w → P (final handlers client code text w)
  kept_final code text w h = kept_close _ (kept_response _ w h)

  kept_passed : (r : HandlerResult) (x y : World σ) → P x → P y → P (passed r x y)
  kept_passed goes_on x y h k = h
  kept_passed stops x y h k = k

  kept_ask :
      (chain : List (Option (Handler (HandlerArgs σ)))) (request : Request) (parts : List Bytes)
      (w : World σ)
      → All (Keeps (AtHandler client P)) chain
      → P w
      → P (ask handlers chain client request parts w)
  unfolding ask
  kept_ask chain request parts w keeps h =
      let kept =
        before_multi-Keeps (AtHandler client P)
          (record { world = w; client = client; request = request; parts = parts }) chain true keeps
          (refl, h) in
      kept_passed _ _ _ (kept_final 501 (codes "Unhandled request") _ kept.1) kept.1

  kept_upgrade :
      (request : Request) (parts protocols : List Bytes) (key : Bytes) (w : World σ)
      → P w
      → P (upgrade handlers client request parts protocols key w)
  unfolding upgrade
  kept_upgrade request parts protocols key w h =
      let kept =
        before_multi-Keeps (AtConnection client P)
          (record {
            args = record {
              world = change client (upgraded parts) w;
              client = client;
              request = request;
              parts = parts;
            };
            protocols = protocols;
            accepted_protocol = [];
          })
          handlers.connection_handlers true on_connection (refl, on_change (upgraded parts) w h) in
      kept_passed _ _ _ (kept_final 501 (codes "Unhandled request") _ kept.1)
        (kept_response _ _ kept.1)

  kept_parts :
      (o : Option (List Bytes)) (next : List Bytes → World σ)
      → ((parts : List Bytes) → P (next parts))
      → Within P (elim o [ none ↦ none | some parts ↦ some (next parts) ])
  kept_parts none next k = tt
  kept_parts (some parts) next k = k parts

  kept_protocols :
      (o : Option (List Bytes)) (path : Bytes) (next : List Bytes → List Bytes → World σ)
      → ((protocols parts : List Bytes) → P (next protocols parts))
      → Within P
          (elim o [ none ↦ none | some protocols ↦ with_parts handlers path (next protocols) ])
  kept_protocols none path next k = tt
  kept_protocols (some protocols) path next k =
      kept_parts (get_parts path) (next protocols) (k protocols)

  kept_key :
      (o : Option Bytes) (protocols : Option (List Bytes)) (path : Bytes) (w : World σ)
      (next : Bytes → List Bytes → List Bytes → World σ)
      → P w
      → ((key : Bytes) (protocols parts : List Bytes) → P (next key protocols parts))
      → Within P (elim o [
        | none ↦ some (send400 client w)
        | some key ↦ elim protocols [
          | none ↦ none
          | some protocols ↦ with_parts handlers path (next key protocols)
        ]
      ])
  kept_key none protocols path w next h k = kept_send400 w h
  kept_key (some key) protocols path w next h k = kept_protocols protocols path (next key) (k key)

  pub kept_get :
      (request : Request) (w : World σ) → P w → Within P (handle_get handlers client request w)
  unfolding handle_get
  kept_get request w h =
      if-both (Within P) (not (validate_path request.path)) _ _
        (λ _. kept_final 403 (codes "Invalid path.") w h)
        (λ _.
          if-both (Within P) (wants_websocket request.headers) _ _
            (λ _.
              kept_key (websocket_key request.headers) (get_protocols request.headers) request.path
                w (λ key protocols parts. upgrade handlers client request parts protocols key w) h
                (λ key protocols parts. kept_upgrade request parts protocols key w h))
            (λ _.
              kept_parts (get_parts request.path) _
                (λ parts. kept_ask handlers.get_handlers request parts w on_get h)))

  pub kept_post :
      (request : Request) (w : World σ) → P w → Within P (handle_post handlers client request w)
  unfolding handle_post
  kept_post request w h =
      if-both (Within P) (not (validate_path request.path)) _ _
        (λ _. kept_final 403 (codes "Invalid path.") w h)
        (λ _.
          kept_parts (get_parts request.path) _
            (λ parts. kept_ask handlers.post_handlers request parts w on_post h))

  kept-All :
      (w : World σ) (pointers : List ℕ)
      → All (Keeps (AtMessage client P)) (lock_all handlers w pointers)
  kept-All w [] = tt
  kept-All w (pointer ∷ pointers) = (on_message w pointer, kept-All w pointers)

  heard :
      (o : Option (List ℕ)) (text : Bytes) (w : World σ)
      → P w
      → P (elim o [
        | none ↦ w
        | some pointers ↦
            (before_multi
              (record { at_message = w; from_client = client; message = text })
              (lock_all handlers w pointers)
              true).2.at_message
      ])
  heard none text w h = h
  heard (some pointers) text w h =
      (before_multi-Keeps (AtMessage client P)
        (record { at_message = w; from_client = client; message = text })
        (lock_all handlers w pointers) true (kept-All w pointers) (refl, h)).1

  pub kept_message :
      (text : Bytes) (w : World σ) → P w → P (handle_websocket_message handlers client text w)
  unfolding handle_websocket_message
  kept_message text w h = heard (w.message_handlers client) text w h
