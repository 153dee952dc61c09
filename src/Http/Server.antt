-- ===== src/Http/Server.antt =====
-- http/Server: what the server does with a request, an upgrade to a WebSocket, a message and a close, and
-- how the handlers of the plugins take part. A client is told by its number. A handler does not throw.
--
-- Of net/Server it uses `send` and `close`, for a client whose output buffer is `output`: a closed client
-- leaves at once when its output buffer is empty, and else when the buffer is written.
pub mod Kept
use algiz.Base.{
  ℕ, ◌==◌, List, [], ◌∷◌, ◌++◌, Option, none, some, Bool, true, false, not, ◌&&◌, ◌||◌,
  if◌then◌else◌, length,
}
use algiz.Base.Bytes.{Bytes, codes, beq, is_empty}
use algiz.Base.Map.{lookup, contains}
use algiz.Util.Split.{split}
use algiz.Util.Url.{unescape}
use algiz.Http.Request.{Request, Params}
use algiz.Http.Response.{response}
use algiz.Plugins.Host.{Handler, before_multi, goes_on, stops, HandlerResult}
use algiz.Http.Session.{
  World, HandlerArgs, MessageArgs, Handlers, handshake, upgraded, change, send_response, send400,
}

unfoldable pub validate_path : Bytes → Bool
validate_path [] = false
validate_path (b ∷ path) = b == b'/'

unescape_all : List Bytes → Option (List Bytes)
unescape_all [] = some []
unescape_all (view ∷ views) = elim (unescape view true) [
  | none ↦ none
  | some part ↦ elim (unescape_all views) [ none ↦ none | some parts ↦ some (part ∷ parts) ]
]

-- `getParts`, of a path with its first byte.
unfoldable pub get_parts : Bytes → Option (List Bytes)
unfolding unescape_all
get_parts [] = none
get_parts (b ∷ path) = elim (split path (codes "/") true) [
  | none ↦ none
  | some views ↦ unescape_all views
]

is_text : Option Bytes → Bytes → Bool
is_text none text = false
is_text (some value) text = beq value text

-- The two nested tests of an upgrade.
unfoldable pub wants_websocket : Params → Bool
unfolding is_text
wants_websocket headers =
    (is_text (lookup (codes "connection") headers) (codes "Upgrade")
      || is_text (lookup (codes "connection") headers) (codes "keep-alive, Upgrade"))
    && is_text (lookup (codes "upgrade") headers) (codes "websocket")

-- The key of an upgrade that has not failed.
unfoldable pub websocket_key : Params → Option Bytes
websocket_key headers = elim (lookup (codes "sec-websocket-key") headers) [
  | none ↦ none
  | some key ↦
      if not (contains (codes "sec-websocket-version") headers) || not (length key == 24)
      then none
      else some key
]

unfoldable pub get_protocols : Params → Option (List Bytes)
get_protocols headers = elim (lookup (codes "sec-websocket-protocol") headers) [
  | none ↦ some []
  | some value ↦ split value (codes " ") true
]

abbrev pub guid : Bytes
guid = codes "258EAFA5-E914-47DA-95CA-C5AB0DC85B11"

abbrev pub passed {ℓ} : {A : Type ℓ} → HandlerResult → A → A → A
passed goes_on if_passed if_not = if_passed
passed stops if_passed if_not = if_not

module _ {ℓ} {σ : Type ℓ} (handlers : Handlers σ) where
  open handlers use {
    get_handlers, post_handlers, connection_handlers, message_handler, close_handler, sha1,
  }

  -- The loop of `closeWebSocket`: each pointer is locked when its turn comes.
  run_all : List ℕ → ℕ → World σ → World σ
  run_all [] client w = w
  run_all (pointer ∷ pointers) client w = elim (close_handler w pointer) [
    | none ↦ run_all pointers client w
    | some handler ↦ run_all pointers client (handler client w)
  ]

  unfoldable pub run_close_handlers : ℕ → World σ → World σ
  unfolding run_all
  run_close_handlers client w = elim (w.close_handlers client) [
    | none ↦ w
    | some pointers ↦ run_all pointers client w
  ]

  -- `Worker::remove`, whose close handler is `closeWebSocket`. The call of `close` in there finds nothing.
  unfoldable pub detach : ℕ → World σ → World σ
  unfolding run_close_handlers
  detach client w = run_close_handlers client (change client (λ s. record s { attached = false }) w)

  unfoldable pub close : ℕ → World σ → World σ
  unfolding detach
  close client w =
      if not (w.sessions client).attached
      then w
      else if is_empty (w.sessions client).output
      then detach client w
      else change client (λ s. record s { leaving = true }) w

  unfoldable pub close_websocket : ℕ → World σ → World σ
  unfolding close run_close_handlers
  close_websocket client w = close client (run_close_handlers client w)

  -- A response that the connection is closed behind.
  abbrev pub final : ℕ → ℕ → Bytes → World σ → World σ
  final client code text w =
      close client (send_response client (response code text (codes "text/html")) w)

  abbrev pub unhandled : ℕ → World σ → World σ
  unhandled client w = final client 501 (codes "Unhandled request") w

  -- The chain of the handlers of a request, and what follows.
  unfoldable pub ask :
      List (Option (Handler (HandlerArgs σ))) → ℕ → Request → List Bytes → World σ → World σ
  ask chain client request parts w =
      let (should_pass, result, args) =
        before_multi (record { world = w; client = client; request = request; parts = parts }) chain
          true in
      passed result (unhandled client args.world) args.world

  -- The upgrade, of a request with a key.
  unfoldable pub upgrade : ℕ → Request → List Bytes → List Bytes → Bytes → World σ → World σ
  upgrade client request parts protocols key w =
      let (should_pass, result, connection) =
        before_multi
          (record {
            args = record {
              world = change client (upgraded parts) w;
              client = client;
              request = request;
              parts = parts;
            };
            protocols = protocols;
            accepted_protocol = [];
          })
          connection_handlers true in
      passed result (unhandled client connection.args.world) (
        send_response client (handshake (sha1 (key ++ guid)) connection.accepted_protocol)
          connection.args.world)

  abbrev pub with_parts : Bytes → (List Bytes → World σ) → Option (World σ)
  with_parts path next = elim (get_parts path) [ none ↦ none | some parts ↦ some (next parts) ]

  -- `handleGET`; `none` is a call that reads out of range.
  unfoldable pub handle_get : ℕ → Request → World σ → Option (World σ)
  unfolding ask upgrade send400
  handle_get client request w =
      if not (validate_path request.path)
      then some (final client 403 (codes "Invalid path.") w)
      else if wants_websocket request.headers
      then elim (websocket_key request.headers) [
        | none ↦ some (send400 client w)
        | some key ↦ elim (get_protocols request.headers) [
          | none ↦ none
          | some protocols ↦
              with_parts request.path (λ parts. upgrade client request parts protocols key w)
        ]
      ]
      else with_parts request.path (λ parts. ask get_handlers client request parts w)

  unfoldable pub handle_post : ℕ → Request → World σ → Option (World σ)
  unfolding ask
  handle_post client request w =
      if not (validate_path request.path)
      then some (final client 403 (codes "Invalid path.") w)
      else with_parts request.path (λ parts. ask post_handlers client request parts w)

  abbrev lock_all : World σ → List ℕ → List (Option (Handler (MessageArgs σ)))
  lock_all w [] = []
  lock_all w (pointer ∷ pointers) = message_handler w pointer ∷ lock_all w pointers

  unfoldable pub handle_websocket_message : ℕ → Bytes → World σ → World σ
  handle_websocket_message client message w = elim (w.message_handlers client) [
    | none ↦ w
    | some pointers ↦
        let (should_pass, result, args) =
          before_multi (record { at_message = w; from_client = client; message = message })
            (lock_all w pointers) true in
        args.at_message
  ]
