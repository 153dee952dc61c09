-- ===== src/Http/Session.antt =====
-- http/Client and http/Server: the state of the clients and of the server, what a handler of a plugin gets,
-- the answers that are sent, and the registration of handlers.
use algiz.Base.{ℕ, List, [], ◌∷◌, ◌++◌, Option, none, some, Bool, true, false, if◌then◌else◌}
use algiz.Base.Bytes.{Bytes, codes, is_empty}
use algiz.Base.Map.{insert}
use algiz.Base.Table.{Table, update}
use algiz.Util.Base64.{base64_encode}
use algiz.Util.Escape.{escape_quotes}
use algiz.Http.Request.{Request}
use algiz.Http.Request.Lines.{Conn}
use algiz.Http.Response.{Response, response, to_string}
use algiz.Http.WebSocket.{Ws}
use algiz.Plugins.Host.{Handler}

-- The fields of a client, and its place in net/Server.
pub record Session : Type 0 where
  pub conn : Conn
  pub line_mode : Bool
  pub is_websocket : Bool
  pub web_socket_path : List Bytes
  pub ws : Ws
  -- In the tables of net/Server, queued to be closed, and not yet written.
  pub attached : Bool
  pub leaving : Bool
  pub output : Bytes

-- The handlers registered for a client are weak pointers, told by numbers; `kept` is what the plugins keep.
pub record World {ℓ} (σ : Type ℓ) : Type ℓ where
  pub sessions : Table Session
  pub message_handlers : Table (Option (List ℕ))
  pub close_handlers : Table (Option (List ℕ))
  pub kept : σ

pub record HandlerArgs {ℓ} (σ : Type ℓ) : Type ℓ where
  pub world : World σ
  pub client : ℕ
  pub request : Request
  pub parts : List Bytes

pub record ConnectionArgs {ℓ} (σ : Type ℓ) : Type ℓ where
  pub args : HandlerArgs σ
  pub protocols : List Bytes
  pub accepted_protocol : Bytes

pub record MessageArgs {ℓ} (σ : Type ℓ) : Type ℓ where
  pub at_message : World σ
  pub from_client : ℕ
  pub message : Bytes

-- The plugins' handlers, and what a weak pointer to one gives.
pub record Handlers {ℓ} (σ : Type ℓ) : Type ℓ where
  pub get_handlers : List (Option (Handler (HandlerArgs σ)))
  pub post_handlers : List (Option (Handler (HandlerArgs σ)))
  pub connection_handlers : List (Option (Handler (ConnectionArgs σ)))
  pub message_handler : World σ → ℕ → Option (Handler (MessageArgs σ))
  pub close_handler : World σ → ℕ → Option (ℕ → World σ → World σ)
  pub sha1 : Bytes → Bytes

-- `Response::operator[]` takes the name as it is.
abbrev pub put_header : Bytes → Bytes → Response → Response
put_header name value r = record r { headers = insert name value r.headers }

-- The answer to an upgrade, with the digest of the key and the protocol that was accepted.
unfoldable pub handshake : Bytes → Bytes → Response
unfolding response
handshake digest protocol =
    let r = put_header (codes "sec-websocket-accept") (base64_encode digest) (
      put_header (codes "connection") (codes "Upgrade")
        (put_header (codes "upgrade") (codes "websocket") (response 101 [] (codes "text/html")))) in
    if is_empty protocol then r else put_header (codes "sec-websocket-protocol") protocol r

abbrev pub append_output : Bytes → Session → Session
append_output text s = if s.attached then record s { output = s.output ++ text } else s

abbrev pub upgraded : List Bytes → Session → Session
upgraded parts s = record s { is_websocket = true; web_socket_path = parts; line_mode = false }

abbrev pub registered : Option (List ℕ) → ℕ → Option (List ℕ)
registered none pointer = some (pointer ∷ [])
registered (some pointers) pointer = some (pointers ++ pointer ∷ [])

module _ {ℓ} {σ : Type ℓ} where
  abbrev pub change : ℕ → (Session → Session) → World σ → World σ
  change client f w = record w { sessions = update w.sessions client (f (w.sessions client)) }

  unfoldable pub send : ℕ → Bytes → World σ → World σ
  send client text w = change client (append_output text) w

  unfoldable pub send_response : ℕ → Response → World σ → World σ
  unfolding send
  send_response client r w = send client (to_string r) w

  unfoldable pub send400 : ℕ → World σ → World σ
  send400 client w =
      send_response client (response 400 (codes "Invalid request") (codes "text/html")) w

  unfoldable pub send401_realm : ℕ → Bytes → World σ → World σ
  send401_realm client realm w =
      let r = response 401 (codes "Unauthorized") (codes "text/html") in
      send_response client
        (put_header (codes "www-authenticate")
          (codes "Basic realm=\"" ++ (escape_quotes realm ++ codes "\"")) r)
        w

  unfoldable pub send401 : ℕ → World σ → World σ
  send401 client w =
      send_response client (response 401 (codes "Unauthorized") (codes "text/html")) w

  unfoldable pub send403 : ℕ → World σ → World σ
  send403 client w = send_response client (response 403 (codes "Forbidden") (codes "text/html")) w

  unfoldable pub send500 : ℕ → World σ → World σ
  send500 client w =
      send_response client (response 500 (codes "Internal Server Error") (codes "text/html")) w

  unfoldable pub register_message_handler : ℕ → ℕ → World σ → World σ
  register_message_handler client pointer w = record w {
    message_handlers =
        update w.message_handlers client (registered (w.message_handlers client) pointer);
  }

  unfoldable pub register_close_handler : ℕ → ℕ → World σ → World σ
  register_close_handler client pointer w = record w {
    close_handlers = update w.close_handlers client (registered (w.close_handlers client) pointer);
  }
