-- ===== src/Http/Client.antt =====
-- http/Client and the message handler of Core.cpp: what a client does with the input that net/Server hands
-- over, as the client of the reader of Net/Read.
pub mod Feeding
pub mod Refused
pub mod Apart
pub mod Caught
use algiz.Base.{ℕ, ◌^◌, List, [], ◌∷◌, Option, none, some, true, false, if◌then◌else◌}
use algiz.Base.Bytes.{Bytes, codes}
use algiz.Http.Request.{
  Request, Method, HandleResult, continue, disable_line_mode, done, Outcome, ok, parse_error,
  unsupported_method, undefined, fresh,
}
use algiz.Http.Request.Failed.{left_behind}
use algiz.Http.Request.Lines.{Conn, PostMax, handle_line}
use algiz.Http.Server.{
  close, close_websocket, detach, final, handle_get, handle_post, handle_websocket_message,
}
use algiz.Http.Session.{Session, World, Handlers, change, send, send400}
use algiz.Http.WebSocket.{Event, handle_input as websocket_input, send_websocket}
use algiz.Net.Read.{Client, Handled, handled, wild}

-- The constructor, of a client that net/Server has accepted.
unfoldable pub new_session : Session
unfolding fresh
new_session = record {
  conn = record { request = fresh; max_read = 0; keep_alive = true };
  line_mode = true;
  is_websocket = false;
  web_socket_path = [];
  ws = record {
    awaiting = true;
    last_fin = false;
    mask = 0;
    mask_offset = 0;
    remaining = 0;
    packet = [];
    leftover = [];
    max_length = 2 ^ 24;
  };
  attached = true;
  leaving = false;
  output = [];
}

abbrev pub sorry_text : Bytes
sorry_text = codes "Hey dummy, learn to send a proper HTTP request and then we can talk."

module _ {ℓ} {σ : Type ℓ} (post_max : Bytes → PostMax) (handlers : Handlers σ) (client : ℕ) where
  -- `Client::close`.
  unfoldable pub close_unless_kept : World σ → World σ
  unfolding close
  close_unless_kept w = if (w.sessions client).conn.keep_alive then w else close handlers client w

  unfoldable pub on_event : Event → World σ → World σ
  unfolding handle_websocket_message close_websocket send400
  on_event (Event.message packet) w = handle_websocket_message handlers client packet w
  on_event (Event.pong packet) w = send client (send_websocket packet true 10) w
  on_event Event.close_frame w =
      close_websocket handlers client (send client (send_websocket (codes "Error") false 8) w)
  on_event Event.refused w = close handlers client (send400 client w)

  abbrev on_events : List Event → World σ → World σ
  on_events [] w = w
  on_events (e ∷ es) w = on_events es (on_event e w)

  abbrev or_undefined : Option (World σ) → Outcome (World σ)
  or_undefined none = undefined
  or_undefined (some w) = ok w

  -- `handleRequest`, by the method.
  unfoldable pub by_method : Method → Request → World σ → Outcome (World σ)
  unfolding handle_get handle_post
  by_method Method.get request w = or_undefined (handle_get handlers client request w)
  by_method Method.post request w = or_undefined (handle_post handlers client request w)
  by_method Method.head request w = parse_error
  by_method Method.put request w = parse_error
  by_method Method.invalid request w = parse_error

  unfoldable pub handle_request : World σ → Outcome (World σ)
  unfolding by_method
  handle_request w =
      by_method (w.sessions client).conn.request.method (w.sessions client).conn.request w

  abbrev pub with_conn : Conn → Session → Session
  with_conn c s = record s { conn = c }

  -- What follows a line. Of an exception the caller has the world that it leaves.
  unfoldable pub after_line : HandleResult → World σ → Outcome (World σ) × World σ
  unfolding handle_request
  after_line continue w = (ok w, w)
  after_line disable_line_mode w = (ok (change client (λ s. record s { line_mode = false }) w), w)
  after_line done w = (handle_request w, w)

  unfoldable pub input_line : Bytes → World σ → Outcome (World σ) × World σ
  unfolding after_line send400
  input_line message w =
      let spoiled = change client (with_conn (left_behind (w.sessions client).conn message)) w in
      elim (handle_line post_max (w.sessions client).conn message) [
        | ok (result, c) ↦ after_line result (change client (with_conn c) w)
        | parse_error ↦ (parse_error, spoiled)
        | unsupported_method ↦ (ok (close handlers client (send400 client w)), w)
        | undefined ↦ (undefined, w)
      ]

  unfoldable pub handle_input : Bytes → World σ → Outcome (World σ) × World σ
  unfolding input_line on_event
  handle_input message w =
      let (events, ws) = websocket_input (w.sessions client).ws message in
      let done_websocket = on_events events (change client (λ s. record s { ws = ws }) w) in
      if (w.sessions client).is_websocket
      then (ok done_websocket, done_websocket)
      else input_line message w

  -- The message handler that Core.cpp installs.
  unfoldable pub caught : Outcome (World σ) × World σ → Handled (World σ)
  caught (ok w, left) = handled w
  caught (parse_error, left) = handled (final handlers client 400 sorry_text left)
  caught (unsupported_method, left) = wild
  caught (undefined, left) = wild

  unfoldable pub handle_message : World σ → Bytes → Handled (World σ)
  unfolding handle_input caught
  handle_message w message = caught (handle_input message w)

  -- What net/Server reads of a client and does to it.
  abbrev pub http_client : Client (World σ)
  http_client = record {
    line_mode = λ w. (w.sessions client).line_mode;
    max_line_size = λ w. 8192;
    max_read = λ w. (w.sessions client).conn.max_read;
    set_max_read = λ n. change client (λ s. record s { conn = record (s.conn) { max_read = n } });
    connected = λ w. (w.sessions client).attached;
    handle = handle_message;
    leave = detach handlers client;
  }
