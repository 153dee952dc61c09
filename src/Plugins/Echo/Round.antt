-- ===== src/Plugins/Echo/Round.antt =====
-- plugins/wsecho and http/Server: an upgrade and the messages behind it.
use algiz.Base.{
  ℕ, ◌≡◌, refl, ap, ◌∙◌, List, [], ◌∷◌, ◌++◌, append_assoc, Option, none, some, true, false,
  if◌then◌else◌,
}
use algiz.Base.Bytes.{Bytes, codes}
use algiz.Base.Table.{update_self}
use algiz.Http.Request.{Request}
use algiz.Http.Response.{to_string}
use algiz.Http.Server.{upgrade, guid, passed, unhandled, handle_websocket_message}
use algiz.Http.Session.{
  World, ConnectionArgs, Handlers, change, upgraded, send, send_response, handshake, registered,
  register_message_handler,
}
use algiz.Http.WebSocket.{send_websocket}
use algiz.Plugins.Echo.{contains, handle_message, handle_connect}
use algiz.Plugins.Host.{Handler, before_multi}

module _ {ℓ} {σ : Type ℓ} (handlers : Handlers σ) (client : ℕ) where
  -- Text that was sent to a client that is there.
  pub sent_output :
      (text : Bytes) (w : World σ)
      → (w.sessions client).attached ≡ true
      → (send client text w).sessions client
        ≡ record (w.sessions client) { output = (w.sessions client).output ++ text }
  unfolding send
  sent_output text w e =
      update_self w.sessions client _
      ∙ ap
          (λ b.
            if b
            then record (w.sessions client) { output = (w.sessions client).output ++ text }
            else w.sessions client)
          e

  -- The world behind an upgrade that the echo has accepted.
  abbrev pub echoing : (World σ → ℕ) → (ℕ → σ → σ) → List Bytes → Bytes → World σ → World σ
  echoing fresh keep parts key w =
      let up = change client (upgraded parts) w in
      send_response client (handshake (handlers.sha1 (key ++ guid)) (codes "echo"))
        (register_message_handler client (fresh up) (record up { kept = keep (fresh up) up.kept }))

  concluded : List (Option (Handler (ConnectionArgs σ))) → ConnectionArgs σ → Bytes → World σ
  concluded chain c digest =
      let (should_pass, result, connection) = before_multi c chain true in
      passed result (unhandled handlers client connection.args.world)
        (send_response client (handshake digest connection.accepted_protocol) connection.args.world)

  asked_for : Request → List Bytes → List Bytes → World σ → ConnectionArgs σ
  asked_for request parts protocols w = record {
    args = record {
      world = change client (upgraded parts) w;
      client = client;
      request = request;
      parts = parts;
    };
    protocols = protocols;
    accepted_protocol = [];
  }

  -- An upgrade on a server whose only connection handler is the echo, for a client that asks for it.
  pub upgrade-echo :
      (fresh : World σ → ℕ) (keep : ℕ → σ → σ) (request : Request) (parts protocols : List Bytes)
      (key : Bytes) (w : World σ)
      → handlers.connection_handlers ≡ some (handle_connect fresh keep) ∷ []
      → contains (codes "echo") protocols ≡ true
      → upgrade handlers client request parts protocols key w ≡ echoing fresh keep parts key w
  unfolding upgrade before_multi handle_connect concluded asked_for
  upgrade-echo fresh keep request parts protocols key w only asked =
      ap
        (λ chain.
          concluded chain (asked_for request parts protocols w) (handlers.sha1 (key ++ guid)))
        only
      ∙ rw asked refl

  heard :
      (text : Bytes) (pointer : ℕ) (w : World σ)
      → w.message_handlers client ≡ some (pointer ∷ [])
      → handlers.message_handler w pointer ≡ some (handle_message)
      → handle_websocket_message handlers client text w
        ≡ send client (send_websocket text false 255) w
  unfolding handle_websocket_message before_multi handle_message
  heard text pointer w h k = rw (h, handle_websocket_message) (rw k refl)

  abbrev up : List Bytes → World σ → World σ
  up parts w = change client (upgraded parts) w

  abbrev enrolled : (World σ → ℕ) → (ℕ → σ → σ) → List Bytes → World σ → World σ
  enrolled fresh keep parts w =
      register_message_handler client (fresh (up parts w))
        (record (up parts w) { kept = keep (fresh (up parts w)) (up parts w).kept })

  enrolled_handler :
      (fresh : World σ → ℕ) (keep : ℕ → σ → σ) (parts : List Bytes) (key : Bytes) (w : World σ)
      → w.message_handlers client ≡ none
      → (echoing fresh keep parts key w).message_handlers client ≡ some (fresh (up parts w) ∷ [])
  unfolding register_message_handler send_response send
  enrolled_handler fresh keep parts key w new =
      update_self w.message_handlers client _ ∙ ap (λ o. registered o (fresh (up parts w))) new

  enrolled_at :
      (fresh : World σ → ℕ) (keep : ℕ → σ → σ) (parts : List Bytes) (w : World σ)
      → (enrolled fresh keep parts w).sessions client ≡ upgraded parts (w.sessions client)
  unfolding register_message_handler
  enrolled_at fresh keep parts w = update_self w.sessions client _

  sent_twice :
      (a b : Bytes) (v : World σ)
      → (v.sessions client).attached ≡ true
      → ((send client b (send client a v)).sessions client).output
        ≡ (v.sessions client).output ++ (a ++ b)
  sent_twice a b v e =
      let at = sent_output a v e in
      ap (λ s. s.output) (sent_output b (send client a v) (ap (λ s. s.attached) at ∙ e))
      ∙ (ap (λ s. s.output ++ b) at ∙ append_assoc (v.sessions client).output a b)

  -- A connected client that upgrades to a WebSocket and asks for the protocol of the echo is
  -- answered with the handshake for its key, and then a message it sends comes back as one frame of
  -- text: nothing else is written to it. The client has no other message handler, the echo is the
  -- only connection handler, and the pointer to its message handler does not expire.
  pub upgrade-echo_answers :
      (fresh : World σ → ℕ) (keep : ℕ → σ → σ) (request : Request) (parts protocols : List Bytes)
      (key text : Bytes) (w : World σ)
      → handlers.connection_handlers ≡ some (handle_connect fresh keep) ∷ []
      → ((v : World σ)
          → handlers.message_handler v (fresh (change client (upgraded parts) w))
            ≡ some (handle_message))
      → contains (codes "echo") protocols ≡ true
      → w.message_handlers client ≡ none
      → (w.sessions client).attached ≡ true
      → ((handle_websocket_message handlers client text
            (upgrade handlers client request parts protocols key w)).sessions
          client).output
        ≡ (w.sessions client).output
          ++ (to_string (handshake (handlers.sha1 (key ++ guid)) (codes "echo"))
              ++ send_websocket text false 255)
  unfolding send_response
  upgrade-echo_answers fresh keep request parts protocols key text w only held asked new here =
      let base = enrolled fresh keep parts w in
      let at = enrolled_at fresh keep parts w in
      ap (λ v. ((handle_websocket_message handlers client text v).sessions client).output)
        (upgrade-echo fresh keep request parts protocols key w only asked)
      ∙ (ap (λ v. (v.sessions client).output)
            (heard text (fresh (up parts w)) (echoing fresh keep parts key w)
              (enrolled_handler fresh keep parts key w new) (held (echoing fresh keep parts key w)))
          ∙ (sent_twice (to_string (handshake (handlers.sha1 (key ++ guid)) (codes "echo")))
                (send_websocket text false 255) base (ap (λ s. s.attached) at ∙ here)
              ∙ ap
                  (λ s.
                    s.output
                    ++ (to_string (handshake (handlers.sha1 (key ++ guid)) (codes "echo"))
                        ++ send_websocket text false 255))
                  at))
