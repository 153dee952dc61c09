-- ===== src/Plugins/Echo.antt =====
-- plugins/wsecho/WSEcho: a WebSocket that sends each message back. The address that `make_shared` gives is
-- an argument, and so is the list of the plugin, in which it keeps the pointer.
pub mod Round
use algiz.Base.{ℕ, ◌≡◌, List, [], ◌∷◌, ◌++◌, Bool, true, false, ◌||◌, if◌then◌else◌}
use algiz.Base.Bytes.{Bytes, codes, beq}
use algiz.Http.Session.{World, ConnectionArgs, MessageArgs, send, register_message_handler}
use algiz.Http.WebSocket.{send_websocket}
use algiz.Plugins.Host.{CancelableResult, pass, approve}

-- `StringVector::contains`.
unfoldable pub contains : Bytes → List Bytes → Bool
contains needle [] = false
contains needle (string ∷ strings) = beq string needle || contains needle strings

module _ {ℓ} {σ : Type ℓ} where
  unfoldable pub handle_message : MessageArgs σ → Bool → CancelableResult × MessageArgs σ
  handle_message args false = (pass, args)
  handle_message args true = (
    approve,
    record args {
      at_message = send args.from_client (send_websocket args.message false 255) args.at_message;
    },
  )

  unfoldable pub handle_connect :
      (World σ → ℕ) → (ℕ → σ → σ) → ConnectionArgs σ → Bool → CancelableResult × ConnectionArgs σ
  unfolding contains
  handle_connect fresh keep c false = (pass, c)
  handle_connect fresh keep c true =
      let pointer = fresh c.args.world in
      let kept = record (c.args.world) { kept = keep pointer c.args.world.kept } in
      if contains (codes "echo") c.protocols
      then (
        approve,
        record c {
          args = record (c.args) { world = register_message_handler c.args.client pointer kept };
          accepted_protocol = codes "echo";
        },
      )
      else (pass, c)
