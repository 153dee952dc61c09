-- ===== src/Http/WebSocket/Delivery.antt =====
-- http/Client: a frame whose payload arrives in several reads.
use algiz.Base.{ℕ, ◌-◌, ◌≡◌, [], ◌∷◌, ◌++◌, Bool, true, false, length}
use algiz.Base.Bytes.{Bytes}
use algiz.Http.WebSocket.{message, Ws, Step, unmask, offset_after}

-- A client in the middle of the last frame of a message.
abbrev inside : ℕ → ℕ → ℕ → Bytes → ℕ → Ws
inside mask offset remaining packet max_length = record {
  awaiting = false;
  last_fin = true;
  mask = mask;
  mask_offset = offset;
  remaining = remaining;
  packet = packet;
  leftover = [];
  max_length = max_length;
}

abbrev moved : ℕ → ℕ → ℕ → Bytes → ℕ → Bytes → Ws
moved mask offset remaining packet max_length input =
    inside mask (offset_after offset input) (remaining - length input)
      (packet ++ unmask mask offset input) max_length

-- A client between two messages.
abbrev pub IsReady : Ws → Type 0
IsReady ws = (ws.awaiting ≡ true) × (ws.packet ≡ []) × (ws.leftover ≡ [])

abbrev pub Delivers : Step → Bytes → Type 0
Delivers step payload = (step.0 ≡ message payload ∷ []) × IsReady step.1

-- A client that awaits a frame, whatever the last one left in the other fields.
abbrev pub ready : Bool → ℕ → ℕ → ℕ → ℕ → Ws
ready last_fin mask offset remaining max_length = record {
  awaiting = true;
  last_fin = last_fin;
  mask = mask;
  mask_offset = offset;
  remaining = remaining;
  packet = [];
  leftover = [];
  max_length = max_length;
}
