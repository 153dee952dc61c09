-- ===== src/Net/Read.antt =====
-- src/net/Server.cpp: `handleRead` and `isMessageComplete`. What the reader asks of a client, and does to
-- it, is an interface that the HTTP client fills; `connected` tells whether its descriptor is still in
-- the table of clients.
pub mod Lines
use algiz.Base.{
  ℕ, zero, suc, ◌+◌, ◌-◌, [], ◌∷◌, ◌++◌, Option, none, some, Bool, not, if◌then◌else◌, ltb, length,
  take, drop,
}
use algiz.Base.Bytes.{Bytes, find_byte, is_empty}
use Prim.Native.Nat.{min}

-- A message handler returns, or it throws a runtime_error or a ParseError, which the reader catches.
-- `wild` is an exception that no one catches, or a call that is undefined.
pub data Handled {ℓ} (C : Type ℓ) : Type ℓ where
  handled : C → Handled C
  wild : Handled C
  threw : C → Handled C

pub record Client {ℓ} (C : Type ℓ) : Type ℓ where
  pub line_mode : C → Bool
  pub max_line_size : C → ℕ
  pub max_read : C → ℕ
  pub set_max_read : ℕ → C → C
  pub connected : C → Bool
  pub handle : C → Bytes → Handled C
  -- `Worker::remove` of the client's bufferevent.
  pub leave : C → C

-- `going` has the read buffer; `removed` is a client that was taken out and the read ended. `stale` is a
-- read that goes on with a client and a buffer that were taken out, or that a `wild` handler ended;
-- `endless` is fuel that ran out.
pub data Reading {ℓ} (C : Type ℓ) : Type ℓ where
  going : C → Bytes → Reading C
  removed : C → Reading C
  stale : Reading C
  endless : Reading C

unfoldable pub is_message_complete : Bytes → Option (ℕ × ℕ)
is_message_complete view = elim (find_byte b'\n' view) [
  | none ↦ none
  | some found ↦ some (found, 1)
]

module _ {ℓ} {C : Type ℓ} (client : Client C) where
  open client use {line_mode, max_line_size, max_read, set_max_read, connected, handle, leave}

  abbrev pub and_then : Reading C → (C → Bytes → Reading C) → Reading C
  and_then (going c str) next = next c str
  and_then (removed c) next = removed c
  and_then stale next = stale
  and_then endless next = endless

  -- What follows a call of the message handler.
  abbrev pub handled_then : Handled C → (C → Reading C) → Reading C
  handled_then (threw c) next = removed (leave c)
  handled_then wild next = stale
  handled_then (handled c) next = if connected c then next c else stale

  -- The loop over the complete messages of the buffer.
  unfoldable pub message_loop : ℕ → C → Bytes → Reading C
  unfolding is_message_complete
  message_loop zero c view = endless
  message_loop (suc fuel) c view = elim (is_message_complete view) [
    | none ↦ going c view
    | some (index, size) ↦
        handled_then (handle c (take index view))
          (λ c'. message_loop fuel c' (drop (index + size) view))
  ]

  -- What is left in the buffer at the end of a round.
  unfoldable pub end_round : C → Bytes → Reading C
  end_round c str =
      if is_empty str
      then going c str
      else if line_mode c
      then removed (leave c)
      else handled_then (handle c str) (λ c'. going c' str)

  -- One round, with the bytes that it read. A line that is too long takes the client out, and the round
  -- goes on with what is gone.
  unfoldable pub round : C → Bytes → Bytes → Reading C
  unfolding message_loop end_round
  round c str chunk =
      if not (line_mode c)
      then handled_then (handle c chunk) (λ c'. end_round c' [])
      else if ltb (max_line_size c) (length str + length chunk)
      then stale
      else and_then (message_loop (suc (length (str ++ chunk))) c (str ++ chunk)) end_round

  -- How many bytes the next round reads, and the client with its limit lowered.
  unfoldable pub to_read : ℕ → C → ℕ → ℕ
  to_read size c readable =
      if ltb 0 (max_read c) then min (min size readable) (max_read c) else min size readable

  unfoldable pub lowered : C → ℕ → C
  lowered c count = if ltb 0 (max_read c) then set_max_read (max_read c - count) c else c

  unfoldable pub read_loop : ℕ → ℕ → C → Bytes → Bytes → Reading C
  unfolding round to_read lowered
  read_loop fuel size c str [] = going c str
  read_loop zero size c str (b ∷ input) = endless
  read_loop (suc fuel) size c str (b ∷ input) =
      let count = to_read size c (length (b ∷ input)) in
      and_then (round (lowered c count) str (take count (b ∷ input)))
        (λ c' str'. read_loop fuel size c' str' (drop count (b ∷ input)))

  -- `handleRead`, of a client that has an instance: each round reads at least one byte.
  unfoldable pub handle_read : ℕ → C → Bytes → Bytes → Reading C
  unfolding read_loop
  handle_read size c str input = read_loop (length input) size c str input
