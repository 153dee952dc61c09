-- ===== src/Net/Server/Invariant.antt =====
-- src/net/Server.cpp: the tables agree with each other, whatever is accepted and removed.
use algiz.Base.{ℕ, suc, ◌≡◌, ◌<◌, refl, ap, ◌∙◌, Option, none, some, true, false, arith}
use algiz.Base.Table.{update, update_self}
use algiz.Net.Server.{
  Server, is_some, event_of, ◌>>=◌, get_descriptor, get_buffer_event, close, remove, forget_event,
  forget_client,
}

pub record Inv (s : Server) : Type 0 where
  -- A descriptor and its client know each other, and so do a descriptor and its bufferevent.
  pub client_back : (d c : ℕ) → s.clients d ≡ some c → s.descriptors c ≡ some d
  pub descriptor_back : (d c : ℕ) → s.descriptors c ≡ some d → s.clients d ≡ some c
  pub event_back : (d e : ℕ) → s.buffer_events d ≡ some e → s.event_descriptors e ≡ some d
  pub descriptor_event : (d e : ℕ) → s.event_descriptors e ≡ some d → s.buffer_events d ≡ some e
  -- A descriptor has a client exactly when it has a bufferevent.
  pub paired : (d : ℕ) → is_some (s.buffer_events d) ≡ is_some (s.clients d)
  -- A bufferevent has a worker exactly when it has a descriptor.
  pub owned : (e : ℕ) → is_some (s.worker_map e) ≡ is_some (s.event_descriptors e)
  -- A client has an instance exactly when it has a descriptor.
  pub instanced : (c : ℕ) → s.all_clients c ≡ is_some (s.descriptors c)
  -- A number in the pool was given out before and is not in use; a number in use was given out.
  pub pooled : (c : ℕ) → s.free_pool c ≡ true → (s.descriptors c ≡ none) × (c < s.next_client)
  pub issued : (c d : ℕ) → s.descriptors c ≡ some d → c < s.next_client

-- The tables without one connection.
abbrev pub removed : ℕ → ℕ → ℕ → ℕ → Server → Server
removed worker event descriptor client s =
    forget_client worker event descriptor client (forget_event event descriptor s)

module _ {s : Server} (inv : Inv s) (worker e d c : ℕ) (he : s.event_descriptors e ≡ some d)
    (hc : s.clients d ≡ some c) where
  abbrev s' : Server
  s' = removed worker e d c s

  removed-client_back : (d' c' : ℕ) → s'.clients d' ≡ some c' → s'.descriptors c' ≡ some d'
  removed-client_back d' c' h = ground (arith, inv.client_back d' c', inv.client_back d c, he, hc)

  removed-paired : (d' : ℕ) → is_some (s'.buffer_events d') ≡ is_some (s'.clients d')
  removed-paired d' = ground (arith, inv.paired d')

  removed-owned : (e' : ℕ) → is_some (s'.worker_map e') ≡ is_some (s'.event_descriptors e')
  removed-owned e' = ground (arith, inv.owned e')

  removed-event_back :
      (d' e' : ℕ) → s'.buffer_events d' ≡ some e' → s'.event_descriptors e' ≡ some d'
  removed-event_back d' e' h = ground (arith, inv.event_back d' e', inv.descriptor_event d e, he)

  removed-descriptor_back : (d' c' : ℕ) → s'.descriptors c' ≡ some d' → s'.clients d' ≡ some c'
  removed-descriptor_back d' c' h =
      ground (arith, inv.descriptor_back d' c', inv.client_back d c, he, hc)

  removed-descriptor_event :
      (d' e' : ℕ) → s'.event_descriptors e' ≡ some d' → s'.buffer_events d' ≡ some e'
  removed-descriptor_event d' e' h =
      ground (arith, inv.descriptor_event d' e', inv.descriptor_event d e, he)

  removed-instanced : (c' : ℕ) → s'.all_clients c' ≡ is_some (s'.descriptors c')
  removed-instanced c' = ground (arith, inv.instanced c')

  removed-pooled :
      (c' : ℕ) → s'.free_pool c' ≡ true → (s'.descriptors c' ≡ none) × (c' < s'.next_client)
  removed-pooled c' h = ground (arith, inv.pooled c', inv.issued c d, inv.client_back d c, hc)

  removed-issued : (c' d' : ℕ) → s'.descriptors c' ≡ some d' → c' < s'.next_client
  removed-issued c' d' h = ground (arith, inv.issued c' d')

  pub removed-Inv : Inv s'
  removed-Inv = record {
    client_back = removed-client_back;
    descriptor_back = removed-descriptor_back;
    event_back = removed-event_back;
    descriptor_event = removed-descriptor_event;
    paired = removed-paired;
    owned = removed-owned;
    instanced = removed-instanced;
    pooled = removed-pooled;
    issued = removed-issued;
  }

  no_event : event_of c (forget_event e d s) ≡ none
  unfolding event_of get_descriptor get_buffer_event
  no_event =
      ap (λ o. o >>= update s.buffer_events d none) (inv.client_back d c hc)
      ∙ update_self s.buffer_events d none

  -- While a connection is taken out, its client is known, but no bufferevent of it is found any more: the
  -- close handler's call of `close` does nothing.
  close-forgotten :
      (remove : ℕ → ℕ → Server → Option Server) (pending : ℕ → ℕ)
      → close remove pending c (forget_event e d s) ≡ some (false, forget_event e d s)
  unfolding close
  close-forgotten remove pending = rw (no_event, close) refl

  -- `remove` ends within one call of itself.
  pub remove-removed : (fuel : ℕ) (pending : ℕ → ℕ) → remove (suc fuel) pending worker e s ≡ some s'
  unfolding remove
  remove-removed fuel pending =
      rw he (rw hc (rw (close-forgotten (remove fuel pending) pending) refl))
