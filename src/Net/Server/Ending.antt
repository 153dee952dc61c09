-- ===== src/Net/Server/Ending.antt =====
-- src/net/Server.cpp: `remove` ends one connection and keeps the tables in agreement.
use algiz.Base.{
  ℕ, ◌≡◌, refl, sym, ap, subst, ◌∙◌, List, Option, none, some, Bool, true, Option-cases, inl, inr,
  arith,
}
use algiz.Base.Table.{Table}
use algiz.Net.Server.{Server, is_some, ◌>>=◌, remove, event_of, get_descriptor, get_buffer_event}
use algiz.Net.Server.Invariant.{Inv, removed, removed-Inv, remove-removed}
use algiz.Net.Server.Steps.{Ends}

-- A step that keeps the tables in agreement and does what it should.
abbrev pub Kept : (Server → Server → Type 0) → Server → Server → Type 0
Kept Effect s t = Inv t × Effect s t

pub queues-Inv :
    {s : Server} (cursor : ℕ) (queues : Table (List ℕ)) (to_close : Table (Table Bool))
    → Inv s
    → Inv (record s { thread_cursor = cursor; accept_queues = queues; close_queues = to_close })
queues-Inv cursor queues to_close inv = record {
  client_back = inv.client_back;
  descriptor_back = inv.descriptor_back;
  event_back = inv.event_back;
  descriptor_event = inv.descriptor_event;
  paired = inv.paired;
  owned = inv.owned;
  instanced = inv.instanced;
  pooled = inv.pooled;
  issued = inv.issued;
}

pub some_inj : {A : Type 0} (a b : A) → some a ≡ some b → a ≡ b
some_inj a b h = ap (λ o. elim o [ none ↦ a | some x ↦ x ]) h

pub none-some : {A : Type 0} (a : A) → none ≡ some a → ⊥
none-some a h = ground arith

opened : (o : Option ℕ) → is_some o ≡ true → (a : ℕ) × (o ≡ some a)
opened none h = absurd (ground arith)
opened (some a) h = (a, refl)

module _ {s : Server} (inv : Inv s) where
  -- A bufferevent that is known has a client.
  pub client_of : (e d : ℕ) → s.event_descriptors e ≡ some d → (c : ℕ) × (s.clients d ≡ some c)
  client_of e d he =
      opened (s.clients d) (sym (inv.paired d) ∙ ap is_some (inv.descriptor_event d e he))

  unknown :
      (pending : ℕ → ℕ) (worker e : ℕ)
      → s.event_descriptors e ≡ none
      → remove 1 pending worker e s ≡ none
  unfolding remove
  unknown pending worker e n = rw n refl

  -- The client that an event belongs to is the one of its descriptor.
  the_client :
      (c c' e d : ℕ)
      → event_of c s ≡ some e
      → s.event_descriptors e ≡ some d
      → s.clients d ≡ some c'
      → c' ≡ c
  unfolding event_of get_descriptor get_buffer_event
  the_client c c' e d h he hc = elim (Option-cases (s.descriptors c)) [
    | inl n ↦ absurd (none-some e (sym (ap (λ o. o >>= s.buffer_events) n) ∙ h))
    | inr (d', hd) ↦
        let at_event : s.buffer_events d' ≡ some e = sym (ap (λ o. o >>= s.buffer_events) hd) ∙ h in
        ground (arith, inv.event_back d' e, inv.descriptor_back d' c, he, hc)
  ]

  pub Ends-same : (t : Server) (c c' e : ℕ) → event_of c s ≡ some e → Ends e c' s t → Ends e c s t
  Ends-same t c c' e h (d, he, hc, same) =
      subst (λ x. Ends e x s t) (the_client c c' e d h he hc) (d, he, hc, same)

  -- What is left of `remove` is its result, and the queues of the closes are as they were.
  pub remove-Kept :
      {t : Server} (pending : ℕ → ℕ) (worker e : ℕ)
      → remove 1 pending worker e s ≡ some t
      → Inv t × (t.close_queues ≡ s.close_queues) × (c : ℕ) × Ends e c s t
  remove-Kept {t} pending worker e h = elim (Option-cases (s.event_descriptors e)) [
    | inl n ↦ absurd (none-some t (sym (unknown pending worker e n) ∙ h))
    | inr (d, he) ↦
        let (c, hc) = client_of e d he in
        let same =
          some_inj (removed worker e d c s) t
            (sym (remove-removed inv worker e d c he hc 0 pending) ∙ h) in
        subst (λ t. Inv t × (t.close_queues ≡ s.close_queues) × (c : ℕ) × Ends e c s t) same
          (removed-Inv inv worker e d c he hc, refl, c, (d, he, hc, refl))
  ]

module _ (s : Server) where
  -- The tables and the answer of a call that tells whether the connection was found.
  abbrev pub Told : (Bool → Server → Server → Type 0) → Bool × Server → Type 0
  Told Effect (found, t) = Kept (Effect found) s t
