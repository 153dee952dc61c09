-- ===== src/Net/Server/Accept.antt =====
-- src/net/Server.cpp: a new connection enters every table under a number that nobody has.
use algiz.Base.{ℕ, ◌≡◌, ◌<◌, refl, sym, subst, Option, none, some, Bool, true, false, arith}
use algiz.Base.Table.{Table, update, update_self}
use algiz.Net.Server.{Server, fresh_client, enter, emplace}
use algiz.Net.Server.Invariant.{Inv}

-- Nobody has the number, and it was given out.
pub record IsReserved (c : ℕ) (s : Server) : Type 0 where
  pub unused : s.descriptors c ≡ none
  pub unpooled : s.free_pool c ≡ false
  pub given : c < s.next_client

module _ {s : Server} (inv : Inv s) where
  reuse-Inv : (c : ℕ) → Inv (fresh_client (some c) s).1
  reuse-Inv c = record {
    client_back = inv.client_back;
    descriptor_back = inv.descriptor_back;
    event_back = inv.event_back;
    descriptor_event = inv.descriptor_event;
    paired = inv.paired;
    owned = inv.owned;
    instanced = inv.instanced;
    pooled = λ c' h. ground (arith, inv.pooled c');
    issued = inv.issued;
  }

  count-Inv : Inv (fresh_client none s).1
  count-Inv = record {
    client_back = inv.client_back;
    descriptor_back = inv.descriptor_back;
    event_back = inv.event_back;
    descriptor_event = inv.descriptor_event;
    paired = inv.paired;
    owned = inv.owned;
    instanced = inv.instanced;
    pooled = λ c h. let (free, below) = inv.pooled c h in (free, omega arith);
    issued = λ c d h. omega (arith, inv.issued c d h);
  }

  pub fresh_client-Inv : (o : Option ℕ) → Inv (fresh_client o s).1
  fresh_client-Inv none = count-Inv
  fresh_client-Inv (some c) = reuse-Inv c

  next_unused : (o : Option ℕ) → s.descriptors s.next_client ≡ o → o ≡ none
  next_unused none h = refl
  next_unused (some d) h = absurd (omega (arith, inv.issued s.next_client d h))

  next_unpooled : (b : Bool) → s.free_pool s.next_client ≡ b → b ≡ false
  next_unpooled false h = refl
  next_unpooled true h = absurd (omega (arith, (inv.pooled s.next_client h).1))

  pub fresh_client-IsReserved :
      (o : Option ℕ)
      → ((c : ℕ) → o ≡ some c → s.free_pool c ≡ true)
      → IsReserved (fresh_client o s).0 (fresh_client o s).1
  fresh_client-IsReserved none h = record {
    unused = next_unused _ refl;
    unpooled = next_unpooled _ refl;
    given = omega arith;
  }
  fresh_client-IsReserved (some c) h = record {
    unused = (inv.pooled c (h c refl)).0;
    unpooled = update_self s.free_pool c false;
    given = (inv.pooled c (h c refl)).1;
  }

module _ {s : Server} (inv : Inv s) (worker c d e : ℕ) (res : IsReserved c s)
    (new_fd : s.clients d ≡ none) (new_event : s.event_descriptors e ≡ none) where
  abbrev s' : Server
  s' = enter worker c d e s

  no_event : s.buffer_events d ≡ none
  no_event = ground (arith, inv.paired d, new_fd)

  no_worker : s.worker_map e ≡ none
  no_worker = ground (arith, inv.owned e, new_event)

  entered : (t : Table (Option ℕ)) (k v : ℕ) → t k ≡ none → emplace t k v ≡ update t k (some v)
  entered t k v h = rw (h, emplace) refl

  -- The tables, with each new entry.
  flat : Server
  flat = record s {
    descriptors = update s.descriptors c (some d);
    clients = update s.clients d (some c);
    buffer_events = update s.buffer_events d (some e);
    event_descriptors = update s.event_descriptors e (some d);
    worker_map = update s.worker_map e (some worker);
    all_clients = update s.all_clients c true;
  }

  flat-Inv : Inv flat
  unfolding flat
  flat-Inv = record {
    client_back = λ d' c' h. ground (arith, inv.client_back d' c', res.unused);
    descriptor_back = λ d' c' h. ground (arith, inv.descriptor_back d' c', new_fd);
    event_back = λ d' e' h. ground (arith, inv.event_back d' e', new_event);
    descriptor_event = λ d' e' h. ground (arith, inv.descriptor_event d' e', no_event);
    paired = λ d'. ground (arith, inv.paired d');
    owned = λ e'. ground (arith, inv.owned e');
    instanced = λ c'. ground (arith, inv.instanced c');
    pooled = λ c' h. ground (arith, inv.pooled c', res.unpooled);
    issued = λ c' d' h. ground (arith, inv.issued c' d', res.given);
  }

  enter-flat : s' ≡ flat
  unfolding flat
  enter-flat =
      rw
        (
          entered s.descriptors c d res.unused,
          entered s.buffer_events d e no_event,
          entered s.event_descriptors e d new_event,
          entered s.worker_map e worker no_worker,
        )
        refl

  pub enter-Inv : Inv s'
  enter-Inv = subst Inv (sym enter-flat) flat-Inv
