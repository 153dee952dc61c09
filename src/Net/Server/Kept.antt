-- ===== src/Net/Server/Kept.antt =====
-- src/net/Server.cpp: each callback keeps the tables in agreement.
use algiz.Base.{
  ℕ, ◌≡◌, ◌≢◌, refl, sym, ap, subst, ◌∙◌, List, [], ◌∷◌, Option, none, some, Bool, true, false,
  if◌then◌else◌, Option-cases, Bool-cases, inl, inr, arith,
}
use algiz.Base.Table.{Table, update, update_self}
use algiz.Net.Server.{
  Server, is_some, ◌>>=◌, accept, fresh_client, enter, queue_accept, next_accept, remove, event_of,
  handle_write_empty, server_remove, remove_client, get_descriptor, get_buffer_event,
}
use algiz.Net.Server.Invariant.{Inv}
use algiz.Net.Server.Accept.{fresh_client-Inv, fresh_client-IsReserved, IsReserved, enter-Inv}
use algiz.Net.Server.Steps.{
  IsBegin, Step, queued, taken, accepted, removing, closing, wrote, unwanted, leaving, Same, Joins,
  Writes, Removes, Departs, Does,
}
use algiz.Net.Server.Ending.{Kept, queues-Inv, Told, some_inj, none-some, Ends-same, remove-Kept}
use algiz.Net.Server.Closing.{close-Kept}

module _ {s : Server} (inv : Inv s) where
  fresh-clients : (o : Option ℕ) → (fresh_client o s).1.clients ≡ s.clients
  fresh-clients none = refl
  fresh-clients (some c) = refl

  fresh-events : (o : Option ℕ) → (fresh_client o s).1.event_descriptors ≡ s.event_descriptors
  fresh-events none = refl
  fresh-events (some c) = refl

  accept-Kept :
      {t : Server} (begin : Table Bool → Option ℕ) (worker d e : ℕ)
      → IsBegin begin
      → s.clients d ≡ none
      → s.event_descriptors e ≡ none
      → accept begin worker d (some e) s ≡ some t
      → Kept (Joins d) s t
  unfolding accept
  accept-Kept {t} begin worker d e first hd he h =
      elim (Bool-cases (is_some (made.1.buffer_events d))) [
        | inl b ↦ absurd (
            none-some _
              (sym (ap (λ b. if b then none else some (enter worker made.0 d e made.1)) b) ∙ h))
        | inr b ↦
            let result =
              some_inj (enter worker made.0 d e made.1) t
                (sym (ap (λ b. if b then none else some (enter worker made.0 d e made.1)) b) ∙ h) in
            subst (Kept (Joins d) s) result (
              enter-Inv (fresh_client-Inv inv o) worker made.0 d e reserved no_client no_event,
              (made.0, hd, nobody, ap (λ live. update live d (some made.0)) (fresh-clients o)),
            )
      ]
    where
      o : Option ℕ
      o = begin s.free_pool

      made : ℕ × Server
      made = fresh_client o s

      reserved : IsReserved made.0 made.1
      reserved = fresh_client-IsReserved inv o (λ c hc. first s.free_pool c hc)

      no_client : made.1.clients d ≡ none
      no_client = ap (λ live. live d) (fresh-clients o) ∙ hd

      no_event : made.1.event_descriptors e ≡ none
      no_event = ap (λ t. t e) (fresh-events o) ∙ he

      nobody : (d' : ℕ) → s.clients d' ≢ some made.0
      nobody d' h' = none-some _ (
          sym reserved.unused
          ∙ (fresh_client-Inv inv o).client_back d' made.0
              (ap (λ live. live d') (fresh-clients o) ∙ h'))

  write-Kept :
      {t : Server} (pending : ℕ → ℕ) (worker e : ℕ)
      → handle_write_empty pending worker e s ≡ some t
      → Kept (Writes worker e) s t
  unfolding handle_write_empty
  write-Kept {t} pending worker e h = elim (Bool-cases (s.close_queues worker e)) [
    | inl b ↦
        let (kept, queues, c, ended) =
          remove-Kept (queues-Inv s.thread_cursor s.accept_queues emptied.close_queues inv) pending
            worker e
            (sym (ap (λ b. if b then remove 1 pending worker e emptied else some s) b) ∙ h) in
        (kept, inl (b, ap (λ q. q worker e) queues ∙ no_longer, c, ended))
    | inr b ↦
        subst (Kept (Writes worker e) s)
          (some_inj s t
            (sym (ap (λ b. if b then remove 1 pending worker e emptied else some s) b) ∙ h))
          (inv, inr (b, refl))
  ]
    where
      emptied : Server
      emptied = record s {
        close_queues = update s.close_queues worker (update (s.close_queues worker) e false);
      }

      no_longer : emptied.close_queues worker e ≡ false
      no_longer =
          ap (λ q. q e) (update_self s.close_queues worker (update (s.close_queues worker) e false))
          ∙ update_self (s.close_queues worker) e false

  next-Kept :
      {t : Server} (worker d : ℕ) (queue : List ℕ)
      → s.accept_queues worker ≡ queue
      → next_accept worker s ≡ some (d, t)
      → Kept Same s t
  unfolding next_accept
  next-Kept {t} worker d [] e h =
      let empty : next_accept worker s ≡ none = rw (e, next_accept) refl in
      absurd (none-some _ (sym empty ∙ h))
  next-Kept {t} worker d (first ∷ rest) e h =
      let waiting : next_accept worker s
          ≡ some (first, record s { accept_queues = update s.accept_queues worker rest }) =
        rw (e, next_accept) refl in
      subst (Kept Same s) (ap (λ (p : ℕ × Server). p.1) (some_inj _ _ (sym waiting ∙ h)))
        (queues-Inv _ _ _ inv, refl)

  abbrev answer : Bool → Server → Option (Bool × Server)
  answer b u = some (b, u)

  removed-Kept :
      {t : Server} (pending : ℕ → ℕ) (worker e : ℕ) (found : Bool) (r : Option Server)
      → r ≡ remove 1 pending worker e s
      → (r >>= answer true) ≡ some (found, t)
      → Kept (Removes e found) s t
  removed-Kept pending worker e found none q h = absurd (none-some _ h)
  removed-Kept {t} pending worker e found (some u) q h =
      let (kept, _, c, ended) = remove-Kept inv pending worker e (sym q) in
      subst (Told s (Removes e)) (some_inj (true, u) (found, t) h) (kept, inr (refl, c, ended))

  abbrev by_worker : (ℕ → ℕ) → ℕ → Option ℕ → Option (Bool × Server)
  by_worker pending e none = answer false s
  by_worker pending e (some worker) = remove 1 pending worker e s >>= answer true

  worker-Kept :
      {t : Server} (pending : ℕ → ℕ) (e : ℕ) (found : Bool) (o : Option ℕ)
      → s.worker_map e ≡ o
      → by_worker pending e o ≡ some (found, t)
      → Kept (Removes e found) s t
  worker-Kept {t} pending e found none n h =
      subst (Told s (Removes e)) (some_inj (false, s) (found, t) h) (inv, inl (n, refl, refl))
  worker-Kept pending e found (some worker) n h =
      removed-Kept pending worker e found (remove 1 pending worker e s) refl h

  server_remove-Kept :
      {t : Server} (pending : ℕ → ℕ) (e : ℕ) (found : Bool)
      → server_remove pending e s ≡ some (found, t)
      → Kept (Removes e found) s t
  unfolding server_remove
  server_remove-Kept pending e found h = worker-Kept pending e found (s.worker_map e) refl h

  -- The event of a client has a worker.
  worked : (c e : ℕ) → event_of c s ≡ some e → s.worker_map e ≢ none
  unfolding event_of get_descriptor get_buffer_event
  worked c e h n = elim (Option-cases (s.descriptors c)) [
    | inl z ↦ none-some e (sym (ap (λ o. o >>= s.buffer_events) z) ∙ h)
    | inr (d, hd) ↦
        let at_event : s.buffer_events d ≡ some e = sym (ap (λ o. o >>= s.buffer_events) hd) ∙ h in
        ground (arith, inv.event_back d e, inv.owned e, n)
  ]

  event-Kept :
      {t : Server} (pending : ℕ → ℕ) (c : ℕ) (found : Bool) (o : Option ℕ)
      → event_of c s ≡ o
      → (o >>= λ e. server_remove pending e s) ≡ some (found, t)
      → Kept (Departs c found) s t
  event-Kept pending c found none he h = absurd (none-some _ h)
  event-Kept {t} pending c found (some e) he h =
      let (kept, effect) = server_remove-Kept pending e found h in
      elim effect [
        | inl (n, _, _) ↦ absurd (worked c e he n)
        | inr (is_found, c', ended) ↦ (kept, (is_found, e, he, Ends-same inv t c c' e he ended))
      ]

  remove_client-Kept :
      {t : Server} (pending : ℕ → ℕ) (c : ℕ) (found : Bool)
      → remove_client pending c s ≡ some (found, t)
      → Kept (Departs c found) s t
  unfolding remove_client
  remove_client-Kept pending c found h = event-Kept pending c found (event_of c s) refl h

  pub Step-Kept :
      {t : Server} (begin : Table Bool → Option ℕ)
      → IsBegin begin
      → (step : Step begin s t) → Inv t × Does step
  unfolding queue_accept Does
  Step-Kept begin first (queued d) = (queues-Inv _ _ _ inv, refl)
  Step-Kept begin first (taken worker d h) = next-Kept worker d _ refl h
  Step-Kept begin first (accepted worker d e hd he h) = accept-Kept begin worker d e first hd he h
  Step-Kept begin first (removing pending worker e h) =
      let (kept, _, c, ended) = remove-Kept inv pending worker e h in (kept, (c, ended))
  Step-Kept begin first (closing pending c found h) = close-Kept inv pending c found h
  Step-Kept begin first (wrote pending worker e h) = write-Kept pending worker e h
  Step-Kept begin first (unwanted pending e found h) = server_remove-Kept pending e found h
  Step-Kept begin first (leaving pending c found h) = remove_client-Kept pending c found h
