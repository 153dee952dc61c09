-- ===== src/Net/Server/Closing.antt =====
-- src/net/Server.cpp: `close` and `queueClose` keep the tables in agreement.
use algiz.Base.{
  ℕ, ◌≡◌, refl, sym, ap, subst, ◌∙◌, Option, none, some, Bool, true, false, if◌then◌else◌, ◌==◌,
  Option-cases, Bool-cases, inl, inr,
}
use algiz.Base.Table.{update, update_self}
use algiz.Net.Server.{Server, ◌>>=◌, queue_close, close, remove, event_of}
use algiz.Net.Server.Invariant.{Inv}
use algiz.Net.Server.Steps.{Queues, Closes}
use algiz.Net.Server.Ending.{Kept, queues-Inv, Told, some_inj, none-some, Ends-same, remove-Kept}

module _ {s : Server} (inv : Inv s) where
  queue_close-Kept :
      {t : Server} (pending : ℕ → ℕ) (c worker e : ℕ)
      → event_of c s ≡ some e
      → s.worker_map e ≡ some worker
      → queue_close (remove 1 pending) (pending e) worker e s ≡ some t
      → Kept (Queues pending c e) s t
  unfolding queue_close
  queue_close-Kept {t} pending c worker e he hw h = elim (Bool-cases (pending e == 0)) [
    | inl z ↦
        let (kept, _, c', ended) =
          remove-Kept inv pending worker e
            (sym (ap (λ b. if b then remove 1 pending worker e s else some later_on) z) ∙ h) in
        (kept, inl (z, Ends-same inv t c c' e he ended))
    | inr z ↦
        subst (Kept (Queues pending c e) s)
          (some_inj later_on t
            (sym (ap (λ b. if b then remove 1 pending worker e s else some later_on) z) ∙ h))
          (
            queues-Inv s.thread_cursor s.accept_queues later_on.close_queues inv,
            inr (z, worker, hw, is_queued, refl),
          )
  ]
    where
      later_on : Server
      later_on = record s {
        close_queues = update s.close_queues worker (update (s.close_queues worker) e true);
      }

      is_queued : later_on.close_queues worker e ≡ true
      is_queued =
          ap (λ q. q e) (update_self s.close_queues worker (update (s.close_queues worker) e true))
          ∙ update_self (s.close_queues worker) e true

  pub close-Kept :
      {t : Server} (pending : ℕ → ℕ) (c : ℕ) (found : Bool)
      → close (remove 1 pending) pending c s ≡ some (found, t)
      → Kept (Closes pending c found) s t
  unfolding close
  close-Kept {t} pending c found h = elim (Option-cases (event_of c s)) [
    | inl n ↦
        subst (Told s (Closes pending c)) (pair_inj (sym (closed_none n) ∙ h))
          (inv, inl (n, refl, refl))
    | inr (e, he) ↦ elim (Option-cases (s.worker_map e)) [
      | inl n ↦ absurd (none-some _ (sym (closed_some e he ∙ ap (λ o. o >>= after e) n) ∙ h))
      | inr (w, hw) ↦ elim (Option-cases (queue_close (remove 1 pending) (pending e) w e s)) [
        | inl n ↦ absurd (none-some _ (sym (closed_by e w he hw none n) ∙ h))
        | inr (s', hs) ↦
            let (kept, effect) = queue_close-Kept pending c w e he hw hs in
            subst (Told s (Closes pending c))
              (pair_inj (sym (closed_by e w he hw (some s') hs) ∙ h))
              (kept, inr (e, he, refl, effect))
      ]
    ]
  ]
    where
      pair_inj : {p q : Bool × Server} → some p ≡ some q → p ≡ q
      pair_inj {p} {q} = some_inj p q

      after : ℕ → ℕ → Option (Bool × Server)
      after e w = queue_close (remove 1 pending) (pending e) w e s >>= λ s'. some (true, s')

      closed_none : event_of c s ≡ none → close (remove 1 pending) pending c s ≡ some (false, s)
      closed_none n = rw (n, close) refl

      closed_some :
          (e : ℕ)
          → event_of c s ≡ some e
          → close (remove 1 pending) pending c s ≡ (s.worker_map e >>= after e)
      closed_some e he = rw (he, close) refl

      closed_by :
          (e w : ℕ)
          → event_of c s ≡ some e
          → s.worker_map e ≡ some w
          → (o : Option Server) → queue_close (remove 1 pending) (pending e) w e s ≡ o
          → close (remove 1 pending) pending c s ≡ (o >>= λ s'. some (true, s'))
      closed_by e w he hw o ho =
          closed_some e he ∙ (ap (λ o. o >>= after e) hw ∙ ap (λ o. o >>= λ s'. some (true, s')) ho)
