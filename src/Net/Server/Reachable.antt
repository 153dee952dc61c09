-- ===== src/Net/Server/Reachable.antt =====
-- src/net/Server.cpp: what holds of the tables at any time.
use algiz.Base.{ℕ, zero, suc, ◌≡◌, refl, subst, Option, none, some, Bool, true, arith}
use algiz.Base.Table.{Table, update_self}
use algiz.Net.Server.{Server, new_server, remove}
use algiz.Net.Server.Invariant.{Inv, removed, remove-removed}
use algiz.Net.Server.Ending.{client_of, some_inj, none-some}
use algiz.Net.Server.Kept.{Step-Kept}
use algiz.Net.Server.Steps.{IsBegin, Step, Reach, start, later, Does}

new_server-Inv : {s : Server} (threads : ℕ) → new_server threads ≡ some s → Inv s
unfolding new_server
new_server-Inv zero h = absurd (none-some _ h)
new_server-Inv (suc n) h = subst Inv (some_inj _ _ h) (record {
  client_back = λ d c h. absurd (none-some _ h);
  descriptor_back = λ d c h. absurd (none-some _ h);
  event_back = λ d e h. absurd (none-some _ h);
  descriptor_event = λ d e h. absurd (none-some _ h);
  paired = λ d. refl;
  owned = λ e. refl;
  instanced = λ c. refl;
  pooled = λ c h. absurd (ground arith);
  issued = λ c d h. absurd (none-some _ h);
})

-- However connections come and go, the tables agree: descriptors with clients, descriptors with
-- bufferevents, bufferevents with workers, clients with instances, and no number of the pool is in use.
pub Reach-Inv : (begin : Table Bool → Option ℕ) {s : Server} → IsBegin begin → Reach begin s → Inv s
Reach-Inv begin first (start threads h) = new_server-Inv threads h
Reach-Inv begin first (later r step) = (Step-Kept (Reach-Inv begin first r) begin first step).0

-- What each step of a server that was reached does to the table of who is connected. A new connection,
-- on a descriptor that had none, gets a number that nobody has. `Worker::remove` ends the connection of its
-- event. `close` ends exactly the client it names if nothing is left to send, otherwise only queues the
-- close of its event, and changes nothing for a client that is not there. A write that empties a buffer
-- ends the connection of its event if its close was queued, which it is no longer, and changes nothing
-- otherwise. `Server::remove` ends the connection of its event, or changes nothing for an event that no
-- worker has; `removeClient` ends exactly the client it names. Queueing a descriptor and taking it from
-- the queue leave the table as it is. A call that ends in an exception is no step.
pub Step-Does :
    (begin : Table Bool → Option ℕ) {s t : Server}
    → IsBegin begin
    → Reach begin s
    → (step : Step begin s t) → Does step
Step-Does begin first r step = (Step-Kept (Reach-Inv begin first r) begin first step).1

-- In a server that was reached, a connection that is there is removed whatever fuel above 0 is given:
-- the close handler's call of `close` finds nothing to remove. Afterwards its descriptor and its number
-- are free.
pub remove-ends :
    (begin : Table Bool → Option ℕ) {s : Server} (fuel : ℕ) (pending : ℕ → ℕ) (worker e d : ℕ)
    → IsBegin begin
    → Reach begin s
    → s.event_descriptors e ≡ some d
    → (c : ℕ) × (t : Server) × (remove (suc fuel) pending worker e s ≡ some t)
      × (s.clients d ≡ some c)
      × (t.clients d ≡ none)
      × (t.free_pool c ≡ true)
remove-ends begin {s} fuel pending worker e d first r he =
    let inv = Reach-Inv begin first r in
    let (c, hc) = client_of inv e d he in
    (
      c,
      removed worker e d c s,
      remove-removed inv worker e d c he hc fuel pending,
      hc,
      update_self s.clients d none,
      update_self s.free_pool c true,
    )
