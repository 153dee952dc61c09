-- ===== src/Tests/Net.antt =====
-- net: the theorems at concrete inputs.
use algiz.Base.{ℕ, ◌≡◌, refl, List, [], ◌∷◌, ◌++◌, Option, none, some, Bool, true, false, arith}
use algiz.Base.Bytes.{Bytes, codes}
use algiz.Base.Table.{Table}
use algiz.Net.Server.{Server, new_server, accept, enter, remove}
use algiz.Net.Server.Invariant.{Inv}
use algiz.Net.Server.Steps.{IsBegin, Step, Reach, start, later, accepted, Does}
use algiz.Net.Server.Reachable.{Reach-Inv, Step-Does, remove-ends}
use algiz.Net.Read.{Client, handled, and_then, end_round, handle_read}
use algiz.Net.Read.Lines.{deliver, handle_read-deliver}

abbrev no_pool : Table Bool → Option ℕ
no_pool pool = none

no_pool-IsBegin : IsBegin no_pool
no_pool-IsBegin pool c h = absurd (ground arith)

-- A server of one worker.
abbrev one_worker : Server
one_worker = record {
  thread_count = 1;
  thread_cursor = 0;
  next_client = 0;
  clients = λ d. none;
  descriptors = λ c. none;
  free_pool = λ c. false;
  all_clients = λ c. false;
  buffer_events = λ d. none;
  event_descriptors = λ e. none;
  worker_map = λ e. none;
  accept_queues = λ w. [];
  close_queues = λ w e. false;
  read_buffers = λ w d. none;
}

-- The same with client 0 on descriptor 5 and bufferevent 7.
abbrev one_client : Server
one_client = enter 0 0 5 7 (record one_worker { next_client = 1 })

started : Reach no_pool one_worker
unfolding new_server
started = start 1 refl

connecting : Step no_pool one_worker one_client
unfolding accept
connecting = accepted 0 5 7 refl refl refl

Reach-Inv_example : Inv one_client
Reach-Inv_example = Reach-Inv no_pool no_pool-IsBegin (later started connecting)

Step-Does_example : Does connecting
Step-Does_example = Step-Does no_pool no_pool-IsBegin started connecting

abbrev nothing_pending : ℕ → ℕ
nothing_pending event = 0

remove-ends_example :
    (c : ℕ) × (t : Server) × (remove 1 nothing_pending 0 7 one_client ≡ some t)
    × (one_client.clients 5 ≡ some c)
    × (t.clients 5 ≡ none)
    × (t.free_pool c ≡ true)
remove-ends_example =
    remove-ends no_pool 0 nothing_pending 0 7 5 no_pool-IsBegin (later started connecting) refl

-- A client that keeps what is handed over.
abbrev keeper : Client (List Bytes)
keeper = record {
  line_mode = λ kept. true;
  max_line_size = λ kept. 100;
  max_read = λ kept. 0;
  set_max_read = λ n kept. kept;
  connected = λ kept. true;
  handle = λ kept message. handled (kept ++ message ∷ []);
  leave = λ kept. kept;
}

handle_read-deliver_example :
    handle_read keeper 50 [] (codes "a") (b'b' ∷ b'\n' ∷ b'c' ∷ b'\n' ∷ [])
    ≡ and_then keeper (deliver keeper [] (codes "ab" ∷ codes "c" ∷ []) []) (end_round keeper)
handle_read-deliver_example =
    handle_read-deliver keeper 50 [] (codes "a") (b'b' ∷ b'\n' ∷ b'c' ∷ b'\n' ∷ [])
      (codes "ab" ∷ codes "c" ∷ []) [] refl refl (omega arith) (omega arith) (omega arith) refl
      ((omega arith, (omega arith, tt)), ((omega arith, tt), tt)) tt
