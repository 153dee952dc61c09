-- ===== src/Net/Server.antt =====
-- src/net/Server.cpp: who is connected, and who takes what out of the tables. A worker is told by its
-- number, a bufferevent by a number that stands for its address. `int lastClient` starts at -1, so the
-- state holds the next number in its place. An exception is `none`.
--
-- From libevent and the library of C++ come, as arguments: the bufferevent of a new connection, the
-- length of an output buffer, and `begin`, the first number in the order of an unordered set.
pub mod Invariant
pub mod Accept
pub mod Steps
pub mod Ending
pub mod Closing
pub mod Kept
pub mod Reachable
use algiz.Base.{
  ℕ, zero, suc, ◌+◌, ◌%◌, List, [], ◌∷◌, Option, none, some, Bool, true, false, if◌then◌else◌, ◌==◌,
}
use algiz.Base.Bytes.{Bytes}
use algiz.Base.Table.{Table, update}

pub record Server : Type 0 where
  pub thread_count : ℕ
  pub thread_cursor : ℕ
  pub next_client : ℕ
  -- Descriptors to clients, and back.
  pub clients : Table (Option ℕ)
  pub descriptors : Table (Option ℕ)
  pub free_pool : Table Bool
  -- Which clients have an instance in `allClients`.
  pub all_clients : Table Bool
  -- Descriptors to bufferevents, and back.
  pub buffer_events : Table (Option ℕ)
  pub event_descriptors : Table (Option ℕ)
  -- Bufferevents to workers.
  pub worker_map : Table (Option ℕ)
  -- The queues and buffers of each worker.
  pub accept_queues : Table (List ℕ)
  pub close_queues : Table (Table Bool)
  pub read_buffers : Table (Table (Option Bytes))

-- The constructor, and the workers that `run` makes; `none` is the refusal of no threads.
unfoldable pub new_server : ℕ → Option Server
new_server zero = none
new_server (suc n) = some (record {
  thread_count = suc n;
  thread_cursor = 0;
  next_client = 0;
  clients = λ d. none;
  descriptors = λ c. none;
  free_pool = λ c. false;
  all_clients = λ c. false;
  buffer_events = λ d. none;
  event_descriptors = λ e. none;
  worker_map = λ e. none;
  accept_queues = λ w. [];
  close_queues = λ w e. false;
  read_buffers = λ w d. none;
})

infixl 5 ◌>>=◌
abbrev pub ◌>>=◌ {ℓ κ} : {A : Type ℓ} {B : Type κ} → Option A → (A → Option B) → Option B
none >>= f = none
some a >>= f = f a

unfoldable pub get_descriptor : ℕ → Server → Option ℕ
get_descriptor client s = s.descriptors client

unfoldable pub get_buffer_event : ℕ → Server → Option ℕ
get_buffer_event descriptor s = s.buffer_events descriptor

-- `getBufferEvent(getDescriptor(client))`.
unfoldable pub event_of : ℕ → Server → Option ℕ
unfolding get_descriptor get_buffer_event
event_of client s = do descriptor ← get_descriptor client s; get_buffer_event descriptor s

-- `queueClose`: a connection with nothing left to send is removed at once.
unfoldable pub queue_close : (ℕ → ℕ → Server → Option Server) → ℕ → ℕ → ℕ → Server → Option Server
queue_close remove pending worker event s =
    if pending == 0
    then remove worker event s
    else some (record s {
      close_queues = update s.close_queues worker (update (s.close_queues worker) event true);
    })

-- `Server::close`. `pending` is the length of each output buffer.
unfoldable pub close :
    (ℕ → ℕ → Server → Option Server) → (ℕ → ℕ) → ℕ → Server → Option (Bool × Server)
close remove pending client s = elim (event_of client s) [
  | none ↦ some (false, s)
  | some event ↦ do
    worker ← s.worker_map event
    s' ← queue_close remove (pending event) worker event s
    some (true, s')
]

-- The first block of `remove`.
abbrev pub forget_event : ℕ → ℕ → Server → Server
forget_event event descriptor s = record s {
  event_descriptors = update s.event_descriptors event none;
  buffer_events = update s.buffer_events descriptor none;
}

-- The blocks of `remove` behind the close handler.
abbrev pub forget_client : ℕ → ℕ → ℕ → ℕ → Server → Server
forget_client worker event descriptor client s = record s {
  all_clients = update s.all_clients client false;
  free_pool = update s.free_pool client true;
  descriptors = update s.descriptors client none;
  clients = update s.clients descriptor none;
  read_buffers = update s.read_buffers worker (update (s.read_buffers worker) descriptor none);
  worker_map = update s.worker_map event none;
}

-- `Worker::remove`. The close handler is the one that the HTTP server installs: it closes the client,
-- which calls `remove` again with one unit of fuel less.
unfoldable pub remove : ℕ → (ℕ → ℕ) → ℕ → ℕ → Server → Option Server
unfolding close
remove zero pending worker event s = none
remove (suc fuel) pending worker event s = do
  descriptor ← s.event_descriptors event
  let forgotten = forget_event event descriptor s
  client ← forgotten.clients descriptor
  (_, closed) ← close (remove fuel pending) pending client forgotten
  some (forget_client worker event descriptor client closed)

-- `Worker::accept`, with the bufferevent that libevent makes; `none` there is a null pointer.
abbrev pub fresh_client : Option ℕ → Server → ℕ × Server
fresh_client (some client) s = (client, record s { free_pool = update s.free_pool client false })
fresh_client none s = (s.next_client, record s { next_client = suc s.next_client })

abbrev emplace : Table (Option ℕ) → ℕ → ℕ → Table (Option ℕ)
emplace t k v = elim (t k) [ none ↦ update t k (some v) | some old ↦ t ]

abbrev pub is_some {ℓ} : {A : Type ℓ} → Option A → Bool
is_some none = false
is_some (some a) = true

-- The new connection in every table.
abbrev pub enter : ℕ → ℕ → ℕ → ℕ → Server → Server
enter worker client descriptor event s = record s {
  descriptors = emplace s.descriptors client descriptor;
  clients = update s.clients descriptor (some client);
  buffer_events = emplace s.buffer_events descriptor event;
  event_descriptors = emplace s.event_descriptors event descriptor;
  worker_map = emplace s.worker_map event worker;
  all_clients = update s.all_clients client true;
}

unfoldable pub accept : (Table Bool → Option ℕ) → ℕ → ℕ → Option ℕ → Server → Option Server
accept begin worker descriptor none s = none
accept begin worker descriptor (some event) s =
    let (client, taken) = fresh_client (begin s.free_pool) s in
    if is_some (taken.buffer_events descriptor)
    then none
    else some (enter worker client descriptor event taken)

-- `listener_cb`: the workers take turns.
unfoldable pub queue_accept : ℕ → Server → Server
queue_accept descriptor s = record s {
  accept_queues =
      update s.accept_queues s.thread_cursor (descriptor ∷ s.accept_queues s.thread_cursor);
  thread_cursor = (s.thread_cursor + 1) % s.thread_count;
}

-- One round of `worker_acceptcb`: the last descriptor queued is the first of the list.
unfoldable pub next_accept : ℕ → Server → Option (ℕ × Server)
next_accept worker s = elim (s.accept_queues worker) [
  | [] ↦ none
  | descriptor ∷ rest ↦
      some (descriptor, record s { accept_queues = update s.accept_queues worker rest })
]

-- `handleWriteEmpty`.
unfoldable pub handle_write_empty : (ℕ → ℕ) → ℕ → ℕ → Server → Option Server
unfolding remove
handle_write_empty pending worker event s =
    if s.close_queues worker event
    then remove 1 pending worker event (record s {
      close_queues = update s.close_queues worker (update (s.close_queues worker) event false);
    })
    else some s

-- `Server::remove`: by the worker that the event belongs to.
unfoldable pub server_remove : (ℕ → ℕ) → ℕ → Server → Option (Bool × Server)
unfolding remove
server_remove pending event s = elim (s.worker_map event) [
  | none ↦ some (false, s)
  | some worker ↦ do s' ← remove 1 pending worker event s; some (true, s')
]

-- `removeClient`.
unfoldable pub remove_client : (ℕ → ℕ) → ℕ → Server → Option (Bool × Server)
unfolding event_of server_remove
remove_client pending client s = do event ← event_of client s; server_remove pending event s
