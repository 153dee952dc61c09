-- ===== src/Net/Server/Steps.antt =====
-- src/net/Server.cpp: connections as the steps of the server, in any order, and the plain table of who is
-- connected that they come to: what a step of each kind does to that table.
use algiz.Base.{ℕ, ◌≡◌, ◌≢◌, ◌==◌, ◌⊎◌, Option, none, some, Bool, true, false}
use algiz.Base.Table.{Table, update}
use algiz.Net.Server.{
  Server, new_server, accept, queue_accept, next_accept, close, remove, handle_write_empty,
  server_remove, remove_client, event_of,
}

-- The first number of a pool is one of its numbers.
abbrev pub IsBegin : (Table Bool → Option ℕ) → Type 0
IsBegin begin = (pool : Table Bool) (c : ℕ) → begin pool ≡ some c → pool c ≡ true

-- What the callbacks do. The system hands out no descriptor that is open, and libevent no address that
-- is in use.
pub data Step (begin : Table Bool → Option ℕ) (s : Server) : Server → Type 0 where
  queued : (descriptor : ℕ) → Step begin s (queue_accept descriptor s)
  taken :
      {t : Server} (worker descriptor : ℕ)
      → next_accept worker s ≡ some (descriptor, t)
      → Step begin s t
  accepted :
      {t : Server} (worker descriptor event : ℕ)
      → s.clients descriptor ≡ none
      → s.event_descriptors event ≡ none
      → accept begin worker descriptor (some event) s ≡ some t
      → Step begin s t
  removing :
      {t : Server} (pending : ℕ → ℕ) (worker event : ℕ)
      → remove 1 pending worker event s ≡ some t
      → Step begin s t
  closing :
      {t : Server} (pending : ℕ → ℕ) (client : ℕ) (found : Bool)
      → close (remove 1 pending) pending client s ≡ some (found, t)
      → Step begin s t
  wrote :
      {t : Server} (pending : ℕ → ℕ) (worker event : ℕ)
      → handle_write_empty pending worker event s ≡ some t
      → Step begin s t
  unwanted :
      {t : Server} (pending : ℕ → ℕ) (event : ℕ) (found : Bool)
      → server_remove pending event s ≡ some (found, t)
      → Step begin s t
  leaving :
      {t : Server} (pending : ℕ → ℕ) (client : ℕ) (found : Bool)
      → remove_client pending client s ≡ some (found, t)
      → Step begin s t

pub data Reach (begin : Table Bool → Option ℕ) : Server → Type 0 where
  start : {s : Server} (threads : ℕ) → new_server threads ≡ some s → Reach begin s
  later : {s t : Server} → Reach begin s → Step begin s t → Reach begin t

abbrev pub Same : Server → Server → Type 0
Same s t = t.clients ≡ s.clients

-- The client `c`, whose bufferevent is `e`, is gone, and all others are where they were.
abbrev pub Ends : ℕ → ℕ → Server → Server → Type 0
Ends e c s t =
    (d : ℕ) × (s.event_descriptors e ≡ some d)
    × (s.clients d ≡ some c)
    × (t.clients ≡ update s.clients d none)

-- The descriptor, which had no client, has one with a number that nobody had.
abbrev pub Joins : ℕ → Server → Server → Type 0
Joins d s t =
    (c : ℕ) × (s.clients d ≡ none)
    × ((d' : ℕ) → s.clients d' ≢ some c)
    × (t.clients ≡ update s.clients d (some c))

-- A client with nothing left to send is gone; of another one only the close is queued.
abbrev pub Queues : (ℕ → ℕ) → ℕ → ℕ → Server → Server → Type 0
Queues pending c e s t =
    (((pending e == 0) ≡ true) × Ends e c s t)
    ⊎ (((pending e == 0) ≡ false)
        × (w : ℕ) × (s.worker_map e ≡ some w)
        × (t.close_queues w e ≡ true)
        × Same s t)

-- A client that is not there is reported, and nothing changes.
abbrev pub Closes : (ℕ → ℕ) → ℕ → Bool → Server → Server → Type 0
Closes pending c found s t =
    ((event_of c s ≡ none) × (found ≡ false) × (t ≡ s))
    ⊎ ((e : ℕ) × (event_of c s ≡ some e) × (found ≡ true) × Queues pending c e s t)

-- A write that empties a buffer ends the connection where its close was queued, and only there.
abbrev pub Writes : ℕ → ℕ → Server → Server → Type 0
Writes w e s t =
    ((s.close_queues w e ≡ true) × (t.close_queues w e ≡ false) × (c : ℕ) × Ends e c s t)
    ⊎ ((s.close_queues w e ≡ false) × (t ≡ s))

abbrev pub Removes : ℕ → Bool → Server → Server → Type 0
Removes e found s t =
    ((s.worker_map e ≡ none) × (found ≡ false) × (t ≡ s))
    ⊎ ((found ≡ true) × (c : ℕ) × Ends e c s t)

abbrev pub Departs : ℕ → Bool → Server → Server → Type 0
Departs c found s t = (found ≡ true) × (e : ℕ) × (event_of c s ≡ some e) × Ends e c s t

-- What a step of each kind does to the plain table of who is connected.
unfoldable pub Does : {begin : Table Bool → Option ℕ} {s t : Server} → Step begin s t → Type 0
Does {s = s} {t = t} (queued descriptor) = Same s t
Does {s = s} {t = t} (taken worker descriptor h) = Same s t
Does {s = s} {t = t} (accepted worker descriptor event hd he h) = Joins descriptor s t
Does {s = s} {t = t} (removing pending worker event h) = (c : ℕ) × Ends event c s t
Does {s = s} {t = t} (closing pending client found h) = Closes pending client found s t
Does {s = s} {t = t} (wrote pending worker event h) = Writes worker event s t
Does {s = s} {t = t} (unwanted pending event found h) = Removes event found s t
Does {s = s} {t = t} (leaving pending client found h) = Departs client found s t
