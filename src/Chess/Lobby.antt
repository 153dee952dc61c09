-- ===== src/Chess/Lobby.antt =====
-- plugins/probchess/ProbabilityChess: the table of the matches and the commands of a client. A match is
-- told by its address, a number. The players are people: a match against a machine is not modelled. What a
-- match changes in its parent is written back to the table after each call.
pub mod Joining
pub mod Seats
pub mod Commands
use algiz.Base.{
  ℕ, suc, ◌+◌, ◌-◌, ◌==◌, List, [], ◌∷◌, ◌++◌, Option, none, some, Bool, true, false, not, ◌&&◌,
  ◌||◌, if◌then◌else◌, ltb, leb,
}
use algiz.Base.Bytes.{Bytes, codes, beq}
use algiz.Base.Table.{Table, update}
use algiz.Chess.Square.{Color, color_name}
use algiz.Chess.Match.{Match, new_match, is_some, is_ready, disconnect}
use algiz.Chess.Match.Turn.{contains, send_board}

pub record Lobby : Type 0 where
  pub matches : Table Match
  pub started : Table Bool
  pub next : ℕ
  -- `matchesByID` and `matchesByClient`, in the order in which they are gone through.
  pub by_id : List (Bytes × ℕ)
  pub by_client : List (ℕ × ℕ)
  pub connections : List ℕ
  -- What was sent to single clients and to all of them, and the number of values taken from `rand`.
  pub sent : List (ℕ × Bytes)
  pub broadcasts : List Bytes
  pub drawn : ℕ

-- How a command ends. `threw` is a runtime_error that reaches net/Server, `against_machine` the creation
-- of a match against a machine, `undefined` a read out of range, `endless` a loop that goes on.
pub data Result : Type 0 where
  done : Lobby → Result
  threw : Lobby → Result
  against_machine : Result
  undefined : Result
  endless : Result

unfoldable pub find_id : Bytes → List (Bytes × ℕ) → Option ℕ
find_id id [] = none
find_id id ((other, address) ∷ rest) = if beq other id then some address else find_id id rest

unfoldable pub find_client : ℕ → List (ℕ × ℕ) → Option ℕ
find_client client [] = none
find_client client ((other, address) ∷ rest) =
    if other == client then some address else find_client client rest

erase_id : Bytes → List (Bytes × ℕ) → List (Bytes × ℕ)
erase_id id [] = []
erase_id id ((other, address) ∷ rest) =
    if beq other id then erase_id id rest else (other, address) ∷ erase_id id rest

erase_client : ℕ → List (ℕ × ℕ) → List (ℕ × ℕ)
erase_client client [] = []
erase_client client ((other, address) ∷ rest) =
    if other == client
    then erase_client client rest
    else (other, address) ∷ erase_client client rest

-- The clients that are still listed.
only_listed : List ℕ → List (ℕ × ℕ) → List (ℕ × ℕ)
only_listed clients [] = []
only_listed clients ((client, address) ∷ rest) =
    if contains client clients
    then (client, address) ∷ only_listed clients rest
    else only_listed clients rest

abbrev listed_clients : List (ℕ × ℕ) → List ℕ
listed_clients [] = []
listed_clients ((client, address) ∷ rest) = client ∷ listed_clients rest

-- A match with the parts of its parent that it reads and changes.
unfoldable pub load : ℕ → Lobby → Match
load address l = record (l.matches address) {
  clients = listed_clients l.by_client;
  listed = true;
  broadcasts = l.broadcasts;
  sent = l.sent;
  drawn = l.drawn;
}

unfoldable pub store : ℕ → Match → Lobby → Lobby
unfolding only_listed erase_id
store address m l = record l {
  matches = update l.matches address m;
  by_id = if m.listed then l.by_id else erase_id m.match_id l.by_id;
  by_client = only_listed m.clients l.by_client;
  broadcasts = m.broadcasts;
  sent = m.sent;
  drawn = m.drawn;
}

unfoldable pub tell : ℕ → Bytes → Lobby → Lobby
tell client message l = record l { sent = l.sent ++ (client, message) ∷ [] }

unfoldable pub broadcast : Bytes → Lobby → Lobby
broadcast message l = record l { broadcasts = l.broadcasts ++ message ∷ [] }

-- The text of a match in the list of the open ones.
abbrev pub match_text : Match → Bytes
match_text m =
    codes ":Match "
    ++ (m.match_id ++ (codes " " ++ (if is_ready m then codes "closed" else codes "open")))

abbrev is_word : ℕ → Bool
is_word b =
    (leb b'a' b && leb b b'z')
    || (leb b'A' b && leb b b'Z')
    || (leb b'0' b && leb b b'9')
    || (b == b'_')

unfoldable pub valid_id : Bytes → Bool
valid_id [] = true
valid_id (b ∷ id) = is_word b && valid_id id

pub data MatchType : Type 0 where
  human machine unknown : MatchType

match_type : Bytes → MatchType
match_type text =
    if beq text (codes "human")
    then human
    else if beq text (codes "random")
        || beq text (codes "cccp")
        || beq text (codes "cccp2")
        || beq text (codes "null")
    then machine
    else unknown

-- The part of `createMatch` behind the tests, for a match between people: its guest is yet to come.
unfoldable pub open_match : ℕ → Bytes → ℕ → Color → Bool → Bool → Lobby → Lobby
unfolding tell broadcast store load
open_match client id columns color hidden no_skip l =
    let address = l.next in
    let m = new_match id hidden no_skip columns color client (client ∷ []) in
    let entered = record l {
      matches = update l.matches address m;
      started = update l.started address false;
      next = suc address;
      by_id = l.by_id ++ (id, address) ∷ [];
      by_client = l.by_client ++ (client, address) ∷ [];
    } in
    let told = tell client (codes ":Joined " ++ (id ++ (codes " " ++ color_name color))) entered in
    let shown = if hidden then told else broadcast (match_text m) told in
    store address (send_board (load address shown)) shown

-- `createMatch`, with the byte that stands for the number of columns.
unfoldable pub create_match : ℕ → Bytes → ℕ → Color → Bool → Bool → Bytes → Lobby → Result
unfolding open_match match_type
create_match client id column color hidden no_skip type l =
    if not (valid_id id)
    then done (tell client (codes ":Error Invalid match ID.") l)
    else if ltb column b'1' || ltb b'8' column
    then done (tell client (codes ":Error Invalid column count.") l)
    else if is_some (find_client client l.by_client)
    then done (tell client (codes ":Error Already in a match.") l)
    else if is_some (find_id id l.by_id)
    then done (tell client (codes ":Error A match with that ID already exists.") l)
    else elim (match_type type) [
      | human ↦ done (open_match client id (column - b'0') color hidden no_skip l)
      | machine ↦ against_machine
      | unknown ↦ done (tell client (codes ":Error Invalid match type.") l)
    ]

-- A client that is in a match leaves it.
unfoldable pub leave_match : ℕ → Lobby → Lobby
unfolding load store erase_client
leave_match client l = elim (find_client client l.by_client) [
  | none ↦ l
  | some address ↦
      let left = store address (disconnect client (load address l)) l in
      record left { by_client = erase_client client left.by_client }
]
