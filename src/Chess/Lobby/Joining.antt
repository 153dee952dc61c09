-- ===== src/Chess/Lobby/Joining.antt =====
-- plugins/probchess/ProbabilityChess: `joinMatch`.
use algiz.Base.{
  ℕ, List, [], ◌∷◌, ◌++◌, Option, none, some, Bool, true, false, not, ◌&&◌, if◌then◌else◌,
}
use algiz.Base.Bytes.{Bytes, codes}
use algiz.Base.Table.{update}
use algiz.Chess.Square.{color_name, other_color}
use algiz.Chess.Board.{Piece}
use algiz.Chess.Match.{Match, is_some, is_ready, send_all}
use algiz.Chess.Match.Turn.{any_can_move, reroll, column_message, captured_message, send_board}
use algiz.Chess.Lobby.{
  Lobby, Result, done, endless, find_id, find_client, load, store, tell, match_text,
}

-- The seats of a match, as one that joins takes them.
unfoldable pub take_seat : ℕ → Bool → Match → Match
take_seat client true m = record m { spectators = m.spectators ++ client ∷ [] }
take_seat client false m =
    if not (is_some m.host_client)
    then record m { host_client = some client }
    else if not (is_some m.guest_client)
    then record m { guest_client = some client }
    else m

abbrev pub joined_as : Bool → Match → Bytes
joined_as true m = codes "spectator"
joined_as false m =
    color_name (if is_some m.host_client then other_color m.host_color else m.host_color)

abbrev pub tell_in : ℕ → Bytes → Match → Match
tell_in client message m = record m { sent = m.sent ++ (client, message) ∷ [] }

unfoldable pub tell_captured : ℕ → List Piece → Match → Match
tell_captured client [] m = m
tell_captured client (piece ∷ pieces) m =
    tell_captured client pieces (tell_in client (captured_message piece) m)

-- What is told before the seat is taken.
unfoldable pub announce : ℕ → Bool → Bool → Match → Match
announce client as_spectator started m =
    let greeted =
      tell_in client (codes ":Joined " ++ (m.match_id ++ (codes " " ++ joined_as as_spectator m)))
        m in
    if as_spectator
    then (if started then tell_in client (codes ":Start") greeted else greeted)
    else (if started then greeted else send_all (codes ":Start") greeted)

unfoldable pub welcome : ℕ → Bool → Match → Match
welcome client as_spectator m = if as_spectator then m else tell_in client (codes ":Start") m

unfoldable pub call_turn : Match → Match
call_turn m = if is_ready m then send_all (codes ":Turn " ++ color_name m.current_turn) m else m

-- `joinMatch` from ":Joined" to the board.
unfoldable pub enter_match : ℕ → Bool → Bool → Match → Match
unfolding announce take_seat welcome call_turn
enter_match client as_spectator started m = send_board (
    call_turn (
      welcome client as_spectator
        (take_seat client as_spectator (announce client as_spectator started m))))

-- The last part of `joinMatch`: the first player that joins starts the match. `getPieces` is endless where
-- nobody can move.
unfoldable pub start_match : ℕ → ℕ → (ℕ → ℕ) → ℕ → Bool → Bool → Match → Option Match
unfolding tell_captured
start_match rounds fuel rand client as_spectator started m =
    if not as_spectator && not started
    then (if any_can_move m then reroll rounds fuel rand m else none)
    else some (tell_captured client m.captured (tell_in client (column_message m) m))

abbrev pub show_match : Bool → Match → Match
show_match as_spectator m =
    if not as_spectator && not m.hidden
    then record m { broadcasts = m.broadcasts ++ match_text m ∷ [] }
    else m

unfoldable pub join_found : ℕ → ℕ → (ℕ → ℕ) → ℕ → Bool → ℕ → Lobby → Result
unfolding enter_match start_match load store
join_found rounds fuel rand client as_spectator address l =
    let listed = record l { by_client = l.by_client ++ (client, address) ∷ [] } in
    let inside = enter_match client as_spectator (l.started address) (load address listed) in
    elim (start_match rounds fuel rand client as_spectator (l.started address) inside) [
      | none ↦ endless
      | some m ↦ done (
          store address (show_match as_spectator m) (record listed {
            started = update l.started address (if as_spectator then l.started address else true);
          }))
    ]

unfoldable pub join_match : ℕ → ℕ → (ℕ → ℕ) → ℕ → Bytes → Bool → Lobby → Result
unfolding join_found
join_match rounds fuel rand client id as_spectator l =
    if is_some (find_client client l.by_client)
    then done (tell client (codes ":Error Already in a match.") l)
    else elim (find_id id l.by_id) [
      | none ↦ done (tell client (codes ":Error No match with that ID exists.") l)
      | some address ↦
          if not as_spectator && is_ready (l.matches address)
          then done (tell client (codes ":Error Match is full.") l)
          else join_found rounds fuel rand client as_spectator address l
    ]
