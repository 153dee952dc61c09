-- ===== src/Chess/Lobby/Commands.antt =====
-- plugins/probchess/ProbabilityChess: the handlers of a connection, a message and a close.
use algiz.Base.{
  ℕ, ◌-◌, ◌==◌, List, [], ◌∷◌, ◌++◌, Option, none, some, Bool, true, false, ◌&&◌, if◌then◌else◌,
  leb,
}
use algiz.Base.Bytes.{Bytes, codes, beq, is_empty}
use algiz.Base.Int.{pos}
use algiz.Util.Split.{split}
use algiz.Chess.Fen.{to_fen}
use algiz.Chess.Square.{Color, white, black, Square, square, Move}
use algiz.Chess.Match.{get_player, is_ready}
use algiz.Chess.Match.Play.{Made, refused, made, make_move}
use algiz.Chess.Lobby.{
  Lobby, Result, done, threw, undefined, endless, find_id, find_client, load, store, tell,
  create_match, leave_match,
}
use algiz.Chess.Lobby.Joining.{join_match}

invalid_message : ℕ → Lobby → Result
unfolding tell
invalid_message client l = done (tell client (codes ":Error Invalid message.") l)

color_of : Bytes → Color
color_of word = if beq word (codes "black") then black else white

-- The creation of a match with the words of a command.
create_with : ℕ → List Bytes → Lobby → Result
unfolding create_match color_of invalid_message
create_with client (id ∷ (column ∷ []) ∷ color ∷ hidden ∷ skip ∷ type ∷ []) l =
    if is_empty id
    then invalid_message client l
    else create_match client id column (color_of color) (beq hidden (codes "hidden"))
        (beq skip (codes "noskip")) type l
create_with client words l = invalid_message client l

-- `:CreateOrJoin`.
create_or_join : ℕ → ℕ → (ℕ → ℕ) → ℕ → List Bytes → Lobby → Result
unfolding create_match join_match color_of invalid_message
create_or_join rounds fuel rand client (id ∷ (column ∷ []) ∷ color ∷ hidden ∷ skip ∷ type ∷ []) l =
    if is_empty id then invalid_message client l else elim (find_id id l.by_id) [
      | some address ↦ join_match rounds fuel rand client id false l
      | none ↦
          create_match client id column (color_of color) (beq hidden (codes "hidden"))
            (beq skip (codes "noskip")) type l
    ]
create_or_join rounds fuel rand client words l = invalid_message client l

join_with : ℕ → ℕ → (ℕ → ℕ) → ℕ → Bool → List Bytes → Lobby → Result
unfolding join_match invalid_message
join_with rounds fuel rand client as_spectator (id ∷ []) l =
    if is_empty id
    then invalid_message client l
    else join_match rounds fuel rand client id as_spectator l
join_with rounds fuel rand client as_spectator words l = invalid_message client l

is_place : ℕ → Bool
is_place b = leb b'0' b && leb b b'7'

square_of : Bytes → Option Square
unfolding is_place
square_of (row ∷ column ∷ []) =
    if is_place row && is_place column
    then some (square (pos (row - b'0')) (pos (column - b'0')))
    else none
square_of word = none

-- What follows `makeMove`. The match goes on with its log where a move was refused.
unfoldable pub after_made : ℕ → ℕ → Made → Lobby → Result
unfolding tell store
after_made client address (refused text) l = done (tell client (codes ":Error " ++ text) l)
after_made client address (made none) l = endless
after_made client address (made (some m)) l = done (store address m l)

unfoldable pub move_in : ℕ → ℕ → (ℕ → ℕ) → ℕ → Move → Lobby → Result
unfolding after_made load
move_in rounds fuel rand client mv l = elim (find_client client l.by_client) [
  | none ↦ done (tell client (codes ":Error Not in a match.") l)
  | some address ↦ elim (get_player client (load address l)) [
    | none ↦ threw l
    | some player ↦
        after_made client address (make_move rounds fuel rand player mv (load address l)) l
  ]
]

move_with : ℕ → ℕ → (ℕ → ℕ) → ℕ → List Bytes → Lobby → Result
unfolding move_in square_of invalid_message
move_with rounds fuel rand client (from ∷ to ∷ []) l = elim (square_of from) [
  | none ↦ invalid_message client l
  | some s ↦ elim (square_of to) [
    | none ↦ invalid_message client l
    | some t ↦ move_in rounds fuel rand client (record { from = s; to = t }) l
  ]
]
move_with rounds fuel rand client words l = invalid_message client l

list_matches : ℕ → List (Bytes × ℕ) → Lobby → Lobby
unfolding tell
list_matches client [] l = l
list_matches client ((id, address) ∷ rest) l =
    if (l.matches address).hidden
    then list_matches client rest l
    else list_matches client rest (
        tell client
          (codes ":Match "
            ++ (id
                ++ (codes " "
                    ++ (if is_ready (l.matches address) then codes "closed" else codes "open"))))
          l)

send_fen : ℕ → Lobby → Lobby
unfolding tell to_fen
send_fen client l = elim (find_client client l.by_client) [
  | none ↦ tell client (codes ":Error Not in a match.") l
  | some address ↦
      tell client
        (codes ":FEN " ++ to_fen (l.matches address).board (l.matches address).current_turn) l
]

-- A command: its verb and its other words.
unfoldable pub command : ℕ → ℕ → (ℕ → ℕ) → ℕ → Bytes → List Bytes → Lobby → Result
unfolding create_with create_or_join join_with move_with list_matches send_fen leave_match
command rounds fuel rand client verb words l =
    if beq verb (codes "Create")
    then create_with client words l
    else if beq verb (codes "Join")
    then join_with rounds fuel rand client false words l
    else if beq verb (codes "Spectate")
    then join_with rounds fuel rand client true words l
    else if beq verb (codes "CreateOrJoin")
    then create_or_join rounds fuel rand client words l
    else if beq verb (codes "Move")
    then move_with rounds fuel rand client words l
    else if beq verb (codes "GetMatches")
    then done (list_matches client l.by_id (tell client (codes ":ClearMatches") l))
    else if beq verb (codes "FEN")
    then done (send_fen client l)
    else if beq verb (codes "LeaveMatch")
    then done (leave_match client l)
    else done (tell client (codes ":Error Unknown message type") l)

-- A message of `:` alone has no words, and the first of them is read all the same.
first_word : ℕ → ℕ → (ℕ → ℕ) → ℕ → Option (List Bytes) → Lobby → Result
unfolding command
first_word rounds fuel rand client none l = endless
first_word rounds fuel rand client (some []) l = undefined
first_word rounds fuel rand client (some (verb ∷ words)) l =
    command rounds fuel rand client verb words l

-- `handleMessage` of an event that no other plugin has forbidden.
unfoldable pub handle_message : ℕ → ℕ → (ℕ → ℕ) → ℕ → Bytes → Lobby → Result
unfolding first_word invalid_message
handle_message rounds fuel rand client [] l = invalid_message client l
handle_message rounds fuel rand client (b ∷ message) l =
    if b == b':'
    then first_word rounds fuel rand client (split message (codes " ") true) l
    else invalid_message client l

erase_connection : ℕ → List ℕ → List ℕ
erase_connection client [] = []
erase_connection client (other ∷ rest) =
    if other == client then erase_connection client rest else other ∷ erase_connection client rest

-- `handleClose`.
unfoldable pub handle_close : ℕ → Lobby → Lobby
unfolding erase_connection leave_match
handle_close client l =
    leave_match client (record l { connections = erase_connection client l.connections })

-- `handleConnect`, of a client whose protocols include the plugin's.
unfoldable pub handle_connect : ℕ → Lobby → Lobby
unfolding erase_connection
handle_connect client l = record l {
  connections = erase_connection client l.connections ++ client ∷ [];
}
