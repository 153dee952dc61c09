-- ===== src/Chess/Match.antt =====
-- plugins/probchess: Match and HumanMatch. Both players are human players, told by their client's number;
-- a player reference is the seat it sits in. What the match sends is a log of client and message, and
-- what it changes in its parent is a part of the state. `rand` is an argument: its n-th value.
pub mod Turn
pub mod Play
pub mod Promotion
use algiz.Base.{
  ℕ, zero, suc, ◌+◌, ◌-◌, ◌%◌, ◌≡◌, ◌<◌, refl, List, [], ◌∷◌, ◌++◌, Option, none, some, Bool, true,
  false, not, ◌&&◌, ◌||◌, if◌then◌else◌, ltb, ◌==◌, map, arith,
}
use algiz.Base.Bytes.{Bytes, codes}
use algiz.Base.Int.{ℤ, pos, negsuc, eqb_ℤ}
use algiz.Util.Numbers.{decimal}
use algiz.Chess.Square.{
  Color, black, white, color_eq, color_name, other_color, Square, square, square_eq, print_square,
  Move,
}
use algiz.Chess.Board.{
  Board, Piece, Kind, bishop, king, knight, pawn, queen, rook, kind_eq, kind_name, at, set, erase,
  move, place_pieces,
}
use algiz.Chess.Moves.{can_move_to}
use algiz.Chess.Check.{places, has}

pub data Role : Type 0 where
  host guest : Role

pub record Match : Type 0 where
  pub match_id : Bytes
  pub hidden : Bool
  pub no_skip : Bool
  pub host_client : Option ℕ
  pub guest_client : Option ℕ
  pub current_turn : Color
  pub host_color : Color
  pub board : Board
  pub winner_color : Option Color
  pub column_count : ℕ
  pub columns : List ℕ
  pub over : Bool
  pub captured : List Piece
  pub spectators : List ℕ
  -- The parent: the clients that are in a match, whether it lists this match, and what was broadcast.
  pub clients : List ℕ
  pub listed : Bool
  pub broadcasts : List Bytes
  -- The messages sent so far, and the number of values taken from `rand`.
  pub sent : List (ℕ × Bytes)
  pub drawn : ℕ

-- The constructor of Match, for a match that its host has created in the parent.
unfoldable pub new_match : Bytes → Bool → Bool → ℕ → Color → ℕ → List ℕ → Match
new_match match_id hidden no_skip column_count host_color client clients = record {
  match_id = match_id;
  hidden = hidden;
  no_skip = no_skip;
  host_client = some client;
  guest_client = none;
  current_turn = white;
  host_color = host_color;
  board = place_pieces;
  winner_color = none;
  column_count = column_count;
  columns = [];
  over = false;
  captured = [];
  spectators = [];
  clients = clients;
  listed = true;
  broadcasts = [];
  sent = [];
  drawn = 0;
}

abbrev pub is_some {ℓ} : {A : Type ℓ} → Option A → Bool
is_some none = false
is_some (some a) = true

abbrev to_client : Option ℕ → Bytes → List (ℕ × Bytes)
to_client none message = []
to_client (some client) message = (client, message) ∷ []

unfoldable pub send_host : Bytes → Match → Match
send_host message m = record m { sent = m.sent ++ to_client m.host_client message }

unfoldable pub send_guest : Bytes → Match → Match
send_guest message m = record m { sent = m.sent ++ to_client m.guest_client message }

unfoldable pub send_both : Bytes → Match → Match
unfolding send_host send_guest
send_both message m = send_guest message (send_host message m)

unfoldable pub send_spectators : Bytes → Match → Match
send_spectators message m = record m { sent = m.sent ++ map (λ s. (s, message)) m.spectators }

unfoldable pub send_all : Bytes → Match → Match
unfolding send_both send_spectators
send_all message m = send_spectators message (send_both message m)

unfoldable pub is_active : Match → Bool
is_active m = is_some m.host_client || is_some m.guest_client

unfoldable pub is_ready : Match → Bool
is_ready m = is_some m.host_client && is_some m.guest_client

abbrev pub is_client : ℕ → Option ℕ → Bool
is_client client none = false
is_client client (some other) = other == client

unfoldable pub has_client : ℕ → Match → Bool
has_client client m = is_client client m.host_client || is_client client m.guest_client

-- `getPlayer`; `none` is the runtime_error.
unfoldable pub get_player : ℕ → Match → Option Role
get_player client m =
    if is_client client m.host_client
    then some host
    else if is_client client m.guest_client
    then some guest
    else none

unfoldable pub current_player : Match → Role
current_player m = if color_eq m.current_turn m.host_color then host else guest

abbrev remove : Option ℕ → List ℕ → List ℕ
remove none clients = clients
remove (some client) [] = []
remove (some client) (c ∷ clients) =
    if c == client then remove (some client) clients else c ∷ remove (some client) clients

abbrev remove_all : List ℕ → List ℕ → List ℕ
remove_all [] clients = clients
remove_all (c ∷ cs) clients = remove_all cs (remove (some c) clients)

abbrev winner_message : Color → Bytes
winner_message color = codes ":Win " ++ color_name color

-- What `end` sends: to both sides, then to the spectators.
unfoldable pub announce : Option Role → Match → Match
unfolding send_host send_guest send_both send_spectators send_all
announce none m = send_all (codes ":End") m
announce (some host) m = send_spectators (winner_message m.host_color) (
    if is_some m.host_client
    then send_guest (codes ":Lose") (send_host (codes ":Win") m)
    else send_all (codes ":End") m)
announce (some guest) m = send_spectators (winner_message (other_color m.host_color)) (
    if is_some m.guest_client
    then send_guest (codes ":Win") (send_host (codes ":Lose") m)
    else send_all (codes ":End") m)

unfoldable pub broadcast : Bytes → Match → Match
broadcast message m = record m { broadcasts = m.broadcasts ++ message ∷ [] }

unfoldable pub leave_parent : Match → Match
leave_parent m = record m {
  over = true;
  listed = false;
  clients = remove_all m.spectators (remove m.host_client (remove m.guest_client m.clients));
}

-- `end`, of the winner's seat or of none.
unfoldable pub end : Option Role → Match → Match
unfolding announce leave_parent broadcast
end winner m =
    let ended = leave_parent (announce winner m) in
    if m.hidden then ended else broadcast (codes ":RemoveMatch " ++ m.match_id) ended

abbrev unseat : ℕ → Option ℕ → Option ℕ
unseat client seat = if is_client client seat then none else seat

unfoldable pub disconnect : ℕ → Match → Match
unfolding is_active end broadcast
disconnect client m =
    let left = record m {
      spectators = remove (some client) m.spectators;
      host_client = unseat client m.host_client;
      guest_client = unseat client m.guest_client;
    } in
    if not (is_active left)
    then end none left
    else if not m.hidden
    then broadcast (codes ":Match " ++ m.match_id ++ codes " open") left
    else left
