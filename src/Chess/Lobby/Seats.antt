-- ===== src/Chess/Lobby/Seats.antt =====
-- plugins/probchess/ProbabilityChess: who sits where after a client has joined a match.
use algiz.Base.{
  ℕ, zero, suc, ◌≡◌, ◌≢◌, refl, sym, ap, subst, ◌∙◌, List, [], ◌∷◌, ◌++◌, Option, none, some, Bool,
  true, false, not, ◌&&◌, arith, if◌then◌else◌, if-both,
}
use algiz.Base.Bytes.{Bytes, codes}
use algiz.Base.Table.{update, update_self, update-other}
use algiz.Chess.Board.{Piece}
use algiz.Chess.Square.{color_name}
use algiz.Chess.Match.{
  Match, is_some, is_ready, send_all, send_both, send_host, send_guest, send_spectators,
}
use algiz.Chess.Match.Turn.{
  any_can_move, can_move, reroll, roll, roll_loop, send_board, column_message,
}
use algiz.Chess.Lobby.{
  Lobby, Result, done, threw, undefined, endless, against_machine, find_id, find_client, load,
  store, tell,
}
use algiz.Chess.Lobby.Joining.{
  take_seat, enter_match, start_match, show_match, join_found, join_match, tell_captured, tell_in,
  announce, welcome, call_turn, joined_as,
}

abbrev pub seats : Match → Option ℕ × Option ℕ
seats m = (m.host_client, m.guest_client)

-- The seats behind a join: a player takes the first free seat, a spectator none.
unfoldable pub sits : ℕ → Bool → Option ℕ × Option ℕ → Option ℕ × Option ℕ
sits client true (h, g) = (h, g)
sits client false (none, g) = (some client, g)
sits client false (some h, none) = (some h, some client)
sits client false (some h, some g) = (some h, some g)

send_all-seats : (text : Bytes) (m : Match) → seats (send_all text m) ≡ seats m
unfolding send_all send_both send_host send_guest send_spectators
send_all-seats text m = refl

take_seat-seats :
    (client : ℕ) (as_spectator : Bool) (m : Match)
    → seats (take_seat client as_spectator m) ≡ sits client as_spectator (seats m)
unfolding take_seat sits
take_seat-seats client true m = refl
take_seat-seats client false m = seated m.host_client m.guest_client
  where
    seated :
        (h g : Option ℕ)
        → ◌≡◌ {A = Option ℕ × Option ℕ}
            (seats (
              if not (is_some h)
              then record m { host_client = some client; guest_client = g }
              else if not (is_some g)
              then record m { host_client = h; guest_client = some client }
              else record m { host_client = h; guest_client = g }))
            (sits client false (h, g))
    seated none g = refl
    seated (some h) none = refl
    seated (some h) (some g) = refl

either :
    (s : Option ℕ × Option ℕ) (b : Bool) (x y : Match)
    → seats x ≡ s
    → seats y ≡ s
    → seats (if b then x else y) ≡ s
either s b x y h k = if-both (λ m. seats m ≡ s) b x y (λ _. h) (λ _. k)

announce-seats :
    (client : ℕ) (as_spectator started : Bool) (m : Match)
    → seats (announce client as_spectator started m) ≡ seats m
unfolding announce
announce-seats client as_spectator started m =
    let greeted =
      tell_in client (codes ":Joined " ++ (m.match_id ++ (codes " " ++ joined_as as_spectator m)))
        m in
    either (seats m) as_spectator _ _ (either (seats m) started _ _ refl refl)
      (either (seats m) started _ _ refl (send_all-seats (codes ":Start") greeted))

welcome-seats :
    (client : ℕ) (as_spectator : Bool) (m : Match) → seats (welcome client as_spectator m) ≡ seats m
unfolding welcome
welcome-seats client as_spectator m = either (seats m) as_spectator _ _ refl refl

call_turn-seats : (m : Match) → seats (call_turn m) ≡ seats m
unfolding call_turn
call_turn-seats m =
    either (seats m) (is_ready m) _ _
      (send_all-seats (codes ":Turn " ++ color_name m.current_turn) m) refl

send_board-seats : (m : Match) → seats (send_board m) ≡ seats m
unfolding send_board
send_board-seats m = send_all-seats _ m

enter_match-seats :
    (client : ℕ) (as_spectator started : Bool) (m : Match)
    → seats (enter_match client as_spectator started m) ≡ sits client as_spectator (seats m)
unfolding enter_match
enter_match-seats client as_spectator started m =
    let heard = announce client as_spectator started m in
    let seated = take_seat client as_spectator heard in
    send_board-seats (call_turn (welcome client as_spectator seated))
    ∙ (call_turn-seats (welcome client as_spectator seated)
        ∙ (welcome-seats client as_spectator seated
            ∙ (take_seat-seats client as_spectator heard
                ∙ ap (sits client as_spectator) (announce-seats client as_spectator started m))))

some_inj : {m n : Match} → some m ≡ some n → m ≡ n
some_inj {m} h = ap (λ o. elim o [ none ↦ m | some k ↦ k ]) h

not_none : {A : Type 0} {n : Match} → none ≡ some n → A
not_none h = absurd (ground arith)

rolled :
    (o : Option (List ℕ × ℕ)) (m n : Match)
    → elim o [
      | none ↦ none
      | some (columns, drawn) ↦ some (
          send_all
            (column_message (record m { columns = columns; drawn = drawn }))
            (record m { columns = columns; drawn = drawn }))
    ]
      ≡ some n
    → seats n ≡ seats m
rolled none m n h = not_none h
rolled (some (columns, drawn)) m n h =
    ap seats (sym (some_inj h)) ∙ send_all-seats _ (record m { columns = columns; drawn = drawn })

roll-seats : (fuel : ℕ) (rand : ℕ → ℕ) (m n : Match) → roll fuel rand m ≡ some n → seats n ≡ seats m
unfolding roll
roll-seats fuel rand m n h = rolled (roll_loop fuel rand m.column_count [] m.drawn) m n h

reroll_next :
    (rounds fuel : ℕ) (rand : ℕ → ℕ) (m k n : Match)
    → ((k n : Match) → reroll rounds fuel rand k ≡ some n → seats n ≡ seats k)
    → seats k ≡ seats m
    → (b : Bool) → elim b [ true ↦ some k | false ↦ reroll rounds fuel rand k ] ≡ some n
    → seats n ≡ seats m
reroll_next rounds fuel rand m k n ih e true h = ap seats (sym (some_inj h)) ∙ e
reroll_next rounds fuel rand m k n ih e false h = ih k n h ∙ e

reroll_first :
    (rounds fuel : ℕ) (rand : ℕ → ℕ) (m n : Match)
    → ((k n : Match) → reroll rounds fuel rand k ≡ some n → seats n ≡ seats k)
    → (o : Option Match) → o ≡ roll fuel rand m
    → elim o [
      | none ↦ none
      | some k ↦ elim (can_move k) [ true ↦ some k | false ↦ reroll rounds fuel rand k ]
    ]
      ≡ some n
    → seats n ≡ seats m
reroll_first rounds fuel rand m n ih none e h = not_none h
reroll_first rounds fuel rand m n ih (some k) e h =
    reroll_next rounds fuel rand m k n ih (roll-seats fuel rand m k (sym e)) (can_move k) h

reroll-seats :
    (rounds fuel : ℕ) (rand : ℕ → ℕ) (m n : Match)
    → reroll rounds fuel rand m ≡ some n
    → seats n ≡ seats m
unfolding reroll
reroll-seats zero fuel rand m n h = not_none h
reroll-seats (suc rounds) fuel rand m n h =
    reroll_first rounds fuel rand m n (λ k n'. reroll-seats rounds fuel rand k n')
      (roll fuel rand m) refl h

captured-seats :
    (client : ℕ) (pieces : List Piece) (m : Match) → seats (tell_captured client pieces m) ≡ seats m
unfolding tell_captured
captured-seats client [] m = refl
captured-seats client (piece ∷ pieces) m = captured-seats client pieces _

start_match-seats :
    (rounds fuel : ℕ) (rand : ℕ → ℕ) (client : ℕ) (as_spectator started : Bool) (m n : Match)
    → start_match rounds fuel rand client as_spectator started m ≡ some n
    → seats n ≡ seats m
unfolding start_match
start_match-seats rounds fuel rand client as_spectator started m n =
    if-both (λ (o : Option Match). o ≡ some n → seats n ≡ seats m) (not as_spectator && not started)
      _ _
      (λ _.
        if-both (λ (o : Option Match). o ≡ some n → seats n ≡ seats m) (any_can_move m) _ _
          (λ _ h. reroll-seats rounds fuel rand m n h) (λ _ h. not_none h))
      (λ _ h. ap seats (sym (some_inj h)) ∙ captured-seats client m.captured _)

done_inj : {l k : Lobby} → done l ≡ done k → l ≡ k
done_inj {l} h =
    ap
      (λ r. elim r [ done x ↦ x | threw x ↦ x | against_machine ↦ l | undefined ↦ l | endless ↦ l ])
      h

not_done : {A : Type 0} {k : Lobby} → endless ≡ done k → A
not_done h = absurd (ground arith)

full_sits :
    (client : ℕ) (as_spectator : Bool) (h g : Option ℕ)
    → (not as_spectator && (is_some h && is_some g)) ≡ true
    → sits client as_spectator (h, g) ≡ (h, g)
unfolding sits
full_sits client true h g e = refl
full_sits client false none g e = absurd (ground arith)
full_sits client false (some h) none e = absurd (ground arith)
full_sits client false (some h) (some g) e = refl

module _ (rounds fuel : ℕ) (rand : ℕ → ℕ) (client : ℕ) (id : Bytes) (as_spectator : Bool)
    (l : Lobby) (address : ℕ) where
  -- The match that was joined has the seats of the rule, and no other match is touched.
  abbrev pub IsJoined : Lobby → Type 0
  IsJoined k =
      (seats (k.matches address) ≡ sits client as_spectator (seats (l.matches address)))
      × ((other : ℕ) → other ≢ address → k.matches other ≡ l.matches other)

  abbrev listed_in : Lobby
  listed_in = record l { by_client = l.by_client ++ (client, address) ∷ [] }

  abbrev inside_of : Match
  inside_of = enter_match client as_spectator (l.started address) (load address listed_in)

  show-seats : (m : Match) → seats (show_match as_spectator m) ≡ seats m
  show-seats m = either (seats m) (not as_spectator && not m.hidden) _ _ refl refl

  IsJoined-found :
      (k : Lobby) (o : Option Match)
      → o ≡ start_match rounds fuel rand client as_spectator (l.started address) inside_of
      → elim o [
        | none ↦ endless
        | some m ↦ done (
            store address (show_match as_spectator m) (record listed_in {
              started = update l.started address (if as_spectator then l.started address else true);
            }))
      ]
        ≡ done k
      → IsJoined k
  unfolding store load
  IsJoined-found k none e h = not_done h
  IsJoined-found k (some m) e h = subst IsJoined (done_inj h) (
    ap seats (update_self l.matches address (show_match as_spectator m))
        ∙ (show-seats m
            ∙ (start_match-seats rounds fuel rand client as_spectator (l.started address) inside_of
                  m (sym e)
                ∙ enter_match-seats client as_spectator (l.started address)
                    (load address listed_in))),
    λ other apart. update-other l.matches address other (show_match as_spectator m) apart,
  )

  abbrev unless_full : Result
  unless_full =
      if not as_spectator && is_ready (l.matches address)
      then done (tell client (codes ":Error Match is full.") l)
      else join_found rounds fuel rand client as_spectator address l

  join_unless_full :
      find_client client l.by_client ≡ none
      → find_id id l.by_id ≡ some address
      → join_match rounds fuel rand client id as_spectator l ≡ unless_full
  unfolding join_match
  join_unless_full new found = rw (new, found, join_match) refl

  refused-IsJoined :
      (k : Lobby)
      → (not as_spectator && is_ready (l.matches address)) ≡ true
      → done (tell client (codes ":Error Match is full.") l) ≡ done k
      → IsJoined k
  unfolding tell is_ready
  refused-IsJoined k full h = subst IsJoined (done_inj h) (
    sym (
        full_sits client as_spectator (l.matches address).host_client
          (l.matches address).guest_client full),
    λ other apart. refl,
  )

  found-IsJoined :
      (k : Lobby) → join_found rounds fuel rand client as_spectator address l ≡ done k → IsJoined k
  unfolding join_found
  found-IsJoined k h =
      IsJoined-found k
        (start_match rounds fuel rand client as_spectator (l.started address) inside_of) refl h

  -- A client that is in no match and joins one that exists: a player takes the first free seat of that
  -- match, a spectator none, whoever sits there stays, and every other match is left as it is. This holds
  -- of each join that comes to an end, one that is refused because the match is full included.
  pub join_match-seats :
      (k : Lobby)
      → find_client client l.by_client ≡ none
      → find_id id l.by_id ≡ some address
      → join_match rounds fuel rand client id as_spectator l ≡ done k
      → IsJoined k
  join_match-seats k new found h =
      if-both (λ (r : Result). r ≡ done k → IsJoined k)
        (not as_spectator && is_ready (l.matches address)) _ _ (refused-IsJoined k)
        (λ _. found-IsJoined k) (sym (join_unless_full new found) ∙ h)
