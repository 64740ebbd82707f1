-- ===== src/Rooms/Room/Game.antt =====
-- The games of a room (room.ts): a game is asked for, ends, and in between players fall, watch and play.
use sw_itch_remake.Base.{
  ℕ, ◌+◌, ◌*◌, ◌/◌, String, Bool, true, false, ◌&&◌, ◌||◌, not, Option, none, some, List, [], ◌∷◌,
  ◌==◌, ltb, if◌then◌else◌, is_some, ite, String_discrete, filter, map, length, all, any, sort_by,
}
use sw_itch_remake.Types.{ActorId, countdown, playing, post_game, PlayerRole, player, spectator}
use sw_itch_remake.Protocol.Input.{InputState, is_newer_sequence}
use sw_itch_remake.Rooms.StateMachine.{is_same}
use sw_itch_remake.Rooms.StartLock.{remaining_ms}
use sw_itch_remake.Rooms.Roster.{
  LobbyMember, is_player, clear_holds, members_in_order, get_by_player_id,
}
use sw_itch_remake.Rooms.Room.State.{
  RoomMode, match, training, ErrorCode, bad_state, spectate_denied, start_locked, result_backlog,
  server_draining, Connection, RoomStartPlayer, RoomStartSnapshot, GameStarting, spectate_changed,
  game_starting, game_ended, directory_changed, Room, emit, state_of, with_roster, go_to,
  put_member, member_of, in_snapshot,
}
use sw_itch_remake.Rooms.Room.Broadcast.{broadcast, broadcast_current_game, broadcast_lobby_state}
use sw_itch_remake.Rooms.Room.Joining.{is_connected_by, mark_eliminated_member}
use sw_itch_remake.Rooms.Room.Lobby.{host_refusal}

abbrev pub is_match : RoomMode → Bool
is_match match = true
is_match training = false

-- Whether the room must first be given the id of the next match.
abbrev pub needs_grant : Room → Bool
needs_grant r = ltb 0 r.played_games && is_match r.options.mode

abbrev pub participants : Room → List LobbyMember
participants r = filter (λ m. is_some m.connection) (members_in_order r.roster)

-- What the server says at the moment of the request: whether it is draining, whether it has room for another
-- result, and its tick.
pub record ServerState : Type 0 where
  pub draining : Bool
  pub can_start_game : Bool
  pub tick : ℕ

-- The refusals of `requestStart`, in their order.
unfoldable pub start_refusal : ℕ → ActorId → ServerState → Room → Option ErrorCode
start_refusal now requester server r = elim (host_refusal requester r) [
  | some e ↦ some e
  | none ↦
      if server.draining
      then some server_draining
      else if ltb 0 (remaining_ms now r.start_lock)
      then some start_locked
      else if ltb (length (participants r)) r.options.min_players_to_start
      then some bad_state
      else if not server.can_start_game
      then some result_backlog
      else if needs_grant r && not (is_some r.granted_match_id)
      then some result_backlog
      else none
]

-- The id of the game, and the grant that is left.
abbrev pub granted_id : Bool → Option String → Room → Room
granted_id true (some id) r = record r { match_id = id; granted_match_id = none }
granted_id true none r = r
granted_id false _ r = r

abbrev pub with_next_id : Room → Room
with_next_id r = granted_id (needs_grant r) r.granted_match_id r

abbrev pub start_player : LobbyMember → RoomStartPlayer
start_player m = record { player_id = m.player_id; loadout = some m.loadout }

unfoldable pub snapshot_of : Room → RoomStartSnapshot
snapshot_of r = record {
  room_id = r.options.id;
  match_id = r.match_id;
  map_id = r.map_id;
  mode = r.options.mode;
  players = map start_player (participants r);
}

-- `Math.ceil((countdownMs / 1000) * simulationHz)`.
abbrev pub countdown_ticks : Room → ℕ
countdown_ticks r = (r.options.timing.countdown_ms * r.options.simulation_hz + 999) / 1000

abbrev pub starting_of : ServerState → Room → GameStarting
starting_of server r = record {
  starts_at_tick = server.tick + countdown_ticks r;
  countdown_ms = r.options.timing.countdown_ms;
  map_id = r.map_id;
}

abbrev pub counting : ℕ → RoomStartSnapshot → Room → Room
counting now snapshot r = go_to countdown now (record r {
  played_games = r.played_games + 1;
  roster = clear_holds r.roster;
  start_snapshot = some snapshot;
  countdown_ends_at = some (now + r.options.timing.countdown_ms);
})

unfoldable pub start_countdown : ℕ → ServerState → Room → Room
start_countdown now server r =
    let begun = emit (directory_changed ∷ []) (counting now (snapshot_of r) r) in
    broadcast (game_starting (starting_of server r))
      (record begun { resume_starting = some (starting_of server r); resume_started = none })

unfoldable pub request_start : ℕ → ActorId → ServerState → Room → Room × Option ErrorCode
request_start now requester server r = elim (start_refusal now requester server r) [
  | some e ↦ (r, some e)
  | none ↦ (start_countdown now server (with_next_id r), none)
]

-- No number twice, and each of a player of the game.
abbrev pub contains : ℕ → List ℕ → Bool
contains n ns = any (λ k. k == n) ns

abbrev pub no_duplicates : List ℕ → Bool
no_duplicates [] = true
no_duplicates (n ∷ ns) = not (contains n ns) && no_duplicates ns

abbrev pub valid_winners : List ℕ → Room → Bool
valid_winners winner_ids r =
    no_duplicates winner_ids && all (in_snapshot r.start_snapshot) winner_ids

-- The answer of `finishGame`, which throws where the winners are not players of the game.
pub data Finish : Type 0 where
  finished not_playing bad_winners : Finish

abbrev pub ended : ℕ → Room → Room
ended now r =
    record (go_to post_game now
      (record r { post_game_ends_at = some (now + r.options.timing.post_game_ms) })) {
        resume_starting = none;
        resume_started = none;
      }

unfoldable pub finish_game : ℕ → List ℕ → Room → Room × Finish
finish_game now winner_ids r =
    if not (is_same (state_of r) playing)
    then (r, not_playing)
    else if not (valid_winners winner_ids r)
    then (r, bad_winners)
    else (
      broadcast_current_game
          (game_ended r.match_id (sort_by (λ n. n) winner_ids)
            (now + r.options.timing.post_game_ms))
          (emit (directory_changed ∷ []) (ended now r)),
      finished,
    )

unfoldable pub grant_match_id : String → Room → Room
grant_match_id match_id r =
    ite (String_discrete match_id r.match_id) r (record r { granted_match_id = some match_id })

abbrev pub revived : LobbyMember → LobbyMember
revived m = record m {
  spectator_eligible = false;
  role = player;
  in_current_game = true;
  latest_input = none;
}

-- `reviveForTraining`; the last argument is the answer of the simulation.
unfoldable pub revive_for_training : ℕ → ℕ → Bool → Room → Room × Bool
revive_for_training now player_id revive_world r =
    if is_match r.options.mode || not (is_same (state_of r) playing)
    then (r, false)
    else elim (get_by_player_id player_id r.roster) [
      | none ↦ (r, false)
      | some m ↦ if not m.spectator_eligible || not revive_world then (r, false) else (
        broadcast_lobby_state now (
            broadcast_current_game (spectate_changed player_id false)
              (with_roster (put_member (revived m) r.roster) r)),
        true,
      )
    ]

unfoldable pub mark_eliminated : ℕ → ℕ → ℕ → Room → Room × Bool
mark_eliminated now player_id by r =
    if not (is_same (state_of r) playing)
    then (r, false)
    else elim (get_by_player_id player_id r.roster) [
      | none ↦ (r, false)
      | some m ↦
          if not m.in_current_game || m.spectator_eligible
          then (r, false)
          else (mark_eliminated_member now m by r, true)
    ]

abbrev pub watching_role : Bool → PlayerRole
watching_role true = spectator
watching_role false = PlayerRole.waiting

abbrev pub same_role : PlayerRole → PlayerRole → Bool
same_role player player = true
same_role PlayerRole.waiting PlayerRole.waiting = true
same_role spectator spectator = true
same_role _ _ = false

unfoldable pub set_spectating : ℕ → ActorId → Bool → Room → Room × Option ErrorCode
set_spectating now user_id spectating r =
    if not (is_same (state_of r) playing) then (r, some bad_state) else elim (member_of user_id r) [
      | none ↦ (r, some spectate_denied)
      | some m ↦
          if not m.spectator_eligible
          then (r, some spectate_denied)
          else if same_role m.role (watching_role spectating)
          then (r, none)
          else (
            broadcast_lobby_state now (
                broadcast_current_game (spectate_changed m.player_id spectating) (
                  with_roster
                    (put_member (record m { role = watching_role spectating; latest_input = none })
                      r.roster)
                    r)),
            none,
          )
    ]

abbrev pub is_next : InputState → Option ℕ → Bool
is_next input none = true
is_next input (some last) = is_newer_sequence input.sequence last

-- Who may send input: a player of the running game, over the connection that the seat is bound to.
abbrev pub may_play : Connection → LobbyMember → Room → Bool
may_play c m r =
    is_same (state_of r) playing
    && is_connected_by c.id m
    && is_player m.role
    && not m.spectator_eligible

unfoldable pub accept_input : Connection → InputState → Room → Room × Bool
accept_input c input r = elim (member_of c.user_id r) [
  | none ↦ (r, false)
  | some m ↦
      if may_play c m r && is_next input m.last_input_sequence
      then (
        with_roster
            (put_member
              (record m { last_input_sequence = some input.sequence; latest_input = some input })
              r.roster)
            r,
        true,
      )
      else (r, false)
]

-- Whose input a tick reads.
abbrev pub gives_input : LobbyMember → Bool
gives_input m =
    is_some m.connection
    && is_player m.role
    && not m.spectator_eligible
    && is_some m.last_input_sequence

abbrev pub inputs_among : List LobbyMember → List (ℕ × InputState)
inputs_among [] = []
inputs_among (m ∷ ms) = elim m.latest_input [
  | none ↦ inputs_among ms
  | some input ↦ if gives_input m then (m.player_id, input) ∷ inputs_among ms else inputs_among ms
]

-- `resolvedInputs`: each input with its player, before `resolveInput` turns it into a direction.
unfoldable pub resolved_inputs : Room → List (ℕ × InputState)
resolved_inputs r =
    if is_same (state_of r) playing then inputs_among (members_in_order r.roster) else []
