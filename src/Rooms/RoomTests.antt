-- ===== src/Rooms/RoomTests.antt =====
-- Runs of a room (room.ts), and instances of what holds of it.
use sw_itch_remake.Base.{
  ℕ, ◌+◌, ◌⊎◌, ◌≡◌, refl, Bool, true, false, none, some, List, [], ◌∷◌, ℕ_discrete, String_discrete,
  All,
}
use sw_itch_remake.Types.{account, guest, ActorId-discrete, countdown, playing, player}
use sw_itch_remake.Base.Maps.{get, set, delete}
use sw_itch_remake.Gateway.Tickets.{SeatReservation}
use sw_itch_remake.Rooms.StateMachine
use sw_itch_remake.Rooms.StateMachine.{transition}
use sw_itch_remake.Rooms.StartLock
use sw_itch_remake.Rooms.StartLock.{apply_join, prune, used, remaining_ms}
use sw_itch_remake.Rooms.Roster
use sw_itch_remake.Rooms.Roster.{
  AdoptedRoomMember, LobbyMember, hold, claim, seat_claimed, has_user, first_free_seat,
  free_seat_from, put_hold, members_in_order, purge_expired_holds, clear_holds, size,
  get_by_player_id,
}
use sw_itch_remake.Rooms.Room.State.{
  Room, RoomOptions, Connection, go_to, emit, with_roster, projection, owner_name, same_projection,
  state_of, member_of, match, is_kicked, in_snapshot,
}
use sw_itch_remake.Rooms.Room.Broadcast.{
  broadcast, broadcast_current_game, broadcast_lobby_state, sends, snapshot_access, filtered,
  unfiltered,
}
use sw_itch_remake.Rooms.Room.Advance.{
  advance, advance_open, expire_users, expire_user, expire_member, begin_game, begin_with,
  return_to_lobby, close_if_deserted,
}
use sw_itch_remake.Rooms.Room.Joining.{admit_reservation, admit_open, admit_fresh, bind_connection}
use sw_itch_remake.Rooms.Room.Game.{
  ServerState, request_start, start_refusal, start_countdown, snapshot_of, accept_input,
  resolved_inputs,
}
use sw_itch_remake.Rooms.Room.HandOff.{new, room_with, cancel_hand_off}
use sw_itch_remake.Rooms.Room.Lobby.{force_kick}
use sw_itch_remake.Rooms.Room.Calls.{
  adopts, closes, leaves, Call, admits, binds, advances, starts, expels, plays, step, run,
  AllProper, reserves,
}
use sw_itch_remake.Rooms.Room.Histories.{run-kicked_stay_away}
use sw_itch_remake.Rooms.Room.Histories.Games.{run-line_up, run-inputs_of_players, run-access}
use sw_itch_remake.Rooms.Room.Histories.Liveness.{Ended, run-countdown_ends}
use sw_itch_remake.Protocol.Input.{InputState, is_newer_sequence, compare_sequence}
use sw_itch_remake.Protocol.Skills.{dash}

abbrev owner_seat : SeatReservation
owner_seat = record {
  user_id = account 7;
  nickname = "ann";
  lobby_stats = none;
  room_id = "r1";
  server_id = "s1";
  issued_at = 0;
  expires_at = 15000;
  resume = false;
}

abbrev options : RoomOptions
options = record {
  id = "r1";
  room_code = "ABCD";
  match_id = "m1";
  name = "ann's room";
  password = none;
  mode = match;
  capacity = 4;
  map_id = "yard";
  owner_reservation = some owner_seat;
  adopted = none;
  played_games = 0;
  granted_match_id = none;
  locked = false;
  min_players_to_start = 1;
  simulation_hz = 60;
  timing = record {
    countdown_ms = 5000;
    post_game_ms = 10000;
    reconnect_grace_ms = 5000;
    start_lock_on_join_ms = 3000;
    start_lock_on_map_change_ms = 3000;
    start_lock_join_budget_ms = 6000;
    start_lock_join_budget_window_ms = 30000;
  };
  is_known_map = λ map_id mode. true;
  start_game = λ s. record { start_tick = 300; tagger_id = 1 };
  digest = λ s. s;
}

abbrev pub empty_roster : Roster.LobbyRoster
empty_roster = record {
  capacity = 4;
  holds = [];
  members = [];
  join_order = 0;
  host_user_id = none;
}

abbrev pub first_room : Room
first_room = room_with 0 options (put_hold owner_seat 1 empty_roster)

made : new 0 options ≡ some first_room
unfolding new Roster.new hold has_user first_free_seat String_discrete get
made = refl

abbrev owner_line : Connection
owner_line = record { id = 31; user_id = account 7; player_id = 1; resume = false }

abbrev server : ServerState
server = record { draining = false; can_start_game = true; tick = 1000 }

-- Ann comes into her room, is connected, and starts a game on her own.
abbrev to_countdown : List (ℕ × Call)
to_countdown =
    (100, admits owner_seat) ∷ (200, binds owner_line) ∷ (4000, starts (account 7) server) ∷ []

counting :
    (state_of (run first_room to_countdown) ≡ countdown)
    × ((run first_room to_countdown).countdown_ends_at ≡ some 9000)
    × ((run first_room to_countdown).handing_off ≡ false)
    × (size (advance 9000 (run first_room to_countdown)).roster ≡ 1)
unfolding run step request_start start_refusal start_countdown snapshot_of bind_connection
    admit_reservation admit_open admit_fresh advance advance_open expire_users expire_user
    expire_member begin_game begin_with return_to_lobby close_if_deserted force_kick accept_input
    same_projection projection owner_name go_to emit with_roster broadcast broadcast_current_game
    broadcast_lobby_state sends StateMachine.new StartLock.new transition apply_join prune used
    remaining_ms members_in_order purge_expired_holds clear_holds get_by_player_id claim
    seat_claimed put_hold get set delete is_newer_sequence compare_sequence ActorId-discrete
    String_discrete ℕ_discrete
counting = (refl, refl, refl, refl)

-- Then the countdown ends, somebody else is kicked, and she moves.
abbrev to_game : List (ℕ × Call)
to_game =
    (100, admits owner_seat)
    ∷ (200, binds owner_line)
    ∷ (4000, starts (account 7) server)
    ∷ (9000, advances)
    ∷ (9100, expels (guest "eve") "reported")
    ∷ (
      9200,
      plays owner_line (record {
        sequence = 1;
        left = true;
        right = false;
        up = false;
        down = false;
        held_actions = 0;
      }),
    )
    ∷ []

abbrev pub ann : LobbyMember
ann = record {
  user_id = account 7;
  player_id = 1;
  slot = 1;
  nickname = "ann";
  guest = false;
  stats = none;
  loadout = dash;
  control = none;
  joined_order = 0;
  color_index = 0;
  role = player;
  spectator_eligible = false;
  in_current_game = true;
  connection = some 31;
  admission_pending_until = none;
  reconnect_until = none;
  latest_input = some (record {
    sequence = 1;
    left = true;
    right = false;
    up = false;
    down = false;
    held_actions = 0;
  });
  last_input_sequence = some 1;
}

abbrev end_room : Room
end_room = run first_room to_game

in_game :
    (state_of end_room ≡ playing)
    × (member_of (account 7) end_room ≡ some ann)
    × (is_kicked (guest "eve") end_room ≡ true)
unfolding run step request_start start_refusal start_countdown snapshot_of bind_connection
    admit_reservation admit_open admit_fresh advance advance_open expire_users expire_user
    expire_member begin_game begin_with return_to_lobby close_if_deserted force_kick accept_input
    same_projection projection owner_name go_to emit with_roster broadcast broadcast_current_game
    broadcast_lobby_state sends StateMachine.new StartLock.new transition apply_join prune used
    remaining_ms members_in_order purge_expired_holds clear_holds get_by_player_id claim
    seat_claimed put_hold get set delete is_newer_sequence compare_sequence ActorId-discrete
    String_discrete ℕ_discrete
in_game = (refl, refl, refl)

to_game-AllProper : AllProper first_room to_game
to_game-AllProper = (tt, (tt, (tt, (tt, (tt, (tt, tt))))))

-- A room that comes from another server with one member, and is let go of after it has closed.
abbrev bo : AdoptedRoomMember
bo = record {
  user_id = account 2;
  player_id = 2;
  slot = 2;
  nickname = "bo";
  guest = false;
  stats = none;
  loadout = dash;
  joined_order = 4;
  color_index = 1;
  is_host = true;
}

abbrev moved_options : RoomOptions
moved_options = record options { owner_reservation = none; adopted = some (bo ∷ []) }

abbrev moved_room : Room
moved_room = room_with 0 moved_options empty_roster

abbrev let_go_twice : List (ℕ × Call)
let_go_twice = (10, adopts (bo ∷ [])) ∷ (20, closes) ∷ (30, leaves) ∷ []

-- The same, cut where somebody is thrown out.
abbrev before_report : List (ℕ × Call)
before_report =
    (100, admits owner_seat)
    ∷ (200, binds owner_line)
    ∷ (4000, starts (account 7) server)
    ∷ (9000, advances)
    ∷ []

abbrev report : ℕ × Call
report = (9100, expels (guest "eve") "reported")

abbrev after_report : List (ℕ × Call)
after_report =
    (9150, reserves (record owner_seat { user_id = guest "eve" }) none) ∷ (9200, advances) ∷ []

run-kicked_stay_away_example :
    has_user (guest "eve") (run (step (run first_room before_report) report) after_report).roster
    ≡ false
run-kicked_stay_away_example =
    run-kicked_stay_away 0 options first_room made before_report (tt, (tt, (tt, (tt, tt)))) report
      (guest "eve") after_report refl tt (tt, (tt, tt))

run-line_up_example :
    (true ≡ in_snapshot end_room.start_snapshot 1)
    × (ann.player_id ≡ ann.player_id → account 7 ≡ account 7)
run-line_up_example =
    run-line_up 0 options first_room made to_game to_game-AllProper (account 7) (account 7) ann ann
      in_game.0 in_game.1 in_game.1

run-inputs_of_players_example :
    All
      (λ (p : ℕ × InputState). in_snapshot end_room.start_snapshot p.0 ≡ true)
      (resolved_inputs end_room)
run-inputs_of_players_example =
    run-inputs_of_players 0 options first_room made to_game to_game-AllProper

run-access_example :
    (snapshot_access (account 7) end_room ≡ unfiltered
      → (in_snapshot end_room.start_snapshot 1 ≡ true) × (false ≡ true))
    × (snapshot_access (account 7) end_room ≡ filtered
        → (in_snapshot end_room.start_snapshot 1 ≡ true) × (◌≡◌ {A = Bool} false false))
run-access_example =
    run-access 0 options first_room made to_game to_game-AllProper (account 7) ann in_game.1

abbrev counting_room : Room
counting_room = run first_room to_countdown

run-countdown_ends_example :
    (ends : ℕ) × (counting_room.countdown_ends_at ≡ some ends)
    × ((counting_room.handing_off ≡ true) ⊎ Ended (advance (ends + 20) counting_room))
    × Ended (advance (ends + 20) (cancel_hand_off counting_room))
run-countdown_ends_example =
    run-countdown_ends 0 options first_room to_countdown 20 made (tt, (tt, (tt, tt))) counting.0
