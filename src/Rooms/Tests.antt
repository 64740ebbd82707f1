-- ===== src/Rooms/Tests.antt =====
-- Runs and instances of server-game/src/rooms.
use sw_itch_remake.Base.{
  ℕ, ◌≤◌, ◌≡◌, refl, ◌⊎◌, Bool, true, false, none, some, List, [], ◌∷◌, arith, max,
}
use sw_itch_remake.Base.Maps.{get, set, delete}
use sw_itch_remake.Types.{ActorId, ActorId-discrete, account, allocating, waiting, player}
use sw_itch_remake.Gateway.Tickets.{SeatReservation}
use sw_itch_remake.Rooms.StateMachine
use sw_itch_remake.Rooms.StateMachine.{
  ◌⟶◌, transition, transition_exact, entries, games_need_countdowns,
}
use sw_itch_remake.Rooms.StartLock
use sw_itch_remake.Rooms.StartLock.{joins, changes_map, remaining_ms}
use sw_itch_remake.Rooms.StartLock.Laws
use sw_itch_remake.Rooms.StartLock.Laws.{recent, log, last_time, budget_kept, remaining_bounded}
use sw_itch_remake.Rooms.Roster
use sw_itch_remake.Rooms.Roster.{
  LobbyRoster, LobbyMember, SeatHold, HoldResult, held, full, hold, claim, values, occupied_size,
  without, is_host, slot_occupied, free_seat_from, first_free_seat, has_user, put_hold,
  claimed_member, seat_claimed, AdoptedRoomMember, adopt,
}
use sw_itch_remake.Protocol.Skills.{dash}
use sw_itch_remake.Rooms.Roster.Moving.{Arrives}
use sw_itch_remake.Rooms.Roster.Invariant.{Inv, new-Inv}
use sw_itch_remake.Rooms.Roster.Histories.{
  Call, adopts, holds, claims, step, run, occupied_size-le_capacity, run-distinct_numbers,
}

transition_exact_example :
    ((allocating ⟶ waiting)
      × (transition (StateMachine.new 3) waiting 9
          ≡ (record { state = waiting; entered_at = 9 }, true)))
    ⊎ ((¬ (allocating ⟶ waiting))
        × (transition (StateMachine.new 3) waiting 9 ≡ (StateMachine.new 3, false)))
unfolding StateMachine.new
transition_exact_example = transition_exact (StateMachine.new 3) waiting 9

abbrev arrivals : List (ℕ × StartLock.Call)
arrivals = (10, joins) ∷ (20, joins) ∷ (30, changes_map) ∷ (40, joins) ∷ (50, joins) ∷ []

budget_kept_example :
    recent 60_000 (last_time 0 arrivals) (log (StartLock.new 5_000 15_000 60_000 10_000) arrivals)
    ≤ 15_000
budget_kept_example = budget_kept 5_000 15_000 60_000 10_000 arrivals (omega arith)

remaining_bounded_example :
    remaining_ms
      (last_time 0 arrivals)
      (Laws.run (StartLock.new 5_000 15_000 60_000 10_000) arrivals)
    ≤ max 5_000 10_000
remaining_bounded_example = remaining_bounded 5_000 15_000 60_000 10_000 arrivals (omega arith)

abbrev seat_for : ActorId → SeatReservation
seat_for u = record {
  user_id = u;
  nickname = "nick";
  lobby_stats = none;
  room_id = "r";
  server_id = "s";
  issued_at = 0;
  expires_at = 900;
  resume = false;
}

abbrev empty_room : LobbyRoster
empty_room = record { capacity = 2; holds = []; members = []; join_order = 0; host_user_id = none }

empty_room-new : Roster.new 2 ≡ some empty_room
unfolding Roster.new
empty_room-new = refl

abbrev none_blocked : ℕ → Bool
none_blocked seat = false

abbrev held_room : LobbyRoster
held_room = record empty_room {
  holds = (account 1, record { reservation = seat_for (account 1); player_id = 1; slot = 1 }) ∷ [];
}

held_room-hold : hold (seat_for (account 1)) none_blocked empty_room ≡ (held_room, held 1)
unfolding hold has_user first_free_seat free_seat_from slot_occupied put_hold get set
held_room-hold = refl

empty_room-Inv : Inv empty_room
empty_room-Inv = new-Inv 2 empty_room empty_room-new

occupied_size-le_capacity_example : occupied_size empty_room ≤ 2
occupied_size-le_capacity_example = occupied_size-le_capacity empty_room empty_room-Inv

-- A room of no seats is full at once; one of one seat, once the seat is held.
abbrev one_seat : LobbyRoster
one_seat = record held_room { capacity = 1 }

one_seat-full : (hold (seat_for (account 2)) none_blocked one_seat).1 ≡ full
unfolding hold has_user first_free_seat free_seat_from slot_occupied get
one_seat-full = ground arith

-- One comes with the room from another server, another one joins.
abbrev newcomer : AdoptedRoomMember
newcomer = record {
  user_id = account 2;
  player_id = 2;
  slot = 2;
  nickname = "bo";
  guest = false;
  stats = none;
  loadout = dash;
  joined_order = 4;
  color_index = 1;
  is_host = true;
}

newcomer-Arrives : Arrives newcomer empty_room
unfolding has_user slot_occupied get
newcomer-Arrives = record {
  unknown = refl;
  numbered = refl;
  coloured = omega arith;
  low = omega arith;
  high = omega arith;
  free = refl;
}

abbrev visit : List Call
visit =
    adopts newcomer 9000
    ∷ holds (seat_for (account 1)) none_blocked
    ∷ claims (account 1) 100 player
    ∷ []

abbrev visitor : LobbyMember
visitor =
    claimed_member (account 1)
      (record { reservation = seat_for (account 1); player_id = 1; slot = 1 }) player 5

visitor-found : get ActorId-discrete (account 1) (run empty_room visit).members ≡ some visitor
unfolding run step hold has_user first_free_seat free_seat_from slot_occupied put_hold claim
    seat_claimed get set delete adopt
visitor-found = ground arith

run-distinct_numbers_example :
    (account 1 ≡ account 1)
    × (visitor.player_id ≡ visitor.slot)
    × (1 ≤ visitor.slot)
    × (visitor.slot ≤ 2)
run-distinct_numbers_example =
    run-distinct_numbers 2 empty_room visit (account 1) (account 1) visitor visitor empty_room-new
      (newcomer-Arrives, (tt, (tt, tt))) visitor-found visitor-found refl
