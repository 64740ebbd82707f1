-- ===== src/Rooms/Roster.antt =====
-- `LobbyRoster` of server-game/src/rooms/lobby-state.ts: who sits where in a room, who holds a seat that
-- is not yet taken, and who is the host. A connection is its number.
pub mod Seats
pub mod Invariant
pub mod Holding
pub mod Leaving
pub mod Moving
pub mod Histories
pub mod Laws
use sw_itch_remake.Base.{
  ℕ, zero, suc, ◌+◌, ◌-◌, max, min, String, Bool, true, false, ◌&&◌, ◌||◌, not, Option, none, some,
  List, [], ◌∷◌, ltb, leb, ◌==◌, if◌then◌else◌, length, count, find, any, map, filter, sort_by,
  is_some, get_or, ite,
}
use sw_itch_remake.Base.Maps.{get, set, delete}
use sw_itch_remake.Types.{ActorId, ActorId-discrete, LobbyStats, PlayerRole, player, is_guest}
use sw_itch_remake.Protocol.Skills.{SkillId, dash}
use sw_itch_remake.Protocol.Input.{InputState}
use sw_itch_remake.Gateway.Tickets.{SeatReservation}

abbrev pub max_players_per_room : ℕ
max_players_per_room = 8

pub record SeatHold : Type 0 where
  pub reservation : SeatReservation
  pub player_id : ℕ
  pub slot : ℕ

pub data PlayerControl : Type 0 where
  keyboard touch gamepad : PlayerControl

pub record LobbyMember : Type 0 where
  pub user_id : ActorId
  pub player_id : ℕ
  pub slot : ℕ
  pub nickname : String
  pub guest : Bool
  pub stats : Option LobbyStats
  pub loadout : SkillId
  pub control : Option PlayerControl
  pub joined_order : ℕ
  pub color_index : ℕ
  pub role : PlayerRole
  pub spectator_eligible : Bool
  pub in_current_game : Bool
  pub connection : Option ℕ
  pub admission_pending_until : Option ℕ
  pub reconnect_until : Option ℕ
  pub latest_input : Option InputState
  pub last_input_sequence : Option ℕ

pub record LobbyRoster : Type 0 where
  pub capacity : ℕ
  pub holds : List (ActorId × SeatHold)
  pub members : List (ActorId × LobbyMember)
  pub join_order : ℕ
  pub host_user_id : Option ActorId

-- The constructor; `none` where it throws.
unfoldable pub new : ℕ → Option LobbyRoster
new capacity =
    if ltb capacity 1 || ltb max_players_per_room capacity
    then none
    else some (record {
      capacity = capacity;
      holds = [];
      members = [];
      join_order = 0;
      host_user_id = none;
    })

abbrev pub size : LobbyRoster → ℕ
size r = length r.members

abbrev pub occupied_size : LobbyRoster → ℕ
occupied_size r = length r.members + length r.holds

abbrev pub get_by_user : ActorId → LobbyRoster → Option LobbyMember
get_by_user user_id r = get ActorId-discrete user_id r.members

abbrev pub held_seat : ActorId → LobbyRoster → Option SeatHold
held_seat user_id r = get ActorId-discrete user_id r.holds

abbrev pub values : List (ActorId × LobbyMember) → List LobbyMember
values [] = []
values ((u, m) ∷ ms) = m ∷ values ms

-- `members()`, in the order of joining.
unfoldable pub members_in_order : LobbyRoster → List LobbyMember
members_in_order r = sort_by (λ m. m.joined_order) (values r.members)

unfoldable pub get_by_player_id : ℕ → LobbyRoster → Option LobbyMember
unfolding members_in_order
get_by_player_id player_id r = find (λ m. m.player_id == player_id) (members_in_order r)

abbrev pub host_id : LobbyRoster → Option ℕ
host_id r = elim r.host_user_id [
  | none ↦ none
  | some host ↦ elim (get_by_user host r) [ none ↦ none | some m ↦ some m.player_id ]
]

unfoldable pub has_user : ActorId → LobbyRoster → Bool
has_user user_id r = is_some (get_by_user user_id r) || is_some (held_seat user_id r)

-- `userId === exceptUserId`, false where no user is excepted.
abbrev pub is_excepted : ActorId → Option ActorId → Bool
is_excepted u none = false
is_excepted u (some e) = ite (ActorId-discrete u e) true false

abbrev pub hold_at : ℕ → Option ActorId → ActorId × SeatHold → Bool
hold_at slot except (u, h) = not (is_excepted h.reservation.user_id except) && h.slot == slot

abbrev pub member_at : ℕ → Option ActorId → ActorId × LobbyMember → Bool
member_at slot except (u, m) = not (is_excepted m.user_id except) && m.slot == slot

unfoldable pub slot_occupied : ℕ → Option ActorId → LobbyRoster → Bool
slot_occupied slot except r =
    any (hold_at slot except) r.holds || any (member_at slot except) r.members

-- The loop of `#firstFreeSeat` over the seats left, from the given one on.
unfoldable pub free_seat_from : ℕ → ℕ → (ℕ → Bool) → LobbyRoster → Option ℕ
unfolding slot_occupied
free_seat_from zero seat blocked r = none
free_seat_from (suc left) seat blocked r =
    let rest = free_seat_from left (seat + 1) blocked r in
    if not (blocked seat) && not (slot_occupied seat none r) then some seat else rest

unfoldable pub first_free_seat : (ℕ → Bool) → LobbyRoster → Option ℕ
unfolding free_seat_from
first_free_seat blocked r = free_seat_from (min r.capacity max_players_per_room) 1 blocked r

pub data HoldResult : Type 0 where
  held : ℕ → HoldResult
  duplicate full : HoldResult

unfoldable pub put_hold : SeatReservation → ℕ → LobbyRoster → LobbyRoster
put_hold reservation seat r = record r {
  holds =
      set ActorId-discrete reservation.user_id
        (record { reservation = reservation; player_id = seat; slot = seat }) r.holds;
}

unfoldable pub hold : SeatReservation → (ℕ → Bool) → LobbyRoster → LobbyRoster × HoldResult
unfolding has_user first_free_seat put_hold
hold reservation blocked r =
    if has_user reservation.user_id r then (r, duplicate) else elim (first_free_seat blocked r) [
      | none ↦ (r, full)
      | some seat ↦ (put_hold reservation seat r, held seat)
    ]

abbrev pub is_player : PlayerRole → Bool
is_player player = true
is_player _ = false

abbrev pub claimed_member : ActorId → SeatHold → PlayerRole → ℕ → LobbyMember
claimed_member user_id h role joined_order = record {
  user_id = user_id;
  player_id = h.player_id;
  slot = h.slot;
  nickname = h.reservation.nickname;
  guest = is_guest user_id;
  stats = h.reservation.lobby_stats;
  loadout = dash;
  control = none;
  joined_order = joined_order;
  color_index = h.player_id - 1;
  role = role;
  spectator_eligible = false;
  in_current_game = is_player role;
  connection = none;
  admission_pending_until = some h.reservation.expires_at;
  reconnect_until = none;
  latest_input = none;
  last_input_sequence = none;
}

-- `a ?? b` on the host.
abbrev pub host_or : Option ActorId → ActorId → Option ActorId
host_or none u = some u
host_or (some h) u = some h

abbrev pub drop_hold : ActorId → LobbyRoster → LobbyRoster
drop_hold user_id r = record r { holds = delete ActorId-discrete user_id r.holds }

unfoldable pub seat_claimed : ActorId → SeatHold → PlayerRole → LobbyRoster → LobbyRoster
seat_claimed user_id h role r = record r {
  holds = delete ActorId-discrete user_id r.holds;
  members = set ActorId-discrete user_id (claimed_member user_id h role r.join_order) r.members;
  join_order = r.join_order + 1;
  host_user_id = host_or r.host_user_id user_id;
}

unfoldable pub claim : ActorId → ℕ → PlayerRole → LobbyRoster → LobbyRoster × Option LobbyMember
unfolding seat_claimed
claim user_id now role r = elim (held_seat user_id r) [
  | none ↦ (r, none)
  | some h ↦
      if leb h.reservation.expires_at now
      then (drop_hold user_id r, none)
      else (seat_claimed user_id h role r, some (claimed_member user_id h role r.join_order))
]

pub record AdoptedRoomMember : Type 0 where
  pub user_id : ActorId
  pub player_id : ℕ
  pub slot : ℕ
  pub nickname : String
  pub guest : Bool
  pub stats : Option LobbyStats
  pub loadout : SkillId
  pub joined_order : ℕ
  pub color_index : ℕ
  pub is_host : Bool

abbrev pub adopted_member : AdoptedRoomMember → ℕ → LobbyMember
adopted_member m reconnect_until = record {
  user_id = m.user_id;
  player_id = m.player_id;
  slot = m.slot;
  nickname = m.nickname;
  guest = m.guest;
  stats = m.stats;
  loadout = m.loadout;
  control = none;
  joined_order = m.joined_order;
  color_index = m.color_index;
  role = player;
  spectator_eligible = false;
  in_current_game = false;
  connection = none;
  admission_pending_until = none;
  reconnect_until = some reconnect_until;
  latest_input = none;
  last_input_sequence = none;
}

unfoldable pub adopt : AdoptedRoomMember → ℕ → LobbyRoster → LobbyRoster
adopt m reconnect_until r = record r {
  members = set ActorId-discrete m.user_id (adopted_member m reconnect_until) r.members;
  join_order = max r.join_order (m.joined_order + 1);
  host_user_id = if m.is_host then some m.user_id else r.host_user_id;
}

unfoldable pub release_hold : ActorId → LobbyRoster → LobbyRoster × Bool
release_hold user_id r = (drop_hold user_id r, is_some (held_seat user_id r))

unfoldable pub clear_holds : LobbyRoster → LobbyRoster
clear_holds r = record r { holds = [] }

abbrev pub is_live_hold : ℕ → ActorId × SeatHold → Bool
is_live_hold now (u, h) = ltb now h.reservation.expires_at

unfoldable pub purge_expired_holds : ℕ → LobbyRoster → LobbyRoster × ℕ
purge_expired_holds now r =
    let kept = filter (is_live_hold now) r.holds in
    (record r { holds = kept }, length r.holds - length kept)

-- `members()[0]?.userId ?? null`.
abbrev pub first_user : List LobbyMember → Option ActorId
first_user [] = none
first_user (m ∷ ms) = some m.user_id

abbrev pub is_host : ActorId → LobbyRoster → Bool
is_host user_id r = is_excepted user_id r.host_user_id

unfoldable pub without : ActorId → LobbyRoster → LobbyRoster
unfolding members_in_order
without user_id r =
    let rest = record r { members = delete ActorId-discrete user_id r.members } in
    if is_host user_id r
    then record rest { host_user_id = first_user (members_in_order rest) }
    else rest

pub record Removed : Type 0 where
  pub member : LobbyMember
  pub host_changed : Bool

unfoldable pub remove : ActorId → LobbyRoster → LobbyRoster × Option Removed
unfolding without
remove user_id r = elim (get_by_user user_id r) [
  | none ↦ (r, none)
  | some m ↦ (without user_id r, some (record { member = m; host_changed = is_host user_id r }))
]

unfoldable pub pass_host : ActorId → ℕ → LobbyRoster → LobbyRoster × Bool
unfolding get_by_player_id
pass_host requester player_id r =
    if not (is_host requester r) then (r, false) else elim (get_by_player_id player_id r) [
      | none ↦ (r, false)
      | some target ↦ (record r { host_user_id = some target.user_id }, true)
    ]

pub data MoveSlotResult : Type 0 where
  moved not_found out_of_range occupied : MoveSlotResult

abbrev pub reseated : ℕ → LobbyMember → LobbyMember
reseated target m = record m { slot = target; player_id = target; color_index = target - 1 }

unfoldable pub put_slot : ActorId → ℕ → LobbyMember → LobbyRoster → LobbyRoster
put_slot user_id target m r = record r {
  members = set ActorId-discrete user_id (reseated target m) r.members;
}

unfoldable pub move_slot : ActorId → ℕ → LobbyRoster → LobbyRoster × MoveSlotResult
unfolding slot_occupied put_slot
move_slot user_id target r = elim (get_by_user user_id r) [
  | none ↦ (r, not_found)
  | some m ↦
      if ltb target 1 || ltb r.capacity target
      then (r, out_of_range)
      else if slot_occupied target (some user_id) r
      then (r, occupied)
      else (put_slot user_id target m r, moved)
]
