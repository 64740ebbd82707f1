-- ===== src/Rooms/Room/HandOff.antt =====
-- The making of a room, and its move to another server (room.ts).
use sw_itch_remake.Base.{
  ℕ, ◌+◌, String, Bool, true, false, ◌&&◌, ◌||◌, not, Option, none, some, List, [], ◌∷◌, ◌==◌,
  if◌then◌else◌, is_some, ite, String_discrete, all, any, map, length,
}
use sw_itch_remake.Types.{allocating, waiting, closed}
use sw_itch_remake.Rooms.StateMachine.{is_same}
use sw_itch_remake.Rooms.StateMachine
use sw_itch_remake.Rooms.StartLock.{apply_join}
use sw_itch_remake.Rooms.StartLock
use sw_itch_remake.Rooms.Roster.{
  LobbyMember, LobbyRoster, AdoptedRoomMember, HoldResult, held, hold, adopt, members_in_order,
  host_id, size, occupied_size,
}
use sw_itch_remake.Rooms.Roster
use sw_itch_remake.Rooms.Room.State.{
  RoomOptions, RoomMode, try_again_later, directory_changed, Room, emit, state_of, with_roster,
  go_to, map_members,
}
use sw_itch_remake.Rooms.Room.Closing.{hang_ups}
use sw_itch_remake.Rooms.Room.Game.{is_match}

-- A room of these options, around a roster.
abbrev pub room_with : ℕ → RoomOptions → LobbyRoster → Room
room_with now options roster = record {
  options = options;
  machine = StateMachine.new now;
  roster = roster;
  start_lock =
      StartLock.new options.timing.start_lock_on_join_ms options.timing.start_lock_join_budget_ms
        options.timing.start_lock_join_budget_window_ms options.timing.start_lock_on_map_change_ms;
  kicked_users = [];
  map_id = options.map_id;
  match_id = options.match_id;
  granted_match_id = options.granted_match_id;
  played_games = options.played_games;
  locked = options.locked;
  countdown_ends_at = none;
  post_game_ends_at = none;
  start_snapshot = none;
  resume_starting = none;
  resume_started = none;
  handing_off = false;
  effects = [];
  thrown = false;
}

-- Whether the owner's reservation, if there is one, is a fresh seat for this room.
abbrev pub owner_is_fresh : RoomOptions → Bool
owner_is_fresh options = elim options.owner_reservation [
  | none ↦ true
  | some r ↦ ite (String_discrete r.room_id options.id) (not r.resume) false
]

abbrev pub owned : ℕ → RoomOptions → LobbyRoster × HoldResult → Option Room
owned now options (roster, held seat) = some (room_with now options roster)
owned now options (roster, _) = none

-- The constructor; `none` where it throws.
unfoldable pub new : ℕ → RoomOptions → Option Room
new now options =
    if not (is_some options.owner_reservation) && not (is_some options.adopted)
    then none
    else if not (owner_is_fresh options) || not (options.is_known_map options.map_id options.mode)
    then none
    else elim (Roster.new options.capacity) [
      | none ↦ none
      | some roster ↦ elim options.owner_reservation [
        | none ↦ some (room_with now options roster)
        | some reservation ↦ owned now options (hold reservation (λ n. false) roster)
      ]
    ]

unfoldable pub can_hand_off : Room → Bool
can_hand_off r =
    not r.handing_off
    && is_same (state_of r) waiting
    && (not (is_match r.options.mode) || r.played_games == 0 || is_some r.granted_match_id)
    && occupied_size r.roster == length (members_in_order r.roster)
    && all (λ m. not (is_some m.admission_pending_until)) (members_in_order r.roster)
    && any (λ m. is_some m.connection) (members_in_order r.roster)

unfoldable pub freeze_for_hand_off : Room → Room × Bool
freeze_for_hand_off r =
    if can_hand_off r then (record r { handing_off = true }, true) else (r, false)

unfoldable pub cancel_hand_off : Room → Room
cancel_hand_off r = record r { handing_off = false }

pub record AdoptRoomPayload : Type 0 where
  pub server_id : String
  pub room_id : String
  pub room_code : String
  pub match_id : String
  pub played_games : ℕ
  pub granted_match_id : Option String
  pub locked : Bool
  pub name : String
  pub password : Option String
  pub capacity : ℕ
  pub map_id : String
  pub mode : RoomMode
  pub members : List AdoptedRoomMember

abbrev pub is_number : ℕ → Option ℕ → Bool
is_number n none = false
is_number n (some h) = n == h

abbrev pub exported_member : Option ℕ → LobbyMember → AdoptedRoomMember
exported_member host m = record {
  user_id = m.user_id;
  player_id = m.player_id;
  slot = m.slot;
  nickname = m.nickname;
  guest = m.guest;
  stats = m.stats;
  loadout = m.loadout;
  joined_order = m.joined_order;
  color_index = m.color_index;
  is_host = is_number m.player_id host;
}

unfoldable pub export_for_hand_off : String → Room → AdoptRoomPayload
export_for_hand_off target_server_id r = record {
  server_id = target_server_id;
  room_id = r.options.id;
  room_code = r.options.room_code;
  match_id = r.match_id;
  played_games = r.played_games;
  granted_match_id = r.granted_match_id;
  locked = r.locked;
  name = r.options.name;
  password = r.options.password;
  capacity = r.roster.capacity;
  map_id = r.map_id;
  mode = r.options.mode;
  members = map (exported_member (host_id r.roster)) (members_in_order r.roster);
}

unfoldable pub release_after_hand_off : ℕ → Room → Room
release_after_hand_off now r = go_to closed now (
    emit (hang_ups try_again_later (members_in_order r.roster))
      (with_roster (map_members (λ m. record m { connection = none }) r.roster) r))

abbrev pub graced : ℕ → LobbyMember → LobbyMember
graced until m = if is_some m.connection then m else record m { reconnect_until = some until }

unfoldable pub refresh_hand_off_grace : ℕ → Room → Room
refresh_hand_off_grace now r =
    with_roster (map_members (graced (now + r.options.timing.reconnect_grace_ms)) r.roster) r

abbrev pub adopt_all : List AdoptedRoomMember → ℕ → LobbyRoster → LobbyRoster
adopt_all [] until roster = roster
adopt_all (m ∷ ms) until roster = adopt_all ms until (adopt m until roster)

-- `adoptMembers`: on the server that takes the room over.
unfoldable pub adopt_members : ℕ → List AdoptedRoomMember → Room → Room
adopt_members now members r =
    let roster = adopt_all members (now + r.options.timing.reconnect_grace_ms) r.roster in
    let peopled = with_roster roster r in
    let opened = if is_same (state_of r) allocating then go_to waiting now peopled else peopled in
    emit (directory_changed ∷ []) (record opened { start_lock = (apply_join now r.start_lock).0 })
