-- ===== src/Rooms/Room/State.antt =====
-- The state of `Room` (server-game/src/rooms/room.ts), the messages it sends, and what else it does to the
-- outside. Sockets, the simulation and the directory are seen through the list of these effects, oldest first.
-- The tables of rules, the HUD's numbers and the start positions, which a room only passes on, are left out.
use sw_itch_remake.Base.{
  ℕ, String, Bool, true, false, ◌&&◌, not, Option, none, some, List, [], ◌∷◌, ◌++◌, ◌==◌,
  if◌then◌else◌, any, is_some, ite, not, ◌&&◌, String_discrete,
}
use sw_itch_remake.Base.Maps.{set}
use sw_itch_remake.Types.{ActorId, ActorId-discrete, LobbyStats, RoomState, PlayerRole}
use sw_itch_remake.Protocol.Skills.{SkillId, SkillRejection}
use sw_itch_remake.Gateway.Tickets.{SeatReservation}
use sw_itch_remake.Rooms.StateMachine.{RoomStateMachine, transition, is_same}
use sw_itch_remake.Rooms.StartLock.{StartLock}
use sw_itch_remake.Rooms.Roster.{
  LobbyMember, LobbyRoster, AdoptedRoomMember, PlayerControl, get_by_user, get_by_player_id,
  host_id, is_excepted, occupied_size,
}

pub data RoomMode : Type 0 where
  match training : RoomMode

-- `ControlErrorCode` (shared/src/control/commands.ts).
pub data ControlErrorCode : Type 0 where
  server_draining server_full invalid_map room_not_found room_full room_locked : ControlErrorCode
  bad_password already_in_room kicked_from_room rejoin_cooldown no_grace_slot : ControlErrorCode
  expired internal : ControlErrorCode

-- `ErrorCode` (shared/src/protocol/events.ts).
pub data ErrorCode : Type 0 where
  auth_failed auth_timeout protocol_mismatch not_host bad_state invalid_payload : ErrorCode
  rate_limited room_closed kicked spectate_denied start_locked result_backlog : ErrorCode
  server_draining server_shutdown internal : ErrorCode

-- `CloseCode`.
pub data CloseCode : Type 0 where
  normal policy_violation message_too_big try_again_later : CloseCode

-- The part of a `Connection` that a room reads (server-game/src/transport/game-transport.ts).
pub record Connection : Type 0 where
  pub id : ℕ
  pub user_id : ActorId
  pub player_id : ℕ
  pub resume : Bool

pub record RoomStartPlayer : Type 0 where
  pub player_id : ℕ
  pub loadout : Option SkillId

pub record RoomStartSnapshot : Type 0 where
  pub room_id : String
  pub match_id : String
  pub map_id : String
  pub mode : RoomMode
  pub players : List RoomStartPlayer

pub record GameStartInfo : Type 0 where
  pub start_tick : ℕ
  pub tagger_id : ℕ

pub record GameStarting : Type 0 where
  pub starts_at_tick : ℕ
  pub countdown_ms : ℕ
  pub map_id : String

pub record RoomTiming : Type 0 where
  pub countdown_ms : ℕ
  pub post_game_ms : ℕ
  pub reconnect_grace_ms : ℕ
  pub start_lock_on_join_ms : ℕ
  pub start_lock_on_map_change_ms : ℕ
  pub start_lock_join_budget_ms : ℕ
  pub start_lock_join_budget_window_ms : ℕ

-- What a room is made with. `digest` is SHA-256, and `start_game` the answer of the simulation.
pub record RoomOptions : Type 0 where
  pub id : String
  pub room_code : String
  pub match_id : String
  pub name : String
  pub password : Option String
  pub mode : RoomMode
  pub capacity : ℕ
  pub map_id : String
  pub owner_reservation : Option SeatReservation
  pub adopted : Option (List AdoptedRoomMember)
  pub played_games : ℕ
  pub granted_match_id : Option String
  pub locked : Bool
  pub min_players_to_start : ℕ
  pub simulation_hz : ℕ
  pub timing : RoomTiming
  pub is_known_map : String → RoomMode → Bool
  pub start_game : RoomStartSnapshot → GameStartInfo
  pub digest : String → String

pub record LobbyPlayer : Type 0 where
  pub player_id : ℕ
  pub slot : ℕ
  pub nickname : String
  pub color_index : ℕ
  pub guest : Bool
  pub role : PlayerRole
  pub skills : List SkillId
  pub stats : Option LobbyStats
  pub control : Option PlayerControl

pub record LobbyView : Type 0 where
  pub self_id : ℕ
  pub host_id : ℕ
  pub room_name : String
  pub map_id : String
  pub mode : RoomMode
  pub capacity : ℕ
  pub locked : Bool
  pub start_lock_ms : ℕ
  pub room_state : RoomState
  pub players : List LobbyPlayer

-- The messages that a room sends, each with its payload.
pub data Message : Type 0 where
  lobby_state : LobbyView → Message
  host_changed : ℕ → Message
  player_left : ℕ → String → Message
  player_reconnecting : ℕ → ℕ → Message
  player_eliminated : ℕ → ℕ → Message
  player_tagged : ℕ → ℕ → Message
  spectate_changed : ℕ → Bool → Message
  skill_rejected : ℕ → SkillRejection → Message
  game_starting : GameStarting → Message
  game_started : GameStartInfo → Message
  game_ended : String → List ℕ → ℕ → Message
  error : Option ℕ → ErrorCode → Message

-- `sendJson` and `close` of a connection, the calls of the lifecycle port, and `onDirectoryChanged`.
pub data Effect : Type 0 where
  send : ℕ → Message → Effect
  hang_up : ℕ → CloseCode → Effect
  starts_game : RoomStartSnapshot → Effect
  stops_room : Effect
  connection_changed : ℕ → Bool → Effect
  participant_disconnected : ℕ → Effect
  participant_removed : ℕ → String → Effect
  directory_changed : Effect

pub record Room : Type 0 where
  pub options : RoomOptions
  pub machine : RoomStateMachine
  pub roster : LobbyRoster
  pub start_lock : StartLock
  pub kicked_users : List ActorId
  pub map_id : String
  pub match_id : String
  pub granted_match_id : Option String
  pub played_games : ℕ
  pub locked : Bool
  pub countdown_ends_at : Option ℕ
  pub post_game_ends_at : Option ℕ
  pub start_snapshot : Option RoomStartSnapshot
  pub resume_starting : Option GameStarting
  pub resume_started : Option GameStartInfo
  pub handing_off : Bool
  pub effects : List Effect
  -- An exception that the state machine or a missing snapshot raises. The source would leave the operation
  -- there; the model goes on, and marks the room.
  pub thrown : Bool

abbrev pub state_of : Room → RoomState
state_of r = r.machine.state

unfoldable pub emit : List Effect → Room → Room
emit es r = record r { effects = r.effects ++ es }

unfoldable pub with_roster : LobbyRoster → Room → Room
with_roster roster r = record r { roster = roster }

-- `this.#stateMachine.transition(next, now)`.
unfoldable pub go_to : RoomState → ℕ → Room → Room
go_to next now r =
    let t = transition r.machine next now in
    record r { machine = t.0; thrown = if t.1 then r.thrown else true }

-- An assignment to a field of the member object that the roster holds for the user.
abbrev pub put_member : LobbyMember → LobbyRoster → LobbyRoster
put_member m r = record r { members = set ActorId-discrete m.user_id m r.members }

-- An assignment in a loop over all members.
abbrev pub map_values :
    (LobbyMember → LobbyMember) → List (ActorId × LobbyMember) → List (ActorId × LobbyMember)
map_values g [] = []
map_values g ((u, m) ∷ ms) = (u, g m) ∷ map_values g ms

abbrev pub map_members : (LobbyMember → LobbyMember) → LobbyRoster → LobbyRoster
map_members g r = record r { members = map_values g r.members }

abbrev pub is_kicked : ActorId → Room → Bool
is_kicked u r = any (λ k. is_excepted k (some u)) r.kicked_users

abbrev pub member_of : ActorId → Room → Option LobbyMember
member_of u r = get_by_user u r.roster

-- `this.#startSnapshot?.players.map((player) => player.playerId) ?? []`, as a set.
abbrev pub in_snapshot : Option RoomStartSnapshot → ℕ → Bool
in_snapshot none player_id = false
in_snapshot (some s) player_id = any (λ p. p.player_id == player_id) s.players

pub record RoomProjection : Type 0 where
  pub room_id : String
  pub room_code : String
  pub match_id : String
  pub pending_match_id : Option String
  pub name : String
  pub owner_name : String
  pub map_id : String
  pub state : RoomState
  pub player_count : ℕ
  pub capacity : ℕ
  pub has_password : Bool
  pub locked : Bool
  pub mode : RoomMode

abbrev pub same_text : String → String → Bool
same_text a b = ite (String_discrete a b) true false

abbrev pub same_text? : Option String → Option String → Bool
same_text? none none = true
same_text? (some a) (some b) = same_text a b
same_text? _ _ = false

abbrev pub same_truth : Bool → Bool → Bool
same_truth true b = b
same_truth false b = not b

abbrev pub same_mode : RoomMode → RoomMode → Bool
same_mode match match = true
same_mode training training = true
same_mode _ _ = false

-- Whether two projections are equal, as `JSON.stringify` writes them.
unfoldable pub same_projection : RoomProjection → RoomProjection → Bool
same_projection p q =
    same_text p.room_id q.room_id
    && same_text p.room_code q.room_code
    && same_text p.match_id q.match_id
    && same_text? p.pending_match_id q.pending_match_id
    && same_text p.name q.name
    && same_text p.owner_name q.owner_name
    && same_text p.map_id q.map_id
    && is_same p.state q.state
    && p.player_count == q.player_count
    && p.capacity == q.capacity
    && same_truth p.has_password q.has_password
    && same_truth p.locked q.locked
    && same_mode p.mode q.mode

abbrev pub nickname_of : Option LobbyMember → String
nickname_of none = ""
nickname_of (some m) = m.nickname

unfoldable pub owner_name : Room → String
owner_name r = elim (host_id r.roster) [
  | none ↦ ""
  | some host ↦ nickname_of (get_by_player_id host r.roster)
]

unfoldable pub projection : Room → RoomProjection
projection r = record {
  room_id = r.options.id;
  room_code = r.options.room_code;
  match_id = r.match_id;
  pending_match_id = if r.played_games == 0 then some r.match_id else r.granted_match_id;
  name = r.options.name;
  owner_name = owner_name r;
  map_id = r.map_id;
  state = state_of r;
  player_count = occupied_size r.roster;
  capacity = r.roster.capacity;
  has_password = is_some r.options.password;
  locked = r.locked;
  mode = r.options.mode;
}
