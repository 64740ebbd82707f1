-- ===== src/Rooms/Room/Broadcast.antt =====
-- Who hears what (room.ts): messages to everybody in the room, to the players of the running game, and to
-- those who see the source of an effect.
use sw_itch_remake.Base.{
  ℕ, Bool, true, false, ◌&&◌, ◌||◌, not, Option, none, some, List, [], ◌∷◌, ◌==◌, if◌then◌else◌,
  map, is_some, get_or,
}
use sw_itch_remake.Types.{ActorId, playing, closed, PlayerRole, spectator}
use sw_itch_remake.Protocol.Skills.{SkillRejection}
use sw_itch_remake.Rooms.StateMachine.{is_same}
use sw_itch_remake.Rooms.StartLock.{remaining_ms}
use sw_itch_remake.Rooms.Roster.{
  LobbyMember, members_in_order, get_by_player_id, host_id, is_player,
}
use sw_itch_remake.Rooms.Room.State.{
  Connection, LobbyPlayer, Message, lobby_state, player_tagged, skill_rejected, game_starting,
  game_started, error, ErrorCode, Effect, send, Room, emit, state_of, member_of, in_snapshot,
}

-- The message for each of the members that pass the test and are connected.
unfoldable pub sends :
    (LobbyMember → Bool) → (LobbyMember → Message) → List LobbyMember → List Effect
sends heard message [] = []
sends heard message (m ∷ ms) = elim m.connection [
  | none ↦ sends heard message ms
  | some c ↦ if heard m then send c (message m) ∷ sends heard message ms else sends heard message ms
]

-- `#broadcast`.
unfoldable pub broadcast : Message → Room → Room
broadcast message r = emit (sends (λ m. true) (λ m. message) (members_in_order r.roster)) r

-- `#broadcastCurrentGame`: only those in the locked line-up of the game.
unfoldable pub broadcast_current_game : Message → Room → Room
broadcast_current_game message r =
    emit (sends (λ m. m.in_current_game) (λ m. message) (members_in_order r.roster)) r

abbrev pub lobby_player : LobbyMember → LobbyPlayer
lobby_player m = record {
  player_id = m.player_id;
  slot = m.slot;
  nickname = m.nickname;
  color_index = m.color_index;
  guest = m.guest;
  role = m.role;
  skills = m.loadout ∷ [];
  stats = m.stats;
  control = m.control;
}

abbrev pub lobby_view : ℕ → ℕ → Room → LobbyMember → Message
lobby_view now host r m = lobby_state (record {
  self_id = m.player_id;
  host_id = host;
  room_name = r.options.name;
  map_id = r.map_id;
  mode = r.options.mode;
  capacity = r.roster.capacity;
  locked = r.locked;
  start_lock_ms = remaining_ms now r.start_lock;
  room_state = state_of r;
  players = map lobby_player (members_in_order r.roster);
})

-- `broadcastLobbyState`, also the effects that it has.
unfoldable pub lobby_effects : ℕ → Room → List Effect
lobby_effects now r = if is_same (state_of r) closed then [] else elim (host_id r.roster) [
  | none ↦ []
  | some host ↦ sends (λ m. true) (lobby_view now host r) (members_in_order r.roster)
]

unfoldable pub broadcast_lobby_state : ℕ → Room → Room
broadcast_lobby_state now r = emit (lobby_effects now r) r

-- `sendError` and `#sendError`; `retryable` is a function of the code.
unfoldable pub send_error : Connection → Option ℕ → ErrorCode → Room → Room
send_error c request_id code r = emit (send c.id (error request_id code) ∷ []) r

-- `#belongsToLockedGame`.
abbrev pub belongs_to_locked_game : LobbyMember → Room → Bool
belongs_to_locked_game m r = in_snapshot r.start_snapshot m.player_id

-- `#replayGameState`: what a connection that comes back in a game missed, in the order of the game.
unfoldable pub replay_game_state : Connection → Room → Room
replay_game_state c r = elim r.resume_starting [
  | none ↦ r
  | some starting ↦
      let shown =
        if is_same (state_of r) playing then record starting { countdown_ms = 0 } else starting in
      elim r.resume_started [
        | none ↦ emit (send c.id (game_starting shown) ∷ []) r
        | some started ↦
            emit (send c.id (game_starting shown) ∷ send c.id (game_started started) ∷ []) r
      ]
]

pub data SnapshotAccess : Type 0 where
  nothing filtered unfiltered : SnapshotAccess

abbrev pub is_spectator : PlayerRole → Bool
is_spectator spectator = true
is_spectator _ = false

-- The grade of a connected member.
abbrev pub access_of : LobbyMember → SnapshotAccess
access_of m =
    if not (is_some m.connection)
    then nothing
    else if is_spectator m.role && m.spectator_eligible
    then unfiltered
    else if is_player m.role && m.in_current_game && not m.spectator_eligible
    then filtered
    else nothing

unfoldable pub snapshot_access : ActorId → Room → SnapshotAccess
snapshot_access user_id r =
    if not (is_same (state_of r) playing)
    then nothing
    else elim (member_of user_id r) [ none ↦ nothing | some m ↦ access_of m ]

pub record SnapshotTarget : Type 0 where
  pub player_id : ℕ
  pub connection : ℕ
  pub access : SnapshotAccess

abbrev pub target_list : SnapshotAccess → ℕ → ℕ → List SnapshotTarget → List SnapshotTarget
target_list nothing player_id c rest = rest
target_list filtered player_id c rest =
    record { player_id = player_id; connection = c; access = filtered } ∷ rest
target_list unfiltered player_id c rest =
    record { player_id = player_id; connection = c; access = unfiltered } ∷ rest

unfoldable pub targets_among : Room → List LobbyMember → List SnapshotTarget
targets_among r [] = []
targets_among r (m ∷ ms) = elim m.connection [
  | none ↦ targets_among r ms
  | some c ↦ target_list (snapshot_access m.user_id r) m.player_id c (targets_among r ms)
]

unfoldable pub snapshot_targets : Room → List SnapshotTarget
snapshot_targets r =
    if not (is_same (state_of r) playing) then [] else targets_among r (members_in_order r.roster)

-- `#broadcastToViewers`, for any kind of message: who gets it, by the number of the connection.
abbrev pub is_viewer : SnapshotAccess → ℕ → ℕ → (ℕ → Bool) → Bool
is_viewer nothing viewer source can_see = false
is_viewer filtered viewer source can_see = viewer == source || can_see viewer
is_viewer unfiltered viewer source can_see = true

unfoldable pub viewers_among : ℕ → (ℕ → Bool) → Room → List LobbyMember → List ℕ
viewers_among source can_see r [] = []
viewers_among source can_see r (m ∷ ms) = elim m.connection [
  | none ↦ viewers_among source can_see r ms
  | some c ↦
      let rest = viewers_among source can_see r ms in
      if is_viewer (snapshot_access m.user_id r) m.player_id source can_see then c ∷ rest else rest
]

unfoldable pub broadcast_to_viewers : ℕ → (ℕ → Bool) → Room → List ℕ
broadcast_to_viewers source can_see r = viewers_among source can_see r (members_in_order r.roster)

unfoldable pub broadcast_tagged : ℕ → Option ℕ → Room → Room
broadcast_tagged player_id by r =
    broadcast_current_game (player_tagged player_id (get_or by player_id)) r

unfoldable pub send_skill_rejected : ℕ → ℕ → SkillRejection → Room → Room
send_skill_rejected player_id slot reason r = elim (get_by_player_id player_id r.roster) [
  | none ↦ r
  | some m ↦ elim m.connection [
    | none ↦ r
    | some c ↦ emit (send c (skill_rejected slot reason) ∷ []) r
  ]
]
