-- ===== src/Rooms/Room/Lobby.antt =====
-- What people do in the lobby of a room (room.ts): the host's rights, the seats, and the loadouts.
use sw_itch_remake.Base.{
  ℕ, String, Bool, true, false, ◌||◌, not, Option, none, some, [], ◌∷◌, if◌then◌else◌, ite,
  String_discrete,
}
use sw_itch_remake.Types.{ActorId, ActorId-discrete, waiting, post_game}
use sw_itch_remake.Protocol.Skills.{SkillId, SkillId-discrete}
use sw_itch_remake.Rooms.StateMachine.{is_same}
use sw_itch_remake.Rooms.StartLock.{apply_map_change}
use sw_itch_remake.Rooms.Roster.{
  LobbyMember, LobbyRoster, PlayerControl, MoveSlotResult, moved, is_host, is_player, pass_host,
  move_slot, drop_hold, get_by_player_id,
}
use sw_itch_remake.Rooms.Room.State.{
  ErrorCode, bad_state, not_host, invalid_payload, kicked, policy_violation, send, hang_up, error,
  host_changed, directory_changed, Room, emit, state_of, with_roster, put_member, member_of,
}
use sw_itch_remake.Rooms.Room.Broadcast.{broadcast, broadcast_lobby_state}
use sw_itch_remake.Rooms.Room.Closing.{remove_member}

-- The refusals that the host's operations share, in their order.
abbrev pub host_refusal : ActorId → Room → Option ErrorCode
host_refusal requester r =
    if not (is_same (state_of r) waiting)
    then some bad_state
    else if not (is_host requester r.roster)
    then some not_host
    else none

-- `kickedUsers.add`.
abbrev pub ban : ActorId → Room → Room
ban u r = record r { kicked_users = u ∷ r.kicked_users }

abbrev pub told_kicked : Option ℕ → Room → Room
told_kicked none r = r
told_kicked (some c) r = emit (send c (error none kicked) ∷ []) r

abbrev pub thrown_out : Option ℕ → Room → Room
thrown_out none r = r
thrown_out (some c) r = emit (hang_up c policy_violation ∷ []) r

-- The end of `kick` and of `forceKick`, for a member who is banned already.
unfoldable pub expel : ℕ → LobbyMember → String → Room → Room
expel now target reason r =
    thrown_out target.connection
      (remove_member now target.user_id reason true (told_kicked target.connection r)).0

unfoldable pub kick : ℕ → ActorId → ℕ → Room → Room × Option ErrorCode
kick now requester player_id r = elim (host_refusal requester r) [
  | some e ↦ (r, some e)
  | none ↦ elim (get_by_player_id player_id r.roster) [
    | none ↦ (r, some invalid_payload)
    | some target ↦
        ite (ActorId-discrete target.user_id requester) (r, some invalid_payload)
          (expel now target "kicked" (ban target.user_id r), none)
  ]
]

unfoldable pub force_kick : ℕ → ActorId → String → Room → Room × Bool
force_kick now user_id reason r =
    let banned = with_roster (drop_hold user_id r.roster) (ban user_id r) in
    elim (member_of user_id banned) [
      | none ↦ (banned, false)
      | some target ↦ (expel now target reason banned, true)
    ]

abbrev pub hosted : ℕ → ℕ → LobbyRoster × Bool → Room → Room × Option ErrorCode
hosted now player_id (roster, false) r = (with_roster roster r, some invalid_payload)
hosted now player_id (roster, true) r = (
  emit (directory_changed ∷ [])
      (broadcast_lobby_state now (broadcast (host_changed player_id) (with_roster roster r))),
  none,
)

-- `passHost`.
unfoldable pub pass_host_to : ℕ → ActorId → ℕ → Room → Room × Option ErrorCode
pass_host_to now requester player_id r = elim (host_refusal requester r) [
  | some e ↦ (r, some e)
  | none ↦ hosted now player_id (pass_host requester player_id r.roster) r
]

abbrev pub differs : Bool → Bool → Bool
differs true b = not b
differs false b = b

unfoldable pub set_locked : ℕ → ActorId → Bool → Room → Room × Option ErrorCode
set_locked now requester locked r = elim (host_refusal requester r) [
  | some e ↦ (r, some e)
  | none ↦ (
    if differs r.locked locked
        then emit (directory_changed ∷ [])
            (broadcast_lobby_state now (record r { locked = locked }))
        else r,
    none,
  )
]

abbrev pub on_map : ℕ → String → Room → Room
on_map now map_id r = record r { map_id = map_id; start_lock = apply_map_change now r.start_lock }

unfoldable pub set_map : ℕ → ActorId → String → Room → Room × Option ErrorCode
set_map now requester map_id r = elim (host_refusal requester r) [
  | some e ↦ (r, some e)
  | none ↦
      if not (r.options.is_known_map map_id r.options.mode) then (r, some invalid_payload) else (
        ite (String_discrete map_id r.map_id) r
            (emit (directory_changed ∷ []) (broadcast_lobby_state now (on_map now map_id r))),
        none,
      )
]

-- `#lobbyEditable`.
abbrev pub lobby_editable : Room → Bool
lobby_editable r = is_same (state_of r) waiting || is_same (state_of r) post_game

unfoldable pub set_loadout : ℕ → ActorId → SkillId → Room → Room × Option ErrorCode
set_loadout now user_id loadout r =
    if not (lobby_editable r) then (r, some bad_state) else elim (member_of user_id r) [
      | none ↦ (r, some bad_state)
      | some m ↦ if not (is_player m.role) then (r, some bad_state) else (
        ite (SkillId-discrete m.loadout loadout) r (
            broadcast_lobby_state now
              (with_roster (put_member (record m { loadout = loadout }) r.roster) r)),
        none,
      )
    ]

pub PlayerControl-discrete : Discrete PlayerControl
PlayerControl-discrete = hlevel

abbrev pub has_control : PlayerControl → Option PlayerControl → Bool
has_control c none = false
has_control c (some d) = ite (PlayerControl-discrete d c) true false

unfoldable pub set_control : ℕ → ActorId → PlayerControl → Room → Room × Option ErrorCode
set_control now user_id control r = elim (member_of user_id r) [
  | none ↦ (r, some bad_state)
  | some m ↦
      let changed = with_roster (put_member (record m { control = some control }) r.roster) r in
      (
        if has_control control m.control
            then r
            else if lobby_editable changed
            then broadcast_lobby_state now changed
            else changed,
        none,
      )
]

abbrev pub moved_to : ℕ → LobbyRoster × MoveSlotResult → Room → Room × Option MoveSlotResult
moved_to now (roster, moved) r = (broadcast_lobby_state now (with_roster roster r), some moved)
moved_to now (roster, answer) r = (with_roster roster r, some answer)

-- `moveSlot`; `none` is its answer 'bad-state'.
unfoldable pub move_member : ℕ → ActorId → ℕ → Room → Room × Option MoveSlotResult
move_member now user_id slot r =
    if not (lobby_editable r) then (r, none) else moved_to now (move_slot user_id slot r.roster) r
