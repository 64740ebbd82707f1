-- ===== src/Rooms/Room/Closing.antt =====
-- Leaving a room and closing it (room.ts).
use sw_itch_remake.Base.{
  ℕ, String, Bool, true, false, none, some, List, [], ◌∷◌, ◌==◌, if◌then◌else◌,
}
use sw_itch_remake.Types.{ActorId, closed}
use sw_itch_remake.Rooms.StateMachine.{is_same}
use sw_itch_remake.Rooms.Roster.{
  LobbyMember, Removed, members_in_order, remove, clear_holds, host_id, size,
}
use sw_itch_remake.Rooms.Room.State.{
  CloseCode, normal, Effect, hang_up, stops_room, participant_removed, directory_changed,
  host_changed, player_left, Room, emit, state_of, with_roster, go_to,
}
use sw_itch_remake.Rooms.Room.Broadcast.{broadcast, broadcast_lobby_state}

unfoldable pub hang_ups : CloseCode → List LobbyMember → List Effect
hang_ups code [] = []
hang_ups code (m ∷ ms) = elim m.connection [
  | none ↦ hang_ups code ms
  | some c ↦ hang_up c code ∷ hang_ups code ms
]

unfoldable pub close : ℕ → Room → Room
close now r =
    if is_same (state_of r) closed
    then r
    else emit (directory_changed ∷ []) (
        go_to closed now (
          emit (stops_room ∷ hang_ups normal (members_in_order r.roster))
            (with_roster (clear_holds r.roster) r)))

-- The messages after somebody has left, and the end of an empty room.
abbrev pub announce_host : Bool → Room → Room
announce_host false r = r
announce_host true r = elim (host_id r.roster) [
  | none ↦ r
  | some host ↦ broadcast (host_changed host) r
]

unfoldable pub announced : Removed → String → Room → Room
announced gone reason r =
    announce_host gone.host_changed
      (emit (directory_changed ∷ []) (broadcast (player_left gone.member.player_id reason) r))

unfoldable pub after_removal : ℕ → Removed → String → Room → Room
after_removal now gone reason r =
    let told = announced gone reason r in
    if size told.roster == 0 then close now told else broadcast_lobby_state now told

abbrev pub notify : Bool → ℕ → String → Room → Room
notify false player_id reason r = r
notify true player_id reason r = emit (participant_removed player_id reason ∷ []) r

-- `#removeMember`.
unfoldable pub remove_member : ℕ → ActorId → String → Bool → Room → Room × Bool
remove_member now user_id reason notify_lifecycle r =
    let removed = remove user_id r.roster in
    elim removed.1 [
      | none ↦ (r, false)
      | some gone ↦ (
        after_removal now gone reason
            (notify notify_lifecycle gone.member.player_id reason (with_roster removed.0 r)),
        true,
      )
    ]
