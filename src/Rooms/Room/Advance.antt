-- ===== src/Rooms/Room/Advance.antt =====
-- `advance` of room.ts: what time does to a room. Expired holds and lost connections go, an empty room closes,
-- a countdown becomes a game, and the time after a game ends.
use sw_itch_remake.Base.{
  ℕ, Bool, true, false, ◌&&◌, ◌||◌, not, Option, none, some, List, [], ◌∷◌, ◌==◌, leb,
  if◌then◌else◌, is_some, map,
}
use sw_itch_remake.Types.{
  ActorId, RoomState, allocating, countdown, playing, post_game, closed, PlayerRole, player,
}
use sw_itch_remake.Rooms.StateMachine.{is_same}
use sw_itch_remake.Rooms.Roster.{
  LobbyMember, members_in_order, purge_expired_holds, size, occupied_size,
}
use sw_itch_remake.Rooms.Room.State.{
  RoomStartSnapshot, game_started, starts_game, directory_changed, Room, emit, state_of,
  with_roster, go_to, put_member, map_members, member_of, in_snapshot, projection, same_projection,
}
use sw_itch_remake.Rooms.Room.Broadcast.{broadcast_current_game, broadcast_lobby_state}
use sw_itch_remake.Rooms.Room.Closing.{close, remove_member}

-- A time that is set, and has come.
abbrev pub is_over : Option ℕ → ℕ → Bool
is_over none now = false
is_over (some t) now = leb t now

abbrev pub admission_over : ℕ → LobbyMember → Bool
admission_over now m = not (is_some m.connection) && is_over m.admission_pending_until now

-- The seat of a connection that was lost has been kept for long enough.
abbrev pub grace_over : ℕ → LobbyMember → Bool
grace_over now m = not (is_some m.connection) && is_over m.reconnect_until now

-- `member.admissionPendingUntil = null`, where the admission has run out.
abbrev pub admission_cleared : ℕ → LobbyMember → Room → Room
admission_cleared now m r =
    if admission_over now m
    then with_roster (put_member (record m { admission_pending_until = none }) r.roster) r
    else r

-- The body of the loop over the members.
unfoldable pub expire_member : ℕ → LobbyMember → Room → Room
expire_member now m r =
    if admission_over now m && not (is_some m.reconnect_until)
    then (remove_member now m.user_id "admission-timeout" false (admission_cleared now m r)).0
    else if grace_over now m
    then (remove_member now m.user_id "reconnect-timeout" false (admission_cleared now m r)).0
    else admission_cleared now m r

-- One round of the loop, for the member object that the roster holds for the user.
unfoldable pub expire_user : ℕ → ActorId → Room → Room
expire_user now u r = elim (member_of u r) [ none ↦ r | some m ↦ expire_member now m r ]

-- The loop, over the members there were before it.
unfoldable pub expire_users : ℕ → List ActorId → Room → Room
expire_users now [] r = r
expire_users now (u ∷ us) r = expire_users now us (expire_user now u r)

abbrev pub lined_up : RoomStartSnapshot → LobbyMember → LobbyMember
lined_up s m = record m {
  in_current_game = in_snapshot (some s) m.player_id;
  role = if in_snapshot (some s) m.player_id then player else PlayerRole.waiting;
  spectator_eligible = false;
  latest_input = none;
  last_input_sequence = none;
}

abbrev pub game_begun : ℕ → RoomStartSnapshot → Room → Room
game_begun now s r =
    go_to playing now
      (record r { roster = map_members (lined_up s) r.roster; countdown_ends_at = none })

unfoldable pub begin_with : ℕ → RoomStartSnapshot → Room → Room
begin_with now s r =
    let info = r.options.start_game s in
    let begun = record (game_begun now s (emit (starts_game s ∷ []) r)) {
      resume_started = some info;
    } in
    broadcast_lobby_state now (broadcast_current_game (game_started info) begun)

unfoldable pub begin_game : ℕ → Room → Room
begin_game now r =
    if is_same (state_of r) countdown && is_over r.countdown_ends_at now
    then elim r.start_snapshot [ none ↦ record r { thrown = true } | some s ↦ begin_with now s r ]
    else r

abbrev pub back_in_lobby : LobbyMember → LobbyMember
back_in_lobby m = record m {
  role = player;
  spectator_eligible = false;
  in_current_game = false;
  latest_input = none;
  last_input_sequence = none;
}

unfoldable pub return_to_lobby : ℕ → Room → Room
return_to_lobby now r =
    if is_same (state_of r) post_game && is_over r.post_game_ends_at now
    then broadcast_lobby_state now (
        go_to RoomState.waiting now (record r {
          roster = map_members back_in_lobby r.roster;
          post_game_ends_at = none;
          start_snapshot = none;
        }))
    else r

-- Nobody is in the room: it closes, unless its first person has yet to come.
unfoldable pub close_if_deserted : ℕ → Room → Room
close_if_deserted now r =
    if not (is_same (state_of r) allocating) || occupied_size r.roster == 0 then close now r else r

-- `#advance`.
unfoldable pub advance_open : ℕ → Room → Room
advance_open now r =
    if is_same (state_of r) closed
    then r
    else let purged = with_roster (purge_expired_holds now r.roster).0 r in
      let swept = expire_users now (map (λ m. m.user_id) (members_in_order purged.roster)) purged in
      if size swept.roster == 0
      then close_if_deserted now swept
      else return_to_lobby now (begin_game now swept)

-- `advance`: a room that is being handed off stands still.
unfoldable pub advance : ℕ → Room → Room
advance now r =
    if r.handing_off
    then r
    else let after = advance_open now r in
      if same_projection (projection r) (projection after)
      then after
      else emit (directory_changed ∷ []) after
