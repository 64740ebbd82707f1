-- ===== src/Rooms/Room/Keeping/Leaving.antt =====
-- Lost connections, given up seats and kicks (room.ts) keep the invariant of a room.
use sw_itch_remake.Base.{
  ℕ, ◌+◌, ◌≡◌, refl, String, Bool, true, false, ◌&&◌, not, some, List, [], ◌∷◌, ◌==◌, arith,
  if◌then◌else◌, is_some, option_both, if_both,
}
use sw_itch_remake.Base.Maps.{get, get-set}
use sw_itch_remake.Types.{ActorId, ActorId-discrete, playing}
use sw_itch_remake.Rooms.StateMachine.{is_same}
use sw_itch_remake.Rooms.Roster.{LobbyMember, release_hold, held_seat, drop_hold, occupied_size}
use sw_itch_remake.Rooms.Room.State.{
  Connection, Message, Effect, connection_changed, player_reconnecting, Room, emit, state_of,
  with_roster, put_member, member_of,
}
use sw_itch_remake.Rooms.Room.Broadcast.{broadcast, broadcast_current_game}
use sw_itch_remake.Rooms.Room.Joining.{
  is_connected_by, lost, fallen, mark_eliminated_member, disconnect_member, disconnect,
  release_seat,
}
use sw_itch_remake.Rooms.Room.Fit.{put_member-Fit, drop_hold-Fit}
use sw_itch_remake.Rooms.Room.Invariant.{
  Inv, emit-Inv, broadcast-Inv, broadcast_current_game-Inv, broadcast_lobby_state-Inv,
  with_roster-Inv, close-Inv, remove_member-Inv,
}
use sw_itch_remake.Rooms.Room.Keeping.Joining.{put_kept-Inv}

-- Only a player of the running game falls.
pub mark_eliminated_member-Inv :
    {since : Room}
    → (now by : ℕ) (u : ActorId) (m : LobbyMember) (r : Room) → Inv since r
    → get ActorId-discrete u r.roster.members ≡ some m
    → m.in_current_game ≡ true
    → Inv since (mark_eliminated_member now m by r)
unfolding mark_eliminated_member
mark_eliminated_member-Inv now by u m r v found plays =
    broadcast_lobby_state-Inv
      (broadcast_current_game-Inv
        (broadcast_current_game-Inv
          (with_roster-Inv v _ (
            put_member-Fit (state_of r) r.start_snapshot r.kicked_users r.roster v.fit u m
              (fallen m) found (refl, refl, refl, refl, refl)
              (λ a l. (l.0, ground arith, ground arith))))
          _)
        _)
      now

module _ {since : Room} (now grace : ℕ) (u : ActorId) (m : LobbyMember) (r : Room)
    (found : get ActorId-discrete u r.roster.members ≡ some m) (v : Inv since r) where
  abbrev gone : LobbyMember
  gone = lost (now + grace) m

  abbrev noted : Room
  noted = with_roster (put_member gone r.roster) r

  noted-Inv : Inv since noted
  noted-Inv = put_kept-Inv r u m gone v found (refl, refl, refl, refl, refl) refl refl (λ e. e)

  -- After the notice, whoever it goes to, the member is the one without a connection.
  abbrev Told : Room → Type 0
  Told x = Inv since x × (get ActorId-discrete gone.user_id x.roster.members ≡ some gone)

  gone-found : get ActorId-discrete gone.user_id (put_member gone r.roster).members ≡ some gone
  gone-found =
      ground (arith, get-set ActorId-discrete gone.user_id gone.user_id gone r.roster.members)

  heard-Told :
      (b : Bool) (n : Message) (es : List Effect)
      → Told (if b then broadcast_current_game n (emit es noted) else broadcast n (emit es noted))
  heard-Told true n es = (
    broadcast_current_game-Inv (emit-Inv noted-Inv es) n,
    unfold broadcast_current_game emit with_roster in gone-found,
  )
  heard-Told false n es =
      (broadcast-Inv (emit-Inv noted-Inv es) n, unfold broadcast emit with_roster in gone-found)

pub disconnect_member-Inv :
    {since : Room}
    → (now : ℕ) (u : ActorId) (m : LobbyMember) (r : Room)
    → get ActorId-discrete u r.roster.members ≡ some m
    → Inv since r
    → Inv since (disconnect_member now m r)
unfolding disconnect_member
disconnect_member-Inv now u m r found v =
    let grace = r.options.timing.reconnect_grace_ms in
    let in_game = is_same (state_of r) playing && m.in_current_game in
    let told =
      heard-Told now grace u m r found v in_game (player_reconnecting m.player_id grace)
        (connection_changed m.player_id false ∷ []) in
    if_both (Inv _) (in_game && not m.spectator_eligible) _ _
      (λ falls.
        emit-Inv
          (mark_eliminated_member-Inv now m.player_id m.user_id (gone now grace u m r found v) _
            told.0 told.1 (ground arith))
          _)
      (λ stays. broadcast_lobby_state-Inv told.0 now)

pub disconnect-Inv :
    {since : Room}
    → (now : ℕ) (c : Connection) (r : Room) → Inv since r
    → Inv since (disconnect now c r)
unfolding disconnect
disconnect-Inv now c r v =
    option_both (Inv _) (member_of c.user_id r) _ _ (λ e. v)
      (λ m found.
        if_both (Inv _) (is_connected_by c.id m) _ _
          (λ e. disconnect_member-Inv now c.user_id m r found v) (λ e. v))

pub release_seat-Inv :
    {since : Room}
    → (now : ℕ) (u : ActorId) (reason : String) (r : Room) → Inv since r
    → Inv since (release_seat now u reason r).0
unfolding release_seat release_hold
release_seat-Inv {since} now u reason r v =
    let freed =
      with_roster-Inv v (drop_hold u r.roster)
        (drop_hold-Fit (state_of r) r.start_snapshot r.kicked_users r.roster v.fit u) in
    if_both (λ (x : Room × Bool). Inv since x.0) (is_some (held_seat u r.roster)) _ _
      (λ held.
        emit-Inv
          (if_both (Inv _) (occupied_size (with_roster (drop_hold u r.roster) r).roster == 0) _ _
            (λ e. close-Inv now _ freed) (λ e. freed))
          _)
      (λ other. remove_member-Inv now u reason true _ freed)
