-- ===== src/Rooms/Room/Histories.antt =====
-- A room (room.ts) after any calls: what throws, those who were kicked are gone, and a game has the players that it
-- began with.
pub mod Games
pub mod Sweeping
pub mod Liveness
use sw_itch_remake.Base.{
  ℕ, ◌+◌, ◌≡◌, ◌≢◌, sym, subst, String, Bool, true, false, ◌&&◌, ◌||◌, not, Option, none, some,
  List, [], ◌∷◌, arith, inl, inr, if◌then◌else◌, is_some, option_both, if_both, All, All-imp,
  All-find, Bool-cases, Option-cases,
}
use sw_itch_remake.Base.Maps.{get, All-get}
use sw_itch_remake.Types.{ActorId, ActorId-discrete, RoomState, allocating, playing, closed}
use sw_itch_remake.Protocol.Skills.{SkillId}
use sw_itch_remake.Protocol.Input.{InputState}
use sw_itch_remake.Gateway.Tickets.{SeatReservation}
use sw_itch_remake.Rooms.StateMachine.{is_same}
use sw_itch_remake.Rooms.Roster.{
  LobbyMember, LobbyRoster, PlayerControl, members_in_order, has_user, is_player, AdoptedRoomMember,
  get_by_player_id,
}
use sw_itch_remake.Rooms.Roster.Invariant.{keyed}
use sw_itch_remake.Rooms.Roster.Seats.{members_in_order-Present}
use sw_itch_remake.Rooms.Roster.Histories.{one_number}
use sw_itch_remake.Rooms.Room.State.{
  Connection, Room, RoomOptions, RoomStartSnapshot, state_of, is_kicked, member_of, in_snapshot,
}
use sw_itch_remake.Rooms.Room.Broadcast.{
  SnapshotAccess, nothing, filtered, unfiltered, access_of, snapshot_access, is_spectator,
}
use sw_itch_remake.Rooms.Room.Closing.{close}
use sw_itch_remake.Rooms.Room.Advance.{advance}
use sw_itch_remake.Rooms.Room.Joining.{
  reserve_join, can_reserve_resume, admit_reservation, bind_connection, welcome, disconnect,
  release_seat,
}
use sw_itch_remake.Rooms.Room.Lobby.{
  kick, force_kick, pass_host_to, set_locked, set_map, set_loadout, set_control, move_member,
}
use sw_itch_remake.Rooms.Room.Game.{
  ServerState, request_start, finish_game, grant_match_id, revive_for_training, mark_eliminated,
  set_spectating, accept_input, gives_input, inputs_among, resolved_inputs,
}
use sw_itch_remake.Rooms.Room.HandOff.{
  new, freeze_for_hand_off, cancel_hand_off, release_after_hand_off, refresh_hand_off_grace,
  adopt_members,
}
use sw_itch_remake.Rooms.Room.Fit.{is_banned, InLine, Lined, Fit}
use sw_itch_remake.Rooms.Room.Invariant.{Ready, Past, Inv, is_same-eq, close-Inv}
use sw_itch_remake.Rooms.Room.Keeping.Time.{advance-Inv}
use sw_itch_remake.Rooms.Room.Keeping.Joining.{
  reserve_join-Inv, can_reserve_resume-Inv, admit_reservation-Inv, bind_connection-Inv, welcome-Inv,
}
use sw_itch_remake.Rooms.Room.Keeping.Leaving.{disconnect-Inv, release_seat-Inv}
use sw_itch_remake.Rooms.Room.Keeping.Kicking.{kick-bans, force_kick-bans, kick-Inv, force_kick-Inv}
use sw_itch_remake.Rooms.Room.Keeping.Lobby.{
  pass_host_to-Inv, set_locked-Inv, set_map-Inv, set_loadout-Inv, set_control-Inv, move_member-Inv,
}
use sw_itch_remake.Rooms.Room.Keeping.Game.{
  request_start-Inv, finish_game-Inv, grant_match_id-Inv, revive_for_training-Inv,
  mark_eliminated-Inv, set_spectating-Inv, accept_input-Inv,
}
use sw_itch_remake.Rooms.Room.Keeping.HandOff.{
  new-Inv, freeze_for_hand_off-Inv, cancel_hand_off-Inv, release_after_hand_off-Inv,
  refresh_hand_off_grace-Inv, marked, Settles, adopt_members-Inv,
}
use sw_itch_remake.Rooms.Room.Calls.{
  Call, kicks, expels, step, Proper, releases_closed, step-Inv, run, AllProper,
  ever_releases_closed, restart, run_from-Inv,
}

marked-banned :
    (u : ActorId) (r : Room) (b : Bool)
    → is_banned u r.kicked_users ≡ true
    → is_banned u (marked r b).kicked_users ≡ true
marked-banned u r true k = k
marked-banned u r false k = k

-- Whom a call throws out: the member whose number the host gives, if it is not refused, and whoever is reported.
abbrev pub Kicks : Room → ℕ × Call → ActorId → Type 0
Kicks r (now, kicks requester player_id) u =
    (m : LobbyMember) × (get_by_player_id player_id r.roster ≡ some m)
    × (m.user_id ≡ u)
    × ((kick now requester player_id r).1 ≡ none)
Kicks r (now, expels w reason) u = w ≡ u
Kicks r _ u = ⊥

Kicks-banned :
    (r : Room) (c : ℕ × Call) (u : ActorId)
    → Inv r r
    → Kicks r c u
    → is_banned u (step r c).kicked_users ≡ true
unfolding step
Kicks-banned r (now, kicks requester player_id) u v (m, found, who, done) =
    subst (λ x. is_banned x (kick now requester player_id r).0.kicked_users ≡ true) who
      (kick-bans now requester player_id m r v found done)
Kicks-banned r (now, expels w reason) u v who =
    subst (λ x. is_banned x (force_kick now w reason r).0.kicked_users ≡ true) who
      (force_kick-bans now w reason r v)
Kicks-banned r _ u v k = absurd k

module _ (now : ℕ) (options : RoomOptions) (r : Room) (made : new now options ≡ some r)
    (cs : List (ℕ × Call)) (proper : AllProper r cs) where
  run_new-Inv : Inv (marked r (ever_releases_closed r cs)) (run r cs)
  run_new-Inv = run_from-Inv r cs proper (restart _ _ (new-Inv now options r made))

  pub run-Inv : Inv (run r cs) (run r cs)
  run-Inv = restart _ _ run_new-Inv

  -- Whoever the host kicks, or is thrown out after a report, is not in the room and has no seat on hold after
  -- any further calls, whatever is called before and after. Those who come with the room from another server
  -- must come when it has just been made, be neither in it nor kicked from it, and have the number and the
  -- colour of a seat that nobody else has.
  pub run-kicked_stay_away :
      (c : ℕ × Call) (u : ActorId) (ds : List (ℕ × Call))
      → Kicks (run r cs) c u
      → Proper (run r cs) c
      → AllProper (step (run r cs) c) ds
      → has_user u (run (step (run r cs) c) ds).roster ≡ false
  unfolding has_user
  run-kicked_stay_away c u ds kicks' p proper' =
      let x = step (run r cs) c in
      let after = run_from-Inv x ds proper' (restart _ _ (step-Inv (run r cs) c p run-Inv)) in
      let listed = after.past.1 u (
        marked-banned u x (ever_releases_closed x ds)
          (Kicks-banned (run r cs) c u run-Inv kicks')) in
      ground (arith, after.fit.banned u listed)
