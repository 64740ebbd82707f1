-- ===== src/Rooms/Room/Calls.antt =====
-- The calls of a room (room.ts), one after another, and its invariant after any of them.
use sw_itch_remake.Base.{
  ℕ, ◌+◌, ◌≡◌, refl, ◌∙◌, String, Bool, true, false, ◌||◌, Option, List, [], ◌∷◌,
}
use sw_itch_remake.Types.{ActorId, allocating, closed}
use sw_itch_remake.Protocol.Skills.{SkillId}
use sw_itch_remake.Protocol.Input.{InputState}
use sw_itch_remake.Gateway.Tickets.{SeatReservation}
use sw_itch_remake.Rooms.StateMachine.{is_same}
use sw_itch_remake.Rooms.Roster.{PlayerControl, AdoptedRoomMember}
use sw_itch_remake.Rooms.Room.State.{Connection, Room, state_of}
use sw_itch_remake.Rooms.Room.Closing.{close}
use sw_itch_remake.Rooms.Room.Advance.{advance}
use sw_itch_remake.Rooms.Room.Joining.{
  reserve_join, can_reserve_resume, admit_reservation, bind_connection, welcome, disconnect,
  release_seat,
}
use sw_itch_remake.Rooms.Room.Lobby.{
  kick, force_kick, pass_host_to, set_locked, set_map, set_loadout, set_control, move_member,
}
use sw_itch_remake.Rooms.Room.Game.{
  ServerState, request_start, finish_game, grant_match_id, revive_for_training, mark_eliminated,
  set_spectating, accept_input,
}
use sw_itch_remake.Rooms.Room.HandOff.{
  freeze_for_hand_off, cancel_hand_off, release_after_hand_off, refresh_hand_off_grace,
  adopt_members,
}
use sw_itch_remake.Rooms.Room.Invariant.{Past, Inv, close-Inv}
use sw_itch_remake.Rooms.Room.Keeping.Time.{advance-Inv}
use sw_itch_remake.Rooms.Room.Keeping.Joining.{
  reserve_join-Inv, can_reserve_resume-Inv, admit_reservation-Inv, bind_connection-Inv, welcome-Inv,
}
use sw_itch_remake.Rooms.Room.Keeping.Leaving.{disconnect-Inv, release_seat-Inv}
use sw_itch_remake.Rooms.Room.Keeping.Kicking.{kick-Inv, force_kick-Inv}
use sw_itch_remake.Rooms.Room.Keeping.Lobby.{
  pass_host_to-Inv, set_locked-Inv, set_map-Inv, set_loadout-Inv, set_control-Inv, move_member-Inv,
}
use sw_itch_remake.Rooms.Room.Keeping.Game.{
  request_start-Inv, finish_game-Inv, grant_match_id-Inv, revive_for_training-Inv,
  mark_eliminated-Inv, set_spectating-Inv, accept_input-Inv,
}
use sw_itch_remake.Rooms.Room.Keeping.HandOff.{
  freeze_for_hand_off-Inv, cancel_hand_off-Inv, release_after_hand_off-Inv,
  refresh_hand_off_grace-Inv, marked, Settles, adopt_members-Inv,
}

-- The calls that change a room, each with the time at which it is made: all public methods of `Room` that do.
pub data Call : Type 0 where
  reserves : SeatReservation → Option String → Call
  resumes : ActorId → Call
  admits : SeatReservation → Call
  binds : Connection → Call
  welcomes : Connection → Call
  disconnects : Connection → Call
  releases : ActorId → String → Call
  kicks : ActorId → ℕ → Call
  expels : ActorId → String → Call
  passes_host : ActorId → ℕ → Call
  locks : ActorId → Bool → Call
  picks_map : ActorId → String → Call
  picks_loadout : ActorId → SkillId → Call
  picks_control : ActorId → PlayerControl → Call
  moves : ActorId → ℕ → Call
  starts : ActorId → ServerState → Call
  finishes : List ℕ → Call
  grants : String → Call
  revives : ℕ → Bool → Call
  eliminates : ℕ → ℕ → Call
  spectates : ActorId → Bool → Call
  plays : Connection → InputState → Call
  advances : Call
  closes : Call
  freezes : Call
  thaws : Call
  leaves : Call
  graces : Call
  adopts : List AdoptedRoomMember → Call

unfoldable pub step : Room → ℕ × Call → Room
step r (now, reserves reservation password) = (reserve_join now reservation password r).0
step r (now, resumes u) = (can_reserve_resume now u r).0
step r (now, admits reservation) = (admit_reservation now reservation r).0
step r (now, binds c) = (bind_connection now c r).0
step r (now, welcomes c) = welcome now c r
step r (now, disconnects c) = disconnect now c r
step r (now, releases u reason) = (release_seat now u reason r).0
step r (now, kicks requester player_id) = (kick now requester player_id r).0
step r (now, expels u reason) = (force_kick now u reason r).0
step r (now, passes_host requester player_id) = (pass_host_to now requester player_id r).0
step r (now, locks requester locked) = (set_locked now requester locked r).0
step r (now, picks_map requester map_id) = (set_map now requester map_id r).0
step r (now, picks_loadout u loadout) = (set_loadout now u loadout r).0
step r (now, picks_control u control) = (set_control now u control r).0
step r (now, moves u slot) = (move_member now u slot r).0
step r (now, starts requester server) = (request_start now requester server r).0
step r (now, finishes winners) = (finish_game now winners r).0
step r (now, grants id) = grant_match_id id r
step r (now, revives player_id world) = (revive_for_training now player_id world r).0
step r (now, eliminates player_id by) = (mark_eliminated now player_id by r).0
step r (now, spectates u spectating) = (set_spectating now u spectating r).0
step r (now, plays c input) = (accept_input c input r).0
step r (now, advances) = advance now r
step r (now, closes) = close now r
step r (now, freezes) = (freeze_for_hand_off r).0
step r (now, thaws) = cancel_hand_off r
step r (now, leaves) = release_after_hand_off now r
step r (now, graces) = refresh_hand_off_grace now r
step r (now, adopts members) = adopt_members now members r

-- People are adopted once, by a room that has just been made: each is new to it, was not kicked from it, and has the
-- number and the colour of a seat of it that nobody else has. The manager adopts nobody otherwise, and takes the list from another room.
abbrev pub Proper : Room → ℕ × Call → Type 0
Proper r (now, adopts members) =
    (is_same (state_of r) allocating ≡ true)
    × Settles r.kicked_users members (now + r.options.timing.reconnect_grace_ms) r.roster
Proper r _ = Unit

-- Whether the call lets go of a room that is closed.
abbrev pub releases_closed : Room → Call → Bool
releases_closed r leaves = is_same (state_of r) closed
releases_closed r _ = false

pub step-Inv :
    (r : Room) (c : ℕ × Call)
    → Proper r c
    → Inv r r
    → Inv (marked r (releases_closed r c.1)) (step r c)
unfolding step
step-Inv r (now, reserves reservation password) p v = reserve_join-Inv now reservation password r v
step-Inv r (now, resumes u) p v = can_reserve_resume-Inv now u r v
step-Inv r (now, admits reservation) p v = admit_reservation-Inv now reservation r v
step-Inv r (now, binds c) p v = bind_connection-Inv now c r v
step-Inv r (now, welcomes c) p v = welcome-Inv now c r v
step-Inv r (now, disconnects c) p v = disconnect-Inv now c r v
step-Inv r (now, releases u reason) p v = release_seat-Inv now u reason r v
step-Inv r (now, kicks requester player_id) p v = kick-Inv now requester player_id r v
step-Inv r (now, expels u reason) p v = force_kick-Inv now u reason r v
step-Inv r (now, passes_host requester player_id) p v = pass_host_to-Inv now requester player_id r v
step-Inv r (now, locks requester locked) p v = set_locked-Inv now requester locked r v
step-Inv r (now, picks_map requester map_id) p v = set_map-Inv now requester map_id r v
step-Inv r (now, picks_loadout u loadout) p v = set_loadout-Inv now u loadout r v
step-Inv r (now, picks_control u control) p v = set_control-Inv now u control r v
step-Inv r (now, moves u slot) p v = move_member-Inv now u slot r v
step-Inv r (now, starts requester server) p v = request_start-Inv now requester server r v
step-Inv r (now, finishes winners) p v = finish_game-Inv now winners r v
step-Inv r (now, grants id) p v = grant_match_id-Inv id r v
step-Inv r (now, revives player_id world) p v = revive_for_training-Inv now player_id world r v
step-Inv r (now, eliminates player_id by) p v = mark_eliminated-Inv now player_id by r v
step-Inv r (now, spectates u spectating) p v = set_spectating-Inv now u spectating r v
step-Inv r (now, plays c input) p v = accept_input-Inv c input r v
step-Inv r (now, advances) p v = advance-Inv now r v
step-Inv r (now, closes) p v = close-Inv now r v
step-Inv r (now, freezes) p v = freeze_for_hand_off-Inv r v
step-Inv r (now, thaws) p v = cancel_hand_off-Inv r v
step-Inv r (now, leaves) p v = release_after_hand_off-Inv now r v
step-Inv r (now, graces) p v = refresh_hand_off_grace-Inv now r v
step-Inv r (now, adopts members) p v = adopt_members-Inv now members r p.0 p.1 v

unfoldable pub run : Room → List (ℕ × Call) → Room
run r [] = r
run r (c ∷ cs) = run (step r c) cs

abbrev pub AllProper : Room → List (ℕ × Call) → Type 0
AllProper r [] = Unit
AllProper r (c ∷ cs) = Proper r c × AllProper (step r c) cs

-- Whether one of the calls lets go of the room when it is closed.
unfoldable pub ever_releases_closed : Room → List (ℕ × Call) → Bool
ever_releases_closed r [] = false
ever_releases_closed r (c ∷ cs) = releases_closed r c.1 || ever_releases_closed (step r c) cs

Past-then :
    (r s t : Room) (b b' : Bool)
    → Past (marked r b) s
    → Past (marked s b') t
    → Past (marked r (b || b')) t
Past-then r s t true true p q = (q.0, λ u k. q.1 u (p.1 u k))
Past-then r s t true false p q = (q.0 ∙ p.0, λ u k. q.1 u (p.1 u k))
Past-then r s t false true p q = (q.0, λ u k. q.1 u (p.1 u k))
Past-then r s t false false p q = (q.0 ∙ p.0, λ u k. q.1 u (p.1 u k))

-- The room as it is now is where the next call starts.
pub restart : (since r : Room) → Inv since r → Inv r r
restart since r v = record { past = (refl, λ u k. k); ready = v.ready; fit = v.fit }

pub run_from-Inv :
    (r : Room) (cs : List (ℕ × Call))
    → AllProper r cs
    → Inv r r
    → Inv (marked r (ever_releases_closed r cs)) (run r cs)
unfolding run ever_releases_closed
run_from-Inv r [] p v = v
run_from-Inv r (c ∷ cs) p v =
    let first = step-Inv r c p.0 v in
    let rest = run_from-Inv (step r c) cs p.1 (restart _ _ first) in
    record {
      past =
          Past-then r (step r c) (run (step r c) cs) (releases_closed r c.1)
            (ever_releases_closed (step r c) cs) first.past rest.past;
      ready = rest.ready;
      fit = rest.fit;
    }
