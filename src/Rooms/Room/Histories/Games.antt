-- ===== src/Rooms/Room/Histories/Games.antt =====
-- The game of a room (room.ts) after any calls: who plays, whose input a tick reads, and who sees what.
use sw_itch_remake.Base.{
  ℕ, ◌≡◌, true, false, Option, some, List, [], ◌∷◌, arith, option_both, if_both, All, inl, inr,
  Bool-cases,
}
use sw_itch_remake.Base.Maps.{get, All-get}
use sw_itch_remake.Types.{ActorId, ActorId-discrete, RoomState, playing}
use sw_itch_remake.Protocol.Input.{InputState}
use sw_itch_remake.Rooms.StateMachine.{is_same}
use sw_itch_remake.Rooms.Roster.{LobbyMember, LobbyRoster, members_in_order}
use sw_itch_remake.Rooms.Roster.Invariant.{keyed}
use sw_itch_remake.Rooms.Roster.Seats.{Present, members_in_order-Present}
use sw_itch_remake.Rooms.Roster.Histories.{one_number}
use sw_itch_remake.Rooms.Room.State.{
  Room, RoomOptions, RoomStartSnapshot, state_of, member_of, in_snapshot,
}
use sw_itch_remake.Rooms.Room.Broadcast.{filtered, unfiltered, snapshot_access}
use sw_itch_remake.Rooms.Room.Game.{gives_input, inputs_among, resolved_inputs}
use sw_itch_remake.Rooms.Room.HandOff.{new}
use sw_itch_remake.Rooms.Room.Fit.{InLine, Lined}
use sw_itch_remake.Rooms.Room.Invariant.{Inv}
use sw_itch_remake.Rooms.Room.Calls.{Call, run, AllProper}
use sw_itch_remake.Rooms.Room.Histories.{run-Inv}

-- In a game every member is in line with its start snapshot.
members-InLine :
    (st : RoomState) (s : Option RoomStartSnapshot) (r : LobbyRoster)
    → is_same st playing ≡ true
    → Lined st s r
    → All (InLine s) r.members
members-InLine playing s r e l = l.0
members-InLine RoomState.allocating s r e l = cc
members-InLine RoomState.waiting s r e l = cc
members-InLine RoomState.countdown s r e l = cc
members-InLine RoomState.post_game s r e l = cc
members-InLine RoomState.closed s r e l = cc

module _ {since : Room} (r : Room) (v : Inv since r)
    (in_game : is_same (state_of r) playing ≡ true) where
  member-InLine :
      (u : ActorId) (m : LobbyMember)
      → get ActorId-discrete u r.roster.members ≡ some m
      → InLine r.start_snapshot (u, m)
  member-InLine u m found =
      All-get ActorId-discrete (InLine r.start_snapshot) u m r.roster.members
        (members-InLine (state_of r) r.start_snapshot r.roster in_game v.fit.lined) found

  -- A number that a tick takes input for is one of the game's.
  abbrev FromGame : ℕ × InputState → Type 0
  FromGame p = in_snapshot r.start_snapshot p.0 ≡ true

  inputs_among-FromGame :
      (ms : List LobbyMember) → All (Present r.roster.members) ms → All FromGame (inputs_among ms)
  inputs_among-FromGame [] p = tt
  inputs_among-FromGame (m ∷ ms) p =
      let rest = inputs_among-FromGame ms p.1 in
      let line = member-InLine m.user_id m p.0 in
      option_both (All FromGame) m.latest_input _ _ (λ e. rest)
        (λ input e.
          if_both (All FromGame) (gives_input m) _ _ (λ gives. (ground (arith, line), rest))
            (λ e. rest))

resolved_inputs-FromGame :
    (r : Room)
    → Inv r r
    → All (λ (p : ℕ × InputState). in_snapshot r.start_snapshot p.0 ≡ true) (resolved_inputs r)
unfolding resolved_inputs
resolved_inputs-FromGame r v =
    if_both (All (λ (p : ℕ × InputState). in_snapshot r.start_snapshot p.0 ≡ true))
      (is_same (state_of r) playing) _ _
      (λ e. inputs_among-FromGame r v e (members_in_order r.roster) (
        members_in_order-Present r.roster v.fit.seats.unique_members (
          keyed r.roster.capacity r.roster.join_order r.roster.members v.fit.seats.member_entries)))
      (λ e. tt)

module _ (now : ℕ) (options : RoomOptions) (r : Room) (made : new now options ≡ some r)
    (cs : List (ℕ × Call)) (proper : AllProper r cs) where
  -- In a game of a new room, after any calls, a member has a number of the start snapshot exactly when they are
  -- in the line-up, and no two members have the same number: nobody who came later has the number of a player.
  -- Those who come with the room from another server must come when it has just been made, be neither in it nor
  -- kicked from it, and have the number and the colour of a seat that nobody else has.
  pub run-line_up :
      (u w : ActorId) (m n : LobbyMember)
      → state_of (run r cs) ≡ playing
      → member_of u (run r cs) ≡ some m
      → member_of w (run r cs) ≡ some n
      → (m.in_current_game ≡ in_snapshot (run r cs).start_snapshot m.player_id)
        × (m.player_id ≡ n.player_id → u ≡ w)
  run-line_up u w m n plays found found' =
      let v = run-Inv now options r made cs proper in
      let entries = v.fit.seats.member_entries in
      (
        (member-InLine (run r cs) v (rw plays) u m found).0,
        λ same. one_number (run r cs).roster u w m n v.fit.seats found found' (
            omega (
              arith,
              (All-get ActorId-discrete _ u m (run r cs).roster.members entries found).1,
              (All-get ActorId-discrete _ w n (run r cs).roster.members entries found').1,
              same,
            )),
      )

  -- After any calls on a new room, each input that a tick takes from it belongs to a player of the start
  -- snapshot of the running game. Those who come with the room from another server must come when it has just
  -- been made, be neither in it nor kicked from it, and have the number and the colour of a seat that nobody
  -- else has.
  pub run-inputs_of_players :
      All
        (λ (p : ℕ × InputState). in_snapshot (run r cs).start_snapshot p.0 ≡ true)
        (resolved_inputs (run r cs))
  run-inputs_of_players = resolved_inputs-FromGame (run r cs) (run-Inv now options r made cs proper)

  -- After any calls on a new room, an uncensored view goes only to a player of the running game who has fallen,
  -- and a censored one only to a player of it who has not. Those who come with the room from another server must
  -- come when it has just been made, be neither in it nor kicked from it, and have the number and the colour of
  -- a seat that nobody else has.
  pub run-access :
      (u : ActorId) (m : LobbyMember)
      → member_of u (run r cs) ≡ some m
      → (snapshot_access u (run r cs) ≡ unfiltered
          → (in_snapshot (run r cs).start_snapshot m.player_id ≡ true)
            × (m.spectator_eligible ≡ true))
        × (snapshot_access u (run r cs) ≡ filtered
            → (in_snapshot (run r cs).start_snapshot m.player_id ≡ true)
              × (m.spectator_eligible ≡ false))
  unfolding snapshot_access
  run-access u m found =
      let v = run-Inv now options r made cs proper in
      elim (Bool-cases (is_same (state_of (run r cs)) playing)) [
        | inl plays ↦
            let line = member-InLine (run r cs) v plays u m found in
            (λ e. ground (arith, line), λ e. ground (arith, line))
        | inr rests ↦ (λ e. absurd (ground arith), λ e. absurd (ground arith))
      ]
