-- ===== src/Rooms/Room/Invariant.antt =====
-- The invariant of a room (room.ts): in each phase it has what the phase needs to end, nothing was thrown, and its
-- people fit the phase. Messages do not touch it.
use sw_itch_remake.Base.{
  ℕ, String, ◌≡◌, refl, Bool, true, false, Option, none, List, arith, any, is_some, option_both,
  if_both,
}
use sw_itch_remake.Types.{
  ActorId, RoomState, allocating, waiting, countdown, playing, post_game, closed,
}
use sw_itch_remake.Rooms.StateMachine.{is_same, transition, transitions}
use sw_itch_remake.Rooms.Roster.{LobbyRoster, Removed, remove, clear_holds, host_id}
use sw_itch_remake.Rooms.Room.State.{
  RoomStartSnapshot, Message, Room, Effect, emit, state_of, with_roster, go_to,
}
use sw_itch_remake.Rooms.Room.Broadcast.{broadcast, broadcast_current_game, broadcast_lobby_state}
use sw_itch_remake.Rooms.Room.Closing.{
  close, announce_host, announced, after_removal, notify, remove_member,
}
use sw_itch_remake.Rooms.Room.Fit.{Fit, is_banned, clear_holds-Fit, remove-Fit}
use sw_itch_remake.Rooms.Room.Entering.{other_phase}

-- A countdown has its end and its start snapshot, a game its start snapshot, and the time after it its end.
abbrev pub Ready : RoomState → Option ℕ → Option ℕ → Option RoomStartSnapshot → Type 0
Ready countdown c p s = (is_some c ≡ true) × (is_some s ≡ true)
Ready playing c p s = is_some s ≡ true
Ready post_game c p s = is_some p ≡ true
Ready allocating c p s = Unit
Ready waiting c p s = Unit
Ready closed c p s = Unit

-- Since another state of the room nothing more was thrown, and whoever was kicked is still on the list.
abbrev pub Past : Room → Room → Type 0
Past since r =
    (r.thrown ≡ since.thrown)
    × ((u : ActorId) → is_banned u since.kicked_users ≡ true → is_banned u r.kicked_users ≡ true)

pub record Inv (since r : Room) : Type 0 where
  pub past : Past since r
  pub ready : Ready (state_of r) r.countdown_ends_at r.post_game_ends_at r.start_snapshot
  pub fit : Fit (state_of r) r.start_snapshot r.kicked_users r.roster

-- Messages and calls to the outside.
module _ {since : Room} {r : Room} (v : Inv since r) where
  pub emit-Inv : (es : List Effect) → Inv since (emit es r)
  unfolding emit
  emit-Inv es = record { past = v.past; ready = v.ready; fit = v.fit }

  pub broadcast-Inv : (m : Message) → Inv since (broadcast m r)
  unfolding broadcast
  broadcast-Inv m = emit-Inv _

  pub broadcast_current_game-Inv : (m : Message) → Inv since (broadcast_current_game m r)
  unfolding broadcast_current_game
  broadcast_current_game-Inv m = emit-Inv _

  pub broadcast_lobby_state-Inv : (now : ℕ) → Inv since (broadcast_lobby_state now r)
  unfolding broadcast_lobby_state
  broadcast_lobby_state-Inv now = emit-Inv _

  -- The people change and fit the phase.
  pub with_roster-Inv :
      (roster : LobbyRoster)
      → Fit (state_of r) r.start_snapshot r.kicked_users roster
      → Inv since (with_roster roster r)
  unfolding with_roster
  with_roster-Inv roster fit = record { past = v.past; ready = v.ready; fit = fit }

-- A phase that may follow: the machine goes there, and nothing is thrown.
pub go_to-Inv :
    {since : Room}
    → (next : RoomState) (now : ℕ) (r : Room) → any (is_same next) (transitions (state_of r)) ≡ true
    → Past since r
    → Ready next r.countdown_ends_at r.post_game_ends_at r.start_snapshot
    → Fit next r.start_snapshot r.kicked_users r.roster
    → Inv since (go_to next now r)
unfolding go_to transition
go_to-Inv next now r allowed past ready fit =
    rw allowed (record { past = past; ready = ready; fit = fit })

pub is_same-eq : (s t : RoomState) → is_same s t ≡ true → s ≡ t
is_same-eq s t h = ground arith

pub open-closes :
    (s : RoomState) → is_same s closed ≡ false → any (is_same closed) (transitions s) ≡ true
open-closes closed h = cc
open-closes allocating h = refl
open-closes waiting h = refl
open-closes countdown h = refl
open-closes playing h = refl
open-closes post_game h = refl

pub close-Inv : {since : Room} → (now : ℕ) (r : Room) → Inv since r → Inv since (close now r)
unfolding close emit with_roster
close-Inv now r v =
    if_both (Inv _) (is_same (state_of r) closed) _ _ (λ e. v)
      (λ e.
        emit-Inv
          (go_to-Inv closed now _ (open-closes (state_of r) e) v.past tt (
            other_phase (state_of r) r.start_snapshot r.kicked_users (clear_holds r.roster)
              (clear_holds-Fit (state_of r) r.start_snapshot r.kicked_users r.roster v.fit) closed
              r.start_snapshot tt))
          _)

announce_host-Inv :
    {since : Room} → (b : Bool) (r : Room) → Inv since r → Inv since (announce_host b r)
announce_host-Inv false r v = v
announce_host-Inv true r v =
    option_both (Inv _) (host_id r.roster) _ _ (λ e. v) (λ host e. broadcast-Inv v _)

notify-Inv :
    {since : Room}
    → (b : Bool) (player_id : ℕ) (reason : String) (r : Room) → Inv since r
    → Inv since (notify b player_id reason r)
notify-Inv false player_id reason r v = v
notify-Inv true player_id reason r v = emit-Inv v _

after_removal-Inv :
    {since : Room}
    → (now : ℕ) (gone : Removed) (reason : String) (r : Room) → Inv since r
    → Inv since (after_removal now gone reason r)
unfolding after_removal announced
after_removal-Inv now gone reason r v =
    let told = announce_host-Inv gone.host_changed _ (emit-Inv (broadcast-Inv v _) _) in
    if_both (Inv _) _ _ _ (λ empty. close-Inv now _ told)
      (λ people. broadcast_lobby_state-Inv told now)

-- If the room without the member fits, so does what comes of it.
pub removal-Inv :
    {since : Room}
    → (now : ℕ) (u : ActorId) (reason : String) (b : Bool) (r : Room)
    → ((remove u r.roster).1 ≡ none → Inv since r)
    → Inv since (with_roster (remove u r.roster).0 r)
    → Inv since (remove_member now u reason b r).0
unfolding remove_member
removal-Inv {since} now u reason b r stays left =
    option_both (λ (x : Room × Bool). Inv since x.0) (remove u r.roster).1 _ _ stays
      (λ gone e.
        after_removal-Inv now gone reason _ (notify-Inv b gone.member.player_id reason _ left))

pub remove_member-Inv :
    {since : Room}
    → (now : ℕ) (u : ActorId) (reason : String) (b : Bool) (r : Room) → Inv since r
    → Inv since (remove_member now u reason b r).0
remove_member-Inv now u reason b r v =
    removal-Inv now u reason b r (λ e. v)
      (with_roster-Inv v _
        (remove-Fit (state_of r) r.start_snapshot r.kicked_users r.roster v.fit u))
