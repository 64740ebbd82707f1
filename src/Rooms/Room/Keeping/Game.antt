-- ===== src/Rooms/Room/Keeping/Game.antt =====
-- The games of a room (room.ts) keep its invariant: a game that is asked for has its line-up, and only its players
-- fall or come back.
use sw_itch_remake.Base.{
  ℕ, ◌+◌, ◌≡◌, refl, String, String_discrete, Bool, true, false, ◌&&◌, ◌||◌, not, Option, none,
  some, List, arith, option_both, if_both, ite_both,
}
use sw_itch_remake.Base.Maps.{get}
use sw_itch_remake.Types.{ActorId, ActorId-discrete, waiting, countdown, playing, post_game}
use sw_itch_remake.Protocol.Input.{InputState}
use sw_itch_remake.Rooms.StateMachine.{is_same}
use sw_itch_remake.Rooms.Roster.{LobbyMember, clear_holds, get_by_player_id, is_player}
use sw_itch_remake.Rooms.Roster.Invariant.{keyed}
use sw_itch_remake.Rooms.Roster.Seats.{get_by_player_id-Present}
use sw_itch_remake.Rooms.Room.State.{ErrorCode, Connection, Room, emit, state_of, member_of}
use sw_itch_remake.Rooms.Room.Game.{
  ServerState, start_refusal, granted_id, needs_grant, snapshot_of, counting, start_countdown,
  request_start, Finish, valid_winners, ended, finish_game, grant_match_id, revived,
  revive_for_training, mark_eliminated, watching_role, same_role, set_spectating, is_next, may_play,
  accept_input, is_match,
}
use sw_itch_remake.Rooms.Room.Fit.{put_member-Fit, clear_holds-Fit}
use sw_itch_remake.Rooms.Room.Entering.{other_phase}
use sw_itch_remake.Rooms.Room.Invariant.{
  Inv, emit-Inv, broadcast-Inv, broadcast_current_game-Inv, broadcast_lobby_state-Inv,
  with_roster-Inv, go_to-Inv, is_same-eq,
}
use sw_itch_remake.Rooms.Room.Keeping.Joining.{put_kept-Inv}
use sw_itch_remake.Rooms.Room.Keeping.Leaving.{mark_eliminated_member-Inv}

granted_id-Inv :
    {since : Room}
    → (b : Bool) (o : Option String) (r : Room) → Inv since r
    → Inv since (granted_id b o r)
granted_id-Inv true (some id) r v = record { past = v.past; ready = v.ready; fit = v.fit }
granted_id-Inv true none r v = v
granted_id-Inv false none r v = v
granted_id-Inv false (some id) r v = v

granted_id-state :
    (b : Bool) (o : Option String) (r : Room) → state_of (granted_id b o r) ≡ state_of r
granted_id-state true (some id) r = refl
granted_id-state true none r = refl
granted_id-state false none r = refl
granted_id-state false (some id) r = refl

start_countdown-Inv :
    {since : Room}
    → (now : ℕ) (server : ServerState) (r : Room) → state_of r ≡ waiting
    → Inv since r
    → Inv since (start_countdown now server r)
unfolding start_countdown emit clear_holds
start_countdown-Inv {since} now server r here v =
    let begun : Inv since (counting now (snapshot_of r) r) =
      go_to-Inv countdown now _ (rw here) v.past (refl, refl)
        (other_phase (state_of r) r.start_snapshot r.kicked_users (clear_holds r.roster)
          (clear_holds-Fit (state_of r) r.start_snapshot r.kicked_users r.roster v.fit) countdown
          (some (snapshot_of r)) refl) in
    broadcast-Inv (record { past = begun.past; ready = begun.ready; fit = begun.fit }) _

start_refusal-waiting :
    (now : ℕ) (requester : ActorId) (server : ServerState) (r : Room)
    → start_refusal now requester server r ≡ none
    → state_of r ≡ waiting
unfolding start_refusal
start_refusal-waiting now requester server r may = is_same-eq (state_of r) waiting (ground arith)

pub request_start-Inv :
    {since : Room}
    → (now : ℕ) (requester : ActorId) (server : ServerState) (r : Room) → Inv since r
    → Inv since (request_start now requester server r).0
unfolding request_start
request_start-Inv {since} now requester server r v =
    option_both (λ (x : Room × Option ErrorCode). Inv since x.0)
      (start_refusal now requester server r) _ _
      (λ may.
        start_countdown-Inv now server _
          (rw (granted_id-state (needs_grant r) r.granted_match_id r)
            (start_refusal-waiting now requester server r may))
          (granted_id-Inv (needs_grant r) r.granted_match_id r v))
      (λ refusal e. v)

pub finish_game-Inv :
    {since : Room}
    → (now : ℕ) (winners : List ℕ) (r : Room) → Inv since r
    → Inv since (finish_game now winners r).0
unfolding finish_game
finish_game-Inv {since} now winners r v =
    let P = λ (x : Room × Finish). Inv since x.0 in
    if_both P (not (is_same (state_of r) playing)) _ _ (λ e. v)
      (λ plays.
        if_both P (not (valid_winners winners r)) _ _ (λ e. v)
          (λ good.
            broadcast_current_game-Inv
              (emit-Inv (ended-Inv now r (is_same-eq (state_of r) playing (ground arith)) v) _) _))
  where
    ended-Inv :
        {since : Room}
        → (now : ℕ) (r : Room) → state_of r ≡ playing
        → Inv since r
        → Inv since (ended now r)
    ended-Inv {since} now r here v =
        let over : Inv since _ =
          go_to-Inv {since = since} post_game now
            (record r { post_game_ends_at = some (now + r.options.timing.post_game_ms) }) (rw here)
            v.past refl
            (other_phase (state_of r) r.start_snapshot r.kicked_users r.roster v.fit post_game
              r.start_snapshot tt) in
        record { past = over.past; ready = over.ready; fit = over.fit }

pub grant_match_id-Inv :
    {since : Room} → (id : String) (r : Room) → Inv since r → Inv since (grant_match_id id r)
unfolding grant_match_id
grant_match_id-Inv id r v =
    ite_both (Inv _) (String_discrete id r.match_id) _ _ (λ e. v)
      (λ e. record { past = v.past; ready = v.ready; fit = v.fit })

-- The member with a number is the one that the roster holds under their name.
module _ {since : Room} (r : Room) (v : Inv since r) where
  numbered :
      (player_id : ℕ) (m : LobbyMember)
      → get_by_player_id player_id r.roster ≡ some m
      → get ActorId-discrete m.user_id r.roster.members ≡ some m
  numbered player_id m found =
      (get_by_player_id-Present r.roster v.fit.seats.unique_members
        (keyed r.roster.capacity r.roster.join_order r.roster.members v.fit.seats.member_entries)
        player_id m found).0

pub mark_eliminated-Inv :
    {since : Room}
    → (now player_id by : ℕ) (r : Room) → Inv since r
    → Inv since (mark_eliminated now player_id by r).0
unfolding mark_eliminated
mark_eliminated-Inv {since} now player_id by r v =
    let P = λ (x : Room × Bool). Inv since x.0 in
    if_both P (not (is_same (state_of r) playing)) _ _ (λ e. v)
      (λ plays.
        option_both P (get_by_player_id player_id r.roster) _ _ (λ e. v)
          (λ m found.
            if_both P (not m.in_current_game || m.spectator_eligible) _ _ (λ e. v)
              (λ alive.
                mark_eliminated_member-Inv now by m.user_id m r v (numbered r v player_id m found)
                  (ground arith))))

-- Whoever may watch is in the line-up, so coming back from watching keeps it.
pub revive_for_training-Inv :
    {since : Room}
    → (now player_id : ℕ) (world : Bool) (r : Room) → Inv since r
    → Inv since (revive_for_training now player_id world r).0
unfolding revive_for_training
revive_for_training-Inv {since} now player_id world r v =
    let P = λ (x : Room × Bool). Inv since x.0 in
    if_both P (is_match r.options.mode || not (is_same (state_of r) playing)) _ _ (λ e. v)
      (λ trains.
        option_both P (get_by_player_id player_id r.roster) _ _ (λ e. v)
          (λ m found.
            if_both P (not m.spectator_eligible || not world) _ _ (λ e. v)
              (λ watches.
                broadcast_lobby_state-Inv
                  (broadcast_current_game-Inv
                    (with_roster-Inv v _ (
                      put_member-Fit (state_of r) r.start_snapshot r.kicked_users r.roster v.fit
                        m.user_id m (revived m) (numbered r v player_id m found)
                        (refl, refl, refl, refl, refl)
                        (λ a l.
                          let plays : m.in_current_game ≡ true = ground (arith, l.1) in
                          (ground (arith, l.0), refl, refl))))
                    _)
                  now)))

-- Whoever watches, or has stopped watching, does not play.
watching_role-waits : (b plays : Bool) → is_player (watching_role b) ≡ true → plays ≡ true
watching_role-waits true plays e = cc
watching_role-waits false plays e = cc

pub set_spectating-Inv :
    {since : Room}
    → (now : ℕ) (u : ActorId) (spectating : Bool) (r : Room) → Inv since r
    → Inv since (set_spectating now u spectating r).0
unfolding set_spectating
set_spectating-Inv {since} now u spectating r v =
    let P = λ (x : Room × Option ErrorCode). Inv since x.0 in
    if_both P (not (is_same (state_of r) playing)) _ _ (λ e. v)
      (λ plays.
        option_both P (member_of u r) _ _ (λ e. v)
          (λ m found.
            if_both P (not m.spectator_eligible) _ _ (λ e. v)
              (λ watches.
                if_both P (same_role m.role (watching_role spectating)) _ _ (λ e. v)
                  (λ changes.
                    broadcast_lobby_state-Inv
                      (broadcast_current_game-Inv
                        (put_kept-Inv r u m _ v found (refl, refl, refl, refl, refl) refl refl
                          (watching_role-waits spectating (is_player m.role)))
                        _)
                      now))))

pub accept_input-Inv :
    {since : Room}
    → (c : Connection) (input : InputState) (r : Room) → Inv since r
    → Inv since (accept_input c input r).0
unfolding accept_input
accept_input-Inv {since} c input r v =
    let P = λ (x : Room × Bool). Inv since x.0 in
    option_both P (member_of c.user_id r) _ _ (λ e. v)
      (λ m found.
        if_both P (may_play c m r && is_next input m.last_input_sequence) _ _
          (λ may.
            put_kept-Inv r c.user_id m _ v found (refl, refl, refl, refl, refl) refl refl (λ e. e))
          (λ no'. v))
