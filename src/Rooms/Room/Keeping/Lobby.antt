-- ===== src/Rooms/Room/Keeping/Lobby.antt =====
-- What people do in the lobby (room.ts) keeps the invariant of a room.
use sw_itch_remake.Base.{
  ℕ, refl, String, String_discrete, Bool, true, false, not, Option, some, arith, option_both,
  if_both, ite_both,
}
use sw_itch_remake.Types.{ActorId}
use sw_itch_remake.Protocol.Skills.{SkillId, SkillId-discrete}
use sw_itch_remake.Rooms.Roster.{
  LobbyRoster, PlayerControl, MoveSlotResult, moved, not_found, out_of_range, occupied, is_player,
}
use sw_itch_remake.Rooms.Room.State.{ErrorCode, Room, state_of, with_roster, put_member, member_of}
use sw_itch_remake.Rooms.Room.Lobby.{
  host_refusal, hosted, pass_host_to, differs, set_locked, set_map, lobby_editable, set_loadout,
  has_control, set_control, moved_to, move_member,
}
use sw_itch_remake.Rooms.Room.Fit.{Fit}
use sw_itch_remake.Rooms.Room.Entering.{pass_host-Fit, move_slot-Fit}
use sw_itch_remake.Rooms.Room.Invariant.{
  Inv, emit-Inv, broadcast-Inv, broadcast_lobby_state-Inv, with_roster-Inv,
}
use sw_itch_remake.Rooms.Room.Keeping.Joining.{put_kept-Inv}

hosted-Inv :
    {since : Room}
    → (now player_id : ℕ) (x : LobbyRoster × Bool) (r : Room) → Inv since r
    → Fit (state_of r) r.start_snapshot r.kicked_users x.0
    → Inv since (hosted now player_id x r).0
hosted-Inv now player_id (roster, false) r v f = with_roster-Inv v roster f
hosted-Inv now player_id (roster, true) r v f =
    emit-Inv (broadcast_lobby_state-Inv (broadcast-Inv (with_roster-Inv v roster f) _) now) _

-- What the host does, and may do.
abbrev Answered : Room → Room × Option ErrorCode → Type 0
Answered since x = Inv since x.0

pub pass_host_to-Inv :
    {since : Room}
    → (now : ℕ) (requester : ActorId) (player_id : ℕ) (r : Room) → Inv since r
    → Inv since (pass_host_to now requester player_id r).0
unfolding pass_host_to
pass_host_to-Inv {since} now requester player_id r v =
    option_both (Answered since) (host_refusal requester r) _ _
      (λ may. hosted-Inv now player_id _ r v (
        pass_host-Fit (state_of r) r.start_snapshot r.kicked_users r.roster v.fit requester
          player_id))
      (λ refusal e. v)

pub set_locked-Inv :
    {since : Room}
    → (now : ℕ) (requester : ActorId) (locked : Bool) (r : Room) → Inv since r
    → Inv since (set_locked now requester locked r).0
unfolding set_locked
set_locked-Inv {since} now requester locked r v =
    option_both (Answered since) (host_refusal requester r) _ _
      (λ may.
        if_both (Inv _) (differs r.locked locked) _ _
          (λ e.
            emit-Inv
              (broadcast_lobby_state-Inv (record { past = v.past; ready = v.ready; fit = v.fit })
                now)
              _)
          (λ e. v))
      (λ refusal e. v)

pub set_map-Inv :
    {since : Room}
    → (now : ℕ) (requester : ActorId) (map_id : String) (r : Room) → Inv since r
    → Inv since (set_map now requester map_id r).0
unfolding set_map
set_map-Inv {since} now requester map_id r v =
    option_both (Answered since) (host_refusal requester r) _ _
      (λ may.
        if_both (Answered since) (not (r.options.is_known_map map_id r.options.mode)) _ _ (λ e. v)
          (λ known.
            ite_both (Inv _) (String_discrete map_id r.map_id) _ _ (λ e. v)
              (λ e.
                emit-Inv
                  (broadcast_lobby_state-Inv
                    (record { past = v.past; ready = v.ready; fit = v.fit }) now)
                  _)))
      (λ refusal e. v)

pub set_loadout-Inv :
    {since : Room}
    → (now : ℕ) (u : ActorId) (loadout : SkillId) (r : Room) → Inv since r
    → Inv since (set_loadout now u loadout r).0
unfolding set_loadout
set_loadout-Inv {since} now u loadout r v =
    if_both (Answered since) (not (lobby_editable r)) _ _ (λ e. v)
      (λ open'.
        option_both (Answered since) (member_of u r) _ _ (λ e. v)
          (λ m found.
            if_both (Answered since) (not (is_player m.role)) _ _ (λ e. v)
              (λ plays.
                ite_both (Inv _) (SkillId-discrete m.loadout loadout) _ _ (λ e. v)
                  (λ e.
                    broadcast_lobby_state-Inv
                      (put_kept-Inv r u m _ v found (refl, refl, refl, refl, refl) refl refl
                        (λ e. e))
                      now))))

pub set_control-Inv :
    {since : Room}
    → (now : ℕ) (u : ActorId) (control : PlayerControl) (r : Room) → Inv since r
    → Inv since (set_control now u control r).0
unfolding set_control
set_control-Inv {since} now u control r v =
    option_both (Answered since) (member_of u r) _ _ (λ e. v)
      (λ m found.
        let changed =
          put_kept-Inv r u m (record m { control = some control }) v found
            (refl, refl, refl, refl, refl) refl refl (λ e. e) in
        if_both (Inv _) (has_control control m.control) _ _ (λ e. v)
          (λ e.
            if_both (Inv _)
              (lobby_editable
                (with_roster (put_member (record m { control = some control }) r.roster) r))
              _ _ (λ e. broadcast_lobby_state-Inv changed now) (λ e. changed)))

moved_to-Inv :
    {since : Room}
    → (now : ℕ) (x : LobbyRoster × MoveSlotResult) (r : Room) → Inv since r
    → Fit (state_of r) r.start_snapshot r.kicked_users x.0
    → Inv since (moved_to now x r).0
moved_to-Inv now (roster, moved) r v f = broadcast_lobby_state-Inv (with_roster-Inv v roster f) now
moved_to-Inv now (roster, not_found) r v f = with_roster-Inv v roster f
moved_to-Inv now (roster, out_of_range) r v f = with_roster-Inv v roster f
moved_to-Inv now (roster, occupied) r v f = with_roster-Inv v roster f

pub move_member-Inv :
    {since : Room}
    → (now : ℕ) (u : ActorId) (slot : ℕ) (r : Room) → Inv since r
    → Inv since (move_member now u slot r).0
unfolding move_member
move_member-Inv {since} now u slot r v =
    if_both (λ (x : Room × Option MoveSlotResult). Inv since x.0) (not (lobby_editable r)) _ _
      (λ e. v)
      (λ open'. moved_to-Inv now _ r v (
        move_slot-Fit (state_of r) r.start_snapshot r.kicked_users r.roster v.fit u slot
          (ground arith) (ground arith)))
