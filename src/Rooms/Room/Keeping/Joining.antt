-- ===== src/Rooms/Room/Keeping/Joining.antt =====
-- Seats, tickets and connections (room.ts) keep the invariant of a room.
use sw_itch_remake.Base.{
  ℕ, ◌≡◌, refl, String, Bool, true, false, ◌&&◌, ◌||◌, not, Option, none, some, ◌==◌, leb, arith,
  is_some, option_both, if_both,
}
use sw_itch_remake.Base.Maps.{get}
use sw_itch_remake.Types.{ActorId, ActorId-discrete, allocating, playing, waiting, closed}
use sw_itch_remake.Gateway.Tickets.{SeatReservation}
use sw_itch_remake.Rooms.StateMachine.{is_same}
use sw_itch_remake.Rooms.Roster.{
  LobbyMember, LobbyRoster, HoldResult, held, duplicate, full, held_seat, is_player,
}
use sw_itch_remake.Rooms.Room.State.{
  ControlErrorCode, Connection, Room, state_of, with_roster, put_member, same_truth, is_kicked,
  member_of,
}
use sw_itch_remake.Rooms.Room.Broadcast.{
  replay_game_state, broadcast_lobby_state, belongs_to_locked_game,
}
use sw_itch_remake.Rooms.Room.Advance.{advance}
use sw_itch_remake.Rooms.Room.Joining.{
  is_here, locked_numbers, reserved, reserve_open, reserve_join, password_accepted, resume_refusal,
  can_reserve_resume, Admission, admit_resume, is_reservation_of, joining_role, opened, seated,
  admit_fresh, admit_open, admit_reservation, is_connected_by, is_pending, bind_connection, welcome,
}
use sw_itch_remake.Rooms.Room.Seating.{Same}
use sw_itch_remake.Rooms.Room.Fit.{Fit, put_member-Fit}
use sw_itch_remake.Rooms.Room.Entering.{hold-Fit, claim-Fit, other_phase}
use sw_itch_remake.Rooms.Room.Invariant.{
  Inv, emit-Inv, broadcast_lobby_state-Inv, with_roster-Inv, go_to-Inv, is_same-eq,
}
use sw_itch_remake.Rooms.Room.Keeping.Time.{advance-Inv}

reserved-Inv :
    {since : Room}
    → (r : Room) (x : LobbyRoster × HoldResult) → Inv since r
    → Fit (state_of r) r.start_snapshot r.kicked_users x.0
    → Inv since (reserved r x).0
reserved-Inv r (roster, held seat) v f = emit-Inv (with_roster-Inv v roster f) _
reserved-Inv r (roster, duplicate) v f = with_roster-Inv v roster f
reserved-Inv r (roster, full) v f = with_roster-Inv v roster f

reserve_open-Inv :
    {since : Room}
    → (now : ℕ) (reservation : SeatReservation) (password : Option String) (r : Room) → Inv since r
    → Inv since (reserve_open now reservation password r).0
unfolding reserve_open
reserve_open-Inv {since} now reservation password r v =
    let P = λ (x : Room × Option ControlErrorCode). Inv since x.0 in
    if_both P (is_same (state_of r) closed) _ _ (λ e. v)
      (λ open'.
        if_both P
          (not (is_here reservation r) || reservation.resume || leb reservation.expires_at now) _ _
          (λ e. v)
          (λ timely.
            if_both P
              (not (is_same (state_of r) waiting) && not (is_same (state_of r) playing) || r.locked)
              _ _ (λ e. v)
              (λ phase.
                if_both P (is_kicked reservation.user_id r) _ _ (λ e. v)
                  (λ welcome'.
                    if_both P (not (password_accepted r password)) _ _ (λ e. v)
                      (λ known. reserved-Inv r _ v (
                        hold-Fit (state_of r) r.start_snapshot r.kicked_users r.roster v.fit
                          reservation (locked_numbers r) (ground arith) welcome'
                          (λ seat p b. ground arith)))))))

pub reserve_join-Inv :
    {since : Room}
    → (now : ℕ) (reservation : SeatReservation) (password : Option String) (r : Room) → Inv since r
    → Inv since (reserve_join now reservation password r).0
unfolding reserve_join
reserve_join-Inv now reservation password r v =
    reserve_open-Inv now reservation password (advance now r) (advance-Inv now r v)

pub can_reserve_resume-Inv :
    {since : Room}
    → (now : ℕ) (u : ActorId) (r : Room) → Inv since r
    → Inv since (can_reserve_resume now u r).0
unfolding can_reserve_resume
can_reserve_resume-Inv now u r v = advance-Inv now r v

-- A change of one member that leaves the person, the seat and the line-up.
pub put_kept-Inv :
    {since : Room}
    → (r : Room) (u : ActorId) (m m' : LobbyMember) → Inv since r
    → get ActorId-discrete u r.roster.members ≡ some m
    → Same m m'
    → m'.in_current_game ≡ m.in_current_game
    → m'.spectator_eligible ≡ m.spectator_eligible
    → (is_player m'.role ≡ true → is_player m.role ≡ true)
    → Inv since (with_roster (put_member m' r.roster) r)
put_kept-Inv r u m m' v found same game eligible plays = with_roster-Inv v _ (
    put_member-Fit (state_of r) r.start_snapshot r.kicked_users r.roster v.fit u m m' found same
      (λ a l. (ground (arith, same.1, l.0), ground (arith, l.1), ground (arith, l.2))))

admit_resume-Inv :
    {since : Room}
    → (now : ℕ) (reservation : SeatReservation) (r : Room) → Inv since r
    → Inv since (admit_resume now reservation r).0
unfolding admit_resume
admit_resume-Inv {since} now reservation r v =
    let again = advance-Inv now r v in
    let P = λ (x : Room × Option Admission). Inv since x.0 in
    option_both P (resume_refusal now reservation.user_id (advance now r)) _ _
      (λ may.
        option_both P (member_of reservation.user_id (advance now r)) _ _ (λ e. again)
          (λ m found.
            put_kept-Inv (advance now r) reservation.user_id m _ again found
              (refl, refl, refl, refl, refl) refl refl (λ e. e)))
      (λ refusal e. again)

opened-Inv : {since : Room} → (now : ℕ) (r : Room) → Inv since r → Inv since (opened now r)
opened-Inv now r v =
    if_both (Inv _) (is_same (state_of r) allocating) _ _
      (λ e. go_to-Inv waiting now r (rw (is_same-eq (state_of r) allocating e)) v.past tt (
        other_phase (state_of r) r.start_snapshot r.kicked_users r.roster v.fit waiting
          r.start_snapshot tt))
      (λ e. v)

seated-Inv :
    {since : Room}
    → (now : ℕ) (x : LobbyRoster × Option LobbyMember) (r : Room) → Inv since r
    → Fit (state_of r) r.start_snapshot r.kicked_users x.0
    → Inv since (seated now x r).0
seated-Inv now (roster, none) r v f = with_roster-Inv v roster f
seated-Inv now (roster, some m) r v f =
    emit-Inv (opened-Inv now _ (record { past = v.past; ready = v.ready; fit = f })) _

joining_role-waits :
    (r : Room) → is_same (state_of r) playing ≡ true → is_player (joining_role r) ≡ false
joining_role-waits r p = rw p

admit_fresh-Inv :
    {since : Room}
    → (now : ℕ) (reservation : SeatReservation) (r : Room) → Inv since r
    → Inv since (admit_fresh now reservation r).0
unfolding admit_fresh
admit_fresh-Inv {since} now reservation r v =
    let P = λ (x : Room × Option Admission). Inv since x.0 in
    if_both P
      (not (is_same (state_of r) allocating)
        && not (is_same (state_of r) waiting)
        && not (is_same (state_of r) playing))
      _ _ (λ e. v)
      (λ phase.
        option_both P (held_seat reservation.user_id r.roster) _ _ (λ e. v)
          (λ h found.
            if_both P (is_reservation_of h reservation) _ _
              (λ same. seated-Inv now _ r v (
                claim-Fit (state_of r) r.start_snapshot r.kicked_users r.roster v.fit
                  reservation.user_id now (joining_role r) (joining_role-waits r)))
              (λ other. v)))

pub admit_reservation-Inv :
    {since : Room}
    → (now : ℕ) (reservation : SeatReservation) (r : Room) → Inv since r
    → Inv since (admit_reservation now reservation r).0
unfolding admit_reservation admit_open
admit_reservation-Inv {since} now reservation r v =
    let after = advance-Inv now r v in
    let P = λ (x : Room × Option Admission). Inv since x.0 in
    if_both P
      (not (is_here reservation (advance now r))
        || leb reservation.expires_at now
        || is_same (state_of (advance now r)) closed)
      _ _ (λ e. after)
      (λ timely.
        if_both P reservation.resume _ _ (λ e. admit_resume-Inv now reservation _ after)
          (λ e. admit_fresh-Inv now reservation _ after))

pub bind_connection-Inv :
    {since : Room}
    → (now : ℕ) (c : Connection) (r : Room) → Inv since r
    → Inv since (bind_connection now c r).0
unfolding bind_connection
bind_connection-Inv {since} now c r v =
    let P = λ (x : Room × Bool). Inv since x.0 in
    option_both P (member_of c.user_id r) _ _ (λ e. v)
      (λ m found.
        if_both P
          (not (m.player_id == c.player_id) || is_some m.connection || not (is_pending now m)) _ _
          (λ e. v)
          (λ free.
            if_both P (not (same_truth c.resume (is_some m.reconnect_until))) _ _ (λ e. v)
              (λ right.
                emit-Inv
                  (put_kept-Inv r c.user_id m _ v found (refl, refl, refl, refl, refl) refl refl
                    (λ e. e))
                  _)))

replay_game_state-Inv :
    {since : Room} → (c : Connection) (r : Room) → Inv since r → Inv since (replay_game_state c r)
unfolding replay_game_state
replay_game_state-Inv c r v =
    option_both (Inv _) r.resume_starting _ _ (λ e. v)
      (λ starting e.
        option_both (Inv _) r.resume_started _ _ (λ e. emit-Inv v _) (λ started e. emit-Inv v _))

pub welcome-Inv :
    {since : Room}
    → (now : ℕ) (c : Connection) (r : Room) → Inv since r
    → Inv since (welcome now c r)
unfolding welcome
welcome-Inv now c r v =
    option_both (Inv _) (member_of c.user_id r) _ _ (λ e. v)
      (λ m found.
        if_both (Inv _) (not (is_connected_by c.id m) || is_same (state_of r) closed) _ _ (λ e. v)
          (λ here.
            let told = broadcast_lobby_state-Inv v now in
            if_both (Inv _) (belongs_to_locked_game m (broadcast_lobby_state now r)) _ _
              (λ e. replay_game_state-Inv c _ told) (λ e. told)))
