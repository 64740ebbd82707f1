-- ===== src/Rooms/Room/Joining.antt =====
-- Getting into a room (room.ts): a seat is reserved, the ticket is used, and a connection takes the seat; and a
-- connection that is lost leaves it for a while.
use sw_itch_remake.Base.{
  ℕ, ◌+◌, String, Bool, true, false, ◌&&◌, ◌||◌, not, Option, none, some, [], ◌∷◌, ◌==◌, leb,
  if◌then◌else◌, is_some, ite, String_discrete,
}
use sw_itch_remake.Types.{
  ActorId, RoomState, allocating, waiting, playing, closed, PlayerRole, player,
}
use sw_itch_remake.Gateway.Tickets.{SeatReservation}
use sw_itch_remake.Rooms.StateMachine.{is_same}
use sw_itch_remake.Rooms.StartLock.{apply_join}
use sw_itch_remake.Rooms.Roster.{
  LobbyMember, LobbyRoster, SeatHold, HoldResult, held, duplicate, full, hold, held_seat, claim,
  release_hold, occupied_size,
}
use sw_itch_remake.Rooms.Room.State.{
  ControlErrorCode, room_not_found, room_full, room_locked, bad_password, already_in_room,
  kicked_from_room, no_grace_slot, expired, Connection, player_reconnecting, player_eliminated,
  spectate_changed, connection_changed, participant_disconnected, directory_changed, Room, emit,
  state_of, with_roster, go_to, put_member, same_truth, is_kicked, member_of, in_snapshot,
}
use sw_itch_remake.Rooms.Room.Broadcast.{
  broadcast, broadcast_current_game, broadcast_lobby_state, replay_game_state,
  belongs_to_locked_game,
}
use sw_itch_remake.Rooms.Room.Closing.{close, remove_member}
use sw_itch_remake.Rooms.Room.Advance.{advance}

-- `passwordMatches` compares the digests.
abbrev pub password_accepted : Room → Option String → Bool
password_accepted r supplied = elim r.options.password [
  | none ↦ true
  | some expected ↦ elim supplied [
    | none ↦ false
    | some given ↦
        ite (String_discrete (r.options.digest expected) (r.options.digest given)) true false
  ]
]

abbrev pub is_here : SeatReservation → Room → Bool
is_here reservation r = ite (String_discrete reservation.room_id r.options.id) true false

-- The numbers that a newcomer may not have: those of the game that is running.
abbrev pub locked_numbers : Room → ℕ → Bool
locked_numbers r player_id = is_same (state_of r) playing && in_snapshot r.start_snapshot player_id

-- The answer to `hold`, and the room after it.
abbrev pub reserved : Room → LobbyRoster × HoldResult → Room × Option ControlErrorCode
reserved r (roster, held seat) = (emit (directory_changed ∷ []) (with_roster roster r), none)
reserved r (roster, duplicate) = (with_roster roster r, some already_in_room)
reserved r (roster, full) = (with_roster roster r, some room_full)

unfoldable pub reserve_open :
    ℕ → SeatReservation → Option String → Room → Room × Option ControlErrorCode
reserve_open now reservation password r =
    if is_same (state_of r) closed
    then (r, some room_not_found)
    else if not (is_here reservation r) || reservation.resume || leb reservation.expires_at now
    then (r, some expired)
    else if not (is_same (state_of r) waiting) && not (is_same (state_of r) playing) || r.locked
    then (r, some room_locked)
    else if is_kicked reservation.user_id r
    then (r, some kicked_from_room)
    else if not (password_accepted r password)
    then (r, some bad_password)
    else reserved r (hold reservation (locked_numbers r) r.roster)

unfoldable pub reserve_join :
    ℕ → SeatReservation → Option String → Room → Room × Option ControlErrorCode
reserve_join now reservation password r = reserve_open now reservation password (advance now r)

abbrev pub in_grace : ℕ → LobbyMember → Bool
in_grace now m = elim m.reconnect_until [ none ↦ false | some t ↦ not (leb t now) ]

-- `canReserveResume` after it has advanced the room.
unfoldable pub resume_refusal : ℕ → ActorId → Room → Option ControlErrorCode
resume_refusal now user_id r =
    if is_same (state_of r) closed then some room_not_found else elim (member_of user_id r) [
      | none ↦ some no_grace_slot
      | some m ↦
          if is_some m.connection || is_some m.admission_pending_until
          then some no_grace_slot
          else if in_grace now m
          then none
          else some no_grace_slot
    ]

unfoldable pub can_reserve_resume : ℕ → ActorId → Room → Room × Option ControlErrorCode
can_reserve_resume now user_id r = (advance now r, resume_refusal now user_id (advance now r))

pub record Admission : Type 0 where
  pub player_id : ℕ
  pub room_state : RoomState
  pub role : PlayerRole

abbrev pub admission : LobbyMember → Room → Admission
admission m r = record { player_id = m.player_id; room_state = state_of r; role = m.role }

-- The member comes back: the ticket stands until it expires.
unfoldable pub admit_resume : ℕ → SeatReservation → Room → Room × Option Admission
admit_resume now reservation r =
    let again = advance now r in
    elim (resume_refusal now reservation.user_id again) [
      | some e ↦ (again, none)
      | none ↦ elim (member_of reservation.user_id again) [
        | none ↦ (again, none)
        | some m ↦
            let waiting_member = record m {
              admission_pending_until = some reservation.expires_at;
            } in
            (
              with_roster (put_member waiting_member again.roster) again,
              some (admission waiting_member again),
            )
      ]
    ]

abbrev pub is_reservation_of : SeatHold → SeatReservation → Bool
is_reservation_of h reservation =
    h.reservation.issued_at == reservation.issued_at
    && h.reservation.expires_at == reservation.expires_at
    && ite (String_discrete h.reservation.server_id reservation.server_id) true false

abbrev pub joining_role : Room → PlayerRole
joining_role r = if is_same (state_of r) playing then PlayerRole.waiting else player

-- `ALLOCATING` ends with the first person.
abbrev pub opened : ℕ → Room → Room
opened now r = if is_same (state_of r) allocating then go_to waiting now r else r

abbrev pub seated : ℕ → LobbyRoster × Option LobbyMember → Room → Room × Option Admission
seated now (roster, none) r = (with_roster roster r, none)
seated now (roster, some m) r =
    let joined =
      opened now (record r { roster = roster; start_lock = (apply_join now r.start_lock).0 }) in
    let told = emit (directory_changed ∷ []) joined in (told, some (admission m told))

unfoldable pub admit_fresh : ℕ → SeatReservation → Room → Room × Option Admission
admit_fresh now reservation r =
    if not (is_same (state_of r) allocating)
      && not (is_same (state_of r) waiting)
      && not (is_same (state_of r) playing)
    then (r, none)
    else elim (held_seat reservation.user_id r.roster) [
      | none ↦ (r, none)
      | some h ↦
          if is_reservation_of h reservation
          then seated now (claim reservation.user_id now (joining_role r) r.roster) r
          else (r, none)
    ]

unfoldable pub admit_open : ℕ → SeatReservation → Room → Room × Option Admission
admit_open now reservation r =
    if not (is_here reservation r) || leb reservation.expires_at now || is_same (state_of r) closed
    then (r, none)
    else if reservation.resume
    then admit_resume now reservation r
    else admit_fresh now reservation r

-- `admitReservation`.
unfoldable pub admit_reservation : ℕ → SeatReservation → Room → Room × Option Admission
admit_reservation now reservation r = admit_open now reservation (advance now r)

abbrev pub is_connected_by : ℕ → LobbyMember → Bool
is_connected_by c m = elim m.connection [ none ↦ false | some d ↦ d == c ]

abbrev pub is_pending : ℕ → LobbyMember → Bool
is_pending now m = elim m.admission_pending_until [ none ↦ false | some t ↦ not (leb t now) ]

abbrev pub bound : Connection → LobbyMember → LobbyMember
bound c m = record m {
  connection = some c.id;
  admission_pending_until = none;
  reconnect_until = none;
  latest_input = none;
  last_input_sequence = none;
}

-- `bindConnection`, up to the task that it queues.
unfoldable pub bind_connection : ℕ → Connection → Room → Room × Bool
bind_connection now c r = elim (member_of c.user_id r) [
  | none ↦ (r, false)
  | some m ↦
      if not (m.player_id == c.player_id) || is_some m.connection || not (is_pending now m)
      then (r, false)
      else if not (same_truth c.resume (is_some m.reconnect_until))
      then (r, false)
      else (
        emit (connection_changed m.player_id true ∷ [])
            (with_roster (put_member (bound c m) r.roster) r),
        true,
      )
]

-- The queued task, which runs after the operation that bound the connection.
unfoldable pub welcome : ℕ → Connection → Room → Room
welcome now c r = elim (member_of c.user_id r) [
  | none ↦ r
  | some m ↦
      if not (is_connected_by c.id m) || is_same (state_of r) closed
      then r
      else let told = broadcast_lobby_state now r in
        if belongs_to_locked_game m told then replay_game_state c told else told
]

abbrev pub lost : ℕ → LobbyMember → LobbyMember
lost until m = record m {
  connection = none;
  admission_pending_until = none;
  reconnect_until = some until;
  latest_input = none;
}

abbrev pub fallen : LobbyMember → LobbyMember
fallen m = record m { spectator_eligible = true; role = PlayerRole.spectator; latest_input = none }

-- `#markEliminatedMember`.
unfoldable pub mark_eliminated_member : ℕ → LobbyMember → ℕ → Room → Room
mark_eliminated_member now m by r = broadcast_lobby_state now (
    broadcast_current_game (spectate_changed m.player_id true) (
      broadcast_current_game (player_eliminated m.player_id by)
        (with_roster (put_member (fallen m) r.roster) r)))

-- The connection of the member has gone: what the room says, and what it does to a player in a game.
unfoldable pub disconnect_member : ℕ → LobbyMember → Room → Room
disconnect_member now m r =
    let grace = r.options.timing.reconnect_grace_ms in
    let gone = lost (now + grace) m in
    let noted =
      emit (connection_changed m.player_id false ∷ []) (with_roster (put_member gone r.roster) r) in
    let notice = player_reconnecting m.player_id grace in
    let in_game = is_same (state_of r) playing && m.in_current_game in
    let told = if in_game then broadcast_current_game notice noted else broadcast notice noted in
    if in_game && not m.spectator_eligible
    then emit (participant_disconnected m.player_id ∷ [])
        (mark_eliminated_member now gone m.player_id told)
    else broadcast_lobby_state now told

unfoldable pub disconnect : ℕ → Connection → Room → Room
disconnect now c r = elim (member_of c.user_id r) [
  | none ↦ r
  | some m ↦ if is_connected_by c.id m then disconnect_member now m r else r
]

-- `releaseSeat`: a seat on hold is given up, or a member leaves.
unfoldable pub release_seat : ℕ → ActorId → String → Room → Room × Bool
release_seat now user_id reason r =
    let released = release_hold user_id r.roster in
    let freed = with_roster released.0 r in
    if released.1
    then (
      emit (directory_changed ∷ [])
          (if occupied_size freed.roster == 0 then close now freed else freed),
      true,
    )
    else remove_member now user_id reason true freed
