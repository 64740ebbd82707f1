-- ===== src/Rooms/Room/Entering.antt =====
-- Getting a seat, taking it, and changing it (lobby-state.ts, as room.ts calls it), in each phase of a room.
use sw_itch_remake.Base.{
  ℕ, ◌≡◌, refl, sym, ◌∙◌, ap, subst, Bool, true, false, Option, some, List, arith, inl, inr, All,
  leb, Option-cases, option_both, if_both,
}
use sw_itch_remake.Base.Maps.{get, delete, get-set, get-delete, All-set, All-delete, All-get}
use sw_itch_remake.Types.{
  ActorId, ActorId-discrete, RoomState, allocating, waiting, countdown, playing, post_game, closed,
  PlayerRole,
}
use sw_itch_remake.Gateway.Tickets.{SeatReservation}
use sw_itch_remake.Rooms.StateMachine.{is_same}
use sw_itch_remake.Rooms.Roster.{
  LobbyMember, LobbyRoster, SeatHold, HoldResult, hold, has_user, claim, seat_claimed,
  claimed_member, pass_host, move_slot, put_slot, reseated, is_player, first_free_seat,
}
use sw_itch_remake.Rooms.Roster.Seats.{first_free_seat-free}
use sw_itch_remake.Rooms.Roster.Holding.{put_hold-Inv, seat_claimed-Inv}
use sw_itch_remake.Rooms.Roster.Leaving.{pass_host-Inv}
use sw_itch_remake.Rooms.Roster.Moving.{move_slot-Inv}
use sw_itch_remake.Rooms.Room.State.{RoomStartSnapshot, in_snapshot, map_members}
use sw_itch_remake.Rooms.Room.Seating.{Same, map_members-seats, get-map_values}
use sw_itch_remake.Rooms.Room.Fit.{
  InLine, OffLine, Lined, is_banned, Absent, Fit, relined, unlined, drop_hold-Fit, put_hold-Fit,
}

module _ (st : RoomState) (s : Option RoomStartSnapshot) (kicked : List ActorId) (r : LobbyRoster)
    (h : Fit st s kicked r) where
  pub hold-Fit :
      (reservation : SeatReservation) (blocked : ℕ → Bool)
      → is_same st countdown ≡ false
      → is_banned reservation.user_id kicked ≡ false
      → ((seat : ℕ) → is_same st playing ≡ true → blocked seat ≡ false → in_snapshot s seat ≡ false)
      → Fit st s kicked (hold reservation blocked r).0
  unfolding hold
  hold-Fit reservation blocked open' welcome off =
      if_both (λ (x : LobbyRoster × HoldResult). Fit st s kicked x.0)
        (has_user reservation.user_id r) _ _ (λ known. h)
        (λ absent.
          option_both (λ (x : LobbyRoster × HoldResult). Fit st s kicked x.0)
            (first_free_seat blocked r) _ _ (λ full. h)
            (λ seat found.
              let (low, high, unblocked, free) = first_free_seat-free seat blocked r found in
              put_hold-Fit st s kicked r h reservation seat open' welcome
                (λ p. off seat p unblocked)
                (put_hold-Inv reservation seat r h.seats absent low high free)))

  claimed_line :
      (t : RoomState) (u : ActorId) (hold : SeatHold) (role : PlayerRole)
      → get ActorId-discrete u r.holds ≡ some hold
      → (is_same t playing ≡ true → is_player role ≡ false)
      → Lined t s r
      → Lined t s (seat_claimed u hold role r)
  unfolding seat_claimed delete
  claimed_line playing u hold role found w l =
      let off = All-get ActorId-discrete (OffLine s) u hold r.holds l.1 found in
      (
        All-set ActorId-discrete (InLine s) u (claimed_member u hold role r.join_order) r.members
            (w refl ∙ sym off, ground arith, ground (arith, w refl)) l.0,
        All-delete ActorId-discrete (OffLine s) u r.holds l.1,
      )
  claimed_line countdown u hold role found w l = ap (delete ActorId-discrete u) l
  claimed_line allocating u hold role found w l = tt
  claimed_line waiting u hold role found w l = tt
  claimed_line post_game u hold role found w l = tt
  claimed_line closed u hold role found w l = tt

  seat_claimed-Fit :
      (u : ActorId) (hold : SeatHold) (role : PlayerRole)
      → get ActorId-discrete u r.holds ≡ some hold
      → (is_same st playing ≡ true → is_player role ≡ false)
      → Fit st s kicked (seat_claimed u hold role r)
  unfolding seat_claimed
  seat_claimed-Fit u hold role found w = record {
    seats = seat_claimed-Inv u hold role r h.seats found;
    banned = λ x b. (
      ground (arith, h.banned x b, get-delete ActorId-discrete x u r.holds),
      ground (
        arith,
        h.banned x b,
        get-set ActorId-discrete x u (claimed_member u hold role r.join_order) r.members,
      ),
    );
    lined = claimed_line st u hold role found w h.lined;
  }

  pub claim-Fit :
      (u : ActorId) (now : ℕ) (role : PlayerRole)
      → (is_same st playing ≡ true → is_player role ≡ false)
      → Fit st s kicked (claim u now role r).0
  unfolding claim
  claim-Fit u now role w =
      option_both (λ (x : LobbyRoster × Option LobbyMember). Fit st s kicked x.0)
        (get ActorId-discrete u r.holds) _ _ (λ e. h)
        (λ hold found.
          if_both (λ (x : LobbyRoster × Option LobbyMember). Fit st s kicked x.0)
            (leb hold.reservation.expires_at now) _ _ (λ late. drop_hold-Fit st s kicked r h u)
            (λ live. seat_claimed-Fit u hold role found w))

  pub pass_host-Fit :
      (requester : ActorId) (player_id : ℕ) → Fit st s kicked (pass_host requester player_id r).0
  pass_host-Fit requester player_id =
      let parts = pass_host-parts in
      record {
        seats = pass_host-Inv requester player_id r h.seats;
        banned = λ w b. rw (parts.0, parts.1) (h.banned w b);
        lined =
            relined st s r (pass_host requester player_id r).0
              (λ a. subst (All (InLine s)) (sym parts.1) a)
              (λ a. subst (All (OffLine s)) (sym parts.0) a) (λ e. parts.0 ∙ e) h.lined;
      }
    where
      pass_host-parts :
          ((pass_host requester player_id r).0.holds ≡ r.holds)
          × ((pass_host requester player_id r).0.members ≡ r.members)
      pass_host-parts = unfold pass_host in ground arith

  -- Only outside a countdown and a game.
  pub move_slot-Fit :
      (u : ActorId) (target : ℕ)
      → is_same st playing ≡ false
      → is_same st countdown ≡ false
      → Fit st s kicked (move_slot u target r).0
  move_slot-Fit u target p c = record {
    seats = move_slot-Inv u target r h.seats;
    banned = λ w b. move_slot-Absent w (h.banned w b);
    lined = unlined st s _ p c;
  }
    where
      move_slot-Absent : (w : ActorId) → Absent w r → Absent w (move_slot u target r).0
      move_slot-Absent w a =
          unfold move_slot put_slot in
          (
            ground arith,
            elim (Option-cases (get ActorId-discrete u r.members)) [
              | inl e ↦ rw (e, move_slot) a.1
              | inr (m, e) ↦
                  ground (arith, get-set ActorId-discrete w u (reseated target m) r.members, a.1)
            ],
          )

  -- All members change, and the phase with them.
  pub map_members-Fit :
      (g : LobbyMember → LobbyMember) (t : RoomState) (s' : Option RoomStartSnapshot)
      → ((m : LobbyMember) → Same m (g m))
      → Lined t s' (map_members g r)
      → Fit t s' kicked (map_members g r)
  map_members-Fit g t s' k l = record {
    seats = map_members-seats g k r h.seats;
    banned =
        λ w b. ((h.banned w b).0, ground (arith, h.banned w b, get-map_values g k w r.members));
    lined = l;
  }

  -- The phase changes, and the room with it only if nobody is lined up.
  pub other_phase :
      (t : RoomState) (s' : Option RoomStartSnapshot) → Lined t s' r → Fit t s' kicked r
  other_phase t s' l = record { seats = h.seats; banned = h.banned; lined = l }
