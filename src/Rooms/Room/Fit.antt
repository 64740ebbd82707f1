-- ===== src/Rooms/Room/Fit.antt =====
-- What holds of the people in a room (room.ts) in each phase: their seats, those who were kicked, and the
-- line-up of the game. Each operation of the roster keeps it.
use sw_itch_remake.Base.{
  ℕ, ◌≡◌, refl, sym, ◌∙◌, ap, subst, Bool, true, false, ◌||◌, not, Option, none, some, List, [],
  arith, any, filter, All, All-filter, option_both,
}
use sw_itch_remake.Base.Maps.{
  get, delete, get-set, get-delete, All-set, All-delete, All-get, get-filter_absent,
}
use sw_itch_remake.Types.{
  ActorId, ActorId-discrete, RoomState, allocating, waiting, countdown, playing, post_game, closed,
}
use sw_itch_remake.Gateway.Tickets.{SeatReservation}
use sw_itch_remake.Rooms.StateMachine.{is_same}
use sw_itch_remake.Rooms.Roster.{
  LobbyMember, LobbyRoster, SeatHold, put_hold, drop_hold, clear_holds, purge_expired_holds,
  is_live_hold, remove, Removed, without, is_excepted, is_player,
}
use sw_itch_remake.Rooms.Roster.Invariant.{IsMemberEntry, Inv}
use sw_itch_remake.Rooms.Roster.Holding.{drop_hold-Inv, purge_expired_holds-Inv, clear_holds-Inv}
use sw_itch_remake.Rooms.Roster.Leaving.{without-Inv}
use sw_itch_remake.Rooms.Room.State.{RoomStartSnapshot, in_snapshot, put_member}
use sw_itch_remake.Rooms.Room.Seating.{Same, put_member-seats}

-- In a game, the line-up is exactly the players of its start snapshot, and nobody else has or gets one of their
-- numbers. Only they can be spectators, or play.
abbrev pub InLine : Option RoomStartSnapshot → ActorId × LobbyMember → Type 0
InLine s e =
    (e.1.in_current_game ≡ in_snapshot s e.1.player_id)
    × ((e.1.in_current_game || not e.1.spectator_eligible) ≡ true)
    × ((e.1.in_current_game || not (is_player e.1.role)) ≡ true)

abbrev pub OffLine : Option RoomStartSnapshot → ActorId × SeatHold → Type 0
OffLine s e = in_snapshot s e.1.player_id ≡ false

abbrev pub Lined : RoomState → Option RoomStartSnapshot → LobbyRoster → Type 0
Lined playing s r = All (InLine s) r.members × All (OffLine s) r.holds
Lined countdown s r = r.holds ≡ []
Lined allocating s r = Unit
Lined waiting s r = Unit
Lined post_game s r = Unit
Lined closed s r = Unit

abbrev pub is_banned : ActorId → List ActorId → Bool
is_banned u kicked = any (λ k. is_excepted k (some u)) kicked

abbrev pub Absent : ActorId → LobbyRoster → Type 0
Absent u r = (get ActorId-discrete u r.holds ≡ none) × (get ActorId-discrete u r.members ≡ none)

pub record Fit (st : RoomState) (s : Option RoomStartSnapshot) (kicked : List ActorId)
    (r : LobbyRoster) : Type 0 where
  pub seats : Inv r
  pub banned : (u : ActorId) → is_banned u kicked ≡ true → Absent u r
  pub lined : Lined st s r

-- From one roster to the next, in every phase.
pub relined :
    (st : RoomState) (s : Option RoomStartSnapshot) (r r' : LobbyRoster)
    → (All (InLine s) r.members → All (InLine s) r'.members)
    → (All (OffLine s) r.holds → All (OffLine s) r'.holds)
    → (r.holds ≡ [] → r'.holds ≡ [])
    → Lined st s r
    → Lined st s r'
relined playing s r r' f g k h = (f h.0, g h.1)
relined countdown s r r' f g k h = k h
relined allocating s r r' f g k h = tt
relined waiting s r r' f g k h = tt
relined post_game s r r' f g k h = tt
relined closed s r r' f g k h = tt

-- Outside a countdown and a game the line-up asks nothing.
pub unlined :
    (st : RoomState) (s : Option RoomStartSnapshot) (r : LobbyRoster)
    → is_same st playing ≡ false
    → is_same st countdown ≡ false
    → Lined st s r
unlined playing s r p c = cc
unlined countdown s r p c = cc
unlined allocating s r p c = tt
unlined waiting s r p c = tt
unlined post_game s r p c = tt
unlined closed s r p c = tt

module _ (st : RoomState) (s : Option RoomStartSnapshot) (kicked : List ActorId) (r : LobbyRoster)
    (h : Fit st s kicked r) where
  pub drop_hold-Fit : (u : ActorId) → Fit st s kicked (drop_hold u r)
  unfolding delete
  drop_hold-Fit u = record {
    seats = drop_hold-Inv u r h.seats;
    banned = λ w b.
        (ground (arith, h.banned w b, get-delete ActorId-discrete w u r.holds), (h.banned w b).1);
    lined =
        relined st s r _ (λ a. a) (All-delete ActorId-discrete (OffLine s) u r.holds)
          (λ e. ap (delete ActorId-discrete u) e) h.lined;
  }

  pub clear_holds-Fit : Fit st s kicked (clear_holds r)
  unfolding clear_holds get
  clear_holds-Fit = record {
    seats = clear_holds-Inv r h.seats;
    banned = λ w b. (refl, (h.banned w b).1);
    lined = relined st s r _ (λ a. a) (λ a. tt) (λ e. refl) h.lined;
  }

  pub purge_expired_holds-Fit : (now : ℕ) → Fit st s kicked (purge_expired_holds now r).0
  unfolding purge_expired_holds
  purge_expired_holds-Fit now = record {
    seats = purge_expired_holds-Inv now r h.seats;
    banned = λ w b. (
      get-filter_absent ActorId-discrete (is_live_hold now) w r.holds (h.banned w b).0,
      (h.banned w b).1,
    );
    lined =
        relined st s r _ (λ a. a) (All-filter (OffLine s) (is_live_hold now) r.holds)
          (λ e. ap (filter (is_live_hold now)) e) h.lined;
  }

  pub without-parts :
      (u : ActorId)
      → ((without u r).members ≡ delete ActorId-discrete u r.members)
        × ((without u r).holds ≡ r.holds)
  unfolding without
  without-parts u = ground arith

  pub without-Fit : (u : ActorId) → Fit st s kicked (without u r)
  without-Fit u =
      let parts = without-parts u in
      record {
        seats = without-Inv u r h.seats;
        banned = λ w b. (
          rw parts.1 (h.banned w b).0,
          rw parts.0 (ground (arith, h.banned w b, get-delete ActorId-discrete w u r.members)),
        );
        lined =
            relined st s r (without u r)
              (λ a.
                subst (All (InLine s)) (sym parts.0)
                  (All-delete ActorId-discrete (InLine s) u r.members a))
              (λ a. subst (All (OffLine s)) (sym parts.1) a) (λ e. parts.1 ∙ e) h.lined;
      }

  pub remove-Fit : (u : ActorId) → Fit st s kicked (remove u r).0
  unfolding remove
  remove-Fit u =
      option_both (λ (x : LobbyRoster × Option Removed). Fit st s kicked x.0)
        (get ActorId-discrete u r.members) _ _ (λ e. h) (λ m e. without-Fit u)

  -- An update of a member who is there.
  pub put_member-Fit :
      (u : ActorId) (m m' : LobbyMember)
      → get ActorId-discrete u r.members ≡ some m
      → Same m m'
      → (All (InLine s) r.members → InLine s (u, m) → InLine s (m'.user_id, m'))
      → Fit st s kicked (put_member m' r)
  put_member-Fit u m m' found same kept =
      let key : m'.user_id ≡ u =
        same.0
        ∙ (All-get ActorId-discrete (IsMemberEntry r.capacity r.join_order) u m r.members
            h.seats.member_entries found).0 in
      let here : get ActorId-discrete m'.user_id r.members ≡ some m = rw key found in
      record {
        seats = put_member-seats r h.seats u m m' found same;
        banned = λ w b. (
          (h.banned w b).0,
          ground (arith, h.banned w b, here, get-set ActorId-discrete w m'.user_id m' r.members),
        );
        lined =
            relined st s r _
              (λ a.
                All-set ActorId-discrete (InLine s) m'.user_id m' r.members
                  (kept a (All-get ActorId-discrete (InLine s) u m r.members a found)) a)
              (λ a. a) (λ e. e) h.lined;
      }

  -- A newcomer gets a seat on hold: not in a countdown, and in a game not on one of its numbers.
  pub put_hold-Fit :
      (reservation : SeatReservation) (seat : ℕ)
      → is_same st countdown ≡ false
      → is_banned reservation.user_id kicked ≡ false
      → (is_same st playing ≡ true → in_snapshot s seat ≡ false)
      → Inv (put_hold reservation seat r)
      → Fit st s kicked (put_hold reservation seat r)
  unfolding put_hold
  put_hold-Fit reservation seat open' welcome off seats = record {
    seats = seats;
    banned = λ w b. (
      elim (ActorId-discrete reservation.user_id w) [
        | yes e ↦ absurd (cc (subst (λ x. is_banned x kicked ≡ true) (sym e) b, welcome))
        | no ne ↦ ground (
          arith,
          h.banned w b,
          get-set ActorId-discrete w reservation.user_id
              (record { reservation = reservation; player_id = seat; slot = seat }) r.holds,
        )
      ],
      (h.banned w b).1,
    );
    lined = held_line st open' off h.lined;
  }
    where
      held_line :
          (t : RoomState)
          → is_same t countdown ≡ false
          → (is_same t playing ≡ true → in_snapshot s seat ≡ false)
          → Lined t s r
          → Lined t s (put_hold reservation seat r)
      held_line playing c o l = (
        l.0,
        All-set ActorId-discrete (OffLine s) reservation.user_id
            (record { reservation = reservation; player_id = seat; slot = seat }) r.holds (o refl)
            l.1,
      )
      held_line countdown c o l = cc
      held_line allocating c o l = tt
      held_line waiting c o l = tt
      held_line post_game c o l = tt
      held_line closed c o l = tt
