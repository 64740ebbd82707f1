-- ===== src/Rooms/Roster/Holding.antt =====
-- Holding a seat, giving it up, letting it expire and taking it (lobby-state.ts) keep the invariant.
use sw_itch_remake.Base.{
  ℕ, ◌+◌, ◌≤◌, ◌≡◌, refl, Bool, false, none, some, List, [], arith, inl, inr, leb, count,
  count-filter-le, filter, All, All-filter, Bool-cases, Option-cases,
}
use sw_itch_remake.Base.Maps.{
  get, delete, get-set, get-delete, Unique, set-Unique, delete-Unique, filter-Unique, count-set,
  count-delete, All-set, All-delete, All-get, get-filter_found,
}
use sw_itch_remake.Types.{ActorId, ActorId-discrete, PlayerRole}
use sw_itch_remake.Gateway.Tickets.{SeatReservation}
use sw_itch_remake.Rooms.Roster.{
  SeatHold, LobbyMember, LobbyRoster, hold_at, member_at, first_free_seat, has_user, hold, put_hold,
  claim, seat_claimed, claimed_member, drop_hold, clear_holds, is_live_hold, purge_expired_holds,
}
use sw_itch_remake.Rooms.Roster.Invariant.{IsHoldEntry, IsMemberEntry, Inv, later_order, found-set}
use sw_itch_remake.Rooms.Roster.Seats.{sitting, first_free_seat-free}

module _ (reservation : SeatReservation) (seat : ℕ) (r : LobbyRoster) (v : Inv r) where
  abbrev the_hold : SeatHold
  the_hold = record { reservation = reservation; player_id = seat; slot = seat }

  pub put_hold-Inv :
      has_user reservation.user_id r ≡ false
      → 1 ≤ seat
      → seat ≤ r.capacity
      → sitting seat r ≡ 0
      → Inv (put_hold reservation seat r)
  unfolding put_hold sitting has_user
  put_hold-Inv absent low high free = record {
    some_seat = v.some_seat;
    few_seats = v.few_seats;
    unique_holds = set-Unique ActorId-discrete reservation.user_id the_hold r.holds v.unique_holds;
    unique_members = v.unique_members;
    hold_entries =
        All-set ActorId-discrete (IsHoldEntry r.capacity) reservation.user_id the_hold r.holds
          (refl, refl, low, high) v.hold_entries;
    member_entries = v.member_entries;
    apart = λ u h e.
        ground
          (arith, get-set ActorId-discrete u reservation.user_id the_hold r.holds, v.apart u h);
    one_per_seat = λ s. ground (
      arith,
      v.one_per_seat s,
      count-set ActorId-discrete (hold_at s none) reservation.user_id the_hold r.holds,
    );
    host_present = v.host_present;
  }

pub hold-Inv :
    (reservation : SeatReservation) (blocked : ℕ → Bool) (r : LobbyRoster)
    → Inv r
    → Inv (hold reservation blocked r).0
unfolding hold
hold-Inv reservation blocked r v = elim (Bool-cases (has_user reservation.user_id r)) [
  | inl known ↦ rw known v
  | inr absent ↦ elim (Option-cases (first_free_seat blocked r)) [
    | inl none' ↦ rw (absent, none', hold) v
    | inr (seat, found) ↦
        let (low, high, open', free) = first_free_seat-free seat blocked r found in
        rw (absent, found, hold) (put_hold-Inv reservation seat r v absent low high free)
  ]
]

-- Fewer holds: what a key finds was there, and no seat has more of them.
abbrev Fewer : List (ActorId × SeatHold) → List (ActorId × SeatHold) → Type 0
Fewer less more =
    ((u : ActorId) (h : SeatHold)
      → get ActorId-discrete u less ≡ some h
      → get ActorId-discrete u more ≡ some h)
    × ((seat : ℕ) → count (hold_at seat none) less ≤ count (hold_at seat none) more)

Fewer-holds-Inv :
    (r : LobbyRoster) (less : List (ActorId × SeatHold))
    → Inv r
    → Unique ActorId-discrete less
    → All (IsHoldEntry r.capacity) less
    → Fewer less r.holds
    → Inv (record r { holds = less })
unfolding sitting
Fewer-holds-Inv r less v u a f = record {
  some_seat = v.some_seat;
  few_seats = v.few_seats;
  unique_holds = u;
  unique_members = v.unique_members;
  hold_entries = a;
  member_entries = v.member_entries;
  apart = λ w h e. v.apart w h (f.0 w h e);
  one_per_seat = λ s. omega (arith, v.one_per_seat s, f.1 s);
  host_present = v.host_present;
}

pub drop_hold-Inv : (u : ActorId) (r : LobbyRoster) → Inv r → Inv (drop_hold u r)
drop_hold-Inv u r v =
    Fewer-holds-Inv r (delete ActorId-discrete u r.holds) v
      (delete-Unique ActorId-discrete u r.holds v.unique_holds)
      (All-delete ActorId-discrete (IsHoldEntry r.capacity) u r.holds v.hold_entries)
      (
        λ w h e. ground (arith, get-delete ActorId-discrete w u r.holds),
        λ s. omega (arith, count-delete ActorId-discrete (hold_at s none) u r.holds v.unique_holds),
      )

pub purge_expired_holds-Inv :
    (now : ℕ) (r : LobbyRoster) → Inv r → Inv (purge_expired_holds now r).0
unfolding purge_expired_holds
purge_expired_holds-Inv now r v =
    Fewer-holds-Inv r (filter (is_live_hold now) r.holds) v
      (filter-Unique ActorId-discrete (is_live_hold now) r.holds v.unique_holds)
      (All-filter (IsHoldEntry r.capacity) (is_live_hold now) r.holds v.hold_entries)
      (
        λ w h e.
            (get-filter_found ActorId-discrete (is_live_hold now) w h r.holds v.unique_holds e).0,
        λ s. count-filter-le (hold_at s none) (is_live_hold now) r.holds,
      )

pub clear_holds-Inv : (r : LobbyRoster) → Inv r → Inv (clear_holds r)
unfolding clear_holds get
clear_holds-Inv r v = Fewer-holds-Inv r [] v tt tt (λ w h e. cc, λ s. omega arith)

module _ (u : ActorId) (h : SeatHold) (role : PlayerRole) (r : LobbyRoster) (v : Inv r)
    (found : get ActorId-discrete u r.holds ≡ some h) where
  abbrev newcomer : LobbyMember
  newcomer = claimed_member u h role r.join_order

  entry : IsHoldEntry r.capacity (u, h)
  entry = All-get ActorId-discrete (IsHoldEntry r.capacity) u h r.holds v.hold_entries found

  pub seat_claimed-Inv : Inv (seat_claimed u h role r)
  unfolding seat_claimed sitting
  seat_claimed-Inv =
      let dropped = drop_hold-Inv u r v in
      record {
        some_seat = v.some_seat;
        few_seats = v.few_seats;
        unique_holds = dropped.unique_holds;
        unique_members = set-Unique ActorId-discrete u newcomer r.members v.unique_members;
        hold_entries = dropped.hold_entries;
        member_entries =
            All-set ActorId-discrete (IsMemberEntry r.capacity (r.join_order + 1)) u newcomer
              r.members (refl, entry.1, entry.2, entry.3, omega (arith, entry), omega arith)
              (later_order r.capacity r.join_order (r.join_order + 1) r.members (omega arith)
                v.member_entries);
        apart = λ w k e. ground (
          arith,
          get-set ActorId-discrete w u newcomer r.members,
          get-delete ActorId-discrete w u r.holds,
          v.apart w k,
        );
        one_per_seat = λ s. ground (
          arith,
          v.one_per_seat s,
          v.apart u h found,
          count-set ActorId-discrete (member_at s none) u newcomer r.members,
          count-delete ActorId-discrete (hold_at s none) u r.holds v.unique_holds,
        );
        host_present = λ w e. found-set u w newcomer r.members (elim (Option-cases r.host_user_id) [
          | inl nobody ↦ inl (ground arith)
          | inr (a, host) ↦ inr (v.host_present w (ground arith))
        ]);
      }

pub claim-Inv :
    (u : ActorId) (now : ℕ) (role : PlayerRole) (r : LobbyRoster)
    → Inv r
    → Inv (claim u now role r).0
unfolding claim
claim-Inv u now role r v = elim (Option-cases (get ActorId-discrete u r.holds)) [
  | inl absent ↦ rw (absent, claim) v
  | inr (h, found) ↦ elim (Bool-cases (leb h.reservation.expires_at now)) [
    | inl late ↦ rw (found, claim, late) (drop_hold-Inv u r v)
    | inr live ↦ rw (found, claim, live) (seat_claimed-Inv u h role r v found)
  ]
]
