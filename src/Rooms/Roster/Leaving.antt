-- ===== src/Rooms/Roster/Leaving.antt =====
-- Leaving a room and passing the host on (lobby-state.ts) keep the invariant.
use sw_itch_remake.Base.{ℕ, ◌≡◌, Option, none, some, arith, inl, inr, All, Bool-cases, Option-cases}
use sw_itch_remake.Base.Maps.{get, delete, get-delete, delete-Unique, count-delete, All-delete}
use sw_itch_remake.Types.{ActorId, ActorId-discrete}
use sw_itch_remake.Rooms.Roster.{
  LobbyMember, LobbyRoster, member_at, members_in_order, get_by_player_id, first_user, without,
  pass_host, is_host,
}
use sw_itch_remake.Rooms.Roster.Invariant.{IsMemberEntry, Inv, keyed}
use sw_itch_remake.Rooms.Roster.Seats.{
  sitting, IsKeyed, get_by_player_id-Present, first_user-Present, members_in_order-Present,
}

-- The room without a member, and with whatever host is left.
module _ (u : ActorId) (r : LobbyRoster) (v : Inv r) (host : Option ActorId) where
  abbrev left_by : LobbyRoster
  left_by = record r { members = delete ActorId-discrete u r.members; host_user_id = host }

  left_by-Inv :
      ((w : ActorId)
        → host ≡ some w
        → (m : LobbyMember) × (get ActorId-discrete w left_by.members ≡ some m))
      → Inv left_by
  unfolding sitting
  left_by-Inv present = record {
    some_seat = v.some_seat;
    few_seats = v.few_seats;
    unique_holds = v.unique_holds;
    unique_members = delete-Unique ActorId-discrete u r.members v.unique_members;
    hold_entries = v.hold_entries;
    member_entries =
        All-delete ActorId-discrete (IsMemberEntry r.capacity r.join_order) u r.members
          v.member_entries;
    apart = λ w h e. ground (arith, get-delete ActorId-discrete w u r.members, v.apart w h);
    one_per_seat = λ s. omega (
      arith,
      v.one_per_seat s,
      count-delete ActorId-discrete (member_at s none) u r.members v.unique_members,
    );
    host_present = present;
  }

pub without-Inv : (u : ActorId) (r : LobbyRoster) → Inv r → Inv (without u r)
unfolding without
without-Inv u r v = elim (Bool-cases (is_host u r)) [
  | inl leaving ↦ rw leaving (
      left_by-Inv u r v (first_user (members_in_order rest)) λ w e.
        first_user-Present rest (delete-Unique ActorId-discrete u r.members v.unique_members)
          left_keyed w (members_in_order rest)
          (members_in_order-Present rest
            (delete-Unique ActorId-discrete u r.members v.unique_members) left_keyed)
          e)
  | inr stays ↦ rw stays (
      left_by-Inv u r v r.host_user_id λ w e.
        let (m, found) = v.host_present w e in
        (m, ground (arith, get-delete ActorId-discrete w u r.members)))
]
  where
    rest : LobbyRoster
    rest = record r { members = delete ActorId-discrete u r.members }

    left_keyed : All IsKeyed (delete ActorId-discrete u r.members)
    left_keyed =
        All-delete ActorId-discrete IsKeyed u r.members
          (keyed r.capacity r.join_order r.members v.member_entries)

pub pass_host-Inv :
    (requester : ActorId) (player_id : ℕ) (r : LobbyRoster)
    → Inv r
    → Inv (pass_host requester player_id r).0
unfolding pass_host
pass_host-Inv requester player_id r v = elim (Bool-cases (is_host requester r)) [
  | inr other ↦ rw other v
  | inl host ↦ elim (Option-cases (get_by_player_id player_id r)) [
    | inl absent ↦ rw (host, absent, pass_host) v
    | inr (m, found) ↦
        let (present, _) =
          get_by_player_id-Present r v.unique_members
            (keyed r.capacity r.join_order r.members v.member_entries) player_id m found in
        rw (host, found, pass_host)
          (record {
            some_seat = v.some_seat;
            few_seats = v.few_seats;
            unique_holds = v.unique_holds;
            unique_members = v.unique_members;
            hold_entries = v.hold_entries;
            member_entries = v.member_entries;
            apart = v.apart;
            one_per_seat = unfold sitting in v.one_per_seat;
            host_present = λ w e. (m, ground (arith, present));
          })
  ]
]
