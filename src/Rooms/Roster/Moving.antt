-- ===== src/Rooms/Roster/Moving.antt =====
-- Moving to another seat, and taking a member over from another server (lobby-state.ts).
use sw_itch_remake.Base.{
  ℕ, ◌+◌, ◌≤◌, max, ◌≡◌, refl, false, ◌||◌, none, some, arith, inl, inr, ltb, count, All-imp,
  Bool-cases, Option-cases,
}
use sw_itch_remake.Base.Maps.{get, get-set, set-Unique, count-set, counted, All-set, All-get}
use sw_itch_remake.Types.{ActorId, ActorId-discrete}
use sw_itch_remake.Rooms.Roster.{
  LobbyMember, LobbyRoster, hold_at, member_at, slot_occupied, has_user, put_slot, reseated,
  move_slot, AdoptedRoomMember, adopted_member, adopt,
}
use sw_itch_remake.Rooms.Roster.Invariant.{
  IsHoldEntry, IsMemberEntry, Inv, keyed, later_order, found-set,
}
use sw_itch_remake.Rooms.Roster.Seats.{sitting, free-sitting, others-none, holds-none}

module _ (u : ActorId) (target : ℕ) (m : LobbyMember) (r : LobbyRoster) (v : Inv r)
    (found : get ActorId-discrete u r.members ≡ some m) (low : 1 ≤ target)
    (high : target ≤ r.capacity) (free : slot_occupied target (some u) r ≡ false) where
  no_hold : get ActorId-discrete u r.holds ≡ none
  no_hold = elim (Option-cases (get ActorId-discrete u r.holds)) [
    | inl e ↦ e
    | inr (h, e) ↦ cc (v.apart u h e)
  ]

  at_target :
      count (hold_at target none) r.holds + count (member_at target none) r.members
      ≡ counted ActorId-discrete (member_at target none) u (some m)
  unfolding slot_occupied
  at_target = ground (
    arith,
    others-none target u r.members v.unique_members
        (keyed r.capacity r.join_order r.members v.member_entries),
    holds-none target u r.holds
        (All-imp (IsHoldEntry r.capacity) (λ e. e.1.reservation.user_id ≡ e.0) r.holds (λ x p. p.0)
          v.hold_entries)
        no_hold,
  )

  put_slot-Inv : Inv (put_slot u target m r)
  unfolding put_slot sitting
  put_slot-Inv =
      let entry =
        All-get ActorId-discrete (IsMemberEntry r.capacity r.join_order) u m r.members
          v.member_entries found in
      record {
        some_seat = v.some_seat;
        few_seats = v.few_seats;
        unique_holds = v.unique_holds;
        unique_members =
            set-Unique ActorId-discrete u (reseated target m) r.members v.unique_members;
        hold_entries = v.hold_entries;
        member_entries =
            All-set ActorId-discrete (IsMemberEntry r.capacity r.join_order) u (reseated target m)
              r.members (entry.0, refl, low, high, omega arith, entry.5) v.member_entries;
        apart = λ w h e. ground (
          arith,
          get-set ActorId-discrete w u (reseated target m) r.members,
          v.apart w h,
          v.apart u h,
        );
        one_per_seat = λ s. ground (
          arith,
          v.one_per_seat s,
          at_target,
          count-set ActorId-discrete (member_at s none) u (reseated target m) r.members,
        );
        host_present =
            λ w e. found-set u w (reseated target m) r.members (inr (v.host_present w e));
      }

pub move_slot-Inv :
    (u : ActorId) (target : ℕ) (r : LobbyRoster) → Inv r → Inv (move_slot u target r).0
unfolding move_slot
move_slot-Inv u target r v = elim (Option-cases (get ActorId-discrete u r.members)) [
  | inl absent ↦ rw (absent, move_slot) v
  | inr (m, found) ↦ elim (Bool-cases (ltb target 1 || ltb r.capacity target)) [
    | inl out ↦ rw (found, move_slot, out) v
    | inr inside ↦ elim (Bool-cases (slot_occupied target (some u) r)) [
      | inl taken ↦ rw (found, move_slot, inside, taken) v
      | inr free ↦
          rw (found, move_slot, inside, free)
            (put_slot-Inv u target m r v found (ground arith) (ground arith) free)
    ]
  ]
]

-- A member who arrives with the whole room sits on a seat of it that nobody has here.
pub record Arrives (m : AdoptedRoomMember) (r : LobbyRoster) : Type 0 where
  pub unknown : has_user m.user_id r ≡ false
  pub numbered : m.player_id ≡ m.slot
  pub coloured : m.color_index + 1 ≡ m.slot
  pub low : 1 ≤ m.slot
  pub high : m.slot ≤ r.capacity
  pub free : slot_occupied m.slot none r ≡ false

pub adopt-Inv :
    (m : AdoptedRoomMember) (until : ℕ) (r : LobbyRoster)
    → Inv r
    → Arrives m r
    → Inv (adopt m until r)
unfolding adopt sitting has_user
adopt-Inv m until r v a = record {
  some_seat = v.some_seat;
  few_seats = v.few_seats;
  unique_holds = v.unique_holds;
  unique_members =
      set-Unique ActorId-discrete m.user_id (adopted_member m until) r.members v.unique_members;
  hold_entries = v.hold_entries;
  member_entries =
      All-set ActorId-discrete (IsMemberEntry r.capacity (max r.join_order (m.joined_order + 1)))
        m.user_id (adopted_member m until) r.members
        (refl, a.numbered, a.low, a.high, a.coloured, omega arith)
        (later_order r.capacity r.join_order (max r.join_order (m.joined_order + 1)) r.members
          (omega arith) v.member_entries);
  apart = λ w h e. ground (
    arith,
    get-set ActorId-discrete w m.user_id (adopted_member m until) r.members,
    v.apart w h,
    a.unknown,
  );
  one_per_seat = λ s. ground (
    arith,
    v.one_per_seat s,
    a.unknown,
    free-sitting m.slot r a.free,
    count-set ActorId-discrete (member_at s none) m.user_id (adopted_member m until) r.members,
  );
  host_present = λ w e.
      found-set m.user_id w (adopted_member m until) r.members (elim (Bool-cases m.is_host) [
        | inl host ↦ inl (ground arith)
        | inr guest' ↦ inr (v.host_present w (ground arith))
      ]);
}
