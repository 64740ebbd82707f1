-- ===== src/Rooms/Room/Seating.antt =====
-- A room (room.ts) changes members where they sit: who they are, and where, stays.
use sw_itch_remake.Base.{ℕ, ◌≡◌, refl, ◌∙◌, none, some, List, [], ◌∷◌, arith, inr, count, All}
use sw_itch_remake.Base.Maps.{get, get-set, Unique, set-Unique, count-set, All-set, All-get}
use sw_itch_remake.Types.{ActorId, ActorId-discrete}
use sw_itch_remake.Rooms.Roster.{LobbyMember, LobbyRoster, member_at}
use sw_itch_remake.Rooms.Roster.Invariant.{IsMemberEntry, Inv, found-set}
use sw_itch_remake.Rooms.Roster.Seats.{sitting}
use sw_itch_remake.Rooms.Room.State.{put_member, map_values, map_members}

-- The same person on the same seat.
abbrev pub Same : LobbyMember → LobbyMember → Type 0
Same m m' =
    (m'.user_id ≡ m.user_id)
    × (m'.player_id ≡ m.player_id)
    × (m'.slot ≡ m.slot)
    × (m'.color_index ≡ m.color_index)
    × (m'.joined_order ≡ m.joined_order)

module _ (r : LobbyRoster) (v : Inv r) (u : ActorId) (m m' : LobbyMember)
    (found : get ActorId-discrete u r.members ≡ some m) (same : Same m m') where
  entry_of : IsMemberEntry r.capacity r.join_order (u, m)
  entry_of =
      All-get ActorId-discrete (IsMemberEntry r.capacity r.join_order) u m r.members
        v.member_entries found

  user_kept : m'.user_id ≡ u
  user_kept = same.0 ∙ entry_of.0

  found_by : get ActorId-discrete m'.user_id r.members ≡ some m
  found_by = rw user_kept found

  pub put_member-seats : Inv (put_member m' r)
  unfolding sitting
  put_member-seats = record {
    some_seat = v.some_seat;
    few_seats = v.few_seats;
    unique_holds = v.unique_holds;
    unique_members = set-Unique ActorId-discrete m'.user_id m' r.members v.unique_members;
    hold_entries = v.hold_entries;
    member_entries =
        All-set ActorId-discrete (IsMemberEntry r.capacity r.join_order) m'.user_id m' r.members
          (
            refl,
            cc (same.1, same.2, entry_of.1),
            omega (arith, same.2, entry_of.2),
            omega (arith, same.2, entry_of.3),
            omega (arith, same.2, same.3, entry_of.4),
            omega (arith, same.4, entry_of.5),
          )
          v.member_entries;
    apart = λ w h e.
        ground (arith, get-set ActorId-discrete w m'.user_id m' r.members, v.apart w h, found_by);
    one_per_seat = λ s. ground (
      arith,
      v.one_per_seat s,
      same.2,
      found_by,
      count-set ActorId-discrete (member_at s none) m'.user_id m' r.members,
    );
    host_present = λ w e. found-set m'.user_id w m' r.members (inr (v.host_present w e));
  }

-- A change of all members.
module _ (g : LobbyMember → LobbyMember) (k : (m : LobbyMember) → Same m (g m)) where
  pub get-map_values :
      (u : ActorId) (ms : List (ActorId × LobbyMember))
      → get ActorId-discrete u (map_values g ms)
        ≡ elim (get ActorId-discrete u ms) [ none ↦ none | some m ↦ some (g m) ]
  unfolding get
  get-map_values u [] = refl
  get-map_values u ((w, m) ∷ ms) = ground (arith, get-map_values u ms)

  map_values-Unique :
      (ms : List (ActorId × LobbyMember))
      → Unique ActorId-discrete ms
      → Unique ActorId-discrete (map_values g ms)
  map_values-Unique [] q = tt
  map_values-Unique ((w, m) ∷ ms) q =
      (ground (arith, get-map_values w ms), map_values-Unique ms q.1)

  count-map_values :
      (s : ℕ) (ms : List (ActorId × LobbyMember))
      → count (member_at s none) (map_values g ms) ≡ count (member_at s none) ms
  count-map_values s [] = refl
  count-map_values s ((w, m) ∷ ms) = ground (arith, count-map_values s ms, k m)

  map_values-entries :
      (c n : ℕ) (ms : List (ActorId × LobbyMember))
      → All (IsMemberEntry c n) ms
      → All (IsMemberEntry c n) (map_values g ms)
  map_values-entries c n [] h = tt
  map_values-entries c n ((w, m) ∷ ms) h =
      let same = k m in
      let e = h.0 in
      (
        (
          cc (same.0, e.0),
          cc (same.1, same.2, e.1),
          omega (arith, same.2, e.2),
          omega (arith, same.2, e.3),
          omega (arith, same.2, same.3, e.4),
          omega (arith, same.4, e.5),
        ),
        map_values-entries c n ms h.1,
      )

  pub map_members-seats : (r : LobbyRoster) → Inv r → Inv (map_members g r)
  unfolding sitting
  map_members-seats r v = record {
    some_seat = v.some_seat;
    few_seats = v.few_seats;
    unique_holds = v.unique_holds;
    unique_members = map_values-Unique r.members v.unique_members;
    hold_entries = v.hold_entries;
    member_entries = map_values-entries r.capacity r.join_order r.members v.member_entries;
    apart = λ w h e. ground (arith, get-map_values w r.members, v.apart w h);
    one_per_seat = λ s. omega (arith, v.one_per_seat s, count-map_values s r.members);
    host_present = λ w e.
        let (m, found) = v.host_present w e in (g m, ground (arith, get-map_values w r.members));
  }
