-- ===== src/Rooms/Roster/Invariant.antt =====
-- What holds of a room's seats and host (`LobbyRoster` of lobby-state.ts) between two calls.
use sw_itch_remake.Base.{
  ℕ, ◌+◌, ◌≤◌, ◌<◌, ◌≡◌, subst, ◌⊎◌, ◌||◌, none, some, List, [], arith, inl, inr, ltb, All, All-imp,
  Bool-cases,
}
use sw_itch_remake.Base.Maps.{get, set, get-set, Unique}
use sw_itch_remake.Types.{ActorId, ActorId-discrete}
use sw_itch_remake.Rooms.Roster.{SeatHold, LobbyMember, LobbyRoster, new}
use sw_itch_remake.Rooms.Roster.Seats.{sitting, IsKeyed}

-- An entry of either map is under its own user, in a seat of the room, and its number is its seat.
abbrev pub IsHoldEntry : ℕ → ActorId × SeatHold → Type 0
IsHoldEntry capacity e =
    (e.1.reservation.user_id ≡ e.0)
    × (e.1.player_id ≡ e.1.slot)
    × (1 ≤ e.1.slot)
    × (e.1.slot ≤ capacity)

abbrev pub IsMemberEntry : ℕ → ℕ → ActorId × LobbyMember → Type 0
IsMemberEntry capacity next_order e =
    (e.1.user_id ≡ e.0)
    × (e.1.player_id ≡ e.1.slot)
    × (1 ≤ e.1.slot)
    × (e.1.slot ≤ capacity)
    × (e.1.color_index + 1 ≡ e.1.slot)
    × (e.1.joined_order < next_order)

pub record Inv (r : LobbyRoster) : Type 0 where
  pub some_seat : 1 ≤ r.capacity
  pub few_seats : r.capacity ≤ 8
  pub unique_holds : Unique ActorId-discrete r.holds
  pub unique_members : Unique ActorId-discrete r.members
  pub hold_entries : All (IsHoldEntry r.capacity) r.holds
  pub member_entries : All (IsMemberEntry r.capacity r.join_order) r.members
  pub apart :
      (u : ActorId) (h : SeatHold)
      → get ActorId-discrete u r.holds ≡ some h
      → get ActorId-discrete u r.members ≡ none
  pub one_per_seat : (seat : ℕ) → sitting seat r ≤ 1
  pub host_present :
      (u : ActorId)
      → r.host_user_id ≡ some u
      → (m : LobbyMember) × (get ActorId-discrete u r.members ≡ some m)

pub keyed :
    (c n : ℕ) (ms : List (ActorId × LobbyMember)) → All (IsMemberEntry c n) ms → All IsKeyed ms
keyed c n ms h = All-imp (IsMemberEntry c n) IsKeyed ms (λ x p. p.0) h

pub later_order :
    (c n n' : ℕ) (ms : List (ActorId × LobbyMember))
    → n ≤ n'
    → All (IsMemberEntry c n) ms
    → All (IsMemberEntry c n') ms
later_order c n n' ms l h =
    All-imp (IsMemberEntry c n) (IsMemberEntry c n') ms
      (λ x p. (p.0, p.1, p.2, p.3, p.4, omega arith)) h

abbrev pub empty : ℕ → LobbyRoster
empty capacity = record {
  capacity = capacity;
  holds = [];
  members = [];
  join_order = 0;
  host_user_id = none;
}

pub new-Inv : (capacity : ℕ) (r : LobbyRoster) → new capacity ≡ some r → Inv r
unfolding new sitting get
new-Inv capacity r e = elim (Bool-cases (ltb capacity 1 || ltb 8 capacity)) [
  | inl bad ↦ absurd (ground arith)
  | inr good ↦
      let same : empty capacity ≡ r = ground arith in
      subst Inv same (record {
        some_seat = ground arith;
        few_seats = ground arith;
        unique_holds = tt;
        unique_members = tt;
        hold_entries = tt;
        member_entries = tt;
        apart = λ u h g. cc;
        one_per_seat = λ seat. omega arith;
        host_present = λ u g. absurd (ground arith);
      })
]

pub found-set :
    (u w : ActorId) (x : LobbyMember) (ms : List (ActorId × LobbyMember))
    → (u ≡ w) ⊎ ((m : LobbyMember) × (get ActorId-discrete w ms ≡ some m))
    → (m : LobbyMember) × (get ActorId-discrete w (set ActorId-discrete u x ms) ≡ some m)
found-set u w x ms h = elim (ActorId-discrete u w) [
  | yes e ↦ (x, ground (arith, get-set ActorId-discrete w u x ms))
  | no ne ↦ elim h [
    | inl e ↦ absurd (ne e)
    | inr (m, g) ↦ (m, ground (arith, get-set ActorId-discrete w u x ms))
  ]
]
