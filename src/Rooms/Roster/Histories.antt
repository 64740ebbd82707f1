-- ===== src/Rooms/Roster/Histories.antt =====
-- A room (`LobbyRoster` of lobby-state.ts) after any calls: its seats, its size and its host.
use sw_itch_remake.Base.{
  ℕ, zero, suc, ◌+◌, ◌≤◌, ◌≡◌, refl, sym, ◌∙◌, Bool, ◌&&◌, ==_iff, none, some, List, [], ◌∷◌, arith,
  inl, inr, ltb, leb, count, length, All, Option-cases,
}
use sw_itch_remake.Base.Maps.{get, count_two, All-get}
use sw_itch_remake.Types.{ActorId, ActorId-discrete, PlayerRole}
use sw_itch_remake.Gateway.Tickets.{SeatReservation}
use sw_itch_remake.Rooms.Roster.{
  SeatHold, LobbyMember, LobbyRoster, new, hold_at, member_at, hold, claim, release_hold,
  clear_holds, purge_expired_holds, remove, pass_host, move_slot, occupied_size, AdoptedRoomMember,
  adopt,
}
use sw_itch_remake.Rooms.Roster.Invariant.{IsHoldEntry, IsMemberEntry, Inv, new-Inv}
use sw_itch_remake.Rooms.Roster.Holding.{
  hold-Inv, drop_hold-Inv, purge_expired_holds-Inv, clear_holds-Inv, claim-Inv,
}
use sw_itch_remake.Rooms.Roster.Leaving.{without-Inv, pass_host-Inv}
use sw_itch_remake.Rooms.Roster.Moving.{move_slot-Inv, Arrives, adopt-Inv}
use sw_itch_remake.Rooms.Roster.Seats.{sitting}

-- The calls that change a roster: all public methods of `LobbyRoster` that do.
pub data Call : Type 0 where
  holds : SeatReservation → (ℕ → Bool) → Call
  claims : ActorId → ℕ → PlayerRole → Call
  releases : ActorId → Call
  clears : Call
  purges : ℕ → Call
  leaves : ActorId → Call
  passes_host : ActorId → ℕ → Call
  moves : ActorId → ℕ → Call
  adopts : AdoptedRoomMember → ℕ → Call

unfoldable pub step : LobbyRoster → Call → LobbyRoster
step r (holds reservation blocked) = (hold reservation blocked r).0
step r (claims u now role) = (claim u now role r).0
step r (releases u) = (release_hold u r).0
step r clears = clear_holds r
step r (purges now) = (purge_expired_holds now r).0
step r (leaves u) = (remove u r).0
step r (passes_host u player_id) = (pass_host u player_id r).0
step r (moves u target) = (move_slot u target r).0
step r (adopts m until) = adopt m until r

remove-Inv : (u : ActorId) (r : LobbyRoster) → Inv r → Inv (remove u r).0
unfolding remove
remove-Inv u r v = elim (Option-cases (get ActorId-discrete u r.members)) [
  | inl absent ↦ rw (absent, remove) v
  | inr (m, found) ↦ rw (found, remove) (without-Inv u r v)
]

-- Who comes from another server has a seat of the room that nobody else has. `adopt` itself does not look.
abbrev pub Proper : LobbyRoster → Call → Type 0
Proper r (adopts m until) = Arrives m r
Proper r _ = Unit

-- Every call, also one that is refused, keeps the seats apart, the numbers equal to the seats, the colours
-- in step with them, and the host among the members.
step-Inv : (r : LobbyRoster) (c : Call) → Proper r c → Inv r → Inv (step r c)
unfolding step release_hold
step-Inv r (holds reservation blocked) p v = hold-Inv reservation blocked r v
step-Inv r (claims u now role) p v = claim-Inv u now role r v
step-Inv r (releases u) p v = drop_hold-Inv u r v
step-Inv r clears p v = clear_holds-Inv r v
step-Inv r (purges now) p v = purge_expired_holds-Inv now r v
step-Inv r (leaves u) p v = remove-Inv u r v
step-Inv r (passes_host u player_id) p v = pass_host-Inv u player_id r v
step-Inv r (moves u target) p v = move_slot-Inv u target r v
step-Inv r (adopts m until) p v = adopt-Inv m until r v p

unfoldable pub run : LobbyRoster → List Call → LobbyRoster
run r [] = r
run r (c ∷ cs) = run (step r c) cs

abbrev pub AllProper : LobbyRoster → List Call → Type 0
AllProper r [] = Unit
AllProper r (c ∷ cs) = Proper r c × AllProper (step r c) cs

run-Inv : (r : LobbyRoster) (cs : List Call) → AllProper r cs → Inv r → Inv (run r cs)
unfolding run
run-Inv r [] p v = v
run-Inv r (c ∷ cs) p v = run-Inv (step r c) cs p.1 (step-Inv r c p.0 v)

-- The entries of the seats 1 to n.
seated_up_to : ℕ → LobbyRoster → ℕ
seated_up_to zero r = 0
seated_up_to (suc n) r = sitting (suc n) r + seated_up_to n r

seated_up_to-le : (n : ℕ) (r : LobbyRoster) → Inv r → seated_up_to n r ≤ n
unfolding seated_up_to
seated_up_to-le zero r v = omega arith
seated_up_to-le (suc n) r v = omega (arith, v.one_per_seat (suc n), seated_up_to-le n r v)

abbrev hold_within : ℕ → ActorId × SeatHold → Bool
hold_within n (u, h) = ltb 0 h.slot && leb h.slot n

abbrev member_within : ℕ → ActorId × LobbyMember → Bool
member_within n (u, m) = ltb 0 m.slot && leb m.slot n

holds_split :
    (n : ℕ) (hs : List (ActorId × SeatHold))
    → count (hold_within (suc n)) hs ≡ count (hold_at (suc n) none) hs + count (hold_within n) hs
holds_split n [] = omega arith
holds_split n (h ∷ hs) = ground (arith, holds_split n hs)

members_split :
    (n : ℕ) (ms : List (ActorId × LobbyMember))
    → count (member_within (suc n)) ms
      ≡ count (member_at (suc n) none) ms + count (member_within n) ms
members_split n [] = omega arith
members_split n (m ∷ ms) = ground (arith, members_split n ms)

holds_nowhere : (hs : List (ActorId × SeatHold)) → count (hold_within 0) hs ≡ 0
holds_nowhere [] = refl
holds_nowhere (h ∷ hs) = ground (arith, holds_nowhere hs)

members_nowhere : (ms : List (ActorId × LobbyMember)) → count (member_within 0) ms ≡ 0
members_nowhere [] = refl
members_nowhere (m ∷ ms) = ground (arith, members_nowhere ms)

seated_up_to-count :
    (n : ℕ) (r : LobbyRoster)
    → seated_up_to n r ≡ count (hold_within n) r.holds + count (member_within n) r.members
unfolding seated_up_to sitting
seated_up_to-count zero r = omega (arith, holds_nowhere r.holds, members_nowhere r.members)
seated_up_to-count (suc n) r =
    omega (arith, seated_up_to-count n r, holds_split n r.holds, members_split n r.members)

holds-All :
    (c : ℕ) (hs : List (ActorId × SeatHold))
    → All (IsHoldEntry c) hs
    → count (hold_within c) hs ≡ length hs
holds-All c [] a = refl
holds-All c (h ∷ hs) a = ground (arith, holds-All c hs a.1, a.0)

members-All :
    (c n : ℕ) (ms : List (ActorId × LobbyMember))
    → All (IsMemberEntry c n) ms
    → count (member_within c) ms ≡ length ms
members-All c n [] a = refl
members-All c n (m ∷ ms) a = ground (arith, members-All c n ms a.1, a.0)

-- A room never has more people and held seats together than it has seats.
pub occupied_size-le_capacity : (r : LobbyRoster) → Inv r → occupied_size r ≤ r.capacity
occupied_size-le_capacity r v = omega (
  arith,
  seated_up_to-count r.capacity r,
  seated_up_to-le r.capacity r v,
  holds-All r.capacity r.holds v.hold_entries,
  members-All r.capacity r.join_order r.members v.member_entries,
)

step-capacity : (r : LobbyRoster) (c : Call) → (step r c).capacity ≡ r.capacity
unfolding step hold claim release_hold clear_holds purge_expired_holds remove pass_host move_slot
    adopt
step-capacity r (holds reservation blocked) = ground arith
step-capacity r (claims u now role) = ground arith
step-capacity r (releases u) = refl
step-capacity r clears = refl
step-capacity r (purges now) = refl
step-capacity r (leaves u) = ground arith
step-capacity r (passes_host u player_id) = ground arith
step-capacity r (moves u target) = ground arith
step-capacity r (adopts m until) = refl

run-capacity : (r : LobbyRoster) (cs : List Call) → (run r cs).capacity ≡ r.capacity
unfolding run
run-capacity r [] = refl
run-capacity r (c ∷ cs) = run-capacity (step r c) cs ∙ step-capacity r c

pub one_number :
    (r : LobbyRoster) (u w : ActorId) (m n : LobbyMember)
    → Inv r
    → get ActorId-discrete u r.members ≡ some m
    → get ActorId-discrete w r.members ≡ some n
    → m.slot ≡ n.slot
    → u ≡ w
unfolding sitting
one_number r u w m n v gm gn same = elim (ActorId-discrete u w) [
  | yes e ↦ e
  | no ne ↦ absurd (
      omega (
        arith,
        v.one_per_seat m.slot,
        count_two ActorId-discrete (member_at m.slot none) u w m n r.members v.unique_members gm gn
            ((==_iff m.slot m.slot).1 refl) ((==_iff n.slot m.slot).1 (sym same)) ne,
      ))
]

-- In a new room, after any calls, two members with the same in-game number are the same person, and that number is
-- their seat, one of the room's; provided that whoever is adopted from another server is not in the room yet and has
-- the number, the seat and the colour of a free seat of it.
pub run-distinct_numbers :
    (capacity : ℕ) (r : LobbyRoster) (cs : List Call) (u w : ActorId) (m n : LobbyMember)
    → new capacity ≡ some r
    → AllProper r cs
    → get ActorId-discrete u (run r cs).members ≡ some m
    → get ActorId-discrete w (run r cs).members ≡ some n
    → m.player_id ≡ n.player_id
    → (u ≡ w) × (m.player_id ≡ m.slot) × (1 ≤ m.slot) × (m.slot ≤ capacity)
unfolding new
run-distinct_numbers capacity r cs u w m n made proper gm gn same =
    let v = run-Inv r cs proper (new-Inv capacity r made) in
    let a =
      All-get ActorId-discrete (IsMemberEntry (run r cs).capacity (run r cs).join_order) u m
        (run r cs).members v.member_entries gm in
    let b =
      All-get ActorId-discrete (IsMemberEntry (run r cs).capacity (run r cs).join_order) w n
        (run r cs).members v.member_entries gn in
    (
      one_number (run r cs) u w m n v gm gn (omega (arith, a, b)),
      a.1,
      a.2,
      ground (arith, a.3, run-capacity r cs),
    )
