-- ===== src/Rooms/Roster/Seats.antt =====
-- What `#slotOccupied`, `#firstFreeSeat` and `members()` of lobby-state.ts find.
use sw_itch_remake.Base.{
  ℕ, zero, suc, ◌+◌, ◌≤◌, ◌<◌, min, ◌≡◌, refl, Bool, true, false, none, some, List, [], ◌∷◌, arith,
  ◌==◌, count, any, any-count, All, All-imp, All-sort_by, All-find,
}
use sw_itch_remake.Base.Maps.{get, Unique, counted}
use sw_itch_remake.Types.{ActorId, ActorId-discrete}
use sw_itch_remake.Rooms.Roster.{
  SeatHold, LobbyMember, LobbyRoster, hold_at, member_at, slot_occupied, free_seat_from,
  first_free_seat, values, members_in_order, get_by_player_id, first_user,
}

-- How many holds and members the seat has.
unfoldable pub sitting : ℕ → LobbyRoster → ℕ
sitting seat r = count (hold_at seat none) r.holds + count (member_at seat none) r.members

pub free-sitting :
    (seat : ℕ) (r : LobbyRoster) → slot_occupied seat none r ≡ false → sitting seat r ≡ 0
unfolding slot_occupied sitting
free-sitting seat r h =
    ground (arith, any-count (hold_at seat none) r.holds, any-count (member_at seat none) r.members)

free_seat_from-free :
    (left seat found : ℕ) (blocked : ℕ → Bool) (r : LobbyRoster)
    → free_seat_from left seat blocked r ≡ some found
    → (seat ≤ found) × (found < seat + left) × (blocked found ≡ false) × (sitting found r ≡ 0)
unfolding free_seat_from
free_seat_from-free zero seat found blocked r h = cc
free_seat_from-free (suc left) seat found blocked r h =
    ground (arith, free_seat_from-free left (seat + 1) found blocked r, free-sitting seat r)

-- A seat that is given out is a seat of the room, not blocked, and nobody sits there.
pub first_free_seat-free :
    (seat : ℕ) (blocked : ℕ → Bool) (r : LobbyRoster)
    → first_free_seat blocked r ≡ some seat
    → (1 ≤ seat) × (seat ≤ r.capacity) × (blocked seat ≡ false) × (sitting seat r ≡ 0)
unfolding first_free_seat
first_free_seat-free seat blocked r h =
    ground (arith, free_seat_from-free (min r.capacity 8) 1 seat blocked r)

-- Whoever is listed is found under their own identifier.
abbrev pub Present : List (ActorId × LobbyMember) → LobbyMember → Type 0
Present ms m = get ActorId-discrete m.user_id ms ≡ some m

abbrev pub IsKeyed : ActorId × LobbyMember → Type 0
IsKeyed e = e.1.user_id ≡ e.0

Present-later :
    (u : ActorId) (w : LobbyMember) (ms : List (ActorId × LobbyMember))
    → get ActorId-discrete u ms ≡ none
    → (m : LobbyMember) → Present ms m
    → Present ((u, w) ∷ ms) m
unfolding get
Present-later u w ms absent m p = ground arith

values-Present :
    (ms : List (ActorId × LobbyMember))
    → Unique ActorId-discrete ms
    → All IsKeyed ms
    → All (Present ms) (values ms)
unfolding get
values-Present [] u k = tt
values-Present ((a, m) ∷ ms) u k = (
  ground arith,
  All-imp (Present ms) (Present ((a, m) ∷ ms)) (values ms) (Present-later a m ms u.0)
      (values-Present ms u.1 k.1),
)

module _ (r : LobbyRoster) (u : Unique ActorId-discrete r.members) (k : All IsKeyed r.members) where
  pub members_in_order-Present : All (Present r.members) (members_in_order r)
  unfolding members_in_order
  members_in_order-Present =
      All-sort_by (Present r.members) (λ m. m.joined_order) (values r.members)
        (values-Present r.members u k)

  pub get_by_player_id-Present :
      (player_id : ℕ) (m : LobbyMember)
      → get_by_player_id player_id r ≡ some m
      → Present r.members m × ((m.player_id == player_id) ≡ true)
  unfolding get_by_player_id
  get_by_player_id-Present player_id m e =
      All-find (Present r.members) (λ m. m.player_id == player_id) m (members_in_order r)
        members_in_order-Present e

  pub first_user-Present :
      (host : ActorId) (xs : List LobbyMember)
      → All (Present r.members) xs
      → first_user xs ≡ some host
      → (m : LobbyMember) × (get ActorId-discrete host r.members ≡ some m)
  first_user-Present host [] h e = cc
  first_user-Present host (m ∷ xs) h e = (m, ground arith)

-- With one except, the others of a seat are counted.
pub others-none :
    (seat : ℕ) (u : ActorId) (ms : List (ActorId × LobbyMember))
    → Unique ActorId-discrete ms
    → All IsKeyed ms
    → any (member_at seat (some u)) ms ≡ false
    → count (member_at seat none) ms
      ≡ counted ActorId-discrete (member_at seat none) u (get ActorId-discrete u ms)
unfolding get
others-none seat u [] q k h = refl
others-none seat u ((a, m) ∷ ms) q k h = ground (arith, others-none seat u ms q.1 k.1)

pub holds-none :
    (seat : ℕ) (u : ActorId) (hs : List (ActorId × SeatHold))
    → All (λ e. e.1.reservation.user_id ≡ e.0) hs
    → get ActorId-discrete u hs ≡ none
    → any (hold_at seat (some u)) hs ≡ false
    → count (hold_at seat none) hs ≡ 0
unfolding get
holds-none seat u [] k g h = refl
holds-none seat u ((a, s) ∷ hs) k g h = ground (arith, holds-none seat u hs k.1)
