-- ===== src/Rooms/Roster/Laws.antt =====
-- What single calls of `LobbyRoster` (lobby-state.ts) promise: a held seat can be claimed, "full" means
-- full, and the host is inherited in the order of joining.
use sw_itch_remake.Base.{
  ℕ, zero, suc, ◌+◌, ◌≤◌, ◌<◌, min, ◌≡◌, ◌≢◌, refl, ◌⊎◌, inl, inr, Bool, true, false, none, some,
  List, [], ◌∷◌, arith, leb, All, All-imp, insert_by, sort_by, Bool-cases, dec_lt, subst,
}
use sw_itch_remake.Base.Maps.{get, get-set, delete}
use sw_itch_remake.Types.{ActorId, ActorId-discrete, PlayerRole}
use sw_itch_remake.Gateway.Tickets.{SeatReservation}
use sw_itch_remake.Rooms.Roster.{
  SeatHold, LobbyMember, LobbyRoster, slot_occupied, free_seat_from, first_free_seat, hold,
  put_hold, held, full, claim, claimed_member, without, is_host, first_user, values,
  members_in_order,
}

free_seat_from-none :
    (left seat s : ℕ) (blocked : ℕ → Bool) (r : LobbyRoster)
    → free_seat_from left seat blocked r ≡ none
    → seat ≤ s
    → s < seat + left
    → (blocked s ≡ true) ⊎ (slot_occupied s none r ≡ true)
unfolding free_seat_from
free_seat_from-none zero seat s blocked r e l h = absurd (omega arith)
free_seat_from-none (suc left) seat s blocked r e l h = elim (dec_lt seat s) [
  | yes later ↦
      free_seat_from-none left (seat + 1) s blocked r (ground arith) (omega arith) (omega arith)
  | no here ↦
      let same : seat ≡ s = omega arith in
      subst (λ x. (blocked x ≡ true) ⊎ (slot_occupied x none r ≡ true)) same (ground arith)
]

-- A person is turned away as "full" only where every seat of the room is taken or kept free for others.
pub hold-full :
    (reservation : SeatReservation) (blocked : ℕ → Bool) (r : LobbyRoster) (s : ℕ)
    → r.capacity ≤ 8
    → (hold reservation blocked r).1 ≡ full
    → 1 ≤ s
    → s ≤ r.capacity
    → (blocked s ≡ true) ⊎ (slot_occupied s none r ≡ true)
unfolding hold first_free_seat
hold-full reservation blocked r s c e l h =
    free_seat_from-none (min r.capacity 8) 1 s blocked r (ground arith) l (omega arith)

-- A seat that was given on hold is the seat that its owner gets, if they come before it expires: the
-- member then has that number, and is in the room.
pub claim-hold :
    (reservation : SeatReservation) (blocked : ℕ → Bool) (r t : LobbyRoster) (seat now : ℕ)
    (role : PlayerRole)
    → hold reservation blocked r ≡ (t, held seat)
    → now < reservation.expires_at
    → let (after, claimed) = claim reservation.user_id now role t in
      (m : LobbyMember) × (claimed ≡ some m)
      × (get ActorId-discrete reservation.user_id after.members ≡ some m)
      × (m.player_id ≡ seat)
      × (m.slot ≡ seat)
unfolding hold claim
claim-hold reservation blocked r t seat now role e h = (
  claimed_member reservation.user_id the_hold role r.join_order,
  ground (arith, found),
  ground (
    arith,
    found,
    get-set ActorId-discrete reservation.user_id reservation.user_id
        (claimed_member reservation.user_id the_hold role r.join_order) r.members,
  ),
  refl,
  refl,
)
  where
    the_hold : SeatHold
    the_hold = record { reservation = reservation; player_id = seat; slot = seat }

    found :
        get ActorId-discrete reservation.user_id (put_hold reservation seat r).holds ≡ some the_hold
    found =
        ground
          (arith, get-set ActorId-discrete reservation.user_id reservation.user_id the_hold r.holds)

module _ {ℓ} {A : Type ℓ} (key : A → ℕ) where
  -- The first of the sorted entries has the smallest key of all.
  abbrev Starts : List A → List A → Type 0
  Starts [] xs = Unit
  Starts (a ∷ rest) xs = All (λ x. key a ≤ key x) xs

  Starts-insert :
      (x : A) (sorted xs : List A)
      → Starts sorted xs
      → sorted ≢ []
      → Starts (insert_by key x sorted) (x ∷ xs)
  Starts-insert x [] xs h ne = absurd (ne refl)
  Starts-insert x (a ∷ rest) xs h ne = elim (Bool-cases (leb (key x) (key a))) [
    | inl low ↦
        rw low (
          omega arith,
          All-imp (λ y. key a ≤ key y) (λ y. key x ≤ key y) xs (λ y p. ground arith) h,
        )
    | inr high ↦ rw high (ground arith, h)
  ]

  insert_by-ne : (x : A) (sorted : List A) → insert_by key x sorted ≢ []
  insert_by-ne x [] e = cc
  insert_by-ne x (a ∷ rest) e = ground arith

  Starts-sort : (xs : List A) → Starts (sort_by key xs) xs
  Starts-sort [] = tt
  Starts-sort (x ∷ []) = (omega arith, tt)
  Starts-sort (x ∷ y ∷ xs) =
      Starts-insert x (sort_by key (y ∷ xs)) (y ∷ xs) (Starts-sort (y ∷ xs))
        (insert_by-ne y (sort_by key xs))

-- When another than the host leaves, the host stays. When the host leaves, the room passes to whoever of the
-- others joined first, and an empty room has no host.
pub without-host :
    (u : ActorId) (r : LobbyRoster)
    → let left = without u r in
      ((is_host u r ≡ false) × (left.host_user_id ≡ r.host_user_id))
      ⊎ ((is_host u r ≡ true)
          × (((values left.members ≡ []) × (left.host_user_id ≡ none))
              ⊎ ((m : LobbyMember) × (left.host_user_id ≡ some m.user_id)
                  × All (λ other. m.joined_order ≤ other.joined_order) (values left.members))))
unfolding without members_in_order
without-host u r = elim (Bool-cases (is_host u r)) [
  | inl h ↦ inr (h, rw h (heir (values (delete ActorId-discrete u r.members))))
  | inr h ↦ inl (h, ground arith)
]
  where
    heir :
        (ms : List LobbyMember)
        → ((ms ≡ []) × (first_user (sort_by (λ m. m.joined_order) ms) ≡ none))
          ⊎ ((m : LobbyMember) × (first_user (sort_by (λ m. m.joined_order) ms) ≡ some m.user_id)
              × All (λ other. m.joined_order ≤ other.joined_order) ms)
    heir [] = inl (refl, refl)
    heir (m ∷ ms) =
        first (sort_by (λ m. m.joined_order) (m ∷ ms)) (insert_by-ne (λ m. m.joined_order) m _)
          (Starts-sort (λ m. m.joined_order) (m ∷ ms))
      where
        first :
            (sorted : List LobbyMember)
            → sorted ≢ []
            → Starts (λ m. m.joined_order) sorted (m ∷ ms)
            → ((m ∷ ms ≡ []) × (first_user sorted ≡ none))
              ⊎ ((a : LobbyMember) × (first_user sorted ≡ some a.user_id)
                  × All (λ other. a.joined_order ≤ other.joined_order) (m ∷ ms))
        first [] ne s = absurd (ne refl)
        first (a ∷ rest) ne s = inr (a, refl, s)
