-- ===== src/Rooms/Room/Histories/Liveness.antt =====
-- Time moves a room on (room.ts): a countdown that is over becomes a game, unless everybody has gone.
use sw_itch_remake.Base.{
  ℕ, ◌≡◌, ◌≢◌, refl, sym, ◌∙◌, ap, subst, true, false, ◌&&◌, ◌||◌, not, Option, none, some, List,
  [], ◌∷◌, ◌==◌, ==_iff, arith, inl, inr, if◌then◌else◌, is_some, if_both, Option-cases, Bool-cases,
  ◌⊎◌, ◌+◌,
}
use sw_itch_remake.Types.{RoomState, countdown, playing, post_game, closed}
use sw_itch_remake.Rooms.StateMachine.{is_same, transition}
use sw_itch_remake.Rooms.Roster.{size, occupied_size}
use sw_itch_remake.Rooms.Room.State.{
  Effect, directory_changed, Room, RoomOptions, RoomStartSnapshot, emit, state_of, with_roster,
  go_to, projection, same_projection,
}
use sw_itch_remake.Rooms.Room.Broadcast.{broadcast_current_game, broadcast_lobby_state}
use sw_itch_remake.Rooms.Room.Advance.{
  is_over, begin_with, begin_game, return_to_lobby, close_if_deserted, advance_open, advance,
}
use sw_itch_remake.Rooms.Room.HandOff.{new, cancel_hand_off}
use sw_itch_remake.Rooms.Room.Invariant.{Ready}
use sw_itch_remake.Rooms.Room.Calls.{Call, run, AllProper}
use sw_itch_remake.Rooms.Room.Histories.{run-Inv}
use sw_itch_remake.Rooms.Room.Histories.Sweeping.{Goes, close-size, expire_users-Goes}

begin_with-plays :
    (now : ℕ) (s : RoomStartSnapshot) (x : Room)
    → state_of x ≡ countdown
    → state_of (begin_with now s x) ≡ playing
unfolding begin_with broadcast_lobby_state broadcast_current_game emit go_to transition
begin_with-plays now s x e = rw e refl

begins :
    (now : ℕ) (o : Option RoomStartSnapshot) (x : Room)
    → is_some o ≡ true
    → state_of x ≡ countdown
    → state_of (elim o [ none ↦ record x { thrown = true } | some s ↦ begin_with now s x ])
      ≡ playing
begins now none x h e = cc
begins now (some s) x h e = begin_with-plays now s x e

begin_game-plays :
    (now : ℕ) (x : Room)
    → state_of x ≡ countdown
    → is_over x.countdown_ends_at now ≡ true
    → is_some x.start_snapshot ≡ true
    → state_of (begin_game now x) ≡ playing
unfolding begin_game
begin_game-plays now x here over ready =
    let due : (is_same (state_of x) countdown && is_over x.countdown_ends_at now) ≡ true =
      ground arith in
    rw due (begins now x.start_snapshot x ready here)

return_to_lobby-plays :
    (now : ℕ) (x : Room) → state_of x ≡ playing → state_of (return_to_lobby now x) ≡ playing
unfolding return_to_lobby
return_to_lobby-plays now x here =
    let rests : (is_same (state_of x) post_game && is_over x.post_game_ends_at now) ≡ false =
      ground arith in
    rw rests here

close_if_deserted-size :
    (now : ℕ) (x : Room) → size (close_if_deserted now x).roster ≡ size x.roster
unfolding close_if_deserted
close_if_deserted-size now x =
    if_both (λ (y : Room). size y.roster ≡ size x.roster)
      (not (is_same (state_of x) RoomState.allocating) || occupied_size x.roster == 0) _ _
      (λ e. close-size now x) (λ e. refl)

-- What is over becomes a game, or nobody is left.
abbrev Plays : Room → Type 0
Plays x = (size x.roster ≢ 0) → state_of x ≡ playing

swept-Plays :
    (now : ℕ) (r x : Room)
    → Goes r x
    → state_of r ≡ countdown
    → is_over r.countdown_ends_at now ≡ true
    → is_some r.start_snapshot ≡ true
    → Plays (
        if size x.roster == 0
        then close_if_deserted now x
        else return_to_lobby now (begin_game now x))
swept-Plays now r x goes here over ready =
    if_both Plays (size x.roster == 0) _ _
      (λ empty people. absurd (people (close_if_deserted-size now x ∙ (==_iff _ 0).0 empty)))
      (λ full people. steps goes full)
  where
    steps :
        Goes r x
        → (size x.roster == 0) ≡ false
        → state_of (return_to_lobby now (begin_game now x)) ≡ playing
    steps (inr e) full = cc ((==_iff (size x.roster) 0).1 e)
    steps (inl h) full = return_to_lobby-plays now (begin_game now x) (
        begin_game-plays now x (ap (λ m. m.state) h.0 ∙ here)
          (subst (λ o. is_over o now ≡ true) (sym h.1) over)
          (subst (λ o. is_some o ≡ true) (sym h.2) ready))

advance_open-Plays :
    (now : ℕ) (r : Room)
    → state_of r ≡ countdown
    → is_over r.countdown_ends_at now ≡ true
    → is_some r.start_snapshot ≡ true
    → Plays (advance_open now r)
unfolding advance_open with_roster
advance_open-Plays now r here over ready =
    let open' : is_same (state_of r) closed ≡ false = ground arith in
    rw open'
      (swept-Plays now r _ (expire_users-Goes now _ r _ (inl (refl, refl, refl))) here over ready)

emit-Plays : (es : List Effect) (x : Room) → Plays x → Plays (emit es x)
unfolding emit
emit-Plays es x h = h

advance-Plays :
    (now : ℕ) (r : Room)
    → r.handing_off ≡ false
    → state_of r ≡ countdown
    → is_over r.countdown_ends_at now ≡ true
    → is_some r.start_snapshot ≡ true
    → Plays (advance now r)
unfolding advance
advance-Plays now r stays here over ready =
    let after = advance_open-Plays now r here over ready in
    if_both Plays r.handing_off _ _ (λ e. cc)
      (λ e.
        if_both Plays (same_projection (projection r) (projection (advance_open now r)))
          (advance_open now r) (emit (directory_changed ∷ []) (advance_open now r)) (λ same. after)
          (λ other. emit-Plays _ (advance_open now r) after))

countdown-Ready :
    (r : Room)
    → state_of r ≡ countdown
    → Ready (state_of r) r.countdown_ends_at r.post_game_ends_at r.start_snapshot
    → (is_some r.countdown_ends_at ≡ true) × (is_some r.start_snapshot ≡ true)
countdown-Ready r here ready =
    subst (λ st. Ready st r.countdown_ends_at r.post_game_ends_at r.start_snapshot) here ready

-- Nobody is left, or a game runs.
abbrev pub Ended : Room → Type 0
Ended x = (size x.roster ≡ 0) ⊎ (state_of x ≡ playing)

Plays-Ended : (x : Room) → Plays x → Ended x
Plays-Ended x plays = elim (Bool-cases (size x.roster == 0)) [
  | inl empty ↦ inl ((==_iff _ 0).0 empty)
  | inr full ↦ inr (plays (λ e. cc ((==_iff (size x.roster) 0).1 e)))
]

thawed-Ended :
    (now : ℕ) (x : Room)
    → state_of x ≡ countdown
    → is_over x.countdown_ends_at now ≡ true
    → is_some x.start_snapshot ≡ true
    → Ended (advance now (cancel_hand_off x))
unfolding cancel_hand_off
thawed-Ended now x here over lined =
    Plays-Ended (advance now (record x { handing_off = false }))
      (advance-Plays now (record x { handing_off = false }) refl here over lined)

-- In every countdown that any calls on a new room lead to there is a time at which it ends: when time is
-- advanced to it, or later, the room plays, or nobody is left in it. That is so unless the room is frozen for
-- its move to another server, and for a frozen room once the move is called off. Those who come with the room
-- from another server must come when it has just been made, be neither in it nor kicked from it, and have the
-- number and the colour of a seat that nobody else has.
pub run-countdown_ends :
    (now : ℕ) (options : RoomOptions) (r : Room) (cs : List (ℕ × Call)) (late : ℕ)
    → new now options ≡ some r
    → AllProper r cs
    → state_of (run r cs) ≡ countdown
    → (ends : ℕ) × ((run r cs).countdown_ends_at ≡ some ends)
      × (((run r cs).handing_off ≡ true) ⊎ Ended (advance (ends + late) (run r cs)))
      × Ended (advance (ends + late) (cancel_hand_off (run r cs)))
run-countdown_ends now options r cs late made proper here =
    let x = run r cs in
    let ready = countdown-Ready x here (run-Inv now options r made cs proper).ready in
    elim (Option-cases x.countdown_ends_at) [
      | inl never ↦ absurd (ground (arith, ready.0, never))
      | inr (ends, set) ↦
          let over : is_over x.countdown_ends_at (ends + late) ≡ true = rw set (ground arith) in
          (
            ends,
            set,
            elim (Bool-cases x.handing_off) [
              | inl frozen ↦ inl frozen
              | inr stays ↦ inr (
                  Plays-Ended (advance (ends + late) x)
                    (advance-Plays (ends + late) x stays here over ready.1))
            ],
            thawed-Ended (ends + late) x here over ready.1,
          )
    ]
