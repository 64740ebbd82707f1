-- ===== src/Rooms/StateMachine.antt =====
-- server-game/src/rooms/room-state.ts: which phase of a room may follow which.
use sw_itch_remake.Base.{
  ℕ, ◌≤◌, ◌≡◌, refl, ◌⊎◌, inl, inr, ◌≢◌, Bool, true, false, ◌&&◌, List, [], ◌∷◌, arith, any,
  if◌then◌else◌, Bool-cases, ◌+◌,
}
use sw_itch_remake.Types.{RoomState, allocating, waiting, countdown, playing, post_game, closed}

-- `TRANSITIONS`.
abbrev pub transitions : RoomState → List RoomState
transitions allocating = waiting ∷ closed ∷ []
transitions waiting = countdown ∷ closed ∷ []
transitions countdown = playing ∷ closed ∷ []
transitions playing = post_game ∷ closed ∷ []
transitions post_game = waiting ∷ closed ∷ []
transitions closed = []

abbrev pub is_same : RoomState → RoomState → Bool
is_same allocating allocating = true
is_same waiting waiting = true
is_same countdown countdown = true
is_same playing playing = true
is_same post_game post_game = true
is_same closed closed = true
is_same _ _ = false

pub record RoomStateMachine : Type 0 where
  pub state : RoomState
  pub entered_at : ℕ

unfoldable pub new : ℕ → RoomStateMachine
new created_at = record { state = allocating; entered_at = created_at }

-- The machine after it, and whether the transition was allowed: the source throws where it was not.
unfoldable pub transition : RoomStateMachine → RoomState → ℕ → RoomStateMachine × Bool
transition m next now =
    if any (is_same next) (transitions m.state)
    then (record { state = next; entered_at = now }, true)
    else (m, false)

-- The diagram: a room opens, goes round the phases of a game, and may be closed at any time.
infix 40 ◌⟶◌
pub data ◌⟶◌ : RoomState → RoomState → Type 0 where
  opens : allocating ⟶ waiting
  counts_down : waiting ⟶ countdown
  starts : countdown ⟶ playing
  ends : playing ⟶ post_game
  returns : post_game ⟶ waiting
  closes : {s : RoomState} → s ≢ closed → s ⟶ closed

ruleset edges = (opens, counts_down, starts, ends, returns)

edge-allowed : {s t : RoomState} → s ⟶ t → any (is_same t) (transitions s) ≡ true
edge-allowed opens = refl
edge-allowed counts_down = refl
edge-allowed starts = refl
edge-allowed ends = refl
edge-allowed returns = refl
edge-allowed (closes {s} h) = ground arith

-- A transition is allowed exactly along the edges of the diagram: either there is an edge, and the machine
-- is in the new phase since the given time, or there is none, and nothing changes.
pub transition_exact :
    (m : RoomStateMachine) (next : RoomState) (now : ℕ)
    → ((m.state ⟶ next)
        × (transition m next now ≡ (record { state = next; entered_at = now }, true)))
      ⊎ ((¬ (m.state ⟶ next)) × (transition m next now ≡ (m, false)))
unfolding transition
transition_exact m next now = elim (Bool-cases (any (is_same next) (transitions m.state))) [
  | inl e ↦ inl (grind (arith, edges, closes), ground arith)
  | inr e ↦ inr (λ h. absurd (ground (arith, edge-allowed h)), ground arith)
]

-- Requests for phases, in order, each with its time.
unfoldable pub run : RoomStateMachine → List (RoomState × ℕ) → RoomStateMachine
run m [] = m
run m ((next, now) ∷ later) = run (transition m next now).0 later

-- How many requests for the phase were allowed.
unfoldable pub entries : RoomState → RoomStateMachine → List (RoomState × ℕ) → ℕ
entries s m [] = 0
entries s m ((next, now) ∷ later) =
    (if (transition m next now).1 && is_same s next then 1 else 0)
    + entries s (transition m next now).0 later

-- The games that a room in this phase has ahead of it without a new countdown.
abbrev pub due : RoomState → ℕ
due countdown = 1
due _ = 0

transition-due :
    (m : RoomStateMachine) (next : RoomState) (now : ℕ)
    → let (m', done) = transition m next now in
      due m'.state + (if done && is_same playing next then 1 else 0)
      ≤ due m.state + (if done && is_same countdown next then 1 else 0)
unfolding transition
transition-due m next now = ground arith

games_need_countdowns_from :
    (m : RoomStateMachine) (requests : List (RoomState × ℕ))
    → entries playing m requests ≤ entries countdown m requests + due m.state
unfolding entries
games_need_countdowns_from m [] = omega arith
games_need_countdowns_from m ((next, now) ∷ later) =
    ground
      (arith, games_need_countdowns_from (transition m next now).0 later, transition-due m next now)

-- In the life of a room no game begins without a countdown of its own: there are never more games than
-- countdowns.
pub games_need_countdowns :
    (created_at : ℕ) (requests : List (RoomState × ℕ))
    → entries playing (new created_at) requests ≤ entries countdown (new created_at) requests
unfolding new
games_need_countdowns created_at requests =
    omega (arith, games_need_countdowns_from (new created_at) requests)

-- A closed room stays as it is, whatever is asked of it.
pub closed_stays :
    (m : RoomStateMachine) (requests : List (RoomState × ℕ)) → m.state ≡ closed → run m requests ≡ m
unfolding run transition
closed_stays m [] h = refl
closed_stays m ((next, now) ∷ later) h = ground (arith, closed_stays m later h)
