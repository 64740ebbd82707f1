-- ===== src/Simulation/Motion.antt =====
-- server-game/src/simulation/movement.ts and player-collision.ts: inputs, speeds and players that touch.
use sw_itch_remake.Base.{
  ℕ, zero, suc, max, Bool, ◌||◌, not, List, [], ◌∷◌, ◌++◌, if◌then◌else◌, ◌==◌, filter, sort_by,
  length,
}
use sw_itch_remake.Protocol.Input.{InputState, movement_vector}
use sw_itch_remake.Simulation.Floats.{Floats, of_ℕ}
use sw_itch_remake.Simulation.Floats
use sw_itch_remake.Simulation.Config.{
  base_move_speed, decrease_floor, max_substep_distance, push_base_power, push_speed_factor,
  simulation_hz,
}
use sw_itch_remake.Simulation.World.{PlayerState, ResolvedInput}
use sw_itch_remake.Simulation.Effects.{current_speed}
use sw_itch_remake.Simulation.Terrain.{Displacement}

-- `CollisionPair`, the ids of two players that touched.
abbrev pub CollisionPair : Type 0
CollisionPair = ℕ × ℕ

module _ (f : Floats) where
  open f use {Num, lit, add, sub, mul, div, neg, sqrt, hypot, ceil, leb, eqb, of_int}

  -- `Math.SQRT1_2`.
  abbrev pub sqrt_half : Num
  sqrt_half = sqrt (lit 1 2)

  abbrev pub scaled_by_half : Bool → Num → Num
  scaled_by_half scaled v = if scaled then mul v sqrt_half else v

  unfoldable pub resolve_input : InputState → ℕ → ResolvedInput Num
  resolve_input state player_id =
      let v = movement_vector state in
      record {
        player_id = player_id;
        move_x = scaled_by_half v.scaled (of_int v.x);
        move_y = scaled_by_half v.scaled (of_int v.y);
        held_actions = state.held_actions;
        last_processed_sequence = state.sequence;
      }

  -- `SIMULATION_STEP_MS / 1000`.
  abbrev pub dt : Num
  dt = div (div (of_ℕ f 1000) (of_ℕ f simulation_hz)) (of_ℕ f 1000)

  abbrev pub moves : ResolvedInput Num → Bool
  moves i = not (eqb i.move_x (of_ℕ f 0)) || not (eqb i.move_y (of_ℕ f 0))

  -- `integrate`: the player with its velocity, and the position it aims at.
  unfoldable pub integrate : PlayerState Num → ResolvedInput Num → PlayerState Num × Displacement f
  integrate p i =
      let speed = current_speed f (base_move_speed f) (decrease_floor f) p in
      let vx = mul i.move_x speed in
      let vy = mul i.move_y speed in
      (
        record p {
          vx = vx;
          vy = vy;
          facing_x = if moves i then i.move_x else p.facing_x;
          facing_y = if moves i then i.move_y else p.facing_y;
        },
        record { x = add p.x (mul vx dt); y = add p.y (mul vy dt) },
      )

  unfoldable pub substep_count : Num → Num → Num → Num → ℕ
  substep_count from_x from_y to_x to_y =
      max 1 (ceil (div (hypot (sub to_x from_x) (sub to_y from_y)) (max_substep_distance f)))

  -- The square of the distance from a to b.
  abbrev pub dist_sq : PlayerState Num → PlayerState Num → Num
  dist_sq a b = add (mul (sub b.x a.x) (sub b.x a.x)) (mul (sub b.y a.y) (sub b.y a.y))

  abbrev pub min_dist : PlayerState Num → PlayerState Num → Num
  min_dist a b = add a.radius b.radius

  unfoldable pub touches : PlayerState Num → PlayerState Num → Bool
  touches a b = not (leb (mul (min_dist a b) (min_dist a b)) (dist_sq a b))

  -- Both players moved apart along (nx, ny), at the distance given.
  unfoldable pub push_apart :
      Num → Num → Num → PlayerState Num → PlayerState Num → PlayerState Num × PlayerState Num
  push_apart dist nx ny a b =
      let penetration = sub (min_dist a b) dist in
      let approach_a = Floats.max f (of_ℕ f 0) (add (mul a.vx nx) (mul a.vy ny)) in
      let approach_b = Floats.max f (of_ℕ f 0) (add (mul b.vx (neg nx)) (mul b.vy (neg ny))) in
      let power_a = add (push_base_power f) (mul approach_a (push_speed_factor f)) in
      let power_b = add (push_base_power f) (mul approach_b (push_speed_factor f)) in
      let total = add power_a power_b in
      let move_a = div (mul penetration power_b) total in
      let move_b = div (mul penetration power_a) total in
      (
        record a { x = sub a.x (mul nx move_a); y = sub a.y (mul ny move_a) },
        record b { x = add b.x (mul nx move_b); y = add b.y (mul ny move_b) },
      )

  -- What follows the push of a pair: on one point, the axis (1, 0) is taken.
  unfoldable pub separate : PlayerState Num → PlayerState Num → PlayerState Num × PlayerState Num
  unfolding push_apart
  separate a b =
      let same = eqb (dist_sq a b) (of_ℕ f 0) in
      let dx = if same then of_ℕ f 1 else sub b.x a.x in
      let dy = if same then of_ℕ f 0 else sub b.y a.y in
      let dist = sqrt (if same then of_ℕ f 1 else dist_sq a b) in
      push_apart dist (div dx dist) (div dy dist) a b

  -- The inner loop, of one player against those after it.
  unfoldable pub separate_from :
      PlayerState Num
      → List (PlayerState Num)
      → PlayerState Num × List (PlayerState Num) × List CollisionPair
  unfolding separate touches
  separate_from a [] = (a, [], [])
  separate_from a (b ∷ bs) =
      let touching = touches a b in
      let moved = separate a b in
      let rest = separate_from (if touching then moved.0 else a) bs in
      (
        rest.0,
        (if touching then moved.1 else b) ∷ rest.1,
        if touching then (a.player_id, b.player_id) ∷ rest.2 else rest.2,
      )

  -- The outer loop, for as many players as the number says.
  unfoldable pub separate_all :
      ℕ → List (PlayerState Num) → List (PlayerState Num) × List CollisionPair
  unfolding separate_from
  separate_all zero ps = (ps, [])
  separate_all (suc n) [] = ([], [])
  separate_all (suc n) (a ∷ bs) =
      let one = separate_from a bs in
      let rest = separate_all n one.1 in (one.0 ∷ rest.0, one.2 ++ rest.1)

  -- The players with the positions that the moved ones have: the source moves the objects themselves.
  abbrev pub place : List (PlayerState Num) → PlayerState Num → PlayerState Num
  place [] p = p
  place (m ∷ ms) p =
      let rest = place ms p in
      if m.player_id == p.player_id then record p { x = m.x; y = m.y } else rest

  unfoldable pub place_all :
      List (PlayerState Num) → List (PlayerState Num) → List (PlayerState Num)
  place_all moved [] = []
  place_all moved (p ∷ ps) = place moved p ∷ place_all moved ps

  abbrev pub active : List (PlayerState Num) → List (PlayerState Num)
  active players = sort_by (λ p. p.player_id) (filter (λ p. p.alive) players)

  unfoldable pub resolve_player_collisions :
      List (PlayerState Num) → List (PlayerState Num) × List CollisionPair
  unfolding separate_all place_all
  resolve_player_collisions players =
      let result = separate_all (length (active players)) (active players) in
      (place_all result.0 players, result.1)
