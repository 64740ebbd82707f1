-- ===== src/Simulation/Config.antt =====
-- The numbers of shared/src/protocol/tuning.ts and server-game/src/config/{gameplay,network}.ts that a tick
-- reads.
use sw_itch_remake.Base.{ℕ}
use sw_itch_remake.Simulation.Floats.{Floats, of_ℕ}

abbrev pub simulation_hz : ℕ
simulation_hz = 60

abbrev pub emoji_display_ms : ℕ
emoji_display_ms = 3_000

abbrev pub survivors_to_win : ℕ
survivors_to_win = 2

abbrev pub player_collision_iterations : ℕ
player_collision_iterations = 4

abbrev pub tagger_change_cooldown_ms : ℕ
tagger_change_cooldown_ms = 15_000

-- Distances are in pixels, 256 to a tile.
module _ (f : Floats) where
  open f use {Num, lit, mul}

  abbrev pub tile_px : Num
  tile_px = of_ℕ f 256

  abbrev pub base_move_speed : Num
  base_move_speed = mul (lit 21 10) tile_px

  abbrev pub max_substep_distance : Num
  max_substep_distance = of_ℕ f 48

  abbrev pub push_base_power : Num
  push_base_power = of_ℕ f 1

  abbrev pub push_speed_factor : Num
  push_speed_factor = lit 1 100

  abbrev pub decrease_floor : Num
  decrease_floor = lit 3 10

  abbrev pub dash_speed_increase : Num
  dash_speed_increase = lit 5 10

  abbrev pub dash_duration_ms : Num
  dash_duration_ms = of_ℕ f 4_000

  abbrev pub dash_cooldown_ms : Num
  dash_cooldown_ms = of_ℕ f 13_000

  abbrev pub flash_distance : Num
  flash_distance = mul (lit 35 10) tile_px

  abbrev pub wall_exit_max : Num
  wall_exit_max = mul (of_ℕ f 2) tile_px

  abbrev pub flash_cooldown_ms : Num
  flash_cooldown_ms = of_ℕ f 10_000

  abbrev pub exhaust_speed_decrease : Num
  exhaust_speed_decrease = lit 25 100

  abbrev pub exhaust_duration_ms : Num
  exhaust_duration_ms = of_ℕ f 4_000

  abbrev pub exhaust_range : Num
  exhaust_range = mul (lit 18 10) tile_px

  abbrev pub exhaust_cooldown_ms : Num
  exhaust_cooldown_ms = of_ℕ f 18_000

  abbrev pub exhaust_self_decrease : Num
  exhaust_self_decrease = lit 1 10

  abbrev pub exhaust_self_duration_ms : Num
  exhaust_self_duration_ms = of_ℕ f 2_500

  abbrev pub switch_range : Num
  switch_range = mul (lit 14 10) tile_px

  abbrev pub switch_cooldown_ms : Num
  switch_cooldown_ms = of_ℕ f 4_000

  abbrev pub frenzy_speed_increase : Num
  frenzy_speed_increase = lit 2 10

  abbrev pub frenzy_duration_ms : Num
  frenzy_duration_ms = of_ℕ f 5_000

  abbrev pub frenzy_tag_bonus_increase : Num
  frenzy_tag_bonus_increase = lit 5 100

  abbrev pub frenzy_tag_bonus_ms : Num
  frenzy_tag_bonus_ms = of_ℕ f 5_000

  abbrev pub switch_victim_speed_decrease : Num
  switch_victim_speed_decrease = lit 1 10

  abbrev pub switch_victim_duration_ms : Num
  switch_victim_duration_ms = of_ℕ f 4_000

  abbrev pub near_tagger_cooldown_bonus : Num
  near_tagger_cooldown_bonus = lit 5 10

  abbrev pub near_tagger_radius : Num
  near_tagger_radius = mul (of_ℕ f 6) tile_px
