-- ===== src/Simulation/Tests.antt =====
-- Runs and instances of server-game/src/simulation, over whole numbers in place of doubles.
use sw_itch_remake.Base.{
  ℕ, ◌+◌, ◌-◌, ◌*◌, ◌/◌, ◌≤◌, ◌≡◌, refl, Bool, true, false, none, some, [], ◌∷◌, arith, leb, ◌==◌,
  count, update_first,
}
use sw_itch_remake.Base.Maps.{get}
use sw_itch_remake.Base.Int.{ℤ, pos, negsuc}
use sw_itch_remake.Protocol.Skills.{dash, switch, switch_slot, role}
use sw_itch_remake.Simulation.Floats.{Floats}
use sw_itch_remake.Simulation.World.{
  PlayerState, World, WorldMap, StormRect, Effects, empty_stats, is_living_tagger,
}
use sw_itch_remake.Simulation.Terrain.{Displacement, resolve_static}
use sw_itch_remake.Simulation.Effects.{is_ready, ms_to_ticks}
use sw_itch_remake.Simulation.Skills.{
  SkillRequest, use_skill_by, cast_if_ready, cast, use_switch, use_switch_on, use_switch_to,
  refused, use_skill, skill_in_slot, find_flash_landing,
}
use sw_itch_remake.Simulation.Step.{
  step_world, tag_pairs, tag_pair, tag_victim, extend_frenzy_on_tag, resolve_tagging,
}
use sw_itch_remake.Simulation.Scheduler.{Rooms, Scheduler, advance}
use sw_itch_remake.Simulation.Scheduler.Laws.{CaughtUp, advance-CaughtUp}
use sw_itch_remake.Simulation.Roles.{role_has, roles_of}
use sw_itch_remake.Simulation.Roles.Requests.{Answered, use_skill-Answered}
use sw_itch_remake.Simulation.Roles.Tagging.{eliminations, Tagged, resolve_tagging-Tagged}
use sw_itch_remake.Simulation.Roles.Fairness.{
  IsFair, is_alive, step_world-IsFair, step_world-tagger, step_world-survivors,
}
use sw_itch_remake.Simulation.Costs.Refusals.{use_skill-costless}
use sw_itch_remake.Simulation.Costs.Cooldowns.{Cooling, cooldown_ms, is_charged, use_skill-Charged}
use sw_itch_remake.Simulation.Geometry.{
  IsOrder, Counts, Inside, Lands, resolve_static-Inside, find_flash_landing-Lands,
}

abbrev of_integer : ℤ → ℕ
of_integer (pos n) = n
of_integer (negsuc n) = 0

-- Whole numbers, with the distance along the axes.
abbrev pub whole : Floats
whole = record {
  Num = ℕ;
  lit = λ n d. n / d;
  of_int = of_integer;
  add = λ a b. a + b;
  sub = λ a b. a - b;
  mul = λ a b. a * b;
  div = λ a b. a / b;
  neg = λ a. a;
  sqrt = λ a. a;
  hypot = λ a b. a + b;
  floor = λ a. pos a;
  round = λ a. a;
  ceil = λ a. a;
  leb = leb;
  eqb = λ a b. a == b;
}

abbrev calm : Effects ℕ
calm = record { dash = none; frenzy = none; exhaust = none }

abbrev pub player_at : ℕ → ℕ → Bool → PlayerState ℕ
player_at id x tagger = record {
  player_id = id;
  x = x;
  y = 1000;
  vx = 0;
  vy = 0;
  facing_x = 1;
  facing_y = 0;
  radius = 100;
  sight_range = 4096;
  color_index = id;
  alive = true;
  is_tagger = tagger;
  connected = true;
  effects = calm;
  cooldowns = [];
  loadout = dash;
  emoji = none;
  stats = empty_stats;
}

abbrev pub empty_map : WorldMap ℕ
empty_map = record {
  map_id = "yard";
  cols = 8;
  rows = 8;
  tile_size = 256;
  tiles = [];
  barrier_speed = 0;
  timeline = [];
}

-- A tagger, a runner beside it and a runner far away.
abbrev yard : World ℕ
yard = record {
  tick = 100;
  simulation_hz = 60;
  map = empty_map;
  players = player_at 1 1000 true ∷ player_at 2 1100 false ∷ player_at 3 1900 false ∷ [];
  storm = none;
  tile_changes = [];
  tagger_changed_at_tick = 0;
  random_state = 7;
}

yard-IsFair : IsFair yard
yard-IsFair = (λ id. ground arith, omega arith)

abbrev switch_to_3 : SkillRequest
switch_to_3 = record { player_id = 2; slot = switch_slot; target_player_id = some 3 }

step_world-IsFair_example : IsFair (step_world whole yard [] (switch_to_3 ∷ []) []).world
step_world-IsFair_example = step_world-IsFair whole yard [] (switch_to_3 ∷ []) [] yard-IsFair

step_world-tagger_example :
    count is_living_tagger (step_world whole yard [] (switch_to_3 ∷ []) []).world.players ≡ 1
step_world-tagger_example = step_world-tagger whole yard [] (switch_to_3 ∷ []) [] yard-IsFair refl

step_world-survivors_example :
    count is_alive (step_world whole yard [] [] []).world.players
      + eliminations (step_world whole yard [] [] []).events
    ≡ 3
step_world-survivors_example = step_world-survivors whole yard [] [] [] yard-IsFair

use_skill-Answered_example : Answered whole yard (use_skill whole yard switch_to_3 [])
use_skill-Answered_example = use_skill-Answered whole yard switch_to_3 []

switch_to_3-slot : skill_in_slot (player_at 2 1100 false) switch_slot ≡ some switch
unfolding skill_in_slot
switch_to_3-slot = refl

switch_to_3-charged : is_charged whole (use_skill whole yard switch_to_3 []).outcome ≡ true
unfolding use_skill use_skill_by cast_if_ready is_ready cast use_switch use_switch_on use_switch_to
    skill_in_slot get
switch_to_3-charged = refl

use_skill-Charged_example :
    Cooling whole 2 switch
      (ms_to_ticks whole (cooldown_ms whole switch) 60)
      (use_skill whole yard switch_to_3 []).world.players
use_skill-Charged_example =
    use_skill-Charged whole yard switch_to_3 [] (player_at 2 1100 false) switch refl
      switch_to_3-slot switch_to_3-charged

-- The tagger has no switch.
abbrev switch_of_1 : SkillRequest
switch_of_1 = record { player_id = 1; slot = switch_slot; target_player_id = some 3 }

switch_of_1-refused : (use_skill whole yard switch_of_1 []).outcome ≡ refused role
unfolding use_skill use_skill_by
switch_of_1-refused = refl

use_skill-costless_example :
    ((use_skill whole yard switch_of_1 []).world ≡ yard)
    × ((use_skill whole yard switch_of_1 []).events ≡ [])
use_skill-costless_example =
    use_skill-costless whole yard switch_of_1 [] role switch_of_1-refused refl

-- The same players, long after the last change of the tagger.
abbrev late_yard : World ℕ
late_yard = record yard { tick = 2000 }

late_yard-ids : (id : ℕ) → count (role_has id) (roles_of late_yard.players) ≤ 1
late_yard-ids id = ground arith

resolve_tagging-Tagged_example :
    Tagged whole (yard, []) (resolve_tagging whole ((1, 2) ∷ []) (yard, []))
resolve_tagging-Tagged_example =
    resolve_tagging-Tagged whole ((1, 2) ∷ []) (yard, []) (λ e. omega arith, tt) (omega arith)

-- Tagging takes the runner out.
tagging_takes : count is_alive (resolve_tagging whole ((1, 2) ∷ []) (yard, [])).0.players ≡ 2
unfolding resolve_tagging tag_pairs tag_pair tag_victim update_first extend_frenzy_on_tag
tagging_takes = refl

whole-IsOrder : IsOrder whole
whole-IsOrder = record {
  leb_refl = λ a. ground arith;
  leb_trans = λ a b c h k. ground arith;
  leb_total = λ a b h. ground arith;
}

whole-Counts : Counts whole
whole-Counts = record {
  next_le = λ n t s small h k. ground arith;
  between = λ n m t small small' h k. ground arith;
}

abbrev square : StormRect ℕ
square = record { x = 256; y = 256; width = 1024; height = 1024 }

resolve_static-Inside_example :
    Inside whole whole-IsOrder 100 square (resolve_static whole empty_map 100 40 40 square)
resolve_static-Inside_example =
    resolve_static-Inside whole whole-IsOrder empty_map 100 40 40 square (refl, refl)

abbrev here : Displacement whole
here = record { x = 100; y = 100 }

abbrev is_far : Displacement whole → Bool
is_far p = leb 1200 p.x

find_flash_landing-Lands_example :
    Lands whole whole-IsOrder whole-Counts here is_far
      (find_flash_landing whole here 1 0 896 512 100 is_far)
find_flash_landing-Lands_example =
    find_flash_landing-Lands whole whole-IsOrder whole-Counts here 1 0 896 512 100 is_far refl refl

-- Rooms that count their steps.
abbrev rooms : Rooms ℕ ℕ
rooms = record { step = λ id e. (e + 1, some e); publish = λ id frame e. e }

abbrev started : Scheduler whole
started = record {
  targets = "a" ∷ [];
  accumulator_ms = 0;
  last_now_ms = some 1000;
  tick_counter = 0;
  running = true;
  loop_lag_ms = 0;
  dropped_ms = 0;
  target_count = 1;
}

advance-CaughtUp_example :
    CaughtUp whole rooms 5 started (advance whole rooms 1200 1201 (started, 0)).0
advance-CaughtUp_example = advance-CaughtUp whole rooms 1200 1201 1000 started 0 refl refl
