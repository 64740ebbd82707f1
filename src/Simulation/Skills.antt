-- ===== src/Simulation/Skills.antt =====
-- server-game/src/simulation/skills.ts: what a request for a skill does to the world. An assignment to the
-- object that a search has found is a change of the first player with that id, or of the first living tagger.

use sw_itch_remake.Base.{
  ℕ, zero, suc, ◌+◌, Bool, true, false, ◌&&◌, not, Option, none, some, List, [], ◌∷◌, ◌++◌,
  if◌then◌else◌, ◌==◌, filter, sort_by,
}
use sw_itch_remake.Protocol.Skills.{
  SkillId, dash, flash, exhaust, switch, SkillRejection, not_alive, no_skill, on_cooldown, role,
  out_of_range, no_target, no_tagger, switch_slot, movement_slot,
}
use sw_itch_remake.Simulation.Floats.{Floats, of_ℕ}
use sw_itch_remake.Simulation.Floats
use sw_itch_remake.Simulation.Config
use sw_itch_remake.Simulation.World
use sw_itch_remake.Simulation.World.{
  PlayerState, World, WorldEvent, tagged, blinked, skill_area, MatchStats, find_player, find_tagger,
  update_player, update_tagger, has_id, StormRect,
}
use sw_itch_remake.Simulation.Effects.{apply_effect, start_cooldown, is_ready}
use sw_itch_remake.Simulation.Terrain.{Displacement, storm_rect, is_position_free}

pub record SkillRequest : Type 0 where
  pub player_id : ℕ
  pub slot : ℕ
  pub target_player_id : Option ℕ

pub data SkillOutcome : Type 0 where
  used : SkillId → SkillOutcome
  refused : SkillRejection → SkillOutcome

-- The search for a landing point, which gives up when its fuel is spent.
pub data Search (A : Type 0) : Type 0 where
  found : A → Search A
  blocked out_of_fuel : Search A

-- The distances are at most 896 pixels, and each round of the search advances by at least one.
abbrev pub search_fuel : ℕ
search_fuel = 1000

-- `skillInSlot`.
unfoldable pub skill_in_slot : {N : Type 0} → PlayerState N → ℕ → Option SkillId
skill_in_slot p slot =
    if slot == switch_slot
    then if p.is_tagger then none else some switch
    else if slot == movement_slot
    then some p.loadout
    else none

module _ {N : Type 0} where
  abbrev pub is_runner : PlayerState N → Bool
  is_runner p = p.alive && not p.is_tagger

  -- `livingRunners`, which the source calls with no exception.
  unfoldable pub rotation_candidates : World N → List (PlayerState N)
  rotation_candidates w = sort_by (λ p. p.player_id) (filter is_runner w.players)

  abbrev pub count_try : PlayerState N → PlayerState N
  count_try p = record p { stats = record p.stats { switch_try = p.stats.switch_try + 1 } }

  abbrev pub count_success : PlayerState N → PlayerState N
  count_success p = record p {
    stats = record p.stats { switch_success = p.stats.switch_success + 1 };
  }

  abbrev pub is_valid_target : PlayerState N → PlayerState N → Bool
  is_valid_target caster t = t.alive && not t.is_tagger && not (t.player_id == caster.player_id)

  -- What `find` gives for an id that may be missing.
  abbrev pub find_target : Option ℕ → World N → Option (PlayerState N)
  find_target none w = none
  find_target (some id) w = find_player id w

module _ (f : Floats) where
  open f use {Num, add, sub, mul, div, neg, hypot, leb, eqb}

  -- The world, the events sent so far and the outcome.
  pub record Used : Type 0 where
    pub world : World Num
    pub events : List (WorldEvent Num)
    pub outcome : SkillOutcome

  abbrev pub distance : PlayerState Num → PlayerState Num → Num
  distance a b = hypot (sub a.x b.x) (sub a.y b.y)

  -- `applyEffect`, `startCooldown` and `grantTaggerFrenzy` at the tick and the rate of a world.
  abbrev pub affected : World Num → World.EffectType → Num → Num → PlayerState Num → PlayerState Num
  affected w = apply_effect f w.tick w.simulation_hz

  unfoldable pub grant_tagger_frenzy : World Num → PlayerState Num → PlayerState Num
  grant_tagger_frenzy w =
      affected w World.frenzy (Config.frenzy_speed_increase f) (Config.frenzy_duration_ms f)

  unfoldable pub use_dash : World Num → PlayerState Num → List (WorldEvent Num) → Used
  use_dash w caster events = record {
    world =
        update_player caster.player_id
          (λ p.
            start_cooldown f w.simulation_hz dash (Config.dash_cooldown_ms f)
              (affected w World.dash (Config.dash_speed_increase f) (Config.dash_duration_ms f) p))
          w;
    events = events;
    outcome = used dash;
  }

  -- One of the two loops of `findFlashLanding`: points at the distances travelled, step by step, to the limit.
  module _ (free : Displacement f → Bool) (at : Num → Displacement f) (step_len limit : Num) where
    unfoldable pub first_free : ℕ → Num → Search (Displacement f)
    first_free zero travelled = out_of_fuel
    first_free (suc n) travelled =
        let rest = first_free n (add travelled step_len) in
        if leb travelled limit
        then if free (at travelled) then found (at travelled) else rest
        else blocked

  -- A point at a distance from another, in the direction.
  abbrev pub ahead : Displacement f → Num → Num → Num → Displacement f
  ahead from dir_x dir_y d = record { x = add from.x (mul dir_x d); y = add from.y (mul dir_y d) }

  abbrev pub behind : Displacement f → Num → Num → Num → Displacement f
  behind from dir_x dir_y d = record { x = sub from.x (mul dir_x d); y = sub from.y (mul dir_y d) }

  abbrev pub or_else : Search (Displacement f) → Search (Displacement f) → Search (Displacement f)
  or_else (found p) q = found p
  or_else blocked q = q
  or_else out_of_fuel q = out_of_fuel

  abbrev pub step_length : Num → Num
  step_length radius = Floats.max f (of_ℕ f 1) (div radius (of_ℕ f 2))

  unfoldable pub find_flash_landing :
      Displacement f
      → Num
      → Num
      → Num
      → Num
      → Num
      → (Displacement f → Bool)
      → Search (Displacement f)
  unfolding first_free
  find_flash_landing from dir_x dir_y distance max_overshoot radius free =
      let target = ahead from dir_x dir_y distance in
      let step_len = step_length radius in
      if free target
      then found target
      else or_else
          (or_else
            (first_free free (ahead target dir_x dir_y) step_len max_overshoot search_fuel step_len)
            (first_free free (behind target dir_x dir_y) step_len distance search_fuel step_len))
          (found from)

  -- Where the search ends; the fuel is enough, as a theorem states.
  abbrev pub landing : Displacement f → Search (Displacement f) → Displacement f
  landing from (found p) = p
  landing from blocked = from
  landing from out_of_fuel = from

  abbrev pub is_free : World Num → PlayerState Num → Displacement f → Bool
  is_free w p d = is_position_free f w.map p.radius d.x d.y (storm_rect f w)

  abbrev pub flash_landing : World Num → PlayerState Num → Displacement f
  flash_landing w caster =
      let len = hypot caster.facing_x caster.facing_y in
      let from : Displacement f = record { x = caster.x; y = caster.y } in
      landing from (
        find_flash_landing from (div caster.facing_x len) (div caster.facing_y len)
          (Config.flash_distance f) (Config.wall_exit_max f) caster.radius (is_free w caster))

  unfoldable pub use_flash : World Num → PlayerState Num → List (WorldEvent Num) → Used
  use_flash w caster events =
      let to = flash_landing w caster in
      if eqb (hypot caster.facing_x caster.facing_y) (of_ℕ f 0)
      then record { world = w; events = events; outcome = refused no_target }
      else record {
        world =
            update_player caster.player_id
              (λ p.
                start_cooldown f w.simulation_hz flash (Config.flash_cooldown_ms f)
                  (record p { x = to.x; y = to.y }))
              w;
        events = events ++ (blinked caster.player_id caster.x caster.y ∷ []);
        outcome = used flash;
      }

  abbrev pub is_hit : PlayerState Num → PlayerState Num → Bool
  is_hit caster p =
      p.alive
      && not (p.player_id == caster.player_id)
      && leb (distance caster p) (Config.exhaust_range f)

  -- `for (const hit of hits) applyEffect(…)`.
  unfoldable pub exhaust_all : List (PlayerState Num) → World Num → World Num
  exhaust_all [] w = w
  exhaust_all (hit ∷ hits) w = exhaust_all hits (
      update_player hit.player_id
        (affected w World.exhaust (Config.exhaust_speed_decrease f) (Config.exhaust_duration_ms f))
        w)

  abbrev pub hits_of : World Num → PlayerState Num → List (PlayerState Num)
  hits_of w caster = sort_by (λ p. p.player_id) (filter (is_hit caster) w.players)

  abbrev pub exhaust_sent : PlayerState Num → List (WorldEvent Num) → List (WorldEvent Num)
  exhaust_sent caster events =
      events ++ (skill_area exhaust caster.player_id caster.x caster.y none ∷ [])

  abbrev pub exhaust_cooled : World Num → PlayerState Num → World Num
  exhaust_cooled w caster =
      update_player caster.player_id
        (start_cooldown f w.simulation_hz exhaust (Config.exhaust_cooldown_ms f)) w

  -- `useExhaust`, for the players it hits.
  unfoldable pub exhaust_hits :
      List (PlayerState Num) → World Num → PlayerState Num → List (WorldEvent Num) → Used
  unfolding exhaust_all
  exhaust_hits [] w caster events = record {
    world = exhaust_cooled w caster;
    events = exhaust_sent caster events;
    outcome = refused out_of_range;
  }
  exhaust_hits (hit ∷ hits) w caster events = record {
    world =
        update_player caster.player_id
          (affected w World.exhaust (Config.exhaust_self_decrease f)
            (Config.exhaust_self_duration_ms f))
          (exhaust_all (hit ∷ hits) (exhaust_cooled w caster));
    events = exhaust_sent caster events;
    outcome = used exhaust;
  }

  unfoldable pub use_exhaust : World Num → PlayerState Num → List (WorldEvent Num) → Used
  unfolding exhaust_hits
  use_exhaust w caster events = exhaust_hits (hits_of w caster) w caster events

  -- The old tagger becomes a slowed runner.
  abbrev pub dethroned : World Num → PlayerState Num → PlayerState Num
  dethroned w p =
      affected w World.exhaust (Config.switch_victim_speed_decrease f)
        (Config.switch_victim_duration_ms f) (record p { is_tagger = false })

  -- The target becomes the tagger, in a frenzy.
  abbrev pub crowned : World Num → PlayerState Num → PlayerState Num
  crowned w p = grant_tagger_frenzy w (record p { is_tagger = true })

  -- A switch that succeeds, after the cooldown.
  unfoldable pub switch_roles : World Num → PlayerState Num → PlayerState Num → World Num
  switch_roles w caster target =
      let swapped = update_player target.player_id (crowned w) (update_tagger (dethroned w) w) in
      update_player caster.player_id (λ p. count_success (grant_tagger_frenzy w p))
        (record swapped { tagger_changed_at_tick = w.tick })

  abbrev pub switch_started : World Num → PlayerState Num → World Num
  switch_started w caster =
      update_player caster.player_id
        (λ p. count_try (start_cooldown f w.simulation_hz switch (Config.switch_cooldown_ms f) p)) w

  abbrev pub refuse : SkillRejection → World Num → List (WorldEvent Num) → Used
  refuse reason w events = record { world = w; events = events; outcome = refused reason }

  abbrev pub switch_sent :
      PlayerState Num → Option ℕ → List (WorldEvent Num) → List (WorldEvent Num)
  switch_sent caster target_id events =
      events ++ (skill_area switch caster.player_id caster.x caster.y target_id ∷ [])

  -- The end of `useSwitch`, in range of the tagger, for the target that the world has.
  unfoldable pub use_switch_to :
      Option (PlayerState Num) → World Num → PlayerState Num → List (WorldEvent Num) → Used
  unfolding switch_roles
  use_switch_to none w caster sent = refuse no_target (switch_started w caster) sent
  use_switch_to (some target) w caster sent =
      if is_valid_target caster target
      then record {
        world = switch_roles (switch_started w caster) caster target;
        events = sent ++ (tagged target.player_id (some caster.player_id) ∷ []);
        outcome = used switch;
      }
      else refuse no_target (switch_started w caster) sent

  -- `useSwitch`, for the tagger that the world has and a caster that is a runner.
  unfoldable pub use_switch_on :
      Option (PlayerState Num)
      → World Num
      → PlayerState Num
      → Option ℕ
      → List (WorldEvent Num)
      → Used
  unfolding use_switch_to
  use_switch_on none w caster target_id events = refuse no_tagger w events
  use_switch_on (some tagger) w caster target_id events =
      if leb (distance caster tagger) (Config.switch_range f)
      then use_switch_to (find_target target_id w) w caster (switch_sent caster target_id events)
      else refuse out_of_range (switch_started w caster) (switch_sent caster target_id events)

  unfoldable pub use_switch : World Num → PlayerState Num → Option ℕ → List (WorldEvent Num) → Used
  unfolding use_switch_on
  use_switch w caster target_id events =
      if caster.is_tagger
      then refuse role w events
      else use_switch_on (find_tagger w) w caster target_id events

  -- The `switch` of `useSkill`.
  unfoldable pub cast :
      SkillId → World Num → PlayerState Num → Option ℕ → List (WorldEvent Num) → Used
  unfolding use_dash use_flash use_exhaust use_switch
  cast dash w caster target_id events = use_dash w caster events
  cast flash w caster target_id events = use_flash w caster events
  cast exhaust w caster target_id events = use_exhaust w caster events
  cast switch w caster target_id events = use_switch w caster target_id events

  -- `useSkill`, for the skill in the slot.
  unfoldable pub cast_if_ready :
      Option SkillId → World Num → PlayerState Num → Option ℕ → List (WorldEvent Num) → Used
  unfolding cast
  cast_if_ready none w caster target_id events = refuse no_skill w events
  cast_if_ready (some skill) w caster target_id events =
      if is_ready f skill caster
      then cast skill w caster target_id events
      else refuse on_cooldown w events

  -- `useSkill`, for the player with the request's id.
  unfoldable pub use_skill_by :
      Option (PlayerState Num) → World Num → SkillRequest → List (WorldEvent Num) → Used
  unfolding cast_if_ready
  use_skill_by none w r events = refuse not_alive w events
  use_skill_by (some caster) w r events =
      if not caster.alive
      then refuse not_alive w events
      else if r.slot == switch_slot && caster.is_tagger
      then refuse role w events
      else cast_if_ready (skill_in_slot caster r.slot) w caster r.target_player_id events

  unfoldable pub use_skill : World Num → SkillRequest → List (WorldEvent Num) → Used
  unfolding use_skill_by
  use_skill w r events = use_skill_by (find_player r.player_id w) w r events
