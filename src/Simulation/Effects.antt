-- ===== src/Simulation/Effects.antt =====
-- server-game/src/simulation/effects.ts: effects, speed and cooldowns of one player.
use sw_itch_remake.Base.{
  ℕ, ◌+◌, Bool, true, false, Option, none, some, List, [], ◌∷◌, if◌then◌else◌, get_or,
}
use sw_itch_remake.Base as Base
use sw_itch_remake.Base.Maps.{get, set}
use sw_itch_remake.Protocol.Skills.{SkillId, SkillId-discrete}
use sw_itch_remake.Simulation.Floats.{Floats, of_ℕ}
use sw_itch_remake.Simulation.Floats
use sw_itch_remake.Simulation.World.{
  EffectType, dash, frenzy, exhaust, Effect, Effects, PlayerState,
}
use Prim.Native.Nat.{max}

abbrev pub is_increase : EffectType → Bool
is_increase dash = true
is_increase frenzy = true
is_increase exhaust = false

module _ {N : Type 0} where
  abbrev pub effect_of : EffectType → Effects N → Option (Effect N)
  effect_of dash e = e.dash
  effect_of frenzy e = e.frenzy
  effect_of exhaust e = e.exhaust

  abbrev pub put_effect : EffectType → Option (Effect N) → Effects N → Effects N
  put_effect dash o e = record e { dash = o }
  put_effect frenzy o e = record e { frenzy = o }
  put_effect exhaust o e = record e { exhaust = o }

  -- An effect that has not ended by the tick.
  abbrev pub unexpired : ℕ → Option (Effect N) → Option (Effect N)
  unexpired tick none = none
  unexpired tick (some e) = if Base.leb e.end_tick tick then none else some e

  unfoldable pub expire_effects : ℕ → PlayerState N → PlayerState N
  expire_effects tick p = record p {
    effects = record {
      dash = unexpired tick p.effects.dash;
      frenzy = unexpired tick p.effects.frenzy;
      exhaust = unexpired tick p.effects.exhaust;
    };
  }

module _ (f : Floats) where
  open f use {Num, lit, add, sub, mul, div, round, leb}

  -- `msToTicks`.
  unfoldable pub ms_to_ticks : Num → ℕ → ℕ
  ms_to_ticks ms simulation_hz = max 1 (round (mul (div ms (of_ℕ f 1000)) (of_ℕ f simulation_hz)))

  -- The stronger magnitude and the later end of two effects of one type.
  abbrev pub refresh : Option (Effect Num) → ℕ → Num → Effect Num
  refresh none end_tick magnitude = record { end_tick = end_tick; magnitude = magnitude }
  refresh (some e) end_tick magnitude = record {
    end_tick = max e.end_tick end_tick;
    magnitude = Floats.max f e.magnitude magnitude;
  }

  -- `applyEffect`, at the world's tick and rate.
  unfoldable pub apply_effect : ℕ → ℕ → EffectType → Num → Num → PlayerState Num → PlayerState Num
  unfolding ms_to_ticks
  apply_effect tick hz type magnitude duration_ms p = record p {
    effects =
        put_effect type
          (some (refresh (effect_of type p.effects) (tick + ms_to_ticks duration_ms hz) magnitude))
          p.effects;
  }

  abbrev pub magnitude_or : Option (Effect Num) → Num → Num
  magnitude_or none sum = sum
  magnitude_or (some e) sum = add sum e.magnitude

  -- `currentSpeed`, given the base speed and the floor of the configuration. The two effects that speed
  -- up are added in either order with the same result.
  unfoldable pub current_speed : Num → Num → PlayerState Num → Num
  current_speed base floor p =
      let increase = magnitude_or p.effects.frenzy (magnitude_or p.effects.dash (of_ℕ f 0)) in
      let decrease = magnitude_or p.effects.exhaust (of_ℕ f 0) in
      mul (mul base (add (of_ℕ f 1) increase)) (Floats.max f floor (sub (of_ℕ f 1) decrease))

  unfoldable pub lower_cooldowns : Num → List (SkillId × Num) → List (SkillId × Num)
  lower_cooldowns rate [] = []
  lower_cooldowns rate ((s, left) ∷ rest) =
      let remaining = sub left rate in
      if leb remaining (of_ℕ f 0)
      then lower_cooldowns rate rest
      else (s, remaining) ∷ lower_cooldowns rate rest

  unfoldable pub tick_cooldowns : Num → PlayerState Num → PlayerState Num
  unfolding lower_cooldowns
  tick_cooldowns rate p = record p { cooldowns = lower_cooldowns rate p.cooldowns }

  unfoldable pub is_ready : SkillId → PlayerState Num → Bool
  is_ready s p = leb (get_or (get SkillId-discrete s p.cooldowns) (of_ℕ f 0)) (of_ℕ f 0)

  -- `startCooldown`, at the world's rate.
  unfoldable pub start_cooldown : ℕ → SkillId → Num → PlayerState Num → PlayerState Num
  unfolding ms_to_ticks
  start_cooldown hz s cooldown_ms p = record p {
    cooldowns = set SkillId-discrete s (of_ℕ f (ms_to_ticks cooldown_ms hz)) p.cooldowns;
  }
