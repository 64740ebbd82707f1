-- ===== src/Simulation/Costs/Refusals.antt =====
-- The refusals of a skill that cost nothing (skills.ts).
use sw_itch_remake.Base.{
  ℕ, ◌≡◌, refl, Bool, true, false, ◌&&◌, not, Option, none, some, List, [], ◌∷◌, if_both, ◌==◌,
}
use sw_itch_remake.Protocol.Skills.{
  SkillId, dash, flash, exhaust, switch, switch_slot, SkillRejection, not_alive, no_skill,
  on_cooldown, role, out_of_range, no_target, no_tagger,
}
use sw_itch_remake.Simulation.Floats.{Floats}
use sw_itch_remake.Simulation.Config.{switch_range}
use sw_itch_remake.Simulation.World.{PlayerState, World, WorldEvent, find_player, find_tagger}
use sw_itch_remake.Simulation.Effects.{is_ready}
use sw_itch_remake.Simulation.Skills.{
  SkillRequest, used, refused, Used, use_dash, use_flash, use_exhaust, use_switch, use_switch_on,
  use_switch_to, exhaust_hits, exhaust_cooled, cast_if_ready, cast, use_skill, use_skill_by,
  hits_of, distance, skill_in_slot, find_target, is_valid_target, switch_started, refuse,
}

-- The refusals that come before anything happens.
abbrev pub is_costless : SkillRejection → Bool
is_costless not_alive = true
is_costless no_skill = true
is_costless on_cooldown = true
is_costless role = true
is_costless no_tagger = true
is_costless out_of_range = false
is_costless no_target = false

module _ (f : Floats) where
  open f use {Num}

  -- A refusal of those kinds leaves the world and the events.
  abbrev Costless : World Num → List (WorldEvent Num) → Used f → Type 0
  Costless w es u =
      (reason : SkillRejection)
      → u.outcome ≡ refused reason
      → is_costless reason ≡ true
      → (u.world ≡ w) × (u.events ≡ es)

  kept :
      (w : World Num) (es : List (WorldEvent Num)) (r : SkillRejection)
      → Costless w es (refuse f r w es)
  kept w es r = λ reason e h. (refl, refl)

  done :
      (w : World Num) (es : List (WorldEvent Num)) (u : Used f) (s : SkillId)
      → u.outcome ≡ used s
      → Costless w es u
  done w es u s e = λ reason k h. cc

  costs :
      (w w' : World Num) (es es' : List (WorldEvent Num)) (r : SkillRejection)
      → is_costless r ≡ false
      → Costless w es (refuse f r w' es')
  costs w w' es es' out_of_range e = λ reason k h. cc
  costs w w' es es' no_target e = λ reason k h. cc
  costs w w' es es' not_alive e = cc
  costs w w' es es' no_skill e = cc
  costs w w' es es' on_cooldown e = cc
  costs w w' es es' role e = cc
  costs w w' es es' no_tagger e = cc

  use_switch_to-Costless :
      (o : Option (PlayerState Num)) (w : World Num) (c : PlayerState Num)
      (es es' : List (WorldEvent Num))
      → Costless w es (use_switch_to f o w c es')
  unfolding use_switch_to
  use_switch_to-Costless none w c es es' = costs w (switch_started f w c) es es' no_target refl
  use_switch_to-Costless (some t) w c es es' =
      if_both (Costless w es) (is_valid_target c t) _ _ (λ good. done w es _ switch refl)
        (λ bad. costs w (switch_started f w c) es es' no_target refl)

  use_switch_on-Costless :
      (o : Option (PlayerState Num)) (w : World Num) (c : PlayerState Num) (tid : Option ℕ)
      (es : List (WorldEvent Num))
      → Costless w es (use_switch_on f o w c tid es)
  unfolding use_switch_on
  use_switch_on-Costless none w c tid es = kept w es no_tagger
  use_switch_on-Costless (some tagger) w c tid es =
      if_both (Costless w es) (f.leb (distance f c tagger) (switch_range f)) _ _
        (λ near. use_switch_to-Costless (find_target tid w) w c es _)
        (λ far. costs w (switch_started f w c) es _ out_of_range refl)

  exhaust_hits-Costless :
      (hs : List (PlayerState Num)) (w : World Num) (c : PlayerState Num)
      (es : List (WorldEvent Num))
      → Costless w es (exhaust_hits f hs w c es)
  unfolding exhaust_hits
  exhaust_hits-Costless [] w c es = costs w (exhaust_cooled f w c) es _ out_of_range refl
  exhaust_hits-Costless (h ∷ hs) w c es = done w es _ exhaust refl

  cast-Costless :
      (s : SkillId) (w : World Num) (c : PlayerState Num) (tid : Option ℕ)
      (es : List (WorldEvent Num))
      → Costless w es (cast f s w c tid es)
  unfolding cast use_dash use_flash use_exhaust use_switch
  cast-Costless dash w c tid es = done w es _ dash refl
  cast-Costless flash w c tid es =
      if_both (Costless w es) (f.eqb (f.hypot c.facing_x c.facing_y) (f.lit 0 1)) _ _
        (λ still. kept w es no_target) (λ moving. done w es _ flash refl)
  cast-Costless exhaust w c tid es = exhaust_hits-Costless (hits_of f w c) w c es
  cast-Costless switch w c tid es =
      if_both (Costless w es) c.is_tagger _ _ (λ leads. kept w es role)
        (λ runs. use_switch_on-Costless (find_tagger w) w c tid es)

  cast_if_ready-Costless :
      (o : Option SkillId) (w : World Num) (c : PlayerState Num) (tid : Option ℕ)
      (es : List (WorldEvent Num))
      → Costless w es (cast_if_ready f o w c tid es)
  unfolding cast_if_ready
  cast_if_ready-Costless none w c tid es = kept w es no_skill
  cast_if_ready-Costless (some s) w c tid es =
      if_both (Costless w es) (is_ready f s c) _ _ (λ ready. cast-Costless s w c tid es)
        (λ waiting. kept w es on_cooldown)

  use_skill_by-Costless :
      (o : Option (PlayerState Num)) (w : World Num) (r : SkillRequest) (es : List (WorldEvent Num))
      → Costless w es (use_skill_by f o w r es)
  unfolding use_skill_by
  use_skill_by-Costless none w r es = kept w es not_alive
  use_skill_by-Costless (some c) w r es =
      if_both (Costless w es) (not c.alive) _ _ (λ dead. kept w es not_alive)
        (λ alive.
          if_both (Costless w es) (r.slot == switch_slot && c.is_tagger) _ _
            (λ barred. kept w es role)
            (λ open'. cast_if_ready-Costless (skill_in_slot c r.slot) w c r.target_player_id es))

  -- A refusal because the player is not alive, has no such skill or is on cooldown, of the tagger's or of a
  -- switch with no tagger, leaves the world and the events as they were.
  pub use_skill-costless :
      (w : World Num) (r : SkillRequest) (es : List (WorldEvent Num)) (reason : SkillRejection)
      → (use_skill f w r es).outcome ≡ refused reason
      → is_costless reason ≡ true
      → ((use_skill f w r es).world ≡ w) × ((use_skill f w r es).events ≡ es)
  unfolding use_skill
  use_skill-costless w r es = use_skill_by-Costless (find_player r.player_id w) w r es
