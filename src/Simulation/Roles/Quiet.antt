-- ===== src/Simulation/Roles/Quiet.antt =====
-- A request for a skill (skills.ts) eliminates nobody.
use sw_itch_remake.Base.{
  ℕ, ◌≡◌, refl, ◌∙◌, false, ◌&&◌, not, Option, none, some, List, [], ◌∷◌, ◌++◌, arith, if_both,
  ◌==◌, count-append,
}
use sw_itch_remake.Protocol.Skills.{SkillId, dash, flash, exhaust, switch, switch_slot}
use sw_itch_remake.Simulation.Floats.{Floats}
use sw_itch_remake.Simulation.Config.{switch_range}
use sw_itch_remake.Simulation.World.{PlayerState, World, WorldEvent, find_player, find_tagger}
use sw_itch_remake.Simulation.Effects.{is_ready}
use sw_itch_remake.Simulation.Skills.{
  SkillRequest, Used, use_dash, use_flash, use_exhaust, use_switch, use_switch_on, use_switch_to,
  exhaust_hits, cast_if_ready, cast, use_skill, use_skill_by, hits_of, distance, skill_in_slot,
  find_target, is_valid_target,
}
use sw_itch_remake.Simulation.Roles.Tagging.{is_elimination, eliminations}

module _ (f : Floats) where
  open f use {Num}

  abbrev pub Quiet : List (WorldEvent Num) → Used f → Type 0
  Quiet es u = eliminations u.events ≡ eliminations es

  sent :
      (es : List (WorldEvent Num)) (e : WorldEvent Num)
      → is_elimination e ≡ false
      → eliminations (es ++ (e ∷ [])) ≡ eliminations es
  sent es e h = ground (arith, count-append is_elimination es (e ∷ []))

  exhaust_hits-Quiet :
      (hs : List (PlayerState Num)) (w : World Num) (c : PlayerState Num)
      (es : List (WorldEvent Num))
      → Quiet es (exhaust_hits f hs w c es)
  unfolding exhaust_hits
  exhaust_hits-Quiet [] w c es = sent es _ refl
  exhaust_hits-Quiet (h ∷ hs) w c es = sent es _ refl

  use_switch_to-Quiet :
      (o : Option (PlayerState Num)) (w : World Num) (c : PlayerState Num)
      (es : List (WorldEvent Num))
      → Quiet es (use_switch_to f o w c es)
  unfolding use_switch_to
  use_switch_to-Quiet none w c es = refl
  use_switch_to-Quiet (some t) w c es =
      if_both (Quiet es) (is_valid_target c t) _ _ (λ good. sent es _ refl) (λ bad. refl)

  use_switch_on-Quiet :
      (o : Option (PlayerState Num)) (w : World Num) (c : PlayerState Num) (tid : Option ℕ)
      (es : List (WorldEvent Num))
      → Quiet es (use_switch_on f o w c tid es)
  unfolding use_switch_on
  use_switch_on-Quiet none w c tid es = refl
  use_switch_on-Quiet (some tagger) w c tid es =
      if_both (Quiet es) (f.leb (distance f c tagger) (switch_range f)) _ _
        (λ near. use_switch_to-Quiet (find_target tid w) w c _ ∙ sent es _ refl)
        (λ far. sent es _ refl)

  cast-Quiet :
      (s : SkillId) (w : World Num) (c : PlayerState Num) (tid : Option ℕ)
      (es : List (WorldEvent Num))
      → Quiet es (cast f s w c tid es)
  unfolding cast use_dash use_flash use_exhaust use_switch
  cast-Quiet dash w c tid es = refl
  cast-Quiet flash w c tid es =
      if_both (Quiet es) (f.eqb (f.hypot c.facing_x c.facing_y) (f.lit 0 1)) _ _ (λ still. refl)
        (λ moving. sent es _ refl)
  cast-Quiet exhaust w c tid es = exhaust_hits-Quiet (hits_of f w c) w c es
  cast-Quiet switch w c tid es =
      if_both (Quiet es) c.is_tagger _ _ (λ leads. refl)
        (λ runs. use_switch_on-Quiet (find_tagger w) w c tid es)

  cast_if_ready-Quiet :
      (o : Option SkillId) (w : World Num) (c : PlayerState Num) (tid : Option ℕ)
      (es : List (WorldEvent Num))
      → Quiet es (cast_if_ready f o w c tid es)
  unfolding cast_if_ready
  cast_if_ready-Quiet none w c tid es = refl
  cast_if_ready-Quiet (some s) w c tid es =
      if_both (Quiet es) (is_ready f s c) _ _ (λ ready. cast-Quiet s w c tid es) (λ waiting. refl)

  use_skill_by-Quiet :
      (o : Option (PlayerState Num)) (w : World Num) (r : SkillRequest) (es : List (WorldEvent Num))
      → Quiet es (use_skill_by f o w r es)
  unfolding use_skill_by
  use_skill_by-Quiet none w r es = refl
  use_skill_by-Quiet (some c) w r es =
      if_both (Quiet es) (not c.alive) _ _ (λ dead. refl)
        (λ alive.
          if_both (Quiet es) (r.slot == switch_slot && c.is_tagger) _ _ (λ barred. refl)
            (λ open'. cast_if_ready-Quiet (skill_in_slot c r.slot) w c r.target_player_id es))

  pub use_skill-Quiet :
      (w : World Num) (r : SkillRequest) (es : List (WorldEvent Num))
      → Quiet es (use_skill f w r es)
  unfolding use_skill
  use_skill-Quiet w r es = use_skill_by-Quiet (find_player r.player_id w) w r es
