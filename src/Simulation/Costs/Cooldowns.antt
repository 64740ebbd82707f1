-- ===== src/Simulation/Costs/Cooldowns.antt =====
-- The cooldown that a used skill starts (skills.ts, effects.ts).
use sw_itch_remake.Base.{
  ℕ, ◌≡◌, refl, sym, ◌∙◌, ap, subst, Bool, true, false, ◌&&◌, not, Option, none, some, List, [],
  ◌∷◌, arith, if_both, ◌==◌, ==_iff, find, find-passes,
}
use sw_itch_remake.Base.Maps.{get, set, get-set}
use sw_itch_remake.Protocol.Skills.{
  SkillId, SkillId-discrete, dash, flash, exhaust, switch, switch_slot, out_of_range,
}
use sw_itch_remake.Simulation.Floats.{Floats, of_ℕ}
use sw_itch_remake.Simulation.Config.{
  switch_range, dash_cooldown_ms, flash_cooldown_ms, exhaust_cooldown_ms, switch_cooldown_ms,
}
use sw_itch_remake.Simulation.World.{
  PlayerState, World, WorldEvent, has_id, is_living_tagger, find_player, find_tagger, update_player,
}
use sw_itch_remake.Simulation.Effects.{is_ready, apply_effect, start_cooldown, ms_to_ticks}
use sw_itch_remake.Simulation.Skills.{
  SkillRequest, SkillOutcome, used, refused, Used, use_dash, use_flash, use_exhaust, use_switch,
  use_switch_on, use_switch_to, exhaust_hits, exhaust_all, exhaust_cooled, cast_if_ready, cast,
  use_skill, use_skill_by, hits_of, distance, skill_in_slot, find_target, is_valid_target,
  switch_started, switch_roles, grant_tagger_frenzy,
}
use sw_itch_remake.Simulation.Costs.Searches.{
  seen_by, seen_some, find-update_first, find-update_first_kept,
}

module _ (f : Floats) where
  open f use {Num}

  -- The cooldowns of a player.
  abbrev cooldowns_of : ℕ → World Num → Option (List (SkillId × Num))
  cooldowns_of id w = seen_by (λ p. p.cooldowns) (find_player id w)

  update_kept :
      (id other : ℕ) (g : PlayerState Num → PlayerState Num) (w : World Num)
      → ((p : PlayerState Num) → (g p).player_id ≡ p.player_id)
      → ((p : PlayerState Num) → (g p).cooldowns ≡ p.cooldowns)
      → cooldowns_of id (update_player other g w) ≡ cooldowns_of id w
  update_kept id other g w k l =
      find-update_first_kept (has_id id) g (has_id other) (λ p. p.cooldowns) w.players
        (λ a. ap (λ i. i == id) (k a)) l

  exhaust_all-cooldowns :
      (id : ℕ) (hs : List (PlayerState Num)) (w : World Num)
      → cooldowns_of id (exhaust_all f hs w) ≡ cooldowns_of id w
  unfolding exhaust_all apply_effect
  exhaust_all-cooldowns id [] w = refl
  exhaust_all-cooldowns id (h ∷ hs) w =
      exhaust_all-cooldowns id hs _ ∙ update_kept id h.player_id _ w (λ p. refl) (λ p. refl)

  -- The player's cooldown of a skill, in ticks, is what it starts with.
  abbrev pub Cooling : ℕ → SkillId → ℕ → List (PlayerState Num) → Type 0
  Cooling id s ticks ps =
      (c : PlayerState Num) × (find (has_id id) ps ≡ some c)
      × (get SkillId-discrete s c.cooldowns ≡ some (of_ℕ f ticks))

  set-found :
      (s : SkillId) (n : Num) (m : List (SkillId × Num))
      → get SkillId-discrete s (set SkillId-discrete s n m) ≡ some n
  set-found s n m = ground (arith, get-set SkillId-discrete s s n m)

  set-Cooling :
      (s : SkillId) (ticks : ℕ) (c : PlayerState Num) (ps : List (PlayerState Num))
      → seen_by (λ p. p.cooldowns) (find (has_id c.player_id) ps)
        ≡ some (set SkillId-discrete s (of_ℕ f ticks) c.cooldowns)
      → Cooling c.player_id s ticks ps
  set-Cooling s ticks c ps e =
      let (c', here, same) = seen_some (λ p. p.cooldowns) (find (has_id c.player_id) ps) _ e in
      (c', here, ap (get SkillId-discrete s) same ∙ set-found s (of_ℕ f ticks) c.cooldowns)

  -- A change of the caster that starts a cooldown.
  started-cooldowns :
      (s : SkillId) (ms : Num) (c : PlayerState Num) (w : World Num)
      (g : PlayerState Num → PlayerState Num)
      → find_player c.player_id w ≡ some c
      → ((p : PlayerState Num) → (g p).player_id ≡ p.player_id)
      → (g c).cooldowns
        ≡ set SkillId-discrete s (of_ℕ f (ms_to_ticks f ms w.simulation_hz)) c.cooldowns
      → cooldowns_of c.player_id (update_player c.player_id g w)
        ≡ some (set SkillId-discrete s (of_ℕ f (ms_to_ticks f ms w.simulation_hz)) c.cooldowns)
  started-cooldowns s ms c w g here k l =
      ap (seen_by (λ p. p.cooldowns)) (
        find-update_first (has_id c.player_id) g w.players (λ a. ap (λ i. i == c.player_id) (k a))
        ∙ ap (seen_by g) here)
      ∙ ap some l

  abbrev pub cooldown_ms : SkillId → Num
  cooldown_ms dash = dash_cooldown_ms f
  cooldown_ms flash = flash_cooldown_ms f
  cooldown_ms exhaust = exhaust_cooldown_ms f
  cooldown_ms switch = switch_cooldown_ms f

  -- A success, or a miss.
  abbrev pub is_charged : SkillOutcome → Bool
  is_charged (used s) = true
  is_charged (refused out_of_range) = true
  is_charged (refused _) = false

  abbrev Charged : SkillId → ℕ → World Num → Used f → Type 0
  Charged s id w u =
      is_charged u.outcome ≡ true
      → Cooling id s (ms_to_ticks f (cooldown_ms s) w.simulation_hz) u.world.players

  module _ (w : World Num) (c : PlayerState Num) (here : find_player c.player_id w ≡ some c) where
    use_dash-Charged : (es : List (WorldEvent Num)) → Charged dash c.player_id w (use_dash f w c es)
    unfolding use_dash apply_effect start_cooldown
    use_dash-Charged es = λ h.
        set-Cooling dash _ c _
          (started-cooldowns dash (cooldown_ms dash) c w _ here (λ p. refl) refl)

    use_flash-Charged :
        (es : List (WorldEvent Num)) → Charged flash c.player_id w (use_flash f w c es)
    unfolding use_flash start_cooldown
    use_flash-Charged es =
        if_both (Charged flash c.player_id w) (f.eqb (f.hypot c.facing_x c.facing_y) (f.lit 0 1)) _
          _ (λ still h. cc)
          (λ moving h.
            set-Cooling flash _ c _
              (started-cooldowns flash (cooldown_ms flash) c w _ here (λ p. refl) refl))

    exhaust-started :
        cooldowns_of c.player_id (exhaust_cooled f w c)
        ≡ some (
            set SkillId-discrete exhaust
              (of_ℕ f (ms_to_ticks f (cooldown_ms exhaust) w.simulation_hz))
              c.cooldowns)
    unfolding start_cooldown
    exhaust-started = started-cooldowns exhaust (cooldown_ms exhaust) c w _ here (λ p. refl) refl

    exhaust_hits-Charged :
        (hs : List (PlayerState Num)) (es : List (WorldEvent Num))
        → Charged exhaust c.player_id w (exhaust_hits f hs w c es)
    unfolding exhaust_hits apply_effect
    exhaust_hits-Charged [] es = λ h. set-Cooling exhaust _ c _ exhaust-started
    exhaust_hits-Charged (hit ∷ hs) es = λ h. set-Cooling exhaust _ c _ (
        update_kept c.player_id c.player_id _ (exhaust_all f (hit ∷ hs) (exhaust_cooled f w c))
          (λ p. refl) (λ p. refl)
        ∙ exhaust_all-cooldowns c.player_id (hit ∷ hs) (exhaust_cooled f w c)
        ∙ exhaust-started)

    switch-started :
        cooldowns_of c.player_id (switch_started f w c)
        ≡ some (
            set SkillId-discrete switch
              (of_ℕ f (ms_to_ticks f (cooldown_ms switch) w.simulation_hz))
              c.cooldowns)
    unfolding start_cooldown
    switch-started = started-cooldowns switch (cooldown_ms switch) c w _ here (λ p. refl) refl

    switched-cooldowns :
        (v : World Num) (t : PlayerState Num)
        → cooldowns_of c.player_id (switch_roles f v c t) ≡ cooldowns_of c.player_id v
    unfolding switch_roles grant_tagger_frenzy apply_effect
    switched-cooldowns v t =
        find-update_first_kept (has_id c.player_id) _ (has_id c.player_id) (λ p. p.cooldowns) _
          (λ a. refl) (λ a. refl)
        ∙ find-update_first_kept (has_id c.player_id) _ (has_id t.player_id) (λ p. p.cooldowns) _
            (λ a. refl) (λ a. refl)
        ∙ find-update_first_kept (has_id c.player_id) _ is_living_tagger (λ p. p.cooldowns)
            v.players (λ a. refl) (λ a. refl)

    use_switch_to-Charged :
        (o : Option (PlayerState Num)) (es : List (WorldEvent Num))
        → Charged switch c.player_id w (use_switch_to f o w c es)
    unfolding use_switch_to
    use_switch_to-Charged none es = λ h. cc
    use_switch_to-Charged (some t) es =
        if_both (Charged switch c.player_id w) (is_valid_target c t) _ _
          (λ good h.
            set-Cooling switch _ c _ (switched-cooldowns (switch_started f w c) t ∙ switch-started))
          (λ bad h. cc)

    use_switch_on-Charged :
        (o : Option (PlayerState Num)) (tid : Option ℕ) (es : List (WorldEvent Num))
        → Charged switch c.player_id w (use_switch_on f o w c tid es)
    unfolding use_switch_on
    use_switch_on-Charged none tid es = λ h. cc
    use_switch_on-Charged (some tagger) tid es =
        if_both (Charged switch c.player_id w) (f.leb (distance f c tagger) (switch_range f)) _ _
          (λ near. use_switch_to-Charged (find_target tid w) _)
          (λ far h. set-Cooling switch _ c _ switch-started)

    cast-Charged :
        (s : SkillId) (tid : Option ℕ) (es : List (WorldEvent Num))
        → Charged s c.player_id w (cast f s w c tid es)
    unfolding cast use_exhaust use_switch
    cast-Charged dash tid es = use_dash-Charged es
    cast-Charged flash tid es = use_flash-Charged es
    cast-Charged exhaust tid es = exhaust_hits-Charged (hits_of f w c) es
    cast-Charged switch tid es =
        if_both (Charged switch c.player_id w) c.is_tagger _ _ (λ leads h. cc)
          (λ runs. use_switch_on-Charged (find_tagger w) tid es)

    cast_if_ready-Charged :
        (s : SkillId) (tid : Option ℕ) (es : List (WorldEvent Num))
        → Charged s c.player_id w (cast_if_ready f (some s) w c tid es)
    unfolding cast_if_ready
    cast_if_ready-Charged s tid es =
        if_both (Charged s c.player_id w) (is_ready f s c) _ _ (λ ready. cast-Charged s tid es)
          (λ waiting h. cc)

    use_skill_by-Charged :
        (r : SkillRequest) (s : SkillId) (es : List (WorldEvent Num))
        → skill_in_slot c r.slot ≡ some s
        → Charged s c.player_id w (use_skill_by f (some c) w r es)
    unfolding use_skill_by
    use_skill_by-Charged r s es k =
        if_both (Charged s c.player_id w) (not c.alive) _ _ (λ dead h. cc)
          (λ alive.
            if_both (Charged s c.player_id w) (r.slot == switch_slot && c.is_tagger) _ _
              (λ barred h. cc)
              (λ open'.
                subst (λ o. Charged s c.player_id w (cast_if_ready f o w c r.target_player_id es))
                  (sym k) (cast_if_ready-Charged s r.target_player_id es)))

  -- After a request that succeeds, or that is out of range, the player has the full cooldown of the skill in the
  -- requested slot.
  pub use_skill-Charged :
      (w : World Num) (r : SkillRequest) (es : List (WorldEvent Num)) (c : PlayerState Num)
      (s : SkillId)
      → find_player r.player_id w ≡ some c
      → skill_in_slot c r.slot ≡ some s
      → is_charged (use_skill f w r es).outcome ≡ true
      → Cooling r.player_id s
          (ms_to_ticks f (cooldown_ms s) w.simulation_hz)
          (use_skill f w r es).world.players
  unfolding use_skill
  use_skill-Charged w r es c s here k =
      let same : c.player_id ≡ r.player_id =
        (==_iff c.player_id r.player_id).0 (find-passes (has_id r.player_id) c w.players here) in
      subst (λ o. Charged s r.player_id w (use_skill_by f o w r es)) (sym here)
        (subst (λ id. Charged s id w (use_skill_by f (some c) w r es)) same
          (use_skill_by-Charged w c (subst (λ id. find_player id w ≡ some c) (sym same) here) r s es
            k))
