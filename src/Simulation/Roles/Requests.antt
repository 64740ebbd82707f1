-- ===== src/Simulation/Roles/Requests.antt =====
-- What a request for a skill (skills.ts) does to the roles: nothing, or a switch.
use sw_itch_remake.Base.{
  ℕ, ◌≡◌, refl, ◌∙◌, sym, ap, subst, ◌⊎◌, true, false, ◌&&◌, not, Option, none, some, List, [], ◌∷◌,
  arith, inl, inr, if_both, ◌==◌, ==_iff, find, find-passes, update_first, Bool-cases,
}
use sw_itch_remake.Protocol.Skills.{SkillId, dash, flash, exhaust, switch, switch_slot}
use sw_itch_remake.Simulation.Floats.{Floats}
use sw_itch_remake.Simulation.Config.{switch_range}
use sw_itch_remake.Simulation.World.{
  PlayerState, World, WorldEvent, has_id, is_living_tagger, find_player, find_tagger, update_player,
}
use sw_itch_remake.Simulation.Effects.{apply_effect, start_cooldown, is_ready}
use sw_itch_remake.Simulation.Roles.{
  Role, role_of, roles_of, role_has, role_leads, dethrone, crown, pass_on, roles_of-update_first,
  roles_of-update_first_same, find-roles_of,
}
use sw_itch_remake.Simulation.Roles.Casting.{Passed}
use sw_itch_remake.Simulation.Skills.{
  SkillRequest, Used, use_dash, use_flash, use_exhaust, use_switch, use_switch_on, use_switch_to,
  exhaust_hits, cast_if_ready, switch_roles, switch_started, cast, use_skill, use_skill_by,
  exhaust_all, grant_tagger_frenzy, hits_of, used, distance, skill_in_slot, find_target,
  is_valid_target,
}

module _ (f : Floats) where
  open f use {Num}

  abbrev roles : World Num → List Role
  roles w = roles_of w.players

  -- `started` and the other abbreviations compute away; what is left is a change of one player that keeps its role.
  update_player-roles :
      (id : ℕ) (g : PlayerState Num → PlayerState Num) (w : World Num)
      → ((p : PlayerState Num) → role_of (g p) ≡ role_of p)
      → roles (update_player id g w) ≡ roles w
  update_player-roles id g w k = roles_of-update_first_same (has_id id) g w.players k

  exhaust_all-roles :
      (hits : List (PlayerState Num)) (w : World Num) → roles (exhaust_all f hits w) ≡ roles w
  unfolding exhaust_all apply_effect
  exhaust_all-roles [] w = refl
  exhaust_all-roles (h ∷ hits) w =
      exhaust_all-roles hits _ ∙ update_player-roles h.player_id _ w (λ p. refl)

  exhaust_hits-roles :
      (hs : List (PlayerState Num)) (w : World Num) (c : PlayerState Num)
      (es : List (WorldEvent Num))
      → roles (exhaust_hits f hs w c es).world ≡ roles w
  unfolding exhaust_hits apply_effect start_cooldown
  exhaust_hits-roles [] w c es = update_player-roles c.player_id _ w (λ p. refl)
  exhaust_hits-roles (h ∷ hs) w c es =
      update_player-roles c.player_id _ (exhaust_all f (h ∷ hs) _) (λ p. refl)
      ∙ exhaust_all-roles (h ∷ hs) _
      ∙ update_player-roles c.player_id _ w (λ p. refl)

  use_dash-roles :
      (w : World Num) (c : PlayerState Num) (es : List (WorldEvent Num))
      → roles (use_dash f w c es).world ≡ roles w
  unfolding use_dash apply_effect start_cooldown
  use_dash-roles w c es = update_player-roles c.player_id _ w (λ p. refl)

  use_flash-roles :
      (w : World Num) (c : PlayerState Num) (es : List (WorldEvent Num))
      → roles (use_flash f w c es).world ≡ roles w
  unfolding use_flash start_cooldown
  use_flash-roles w c es = elim (Bool-cases (f.eqb (f.hypot c.facing_x c.facing_y) (f.lit 0 1))) [
    | inl still ↦ rw still refl
    | inr moving ↦ rw moving (update_player-roles c.player_id _ w (λ p. refl))
  ]

  switch_started-roles :
      (w : World Num) (c : PlayerState Num) → roles (switch_started f w c) ≡ roles w
  unfolding start_cooldown
  switch_started-roles w c = update_player-roles c.player_id _ w (λ p. refl)

  switch_roles-roles :
      (w : World Num) (c t : PlayerState Num)
      → roles (switch_roles f w c t) ≡ pass_on t.player_id (roles w)
  unfolding switch_roles pass_on grant_tagger_frenzy apply_effect
  switch_roles-roles w c t =
      roles_of-update_first_same (has_id c.player_id) _ _ (λ p. refl)
      ∙ roles_of-update_first (has_id t.player_id) _ (role_has t.player_id) crown _ (λ p. refl)
          (λ p. refl)
      ∙ ap (update_first (role_has t.player_id) crown) (
          roles_of-update_first is_living_tagger _ role_leads dethrone w.players (λ p. refl)
            (λ p. refl))

  -- The roles stay, or the request was a switch that succeeded and passed the tagger's part to a living runner.
  abbrev pub Answered : World Num → Used f → Type 0
  Answered w u =
      (roles_of u.world.players ≡ roles_of w.players)
      ⊎ ((u.outcome ≡ used switch) × Passed (roles_of w.players) (roles_of u.world.players))

  valid-runner :
      (c t : PlayerState Num)
      → is_valid_target c t ≡ true
      → (t.alive ≡ true) × (t.is_tagger ≡ false)
  valid-runner c t h = (ground arith, ground arith)

  find_target-id :
      (o : Option ℕ) (w : World Num) (t : PlayerState Num)
      → find_target o w ≡ some t
      → find (role_has t.player_id) (roles w) ≡ some (role_of t)
  find_target-id none w t e = cc
  find_target-id (some id) w t e =
      let same : t.player_id ≡ id =
        (==_iff t.player_id id).0 (find-passes (has_id id) t w.players e) in
      subst (λ i. find (role_has i) (roles w) ≡ some (role_of t)) (sym same)
        (find-roles_of (has_id id) (role_has id) w.players (λ p. refl) t e)

  handed :
      (tagger : PlayerState Num) (tid : Option ℕ) (w : World Num) (c t : PlayerState Num)
      → find_tagger w ≡ some tagger
      → find_target tid w ≡ some t
      → (t.alive ≡ true) × (t.is_tagger ≡ false)
      → Passed (roles w) (roles (switch_roles f (switch_started f w c) c t))
  handed tagger tid w c t h k runs = record {
    target = t.player_id;
    old = role_of tagger;
    new = role_of t;
    leads = find-roles_of is_living_tagger role_leads w.players (λ p. refl) tagger h;
    runner = (find_target-id tid w t k, runs.0, runs.1);
    passed =
        switch_roles-roles (switch_started f w c) c t
        ∙ ap (pass_on t.player_id) (switch_started-roles w c);
  }

  use_switch_to-Answered :
      (tagger : PlayerState Num) (tid : Option ℕ) (o : Option (PlayerState Num)) (w : World Num)
      (c : PlayerState Num) (es : List (WorldEvent Num))
      → find_tagger w ≡ some tagger
      → find_target tid w ≡ o
      → Answered w (use_switch_to f o w c es)
  unfolding use_switch_to
  use_switch_to-Answered tagger tid none w c es h k = inl (switch_started-roles w c)
  use_switch_to-Answered tagger tid (some t) w c es h k =
      if_both (Answered w) (is_valid_target c t) _ _
        (λ good. inr (refl, handed tagger tid w c t h k (valid-runner c t good)))
        (λ bad. inl (switch_started-roles w c))

  use_switch_on-Answered :
      (o : Option (PlayerState Num)) (w : World Num) (c : PlayerState Num) (tid : Option ℕ)
      (es : List (WorldEvent Num))
      → find_tagger w ≡ o
      → Answered w (use_switch_on f o w c tid es)
  unfolding use_switch_on
  use_switch_on-Answered none w c tid es h = inl refl
  use_switch_on-Answered (some tagger) w c tid es h =
      if_both (Answered w) (f.leb (distance f c tagger) (switch_range f)) _ _
        (λ near. use_switch_to-Answered tagger tid (find_target tid w) w c _ h refl)
        (λ far. inl (switch_started-roles w c))

  cast-Answered :
      (s : SkillId) (w : World Num) (c : PlayerState Num) (tid : Option ℕ)
      (es : List (WorldEvent Num))
      → Answered w (cast f s w c tid es)
  unfolding cast use_exhaust use_switch
  cast-Answered dash w c tid es = inl (use_dash-roles w c es)
  cast-Answered flash w c tid es = inl (use_flash-roles w c es)
  cast-Answered exhaust w c tid es = inl (exhaust_hits-roles (hits_of f w c) w c es)
  cast-Answered switch w c tid es =
      if_both (Answered w) c.is_tagger _ _ (λ leads. inl refl)
        (λ runs. use_switch_on-Answered (find_tagger w) w c tid es refl)

  cast_if_ready-Answered :
      (o : Option SkillId) (w : World Num) (c : PlayerState Num) (tid : Option ℕ)
      (es : List (WorldEvent Num))
      → Answered w (cast_if_ready f o w c tid es)
  unfolding cast_if_ready
  cast_if_ready-Answered none w c tid es = inl refl
  cast_if_ready-Answered (some s) w c tid es =
      if_both (Answered w) (is_ready f s c) _ _ (λ ready. cast-Answered s w c tid es)
        (λ waiting. inl refl)

  use_skill_by-Answered :
      (o : Option (PlayerState Num)) (w : World Num) (r : SkillRequest) (es : List (WorldEvent Num))
      → Answered w (use_skill_by f o w r es)
  unfolding use_skill_by
  use_skill_by-Answered none w r es = inl refl
  use_skill_by-Answered (some c) w r es =
      if_both (Answered w) (not c.alive) _ _ (λ dead. inl refl)
        (λ alive.
          if_both (Answered w) (r.slot == switch_slot && c.is_tagger) _ _ (λ barred. inl refl)
            (λ open'. cast_if_ready-Answered (skill_in_slot c r.slot) w c r.target_player_id es))

  -- A request leaves everyone's id, life and part as they are, or it is a switch that succeeded: then the first
  -- living tagger becomes a runner, and a living runner the tagger.
  pub use_skill-Answered :
      (w : World Num) (r : SkillRequest) (es : List (WorldEvent Num))
      → Answered w (use_skill f w r es)
  unfolding use_skill
  use_skill-Answered w r es = use_skill_by-Answered (find_player r.player_id w) w r es
