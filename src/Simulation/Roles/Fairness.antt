-- ===== src/Simulation/Roles/Fairness.antt =====
-- The rule of the game that a tick (`stepWorld` of step.ts) keeps: one tagger, who does not fall.
use sw_itch_remake.Base.{
  ℕ, ◌+◌, ◌≤◌, ◌≡◌, refl, sym, ◌∙◌, ap, subst, ◌⊎◌, inl, inr, Bool, List, [], ◌∷◌, ◌++◌, arith,
  if_both, count, sort_by, All,
}
use sw_itch_remake.Simulation.Floats.{Floats}
use sw_itch_remake.Simulation.Config.{player_collision_iterations}
use sw_itch_remake.Simulation.World.{
  PlayerState, World, WorldEvent, ResolvedInput, Rejection, has_id, is_living_tagger,
}
use sw_itch_remake.Simulation.Terrain.{storm_rect}
use sw_itch_remake.Simulation.Motion.{CollisionPair}
use sw_itch_remake.Simulation.Skills.{SkillRequest, Used, use_skill}
use sw_itch_remake.Simulation.Step.{
  EmojiRequest, refresh_player, started, run_skills, rejection_of, run_emojis, apply_map_timeline,
  changes_at, move_player, move_world, judge, is_finished, resolve_tagging, step_world,
}
use sw_itch_remake.Simulation.Roles.{
  Role, roles_of, role_has, role_alive, role_leads, roles_of-map, count-roles_of,
}
use sw_itch_remake.Simulation.Roles.Casting.{
  Handover, Handover-leaders, Handover-alive, Handover-ids,
}
use sw_itch_remake.Simulation.Roles.Requests.{Answered, use_skill-Answered}
use sw_itch_remake.Simulation.Roles.Quiet.{use_skill-Quiet}
use sw_itch_remake.Simulation.Roles.Contacts.{IsProper}
use sw_itch_remake.Simulation.Roles.Tagging.{eliminations, Balanced, Tagged, resolve_tagging-Tagged}
use sw_itch_remake.Simulation.Roles.Rotation.{rotate_tagger_if_stale-Rotated}
use sw_itch_remake.Simulation.Roles.Ticks.{
  Unique, refresh-role, run_emojis-roles, change_tiles-players, move_player-role,
  collision_rounds-roles, collision_rounds-IsProper,
}

-- No id stands twice, and at most one living player is the tagger.
abbrev pub IsFair : {N : Type 0} → World N → Type 0
IsFair w = ((id : ℕ) → count (has_id id) w.players ≤ 1) × (count is_living_tagger w.players ≤ 1)

abbrev pub is_alive : {N : Type 0} → PlayerState N → Bool
is_alive p = p.alive

module _ (f : Floats) where
  open f use {Num}

  started-roles : (w : World Num) → roles_of (started f w).players ≡ roles_of w.players
  started-roles w = roles_of-map (refresh_player f (w.tick + 1) _) w.players (refresh-role f _ _)

  Answered-Handover :
      (w : World Num) (u : Used f)
      → Answered f w u
      → Handover (roles_of w.players) (roles_of u.world.players)
  Answered-Handover w u (inl same) = inl same
  Answered-Handover w u (inr p) = inr p.1

  abbrev Session : Type 0
  Session = World Num × List (WorldEvent Num)

  -- The requests keep the ids, the number of living taggers and those alive, and eliminate nobody.
  run_skills-Tagged :
      (rs : List SkillRequest) (w : World Num) (es : List (WorldEvent Num)) (js : List Rejection)
      → Tagged f (w, es) ((run_skills f rs (w, es, js)).0, (run_skills f rs (w, es, js)).1)
  unfolding run_skills
  run_skills-Tagged [] w es js = ((λ i. refl, refl), refl)
  run_skills-Tagged (r ∷ rs) w es js =
      let u = use_skill f w r es in
      let h = Answered-Handover w u (use_skill-Answered f w r es) in
      let rest = run_skills-Tagged rs u.world u.events (js ++ rejection_of r u.outcome) in
      (
        (
          λ i. rest.0.0 i ∙ Handover-ids i h,
          omega (arith, rest.0.1, Handover-alive h, use_skill-Quiet f w r es),
        ),
        rest.1 ∙ Handover-leaders h,
      )

  move_world-roles :
      (is : List (ResolvedInput Num)) (w : World Num)
      → roles_of (move_world f is w).0.players ≡ roles_of w.players
  unfolding move_world apply_map_timeline
  move_world-roles is w =
      let w' = apply_map_timeline w in
      collision_rounds-roles f w'.map (storm_rect f w') player_collision_iterations _
      ∙ roles_of-map (move_player f w'.map (storm_rect f w') is) w'.players
          (move_player-role f w'.map (storm_rect f w') is)
      ∙ ap roles_of (change_tiles-players (changes_at w.tick w.map.timeline) w)

  move_world-IsProper :
      (is : List (ResolvedInput Num)) (w : World Num)
      → Unique f (roles_of w.players)
      → All IsProper (move_world f is w).1
  unfolding move_world apply_map_timeline
  move_world-IsProper is w u =
      let w' = apply_map_timeline w in
      collision_rounds-IsProper f w'.map (storm_rect f w') player_collision_iterations _ (
        subst (Unique f)
          (sym (
            roles_of-map (move_player f w'.map (storm_rect f w') is) w'.players
              (move_player-role f w'.map (storm_rect f w') is)
            ∙ ap roles_of (change_tiles-players (changes_at w.tick w.map.timeline) w)))
          u)

  -- The judgement keeps the ids, accounts for who falls, and leaves as many living taggers or exactly one.
  abbrev Judged : List Role → List (WorldEvent Num) → Session → Type 0
  Judged rs es t =
      Balanced rs es (roles_of t.0.players) t.1
      × ((count role_leads (roles_of t.0.players) ≡ count role_leads rs)
          ⊎ (count role_leads (roles_of t.0.players) ≡ 1))

  judge-Judged :
      (pairs : List CollisionPair) (s : Session)
      → All IsProper pairs
      → Unique f (roles_of s.0.players)
      → count role_leads (roles_of s.0.players) ≤ 1
      → Judged (roles_of s.0.players) s.1 (judge f pairs s)
  unfolding judge
  judge-Judged pairs s h u few =
      let t = resolve_tagging-Tagged f pairs s h few in
      let r =
        rotate_tagger_if_stale-Rotated f (resolve_tagging f pairs s)
          (λ id. omega (arith, u id, t.0.0 id)) in
      if_both (Judged (roles_of s.0.players) s.1) (is_finished (resolve_tagging f pairs s).0) _ _
        (λ ended. (t.0, inl t.1))
        (λ going. (
          (λ i. r.0.0 i ∙ t.0.0 i, r.0.1 ∙ t.0.1),
          elim r.1 [ inl same ↦ inl (ap (count role_leads) same ∙ t.1) | inr one ↦ inr one ],
        ))

  Judged-roles :
      (rs rs' : List Role) (es : List (WorldEvent Num)) (t : Session)
      → rs ≡ rs'
      → Judged rs es t
      → Judged rs' es t
  Judged-roles rs rs' es t e h = subst (λ r. Judged r es t) e h

  module _ (w : World Num) (is : List (ResolvedInput Num)) (skills : List SkillRequest)
      (emojis : List EmojiRequest) (fair : IsFair w) where
    abbrev rs : List Role
    rs = roles_of w.players

    abbrev cast_world : World Num
    cast_world = (run_skills f (sort_by (λ r. r.player_id) skills) (started f w, [], [])).0

    abbrev cast_events : List (WorldEvent Num)
    cast_events = (run_skills f (sort_by (λ r. r.player_id) skills) (started f w, [], [])).1

    abbrev shown : World Num
    shown = run_emojis f (sort_by (λ r. r.player_id) emojis) cast_world

    same-started : rs ≡ roles_of (started f w).players
    same-started = sym (started-roles w)

    cast-Tagged :
        Balanced rs [] (roles_of cast_world.players) cast_events
        × (count role_leads (roles_of cast_world.players) ≡ count role_leads rs)
    cast-Tagged =
        subst
          (λ r.
            Balanced r [] (roles_of cast_world.players) cast_events
            × (count role_leads (roles_of cast_world.players) ≡ count role_leads r))
          (started-roles w)
          (run_skills-Tagged (sort_by (λ r. r.player_id) skills) (started f w) [] [])

    same-shown : roles_of shown.players ≡ roles_of cast_world.players
    same-shown = run_emojis-roles f (sort_by (λ r. r.player_id) emojis) cast_world

    shown-Unique : Unique f (roles_of shown.players)
    shown-Unique = subst (Unique f) (sym same-shown) (λ id. omega (
      arith,
      fair.0 id,
      cast-Tagged.0.0 id,
      count-roles_of (has_id id) (role_has id) w.players (λ p. refl),
    ))

    same-moved : roles_of (move_world f is shown).0.players ≡ roles_of cast_world.players
    same-moved = move_world-roles is shown ∙ same-shown

    abbrev judged : Session
    judged = judge f (move_world f is shown).1 ((move_world f is shown).0, cast_events)

    few : count role_leads (roles_of (move_world f is shown).0.players) ≤ 1
    few = omega (
      arith,
      fair.1,
      cast-Tagged.1,
      ap (count role_leads) same-moved,
      count-roles_of is_living_tagger role_leads w.players (λ p. refl),
    )

    judged-Judged : Judged (roles_of cast_world.players) cast_events judged
    judged-Judged = Judged-roles _ (roles_of cast_world.players) cast_events judged same-moved (
        judge-Judged (move_world f is shown).1 ((move_world f is shown).0, cast_events)
          (move_world-IsProper is shown shown-Unique)
          (subst (Unique f) (sym (move_world-roles is shown)) shown-Unique) few)

    -- If no id stands twice and at most one living player is the tagger, the same holds after a tick, with any
    -- inputs and requests.
    pub step_world-IsFair : IsFair (step_world f w is skills emojis).world
    unfolding step_world
    step_world-IsFair = (
      λ id. omega (
        arith,
        fair.0 id,
        cast-Tagged.0.0 id,
        judged-Judged.0.0 id,
        count-roles_of (has_id id) (role_has id) w.players (λ p. refl),
        count-roles_of (has_id id) (role_has id) judged.0.players (λ p. refl),
      ),
      omega (
        arith,
        fair.1,
        cast-Tagged.1,
        judged-Judged.1,
        count-roles_of is_living_tagger role_leads w.players (λ p. refl),
        count-roles_of is_living_tagger role_leads judged.0.players (λ p. refl),
      ),
    )

    -- If moreover exactly one living player is the tagger, exactly one is after the tick.
    pub step_world-tagger :
        count is_living_tagger w.players ≡ 1
        → count is_living_tagger (step_world f w is skills emojis).world.players ≡ 1
    unfolding step_world
    step_world-tagger one = omega (
      arith,
      fair.1,
      one,
      cast-Tagged.1,
      judged-Judged.1,
      count-roles_of is_living_tagger role_leads w.players (λ p. refl),
      count-roles_of is_living_tagger role_leads judged.0.players (λ p. refl),
    )

    -- If no id stands twice and at most one living player is the tagger, a tick has as many elimination events as
    -- there are fewer players alive after it.
    pub step_world-survivors :
        count is_alive (step_world f w is skills emojis).world.players
          + eliminations (step_world f w is skills emojis).events
        ≡ count is_alive w.players
    unfolding step_world
    step_world-survivors = omega (
      arith,
      cast-Tagged.0.1,
      judged-Judged.0.1,
      count-roles_of is_alive role_alive w.players (λ p. refl),
      count-roles_of is_alive role_alive judged.0.players (λ p. refl),
    )
