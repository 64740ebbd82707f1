-- ===== src/Simulation/Step.antt =====
-- server-game/src/simulation/step.ts: one tick of a world, in the order of its phases.
use sw_itch_remake.Base.{
  ℕ, zero, suc, ◌+◌, ◌-◌, ite, Bool, false, ◌||◌, not, Option, none, some, List, [], ◌∷◌, ◌++◌, map,
  if◌then◌else◌, ◌==◌, ltb, leb, filter, sort_by, length, get_elem?, set_elem,
}
use sw_itch_remake.Simulation.Floats.{Floats, of_ℕ}
use sw_itch_remake.Simulation.Config
use sw_itch_remake.Simulation.World
use sw_itch_remake.Simulation.World.{
  TilePhysics, TileChange, WorldMap, Emoji, Effect, MatchStats, PlayerState, ResolvedInput, World,
  WorldEvent, tagged, eliminated, Rejection, AuthoritativeFrame, StormRect, find_player,
  find_tagger, update_player, update_tagger, has_id, is_living_tagger, next_random_int,
}
use sw_itch_remake.Simulation.Effects.{apply_effect, expire_effects, tick_cooldowns, ms_to_ticks}
use sw_itch_remake.Simulation.Terrain.{Displacement, storm_rect, resolve_static}
use sw_itch_remake.Simulation.Motion.{
  CollisionPair, integrate, substep_count, resolve_player_collisions,
}
use sw_itch_remake.Simulation.Skills.{
  SkillRequest, SkillOutcome, used, refused, use_skill, grant_tagger_frenzy, rotation_candidates,
}

pub record EmojiRequest : Type 0 where
  pub player_id : ℕ
  pub emoji_id : ℕ

unfoldable pub TilePhysics-discrete : Discrete TilePhysics
TilePhysics-discrete = hlevel

-- `timeline[tick]`.
abbrev pub changes_at : ℕ → List (ℕ × List TileChange) → List TileChange
changes_at tick [] = []
changes_at tick ((t, cs) ∷ rest) = if t == tick then cs else changes_at tick rest

-- The other player of a pair that the tagger is in.
abbrev pub other_of : ℕ → CollisionPair → Option ℕ
other_of id pair = if pair.0 == id then some pair.1 else if pair.1 == id then some pair.0 else none

abbrev pub live_emoji : ℕ → Option Emoji → Option Emoji
live_emoji tick none = none
live_emoji tick (some e) = if leb e.expires_at_tick tick then none else some e

module _ {N : Type 0} where
  abbrev pub with_tiles : List (List TilePhysics) → World N → World N
  with_tiles tiles w = record w { map = record w.map { tiles = tiles } }

  -- A tile of a row, unless there is none or it is so already.
  abbrev pub write_tile : TileChange → List TilePhysics → Option TilePhysics → World N → World N
  write_tile c row none w = w
  write_tile c row (some old) w =
      ite (TilePhysics-discrete old c.physics) w
        (record (with_tiles (set_elem w.map.tiles c.y (set_elem row c.x c.physics)) w) {
          tile_changes = w.tile_changes ++ (c ∷ []);
        })

  abbrev pub write_row : TileChange → Option (List TilePhysics) → World N → World N
  write_row c none w = w
  write_row c (some row) w = write_tile c row (get_elem? row c.x) w

  -- The body of the loop of `applyMapTimeline`.
  unfoldable pub change_tile : TileChange → World N → World N
  change_tile c w = write_row c (get_elem? w.map.tiles c.y) w

  unfoldable pub change_tiles : List TileChange → World N → World N
  unfolding change_tile
  change_tiles [] w = w
  change_tiles (c ∷ cs) w = change_tiles cs (change_tile c w)

  unfoldable pub apply_map_timeline : World N → World N
  unfolding change_tiles
  apply_map_timeline w = change_tiles (changes_at w.tick w.map.timeline) w

  unfoldable pub survivors : World N → List (PlayerState N)
  survivors w = filter (λ p. p.alive) w.players

  unfoldable pub is_finished : World N → Bool
  unfolding survivors
  is_finished w = leb (length (survivors w)) Config.survivors_to_win

  -- The victim's fields when it is caught.
  abbrev pub caught : ℕ → PlayerState N → PlayerState N
  caught tick p = record p {
    alive = false;
    stats = record p.stats {
      tagged_count = p.stats.tagged_count + 1;
      eliminated_at_tick = some tick;
    };
  }

  abbrev pub set_tagger : ℕ → PlayerState N → PlayerState N
  set_tagger id p = record p { is_tagger = p.player_id == id }

  abbrev pub count_tag : PlayerState N → PlayerState N
  count_tag p = record p { stats = record p.stats { tag_count = p.stats.tag_count + 1 } }

  abbrev pub expire_emoji : ℕ → PlayerState N → PlayerState N
  expire_emoji tick p = record p { emoji = live_emoji tick p.emoji }

  -- `inputById.get(id)`: a later input of the same player replaces an earlier one.
  abbrev pub input_of : ℕ → List (ResolvedInput N) → Option (ResolvedInput N)
  input_of id [] = none
  input_of id (i ∷ is) = elim (input_of id is) [
    | some later ↦ some later
    | none ↦ if i.player_id == id then some i else none
  ]

abbrev pub rejection_of : SkillRequest → SkillOutcome → List Rejection
rejection_of r (used s) = []
rejection_of r (refused reason) =
    record { player_id = r.player_id; slot = r.slot; reason = reason } ∷ []

module _ (f : Floats) where
  open f use {Num, add, sub, mul, div, neg, hypot, leb, eqb, round}

  abbrev pub remaining_ms : World Num → Effect Num → Num
  remaining_ms w e = mul (of_ℕ f (e.end_tick - w.tick)) (div (of_ℕ f 1000) (of_ℕ f w.simulation_hz))

  abbrev pub extend_frenzy : Option (Effect Num) → World Num → PlayerState Num → PlayerState Num
  extend_frenzy none w p = p
  extend_frenzy (some current) w p =
      apply_effect f w.tick w.simulation_hz World.frenzy
        (add current.magnitude (Config.frenzy_tag_bonus_increase f))
        (add (remaining_ms w current) (Config.frenzy_tag_bonus_ms f)) p

  unfoldable pub extend_frenzy_on_tag : World Num → PlayerState Num → PlayerState Num
  extend_frenzy_on_tag w p = extend_frenzy p.effects.frenzy w p

  abbrev pub eliminate : ℕ → World Num → World Num
  eliminate victim w =
      let tagging = update_player victim (caught w.tick) w in
      record (update_tagger (λ p. extend_frenzy_on_tag w (count_tag p)) tagging) {
        tagger_changed_at_tick = w.tick;
      }

  -- What a contact does to the player found, if any.
  unfoldable pub tag_victim :
      ℕ
      → Option (PlayerState Num)
      → World Num × List (WorldEvent Num)
      → World Num × List (WorldEvent Num)
  tag_victim tagger none s = s
  tag_victim tagger (some victim) s =
      if victim.alive
      then (eliminate victim.player_id s.0, s.1 ++ (eliminated victim.player_id tagger ∷ []))
      else s

  abbrev pub tag_other :
      ℕ → Option ℕ → World Num × List (WorldEvent Num) → World Num × List (WorldEvent Num)
  tag_other tagger none s = s
  tag_other tagger (some other) s = tag_victim tagger (find_player other s.0) s

  -- The body of the loop of `resolveTagging`, for the tagger's id.
  unfoldable pub tag_pair :
      ℕ → CollisionPair → World Num × List (WorldEvent Num) → World Num × List (WorldEvent Num)
  unfolding tag_victim
  tag_pair tagger pair s = tag_other tagger (other_of tagger pair) s

  unfoldable pub tag_pairs :
      ℕ → List CollisionPair → World Num × List (WorldEvent Num) → World Num × List (WorldEvent Num)
  unfolding tag_pair
  tag_pairs tagger [] s = s
  tag_pairs tagger (pair ∷ pairs) s = tag_pairs tagger pairs (tag_pair tagger pair s)

  -- `resolveTagging`, for the tagger that the world has.
  abbrev pub tag_as :
      Option (PlayerState Num)
      → List CollisionPair
      → World Num × List (WorldEvent Num)
      → World Num × List (WorldEvent Num)
  tag_as none pairs s = s
  tag_as (some tagger) pairs s = tag_pairs tagger.player_id pairs s

  unfoldable pub resolve_tagging :
      List CollisionPair → World Num × List (WorldEvent Num) → World Num × List (WorldEvent Num)
  unfolding tag_pairs
  resolve_tagging pairs s = tag_as (find_tagger s.0) pairs s

  abbrev pub rotation_ticks : World Num → ℕ
  rotation_ticks w =
      round
        (mul (div (of_ℕ f Config.tagger_change_cooldown_ms) (of_ℕ f 1000)) (of_ℕ f w.simulation_hz))

  -- The rotation to the picked player.
  unfoldable pub rotate_to : PlayerState Num → World Num → World Num
  rotate_to picked w = update_player picked.player_id (grant_tagger_frenzy f w) (record w {
    players = map (set_tagger picked.player_id) w.players;
    tagger_changed_at_tick = w.tick;
  })

  -- The end of the rotation, for the runner drawn; there always is one.
  unfoldable pub rotate_drawn :
      Option (PlayerState Num)
      → World Num × List (WorldEvent Num)
      → World Num × List (WorldEvent Num)
  unfolding rotate_to
  rotate_drawn none s = s
  rotate_drawn (some picked) s = (rotate_to picked s.0, s.1 ++ (tagged picked.player_id none ∷ []))

  abbrev pub is_fresh : World Num → Bool
  is_fresh w = ltb (w.tick - w.tagger_changed_at_tick) (rotation_ticks w)

  unfoldable pub rotate_tagger_if_stale :
      World Num × List (WorldEvent Num) → World Num × List (WorldEvent Num)
  unfolding rotate_drawn
  rotate_tagger_if_stale s =
      let runners = rotation_candidates s.0 in
      let draw = next_random_int (length runners) s.0.random_state in
      if is_fresh s.0 || length runners == 0
      then s
      else rotate_drawn (get_elem? runners draw.1) (record s.0 { random_state = draw.0 }, s.1)

  unfoldable pub cooldown_rate : PlayerState Num → Option (PlayerState Num) → Num
  cooldown_rate p none = of_ℕ f 1
  cooldown_rate p (some tagger) =
      let dx = sub tagger.x p.x in
      let dy = sub tagger.y p.y in
      let radius = Config.near_tagger_radius f in
      if p.is_tagger || not p.alive || not (leb (add (mul dx dx) (mul dy dy)) (mul radius radius))
      then of_ℕ f 1
      else add (of_ℕ f 1) (Config.near_tagger_cooldown_bonus f)

  -- Phase 1, for a player. The tagger of the start does not move in it, so that each sees the same one.
  unfoldable pub refresh_player : ℕ → Option (PlayerState Num) → PlayerState Num → PlayerState Num
  unfolding cooldown_rate
  refresh_player tick tagger p =
      expire_emoji tick (tick_cooldowns f (cooldown_rate p tagger) (expire_effects tick p))

  unfoldable pub run_skills :
      List SkillRequest
      → World Num × List (WorldEvent Num) × List Rejection
      → World Num × List (WorldEvent Num) × List Rejection
  run_skills [] s = s
  run_skills (r ∷ rs) (w, events, rejections) =
      let u = use_skill f w r events in
      run_skills rs (u.world, u.events, rejections ++ rejection_of r u.outcome)

  abbrev pub show_emoji : World Num → EmojiRequest → PlayerState Num → PlayerState Num
  show_emoji w r p =
      if p.alive
      then record p {
        emoji = some (record {
          emoji_id = r.emoji_id;
          expires_at_tick = w.tick + ms_to_ticks f (of_ℕ f Config.emoji_display_ms) w.simulation_hz;
        });
      }
      else p

  unfoldable pub run_emojis : List EmojiRequest → World Num → World Num
  run_emojis [] w = w
  run_emojis (r ∷ rs) w = run_emojis rs (update_player r.player_id (show_emoji w r) w)

  abbrev pub place_at : PlayerState Num → Displacement f → PlayerState Num
  place_at p d = record p { x = d.x; y = d.y }

  abbrev pub settle : WorldMap Num → StormRect Num → PlayerState Num → PlayerState Num
  settle map storm p =
      if p.alive then place_at p (resolve_static f map p.radius p.x p.y storm) else p

  unfoldable pub substeps :
      WorldMap Num → StormRect Num → Num → Num → ℕ → PlayerState Num → PlayerState Num
  substeps map storm step_x step_y zero p = p
  substeps map storm step_x step_y (suc n) p =
      substeps map storm step_x step_y n
        (place_at p (resolve_static f map p.radius (add p.x step_x) (add p.y step_y) storm))

  -- The player with its velocity, and its target: with no input it stops.
  abbrev pub aim : Option (ResolvedInput Num) → PlayerState Num → PlayerState Num × Displacement f
  aim none p = (record p { vx = of_ℕ f 0; vy = of_ℕ f 0 }, record { x = p.x; y = p.y })
  aim (some i) p = integrate f p i

  -- The player, with its velocity, moved from where it was towards the target in equal parts.
  unfoldable pub walk :
      WorldMap Num
      → StormRect Num
      → PlayerState Num
      → PlayerState Num × Displacement f
      → PlayerState Num
  unfolding substeps
  walk map storm p (aimed, to) =
      let steps = substep_count f p.x p.y to.x to.y in
      substeps map storm (div (sub to.x p.x) (of_ℕ f steps)) (div (sub to.y p.y) (of_ℕ f steps))
        steps aimed

  unfoldable pub move_player :
      WorldMap Num → StormRect Num → List (ResolvedInput Num) → PlayerState Num → PlayerState Num
  unfolding walk
  move_player map storm inputs p =
      if p.alive then walk map storm p (aim (input_of p.player_id inputs) p) else p

  abbrev pub after_round :
      List CollisionPair
      → List (PlayerState Num)
      → List (PlayerState Num)
      → List (PlayerState Num) × List CollisionPair
  after_round [] settled later = (settled, [])
  after_round (pair ∷ pairs) settled later = (later, pair ∷ pairs)

  -- The rounds of phases 7 and 8, with the pairs of the first one. The source sorts the players by id before:
  -- the collisions sort again, and nothing else in a round depends on the order.
  unfoldable pub collision_rounds :
      WorldMap Num
      → StormRect Num
      → ℕ
      → List (PlayerState Num)
      → List (PlayerState Num) × List CollisionPair
  collision_rounds map' storm zero players = (players, [])
  collision_rounds map' storm (suc n) players =
      let round = resolve_player_collisions f players in
      let settled = map (settle map' storm) round.0 in
      let rest = collision_rounds map' storm n settled in after_round round.1 settled rest.0

  -- Phase 1.
  abbrev pub started : World Num → World Num
  started w =
      let w' = record w { tick = w.tick + 1; tile_changes = [] } in
      record w' { players = map (refresh_player w'.tick (find_tagger w')) w'.players }

  -- Phases 2 to 8: the map, the storm, the moves and the collisions.
  unfoldable pub move_world : List (ResolvedInput Num) → World Num → World Num × List CollisionPair
  unfolding move_player collision_rounds
  move_world inputs w =
      let w' = apply_map_timeline w in
      let storm = storm_rect f w' in
      let result =
        collision_rounds w'.map storm Config.player_collision_iterations
          (map (move_player w'.map storm inputs) w'.players) in
      (record w' { storm = some storm; players = result.0 }, result.1)

  -- Phases 9 and 10.
  unfoldable pub judge :
      List CollisionPair → World Num × List (WorldEvent Num) → World Num × List (WorldEvent Num)
  unfolding resolve_tagging rotate_tagger_if_stale
  judge pairs s =
      let tagging = resolve_tagging pairs s in
      if is_finished tagging.0 then tagging else rotate_tagger_if_stale tagging

  unfoldable pub step_world :
      World Num
      → List (ResolvedInput Num)
      → List SkillRequest
      → List EmojiRequest
      → AuthoritativeFrame Num
  unfolding refresh_player run_skills run_emojis move_world judge
  step_world w inputs skills emojis =
      let (used', events, rejections) =
        run_skills (sort_by (λ r. r.player_id) skills) (started w, [], []) in
      let moved = move_world inputs (run_emojis (sort_by (λ r. r.player_id) emojis) used') in
      let judged = judge moved.1 (moved.0, events) in
      record {
        tick = judged.0.tick;
        world = judged.0;
        events = judged.1;
        skill_rejections = rejections;
      }
