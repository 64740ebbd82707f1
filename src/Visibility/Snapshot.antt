-- ===== src/Visibility/Snapshot.antt =====
-- server-game/src/game/snapshot-view.ts: the snapshot that one viewer gets of a frame, and `toVisibilityWorld` of
-- simulation/world.ts. `Math.round` of a coordinate is a parameter.
use sw_itch_remake.Base.{
  ℕ, ◌-◌, min, String, Bool, true, false, ◌&&◌, Option, none, some, List, [], ◌∷◌, ◌++◌, ◌==◌, ltb,
  if◌then◌else◌, get_or, find, filter, any, map,
}
use sw_itch_remake.Base.Maps.{get}
use sw_itch_remake.Base.Int.{ℤ}
use sw_itch_remake.Protocol.Input.{protocol_version}
use sw_itch_remake.Protocol.Skills.{SkillId-discrete, switch_slot, movement_slot}
use sw_itch_remake.Simulation.Floats.{Floats, of_ℕ}
use sw_itch_remake.Simulation.Floats
use sw_itch_remake.Simulation.World.{
  World, PlayerState, Effect, Emoji, StormRect, TileChange, TilePhysics, AuthoritativeFrame, has_id,
}
use sw_itch_remake.Simulation.Skills.{skill_in_slot}
use sw_itch_remake.Rooms.Room.Broadcast.{SnapshotAccess, unfiltered}
use sw_itch_remake.Visibility.Core.{VisibilityActor, VisibilityWorld, TileAlpha, compute_visibility}

pub record RosterEntry : Type 0 where
  pub player_id : ℕ
  pub nickname : String

-- A spectator has no id.
pub record ViewerContext : Type 0 where
  pub player_id : Option ℕ
  pub access : SnapshotAccess
  pub full : Bool

pub record SnapshotMap : Type 0 where
  pub cols : ℕ
  pub rows : ℕ
  pub tiles : List (List TilePhysics)

abbrev pub is_unfiltered : SnapshotAccess → Bool
is_unfiltered unfiltered = true
is_unfiltered _ = false

-- `Set.has` of a set that is made of the list.
abbrev pub has : List ℕ → ℕ → Bool
has ids id = any (λ k. k == id) ids

module _ (f : Floats) (round : f.Num → ℤ) where
  open f use {Num, mul, div}

  pub record EffectRatios : Type 0 where
    pub dash : Option Num
    pub frenzy : Option Num
    pub exhaust : Option Num

  pub record SnapshotPlayer : Type 0 where
    pub id : ℕ
    pub x : ℤ
    pub y : ℤ
    pub facing_x : Num
    pub facing_y : Num
    pub color_index : ℕ
    pub obscured : Bool
    pub is_tagger : Bool
    pub effects : EffectRatios
    pub emoji_id : Option ℕ

  pub record SlotCooldown : Type 0 where
    pub slot : ℕ
    pub remaining_ms : ℕ

  -- A field that may be missing is an option.
  pub record Snapshot : Type 0 where
    pub version : ℕ
    pub full : Bool
    pub tick : ℕ
    pub map : Option SnapshotMap
    pub tile_changes : Option (List TileChange)
    pub tile_alphas : Option (List (TileAlpha f))
    pub storm : Option (StormRect Num)
    pub players : List SnapshotPlayer
    pub self_id : Option ℕ
    pub cooldowns : Option (List SlotCooldown)
    pub roster : Option (List RosterEntry)

  abbrev pub actor_of : PlayerState Num → VisibilityActor f
  actor_of p = record {
    player_id = p.player_id;
    x = p.x;
    y = p.y;
    radius = p.radius;
    sight_range = p.sight_range;
    alive = p.alive;
  }

  unfoldable pub to_visibility_world : World Num → VisibilityWorld f
  to_visibility_world w = record {
    cols = w.map.cols;
    rows = w.map.rows;
    tile_size = w.map.tile_size;
    tiles = w.map.tiles;
    players = map actor_of w.players;
  }

  unfoldable pub effect_ratio : Option (Effect Num) → ℕ → ℕ → Option Num
  effect_ratio none tick hz = none
  effect_ratio (some e) tick hz =
      some (Floats.min f (of_ℕ f 1) (div (of_ℕ f (e.end_tick - tick)) (of_ℕ f hz)))

  unfoldable pub effect_ratios : PlayerState Num → ℕ → ℕ → EffectRatios
  unfolding effect_ratio
  effect_ratios p tick hz = record {
    dash = effect_ratio p.effects.dash tick hz;
    frenzy = effect_ratio p.effects.frenzy tick hz;
    exhaust = effect_ratio p.effects.exhaust tick hz;
  }

  abbrev pub emoji_at : Option Emoji → ℕ → Option ℕ
  emoji_at none tick = none
  emoji_at (some e) tick = if ltb tick e.expires_at_tick then some e.emoji_id else none

  unfoldable pub to_snapshot_player : PlayerState Num → Bool → ℕ → ℕ → SnapshotPlayer
  unfolding effect_ratios
  to_snapshot_player p obscured tick hz = record {
    id = p.player_id;
    x = round p.x;
    y = round p.y;
    facing_x = p.facing_x;
    facing_y = p.facing_y;
    color_index = p.color_index;
    obscured = obscured;
    is_tagger = p.is_tagger;
    effects = effect_ratios p tick hz;
    emoji_id = emoji_at p.emoji tick;
  }

  unfoldable pub slot_cooldown : PlayerState Num → ℕ → ℕ → List SlotCooldown
  slot_cooldown self hz slot = elim (skill_in_slot self slot) [
    | none ↦ []
    | some skill ↦
        let left = get_or (get SkillId-discrete skill self.cooldowns) (of_ℕ f 0) in
        let ticks = Floats.max f (of_ℕ f 0) left in
        let ms = f.round (mul (div ticks (of_ℕ f hz)) (of_ℕ f 1000)) in
        record { slot = slot; remaining_ms = min 65535 ms } ∷ []
  ]

  abbrev pub cooldowns_of : Option (PlayerState Num) → ℕ → Option (List SlotCooldown)
  cooldowns_of none hz = none
  cooldowns_of (some self) hz =
      some (slot_cooldown self hz switch_slot ++ slot_cooldown self hz movement_slot)

  abbrev pub changes_of : List TileChange → Option (List TileChange)
  changes_of [] = none
  changes_of (c ∷ cs) = some (c ∷ cs)

  abbrev pub map_of : World Num → SnapshotMap
  map_of w = record { cols = w.map.cols; rows = w.map.rows; tiles = w.map.tiles }

  -- What every viewer gets.
  abbrev pub common : AuthoritativeFrame Num → Bool → List RosterEntry → List TileChange → Snapshot
  common frame full roster tile_changes = record {
    version = protocol_version;
    full = full;
    tick = frame.tick;
    map = if full then some (map_of frame.world) else none;
    tile_changes = if full then none else changes_of tile_changes;
    tile_alphas = none;
    storm = frame.world.storm;
    players = [];
    self_id = none;
    cooldowns = none;
    roster = if full then some roster else none;
  }

  -- The players of the snapshot, for the sets of those who are seen and of those who are seen hiding.
  unfoldable pub shown_players :
      List ℕ → List ℕ → ℕ → ℕ → List (PlayerState Num) → List SnapshotPlayer
  shown_players visible obscured tick hz [] = []
  shown_players visible obscured tick hz (p ∷ ps) =
      let rest = shown_players visible obscured tick hz ps in
      if p.alive && has visible p.player_id
      then to_snapshot_player p (has obscured p.player_id) tick hz ∷ rest
      else rest

  abbrev pub all_players : ℕ → World Num → List SnapshotPlayer
  all_players tick w =
      map (λ p. to_snapshot_player p false tick w.simulation_hz) (filter (λ p. p.alive) w.players)

  unfoldable pub filtered_view : AuthoritativeFrame Num → ℕ → Snapshot → Snapshot
  unfolding shown_players
  filtered_view frame viewer s =
      let seen = compute_visibility f (to_visibility_world frame.world) viewer in
      record s {
        players =
            shown_players seen.visible_player_ids seen.obscured_player_ids frame.tick
              frame.world.simulation_hz frame.world.players;
        tile_alphas = some seen.tile_alphas;
        self_id = some viewer;
        cooldowns =
            cooldowns_of (find (has_id viewer) frame.world.players) frame.world.simulation_hz;
      }

  abbrev pub snapshot_for : Option ℕ → SnapshotAccess → AuthoritativeFrame Num → Snapshot → Snapshot
  snapshot_for none access frame s = record s { players = all_players frame.tick frame.world }
  snapshot_for (some viewer) access frame s =
      if is_unfiltered access
      then record s { players = all_players frame.tick frame.world }
      else filtered_view frame viewer s

  unfoldable pub build_snapshot :
      AuthoritativeFrame Num → ViewerContext → List RosterEntry → List TileChange → Snapshot
  unfolding filtered_view
  build_snapshot frame viewer roster tile_changes =
      snapshot_for viewer.player_id viewer.access frame
        (common frame viewer.full roster tile_changes)
