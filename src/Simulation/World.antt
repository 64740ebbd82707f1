-- ===== src/Simulation/World.antt =====
-- server-game/src/simulation/world.ts: the state of a game, over any type of numbers, and its generator.
use Prim.Native.Nat.{bit_or, bit_xor}
use native.Mathlib.Nat.{div-lt_iff_lt-mul, mul_comm}
use sw_itch_remake.Base.{
  ℕ, ◌+◌, ◌*◌, ◌/◌, ◌%◌, ◌^◌, ◌<◌, String, Bool, ◌&&◌, Option, none, List, arith, ◌==◌,
  if◌then◌else◌, find, update_first, update_first,
}
use sw_itch_remake.Protocol.Skills.{SkillId, SkillRejection}

pub data EffectType : Type 0 where
  dash frenzy exhaust : EffectType

pub data TilePhysics : Type 0 where
  floor wall bush gas : TilePhysics

pub record Effect (N : Type 0) : Type 0 where
  pub end_tick : ℕ
  pub magnitude : N

-- `Partial<Record<EffectType, …>>`.
pub record Effects (N : Type 0) : Type 0 where
  pub dash : Option (Effect N)
  pub frenzy : Option (Effect N)
  pub exhaust : Option (Effect N)

pub record MatchStats : Type 0 where
  pub tag_count : ℕ
  pub tagged_count : ℕ
  pub switch_try : ℕ
  pub switch_success : ℕ
  pub eliminated_at_tick : Option ℕ

abbrev pub empty_stats : MatchStats
empty_stats = record {
  tag_count = 0;
  tagged_count = 0;
  switch_try = 0;
  switch_success = 0;
  eliminated_at_tick = none;
}

pub record Emoji : Type 0 where
  pub emoji_id : ℕ
  pub expires_at_tick : ℕ

pub record PlayerState (N : Type 0) : Type 0 where
  pub player_id : ℕ
  pub x : N
  pub y : N
  pub vx : N
  pub vy : N
  pub facing_x : N
  pub facing_y : N
  pub radius : N
  pub sight_range : N
  pub color_index : ℕ
  pub alive : Bool
  pub is_tagger : Bool
  pub connected : Bool
  pub effects : Effects N
  pub cooldowns : List (SkillId × N)
  pub loadout : SkillId
  pub emoji : Option Emoji
  pub stats : MatchStats

pub record ResolvedInput (N : Type 0) : Type 0 where
  pub player_id : ℕ
  pub move_x : N
  pub move_y : N
  pub held_actions : ℕ
  pub last_processed_sequence : ℕ

pub record TileChange : Type 0 where
  pub x : ℕ
  pub y : ℕ
  pub physics : TilePhysics

pub record WorldMap (N : Type 0) : Type 0 where
  pub map_id : String
  pub cols : ℕ
  pub rows : ℕ
  pub tile_size : N
  pub tiles : List (List TilePhysics)
  pub barrier_speed : N
  pub timeline : List (ℕ × List TileChange)

pub record StormRect (N : Type 0) : Type 0 where
  pub x : N
  pub y : N
  pub width : N
  pub height : N

pub record World (N : Type 0) : Type 0 where
  pub tick : ℕ
  pub simulation_hz : ℕ
  pub map : WorldMap N
  pub players : List (PlayerState N)
  pub storm : Option (StormRect N)
  pub tile_changes : List TileChange
  pub tagger_changed_at_tick : ℕ
  pub random_state : ℕ

-- `WorldEvent`, by its kind, with the fields that the kind carries.
pub data WorldEvent (N : Type 0) : Type 0 where
  -- The new tagger, and who switched.
  tagged : ℕ → Option ℕ → WorldEvent N
  -- The victim and the tagger.
  eliminated : ℕ → ℕ → WorldEvent N
  blinked : ℕ → N → N → WorldEvent N
  skill_area : SkillId → ℕ → N → N → Option ℕ → WorldEvent N

pub record Rejection : Type 0 where
  pub player_id : ℕ
  pub slot : ℕ
  pub reason : SkillRejection

pub record AuthoritativeFrame (N : Type 0) : Type 0 where
  pub tick : ℕ
  pub world : World N
  pub events : List (WorldEvent N)
  pub skill_rejections : List Rejection

abbrev pub two32 : ℕ
two32 = 4294967296

-- `Math.imul` and `>>>` on 32-bit patterns.
abbrev pub imul : ℕ → ℕ → ℕ
imul a b = a * b % two32

abbrev pub shr : ℕ → ℕ → ℕ
shr a k = a / 2 ^ k

-- The state after a draw, and the 32 bits drawn: `mulberry32` divides them by 2^32.
unfoldable pub advance : ℕ → ℕ
advance state = (state + 0x6d2b79f5) % two32

unfoldable pub mix : ℕ → ℕ
mix t =
    let a = imul (bit_xor t (shr t 15)) (bit_or t 1) in
    let b = bit_xor a ((a + imul (bit_xor a (shr a 7)) (bit_or a 61)) % two32) in
    bit_xor b (shr b 14) % two32

-- `nextRandomInt`: the random state after it, and the number. The bound is at most 8, so that the product
-- of the source has 36 bits and its floor is exact.
unfoldable pub next_random_int : ℕ → ℕ → ℕ × ℕ
next_random_int exclusive_max state =
    if exclusive_max == 0
    then (state, 0)
    else (advance state, mix (advance state) * exclusive_max / two32)

mix-lt : (t : ℕ) → mix t < two32
unfolding mix
mix-lt t = omega arith

scaled-lt : (b n : ℕ) → b < two32 → 0 < n → b * n / two32 < n
scaled-lt b n h p = (div-lt_iff_lt-mul (omega arith)).1 (rw (mul_comm n two32) (grind arith))

-- The number drawn is below the bound.
pub next_random_int-lt : (n state : ℕ) → 0 < n → (next_random_int n state).1 < n
unfolding next_random_int
next_random_int-lt n state h =
    ground (arith, scaled-lt (mix (advance state)) n, mix-lt (advance state))

module _ {N : Type 0} where
  abbrev pub has_id : ℕ → PlayerState N → Bool
  has_id id p = p.player_id == id

  abbrev pub is_living_tagger : PlayerState N → Bool
  is_living_tagger p = p.is_tagger && p.alive

  abbrev pub find_player : ℕ → World N → Option (PlayerState N)
  find_player id w = find (has_id id) w.players

  abbrev pub find_tagger : World N → Option (PlayerState N)
  find_tagger w = find is_living_tagger w.players

  -- An assignment to the fields of the object that such a search returns.
  abbrev pub update_player : ℕ → (PlayerState N → PlayerState N) → World N → World N
  update_player id f w = record w { players = update_first (has_id id) f w.players }

  abbrev pub update_tagger : (PlayerState N → PlayerState N) → World N → World N
  update_tagger f w = record w { players = update_first is_living_tagger f w.players }
