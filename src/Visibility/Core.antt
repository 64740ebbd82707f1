-- ===== src/Visibility/Core.antt =====
-- shared/src/visibility/core.ts: which players a player sees, and which of the tiles that hide players are shown
-- half transparent to a player. The numbers are a parameter, as in the simulation.
use sw_itch_remake.Base.{
  ℕ, ◌+◌, Bool, true, false, ◌&&◌, ◌||◌, not, Option, none, some, List, [], ◌∷◌, ◌==◌, ltb,
  if◌then◌else◌, find, all, ◌++◌,
}
use sw_itch_remake.Base.Int.{ℤ, pos, negsuc, distance, ◌+ℤ◌, ints, at?, is_outside}
use sw_itch_remake.Simulation.Floats.{Floats, of_ℕ}
use sw_itch_remake.Simulation.Floats
use sw_itch_remake.Simulation.World.{TilePhysics, bush, gas}

abbrev pub is_concealment_tile : Option TilePhysics → Bool
is_concealment_tile (some bush) = true
is_concealment_tile (some gas) = true
is_concealment_tile _ = false

-- The window in which the hidden are seen, on differences of tile numbers.
abbrev pub in_reveal_window : ℕ → ℕ → Bool
in_reveal_window dx dy = ltb (dx + dy) 4 && ltb dx 3 && ltb dy 3

module _ (f : Floats) where
  open f use {Num, add, sub, mul, div, neg, of_int, leb, lit}

  pub record VisibilityActor : Type 0 where
    pub player_id : ℕ
    pub x : Num
    pub y : Num
    pub radius : Num
    pub sight_range : Num
    pub alive : Bool

  pub record VisibilityWorld : Type 0 where
    pub cols : ℕ
    pub rows : ℕ
    pub tile_size : Num
    pub tiles : List (List TilePhysics)
    pub players : List VisibilityActor

  pub record TileAlpha : Type 0 where
    pub x : ℤ
    pub y : ℤ
    pub alpha : Num

  pub record VisibilityResult : Type 0 where
    pub visible_player_ids : List ℕ
    pub obscured_player_ids : List ℕ
    pub tile_alphas : List TileAlpha

  abbrev pub has_actor_id : ℕ → VisibilityActor → Bool
  has_actor_id id a = a.player_id == id

  unfoldable pub circle_overlaps_tile : Num → Num → Num → ℤ → ℤ → Num → Bool
  circle_overlaps_tile cx cy r tx ty size =
      let left = mul (of_int tx) size in
      let top = mul (of_int ty) size in
      let dx = sub cx (Floats.max f left (Floats.min f cx (add left size))) in
      let dy = sub cy (Floats.max f top (Floats.min f cy (add top size))) in
      Floats.ltb f (add (mul dx dx) (mul dy dy)) (mul r r)

  -- `tiles[ty]?.[tx]` inside the map.
  abbrev pub tile_at : VisibilityWorld → ℤ → ℤ → Option TilePhysics
  tile_at w tx ty =
      if is_outside tx w.cols || is_outside ty w.rows
      then none
      else elim (at? w.tiles ty) [ none ↦ none | some row ↦ at? row tx ]

  abbrev pub covers : VisibilityWorld → VisibilityActor → ℤ → ℤ → Bool
  covers w a tx ty =
      is_concealment_tile (tile_at w tx ty)
      || not (circle_overlaps_tile a.x a.y a.radius tx ty w.tile_size)

  -- The tiles that the circle meets on one axis.
  abbrev pub tiles_met : VisibilityWorld → Num → Num → List ℤ
  tiles_met w p radius =
      ints (f.floor (div (sub p radius) w.tile_size)) (f.floor (div (add p radius) w.tile_size))

  unfoldable pub is_concealed : VisibilityWorld → VisibilityActor → Bool
  unfolding circle_overlaps_tile
  is_concealed w a =
      all (λ ty. all (λ tx. covers w a tx ty) (tiles_met w a.x a.radius)) (tiles_met w a.y a.radius)

  abbrev pub tile_of : VisibilityWorld → Num → ℤ
  tile_of w p = f.floor (div p w.tile_size)

  unfoldable pub within_reveal_window : VisibilityWorld → VisibilityActor → VisibilityActor → Bool
  within_reveal_window w a b =
      in_reveal_window (distance (tile_of w a.x) (tile_of w b.x))
        (distance (tile_of w a.y) (tile_of w b.y))

  abbrev pub abs : Num → Num
  abs a = if leb (of_ℕ f 0) a then a else neg a

  unfoldable pub within_viewport : VisibilityActor → VisibilityActor → Bool
  within_viewport viewer target =
      let half_w = add (div viewer.sight_range (of_ℕ f 2)) target.radius in
      let aspect = div (of_ℕ f 9) (of_ℕ f 16) in
      let half_h = add (div (mul viewer.sight_range aspect) (of_ℕ f 2)) target.radius in
      leb (abs (sub target.x viewer.x)) half_w && leb (abs (sub target.y viewer.y)) half_h

  unfoldable pub sees : VisibilityWorld → VisibilityActor → VisibilityActor → Bool
  unfolding is_concealed within_reveal_window within_viewport
  sees w viewer target =
      if not target.alive
      then false
      else if target.player_id == viewer.player_id
      then true
      else if not (within_viewport viewer target)
      then false
      else if is_concealed w target
      then within_reveal_window w viewer target
      else true

  unfoldable pub can_see_player : VisibilityWorld → ℕ → ℕ → Bool
  unfolding sees
  can_see_player w viewer_id target_id = elim (find (has_actor_id viewer_id) w.players) [
    | none ↦ false
    | some viewer ↦ elim (find (has_actor_id target_id) w.players) [
      | none ↦ false
      | some target ↦ sees w viewer target
    ]
  ]

  -- The loop over the players, for the two tests that it makes.
  unfoldable pub seen_among :
      (VisibilityActor → Bool) → (VisibilityActor → Bool) → List VisibilityActor → List ℕ × List ℕ
  seen_among seen concealed [] = ([], [])
  seen_among seen concealed (a ∷ actors) =
      let rest = seen_among seen concealed actors in
      if not (seen a)
      then rest
      else if concealed a
      then (a.player_id ∷ rest.0, a.player_id ∷ rest.1)
      else (a.player_id ∷ rest.0, rest.1)

  -- The offsets of the window, and the loops over them.
  abbrev pub offsets : List ℤ
  offsets = ints (negsuc 1) (pos 2)

  abbrev pub is_shown : VisibilityWorld → ℤ → ℤ → Bool
  is_shown w tx ty = is_concealment_tile (tile_at w tx ty)

  unfoldable pub shown_in_row : VisibilityWorld → ℤ → ℤ → ℤ → List ℤ → List TileAlpha
  shown_in_row w vx vy dy [] = []
  shown_in_row w vx vy dy (dx ∷ dxs) =
      let rest = shown_in_row w vx vy dy dxs in
      if ltb (distance dx (pos 0) + distance dy (pos 0)) 4 && is_shown w (vx +ℤ dx) (vy +ℤ dy)
      then record { x = vx +ℤ dx; y = vy +ℤ dy; alpha = lit 45 100 } ∷ rest
      else rest

  unfoldable pub shown_rows : VisibilityWorld → ℤ → ℤ → List ℤ → List TileAlpha
  unfolding shown_in_row
  shown_rows w vx vy [] = []
  shown_rows w vx vy (dy ∷ dys) = shown_in_row w vx vy dy offsets ++ shown_rows w vx vy dys

  unfoldable pub nearby_concealment_tiles : VisibilityWorld → VisibilityActor → List TileAlpha
  unfolding shown_rows
  nearby_concealment_tiles w viewer = shown_rows w (tile_of w viewer.x) (tile_of w viewer.y) offsets

  unfoldable pub compute_visibility : VisibilityWorld → ℕ → VisibilityResult
  unfolding nearby_concealment_tiles seen_among sees
  compute_visibility w viewer_id = elim (find (has_actor_id viewer_id) w.players) [
    | none ↦ record { visible_player_ids = []; obscured_player_ids = []; tile_alphas = [] }
    | some viewer ↦
        let seen = seen_among (sees w viewer) (is_concealed w) w.players in
        record {
          visible_player_ids = seen.0;
          obscured_player_ids = seen.1;
          tile_alphas = nearby_concealment_tiles w viewer;
        }
  ]
