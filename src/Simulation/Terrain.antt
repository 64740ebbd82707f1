-- ===== src/Simulation/Terrain.antt =====
-- server-game/src/simulation/storm.ts and static-collision.ts: the storm's edge and the walls.
use sw_itch_remake.Base.{
  ℕ, Bool, true, false, ◌&&◌, ◌||◌, not, Option, none, some, List, [], ◌∷◌, if◌then◌else◌,
}
use sw_itch_remake.Base.Int.{ℤ, ints, at?, is_outside}
use sw_itch_remake.Simulation.Floats.{Floats, of_ℕ}
use sw_itch_remake.Simulation.Floats
use sw_itch_remake.Simulation.World.{TilePhysics, wall, WorldMap, StormRect, World}

-- `isSolid(tiles[ty]?.[tx])`.
abbrev pub is_wall : Option TilePhysics → Bool
is_wall none = false
is_wall (some wall) = true
is_wall (some other) = false

abbrev pub tile_at : List (List TilePhysics) → ℤ → ℤ → Option TilePhysics
tile_at tiles ty tx = elim (at? tiles ty) [ none ↦ none | some row ↦ at? row tx ]

module _ (f : Floats) where
  open f use {Num, add, sub, mul, div, neg, sqrt, leb, eqb, of_int}

  -- A position.
  pub record Displacement : Type 0 where
    pub x : Num
    pub y : Num

  unfoldable pub storm_inset : ℕ → Num → Num
  storm_inset tick barrier_speed = mul (of_ℕ f tick) barrier_speed

  unfoldable pub storm_rect : World Num → StormRect Num
  unfolding storm_inset
  storm_rect w =
      let inset = storm_inset w.tick w.map.barrier_speed in
      let map_w = mul (of_ℕ f w.map.cols) w.map.tile_size in
      let map_h = mul (of_ℕ f w.map.rows) w.map.tile_size in
      record {
        x = inset;
        y = inset;
        width = Floats.max f (of_ℕ f 0) (sub map_w (mul inset (of_ℕ f 2)));
        height = Floats.max f (of_ℕ f 0) (sub map_h (mul inset (of_ℕ f 2)));
      }

  unfoldable pub confine_to_storm : Num → Num → Num → StormRect Num → Displacement
  confine_to_storm x y radius rect =
      let min_x = add rect.x radius in
      let max_x = sub (add rect.x rect.width) radius in
      let min_y = add rect.y radius in
      let max_y = sub (add rect.y rect.height) radius in
      record {
        x =
            if Floats.ltb f max_x min_x
            then add rect.x (div rect.width (of_ℕ f 2))
            else Floats.min f (Floats.max f x min_x) max_x;
        y =
            if Floats.ltb f max_y min_y
            then add rect.y (div rect.height (of_ℕ f 2))
            else Floats.min f (Floats.max f y min_y) max_y;
      }

  module _ (map : WorldMap Num) (radius : Num) where
    abbrev pub blocks : ℤ → ℤ → Bool
    blocks ty tx =
        is_outside tx map.cols || is_outside ty map.rows || is_wall (tile_at map.tiles ty tx)

    -- The nearest point of a tile to the coordinate, on one axis.
    abbrev pub nearest : ℤ → Num → Num
    nearest t p =
        let low = mul (of_int t) map.tile_size in
        Floats.max f low (Floats.min f p (add low map.tile_size))

    abbrev pub tile_middle : ℤ → Num
    tile_middle t = add (mul (of_int t) map.tile_size) (div map.tile_size (of_ℕ f 2))

    abbrev pub square : Num → Num → Num
    square dx dy = add (mul dx dx) (mul dy dy)

    -- The position moved out along (dx, dy), whose square is given.
    abbrev pub push_out : Num → Num → Displacement → Displacement
    push_out dx dy p =
        let dist = sqrt (square dx dy) in
        let push = sub radius dist in
        record { x = add p.x (mul (div dx dist) push); y = add p.y (mul (div dy dist) push) }

    -- The body of the double loop, for one tile.
    unfoldable pub push_from_tile : ℤ → ℤ → Displacement → Displacement
    push_from_tile ty tx p =
        let dx = sub p.x (nearest tx p.x) in
        let dy = sub p.y (nearest ty p.y) in
        let mx = sub p.x (tile_middle tx) in
        let my = sub p.y (tile_middle ty) in
        if not (blocks ty tx) || leb (mul radius radius) (square dx dy)
        then p
        else if not (eqb (square dx dy) (of_ℕ f 0))
        then push_out dx dy p
        else if eqb mx (of_ℕ f 0) && eqb my (of_ℕ f 0)
        then push_out mx (neg (of_ℕ f 1)) p
        else push_out mx my p

    unfoldable pub push_from_row : ℤ → List ℤ → Displacement → Displacement
    unfolding push_from_tile
    push_from_row ty [] p = p
    push_from_row ty (tx ∷ txs) p = push_from_row ty txs (push_from_tile ty tx p)

    unfoldable pub push_from_rows : List ℤ → List ℤ → Displacement → Displacement
    unfolding push_from_row
    push_from_rows [] txs p = p
    push_from_rows (ty ∷ tys) txs p = push_from_rows tys txs (push_from_row ty txs p)

    -- The tiles that a circle at the coordinate meets, on one axis.
    abbrev pub tiles_around : Num → List ℤ
    tiles_around p =
        ints (f.floor (div (sub p radius) map.tile_size))
          (f.floor (div (add p radius) map.tile_size))

    unfoldable pub resolve_wall_collision : Num → Num → Displacement
    unfolding push_from_rows
    resolve_wall_collision x y =
        push_from_rows (tiles_around y) (tiles_around x) (record { x = x; y = y })

    unfoldable pub resolve_static : Num → Num → StormRect Num → Displacement
    unfolding resolve_wall_collision confine_to_storm
    resolve_static x y storm =
        let after_wall = resolve_wall_collision x y in
        confine_to_storm after_wall.x after_wall.y radius storm

    abbrev pub hits_tile : Num → Num → ℤ → ℤ → Bool
    hits_tile x y ty tx =
        blocks ty tx
        && Floats.ltb f (square (sub x (nearest tx x)) (sub y (nearest ty y))) (mul radius radius)

    unfoldable pub row_free : Num → Num → ℤ → List ℤ → Bool
    row_free x y ty [] = true
    row_free x y ty (tx ∷ txs) = not (hits_tile x y ty tx) && row_free x y ty txs

    unfoldable pub rows_free : Num → Num → List ℤ → List ℤ → Bool
    unfolding row_free
    rows_free x y [] txs = true
    rows_free x y (ty ∷ tys) txs = row_free x y ty txs && rows_free x y tys txs

    unfoldable pub is_position_free : Num → Num → StormRect Num → Bool
    unfolding rows_free
    is_position_free x y storm =
        not (
          Floats.ltb f (sub x radius) storm.x
          || Floats.ltb f (add storm.x storm.width) (add x radius))
        && not (
            Floats.ltb f (sub y radius) storm.y
            || Floats.ltb f (add storm.y storm.height) (add y radius))
        && rows_free x y (tiles_around y) (tiles_around x)
