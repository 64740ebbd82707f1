-- ===== src/Simulation/Roles/Ticks.antt =====
-- What a tick (`stepWorld` of step.ts) does to the roles, over all its phases.
use sw_itch_remake.Base.{
  ℕ, zero, suc, ◌≤◌, ◌≡◌, refl, sym, ◌∙◌, subst, Option, none, some, List, [], ◌∷◌, map, arith,
  if_both, get_elem?, count, All,
}
use sw_itch_remake.Simulation.Floats.{Floats, of_ℕ}
use sw_itch_remake.Simulation.World.{
  PlayerState, World, WorldMap, StormRect, ResolvedInput, TileChange, has_id,
}
use sw_itch_remake.Simulation.Effects.{expire_effects, tick_cooldowns}
use sw_itch_remake.Simulation.Terrain.{Displacement}
use sw_itch_remake.Simulation.Motion.{
  CollisionPair, integrate, resolve_player_collisions, substep_count,
}
use sw_itch_remake.Simulation.Step.{
  EmojiRequest, refresh_player, run_emojis, show_emoji, change_tile, write_row, write_tile, walk,
  after_round, change_tiles, settle, substeps, aim, move_player, input_of, collision_rounds,
}
use sw_itch_remake.Simulation.Roles.{
  Role, role_of, roles_of, role_has, roles_of-map, roles_of-update_first_same, count-roles_of,
}
use sw_itch_remake.Simulation.Roles.Contacts.{
  IsProper, resolve_player_collisions-IsProper, place_all-roles,
}

module _ {N : Type 0} where
  change_tile-players : (c : TileChange) (w : World N) → (change_tile c w).players ≡ w.players
  unfolding change_tile
  change_tile-players c w =
      elim (get_elem? w.map.tiles c.y) as (λ o. (write_row c o w).players ≡ w.players) [
        | none ↦ refl
        | some row ↦ elim (get_elem? row c.x) as (λ o. (write_tile c row o w).players ≡ w.players) [
          | none ↦ refl
          | some old ↦ ground (arith)
        ]
      ]

  pub change_tiles-players :
      (cs : List TileChange) (w : World N) → (change_tiles cs w).players ≡ w.players
  unfolding change_tiles
  change_tiles-players [] w = refl
  change_tiles-players (c ∷ cs) w =
      change_tiles-players cs (change_tile c w) ∙ change_tile-players c w

module _ (f : Floats) where
  open f use {Num}

  pub refresh-role :
      (tick : ℕ) (t : Option (PlayerState Num)) (p : PlayerState Num)
      → role_of (refresh_player f tick t p) ≡ role_of p
  unfolding refresh_player expire_effects tick_cooldowns
  refresh-role tick t p = refl

  settle-role :
      (m : WorldMap Num) (s : StormRect Num) (p : PlayerState Num)
      → role_of (settle f m s p) ≡ role_of p
  settle-role m s p = if_both (λ q. role_of q ≡ role_of p) p.alive _ p (λ h. refl) (λ h. refl)

  substeps-role :
      (m : WorldMap Num) (s : StormRect Num) (x y : Num) (n : ℕ) (p : PlayerState Num)
      → role_of (substeps f m s x y n p) ≡ role_of p
  unfolding substeps
  substeps-role m s x y zero p = refl
  substeps-role m s x y (suc n) p = substeps-role m s x y n _

  aim-role :
      (o : Option (ResolvedInput Num)) (p : PlayerState Num) → role_of (aim f o p).0 ≡ role_of p
  unfolding integrate
  aim-role none p = refl
  aim-role (some i) p = refl

  walk-role :
      (m : WorldMap Num) (s : StormRect Num) (p : PlayerState Num)
      (a : PlayerState Num × Displacement f)
      → role_of (walk f m s p a) ≡ role_of a.0
  unfolding walk
  walk-role m s p (a, to) =
      substeps-role m s (f.div (f.sub to.x p.x) (of_ℕ f (substep_count f p.x p.y to.x to.y)))
        (f.div (f.sub to.y p.y) (of_ℕ f (substep_count f p.x p.y to.x to.y)))
        (substep_count f p.x p.y to.x to.y) a

  pub move_player-role :
      (m : WorldMap Num) (s : StormRect Num) (is : List (ResolvedInput Num)) (p : PlayerState Num)
      → role_of (move_player f m s is p) ≡ role_of p
  unfolding move_player
  move_player-role m s is p =
      if_both (λ q. role_of q ≡ role_of p) p.alive _ p
        (λ h.
          walk-role m s p (aim f (input_of p.player_id is) p)
          ∙ aim-role (input_of p.player_id is) p)
        (λ h. refl)

  pub run_emojis-roles :
      (rs : List EmojiRequest) (w : World Num)
      → roles_of (run_emojis f rs w).players ≡ roles_of w.players
  unfolding run_emojis
  run_emojis-roles [] w = refl
  run_emojis-roles (r ∷ rs) w =
      run_emojis-roles rs _
      ∙ roles_of-update_first_same (has_id r.player_id) (show_emoji f w r) w.players
          (λ p. if_both (λ q. role_of q ≡ role_of p) p.alive _ p (λ h. refl) (λ h. refl))

  -- The rounds of collisions keep the roles, and their pairs are proper where no id stands twice.
  abbrev pub Unique : List Role → Type 0
  Unique rs = (id : ℕ) → count (role_has id) rs ≤ 1

  Unique-ids :
      (ps : List (PlayerState Num)) → Unique (roles_of ps) → (id : ℕ) → count (has_id id) ps ≤ 1
  Unique-ids ps u id = omega (arith, u id, count-roles_of (has_id id) (role_has id) ps (λ p. refl))

  round-roles :
      (m : WorldMap Num) (s : StormRect Num) (ps : List (PlayerState Num))
      → roles_of (map (settle f m s) (resolve_player_collisions f ps).0) ≡ roles_of ps
  unfolding resolve_player_collisions
  round-roles m s ps =
      roles_of-map (settle f m s) (resolve_player_collisions f ps).0 (λ p. settle-role m s p)
      ∙ place_all-roles f _ ps

  after_round-roles :
      (pairs : List CollisionPair) (settled later : List (PlayerState Num))
      → roles_of later ≡ roles_of settled
      → (roles_of (after_round f pairs settled later).0 ≡ roles_of settled)
        × ((after_round f pairs settled later).1 ≡ pairs)
  after_round-roles [] settled later h = (refl, refl)
  after_round-roles (pair ∷ pairs) settled later h = (h, refl)

  pub collision_rounds-roles :
      (m : WorldMap Num) (s : StormRect Num) (n : ℕ) (ps : List (PlayerState Num))
      → roles_of (collision_rounds f m s n ps).0 ≡ roles_of ps
  unfolding collision_rounds
  collision_rounds-roles m s zero ps = refl
  collision_rounds-roles m s (suc n) ps =
      let settled = map (settle f m s) (resolve_player_collisions f ps).0 in
      (after_round-roles (resolve_player_collisions f ps).1 settled
        (collision_rounds f m s n settled).0 (collision_rounds-roles m s n settled)).0
      ∙ round-roles m s ps

  pub collision_rounds-IsProper :
      (m : WorldMap Num) (s : StormRect Num) (n : ℕ) (ps : List (PlayerState Num))
      → Unique (roles_of ps)
      → All IsProper (collision_rounds f m s n ps).1
  unfolding collision_rounds
  collision_rounds-IsProper m s zero ps u = tt
  collision_rounds-IsProper m s (suc n) ps u =
      let settled = map (settle f m s) (resolve_player_collisions f ps).0 in
      let later = (collision_rounds f m s n settled).0 in
      subst (All IsProper)
        (sym
          (after_round-roles (resolve_player_collisions f ps).1 settled later
            (collision_rounds-roles m s n settled)).1)
        (resolve_player_collisions-IsProper f ps (Unique-ids ps u))
