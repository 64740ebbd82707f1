-- ===== src/Visibility/Tests.antt =====
-- Views of a small yard (shared/src/visibility/core.ts, server-game/src/game/snapshot-view.ts), over whole numbers.
use sw_itch_remake.Base.{
  ℕ, ◌≤◌, ◌≡◌, refl, ap, subst, true, false, ◌&&◌, none, some, [], ◌∷◌, arith, find, count, get_or,
  All,
}
use sw_itch_remake.Base.Int.{pos}
use sw_itch_remake.Simulation.World.{World, PlayerState, bush, AuthoritativeFrame}
use sw_itch_remake.Simulation.Tests.{whole, player_at, empty_map}
use sw_itch_remake.Rooms.Room.Broadcast.{filtered}
use sw_itch_remake.Visibility.Core.{
  has_actor_id, sees, within_viewport, is_concealed, can_see_player, compute_visibility,
  nearby_concealment_tiles, VisibilityWorld,
}
use sw_itch_remake.Visibility.Snapshot.{
  ViewerContext, has, actor_of, to_visibility_world, build_snapshot,
}
use sw_itch_remake.Visibility.Laws.{passes, compute_visibility-exact}
use sw_itch_remake.Visibility.Window.{is_listed, is_seen_through, nearby_concealment_tiles-exact}
use sw_itch_remake.Visibility.Secrecy.{altered, Unseen, UnseenBy, build_snapshot-hides}

-- Player 1 sees 200 pixels far, player 2 stands 2000 pixels away, or somewhat more.
abbrev short_sighted : PlayerState ℕ
short_sighted = record (player_at 1 1000 true) { sight_range = 200 }

abbrev moved_off : PlayerState ℕ → PlayerState ℕ
moved_off p = record p { x = 3400; facing_x = 0; facing_y = 1 }

abbrev wide_yard : World ℕ
wide_yard = record {
  tick = 100;
  simulation_hz = 60;
  map = empty_map;
  players = short_sighted ∷ player_at 2 3000 false ∷ [];
  storm = none;
  tile_changes = [];
  tagger_changed_at_tick = 0;
  random_state = 7;
}

abbrev wide_frame : AuthoritativeFrame ℕ
wide_frame = record { tick = 100; world = wide_yard; events = []; skill_rejections = [] }

far_away :
    (sees whole
        (to_visibility_world whole pos wide_yard)
        (actor_of whole pos short_sighted)
        (actor_of whole pos (player_at 2 3000 false))
      ≡ false)
    × (sees whole
          (to_visibility_world whole pos wide_yard)
          (actor_of whole pos short_sighted)
          (actor_of whole pos (moved_off (player_at 2 3000 false)))
        ≡ false)
unfolding sees within_viewport
far_away = (refl, refl)

wide_yard-UnseenBy : UnseenBy whole pos 2 moved_off 1 wide_yard
unfolding to_visibility_world
wide_yard-UnseenBy viewer e =
    subst
      (λ v.
        All (Unseen whole pos 2 moved_off (sees whole (to_visibility_world whole pos wide_yard) v))
          wide_yard.players)
      (ap (λ o. get_or o (actor_of whole pos short_sighted)) e)
      (λ same. absurd (omega (arith, same)), (λ same. far_away, tt))

abbrev first_player : ViewerContext
first_player = record { player_id = some 1; access = filtered; full = false }

build_snapshot-hides_example :
    build_snapshot whole pos
      (record wide_frame { world = altered whole pos 2 moved_off wide_yard })
      first_player
      []
      []
    ≡ build_snapshot whole pos wide_frame first_player [] []
build_snapshot-hides_example =
    build_snapshot-hides whole pos 2 moved_off wide_frame 1 filtered false [] [] refl
      (λ e. absurd (omega (arith, e))) (λ e. e, (λ e. e, tt)) wide_yard-UnseenBy

abbrev wide_sight : VisibilityWorld whole
wide_sight = to_visibility_world whole pos wide_yard

wide_sight-one : count (has_actor_id whole 2) wide_sight.players ≤ 1
unfolding to_visibility_world
wide_sight-one = omega arith

compute_visibility-exact_example :
    (has (compute_visibility whole wide_sight 1).visible_player_ids 2
      ≡ can_see_player whole wide_sight 1 2)
    × (has (compute_visibility whole wide_sight 1).obscured_player_ids 2 ≡ (
        can_see_player whole wide_sight 1 2
        && passes whole
            (is_concealed whole wide_sight)
            (find (has_actor_id whole 2) wide_sight.players)))
compute_visibility-exact_example = compute_visibility-exact whole wide_sight 1 2 wide_sight-one

-- Grass in the lowest of three rows.
abbrev meadow : VisibilityWorld whole
meadow = record {
  cols = 3;
  rows = 3;
  tile_size = 256;
  tiles = [] ∷ [] ∷ (bush ∷ bush ∷ bush ∷ []) ∷ [];
  players = [];
}

nearby_concealment_tiles-exact_example :
    is_listed whole
      (pos 2)
      (pos 2)
      (nearby_concealment_tiles whole meadow (actor_of whole pos short_sighted))
    ≡ is_seen_through whole meadow (pos 3) (pos 3) (pos 2) (pos 2)
nearby_concealment_tiles-exact_example =
    nearby_concealment_tiles-exact whole meadow (actor_of whole pos short_sighted) (pos 2) (pos 2)
