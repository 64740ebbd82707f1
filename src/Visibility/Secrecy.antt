-- ===== src/Visibility/Secrecy.antt =====
-- server-game/src/game/snapshot-view.ts: a censored snapshot has nothing of a player whom its viewer does not see.
use sw_itch_remake.Base.{
  ℕ, ◌≡◌, ◌≢◌, refl, ap, Bool, false, some, List, [], ◌∷◌, ◌==◌, ==_iff, arith, inl, inr,
  if◌then◌else◌, find, map, All, Bool-cases, Option-cases,
}
use sw_itch_remake.Base.Int.{ℤ}
use sw_itch_remake.Simulation.Floats.{Floats}
use sw_itch_remake.Simulation.World.{World, PlayerState, TileChange, AuthoritativeFrame, has_id}
use sw_itch_remake.Rooms.Room.Broadcast.{SnapshotAccess}
use sw_itch_remake.Visibility.Core.{
  VisibilityActor, VisibilityResult, has_actor_id, sees, is_concealed, seen_among,
  compute_visibility, nearby_concealment_tiles, shown_rows, shown_in_row,
}
use sw_itch_remake.Visibility.Snapshot.{
  RosterEntry, is_unfiltered, has, actor_of, to_visibility_world, shown_players, filtered_view,
  build_snapshot,
}

-- Somebody, by their id, in another state.
module _ (f : Floats) (round : f.Num → ℤ) (id : ℕ)
    (change : PlayerState f.Num → PlayerState f.Num) where
  open f use {Num}

  abbrev pub altered_player : PlayerState Num → PlayerState Num
  altered_player p = if p.player_id == id then change p else p

  abbrev pub altered : World Num → World Num
  altered w = record w { players = map altered_player w.players }

  -- They stay themselves, and neither the one state nor the other is seen.
  abbrev pub Unseen : (VisibilityActor f → Bool) → PlayerState Num → Type 0
  Unseen seen p =
      p.player_id ≡ id
      → (seen (actor_of f round p) ≡ false) × (seen (actor_of f round (change p)) ≡ false)

  abbrev pub Keeps : PlayerState Num → Type 0
  Keeps p = p.player_id ≡ id → (change p).player_id ≡ id

  seen_among-altered :
      (seen concealed : VisibilityActor f → Bool) (ps : List (PlayerState Num))
      → All (Unseen seen) ps
      → seen_among f seen concealed (map (actor_of f round) (map altered_player ps))
        ≡ seen_among f seen concealed (map (actor_of f round) ps)
  unfolding seen_among
  seen_among-altered seen concealed [] h = refl
  seen_among-altered seen concealed (p ∷ ps) h = elim (Bool-cases (p.player_id == id)) [
    | inl e ↦
        let (before, after) = h.0 ((==_iff _ _).0 e) in
        rw (e, before, after) (seen_among-altered seen concealed ps h.1)
    | inr e ↦ rw (e, seen_among-altered seen concealed ps h.1) refl
  ]

  find-altered :
      (n : ℕ) (ps : List (PlayerState Num))
      → n ≢ id
      → All Keeps ps
      → find (has_id n) (map altered_player ps) ≡ find (has_id n) ps
  find-altered n [] other h = refl
  find-altered n (p ∷ ps) other h = ground (arith, find-altered n ps other h.1, h.0)

  find_actor-altered :
      (n : ℕ) (ps : List (PlayerState Num))
      → n ≢ id
      → All Keeps ps
      → find (has_actor_id f n) (map (actor_of f round) (map altered_player ps))
        ≡ find (has_actor_id f n) (map (actor_of f round) ps)
  find_actor-altered n [] other h = refl
  find_actor-altered n (p ∷ ps) other h = ground (arith, find_actor-altered n ps other h.1, h.0)

  -- Their id is not among those who are seen.
  seen_among-absent :
      (seen concealed : VisibilityActor f → Bool) (ps : List (PlayerState Num))
      → All (Unseen seen) ps
      → has (seen_among f seen concealed (map (actor_of f round) ps)).0 id ≡ false
  unfolding seen_among
  seen_among-absent seen concealed [] h = refl
  seen_among-absent seen concealed (p ∷ ps) h =
      ground (arith, seen_among-absent seen concealed ps h.1, h.0)

  shown_players-altered :
      (visible obscured : List ℕ) (tick hz : ℕ) (ps : List (PlayerState Num))
      → has visible id ≡ false
      → All Keeps ps
      → shown_players f round visible obscured tick hz (map altered_player ps)
        ≡ shown_players f round visible obscured tick hz ps
  unfolding shown_players
  shown_players-altered visible obscured tick hz [] absent h = refl
  shown_players-altered visible obscured tick hz (p ∷ ps) absent h =
      elim (Bool-cases (p.player_id == id)) [
        | inl e ↦ ground (arith, shown_players-altered visible obscured tick hz ps absent h.1, h.0)
        | inr e ↦ rw (e, shown_players-altered visible obscured tick hz ps absent h.1) refl
      ]

  nearby-altered :
      (w : World Num) (viewer : VisibilityActor f)
      → nearby_concealment_tiles f (to_visibility_world f round (altered w)) viewer
        ≡ nearby_concealment_tiles f (to_visibility_world f round w) viewer
  unfolding nearby_concealment_tiles shown_rows shown_in_row to_visibility_world
  nearby-altered w viewer = refl

  abbrev result : World Num → VisibilityActor f → List ℕ × List ℕ → VisibilityResult f
  result w viewer seen = record {
    visible_player_ids = seen.0;
    obscured_player_ids = seen.1;
    tile_alphas = nearby_concealment_tiles f (to_visibility_world f round w) viewer;
  }

  -- Whoever the viewer is, they see neither state.
  abbrev pub UnseenBy : ℕ → World Num → Type 0
  UnseenBy n w =
      (viewer : VisibilityActor f)
      → find (has_actor_id f n) (to_visibility_world f round w).players ≡ some viewer
      → All (Unseen (sees f (to_visibility_world f round w) viewer)) w.players

  compute_visibility-altered :
      (n : ℕ) (w : World Num)
      → n ≢ id
      → All Keeps w.players
      → UnseenBy n w
      → compute_visibility f (to_visibility_world f round (altered w)) n
        ≡ compute_visibility f (to_visibility_world f round w) n
  unfolding compute_visibility to_visibility_world sees is_concealed
  compute_visibility-altered n w other keeps unseen =
      elim (Option-cases (find (has_actor_id f n) (map (actor_of f round) w.players))) [
        | inl e ↦ rw (compute_visibility, find_actor-altered n w.players other keeps, e) refl
        | inr (viewer, e) ↦
            rw (compute_visibility, find_actor-altered n w.players other keeps, e)
              (ap (result w viewer) (seen_among-altered _ _ w.players (unseen viewer e)))
      ]

  absent :
      (n : ℕ) (w : World Num)
      → UnseenBy n w
      → has (compute_visibility f (to_visibility_world f round w) n).visible_player_ids id ≡ false
  unfolding compute_visibility to_visibility_world sees is_concealed
  absent n w unseen =
      elim (Option-cases (find (has_actor_id f n) (map (actor_of f round) w.players))) [
        | inl e ↦ rw (compute_visibility, e) refl
        | inr (viewer, e) ↦
            rw (compute_visibility, e) (seen_among-absent _ _ w.players (unseen viewer e))
      ]

  -- The snapshot for a viewer with a censored view is the same, whatever the state of somebody else whom the viewer
  -- does not see: nothing of it can be told from what is sent.
  pub build_snapshot-hides :
      (frame : AuthoritativeFrame Num) (n : ℕ) (access : SnapshotAccess) (full : Bool)
      (roster : List RosterEntry) (tile_changes : List TileChange)
      → is_unfiltered access ≡ false
      → n ≢ id
      → All Keeps frame.world.players
      → UnseenBy n frame.world
      → build_snapshot f round
          (record frame { world = altered frame.world })
          (record { player_id = some n; access = access; full = full })
          roster
          tile_changes
        ≡ build_snapshot f round frame
            (record { player_id = some n; access = access; full = full })
            roster
            tile_changes
  unfolding build_snapshot filtered_view
  build_snapshot-hides frame n access full roster tile_changes censored other keeps unseen =
      rw
        (
          censored,
          compute_visibility-altered n frame.world other keeps unseen,
          find-altered n frame.world.players other keeps,
          shown_players-altered _ _ frame.tick frame.world.simulation_hz frame.world.players
              (absent n frame.world unseen) keeps,
        )
        refl
