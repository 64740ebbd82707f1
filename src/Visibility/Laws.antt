-- ===== src/Visibility/Laws.antt =====
-- shared/src/visibility/core.ts: the list of those who are seen.
use sw_itch_remake.Base.{
  ℕ, ◌≤◌, ◌≡◌, refl, ◌∙◌, Bool, false, ◌&&◌, Option, none, some, List, [], ◌∷◌, ◌==◌, arith, inl,
  inr, find, count, Bool-cases, Option-cases,
}
use sw_itch_remake.Simulation.Floats.{Floats}
use sw_itch_remake.Visibility.Core.{
  VisibilityActor, VisibilityWorld, has_actor_id, sees, is_concealed, seen_among, can_see_player,
  compute_visibility,
}
use sw_itch_remake.Visibility.Snapshot.{has}

module _ (f : Floats) where
  open f use {Num}

  seen_none :
      (seen concealed : VisibilityActor f → Bool) (id : ℕ) (actors : List (VisibilityActor f))
      → count (has_actor_id f id) actors ≡ 0
      → (has (seen_among f seen concealed actors).0 id ≡ false)
        × (has (seen_among f seen concealed actors).1 id ≡ false)
  unfolding seen_among
  seen_none seen concealed id [] h = (refl, refl)
  seen_none seen concealed id (a ∷ actors) h =
      let rest = seen_none seen concealed id actors (ground arith) in ground (arith, rest)

  abbrev pub passes : (VisibilityActor f → Bool) → Option (VisibilityActor f) → Bool
  passes test none = false
  passes test (some a) = test a

  seen_among-exact :
      (seen concealed : VisibilityActor f → Bool) (id : ℕ) (actors : List (VisibilityActor f))
      → count (has_actor_id f id) actors ≤ 1
      → (has (seen_among f seen concealed actors).0 id
          ≡ passes seen (find (has_actor_id f id) actors))
        × (has (seen_among f seen concealed actors).1 id
            ≡ passes (λ a. seen a && concealed a) (find (has_actor_id f id) actors))
  unfolding seen_among
  seen_among-exact seen concealed id [] h = (refl, refl)
  seen_among-exact seen concealed id (a ∷ actors) h = elim (Bool-cases (a.player_id == id)) [
    | inl e ↦ let rest = seen_none seen concealed id actors (ground arith) in ground (arith, rest)
    | inr e ↦
        let rest = seen_among-exact seen concealed id actors (ground arith) in ground (arith, rest)
  ]

  -- Where no id stands twice, the list of those whom a player sees has exactly those whom the single test says that
  -- the player sees, and the list of those who are shown half transparent exactly those of them who are hiding.
  pub compute_visibility-exact :
      (w : VisibilityWorld f) (viewer_id id : ℕ)
      → count (has_actor_id f id) w.players ≤ 1
      → (has (compute_visibility f w viewer_id).visible_player_ids id
          ≡ can_see_player f w viewer_id id)
        × (has (compute_visibility f w viewer_id).obscured_player_ids id ≡ (
            can_see_player f w viewer_id id
            && passes (is_concealed f w) (find (has_actor_id f id) w.players)))
  unfolding compute_visibility can_see_player
  compute_visibility-exact w viewer_id id one =
      elim (Option-cases (find (has_actor_id f viewer_id) w.players)) [
        | inl e ↦ rw (compute_visibility, can_see_player, e) (refl, refl)
        | inr (viewer, e) ↦
            let exact = seen_among-exact (sees f w viewer) (is_concealed f w) id w.players one in
            rw (compute_visibility, can_see_player, e)
              (
                exact.0 ∙ as_seen viewer (find (has_actor_id f id) w.players),
                exact.1 ∙ as_obscured viewer (find (has_actor_id f id) w.players),
              )
      ]
    where
      as_seen :
          (viewer : VisibilityActor f) (o : Option (VisibilityActor f))
          → passes (sees f w viewer) o
            ≡ (elim o [ none ↦ false | some target ↦ sees f w viewer target ])
      as_seen viewer none = refl
      as_seen viewer (some a) = refl

      as_obscured :
          (viewer : VisibilityActor f) (o : Option (VisibilityActor f))
          → passes (λ a. sees f w viewer a && is_concealed f w a) o ≡ (
              (elim o [ none ↦ false | some target ↦ sees f w viewer target ])
              && passes (is_concealed f w) o)
      as_obscured viewer none = refl
      as_obscured viewer (some a) = refl
