-- ===== src/Simulation/Roles/Contacts.antt =====
-- The collisions (player-collision.ts) keep the roles, and a pair of them names two players.
use sw_itch_remake.Base.{
  ℕ, zero, suc, ◌≤◌, ◌≡◌, ◌≢◌, refl, ◌∙◌, List, [], ◌∷◌, arith, if◌then◌else◌, ◌==◌, if_both, count,
  count-filter-le, count-sort_by, filter, length, All, All-append,
}
use sw_itch_remake.Simulation.Floats.{Floats}
use sw_itch_remake.Simulation.World.{PlayerState, has_id}
use sw_itch_remake.Simulation.Motion.{
  CollisionPair, touches, separate, push_apart, separate_from, separate_all, place, place_all,
  active, resolve_player_collisions,
}
use sw_itch_remake.Simulation.Roles.{role_of, roles_of}

abbrev pub IsProper : CollisionPair → Type 0
IsProper pair = pair.0 ≢ pair.1

module _ (f : Floats) where
  open f use {Num}

  abbrev SameId : PlayerState Num → PlayerState Num → Type 0
  SameId p q = q.player_id ≡ p.player_id

  separated-ids :
      (a b : PlayerState Num) → SameId a (separate f a b).0 × SameId b (separate f a b).1
  unfolding separate push_apart
  separated-ids a b = (refl, refl)

  separate_from-id :
      (a : PlayerState Num) (bs : List (PlayerState Num)) → SameId a (separate_from f a bs).0
  unfolding separate_from
  separate_from-id a [] = refl
  separate_from-id a (b ∷ bs) =
      let moved = if touches f a b then (separate f a b).0 else a in
      separate_from-id moved bs
      ∙ if_both (SameId a) (touches f a b) (separate f a b).0 a (λ t. (separated-ids a b).0)
          (λ t. refl)

  separate_from-ids :
      (id : ℕ) (a : PlayerState Num) (bs : List (PlayerState Num))
      → count (has_id id) (separate_from f a bs).1 ≡ count (has_id id) bs
  unfolding separate_from
  separate_from-ids id a [] = refl
  separate_from-ids id a (b ∷ bs) =
      let other : SameId b (if touches f a b then (separate f a b).1 else b) =
        if_both (SameId b) (touches f a b) (separate f a b).1 b (λ t. (separated-ids a b).1)
          (λ t. refl) in
      rw other
        (omega (arith, separate_from-ids id (if touches f a b then (separate f a b).0 else a) bs))

  separate_from-IsProper :
      (a : PlayerState Num) (bs : List (PlayerState Num))
      → count (has_id a.player_id) bs ≡ 0
      → All IsProper (separate_from f a bs).2
  unfolding separate_from
  separate_from-IsProper a [] h = tt
  separate_from-IsProper a (b ∷ bs) h =
      let moved = if touches f a b then (separate f a b).0 else a in
      let same : SameId a moved =
        if_both (SameId a) (touches f a b) (separate f a b).0 a (λ t. (separated-ids a b).0)
          (λ t. refl) in
      let rest = separate_from-IsProper moved bs (rw same (ground arith)) in
      if_both (All IsProper) (touches f a b) _ _ (λ t. (λ e. ground arith, rest)) (λ t. rest)

  separate_all-IsProper :
      (n : ℕ) (ps : List (PlayerState Num))
      → ((id : ℕ) → count (has_id id) ps ≤ 1)
      → All IsProper (separate_all f n ps).1
  unfolding separate_all
  separate_all-IsProper zero ps h = tt
  separate_all-IsProper (suc n) [] h = tt
  separate_all-IsProper (suc n) (a ∷ bs) h =
      All-append IsProper (separate_from f a bs).2 _
        (separate_from-IsProper a bs (ground (arith, h a.player_id)))
        (separate_all-IsProper n (separate_from f a bs).1
          (λ id. ground (arith, h id, separate_from-ids id a bs)))

  pub resolve_player_collisions-IsProper :
      (ps : List (PlayerState Num))
      → ((id : ℕ) → count (has_id id) ps ≤ 1)
      → All IsProper (resolve_player_collisions f ps).1
  unfolding resolve_player_collisions
  resolve_player_collisions-IsProper ps h =
      separate_all-IsProper (length (active f ps)) (active f ps) (λ id. omega (
        arith,
        h id,
        count-sort_by (λ p. p.player_id) (has_id id) (filter (λ p. p.alive) ps),
        count-filter-le (has_id id) (λ p. p.alive) ps,
      ))

  place-role :
      (moved : List (PlayerState Num)) (p : PlayerState Num) → role_of (place f moved p) ≡ role_of p
  place-role [] p = refl
  place-role (m ∷ ms) p =
      if_both (λ q. role_of q ≡ role_of p) (m.player_id == p.player_id) _ (place f ms p) (λ t. refl)
        (λ t. place-role ms p)

  pub place_all-roles :
      (moved ps : List (PlayerState Num)) → roles_of (place_all f moved ps) ≡ roles_of ps
  unfolding place_all
  place_all-roles moved [] = refl
  place_all-roles moved (p ∷ ps) = rw (place-role moved p, place_all-roles moved ps) refl
