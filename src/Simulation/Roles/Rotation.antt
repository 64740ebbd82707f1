-- ===== src/Simulation/Roles/Rotation.antt =====
-- The forced change of the tagger (`rotateTaggerIfStale` of step.ts): a runner that is alive becomes the only one.
use sw_itch_remake.Base.{
  ℕ, zero, suc, ◌≤◌, ◌<◌, ◌≡◌, refl, sym, subst, ◌∙◌, Bool, true, ◌&&◌, ◌||◌, Option, none, some,
  List, [], ◌∷◌, ◌++◌, map, arith, ◌==◌, if_both, get_elem?, length, length-count, length-filter,
  ◌⊎◌, filter, sort_by, count, count-append, count-sort_by, count-filter-le, All, All-sort_by,
  Bool-cases, inl, inr,
}
use sw_itch_remake.Simulation.Floats.{Floats}
use sw_itch_remake.Simulation.World.{
  PlayerState, World, WorldEvent, tagged, has_id, next_random_int,
}
use sw_itch_remake.Simulation.Effects.{apply_effect}
use sw_itch_remake.Simulation.Skills.{is_runner, rotation_candidates, grant_tagger_frenzy}
use sw_itch_remake.Simulation.Step.{
  set_tagger, rotate_to, rotate_drawn, is_fresh, rotate_tagger_if_stale,
}
use sw_itch_remake.Simulation.Roles.{
  Role, role_of, roles_of, role_has, role_alive, role_leads, roles_of-update_first_same,
  count-roles_of,
}
use sw_itch_remake.Simulation.Roles.Tagging.{is_elimination, Balanced}

-- The role that `set_tagger` gives.
abbrev set_leader : ℕ → Role → Role
set_leader id r = record r { is_tagger = r.id == id }

abbrev living_with : ℕ → Role → Bool
living_with id r = r.id == id && r.alive

map-leaders :
    (id : ℕ) (rs : List Role)
    → count role_leads (map (set_leader id) rs) ≡ count (living_with id) rs
map-leaders id [] = refl
map-leaders id (r ∷ rs) = ground (arith, map-leaders id rs)

map-alive :
    (id : ℕ) (rs : List Role) → count role_alive (map (set_leader id) rs) ≡ count role_alive rs
map-alive id [] = refl
map-alive id (r ∷ rs) = omega (arith, map-alive id rs)

map-ids :
    (id i : ℕ) (rs : List Role)
    → count (role_has i) (map (set_leader id) rs) ≡ count (role_has i) rs
map-ids id i [] = refl
map-ids id i (r ∷ rs) = omega (arith, map-ids id i rs)

living_with-le : (id : ℕ) (rs : List Role) → count (living_with id) rs ≤ count (role_has id) rs
living_with-le id [] = omega arith
living_with-le id (r ∷ rs) = ground (arith, living_with-le id rs)

get_elem?-count :
    {A : Type 0} (q : A → Bool) (xs : List A) (i : ℕ) (a : A)
    → get_elem? xs i ≡ some a
    → q a ≡ true
    → 1 ≤ count q xs
get_elem?-count q [] i a e h = cc
get_elem?-count q (x ∷ xs) zero a e h = ground arith
get_elem?-count q (x ∷ xs) (suc i) a e h = ground (arith, get_elem?-count q xs i a e h)

get_elem?-All :
    {A : Type 0} (P : A → Type 0) (xs : List A) (i : ℕ) (a : A)
    → All P xs
    → get_elem? xs i ≡ some a
    → P a
get_elem?-All P [] i a h e = cc
get_elem?-All P (x ∷ xs) zero a h e = let same : x ≡ a = ground arith in subst P same h.0
get_elem?-All P (x ∷ xs) (suc i) a h e = get_elem?-All P xs i a h.1 e

get_elem?-some :
    {A : Type 0} (xs : List A) (i : ℕ) → i < length xs → (a : A) × (get_elem? xs i ≡ some a)
get_elem?-some [] i h = absurd (omega (arith, h))
get_elem?-some (x ∷ xs) zero h = (x, refl)
get_elem?-some (x ∷ xs) (suc i) h = get_elem?-some xs i (omega arith)

filter-passes : {A : Type 0} (p : A → Bool) (xs : List A) → All (λ x. p x ≡ true) (filter p xs)
filter-passes p [] = tt
filter-passes p (x ∷ xs) = elim (Bool-cases (p x)) [
  | inl t ↦ rw t (t, filter-passes p xs)
  | inr f ↦ rw f (filter-passes p xs)
]

roles_of-set_tagger :
    {N : Type 0} (id : ℕ) (ps : List (PlayerState N))
    → roles_of (map (set_tagger id) ps) ≡ map (set_leader id) (roles_of ps)
roles_of-set_tagger id [] = refl
roles_of-set_tagger id (p ∷ ps) = rw (roles_of-set_tagger id ps) refl

module _ {N : Type 0} (w : World N) where
  length-candidates : length (rotation_candidates w) ≡ count is_runner w.players
  unfolding rotation_candidates
  length-candidates =
      length-count (sort_by (λ p. p.player_id) (filter is_runner w.players))
      ∙ count-sort_by (λ p. p.player_id) (λ _. true) (filter is_runner w.players)
      ∙ sym (length-count (filter is_runner w.players))
      ∙ length-filter is_runner w.players

  module _ (i : ℕ) (p : PlayerState N) (e : get_elem? (rotation_candidates w) i ≡ some p) where
    candidate-runs : is_runner p ≡ true
    unfolding rotation_candidates
    candidate-runs =
        get_elem?-All (λ q. is_runner q ≡ true)
          (sort_by (λ q. q.player_id) (filter is_runner w.players)) i p
          (All-sort_by (λ q. is_runner q ≡ true) (λ q. q.player_id) (filter is_runner w.players)
            (filter-passes is_runner w.players))
          e

    candidate-counted : 1 ≤ count (living_with p.player_id) (roles_of w.players)
    unfolding rotation_candidates
    candidate-counted =
        let q : PlayerState N → Bool = λ z. living_with p.player_id (role_of z) in
        let sorted = sort_by (λ z. z.player_id) (filter is_runner w.players) in
        omega (
          arith,
          get_elem?-count q sorted i p e (lives p (candidate-runs)),
          count-sort_by (λ z. z.player_id) q (filter is_runner w.players),
          count-filter-le q is_runner w.players,
          count-roles_of q (living_with p.player_id) w.players (λ z. refl),
        )
      where
        lives :
            (p : PlayerState N) → is_runner p ≡ true → living_with p.player_id (role_of p) ≡ true
        lives p h = ground arith

module _ (f : Floats) where
  open f use {Num}

  rotate_to-roles :
      (p : PlayerState Num) (w : World Num)
      → roles_of (rotate_to f p w).players ≡ map (set_leader p.player_id) (roles_of w.players)
  unfolding rotate_to grant_tagger_frenzy apply_effect
  rotate_to-roles p w =
      roles_of-update_first_same (has_id p.player_id) _ _ (λ q. refl)
      ∙ roles_of-set_tagger p.player_id w.players

  abbrev Session : Type 0
  Session = World Num × List (WorldEvent Num)

  abbrev pub Rotated : Session → Session → Type 0
  Rotated s t =
      Balanced (roles_of s.0.players) s.1 (roles_of t.0.players) t.1
      × ((roles_of t.0.players ≡ roles_of s.0.players)
          ⊎ (count role_leads (roles_of t.0.players) ≡ 1))

  Rotated-refl : (s : Session) → Rotated s s
  Rotated-refl s = ((λ i. refl, refl), inl refl)

  rotate_to-leaders :
      (i : ℕ) (p : PlayerState Num) (w : World Num)
      → ((id : ℕ) → count (role_has id) (roles_of w.players) ≤ 1)
      → get_elem? (rotation_candidates w) i ≡ some p
      → count role_leads (map (set_leader p.player_id) (roles_of w.players)) ≡ 1
  rotate_to-leaders i p w u e = omega (
    arith,
    u p.player_id,
    map-leaders p.player_id (roles_of w.players),
    living_with-le p.player_id (roles_of w.players),
    candidate-counted w i p e,
  )

  rotate_to-Rotated :
      (i : ℕ) (p : PlayerState Num) (s : Session)
      → ((id : ℕ) → count (role_has id) (roles_of s.0.players) ≤ 1)
      → get_elem? (rotation_candidates s.0) i ≡ some p
      → Rotated s (rotate_to f p s.0, s.1 ++ (tagged p.player_id none ∷ []))
  rotate_to-Rotated i p s u e =
      let rs = roles_of s.0.players in
      subst
        (λ rs'.
          Balanced rs s.1 rs' (s.1 ++ (tagged p.player_id none ∷ []))
          × ((rs' ≡ rs) ⊎ (count role_leads rs' ≡ 1)))
        (sym (rotate_to-roles p s.0))
        (
          (
            λ k. map-ids p.player_id k rs,
            omega (
              arith,
              map-alive p.player_id rs,
              count-append is_elimination s.1 (tagged p.player_id none ∷ []),
            ),
          ),
          inr (rotate_to-leaders i p s.0 u e),
        )

  rotate_drawn-Rotated :
      (i : ℕ) (o : Option (PlayerState Num)) (s : Session)
      → ((id : ℕ) → count (role_has id) (roles_of s.0.players) ≤ 1)
      → get_elem? (rotation_candidates s.0) i ≡ o
      → Rotated s (rotate_drawn f o s)
  unfolding rotate_drawn
  rotate_drawn-Rotated i none s u e = Rotated-refl s
  rotate_drawn-Rotated i (some p) s u e = rotate_to-Rotated i p s u e

  -- Where no id stands twice, the forced change of the tagger keeps the ids and those alive and eliminates nobody;
  -- and it leaves every part as it is, or exactly one living player is the tagger after it.
  pub rotate_tagger_if_stale-Rotated :
      (s : Session)
      → ((id : ℕ) → count (role_has id) (roles_of s.0.players) ≤ 1)
      → Rotated s (rotate_tagger_if_stale f s)
  unfolding rotate_tagger_if_stale rotation_candidates
  rotate_tagger_if_stale-Rotated s u =
      let draw = next_random_int (length (rotation_candidates s.0)) s.0.random_state in
      if_both (Rotated s) (is_fresh f s.0 || length (rotation_candidates s.0) == 0) _ _
        (λ fresh. Rotated-refl s)
        (λ stale.
          rotate_drawn-Rotated draw.1 (get_elem? (rotation_candidates s.0) draw.1)
            (record s.0 { random_state = draw.0 }, s.1) u refl)
