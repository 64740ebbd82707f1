-- ===== src/Simulation/Roles.antt =====
-- Who is alive and who is the tagger: the part of a world of server-game/src/simulation that a rule of the
-- game is about, and what each operation of skills.ts, step.ts and effects.ts does to it.
pub mod Casting
pub mod Requests
pub mod Contacts
pub mod Tagging
pub mod Rotation
pub mod Quiet
pub mod Ticks
pub mod Fairness
use sw_itch_remake.Base.{
  ℕ, ◌+◌, ◌≤◌, ◌≡◌, refl, ◌∙◌, sym, ap, Bool, true, false, ◌&&◌, not, Option, none, some, List, [],
  ◌∷◌, map, arith, inl, inr, if◌then◌else◌, ◌==◌, find, filter, count, update_first,
  count-update_first, Bool-cases, Option-cases,
}
use sw_itch_remake.Simulation.World.{PlayerState, World, has_id, is_living_tagger}

pub record Role : Type 0 where
  pub id : ℕ
  pub alive : Bool
  pub is_tagger : Bool

abbrev pub role_of : {N : Type 0} → PlayerState N → Role
role_of p = record { id = p.player_id; alive = p.alive; is_tagger = p.is_tagger }

abbrev pub roles_of : {N : Type 0} → List (PlayerState N) → List Role
roles_of ps = map role_of ps

abbrev pub role_has : ℕ → Role → Bool
role_has id r = r.id == id

abbrev pub role_alive : Role → Bool
role_alive r = r.alive

abbrev pub role_leads : Role → Bool
role_leads r = r.is_tagger && r.alive

abbrev pub dethrone : Role → Role
dethrone r = record r { is_tagger = false }

abbrev pub crown : Role → Role
crown r = record r { is_tagger = true }

abbrev pub fell : Role → Role
fell r = record r { alive = false }

-- The tagger's part passes from the first living tagger to a player.
unfoldable pub pass_on : ℕ → List Role → List Role
pass_on target rs = update_first (role_has target) crown (update_first role_leads dethrone rs)

module _ {N : Type 0} where
  -- A change of one player is a change of one role.
  pub roles_of-update_first :
      (p : PlayerState N → Bool) (f : PlayerState N → PlayerState N) (q : Role → Bool)
      (g : Role → Role) (ps : List (PlayerState N))
      → ((a : PlayerState N) → p a ≡ q (role_of a))
      → ((a : PlayerState N) → role_of (f a) ≡ g (role_of a))
      → roles_of (update_first p f ps) ≡ update_first q g (roles_of ps)
  unfolding update_first
  roles_of-update_first p f q g [] h k = refl
  roles_of-update_first p f q g (a ∷ ps) h k = elim (Bool-cases (p a)) [
    | inl e ↦ rw (e, ← h a, e, k a) refl
    | inr e ↦ rw (e, ← h a, e, roles_of-update_first p f q g ps h k) refl
  ]

  -- A change that no role sees.
  pub roles_of-update_first_same :
      (p : PlayerState N → Bool) (f : PlayerState N → PlayerState N) (ps : List (PlayerState N))
      → ((a : PlayerState N) → role_of (f a) ≡ role_of a)
      → roles_of (update_first p f ps) ≡ roles_of ps
  unfolding update_first
  roles_of-update_first_same p f [] k = refl
  roles_of-update_first_same p f (a ∷ ps) k = elim (Bool-cases (p a)) [
    | inl e ↦ rw (e, k a) refl
    | inr e ↦ rw (e, roles_of-update_first_same p f ps k) refl
  ]

  pub roles_of-map :
      (f : PlayerState N → PlayerState N) (ps : List (PlayerState N))
      → ((a : PlayerState N) → role_of (f a) ≡ role_of a)
      → roles_of (map f ps) ≡ roles_of ps
  roles_of-map f [] k = refl
  roles_of-map f (a ∷ ps) k = rw (k a, roles_of-map f ps k) refl

  -- A search by a role finds the same in both.
  pub find-roles_of :
      (p : PlayerState N → Bool) (q : Role → Bool) (ps : List (PlayerState N))
      → ((a : PlayerState N) → p a ≡ q (role_of a))
      → (a : PlayerState N) → find p ps ≡ some a
      → find q (roles_of ps) ≡ some (role_of a)
  find-roles_of p q [] h a e = cc
  find-roles_of p q (b ∷ ps) h a e = elim (Bool-cases (p b)) [
    | inl t ↦ rw (← h b, t) (ground arith)
    | inr t ↦ rw (← h b, t) (find-roles_of p q ps h a (ground arith))
  ]

  pub count-roles_of :
      (p : PlayerState N → Bool) (q : Role → Bool) (ps : List (PlayerState N))
      → ((a : PlayerState N) → p a ≡ q (role_of a))
      → count p ps ≡ count q (roles_of ps)
  count-roles_of p q [] h = refl
  count-roles_of p q (b ∷ ps) h = rw (h b, count-roles_of p q ps h) refl
