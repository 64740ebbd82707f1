-- ===== src/Simulation/Roles/Casting.antt =====
-- What passing the tagger's part on does to the roles, and what a player who falls takes with it.
use sw_itch_remake.Base.{
  ℕ, ◌≡◌, refl, ◌∙◌, ap, ◌⊎◌, true, false, some, List, [], ◌∷◌, arith, inl, inr, find, count,
  update_first, count-update_first, count-update_first_same,
}
use sw_itch_remake.Simulation.Roles.{
  Role, role_has, role_alive, role_leads, dethrone, crown, pass_on,
}

pub find-dethrone :
    (t : ℕ) (a b : Role) (rs : List Role)
    → find role_leads rs ≡ some a
    → find (role_has t) rs ≡ some b
    → b.is_tagger ≡ false
    → find (role_has t) (update_first role_leads dethrone rs) ≡ some b
unfolding update_first
find-dethrone t a b [] h k n = cc
find-dethrone t a b (r ∷ rs) h k n = ground (arith, find-dethrone t a b rs)

-- A runner that is alive, and the id that finds it.
abbrev pub IsRunner : ℕ → Role → List Role → Type 0
IsRunner t b rs = (find (role_has t) rs ≡ some b) × (b.alive ≡ true) × (b.is_tagger ≡ false)

module _ (t : ℕ) (a b : Role) (rs : List Role) (h : find role_leads rs ≡ some a)
    (k : IsRunner t b rs) where
  pub pass_on-leaders : count role_leads (pass_on t rs) ≡ count role_leads rs
  unfolding pass_on
  pass_on-leaders = ground (
    arith,
    count-update_first role_leads role_leads dethrone a rs,
    find-dethrone t a b rs,
    count-update_first role_leads (role_has t) crown b (update_first role_leads dethrone rs),
    find_leads a rs h,
  )
    where
      find_leads : (a : Role) (rs : List Role) → find role_leads rs ≡ some a → role_leads a ≡ true
      find_leads a [] h = cc
      find_leads a (r ∷ rs) h = ground (arith, find_leads a rs)

pub pass_on-alive : (t : ℕ) (rs : List Role) → count role_alive (pass_on t rs) ≡ count role_alive rs
unfolding pass_on
pass_on-alive t rs =
    count-update_first_same role_alive (role_has t) crown (update_first role_leads dethrone rs)
      (λ a. refl)
    ∙ count-update_first_same role_alive role_leads dethrone rs (λ a. refl)

pub pass_on-ids :
    (t id : ℕ) (rs : List Role) → count (role_has id) (pass_on t rs) ≡ count (role_has id) rs
unfolding pass_on
pass_on-ids t id rs =
    count-update_first_same (role_has id) (role_has t) crown (update_first role_leads dethrone rs)
      (λ a. refl)
    ∙ count-update_first_same (role_has id) role_leads dethrone rs (λ a. refl)

-- The roles stay, or a living runner takes the part of the tagger.
pub record Passed (rs rs' : List Role) : Type 0 where
  pub target : ℕ
  pub old : Role
  pub new : Role
  pub leads : find role_leads rs ≡ some old
  pub runner : IsRunner target new rs
  pub passed : rs' ≡ pass_on target rs

abbrev pub Handover : List Role → List Role → Type 0
Handover rs rs' = (rs' ≡ rs) ⊎ Passed rs rs'

module _ {rs rs' : List Role} where
  pub Handover-leaders : Handover rs rs' → count role_leads rs' ≡ count role_leads rs
  Handover-leaders (inl same) = ap (count role_leads) same
  Handover-leaders (inr p) =
      ap (count role_leads) p.passed ∙ pass_on-leaders p.target p.old p.new rs p.leads p.runner

  pub Handover-alive : Handover rs rs' → count role_alive rs' ≡ count role_alive rs
  Handover-alive (inl same) = ap (count role_alive) same
  Handover-alive (inr p) = ap (count role_alive) p.passed ∙ pass_on-alive p.target rs

  pub Handover-ids : (id : ℕ) → Handover rs rs' → count (role_has id) rs' ≡ count (role_has id) rs
  Handover-ids id (inl same) = ap (count (role_has id)) same
  Handover-ids id (inr p) = ap (count (role_has id)) p.passed ∙ pass_on-ids p.target id rs
