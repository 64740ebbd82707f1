-- ===== src/Simulation/Costs/Searches.antt =====
-- A search in a list of players of which one has changed (world.ts), seen through what the change keeps.
use sw_itch_remake.Base.{
  ◌≡◌, refl, ap, inl, inr, Bool, Option, none, some, List, [], ◌∷◌, arith, find, update_first,
  Bool-cases,
}

abbrev pub seen_by : {A B : Type 0} → (A → B) → Option A → Option B
seen_by g none = none
seen_by g (some a) = some (g a)

pub seen_some :
    {A B : Type 0} (g : A → B) (o : Option A) (b : B)
    → seen_by g o ≡ some b
    → (a : A) × (o ≡ some a) × (g a ≡ b)
seen_some g none b e = cc
seen_some g (some a) b e = (a, refl, ground arith)

module _ {A : Type 0} (p : A → Bool) (g : A → A) where
  pub find-update_first :
      (xs : List A)
      → ((a : A) → p (g a) ≡ p a)
      → find p (update_first p g xs) ≡ seen_by g (find p xs)
  unfolding update_first
  find-update_first [] k = refl
  find-update_first (x ∷ xs) k = elim (Bool-cases (p x)) [
    | inl t ↦ rw (t, k x, t) refl
    | inr t ↦ rw (t, t) (find-update_first xs k)
  ]

module _ {A B : Type 0} (p : A → Bool) (g : A → A) where
  pub find-update_first_kept :
      (q : A → Bool) (v : A → B) (xs : List A)
      → ((a : A) → p (g a) ≡ p a)
      → ((a : A) → v (g a) ≡ v a)
      → seen_by v (find p (update_first q g xs)) ≡ seen_by v (find p xs)
  unfolding update_first
  find-update_first_kept q v [] k l = refl
  find-update_first_kept q v (x ∷ xs) k l = elim (Bool-cases (q x)) [
    | inl t ↦
        rw (t, k x) (elim (Bool-cases (p x)) [ inl h ↦ rw h (ap some (l x)) | inr h ↦ rw h refl ])
    | inr t ↦ rw t (elim (Bool-cases (p x)) [
      | inl h ↦ rw h refl
      | inr h ↦ rw h (find-update_first_kept q v xs k l)
    ])
  ]
