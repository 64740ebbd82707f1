-- ===== src/Base/Maps.antt =====
-- A JavaScript `Map` as a list of entries in insertion order: `set` on a present key keeps its
-- place, on a new one it appends.
use Prim.Native.Nat.{ℕ, ◌+◌, ◌≤◌}
use mathlib.Core.Path.{◌≡◌, refl, subst}
use mathlib.Core.Logic.{◌≢◌, ite}
use mathlib.Core.Bool.{Bool, true, false}
use mathlib.Core.List.{List, [], ◌∷◌}
use mathlib.Core.Option.{Option, none, some}
use native.Mathlib.Omega.{arith}
use sw_itch_remake.Base.Tests.{if◌then◌else◌}
use sw_itch_remake.Base.Lists.{count, filter, All}

module _ {ℓ} {K V : Type ℓ} (d : Discrete K) where
  unfoldable pub get : K → List (K × V) → Option V
  get k [] = none
  get k ((j, w) ∷ m) = ite (d j k) (some w) (get k m)

  unfoldable pub set : K → V → List (K × V) → List (K × V)
  set k v [] = (k, v) ∷ []
  set k v ((j, w) ∷ m) = ite (d j k) ((k, v) ∷ m) ((j, w) ∷ set k v m)

  unfoldable pub delete : K → List (K × V) → List (K × V)
  delete k [] = []
  delete k ((j, w) ∷ m) = ite (d j k) (delete k m) ((j, w) ∷ delete k m)

  pub get-set :
      (j k : K) (v : V) (m : List (K × V)) → get j (set k v m) ≡ ite (d k j) (some v) (get j m)
  unfolding get set
  get-set j k v [] = refl
  get-set j k v ((i, w) ∷ m) = ground (arith, get-set j k v m)

  pub get-delete : (j k : K) (m : List (K × V)) → get j (delete k m) ≡ ite (d k j) none (get j m)
  unfolding get delete
  get-delete j k [] = ground arith
  get-delete j k ((i, w) ∷ m) = ground (arith, get-delete j k m)

  -- No key has two entries.
  abbrev pub Unique : List (K × V) → Type ℓ
  Unique [] = Unit
  Unique ((k, v) ∷ m) = (get k m ≡ none) × Unique m

  pub set-Unique : (k : K) (v : V) (m : List (K × V)) → Unique m → Unique (set k v m)
  unfolding set get
  set-Unique k v [] u = (refl, tt)
  set-Unique k v ((j, w) ∷ m) u = ground (arith, set-Unique k v m u.1, get-set j k v m)

  pub delete-Unique : (k : K) (m : List (K × V)) → Unique m → Unique (delete k m)
  unfolding delete
  delete-Unique k [] u = tt
  delete-Unique k ((j, w) ∷ m) u = ground (arith, delete-Unique k m u.1, get-delete j k m)

  -- Whether the entry of `k`, if there is one, passes the test.
  abbrev pub counted : (K × V → Bool) → K → Option V → ℕ
  counted p k none = 0
  counted p k (some v) = if p (k, v) then 1 else 0

  pub count-set :
      (p : K × V → Bool) (k : K) (v : V) (m : List (K × V))
      → count p (set k v m) + counted p k (get k m) ≡ count p m + (if p (k, v) then 1 else 0)
  unfolding set get
  count-set p k v [] = ground arith
  count-set p k v ((j, w) ∷ m) = ground (arith, count-set p k v m)

  pub delete_absent : (k : K) (m : List (K × V)) → get k m ≡ none → delete k m ≡ m
  unfolding get delete
  delete_absent k [] h = refl
  delete_absent k ((j, w) ∷ m) h = ground (arith, delete_absent k m)

  pub count-delete :
      (p : K × V → Bool) (k : K) (m : List (K × V))
      → Unique m
      → count p (delete k m) + counted p k (get k m) ≡ count p m
  unfolding delete get
  count-delete p k [] u = ground arith
  count-delete p k ((j, w) ∷ m) u = ground (arith, count-delete p k m u.1, delete_absent k m)

  -- A filter that keeps the entry keeps what the key finds.
  pub get-filter_kept :
      (p : K × V → Bool) (k : K) (v : V) (m : List (K × V))
      → get k m ≡ some v
      → p (k, v) ≡ true
      → get k (filter p m) ≡ some v
  unfolding get
  get-filter_kept p k v [] e h = cc
  get-filter_kept p k v ((j, w) ∷ m) e h = ground (arith, get-filter_kept p k v m)

  pub get-filter_absent :
      (p : K × V → Bool) (k : K) (m : List (K × V)) → get k m ≡ none → get k (filter p m) ≡ none
  unfolding get
  get-filter_absent p k [] e = refl
  get-filter_absent p k ((j, w) ∷ m) e = ground (arith, get-filter_absent p k m)

  -- With unique keys what is found in a filtered map is in the map, and passes.
  pub get-filter_found :
      (p : K × V → Bool) (k : K) (v : V) (m : List (K × V))
      → Unique m
      → get k (filter p m) ≡ some v
      → (get k m ≡ some v) × (p (k, v) ≡ true)
  unfolding get
  get-filter_found p k v [] u e = cc
  get-filter_found p k v ((j, w) ∷ m) u e =
      ground (arith, get-filter_found p k v m u.1, get-filter_absent p k m)

  pub filter-Unique : (p : K × V → Bool) (m : List (K × V)) → Unique m → Unique (filter p m)
  filter-Unique p [] u = tt
  filter-Unique p ((k, v) ∷ m) u =
      ground (arith, filter-Unique p m u.1, get-filter_absent p k m u.0)

  pub get-filter_dropped :
      (p : K × V → Bool) (k : K) (v : V) (m : List (K × V))
      → Unique m
      → get k m ≡ some v
      → p (k, v) ≡ false
      → get k (filter p m) ≡ none
  unfolding get
  get-filter_dropped p k v [] u e h = refl
  get-filter_dropped p k v ((j, w) ∷ m) u e h =
      ground (arith, get-filter_dropped p k v m u.1, get-filter_absent p k m)

  module _ {κ} (P : K × V → Type κ) where
    pub All-set : (k : K) (v : V) (m : List (K × V)) → P (k, v) → All P m → All P (set k v m)
    unfolding set
    All-set k v [] p h = (p, tt)
    All-set k v ((j, w) ∷ m) p h =
        elim (d j k) as (λ c. All P (ite c ((k, v) ∷ m) ((j, w) ∷ set k v m))) [
          | yes e ↦ (p, h.1)
          | no e ↦ (h.0, All-set k v m p h.1)
        ]

    pub All-delete : (k : K) (m : List (K × V)) → All P m → All P (delete k m)
    unfolding delete
    All-delete k [] h = tt
    All-delete k ((j, w) ∷ m) h =
        elim (d j k) as (λ c. All P (ite c (delete k m) ((j, w) ∷ delete k m))) [
          | yes e ↦ All-delete k m h.1
          | no e ↦ (h.0, All-delete k m h.1)
        ]

    pub All-get : (k : K) (v : V) (m : List (K × V)) → All P m → get k m ≡ some v → P (k, v)
    unfolding get
    All-get k v [] h e = cc
    All-get k v ((j, w) ∷ m) h e = elim (d j k) [
      | yes p ↦ let same : w ≡ v = ground arith in subst P (λ i. (p i, same i)) h.0
      | no p ↦ All-get k v m h.1 (ground arith)
    ]

  pub count_one :
      (p : K × V → Bool) (k : K) (v : V) (m : List (K × V))
      → get k m ≡ some v
      → p (k, v) ≡ true
      → 1 ≤ count p m
  unfolding get
  count_one p k v [] g t = cc
  count_one p k v ((j, w) ∷ m) g t = ground (arith, count_one p k v m)

  -- Two keys whose entries pass are counted twice.
  pub count_two :
      (p : K × V → Bool) (j k : K) (v w : V) (m : List (K × V))
      → Unique m
      → get j m ≡ some v
      → get k m ≡ some w
      → p (j, v) ≡ true
      → p (k, w) ≡ true
      → j ≢ k
      → 2 ≤ count p m
  count_two p j k v w m u g h s t ne =
      ground (arith, count-delete p j m u, count_one p k w (delete j m), get-delete k j m)
