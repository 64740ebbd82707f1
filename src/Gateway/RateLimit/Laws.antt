-- ===== src/Gateway/RateLimit/Laws.antt =====
-- rate-limit.ts: what a window lets through, and for how long a cooldown refuses.
use sw_itch_remake.Base.{
  ℕ, ◌+◌, ◌<◌, String, ◌≡◌, refl, sym, ◌≢◌, ◌⊎◌, ite, Bool, true, false, ◌&&◌, Option, none, some,
  List, [], ◌∷◌, arith, ltb, ◌==◌, if◌then◌else◌, All, all,
}
use sw_itch_remake.Base.Maps.{get, set, get-set, get-filter_kept}
use sw_itch_remake.Gateway.RateLimit.{
  RateDecision, Bucket, Key, Key-discrete, Policy, RateLimiter, RateSubject, RateScope, bucket_for,
  hit, judge, check_keys, sweep, subject_keys, is_cooling, start_cooling, cooldown,
}

-- How many calls of the key this window has seen.
abbrev pub seen : ℕ → Option Bucket → ℕ
seen window none = 0
seen window (some b) = if b.window == window then b.count else 0

abbrev pub is_among : Key → List Key → Bool
is_among j [] = false
is_among j (k ∷ ks) = ite (Key-discrete k j) true (is_among j ks)

is_among-distinct : (k : Key) (ks : List Key) → All (λ j. k ≢ j) ks → is_among k ks ≡ false
is_among-distinct k [] h = refl
is_among-distinct k (j ∷ ks) h =
    elim (Key-discrete j k) as (λ d. ite d true (is_among k ks) ≡ false) [
      | yes e ↦ absurd (h.0 (sym e))
      | no e ↦ is_among-distinct k ks h.1
    ]

module _ (window window_ms limit : ℕ) (policy : Policy) where
  hit-seen :
      (o : Option Bucket)
      → let b = hit limit policy (bucket_for window window_ms o) in
        (b.window ≡ window) × (b.count ≡ seen window o + 1)
  unfolding hit bucket_for
  hit-seen none = ground arith
  hit-seen (some b) = ground arith

  -- Whether the key has room for one more call.
  abbrev pub has_room : List (Key × Bucket) → Key → Bool
  has_room m k = ltb (seen window (get Key-discrete k m)) limit

  -- The keys are distinct, as those of one subject are.
  abbrev pub Distinct : List Key → Type 0
  Distinct [] = Unit
  Distinct (k ∷ ks) = All (λ j. k ≢ j) ks × Distinct ks

  has_room-set :
      (k : Key) (b : Bucket) (ks : List Key) (m : List (Key × Bucket))
      → All (λ j. k ≢ j) ks
      → all (has_room (set Key-discrete k b m)) ks ≡ all (has_room m) ks
  has_room-set k b [] m h = refl
  has_room-set k b (j ∷ ks) m h =
      ground (arith, get-set Key-discrete j k b m, has_room-set k b ks m h.1)

  -- The loop lets a call through exactly when every one of its keys has room in this window.
  pub check_keys-allowed :
      (ks : List Key) (m : List (Key × Bucket)) (d : RateDecision)
      → Distinct ks
      → (check_keys window window_ms limit policy ks m d).1.allowed
        ≡ (d.allowed && all (has_room m) ks)
  unfolding check_keys judge
  check_keys-allowed [] m d h = ground arith
  check_keys-allowed (k ∷ ks) m d h =
      let b = hit limit policy (bucket_for window window_ms (get Key-discrete k m)) in
      ground (
        arith,
        check_keys-allowed ks (set Key-discrete k b m) (judge limit policy b d) h.1,
        has_room-set k b ks m h.0,
        hit-seen (get Key-discrete k m),
      )

  -- Each of the call's keys has one more call on record in this window, refused calls included, and
  -- every other key as many as before.
  pub check_keys-seen :
      (j : Key) (ks : List Key) (m : List (Key × Bucket)) (d : RateDecision)
      → Distinct ks
      → seen window (get Key-discrete j (check_keys window window_ms limit policy ks m d).0)
        ≡ seen window (get Key-discrete j m) + (if is_among j ks then 1 else 0)
  unfolding check_keys
  check_keys-seen j [] m d h = ground arith
  check_keys-seen j (k ∷ ks) m d h =
      let b = hit limit policy (bucket_for window window_ms (get Key-discrete k m)) in
      ground (
        arith,
        check_keys-seen j ks (set Key-discrete k b m) (judge limit policy b d) h.1,
        get-set Key-discrete j k b m,
        is_among-distinct k ks h.0,
        hit-seen (get Key-discrete k m),
      )

start_cooling-get :
    (until : ℕ) (j : Key) (ks : List Key) (m : List (Key × ℕ))
    → (get Key-discrete j m ≡ some until) ⊎ (is_among j ks ≡ true)
    → get Key-discrete j (start_cooling until ks m) ≡ some until
unfolding start_cooling
start_cooling-get until j [] m h = ground arith
start_cooling-get until j (k ∷ ks) m h =
    start_cooling-get until j ks (set Key-discrete k until m)
      (ground (arith, get-set Key-discrete j k until m))

is_cooling-found :
    (now until : ℕ) (j : Key) (ks : List Key) (m : List (Key × ℕ))
    → get Key-discrete j m ≡ some until
    → now < until
    → is_among j ks ≡ true
    → is_cooling now ks m ≡ true
unfolding is_cooling
is_cooling-found now until j [] m g h a = cc
is_cooling-found now until j (k ∷ ks) m g h a = ground (arith, is_cooling-found now until j ks m)

sweep-cooling :
    (now : ℕ) (k : Key) (until : ℕ) (s : RateLimiter)
    → get Key-discrete k s.cooldowns ≡ some until
    → now < until
    → get Key-discrete k (sweep now s).cooldowns ≡ some until
unfolding sweep
sweep-cooling now k until s g h =
    ground (arith, get-filter_kept Key-discrete (λ e. ltb now e.1) k until s.cooldowns)

-- After a use that was let through, the same rule refuses every later use that shares a key with it
-- until the cooldown has passed, whatever its own cooldown and scopes.
pub cooldown_refuses :
    (now later ms ms' : ℕ) (rule rule' : String) (subject subject' : RateSubject)
    (scopes scopes' : List RateScope) (s : RateLimiter) (k : Key)
    → (cooldown now rule subject ms scopes s).1.allowed ≡ true
    → is_among k (subject_keys rule subject scopes) ≡ true
    → is_among k (subject_keys rule' subject' scopes') ≡ true
    → later < now + ms
    → (cooldown later rule' subject' ms' scopes'
        (cooldown now rule subject ms scopes s).0).1.allowed
      ≡ false
unfolding cooldown
cooldown_refuses now later ms ms' rule rule' subject subject' scopes scopes' s k ok a a' h =
    ground (
      arith,
      start_cooling-get (now + ms) k (subject_keys rule subject scopes) (sweep now s).cooldowns,
      sweep-cooling later k (now + ms) (cooldown now rule subject ms scopes s).0,
      is_cooling-found later (now + ms) k (subject_keys rule' subject' scopes')
          (sweep later (cooldown now rule subject ms scopes s).0).cooldowns,
    )
