-- ===== src/Gateway/RateLimit/Sweeping.antt =====
-- rate-limit.ts after any calls: reclaiming dead buckets and cooldowns is not observable.
use sw_itch_remake.Base.{ℕ, ◌+◌, ◌*◌, ◌/◌, String, ◌≡◌, List, [], ◌∷◌, All}
use sw_itch_remake.Base.Maps.{get, Unique}
use sw_itch_remake.Gateway.RateLimit.{
  Bucket, Key, Key-discrete, Policy, RateLimiter, RateSubject, RateScope, bucket_for, check,
  cooldown,
}

-- The calls of a limiter, each with its time.
pub data Call : Type 0 where
  checks : ℕ → String → RateSubject → ℕ → Policy → Call
  cools : ℕ → String → RateSubject → ℕ → List RateScope → Call

-- Each rule has one window size, as it has where `check` is called.
module _ (window_of : String → ℕ) where
  unfoldable pub step : RateLimiter → Call → RateLimiter
  step s (checks now rule subject limit policy) =
      (check now rule subject limit (window_of rule) policy s).0
  step s (cools now rule subject ms scopes) = (cooldown now rule subject ms scopes s).0

  unfoldable pub run : RateLimiter → List Call → RateLimiter
  run s [] = s
  run s (c ∷ cs) = run (step s c) cs

  -- A bucket expires when the window after the next one of its rule begins.
  abbrev IsTimed : Key × Bucket → Type 0
  IsTimed e = e.1.expires_at ≡ (e.1.window + 2) * window_of e.0.rule

  record Inv (s : RateLimiter) : Type 0 where
    unique_buckets : Unique Key-discrete s.buckets
    timed : All IsTimed s.buckets
    unique_cooldowns : Unique Key-discrete s.cooldowns

  -- Whether a key is of the rule.
  abbrev IsOf : String → Key → Type 0
  IsOf rule k = k.rule ≡ rule

  -- What a key's next call starts from.
  abbrev Alike : ℕ → String → List (Key × Bucket) → List (Key × Bucket) → Key → Type 0
  Alike now rule m m' k =
      bucket_for (now / window_of rule) (window_of rule) (get Key-discrete k m)
      ≡ bucket_for (now / window_of rule) (window_of rule) (get Key-discrete k m')
