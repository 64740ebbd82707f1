-- ===== src/Edge/IpRateLimit/Laws.antt =====
-- The addresses on record (ip-rate-limit.ts) are bounded.
use sw_itch_remake.Base.{
  ℕ, ◌+◌, ◌/◌, ◌≤◌, ◌≡◌, refl, ◌∙◌, String, Bool, true, false, Option, none, some, List, [], ◌∷◌,
  arith, if_both, leb, length, length-filter, length-count, count-le, String_discrete,
}
use sw_itch_remake.Base.Maps.{get, set, count-set}
use sw_itch_remake.Edge.IpRateLimit.{
  Bucket, IpRateLimiter, new, is_current, is_same_window, drop_old, allow_found, allow, history,
}

length-set :
    (k : String) (b : Bucket) (m : List (String × Bucket))
    → length (set String_discrete k b m) ≤ length m + 1
length-set k b m = ground (
  arith,
  length-count (set String_discrete k b m),
  length-count m,
  count-set String_discrete (λ _. true) k b m,
)

-- A known address takes no more room.
length-set_found :
    (k : String) (b c : Bucket) (m : List (String × Bucket))
    → get String_discrete k m ≡ some c
    → length (set String_discrete k b m) ≡ length m
length-set_found k b c m e = ground (
  arith,
  length-count (set String_discrete k b m),
  length-count m,
  count-set String_discrete (λ _. true) k b m,
)

abbrev IsBounded : IpRateLimiter → Type 0
IsBounded s = length s.buckets ≤ s.max_subjects

drop_old-IsBounded : (window : ℕ) (s : IpRateLimiter) → IsBounded s → IsBounded (drop_old window s)
unfolding drop_old
drop_old-IsBounded window s h =
    if_both IsBounded (is_same_window s.last_window window) s _ (λ e. h)
      (λ e. omega (
        arith,
        h,
        length-filter (is_current window) s.buckets,
        count-le (is_current window) s.buckets,
      ))

allow_found-IsBounded :
    (o : Option Bucket) (window : ℕ) (ip : String) (limit : ℕ) (s : IpRateLimiter)
    → get String_discrete ip s.buckets ≡ o
    → IsBounded s
    → IsBounded (allow_found o window ip limit s).0
unfolding allow_found
allow_found-IsBounded none window ip limit s e h =
    if_both (λ (r : IpRateLimiter × Bool). IsBounded r.0) (leb s.max_subjects (length s.buckets))
      (s, false) _ (λ full. h)
      (λ room. ground (arith, length-set ip (record { window = window; count = 0 + 1 }) s.buckets))
allow_found-IsBounded (some b) window ip limit s e h =
    omega (arith, h, length-set_found ip (record b { count = b.count + 1 }) b s.buckets e)

allow_found-max :
    (o : Option Bucket) (window : ℕ) (ip : String) (limit : ℕ) (s : IpRateLimiter)
    → (allow_found o window ip limit s).0.max_subjects ≡ s.max_subjects
unfolding allow_found
allow_found-max none window ip limit s = ground arith
allow_found-max (some b) window ip limit s = refl

drop_old-max : (window : ℕ) (s : IpRateLimiter) → (drop_old window s).max_subjects ≡ s.max_subjects
unfolding drop_old
drop_old-max window s = ground arith

history-IsBounded :
    (n : ℕ) (rs : List (ℕ × String × ℕ × ℕ))
    → IsBounded (history n rs) × ((history n rs).max_subjects ≡ n)
unfolding history new allow
history-IsBounded n [] = (omega arith, refl)
history-IsBounded n ((now, ip, limit, window_ms) ∷ earlier) =
    let h = history-IsBounded n earlier in
    let swept = drop_old (now / window_ms) (history n earlier) in
    (
      allow_found-IsBounded (get String_discrete ip swept.buckets) (now / window_ms) ip limit swept
          refl (drop_old-IsBounded (now / window_ms) (history n earlier) h.0),
      allow_found-max (get String_discrete ip swept.buckets) (now / window_ms) ip limit swept
          ∙ drop_old-max (now / window_ms) (history n earlier)
          ∙ h.1,
    )

-- After any requests, whatever their addresses, times and limits, at most as many addresses are on record as
-- the limiter was made for.
pub history-bounded : (n : ℕ) (rs : List (ℕ × String × ℕ × ℕ)) → length (history n rs).buckets ≤ n
history-bounded n rs = omega (arith, history-IsBounded n rs)
