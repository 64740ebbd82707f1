-- ===== src/Edge/IpRateLimit.antt =====
-- server-gateway/src/ip-rate-limit.ts: the limit on replay requests of an address, in bounded memory.
pub mod Laws
use sw_itch_remake.Base.{
  ℕ, suc, ◌+◌, ◌/◌, ◌≤◌, ◌<◌, ◌≡◌, refl, ◌∙◌, inl, inr, String, Bool, true, false, ◌&&◌, Option,
  none, some, List, [], ◌∷◌, arith, if◌then◌else◌, if_both, ltb, leb, ◌==◌, filter, length,
  length-filter, length-count, count, count-le, String_discrete, Option-cases, Bool-cases,
}
use sw_itch_remake.Base.Maps.{get, set}

pub record Bucket : Type 0 where
  pub window : ℕ
  pub count : ℕ

-- No last window is -1 in the source.
pub record IpRateLimiter : Type 0 where
  pub buckets : List (String × Bucket)
  pub max_subjects : ℕ
  pub last_window : Option ℕ

unfoldable pub new : ℕ → IpRateLimiter
new max_subjects = record { buckets = []; max_subjects = max_subjects; last_window = none }

abbrev pub is_current : ℕ → String × Bucket → Bool
is_current window (ip, b) = b.window == window

abbrev pub is_same_window : Option ℕ → ℕ → Bool
is_same_window none window = false
is_same_window (some last) window = last == window

unfoldable pub drop_old : ℕ → IpRateLimiter → IpRateLimiter
drop_old window s =
    if is_same_window s.last_window window
    then s
    else record s { buckets = filter (is_current window) s.buckets; last_window = some window }

abbrev pub count_in : String → Bucket → ℕ → IpRateLimiter → IpRateLimiter × Bool
count_in ip b limit s = (
  record s { buckets = set String_discrete ip (record b { count = b.count + 1 }) s.buckets },
  leb (b.count + 1) limit,
)

unfoldable pub allow_found : Option Bucket → ℕ → String → ℕ → IpRateLimiter → IpRateLimiter × Bool
allow_found none window ip limit s =
    if leb s.max_subjects (length s.buckets)
    then (s, false)
    else count_in ip (record { window = window; count = 0 }) limit s
allow_found (some b) window ip limit s = count_in ip b limit s

unfoldable pub allow : ℕ → String → ℕ → ℕ → IpRateLimiter → IpRateLimiter × Bool
unfolding drop_old allow_found
allow now ip limit window_ms s =
    let swept = drop_old (now / window_ms) s in
    allow_found (get String_discrete ip swept.buckets) (now / window_ms) ip limit swept

-- Requests, latest first: the time, the address, the limit and the length of the window.
unfoldable pub history : ℕ → List (ℕ × String × ℕ × ℕ) → IpRateLimiter
unfolding allow
history max_subjects [] = new max_subjects
history max_subjects ((now, ip, limit, window_ms) ∷ earlier) =
    (allow now ip limit window_ms (history max_subjects earlier)).0
