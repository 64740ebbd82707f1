-- ===== src/Gateway/RateLimit.antt =====
-- server-game/src/gateway/rate-limit.ts. The source joins rule, scope and subject into one text; here
-- the three stay apart, which is the same for rules without a colon. A user is given as printed.
pub mod Laws
pub mod Sweeping
use sw_itch_remake.Base.{
  ℕ, suc, ◌+◌, ◌-◌, ◌*◌, ◌/◌, String, ◌≡◌, Bool, true, false, ◌&&◌, ◌||◌, not, Option, none, some,
  List, [], ◌∷◌, ◌++◌, ltb, leb, ◌==◌, if◌then◌else◌, length, filter, any, get_or, is_some,
  String_discrete, ℕ_discrete,
}
use sw_itch_remake.Base.Maps.{get, set}

pub record RateSubject : Type 0 where
  pub connection_id : ℕ
  pub ip : String
  pub user_id : Option String

pub record RateDecision : Type 0 where
  pub allowed : Bool
  pub persistent : Bool
  pub abusive : Bool

pub data RateScope : Type 0 where
  connection ip user : RateScope

pub data Subject : Type 0 where
  connection_subject : ℕ → Subject
  ip_subject : String → Subject
  user_subject : String → Subject

pub record Key : Type 0 where
  pub rule : String
  pub subject : Subject

pub Key-discrete : Discrete Key
Key-discrete = hlevel (ℕ_discrete, String_discrete)

pub record Bucket : Type 0 where
  pub window : ℕ
  pub expires_at : ℕ
  pub count : ℕ
  pub violated : Bool
  pub violation_streak : ℕ
  pub abusive : Bool
  pub abusive_streak : ℕ

pub record RateLimiter : Type 0 where
  pub buckets : List (Key × Bucket)
  pub cooldowns : List (Key × ℕ)
  pub next_sweep_at : ℕ

pub record Policy : Type 0 where
  pub scopes : List RateScope
  pub abusive_multiplier : ℕ
  pub abusive_windows : ℕ

-- What `check` uses where the caller gives no policy.
abbrev pub default_policy : Policy
default_policy = record {
  scopes = connection ∷ ip ∷ user ∷ [];
  abusive_multiplier = 5;
  abusive_windows = 5;
}

abbrev pub sweep_interval_ms : ℕ
sweep_interval_ms = 5_000

unfoldable pub new : RateLimiter
new = record { buckets = []; cooldowns = []; next_sweep_at = 0 }

unfoldable pub sweep : ℕ → RateLimiter → RateLimiter
sweep now s = if ltb now s.next_sweep_at then s else record s {
  next_sweep_at = now + sweep_interval_ms;
  buckets = filter (λ e. ltb now e.1.expires_at) s.buckets;
  cooldowns = filter (λ e. ltb now e.1) s.cooldowns;
}

abbrev pub is_connection : RateScope → Bool
is_connection connection = true
is_connection _ = false

abbrev pub is_ip : RateScope → Bool
is_ip ip = true
is_ip _ = false

abbrev pub is_user : RateScope → Bool
is_user user = true
is_user _ = false

abbrev pub user_keys : String → Option String → List Key
user_keys rule none = []
user_keys rule (some u) = record { rule = rule; subject = user_subject u } ∷ []

unfoldable pub subject_keys : String → RateSubject → List RateScope → List Key
subject_keys rule s scopes =
    (if any is_connection scopes
      then record { rule = rule; subject = connection_subject s.connection_id } ∷ []
      else [])
    ++ (if any is_ip scopes then record { rule = rule; subject = ip_subject s.ip } ∷ [] else [])
    ++ (if any is_user scopes then user_keys rule s.user_id else [])

-- `previous !== undefined && previous.violated && previous.window === window - 1`, with the sum on the
-- other side: window 0 has no window before it.
abbrev pub carries : Bool → Bucket → ℕ → Bool
carries mark previous window = mark && previous.window + 1 == window

abbrev pub fresh_bucket : ℕ → ℕ → ℕ → ℕ → Bucket
fresh_bucket window window_ms violations abuses = record {
  window = window;
  expires_at = (window + 2) * window_ms;
  count = 0;
  violated = false;
  violation_streak = violations;
  abusive = false;
  abusive_streak = abuses;
}

-- The bucket of this window: the one at hand, or a new one that carries the streaks on.
unfoldable pub bucket_for : ℕ → ℕ → Option Bucket → Bucket
bucket_for window window_ms none = fresh_bucket window window_ms 0 0
bucket_for window window_ms (some previous) =
    if previous.window == window
    then previous
    else fresh_bucket window window_ms
        (if carries previous.violated previous window then previous.violation_streak else 0)
        (if carries previous.abusive previous window then previous.abusive_streak else 0)

-- `bucket.count += 1` and the two tests after it, on the bucket.
abbrev pub counted : Bucket → Bucket
counted b = record b { count = b.count + 1 }

abbrev pub mark_violation : ℕ → Bucket → Bucket
mark_violation limit b =
    if ltb limit b.count && not b.violated
    then record b { violated = true; violation_streak = b.violation_streak + 1 }
    else b

abbrev pub mark_abuse : ℕ → Bucket → Bucket
mark_abuse threshold b =
    if ltb threshold b.count && not b.abusive
    then record b { abusive = true; abusive_streak = b.abusive_streak + 1 }
    else b

unfoldable pub hit : ℕ → Policy → Bucket → Bucket
hit limit policy b =
    mark_abuse (limit * policy.abusive_multiplier) (mark_violation limit (counted b))

-- What a bucket adds to the decision.
unfoldable pub judge : ℕ → Policy → Bucket → RateDecision → RateDecision
judge limit policy b d = record {
  allowed = d.allowed && not (ltb limit b.count);
  persistent = d.persistent || (ltb limit b.count && leb 3 b.violation_streak);
  abusive =
      d.abusive
      || (ltb (limit * policy.abusive_multiplier) b.count
          && leb policy.abusive_windows b.abusive_streak);
}

module _ (window window_ms limit : ℕ) (policy : Policy) where
  -- The loop of `check` over the keys.
  unfoldable pub check_keys :
      List Key → List (Key × Bucket) → RateDecision → List (Key × Bucket) × RateDecision
  unfolding bucket_for hit judge
  check_keys [] m d = (m, d)
  check_keys (k ∷ ks) m d =
      let b = hit limit policy (bucket_for window window_ms (get Key-discrete k m)) in
      check_keys ks (set Key-discrete k b m) (judge limit policy b d)

abbrev pub clear : RateDecision
clear = record { allowed = true; persistent = false; abusive = false }

unfoldable pub check :
    ℕ → String → RateSubject → ℕ → ℕ → Policy → RateLimiter → RateLimiter × RateDecision
unfolding check_keys sweep subject_keys
check now rule subject limit window_ms policy s =
    let swept = sweep now s in
    let (m, d) =
      check_keys (now / window_ms) window_ms limit policy (subject_keys rule subject policy.scopes)
        swept.buckets clear in
    (record swept { buckets = m }, d)

-- The two loops of `cooldown`.
unfoldable pub is_cooling : ℕ → List Key → List (Key × ℕ) → Bool
is_cooling now [] m = false
is_cooling now (k ∷ ks) m = ltb now (get_or (get Key-discrete k m) 0) || is_cooling now ks m

unfoldable pub start_cooling : ℕ → List Key → List (Key × ℕ) → List (Key × ℕ)
start_cooling until [] m = m
start_cooling until (k ∷ ks) m = start_cooling until ks (set Key-discrete k until m)

unfoldable pub cooldown :
    ℕ → String → RateSubject → ℕ → List RateScope → RateLimiter → RateLimiter × RateDecision
unfolding is_cooling start_cooling sweep subject_keys
cooldown now rule subject cooldown_ms scopes s =
    let swept = sweep now s in
    let keys = subject_keys rule subject scopes in
    if is_cooling now keys swept.cooldowns then (swept, record clear { allowed = false }) else (
      record swept { cooldowns = start_cooling (now + cooldown_ms) keys swept.cooldowns },
      clear,
    )

unfoldable pub size : RateLimiter → ℕ
size s = length s.buckets + length s.cooldowns
