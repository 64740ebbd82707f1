-- ===== src/Accounts/VerificationCode.antt =====
-- server-match/src/auth/verification-code.ts, with the commands of redis/redis.service.ts that it uses: the keys of one
-- purpose and one address. A key is a value with the time at which it expires, in milliseconds. A guess is taken apart
-- into its Redis calls, between which those of other guesses may come; a code is issued in one step.
pub mod Laws
use sw_itch_remake.Base.{
  ℕ, zero, suc, List, [], ◌∷◌, ◌+◌, ◌-◌, ◌*◌, String, Bool, true, false, ◌||◌, not, Option, none,
  some, leb, ltb, if◌then◌else◌, is_some, ite, String_discrete,
}

pub record Entry (A : Type 0) : Type 0 where
  pub value : A
  pub expires_at : ℕ

-- `GET`, at a time.
unfoldable pub get : {A : Type 0} → ℕ → Option (Entry A) → Option A
get now none = none
get now (some e) = if leb e.expires_at now then none else some e.value

-- `SET … EX`.
abbrev pub kept_for : {A : Type 0} → ℕ → ℕ → A → Option (Entry A)
kept_for now ttl_seconds value =
    some (record { value = value; expires_at = now + ttl_seconds * 1000 })

abbrev pub incremented : ℕ → ℕ → Option (Entry ℕ) → Option ℕ → Option (Entry ℕ) × ℕ
incremented now ttl_seconds none _ = (kept_for now ttl_seconds 1, 1)
incremented now ttl_seconds (some e) none = (kept_for now ttl_seconds 1, 1)
incremented now ttl_seconds (some e) (some n) = (some (record e { value = n + 1 }), n + 1)

-- `incrementWithTtl`.
unfoldable pub increment_with_ttl : ℕ → ℕ → Option (Entry ℕ) → Option (Entry ℕ) × ℕ
unfolding get
increment_with_ttl now ttl_seconds e = incremented now ttl_seconds e (get now e)

pub record CodeKeys : Type 0 where
  pub code : Option (Entry String)
  pub attempts : Option (Entry ℕ)
  pub cooldown : Option (Entry Unit)
  pub minute : Option (Entry ℕ)
  pub hour : Option (Entry ℕ)
  pub claim : Option (Entry String)

pub record VerificationCodeClaim : Type 0 where
  pub code : String
  pub claim_id : String
  pub remaining_ttl_ms : ℕ

abbrev pub verification_code_ttl_seconds : ℕ
verification_code_ttl_seconds = 300

abbrev pub max_attempts : ℕ
max_attempts = 5

abbrev pub matches : String → String → Bool
matches saved supplied = ite (String_discrete saved supplied) true false

abbrev pub counted : ℕ → CodeKeys → CodeKeys
counted now s = record s {
  cooldown = kept_for now 60 tt;
  minute = (increment_with_ttl now 60 s.minute).0;
  hour = (increment_with_ttl now 3600 s.hour).0;
}

abbrev pub is_over_limit : ℕ → CodeKeys → Bool
is_over_limit now s =
    ltb 3 (increment_with_ttl now 60 s.minute).1 || ltb 10 (increment_with_ttl now 3600 s.hour).1

abbrev pub with_code : ℕ → String → CodeKeys → CodeKeys
with_code now code s = record s {
  code = kept_for now verification_code_ttl_seconds code;
  attempts = none;
}

-- `issueVerificationCode`; the code is the number that was drawn.
unfoldable pub issue : ℕ → String → CodeKeys → CodeKeys × Option String
unfolding get increment_with_ttl
issue now drawn s =
    if is_some (get now s.code)
    then (s, none)
    else if is_some (get now s.cooldown)
    then (s, none)
    else if is_over_limit now s
    then (counted now s, none)
    else (with_code now drawn (counted now s), some drawn)

abbrev pub ttl_of : ℕ → Option (Entry String) → ℕ
ttl_of now none = 0
ttl_of now (some e) = e.expires_at - now

abbrev pub is_held : String → Option String → Bool
is_held value none = false
is_held value (some held) = ite (String_discrete held value) true false

-- `compareAndClaim`: the code on record may be another one than the guess has read.
unfoldable pub compare_and_claim :
    ℕ → String → String → CodeKeys → CodeKeys × Option VerificationCodeClaim
unfolding get
compare_and_claim now saved claim_id s =
    if is_some (get now s.claim)
    then (s, none)
    else if not (is_held saved (get now s.code))
    then (s, none)
    else (
      record s { code = none; claim = kept_for now 30 claim_id },
      some (record { code = saved; claim_id = claim_id; remaining_ttl_ms = ttl_of now s.code }),
    )

-- How far a guess has come in `claimVerificationCode`: it has read the code, or counted a failure, or its answer is
-- there.
pub data Progress : Type 0 where
  begins : Progress
  has_read : Option String → Progress
  has_failed : ℕ → Progress
  answered : Option VerificationCodeClaim → Progress

abbrev pub claimed : CodeKeys × Option VerificationCodeClaim → CodeKeys × Progress
claimed (s, answer) = (s, answered answer)

abbrev pub counted_failure : ℕ → CodeKeys → CodeKeys × Progress
counted_failure now s =
    let attempts = increment_with_ttl now verification_code_ttl_seconds s.attempts in
    (record s { attempts = attempts.0 }, has_failed attempts.1)

-- The next Redis call of a guess, at a time.
unfoldable pub guess_step : ℕ → String → String → Progress → CodeKeys → CodeKeys × Progress
unfolding get increment_with_ttl compare_and_claim
guess_step now supplied claim_id begins s = (s, has_read (get now s.code))
guess_step now supplied claim_id (has_read none) s = (s, answered none)
guess_step now supplied claim_id (has_read (some saved)) s =
    if matches saved supplied
    then claimed (compare_and_claim now saved claim_id s)
    else counted_failure now s
guess_step now supplied claim_id (has_failed attempts) s =
    (if leb max_attempts attempts then record s { code = none } else s, answered none)
guess_step now supplied claim_id (answered answer) s = (s, answered answer)

-- `commitVerificationCodeClaim`.
unfoldable pub commit : ℕ → VerificationCodeClaim → CodeKeys → CodeKeys
unfolding get
commit now c s = record s {
  claim = if is_held c.claim_id (get now s.claim) then none else s.claim;
  attempts = none;
}

abbrev pub at_least_one : ℕ → ℕ
at_least_one n = if leb 1 n then n else 1

-- `releaseVerificationCodeClaim`.
unfoldable pub release : ℕ → VerificationCodeClaim → CodeKeys → CodeKeys
unfolding get
release now c s =
    if is_held c.claim_id (get now s.claim)
    then record s {
      claim = none;
      code = some (record { value = c.code; expires_at = now + at_least_one c.remaining_ttl_ms });
    }
    else s

pub record Guess : Type 0 where
  pub supplied : String
  pub claim_id : String
  pub progress : Progress

-- The guess of that number makes its next call.
unfoldable pub proceed : ℕ → ℕ → CodeKeys → List Guess → CodeKeys × List Guess
unfolding guess_step
proceed now i s [] = (s, [])
proceed now zero s (g ∷ gs) =
    let x = guess_step now g.supplied g.claim_id g.progress s in
    (x.0, record g { progress = x.1 } ∷ gs)
proceed now (suc i) s (g ∷ gs) = let x = proceed now i s gs in (x.0, g ∷ x.1)

-- What is called next: for a guess, or the end of what a claim was for.
pub data Event : Type 0 where
  proceeds : ℕ → Event
  commits : VerificationCodeClaim → Event

unfoldable pub happen : ℕ × Event → CodeKeys × List Guess → CodeKeys × List Guess
unfolding proceed commit
happen (now, proceeds i) (s, gs) = proceed now i s gs
happen (now, commits c) (s, gs) = (commit now c s, gs)

unfoldable pub run : List (ℕ × Event) → CodeKeys × List Guess → CodeKeys × List Guess
unfolding happen
run [] x = x
run (e ∷ es) x = run es (happen e x)
