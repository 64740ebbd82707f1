-- ===== src/Accounts/Tests.antt =====
-- Guesses at a code (server-match/src/auth/verification-code.ts).
use sw_itch_remake.Base.{ℕ, ◌≡◌, refl, none, List, [], ◌∷◌, String, String_discrete}
use sw_itch_remake.Accounts.VerificationCode.{
  CodeKeys, get, increment_with_ttl, issue, begins, Guess, Event, proceeds, run, happen, proceed,
  guess_step, compare_and_claim,
}
use sw_itch_remake.Accounts.VerificationCode.Laws.{winners}

abbrev mailed : String
mailed = "482910"

abbrev nothing_yet : CodeKeys
nothing_yet = record {
  code = none;
  attempts = none;
  cooldown = none;
  minute = none;
  hour = none;
  claim = none;
}

abbrev mailed_keys : CodeKeys
mailed_keys = (issue 500 mailed nothing_yet).0

-- Two people know the code, and one does not. All three read it before anything is claimed.
abbrev guesses : List Guess
guesses =
    record { supplied = mailed; claim_id = "a"; progress = begins }
    ∷ record { supplied = mailed; claim_id = "b"; progress = begins }
    ∷ record { supplied = "123456"; claim_id = "c"; progress = begins }
    ∷ []

abbrev overlap : List (ℕ × Event)
overlap =
    (1000, proceeds 0)
    ∷ (1001, proceeds 1)
    ∷ (1002, proceeds 2)
    ∷ (1003, proceeds 1)
    ∷ (1004, proceeds 0)
    ∷ (1005, proceeds 2)
    ∷ []

-- The second one gets it.
one_winner : winners (run overlap (mailed_keys, guesses)).1 ≡ 1
unfolding winners run happen proceed guess_step compare_and_claim issue get increment_with_ttl
    String_discrete
one_winner = refl
