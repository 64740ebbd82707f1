-- ===== src/Accounts/VerificationCode/Laws.antt =====
-- Guesses at a code whose Redis calls overlap (server-match/src/auth/verification-code.ts).
use sw_itch_remake.Base.{ℕ, ◌+◌, some, List, [], ◌∷◌, if◌then◌else◌, is_some}
use sw_itch_remake.Accounts.VerificationCode.{CodeKeys, Progress, answered, Guess}

-- A code on record counts one, and so does a guess that got a claim.
abbrev pub codes : CodeKeys → ℕ
codes s = if is_some s.code then 1 else 0

abbrev pub wins : Progress → ℕ
wins (answered (some c)) = 1
wins _ = 0

unfoldable pub winners : List Guess → ℕ
winners [] = 0
winners (g ∷ gs) = wins g.progress + winners gs
