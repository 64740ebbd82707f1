-- ===== src/Rooms/StartLock.antt =====
-- `StartLock` of server-game/src/rooms/lobby-state.ts: joining and changing the map delay the start, and
-- the delays that joins add are limited by a budget over a rolling window.
pub mod Laws
use sw_itch_remake.Base.{ℕ, ◌+◌, ◌-◌, max, min, Bool, List, [], ◌∷◌, ◌++◌, ltb, leb, if◌then◌else◌}

pub record LockGrant : Type 0 where
  pub at : ℕ
  pub duration_ms : ℕ

pub record StartLock : Type 0 where
  pub join_lock_ms : ℕ
  pub join_budget_ms : ℕ
  pub join_budget_window_ms : ℕ
  pub map_lock_ms : ℕ
  pub join_grants : List LockGrant
  pub unlocks_at : ℕ

unfoldable pub new : ℕ → ℕ → ℕ → ℕ → StartLock
new join_lock_ms join_budget_ms join_budget_window_ms map_lock_ms = record {
  join_lock_ms = join_lock_ms;
  join_budget_ms = join_budget_ms;
  join_budget_window_ms = join_budget_window_ms;
  map_lock_ms = map_lock_ms;
  join_grants = [];
  unlocks_at = 0;
}

-- The `while` loop of `#prune`. `now` is never before a grant, so the truncated difference is exact.
unfoldable pub prune : ℕ → ℕ → List LockGrant → List LockGrant
prune window now [] = []
prune window now (g ∷ gs) =
    let rest = prune window now gs in if leb window (now - g.at) then rest else g ∷ gs

-- `reduce((sum, grant) => sum + grant.durationMs, 0)`.
unfoldable pub used : List LockGrant → ℕ
used [] = 0
used (g ∷ gs) = g.duration_ms + used gs

-- `applyJoin`: the lock after it, and the granted delay.
unfoldable pub apply_join : ℕ → StartLock → StartLock × ℕ
unfolding prune used
apply_join now s =
    let kept = prune s.join_budget_window_ms now s.join_grants in
    let grant = min s.join_lock_ms (s.join_budget_ms - used kept) in
    if ltb 0 grant
    then (
      record s {
        join_grants = kept ++ record { at = now; duration_ms = grant } ∷ [];
        unlocks_at = max s.unlocks_at (now + grant);
      },
      grant,
    )
    else (record s { join_grants = kept }, grant)

unfoldable pub apply_map_change : ℕ → StartLock → StartLock
apply_map_change now s = record s { unlocks_at = max s.unlocks_at (now + s.map_lock_ms) }

unfoldable pub remaining_ms : ℕ → StartLock → ℕ
remaining_ms now s = s.unlocks_at - now

pub data Call : Type 0 where
  joins changes_map : Call

unfoldable pub step : StartLock → ℕ × Call → StartLock
step s (now, joins) = (apply_join now s).0
step s (now, changes_map) = apply_map_change now s

-- The delay that a call grants to a join.
unfoldable pub granted : StartLock → ℕ × Call → ℕ
granted s (now, joins) = (apply_join now s).1
granted s (now, changes_map) = 0
