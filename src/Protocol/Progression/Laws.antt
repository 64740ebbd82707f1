-- ===== src/Protocol/Progression/Laws.antt =====
-- The level that progression.ts counts is the one that the cost curve defines.
use native.Mathlib.Nat.{add-suc, add-zero}
use sw_itch_remake.Base.{
  ℕ, zero, suc, ◌+◌, ◌-◌, ◌*◌, ◌≤◌, ◌<◌, ◌≡◌, true, Option, arith, dec_lt, ap,
}
use sw_itch_remake.Base.Int.{ℤ}
use sw_itch_remake.Protocol.Progression.{
  MatchXpInput, match_xp_breakdown, match_xp, LevelProgress, climb, level_from_xp, finite_or_zero,
  at_least_zero, level_base_cost, level_cost_step,
}

-- The experience that reaching level n + 1 costs.
unfoldable pub total_cost : ℕ → ℕ
total_cost zero = 0
total_cost (suc n) = total_cost n + (level_base_cost + level_cost_step * n)

-- In closed form, twice over: the cost grows with the square of the level.
total_cost_closed : (n : ℕ) → 2 * total_cost n + 50 * n ≡ 200 * n + 50 * (n * n)
unfolding total_cost
total_cost_closed zero = omega arith
total_cost_closed (suc n) = omega (arith, total_cost_closed n)

total_cost-lt : (d m : ℕ) → total_cost m < total_cost (m + suc d)
unfolding total_cost
total_cost-lt zero m = rw (add-suc, add-zero) (omega arith)
total_cost-lt (suc d) m = rw add-suc (omega (arith, total_cost-lt d m))

-- A level that is paid for costs less than one that is not: levels are ordered as their costs.
total_cost_reflects : (m n : ℕ) → total_cost m < total_cost n → m < n
total_cost_reflects m n h = elim (dec_lt m n) [
  | yes p ↦ p
  | no p ↦ absurd (total_cost_ordered p (dec_lt n m))
]
  where
    total_cost_ordered : ¬ (m < n) → Dec (n < m) → ⊥
    total_cost_ordered p (yes q) = omega (
      arith,
      total_cost-lt (m - n - 1) n,
      ap total_cost (let e : n + suc (m - n - 1) ≡ m = omega arith in e),
    )
    total_cost_ordered p (no q) = omega (arith, ap total_cost (let e : m ≡ n = omega arith in e))

-- What the loop's state says: `start` points were there, and `n` levels are paid for.
pub record Climbed (start : ℕ) (p : LevelProgress) : Type 0 where
  pub positive : 1 ≤ p.level
  pub paid : total_cost (p.level - 1) + p.xp_into_level ≡ start
  pub short : p.xp_into_level < p.xp_for_next_level
  pub next_cost : p.xp_for_next_level ≡ level_base_cost + level_cost_step * (p.level - 1)

climb-Climbed :
    (start fuel remaining n cost : ℕ)
    → total_cost n + remaining ≡ start
    → cost ≡ level_base_cost + level_cost_step * n
    → remaining ≤ fuel
    → Climbed start (climb fuel remaining (suc n) cost)
unfolding climb total_cost
climb-Climbed start zero remaining n cost p c f = ground arith
climb-Climbed start (suc fuel) remaining n cost p c f =
    ground (arith, climb-Climbed start fuel (remaining - cost) (suc n) (cost + level_cost_step))

-- The counted level is the one that the curve defines: all levels up to it are paid for out of the
-- points, what is left is the progress, and it does not pay for the next level. A missing, negative or
-- infinite amount counts as no points.
pub level_from_xp-Climbed : (xp : Option ℤ) → Climbed (finite_or_zero xp) (level_from_xp xp)
unfolding level_from_xp total_cost
level_from_xp-Climbed xp =
    climb-Climbed (finite_or_zero xp) (finite_or_zero xp) (finite_or_zero xp) 0 level_base_cost
      (omega arith) (omega arith) (omega arith)

-- More points never mean a lower level.
pub level_from_xp_mono :
    (x y : Option ℤ)
    → finite_or_zero x ≤ finite_or_zero y
    → (level_from_xp x).level ≤ (level_from_xp y).level
level_from_xp_mono x y h =
    let a = level_from_xp-Climbed x in
    let b = level_from_xp-Climbed y in
    let below : (level_from_xp x).level - 1 < suc ((level_from_xp y).level - 1) =
      total_cost_reflects _ _
        (unfold total_cost in omega (arith, a.paid, b.paid, b.short, b.next_cost)) in
    omega (arith, below, a.positive, b.positive)

-- The parts of a match add up to its total; no match is worth less than 40, which taking part is worth; and
-- surviving is worth 120 points at most, however long the room goes on, and winning 60 at most.
pub match_xp_bounds :
    (input : MatchXpInput)
    → let b = match_xp_breakdown input in
      (match_xp input ≡ b.played + b.win + b.tags + b.switches + b.survival)
      × (40 ≤ match_xp input)
      × (b.survival ≤ 120)
      × (b.win ≤ 60)
unfolding match_xp
match_xp_bounds input = ground arith

-- A better result is never worth less: winning, and each larger number, adds to the total.
pub match_xp_mono :
    (a b : MatchXpInput)
    → (a.won ≡ true → b.won ≡ true)
    → at_least_zero a.tag_count ≤ at_least_zero b.tag_count
    → at_least_zero a.switch_success ≤ at_least_zero b.switch_success
    → finite_or_zero a.survived_ms ≤ finite_or_zero b.survived_ms
    → match_xp a ≤ match_xp b
unfolding match_xp
match_xp_mono a b w t s v = ground arith
