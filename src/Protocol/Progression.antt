-- ===== src/Protocol/Progression.antt =====
-- shared/src/protocol/progression.ts. A count may be negative there, so it is an integer here; a value
-- that is not finite is `none`. The survival bonus is the exact quotient, without float rounding.
pub mod Laws
use sw_itch_remake.Base.{
  ℕ, zero, suc, ◌+◌, ◌-◌, ◌*◌, ◌/◌, min, Bool, Option, none, some, ltb, leb, if◌then◌else◌,
}
use sw_itch_remake.Base.Int.{ℤ, pos, negsuc}

abbrev pub xp_per_match : ℕ
xp_per_match = 40

abbrev pub xp_per_win : ℕ
xp_per_win = 60

abbrev pub xp_per_tag : ℕ
xp_per_tag = 20

abbrev pub xp_per_switch_success : ℕ
xp_per_switch_success = 15

abbrev pub xp_per_survived_minute : ℕ
xp_per_survived_minute = 12

abbrev pub xp_survival_cap_ms : ℕ
xp_survival_cap_ms = 600_000

abbrev pub level_base_cost : ℕ
level_base_cost = 100

abbrev pub level_cost_step : ℕ
level_cost_step = 50

pub record MatchXpInput : Type 0 where
  pub won : Bool
  pub tag_count : ℤ
  pub switch_success : ℤ
  pub survived_ms : Option ℤ

pub record MatchXpBreakdown : Type 0 where
  pub played : ℕ
  pub win : ℕ
  pub tags : ℕ
  pub switches : ℕ
  pub survival : ℕ
  pub total : ℕ

-- `Math.max(0, n)`.
abbrev pub at_least_zero : ℤ → ℕ
at_least_zero (pos n) = n
at_least_zero (negsuc n) = 0

abbrev pub finite_or_zero : Option ℤ → ℕ
finite_or_zero none = 0
finite_or_zero (some n) = at_least_zero n

unfoldable pub match_xp_breakdown : MatchXpInput → MatchXpBreakdown
match_xp_breakdown input =
    let survived_ms = min xp_survival_cap_ms (finite_or_zero input.survived_ms) in
    let win = if input.won then xp_per_win else 0 in
    let tags = at_least_zero input.tag_count * xp_per_tag in
    let switches = at_least_zero input.switch_success * xp_per_switch_success in
    let survival = survived_ms * xp_per_survived_minute / 60_000 in
    record {
      played = xp_per_match;
      win = win;
      tags = tags;
      switches = switches;
      survival = survival;
      total = xp_per_match + win + tags + switches + survival;
    }

unfoldable pub match_xp : MatchXpInput → ℕ
unfolding match_xp_breakdown
match_xp input = (match_xp_breakdown input).total

pub record LevelProgress : Type 0 where
  pub level : ℕ
  pub xp_into_level : ℕ
  pub xp_for_next_level : ℕ

-- The `while` loop, with fuel; at its end the state is the answer.
unfoldable pub climb : ℕ → ℕ → ℕ → ℕ → LevelProgress
climb zero remaining level cost = record {
  level = level;
  xp_into_level = remaining;
  xp_for_next_level = cost;
}
climb (suc fuel) remaining level cost =
    let rest = climb fuel (remaining - cost) (level + 1) (cost + level_cost_step) in
    if leb cost remaining
    then rest
    else record { level = level; xp_into_level = remaining; xp_for_next_level = cost }

-- Each round takes at least 100 of what remains, so `xp` rounds are enough.
unfoldable pub level_from_xp : Option ℤ → LevelProgress
unfolding climb
level_from_xp xp = let start = finite_or_zero xp in climb start start 1 level_base_cost
