-- ===== src/Simulation/Floats.antt =====
-- The source computes with doubles, which are not defined here: a type of numbers and the operations that
-- the simulation uses are a parameter of the model. Nothing is assumed of them but what a theorem names.
use sw_itch_remake.Base.{ℕ, Bool, if◌then◌else◌, not}
use sw_itch_remake.Base.Int.{ℤ}

pub record Floats : Type 1 where
  pub Num : Type 0
  -- The literal n / d.
  pub lit : ℕ → ℕ → Num
  pub of_int : ℤ → Num
  pub add : Num → Num → Num
  pub sub : Num → Num → Num
  pub mul : Num → Num → Num
  pub div : Num → Num → Num
  pub neg : Num → Num
  pub sqrt : Num → Num
  pub hypot : Num → Num → Num
  pub floor : Num → ℤ
  -- `Math.round` and `Math.ceil` where the source takes them of what is not negative.
  pub round : Num → ℕ
  pub ceil : Num → ℕ
  -- a <= b and a === b; no value is NaN.
  pub leb : Num → Num → Bool
  pub eqb : Num → Num → Bool

module _ (f : Floats) where
  open f use {Num, lit, leb}

  abbrev pub of_ℕ : ℕ → Num
  of_ℕ n = lit n 1

  abbrev pub ltb : Num → Num → Bool
  ltb a b = not (leb b a)

  abbrev pub max : Num → Num → Num
  max a b = if leb a b then b else a

  abbrev pub min : Num → Num → Num
  min a b = if leb a b then a else b
