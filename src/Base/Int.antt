-- ===== src/Base/Int.antt =====
-- The integers that the native numbers lack, under the library's names: `negsuc n` is -(n + 1).
use Prim.Native.Nat.{ℕ, zero, suc, ◌+◌, ◌-◌}
use mathlib.Core.Bool.{Bool, true}
use mathlib.Core.List.{List, [], ◌∷◌}
use mathlib.Core.Option.{Option, none}
use sw_itch_remake.Base.Tests.{leb, if◌then◌else◌}
use sw_itch_remake.Base.Lists.{get_elem?}

pub data ℤ : Type 0 where
  pos : ℕ → ℤ
  negsuc : ℕ → ℤ

unfoldable pub next_ℤ : ℤ → ℤ
next_ℤ (pos n) = pos (suc n)
next_ℤ (negsuc zero) = pos 0
next_ℤ (negsuc (suc n)) = negsuc n

-- How many integers stand from the first up to the second, both counted.
unfoldable pub span : ℤ → ℤ → ℕ
span (pos a) (pos b) = suc b - a
span (pos a) (negsuc b) = 0
span (negsuc a) (pos b) = suc (suc a + b)
span (negsuc a) (negsuc b) = suc a - b

unfoldable pub ints_from : ℕ → ℤ → List ℤ
unfolding next_ℤ
ints_from zero a = []
ints_from (suc n) a = a ∷ ints_from n (next_ℤ a)

-- `for (i = a; i <= b; i++)`, as the list of the values of i.
unfoldable pub ints : ℤ → ℤ → List ℤ
unfolding ints_from span
ints a b = ints_from (span a b) a

-- `xs[i]`.
abbrev pub at? : {A : Type 0} → List A → ℤ → Option A
at? xs (pos n) = get_elem? xs n
at? xs (negsuc n) = none

-- i < 0 || i >= n.
abbrev pub is_outside : ℤ → ℕ → Bool
is_outside (pos i) n = leb n i
is_outside (negsuc i) n = true

-- |a - b|.
abbrev pub distance : ℤ → ℤ → ℕ
distance (pos a) (pos b) = (a - b) + (b - a)
distance (pos a) (negsuc b) = a + suc b
distance (negsuc a) (pos b) = suc a + b
distance (negsuc a) (negsuc b) = (a - b) + (b - a)

-- The difference of two native numbers.
abbrev pub difference : ℕ → ℕ → ℤ
difference a b = if leb b a then pos (a - b) else negsuc (b - a - 1)

infix 60 ◌+ℤ◌
abbrev pub ◌+ℤ◌ : ℤ → ℤ → ℤ
pos a +ℤ pos b = pos (a + b)
pos a +ℤ negsuc b = difference a (suc b)
negsuc a +ℤ pos b = difference b (suc a)
negsuc a +ℤ negsuc b = negsuc (suc (a + b))
