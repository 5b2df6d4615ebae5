-- ===== src/Common/Int.antt =====
-- Signed integers over the native numbers, under the library's names: what `parseInt` returns and
-- what a difference of clock readings is compared with.
use Prim.Native.Nat.{ℕ, suc, ◌+◌, ◌-◌}
use mathlib.Core.Bool.{Bool}
use drishtiscope_oss.Common.Tests.{leb, if◌then◌else◌}

-- `negsuc n` is -(n + 1).
pub data ℤ : Type 0 where
  pos : ℕ → ℤ
  negsuc : ℕ → ℤ

-- `a - b`, for natural numbers a and b.
abbrev pub difference : ℕ → ℕ → ℤ
difference a b = if leb b a then pos (a - b) else negsuc (b - a - 1)

abbrev pub pos_part : ℤ → ℕ
pos_part (pos n) = n
pos_part (negsuc n) = 0

abbrev pub neg_part : ℤ → ℕ
neg_part (pos n) = 0
neg_part (negsuc n) = suc n

-- `a - b >= m`, for natural numbers a and b.
abbrev pub difference_at_least : ℕ → ℕ → ℤ → Bool
difference_at_least a b m = leb (b + pos_part m) (a + neg_part m)
