-- ===== src/Common/Int.antt =====
-- Signed integers over the native numbers, for C `int` values that can be negative.
use Prim.Native.Nat.{ℕ, ◌-◌}
use fex.Common.Tests.{leb, if◌then◌else◌}

-- `negsuc n` is -(n + 1).
pub data ℤ : Type 0 where
  pos : ℕ → ℤ
  negsuc : ℕ → ℤ

-- a - b, as an integer.
abbrev pub sub_ℕ : ℕ → ℕ → ℤ
sub_ℕ a b = if leb b a then pos (a - b) else negsuc (b - a - 1)
