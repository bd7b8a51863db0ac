-- ===== src/Builtins.antt =====
-- The builtins of src/fex_builtins.c on strings, lists and paths.
--
-- The arguments are those that the checks for their number and the conversions give: a string is its
-- bytes, a number the C int that it is converted to, a list a core expression. The polls inside the
-- loops and allocations that fail are left out.
pub mod Strings
pub mod Lists
pub mod Paths
pub mod Scans
pub mod Trim
pub mod Split
pub mod Search
pub mod Joins
pub mod Sequences
mod Examples
use fex.Common.{ℕ, zero, suc, ◌-◌, Bool, true, false, ◌&&◌, [], ◌∷◌, Bytes, if◌then◌else◌, ltb}

-- How a builtin fails.
pub data Failure : Type 0 where
  type_mismatch string_too_long index_out_of_range expected_pair : Failure

pub data Answer {ℓ} (A : Type ℓ) : Type ℓ where
  value : A → Answer A
  failed : Failure → Answer A

-- The byte at an index, the closing NUL behind the last.
abbrev pub byte : Bytes → ℕ → ℕ
byte [] i = 0
byte (c ∷ buffer) zero = c
byte (c ∷ buffer) (suc i) = byte buffer i

-- `while (end > limit && test(buffer[end - 1])) end--;`
unfoldable pub back_while : (ℕ → Bool) → (limit end : ℕ) → Bytes → ℕ
back_while test limit zero buffer = zero
back_while test limit (suc e) buffer = elim (ltb limit (suc e) && test (byte buffer e)) [
  | true ↦ back_while test limit e buffer
  | false ↦ suc e
]

-- `while (start < end && test(buffer[start])) start++;`, over the bytes that are left.
unfoldable pub forth_while : (ℕ → Bool) → (start : ℕ) → Bytes → ℕ
forth_while test start [] = start
forth_while test start (c ∷ rest) = elim (test c) [
  | true ↦ forth_while test (suc start) rest
  | false ↦ start
]
