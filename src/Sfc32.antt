-- ===== src/Sfc32.antt =====
-- The random number generator of src/sfc32.c and src/sfc32.h. A `uint32_t` is a number below
-- 2 ^ 32; sums, products and shifts to the left wrap around.
pub mod Words
pub mod Seed
mod Examples
use Prim.Native.Nat.{bit_xor, bit_or}
use fex.Common.{ℕ, zero, suc, ◌+◌, ◌*◌, ◌/◌, ◌%◌, ◌^◌, ◌==◌, if◌then◌else◌}

pub record State : Type 0 where
  pub a : ℕ
  pub b : ℕ
  pub c : ℕ
  pub d : ℕ

abbrev pub u32 : ℕ
u32 = 2 ^ 32

abbrev pub shift_left : ℕ → ℕ → ℕ
shift_left x k = x * 2 ^ k % u32

abbrev pub shift_right : ℕ → ℕ → ℕ
shift_right x k = x / 2 ^ k

abbrev pub xorshift : ℕ → ℕ → ℕ
xorshift x k = bit_xor x (shift_right x k)

-- The advanced state variable and the number that comes out.
pub seed_mix32 : ℕ → ℕ × ℕ
seed_mix32 x =
    let x' = (x + 0x9e3779b9) % u32 in
    let z₁ = xorshift x' 16 * 0x85ebca6b % u32 in
    let z₂ = xorshift z₁ 13 * 0xc2b2ae35 % u32 in (x', xorshift z₂ 16)

-- The new state and the random bits.
pub sfc32_next : State → State × ℕ
sfc32_next s =
    let t = (s.a + s.b + s.d) % u32 in
    let rotated = bit_or (shift_left s.c 21) (shift_right s.c 11) in
    let c' = (rotated + t) % u32 in
    (
      record {
        a = xorshift s.b 9;
        b = (s.c + shift_left s.c 3) % u32;
        c = c';
        d = (s.d + 1) % u32;
      },
      c',
    )

-- `n` rounds, whose numbers are thrown away.
pub rounds : ℕ → State → State
unfolding sfc32_next
rounds zero s = s
rounds (suc n) s = rounds n (sfc32_next s).0

pub sfc32_seed4 : (a b c d : ℕ) → State
unfolding rounds
sfc32_seed4 a b c d = rounds 12 (record { a = a; b = b; c = c; d = if d == 0 then 1 else d })

pub sfc32_seed : ℕ → State
unfolding seed_mix32 sfc32_seed4
sfc32_seed seed =
    let (x₁, a) = seed_mix32 seed in
    let (x₂, b) = seed_mix32 x₁ in let (x₃, c) = seed_mix32 x₂ in sfc32_seed4 a b c 1
