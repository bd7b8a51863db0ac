-- ===== src/Sfc32/Seed.antt =====
-- Seeding: the mixing function and sfc32_seed.
use fex.Common.{ℕ, ◌+◌, ◌*◌, ◌%◌, ◌<◌, ◌≡◌, ◌≢◌, refl, ap, arith}
use fex.Bits.{xorshift-injective}
use fex.Sfc32.{State, u32, xorshift, rounds, sfc32_seed}
use fex.Sfc32.Words.{IsWords, xorshift-lt, rounds-injective}

-- The two multipliers are odd, so they can be divided out.
first_factor : (x y : ℕ) → x < u32 → y < u32 → x * 0x85ebca6b % u32 ≡ y * 0x85ebca6b % u32 → x ≡ y
first_factor x y p q e = omega arith

second_factor : (x y : ℕ) → x < u32 → y < u32 → x * 0xc2b2ae35 % u32 ≡ y * 0xc2b2ae35 % u32 → x ≡ y
second_factor x y p q e = omega arith

-- What seed_mix32 makes of its advanced state.
mix : ℕ → ℕ
mix x = xorshift (xorshift (xorshift x 16 * 0x85ebca6b % u32) 13 * 0xc2b2ae35 % u32) 16

mix-injective : (x y : ℕ) → x < u32 → y < u32 → mix x ≡ mix y → x ≡ y
unfolding mix
mix-injective x y p q e = xorshift-injective 16 x y (omega arith) (
    first_factor (xorshift x 16) (xorshift y 16) (xorshift-lt x 16 p) (xorshift-lt y 16 q) (
      xorshift-injective 13 _ _ (omega arith) (
        second_factor _ _ (xorshift-lt _ 13 (omega arith)) (xorshift-lt _ 13 (omega arith))
          (xorshift-injective 16 _ _ (omega arith) e))))

-- The state before the warm-up rounds.
start : ℕ → State
start seed =
    let x₁ = (seed + 0x9e3779b9) % u32 in
    let x₂ = (x₁ + 0x9e3779b9) % u32 in
    let x₃ = (x₂ + 0x9e3779b9) % u32 in record { a = mix x₁; b = mix x₂; c = mix x₃; d = 1 }

mix-lt : (x : ℕ) → x < u32 → mix x < u32
unfolding mix
mix-lt x h = xorshift-lt _ 16 (omega arith)

start-IsWords : (seed : ℕ) → IsWords (start seed)
unfolding start
start-IsWords seed = record {
  a_word = mix-lt _ (omega arith);
  b_word = mix-lt _ (omega arith);
  c_word = mix-lt _ (omega arith);
  d_word = omega arith;
}

sfc32_seed-start : (seed : ℕ) → sfc32_seed seed ≡ rounds 12 (start seed)
unfolding sfc32_seed start mix
sfc32_seed-start seed = refl

-- sfc32_seed gives the state after twelve rounds from a state of 32-bit words whose counter is 1
-- and whose other three words are distinct.
pub sfc32_seed-distinct :
    (seed : ℕ)
    → (s : State) × (sfc32_seed seed ≡ rounds 12 s)
      × IsWords s
      × (s.a ≢ s.b)
      × (s.b ≢ s.c)
      × (s.a ≢ s.c)
      × (s.d ≡ 1)
unfolding start
sfc32_seed-distinct seed =
    let x₁ = (seed + 0x9e3779b9) % u32 in
    let x₂ = (x₁ + 0x9e3779b9) % u32 in
    let x₃ = (x₂ + 0x9e3779b9) % u32 in
    (
      start seed,
      sfc32_seed-start seed,
      start-IsWords seed,
      λ e. omega (arith, mix-injective x₁ x₂ (omega arith) (omega arith) e),
      λ e. omega (arith, mix-injective x₂ x₃ (omega arith) (omega arith) e),
      λ e. omega (arith, mix-injective x₁ x₃ (omega arith) (omega arith) e),
      refl,
    )

-- Two 32-bit seeds never give the same generator.
pub sfc32_seed-injective : (m n : ℕ) → m < u32 → n < u32 → sfc32_seed m ≡ sfc32_seed n → m ≡ n
unfolding start
sfc32_seed-injective m n p q e =
    let same : start m ≡ start n =
      rounds-injective 12 (start m) (start n) (start-IsWords m) (start-IsWords n)
        (rw (← sfc32_seed-start m, ← sfc32_seed-start n) e) in
    omega (arith, mix-injective _ _ (omega arith) (omega arith) (ap (λ (s : State). s.a) same))
