-- ===== src/Sfc32/Words.antt =====
-- One round of the generator, and runs of rounds.
use Prim.Native.Nat.{bit_or}
use native.Mathlib.Nat.{div-le_self}
use fex.Common.{ℕ, zero, suc, ◌+◌, ◌/◌, ◌%◌, ◌^◌, ◌<◌, ◌≡◌, ◌≢◌, ap, arith}
use fex.Bits.{bit_xor-lt, xorshift-injective}
use fex.Sfc32.{State, u32, shift_left, xorshift, sfc32_next, rounds}

pub record IsWords (s : State) : Type 0 where
  pub a_word : s.a < u32
  pub b_word : s.b < u32
  pub c_word : s.c < u32
  pub d_word : s.d < u32

pub xorshift-lt : (x k : ℕ) → x < u32 → xorshift x k < u32
xorshift-lt x k h = bit_xor-lt 32 x (x / 2 ^ k) h (omega (arith, div-le_self x (2 ^ k)))

-- From a state of 32-bit words a round leads to such a state, and the number that it returns is
-- below 2 ^ 32.
pub sfc32_next-IsWords :
    (s : State) → IsWords s → IsWords (sfc32_next s).0 × ((sfc32_next s).1 < u32)
unfolding sfc32_next
sfc32_next-IsWords s w = (
  record {
    a_word = xorshift-lt s.b 9 w.b_word;
    b_word = omega arith;
    c_word = omega arith;
    d_word = omega arith;
  },
  omega arith,
)

times_nine :
    (x y : ℕ) → x < u32 → y < u32 → (x + shift_left x 3) % u32 ≡ (y + shift_left y 3) % u32 → x ≡ y
times_nine x y p q e = omega arith

-- No two states of 32-bit words are followed by the same state.
pub sfc32_next-injective :
    (s t : State) → IsWords s → IsWords t → (sfc32_next s).0 ≡ (sfc32_next t).0 → s ≡ t
unfolding sfc32_next
sfc32_next-injective s t w v e =
    let same_b : s.b ≡ t.b =
      xorshift-injective 9 s.b t.b (omega arith) (ap (λ (r : State). r.a) e) in
    let same_c : s.c ≡ t.c = times_nine s.c t.c w.c_word v.c_word (ap (λ (r : State). r.b) e) in
    let same_d : s.d ≡ t.d = omega (arith, ap (λ (r : State). r.d) e) in
    let rotate = λ (c : ℕ). bit_or (shift_left c 21) (c / 2 ^ 11) in
    let same_rotated : rotate s.c ≡ rotate t.c = ap rotate same_c in
    let same_a : s.a ≡ t.a = omega (arith, ap (λ (r : State). r.c) e) in ground arith

-- The counter after `n` rounds.
pub rounds-counter : (n : ℕ) (s : State) → s.d < u32 → (rounds n s).d ≡ (s.d + n) % u32
unfolding rounds
rounds-counter zero s h = omega arith
rounds-counter (suc n) s h =
    omega (arith, rounds-counter n (sfc32_next s).0 (unfold sfc32_next in omega arith))

-- No state with a 32-bit counter comes back within 2 ^ 32 - 1 rounds.
pub no_short_cycle : (n : ℕ) (s : State) → s.d < u32 → 0 < n → n < u32 → rounds n s ≢ s
no_short_cycle n s h pos small e = omega (arith, rounds-counter n s h, ap (λ (r : State). r.d) e)

pub rounds-injective :
    (n : ℕ) (s t : State) → IsWords s → IsWords t → rounds n s ≡ rounds n t → s ≡ t
unfolding rounds
rounds-injective zero s t w v e = e
rounds-injective (suc n) s t w v e = sfc32_next-injective s t w v (
    rounds-injective n (sfc32_next s).0 (sfc32_next t).0 (sfc32_next-IsWords s w).0
      (sfc32_next-IsWords t v).0 e)

pub rounds-IsWords : (n : ℕ) (s : State) → IsWords s → IsWords (rounds n s)
unfolding rounds
rounds-IsWords zero s w = w
rounds-IsWords (suc n) s w = rounds-IsWords n (sfc32_next s).0 (sfc32_next-IsWords s w).0
