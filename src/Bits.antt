-- ===== src/Bits.antt =====
-- Laws of the native `bit_xor` and `bit_or` at variables: the lowest digit, bounds, and what an
-- exclusive or cancels.
use Prim.Native.Nat.{max, bit_or, bit_xor, digits, bitwise, differ, bit_or-bitwise, bit_xor-bitwise}
use native.Mathlib.Nat.{pow-suc, pow-succ', div-div-eq-div-mul, div-mul-le_self}
use mathlib.Core.Path.{ap, sym, ◌∙◌}
use fex.Common.{
  ℕ, zero, suc, ◌+◌, ◌*◌, ◌/◌, ◌%◌, ◌^◌, ◌≤◌, ◌<◌, ◌≡◌, refl, inl, inr, arith, ◌==◌, ==→eq,
  Bool-cases,
}

-- The digits of the first number bound the recursion: any larger bound gives the same.
more_digits :
    (z : ℕ → ℕ) (f : ℕ → ℕ → ℕ) (n a b : ℕ) → a ≤ n → digits z f n a b ≡ digits z f (suc n) a b
more_digits z f zero zero b h = refl
more_digits z f zero (suc a) b h = absurd (omega arith)
more_digits z f (suc n) zero b h = refl
more_digits z f (suc n) (suc a) b h =
    ap (λ (q : ℕ). q * 2 + f (suc a % 2) (b % 2))
      (more_digits z f n (suc a / 2) (b / 2) (omega arith))

enough_digits : (z : ℕ → ℕ) (f : ℕ → ℕ → ℕ) (n a b : ℕ) → a ≤ n → digits z f n a b ≡ bitwise z f a b
enough_digits z f zero zero b h = refl
enough_digits z f zero (suc a) b h = absurd (omega arith)
enough_digits z f (suc n) a b h = elim (Bool-cases (a == suc n)) [
  | inl e ↦ rw (==→eq a (suc n) e)
  | inr e ↦
      let less : a ≤ n = ground arith in
      sym (more_digits z f n a b less) ∙ enough_digits z f n a b less
]

bitwise_step :
    (f : ℕ → ℕ → ℕ) (a b : ℕ)
    → f 0 (b % 2) ≡ b % 2
    → bitwise (λ y. y) f a b ≡ bitwise (λ y. y) f (a / 2) (b / 2) * 2 + f (a % 2) (b % 2)
bitwise_step f zero b h = omega arith
bitwise_step f (suc a) b h =
    ap (λ (q : ℕ). q * 2 + f (suc a % 2) (b % 2))
      (enough_digits (λ y. y) f a (suc a / 2) (b / 2) (omega arith))

pub bit_or_step : (a b : ℕ) → bit_or a b ≡ bit_or (a / 2) (b / 2) * 2 + max (a % 2) (b % 2)
bit_or_step a b =
    rw (bit_or-bitwise a b, bit_or-bitwise (a / 2) (b / 2)) (bitwise_step max a b (omega arith))

differ_digit : (x y : ℕ) → x < 2 → y < 2 → differ x y ≡ (x + y) % 2
differ_digit zero y p q = omega arith
differ_digit (suc zero) zero p q = refl
differ_digit (suc zero) (suc zero) p q = refl
differ_digit (suc zero) (suc (suc y)) p q = absurd (omega arith)
differ_digit (suc (suc x)) y p q = absurd (omega arith)

pub bit_xor_step : (a b : ℕ) → bit_xor a b ≡ bit_xor (a / 2) (b / 2) * 2 + (a % 2 + b % 2) % 2
bit_xor_step a b =
    rw (bit_xor-bitwise a b, bit_xor-bitwise (a / 2) (b / 2))
      (bitwise_step differ a b (omega (arith, differ_digit 0 (b % 2) (omega arith) (omega arith)))
        ∙ ap (λ (d : ℕ). bitwise (λ y. y) differ (a / 2) (b / 2) * 2 + d)
            (differ_digit (a % 2) (b % 2) (omega arith) (omega arith)))

-- Below a power of two both stay below it.
pub bit_xor-lt : (k a b : ℕ) → a < 2 ^ k → b < 2 ^ k → bit_xor a b < 2 ^ k
bit_xor-lt zero a b p q =
    let e : a ≡ 0 = omega arith in let e' : b ≡ 0 = omega arith in rw (e, e') (omega arith)
bit_xor-lt (suc k) a b p q = omega (
  arith,
  bit_xor_step a b,
  pow-suc 2 k,
  bit_xor-lt k (a / 2) (b / 2) (omega (arith, pow-suc 2 k)) (omega (arith, pow-suc 2 k)),
)

pub bit_or-lt : (k a b : ℕ) → a < 2 ^ k → b < 2 ^ k → bit_or a b < 2 ^ k
bit_or-lt zero a b p q =
    let e : a ≡ 0 = omega arith in let e' : b ≡ 0 = omega arith in rw (e, e') (omega arith)
bit_or-lt (suc k) a b p q = omega (
  arith,
  bit_or_step a b,
  pow-suc 2 k,
  bit_or-lt k (a / 2) (b / 2) (omega (arith, pow-suc 2 k)) (omega (arith, pow-suc 2 k)),
)

xor_half : (a b : ℕ) → bit_xor a b / 2 ≡ bit_xor (a / 2) (b / 2)
xor_half a b = omega (arith, bit_xor_step a b)

xor_low : (a b : ℕ) → bit_xor a b % 2 ≡ (a % 2 + b % 2) % 2
xor_low a b = omega (arith, bit_xor_step a b)

-- Bounded induction: the bound `n` is at least all numbers in sight.
xor_assoc_below :
    (n a b c : ℕ) → a ≤ n → b ≤ n → c ≤ n → bit_xor (bit_xor a b) c ≡ bit_xor a (bit_xor b c)
xor_assoc_below zero a b c p q r =
    let e : a ≡ 0 = omega arith in
    let e' : b ≡ 0 = omega arith in let e'' : c ≡ 0 = omega arith in rw (e, e', e'')
xor_assoc_below (suc n) a b c p q r =
    rw
      (
        bit_xor_step (bit_xor a b) c,
        bit_xor_step a (bit_xor b c),
        xor_half a b,
        xor_half b c,
        xor_low a b,
        xor_low b c,
        xor_assoc_below n (a / 2) (b / 2) (c / 2) (omega arith) (omega arith) (omega arith),
      )
      (omega arith)

pub bit_xor_assoc : (a b c : ℕ) → bit_xor (bit_xor a b) c ≡ bit_xor a (bit_xor b c)
bit_xor_assoc a b c = xor_assoc_below (a + b + c) a b c (omega arith) (omega arith) (omega arith)

xor_comm_below : (n a b : ℕ) → a ≤ n → b ≤ n → bit_xor a b ≡ bit_xor b a
xor_comm_below zero a b p q =
    let e : a ≡ 0 = omega arith in let e' : b ≡ 0 = omega arith in rw (e, e')
xor_comm_below (suc n) a b p q = omega (
  arith,
  bit_xor_step a b,
  bit_xor_step b a,
  xor_comm_below n (a / 2) (b / 2) (omega arith) (omega arith),
)

pub bit_xor_comm : (a b : ℕ) → bit_xor a b ≡ bit_xor b a
bit_xor_comm a b = xor_comm_below (a + b) a b (omega arith) (omega arith)

pub zero-bit_xor : (b : ℕ) → bit_xor 0 b ≡ b
zero-bit_xor b = bit_xor-bitwise 0 b

pub bit_xor-zero : (a : ℕ) → bit_xor a 0 ≡ a
bit_xor-zero a = bit_xor_comm a 0 ∙ zero-bit_xor a

xor_self_below : (n a : ℕ) → a ≤ n → bit_xor a a ≡ 0
xor_self_below zero a p = let e : a ≡ 0 = omega arith in rw e
xor_self_below (suc n) a p = omega (arith, bit_xor_step a a, xor_self_below n (a / 2) (omega arith))

pub bit_xor_self : (a : ℕ) → bit_xor a a ≡ 0
bit_xor_self a = xor_self_below a a (omega arith)

pub bit_xor_swap :
    (a b c d : ℕ) → bit_xor (bit_xor a b) (bit_xor c d) ≡ bit_xor (bit_xor a c) (bit_xor b d)
bit_xor_swap a b c d =
    bit_xor_assoc a b (bit_xor c d)
    ∙ ap (λ (t : ℕ). bit_xor a t)
        (sym (bit_xor_assoc b c d)
          ∙ ap (λ (t : ℕ). bit_xor t d) (bit_xor_comm b c)
          ∙ bit_xor_assoc c b d)
    ∙ sym (bit_xor_assoc a c (bit_xor b d))

-- An exclusive or with a known number can be undone.
pub bit_xor_cancel : (a b : ℕ) → bit_xor (bit_xor a b) b ≡ a
bit_xor_cancel a b = rw (bit_xor_assoc a b b, bit_xor_self b, bit_xor-zero a)

pub eq_of_bit_xor : (a b : ℕ) → bit_xor a b ≡ 0 → a ≡ b
eq_of_bit_xor a b e = sym (bit_xor_cancel a b) ∙ ap (λ (t : ℕ). bit_xor t b) e ∙ zero-bit_xor b

div_one : (a : ℕ) → a / 2 ^ 0 ≡ a
div_one a = omega arith

div_twice : (a k : ℕ) → a / (2 * 2 ^ k) ≡ a / 2 / 2 ^ k
div_twice a k = sym (div-div-eq-div-mul a 2 (2 ^ k))

-- A shift to the right goes through an exclusive or.
pub bit_xor-div : (k a b : ℕ) → bit_xor a b / 2 ^ k ≡ bit_xor (a / 2 ^ k) (b / 2 ^ k)
bit_xor-div zero a b = rw (div_one a, div_one b) (div_one (bit_xor a b))
bit_xor-div (suc k) a b =
    rw (pow-succ' 2 k, div_twice a k, div_twice b k, div_twice (bit_xor a b) k, xor_half a b)
      (bit_xor-div k (a / 2) (b / 2))

-- `x ^ (x >> k)` determines `x`.
pub xorshift-injective :
    (k x y : ℕ) → 2 ≤ 2 ^ k → bit_xor x (x / 2 ^ k) ≡ bit_xor y (y / 2 ^ k) → x ≡ y
xorshift-injective k x y big e = eq_of_bit_xor x y (fixed (bit_xor x y) same)
  where
    same : bit_xor x y ≡ bit_xor x y / 2 ^ k
    same = eq_of_bit_xor (bit_xor x y) (bit_xor x y / 2 ^ k) (
        rw (bit_xor-div k x y, bit_xor_swap x y (x / 2 ^ k) (y / 2 ^ k), e)
          (bit_xor_self (bit_xor y (y / 2 ^ k))))

    fixed : (d : ℕ) → d ≡ d / 2 ^ k → d ≡ 0
    fixed d h = grind (arith, div-mul-le_self d (2 ^ k))
