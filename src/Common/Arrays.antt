-- ===== src/Common/Arrays.antt =====
-- A C array as a function from its indices, with the number of its entries that pass a test.
use Prim.Native.Nat.{ℕ, zero, suc, ◌+◌, ◌≤◌, ◌<◌}
use mathlib.Core.Path.{◌≡◌, refl}
use mathlib.Core.Bool.{Bool, false}
use mathlib.Core.Logic.{inl, inr}
use native.Mathlib.Omega.{arith}
use fex.Common.Tests.{◌==◌, if◌then◌else◌, Bool-cases}

module _ {ℓ} {A : Type ℓ} where
  abbrev pub update : (ℕ → A) → ℕ → A → ℕ → A
  update f i v j = if i == j then v else f j

  -- How many of the first `n` entries pass the test.
  abbrev pub count_below : (A → Bool) → (ℕ → A) → ℕ → ℕ
  count_below p f zero = 0
  count_below p f (suc n) = (if p (f n) then 1 else 0) + count_below p f n

  pub count_below-le : (p : A → Bool) (f : ℕ → A) (n : ℕ) → count_below p f n ≤ n
  count_below-le p f zero = omega arith
  count_below-le p f (suc n) = ground (arith, count_below-le p f n)

  pub count_below-update_above :
      (p : A → Bool) (f : ℕ → A) (n i : ℕ) (v : A)
      → n ≤ i
      → count_below p (update f i v) n ≡ count_below p f n
  count_below-update_above p f zero i v h = refl
  count_below-update_above p f (suc n) i v h = ground (arith, count_below-update_above p f n i v)

  -- A write moves the count by what it does to its own entry.
  pub count_below-update :
      (p : A → Bool) (f : ℕ → A) (n i : ℕ) (v : A)
      → i < n
      → count_below p (update f i v) n + (if p (f i) then 1 else 0)
        ≡ count_below p f n + (if p v then 1 else 0)
  count_below-update p f zero i v h = absurd (omega arith)
  count_below-update p f (suc n) i v h = elim (Bool-cases (i == n)) [
    | inl e ↦ ground (arith, count_below-update_above p f n i v)
    | inr e ↦ ground (arith, count_below-update p f n i v)
  ]

  -- An array that is not full has an entry that fails the test.
  pub count_below_gap :
      (p : A → Bool) (f : ℕ → A) (n : ℕ)
      → count_below p f n < n
      → (i : ℕ) × (i < n) × (p (f i) ≡ false)
  count_below_gap p f zero h = absurd (omega arith)
  count_below_gap p f (suc n) h = elim (Bool-cases (p (f n))) [
    | inl e ↦ let (i, h', e') = count_below_gap p f n (ground arith) in (i, omega arith, e')
    | inr e ↦ (n, omega arith, e)
  ]
