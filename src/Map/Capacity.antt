-- ===== src/Map/Capacity.antt =====
-- map_ensure_capacity and its doubling loop.
use fex.Common.{
  ℕ, zero, suc, ◌+◌, ◌*◌, ◌≤◌, ◌<◌, ◌≡◌, refl, ◌⊎◌, inl, inr, true, false, some, arith, Bytes,
  Bool-cases, leb, ltb, leb→le, ltb→lt,
}
use fex.Map.{Table, double_target, min_target, map_ensure_capacity, map_resize}
use fex.Map.Valid.{IsValid}
use fex.Map.Slots.{value}
use fex.Map.Resize.{used-le-filled, map_resize-Resized}

-- The capacity that the loop settles on: the load is below three quarters, it is no smaller than
-- the target, and it is the target itself or at most double of what the load needs.
pub record Grown (used target r : ℕ) : Type 0 where
  pub fits : (used + 1) * 4 < r * 3
  pub larger : target ≤ r
  pub least : (r ≡ target) ⊎ (r * 3 ≤ (used + 1) * 8)

grown_more :
    (target used r : ℕ)
    → leb (target * 3) ((used + 1) * 4) ≡ true
    → (r ≡ target * 2) ⊎ (r * 3 ≤ (used + 1) * 8)
    → (r ≡ target) ⊎ (r * 3 ≤ (used + 1) * 8)
grown_more target used r e (inl q) = inr (omega (arith, leb→le _ _ e))
grown_more target used r e (inr le) = inr le

double_target-Grown :
    (fuel used target : ℕ)
    → 8 ≤ target
    → 2 * (used + 1) ≤ target + 2 * fuel
    → (r : ℕ) × (double_target (suc fuel) used target ≡ some r) × Grown used target r
unfolding double_target
double_target-Grown zero used target size bound =
    elim (Bool-cases (leb (target * 3) ((used + 1) * 4))) [
      | inl e ↦ absurd (omega (arith, leb→le _ _ e))
      | inr e ↦
          (target, rw e, record { fits = ground arith; larger = omega arith; least = inl refl })
    ]
double_target-Grown (suc fuel) used target size bound =
    elim (Bool-cases (leb (target * 3) ((used + 1) * 4))) [
      | inl e ↦
          let (r, eq, g) = double_target-Grown fuel used (target * 2) (omega arith) (omega arith) in
          (
            r,
            rw e eq,
            record {
              fits = g.fits;
              larger = omega (arith, g.larger);
              least = grown_more target used r e g.least;
            },
          )
      | inr e ↦
          (target, rw e, record { fits = ground arith; larger = omega arith; least = inl refl })
    ]

-- From a target of at least 8 the doubling loop of map_ensure_capacity ends within used + 2 rounds.
-- The target that it returns is no smaller, keeps the load below three quarters, and is the first
-- one or no more than twice of what the load needs.
pub double_target_ends :
    (used target : ℕ)
    → 8 ≤ target
    → (r : ℕ) × (double_target (used + 2) used target ≡ some r) × Grown used target r
double_target_ends used target size =
    let e : used + 2 ≡ suc (used + 1) = omega arith in
    rw e (double_target-Grown (used + 1) used target size (omega arith))

module _ {V : Type 0} where
  -- What map_ensure_capacity promises: room for one more pair, and the same pairs.
  pub record Ready (t u : Table V) : Type 0 where
    pub valid : IsValid u
    pub fits : (u.used + 1) * 4 < u.capacity * 3
    pub same_count : u.count ≡ t.count
    pub same_value : (k : Bytes) → value u k ≡ value t k
    pub grows : t.capacity ≤ u.capacity

  min_target-eq : (t : Table V) → IsValid t → min_target t.capacity ≡ t.capacity
  min_target-eq t valid = ground (arith, valid.size)

  ensure_fits :
      (t : Table V)
      → IsValid t
      → ltb ((t.used + 1) * 4) (t.capacity * 3) ≡ true
      → map_ensure_capacity true t ≡ some t
  unfolding map_ensure_capacity
  ensure_fits t valid e = rw (min_target-eq t valid, e)

  ensure_grows :
      (t : Table V) (r : ℕ) (u : Table V)
      → IsValid t
      → ltb ((t.used + 1) * 4) (t.capacity * 3) ≡ false
      → double_target (t.used + 2) t.used t.capacity ≡ some r
      → map_resize true t r ≡ some u
      → map_ensure_capacity true t ≡ some u
  unfolding map_ensure_capacity
  ensure_grows t r u valid e eq eq' = rw (min_target-eq t valid, e, eq, eq')

  pub map_ensure_capacity-Ready :
      (t : Table V) → IsValid t → (u : Table V) × (map_ensure_capacity true t ≡ some u) × Ready t u
  map_ensure_capacity-Ready t valid = elim (Bool-cases (ltb ((t.used + 1) * 4) (t.capacity * 3))) [
    | inl e ↦ (
      t,
      ensure_fits t valid e,
      record {
        valid = valid;
        fits = ltb→lt _ _ e;
        same_count = refl;
        same_value = λ k. refl;
        grows = omega arith;
      },
    )
    | inr e ↦
        let (r, eq, g) = double_target_ends t.used t.capacity valid.size in
        let (u, eq', z) = map_resize-Resized t valid r (omega arith) g.fits in
        (
          u,
          ensure_grows t r u valid e eq eq',
          record {
            valid = z.valid_after;
            fits = omega (
              arith,
              z.used_after,
              z.capacity_after,
              g.fits,
              valid.counted,
              valid.filled,
              used-le-filled t.slots t.capacity,
            );
            same_count = z.count_after;
            same_value = z.value_after;
            grows = omega (arith, z.capacity_after, g.larger);
          },
        )
  ]
