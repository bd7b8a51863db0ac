-- ===== src/Map/Resize.antt =====
-- map_resize and its loop over the old slots.
use native.Mathlib.Numerals.{add-one}
use mathlib.Core.Path.{subst}
use fex.Common.{
  ℕ, zero, suc, ◌+◌, ◌*◌, ◌≤◌, ◌<◌, ◌≡◌, refl, sym, ◌∙◌, ◌⊎◌, inl, inr, Bool, true, false, some,
  arith, Bytes, Bool-cases, update, count_below, count_below-update, ◌==◌, ==→eq,
}
use fex.Map.{
  Slot, empty, occupied, Table, is_used, is_filled, map_alloc, move_slot, move_all, map_resize,
}
use fex.Map.Probe.{Reached, Slot-cases}
use fex.Map.Valid.{home, HoldsAt, IsValid, Nowhere, find_cases}
use fex.Map.Slots.{value, value_same, put_inv, old_holds, put-IsValid}

count_below_none :
    {V : Type 0} (p : Slot V → Bool) (n : ℕ) → p empty ≡ false → count_below p (λ _. empty) n ≡ 0
count_below_none p zero e = refl
count_below_none p (suc n) e = ground (arith, count_below_none p n e)

module _ {V : Type 0} where
  no_pair : (capacity i : ℕ) (k : Bytes) (v : V) → HoldsAt (map_alloc capacity) i k v → ⊥
  unfolding map_alloc
  no_pair capacity i k v h = let bad : empty ≡ occupied k v = h.1 in cc

  pub map_alloc-IsValid : (capacity : ℕ) → 8 ≤ capacity → IsValid (map_alloc {V = V} capacity)
  unfolding map_alloc
  map_alloc-IsValid capacity h = record {
    size = h;
    counted = sym (count_below_none {V = V} is_used capacity refl);
    filled = sym (count_below_none {V = V} is_filled capacity refl);
    room = omega arith;
    reach = λ i k v h. absurd (no_pair capacity i k v h);
    unique = λ i j k v w h h'. absurd (no_pair capacity i k v h);
  }

-- Some used slots are among the filled ones.
pub used-le-filled :
    {V : Type 0} (f : ℕ → Slot V) (n : ℕ) → count_below is_used f n ≤ count_below is_filled f n
used-le-filled f zero = omega arith
used-le-filled f (suc n) = elim (Slot-cases (f n)) [
  | inl e ↦ rw e (omega (arith, used-le-filled f n))
  | inr (inl e) ↦ rw e (omega (arith, used-le-filled f n))
  | inr (inr (k, v, e)) ↦ rw e (omega (arith, used-le-filled f n))
]

count_below_mono :
    {V : Type 0} (p : Slot V → Bool) (f : ℕ → Slot V) (n m : ℕ)
    → n ≤ m
    → count_below p f n ≤ count_below p f m
count_below_mono p f n zero h = let e : n ≡ 0 = omega arith in rw e (omega arith)
count_below_mono p f n (suc m) h = elim (Bool-cases (n == suc m)) [
  | inl e ↦ rw (==→eq n (suc m) e) (omega arith)
  | inr e ↦ ground (arith, count_below_mono p f n m (ground arith))
]

free_holds :
    {V : Type 0} (x : Slot V) (k : Bytes) (v : V) → is_used x ≡ false → x ≡ occupied k v → ⊥
free_holds x k v e h = let bad : is_used (occupied k v) ≡ false = rw h at e in cc

-- What is promised of the table after a resize.
pub record Resized {V : Type 0} (t : Table V) (capacity : ℕ) (u : Table V) : Type 0 where
  pub valid_after : IsValid u
  pub capacity_after : u.capacity ≡ capacity
  pub count_after : u.count ≡ t.count
  pub used_after : u.used ≡ t.count
  pub value_after : (k : Bytes) → value u k ≡ value t k

-- The old table is valid, and fits into the new capacity with a quarter to spare.
module _ {V : Type 0} (t : Table V) (valid : IsValid t) (capacity : ℕ) (size : 8 ≤ capacity)
    (fits : (t.used + 1) * 4 < capacity * 3) where
  -- The new table holds the pairs of the old slots below `i`, and no tombstone.
  record Moved (i : ℕ) (g : Table V) : Type 0 where
    valid_new : IsValid g
    same_capacity : g.capacity ≡ capacity
    counts : g.used ≡ count_below is_used t.slots i
    count_used : g.count ≡ g.used
    clean : (p : ℕ) → is_filled (g.slots p) ≡ is_used (g.slots p)
    there :
        (j : ℕ) (k : Bytes) (v : V) → j < i → t.slots j ≡ occupied k v → (p : ℕ) × HoldsAt g p k v
    back :
        (p : ℕ) (k : Bytes) (v : V)
        → HoldsAt g p k v
        → (j : ℕ) × (j < i) × (t.slots j ≡ occupied k v)

  -- A slot that holds no pair is passed over.
  skip : (i : ℕ) (g : Table V) → is_used (t.slots i) ≡ false → Moved i g → Moved (suc i) g
  skip i g e m = record {
    valid_new = m.valid_new;
    same_capacity = m.same_capacity;
    counts = ground (arith, m.counts);
    count_used = m.count_used;
    clean = m.clean;
    there = λ j k v lt h. elim (Bool-cases (i == j)) [
      | inl q ↦ let bad : is_used (occupied k v) ≡ false = rw (==→eq i j q, h) at e in cc
      | inr q ↦ m.there j k v (ground arith) h
    ];
    back = λ p k v h. let (j, lt, at) = m.back p k v h in (j, omega arith, at);
  }

  module _ (i : ℕ) (g : Table V) (m : Moved i g) (k : Bytes) (v : V) (lt_i : i < t.capacity)
      (at_i : t.slots i ≡ occupied k v) where
    -- The key is not in the new table yet.
    not_yet : Nowhere g k
    not_yet p w h =
        let (j, lt, at) = m.back p k w h in
        omega (arith, valid.unique j i k w v (omega arith, at) (lt_i, at_i))

    fits_new : (g.used + 1) * 4 < capacity * 3
    fits_new = omega (
      arith,
      m.counts,
      count_below_mono is_used t.slots i t.capacity (omega arith),
      used-le-filled t.slots t.capacity,
      valid.filled,
    )

    module _ (s : ℕ) (lt : s < g.capacity) (free : is_used (g.slots s) ≡ false)
        (reached : Reached g.slots g.capacity (home k g.capacity) s) where
      abbrev new : Table V
      new = record g {
        slots = update g.slots s (occupied k v);
        count = g.count + 1;
        used = g.used + 1;
      }

      only : (p : ℕ) (w : V) → HoldsAt g p k w → p ≡ s
      only p w h = absurd (not_yet p w h)

      clear : (j : Bytes) (w : V) → HoldsAt g s j w → j ≡ k
      clear j w h = absurd (free_holds (g.slots s) j w free (h.1))

      inv :
          (p : ℕ) (j : Bytes) (w : V)
          → HoldsAt new p j w
          → ((s ≡ p) × (k ≡ j) × (v ≡ w)) ⊎ (((s == p) ≡ false) × HoldsAt g p j w)
      inv = put_inv g m.valid_new s k v (g.count + 1) (g.used + 1) lt reached only clear

      new-IsValid : IsValid new
      new-IsValid =
          let not_filled : is_filled (g.slots s) ≡ false = m.clean s ∙ free in
          put-IsValid g m.valid_new s k v (g.count + 1) (g.used + 1) lt reached only clear
            (ground (
              arith,
              m.valid_new.counted,
              count_below-update is_used g.slots g.capacity s (occupied k v) lt,
            ))
            (ground (
              arith,
              m.valid_new.filled,
              count_below-update is_filled g.slots g.capacity s (occupied k v) lt,
            ))
            (omega (arith, fits_new, m.same_capacity))

      elsewhere_free : (p : ℕ) (j : Bytes) (w : V) → HoldsAt g p j w → (s == p) ≡ false
      elsewhere_free p j w h = elim (Bool-cases (s == p)) [
        | inl q ↦ absurd (free_holds (g.slots s) j w free (rw (==→eq s p q) (h.1)))
        | inr q ↦ q
      ]

      new-Moved : Moved (suc i) new
      new-Moved = record {
        valid_new = new-IsValid;
        same_capacity = m.same_capacity;
        counts = rw at_i (omega (arith, m.counts));
        count_used = omega (arith, m.count_used);
        clean = λ p. ground (arith, m.clean p);
        there = λ j k' v' less h. elim (Bool-cases (i == j)) [
          | inl q ↦
              let here : t.slots i ≡ occupied k' v' = rw (==→eq i j q) h in
              let both : occupied k v ≡ occupied k' v' = cc (at_i, here) in (s, (lt, ground arith))
          | inr q ↦
              let (p, h') = m.there j k' v' (ground arith) h in
              (
                p,
                old_holds g m.valid_new s k v (g.count + 1) (g.used + 1) lt reached only clear p k'
                    v' (elsewhere_free p k' v' h') h',
              )
        ];
        back = λ p k' v' h. elim (inv p k' v' h) [
          | inl (_, same, same') ↦ (i, omega arith, cc)
          | inr (_, old) ↦ let (j, less, at) = m.back p k' v' old in (j, omega arith, at)
        ];
      }

    -- The pair of slot `i` moves.
    place : (g' : Table V) × (move_slot (occupied k v) g ≡ some g') × Moved (suc i) g'
    place = elim (find_cases g m.valid_new k) [
      | inl (p, w, h, eq) ↦ absurd (not_yet p w h)
      | inr (s, eq, lt, free, reached, nowhere) ↦
          (new s lt free reached, rw eq, new-Moved s lt free reached)
    ]

  step :
      (i : ℕ) (g : Table V)
      → i < t.capacity
      → Moved i g
      → (g' : Table V) × (move_slot (t.slots i) g ≡ some g') × Moved (suc i) g'
  step i g lt m = elim (Slot-cases (t.slots i)) [
    | inl e ↦ (g, rw e, skip i g (rw e) m)
    | inr (inl e) ↦ (g, rw e, skip i g (rw e) m)
    | inr (inr (k, v, e)) ↦ rw e (place i g m k v lt e)
  ]

  move_all-Moved :
      (rounds i : ℕ) (g : Table V)
      → i + rounds ≡ t.capacity
      → Moved i g
      → (g' : Table V) × (move_all t.slots rounds i g ≡ some g') × Moved t.capacity g'
  unfolding move_all
  move_all-Moved zero i g total m = (g, refl, subst (λ n. Moved n g) (omega arith) m)
  move_all-Moved (suc rounds) i g total m =
      let (g₁, eq, m₁) = step i g (omega arith) m in
      rw eq (move_all-Moved rounds (i + 1) g₁ (omega arith) (rw add-one m₁))

  start : Moved 0 (map_alloc capacity)
  unfolding map_alloc
  start = record {
    valid_new = map_alloc-IsValid capacity size;
    same_capacity = refl;
    counts = refl;
    count_used = refl;
    clean = λ p. refl;
    there = λ j k v lt h. absurd (omega arith);
    back = λ p k v h. absurd (no_pair capacity p k v h);
  }

  Moved-Resized : (g : Table V) → Moved t.capacity g → Resized t capacity g
  Moved-Resized g m = record {
    valid_after = m.valid_new;
    capacity_after = m.same_capacity;
    count_after = omega (arith, m.count_used, m.counts, valid.counted);
    used_after = omega (arith, m.counts, valid.counted);
    value_after = λ k.
        value_same valid m.valid_new k (λ i v h. m.there i k v h.0 (h.1))
          (λ nowhere p v h. let (j, lt, at) = m.back p k v h in nowhere j v (lt, at));
  }

  -- A rehash of a well-formed table into a capacity of at least 8 that keeps the load below three
  -- quarters succeeds when the allocator gives memory: the new table is well formed, holds the same
  -- value under every key, has the same count, and has no tombstones.
  pub map_resize-Resized :
      (u : Table V) × (map_resize true t capacity ≡ some u) × Resized t capacity u
  unfolding map_resize
  map_resize-Resized =
      let (g, eq, m) = move_all-Moved t.capacity 0 (map_alloc capacity) (omega arith) start in
      (g, eq, Moved-Resized g m)
