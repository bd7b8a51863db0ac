-- ===== src/Map/Probe.antt =====
-- What the walk of map_find_slot returns, whatever the slot that it starts from.
use fex.Common.{
  ℕ, zero, suc, ◌+◌, ◌%◌, ◌≤◌, ◌<◌, ◌≡◌, refl, ◌⊎◌, inl, inr, true, false, Option, none, some,
  arith, Bytes, bytes_eq, bytes_eq_sound, bytes_eq_refl, Bool-cases,
}
use fex.Map.{Slot, empty, occupied, tombstone, is_used, is_filled, or_else, probe}

pub Slot-cases :
    {V : Type 0} (x : Slot V)
    → (x ≡ empty) ⊎ ((x ≡ tombstone) ⊎ ((k : Bytes) × (v : V) × (x ≡ occupied k v)))
Slot-cases empty = inl refl
Slot-cases (occupied k v) = inr (inr (k, v, refl))
Slot-cases tombstone = inr (inl refl)

split_le : (a b : ℕ) → a ≤ b → (a ≡ b) ⊎ (a + 1 ≤ b)
split_le a b h = grind arith

module _ {V : Type 0} (slots : ℕ → Slot V) (capacity : ℕ) (index : ℕ) where
  -- No empty slot stands before the walk from `index` comes to `j`.
  abbrev pub Reached : ℕ → Type 0
  Reached j =
      (n : ℕ) × (n < capacity)
      × ((index + n) % capacity ≡ j)
      × ((s : ℕ) → s < n → is_filled (slots ((index + s) % capacity)) ≡ true)

module _ {V : Type 0} (slots : ℕ → Slot V) (capacity : ℕ) (index : ℕ) (key : Bytes) where
  -- The slot that is examined after `s` steps.
  abbrev position : ℕ → ℕ
  position s = (index + s) % capacity

  abbrev pub HoldsKey : ℕ → Type 0
  HoldsKey j = (w : V) × (slots j ≡ occupied key w)

  -- A slot that can take the key.
  abbrev pub IsFree : ℕ → Type 0
  IsFree j = (j < capacity) × (is_used (slots j) ≡ false) × Reached slots capacity index j

  abbrev pub IsFirst : Option ℕ → Type 0
  IsFirst none = Unit
  IsFirst (some j) = IsFree j

  -- A key that is reported as found stands in the slot that is returned.
  pub probe_sound :
      (rounds steps : ℕ) (first : Option ℕ)
      → 0 < capacity
      → (probe slots capacity key index rounds steps first).1 ≡ true
      → (j : ℕ) × (j < capacity)
        × ((probe slots capacity key index rounds steps first) ≡ (some j, true))
        × HoldsKey j
  unfolding probe
  probe_sound zero steps first pos h = cc
  probe_sound (suc rounds) steps first pos h = elim (Slot-cases (slots (position steps))) [
    | inl e ↦ let bad : false ≡ true = rw e at h in cc
    | inr (inl e) ↦ rw e (probe_sound rounds (steps + 1) _ pos (rw e at h))
    | inr (inr (k, v, e)) ↦ elim (Bool-cases (bytes_eq k key)) [
      | inl same ↦
          (position steps, omega arith, rw (e, same), (v, rw (bytes_eq_sound k key same) at e))
      | inr other ↦ rw (e, other) (probe_sound rounds (steps + 1) first pos (rw (e, other) at h))
    ]
  ]

  -- A key is found if no empty slot stands before it.
  pub probe_complete :
      (rounds steps : ℕ) (first : Option ℕ) (n : ℕ) (v : V)
      → steps ≤ n
      → n < steps + rounds
      → slots (position n) ≡ occupied key v
      → ((s : ℕ) → s < n → is_filled (slots (position s)) ≡ true)
      → (probe slots capacity key index rounds steps first).1 ≡ true
  unfolding probe
  probe_complete zero steps first n v lo hi here full = absurd (omega arith)
  probe_complete (suc rounds) steps first n v lo hi here full =
      elim (Slot-cases (slots (position steps))) [
        | inl e ↦ elim (split_le steps n lo) [
          | inl q ↦ let here' : slots (position steps) ≡ occupied key v = rw q here in cc
          | inr less ↦ let bad : false ≡ true = rw e at (full steps (omega arith)) in cc
        ]
        | inr (inl e) ↦ elim (split_le steps n lo) [
          | inl q ↦ let here' : slots (position steps) ≡ occupied key v = rw q here in cc
          | inr less ↦ rw e (probe_complete rounds (steps + 1) _ n v less (omega arith) here full)
        ]
        | inr (inr (k, w, e)) ↦ elim (Bool-cases (bytes_eq k key)) [
          | inl same ↦ rw (e, same)
          | inr other ↦ elim (split_le steps n lo) [
            | inl q ↦
                let here' : slots (position steps) ≡ occupied key v = rw q here in
                let k_eq : k ≡ key = cc in
                let bad : bytes_eq key key ≡ false = rw k_eq at other in cc (bytes_eq_refl key)
            | inr less ↦
                rw (e, other)
                  (probe_complete rounds (steps + 1) first n v less (omega arith) here full)
          ]
        ]
      ]

  first-IsFree :
      (first : Option ℕ) (s : ℕ)
      → IsFirst first
      → IsFree s
      → (j : ℕ) × (or_else first s ≡ some j) × IsFree j
  first-IsFree none s ok free = (s, refl, free)
  first-IsFree (some j) s ok free = (j, refl, ok)

  or_else-IsFirst :
      (first : Option ℕ) (s : ℕ) → IsFirst first → IsFree s → IsFirst (or_else first s)
  or_else-IsFirst none s ok free = free
  or_else-IsFirst (some j) s ok free = ok

  filled_one_more :
      (n : ℕ)
      → ((s : ℕ) → s < n → is_filled (slots (position s)) ≡ true)
      → is_filled (slots (position n)) ≡ true
      → (s : ℕ) → s < n + 1
      → is_filled (slots (position s)) ≡ true
  filled_one_more n full last s h = elim (split_le s n (omega arith)) [
    | inl q ↦ rw q last
    | inr less ↦ full s (omega arith)
  ]

  passed :
      (steps n : ℕ)
      → steps ≤ n
      → slots (position n) ≡ empty
      → is_filled (slots (position steps)) ≡ true
      → steps + 1 ≤ n
  passed steps n lo here last = elim (split_le steps n lo) [
    | inl q ↦ let bad : false ≡ true = rw (q, here) at last in cc
    | inr less ↦ less
  ]

  -- A key that is nowhere is given a free slot, if an empty slot is on the way.
  pub probe_fresh :
      (rounds steps : ℕ) (first : Option ℕ) (n : ℕ)
      → ((j : ℕ) → j < capacity → HoldsKey j → ⊥)
      → IsFirst first
      → ((s : ℕ) → s < steps → is_filled (slots (position s)) ≡ true)
      → steps ≤ n
      → n < steps + rounds
      → steps + rounds ≡ capacity
      → slots (position n) ≡ empty
      → (j : ℕ) × (probe slots capacity key index rounds steps first ≡ (some j, false)) × IsFree j
  unfolding probe
  probe_fresh zero steps first n nowhere ok full lo hi total here = absurd (omega arith)
  probe_fresh (suc rounds) steps first n nowhere ok full lo hi total here =
      elim (Slot-cases (slots (position steps))) [
        | inl e ↦
            let (j, q, free) =
              first-IsFree first (position steps) ok
                (omega arith, rw e, (steps, omega arith, refl, full)) in
            (j, rw (e, q), free)
        | inr (inl e) ↦ rw e (
            probe_fresh rounds (steps + 1) (or_else first (position steps)) n nowhere
              (or_else-IsFirst first (position steps) ok
                (omega arith, rw e, (steps, omega arith, refl, full)))
              (filled_one_more steps full (rw e)) (passed steps n lo here (rw e)) (omega arith)
              (omega arith) here)
        | inr (inr (k, w, e)) ↦ elim (Bool-cases (bytes_eq k key)) [
          | inl same ↦
              absurd
                (nowhere (position steps) (omega arith) (w, rw (bytes_eq_sound k key same) at e))
          | inr other ↦
              rw (e, other)
                (probe_fresh rounds (steps + 1) first n nowhere ok
                  (filled_one_more steps full (rw e)) (passed steps n lo here (rw e)) (omega arith)
                  (omega arith) here)
        ]
      ]
