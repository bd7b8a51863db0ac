-- ===== src/Map/Keys.antt =====
-- fe_map_keys and fe_map_has against the value of each key.
use fex.Common.{
  ℕ, zero, suc, ◌+◌, ◌<◌, ◌≡◌, refl, ap, inl, inr, Bool, true, false, List, [], ◌∷◌, arith, Bytes,
  bytes_eq, bytes_eq_sound, bytes_eq_refl, if◌then◌else◌, Bool-cases, count_below, length, ◌==◌,
  ==→eq,
}
use fex.Map.{
  Slot, occupied, Table, Object, map_object, ok, is_used, normalize_map_key, fe_map_has,
  fe_map_keys, fe_map_count, keys_below, map_find_slot,
}
use fex.Map.Probe.{Slot-cases}
use fex.Map.Valid.{HoldsAt, IsValid, find_cases}
use fex.Map.Slots.{value, value_held, value-Nowhere}
use fex.Map.Laws.{held}

-- How often a key stands in a list of keys.
abbrev pub occurrences : Bytes → List Bytes → ℕ
occurrences k [] = 0
occurrences k (j ∷ js) = (if bytes_eq j k then 1 else 0) + occurrences k js

false_of_ne : (b : Bool) → (b ≡ true → ⊥) → b ≡ false
false_of_ne true h = absurd (h refl)
false_of_ne false h = refl

count_below_zero :
    {A : Type 0} (p : A → Bool) (f : ℕ → A) (n : ℕ)
    → ((i : ℕ) → i < n → p (f i) ≡ false)
    → count_below p f n ≡ 0
count_below_zero p f zero h = refl
count_below_zero p f (suc n) h =
    ground (arith, h n (omega arith), count_below_zero p f n (λ i lt. h i (omega arith)))

count_below_once :
    {A : Type 0} (p : A → Bool) (f : ℕ → A) (n i : ℕ)
    → i < n
    → p (f i) ≡ true
    → ((j : ℕ) → j < n → p (f j) ≡ true → j ≡ i)
    → count_below p f n ≡ 1
count_below_once p f zero i lt e only = absurd (omega arith)
count_below_once p f (suc n) i lt e only = elim (Bool-cases (i == n)) [
  | inl q ↦
      let at_n : p (f n) ≡ true = rw (← ==→eq i n q) e in
      let rest = count_below_zero p f n (λ j less.
        false_of_ne (p (f j)) (λ h. omega (arith, only j (omega arith) h, ==→eq i n q))) in
      ground (arith, at_n, rest)
  | inr q ↦
      let rest = count_below_once p f n i (ground arith) e (λ j less h. only j (omega arith) h) in
      let not_n : p (f n) ≡ false =
        false_of_ne (p (f n)) (λ h. ground (arith, only n (omega arith) h)) in
      ground (arith, not_n, rest)
]

module _ {V : Type 0} where
  abbrev slot_is : Bytes → Slot V → Bool
  slot_is k (occupied j v) = bytes_eq j k
  slot_is k _ = false

  keys_below-occurrences :
      (k : Bytes) (slots : ℕ → Slot V) (n : ℕ) (result : List Bytes)
      → occurrences k (keys_below slots n result)
        ≡ count_below (slot_is k) slots n + occurrences k result
  unfolding keys_below
  keys_below-occurrences k slots zero result = omega arith
  keys_below-occurrences k slots (suc n) result = elim (Slot-cases (slots n)) [
    | inl e ↦ rw e (omega (arith, keys_below-occurrences k slots n result))
    | inr (inl e) ↦ rw e (omega (arith, keys_below-occurrences k slots n result))
    | inr (inr (j, v, e)) ↦ rw e (omega (arith, keys_below-occurrences k slots n (j ∷ result)))
  ]

  keys_below-length :
      (slots : ℕ → Slot V) (n : ℕ) (result : List Bytes)
      → length (keys_below slots n result) ≡ count_below is_used slots n + length result
  unfolding keys_below
  keys_below-length slots zero result = omega arith
  keys_below-length slots (suc n) result = elim (Slot-cases (slots n)) [
    | inl e ↦ rw e (omega (arith, keys_below-length slots n result))
    | inr (inl e) ↦ rw e (omega (arith, keys_below-length slots n result))
    | inr (inr (j, v, e)) ↦ rw e (omega (arith, keys_below-length slots n (j ∷ result)))
  ]

  slot_is-holds :
      (t : Table V) (i : ℕ) (k : Bytes)
      → i < t.capacity
      → slot_is k (t.slots i) ≡ true
      → (v : V) × HoldsAt t i k v
  slot_is-holds t i k lt h = elim (Slot-cases (t.slots i)) [
    | inl e ↦ let bad : false ≡ true = rw e at h in cc
    | inr (inl e) ↦ let bad : false ≡ true = rw e at h in cc
    | inr (inr (j, v, e)) ↦
        let same : bytes_eq j k ≡ true = rw e at h in (v, (lt, rw (← bytes_eq_sound j k same) e))
  ]

  count_slots :
      (t : Table V) (k : Bytes)
      → IsValid t
      → count_below (slot_is k) t.slots t.capacity ≡ (if held (value t k) then 1 else 0)
  count_slots t k valid = elim (find_cases t valid k) [
    | inl (i, w, h, eq) ↦ rw (value_held valid k i w h) (
        count_below_once (slot_is k) t.slots t.capacity i h.0 (rw (h.1) (bytes_eq_refl k))
          (λ j lt e. let (v, h') = slot_is-holds t j k lt e in valid.unique j i k v w h' h))
    | inr (i, eq, lt, free, reached, nowhere) ↦ rw (value-Nowhere valid k nowhere) (
        count_below_zero (slot_is k) t.slots t.capacity (λ j lt'.
          false_of_ne (slot_is k (t.slots j))
            (λ e. let (v, h') = slot_is-holds t j k lt' e in nowhere j v h')))
  ]

  found-held : (t : Table V) (k : Bytes) → IsValid t → (map_find_slot t k).1 ≡ held (value t k)
  found-held t k valid = elim (find_cases t valid k) [
    | inl (i, w, h, eq) ↦ rw (eq, value_held valid k i w h)
    | inr (i, eq, lt, free, reached, nowhere) ↦ rw (eq, value-Nowhere valid k nowhere)
  ]

  -- On a well-formed map fe_map_keys lists every key of the map once and nothing else, its length
  -- is fe_map_count, and fe_map_has says whether a symbol or string is listed.
  pub fe_map_keys_lem :
      (t : Table V) (key : Object V) (k : Bytes)
      → IsValid t
      → normalize_map_key key ≡ ok k
      → (keys : List Bytes) × (fe_map_keys (map_object t) ≡ ok keys)
        × (fe_map_count (map_object t) ≡ ok (length keys))
        × (fe_map_has (map_object t) key ≡ ok (held (value t k)))
        × (occurrences k keys ≡ (if held (value t k) then 1 else 0))
  unfolding fe_map_keys fe_map_count fe_map_has
  fe_map_keys_lem t key k valid eq = (
    keys_below t.slots t.capacity [],
    refl,
    ap ok (omega (arith, keys_below-length t.slots t.capacity [], valid.counted)),
    rw eq (ap ok (found-held t k valid)),
    omega (arith, keys_below-occurrences k t.slots t.capacity [], count_slots t k valid),
  )
