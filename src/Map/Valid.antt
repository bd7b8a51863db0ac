-- ===== src/Map/Valid.antt =====
-- The invariant of the hash table, and what map_find_slot returns under it.
use fex.Common.{
  ℕ, ◌+◌, ◌-◌, ◌*◌, ◌%◌, ◌≤◌, ◌<◌, ◌≡◌, ◌⊎◌, inl, inr, true, false, none, some, arith, Bytes,
  Bool-cases, count_below, count_below_gap, leb,
}
use fex.Map.{Slot, empty, occupied, Table, is_used, is_filled, probe, map_find_slot, Found}
use fex.Map.Hash.{hash_string}
use fex.Map.Probe.{Reached, probe_sound, probe_complete, probe_fresh, Slot-cases}

-- Where the walk for a key starts.
abbrev pub home : Bytes → ℕ → ℕ
home k capacity = hash_string k % capacity

module _ {V : Type 0} where
  abbrev pub HoldsAt : Table V → ℕ → Bytes → V → Type 0
  HoldsAt t i k v = (i < t.capacity) × (t.slots i ≡ occupied k v)

  -- The slots below the capacity bear out the two counters, one slot at least is empty, the walk
  -- for a key comes to the slot that holds it, and no two slots hold one key.
  pub record IsValid (t : Table V) : Type 0 where
    pub size : 8 ≤ t.capacity
    pub counted : t.count ≡ count_below is_used t.slots t.capacity
    pub filled : t.used ≡ count_below is_filled t.slots t.capacity
    pub room : t.used * 4 < t.capacity * 3
    pub reach :
        (i : ℕ) (k : Bytes) (v : V)
        → HoldsAt t i k v
        → Reached t.slots t.capacity (home k t.capacity) i
    pub unique : (i j : ℕ) (k : Bytes) (v w : V) → HoldsAt t i k v → HoldsAt t j k w → i ≡ j

  abbrev pub Nowhere : Table V → Bytes → Type 0
  Nowhere t k = (i : ℕ) (v : V) → HoldsAt t i k v → ⊥

  -- The key stands in the slot that is returned.
  abbrev pub Hit : Table V → Bytes → Type 0
  Hit t k = (i : ℕ) × (v : V) × HoldsAt t i k v × (map_find_slot t k ≡ (some i, true))

  -- The key stands nowhere, and the slot that is returned can take it.
  abbrev pub Miss : Table V → Bytes → Type 0
  Miss t k =
      (i : ℕ) × (map_find_slot t k ≡ (some i, false))
      × (i < t.capacity)
      × (is_used (t.slots i) ≡ false)
      × Reached t.slots t.capacity (home k t.capacity) i
      × Nowhere t k

distance : (h i c : ℕ) → h < c → i < c → (n : ℕ) × (n < c) × ((h + n) % c ≡ i)
distance h i c p q = elim (Bool-cases (leb h i)) [
  | inl e ↦ (i - h, ground arith, grind arith)
  | inr e ↦ (i + c - h, ground arith, grind arith)
]

not_filled→empty : {V : Type 0} (x : Slot V) → is_filled x ≡ false → x ≡ empty
not_filled→empty x h = elim (Slot-cases x) [
  | inl e ↦ e
  | inr (inl e) ↦ let bad : true ≡ false = rw e at h in cc
  | inr (inr (k, v, e)) ↦ let bad : true ≡ false = rw e at h in cc
]

module _ {V : Type 0} (t : Table V) (valid : IsValid t) (k : Bytes) where
  abbrev walk : Found
  walk = probe t.slots t.capacity k (home k t.capacity) t.capacity 0 none

  find_slot-probe : map_find_slot t k ≡ walk
  unfolding map_find_slot
  find_slot-probe = let positive : leb t.capacity 0 ≡ false = ground arith in rw positive

  not_found-Nowhere : walk.1 ≡ false → Nowhere t k
  not_found-Nowhere e i v h =
      let (n, lt, at, full) = valid.reach i k v h in
      let found : walk.1 ≡ true =
        probe_complete t.slots t.capacity (home k t.capacity) k t.capacity 0 none n v (omega arith)
          (omega arith) (rw at h.1) full in
      cc

  -- On a well-formed table map_find_slot either finds a slot that holds the key, or returns a slot
  -- that is not in use and that the walk for the key reaches, for a key that stands nowhere.
  pub find_cases : Hit t k ⊎ Miss t k
  find_cases = rw find_slot-probe (elim (Bool-cases walk.1) [
    | inl e ↦
        let (j, lt, eq, holds) =
          probe_sound t.slots t.capacity (home k t.capacity) k t.capacity 0 none (omega arith) e in
        inl (j, holds.0, (lt, holds.1), eq)
    | inr e ↦
        let nowhere = not_found-Nowhere e in
        let (i, lt, gap) =
          count_below_gap is_filled t.slots t.capacity (omega (arith, valid.filled, valid.room)) in
        let (n, n_lt, at) = distance (home k t.capacity) i t.capacity (omega arith) lt in
        let (j, eq, free) =
          probe_fresh t.slots t.capacity (home k t.capacity) k t.capacity 0 none n
            (λ j lt' (w, h). nowhere j w (lt', h)) tt (λ s h. absurd (omega arith)) (omega arith)
            (omega arith) (omega arith) (rw at (not_filled→empty (t.slots i) gap)) in
        inr (j, eq, free.0, free.1, free.2, nowhere)
  ])

  -- A key that stands somewhere is found there.
  pub find_hit : (i : ℕ) (v : V) → HoldsAt t i k v → map_find_slot t k ≡ (some i, true)
  find_hit i v h = elim find_cases [
    | inl (j, w, h', eq) ↦ rw (valid.unique i j k v w h h') eq
    | inr (j, eq, lt, free, reached, nowhere) ↦ absurd (nowhere i v h)
  ]

  -- A key that stands nowhere is not found.
  pub find_miss : Nowhere t k → (map_find_slot t k).1 ≡ false
  find_miss nowhere = elim find_cases [
    | inl (j, w, h', eq) ↦ absurd (nowhere j w h')
    | inr (j, eq, lt, free, reached, _) ↦ rw eq
  ]
