-- ===== src/Map/Slots.antt =====
-- A write to one slot: what it does to the invariant and to the value of every key.
use fex.Common.{
  ℕ, ◌-◌, ◌*◌, ◌<◌, ◌≡◌, refl, sym, ◌∙◌, ◌⊎◌, inl, inr, Bool, true, false, Option, none, some,
  arith, Bytes, bytes_eq, bytes_eq_sound, bytes_eq_refl, ◌==◌, ==→eq, if◌then◌else◌, Bool-cases,
  update, count_below, count_below-update,
}
use mathlib.Core.Path.{subst}
use fex.Map.{Slot, occupied, tombstone, Table, is_used, is_filled, map_find_slot, value_at}
use fex.Map.Probe.{Reached}
use fex.Map.Valid.{home, HoldsAt, IsValid, Nowhere, find_cases, find_hit, find_miss}

module _ {V : Type 0} where
  -- What a map holds under a key.
  unfoldable pub value : Table V → Bytes → Option V
  value t k = value_at t (map_find_slot t k)

  pub value_held :
      {t : Table V} → IsValid t → (k : Bytes) (i : ℕ) (v : V) → HoldsAt t i k v → value t k ≡ some v
  unfolding value
  value_held {t} valid k i v h = rw (find_hit t valid k i v h, h.1)

  not_found-value : (t : Table V) (k : Bytes) → (map_find_slot t k).1 ≡ false → value t k ≡ none
  unfolding value
  not_found-value t k e = go (map_find_slot t k) e
    where
      go : (r : Option ℕ × Bool) → r.1 ≡ false → value_at t r ≡ none
      go (none, b) e = refl
      go (some i, true) e = cc
      go (some i, false) e = refl

  pub value-Nowhere : {t : Table V} → IsValid t → (k : Bytes) → Nowhere t k → value t k ≡ none
  value-Nowhere {t} valid k nowhere = not_found-value t k (find_miss t valid k nowhere)

  -- Two valid tables that hold the same value under a key, or neither any.
  pub value_same :
      {t u : Table V}
      → IsValid t
      → IsValid u
      → (k : Bytes) → ((i : ℕ) (v : V) → HoldsAt t i k v → (j : ℕ) × HoldsAt u j k v)
      → (Nowhere t k → Nowhere u k)
      → value u k ≡ value t k
  value_same {t} {u} vt vu k there nowhere = elim (find_cases t vt k) [
    | inl (i, v, h, eq) ↦
        let (j, h') = there i v h in value_held vu k j v h' ∙ sym (value_held vt k i v h)
    | inr (i, eq, lt, free, reached, none_t) ↦
        value-Nowhere vu k (nowhere none_t) ∙ sym (value-Nowhere vt k none_t)
  ]

-- A slot that counts as filled before and after keeps what is reached.
Reached-update :
    {V : Type 0} (slots : ℕ → Slot V) (s : ℕ) (x : Slot V) (capacity index j : ℕ)
    → is_filled x ≡ true
    → Reached slots capacity index j
    → Reached (update slots s x) capacity index j
Reached-update slots s x capacity index j keep (n, lt, at, full) =
    (n, lt, at, λ p h. ground (arith, full p h, keep))

bytes_ne : (k j : Bytes) → bytes_eq k j ≡ false → k ≡ j → ⊥
bytes_ne k j e same =
    let bad : bytes_eq k k ≡ false = subst (λ x. bytes_eq k x ≡ false) (sym same) e in
    cc (bytes_eq_refl k)

-- Slot `s` of a valid table is given the key `k`, which no other slot holds.
module _ {V : Type 0} (t : Table V) (valid : IsValid t) (s : ℕ) (k : Bytes) (v : V) (c u : ℕ)
    (lt : s < t.capacity) (reached : Reached t.slots t.capacity (home k t.capacity) s)
    (only : (i : ℕ) (w : V) → HoldsAt t i k w → i ≡ s)
    (clear : (j : Bytes) (w : V) → HoldsAt t s j w → j ≡ k) where
  abbrev pub put : Table V
  put = record t { slots = update t.slots s (occupied k v); count = c; used = u }

  pub put_holds : HoldsAt put s k v
  put_holds = (lt, ground arith)

  -- What stands in the table after the write: the new pair, or a pair from before.
  pub put_inv :
      (i : ℕ) (j : Bytes) (w : V)
      → HoldsAt put i j w
      → ((s ≡ i) × (k ≡ j) × (v ≡ w)) ⊎ ((s == i ≡ false) × HoldsAt t i j w)
  put_inv i j w h = elim (Bool-cases (s == i)) [
    | inl e ↦ let eq : occupied k v ≡ occupied j w = rw e at (h.1) in inl (==→eq s i e, cc, cc)
    | inr e ↦ inr (e, (h.0, rw e at (h.1)))
  ]

  pub old_holds :
      (i : ℕ) (j : Bytes) (w : V) → (s == i) ≡ false → HoldsAt t i j w → HoldsAt put i j w
  old_holds i j w e h = (h.0, rw e (h.1))

  put-reach :
      (i : ℕ) (j : Bytes) (w : V)
      → HoldsAt put i j w
      → Reached put.slots t.capacity (home j t.capacity) i
  put-reach i j w h = elim (put_inv i j w h) [
    | inl (at, same, _) ↦
        rw (← at, ← same) (Reached-update t.slots s (occupied k v) t.capacity _ s refl reached)
    | inr (ne, old) ↦
        Reached-update t.slots s (occupied k v) t.capacity _ i refl (valid.reach i j w old)
  ]

  put_unique : (i i' : ℕ) (j : Bytes) (w w' : V) → HoldsAt put i j w → HoldsAt put i' j w' → i ≡ i'
  put_unique i i' j w w' h h' = elim (put_inv i j w h) [
    | inl (at, same, _) ↦ elim (put_inv i' j w' h') [
      | inl (at', _, _) ↦ omega arith
      | inr (ne, old) ↦ omega (arith, only i' w' (rw same old))
    ]
    | inr (ne, old) ↦ elim (put_inv i' j w' h') [
      | inl (at, same, _) ↦ omega (arith, only i w (rw same old))
      | inr (ne', old') ↦ valid.unique i i' j w w' old old'
    ]
  ]

  -- The write keeps the invariant if the counters are set to what the slots bear out.
  pub put-IsValid :
      c ≡ count_below is_used put.slots t.capacity
      → u ≡ count_below is_filled put.slots t.capacity
      → u * 4 < t.capacity * 3
      → IsValid put
  put-IsValid counted filled room = record {
    size = valid.size;
    counted = counted;
    filled = filled;
    room = room;
    reach = put-reach;
    unique = put_unique;
  }

  elsewhere :
      (j : Bytes) (i : ℕ) (w : V) → bytes_eq k j ≡ false → HoldsAt t i j w → (s == i) ≡ false
  elsewhere j i w e h = elim (Bool-cases (s == i)) [
    | inl q ↦ absurd (bytes_ne k j e (sym (clear j w (rw (==→eq s i q) h))))
    | inr q ↦ q
  ]

  -- The value under every key after the write.
  pub value-put :
      IsValid put → (j : Bytes) → value put j ≡ (if bytes_eq k j then some v else value t j)
  value-put valid' j = elim (Bool-cases (bytes_eq k j)) [
    | inl e ↦ rw (← bytes_eq_sound k j e, bytes_eq_refl k) (value_held valid' k s v put_holds)
    | inr e ↦ rw e (
        value_same valid valid' j (λ i w h. (i, old_holds i j w (elsewhere j i w e h) h))
          (λ nowhere i w h. elim (put_inv i j w h) [
            | inl (at, same, _) ↦ bytes_ne k j e same
            | inr (ne, old) ↦ nowhere i w old
          ]))
  ]

-- Slot `s` of a valid table, which holds the key `k`, becomes a tombstone.
module _ {V : Type 0} (t : Table V) (valid : IsValid t) (s : ℕ) (k : Bytes) (v : V)
    (held : HoldsAt t s k v) where
  abbrev pub removed : Table V
  removed = record t { slots = update t.slots s tombstone; count = t.count - 1 }

  removed_inv :
      (i : ℕ) (j : Bytes) (w : V) → HoldsAt removed i j w → ((s == i) ≡ false) × HoldsAt t i j w
  removed_inv i j w h = elim (Bool-cases (s == i)) [
    | inl e ↦ let bad : tombstone ≡ occupied j w = rw e at (h.1) in cc
    | inr e ↦ (e, (h.0, rw e at (h.1)))
  ]

  pub removed-IsValid : IsValid removed
  removed-IsValid = record {
    size = valid.size;
    counted =
        let is : is_used (t.slots s) ≡ true = rw (held.1) in
        ground
          (arith, count_below-update is_used t.slots t.capacity s tombstone held.0, valid.counted);
    filled =
        let is : is_filled (t.slots s) ≡ true = rw (held.1) in
        ground
          (arith, count_below-update is_filled t.slots t.capacity s tombstone held.0, valid.filled);
    room = valid.room;
    reach = λ i j w h.
        let (ne, old) = removed_inv i j w h in
        Reached-update t.slots s tombstone t.capacity _ i refl (valid.reach i j w old);
    unique = λ i i' j w w' h h'.
        valid.unique i i' j w w' (removed_inv i j w h).1 (removed_inv i' j w' h').1;
  }

  other : (j : Bytes) (i : ℕ) (w : V) → bytes_eq k j ≡ false → HoldsAt t i j w → (s == i) ≡ false
  other j i w e h = elim (Bool-cases (s == i)) [
    | inl q ↦
        let here : t.slots s ≡ occupied j w = rw (==→eq s i q) (h.1) in
        let both : occupied k v ≡ occupied j w = cc (held.1, here) in absurd (bytes_ne k j e (cc))
    | inr q ↦ q
  ]

  -- The value under every key after the removal.
  pub value-removed : (j : Bytes) → value removed j ≡ (if bytes_eq k j then none else value t j)
  value-removed j = elim (Bool-cases (bytes_eq k j)) [
    | inl e ↦
        rw (← bytes_eq_sound k j e, bytes_eq_refl k)
          (value-Nowhere removed-IsValid k λ i w h.
            let (ne, old) = removed_inv i k w h in ground (arith, valid.unique i s k w v old held))
    | inr e ↦ rw e (
        value_same valid removed-IsValid j (λ i w h. (i, (h.0, rw (other j i w e h) (h.1))))
          (λ nowhere i w h. nowhere i w (removed_inv i j w h).1))
  ]
