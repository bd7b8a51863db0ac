-- ===== src/Map/Laws.antt =====
-- The map operations against a finite map: what fe_map_get sees after fe_map_set and fe_map_delete.
use fex.Common.{
  ℕ, ◌+◌, ◌-◌, ◌*◌, ◌<◌, ◌≡◌, refl, inl, inr, Bool, true, false, Option, none, some, arith, Bytes,
  bytes_eq, bytes_eq_sound, if◌then◌else◌, Bool-cases, update, count_below, count_below-update,
}
use fex.Map.{
  occupied, tombstone, Table, Object, map_object, ok, is_used, is_filled, normalize_map_key,
  fe_map_set, fe_map_get, fe_map_delete, write_slot, map_find_slot,
}
use fex.Map.Valid.{home, HoldsAt, IsValid, Nowhere, find_cases}
use fex.Map.Probe.{Reached, Slot-cases}
use fex.Map.Slots.{
  value, put-IsValid, value-put, removed, removed-IsValid, value-removed, value_held, value-Nowhere,
}
use fex.Map.Capacity.{map_ensure_capacity-Ready}

if_ok : {A : Type 0} (b : Bool) (x y : A) → ok (if b then x else y) ≡ (if b then ok x else ok y)
if_ok true x y = refl
if_ok false x y = refl

module _ {V : Type 0} where
  -- Whether a key is held.
  abbrev pub held : Option V → Bool
  held none = false
  held (some v) = true

  -- `u` is `t` with `v` put under `k`.
  pub record Stored (t : Table V) (k : Bytes) (v : V) (u : Table V) : Type 0 where
    pub valid : IsValid u
    pub values : (j : Bytes) → value u j ≡ (if bytes_eq k j then some v else value t j)
    pub counts : u.count ≡ t.count + (if held (value t k) then 0 else 1)

  -- The key stands in slot `i`: only the value is written.
  overwrite-Stored :
      (t : Table V) (k : Bytes) (v w : V) (i : ℕ)
      → IsValid t
      → HoldsAt t i k w
      → Stored t k v (write_slot t i true k v)
  unfolding write_slot
  overwrite-Stored t k v w i valid h = record {
    valid = new_valid;
    values = value-put t valid i k v t.count t.used h.0 (valid.reach i k w h) only clear new_valid;
    counts = rw (value_held valid k i w h) (omega arith);
  }
    where
      only : (p : ℕ) (w' : V) → HoldsAt t p k w' → p ≡ i
      only p w' h' = valid.unique p i k w' w h' h

      clear : (j : Bytes) (w' : V) → HoldsAt t i j w' → j ≡ k
      clear j w' h' = let both : occupied j w' ≡ occupied k w = cc (h.1, h'.1) in cc

      used_before : is_used (t.slots i) ≡ true
      used_before = rw (h.1)

      filled_before : is_filled (t.slots i) ≡ true
      filled_before = rw (h.1)

      new_valid : IsValid (record t { slots = update t.slots i (occupied k v) })
      new_valid =
          put-IsValid t valid i k v t.count t.used h.0 (valid.reach i k w h) only clear
            (ground (
              arith,
              used_before,
              valid.counted,
              count_below-update is_used t.slots t.capacity i (occupied k v) h.0,
            ))
            (ground (
              arith,
              filled_before,
              valid.filled,
              count_below-update is_filled t.slots t.capacity i (occupied k v) h.0,
            ))
            valid.room

  -- The key stands nowhere, and slot `i` is free: `used` grows only if it was empty.
  fresh-Stored :
      (t : Table V) (k : Bytes) (v : V) (i : ℕ)
      → IsValid t
      → (t.used + 1) * 4 < t.capacity * 3
      → i < t.capacity
      → is_used (t.slots i) ≡ false
      → Reached t.slots t.capacity (home k t.capacity) i
      → Nowhere t k
      → Stored t k v (write_slot t i false k v)
  unfolding write_slot
  fresh-Stored t k v i valid fits lt free reached nowhere = elim (Slot-cases (t.slots i)) [
    | inl e ↦ rw e (
        done (t.used + 1)
          (ground (
            arith,
            e,
            valid.filled,
            count_below-update is_filled t.slots t.capacity i (occupied k v) lt,
          ))
          fits)
    | inr (inl e) ↦ rw e (
        done t.used
          (ground (
            arith,
            e,
            valid.filled,
            count_below-update is_filled t.slots t.capacity i (occupied k v) lt,
          ))
          (omega arith))
    | inr (inr (j, w, e)) ↦ let bad : is_used (occupied j w) ≡ false = rw e at free in cc
  ]
    where
      only : (p : ℕ) (w' : V) → HoldsAt t p k w' → p ≡ i
      only p w' h' = absurd (nowhere p w' h')

      clear : (j : Bytes) (w' : V) → HoldsAt t i j w' → j ≡ k
      clear j w' h' = let bad : is_used (occupied j w') ≡ false = rw (h'.1) at free in cc

      done :
          (u : ℕ)
          → u ≡ count_below is_filled (update t.slots i (occupied k v)) t.capacity
          → u * 4 < t.capacity * 3
          → Stored t k v
              (record t { slots = update t.slots i (occupied k v); count = t.count + 1; used = u })
      done u filled room =
          let new_valid =
            put-IsValid t valid i k v (t.count + 1) u lt reached only clear
              (ground (
                arith,
                free,
                valid.counted,
                count_below-update is_used t.slots t.capacity i (occupied k v) lt,
              ))
              filled room in
          record {
            valid = new_valid;
            values = value-put t valid i k v (t.count + 1) u lt reached only clear new_valid;
            counts = rw (value-Nowhere valid k nowhere);
          }

  write_slot-Stored :
      (t : Table V) (k : Bytes) (v : V)
      → IsValid t
      → (t.used + 1) * 4 < t.capacity * 3
      → (i : ℕ) × ((map_find_slot t k).0 ≡ some i)
        × Stored t k v (write_slot t i (map_find_slot t k).1 k v)
  write_slot-Stored t k v valid fits = elim (find_cases t valid k) [
    | inl (i, w, h, eq) ↦ (i, rw eq, rw eq (overwrite-Stored t k v w i valid h))
    | inr (i, eq, lt, free, reached, nowhere) ↦
        (i, rw eq, rw eq (fresh-Stored t k v i valid fits lt free reached nowhere))
  ]

  -- On a well-formed map, for a key that is a symbol or a string, and when the allocator gives
  -- memory, fe_map_set succeeds, keeps the map well formed, changes the value of its own key only,
  -- and raises the count exactly if the key was new.
  pub fe_map_set-Stored :
      (t : Table V) (key : Object V) (k : Bytes) (v : V)
      → IsValid t
      → normalize_map_key key ≡ ok k
      → (u : Table V) × (fe_map_set true (map_object t) key v ≡ ok u) × Stored t k v u
  unfolding fe_map_set
  fe_map_set-Stored t key k v valid eq =
      let (t', ready_eq, ready) = map_ensure_capacity-Ready t valid in
      let (i, slot_eq, s) = write_slot-Stored t' k v ready.valid ready.fits in
      (
        write_slot t' i (map_find_slot t' k).1 k v,
        rw (eq, ready_eq, slot_eq),
        record {
          valid = s.valid;
          values = λ j. rw (s.values j, ready.same_value j);
          counts = rw (s.counts, ready.same_count, ready.same_value k);
        },
      )

  -- fe_map_get reads the value of the key that it is given.
  pub fe_map_get-value :
      (t : Table V) (key : Object V) (k : Bytes)
      → normalize_map_key key ≡ ok k
      → fe_map_get (map_object t) key ≡ ok (value t k)
  unfolding fe_map_get value
  fe_map_get-value t key k eq = rw eq

  -- On a well-formed map, for keys that are symbols or strings, and when the allocator gives
  -- memory, fe_map_set succeeds and leaves a well-formed map, in which fe_map_get returns the new
  -- value under the key that was set and what it returned before under every other key.
  pub get-set :
      (t : Table V) (key key' : Object V) (k j : Bytes) (v : V)
      → IsValid t
      → normalize_map_key key ≡ ok k
      → normalize_map_key key' ≡ ok j
      → (u : Table V) × (fe_map_set true (map_object t) key v ≡ ok u)
        × IsValid u
        × (fe_map_get (map_object u) key'
            ≡ (if bytes_eq k j then ok (some v) else fe_map_get (map_object t) key'))
  get-set t key key' k j v valid eq eq' =
      let (u, set_eq, s) = fe_map_set-Stored t key k v valid eq in
      (
        u,
        set_eq,
        s.valid,
        rw (fe_map_get-value u key' j eq', fe_map_get-value t key' j eq', s.values j)
            (if_ok (bytes_eq k j) (some v) (value t j)),
      )

  -- What fe_map_delete promises of the table and of its answer.
  pub record Removed (t : Table V) (k : Bytes) (u : Table V) (answer : Bool) : Type 0 where
    pub valid : IsValid u
    pub values : (j : Bytes) → value u j ≡ (if bytes_eq k j then none else value t j)
    pub counts : u.count + (if answer then 1 else 0) ≡ t.count
    pub answers : answer ≡ held (value t k)

  one_less :
      (t : Table V) (i : ℕ) (k : Bytes) (w : V)
      → IsValid t
      → HoldsAt t i k w
      → t.count - 1 + 1 ≡ t.count
  one_less t i k w valid h =
      let is : is_used (t.slots i) ≡ true = rw (h.1) in
      ground (arith, valid.counted, count_below-update is_used t.slots t.capacity i tombstone h.0)

  value_absent :
      (t : Table V) (k j : Bytes)
      → value t k ≡ none
      → value t j ≡ (if bytes_eq k j then none else value t j)
  value_absent t k j e = elim (Bool-cases (bytes_eq k j)) [
    | inl same ↦ let at_j : value t j ≡ none = rw (← bytes_eq_sound k j same) e in rw (same, at_j)
    | inr differ ↦ rw differ
  ]

  -- On a well-formed map, for a key that is a symbol or a string, fe_map_delete succeeds, keeps the
  -- map well formed, removes its own key only, says whether the key was there, and lowers the count
  -- exactly then.
  pub fe_map_delete-Removed :
      (t : Table V) (key : Object V) (k : Bytes)
      → IsValid t
      → normalize_map_key key ≡ ok k
      → (u : Table V) × (answer : Bool) × (fe_map_delete (map_object t) key ≡ ok (u, answer))
        × Removed t k u answer
  unfolding fe_map_delete
  fe_map_delete-Removed t key k valid eq = elim (find_cases t valid k) [
    | inl (i, w, h, found) ↦ (
      removed t valid i k w h,
      true,
      rw (eq, found),
      record {
        valid = removed-IsValid t valid i k w h;
        values = value-removed t valid i k w h;
        counts = one_less t i k w valid h;
        answers = rw (value_held valid k i w h);
      },
    )
    | inr (i, found, lt, free, reached, nowhere) ↦ (
      t,
      false,
      rw (eq, found),
      record {
        valid = valid;
        values = λ j. value_absent t k j (value-Nowhere valid k nowhere);
        counts = omega arith;
        answers = rw (value-Nowhere valid k nowhere);
      },
    )
  ]
