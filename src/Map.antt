-- ===== src/Map.antt =====
-- The hash table behind FeX maps: fe_Map and the fe_map_* operations of src/fe.c.
--
-- The three parallel arrays `keys`, `values` and `states` are one array of slots, a function of the
-- index: `states[i]` is the constructor, and the two pointers are its fields where the slot is in
-- use (the code keeps NULL in them elsewhere). A key is the byte string that the string object
-- holds. An `int` is a plain number: capacities stay far below 2^31, since an allocation of that
-- many slots is refused before.
pub mod Hash
pub mod Probe
pub mod Valid
pub mod Slots
pub mod Resize
pub mod Capacity
pub mod Laws
pub mod Keys
mod Examples
use fex.Common.{
  ℕ, zero, suc, ◌+◌, ◌-◌, ◌*◌, ◌%◌, ◌≤◌, ◌<◌, Bool, true, false, Option, none, some, List, [], ◌∷◌,
  Bytes, bytes_eq, if◌then◌else◌, leb, ltb, update,
}
use Hash.{hash_string}

pub data Slot (V : Type 0) : Type 0 where
  empty : Slot V
  occupied : Bytes → V → Slot V
  tombstone : Slot V

module _ {V : Type 0} where
  abbrev pub is_used : Slot V → Bool
  is_used (occupied k v) = true
  is_used _ = false

  abbrev pub is_filled : Slot V → Bool
  is_filled empty = false
  is_filled _ = true

pub record Table (V : Type 0) : Type 0 where
  pub count : ℕ
  pub used : ℕ
  pub capacity : ℕ
  pub slots : ℕ → Slot V

-- What can be handed to a map operation: the kinds of object that its type checks tell apart.
pub data Object (V : Type 0) : Type 0 where
  map_object : Table V → Object V
  string : Bytes → Object V
  symbol : Bytes → Object V
  other : Object V

-- The messages of fe_error.
pub data MapError : Type 0 where
  expected_map bad_key out_of_memory : MapError

pub data Result (A : Type 0) : Type 0 where
  ok : A → Result A
  err : MapError → Result A

infixl 5 ◌>>=◌
abbrev pub ◌>>=◌ : {A B : Type 0} → Result A → (A → Result B) → Result B
ok a >>= f = f a
err e >>= f = err e

-- The slot that the walk settles on, if any, and whether the key was found there.
abbrev pub Found : Type 0
Found = Option ℕ × Bool

-- The slot to use for a key that is not there: the first tombstone passed, if any.
abbrev pub or_else : Option ℕ → ℕ → Option ℕ
or_else none slot = some slot
or_else (some t) slot = some t

abbrev pub and_then : {A B : Type 0} → Option A → (A → Option B) → Option B
and_then none f = none
and_then (some a) f = f a

-- The doubling loop of map_ensure_capacity, on fuel.
unfoldable pub double_target : ℕ → ℕ → ℕ → Option ℕ
double_target zero used target = none
double_target (suc fuel) used target =
    let more = double_target fuel used (target * 2) in
    if leb (target * 3) ((used + 1) * 4) then more else some target

-- The target of the growth check: at least 8.
abbrev pub min_target : ℕ → ℕ
min_target capacity = if ltb capacity 8 then 8 else capacity

abbrev pub or_error : {A : Type 0} → Option A → Result A
or_error none = err out_of_memory
or_error (some a) = ok a

module _ {V : Type 0} where
  -- checktype(ctx, map_obj, FE_TMAP), and mapdata.
  abbrev pub check_map : Object V → Result (Table V)
  check_map (map_object t) = ok t
  check_map _ = err expected_map

  abbrev pub normalize_map_key : Object V → Result Bytes
  normalize_map_key (symbol name) = ok name
  normalize_map_key (string s) = ok s
  normalize_map_key _ = err bad_key

  -- `memset` of the three arrays.
  unfoldable pub map_alloc : ℕ → Table V
  map_alloc capacity = record { count = 0; used = 0; capacity = capacity; slots = λ _. empty }

  -- The walk of map_find_slot, with `rounds` = capacity - steps. `rest` is the walk from the
  -- next slot on, for the first tombstone seen so far.
  abbrev pub examine : Slot V → Bytes → ℕ → Option ℕ → (Option ℕ → Found) → Found
  examine empty key slot first rest = (or_else first slot, false)
  examine tombstone key slot first rest = rest (or_else first slot)
  examine (occupied k v) key slot first rest =
      if bytes_eq k key then (some slot, true) else rest first

  unfoldable pub probe : (ℕ → Slot V) → ℕ → Bytes → ℕ → ℕ → ℕ → Option ℕ → Found
  probe slots capacity key index zero steps first = (first, false)
  probe slots capacity key index (suc rounds) steps first =
      let rest = probe slots capacity key index rounds (steps + 1) in
      let slot = (index + steps) % capacity in examine (slots slot) key slot first rest

  unfoldable pub map_find_slot : Table V → Bytes → Found
  map_find_slot t key =
      let walk = probe t.slots t.capacity key (hash_string key % t.capacity) t.capacity 0 none in
      if leb t.capacity 0 then (none, false) else walk

  -- One round of map_resize's loop: `none` is the failure `slot < 0`.
  abbrev pub put_slot : Table V → Bytes → V → Option ℕ → Option (Table V)
  put_slot grown k v none = none
  put_slot grown k v (some slot) = some (record grown {
    slots = update grown.slots slot (occupied k v);
    count = grown.count + 1;
    used = grown.used + 1;
  })

  abbrev pub move_slot : Slot V → Table V → Option (Table V)
  move_slot (occupied k v) grown = put_slot grown k v (map_find_slot grown k).0
  move_slot _ grown = some grown

  -- The loop over the old slots from index `i` on, with `rounds` = capacity - i.
  unfoldable pub move_all : (ℕ → Slot V) → ℕ → ℕ → Table V → Option (Table V)
  move_all slots zero i grown = some grown
  move_all slots (suc rounds) i grown =
      and_then (move_slot (slots i) grown) (move_all slots rounds (i + 1))

  -- `allocated` tells whether map_alloc got its four blocks.
  unfoldable pub map_resize : Bool → Table V → ℕ → Option (Table V)
  map_resize allocated t capacity =
      if allocated then move_all t.slots t.capacity 0 (map_alloc capacity) else none

  -- `none` is the failure of the resize. Every round doubles a target of at least 8, so `used + 1`
  -- rounds pass the bound (Map.Capacity).
  unfoldable pub map_ensure_capacity : Bool → Table V → Option (Table V)
  map_ensure_capacity allocated t =
      let target = min_target t.capacity in
      if ltb ((t.used + 1) * 4) (target * 3)
      then some t
      else and_then (double_target (t.used + 2) t.used target) (map_resize allocated t)

  -- The writes of fe_map_set at the slot of map_find_slot.
  abbrev pub use_fresh : Slot V → Table V → Table V
  use_fresh empty t = record t { used = t.used + 1; count = t.count + 1 }
  use_fresh _ t = record t { count = t.count + 1 }

  unfoldable pub write_slot : Table V → ℕ → Bool → Bytes → V → Table V
  write_slot t slot found k v =
      let t' = if found then t else use_fresh (t.slots slot) t in
      record t' { slots = update t.slots slot (occupied k v) }

  unfoldable pub fe_map_set : Bool → Object V → Object V → V → Result (Table V)
  fe_map_set allocated map_obj key value = do
    t ← check_map map_obj
    k ← normalize_map_key key
    t' ← or_error (map_ensure_capacity allocated t)
    slot ← or_error (map_find_slot t' k).0
    ok (write_slot t' slot (map_find_slot t' k).1 k value)

  unfoldable pub fe_map_has : Object V → Object V → Result Bool
  fe_map_has map_obj key = do
    t ← check_map map_obj
    k ← normalize_map_key key
    ok (map_find_slot t k).1

  -- The value in a slot. The found slot is occupied; `none` stands for the object nil.
  abbrev pub slot_value : Slot V → Option V
  slot_value (occupied k v) = some v
  slot_value _ = none

  abbrev pub value_at : Table V → Found → Option V
  value_at t (some slot, true) = slot_value (t.slots slot)
  value_at t _ = none

  unfoldable pub fe_map_get : Object V → Object V → Result (Option V)
  fe_map_get map_obj key = do
    t ← check_map map_obj
    k ← normalize_map_key key
    ok (value_at t (map_find_slot t k))

  abbrev pub remove_at : Table V → Found → Table V × Bool
  remove_at t (some slot, true) =
      (record t { slots = update t.slots slot tombstone; count = t.count - 1 }, true)
  remove_at t _ = (t, false)

  unfoldable pub fe_map_delete : Object V → Object V → Result (Table V × Bool)
  fe_map_delete map_obj key = do
    t ← check_map map_obj
    k ← normalize_map_key key
    ok (remove_at t (map_find_slot t k))

  unfoldable pub fe_map_count : Object V → Result ℕ
  fe_map_count map_obj = do t ← check_map map_obj; ok t.count

  -- The loop of fe_map_keys from index `n` - 1 down to 0.
  abbrev pub cons_key : Slot V → List Bytes → List Bytes
  cons_key (occupied k v) result = k ∷ result
  cons_key _ result = result

  unfoldable pub keys_below : (ℕ → Slot V) → ℕ → List Bytes → List Bytes
  keys_below slots zero result = result
  keys_below slots (suc n) result = keys_below slots n (cons_key (slots n) result)

  unfoldable pub fe_map_keys : Object V → Result (List Bytes)
  fe_map_keys map_obj = do t ← check_map map_obj; ok (keys_below t.slots t.capacity [])
