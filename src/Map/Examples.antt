-- ===== src/Map/Examples.antt =====
-- Tests of the hash table, and its theorems at concrete tables.
use mathlib.Core.Path.{subst}
use fex.Common.{
  ℕ, ◌≡◌, refl, sym, ◌∙◌, ◌⊎◌, Bool, true, some, List, arith, Bytes, codes, bytes_eq, if◌then◌else◌,
  length, update,
}
use fex.Map.{
  empty, occupied, tombstone, Table, map_object, string, symbol, other, ok, err, expected_map,
  bad_key, map_alloc, map_resize, map_find_slot, write_slot, probe, map_ensure_capacity, fe_map_set,
  fe_map_get, fe_map_has, fe_map_delete, fe_map_keys, fe_map_count,
}
use fex.Map.Hash.{hash_string}
use fex.Map.Valid.{IsValid, Hit, Miss, find_cases}
use fex.Map.Slots.{value}
use fex.Map.Resize.{map_alloc-IsValid, map_resize-Resized, Resized}
use fex.Map.Capacity.{Ready, map_ensure_capacity-Ready}
use fex.Map.Laws.{held, Stored, fe_map_set-Stored, get-set, Removed, fe_map_delete-Removed}
use fex.Map.Keys.{occurrences, fe_map_keys_lem}

abbrev head_key : Bytes
head_key = codes "head"

abbrev tail_key : Bytes
tail_key = codes "tail"

abbrev nothing : Table ℕ
nothing = record { count = 0; used = 0; capacity = 8; slots = λ _. empty }

-- The table of a new map in which "head" was set to 5.
abbrev one : Table ℕ
one = record {
  count = 1;
  used = 1;
  capacity = 8;
  slots = update (λ _. empty) 3 (occupied (codes "head") 5);
}

one_set : fe_map_set true (map_object nothing) (string head_key) 5 ≡ ok one
unfolding fe_map_set map_ensure_capacity map_find_slot write_slot probe hash_string
one_set = refl

one_deleted :
    fe_map_delete (map_object one) (symbol head_key)
    ≡ ok (record one { count = 0; slots = update one.slots 3 tombstone }, true)
unfolding fe_map_delete map_find_slot probe hash_string
one_deleted = refl

wrong_key : fe_map_set true (map_object one) other 6 ≡ err bad_key
unfolding fe_map_set
wrong_key = refl

wrong_map : fe_map_get {V = ℕ} (string head_key) (string head_key) ≡ err expected_map
unfolding fe_map_get
wrong_map = refl

nothing-IsValid : IsValid nothing
unfolding map_alloc
nothing-IsValid = map_alloc-IsValid 8 (omega arith)

ok-injective : {A : Type 0} {a b : A} → ok a ≡ ok b → a ≡ b
ok-injective e = cc

one-IsValid : IsValid one
one-IsValid =
    let (u, eq, s) = fe_map_set-Stored nothing (string head_key) head_key 5 nothing-IsValid refl in
    subst IsValid (ok-injective (sym eq ∙ one_set)) s.valid

get-set_example :
    (u : Table ℕ) × (fe_map_set true (map_object one) (symbol tail_key) 6 ≡ ok u)
    × IsValid u
    × (fe_map_get (map_object u) (string head_key) ≡ (
        if bytes_eq tail_key head_key
        then ok (some 6)
        else fe_map_get (map_object one) (string head_key)))
get-set_example =
    get-set one (symbol tail_key) (string head_key) tail_key head_key 6 one-IsValid refl refl

fe_map_set-Stored_example :
    (u : Table ℕ) × (fe_map_set true (map_object one) (string tail_key) 6 ≡ ok u)
    × Stored one tail_key 6 u
fe_map_set-Stored_example = fe_map_set-Stored one (string tail_key) tail_key 6 one-IsValid refl

fe_map_delete-Removed_example :
    (u : Table ℕ) × (answer : Bool) × (fe_map_delete (map_object one) (string head_key)
      ≡ ok (u, answer))
    × Removed one head_key u answer
fe_map_delete-Removed_example =
    fe_map_delete-Removed one (string head_key) head_key one-IsValid refl

fe_map_keys_lem_example :
    (keys : List Bytes) × (fe_map_keys (map_object one) ≡ ok keys)
    × (fe_map_count (map_object one) ≡ ok (length keys))
    × (fe_map_has (map_object one) (string head_key) ≡ ok (held (value one head_key)))
    × (occurrences head_key keys ≡ (if held (value one head_key) then 1 else 0))
fe_map_keys_lem_example = fe_map_keys_lem one (string head_key) head_key one-IsValid refl

map_resize-Resized_example : (u : Table ℕ) × (map_resize true one 16 ≡ some u) × Resized one 16 u
map_resize-Resized_example = map_resize-Resized one one-IsValid 16 (omega arith) (omega arith)

map_ensure_capacity-Ready_example :
    (u : Table ℕ) × (map_ensure_capacity true one ≡ some u) × Ready one u
map_ensure_capacity-Ready_example = map_ensure_capacity-Ready one one-IsValid

find_cases_example : Hit one head_key ⊎ Miss one head_key
find_cases_example = find_cases one one-IsValid head_key
