-- ===== src/Eval/Members.antt =====
-- Maps, and the primitive `get`, of src/fe.c: fe_map_get, fe_map_set and find_assoc_binding.
use fex.Common.{
  ℕ, zero, suc, ◌+◌, Bool, true, false, ◌||◌, List, [], ◌∷◌, Bytes, codes, bytes_eq, Option, none,
  some, update, if◌then◌else◌,
}
use fex.Eval.{
  Prim, Value, nil, symbol, text, pair, map_value, wrong_type, invalid_key, invalid_selector,
  unsupported_property, ok, M, pure, fail, forever, gets, ◌>>=◌, modify,
}
use fex.Eval.Access.{is_symbol}

-- normalize_map_key
unfoldable pub key_bytes : Value → M Bytes
key_bytes (symbol s) = pure s
key_bytes (text s) = pure s
key_bytes other = fail invalid_key

unfoldable pub map_lookup : Bytes → List (Bytes × Value) → Value
map_lookup key [] = nil
map_lookup key ((k, v) ∷ entries) =
    let rest = map_lookup key entries in if bytes_eq k key then v else rest

-- fe_map: a new map.
unfoldable pub fe_map : M ℕ
fe_map s = ok s.next (record s { next = s.next + 1; maps = update s.maps s.next [] })

-- fe_map_set: the new entry hides an older one.
unfoldable pub put_entry : ℕ → Bytes → Value → M (Unit {0})
put_entry m key v = modify (λ s. record s { maps = update s.maps m ((key, v) ∷ s.maps m) })

unfoldable pub fe_map_set : (map : Value) → (key : Value) → (value : Value) → M (Unit {0})
fe_map_set (map_value m) key v = key_bytes key >>= λ k. put_entry m k v
fe_map_set other key v = fail wrong_type

-- An entry of the list that find_assoc_binding goes through.
unfoldable pub binding_entry :
    (again : M (Bool × Option Value)) → (sym : Bytes) → (entry : Value) → M (Bool × Option Value)
binding_entry again sym (pair e) = gets (λ s. s.pairs e) >>= λ (key, value).
    if is_symbol key sym then pure (true, some value) else again
binding_entry again sym other = pure (false, none)

-- The loop of find_assoc_binding: whether the list is a table, and the value that is bound.
unfoldable pub binding_loop : (rounds : ℕ) → (sym : Bytes) → Value → M (Bool × Option Value)
binding_loop zero sym p = forever
binding_loop (suc rounds) sym nil = pure (true, none)
binding_loop (suc rounds) sym (pair a) = gets (λ s. s.pairs a) >>= λ (entry, rest).
    binding_entry (binding_loop rounds sym rest) sym entry
binding_loop (suc rounds) sym other = pure (false, none)

-- A list with more pairs than there are objects has no end.
unfoldable pub find_assoc_binding : (sym : Bytes) → Value → M (Bool × Option Value)
find_assoc_binding sym (pair a) = gets (λ s. s.next) >>= λ n. binding_loop (suc n) sym (pair a)
find_assoc_binding sym other = pure (false, none)

-- What `get` gives on a list.
unfoldable pub get_selected : Value → (sym : Bytes) → (is_table : Bool) → M Value
get_selected (pair a) sym false =
    if bytes_eq sym (codes "head") || bytes_eq sym (codes "first")
    then gets (λ s. (s.pairs a).0)
    else if bytes_eq sym (codes "tail") || bytes_eq sym (codes "rest")
    then gets (λ s. (s.pairs a).1)
    else fail invalid_selector
get_selected other sym true = pure nil
get_selected other sym false = fail unsupported_property

unfoldable pub get_found : Value → (sym : Bytes) → Bool × Option Value → M Value
get_found value sym (is_table, some bound) = pure bound
get_found value sym (is_table, none) = get_selected value sym is_table

unfoldable pub get_member : Value → (sym : Bytes) → M Value
get_member (map_value m) sym = gets (λ s. map_lookup sym (s.maps m))
get_member value sym = find_assoc_binding sym value >>= get_found value sym
