-- ===== src/Eval/Packages.antt =====
-- Where the import of a module puts it in src/fe.c: lookup_global_module, lookup_module_chain,
-- ensure_package_chain, bind_imported_module and resolve_imported_module_value.
--
-- A chain of names leads from a global module through the maps of packages.
use fex.Common.{
  ℕ, Bool, true, false, not, ◌||◌, ◌&&◌, ◌==◌, List, [], ◌∷◌, Bytes, bytes_eq, if◌then◌else◌,
}
use fex.Modules.{module_spec_uses_path_mode}
use fex.Eval.{Value, nil, map_value, not_a_module, M, pure, fail, gets, ◌>>=◌, ◌>>◌}
use fex.Eval.Access.{fe_set}
use fex.Eval.Members.{map_lookup, fe_map, put_entry}

-- A module, and nil for anything else.
abbrev pub module_or_nil : Value → Value
module_or_nil (map_value m) = map_value m
module_or_nil other = nil

unfoldable pub lookup_global_module : (name : Bytes) → M Value
lookup_global_module [] = pure nil
lookup_global_module (c ∷ name) = gets (λ s. module_or_nil (s.globals (c ∷ name)))

-- The loop of lookup_module_chain.
unfoldable pub lookup_rest : (segments : List Bytes) → (current : Value) → M Value
lookup_rest [] current = pure (module_or_nil current)
lookup_rest (segment ∷ segments) (map_value m) =
    gets (λ s. map_lookup segment (s.maps m)) >>= lookup_rest segments
lookup_rest (segment ∷ segments) other = pure nil

unfoldable pub lookup_module_chain : (segments : List Bytes) → M Value
lookup_module_chain [] = pure nil
lookup_module_chain (segment ∷ segments) = lookup_global_module segment >>= lookup_rest segments

-- The first package of a chain, which is made if there is none.
unfoldable pub root_package : (segment : Bytes) → (current : Value) → M ℕ
root_package segment (map_value m) = pure m
root_package segment other = do m ← fe_map; fe_set segment (map_value m); pure m

-- The package with a name in another one.
unfoldable pub subpackage : (current : ℕ) → (segment : Bytes) → (next : Value) → M ℕ
subpackage current segment nil = do m ← fe_map; put_entry current segment (map_value m); pure m
subpackage current segment (map_value m) = pure m
subpackage current segment other = fail not_a_module

-- The loop of ensure_package_chain.
unfoldable pub ensure_rest : (segments : List Bytes) → (current : ℕ) → M ℕ
ensure_rest [] current = pure current
ensure_rest (segment ∷ segments) current = do
  next ← gets (λ s. map_lookup segment (s.maps current))
  m ← subpackage current segment next
  ensure_rest segments m

unfoldable pub ensure_package_chain : (segment : Bytes) → (segments : List Bytes) → M ℕ
ensure_package_chain segment segments = do
  current ← lookup_global_module segment
  m ← root_package segment current
  ensure_rest segments m

abbrev pub has_dot : Bytes → Bool
has_dot [] = false
has_dot (c ∷ spec) = c == b'.' || has_dot spec

-- Without packages the module is bound to its last name, and to a plain specification.
unfoldable pub bind_names : (spec last : Bytes) → (module_obj : Value) → M (Unit {0})
bind_names spec last module_obj = do
  fe_set last module_obj
  if not (bytes_eq spec last) && (not (module_spec_uses_path_mode spec) && not (has_dot spec))
      then fe_set spec module_obj
      else pure tt

-- The names in front of the last one, and that.
abbrev pub parents_of : (first : Bytes) → List Bytes → List Bytes
parents_of first [] = []
parents_of first (t ∷ segments) = first ∷ parents_of t segments

abbrev pub last_of : (first : Bytes) → List Bytes → Bytes
last_of first [] = first
last_of first (t ∷ segments) = last_of t segments

-- The module in the map of its package.
unfoldable pub bind_in :
    (parents : List Bytes) → (last : Bytes) → (module_obj : Value) → M (Unit {0})
bind_in [] last module_obj = pure tt
bind_in (segment ∷ segments) last module_obj = do
  parent ← ensure_package_chain segment segments
  put_entry parent last module_obj

abbrev pub is_map : Value → Bool
is_map (map_value m) = true
is_map other = false

abbrev is_empty : List Bytes → Bool
is_empty [] = true
is_empty (x ∷ xs) = false

unfoldable pub bind_imported_module :
    (spec : Bytes)
    → (segments : List Bytes) → (is_relative : Bool) → (module_obj : Value) → M (Unit {0})
bind_imported_module spec [] is_relative module_obj = pure tt
bind_imported_module spec (first ∷ segments) is_relative module_obj =
    if not (is_map module_obj)
    then pure tt
    else if not is_relative && not (is_empty segments)
    then bind_in (parents_of first segments) (last_of first segments) module_obj
    else bind_names spec (last_of first segments) module_obj

-- The first value that is a module.
unfoldable pub or_module : M Value → M Value → M Value
or_module first second = first >>= λ v. if is_map v then pure v else second

abbrev last_module : (segments : List Bytes) → M Value
last_module [] = pure nil
last_module (first ∷ segments) = lookup_global_module (last_of first segments)

-- The module that the run of a file has left, without the value of the run.
unfoldable pub resolve_imported_module_value : (spec : Bytes) → (segments : List Bytes) → M Value
resolve_imported_module_value spec segments =
    or_module (lookup_module_chain segments)
      (or_module (last_module segments) (or_module (lookup_global_module spec) (pure nil)))
