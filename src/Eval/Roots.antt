-- ===== src/Eval/Roots.antt =====
-- ensure_package_chain of src/fe.c, from a global package on.
use fex.Common.{
  ℕ, ◌+◌, ◌<◌, ◌≡◌, refl, sym, ◌∙◌, ap, Bool, true, false, List, [], ◌∷◌, Bytes, bytes_eq,
  bytes_eq_refl, if◌then◌else◌, arith,
}
use fex.Eval.{
  Value, map_value, Store, not_a_module, Outcome, ok, error, exhausted, endless, beyond, pure, gets,
  ◌>>=◌, modify,
}
use fex.Eval.Access.{fe_set, is_nil}
use fex.Eval.Members.{map_lookup, fe_map}
use fex.Eval.Packages.{
  is_map, module_or_nil, lookup_global_module, lookup_rest, lookup_module_chain, root_package,
  ensure_rest, ensure_package_chain,
}
use fex.Eval.Chains.{
  HasMaps, obstructed, obstructed_empty, Chained, ensure_rest-Chained, mapped, mapped-maps,
}

-- A global package: all entries and the other global values are as before.
abbrev Rooted : Store → (name : Bytes) → Outcome ℕ → Type 0
Rooted s name (ok m t) =
    HasMaps t
    × (m < t.next)
    × (t.globals name ≡ map_value m)
    × ((a : ℕ) → t.maps a ≡ s.maps a)
    × ((x : Bytes) → bytes_eq name x ≡ false → t.globals x ≡ s.globals x)
    × ((segments : List Bytes)
        → obstructed t.maps segments (map_value m)
          ≡ obstructed s.maps segments (module_or_nil (s.globals name)))
Rooted s name other = ⊥

abbrev rooted : Bytes → Store → Store
rooted name s = record (mapped s) {
  globals = λ x. if bytes_eq name x then map_value s.next else s.globals x;
}

rooted-HasMaps : (name : Bytes) (s : Store) → HasMaps s → HasMaps (rooted name s)
rooted-HasMaps name s w = record {
  fresh = λ a le. mapped-maps s w a ∙ w.fresh a (omega (arith, le));
  globals = λ x m e. named (bytes_eq name x) m (s.globals x) (w.globals x m) e;
  entries =
      λ a k m e. omega (arith, w.entries a k m (ap (map_lookup k) (sym (mapped-maps s w a)) ∙ e));
}
  where
    named :
        (b : Bool) (m : ℕ) (v : Value)
        → (v ≡ map_value m → m < s.next)
        → (if b then map_value s.next else v) ≡ map_value m
        → m < s.next + 1
    named true m v f e = omega (arith, address e)
      where
        address : map_value s.next ≡ map_value m → s.next ≡ m
        address x = cc
    named false m v f e = omega (arith, f e)

obstructed_no_module :
    (maps : ℕ → List (Bytes × Value)) (segments : List Bytes) (v : Value)
    → is_map v ≡ false
    → obstructed maps segments v ≡ false
obstructed_no_module maps [] v h = refl
obstructed_no_module maps (k ∷ segments) (map_value m) h = cc
obstructed_no_module maps (k ∷ segments) other h = refl

new-Rooted :
    (name : Bytes) (s : Store) (v : Value)
    → HasMaps s
    → module_or_nil (s.globals name) ≡ v
    → is_map v ≡ false
    → Rooted s name (ok s.next (rooted name s))
new-Rooted name s v w e h = (
  rooted-HasMaps name s w,
  omega arith,
  rw (bytes_eq_refl name) refl,
  λ a. mapped-maps s w a,
  λ x other. rw other refl,
  λ segments.
      obstructed_empty (rooted name s).maps segments s.next
        (mapped-maps s w s.next ∙ w.fresh s.next (omega arith))
      ∙ sym (ap (obstructed s.maps segments) e ∙ obstructed_no_module s.maps segments v h),
)

root_package-Rooted :
    (name : Bytes) (s : Store) (v : Value)
    → HasMaps s
    → module_or_nil (s.globals name) ≡ v
    → Rooted s name (root_package name v s)
unfolding root_package fe_map fe_set modify pure ◌>>=◌
root_package-Rooted name s (map_value m) w e =
    let at = is_module (s.globals name) m e in
    (
      w,
      w.globals name m at,
      at,
      λ a. refl,
      λ x other. refl,
      λ segments. ap (obstructed s.maps segments) (sym e),
    )
  where
    is_module : (v : Value) (m : ℕ) → module_or_nil v ≡ map_value m → v ≡ map_value m
    is_module (map_value a) m x = x
    is_module other m x = cc
root_package-Rooted name s other w e = new-Rooted name s _ w e refl

-- What a step changes neither below other names than `last` nor in other globals than `first`.
pub record Keeps (first last : Bytes) (s s' : Store) : Type 0 where
  pub entries :
      (a : ℕ) (k : Bytes)
      → bytes_eq k last ≡ false
      → is_nil (map_lookup k (s.maps a)) ≡ false
      → map_lookup k (s'.maps a) ≡ map_lookup k (s.maps a)
  pub globals : (x : Bytes) → bytes_eq first x ≡ false → s'.globals x ≡ s.globals x

-- Whether the chain of packages comes to something else, from its global name.
abbrev pub blocked : Store → (first : Bytes) → (segments : List Bytes) → Bool
blocked s first segments = obstructed s.maps segments (module_or_nil (s.globals first))

-- The end of a chain of packages.
abbrev pub Reached : Store → (first last : Bytes) → (segments : List Bytes) → Outcome ℕ → Type 0
Reached s first last segments (ok p s') =
    (lookup_module_chain (first ∷ segments) s' ≡ ok (map_value p) s')
    × (blocked s first segments ≡ false)
    × Keeps first last s s'
Reached s first last segments (error f) = (f ≡ not_a_module) × (blocked s first segments ≡ true)
Reached s first last segments other = ⊥

module _ (s : Store) (c : ℕ) (name last : Bytes) (segments : List Bytes) where
  Chained-Reached :
      (m : ℕ) (t : Store) (o : Outcome ℕ)
      → Rooted s (c ∷ name) (ok m t)
      → Chained t segments m o
      → Reached s (c ∷ name) last segments o
  unfolding lookup_module_chain lookup_global_module gets ◌>>=◌
  Chained-Reached m t (ok p s') (w, lt, at, maps, globals, same) (g, w', lt', found, free) = (
    ap (λ v. lookup_rest segments (module_or_nil v) s')
          (ap (λ globals. globals (c ∷ name)) g.globals ∙ at)
        ∙ found,
    sym (same segments) ∙ free,
    record {
      entries = λ a k other bound.
          g.kept a k (ap (λ x. is_nil (map_lookup k x)) (maps a) ∙ bound)
          ∙ ap (map_lookup k) (maps a);
      globals = λ x other. ap (λ globals. globals x) g.globals ∙ globals x other;
    },
  )
  Chained-Reached m t (error f) (w, lt, at, maps, globals, same) (e, stops) =
      (e, sym (same segments) ∙ stops)
  Chained-Reached m t exhausted r e = e
  Chained-Reached m t endless r e = e
  Chained-Reached m t beyond r e = e

  root-Reached :
      (o : Outcome ℕ)
      → Rooted s (c ∷ name) o
      → Reached s (c ∷ name) last segments (((λ t. o) >>= ensure_rest segments) s)
  unfolding ◌>>=◌
  root-Reached (ok m t) r =
      Chained-Reached m t (ensure_rest segments m t) r (ensure_rest-Chained segments m t r.0 r.1)
  root-Reached (error f) e = elim e [ ]
  root-Reached exhausted e = elim e [ ]
  root-Reached endless e = elim e [ ]
  root-Reached beyond e = elim e [ ]

  pub ensure_package_chain-Reached :
      HasMaps s → Reached s (c ∷ name) last segments (ensure_package_chain (c ∷ name) segments s)
  unfolding ensure_package_chain lookup_global_module gets ◌>>=◌
  ensure_package_chain-Reached w =
      root-Reached (root_package (c ∷ name) (module_or_nil (s.globals (c ∷ name))) s)
        (root_package-Rooted (c ∷ name) s (module_or_nil (s.globals (c ∷ name))) w refl)
