-- ===== src/Eval/Imports.antt =====
-- Where bind_imported_module of src/fe.c puts a module, lookup_module_chain finds it.
use fex.Common.{
  ℕ, ◌≡◌, refl, sym, ◌∙◌, ap, inl, inr, ◌⊎◌, Bool, true, false, ◌||◌, List, [], ◌∷◌, Bytes,
  bytes_eq, bytes_eq_sound, bytes_eq_refl, eq→==, ◌==◌, ==→eq, if◌then◌else◌, Bool-cases,
}
use fex.Closure.{names_have}
use fex.Eval.{
  Value, map_value, Store, not_a_module, Outcome, ok, error, exhausted, endless, beyond, pure, gets,
  ◌>>=◌, modify,
}
use fex.Eval.Members.{map_lookup, put_entry}
use fex.Eval.Packages.{
  module_or_nil, lookup_global_module, lookup_rest, lookup_module_chain, ensure_package_chain,
  parents_of, last_of, bind_in, bind_imported_module,
}
use fex.Eval.Chains.{HasMaps, entered_in, entered_in-lookup}
use fex.Eval.Roots.{Keeps, blocked, Reached, ensure_package_chain-Reached}

-- A name that is not the last one leads where it led before the module was put there.
other_entry :
    (s : Store) (p a : ℕ) (last t : Bytes) (v : Value)
    → bytes_eq t last ≡ false
    → map_lookup t ((entered_in p last v s).maps a) ≡ map_lookup t (s.maps a)
other_entry s p a last t v h =
    entered_in-lookup s p last v a t
    ∙ unchanged (Bool-cases (p == a)) (Bool-cases (bytes_eq last t))
  where
    wrong : bytes_eq last t ≡ true → ⊥
    wrong same =
        let is : last ≡ t = bytes_eq_sound last t same in
        let x : bytes_eq t t ≡ false = ap (bytes_eq t) (sym is) ∙ h in
        let y : bytes_eq t t ≡ true = bytes_eq_refl t in absurd_bool (bytes_eq t t) y x
      where
        absurd_bool : (b : Bool) → b ≡ true → b ≡ false → ⊥
        absurd_bool b y x = cc

    unchanged :
        (p == a ≡ true) ⊎ (p == a ≡ false)
        → (bytes_eq last t ≡ true) ⊎ (bytes_eq last t ≡ false)
        → (if p == a
            then (if bytes_eq last t then v else map_lookup t (s.maps p))
            else map_lookup t (s.maps a))
          ≡ map_lookup t (s.maps a)
    unchanged (inl here) (inl same) = absurd (wrong same)
    unchanged (inl here) (inr other) =
        rw (here, other) (ap (λ i. map_lookup t (s.maps i)) (==→eq p a here))
    unchanged (inr there) e = rw there refl

own_entry :
    (s : Store) (p : ℕ) (t : Bytes) (v : Value) → map_lookup t ((entered_in p t v s).maps p) ≡ v
own_entry s p t v = entered_in-lookup s p t v p t ∙ rw (eq→== p p refl, bytes_eq_refl t) refl

map_value-found :
    (v : Value) (p : ℕ) (s : Store) → ok (module_or_nil v) s ≡ ok (map_value p) s → v ≡ map_value p
map_value-found (map_value m) p s e = cc
map_value-found other p s e = cc

-- The chain through the package in which a module was put.
lookup_rest-put :
    (t : Bytes) (segments : List Bytes) (v : Value) (s : Store) (p m : ℕ)
    → lookup_rest (parents_of t segments) v s ≡ ok (map_value p) s
    → names_have (parents_of t segments) (last_of t segments) ≡ false
    → (let s' = entered_in p (last_of t segments) (map_value m) s in
        lookup_rest (t ∷ segments) v s' ≡ ok (map_value m) s')
unfolding lookup_rest names_have gets pure ◌>>=◌
lookup_rest-put t [] v s p m found once =
    let s' = entered_in p t (map_value m) s in
    ap (λ u. lookup_rest (t ∷ []) u s') (map_value-found v p s found)
    ∙ ap (λ u. ok (module_or_nil u) s') (own_entry s p t (map_value m))
lookup_rest-put t (u ∷ segments) (map_value a) s p m found once =
    let last = last_of u segments in
    let s' = entered_in p last (map_value m) s in
    let (here, later) = neither (bytes_eq t last) (names_have (parents_of u segments) last) once in
    ap (λ x. lookup_rest (u ∷ segments) x s') (other_entry s p a last t (map_value m) here)
    ∙ lookup_rest-put u segments (map_lookup t (s.maps a)) s p m found later
  where
    neither : (a b : Bool) → a || b ≡ false → (a ≡ false) × (b ≡ false)
    neither true b e = cc
    neither false b e = (refl, e)
lookup_rest-put t (u ∷ segments) other s p m found once = cc

-- A module has been put where its chain of names leads, and nothing else that was bound has changed;
-- or it has not, which happens exactly if a name of the chain stands for something else.
abbrev pub Imported :
    Store → (first t : Bytes) → (segments : List Bytes) → (m : ℕ) → Outcome (Unit {0}) → Type 0
Imported s first t segments m (ok x s') =
    (lookup_module_chain (first ∷ t ∷ segments) s' ≡ ok (map_value m) s')
    × (blocked s first (parents_of t segments) ≡ false)
    × Keeps first (last_of t segments) s s'
Imported s first t segments m (error f) =
    (f ≡ not_a_module) × (blocked s first (parents_of t segments) ≡ true)
Imported s first t segments m other = ⊥

put-Keeps :
    (first last : Bytes) (s s' : Store) (p : ℕ) (v : Value)
    → Keeps first last s s'
    → Keeps first last s (entered_in p last v s')
put-Keeps first last s s' p v keeps = record {
  entries = λ a k other bound. other_entry s' p a last k v other ∙ keeps.entries a k other bound;
  globals = keeps.globals;
}

Reached-Imported :
    (c : ℕ) (name t : Bytes) (segments : List Bytes) (m : ℕ) (s : Store) (o : Outcome ℕ)
    → names_have (parents_of t segments) (last_of t segments) ≡ false
    → Reached s (c ∷ name) (last_of t segments) (parents_of t segments) o
    → Imported s
        (c ∷ name)
        t
        segments
        m
        (((λ x. o) >>= λ p. put_entry p (last_of t segments) (map_value m)) s)
unfolding ◌>>=◌ put_entry modify lookup_module_chain lookup_global_module gets
Reached-Imported c name t segments m s (ok p s') once (found, free, keeps) = (
  lookup_rest-put t segments (module_or_nil (s'.globals (c ∷ name))) s' p m found once,
  free,
  put-Keeps (c ∷ name) (last_of t segments) s s' p (map_value m) keeps,
)
Reached-Imported c name t segments m s (error f) once e = e
Reached-Imported c name t segments m s exhausted once e = e
Reached-Imported c name t segments m s endless once e = e
Reached-Imported c name t segments m s beyond once e = e

-- An import by a name of at least two segments, the first of them not empty and the last one not
-- one of those between, in a store whose maps have all been made, fails exactly if the packages of
-- the name lead to something that is neither nil nor a module. Else it puts the module where
-- lookup_module_chain finds it by the same segments, with new packages where there were none: every
-- entry that was there by another name than the last segment, and every global value but that of
-- the first segment, is as before.
pub bind_imported_module-lookup_module_chain :
    (spec : Bytes) (c : ℕ) (name t : Bytes) (segments : List Bytes) (m : ℕ) (s : Store)
    → HasMaps s
    → names_have (parents_of t segments) (last_of t segments) ≡ false
    → Imported s
        (c ∷ name)
        t
        segments
        m
        (bind_imported_module spec ((c ∷ name) ∷ t ∷ segments) false (map_value m) s)
unfolding bind_imported_module bind_in ◌>>=◌
bind_imported_module-lookup_module_chain spec c name t segments m s w once =
    Reached-Imported c name t segments m s
      (ensure_package_chain (c ∷ name) (parents_of t segments) s) once
      (ensure_package_chain-Reached s c name (last_of t segments) (parents_of t segments) w)
