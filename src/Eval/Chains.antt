-- ===== src/Eval/Chains.antt =====
-- The chains of packages of src/fe.c lead to what is put at their end.
use fex.Common.{
  ℕ, ◌+◌, ◌<◌, ◌≤◌, ◌≡◌, refl, sym, ◌∙◌, ap, inl, inr, Bool, true, false, ◌||◌, List, [], ◌∷◌,
  Bytes, bytes_eq, bytes_eq_sound, bytes_eq_refl, eq→==, ◌==◌, ==→eq, update, if◌then◌else◌, arith,
  Bool-cases,
}
use fex.Eval.{
  Value, nil, map_value, Store, not_a_module, Outcome, ok, error, exhausted, endless, beyond, pure,
  fail, gets, ◌>>=◌, modify,
}
use fex.Eval.Access.{is_nil}
use fex.Eval.Members.{map_lookup, fe_map, put_entry}
use fex.Eval.Packages.{lookup_rest, subpackage, ensure_rest}

-- A store in which all maps that the modules lead to have been made.
pub record HasMaps (s : Store) : Type 0 where
  pub fresh : (a : ℕ) → s.next ≤ a → s.maps a ≡ []
  pub globals : (name : Bytes) (m : ℕ) → s.globals name ≡ map_value m → m < s.next
  pub entries : (a : ℕ) (k : Bytes) (m : ℕ) → map_lookup k (s.maps a) ≡ map_value m → m < s.next

-- A later store in which every entry of a map is as before, and every global module.
pub record Grows (s s' : Store) : Type 0 where
  pub more : s.next ≤ s'.next
  pub globals : s'.globals ≡ s.globals
  pub kept :
      (a : ℕ) (k : Bytes)
      → is_nil (map_lookup k (s.maps a)) ≡ false
      → map_lookup k (s'.maps a) ≡ map_lookup k (s.maps a)

Grows-refl : (s : Store) → Grows s s
Grows-refl s = record { more = omega arith; globals = refl; kept = λ a k h. refl }

Grows-trans : (s t u : Store) → Grows s t → Grows t u → Grows s u
Grows-trans s t u g h = record {
  more = omega (arith, g.more, h.more);
  globals = h.globals ∙ g.globals;
  kept = λ a k e. h.kept a k (ap is_nil (g.kept a k e) ∙ e) ∙ g.kept a k e;
}

-- The stores behind fe_map and fe_map_set.
abbrev pub mapped : Store → Store
mapped s = record s { next = s.next + 1; maps = update s.maps s.next [] }

abbrev pub entered_in : ℕ → Bytes → Value → Store → Store
entered_in m k v s = record s { maps = update s.maps m ((k, v) ∷ s.maps m) }

pub mapped-maps : (s : Store) → HasMaps s → (a : ℕ) → (mapped s).maps a ≡ s.maps a
mapped-maps s w a = elim (Bool-cases (s.next == a)) [
  | inl same ↦ rw same (sym (w.fresh a (omega (arith, ==→eq s.next a same))))
  | inr other ↦ rw other refl
]

pub entered_in-lookup :
    (s : Store) (m : ℕ) (k : Bytes) (v : Value) (a : ℕ) (j : Bytes)
    → map_lookup j ((entered_in m k v s).maps a) ≡ (
        if m == a
        then (if bytes_eq k j then v else map_lookup j (s.maps m))
        else map_lookup j (s.maps a))
unfolding map_lookup
entered_in-lookup s m k v a j = elim (Bool-cases (m == a)) [
  | inl same ↦ rw (same, map_lookup) refl
  | inr other ↦ rw (other, map_lookup) refl
]

-- A new package in another one.
abbrev added : ℕ → Bytes → Store → Store
added c k s = entered_in c k (map_value s.next) (mapped s)

added-lookup :
    (s : Store) (w : HasMaps s) (c : ℕ) (k : Bytes) (a : ℕ) (j : Bytes)
    → map_lookup j ((added c k s).maps a) ≡ (
        if c == a
        then (if bytes_eq k j then map_value s.next else map_lookup j (s.maps c))
        else map_lookup j (s.maps a))
added-lookup s w c k a j =
    entered_in-lookup (mapped s) c k (map_value s.next) a j
    ∙ ap
        (λ x.
          if c == a
          then (if bytes_eq k j then map_value s.next else map_lookup j x)
          else map_lookup j ((mapped s).maps a))
        (mapped-maps s w c)
    ∙ ap
        (λ x.
          if c == a
          then (if bytes_eq k j then map_value s.next else map_lookup j (s.maps c))
          else map_lookup j x)
        (mapped-maps s w a)

kept-if :
    (b d : Bool) (u old v : Value)
    → ((b ≡ true) → (d ≡ true) → is_nil v ≡ true)
    → ((b ≡ true) → old ≡ v)
    → is_nil v ≡ false
    → (if b then (if d then u else old) else v) ≡ v
kept-if true true u old v n same h = absurd (bad (n refl refl) h)
  where
    bad : is_nil v ≡ true → is_nil v ≡ false → ⊥
    bad x y = cc
kept-if true false u old v n same h = same refl
kept-if false d u old v n same h = refl

added-Grows :
    (s : Store) (w : HasMaps s) (c : ℕ) (k : Bytes)
    → map_lookup k (s.maps c) ≡ nil
    → Grows s (added c k s)
added-Grows s w c k e = record {
  more = omega arith;
  globals = refl;
  kept = λ a j h.
      added-lookup s w c k a j
      ∙ kept-if (c == a) (bytes_eq k j) (map_value s.next) (map_lookup j (s.maps c))
          (map_lookup j (s.maps a))
          (λ p q. ap is_nil (
            ap (λ i. map_lookup j (s.maps i)) (sym (==→eq c a p))
            ∙ ap (λ i. map_lookup i (s.maps c)) (sym (bytes_eq_sound k j q))
            ∙ e))
          (λ p. ap (λ i. map_lookup j (s.maps i)) (==→eq c a p)) h;
}

made-if :
    (b d : Bool) (n m : ℕ) (old v : Value)
    → (old ≡ map_value m → m < n)
    → (v ≡ map_value m → m < n)
    → (if b then (if d then map_value n else old) else v) ≡ map_value m
    → m < n + 1
made-if true true n m old v f g e = omega (arith, address e)
  where
    address : map_value n ≡ map_value m → n ≡ m
    address x = cc
made-if true false n m old v f g e = omega (arith, f e)
made-if false d n m old v f g e = omega (arith, g e)

added-HasMaps : (s : Store) (w : HasMaps s) (c : ℕ) (k : Bytes) → c < s.next → HasMaps (added c k s)
added-HasMaps s w c k lt = record {
  fresh = λ a le. unused a (omega (arith, le)) (omega (arith, lt, le));
  globals = λ name m e. omega (arith, w.globals name m e);
  entries = λ a j m e.
      made-if (c == a) (bytes_eq k j) s.next m (map_lookup j (s.maps c)) (map_lookup j (s.maps a))
        (w.entries c j m) (w.entries a j m) (sym (added-lookup s w c k a j) ∙ e);
}
  where
    unused : (a : ℕ) → s.next ≤ a → c < a → (added c k s).maps a ≡ []
    unused a le more = elim (Bool-cases (c == a)) [
      | inl same ↦ absurd (omega (arith, more, ==→eq c a same))
      | inr other ↦ rw other (mapped-maps s w a ∙ w.fresh a le)
    ]

-- A value that is neither missing nor a module.
abbrev pub is_other : Value → Bool
is_other nil = false
is_other (map_value m) = false
is_other other = true

-- Whether the chain from a package comes to a name that stands for something else than a module.
abbrev pub obstructed :
    (maps : ℕ → List (Bytes × Value)) → (segments : List Bytes) → (current : Value) → Bool
obstructed maps [] current = false
obstructed maps (k ∷ segments) (map_value m) =
    is_other (map_lookup k (maps m)) || obstructed maps segments (map_lookup k (maps m))
obstructed maps (k ∷ segments) other = false

obstructed_nil :
    (maps : ℕ → List (Bytes × Value)) (segments : List Bytes) → obstructed maps segments nil ≡ false
obstructed_nil maps [] = refl
obstructed_nil maps (k ∷ segments) = refl

pub obstructed_empty :
    (maps : ℕ → List (Bytes × Value)) (segments : List Bytes) (m : ℕ)
    → maps m ≡ []
    → obstructed maps segments (map_value m) ≡ false
unfolding map_lookup
obstructed_empty maps [] m e = refl
obstructed_empty maps (k ∷ segments) m e =
    ap
      (λ entries.
        is_other (map_lookup k entries) || obstructed maps segments (map_lookup k entries))
      e
    ∙ obstructed_nil maps segments

added-empty : (s : Store) (c : ℕ) (k : Bytes) → c < s.next → (added c k s).maps s.next ≡ []
added-empty s c k lt = elim (Bool-cases (c == s.next)) [
  | inl same ↦ absurd (omega (arith, lt, ==→eq c s.next same))
  | inr other ↦ rw (other, eq→== s.next s.next refl) refl
]

-- A step to a package, which is there, or is made where the name stands for nothing.
abbrev Leads : Store → (current : ℕ) → (segment : Bytes) → Outcome ℕ → Type 0
Leads s current segment (ok m s') =
    Grows s s'
    × HasMaps s'
    × (m < s'.next)
    × (map_lookup segment (s'.maps current) ≡ map_value m)
    × ((segments : List Bytes)
        → obstructed s'.maps segments (map_value m)
          ≡ obstructed s.maps (segment ∷ segments) (map_value current))
Leads s current segment (error f) =
    (f ≡ not_a_module)
    × ((segments : List Bytes) → obstructed s.maps (segment ∷ segments) (map_value current) ≡ true)
Leads s current segment other = ⊥

obstructed_step :
    (s : Store) (c : ℕ) (k : Bytes) (v : Value) (segments : List Bytes)
    → map_lookup k (s.maps c) ≡ v
    → obstructed s.maps (k ∷ segments) (map_value c) ≡ is_other v || obstructed s.maps segments v
obstructed_step s c k v segments e = ap (λ x. is_other x || obstructed s.maps segments x) e

subpackage-Leads :
    (s : Store) (c : ℕ) (k : Bytes) (next : Value)
    → HasMaps s
    → c < s.next
    → map_lookup k (s.maps c) ≡ next
    → Leads s c k (subpackage c k next s)
unfolding subpackage fe_map put_entry modify pure ◌>>=◌ fail
subpackage-Leads s c k nil w lt e = (
  added-Grows s w c k e,
  added-HasMaps s w c k lt,
  omega arith,
  added-lookup s w c k c k ∙ rw (eq→== c c refl, bytes_eq_refl k) refl,
  λ segments.
      obstructed_empty (added c k s).maps segments s.next (added-empty s c k lt)
      ∙ sym (obstructed_step s c k nil segments e ∙ obstructed_nil s.maps segments),
)
subpackage-Leads s c k (map_value m) w lt e = (
  Grows-refl s,
  w,
  w.entries c k m e,
  e,
  λ segments. sym (obstructed_step s c k (map_value m) segments e),
)
subpackage-Leads s c k other w lt e = (refl, λ segments. obstructed_step s c k _ segments e)

-- The packages to which a chain of names leads: unless one stands for something else, all are there.
abbrev pub Chained : Store → (segments : List Bytes) → (first : ℕ) → Outcome ℕ → Type 0
Chained s segments first (ok p s') =
    Grows s s'
    × HasMaps s'
    × (p < s'.next)
    × (lookup_rest segments (map_value first) s' ≡ ok (map_value p) s')
    × (obstructed s.maps segments (map_value first) ≡ false)
Chained s segments first (error f) =
    (f ≡ not_a_module) × (obstructed s.maps segments (map_value first) ≡ true)
Chained s segments first other = ⊥

further-Chained :
    (s t : Store) (c m : ℕ) (k : Bytes) (segments : List Bytes) (o : Outcome ℕ)
    → Grows s t
    → map_lookup k (t.maps c) ≡ map_value m
    → obstructed t.maps segments (map_value m) ≡ obstructed s.maps (k ∷ segments) (map_value c)
    → Chained t segments m o
    → Chained s (k ∷ segments) c o
unfolding lookup_rest gets ◌>>=◌
further-Chained s t c m k segments (ok p s') g at same (h, w, lt, found, free) = (
  Grows-trans s t s' g h,
  w,
  lt,
  ap (λ v. lookup_rest segments v s') (h.kept c k (ap is_nil at) ∙ at) ∙ found,
  sym same ∙ free,
)
further-Chained s t c m k segments (error f) g at same (e, stops) = (e, sym same ∙ stops)
further-Chained s t c m k segments exhausted g at same e = e
further-Chained s t c m k segments endless g at same e = e
further-Chained s t c m k segments beyond g at same e = e

step-Chained :
    (s : Store) (c : ℕ) (k : Bytes) (segments : List Bytes) (o : Outcome ℕ)
    → Leads s c k o
    → ((m : ℕ) (t : Store)
        → HasMaps t
        → m < t.next
        → Chained t segments m (ensure_rest segments m t))
    → Chained s (k ∷ segments) c (((λ t. o) >>= ensure_rest segments) s)
unfolding ◌>>=◌
step-Chained s c k segments (ok m t) (g, w, lt, at, same) rest =
    further-Chained s t c m k segments (ensure_rest segments m t) g at (same segments)
      (rest m t w lt)
step-Chained s c k segments (error f) (e, stops) rest = (e, stops segments)
step-Chained s c k segments exhausted e rest = e
step-Chained s c k segments endless e rest = e
step-Chained s c k segments beyond e rest = e

pub ensure_rest-Chained :
    (segments : List Bytes) (m : ℕ) (s : Store)
    → HasMaps s
    → m < s.next
    → Chained s segments m (ensure_rest segments m s)
unfolding ensure_rest lookup_rest pure gets ◌>>=◌
ensure_rest-Chained [] m s w lt = (Grows-refl s, w, lt, refl, refl)
ensure_rest-Chained (k ∷ segments) m s w lt =
    step-Chained s m k segments (subpackage m k (map_lookup k (s.maps m)) s)
      (subpackage-Leads s m k (map_lookup k (s.maps m)) w lt refl)
      (λ n t. ensure_rest-Chained segments n t)
