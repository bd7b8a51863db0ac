-- ===== src/Eval/Frames.antt =====
-- What a parameter stands for in a call of src/fe.c: argstoenv.
use fex.Common.{
  ℕ, zero, suc, ◌+◌, ◌<◌, ◌≤◌, ◌≡◌, refl, sym, ◌∙◌, ap, inl, inr, List, [], ◌∷◌, Bytes, bytes_eq,
  Option, none, some, update, if◌then◌else◌, arith, Bool-cases, length,
}
use mathlib.Core.Path.{subst}
use fex.Eval.{
  Value, nil, symbol, pair, Binding, Store, Outcome, ok, error, exhausted, endless, beyond, M, pure,
  gets, ◌>>=◌,
}
use fex.Eval.Access.{fe_car, fe_cdr, new_slot, find_slot}
use fex.Eval.Forms.{argstoenv}

-- A list of the values in the memory of pairs.
abbrev pub IsList : (pairs : ℕ → Value × Value) → List Value → Value → Type 0
IsList pairs [] v = v ≡ nil
IsList pairs (x ∷ xs) v = (a : ℕ) × (v ≡ pair a) × ((pairs a).0 ≡ x) × IsList pairs xs (pairs a).1

-- The parameters of a function, with a symbol for the arguments that are left, if there is one.
abbrev pub IsParameters :
    (pairs : ℕ → Value × Value) → (names : List Bytes) → (rest : Option Bytes) → Value → Type 0
IsParameters pairs [] none v = v ≡ nil
IsParameters pairs [] (some r) v = v ≡ symbol r
IsParameters pairs (t ∷ names) rest v =
    (a : ℕ) × (v ≡ pair a) × ((pairs a).0 ≡ symbol t) × IsParameters pairs names rest (pairs a).1

-- An argument, or all that are left.
pub data Argument : Type 0 where
  argument : Value → Argument
  arguments : List Value → Argument

abbrev pub StandsFor : Store → Argument → Value → Type 0
StandsFor s (argument x) v = v ≡ x
StandsFor s (arguments xs) v = IsList s.pairs xs v

-- The first argument, nil if there is none, and the others.
abbrev pub first_value : List Value → Value
first_value [] = nil
first_value (x ∷ xs) = x

abbrev pub other_values : List Value → List Value
other_values [] = []
other_values (x ∷ xs) = xs

abbrev pub named_argument : (name t : Bytes) → Argument → Option Argument
named_argument name t x = if bytes_eq t name then some x else none

abbrev pub later_argument : Option Argument → Option Argument → Option Argument
later_argument none x = x
later_argument (some x) y = some x

-- The argument that a name stands for, by its last place among the parameters.
abbrev pub argument_for :
    (name : Bytes) → (names : List Bytes) → (rest : Option Bytes) → List Value → Option Argument
argument_for name [] none xs = none
argument_for name [] (some r) xs = named_argument name r (arguments xs)
argument_for name (t ∷ names) rest xs =
    later_argument (argument_for name names rest (other_values xs))
      (named_argument name t (argument (first_value xs)))

-- A later store that has more bindings only.
pub record Extends (s s' : Store) : Type 0 where
  pub pairs : s'.pairs ≡ s.pairs
  pub closures : s'.closures ≡ s.closures
  pub maps : s'.maps ≡ s.maps
  pub globals : s'.globals ≡ s.globals
  pub more : s.next ≤ s'.next
  pub slots : (slot : ℕ) → slot < s.next → s'.slots slot ≡ s.slots slot

Extends-refl : (s : Store) → Extends s s
Extends-refl s = record {
  pairs = refl;
  closures = refl;
  maps = refl;
  globals = refl;
  more = omega arith;
  slots = λ slot lt. refl;
}

-- The store behind a new slot.
abbrev slotted : Value → Store → Store
slotted v s = record s { next = s.next + 1; slots = update s.slots s.next v }

slotted-Extends : (v : Value) (s s' : Store) → Extends (slotted v s) s' → Extends s s'
slotted-Extends v s s' x = record {
  pairs = x.pairs;
  closures = x.closures;
  maps = x.maps;
  globals = x.globals;
  more = omega (arith, x.more);
  slots = λ slot lt. x.slots slot (omega (arith, lt)) ∙ ground (arith, lt);
}

new_value : (s : Store) (v : Value) → v ≡ (slotted v s).slots s.next
new_value s v = ground arith

-- Where a name is found: at a new slot with its argument, or where it was before.
abbrev pub Found : (s s' : Store) → Option Argument → (found before : Option ℕ) → Type 0
Found s s' none found before = found ≡ before
Found s s' (some x) found before =
    (slot : ℕ) × (found ≡ some slot) × (s.next ≤ slot) × StandsFor s' x (s'.slots slot)

-- What argstoenv gives.
abbrev pub Binds :
    Store
    → (names : List Bytes) → (rest : Option Bytes) → List Value
    → (before : List Binding) → Outcome (List Binding)
    → Type 0
Binds s names rest xs before (ok env s') =
    Extends s s'
    × ((name : Bytes)
        → Found s s' (argument_for name names rest xs) (find_slot name env) (find_slot name before))
Binds s names rest xs before other = ⊥

named-Found :
    (s s' : Store) (name t : Bytes) (x : Argument) (slot : ℕ) (before : List Binding)
    → s.next ≤ slot
    → StandsFor s' x (s'.slots slot)
    → Found s s'
        (named_argument name t x)
        (find_slot name ((symbol t, slot) ∷ before))
        (find_slot name before)
unfolding find_slot
named-Found s s' name t x slot before le stands = elim (Bool-cases (bytes_eq t name)) [
  | inl same ↦ rw (same, find_slot) (slot, refl, le, stands)
  | inr other ↦ rw (other, find_slot) refl
]

later-Found :
    (s s₁ s' : Store) (a b : Option Argument) (found middle before : Option ℕ)
    → s.next ≤ s₁.next
    → Found s₁ s' a found middle
    → Found s s' b middle before
    → Found s s' (later_argument a b) found before
later-Found s s₁ s' none none found middle before le f g = f ∙ g
later-Found s s₁ s' none (some y) found middle before le f (slot, e, new, stands) =
    (slot, f ∙ e, new, stands)
later-Found s s₁ s' (some x) b found middle before le (slot, e, new, stands) g =
    (slot, e, omega (arith, le, new), stands)

fe_car-first :
    (s : Store) (xs : List Value) (v : Value)
    → IsList s.pairs xs v
    → fe_car v s ≡ ok (first_value xs) s
unfolding fe_car gets pure
fe_car-first s [] v e = ap (λ u. fe_car u s) e
fe_car-first s (x ∷ xs) v (a, e, first, others) = ap (λ u. fe_car u s) e ∙ ap (λ u. ok u s) first

-- What fe_cdr leaves of a list.
abbrev behind : (ℕ → Value × Value) → Value → Value
behind pairs (pair a) = (pairs a).1
behind pairs other = nil

fe_cdr-others :
    (s s₁ : Store) (xs : List Value) (v : Value)
    → s₁.pairs ≡ s.pairs
    → IsList s.pairs xs v
    → (fe_cdr v s₁ ≡ ok (behind s.pairs v) s₁) × IsList s.pairs (other_values xs) (behind s.pairs v)
unfolding fe_cdr gets pure
fe_cdr-others s s₁ [] v same e =
    (ap (λ u. fe_cdr u s₁) e ∙ ap (λ u. ok (behind s.pairs u) s₁) (sym e), ap (behind s.pairs) e)
fe_cdr-others s s₁ (x ∷ xs) v same (a, e, first, others) = (
  ap (λ u. fe_cdr u s₁) e
      ∙ ap (λ p. ok (p a).1 s₁) same
      ∙ ap (λ u. ok (behind s.pairs u) s₁) (sym e),
  subst (IsList s.pairs xs) (ap (behind s.pairs) (sym e)) others,
)

pub bind-ok :
    {A B : Type 0} (m : M A) (k : A → M B) (s s' : Store) (a : A)
    → m s ≡ ok a s'
    → (m >>= k) s ≡ k a s'
unfolding ◌>>=◌
bind-ok m k s s' a e = rw (e, ◌>>=◌) refl

-- A round of argstoenv.
argstoenv-round :
    (rounds a : ℕ) (arg rest x : Value) (t : Bytes) (env : List Binding) (s : Store)
    → (s.pairs a).0 ≡ symbol t
    → fe_car arg s ≡ ok x s
    → fe_cdr arg (slotted x s) ≡ ok rest (slotted x s)
    → argstoenv (suc rounds) (pair a) arg env s
      ≡ argstoenv rounds (s.pairs a).1 rest ((symbol t, s.next) ∷ env) (slotted x s)
unfolding argstoenv gets ◌>>=◌ new_slot
argstoenv-round rounds a arg rest x t env s key first others =
    bind-ok (fe_car arg) _ s s x first
    ∙ bind-ok (fe_cdr arg) _ (slotted x s) (slotted x s) rest others
    ∙ ap (λ k. argstoenv rounds (s.pairs a).1 rest ((k, s.next) ∷ env) (slotted x s)) key

-- The rounds of argstoenv at the end of the parameters.
argstoenv-nil :
    (rounds : ℕ) (xs : List Value) (arg : Value) (before : List Binding) (s : Store)
    → Binds s [] none xs before (argstoenv (suc rounds) nil arg before s)
unfolding argstoenv pure
argstoenv-nil rounds xs arg before s = (Extends-refl s, λ name. refl)

argstoenv-symbol :
    (rounds : ℕ) (r : Bytes) (xs : List Value) (arg : Value) (before : List Binding) (s : Store)
    → IsList s.pairs xs arg
    → Binds s [] (some r) xs before (argstoenv (suc rounds) (symbol r) arg before s)
unfolding argstoenv new_slot pure ◌>>=◌
argstoenv-symbol rounds r xs arg before s args = (
  slotted-Extends arg s (slotted arg s) (Extends-refl (slotted arg s)),
  λ name.
      named-Found s (slotted arg s) name r (arguments xs) s.next before (omega arith)
        (subst (IsList s.pairs xs) (new_value s arg) args),
)

-- One parameter more in front of the others.
parameter-Binds :
    (s : Store) (t : Bytes) (names : List Bytes) (rest : Option Bytes) (xs : List Value)
    → (before : List Binding) (o : Outcome (List Binding))
    → Binds
        (slotted (first_value xs) s)
        names
        rest
        (other_values xs)
        ((symbol t, s.next) ∷ before)
        o
    → Binds s (t ∷ names) rest xs before o
parameter-Binds s t names rest xs before (ok env s') (x, found) = (
  slotted-Extends (first_value xs) s s' x,
  λ name.
      later-Found s (slotted (first_value xs) s) s' (argument_for name names rest (other_values xs))
        (named_argument name t (argument (first_value xs))) (find_slot name env)
        (find_slot name ((symbol t, s.next) ∷ before)) (find_slot name before) (omega arith)
        (found name)
        (named-Found s s' name t (argument (first_value xs)) s.next before (omega arith)
          (x.slots s.next (omega arith) ∙ sym (new_value s (first_value xs)))),
)
parameter-Binds s t names rest xs before (error f) x = x
parameter-Binds s t names rest xs before exhausted x = x
parameter-Binds s t names rest xs before endless x = x
parameter-Binds s t names rest xs before beyond x = x

-- argstoenv puts the arguments in new slots.
pub argstoenv-Binds :
    (rounds : ℕ) (names : List Bytes) (rest : Option Bytes) (xs : List Value)
    → (prm arg : Value) (before : List Binding) (s : Store) → length names < rounds
    → IsParameters s.pairs names rest prm
    → IsList s.pairs xs arg
    → Binds s names rest xs before (argstoenv rounds prm arg before s)
argstoenv-Binds zero names rest xs prm arg before s lt params args = absurd (omega (arith, lt))
argstoenv-Binds (suc rounds) [] none xs prm arg before s lt e args =
    subst (λ p. Binds s [] none xs before (argstoenv (suc rounds) p arg before s)) (sym e)
      (argstoenv-nil rounds xs arg before s)
argstoenv-Binds (suc rounds) [] (some r) xs prm arg before s lt e args =
    subst (λ p. Binds s [] (some r) xs before (argstoenv (suc rounds) p arg before s)) (sym e)
      (argstoenv-symbol rounds r xs arg before s args)
argstoenv-Binds (suc rounds) (t ∷ names) rest xs prm arg before s lt (a, e, key, params) args =
    let (left, others) = fe_cdr-others s (slotted (first_value xs) s) xs arg refl args in
    let round =
      argstoenv-round rounds a arg (behind s.pairs arg) (first_value xs) t before s key
        (fe_car-first s xs arg args) left in
    let binds =
      argstoenv-Binds rounds names rest (other_values xs) (s.pairs a).1 (behind s.pairs arg)
        ((symbol t, s.next) ∷ before) (slotted (first_value xs) s) (omega (arith, lt)) params
        others in
    subst (λ p. Binds s (t ∷ names) rest xs before (argstoenv (suc rounds) p arg before s)) (sym e)
      (subst (Binds s (t ∷ names) rest xs before) (sym round)
        (parameter-Binds s t names rest xs before _ binds))
