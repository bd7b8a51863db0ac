-- ===== src/Eval/Ends.antt =====
-- What a run of eval does to the limits and the call frames.
use fex.Common.{ℕ, ◌+◌, ◌-◌, ◌^◌, ◌<◌, ◌≤◌, ◌≡◌, refl, sym, ◌∙◌, ap, arith}
use mathlib.Core.Path.{subst}
use fex.Eval.{
  Store, Failure, Outcome, ok, error, exhausted, endless, beyond, M, pure, fail, forever, undefined,
  gets, ◌>>=◌,
}

-- A store with a step limit in force that is not exceeded yet.
pub record Limited (s : Store) : Type 0 where
  pub positive : 0 < s.limits.step_limit
  pub small : s.limits.step_limit < 2 ^ 64 - 1
  pub within : s.limits.steps_executed ≤ s.limits.step_limit

-- The steps that are left.
abbrev pub left : Store → ℕ
left s = s.limits.step_limit - s.limits.steps_executed

-- A later store: the frames are those of the first, at least `k` steps have been taken, and the run
-- is as deep in calls of fe_eval.
pub record After (k : ℕ) (s s' : Store) : Type 0 where
  pub limited : Limited s'
  pub steps : left s' + k ≤ left s
  pub depth : s'.current_eval_depth ≡ s.current_eval_depth
  pub calls : s'.calllist ≡ s.calllist
  pub nesting : s'.limits.eval_depth ≡ s.limits.eval_depth

-- An outcome that is no lack of fuel.
abbrev pub Fine : {A : Type 0} → (k : ℕ) → Store → Outcome A → Type 0
Fine k s (ok a s') = After k s s'
Fine k s exhausted = ⊥
Fine k s other = Unit {0}

-- A step with enough fuel for stores with `n` steps left, which takes `k` of them at least.
pub record Ends {A : Type 0} (k n : ℕ) (m : M A) : Type 0 where
  pub ends : (s : Store) → Limited s → left s ≤ n → Fine k s (m s)

pub After-refl : (s : Store) → Limited s → After 0 s s
After-refl s l = record {
  limited = l;
  steps = omega arith;
  depth = refl;
  calls = refl;
  nesting = refl;
}

pub After-trans : (k k' : ℕ) (s t u : Store) → After k s t → After k' t u → After (k + k') s u
After-trans k k' s t u a b = record {
  limited = b.limited;
  steps = omega (arith, a.steps, b.steps);
  depth = b.depth ∙ a.depth;
  calls = b.calls ∙ a.calls;
  nesting = b.nesting ∙ a.nesting;
}

Fine-trans :
    {A : Type 0} (k k' : ℕ) (s t : Store) (o : Outcome A)
    → After k s t
    → Fine k' t o
    → Fine (k + k') s o
Fine-trans k k' s t (ok a u) x f = After-trans k k' s t u x f
Fine-trans k k' s t (error e) x f = tt
Fine-trans k k' s t exhausted x f = elim f [ ]
Fine-trans k k' s t endless x f = tt
Fine-trans k k' s t beyond x f = tt

-- Two steps after each other. The second may be given fewer steps.
pub bind-Ends :
    {A B : Type 0} (k k' n : ℕ) (m : M A) (f : A → M B)
    → Ends k n m
    → ((a : A) → k ≤ n → Ends k' (n - k) (f a))
    → Ends (k + k') n (m >>= f)
unfolding ◌>>=◌
bind-Ends {A} {B} k k' n m f e e' = record { ends = λ s l le. after s le (m s) (e.ends s l le) }
  where
    after :
        (s : Store)
        → left s ≤ n
        → (o : Outcome A) → Fine k s o
        → Fine (k + k') s (elim o [
          | ok a s' ↦ f a s'
          | error x ↦ error x
          | exhausted ↦ exhausted
          | endless ↦ endless
          | beyond ↦ beyond
        ])
    after s le (ok a s') x =
        Fine-trans k k' s s' (f a s') x
          ((e' a (omega (arith, x.steps, le))).ends s' x.limited (omega (arith, x.steps, le)))
    after s le (error f) x = tt
    after s le exhausted x = elim x [ ]
    after s le endless x = tt
    after s le beyond x = tt

Fine-weaken :
    {A : Type 0} (k k' : ℕ) (s : Store) (o : Outcome A) → k' ≤ k → Fine k s o → Fine k' s o
Fine-weaken k k' s (ok a s') le x = record {
  limited = x.limited;
  steps = omega (arith, x.steps, le);
  depth = x.depth;
  calls = x.calls;
  nesting = x.nesting;
}
Fine-weaken k k' s (error f) le x = tt
Fine-weaken k k' s exhausted le x = elim x [ ]
Fine-weaken k k' s endless le x = tt
Fine-weaken k k' s beyond le x = tt

pub weaken-Ends :
    {A : Type 0} (k k' n n' : ℕ) (m : M A) → k' ≤ k → n' ≤ n → Ends k n m → Ends k' n' m
weaken-Ends k k' n n' m le le' e = record {
  ends = λ s l small. Fine-weaken k k' s (m s) le (e.ends s l (omega (arith, small, le')));
}

-- A step that takes no budget, and one behind it.
pub then-Ends :
    {A B : Type 0} {k n : ℕ} {m : M A} {f : A → M B}
    → Ends 0 n m
    → ((a : A) → Ends k n (f a))
    → Ends k n (m >>= f)
then-Ends {A} {B} {k} {n} {m} {f} e e' =
    weaken-Ends (0 + k) k n n (m >>= f) (omega arith) (omega arith) (
      bind-Ends 0 k n m f e
        (λ a le. weaken-Ends k k n (n - 0) (f a) (omega arith) (omega arith) (e' a)))

-- A step that takes one of the budget, so that one was left, and one behind it for one step less.
pub step-Ends :
    {A B : Type 0} {n : ℕ} {m : M A} {f : A → M B}
    → Ends 1 n m
    → ((a : A) → 1 ≤ n → Ends 0 (n - 1) (f a))
    → Ends 1 n (m >>= f)
step-Ends {A} {B} {n} {m} {f} e e' =
    weaken-Ends (1 + 0) 1 n n (m >>= f) (omega arith) (omega arith) (bind-Ends 1 0 n m f e e')

-- A step that took one, where none need be taken.
pub any-Ends : {A : Type 0} {n : ℕ} {m : M A} → Ends 1 n m → Ends 0 n m
any-Ends {A} {n} {m} e = weaken-Ends 1 0 n n m (omega arith) (omega arith) e

module _ {A : Type 0} {n : ℕ} where
  pub pure-Ends : (a : A) → Ends 0 n (pure a)
  unfolding pure
  pure-Ends a = record { ends = λ s l le. After-refl s l }

  pub gets-Ends : (f : Store → A) → Ends 0 n (gets f)
  unfolding gets
  gets-Ends f = record { ends = λ s l le. After-refl s l }

module _ {A : Type 0} {k n : ℕ} where
  pub fail-Ends : (f : Failure) → Ends {A = A} k n (fail f)
  unfolding fail
  fail-Ends f = record { ends = λ s l le. tt }

  pub forever-Ends : Ends {A = A} k n forever
  unfolding forever
  forever-Ends = record { ends = λ s l le. tt }

  pub undefined-Ends : Ends {A = A} k n undefined
  unfolding undefined
  undefined-Ends = record { ends = λ s l le. tt }

-- Changes of the store that keep the limits and the frames.
pub record Quiet (f : Store → Store) : Type 0 where
  pub limits : (s : Store) → (f s).limits ≡ s.limits
  pub depth : (s : Store) → (f s).current_eval_depth ≡ s.current_eval_depth
  pub calls : (s : Store) → (f s).calllist ≡ s.calllist

pub Quiet-After : (f : Store → Store) → Quiet f → (s : Store) → Limited s → After 0 s (f s)
Quiet-After f q s l =
    let same = sym (q.limits s) in
    record {
      limited = record {
        positive = subst (λ x. 0 < x.step_limit) same l.positive;
        small = subst (λ x. x.step_limit < 2 ^ 64 - 1) same l.small;
        within = subst (λ x. x.steps_executed ≤ x.step_limit) same l.within;
      };
      steps =
          subst
            (λ x.
              x.step_limit - x.steps_executed + 0 ≤ s.limits.step_limit - s.limits.steps_executed)
            same (omega arith);
      depth = q.depth s;
      calls = q.calls s;
      nesting = ap (λ x. x.eval_depth) (q.limits s);
    }

pub changed-Ends :
    {A : Type 0} {n : ℕ} (f : Store → Store) (a : Store → A)
    → Quiet f
    → Ends 0 n (λ s. ok (a s) (f s))
changed-Ends f a q = record { ends = λ s l le. Quiet-After f q s l }
