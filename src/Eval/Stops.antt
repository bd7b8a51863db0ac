-- ===== src/Eval/Stops.antt =====
-- eval and fe_eval of src/fe.c under a step limit.
use fex.Common.{
  ℕ, zero, suc, ◌-◌, ◌^◌, ◌<◌, ◌≤◌, ◌≡◌, refl, sym, ◌∙◌, Bool, true, false, [], codes, Option, none,
  some, if◌then◌else◌, arith,
}
use fex.Budget.{Abort, check_eval_budget, begin_eval_run, end_eval_run}
use fex.Budget.Counts.{
  check_eval_budget-Counted, begin_eval_run-starts, end_eval_run-nesting, end_eval_run-within,
}
use fex.Eval.{
  Value, nil, symbol, pair, Env, bindings, Store, aborted, depth_limit_exceeded, Outcome, ok, error,
  exhausted, endless, beyond, M, pure, gets, ◌>>=◌, ◌>>◌, modify, Host, Evaluator, copied, nil_copy,
}
use fex.Eval.Access.{
  is_nil, is_symbol, check_budget, check_depth, too_deep, entered, leave, within_frame,
}
use fex.Eval.Loops.{Next, done, tail_call, expanded}
use fex.Eval.Run.{
  strip_return, unwrap_return, eval_pair, copied_value, eval_cell, finish, eval_object, eval,
  fe_eval,
}
use fex.Eval.Ends.{
  Limited, left, Fine, Ends, After-refl, then-Ends, step-Ends, any-Ends, pure-Ends, gets-Ends,
}
use fex.Eval.Quiet.{if-Ends, car-Ends, cdr-Ends, is_return_obj-Ends}
use fex.Eval.Rounds.{Evaluates, fewer-Evaluates}
use fex.Eval.Primitives.{Steady, apply-Ends}

check_budget-Ends : (host : Host) (n : ℕ) → Ends 1 n (check_budget host)
unfolding check_budget
check_budget-Ends host n = record {
  ends =
      λ s l le. stopped s l (check_eval_budget s.limits (host.clock s) (host.interrupt s)).1 refl;
}
  where
    stopped :
        (s : Store)
        → Limited s
        → (abort : Option Abort)
        → (check_eval_budget s.limits (host.clock s) (host.interrupt s)).1 ≡ abort
        → Fine 1 s (elim abort [
          | none ↦ ok tt (record s {
            limits = (check_eval_budget s.limits (host.clock s) (host.interrupt s)).0;
          })
          | some a ↦ error (aborted a)
        ])
    stopped s l (some a) e = tt
    stopped s l none e =
        let c =
          check_eval_budget-Counted s.limits (host.clock s) (host.interrupt s) l.positive l.small
            l.within e in
        record {
          limited = record {
            positive = omega (arith, c.step_limit, l.positive);
            small = omega (arith, c.step_limit, l.small);
            within = omega (arith, c.step_limit, c.steps, c.within);
          };
          steps = omega (arith, c.step_limit, c.steps, c.within);
          depth = refl;
          calls = refl;
          nesting = c.nesting;
        }

check_depth-Ends : (n : ℕ) → Ends 0 n check_depth
unfolding check_depth
check_depth-Ends n = record { ends = λ s l le. either s l (too_deep s) }
  where
    either :
        (s : Store)
        → Limited s
        → (b : Bool) → Fine 0 s (if b then error depth_limit_exceeded else ok tt s)
    either s l true = tt
    either s l false = After-refl s l

within_frame-Ends :
    {A : Type 0} (k n : ℕ) (obj : Value) (m : M A) → Ends k n m → Ends k n (within_frame obj m)
unfolding within_frame
within_frame-Ends {A} k n obj m e = record {
  ends = λ s l le. left_frame s (m (entered obj s)) (
      e.ends (entered obj s) (record { positive = l.positive; small = l.small; within = l.within })
        le);
}
  where
    left_frame :
        (s : Store) (o : Outcome A) → Fine k (entered obj s) o → Fine k s (leave s.calllist o)
    left_frame s (ok a s') x = record {
      limited = record {
        positive = x.limited.positive;
        small = x.limited.small;
        within = x.limited.within;
      };
      steps = x.steps;
      depth = omega (arith, x.depth);
      calls = refl;
      nesting = x.nesting;
    }
    left_frame s (error f) x = tt
    left_frame s exhausted x = elim x [ ]
    left_frame s endless x = tt
    left_frame s beyond x = tt

strip_return-Ends : (n : ℕ) (tail : Bool) (obj : Value) → Ends 0 n (strip_return tail obj)
unfolding strip_return
strip_return-Ends n true (pair a) = then-Ends (gets-Ends (λ s. s.pairs a)) (λ (op, ret_args).
    if-Ends (is_symbol op (codes "return"))
      (if-Ends (is_nil ret_args) (pure-Ends nil) (car-Ends ret_args)) (pure-Ends (pair a)))
strip_return-Ends n tail obj = pure-Ends obj

unwrap_return-Ends : (n : ℕ) (tail : Bool) (v : Value) → Ends 0 n (unwrap_return tail v)
unfolding unwrap_return
unwrap_return-Ends n false v = pure-Ends v
unwrap_return-Ends n true v =
    then-Ends (is_return_obj-Ends v) (λ returns. if-Ends returns (cdr-Ends v) (pure-Ends v))

copied_value-Ends : (n a : ℕ) (v : Value) → Ends 0 n (copied_value a v)
unfolding copied_value
copied_value-Ends n a nil = pure-Ends (nil_copy a)
copied_value-Ends n a (nil_copy b) = pure-Ends (nil_copy a)
copied_value-Ends n a (symbol sym) = gets-Ends (λ s. s.globals sym)
copied_value-Ends n a other = pure-Ends _

module _ (host : Host) (steady : Steady host) where
  eval_pair-Ends :
      (ev : Evaluator) (fuel n : ℕ) (tail : Bool) (a : ℕ) (env : Env) (newenv : Option Env)
      → n < fuel
      → Evaluates ev n
      → Ends 1 n (eval_pair host ev fuel tail a env newenv)
  unfolding eval_pair
  eval_pair-Ends ev fuel n tail a env newenv lt e =
      then-Ends (gets-Ends (λ s. s.pairs a)) (λ (head, arg).
        step-Ends (e.evaluates head env none) (λ (fn, ne) some_left.
          apply-Ends host steady ev fuel (n - 1) (omega (arith, lt, some_left)) (fewer-Evaluates e)
            a fn tail arg env newenv))

  finish-Ends :
      (again : Bool → Evaluator) (n : ℕ) (tail : Bool) (next : Next)
      → ((t : Bool) → Evaluates (again t) n)
      → Ends 0 n (finish again tail next)
  unfolding finish
  finish-Ends again n tail (done v newenv) e =
      then-Ends (unwrap_return-Ends n tail v) (λ res. pure-Ends _)
  finish-Ends again n tail (tail_call t obj env newenv) e =
      any-Ends ((e t).evaluates obj env newenv)
  finish-Ends again n tail (expanded obj env newenv) e =
      any-Ends (step-Ends ((e false).evaluates obj env none) (λ (v, ne) some_left. pure-Ends _))

  eval_cell-Ends :
      (again : Bool → Evaluator) (fuel n : ℕ) (tail : Bool) (head rest : Value) (a : ℕ) (env : Env)
      (newenv : Option Env)
      → n < fuel
      → ((t : Bool) → Evaluates (again t) n)
      → Ends 0 n (eval_cell again host fuel tail head rest a env newenv)
  unfolding eval_cell
  eval_cell-Ends again fuel n tail copied original a env newenv lt e =
      then-Ends (copied_value-Ends n a original) (λ v. pure-Ends _)
  eval_cell-Ends again fuel n tail head rest a env newenv lt e =
      then-Ends
        (within_frame-Ends 0 n (pair a) _
          (any-Ends (eval_pair-Ends (again false) fuel n tail a env newenv lt (e false))))
        (λ next. finish-Ends again n tail next e)

  eval_object-Ends :
      (again : Bool → Evaluator) (fuel n : ℕ) (tail : Bool) (obj : Value) (env : Env)
      (newenv : Option Env)
      → n < fuel
      → ((t : Bool) → Evaluates (again t) n)
      → Ends 0 n (eval_object again host fuel tail obj env newenv)
  unfolding eval_object
  eval_object-Ends again fuel n tail (symbol sym) env newenv lt e =
      then-Ends (check_depth-Ends n) (λ done. then-Ends (gets-Ends _) (λ v. pure-Ends _))
  eval_object-Ends again fuel n tail (pair a) env newenv lt e =
      then-Ends (check_depth-Ends n) (λ done.
        then-Ends (gets-Ends (λ s. s.pairs a))
          (λ (head, rest). eval_cell-Ends again fuel n tail head rest a env newenv lt e))
  eval_object-Ends again fuel n tail obj env newenv lt e =
      then-Ends (check_depth-Ends n) (λ done. pure-Ends _)

  -- More fuel than steps are left is enough.
  eval-Evaluates : (fuel n : ℕ) (tail : Bool) → n < fuel → Evaluates (eval host fuel tail) n
  unfolding eval
  eval-Evaluates zero n tail lt = absurd (omega (arith, lt))
  eval-Evaluates (suc fuel) n tail lt = record {
    evaluates = λ obj env newenv. then-Ends (strip_return-Ends n tail obj) (λ expr.
        step-Ends (check_budget-Ends host n) (λ done some_left.
          eval_object-Ends (eval host fuel) fuel (n - 1) tail expr env newenv
            (omega (arith, lt, some_left))
            (λ t. eval-Evaluates fuel (n - 1) t (omega (arith, lt, some_left)))));
  }

-- The store behind a run: the call frames are as they were, no run is left open, and no more steps
-- were taken than the limit allows.
pub record Returned (s s' : Store) : Type 0 where
  pub depth : s'.current_eval_depth ≡ s.current_eval_depth
  pub calls : s'.calllist ≡ s.calllist
  pub nesting : s'.limits.eval_depth ≡ 0
  pub within : s'.limits.steps_executed ≤ s'.limits.step_limit

-- An outcome that is no lack of fuel.
abbrev pub Ended : Store → Outcome Value → Type 0
Ended s (ok v s') = Returned s s'
Ended s exhausted = ⊥
Ended s other = Unit {0}

abbrev started : Host → Store → Store
started host s = record s { limits = begin_eval_run s.limits (host.clock s) }

started-Limited :
    (host : Host) (s : Store)
    → s.limits.eval_depth ≡ 0
    → 0 < s.limits.step_limit
    → s.limits.step_limit < 2 ^ 64 - 1
    → Limited (started host s) × (left (started host s) ≤ s.limits.step_limit)
started-Limited host s first positive small =
    let (limit, steps, nesting) = begin_eval_run-starts s.limits (host.clock s) first in
    (
      record {
        positive = omega (arith, limit, positive);
        small = omega (arith, limit, small);
        within = omega (arith, steps);
      },
      omega (arith, limit),
    )

-- At the top of the program, with a step limit below 2 ^ 64 - 1 in force and more fuel than it
-- allows steps, fe_eval ends, if the C functions and the loading of modules do and keep the limits
-- and the frames: with a value, the call frames as they were, no run left open and no more steps
-- than allowed, or with an error. Only a loop of the C code over a list without an end, and an
-- access to what is no pair, are left out.
pub fe_eval-Ended :
    (host : Host) (fuel : ℕ) (obj : Value) (s : Store)
    → Steady host
    → s.limits.eval_depth ≡ 0
    → 0 < s.limits.step_limit
    → s.limits.step_limit < 2 ^ 64 - 1
    → s.limits.step_limit < fuel
    → Ended s (fe_eval host fuel obj s)
unfolding fe_eval ◌>>=◌ gets modify pure
fe_eval-Ended host fuel obj s steady first positive small lt =
    let (limited, room) = started-Limited host s first positive small in
    let e = eval-Evaluates host steady fuel s.limits.step_limit false lt in
    ended (eval host fuel false obj (bindings []) none (started host s))
      ((e.evaluates obj (bindings []) none).ends (started host s) limited room)
  where
    ended :
        (o : Outcome (Value × Option Env))
        → Fine 1 (started host s) o
        → Ended s (
            ((λ t. o) >>= λ (res, ne).
            modify (λ t. record t { limits = end_eval_run t.limits }) >> pure res)
              (started host s))
    ended (ok (v, ne) s') x =
        let (limit, steps, nesting) = begin_eval_run-starts s.limits (host.clock s) first in
        record {
          depth = x.depth;
          calls = x.calls;
          nesting = end_eval_run-nesting s'.limits (x.nesting ∙ nesting);
          within = end_eval_run-within s'.limits x.limited.within;
        }
    ended (error f) x = tt
    ended exhausted x = elim x [ ]
    ended endless x = tt
    ended beyond x = tt
