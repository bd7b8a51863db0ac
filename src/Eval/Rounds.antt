-- ===== src/Eval/Rounds.antt =====
-- The loops of Eval.Loops with enough fuel, where each evaluation takes a step of the budget.
use fex.Common.{ℕ, zero, suc, ◌-◌, ◌<◌, refl, Bool, Option, none, some, arith}
use fex.Eval.{Value, nil, number, Env, Host, Evaluator}
use fex.Eval.Access.{is_nil, fe_truthy}
use fex.Eval.Loops.{
  env_of, skip_branch, same_truth, evalarg, eval_statement, evalnum, evallist, if_loop, do_loop,
  body_loop, while_loop, logic_loop, print_loop, arith_loop, div_loop,
}
use fex.Eval.Ends.{Ends, then-Ends, step-Ends, any-Ends, weaken-Ends, pure-Ends, fail-Ends}
use fex.Eval.Quiet.{
  if-Ends, cdr-Ends, fe_nextarg-Ends, fe_cons-Ends, checknum-Ends, is_return_obj-Ends, modify-Ends,
}

-- An evaluator that takes a step of the budget, for stores with `n` steps left.
pub record Evaluates (ev : Evaluator) (n : ℕ) : Type 0 where
  pub evaluates : (obj : Value) (env : Env) (newenv : Option Env) → Ends 1 n (ev obj env newenv)

-- For fewer steps it does so too.
pub fewer-Evaluates : {ev : Evaluator} {n : ℕ} → Evaluates ev n → Evaluates ev (n - 1)
fewer-Evaluates {ev} {n} e = record {
  evaluates = λ obj env newenv.
      weaken-Ends 1 1 n (n - 1) (ev obj env newenv) (omega arith) (omega arith)
        (e.evaluates obj env newenv);
}

module _ (ev : Evaluator) where
  pub evalarg-Ends :
      (n : ℕ) (arg : Value) (env : Env) → Evaluates ev n → Ends 1 n (evalarg ev arg env)
  unfolding evalarg
  evalarg-Ends n arg env e = then-Ends (fe_nextarg-Ends arg) (λ (obj, rest).
      step-Ends (e.evaluates obj env none) (λ (v, ne) some_left. pure-Ends (v, rest)))

  pub eval_statement-Ends :
      (n : ℕ) (obj : Value) (env : Env) → Evaluates ev n → Ends 1 n (eval_statement ev obj env)
  unfolding eval_statement
  eval_statement-Ends n obj env e =
      step-Ends (e.evaluates obj env (some env)) (λ (v, ne) some_left. pure-Ends (v, env_of env ne))

  pub evalnum-Ends :
      (n : ℕ) (arg : Value) (env : Env) → Evaluates ev n → Ends 1 n (evalnum ev arg env)
  unfolding evalnum
  evalnum-Ends n arg env e =
      step-Ends (evalarg-Ends n arg env e)
        (λ (v, rest) some_left. then-Ends (checknum-Ends v) (λ x. pure-Ends (x, rest)))

  pub evallist-Ends :
      (fuel n : ℕ) (lst : Value) (env : Env)
      → n < fuel
      → Evaluates ev n
      → Ends 0 n (evallist ev fuel lst env)
  unfolding evallist
  evallist-Ends zero n lst env lt e = absurd (omega (arith, lt))
  evallist-Ends (suc fuel) n nil env lt e = pure-Ends nil
  evallist-Ends (suc fuel) n lst env lt e = any-Ends (
      step-Ends (evalarg-Ends n lst env e) (λ (v, rest) some_left.
        then-Ends
          (evallist-Ends fuel (n - 1) rest env (omega (arith, lt, some_left)) (fewer-Evaluates e))
          (λ values. fe_cons-Ends v values)))

  skip_branch-Ends : (n : ℕ) (rest : Value) → Ends 0 n (skip_branch rest)
  unfolding skip_branch
  skip_branch-Ends n nil = pure-Ends nil
  skip_branch-Ends n rest = cdr-Ends rest

  pub if_loop-Ends :
      (fuel n : ℕ) (tail : Bool) (arg : Value) (env : Env) (newenv : Option Env)
      → n < fuel
      → Evaluates ev n
      → Ends 0 n (if_loop ev fuel tail arg env newenv)
  unfolding if_loop
  if_loop-Ends zero n tail arg env newenv lt e = absurd (omega (arith, lt))
  if_loop-Ends (suc fuel) n tail nil env newenv lt e = pure-Ends _
  if_loop-Ends (suc fuel) n tail arg env newenv lt e = then-Ends (cdr-Ends arg) (λ otherwise.
      if-Ends (is_nil otherwise) (then-Ends (fe_nextarg-Ends arg) (λ (obj, rest). pure-Ends _)) (
        any-Ends (
          step-Ends (evalarg-Ends n arg env e) (λ (va, rest) some_left.
            if-Ends (fe_truthy va) (then-Ends (fe_nextarg-Ends rest) (λ (obj, others). pure-Ends _))
              (then-Ends (skip_branch-Ends (n - 1) rest) (λ others.
                if_loop-Ends fuel (n - 1) tail others env newenv (omega (arith, lt, some_left))
                  (fewer-Evaluates e)))))))

  pub do_loop-Ends :
      (fuel n : ℕ) (tail : Bool) (arg : Value) (env : Env) (newenv : Option Env)
      → n < fuel
      → Evaluates ev n
      → Ends 0 n (do_loop ev fuel tail arg env newenv)
  unfolding do_loop
  do_loop-Ends zero n tail arg env newenv lt e = absurd (omega (arith, lt))
  do_loop-Ends (suc fuel) n tail nil env newenv lt e = pure-Ends _
  do_loop-Ends (suc fuel) n tail arg env newenv lt e =
      then-Ends (fe_nextarg-Ends arg) (λ (expr, rest). if-Ends (is_nil rest) (pure-Ends _) (
        any-Ends (
          step-Ends (eval_statement-Ends n expr env e) (λ (res, env') some_left.
            then-Ends (is_return_obj-Ends res) (λ returns. if-Ends returns (pure-Ends _) (
              do_loop-Ends fuel (n - 1) tail rest env' newenv (omega (arith, lt, some_left))
                (fewer-Evaluates e)))))))

  body_loop-Ends :
      (fuel n : ℕ) (body : Value) (env : Env) (res : Value)
      → n < fuel
      → Evaluates ev n
      → Ends 0 n (body_loop ev fuel body env res)
  unfolding body_loop
  body_loop-Ends zero n body env res lt e = absurd (omega (arith, lt))
  body_loop-Ends (suc fuel) n nil env res lt e = pure-Ends _
  body_loop-Ends (suc fuel) n body env res lt e = then-Ends (fe_nextarg-Ends body) (λ (expr, rest).
      any-Ends (
        step-Ends (eval_statement-Ends n expr env e) (λ (v, env') some_left.
          then-Ends (is_return_obj-Ends v) (λ returns. if-Ends (is_nil rest) (pure-Ends _) (
            if-Ends returns (pure-Ends _) (
              body_loop-Ends fuel (n - 1) rest env' v (omega (arith, lt, some_left))
                (fewer-Evaluates e)))))))

  pub while_loop-Ends :
      (fuel n : ℕ) (cond_expr body : Value) (env : Env) (res : Value)
      → n < fuel
      → Evaluates ev n
      → Ends 0 n (while_loop ev fuel cond_expr body env res)
  unfolding while_loop
  while_loop-Ends zero n cond_expr body env res lt e = absurd (omega (arith, lt))
  while_loop-Ends (suc fuel) n cond_expr body env res lt e = any-Ends (
      step-Ends (e.evaluates cond_expr env none) (λ (c, ne) some_left.
        if-Ends (fe_truthy c)
          (then-Ends
            (body_loop-Ends fuel (n - 1) body env res (omega (arith, lt, some_left))
              (fewer-Evaluates e))
            (λ (v, env'). then-Ends (is_return_obj-Ends v) (λ returns.
              if-Ends returns (pure-Ends v) (
                while_loop-Ends fuel (n - 1) cond_expr body env' v (omega (arith, lt, some_left))
                  (fewer-Evaluates e)))))
          (pure-Ends res)))

  pub logic_loop-Ends :
      (fuel n : ℕ) (stop : Bool) (arg : Value) (env : Env) (res : Value)
      → n < fuel
      → Evaluates ev n
      → Ends 0 n (logic_loop ev fuel stop arg env res)
  unfolding logic_loop
  logic_loop-Ends zero n stop arg env res lt e = absurd (omega (arith, lt))
  logic_loop-Ends (suc fuel) n stop nil env res lt e = pure-Ends res
  logic_loop-Ends (suc fuel) n stop arg env res lt e = any-Ends (
      step-Ends (evalarg-Ends n arg env e) (λ (v, rest) some_left.
        if-Ends (same_truth stop (fe_truthy v)) (pure-Ends v) (
          logic_loop-Ends fuel (n - 1) stop rest env v (omega (arith, lt, some_left))
            (fewer-Evaluates e))))

  pub print_loop-Ends :
      (fuel n : ℕ) (arg : Value) (env : Env)
      → n < fuel
      → Evaluates ev n
      → Ends 0 n (print_loop ev fuel arg env)
  unfolding print_loop
  print_loop-Ends zero n arg env lt e = absurd (omega (arith, lt))
  print_loop-Ends (suc fuel) n nil env lt e = pure-Ends nil
  print_loop-Ends (suc fuel) n arg env lt e = any-Ends (
      step-Ends (evalarg-Ends n arg env e) (λ (v, rest) some_left.
        then-Ends (modify-Ends _ (λ s. refl) (λ s. refl) (λ s. refl)) (λ done.
          print_loop-Ends fuel (n - 1) rest env (omega (arith, lt, some_left))
            (fewer-Evaluates e))))

  pub arith_loop-Ends :
      (fuel n : ℕ) (op : ℕ → ℕ → ℕ) (x : ℕ) (arg : Value) (env : Env)
      → n < fuel
      → Evaluates ev n
      → Ends 0 n (arith_loop ev fuel op x arg env)
  unfolding arith_loop
  arith_loop-Ends zero n op x arg env lt e = absurd (omega (arith, lt))
  arith_loop-Ends (suc fuel) n op x nil env lt e = pure-Ends (number x)
  arith_loop-Ends (suc fuel) n op x arg env lt e = any-Ends (
      step-Ends (evalnum-Ends n arg env e) (λ (y, rest) some_left.
        arith_loop-Ends fuel (n - 1) op (op x y) rest env (omega (arith, lt, some_left))
          (fewer-Evaluates e)))

  pub div_loop-Ends :
      (fuel n : ℕ) (host : Host) (x : ℕ) (arg : Value) (env : Env)
      → n < fuel
      → Evaluates ev n
      → Ends 0 n (div_loop ev fuel host x arg env)
  unfolding div_loop
  div_loop-Ends zero n host x arg env lt e = absurd (omega (arith, lt))
  div_loop-Ends (suc fuel) n host x nil env lt e = pure-Ends (number x)
  div_loop-Ends (suc fuel) n host x arg env lt e = any-Ends (
      step-Ends (evalnum-Ends n arg env e) (λ (d, rest) some_left.
        if-Ends (host.same d host.number_zero) (fail-Ends _) (
          div_loop-Ends fuel (n - 1) host (host.divide x d) rest env (omega (arith, lt, some_left))
            (fewer-Evaluates e))))
