-- ===== src/Eval/Primitives.antt =====
-- The primitives and calls of Eval.Prims, where each evaluation takes a step of the budget.
use fex.Common.{ℕ, ◌-◌, ◌<◌, ◌≤◌, Bool, true, false, Option, arith}
use fex.Eval.{
  Prim, p_let, p_set, p_if, p_fn, p_mac, p_while, p_return, p_module, p_export, p_import, p_get,
  p_put, p_quote, p_and, p_or, p_do, p_cons, p_car, p_cdr, p_setcar, p_setcdr, p_list, p_not, p_is,
  p_atom, p_print, p_lt, p_lte, p_gt, p_gte, p_add, p_sub, p_mul, p_div, Value, nil, prim, cfunc,
  pair, func, macro, Env, Closure, M, ◌>>=◌, Host, Evaluator, copied, boolean, number,
}
use fex.Eval.Access.{is_nil}
use fex.Eval.Loops.{evalarg}
use fex.Eval.Prims.{
  eval_get, eval_put, eval_return, evalargs, eval_setcar, eval_setcdr, eval_compare, eval_sub,
  eval_arith, eval_while, replace_pair, prim_value, run_prim, call_function, expand_macro, apply,
}
use fex.Eval.Ends.{
  Ends, then-Ends, step-Ends, any-Ends, pure-Ends, gets-Ends, fail-Ends, undefined-Ends,
}
use fex.Eval.Quiet.{
  if-Ends, fe_car-Ends, fe_cdr-Ends, fe_nextarg-Ends, fe_cons-Ends, set_pair-Ends,
  check_symbol-Ends, check_pair-Ends, fe_map_set-Ends, get_member-Ends,
}
use fex.Eval.Rounds.{
  Evaluates, fewer-Evaluates, evalarg-Ends, eval_statement-Ends, evalnum-Ends, evallist-Ends,
  if_loop-Ends, do_loop-Ends, while_loop-Ends, logic_loop-Ends, print_loop-Ends, arith_loop-Ends,
  div_loop-Ends,
}
use fex.Eval.Special.{
  make_function-Ends, call_frame-Ends, eval_let-Ends, eval_module-Ends, eval_export-Ends,
  eval_set-Ends,
}

-- C functions and module loading that end, and keep the frames, the budget and the step limit.
pub record Steady (host : Host) : Type 0 where
  pub calls : (n k : ℕ) (args : Value) → Ends 0 n (host.call k args)
  pub imports : (n : ℕ) (spec : Value) → Ends 0 n (host.import_module spec)

module _ (host : Host) (steady : Steady host) (ev : Evaluator) (fuel n : ℕ) (lt : n < fuel)
    (e : Evaluates ev n) where
  -- Evaluation with less fuel and a smaller budget.
  after-lt : 1 ≤ n → n - 1 < fuel
  after-lt some_left = omega (arith, lt, some_left)

  eval_get-Ends : (arg : Value) (env : Env) → Ends 0 n (eval_get host ev fuel arg env)
  unfolding eval_get
  eval_get-Ends arg env = any-Ends (
      step-Ends (evalarg-Ends ev n arg env e) (λ (va, rest) some_left.
        then-Ends (fe_nextarg-Ends rest)
          (λ (vb, others). then-Ends (check_symbol-Ends vb) (λ sym. get_member-Ends va sym))))

  eval_put-Ends : (arg : Value) (env : Env) → Ends 0 n (eval_put host ev fuel arg env)
  unfolding eval_put
  eval_put-Ends arg env = any-Ends (
      step-Ends (evalarg-Ends ev n arg env e) (λ (va, rest) some_left.
        then-Ends (fe_nextarg-Ends rest) (λ (vb, others). any-Ends (
          step-Ends (evalarg-Ends ev (n - 1) others env (fewer-Evaluates e))
            (λ (res, more) one_left.
              then-Ends (fe_map_set-Ends va vb res) (λ done. pure-Ends res))))))

  eval_return-Ends : (arg : Value) (env : Env) → Ends 0 n (eval_return host ev fuel arg env)
  unfolding eval_return
  eval_return-Ends nil env = fe_cons-Ends _ nil
  eval_return-Ends arg env =
      any-Ends (step-Ends (evalarg-Ends ev n arg env e) (λ (va, rest) some_left. fe_cons-Ends _ va))

  evalargs-Ends : (arg : Value) (env : Env) → Ends 0 n (evalargs host ev fuel arg env)
  unfolding evalargs
  evalargs-Ends arg env = any-Ends (
      step-Ends (evalarg-Ends ev n arg env e) (λ (va, rest) some_left. any-Ends (
        step-Ends (evalarg-Ends ev (n - 1) rest env (fewer-Evaluates e))
          (λ (vb, others) one_left. pure-Ends (va, vb)))))

  eval_setcar-Ends : (arg : Value) (env : Env) → Ends 0 n (eval_setcar host ev fuel arg env)
  unfolding eval_setcar
  eval_setcar-Ends arg env = any-Ends (
      step-Ends (evalarg-Ends ev n arg env e) (λ (va, rest) some_left.
        then-Ends (check_pair-Ends va) (λ a. any-Ends (
          step-Ends (evalarg-Ends ev (n - 1) rest env (fewer-Evaluates e)) (λ (v, others) one_left.
            then-Ends (gets-Ends _)
              (λ old. then-Ends (set_pair-Ends a v old) (λ done. pure-Ends nil)))))))

  eval_setcdr-Ends : (arg : Value) (env : Env) → Ends 0 n (eval_setcdr host ev fuel arg env)
  unfolding eval_setcdr
  eval_setcdr-Ends arg env = any-Ends (
      step-Ends (evalarg-Ends ev n arg env e) (λ (va, rest) some_left.
        then-Ends (check_pair-Ends va) (λ a. any-Ends (
          step-Ends (evalarg-Ends ev (n - 1) rest env (fewer-Evaluates e)) (λ (v, others) one_left.
            then-Ends (gets-Ends _)
              (λ old. then-Ends (set_pair-Ends a old v) (λ done. pure-Ends nil)))))))

  eval_compare-Ends :
      (test : ℕ → ℕ → Bool) (arg : Value) (env : Env)
      → Ends 0 n (eval_compare host ev fuel test arg env)
  unfolding eval_compare
  eval_compare-Ends test arg env = any-Ends (
      step-Ends (evalnum-Ends ev n arg env e) (λ (x, rest) some_left. any-Ends (
        step-Ends (evalnum-Ends ev (n - 1) rest env (fewer-Evaluates e))
          (λ (y, others) one_left. pure-Ends _))))

  eval_arith-Ends :
      (op : ℕ → ℕ → ℕ) (arg : Value) (env : Env) → Ends 0 n (eval_arith host ev fuel op arg env)
  unfolding eval_arith
  eval_arith-Ends op arg env = any-Ends (
      step-Ends (evalnum-Ends ev n arg env e) (λ (x, rest) some_left.
        arith_loop-Ends ev fuel (n - 1) op x rest env (after-lt some_left) (fewer-Evaluates e)))

  eval_sub-Ends : (arg : Value) (env : Env) → Ends 0 n (eval_sub host ev fuel arg env)
  unfolding eval_sub
  eval_sub-Ends nil env = pure-Ends _
  eval_sub-Ends arg env = any-Ends (
      step-Ends (evalnum-Ends ev n arg env e) (λ (x, rest) some_left.
        if-Ends (is_nil rest) (pure-Ends _) (
          arith_loop-Ends ev fuel (n - 1) host.sub x rest env (after-lt some_left)
            (fewer-Evaluates e))))

  eval_while-Ends : (arg : Value) (env : Env) → Ends 0 n (eval_while host ev fuel arg env)
  unfolding eval_while
  eval_while-Ends arg env =
      then-Ends (fe_nextarg-Ends arg)
        (λ (cond_expr, body). while_loop-Ends ev fuel n cond_expr body env nil lt e)

  -- An argument and what is made of it.
  of_arg-Ends :
      {A : Type 0} (f : Value × Value → M A) (arg : Value) (env : Env)
      → ((x rest : Value) → Ends 0 (n - 1) (f (x, rest)))
      → Ends 0 n (evalarg ev arg env >>= f)
  of_arg-Ends f arg env then_ends =
      any-Ends (step-Ends (evalarg-Ends ev n arg env e) (λ (x, rest) some_left. then_ends x rest))

  prim_value-Ends :
      (p : Prim) (arg : Value) (env : Env) → Ends 0 n (prim_value host ev fuel p arg env)
  unfolding prim_value
  prim_value-Ends p_module arg env = eval_module-Ends ev n e arg env
  prim_value-Ends p_export arg env = eval_export-Ends ev n e arg env
  prim_value-Ends p_import arg env =
      then-Ends (fe_nextarg-Ends arg) (λ (spec, rest). steady.imports n spec)
  prim_value-Ends p_get arg env = eval_get-Ends arg env
  prim_value-Ends p_put arg env = eval_put-Ends arg env
  prim_value-Ends p_return arg env = eval_return-Ends arg env
  prim_value-Ends p_set arg env = eval_set-Ends ev n e arg env
  prim_value-Ends p_fn arg env = then-Ends (make_function-Ends arg env) (λ c. pure-Ends _)
  prim_value-Ends p_mac arg env = then-Ends (make_function-Ends arg env) (λ c. pure-Ends _)
  prim_value-Ends p_while arg env = eval_while-Ends arg env
  prim_value-Ends p_quote arg env = then-Ends (fe_nextarg-Ends arg) (λ (x, rest). pure-Ends x)
  prim_value-Ends p_and arg env = logic_loop-Ends ev fuel n false arg env nil lt e
  prim_value-Ends p_or arg env = logic_loop-Ends ev fuel n true arg env nil lt e
  prim_value-Ends p_cons arg env = then-Ends (evalargs-Ends arg env) (λ (x, y). fe_cons-Ends x y)
  prim_value-Ends p_car arg env = of_arg-Ends _ arg env (λ x rest. fe_car-Ends x)
  prim_value-Ends p_cdr arg env = of_arg-Ends _ arg env (λ x rest. fe_cdr-Ends x)
  prim_value-Ends p_setcar arg env = eval_setcar-Ends arg env
  prim_value-Ends p_setcdr arg env = eval_setcdr-Ends arg env
  prim_value-Ends p_list arg env = evallist-Ends ev fuel n arg env lt e
  prim_value-Ends p_not arg env = of_arg-Ends _ arg env (λ x rest. pure-Ends _)
  prim_value-Ends p_is arg env = then-Ends (evalargs-Ends arg env) (λ (x, y). pure-Ends _)
  prim_value-Ends p_atom arg env = of_arg-Ends _ arg env (λ x rest. pure-Ends _)
  prim_value-Ends p_print arg env = print_loop-Ends ev fuel n arg env lt e
  prim_value-Ends p_lt arg env = eval_compare-Ends _ arg env
  prim_value-Ends p_lte arg env = eval_compare-Ends _ arg env
  prim_value-Ends p_gt arg env = eval_compare-Ends _ arg env
  prim_value-Ends p_gte arg env = eval_compare-Ends _ arg env
  prim_value-Ends p_add arg env = eval_arith-Ends host.add arg env
  prim_value-Ends p_sub arg env = eval_sub-Ends arg env
  prim_value-Ends p_mul arg env = eval_arith-Ends host.mul arg env
  prim_value-Ends p_div arg env = any-Ends (
      step-Ends (evalnum-Ends ev n arg env e) (λ (x, rest) some_left.
        div_loop-Ends ev fuel (n - 1) host x rest env (after-lt some_left) (fewer-Evaluates e)))
  prim_value-Ends other arg env = pure-Ends nil

  run_prim-Ends :
      (p : Prim) (tail : Bool) (arg : Value) (env : Env) (newenv : Option Env)
      → Ends 0 n (run_prim host ev fuel p tail arg env newenv)
  unfolding run_prim
  run_prim-Ends p_let tail arg env newenv = then-Ends (fe_nextarg-Ends arg) (λ (name, rest).
      then-Ends (check_symbol-Ends name) (λ sym.
        then-Ends (fe_nextarg-Ends rest)
          (λ (val_expr, others). eval_let-Ends ev n e sym val_expr env newenv)))
  run_prim-Ends p_if tail arg env newenv = if_loop-Ends ev fuel n tail arg env newenv lt e
  run_prim-Ends p_do tail arg env newenv = do_loop-Ends ev fuel n tail arg env newenv lt e
  run_prim-Ends p tail arg env newenv = then-Ends (prim_value-Ends p arg env) (λ v. pure-Ends _)

  call_function-Ends :
      (c : Closure) (arg : Value) (env : Env) (newenv : Option Env)
      → Ends 0 n (call_function host ev fuel c arg env newenv)
  unfolding call_function
  call_function-Ends c arg env newenv =
      then-Ends (evallist-Ends ev fuel n arg env lt e)
        (λ args. then-Ends (call_frame-Ends c args) (λ callee. pure-Ends _))

  replace_pair-Ends : (k obj : ℕ) (v : Value) → Ends 0 k (replace_pair host obj v)
  unfolding replace_pair
  replace_pair-Ends k obj (pair a) =
      then-Ends (gets-Ends (λ s. s.pairs a)) (λ (x, y). set_pair-Ends obj x y)
  replace_pair-Ends k obj (boolean b) = undefined-Ends
  replace_pair-Ends k obj (number bits) =
      if-Ends (host.fixnum bits) undefined-Ends (set_pair-Ends obj copied (number bits))
  replace_pair-Ends k obj other = set_pair-Ends obj copied _

  expand_macro-Ends :
      (obj : ℕ) (c : Closure) (arg : Value) (env : Env) (newenv : Option Env)
      → Ends 0 n (expand_macro host ev fuel obj c arg env newenv)
  unfolding expand_macro
  expand_macro-Ends obj c arg env newenv = then-Ends (call_frame-Ends c arg) (λ callee. any-Ends (
      step-Ends (eval_statement-Ends ev n c.body callee e) (λ (expansion, env') some_left.
        then-Ends (replace_pair-Ends (n - 1) obj expansion) (λ replaced. pure-Ends _))))

  pub apply-Ends :
      (obj : ℕ) (fn : Value) (tail : Bool) (arg : Value) (env : Env) (newenv : Option Env)
      → Ends 0 n (apply host ev fuel obj fn tail arg env newenv)
  unfolding apply
  apply-Ends obj (prim p) tail arg env newenv = run_prim-Ends p tail arg env newenv
  apply-Ends obj (cfunc k) tail arg env newenv =
      then-Ends (evallist-Ends ev fuel n arg env lt e)
        (λ args. then-Ends (steady.calls n k args) (λ res. pure-Ends _))
  apply-Ends obj (func c) tail arg env newenv =
      then-Ends (gets-Ends (λ s. s.closures c)) (λ guts. call_function-Ends guts arg env newenv)
  apply-Ends obj (macro c) tail arg env newenv =
      then-Ends (gets-Ends (λ s. s.closures c)) (λ guts. expand_macro-Ends obj guts arg env newenv)
  apply-Ends obj other tail arg env newenv = fail-Ends _
