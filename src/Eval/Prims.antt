-- ===== src/Eval/Prims.antt =====
-- The primitives of eval in src/fe.c, and calls of functions and macros.
use fex.Common.{ℕ, Bool, true, false, not, codes, Option, if◌then◌else◌}
use fex.Eval.{
  Prim, p_let, p_set, p_if, p_fn, p_mac, p_while, p_return, p_module, p_export, p_import, p_get,
  p_put, p_quote, p_and, p_or, p_do, p_cons, p_car, p_cdr, p_setcar, p_setcdr, p_list, p_not, p_is,
  p_atom, p_print, p_lt, p_lte, p_gt, p_gte, p_add, p_sub, p_mul, p_div, Value, nil, boolean,
  number, symbol, prim, cfunc, pair, func, macro, Env, Closure, not_callable, M, pure, fail,
  undefined, gets, ◌>>=◌, ◌>>◌, Host, Evaluator, copied,
}
use fex.Eval.Access.{
  is_nil, fe_truthy, fe_car, fe_cdr, fe_nextarg, fe_cons, set_pair, check_symbol, check_pair, equal,
}
use fex.Eval.Members.{fe_map_set, get_member}
use fex.Eval.Loops.{
  Next, done, tail_call, expanded, evalarg, eval_statement, evalnum, evallist, if_loop, do_loop,
  while_loop, logic_loop, print_loop, arith_loop, div_loop,
}
use fex.Eval.Forms.{eval_let, make_function, call_frame, eval_module, eval_export, eval_set}

-- The pair at an address becomes the copy of another object: it gets the contents of a pair, and a
-- mark in front of an atom. A boolean and an immediate number are no objects that could be read.
unfoldable pub replace_pair : Host → (obj : ℕ) → Value → M (Unit {0})
replace_pair host obj (pair a) = gets (λ s. s.pairs a) >>= λ (x, y). set_pair obj x y
replace_pair host obj (boolean b) = undefined
replace_pair host obj (number bits) =
    if host.fixnum bits then undefined else set_pair obj copied (number bits)
replace_pair host obj other = set_pair obj copied other

module _ (host : Host) (ev : Evaluator) (fuel : ℕ) where
  -- P_GET
  unfoldable pub eval_get : Value → Env → M Value
  eval_get arg env = do
    (va, rest) ← evalarg ev arg env
    (vb, others) ← fe_nextarg rest
    sym ← check_symbol vb
    get_member va sym

  -- P_PUT
  unfoldable pub eval_put : Value → Env → M Value
  eval_put arg env = do
    (va, rest) ← evalarg ev arg env
    (vb, others) ← fe_nextarg rest
    (res, more) ← evalarg ev others env
    fe_map_set va vb res
    pure res

  -- P_RETURN: the value in a pair with the symbol `return`.
  unfoldable pub eval_return : Value → Env → M Value
  eval_return nil env = fe_cons (symbol (codes "return")) nil
  eval_return arg env = do (va, rest) ← evalarg ev arg env; fe_cons (symbol (codes "return")) va

  -- Two arguments.
  unfoldable pub evalargs : Value → Env → M (Value × Value)
  evalargs arg env = do
    (va, rest) ← evalarg ev arg env
    (vb, others) ← evalarg ev rest env
    pure (va, vb)

  -- P_SETCAR and P_SETCDR
  unfoldable pub eval_setcar : Value → Env → M Value
  eval_setcar arg env = do
    (va, rest) ← evalarg ev arg env
    a ← check_pair va
    (v, others) ← evalarg ev rest env
    old ← gets (λ s. (s.pairs a).1)
    set_pair a v old
    pure nil

  unfoldable pub eval_setcdr : Value → Env → M Value
  eval_setcdr arg env = do
    (va, rest) ← evalarg ev arg env
    a ← check_pair va
    (v, others) ← evalarg ev rest env
    old ← gets (λ s. (s.pairs a).0)
    set_pair a old v
    pure nil

  -- numcmpop
  unfoldable pub eval_compare : (ℕ → ℕ → Bool) → Value → Env → M Value
  eval_compare test arg env = do
    (x, rest) ← evalnum ev arg env
    (y, others) ← evalnum ev rest env
    pure (boolean (test x y))

  -- P_SUB
  unfoldable pub eval_sub : Value → Env → M Value
  eval_sub nil env = pure (number host.number_zero)
  eval_sub arg env = do
    (x, rest) ← evalnum ev arg env
    if is_nil rest then pure (number (host.negate x)) else arith_loop ev fuel host.sub x rest env

  unfoldable pub eval_arith : (ℕ → ℕ → ℕ) → Value → Env → M Value
  eval_arith op arg env = do (x, rest) ← evalnum ev arg env; arith_loop ev fuel op x rest env

  unfoldable pub eval_while : Value → Env → M Value
  eval_while arg env = do
    (cond_expr, body) ← fe_nextarg arg
    while_loop ev fuel cond_expr body env nil

  -- The primitives that give a value and leave `newenv` as it is.
  unfoldable pub prim_value : Prim → Value → Env → M Value
  prim_value p_module arg env = eval_module ev arg env
  prim_value p_export arg env = eval_export ev arg env
  prim_value p_import arg env = fe_nextarg arg >>= λ (spec, rest). host.import_module spec
  prim_value p_get arg env = eval_get arg env
  prim_value p_put arg env = eval_put arg env
  prim_value p_return arg env = eval_return arg env
  prim_value p_set arg env = eval_set ev arg env
  prim_value p_fn arg env = make_function arg env >>= λ c. pure (func c)
  prim_value p_mac arg env = make_function arg env >>= λ c. pure (macro c)
  prim_value p_while arg env = eval_while arg env
  prim_value p_quote arg env = fe_nextarg arg >>= λ (x, rest). pure x
  prim_value p_and arg env = logic_loop ev fuel false arg env nil
  prim_value p_or arg env = logic_loop ev fuel true arg env nil
  prim_value p_cons arg env = evalargs arg env >>= λ (x, y). fe_cons x y
  prim_value p_car arg env = evalarg ev arg env >>= λ (x, rest). fe_car x
  prim_value p_cdr arg env = evalarg ev arg env >>= λ (x, rest). fe_cdr x
  prim_value p_setcar arg env = eval_setcar arg env
  prim_value p_setcdr arg env = eval_setcdr arg env
  prim_value p_list arg env = evallist ev fuel arg env
  prim_value p_not arg env = evalarg ev arg env >>= λ (x, rest). pure (boolean (not (fe_truthy x)))
  prim_value p_is arg env = evalargs arg env >>= λ (x, y). pure (boolean (equal host x y))
  prim_value p_atom arg env = evalarg ev arg env >>= λ (x, rest). pure (boolean (is_atom x))
    where
      is_atom : Value → Bool
      is_atom (pair a) = false
      is_atom other = true
  prim_value p_print arg env = print_loop ev fuel arg env
  prim_value p_lt arg env = eval_compare host.less arg env
  prim_value p_lte arg env = eval_compare host.less_or_equal arg env
  prim_value p_gt arg env = eval_compare (λ x y. host.less y x) arg env
  prim_value p_gte arg env = eval_compare (λ x y. host.less_or_equal y x) arg env
  prim_value p_add arg env = eval_arith host.add arg env
  prim_value p_sub arg env = eval_sub arg env
  prim_value p_mul arg env = eval_arith host.mul arg env
  prim_value p_div arg env = evalnum ev arg env >>= λ (x, rest). div_loop ev fuel host x rest env
  prim_value other arg env = pure nil

  -- A primitive: `let`, `if` and `do` go on by themselves.
  unfoldable pub run_prim : Prim → (in_func_tail : Bool) → (arg : Value) → Env → Option Env → M Next
  run_prim p_let tail arg env newenv = do
    (name, rest) ← fe_nextarg arg
    sym ← check_symbol name
    (val_expr, others) ← fe_nextarg rest
    eval_let ev sym val_expr env newenv
  run_prim p_if tail arg env newenv = if_loop ev fuel tail arg env newenv
  run_prim p_do tail arg env newenv = do_loop ev fuel tail arg env newenv
  run_prim p tail arg env newenv = prim_value p arg env >>= λ v. pure (done v newenv)

  -- A call of a function: its body is in tail position.
  unfoldable pub call_function : Closure → Value → Env → Option Env → M Next
  call_function c arg env newenv = do
    args ← evallist ev fuel arg env
    callee ← call_frame c args
    pure (tail_call true c.body callee newenv)

  -- The expansion of a macro takes the place of the call.
  unfoldable pub expand_macro : (obj : ℕ) → Closure → (arg : Value) → Env → Option Env → M Next
  expand_macro obj c arg env newenv = do
    callee ← call_frame c arg
    (expansion, env') ← eval_statement ev c.body callee
    replace_pair host obj expansion
    pure (expanded (pair obj) env newenv)

  -- What the object at the head of a call does with the rest.
  unfoldable pub apply :
      (obj : ℕ) → (fn : Value) → (in_func_tail : Bool) → (arg : Value) → Env → Option Env → M Next
  apply obj (prim p) tail arg env newenv = run_prim p tail arg env newenv
  apply obj (cfunc n) tail arg env newenv = do
    args ← evallist ev fuel arg env
    res ← host.call n args
    pure (done res newenv)
  apply obj (func c) tail arg env newenv =
      gets (λ s. s.closures c) >>= λ guts. call_function guts arg env newenv
  apply obj (macro c) tail arg env newenv =
      gets (λ s. s.closures c) >>= λ guts. expand_macro obj guts arg env newenv
  apply obj other tail arg env newenv = fail not_callable
