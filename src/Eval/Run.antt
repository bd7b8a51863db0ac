-- ===== src/Eval/Run.antt =====
-- eval and fe_eval of src/fe.c.
--
-- A call of eval takes one fuel, as does each `goto tail_call`.
use fex.Common.{ℕ, zero, suc, Bool, true, false, [], codes, Option, none, if◌then◌else◌}
use fex.Budget.{begin_eval_run, end_eval_run}
use fex.Eval.{
  Value, nil, symbol, pair, Env, bindings, M, pure, out_of_fuel, gets, ◌>>=◌, ◌>>◌, modify, Host,
  Evaluator, copied, nil_copy,
}
use fex.Eval.Access.{
  is_nil, is_symbol, car, cdr, getbound, bound_value, is_return_obj, check_budget, check_depth,
  within_frame,
}
use fex.Eval.Loops.{Next, done, tail_call, expanded}
use fex.Eval.Prims.{apply}

-- `(return X)` in the tail position of a function is X.
unfoldable pub strip_return : (in_func_tail : Bool) → Value → M Value
strip_return true (pair a) = do
  (op, ret_args) ← gets (λ s. s.pairs a)
  if is_symbol op (codes "return")
      then (if is_nil ret_args then pure nil else car ret_args)
      else pure (pair a)
strip_return tail obj = pure obj

-- At the end of a call in the tail position of a function: what a `return` holds.
unfoldable pub unwrap_return : (in_func_tail : Bool) → Value → M Value
unwrap_return false v = pure v
unwrap_return true v = is_return_obj v >>= λ returns. if returns then cdr v else pure v

-- A pair: the head is evaluated and gets the rest.
unfoldable pub eval_pair :
    Host → Evaluator → (fuel : ℕ) → (in_func_tail : Bool) → (a : ℕ) → Env → Option Env → M Next
eval_pair host ev fuel tail a env newenv = do
  (head, arg) ← gets (λ s. s.pairs a)
  (fn, ne) ← ev head env none
  apply host ev fuel a fn tail arg env newenv

-- The value of a copy: that of a symbol is its global one, since bindings know the symbol itself. Of
-- other atoms the copy is like the original, but the copy of nil is not nil.
unfoldable pub copied_value : (a : ℕ) → (original : Value) → M Value
copied_value a nil = pure (nil_copy a)
copied_value a (nil_copy b) = pure (nil_copy a)
copied_value a (symbol sym) = gets (λ s. s.globals sym)
copied_value a other = pure other

module _ (again : (in_func_tail : Bool) → Evaluator) where
  -- How eval goes on, outside of the call frame.
  unfoldable pub finish : (in_func_tail : Bool) → Next → M (Value × Option Env)
  finish tail (done v newenv) = unwrap_return tail v >>= λ res. pure (res, newenv)
  finish tail (tail_call t obj env newenv) = again t obj env newenv
  finish tail (expanded obj env newenv) = again false obj env none >>= λ (v, ne). pure (v, newenv)

  -- eval of a pair, or of what a macro has made of it.
  unfoldable pub eval_cell :
      Host
      → (fuel : ℕ) → (in_func_tail : Bool) → (head rest : Value) → (a : ℕ) → Env
      → Option Env
      → M (Value × Option Env)
  eval_cell host fuel tail copied original a env newenv =
      copied_value a original >>= λ v. pure (v, newenv)
  eval_cell host fuel tail head rest a env newenv = do
    next ← within_frame (pair a) (eval_pair host (again false) fuel tail a env newenv)
    finish tail next

  -- eval behind the check of the budget.
  unfoldable pub eval_object :
      Host → (fuel : ℕ) → (in_func_tail : Bool) → Value → Env → Option Env → M (Value × Option Env)
  eval_object host fuel tail (symbol sym) env newenv = do
    check_depth
    v ← gets (bound_value sym (getbound sym env))
    pure (v, newenv)
  eval_object host fuel tail (pair a) env newenv = do
    check_depth
    (head, rest) ← gets (λ s. s.pairs a)
    eval_cell host fuel tail head rest a env newenv
  eval_object host fuel tail obj env newenv = check_depth >> pure (obj, newenv)

unfoldable pub eval :
    Host → (fuel : ℕ) → (in_func_tail : Bool) → Value → Env → Option Env → M (Value × Option Env)
eval host zero tail obj env newenv = out_of_fuel
eval host (suc fuel) tail obj env newenv = do
  expr ← strip_return tail obj
  check_budget host
  eval_object (eval host fuel) host fuel tail expr env newenv

unfoldable pub fe_eval : Host → (fuel : ℕ) → Value → M Value
fe_eval host fuel obj = do
  now ← gets host.clock
  modify (λ s. record s { limits = begin_eval_run s.limits now })
  (res, ne) ← eval host fuel false obj (bindings []) none
  modify (λ s. record s { limits = end_eval_run s.limits })
  pure res
