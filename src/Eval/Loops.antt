-- ===== src/Eval/Loops.antt =====
-- The loops of eval in src/fe.c over arguments and statements.
--
-- A loop takes one fuel for each round, and evaluates by the evaluator that it is given. The lists
-- are objects, so that they need not end; evallist conses its list from the back, with the values in
-- the order of the arguments.
use fex.Common.{ℕ, zero, suc, Bool, true, false, not, ◌∷◌, Option, none, some, if◌then◌else◌}
use fex.Eval.{
  Value, nil, number, Env, division_by_zero, M, pure, fail, out_of_fuel, ◌>>=◌, ◌>>◌, modify, Host,
  Evaluator,
}
use fex.Eval.Access.{is_nil, fe_truthy, fe_nextarg, fe_cons, cdr, checknum, is_return_obj}

-- How a primitive or a call goes on: with its value, or in a tail position with an expression, or
-- with the expansion of a macro. `newenv` is passed on.
pub data Next : Type 0 where
  done : Value → (newenv : Option Env) → Next
  tail_call : (in_func_tail : Bool) → (obj : Value) → (env : Env) → (newenv : Option Env) → Next
  expanded : (obj : Value) → (env : Env) → (newenv : Option Env) → Next

-- The environment that a call of eval has left in the variable that it was given.
abbrev pub env_of : Env → Option Env → Env
env_of env none = env
env_of env (some env') = env'

-- Behind a condition that is false: the arguments after the branch.
unfoldable pub skip_branch : Value → M Value
skip_branch nil = pure nil
skip_branch rest = cdr rest

abbrev pub same_truth : Bool → Bool → Bool
same_truth true b = b
same_truth false b = not b

module _ (ev : Evaluator) where
  -- evalarg: the value of the next argument, and the arguments behind it.
  unfoldable pub evalarg : Value → Env → M (Value × Value)
  evalarg arg env = do (obj, rest) ← fe_nextarg arg; (v, newenv) ← ev obj env none; pure (v, rest)

  -- A statement, which may extend the environment.
  unfoldable pub eval_statement : Value → Env → M (Value × Env)
  eval_statement obj env = do (v, newenv) ← ev obj env (some env); pure (v, env_of env newenv)

  unfoldable pub evallist : (fuel : ℕ) → Value → Env → M Value
  evallist zero lst env = out_of_fuel
  evallist (suc fuel) nil env = pure nil
  evallist (suc fuel) lst env = do
    (v, rest) ← evalarg lst env
    values ← evallist fuel rest env
    fe_cons v values

  -- P_IF
  unfoldable pub if_loop : (fuel : ℕ) → (in_func_tail : Bool) → Value → Env → Option Env → M Next
  if_loop zero tail arg env newenv = out_of_fuel
  if_loop (suc fuel) tail nil env newenv = pure (done nil newenv)
  if_loop (suc fuel) tail arg env newenv = do
    otherwise ← cdr arg
    if is_nil otherwise
        then (fe_nextarg arg >>= λ (obj, rest). pure (tail_call tail obj env newenv))
        else (do
          (va, rest) ← evalarg arg env
          if fe_truthy va
              then (fe_nextarg rest >>= λ (obj, others). pure (tail_call tail obj env newenv))
              else (skip_branch rest >>= λ others. if_loop fuel tail others env newenv))

  -- P_DO
  unfoldable pub do_loop : (fuel : ℕ) → (in_func_tail : Bool) → Value → Env → Option Env → M Next
  do_loop zero tail arg env newenv = out_of_fuel
  do_loop (suc fuel) tail nil env newenv = pure (done nil newenv)
  do_loop (suc fuel) tail arg env newenv = do
    (expr, rest) ← fe_nextarg arg
    if is_nil rest then pure (tail_call tail expr env newenv) else (do
      (res, env') ← eval_statement expr env
      returns ← is_return_obj res
      if returns then pure (done res newenv) else do_loop fuel tail rest env' newenv)

  -- The statements in the body of P_WHILE.
  unfoldable pub body_loop : (fuel : ℕ) → Value → Env → (res : Value) → M (Value × Env)
  body_loop zero body env res = out_of_fuel
  body_loop (suc fuel) nil env res = pure (res, env)
  body_loop (suc fuel) body env res = do
    (expr, rest) ← fe_nextarg body
    (v, env') ← eval_statement expr env
    returns ← is_return_obj v
    if is_nil rest
        then pure (v, env')
        else if returns
        then pure (v, env')
        else body_loop fuel rest env' v

  -- P_WHILE
  unfoldable pub while_loop : (fuel : ℕ) → (cond_expr body : Value) → Env → (res : Value) → M Value
  while_loop zero cond_expr body env res = out_of_fuel
  while_loop (suc fuel) cond_expr body env res = do
    (c, newenv) ← ev cond_expr env none
    if fe_truthy c
        then (do
          (v, env') ← body_loop fuel body env res
          returns ← is_return_obj v
          if returns then pure v else while_loop fuel cond_expr body env' v)
        else pure res

  -- P_AND and P_OR: up to the first value whose truth is `stop`.
  unfoldable pub logic_loop : (fuel : ℕ) → (stop : Bool) → Value → Env → (res : Value) → M Value
  logic_loop zero stop arg env res = out_of_fuel
  logic_loop (suc fuel) stop nil env res = pure res
  logic_loop (suc fuel) stop arg env res = do
    (v, rest) ← evalarg arg env
    if same_truth stop (fe_truthy v) then pure v else logic_loop fuel stop rest env v

  -- P_PRINT: the values that are written.
  unfoldable pub print_loop : (fuel : ℕ) → Value → Env → M Value
  print_loop zero arg env = out_of_fuel
  print_loop (suc fuel) nil env = pure nil
  print_loop (suc fuel) arg env = do
    (v, rest) ← evalarg arg env
    modify (λ s. record s { printed = v ∷ s.printed })
    print_loop fuel rest env

  -- A number argument: its bits, and the arguments behind it.
  unfoldable pub evalnum : Value → Env → M (ℕ × Value)
  evalnum arg env = do (v, rest) ← evalarg arg env; x ← checknum v; pure (x, rest)

  -- The loop of arithop.
  unfoldable pub arith_loop : (fuel : ℕ) → (op : ℕ → ℕ → ℕ) → (x : ℕ) → Value → Env → M Value
  arith_loop zero op x arg env = out_of_fuel
  arith_loop (suc fuel) op x nil env = pure (number x)
  arith_loop (suc fuel) op x arg env = do
    (y, rest) ← evalnum arg env
    arith_loop fuel op (op x y) rest env

  -- P_DIV
  unfoldable pub div_loop : (fuel : ℕ) → Host → (x : ℕ) → Value → Env → M Value
  div_loop zero host x arg env = out_of_fuel
  div_loop (suc fuel) host x nil env = pure (number x)
  div_loop (suc fuel) host x arg env = do
    (d, rest) ← evalnum arg env
    if host.same d host.number_zero
        then fail division_by_zero
        else div_loop fuel host (host.divide x d) rest env
