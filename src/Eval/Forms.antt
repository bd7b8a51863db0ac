-- ===== src/Eval/Forms.antt =====
-- Bindings, functions and modules in eval of src/fe.c.
use fex.Common.{
  ℕ, zero, suc, Bool, true, false, ◌||◌, ◌==◌, List, [], ◌∷◌, Bytes, codes, Option, none, some,
  if◌then◌else◌,
}
use fex.Parser.Expr.{Expr, nil_object}
use fex.Closure.{analyze, parameters}
use fex.Eval.{
  Value, nil, symbol, text, pair, map_value, Binding, Env, frame, bindings, Closure, Store,
  nul_in_name, outside_of_module, wrong_type, M, pure, fail, forever, undefined, gets, ◌>>=◌, ◌>>◌,
  modify, Evaluator, copied,
}
use fex.Eval.Access.{
  is_nil, is_symbol, fe_car, fe_cdr, fe_nextarg, new_slot, set_slot, make_closure, check_symbol,
  fe_set, getbound, set_bound,
}
use fex.Eval.Members.{fe_map, put_entry}
use fex.Eval.Loops.{Next, done, eval_statement, evalarg}

-- A new binding in front of the others of an environment.
abbrev pub with_binding : Binding → Env → Env
with_binding b (frame locals upvals) = frame (b ∷ locals) upvals
with_binding b (bindings env) = bindings (b ∷ env)

-- P_LET: the binding is there, with nil, while the value is evaluated; without `newenv` the value is
-- the global one.
unfoldable pub eval_let : Evaluator → (sym : Bytes) → (val_expr : Value) → Env → Option Env → M Next
eval_let ev sym val_expr env none = do
  (val, ne) ← ev val_expr env none
  fe_set sym val
  pure (done val none)
eval_let ev sym val_expr env (some outer) = do
  slot ← new_slot nil
  (val, ne) ← ev val_expr (with_binding (symbol sym, slot) outer) none
  set_slot slot val
  pure (done val (some (with_binding (symbol sym, slot) outer)))

-- The mark of a pair that is the copy of an atom now.
abbrev pub is_copied : Value → Bool
is_copied copied = true
is_copied other = false

-- The expression that an object is, as analyze looks at it: other atoms than symbols are alike. An
-- object that is nested more deeply than there are objects has no end.
unfoldable pub expr_of : (rounds : ℕ) → Store → Value → Option Expr
expr_of zero s v = none
expr_of (suc rounds) s nil = some nil_object
expr_of (suc rounds) s (symbol name) = some (Expr.symbol name)
expr_of (suc rounds) s (pair a) =
    let first = expr_of rounds s (s.pairs a).0 in
    let others = expr_of rounds s (s.pairs a).1 in
    if is_copied (s.pairs a).0 then some (Expr.boolean true) else pair_of first others
  where
    pair_of : Option Expr → Option Expr → Option Expr
    pair_of (some x) (some y) = some (Expr.pair x y)
    pair_of x y = none
expr_of (suc rounds) s other = some (Expr.boolean true)

unfoldable pub is_list : Expr → Bool
is_list nil_object = true
is_list (Expr.pair x y) = is_list y
is_list other = false

-- The variables that a function captures, from its parameters and its body. Data that is quoted counts
-- as a part of the body here, though analyze does not look at it.
abbrev pub captured_of : (params body : Option Expr) → M (List Bytes)
captured_of (some params) (some body) =
    if is_list params then pure (analyze body (parameters params []) []) else undefined
captured_of params body = forever

-- P_FN and P_MAC.
unfoldable pub make_function : (arg : Value) → Env → M ℕ
make_function arg env = do
  (params, rest) ← fe_nextarg arg
  body ← fe_car rest
  free_vars ← (λ s. captured_of (expr_of (suc s.next) s params) (expr_of (suc s.next) s body) s)
  make_closure (record { def_env = env; free_vars = free_vars; params = params; body = body })

-- The bindings with that of a captured variable. A global one needs no entry.
abbrev pub with_captured : (sym : Bytes) → Option ℕ → (upvals : List Binding) → List Binding
with_captured sym none upvals = upvals
with_captured sym (some slot) upvals = (symbol sym, slot) ∷ upvals

-- The loop over the free variables of a call.
unfoldable pub upvalues : List Bytes → (def_env : Env) → (upvals : List Binding) → List Binding
upvalues [] def_env upvals = upvals
upvalues (sym ∷ free_vars) def_env upvals =
    upvalues free_vars def_env (with_captured sym (getbound sym def_env) upvals)

-- argstoenv, with new slots for the arguments.
unfoldable pub argstoenv :
    (rounds : ℕ) → (prm arg : Value) → (env : List Binding) → M (List Binding)
argstoenv zero prm arg env = forever
argstoenv (suc rounds) nil arg env = pure env
argstoenv (suc rounds) (pair a) arg env = do
  (key, prm) ← gets (λ s. s.pairs a)
  x ← fe_car arg
  slot ← new_slot x
  rest ← fe_cdr arg
  argstoenv rounds prm rest ((key, slot) ∷ env)
argstoenv (suc rounds) prm arg env = do slot ← new_slot arg; pure ((prm, slot) ∷ env)

-- The frame of a call.
unfoldable pub call_frame : Closure → (arg : Value) → M Env
call_frame c arg = do
  n ← gets (λ s. s.next)
  locals ← argstoenv (suc n) c.params arg []
  pure (frame locals (upvalues c.free_vars c.def_env []))

-- The name of a module, from a symbol or a string.
unfoldable pub module_name : Value → M Bytes
module_name (symbol s) = pure s
module_name (text s) = if has_nul s then fail nul_in_name else pure s
  where
    has_nul : Bytes → Bool
    has_nul [] = false
    has_nul (c ∷ rest) = (c == 0) || has_nul rest
module_name other = fail wrong_type

unfoldable pub push_module : ℕ → M (Unit {0})
push_module m = modify (λ s. record s { modulestack = m ∷ s.modulestack })

abbrev pub popped : List ℕ → M ℕ
popped [] = undefined
popped (m ∷ stack) = modify (λ s. record s { modulestack = stack }) >> pure m

unfoldable pub pop_module : M ℕ
pop_module = gets (λ s. s.modulestack) >>= popped

-- P_MODULE
unfoldable pub eval_module : Evaluator → (arg : Value) → Env → M Value
eval_module ev arg env = do
  (name, rest) ← fe_nextarg arg
  (body, others) ← fe_nextarg rest
  name_sym ← module_name name
  exports ← fe_map
  push_module exports
  (res, env') ← eval_statement ev body env
  exports' ← pop_module
  fe_set name_sym (map_value exports')
  pure (map_value exports')

-- The last expression of a list.
unfoldable pub last_name : (rounds : ℕ) → (exprs : Value) → M Value
last_name zero exprs = forever
last_name (suc rounds) (pair a) = do
  (x, rest) ← gets (λ s. s.pairs a)
  if is_nil rest then pure x else last_name rounds rest
last_name (suc rounds) other = undefined

-- The name in an assignment, or that at the end of the list.
unfoldable pub assigned_name : (first exprs : Value) → M Value
assigned_name (pair f) exprs = do
  (op, rest) ← gets (λ s. s.pairs f)
  if is_symbol op (codes "=")
      then (fe_cdr (pair f) >>= fe_car)
      else (gets (λ s. s.next) >>= λ n. last_name (suc n) exprs)
assigned_name first exprs = gets (λ s. s.next) >>= λ n. last_name (suc n) exprs

unfoldable pub block_name : (exprs : Value) → M Value
block_name (pair a) = gets (λ s. (s.pairs a).0) >>= λ first. assigned_name first (pair a)
block_name other = undefined

-- The name that an export declares: that of a let, of the assignment of a block, or the last one.
unfoldable pub exported_name : (decl : Value) → M Value
exported_name (symbol s) = pure (symbol s)
exported_name (pair a) = do
  (op, rest) ← gets (λ s. s.pairs a)
  if is_symbol op (codes "let")
      then (fe_cdr (pair a) >>= fe_car)
      else if is_symbol op (codes "do")
      then block_name rest
      else undefined
exported_name other = undefined

abbrev pub top_module : List ℕ → M ℕ
top_module [] = fail outside_of_module
top_module (m ∷ stack) = pure m

unfoldable pub current_module : M ℕ
current_module = gets (λ s. s.modulestack) >>= top_module

-- P_EXPORT, with the environment behind the declaration.
unfoldable pub eval_export : Evaluator → (arg : Value) → Env → M Value
eval_export ev arg env = do
  exports ← current_module
  (decl, rest) ← fe_nextarg arg
  name ← exported_name decl
  name_sym ← check_symbol name
  (res, env') ← eval_statement ev decl env
  put_entry exports name_sym res
  pure res

-- P_SET
unfoldable pub eval_set : Evaluator → (arg : Value) → Env → M Value
eval_set ev arg env = do
  (name, rest) ← fe_nextarg arg
  sym ← check_symbol name
  (v, others) ← evalarg ev rest env
  set_bound sym (getbound sym env) v
  pure nil
