-- ===== src/Eval/Special.antt =====
-- The forms of Eval.Forms, where each evaluation takes a step of the budget.
use fex.Common.{ℕ, zero, suc, refl, List, [], ◌∷◌, Bytes, codes, Option, none, some}
use fex.Parser.Expr.{Expr}
use fex.Eval.{Value, nil, symbol, text, pair, map_value, Binding, Env, Closure, Evaluator}
use fex.Eval.Access.{is_nil, is_symbol, getbound}
use fex.Eval.Forms.{
  with_binding, eval_let, expr_of, is_list, captured_of, make_function, argstoenv, call_frame,
  module_name, push_module, popped, pop_module, eval_module, last_name, assigned_name, block_name,
  exported_name, top_module, current_module, eval_export, eval_set,
}
use fex.Eval.Ends.{
  Ends, then-Ends, step-Ends, any-Ends, pure-Ends, gets-Ends, fail-Ends, forever-Ends,
  undefined-Ends,
}
use fex.Eval.Quiet.{
  if-Ends, fe_car-Ends, fe_cdr-Ends, fe_nextarg-Ends, new_slot-Ends, set_slot-Ends,
  make_closure-Ends, check_symbol-Ends, fe_set-Ends, set_bound-Ends, fe_map-Ends, put_entry-Ends,
  modify-Ends,
}
use fex.Eval.Rounds.{Evaluates, evalarg-Ends, eval_statement-Ends}

module _ {n : ℕ} where
  captured_of-Ends : (params body : Option Expr) → Ends 0 n (captured_of params body)
  captured_of-Ends (some params) (some body) = if-Ends (is_list params) (pure-Ends _) undefined-Ends
  captured_of-Ends none body = forever-Ends
  captured_of-Ends (some params) none = forever-Ends

  pub make_function-Ends : (arg : Value) (env : Env) → Ends 0 n (make_function arg env)
  unfolding make_function
  make_function-Ends arg env = then-Ends (fe_nextarg-Ends arg) (λ (params, rest).
      then-Ends (fe_car-Ends rest) (λ body.
        then-Ends
          (record {
            ends = λ s l le.
                (captured_of-Ends (expr_of (suc s.next) s params)
                    (expr_of (suc s.next) s body)).ends
                  s l le;
          })
          (λ free_vars. make_closure-Ends _)))

  argstoenv-Ends :
      (rounds : ℕ) (prm arg : Value) (env : List Binding) → Ends 0 n (argstoenv rounds prm arg env)
  unfolding argstoenv
  argstoenv-Ends zero prm arg env = forever-Ends
  argstoenv-Ends (suc rounds) nil arg env = pure-Ends env
  argstoenv-Ends (suc rounds) (pair a) arg env =
      then-Ends (gets-Ends (λ s. s.pairs a)) (λ (key, prm). then-Ends (fe_car-Ends arg) (λ x.
        then-Ends (new_slot-Ends x) (λ slot.
          then-Ends (fe_cdr-Ends arg)
            (λ rest. argstoenv-Ends rounds prm rest ((key, slot) ∷ env)))))
  argstoenv-Ends (suc rounds) prm arg env = then-Ends (new_slot-Ends arg) (λ slot. pure-Ends _)

  pub call_frame-Ends : (c : Closure) (arg : Value) → Ends 0 n (call_frame c arg)
  unfolding call_frame
  call_frame-Ends c arg =
      then-Ends (gets-Ends (λ s. s.next))
        (λ k. then-Ends (argstoenv-Ends (suc k) c.params arg []) (λ locals. pure-Ends _))

  module_name-Ends : (name : Value) → Ends 0 n (module_name name)
  unfolding module_name
  module_name-Ends (symbol s) = pure-Ends s
  module_name-Ends (text s) = if-Ends _ (fail-Ends _) (pure-Ends s)
  module_name-Ends other = fail-Ends _

  push_module-Ends : (m : ℕ) → Ends 0 n (push_module m)
  unfolding push_module
  push_module-Ends m = modify-Ends _ (λ s. refl) (λ s. refl) (λ s. refl)

  popped-Ends : (stack : List ℕ) → Ends 0 n (popped stack)
  popped-Ends [] = undefined-Ends
  popped-Ends (m ∷ stack) =
      then-Ends (modify-Ends _ (λ s. refl) (λ s. refl) (λ s. refl)) (λ done. pure-Ends m)

  pop_module-Ends : Ends 0 n pop_module
  unfolding pop_module
  pop_module-Ends = then-Ends (gets-Ends (λ s. s.modulestack)) popped-Ends

  last_name-Ends : (rounds : ℕ) (exprs : Value) → Ends 0 n (last_name rounds exprs)
  unfolding last_name
  last_name-Ends zero exprs = forever-Ends
  last_name-Ends (suc rounds) (pair a) =
      then-Ends (gets-Ends (λ s. s.pairs a))
        (λ (x, rest). if-Ends (is_nil rest) (pure-Ends x) (last_name-Ends rounds rest))
  last_name-Ends (suc rounds) other = undefined-Ends

  assigned_name-Ends : (first exprs : Value) → Ends 0 n (assigned_name first exprs)
  unfolding assigned_name
  assigned_name-Ends (pair f) exprs = then-Ends (gets-Ends (λ s. s.pairs f)) (λ (op, rest).
      if-Ends (is_symbol op (codes "=")) (then-Ends (fe_cdr-Ends (pair f)) fe_car-Ends)
        (then-Ends (gets-Ends (λ s. s.next)) (λ k. last_name-Ends (suc k) exprs)))
  assigned_name-Ends first exprs =
      then-Ends (gets-Ends (λ s. s.next)) (λ k. last_name-Ends (suc k) exprs)

  block_name-Ends : (exprs : Value) → Ends 0 n (block_name exprs)
  unfolding block_name
  block_name-Ends (pair a) =
      then-Ends (gets-Ends (λ s. (s.pairs a).0)) (λ first. assigned_name-Ends first (pair a))
  block_name-Ends other = undefined-Ends

  exported_name-Ends : (decl : Value) → Ends 0 n (exported_name decl)
  unfolding exported_name
  exported_name-Ends (symbol s) = pure-Ends (symbol s)
  exported_name-Ends (pair a) = then-Ends (gets-Ends (λ s. s.pairs a)) (λ (op, rest).
      if-Ends (is_symbol op (codes "let")) (then-Ends (fe_cdr-Ends (pair a)) fe_car-Ends)
        (if-Ends (is_symbol op (codes "do")) (block_name-Ends rest) undefined-Ends))
  exported_name-Ends other = undefined-Ends

  top_module-Ends : (stack : List ℕ) → Ends 0 n (top_module stack)
  top_module-Ends [] = fail-Ends _
  top_module-Ends (m ∷ stack) = pure-Ends m

  current_module-Ends : Ends 0 n current_module
  unfolding current_module
  current_module-Ends = then-Ends (gets-Ends (λ s. s.modulestack)) top_module-Ends

module _ (ev : Evaluator) (n : ℕ) (e : Evaluates ev n) where
  pub eval_let-Ends :
      (sym : Bytes) (val_expr : Value) (env : Env) (newenv : Option Env)
      → Ends 0 n (eval_let ev sym val_expr env newenv)
  unfolding eval_let
  eval_let-Ends sym val_expr env none = any-Ends (
      step-Ends (e.evaluates val_expr env none)
        (λ (val, ne) some_left. then-Ends (fe_set-Ends sym val) (λ done. pure-Ends _)))
  eval_let-Ends sym val_expr env (some outer) = then-Ends (new_slot-Ends nil) (λ slot. any-Ends (
      step-Ends (e.evaluates val_expr (with_binding (symbol sym, slot) outer) none)
        (λ (val, ne) some_left. then-Ends (set_slot-Ends slot val) (λ done. pure-Ends _))))

  pub eval_module-Ends : (arg : Value) (env : Env) → Ends 0 n (eval_module ev arg env)
  unfolding eval_module
  eval_module-Ends arg env = then-Ends (fe_nextarg-Ends arg) (λ (name, rest).
      then-Ends (fe_nextarg-Ends rest) (λ (body, others).
        then-Ends (module_name-Ends name) (λ name_sym. then-Ends fe_map-Ends (λ exports.
          then-Ends (push_module-Ends exports) (λ pushed. any-Ends (
            step-Ends (eval_statement-Ends ev n body env e) (λ (res, env') some_left.
              then-Ends pop_module-Ends (λ exports'.
                then-Ends (fe_set-Ends name_sym (map_value exports')) (λ done. pure-Ends _)))))))))

  pub eval_export-Ends : (arg : Value) (env : Env) → Ends 0 n (eval_export ev arg env)
  unfolding eval_export
  eval_export-Ends arg env = then-Ends current_module-Ends (λ exports.
      then-Ends (fe_nextarg-Ends arg) (λ (decl, rest). then-Ends (exported_name-Ends decl) (λ name.
        then-Ends (check_symbol-Ends name) (λ name_sym. any-Ends (
          step-Ends (eval_statement-Ends ev n decl env e) (λ (res, env') some_left.
            then-Ends (put_entry-Ends exports name_sym res) (λ done. pure-Ends res)))))))

  pub eval_set-Ends : (arg : Value) (env : Env) → Ends 0 n (eval_set ev arg env)
  unfolding eval_set
  eval_set-Ends arg env = then-Ends (fe_nextarg-Ends arg) (λ (name, rest).
      then-Ends (check_symbol-Ends name) (λ sym. any-Ends (
        step-Ends (evalarg-Ends ev n rest env e) (λ (v, others) some_left.
          then-Ends (set_bound-Ends sym (getbound sym env) v) (λ done. pure-Ends nil)))))
