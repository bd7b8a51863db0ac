-- ===== src/Eval/Captures.antt =====
-- What a function of src/fe.c captures when it is made: P_FN and P_MAC, with analyze.
use fex.Common.{
  ℕ, suc, ◌+◌, ◌≡◌, refl, ◌∙◌, ap, Bool, true, false, ◌||◌, [], Bytes, Option, none, some,
  if◌then◌else◌, update,
}
use fex.Parser.Expr.{Expr}
use fex.Closure.{list_has, names_have, parameters, analyze}
use fex.Closure.Free.{is_parameter, occurs_free}
use fex.Closure.Members.{distinct}
use fex.Closure.Sound.{list_has-parameters, analyze-occurs_free}
use fex.Eval.{Value, pair, Env, Closure, Store, ok, pure, gets, ◌>>=◌}
use fex.Eval.Access.{fe_car, fe_nextarg, make_closure, getbound}
use fex.Eval.Forms.{expr_of, is_list, captured_of, make_function}
use fex.Eval.Frames.{bind-ok}
use fex.Eval.Calls.{captured_slot}

-- The function of a parameter list and a body, in an environment.
abbrev pub function_of : (params body : Expr) → (params_value body_value : Value) → Env → Closure
function_of params body params_value body_value env = record {
  def_env = env;
  free_vars = analyze body (parameters params []) [];
  params = params_value;
  body = body_value;
}

-- A store with a new function.
abbrev pub with_function : Closure → Store → Store
with_function c s = record s { next = s.next + 1; closures = update s.closures s.next c }

captured_slot-function_of :
    (params body : Expr) (params_value body_value : Value) (env : Env) (name : Bytes)
    → captured_slot name (function_of params body params_value body_value env)
      ≡ (if occurs_free name body (is_parameter name params) then getbound name env else none)
unfolding names_have distinct list_has
captured_slot-function_of params body params_value body_value env name =
    ap (λ b. if b then getbound name env else none)
      ((analyze-occurs_free body (parameters params []) [] refl).0 name
        ∙ ap (occurs_free name body)
            (list_has-parameters name params [] ∙ or_false (is_parameter name params)))
  where
    or_false : (b : Bool) → b || list_has [] name ≡ b
    or_false true = refl
    or_false false = refl

captured_of-list :
    (params body : Expr) (p b : Option Expr) (s : Store)
    → p ≡ some params
    → b ≡ some body
    → is_list params ≡ true
    → captured_of p b s ≡ ok (analyze body (parameters params []) []) s
unfolding pure
captured_of-list params body p b s e e' h = rw (e, e', h) refl

-- A function has been made of the elements of the pairs a and b, with what is bound to its free
-- variables.
abbrev pub Captures : Store → (a b : ℕ) → (params body : Expr) → Env → Type 0
Captures s a b params body env =
    (c : Closure) × (make_function (pair a) env s ≡ ok s.next (with_function c s))
    × (c.params ≡ (s.pairs a).0)
    × (c.body ≡ (s.pairs b).0)
    × ((name : Bytes)
        → captured_slot name c
          ≡ (if occurs_free name body (is_parameter name params) then getbound name env else none))

-- P_FN and P_MAC with a list of parameters and a body, both of them finite data: the new function
-- has these, nothing else changes, and the binding that it has captured for a name is the one that
-- the name had where the function was made, if the name occurs free in the body, and none
-- otherwise.
pub make_function-captured_slot :
    (a b : ℕ) (params body : Expr) (env : Env) (s : Store)
    → (s.pairs a).1 ≡ pair b
    → expr_of (suc s.next) s (s.pairs a).0 ≡ some params
    → expr_of (suc s.next) s (s.pairs b).0 ≡ some body
    → is_list params ≡ true
    → Captures s a b params body env
unfolding make_function fe_nextarg fe_car gets ◌>>=◌ make_closure
make_function-captured_slot a b params body env s next e e' h = (
  function_of params body (s.pairs a).0 (s.pairs b).0 env,
  bind-ok (fe_car (s.pairs a).1) _ s s (s.pairs b).0 (ap (λ v. fe_car v s) next)
      ∙ bind-ok
          (λ s.
            captured_of (expr_of (suc s.next) s (s.pairs a).0)
              (expr_of (suc s.next) s (s.pairs b).0) s)
          _ s s (analyze body (parameters params []) [])
          (captured_of-list params body _ _ s e e' h),
  refl,
  refl,
  captured_slot-function_of params body (s.pairs a).0 (s.pairs b).0 env,
)
