-- ===== src/Eval/Start.antt =====
-- The store that fe_open of src/fe.c makes.
use fex.Common.{ℕ, List, [], ◌∷◌, Bytes, codes, bytes_eq, if◌then◌else◌}
use fex.Budget.{Limits}
use fex.Eval.{
  Prim, p_let, p_set, p_if, p_fn, p_mac, p_while, p_return, p_module, p_export, p_import, p_get,
  p_put, p_quote, p_and, p_or, p_do, p_cons, p_car, p_cdr, p_setcar, p_setcdr, p_list, p_not, p_is,
  p_atom, p_print, p_lt, p_lte, p_gt, p_gte, p_add, p_sub, p_mul, p_div, Value, nil, symbol, prim,
  bindings, Closure, Store,
}

-- primnames
abbrev pub primnames : List (Bytes × Prim)
primnames =
    (codes "let", p_let)
    ∷ (codes "=", p_set)
    ∷ (codes "if", p_if)
    ∷ (codes "fn", p_fn)
    ∷ (codes "mac", p_mac)
    ∷ (codes "while", p_while)
    ∷ (codes "return", p_return)
    ∷ (codes "module", p_module)
    ∷ (codes "export", p_export)
    ∷ (codes "import", p_import)
    ∷ (codes "get", p_get)
    ∷ (codes "put", p_put)
    ∷ (codes "quote", p_quote)
    ∷ (codes "and", p_and)
    ∷ (codes "or", p_or)
    ∷ (codes "do", p_do)
    ∷ (codes "cons", p_cons)
    ∷ (codes "car", p_car)
    ∷ (codes "cdr", p_cdr)
    ∷ (codes "setcar", p_setcar)
    ∷ (codes "setcdr", p_setcdr)
    ∷ (codes "list", p_list)
    ∷ (codes "not", p_not)
    ∷ (codes "is", p_is)
    ∷ (codes "atom", p_atom)
    ∷ (codes "print", p_print)
    ∷ (codes "<", p_lt)
    ∷ (codes "<=", p_lte)
    ∷ (codes ">", p_gt)
    ∷ (codes ">=", p_gte)
    ∷ (codes "+", p_add)
    ∷ (codes "-", p_sub)
    ∷ (codes "*", p_mul)
    ∷ (codes "/", p_div)
    ∷ []

unfoldable pub prim_named : Bytes → List (Bytes × Prim) → Value
prim_named name [] = nil
prim_named name ((n, p) ∷ rest) =
    let others = prim_named name rest in if bytes_eq n name then prim p else others

-- The value of a symbol in a new context: a primitive, or that of `t`, which is itself.
unfoldable pub first_global : Bytes → Value
first_global name =
    if bytes_eq name (codes "t") then symbol (codes "t") else prim_named name primnames

abbrev pub no_closure : Closure
no_closure = record { def_env = bindings []; free_vars = []; params = nil; body = nil }

-- A new context without objects of a program.
unfoldable pub fe_open : (max_eval_depth : ℕ) → Limits → Store
fe_open max_depth limits = record {
  next = 0;
  pairs = λ a. (nil, nil);
  closures = λ a. no_closure;
  slots = λ a. nil;
  maps = λ a. [];
  globals = first_global;
  modulestack = [];
  printed = [];
  calllist = [];
  current_eval_depth = 0;
  max_eval_depth = max_depth;
  limits = limits;
}
