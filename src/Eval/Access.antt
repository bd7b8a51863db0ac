-- ===== src/Eval/Access.antt =====
-- What eval of src/fe.c reads of objects and writes to them.
use fex.Common.{
  ℕ, ◌+◌, Bool, true, false, not, List, [], ◌∷◌, Bytes, codes, bytes_eq, Option, none, some, update,
  if◌then◌else◌, ◌==◌, ltb, leb, ◌-◌, ◌&&◌,
}
use fex.Budget.{check_eval_budget}
use fex.Eval.{
  Prim, p_let, p_set, p_if, p_fn, p_mac, p_while, p_return, p_module, p_export, p_import, p_get,
  p_put, p_quote, p_and, p_or, p_do, p_cons, p_car, p_cdr, p_setcar, p_setcdr, p_list, p_not, p_is,
  p_atom, p_print, p_lt, p_lte, p_gt, p_gte, p_add, p_sub, p_mul, p_div, Value, nil, boolean,
  number, symbol, text, prim, cfunc, pair, func, macro, map_value, nil_copy, Binding, Env, frame,
  bindings, Closure, Store, aborted, too_few_arguments, dotted_arguments, wrong_type,
  depth_limit_exceeded, Outcome, ok, error, M, pure, fail, undefined, gets, modify, Host,
}

abbrev pub is_nil : Value → Bool
is_nil nil = true
is_nil other = false

abbrev pub fe_truthy : Value → Bool
fe_truthy nil = false
fe_truthy (boolean b) = b
fe_truthy other = true

abbrev pub is_symbol : Value → Bytes → Bool
is_symbol (symbol s) name = bytes_eq s name
is_symbol other name = false

-- car and cdr without a check.
unfoldable pub car : Value → M Value
car (pair a) = gets (λ s. (s.pairs a).0)
car other = undefined

unfoldable pub cdr : Value → M Value
cdr (pair a) = gets (λ s. (s.pairs a).1)
cdr other = undefined

unfoldable pub fe_car : Value → M Value
fe_car nil = pure nil
fe_car (pair a) = gets (λ s. (s.pairs a).0)
fe_car other = fail wrong_type

unfoldable pub fe_cdr : Value → M Value
fe_cdr nil = pure nil
fe_cdr (pair a) = gets (λ s. (s.pairs a).1)
fe_cdr other = fail wrong_type

-- The next argument and the arguments behind it.
unfoldable pub fe_nextarg : Value → M (Value × Value)
fe_nextarg nil = fail too_few_arguments
fe_nextarg (pair a) = gets (λ s. s.pairs a)
fe_nextarg other = fail dotted_arguments

unfoldable pub fe_cons : (car cdr : Value) → M Value
fe_cons x y s =
    ok (pair s.next) (record s { next = s.next + 1; pairs = update s.pairs s.next (x, y) })

unfoldable pub set_pair : ℕ → (car cdr : Value) → M (Unit {0})
set_pair a x y = modify (λ s. record s { pairs = update s.pairs a (x, y) })

-- A new slot with a value.
unfoldable pub new_slot : Value → M ℕ
new_slot v s = ok s.next (record s { next = s.next + 1; slots = update s.slots s.next v })

unfoldable pub set_slot : ℕ → Value → M (Unit {0})
set_slot a v = modify (λ s. record s { slots = update s.slots a v })

unfoldable pub make_closure : Closure → M ℕ
make_closure c s = ok s.next (record s { next = s.next + 1; closures = update s.closures s.next c })

-- checknum: the bits of a number.
unfoldable pub checknum : Value → M ℕ
checknum (number bits) = pure bits
checknum other = fail wrong_type

unfoldable pub check_symbol : Value → M Bytes
check_symbol (symbol s) = pure s
check_symbol other = fail wrong_type

-- The address of a pair, which checktype demands.
unfoldable pub check_pair : Value → M ℕ
check_pair (pair a) = pure a
check_pair other = fail wrong_type

unfoldable pub is_return_obj : Value → M Bool
is_return_obj (pair a) = gets (λ s. is_symbol (s.pairs a).0 (codes "return"))
is_return_obj other = pure false

-- fe_set: the global value of a symbol.
unfoldable pub fe_set : Bytes → Value → M (Unit {0})
fe_set name v = modify (λ s. record s { globals = λ x. if bytes_eq name x then v else s.globals x })

-- The loops of getbound over a list of bindings.
unfoldable pub find_slot : (sym : Bytes) → List Binding → Option ℕ
find_slot sym [] = none
find_slot sym ((key, slot) ∷ rest) = elim (is_symbol key sym) [
  | true ↦ some slot
  | false ↦ find_slot sym rest
]

abbrev pub or_slot : Option ℕ → Option ℕ → Option ℕ
or_slot none other = other
or_slot (some slot) other = some slot

-- The binding of a symbol: `none` is its global one.
unfoldable pub getbound : (sym : Bytes) → Env → Option ℕ
getbound sym (frame locals upvals) = or_slot (find_slot sym locals) (find_slot sym upvals)
getbound sym (bindings env) = find_slot sym env

abbrev pub bound_value : (sym : Bytes) → Option ℕ → Store → Value
bound_value sym none s = s.globals sym
bound_value sym (some slot) s = s.slots slot

abbrev pub set_bound : (sym : Bytes) → Option ℕ → Value → M (Unit {0})
set_bound sym none v = fe_set sym v
set_bound sym (some slot) v = set_slot slot v

-- The place of a primitive in the enum, which its object holds.
abbrev prim_code : Prim → ℕ
prim_code p_let = 0
prim_code p_set = 1
prim_code p_if = 2
prim_code p_fn = 3
prim_code p_mac = 4
prim_code p_while = 5
prim_code p_return = 6
prim_code p_module = 7
prim_code p_export = 8
prim_code p_import = 9
prim_code p_get = 10
prim_code p_put = 11
prim_code p_quote = 12
prim_code p_and = 13
prim_code p_or = 14
prim_code p_do = 15
prim_code p_cons = 16
prim_code p_car = 17
prim_code p_cdr = 18
prim_code p_setcar = 19
prim_code p_setcdr = 20
prim_code p_list = 21
prim_code p_not = 22
prim_code p_is = 23
prim_code p_atom = 24
prim_code p_print = 25
prim_code p_lt = 26
prim_code p_lte = 27
prim_code p_gt = 28
prim_code p_gte = 29
prim_code p_add = 30
prim_code p_sub = 31
prim_code p_mul = 32
prim_code p_div = 33

-- Numbers are equal by their value: whether a NaN is the same object is not known here.
unfoldable pub equal : Host → Value → Value → Bool
equal host nil nil = true
equal host (boolean true) (boolean b) = b
equal host (boolean false) (boolean b) = not b
equal host (number x) (number y) = host.same x y
equal host (symbol x) (symbol y) = bytes_eq x y
equal host (text x) (text y) = bytes_eq x y
equal host (prim p) (prim q) = prim_code p == prim_code q
equal host (cfunc x) (cfunc y) = x == y
equal host (pair x) (pair y) = x == y
equal host (func x) (func y) = x == y
equal host (macro x) (macro y) = x == y
equal host (map_value x) (map_value y) = x == y
equal host (nil_copy x) (nil_copy y) = x == y
equal host x y = false

-- check_eval_budget, which raises the error.
unfoldable pub check_budget : Host → M (Unit {0})
check_budget host s =
    let (limits, abort) = check_eval_budget s.limits (host.clock s) (host.interrupt s) in
    elim abort [ none ↦ ok tt (record s { limits = limits }) | some a ↦ error (aborted a) ]

abbrev pub too_deep : Store → Bool
too_deep s = ltb 0 s.max_eval_depth && leb s.max_eval_depth s.current_eval_depth

unfoldable pub check_depth : M (Unit {0})
check_depth s = if too_deep s then error depth_limit_exceeded else ok tt s

-- The call frame of an expression, and what is left of it when the frame has been taken off.
abbrev pub entered : Value → Store → Store
entered obj s = record s {
  current_eval_depth = s.current_eval_depth + 1;
  calllist = obj ∷ s.calllist;
}

abbrev pub leave : {A : Type 0} → (calllist : List Value) → Outcome A → Outcome A
leave calllist (ok a s) =
    ok a (record s { current_eval_depth = s.current_eval_depth - 1; calllist = calllist })
leave calllist other = other

-- A run inside of the call frame of an expression.
unfoldable pub within_frame : {A : Type 0} → Value → M A → M A
within_frame obj m s = leave s.calllist (m (entered obj s))
