-- ===== src/Closure.antt =====
-- The free variables of a function in src/fe.c: list_has and analyze, over the core expressions.
--
-- The special forms are told by their symbols. A variable is a symbol, so by its name; the bound
-- list holds what stands in parameter lists, and only its symbols count. The loops over a list stop
-- at a tail that is no pair, which is nil in the lists that the parser builds; behind the arguments
-- of a call such a tail is looked at itself. fe_cons and the stack of the collector are left out.
pub mod Members
pub mod Free
pub mod Sound
mod Examples
use fex.Common.{Bool, true, false, ◌||◌, List, [], ◌∷◌, Bytes, codes, bytes_eq, if◌then◌else◌}
use fex.Parser.Expr.{Expr, nil_object, symbol, pair, symbol_name_eq}

unfoldable pub list_has : List Expr → Bytes → Bool
list_has [] item = false
list_has (x ∷ list) item = symbol_name_eq x item || list_has list item

-- The same for the list of the free variables.
unfoldable pub names_have : List Bytes → Bytes → Bool
names_have [] item = false
names_have (x ∷ list) item = bytes_eq x item || names_have list item

-- The base case at a symbol.
pub analyze_symbol : Bytes → (bound : List Expr) → (free_vars : List Bytes) → List Bytes
analyze_symbol s bound free_vars =
    if list_has bound s || names_have free_vars s then free_vars else s ∷ free_vars

-- How a pair is analysed, by its first element.
pub data Form : Type 0 where
  quote_form do_form fn_form call_form : Form

pub form_of : Expr → Form
form_of op =
    if symbol_name_eq op (codes "quote")
    then quote_form
    else if symbol_name_eq op (codes "do")
    then do_form
    else if symbol_name_eq op (codes "fn") || symbol_name_eq op (codes "mac")
    then fn_form
    else call_form

-- The list of the bound variables behind a statement of a `do`.
pub bind_let : (stmt : Expr) → List Expr → List Expr
bind_let (pair op (pair var rest)) bound =
    if symbol_name_eq op (codes "let") then var ∷ bound else bound
bind_let (pair op other) bound =
    if symbol_name_eq op (codes "let") then nil_object ∷ bound else bound
bind_let other bound = bound

-- The bound list that a function starts with: its parameters, a list that ends in nil. Behind another
-- end the loop of the code reads the fields of an atom as car and cdr, and gives no defined list.
pub parameters : (params : Expr) → List Expr → List Expr
parameters (pair p params) inner_bound = parameters params (p ∷ inner_bound)
parameters other inner_bound = inner_bound

-- The loop over the free variables of an inner function.
pub analyze_inner : (inner_free : List Bytes) → List Expr → List Bytes → List Bytes
analyze_inner [] bound free_vars = free_vars
analyze_inner (s ∷ inner_free) bound free_vars =
    analyze_inner inner_free bound (analyze_symbol s bound free_vars)

unfoldable mutual
  pub analyze : Expr → (bound : List Expr) → (free_vars : List Bytes) → List Bytes
  analyze (symbol s) bound free_vars = analyze_symbol s bound free_vars
  analyze (pair op args) bound free_vars = elim (form_of op) [
    | quote_form ↦ free_vars
    | do_form ↦ analyze_do args bound free_vars
    | fn_form ↦ analyze_fn args bound free_vars
    | call_form ↦ analyze_args args bound (analyze op bound free_vars)
  ]
  analyze other bound free_vars = free_vars

  -- The loop over the arguments of a call.
  pub analyze_args : (args : Expr) → (bound : List Expr) → (free_vars : List Bytes) → List Bytes
  analyze_args nil_object bound free_vars = free_vars
  analyze_args (pair arg rest) bound free_vars =
      analyze_args rest bound (analyze arg bound free_vars)
  analyze_args (symbol s) bound free_vars = analyze_symbol s bound free_vars
  analyze_args other bound free_vars = free_vars

  -- The loop over the statements of a `do`.
  pub analyze_do : (args : Expr) → (bound : List Expr) → (free_vars : List Bytes) → List Bytes
  analyze_do (pair stmt rest) bound free_vars =
      analyze_do rest (bind_let stmt bound) (analyze_stmt stmt bound free_vars)
  analyze_do other bound free_vars = free_vars

  -- A statement of a `do`: of `(let var expr)` the expression.
  pub analyze_stmt : (stmt : Expr) → (bound : List Expr) → (free_vars : List Bytes) → List Bytes
  analyze_stmt (symbol s) bound free_vars = analyze_symbol s bound free_vars
  analyze_stmt (pair op args) bound free_vars = elim (symbol_name_eq op (codes "let")) [
    | true ↦ analyze_second args bound free_vars
    | false ↦ elim (form_of op) [
      | quote_form ↦ free_vars
      | do_form ↦ analyze_do args bound free_vars
      | fn_form ↦ analyze_fn args bound free_vars
      | call_form ↦ analyze_args args bound (analyze op bound free_vars)
    ]
  ]
  analyze_stmt other bound free_vars = free_vars

  -- A function: the free variables of its body are looked at in the outer scope.
  pub analyze_fn : (args : Expr) → (bound : List Expr) → (free_vars : List Bytes) → List Bytes
  analyze_fn (pair params rest) bound free_vars =
      analyze_inner (analyze_first rest (parameters params []) []) bound free_vars
  analyze_fn other bound free_vars = free_vars

  -- The first and the second element of a list.
  pub analyze_first : (list : Expr) → (bound : List Expr) → (free_vars : List Bytes) → List Bytes
  analyze_first (pair x rest) bound free_vars = analyze x bound free_vars
  analyze_first other bound free_vars = free_vars

  pub analyze_second : (list : Expr) → (bound : List Expr) → (free_vars : List Bytes) → List Bytes
  analyze_second (pair x rest) bound free_vars = analyze_first rest bound free_vars
  analyze_second other bound free_vars = free_vars
