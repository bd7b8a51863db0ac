-- ===== src/Closure/Free.antt =====
-- When a variable occurs free in an expression, without the list that analyze collects.
use fex.Common.{Bool, true, false, ◌||◌, ◌&&◌, not, Bytes, codes, bytes_eq}
use fex.Parser.Expr.{Expr, symbol, pair, symbol_name_eq}
use fex.Closure.{quote_form, do_form, fn_form, call_form, form_of}

-- A `let` statement of the name.
abbrev pub binds : Bytes → (stmt : Expr) → Bool
binds x (pair op (pair var rest)) = symbol_name_eq op (codes "let") && symbol_name_eq var x
binds x other = false

abbrev pub is_parameter : Bytes → (params : Expr) → Bool
is_parameter x (pair p params) = symbol_name_eq p x || is_parameter x params
is_parameter x other = false

-- A symbol is free where it is not hidden. Nothing is free in a quote. A function binds its
-- parameters in its body, which starts a scope of its own, and what is free in it is free outside if
-- it is not hidden there. A `let` of a `do` binds its variable in the later statements.
unfoldable mutual
  pub occurs_free : Bytes → Expr → (hidden : Bool) → Bool
  occurs_free x (symbol s) hidden = bytes_eq s x && not hidden
  occurs_free x (pair op args) hidden = elim (form_of op) [
    | quote_form ↦ false
    | do_form ↦ free_in_do x args hidden
    | fn_form ↦ free_in_fn x args hidden
    | call_form ↦ occurs_free x op hidden || free_in_args x args hidden
  ]
  occurs_free x other hidden = false

  pub free_in_args : Bytes → (args : Expr) → (hidden : Bool) → Bool
  free_in_args x (pair arg rest) hidden = occurs_free x arg hidden || free_in_args x rest hidden
  free_in_args x (symbol s) hidden = bytes_eq s x && not hidden
  free_in_args x other hidden = false

  pub free_in_do : Bytes → (args : Expr) → (hidden : Bool) → Bool
  free_in_do x (pair stmt rest) hidden =
      free_in_stmt x stmt hidden || free_in_do x rest (binds x stmt || hidden)
  free_in_do x other hidden = false

  pub free_in_stmt : Bytes → (stmt : Expr) → (hidden : Bool) → Bool
  free_in_stmt x (symbol s) hidden = bytes_eq s x && not hidden
  free_in_stmt x (pair op args) hidden = elim (symbol_name_eq op (codes "let")) [
    | true ↦ free_in_second x args hidden
    | false ↦ elim (form_of op) [
      | quote_form ↦ false
      | do_form ↦ free_in_do x args hidden
      | fn_form ↦ free_in_fn x args hidden
      | call_form ↦ occurs_free x op hidden || free_in_args x args hidden
    ]
  ]
  free_in_stmt x other hidden = false

  pub free_in_fn : Bytes → (args : Expr) → (hidden : Bool) → Bool
  free_in_fn x (pair params rest) hidden =
      free_in_first x rest (is_parameter x params) && not hidden
  free_in_fn x other hidden = false

  pub free_in_first : Bytes → (list : Expr) → (hidden : Bool) → Bool
  free_in_first x (pair y rest) hidden = occurs_free x y hidden
  free_in_first x other hidden = false

  pub free_in_second : Bytes → (list : Expr) → (hidden : Bool) → Bool
  free_in_second x (pair y rest) hidden = free_in_first x rest hidden
  free_in_second x other hidden = false
