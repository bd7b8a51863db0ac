-- ===== src/Parser/Expr.antt =====
-- The core expressions that the parser of src/fex.c builds, and its make_ functions.
--
-- A symbol is its name, since fe_symbol interns; a number is the value of its literal before it is
-- rounded to a double: an integer, or the text that strtod reads. Source spans and the stack of the
-- collector are left out.
use fex.Common.{
  ℕ, Bool, true, false, List, [], ◌∷◌, Bytes, codes, bytes_eq, Option, none, some, if◌then◌else◌,
}

pub data Number : Type 0 where
  integer : ℕ → Number
  decimal : Bytes → Number

pub data Expr : Type 0 where
  nil_object : Expr
  boolean : Bool → Expr
  number_object : Number → Expr
  symbol : Bytes → Expr
  string_object : Bytes → Expr
  pair : Expr → Expr → Expr

-- fe_car and fe_cdr: the parser takes them of lists only.
abbrev pub car : Expr → Expr
car (pair x y) = x
car other = nil_object

abbrev pub cdr : Expr → Expr
cdr (pair x y) = y
cdr other = nil_object

-- The list object of the expressions.
abbrev pub list_object : List Expr → Expr
list_object [] = nil_object
list_object (x ∷ xs) = pair x (list_object xs)

unfoldable pub make_unary : Bytes → Expr → Expr
make_unary op right = pair (symbol op) (pair right nil_object)

unfoldable pub make_binary : Bytes → Expr → Expr → Expr
make_binary op left right = pair (symbol op) (pair left (pair right nil_object))

unfoldable pub make_ternary : Bytes → Expr → Expr → Expr → Expr
make_ternary op a b c = pair (symbol op) (pair a (pair b (pair c nil_object)))

abbrev pub fn_decl_tag : Bytes
fn_decl_tag = codes "[fex-fn-decl]"

abbrev pub export_fn_decl_tag : Bytes
export_fn_decl_tag = codes "[fex-export-fn-decl]"

unfoldable pub make_named_fn_decl : (name fn_expr : Expr) → (is_export : Bool) → Expr
make_named_fn_decl name fn_expr is_export =
    pair (symbol (if is_export then export_fn_decl_tag else fn_decl_tag))
      (pair name (pair fn_expr nil_object))

-- fe_symbol_name_eq
abbrev pub symbol_name_eq : Expr → Bytes → Bool
symbol_name_eq (symbol s) name = bytes_eq s name
symbol_name_eq other name = false

-- A named function declaration: its name, its function and whether it is exported.
pub record NamedFn : Type 0 where
  pub name : Bytes
  pub fn_expr : Expr
  pub is_export : Bool

-- What stands behind the tag of a declaration.
unfoldable pub named_fn : (is_export : Bool) → Expr → Option NamedFn
named_fn is_export (pair (symbol s) (pair f rest)) =
    some (record { name = s; fn_expr = f; is_export = is_export })
named_fn is_export other = none

unfoldable pub extract_named_fn_decl : Expr → Option NamedFn
unfolding named_fn
extract_named_fn_decl (pair (symbol tag) args) =
    if bytes_eq tag fn_decl_tag
    then named_fn false args
    else if bytes_eq tag export_fn_decl_tag
    then named_fn true args
    else none
extract_named_fn_decl other = none

unfoldable pub make_do_two : (first second : Expr) → Expr
make_do_two first second = pair (symbol (codes "do")) (list_object (first ∷ second ∷ []))

unfoldable pub make_do_three : (first second third : Expr) → Expr
make_do_three first second third =
    pair (symbol (codes "do")) (list_object (first ∷ second ∷ third ∷ []))
