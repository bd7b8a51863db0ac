-- ===== src/Parser/Pratt.antt =====
-- The expressions of src/fex.c: parse_precedence_new and the rules that it calls.
use fex.Common.{ℕ, zero, suc, ◌+◌, ◌&&◌, Bytes, codes, Option, none, some, if◌then◌else◌, leb}
use fex.Lexer.Keywords.{TokenType, minus, bang, rparen, identifier, bang_equal}
use fex.Parser.{type_of}
use fex.Parser.Expr.{
  Expr, nil_object, symbol, pair, list_object, car, cdr, make_unary, make_binary, make_ternary,
  symbol_name_eq,
}
use fex.Parser.Primary.{
  selector_setter_name, symbol_from_token, parse_number, parse_string, parse_literal,
}
use fex.Parser.Steps.{Parse, stuck, pure, ◌>>=◌, ◌>>◌, advance, current, expect, previous, error}
use fex.Parser.Table
use fex.Parser.Table.{
  Prefix, prefix_rule, is_infix, precedence_of, infix_of, Infix, assignment, call, member, cons,
  operator, unhandled, prec_assignment, prec_unary,
}
use fex.Parser.Blocks.{Grammar, expression, expressions_until, parse_list, fn_declaration}

unfoldable pub parse_grouping : Grammar → Parse Expr
parse_grouping g = do e ← expression g; expect rparen; pure e

abbrev pub unary_of : TokenType → Expr → Expr
unary_of minus right = make_unary (codes "-") right
unary_of bang right = make_unary (codes "not") right
unary_of other right = nil_object

unfoldable pub parse_unary : Grammar → Parse Expr
parse_unary g = do
  t ← previous
  right ← g.parse_precedence_new prec_unary
  pure (unary_of (type_of t) right)

abbrev pub set_property : (target prop right : Expr) → Option Bytes → Expr
set_property target prop right none = make_ternary (codes "put") target prop right
set_property target prop right (some setter) = make_binary setter target right

-- An assignment to an expression, which must be a symbol or the access to a member.
unfoldable pub assignment_of : (left right : Expr) → Option Expr
assignment_of (symbol s) right = some (make_binary (codes "=") (symbol s) right)
assignment_of (pair op args) right =
    if symbol_name_eq op (codes "get")
    then some
        (set_property (car args) (car (cdr args)) right (selector_setter_name (car (cdr args))))
    else none
assignment_of other right = none

unfoldable pub binary_of : TokenType → Bytes → (left right : Expr) → Expr
binary_of bang_equal name left right =
    make_unary (codes "not") (make_binary (codes "is") left right)
binary_of other name left right = make_binary name left right

-- `error(...); return nil_obj;`, which leaves the loop.
abbrev pub reject : Parse (Option Expr)
reject = do error; pure none

abbrev pub accept : Option Expr → Parse (Option Expr)
accept none = reject
accept (some e) = pure (some e)

-- The next round, or the return of nil.
abbrev pub continue : (Expr → Parse Expr) → Option Expr → Parse Expr
continue round none = pure nil_object
continue round (some left) = round left

module _ (source : Bytes) where
  unfoldable pub parse_prefix : (fuel : ℕ) → Grammar → Prefix → Parse Expr
  parse_prefix fuel g Table.parse_grouping = parse_grouping g
  parse_prefix fuel g Table.parse_unary = parse_unary g
  parse_prefix fuel g Table.parse_list = parse_list fuel g
  parse_prefix fuel g Table.parse_number = parse_number source
  parse_prefix fuel g Table.parse_string = parse_string source
  parse_prefix fuel g Table.parse_literal = parse_literal
  parse_prefix fuel g Table.parse_variable = symbol_from_token source
  parse_prefix fuel g Table.fn_expression = fn_declaration source fuel g

  -- One round of the loop behind the operator token: `none` is a return of nil.
  unfoldable pub parse_infix :
      (fuel : ℕ) → Grammar → TokenType → (left : Expr) → Infix → Parse (Option Expr)
  parse_infix fuel g type left assignment = do
    right ← g.parse_precedence_new prec_assignment
    accept (assignment_of left right)
  parse_infix fuel g type left call = do
    args ← expressions_until rparen fuel g
    pure (some (pair left (list_object args)))
  parse_infix fuel g type left member = do
    expect identifier
    property ← symbol_from_token source
    pure (some (make_binary (codes "get") left property))
  parse_infix fuel g type left cons = do
    right ← g.parse_precedence_new (precedence_of type)
    pure (some (make_binary (codes "cons") left right))
  parse_infix fuel g type left (operator name) = do
    right ← g.parse_precedence_new (precedence_of type + 1)
    pure (some (binary_of type name left right))
  parse_infix fuel g type left unhandled = reject

  -- The loop over the operators that bind at least as tightly as the precedence.
  unfoldable pub infix_loop :
      (loop_fuel fuel : ℕ) → Grammar → (precedence : ℕ) → (left : Expr) → Parse Expr
  infix_loop zero fuel g precedence left = stuck
  infix_loop (suc loop_fuel) fuel g precedence left = do
    t ← current
    if is_infix (type_of t) && leb precedence (precedence_of (type_of t))
        then (do
          advance
          op ← previous
          next ← parse_infix fuel g (type_of op) left (infix_of (type_of op))
          continue (infix_loop loop_fuel fuel g precedence) next)
        else pure left

  -- The rest of the function, by the rule of the first token.
  abbrev pub from_prefix : (fuel : ℕ) → Grammar → (precedence : ℕ) → Option Prefix → Parse Expr
  from_prefix fuel g precedence none = do error; pure nil_object
  from_prefix fuel g precedence (some rule) = do
    left ← parse_prefix fuel g rule
    infix_loop fuel fuel g precedence left

  unfoldable pub parse_precedence_new : (fuel : ℕ) → Grammar → (precedence : ℕ) → Parse Expr
  parse_precedence_new fuel g precedence = do
    advance
    t ← previous
    from_prefix fuel g precedence (prefix_rule (type_of t))
