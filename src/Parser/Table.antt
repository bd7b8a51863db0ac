-- ===== src/Parser/Table.antt =====
-- The rules table of the Pratt parser in src/fex.c, and the names of the binary operators.
use fex.Common.{ℕ, Bool, true, false, Bytes, codes, Option, none, some}
use fex.Lexer.Keywords.{
  TokenType, lparen, lbracket, dot, minus, plus, slash, star, bang, bang_equal, equal, equal_equal,
  greater, greater_equal, less, less_equal, identifier, string, number, and, false_literal, fn, nil,
  or, true_literal, colon_colon,
}

-- The numbers of the enumeration Precedence.
abbrev pub prec_none : ℕ
prec_none = 0

abbrev pub prec_assignment : ℕ
prec_assignment = 1

abbrev pub prec_or : ℕ
prec_or = 2

abbrev pub prec_and : ℕ
prec_and = 3

abbrev pub prec_equality : ℕ
prec_equality = 4

abbrev pub prec_comparison : ℕ
prec_comparison = 5

abbrev pub prec_term : ℕ
prec_term = 6

abbrev pub prec_factor : ℕ
prec_factor = 7

abbrev pub prec_unary : ℕ
prec_unary = 8

abbrev pub prec_call : ℕ
prec_call = 9

-- The functions in the column `prefix` of the table.
pub data Prefix : Type 0 where
  parse_grouping parse_unary parse_list parse_number parse_string parse_literal parse_variable
        fn_expression :
      Prefix

abbrev pub prefix_rule : TokenType → Option Prefix
prefix_rule lparen = some parse_grouping
prefix_rule lbracket = some parse_list
prefix_rule minus = some parse_unary
prefix_rule bang = some parse_unary
prefix_rule identifier = some parse_variable
prefix_rule string = some parse_string
prefix_rule number = some parse_number
prefix_rule false_literal = some parse_literal
prefix_rule fn = some fn_expression
prefix_rule nil = some parse_literal
prefix_rule true_literal = some parse_literal
prefix_rule other = none

-- Whether the column `infix` has the marker.
abbrev pub is_infix : TokenType → Bool
is_infix lparen = true
is_infix dot = true
is_infix minus = true
is_infix plus = true
is_infix slash = true
is_infix star = true
is_infix bang_equal = true
is_infix equal = true
is_infix equal_equal = true
is_infix greater = true
is_infix greater_equal = true
is_infix less = true
is_infix less_equal = true
is_infix and = true
is_infix or = true
is_infix colon_colon = true
is_infix other = false

abbrev pub precedence_of : TokenType → ℕ
precedence_of lparen = prec_call
precedence_of dot = prec_call
precedence_of minus = prec_term
precedence_of plus = prec_term
precedence_of slash = prec_factor
precedence_of star = prec_factor
precedence_of bang = prec_unary
precedence_of bang_equal = prec_equality
precedence_of equal = prec_assignment
precedence_of equal_equal = prec_equality
precedence_of greater = prec_comparison
precedence_of greater_equal = prec_comparison
precedence_of less = prec_comparison
precedence_of less_equal = prec_comparison
precedence_of and = prec_and
precedence_of or = prec_or
precedence_of colon_colon = prec_term
precedence_of other = prec_none

-- The switch on the binary operators: `none` is its default.
abbrev pub operator_name : TokenType → Option Bytes
operator_name plus = some (codes "+")
operator_name minus = some (codes "-")
operator_name star = some (codes "*")
operator_name slash = some (codes "/")
operator_name equal_equal = some (codes "is")
operator_name bang_equal = some (codes "not is")
operator_name less = some (codes "<")
operator_name less_equal = some (codes "<=")
operator_name greater = some (codes ">")
operator_name greater_equal = some (codes ">=")
operator_name and = some (codes "and")
operator_name or = some (codes "or")
operator_name other = none

-- How the loop over the infix operators treats a token type.
pub data Infix : Type 0 where
  assignment call member cons : Infix
  operator : Bytes → Infix
  unhandled : Infix

abbrev pub named_operator : Option Bytes → Infix
named_operator none = unhandled
named_operator (some name) = operator name

abbrev pub infix_of : TokenType → Infix
infix_of equal = assignment
infix_of lparen = call
infix_of dot = member
infix_of colon_colon = cons
infix_of other = named_operator (operator_name other)
