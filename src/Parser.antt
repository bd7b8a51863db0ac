-- ===== src/Parser.antt =====
-- The parser of src/fex.c around the lexer: error_at, parser_advance, consume, check, parser_match.
--
-- `try_active` is fex_try_is_active(): error_at then raises with a longjmp, and nothing of the parser
-- is used again, so that a raise carries the line and no state. What is printed on stderr is left
-- out. The loop of parser_advance runs on fuel.
pub mod Advance
pub mod Expr
pub mod Declarations
pub mod Hoist
pub mod Steps
pub mod Primary
pub mod Table
pub mod Blocks
pub mod Pratt
pub mod Statements
pub mod Compile
pub mod Ends
pub mod Progress
pub mod Matches
pub mod Leaves
pub mod Ready
pub mod Operators
pub mod Sentences
pub mod Returns
pub mod Literals
mod Examples
use fex.Common.{
  ℕ, zero, suc, ◌+◌, Bool, true, false, Bytes, Option, none, some, if◌then◌else◌, ◌==◌,
}
use fex.Lexer.{Lexer, Token, token, error_token, scan_token, init_lexer}
use fex.Lexer.Keywords.{
  TokenType, lparen, rparen, lbrace, rbrace, lbracket, rbracket, comma, dot, minus, plus, semicolon,
  slash, star, bang, bang_equal, equal, equal_equal, greater, greater_equal, less, less_equal,
  identifier, string, number, and, else_keyword, export, false_literal, fn, if_keyword, import,
  let_keyword, module_keyword, nil, or, return, true_literal, while, colon_colon, error, eof,
}

pub record Parser : Type 0 where
  pub lexer : Lexer
  pub current : Token
  pub previous : Token
  pub had_error : Bool
  pub panic_mode : Bool
  pub try_active : Bool

-- A step of the parser: it goes on, or an error is raised at a line.
pub data Step : Type 0 where
  advanced : Parser → Step
  raised : ℕ → Step

abbrev pub is_error_type : TokenType → Bool
is_error_type error = true
is_error_type other = false

-- `token.type == TOKEN_ERROR`
abbrev pub is_error : Token → Bool
is_error (token type start length line column) = is_error_type type
is_error (error_token message line) = true

abbrev pub token_line : Token → ℕ
token_line (token type start length line column) = line
token_line (error_token message line) = line

pub error_at : Parser → Token → Step
error_at p t =
    if p.try_active
    then raised (token_line t)
    else if p.panic_mode
    then advanced p
    else advanced (record p { had_error = true; panic_mode = true })

-- P.current = scan_token()
abbrev pub scan_current : Parser → Parser
scan_current p = let (l, t) = scan_token p.lexer in record p { lexer = l; current = t }

-- The loop of parser_advance: `none` is a lack of fuel.
pub advance_loop : (fuel : ℕ) → Parser → Option Step
unfolding error_at
advance_loop zero p = none
advance_loop (suc fuel) p = elim (is_error (scan_current p).current) [
  | false ↦ some (advanced (scan_current p))
  | true ↦ elim (error_at (scan_current p) (scan_current p).current) [
    | raised line ↦ some (raised line)
    | advanced p' ↦ advance_loop fuel p'
  ]
]

pub parser_advance : (fuel : ℕ) → Parser → Option Step
unfolding advance_loop
parser_advance fuel p = advance_loop fuel (record p { previous = p.current })

-- The number of a token type in the enumeration.
abbrev pub type_code : TokenType → ℕ
type_code lparen = 0
type_code rparen = 1
type_code lbrace = 2
type_code rbrace = 3
type_code lbracket = 4
type_code rbracket = 5
type_code comma = 6
type_code dot = 7
type_code minus = 8
type_code plus = 9
type_code semicolon = 10
type_code slash = 11
type_code star = 12
type_code bang = 13
type_code bang_equal = 14
type_code equal = 15
type_code equal_equal = 16
type_code greater = 17
type_code greater_equal = 18
type_code less = 19
type_code less_equal = 20
type_code identifier = 21
type_code string = 22
type_code number = 23
type_code and = 24
type_code else_keyword = 25
type_code export = 26
type_code false_literal = 27
type_code fn = 28
type_code if_keyword = 29
type_code import = 30
type_code let_keyword = 31
type_code module_keyword = 32
type_code nil = 33
type_code or = 34
type_code return = 35
type_code true_literal = 36
type_code while = 37
type_code colon_colon = 38
type_code error = 39
type_code eof = 40

abbrev pub type_of : Token → TokenType
type_of (token type start length line column) = type
type_of (error_token message line) = error

pub check : TokenType → Parser → Bool
check type p = type_code (type_of p.current) == type_code type

pub consume : (fuel : ℕ) → TokenType → Parser → Option Step
unfolding parser_advance error_at check
consume fuel type p = if check type p then parser_advance fuel p else some (error_at p p.current)

pub parser_match : (fuel : ℕ) → TokenType → Parser → Option (Step × Bool)
unfolding parser_advance check
parser_match fuel type p =
    if check type p then with_answer (parser_advance fuel p) else some (advanced p, false)
  where
    with_answer : Option Step → Option (Step × Bool)
    with_answer none = none
    with_answer (some step) = some (step, true)
