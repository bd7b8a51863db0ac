-- ===== src/Parser/Examples.antt =====
-- Runs of the parser, and its theorems at concrete sources.
use fex.Common.{
  ◌≡◌, refl, ◌+◌, ◌<◌, true, false, Option, none, some, List, [], ◌∷◌, ◌++◌, Bytes, codes, arith,
  pos, drop, length, All,
}
use fex.Lexer
use fex.Lexer.{
  Token, init_lexer, token, scan_token, skip_whitespace, skip_loop, skip_mode, skip_advance,
  make_token, scan_from, scan_punctuation, is_alpha, is_digit, is_xdigit, is_identifier_char,
  lex_identifier, lex_number, lex_hexadecimal, lex_decimal, lex_fraction, lex_exponent, lex_string,
  string_loop, advance_while, match,
}
use fex.Lexer.Keywords.{eof, string}
use fex.Lexer.Reading.{string_tail}
use fex.Errors.{
  append_string_for_error, put_string_bytes, put_string_byte, escaped_writer_append,
  escaped_writer_put_byte, escaped_byte,
}
use fex.Errors.Writer.{string_byte, string_text}
use fex.Parser.{Parser, parser_advance, advance_loop, error_at, check, consume, parser_match}
use fex.Parser.Expr.{
  Expr, number_object, symbol, string_object, decimal, make_unary, make_binary, make_ternary,
  make_named_fn_decl, extract_named_fn_decl, list_object,
}
use fex.Parser.Hoist.{rewrite_named_fn_declarations, rewrite_named_fn_declarations-hoists}
use fex.Parser.Declarations.{IsDeclaration, Hoists}
use fex.Parser.Steps.{
  Result, done, pure, ◌>>=◌, stuck, token_text, previous, current, checks, expect, matches, error,
  advance,
}
use fex.Parser.Primary.{parse_string, symbol_from_token, parse_number, number_value}
use fex.Parser.Blocks.{sequence, expressions, expressions_until}
use fex.Parser.Pratt.{
  parse_grouping, parse_unary, parse_prefix, parse_infix, infix_loop, parse_precedence_new,
  assignment_of, binary_of,
}
use fex.Parser.Statements.{statement, declaration, expr_statement, plain_statement}
use fex.Parser.Compile.{grammar, program, program_loop, fex_compile_named}
use fex.Parser.Returns.{Returned, fex_compile_named-returns}
use fex.Parser.Literals.{parse_string-append_string_for_error}

abbrev value_of : Option (Result (Option Expr)) → Option Expr
value_of (some (done value p)) = value
value_of other = none

-- The product binds more tightly than the sum.
compile_sum :
    value_of (fex_compile_named false (codes "1+2*3;"))
    ≡ some (
        list_object (
          symbol (codes "+")
          ∷ number_object (decimal (codes "1"))
          ∷ list_object (
              symbol (codes "*")
              ∷ number_object (decimal (codes "2"))
              ∷ number_object (decimal (codes "3"))
              ∷ [])
          ∷ []))
unfolding fex_compile_named grammar program program_loop statement declaration expr_statement
    plain_statement parse_grouping parse_unary parse_prefix parse_infix infix_loop
    parse_precedence_new assignment_of binary_of sequence expressions expressions_until
    symbol_from_token parse_number number_value pure ◌>>=◌ stuck previous current checks expect
    matches error advance make_unary make_binary make_ternary rewrite_named_fn_declarations
    parser_advance advance_loop error_at check consume parser_match scan_token skip_whitespace
    skip_loop skip_mode skip_advance make_token scan_from scan_punctuation is_alpha is_digit
    lex_number lex_decimal lex_fraction lex_exponent advance_while match Lexer.advance
    extract_named_fn_decl
compile_sum = refl

abbrev stray_colon : Parser
stray_colon = record {
  lexer = init_lexer (codes ": x");
  current = token eof 0 0 1 (pos 1);
  previous = token eof 0 0 1 (pos 1);
  had_error = false;
  panic_mode = false;
  try_active = false;
}

fex_compile_named-returns_example :
    (r : Result (Option Expr)) × (fex_compile_named true (codes "let x = [1, f(2)];") ≡ some r)
    × Returned true r
fex_compile_named-returns_example = fex_compile_named-returns true (codes "let x = [1, f(2)];")

abbrev even_odd : List Expr
unfolding make_named_fn_decl
even_odd =
    make_named_fn_decl (symbol (codes "even")) (symbol (codes "f")) false
    ∷ symbol (codes "x")
    ∷ make_named_fn_decl (symbol (codes "odd")) (symbol (codes "g")) true
    ∷ []

rewrite_named_fn_declarations-hoists_example :
    (lets others : List Expr) × Hoists even_odd lets others
    × ((rewrite_named_fn_declarations even_odd (length even_odd)).0 ≡ lets ++ others)
    × All (λ s. ¬ IsDeclaration s) (rewrite_named_fn_declarations even_odd (length even_odd)).0
    × ((rewrite_named_fn_declarations even_odd (length even_odd)).1
        ≡ length (rewrite_named_fn_declarations even_odd (length even_odd)).0)
    × (lets ≡ [] → (rewrite_named_fn_declarations even_odd (length even_odd)).0 ≡ even_odd)
rewrite_named_fn_declarations-hoists_example = rewrite_named_fn_declarations-hoists even_odd

-- The literal `"a\n\\"`.
abbrev written : Bytes
written = b'"' ∷ b'a' ∷ b'\\' ∷ b'n' ∷ b'\\' ∷ b'\\' ∷ b'"' ∷ []

abbrev at_literal : Parser
at_literal = record stray_colon { previous = token string 0 7 1 (pos 1) }

abbrev line_and_backslash : Bytes
line_and_backslash = b'a' ∷ b'\n' ∷ b'\\' ∷ []

written-line_and_backslash :
    token_text written at_literal.previous
    ≡ (append_string_for_error (record { dst = []; cap = 16 }) line_and_backslash).dst
unfolding append_string_for_error put_string_bytes put_string_byte escaped_writer_append
    escaped_writer_put_byte escaped_byte
written-line_and_backslash = refl

line_and_backslash-room : length (string_text line_and_backslash) + 2 < 16
unfolding string_text string_byte escaped_byte
line_and_backslash-room = omega arith

parse_string-append_string_for_error_example :
    (parse_string written at_literal ≡ some (done (string_object line_and_backslash) at_literal))
    × (string_tail (drop 1 (token_text written at_literal.previous)) ≡ true)
parse_string-append_string_for_error_example =
    parse_string-append_string_for_error 16 line_and_backslash written at_literal
      (refl, (refl, (refl, tt))) line_and_backslash-room written-line_and_backslash
