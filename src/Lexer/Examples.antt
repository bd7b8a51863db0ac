-- ===== src/Lexer/Examples.antt =====
-- Runs of the lexer, and the theorems of the lexer at concrete sources.
use fex.Common.{◌≡◌, refl, Bytes, codes, pos, ◌+◌, ◌*◌}
use fex.Lexer.{
  Lexer, Token, token, error_token, unterminated_string, advance, match, advance_while, skip_mode,
  skip_advance, skip_loop, skip_whitespace, make_token, is_identifier_char, is_alpha, is_digit,
  finish, pass_sign, one_or_two, lex_identifier, lex_fraction, lex_exponent, lex_decimal,
  lex_number, string_loop, lex_string, scan_punctuation, scan_from, scan_token, init_lexer,
}
use fex.Lexer.Keywords.{identifier_type, identifier, number, error}
use fex.Lexer.Reading.{skip_whitespace-Read, Read, newlines}
use fex.Lexer.Blanks.{Blank, AtToken}
use fex.Lexer.Scan.{Scanned, scan_token-Scanned}

abbrev scan : Bytes → Token
unfolding scan_token
scan source = (scan_token (init_lexer source)).1

scan_number : scan (codes "  12.5e+3;") ≡ token number 2 7 1 (pos 3)
unfolding scan scan_token skip_whitespace skip_loop skip_mode skip_advance advance advance_while
    is_identifier_char is_alpha is_digit scan_from lex_number lex_decimal lex_fraction lex_exponent
    pass_sign finish make_token
scan_number = refl

-- The newline in front of the token is counted twice.
scan_line : scan (codes "\nx") ≡ token identifier 1 1 3 (pos 1)
unfolding scan scan_token skip_whitespace skip_loop skip_mode skip_advance advance advance_while
    is_identifier_char is_alpha is_digit scan_from lex_identifier identifier_type finish make_token
scan_line = refl

scan_lone_colon : scan (codes ":") ≡ token error 0 1 1 (pos 1)
unfolding scan scan_token skip_whitespace skip_loop skip_mode skip_advance advance scan_from
    is_alpha is_digit scan_punctuation one_or_two match finish make_token
scan_lone_colon = refl

scan_open_string : scan (codes "\"ab") ≡ error_token unterminated_string 1
unfolding scan scan_token skip_whitespace skip_loop skip_mode skip_advance advance scan_from
    is_alpha is_digit scan_punctuation lex_string string_loop
scan_open_string = refl

abbrev two_lines : Lexer
two_lines = init_lexer (codes " // note\n  let x")

scan_token-Scanned_example : Scanned two_lines (scan_token two_lines).0 (scan_token two_lines).1
scan_token-Scanned_example = scan_token-Scanned two_lines

skip_whitespace-Read_example :
    (text : Bytes) × Read two_lines text (skip_whitespace two_lines)
    × ((skip_whitespace two_lines).line ≡ two_lines.line + 2 * newlines text)
    × Blank text (skip_whitespace two_lines).rest
    × AtToken (skip_whitespace two_lines).rest
skip_whitespace-Read_example = skip_whitespace-Read two_lines

abbrev digits_first : Lexer
digits_first = init_lexer (codes "42+x")

abbrev after_quote : Lexer
after_quote = init_lexer (codes "a\\\"b\" + c")
