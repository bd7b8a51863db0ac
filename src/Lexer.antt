-- ===== src/Lexer.antt =====
-- The lexer of src/fex.c: scan_token and the functions that it calls.
--
-- The source is the list of its bytes before the closing NUL, so that reading the NUL is reading
-- past the end of the list: `peek` is 0 there. `isalpha` and `isdigit` are those of the C locale.
-- A token's text is given by its offset and length in the source. The column can be negative, since
-- it is measured from the start of the line on which the token ends.
pub mod Keywords
pub mod Blanks
pub mod Reading
pub mod Parts
pub mod Scan
mod Examples
use fex.Common.{
  ℕ, zero, suc, ◌+◌, ◌-◌, ◌≤◌, Bool, true, false, not, ◌&&◌, ◌||◌, List, [], ◌∷◌, Bytes, codes,
  bytes_eq, if◌then◌else◌, leb, ltb, ◌==◌, length, take, drop, ℤ, pos, negsuc, sub_ℕ, Option, none,
  some,
}
use Keywords.{
  TokenType, identifier_type, peek, lparen, rparen, lbrace, rbrace, lbracket, rbracket, comma, dot,
  minus, plus, semicolon, slash, star, bang, bang_equal, equal, equal_equal, greater, greater_equal,
  less, less_equal, identifier, string, number, colon_colon, error, eof,
}

-- An error token points to its message instead of the source, and its column is not set.
pub data ErrorMessage : Type 0 where
  invalid_hexadecimal unterminated_string unexpected_character : ErrorMessage

pub data Token : Type 0 where
  token : TokenType → (start length line : ℕ) → (column : ℤ) → Token
  error_token : ErrorMessage → (line : ℕ) → Token

-- `rest` is the text from `current` on; `position` and `line_start` are offsets in the source.
pub record Lexer : Type 0 where
  pub rest : Bytes
  pub position : ℕ
  pub line_start : ℕ
  pub line : ℕ
  pub had_error : Bool

abbrev pub init_lexer : Bytes → Lexer
init_lexer source = record {
  rest = source;
  position = 0;
  line_start = 0;
  line = 1;
  had_error = false;
}

abbrev pub is_at_end : Bytes → Bool
is_at_end [] = true
is_at_end (x ∷ xs) = false

unfoldable pub is_alpha : ℕ → Bool
is_alpha c = (leb b'a' c && leb c b'z') || (leb b'A' c && leb c b'Z')

unfoldable pub is_digit : ℕ → Bool
is_digit c = leb b'0' c && leb c b'9'

unfoldable pub is_xdigit : ℕ → Bool
unfolding is_digit
is_xdigit c = is_digit c || ((leb b'a' c && leb c b'f') || (leb b'A' c && leb c b'F'))

-- The token from `start`, where the lexer stood when it began, up to `current`.
unfoldable pub make_token : Lexer → Lexer → TokenType → Token
make_token start l type =
    token type start.position (l.position - start.position) l.line
      (sub_ℕ (start.position + 1) l.line_start)

-- `L.current++`, and the bookkeeping of a newline.
unfoldable pub advance : Lexer → Lexer
advance l =
    let moved = record l { rest = drop 1 l.rest; position = l.position + 1 } in
    if peek l.rest == b'\n'
    then record moved { line = l.line + 1; line_start = l.position + 1 }
    else moved

-- Whether the next byte is the expected one, which is then passed.
unfoldable pub match : Lexer → ℕ → Lexer × Bool
match l expected =
    if not (is_at_end l.rest) && (peek l.rest == expected)
    then (record l { rest = drop 1 l.rest; position = l.position + 1 }, true)
    else (l, false)

-- `while (test(*L.current)) advance();`, over the bytes that are left.
unfoldable pub advance_while : (ℕ → Bool) → Bytes → Lexer → Lexer
unfolding advance
advance_while test [] l = l
advance_while test (x ∷ xs) l = if test x then advance_while test xs (advance l) else l

-- What skip_whitespace does at the byte `x`, before `xs`: `none` returns, `some c` passes the byte,
-- and `c` tells whether the loop that skips a comment runs next.
unfoldable pub skip_mode : (in_comment : Bool) → ℕ → Bytes → Option Bool
skip_mode true x xs = some (not (x == b'\n'))
skip_mode false x xs =
    if x == b' ' || (x == b'\r' || x == b'\t')
    then some false
    else if x == b'\n'
    then some false
    else if x == b'/' && peek xs == b'/'
    then some true
    else none

-- A newline is counted by skip_whitespace itself and once more by `advance`.
unfoldable pub skip_advance : ℕ → Lexer → Lexer
unfolding advance
skip_advance x l = advance (if x == b'\n' then record l { line = l.line + 1 } else l)

unfoldable pub skip_loop : (in_comment : Bool) → Bytes → Lexer → Lexer
skip_loop in_comment [] l = l
skip_loop in_comment (x ∷ xs) l = elim (skip_mode in_comment x xs) [
  | none ↦ l
  | some mode ↦ skip_loop mode xs (skip_advance x l)
]

unfoldable pub skip_whitespace : Lexer → Lexer
unfolding skip_loop
skip_whitespace l = skip_loop false l.rest l

abbrev pub fail : Lexer → ErrorMessage → Lexer × Token
fail l message = (record l { had_error = true }, error_token message l.line)

abbrev pub finish : Lexer → TokenType → Lexer → Lexer × Token
unfolding make_token
finish start type l = (l, make_token start l type)

unfoldable pub is_identifier_char : ℕ → Bool
unfolding is_alpha is_digit
is_identifier_char c = is_alpha c || (is_digit c || c == b'_')

-- The text from `start` up to `l`.
abbrev pub lexeme : Lexer → Lexer → Bytes
lexeme start l = take (l.position - start.position) start.rest

unfoldable pub lex_identifier : Lexer → Lexer → Lexer × Token
unfolding is_identifier_char advance_while
lex_identifier start l =
    let l' = advance_while is_identifier_char l.rest l in
    finish start (identifier_type (lexeme start l')) l'

unfoldable pub lex_fraction : Lexer → Lexer
unfolding advance is_digit advance_while
lex_fraction l =
    if peek l.rest == b'.' && is_digit (peek (drop 1 l.rest))
    then (let l' = advance l in advance_while is_digit l'.rest l')
    else l

abbrev pub is_sign : ℕ → Bool
is_sign c = c == b'+' || c == b'-'

abbrev pub pass_sign : Lexer → Lexer
unfolding advance
pass_sign l = if is_sign (peek l.rest) then advance l else l

unfoldable pub lex_exponent : Lexer → Lexer
unfolding advance is_digit advance_while
lex_exponent l =
    let after_e = drop 1 l.rest in
    let exp = if is_sign (peek after_e) then drop 1 after_e else after_e in
    if (peek l.rest == b'e' || peek l.rest == b'E') && is_digit (peek exp)
    then (let l' = pass_sign (advance l) in advance_while is_digit l'.rest l')
    else l

unfoldable pub lex_hexadecimal : Lexer → Lexer → Lexer × Token
unfolding advance is_xdigit advance_while
lex_hexadecimal start l =
    let l' = advance l in
    if is_xdigit (peek l'.rest)
    then finish start number (advance_while is_xdigit l'.rest l')
    else fail l' invalid_hexadecimal

unfoldable pub lex_decimal : Lexer → Lexer
unfolding is_digit advance_while lex_fraction lex_exponent
lex_decimal l = lex_exponent (lex_fraction (advance_while is_digit l.rest l))

unfoldable pub lex_number : Lexer → Lexer → Lexer × Token
unfolding lex_hexadecimal lex_decimal
lex_number start l =
    if peek start.rest == b'0' && (peek l.rest == b'x' || peek l.rest == b'X')
    then lex_hexadecimal start l
    else finish start number (lex_decimal l)

-- The loop of lex_string over the bytes that are left: whether the closing quote was found.
unfoldable pub string_loop : Bytes → Lexer → Lexer × Bool
unfolding advance
string_loop [] l = (l, false)
string_loop (c ∷ []) l = (advance l, c == b'"')
string_loop (c ∷ d ∷ rest) l = elim (c == b'\\') [
  | true ↦ string_loop rest (advance (advance l))
  | false ↦ elim (c == b'"') [
    | true ↦ (advance l, true)
    | false ↦ string_loop (d ∷ rest) (advance l)
  ]
]

unfoldable pub lex_string : Lexer → Lexer → Lexer × Token
unfolding string_loop
lex_string start l =
    let (l', closed) = string_loop l.rest l in
    if closed then finish start string l' else fail l' unterminated_string

-- A token of one byte, or of two if the second is the expected one.
abbrev pub one_or_two : Lexer → Lexer → ℕ → TokenType → TokenType → Lexer × Token
unfolding match
one_or_two start l expected both single =
    let (l', matched) = match l expected in finish start (if matched then both else single) l'

-- The switch of scan_token on the first byte `c`, which is passed already.
unfoldable pub scan_punctuation : ℕ → Lexer → Lexer → Lexer × Token
unfolding lex_string
scan_punctuation c start l =
    if c == b'('
    then finish start lparen l
    else if c == b')'
    then finish start rparen l
    else if c == b'{'
    then finish start lbrace l
    else if c == b'}'
    then finish start rbrace l
    else if c == b'['
    then finish start lbracket l
    else if c == b']'
    then finish start rbracket l
    else if c == b';'
    then finish start semicolon l
    else if c == b','
    then finish start comma l
    else if c == b'.'
    then finish start dot l
    else if c == b'-'
    then finish start minus l
    else if c == b'+'
    then finish start plus l
    else if c == b'/'
    then finish start slash l
    else if c == b'*'
    then finish start star l
    else if c == b'!'
    then one_or_two start l b'=' bang_equal bang
    else if c == b'='
    then one_or_two start l b'=' equal_equal equal
    else if c == b'<'
    then one_or_two start l b'=' less_equal less
    else if c == b'>'
    then one_or_two start l b'=' greater_equal greater
    else if c == b':'
    then one_or_two start l b':' colon_colon error
    else if c == b'"'
    then lex_string start l
    else fail l unexpected_character

-- What follows the first byte `c` of a token.
unfoldable pub scan_from : ℕ → Lexer → Lexer → Lexer × Token
unfolding is_alpha is_digit lex_identifier lex_number scan_punctuation
scan_from c start l =
    if is_alpha c || c == b'_'
    then lex_identifier start l
    else if is_digit c
    then lex_number start l
    else scan_punctuation c start l

unfoldable pub scan_token : Lexer → Lexer × Token
unfolding skip_whitespace advance scan_from
scan_token l =
    let start = skip_whitespace l in
    if is_at_end start.rest
    then finish start eof start
    else scan_from (peek start.rest) start (advance start)
