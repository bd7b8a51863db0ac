-- ===== src/Parser/Primary.antt =====
-- The leaves of the grammar in src/fex.c: symbols, numbers, strings, literals, import specifiers.
--
-- `source` is the text that is compiled, of which the tokens are pieces. An allocation that fails
-- is left out. parse_number keeps a decimal literal as the text that strtod reads.
use fex.Common.{
  ℕ, zero, suc, ◌+◌, ◌-◌, ◌*◌, ◌^◌, Bool, true, false, ◌&&◌, ◌||◌, [], ◌∷◌, ◌++◌, Bytes, codes,
  Option, none, some, if◌then◌else◌, leb, ltb, ◌==◌, length, take, drop,
}
use fex.Lexer.{is_xdigit}
use fex.Lexer.Keywords.{TokenType, peek, dot, identifier, string, false_literal, true_literal}
use fex.Parser.{type_of}
use fex.Parser.Expr.{
  Expr, nil_object, boolean, number_object, symbol, string_object, Number, integer, decimal,
  symbol_name_eq,
}
use fex.Parser.Steps.{
  Parse, stuck, pure, ◌>>=◌, ◌>>◌, error, checks, expect, matches, previous, token_text,
}

-- The value of a hexadecimal digit.
abbrev pub digit_value : ℕ → ℕ
digit_value d =
    if leb d b'9' then d - b'0' else if leb d b'F' then 10 + (d - b'A') else 10 + (d - b'a')

-- strtoull in base 16, over the digits: the value, and what is behind them.
unfoldable pub strtoull : (value : ℕ) → Bytes → ℕ × Bytes
strtoull value [] = (value, [])
strtoull value (d ∷ text) = elim (is_xdigit d) [
  | true ↦ strtoull (value * 16 + digit_value d) text
  | false ↦ (value, d ∷ text)
]

-- A value that is out of range is ULLONG_MAX.
abbrev pub saturate : ℕ → ℕ
saturate value = if leb (2 ^ 64) value then 2 ^ 64 - 1 else value

abbrev pub is_hexadecimal : Bytes → Bool
is_hexadecimal text =
    ltb 2 (length text)
    && (peek text == b'0')
    && (peek (drop 1 text) == b'x' || peek (drop 1 text) == b'X')

abbrev pub hexadecimal : Bytes → ℕ × Bytes → Number
hexadecimal text (value, []) = integer (saturate value)
hexadecimal text (value, d ∷ rest) = decimal text

unfoldable pub number_value : Bytes → Number
number_value text =
    if is_hexadecimal text then hexadecimal text (strtoull 0 (drop 2 text)) else decimal text

-- What an escape stands for, by the byte behind the backslash.
unfoldable pub escape_bytes : ℕ → Bytes
escape_bytes c =
    if c == b'n'
    then b'\n' ∷ []
    else if c == b't'
    then b'\t' ∷ []
    else if c == b'r'
    then b'\r' ∷ []
    else if c == b'\\'
    then b'\\' ∷ []
    else if c == b'"'
    then b'"' ∷ []
    else if c == b'0'
    then 0 ∷ []
    else b'\\' ∷ c ∷ []

-- The loop over the bytes between the quotes.
unfoldable pub unescape : Bytes → Bytes
unescape [] = []
unescape (c ∷ []) = c ∷ []
unescape (c ∷ d ∷ text) = elim (c == b'\\') [
  | true ↦ escape_bytes d ++ unescape text
  | false ↦ c ∷ unescape (d ∷ text)
]

-- Whether the loop meets the escape of a NUL.
unfoldable pub contains_nul : Bytes → Bool
contains_nul [] = false
contains_nul (c ∷ []) = false
contains_nul (c ∷ d ∷ text) = elim (c == b'\\') [
  | true ↦ (d == b'0') || contains_nul text
  | false ↦ contains_nul (d ∷ text)
]

-- The text of a literal between its quotes.
abbrev pub raw_text : Bytes → Bytes
raw_text text = take (length text - 2) (drop 1 text)

unfoldable pub selector_setter_name : Expr → Option Bytes
selector_setter_name property =
    if symbol_name_eq property (codes "head") || symbol_name_eq property (codes "first")
    then some (codes "setcar")
    else if symbol_name_eq property (codes "tail") || symbol_name_eq property (codes "rest")
    then some (codes "setcdr")
    else none

abbrev pub literal_of : TokenType → Expr
literal_of false_literal = boolean false
literal_of true_literal = boolean true
literal_of other = nil_object

unfoldable pub parse_literal : Parse Expr
parse_literal = do t ← previous; pure (literal_of (type_of t))

module _ (source : Bytes) where
  abbrev pub previous_text : Parse Bytes
  previous_text = do t ← previous; pure (token_text source t)

  -- symbol_from_token, for the last token.
  unfoldable pub symbol_from_token : Parse Expr
  symbol_from_token = do
    text ← previous_text
    if leb 256 (length text) then (do error; pure nil_object) else pure (symbol text)

  unfoldable pub parse_number : Parse Expr
  parse_number = do text ← previous_text; pure (number_object (number_value text))

  unfoldable pub parse_string_literal : (as_symbol : Bool) → Parse Expr
  parse_string_literal as_symbol = do
    text ← previous_text
    let raw = raw_text text
    if as_symbol
        then (if contains_nul raw
            then (do error; pure nil_object)
            else pure (symbol (unescape raw)))
        else pure (string_object (unescape raw))

  abbrev pub parse_string : Parse Expr
  parse_string = parse_string_literal false

  -- The loop over the segments behind the dots.
  unfoldable pub import_segments : (fuel : ℕ) → (buffer : Bytes) → Parse Bytes
  import_segments zero buffer = stuck
  import_segments (suc fuel) buffer = do
    more ← matches dot
    if more
        then (do
          expect identifier
          text ← previous_text
          import_segments fuel (buffer ++ codes "." ++ text))
        else pure buffer

  unfoldable pub parse_import_specifier : (fuel : ℕ) → Parse Expr
  parse_import_specifier fuel = do
    quoted ← matches string
    if quoted then parse_string else (do
      expect identifier
      text ← previous_text
      dotted ← checks dot
      if dotted
          then (do buffer ← import_segments fuel text; pure (string_object buffer))
          else pure (string_object text))
