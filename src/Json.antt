-- ===== src/Json.antt =====
-- JSON strings in src/fex_builtins.c: json_parse_string, json_write_string, buf_append_utf8.
--
-- A text is the list of its bytes before the NUL. The TextBuffer is the list of its bytes: a failure
-- of its allocator is left out, as are the polls. `|` of disjoint bits is written as a sum, `>>` and
-- `&` as quotient and remainder.
pub mod Strings
mod Examples
use fex.Common.{
  ℕ, zero, suc, ◌+◌, ◌-◌, ◌*◌, ◌/◌, ◌%◌, Bool, true, false, not, ◌&&◌, ◌||◌, List, [], ◌∷◌, ◌++◌,
  Option, none, some, Bytes, codes, if◌then◌else◌, ltb, leb, ◌==◌, drop,
}

pub data JsonError : Type 0 where
  expected_string invalid_unicode surrogate invalid_escape control_character unterminated :
      JsonError

-- A string with the text behind it.
pub data Parsed : Type 0 where
  parsed : (value rest : Bytes) → Parsed
  failed : JsonError → Parsed

-- The bytes that buf_append_utf8 appends for a code point below 2^16.
pub utf8 : ℕ → Bytes
utf8 codepoint =
    if leb codepoint 127
    then codepoint ∷ []
    else if leb codepoint 2047
    then (192 + codepoint / 64 % 32) ∷ (128 + codepoint % 64) ∷ []
    else (224 + codepoint / 4096 % 16) ∷ (128 + codepoint / 64 % 64) ∷ (128 + codepoint % 64) ∷ []

abbrev pub json_peek : Bytes → ℕ
json_peek [] = 0
json_peek (c ∷ text) = c

-- `none` stands for -1.
pub json_hex_value : ℕ → Option ℕ
json_hex_value chr =
    if leb b'0' chr && leb chr b'9'
    then some (chr - b'0')
    else if leb b'a' chr && leb chr b'f'
    then some (10 + (chr - b'a'))
    else if leb b'A' chr && leb chr b'F'
    then some (10 + (chr - b'A'))
    else none

infixl 5 ◌>>=◌
abbrev ◌>>=◌ {ℓ ℓ'} : {A : Type ℓ} {B : Type ℓ'} → Option A → (A → Option B) → Option B
none >>= f = none
some a >>= f = f a

-- The code point of the four digits that are next.
pub unicode_escape : Bytes → Option ℕ
unfolding json_hex_value
unicode_escape text = do
  hi ← json_hex_value (json_peek text)
  lo ← json_hex_value (json_peek (drop 1 text))
  hi2 ← json_hex_value (json_peek (drop 2 text))
  lo2 ← json_hex_value (json_peek (drop 3 text))
  some (hi * 4096 + lo * 256 + hi2 * 16 + lo2)

-- What one escape appends, and how many bytes it takes behind the backslash.
pub data Escape : Type 0 where
  escape : (appended : Bytes) → (taken : ℕ) → Escape
  bad_escape : JsonError → Escape

abbrev pub is_surrogate : ℕ → Bool
is_surrogate codepoint = leb 55296 codepoint && leb codepoint 57343

pub scalar_escape : Option ℕ → Escape
unfolding utf8
scalar_escape none = bad_escape invalid_unicode
scalar_escape (some codepoint) =
    if is_surrogate codepoint then bad_escape surrogate else escape (utf8 codepoint) 5

-- The switch on the byte behind a backslash.
pub read_escape : Bytes → Escape
unfolding unicode_escape scalar_escape
read_escape text =
    let chr = json_peek text in
    if chr == b'"'
    then escape (b'"' ∷ []) 1
    else if chr == b'\\'
    then escape (b'\\' ∷ []) 1
    else if chr == b'/'
    then escape (b'/' ∷ []) 1
    else if chr == b'b'
    then escape (8 ∷ []) 1
    else if chr == b'f'
    then escape (12 ∷ []) 1
    else if chr == b'n'
    then escape (10 ∷ []) 1
    else if chr == b'r'
    then escape (13 ∷ []) 1
    else if chr == b't'
    then escape (9 ∷ []) 1
    else if chr == b'u'
    then scalar_escape (unicode_escape (drop 1 text))
    else bad_escape invalid_escape

-- The loop of json_parse_string; `none` is a lack of fuel.
pub parse_loop : (fuel : ℕ) → Bytes → Bytes → Option Parsed
unfolding read_escape
parse_loop zero buf text = none
parse_loop (suc fuel) buf [] = some (failed unterminated)
parse_loop (suc fuel) buf (chr ∷ text) = elim (chr == b'"') [
  | true ↦ some (parsed buf text)
  | false ↦ elim (chr == b'\\') [
    | true ↦ elim (read_escape text) [
      | escape appended taken ↦ parse_loop fuel (buf ++ appended) (drop taken text)
      | bad_escape e ↦ some (failed e)
    ]
    | false ↦ elim (ltb chr 32) [
      | true ↦ some (failed control_character)
      | false ↦ parse_loop fuel (buf ++ (chr ∷ [])) text
    ]
  ]
]

pub json_parse_string : (fuel : ℕ) → Bytes → Option Parsed
unfolding parse_loop
json_parse_string fuel [] = some (failed expected_string)
json_parse_string fuel (c ∷ text) =
    if c == b'"' then parse_loop fuel [] text else some (failed expected_string)

-- A digit of `%04x`.
pub hex_digit : ℕ → ℕ
hex_digit n = if ltb n 10 then b'0' + n else b'a' + (n - 10)

-- The switch of json_write_string. A byte below 32 has no more than two digits.
pub written_byte : ℕ → Bytes
unfolding hex_digit
written_byte chr =
    if chr == b'"'
    then codes "\\\""
    else if chr == b'\\'
    then codes "\\\\"
    else if chr == 8
    then codes "\\b"
    else if chr == 12
    then codes "\\f"
    else if chr == 10
    then codes "\\n"
    else if chr == 13
    then codes "\\r"
    else if chr == 9
    then codes "\\t"
    else if ltb chr 32
    then b'\\' ∷ b'u' ∷ b'0' ∷ b'0' ∷ hex_digit (chr / 16) ∷ hex_digit (chr % 16) ∷ []
    else chr ∷ []

pub written_bytes : Bytes → Bytes
unfolding written_byte
written_bytes [] = []
written_bytes (chr ∷ text) = written_byte chr ++ written_bytes text

pub json_write_string : Bytes → Bytes
unfolding written_bytes
json_write_string text = b'"' ∷ (written_bytes text ++ (b'"' ∷ []))
