-- ===== src/Errors/Escapes.antt =====
-- A reader of the escapes in error messages.
use fex.Common.{
  ℕ, ◌+◌, ◌-◌, ◌*◌, ◌/◌, ◌%◌, ◌<◌, ◌≡◌, refl, sym, ◌∙◌, ap, inl, inr, false, ◌||◌, [], ◌∷◌, ◌++◌,
  Bytes, codes, if◌then◌else◌, ltb, leb, ◌==◌, ==→eq, All, length, arith, Bool-cases,
}
use mathlib.Core.Path.{subst}
use fex.Errors.{hexdigits, hex_escape, escaped_byte, append_string_for_error}
use fex.Errors.Writer.{string_byte, string_text, append_string_whole}

-- Where a reader of escapes stands.
pub data Position : Type 0 where
  plain after_backslash first_digit : Position
  second_digit : ℕ → Position

abbrev pub hex_value : ℕ → ℕ
hex_value d = if leb d b'9' then d - b'0' else 10 + (d - b'A')

abbrev pub named : ℕ → ℕ
named c =
    if c == b'0'
    then 0
    else if c == b'n'
    then 10
    else if c == b'r'
    then 13
    else if c == b't'
    then 9
    else c

pub unescape : Position → Bytes → Bytes
unescape position [] = []
unescape plain (c ∷ text) =
    let escaped = unescape after_backslash text in
    let rest = unescape plain text in if c == b'\\' then escaped else c ∷ rest
unescape after_backslash (c ∷ text) =
    let digits = unescape first_digit text in
    let rest = unescape plain text in if c == b'x' then digits else named c ∷ rest
unescape first_digit (c ∷ text) = unescape (second_digit (hex_value c)) text
unescape (second_digit n) (c ∷ text) = (n * 16 + hex_value c) ∷ unescape plain text

hex_value-hexdigits : (n : ℕ) → n < 16 → hex_value (hexdigits n) ≡ n
unfolding hexdigits
hex_value-hexdigits n lt = ground arith

unescape_hex :
    (c : ℕ) (text : Bytes)
    → c < 256
    → unescape plain (hex_escape c ++ text) ≡ c ∷ unescape plain text
unfolding unescape hex_escape
unescape_hex c text lt =
    ap (λ n. n ∷ unescape plain text)
      (together (hex_value-hexdigits (c / 16 % 16) (omega arith))
        (hex_value-hexdigits (c % 16) (omega arith)))
  where
    together : {a b : ℕ} → a ≡ c / 16 % 16 → b ≡ c % 16 → a * 16 + b ≡ c
    together e e' = omega (arith, e, e', lt)

unescape_plain :
    (c : ℕ) (text : Bytes)
    → (c == b'\\') ≡ false
    → unescape plain (c ∷ text) ≡ c ∷ unescape plain text
unfolding unescape
unescape_plain c text e = rw e refl

abbrev ReadBack : Bytes → ℕ → Type 0
ReadBack text c = unescape plain (string_byte c ++ text) ≡ c ∷ unescape plain text

unescape_byte : (c : ℕ) (text : Bytes) → c < 256 → ReadBack text c
unfolding unescape string_byte escaped_byte
unescape_byte c text lt = elim (Bool-cases (c == b'\\')) [
  | inl e ↦ subst (ReadBack text) (sym (==→eq c b'\\' e)) refl
  | inr not_backslash ↦ elim (Bool-cases (c == b'"')) [
    | inl e ↦ subst (ReadBack text) (sym (==→eq c b'"' e)) refl
    | inr not_quote ↦ elim (Bool-cases (c == 0)) [
      | inl e ↦ subst (ReadBack text) (sym (==→eq c 0 e)) refl
      | inr not_nul ↦ elim (Bool-cases (c == b'\n')) [
        | inl e ↦ subst (ReadBack text) (sym (==→eq c b'\n' e)) refl
        | inr not_n ↦ elim (Bool-cases (c == b'\r')) [
          | inl e ↦ subst (ReadBack text) (sym (==→eq c b'\r' e)) refl
          | inr not_r ↦ elim (Bool-cases (c == b'\t')) [
            | inl e ↦ subst (ReadBack text) (sym (==→eq c b'\t' e)) refl
            | inr not_t ↦ elim (Bool-cases (ltb c 32 || (c == 127))) [
              | inl control ↦
                  rw (not_backslash, not_quote, not_nul, not_n, not_r, not_t, control)
                    (unescape_hex c text lt)
              | inr printable ↦
                  rw (not_backslash, not_quote, not_nul, not_n, not_r, not_t, printable)
                    (unescape_plain c text not_backslash)
            ]
          ]
        ]
      ]
    ]
  ]
]

-- Reading the escapes of a string of bytes gives the string: no two strings look alike in a message.
pub unescape-string_text : (s : Bytes) → All (λ c. c < 256) s → unescape plain (string_text s) ≡ s
unfolding unescape string_text
unescape-string_text [] bytes = refl
unescape-string_text (c ∷ s) (lt, bytes) =
    unescape_byte c (string_text s) lt ∙ ap (λ l. c ∷ l) (unescape-string_text s bytes)

-- A buffer of more bytes than the escapes of a string of bytes and two quotes take holds them all,
-- and a reader of escapes gets the string back from the text between the quotes.
pub append_string_for_error-unescape :
    (size : ℕ) (s : Bytes)
    → All (λ c. c < 256) s
    → length (string_text s) + 2 < size
    → (text : Bytes) × ((append_string_for_error (record { dst = []; cap = size }) s).dst
        ≡ (codes "\"" ++ text) ++ codes "\"")
      × (unescape plain text ≡ s)
append_string_for_error-unescape size s bytes room =
    (string_text s, append_string_whole size s room, unescape-string_text s bytes)
