-- ===== src/Parser/Literals.antt =====
-- String literals of src/fex.c: parse_string_literal against the text that append_string_for_error
-- writes.
use fex.Common.{
  ℕ, suc, ◌+◌, ◌-◌, ◌<◌, ◌≡◌, refl, sym, ◌∙◌, ap, inl, inr, Bool, true, false, ◌||◌, not, some, [],
  ◌∷◌, ◌++◌, Bytes, codes, ltb, ◌==◌, ==→eq, All, length, length-append, append_assoc, append-nil,
  take, drop, arith, Bool-cases,
}
use mathlib.Core.Path.{subst}
use fex.Errors.{append_string_for_error, escaped_byte}
use fex.Errors.Writer.{string_byte, string_text, append_string_whole}
use fex.Lexer.Reading.{string_tail, plain_tail}
use fex.Parser.{Parser}
use fex.Parser.Expr.{string_object}
use fex.Parser.Primary.{escape_bytes, unescape, raw_text, parse_string_literal, parse_string}
use fex.Parser.Steps.{pure, ◌>>=◌, done, previous, token_text}

-- A byte that the messages show as itself or by an escape of the language.
abbrev pub is_literal_byte : ℕ → Bool
is_literal_byte c =
    (c == 0 || c == b'\n') || (c == b'\r' || c == b'\t') || not (ltb c 32 || (c == 127))

unescape_escape :
    (d : ℕ) (text : Bytes) → unescape (b'\\' ∷ d ∷ text) ≡ escape_bytes d ++ unescape text
unfolding unescape
unescape_escape d text = refl

unescape_plain :
    (c : ℕ) (text : Bytes) → (c == b'\\') ≡ false → unescape (c ∷ text) ≡ c ∷ unescape text
unfolding unescape
unescape_plain c [] plain = refl
unescape_plain c (d ∷ text) plain = rw (plain, unescape) refl

-- What reading a byte of a message back means, for the value and for the end of the literal.
abbrev ReadBack : Bytes → ℕ → Type 0
ReadBack text c =
    (unescape (string_byte c ++ text) ≡ c ∷ unescape text)
    × (string_tail (string_byte c ++ text) ≡ string_tail text)

byte-ReadBack : (c : ℕ) (text : Bytes) → is_literal_byte c ≡ true → ReadBack text c
unfolding string_byte escaped_byte unescape escape_bytes
byte-ReadBack c text literal = elim (Bool-cases (c == b'\\')) [
  | inl e ↦ subst (ReadBack text) (sym (==→eq c b'\\' e)) (refl, refl)
  | inr not_backslash ↦ elim (Bool-cases (c == b'"')) [
    | inl e ↦ subst (ReadBack text) (sym (==→eq c b'"' e)) (refl, refl)
    | inr not_quote ↦ elim (Bool-cases (c == 0)) [
      | inl e ↦ subst (ReadBack text) (sym (==→eq c 0 e)) (refl, refl)
      | inr not_nul ↦ elim (Bool-cases (c == b'\n')) [
        | inl e ↦ subst (ReadBack text) (sym (==→eq c b'\n' e)) (refl, refl)
        | inr not_n ↦ elim (Bool-cases (c == b'\r')) [
          | inl e ↦ subst (ReadBack text) (sym (==→eq c b'\r' e)) (refl, refl)
          | inr not_r ↦ elim (Bool-cases (c == b'\t')) [
            | inl e ↦ subst (ReadBack text) (sym (==→eq c b'\t' e)) (refl, refl)
            | inr not_t ↦
                let printable : (ltb c 32 || (c == 127)) ≡ false =
                  printable_of (ltb c 32 || (c == 127)) not_nul not_n not_r not_t literal in
                rw (not_backslash, not_quote, not_nul, not_n, not_r, not_t, printable)
                  (unescape_plain c text not_backslash, plain_tail c text not_backslash not_quote)
          ]
        ]
      ]
    ]
  ]
]
  where
    printable_of :
        {a b d e : Bool} (f : Bool)
        → a ≡ false
        → b ≡ false
        → d ≡ false
        → e ≡ false
        → (a || b) || (d || e) || not f ≡ true
        → f ≡ false
    printable_of false na nb nd ne h = refl
    printable_of true na nb nd ne h = cc

text_step :
    (c : ℕ) (s more : Bytes)
    → string_text (c ∷ s) ++ more ≡ string_byte c ++ (string_text s ++ more)
unfolding string_text
text_step c s more = append_assoc (string_byte c) (string_text s) more

text-ReadBack :
    (s more : Bytes)
    → All (λ c. is_literal_byte c ≡ true) s
    → (unescape (string_text s ++ more) ≡ s ++ unescape more)
      × (string_tail (string_text s ++ more) ≡ string_tail more)
text-ReadBack [] more literal = unfold string_text in (refl, refl)
text-ReadBack (c ∷ s) more (byte, literal) =
    let (value, ends) = byte-ReadBack c (string_text s ++ more) byte in
    let (values, end) = text-ReadBack s more literal in
    (
      ap unescape (text_step c s more) ∙ value ∙ ap (λ t. c ∷ t) values,
      ap string_tail (text_step c s more) ∙ ends ∙ end,
    )

take_front : (xs ys : Bytes) → take (length xs) (xs ++ ys) ≡ xs
take_front [] ys = refl
take_front (x ∷ xs) ys = ap (λ t. x ∷ t) (take_front xs ys)

-- The text between the quotes.
raw_text_between : (text : Bytes) → raw_text ((codes "\"" ++ text) ++ codes "\"") ≡ text
raw_text_between text =
    ap (λ n. take n (text ++ codes "\"")) (count (length-append text (codes "\"")))
    ∙ take_front text (codes "\"")
  where
    count :
        length (text ++ codes "\"") ≡ length text + 1
        → suc (length (text ++ codes "\"")) - 2 ≡ length text
    count e = omega (arith, e)

-- A string without control bytes other than NUL, newline, carriage return and tab, which the writer
-- of error messages has room for, is written by it as one string literal: the closing quote is the
-- first that no backslash stands before, and parse_string gives the string back from a token with
-- that text.
pub parse_string-append_string_for_error :
    (cap : ℕ) (s source : Bytes) (p : Parser)
    → All (λ c. is_literal_byte c ≡ true) s
    → length (string_text s) + 2 < cap
    → token_text source p.previous
      ≡ (append_string_for_error (record { dst = []; cap = cap }) s).dst
    → (parse_string source p ≡ some (done (string_object s) p))
      × (string_tail (drop 1 (token_text source p.previous)) ≡ true)
unfolding parse_string_literal pure ◌>>=◌ previous unescape
parse_string-append_string_for_error cap s source p literal room text =
    let whole = text ∙ append_string_whole cap s room in
    let (value, ends) = text-ReadBack s [] literal in
    let (value', ends') = text-ReadBack s (codes "\"") literal in
    (
      ap (λ t. some (done (string_object (unescape (raw_text t))) p)) whole
          ∙ ap (λ t. some (done (string_object (unescape t)) p)) (raw_text_between (string_text s))
          ∙ ap (λ t. some (done (string_object t) p))
              (ap unescape (sym (append-nil (string_text s))) ∙ value ∙ append-nil s),
      ap (λ t. string_tail (drop 1 t)) whole ∙ ends',
    )
