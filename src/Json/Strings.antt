-- ===== src/Json/Strings.antt =====
-- json_parse_string against json_write_string, and the bytes of buf_append_utf8.
use fex.Common.{
  ℕ, zero, suc, ◌+◌, ◌-◌, ◌*◌, ◌/◌, ◌%◌, ◌<◌, ◌≤◌, ◌≡◌, refl, sym, ◌∙◌, ap, ◌⊎◌, ◌&&◌, inl, inr,
  true, false, [], ◌∷◌, ◌++◌, append_assoc, append-nil, Option, none, some, Bytes, if◌then◌else◌,
  ltb, leb, ◌==◌, ==→eq, length, drop, length-drop, arith, Bool-cases,
}
use mathlib.Core.Path.{subst}
use fex.Json.{
  Parsed, parsed, failed, unterminated, expected_string, control_character, utf8, json_hex_value,
  unicode_escape, Escape, escape, bad_escape, scalar_escape, read_escape, parse_loop,
  json_parse_string, hex_digit, written_byte, written_bytes, json_write_string, JsonError,
  is_surrogate,
}

loop_end :
    (fuel : ℕ) (buf : Bytes) (c : ℕ) (text : Bytes)
    → (c == b'"') ≡ true
    → parse_loop (suc fuel) buf (c ∷ text) ≡ some (parsed buf text)
unfolding parse_loop
loop_end fuel buf c text e = rw (e, parse_loop) refl

loop_escape :
    (fuel : ℕ) (buf text appended : Bytes) (taken : ℕ)
    → read_escape text ≡ escape appended taken
    → parse_loop (suc fuel) buf (b'\\' ∷ text) ≡ parse_loop fuel (buf ++ appended) (drop taken text)
unfolding parse_loop
loop_escape fuel buf text appended taken e = rw (e, parse_loop) refl

loop_bad :
    (fuel : ℕ) (buf text : Bytes) (e : JsonError)
    → read_escape text ≡ bad_escape e
    → parse_loop (suc fuel) buf (b'\\' ∷ text) ≡ some (failed e)
unfolding parse_loop
loop_bad fuel buf text e eq = rw (eq, parse_loop) refl

loop_control :
    (fuel : ℕ) (buf : Bytes) (c : ℕ) (text : Bytes)
    → (c == b'"') ≡ false
    → (c == b'\\') ≡ false
    → ltb c 32 ≡ true
    → parse_loop (suc fuel) buf (c ∷ text) ≡ some (failed control_character)
unfolding parse_loop
loop_control fuel buf c text e e' e'' = rw (e, parse_loop) (rw e' (rw e'' refl))

loop_plain :
    (fuel : ℕ) (buf : Bytes) (c : ℕ) (text : Bytes)
    → (c == b'"') ≡ false
    → (c == b'\\') ≡ false
    → ltb c 32 ≡ false
    → parse_loop (suc fuel) buf (c ∷ text) ≡ parse_loop fuel (buf ++ (c ∷ [])) text
unfolding parse_loop
loop_plain fuel buf c text e e' e'' = rw (e, parse_loop) (rw e' (rw e'' refl))

hex_value-digit : (n : ℕ) → n < 16 → json_hex_value (hex_digit n) ≡ some n
unfolding json_hex_value hex_digit
hex_value-digit n lt = ground arith

unicode-written :
    (c : ℕ) (rest : Bytes)
    → c < 32
    → unicode_escape (b'0' ∷ b'0' ∷ hex_digit (c / 16) ∷ hex_digit (c % 16) ∷ rest) ≡ some c
unfolding unicode_escape
unicode-written c rest lt =
    rw (hex_value-digit (c / 16) (omega arith), hex_value-digit (c % 16) (omega arith))
      (ap some (whole c))
  where
    whole : (c : ℕ) → 0 + c / 16 * 16 + c % 16 ≡ c
    whole c = omega arith

scalar_small : (c : ℕ) → c < 32 → scalar_escape (some c) ≡ escape (c ∷ []) 5
unfolding scalar_escape utf8
scalar_small c lt = rw (no_surrogate c lt, one c lt) refl
  where
    no_surrogate : (c : ℕ) → c < 32 → is_surrogate c ≡ false
    no_surrogate c lt = ground arith

    one : (c : ℕ) → c < 32 → leb c 127 ≡ true
    one c lt = ground arith

-- Reading what is written for one byte.
abbrev ReadBack : ℕ → Bytes → Bytes → ℕ → Type 0
ReadBack fuel buf text c =
    parse_loop (suc fuel) buf (written_byte c ++ text) ≡ parse_loop fuel (buf ++ (c ∷ [])) text

control_escape :
    (c : ℕ) (text : Bytes)
    → c < 32
    → read_escape (b'u' ∷ b'0' ∷ b'0' ∷ hex_digit (c / 16) ∷ hex_digit (c % 16) ∷ text)
      ≡ escape (c ∷ []) 5
unfolding read_escape
control_escape c text lt = ap scalar_escape (unicode-written c text lt) ∙ scalar_small c lt

written_byte-ReadBack : (fuel : ℕ) (buf text : Bytes) (c : ℕ) → ReadBack fuel buf text c
unfolding written_byte read_escape
written_byte-ReadBack fuel buf text c = elim (Bool-cases (c == b'"')) [
  | inl e ↦ known b'"' e (loop_escape fuel buf (b'"' ∷ text) _ 1 refl)
  | inr not_quote ↦ elim (Bool-cases (c == b'\\')) [
    | inl e ↦ known b'\\' e (loop_escape fuel buf (b'\\' ∷ text) _ 1 refl)
    | inr not_backslash ↦ elim (Bool-cases (c == 8)) [
      | inl e ↦ known 8 e (loop_escape fuel buf (b'b' ∷ text) _ 1 refl)
      | inr not_b ↦ elim (Bool-cases (c == 12)) [
        | inl e ↦ known 12 e (loop_escape fuel buf (b'f' ∷ text) _ 1 refl)
        | inr not_f ↦ elim (Bool-cases (c == 10)) [
          | inl e ↦ known 10 e (loop_escape fuel buf (b'n' ∷ text) _ 1 refl)
          | inr not_n ↦ elim (Bool-cases (c == 13)) [
            | inl e ↦ known 13 e (loop_escape fuel buf (b'r' ∷ text) _ 1 refl)
            | inr not_r ↦ elim (Bool-cases (c == 9)) [
              | inl e ↦ known 9 e (loop_escape fuel buf (b't' ∷ text) _ 1 refl)
              | inr not_t ↦ elim (Bool-cases (ltb c 32)) [
                | inl control ↦
                    rw (not_quote, not_backslash, not_b, not_f, not_n, not_r, not_t, control)
                      (loop_escape fuel buf _ (c ∷ []) 5
                        (control_escape c text (ground (arith, control))))
                | inr printable ↦
                    rw (not_quote, not_backslash, not_b, not_f, not_n, not_r, not_t, printable)
                      (loop_plain fuel buf c text not_quote not_backslash printable)
              ]
            ]
          ]
        ]
      ]
    ]
  ]
]
  where
    known : (k : ℕ) → (c == k) ≡ true → ReadBack fuel buf text k → ReadBack fuel buf text c
    known k e read = subst (ReadBack fuel buf text) (sym (==→eq c k e)) read

loop-written :
    (fuel : ℕ) (buf s rest : Bytes)
    → length s < fuel
    → parse_loop fuel buf (written_bytes s ++ (b'"' ∷ rest)) ≡ some (parsed (buf ++ s) rest)
unfolding written_bytes
loop-written zero buf s rest enough = absurd (omega (arith, enough))
loop-written (suc fuel) buf [] rest enough =
    loop_end fuel buf b'"' rest refl ∙ ap (λ b. some (parsed b rest)) (sym (append-nil buf))
loop-written (suc fuel) buf (c ∷ s) rest enough =
    ap (parse_loop (suc fuel) buf) (append_assoc (written_byte c) (written_bytes s) (b'"' ∷ rest))
    ∙ written_byte-ReadBack fuel buf (written_bytes s ++ (b'"' ∷ rest)) c
    ∙ loop-written fuel (buf ++ (c ∷ [])) s rest (omega (arith, enough))
    ∙ ap (λ b. some (parsed b rest)) (append_assoc buf (c ∷ []) s)

-- With more fuel than the string has bytes, json_parse_string reads back every string that
-- json_write_string writes, and leaves the text behind it.
pub parse-write :
    (fuel : ℕ) (s rest : Bytes)
    → length s < fuel
    → json_parse_string fuel (json_write_string s ++ rest) ≡ some (parsed s rest)
unfolding json_parse_string json_write_string
parse-write fuel s rest enough =
    ap (parse_loop fuel []) (append_assoc (written_bytes s) (b'"' ∷ []) rest)
    ∙ loop-written fuel [] s rest enough

read_escape-cases :
    (text : Bytes)
    → ((appended : Bytes) × (taken : ℕ) × (read_escape text ≡ escape appended taken))
      ⊎ ((e : JsonError) × (read_escape text ≡ bad_escape e))
read_escape-cases text = from (read_escape text) refl
  where
    from :
        (r : Escape)
        → read_escape text ≡ r
        → ((appended : Bytes) × (taken : ℕ) × (read_escape text ≡ escape appended taken))
          ⊎ ((e : JsonError) × (read_escape text ≡ bad_escape e))
    from (escape appended taken) eq = inl (appended, taken, eq)
    from (bad_escape e) eq = inr (e, eq)

loop-ends :
    (fuel : ℕ) (buf text : Bytes)
    → length text < fuel
    → (r : Parsed) × (parse_loop fuel buf text ≡ some r)
unfolding parse_loop
loop-ends zero buf text enough = absurd (omega (arith, enough))
loop-ends (suc fuel) buf [] enough = (failed unterminated, refl)
loop-ends (suc fuel) buf (c ∷ text) enough = elim (Bool-cases (c == b'"')) [
  | inl e ↦ (parsed buf text, loop_end fuel buf c text e)
  | inr not_quote ↦ elim (Bool-cases (c == b'\\')) [
    | inl e ↦ elim (read_escape-cases text) [
      | inl (appended, taken, eq) ↦
          let (r, found) =
            loop-ends fuel (buf ++ appended) (drop taken text)
              (omega (arith, enough, length-drop taken text)) in
          (
            r,
            ap (λ k. parse_loop (suc fuel) buf (k ∷ text)) (==→eq c b'\\' e)
                ∙ loop_escape fuel buf text appended taken eq
                ∙ found,
          )
      | inr (e', eq) ↦ (
        failed e',
        ap (λ k. parse_loop (suc fuel) buf (k ∷ text)) (==→eq c b'\\' e)
            ∙ loop_bad fuel buf text e' eq,
      )
    ]
    | inr not_backslash ↦ elim (Bool-cases (ltb c 32)) [
      | inl control ↦
          (failed control_character, loop_control fuel buf c text not_quote not_backslash control)
      | inr printable ↦
          let (r, found) = loop-ends fuel (buf ++ (c ∷ [])) text (omega (arith, enough)) in
          (r, loop_plain fuel buf c text not_quote not_backslash printable ∙ found)
    ]
  ]
]

-- With more fuel than the text has bytes, json_parse_string gives a string or an error.
pub json_parse_string-ends :
    (fuel : ℕ) (text : Bytes)
    → length text < fuel
    → (r : Parsed) × (json_parse_string fuel text ≡ some r)
unfolding json_parse_string
json_parse_string-ends fuel [] enough = (failed expected_string, refl)
json_parse_string-ends fuel (c ∷ text) enough = elim (Bool-cases (c == b'"')) [
  | inl e ↦ let (r, found) = loop-ends fuel [] text (omega (arith, enough)) in (r, rw e found)
  | inr e ↦ (failed expected_string, rw e refl)
]

-- The code point of a sequence of one, two or three bytes in UTF-8.
abbrev pub utf8_value : Bytes → Option ℕ
utf8_value [] = none
utf8_value (a ∷ []) = if ltb a 128 then some a else none
utf8_value (a ∷ b ∷ []) = if leb 192 a && ltb a 224 then some ((a - 192) * 64 + (b - 128)) else none
utf8_value (a ∷ b ∷ c ∷ []) =
    if leb 224 a && ltb a 240 then some ((a - 224) * 4096 + (b - 128) * 64 + (c - 128)) else none
utf8_value (a ∷ b ∷ c ∷ d ∷ rest) = none

-- buf_append_utf8 encodes every code point below 2 ^ 16 in one to three bytes from which UTF-8
-- gives it back.
pub utf8_value-utf8 :
    (codepoint : ℕ) → codepoint < 65536 → utf8_value (utf8 codepoint) ≡ some codepoint
unfolding utf8
utf8_value-utf8 c lt = elim (Bool-cases (leb c 127)) [
  | inl small ↦ rw small (rw (one c (ground (arith, small))) refl)
  | inr e ↦ elim (Bool-cases (leb c 2047)) [
    | inl middle ↦ rw (e, middle) (two (ground (arith, e)) (ground (arith, middle)))
    | inr e' ↦ rw (e, e') (three (ground (arith, e')))
  ]
]
  where
    one : (c : ℕ) → c < 128 → ltb c 128 ≡ true
    one c lt' = ground arith

    two : 127 < c → c ≤ 2047 → utf8_value ((192 + c / 64 % 32) ∷ (128 + c % 64) ∷ []) ≡ some c
    two low high = ground arith

    three :
        2047 < c
        → utf8_value ((224 + c / 4096 % 16) ∷ (128 + c / 64 % 64) ∷ (128 + c % 64) ∷ []) ≡ some c
    three low = ground arith
