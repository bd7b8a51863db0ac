-- ===== src/Builtins/Split.antt =====
-- split of src/fex_builtins.c.
use fex.Common.{
  ℕ, ◌+◌, ◌<◌, ◌≤◌, ◌≡◌, refl, sym, ◌∙◌, ap, inl, inr, true, false, List, [], ◌∷◌, ◌++◌,
  append_assoc, append-nil, Bytes, if◌then◌else◌, ltb, ◌==◌, length, All, arith, Bool-cases,
}
use mathlib.Core.Bool.{true≢false}
use fex.Builtins.{value}
use fex.Builtins.Strings.{bytes_contains_byte, emit, split_loop, builtin_string_split}

-- The bytes of a text that are no delimiters.
abbrev pub without : (delimiter : Bytes) → Bytes → Bytes
without delimiter [] = []
without delimiter (c ∷ text) =
    let rest = without delimiter text in if bytes_contains_byte delimiter c then rest else c ∷ rest

abbrev pub concat : List Bytes → Bytes
concat [] = []
concat (piece ∷ pieces) = piece ++ concat pieces

-- A piece is not empty, and no byte of it is a delimiter.
pub record IsPiece (delimiter piece : Bytes) : Type 0 where
  pub some_text : 0 < length piece
  pub plain : All (λ c. bytes_contains_byte delimiter c ≡ false) piece

split_delimiter :
    (delimiter piece buffer : Bytes) (c : ℕ)
    → bytes_contains_byte delimiter c ≡ true
    → split_loop delimiter piece (c ∷ buffer) ≡ emit piece (split_loop delimiter [] buffer)
unfolding split_loop
split_delimiter delimiter piece buffer c e = rw (e, split_loop) refl

split_plain :
    (delimiter piece buffer : Bytes) (c : ℕ)
    → bytes_contains_byte delimiter c ≡ false
    → split_loop delimiter piece (c ∷ buffer) ≡ split_loop delimiter (piece ++ (c ∷ [])) buffer
unfolding split_loop
split_plain delimiter piece buffer c e = rw (e, split_loop) refl

concat-emit : (piece : Bytes) (rest : List Bytes) → concat (emit piece rest) ≡ piece ++ concat rest
concat-emit [] rest = refl
concat-emit (c ∷ piece) rest = refl

emit-All :
    (delimiter piece : Bytes) (rest : List Bytes)
    → All (λ c. bytes_contains_byte delimiter c ≡ false) piece
    → All (IsPiece delimiter) rest
    → All (IsPiece delimiter) (emit piece rest)
emit-All delimiter [] rest plain pieces = pieces
emit-All delimiter (c ∷ piece) rest plain pieces =
    (record { some_text = omega arith; plain = plain }, pieces)

All-append : (P : ℕ → Type 0) (xs : Bytes) (c : ℕ) → All P xs → P c → All P (xs ++ (c ∷ []))
All-append P [] c all p = (p, tt)
All-append P (x ∷ xs) c (q, all) p = (q, All-append P xs c all p)

split_loop_lem :
    (delimiter piece buffer : Bytes)
    → All (λ c. bytes_contains_byte delimiter c ≡ false) piece
    → (concat (split_loop delimiter piece buffer) ≡ piece ++ without delimiter buffer)
      × All (IsPiece delimiter) (split_loop delimiter piece buffer)
split_loop_lem delimiter piece [] plain =
    unfold split_loop in (concat-emit piece [], emit-All delimiter piece [] plain tt)
split_loop_lem delimiter piece (c ∷ buffer) plain =
    elim (Bool-cases (bytes_contains_byte delimiter c)) [
      | inl is_delim ↦
          let (text, pieces) = split_loop_lem delimiter [] buffer tt in
          rw (split_delimiter delimiter piece buffer c is_delim) (
            concat-emit piece (split_loop delimiter [] buffer)
                ∙ ap (λ t. piece ++ t) (text ∙ sym (skip is_delim)),
            emit-All delimiter piece (split_loop delimiter [] buffer) plain pieces,
          )
      | inr is_plain ↦
          let (text, pieces) =
            split_loop_lem delimiter (piece ++ (c ∷ [])) buffer
              (All-append (λ x. bytes_contains_byte delimiter x ≡ false) piece c plain is_plain) in
          rw (split_plain delimiter piece buffer c is_plain) (
            text
                ∙ append_assoc piece (c ∷ []) (without delimiter buffer)
                ∙ ap (λ t. piece ++ t) (sym (keep is_plain)),
            pieces,
          )
    ]
  where
    skip :
        bytes_contains_byte delimiter c ≡ true
        → without delimiter (c ∷ buffer) ≡ without delimiter buffer
    skip e = rw e refl

    keep :
        bytes_contains_byte delimiter c ≡ false
        → without delimiter (c ∷ buffer) ≡ c ∷ without delimiter buffer
    keep e = rw e refl

split_value :
    (str delim : Bytes)
    → length str + 1 ≤ 1024
    → length delim + 1 ≤ 64
    → 0 < length delim
    → builtin_string_split str delim ≡ value (split_loop delim [] str)
unfolding builtin_string_split
split_value str delim short short' some_delim =
    let fits : ltb 1024 (length str + 1) ≡ false = ground (arith, short) in
    let fits' : ltb 64 (length delim + 1) ≡ false = ground (arith, short') in
    let given : (length delim == 0) ≡ false = ground (arith, some_delim) in
    rw fits (rw fits' (rw given refl))

-- On strings that fit in the buffers, with a delimiter, split gives pieces that are not empty and
-- hold no byte of the delimiter, and all other bytes of the string stand in them, in order.
pub builtin_string_split-IsPiece :
    (str delim : Bytes)
    → length str + 1 ≤ 1024
    → length delim + 1 ≤ 64
    → 0 < length delim
    → (pieces : List Bytes) × (builtin_string_split str delim ≡ value pieces)
      × All (IsPiece delim) pieces
      × (concat pieces ≡ without delim str)
builtin_string_split-IsPiece str delim short short' some_delim =
    let (text, pieces) = split_loop_lem delim [] str tt in
    (split_loop delim [] str, split_value str delim short short' some_delim, pieces, text)

-- Pieces with one byte between each two of them.
abbrev pub join : (d : ℕ) → List Bytes → Bytes
join d [] = []
join d (piece ∷ []) = piece
join d (piece ∷ next ∷ pieces) = piece ++ (d ∷ join d (next ∷ pieces))

-- The loop collects bytes that are no delimiters.
split_loop-plain :
    (delimiter piece xs buffer : Bytes)
    → All (λ c. bytes_contains_byte delimiter c ≡ false) xs
    → split_loop delimiter piece (xs ++ buffer) ≡ split_loop delimiter (piece ++ xs) buffer
split_loop-plain delimiter piece [] buffer plain =
    ap (λ p. split_loop delimiter p buffer) (sym (append-nil piece))
split_loop-plain delimiter piece (c ∷ xs) buffer (p, plain) =
    split_plain delimiter piece (xs ++ buffer) c p
    ∙ split_loop-plain delimiter (piece ++ (c ∷ [])) xs buffer plain
    ∙ ap (λ q. split_loop delimiter q buffer) (append_assoc piece (c ∷ []) xs)

emit-piece :
    (delimiter piece : Bytes) (rest : List Bytes)
    → IsPiece delimiter piece
    → emit piece rest ≡ piece ∷ rest
emit-piece delimiter [] rest p = absurd (omega (arith, p.some_text))
emit-piece delimiter (c ∷ piece) rest p = refl

split_loop-last :
    (delimiter piece : Bytes) → IsPiece delimiter piece → split_loop delimiter [] piece ≡ piece ∷ []
split_loop-last delimiter piece p =
    ap (split_loop delimiter []) (sym (append-nil piece))
    ∙ split_loop-plain delimiter [] piece [] p.plain
    ∙ at_end
    ∙ emit-piece delimiter piece [] p
  where
    at_end : split_loop delimiter piece [] ≡ emit piece []
    at_end = unfold split_loop in refl

split_loop-join :
    (delimiter : Bytes) (d : ℕ) (pieces : List Bytes)
    → bytes_contains_byte delimiter d ≡ true
    → All (IsPiece delimiter) pieces
    → split_loop delimiter [] (join d pieces) ≡ pieces
split_loop-join delimiter d [] is_delim all = unfold split_loop in refl
split_loop-join delimiter d (piece ∷ []) is_delim (p, all) = split_loop-last delimiter piece p
split_loop-join delimiter d (piece ∷ next ∷ pieces) is_delim (p, all) =
    split_loop-plain delimiter [] piece (d ∷ join d (next ∷ pieces)) p.plain
    ∙ split_delimiter delimiter piece (join d (next ∷ pieces)) d is_delim
    ∙ emit-piece delimiter piece (split_loop delimiter [] (join d (next ∷ pieces))) p
    ∙ ap (λ rest. piece ∷ rest) (split_loop-join delimiter d (next ∷ pieces) is_delim all)

-- split gives back the pieces that were joined by one of the bytes of the delimiter, if no piece is
-- empty or holds a byte of the delimiter, and the strings fit in the buffers.
pub builtin_string_split-join :
    (delim : Bytes) (d : ℕ) (pieces : List Bytes)
    → bytes_contains_byte delim d ≡ true
    → All (IsPiece delim) pieces
    → length (join d pieces) + 1 ≤ 1024
    → length delim + 1 ≤ 64
    → builtin_string_split (join d pieces) delim ≡ value pieces
builtin_string_split-join delim d pieces is_delim all short short' =
    split_value (join d pieces) delim short short' (some_byte delim is_delim)
    ∙ ap value (split_loop-join delim d pieces is_delim all)
  where
    some_byte : (set : Bytes) → bytes_contains_byte set d ≡ true → 0 < length set
    some_byte [] h = absurd (true≢false (sym h ∙ no_byte))
      where
        no_byte : bytes_contains_byte [] d ≡ false
        no_byte = unfold bytes_contains_byte in refl
    some_byte (x ∷ set) h = omega arith
