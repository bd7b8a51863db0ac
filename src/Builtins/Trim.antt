-- ===== src/Builtins/Trim.antt =====
-- trim of src/fex_builtins.c.
use fex.Common.{
  ℕ, suc, ◌+◌, ◌-◌, ◌<◌, ◌≤◌, ◌≡◌, refl, ◌∙◌, ap, ◌⊎◌, inl, inr, Bool, true, false, [], ◌∷◌, Bytes,
  if◌then◌else◌, ltb, ◌==◌, ==→eq, ne→==, length, take, drop, arith, Bool-cases,
}
use mathlib.Core.Bool.{true≢false}
use mathlib.Core.Path.{subst}
use fex.Builtins.{byte, back_while, forth_while, value, failed, string_too_long}
use fex.Builtins.Strings.{
  copy_string_to_fixed_buffer, and_then, is_space, trimmed, builtin_string_trim,
}
use fex.Builtins.Scans.{Back, back_while-Back, Forth, forth_while-Forth}

-- The text from `s` to `e` is what is left of the string without the white space at its ends.
pub record Trimmed (str : Bytes) (s e : ℕ) : Type 0 where
  pub order : s ≤ e
  pub bound : e ≤ length str
  pub front : (i : ℕ) → i < s → is_space (byte str i) ≡ true
  pub back : (i : ℕ) → e ≤ i → i < length str → is_space (byte str i) ≡ true
  pub ends : (s ≡ e) ⊎ ((is_space (byte str s) ≡ false) × (is_space (byte str (e - 1)) ≡ false))

trim_lem :
    (str : Bytes)
    → builtin_string_trim str
      ≡ (if ltb 1024 (length str + 1) then failed string_too_long else value (trimmed str))
unfolding builtin_string_trim copy_string_to_fixed_buffer forth_while
trim_lem [] = refl
trim_lem (c ∷ str) =
    let more : (suc (length str) == 0) ≡ false = ground arith in
    either (ltb 1024 (suc (length str) + 1)) more
  where
    either :
        (b : Bool)
        → (suc (length str) == 0) ≡ false
        → and_then
            (if b then failed string_too_long else value (c ∷ str))
            (λ buffer. if length buffer == 0 then value [] else value (trimmed buffer))
          ≡ (if b then failed string_too_long else value (trimmed (c ∷ str)))
    either true more = refl
    either false more = rw more refl

spaces_only :
    (str : Bytes)
    → forth_while is_space 0 str ≡ length str
    → (s e : ℕ) × Trimmed str s e × ([] ≡ take (e - s) (drop s str))
spaces_only str all = (
  length str,
  length str,
  record {
    order = omega arith;
    bound = omega arith;
    front = λ i lt. f.front i (omega (arith, lt, all));
    back = λ i le lt. absurd (omega (arith, le, lt));
    ends = inl refl;
  },
  ap (λ n. take n (drop (length str) str)) zero_of,
)
  where
    f : Forth is_space 0 str (forth_while is_space 0 str)
    f = forth_while-Forth is_space 0 str

    zero_of : 0 ≡ length str - length str
    zero_of = omega arith

some_text :
    (str : Bytes)
    → (forth_while is_space 0 str == length str) ≡ false
    → Trimmed str
        (forth_while is_space 0 str)
        (back_while is_space (forth_while is_space 0 str) (length str) str)
some_text str some_left =
    let f = forth_while-Forth is_space 0 str in
    let b = back_while-Back is_space (forth_while is_space 0 str) (length str) str in
    from (forth_while is_space 0 str) f b some_left
  where
    from :
        (s : ℕ)
        → Forth is_space 0 str s
        → Back is_space s (length str) str (back_while is_space s (length str) str)
        → (s == length str) ≡ false
        → Trimmed str s (back_while is_space s (length str) str)
    from s f b some_left = record {
      order = b.limit_le (omega (arith, f.bound));
      bound = b.le;
      front = λ i lt. f.front i (omega (arith, lt));
      back = b.behind;
      ends = elim b.stop [
        | inl small ↦ inl (omega (arith, small, b.limit_le (omega (arith, f.bound))))
        | inr last ↦ elim f.stop [
          | inl all ↦ absurd (true≢false (ne→== s (length str) some_left (omega (arith, all))))
          | inr first ↦ inr (subst (λ j. is_space (byte str j) ≡ false) minus_zero first, last)
        ]
      ];
    }
      where
        minus_zero : s - 0 ≡ s
        minus_zero = omega arith

trimmed_all : (str : Bytes) → (forth_while is_space 0 str == length str) ≡ true → trimmed str ≡ []
trimmed_all str all = rw all refl

trimmed_some :
    (str : Bytes)
    → (forth_while is_space 0 str == length str) ≡ false
    → trimmed str
      ≡ take
          (back_while is_space (forth_while is_space 0 str) (length str) str
            - forth_while is_space 0 str)
          (drop (forth_while is_space 0 str) str)
trimmed_some str some_left = rw some_left refl

trimmed-Trimmed :
    (str : Bytes) → (s e : ℕ) × Trimmed str s e × (trimmed str ≡ take (e - s) (drop s str))
trimmed-Trimmed str = elim (Bool-cases (forth_while is_space 0 str == length str)) [
  | inl all ↦
      let (s, e, t, nothing_left) = spaces_only str (==→eq _ _ all) in
      (s, e, t, trimmed_all str all ∙ nothing_left)
  | inr some_left ↦ (_, _, some_text str some_left, trimmed_some str some_left)
]

-- trim fails on a string of 1,024 bytes or more. On a shorter one it gives a part of the string
-- with white space only in front of it and behind it; the part is empty, or neither its first nor
-- its last byte is white space.
pub builtin_string_trim-Trimmed :
    (str : Bytes)
    → (s e : ℕ) × Trimmed str s e
      × (builtin_string_trim str ≡ (
          if ltb 1024 (length str + 1)
          then failed string_too_long
          else value (take (e - s) (drop s str))))
builtin_string_trim-Trimmed str =
    let (s, e, t, part) = trimmed-Trimmed str in
    (
      s,
      e,
      t,
      trim_lem str
          ∙ ap (λ p. if ltb 1024 (length str + 1) then failed string_too_long else value p) part,
    )
