-- ===== src/Lexer/Blanks.antt =====
-- White space and comments as the language has them, and the tests of skip_whitespace in src/fex.c.
use fex.Common.{
  ℕ, ◌≡◌, ◌≢◌, refl, sym, ◌∙◌, ap, ◌⊎◌, inl, inr, Bool, true, false, ◌&&◌, none, some, [], ◌∷◌,
  ◌++◌, Bytes, ◌==◌, ==→eq, eq→==, arith, Bool-cases, All,
}
use mathlib.Core.Bool.{true≢false}
use mathlib.Core.Path.{subst}
use fex.Lexer.{skip_mode}
use fex.Lexer.Keywords.{peek}

-- A space, a carriage return, a tab or a newline.
abbrev pub IsSpace : ℕ → Type 0
IsSpace c = (c ≡ 32) ⊎ (c ≡ 13) ⊎ (c ≡ 9) ⊎ (c ≡ 10)

abbrev pub StartsComment : Bytes → Type 0
StartsComment text = (tail : Bytes) × (text ≡ b'/' ∷ b'/' ∷ tail)

-- No white space and no comment is next.
abbrev pub AtToken : Bytes → Type 0
AtToken [] = Unit
AtToken (x ∷ xs) = ¬ IsSpace x × ¬ StartsComment (x ∷ xs)

abbrev pub AtLineEnd : Bytes → Type 0
AtLineEnd [] = Unit
AtLineEnd (x ∷ xs) = x ≡ b'\n'

-- A text before `rest` that consists of white space and of comments up to the end of their lines.
pub data Blank : (text rest : Bytes) → Type 0 where
  nothing : {rest : Bytes} → Blank [] rest
  space : {text rest : Bytes} (x : ℕ) → IsSpace x → Blank text rest → Blank (x ∷ text) rest
  comment :
      {text rest : Bytes} (body : Bytes)
      → All (λ c. c ≢ b'\n') body
      → AtLineEnd (text ++ rest)
      → Blank text rest
      → Blank (b'/' ∷ b'/' ∷ (body ++ text)) rest

-- The end of a comment, and blank text.
pub record InComment (text rest : Bytes) : Type 0 where
  pub body : Bytes
  pub tail : Bytes
  pub splits : text ≡ body ++ tail
  pub one_line : All (λ c. c ≢ b'\n') body
  pub ends : AtLineEnd (tail ++ rest)
  pub blank : Blank tail rest

line_end_no_slash : (ys : Bytes) → AtLineEnd ys → peek ys ≡ b'/' → ⊥
line_end_no_slash [] ends slash = omega (arith, slash)
line_end_no_slash (y ∷ ys) ends slash = omega (arith, ends, slash)

-- The text of a comment behind its first slash.
pub InComment-Blank :
    (text rest : Bytes)
    → InComment text rest
    → peek (text ++ rest) ≡ b'/'
    → Blank (b'/' ∷ text) rest
InComment-Blank text rest c slash = from c.body c.tail c.splits c.one_line c.ends c.blank
  where
    from :
        (body tail : Bytes)
        → text ≡ body ++ tail
        → All (λ c. c ≢ b'\n') body
        → AtLineEnd (tail ++ rest)
        → Blank tail rest
        → Blank (b'/' ∷ text) rest
    from [] tail splits one_line ends blank =
        absurd
          (line_end_no_slash (tail ++ rest) ends (ap (λ t. peek (t ++ rest)) (sym splits) ∙ slash))
    from (y ∷ body) tail splits (other, one_line) ends blank =
        subst (λ t. Blank (b'/' ∷ t) rest)
          (ap (λ z. z ∷ (body ++ tail)) (sym (ap (λ t. peek (t ++ rest)) (sym splits) ∙ slash))
            ∙ sym splits)
          (comment body one_line ends blank)

-- What skip_mode answers outside of a comment.
abbrev pub Skips : ℕ → Bytes → Type 0
Skips x xs =
    ((skip_mode false x xs ≡ some false) × IsSpace x)
    ⊎ ((skip_mode false x xs ≡ some true) × (x ≡ b'/') × (peek xs ≡ b'/'))
    ⊎ ((skip_mode false x xs ≡ none) × AtToken (x ∷ xs))

both_slashes : (a b : Bool) → a ≡ true → b ≡ true → a && b ≡ false → ⊥
both_slashes true true ea eb h = cc
both_slashes true false ea eb h = cc
both_slashes false b ea eb h = cc

no_comment :
    (x : ℕ) (xs : Bytes) → (x == b'/' && peek xs == b'/') ≡ false → StartsComment (x ∷ xs) → ⊥
no_comment x xs h (tail, e) =
    let first : x ≡ b'/' = cc in
    let others : xs ≡ b'/' ∷ tail = cc in
    both_slashes (x == b'/') (peek xs == b'/') (eq→== x b'/' first)
      (eq→== (peek xs) b'/' (ap peek others)) h

pub differs : (x k : ℕ) → (x == k) ≡ false → x ≢ k
differs x k h e = true≢false (sym (eq→== x k e) ∙ h)

no_space :
    (x : ℕ)
    → (x == b' ') ≡ false
    → (x == b'\r') ≡ false
    → (x == b'\t') ≡ false
    → (x == b'\n') ≡ false
    → IsSpace x
    → ⊥
no_space x s r t n (inl e) = differs x b' ' s e
no_space x s r t n (inr (inl e)) = differs x b'\r' r e
no_space x s r t n (inr (inr (inl e))) = differs x b'\t' t e
no_space x s r t n (inr (inr (inr e))) = differs x b'\n' n e

both_true : (a b : Bool) → a && b ≡ true → (a ≡ true) × (b ≡ true)
both_true true b h = (refl, h)
both_true false b h = cc

pub skip_mode-Skips : (x : ℕ) (xs : Bytes) → Skips x xs
unfolding skip_mode
skip_mode-Skips x xs = elim (Bool-cases (x == b' ')) [
  | inl s ↦ inl (rw s refl, inl (==→eq x b' ' s))
  | inr s ↦ elim (Bool-cases (x == b'\r')) [
    | inl r ↦ inl (rw (s, r) refl, inr (inl (==→eq x b'\r' r)))
    | inr r ↦ elim (Bool-cases (x == b'\t')) [
      | inl t ↦ inl (rw (s, r, t) refl, inr (inr (inl (==→eq x b'\t' t))))
      | inr t ↦ elim (Bool-cases (x == b'\n')) [
        | inl n ↦ inl (rw (s, r, t, n) refl, inr (inr (inr (==→eq x b'\n' n))))
        | inr n ↦ elim (Bool-cases (x == b'/' && peek xs == b'/')) [
          | inl c ↦
              let (here, there) = both_true (x == b'/') (peek xs == b'/') c in
              inr (inl (rw (s, r, t, n, c) refl, ==→eq x b'/' here, ==→eq (peek xs) b'/' there))
          | inr c ↦ inr (inr (rw (s, r, t, n, c) refl, (no_space x s r t n, no_comment x xs c)))
        ]
      ]
    ]
  ]
]
