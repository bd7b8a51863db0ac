-- ===== src/Lexer/Reading.antt =====
-- How far the helpers of scan_token move the lexer.
use fex.Common.{
  ℕ, ◌+◌, ◌*◌, ◌≡◌, refl, sym, ◌∙◌, ◌⊎◌, inl, inr, Bool, true, false, none, some, [], ◌∷◌, ◌++◌,
  append_assoc, Bytes, if◌then◌else◌, ◌==◌, length, length-append, arith, Bool-cases, All, not,
  ◌&&◌, ◌≢◌, ==→eq, ap,
}
use fex.Lexer.{
  Lexer, advance, advance_while, skip_mode, skip_advance, skip_loop, skip_whitespace, string_loop,
}
use mathlib.Core.Path.{subst}
use fex.Lexer.Blanks.{
  AtToken, differs, Blank, nothing, space, InComment, InComment-Blank, skip_mode-Skips,
}
use fex.Lexer.Keywords.{peek}

-- The lexer went from `l` over `text` to `l'`.
pub record Read (l : Lexer) (text : Bytes) (l' : Lexer) : Type 0 where
  pub rest : l.rest ≡ text ++ l'.rest
  pub position : l'.position ≡ l.position + length text

abbrev pub Moves : Lexer → Lexer → Type 0
Moves l l' = (text : Bytes) × Read l text l'

pub Read-refl : (l : Lexer) → Read l [] l
Read-refl l = record { rest = refl; position = omega arith }

pub Read-trans :
    {l₁ l₂ l₃ : Lexer} {s t : Bytes} → Read l₁ s l₂ → Read l₂ t l₃ → Read l₁ (s ++ t) l₃
Read-trans {l₃} {s} {t} r r' = record {
  rest = rw (r.rest, r'.rest) (sym (append_assoc s t l₃.rest));
  position = omega (arith, r.position, r'.position, length-append s t);
}

pub Moves-of_Read : {l l' : Lexer} {text : Bytes} → Read l text l' → Moves l l'
Moves-of_Read {text} r = (text, r)

pub Moves-trans : {l₁ l₂ l₃ : Lexer} → Moves l₁ l₂ → Moves l₂ l₃ → Moves l₁ l₃
Moves-trans (s, r) (t, r') = (s ++ t, Read-trans r r')

pub advance-rest : (l : Lexer) (x : ℕ) (xs : Bytes) → l.rest ≡ x ∷ xs → (advance l).rest ≡ xs
unfolding advance
advance-rest l x xs e = ground arith

pub advance-Read : (l : Lexer) (x : ℕ) (xs : Bytes) → l.rest ≡ x ∷ xs → Read l (x ∷ []) (advance l)
unfolding advance
advance-Read l x xs e = ground arith

-- The loops of the lexer over a class of bytes pass a piece of the text that consists of such
-- bytes, and stop at the end of the source or at a byte that is none.
pub advance_while-Read :
    (test : ℕ → Bool) (xs : Bytes) (l : Lexer)
    → l.rest ≡ xs
    → (text : Bytes) × Read l text (advance_while test xs l)
      × All (λ c. test c ≡ true) text
      × (((advance_while test xs l).rest ≡ [])
          ⊎ (test (peek (advance_while test xs l).rest) ≡ false))
unfolding advance_while
advance_while-Read test [] l e = ([], Read-refl l, tt, inl e)
advance_while-Read test (x ∷ xs) l e = elim (Bool-cases (test x)) [
  | inl yes_x ↦
      let (text, r, all, stop) = advance_while-Read test xs (advance l) (advance-rest l x xs e) in
      (x ∷ text, rw yes_x (Read-trans (advance-Read l x xs e) r), (yes_x, all), rw yes_x stop)
  | inr no_x ↦ ([], rw no_x (Read-refl l), tt, rw no_x (inr (rw e no_x)))
]

abbrev pub newlines : Bytes → ℕ
newlines [] = 0
newlines (x ∷ xs) = (if x == b'\n' then 1 else 0) + newlines xs

newlines-append : (xs ys : Bytes) → newlines (xs ++ ys) ≡ newlines xs + newlines ys
newlines-append [] ys = omega arith
newlines-append (x ∷ xs) ys = omega (arith, newlines-append xs ys)

skip_advance-rest :
    (l : Lexer) (x : ℕ) (xs : Bytes) → l.rest ≡ x ∷ xs → (skip_advance x l).rest ≡ xs
unfolding skip_advance
skip_advance-rest l x xs e = ground arith

skip_advance-Read :
    (l : Lexer) (x : ℕ) (xs : Bytes) → l.rest ≡ x ∷ xs → Read l (x ∷ []) (skip_advance x l)
unfolding skip_advance
skip_advance-Read l x xs e = ground arith

skip_advance-line :
    (l : Lexer) (x : ℕ) (xs : Bytes)
    → l.rest ≡ x ∷ xs
    → (skip_advance x l).line ≡ l.line + 2 * newlines (x ∷ [])
unfolding skip_advance
skip_advance-line l x xs e = ground arith

skip_loop_stop :
    (mode : Bool) (x : ℕ) (xs : Bytes) (l : Lexer)
    → skip_mode mode x xs ≡ none
    → skip_loop mode (x ∷ xs) l ≡ l
unfolding skip_loop
skip_loop_stop mode x xs l stop = rw (stop, skip_loop)

skip_loop_go :
    (mode next : Bool) (x : ℕ) (xs : Bytes) (l : Lexer)
    → skip_mode mode x xs ≡ some next
    → skip_loop mode (x ∷ xs) l ≡ skip_loop next xs (skip_advance x l)
unfolding skip_loop
skip_loop_go mode next x xs l go = rw (go, skip_loop)

skip_loop_nil : (mode : Bool) (l : Lexer) → skip_loop mode [] l ≡ l
unfolding skip_loop
skip_loop_nil mode l = refl

-- What the loop has passed, outside of a comment or in one.
abbrev Passed : (in_comment : Bool) → (text rest : Bytes) → Type 0
Passed false text rest = Blank text rest
Passed true text rest = InComment text rest

abbrev Skipped : (in_comment : Bool) → Lexer → Lexer → Type 0
Skipped mode l l' =
    (text : Bytes) × Read l text l'
    × (l'.line ≡ l.line + 2 * newlines text)
    × Passed mode text l'.rest
    × AtToken l'.rest

-- A round of the loop.
skip_round :
    (mode next : Bool) (x : ℕ) (xs : Bytes) (l : Lexer)
    → l.rest ≡ x ∷ xs
    → skip_mode mode x xs ≡ some next
    → ((text rest : Bytes)
        → text ++ rest ≡ xs
        → Passed next text rest
        → Passed mode (x ∷ text) rest)
    → Skipped next (skip_advance x l) (skip_loop next xs (skip_advance x l))
    → Skipped mode l (skip_loop mode (x ∷ xs) l)
skip_round mode next x xs l e go passes (text, r, lines, passed, at) =
    rw (skip_loop_go mode next x xs l go) (
      x ∷ text,
      Read-trans (skip_advance-Read l x xs e) r,
      omega (arith, lines, skip_advance-line l x xs e),
      passes text (skip_loop next xs (skip_advance x l)).rest
          (sym r.rest ∙ skip_advance-rest l x xs e) passed,
      at,
    )

-- A byte in a comment.
comment_mode :
    (x : ℕ) (xs : Bytes)
    → ((skip_mode true x xs ≡ some false) × (x ≡ b'\n'))
      ⊎ ((skip_mode true x xs ≡ some true) × (x ≢ b'\n'))
unfolding skip_mode
comment_mode x xs = elim (Bool-cases (x == b'\n')) [
  | inl n ↦ inl (rw n refl, ==→eq x b'\n' n)
  | inr n ↦ inr (rw n refl, differs x b'\n' n)
]

end_of_comment :
    (x : ℕ) (text rest : Bytes) → x ≡ b'\n' → Blank text rest → InComment (x ∷ text) rest
end_of_comment x text rest n blank = record {
  body = [];
  tail = x ∷ text;
  splits = refl;
  one_line = tt;
  ends = n;
  blank = space x (inr (inr (inr n))) blank;
}

more_comment :
    (x : ℕ) (text rest : Bytes) → x ≢ b'\n' → InComment text rest → InComment (x ∷ text) rest
more_comment x text rest n c = record {
  body = x ∷ c.body;
  tail = c.tail;
  splits = ap (λ t. x ∷ t) c.splits;
  one_line = (n, c.one_line);
  ends = c.ends;
  blank = c.blank;
}

skip_loop-Skipped :
    (mode : Bool) (xs : Bytes) (l : Lexer) → l.rest ≡ xs → Skipped mode l (skip_loop mode xs l)
skip_loop-Skipped false [] l e =
    rw (skip_loop_nil false l) ([], Read-refl l, omega arith, nothing, rw e tt)
skip_loop-Skipped true [] l e = rw (skip_loop_nil true l) (
  [],
  Read-refl l,
  omega arith,
  record { body = []; tail = []; splits = refl; one_line = tt; ends = rw e tt; blank = nothing },
  rw e tt,
)
skip_loop-Skipped true (x ∷ xs) l e =
    let e' = skip_advance-rest l x xs e in
    elim (comment_mode x xs) [
      | inl (go, n) ↦
          skip_round true false x xs l e go (λ text r at. end_of_comment x text r n)
            (skip_loop-Skipped false xs (skip_advance x l) e')
      | inr (go, n) ↦
          skip_round true true x xs l e go (λ text r at. more_comment x text r n)
            (skip_loop-Skipped true xs (skip_advance x l) e')
    ]
skip_loop-Skipped false (x ∷ xs) l e =
    let e' = skip_advance-rest l x xs e in
    elim (skip_mode-Skips x xs) [
      | inl (go, is_space) ↦
          skip_round false false x xs l e go (λ text r at. space x is_space)
            (skip_loop-Skipped false xs (skip_advance x l) e')
      | inr (inl (go, here, there)) ↦
          skip_round false true x xs l e go
            (λ text r at c.
              subst (λ y. Blank (y ∷ text) r) (sym here)
                (InComment-Blank text r c (ap peek at ∙ there)))
            (skip_loop-Skipped true xs (skip_advance x l) e')
      | inr (inr (stop, at)) ↦
          rw (skip_loop_stop false x xs l stop) ([], Read-refl l, omega arith, nothing, rw e at)
    ]

-- skip_whitespace passes a text of white space and comments, each up to the end of its line, stops
-- at the end of the source or where no white space and no comment is next, and raises the line by
-- two for each newline that it passes.
pub skip_whitespace-Read :
    (l : Lexer)
    → (text : Bytes) × Read l text (skip_whitespace l)
      × ((skip_whitespace l).line ≡ l.line + 2 * newlines text)
      × Blank text (skip_whitespace l).rest
      × AtToken (skip_whitespace l).rest
unfolding skip_whitespace
skip_whitespace-Read l = skip_loop-Skipped false l.rest l refl

-- A text that a string literal consists of, behind the opening quote: it ends with the first quote
-- that no backslash stands before, where a backslash takes the next byte with it.
abbrev pub string_tail : Bytes → Bool
string_tail [] = false
string_tail (c ∷ []) = c == b'"'
string_tail (c ∷ d ∷ rest) =
    if c == b'\\' then string_tail rest else not (c == b'"') && string_tail (d ∷ rest)

pub escape_tail :
    (c d : ℕ) (t : Bytes) → (c == b'\\') ≡ true → string_tail (c ∷ d ∷ t) ≡ string_tail t
escape_tail c d t e = rw e

pub plain_tail :
    (c : ℕ) (t : Bytes)
    → (c == b'\\') ≡ false
    → (c == b'"') ≡ false
    → string_tail (c ∷ t) ≡ string_tail t
plain_tail c [] plain other = other
plain_tail c (d ∷ t) plain other = rw (plain, other)

string_loop_escape :
    (c d : ℕ) (rest : Bytes) (l : Lexer)
    → (c == b'\\') ≡ true
    → string_loop (c ∷ d ∷ rest) l ≡ string_loop rest (advance (advance l))
unfolding string_loop
string_loop_escape c d rest l e = rw (e, string_loop)

string_loop_quote :
    (c d : ℕ) (rest : Bytes) (l : Lexer)
    → (c == b'\\') ≡ false
    → (c == b'"') ≡ true
    → string_loop (c ∷ d ∷ rest) l ≡ (advance l, true)
unfolding string_loop
string_loop_quote c d rest l e e' = rw (e, string_loop) (rw e')

string_loop_other :
    (c d : ℕ) (rest : Bytes) (l : Lexer)
    → (c == b'\\') ≡ false
    → (c == b'"') ≡ false
    → string_loop (c ∷ d ∷ rest) l ≡ string_loop (d ∷ rest) (advance l)
unfolding string_loop
string_loop_other c d rest l e e' = rw (e, string_loop) (rw e')

-- The loop of lex_string passes a piece of the text, and reports a closing quote exactly if the
-- piece ends with the first quote that no backslash escapes; otherwise no text is left.
pub string_loop-Read :
    (xs : Bytes) (l : Lexer)
    → l.rest ≡ xs
    → (text : Bytes) × Read l text (string_loop xs l).0
      × ((string_loop xs l).1 ≡ string_tail text)
      × ((string_loop xs l).1 ≡ false → (string_loop xs l).0.rest ≡ [])
unfolding string_loop
string_loop-Read [] l e = ([], Read-refl l, refl, λ h. e)
string_loop-Read (c ∷ []) l e = (c ∷ [], advance-Read l c [] e, refl, λ h. advance-rest l c [] e)
string_loop-Read (c ∷ d ∷ rest) l e = elim (Bool-cases (c == b'\\')) [
  | inl escape ↦
      let e' = advance-rest l c (d ∷ rest) e in
      let (text, r, closed, ends) =
        string_loop-Read rest (advance (advance l)) (advance-rest (advance l) d rest e') in
      rw (string_loop_escape c d rest l escape) (
        c ∷ d ∷ text,
        Read-trans (advance-Read l c (d ∷ rest) e)
            (Read-trans (advance-Read (advance l) d rest e') r),
        closed ∙ sym (escape_tail c d text escape),
        ends,
      )
  | inr plain ↦ elim (Bool-cases (c == b'"')) [
    | inl quote ↦
        rw (string_loop_quote c d rest l plain quote)
          (c ∷ [], advance-Read l c (d ∷ rest) e, sym quote, λ h. cc)
    | inr other ↦
        let (text, r, closed, ends) =
          string_loop-Read (d ∷ rest) (advance l) (advance-rest l c (d ∷ rest) e) in
        rw (string_loop_other c d rest l plain other) (
          c ∷ text,
          Read-trans (advance-Read l c (d ∷ rest) e) r,
          closed ∙ sym (plain_tail c text plain other),
          ends,
        )
  ]
]
