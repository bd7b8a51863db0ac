-- ===== src/Parser/Ends.antt =====
-- When a step of the parser ends, and how much of the source it then leaves.
use fex.Common.{
  ℕ, ◌+◌, ◌≤◌, ◌≡◌, refl, sym, ◌∙◌, Bool, true, false, if◌then◌else◌, some, length, arith,
}
use fex.Lexer.Keywords.{TokenType, eof}
use fex.Parser.{Parser, type_of}
use fex.Parser.Steps.{Result, done, raise, Parse, pure, ◌>>=◌}

-- Whether the token is one that parser_advance can pass.
abbrev pub live_type : TokenType → ℕ
live_type eof = 0
live_type other = 1

abbrev pub live : Parser → ℕ
live p = live_type (type_of p.current)

-- The bytes behind the current token, and those with one for the token.
abbrev pub left : Parser → ℕ
left p = length p.lexer.rest

abbrev pub size : Parser → ℕ
size p = left p + live p

-- At the end of file no text is left.
abbrev pub Settled : Parser → Type 0
Settled p = live p ≡ 0 → left p ≡ 0

-- From `p` to `p'`, where at most `n` is left. Errors are not forgotten, and a try stays one.
pub record Kept (n : ℕ) (p p' : Parser) : Type 0 where
  pub bound : size p' ≤ n
  pub had_error : p.had_error ≡ true → p'.had_error ≡ true
  pub try_active : p'.try_active ≡ p.try_active
  pub settled : Settled p → Settled p'

module _ {ℓ} {A : Type ℓ} where
  abbrev pub Outcome : ℕ → Parser → Result A → Type 0
  Outcome n p (done a p') = Kept n p p'
  Outcome n p (raise line) = p.try_active ≡ true

  -- From `p` the step has a result, which leaves at most `n`, or raises in a try.
  pub record Ends (n : ℕ) (p : Parser) (m : Parse A) : Type ℓ where
    pub result : Result A
    pub found : m p ≡ some result
    pub outcome : Outcome n p result

  -- A step that never leaves more than `n` when it is given no more.
  pub record Bounded (n : ℕ) (m : Parse A) : Type ℓ where
    pub at : (p : Parser) → size p ≤ n → Ends n p m

  pub Ends-weaken : {m n : ℕ} {p : Parser} {s : Parse A} → m ≤ n → Ends m p s → Ends n p s
  Ends-weaken {m} {n} {p} le e = record {
    result = e.result;
    found = e.found;
    outcome = from e.result e.outcome;
  }
    where
      from : (r : Result A) → Outcome m p r → Outcome n p r
      from (done a p') kept = record {
        bound = omega (arith, le, kept.bound);
        had_error = kept.had_error;
        try_active = kept.try_active;
        settled = kept.settled;
      }
      from (raise line) h = h

  -- A step that only reads the state.
  pub still :
      {n : ℕ} (s : Parse A) (a : A) (p : Parser) → s p ≡ some (done a p) → size p ≤ n → Ends n p s
  still s a p e le = record {
    result = done a p;
    found = e;
    outcome = record { bound = le; had_error = λ h. h; try_active = refl; settled = λ h. h };
  }

  pub pure-Bounded : {n : ℕ} (a : A) → Bounded n (pure a)
  unfolding pure
  pure-Bounded a = record { at = λ p le. still (pure a) a p refl le }

  pub if-Bounded :
      {n : ℕ} (b : Bool) {m m' : Parse A}
      → Bounded n m
      → Bounded n m'
      → Bounded n (if b then m else m')
  if-Bounded true h h' = h
  if-Bounded false h h' = h'

pub after-Kept {ℓ} :
    {B : Type ℓ} {m : ℕ} (n : ℕ) {p p' : Parser} (r : Result B)
    → Kept m p p'
    → Outcome n p' r
    → Outcome n p r
after-Kept n (done b q) kept later = record {
  bound = later.bound;
  had_error = λ h. later.had_error (kept.had_error h);
  try_active = later.try_active ∙ kept.try_active;
  settled = λ h. later.settled (kept.settled h);
}
after-Kept n (raise line) kept h = sym kept.try_active ∙ h

module _ {ℓ κ} {A : Type ℓ} {B : Type κ} where
  pub bind_done :
      (s : Parse A) (f : A → Parse B) (p p' : Parser) (a : A)
      → s p ≡ some (done a p')
      → (s >>= f) p ≡ f a p'
  unfolding ◌>>=◌
  bind_done s f p p' a e = rw (e, ◌>>=◌) refl

  pub bind_raise :
      (s : Parse A) (f : A → Parse B) (p : Parser) (line : ℕ)
      → s p ≡ some (raise line)
      → (s >>= f) p ≡ some (raise line)
  unfolding ◌>>=◌
  bind_raise s f p line e = rw (e, ◌>>=◌) refl

  pub bind-Ends :
      {m n : ℕ} (s : Parse A) (f : A → Parse B) {p : Parser}
      → Ends m p s
      → ((a : A) (p' : Parser) → Kept m p p' → Ends n p' (f a))
      → Ends n p (s >>= f)
  bind-Ends {m} {n} s f {p} e next = from e.result e.found e.outcome
    where
      from : (r : Result A) → s p ≡ some r → Outcome m p r → Ends n p (s >>= f)
      from (done a p') found kept =
          let later = next a p' kept in
          record {
            result = later.result;
            found = bind_done s f p p' a found ∙ later.found;
            outcome = after-Kept n later.result kept later.outcome;
          }
      from (raise line) found h = record {
        result = raise line;
        found = bind_raise s f p line found;
        outcome = h;
      }

  pub bind-Bounded :
      {n : ℕ} {s : Parse A} {f : A → Parse B}
      → Bounded n s
      → ((a : A) → Bounded n (f a))
      → Bounded n (s >>= f)
  bind-Bounded {s} {f} h next = record {
    at = λ p le. bind-Ends s f (h.at p le) (λ a p' kept. (next a).at p' kept.bound);
  }

-- The same with any property of the value and the state.
module _ {ℓ} {A : Type ℓ} where
  abbrev pub Post : (A → Parser → Type 0) → Parser → Result A → Type 0
  Post Q p (done a p') = (p'.try_active ≡ p.try_active) × Q a p'
  Post Q p (raise line) = p.try_active ≡ true

  pub record EndsWith (Q : A → Parser → Type 0) (p : Parser) (m : Parse A) : Type ℓ where
    pub result : Result A
    pub found : m p ≡ some result
    pub outcome : Post Q p result

  pub EndsWith-of_Ends :
      {n : ℕ} {p : Parser} {s : Parse A} → Ends n p s → EndsWith (λ a p'. Kept n p p') p s
  EndsWith-of_Ends {n} {p} e = record {
    result = e.result;
    found = e.found;
    outcome = from e.result e.outcome;
  }
    where
      from : (r : Result A) → Outcome n p r → Post (λ a p'. Kept n p p') p r
      from (done a p') kept = (kept.try_active, kept)
      from (raise line) h = h

pub bind-EndsWith {ℓ κ} :
    {A : Type ℓ} {B : Type κ} (Q : A → Parser → Type 0) (R : B → Parser → Type 0)
    → (s : Parse A) (f : A → Parse B) (p : Parser) → EndsWith Q p s
    → ((a : A) (p' : Parser) → p'.try_active ≡ p.try_active → Q a p' → EndsWith R p' (f a))
    → EndsWith R p (s >>= f)
bind-EndsWith {A} {B} Q R s f p e next = from e.result e.found e.outcome
  where
    after : (p' : Parser) (r : Result B) → p'.try_active ≡ p.try_active → Post R p' r → Post R p r
    after p' (done b q) same (h, post) = (h ∙ same, post)
    after p' (raise line) same h = sym same ∙ h

    from : (r : Result A) → s p ≡ some r → Post Q p r → EndsWith R p (s >>= f)
    from (done a p') found (same, post) =
        let later = next a p' same post in
        record {
          result = later.result;
          found = bind_done s f p p' a found ∙ later.found;
          outcome = after p' later.result same later.outcome;
        }
    from (raise line) found h = record {
      result = raise line;
      found = bind_raise s f p line found;
      outcome = h;
    }
