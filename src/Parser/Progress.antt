-- ===== src/Parser/Progress.antt =====
-- How far parser_advance, consume and parser_match of src/fex.c get.
use fex.Common.{
  ℕ, suc, ◌≤◌, ◌≡◌, refl, sym, ◌∙◌, ap, inl, inr, true, false, if◌then◌else◌, ◌==◌, some, length,
  length-append, arith, Bool-cases, ==→eq,
}
use fex.Lexer.{Token, token, error_token}
use fex.Lexer.Keywords.{TokenType}
use fex.Lexer.Parts.{IsEof, is_eof}
use fex.Parser.{
  Parser, Step, advanced, raised, error_at, parser_advance, type_of, type_code, check, consume,
  token_line,
}
use fex.Parser.Advance.{Advanced, Fits, parser_advance-Fits, error_at-cases}
use fex.Parser.Steps.{
  done, raise, Parse, ◌>>◌, of_step, of_steps, error, advance, checks, expect, previous,
}
use fex.Parser.Ends.{
  live_type, live, left, size, Settled, Kept, Outcome, Ends, Bounded, Ends-weaken, still, bind_done,
  bind_raise, after-Kept,
}

live-at_end : (t : Token) → IsEof t → live_type (type_of t) ≡ 0
live-at_end (token type start count line column) end = from type end
  where
    from : (type : TokenType) → is_eof type ≡ true → live_type type ≡ 0
    from type = ground arith
live-at_end (error_token message line) end = absurd end

end_of : (t : Token) → live_type (type_of t) ≡ 0 → IsEof t
end_of (token type start count line column) e = from type e
  where
    from : (type : TokenType) → live_type type ≡ 0 → is_eof type ≡ true
    from type = ground arith
end_of (error_token message line) e = absurd (omega (arith, e))

pub live-le_one : (type : TokenType) → live_type type ≤ 1
live-le_one type = ground arith

-- What parser_advance leaves, by what it passed.
Advanced-size : (p p' : Parser) → Advanced p p' → size p' ≤ left p
Advanced-size p p' a = elim a.ended [
  | inl (end, empty) ↦ omega (arith, live-at_end p'.current end, ap length empty)
  | inr (more, long) ↦ omega (
    arith,
    live-le_one (type_of p'.current),
    long,
    ap length a.splits,
    length-append a.passed p'.lexer.rest,
  )
]

pub Advanced-Kept :
    (p p' : Parser) → Advanced (record p { previous = p.current }) p' → Kept (left p) p p'
Advanced-Kept p p' a = record {
  bound = Advanced-size (record p { previous = p.current }) p' a;
  had_error = a.had_error;
  try_active = a.try_active;
  settled = λ h. settled;
}
  where
    settled : Settled p'
    settled at_end = elim a.ended [
      | inl (end, empty) ↦ ap length empty
      | inr (more, long) ↦ absurd (more (end_of p'.current at_end))
    ]

advance-found :
    (p : Parser) (r : Step)
    → parser_advance (suc (left p)) p ≡ some r
    → advance p ≡ some (of_step r)
unfolding advance
advance-found p r e = ap of_steps e

-- parser_advance, with more: the last token becomes the previous one.
pub advance-then {ℓ} :
    {B : Type ℓ} {n : ℕ} (k : Parse B) (p : Parser)
    → ((p' : Parser) → Kept (left p) p p' → p'.previous ≡ p.current → Ends n p' k)
    → Ends n p (advance >> k)
advance-then {n} k p next =
    let (r, found, fits) = parser_advance-Fits (suc (left p)) p (omega arith) in
    from r (advance-found p r found) fits
  where
    from :
        (r : Step)
        → advance p ≡ some (of_step r)
        → Fits (record p { previous = p.current }) r
        → Ends n p (advance >> k)
    from (advanced p') found fits =
        let later = next p' (Advanced-Kept p p' fits) fits.previous in
        record {
          result = later.result;
          found = bind_done advance (λ u. k) p p' tt found ∙ later.found;
          outcome = after-Kept n later.result (Advanced-Kept p p' fits) later.outcome;
        }
    from (raised line) found h = record {
      result = raise line;
      found = bind_raise advance (λ u. k) p line found;
      outcome = h;
    }

-- The outcome of a step of parser_advance as it stands.
step-Outcome :
    (p : Parser) (r : Step)
    → Fits (record p { previous = p.current }) r
    → Outcome (left p) p (of_step r)
step-Outcome p (advanced p') fits = Advanced-Kept p p' fits
step-Outcome p (raised line) h = h

error_outcome :
    (p : Parser) (t : Token) (s : Parse (Unit {0}))
    → s p ≡ some (of_step (error_at p t))
    → Ends (size p) p s
error_outcome p t s eq = elim (error_at-cases p t) [
  | inl (try, e) ↦ record {
    result = raise (token_line t);
    found = eq ∙ ap (λ r. some (of_step r)) e;
    outcome = try;
  }
  | inr (p', e, reported) ↦ record {
    result = done tt p';
    found = eq ∙ ap (λ r. some (of_step r)) e;
    outcome = record {
      bound = omega (
        arith,
        ap (λ l. length l.rest) reported.lexer,
        ap (λ t. live_type (type_of t)) reported.current,
      );
      had_error = reported.had_error;
      try_active = sym reported.try_active;
      settled = λ h at_end.
          ap (λ l. length l.rest) reported.lexer
          ∙ h (sym (ap (λ t. live_type (type_of t)) reported.current) ∙ at_end);
    };
  }
]

pub error-Bounded : {n : ℕ} → Bounded n error
unfolding error
error-Bounded = record { at = λ p le. Ends-weaken le (error_outcome p p.previous error refl) }

consume_yes :
    (type : TokenType) (p : Parser) (fuel : ℕ)
    → check type p ≡ true
    → consume fuel type p ≡ parser_advance fuel p
unfolding consume
consume_yes type p fuel e = rw e refl

consume_no :
    (type : TokenType) (p : Parser) (fuel : ℕ)
    → check type p ≡ false
    → consume fuel type p ≡ some (error_at p p.current)
unfolding consume
consume_no type p fuel e = rw e refl

advance_ends :
    (p : Parser) (s : Parse (Unit {0}))
    → s p ≡ of_steps (parser_advance (suc (left p)) p)
    → Ends (left p) p s
advance_ends p s e =
    let (r, found, fits) = parser_advance-Fits (suc (left p)) p (omega arith) in
    record { result = of_step r; found = e ∙ ap of_steps found; outcome = step-Outcome p r fits }

pub advance-Ends : (p : Parser) → Ends (left p) p advance
unfolding advance
advance-Ends p = advance_ends p advance refl

expect-Ends : {n : ℕ} (type : TokenType) (p : Parser) → size p ≤ n → Ends n p (expect type)
unfolding expect
expect-Ends {n} type p le = elim (Bool-cases (check type p)) [
  | inl is_it ↦
      Ends-weaken (omega (arith, le))
        (advance_ends p (expect type) (ap of_steps (consume_yes type p (suc (left p)) is_it)))
  | inr is_not ↦ Ends-weaken le (
      error_outcome p p.current (expect type)
        (ap of_steps (consume_no type p (suc (left p)) is_not)))
]

pub expect-Bounded : {n : ℕ} (type : TokenType) → Bounded n (expect type)
expect-Bounded type = record { at = λ p le. expect-Ends type p le }

pub checks-Bounded : {n : ℕ} (type : TokenType) → Bounded n (checks type)
unfolding checks
checks-Bounded type = record { at = λ p le. still (checks type) (check type p) p refl le }

pub previous-Bounded : {n : ℕ} → Bounded n previous
unfolding previous
previous-Bounded = record { at = λ p le. still previous p.previous p refl le }

abbrev pub code_live : ℕ → ℕ
code_live code = if code == 40 then 0 else 1

pub live_code : (t : TokenType) → live_type t ≡ code_live (type_code t)
live_code t = ground arith

-- The current token has the type that is looked for, which is not the end of file: it is live.
pub check-live :
    (type : TokenType) (p : Parser) → live_type type ≡ 1 → check type p ≡ true → live p ≡ 1
unfolding check
check-live type p other is_it =
    live_code (type_of p.current) ∙ ap code_live (==→eq _ _ is_it) ∙ sym (live_code type) ∙ other
