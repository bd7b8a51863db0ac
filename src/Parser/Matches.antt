-- ===== src/Parser/Matches.antt =====
-- How far parser_match of src/fex.c gets, and what it answers.
use fex.Common.{
  ℕ, suc, ◌≤◌, ◌≡◌, refl, sym, ◌∙◌, ap, ◌⊎◌, inl, inr, Bool, true, false, some, arith, Bool-cases,
}
use mathlib.Core.Path.{subst}
use fex.Lexer.Keywords.{TokenType}
use fex.Parser.{Parser, Step, advanced, raised, parser_advance, check, parser_match}
use fex.Parser.Advance.{Fits, parser_advance-Fits}
use fex.Parser.Steps.{done, raise, Parse, ◌>>=◌, of_answer, matches}
use fex.Parser.Ends.{
  live_type, live, left, size, Kept, Ends, Bounded, Ends-weaken, still, EndsWith, bind-EndsWith,
  bind_done, bind_raise, after-Kept,
}
use fex.Parser.Progress.{Advanced-Kept, check-live}

match_yes :
    (type : TokenType) (p : Parser) (fuel : ℕ) (p' : Parser)
    → check type p ≡ true
    → parser_advance fuel p ≡ some (advanced p')
    → parser_match fuel type p ≡ some (advanced p', true)
unfolding parser_match
match_yes type p fuel p' e found = rw e (rw found refl)

match_raise :
    (type : TokenType) (p : Parser) (fuel line : ℕ)
    → check type p ≡ true
    → parser_advance fuel p ≡ some (raised line)
    → parser_match fuel type p ≡ some (raised line, true)
unfolding parser_match
match_raise type p fuel line e found = rw e (rw found refl)

match_no :
    (type : TokenType) (p : Parser) (fuel : ℕ)
    → check type p ≡ false
    → parser_match fuel type p ≡ some (advanced p, false)
unfolding parser_match
match_no type p fuel e = rw e refl

-- parser_match, with more: behind a match less is left.
pub matches-cases {ℓ} :
    {B : Type ℓ} {n : ℕ} (type : TokenType) (f : Bool → Parse B) (p : Parser)
    → (check type p ≡ true → (p' : Parser) → Kept (left p) p p' → Ends n p' (f true))
    → (check type p ≡ false → Ends n p (f false))
    → Ends n p (matches type >>= f)
unfolding matches
matches-cases {n} type f p on_match on_none = elim (Bool-cases (check type p)) [
  | inl is_it ↦
      let (r, found, fits) = parser_advance-Fits (suc (left p)) p (omega arith) in
      from is_it r found fits
  | inr is_not ↦
      let later = on_none is_not in
      record {
        result = later.result;
        found =
            bind_done (matches type) f p p false
              (ap of_answer (match_no type p (suc (left p)) is_not))
            ∙ later.found;
        outcome = later.outcome;
      }
]
  where
    from :
        check type p ≡ true
        → (r : Step) → parser_advance (suc (left p)) p ≡ some r
        → Fits (record p { previous = p.current }) r
        → Ends n p (matches type >>= f)
    from is_it (advanced p') found fits =
        let kept = Advanced-Kept p p' fits in
        let later = on_match is_it p' kept in
        record {
          result = later.result;
          found =
              bind_done (matches type) f p p' true
                (ap of_answer (match_yes type p (suc (left p)) p' is_it found))
              ∙ later.found;
          outcome = after-Kept n later.result kept later.outcome;
        }
    from is_it (raised line) found h = record {
      result = raise line;
      found =
          bind_raise (matches type) f p line
            (ap of_answer (match_raise type p (suc (left p)) line is_it found));
      outcome = h;
    }

-- The same when the type is not the end of file.
pub matches-then {ℓ} :
    {B : Type ℓ} {n : ℕ} (type : TokenType) (f : Bool → Parse B) (p : Parser)
    → live_type type ≡ 1
    → (live p ≡ 1 → (p' : Parser) → size p' ≤ left p → Ends n p' (f true))
    → Ends n p (f false)
    → Ends n p (matches type >>= f)
matches-then type f p other on_match on_none =
    matches-cases type f p (λ is_it p' kept. on_match (check-live type p other is_it) p' kept.bound)
      (λ is_not. on_none)

-- The same where both continuations are bounded: behind a match by less than `n`.
pub matches-Bounded {ℓ} :
    {B : Type ℓ} {n : ℕ} (type : TokenType) (f : Bool → Parse B)
    → live_type type ≡ 1
    → ((m : ℕ) → suc m ≤ n → Bounded m (f true))
    → Bounded n (f false)
    → Bounded n (matches type >>= f)
matches-Bounded {n} type f other on_match on_none = record {
  at = λ p le.
      matches-then type f p other
        (λ alive p' small.
          Ends-weaken (omega (arith, le))
            ((on_match (left p) (omega (arith, le, alive))).at p' small))
        (on_none.at p le);
}

-- parser_match of any type, whatever follows.
pub match_any-Bounded : {n : ℕ} (type : TokenType) → Bounded n (matches type)
unfolding matches
match_any-Bounded {n} type = record {
  at = λ p le. elim (Bool-cases (check type p)) [
    | inl is_it ↦
        let (r, found, fits) = parser_advance-Fits (suc (left p)) p (omega arith) in
        from p le is_it r found fits
    | inr is_not ↦
        still (matches type) false p (ap of_answer (match_no type p (suc (left p)) is_not)) le
  ];
}
  where
    from :
        (p : Parser)
        → size p ≤ n
        → check type p ≡ true
        → (r : Step) → parser_advance (suc (left p)) p ≡ some r
        → Fits (record p { previous = p.current }) r
        → Ends n p (matches type)
    from p le is_it (advanced p') found fits = Ends-weaken (omega (arith, le)) (record {
      result = done true p';
      found = ap of_answer (match_yes type p (suc (left p)) p' is_it found);
      outcome = Advanced-Kept p p' fits;
    })
    from p le is_it (raised line) found h = record {
      result = raise line;
      found = ap of_answer (match_raise type p (suc (left p)) line is_it found);
      outcome = h;
    }

-- What parser_match answers, and where it leaves the parser.
abbrev pub Matched : TokenType → Parser → Bool → Parser → Type 0
Matched type p answer p' =
    ((answer ≡ true) × (check type p ≡ true) × Kept (left p) p p')
    ⊎ ((answer ≡ false) × (check type p ≡ false) × (p' ≡ p))

pub matches-EndsWith : (type : TokenType) (p : Parser) → EndsWith (Matched type p) p (matches type)
unfolding matches
matches-EndsWith type p = elim (Bool-cases (check type p)) [
  | inl is_it ↦
      let (r, found, fits) = parser_advance-Fits (suc (left p)) p (omega arith) in
      from is_it r found fits
  | inr is_not ↦ record {
    result = done false p;
    found = ap of_answer (match_no type p (suc (left p)) is_not);
    outcome = (refl, inr (refl, is_not, refl));
  }
]
  where
    from :
        check type p ≡ true
        → (r : Step) → parser_advance (suc (left p)) p ≡ some r
        → Fits (record p { previous = p.current }) r
        → EndsWith (Matched type p) p (matches type)
    from is_it (advanced p') found fits = record {
      result = done true p';
      found = ap of_answer (match_yes type p (suc (left p)) p' is_it found);
      outcome = ((Advanced-Kept p p' fits).try_active, inl (refl, is_it, Advanced-Kept p p' fits));
    }
    from is_it (raised line) found h = record {
      result = raise line;
      found = ap of_answer (match_raise type p (suc (left p)) line is_it found);
      outcome = h;
    }

pub matches-Post {ℓ} :
    {B : Type ℓ} (Q : B → Parser → Type 0) (type : TokenType) (f : Bool → Parse B) (p : Parser)
    → (check type p ≡ true → (p' : Parser) → Kept (left p) p p' → EndsWith Q p' (f true))
    → (check type p ≡ false → EndsWith Q p (f false))
    → EndsWith Q p (matches type >>= f)
matches-Post Q type f p on_match on_none =
    bind-EndsWith (Matched type p) Q (matches type) f p (matches-EndsWith type p) from
  where
    from :
        (answer : Bool) (p' : Parser)
        → p'.try_active ≡ p.try_active
        → Matched type p answer p'
        → EndsWith Q p' (f answer)
    from answer p' same (inl (e, is_it, kept)) =
        subst (λ b. EndsWith Q p' (f b)) (sym e) (on_match is_it p' kept)
    from answer p' same (inr (e, is_not, at)) =
        subst (λ b. EndsWith Q p' (f b)) (sym e)
          (subst (λ q. EndsWith Q q (f false)) (sym at) (on_none is_not))
