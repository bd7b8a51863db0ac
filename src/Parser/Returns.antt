-- ===== src/Parser/Returns.antt =====
-- fex_compile_named of src/fex.c gives a result.
use fex.Common.{
  ℕ, zero, suc, ◌+◌, ◌*◌, ◌<◌, ◌≤◌, ◌≡◌, refl, sym, ◌∙◌, ◌||◌, ◌⊎◌, inl, inr, Bool, true, false,
  Option, none, some, List, [], ◌∷◌, Bytes, arith, length, if◌then◌else◌,
}
use mathlib.Core.Path.{subst}
use fex.Lexer.Keywords.{eof}
use fex.Parser.{Parser, check, type_of}
use fex.Parser.Expr.{Expr}
use fex.Parser.Steps.{Parse, Result, done, raise, pure, ◌>>=◌, advance}
use fex.Parser.Blocks.{Grammar, sequence}
use fex.Parser.Compile.{
  grammar, parser_failed, program_loop, any_failed, program, compile_scope, compile_fuel,
  fex_compile_named,
}
use fex.Parser.Ends.{live, left, size, Settled, EndsWith, Post, EndsWith-of_Ends, bind-EndsWith}
use fex.Parser.Progress.{advance-Ends, live_code}
use fex.Parser.Matches.{matches-Post}
use fex.Parser.Ready.{Ready, no_eof-live}
use fex.Parser.Operators.{parse_precedence_new-Ends}
use fex.Parser.Sentences.{statement-Ends, declaration-Ends}

pub grammar-Ready : (source : Bytes) (fuel : ℕ) → Ready fuel (grammar source fuel)
unfolding grammar
grammar-Ready source zero = record {
  precedence = λ precedence p ok. absurd (omega (arith, ok));
  statement = λ p ok. absurd (omega (arith, ok));
  declaration = λ p ok. absurd (omega (arith, ok));
}
grammar-Ready source (suc fuel) =
    let g = grammar source fuel in
    let ready = grammar-Ready source fuel in
    record {
      precedence = λ precedence p ok.
          parse_precedence_new-Ends source fuel g ready precedence p (omega (arith, ok));
      statement = λ p ok. statement-Ends fuel g ready p (omega (arith, ok));
      declaration = λ p ok. declaration-Ends fuel g ready source p (omega (arith, ok));
    }

-- Where the loop over the declarations stops: behind an error, or at the end of the source.
abbrev Stopped : List Expr → Parser → Type 0
Stopped head p = (p.had_error ≡ true) ⊎ (p.lexer.rest ≡ [])

stop : {A : Type 0} (Q : A → Parser → Type 0) (a : A) (p : Parser) → Q a p → EndsWith Q p (pure a)
unfolding pure
stop Q a p post = record { result = done a p; found = refl; outcome = (refl, post) }

length-nil : (xs : Bytes) → length xs ≡ 0 → xs ≡ []
length-nil [] e = refl
length-nil (x ∷ xs) e = absurd (omega (arith, e))

eof-live : (p : Parser) → check eof p ≡ true → live p ≡ 0
unfolding check
eof-live p e = live_code (type_of p.current) ∙ rw e refl

-- A test of the state, with more.
test-Stopped :
    {A : Type 0} (Q : A → Parser → Type 0) (s : Parse Bool) (b : Bool) (m m' : Parse A) (p : Parser)
    → s p ≡ some (done b p)
    → (b ≡ true → EndsWith Q p m)
    → (b ≡ false → EndsWith Q p m')
    → EndsWith Q p (s >>= λ failed. if failed then m else m')
test-Stopped Q s b m m' p e on_true on_false =
    bind-EndsWith (λ b' q. (b' ≡ b) × (q ≡ p)) Q s _ p
      (record { result = done b p; found = e; outcome = (refl, (refl, refl)) })
      (λ b' q same (e', at).
        subst (λ q. EndsWith Q q (if b' then m else m')) (sym at)
          (subst (λ c. EndsWith Q p (if c then m else m')) (sym e') (decide b on_true on_false)))
  where
    decide :
        (b : Bool)
        → (b ≡ true → EndsWith Q p m)
        → (b ≡ false → EndsWith Q p m')
        → EndsWith Q p (if b then m else m')
    decide true h h' = h refl
    decide false h h' = h' refl

module _ (fuel : ℕ) (g : Grammar) (ready : Ready fuel g) where
  program_loop-Stopped :
      (loop_fuel : ℕ) (p : Parser)
      → size p < loop_fuel
      → 3 * size p + 3 ≤ fuel
      → Settled p
      → EndsWith Stopped p (program_loop loop_fuel g)
  unfolding program_loop
  program_loop-Stopped zero p enough ok settled = absurd (omega (arith, enough))
  program_loop-Stopped (suc loop_fuel) p enough ok settled =
      matches-Post Stopped eof _ p
        (λ at_end p' kept.
          stop Stopped [] p' (inr (length-nil p'.lexer.rest (nothing_left p' at_end kept.bound))))
        (λ more.
          bind-EndsWith _ Stopped g.declaration _ p (EndsWith-of_Ends (ready.declaration p ok))
            (λ node p' same kept.
              let alive = no_eof-live p more in
              test-Stopped Stopped parser_failed p'.had_error _ _ p' refl
                (λ failed. stop Stopped (node ∷ []) p' (inl failed))
                (λ fine.
                  bind-EndsWith Stopped Stopped (program_loop loop_fuel g) _ p'
                    (program_loop-Stopped loop_fuel p' (omega (arith, enough, alive, kept.bound))
                      (omega (arith, ok, kept.bound)) (kept.settled settled))
                    (λ rest q same' post. stop Stopped (node ∷ rest) q post))))
    where
      nothing_left : (p' : Parser) → check eof p ≡ true → size p' ≤ left p → left p' ≡ 0
      nothing_left p' at_end small = omega (arith, small, settled (eof-live p at_end))

-- The value of a compile, and the state behind it: NULL stands for an error, and a program for a
-- source that was read to its end without one.
pub record Compiled (value : Option Expr) (p : Parser) : Type 0 where
  pub null : value ≡ none → p.had_error || p.lexer.had_error ≡ true
  pub program :
      (e : Expr)
      → value ≡ some e
      → (p.had_error ≡ false) × (p.lexer.had_error ≡ false) × (p.lexer.rest ≡ [])

none_of : (a b : Bool) → a || b ≡ false → (a ≡ false) × (b ≡ false)
none_of true b e = cc
none_of false b e = (refl, e)

read_to_end :
    (p : Parser) (head : List Expr) → p.had_error ≡ false → Stopped head p → p.lexer.rest ≡ []
read_to_end p head fine (inl failed) = cc
read_to_end p head fine (inr ended) = ended

program-Compiled :
    (source : Bytes) (fuel : ℕ) (p : Parser)
    → 3 * left p + 3 ≤ fuel
    → Settled p
    → EndsWith Compiled p (program fuel (grammar source fuel))
unfolding program
program-Compiled source fuel p ok settled =
    bind-EndsWith _ Compiled advance _ p (EndsWith-of_Ends (advance-Ends p)) (λ u p₁ same₁ kept.
      bind-EndsWith Stopped Compiled _ _ p₁
        (program_loop-Stopped fuel (grammar source fuel) (grammar-Ready source fuel) fuel p₁
          (omega (arith, ok, kept.bound)) (omega (arith, ok, kept.bound)) (kept.settled settled))
        (λ head p₂ same₂ stopped.
          test-Stopped Compiled any_failed (p₂.had_error || p₂.lexer.had_error) _ _ p₂ refl
            (λ failed. stop Compiled none p₂ (null_result p₂ failed))
            (λ fine.
              stop Compiled (some (sequence head)) p₂ (program_result p₂ head fine stopped))))
  where
    null_result : (p : Parser) → p.had_error || p.lexer.had_error ≡ true → Compiled none p
    null_result p failed = record { null = λ e. failed; program = λ e h. cc }

    program_result :
        (p : Parser) (head : List Expr)
        → p.had_error || p.lexer.had_error ≡ false
        → Stopped head p
        → Compiled (some (sequence head)) p
    program_result p head fine stopped =
        let (parser_fine, lexer_fine) = none_of p.had_error p.lexer.had_error fine in
        record {
          null = λ e. cc;
          program = λ e h. (parser_fine, lexer_fine, read_to_end p head parser_fine stopped);
        }

-- How fex_compile_named returns.
abbrev pub Returned : (try_active : Bool) → Result (Option Expr) → Type 0
Returned try_active (done value p) = (p.try_active ≡ try_active) × Compiled value p
Returned try_active (raise line) = try_active ≡ true

-- fex_compile_named gives a result on every source, with fuel for three calls per byte and six
-- more. It raises an error only inside a try. Otherwise NULL is the result only if the parser or
-- the lexer has reported an error, and a program is the result only if neither has and the source
-- was read to its end.
pub fex_compile_named-returns :
    (try_active : Bool) (source : Bytes)
    → (r : Result (Option Expr)) × (fex_compile_named try_active source ≡ some r)
      × Returned try_active r
unfolding fex_compile_named
fex_compile_named-returns try_active source =
    let p = compile_scope try_active source in
    let e =
      program-Compiled source (compile_fuel source) p (omega arith)
        (λ h. absurd (omega (arith, h))) in
    (e.result, e.found, from e.result e.outcome)
  where
    from :
        (r : Result (Option Expr))
        → Post Compiled (compile_scope try_active source) r
        → Returned try_active r
    from (done value p) h = h
    from (raise line) h = h
