-- ===== src/Parser/Ready.antt =====
-- Lists, blocks and functions of src/fex.c, when the functions declared forward end.
use fex.Common.{
  ℕ, zero, suc, ◌+◌, ◌*◌, ◌<◌, ◌≤◌, ◌≡◌, refl, ◌∙◌, ◌||◌, Bool, true, false, some, [], ◌∷◌, Bytes,
  codes, if◌then◌else◌, arith,
}
use fex.Lexer.{Token}
use fex.Lexer.Keywords.{TokenType, comma, eof, lparen, rparen, lbrace, rbrace, rbracket}
use fex.Parser.{Parser, type_of, check}
use fex.Parser.Expr.{symbol, pair, list_object}
use fex.Parser.Steps.{Parse, done, pure, ◌>>=◌, checks, previous, current}
use fex.Parser.Table.{prec_assignment}
use fex.Parser.Blocks.{
  Grammar, expressions, expressions_until, parse_list, declarations, sequence, block,
  fn_declaration,
}
use fex.Parser.Ends.{
  live, left, size, Bounded, Ends, Ends-weaken, pure-Bounded, if-Bounded, bind-Ends, bind-Bounded,
  bind_done,
}
use fex.Parser.Progress.{expect-Bounded, checks-Bounded, live_code}
use fex.Parser.Matches.{matches-Bounded}
use fex.Parser.Leaves.{parameters-Bounded}

-- The functions declared forward end with so much fuel, and pass the current token.
pub record Ready (fuel : ℕ) (g : Grammar) : Type 0 where
  pub precedence :
      (precedence : ℕ) (p : Parser)
      → 3 * size p + 1 ≤ fuel
      → Ends (left p) p (g.parse_precedence_new precedence)
  pub statement : (p : Parser) → 3 * size p + 2 ≤ fuel → Ends (left p) p g.statement
  pub declaration : (p : Parser) → 3 * size p + 3 ≤ fuel → Ends (left p) p g.declaration

module _ {ℓ} {B : Type ℓ} {n : ℕ} where
  -- A step that only reads the state, with more.
  pub read-then {κ} :
      {A : Type κ} (s : Parse A) (a : A) (f : A → Parse B) (p : Parser)
      → s p ≡ some (done a p)
      → Ends n p (f a)
      → Ends n p (s >>= f)
  read-then s a f p e later = record {
    result = later.result;
    found = bind_done s f p p a e ∙ later.found;
    outcome = later.outcome;
  }

  pub checks-then :
      (type : TokenType) (f : Bool → Parse B) (p : Parser)
      → Ends n p (f (check type p))
      → Ends n p (checks type >>= f)
  unfolding checks
  checks-then type f p e = read-then (checks type) (check type p) f p refl e

  pub previous-then :
      (f : Token → Parse B) (p : Parser) → Ends n p (f p.previous) → Ends n p (previous >>= f)
  unfolding previous
  previous-then f p e = read-then previous p.previous f p refl e

  pub current-then :
      (f : Token → Parse B) (p : Parser) → Ends n p (f p.current) → Ends n p (current >>= f)
  unfolding current
  current-then f p e = read-then current p.current f p refl e

  pub if-Ends :
      (b : Bool) (m m' : Parse B) (p : Parser)
      → (b ≡ true → Ends n p m)
      → (b ≡ false → Ends n p m')
      → Ends n p (if b then m else m')
  if-Ends true m m' p e e' = e refl
  if-Ends false m m' p e e' = e' refl

pub no_eof-live : (p : Parser) → check eof p ≡ false → live p ≡ 1
unfolding check
no_eof-live p e = live_code (type_of p.current) ∙ rw e refl

last_false : (a b : Bool) → a || b ≡ false → b ≡ false
last_false true b e = cc
last_false false b e = e

module _ (fuel : ℕ) (g : Grammar) (ready : Ready fuel g) where
  pub precedence-Bounded :
      (precedence n : ℕ) → 3 * n + 1 ≤ fuel → Bounded n (g.parse_precedence_new precedence)
  precedence-Bounded precedence n enough = record {
    at = λ p le.
        Ends-weaken (omega (arith, le)) (ready.precedence precedence p (omega (arith, le, enough)));
  }

  pub statement-Bounded : (n : ℕ) → 3 * n + 2 ≤ fuel → Bounded n g.statement
  statement-Bounded n enough = record {
    at = λ p le. Ends-weaken (omega (arith, le)) (ready.statement p (omega (arith, le, enough)));
  }

  expressions-Bounded :
      (loop_fuel n : ℕ) → n < loop_fuel → 3 * n + 1 ≤ fuel → Bounded n (expressions loop_fuel g)
  unfolding expressions
  expressions-Bounded zero n enough ok = absurd (omega (arith, enough))
  expressions-Bounded (suc loop_fuel) n enough ok =
      bind-Bounded (precedence-Bounded prec_assignment n ok) (λ e.
        matches-Bounded comma _ refl
          (λ m small.
            bind-Bounded
              (expressions-Bounded loop_fuel m (omega (arith, enough, small))
                (omega (arith, ok, small)))
              (λ rest. pure-Bounded (e ∷ rest)))
          (pure-Bounded (e ∷ [])))

  pub expressions_until-Bounded :
      (close : TokenType) (n : ℕ) → 3 * n + 1 ≤ fuel → Bounded n (expressions_until close fuel g)
  unfolding expressions_until
  expressions_until-Bounded close n ok = bind-Bounded (checks-Bounded close) (λ closed.
      bind-Bounded
        (if-Bounded closed (pure-Bounded []) (expressions-Bounded fuel n (omega (arith, ok)) ok))
        (λ es. bind-Bounded (expect-Bounded close) (λ u. pure-Bounded es)))

  pub parse_list-Bounded : (n : ℕ) → 3 * n + 1 ≤ fuel → Bounded n (parse_list fuel g)
  unfolding parse_list
  parse_list-Bounded n ok =
      bind-Bounded (expressions_until-Bounded rbracket n ok)
        (λ es. pure-Bounded (pair (symbol (codes "list")) (list_object es)))

  declarations-Bounded :
      (loop_fuel n : ℕ) → n < loop_fuel → 3 * n + 3 ≤ fuel → Bounded n (declarations loop_fuel g)
  unfolding declarations
  declarations-Bounded zero n enough ok = absurd (omega (arith, enough))
  declarations-Bounded (suc loop_fuel) n enough ok = record {
    at = λ p le. checks-then rbrace _ p (
        checks-then eof _ p (
          if-Ends (check rbrace p || check eof p) (pure []) _ p (λ end. (pure-Bounded []).at p le)
            (λ more.
              bind-Ends g.declaration _ (ready.declaration p (omega (arith, le, ok))) (λ s p' kept.
                let alive = no_eof-live p (last_false (check rbrace p) (check eof p) more) in
                Ends-weaken (omega (arith, le)) (
                  (bind-Bounded
                      (declarations-Bounded loop_fuel (left p) (omega (arith, le, enough, alive))
                        (omega (arith, le, ok)))
                      (λ rest. pure-Bounded (s ∷ rest))).at
                    p' kept.bound)))));
  }

  pub block-Bounded : (n : ℕ) → 3 * n + 3 ≤ fuel → Bounded n (block fuel g)
  unfolding block
  block-Bounded n ok =
      bind-Bounded (declarations-Bounded fuel n (omega (arith, ok)) ok)
        (λ stmts. bind-Bounded (expect-Bounded rbrace) (λ u. pure-Bounded (sequence stmts)))

  pub fn_declaration-Bounded :
      (source : Bytes) (n : ℕ) → 3 * n + 3 ≤ fuel → Bounded n (fn_declaration source fuel g)
  unfolding fn_declaration
  fn_declaration-Bounded source n ok = bind-Bounded (expect-Bounded lparen) (λ u.
      bind-Bounded (checks-Bounded rparen) (λ closed.
        bind-Bounded
          (if-Bounded closed (pure-Bounded [])
            (parameters-Bounded source fuel n (omega (arith, ok))))
          (λ params. bind-Bounded (expect-Bounded rparen) (λ u'.
            bind-Bounded (expect-Bounded lbrace)
              (λ u''. bind-Bounded (block-Bounded n ok) (λ body. pure-Bounded _))))))
