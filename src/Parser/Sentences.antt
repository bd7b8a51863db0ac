-- ===== src/Parser/Sentences.antt =====
-- The statements and declarations of src/fex.c, when the functions declared forward end.
use fex.Common.{
  ℕ, zero, suc, ◌+◌, ◌*◌, ◌<◌, ◌≤◌, ◌≡◌, refl, ◌||◌, Bool, true, false, Bytes, arith, if◌then◌else◌,
}
use fex.Lexer.Keywords.{
  lparen, rparen, lbrace, equal, semicolon, else_keyword, eof, fn, let_keyword, if_keyword, while,
  return, string, identifier, import, module_keyword, export,
}
use fex.Parser.{Parser, check}
use fex.Parser.Expr.{Expr, nil_object}
use fex.Parser.Steps.{Parse, pure, ◌>>=◌, ◌>>◌, matches}
use fex.Parser.Table.{prec_assignment}
use fex.Parser.Blocks.{Grammar, expression}
use fex.Parser.Statements.{
  expr_statement, return_statement, if_statement, while_statement, statement, synchronize_loop,
  synchronize, panics, module_declaration, import_declaration, var_declaration, fn_named,
  plain_statement, exported, declaration,
}
use fex.Parser.Ends.{
  live, left, size, Kept, Bounded, Ends, Ends-weaken, pure-Bounded, if-Bounded, bind-Ends,
  bind-Bounded, still, after-Kept,
}
use fex.Parser.Progress.{expect-Bounded, checks-Bounded, error-Bounded, advance-then}
use fex.Parser.Matches.{matches-then, match_any-Bounded}
use fex.Parser.Leaves.{
  symbol_from_token-Bounded, parse_string_literal-Bounded, parse_import_specifier-Bounded,
  fail-Bounded,
}
use fex.Parser.Ready.{
  Ready, precedence-Bounded, statement-Bounded, block-Bounded, fn_declaration-Bounded, no_eof-live,
  checks-then, read-then, previous-then, current-then, if-Ends,
}

synchronize_loop-Bounded : (fuel n : ℕ) → n < fuel → Bounded n (synchronize_loop fuel)
unfolding synchronize_loop
synchronize_loop-Bounded zero n enough = absurd (omega (arith, enough))
synchronize_loop-Bounded (suc fuel) n enough = record {
  at = λ p le. checks-then eof _ p (
      previous-then _ p (
        current-then _ p (
          if-Ends _ (pure tt) _ p (λ stop. (pure-Bounded tt).at p le)
            (λ go.
              let alive = no_eof-live p (first_false (check eof p) _ go) in
              advance-then _ p (λ p' kept last. Ends-weaken (omega (arith, le)) (
                (synchronize_loop-Bounded fuel (left p) (omega (arith, le, enough, alive))).at p'
                  kept.bound))))));
}
  where
    first_false : (a b : Bool) → a || b ≡ false → a ≡ false
    first_false true b e = cc
    first_false false b e = refl

synchronize-Bounded : (fuel n : ℕ) → n < fuel → Bounded n (synchronize fuel)
unfolding synchronize
synchronize-Bounded fuel n enough = record {
  at = λ p le.
      let e = (synchronize_loop-Bounded fuel n enough).at (record p { panic_mode = false }) le in
      record {
        result = e.result;
        found = e.found;
        outcome = after-Kept n e.result (calm p le) e.outcome;
      };
}
  where
    calm : (p : Parser) → size p ≤ n → Kept n p (record p { panic_mode = false })
    calm p le = record { bound = le; had_error = λ h. h; try_active = refl; settled = λ h. h }

panics-Bounded : {n : ℕ} → Bounded n panics
panics-Bounded = record { at = λ p le. still panics p.panic_mode p refl le }

after_statement-Bounded :
    (fuel n : ℕ)
    → n < fuel
    → (stmt : Expr)
    → Bounded n
        (panics >>= λ panicking. (if panicking then synchronize fuel else pure tt) >> pure stmt)
after_statement-Bounded fuel n enough stmt = bind-Bounded panics-Bounded (λ panicking.
    bind-Bounded (if-Bounded panicking (synchronize-Bounded fuel n enough) (pure-Bounded tt))
      (λ u. pure-Bounded stmt))

module _ (fuel : ℕ) (g : Grammar) (ready : Ready fuel g) where
  module _ (n : ℕ) (ok : 3 * n + 3 ≤ fuel) where
    expression-Bounded : Bounded n (expression g)
    expression-Bounded = precedence-Bounded fuel g ready prec_assignment n (omega (arith, ok))

    inner-Bounded : Bounded n g.statement
    inner-Bounded = statement-Bounded fuel g ready n (omega (arith, ok))

    return_statement-Bounded : Bounded n (return_statement g)
    unfolding return_statement
    return_statement-Bounded = bind-Bounded (checks-Bounded semicolon) (λ nothing.
        bind-Bounded (if-Bounded nothing (pure-Bounded nil_object) expression-Bounded)
          (λ value. bind-Bounded (expect-Bounded semicolon) (λ u. pure-Bounded _)))

    else_branch-Bounded : (b : Bool) → Bounded n (if b then g.statement else pure nil_object)
    else_branch-Bounded b = if-Bounded b inner-Bounded (pure-Bounded nil_object)

    if_statement-Bounded : Bounded n (if_statement g)
    unfolding if_statement
    if_statement-Bounded = bind-Bounded (expect-Bounded lparen) (λ u.
        bind-Bounded expression-Bounded (λ condition. bind-Bounded (expect-Bounded rparen) (λ u'.
          bind-Bounded inner-Bounded (λ then_branch.
            bind-Bounded (match_any-Bounded else_keyword) (λ has_else.
              bind-Bounded (else_branch-Bounded has_else) (λ else_branch. pure-Bounded _))))))

    while_statement-Bounded : Bounded n (while_statement g)
    unfolding while_statement
    while_statement-Bounded = bind-Bounded (expect-Bounded lparen) (λ u.
        bind-Bounded expression-Bounded (λ condition.
          bind-Bounded (expect-Bounded rparen)
            (λ u'. bind-Bounded inner-Bounded (λ body. pure-Bounded _))))

    module _ (source : Bytes) where
      module_declaration-Bounded : Bounded n (module_declaration source fuel g)
      unfolding module_declaration
      module_declaration-Bounded = bind-Bounded (expect-Bounded lparen) (λ u.
          bind-Bounded (expect-Bounded string) (λ u'.
            bind-Bounded (parse_string_literal-Bounded source true) (λ name.
              bind-Bounded (expect-Bounded rparen) (λ u''.
                bind-Bounded (expect-Bounded lbrace) (λ u3.
                  bind-Bounded (block-Bounded fuel g ready n ok) (λ body. pure-Bounded _))))))

      import_declaration-Bounded : Bounded n (import_declaration source fuel)
      unfolding import_declaration
      import_declaration-Bounded =
          bind-Bounded (parse_import_specifier-Bounded source fuel n (omega (arith, ok)))
            (λ name. bind-Bounded (expect-Bounded semicolon) (λ u. pure-Bounded _))

      var_declaration-Bounded : Bounded n (var_declaration source g)
      unfolding var_declaration
      var_declaration-Bounded = bind-Bounded (expect-Bounded identifier) (λ u.
          bind-Bounded (symbol_from_token-Bounded source) (λ name.
            bind-Bounded (match_any-Bounded equal) (λ assigned.
              bind-Bounded (if-Bounded assigned expression-Bounded (pure-Bounded nil_object))
                (λ value.
                  bind-Bounded (expect-Bounded semicolon)
                    (λ u'. if-Bounded _ (fail-Bounded nil_object) (pure-Bounded _))))))

      fn_named-Bounded : (is_export : Bool) → Bounded n (fn_named source fuel g is_export)
      unfolding fn_named
      fn_named-Bounded is_export = bind-Bounded (expect-Bounded identifier) (λ u.
          bind-Bounded (symbol_from_token-Bounded source) (λ name.
            bind-Bounded (fn_declaration-Bounded fuel g ready source n ok)
              (λ fn_expr. pure-Bounded _)))

      plain_statement-Bounded :
          (is_export : Bool) → Bounded n (plain_statement source fuel g is_export)
      unfolding plain_statement
      plain_statement-Bounded is_export =
          bind-Bounded (if-Bounded is_export error-Bounded (pure-Bounded tt))
            (λ u. bind-Bounded inner-Bounded (after_statement-Bounded fuel n (omega (arith, ok))))

  -- An expression statement passes the current token.
  expr_statement-Ends : (p : Parser) → 3 * size p + 1 ≤ fuel → Ends (left p) p (expr_statement g)
  unfolding expr_statement
  expr_statement-Ends p ok = bind-Ends _ _ (ready.precedence prec_assignment p ok) (λ e p' kept.
      (bind-Bounded (expect-Bounded semicolon) (λ u. pure-Bounded e)).at p' kept.bound)

  pub statement-Ends : (p : Parser) → 3 * size p + 1 ≤ fuel → Ends (left p) p (statement fuel g)
  unfolding statement
  statement-Ends p ok =
      matches-then return _ p refl
        (λ alive p' small. (return_statement-Bounded (left p) (room alive)).at p' small)
        (matches-then if_keyword _ p refl
          (λ alive p' small. (if_statement-Bounded (left p) (room alive)).at p' small)
          (matches-then while _ p refl
            (λ alive p' small. (while_statement-Bounded (left p) (room alive)).at p' small)
            (matches-then lbrace _ p refl
              (λ alive p' small. (block-Bounded fuel g ready (left p) (room alive)).at p' small)
              (expr_statement-Ends p ok))))
    where
      room : live p ≡ 1 → 3 * left p + 3 ≤ fuel
      room alive = omega (arith, ok, alive)

  module _ (source : Bytes) where
    -- What follows the keyword `export`, or its absence.
    exportable : (is_export : Bool) → Parse Expr
    exportable is_export = matches let_keyword >>= λ is_let.
        if is_let
        then var_declaration source g >>= (λ decl. pure (exported is_export decl))
        else matches fn >>= λ is_fn.
            if is_fn
            then fn_named source fuel g is_export
            else plain_statement source fuel g is_export

    let-Bounded :
        (n : ℕ)
        → 3 * n + 3 ≤ fuel
        → (is_export : Bool)
        → Bounded n (var_declaration source g >>= (λ decl. pure (exported is_export decl)))
    let-Bounded n ok is_export =
        bind-Bounded (var_declaration-Bounded n ok source)
          (λ decl. pure-Bounded (exported is_export decl))

    exportable-Bounded : (n : ℕ) → 3 * n + 3 ≤ fuel → Bounded n (exportable true)
    unfolding exportable
    exportable-Bounded n ok = bind-Bounded (match_any-Bounded let_keyword) (λ is_let.
        if-Bounded is_let (let-Bounded n ok true) (
          bind-Bounded (match_any-Bounded fn) (λ is_fn.
            if-Bounded is_fn (fn_named-Bounded n ok source true)
              (plain_statement-Bounded n ok source true))))

    plain_statement-Ends :
        (p : Parser) → 3 * size p + 2 ≤ fuel → Ends (left p) p (plain_statement source fuel g false)
    unfolding plain_statement pure
    plain_statement-Ends p ok = read-then (pure tt) tt _ p refl (
        bind-Ends g.statement _ (ready.statement p ok) (λ stmt p' kept.
          (after_statement-Bounded fuel (left p) (omega (arith, ok)) stmt).at p' kept.bound))

    pub declaration-Ends :
        (p : Parser) → 3 * size p + 2 ≤ fuel → Ends (left p) p (declaration source fuel g)
    unfolding declaration exportable
    declaration-Ends p ok =
        matches-then module_keyword _ p refl
          (λ alive p' small. (module_declaration-Bounded (left p) (room alive) source).at p' small)
          (matches-then import _ p refl
            (λ alive p' small.
              (import_declaration-Bounded (left p) (room alive) source).at p' small)
            (matches-then export _ p refl
              (λ alive p' small. (exportable-Bounded (left p) (room alive)).at p' small)
              (matches-then let_keyword _ p refl
                (λ alive p' small. (let-Bounded (left p) (room alive) false).at p' small)
                (matches-then fn _ p refl
                  (λ alive p' small.
                    (fn_named-Bounded (left p) (room alive) source false).at p' small)
                  (plain_statement-Ends p ok)))))
      where
        room : live p ≡ 1 → 3 * left p + 3 ≤ fuel
        room alive = omega (arith, ok, alive)
