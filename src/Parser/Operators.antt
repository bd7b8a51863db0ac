-- ===== src/Parser/Operators.antt =====
-- parse_precedence_new of src/fex.c, when the functions declared forward end.
use fex.Common.{
  ℕ, zero, suc, ◌+◌, ◌*◌, ◌<◌, ◌≤◌, ◌≡◌, refl, sym, ◌∙◌, ap, ◌&&◌, Bool, true, false, Option, none,
  some, Bytes, codes, arith,
}
use fex.Lexer.Keywords.{TokenType, rparen, identifier}
use fex.Parser.{Parser, type_of}
use fex.Parser.Expr.{Expr, nil_object, pair, list_object, make_binary}
use fex.Parser.Steps.{Parse, pure}
use fex.Parser.Table
use fex.Parser.Table.{
  Prefix, prefix_rule, is_infix, precedence_of, infix_of, Infix, assignment, call, member, cons,
  operator, unhandled, prec_assignment, prec_unary,
}
use fex.Parser.Blocks.{Grammar}
use fex.Parser.Pratt.{
  parse_grouping, parse_unary, unary_of, parse_prefix, parse_infix, infix_loop, from_prefix,
  parse_precedence_new, accept, continue, assignment_of, binary_of,
}
use fex.Parser.Ends.{
  live_type, live, left, size, Bounded, Ends, Ends-weaken, pure-Bounded, bind-Bounded,
}
use fex.Parser.Progress.{expect-Bounded, previous-Bounded, advance-then}
use fex.Parser.Leaves.{
  symbol_from_token-Bounded, parse_number-Bounded, parse_string_literal-Bounded,
  parse_literal-Bounded, fail-Bounded,
}
use fex.Parser.Ready.{
  Ready, precedence-Bounded, expressions_until-Bounded, parse_list-Bounded, fn_declaration-Bounded,
  previous-then, current-then, if-Ends,
}

accept-Bounded : {n : ℕ} (o : Option Expr) → Bounded n (accept o)
accept-Bounded none = fail-Bounded none
accept-Bounded (some e) = pure-Bounded (some e)

-- The end of file has no rule, and is no operator.
prefix_rule-live : (t : TokenType) (rule : Prefix) → prefix_rule t ≡ some rule → live_type t ≡ 1
prefix_rule-live t rule e = ground arith

is_infix-live : (t : TokenType) → is_infix t ≡ true → live_type t ≡ 1
is_infix-live t e = ground arith

first_true : (a b : Bool) → a && b ≡ true → a ≡ true
first_true true b e = refl
first_true false b e = cc

module _ (source : Bytes) (fuel : ℕ) (g : Grammar) (ready : Ready fuel g) where
  module _ (n : ℕ) (ok : 3 * n + 3 ≤ fuel) where
    parse_prefix-Bounded : (rule : Prefix) → Bounded n (parse_prefix source fuel g rule)
    unfolding parse_prefix parse_grouping parse_unary
    parse_prefix-Bounded Table.parse_grouping =
        bind-Bounded (precedence-Bounded fuel g ready prec_assignment n (omega (arith, ok)))
          (λ e. bind-Bounded (expect-Bounded rparen) (λ u. pure-Bounded e))
    parse_prefix-Bounded Table.parse_unary = bind-Bounded previous-Bounded (λ t.
        bind-Bounded (precedence-Bounded fuel g ready prec_unary n (omega (arith, ok)))
          (λ right. pure-Bounded (unary_of (type_of t) right)))
    parse_prefix-Bounded Table.parse_list = parse_list-Bounded fuel g ready n (omega (arith, ok))
    parse_prefix-Bounded Table.parse_number = parse_number-Bounded source
    parse_prefix-Bounded Table.parse_string = parse_string_literal-Bounded source false
    parse_prefix-Bounded Table.parse_literal = parse_literal-Bounded
    parse_prefix-Bounded Table.parse_variable = symbol_from_token-Bounded source
    parse_prefix-Bounded Table.fn_expression = fn_declaration-Bounded fuel g ready source n ok

    parse_infix-Bounded :
        (type : TokenType) (left : Expr) (kind : Infix)
        → Bounded n (parse_infix source fuel g type left kind)
    unfolding parse_infix
    parse_infix-Bounded type left assignment =
        bind-Bounded (precedence-Bounded fuel g ready prec_assignment n (omega (arith, ok)))
          (λ right. accept-Bounded (assignment_of left right))
    parse_infix-Bounded type left call =
        bind-Bounded (expressions_until-Bounded fuel g ready rparen n (omega (arith, ok)))
          (λ args. pure-Bounded (some (pair left (list_object args))))
    parse_infix-Bounded type left member = bind-Bounded (expect-Bounded identifier) (λ u.
        bind-Bounded (symbol_from_token-Bounded source)
          (λ property. pure-Bounded (some (make_binary (codes "get") left property))))
    parse_infix-Bounded type left cons =
        bind-Bounded (precedence-Bounded fuel g ready (precedence_of type) n (omega (arith, ok)))
          (λ right. pure-Bounded (some (make_binary (codes "cons") left right)))
    parse_infix-Bounded type left (operator name) =
        bind-Bounded
          (precedence-Bounded fuel g ready (precedence_of type + 1) n (omega (arith, ok)))
          (λ right. pure-Bounded (some (binary_of type name left right)))
    parse_infix-Bounded type left unhandled = fail-Bounded none

  continue-Bounded :
      {n : ℕ} (round : Expr → Parse Expr)
      → ((e : Expr) → Bounded n (round e))
      → (next : Option Expr) → Bounded n (continue round next)
  continue-Bounded round h none = pure-Bounded nil_object
  continue-Bounded round h (some e) = h e

  infix_loop-Bounded :
      (loop_fuel n : ℕ)
      → n < loop_fuel
      → 3 * n + 3 ≤ fuel
      → (precedence : ℕ) (e : Expr) → Bounded n (infix_loop source loop_fuel fuel g precedence e)
  unfolding infix_loop
  infix_loop-Bounded zero n enough ok precedence e = absurd (omega (arith, enough))
  infix_loop-Bounded (suc loop_fuel) n enough ok precedence e = record {
    at = λ p le. current-then _ p (
        if-Ends _ _ (pure e) p
          (λ operates.
            let alive = is_infix-live (type_of p.current) (first_true _ _ operates) in
            advance-then _ p (λ p' kept last. Ends-weaken (omega (arith, le)) (
              (bind-Bounded previous-Bounded (λ op.
                  bind-Bounded
                    (parse_infix-Bounded (left p) (omega (arith, le, ok)) (type_of op) e
                      (infix_of (type_of op)))
                    (λ next.
                      continue-Bounded _
                        (infix_loop-Bounded loop_fuel (left p) (omega (arith, le, enough, alive))
                          (omega (arith, le, ok)) precedence)
                        next))).at
                p' kept.bound)))
          (λ other. (pure-Bounded e).at p le));
  }

  from_prefix-Bounded :
      (n : ℕ)
      → 3 * n + 3 ≤ fuel
      → (precedence : ℕ) (rule : Prefix)
      → Bounded n (from_prefix source fuel g precedence (some rule))
  from_prefix-Bounded n ok precedence rule =
      bind-Bounded (parse_prefix-Bounded n ok rule)
        (λ e. infix_loop-Bounded fuel n (omega (arith, ok)) ok precedence e)

  pub parse_precedence_new-Ends :
      (precedence : ℕ) (p : Parser)
      → 3 * size p ≤ fuel
      → Ends (left p) p (parse_precedence_new source fuel g precedence)
  unfolding parse_precedence_new
  parse_precedence_new-Ends precedence p ok = advance-then _ p (λ p' kept last. previous-then _ p' (
      from p' kept.bound (prefix_rule (type_of p'.previous)) (λ rule e.
        ap (λ t. live_type (type_of t)) (sym last)
        ∙ prefix_rule-live (type_of p'.previous) rule e)))
    where
      from :
          (p' : Parser)
          → size p' ≤ left p
          → (o : Option Prefix) → ((rule : Prefix) → o ≡ some rule → live p ≡ 1)
          → Ends (left p) p' (from_prefix source fuel g precedence o)
      from p' small none alive = (fail-Bounded nil_object).at p' small
      from p' small (some rule) alive =
          (from_prefix-Bounded (left p) (omega (arith, ok, alive rule refl)) precedence rule).at p'
            small
