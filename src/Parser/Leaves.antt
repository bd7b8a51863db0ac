-- ===== src/Parser/Leaves.antt =====
-- The functions of src/fex.c that parse without the grammar end, and leave no more than there was.
use fex.Common.{
  ℕ, zero, suc, ◌<◌, refl, Bool, false, Bytes, codes, ◌++◌, leb, length, arith, [], ◌∷◌,
}
use fex.Lexer.Keywords.{dot, comma, identifier, string}
use fex.Parser.{type_of}
use fex.Parser.Expr.{nil_object, symbol, string_object, number_object}
use fex.Parser.Primary.{
  symbol_from_token, parse_number, parse_string_literal, parse_literal, import_segments,
  parse_import_specifier, number_value, unescape, contains_nul, previous_text, raw_text, literal_of,
}
use fex.Parser.Steps.{pure, ◌>>◌, error, token_text}
use fex.Parser.Blocks.{parameters}
use fex.Parser.Ends.{Bounded, pure-Bounded, if-Bounded, bind-Bounded}
use fex.Parser.Progress.{expect-Bounded, checks-Bounded, previous-Bounded, error-Bounded}
use fex.Parser.Matches.{matches-Bounded}

module _ {n : ℕ} where
  pub fail-Bounded {ℓ} : {A : Type ℓ} (a : A) → Bounded n (error >> pure a)
  fail-Bounded a = bind-Bounded error-Bounded (λ u. pure-Bounded a)

  pub previous_text-Bounded : (source : Bytes) → Bounded n (previous_text source)
  previous_text-Bounded source =
      bind-Bounded previous-Bounded (λ t. pure-Bounded (token_text source t))

  pub symbol_from_token-Bounded : (source : Bytes) → Bounded n (symbol_from_token source)
  unfolding symbol_from_token
  symbol_from_token-Bounded source = bind-Bounded (previous_text-Bounded source) (λ text.
      if-Bounded (leb 256 (length text)) (fail-Bounded nil_object) (pure-Bounded (symbol text)))

  pub parse_number-Bounded : (source : Bytes) → Bounded n (parse_number source)
  unfolding parse_number
  parse_number-Bounded source =
      bind-Bounded (previous_text-Bounded source)
        (λ text. pure-Bounded (number_object (number_value text)))

  pub parse_string_literal-Bounded :
      (source : Bytes) (as_symbol : Bool) → Bounded n (parse_string_literal source as_symbol)
  unfolding parse_string_literal
  parse_string_literal-Bounded source as_symbol =
      bind-Bounded (previous_text-Bounded source) (λ text.
        if-Bounded as_symbol
          (if-Bounded (contains_nul (raw_text text)) (fail-Bounded nil_object)
            (pure-Bounded (symbol (unescape (raw_text text)))))
          (pure-Bounded (string_object (unescape (raw_text text)))))

  pub parse_literal-Bounded : Bounded n parse_literal
  unfolding parse_literal
  parse_literal-Bounded = bind-Bounded previous-Bounded (λ t. pure-Bounded (literal_of (type_of t)))

import_segments-Bounded :
    (source : Bytes) (fuel n : ℕ)
    → n < fuel
    → (buffer : Bytes) → Bounded n (import_segments source fuel buffer)
unfolding import_segments
import_segments-Bounded source zero n enough buffer = absurd (omega (arith, enough))
import_segments-Bounded source (suc fuel) n enough buffer =
    matches-Bounded dot _ refl
      (λ m small. bind-Bounded (expect-Bounded identifier) (λ u.
        bind-Bounded (previous_text-Bounded source) (λ text.
          import_segments-Bounded source fuel m (omega (arith, enough, small))
            (buffer ++ codes "." ++ text))))
      (pure-Bounded buffer)

pub parse_import_specifier-Bounded :
    (source : Bytes) (fuel n : ℕ) → n < fuel → Bounded n (parse_import_specifier source fuel)
unfolding parse_import_specifier
parse_import_specifier-Bounded source fuel n enough =
    matches-Bounded string _ refl (λ m small. parse_string_literal-Bounded source false)
      (bind-Bounded (expect-Bounded identifier) (λ u.
        bind-Bounded (previous_text-Bounded source) (λ text.
          bind-Bounded (checks-Bounded dot) (λ dotted.
            if-Bounded dotted
              (bind-Bounded (import_segments-Bounded source fuel n enough text)
                (λ b. pure-Bounded (string_object b)))
              (pure-Bounded (string_object text))))))

pub parameters-Bounded :
    (source : Bytes) (fuel n : ℕ) → n < fuel → Bounded n (parameters source fuel)
unfolding parameters
parameters-Bounded source zero n enough = absurd (omega (arith, enough))
parameters-Bounded source (suc fuel) n enough = bind-Bounded (expect-Bounded identifier) (λ u.
    bind-Bounded (symbol_from_token-Bounded source) (λ name.
      matches-Bounded comma _ refl
        (λ m small.
          bind-Bounded (parameters-Bounded source fuel m (omega (arith, enough, small)))
            (λ rest. pure-Bounded (name ∷ rest)))
        (pure-Bounded (name ∷ []))))
