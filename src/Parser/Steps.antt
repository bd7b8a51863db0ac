-- ===== src/Parser/Steps.antt =====
-- The parser functions of src/fex.c as steps on the parser's state, and the lexer's step in them.
--
-- A step gives a value and the next state, or raises an error at a line; `none` is a lack of fuel.
-- parser_advance gets one fuel more than bytes are left.
use fex.Common.{ℕ, suc, Bool, Bytes, Option, none, some, length, take, drop, []}
use fex.Lexer.{Token, token, error_token}
use fex.Lexer.Keywords.{TokenType}
use fex.Parser.{
  Parser, Step, advanced, raised, error_at, parser_advance, check, consume, parser_match,
}

pub data Result {ℓ} (A : Type ℓ) : Type ℓ where
  done : A → Parser → Result A
  raise : (line : ℕ) → Result A

abbrev pub Parse {ℓ} : Type ℓ → Type ℓ
Parse A = Parser → Option (Result A)

module _ {ℓ} {A : Type ℓ} where
  unfoldable pub pure : A → Parse A
  pure a p = some (done a p)

  -- The end of the fuel.
  unfoldable pub stuck : Parse A
  stuck p = none

  infixl 5 ◌>>=◌
  unfoldable pub ◌>>=◌ {κ} : {B : Type κ} → Parse A → (A → Parse B) → Parse B
  (m >>= k) p = elim (m p) [
    | none ↦ none
    | some r ↦ elim r [ done a p' ↦ k a p' | raise line ↦ some (raise line) ]
  ]

infixl 5 ◌>>◌
abbrev pub ◌>>◌ {ℓ} : {B : Type ℓ} → Parse (Unit {0}) → Parse B → Parse B
m >> k = m >>= λ _. k

abbrev pub of_step : Step → Result (Unit {0})
of_step (advanced p) = done tt p
of_step (raised line) = raise line

abbrev pub of_steps : Option Step → Option (Result (Unit {0}))
of_steps none = none
of_steps (some step) = some (of_step step)

-- error: at the last token.
unfoldable pub error : Parse (Unit {0})
unfolding error_at
error p = some (of_step (error_at p p.previous))

unfoldable pub error_at_current : Parse (Unit {0})
unfolding error_at
error_at_current p = some (of_step (error_at p p.current))

unfoldable pub advance : Parse (Unit {0})
unfolding parser_advance
advance p = of_steps (parser_advance (suc (length p.lexer.rest)) p)

-- check, as a step.
unfoldable pub checks : TokenType → Parse Bool
unfolding check
checks type p = some (done (check type p) p)

-- consume, and parser_match.
unfoldable pub expect : TokenType → Parse (Unit {0})
unfolding consume
expect type p = of_steps (consume (suc (length p.lexer.rest)) type p)

abbrev pub of_answer : Option (Step × Bool) → Option (Result Bool)
of_answer none = none
of_answer (some (advanced p, answer)) = some (done answer p)
of_answer (some (raised line, answer)) = some (raise line)

unfoldable pub matches : TokenType → Parse Bool
unfolding parser_match
matches type p = of_answer (parser_match (suc (length p.lexer.rest)) type p)

unfoldable pub previous : Parse Token
previous p = some (done p.previous p)

unfoldable pub current : Parse Token
current p = some (done p.current p)

-- The text of a token, in the source that its offset counts from.
abbrev pub token_text : Bytes → Token → Bytes
token_text source (token type start count line column) = take count (drop start source)
token_text source (error_token message line) = []
