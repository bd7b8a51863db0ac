-- ===== src/Parser/Blocks.antt =====
-- Sequences in the grammar of src/fex.c: lists of expressions, blocks, and functions.
--
-- The functions that the source declares forward are the fields of a Grammar. Each loop runs on
-- fuel, and goes round once per token at least.
use fex.Common.{ℕ, zero, suc, ◌||◌, List, [], ◌∷◌, Bytes, codes, if◌then◌else◌, ltb, length}
use fex.Lexer.Keywords.{TokenType, comma, eof, lparen, rparen, lbrace, rbrace, rbracket, identifier}
use fex.Parser.Expr.{Expr, nil_object, symbol, pair, list_object}
use fex.Parser.Hoist.{rewrite_named_fn_declarations}
use fex.Parser.Primary.{symbol_from_token}
use fex.Parser.Steps.{Parse, stuck, pure, ◌>>=◌, ◌>>◌, checks, expect, matches}
use fex.Parser.Table.{prec_assignment}

pub record Grammar : Type 0 where
  pub parse_precedence_new : ℕ → Parse Expr
  pub statement : Parse Expr
  pub declaration : Parse Expr

abbrev pub expression : Grammar → Parse Expr
expression g = g.parse_precedence_new prec_assignment

-- `do ... while (parser_match(TOKEN_COMMA))` over expressions.
unfoldable pub expressions : (fuel : ℕ) → Grammar → Parse (List Expr)
expressions zero g = stuck
expressions (suc fuel) g = do
  e ← expression g
  more ← matches comma
  if more then (do rest ← expressions fuel g; pure (e ∷ rest)) else pure (e ∷ [])

-- The expressions up to the closing token, which may be none.
unfoldable pub expressions_until : TokenType → (fuel : ℕ) → Grammar → Parse (List Expr)
expressions_until close fuel g = do
  closed ← checks close
  es ← if closed then pure [] else expressions fuel g
  expect close
  pure es

unfoldable pub parse_list : (fuel : ℕ) → Grammar → Parse Expr
parse_list fuel g = do
  es ← expressions_until rbracket fuel g
  pure (pair (symbol (codes "list")) (list_object es))

-- The loop of block.
unfoldable pub declarations : (fuel : ℕ) → Grammar → Parse (List Expr)
declarations zero g = stuck
declarations (suc fuel) g = do
  closed ← checks rbrace
  ended ← checks eof
  if closed || ended
      then pure []
      else (do s ← g.declaration; rest ← declarations fuel g; pure (s ∷ rest))

abbrev pub head_of : List Expr → Expr
head_of [] = nil_object
head_of (s ∷ rest) = s

-- What stands for so many statements.
abbrev pub sequence_of : List Expr → ℕ → Expr
sequence_of stmts zero = nil_object
sequence_of stmts (suc zero) = head_of stmts
sequence_of stmts (suc (suc n)) = pair (symbol (codes "do")) (list_object stmts)

unfoldable pub sequence : List Expr → Expr
sequence stmts =
    let count = length stmts in
    let (head, n) =
      if ltb 0 count then rewrite_named_fn_declarations stmts count else (stmts, count) in
    sequence_of head n

unfoldable pub block : (fuel : ℕ) → Grammar → Parse Expr
block fuel g = do stmts ← declarations fuel g; expect rbrace; pure (sequence stmts)

module _ (source : Bytes) where
  -- The loop over the parameters.
  unfoldable pub parameters : (fuel : ℕ) → Parse (List Expr)
  parameters zero = stuck
  parameters (suc fuel) = do
    expect identifier
    name ← symbol_from_token source
    more ← matches comma
    if more then (do rest ← parameters fuel; pure (name ∷ rest)) else pure (name ∷ [])

  unfoldable pub fn_declaration : (fuel : ℕ) → Grammar → Parse Expr
  fn_declaration fuel g = do
    expect lparen
    closed ← checks rparen
    params ← if closed then pure [] else parameters fuel
    expect rparen
    expect lbrace
    body ← block fuel g
    pure (list_object (symbol (codes "fn") ∷ list_object params ∷ body ∷ []))
