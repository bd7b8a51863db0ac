-- ===== src/Parser/Statements.antt =====
-- The statements and declarations of src/fex.c, and synchronize.
use fex.Common.{ℕ, zero, suc, Bool, true, false, ◌||◌, [], ◌∷◌, Bytes, codes, some, if◌then◌else◌}
use fex.Lexer.Keywords.{
  TokenType, lparen, rparen, lbrace, equal, semicolon, else_keyword, eof, fn, let_keyword,
  if_keyword, while, return, string, identifier, import, module_keyword, export,
}
use fex.Parser.{type_of}
use fex.Parser.Expr.{
  Expr, nil_object, symbol, list_object, make_unary, make_binary, make_named_fn_decl,
}
use fex.Parser.Primary.{symbol_from_token, parse_string_literal, parse_import_specifier}
use fex.Parser.Steps.{
  Parse, stuck, pure, ◌>>=◌, ◌>>◌, done, advance, current, previous, checks, expect, matches, error,
}
use fex.Parser.Blocks.{Grammar, expression, block, fn_declaration}

unfoldable pub expr_statement : Grammar → Parse Expr
expr_statement g = do e ← expression g; expect semicolon; pure e

unfoldable pub return_statement : Grammar → Parse Expr
return_statement g = do
  nothing ← checks semicolon
  value ← if nothing then pure nil_object else expression g
  expect semicolon
  pure (list_object (symbol (codes "return") ∷ value ∷ []))

unfoldable pub if_statement : Grammar → Parse Expr
if_statement g = do
  expect lparen
  condition ← expression g
  expect rparen
  then_branch ← g.statement
  has_else ← matches else_keyword
  else_branch ← if has_else then g.statement else pure nil_object
  pure (list_object (symbol (codes "if") ∷ condition ∷ then_branch ∷ else_branch ∷ []))

unfoldable pub while_statement : Grammar → Parse Expr
while_statement g = do
  expect lparen
  condition ← expression g
  expect rparen
  body ← g.statement
  pure (list_object (symbol (codes "while") ∷ condition ∷ body ∷ []))

unfoldable pub statement : (fuel : ℕ) → Grammar → Parse Expr
statement fuel g = do
  returns ← matches return
  if returns then return_statement g else (do
    branches ← matches if_keyword
    if branches then if_statement g else (do
      loops ← matches while
      if loops
          then while_statement g
          else (do opens ← matches lbrace; if opens then block fuel g else expr_statement g)))

-- The token types at which synchronize stops.
abbrev pub starts_statement : TokenType → Bool
starts_statement fn = true
starts_statement let_keyword = true
starts_statement if_keyword = true
starts_statement while = true
starts_statement return = true
starts_statement other = false

-- The loop of synchronize.
unfoldable pub synchronize_loop : (fuel : ℕ) → Parse (Unit {0})
synchronize_loop zero = stuck
synchronize_loop (suc fuel) = do
  ended ← checks eof
  last ← previous
  next ← current
  if ended || (is_semicolon (type_of last) || starts_statement (type_of next))
      then pure tt
      else (do advance; synchronize_loop fuel)
  where
    is_semicolon : TokenType → Bool
    is_semicolon semicolon = true
    is_semicolon other = false

unfoldable pub synchronize : (fuel : ℕ) → Parse (Unit {0})
synchronize fuel p = synchronize_loop fuel (record p { panic_mode = false })

abbrev pub panics : Parse Bool
panics p = some (done p.panic_mode p)

abbrev pub is_nil : Expr → Bool
is_nil nil_object = true
is_nil other = false

abbrev pub exported : (is_export : Bool) → Expr → Expr
exported is_export decl = if is_export then make_unary (codes "export") decl else decl

module _ (source : Bytes) where
  unfoldable pub module_declaration : (fuel : ℕ) → Grammar → Parse Expr
  module_declaration fuel g = do
    expect lparen
    expect string
    name ← parse_string_literal source true
    expect rparen
    expect lbrace
    body ← block fuel g
    pure (list_object (symbol (codes "module") ∷ name ∷ body ∷ []))

  unfoldable pub import_declaration : (fuel : ℕ) → Parse Expr
  import_declaration fuel = do
    name ← parse_import_specifier source fuel
    expect semicolon
    pure (list_object (symbol (codes "import") ∷ name ∷ []))

  unfoldable pub var_declaration : Grammar → Parse Expr
  var_declaration g = do
    expect identifier
    name ← symbol_from_token source
    assigned ← matches equal
    value ← if assigned then expression g else pure nil_object
    expect semicolon
    if is_nil name then (do error; pure nil_object) else pure (make_binary (codes "let") name value)

  -- `fn name(...) {...}`, behind the keyword.
  unfoldable pub fn_named : (fuel : ℕ) → Grammar → (is_export : Bool) → Parse Expr
  fn_named fuel g is_export = do
    expect identifier
    name ← symbol_from_token source
    fn_expr ← fn_declaration source fuel g
    pure (make_named_fn_decl name fn_expr is_export)

  -- A statement where a declaration may stand.
  unfoldable pub plain_statement : (fuel : ℕ) → Grammar → (is_export : Bool) → Parse Expr
  plain_statement fuel g is_export = do
    if is_export then error else pure tt
    stmt ← g.statement
    panicking ← panics
    if panicking then synchronize fuel else pure tt
    pure stmt

  unfoldable pub declaration : (fuel : ℕ) → Grammar → Parse Expr
  declaration fuel g = do
    is_module ← matches module_keyword
    if is_module then module_declaration fuel g else (do
      is_import ← matches import
      if is_import then import_declaration fuel else (do
        is_export ← matches export
        is_let ← matches let_keyword
        if is_let then (do decl ← var_declaration g; pure (exported is_export decl)) else (do
          is_fn ← matches fn
          if is_fn then fn_named fuel g is_export else plain_statement fuel g is_export)))
