-- ===== src/Parser/Compile.antt =====
-- fex_compile_named of src/fex.c: the grammar of the functions that are declared forward, and the
-- loop over the declarations of a source.
--
-- A call of one of these functions takes one fuel. The allocation of the compile scope is left out:
-- it makes the parser's state, which is gone when the function returns.
use fex.Common.{
  ℕ, zero, suc, ◌+◌, ◌*◌, Bool, false, ◌||◌, List, [], ◌∷◌, Bytes, Option, none, some,
  if◌then◌else◌, length, pos,
}
use fex.Lexer.{init_lexer, token}
use fex.Lexer.Keywords.{eof, lparen}
use fex.Parser.{Parser}
use fex.Parser.Expr.{Expr}
use fex.Parser.Steps.{Parse, Result, stuck, pure, ◌>>=◌, ◌>>◌, done, advance, matches}
use fex.Parser.Blocks.{Grammar, sequence}
use fex.Parser.Pratt.{parse_precedence_new}
use fex.Parser.Statements.{statement, declaration}

unfoldable pub grammar : (source : Bytes) → (fuel : ℕ) → Grammar
grammar source zero = record {
  parse_precedence_new = λ precedence. stuck;
  statement = stuck;
  declaration = stuck;
}
grammar source (suc fuel) =
    let g = grammar source fuel in
    record {
      parse_precedence_new = parse_precedence_new source fuel g;
      statement = statement fuel g;
      declaration = declaration source fuel g;
    }

abbrev pub parser_failed : Parse Bool
parser_failed p = some (done p.had_error p)

-- The loop over the declarations, which an error ends.
unfoldable pub program_loop : (fuel : ℕ) → Grammar → Parse (List Expr)
program_loop zero g = stuck
program_loop (suc fuel) g = do
  ended ← matches eof
  if ended then pure [] else (do
    node ← g.declaration
    failed ← parser_failed
    if failed then pure (node ∷ []) else (do rest ← program_loop fuel g; pure (node ∷ rest)))

abbrev pub any_failed : Parse Bool
any_failed p = some (done (p.had_error || p.lexer.had_error) p)

unfoldable pub program : (fuel : ℕ) → Grammar → Parse (Option Expr)
program fuel g = do
  advance
  head ← program_loop fuel g
  failed ← any_failed
  if failed then pure none else pure (some (sequence head))

-- The state of a new compile scope. Its two tokens are not set, and parser_advance sets them before
-- they are read.
abbrev pub compile_scope : (try_active : Bool) → Bytes → Parser
compile_scope try_active source = record {
  lexer = init_lexer source;
  current = token lparen 0 0 0 (pos 0);
  previous = token lparen 0 0 0 (pos 0);
  had_error = false;
  panic_mode = false;
  try_active = try_active;
}

abbrev pub compile_fuel : Bytes → ℕ
compile_fuel source = 3 * (length source + 1) + 3

-- The program, `some none` for NULL.
unfoldable pub fex_compile_named : (try_active : Bool) → Bytes → Option (Result (Option Expr))
fex_compile_named try_active source =
    program (compile_fuel source) (grammar source (compile_fuel source))
      (compile_scope try_active source)
