-- ===== src/Closure/Examples.antt =====
-- The theorem of analyze at the body of a function.
use fex.Common.{◌≡◌, refl, [], ◌∷◌, codes}
use fex.Parser.Expr.{Expr, symbol, list_object}
use fex.Closure.{
  list_has, names_have, analyze_symbol, analyze_inner, form_of, bind_let, parameters, analyze,
}

-- `(do (let y x) (fn (z) (f y z)))`
abbrev body : Expr
body = list_object (
    symbol (codes "do")
    ∷ list_object (symbol (codes "let") ∷ symbol (codes "y") ∷ symbol (codes "x") ∷ [])
    ∷ list_object (
        symbol (codes "fn")
        ∷ list_object (symbol (codes "z") ∷ [])
        ∷ list_object (symbol (codes "f") ∷ symbol (codes "y") ∷ symbol (codes "z") ∷ [])
        ∷ [])
    ∷ [])

analyze-body : analyze body (symbol (codes "x") ∷ []) [] ≡ codes "f" ∷ []
unfolding analyze form_of bind_let analyze_symbol list_has names_have analyze_inner parameters
analyze-body = refl
