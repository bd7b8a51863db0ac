-- ===== src/Parser/Declarations.antt =====
-- The declarations of named functions in src/fex.c, and what a list of statements becomes when its
-- functions are hoisted.
use fex.Common.{
  Bytes, Bool, ◌≡◌, refl, sym, ◌∙◌, ap, true, false, List, [], ◌∷◌, codes, none, some,
  if◌then◌else◌, bytes_eq, bytes_eq_sound,
}
use fex.Parser.Expr.{
  Expr, symbol, pair, list_object, named_fn, nil_object, NamedFn, extract_named_fn_decl,
}

-- What a declaration is: its tag, its name, its function and others behind it.
abbrev pub tag_of : (is_export : Bool) → Bytes
tag_of true = codes "[fex-export-fn-decl]"
tag_of false = codes "[fex-fn-decl]"

abbrev pub Declares : Expr → (name : Bytes) → (fn_expr : Expr) → (is_export : Bool) → Type 0
Declares s name fn_expr is_export =
    (others : Expr) × (s
      ≡ pair (symbol (tag_of is_export)) (pair (symbol name) (pair fn_expr others)))

abbrev pub IsDeclaration : Expr → Type 0
IsDeclaration s =
    (name : Bytes) × (fn_expr : Expr) × (is_export : Bool) × Declares s name fn_expr is_export

-- `(let name nil)`.
abbrev pub let_nil : (name : Bytes) → Expr
let_nil name = list_object (symbol (codes "let") ∷ symbol name ∷ nil_object ∷ [])

-- `(do (= name fn) name)`, and `(do (= name fn) (export name) name)` for an export.
abbrev pub assigned : (name : Bytes) → (fn_expr : Expr) → (is_export : Bool) → Expr
assigned name fn_expr false = list_object (
    symbol (codes "do")
    ∷ list_object (symbol (codes "=") ∷ symbol name ∷ fn_expr ∷ [])
    ∷ symbol name
    ∷ [])
assigned name fn_expr true = list_object (
    symbol (codes "do")
    ∷ list_object (symbol (codes "=") ∷ symbol name ∷ fn_expr ∷ [])
    ∷ list_object (symbol (codes "export") ∷ symbol name ∷ [])
    ∷ symbol name
    ∷ [])

-- Statements, a let for each declared name in order, and the statements with an assignment in the
-- place of each declaration.
pub data Hoists : (stmts lets others : List Expr) → Type 0 where
  no_statements : Hoists [] [] []
  declaration :
      {s fn_expr : Expr} {name : Bytes} {stmts lets others : List Expr} (is_export : Bool)
      → Declares s name fn_expr is_export
      → Hoists stmts lets others
      → Hoists (s ∷ stmts) (let_nil name ∷ lets) (assigned name fn_expr is_export ∷ others)
  other_statement :
      {s : Expr} {stmts lets others : List Expr}
      → ¬ IsDeclaration s
      → Hoists stmts lets others
      → Hoists (s ∷ stmts) lets (s ∷ others)

extract-form :
    (name : Bytes) (fn_expr others : Expr) (is_export : Bool)
    → extract_named_fn_decl
        (pair (symbol (tag_of is_export)) (pair (symbol name) (pair fn_expr others)))
      ≡ some (record { name = name; fn_expr = fn_expr; is_export = is_export })
unfolding extract_named_fn_decl
extract-form name fn_expr others true = refl
extract-form name fn_expr others false = refl

pub extract-IsDeclaration : (s : Expr) → extract_named_fn_decl s ≡ none → ¬ IsDeclaration s
extract-IsDeclaration s e (name, fn_expr, is_export, (others, at)) =
    let found =
      sym (extract-form name fn_expr others is_export) ∙ ap extract_named_fn_decl (sym at) ∙ e in
    cc

named_fn-Declares :
    (b : Bool) (args : Expr) (f : NamedFn)
    → named_fn b args ≡ some f
    → (others : Expr) × (args ≡ pair (symbol f.name) (pair f.fn_expr others)) × (f.is_export ≡ b)
unfolding named_fn
named_fn-Declares b (pair (symbol n) (pair g rest)) f e =
    let same : record { name = n; fn_expr = g; is_export = b } ≡ f = cc in
    (
      rest,
      ap (λ (h : NamedFn). pair (symbol h.name) (pair h.fn_expr rest)) same,
      sym (ap (λ (h : NamedFn). h.is_export) same),
    )
named_fn-Declares b (pair (symbol n) other) f e = cc
named_fn-Declares b (pair other args) f e = cc
named_fn-Declares b other f e = cc

tagged :
    (b : Bool) (tag : Bytes) (args : Expr) (f : NamedFn)
    → tag ≡ tag_of b
    → named_fn b args ≡ some f
    → Declares (pair (symbol tag) args) f.name f.fn_expr f.is_export
tagged b tag args f is_tag e =
    let (others, at, export) = named_fn-Declares b args f e in
    (
      others,
      ap (λ t. pair (symbol t) args) (is_tag ∙ ap tag_of (sym export))
          ∙ ap (λ a. pair (symbol (tag_of f.is_export)) a) at,
    )

pub extract-Declares :
    (s : Expr) (f : NamedFn)
    → extract_named_fn_decl s ≡ some f
    → Declares s f.name f.fn_expr f.is_export
unfolding extract_named_fn_decl
extract-Declares (pair (symbol tag) args) f e =
    by_tag (bytes_eq tag (tag_of false)) (bytes_eq tag (tag_of true))
      (bytes_eq_sound tag (tag_of false)) (bytes_eq_sound tag (tag_of true)) e
  where
    by_tag :
        (plain export : Bool)
        → (plain ≡ true → tag ≡ tag_of false)
        → (export ≡ true → tag ≡ tag_of true)
        → (if plain then named_fn false args else if export then named_fn true args else none)
          ≡ some f
        → Declares (pair (symbol tag) args) f.name f.fn_expr f.is_export
    by_tag true export p q h = tagged false tag args f (p refl) h
    by_tag false true p q h = tagged true tag args f (q refl) h
    by_tag false false p q h = cc
extract-Declares (pair other args) f e = cc
extract-Declares other f e = cc
