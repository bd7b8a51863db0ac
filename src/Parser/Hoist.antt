-- ===== src/Parser/Hoist.antt =====
-- rewrite_named_fn_declarations of src/fex.c, over the list of the statements of a block.
use fex.Common.{
  ℕ, suc, ◌+◌, ◌≡◌, refl, sym, ◌∙◌, ap, true, false, List, [], ◌∷◌, ◌++◌, map, codes, none, some,
  if◌then◌else◌, ◌==◌, ==→eq, eq→==, length, length-append, arith, Option-cases, Bool-cases, All,
  inl, inr,
}
use mathlib.Core.Bool.{true≢false}
use fex.Parser.Expr.{
  Expr, symbol, nil_object, make_unary, make_binary, make_do_two, make_do_three, NamedFn,
  extract_named_fn_decl,
}
use fex.Parser.Declarations.{
  IsDeclaration, let_nil, assigned, Hoists, no_statements, declaration, other_statement,
  extract-IsDeclaration, extract-Declares,
}

-- The declarations that the first loop counts.
unfoldable pub named_count : List Expr → ℕ
named_count [] = 0
named_count (s ∷ rest) = elim (extract_named_fn_decl s) [
  | none ↦ named_count rest
  | some f ↦ named_count rest + 1
]

unfoldable pub placeholder : NamedFn → Expr
unfolding make_binary
placeholder f = make_binary (codes "let") (symbol f.name) nil_object

-- The loop that predeclares the functions.
unfoldable pub predeclare : List Expr → List Expr
unfolding placeholder
predeclare [] = []
predeclare (s ∷ rest) = elim (extract_named_fn_decl s) [
  | none ↦ predeclare rest
  | some f ↦ placeholder f ∷ predeclare rest
]

unfoldable pub assignment : NamedFn → Expr
unfolding make_unary make_binary make_do_two make_do_three
assignment f =
    let assign_expr = make_binary (codes "=") (symbol f.name) f.fn_expr in
    if f.is_export
    then make_do_three assign_expr (make_unary (codes "export") (symbol f.name)) (symbol f.name)
    else make_do_two assign_expr (symbol f.name)

unfoldable pub rewritten : Expr → Expr
unfolding assignment
rewritten s = elim (extract_named_fn_decl s) [ none ↦ s | some f ↦ assignment f ]

-- The statements and their number, which grows by the declarations predeclared.
unfoldable pub rewrite_named_fn_declarations : List Expr → ℕ → List Expr × ℕ
unfolding named_count predeclare rewritten
rewrite_named_fn_declarations stmts count =
    let hoisted = named_count stmts in
    if hoisted == 0
    then (stmts, count)
    else (predeclare stmts ++ map rewritten stmts, count + hoisted)

-- The named functions that a list of statements declares.
abbrev pub declared : List Expr → List NamedFn
declared [] = []
declared (s ∷ rest) = elim (extract_named_fn_decl s) [
  | none ↦ declared rest
  | some f ↦ f ∷ declared rest
]

module _ (s : Expr) (rest : List Expr) where
  count_none : extract_named_fn_decl s ≡ none → named_count (s ∷ rest) ≡ named_count rest
  unfolding named_count
  count_none e = rw (e, named_count)

  count_some :
      (f : NamedFn)
      → extract_named_fn_decl s ≡ some f
      → named_count (s ∷ rest) ≡ named_count rest + 1
  unfolding named_count
  count_some f e = rw (e, named_count)

  predeclare-none : extract_named_fn_decl s ≡ none → predeclare (s ∷ rest) ≡ predeclare rest
  unfolding predeclare
  predeclare-none e = rw (e, predeclare)

  predeclare-some :
      (f : NamedFn)
      → extract_named_fn_decl s ≡ some f
      → predeclare (s ∷ rest) ≡ placeholder f ∷ predeclare rest
  unfolding predeclare
  predeclare-some f e = rw (e, predeclare)

  declared-none : extract_named_fn_decl s ≡ none → declared (s ∷ rest) ≡ declared rest
  declared-none e = rw (e, declared) refl

  declared-some :
      (f : NamedFn) → extract_named_fn_decl s ≡ some f → declared (s ∷ rest) ≡ f ∷ declared rest
  declared-some f e = rw (e, declared) refl

rewritten-none : (s : Expr) → extract_named_fn_decl s ≡ none → rewritten s ≡ s
unfolding rewritten
rewritten-none s e = rw (e, rewritten) refl

rewritten-some :
    (s : Expr) (f : NamedFn) → extract_named_fn_decl s ≡ some f → rewritten s ≡ assignment f
unfolding rewritten
rewritten-some s f e = rw (e, rewritten) refl

predeclare-declared : (stmts : List Expr) → predeclare stmts ≡ map placeholder (declared stmts)
predeclare-declared [] = unfold predeclare in refl
predeclare-declared (s ∷ rest) = elim (Option-cases (extract_named_fn_decl s)) [
  | inl e ↦ rw (predeclare-none s rest e, declared-none s rest e) (predeclare-declared rest)
  | inr (f, e) ↦
      rw (predeclare-some s rest f e, declared-some s rest f e)
        (ap (λ t. placeholder f ∷ t) (predeclare-declared rest))
]

named_count-declared : (stmts : List Expr) → named_count stmts ≡ length (declared stmts)
named_count-declared [] = unfold named_count in refl
named_count-declared (s ∷ rest) = elim (Option-cases (extract_named_fn_decl s)) [
  | inl e ↦ rw (count_none s rest e, declared-none s rest e) (named_count-declared rest)
  | inr (f, e) ↦
      rw (count_some s rest f e, declared-some s rest f e)
        (omega (arith, named_count-declared rest))
]

-- Without a declaration nothing is rewritten.
unchanged : (stmts : List Expr) → named_count stmts ≡ 0 → map rewritten stmts ≡ stmts
unchanged [] none_left = refl
unchanged (s ∷ rest) none_left = elim (Option-cases (extract_named_fn_decl s)) [
  | inl e ↦
      ap (λ t. t ∷ map rewritten rest) (rewritten-none s e)
      ∙ ap (λ t. s ∷ t) (unchanged rest (sym (count_none s rest e) ∙ none_left))
  | inr (f, e) ↦ absurd (omega (arith, count_some s rest f e, none_left))
]

extract-placeholder : (f : NamedFn) → extract_named_fn_decl (placeholder f) ≡ none
unfolding placeholder make_binary extract_named_fn_decl
extract-placeholder f = refl

extract-assignment : (f : NamedFn) → extract_named_fn_decl (assignment f) ≡ none
unfolding assignment make_do_two make_do_three extract_named_fn_decl
extract-assignment f = elim (Bool-cases f.is_export) [ inl e ↦ rw e refl | inr e ↦ rw e refl ]

extract-rewritten : (s : Expr) → extract_named_fn_decl (rewritten s) ≡ none
extract-rewritten s = elim (Option-cases (extract_named_fn_decl s)) [
  | inl e ↦ ap extract_named_fn_decl (rewritten-none s e) ∙ e
  | inr (f, e) ↦ ap extract_named_fn_decl (rewritten-some s f e) ∙ extract-assignment f
]

declared-placeholders :
    (fs : List NamedFn) (rest : List Expr)
    → declared rest ≡ []
    → declared (map placeholder fs ++ rest) ≡ []
declared-placeholders [] rest e = e
declared-placeholders (f ∷ fs) rest e =
    declared-none (placeholder f) (map placeholder fs ++ rest) (extract-placeholder f)
    ∙ declared-placeholders fs rest e

declared-rewritten : (stmts : List Expr) → declared (map rewritten stmts) ≡ []
declared-rewritten [] = refl
declared-rewritten (s ∷ rest) =
    declared-none (rewritten s) (map rewritten rest) (extract-rewritten s) ∙ declared-rewritten rest

length-map : {A B : Type 0} (f : A → B) (xs : List A) → length (map f xs) ≡ length xs
length-map f [] = refl
length-map f (x ∷ xs) = ap suc (length-map f xs)

rewrite_unchanged :
    (stmts : List Expr) (n : ℕ)
    → (named_count stmts == 0) ≡ true
    → rewrite_named_fn_declarations stmts n ≡ (stmts, n)
unfolding rewrite_named_fn_declarations
rewrite_unchanged stmts n e = rw e refl

rewrite_hoisted :
    (stmts : List Expr) (n : ℕ)
    → (named_count stmts == 0) ≡ false
    → rewrite_named_fn_declarations stmts n
      ≡ (predeclare stmts ++ map rewritten stmts, n + named_count stmts)
unfolding rewrite_named_fn_declarations
rewrite_hoisted stmts n e = rw e refl

length-nil : {A : Type 0} (xs : List A) → length xs ≡ 0 → xs ≡ []
length-nil [] e = refl
length-nil (x ∷ xs) e = absurd (omega (arith, e))

-- The rewriting in the words of the code.
rewrite_named_fn_declarations_lem :
    (stmts : List Expr)
    → ((rewrite_named_fn_declarations stmts (length stmts)).0
        ≡ map placeholder (declared stmts) ++ map rewritten stmts)
      × (declared (rewrite_named_fn_declarations stmts (length stmts)).0 ≡ [])
      × ((rewrite_named_fn_declarations stmts (length stmts)).1
          ≡ length (rewrite_named_fn_declarations stmts (length stmts)).0)
      × (declared stmts ≡ [] → (rewrite_named_fn_declarations stmts (length stmts)).0 ≡ stmts)
rewrite_named_fn_declarations_lem stmts = elim (Bool-cases (named_count stmts == 0)) [
  | inl e ↦
      let nothing = ==→eq (named_count stmts) 0 e in
      rw (rewrite_unchanged stmts (length stmts) e) (
        sym (unchanged stmts nothing) ∙ ap (λ t. t ++ map rewritten stmts) (sym (no_let nothing)),
        declared-nil nothing,
        refl,
        λ h. refl,
      )
  | inr e ↦ rw (rewrite_hoisted stmts (length stmts) e) (
    ap (λ t. t ++ map rewritten stmts) (predeclare-declared stmts),
    ap (λ t. declared (t ++ map rewritten stmts)) (predeclare-declared stmts)
        ∙ declared-placeholders (declared stmts) (map rewritten stmts) (declared-rewritten stmts),
    omega (
      arith,
      length-append (predeclare stmts) (map rewritten stmts),
      ap length (predeclare-declared stmts),
      length-map placeholder (declared stmts),
      length-map rewritten stmts,
      named_count-declared stmts,
    ),
    λ h. absurd (true≢false (sym (eq→== _ 0 (named_count-declared stmts ∙ ap length h)) ∙ e)),
  )
]
  where
    declared-nil : named_count stmts ≡ 0 → declared stmts ≡ []
    declared-nil nothing = length-nil (declared stmts) (sym (named_count-declared stmts) ∙ nothing)

    no_let : named_count stmts ≡ 0 → map placeholder (declared stmts) ≡ []
    no_let nothing = ap (map placeholder) (declared-nil nothing)

assignment-assigned : (f : NamedFn) → assignment f ≡ assigned f.name f.fn_expr f.is_export
unfolding assignment make_unary make_binary make_do_two make_do_three
assignment-assigned f = elim (Bool-cases f.is_export) [ inl e ↦ rw e refl | inr e ↦ rw e refl ]

placeholder-let_nil : (f : NamedFn) → placeholder f ≡ let_nil f.name
unfolding placeholder make_binary
placeholder-let_nil f = refl

rewritten-Hoists : (stmts : List Expr) → Hoists stmts (predeclare stmts) (map rewritten stmts)
rewritten-Hoists [] = unfold predeclare in no_statements
rewritten-Hoists (s ∷ rest) = elim (Option-cases (extract_named_fn_decl s)) [
  | inl e ↦
      rw (predeclare-none s rest e, rewritten-none s e)
        (other_statement (extract-IsDeclaration s e) (rewritten-Hoists rest))
  | inr (f, e) ↦
      rw
        (
          predeclare-some s rest f e,
          rewritten-some s f e,
          placeholder-let_nil f,
          assignment-assigned f,
        )
        (declaration f.is_export (extract-Declares s f e) (rewritten-Hoists rest))
]

declared-IsDeclaration :
    (stmts : List Expr) → declared stmts ≡ [] → All (λ s. ¬ IsDeclaration s) stmts
declared-IsDeclaration [] e = tt
declared-IsDeclaration (s ∷ rest) e = elim (Option-cases (extract_named_fn_decl s)) [
  | inl none_here ↦ (
    extract-IsDeclaration s none_here,
    declared-IsDeclaration rest (sym (declared-none s rest none_here) ∙ e),
  )
  | inr (f, here) ↦ absurd (not_empty (declared rest) f (sym (declared-some s rest f here) ∙ e))
]
  where
    not_empty : (fs : List NamedFn) (f : NamedFn) → f ∷ fs ≡ [] → ⊥
    not_empty fs f x = cc

-- rewrite_named_fn_declarations puts one let with nil for each declared name, in order, in front of
-- the statements, in which each declaration is a block now that assigns the function to its name,
-- exports the name if the declaration does, and ends with it, and all else is as it was; a list
-- without a let stays itself. No declaration is left, and the count that was the number of the
-- statements is the number of the new ones.
pub rewrite_named_fn_declarations-hoists :
    (stmts : List Expr)
    → (lets others : List Expr) × Hoists stmts lets others
      × ((rewrite_named_fn_declarations stmts (length stmts)).0 ≡ lets ++ others)
      × All (λ s. ¬ IsDeclaration s) (rewrite_named_fn_declarations stmts (length stmts)).0
      × ((rewrite_named_fn_declarations stmts (length stmts)).1
          ≡ length (rewrite_named_fn_declarations stmts (length stmts)).0)
      × (lets ≡ [] → (rewrite_named_fn_declarations stmts (length stmts)).0 ≡ stmts)
rewrite_named_fn_declarations-hoists stmts =
    let (split, nothing, counted, same) = rewrite_named_fn_declarations_lem stmts in
    (
      predeclare stmts,
      map rewritten stmts,
      rewritten-Hoists stmts,
      split ∙ ap (λ t. t ++ map rewritten stmts) (sym (predeclare-declared stmts)),
      declared-IsDeclaration _ nothing,
      counted,
      λ e. same (map-nil (declared stmts) (sym (predeclare-declared stmts) ∙ e)),
    )
  where
    map-nil : (fs : List NamedFn) → map placeholder fs ≡ [] → fs ≡ []
    map-nil [] e = refl
    map-nil (f ∷ fs) e = cc
