-- ===== src/Closure/Sound.antt =====
-- analyze of src/fe.c against the occurrences of the variables.
use fex.Common.{
  ◌≡◌, sym, ◌∙◌, ap, Bool, true, false, ◌||◌, ◌&&◌, not, List, [], ◌∷◌, Bytes, codes, bytes_eq,
  if◌then◌else◌, refl,
}
use fex.Parser.Expr.{Expr, nil_object, symbol, pair, symbol_name_eq}
use fex.Closure.{
  list_has, names_have, analyze_symbol, Form, quote_form, do_form, fn_form, call_form, form_of,
  bind_let, parameters, analyze, analyze_args, analyze_do, analyze_stmt, analyze_fn, analyze_first,
  analyze_second,
}
use fex.Closure.Free.{
  binds, is_parameter, occurs_free, free_in_args, free_in_do, free_in_stmt, free_in_fn,
  free_in_first, free_in_second,
}
use fex.Closure.Members.{
  or_assoc, or_false, names_have-analyze_symbol, names_have-analyze_inner, distinct,
  distinct-analyze_symbol, distinct-analyze_inner,
}

-- A walk adds to the list the variables that a test finds, and no other, and none twice.
record Adds (walk : List Expr → List Bytes → List Bytes) (test : Bytes → List Expr → Bool)
    : Type 0 where
  members :
      (x : Bytes) (bound : List Expr) (free_vars : List Bytes)
      → names_have (walk bound free_vars) x ≡ names_have free_vars x || test x bound
  once :
      (bound : List Expr) (free_vars : List Bytes)
      → distinct free_vars ≡ true
      → distinct (walk bound free_vars) ≡ true

nothing-Adds : Adds (λ bound free_vars. free_vars) (λ x bound. false)
nothing-Adds = record {
  members = λ x bound free_vars. sym (or_false (names_have free_vars x));
  once = λ bound free_vars h. h;
}

symbol-Adds :
    (s : Bytes) → Adds (analyze_symbol s) (λ x bound. bytes_eq s x && not (list_has bound x))
symbol-Adds s = record {
  members = λ x bound free_vars. names_have-analyze_symbol s x bound free_vars;
  once = λ bound free_vars h. distinct-analyze_symbol s bound free_vars h;
}

-- Two walks after each other, the second with a bound list of its own.
then-Adds :
    {walk walk' : List Expr → List Bytes → List Bytes} {test test' : Bytes → List Expr → Bool}
    (scope : List Expr → List Expr)
    → Adds walk test
    → Adds walk' test'
    → Adds
        (λ bound free_vars. walk' (scope bound) (walk bound free_vars))
        (λ x bound. test x bound || test' x (scope bound))
then-Adds {walk} {test} {test'} scope a a' = record {
  members = λ x bound free_vars.
      a'.members x (scope bound) (walk bound free_vars)
      ∙ ap (λ b. b || test' x (scope bound)) (a.members x bound free_vars)
      ∙ or_assoc (names_have free_vars x) (test x bound) (test' x (scope bound));
  once =
      λ bound free_vars h. a'.once (scope bound) (walk bound free_vars) (a.once bound free_vars h);
}

respelled :
    {walk : List Expr → List Bytes → List Bytes} {test test' : Bytes → List Expr → Bool}
    → ((x : Bytes) (bound : List Expr) → test x bound ≡ test' x bound)
    → Adds walk test
    → Adds walk test'
respelled same a = record {
  members = λ x bound free_vars.
      a.members x bound free_vars ∙ ap (λ b. names_have free_vars x || b) (same x bound);
  once = a.once;
}

-- What a statement and the parameters of a function put on the bound list.
list_has-bind_let :
    (x : Bytes) (stmt : Expr) (bound : List Expr)
    → list_has (bind_let stmt bound) x ≡ binds x stmt || list_has bound x
unfolding list_has bind_let
list_has-bind_let x (pair op (pair var rest)) bound = added (symbol_name_eq op (codes "let"))
  where
    added :
        (b : Bool)
        → list_has (if b then var ∷ bound else bound) x
          ≡ (b && symbol_name_eq var x) || list_has bound x
    added true = refl
    added false = refl
list_has-bind_let x (pair op other) bound = nothing_added (symbol_name_eq op (codes "let"))
  where
    nothing_added :
        (b : Bool) → list_has (if b then nil_object ∷ bound else bound) x ≡ list_has bound x
    nothing_added true = refl
    nothing_added false = refl
list_has-bind_let x other bound = refl

pub list_has-parameters :
    (x : Bytes) (params : Expr) (acc : List Expr)
    → list_has (parameters params acc) x ≡ is_parameter x params || list_has acc x
unfolding list_has parameters
list_has-parameters x (pair p params) acc =
    list_has-parameters x params (p ∷ acc)
    ∙ swap (is_parameter x params) (symbol_name_eq p x) (list_has acc x)
  where
    swap : (a b c : Bool) → a || (b || c) ≡ (b || a) || c
    swap true true c = refl
    swap true false c = refl
    swap false true c = refl
    swap false false c = refl
list_has-parameters x other acc = refl

-- The walks over one expression.
record Walks (e : Expr) : Type 0 where
  node : Adds (analyze e) (λ x bound. occurs_free x e (list_has bound x))
  args : Adds (analyze_args e) (λ x bound. free_in_args x e (list_has bound x))
  block : Adds (analyze_do e) (λ x bound. free_in_do x e (list_has bound x))
  stmt : Adds (analyze_stmt e) (λ x bound. free_in_stmt x e (list_has bound x))
  inner : Adds (analyze_fn e) (λ x bound. free_in_fn x e (list_has bound x))
  first : Adds (analyze_first e) (λ x bound. free_in_first x e (list_has bound x))
  second : Adds (analyze_second e) (λ x bound. free_in_second x e (list_has bound x))

-- Any choice among the four forms, and between a `let` and another statement.
form-Adds :
    {walk₁ walk₂ walk₃ : List Expr → List Bytes → List Bytes}
    {test₁ test₂ test₃ : Bytes → List Expr → Bool}
    → Adds walk₁ test₁
    → Adds walk₂ test₂
    → Adds walk₃ test₃
    → (form : Form)
    → Adds
        (λ bound free_vars. elim form [
          | quote_form ↦ free_vars
          | do_form ↦ walk₁ bound free_vars
          | fn_form ↦ walk₂ bound free_vars
          | call_form ↦ walk₃ bound free_vars
        ])
        (λ x bound. elim form [
          | quote_form ↦ false
          | do_form ↦ test₁ x bound
          | fn_form ↦ test₂ x bound
          | call_form ↦ test₃ x bound
        ])
form-Adds a b c quote_form = nothing-Adds
form-Adds a b c do_form = a
form-Adds a b c fn_form = b
form-Adds a b c call_form = c

choice-Adds :
    {walk walk' : List Expr → List Bytes → List Bytes} {test test' : Bytes → List Expr → Bool}
    → Adds walk test
    → Adds walk' test'
    → (b : Bool)
    → Adds
        (λ bound free_vars. elim b [ true ↦ walk bound free_vars | false ↦ walk' bound free_vars ])
        (λ x bound. elim b [ true ↦ test x bound | false ↦ test' x bound ])
choice-Adds a a' true = a
choice-Adds a a' false = a'

fn-Adds :
    (params rest : Expr)
    → Adds (analyze_first rest) (λ x bound. free_in_first x rest (list_has bound x))
    → Adds
        (analyze_fn (pair params rest))
        (λ x bound. free_in_fn x (pair params rest) (list_has bound x))
unfolding analyze free_in_fn names_have list_has
fn-Adds params rest body = record {
  members = λ x bound free_vars.
      names_have-analyze_inner (analyze_first rest (parameters params []) []) x bound free_vars
      ∙ ap (λ b. names_have free_vars x || (b && not (list_has bound x)))
          (body.members x (parameters params []) []
            ∙ ap (free_in_first x rest) (list_has-parameters x params [] ∙ no_more x));
  once = λ bound free_vars h.
      distinct-analyze_inner (analyze_first rest (parameters params []) []) bound free_vars h;
}
  where
    no_more : (x : Bytes) → is_parameter x params || list_has [] x ≡ is_parameter x params
    no_more x = or_false (is_parameter x params)

pair-Walks : (op args : Expr) → Walks op → Walks args → Walks (pair op args)
unfolding analyze occurs_free
pair-Walks op args walks_op walks_args =
    let call = then-Adds (λ bound. bound) walks_op.node walks_args.args in
    let forms = form-Adds walks_args.block walks_args.inner call (form_of op) in
    record {
      node = forms;
      args = then-Adds (λ bound. bound) walks_op.node walks_args.args;
      block =
          respelled
            (λ x bound.
              ap (λ b. free_in_stmt x op (list_has bound x) || free_in_do x args b)
                (list_has-bind_let x op bound))
            (then-Adds (bind_let op) walks_op.stmt walks_args.block);
      stmt = choice-Adds walks_args.second forms (symbol_name_eq op (codes "let"));
      inner = fn-Adds op args walks_args.first;
      first = walks_op.node;
      second = walks_args.first;
    }

analyze-Walks : (e : Expr) → Walks e
unfolding analyze occurs_free
analyze-Walks (pair op args) = pair-Walks op args (analyze-Walks op) (analyze-Walks args)
analyze-Walks (symbol s) = record {
  node = symbol-Adds s;
  args = symbol-Adds s;
  block = nothing-Adds;
  stmt = symbol-Adds s;
  inner = nothing-Adds;
  first = nothing-Adds;
  second = nothing-Adds;
}
analyze-Walks other = record {
  node = nothing-Adds;
  args = nothing-Adds;
  block = nothing-Adds;
  stmt = nothing-Adds;
  inner = nothing-Adds;
  first = nothing-Adds;
  second = nothing-Adds;
}

pub analyze-occurs_free :
    (e : Expr) (bound : List Expr) (free_vars : List Bytes)
    → distinct free_vars ≡ true
    → ((x : Bytes)
        → names_have (analyze e bound free_vars) x
          ≡ names_have free_vars x || occurs_free x e (list_has bound x))
      × (distinct (analyze e bound free_vars) ≡ true)
analyze-occurs_free e bound free_vars once =
    let adds = (analyze-Walks e).node in
    (λ x. adds.members x bound free_vars, adds.once bound free_vars once)
