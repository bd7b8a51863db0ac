-- ===== src/Closure/Members.antt =====
-- The list of the free variables in src/fe.c: what analyze_symbol and analyze_inner add to it.
use fex.Common.{
  ◌≡◌, refl, sym, ◌∙◌, ap, inl, inr, Bool, true, false, ◌||◌, ◌&&◌, not, List, [], ◌∷◌, Bytes,
  bytes_eq, bytes_eq_sound, Bool-cases,
}
use mathlib.Core.Path.{subst}
use fex.Parser.Expr.{Expr}
use fex.Closure.{list_has, names_have, analyze_symbol, analyze_inner}

pub or_assoc : (a b c : Bool) → (a || b) || c ≡ a || (b || c)
or_assoc true b c = refl
or_assoc false b c = refl

pub or_false : (a : Bool) → a || false ≡ a
or_false true = refl
or_false false = refl

module _ (s x : Bytes) (bound : List Expr) (free_vars : List Bytes) where
  symbol_kept :
      list_has bound s || names_have free_vars s ≡ true
      → analyze_symbol s bound free_vars ≡ free_vars
  unfolding analyze_symbol
  symbol_kept e = rw e refl

  symbol_added :
      list_has bound s || names_have free_vars s ≡ false
      → analyze_symbol s bound free_vars ≡ s ∷ free_vars
  unfolding analyze_symbol
  symbol_added e = rw e refl

  -- A symbol is added if it is not bound, and is there already otherwise.
  pub names_have-analyze_symbol :
      names_have (analyze_symbol s bound free_vars) x
      ≡ names_have free_vars x || (bytes_eq s x && not (list_has bound x))
  unfolding names_have
  names_have-analyze_symbol = elim (Bool-cases (list_has bound s || names_have free_vars s)) [
    | inl kept ↦ ap (λ l. names_have l x) (symbol_kept kept) ∙ elim (Bool-cases (bytes_eq s x)) [
      | inl same ↦ rw same (
          from_kept (names_have free_vars x) (list_has bound x) (
            subst (λ y. list_has bound y || names_have free_vars y ≡ true) (bytes_eq_sound s x same)
              kept))
      | inr other ↦ rw other (sym (or_false (names_have free_vars x)))
    ]
    | inr added ↦ ap (λ l. names_have l x) (symbol_added added) ∙ elim (Bool-cases (bytes_eq s x)) [
      | inl same ↦ rw same (
          from_added (names_have free_vars x) (list_has bound x) (
            subst (λ y. list_has bound y || names_have free_vars y ≡ false)
              (bytes_eq_sound s x same) added))
      | inr other ↦ rw other (sym (or_false (names_have free_vars x)))
    ]
  ]
    where
      from_kept : (n b : Bool) → b || n ≡ true → n ≡ n || (true && not b)
      from_kept true b h = refl
      from_kept false true h = refl
      from_kept false false h = cc

      from_added : (n b : Bool) → b || n ≡ false → true || n ≡ n || (true && not b)
      from_added n true h = cc
      from_added true false h = cc
      from_added false false h = refl

-- Each of the inner variables is added if it is not bound.
pub names_have-analyze_inner :
    (inner_free : List Bytes) (x : Bytes) (bound : List Expr) (free_vars : List Bytes)
    → names_have (analyze_inner inner_free bound free_vars) x
      ≡ names_have free_vars x || (names_have inner_free x && not (list_has bound x))
unfolding analyze_inner names_have
names_have-analyze_inner [] x bound free_vars = sym (or_false (names_have free_vars x))
names_have-analyze_inner (s ∷ inner_free) x bound free_vars =
    names_have-analyze_inner inner_free x bound (analyze_symbol s bound free_vars)
    ∙ ap (λ b. b || (names_have inner_free x && not (list_has bound x)))
        (names_have-analyze_symbol s x bound free_vars)
    ∙ shuffle (names_have free_vars x) (bytes_eq s x) (names_have inner_free x) (list_has bound x)
  where
    shuffle : (n e i b : Bool) → (n || (e && not b)) || (i && not b) ≡ n || ((e || i) && not b)
    shuffle true e i b = refl
    shuffle false true true true = refl
    shuffle false true false true = refl
    shuffle false true i false = refl
    shuffle false false i b = refl

-- No variable stands in the list twice.
unfoldable pub distinct : List Bytes → Bool
unfolding names_have
distinct [] = true
distinct (s ∷ list) = not (names_have list s) && distinct list

pub distinct-analyze_symbol :
    (s : Bytes) (bound : List Expr) (free_vars : List Bytes)
    → distinct free_vars ≡ true
    → distinct (analyze_symbol s bound free_vars) ≡ true
unfolding distinct
distinct-analyze_symbol s bound free_vars h =
    elim (Bool-cases (list_has bound s || names_have free_vars s)) [
      | inl kept ↦ ap distinct (symbol_kept s s bound free_vars kept) ∙ h
      | inr added ↦
          ap distinct (symbol_added s s bound free_vars added)
          ∙ both (list_has bound s) (names_have free_vars s) added
    ]
  where
    both : (a b : Bool) → a || b ≡ false → not b && distinct free_vars ≡ true
    both true b e = cc
    both false true e = cc
    both false false e = h

pub distinct-analyze_inner :
    (inner_free : List Bytes) (bound : List Expr) (free_vars : List Bytes)
    → distinct free_vars ≡ true
    → distinct (analyze_inner inner_free bound free_vars) ≡ true
unfolding analyze_inner
distinct-analyze_inner [] bound free_vars h = h
distinct-analyze_inner (s ∷ inner_free) bound free_vars h =
    distinct-analyze_inner inner_free bound (analyze_symbol s bound free_vars)
      (distinct-analyze_symbol s bound free_vars h)
