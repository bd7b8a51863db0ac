-- ===== src/Builtins/Sequences.antt =====
-- append and reverse of src/fex_builtins.c, on list objects.
use fex.Common.{
  ℕ, ◌+◌, ◌<◌, ◌≡◌, refl, sym, ◌∙◌, ap, Bool, true, false, List, [], ◌∷◌, ◌++◌, append_assoc,
  append-nil, map, if◌then◌else◌, length, length-append, arith,
}
use fex.Parser.Expr.{Expr, list_object}
use fex.Builtins.{type_mismatch, Answer, value, failed}
use fex.Builtins.Lists.{
  length_loop, builtin_list_length, reverse_loop, builtin_list_reverse, copy_loop, append_loop,
  list_answer, builtin_list_append,
}

abbrev pub concat : List (List Expr) → List Expr
concat [] = []
concat (xs ∷ lists) = xs ++ concat lists

-- One of the lists has no element.
abbrev pub some_empty : List (List Expr) → Bool
some_empty [] = false
some_empty ([] ∷ lists) = true
some_empty ((x ∷ xs) ∷ lists) = some_empty lists

-- What append gives for lists of these elements.
abbrev pub appended : {A : Type 0} → (lists : List (List Expr)) → A → Answer A
appended lists answer = if some_empty lists then failed type_mismatch else value answer

copy_loop-list_object : (xs : List Expr) → copy_loop (list_object xs) ≡ value xs
unfolding copy_loop
copy_loop-list_object [] = refl
copy_loop-list_object (x ∷ xs) = rw (copy_loop-list_object xs, copy_loop) refl

append_loop-map :
    (lists : List (List Expr)) → append_loop (map list_object lists) ≡ appended lists (concat lists)
unfolding append_loop
append_loop-map [] = refl
append_loop-map ([] ∷ lists) = refl
append_loop-map ((x ∷ xs) ∷ lists) =
    rw (copy_loop-list_object (x ∷ xs), append_loop)
      (rw (append_loop-map lists, append_loop) (behind (some_empty lists)))
  where
    behind :
        (b : Bool)
        → (elim (if b then failed type_mismatch else value (concat lists)) [
          | failed f ↦ failed f
          | value ys ↦ value ((x ∷ xs) ++ ys)
        ])
          ≡ (if b then failed type_mismatch else value ((x ∷ xs) ++ concat lists))
    behind true = refl
    behind false = refl

-- append of list objects is the list object of all their elements, in order, but a type mismatch if
-- one of the lists is empty.
pub builtin_list_append-concat :
    (lists : List (List Expr))
    → builtin_list_append (map list_object lists)
      ≡ (if some_empty lists then failed type_mismatch else value (list_object (concat lists)))
unfolding builtin_list_append
builtin_list_append-concat [] = refl
builtin_list_append-concat ([] ∷ []) = refl
builtin_list_append-concat ((x ∷ xs) ∷ []) =
    ap (λ ys. value (list_object (x ∷ ys))) (sym (append-nil xs))
builtin_list_append-concat (first ∷ second ∷ lists) =
    ap list_answer (append_loop-map (first ∷ second ∷ lists))
    ∙ behind (some_empty (first ∷ second ∷ lists)) (concat (first ∷ second ∷ lists))
  where
    behind :
        (b : Bool) (xs : List Expr)
        → list_answer (if b then failed type_mismatch else value xs)
          ≡ (if b then failed type_mismatch else value (list_object xs))
    behind true xs = refl
    behind false xs = refl

abbrev pub reversed : List Expr → List Expr
reversed [] = []
reversed (x ∷ xs) = reversed xs ++ (x ∷ [])

reverse_loop-reversed :
    (xs ys : List Expr)
    → reverse_loop (list_object xs) (list_object ys) ≡ value (list_object (reversed xs ++ ys))
unfolding reverse_loop
reverse_loop-reversed [] ys = refl
reverse_loop-reversed (x ∷ xs) ys =
    reverse_loop-reversed xs (x ∷ ys)
    ∙ ap (λ zs. value (list_object zs)) (sym (append_assoc (reversed xs) (x ∷ []) ys))

builtin_list_reverse-reversed :
    (xs : List Expr)
    → 0 < length xs
    → builtin_list_reverse (list_object xs) ≡ value (list_object (reversed xs))
unfolding builtin_list_reverse
builtin_list_reverse-reversed [] some_element = absurd (omega (arith, some_element))
builtin_list_reverse-reversed (x ∷ xs) some_element =
    reverse_loop-reversed (x ∷ xs) []
    ∙ ap (λ zs. value (list_object zs)) (append-nil (reversed (x ∷ xs)))

reversed-append : (xs : List Expr) (x : Expr) → reversed (xs ++ (x ∷ [])) ≡ x ∷ reversed xs
reversed-append [] x = refl
reversed-append (y ∷ xs) x = ap (λ zs. zs ++ (y ∷ [])) (reversed-append xs x)

reversed-reversed : (xs : List Expr) → reversed (reversed xs) ≡ xs
reversed-reversed [] = refl
reversed-reversed (x ∷ xs) =
    reversed-append (reversed xs) x ∙ ap (λ zs. x ∷ zs) (reversed-reversed xs)

length-reversed : (xs : List Expr) → length (reversed xs) ≡ length xs
length-reversed [] = refl
length-reversed (x ∷ xs) = omega (arith, length-append (reversed xs) (x ∷ []), length-reversed xs)

length_loop-list_object :
    (count : ℕ) (xs : List Expr) → length_loop count (list_object xs) ≡ value (count + length xs)
unfolding length_loop
length_loop-list_object count [] = ap value (omega arith)
length_loop-list_object count (x ∷ xs) =
    length_loop-list_object (count + 1) xs ∙ ap value (omega arith)

builtin_list_length-length :
    (xs : List Expr) → 0 < length xs → builtin_list_length (list_object xs) ≡ value (length xs)
unfolding builtin_list_length
builtin_list_length-length [] some_element = absurd (omega (arith, some_element))
builtin_list_length-length (x ∷ xs) some_element =
    length_loop-list_object 0 (x ∷ xs) ∙ ap value (omega arith)

-- reverse of a list that is not empty gives a list of the same length, of which reverse gives the
-- first list back.
pub builtin_list_reverse-twice :
    (xs : List Expr)
    → 0 < length xs
    → (ys : List Expr) × (builtin_list_reverse (list_object xs) ≡ value (list_object ys))
      × (builtin_list_reverse (list_object ys) ≡ value (list_object xs))
      × (builtin_list_length (list_object ys) ≡ builtin_list_length (list_object xs))
builtin_list_reverse-twice xs some_element =
    let more : 0 < length (reversed xs) = omega (arith, length-reversed xs, some_element) in
    (
      reversed xs,
      builtin_list_reverse-reversed xs some_element,
      builtin_list_reverse-reversed (reversed xs) more
          ∙ ap (λ zs. value (list_object zs)) (reversed-reversed xs),
      builtin_list_length-length (reversed xs) more
          ∙ ap value (length-reversed xs)
          ∙ sym (builtin_list_length-length xs some_element),
    )
