-- ===== src/Builtins/Lists.antt =====
-- The builtins on lists in src/fex_builtins.c.
--
-- A list that is not nil must be a pair, and fe_car and fe_cdr fail on a tail that is none.
use fex.Common.{ℕ, zero, suc, ◌+◌, List, [], ◌∷◌, ◌++◌, ℤ, pos, negsuc}
use fex.Parser.Expr.{Expr, nil_object, pair, list_object}
use fex.Builtins.{type_mismatch, expected_pair, Answer, value, failed}

-- The loop of length.
unfoldable pub length_loop : (count : ℕ) → Expr → Answer ℕ
length_loop count nil_object = value count
length_loop count (pair x list) = length_loop (count + 1) list
length_loop count other = failed expected_pair

unfoldable pub builtin_list_length : Expr → Answer ℕ
builtin_list_length (pair x list) = length_loop 0 (pair x list)
builtin_list_length other = failed type_mismatch

-- The loop of nth, and the element behind it.
unfoldable pub nth_loop : ℕ → Expr → Answer Expr
nth_loop index nil_object = value nil_object
nth_loop zero (pair x list) = value x
nth_loop (suc index) (pair x list) = nth_loop index list
nth_loop index other = failed expected_pair

abbrev pub nth_rounds : ℤ → ℕ
nth_rounds (pos n) = n
nth_rounds (negsuc n) = 0

unfoldable pub builtin_list_nth : Expr → (index : ℤ) → Answer Expr
builtin_list_nth (pair x list) index = nth_loop (nth_rounds index) (pair x list)
builtin_list_nth other index = failed type_mismatch

unfoldable pub reverse_loop : Expr → (result : Expr) → Answer Expr
reverse_loop nil_object result = value result
reverse_loop (pair x list) result = reverse_loop list (pair x result)
reverse_loop other result = failed expected_pair

unfoldable pub builtin_list_reverse : Expr → Answer Expr
builtin_list_reverse (pair x list) = reverse_loop (pair x list) nil_object
builtin_list_reverse other = failed type_mismatch

-- The elements of a list, as the copying loop of append reads them.
unfoldable pub copy_loop : Expr → Answer (List Expr)
copy_loop nil_object = value []
copy_loop (pair x list) = elim (copy_loop list) [ value xs ↦ value (x ∷ xs) | failed f ↦ failed f ]
copy_loop other = failed expected_pair

-- A list argument of append behind the first: a pair, and its elements in front of the later ones.
unfoldable pub append_loop : (lists : List Expr) → Answer (List Expr)
append_loop [] = value []
append_loop ((pair x list) ∷ lists) = elim (copy_loop (pair x list)) [
  | failed f ↦ failed f
  | value xs ↦ elim (append_loop lists) [ failed f ↦ failed f | value ys ↦ value (xs ++ ys) ]
]
append_loop (other ∷ lists) = failed type_mismatch

abbrev pub list_answer : Answer (List Expr) → Answer Expr
list_answer (failed f) = failed f
list_answer (value xs) = value (list_object xs)

-- One list is returned as it is; more are copied.
unfoldable pub builtin_list_append : (args : List Expr) → Answer Expr
builtin_list_append [] = value nil_object
builtin_list_append ((pair x list) ∷ []) = value (pair x list)
builtin_list_append (other ∷ []) = failed type_mismatch
builtin_list_append (first ∷ second ∷ lists) = list_answer (append_loop (first ∷ second ∷ lists))
