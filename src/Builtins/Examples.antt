-- ===== src/Builtins/Examples.antt =====
-- The theorems of the builtins at concrete arguments.
use fex.Common.{ℕ, ◌-◌, ◌≡◌, refl, true, List, [], ◌∷◌, Bytes, codes, take, drop, All, arith}
use fex.Builtins.{value}
use fex.Builtins.Strings.{
  bytes_contains_byte, builtin_string_trim, builtin_string_split, builtin_string_contains,
}
use fex.Builtins.Paths.{builtin_path_join, builtin_dirname, builtin_basename}
use fex.Builtins.Trim.{Trimmed, builtin_string_trim-Trimmed}
use fex.Builtins.Search.{Occurs, builtin_string_contains-Occurs}
use fex.Builtins.Split.{IsPiece, join, builtin_string_split-join}
use fex.Builtins.Joins.{builtin_path_join-parts}

builtin_string_trim-Trimmed_example :
    (s e : ℕ) × Trimmed (codes " a ") s e
    × (builtin_string_trim (codes " a ") ≡ value (take (e - s) (drop s (codes " a "))))
builtin_string_trim-Trimmed_example = builtin_string_trim-Trimmed (codes " a ")

builtin_string_contains-Occurs_example :
    (builtin_string_contains (codes "abc") (codes "bc") ≡ value true
      → Occurs (codes "bc") (codes "abc"))
    × (Occurs (codes "bc") (codes "abc")
        → builtin_string_contains (codes "abc") (codes "bc") ≡ value true)
builtin_string_contains-Occurs_example =
    builtin_string_contains-Occurs (codes "abc") (codes "bc") (omega arith) (omega arith)

abbrev words : List Bytes
words = codes "ab" ∷ codes "c" ∷ []

words-IsPiece : All (IsPiece (codes ",")) words
unfolding bytes_contains_byte
words-IsPiece = (
  record { some_text = omega arith; plain = (refl, (refl, tt)) },
  (record { some_text = omega arith; plain = (refl, tt) }, tt),
)

comma : bytes_contains_byte (codes ",") b',' ≡ true
unfolding bytes_contains_byte
comma = refl

builtin_string_split-join_example : builtin_string_split (join b',' words) (codes ",") ≡ value words
builtin_string_split-join_example =
    builtin_string_split-join (codes ",") b',' words comma words-IsPiece (omega arith) (omega arith)

builtin_path_join-parts_example :
    (builtin_dirname (builtin_path_join (codes "a/b" ∷ codes "c.txt" ∷ [])) ≡ codes "a/b")
    × (builtin_basename (builtin_path_join (codes "a/b" ∷ codes "c.txt" ∷ [])) ≡ codes "c.txt")
builtin_path_join-parts_example =
    builtin_path_join-parts (codes "a/b") (codes "c.txt") (omega arith) refl
      (omega arith, (refl, (refl, (refl, (refl, (refl, tt))))))
