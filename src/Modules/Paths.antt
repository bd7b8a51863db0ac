-- ===== src/Modules/Paths.antt =====
-- Paths: path_dirname_copy against join_path_suffix, and normalize_path_chars.
use fex.Common.{
  ℕ, suc, ◌+◌, ◌≡◌, refl, sym, ◌∙◌, ap, ◌⊎◌, inl, inr, true, false, [], ◌∷◌, ◌++◌, Option, none,
  some, Bytes, codes, if◌then◌else◌, ◌==◌, length, take, All, arith, Bool-cases,
}
use fex.Modules.{
  is_path_separator, normalize_path_chars, last_separator, at_least_one, dirname_from,
  path_dirname_copy, needs_separator, join_path_suffix,
}

-- The text holds no separator.
abbrev pub IsFileName : Bytes → Type 0
IsFileName s = All (λ c. is_path_separator c ≡ false) s

IsFileName-append : (s t : Bytes) → IsFileName s → IsFileName t → IsFileName (s ++ t)
IsFileName-append [] t all all' = all'
IsFileName-append (c ∷ s) t (e, all) all' = (e, IsFileName-append s t all all')

last-append :
    (seen : ℕ) (last : Option ℕ) (xs ys : Bytes)
    → last_separator seen last (xs ++ ys)
      ≡ last_separator (seen + length xs) (last_separator seen last xs) ys
unfolding last_separator
last-append seen last [] ys = ap (λ n. last_separator n last ys) (zero_right seen)
  where
    zero_right : (n : ℕ) → n ≡ n + 0
    zero_right n = omega arith
last-append seen last (c ∷ xs) ys =
    last-append (seen + 1) (if is_path_separator c then some seen else last) xs ys
    ∙ ap
        (λ n.
          last_separator n
            (last_separator (seen + 1) (if is_path_separator c then some seen else last) xs) ys)
        (shift seen (length xs))
  where
    shift : (a b : ℕ) → a + 1 + b ≡ a + suc b
    shift a b = omega arith

last-IsFileName :
    (seen : ℕ) (last : Option ℕ) (s : Bytes) → IsFileName s → last_separator seen last s ≡ last
unfolding last_separator
last-IsFileName seen last [] all = refl
last-IsFileName seen last (c ∷ s) (e, all) = rw e (last-IsFileName (seen + 1) last s all)

take-all : (xs ys : Bytes) → take (length xs) (xs ++ ys) ≡ xs
take-all [] ys = refl
take-all (x ∷ xs) ys = ap (λ l. x ∷ l) (take-all xs ys)

-- The separator `c` is the last one of the path.
last-split :
    (dir file : Bytes) (c : ℕ)
    → is_path_separator c ≡ true
    → IsFileName file
    → last_separator 0 none (dir ++ (c ∷ file)) ≡ some (length dir)
unfolding last_separator
last-split dir file c e all =
    last-append 0 none dir (c ∷ file)
    ∙ ap (λ o. last_separator (0 + length dir + 1) o file) (rw e refl)
    ∙ last-IsFileName _ _ file all
    ∙ ap some (zero_left (length dir))
  where
    zero_left : (n : ℕ) → 0 + n ≡ n
    zero_left n = omega arith

dirname-split :
    (dir file : Bytes) (c : ℕ)
    → is_path_separator c ≡ true
    → IsFileName file
    → path_dirname_copy (dir ++ (c ∷ file)) ≡ take (at_least_one (length dir)) (dir ++ (c ∷ file))
unfolding path_dirname_copy
dirname-split dir file c e all = ap (dirname_from (dir ++ (c ∷ file))) (last-split dir file c e all)

-- What path_dirname_copy should return: the text before the last separator, the separator itself if
-- that text is empty, and "." without a separator.
abbrev pub IsDirname : Bytes → Bytes → Type 0
IsDirname path dir =
    (IsFileName path × (dir ≡ codes "."))
    ⊎ ((before file : Bytes) × (c : ℕ) × (path ≡ before ++ (c ∷ file))
        × (is_path_separator c ≡ true)
        × IsFileName file
        × (dir ≡ (if length before == 0 then c ∷ [] else before)))

split_path :
    (path : Bytes)
    → IsFileName path
      ⊎ ((before file : Bytes) × (c : ℕ) × (path ≡ before ++ (c ∷ file))
          × (is_path_separator c ≡ true)
          × IsFileName file)
split_path [] = inl tt
split_path (x ∷ path) = elim (split_path path) [
  | inr (before, file, c, e, sep, all) ↦ inr (x ∷ before, file, c, ap (λ l. x ∷ l) e, sep, all)
  | inl all ↦ elim (Bool-cases (is_path_separator x)) [
    | inl sep ↦ inr ([], path, x, refl, sep, all)
    | inr e ↦ inl (e, all)
  ]
]

take_dir :
    (before file : Bytes) (c : ℕ)
    → take (at_least_one (length before)) (before ++ (c ∷ file))
      ≡ (if length before == 0 then c ∷ [] else before)
take_dir [] file c = refl
take_dir (x ∷ before) file c = take-all (x ∷ before) (c ∷ file) ∙ sym (not_empty x before)
  where
    not_empty :
        (x : ℕ) (before : Bytes)
        → (if length (x ∷ before) == 0 then c ∷ [] else x ∷ before) ≡ x ∷ before
    not_empty x before = ground arith

-- path_dirname_copy returns the text before the last separator, that separator if the text before
-- it is empty, and "." for a path without a separator.
pub path_dirname_copy-IsDirname : (path : Bytes) → IsDirname path (path_dirname_copy path)
unfolding path_dirname_copy
path_dirname_copy-IsDirname path = elim (split_path path) [
  | inl all ↦ inl (all, ap (dirname_from path) (last-IsFileName 0 none path all))
  | inr (before, file, c, e, sep, all) ↦ inr (
    before,
    file,
    c,
    e,
    sep,
    all,
    ap path_dirname_copy e ∙ dirname-split before file c sep all ∙ take_dir before file c,
  )
]

-- The directory of a file that join_path_suffix puts in a directory is that directory, where the
-- directory is not empty and ends with no separator, and name and suffix hold none.
pub dirname-join :
    (base name suffix : Bytes)
    → needs_separator base ≡ true
    → IsFileName name
    → IsFileName suffix
    → path_dirname_copy (join_path_suffix base name suffix) ≡ base
unfolding join_path_suffix
dirname-join [] name suffix e all all' = cc
dirname-join (x ∷ base) name suffix e all all' = rw e (
    dirname-split (x ∷ base) (name ++ suffix) b'/' refl (IsFileName-append name suffix all all')
    ∙ take-all (x ∷ base) (b'/' ∷ (name ++ suffix)))

-- normalize_path_chars leaves no backslash, keeps the length, and changes nothing at a second run.
pub normalize_path_chars_lem :
    (path : Bytes)
    → All (λ c. (c == b'\\') ≡ false) (normalize_path_chars path)
      × (normalize_path_chars (normalize_path_chars path) ≡ normalize_path_chars path)
      × (length (normalize_path_chars path) ≡ length path)
unfolding normalize_path_chars
normalize_path_chars_lem [] = (tt, refl, refl)
normalize_path_chars_lem (c ∷ path) =
    let (clean, twice, same) = normalize_path_chars_lem path in
    elim (Bool-cases (is_path_separator c)) [
      | inl e ↦ rw e ((refl, clean), ap (λ l. b'/' ∷ l) twice, ap suc same)
      | inr e ↦ rw e ((ground (arith, e), clean), rw e (ap (λ l. c ∷ l) twice), ap suc same)
    ]
