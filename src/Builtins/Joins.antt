-- ===== src/Builtins/Joins.antt =====
-- dirname and basename of src/fex_builtins.c at a path that pathjoin makes.
use fex.Common.{
  ℕ, zero, suc, ◌+◌, ◌-◌, ◌<◌, ◌≤◌, ◌≡◌, refl, sym, ◌∙◌, ap, inr, Bool, true, false, ◌||◌, not, [],
  ◌∷◌, ◌++◌, map, Bytes, codes, ltb, ◌==◌, length, length-append, take, drop, All, arith,
  append_assoc,
}
use mathlib.Core.Path.{subst}
use fex.Builtins.{byte, back_while, forth_while}
use fex.Builtins.Scans.{back_while-run}
use fex.Builtins.Paths.{
  is_path_separator_char, slice, join_piece, to_slash, join_loop, builtin_path_join, path_end,
  name_start, builtin_dirname, builtin_basename,
}

abbrev IsName : Bytes → Type 0
IsName base = (0 < length base) × All (λ c. is_path_separator_char c ≡ false) base

byte-front : (xs ys : Bytes) (i : ℕ) → i < length xs → byte (xs ++ ys) i ≡ byte xs i
byte-front [] ys i lt = absurd (omega (arith, lt))
byte-front (x ∷ xs) ys zero lt = refl
byte-front (x ∷ xs) ys (suc i) lt = byte-front xs ys i (omega (arith, lt))

byte-All : (P : ℕ → Type 0) (xs : Bytes) (i : ℕ) → i < length xs → All P xs → P (byte xs i)
byte-All P [] i lt all = absurd (omega (arith, lt))
byte-All P (x ∷ xs) zero lt (p, all) = p
byte-All P (x ∷ xs) (suc i) lt (p, all) = byte-All P xs i (omega (arith, lt)) all

-- The byte at an index behind the front.
byte-behind : (xs ys : Bytes) (i j : ℕ) → i ≡ length xs + j → byte (xs ++ ys) i ≡ byte ys j
byte-behind [] ys i j e = ap (byte ys) (here e)
  where
    here : i ≡ 0 + j → i ≡ j
    here e = omega (arith, e)
byte-behind (x ∷ xs) ys zero j e = absurd (omega (arith, e))
byte-behind (x ∷ xs) ys (suc i) j e = byte-behind xs ys i j (omega (arith, e))

take_front : (xs ys : Bytes) → take (length xs) (xs ++ ys) ≡ xs
take_front [] ys = refl
take_front (x ∷ xs) ys = ap (λ t. x ∷ t) (take_front xs ys)

drop_front : (xs ys : Bytes) → drop (length xs) (xs ++ ys) ≡ ys
drop_front [] ys = refl
drop_front (x ∷ xs) ys = drop_front xs ys

take_all : (xs : Bytes) → take (length xs) xs ≡ xs
take_all [] = refl
take_all (x ∷ xs) = ap (λ t. x ∷ t) (take_all xs)

-- A directory that does not end with a separator, and a name in it.
module _ (dir base : Bytes) (some_dir : 0 < length dir)
    (dir_end : is_path_separator_char (byte dir (length dir - 1)) ≡ false)
    (name : IsName base) where
  path : Bytes
  path = dir ++ (b'/' ∷ base)

  path-length : length path ≡ length dir + 1 + length base
  unfolding path
  path-length = omega (arith, length-append dir (b'/' ∷ base))

  path-name :
      (i : ℕ)
      → length dir + 1 ≤ i
      → i < length dir + 1 + length base
      → is_path_separator_char (byte path i) ≡ false
  unfolding path
  path-name i le lt =
      subst (λ c. is_path_separator_char c ≡ false)
        (sym (byte-behind dir (b'/' ∷ base) i (suc (i - length dir - 1)) (omega (arith, le))))
        (byte-All (λ c. is_path_separator_char c ≡ false) base (i - length dir - 1)
          (omega (arith, le, lt)) name.1)

  path-slash : byte path (length dir) ≡ b'/'
  unfolding path
  path-slash = byte-behind dir (b'/' ∷ base) (length dir) 0 (omega arith)

  path-dir : is_path_separator_char (byte path (length dir - 1)) ≡ false
  unfolding path
  path-dir =
      subst (λ c. is_path_separator_char c ≡ false)
        (sym (byte-front dir (b'/' ∷ base) (length dir - 1) (omega (arith, some_dir)))) dir_end

  -- The path does not end with a separator.
  path_end-path : path_end path ≡ length path
  path_end-path =
      subst (λ n. back_while is_path_separator_char 1 n path ≡ length path) (omega arith)
        (back_while-run is_path_separator_char 1 (length path) 0 path
          (omega (arith, path-length, some_dir)) (λ i le lt. absurd (omega (arith, le, lt)))
          (inr (
            path-name (length path - 1) (omega (arith, path-length, name.0))
              (omega (arith, path-length, name.0)))))

  name_start-path : name_start path ≡ length dir + 1
  name_start-path =
      ap (λ n. back_while (λ c. not (is_path_separator_char c)) 0 n path)
        (path_end-path ∙ path-length)
      ∙ back_while-run (λ c. not (is_path_separator_char c)) 0 (length dir + 1) (length base) path
          (omega arith) (λ i le lt. ap not (path-name i le lt)) (inr slash)
    where
      slash : not (is_path_separator_char (byte path (length dir + 1 - 1))) ≡ false
      slash =
          subst (λ i. not (is_path_separator_char (byte path i)) ≡ false) (omega arith)
            (ap (λ c. not (is_path_separator_char c)) path-slash)

  before : back_while is_path_separator_char 0 (length dir) path ≡ length dir
  before =
      subst (λ n. back_while is_path_separator_char 0 n path ≡ length dir) (omega arith)
        (back_while-run is_path_separator_char 0 (length dir) 0 path (omega arith)
          (λ i le lt. absurd (omega (arith, le, lt))) (inr path-dir))

  dirname_of :
      (i before : ℕ)
      → name_start path ≡ i
      → i ≡ length dir + 1
      → back_while is_path_separator_char 0 (i - 1) path ≡ length dir
      → builtin_dirname path ≡ take (length dir) path
  unfolding builtin_dirname
  dirname_of i before start e at =
      let some_name : (i == 0) ≡ false = ground (arith, e) in
      let some_before : (length dir == 0) ≡ false = ground (arith, some_dir) in
      rw start (rw some_name (rw at (rw some_before refl)))

  builtin_dirname-path : builtin_dirname path ≡ dir
  unfolding path
  builtin_dirname-path =
      dirname_of (length dir + 1) (length dir) name_start-path refl
        (subst (λ n. back_while is_path_separator_char 0 n path ≡ length dir) (omega arith) before)
      ∙ take_front dir (b'/' ∷ base)

  drop_name : drop (length dir + 1) path ≡ base
  unfolding path
  drop_name = drop_behind dir
    where
      next : (n : ℕ) → suc (n + 1) ≡ suc n + 1
      next n = omega arith

      drop_behind : (xs : Bytes) → drop (length xs + 1) (xs ++ (b'/' ∷ base)) ≡ base
      drop_behind [] = refl
      drop_behind (x ∷ xs) =
          subst (λ n. drop n (x ∷ (xs ++ (b'/' ∷ base))) ≡ base) (next (length xs)) (drop_behind xs)

  builtin_basename-path : builtin_basename path ≡ base
  unfolding builtin_basename
  builtin_basename-path = rw name_start-path (
      rw path_end-path (
        ap (take (length path - (length dir + 1))) drop_name
        ∙ subst (λ n. take n base ≡ base) (omega (arith, path-length)) (take_all base)))

back_while-end :
    (xs : Bytes) (limit : ℕ)
    → limit < length xs
    → is_path_separator_char (byte xs (length xs - 1)) ≡ false
    → back_while is_path_separator_char limit (length xs) xs ≡ length xs
back_while-end xs limit lt other =
    subst (λ n. back_while is_path_separator_char limit n xs ≡ length xs) (omega arith)
      (back_while-run is_path_separator_char limit (length xs) 0 xs (omega (arith, lt))
        (λ i le lt. absurd (omega (arith, le, lt))) (inr other))

slice_all : (xs : Bytes) → slice 0 (length xs) xs ≡ xs
slice_all xs = subst (λ n. take n xs ≡ xs) (omega arith) (take_all xs)

forth_while-name : (base : Bytes) → IsName base → forth_while is_path_separator_char 0 base ≡ 0
forth_while-name [] name = absurd (omega (arith, name.0))
forth_while-name (c ∷ base) name = unfold forth_while in rw (name.1.0, forth_while) refl

-- What pathjoin appends of a part, a text without separators at its end.
join_piece-first :
    (dir : Bytes)
    → 0 < length dir
    → is_path_separator_char (byte dir (length dir - 1)) ≡ false
    → join_piece [] dir ≡ dir
unfolding join_piece
join_piece-first dir some_dir dir_end = rw (back_while-end dir 0 some_dir dir_end) (slice_all dir)

join_piece-name : (buf base : Bytes) → 0 < length buf → IsName base → join_piece buf base ≡ base
unfolding join_piece
join_piece-name buf base some_buf name =
    let more : (length buf == 0) ≡ false = ground (arith, some_buf) in
    let last : is_path_separator_char (byte base (length base - 1)) ≡ false =
      byte-All (λ c. is_path_separator_char c ≡ false) base (length base - 1)
        (omega (arith, name.0)) name.1 in
    rw more
      (rw (forth_while-name base name) (rw (back_while-end base 0 name.0 last) (slice_all base)))

map-to_slash :
    (base : Bytes) → All (λ c. is_path_separator_char c ≡ false) base → map to_slash base ≡ base
map-to_slash [] all = refl
map-to_slash (c ∷ base) (p, all) = rw p (ap (λ t. c ∷ t) (map-to_slash base all))

length-map-to_slash : (xs : Bytes) → length (map to_slash xs) ≡ length xs
length-map-to_slash [] = refl
length-map-to_slash (x ∷ xs) = ap suc (length-map-to_slash xs)

byte-map-to_slash :
    (xs : Bytes) (i : ℕ)
    → is_path_separator_char (byte xs i) ≡ false
    → is_path_separator_char (byte (map to_slash xs) i) ≡ false
byte-map-to_slash [] i e = e
byte-map-to_slash (x ∷ xs) zero e = rw e e
byte-map-to_slash (x ∷ xs) (suc i) e = byte-map-to_slash xs i e

-- The round of pathjoin for the last part.
join_loop-name :
    (buf base : Bytes)
    → 0 < length buf
    → is_path_separator_char (byte buf (length buf - 1)) ≡ false
    → IsName base
    → join_loop buf true (base ∷ []) ≡ buf ++ (b'/' ∷ base)
unfolding join_loop
join_loop-name buf base some_buf buf_end name =
    let more : ltb 0 (length buf) ≡ true = ground (arith, some_buf) in
    let text : ltb 0 (length base) ≡ true = ground (arith, name.0) in
    rw (join_piece-name buf base some_buf name) (
      rw more (
        rw text (
          rw (no_slash (byte buf (length buf - 1)) buf_end) (
            ap (λ t. (buf ++ codes "/") ++ t) (map-to_slash base name.1)
            ∙ append_assoc buf (codes "/") base))))
  where
    no_slash : (c : ℕ) → is_path_separator_char c ≡ false → (c == b'/') ≡ false
    no_slash c e = left (c == b'/') (c == b'\\') e
      where
        left : (a b : Bool) → a || b ≡ false → a ≡ false
        left true b h = h
        left false b h = refl

builtin_path_join-pair :
    (dir base : Bytes)
    → 0 < length dir
    → is_path_separator_char (byte dir (length dir - 1)) ≡ false
    → IsName base
    → builtin_path_join (dir ∷ base ∷ []) ≡ map to_slash dir ++ (b'/' ∷ base)
unfolding builtin_path_join join_loop
builtin_path_join-pair dir base some_dir dir_end name = paired
  where
    more : ltb 0 (length (map to_slash dir)) ≡ true
    more = ground (arith, some_dir, length-map-to_slash dir)

    buf_end :
        is_path_separator_char (byte (map to_slash dir) (length (map to_slash dir) - 1)) ≡ false
    buf_end = rw (length-map-to_slash dir) (byte-map-to_slash dir (length dir - 1) dir_end)

    joined : join_loop [] false (dir ∷ base ∷ []) ≡ map to_slash dir ++ (b'/' ∷ base)
    joined =
        ap (λ p. join_loop (map to_slash p) (ltb 0 (length (map to_slash p))) (base ∷ []))
          (join_piece-first dir some_dir dir_end)
        ∙ ap (λ b. join_loop (map to_slash dir) b (base ∷ [])) more
        ∙ join_loop-name (map to_slash dir) base (omega (arith, some_dir, length-map-to_slash dir))
            buf_end name

    paired : builtin_path_join (dir ∷ base ∷ []) ≡ map to_slash dir ++ (b'/' ∷ base)
    paired = rw joined (rw filled refl)
      where
        filled : (length (map to_slash dir ++ (b'/' ∷ base)) == 0) ≡ false
        filled = ground (arith, length-append (map to_slash dir) (b'/' ∷ base))

-- pathjoin of a directory that is not empty and ends with no separator, and a name that is not
-- empty and holds none, is a path of which dirname is that directory, with slashes as separators,
-- and basename that name.
pub builtin_path_join-parts :
    (dir base : Bytes)
    → 0 < length dir
    → is_path_separator_char (byte dir (length dir - 1)) ≡ false
    → IsName base
    → (builtin_dirname (builtin_path_join (dir ∷ base ∷ [])) ≡ map to_slash dir)
      × (builtin_basename (builtin_path_join (dir ∷ base ∷ [])) ≡ base)
unfolding path
builtin_path_join-parts dir base some_dir dir_end name =
    subst (λ p. (builtin_dirname p ≡ map to_slash dir) × (builtin_basename p ≡ base))
      (sym (builtin_path_join-pair dir base some_dir dir_end name))
      (
        builtin_dirname-path (map to_slash dir) base some_buf buf_end name,
        builtin_basename-path (map to_slash dir) base some_buf buf_end name,
      )
  where
    some_buf : 0 < length (map to_slash dir)
    some_buf = omega (arith, some_dir, length-map-to_slash dir)

    buf_end :
        is_path_separator_char (byte (map to_slash dir) (length (map to_slash dir) - 1)) ≡ false
    buf_end = rw (length-map-to_slash dir) (byte-map-to_slash dir (length dir - 1) dir_end)
