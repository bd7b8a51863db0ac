-- ===== src/Modules/Segments.antt =====
-- Module names: split_module_spec_segments and join_module_segments.
use fex.Common.{
  ℕ, ◌<◌, ◌≡◌, refl, sym, ◌∙◌, ap, inl, inr, Bool, true, false, List, [], ◌∷◌, ◌++◌, map,
  append_assoc, append-nil, Bytes, codes, bytes_eq, if◌then◌else◌, ◌==◌, length, All, arith,
  Bool-cases,
}
use fex.Modules.{
  is_path_separator, module_spec_uses_path_mode, is_segment_end, is_kept, push_segment, split_loop,
  split_module_spec_segments, join_module_segments, module_spec_to_lookup_name,
}

-- The text is a part of a dotted name.
abbrev pub IsName : Bytes → Type 0
IsName s = (0 < length s) × All (λ c. (is_path_separator c ≡ false) × ((c == b'.') ≡ false)) s

split_end :
    (mode : Bool) (segment : Bytes) (c : ℕ) (spec : Bytes)
    → is_segment_end mode c ≡ true
    → split_loop mode segment (c ∷ spec) ≡ push_segment mode segment (split_loop mode [] spec)
unfolding split_loop
split_end mode segment c spec e = rw (e, split_loop) refl

split_more :
    (mode : Bool) (segment : Bytes) (c : ℕ) (spec : Bytes)
    → is_segment_end mode c ≡ false
    → split_loop mode segment (c ∷ spec) ≡ split_loop mode (segment ++ (c ∷ [])) spec
unfolding split_loop
split_more mode segment c spec e = rw (e, split_loop) refl

-- A text without an end of a segment is taken into the segment.
split_text :
    (mode : Bool) (segment text spec : Bytes)
    → All (λ c. is_segment_end mode c ≡ false) text
    → split_loop mode segment (text ++ spec) ≡ split_loop mode (segment ++ text) spec
split_text mode segment [] spec none_ends =
    ap (λ s. split_loop mode s spec) (sym (append-nil segment))
split_text mode segment (c ∷ text) spec (more, none_ends) =
    split_more mode segment c (text ++ spec) more
    ∙ split_text mode (segment ++ (c ∷ [])) text spec none_ends
    ∙ ap (λ s. split_loop mode s spec) (append_assoc segment (c ∷ []) text)

no_dots :
    (s : Bytes)
    → All (λ c. (is_path_separator c ≡ false) × ((c == b'.') ≡ false)) s
    → All (λ c. is_segment_end false c ≡ false) s
no_dots [] all = tt
no_dots (c ∷ s) ((sep, dot), all) = (dot, no_dots s all)

kept_name : (s : Bytes) (rest : List Bytes) → 0 < length s → push_segment false s rest ≡ s ∷ rest
kept_name [] rest lt = absurd (omega (arith, lt))
kept_name (c ∷ s) rest lt = ground arith

split_names :
    (names : List Bytes)
    → All IsName names
    → split_loop false [] (join_module_segments names b'.') ≡ names
unfolding join_module_segments split_loop
split_names [] all = refl
split_names (s ∷ []) ((lt, chars), all) =
    ap (split_loop false []) (sym (append-nil s))
    ∙ split_text false [] s [] (no_dots s chars)
    ∙ kept_name s [] lt
split_names (s ∷ t ∷ names) ((lt, chars), all) =
    split_text false [] s (b'.' ∷ join_module_segments (t ∷ names) b'.') (no_dots s chars)
    ∙ split_end false s b'.' (join_module_segments (t ∷ names) b'.') refl
    ∙ kept_name s _ lt
    ∙ ap (λ l. s ∷ l) (split_names (t ∷ names) all)

mode-append :
    (s t : Bytes)
    → All (λ c. (is_path_separator c ≡ false) × ((c == b'.') ≡ false)) s
    → module_spec_uses_path_mode t ≡ false
    → module_spec_uses_path_mode (s ++ t) ≡ false
mode-append [] t all e = e
mode-append (c ∷ s) t ((sep, dot), all) e = rw sep (mode-append s t all e)

join-mode :
    (names : List Bytes)
    → All IsName names
    → module_spec_uses_path_mode (join_module_segments names b'.') ≡ false
unfolding join_module_segments
join-mode [] all = refl
join-mode (s ∷ []) ((lt, chars), all) =
    ap module_spec_uses_path_mode (sym (append-nil s)) ∙ mode-append s [] chars refl
join-mode (s ∷ t ∷ names) ((lt, chars), all) =
    mode-append s (b'.' ∷ join_module_segments (t ∷ names) b'.') chars (join-mode (t ∷ names) all)

-- Names that are not empty and hold no dot and no separator come back from the dotted name that
-- they are joined to.
pub split-join :
    (names : List Bytes)
    → All IsName names
    → split_module_spec_segments (join_module_segments names b'.') ≡ names
unfolding split_module_spec_segments
split-join names all =
    ap (λ mode. split_loop mode [] (join_module_segments names b'.')) (join-mode names all)
    ∙ split_names names all

-- What split_module_spec_segments may return: no empty segment, none with a separator, and in path
-- mode none that leads to the same or the parent directory.
pub record IsSegment (mode : Bool) (s : Bytes) : Type 0 where
  pub text : 0 < length s
  pub whole : All (λ c. is_segment_end mode c ≡ false) s
  pub same_directory : mode ≡ true → bytes_eq s (codes ".") ≡ false
  pub parent_directory : mode ≡ true → bytes_eq s (codes "..") ≡ false

push-IsSegment :
    (mode : Bool) (s : Bytes) (rest : List Bytes)
    → All (λ c. is_segment_end mode c ≡ false) s
    → All (IsSegment mode) rest
    → All (IsSegment mode) (push_segment mode s rest)
push-IsSegment mode s rest whole all = elim (Bool-cases (is_kept mode s)) [
  | inl e ↦ rw e (kept e, all)
  | inr e ↦ rw e all
]
  where
    kept : is_kept mode s ≡ true → IsSegment mode s
    kept e = record {
      text = ground (arith, e);
      whole = whole;
      same_directory = λ m. ground (arith, e, m);
      parent_directory = λ m. ground (arith, e, m);
    }

All-append : (P : ℕ → Type 0) (xs ys : Bytes) → All P xs → All P ys → All P (xs ++ ys)
All-append P [] ys all all' = all'
All-append P (x ∷ xs) ys (p, all) all' = (p, All-append P xs ys all all')

split-IsSegment :
    (mode : Bool) (segment spec : Bytes)
    → All (λ c. is_segment_end mode c ≡ false) segment
    → All (IsSegment mode) (split_loop mode segment spec)
unfolding split_loop
split-IsSegment mode segment [] whole = push-IsSegment mode segment [] whole tt
split-IsSegment mode segment (c ∷ spec) whole = elim (Bool-cases (is_segment_end mode c)) [
  | inl e ↦
      rw (split_end mode segment c spec e)
        (push-IsSegment mode segment _ whole (split-IsSegment mode [] spec tt))
  | inr e ↦ rw (split_more mode segment c spec e) (
      split-IsSegment mode (segment ++ (c ∷ [])) spec (All-append _ segment (c ∷ []) whole (e, tt)))
]

-- No segment of a module name is empty or holds a byte that ends a segment, and in path mode none
-- is "." or "..".
pub split_module_spec_segments-IsSegment :
    (spec : Bytes)
    → All (IsSegment (module_spec_uses_path_mode spec)) (split_module_spec_segments spec)
unfolding split_module_spec_segments
split_module_spec_segments-IsSegment spec =
    split-IsSegment (module_spec_uses_path_mode spec) [] spec tt

slash_name :
    (s t : Bytes)
    → All (λ c. (is_path_separator c ≡ false) × ((c == b'.') ≡ false)) s
    → map (λ c. if c == b'.' then b'/' else c) (s ++ t)
      ≡ s ++ map (λ c. if c == b'.' then b'/' else c) t
slash_name [] t all = refl
slash_name (c ∷ s) t ((sep, dot), all) = rw dot (ap (λ l. c ∷ l) (slash_name s t all))

slash_names :
    (names : List Bytes)
    → All IsName names
    → map (λ c. if c == b'.' then b'/' else c) (join_module_segments names b'.')
      ≡ join_module_segments names b'/'
unfolding join_module_segments
slash_names [] all = refl
slash_names (s ∷ []) ((lt, chars), all) =
    ap (map (λ c. if c == b'.' then b'/' else c)) (sym (append-nil s))
    ∙ slash_name s [] chars
    ∙ append-nil s
slash_names (s ∷ t ∷ names) ((lt, chars), all) =
    slash_name s (b'.' ∷ join_module_segments (t ∷ names) b'.') chars
    ∙ ap (λ l. s ++ (b'/' ∷ l)) (slash_names (t ∷ names) all)

-- Names that are not empty and hold no dot and no separator, joined by dots, are looked up under
-- the path that joins them by slashes.
pub module_spec_to_lookup_name-join :
    (names : List Bytes)
    → All IsName names
    → module_spec_to_lookup_name (join_module_segments names b'.') ≡ join_module_segments names b'/'
unfolding module_spec_to_lookup_name
module_spec_to_lookup_name-join names all = rw (join-mode names all) (slash_names names all)
