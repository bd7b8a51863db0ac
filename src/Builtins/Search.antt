-- ===== src/Builtins/Search.antt =====
-- contains of src/fex_builtins.c.
use fex.Common.{
  ℕ, suc, ◌+◌, ◌≤◌, ◌≡◌, refl, sym, ◌∙◌, ap, inl, inr, Bool, true, false, ◌||◌, ◌&&◌, [], ◌∷◌, ◌++◌,
  Bytes, if◌then◌else◌, ltb, ltb→lt, ◌==◌, ==→eq, eq→==, length, length-append, arith, Bool-cases,
}
use fex.Builtins.{value}
use fex.Builtins.Strings.{
  starts_with, sequence_loop, bytes_contains_sequence, builtin_string_contains,
}

-- The needle stands somewhere in the text.
pub record Occurs (needle haystack : Bytes) : Type 0 where
  pub before : Bytes
  pub after : Bytes
  pub splits : haystack ≡ before ++ (needle ++ after)

starts_with_sound :
    (needle haystack : Bytes)
    → starts_with needle haystack ≡ true
    → (after : Bytes) × (haystack ≡ needle ++ after)
unfolding starts_with
starts_with_sound [] haystack h = (haystack, refl)
starts_with_sound (x ∷ needle) [] h = cc
starts_with_sound (x ∷ needle) (y ∷ haystack) h =
    let (same, later) = both (x == y) (starts_with needle haystack) h in
    let (after, e) = starts_with_sound needle haystack later in
    (after, ap (λ c. c ∷ haystack) (sym (==→eq x y same)) ∙ ap (λ t. x ∷ t) e)
  where
    both : (a b : Bool) → a && b ≡ true → (a ≡ true) × (b ≡ true)
    both true b h = (refl, h)
    both false b h = cc

starts_with_complete : (needle after : Bytes) → starts_with needle (needle ++ after) ≡ true
unfolding starts_with
starts_with_complete [] after = refl
starts_with_complete (x ∷ needle) after =
    ap (λ b. b && starts_with needle (needle ++ after)) (eq→== x x refl)
    ∙ starts_with_complete needle after

sequence_loop_sound :
    (needle haystack : Bytes) → sequence_loop needle haystack ≡ true → Occurs needle haystack
unfolding sequence_loop
sequence_loop_sound needle [] h =
    let (after, e) = starts_with_sound needle [] h in
    record { before = []; after = after; splits = e }
sequence_loop_sound needle (y ∷ haystack) h =
    elim (Bool-cases (starts_with needle (y ∷ haystack))) [
      | inl here ↦
          let (after, e) = starts_with_sound needle (y ∷ haystack) here in
          record { before = []; after = after; splits = e }
      | inr not_here ↦
          let o = sequence_loop_sound needle haystack (rest_of _ _ not_here h) in
          record { before = y ∷ o.before; after = o.after; splits = ap (λ t. y ∷ t) o.splits }
    ]
  where
    rest_of : (a b : Bool) → a ≡ false → a || b ≡ true → b ≡ true
    rest_of true b n h = cc
    rest_of false b n h = h

sequence_loop_complete :
    (needle before after : Bytes) → sequence_loop needle (before ++ (needle ++ after)) ≡ true
unfolding sequence_loop
sequence_loop_complete needle [] after = at_front needle after (needle ++ after) refl
  where
    at_front :
        (needle after text : Bytes) → text ≡ needle ++ after → sequence_loop needle text ≡ true
    at_front needle after [] e = ap (starts_with needle) e ∙ starts_with_complete needle after
    at_front needle after (y ∷ text) e =
        ap (λ b. b || sequence_loop needle text)
          (ap (starts_with needle) e ∙ starts_with_complete needle after)
sequence_loop_complete needle (y ∷ before) after =
    ap (λ b. starts_with needle (y ∷ (before ++ (needle ++ after))) || b)
      (sequence_loop_complete needle before after)
    ∙ or_true (starts_with needle (y ∷ (before ++ (needle ++ after))))
  where
    or_true : (a : Bool) → a || true ≡ true
    or_true true = refl
    or_true false = refl

sequence_more :
    (haystack needle : Bytes) (x : ℕ)
    → bytes_contains_sequence haystack (x ∷ needle) ≡ (
        if ltb (length haystack) (length (x ∷ needle))
        then false
        else sequence_loop (x ∷ needle) haystack)
unfolding bytes_contains_sequence
sequence_more haystack needle x =
    let e : (suc (length needle) == 0) ≡ false = ground arith in rw e refl

sequence_sound :
    (haystack needle : Bytes)
    → bytes_contains_sequence haystack needle ≡ true
    → Occurs needle haystack
unfolding bytes_contains_sequence
sequence_sound haystack [] h = record { before = []; after = haystack; splits = refl }
sequence_sound haystack (x ∷ needle) h =
    from (ltb (length haystack) (length (x ∷ needle))) (sym (sequence_more haystack needle x) ∙ h)
  where
    from :
        (b : Bool)
        → (if b then false else sequence_loop (x ∷ needle) haystack) ≡ true
        → Occurs (x ∷ needle) haystack
    from true h = cc
    from false h = sequence_loop_sound (x ∷ needle) haystack h

sequence_complete :
    (haystack needle : Bytes)
    → Occurs needle haystack
    → bytes_contains_sequence haystack needle ≡ true
unfolding bytes_contains_sequence
sequence_complete haystack [] o = refl
sequence_complete haystack (x ∷ needle) o =
    sequence_more haystack needle x ∙ from (ltb (length haystack) (length (x ∷ needle))) refl
  where
    long : length (x ∷ needle) ≤ length haystack
    long = omega (
      arith,
      ap length o.splits,
      length-append o.before ((x ∷ needle) ++ o.after),
      length-append (x ∷ needle) o.after,
    )

    from :
        (b : Bool)
        → ltb (length haystack) (length (x ∷ needle)) ≡ b
        → (if b then false else sequence_loop (x ∷ needle) haystack) ≡ true
    from true e = absurd (omega (arith, long, ltb→lt _ _ e))
    from false e =
        ap (sequence_loop (x ∷ needle)) o.splits
        ∙ sequence_loop_complete (x ∷ needle) o.before o.after

contains_value :
    (str substr : Bytes)
    → length str + 1 ≤ 1024
    → length substr + 1 ≤ 256
    → builtin_string_contains str substr ≡ value (bytes_contains_sequence str substr)
unfolding builtin_string_contains
contains_value str substr short short' =
    let fits : ltb 1024 (length str + 1) ≡ false = ground (arith, short) in
    let fits' : ltb 256 (length substr + 1) ≡ false = ground (arith, short') in
    rw fits (rw fits' refl)

-- On strings that fit in the buffers contains says whether the second stands somewhere in the
-- first.
pub builtin_string_contains-Occurs :
    (str substr : Bytes)
    → length str + 1 ≤ 1024
    → length substr + 1 ≤ 256
    → (builtin_string_contains str substr ≡ value true → Occurs substr str)
      × (Occurs substr str → builtin_string_contains str substr ≡ value true)
builtin_string_contains-Occurs str substr short short' = (
  λ h. sequence_sound str substr (of_value _ (sym (contains_value str substr short short') ∙ h)),
  λ o. contains_value str substr short short' ∙ ap value (sequence_complete str substr o),
)
  where
    of_value : (b : Bool) → value b ≡ value true → b ≡ true
    of_value true h = refl
    of_value false h = cc
