-- ===== src/Heap/Mark.antt =====
-- The marking: the loop of fe_mark, fe_mark itself, and the marking of all roots.
use fex.Common.{
  ℕ, zero, suc, ◌+◌, ◌<◌, ◌≡◌, refl, sym, ◌∙◌, ap, ◌↔◌, ◌⊎◌, inl, inr, true, false, not, ◌&&◌, List,
  [], ◌∷◌, ◌++◌, Option, none, some, ltb, update, length, length-append, arith, Bool-cases,
  Option-cases,
}
use mathlib.Core.Path.{subst}
use fex.Heap.{
  Ref, immediate, at, Content, Marked, visit, pushed, followed, push_all, and_then, mark_loop,
  fe_mark, mark_roots,
}
use fex.Heap.Marks.{
  In, In-append_left, In-append_right, In-append_cases, children, Marks, Marks-none, Marks-change,
  Marks-then, Marks-object, Reach, root, Done, Unmarked, Marks-complete, Marks-exact,
}
use fex.Heap.Push.{weight, weight-update, weight-le, Pushed, push_all-Pushed}

module _ (contents : ℕ → Content) (object_count : ℕ) where
  abbrev loop : ℕ → Marked → List Ref → Option Marked
  loop = mark_loop contents object_count

  abbrev recursion : ℕ → Marked → Ref → Option Marked
  recursion fuel m r = loop fuel m (r ∷ [])

  visit-none :
      (m m' : Marked) (r : Ref)
      → visit object_count m r ≡ none
      → ((i : ℕ) → m i ≡ true → m' i ≡ true)
      → Done contents object_count m' r
  visit-none m m' immediate e keeps i same lt = absurd (cc)
  visit-none m m' (at j) e keeps i same lt =
      let here : j ≡ i = cc in subst (λ k. m' k ≡ true) here (keeps j (ground (arith, e, lt, here)))

  visit-some :
      (m : Marked) (r : Ref) (i : ℕ)
      → visit object_count m r ≡ some i
      → (r ≡ at i) × (i < object_count) × (m i ≡ false)
  visit-some m immediate i e = absurd (cc)
  visit-some m (at j) i e = elim (Bool-cases (ltb j object_count && not (m j))) [
    | inl h ↦
        let here : j ≡ i = from h e in
        (ap at here, ground (arith, h, here), subst (λ k. m k ≡ false) here (ground (arith, h)))
    | inr h ↦ absurd (never h e)
  ]
    where
      from : (ltb j object_count && not (m j)) ≡ true → visit object_count m (at j) ≡ some i → j ≡ i
      from h e = ground (arith, h, e)

      never : (ltb j object_count && not (m j)) ≡ false → visit object_count m (at j) ≡ some i → ⊥
      never h e = ground (arith, h, e)

  loop_skip :
      (fuel : ℕ) (m : Marked) (r : Ref) (stack : List Ref)
      → visit object_count m r ≡ none
      → loop (suc fuel) m (r ∷ stack) ≡ loop fuel m stack
  unfolding mark_loop
  loop_skip fuel m r stack e = rw (e, mark_loop) refl

  loop_object :
      (fuel : ℕ) (m : Marked) (r : Ref) (stack : List Ref) (i : ℕ) (m' : Marked) (stack' : List Ref)
      → visit object_count m r ≡ some i
      → push_all (recursion fuel) (update m i true) (pushed (contents i)) stack ≡ some (m', stack')
      → loop (suc fuel) m (r ∷ stack) ≡ loop fuel m' (followed (contents i) ++ stack')
  unfolding mark_loop
  loop_object fuel m r stack i m' stack' e e' = rw (e, mark_loop) (rw e' refl)

  object_done :
      (m m' : Marked) (r : Ref) (i : ℕ) (stack : List Ref)
      → r ≡ at i
      → i < object_count
      → {recurse : Marked → Ref → Option Marked}
        (p : Pushed contents object_count recurse (update m i true) (pushed (contents i)) stack)
      → Marks contents object_count p.marked (λ x. In x (followed (contents i) ++ p.stack_after)) m'
      → Marks contents object_count m (λ x. In x (r ∷ stack)) m'
  object_done m m' r i stack same lt p marks =
      Marks-change contents object_count m m' _ _
        (λ j q lt'. elim q [
          | inl e ↦ root j (inl (e ∙ sym same)) lt'
          | inr later ↦ root j (inr later) lt'
        ])
        (λ x q. object.roots x (elim q [ inl e ↦ inl (e ∙ same) | inr later ↦ inr later ])) object
    where
      next : List Ref
      next = followed (contents i) ++ p.stack_after

      up : (x : Ref) → p.Nested x ⊎ In x next → In x (children (contents i)) ⊎ In x stack
      up x (inl n) =
          inl (In-append_left x (pushed (contents i)) (followed (contents i)) (p.nested_inside x n))
      up x (inr n) = elim (In-append_cases x (followed (contents i)) p.stack_after n) [
        | inl f ↦ inl (In-append_right x (pushed (contents i)) (followed (contents i)) f)
        | inr s ↦ elim (p.stack_inside x s) [
          | inl q ↦ inl (In-append_left x (pushed (contents i)) (followed (contents i)) q)
          | inr s' ↦ inr s'
        ]
      ]

      stacked : (x : Ref) → p.Nested x ⊎ In x p.stack_after → p.Nested x ⊎ In x next
      stacked x (inl n) = inl n
      stacked x (inr s) = inr (In-append_right x (followed (contents i)) p.stack_after s)

      down : (x : Ref) → In x (children (contents i)) ⊎ In x stack → p.Nested x ⊎ In x next
      down x (inr s) = stacked x (p.covers x (inr s))
      down x (inl c) = elim (In-append_cases x (pushed (contents i)) (followed (contents i)) c) [
        | inl q ↦ stacked x (p.covers x (inl q))
        | inr f ↦ inr (In-append_left x (followed (contents i)) p.stack_after f)
      ]

      whole : Marks contents object_count (update m i true) (λ x. p.Nested x ⊎ In x next) m'
      whole =
          Marks-then contents object_count (update m i true) p.marked m' p.Nested (λ x. In x next)
            p.marks marks

      object : Marks contents object_count m (λ x. (x ≡ at i) ⊎ In x stack) m'
      object =
          Marks-object contents object_count m m' i (λ x. In x stack) lt
            (Marks-change contents object_count (update m i true) m' _ _
              (λ j n lt'. root j (up (at j) n) lt') (λ x q. whole.roots x (down x q)) whole)

  single :
      (m m' : Marked) (x : Ref)
      → Marks contents object_count m (λ r. In r (x ∷ [])) m'
      → Marks contents object_count m (λ r. r ≡ x) m'
  single m m' x marks =
      Marks-change contents object_count m m' _ _
        (λ i q lt. elim q [ inl e ↦ root i e lt | inr none_left ↦ absurd none_left ])
        (λ r e. marks.roots r (inl e)) marks

  -- With more fuel than there are pointers left, the loop ends.
  mark_loop-Marks :
      (fuel : ℕ) (m : Marked) (pending : List Ref)
      → weight contents m object_count + length pending < fuel
      → (m' : Marked) × (loop fuel m pending ≡ some m')
        × Marks contents object_count m (λ r. In r pending) m'
  unfolding mark_loop
  mark_loop-Marks zero m pending enough = absurd (omega (arith, enough))
  mark_loop-Marks (suc fuel) m [] enough =
      (m, refl, Marks-none contents object_count m _ (λ r n. n))
  mark_loop-Marks (suc fuel) m (r ∷ stack) enough = elim (Option-cases (visit object_count m r)) [
    | inl e ↦
        let (m', eq, marks) = mark_loop-Marks fuel m stack (omega (arith, enough)) in
        (
          m',
          loop_skip fuel m r stack e ∙ eq,
          Marks-change contents object_count m m' _ _ (λ i p lt. root i (inr p) lt)
              (λ x q. elim q [
                | inl same ↦ λ i here. visit-none m m' r e marks.keeps i (sym same ∙ here)
                | inr p ↦ marks.roots x p
              ])
              marks,
        )
    | inr (i, e) ↦
        let (same, lt, fresh) = visit-some m r i e in
        let less = weight-update contents m object_count i lt fresh in
        let size = length-append (pushed (contents i)) (followed (contents i)) in
        let p =
          push_all-Pushed contents object_count (recursion fuel) fuel
            (λ m₁ x enough₁.
              let (m₂, eq₁, marks₁) = mark_loop-Marks fuel m₁ (x ∷ []) (omega (arith, enough₁)) in
              (m₂, eq₁, single m₁ m₂ x marks₁))
            (update m i true) (pushed (contents i)) stack (omega (arith, enough, less, size)) in
        let (m', eq, marks) =
          mark_loop-Marks fuel p.marked (followed (contents i) ++ p.stack_after) (
            omega (
              arith,
              enough,
              less,
              size,
              p.shorter,
              length-append (followed (contents i)) p.stack_after,
              weight-le contents (update m i true) p.marked object_count p.marks.keeps,
            )) in
        (
          m',
          loop_object fuel m r stack i p.marked p.stack_after e p.found ∙ eq,
          object_done m m' r i stack same lt p marks,
        )
  ]

  pub fe_mark-Marks :
      (fuel : ℕ) (m : Marked) (obj : Ref)
      → weight contents m object_count + 1 < fuel
      → (m' : Marked) × (fe_mark contents object_count fuel m obj ≡ some m')
        × Marks contents object_count m (λ r. r ≡ obj) m'
  unfolding fe_mark
  fe_mark-Marks fuel m obj enough =
      let (m', eq, marks) = mark_loop-Marks fuel m (obj ∷ []) (omega (arith, enough)) in
      (m', eq, single m m' obj marks)

  pub mark_roots-Marks :
      (fuel : ℕ) (m : Marked) (rs : List Ref)
      → weight contents m object_count + 1 < fuel
      → (m' : Marked) × (mark_roots contents object_count fuel m rs ≡ some m')
        × Marks contents object_count m (λ r. In r rs) m'
  unfolding mark_roots
  mark_roots-Marks fuel m [] enough = (m, refl, Marks-none contents object_count m _ (λ r n. n))
  mark_roots-Marks fuel m (r ∷ rs) enough =
      let (m₁, eq₁, marks₁) = fe_mark-Marks fuel m r enough in
      let (m₂, eq₂, marks₂) =
        mark_roots-Marks fuel m₁ rs
          (omega (arith, enough, weight-le contents m m₁ object_count marks₁.keeps)) in
      (
        m₂,
        ap (λ o. and_then o (λ m'. mark_roots contents object_count fuel m' rs)) eq₁ ∙ eq₂,
        Marks-then contents object_count m m₁ m₂ _ _ marks₁ marks₂,
      )

-- On unmarked objects, with more fuel than they and their pointers need, fe_mark ends, and marks
-- exactly the objects of the arena that are reachable from its argument, whatever falls to its
-- stack of 256 entries or to the recursion behind it.
pub fe_mark_lem :
    (contents : ℕ → Content) (object_count fuel : ℕ) (m : Marked) (obj : Ref)
    → Unmarked m
    → weight contents m object_count + 1 < fuel
    → (m' : Marked) × (fe_mark contents object_count fuel m obj ≡ some m')
      × ((i : ℕ) → (m' i ≡ true) ↔ Reach contents object_count (λ r. r ≡ obj) i)
fe_mark_lem contents object_count fuel m obj clear enough =
    let (m', eq, marks) = fe_mark-Marks contents object_count fuel m obj enough in
    (
      m',
      eq,
      λ i. (
        Marks-exact contents object_count m m' _ clear marks i,
        Marks-complete contents object_count m m' _ clear marks i,
      ),
    )
