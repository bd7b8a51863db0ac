-- ===== src/Heap/Cons.antt =====
-- fe_cons on a valid heap.
use fex.Common.{
  ℕ, ◌<◌, ◌≡◌, refl, sym, ◌∙◌, ap, ◌≢◌, ◌⊎◌, inl, inr, true, false, List, [], ◌∷◌, ◌++◌, some, ◌==◌,
  ==→eq, update, length, arith, Bool-cases,
}
use mathlib.Core.Path.{subst}
use mathlib.Core.Bool.{true≢false}
use fex.Heap.{
  Ref, at, Content, pair, Heap, is_free, and_then, gc_roots, Allocation, allocated, out_of_memory,
  gc_stack_overflow, write_pair, fe_cons, gc_stack_size,
}
use fex.Heap.Marks.{In, In-append_left, In-append_right, In-append_cases, root, child, children}
use fex.Heap.FreeList.{Linked, Listed}
use fex.Heap.Collect.{Live, IsValid, Enough}
use fex.Heap.Allocate.{Allocated, Fits, at_path, object-Fits}

-- A pointer that may be stored: it leads to no object of the arena, or to one that is in use.
abbrev pub Safe : Heap → Ref → Type 0
Safe h r = (j : ℕ) → r ≡ at j → j < h.object_count → Live h j

paired : Heap → ℕ → Ref → Ref → Heap
paired h' i car cdr = record h' {
  contents = update h'.contents i (pair car cdr);
  marked = update h'.marked i false;
}

update_other :
    (contents : ℕ → Content) (i j : ℕ) (v : Content) → j ≢ i → update contents i v j ≡ contents j
update_other contents i j v other = elim (Bool-cases (i == j)) [
  | inl e ↦ absurd (other (sym (==→eq i j e)))
  | inr e ↦ rw e refl
]

update_same : (contents : ℕ → Content) (i : ℕ) (v : Content) → update contents i v i ≡ v
update_same contents i v = ground arith

Linked-write :
    (contents : ℕ → Content) (i : ℕ) (v : Content) (r : Ref) (l : List ℕ)
    → ¬ Listed i l
    → Linked contents r l
    → Linked (update contents i v) r l
Linked-write contents i v r [] out linked = linked
Linked-write contents i v r (x ∷ l) out (e, next, here, rest) = (
  e,
  next,
  update_other contents i x v (λ same. out (inl (sym same))) ∙ here,
  Linked-write contents i v next l (λ later. out (inr later)) rest,
)

module _ (h h' : Heap) (i : ℕ) (car cdr : Ref) (valid : IsValid h) (safe_car : Safe h car)
    (safe_cdr : Safe h cdr) (a : Allocated h h' i) where
  new : Heap
  new = paired h' i car cdr

  Live-contents : (j : ℕ) → Live h j → new.contents j ≡ h.contents j
  unfolding new paired
  Live-contents j live =
      update_other h'.contents i j (pair car cdr) (λ same. a.dead (subst (Live h) same live))
      ∙ a.kept j live

  root_cases : (j : ℕ) → In (at j) (gc_roots new) → (j ≡ i) ⊎ In (at j) (gc_roots h)
  unfolding new paired
  root_cases j here =
      elim (In-append_cases (at j) h'.gcstack
        (h'.modulestack ∷ h'.symlist ∷ h'.loaded_module_values) here) [
          | inl g ↦
              elim (In-append_cases (at j) h.gcstack (at i ∷ []) (subst (In (at j)) a.gcstack g)) [
                | inl old ↦ inr (In-append_left (at j) h.gcstack _ old)
                | inr last ↦ elim last [
                  | inl e ↦ inl (at_path j i e)
                  | inr nothing ↦ absurd nothing
                ]
              ]
          | inr rest ↦ inr (In-append_right (at j) h.gcstack _ (others rest))
        ]
    where
      others :
          In (at j) (h'.modulestack ∷ h'.symlist ∷ h'.loaded_module_values)
          → In (at j) (h.modulestack ∷ h.symlist ∷ h.loaded_module_values)
      others (inl e) = inl (e ∙ a.modulestack)
      others (inr (inl e)) = inr (inl (e ∙ a.symlist))
      others (inr (inr later)) = inr (inr (subst (In (at j)) a.loaded_module_values later))

  -- Nothing becomes reachable but the new pair.
  Live-cases : (j : ℕ) → Live new j → (j ≡ i) ⊎ Live h j
  unfolding new paired
  Live-cases j (root j' here lt) = elim (root_cases j here) [
    | inl same ↦ inl same
    | inr old ↦ inr (root j old (omega (arith, lt, a.object_count)))
  ]
  Live-cases j (child k j' reach c lt) = elim (Live-cases k reach) [
    | inl same ↦ inr (
        parts (
          subst (λ v. In (at j) (children v))
            (ap new.contents same ∙ update_same h'.contents i (pair car cdr)) c))
    | inr live ↦ inr (
        child k j live (subst (λ v. In (at j) (children v)) (Live-contents k live) c)
          (omega (arith, lt, a.object_count)))
  ]
    where
      lt' : j < h.object_count
      lt' = omega (arith, lt, a.object_count)

      parts : In (at j) (car ∷ cdr ∷ []) → Live h j
      parts (inl e) = safe_car j (sym e) lt'
      parts (inr (inl e)) = safe_cdr j (sym e) lt'
      parts (inr (inr nothing)) = absurd nothing

  new_free : (j : ℕ) → is_free (new.contents j) ≡ true → (j ≢ i) × (is_free (h'.contents j) ≡ true)
  unfolding new paired
  new_free j f = elim (Bool-cases (i == j)) [
    | inl e ↦ absurd (
        true≢false (
          sym f
          ∙ ap is_free
              (ap new.contents (sym (==→eq i j e)) ∙ update_same h'.contents i (pair car cdr))))
    | inr e ↦
        (differs e, ap is_free (sym (update_other h'.contents i j (pair car cdr) (differs e))) ∙ f)
  ]
    where
      differs : (i == j) ≡ false → j ≢ i
      differs e same = ground (arith, e, same)

  new-IsValid : IsValid new
  unfolding new paired
  new-IsValid = record {
    clear = λ j. elim (Bool-cases (i == j)) [ inl e ↦ rw e refl | inr e ↦ rw e (a.clear j) ];
    list = record {
      chain = a.chain;
      linked = Linked-write h'.contents i (pair car cdr) h'.freelist a.chain a.taken a.linked;
      covers = λ j lt f.
          let (differs, f') = new_free j f in
          elim (a.covers j (omega (arith, lt, a.object_count)) f') [
            | inl same ↦ absurd (differs same)
            | inr listed ↦ listed
          ];
      inside = λ j listed. omega (arith, a.inside j listed, a.object_count);
      distinct = a.distinct;
    };
    no_dangling = λ j live. elim (Live-cases j live) [
      | inl same ↦ ap is_free (ap new.contents same ∙ update_same h'.contents i (pair car cdr))
      | inr old ↦ ap is_free (Live-contents j old) ∙ valid.no_dangling j old
    ];
  }

-- The heap after fe_cons: the new pair is a root of its own, and all that was in use is as before.
pub record Consed (h h' : Heap) (car cdr : Ref) (i : ℕ) : Type 0 where
  pub valid : IsValid h'
  pub fresh : ¬ Live h i
  pub stored : h'.contents i ≡ pair car cdr
  pub kept : (j : ℕ) → Live h j → h'.contents j ≡ h.contents j
  pub only : (j : ℕ) → Live h' j → (j ≡ i) ⊎ Live h j
  pub gcstack : h'.gcstack ≡ h.gcstack ++ (at i ∷ [])

abbrev pub ConsFits : Heap → Ref → Ref → Allocation → Type 0
ConsFits h car cdr (allocated h' i) = Consed h h' car cdr i
ConsFits h car cdr (out_of_memory h') = h'.live_count ≡ h.object_count
ConsFits h car cdr (gc_stack_overflow h') = length h.gcstack ≡ gc_stack_size

write_pair-ConsFits :
    (h : Heap) (car cdr : Ref) (a : Allocation)
    → IsValid h
    → Safe h car
    → Safe h cdr
    → Fits h a
    → ConsFits h car cdr (write_pair car cdr a)
unfolding paired new
write_pair-ConsFits h car cdr (allocated h' i) valid safe_car safe_cdr a = record {
  valid = new-IsValid h h' i car cdr valid safe_car safe_cdr a;
  fresh = a.dead;
  stored = update_same h'.contents i (pair car cdr);
  kept = Live-contents h h' i car cdr valid safe_car safe_cdr a;
  only = Live-cases h h' i car cdr valid safe_car safe_cdr a;
  gcstack = a.gcstack;
}
write_pair-ConsFits h car cdr (out_of_memory h') valid safe_car safe_cdr full = full
write_pair-ConsFits h car cdr (gc_stack_overflow h') valid safe_car safe_cdr full = full

-- On a valid heap, with more fuel than unmarked objects and their pointers need, and with two
-- pointers that lead to objects in use or out of the arena, fe_cons gives a result. It is a pair of
-- the two in an object that was not in use; the heap is valid again, what was in use is as before,
-- nothing else has come into use, and the pair is pushed on the stack of roots. Or memory runs out,
-- which happens only when all objects are live, or the stack of roots is full.
pub fe_cons-ConsFits :
    (fuel : ℕ) (h : Heap) (car cdr : Ref)
    → IsValid h
    → Enough fuel h
    → Safe h car
    → Safe h cdr
    → (a : Allocation) × (fe_cons fuel car cdr h ≡ some a) × ConsFits h car cdr a
unfolding fe_cons
fe_cons-ConsFits fuel h car cdr valid enough safe_car safe_cdr =
    let (a, eq, fits) = object-Fits fuel h valid enough in
    (
      write_pair car cdr a,
      ap (λ o. and_then o (λ b. some (write_pair car cdr b))) eq,
      write_pair-ConsFits h car cdr a valid safe_car safe_cdr fits,
    )
