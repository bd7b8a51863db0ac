-- ===== src/Heap/Allocate.antt =====
-- object on a valid heap: what is left free, and what is in use.
use fex.Common.{
  ℕ, zero, suc, ◌+◌, ◌<◌, ◌≡◌, refl, sym, ◌∙◌, ap, ◌⊎◌, inl, inr, Bool, true, false, ◌||◌, List, [],
  ◌∷◌, ◌++◌, some, ◌==◌, ==→eq, count_below, length, arith, Bool-cases,
}
use mathlib.Core.Path.{subst}
use mathlib.Core.Bool.{true≢false}
use fex.Heap.{
  Ref, immediate, at, Content, Heap, is_free, is_immediate, and_then, Allocation, allocated,
  out_of_memory, gc_stack_overflow, take_free, object, wants_collection, gc_stack_size, next_free,
}
use fex.Heap.Marks.{Unmarked}
use fex.Heap.FreeList.{Linked, Listed, Distinct, FreeList, Linked-Listed}
use fex.Heap.Sweep.{Kept, Kept-refl}
use fex.Heap.Collect.{Live, IsValid, Enough, Collected, collectgarbage-Collected}

-- The heap `g` from which an object is taken, after a collection or without one.
pub record Ready (h g : Heap) : Type 0 where
  pub kept : (i : ℕ) → Live h i → g.contents i ≡ h.contents i
  pub clear : Unmarked g.marked
  pub list : FreeList g
  pub context : Kept h g
  pub free_dead : (i : ℕ) → is_free (g.contents i) ≡ true → ¬ Live h i
  pub full : g.freelist ≡ immediate → g.live_count ≡ h.object_count

none_below :
    (contents : ℕ → Content) (n : ℕ)
    → ((i : ℕ) → i < n → is_free (contents i) ≡ false)
    → count_below is_free contents n ≡ 0
none_below contents zero used = refl
none_below contents (suc n) used =
    ground (arith, used n (omega arith), none_below contents n (λ i lt. used i (omega (arith, lt))))

nothing-Listed :
    (contents : ℕ → Content) (chain : List ℕ) (i : ℕ)
    → Linked contents immediate chain
    → ¬ Listed i chain
nothing-Listed contents [] i linked listed = listed
nothing-Listed contents (x ∷ l) i (e, next, here, rest) listed = true≢false (ap is_immediate e)

no_free_left :
    (g : Heap) (n : ℕ)
    → g.object_count ≡ n
    → FreeList g
    → g.freelist ≡ immediate
    → count_below is_free g.contents n ≡ 0
no_free_left g n same list e = none_below g.contents n used
  where
    used : (i : ℕ) → i < n → is_free (g.contents i) ≡ false
    used i lt = elim (Bool-cases (is_free (g.contents i))) [
      | inl f ↦ absurd (
          nothing-Listed g.contents list.chain i
            (subst (λ r. Linked g.contents r list.chain) e list.linked)
            (list.covers i (omega (arith, lt, same)) f))
      | inr f ↦ f
    ]

Collected-Ready : (h g : Heap) → IsValid h → Collected h g → Ready h g
Collected-Ready h g valid c = record {
  kept = c.kept;
  clear = c.clear;
  list = c.list;
  context = c.context;
  free_dead =
      λ i f live. true≢false (sym f ∙ (ap is_free (c.kept i live) ∙ valid.no_dangling i live));
  full =
      λ e. omega (arith, c.counted, no_free_left g h.object_count c.context.object_count c.list e);
}

now-Ready : (h : Heap) → IsValid h → is_immediate h.freelist ≡ false → Ready h h
now-Ready h valid some_free = record {
  kept = λ i live. refl;
  clear = valid.clear;
  list = valid.list;
  context = Kept-refl h;
  free_dead = λ i f live. true≢false (sym f ∙ valid.no_dangling i live);
  full = λ e. absurd (true≢false (sym (ap is_immediate e) ∙ some_free));
}

-- The object `i` was not in use, and is in use in `h'` as a root. The free list holds the other
-- free objects.
pub record Allocated (h h' : Heap) (i : ℕ) : Type 0 where
  pub lt : i < h.object_count
  pub dead : ¬ Live h i
  pub kept : (j : ℕ) → Live h j → h'.contents j ≡ h.contents j
  pub clear : Unmarked h'.marked
  pub object_count : h'.object_count ≡ h.object_count
  pub gcstack : h'.gcstack ≡ h.gcstack ++ (at i ∷ [])
  pub modulestack : h'.modulestack ≡ h.modulestack
  pub symlist : h'.symlist ≡ h.symlist
  pub loaded_module_values : h'.loaded_module_values ≡ h.loaded_module_values
  pub chain : List ℕ
  pub linked : Linked h'.contents h'.freelist chain
  pub distinct : Distinct chain
  pub taken : ¬ Listed i chain
  pub covers :
      (j : ℕ) → j < h.object_count → is_free (h'.contents j) ≡ true → (j ≡ i) ⊎ Listed j chain
  pub inside : (j : ℕ) → Listed j chain → j < h.object_count

-- What an allocation comes to: memory runs out only if all objects are live, the stack of roots
-- only if it is full.
abbrev pub Fits : Heap → Allocation → Type 0
Fits h (allocated h' i) = Allocated h h' i
Fits h (out_of_memory h') = h'.live_count ≡ h.object_count
Fits h (gc_stack_overflow h') = length h.gcstack ≡ gc_stack_size

abbrev popped : Heap → ℕ → Heap
popped g i = record g {
  freelist = next_free (g.contents i);
  allocs_since_gc = g.allocs_since_gc + 1;
  object_allocations_total = g.object_allocations_total + 1;
}

abbrev rooted : Heap → ℕ → Heap
rooted g i = record (popped g i) { gcstack = g.gcstack ++ (at i ∷ []) }

take_free_none : (g : Heap) → g.freelist ≡ immediate → take_free g ≡ out_of_memory g
unfolding take_free
take_free_none g e = rw e refl

take_free_full :
    (g : Heap) (i : ℕ)
    → g.freelist ≡ at i
    → (length g.gcstack == gc_stack_size) ≡ true
    → take_free g ≡ gc_stack_overflow (popped g i)
unfolding take_free
take_free_full g i e full = rw (e, full) refl

take_free_some :
    (g : Heap) (i : ℕ)
    → g.freelist ≡ at i
    → (length g.gcstack == gc_stack_size) ≡ false
    → take_free g ≡ allocated (rooted g i) i
unfolding take_free
take_free_some g i e room = rw (e, room) refl

pub at_path : (x y : ℕ) → at x ≡ at y → x ≡ y
at_path x y e = cc

rooted-Allocated : (h g : Heap) (i : ℕ) → Ready h g → g.freelist ≡ at i → Allocated h (rooted g i) i
rooted-Allocated h g i ready e = from ready.list.chain refl
  where
    from : (l : List ℕ) → ready.list.chain ≡ l → Allocated h (rooted g i) i
    from [] e' = absurd (
        true≢false (
          sym (ap is_immediate (subst (λ l. Linked g.contents g.freelist l) e' ready.list.linked))
          ∙ ap is_immediate e))
    from (x ∷ l) e' =
        let (first, next, here, rest) =
          subst (λ l. Linked g.contents g.freelist l) e' ready.list.linked in
        let same : x ≡ i = at_path x i (sym first ∙ e) in
        let listed : Listed i ready.list.chain =
          subst (λ l. Listed i l) (sym e') (inl (sym same)) in
        let (new, others) = subst Distinct e' ready.list.distinct in
        record {
          lt = omega (arith, ready.list.inside i listed, ready.context.object_count);
          dead =
              ready.free_dead i
                (Linked-Listed g.contents g.freelist ready.list.chain i ready.list.linked listed);
          kept = ready.kept;
          clear = ready.clear;
          object_count = ready.context.object_count;
          gcstack = ap (λ s. s ++ (at i ∷ [])) ready.context.gcstack;
          modulestack = ready.context.modulestack;
          symlist = ready.context.symlist;
          loaded_module_values = ready.context.loaded_module_values;
          chain = l;
          linked =
              subst (λ r. Linked g.contents r l)
                (sym (ap next_free (ap g.contents (sym same) ∙ here))) rest;
          distinct = others;
          taken = subst (λ k. ¬ Listed k l) same new;
          covers = λ j lt f.
              elim (subst (λ l. Listed j l) e'
                (ready.list.covers j (omega (arith, lt, ready.context.object_count)) f)) [
                  | inl first' ↦ inl (first' ∙ same)
                  | inr later ↦ inr later
                ];
          inside = λ j later. omega (
            arith,
            ready.list.inside j (subst (λ l. Listed j l) (sym e') (inr later)),
            ready.context.object_count,
          );
        }

take_free-Fits : (h g : Heap) → Ready h g → Fits h (take_free g)
take_free-Fits h g ready = from g.freelist refl
  where
    from : (r : Ref) → g.freelist ≡ r → Fits h (take_free g)
    from immediate e = subst (Fits h) (sym (take_free_none g e)) (ready.full e)
    from (at i) e = elim (Bool-cases (length g.gcstack == gc_stack_size)) [
      | inl full ↦
          subst (Fits h) (sym (take_free_full g i e full))
            (ap length (sym ready.context.gcstack) ∙ ==→eq _ _ full)
      | inr room ↦ subst (Fits h) (sym (take_free_some g i e room)) (rooted-Allocated h g i ready e)
    ]

-- object gives a result with enough fuel, and the result fits.
pub object-Fits :
    (fuel : ℕ) (h : Heap)
    → IsValid h
    → Enough fuel h
    → (a : Allocation) × (object fuel h ≡ some a) × Fits h a
unfolding object
object-Fits fuel h valid enough = elim (Bool-cases (wants_collection h)) [
  | inl wants ↦
      let (g, eq, c) = collectgarbage-Collected fuel h valid enough in
      (
        take_free g,
        rw wants (ap (λ o. and_then o (λ h'. some (take_free h'))) eq),
        take_free-Fits h g (Collected-Ready h g valid c),
      )
  | inr wants_not ↦ (
    take_free h,
    rw wants_not refl,
    take_free-Fits h h (now-Ready h valid (or_right _ _ (or_right _ _ wants_not))),
  )
]
  where
    or_right : (a b : Bool) → (a || b) ≡ false → b ≡ false
    or_right true b e = cc
    or_right false b e = e
