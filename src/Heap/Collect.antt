-- ===== src/Heap/Collect.antt =====
-- collectgarbage and object on a valid heap.
use fex.Common.{
  ℕ, ◌+◌, ◌*◌, ◌<◌, ◌≤◌, ◌≡◌, refl, ◌∙◌, ap, inl, inr, true, false, some, ltb, count_below, arith,
  Bool-cases,
}
use mathlib.Core.Path.{subst}
use fex.Heap.{
  Marked, Heap, is_free, and_then, sweep, gc_roots, update_thresholds, collectgarbage,
  gc_min_threshold,
}
use fex.Heap.Marks.{In, Marks, Reach, root, child, Unmarked, Marks-complete, Marks-exact}
use fex.Heap.Push.{weight}
use fex.Heap.Mark.{mark_roots-Marks}
use fex.Heap.FreeList.{FreeList}
use fex.Heap.Sweep.{Swept, sweep-Swept, SlotSwept, Counted, Kept}

-- The object is reachable from the roots of the heap.
abbrev pub Live : Heap → ℕ → Type 0
Live h = Reach h.contents h.object_count (λ r. In r (gc_roots h))

-- A heap between collections: no object is marked, and none that is free is reachable.
pub record IsValid (h : Heap) : Type 0 where
  pub clear : Unmarked h.marked
  pub list : FreeList h
  pub no_dangling : (i : ℕ) → Live h i → is_free (h.contents i) ≡ false

abbrev pub Enough : ℕ → Heap → Type 0
Enough fuel h = weight h.contents h.marked h.object_count + 1 < fuel

pub Live-lt : (h : Heap) (i : ℕ) → Live h i → i < h.object_count
Live-lt h i (root i' p lt) = lt
Live-lt h i (child j i' r c lt) = lt

-- The heap after a collection.
pub record Collected (h h' : Heap) : Type 0 where
  pub kept : (i : ℕ) → Live h i → h'.contents i ≡ h.contents i
  pub freed : (i : ℕ) → i < h.object_count → ¬ Live h i → is_free (h'.contents i) ≡ true
  pub clear : Unmarked h'.marked
  pub list : FreeList h'
  pub counted : h'.live_count + count_below is_free h'.contents h.object_count ≡ h.object_count
  pub threshold : (h'.live_count * 2 ≤ h'.gc_threshold) × (gc_min_threshold ≤ h'.gc_threshold)
  pub context : Kept h h'

with_marks : Heap → Marked → Heap
with_marks h m = record h { marked = m; live_count = 0 }

module _ (h : Heap) (valid : IsValid h) (m : Marked)
    (marks : Marks h.contents h.object_count h.marked (λ r. In r (gc_roots h)) m) where
  Live-marked : (i : ℕ) → Live h i → m i ≡ true
  Live-marked = Marks-complete h.contents h.object_count h.marked m _ valid.clear marks

  marked-Live : (i : ℕ) → m i ≡ true → Live h i
  marked-Live = Marks-exact h.contents h.object_count h.marked m _ valid.clear marks

  dead_unmarked : (i : ℕ) → ¬ Live h i → m i ≡ false
  dead_unmarked i dead = elim (Bool-cases (m i)) [
    | inl e ↦ absurd (dead (marked-Live i e))
    | inr e ↦ e
  ]

  swept_clear : (h' : Heap) (i : ℕ) → SlotSwept (with_marks h m) h' i → h'.marked i ≡ false
  unfolding with_marks
  swept_clear h' i s = elim (Bool-cases (m i)) [
    | inl e ↦ (s.live (valid.no_dangling i (marked-Live i e)) e).1
    | inr e ↦ elim (Bool-cases (is_free (h.contents i))) [
      | inl f ↦ (s.was_free f).1 ∙ e
      | inr f ↦ (s.dead f e).1
    ]
  ]

  swept_freed :
      (h' : Heap) (i : ℕ)
      → ¬ Live h i
      → SlotSwept (with_marks h m) h' i
      → is_free (h'.contents i) ≡ true
  unfolding with_marks
  swept_freed h' i dead s = elim (Bool-cases (is_free (h.contents i))) [
    | inl f ↦ ap is_free (s.was_free f).0 ∙ f
    | inr f ↦ (s.dead f (dead_unmarked i dead)).0
  ]

  above_clear : (i : ℕ) → h.object_count ≤ i → m i ≡ false
  above_clear i le = dead_unmarked i (λ live. omega (arith, le, Live-lt h i live))

  marks-Collected :
      (h' : Heap) → Swept h.object_count 0 (with_marks h m) h' → Collected h (update_thresholds h')
  unfolding with_marks
  marks-Collected h' s = record {
    kept = λ i live.
        ((s.swept i (omega arith) (omega (arith, Live-lt h i live))).live (valid.no_dangling i live)
          (Live-marked i live)).0;
    freed = λ i lt dead. swept_freed h' i dead (s.swept i (omega arith) (omega (arith, lt)));
    clear = λ i. elim (Bool-cases (ltb i h.object_count)) [
      | inl lt ↦ swept_clear h' i (s.swept i (omega arith) (ground (arith, lt)))
      | inr ge ↦ (s.above i (ground (arith, ge))).1 ∙ above_clear i (ground (arith, ge))
    ];
    list = record {
      chain = s.list.chain;
      linked = s.list.linked;
      covers = s.list.covers;
      inside = s.list.inside;
      distinct = s.list.distinct;
    };
    counted = subst (λ n. Counted n h') (zero_add h.object_count) s.counted;
    threshold = (ground arith, ground arith);
    context = record {
      object_count = s.kept.object_count;
      gcstack = s.kept.gcstack;
      modulestack = s.kept.modulestack;
      symlist = s.kept.symlist;
      loaded_module_values = s.kept.loaded_module_values;
    };
  }
    where
      zero_add : (n : ℕ) → 0 + n ≡ n
      zero_add n = omega arith

-- On a valid heap, with more fuel than unmarked objects and their pointers need, collectgarbage
-- ends, keeps what is reachable, frees all else, clears the marks, links exactly the free objects,
-- and counts the others as live.
pub collectgarbage-Collected :
    (fuel : ℕ) (h : Heap)
    → IsValid h
    → Enough fuel h
    → (h' : Heap) × (collectgarbage fuel h ≡ some h') × Collected h h'
unfolding collectgarbage with_marks
collectgarbage-Collected fuel h valid enough =
    let (m, eq, marks) =
      mark_roots-Marks h.contents h.object_count fuel h.marked (gc_roots h) enough in
    (
      update_thresholds (sweep h.object_count 0 (with_marks h m)),
      ap
          (λ o.
            and_then o (λ m'. some (update_thresholds (sweep h.object_count 0 (with_marks h m')))))
          eq,
      marks-Collected h valid m marks _
          (sweep-Swept h.object_count 0 (with_marks h m) (omega arith) (list m) refl),
    )
  where
    list : (m : Marked) → FreeList (with_marks h m)
    list m = record {
      chain = valid.list.chain;
      linked = valid.list.linked;
      covers = valid.list.covers;
      inside = valid.list.inside;
      distinct = valid.list.distinct;
    }
