-- ===== src/Heap/Sweep.antt =====
-- The sweep of collectgarbage: what it does to each object, to the free list and to the counts.
use fex.Common.{
  ℕ, zero, suc, ◌+◌, ◌<◌, ◌≤◌, ◌≡◌, refl, sym, ◌∙◌, ap, ◌≢◌, inl, inr, true, false, ◌∷◌, ◌==◌,
  ==→eq, update, count_below, count_below-update_above, arith, Bool-cases,
}
use mathlib.Core.Path.{subst}
use mathlib.Core.Bool.{true≢false}
use fex.Heap.{at, free, Heap, is_free, sweep_at, sweep}
use fex.Heap.FreeList.{FreeList, Linked-update, Linked-Listed}

-- What the sweep has made of one object.
pub record SlotSwept (h h' : Heap) (j : ℕ) : Type 0 where
  pub was_free :
      is_free (h.contents j) ≡ true → (h'.contents j ≡ h.contents j) × (h'.marked j ≡ h.marked j)
  pub live :
      is_free (h.contents j) ≡ false
      → h.marked j ≡ true
      → (h'.contents j ≡ h.contents j) × (h'.marked j ≡ false)
  pub dead :
      is_free (h.contents j) ≡ false
      → h.marked j ≡ false
      → (is_free (h'.contents j) ≡ true) × (h'.marked j ≡ false)

abbrev pub Same : Heap → Heap → ℕ → Type 0
Same h h' j = (h'.contents j ≡ h.contents j) × (h'.marked j ≡ h.marked j)

pub sweep_at-FreeList :
    (i : ℕ) (h : Heap) → i < h.object_count → FreeList h → FreeList (sweep_at i h)
unfolding sweep_at
sweep_at-FreeList i h lt list = elim (Bool-cases (is_free (h.contents i))) [
  | inl e ↦ rw e list
  | inr used ↦ elim (Bool-cases (h.marked i)) [
    | inl marked ↦
        rw (used, marked)
          record {
            chain = list.chain;
            linked = list.linked;
            covers = list.covers;
            inside = list.inside;
            distinct = list.distinct;
          }
    | inr unmarked ↦
        rw (used, unmarked)
          record {
            chain = i ∷ list.chain;
            linked = (
              refl,
              h.freelist,
              ground arith,
              Linked-update h.contents i (free h.freelist) h.freelist list.chain used list.linked,
            );
            covers = λ j lt' e. elim (Bool-cases (i == j)) [
              | inl same ↦ inl (sym (==→eq i j same))
              | inr other ↦ inr (list.covers j lt' (old j other e))
            ];
            inside = λ j listed. elim listed [
              | inl same ↦ omega (arith, same, lt)
              | inr later ↦ list.inside j later
            ];
            distinct = (
              λ listed. true≢false (
                  sym (Linked-Listed h.contents h.freelist list.chain i list.linked listed) ∙ used),
              list.distinct,
            );
          }
  ]
]
  where
    old :
        (j : ℕ)
        → (i == j) ≡ false
        → is_free (update h.contents i (free h.freelist) j) ≡ true
        → is_free (h.contents j) ≡ true
    old j other e = ground (arith, other, e)

pub sweep_at-here : (i : ℕ) (h : Heap) → SlotSwept h (sweep_at i h) i
unfolding sweep_at
sweep_at-here i h = elim (Bool-cases (is_free (h.contents i))) [
  | inl e ↦ rw e record {
    was_free = λ e'. (refl, refl);
    live = λ e'. absurd (true≢false (sym e ∙ e'));
    dead = λ e'. absurd (true≢false (sym e ∙ e'));
  }
  | inr used ↦ elim (Bool-cases (h.marked i)) [
    | inl marked ↦
        rw (used, marked)
          record {
            was_free = λ e'. absurd (true≢false (sym e' ∙ used));
            live = λ e' m'. (refl, ground arith);
            dead = λ e' m'. absurd (true≢false (sym marked ∙ m'));
          }
    | inr unmarked ↦
        rw (used, unmarked)
          record {
            was_free = λ e'. absurd (true≢false (sym e' ∙ used));
            live = λ e' m'. absurd (true≢false (sym m' ∙ unmarked));
            dead = λ e' m'. (ground arith, unmarked);
          }
  ]
]

pub sweep_at-there : (i : ℕ) (h : Heap) (j : ℕ) → (i == j) ≡ false → Same h (sweep_at i h) j
unfolding sweep_at
sweep_at-there i h j other = elim (Bool-cases (is_free (h.contents i))) [
  | inl e ↦ rw e (refl, refl)
  | inr used ↦ elim (Bool-cases (h.marked i)) [
    | inl marked ↦ rw (used, marked) (refl, ground (arith, other))
    | inr unmarked ↦ rw (used, unmarked) (ground (arith, other), refl)
  ]
]

SlotSwept-then : (h₁ h₂ h₃ : Heap) (j : ℕ) → SlotSwept h₁ h₂ j → Same h₂ h₃ j → SlotSwept h₁ h₃ j
SlotSwept-then h₁ h₂ h₃ j s (c, m) = record {
  was_free = λ e. (c ∙ (s.was_free e).0, m ∙ (s.was_free e).1);
  live = λ e e'. (c ∙ (s.live e e').0, m ∙ (s.live e e').1);
  dead = λ e e'. (ap is_free c ∙ (s.dead e e').0, m ∙ (s.dead e e').1);
}

SlotSwept-after : (h₁ h₂ h₃ : Heap) (j : ℕ) → Same h₁ h₂ j → SlotSwept h₂ h₃ j → SlotSwept h₁ h₃ j
SlotSwept-after h₁ h₂ h₃ j (c, m) s = record {
  was_free = λ e. let t = s.was_free (ap is_free c ∙ e) in (t.0 ∙ c, t.1 ∙ m);
  live = λ e e'. let t = s.live (ap is_free c ∙ e) (m ∙ e') in (t.0 ∙ c, t.1);
  dead = λ e e'. s.dead (ap is_free c ∙ e) (m ∙ e');
}

-- The live objects and the free ones below `i` are all objects below `i`.
abbrev pub Counted : ℕ → Heap → Type 0
Counted i h = h.live_count + count_below is_free h.contents i ≡ i

sweep_at_free : (i : ℕ) (h : Heap) → is_free (h.contents i) ≡ true → sweep_at i h ≡ h
unfolding sweep_at
sweep_at_free i h e = rw e refl

sweep_at_live :
    (i : ℕ) (h : Heap)
    → is_free (h.contents i) ≡ false
    → h.marked i ≡ true
    → sweep_at i h ≡ record h { marked = update h.marked i false; live_count = h.live_count + 1 }
unfolding sweep_at
sweep_at_live i h used marked = rw (used, marked) refl

sweep_at_dead :
    (i : ℕ) (h : Heap)
    → is_free (h.contents i) ≡ false
    → h.marked i ≡ false
    → sweep_at i h ≡ record h { contents = update h.contents i (free h.freelist); freelist = at i }
unfolding sweep_at
sweep_at_dead i h used unmarked = rw (used, unmarked) refl

sweep_at-Counted-suc : (i : ℕ) (h : Heap) → Counted i h → Counted (suc i) (sweep_at i h)
sweep_at-Counted-suc i h counted = elim (Bool-cases (is_free (h.contents i))) [
  | inl e ↦
      subst (λ h'. Counted (suc i) h') (sym (sweep_at_free i h e)) (ground (arith, counted, e))
  | inr used ↦ elim (Bool-cases (h.marked i)) [
    | inl marked ↦
        subst (λ h'. Counted (suc i) h') (sym (sweep_at_live i h used marked))
          (ground (arith, counted, used))
    | inr unmarked ↦
        subst (λ h'. Counted (suc i) h') (sym (sweep_at_dead i h used unmarked))
          (ground
            (arith, counted, count_below-update_above is_free h.contents i i (free h.freelist)))
  ]
]

suc_one : (i : ℕ) → suc i ≡ i + 1
suc_one i = omega arith

sweep_at-Counted : (i : ℕ) (h : Heap) → Counted i h → Counted (i + 1) (sweep_at i h)
sweep_at-Counted i h counted =
    subst (λ n. Counted n (sweep_at i h)) (suc_one i) (sweep_at-Counted-suc i h counted)

-- The sweep keeps what the collector does not own.
pub record Kept (h h' : Heap) : Type 0 where
  pub object_count : h'.object_count ≡ h.object_count
  pub gcstack : h'.gcstack ≡ h.gcstack
  pub modulestack : h'.modulestack ≡ h.modulestack
  pub symlist : h'.symlist ≡ h.symlist
  pub loaded_module_values : h'.loaded_module_values ≡ h.loaded_module_values

pub Kept-refl : (h : Heap) → Kept h h
Kept-refl h = record {
  object_count = refl;
  gcstack = refl;
  modulestack = refl;
  symlist = refl;
  loaded_module_values = refl;
}

sweep_at-Kept : (i : ℕ) (h : Heap) → Kept h (sweep_at i h)
sweep_at-Kept i h = elim (Bool-cases (is_free (h.contents i))) [
  | inl e ↦ subst (λ h'. Kept h h') (sym (sweep_at_free i h e)) (Kept-refl h)
  | inr used ↦ elim (Bool-cases (h.marked i)) [
    | inl marked ↦
        subst (λ h'. Kept h h') (sym (sweep_at_live i h used marked))
          record {
            object_count = refl;
            gcstack = refl;
            modulestack = refl;
            symlist = refl;
            loaded_module_values = refl;
          }
    | inr unmarked ↦
        subst (λ h'. Kept h h') (sym (sweep_at_dead i h used unmarked))
          record {
            object_count = refl;
            gcstack = refl;
            modulestack = refl;
            symlist = refl;
            loaded_module_values = refl;
          }
  ]
]

pub record Swept (rounds i : ℕ) (h h' : Heap) : Type 0 where
  pub below : (j : ℕ) → j < i → Same h h' j
  pub above : (j : ℕ) → i + rounds ≤ j → Same h h' j
  pub swept : (j : ℕ) → i ≤ j → j < i + rounds → SlotSwept h h' j
  pub list : FreeList h'
  pub counted : Counted (i + rounds) h'
  pub kept : Kept h h'

add_zero : (i : ℕ) → i ≡ i + 0
add_zero i = omega arith

pub sweep-Swept :
    (rounds i : ℕ) (h : Heap)
    → i + rounds ≤ h.object_count
    → FreeList h
    → Counted i h
    → Swept rounds i h (sweep rounds i h)
unfolding sweep
sweep-Swept zero i h le list counted = record {
  below = λ j lt. (refl, refl);
  above = λ j le'. (refl, refl);
  swept = λ j le' lt. absurd (omega (arith, le', lt));
  list = list;
  counted = subst (λ n. Counted n h) (add_zero i) counted;
  kept = Kept-refl _;
}
sweep-Swept (suc rounds) i h le list counted =
    let k = sweep_at-Kept i h in
    let s =
      sweep-Swept rounds (i + 1) (sweep_at i h) (omega (arith, le, k.object_count))
        (sweep_at-FreeList i h (omega (arith, le)) list) (sweep_at-Counted i h counted) in
    record {
      below = λ j lt. together j (ne j (omega (arith, lt))) (s.below j (omega (arith, lt)));
      above = λ j le'. together j (ne j (omega (arith, le'))) (s.above j (omega (arith, le')));
      swept = λ j le' lt. elim (Bool-cases (i == j)) [
        | inl same ↦
            subst (λ k. SlotSwept h (sweep rounds (i + 1) (sweep_at i h)) k) (==→eq i j same)
              (SlotSwept-then h (sweep_at i h) _ i (sweep_at-here i h) (s.below i (omega arith)))
        | inr other ↦
            SlotSwept-after h (sweep_at i h) _ j (sweep_at-there i h j other)
              (s.swept j (ground (arith, other, le')) (omega (arith, lt)))
      ];
      list = s.list;
      counted =
          subst (λ n. Counted n (sweep rounds (i + 1) (sweep_at i h))) (shift i rounds) s.counted;
      kept = record {
        object_count = s.kept.object_count ∙ k.object_count;
        gcstack = s.kept.gcstack ∙ k.gcstack;
        modulestack = s.kept.modulestack ∙ k.modulestack;
        symlist = s.kept.symlist ∙ k.symlist;
        loaded_module_values = s.kept.loaded_module_values ∙ k.loaded_module_values;
      };
    }
  where
    shift : (i rounds : ℕ) → i + 1 + rounds ≡ i + suc rounds
    shift i rounds = omega arith

    ne : (j : ℕ) → i ≢ j → (i == j) ≡ false
    ne j differs = elim (Bool-cases (i == j)) [
      | inl same ↦ absurd (differs (==→eq i j same))
      | inr e ↦ e
    ]

    together :
        (j : ℕ)
        → (i == j) ≡ false
        → Same (sweep_at i h) (sweep rounds (i + 1) (sweep_at i h)) j
        → Same h (sweep rounds (i + 1) (sweep_at i h)) j
    together j other (c, m) = let (c', m') = sweep_at-there i h j other in (c ∙ c', m ∙ m')
