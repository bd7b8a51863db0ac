-- ===== src/Heap/Examples.antt =====
-- The collector and fe_cons on an arena of four objects: a pair that points to a string, an object
-- that nothing points to, and a free object.
use fex.Common.{
  ℕ, zero, suc, ◌<◌, ◌≡◌, ◌↔◌, refl, sym, ap, inl, inr, true, false, [], ◌∷◌, some, arith,
}
use mathlib.Core.Bool.{true≢false}
use mathlib.Core.Path.{subst}
use fex.Heap.{
  immediate, at, Content, pair, string, atom, free, Marked, Heap, is_free, is_immediate,
  collectgarbage, Allocation, fe_cons, fe_mark,
}
use fex.Heap.Marks.{In, Reach, root, child, children}
use fex.Heap.Mark.{fe_mark_lem}
use fex.Heap.FreeList.{Listed}
use fex.Heap.Collect.{Live, IsValid, Collected, collectgarbage-Collected}
use fex.Heap.Cons.{Safe, ConsFits, fe_cons-ConsFits}

abbrev arena : ℕ → Content
arena zero = pair (at 1) immediate
arena (suc zero) = string
arena (suc (suc zero)) = atom
arena (suc (suc (suc n))) = free immediate

abbrev small : Heap
small = record {
  contents = arena;
  marked = λ i. false;
  object_count = 4;
  freelist = at 3;
  gcstack = at 0 ∷ [];
  modulestack = immediate;
  symlist = immediate;
  loaded_module_values = [];
  live_count = 0;
  allocs_since_gc = 1024;
  bytes_since_gc = 0;
  gc_threshold = 1024;
  byte_threshold = 4096;
  gc_runs = 0;
  object_allocations_total = 1024;
}

Live-small : (i : ℕ) → Live small i → i < 2
Live-small i (root i' (inl e) lt) = let same : i ≡ 0 = cc in omega (arith, same)
Live-small i (root i' (inr (inl e)) lt) = absurd (true≢false (sym (ap is_immediate e)))
Live-small i (root i' (inr (inr (inl e))) lt) = absurd (true≢false (sym (ap is_immediate e)))
Live-small i (root i' (inr (inr (inr nothing))) lt) = absurd nothing
Live-small j (child i j' reach c lt) = from i (Live-small i reach) c
  where
    from : (i : ℕ) → i < 2 → In (at j) (children (arena i)) → j < 2
    from zero less (inl e) = let same : j ≡ 1 = cc in omega (arith, same)
    from zero less (inr (inl e)) = absurd (true≢false (sym (ap is_immediate e)))
    from zero less (inr (inr nothing)) = absurd nothing
    from (suc zero) less c = absurd c
    from (suc (suc n)) less c = absurd (omega (arith, less))

small-IsValid : IsValid small
small-IsValid = record {
  clear = λ i. refl;
  list = record {
    chain = 3 ∷ [];
    linked = (refl, immediate, refl, refl);
    covers = covers;
    inside = λ i listed. elim listed [ inl e ↦ omega (arith, e) | inr nothing ↦ absurd nothing ];
    distinct = (λ listed. listed, tt);
  };
  no_dangling = λ i live. used i (Live-small i live);
}
  where
    covers : (i : ℕ) → i < 4 → is_free (arena i) ≡ true → Listed i (3 ∷ [])
    covers zero lt e = absurd (true≢false (sym e))
    covers (suc zero) lt e = absurd (true≢false (sym e))
    covers (suc (suc zero)) lt e = absurd (true≢false (sym e))
    covers (suc (suc (suc n))) lt e = inl (omega (arith, lt))

    used : (i : ℕ) → i < 2 → is_free (arena i) ≡ false
    used zero lt = refl
    used (suc zero) lt = refl
    used (suc (suc n)) lt = absurd (omega (arith, lt))

fe_mark_lem_example :
    (m : Marked) × (fe_mark arena 4 20 (λ i. false) (at 0) ≡ some m)
    × ((i : ℕ) → (m i ≡ true) ↔ Reach arena 4 (λ r. r ≡ at 0) i)
fe_mark_lem_example = fe_mark_lem arena 4 20 (λ i. false) (at 0) (λ i. refl) (omega arith)

collectgarbage-Collected_example :
    (h : Heap) × (collectgarbage 20 small ≡ some h) × Collected small h
collectgarbage-Collected_example = collectgarbage-Collected 20 small small-IsValid (omega arith)

zero_live : Safe small (at 0)
zero_live j e lt =
    let same : 0 ≡ j = cc in subst (Live small) same (root 0 (inl refl) (omega arith))

fe_cons-ConsFits_example :
    (a : Allocation) × (fe_cons 20 (at 0) immediate small ≡ some a)
    × ConsFits small (at 0) immediate a
fe_cons-ConsFits_example =
    fe_cons-ConsFits 20 small (at 0) immediate small-IsValid (omega arith) zero_live
      (λ j e. absurd (true≢false (ap is_immediate e)))
