-- ===== src/Heap/FreeList.antt =====
-- The free list of the arena, which runs through the cdr of the free objects.
use fex.Common.{
  ℕ, ◌<◌, ◌≡◌, sym, ◌∙◌, ap, ◌⊎◌, inl, inr, true, false, List, [], ◌∷◌, ◌==◌, ==→eq, update,
  Bool-cases,
}
use mathlib.Core.Path.{subst}
use mathlib.Core.Bool.{true≢false}
use fex.Heap.{Ref, immediate, at, Content, free, Heap, is_free}

-- The free list from `r` on links the objects of the list.
abbrev pub Linked : (ℕ → Content) → Ref → List ℕ → Type 0
Linked contents r [] = r ≡ immediate
Linked contents r (i ∷ l) =
    (r ≡ at i) × (next : Ref) × (contents i ≡ free next) × Linked contents next l

abbrev pub Listed : ℕ → List ℕ → Type 0
Listed i [] = ⊥
Listed i (x ∷ l) = (i ≡ x) ⊎ Listed i l

abbrev pub Distinct : List ℕ → Type 0
Distinct [] = Unit
Distinct (x ∷ l) = ¬ Listed x l × Distinct l

pub Linked-Listed :
    (contents : ℕ → Content) (r : Ref) (l : List ℕ) (i : ℕ)
    → Linked contents r l
    → Listed i l
    → is_free (contents i) ≡ true
Linked-Listed contents r [] i linked listed = absurd listed
Linked-Listed contents r (x ∷ l) i (e, next, here, rest) (inl same) =
    subst (λ k. is_free (contents k) ≡ true) (sym same) (ap is_free here)
Linked-Listed contents r (x ∷ l) i (e, next, here, rest) (inr later) =
    Linked-Listed contents next l i rest later

-- The free list holds exactly the free objects of the arena.
pub record FreeList (h : Heap) : Type 0 where
  pub chain : List ℕ
  pub linked : Linked h.contents h.freelist chain
  pub covers : (i : ℕ) → i < h.object_count → is_free (h.contents i) ≡ true → Listed i chain
  pub inside : (i : ℕ) → Listed i chain → i < h.object_count
  pub distinct : Distinct chain

pub Linked-update :
    (contents : ℕ → Content) (i : ℕ) (v : Content) (r : Ref) (l : List ℕ)
    → is_free (contents i) ≡ false
    → Linked contents r l
    → Linked (update contents i v) r l
Linked-update contents i v r [] used linked = linked
Linked-update contents i v r (x ∷ l) used (e, next, here, rest) =
    (e, next, other_kept, Linked-update contents i v next l used rest)
  where
    other : (i == x) ≡ false
    other = elim (Bool-cases (i == x)) [
      | inl same ↦ absurd (
          true≢false (
            sym (ap is_free here)
            ∙ (subst (λ k. is_free (contents k) ≡ false) (==→eq i x same) used)))
      | inr differs ↦ differs
    ]

    other_kept : update contents i v x ≡ free next
    other_kept = rw other here
