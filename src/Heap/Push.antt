-- ===== src/Heap/Push.antt =====
-- The pushes of fe_mark, with the recursion where the stack is full, and the weight that bounds them.
use fex.Common.{
  ℕ, zero, suc, ◌+◌, ◌<◌, ◌≤◌, ◌≡◌, refl, ◌∙◌, ◌⊎◌, inl, inr, true, false, List, [], ◌∷◌, Option,
  some, ltb, ◌==◌, if◌then◌else◌, update, length, arith, Bool-cases,
}
use fex.Heap.{Ref, Content, Marked, push_all, mark_stack_size}
use fex.Heap.Marks.{In, children, Marks, Marks-none, Marks-then}

-- The objects that are not marked, with the pointers that they hold.
abbrev pub weight : (ℕ → Content) → Marked → ℕ → ℕ
weight contents m zero = 0
weight contents m (suc n) =
    (if m n then 0 else 1 + length (children (contents n))) + weight contents m n

weight_above :
    (contents : ℕ → Content) (m : Marked) (n i : ℕ)
    → n ≤ i
    → weight contents (update m i true) n ≡ weight contents m n
weight_above contents m zero i le = refl
weight_above contents m (suc n) i le = ground (arith, weight_above contents m n i)

pub weight-update :
    (contents : ℕ → Content) (m : Marked) (n i : ℕ)
    → i < n
    → m i ≡ false
    → weight contents (update m i true) n + (1 + length (children (contents i)))
      ≡ weight contents m n
weight-update contents m zero i lt fresh = absurd (omega (arith, lt))
weight-update contents m (suc n) i lt fresh = elim (Bool-cases (i == n)) [
  | inl e ↦ ground (arith, weight_above contents m n i, fresh, e)
  | inr e ↦ ground (arith, weight-update contents m n i, fresh, e)
]

pub weight-le :
    (contents : ℕ → Content) (m m' : Marked) (n : ℕ)
    → ((i : ℕ) → m i ≡ true → m' i ≡ true)
    → weight contents m' n ≤ weight contents m n
weight-le contents m m' zero keeps = omega arith
weight-le contents m m' (suc n) keeps = elim (Bool-cases (m n)) [
  | inl e ↦ ground (arith, weight-le contents m m' n keeps, keeps n e, e)
  | inr e ↦ ground (arith, weight-le contents m m' n keeps, e)
]

module _ (contents : ℕ → Content) (object_count : ℕ) (recurse : Marked → Ref → Option Marked) where
  -- The recursive calls work as long as less than `bound` is left.
  abbrev pub Works : ℕ → Type 0
  Works bound =
      (m : Marked) (r : Ref)
      → weight contents m object_count + 1 < bound
      → (m' : Marked) × (recurse m r ≡ some m') × Marks contents object_count m (λ x. x ≡ r) m'

  -- Each of the pointers is on the stack now, or has been marked by recursion.
  pub record Pushed (m : Marked) (rs stack : List Ref) : Type 1 where
    pub marked : Marked
    pub stack_after : List Ref
    pub found : push_all recurse m rs stack ≡ some (marked, stack_after)
    pub Nested : Ref → Type 0
    pub marks : Marks contents object_count m Nested marked
    pub nested_inside : (r : Ref) → Nested r → In r rs
    pub covers : (r : Ref) → In r rs ⊎ In r stack → Nested r ⊎ In r stack_after
    pub stack_inside : (r : Ref) → In r stack_after → In r rs ⊎ In r stack
    pub shorter : length stack_after ≤ length rs + length stack

  push_room :
      (m : Marked) (r : Ref) (rs stack : List Ref)
      → ltb (length stack) mark_stack_size ≡ true
      → push_all recurse m (r ∷ rs) stack ≡ push_all recurse m rs (r ∷ stack)
  unfolding push_all
  push_room m r rs stack e = rw (e, push_all) refl

  push_full :
      (m m' : Marked) (r : Ref) (rs stack : List Ref)
      → ltb (length stack) mark_stack_size ≡ false
      → recurse m r ≡ some m'
      → push_all recurse m (r ∷ rs) stack ≡ push_all recurse m' rs stack
  unfolding push_all
  push_full m m' r rs stack e e' = rw (e, push_all) (rw e' refl)

  pub push_all-Pushed :
      (bound : ℕ)
      → Works bound
      → (m : Marked) (rs stack : List Ref)
      → weight contents m object_count + length rs + length stack < bound
      → Pushed m rs stack
  unfolding push_all
  push_all-Pushed bound works m [] stack enough = record {
    marked = m;
    stack_after = stack;
    found = refl;
    Nested = λ r. ⊥;
    marks = Marks-none contents object_count m (λ r. ⊥) (λ r n. n);
    nested_inside = λ r n. n;
    covers = λ r h. elim h [ inl n ↦ absurd n | inr s ↦ inr s ];
    stack_inside = λ r h. inr h;
    shorter = omega arith;
  }
  push_all-Pushed bound works m (r ∷ rs) stack enough =
      elim (Bool-cases (ltb (length stack) mark_stack_size)) [
        | inl room ↦
            let p = push_all-Pushed bound works m rs (r ∷ stack) (omega (arith, enough)) in
            on_stack m r rs stack p room
        | inr full ↦
            let (m₁, eq, marks) = works m r (omega (arith, enough)) in
            let p =
              push_all-Pushed bound works m₁ rs stack
                (omega (arith, enough, weight-le contents m m₁ object_count marks.keeps)) in
            by_recursion m m₁ r rs stack p full eq marks
      ]
    where
      on_stack :
          (m : Marked) (r : Ref) (rs stack : List Ref)
          → Pushed m rs (r ∷ stack)
          → ltb (length stack) mark_stack_size ≡ true
          → Pushed m (r ∷ rs) stack
      on_stack m r rs stack p room = record {
        marked = p.marked;
        stack_after = p.stack_after;
        found = push_room m r rs stack room ∙ p.found;
        Nested = p.Nested;
        marks = p.marks;
        nested_inside = λ x n. inr (p.nested_inside x n);
        covers = λ x h. p.covers x (elim h [
          | inl l ↦ elim l [ inl e ↦ inr (inl e) | inr l' ↦ inl l' ]
          | inr s ↦ inr (inr s)
        ]);
        stack_inside = λ x h. elim (p.stack_inside x h) [
          | inl l ↦ inl (inr l)
          | inr s ↦ elim s [ inl e ↦ inl (inl e) | inr s' ↦ inr s' ]
        ];
        shorter = omega (arith, p.shorter);
      }

      by_recursion :
          (m m₁ : Marked) (r : Ref) (rs stack : List Ref)
          → Pushed m₁ rs stack
          → ltb (length stack) mark_stack_size ≡ false
          → recurse m r ≡ some m₁
          → Marks contents object_count m (λ x. x ≡ r) m₁
          → Pushed m (r ∷ rs) stack
      by_recursion m m₁ r rs stack p full eq marks = record {
        marked = p.marked;
        stack_after = p.stack_after;
        found = push_full m m₁ r rs stack full eq ∙ p.found;
        Nested = λ x. (x ≡ r) ⊎ p.Nested x;
        marks = Marks-then contents object_count m m₁ p.marked (λ x. x ≡ r) p.Nested marks p.marks;
        nested_inside = λ x n. elim n [ inl e ↦ inl e | inr n' ↦ inr (p.nested_inside x n') ];
        covers = λ x h. elim h [
          | inl l ↦ elim l [
            | inl e ↦ inl (inl e)
            | inr l' ↦ elim (p.covers x (inl l')) [ inl n ↦ inl (inr n) | inr s ↦ inr s ]
          ]
          | inr s ↦ elim (p.covers x (inr s)) [ inl n ↦ inl (inr n) | inr s' ↦ inr s' ]
        ];
        stack_inside = λ x h. elim (p.stack_inside x h) [ inl l ↦ inl (inr l) | inr s ↦ inr s ];
        shorter = omega (arith, p.shorter);
      }
