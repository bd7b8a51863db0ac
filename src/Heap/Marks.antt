-- ===== src/Heap/Marks.antt =====
-- Reachable objects, and what a run of the marking has done for the pointers that it took up.
use fex.Common.{
  ℕ, ◌<◌, ◌≡◌, refl, sym, ◌∙◌, ◌⊎◌, inl, inr, true, false, List, [], ◌∷◌, ◌++◌, ◌==◌, ==→eq, update,
  arith, Bool-cases,
}
use mathlib.Core.Path.{subst}
use mathlib.Core.Bool.{true≢false}
use fex.Heap.{Ref, at, Content, Marked, pushed, followed}

-- The pointer is one of the list.
abbrev pub In : Ref → List Ref → Type 0
In r [] = ⊥
In r (x ∷ xs) = (r ≡ x) ⊎ In r xs

pub In-append_left : (r : Ref) (xs ys : List Ref) → In r xs → In r (xs ++ ys)
In-append_left r [] ys here = absurd here
In-append_left r (x ∷ xs) ys (inl e) = inl e
In-append_left r (x ∷ xs) ys (inr later) = inr (In-append_left r xs ys later)

pub In-append_right : (r : Ref) (xs ys : List Ref) → In r ys → In r (xs ++ ys)
In-append_right r [] ys here = here
In-append_right r (x ∷ xs) ys here = inr (In-append_right r xs ys here)

pub In-append_cases : (r : Ref) (xs ys : List Ref) → In r (xs ++ ys) → In r xs ⊎ In r ys
In-append_cases r [] ys here = inr here
In-append_cases r (x ∷ xs) ys (inl e) = inl (inl e)
In-append_cases r (x ∷ xs) ys (inr later) = elim (In-append_cases r xs ys later) [
  | inl l ↦ inl (inr l)
  | inr l ↦ inr l
]

-- The pointers that an object holds, for the collector.
abbrev pub children : Content → List Ref
children content = pushed content ++ followed content

abbrev pub Unmarked : Marked → Type 0
Unmarked m = (i : ℕ) → m i ≡ false

module _ (contents : ℕ → Content) (object_count : ℕ) where
  -- The objects that pointers in `P` lead to, through objects of the arena.
  pub data Reach (P : Ref → Type 0) : ℕ → Type 0 where
    root : (i : ℕ) → P (at i) → i < object_count → Reach P i
    child : (i j : ℕ) → Reach P i → In (at j) (children (contents i)) → j < object_count → Reach P j

  pub Reach-map :
      (P Q : Ref → Type 0)
      → ((i : ℕ) → P (at i) → i < object_count → Reach Q i)
      → (j : ℕ) → Reach P j
      → Reach Q j
  Reach-map P Q f j (root i p lt) = f i p lt
  Reach-map P Q f j (child i j' r c lt) = child i j' (Reach-map P Q f i r) c lt

  -- The object behind the pointer, if there is one, is marked.
  abbrev pub Done : Marked → Ref → Type 0
  Done m r = (i : ℕ) → r ≡ at i → i < object_count → m i ≡ true

  -- From the marks `m` the marking went to `m'` for the pointers in `P`.
  pub record Marks (m : Marked) (P : Ref → Type 0) (m' : Marked) : Type 0 where
    pub keeps : (i : ℕ) → m i ≡ true → m' i ≡ true
    pub sound : (i : ℕ) → m' i ≡ true → (m i ≡ true) ⊎ Reach P i
    pub roots : (r : Ref) → P r → Done m' r
    pub closed :
        (i : ℕ)
        → m' i ≡ true
        → (m i ≡ true) ⊎ ((r : Ref) → In r (children (contents i)) → Done m' r)

  pub Marks-none : (m : Marked) (P : Ref → Type 0) → ((r : Ref) → ¬ P r) → Marks m P m
  Marks-none m P never = record {
    keeps = λ i e. e;
    sound = λ i e. inl e;
    roots = λ r p. absurd (never r p);
    closed = λ i e. inl e;
  }

  pub Marks-change :
      (m m' : Marked) (P Q : Ref → Type 0)
      → ((i : ℕ) → P (at i) → i < object_count → Reach Q i)
      → ((r : Ref) → Q r → Done m' r)
      → Marks m P m'
      → Marks m Q m'
  Marks-change m m' P Q f g s = record {
    keeps = s.keeps;
    sound =
        λ i e. elim (s.sound i e) [ inl old ↦ inl old | inr reach ↦ inr (Reach-map P Q f i reach) ];
    roots = g;
    closed = s.closed;
  }

  pub Marks-then :
      (m₁ m₂ m₃ : Marked) (P Q : Ref → Type 0)
      → Marks m₁ P m₂
      → Marks m₂ Q m₃
      → Marks m₁ (λ r. P r ⊎ Q r) m₃
  Marks-then m₁ m₂ m₃ P Q s t = record {
    keeps = λ i e. t.keeps i (s.keeps i e);
    sound = λ i e. elim (t.sound i e) [
      | inl old ↦ elim (s.sound i old) [
        | inl older ↦ inl older
        | inr reach ↦ inr (Reach-map P (λ r. P r ⊎ Q r) (λ j p lt. root j (inl p) lt) i reach)
      ]
      | inr reach ↦ inr (Reach-map Q (λ r. P r ⊎ Q r) (λ j q lt. root j (inr q) lt) i reach)
    ];
    roots =
        λ r pq. elim pq [ inl p ↦ λ i e lt. t.keeps i (s.roots r p i e lt) | inr q ↦ t.roots r q ];
    closed = λ i e. elim (t.closed i e) [
      | inl old ↦ elim (s.closed i old) [
        | inl older ↦ inl older
        | inr done ↦ inr (λ r c j e' lt. t.keeps j (done r c j e' lt))
      ]
      | inr done ↦ inr done
    ];
  }

  -- An object is marked first and its pointers are taken up then.
  pub Marks-object :
      (m m' : Marked) (i : ℕ) (P : Ref → Type 0)
      → i < object_count
      → Marks (update m i true) (λ r. In r (children (contents i)) ⊎ P r) m'
      → Marks m (λ r. (r ≡ at i) ⊎ P r) m'
  Marks-object m m' i P lt s = record {
    keeps = λ j e. s.keeps j (kept j e);
    sound = λ j e. elim (s.sound j e) [
      | inl old ↦ elim (back j old) [
        | inl older ↦ inl older
        | inr same ↦ inr (subst (λ k. Reach Q k) (sym same) here)
      ]
      | inr reach ↦ inr (Reach-map _ Q again j reach)
    ];
    roots = λ r q. elim q [
      | inl same ↦ λ j e lt'. s.keeps j (marked_here j (sym same ∙ e))
      | inr p ↦ s.roots r (inr p)
    ];
    closed = λ j e. elim (s.closed j e) [
      | inl old ↦ elim (back j old) [
        | inl older ↦ inl older
        | inr same ↦ inr (λ r c. s.roots r (inl (subst (λ k. In r (children (contents k))) same c)))
      ]
      | inr done ↦ inr done
    ];
  }
    where
      Q : Ref → Type 0
      Q r = (r ≡ at i) ⊎ P r

      here : Reach Q i
      here = root i (inl refl) lt

      kept : (j : ℕ) → m j ≡ true → update m i true j ≡ true
      kept j e = ground (arith, e)

      back : (j : ℕ) → update m i true j ≡ true → (m j ≡ true) ⊎ (j ≡ i)
      back j e = elim (Bool-cases (i == j)) [
        | inl same ↦ inr (sym (==→eq i j same))
        | inr other ↦ inl (ground (arith, e, other))
      ]

      again : (j : ℕ) → In (at j) (children (contents i)) ⊎ P (at j) → j < object_count → Reach Q j
      again j (inl c) lt' = child i j here c lt'
      again j (inr p) lt' = root j (inr p) lt'

      marked_here : (j : ℕ) → at i ≡ at j → update m i true j ≡ true
      marked_here j e = let same : i ≡ j = cc in ground (arith, same)

  -- Without earlier marks, what is reachable is marked.
  pub Marks-complete :
      (m m' : Marked) (P : Ref → Type 0)
      → Unmarked m
      → Marks m P m'
      → (i : ℕ) → Reach P i
      → m' i ≡ true
  Marks-complete m m' P clear s i (root i' p lt) = s.roots (at i) p i refl lt
  Marks-complete m m' P clear s j (child i j' reach c lt) =
      elim (s.closed i (Marks-complete m m' P clear s i reach)) [
        | inl old ↦ let bad = clear i in absurd (true≢false (sym old ∙ bad))
        | inr done ↦ done (at j) c j refl lt
      ]

  pub Marks-exact :
      (m m' : Marked) (P : Ref → Type 0)
      → Unmarked m
      → Marks m P m'
      → (i : ℕ) → m' i ≡ true
      → Reach P i
  Marks-exact m m' P clear s i e = elim (s.sound i e) [
    | inl old ↦ let bad = clear i in absurd (true≢false (sym old ∙ bad))
    | inr reach ↦ reach
  ]
