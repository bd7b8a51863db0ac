-- ===== src/Spans/Lookup.antt =====
-- The table of src/fex_span.c as a map from objects to spans.
use fex.Common.{
  ℕ, zero, suc, ◌<◌, ◌≤◌, ◌≡◌, refl, sym, ◌∙◌, ap, inl, inr, Bool, true, false, ◌&&◌, List, [], ◌∷◌,
  Bytes, codes, Option, none, some, ◌==◌, ==→eq, eq→==, update, if◌then◌else◌, arith, Bool-cases,
}
use mathlib.Core.Path.{subst}
use fex.Spans.{
  bucket_count, FexSpan, FexSpanState, Spans, Answered, answered, span_alloc, span_free, hash_ptr,
  enabled_in, fex_span_is_enabled, excerpt_blocks, is_interned, Allocations, Interned, interned,
  add_name, intern_source_name, put_entry, span_entry, with_entry, span_excerpt, with_excerpt,
  record_span, fex_record_span, find_entry, lookup_in, fex_lookup_span, kept_entries, prune_buckets,
  prune_state, fex_span_prune,
}
use fex.Spans.Account.{spans_of}

-- The source name of a span: a missing one has a name of its own.
abbrev pub stable_name : Bytes → Bytes
stable_name [] = codes "<string>"
stable_name (c ∷ name) = c ∷ name

abbrev pub succeeded : Answered → Bool
succeeded (answered none ctx) = true
succeeded (answered (some error) ctx) = false

abbrev pub stored : FexSpan → FexSpan
stored given = record given { source_name = stable_name given.source_name }

-- A table in which a node has a span, or what it had before.
abbrev pub with_span : Bool → FexSpan → (node : ℕ) → Option FexSpan → Option FexSpan
with_span put given node before =
    if put && (given.node == node) then some (stored given) else before

module _ (given : FexSpan) (s : FexSpanState) (is_enabled : s.enabled ≡ true) (node : ℕ) where
  -- An answer behind which the span is in the table if it reports no error, and all else is as it was.
  record Looks (r : Answered) : Type 0 where
    looks :
        fex_lookup_span (spans_of r) node
        ≡ with_span (succeeded r) given node (lookup_in (some s) node)

  abbrev Named : Interned → Type 0
  Named (interned none names ctx) = ctx.state ≡ some s
  Named (interned (some name) names ctx) = name ≡ stable_name given.source_name

  add_name-Named :
      (name_text name_entry : Bool) (name : Bytes) (ctx : Spans)
      → name ≡ stable_name given.source_name
      → ctx.state ≡ some s
      → Named (add_name name_text name_entry name s.source_names ctx)
  unfolding add_name
  add_name-Named false name_entry name ctx e at = at
  add_name-Named true false name ctx e at = at
  add_name-Named true true name ctx e at = e

  intern_source_name-Named :
      (works : Allocations) (name : Bytes) (ctx : Spans)
      → stable_name name ≡ stable_name given.source_name
      → ctx.state ≡ some s
      → Named (intern_source_name works name s.source_names ctx)
  unfolding intern_source_name
  intern_source_name-Named works [] ctx e at = e
  intern_source_name-Named works (c ∷ name) ctx e at =
      either (is_interned (c ∷ name) s.source_names)
    where
      either :
          (b : Bool)
          → Named (elim b [
            | true ↦ interned (some (c ∷ name)) s.source_names ctx
            | false ↦ add_name works.name_text works.name_entry (c ∷ name) s.source_names ctx
          ])
      either true = e
      either false = add_name-Named works.name_text works.name_entry (c ∷ name) ctx e at

  -- The bucket of the node behind a write to that of the span.
  abbrev after_put : FexSpan → List FexSpan
  after_put entry =
      update s.buckets (hash_ptr given.node) (entry ∷ s.buckets (hash_ptr given.node))
        (hash_ptr node)

  find_entry-after_put :
      (entry : FexSpan)
      → entry.node ≡ given.node
      → find_entry node (after_put entry)
        ≡ (if given.node == node then some entry else find_entry node (s.buckets (hash_ptr node)))
  unfolding find_entry
  find_entry-after_put entry own = elim (Bool-cases (given.node == node)) [
    | inl here ↦
        let same : (hash_ptr given.node == hash_ptr node) ≡ true =
          eq→== _ _ (ap hash_ptr (==→eq given.node node here)) in
        let found : (entry.node == node) ≡ true = subst (λ n. (n == node) ≡ true) (sym own) here in
        rw here (rw (same, update) (rw found refl))
    | inr other ↦
        let not_found : (entry.node == node) ≡ false =
          subst (λ n. (n == node) ≡ false) (sym own) other in
        elim (Bool-cases (hash_ptr given.node == hash_ptr node)) [
          | inl same ↦ rw other (
              rw (same, update)
                (rw not_found (ap (λ h. find_entry node (s.buckets h)) (==→eq _ _ same))))
          | inr apart ↦ rw other (rw (apart, update) refl)
        ]
  ]

  put_entry-Looks : (found : Interned) → Named found → Looks (put_entry given s found)
  unfolding put_entry fex_lookup_span lookup_in
  put_entry-Looks (interned none names ctx) at = record { looks = ap (λ st. lookup_in st node) at }
  put_entry-Looks (interned (some name) names ctx) e = record {
    looks =
        ap
          (λ b.
            if b then find_entry node (after_put (record given { source_name = name })) else none)
          is_enabled
        ∙ ap (λ n. find_entry node (after_put (record given { source_name = n }))) e
        ∙ find_entry-after_put (stored given) refl
        ∙ ap
            (λ b.
              with_span true given node
                (if b then find_entry node (s.buckets (hash_ptr node)) else none))
            (sym is_enabled);
  }

  with_entry-Looks :
      (works : Allocations) (ctx : Spans)
      → ctx.state ≡ some s
      → Looks (with_entry works given s ctx)
  unfolding with_entry fex_lookup_span
  with_entry-Looks works ctx at = either works.entry
    where
      either :
          (b : Bool)
          → Looks (elim b [
            | false ↦ answered (some span_entry) (span_free (excerpt_blocks given.source) ctx)
            | true ↦
                put_entry given s
                  (intern_source_name works given.source_name s.source_names (span_alloc ctx))
          ])
      either false = record { looks = ap (λ st. lookup_in st node) at }
      either true =
          put_entry-Looks
            (intern_source_name works given.source_name s.source_names (span_alloc ctx))
            (intern_source_name-Named works given.source_name (span_alloc ctx) refl at)

  with_excerpt-Looks :
      (works : Allocations) (source : Option Bytes) (ctx : Spans)
      → ctx.state ≡ some s
      → Looks (with_excerpt works given source s ctx)
  unfolding with_excerpt fex_lookup_span
  with_excerpt-Looks works none ctx at = with_entry-Looks works ctx at
  with_excerpt-Looks works (some text) ctx at = either works.excerpt
    where
      either :
          (b : Bool)
          → Looks (elim b [
            | false ↦ answered (some span_excerpt) ctx
            | true ↦ with_entry works given s (span_alloc ctx)
          ])
      either false = record { looks = ap (λ st. lookup_in st node) at }
      either true = with_entry-Looks works (span_alloc ctx) at

no_span : (b : Bool) → ◌≡◌ {A = Option FexSpan} none (if b then none else none)
no_span true = refl
no_span false = refl

find_entry-kept_entries :
    (live : ℕ → Bool) (node : ℕ) (entries : List FexSpan)
    → find_entry node (kept_entries live entries)
      ≡ (if live node then find_entry node entries else none)
unfolding find_entry kept_entries
find_entry-kept_entries live node [] = no_span (live node)
find_entry-kept_entries live node (entry ∷ rest) =
    split (entry.node == node) refl (live entry.node) refl (find_entry-kept_entries live node rest)
  where
    at_node : entry.node == node ≡ true → (b : Bool) → live entry.node ≡ b → live node ≡ b
    at_node here b e = ap live (sym (==→eq entry.node node here)) ∙ e

    split :
        (here : Bool)
        → (entry.node == node) ≡ here
        → (alive : Bool) → live entry.node ≡ alive
        → find_entry node (kept_entries live rest)
          ≡ (if live node then find_entry node rest else none)
        → find_entry node (kept_entries live (entry ∷ rest))
          ≡ (if live node then find_entry node (entry ∷ rest) else none)
    split true here true alive later = rw alive (rw here (rw (at_node here true alive) refl))
    split true here false alive later = rw alive (
        rw here (
          rw (at_node here false alive) (
            later ∙ ap (λ b. if b then find_entry node rest else none) (at_node here false alive))))
    split false there true alive later = rw alive (rw there later)
    split false there false alive later = rw alive (rw there later)

-- The loops change the buckets that they have passed, and no other.
prune_buckets-at :
    (live : ℕ → Bool) (n j : ℕ) (buckets : ℕ → List FexSpan) (freed : ℕ)
    → (j < n → (prune_buckets live n buckets freed).0 j ≡ kept_entries live (buckets j))
      × (n ≤ j → (prune_buckets live n buckets freed).0 j ≡ buckets j)
unfolding prune_buckets
prune_buckets-at live zero j buckets freed = (λ lt. absurd (omega (arith, lt)), λ le. refl)
prune_buckets-at live (suc i) j buckets freed =
    next (prune_buckets live i buckets freed).0 (prune_buckets-at live i j buckets freed)
  where
    next :
        (pruned : ℕ → List FexSpan)
        → (j < i → pruned j ≡ kept_entries live (buckets j)) × (i ≤ j → pruned j ≡ buckets j)
        → (j < suc i
            → update pruned i (kept_entries live (pruned i)) j ≡ kept_entries live (buckets j))
          × (suc i ≤ j → update pruned i (kept_entries live (pruned i)) j ≡ buckets j)
    next pruned (below, above) = elim (Bool-cases (i == j)) [
      | inl e ↦ (
        λ lt. rw e (
            ap (λ k. kept_entries live (pruned k)) (==→eq i j e)
            ∙ ap (kept_entries live) (above (omega (arith, ==→eq i j e)))),
        λ le. absurd (omega (arith, le, ==→eq i j e)),
      )
      | inr e ↦ (λ lt. rw e (below (ground (arith, lt, e))), λ le. rw e (above (omega (arith, le))))
    ]

lookup_in-prune_state :
    (live : ℕ → Bool) (state : Option FexSpanState) (ctx : Spans) (node : ℕ)
    → ctx.state ≡ state
    → lookup_in (prune_state live state ctx).state node
      ≡ (if live node then lookup_in state node else none)
unfolding prune_state lookup_in
lookup_in-prune_state live none ctx node e = ap (λ st. lookup_in st node) e ∙ no_span (live node)
lookup_in-prune_state live (some s) ctx node e =
    ap (λ entries. if s.enabled then find_entry node entries else none) bucket ∙ either s.enabled
  where
    bucket :
        (prune_buckets live bucket_count s.buckets ctx.freed).0 (hash_ptr node)
        ≡ kept_entries live (s.buckets (hash_ptr node))
    bucket =
        (prune_buckets-at live bucket_count (hash_ptr node) s.buckets ctx.freed).0 (omega arith)

    either :
        (b : Bool)
        → (if b then find_entry node (kept_entries live (s.buckets (hash_ptr node))) else none) ≡ (
            if live node
            then (if b then find_entry node (s.buckets (hash_ptr node)) else none)
            else none)
    either true = find_entry-kept_entries live node (s.buckets (hash_ptr node))
    either false = no_span (live node)

-- fex_span_prune forgets the spans of the objects that are not live, and keeps all others.
pub fex_span_prune-lookup :
    (live : ℕ → Bool) (ctx : Spans) (node : ℕ)
    → fex_lookup_span (fex_span_prune live ctx) node
      ≡ (if live node then fex_lookup_span ctx node else none)
unfolding fex_lookup_span fex_span_prune
fex_span_prune-lookup live ctx node = lookup_in-prune_state live ctx.state ctx node refl

record_span-Looks :
    (works : Allocations) (given : FexSpan) (state : Option FexSpanState) (ctx : Spans) (node : ℕ)
    → ctx.state ≡ state
    → enabled_in state ≡ true
    → fex_lookup_span (spans_of (record_span works given state ctx)) node
      ≡ with_span (succeeded (record_span works given state ctx)) given node (lookup_in state node)
unfolding record_span
record_span-Looks works given none ctx node at enabled = cc
record_span-Looks works given (some s) ctx node at enabled = either s.enabled enabled
  where
    either :
        (b : Bool)
        → b ≡ true
        → fex_lookup_span
            (spans_of (elim b [
              | false ↦ answered none ctx
              | true ↦ with_excerpt works given given.source s ctx
            ]))
            node
          ≡ with_span
              (succeeded (elim b [
                | false ↦ answered none ctx
                | true ↦ with_excerpt works given given.source s ctx
              ]))
              given
              node
              (lookup_in (some s) node)
    either false e = cc
    either true e = (with_excerpt-Looks given s enabled node works given.source ctx at).looks

-- With spans enabled fex_record_span puts the span of its object into the table, with a name of its
-- own for a missing source name, or reports an error and changes the span of no object.
pub fex_record_span-lookup :
    (works : Allocations) (given : FexSpan) (ctx : Spans) (node : ℕ)
    → fex_span_is_enabled ctx ≡ true
    → fex_lookup_span (spans_of (fex_record_span works given ctx)) node
      ≡ with_span
          (succeeded (fex_record_span works given ctx))
          given
          node
          (fex_lookup_span ctx node)
unfolding fex_record_span fex_span_is_enabled fex_lookup_span
fex_record_span-lookup works given ctx node enabled =
    record_span-Looks works given ctx.state ctx node refl enabled
