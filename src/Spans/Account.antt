-- ===== src/Spans/Account.antt =====
-- The blocks that src/fex_span.c takes and gives back.
use fex.Common.{
  ℕ, zero, suc, ◌+◌, ◌<◌, ◌≤◌, ◌≡◌, refl, sym, ap, inl, inr, Bool, true, false, List, [], ◌∷◌,
  Bytes, Option, none, some, ◌==◌, ==→eq, update, arith, Bool-cases,
}
use mathlib.Core.Path.{subst}
use fex.Spans.{
  bucket_count, FexSpan, FexSpanState, Spans, Answered, answered, span_alloc, span_free, hash_ptr,
  fex_span_init, init_and_enable, enable_state, fex_span_set_enabled, span_excerpt, record_span,
  prune_state, free_state, excerpt_blocks, is_interned, Allocations, Interned, interned, add_name,
  intern_source_name, put_entry, with_entry, with_excerpt, span_entry, fex_record_span,
  kept_entries, dropped_blocks, prune_buckets, fex_span_prune, entry_blocks, free_buckets,
  free_names, fex_span_cleanup,
}

-- The blocks of a state.
abbrev held : FexSpanState → ℕ
held s = free_buckets bucket_count s.buckets + free_names s.source_names + 1

abbrev owned : Option FexSpanState → ℕ
owned none = 0
owned (some s) = held s

-- The blocks that were taken are those given back and those that the state has.
pub record IsExact (ctx : Spans) : Type 0 where
  pub exact : ctx.taken ≡ ctx.freed + owned ctx.state

free_buckets-above :
    (n i : ℕ) (buckets : ℕ → List FexSpan) (entries : List FexSpan)
    → n ≤ i
    → free_buckets n (update buckets i entries) ≡ free_buckets n buckets
unfolding free_buckets
free_buckets-above zero i buckets entries le = refl
free_buckets-above (suc n) i buckets entries le =
    ground (arith, free_buckets-above n i buckets entries)

-- A write to a bucket moves the sum by what it does to this bucket.
free_buckets-update :
    (n i : ℕ) (buckets : ℕ → List FexSpan) (entries : List FexSpan)
    → i < n
    → free_buckets n (update buckets i entries) + entry_blocks (buckets i)
      ≡ free_buckets n buckets + entry_blocks entries
unfolding free_buckets
free_buckets-update zero i buckets entries lt = absurd (omega (arith, lt))
free_buckets-update (suc n) i buckets entries lt = elim (Bool-cases (i == n)) [
  | inl e ↦ omega (
    arith,
    free_buckets-above n i buckets entries (omega (arith, ==→eq i n e)),
    ap entry_blocks (update_here e),
    ap (λ j. entry_blocks (buckets j)) (==→eq i n e),
  )
  | inr e ↦
      omega
        (arith, free_buckets-update n i buckets entries (below e), ap entry_blocks (update_there e))
]
  where
    update_here : i == n ≡ true → update buckets i entries n ≡ entries
    update_here e = rw e refl

    update_there : i == n ≡ false → update buckets i entries n ≡ buckets n
    update_there e = rw e refl

    below : i == n ≡ false → i < n
    below e = ground (arith, lt, e)

kept_entries-dropped_blocks :
    (live : ℕ → Bool) (entries : List FexSpan)
    → entry_blocks (kept_entries live entries) + dropped_blocks live entries ≡ entry_blocks entries
unfolding kept_entries dropped_blocks entry_blocks
kept_entries-dropped_blocks live [] = omega arith
kept_entries-dropped_blocks live (entry ∷ rest) = elim (Bool-cases (live entry.node)) [
  | inl is_live ↦ rw is_live (omega (arith, kept_entries-dropped_blocks live rest))
  | inr is_dead ↦ rw is_dead (omega (arith, kept_entries-dropped_blocks live rest))
]

prune_buckets-exact :
    (live : ℕ → Bool) (n total : ℕ) (buckets : ℕ → List FexSpan) (freed : ℕ)
    → n ≤ total
    → (prune_buckets live n buckets freed).1
        + free_buckets total (prune_buckets live n buckets freed).0
      ≡ freed + free_buckets total buckets
unfolding prune_buckets
prune_buckets-exact live zero total buckets freed le = refl
prune_buckets-exact live (suc i) total buckets freed le =
    next (prune_buckets live i buckets freed).0 (prune_buckets live i buckets freed).1
      (prune_buckets-exact live i total buckets freed (omega (arith, le)))
  where
    next :
        (pruned : ℕ → List FexSpan) (so_far : ℕ)
        → so_far + free_buckets total pruned ≡ freed + free_buckets total buckets
        → so_far
            + dropped_blocks live (pruned i)
            + free_buckets total (update pruned i (kept_entries live (pruned i)))
          ≡ freed + free_buckets total buckets
    next pruned so_far h = omega (
      arith,
      h,
      free_buckets-update total i pruned (kept_entries live (pruned i)) (omega (arith, le)),
      kept_entries-dropped_blocks live (pruned i),
    )

abbrev pub spans_of : Answered → Spans
spans_of (answered error ctx) = ctx

-- The state with no blocks in flight, and with some.
record Owes (blocks : ℕ) (s : FexSpanState) (ctx : Spans) : Type 0 where
  state : ctx.state ≡ some s
  owed : ctx.taken ≡ ctx.freed + held s + blocks

Owes-IsExact : (s : FexSpanState) (ctx : Spans) → Owes 0 s ctx → IsExact ctx
Owes-IsExact s ctx o = record {
  exact = subst (λ st. ctx.taken ≡ ctx.freed + owned st) (sym o.state) (omega (arith, o.owed));
}

abbrev Balanced : (blocks : ℕ) → FexSpanState → Interned → Type 0
Balanced blocks s (interned none names ctx) = Owes blocks s ctx
Balanced blocks s (interned (some name) names ctx) =
    ctx.taken ≡ ctx.freed + free_buckets bucket_count s.buckets + free_names names + 1 + blocks

add_name-Balanced :
    (name_text name_entry : Bool) (name : Bytes) (blocks : ℕ) (s : FexSpanState) (ctx : Spans)
    → Owes blocks s ctx
    → Balanced blocks s (add_name name_text name_entry name s.source_names ctx)
unfolding add_name free_names
add_name-Balanced false name_entry name blocks s ctx o = o
add_name-Balanced true false name blocks s ctx o = record {
  state = o.state;
  owed = omega (arith, o.owed);
}
add_name-Balanced true true name blocks s ctx o = omega (arith, o.owed)

intern_source_name-Balanced :
    (works : Allocations) (name : Bytes) (blocks : ℕ) (s : FexSpanState) (ctx : Spans)
    → Owes blocks s ctx
    → Balanced blocks s (intern_source_name works name s.source_names ctx)
unfolding intern_source_name
intern_source_name-Balanced works [] blocks s ctx o = omega (arith, o.owed)
intern_source_name-Balanced works (c ∷ name) blocks s ctx o =
    either (is_interned (c ∷ name) s.source_names)
  where
    either :
        (b : Bool)
        → Balanced blocks s (elim b [
          | true ↦ interned (some (c ∷ name)) s.source_names ctx
          | false ↦ add_name works.name_text works.name_entry (c ∷ name) s.source_names ctx
        ])
    either true = omega (arith, o.owed)
    either false = add_name-Balanced works.name_text works.name_entry (c ∷ name) blocks s ctx o

put_entry-IsExact :
    (given : FexSpan) (s : FexSpanState) (found : Interned)
    → Balanced (excerpt_blocks given.source + 1) s found
    → IsExact (spans_of (put_entry given s found))
unfolding put_entry entry_blocks
put_entry-IsExact given s (interned none names ctx) o = record {
  exact =
      subst (λ st. ctx.taken ≡ ctx.freed + (excerpt_blocks given.source + 1) + owned st)
        (sym o.state) (omega (arith, o.owed));
}
put_entry-IsExact given s (interned (some name) names ctx) balance =
    let h = hash_ptr given.node in
    let entry = record given { source_name = name } in
    record {
      exact = omega (
        arith,
        balance,
        free_buckets-update bucket_count h s.buckets (entry ∷ s.buckets h) (omega arith),
      );
    }

with_entry-IsExact :
    (works : Allocations) (given : FexSpan) (s : FexSpanState) (ctx : Spans)
    → Owes (excerpt_blocks given.source) s ctx
    → IsExact (spans_of (with_entry works given s ctx))
unfolding with_entry
with_entry-IsExact works given s ctx o = either works.entry
  where
    either :
        (b : Bool)
        → IsExact (
            spans_of (elim b [
              | false ↦ answered (some span_entry) (span_free (excerpt_blocks given.source) ctx)
              | true ↦
                  put_entry given s
                    (intern_source_name works given.source_name s.source_names (span_alloc ctx))
            ]))
    either false =
        Owes-IsExact s (span_free (excerpt_blocks given.source) ctx)
          (record { state = o.state; owed = omega (arith, o.owed) })
    either true =
        put_entry-IsExact given s
          (intern_source_name works given.source_name s.source_names (span_alloc ctx))
          (intern_source_name-Balanced works given.source_name (excerpt_blocks given.source + 1) s
            (span_alloc ctx) (record { state = o.state; owed = omega (arith, o.owed) }))

with_excerpt-IsExact :
    (works : Allocations) (given : FexSpan) (source : Option Bytes) (s : FexSpanState) (ctx : Spans)
    → given.source ≡ source
    → Owes 0 s ctx
    → IsExact (spans_of (with_excerpt works given source s ctx))
unfolding with_excerpt
with_excerpt-IsExact works given none s ctx e o =
    with_entry-IsExact works given s ctx
      (record { state = o.state; owed = omega (arith, o.owed, ap excerpt_blocks e) })
with_excerpt-IsExact works given (some text) s ctx e o = either works.excerpt
  where
    either :
        (b : Bool)
        → IsExact (
            spans_of (elim b [
              | false ↦ answered (some span_excerpt) ctx
              | true ↦ with_entry works given s (span_alloc ctx)
            ]))
    either false = Owes-IsExact s ctx o
    either true =
        with_entry-IsExact works given s (span_alloc ctx)
          (record { state = o.state; owed = omega (arith, o.owed, ap excerpt_blocks e) })

record_span-IsExact :
    (works : Allocations) (given : FexSpan) (state : Option FexSpanState) (ctx : Spans)
    → ctx.state ≡ state
    → IsExact ctx
    → IsExact (spans_of (record_span works given state ctx))
unfolding record_span
record_span-IsExact works given none ctx e x = x
record_span-IsExact works given (some s) ctx e x = either s.enabled
  where
    owes : ctx.taken ≡ ctx.freed + held s + 0
    owes = omega (arith, x.exact, ap owned e)

    either :
        (b : Bool)
        → IsExact (
            spans_of (elim b [
              | false ↦ answered none ctx
              | true ↦ with_excerpt works given given.source s ctx
            ]))
    either false = x
    either true =
        with_excerpt-IsExact works given given.source s ctx refl (record { state = e; owed = owes })

prune_state-IsExact :
    (live : ℕ → Bool) (state : Option FexSpanState) (ctx : Spans)
    → ctx.state ≡ state
    → IsExact ctx
    → IsExact (prune_state live state ctx)
unfolding prune_state
prune_state-IsExact live none ctx e x = x
prune_state-IsExact live (some s) ctx e x = record {
  exact = omega (
    arith,
    x.exact,
    ap owned e,
    prune_buckets-exact live bucket_count bucket_count s.buckets ctx.freed (omega arith),
  );
}

no_blocks : (n : ℕ) → free_buckets n (λ i. []) ≡ 0
unfolding free_buckets entry_blocks
no_blocks zero = refl
no_blocks (suc n) = omega (arith, no_blocks n)

enable_state-IsExact :
    (works enabled : Bool) (state : Option FexSpanState) (ctx : Spans)
    → ctx.state ≡ state
    → IsExact ctx
    → IsExact (spans_of (enable_state works enabled state ctx))
unfolding enable_state init_and_enable fex_span_init free_names
enable_state-IsExact true true none ctx e x = record {
  exact = omega (arith, x.exact, ap owned e, no_blocks bucket_count);
}
enable_state-IsExact false true none ctx e x = x
enable_state-IsExact works false none ctx e x = x
enable_state-IsExact works false (some s) ctx e x = record {
  exact = omega (arith, x.exact, ap owned e);
}
enable_state-IsExact works true (some s) ctx e x = record {
  exact = omega (arith, x.exact, ap owned e);
}

free_state-exact :
    (state : Option FexSpanState) (ctx : Spans)
    → ctx.state ≡ state
    → IsExact ctx
    → (free_state state ctx).taken ≡ (free_state state ctx).freed
unfolding free_state
free_state-exact none ctx e x = omega (arith, x.exact, ap owned e)
free_state-exact (some s) ctx e x = omega (arith, x.exact, ap owned e)

-- The calls that the rest of the program makes while a context is open.
pub data Call : Type 0 where
  record_call : Allocations → FexSpan → Call
  prune_call : (live : ℕ → Bool) → Call
  enable_call : (works enabled : Bool) → Call

abbrev pub after_call : Call → Spans → Spans
after_call (record_call works given) ctx = spans_of (fex_record_span works given ctx)
after_call (prune_call live) ctx = fex_span_prune live ctx
after_call (enable_call works enabled) ctx = spans_of (fex_span_set_enabled works enabled ctx)

abbrev pub after_calls : List Call → Spans → Spans
after_calls [] ctx = ctx
after_calls (call ∷ calls) ctx = after_calls calls (after_call call ctx)

-- A context that was opened: no spans, no blocks.
abbrev pub opened : Spans
opened = record { state = none; taken = 0; freed = 0 }

after_call-IsExact : (call : Call) (ctx : Spans) → IsExact ctx → IsExact (after_call call ctx)
unfolding fex_record_span fex_span_prune fex_span_set_enabled
after_call-IsExact (record_call works given) ctx x =
    record_span-IsExact works given ctx.state ctx refl x
after_call-IsExact (prune_call live) ctx x = prune_state-IsExact live ctx.state ctx refl x
after_call-IsExact (enable_call works enabled) ctx x =
    enable_state-IsExact works enabled ctx.state ctx refl x

after_calls-IsExact :
    (calls : List Call) (ctx : Spans) → IsExact ctx → IsExact (after_calls calls ctx)
after_calls-IsExact [] ctx x = x
after_calls-IsExact (call ∷ calls) ctx x =
    after_calls-IsExact calls (after_call call ctx) (after_call-IsExact call ctx x)

-- After any calls in an opened context, whatever the allocator answers to each of them, as many
-- blocks have been given back behind fex_span_cleanup as were taken.
pub fex_span_cleanup-frees :
    (calls : List Call)
    → (fex_span_cleanup (after_calls calls opened)).taken
      ≡ (fex_span_cleanup (after_calls calls opened)).freed
unfolding fex_span_cleanup
fex_span_cleanup-frees calls =
    free_state-exact (after_calls calls opened).state (after_calls calls opened) refl
      (after_calls-IsExact calls opened (record { exact = refl }))
