-- ===== src/Spans.antt =====
-- The source spans of src/fex_span.c: a table of buckets from objects to the text they come from.
--
-- An object is its address. A span keeps a copy of its text, of which `start` and `end` are the two
-- ends. What the allocator answers is an argument for each call; the blocks that it gave and that
-- came back to it are counted. A source name that is not given is an empty one.
pub mod Account
pub mod Lookup
mod Examples
use fex.Common.{
  ℕ, zero, suc, ◌+◌, ◌/◌, ◌%◌, ◌^◌, Bool, true, false, not, List, [], ◌∷◌, Bytes, codes, bytes_eq,
  Option, none, some, if◌then◌else◌, ◌==◌, update,
}

abbrev pub bucket_count : ℕ
bucket_count = 8192

pub record FexSpan : Type 0 where
  pub node : ℕ
  pub source : Option Bytes
  pub source_name : Bytes
  pub start_line : ℕ
  pub start_col : ℕ
  pub end_line : ℕ
  pub end_col : ℕ

pub record FexSpanState : Type 0 where
  pub buckets : ℕ → List FexSpan
  pub source_names : List Bytes
  pub enabled : Bool

-- The state of the spans in the context, and the blocks that were taken and given back.
pub record Spans : Type 0 where
  pub state : Option FexSpanState
  pub taken : ℕ
  pub freed : ℕ

-- What an operation reports by fe_ctx_memory_error.
pub data MemoryError : Type 0 where
  span_state span_excerpt span_entry span_source_name : MemoryError

pub data Answered : Type 0 where
  answered : (error : Option MemoryError) → Spans → Answered

abbrev pub span_alloc : Spans → Spans
span_alloc ctx = record ctx { taken = ctx.taken + 1 }

abbrev pub span_free : (blocks : ℕ) → Spans → Spans
span_free blocks ctx = record ctx { freed = ctx.freed + blocks }

-- The address without its three lowest bits, and of that the thirteen lowest.
abbrev pub hash_ptr : ℕ → ℕ
hash_ptr p = (p / 8) % bucket_count

abbrev pub empty_state : FexSpanState
empty_state = record { buckets = λ i. []; source_names = []; enabled = false }

pub fex_span_init : (works : Bool) → Spans → Spans
fex_span_init false ctx = ctx
fex_span_init true ctx = record (span_alloc ctx) { state = some empty_state }

-- `if (state) state->enabled = enabled;`
abbrev pub set_enabled : Bool → Option FexSpanState → Spans → Answered
set_enabled enabled none ctx = answered none ctx
set_enabled enabled (some s) ctx =
    answered none (record ctx { state = some (record s { enabled = enabled }) })

-- A state is made when there is none to enable.
pub init_and_enable : (works : Bool) → Spans → Answered
init_and_enable false ctx = answered (some span_state) ctx
init_and_enable true ctx = let ctx' = fex_span_init true ctx in set_enabled true ctx'.state ctx'

pub enable_state : (works enabled : Bool) → Option FexSpanState → Spans → Answered
enable_state works true none ctx = init_and_enable works ctx
enable_state works enabled state ctx = set_enabled enabled state ctx

pub fex_span_set_enabled : (works enabled : Bool) → Spans → Answered
fex_span_set_enabled works enabled ctx = enable_state works enabled ctx.state ctx

abbrev pub enabled_in : Option FexSpanState → Bool
enabled_in none = false
enabled_in (some s) = s.enabled

unfoldable pub fex_span_is_enabled : Spans → Bool
fex_span_is_enabled ctx = enabled_in ctx.state

-- The blocks of a text that may be missing.
abbrev pub excerpt_blocks : Option Bytes → ℕ
excerpt_blocks none = 0
excerpt_blocks (some text) = 1

-- The source name among those that are there already.
pub is_interned : Bytes → List Bytes → Bool
is_interned name [] = false
is_interned name (text ∷ names) = if bytes_eq text name then true else is_interned name names

-- How interning a name goes: whether its text and its entry are allocated.
pub record Allocations : Type 0 where
  pub excerpt : Bool
  pub entry : Bool
  pub name_text : Bool
  pub name_entry : Bool

-- The name that is interned, if memory is there, and all names behind it.
pub data Interned : Type 0 where
  interned : (name : Option Bytes) → (names : List Bytes) → Spans → Interned

-- A new name in front of the others: its text, then its entry.
pub add_name : (name_text name_entry : Bool) → Bytes → List Bytes → Spans → Interned
add_name false name_entry name names ctx = interned none names ctx
add_name true false name names ctx = interned none names (span_free 1 (span_alloc ctx))
add_name true true name names ctx =
    interned (some name) (name ∷ names) (span_alloc (span_alloc ctx))

pub intern_source_name : Allocations → Bytes → List Bytes → Spans → Interned
intern_source_name works [] names ctx = interned (some (codes "<string>")) names ctx
intern_source_name works (c ∷ name) names ctx = elim (is_interned (c ∷ name) names) [
  | true ↦ interned (some (c ∷ name)) names ctx
  | false ↦ add_name works.name_text works.name_entry (c ∷ name) names ctx
]

-- The last step of fex_record_span: the entry gets its name and goes in front of its bucket.
pub put_entry : FexSpan → FexSpanState → Interned → Answered
put_entry given s (interned none names ctx) =
    answered (some span_source_name) (span_free (excerpt_blocks given.source + 1) ctx)
put_entry given s (interned (some name) names ctx) =
    let h = hash_ptr given.node in
    let entry = record given { source_name = name } in
    answered none (record ctx {
      state =
          some
            (record s { buckets = update s.buckets h (entry ∷ s.buckets h); source_names = names });
    })

-- The block of the entry, behind that of the text.
pub with_entry : Allocations → FexSpan → FexSpanState → Spans → Answered
with_entry works given s ctx = elim works.entry [
  | false ↦ answered (some span_entry) (span_free (excerpt_blocks given.source) ctx)
  | true ↦
      put_entry given s (intern_source_name works given.source_name s.source_names (span_alloc ctx))
]

-- The block of the text, if there is one.
pub with_excerpt : Allocations → FexSpan → (source : Option Bytes) → FexSpanState → Spans → Answered
with_excerpt works given none s ctx = with_entry works given s ctx
with_excerpt works given (some text) s ctx = elim works.excerpt [
  | false ↦ answered (some span_excerpt) ctx
  | true ↦ with_entry works given s (span_alloc ctx)
]

pub record_span : Allocations → FexSpan → Option FexSpanState → Spans → Answered
record_span works given none ctx = answered none ctx
record_span works given (some s) ctx = elim s.enabled [
  | false ↦ answered none ctx
  | true ↦ with_excerpt works given given.source s ctx
]

-- The arguments are a span, with the source name as it is given.
pub fex_record_span : Allocations → FexSpan → Spans → Answered
fex_record_span works given ctx = record_span works given ctx.state ctx

unfoldable pub find_entry : (node : ℕ) → List FexSpan → Option FexSpan
find_entry node [] = none
find_entry node (entry ∷ rest) = if entry.node == node then some entry else find_entry node rest

pub lookup_in : Option FexSpanState → (node : ℕ) → Option FexSpan
lookup_in none node = none
lookup_in (some s) node = if s.enabled then find_entry node (s.buckets (hash_ptr node)) else none

pub fex_lookup_span : Spans → (node : ℕ) → Option FexSpan
fex_lookup_span ctx node = lookup_in ctx.state node

-- The entries of a bucket whose objects are live, and the blocks of the others.
unfoldable pub kept_entries : (live : ℕ → Bool) → List FexSpan → List FexSpan
kept_entries live [] = []
kept_entries live (entry ∷ rest) =
    let later = kept_entries live rest in if live entry.node then entry ∷ later else later

unfoldable pub dropped_blocks : (live : ℕ → Bool) → List FexSpan → ℕ
dropped_blocks live [] = 0
dropped_blocks live (entry ∷ rest) =
    let later = dropped_blocks live rest in
    if live entry.node then later else excerpt_blocks entry.source + 1 + later

-- The loops of fex_span_prune over the first buckets, with the blocks given back so far.
unfoldable pub prune_buckets :
    (live : ℕ → Bool) → (n : ℕ) → (ℕ → List FexSpan) → ℕ → (ℕ → List FexSpan) × ℕ
prune_buckets live zero buckets freed = (buckets, freed)
prune_buckets live (suc i) buckets freed =
    let (pruned, so_far) = prune_buckets live i buckets freed in
    (update pruned i (kept_entries live (pruned i)), so_far + dropped_blocks live (pruned i))

pub prune_state : (live : ℕ → Bool) → Option FexSpanState → Spans → Spans
prune_state live none ctx = ctx
prune_state live (some s) ctx =
    let (buckets, freed) = prune_buckets live bucket_count s.buckets ctx.freed in
    record ctx { state = some (record s { buckets = buckets }); freed = freed }

pub fex_span_prune : (live : ℕ → Bool) → Spans → Spans
fex_span_prune live ctx = prune_state live ctx.state ctx

-- The blocks of a bucket, and those of the first buckets.
unfoldable pub entry_blocks : List FexSpan → ℕ
entry_blocks [] = 0
entry_blocks (entry ∷ rest) = excerpt_blocks entry.source + 1 + entry_blocks rest

unfoldable pub free_buckets : (n : ℕ) → (ℕ → List FexSpan) → ℕ
free_buckets zero buckets = 0
free_buckets (suc i) buckets = free_buckets i buckets + entry_blocks (buckets i)

-- The two blocks of each name.
unfoldable pub free_names : List Bytes → ℕ
free_names [] = 0
free_names (text ∷ names) = 2 + free_names names

pub free_state : Option FexSpanState → Spans → Spans
free_state none ctx = ctx
free_state (some s) ctx =
    let blocks = free_buckets bucket_count s.buckets + free_names s.source_names + 1 in
    record (span_free blocks ctx) { state = none }

pub fex_span_cleanup : Spans → Spans
fex_span_cleanup ctx = free_state ctx.state ctx
