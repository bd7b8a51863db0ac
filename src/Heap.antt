-- ===== src/Heap.antt =====
-- The arena of objects and its collector in src/fe.c: fe_mark, collectgarbage, object, fe_cons and
-- the stack of roots.
--
-- A pointer is `immediate` (nil, a fixnum, a boolean) or `at` an offset from ctx->objects in units of
-- objects; an offset from `object_count` on is a rogue pointer. The mark bits stand apart from the
-- contents. Of a map only the used slots are kept. fe_mark casts the pointer of an FE_TPTR object to
-- fe_Map as well: `pointer` holds the slots that it reads there. No mark handler and no gc handler
-- is set. fex_span_prune and the bytes of strings and maps that the sweep frees are left out.
pub mod Marks
pub mod Push
pub mod Mark
pub mod FreeList
pub mod Sweep
pub mod Collect
pub mod Allocate
pub mod Cons
mod Examples
use fex.Common.{
  ℕ, zero, suc, ◌+◌, ◌*◌, Bool, true, false, not, ◌&&◌, ◌||◌, List, [], ◌∷◌, ◌++◌, Option, none,
  some, ltb, leb, ◌==◌, if◌then◌else◌, update, length, take,
}

pub data Ref : Type 0 where
  immediate : Ref
  at : ℕ → Ref

pub data Content : Type 0 where
  pair : (car cdr : Ref) → Content
  func macro symbol : (cdr : Ref) → Content
  string bytes : Content
  map pointer : List (Ref × Ref) → Content
  atom : Content
  free : (next : Ref) → Content

abbrev pub mark_stack_size : ℕ
mark_stack_size = 256

abbrev pub Marked : Type 0
Marked = ℕ → Bool

-- The object that fe_mark marks next, if the pointer is one to an object that is not marked.
abbrev pub visit : ℕ → Marked → Ref → Option ℕ
visit object_count marked immediate = none
visit object_count marked (at i) = if ltb i object_count && not (marked i) then some i else none

-- What the switch of fe_mark pushes on its stack, in order.
abbrev pub slot_refs : List (Ref × Ref) → List Ref
slot_refs [] = []
slot_refs ((key, value) ∷ slots) = key ∷ value ∷ slot_refs slots

abbrev pub pushed : Content → List Ref
pushed (pair car cdr) = car ∷ []
pushed (map slots) = slot_refs slots
pushed (pointer slots) = slot_refs slots
pushed _ = []

-- What it goes on with (`continue`) before it pops.
abbrev pub followed : Content → List Ref
followed (pair car cdr) = cdr ∷ []
followed (func cdr) = cdr ∷ []
followed (macro cdr) = cdr ∷ []
followed (symbol cdr) = cdr ∷ []
followed _ = []

abbrev pub and_then {ℓ ℓ'} : {A : Type ℓ} {B : Type ℓ'} → Option A → (A → Option B) → Option B
and_then none f = none
and_then (some a) f = f a

-- Pushes, or marks by recursion what no longer fits on the stack.
pub push_all :
    (Marked → Ref → Option Marked) → Marked → List Ref → List Ref → Option (Marked × List Ref)
push_all recurse marked [] stack = some (marked, stack)
push_all recurse marked (r ∷ rs) stack = elim (ltb (length stack) mark_stack_size) [
  | true ↦ push_all recurse marked rs (r ∷ stack)
  | false ↦ and_then (recurse marked r) (λ marked'. push_all recurse marked' rs stack)
]

-- The loop of fe_mark. The head of the list is `obj` and the rest is the stack; `none` is a lack of
-- fuel.
pub mark_loop : (ℕ → Content) → ℕ → (fuel : ℕ) → Marked → List Ref → Option Marked
unfolding push_all
mark_loop contents object_count zero marked pending = none
mark_loop contents object_count (suc fuel) marked [] = some marked
mark_loop contents object_count (suc fuel) marked (obj ∷ stack) =
    elim (visit object_count marked obj) [
      | none ↦ mark_loop contents object_count fuel marked stack
      | some i ↦
          and_then
            (push_all (λ marked' r. mark_loop contents object_count fuel marked' (r ∷ []))
              (update marked i true) (pushed (contents i)) stack)
            (λ (marked', stack').
              mark_loop contents object_count fuel marked' (followed (contents i) ++ stack'))
    ]

pub fe_mark : (ℕ → Content) → ℕ → (fuel : ℕ) → Marked → Ref → Option Marked
unfolding mark_loop
fe_mark contents object_count fuel marked obj =
    mark_loop contents object_count fuel marked (obj ∷ [])

-- The calls of fe_mark in collectgarbage.
pub mark_roots : (ℕ → Content) → ℕ → (fuel : ℕ) → Marked → List Ref → Option Marked
unfolding fe_mark
mark_roots contents object_count fuel marked [] = some marked
mark_roots contents object_count fuel marked (r ∷ rs) =
    and_then (fe_mark contents object_count fuel marked r)
      (λ marked'. mark_roots contents object_count fuel marked' rs)

-- The part of fe_Context that the collector reads and writes. gcstack holds its first gcstack_idx
-- entries.
pub record Heap : Type 0 where
  pub contents : ℕ → Content
  pub marked : Marked
  pub object_count : ℕ
  pub freelist : Ref
  pub gcstack : List Ref
  pub modulestack : Ref
  pub symlist : Ref
  pub loaded_module_values : List Ref
  pub live_count : ℕ
  pub allocs_since_gc : ℕ
  pub bytes_since_gc : ℕ
  pub gc_threshold : ℕ
  pub byte_threshold : ℕ
  pub gc_runs : ℕ
  pub object_allocations_total : ℕ

abbrev pub is_free : Content → Bool
is_free (free next) = true
is_free _ = false

-- One round of the sweep; `live_count` holds the local counter `live`.
pub sweep_at : ℕ → Heap → Heap
sweep_at i h =
    if is_free (h.contents i)
    then h
    else if h.marked i
    then record h { marked = update h.marked i false; live_count = h.live_count + 1 }
    else record h { contents = update h.contents i (free h.freelist); freelist = at i }

-- The sweep from index `i` on, with `rounds` = object_count - i.
pub sweep : (rounds i : ℕ) → Heap → Heap
unfolding sweep_at
sweep zero i h = h
sweep (suc rounds) i h = sweep rounds (i + 1) (sweep_at i h)

abbrev pub gc_min_threshold : ℕ
gc_min_threshold = 1024

abbrev pub update_thresholds : Heap → Heap
update_thresholds h = record h {
  allocs_since_gc = 0;
  bytes_since_gc = 0;
  gc_threshold =
      if ltb (h.live_count * 2) gc_min_threshold then gc_min_threshold else h.live_count * 2;
  gc_runs = h.gc_runs + 1;
}

abbrev pub gc_roots : Heap → List Ref
gc_roots h = h.gcstack ++ (h.modulestack ∷ h.symlist ∷ h.loaded_module_values)

pub collectgarbage : (fuel : ℕ) → Heap → Option Heap
unfolding mark_roots sweep
collectgarbage fuel h =
    and_then (mark_roots h.contents h.object_count fuel h.marked (gc_roots h)) (λ marked'.
      some (
        update_thresholds (sweep h.object_count 0 (record h { marked = marked'; live_count = 0 }))))

abbrev pub gc_stack_size : ℕ
gc_stack_size = 1024

-- fe_error leaves the heap as it is at the call.
pub data Allocation : Type 0 where
  allocated : Heap → ℕ → Allocation
  out_of_memory gc_stack_overflow : Heap → Allocation

-- `ctx->freelist = cdr(obj)` and what follows, at an object of the free list.
abbrev pub next_free : Content → Ref
next_free (free next) = next
next_free _ = immediate

-- fe_pushgc of the object `i`.
abbrev pub fe_pushgc : Heap → ℕ → Allocation
fe_pushgc h i =
    if length h.gcstack == gc_stack_size
    then gc_stack_overflow h
    else allocated (record h { gcstack = h.gcstack ++ (at i ∷ []) }) i

pub take_free : Heap → Allocation
take_free h = elim h.freelist [
  | immediate ↦ out_of_memory h
  | at i ↦
      let taken = record h {
        freelist = next_free (h.contents i);
        allocs_since_gc = h.allocs_since_gc + 1;
        object_allocations_total = h.object_allocations_total + 1;
      } in
      fe_pushgc taken i
]

abbrev pub is_immediate : Ref → Bool
is_immediate immediate = true
is_immediate (at i) = false

abbrev pub wants_collection : Heap → Bool
wants_collection h =
    leb h.gc_threshold h.allocs_since_gc
    || (leb h.byte_threshold h.bytes_since_gc || is_immediate h.freelist)

pub object : (fuel : ℕ) → Heap → Option Allocation
unfolding collectgarbage take_free
object fuel h =
    if wants_collection h
    then and_then (collectgarbage fuel h) (λ h'. some (take_free h'))
    else some (take_free h)

-- The new pair, and the writes of fe_cons to it.
abbrev pub write_pair : Ref → Ref → Allocation → Allocation
write_pair car cdr (allocated h i) =
    allocated
      (record h { contents = update h.contents i (pair car cdr); marked = update h.marked i false })
      i
write_pair car cdr failed = failed

pub fe_cons : (fuel : ℕ) → Ref → Ref → Heap → Option Allocation
unfolding object
fe_cons fuel car cdr h = and_then (object fuel h) (λ a. some (write_pair car cdr a))

pub fe_restoregc : Heap → ℕ → Heap
fe_restoregc h idx = record h { gcstack = take idx h.gcstack }

pub fe_savegc : Heap → ℕ
fe_savegc h = length h.gcstack
