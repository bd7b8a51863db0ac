-- ===== src/Memory/Examples.antt =====
-- The theorems of the tracked allocator at a concrete account, with a limit of 4096 bytes.
use fex.Common.{◌+◌, ◌≡◌, refl, true, false, some, none, [], ◌∷◌, arith, if◌then◌else◌, ltb, ◌==◌}
use fex.Memory.{Memory, memory_would_exceed_limit, tracked_alloc, tracked_realloc, tracked_free}
use fex.Memory.Bounds.{
  IsExact, ReallocOutcome, memory_would_exceed_limit_lem, tracked_realloc-IsExact,
  tracked_free-IsExact,
}

abbrev account : Memory
account = record {
  memory_limit = 4096;
  memory_used = 1100;
  peak_memory_used = 2000;
  base_memory_bytes = 1000;
  alloc_failure_active = false;
  alloc_failure_is_limit = false;
}

account-IsExact : IsExact account (60 ∷ 40 ∷ [])
account-IsExact = omega arith

over_limit : (tracked_alloc account true 3000).1 ≡ none
unfolding tracked_alloc memory_would_exceed_limit
over_limit = refl

memory_would_exceed_limit_lem_example : memory_would_exceed_limit account 2997 ≡ (
    if account.memory_limit == 0
    then false
    else ltb account.memory_limit (account.memory_used + 2997))
memory_would_exceed_limit_lem_example = memory_would_exceed_limit_lem account 2997

tracked_realloc-IsExact_example :
    ReallocOutcome account
      (60 ∷ 40 ∷ [])
      (60 ∷ [])
      40
      200
      (tracked_realloc account true (some 40) 200)
tracked_realloc-IsExact_example =
    tracked_realloc-IsExact account true 40 200 (60 ∷ 40 ∷ []) (60 ∷ []) account-IsExact
      (omega arith) (omega arith) (omega arith)

tracked_free-IsExact_example : IsExact (tracked_free account (some 40)) (60 ∷ [])
tracked_free-IsExact_example =
    tracked_free-IsExact account 40 (60 ∷ 40 ∷ []) (60 ∷ []) account-IsExact (omega arith)
