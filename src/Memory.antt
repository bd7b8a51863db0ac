-- ===== src/Memory.antt =====
-- The tracked allocator of src/fe.c: memory_would_exceed_limit to memory_error.
--
-- A block is known by the size in its header; the bytes and addresses do not matter here. Whether
-- malloc or realloc succeeds is an argument. A `size_t` is a number below 2 ^ 64 and wraps around.
-- The header takes sizeof(fe_AllocHeader) bytes, 16 with a `long double` of 16 bytes.
pub mod Bounds
mod Examples
use fex.Common.{
  ℕ, ◌+◌, ◌-◌, ◌%◌, ◌^◌, Bool, true, false, ◌&&◌, Option, none, some, if◌then◌else◌, ltb, leb, ◌==◌,
}

pub record Memory : Type 0 where
  pub memory_limit : ℕ
  pub memory_used : ℕ
  pub peak_memory_used : ℕ
  pub base_memory_bytes : ℕ
  pub alloc_failure_active : Bool
  pub alloc_failure_is_limit : Bool

abbrev pub size_max : ℕ
size_max = 2 ^ 64 - 1

abbrev pub header_size : ℕ
header_size = 16

pub memory_would_exceed_limit : Memory → ℕ → Bool
memory_would_exceed_limit ctx extra =
    if ctx.memory_limit == 0
    then false
    else if ltb ctx.memory_limit ctx.memory_used
    then true
    else ltb (ctx.memory_limit - ctx.memory_used) extra

pub memory_note_alloc : Memory → ℕ → Memory
memory_note_alloc ctx size =
    let used = (ctx.memory_used + size) % 2 ^ 64 in
    record ctx {
      memory_used = used;
      peak_memory_used = if ltb ctx.peak_memory_used used then used else ctx.peak_memory_used;
      alloc_failure_active = false;
      alloc_failure_is_limit = false;
    }

pub memory_note_free : Memory → ℕ → Memory
memory_note_free ctx size =
    let floor = ctx.base_memory_bytes in
    record ctx {
      memory_used =
          if leb ((floor + size) % 2 ^ 64) ctx.memory_used then ctx.memory_used - size else floor;
    }

abbrev pub fail : Memory → (is_limit : Bool) → Memory
fail ctx is_limit = record ctx { alloc_failure_active = true; alloc_failure_is_limit = is_limit }

-- The block is `some` of the size in its header, or `none` for NULL.
pub tracked_alloc : Memory → (malloc_works : Bool) → ℕ → Memory × Option ℕ
tracked_alloc ctx malloc_works size =
    if ltb (size_max - header_size) size
    then (fail ctx false, none)
    else if memory_would_exceed_limit ctx size
    then (fail ctx true, none)
    else if malloc_works
    then (memory_note_alloc ctx size, some size)
    else (fail ctx false, none)

pub tracked_free : Memory → Option ℕ → Memory
unfolding memory_note_free
tracked_free ctx none = ctx
tracked_free ctx (some size) = memory_note_free ctx size

-- The accounting of a block that realloc has moved from `old_size` to `new_size`.
pub note_resize : Memory → (old_size new_size : ℕ) → Memory
unfolding memory_note_alloc memory_note_free
note_resize ctx old_size new_size =
    if ltb old_size new_size
    then memory_note_alloc ctx (new_size - old_size)
    else if ltb new_size old_size
    then memory_note_free ctx (old_size - new_size)
    else record ctx { alloc_failure_active = false; alloc_failure_is_limit = false }

-- Whether a resize asks for more than the limit has left.
pub grows_over : Memory → (old_size new_size : ℕ) → Bool
grows_over ctx old_size new_size =
    ltb old_size new_size && memory_would_exceed_limit ctx (new_size - old_size)

pub tracked_realloc : Memory → (realloc_works : Bool) → Option ℕ → ℕ → Memory × Option ℕ
tracked_realloc ctx realloc_works none new_size = tracked_alloc ctx realloc_works new_size
tracked_realloc ctx realloc_works (some old_size) new_size =
    if new_size == 0
    then (tracked_free ctx (some old_size), none)
    else if ltb (size_max - header_size) new_size
    then (fail ctx false, none)
    else if grows_over ctx old_size new_size
    then (fail ctx true, none)
    else if realloc_works
    then (note_resize ctx old_size new_size, some new_size)
    else (fail ctx false, none)

-- The message that memory_error raises: `true` is "memory limit exceeded", `false` the caller's.
pub memory_error : Memory → Bool
memory_error ctx = ctx.alloc_failure_is_limit
