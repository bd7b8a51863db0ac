-- ===== src/Memory/Bounds.antt =====
-- The account of the tracked allocator and its limit.
use fex.Common.{
  ℕ, ◌+◌, ◌-◌, ◌%◌, ◌^◌, ◌≤◌, ◌<◌, ◌≡◌, refl, ◌⊎◌, inl, inr, Bool, true, false, ◌&&◌, Option, none,
  some, List, [], ◌∷◌, arith, if◌then◌else◌, ltb, leb, ◌==◌, Bool-cases, ==→eq, ltb→lt,
}
use fex.Memory.{
  Memory, grows_over, memory_would_exceed_limit, memory_note_alloc, memory_note_free,
  tracked_realloc, tracked_free, note_resize, fail, size_max, header_size,
}

abbrev pub total : List ℕ → ℕ
total [] = 0
total (n ∷ ns) = n + total ns

-- The account against the sizes of the blocks that are in use: it is their sum on top of the base,
-- below 2 ^ 64, and the peak is no lower.
pub record IsExact (ctx : Memory) (blocks : List ℕ) : Type 0 where
  pub used : ctx.memory_used ≡ ctx.base_memory_bytes + total blocks
  pub no_wrap : ctx.memory_used < 2 ^ 64
  pub peak : ctx.memory_used ≤ ctx.peak_memory_used

-- The test of the limit is that of the exact sum, with no overflow on the way.
pub memory_would_exceed_limit_lem :
    (ctx : Memory) (extra : ℕ)
    → memory_would_exceed_limit ctx extra
      ≡ (if ctx.memory_limit == 0 then false else ltb ctx.memory_limit (ctx.memory_used + extra))
unfolding memory_would_exceed_limit
memory_would_exceed_limit_lem ctx extra = ground arith

memory_note_alloc-IsExact :
    (ctx : Memory) (size : ℕ) (blocks : List ℕ)
    → IsExact ctx blocks
    → ctx.memory_used + size < 2 ^ 64
    → IsExact (memory_note_alloc ctx size) (size ∷ blocks)
unfolding memory_note_alloc
memory_note_alloc-IsExact ctx size blocks exact fits =
    let wrap : (ctx.memory_used + size) % 2 ^ 64 ≡ ctx.memory_used + size = omega arith in
    ground arith

memory_note_free-IsExact :
    (ctx : Memory) (size : ℕ) (blocks rest : List ℕ)
    → IsExact ctx blocks
    → total blocks ≡ size + total rest
    → IsExact (memory_note_free ctx size) rest
unfolding memory_note_free
memory_note_free-IsExact ctx size blocks rest exact split = record {
  used = ground arith;
  no_wrap = ground arith;
  peak = ground arith;
}

-- What an allocation of `size` bytes returns beside the blocks in use: a block of that size,
-- within the limit, or NULL with the account as it was. The flag tells a limit that is exceeded
-- from any other failure.
abbrev pub AllocOutcome : Memory → List ℕ → ℕ → Memory × Option ℕ → Type 0
AllocOutcome ctx blocks size (ctx', some n) =
    (n ≡ size)
    × IsExact ctx' (size ∷ blocks)
    × ((ctx.memory_limit ≡ 0) ⊎ (ctx'.memory_used ≤ ctx.memory_limit))
AllocOutcome ctx blocks size (ctx', none) =
    IsExact ctx' blocks
    × (ctx'.memory_used ≡ ctx.memory_used)
    × (ctx'.alloc_failure_active ≡ true)
    × (ctx'.alloc_failure_is_limit
        ≡ (leb size (size_max - header_size) && memory_would_exceed_limit ctx size))

would_exceed_fits :
    (ctx : Memory) (size : ℕ)
    → memory_would_exceed_limit ctx size ≡ false
    → (ctx.memory_limit ≡ 0) ⊎ (ctx.memory_used + size ≤ ctx.memory_limit)
would_exceed_fits ctx size e =
    let e' = rw (memory_would_exceed_limit_lem ctx size) at e in grind arith

-- A charge that passes the test does not wrap around.
charge_fits :
    (ctx : Memory) (extra : ℕ)
    → ctx.memory_limit < 2 ^ 64
    → (ctx.memory_limit ≡ 0 → ctx.memory_used + extra < 2 ^ 64)
    → memory_would_exceed_limit ctx extra ≡ false
    → ctx.memory_used + extra < 2 ^ 64
charge_fits ctx extra small no_limit e = elim (would_exceed_fits ctx extra e) [
  | inl none_set ↦ no_limit none_set
  | inr within ↦ omega arith
]

charge_within :
    (ctx : Memory) (extra : ℕ)
    → memory_would_exceed_limit ctx extra ≡ false
    → (ctx.memory_limit ≡ 0) ⊎ ((memory_note_alloc ctx extra).memory_used ≤ ctx.memory_limit)
unfolding memory_note_alloc
charge_within ctx extra e = elim (would_exceed_fits ctx extra e) [
  | inl none_set ↦ inl none_set
  | inr within ↦ inr (omega arith)
]

-- What a resize of a block from `old` to `new` bytes returns, the other blocks being `rest`: the
-- block at its new size, within the limit if it grew; nothing, if it was freed by a resize to 0;
-- or NULL with the account as it was.
abbrev pub ReallocOutcome : Memory → List ℕ → List ℕ → (old new : ℕ) → Memory × Option ℕ → Type 0
ReallocOutcome ctx blocks rest old new (ctx', some n) =
    (n ≡ new)
    × IsExact ctx' (new ∷ rest)
    × ((ctx.memory_limit ≡ 0) ⊎ ((new ≤ old) ⊎ (ctx'.memory_used ≤ ctx.memory_limit)))
ReallocOutcome ctx blocks rest old new (ctx', none) =
    ((new ≡ 0) × IsExact ctx' rest)
    ⊎ (IsExact ctx' blocks
        × (ctx'.memory_used ≡ ctx.memory_used)
        × (ctx'.alloc_failure_active ≡ true))

IsExact-of_total :
    (ctx : Memory) (xs ys : List ℕ) → IsExact ctx xs → total xs ≡ total ys → IsExact ctx ys
IsExact-of_total ctx xs ys exact e = ground arith

note_resize-IsExact :
    (ctx : Memory) (old new : ℕ) (blocks rest : List ℕ)
    → IsExact ctx blocks
    → total blocks ≡ old + total rest
    → (old < new → ctx.memory_used + (new - old) < 2 ^ 64)
    → IsExact (note_resize ctx old new) (new ∷ rest)
unfolding note_resize
note_resize-IsExact ctx old new blocks rest exact split fits = elim (Bool-cases (ltb old new)) [
  | inl grows ↦
      let charged =
        memory_note_alloc-IsExact ctx (new - old) blocks exact (fits (ltb→lt old new grows)) in
      rw grows (IsExact-of_total _ _ _ charged (omega (arith, ltb→lt old new grows)))
  | inr shrinks ↦ rw shrinks (elim (Bool-cases (ltb new old)) [
    | inl less ↦
        rw less (memory_note_free-IsExact ctx (old - new) blocks (new ∷ rest) exact (ground arith))
    | inr same ↦ rw same (ground arith)
  ])
]

failed-IsExact :
    (ctx : Memory) (is_limit : Bool) (blocks : List ℕ)
    → IsExact ctx blocks
    → IsExact (fail ctx is_limit) blocks
failed-IsExact ctx is_limit blocks exact = ground arith

-- Freeing a block takes its size off the account: the floor is never needed.
pub tracked_free-IsExact :
    (ctx : Memory) (size : ℕ) (blocks rest : List ℕ)
    → IsExact ctx blocks
    → total blocks ≡ size + total rest
    → IsExact (tracked_free ctx (some size)) rest
unfolding tracked_free
tracked_free-IsExact ctx size blocks rest exact split =
    memory_note_free-IsExact ctx size blocks rest exact split

grow_test :
    (ctx : Memory) (old new : ℕ)
    → grows_over ctx old new ≡ false
    → old < new
    → memory_would_exceed_limit ctx (new - old) ≡ false
unfolding grows_over
grow_test ctx old new e less = ground arith

resize_within :
    (ctx : Memory) (old new : ℕ)
    → grows_over ctx old new ≡ false
    → (ctx.memory_limit ≡ 0)
      ⊎ ((new ≤ old) ⊎ ((note_resize ctx old new).memory_used ≤ ctx.memory_limit))
unfolding note_resize
resize_within ctx old new e = elim (Bool-cases (ltb old new)) [
  | inl grows ↦
      rw grows
        (elim (charge_within ctx (new - old) (grow_test ctx old new e (ltb→lt old new grows))) [
          | inl none_set ↦ inl none_set
          | inr within ↦ inr (inr within)
        ])
  | inr shrinks ↦ inr (inl (ground arith))
]

-- For an exact account with the old block in it and a 64-bit limit, and without a limit for a sum
-- of sizes below 2 ^ 64, tracked_realloc keeps the account exact on every branch: the block has the
-- new size, and stays within the limit if it grew, or it is freed by the size 0, or the call fails
-- with the account as it was.
pub tracked_realloc-IsExact :
    (ctx : Memory) (realloc_works : Bool) (old new : ℕ) (blocks rest : List ℕ)
    → IsExact ctx blocks
    → total blocks ≡ old + total rest
    → ctx.memory_limit < 2 ^ 64
    → (ctx.memory_limit ≡ 0 → ctx.memory_used + new < 2 ^ 64)
    → ReallocOutcome ctx blocks rest old new (tracked_realloc ctx realloc_works (some old) new)
unfolding tracked_realloc
tracked_realloc-IsExact ctx works old new blocks rest exact split small no_limit =
    elim (Bool-cases (new == 0)) [
      | inl e ↦ rw e (inl (==→eq new 0 e, tracked_free-IsExact ctx old blocks rest exact split))
      | inr e ↦ rw e (elim (Bool-cases (ltb (size_max - header_size) new)) [
        | inl big ↦ rw big (inr (failed-IsExact ctx false blocks exact, refl, refl))
        | inr fine ↦ rw fine (elim (Bool-cases (grows_over ctx old new)) [
          | inl over ↦ rw over (inr (failed-IsExact ctx true blocks exact, refl, refl))
          | inr under ↦ rw under (elim (Bool-cases works) [
            | inl q ↦ rw q (
              refl,
              note_resize-IsExact ctx old new blocks rest exact split (λ less.
                  charge_fits ctx (new - old) small (λ z. omega (arith, no_limit z))
                    (grow_test ctx old new under less)),
              resize_within ctx old new under,
            )
            | inr q ↦ rw q (inr (failed-IsExact ctx false blocks exact, refl, refl))
          ])
        ])
      ])
    ]
