-- ===== src/Budget/Counts.antt =====
-- What the functions of the limits keep of the step limit, the steps and the nesting of runs.
use fex.Common.{
  ℕ, ◌+◌, ◌-◌, ◌%◌, ◌^◌, ◌<◌, ◌≤◌, ◌≡◌, refl, ◌∙◌, Bool, true, false, ◌&&◌, Option, none, some,
  if◌then◌else◌, ltb, arith,
}
use fex.Budget.{
  Limits, Abort, check_eval_budget, poll_eval_abort, poll_timeout, poll_interrupt, or_else_poll,
  begin_eval_run, end_eval_run, step_limit_exceeded,
}

pub record Kept (l l' : Limits) : Type 0 where
  pub step_limit : l'.step_limit ≡ l.step_limit
  pub steps : l'.steps_executed ≡ l.steps_executed
  pub nesting : l'.eval_depth ≡ l.eval_depth

Kept-refl : (l : Limits) → Kept l l
Kept-refl l = record { step_limit = refl; steps = refl; nesting = refl }

poll_timeout-Kept :
    (l : Limits) (immediate : Bool) (now : ℕ) → Kept l (poll_timeout l immediate now).0
unfolding poll_timeout
poll_timeout-Kept l immediate now = record {
  step_limit = ground arith;
  steps = ground arith;
  nesting = ground arith;
}

poll_interrupt-Kept :
    (l : Limits) (immediate stop : Bool) → Kept l (poll_interrupt l immediate stop).0
unfolding poll_interrupt
poll_interrupt-Kept l immediate stop = record {
  step_limit = ground arith;
  steps = ground arith;
  nesting = ground arith;
}

poll_eval_abort-Kept :
    (l : Limits) (immediate : Bool) (now : ℕ) (stop : Bool)
    → Kept l (poll_eval_abort l immediate now stop).0
unfolding poll_eval_abort
poll_eval_abort-Kept l immediate now stop =
    both (poll_timeout l immediate now) (poll_timeout-Kept l immediate now)
  where
    both :
        (r : Limits × Option Abort)
        → Kept l r.0
        → Kept l (or_else_poll r (λ c. poll_interrupt c immediate stop)).0
    both (c, some a) k = k
    both (c, none) k =
        let k' = poll_interrupt-Kept c immediate stop in
        record {
          step_limit = k'.step_limit ∙ k.step_limit;
          steps = k'.steps ∙ k.steps;
          nesting = k'.nesting ∙ k.nesting;
        }

-- The limits behind a step that was not stopped.
pub record Counted (l l' : Limits) : Type 0 where
  pub step_limit : l'.step_limit ≡ l.step_limit
  pub steps : l'.steps_executed ≡ l.steps_executed + 1
  pub within : l.steps_executed + 1 ≤ l.step_limit
  pub nesting : l'.eval_depth ≡ l.eval_depth

abbrev counted : Limits → Limits
counted l = record l { steps_executed = (l.steps_executed + 1) % 2 ^ 64 }

counted-Counted :
    (l : Limits) (now : ℕ) (stop : Bool) (over : Bool)
    → (ltb 0 l.step_limit && ltb l.step_limit (counted l).steps_executed) ≡ over
    → 0 < l.step_limit
    → l.step_limit < 2 ^ 64 - 1
    → l.steps_executed ≤ l.step_limit
    → (if over
        then (counted l, some step_limit_exceeded)
        else poll_eval_abort (counted l) false now stop).1
      ≡ none
    → Counted l
        (if over
          then (counted l, some step_limit_exceeded)
          else poll_eval_abort (counted l) false now stop).0
counted-Counted l now stop true e positive small start h = cc
counted-Counted l now stop false e positive small start h =
    let k = poll_eval_abort-Kept (counted l) false now stop in
    let wraps : (l.steps_executed + 1) % 2 ^ 64 ≡ l.steps_executed + 1 =
      omega (arith, small, start) in
    record {
      step_limit = k.step_limit;
      steps = k.steps ∙ wraps;
      within = ground (arith, e, wraps, positive);
      nesting = k.nesting;
    }

pub check_eval_budget-Counted :
    (l : Limits) (now : ℕ) (stop : Bool)
    → 0 < l.step_limit
    → l.step_limit < 2 ^ 64 - 1
    → l.steps_executed ≤ l.step_limit
    → (check_eval_budget l now stop).1 ≡ none
    → Counted l (check_eval_budget l now stop).0
unfolding check_eval_budget
check_eval_budget-Counted l now stop positive small start h =
    counted-Counted l now stop _ refl positive small start h

-- A run that is not within another one starts with no steps taken.
pub begin_eval_run-starts :
    (l : Limits) (now : ℕ)
    → l.eval_depth ≡ 0
    → ((begin_eval_run l now).step_limit ≡ l.step_limit)
      × ((begin_eval_run l now).steps_executed ≡ 0)
      × ((begin_eval_run l now).eval_depth ≡ 1)
unfolding begin_eval_run
begin_eval_run-starts l now e = (ground (arith, e), ground (arith, e), ground (arith, e))

pub end_eval_run-nesting : (l : Limits) → l.eval_depth ≡ 1 → (end_eval_run l).eval_depth ≡ 0
unfolding end_eval_run
end_eval_run-nesting l e = ground (arith, e)

pub end_eval_run-within :
    (l : Limits)
    → l.steps_executed ≤ l.step_limit
    → (end_eval_run l).steps_executed ≤ (end_eval_run l).step_limit
unfolding end_eval_run
end_eval_run-within l le = ground (arith, le)
