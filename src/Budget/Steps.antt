-- ===== src/Budget/Steps.antt =====
-- Runs of evaluation steps under the limits.
use fex.Common.{
  ℕ, ◌+◌, ◌-◌, ◌%◌, ◌^◌, ◌≤◌, ◌<◌, ◌≡◌, ◌≢◌, refl, ◌⊎◌, inl, inr, Bool, false, Option, none, some,
  List, [], ◌∷◌, arith, if◌then◌else◌, ltb, Bool-cases, Option-cases, length, All,
}
use fex.Budget.{Limits, Abort, step_limit_exceeded, check_eval_budget, or_else_poll}
use fex.Budget.Poll.{IsArmed}

-- What happens in one poll: the clock's reading and the handler's answer.
abbrev pub Moment : Type 0
Moment = ℕ × Bool

-- A run of evaluation steps, up to the first abort.
pub run_steps : Limits → List Moment → Limits × Option Abort
run_steps ctx [] = (ctx, none)
run_steps ctx ((now, stop) ∷ ms) =
    or_else_poll (check_eval_budget ctx now stop) (λ c. run_steps c ms)

-- One step under a step limit alone.
check_step :
    (ctx : Limits) (now : ℕ) (stop : Bool)
    → ctx.timeout_ms ≡ 0
    → ctx.handler ≡ false
    → 0 < ctx.step_limit
    → ctx.steps_executed < 2 ^ 64 - 1
    → check_eval_budget ctx now stop ≡ (
      record ctx { steps_executed = ctx.steps_executed + 1 },
      if ltb ctx.step_limit (ctx.steps_executed + 1) then some step_limit_exceeded else none,
    )
unfolding check_eval_budget
check_step ctx now stop e e' pos small =
    let wrap : (ctx.steps_executed + 1) % 2 ^ 64 ≡ ctx.steps_executed + 1 = omega arith in
    rw wrap (ground arith)

-- With only a step limit in force, that is below 2 ^ 64 - 1 and not exceeded yet, a run of
-- evaluation steps is stopped exactly when its steps exceed the limit.
pub step_limit_exact :
    (ctx : Limits) (ms : List Moment)
    → ctx.timeout_ms ≡ 0
    → ctx.handler ≡ false
    → 0 < ctx.step_limit
    → ctx.step_limit < 2 ^ 64 - 1
    → ctx.steps_executed ≤ ctx.step_limit
    → (run_steps ctx ms).1 ≡ (
        if ltb ctx.step_limit (ctx.steps_executed + length ms)
        then some step_limit_exceeded
        else none)
unfolding run_steps
step_limit_exact ctx [] e e' pos small start = ground arith
step_limit_exact ctx ((now, stop) ∷ ms) e e' pos small start =
    rw (check_step ctx now stop e e' pos (omega arith))
      (elim (Bool-cases (ltb ctx.step_limit (ctx.steps_executed + 1))) [
        | inl over ↦ rw over (ground arith)
        | inr under ↦ rw under (
            rw
              (step_limit_exact (record ctx { steps_executed = ctx.steps_executed + 1 }) ms e e' pos
                small (ground arith))
              (ground arith))
      ])

-- One step past the deadline: it stops the run, or counts down.
late_step :
    (ctx : Limits) (now : ℕ) (stop : Bool)
    → 0 < ctx.timeout_ms
    → ctx.timeout_deadline_ms ≤ now
    → ((check_eval_budget ctx now stop).1 ≢ none)
      ⊎ ((1 < ctx.timeout_countdown)
          × ((check_eval_budget ctx now stop).0.timeout_countdown + 1 ≡ ctx.timeout_countdown)
          × ((check_eval_budget ctx now stop).0.timeout_ms ≡ ctx.timeout_ms)
          × ((check_eval_budget ctx now stop).0.timeout_deadline_ms ≡ ctx.timeout_deadline_ms))
unfolding check_eval_budget
late_step ctx now stop pos late = elim (Option-cases (check_eval_budget ctx now stop).1) [
  | inl e ↦ inr (ground arith, ground arith, ground arith, ground arith)
  | inr (a, e) ↦ inl (λ h. cc)
]

stops_after :
    (r : Limits × Option Abort) (f : Limits → Limits × Option Abort)
    → r.1 ≢ none
    → (or_else_poll r f).1 ≢ none
stops_after (c, some a) f h = h
stops_after (c, none) f h = absurd (h refl)

goes_on :
    (r : Limits × Option Abort) (f : Limits → Limits × Option Abort)
    → (f r.0).1 ≢ none
    → (or_else_poll r f).1 ≢ none
goes_on (c, some a) f h = cc
goes_on (c, none) f h = h

late_run :
    (ctx : Limits) (ms : List Moment)
    → 0 < ctx.timeout_ms
    → All (λ m. ctx.timeout_deadline_ms ≤ m.0) ms
    → ctx.timeout_countdown ≤ length ms
    → 0 < length ms
    → (run_steps ctx ms).1 ≢ none
unfolding run_steps
late_run ctx [] pos late long some_step = absurd (omega arith)
late_run ctx ((now, stop) ∷ ms) pos late long some_step = elim (late_step ctx now stop pos late.0) [
  | inl stopped ↦ stops_after (check_eval_budget ctx now stop) (λ c. run_steps c ms) stopped
  | inr (more, less, same, same') ↦
      goes_on (check_eval_budget ctx now stop) (λ c. run_steps c ms)
        (late_run (check_eval_budget ctx now stop).0 ms (omega arith) (rw same' late.1)
          (omega arith) (omega arith))
]

-- If the countdowns are within their intervals, a timeout is set and the clock shows no moment
-- before the deadline, then 64 evaluation steps or more are stopped.
pub passed_deadline_stops :
    (ctx : Limits) (ms : List Moment)
    → IsArmed ctx
    → 0 < ctx.timeout_ms
    → All (λ m. ctx.timeout_deadline_ms ≤ m.0) ms
    → 64 ≤ length ms
    → (run_steps ctx ms).1 ≢ none
passed_deadline_stops ctx ms armed pos late long =
    late_run ctx ms pos late (omega (arith, armed.timeout_range)) (omega arith)
