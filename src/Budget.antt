-- ===== src/Budget.antt =====
-- The execution limits of src/fe.c: the step limit, the timeout and the interrupt handler that the
-- evaluator polls (fe_set_step_limit to check_eval_budget).
--
-- The clock is an argument: what current_time_ms returns at the call. So is the answer of the
-- interrupt handler at the call. `fe_error` does not return: an error is the final outcome of a
-- call, with the message. A `size_t` or `uint64_t` is a number modulo 2 ^ 64.
pub mod Poll
pub mod Steps
pub mod Counts
mod Examples
use fex.Common.{
  ℕ, ◌+◌, ◌-◌, ◌%◌, ◌^◌, ◌≤◌, Bool, true, false, ◌&&◌, ◌||◌, Option, none, some, if◌then◌else◌, leb,
  ltb, ◌==◌,
}

-- The fields of fe_Context that the limits use. `handler` tells whether a handler is installed.
pub record Limits : Type 0 where
  pub step_limit : ℕ
  pub steps_executed : ℕ
  pub timeout_ms : ℕ
  pub timeout_deadline_ms : ℕ
  pub timeout_countdown : ℕ
  pub handler : Bool
  pub interrupt_interval : ℕ
  pub interrupt_countdown : ℕ
  pub eval_depth : ℕ

-- The messages of fe_error.
pub data Abort : Type 0 where
  timeout_exceeded interrupted step_limit_exceeded : Abort

abbrev pub word : ℕ
word = 2 ^ 64

abbrev pub timeout_check_interval : ℕ
timeout_check_interval = 64

abbrev pub io_abort_check_interval : ℕ
io_abort_check_interval = 64

pub fe_set_step_limit : Limits → ℕ → Limits
fe_set_step_limit ctx max_steps = record ctx { step_limit = max_steps }

pub fe_set_timeout_ms : Limits → (now : ℕ) → ℕ → Limits
fe_set_timeout_ms ctx now timeout_ms =
    if ltb 0 timeout_ms
    then record ctx {
      timeout_ms = timeout_ms;
      timeout_deadline_ms = (now + timeout_ms) % word;
      timeout_countdown = timeout_check_interval;
    }
    else record ctx { timeout_ms = timeout_ms; timeout_deadline_ms = 0; timeout_countdown = 0 }

pub fe_set_interrupt_handler : Limits → Bool → ℕ → Limits
fe_set_interrupt_handler ctx fn check_interval_steps =
    let interval =
      if fn then (if ltb 0 check_interval_steps then check_interval_steps else 1024) else 0 in
    record ctx { handler = fn; interrupt_interval = interval; interrupt_countdown = interval }

pub begin_eval_run : Limits → (now : ℕ) → Limits
begin_eval_run ctx now =
    let timed =
      if ltb 0 ctx.timeout_ms
      then record ctx {
        steps_executed = 0;
        timeout_deadline_ms = (now + ctx.timeout_ms) % word;
        timeout_countdown = timeout_check_interval;
        interrupt_countdown = ctx.interrupt_interval;
        eval_depth = ctx.eval_depth + 1;
      }
      else record ctx {
        steps_executed = 0;
        interrupt_countdown = ctx.interrupt_interval;
        eval_depth = ctx.eval_depth + 1;
      } in
    if ctx.eval_depth == 0 then timed else record ctx { eval_depth = ctx.eval_depth + 1 }

pub end_eval_run : Limits → Limits
end_eval_run ctx =
    let left = record ctx {
      eval_depth = if ltb 0 ctx.eval_depth then ctx.eval_depth - 1 else ctx.eval_depth;
    } in
    let countdown =
      if ltb 0 ctx.timeout_ms then timeout_check_interval else ctx.timeout_countdown in
    let reset = record left {
      timeout_countdown = countdown;
      interrupt_countdown = ctx.interrupt_interval;
    } in
    if left.eval_depth == 0 then reset else left

-- The half of poll_eval_abort that watches the clock.
pub poll_timeout : Limits → (immediate : Bool) → (now : ℕ) → Limits × Option Abort
poll_timeout ctx immediate now =
    let reset = record ctx { timeout_countdown = timeout_check_interval } in
    let counted = record ctx { timeout_countdown = ctx.timeout_countdown - 1 } in
    if ltb 0 ctx.timeout_ms
    then if immediate || leb ctx.timeout_countdown 1
      then (reset, if leb ctx.timeout_deadline_ms now then some timeout_exceeded else none)
      else (counted, none)
    else (ctx, none)

-- The half that asks the handler, whose answer at this call is `stop`.
pub poll_interrupt : Limits → (immediate stop : Bool) → Limits × Option Abort
poll_interrupt ctx immediate stop =
    let reset = record ctx { interrupt_countdown = ctx.interrupt_interval } in
    let counted = record ctx { interrupt_countdown = ctx.interrupt_countdown - 1 } in
    if ctx.handler
    then if immediate || leb ctx.interrupt_countdown 1
      then (reset, if stop then some interrupted else none)
      else (counted, none)
    else (ctx, none)

abbrev pub or_else_poll :
    Limits × Option Abort → (Limits → Limits × Option Abort) → Limits × Option Abort
or_else_poll (ctx, some a) rest = (ctx, some a)
or_else_poll (ctx, none) rest = rest ctx

pub poll_eval_abort :
    Limits → (immediate : Bool) → (now : ℕ) → (stop : Bool) → Limits × Option Abort
unfolding poll_timeout poll_interrupt
poll_eval_abort ctx immediate now stop =
    or_else_poll (poll_timeout ctx immediate now) (λ c. poll_interrupt c immediate stop)

pub fe_poll_abort : Limits → (now : ℕ) → (stop : Bool) → Limits × Option Abort
unfolding poll_eval_abort
fe_poll_abort ctx now stop = poll_eval_abort ctx true now stop

-- The countdown is the caller's. The answer's first part is the new countdown.
pub poll_io_abort : Limits → ℕ → (now : ℕ) → (stop : Bool) → ℕ × (Limits × Option Abort)
unfolding fe_poll_abort
poll_io_abort ctx countdown now stop =
    if ltb 1 countdown
    then (countdown - 1, (ctx, none))
    else (io_abort_check_interval, fe_poll_abort ctx now stop)

-- One evaluation step: `none` lets the evaluation go on.
pub check_eval_budget : Limits → (now : ℕ) → (stop : Bool) → Limits × Option Abort
unfolding poll_eval_abort
check_eval_budget ctx now stop =
    let counted = record ctx { steps_executed = (ctx.steps_executed + 1) % word } in
    if ltb 0 ctx.step_limit && ltb ctx.step_limit counted.steps_executed
    then (counted, some step_limit_exceeded)
    else poll_eval_abort counted false now stop
