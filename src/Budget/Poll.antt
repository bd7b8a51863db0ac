-- ===== src/Budget/Poll.antt =====
-- How often the clock and the handler are asked, and what no limit means.
use fex.Common.{
  ℕ, ◌+◌, ◌^◌, ◌≤◌, ◌<◌, ◌≡◌, ◌↔◌, ◌⊎◌, Bool, false, ◌&&◌, none, some, arith, if◌then◌else◌, leb,
  ltb,
}
use fex.Budget.{
  Limits, timeout_exceeded, interrupted, poll_eval_abort, fe_poll_abort, check_eval_budget,
  fe_set_timeout_ms, fe_set_interrupt_handler, begin_eval_run, end_eval_run,
}

-- The countdowns stand within their intervals. Every setter and every poll keeps this.
pub record IsArmed (ctx : Limits) : Type 0 where
  pub timeout_range : (ctx.timeout_ms ≡ 0) ⊎ (ctx.timeout_countdown ≤ 64)
  pub interrupt_range : ctx.interrupt_countdown ≤ ctx.interrupt_interval

-- With neither a timeout nor a handler a poll never aborts, and changes nothing.
pub poll_none :
    (ctx : Limits) (immediate : Bool) (now : ℕ) (stop : Bool)
    → ctx.timeout_ms ≡ 0
    → ctx.handler ≡ false
    → poll_eval_abort ctx immediate now stop ≡ (ctx, none)
unfolding poll_eval_abort
poll_none ctx immediate now stop e e' = rw (e, e')

-- An immediate poll reports exactly a deadline that has passed or a handler that says stop; the
-- deadline comes first.
pub fe_poll_abort_lem :
    (ctx : Limits) (now : ℕ) (stop : Bool)
    → (fe_poll_abort ctx now stop).1 ≡ (
        if ltb 0 ctx.timeout_ms && leb ctx.timeout_deadline_ms now
        then some timeout_exceeded
        else if ctx.handler && stop
        then some interrupted
        else none)
unfolding fe_poll_abort
fe_poll_abort_lem ctx now stop = ground arith

-- A timeout above 0 that is set at `now` is reported by an immediate poll at `later` exactly from
-- the moment now + timeout on, if that moment is a 64-bit number.
pub fe_set_timeout_ms-deadline :
    (ctx : Limits) (now timeout later : ℕ) (stop : Bool)
    → 0 < timeout
    → now + timeout < 2 ^ 64
    → ((fe_poll_abort (fe_set_timeout_ms ctx now timeout) later stop).1 ≡ some timeout_exceeded)
      ↔ (now + timeout ≤ later)
unfolding fe_set_timeout_ms
fe_set_timeout_ms-deadline ctx now timeout later stop pos fits =
    rw (fe_poll_abort_lem (fe_set_timeout_ms ctx now timeout) later stop)
      (λ h. ground arith, λ h. ground arith)

-- A 64-bit timeout that is so long that now + timeout wraps around 2 ^ 64 is reported at once by an
-- immediate poll.
pub fe_set_timeout_ms-wraps :
    (ctx : Limits) (now timeout : ℕ) (stop : Bool)
    → now < 2 ^ 64
    → timeout < 2 ^ 64
    → 2 ^ 64 ≤ now + timeout
    → (fe_poll_abort (fe_set_timeout_ms ctx now timeout) now stop).1 ≡ some timeout_exceeded
unfolding fe_set_timeout_ms fe_poll_abort
fe_set_timeout_ms-wraps ctx now timeout stop small small' wraps = ground arith

module _ (ctx : Limits) (armed : IsArmed ctx) where
  pub fe_set_timeout_ms-IsArmed : (now timeout : ℕ) → IsArmed (fe_set_timeout_ms ctx now timeout)
  unfolding fe_set_timeout_ms
  fe_set_timeout_ms-IsArmed now timeout = ground arith

  pub fe_set_interrupt_handler-IsArmed :
      (fn : Bool) (interval : ℕ) → IsArmed (fe_set_interrupt_handler ctx fn interval)
  unfolding fe_set_interrupt_handler
  fe_set_interrupt_handler-IsArmed fn interval = ground arith

  pub begin_eval_run-IsArmed : (now : ℕ) → IsArmed (begin_eval_run ctx now)
  unfolding begin_eval_run
  begin_eval_run-IsArmed now = ground arith

  pub end_eval_run-IsArmed : IsArmed (end_eval_run ctx)
  unfolding end_eval_run
  end_eval_run-IsArmed = ground arith

  -- An evaluation step keeps both countdowns within their intervals, if they were.
  pub check_eval_budget-IsArmed :
      (now : ℕ) (stop : Bool) → IsArmed (check_eval_budget ctx now stop).0
  unfolding check_eval_budget
  check_eval_budget-IsArmed now stop = ground arith
