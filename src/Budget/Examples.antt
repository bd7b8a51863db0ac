-- ===== src/Budget/Examples.antt =====
-- The theorems of the execution limits at concrete limits.
use fex.Common.{
  ℕ, zero, suc, ◌+◌, ◌≤◌, ◌≡◌, ◌≢◌, ◌↔◌, refl, inr, true, false, ◌&&◌, some, none, List, [], ◌∷◌,
  arith, if◌then◌else◌, ltb, leb, length,
}
use fex.Budget.{
  Limits, timeout_exceeded, interrupted, step_limit_exceeded, fe_set_timeout_ms, fe_poll_abort,
  poll_eval_abort,
}
use fex.Budget.Poll.{
  poll_none, fe_poll_abort_lem, fe_set_timeout_ms-deadline, fe_set_timeout_ms-wraps,
}
use fex.Budget.Steps.{Moment, run_steps, step_limit_exact, passed_deadline_stops}

abbrev three_steps : Limits
three_steps = record {
  step_limit = 3;
  steps_executed = 0;
  timeout_ms = 0;
  timeout_deadline_ms = 0;
  timeout_countdown = 0;
  handler = false;
  interrupt_interval = 0;
  interrupt_countdown = 0;
  eval_depth = 1;
}

abbrev timed : Limits
timed = record three_steps {
  step_limit = 0;
  timeout_ms = 50;
  timeout_deadline_ms = 1050;
  timeout_countdown = 64;
}

-- `n` steps at the time 2000.
abbrev steps : ℕ → List Moment
steps zero = []
steps (suc n) = (2000, false) ∷ steps n

poll_none_example : poll_eval_abort three_steps true 7 true ≡ (three_steps, none)
poll_none_example = poll_none three_steps true 7 true refl refl

fe_poll_abort_lem_example : (fe_poll_abort timed 1050 false).1 ≡ (
    if ltb 0 timed.timeout_ms && leb timed.timeout_deadline_ms 1050
    then some timeout_exceeded
    else if timed.handler && false
    then some interrupted
    else none)
fe_poll_abort_lem_example = fe_poll_abort_lem timed 1050 false

fe_set_timeout_ms-deadline_example :
    ((fe_poll_abort (fe_set_timeout_ms three_steps 1000 50) 1049 false).1 ≡ some timeout_exceeded)
    ↔ (1000 + 50 ≤ 1049)
fe_set_timeout_ms-deadline_example =
    fe_set_timeout_ms-deadline three_steps 1000 50 1049 false (omega arith) (omega arith)

fe_set_timeout_ms-wraps_example :
    (fe_poll_abort (fe_set_timeout_ms three_steps 1000 0xffff_ffff_ffff_ffff) 1000 false).1
    ≡ some timeout_exceeded
fe_set_timeout_ms-wraps_example =
    fe_set_timeout_ms-wraps three_steps 1000 0xffff_ffff_ffff_ffff false (omega arith) (omega arith)
      (omega arith)

step_limit_exact_example :
    (run_steps three_steps (steps 4)).1
    ≡ (if ltb 3 (0 + length (steps 4)) then some step_limit_exceeded else none)
step_limit_exact_example =
    step_limit_exact three_steps (steps 4) refl refl (omega arith) (omega arith) (omega arith)

passed_deadline_stops_example : (run_steps timed (steps 64)).1 ≢ none
passed_deadline_stops_example =
    passed_deadline_stops timed (steps 64)
      (record { timeout_range = inr (omega arith); interrupt_range = omega arith }) (omega arith)
      (omega arith) (omega arith)
