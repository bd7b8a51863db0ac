-- ===== src/Sfc32/Examples.antt =====
-- The theorems of the generator at concrete states.
use fex.Common.{◌≡◌, ◌≢◌, refl, arith}
use fex.Sfc32.{State, sfc32_next, rounds}
use fex.Sfc32.Words.{IsWords, no_short_cycle}

abbrev small : State
small = record { a = 1; b = 2; c = 3; d = 4 }

-- The first number after the state 1, 2, 3, 4.
first_number : (sfc32_next small).1 ≡ 6291463
unfolding sfc32_next
first_number = refl

small-IsWords : IsWords small
small-IsWords = omega arith

no_short_cycle_example : rounds 1000 small ≢ small
no_short_cycle_example = no_short_cycle 1000 small (omega arith) (omega arith) (omega arith)
