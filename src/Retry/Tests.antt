-- ===== src/Retry/Tests.antt =====
-- Runs of the retry counter and DoRetry, and their theorems at concrete counters.
use b_go_util.Base.{
  ℕ, zero, suc, pos, ◌+ℤ◌, wrap64, true, false, Option, none, some, ◌≡◌, refl, arith, ◌+◌, ◌*◌,
}
use b_go_util.Retry.{
  new_step_retry_counter, new_retry_counter, next_interval, grown, has_next, do_retry,
}
use b_go_util.Retry.Intervals.{intervals_closed, after, least, counter}
use b_go_util.Retry.Runs.{do_retry_ends, Ended}

made_step : new_step_retry_counter (pos 3) (pos 2) (pos 4) (pos 9) ≡ some (counter 0 3 2 9 4)
unfolding new_step_retry_counter
made_step = refl

intervals_closed_test :
    ((next_interval (after 1 (counter 0 3 2 9 4))).1 ≡ pos (least 9 (2 + 2 * 4)))
    × (has_next (after 1 (counter 0 3 2 9 4)) ≡ true)
    × (has_next (after 3 (counter 0 3 2 9 4)) ≡ false)
    × (next_interval (after 3 (counter 0 3 2 9 4)) ≡ (after 3 (counter 0 3 2 9 4), pos 0))
intervals_closed_test =
    intervals_closed 3 2 9 4 1 (counter 0 3 2 9 4) made_step (omega arith) (omega arith)
      (omega arith) (omega arith) (omega arith)

-- Fails twice, then succeeds.
abbrev third_time : ℕ → Option ℕ
third_time zero = some 7
third_time (suc zero) = some 8
third_time (suc (suc n)) = none

made_fixed : new_retry_counter (pos 3) (pos 5) ≡ some (counter 0 3 5 0 0)
unfolding new_retry_counter new_step_retry_counter
made_fixed = refl

do_retry_ends_example : (n : ℕ) × Ended third_time (counter 0 3 5 0 0) 4 0 3 n
do_retry_ends_example =
    do_retry_ends third_time 3 4 (counter 0 3 5 0 0) made_fixed (omega arith) (omega arith)

third_time_test : do_retry 4 (counter 0 3 5 0 0) third_time 0 ≡ some (none, 3)
unfolding do_retry next_interval grown wrap64 ◌+ℤ◌
third_time_test = refl

-- A first interval above the max interval stays above it.
above_max_test : (next_interval (counter 0 3 20 9 4)).1 ≡ pos 20
unfolding next_interval grown
above_max_test = refl
