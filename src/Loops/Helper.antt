-- ===== src/Loops/Helper.antt =====
-- async/run_interval_helper.go. The context that a timeout and an outer context give is what the
-- rounds say of Err; cancelling it at the end releases it and is left out. `none` is a failed
-- assertion.
use b_go_util.Base.{
  ℤ, pos, negsuc, ◌-ℤ◌, ltb_ℤ, leb_ℤ, ℤ-discrete, same, Bool, true, false, not, ◌&&◌, Option, none,
  some, List, if◌then◌else◌, wrap64,
}
use b_go_util.Loops.{Round}
use b_go_util.Loops.Interval.{TickCall, run_cancelable_interval}

pub record RunIntervalHelper : Type 0 where
  pub interval : ℤ
  pub timeout : ℤ
  pub init_run_delay : ℤ
  pub max_retry_count : ℤ

unfoldable pub new_helper : ℤ → Option RunIntervalHelper
new_helper interval =
    if ltb_ℤ (pos 0) interval
    then some (record {
      interval = interval;
      timeout = pos 0;
      init_run_delay = interval;
      max_retry_count = negsuc 0;
    })
    else none

unfoldable pub with_timeout : RunIntervalHelper → ℤ → Option RunIntervalHelper
with_timeout r timeout =
    if leb_ℤ (pos 0) timeout then some (record r { timeout = timeout }) else none

unfoldable pub with_init_run_delay : RunIntervalHelper → ℤ → Option RunIntervalHelper
with_init_run_delay r delay =
    if leb_ℤ (pos 0) delay then some (record r { init_run_delay = delay }) else none

unfoldable pub with_max_retry_count : RunIntervalHelper → ℤ → Option RunIntervalHelper
with_max_retry_count r n = if leb_ℤ (pos 0) n then some (record r { max_retry_count = n }) else none

-- What Run does after the task: the retries left, and whether it calls Abort.
unfoldable pub after_task : ℤ → Bool → ℤ × Bool
after_task retry done =
    if not done && ltb_ℤ (pos 0) retry
    then (wrap64 (retry -ℤ pos 1), false)
    else if not done && same ℤ-discrete retry (pos 0)
    then (retry, true)
    else (retry, false)

unfoldable pub run_helper : RunIntervalHelper → List Round → List TickCall × Bool
unfolding run_cancelable_interval
run_helper r rounds =
    run_cancelable_interval after_task r.interval r.max_retry_count r.init_run_delay rounds
