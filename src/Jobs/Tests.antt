-- ===== src/Jobs/Tests.antt =====
-- The theorems on the scheduler of tasks at concrete runs.
use Prim.Native.String.{String}
use b_go_util.Base.{
  Time, ℕ, pos, ltb_ℤ, Bool, true, false, ◌≡◌, refl, arith, Option, none, some, List, [], ◌∷◌, same,
  String-discrete, ℤ-discrete, ℕ_discrete,
}
use b_go_util.Atomic.{new_bool}
use b_go_util.Scripts.Tallies.{tallies, one_key}
use b_go_util.Locker.{got}
use b_go_util.Jobs.Lifecycle.{Scheduler, new_scheduler, start}
use b_go_util.Jobs.{
  has_come, is_up, reply_is_up, TaskOption, SchedulerOption, normalize, normalize_tasks,
  normalize_task, Moment, get_next_time, set_next_time, time_is, is_zero, run_once,
}
use b_go_util.Jobs.Runs.{whole, next_time_kept, RunsOnce, task_runs_locked}
use b_go_util.Jobs.Setup.{Call, adds, calls, NoneDisabled, start_runs_enabled}

abbrev no_text : String → Bool
no_text t = same String-discrete t ""

abbrev cleaning : TaskOption
cleaning = record {
  name = "clean";
  key_prefix = "task:";
  disabled = false;
  disable_task_lock = false;
  task_lock_ttl = pos 10000000000;
  invoke_internal = pos 60000000000;
  invoke_time_range = pos 1200 ∷ pos 1400 ∷ [];
}

abbrev some_option : SchedulerOption
some_option = record {
  has_redis = true;
  tasks = ("clean", cleaning) ∷ [];
  task_key_prefix = "task:";
}

abbrev some_scheduler : Scheduler ℕ
some_scheduler = record {
  option = some_option;
  has_client = false;
  is_running = new_bool false;
  tasks = [];
  is_canceled = false;
}

some_scheduler_test : new_scheduler no_text some_option ≡ some some_scheduler
unfolding new_scheduler normalize normalize_tasks normalize_task String-discrete
some_scheduler_test = refl

abbrev some_calls : List (Call ℕ)
some_calls = adds "clean" (some 1) ∷ adds "other" (some 2) ∷ []

start_runs_enabled_test :
    (r : Scheduler ℕ × List (TaskOption × ℕ)) × (start (calls no_text some_scheduler some_calls)
      ≡ some r)
    × NoneDisabled r.1
start_runs_enabled_test =
    start_runs_enabled no_text some_option some_scheduler some_calls some_scheduler_test

-- At noon, with the lock.
abbrev noon : Moment ℕ ℕ
noon = record {
  is_done = false;
  is_running = new_bool true;
  hhmm = pos 1230;
  now = record { seconds = pos 1700000000; nanos = 100000000 };
  get_fails = false;
  obtain = got 7;
}

abbrev failing : Option String → Option String × Bool
failing s = (s, true)

task_runs_locked_example : RunsOnce tallies one_key cleaning failing noon none
task_runs_locked_example = task_runs_locked tallies one_key cleaning failing noon none

-- Half a second after a whole one, an hour later.
abbrev later_on : Time
later_on = record { seconds = pos 1700003600; nanos = 500000000 }

next_time_kept_example :
    (get_next_time tallies one_key cleaning false
        (set_next_time tallies one_key cleaning later_on none)
      ≡ time_is (whole later_on))
    × (is_zero (whole later_on) ≡ false
        → ltb_ℤ (pos 1700000000) (pos 1700003600) ≡ true
        → run_once tallies one_key cleaning failing noon
            (set_next_time tallies one_key cleaning later_on none)
          ≡ (set_next_time tallies one_key cleaning later_on none, []))
next_time_kept_example =
    next_time_kept tallies one_key cleaning later_on none failing noon (omega arith)

-- It is the second of the time that was set, whose fraction has yet to come, and the time read back is up.
early_run_test :
    reply_is_up (record { seconds = pos 1700003600; nanos = 100000000 }) (time_is (whole later_on))
    ≡ true
unfolding reply_is_up is_up is_zero has_come ℤ-discrete ℕ_discrete
early_run_test = refl
