-- ===== src/Groups/Tests.antt =====
-- The theorems on groups and runners at concrete runs.
use b_go_util.Base.{
  ◌≡◌, refl, arith, true, false, none, some, List, [], ◌∷◌, if◌then◌else◌, ℕ_discrete, ℤ-discrete,
}
use b_go_util.Atomic.{new_bool, cas_bool, bool_value}
use b_go_util.Groups.{
  WorkerGroup, new_worker_group, WorkStep, runs, sends, takes, leaves, work_step, work_steps,
  run_task, send_permit, take_permit, leave_group, done, count_runs, RoutineGroup,
  new_routine_group, start_routines, end_routines,
}
use b_go_util.Groups.Routines.{routines, routines_run}
use b_go_util.Groups.Workers.{IsWithin, workers_bounded}
use b_go_util.Groups.Workers.Ending.{Ends, workers_end}
use b_go_util.Groups.Runner.{
  TaskRunner, new_task_runner, runner_is_running, RunnerStep, swaps, counts, makes_ctx, goes, stops,
  cancels, ends, self_stops, runner_step, runner_steps, start_swap, start_add, start_ctx, start_go,
  stop_swap, stop_cancel, own_ctx, cancel_ctx, task_ends, stops_itself,
}
use b_go_util.Groups.Runner.Counts.{IsTracked, runner_tracks}
use b_go_util.Groups.Members.{
  new_runner_group, GroupCall, adds, dels, group_calls, is_member, start_group, stop_group, Heap,
  start_members,
}

abbrev two_workers : WorkerGroup
two_workers = record {
  limit = 2;
  counter = 0;
  permits = 0;
  sending = 0;
  running = 0;
  leaving = 0;
  ended = 0;
}

two_workers_test : new_worker_group 2 ≡ some two_workers
unfolding new_worker_group
two_workers_test = refl

-- The third send is blocked until a permit is back.
abbrev three_tasks : List WorkStep
three_tasks = runs ∷ runs ∷ runs ∷ sends ∷ sends ∷ sends ∷ takes ∷ sends ∷ leaves ∷ []

abbrev after_three : WorkerGroup
after_three = record {
  limit = 2;
  counter = 2;
  permits = 2;
  sending = 0;
  running = 2;
  leaving = 0;
  ended = 1;
}

three_tasks_test : work_steps two_workers three_tasks ≡ some after_three
unfolding work_steps work_step run_task send_permit take_permit leave_group done
three_tasks_test = refl

workers_bounded_example :
    (g : WorkerGroup) × (work_steps two_workers three_tasks ≡ some g)
    × IsWithin 2 (count_runs three_tasks) g
workers_bounded_example = workers_bounded 2 two_workers three_tasks two_workers_test

workers_end_example : Ends (count_runs three_tasks) after_three
workers_end_example =
    workers_end 2 two_workers after_three three_tasks two_workers_test three_tasks_test

abbrev idle : TaskRunner
idle = record {
  is_running = new_bool false;
  task_ctx = none;
  task_done = 0;
  starting = 0;
  added = 0;
  ready = 0;
  working = 0;
  finishing = 0;
  stopping = 0;
}

idle_test : new_task_runner true ≡ some idle
unfolding new_task_runner
idle_test = refl

abbrev stop_and_go : List RunnerStep
stop_and_go =
    swaps ∷ stops ∷ counts ∷ cancels ∷ swaps ∷ makes_ctx ∷ goes ∷ counts ∷ ends ∷ self_stops
    ∷ makes_ctx ∷ goes ∷ ends ∷ []

runner_tracks_example : (g : TaskRunner) × (runner_steps idle stop_and_go ≡ some g) × IsTracked g
runner_tracks_example = runner_tracks idle stop_and_go idle_test

-- A runner whose task has ended, and its goroutine has called Stop, is started again: the task is given
-- the context that Stop has canceled.
restart_test :
    (g : TaskRunner) × (runner_steps idle (
        swaps ∷ counts ∷ makes_ctx ∷ goes ∷ ends ∷ self_stops ∷ cancels ∷ swaps ∷ counts ∷ makes_ctx
        ∷ [])
      ≡ some g)
    × ((start_go g).1 ≡ some true)
unfolding runner_steps runner_step start_swap start_add start_ctx start_go stop_swap stop_cancel
    own_ctx cancel_ctx task_ends stops_itself done cas_bool new_bool ℤ-discrete ℕ_discrete
restart_test = (_, refl, refl)

-- A Stop between the CASwap and the Add of a Start has nothing to cancel: the task is then given a context
-- that is not canceled, by a runner that says that it is not running.
early_stop_test :
    (g : TaskRunner) × (runner_steps idle (swaps ∷ stops ∷ cancels ∷ counts ∷ makes_ctx ∷ [])
      ≡ some g)
    × ((start_go g).1 ≡ some false)
    × (runner_is_running g ≡ false)
unfolding runner_steps runner_step start_swap start_add start_ctx start_go stop_swap stop_cancel
    own_ctx cancel_ctx runner_is_running bool_value cas_bool new_bool ℤ-discrete ℕ_discrete
early_stop_test = (_, refl, refl, refl)

abbrev idle_runners : Heap TaskRunner
idle_runners _ = idle

abbrev started : TaskRunner → TaskRunner
started g = (start_go (start_ctx (start_add (start_swap g).0))).0

abbrev stopped : TaskRunner → TaskRunner
stopped g = stop_cancel (stop_swap g).0

abbrev group_test_calls : List GroupCall
group_test_calls = adds (1 ∷ 2 ∷ 1 ∷ []) ∷ dels (2 ∷ 3 ∷ []) ∷ []

start_members_test :
    (start_group started (group_calls new_runner_group group_test_calls) idle_runners 1
      ≡ (if is_member 1 false group_test_calls then started idle else idle))
    × (stop_group stopped (group_calls new_runner_group group_test_calls) idle_runners 1
        ≡ (if is_member 1 false group_test_calls then stopped idle else idle))
start_members_test = start_members started stopped group_test_calls idle_runners 1

abbrev three_routines : RoutineGroup
three_routines = record { limit = 3; counter = 0; running = 0; ended = 0 }

three_routines_test : new_routine_group 3 ≡ some three_routines
unfolding new_routine_group
three_routines_test = refl

routines_run_test : end_routines 2 (start_routines three_routines) ≡ some (routines 3 1 2)
routines_run_test = routines_run 3 2 three_routines three_routines_test (omega arith)
