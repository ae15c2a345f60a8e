-- ===== src/Jobs/Lifecycle.antt =====
-- The scheduler of rdb/scheduler/scheduler.go: its tasks, its start and its stop. `none` is a panic.
use Prim.Native.String.{String}
use b_go_util.Base.{
  Bool, true, false, not, ◌||◌, Option, none, some, is_some, List, [], ◌∷◌, if◌then◌else◌, get, put,
  String-discrete,
}
use b_go_util.Atomic.{AtomicBool, new_bool, cas_bool, is_false}
use b_go_util.Jobs.{TaskOption, SchedulerOption, normalize}

pub record Scheduler (T : Type 0) : Type 0 where
  pub option : SchedulerOption
  pub has_client : Bool
  pub is_running : AtomicBool
  pub tasks : List (String × T)
  pub is_canceled : Bool  -- the root context

module _ {T : Type 0} where
  unfoldable pub new_scheduler : (String → Bool) → SchedulerOption → Option (Scheduler T)
  unfolding normalize
  new_scheduler is_blank o = elim (normalize is_blank o) [
    | none ↦ none
    | some o' ↦ some (record {
      option = o';
      has_client = false;
      is_running = new_bool false;
      tasks = [];
      is_canceled = false;
    })
  ]

  -- A task that is nil is none.
  unfoldable pub must_add_task :
      (String → Bool) → Scheduler T → String → Option T → Option (Scheduler T)
  must_add_task is_blank s name none = none
  must_add_task is_blank s name (some task) =
      if not (is_false s.is_running) || is_blank name
      then none
      else (elim (get String-discrete name s.option.tasks) [
        | none ↦ none
        | some o ↦
            if o.disabled
            then some s
            else if is_some (get String-discrete name s.tasks)
            then none
            else some (record s { tasks = put String-discrete name task s.tasks })
      ])

  -- The tasks that Start runs, with their options; none if MustGetTaskOption panics.
  unfoldable pub started_tasks :
      List (String × TaskOption) → List (String × T) → Option (List (TaskOption × T))
  started_tasks options [] = some []
  started_tasks options ((name, task) ∷ rest) =
      let tail = started_tasks options rest in
      elim (get String-discrete name options) [
        | none ↦ none
        | some o ↦ elim tail [ none ↦ none | some ts ↦ some ((o, task) ∷ ts) ]
      ]

  -- The end of Start. Without tasks it leaves the flag set.
  unfoldable pub start_tasks :
      Scheduler T → AtomicBool → List (String × T) → Option (Scheduler T × List (TaskOption × T))
  unfolding started_tasks
  start_tasks s flag [] = some (record s { is_running = flag }, [])
  start_tasks s flag (t ∷ ts) = elim (started_tasks s.option.tasks (t ∷ ts)) [
    | none ↦ none
    | some started ↦ some (record s { is_running = flag; has_client = true }, started)
  ]

  -- The scheduler, and the tasks that Start runs.
  unfoldable pub start : Scheduler T → Option (Scheduler T × List (TaskOption × T))
  start s =
      let (flag, swapped) = cas_bool s.is_running false in
      if not swapped then some (record s { is_running = flag }, []) else start_tasks s flag s.tasks

  unfoldable pub stop : Scheduler T → Scheduler T
  stop s =
      let (flag, swapped) = cas_bool s.is_running true in
      if not swapped
      then record s { is_running = flag }
      else record s { is_running = flag; is_canceled = true }
