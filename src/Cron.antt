-- ===== src/Cron.antt =====
-- scheduler/scheduler.go and scheduler/option.go: named tasks that run at times of github.com/robfig/cron,
-- whose Cron is a parameter with what its documentation says of AddJob and Remove. Each method holds the
-- lock. `is_blank` is
-- whether strings.TrimSpace of a string is empty. `none` is a panic. Start and Stop, which only call the Cron, and logging are left out.
mod Ids
pub mod Entries
mod Tests
use Prim.Native.String.{String}
use b_go_util.Base.{
  ℕ, Bool, true, false, not, ◌&&◌, ◌||◌, ◌==◌, ◌≡◌, Option, none, some, is_some, List, [], ◌∷◌, map,
  if◌then◌else◌, get, put, delete, String-discrete,
}

pub record TaskOption : Type 0 where
  pub cron : String
  pub enable_recover : Bool
  pub skip_if_still_running : Bool
  pub delay_if_still_running : Bool

-- A cron.Job: the task, or a wrapper of the cron package around one.
pub data Job (J : Type 0) : Type 0 where
  plain : J → Job J
  recovering : Job J → Job J
  skipping : Job J → Job J
  delaying : Job J → Job J

-- A cron.Cron: its states, the ids of its entries, AddJob, which fails on a time that it cannot read, and
-- Remove.
pub record Cron (J C : Type 0) : Type 0 where
  pub has_entry : C → ℕ → Bool
  pub add_job : C → String → Job J → Option (C × ℕ)
  pub remove : C → ℕ → C
  pub fresh_entry :
      (c c' : C) (spec : String) (job : Job J) (id : ℕ)
      → add_job c spec job ≡ some (c', id)
      → has_entry c id ≡ false
  pub added_entry :
      (c c' : C) (spec : String) (job : Job J) (id j : ℕ)
      → add_job c spec job ≡ some (c', id)
      → has_entry c' j ≡ ((j == id) || has_entry c j)
  pub removed_entry :
      (c : C) (id j : ℕ) → has_entry (remove c id) j ≡ (not (j == id) && has_entry c j)

pub record Scheduler (C : Type 0) : Type 0 where
  pub options : List (String × TaskOption)
  pub cr : C
  pub tasks : List (String × ℕ)

-- MustNormalize of the option: every task has a time.
unfoldable pub normal_options : (String → Bool) → List (String × TaskOption) → Bool
normal_options is_blank [] = true
normal_options is_blank ((name, task) ∷ rest) =
    not (is_blank task.cron) && normal_options is_blank rest

unfoldable pub new_scheduler :
    {C : Type 0} → (String → Bool) → List (String × TaskOption) → C → Option (Scheduler C)
unfolding normal_options
new_scheduler is_blank options cr =
    if normal_options is_blank options
    then some (record { options = options; cr = cr; tasks = [] })
    else none

unfoldable pub has_task : {C : Type 0} → Scheduler C → String → Bool
has_task s name = is_some (get String-discrete name s.tasks)

unfoldable pub has_task_option : {C : Type 0} → Scheduler C → String → Bool
has_task_option s name = is_some (get String-discrete name s.options)

-- The wrappers that the option of a task asks for.
unfoldable pub wrapped : {J : Type 0} → TaskOption → J → Job J
wrapped opt task =
    let job = if opt.enable_recover then recovering (plain task) else plain task in
    if opt.skip_if_still_running
    then skipping job
    else if opt.delay_if_still_running
    then delaying job
    else job

module _ {J C : Type 0} (is_blank : String → Bool) (cron : Cron J C) where
  -- The end of MustAddTask.
  unfoldable pub added_task : Scheduler C → String → Option (C × ℕ) → Option (Scheduler C)
  added_task s name none = none
  added_task s name (some (c, id)) =
      some (record s { cr = c; tasks = put String-discrete name id s.tasks })

  -- A task that is nil is none.
  unfoldable pub must_add_task : Scheduler C → String → Option J → Option (Scheduler C)
  must_add_task s name none = none
  must_add_task s name (some task) =
      if is_blank name then none else (elim (get String-discrete name s.options) [
        | none ↦ none
        | some opt ↦
            if has_task s name
            then none
            else added_task s name (cron.add_job s.cr opt.cron (wrapped opt task))
      ])

  unfoldable pub remove_task : Scheduler C → String → Scheduler C
  remove_task s name = elim (get String-discrete name s.tasks) [
    | none ↦ s
    | some id ↦ record s { cr = cron.remove s.cr id; tasks = delete String-discrete name s.tasks }
  ]

  unfoldable pub remove_tasks : Scheduler C → List String → Scheduler C
  unfolding remove_task
  remove_tasks s [] = s
  remove_tasks s (name ∷ names) = remove_tasks (remove_task s name) names

-- A call that changes a scheduler.
pub data Call (J : Type 0) : Type 0 where
  adds : String → Option J → Call J
  removes : List String → Call J

module _ {J C : Type 0} (is_blank : String → Bool) (cron : Cron J C) where
  -- A call that panics leaves the scheduler as it was.
  unfoldable pub call : Scheduler C → Call J → Scheduler C
  unfolding must_add_task remove_tasks
  call s (adds name task) = elim (must_add_task is_blank cron s name task) [
    | none ↦ s
    | some s' ↦ s'
  ]
  call s (removes names) = remove_tasks is_blank cron s names

  unfoldable pub calls : Scheduler C → List (Call J) → Scheduler C
  calls s [] = s
  calls s (c ∷ cs) = calls (call s c) cs
