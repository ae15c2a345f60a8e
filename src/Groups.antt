-- ===== src/Groups.antt =====
-- async/group.go: groups of goroutines. One goroutine is as good as another, so they are counted by
-- where they are. `none` is a panic: a failed assertion, or a WaitGroup counter that would get negative.
pub mod Workers
pub mod Runner
pub mod Routines
pub mod Members
mod Tests
use b_go_util.Base.{
  ℕ, zero, suc, ◌+◌, ◌-◌, Bool, true, false, Option, none, some, List, [], ◌∷◌, ltb, if◌then◌else◌,
}

-- wg.Done()
unfoldable pub done : ℕ → Option ℕ
done zero = none
done (suc n) = some n

-- A WorkerGroup: its counter, its channel, which holds a number of permits, and the goroutines: those
-- in Run that have yet to send a permit, those that run a task, those that have taken their permit back
-- but have not called Done, and those that have ended.
pub record WorkerGroup : Type 0 where
  pub limit : ℕ  -- the capacity of the channel
  pub counter : ℕ
  pub permits : ℕ
  pub sending : ℕ
  pub running : ℕ
  pub leaving : ℕ
  pub ended : ℕ

unfoldable pub new_worker_group : ℕ → Option WorkerGroup
new_worker_group limit =
    if ltb 0 limit
    then some (record {
      limit = limit;
      counter = 0;
      permits = 0;
      sending = 0;
      running = 0;
      leaving = 0;
      ended = 0;
    })
    else none

pub data WorkStep : Type 0 where
  runs sends takes leaves : WorkStep

-- g.wg.Add(1)
unfoldable pub run_task : WorkerGroup → WorkerGroup
run_task g = record g { counter = suc g.counter; sending = suc g.sending }

-- g.permit <- struct{}{}, which blocks while the channel is full, and the start of the goroutine.
unfoldable pub send_permit : WorkerGroup → WorkerGroup
send_permit g = if ltb g.permits g.limit then sent g.sending else g
  where
    sent : ℕ → WorkerGroup
    sent zero = g
    sent (suc n) = record g { permits = suc g.permits; sending = n; running = suc g.running }

-- A task has ended: <-g.permit, which blocks while the channel is empty.
unfoldable pub take_permit : WorkerGroup → WorkerGroup
take_permit g = taken g.running g.permits
  where
    taken : ℕ → ℕ → WorkerGroup
    taken zero p = g
    taken (suc n) zero = g
    taken (suc n) (suc p) = record g { permits = p; running = n; leaving = suc g.leaving }

-- g.wg.Done()
unfoldable pub leave_group : WorkerGroup → Option WorkerGroup
leave_group g = left g.leaving
  where
    left : ℕ → Option WorkerGroup
    left zero = some g
    left (suc n) = elim (done g.counter) [
      | some c ↦ some (record g { counter = c; leaving = n; ended = suc g.ended })
      | none ↦ none
    ]

-- A step that is blocked, or that no goroutine can make, leaves the group as it is.
unfoldable pub work_step : WorkerGroup → WorkStep → Option WorkerGroup
unfolding run_task send_permit take_permit leave_group
work_step g runs = some (run_task g)
work_step g sends = some (send_permit g)
work_step g takes = some (take_permit g)
work_step g leaves = leave_group g

unfoldable pub work_steps : WorkerGroup → List WorkStep → Option WorkerGroup
work_steps g [] = some g
work_steps g (s ∷ later) = elim (work_step g s) [ some g' ↦ work_steps g' later | none ↦ none ]

-- Wait returns.
unfoldable pub is_over : WorkerGroup → Bool
is_over g = ltb g.counter 1

-- How many calls of Run there are in some steps.
unfoldable pub count_runs : List WorkStep → ℕ
count_runs [] = 0
count_runs (runs ∷ later) = suc (count_runs later)
count_runs (sends ∷ later) = count_runs later
count_runs (takes ∷ later) = count_runs later
count_runs (leaves ∷ later) = count_runs later

-- A RoutineGroup: its counter, and the goroutines that run its task.
pub record RoutineGroup : Type 0 where
  pub limit : ℕ
  pub counter : ℕ
  pub running : ℕ
  pub ended : ℕ

unfoldable pub new_routine_group : ℕ → Option RoutineGroup
new_routine_group limit =
    if ltb 0 limit
    then some (record { limit = limit; counter = 0; running = 0; ended = 0 })
    else none

-- for i := 0; i < g.limit; i++ { go … }
unfoldable pub go_tasks : ℕ → RoutineGroup → RoutineGroup
go_tasks zero g = g
go_tasks (suc n) g = go_tasks n (record g { running = suc g.running })

unfoldable pub start_routines : RoutineGroup → RoutineGroup
unfolding go_tasks
start_routines g = go_tasks g.limit (record g { counter = g.counter + g.limit })

-- A task ends, and its goroutine calls Done.
unfoldable pub end_routine : RoutineGroup → Option RoutineGroup
end_routine g = gone g.running
  where
    gone : ℕ → Option RoutineGroup
    gone zero = some g
    gone (suc n) = elim (done g.counter) [
      | some c ↦ some (record g { counter = c; running = n; ended = suc g.ended })
      | none ↦ none
    ]

-- So many tasks end.
unfoldable pub end_routines : ℕ → RoutineGroup → Option RoutineGroup
end_routines zero g = some g
end_routines (suc n) g = elim (end_routine g) [ some g' ↦ end_routines n g' | none ↦ none ]

-- A WaitGroup: its counter, and its goroutines.
pub record WaitGroup : Type 0 where
  pub counter : ℕ
  pub running : ℕ
  pub ended : ℕ

unfoldable pub new_wait_group : WaitGroup
new_wait_group = record { counter = 0; running = 0; ended = 0 }

-- Run of it, or the end of a task.
unfoldable pub wait_group_step : WaitGroup → Bool → Option WaitGroup
wait_group_step g true = some (record g { counter = suc g.counter; running = suc g.running })
wait_group_step g false = gone g.running
  where
    gone : ℕ → Option WaitGroup
    gone zero = some g
    gone (suc n) = elim (done g.counter) [
      | some c ↦ some (record { counter = c; running = n; ended = suc g.ended })
      | none ↦ none
    ]

unfoldable pub wait_group_steps : WaitGroup → List Bool → Option WaitGroup
wait_group_steps g [] = some g
wait_group_steps g (s ∷ later) = elim (wait_group_step g s) [
  | some g' ↦ wait_group_steps g' later
  | none ↦ none
]
