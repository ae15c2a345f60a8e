-- ===== src/Groups/Runner.antt =====
-- async/runner.go: a runner of a background task. The WaitGroup is its counter, and the context is nil
-- or known by whether it is canceled. The calls of Start and Stop under way are counted by where they stand, and so
-- are the goroutines that they start: those whose task runs, and those that have called Done and have yet
-- to call Stop.
pub mod Counts
use b_go_util.Base.{
  ℕ, zero, suc, Bool, true, false, not, Option, none, some, List, [], ◌∷◌, if◌then◌else◌, ltb,
}
use b_go_util.Atomic.{AtomicBool, new_bool, cas_bool, bool_value, is_true}
use b_go_util.Groups.{done}

pub record TaskRunner : Type 0 where
  pub is_running : AtomicBool
  pub task_ctx : Option Bool  -- nil, or whether it is canceled
  pub task_done : ℕ
  pub starting : ℕ  -- calls of Start that have set the flag
  pub added : ℕ  -- those that have called Add
  pub ready : ℕ  -- those that have seen to the context
  pub working : ℕ
  pub finishing : ℕ
  pub stopping : ℕ  -- calls of Stop that have reset the flag and have yet to cancel

-- none is the panic for a task that is nil.
unfoldable pub new_task_runner : Bool → Option TaskRunner
new_task_runner has_task =
    if has_task
    then some (record {
      is_running = new_bool false;
      task_ctx = none;
      task_done = 0;
      starting = 0;
      added = 0;
      ready = 0;
      working = 0;
      finishing = 0;
      stopping = 0;
    })
    else none

-- The context of the runner, which is a child of one that is canceled or not.
unfoldable pub with_context : TaskRunner → Bool → TaskRunner
with_context g parent_canceled = record g { task_ctx = some parent_canceled }

unfoldable pub runner_is_running : TaskRunner → Bool
runner_is_running g = bool_value g.is_running

-- if g.taskCtx == nil { g.taskCtx = util.NewCancelableContext() }
unfoldable pub own_ctx : Option Bool → Bool
own_ctx none = false
own_ctx (some canceled) = canceled

-- if !g.isRunning.CASwap(false) { return }: whether Start goes on.
unfoldable pub start_swap : TaskRunner → TaskRunner × Bool
start_swap g =
    let (flag, swapped) = cas_bool g.is_running false in
    if not swapped
    then (record g { is_running = flag }, false)
    else (record g { is_running = flag; starting = suc g.starting }, true)

-- g.taskDone.Add(1), in a call of Start that has set the flag.
unfoldable pub start_add : TaskRunner → TaskRunner
start_add g = counted g.starting
  where
    counted : ℕ → TaskRunner
    counted zero = g
    counted (suc n) = record g { starting = n; added = suc g.added; task_done = suc g.task_done }

-- if g.taskCtx == nil { … }, in one that has called Add.
unfoldable pub start_ctx : TaskRunner → TaskRunner
unfolding own_ctx
start_ctx g = ready_with g.added
  where
    ready_with : ℕ → TaskRunner
    ready_with zero = g
    ready_with (suc n) = record g {
      added = n;
      ready = suc g.ready;
      task_ctx = some (own_ctx g.task_ctx);
    }

-- The go statement, and the context that the task is given, if there is one: whether it is canceled.
unfoldable pub start_go : TaskRunner → TaskRunner × Option Bool
start_go g = started g.ready
  where
    started : ℕ → TaskRunner × Option Bool
    started zero = (g, none)
    started (suc n) = (record g { ready = n; working = suc g.working }, g.task_ctx)

-- Cancel of util/context.go, which a nil context allows.
unfoldable pub cancel_ctx : Option Bool → Option Bool
cancel_ctx none = none
cancel_ctx (some canceled) = some true

-- if !g.isRunning.CASwap(true) { return }: whether Stop goes on.
unfoldable pub stop_swap : TaskRunner → TaskRunner × Bool
stop_swap g =
    let (flag, swapped) = cas_bool g.is_running true in
    if not swapped
    then (record g { is_running = flag }, false)
    else (record g { is_running = flag; stopping = suc g.stopping }, true)

-- g.taskCtx.Cancel(), in a call of Stop that has reset the flag; it goes on to wait.
unfoldable pub stop_cancel : TaskRunner → TaskRunner
unfolding cancel_ctx
stop_cancel g = canceled_by g.stopping
  where
    canceled_by : ℕ → TaskRunner
    canceled_by zero = g
    canceled_by (suc n) = record g { stopping = n; task_ctx = cancel_ctx g.task_ctx }

-- g.taskDone.Wait() returns.
unfoldable pub is_done : TaskRunner → Bool
is_done g = ltb g.task_done 1

-- Whether Wait waits.
unfoldable pub waits : TaskRunner → Bool
waits g = is_true g.is_running

-- The channel of a task is closed, and its goroutine calls Done.
unfoldable pub task_ends : TaskRunner → Option TaskRunner
task_ends g = ended g.working
  where
    ended : ℕ → Option TaskRunner
    ended zero = some g
    ended (suc n) = elim (done g.task_done) [
      | some c ↦ some (record g { task_done = c; working = n; finishing = suc g.finishing })
      | none ↦ none
    ]

-- The goroutine then calls Stop.
unfoldable pub stops_itself : TaskRunner → TaskRunner
unfolding stop_swap
stops_itself g = stopped g.finishing
  where
    stopped : ℕ → TaskRunner
    stopped zero = g
    stopped (suc n) = (stop_swap (record g { finishing = n })).0

pub data RunnerStep : Type 0 where
  with_contexts : Bool → RunnerStep
  swaps counts makes_ctx goes stops cancels ends self_stops : RunnerStep

unfoldable pub runner_step : TaskRunner → RunnerStep → Option TaskRunner
unfolding with_context start_swap start_add start_ctx start_go stop_swap stop_cancel task_ends
    stops_itself
runner_step g (with_contexts canceled) = some (with_context g canceled)
runner_step g swaps = some ((start_swap g).0)
runner_step g counts = some (start_add g)
runner_step g makes_ctx = some (start_ctx g)
runner_step g goes = some ((start_go g).0)
runner_step g stops = some ((stop_swap g).0)
runner_step g cancels = some (stop_cancel g)
runner_step g ends = task_ends g
runner_step g self_stops = some (stops_itself g)

unfoldable pub runner_steps : TaskRunner → List RunnerStep → Option TaskRunner
runner_steps g [] = some g
runner_steps g (s ∷ later) = elim (runner_step g s) [
  | some g' ↦ runner_steps g' later
  | none ↦ none
]
