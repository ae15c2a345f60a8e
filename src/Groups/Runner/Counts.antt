-- ===== src/Groups/Runner/Counts.antt =====
-- The goroutines of a task runner of async/runner.go, and its flag.
use b_go_util.Base.{
  ℕ, ◌+◌, ◌<◌, ◌≡◌, ◌↔◌, refl, arith, true, false, Option, none, some, is_some, List, [], ◌∷◌,
  ℤ-discrete, ℕ_discrete,
}
use b_go_util.Atomic.{AtomicBool, new_bool, cas_bool, bool_value, is_true}
use b_go_util.Groups.{done}
use b_go_util.Groups.Runner.{
  TaskRunner, new_task_runner, with_context, runner_is_running, start_swap, start_add, start_ctx,
  start_go, stop_swap, stop_cancel, cancel_ctx, is_done, waits, task_ends, stops_itself, RunnerStep,
  with_contexts, swaps, counts, makes_ctx, goes, stops, cancels, ends, self_stops, runner_step,
  runner_steps,
}

-- The tasks that have been added and have not ended.
abbrev pub unended : TaskRunner → ℕ
unended g = g.added + g.ready + g.working

-- The counter counts the tasks that have not ended, while the flag is set a call or a goroutine is there
-- to reset it, and one that has seen to the context has one.
abbrev IsCounted : TaskRunner → Type 0
IsCounted g =
    (g.task_done ≡ unended g)
    × (bool_value g.is_running ≡ true → 0 < g.starting + unended g + g.finishing)
    × (0 < g.ready + g.working → is_some g.task_ctx ≡ true)

swap_on : (b : AtomicBool) → (cas_bool b false).1 ≡ false → (cas_bool b false).0 ≡ b
unfolding cas_bool
swap_on b h = ground arith

swap_off : (b : AtomicBool) → bool_value (cas_bool b true).0 ≡ false
unfolding cas_bool bool_value ℤ-discrete ℕ_discrete
swap_off b = ground arith

abbrev IsFine : Option TaskRunner → Type 0
IsFine none = ⊥
IsFine (some g) = IsCounted g

runner_step-IsFine : (g : TaskRunner) (s : RunnerStep) → IsCounted g → IsFine (runner_step g s)
unfolding runner_step with_context start_swap start_add start_ctx start_go stop_swap stop_cancel
    cancel_ctx task_ends stops_itself done
runner_step-IsFine g (with_contexts canceled) i = (i.0, i.1, λ _. refl)
runner_step-IsFine g swaps i = ground (arith, swap_on g.is_running)
runner_step-IsFine g counts i = ground arith
runner_step-IsFine g makes_ctx i = ground arith
runner_step-IsFine g goes i = ground arith
runner_step-IsFine g stops i = ground (arith, swap_off g.is_running)
runner_step-IsFine g cancels i = ground arith
runner_step-IsFine g ends i = ground arith
runner_step-IsFine g self_stops i = ground (arith, swap_off g.is_running)

runner_steps-IsFine :
    (g : TaskRunner) (ss : List RunnerStep) → IsCounted g → IsFine (runner_steps g ss)
unfolding runner_steps
runner_steps-IsFine g [] i = i
runner_steps-IsFine g (s ∷ ss) i =
    later (λ g' i'. runner_steps-IsFine g' ss i') (runner_step g s) (runner_step-IsFine g s i)
  where
    later :
        ((g' : TaskRunner) → IsCounted g' → IsFine (runner_steps g' ss))
        → (o : Option TaskRunner) → IsFine o
        → IsFine (elim o [ some g' ↦ runner_steps g' ss | none ↦ none ])
    later ih none i = i
    later ih (some g') i = ih g' i

-- What holds of a runner between any two steps.
abbrev pub IsTracked : TaskRunner → Type 0
IsTracked g =
    ((is_done g ≡ true) ↔ (unended g ≡ 0))
    × (runner_is_running g ≡ true → 0 < g.starting + unended g + g.finishing)
    × (0 < g.ready + g.working → is_some g.task_ctx ≡ true)
    × (waits g ≡ runner_is_running g)

tracked : (o : Option TaskRunner) → IsFine o → (g : TaskRunner) × (o ≡ some g) × IsTracked g
unfolding is_done runner_is_running waits is_true
tracked none i = absurd i
tracked (some g) i = (g, refl, ground arith)

-- However the steps of the calls of Start and Stop, the calls of WithContext on a new runner and the steps
-- of its goroutines interleave, its counter does not get negative; taskDone.Wait() returns just when each
-- task whose Start has called Add has ended; while IsRunning is true a call of Start is under way, or a
-- goroutine runs the task or is about to call Stop; and each task that starts has a context.
pub runner_tracks :
    (g₀ : TaskRunner) (ss : List RunnerStep)
    → new_task_runner true ≡ some g₀
    → (g : TaskRunner) × (runner_steps g₀ ss ≡ some g) × IsTracked g
unfolding new_task_runner new_bool bool_value ℤ-discrete ℕ_discrete
runner_tracks g₀ ss e = tracked _ (runner_steps-IsFine g₀ ss (ground arith))
