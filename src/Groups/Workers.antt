-- ===== src/Groups/Workers.antt =====
-- How many tasks of a worker group of async/group.go run at a time, and when they have ended.
pub mod Ending
use b_go_util.Base.{
  ℕ, zero, suc, ◌+◌, ◌*◌, ◌≤◌, ◌<◌, ◌≡◌, ◌↔◌, ◌∙◌, refl, arith, Bool, true, false, Option, none,
  some, List, [], ◌∷◌, ltb, if◌then◌else◌, ◌⊎◌, inl, inr,
}
use b_go_util.Groups.{
  done, WorkerGroup, new_worker_group, WorkStep, runs, sends, takes, leaves, run_task, send_permit,
  take_permit, leave_group, work_step, work_steps, is_over, count_runs, RoutineGroup,
  new_routine_group, go_tasks, start_routines, end_routine, end_routines,
}

-- A permit is out for each running task, and the counter counts those that have not left, out of so
-- many calls of Run.
abbrev IsBalanced : ℕ → WorkerGroup → Type 0
IsBalanced asked g =
    (g.permits ≡ g.running)
    × (g.running ≤ g.limit)
    × (g.counter ≡ g.sending + g.running + g.leaving)
    × (asked ≡ g.counter + g.ended)

-- The step did not panic, and the group is balanced after it.
abbrev Fine : ℕ → ℕ → Option WorkerGroup → Type 0
Fine limit asked none = ⊥
Fine limit asked (some g) = IsBalanced asked g × (g.limit ≡ limit)

step_runs : ℕ → WorkStep → ℕ
step_runs asked runs = suc asked
step_runs asked _ = asked

work_step-Fine :
    (asked : ℕ) (g : WorkerGroup) (s : WorkStep)
    → IsBalanced asked g
    → Fine g.limit (step_runs asked s) (work_step g s)
unfolding work_step run_task send_permit take_permit leave_group done step_runs
work_step-Fine asked g runs i = ground arith
work_step-Fine asked g sends i = ground arith
work_step-Fine asked g takes i = ground arith
work_step-Fine asked g leaves i = ground arith

asked_after : ℕ → List WorkStep → ℕ
asked_after asked [] = asked
asked_after asked (s ∷ ss) = asked_after (step_runs asked s) ss

asked_after_counts : (asked : ℕ) (ss : List WorkStep) → asked_after asked ss ≡ asked + count_runs ss
unfolding asked_after count_runs step_runs
asked_after_counts asked [] = omega arith
asked_after_counts asked (runs ∷ ss) = omega (arith, asked_after_counts (suc asked) ss)
asked_after_counts asked (sends ∷ ss) = asked_after_counts asked ss
asked_after_counts asked (takes ∷ ss) = asked_after_counts asked ss
asked_after_counts asked (leaves ∷ ss) = asked_after_counts asked ss

work_steps-Fine :
    (asked limit : ℕ) (g : WorkerGroup) (ss : List WorkStep)
    → IsBalanced asked g
    → g.limit ≡ limit
    → Fine limit (asked_after asked ss) (work_steps g ss)
unfolding work_steps asked_after
work_steps-Fine asked limit g [] i l = (i, l)
work_steps-Fine asked limit g (s ∷ ss) i l =
    later (λ g' i' l'. work_steps-Fine (step_runs asked s) limit g' ss i' l') (work_step g s)
      (work_step-Fine asked g s i)
  where
    later :
        ((g' : WorkerGroup)
          → IsBalanced (step_runs asked s) g'
          → g'.limit ≡ limit
          → Fine limit (asked_after (step_runs asked s) ss) (work_steps g' ss))
        → (o : Option WorkerGroup) → Fine g.limit (step_runs asked s) o
        → Fine limit
            (asked_after (step_runs asked s) ss)
            (elim o [ some g' ↦ work_steps g' ss | none ↦ none ])
    later ih none f = absurd f
    later ih (some g') f = ih g' f.0 (f.1 ∙ l)

-- What is seen of a group after so many calls of Run.
abbrev pub IsWithin : ℕ → ℕ → WorkerGroup → Type 0
IsWithin limit asked g =
    (g.running ≤ limit)
    × (g.sending + g.running + g.leaving + g.ended ≡ asked)
    × ((is_over g ≡ true) ↔ (g.ended ≡ asked))

seen :
    (limit asked asked' : ℕ) (o : Option WorkerGroup)
    → asked ≡ asked'
    → Fine limit asked o
    → (g : WorkerGroup) × (o ≡ some g) × IsWithin limit asked' g
unfolding is_over
seen limit asked asked' none e f = absurd f
seen limit asked asked' (some g) e f = (g, refl, ground arith)

-- However the steps of a new group interleave, no counter gets negative, at most `limit` tasks run at
-- a time, each call of Run is at one place, and Wait can return just when as many tasks have ended as
-- there were calls of Run.
pub workers_bounded :
    (limit : ℕ) (g₀ : WorkerGroup) (ss : List WorkStep)
    → new_worker_group limit ≡ some g₀
    → (g : WorkerGroup) × (work_steps g₀ ss ≡ some g) × IsWithin limit (count_runs ss) g
unfolding new_worker_group
workers_bounded limit g₀ ss e =
    seen limit _ (count_runs ss) _ (omega (arith, asked_after_counts 0 ss))
      (work_steps-Fine 0 limit g₀ ss (ground arith) (ground arith))

-- The steps that are left, those of a goroutine that has yet to send its permit counted three times.
pub work : WorkerGroup → ℕ
work g = g.sending * 3 + g.running * 2 + g.leaving

-- A step that lowers the work, and asks for nothing.
Lowers : ℕ → ℕ → WorkerGroup → Option WorkerGroup → Type 0
Lowers limit asked g none = ⊥
Lowers limit asked g (some g') = IsBalanced asked g' × (g'.limit ≡ limit) × (work g' < work g)

-- The next step of a goroutine that is not blocked.
next_step : WorkerGroup → WorkStep
next_step g = if ltb 0 g.leaving then leaves else if ltb 0 g.running then takes else sends

next-Lowers :
    (asked : ℕ) (g : WorkerGroup)
    → IsBalanced asked g
    → 0 < g.limit
    → 0 < work g
    → Lowers g.limit asked g (work_step g (next_step g))
unfolding work_step send_permit take_permit leave_group done next_step work Lowers
next-Lowers asked g i l w = ground arith
