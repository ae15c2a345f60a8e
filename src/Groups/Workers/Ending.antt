-- ===== src/Groups/Workers/Ending.antt =====
-- The end of the tasks of a worker group of async/group.go.
use b_go_util.Base.{
  ℕ, zero, suc, ◌≤◌, ◌<◌, ◌≡◌, ◌∙◌, refl, arith, true, Option, none, some, List, [], ◌∷◌, length,
  ltb, ltb→lt, Bool-cases, inl, inr,
}
use mathlib.Core.Path.{subst}
use b_go_util.Groups.{
  done, WorkerGroup, new_worker_group, WorkStep, work_step, work_steps, is_over, count_runs,
}
use b_go_util.Groups.Workers.{
  IsBalanced, Fine, work_steps-Fine, asked_after, asked_after_counts, work, Lowers, next_step,
  next-Lowers,
}

-- Steps that end what a group has left, without a further call of Run.
abbrev pub Ends : ℕ → WorkerGroup → Type 0
Ends asked g =
    (ss : List WorkStep) × (count_runs ss ≡ 0)
    × (length ss ≤ work g)
    × (g' : WorkerGroup) × (work_steps g ss ≡ some g')
    × (is_over g' ≡ true)
    × (g'.ended ≡ asked)

next_no_run : (g : WorkerGroup) (ss : List WorkStep) → count_runs (next_step g ∷ ss) ≡ count_runs ss
unfolding count_runs next_step
next_no_run g ss = ground arith

first_step :
    (asked : ℕ) (g : WorkerGroup) (s : WorkStep) (g₁ g' : WorkerGroup) (ss : List WorkStep)
    → work_step g s ≡ some g₁
    → work_steps g₁ ss ≡ some g'
    → work_steps g (s ∷ ss) ≡ some g'
unfolding work_steps
first_step asked g s g₁ g' ss e e' = rw (work_steps, e) e'

go_on :
    (asked limit n : ℕ) (g : WorkerGroup) (o : Option WorkerGroup)
    → ((g₁ : WorkerGroup) → work g₁ ≤ n → IsBalanced asked g₁ → g₁.limit ≡ limit → Ends asked g₁)
    → work g ≤ suc n
    → Lowers limit asked g o
    → work_step g (next_step g) ≡ o
    → Ends asked g
unfolding Lowers
go_on asked limit n g none ih w l e = absurd l
go_on asked limit n g (some g₁) ih w (i, same_limit, less) e =
    let (ss, quiet, short, g', steps, over, ended) = ih g₁ (omega arith) i same_limit in
    (
      next_step g ∷ ss,
      next_no_run g ss ∙ quiet,
      omega arith,
      g',
      first_step asked g (next_step g) g₁ g' ss e steps,
      over,
      ended,
    )

no_work : (asked : ℕ) (g : WorkerGroup) → IsBalanced asked g → work g ≡ 0 → Ends asked g
unfolding work is_over count_runs work_steps
no_work asked g i w = ([], refl, omega arith, g, refl, ground arith, omega arith)

Ends-within :
    (n asked limit : ℕ) (g : WorkerGroup)
    → 0 < limit
    → work g ≤ n
    → IsBalanced asked g
    → g.limit ≡ limit
    → Ends asked g
Ends-within zero asked limit g p w i l = no_work asked g i (omega arith)
Ends-within (suc n) asked limit g p w i l = elim (Bool-cases (ltb 0 (work g))) [
  | inl more ↦
      go_on asked limit n g (work_step g (next_step g))
        (λ g₁ w₁ i₁ l₁. Ends-within n asked limit g₁ p w₁ i₁ l₁) w
        (subst (λ l'. Lowers l' asked g (work_step g (next_step g))) l
          (next-Lowers asked g i (omega arith) (ltb→lt 0 (work g) more)))
        refl
  | inr done ↦ no_work asked g i (ground arith)
]

-- In every state that a new group reaches, some steps that call Run no more, at most three for each
-- task left, bring it to where Wait returns and all tasks have ended.
pub workers_end :
    (limit : ℕ) (g₀ g : WorkerGroup) (ss : List WorkStep)
    → new_worker_group limit ≡ some g₀
    → work_steps g₀ ss ≡ some g
    → Ends (count_runs ss) g
unfolding new_worker_group
workers_end limit g₀ g ss e reached =
    let fine = work_steps-Fine 0 limit g₀ ss (ground arith) (ground arith) in
    let counts : asked_after 0 ss ≡ count_runs ss = omega (arith, asked_after_counts 0 ss) in
    let (i, l) =
      subst (λ asked. Fine limit asked (some g)) counts
        (subst (λ o. Fine limit (asked_after 0 ss) o) reached fine) in
    Ends-within (work g) (count_runs ss) limit g (ground arith) (omega arith) i l
