-- ===== src/Groups/Routines.antt =====
-- The goroutines of a RoutineGroup of async/group.go.
use b_go_util.Base.{
  ℕ, zero, suc, ◌+◌, ◌-◌, ◌≤◌, ◌≡◌, ◌∙◌, refl, ap, arith, Bool, true, false, none, some, List, [],
  ◌∷◌,
}
use b_go_util.Groups.{
  done, RoutineGroup, new_routine_group, go_tasks, start_routines, end_routine, end_routines,
  WaitGroup, wait_group_step, wait_group_steps,
}

-- A group with so many goroutines at work, and so many that have ended.
abbrev pub routines : ℕ → ℕ → ℕ → RoutineGroup
routines limit n m = record { limit = limit; counter = n; running = n; ended = m }

go_tasks-routines :
    (limit c n m k : ℕ)
    → go_tasks k (record { limit = limit; counter = c; running = n; ended = m })
      ≡ record { limit = limit; counter = c; running = n + k; ended = m }
unfolding go_tasks
go_tasks-routines limit c n m zero = ground arith
go_tasks-routines limit c n m (suc k) = ground (arith, go_tasks-routines limit c (suc n) m k)

end_routine-routines :
    (limit n m : ℕ) → end_routine (routines limit (suc n) m) ≡ some (routines limit n (suc m))
unfolding end_routine done
end_routine-routines limit n m = refl

end_routines-routines :
    (limit n m k : ℕ) → end_routines k (routines limit (n + k) m) ≡ some (routines limit n (m + k))
unfolding end_routines
end_routines-routines limit n m zero = ground arith
end_routines-routines limit n m (suc k) =
    next (n + suc k) (n + k) (omega arith)
    ∙ end_routines-routines limit n (suc m) k
    ∙ ap (λ e. some (routines limit n e)) (omega arith)
  where
    next :
        (a b : ℕ)
        → a ≡ suc b
        → (elim (end_routine (routines limit a m)) [ none ↦ none | some g ↦ end_routines k g ])
          ≡ end_routines k (routines limit b (suc m))
    next a b e = rw (e, end_routine-routines limit b m) refl

new_group :
    (limit : ℕ) (g : RoutineGroup) → new_routine_group limit ≡ some g → g ≡ routines limit 0 0
unfolding new_routine_group
new_group limit g e = ground (arith, e)

started :
    (limit k : ℕ)
    → k ≤ limit
    → start_routines (routines limit 0 0) ≡ routines limit (limit - k + k) 0
unfolding start_routines
started limit k l = go_tasks-routines limit (0 + limit) 0 0 limit ∙ ground arith

-- Start of a new RoutineGroup runs its task in as many goroutines as its limit says; when any number of
-- them have ended the counter is that of the others, so Wait returns when all have.
pub routines_run :
    (limit k : ℕ) (g : RoutineGroup)
    → new_routine_group limit ≡ some g
    → k ≤ limit
    → end_routines k (start_routines g) ≡ some (routines limit (limit - k) k)
routines_run limit k g e l =
    ap (end_routines k) (ap start_routines (new_group limit g e) ∙ started limit k l)
    ∙ end_routines-routines limit (limit - k) 0 k
    ∙ ap (λ m. some (routines limit (limit - k) m)) (omega arith)

abbrev counted : ℕ → ℕ → WaitGroup
counted n m = record { counter = n; running = n; ended = m }

-- Whatever calls of Run and ends of tasks a new WaitGroup sees, its counter does not get negative and is
-- the number of the goroutines that have yet to end.
pub wait_group_counts :
    (n m : ℕ) (ss : List Bool)
    → (n' : ℕ) × (m' : ℕ) × (wait_group_steps (counted n m) ss ≡ some (counted n' m'))
unfolding wait_group_steps wait_group_step done
wait_group_counts n m [] = (n, m, refl)
wait_group_counts n m (true ∷ ss) = wait_group_counts (suc n) m ss
wait_group_counts zero m (false ∷ ss) = wait_group_counts zero m ss
wait_group_counts (suc n) m (false ∷ ss) = wait_group_counts n (suc m) ss
