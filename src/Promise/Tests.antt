-- ===== src/Promise/Tests.antt =====
-- Witnesses and tests of async/promise.go.
use b_go_util.Base.{ℕ, ◌≡◌, refl, false, none, some, List, [], ◌∷◌, length, if◌then◌else◌}
use b_go_util.Promise.{
  GroupEvent, on_next, on_begin, on_end, next_step, begin_step, new_group, all_step, any_step,
  run_group, all_result, any_result,
}
use b_go_util.Promise.Outcome.{returns, first_error, any_success, last_return, run_results}

-- The second task ends first, with an error; then the first succeeds.
abbrev some_run : List (GroupEvent ℕ)
some_run = on_next ∷ on_begin ∷ on_next ∷ on_begin ∷ on_end (some 5) ∷ on_end none ∷ []

run_results_example :
    (all_result (run_group all_step some_run (new_group 2))
      ≡ first_error (returns all_step some_run (new_group 2)))
    × (all_result (run_group all_step some_run (new_group 2)) ≡ none
        → length (returns all_step some_run (new_group 2)) ≡ 2)
    × (any_result (run_group any_step some_run (new_group 2)) ≡ (
        if any_success (returns any_step some_run (new_group 2))
        then none
        else last_return none (returns any_step some_run (new_group 2))))
    × (any_success (returns any_step some_run (new_group 2)) ≡ false
        → length (returns any_step some_run (new_group 2)) ≡ 2)
unfolding run_group all_step any_step next_step begin_step new_group
run_results_example = run_results 2 some_run some_run refl refl
