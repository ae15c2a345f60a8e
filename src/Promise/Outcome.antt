-- ===== src/Promise/Outcome.antt =====
-- What RunCancelableAll and RunCancelableAny of async/promise.go return.
use b_go_util.Base.{
  ℕ, ◌+◌, ◌==◌, ◌≡◌, refl, arith, Bool, true, false, not, ◌||◌, Option, none, some, is_some, List,
  [], ◌∷◌, length, if◌then◌else◌,
}
use b_go_util.Promise.{
  do_all, do_any_from, Group, new_group, GroupEvent, on_next, on_begin, on_end, next_step,
  begin_step, all_step, any_step, run_group, ended, all_result, any_result,
}

module _ {E : Type 0} where
  -- What the tasks that run have returned, in the order of their ends: an end counts only while a
  -- goroutine runs a task.
  unfoldable pub returns :
      (GroupEvent E → Group E → Group E) → List (GroupEvent E) → Group E → List (Option E)
  returns step [] g = []
  returns step (on_next ∷ es) g = returns step es (step on_next g)
  returns step (on_begin ∷ es) g = returns step es (step on_begin g)
  returns step (on_end r ∷ es) g =
      let rest = returns step es (step (on_end r) g) in if g.running == 0 then rest else r ∷ rest

  abbrev pub first_error : List (Option E) → Option E
  first_error [] = none
  first_error (none ∷ rs) = first_error rs
  first_error (some e ∷ rs) = some e

  abbrev pub any_success : List (Option E) → Bool
  any_success [] = false
  any_success (r ∷ rs) = not (is_some r) || any_success rs

  abbrev pub last_return : Option E → List (Option E) → Option E
  last_return r [] = r
  last_return r (s ∷ rs) = last_return s rs

  -- The tasks that have not ended.
  abbrev pending : Group E → ℕ
  pending g = g.left + g.forked + g.running

  abbrev AllFacts : Group E → Group E → List (Option E) → Type 0
  AllFacts g g' ends =
      (g'.cause ≡ (if is_some g.cause then g.cause else first_error ends))
      × (is_some g'.cause ≡ false → pending g ≡ pending g' + length ends)

  all-AllFacts :
      (es : List (GroupEvent E)) (g : Group E)
      → AllFacts g (run_group all_step es g) (returns all_step es g)
  unfolding run_group returns all_step next_step begin_step
  all-AllFacts [] g = ground arith
  all-AllFacts (on_next ∷ es) g = ground (arith, all-AllFacts es (all_step on_next g))
  all-AllFacts (on_begin ∷ es) g = ground (arith, all-AllFacts es (all_step on_begin g))
  all-AllFacts (on_end none ∷ es) g = ground (arith, all-AllFacts es (all_step (on_end none) g))
  all-AllFacts (on_end (some e) ∷ es) g =
      ground (arith, all-AllFacts es (all_step (on_end (some e)) g))

  abbrev AnyFacts : Group E → Group E → List (Option E) → Type 0
  AnyFacts g g' ends =
      (g'.is_ok ≡ (g.is_ok || any_success ends))
      × (g'.is_ok ≡ false → g'.cause ≡ last_return g.cause ends)
      × (g'.is_ok ≡ false → pending g ≡ pending g' + length ends)

  any-AnyFacts :
      (es : List (GroupEvent E)) (g : Group E)
      → AnyFacts g (run_group any_step es g) (returns any_step es g)
  unfolding run_group returns any_step next_step begin_step
  any-AnyFacts [] g = (ground arith, (λ h. refl), (λ h. omega arith))
  any-AnyFacts (on_next ∷ es) g = ground (arith, any-AnyFacts es (any_step on_next g))
  any-AnyFacts (on_begin ∷ es) g = ground (arith, any-AnyFacts es (any_step on_begin g))
  any-AnyFacts (on_end none ∷ es) g = ground (arith, any-AnyFacts es (any_step (on_end none) g))
  any-AnyFacts (on_end (some e) ∷ es) g =
      ground (arith, any-AnyFacts es (any_step (on_end (some e)) g))

  -- In whatever order the goroutines of RunCancelableAll go on, it returns the error that a task
  -- returned first of all those that ran, or nil, and then, if all have ended, every function has run
  -- and none failed; RunCancelableAny returns nil if a task that ran succeeded, else the error that was
  -- returned last, and then, if all have ended, every function has run.
  pub run_results :
      (n : ℕ) (all any : List (GroupEvent E))
      → ended (run_group all_step all (new_group n)) ≡ true
      → ended (run_group any_step any (new_group n)) ≡ true
      → (all_result (run_group all_step all (new_group n))
          ≡ first_error (returns all_step all (new_group n)))
        × (all_result (run_group all_step all (new_group n)) ≡ none
            → length (returns all_step all (new_group n)) ≡ n)
        × (any_result (run_group any_step any (new_group n)) ≡ (
            if any_success (returns any_step any (new_group n))
            then none
            else last_return none (returns any_step any (new_group n))))
        × (any_success (returns any_step any (new_group n)) ≡ false
            → length (returns any_step any (new_group n)) ≡ n)
  unfolding all_result any_result new_group
  run_results n all any h k =
      ground (arith, all-AllFacts all (new_group n), any-AnyFacts any (new_group n))

  -- One after the other: DoAll returns the first error, DoAny the last if no call succeeds.
  pub do_all-first_error : (rs : List (Option E)) → (do_all rs).1 ≡ first_error rs
  unfolding do_all
  do_all-first_error [] = refl
  do_all-first_error (none ∷ rs) = do_all-first_error rs
  do_all-first_error (some e ∷ rs) = refl

  pub do_any_from-last_return :
      (c : Option E) (rs : List (Option E))
      → (do_any_from c rs).1 ≡ (if any_success rs then none else last_return c rs)
  unfolding do_any_from
  do_any_from-last_return c [] = refl
  do_any_from-last_return c (none ∷ rs) = refl
  do_any_from-last_return c (some e ∷ rs) = do_any_from-last_return (some e) rs
