-- ===== src/Barrier/Tests.antt =====
-- The theorems on period barriers at concrete runs.
use b_go_util.Base.{
  ◌+◌, ◌≤◌, ◌≡◌, ◌↔◌, refl, true, false, some, ℕ_discrete, ℤ-discrete, has_key, del_key, none, List,
  [], ◌∷◌, length,
}
use b_go_util.Atomic.{new_bool, bool_value, set_bool, cas_bool}
use b_go_util.Barrier.{
  PeriodBarrier, new_period_barrier, new_time, Move, passes, checks, swaps, ends, clears, moves,
  no_callers, move, is_due, take_turn, stamp, clear, time_value, set_time,
}
use b_go_util.Barrier.Overlap.{one_at_a_time}
use b_go_util.Barrier.Spacing.{IsThrottled, do_all, calls-IsThrottled}

abbrev ten : PeriodBarrier
ten = record { period = 10; last_invoke_time = new_time; is_invoking = new_bool false }

new_ten_test : new_period_barrier 10 ≡ some ten
unfolding new_period_barrier new_time new_bool
new_ten_test = refl

abbrev overlap : List Move
overlap = checks 1 ∷ checks 2 ∷ swaps 1 ∷ passes 3 ∷ swaps 2 ∷ ends 1 ∷ []

one_at_a_time_example :
    (length (moves (no_callers ten 5) overlap).running
        + length (moves (no_callers ten 5) overlap).stamped
      ≤ 1)
    × ((bool_value (moves (no_callers ten 5) overlap).barrier.is_invoking ≡ true) ↔ (
        length (moves (no_callers ten 5) overlap).running
          + length (moves (no_callers ten 5) overlap).stamped
        ≡ 1))
one_at_a_time_example = one_at_a_time 10 5 ten overlap new_ten_test

calls-IsThrottled_example : IsThrottled 10 none (do_all ten 5 ((0, 2) ∷ (7, 1) ∷ (3, 4) ∷ []))
calls-IsThrottled_example = calls-IsThrottled 10 5 ten ((0, 2) ∷ (7, 1) ∷ (3, 4) ∷ []) new_ten_test

-- Two goroutines see the period over, and the second swaps the flag after the first has reset it: it
-- runs the function within the period.
abbrev race : List Move
race = checks 1 ∷ checks 2 ∷ swaps 1 ∷ passes 3 ∷ ends 1 ∷ clears 1 ∷ swaps 2 ∷ []

race_test :
    ((moves (no_callers ten 5) race).running ≡ 2 ∷ [])
    × ((moves (no_callers ten 5) race).barrier.last_invoke_time.time ≡ some 8)
    × ((moves (no_callers ten 5) race).now ≡ 8)
unfolding moves move no_callers is_due take_turn stamp clear time_value set_time set_bool cas_bool
    has_key del_key ℕ_discrete ℤ-discrete new_time new_bool
race_test = (refl, refl, refl)
