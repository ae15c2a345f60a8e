-- ===== src/Ticker/Tests.antt =====
-- Runs of the ticker and its executor, and their theorems at concrete ones.
use b_go_util.Base.{
  ℕ, pos, ◌-ℤ◌, ◌+ℤ◌, wrap64, ◌≡◌, refl, ◌++◌, false, none, some, List, [], ◌∷◌, arith,
}
use b_go_util.Ticker.{TickerOption, must_normalize, new_ticker, incr_count}
use b_go_util.Ticker.Counting.{fires_at_max, count_all, counting}
use b_go_util.Ticker.Executor.{TickerExecutor, Event, add, close, receive, new_executor, run, serve}
use b_go_util.Ticker.Batches.{hands_over_all, accepted, batched}

abbrev by_three : TickerOption
by_three = record { period = pos 0; min_delay = pos 0; min_count = pos 0; max_count = pos 3 }

abbrev by_time : TickerOption
by_time = record {
  period = pos 500_000_000;
  min_delay = pos 0;
  min_count = pos 1;
  max_count = pos 9;
}

by_time_test : must_normalize by_time ≡ some (record by_time { min_delay = pos 400_000_000 })
unfolding must_normalize ◌-ℤ◌
by_time_test = refl

new_by_three : new_ticker by_three (pos 0) ≡ some (counting by_three (pos 0) 0)
unfolding new_ticker must_normalize
new_by_three = refl

fires_at_max_test :
    ((count_all (counting by_three (pos 0) 0) ((1, pos 5) ∷ (1, pos 6) ∷ [])).tick_stream ≡ none)
    × ((count_all (counting by_three (pos 0) 0) ((1, pos 5) ∷ (1, pos 6) ∷ [])).current_count
        ≡ pos 2)
    × ((incr_count
          (count_all (counting by_three (pos 0) 0) ((1, pos 5) ∷ (1, pos 6) ∷ []))
          (pos 2)
          (pos 7)).tick_stream
        ≡ some (pos 7))
    × ((incr_count
          (count_all (counting by_three (pos 0) 0) ((1, pos 5) ∷ (1, pos 6) ∷ []))
          (pos 2)
          (pos 7)).current_count
        ≡ pos 0)
fires_at_max_test =
    fires_at_max by_three (pos 0) (counting by_three (pos 0) 0) 3 ((1, pos 5) ∷ (1, pos 6) ∷ []) 2
      (pos 7) new_by_three refl (omega arith) (omega arith) (omega arith)

abbrev empty_executor : TickerExecutor ℕ
empty_executor = record { ticker = counting by_three (pos 0) 0; is_closed = false; tasks = [] }

new_empty_executor : new_executor by_three (pos 0) ≡ some empty_executor
unfolding new_executor new_ticker must_normalize
new_empty_executor = refl

abbrev four_tasks : List (Event ℕ)
four_tasks = add (pos 3) (1 ∷ 2 ∷ []) (pos 1) ∷ receive ∷ add (pos 1) (3 ∷ []) (pos 2) ∷ []

abbrev after_close : List (Event ℕ)
after_close = add (pos 1) (4 ∷ []) (pos 3) ∷ []

hands_over_all_example :
    (batched (run empty_executor four_tasks).1 ++ (run empty_executor four_tasks).0.tasks
      ≡ accepted false four_tasks)
    × (batched (run empty_executor (four_tasks ++ close ∷ after_close)).1
        ≡ accepted false (four_tasks ++ close ∷ after_close))
hands_over_all_example =
    hands_over_all by_three (pos 0) empty_executor four_tasks after_close new_empty_executor

batches_test :
    (run empty_executor (four_tasks ++ close ∷ after_close)).1 ≡ (1 ∷ 2 ∷ []) ∷ (3 ∷ []) ∷ []
unfolding run serve incr_count wrap64 ◌+ℤ◌
batches_test = refl
