-- ===== src/Loops/Tests.antt =====
-- Witnesses and tests of the loops of async/do.go and async/run.go.
use b_go_util.Base.{
  ◌<◌, ◌≤◌, pos, negsuc, ◌≡◌, refl, arith, true, false, none, some, List, [], ◌∷◌, ◌++◌, length,
  map,
}
use b_go_util.Loops.{
  canceled_err, deadline_err, TaskCall, new_context, do_until_cancel, Round, task_error, task_done,
  freeze_done, new_freeze, incr_ctx,
}
use b_go_util.Loops.Interval.{run_cancelable_interval}
use b_go_util.Loops.Helper.{
  RunIntervalHelper, new_helper, with_max_retry_count, after_task, run_helper,
}
use b_go_util.Loops.Calls.{told, only_last, NumberedFrom, all_quiet, done_is_last, cancel_is_told}
use b_go_util.Loops.Retries.{max_retry_count_ends}

abbrev plain_round : Round
plain_round = record { at_select = none; in_task = none; aborts = false }

abbrev canceled_round : Round
canceled_round = record {
  at_select = some canceled_err;
  in_task = some canceled_err;
  aborts = false;
}

abbrev late_round : Round
late_round = record { at_select = none; in_task = some deadline_err; aborts = true }

abbrev some_rounds : List Round
some_rounds = plain_round ∷ plain_round ∷ canceled_round ∷ plain_round ∷ []

abbrev small_helper : RunIntervalHelper
small_helper = record {
  interval = pos 5;
  timeout = pos 0;
  init_run_delay = pos 5;
  max_retry_count = negsuc 0;
}

done_is_last_test :
    NumberedFrom 1 (do_until_cancel (new_context true) some_rounds).0
    × (only_last (map told (do_until_cancel (new_context true) some_rounds).0) ≡ true)
    × (only_last (
          map
            (λ t. told (t.call))
            (run_cancelable_interval after_task (pos 5) (pos 3) (pos 0) some_rounds).0)
        ≡ true)
done_is_last_test = done_is_last after_task (pos 5) (pos 3) (pos 0) some_rounds (omega arith)

cancel_is_told_example :
    (call : TaskCall) × (do_until_cancel
        (new_context true)
        ((plain_round ∷ plain_round ∷ []) ++ (canceled_round ∷ plain_round ∷ []))
      ≡ (
        (do_until_cancel (new_context true) (plain_round ∷ plain_round ∷ [])).0 ++ (call ∷ []),
        true,
      ))
    × (length (do_until_cancel (new_context true) (plain_round ∷ plain_round ∷ [])).0
        ≡ length (plain_round ∷ plain_round ∷ []))
    × (told call ≡ true)
    × (task_error call.given (some canceled_err) ≡ some canceled_err)
cancel_is_told_example =
    cancel_is_told (plain_round ∷ plain_round ∷ []) canceled_round (plain_round ∷ []) canceled_err
      refl refl

max_retry_count_ends_example :
    (length
        (run_helper
          (record small_helper { max_retry_count = pos 2 })
          (plain_round ∷ plain_round ∷ plain_round ∷ plain_round ∷ [])).0
      ≤ 3)
    × (2 < length (plain_round ∷ plain_round ∷ plain_round ∷ plain_round ∷ [])
        → (run_helper
            (record small_helper { max_retry_count = pos 2 })
            (plain_round ∷ plain_round ∷ plain_round ∷ plain_round ∷ [])).1
          ≡ true)
    × (2 < length (plain_round ∷ plain_round ∷ plain_round ∷ plain_round ∷ [])
        → all_quiet (plain_round ∷ plain_round ∷ plain_round ∷ plain_round ∷ []) ≡ true
        → length
            (run_helper
              (record small_helper { max_retry_count = pos 2 })
              (plain_round ∷ plain_round ∷ plain_round ∷ plain_round ∷ [])).0
          ≡ 3)
unfolding new_helper with_max_retry_count
max_retry_count_ends_example =
    max_retry_count_ends (pos 5) 2 small_helper (record small_helper { max_retry_count = pos 2 })
      (plain_round ∷ plain_round ∷ plain_round ∷ plain_round ∷ []) (omega arith) refl refl

late_round_test :
    map told (do_until_cancel (new_context true) (late_round ∷ plain_round ∷ [])).0 ≡ false ∷ []
unfolding do_until_cancel task_done new_context freeze_done new_freeze incr_ctx
late_round_test = refl
