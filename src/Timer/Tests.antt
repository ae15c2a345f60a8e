-- ===== src/Timer/Tests.antt =====
-- Runs of the time wheel, and its theorems at concrete wheels.
use b_go_util.Base.{
  ℕ, ℕ_discrete, ◌≡◌, ◌↔◌, ◌⊎◌, refl, Bool, true, false, none, some, List, [], ◌∷◌, arith, get,
  put as put_entry, delete, has_key,
}
use b_go_util.Timer.{Task, Timer, new_timer, on_put, on_del, on_tick}
use b_go_util.Timer.Wiring.{IsWired}
use b_go_util.Timer.Due.{due, offset}
use b_go_util.Timer.Pending.{IsPending}
use b_go_util.Timer.Run.{Event, tick, put, del, run}
use b_go_util.Timer.Reached.{
  all_exact, empty_wheel, empty_wheel-IsWired, reached-IsWired, run-IsWired,
}
use b_go_util.Timer.Started.{on_tick_starts_iff, superseded_shields}

abbrev wheel : Timer ℕ ℕ
wheel = empty_wheel 10 4

abbrev task_of : ℕ → ℕ → Bool → Task ℕ ℕ
task_of delay key cyclic = record {
  delay = delay;
  key = key;
  value = 7;
  bucket_idx = 0;
  round = 0;
  removed = false;
  cyclic = cyclic;
}

-- 95 / 10 = 9 ticks to wait: bucket 1, two full rounds.
abbrev nine_ticks : List (Event ℕ ℕ)
nine_ticks =
    tick
    ∷ tick
    ∷ put (task_of 20 5 false)
    ∷ tick
    ∷ tick
    ∷ del 5
    ∷ tick
    ∷ tick
    ∷ tick
    ∷ tick
    ∷ tick
    ∷ []

starts_test : (run ℕ_discrete wheel (put (task_of 95 3 true) ∷ nine_ticks)).started ≡ []
unfolding run on_tick on_put ℕ_discrete get put_entry delete
starts_test = refl

starts_now_test :
    (run ℕ_discrete
      (run ℕ_discrete wheel (put (task_of 95 3 true) ∷ nine_ticks)).state
      (tick ∷ [])).started
    ≡ 0 ∷ []
unfolding run on_tick on_put ℕ_discrete get put_entry delete
starts_now_test = refl

reached-IsWired_example :
    (e : Timer ℕ ℕ) × (new_timer 10 4 ≡ some e)
    × IsWired ℕ_discrete (run ℕ_discrete e (put (task_of 95 3 true) ∷ nine_ticks)).state
    × (((run ℕ_discrete e (put (task_of 95 3 true) ∷ nine_ticks)).panicked ≡ false)
        ⊎ (all_exact ℕ_discrete 10 4 (put (task_of 95 3 true) ∷ nine_ticks) ≡ false))
reached-IsWired_example =
    reached-IsWired ℕ_discrete 10 4 (put (task_of 95 3 true) ∷ nine_ticks) (omega arith)
      (omega arith)

-- A period of 1 ns, bucket 1 of 3 and the longest delay: the sum of two ints is negative, and so is the
-- index.
overflow_test :
    (run ℕ_discrete
      (empty_wheel 1 3)
      (tick ∷ put (task_of 9223372036854775807 3 true) ∷ tick ∷ [])).panicked
    ≡ true
unfolding run on_tick on_put ℕ_discrete get put_entry delete
overflow_test = refl

on_tick_starts_iff_example :
    (has_key ℕ_discrete 0
        (on_tick ℕ_discrete (run ℕ_discrete wheel (put (task_of 5 3 false) ∷ [])).state).1
      ≡ true)
    ↔ ((k : ℕ) × (task : Task ℕ ℕ) × IsPending ℕ_discrete
          (run ℕ_discrete wheel (put (task_of 5 3 false) ∷ [])).state
          k
          0
          0
          task)
on_tick_starts_iff_example =
    on_tick_starts_iff ℕ_discrete (run ℕ_discrete wheel (put (task_of 5 3 false) ∷ [])).state 0 (
      run-IsWired ℕ_discrete wheel (put (task_of 5 3 false) ∷ [])
        (empty_wheel-IsWired ℕ_discrete 10 4 (omega arith)))

abbrev old_task : Task ℕ ℕ
old_task = record (task_of 10 3 false) { bucket_idx = 1; removed = true }

abbrev new_task_placed : Task ℕ ℕ
new_task_placed = record (task_of 30 3 false) { bucket_idx = 3 }

-- Key 3 is put for the next tick but one, and put again for later; the wheel stands at bucket 1.
abbrev replaced : Timer ℕ ℕ
unfolding run on_tick on_put ℕ_discrete get put_entry delete
replaced =
    (run ℕ_discrete wheel (put (task_of 10 3 false) ∷ put (task_of 30 3 false) ∷ tick ∷ [])).state

replaced-IsWired : IsWired ℕ_discrete replaced
unfolding run on_tick on_put ℕ_discrete get put_entry delete
replaced-IsWired =
    run-IsWired ℕ_discrete wheel (put (task_of 10 3 false) ∷ put (task_of 30 3 false) ∷ tick ∷ [])
      (empty_wheel-IsWired ℕ_discrete 10 4 (omega arith))

superseded_shields_test :
    let e' = (on_tick ℕ_discrete replaced).0 in
    (get ℕ_discrete 3 e'.tasks ≡ none)
    × (on_del ℕ_discrete e' 3 ≡ e')
    × ((r : ℕ) × IsPending ℕ_discrete
          (on_del ℕ_discrete e' 3)
          3
          1
          1
          (record new_task_placed { round = r }))
unfolding run on_tick on_put ℕ_discrete get put_entry delete due offset
superseded_shields_test =
    superseded_shields ℕ_discrete replaced 3 0 1 1 old_task new_task_placed replaced-IsWired refl
      refl refl (record { at = refl; keyed = refl; placed = refl; live = refl; on_time = refl })
