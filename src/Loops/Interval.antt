-- ===== src/Loops/Interval.antt =====
-- runCancelableInterval of async/run.go. Of the two cases of its select any that is ready may be
-- taken: a round says which. What wraps the task there (in async/run_interval_helper.go) keeps a state,
-- and may call Abort after the task; `wrap` is the new state and whether it does, by what Done then
-- returns.
use b_go_util.Base.{
  ℤ, pos, leb_ℤ, ℤ-discrete, same, Bool, true, false, none, some, List, [], ◌∷◌, if◌then◌else◌,
}
use b_go_util.Loops.{
  BaseCtx, base, frozen, new_context, new_freeze, freeze_done, abort_ctx, aborted, incr_ctx, Round,
  TaskCall,
}

-- A call of the task, and the period that the ticker had.
pub record TickCall : Type 0 where
  pub call : TaskCall
  pub period : ℤ

module _ {S : Type 0} (wrap : S → Bool → S × Bool) (interval : ℤ) where
  unfoldable pub interval_loop : S → BaseCtx → ℤ → Bool → List Round → List TickCall × Bool
  unfolding incr_ctx new_freeze freeze_done abort_ctx aborted
  interval_loop s c period has_init_run [] = ([], false)
  interval_loop s c period has_init_run (r ∷ rounds) =
      let c' = incr_ctx c in
      let user = if r.aborts then abort_ctx c' else c' in
      let wrapped = wrap s (freeze_done (new_freeze user false)) in
      let after = if wrapped.1 then abort_ctx user else user in
      let rest =
        interval_loop wrapped.0 after (if has_init_run then period else interval) true rounds in
      elim (r.at_select) [
        | some e ↦
            (record { call = record { given = base c'; err = some e }; period = period } ∷ [], true)
        | none ↦
            let tick : TickCall = record {
              call = record { given = frozen (new_freeze c' false); err = r.in_task };
              period = period;
            } in
            if aborted after then (tick ∷ [], true) else (tick ∷ rest.0, rest.1)
      ]

  -- The delay before the first run is at least a nanosecond.
  unfoldable pub run_cancelable_interval : S → ℤ → List Round → List TickCall × Bool
  unfolding new_context
  run_cancelable_interval s init_run_delay rounds =
      let delay = if leb_ℤ init_run_delay (pos 0) then pos 1 else init_run_delay in
      interval_loop s (new_context true) delay (same ℤ-discrete delay interval) rounds
