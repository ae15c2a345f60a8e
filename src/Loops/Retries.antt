-- ===== src/Loops/Retries.antt =====
-- How often a task runs with WithMaxRetryCount of async/run_interval_helper.go.
use b_go_util.Base.{
  ℕ, zero, suc, ◌<◌, ◌≤◌, ◌^◌, ℤ, pos, ◌-ℤ◌, wrap64, ℤ-discrete, ℕ_discrete, ◌≡◌, refl, sym, arith,
  inl, inr, ap, Option-cases, Bool-cases, Bool, true, false, none, some, List, [], ◌∷◌, length,
}
use b_go_util.Loops.{CtxErr, base, BaseCtx, new_context, incr_ctx, Round}
use b_go_util.Loops.Interval.{TickCall, interval_loop, run_cancelable_interval}
use b_go_util.Loops.Helper.{
  RunIntervalHelper, new_helper, with_max_retry_count, after_task, run_helper,
}
use b_go_util.Loops.Calls.{loop_stops, loop_aborts, loop_goes_on, next_period, tick_call, all_quiet}

pub after_last : after_task (pos 0) false ≡ (pos 0, true)
unfolding after_task ℤ-discrete ℕ_discrete
after_last = refl

pub after_more : (n : ℕ) → suc n < 2 ^ 63 → after_task (pos (suc n)) false ≡ (pos n, false)
unfolding after_task wrap64 ◌-ℤ◌
after_more n h = ground arith

-- What a loop with n retries left does in some rounds: at most n + 1 calls; with more than n rounds
-- it ends, and with that many and quiet ones it makes all its calls.
abbrev pub Facts : ℕ → List Round → List TickCall × Bool → Type 0
Facts n rounds r =
    (length r.0 ≤ suc n)
    × (n < length rounds → r.1 ≡ true)
    × (n < length rounds → all_quiet rounds ≡ true → length r.0 ≡ suc n)

one_call :
    (n : ℕ) (rounds : List Round) (t : TickCall)
    → (all_quiet rounds ≡ true → n ≡ 0)
    → Facts n rounds (t ∷ [], true)
one_call n rounds t h = (omega arith, (λ _. refl), (λ _ q. omega (arith, h q)))

stop_call : BaseCtx → ℤ → CtxErr → TickCall
stop_call c period e = record {
  call = record { given = base (incr_ctx c); err = some e };
  period = period;
}

module _ (interval : ℤ) where
  more_calls :
      (n : ℕ) (r : Round) (rounds : List Round) (t : TickCall) (x : List TickCall × Bool)
      → Facts n rounds x
      → Facts (suc n) (r ∷ rounds) (t ∷ x.0, x.1)
  more_calls n r rounds t x (few, ends, exact) =
      (omega arith, (λ l. ends (omega arith)), (λ l q. ground (arith, exact (omega arith))))

  loop_nothing :
      (c : BaseCtx) (period : ℤ) (b : Bool) (k : ℤ)
      → interval_loop after_task interval k c period b [] ≡ ([], false)
  unfolding interval_loop
  loop_nothing c period b k = refl

  pub loop-Facts :
      (n : ℕ) (c : BaseCtx) (period : ℤ) (b : Bool) (rounds : List Round)
      → c.abort ≡ false
      → n < 2 ^ 63
      → Facts n rounds (interval_loop after_task interval (pos n) c period b rounds)
  unfolding incr_ctx stop_call
  loop-Facts n c period b [] a k =
      rw (loop_nothing c period b (pos n))
        (omega arith, (λ h. absurd (omega arith)), (λ h. absurd (omega arith)))
  loop-Facts n c period b (r ∷ rounds) a k = elim (Option-cases r.at_select) [
    | inr (e, h) ↦
        rw (loop_stops after_task interval (pos n) c period b r rounds e h)
          (one_call n (r ∷ rounds) (stop_call c period e) (λ q. ground (arith, q)))
    | inl h ↦ elim (Bool-cases r.aborts) [
      | inl w ↦ rw (loop_aborts after_task interval (pos n) c period b r rounds h (rw w refl)) (
          one_call n (r ∷ rounds) (tick_call after_task interval c period r)
            (λ q. ground (arith, q)))
      | inr w ↦
          left_alone n
            (λ m. loop-Facts m (incr_ctx c) (next_period after_task interval period b) true rounds)
            a k h w
    ]
  ]
    where
      left_alone :
          (n : ℕ)
          → ((m : ℕ)
              → (incr_ctx c).abort ≡ false
              → m < 2 ^ 63
              → Facts m rounds (
                  interval_loop after_task interval
                    (pos m)
                    (incr_ctx c)
                    (next_period after_task interval period b)
                    true
                    rounds))
          → c.abort ≡ false
          → n < 2 ^ 63
          → r.at_select ≡ none
          → r.aborts ≡ false
          → Facts n (r ∷ rounds) (interval_loop after_task interval (pos n) c period b (r ∷ rounds))
      left_alone zero ih a k h w =
          rw
            (loop_aborts after_task interval (pos 0) c period b r rounds h
              (rw (w, a) (ap (λ t. t.1) after_last)))
            (one_call zero (r ∷ rounds) (tick_call after_task interval c period r) (λ q. refl))
      left_alone (suc n) ih a k h w =
          let left : after_task (pos (suc n)) c.abort ≡ (pos n, false) = rw a (after_more n k) in
          rw
            (
              loop_goes_on after_task interval (pos (suc n)) c period b r rounds a h w
                  (ap (λ t. t.1) left),
              left,
            )
            (more_calls n r rounds (tick_call after_task interval c period r)
              (interval_loop after_task interval (pos n) (incr_ctx c)
                (next_period after_task interval period b) true rounds)
              (ih n a (omega arith)))

-- A RunIntervalHelper of NewRunIntervalHelper that is set to at most n retries, n below 2^63, runs
-- its task at most n + 1 times and, if there are more than n rounds, ends; if in those rounds the
-- context is not done and nobody calls Abort, it runs the task n + 1 times exactly.
pub max_retry_count_ends :
    (interval : ℤ) (n : ℕ) (r₀ r : RunIntervalHelper) (rounds : List Round)
    → n < 2 ^ 63
    → new_helper interval ≡ some r₀
    → with_max_retry_count r₀ (pos n) ≡ some r
    → (length (run_helper r rounds).0 ≤ suc n)
      × (n < length rounds → (run_helper r rounds).1 ≡ true)
      × (n < length rounds → all_quiet rounds ≡ true → length (run_helper r rounds).0 ≡ suc n)
unfolding new_helper with_max_retry_count run_helper run_cancelable_interval
max_retry_count_ends interval n r₀ r rounds k h w =
    rw (sym (retries r₀ r w)) (loop-Facts r.interval n (new_context true) _ _ rounds refl k)
  where
    retries :
        (r₀ r : RunIntervalHelper)
        → with_max_retry_count r₀ (pos n) ≡ some r
        → pos n ≡ r.max_retry_count
    retries r₀ r w = ground (arith, w)
