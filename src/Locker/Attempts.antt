-- ===== src/Locker/Attempts.antt =====
-- Which attempt decides what obtainLock of rdb/locker.go returns.
use b_go_util.Base.{
  ℕ, zero, suc, ◌<◌, ◌^◌, ℤ, pos, ltb_ℤ, same, ℤ-discrete, ◌≡◌, ◌∙◌, refl, arith, inl, inr, ap,
  Option-cases, Bool-cases, Bool, true, false, none, some, List, [], ◌∷◌, length,
}
use b_go_util.Loops.{
  CtxErr, base, BaseCtx, new_context, incr_ctx, Round, task_done, done, canceled, timed_out,
  canceled_err, deadline_err,
}
use b_go_util.Loops.Interval.{TickCall, interval_loop, run_cancelable_interval}
use b_go_util.Loops.Helper.{
  RunIntervalHelper, new_helper, with_init_run_delay, with_max_retry_count, after_task, run_helper,
}
use b_go_util.Loops.Calls.{loop_stops, loop_aborts, loop_goes_on, next_period, told_tick, told}
use b_go_util.Loops.Retries.{loop-Facts, after_last, after_more}
use b_go_util.Locker.{
  Locker, Outcome, not_obtained, Attempt, is_settled, round_of, rounds_of, assigned, obtained_by,
  retry_helper, default_interval, obtain_lock,
}
use b_go_util.Locker.Settling.{
  first_settled, settled_stops, settled_now, settled_last, settled_later, unsettled, assigned-told,
  assigned-call, assigned-none,
}

stop_told :
    (c : BaseCtx) (period : ℤ) (e : CtxErr)
    → c.has_ctx ≡ true
    → told (record { given = base (incr_ctx c); err = some e }) ≡ true
unfolding incr_ctx task_done done canceled timed_out
stop_told c period canceled_err h = ground arith
stop_told c period deadline_err h = ground arith

abbrev loop : ℤ → ℤ → BaseCtx → ℤ → Bool → List Round → List TickCall × Bool
loop interval k c period b rounds = interval_loop after_task interval k c period b rounds

loop_nothing :
    (interval k : ℤ) (c : BaseCtx) (period : ℤ) (b : Bool)
    → loop interval k c period b [] ≡ ([], false)
unfolding interval_loop
loop_nothing interval k c period b = refl

module _ {L E : Type 0} (interval : ℤ) where
  loop_settles :
      (n : ℕ) (c : BaseCtx) (period : ℤ) (b : Bool) (attempts : List (Attempt L E))
      → c.abort ≡ false
      → c.has_ctx ≡ true
      → n < 2 ^ 63
      → assigned not_obtained (loop interval (pos n) c period b (rounds_of attempts)).0 attempts
        ≡ first_settled n attempts
  unfolding rounds_of round_of incr_ctx first_settled
  loop_settles n c period b [] a x k =
      rw (loop_nothing interval (pos n) c period b) (assigned-none not_obtained [])
  loop_settles n c period b (t ∷ rest) a x k = elim (Option-cases t.at_select) [
    | inr (e, h) ↦
        rw
          (
            loop_stops after_task interval (pos n) c period b (round_of t) (rounds_of rest) e h,
            settled_stops n t rest e h,
          )
          (assigned-told not_obtained _ t rest (stop_told c period e x))
    | inl h ↦ elim (Bool-cases (is_settled t.outcome)) [
      | inl w ↦
          rw
            (
              loop_aborts after_task interval (pos n) c period b (round_of t) (rounds_of rest) h
                  (rw w refl),
              settled_now n t rest h w,
            )
            (assigned-call not_obtained _ [] t rest
                (told_tick after_task interval c period (round_of t) a)
              ∙ assigned-none t.outcome rest)
      | inr w ↦
          unsettled_round n
            (λ m. loop_settles m (incr_ctx c) (next_period after_task interval period b) true rest)
            k h w
    ]
  ]
    where
      unsettled_round :
          (n : ℕ)
          → ((m : ℕ)
              → (incr_ctx c).abort ≡ false
              → (incr_ctx c).has_ctx ≡ true
              → m < 2 ^ 63
              → assigned not_obtained
                  (loop interval
                    (pos m)
                    (incr_ctx c)
                    (next_period after_task interval period b)
                    true
                    (rounds_of rest)).0
                  rest
                ≡ first_settled m rest)
          → n < 2 ^ 63
          → t.at_select ≡ none
          → is_settled t.outcome ≡ false
          → assigned not_obtained
              (loop interval (pos n) c period b (rounds_of (t ∷ rest))).0
              (t ∷ rest)
            ≡ first_settled n (t ∷ rest)
      unsettled_round zero ih k h w =
          rw
            (
              loop_aborts after_task interval (pos 0) c period b (round_of t) (rounds_of rest) h
                  (rw (w, a) (ap (λ r. r.1) after_last)),
              settled_last t rest h w,
            )
            (assigned-call not_obtained _ [] t rest
                (told_tick after_task interval c period (round_of t) a)
              ∙ assigned-none t.outcome rest
              ∙ unsettled t.outcome w)
      unsettled_round (suc m) ih k h w =
          let left : after_task (pos (suc m)) c.abort ≡ (pos m, false) = rw a (after_more m k) in
          rw
            (
              loop_goes_on after_task interval (pos (suc m)) c period b (round_of t)
                  (rounds_of rest) a h w (ap (λ r. r.1) left),
              left,
              settled_later m t rest h w,
            )
            (assigned-call not_obtained _ _ t rest
                (told_tick after_task interval c period (round_of t) a)
              ∙ rw (unsettled t.outcome w) (ih m a x (omega arith)))

-- The helper of a locker with retries.
abbrev helper_of : ℤ → ℕ → RunIntervalHelper
helper_of interval n = record {
  interval = interval;
  timeout = pos 0;
  init_run_delay = pos 1000000;
  max_retry_count = pos n;
}

helper_made :
    (l : Locker) (n : ℕ) (ttl : ℤ)
    → l.retry_limit ≡ pos n
    → ltb_ℤ (pos 0) ttl ≡ true
    → retry_helper (default_interval l ttl)
      ≡ some (helper_of (default_interval l ttl).retry_interval n)
unfolding retry_helper new_helper with_init_run_delay with_max_retry_count default_interval
helper_made l n ttl e p = ground (arith, e, p)

module _ {L E : Type 0} where
  length-rounds_of : (attempts : List (Attempt L E)) → length (rounds_of attempts) ≡ length attempts
  unfolding rounds_of
  length-rounds_of [] = refl
  length-rounds_of (t ∷ rest) = ap suc (length-rounds_of rest)

  helper_obtains :
      (interval : ℤ) (n : ℕ) (attempts : List (Attempt L E))
      → n < 2 ^ 63
      → n < length attempts
      → obtained_by (helper_of interval n) attempts ≡ (first_settled n attempts, true)
  unfolding obtained_by run_helper run_cancelable_interval new_context
  helper_obtains interval n attempts k m =
      let first_is_same = same ℤ-discrete (pos 1000000) interval in
      let settled =
        loop_settles interval n (new_context true) (pos 1000000) first_is_same attempts refl refl
          k in
      let (few, ends, exact) =
        loop-Facts interval n (new_context true) (pos 1000000) first_is_same (rounds_of attempts)
          refl k in
      rw (settled, ends (rw (length-rounds_of attempts) m)) refl

  obtained :
      (l : Locker) (n : ℕ) (ttl : ℤ) (single : Outcome L E) (attempts : List (Attempt L E))
      (r : RunIntervalHelper)
      → l.retry_limit ≡ pos (suc n)
      → retry_helper (default_interval l ttl) ≡ some r
      → obtain_lock l ttl single attempts ≡ some (default_interval l ttl, obtained_by r attempts)
  unfolding obtain_lock
  obtained l n ttl single attempts r e h = ground (arith, e, h)

  -- With one or more retries, fewer than 2^63, and a lock that is to live for some time, obtainLock
  -- returns, if enough rounds come, what the first call of Obtain returns that is no ErrNotObtained, of
  -- as many calls as there are retries and one more; it returns ErrNotObtained if there is none, or if
  -- the context is done before.
  pub first_settled_decides :
      (l : Locker) (n : ℕ) (ttl : ℤ) (single : Outcome L E) (attempts : List (Attempt L E))
      → l.retry_limit ≡ pos (suc n)
      → suc n < 2 ^ 63
      → ltb_ℤ (pos 0) ttl ≡ true
      → suc n < length attempts
      → obtain_lock l ttl single attempts
        ≡ some (default_interval l ttl, (first_settled (suc n) attempts, true))
  first_settled_decides l n ttl single attempts e k p m =
      obtained l n ttl single attempts _ e (helper_made l (suc n) ttl e p)
      ∙ rw (helper_obtains (default_interval l ttl).retry_interval (suc n) attempts k m) refl
