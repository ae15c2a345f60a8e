-- ===== src/Loops/Calls.antt =====
-- What the calls of a task see of its context, in the loops of async/do.go and async/run.go.
use b_go_util.Base.{
  ℕ, suc, ◌+◌, ◌-◌, ◌<◌, ◌^◌, ℤ, pos, ◌+ℤ◌, wrap64, ◌≡◌, refl, arith, inl, inr, Option-cases,
  Bool-cases, true_and_false, ap, Bool, true, false, not, ◌&&◌, ◌||◌, none, some, is_some, List, [],
  ◌∷◌, ◌++◌, length, map, if◌then◌else◌,
}
use b_go_util.Loops.{
  CtxErr, BaseCtx, base, frozen, new_context, new_freeze, incr_ctx, freeze_done, done, canceled,
  timed_out, task_done, task_count, task_error, ctx_error, ctx_count, freeze_count, Round, TaskCall,
  do_until_cancel,
}
use b_go_util.Loops.Interval.{TickCall, interval_loop, run_cancelable_interval}

-- Whether a call is told by its context that it is done, with no Abort of its own.
abbrev pub told : TaskCall → Bool
told call = task_done call.given call.err

abbrev pub count_of_call : TaskCall → ℤ
count_of_call call = task_count call.given

-- Only the last may be true.
abbrev pub only_last : List Bool → Bool
only_last [] = true
only_last (b ∷ []) = true
only_last (b ∷ c ∷ bs) = not b && only_last (c ∷ bs)

only_last-cons :
    (b : Bool) (bs : List Bool) → b ≡ false → only_last bs ≡ true → only_last (b ∷ bs) ≡ true
only_last-cons b [] h k = refl
only_last-cons b (c ∷ bs) h k = rw h k

-- The call of a round that the context does not end.
abbrev frozen_call : BaseCtx → Round → TaskCall
frozen_call c r = record { given = frozen (new_freeze (incr_ctx c) false); err = r.in_task }

-- The three ways of a round.
stops :
    (c : BaseCtx) (r : Round) (rounds : List Round) (e : CtxErr)
    → r.at_select ≡ some e
    → do_until_cancel c (r ∷ rounds)
      ≡ (record { given = base (incr_ctx c); err = some e } ∷ [], true)
unfolding do_until_cancel
stops c r rounds e h = rw (do_until_cancel, h) refl

aborts_now :
    (c : BaseCtx) (r : Round) (rounds : List Round)
    → r.at_select ≡ none
    → r.aborts ≡ true
    → do_until_cancel c (r ∷ rounds) ≡ (frozen_call c r ∷ [], true)
unfolding do_until_cancel
aborts_now c r rounds h k = rw (do_until_cancel, h, k) refl

goes_on :
    (c : BaseCtx) (r : Round) (rounds : List Round)
    → c.abort ≡ false
    → r.at_select ≡ none
    → r.aborts ≡ false
    → do_until_cancel c (r ∷ rounds) ≡ (
      frozen_call c r ∷ (do_until_cancel (incr_ctx c) rounds).0,
      (do_until_cancel (incr_ctx c) rounds).1,
    )
unfolding do_until_cancel
goes_on c r rounds a h k = rw (do_until_cancel, h, k) (ground arith)

pub told_frozen : (c : BaseCtx) (r : Round) → c.abort ≡ false → told (frozen_call c r) ≡ false
unfolding task_done freeze_done new_freeze incr_ctx
told_frozen c r h = h

only_last-told :
    (c : BaseCtx) (rounds : List Round)
    → c.abort ≡ false
    → only_last (map told (do_until_cancel c rounds).0) ≡ true
unfolding incr_ctx do_until_cancel
only_last-told c [] h = refl
only_last-told c (r ∷ rounds) h = elim (Option-cases r.at_select) [
  | inr (e, k) ↦ rw (stops c r rounds e k) refl
  | inl k ↦ elim (Bool-cases r.aborts) [
    | inl a ↦ rw (aborts_now c r rounds k a) refl
    | inr a ↦ rw (goes_on c r rounds h k a) (
        only_last-cons (told (frozen_call c r)) (map told (do_until_cancel (incr_ctx c) rounds).0)
          (told_frozen c r h) (only_last-told (incr_ctx c) rounds h))
  ]
]

module _ {S : Type 0} (wrap : S → Bool → S × Bool) (interval : ℤ) where
  pub tick_call : BaseCtx → ℤ → Round → TickCall
  tick_call c period r = record { call = frozen_call c r; period = period }

  -- The period after a run.
  abbrev pub next_period : ℤ → Bool → ℤ
  next_period period has_init_run = if has_init_run then period else interval

  pub loop_stops :
      (s : S) (c : BaseCtx) (period : ℤ) (has_init_run : Bool) (r : Round) (rounds : List Round)
      (e : CtxErr)
      → r.at_select ≡ some e
      → interval_loop wrap interval s c period has_init_run (r ∷ rounds) ≡ (
        record { call = record { given = base (incr_ctx c); err = some e }; period = period } ∷ [],
        true,
      )
  unfolding interval_loop
  loop_stops s c period has_init_run r rounds e h = rw (interval_loop, h) refl

  -- Abort is called by the task, or after it by what wraps it.
  pub loop_aborts :
      (s : S) (c : BaseCtx) (period : ℤ) (has_init_run : Bool) (r : Round) (rounds : List Round)
      → r.at_select ≡ none
      → (r.aborts || (wrap s (c.abort || r.aborts)).1) ≡ true
      → interval_loop wrap interval s c period has_init_run (r ∷ rounds)
        ≡ (tick_call c period r ∷ [], true)
  unfolding interval_loop tick_call
  loop_aborts s c period has_init_run r rounds h k = rw (interval_loop, h) (ground arith)

  pub loop_goes_on :
      (s : S) (c : BaseCtx) (period : ℤ) (has_init_run : Bool) (r : Round) (rounds : List Round)
      → c.abort ≡ false
      → r.at_select ≡ none
      → r.aborts ≡ false
      → (wrap s c.abort).1 ≡ false
      → interval_loop wrap interval s c period has_init_run (r ∷ rounds) ≡ (
        tick_call c period r
            ∷ (interval_loop wrap interval
                (wrap s c.abort).0
                (incr_ctx c)
                (next_period period has_init_run)
                true
                rounds).0,
        (interval_loop wrap interval
            (wrap s c.abort).0
            (incr_ctx c)
            (next_period period has_init_run)
            true
            rounds).1,
      )
  unfolding interval_loop tick_call
  loop_goes_on s c period has_init_run r rounds a h k w = rw (interval_loop, h, k, w) (ground arith)

  pub told_tick :
      (c : BaseCtx) (period : ℤ) (r : Round)
      → c.abort ≡ false
      → told (tick_call c period r).call ≡ false
  unfolding tick_call
  told_tick c period r h = told_frozen c r h

  pub loop_told :
      (s : S) (c : BaseCtx) (period : ℤ) (has_init_run : Bool) (rounds : List Round)
      → c.abort ≡ false
      → only_last
          (map (λ t. told (t.call)) (interval_loop wrap interval s c period has_init_run rounds).0)
        ≡ true
  unfolding incr_ctx interval_loop
  loop_told s c period has_init_run [] h = refl
  loop_told s c period has_init_run (r ∷ rounds) h = elim (Option-cases r.at_select) [
    | inr (e, k) ↦ rw (loop_stops s c period has_init_run r rounds e k) refl
    | inl k ↦ elim (Bool-cases (r.aborts || (wrap s (c.abort || r.aborts)).1)) [
      | inl a ↦ rw (loop_aborts s c period has_init_run r rounds k a) refl
      | inr a ↦
          let (quiet, left_alone) = neither r.aborts c.abort (λ b. (wrap s b).1) h a in
          rw (loop_goes_on s c period has_init_run r rounds h k quiet left_alone) (
            only_last-cons _ _ (told_tick c period r h) (
              loop_told (wrap s c.abort).0 (incr_ctx c) (next_period period has_init_run) true
                rounds h))
    ]
  ]
    where
      neither :
          (aborts already : Bool) (f : Bool → Bool)
          → already ≡ false
          → (aborts || f (already || aborts)) ≡ false
          → (aborts ≡ false) × (f already ≡ false)
      neither true true f h k = cc
      neither true false f h k = cc
      neither false true f h k = cc
      neither false false f h k = (refl, k)

-- The calls of a task are numbered from the first on.
abbrev pub NumberedFrom : ℕ → List TaskCall → Type 0
NumberedFrom k [] = Unit {0}
NumberedFrom k (call ∷ calls) = (count_of_call call ≡ pos k) × NumberedFrom (suc k) calls

incr_count :
    (c : BaseCtx) (k : ℕ) → c.count ≡ pos k → k < 2 ^ 63 - 1 → ctx_count (incr_ctx c) ≡ pos (suc k)
unfolding incr_ctx ctx_count wrap64 ◌+ℤ◌
incr_count c k h b = rw h (ground arith)

until_cancel_numbered :
    (c : BaseCtx) (rounds : List Round) (k : ℕ)
    → c.abort ≡ false
    → c.count ≡ pos k
    → k + length rounds < 2 ^ 63
    → NumberedFrom (suc k) (do_until_cancel c rounds).0
unfolding do_until_cancel incr_ctx task_count ctx_count freeze_count new_freeze
until_cancel_numbered c [] k a h b = tt
until_cancel_numbered c (r ∷ rounds) k a h b = elim (Option-cases r.at_select) [
  | inr (e, o) ↦ rw (stops c r rounds e o) (incr_count c k h (omega arith), tt)
  | inl o ↦ elim (Bool-cases r.aborts) [
    | inl q ↦ rw (aborts_now c r rounds o q) (incr_count c k h (omega arith), tt)
    | inr q ↦ rw (goes_on c r rounds a o q) (
      incr_count c k h (omega arith),
      until_cancel_numbered (incr_ctx c) rounds (suc k) a (incr_count c k h (omega arith))
          (omega arith),
    )
  ]
]

-- In DoUntilCancel and in runCancelableInterval with any wrapper of the task, a call whose context
-- says that it is done, before the task calls Abort itself, is the last call; and the calls of
-- DoUntilCancel in fewer than 2^63 rounds are numbered by Count from 1 on.
pub done_is_last :
    {S : Type 0} (wrap : S → Bool → S × Bool) (interval : ℤ) (s : S) (delay : ℤ)
    (rounds : List Round)
    → length rounds < 2 ^ 63
    → NumberedFrom 1 (do_until_cancel (new_context true) rounds).0
      × (only_last (map told (do_until_cancel (new_context true) rounds).0) ≡ true)
      × (only_last
            (map (λ t. told (t.call)) (run_cancelable_interval wrap interval s delay rounds).0)
          ≡ true)
unfolding new_context run_cancelable_interval
done_is_last wrap interval s delay rounds h = (
  until_cancel_numbered (new_context true) rounds 0 refl refl (omega arith),
  only_last-told (new_context true) rounds refl,
  loop_told wrap interval s (new_context true) _ _ rounds refl,
)

-- A round that neither the context nor an Abort ends.
abbrev pub quiet : Round → Bool
quiet r = not (is_some r.at_select) && not r.aborts

abbrev pub all_quiet : List Round → Bool
all_quiet [] = true
all_quiet (r ∷ rs) = quiet r && all_quiet rs

quiet_parts : (r : Round) → quiet r ≡ true → (r.at_select ≡ none) × (r.aborts ≡ false)
quiet_parts r h = elim (Option-cases r.at_select) [
  | inr (e, k) ↦ absurd (true_and_false h (rw k refl))
  | inl k ↦ elim (Bool-cases r.aborts) [
    | inl a ↦ absurd (true_and_false h (rw (k, a) refl))
    | inr a ↦ (k, a)
  ]
]

-- The call of the round whose select sees the error.
abbrev last_call : BaseCtx → List Round → CtxErr → TaskCall
last_call c [] e = record { given = base (incr_ctx c); err = some e }
last_call c (r ∷ rounds) e = last_call (incr_ctx c) rounds e

last_call-Told :
    (c : BaseCtx) (before : List Round) (e : CtxErr)
    → c.has_ctx ≡ true
    → (told (last_call c before e) ≡ true)
      × (task_error (last_call c before e).given (some e) ≡ some e)
unfolding incr_ctx task_done done task_error ctx_error canceled timed_out
last_call-Told c [] e h = ground arith
last_call-Told c (r ∷ rounds) e h = last_call-Told (incr_ctx c) rounds e h

ends :
    (c : BaseCtx) (before : List Round) (r : Round) (rest : List Round) (e : CtxErr)
    → c.abort ≡ false
    → all_quiet before ≡ true
    → r.at_select ≡ some e
    → (do_until_cancel c (before ++ (r ∷ rest))
        ≡ ((do_until_cancel c before).0 ++ (last_call c before e ∷ []), true))
      × (length (do_until_cancel c before).0 ≡ length before)
unfolding do_until_cancel incr_ctx
ends c [] r rest e a q h = (stops c r rest e h, refl)
ends c (b ∷ before) r rest e a q h =
    let (o, k) = quiet_parts b (ground (arith, q)) in
    let (all, many) = ends (incr_ctx c) before r rest e a (ground (arith, q)) h in
    rw (goes_on c b (before ++ (r ∷ rest)) a o k, goes_on c b before a o k, all) (refl, ap suc many)

-- If the context is not done in some first rounds of DoUntilCancel, nobody calls Abort in them and
-- the select of the next sees the context's error, the task runs in each of them and once more, with
-- a context that is done and has that error, and the loop ends, whatever comes after.
pub cancel_is_told :
    (before : List Round) (r : Round) (rest : List Round) (e : CtxErr)
    → all_quiet before ≡ true
    → r.at_select ≡ some e
    → (call : TaskCall) × (do_until_cancel (new_context true) (before ++ (r ∷ rest))
        ≡ ((do_until_cancel (new_context true) before).0 ++ (call ∷ []), true))
      × (length (do_until_cancel (new_context true) before).0 ≡ length before)
      × (told call ≡ true)
      × (task_error call.given (some e) ≡ some e)
unfolding new_context
cancel_is_told before r rest e q h =
    let c = new_context true in
    let (all, many) = ends c before r rest e refl q h in
    let (t, err) = last_call-Told c before e refl in (last_call c before e, all, many, t, err)
