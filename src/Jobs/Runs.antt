-- ===== src/Jobs/Runs.antt =====
-- When runTask of rdb/scheduler/scheduler.go runs a task, and the time that a task sets for its next run.
use Prim.Native.String.{String}
use b_go_util.Base.{
  Time, unix, from_unix, ℕ, ℤ, pos, negsuc, IsInt64, ltb_ℤ, leb_ℤ, ltb, leb, same, ℤ-discrete, Bool,
  true, false, not, ◌&&◌, ◌||◌, ◌≡◌, ◌≢◌, ◌⊎◌, ◌↔◌, inl, inr, refl, sym, ap, ◌∙◌, arith, Option,
  none, some, List, [], ◌∷◌, Bool-cases, Option-cases,
}
use b_go_util.Atomic.{bool_value, is_false}
use b_go_util.Scripts.{Numbers, Commands}
use b_go_util.Locker.{Outcome, got, not_obtained, failed, new_locker, obtain_lock}
use b_go_util.Jobs.{
  is_zero, has_come, TaskOption, task_invoke_time_key, time_is, get_next_time, set_next_time,
  is_in_range, is_up, reply_is_up, Moment, obtains, runs, releases, obtain_for, run_locked,
  run_once,
}

-- A time of the day in a range: any if there is no range, and none if it has one end alone.
abbrev pub InRange : List ℤ → ℤ → Type 0
InRange [] hhmm = Unit {0}
InRange (low ∷ []) hhmm = ⊥
InRange (low ∷ high ∷ rest) hhmm = (leb_ℤ low hhmm ≡ true) × (leb_ℤ hhmm high ≡ true)

InRange-iff :
    (o : TaskOption) (hhmm : ℤ) (r : List ℤ)
    → o.invoke_time_range ≡ r
    → (is_in_range o hhmm ≡ true) ↔ InRange r hhmm
unfolding is_in_range
InRange-iff o hhmm [] e = rw (is_in_range, e) ((λ h. tt), (λ h. refl))
InRange-iff o hhmm (low ∷ []) e = rw (is_in_range, e) ((λ h. cc), (λ h. absurd h))
InRange-iff o hhmm (low ∷ high ∷ rest) e = rw (is_in_range, e) (ground arith)

-- The zero time, an earlier second than that of the clock, or the same.
abbrev pub IsUp : Time → ℤ → Type 0
IsUp now v = (v ≡ negsuc 62135596799) ⊎ ((ltb_ℤ v now.seconds ≡ true) ⊎ (v ≡ now.seconds))

IsUp-iff : (now : Time) (v : ℤ) → (is_up now (from_unix v) ≡ true) ↔ IsUp now v
unfolding is_up is_zero has_come
IsUp-iff now v = ground arith

module _ {S L E : Type 0} (num : Numbers) (redis : Commands String S num) where
  -- The three tests of a run, and the lock.
  abbrev pub is_due : TaskOption → Moment L E → S → Bool
  is_due o m s =
      not (m.is_done || is_false m.is_running)
      && is_in_range o m.hhmm
      && reply_is_up m.now (get_next_time num redis o m.get_fails s)

  due_runs :
      (o : TaskOption) (task : S → S × Bool) (m : Moment L E) (s : S)
      → is_due o m s ≡ true
      → run_once num redis o task m s ≡ run_locked task s (obtain_for num redis o m.obtain)
  unfolding run_once
  due_runs o task m s h = ground (arith, h)

  not_due_rests :
      (o : TaskOption) (task : S → S × Bool) (m : Moment L E) (s : S)
      → is_due o m s ≡ false
      → run_once num redis o task m s ≡ (s, [])
  unfolding run_once
  not_due_rests o task m s h = ground (arith, h)

  -- GET succeeds, and the key is missing, or holds the seconds of the zero time, of an earlier second or of
  -- the one that the clock is in.
  abbrev pub TimeIsUp : TaskOption → Moment L E → S → Type 0
  TimeIsUp o m s =
      (m.get_fails ≡ false)
      × ((redis.get (task_invoke_time_key o) s ≡ none)
          ⊎ ((text : String) × (v : ℤ) × (redis.get (task_invoke_time_key o) s ≡ some text)
              × (num.parse text ≡ some v)
              × IsUp m.now v))

  abbrev pub IsReady : TaskOption → Moment L E → S → Type 0
  IsReady o m s =
      (m.is_done ≡ false)
      × (bool_value m.is_running ≡ true)
      × InRange o.invoke_time_range m.hhmm
      × TimeIsUp o m s

  up_read :
      (o : TaskOption) (m : Moment L E) (s : S)
      → TimeIsUp o m s
      → reply_is_up m.now (get_next_time num redis o m.get_fails s) ≡ true
  unfolding get_next_time reply_is_up is_up is_zero ℤ-discrete b_go_util.Base.ℕ_discrete
  up_read o m s (f, inl k) = rw (get_next_time, f, k) refl
  up_read o m s (f, inr (text, v, k, p, t)) = rw (get_next_time, f, k, p) ((IsUp-iff m.now v).1 t)

  read_up :
      (o : TaskOption) (m : Moment L E) (s : S)
      → reply_is_up m.now (get_next_time num redis o m.get_fails s) ≡ true
      → TimeIsUp o m s
  unfolding get_next_time reply_is_up
  read_up o m s h = elim (Bool-cases m.get_fails) [
    | inl f ↦ absurd (ground (arith, f, h))
    | inr f ↦ elim (Option-cases (redis.get (task_invoke_time_key o) s)) [
      | inl k ↦ (f, inl k)
      | inr (text, k) ↦ elim (Option-cases (num.parse text)) [
        | inl p ↦ absurd (ground (arith, f, k, p, h))
        | inr (v, p) ↦ (f, inr (text, v, k, p, (IsUp-iff m.now v).0 (ground (arith, f, k, p, h))))
      ]
    ]
  ]

  due-IsReady : (o : TaskOption) (m : Moment L E) (s : S) → is_due o m s ≡ true → IsReady o m s
  unfolding is_false bool_value
  due-IsReady o m s h = (
    ground arith,
    ground arith,
    (InRange-iff o m.hhmm o.invoke_time_range refl).0 (ground arith),
    read_up o m s (ground arith),
  )

  ready_due : (o : TaskOption) (m : Moment L E) (s : S) → IsReady o m s → is_due o m s ≡ true
  unfolding is_false bool_value
  ready_due o m s (d, r, t, u) =
      ground (arith, (InRange-iff o m.hhmm o.invoke_time_range refl).1 t, up_read o m s u)

  -- A run of a task at a moment.
  abbrev pub RunsOnce : TaskOption → (S → S × Bool) → Moment L E → S → Type 0
  RunsOnce o task m s =
      (IsReady o m s
        × (o.disable_task_lock ≡ true)
        × (run_once num redis o task m s ≡ ((task s).0, runs (task s).1 ∷ [])))
      ⊎ ((IsReady o m s
            × (o.disable_task_lock ≡ false)
            × ((lock : L) × (m.obtain ≡ got lock)
                × (run_once num redis o task m s
                    ≡ ((task s).0, obtains lock ∷ runs (task s).1 ∷ releases lock ∷ []))))
          ⊎ (((IsReady o m s → ⊥)
                ⊎ ((o.disable_task_lock ≡ false) × ((lock : L) → m.obtain ≢ got lock)))
              × (run_once num redis o task m s ≡ (s, []))))

  locked_cases :
      (o : TaskOption) (task : S → S × Bool) (m : Moment L E) (s : S) (out : Outcome L E)
      → is_due o m s ≡ true
      → o.disable_task_lock ≡ false
      → m.obtain ≡ out
      → RunsOnce o task m s
  unfolding obtain_for obtain_lock new_locker run_locked
  locked_cases o task m s (got lock) h d e =
      inr (
        inl (due-IsReady o m s h, d, (lock, e, due_runs o task m s h ∙ rw (obtain_for, d, e) refl)))
  locked_cases o task m s not_obtained h d e =
      inr (inr (inr (d, λ l q. cc), due_runs o task m s h ∙ rw (obtain_for, d, e) refl))
  locked_cases o task m s (failed err) h d e =
      inr (inr (inr (d, λ l q. cc), due_runs o task m s h ∙ rw (obtain_for, d, e) refl))

  unlocked_case :
      (o : TaskOption) (task : S → S × Bool) (m : Moment L E) (s : S)
      → is_due o m s ≡ true
      → o.disable_task_lock ≡ true
      → RunsOnce o task m s
  unfolding obtain_for run_locked
  unlocked_case o task m s h d =
      inl (due-IsReady o m s h, d, due_runs o task m s h ∙ rw (obtain_for, d) refl)

  -- A run of a task is ready if the context is not done, the scheduler runs, the time of day is in the
  -- task's range, and GET succeeds and finds no time, the zero time or one that has come. Where it is
  -- ready and locks are disabled, the task runs, once; where they are not and Obtain returns a lock, the task
  -- runs, once, with the lock, which is released after it, whether it fails or not; in all other cases, an
  -- error of GET or Obtain included, nothing is done and the store is as it was.
  pub task_runs_locked :
      (o : TaskOption) (task : S → S × Bool) (m : Moment L E) (s : S) → RunsOnce o task m s
  task_runs_locked o task m s = elim (Bool-cases (is_due o m s)) [
    | inl h ↦ elim (Bool-cases o.disable_task_lock) [
      | inl d ↦ unlocked_case o task m s h d
      | inr d ↦ locked_cases o task m s m.obtain h d refl
    ]
    | inr h ↦ inr (inr (inl (λ r. cc (h, ready_due o m s r)), not_due_rests o task m s h))
  ]

-- The time without the fraction of its second.
abbrev pub whole : Time → Time
whole tm = record { seconds = tm.seconds; nanos = 0 }

module _ {S : Type 0} (num : Numbers) (redis : Commands String S num) where
  time_read :
      (o : TaskOption) (tm : Time) (s : S)
      → IsInt64 tm.seconds
      → get_next_time num redis o false (set_next_time num redis o tm s) ≡ time_is (whole tm)
  unfolding get_next_time set_next_time is_zero
  time_read o tm s i = elim (Bool-cases (is_zero tm)) [
    | inl z ↦ ground (arith, z, redis.get_del (task_invoke_time_key o) s)
    | inr z ↦ ground (
      arith,
      z,
      num.parse_format tm.seconds i,
      redis.get_set (task_invoke_time_key o) (num.format tm.seconds) s,
    )
  ]

module _ {S L E : Type 0} (num : Numbers) (redis : Commands String S num) where
  early_not_due :
      (o : TaskOption) (tm : Time) (m : Moment L E) (s : S)
      → IsInt64 tm.seconds
      → is_zero (whole tm) ≡ false
      → ltb_ℤ m.now.seconds tm.seconds ≡ true
      → m.get_fails ≡ false
      → is_due num redis o m (set_next_time num redis o tm s) ≡ false
  unfolding reply_is_up is_up has_come
  early_not_due o tm m s i z l f = rw (f, time_read num redis o tm s i) (ground arith)

  failed_not_due :
      (o : TaskOption) (m : Moment L E) (s : S)
      → m.get_fails ≡ true
      → is_due num redis o m s ≡ false
  unfolding get_next_time reply_is_up
  failed_not_due o m s f = ground (arith, f)

  -- After SetTaskNextInvokeTime, of a time whose seconds since 1970 are an int64, GetTaskNextInvokeTime
  -- returns that time cut to whole seconds, the zero time included; and if the cut time is not the zero time,
  -- the task does not run in any second before it. (In the second of the time it may run, though its fraction
  -- has not come.)
  pub next_time_kept :
      (o : TaskOption) (tm : Time) (s : S) (task : S → S × Bool) (m : Moment L E)
      → IsInt64 tm.seconds
      → (get_next_time num redis o false (set_next_time num redis o tm s) ≡ time_is (whole tm))
        × (is_zero (whole tm) ≡ false
            → ltb_ℤ m.now.seconds tm.seconds ≡ true
            → run_once num redis o task m (set_next_time num redis o tm s)
              ≡ (set_next_time num redis o tm s, []))
  next_time_kept o tm s task m i = (time_read num redis o tm s i, λ z l. early o tm s task m i z l)
    where
      early :
          (o : TaskOption) (tm : Time) (s : S) (task : S → S × Bool) (m : Moment L E)
          → IsInt64 tm.seconds
          → is_zero (whole tm) ≡ false
          → ltb_ℤ m.now.seconds tm.seconds ≡ true
          → run_once num redis o task m (set_next_time num redis o tm s)
            ≡ (set_next_time num redis o tm s, [])
      early o tm s task m i z l = elim (Bool-cases m.get_fails) [
        | inl f ↦ not_due_rests num redis o task m _ (failed_not_due o m _ f)
        | inr f ↦ not_due_rests num redis o task m _ (early_not_due o tm m s i z l f)
      ]
