-- ===== src/Jobs/Setup.antt =====
-- The tasks of a scheduler of rdb/scheduler/scheduler.go and their options.
use Prim.Native.String.{String}
use mathlib.Core.Path.{subst}
use b_go_util.Base.{
  Bool, true, false, not, ◌||◌, ◌≡◌, refl, arith, Option, none, some, is_some, List, [], ◌∷◌,
  if◌then◌else◌, get, put, if_pos, if_neg, String-discrete, Bool-cases, inl, inr,
}
use b_go_util.Atomic.{AtomicBool, cas_bool, is_false}
use b_go_util.Jobs.{TaskOption, SchedulerOption, normalize}
use b_go_util.Jobs.Lifecycle.{
  Scheduler, new_scheduler, must_add_task, started_tasks, start_tasks, start, stop,
}

-- What is done to a scheduler; a call that panics leaves it as it was.
pub data Call (T : Type 0) : Type 0 where
  adds : String → Option T → Call T
  starts stops : Call T

module _ {T : Type 0} (is_blank : String → Bool) where
  unfoldable pub or_same : Scheduler T → Option (Scheduler T) → Scheduler T
  or_same s none = s
  or_same s (some s') = s'

  unfoldable pub call : Scheduler T → Call T → Scheduler T
  unfolding or_same must_add_task start stop
  call s (adds name task) = or_same s (must_add_task is_blank s name task)
  call s starts = elim (start s) [ none ↦ s | some r ↦ r.0 ]
  call s stops = stop s

  unfoldable pub calls : Scheduler T → List (Call T) → Scheduler T
  calls s [] = s
  calls s (c ∷ cs) = calls (call s c) cs

module _ {T : Type 0} where
  -- Each task has an option that does not disable it.
  abbrev pub AreEnabled : List (String × TaskOption) → List (String × T) → Type 0
  AreEnabled options [] = Unit
  AreEnabled options ((name, task) ∷ rest) =
      ((o : TaskOption) × (get String-discrete name options ≡ some o) × (o.disabled ≡ false))
      × AreEnabled options rest

  put-AreEnabled :
      (options : List (String × TaskOption)) (name : String) (task : T) (o : TaskOption)
      (tasks : List (String × T))
      → get String-discrete name options ≡ some o
      → o.disabled ≡ false
      → AreEnabled options tasks
      → AreEnabled options (put String-discrete name task tasks)
  unfolding put
  put-AreEnabled options name task o [] h d i = ((o, h, d), tt)
  put-AreEnabled options name task o ((n, t) ∷ rest) h d i = elim (String-discrete name n) [
    | yes e ↦ rw (put, if_pos (String-discrete name n) e) i
    | no e ↦
        rw (put, if_neg (String-discrete name n) e)
          (i.0, put-AreEnabled options name task o rest h d i.1)
  ]

  started_all :
      (options : List (String × TaskOption)) (tasks : List (String × T))
      → AreEnabled options tasks
      → is_some (started_tasks options tasks) ≡ true
  unfolding started_tasks
  started_all options [] i = refl
  started_all options ((name, task) ∷ rest) ((o, h, d), i) =
      ground (arith, h, started_all options rest i)

  abbrev pub NoneDisabled : List (TaskOption × T) → Type 0
  NoneDisabled [] = Unit
  NoneDisabled ((o, task) ∷ rest) = (o.disabled ≡ false) × NoneDisabled rest

  -- What Start runs, if it does not panic.
  abbrev AllFine : Option (List (TaskOption × T)) → Type 0
  AllFine none = ⊥
  AllFine (some ts) = NoneDisabled ts

  started-AllFine :
      (options : List (String × TaskOption)) (tasks : List (String × T))
      → AreEnabled options tasks
      → AllFine (started_tasks options tasks)
  unfolding started_tasks
  started-AllFine options [] i = tt
  started-AllFine options ((name, task) ∷ rest) ((o, h, d), i) =
      rw (started_tasks, h) (more o d (started_tasks options rest) (started-AllFine options rest i))
    where
      more :
          (o : TaskOption)
          → o.disabled ≡ false
          → (tail : Option (List (TaskOption × T))) → AllFine tail
          → AllFine (elim tail [ none ↦ none | some ts ↦ some ((o, task) ∷ ts) ])
      more o d none f = f
      more o d (some ts) f = (d, f)

  -- Every task of the scheduler has an option.
  abbrev IsSetUp : Scheduler T → Type 0
  IsSetUp s = AreEnabled s.option.tasks s.tasks

  -- Start does not panic, keeps the tasks, and runs none that is disabled.
  abbrev Starts : Scheduler T → Option (Scheduler T × List (TaskOption × T)) → Type 0
  Starts s none = ⊥
  Starts s (some r) = IsSetUp r.0 × NoneDisabled r.1

  run_all :
      (s : Scheduler T) (flag : AtomicBool) (tasks : List (String × T))
      (o : Option (List (TaskOption × T)))
      → IsSetUp s
      → AllFine o
      → Starts s (elim o [
        | none ↦ none
        | some started ↦ some (record s { is_running = flag; has_client = true }, started)
      ])
  run_all s flag tasks none i f = f
  run_all s flag tasks (some ts) i f = (i, f)

  start_tasks-Starts :
      (s : Scheduler T) (flag : AtomicBool) (tasks : List (String × T))
      → IsSetUp s
      → AreEnabled s.option.tasks tasks
      → Starts s (start_tasks s flag tasks)
  unfolding start_tasks
  start_tasks-Starts s flag [] i e = (i, tt)
  start_tasks-Starts s flag (t ∷ ts) i e =
      run_all s flag (t ∷ ts) _ i (started-AllFine s.option.tasks (t ∷ ts) e)

  start-Starts : (s : Scheduler T) → IsSetUp s → Starts s (start s)
  unfolding start
  start-Starts s i = elim (Bool-cases (cas_bool s.is_running false).1) [
    | inr h ↦ rw (start, h) (i, tt)
    | inl h ↦ rw (start, h) (start_tasks-Starts s (cas_bool s.is_running false).0 s.tasks i i)
  ]

  stop-IsSetUp : (s : Scheduler T) → IsSetUp s → IsSetUp (stop s)
  unfolding stop
  stop-IsSetUp s i = elim (Bool-cases (cas_bool s.is_running true).1) [
    | inr h ↦ rw (stop, h) i
    | inl h ↦ rw (stop, h) i
  ]

  -- What MustAddTask leaves, if it does not panic.
  abbrev KeepsSetUp : Option (Scheduler T) → Type 0
  KeepsSetUp none = Unit
  KeepsSetUp (some s) = IsSetUp s

  module _ (is_blank : String → Bool) where
    opened :
        (s : Scheduler T) (name : String) (task : T) (opt : Option TaskOption)
        → IsSetUp s
        → get String-discrete name s.option.tasks ≡ opt
        → KeepsSetUp (elim opt [
          | none ↦ none
          | some o ↦
              if o.disabled
              then some s
              else if is_some (get String-discrete name s.tasks)
              then none
              else some (record s { tasks = put String-discrete name task s.tasks })
        ])
    opened s name task none i h = tt
    opened s name task (some o) i h = elim (Bool-cases o.disabled) [
      | inl d ↦ rw d i
      | inr d ↦ elim (Bool-cases (is_some (get String-discrete name s.tasks))) [
        | inl old ↦ rw (d, old) tt
        | inr new ↦ rw (d, new) (put-AreEnabled s.option.tasks name task o s.tasks h d i)
      ]
    ]

    must_add_task-KeepsSetUp :
        (s : Scheduler T) (name : String) (task : Option T)
        → IsSetUp s
        → KeepsSetUp (must_add_task is_blank s name task)
    unfolding must_add_task
    must_add_task-KeepsSetUp s name none i = tt
    must_add_task-KeepsSetUp s name (some task) i =
        elim (Bool-cases (not (is_false s.is_running) || is_blank name)) [
          | inl h ↦ rw (must_add_task, h) tt
          | inr h ↦
              rw (must_add_task, h)
                (opened s name task (get String-discrete name s.option.tasks) i refl)
        ]

    or_same-IsSetUp :
        (s : Scheduler T) (o : Option (Scheduler T))
        → IsSetUp s
        → KeepsSetUp o
        → IsSetUp (or_same is_blank s o)
    unfolding or_same
    or_same-IsSetUp s none i k = i
    or_same-IsSetUp s (some s') i k = k

    started-IsSetUp :
        (s : Scheduler T) (o : Option (Scheduler T × List (TaskOption × T)))
        → Starts s o
        → IsSetUp (elim o [ none ↦ s | some r ↦ r.0 ])
    started-IsSetUp s none f = absurd f
    started-IsSetUp s (some r) f = f.0

    call-IsSetUp : (s : Scheduler T) (c : Call T) → IsSetUp s → IsSetUp (call is_blank s c)
    unfolding call
    call-IsSetUp s (adds name task) i =
        or_same-IsSetUp s (must_add_task is_blank s name task) i
          (must_add_task-KeepsSetUp s name task i)
    call-IsSetUp s starts i = started-IsSetUp s (start s) (start-Starts s i)
    call-IsSetUp s stops i = stop-IsSetUp s i

    calls-IsSetUp :
        (s : Scheduler T) (cs : List (Call T)) → IsSetUp s → IsSetUp (calls is_blank s cs)
    unfolding calls
    calls-IsSetUp s [] i = i
    calls-IsSetUp s (c ∷ cs) i = calls-IsSetUp (call is_blank s c) cs (call-IsSetUp s c i)

    new_scheduler-KeepsSetUp :
        (o : SchedulerOption) (n : Option SchedulerOption) (r : Option (Scheduler T))
        → normalize is_blank o ≡ n
        → new_scheduler is_blank o ≡ r
        → KeepsSetUp r
    unfolding new_scheduler
    new_scheduler-KeepsSetUp o none r h e = subst KeepsSetUp e (rw (new_scheduler, h) tt)
    new_scheduler-KeepsSetUp o (some o') r h e = subst KeepsSetUp e (rw (new_scheduler, h) tt)

    unwrapped :
        (s : Scheduler T) (o : Option (Scheduler T × List (TaskOption × T)))
        → Starts s o
        → (r : Scheduler T × List (TaskOption × T)) × (o ≡ some r) × NoneDisabled r.1
    unwrapped s none f = absurd f
    unwrapped s (some r) f = (r, refl, f.1)

    -- After any calls of MustAddTask, Start and Stop on a new scheduler, those that panic included, a
    -- Start does not panic, since every task has an option, and it runs no task that is disabled.
    pub start_runs_enabled :
        (o : SchedulerOption) (s : Scheduler T) (cs : List (Call T))
        → new_scheduler is_blank o ≡ some s
        → (r : Scheduler T × List (TaskOption × T)) × (start (calls is_blank s cs) ≡ some r)
          × NoneDisabled r.1
    start_runs_enabled o s cs made =
        let set_up : IsSetUp s =
          new_scheduler-KeepsSetUp o (normalize is_blank o) (some s) refl made in
        unwrapped (calls is_blank s cs) _
          (start-Starts (calls is_blank s cs) (calls-IsSetUp s cs set_up))
