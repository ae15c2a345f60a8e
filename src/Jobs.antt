-- ===== src/Jobs.antt =====
-- rdb/scheduler/option.go, context.go and scheduler.go: tasks that run at intervals, on one of several
-- machines at a time. Redis is a store with the commands of Scripts; a command that fails does so by an
-- argument. A time is its seconds since 1970 and the nanoseconds after them. `is_blank` is
-- whether strings.TrimSpace of a string is empty. `none` is a panic. Logging is left out.
pub mod Runs
pub mod Lifecycle
pub mod Setup
mod Tests
use Prim.Native.String.{String, ◌++◌}
use b_go_util.Base.{
  ℕ, ℤ, Time, unix, from_unix, pos, negsuc, leb_ℤ, ltb_ℤ, ℤ-discrete, same, leb, ◌==◌, Bool, true,
  false, not, ◌&&◌, ◌||◌, Option, none, some, is_some, List, [], ◌∷◌, if◌then◌else◌, get, put,
  String-discrete,
}
use b_go_util.Atomic.{AtomicBool, new_bool, cas_bool, bool_value, is_false}
use b_go_util.Scripts.{Numbers, Commands}
use b_go_util.Locker.{Outcome, got, not_obtained, failed, Locker, new_locker, obtain_lock}

pub record TaskOption : Type 0 where
  pub name : String
  pub key_prefix : String
  pub disabled : Bool
  pub disable_task_lock : Bool
  pub task_lock_ttl : ℤ
  pub invoke_internal : ℤ
  pub invoke_time_range : List ℤ

unfoldable pub task_lock_key : TaskOption → String
task_lock_key o = o.key_prefix ++ ":lock:" ++ o.name

unfoldable pub task_invoke_time_key : TaskOption → String
task_invoke_time_key o = o.key_prefix ++ ":invoke:" ++ o.name

-- n == 0 || n == 2 && o.InvokeTimeRange[0] <= o.InvokeTimeRange[1]
abbrev pub range_ok : List ℤ → Bool
range_ok [] = true
range_ok (low ∷ []) = false
range_ok (low ∷ high ∷ []) = leb_ℤ low high
range_ok (low ∷ high ∷ more ∷ rest) = false

abbrev or_default : ℤ → ℤ → ℤ
or_default d default_value = if leb_ℤ d (pos 0) then default_value else d

unfoldable pub normalize_task : (String → Bool) → TaskOption → Option TaskOption
normalize_task is_blank o =
    if is_blank o.name || is_blank o.key_prefix || not (range_ok o.invoke_time_range)
    then none
    else some (record o {
      task_lock_ttl = or_default o.task_lock_ttl (pos 10000000000);
      invoke_internal = or_default o.invoke_internal (pos 60000000000);
    })

pub record SchedulerOption : Type 0 where
  pub has_redis : Bool
  pub tasks : List (String × TaskOption)
  pub task_key_prefix : String

-- for name, to := range o.Tasks { … to.MustNormalize() }
unfoldable pub normalize_tasks :
    (String → Bool) → String → List (String × TaskOption) → Option (List (String × TaskOption))
normalize_tasks is_blank prefix [] = some []
normalize_tasks is_blank prefix ((name, o) ∷ rest) =
    let tail = normalize_tasks is_blank prefix rest in
    elim (normalize_task is_blank (record o { name = name; key_prefix = prefix })) [
      | none ↦ none
      | some o' ↦ elim tail [ none ↦ none | some os ↦ some ((name, o') ∷ os) ]
    ]

abbrev or_prefix : Bool → String → String
or_prefix blank prefix = if blank then "task:" else prefix

unfoldable pub normalize : (String → Bool) → SchedulerOption → Option SchedulerOption
unfolding normalize_tasks
normalize is_blank o =
    let prefix = or_prefix (is_blank o.task_key_prefix) o.task_key_prefix in
    if not o.has_redis then none else normalized prefix o.tasks
  where
    normalized : String → List (String × TaskOption) → Option SchedulerOption
    normalized prefix [] = none
    normalized prefix (t ∷ ts) = elim (normalize_tasks is_blank prefix (t ∷ ts)) [
      | none ↦ none
      | some os ↦ some (record o { tasks = os; task_key_prefix = prefix })
    ]

-- time.Time{}
abbrev pub zero_time : Time
zero_time = record { seconds = negsuc 62135596799; nanos = 0 }

-- tm.IsZero()
unfoldable pub is_zero : Time → Bool
is_zero tm = same ℤ-discrete tm.seconds (negsuc 62135596799) && tm.nanos == 0

-- now.Sub(v) >= 0
unfoldable pub has_come : Time → Time → Bool
has_come now v =
    ltb_ℤ v.seconds now.seconds || (same ℤ-discrete v.seconds now.seconds && leb v.nanos now.nanos)

-- What a command returns for a value: the error of redis, or the value, none for redis.Nil.
pub data TimeReply : Type 0 where
  time_is : Time → TimeReply
  time_failed : TimeReply

module _ {S : Type 0} (num : Numbers) (redis : Commands String S num) where
  abbrev read_time : Option ℤ → TimeReply
  read_time none = time_failed
  read_time (some v) = time_is (from_unix v)

  -- Of a key that is there, Int64() fails where it holds no number.
  unfoldable pub get_next_time : TaskOption → Bool → S → TimeReply
  unfolding task_invoke_time_key
  get_next_time o fails s =
      if fails then time_failed else (elim (redis.get (task_invoke_time_key o) s) [
        | none ↦ time_is zero_time
        | some text ↦ read_time (num.parse text)
      ])

  unfoldable pub set_next_time : TaskOption → Time → S → S
  unfolding task_invoke_time_key is_zero
  set_next_time o tm s =
      if is_zero tm
      then redis.del (task_invoke_time_key o) s
      else redis.set (task_invoke_time_key o) (num.format (unix tm)) s

-- isInInvokeTimeRange, at a time of the day as the number HHMM. MustNormalize lets no range of one number
-- pass.
unfoldable pub is_in_range : TaskOption → ℤ → Bool
is_in_range o now = within o.invoke_time_range
  where
    within : List ℤ → Bool
    within [] = true
    within (low ∷ []) = false
    within (low ∷ high ∷ rest) = leb_ℤ low now && leb_ℤ now high

-- v.IsZero() || time.Since(v) >= 0
unfoldable pub is_up : Time → Time → Bool
unfolding is_zero has_come
is_up now v = is_zero v || has_come now v

-- isTaskNextInvokeTimeUp, without an error.
unfoldable pub reply_is_up : Time → TimeReply → Bool
unfolding is_up
reply_is_up now time_failed = false
reply_is_up now (time_is v) = is_up now v

-- What a run of the task meets: whether the context is done, the flag of the scheduler, the clock as HHMM
-- and as a time, whether GET fails, and what Obtain returns.
pub record Moment (L E : Type 0) : Type 0 where
  pub is_done : Bool
  pub is_running : AtomicBool
  pub hhmm : ℤ
  pub now : Time
  pub get_fails : Bool
  pub obtain : Outcome L E

-- What runTask does in a run: the task is run with an error or not, a lock is obtained or released.
pub data Act (L : Type 0) : Type 0 where
  obtains : L → Act L
  runs : Bool → Act L
  releases : L → Act L

-- The task with what it does to the store, and the deferred release of the lock.
unfoldable pub run_locked :
    {S L : Type 0} → (S → S × Bool) → S → Option (Option L) → S × List (Act L)
run_locked task s none = (s, [])
run_locked task s (some none) = let (s', err) = task s in (s', runs err ∷ [])
run_locked task s (some (some lock)) =
    let (s', err) = task s in (s', obtains lock ∷ runs err ∷ releases lock ∷ [])

module _ {S L E : Type 0} (num : Numbers) (redis : Commands String S num) where
  -- obtainLock: none for an error, some none where locks are disabled. The locker has no retries.
  unfoldable pub obtain_for : TaskOption → Outcome L E → Option (Option L)
  unfolding new_locker obtain_lock
  obtain_for o single =
      if o.disable_task_lock
      then some none
      else obtained (obtain_lock new_locker o.task_lock_ttl single [])
    where
      obtained : Option (Locker × (Outcome L E × Bool)) → Option (Option L)
      obtained none = none
      obtained (some (l, (got lock, b))) = some (some lock)
      obtained (some (l, (not_obtained, b))) = none
      obtained (some (l, (failed e, b))) = none

  -- The function that RunCancelableInterval is given.
  unfoldable pub run_once : TaskOption → (S → S × Bool) → Moment L E → S → S × List (Act L)
  unfolding is_in_range reply_is_up get_next_time obtain_for run_locked
  run_once o task m s =
      if m.is_done || is_false m.is_running
      then (s, [])
      else if not (is_in_range o m.hhmm)
      then (s, [])
      else if not (reply_is_up m.now (get_next_time num redis o m.get_fails s))
      then (s, [])
      else run_locked task s (obtain_for o m.obtain)
