-- ===== src/Timer.antt =====
-- async/timer.go: a time wheel. The task objects live in `heap`, and a `*timerExecutorTask` is an
-- index into it, since the map of tasks and the buckets share them. `run` serves one event at a
-- time: a tick, a task or a key that comes through its channel, or the close. Durations are
-- counted in the source's nanoseconds; an int is one of 64 bits. `none` is a panic.
pub mod Wiring
pub mod Frame
pub mod Sweep
pub mod Due
pub mod Pending
pub mod Put
pub mod Position
pub mod Del
pub mod Run
pub mod Started
pub mod Firing
pub mod Reached
mod Tests
use b_go_util.Base.{
  ℕ, suc, ◌+◌, ◌-◌, ◌*◌, ◌/◌, ◌%◌, ◌^◌, ◌==◌, ltb, Bool, true, false, Option, none, some, List, [],
  ◌∷◌, ◌++◌, map, if◌then◌else◌, length, get_elem?, get_or, set, replicate, get, put, delete,
}

-- timerExecutorTask
pub record Task (K V : Type 0) : Type 0 where
  pub delay : ℕ
  pub key : K
  pub value : V
  pub bucket_idx : ℕ
  pub round : ℕ
  pub removed : Bool
  pub cyclic : Bool

pub record Timer (K V : Type 0) : Type 0 where
  pub heap : List (Task K V)
  pub tasks : List (K × ℕ)
  pub buckets : List (List (K × ℕ))
  pub buckets_num : ℕ
  pub current_bucket_idx : ℕ
  pub period : ℕ
  pub has_closed_handler : Bool
  pub close_done : Bool
  pub run_done : Bool

-- (steps + e.currentBucketIdx) % e.bucketsNum: the sum of two ints wraps, and of a negative sum the
-- remainder is negative or 0. `none` is a negative one, at which e.buckets panics.
unfoldable pub bucket_index : ℕ → ℕ → ℕ → Option ℕ
bucket_index steps current n =
    let sum = (steps + current) % 2 ^ 64 in
    if ltb sum (2 ^ 63) then some (sum % n) else if (2 ^ 64 - sum) % n == 0 then some 0 else none

module _ {K V : Type 0} where
  -- The map of each bucket is empty.
  unfoldable pub new_timer : ℕ → ℕ → Option (Timer K V)
  new_timer period buckets_num =
      if ltb 0 period
      then (if ltb 0 buckets_num
          then some (record {
            heap = [];
            tasks = [];
            buckets = replicate buckets_num [];
            buckets_num = buckets_num;
            current_bucket_idx = 0;
            period = period;
            has_closed_handler = false;
            close_done = false;
            run_done = false;
          })
          else none)
      else none

  unfoldable pub with_on_closed_handler : Timer K V → Timer K V
  with_on_closed_handler e = record e { has_closed_handler = true }

  -- e.buckets[i]; an index out of range, where Go panics, is never used (`Wiring`).
  unfoldable pub bucket : Timer K V → ℕ → List (K × ℕ)
  bucket e i = get_or e.buckets i []

  -- task.removed = true, task.round--
  pub set_removed : List (Task K V) → ℕ → List (Task K V)
  set_removed heap p = elim (get_elem? heap p) [
    | none ↦ heap
    | some task ↦ set heap p (record task { removed = true })
  ]

  pub reset_task_position : Timer K V → Task K V → Option (Task K V)
  unfolding bucket_index
  reset_task_position e task =
      let steps = task.delay / e.period in
      elim (bucket_index steps e.current_bucket_idx e.buckets_num) [
        | none ↦ none
        | some i ↦ some (record task { bucket_idx = i; round = steps / e.buckets_num })
      ]

module _ {K V : Type 0} (dec : Discrete K) where
  pub del_task : Timer K V → Task K V → Timer K V
  unfolding bucket
  del_task e task = record e {
    tasks = delete dec task.key e.tasks;
    buckets = set e.buckets task.bucket_idx (delete dec task.key (bucket e task.bucket_idx));
  }

  -- A new object, so the pointer is the next index.
  pub put_task : Timer K V → Task K V → Option (Timer K V)
  unfolding bucket reset_task_position
  put_task e task =
      let p = length e.heap in
      elim (reset_task_position e task) [
        | none ↦ none
        | some task' ↦ some (record e {
          heap = e.heap ++ task' ∷ [];
          tasks = put dec task.key p e.tasks;
          buckets = set e.buckets task'.bucket_idx (put dec task.key p (bucket e task'.bucket_idx));
        })
      ]

  -- The `case key := <-e.delCh` of `run`.
  pub on_del : Timer K V → K → Timer K V
  unfolding set_removed
  on_del e key = elim (get dec key e.tasks) [
    | none ↦ e
    | some p ↦ record e { heap = set_removed e.heap p }
  ]

  -- Marks the task that the key has, then puts the new one in its place.
  pub on_put : Timer K V → Task K V → Option (Timer K V)
  unfolding on_del put_task
  on_put e task = put_task (on_del e task.key) task

  -- One round of the loop of `onTick`: the object at `p`, and the tasks to run so far.
  pub tick_task : ℕ → Timer K V × List ℕ → Timer K V × List ℕ
  unfolding del_task
  tick_task p (e, tasks) = elim (get_elem? e.heap p) [
    | none ↦ (e, tasks)
    | some task ↦
        if task.removed
        then (del_task e task, tasks)
        else if ltb 0 task.round
        then (record e { heap = set e.heap p (record task { round = task.round - 1 }) }, tasks)
        else (del_task e task, tasks ++ p ∷ [])
  ]

  -- `range bucket`: the loop deletes no entry but the one that it visits.
  pub tick_loop : List (K × ℕ) → Timer K V × List ℕ → Timer K V × List ℕ
  unfolding tick_task
  tick_loop [] s = s
  tick_loop ((k, p) ∷ rest) s = tick_loop rest (tick_task p s)

  -- The deferred step to the next bucket.
  pub advance : Timer K V → Timer K V
  advance e = record e {
    current_bucket_idx =
        if e.current_bucket_idx + 1 == e.buckets_num then 0 else e.current_bucket_idx + 1;
  }

  -- The state, and the pointers of the tasks that are handed to `runTasks`.
  pub on_tick : Timer K V → Timer K V × List ℕ
  unfolding tick_loop bucket advance
  on_tick e =
      let bucket' = bucket e e.current_bucket_idx in
      if length bucket' == 0
      then (advance e, [])
      else (let (e', tasks) = tick_loop bucket' (e, []) in (advance e', tasks))
