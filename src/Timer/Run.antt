-- ===== src/Timer/Run.antt =====
-- `PutTask`, `Del`, `Close`, `runTasks`, `onClosed` and the loop of `run` in async/timer.go. The
-- loop serves one event after another, until the close; which of the ready events its `select`
-- takes, and when `runTasks` gets on, is the order of the list.
use b_go_util.Base.{
  ℕ, ltb, Bool, true, false, Option, none, some, List, [], ◌∷◌, ◌++◌, if◌then◌else◌, get_elem?,
}
use b_go_util.Timer.{Task, Timer, on_tick, on_put, on_del}

-- What the executor does to the outside: a call of the handler or of the closed handler, and the
-- request to put a cyclic task again.
pub data Action (K V : Type 0) : Type 0 where
  handle closed_handle : K → V → Action K V
  put_again : ℕ → K → V → Action K V

-- What the loop receives: a tick, a task or a key through its channel, or the close.
pub data Event (K V : Type 0) : Type 0 where
  tick : Event K V
  put : Task K V → Event K V
  del : K → Event K V
  close : Event K V

module _ {K V : Type 0} where
  -- The object that `PutTask` sends; `none` is the failed assertion on the delay.
  unfoldable pub new_task : ℕ → K → V → Bool → Option (Task K V)
  new_task delay key value cyclic =
      if ltb 0 delay
      then some (record {
        delay = delay;
        key = key;
        value = value;
        bucket_idx = 0;
        round = 0;
        removed = false;
        cyclic = cyclic;
      })
      else none

  -- For each task, its handler and then, if it is cyclic, `PutTask` again.
  unfoldable pub run_tasks : List (Task K V) → List ℕ → List (Action K V)
  run_tasks heap [] = []
  run_tasks heap (p ∷ ps) =
      let rest = run_tasks heap ps in
      elim (get_elem? heap p) [
        | none ↦ rest
        | some task ↦
            handle task.key task.value
            ∷ (if task.cyclic then put_again task.delay task.key task.value ∷ rest else rest)
      ]

  -- The closed handler on every task of the map.
  close_tasks : List (Task K V) → List (K × ℕ) → List (Action K V)
  close_tasks heap [] = []
  close_tasks heap ((key, p) ∷ tasks) =
      let rest = close_tasks heap tasks in
      elim (get_elem? heap p) [ none ↦ rest | some tm ↦ closed_handle key tm.value ∷ rest ]

  unfoldable pub on_closed : Timer K V → Timer K V × List (Action K V)
  unfolding close_tasks
  on_closed e = (
    record e { close_done = true; run_done = true },
    if e.has_closed_handler then close_tasks e.heap e.tasks else [],
  )

-- What the rounds of the loop did: the tasks that were handed to `runTasks`, by pointer and in
-- order, the calls of the closed handler, and whether a put has panicked, which ends the program.
pub record Outcome (K V : Type 0) : Type 0 where
  pub state : Timer K V
  pub started : List ℕ
  pub calls : List (Action K V)
  pub panicked : Bool

module _ {K V : Type 0} (dec : Discrete K) where
  -- The loop, up to a panic, whose state is the one before it: it returns after the close, and what comes later is not received.
  unfoldable pub run : Timer K V → List (Event K V) → Outcome K V
  run e [] = record { state = e; started = []; calls = []; panicked = false }
  run e (tick ∷ evs) =
      let (e', tasks) = on_tick dec e in
      let rest = run e' evs in
      record {
        state = rest.state;
        started = tasks ++ rest.started;
        calls = rest.calls;
        panicked = rest.panicked;
      }
  run e (put task ∷ evs) = elim (on_put dec e task) [
    | none ↦ record { state = e; started = []; calls = []; panicked = true }
    | some e' ↦ run e' evs
  ]
  run e (del key ∷ evs) = run (on_del dec e key) evs
  run e (close ∷ evs) =
      let (e', calls) = on_closed e in
      record { state = e'; started = []; calls = calls; panicked = false }
