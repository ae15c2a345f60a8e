-- ===== src/Ticker/Executor.antt =====
-- TickerExecutor of async/ticker.go. Every method holds the lock, so it is one step; the channel of
-- the ticker, the time and the callers give the order of the steps.
use b_go_util.Base.{
  ℕ, ℤ, Bool, true, false, not, Option, none, some, List, [], ◌∷◌, ◌++◌, if◌then◌else◌, length,
}
use b_go_util.Ticker.{
  Ticker, TickerOption, must_normalize, new_ticker, close_ticker, handle_tick_event, reset_count,
  incr_count,
}

pub record TickerExecutor {ℓ} (A : Type ℓ) : Type ℓ where
  pub ticker : Ticker
  pub is_closed : Bool
  pub tasks : List A

-- What happens to an executor.
pub data Event {ℓ} (A : Type ℓ) : Type ℓ where
  add : ℤ → List A → ℤ → Event A  -- Add, at a time
  invoke_now : Event A
  close : Event A
  time_event : ℤ → Event A  -- the time ticker fires
  receive : Event A  -- the goroutine's `range` over the ticker's channel

module _ {ℓ} {A : Type ℓ} where
  unfoldable pub new_executor : TickerOption → ℤ → Option (TickerExecutor A)
  new_executor option now = elim (must_normalize option) [
    | none ↦ none
    | some o ↦ elim (new_ticker o now) [
      | none ↦ none
      | some t ↦ some (record { ticker = t; is_closed = false; tasks = [] })
    ]
  ]

  unfoldable pub task_size : TickerExecutor A → ℕ
  task_size e = length e.tasks

  unfoldable pub hand_over : List A → TickerExecutor A → TickerExecutor A × List (List A)
  hand_over [] e = (e, [])
  hand_over (x ∷ xs) e = (record e { tasks = []; ticker = reset_count e.ticker }, (x ∷ xs) ∷ [])

  -- The state, and the batch that the handler is given, if it is called.
  unfoldable pub invoke : TickerExecutor A → TickerExecutor A × List (List A)
  unfolding hand_over
  invoke e = hand_over e.tasks e

  unfoldable pub close_executor : TickerExecutor A → TickerExecutor A × List (List A)
  unfolding invoke
  close_executor e =
      if not e.is_closed
      then invoke (record e { is_closed = true; ticker = close_ticker e.ticker })
      else (e, [])

  unfoldable pub add_tasks : TickerExecutor A → ℤ → List A → ℤ → TickerExecutor A
  add_tasks e count new now =
      if not e.is_closed
      then record e { tasks = e.tasks ++ new; ticker = incr_count e.ticker count now }
      else e

  -- A tick that waits in the channel is taken out, also after the close; else `range` blocks or ends.
  unfoldable pub receive_tick : TickerExecutor A → TickerExecutor A × List (List A)
  unfolding invoke
  receive_tick e = elim e.ticker.tick_stream [
    | none ↦ (e, [])
    | some _ ↦ invoke (record e { ticker = record (e.ticker) { tick_stream = none } })
  ]

  unfoldable pub serve : TickerExecutor A → Event A → TickerExecutor A × List (List A)
  unfolding invoke close_executor add_tasks receive_tick
  serve e (add count new now) = (add_tasks e count new now, [])
  serve e invoke_now = invoke e
  serve e close = close_executor e
  serve e (time_event now) = (record e { ticker = handle_tick_event e.ticker now }, [])
  serve e receive = receive_tick e

  -- The batches are in the order in which the handler was given them.
  unfoldable pub run : TickerExecutor A → List (Event A) → TickerExecutor A × List (List A)
  run e [] = (e, [])
  run e (ev ∷ evs) =
      let (e', batch) = serve e ev in let rest = run e' evs in (rest.0, batch ++ rest.1)
