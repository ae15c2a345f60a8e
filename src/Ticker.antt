-- ===== src/Ticker.antt =====
-- async/ticker.go: a ticker that fires by count or by time, and the executor that collects tasks
-- and hands them to a handler in batches. Each method is one step, at a time that is given to it;
-- `tick_stream` is the channel with room for one tick. A close between the test of `fireTick` and
-- its send panics, which the source recovers; here the close comes before or after the method.
pub mod Counting
pub mod Executor
pub mod Batches
mod Tests
use b_go_util.Base.{
  ℤ, pos, ◌+ℤ◌, ◌-ℤ◌, ltb_ℤ, leb_ℤ, wrap64, Bool, true, false, not, ◌&&◌, ◌||◌, Option, none, some,
  if◌then◌else◌,
}

-- TickerOption. Durations are in nanoseconds.
pub record TickerOption : Type 0 where
  pub period : ℤ
  pub min_delay : ℤ
  pub min_count : ℤ
  pub max_count : ℤ

abbrev pub millis_100 : ℤ
millis_100 = pos 100_000_000

unfoldable pub new_ticker_option : ℤ → ℤ → ℤ → TickerOption
new_ticker_option min_count max_count period = record {
  period = period;
  min_delay = pos 0;
  min_count = min_count;
  max_count = max_count;
}

-- `none` is a failed assertion.
unfoldable pub must_normalize : TickerOption → Option TickerOption
must_normalize o =
    if not (leb_ℤ (pos 0) o.period)
    then none
    else if not (leb_ℤ (pos 0) o.min_count)
    then none
    else if not (leb_ℤ (pos 0) o.max_count)
    then none
    else if not (leb_ℤ o.min_count o.max_count)
    then none
    else if not (ltb_ℤ (pos 0) o.min_count || ltb_ℤ (pos 0) o.max_count || ltb_ℤ (pos 0) o.period)
    then none
    else if ltb_ℤ (pos 0) o.period && leb_ℤ o.min_delay (pos 0)
    then some (record o {
      min_delay = if ltb_ℤ o.period millis_100 then o.period else o.period -ℤ millis_100;
    })
    else some o

pub record Ticker : Type 0 where
  pub option : TickerOption
  pub tick_stream : Option ℤ
  pub is_closed : Bool
  pub last_tick_time : ℤ
  pub current_count : ℤ

unfoldable pub new_ticker : TickerOption → ℤ → Option Ticker
new_ticker option now = elim (must_normalize option) [
  | none ↦ none
  | some o ↦ some (record {
    option = o;
    tick_stream = none;
    is_closed = false;
    last_tick_time = now;
    current_count = pos 0;
  })
]

unfoldable pub close_ticker : Ticker → Ticker
close_ticker t = record t { is_closed = true }

-- The send succeeds if the channel is empty; else `default` gives up.
unfoldable pub fire_tick : Ticker → ℤ → Ticker × Bool
fire_tick t now =
    if t.is_closed
    then (t, false)
    else (let cc = t.current_count in
        elim t.tick_stream [
          | none ↦ (
            record t {
              tick_stream = some now;
              current_count = wrap64 (t.current_count -ℤ cc);
              last_tick_time = now;
            },
            true,
          )
          | some waiting ↦ (t, false)
        ])

-- What the time ticker does at each of its events.
unfoldable pub handle_tick_event : Ticker → ℤ → Ticker
unfolding fire_tick
handle_tick_event t now =
    if ltb_ℤ (pos 0) t.option.min_count && ltb_ℤ t.current_count t.option.min_count
    then t
    else if ltb_ℤ (pos 0) t.option.min_delay && ltb_ℤ (now -ℤ t.last_tick_time) t.option.min_delay
    then t
    else (fire_tick t now).0

unfoldable pub count_of : Ticker → ℤ
count_of t = if not t.is_closed then t.current_count else pos 0

unfoldable pub reset_count : Ticker → Ticker
reset_count t = if not t.is_closed then record t { current_count = pos 0 } else t

-- The count goes up only if the tests before it in the `&&` hold.
unfoldable pub incr_count : Ticker → ℤ → ℤ → Ticker
unfolding fire_tick
incr_count t n now =
    if ltb_ℤ (pos 0) n && ltb_ℤ (pos 0) t.option.max_count && not t.is_closed
    then (let t' = record t { current_count = wrap64 (t.current_count +ℤ n) } in
        if leb_ℤ t.option.max_count t'.current_count then (fire_tick t' now).0 else t')
    else t
