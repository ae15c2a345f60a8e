-- ===== src/Retry.antt =====
-- util/retry.go: the counter of retries, and DoRetry, which runs a function until it returns nil or
-- the counter gives no further interval. The lock of the counter makes NextInterval one step. The
-- loop of DoRetry runs on fuel.
pub mod Intervals
pub mod Runs
mod Tests
use b_go_util.Base.{
  ℕ, zero, suc, ℤ, pos, ◌+ℤ◌, ltb_ℤ, leb_ℤ, wrap64, Bool, not, ◌&&◌, ◌||◌, Option, none, some,
  if◌then◌else◌, ◌≡◌,
}

-- Intervals are in nanoseconds.
pub record RetryCounter : Type 0 where
  pub count : ℤ
  pub max_count : ℤ
  pub interval : ℤ
  pub max_interval : ℤ
  pub step_interval : ℤ

-- `none` is a failed assertion.
unfoldable pub new_step_retry_counter : ℤ → ℤ → ℤ → ℤ → Option RetryCounter
new_step_retry_counter max_count init_interval step_interval max_interval =
    if not (leb_ℤ (pos 0) max_count)
    then none
    else if not (leb_ℤ (pos 0) init_interval)
    then none
    else if not (leb_ℤ (pos 0) step_interval)
    then none
    else if not (leb_ℤ (pos 0) max_interval)
    then none
    else if not (ltb_ℤ (pos 0) init_interval || ltb_ℤ (pos 0) step_interval)
    then none
    else some (record {
      count = pos 0;
      max_count = max_count;
      interval = init_interval;
      max_interval = max_interval;
      step_interval = step_interval;
    })

unfoldable pub new_retry_counter : ℤ → ℤ → Option RetryCounter
unfolding new_step_retry_counter
new_retry_counter max_count interval = new_step_retry_counter max_count interval (pos 0) (pos 0)

-- Whether the two integers are the same.
abbrev eqb_ℤ : ℤ → ℤ → Bool
eqb_ℤ a b = leb_ℤ a b && leb_ℤ b a

unfoldable pub has_next : RetryCounter → Bool
has_next r = eqb_ℤ r.max_count (pos 0) || ltb_ℤ r.count r.max_count

-- What one retry adds to the interval.
unfoldable pub grown : RetryCounter → ℤ
grown r =
    if ltb_ℤ (pos 0) r.step_interval
      && (leb_ℤ r.max_interval (pos 0) || ltb_ℤ r.interval r.max_interval)
    then (let interval = wrap64 (r.interval +ℤ r.step_interval) in
        if ltb_ℤ (pos 0) r.max_interval && ltb_ℤ r.max_interval interval
        then r.max_interval
        else interval)
    else r.interval

unfoldable pub next_interval : RetryCounter → RetryCounter × ℤ
unfolding grown
next_interval r =
    if ltb_ℤ (pos 0) r.max_count && leb_ℤ r.max_count r.count
    then (r, pos 0)
    else (record r { count = wrap64 (r.count +ℤ pos 1); interval = grown r }, grown r)

-- `fn i` is what the run number i of the function returns. The result is what DoRetry returns and
-- the number of runs; `none` is out of fuel.
unfoldable pub do_retry {ℓ} :
    {E : Type ℓ} → ℕ → RetryCounter → (ℕ → Option E) → ℕ → Option (Option E × ℕ)
unfolding next_interval
do_retry zero r fn i = none
do_retry (suc fuel) r fn i =
    let rest = do_retry fuel (next_interval r).0 fn (suc i) in
    elim (fn i) [
      | none ↦ some (none, suc i)
      | some err ↦ if leb_ℤ (next_interval r).1 (pos 0) then some (some err, suc i) else rest
    ]
