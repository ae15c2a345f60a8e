-- ===== src/Locker.antt =====
-- rdb/locker.go: locks in redis. The client of github.com/bsm/redislock is a parameter: what its Obtain
-- returns at each call, and what Refresh and Release do, come as arguments. The retries go through the
-- interval helper of async/run_interval_helper.go. Durations are nanoseconds; `none` is a panic.
pub mod Settling
pub mod Attempts
pub mod Session
mod Tests
use b_go_util.Base.{
  ℕ, suc, ◌/◌, ℤ, pos, ◌-ℤ◌, wrap64, leb_ℤ, Bool, true, false, not, ◌&&◌, ◌||◌, Option, none, some,
  List, [], ◌∷◌, map, map_option, if◌then◌else◌,
}
use b_go_util.Atomic.{AtomicBool, new_bool, set_bool, cas_bool, bool_value, is_true}
use b_go_util.Loops.{CtxErr, Round, task_done}
use b_go_util.Loops.Interval.{TickCall}
use b_go_util.Loops.Helper.{
  RunIntervalHelper, new_helper, with_init_run_delay, with_max_retry_count, run_helper,
}

pub record Locker : Type 0 where
  pub retry_limit : ℤ
  pub retry_interval : ℤ
  pub has_failed_fn : Bool  -- onLockRefreshFailedFn is not nil

unfoldable pub new_locker : Locker
new_locker = record { retry_limit = pos 0; retry_interval = pos 0; has_failed_fn = false }

unfoldable pub with_failed_fn : Locker → Bool → Locker
with_failed_fn l has = record l { has_failed_fn = has }

unfoldable pub with_retry_option : Locker → ℤ → ℤ → Locker
with_retry_option l limit interval = record l { retry_limit = limit; retry_interval = interval }

infixl 5 ◌>>=◌
abbrev ◌>>=◌ {ℓ κ} : {A : Type ℓ} {B : Type κ} → Option A → (A → Option B) → Option B
none >>= f = none
some a >>= f = f a

-- async.NewRunIntervalHelper(…).WithMaxRetryCount(…).WithInitRunDelay(1 * time.Millisecond)
unfoldable pub retry_helper : Locker → Option RunIntervalHelper
unfolding new_helper with_init_run_delay with_max_retry_count
retry_helper l = do
  helper ← new_helper l.retry_interval
  helper ← with_max_retry_count helper l.retry_limit
  with_init_run_delay helper (pos 1000000)

-- The interval that a call without one sets.
unfoldable pub default_interval : Locker → ℤ → Locker
default_interval l ttl =
    if leb_ℤ l.retry_interval (pos 0) then record l { retry_interval = ttl } else l

-- What Obtain returns: a lock, ErrNotObtained, or another error.
pub data Outcome (L E : Type 0) : Type 0 where
  got : L → Outcome L E
  not_obtained : Outcome L E
  failed : E → Outcome L E

-- A round of the retries: what the context's Err is at its select and while the task runs, and what Obtain
-- returns in it, if it is called.
pub record Attempt (L E : Type 0) : Type 0 where
  pub at_select : Option CtxErr
  pub in_task : Option CtxErr
  pub outcome : Outcome L E

module _ {L E : Type 0} where
  -- if err == nil || err != redislock.ErrNotObtained
  abbrev pub is_settled : Outcome L E → Bool
  is_settled (got l) = true
  is_settled not_obtained = false
  is_settled (failed e) = true

  -- c.Abort() after Obtain, if it is called.
  unfoldable pub round_of : Attempt L E → Round
  round_of a = record {
    at_select = a.at_select;
    in_task = a.in_task;
    aborts = is_settled a.outcome;
  }

  unfoldable pub rounds_of : List (Attempt L E) → List Round
  unfolding round_of
  rounds_of attempts = map round_of attempts

  -- The lock and err that the calls of the task leave, from what they were: a call whose context is done
  -- returns at once, the others assign what Obtain returns.
  unfoldable pub assigned : Outcome L E → List TickCall → List (Attempt L E) → Outcome L E
  unfolding task_done
  assigned before [] attempts = before
  assigned before (t ∷ calls) [] = before
  assigned before (t ∷ calls) (a ∷ attempts) =
      assigned (if task_done t.call.given t.call.err then before else a.outcome) calls attempts

  -- helper.Run(…): err and lock are nil at first, which the last test makes ErrNotObtained; also whether
  -- the loop has ended.
  unfoldable pub obtained_by : RunIntervalHelper → List (Attempt L E) → Outcome L E × Bool
  unfolding run_helper rounds_of assigned
  obtained_by helper attempts =
      let (calls, ended) = run_helper helper (rounds_of attempts) in
      (assigned not_obtained calls attempts, ended)

  -- Without retries Obtain is called once, whose result is the first argument after the duration.
  unfoldable pub obtain_lock :
      Locker → ℤ → Outcome L E → List (Attempt L E) → Option (Locker × (Outcome L E × Bool))
  obtain_lock l ttl single attempts =
      if leb_ℤ l.retry_limit (pos 0)
      then some (l, (single, true))
      else map_option (λ helper. (default_interval l ttl, obtained_by helper attempts))
          (retry_helper (default_interval l ttl))
