-- ===== src/Locker/Session.antt =====
-- SessionLock of rdb/locker.go: a lock that a background task refreshes until it is released. The task is
-- one goroutine of a task runner (async/runner.go), whose Stop cancels its context and waits for it to end.
use b_go_util.Base.{
  ℕ, zero, suc, ◌+◌, ◌-◌, dec_lt, ◌/◌, ◌<◌, ◌≤◌, ◌^◌, ℤ, pos, negsuc, ◌-ℤ◌, wrap64, leb_ℤ, ◌≡◌,
  refl, arith, Bool, true, false, List, [], ◌∷◌, if◌then◌else◌, ◌⊎◌, ℤ-discrete, ℕ_discrete,
}
use b_go_util.Atomic.{AtomicBool, new_bool, set_bool, cas_bool, bool_value, is_true}

-- Division of Go by 2, which truncates.
abbrev half : ℤ → ℤ
half (pos n) = pos (n / 2)
half (negsuc n) = negative (suc n / 2)
  where
    negative : ℕ → ℤ
    negative zero = pos 0
    negative (suc m) = negsuc m

-- How long refreshBgTask waits between two calls of Refresh: 2 seconds less than the lock lives, or half
-- of that.
unfoldable pub refresh_interval : ℤ → ℤ
refresh_interval ttl =
    let interval = wrap64 (ttl -ℤ pos 2000000000) in
    if leb_ℤ interval (pos 0) then half ttl else interval

-- Where the task is: between two calls of Refresh; after one that failed; after the test of isReleased; and at its end.
pub data Task : Type 0 where
  waiting failing deciding ended : Task

pub record SessionLock : Type 0 where
  pub is_released : AtomicBool
  pub task : Task
  pub is_stopped : Bool  -- the context of the task is canceled
  pub stopping : ℕ  -- calls of Release in refreshRunner.Stop()
  pub releases : ℕ  -- calls of the Release of the lock itself
  pub failures : ℕ  -- calls of onLockRefreshFailed

unfoldable pub new_session_lock : SessionLock
new_session_lock = record {
  is_released = new_bool false;
  task = waiting;
  is_stopped = false;
  stopping = 0;
  releases = 0;
  failures = 0;
}

unfoldable pub session_is_released : SessionLock → Bool
session_is_released s = bool_value s.is_released

-- What happens to a session lock: Release is called; a call of Release whose Stop has waited goes on; the
-- task calls Refresh, which fails or not, tests isReleased, and sets it; or it sees its context canceled.
pub data SessionStep : Type 0 where
  releases_it stopped_it tests_released gives_up sees_cancel : SessionStep
  refreshes : Bool → SessionStep

-- The test and swap of Release, which also cancels the context.
unfoldable pub release_session : SessionLock → SessionLock
release_session s =
    let (flag, swapped) = cas_bool s.is_released false in
    if swapped
    then record s { is_released = flag; is_stopped = true; stopping = suc s.stopping }
    else record s { is_released = flag }

-- The end of Stop, which waits for the task, and s.Lock.Release(ctx).
unfoldable pub finish_release : SessionLock → SessionLock
finish_release s = finished s.task s.stopping
  where
    finished : Task → ℕ → SessionLock
    finished ended (suc n) = record s { stopping = n; releases = suc s.releases }
    finished ended zero = s
    finished waiting n = s
    finished failing n = s
    finished deciding n = s

-- err := s.Lock.Refresh(…), and the first two tests of its result; the context of the task is a frozen
-- one, which is not done before Abort. It may be that the loop has not seen the cancel.
unfoldable pub refresh_session : SessionLock → Bool → SessionLock
refresh_session s fails = refreshed s.task
  where
    refreshed : Task → SessionLock
    refreshed waiting = if fails then record s { task = failing } else s
    refreshed failing = s
    refreshed deciding = s
    refreshed ended = s

-- s.isReleased.True()
unfoldable pub test_released : SessionLock → SessionLock
test_released s = tested s.task
  where
    tested : Task → SessionLock
    tested failing =
        if is_true s.is_released then record s { task = waiting } else record s { task = deciding }
    tested waiting = s
    tested deciding = s
    tested ended = s

-- s.isReleased.Set(true), c.Abort() and the callback, if there is one.
unfoldable pub give_up : Bool → SessionLock → SessionLock
give_up has_failed_fn s = given_up s.task
  where
    given_up : Task → SessionLock
    given_up deciding = record s {
      is_released = set_bool s.is_released true;
      task = ended;
      failures = if has_failed_fn then suc s.failures else s.failures;
    }
    given_up waiting = s
    given_up failing = s
    given_up ended = s

-- The loop of the task ends where its context is canceled.
unfoldable pub see_cancel : SessionLock → SessionLock
see_cancel s = seen s.task
  where
    seen : Task → SessionLock
    seen waiting = if s.is_stopped then record s { task = ended } else s
    seen failing = s
    seen deciding = s
    seen ended = s

unfoldable pub session_step : Bool → SessionLock → SessionStep → SessionLock
unfolding release_session finish_release refresh_session test_released give_up see_cancel
session_step has_failed_fn s releases_it = release_session s
session_step has_failed_fn s stopped_it = finish_release s
session_step has_failed_fn s (refreshes fails) = refresh_session s fails
session_step has_failed_fn s tests_released = test_released s
session_step has_failed_fn s gives_up = give_up has_failed_fn s
session_step has_failed_fn s sees_cancel = see_cancel s

unfoldable pub session_steps : Bool → SessionLock → List SessionStep → SessionLock
session_steps has_failed_fn s [] = s
session_steps has_failed_fn s (t ∷ later) =
    session_steps has_failed_fn (session_step has_failed_fn s t) later

-- The lock is released once, by the one Release that swapped the flag, or given up once, when the task
-- has ended.
abbrev IsOnce : SessionLock → Type 0
IsOnce s =
    (s.stopping + s.releases ≤ 1)
    × (0 < s.stopping + s.releases → bool_value s.is_released ≡ true)
    × (0 < s.releases → s.task ≡ ended)
    × (s.failures ≤ 1)
    × (0 < s.failures → (s.task ≡ ended) × (bool_value s.is_released ≡ true))

swap_free :
    (b : AtomicBool)
    → ((cas_bool b false).1 ≡ false)
      ⊎ ((bool_value b ≡ false) × (bool_value (cas_bool b false).0 ≡ true))
unfolding cas_bool bool_value ℤ-discrete ℕ_discrete
swap_free b = ground arith

no_swap : (b : AtomicBool) → (cas_bool b false).1 ≡ false → (cas_bool b false).0 ≡ b
unfolding cas_bool
no_swap b h = ground arith

value_of_true : (b : AtomicBool) → bool_value (set_bool b true) ≡ true
unfolding set_bool bool_value ℤ-discrete ℕ_discrete
value_of_true b = refl

session_step-IsOnce :
    (f : Bool) (s : SessionLock) (t : SessionStep) → IsOnce s → IsOnce (session_step f s t)
unfolding session_step release_session finish_release refresh_session test_released give_up
    see_cancel
session_step-IsOnce f s releases_it i =
    ground (arith, swap_free s.is_released, no_swap s.is_released)
session_step-IsOnce f s stopped_it i = ground arith
session_step-IsOnce f s (refreshes fails) i = ground arith
session_step-IsOnce f s tests_released i = ground arith
session_step-IsOnce f s gives_up i = ground (arith, value_of_true s.is_released)
session_step-IsOnce f s sees_cancel i = ground arith

session_steps-IsOnce :
    (f : Bool) (s : SessionLock) (ts : List SessionStep) → IsOnce s → IsOnce (session_steps f s ts)
unfolding session_steps
session_steps-IsOnce f s [] i = i
session_steps-IsOnce f s (t ∷ ts) i =
    session_steps-IsOnce f (session_step f s t) ts (session_step-IsOnce f s t i)

new_session_lock-IsOnce : IsOnce new_session_lock
unfolding new_session_lock
new_session_lock-IsOnce = (
  omega arith,
  λ h. absurd (omega arith),
  λ h. absurd (omega arith),
  omega arith,
  λ h. absurd (omega arith),
)

-- However the calls of Release and the steps of the refreshing task interleave: the lock is released in
-- redis at most once, and only after the task has ended; onLockRefreshFailed is called at most once; and
-- while IsReleased is false neither has happened and no Release is under way.
pub released_once :
    (f : Bool) (ts : List SessionStep)
    → ((session_steps f new_session_lock ts).releases ≤ 1)
      × (0 < (session_steps f new_session_lock ts).releases
          → (session_steps f new_session_lock ts).task ≡ ended)
      × ((session_steps f new_session_lock ts).failures ≤ 1)
      × (session_is_released (session_steps f new_session_lock ts) ≡ false
          → (session_steps f new_session_lock ts).releases
              + (session_steps f new_session_lock ts).stopping
              + (session_steps f new_session_lock ts).failures
            ≡ 0)
unfolding session_is_released
released_once f ts =
    ground (arith, session_steps-IsOnce f new_session_lock ts new_session_lock-IsOnce)

-- A lock that lives n nanoseconds, n an int64 and 2 or more, is refreshed within its life: 2 seconds
-- before its end, or halfway if it lives for 2 seconds or less.
pub refreshed_in_time :
    (n : ℕ)
    → 1 < n
    → n < 2 ^ 63
    → (m : ℕ) × (refresh_interval (pos n) ≡ pos m)
      × (0 < m)
      × (m < n)
      × (2000000000 < n → m + 2000000000 ≡ n)
      × (n ≤ 2000000000 → m ≡ n / 2)
unfolding refresh_interval wrap64 ◌-ℤ◌
refreshed_in_time n p q = elim (dec_lt 2000000000 n) [
  | yes l ↦ (
    n - 2000000000,
    ground arith,
    omega arith,
    omega arith,
    λ _. omega arith,
    λ h. absurd (omega arith),
  )
  | no l ↦ (n / 2, ground arith, omega arith, omega arith, λ h. absurd (omega arith), λ _. refl)
]
