-- ===== src/Locker/Tests.antt =====
-- The theorems on locks at concrete runs.
use b_go_util.Base.{
  ℕ, ◌+◌, ◌<◌, ◌≤◌, ◌/◌, ◌≡◌, refl, arith, pos, true, false, some, none, List, [], ◌∷◌,
}
use b_go_util.Locker.{
  Locker, new_locker, with_retry_option, Outcome, got, not_obtained, failed, Attempt, obtain_lock,
  default_interval,
}
use b_go_util.Locker.Attempts.{first_settled_decides}
use b_go_util.Locker.Settling.{first_settled}
use b_go_util.Locker.Session.{
  SessionStep, releases_it, stopped_it, refreshes, tests_released, sees_cancel, ended,
  new_session_lock, session_steps, session_is_released, released_once, refresh_interval,
  refreshed_in_time,
}

abbrev two_retries : Locker
two_retries = record { retry_limit = pos 2; retry_interval = pos 0; has_failed_fn = false }

two_retries_test : with_retry_option new_locker (pos 2) (pos 0) ≡ two_retries
unfolding with_retry_option new_locker
two_retries_test = refl

abbrev attempt : Outcome ℕ ℕ → Attempt ℕ ℕ
attempt o = record { at_select = none; in_task = none; outcome = o }

-- The lock is got at the second attempt.
abbrev attempts : List (Attempt ℕ ℕ)
attempts = attempt not_obtained ∷ attempt (got 7) ∷ attempt (failed 1) ∷ attempt (got 8) ∷ []

first_settled_decides_example :
    obtain_lock two_retries (pos 5000000000) not_obtained attempts
    ≡ some (default_interval two_retries (pos 5000000000), (first_settled 2 attempts, true))
first_settled_decides_example =
    first_settled_decides two_retries 1 (pos 5000000000) not_obtained attempts refl (omega arith)
      refl (omega arith)

got_test : first_settled 2 attempts ≡ got 7
unfolding first_settled
got_test = refl

abbrev session : List SessionStep
session =
    refreshes false
    ∷ refreshes true
    ∷ releases_it
    ∷ tests_released
    ∷ releases_it
    ∷ sees_cancel
    ∷ stopped_it
    ∷ []

released_once_example :
    ((session_steps true new_session_lock session).releases ≤ 1)
    × (0 < (session_steps true new_session_lock session).releases
        → (session_steps true new_session_lock session).task ≡ ended)
    × ((session_steps true new_session_lock session).failures ≤ 1)
    × (session_is_released (session_steps true new_session_lock session) ≡ false
        → (session_steps true new_session_lock session).releases
            + (session_steps true new_session_lock session).stopping
            + (session_steps true new_session_lock session).failures
          ≡ 0)
released_once_example = released_once true session

refreshed_in_time_test :
    (m : ℕ) × (refresh_interval (pos 10000000000) ≡ pos m)
    × (0 < m)
    × (m < 10000000000)
    × (2000000000 < 10000000000 → m + 2000000000 ≡ 10000000000)
    × (10000000000 ≤ 2000000000 → m ≡ 10000000000 / 2)
refreshed_in_time_test = refreshed_in_time 10000000000 (omega arith) (omega arith)
