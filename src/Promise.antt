-- ===== src/Promise.antt =====
-- async/promise.go. A task is what it returns, an error or nil; in the cancelable forms that is the
-- context's error once the context is done. Of the functions that run tasks in goroutines the steps
-- of the loop and of the goroutines are events in any order.
pub mod Outcome
mod Tests
use b_go_util.Base.{
  ℕ, zero, suc, ◌+◌, ◌-◌, ◌==◌, ◌≡◌, Bool, true, false, not, ◌&&◌, ◌||◌, Option, none, some,
  is_some, List, [], ◌∷◌, length, if◌then◌else◌,
}

-- RunCancelableAll and RunCancelableAny: the cause, for Any whether a task succeeded, the functions
-- that the loop has not come to, the goroutines that have not begun, and those that run their task.
pub record Group (E : Type 0) : Type 0 where
  pub cause : Option E
  pub is_ok : Bool
  pub left : ℕ
  pub forked : ℕ
  pub running : ℕ

-- The loop comes to the next function; a goroutine begins; a task ends.
pub data GroupEvent (E : Type 0) : Type 0 where
  on_next : GroupEvent E
  on_begin : GroupEvent E
  on_end : Option E → GroupEvent E

module _ {E : Type 0} where
  -- DoAll and DoCancelableAll: the calls made, and what is returned.
  unfoldable pub do_all : List (Option E) → ℕ × Option E
  do_all [] = (0, none)
  do_all (r ∷ rs) =
      let rest = do_all rs in elim r [ some e ↦ (1, some e) | none ↦ (suc rest.0, rest.1) ]

  -- DoAny and DoCancelableAny, with the cause so far.
  unfoldable pub do_any_from : Option E → List (Option E) → ℕ × Option E
  do_any_from cause [] = (0, cause)
  do_any_from cause (r ∷ rs) =
      let rest = do_any_from r rs in elim r [ none ↦ (1, none) | some e ↦ (suc rest.0, rest.1) ]

  unfoldable pub do_any : List (Option E) → ℕ × Option E
  unfolding do_any_from
  do_any rs = do_any_from none rs

  unfoldable pub new_group : ℕ → Group E
  new_group n = record { cause = none; is_ok = false; left = n; forked = 0; running = 0 }

  -- The loop breaks, and a goroutine returns, once `stop`.
  unfoldable pub next_step : Bool → Group E → Group E
  next_step stop g =
      if g.left == 0
      then g
      else if stop
      then record g { left = 0 }
      else record g { left = g.left - 1; forked = g.forked + 1 }

  unfoldable pub begin_step : Bool → Group E → Group E
  begin_step stop g =
      if g.forked == 0
      then g
      else if stop
      then record g { forked = g.forked - 1 }
      else record g { forked = g.forked - 1; running = g.running + 1 }

  -- SetIfAbsent of the first error.
  unfoldable pub all_step : GroupEvent E → Group E → Group E
  unfolding next_step begin_step
  all_step on_next g = next_step (is_some g.cause) g
  all_step on_begin g = begin_step (is_some g.cause) g
  all_step (on_end r) g =
      if g.running == 0
      then g
      else record g { running = g.running - 1; cause = if is_some g.cause then g.cause else r }

  unfoldable pub any_step : GroupEvent E → Group E → Group E
  unfolding next_step begin_step
  any_step on_next g = next_step g.is_ok g
  any_step on_begin g = begin_step g.is_ok g
  any_step (on_end r) g =
      if g.running == 0
      then g
      else if g.is_ok
      then record g { running = g.running - 1 }
      else if is_some r
      then record g { running = g.running - 1; cause = r }
      else record g { running = g.running - 1; is_ok = true }

  unfoldable pub run_group :
      (GroupEvent E → Group E → Group E) → List (GroupEvent E) → Group E → Group E
  run_group step [] g = g
  run_group step (e ∷ es) g = run_group step es (step e g)

  -- Wait returns.
  abbrev pub ended : Group E → Bool
  ended g = (g.left == 0) && (g.forked == 0) && (g.running == 0)

  unfoldable pub all_result : Group E → Option E
  all_result g = g.cause

  unfoldable pub any_result : Group E → Option E
  any_result g = if g.is_ok then none else g.cause
