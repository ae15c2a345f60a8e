-- ===== src/Loops.antt =====
-- async/ctx.go, async/do.go and async/run.go: the contexts of tasks, and the loops that run a task
-- until its context is done. A context.Context is seen through what Err returns at the time of a
-- call, a parameter of each function; once it is an error it stays one. Goroutines that a loop starts
-- are left out: a loop is what its goroutine does.
pub mod Interval
pub mod Helper
pub mod Calls
pub mod Retries
mod Tests
use b_go_util.Base.{
  ℤ, pos, ◌+ℤ◌, wrap64, Bool, true, false, not, ◌||◌, ◌&&◌, Option, none, some, List, [], ◌∷◌,
  if◌then◌else◌,
}

-- context.Canceled and context.DeadlineExceeded.
pub data CtxErr : Type 0 where
  canceled_err : CtxErr
  deadline_err : CtxErr

pub record BaseCtx : Type 0 where
  pub has_ctx : Bool  -- ctx is not nil
  pub abort : Bool
  pub count : ℤ

unfoldable pub new_context : Bool → BaseCtx
new_context has_ctx = record { has_ctx = has_ctx; abort = false; count = pos 0 }

unfoldable pub abort_ctx : BaseCtx → BaseCtx
abort_ctx c = record c { abort = true }

unfoldable pub aborted : BaseCtx → Bool
aborted c = c.abort

unfoldable pub incr_ctx : BaseCtx → BaseCtx
incr_ctx c = record c { count = wrap64 (c.count +ℤ pos 1) }

unfoldable pub ctx_count : BaseCtx → ℤ
ctx_count c = c.count

-- c.ctx.Err() == context.Canceled
abbrev pub is_canceled_err : Option CtxErr → Bool
is_canceled_err (some canceled_err) = true
is_canceled_err (some deadline_err) = false
is_canceled_err none = false

abbrev pub is_deadline_err : Option CtxErr → Bool
is_deadline_err (some canceled_err) = false
is_deadline_err (some deadline_err) = true
is_deadline_err none = false

unfoldable pub canceled : BaseCtx → Option CtxErr → Bool
canceled c err = c.has_ctx && is_canceled_err err

unfoldable pub timed_out : BaseCtx → Option CtxErr → Bool
timed_out c err = c.has_ctx && is_deadline_err err

unfoldable pub done : BaseCtx → Option CtxErr → Bool
unfolding canceled timed_out
done c err = canceled c err || timed_out c err || c.abort

unfoldable pub ctx_error : BaseCtx → Option CtxErr → Option CtxErr
ctx_error c err = if c.has_ctx then err else none

-- FreezeCtx.
pub record FreezeCtx : Type 0 where
  pub ctx : BaseCtx
  pub frozen_done : Bool

unfoldable pub new_freeze : BaseCtx → Bool → FreezeCtx
new_freeze c d = record { ctx = c; frozen_done = d }

unfoldable pub freeze_done : FreezeCtx → Bool
unfolding aborted
freeze_done f = f.frozen_done || aborted f.ctx

unfoldable pub freeze_abort : FreezeCtx → FreezeCtx
unfolding abort_ctx
freeze_abort f = record f { ctx = abort_ctx f.ctx }

unfoldable pub freeze_aborted : FreezeCtx → Bool
unfolding aborted
freeze_aborted f = aborted f.ctx

unfoldable pub freeze_count : FreezeCtx → ℤ
unfolding ctx_count
freeze_count f = ctx_count f.ctx

unfoldable pub freeze_canceled : FreezeCtx → Option CtxErr → Bool
unfolding freeze_done canceled
freeze_canceled f err = if not (freeze_done f) then false else canceled f.ctx err

unfoldable pub freeze_timed_out : FreezeCtx → Option CtxErr → Bool
unfolding freeze_done timed_out
freeze_timed_out f err = if not (freeze_done f) then false else timed_out f.ctx err

unfoldable pub freeze_error : FreezeCtx → Option CtxErr → Option CtxErr
unfolding freeze_done ctx_error
freeze_error f err = if not (freeze_done f) then none else ctx_error f.ctx err

-- What the context of a task is: the loop's own, or a frozen one over it.
pub data TaskCtx : Type 0 where
  base : BaseCtx → TaskCtx
  frozen : FreezeCtx → TaskCtx

unfoldable pub task_done : TaskCtx → Option CtxErr → Bool
unfolding done freeze_done
task_done (base c) err = done c err
task_done (frozen f) err = freeze_done f

unfoldable pub task_count : TaskCtx → ℤ
unfolding ctx_count freeze_count
task_count (base c) = ctx_count c
task_count (frozen f) = freeze_count f

unfoldable pub task_error : TaskCtx → Option CtxErr → Option CtxErr
unfolding ctx_error freeze_error
task_error (base c) err = ctx_error c err
task_error (frozen f) err = freeze_error f err

-- DoCancelableTask: which of the two cases its select takes, and the context that it returns.
unfoldable pub do_cancelable_task : Bool → Bool → TaskCtx
unfolding new_context new_freeze
do_cancelable_task has_ctx task_ended =
    if task_ended
    then frozen (new_freeze (new_context has_ctx) false)
    else base (new_context has_ctx)

-- A round of a loop: what Err is at the select, what it is while the task runs, and whether Abort is
-- called before the loop asks for it, by the task or by what it started.
pub record Round : Type 0 where
  pub at_select : Option CtxErr
  pub in_task : Option CtxErr
  pub aborts : Bool

-- A call of the task: the context that it is given, and what Err is while it runs.
pub record TaskCall : Type 0 where
  pub given : TaskCtx
  pub err : Option CtxErr

-- DoUntilCancel for as many rounds as there are: the calls, and whether the loop has ended. At the
-- select `default` is taken only if the context is not done.
unfoldable pub do_until_cancel : BaseCtx → List Round → List TaskCall × Bool
unfolding incr_ctx new_freeze abort_ctx aborted
do_until_cancel c [] = ([], false)
do_until_cancel c (r ∷ rounds) =
    let c' = incr_ctx c in
    let after = if r.aborts then abort_ctx c' else c' in
    let rest = do_until_cancel after rounds in
    elim (r.at_select) [
      | some e ↦ (record { given = base c'; err = some e } ∷ [], true)
      | none ↦
          let call : TaskCall = record { given = frozen (new_freeze c' false); err = r.in_task } in
          if aborted after then (call ∷ [], true) else (call ∷ rest.0, rest.1)
    ]
