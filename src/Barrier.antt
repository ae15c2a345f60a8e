-- ===== src/Barrier.antt =====
-- async/barrier.go: a barrier that lets a function run at most once in each period. Times are readings of
-- the monotonic clock in nanoseconds; where a time is later than `now`, Go's difference is negative, and
-- below a period as the 0 here is. `none` is the zero time, whose difference to any time that a clock
-- shows is the longest duration. Barrier, which is one mutex around a call, is left out.
pub mod Spacing
pub mod Overlap
mod Tests
use b_go_util.Base.{
  ℕ, ◌+◌, ◌-◌, Bool, true, false, Option, none, some, List, [], ◌∷◌, ltb, if◌then◌else◌, ℕ_discrete,
  has_key, del_key,
}
use b_go_util.Atomic.{AtomicBool, new_bool, set_bool, cas_bool}

-- AtomicTime of util/atomic.go, whose zero value is the zero time.
pub record AtomicTime : Type 0 where
  pub time : Option ℕ

unfoldable pub new_time : AtomicTime
new_time = record { time = none }

unfoldable pub set_time : AtomicTime → ℕ → AtomicTime
set_time a v = record { time = some v }

unfoldable pub time_value : AtomicTime → Option ℕ
time_value a = a.time

pub record PeriodBarrier : Type 0 where
  pub period : ℕ
  pub last_invoke_time : AtomicTime
  pub is_invoking : AtomicBool

-- none is the panic for a period that is not positive.
unfoldable pub new_period_barrier : ℕ → Option PeriodBarrier
new_period_barrier period =
    if ltb 0 period
    then some
        (record { period = period; last_invoke_time = new_time; is_invoking = new_bool false })
    else none

-- time.Since(t) < period
abbrev pub since_below : ℕ → Option ℕ → ℕ → Bool
since_below now none period = false
since_below now (some t) period = ltb (now - t) period

-- The first test of allowInvoke, at the time of the call.
unfoldable pub is_due : PeriodBarrier → ℕ → Bool
unfolding time_value
is_due b now = if since_below now (time_value b.last_invoke_time) b.period then false else true

-- The rest of allowInvoke.
unfoldable pub take_turn : PeriodBarrier → PeriodBarrier × Bool
take_turn b =
    let (flag, swapped) = cas_bool b.is_invoking false in (record b { is_invoking = flag }, swapped)

unfoldable pub allow_invoke : PeriodBarrier → ℕ → PeriodBarrier × Bool
unfolding is_due take_turn
allow_invoke b now = if is_due b now then take_turn b else (b, false)

-- The two statements of afterInvoke.
unfoldable pub stamp : PeriodBarrier → ℕ → PeriodBarrier
unfolding set_time
stamp b now = record b { last_invoke_time = set_time b.last_invoke_time now }

unfoldable pub clear : PeriodBarrier → PeriodBarrier
clear b = record b { is_invoking = set_bool b.is_invoking false }

unfoldable pub after_invoke : PeriodBarrier → ℕ → PeriodBarrier
unfolding stamp clear
after_invoke b now = clear (stamp b now)

-- Do with a function that starts at a time and takes some time: whether it ran.
unfoldable pub do_fn : PeriodBarrier → ℕ → ℕ → PeriodBarrier × Bool
unfolding allow_invoke after_invoke
do_fn b now takes = ended (allow_invoke b now)
  where
    ended : PeriodBarrier × Bool → PeriodBarrier × Bool
    ended (b', true) = (after_invoke b' (now + takes), true)
    ended (b', false) = (b', false)

-- Invoke, whose function returns an error: that of the function, nil when it does not run.
unfoldable pub invoke_fn {ℓ} :
    {E : Type ℓ} → PeriodBarrier → ℕ → ℕ → Option E → PeriodBarrier × Option E
unfolding allow_invoke after_invoke
invoke_fn {E} b now takes err = ended (allow_invoke b now)
  where
    ended : PeriodBarrier × Bool → PeriodBarrier × Option E
    ended (b', true) = (after_invoke b' (now + takes), err)
    ended (b', false) = (b', none)

-- Goroutines that call Do of one barrier: those that have seen the period over, those that run the
-- function, and those that have stamped its end.
pub record Callers : Type 0 where
  pub barrier : PeriodBarrier
  pub now : ℕ
  pub checked : List ℕ
  pub running : List ℕ
  pub stamped : List ℕ

-- A step of a goroutine, or of the clock.
pub data Move : Type 0 where
  passes : ℕ → Move
  checks : ℕ → Move
  swaps : ℕ → Move
  ends : ℕ → Move
  clears : ℕ → Move

unfoldable pub move : Callers → Move → Callers
unfolding is_due take_turn stamp clear
move c (passes n) = record c { now = c.now + n }
move c (checks g) = if is_due c.barrier c.now then record c { checked = g ∷ c.checked } else c
move c (swaps g) =
    if has_key ℕ_discrete g c.checked
    then (let (b, swapped) = take_turn c.barrier in
        record c {
          barrier = b;
          checked = del_key ℕ_discrete g c.checked;
          running = if swapped then g ∷ c.running else c.running;
        })
    else c
move c (ends g) =
    if has_key ℕ_discrete g c.running
    then record c {
      barrier = stamp c.barrier c.now;
      running = del_key ℕ_discrete g c.running;
      stamped = g ∷ c.stamped;
    }
    else c
move c (clears g) =
    if has_key ℕ_discrete g c.stamped
    then record c { barrier = clear c.barrier; stamped = del_key ℕ_discrete g c.stamped }
    else c

unfoldable pub moves : Callers → List Move → Callers
moves c [] = c
moves c (m ∷ later) = moves (move c m) later

unfoldable pub no_callers : PeriodBarrier → ℕ → Callers
no_callers b now = record { barrier = b; now = now; checked = []; running = []; stamped = [] }
