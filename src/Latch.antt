-- ===== src/Latch.antt =====
-- async/latch.go: a latch that goroutines wait at while it is closed. `waiting` is the queue of the
-- condition variable, `entering` are the goroutines that are about to take its lock in Wait, new ones
-- and ones that were woken, and `passed` are those whose Wait has returned. CASwap and each turn of the
-- loop of Wait hold the lock, so they are steps; `cond.Wait` lets the lock go as it joins the queue. A
-- test of the flag before CASwap is taken at the same time as the swap, which tests it again.
-- WaitOrCanceled and WaitOrTimeout are left out.
pub mod Wakeups
mod Tests
use b_go_util.Base.{
  ℕ, Bool, true, false, not, List, [], ◌∷◌, ◌++◌, if◌then◌else◌, ℕ_discrete, has_key, del_key,
}
use b_go_util.Atomic.{AtomicBool, new_bool, cas_bool, bool_value, is_true, is_false}

pub record Latch : Type 0 where
  pub is_closed : AtomicBool
  pub waiting : List ℕ
  pub entering : List ℕ
  pub passed : List ℕ

unfoldable pub new_latch : Bool → Latch
new_latch is_closed = record {
  is_closed = new_bool is_closed;
  waiting = [];
  entering = [];
  passed = [];
}

-- The latch, and whether it changed. Opening it wakes all that wait.
unfoldable pub ca_swap : Latch → Bool → Latch × Bool
ca_swap l expect_is_closed =
    let (b, swapped) = cas_bool l.is_closed expect_is_closed in
    if not swapped
    then (l, false)
    else if is_false b
    then (record l { is_closed = b; waiting = []; entering = l.entering ++ l.waiting }, true)
    else (record l { is_closed = b }, true)

unfoldable pub open_latch : Latch → Latch
unfolding ca_swap
open_latch l = if is_true l.is_closed then (ca_swap l true).0 else l

unfoldable pub ca_open : Latch → Latch × Bool
unfolding ca_swap
ca_open l = if is_false l.is_closed then (l, false) else ca_swap l true

unfoldable pub close_latch : Latch → Latch
unfolding ca_swap
close_latch l = if is_false l.is_closed then (ca_swap l false).0 else l

unfoldable pub ca_close : Latch → Latch × Bool
unfolding ca_swap
ca_close l = if is_true l.is_closed then (l, false) else ca_swap l false

unfoldable pub is_opened : Latch → Bool
is_opened l = not (bool_value l.is_closed)

unfoldable pub is_closed_latch : Latch → Bool
is_closed_latch l = bool_value l.is_closed

-- A goroutine calls Wait: it returns at once from an open latch, else it goes for the lock.
unfoldable pub wait : Latch → ℕ → Latch
wait l g =
    if is_false l.is_closed
    then record l { passed = l.passed ++ g ∷ [] }
    else record l { entering = l.entering ++ g ∷ [] }

-- A goroutine that goes for the lock has it: one turn of the loop of Wait.
unfoldable pub turn : Latch → ℕ → Latch
turn l g =
    if not (has_key ℕ_discrete g l.entering)
    then l
    else if is_true l.is_closed
    then record l { entering = del_key ℕ_discrete g l.entering; waiting = l.waiting ++ g ∷ [] }
    else record l { entering = del_key ℕ_discrete g l.entering; passed = l.passed ++ g ∷ [] }

-- What goroutines do to a latch.
pub data Act : Type 0 where
  opens : Act
  closes : Act
  swaps : Bool → Act
  waits : ℕ → Act
  turns : ℕ → Act

unfoldable pub act : Latch → Act → Latch
unfolding open_latch close_latch ca_swap wait turn
act l opens = open_latch l
act l closes = close_latch l
act l (swaps expect) = (ca_swap l expect).0
act l (waits g) = wait l g
act l (turns g) = turn l g

unfoldable pub acts : Latch → List Act → Latch
acts l [] = l
acts l (a ∷ later) = acts (act l a) later
