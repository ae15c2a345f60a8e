-- ===== src/Latch/Tests.antt =====
-- The theorem on latches at a concrete run.
use b_go_util.Base.{◌≡◌, true, List, [], ◌∷◌, ◌++◌, ℕ_discrete, has_key}
use b_go_util.Latch.{new_latch, open_latch, is_opened, turn, acts, waits, turns, closes, opens, Act}
use b_go_util.Latch.Wakeups.{waiter_passes}

-- Goroutine 1 waits, is woken, and finds the latch closed again.
abbrev again : List Act
again = turns 1 ∷ opens ∷ closes ∷ turns 1 ∷ []

waiter_passes_example :
    ((open_latch (acts (new_latch true) ((waits 2 ∷ []) ++ waits 1 ∷ again))).waiting ≡ [])
    × (is_opened (open_latch (acts (new_latch true) ((waits 2 ∷ []) ++ waits 1 ∷ again))) ≡ true)
    × (has_key ℕ_discrete 1
          (turn (open_latch (acts (new_latch true) ((waits 2 ∷ []) ++ waits 1 ∷ again))) 1).passed
        ≡ true)
waiter_passes_example = waiter_passes true (waits 2 ∷ []) again 1
