-- ===== src/Signals/Tests.antt =====
-- The theorems on blockers and done channels at concrete runs.
use b_go_util.Base.{ℕ, ◌≡◌, none, some, List, [], ◌∷◌}
use b_go_util.Signals.{
  Blocker, new_blocker, new_blocker_of, Change, puts, removes, changes, Closers, new_done,
  close_steps, swaps, closes, CloseStep,
}
use b_go_util.Signals.Blocking.{left, Shows, blocker_refines}
use b_go_util.Signals.Closing.{IsClosedOnce, closed_once}

abbrev calls : List (Change ℕ)
calls = removes ∷ puts (some 3) ∷ removes ∷ puts none ∷ []

blocker_refines_example :
    ((b : Blocker ℕ) × (changes new_blocker calls ≡ some b) × Shows b (left none calls))
    × ((b : Blocker ℕ) × (changes (new_blocker_of (some 7)) calls ≡ some b)
        × Shows b (left (some (some 7)) calls))
blocker_refines_example = blocker_refines (some 7) calls

abbrev closing : List CloseStep
closing = swaps 1 ∷ swaps 2 ∷ closes 2 ∷ closes 1 ∷ closes 1 ∷ []

closed_once_example :
    (c : Closers) × (close_steps
        (record { channel = new_done; closing = []; returned = [] })
        closing
      ≡ some c)
    × IsClosedOnce c
closed_once_example = closed_once closing
