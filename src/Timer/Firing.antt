-- ===== src/Timer/Firing.antt =====
-- When the handler of a task is called (async/timer.go).
use b_go_util.Base.{ℕ, suc, ◌≢◌, List, [], ◌∷◌}
use b_go_util.Timer.{Timer}
use b_go_util.Timer.Run.{Event, tick, put, del, close}

module _ {K V : Type 0} (dec : Discrete K) where
  -- Events that do not put or delete the key, and are no close.
  abbrev pub Elsewhere : K → List (Event K V) → Type 0
  Elsewhere k [] = Unit
  Elsewhere k (tick ∷ evs) = Elsewhere k evs
  Elsewhere k (put task ∷ evs) = (k ≢ task.key) × Elsewhere k evs
  Elsewhere k (del key ∷ evs) = (k ≢ key) × Elsewhere k evs
  Elsewhere k (close ∷ evs) = ⊥

  abbrev pub ticks : List (Event K V) → ℕ
  ticks [] = 0
  ticks (tick ∷ evs) = suc (ticks evs)
  ticks (put _ ∷ evs) = ticks evs
  ticks (del _ ∷ evs) = ticks evs
  ticks (close ∷ evs) = ticks evs
