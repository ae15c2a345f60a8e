-- ===== src/Timer/Position.antt =====
-- `resetTaskPosition` and `putTask`: the bucket of a new task, whose index is a sum of ints
-- (async/timer.go).
use native.Mathlib.Nat.{mod-lt}
use b_go_util.Base.{
  ℕ, ◌+◌, ◌/◌, ◌%◌, ◌^◌, ◌<◌, ◌≡◌, ◌⊎◌, inl, inr, refl, none, some, arith, Option-cases,
}
use b_go_util.Timer.{Task, Timer, bucket_index, reset_task_position, put_task}
use b_go_util.Timer.Wiring.{IsWired}
use b_go_util.Timer.Due.{placed_task}
use b_go_util.Timer.Put.{filed}

bucket_index-lt : (steps current n i : ℕ) → 0 < n → bucket_index steps current n ≡ some i → i < n
unfolding bucket_index
bucket_index-lt steps current n i p h =
    ground (arith, mod-lt ((steps + current) % 2 ^ 64) {m = n} p, h)

bucket_index_small :
    (steps current n : ℕ)
    → steps + current < 2 ^ 63
    → bucket_index steps current n ≡ some ((steps + current) % n)
unfolding bucket_index
bucket_index_small steps current n h =
    let exact : (steps + current) % 2 ^ 64 ≡ steps + current = omega arith in
    rw (bucket_index, exact) (ground arith)

module _ {K V : Type 0} where
  -- A put whose position is exact: steps + currentBucketIdx is an int.
  abbrev pub IsExact : Timer K V → Task K V → Type 0
  IsExact e task = task.delay / e.period + e.buckets_num < 2 ^ 63

module _ {K V : Type 0} (dec : Discrete K) where
  -- Either the index of the bucket is negative, or the new object is filed in a bucket of the wheel.
  pub put_task_cases :
      (e : Timer K V) (task : Task K V)
      → IsWired dec e
      → (put_task dec e task ≡ none)
        ⊎ ((i : ℕ) × (i < e.buckets_num)
            × (put_task dec e task
                ≡ some (
                    filed dec e (record task {
                      bucket_idx = i;
                      round = task.delay / e.period / e.buckets_num;
                    }))))
  unfolding put_task reset_task_position filed
  put_task_cases e task w =
      elim (Option-cases
        (bucket_index (task.delay / e.period) e.current_bucket_idx e.buckets_num)) [
          | inl h ↦ inl (rw (put_task, reset_task_position, h) refl)
          | inr (i, h) ↦ inr (
            i,
            bucket_index-lt (task.delay / e.period) e.current_bucket_idx e.buckets_num i
                (omega (arith, w.current)) h,
            rw (put_task, reset_task_position, h) refl,
          )
        ]

  pub put_task_placed :
      (e : Timer K V) (task : Task K V)
      → IsWired dec e
      → IsExact e task
      → put_task dec e task ≡ some (filed dec e (placed_task e task))
  unfolding put_task reset_task_position filed
  put_task_placed e task w x =
      let h =
        bucket_index_small (task.delay / e.period) e.current_bucket_idx e.buckets_num
          (omega (arith, w.current)) in
      rw (put_task, reset_task_position, h) refl

  pub placed_task-lt :
      (e : Timer K V) (task : Task K V)
      → IsWired dec e
      → (placed_task e task).bucket_idx < e.buckets_num
  placed_task-lt e task w =
      mod-lt (task.delay / e.period + e.current_bucket_idx) {m = e.buckets_num}
        (omega (arith, w.current))
