-- ===== src/Timer/Due.antt =====
-- How many ticks a task of the time wheel still waits for (async/timer.go).
use native.Mathlib.Nat.{mod-lt, mod-eq_of_lt, mod-eq-sub-mod, mod-add-mod, div-add-mod'}
use b_go_util.Base.{
  dec_lt, ℕ, zero, suc, ◌+◌, ◌-◌, ◌*◌, ◌/◌, ◌%◌, ◌<◌, ◌≡◌, ◌≢◌, refl, sym, ◌∙◌, ap, ◌⊎◌, inl, inr,
  arith, if◌then◌else◌, leb, ◌==◌,
}
use b_go_util.Timer.{Task, Timer, advance}
use b_go_util.Timer.Wiring.{SameWheel}

-- From bucket `c` on, the wheel with `n` buckets comes to bucket `b` after this many steps.
unfoldable pub offset : ℕ → ℕ → ℕ → ℕ
offset b c n = if leb c b then b - c else b + n - c

-- The bucket after `c`.
abbrev pub next_bucket : ℕ → ℕ → ℕ
next_bucket c n = if c + 1 == n then 0 else c + 1

pub offset-next :
    (b c n : ℕ) → b < n → c < n → b ≢ c → offset b c n ≡ suc (offset b (next_bucket c n) n)
unfolding offset
offset-next b c n h k d = ground arith

offset_self : (c n : ℕ) → c < n → (offset c c n ≡ 0) × (suc (offset c (next_bucket c n) n) ≡ n)
unfolding offset
offset_self c n h = ground arith

offset-zero : (b c n : ℕ) → b < n → c < n → offset b c n ≡ 0 → b ≡ c
unfolding offset
offset-zero b c n h k z = ground arith

mul-zero : (r n : ℕ) → r * n ≡ 0 → 0 < n → r ≡ 0
mul-zero zero n h k = refl
mul-zero (suc r) n h k = absurd (omega arith)

-- A sum of two numbers below `n` wraps once at most.
add-mod_once :
    (r c n : ℕ) → r < n → c < n → ((r + c) % n ≡ r + c) × (r + c < n) ⊎ ((r + c) % n + n ≡ r + c)
add-mod_once r c n h k = elim (dec_lt (r + c) n) [
  | yes l ↦ inl (mod-eq_of_lt l, l)
  | no g ↦ inr (
      omega (
        arith,
        mod-eq-sub-mod {n = r + c} {m = n} (omega arith),
        mod-eq_of_lt {n = r + c - n} {m = n} (omega arith),
      ))
]

offset-sum : (r c n : ℕ) → r < n → c < n → offset ((r + c) % n) c n ≡ r
unfolding offset
offset-sum r c n h k = elim (add-mod_once r c n h k) [
  | inl (e, l) ↦ rw e (ground arith)
  | inr e ↦ ground arith
]

pub offset-position : (s c n : ℕ) → c < n → offset ((s + c) % n) c n ≡ s % n
offset-position s c n h =
    ap (λ m. offset m c n) (sym (mod-add-mod s n c))
    ∙ offset-sum (s % n) c n (mod-lt s (omega arith)) h

mul-pred : (r n : ℕ) → 0 < r → r * n ≡ (r - 1) * n + n
mul-pred zero n h = absurd (omega arith)
mul-pred (suc r) n h = rw (sub-suc r) (omega arith)
  where
    sub-suc : (m : ℕ) → suc m - 1 ≡ m
    sub-suc m = omega arith

module _ {K V : Type 0} where
  -- Full rounds, and then the way to the task's bucket.
  unfoldable pub due : Timer K V → Task K V → ℕ
  due e task =
      task.round * e.buckets_num + offset task.bucket_idx e.current_bucket_idx e.buckets_num

  -- A task whose position does not overflow is put where it is due after as many ticks as whole periods fit into its delay.
  abbrev pub placed_task : Timer K V → Task K V → Task K V
  placed_task e task = record task {
    bucket_idx = (task.delay / e.period + e.current_bucket_idx) % e.buckets_num;
    round = task.delay / e.period / e.buckets_num;
  }

  pub due-placed_task :
      (e : Timer K V) (task : Task K V)
      → e.current_bucket_idx < e.buckets_num
      → due e (placed_task e task) ≡ task.delay / e.period
  unfolding due
  due-placed_task e task h = omega (
    arith,
    div-add-mod' (task.delay / e.period) e.buckets_num,
    offset-position (task.delay / e.period) e.current_bucket_idx e.buckets_num h,
  )

module _ {K V : Type 0} where
  pub countdown :
      (e : Timer K V) (task : Task K V) (d : ℕ)
      → due e task ≡ suc d
      → offset task.bucket_idx e.current_bucket_idx e.buckets_num
        ≡ suc
            (offset task.bucket_idx (next_bucket e.current_bucket_idx e.buckets_num) e.buckets_num)
      → task.round * e.buckets_num
          + offset task.bucket_idx (next_bucket e.current_bucket_idx e.buckets_num) e.buckets_num
        ≡ d
  unfolding due
  countdown e task d h o = omega arith

  pub countdown_round :
      (e : Timer K V) (task : Task K V) (d : ℕ)
      → due e task ≡ suc d
      → task.bucket_idx ≡ e.current_bucket_idx
      → 0 < task.round
      → e.current_bucket_idx < e.buckets_num
      → (task.round - 1) * e.buckets_num
          + offset task.bucket_idx (next_bucket e.current_bucket_idx e.buckets_num) e.buckets_num
        ≡ d
  unfolding due
  countdown_round e task d h here n c = rw here (
      omega (
        arith,
        rw here at h,
        offset_self e.current_bucket_idx e.buckets_num c,
        mul-pred task.round e.buckets_num n,
      ))

  pub not_due :
      (e : Timer K V) (task : Task K V) (d : ℕ)
      → due e task ≡ suc d
      → task.bucket_idx ≡ e.current_bucket_idx
      → task.round ≡ 0
      → e.current_bucket_idx < e.buckets_num
      → ⊥
  unfolding due
  not_due e task d h here z c =
      omega (arith, rw (here, z) at h, offset_self e.current_bucket_idx e.buckets_num c)

  -- Nothing is left to wait for: the wheel stands at the task's bucket, in the last round.
  pub due_now :
      (e : Timer K V) (task : Task K V)
      → due e task ≡ 0
      → task.bucket_idx < e.buckets_num
      → e.current_bucket_idx < e.buckets_num
      → (task.bucket_idx ≡ e.current_bucket_idx) × (task.round ≡ 0)
  unfolding due
  due_now e task h b c = (
    offset-zero task.bucket_idx e.current_bucket_idx e.buckets_num b c (omega arith),
    mul-zero task.round e.buckets_num (omega arith) (omega arith),
  )

  pub due-advance :
      (dec : Discrete K) (d e : Timer K V) (task : Task K V)
      → SameWheel dec d e
      → due (advance dec d) task
        ≡ task.round * e.buckets_num
          + offset task.bucket_idx (next_bucket e.current_bucket_idx e.buckets_num) e.buckets_num
  unfolding due advance
  due-advance dec d e task (_, n, c, _) = rw (n, c)

  pub due_same :
      (d e : Timer K V) (task : Task K V)
      → d.buckets_num ≡ e.buckets_num
      → d.current_bucket_idx ≡ e.current_bucket_idx
      → due d task ≡ due e task
  unfolding due
  due_same d e task n c = rw (n, c)

  pub due_here :
      (e : Timer K V) (task : Task K V)
      → task.bucket_idx ≡ e.current_bucket_idx
      → task.round ≡ 0
      → e.current_bucket_idx < e.buckets_num
      → due e task ≡ 0
  unfolding due
  due_here e task here z c =
      rw (here, z) (omega (arith, offset_self e.current_bucket_idx e.buckets_num c))
