-- ===== src/Timer/Reached.antt =====
-- The states that the executor reaches (async/timer.go).
use b_go_util.Base.{
  ℕ, ◌+◌, ◌/◌, ◌^◌, ◌<◌, ◌≡◌, ◌⊎◌, inl, inr, refl, ap, ◌∙◌, ltb, Bool, true, false, ◌&&◌, none,
  some, List, [], ◌∷◌, arith, replicate, get_or-replicate, length-replicate, get, Bool-cases,
}
use b_go_util.Timer.{
  Task, Timer, bucket, new_timer, del_task, tick_task, tick_loop, advance, on_tick, on_del,
}
use b_go_util.Timer.Wiring.{IsWired}
use b_go_util.Timer.Pending.{on_tick-IsWired}
use b_go_util.Timer.Del.{
  on_del-IsWired, on_put-IsWired, on_put_exact, after_put, after_put-IsWired, after_put-sizes,
  on_del-sizes,
}
use b_go_util.Timer.Run.{Event, tick, put, del, close, on_closed, run}

module _ {K V : Type 0} where
  abbrev pub empty_wheel : ℕ → ℕ → Timer K V
  empty_wheel period buckets_num = record {
    heap = [];
    tasks = [];
    buckets = replicate buckets_num [];
    buckets_num = buckets_num;
    current_bucket_idx = 0;
    period = period;
    has_closed_handler = false;
    close_done = false;
    run_done = false;
  }

module _ {K V : Type 0} (dec : Discrete K) where
  pub empty_wheel-IsWired : (period n : ℕ) → 0 < n → IsWired {V = V} dec (empty_wheel period n)
  unfolding bucket get
  empty_wheel-IsWired period n h = record {
    slots = length-replicate n [];
    current = h;
    points = λ i k p a.
        absurd
          (nothing (rw (get_or-replicate n i (let none_in : List (K × ℕ) = [] in none_in)) at a));
    distinct = λ i. rw (get_or-replicate n i (let none_in : List (K × ℕ) = [] in none_in)) tt;
    named = λ k p a. absurd (nothing a);
  }
    where
      nothing : {p : ℕ} → none ≡ some p → ⊥
      nothing e = cc

  on_closed-IsWired : (e : Timer K V) → IsWired dec e → IsWired dec (on_closed e).0
  unfolding on_closed bucket
  on_closed-IsWired e w = record {
    slots = w.slots;
    current = w.current;
    points = w.points;
    distinct = w.distinct;
    named = w.named;
  }

  pub run-IsWired :
      (e : Timer K V) (evs : List (Event K V)) → IsWired dec e → IsWired dec (run dec e evs).state
  unfolding run
  run-IsWired e [] w = w
  run-IsWired e (tick ∷ evs) w = run-IsWired (on_tick dec e).0 evs (on_tick-IsWired dec e w)
  run-IsWired e (put task ∷ evs) w = elim (on_put-IsWired dec e task w) [
    | inl h ↦ rw (run, h) w
    | inr (e', h, w') ↦ rw (run, h) (run-IsWired e' evs w')
  ]
  run-IsWired e (del key ∷ evs) w = run-IsWired (on_del dec e key) evs (on_del-IsWired dec e key w)
  run-IsWired e (close ∷ evs) w = on_closed-IsWired e w

  -- Whether steps + bucketsNum is below 2^63 for each put, so that no position overflows.
  abbrev pub all_exact : ℕ → ℕ → List (Event K V) → Bool
  all_exact period n [] = true
  all_exact period n (tick ∷ evs) = all_exact period n evs
  all_exact period n (put task ∷ evs) =
      ltb (task.delay / period + n) (2 ^ 63) && all_exact period n evs
  all_exact period n (del key ∷ evs) = all_exact period n evs
  all_exact period n (close ∷ evs) = all_exact period n evs

  -- The numbers of the wheel that no event changes.
  abbrev pub SameSizes : Timer K V → Timer K V → Type 0
  SameSizes d e = (d.period ≡ e.period) × (d.buckets_num ≡ e.buckets_num)

  tick_task-SameSizes :
      (p : ℕ) (e : Timer K V) (fired : List ℕ) → SameSizes (tick_task dec p (e, fired)).0 e
  unfolding tick_task del_task
  tick_task-SameSizes p e fired = ground arith

  tick_loop-SameSizes :
      (es : List (K × ℕ)) (e : Timer K V) (fired : List ℕ)
      → SameSizes (tick_loop dec es (e, fired)).0 e
  unfolding tick_loop
  tick_loop-SameSizes [] e fired = (refl, refl)
  tick_loop-SameSizes ((k, p) ∷ es) e fired =
      let next = tick_task dec p (e, fired) in
      let (a, b) = tick_loop-SameSizes es next.0 next.1 in
      let (c, d) = tick_task-SameSizes p e fired in (a ∙ c, b ∙ d)

  pub on_tick-SameSizes : (e : Timer K V) → SameSizes (on_tick dec e).0 e
  unfolding on_tick advance
  on_tick-SameSizes e = ground (arith, tick_loop-SameSizes (bucket e e.current_bucket_idx) e [])

  pub run_put :
      (e : Timer K V) (task : Task K V) (evs : List (Event K V))
      → IsWired dec e
      → ltb (task.delay / e.period + e.buckets_num) (2 ^ 63) ≡ true
      → run dec e (put task ∷ evs) ≡ run dec (after_put dec e task) evs
  unfolding run
  run_put e task evs w x = rw (run, on_put_exact dec e task w (ground arith)) refl

  pub exact_of :
      (d e : Timer K V) (evs : List (Event K V))
      → SameSizes d e
      → all_exact e.period e.buckets_num evs ≡ true
      → all_exact d.period d.buckets_num evs ≡ true
  exact_of d e evs (p, n) x = rw (p, n) x

  exact_runs :
      (e : Timer K V) (evs : List (Event K V))
      → IsWired dec e
      → all_exact e.period e.buckets_num evs ≡ true
      → (run dec e evs).panicked ≡ false
  unfolding run
  exact_runs e [] w x = refl
  exact_runs e (tick ∷ evs) w x =
      exact_runs (on_tick dec e).0 evs (on_tick-IsWired dec e w)
        (exact_of (on_tick dec e).0 e evs (on_tick-SameSizes e) x)
  exact_runs e (put task ∷ evs) w x =
      ap (λ o. o.panicked) (run_put e task evs w (ground arith))
      ∙ exact_runs (after_put dec e task) evs (after_put-IsWired dec e task w)
          (exact_of (after_put dec e task) e evs (after_put-sizes dec e task) (ground arith))
  exact_runs e (del key ∷ evs) w x =
      exact_runs (on_del dec e key) evs (on_del-IsWired dec e key w)
        (exact_of (on_del dec e key) e evs (on_del-sizes dec e key) x)
  exact_runs e (close ∷ evs) w x = refl

  -- A new executor is made of a positive period and a positive number of buckets, and then after any
  -- events, up to a panic if there is one, every entry of a bucket points to an object with the entry's key
  -- and the bucket's index, a bucket has one entry for a key, the map of tasks gives each key an object with
  -- that key, and the current bucket is in range. None panics, unless delay / period + bucketsNum of some
  -- put is 2^63 or more, where steps + currentBucketIdx may overflow.
  pub reached-IsWired :
      (period buckets_num : ℕ) (evs : List (Event K V))
      → 0 < period
      → 0 < buckets_num
      → (e : Timer K V) × (new_timer period buckets_num ≡ some e)
        × IsWired dec (run dec e evs).state
        × (((run dec e evs).panicked ≡ false) ⊎ (all_exact period buckets_num evs ≡ false))
  unfolding new_timer
  reached-IsWired period n evs p h =
      let w = empty_wheel-IsWired period n h in
      (
        empty_wheel period n,
        ground arith,
        run-IsWired _ evs w,
        elim (Bool-cases (all_exact period n evs)) [
          | inl x ↦ inl (exact_runs (empty_wheel period n) evs w x)
          | inr x ↦ inr x
        ],
      )
