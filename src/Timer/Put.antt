-- ===== src/Timer/Put.antt =====
-- `onPut` and the `delCh` case of `run`: what they keep, and where a new task goes (async/timer.go).
use b_go_util.Base.{
  ℕ, ◌<◌, ◌≡◌, ◌≢◌, refl, sym, ◌∙◌, ◌⊎◌, inl, inr, false, some, [], ◌∷◌, ◌++◌, arith, length, set,
  get_elem?, get_or, get_or-set, length-set, get_elem?-lt, get_elem?-append, get_elem?-length,
  ℕ_discrete, ite, if_pos, if_neg, get, put, get-put, put-DistinctKeys, DistinctKeys,
}
use b_go_util.Timer.{Task, Timer, bucket}
use b_go_util.Timer.Wiring.{entry, Fits, Named, IsWired}
use b_go_util.Timer.Due.{due, due_same}
use b_go_util.Timer.Pending.{IsPending}

module _ {K V : Type 0} (dec : Discrete K) where
  -- The wheel with an object filed in the bucket of its index.
  unfoldable pub filed : Timer K V → Task K V → Timer K V
  unfolding bucket
  filed e task =
      let p = length e.heap in
      record e {
        heap = e.heap ++ task ∷ [];
        tasks = put dec task.key p e.tasks;
        buckets = set e.buckets task.bucket_idx (put dec task.key p (bucket e task.bucket_idx));
      }

  in_wheel :
      (e : Timer K V) (task : Task K V)
      → IsWired dec e
      → task.bucket_idx < e.buckets_num
      → task.bucket_idx < length e.buckets
  in_wheel e task w h = omega (arith, w.slots)

  entry-filed :
      (e : Timer K V) (task : Task K V) (i : ℕ) (k : K)
      → task.bucket_idx < length e.buckets
      → entry dec (filed e task) i k
        ≡ ite
            (ℕ_discrete task.bucket_idx i)
            (ite (dec k task.key) (some (length e.heap)) (entry dec e i k))
            (entry dec e i k)
  unfolding filed
  entry-filed e task i k h =
      rw
        (get_or-set e.buckets task.bucket_idx i
          (put dec task.key (length e.heap) (get_or e.buckets task.bucket_idx [])) [] h)
        (elim (ℕ_discrete task.bucket_idx i) [
          | yes p ↦
              rw (if_pos _ p, if_pos _ p, ← p)
                (get-put dec task.key k (length e.heap) (get_or e.buckets task.bucket_idx []))
          | no n ↦ rw (if_neg _ n, if_neg _ n)
        ])

  heap-filed :
      (e : Timer K V) (task : Task K V)
      → (get_elem? (filed e task).heap (length e.heap) ≡ some task)
        × ((q : ℕ) (s : Task K V)
            → get_elem? e.heap q ≡ some s
            → get_elem? (filed e task).heap q ≡ some s)
  unfolding filed
  heap-filed e task = (
    get_elem?-length e.heap task,
    λ q s h. get_elem?-append e.heap _ q (get_elem?-lt e.heap q s h) ∙ h,
  )

  filed-distinct :
      (e : Timer K V) (task : Task K V) (i : ℕ)
      → task.bucket_idx < length e.buckets
      → ((j : ℕ) → DistinctKeys dec (bucket e j))
      → DistinctKeys dec (bucket (filed e task) i)
  unfolding filed
  filed-distinct e task i h d =
      rw
        (get_or-set e.buckets task.bucket_idx i
          (put dec task.key (length e.heap) (get_or e.buckets task.bucket_idx [])) [] h)
        (elim (ℕ_discrete task.bucket_idx i) [
          | yes p ↦ rw (if_pos _ p) (put-DistinctKeys dec task.key _ _ (d task.bucket_idx))
          | no n ↦ rw (if_neg _ n) (d i)
        ])

  tasks-filed :
      (e : Timer K V) (task : Task K V) (k : K)
      → get dec k (filed e task).tasks
        ≡ ite (dec k task.key) (some (length e.heap)) (get dec k e.tasks)
  unfolding filed
  tasks-filed e task k = get-put dec task.key k (length e.heap) e.tasks

  wheel-filed :
      (e : Timer K V) (task : Task K V)
      → (length (filed e task).buckets ≡ length e.buckets)
        × ((filed e task).buckets_num ≡ e.buckets_num)
        × ((filed e task).current_bucket_idx ≡ e.current_bucket_idx)
  unfolding filed
  wheel-filed e task = (length-set e.buckets _ _, refl, refl)

  filed_cases :
      (e : Timer K V) (task : Task K V) (i : ℕ) (k : K) (p : ℕ)
      → task.bucket_idx < length e.buckets
      → entry dec (filed e task) i k ≡ some p
      → (task.bucket_idx ≡ i) × (k ≡ task.key) × (length e.heap ≡ p) ⊎ (entry dec e i k ≡ some p)
  filed_cases e task i k p h q = ground (arith, entry-filed e task i k h)

  filed-points :
      (e : Timer K V) (task : Task K V) (i : ℕ) (k : K) (p : ℕ)
      → IsWired dec e
      → task.bucket_idx < e.buckets_num
      → entry dec (filed e task) i k ≡ some p
      → Fits dec (filed e task) i k p
  filed-points e task i k p w b h = elim (filed_cases e task i k p (in_wheel e task w b) h) [
    | inl (here, same, new) ↦ (task, rw (← new) (heap-filed e task).0, sym same, here)
    | inr old ↦
        let (s, hs, ks, is) = w.points i k p old in (s, (heap-filed e task).1 p s hs, ks, is)
  ]

  named_cases :
      (e : Timer K V) (task : Task K V) (k : K) (p : ℕ)
      → get dec k (filed e task).tasks ≡ some p
      → (k ≡ task.key) × (length e.heap ≡ p) ⊎ (get dec k e.tasks ≡ some p)
  named_cases e task k p h = ground (arith, tasks-filed e task k)

  filed-Named :
      (e : Timer K V) (task : Task K V) (k : K) (p : ℕ)
      → IsWired dec e
      → task.bucket_idx < e.buckets_num
      → get dec k (filed e task).tasks ≡ some p
      → Named dec (filed e task) k p
  filed-Named e task k p w b h = elim (named_cases e task k p h) [
    | inl (same, new) ↦ (task, rw (← new) (heap-filed e task).0, sym same)
    | inr old ↦ let (s, hs, ks) = w.named k p old in (s, (heap-filed e task).1 p s hs, ks)
  ]

  pub filed-IsWired :
      (e : Timer K V) (task : Task K V)
      → IsWired dec e
      → task.bucket_idx < e.buckets_num
      → IsWired dec (filed e task)
  filed-IsWired e task w b = record {
    slots = omega (arith, w.slots, wheel-filed e task);
    current = omega (arith, w.current, wheel-filed e task);
    points = λ i k p. filed-points e task i k p w b;
    distinct = λ i. filed-distinct e task i (in_wheel e task w b) w.distinct;
    named = λ k p. filed-Named e task k p w b;
  }

  due-filed : (e : Timer K V) (task s : Task K V) → due (filed e task) s ≡ due e s
  due-filed e task s = let (_, n, c) = wheel-filed e task in due_same (filed e task) e s n c

  pub filed_new :
      (e : Timer K V) (task : Task K V)
      → task.removed ≡ false
      → IsWired dec e
      → task.bucket_idx < e.buckets_num
      → IsPending dec (filed e task) task.key (length e.heap) (due e task) task
  filed_new e task live w b = record {
    at = (heap-filed e task).0;
    keyed = refl;
    placed =
        entry-filed e task task.bucket_idx task.key (in_wheel e task w b)
        ∙ rw (if_pos (ℕ_discrete task.bucket_idx task.bucket_idx) refl)
            (if_pos (dec task.key task.key) refl _ _);
    live = live;
    on_time = due-filed e task task;
  }

  pub filed_other :
      (e : Timer K V) (task : Task K V) (k : K) (q d : ℕ) (s : Task K V)
      → IsWired dec e
      → task.bucket_idx < e.buckets_num
      → k ≢ task.key
      → IsPending dec e k q d s
      → IsPending dec (filed e task) k q d s
  filed_other e task k q d s w b other a = record {
    at = (heap-filed e task).1 q s a.at;
    keyed = a.keyed;
    placed =
        entry-filed e task s.bucket_idx k (in_wheel e task w b)
        ∙ rw (if_neg (dec k task.key) other) (ground (arith, a.placed));
    live = a.live;
    on_time = due-filed e task s ∙ a.on_time;
  }
