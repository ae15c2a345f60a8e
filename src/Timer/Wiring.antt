-- ===== src/Timer/Wiring.antt =====
-- How the buckets of the time wheel point into the task objects (async/timer.go).
use b_go_util.Base.{
  ℕ, ◌<◌, ◌≡◌, refl, Option, none, some, [], arith, length, get_elem?, dec_lt, get_or_out, get_or,
  get_or-set, get, delete, DistinctKeys, delete-DistinctKeys, get-delete, length-set, ℕ_discrete,
  ite, if_pos, if_neg,
}
use b_go_util.Timer.{Task, Timer, bucket, del_task}

module _ {K V : Type 0} (dec : Discrete K) where
  -- The entry of key `k` in bucket `i`.
  abbrev pub entry : Timer K V → ℕ → K → Option ℕ
  entry e i k = get dec k (bucket e i)

  -- What an object that an entry points to must be.
  abbrev pub Fits : Timer K V → ℕ → K → ℕ → Type 0
  Fits e i k p =
      (task : Task K V) × (get_elem? e.heap p ≡ some task) × (task.key ≡ k) × (task.bucket_idx ≡ i)

  abbrev pub Named : Timer K V → K → ℕ → Type 0
  Named e k p = (task : Task K V) × (get_elem? e.heap p ≡ some task) × (task.key ≡ k)

  -- The wheel's sizes; every entry of a bucket points to an object with the entry's key and
  -- the bucket's index; a bucket has one entry for a key; and the map of tasks gives each key an
  -- object with that key.
  pub record IsWired (e : Timer K V) : Type 0 where
    pub slots : length e.buckets ≡ e.buckets_num
    pub current : e.current_bucket_idx < e.buckets_num
    pub points : (i : ℕ) (k : K) (p : ℕ) → entry e i k ≡ some p → Fits e i k p
    pub distinct : (i : ℕ) → DistinctKeys dec (bucket e i)
    pub named : (k : K) (p : ℕ) → get dec k e.tasks ≡ some p → Named e k p

  -- Deleting a task empties the entry of its key in its bucket, and leaves the other entries.
  pub entry-del_task :
      (e : Timer K V) (task : Task K V) (i : ℕ) (k : K)
      → task.bucket_idx < length e.buckets
      → entry (del_task dec e task) i k
        ≡ ite (ℕ_discrete task.bucket_idx i) (ite (dec k task.key) none (entry e i k)) (entry e i k)
  unfolding del_task bucket
  entry-del_task e task i k h =
      rw
        (get_or-set e.buckets task.bucket_idx i
          (delete dec task.key (get_or e.buckets task.bucket_idx [])) [] h)
        (elim (ℕ_discrete task.bucket_idx i) [
          | yes p ↦
              rw (if_pos _ p, if_pos _ p, ← p)
                (get-delete dec task.key k (get_or e.buckets task.bucket_idx []))
          | no n ↦ rw (if_neg _ n, if_neg _ n)
        ])

  pub heap-del_task : (e : Timer K V) (task : Task K V) → (del_task dec e task).heap ≡ e.heap
  unfolding del_task
  heap-del_task e task = refl

  -- There are entries in range only.
  pub entry-lt : (e : Timer K V) (i p : ℕ) (k : K) → entry e i k ≡ some p → i < length e.buckets
  unfolding bucket get
  entry-lt e i p k h = elim (dec_lt i (length e.buckets)) [
    | yes l ↦ l
    | no n ↦ absurd (ground (arith, get_or_out e.buckets i [] (omega arith)))
  ]

  -- The parts of the wheel that no task changes.
  abbrev pub SameWheel : Timer K V → Timer K V → Type 0
  SameWheel d e =
      (length d.buckets ≡ length e.buckets)
      × (d.buckets_num ≡ e.buckets_num)
      × (d.current_bucket_idx ≡ e.current_bucket_idx)
      × (d.period ≡ e.period)

  pub del_task-SameWheel : (e : Timer K V) (task : Task K V) → SameWheel (del_task dec e task) e
  unfolding del_task
  del_task-SameWheel e task = (length-set e.buckets _ _, refl, refl, refl)

  pub del_task-distinct :
      (e : Timer K V) (task : Task K V)
      → task.bucket_idx < length e.buckets
      → ((i : ℕ) → DistinctKeys dec (bucket e i))
      → (i : ℕ) → DistinctKeys dec (bucket (del_task dec e task) i)
  unfolding del_task bucket
  del_task-distinct e task h d i =
      rw
        (get_or-set e.buckets task.bucket_idx i
          (delete dec task.key (get_or e.buckets task.bucket_idx [])) [] h)
        (elim (ℕ_discrete task.bucket_idx i) [
          | yes p ↦ rw (if_pos _ p) (delete-DistinctKeys dec task.key _ (d task.bucket_idx))
          | no n ↦ rw (if_neg _ n) (d i)
        ])

  pub del_task-Named :
      (e : Timer K V) (task : Task K V) (k : K) (p : ℕ)
      → get dec k (del_task dec e task).tasks ≡ some p
      → get dec k e.tasks ≡ some p
  unfolding del_task
  del_task-Named e task k p h = ground (arith, get-delete dec task.key k e.tasks)
