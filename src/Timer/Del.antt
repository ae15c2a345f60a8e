-- ===== src/Timer/Del.antt =====
-- The `delCh` case of `run`, and `onPut`, which marks the old task the same way (async/timer.go).
use b_go_util.Base.{
  ℕ, ◌/◌, ◌≡◌, ◌≢◌, refl, ◌∙◌, ap, ◌⊎◌, inl, inr, true, false, none, some, List, arith, length,
  get_elem?, set, length-set, get_elem?-set_self, get_elem?-set_ne, get_elem?-lt, ℕ_discrete, get,
  Option-cases,
}
use b_go_util.Timer.{Task, Timer, bucket, set_removed, on_del, on_put}
use b_go_util.Timer.Wiring.{Fits, Named, IsWired}
use b_go_util.Timer.Due.{due_same, placed_task, due-placed_task}
use b_go_util.Timer.Pending.{IsPending}
use b_go_util.Timer.Put.{filed, filed-IsWired, filed_new, filed_other}
use b_go_util.Timer.Position.{IsExact, put_task_cases, put_task_placed, placed_task-lt}

module _ {K V : Type 0} where
  abbrev pub mark : Task K V → Task K V
  mark s = record s { removed = true }

  set_removed_lem :
      (heap : List (Task K V)) (p : ℕ) (s : Task K V)
      → get_elem? heap p ≡ some s
      → set_removed heap p ≡ set heap p (mark s)
  unfolding set_removed
  set_removed_lem heap p s h = rw (h, set_removed) refl

  length-set_removed : (heap : List (Task K V)) (p : ℕ) → length (set_removed heap p) ≡ length heap
  unfolding set_removed
  length-set_removed heap p = elim (Option-cases (get_elem? heap p)) [
    | inl n ↦ rw (n, set_removed) refl
    | inr (s, h) ↦ rw (h, set_removed) (length-set heap p _)
  ]

  -- Marking an object changes no other, and of its own only the mark.
  pub get_elem?-set_removed :
      (heap : List (Task K V)) (p q : ℕ) (s t : Task K V)
      → get_elem? heap p ≡ some s
      → get_elem? heap q ≡ some t
      → ((p ≡ q) × (get_elem? (set_removed heap p) q ≡ some (mark t)))
        ⊎ ((p ≢ q) × (get_elem? (set_removed heap p) q ≡ some t))
  get_elem?-set_removed heap p q s t h g = rw (set_removed_lem heap p s h) (elim (ℕ_discrete p q) [
    | yes same ↦
        inl
          (same, rw (← same) (get_elem?-set_self heap p _ (get_elem?-lt heap p s h) ∙ ground arith))
    | no apart ↦ inr (apart, get_elem?-set_ne heap p q _ apart ∙ g)
  ])

module _ {K V : Type 0} (dec : Discrete K) where
  -- Either the key has no task, or its object is marked and nothing else changes.
  pub on_del_cases :
      (e : Timer K V) (key : K)
      → ((get dec key e.tasks ≡ none) × (on_del dec e key ≡ e))
        ⊎ ((p : ℕ) × (get dec key e.tasks ≡ some p)
            × (on_del dec e key ≡ record e { heap = set_removed e.heap p }))
  unfolding on_del
  on_del_cases e key = elim (Option-cases (get dec key e.tasks)) [
    | inl n ↦ inl (n, rw (n, on_del))
    | inr (p, h) ↦ inr (p, h, rw (h, on_del))
  ]

  pub on_del_absent : (e : Timer K V) (key : K) → get dec key e.tasks ≡ none → on_del dec e key ≡ e
  on_del_absent e key h = elim (on_del_cases e key) [ inl (_, o) ↦ o | inr (p, g, _) ↦ absurd (cc) ]

  Fits-set_removed :
      (e : Timer K V) (p q i : ℕ) (k : K) (s : Task K V)
      → get_elem? e.heap p ≡ some s
      → Fits dec e i k q
      → Fits dec (record e { heap = set_removed e.heap p }) i k q
  Fits-set_removed e p q i k s h (t, ht, kt, it) =
      elim (get_elem?-set_removed e.heap p q s t h ht) [
        | inl (_, g) ↦ (mark t, g, kt, it)
        | inr (_, g) ↦ (t, g, kt, it)
      ]

  Named-set_removed :
      (e : Timer K V) (p q : ℕ) (k : K) (s : Task K V)
      → get_elem? e.heap p ≡ some s
      → Named dec e k q
      → Named dec (record e { heap = set_removed e.heap p }) k q
  Named-set_removed e p q k s h (t, ht, kt) = elim (get_elem?-set_removed e.heap p q s t h ht) [
    | inl (_, g) ↦ (mark t, g, kt)
    | inr (_, g) ↦ (t, g, kt)
  ]

  pub on_del-IsWired : (e : Timer K V) (key : K) → IsWired dec e → IsWired dec (on_del dec e key)
  unfolding bucket
  on_del-IsWired e key w = elim (on_del_cases e key) [
    | inl (_, o) ↦ rw o w
    | inr (p, h, o) ↦
        let (s, hs, _) = w.named key p h in
        rw o (record {
          slots = w.slots;
          current = w.current;
          points = λ i k q a. Fits-set_removed e p q i k s hs (w.points i k q a);
          distinct = w.distinct;
          named = λ k q a. Named-set_removed e p q k s hs (w.named k q a);
        })
  ]

  -- Deleting a key leaves the tasks of other keys waiting.
  pub on_del_other :
      (e : Timer K V) (key k : K) (q d : ℕ) (t : Task K V)
      → IsWired dec e
      → k ≢ key
      → IsPending dec e k q d t
      → IsPending dec (on_del dec e key) k q d t
  unfolding bucket
  on_del_other e key k q d t w other a = elim (on_del_cases e key) [
    | inl (_, o) ↦ rw o a
    | inr (p, h, o) ↦
        let (s, hs, ks) = w.named key p h in
        rw o (record {
          at = elim (get_elem?-set_removed e.heap p q s t hs a.at) [
            | inl (same, _) ↦ absurd (other (cc))
            | inr (_, g) ↦ g
          ];
          keyed = a.keyed;
          placed = a.placed;
          live = a.live;
          on_time = due_same (record e { heap = set_removed e.heap p }) e t refl refl ∙ a.on_time;
        })
  ]

  on_del-wheel :
      (e : Timer K V) (key : K)
      → (length (on_del dec e key).heap ≡ length e.heap)
        × ((on_del dec e key).period ≡ e.period)
        × ((on_del dec e key).buckets_num ≡ e.buckets_num)
  on_del-wheel e key = elim (on_del_cases e key) [
    | inl (_, o) ↦ rw o (refl, refl, refl)
    | inr (p, _, o) ↦ rw o (length-set_removed e.heap p, refl, refl)
  ]

  pub on_del-sizes :
      (e : Timer K V) (key : K)
      → ((on_del dec e key).period ≡ e.period) × ((on_del dec e key).buckets_num ≡ e.buckets_num)
  on_del-sizes e key = let (_, p, n) = on_del-wheel e key in (p, n)

  -- What `onPut` does to the wheel: unless it panics it stays wired; a new task whose position is exact
  -- waits for as many ticks as whole periods fit into its delay; and the tasks of other keys wait on as
  -- before.
  pub on_put-IsWired :
      (e : Timer K V) (task : Task K V)
      → IsWired dec e
      → (on_put dec e task ≡ none)
        ⊎ ((e' : Timer K V) × (on_put dec e task ≡ some e') × IsWired dec e')
  unfolding on_put
  on_put-IsWired e task w =
      let v = on_del-IsWired e task.key w in
      elim (put_task_cases dec (on_del dec e task.key) task v) [
        | inl h ↦ inl h
        | inr (i, l, h) ↦ inr (_, h, filed-IsWired dec (on_del dec e task.key) _ v l)
      ]

  -- The wheel after a put whose position is exact.
  abbrev pub after_put : Timer K V → Task K V → Timer K V
  after_put e task = filed dec (on_del dec e task.key) (placed_task (on_del dec e task.key) task)

  pub on_put_exact :
      (e : Timer K V) (task : Task K V)
      → IsWired dec e
      → IsExact e task
      → on_put dec e task ≡ some (after_put e task)
  unfolding on_put
  on_put_exact e task w x =
      let (p, n) = on_del-sizes e task.key in
      put_task_placed dec (on_del dec e task.key) task (on_del-IsWired e task.key w) (rw (p, n) x)

  pub after_put-IsWired :
      (e : Timer K V) (task : Task K V) → IsWired dec e → IsWired dec (after_put e task)
  after_put-IsWired e task w =
      let v = on_del-IsWired e task.key w in
      filed-IsWired dec (on_del dec e task.key) _ v
        (placed_task-lt dec (on_del dec e task.key) task v)

  pub after_put-sizes :
      (e : Timer K V) (task : Task K V)
      → ((after_put e task).period ≡ e.period) × ((after_put e task).buckets_num ≡ e.buckets_num)
  unfolding filed
  after_put-sizes e task = on_del-sizes e task.key

  -- The same task under equal numbers.
  pub IsPending-of :
      (e : Timer K V) (k : K) {q r c d : ℕ} (t : Task K V)
      → q ≡ r
      → c ≡ d
      → IsPending dec e k q c t
      → IsPending dec e k r d t
  IsPending-of e k t p o a = rw (← p, ← o) a

  pub after_put_new :
      (e : Timer K V) (task : Task K V)
      → task.removed ≡ false
      → IsWired dec e
      → IsPending dec
          (after_put e task)
          task.key
          (length e.heap)
          (task.delay / e.period)
          (placed_task (on_del dec e task.key) task)
  after_put_new e task live w =
      let e' = on_del dec e task.key in
      let v = on_del-IsWired e task.key w in
      let (n, p, _) = on_del-wheel e task.key in
      IsPending-of (after_put e task) task.key (placed_task e' task) n
        (due-placed_task e' task v.current ∙ ap (λ m. task.delay / m) p)
        (filed_new dec e' (placed_task e' task) live v (placed_task-lt dec e' task v))

  pub after_put_other :
      (e : Timer K V) (task : Task K V) (k : K) (q d : ℕ) (t : Task K V)
      → IsWired dec e
      → k ≢ task.key
      → IsPending dec e k q d t
      → IsPending dec (after_put e task) k q d t
  after_put_other e task k q d t w other a =
      let v = on_del-IsWired e task.key w in
      filed_other dec (on_del dec e task.key) _ k q d t v
        (placed_task-lt dec (on_del dec e task.key) task v) other
        (on_del_other e task.key k q d t w other a)
