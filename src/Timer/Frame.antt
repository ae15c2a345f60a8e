-- ===== src/Timer/Frame.antt =====
-- One round of the loop of `onTick`, and what it leaves as it is (async/timer.go).
use b_go_util.Base.{
  ℕ, ◌-◌, ◌<◌, ◌≡◌, ◌≢◌, refl, ◌∙◌, ap, ◌⊎◌, inl, inr, true, false, some, List, [], ◌∷◌, ◌++◌,
  arith, length, get_elem?, set, get_elem?-set_self, get_elem?-set_ne, get_elem?-lt, ℕ_discrete,
  has_key, has_key-append,
}
use b_go_util.Timer.{Task, Timer, bucket, del_task, tick_task}
use b_go_util.Timer.Wiring.{
  entry, entry-lt, Fits, Named, del_task-distinct, del_task-Named, IsWired, entry-del_task,
  heap-del_task, SameWheel, del_task-SameWheel,
}

module _ {K V : Type 0} (dec : Discrete K) where
  -- Two entries that point to one object are one entry.
  pointers_differ :
      (e : Timer K V) {i j p q : ℕ} {k l : K}
      → Fits dec e i k p
      → Fits dec e j l q
      → (i ≢ j) ⊎ (k ≢ l)
      → p ≢ q
  pointers_differ e (s, hp, kp, ip) (t, hq, kq, iq) d same = ground arith

  -- The three branches of the loop's body.
  abbrev pub Outcome : Timer K V → List ℕ → ℕ → Task K V → Timer K V × List ℕ → Type 0
  Outcome e fired p task s =
      ((task.removed ≡ true) × (s ≡ (del_task dec e task, fired)))
      ⊎ ((task.removed ≡ false)
          × (0 < task.round)
          × (s
              ≡ (record e { heap = set e.heap p (record task { round = task.round - 1 }) }, fired)))
      ⊎ ((task.removed ≡ false) × (task.round ≡ 0) × (s ≡ (del_task dec e task, fired ++ p ∷ [])))

  pub tick_task-Outcome :
      (e : Timer K V) (fired : List ℕ) (p : ℕ) (task : Task K V)
      → get_elem? e.heap p ≡ some task
      → Outcome e fired p task (tick_task dec p (e, fired))
  unfolding tick_task
  tick_task-Outcome e fired p task h = rw (h, tick_task) (ground arith)

  del_task-other :
      (e : Timer K V) (task : Task K V) (j q : ℕ) (l : K)
      → task.bucket_idx < length e.buckets
      → (task.bucket_idx ≢ j) ⊎ (task.key ≢ l)
      → entry dec (del_task dec e task) j l ≡ entry dec e j l
  del_task-other e task j q l h d = entry-del_task dec e task j l h ∙ ground arith

  -- The round at an entry leaves every other entry alone, an object that belongs to another entry,
  -- and whether that is among the tasks to run.
  pub tick_task-other :
      (e : Timer K V) (fired : List ℕ) (i j p q : ℕ) (k l : K)
      → IsWired dec e
      → entry dec e i k ≡ some p
      → Fits dec e j l q
      → (i ≢ j) ⊎ (k ≢ l)
      → let s = tick_task dec p (e, fired) in
        (entry dec s.0 j l ≡ entry dec e j l)
        × (get_elem? s.0.heap q ≡ get_elem? e.heap q)
        × (has_key ℕ_discrete q s.1 ≡ has_key ℕ_discrete q fired)
  unfolding has_key bucket
  tick_task-other e fired i j p q k l w a f d =
      let (task, hp, kp, ip) = w.points i k p a in
      let apart = pointers_differ e (w.points i k p a) f d in
      let room : task.bucket_idx < length e.buckets = rw ip (entry-lt dec e i p k a) in
      let away : (task.bucket_idx ≢ j) ⊎ (task.key ≢ l) = ground arith in
      elim (tick_task-Outcome e fired p task hp) [
        | inl (r, o) ↦ rw o (
          del_task-other e task j q l room away,
          ap (λ h. get_elem? h q) (heap-del_task dec e task),
          refl,
        )
        | inr (inl (r, n, o)) ↦ rw o (refl, get_elem?-set_ne e.heap p q _ apart, refl)
        | inr (inr (r, z, o)) ↦ rw o (
          del_task-other e task j q l room away,
          ap (λ h. get_elem? h q) (heap-del_task dec e task),
          ground (arith, apart, has_key-append ℕ_discrete q fired (p ∷ [])),
        )
      ]

  Fits-set :
      (e : Timer K V) (i j p q r : ℕ) (k l : K) (task : Task K V)
      → get_elem? e.heap p ≡ some task
      → Fits dec e j l q
      → Fits dec (record e { heap = set e.heap p (record task { round = r }) }) j l q
  Fits-set e i j p q r k l task h (s, hq, kq, iq) = elim (ℕ_discrete p q) [
    | yes same ↦ (
      record task { round = r },
      rw (← same) (get_elem?-set_self e.heap p _ (get_elem?-lt e.heap p task h)),
      ground arith,
      ground arith,
    )
    | no apart ↦ (s, get_elem?-set_ne e.heap p q _ apart ∙ hq, kq, iq)
  ]

  Named-set :
      (e : Timer K V) (p q r : ℕ) (l : K) (task : Task K V)
      → get_elem? e.heap p ≡ some task
      → Named dec e l q
      → Named dec (record e { heap = set e.heap p (record task { round = r }) }) l q
  Named-set e p q r l task h (s, hq, kq) = elim (ℕ_discrete p q) [
    | yes same ↦ (
      record task { round = r },
      rw (← same) (get_elem?-set_self e.heap p _ (get_elem?-lt e.heap p task h)),
      ground arith,
    )
    | no apart ↦ (s, get_elem?-set_ne e.heap p q _ apart ∙ hq, kq)
  ]

  del_task-IsWired :
      (e : Timer K V) (task : Task K V)
      → task.bucket_idx < length e.buckets
      → IsWired dec e
      → IsWired dec (del_task dec e task)
  del_task-IsWired e task room w = record {
    slots = omega (arith, w.slots, del_task-SameWheel dec e task);
    current = omega (arith, w.current, del_task-SameWheel dec e task);
    points = λ i k p h.
        let (s, hs, ks, is) = w.points i k p (ground (arith, entry-del_task dec e task i k room)) in
        (s, ap (λ g. get_elem? g p) (heap-del_task dec e task) ∙ hs, ks, is);
    distinct = del_task-distinct dec e task room w.distinct;
    named = λ k p h.
        let (s, hs, ks) = w.named k p (del_task-Named dec e task k p h) in
        (s, ap (λ g. get_elem? g p) (heap-del_task dec e task) ∙ hs, ks);
  }

  pub tick_task-IsWired :
      (e : Timer K V) (fired : List ℕ) (i p : ℕ) (k : K)
      → IsWired dec e
      → entry dec e i k ≡ some p
      → IsWired dec (tick_task dec p (e, fired)).0
  unfolding bucket
  tick_task-IsWired e fired i p k w a =
      let (task, hp, kp, ip) = w.points i k p a in
      let room : task.bucket_idx < length e.buckets = rw ip (entry-lt dec e i p k a) in
      elim (tick_task-Outcome e fired p task hp) [
        | inl (r, o) ↦ rw o (del_task-IsWired e task room w)
        | inr (inl (r, n, o)) ↦ rw o (record {
          slots = w.slots;
          current = w.current;
          points = λ j l q b. Fits-set e i j p q (task.round - 1) k l task hp (w.points j l q b);
          distinct = w.distinct;
          named = λ l q b. Named-set e p q (task.round - 1) l task hp (w.named l q b);
        })
        | inr (inr (r, z, o)) ↦ rw o (del_task-IsWired e task room w)
      ]

  pub tick_task-SameWheel :
      (e : Timer K V) (fired : List ℕ) (p : ℕ) (task : Task K V)
      → get_elem? e.heap p ≡ some task
      → SameWheel dec (tick_task dec p (e, fired)).0 e
  tick_task-SameWheel e fired p task h = elim (tick_task-Outcome e fired p task h) [
    | inl (r, o) ↦ rw o (del_task-SameWheel dec e task)
    | inr (inl (r, n, o)) ↦ rw o (refl, refl, refl, refl)
    | inr (inr (r, z, o)) ↦ rw o (del_task-SameWheel dec e task)
  ]
