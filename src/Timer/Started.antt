-- ===== src/Timer/Started.antt =====
-- Which tasks a tick starts, and what it does to the map of tasks (async/timer.go).
use b_go_util.Base.{
  ℕ, suc, ◌≡◌, ◌↔◌, refl, sym, ◌∙◌, ap, ◌⊎◌, inl, inr, true, none, some, List, [], ◌∷◌, arith,
  get_elem?, ℕ_discrete, has_key, has_key-append, get, get-delete, DistinctKeys, has_key-keys,
  true_and_false,
}
use b_go_util.Timer.{Task, Timer, bucket, del_task, tick_task, tick_loop, advance, on_tick, on_del}
use b_go_util.Timer.Wiring.{entry, IsWired}
use b_go_util.Timer.Frame.{tick_task-Outcome, tick_task-other, tick_task-IsWired}
use b_go_util.Timer.Sweep.{Live, Live-tick_task, Live-bucket, tick_loop-Visited}
use b_go_util.Timer.Due.{due_here}
use b_go_util.Timer.Pending.{IsPending, on_tick-loop, on_tick_due, on_tick-IsPending}
use b_go_util.Timer.Del.{on_del_absent}

module _ {K V : Type 0} (dec : Discrete K) where
  tick_task_started :
      (e : Timer K V) (fired : List ℕ) (p q : ℕ) (task : Task K V)
      → get_elem? e.heap p ≡ some task
      → has_key ℕ_discrete q (tick_task dec p (e, fired)).1 ≡ true
      → (has_key ℕ_discrete q fired ≡ true) ⊎ (p ≡ q)
  unfolding has_key
  tick_task_started e fired p q task h g = elim (tick_task-Outcome dec e fired p task h) [
    | inl (_, o) ↦ inl (rw o at g)
    | inr (inl (_, _, o)) ↦ inl (rw o at g)
    | inr (inr (_, _, o)) ↦
        let k = rw o at g in ground (arith, k, has_key-append ℕ_discrete q fired (p ∷ []))
  ]

  -- What the loop starts stands in the bucket.
  tick_loop_started :
      (e : Timer K V) (fired : List ℕ) (i q : ℕ) (es : List (K × ℕ))
      → IsWired dec e
      → Live dec e i es
      → DistinctKeys dec es
      → has_key ℕ_discrete q (tick_loop dec es (e, fired)).1 ≡ true
      → (has_key ℕ_discrete q fired ≡ true) ⊎ ((k : K) × (get dec k es ≡ some q))
  unfolding tick_loop get
  tick_loop_started e fired i q [] w v d h = inl h
  tick_loop_started e fired i q ((k, p) ∷ es) w v d h =
      let s = tick_task dec p (e, fired) in
      let (task, hp, _, _) = w.points i k p v.0 in
      elim (tick_loop_started s.0 s.1 i q es (tick_task-IsWired dec e fired i p k w v.0)
        (Live-tick_task dec e fired i p k es w v.0 d.0 v.1) d.1 h) [
          | inl f ↦ elim (tick_task_started e fired p q task hp f) [
            | inl old ↦ inl old
            | inr new ↦ inr (k, elim (dec k k) [ yes e ↦ ground arith | no n ↦ absurd (n refl) ])
          ]
          | inr (l, g) ↦ inr (l, ground (arith, g, d.0, has_key-keys dec k es))
        ]

  -- A key that has no task stays without; one whose entry is visited and removed loses it.
  tick_task-tasks :
      (e : Timer K V) (fired : List ℕ) (p : ℕ) (l : K) (task : Task K V)
      → get_elem? e.heap p ≡ some task
      → (get dec l e.tasks ≡ none) ⊎ ((task.removed ≡ true) × (task.key ≡ l))
      → get dec l (tick_task dec p (e, fired)).0.tasks ≡ none
  unfolding del_task
  tick_task-tasks e fired p l task h a = elim (tick_task-Outcome dec e fired p task h) [
    | inl (_, o) ↦ rw o (ground (arith, get-delete dec task.key l e.tasks))
    | inr (inl (r, _, o)) ↦ rw o (ground (arith, true_and_false {b = task.removed}))
    | inr (inr (r, _, o)) ↦ rw o (ground (arith, get-delete dec task.key l e.tasks))
  ]

  tick_loop-tasks :
      (e : Timer K V) (fired : List ℕ) (i : ℕ) (l : K) (es : List (K × ℕ))
      → IsWired dec e
      → Live dec e i es
      → DistinctKeys dec es
      → get dec l e.tasks ≡ none
      → get dec l (tick_loop dec es (e, fired)).0.tasks ≡ none
  unfolding tick_loop
  tick_loop-tasks e fired i l [] w v d a = a
  tick_loop-tasks e fired i l ((k, p) ∷ es) w v d a =
      let s = tick_task dec p (e, fired) in
      let (task, hp, _, _) = w.points i k p v.0 in
      tick_loop-tasks s.0 s.1 i l es (tick_task-IsWired dec e fired i p k w v.0)
        (Live-tick_task dec e fired i p k es w v.0 d.0 v.1) d.1
        (tick_task-tasks e fired p l task hp (inl a))

  tick_loop_loses :
      (e : Timer K V) (fired : List ℕ) (i q : ℕ) (l : K) (old : Task K V) (es : List (K × ℕ))
      → IsWired dec e
      → Live dec e i es
      → DistinctKeys dec es
      → get dec l es ≡ some q
      → get_elem? e.heap q ≡ some old
      → old.key ≡ l
      → old.bucket_idx ≡ i
      → old.removed ≡ true
      → get dec l (tick_loop dec es (e, fired)).0.tasks ≡ none
  unfolding tick_loop get
  tick_loop_loses e fired i q l old [] w v d g h ek ei r = absurd (cc)
  tick_loop_loses e fired i q l old ((k, p) ∷ es) w v d g h ek ei r =
      let s = tick_task dec p (e, fired) in
      let w' = tick_task-IsWired dec e fired i p k w v.0 in
      let v' = Live-tick_task dec e fired i p k es w v.0 d.0 v.1 in
      elim (dec l k) [
        | yes same ↦
            let here : p ≡ q = ground arith in
            tick_loop-tasks s.0 s.1 i l es w' v' d.1
              (tick_task-tasks e fired p l old (rw here h) (inr (r, ek)))
        | no apart ↦
            tick_loop_loses s.0 s.1 i q l old es w' v' d.1 (ground arith)
              ((tick_task-other dec e fired i i p q k l w v.0 (old, h, ek, ei)
                  (inr (λ b. apart (sym b)))).1
                ∙ h)
              ek ei r
      ]

  tasks-advance : (e : Timer K V) (l : K) → get dec l (advance dec e).tasks ≡ get dec l e.tasks
  unfolding advance
  tasks-advance e l = refl

  visited_due :
      (e : Timer K V) (q : ℕ) (k : K)
      → IsWired dec e
      → get dec k (bucket e e.current_bucket_idx) ≡ some q
      → has_key ℕ_discrete q (tick_loop dec (bucket e e.current_bucket_idx) (e, [])).1 ≡ true
      → (task : Task K V) × IsPending dec e k q 0 task
  unfolding has_key
  visited_due e q k w g h =
      let c = e.current_bucket_idx in
      let (task, hq, ek, ei) = w.points c k q g in
      elim (tick_loop-Visited dec e [] c q k task (bucket e c) w (Live-bucket dec e c w)
        (w.distinct c) g g hq ek ei refl) [
          | inl (_, _, _, f) ↦ absurd (true_and_false h f)
          | inr (inl (_, _, _, _, f)) ↦ absurd (true_and_false h f)
          | inr (inr (r, z, _, _, _)) ↦ (
            task,
            record {
              at = hq;
              keyed = ek;
              placed = ap (λ i. entry dec e i k) ei ∙ g;
              live = r;
              on_time = due_here e task ei z w.current;
            },
          )
        ]

  -- A tick of a wired wheel starts exactly the tasks that are in a bucket, not removed, and have no
  -- more tick to wait for; in particular no deleted and no superseded task.
  pub on_tick_starts_iff :
      (e : Timer K V) (q : ℕ)
      → IsWired dec e
      → (has_key ℕ_discrete q (on_tick dec e).1 ≡ true)
        ↔ ((k : K) × (task : Task K V) × IsPending dec e k q 0 task)
  unfolding has_key
  on_tick_starts_iff e q w = (
    λ h.
        let c = e.current_bucket_idx in
        let h' : has_key ℕ_discrete q (tick_loop dec (bucket e c) (e, [])).1 ≡ true =
          rw (on_tick-loop dec e) at h in
        elim (tick_loop_started e [] c q (bucket e c) w (Live-bucket dec e c w) (w.distinct c) h') [
          | inl never ↦ absurd (cc)
          | inr (k, g) ↦ let (task, a) = visited_due e q k w g h' in (k, task, a)
        ],
    λ (k, task, a). (on_tick_due dec e k q task w a).0,
  )

  -- When the tick meets a removed object in its bucket, the key loses its place in the map of tasks,
  -- although a newer task of that key may wait in another bucket: a delete of the key after this
  -- tick changes nothing, and the newer task waits on.
  pub superseded_shields :
      (e : Timer K V) (k : K) (p q d : ℕ) (old new : Task K V)
      → IsWired dec e
      → entry dec e e.current_bucket_idx k ≡ some p
      → get_elem? e.heap p ≡ some old
      → old.removed ≡ true
      → IsPending dec e k q (suc d) new
      → let e' = (on_tick dec e).0 in
        (get dec k e'.tasks ≡ none)
        × (on_del dec e' k ≡ e')
        × ((r : ℕ) × IsPending dec (on_del dec e' k) k q d (record new { round = r }))
  superseded_shields e k p q d old new w a h r b =
      let c = e.current_bucket_idx in
      let (s, hs, ks, is) = w.points c k p a in
      let lost : get dec k (on_tick dec e).0.tasks ≡ none = rw (on_tick-loop dec e) (
        tasks-advance (tick_loop dec (bucket e c) (e, [])).0 k
        ∙ tick_loop_loses e [] c p k old (bucket e c) w (Live-bucket dec e c w) (w.distinct c) a h
            (ground arith) (ground arith) r) in
      let same = on_del_absent dec (on_tick dec e).0 k lost in
      let (n, pending, _) = on_tick-IsPending dec e k q d new w b in
      (lost, same, (n, rw same pending))
