-- ===== src/Timer/Pending.antt =====
-- What a tick does to the tasks that wait (async/timer.go).
use b_go_util.Base.{
  ℕ, suc, ◌-◌, ◌<◌, ◌≡◌, ◌≢◌, refl, sym, ◌∙◌, ap, inl, inr, true, false, none, some, List, [], ◌∷◌,
  true_and_false, arith, get_elem?, ℕ_discrete, has_key,
}
use b_go_util.Timer.{Task, Timer, bucket, tick_loop, advance, on_tick}
use b_go_util.Timer.Wiring.{entry, entry-lt, IsWired}
use b_go_util.Timer.Sweep.{Live-bucket, tick_loop-IsWired, tick_loop-other, tick_loop-Visited}
use b_go_util.Timer.Due.{
  due, offset-next, countdown, countdown_round, not_due, due_now, due-advance,
}

module _ {K V : Type 0} (dec : Discrete K) where
  -- The task object `q`, put under key `k` with this value and repetition, is in its bucket, not
  -- removed, and due after `d` ticks.
  pub record IsPending (e : Timer K V) (k : K) (q d : ℕ) (task : Task K V) : Type 0 where
    pub at : get_elem? e.heap q ≡ some task
    pub keyed : task.key ≡ k
    pub placed : entry dec e task.bucket_idx k ≡ some q
    pub live : task.removed ≡ false
    pub on_time : due e task ≡ d

  pub on_tick-loop :
      (e : Timer K V)
      → on_tick dec e ≡ (
        advance dec (tick_loop dec (bucket e e.current_bucket_idx) (e, [])).0,
        (tick_loop dec (bucket e e.current_bucket_idx) (e, [])).1,
      )
  unfolding on_tick tick_loop
  on_tick-loop e = go (bucket e e.current_bucket_idx) refl
    where
      go :
          (es : List (K × ℕ))
          → bucket e e.current_bucket_idx ≡ es
          → on_tick dec e ≡ (advance dec (tick_loop dec es (e, [])).0, (tick_loop dec es (e, [])).1)
      go [] h = rw (h, on_tick) refl
      go (x ∷ es) h = rw (h, on_tick) (ground arith)

  entry-advance : (e : Timer K V) (i : ℕ) (k : K) → entry dec (advance dec e) i k ≡ entry dec e i k
  unfolding advance bucket
  entry-advance e i k = refl

  heap-advance : (e : Timer K V) (q : ℕ) → get_elem? (advance dec e).heap q ≡ get_elem? e.heap q
  unfolding advance
  heap-advance e q = refl

  pub advance-IsWired : (e : Timer K V) → IsWired dec e → IsWired dec (advance dec e)
  unfolding advance bucket
  advance-IsWired e w = record {
    slots = w.slots;
    current = ground (arith, w.current);
    points = w.points;
    distinct = w.distinct;
    named = w.named;
  }

  pub on_tick-IsWired : (e : Timer K V) → IsWired dec e → IsWired dec (on_tick dec e).0
  on_tick-IsWired e w = rw (on_tick-loop e) (
      advance-IsWired _
        (tick_loop-IsWired dec e [] e.current_bucket_idx _ w
          (Live-bucket dec e e.current_bucket_idx w) (w.distinct e.current_bucket_idx)).0)

  slot-lt :
      (e : Timer K V) (k : K) (q d : ℕ) (task : Task K V)
      → IsWired dec e
      → IsPending e k q d task
      → task.bucket_idx < e.buckets_num
  slot-lt e k q d task w a = omega (arith, entry-lt dec e task.bucket_idx q k a.placed, w.slots)

  -- The loop over another bucket: the task waits one tick less.
  IsPending-away :
      (e : Timer K V) (k : K) (q d : ℕ) (task : Task K V)
      → IsWired dec e
      → IsPending e k q (suc d) task
      → task.bucket_idx ≢ e.current_bucket_idx
      → IsPending (on_tick dec e).0 k q d task × (has_key ℕ_discrete q (on_tick dec e).1 ≡ false)
  unfolding has_key
  IsPending-away e k q d task w a away =
      let c = e.current_bucket_idx in
      let after = (tick_loop dec (bucket e c) (e, [])).0 in
      let live = Live-bucket dec e c w in
      let (o1, o2, o3) =
        tick_loop-other dec e [] c task.bucket_idx q k (bucket e c) w live (w.distinct c)
          (task, a.at, a.keyed, refl) (inl (λ same. away (sym same))) in
      rw (on_tick-loop e) (
        record {
          at = heap-advance _ q ∙ o2 ∙ a.at;
          keyed = a.keyed;
          placed = entry-advance _ task.bucket_idx k ∙ o1 ∙ a.placed;
          live = a.live;
          on_time =
              due-advance dec _ e task
                (tick_loop-IsWired dec e [] c (bucket e c) w live (w.distinct c)).1
              ∙ countdown e task d a.on_time (
                  offset-next task.bucket_idx c e.buckets_num (slot-lt e k q (suc d) task w a)
                    w.current away);
        },
        o3,
      )

  -- The loop over the task's own bucket: a round less.
  IsPending-here :
      (e : Timer K V) (k : K) (q d : ℕ) (task : Task K V)
      → IsWired dec e
      → IsPending e k q (suc d) task
      → task.bucket_idx ≡ e.current_bucket_idx
      → IsPending (on_tick dec e).0 k q d (record task { round = task.round - 1 })
        × (has_key ℕ_discrete q (on_tick dec e).1 ≡ false)
  unfolding has_key
  IsPending-here e k q d task w a here =
      let c = e.current_bucket_idx in
      let after = (tick_loop dec (bucket e c) (e, [])).0 in
      let live = Live-bucket dec e c w in
      let there : entry dec e c k ≡ some q = ap (λ i. entry dec e i k) (sym here) ∙ a.placed in
      rw (on_tick-loop e)
        (elim (tick_loop-Visited dec e [] c q k task (bucket e c) w live (w.distinct c) there there
          a.at a.keyed here refl) [
            | inl (r, _, _, _) ↦ absurd (true_and_false r a.live)
            | inr (inl (r, n, g, h, f)) ↦ (
              record {
                at = heap-advance _ q ∙ h;
                keyed = a.keyed;
                placed = entry-advance _ task.bucket_idx k ∙ ap (λ i. entry dec after i k) here ∙ g;
                live = a.live;
                on_time =
                    due-advance dec _ e (record task { round = task.round - 1 })
                      (tick_loop-IsWired dec e [] c (bucket e c) w live (w.distinct c)).1
                    ∙ countdown_round e task d a.on_time here n w.current;
              },
              f,
            )
            | inr (inr (r, z, _, _, _)) ↦ absurd (not_due e task d a.on_time here z w.current)
          ])

  -- Every task that is still waited for is one tick nearer, and is not run yet.
  pub on_tick-IsPending :
      (e : Timer K V) (k : K) (q d : ℕ) (task : Task K V)
      → IsWired dec e
      → IsPending e k q (suc d) task
      → (r : ℕ) × IsPending (on_tick dec e).0 k q d (record task { round = r })
        × (has_key ℕ_discrete q (on_tick dec e).1 ≡ false)
  on_tick-IsPending e k q d task w a = elim (ℕ_discrete task.bucket_idx e.current_bucket_idx) [
    | yes here ↦ let (p, f) = IsPending-here e k q d task w a here in (task.round - 1, p, f)
    | no away ↦ let (p, f) = IsPending-away e k q d task w a away in (task.round, p, f)
  ]

  -- A task that is due runs at the tick: it is handed to `runTasks` once, and its entry is gone.
  pub on_tick_due :
      (e : Timer K V) (k : K) (q : ℕ) (task : Task K V)
      → IsWired dec e
      → IsPending e k q 0 task
      → (has_key ℕ_discrete q (on_tick dec e).1 ≡ true)
        × (get_elem? (on_tick dec e).0.heap q ≡ some task)
        × (entry dec (on_tick dec e).0 task.bucket_idx k ≡ none)
  unfolding has_key
  on_tick_due e k q task w a =
      let c = e.current_bucket_idx in
      let after = (tick_loop dec (bucket e c) (e, [])).0 in
      let (here, z) = due_now e task a.on_time (slot-lt e k q 0 task w a) w.current in
      let there : entry dec e c k ≡ some q = ap (λ i. entry dec e i k) (sym here) ∙ a.placed in
      rw (on_tick-loop e)
        (elim (tick_loop-Visited dec e [] c q k task (bucket e c) w (Live-bucket dec e c w)
          (w.distinct c) there there a.at a.keyed here refl) [
            | inl (r, _, _, _) ↦ absurd (true_and_false r a.live)
            | inr (inl (r, n, _, _, _)) ↦ absurd (omega arith)
            | inr (inr (r, _, g, h, f)) ↦ (
              f,
              heap-advance _ q ∙ h,
              entry-advance _ task.bucket_idx k ∙ ap (λ i. entry dec after i k) here ∙ g,
            )
          ])
