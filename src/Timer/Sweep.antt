-- ===== src/Timer/Sweep.antt =====
-- The whole loop of `onTick` over the current bucket (async/timer.go).
use b_go_util.Base.{
  ℕ, ◌-◌, ◌<◌, ◌≡◌, ◌≢◌, refl, sym, ◌∙◌, ap, ◌⊎◌, inl, inr, true, false, none, some, List, [], ◌∷◌,
  arith, length, get_elem?, get_elem?-set_self, get_elem?-lt, ℕ_discrete, has_key, has_key-append,
  get, keys, DistinctKeys, has_key-keys,
}
use b_go_util.Timer.{Task, Timer, bucket, del_task, tick_task, tick_loop}
use b_go_util.Timer.Wiring.{
  entry, entry-lt, Fits, IsWired, SameWheel, entry-del_task, heap-del_task,
}
use b_go_util.Timer.Frame.{
  tick_task-Outcome, tick_task-other, tick_task-IsWired, tick_task-SameWheel,
}

module _ {K V : Type 0} (dec : Discrete K) where
  -- The entries that are still to be visited stand in the bucket.
  abbrev pub Live : Timer K V → ℕ → List (K × ℕ) → Type 0
  Live e i [] = Unit
  Live e i ((k, p) ∷ es) = (entry dec e i k ≡ some p) × Live e i es

  pub Live-tick_task :
      (e : Timer K V) (fired : List ℕ) (i p : ℕ) (k : K) (es : List (K × ℕ))
      → IsWired dec e
      → entry dec e i k ≡ some p
      → has_key dec k (keys es) ≡ false
      → Live e i es
      → Live (tick_task dec p (e, fired)).0 i es
  unfolding has_key
  Live-tick_task e fired i p k [] w a d v = tt
  Live-tick_task e fired i p k ((l, q) ∷ es) w a d v = (
    (tick_task-other dec e fired i i p q k l w a (w.points i l q v.0) (ground arith)).0 ∙ v.0,
    Live-tick_task e fired i p k es w a (ground arith) v.1,
  )

  pub tick_loop-IsWired :
      (e : Timer K V) (fired : List ℕ) (i : ℕ) (es : List (K × ℕ))
      → IsWired dec e
      → Live e i es
      → DistinctKeys dec es
      → IsWired dec (tick_loop dec es (e, fired)).0
        × SameWheel dec (tick_loop dec es (e, fired)).0 e
  unfolding tick_loop
  tick_loop-IsWired e fired i [] w v d = (w, (refl, refl, refl, refl))
  tick_loop-IsWired e fired i ((k, p) ∷ es) w v d =
      let s = tick_task dec p (e, fired) in
      let (task, hp, _, _) = w.points i k p v.0 in
      let (w', same) =
        tick_loop-IsWired s.0 s.1 i es (tick_task-IsWired dec e fired i p k w v.0)
          (Live-tick_task e fired i p k es w v.0 d.0 v.1) d.1 in
      (w', ground (arith, same, tick_task-SameWheel dec e fired p task hp))

  -- Entries that the loop does not visit, their objects, and whether these are to run.
  pub tick_loop-other :
      (e : Timer K V) (fired : List ℕ) (i j q : ℕ) (l : K) (es : List (K × ℕ))
      → IsWired dec e
      → Live e i es
      → DistinctKeys dec es
      → Fits dec e j l q
      → (i ≢ j) ⊎ (has_key dec l (keys es) ≡ false)
      → let s = tick_loop dec es (e, fired) in
        (entry dec s.0 j l ≡ entry dec e j l)
        × (get_elem? s.0.heap q ≡ get_elem? e.heap q)
        × (has_key ℕ_discrete q s.1 ≡ has_key ℕ_discrete q fired)
  unfolding tick_loop has_key
  tick_loop-other e fired i j q l [] w v d f a = (refl, refl, refl)
  tick_loop-other e fired i j q l ((k, p) ∷ es) w v d f a =
      let s = tick_task dec p (e, fired) in
      let (b1, b2, b3) = tick_task-other dec e fired i j p q k l w v.0 f (ground arith) in
      let (c1, c2, c3) =
        tick_loop-other s.0 s.1 i j q l es (tick_task-IsWired dec e fired i p k w v.0)
          (Live-tick_task e fired i p k es w v.0 d.0 v.1) d.1 (f.0, b2 ∙ f.1, f.2, f.3)
          (ground arith) in
      (c1 ∙ b1, c2 ∙ b2, c3 ∙ b3)

  -- What becomes of an object whose entry is visited.
  abbrev pub Visited : Timer K V × List ℕ → ℕ → K → ℕ → Task K V → Type 0
  Visited s i l q task =
      ((task.removed ≡ true)
        × (entry dec s.0 i l ≡ none)
        × (get_elem? s.0.heap q ≡ some task)
        × (has_key ℕ_discrete q s.1 ≡ false))
      ⊎ ((task.removed ≡ false)
          × (0 < task.round)
          × (entry dec s.0 i l ≡ some q)
          × (get_elem? s.0.heap q ≡ some (record task { round = task.round - 1 }))
          × (has_key ℕ_discrete q s.1 ≡ false))
      ⊎ ((task.removed ≡ false)
          × (task.round ≡ 0)
          × (entry dec s.0 i l ≡ none)
          × (get_elem? s.0.heap q ≡ some task)
          × (has_key ℕ_discrete q s.1 ≡ true))

  tick_task-Visited :
      (e : Timer K V) (fired : List ℕ) (i q : ℕ) (l : K) (task : Task K V)
      → IsWired dec e
      → entry dec e i l ≡ some q
      → get_elem? e.heap q ≡ some task
      → task.key ≡ l
      → task.bucket_idx ≡ i
      → has_key ℕ_discrete q fired ≡ false
      → Visited (tick_task dec q (e, fired)) i l q task
  unfolding has_key bucket
  tick_task-Visited e fired i q l task w a h ek ei f =
      let room : task.bucket_idx < length e.buckets = rw ei (entry-lt dec e i q l a) in
      let gone : entry dec (del_task dec e task) i l ≡ none =
        entry-del_task dec e task i l room ∙ ground arith in
      let kept : get_elem? (del_task dec e task).heap q ≡ some task =
        ap (λ g. get_elem? g q) (heap-del_task dec e task) ∙ h in
      elim (tick_task-Outcome dec e fired q task h) [
        | inl (r, o) ↦ inl (r, rw o gone, rw o kept, rw o f)
        | inr (inl (r, n, o)) ↦ inr (
            inl (
              r,
              n,
              rw o a,
              rw o (get_elem?-set_self e.heap q _ (get_elem?-lt e.heap q task h)),
              rw o f,
            ))
        | inr (inr (r, z, o)) ↦ inr (
            inr (
              r,
              z,
              rw o gone,
              rw o kept,
              rw o (ground (arith, has_key-append ℕ_discrete q fired (q ∷ []))),
            ))
      ]

  -- What the rest of the loop leaves alone stays as it is.
  Visited-other :
      (s t : Timer K V × List ℕ) (i q : ℕ) (l : K) (task : Task K V)
      → Visited s i l q task
      → (Fits dec s.0 i l q
          → (entry dec t.0 i l ≡ entry dec s.0 i l)
            × (get_elem? t.0.heap q ≡ get_elem? s.0.heap q)
            × (has_key ℕ_discrete q t.1 ≡ has_key ℕ_discrete q s.1))
      → task.key ≡ l
      → task.bucket_idx ≡ i
      → Visited t i l q task
  Visited-other s t i q l task (inl (r, g, h, f)) k ek ei =
      let (k1, k2, k3) = k (task, h, ek, ei) in inl (r, k1 ∙ g, k2 ∙ h, k3 ∙ f)
  Visited-other s t i q l task (inr (inl (r, n, g, h, f))) k ek ei =
      let (k1, k2, k3) = k (record task { round = task.round - 1 }, h, ek, ei) in
      inr (inl (r, n, k1 ∙ g, k2 ∙ h, k3 ∙ f))
  Visited-other s t i q l task (inr (inr (r, z, g, h, f))) k ek ei =
      let (k1, k2, k3) = k (task, h, ek, ei) in inr (inr (r, z, k1 ∙ g, k2 ∙ h, k3 ∙ f))

  -- The loop visits an entry of the bucket once.
  pub tick_loop-Visited :
      (e : Timer K V) (fired : List ℕ) (i q : ℕ) (l : K) (task : Task K V) (es : List (K × ℕ))
      → IsWired dec e
      → Live e i es
      → DistinctKeys dec es
      → get dec l es ≡ some q
      → entry dec e i l ≡ some q
      → get_elem? e.heap q ≡ some task
      → task.key ≡ l
      → task.bucket_idx ≡ i
      → has_key ℕ_discrete q fired ≡ false
      → Visited (tick_loop dec es (e, fired)) i l q task
  unfolding tick_loop get
  tick_loop-Visited e fired i q l task [] w v d g a h ek ei f = absurd (cc)
  tick_loop-Visited e fired i q l task ((k, p) ∷ es) w v d g a h ek ei f =
      let s = tick_task dec p (e, fired) in
      let w' = tick_task-IsWired dec e fired i p k w v.0 in
      let v' = Live-tick_task e fired i p k es w v.0 d.0 v.1 in
      elim (dec l k) [
        | yes same ↦
            let here : p ≡ q = ground arith in
            Visited-other s (tick_loop dec es (s.0, s.1)) i q l task
              (rw here (tick_task-Visited e fired i q l task w a h ek ei f))
              (λ fits. tick_loop-other s.0 s.1 i i q l es w' v' d.1 fits (inr (rw same d.0))) ek ei
        | no apart ↦
            let (k1, k2, k3) =
              tick_task-other dec e fired i i p q k l w v.0 (task, h, ek, ei)
                (inr (λ b. apart (sym b))) in
            tick_loop-Visited s.0 s.1 i q l task es w' v' d.1 (ground arith) (k1 ∙ a) (k2 ∙ h) ek ei
              (k3 ∙ f)
      ]

  Live-cons :
      (m es : List (K × ℕ)) (e : Timer K V) (i : ℕ)
      → bucket e i ≡ m
      → ((k : K) (p : ℕ) → get dec k es ≡ some p → get dec k m ≡ some p)
      → DistinctKeys dec es
      → Live e i es
  unfolding get
  Live-cons m [] e i b f d = tt
  Live-cons m ((k, p) ∷ es) e i b f d = (
    rw b (f k p (elim (dec k k) [ yes same ↦ ground arith | no n ↦ absurd (n refl) ])),
    Live-cons m es e i b (λ j r g. f j r (ground (arith, g, d.0, has_key-keys dec k es))) d.1,
  )

  pub Live-bucket : (e : Timer K V) (i : ℕ) → IsWired dec e → Live e i (bucket e i)
  Live-bucket e i w = Live-cons (bucket e i) (bucket e i) e i refl (λ k p h. h) (w.distinct i)
