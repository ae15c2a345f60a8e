-- ===== src/Retry/Runs.antt =====
-- The runs of DoRetry in util/retry.go with a counter of NewRetryCounter.
use b_go_util.Base.{
  ℕ, zero, suc, pos, Bool, true, ◌&&◌, ◌⊎◌, Option, none, some, is_some, inl, inr, Option-cases,
  ◌≡◌, refl, sym, ap, ◌∙◌, arith, ◌+◌, ◌^◌, ◌<◌, ◌≤◌,
}
use b_go_util.Retry.{
  RetryCounter, new_step_retry_counter, new_retry_counter, next_interval, grown, do_retry,
}
use b_go_util.Retry.Intervals.{counter, wrap64_pos}

next_interval-fixed :
    (c m d : ℕ)
    → c < m
    → m < 2 ^ 63
    → next_interval (counter c m (suc d) 0 0) ≡ (counter (suc c) m (suc d) 0 0, pos (suc d))
unfolding next_interval grown
next_interval-fixed c m d l b = rw (wrap64_pos c 1 (omega arith)) (ground arith)

next_interval-last : (m d : ℕ) → 0 < m → (next_interval (counter m m (suc d) 0 0)).1 ≡ pos 0
unfolding next_interval
next_interval-last m d h = ground arith

new_fixed :
    (m d : ℕ) (r : RetryCounter)
    → new_retry_counter (pos m) (pos (suc d)) ≡ some r
    → r ≡ counter 0 m (suc d) 0 0
unfolding new_retry_counter new_step_retry_counter
new_fixed m d r made = ground arith

module _ {ℓ} {E : Type ℓ} (fn : ℕ → Option E) where
  -- The runs from number i on, n of them, all fail.
  abbrev pub all_fail : ℕ → ℕ → Bool
  all_fail i zero = true
  all_fail i (suc n) = is_some (fn i) && all_fail (suc i) n

  -- The loop ends after the run number i + n, the first that succeeds, or the last that is allowed.
  abbrev pub Ended : (r : RetryCounter) (fuel i allowed n : ℕ) → Type ℓ
  Ended r fuel i allowed n =
      (do_retry fuel r fn i ≡ some (fn (i + n), suc (i + n)))
      × (n ≤ allowed)
      × (all_fail i n ≡ true)
      × ((fn (i + n) ≡ none) ⊎ (n ≡ allowed))

  succeeds :
      (fuel i : ℕ) (r : RetryCounter)
      → fn i ≡ none
      → do_retry (suc fuel) r fn i ≡ some (fn i, suc i)
  unfolding do_retry
  succeeds fuel i r h = rw (do_retry, h) refl

  gives_up :
      (fuel i : ℕ) (r : RetryCounter) (err : E)
      → fn i ≡ some err
      → (next_interval r).1 ≡ pos 0
      → do_retry (suc fuel) r fn i ≡ some (fn i, suc i)
  unfolding do_retry
  gives_up fuel i r err h z = rw (do_retry, h, z) refl

  retries :
      (fuel i d : ℕ) (r r' : RetryCounter) (err : E)
      → fn i ≡ some err
      → next_interval r ≡ (r', pos (suc d))
      → do_retry (suc fuel) r fn i ≡ do_retry fuel r' fn (suc i)
  unfolding do_retry
  retries fuel i d r r' err h z = rw (do_retry, h, z) (ground arith)

  Ended-now :
      (fuel i allowed : ℕ) (r : RetryCounter)
      → do_retry fuel r fn i ≡ some (fn i, suc i)
      → (fn i ≡ none) ⊎ (0 ≡ allowed)
      → Ended r fuel i allowed 0
  Ended-now fuel i allowed r h o =
      let same_i : i + 0 ≡ i = omega arith in rw same_i (h, omega arith, refl, o)

  still : (n left j k : ℕ) → j ≡ k → (fn j ≡ none) ⊎ (n ≡ left) → (fn k ≡ none) ⊎ (suc n ≡ suc left)
  still n left j k e (inl h) = inl (rw (sym e) h)
  still n left j k e (inr h) = inr (ap suc h)

  ends_from :
      (left c m d i : ℕ)
      → left + c ≡ m
      → 0 < m
      → m < 2 ^ 63
      → (n : ℕ) × Ended (counter c m (suc d) 0 0) (suc left) i left n
  ends_from zero c m d i e p b = elim (Option-cases (fn i)) [
    | inl h ↦ (
      0,
      Ended-now 1 i 0 (counter c m (suc d) 0 0) (succeeds 0 i (counter c m (suc d) 0 0) h) (inl h),
    )
    | inr (err, h) ↦
        let at_max : c ≡ m = omega arith in
        (
          0,
          Ended-now 1 i 0 (counter c m (suc d) 0 0)
              (gives_up 0 i (counter c m (suc d) 0 0) err h (rw at_max (next_interval-last m d p)))
              (inr refl),
        )
  ]
  ends_from (suc left) c m d i e p b = elim (Option-cases (fn i)) [
    | inl h ↦ (
      0,
      Ended-now (suc (suc left)) i (suc left) (counter c m (suc d) 0 0)
          (succeeds (suc left) i (counter c m (suc d) 0 0) h) (inl h),
    )
    | inr (err, h) ↦
        let (n, (ran, few, failed, o)) = ends_from left (suc c) m d (suc i) (omega arith) p b in
        let step =
          retries (suc left) i d (counter c m (suc d) 0 0) (counter (suc c) m (suc d) 0 0) err h
            (next_interval-fixed c m d (omega arith) b) in
        let moved : suc i + n ≡ i + suc n = omega arith in
        (
          suc n,
          (
            step ∙ rw (sym moved) ran,
            omega arith,
            rw h failed,
            still n left (suc i + n) (i + suc n) moved o,
          ),
        )
  ]

  -- With a counter of NewRetryCounter, with a positive max count m below 2^63 and a positive
  -- interval, DoRetry ends: it returns what its run number n returned, for some n of at most m, after
  -- n + 1 runs of which all before the last failed; the last succeeded or is run number m.
  pub do_retry_ends :
      (m d : ℕ) (r : RetryCounter)
      → new_retry_counter (pos m) (pos (suc d)) ≡ some r
      → 0 < m
      → m < 2 ^ 63
      → (n : ℕ) × Ended r (suc m) 0 m n
  do_retry_ends m d r made p b =
      let e = new_fixed m d r made in rw e (ends_from m 0 m d 0 (omega arith) p b)
