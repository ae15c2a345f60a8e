-- ===== src/Retry/Intervals.antt =====
-- The intervals and the count of util/retry.go.
use b_go_util.Base.{
  leb, ◌*◌, ℕ, zero, suc, pos, ◌+ℤ◌, wrap64, true, false, some, if◌then◌else◌, ◌≡◌, refl, arith,
  ◌+◌, ◌^◌, ◌<◌, ◌≤◌,
}
use b_go_util.Retry.{RetryCounter, new_step_retry_counter, next_interval, grown, has_next}

-- n calls of NextInterval.
abbrev pub after : ℕ → RetryCounter → RetryCounter
after zero r = r
after (suc n) r = after n (next_interval r).0

abbrev pub least : ℕ → ℕ → ℕ
least a b = if leb a b then a else b

abbrev pub counter : (count max_count interval max_interval step : ℕ) → RetryCounter
counter count max_count interval max_interval step = record {
  count = pos count;
  max_count = pos max_count;
  interval = pos interval;
  max_interval = pos max_interval;
  step_interval = pos step;
}

pub wrap64_pos : (a b : ℕ) → a + b < 2 ^ 63 → wrap64 (pos a +ℤ pos b) ≡ pos (a + b)
unfolding wrap64 ◌+ℤ◌
wrap64_pos a b h = ground arith

grown-counter :
    (c m i mx st : ℕ)
    → 0 < mx
    → i ≤ mx
    → mx + st < 2 ^ 63
    → grown (counter c m i mx st) ≡ pos (least mx (i + st))
unfolding grown
grown-counter c m i mx st p h b = rw (wrap64_pos i st (omega arith)) (ground arith)

next_interval-counter :
    (c m i mx st : ℕ)
    → c < m
    → m < 2 ^ 63
    → 0 < mx
    → i ≤ mx
    → mx + st < 2 ^ 63
    → next_interval (counter c m i mx st)
      ≡ (counter (suc c) m (least mx (i + st)) mx st, pos (least mx (i + st)))
unfolding next_interval
next_interval-counter c m i mx st l mb p h b =
    rw (grown-counter c m i mx st p h b, wrap64_pos c 1 (omega arith)) (ground arith)

least_again : (n i mx st : ℕ) → least mx (least mx (i + st) + n * st) ≡ least mx (i + suc n * st)
least_again n i mx st = ground arith

after-counter :
    (n c m i mx st : ℕ)
    → n + c ≤ m
    → m < 2 ^ 63
    → 0 < mx
    → i ≤ mx
    → mx + st < 2 ^ 63
    → after n (counter c m i mx st) ≡ counter (n + c) m (least mx (i + n * st)) mx st
after-counter zero c m i mx st l mb p h b =
    let same_count : 0 + c ≡ c = omega arith in
    let same_interval : least mx (i + 0 * st) ≡ i = ground arith in
    rw (same_count, same_interval) refl
after-counter (suc n) c m i mx st l mb p h b =
    rw
      (
        next_interval-counter c m i mx st (omega arith) mb p h b,
        after-counter n (suc c) m (least mx (i + st)) mx st (omega arith) mb p (ground arith) b,
      )
      (let counts : n + suc c ≡ suc n + c = omega arith in rw (counts, least_again n i mx st) refl)

new_counter :
    (m i mx st : ℕ) (r : RetryCounter)
    → new_step_retry_counter (pos m) (pos i) (pos st) (pos mx) ≡ some r
    → r ≡ counter 0 m i mx st
unfolding new_step_retry_counter
new_counter m i mx st r made = ground arith

after_new :
    (n m i mx st : ℕ) (r : RetryCounter)
    → r ≡ counter 0 m i mx st
    → n ≤ m
    → m < 2 ^ 63
    → 0 < mx
    → i ≤ mx
    → mx + st < 2 ^ 63
    → after n r ≡ counter n m (least mx (i + n * st)) mx st
after_new n m i mx st r e l mb p h b =
    let counts : n + 0 ≡ n = omega arith in
    rw (e, after-counter n 0 m i mx st (omega arith) mb p h b, counts) refl

last_counter :
    (m i mx st : ℕ)
    → 0 < m
    → (has_next (counter m m i mx st) ≡ false)
      × (next_interval (counter m m i mx st) ≡ (counter m m i mx st, pos 0))
unfolding has_next next_interval
last_counter m i mx st h = (ground arith, ground arith)

has_next-counter : (n m i mx st : ℕ) → n < m → has_next (counter n m i mx st) ≡ true
unfolding has_next
has_next-counter n m i mx st h = ground arith

-- A counter with a positive max count m and a positive max interval that the first interval keeps
-- to, sums below 2^63: the call number n + 1 of NextInterval, n < m, gives the first interval plus
-- n + 1 steps, or the max interval if that is less; after m calls there is no next, and NextInterval
-- gives 0 and changes nothing.
pub intervals_closed :
    (m i mx st n : ℕ) (r : RetryCounter)
    → new_step_retry_counter (pos m) (pos i) (pos st) (pos mx) ≡ some r
    → n < m
    → m < 2 ^ 63
    → 0 < mx
    → i ≤ mx
    → mx + st < 2 ^ 63
    → ((next_interval (after n r)).1 ≡ pos (least mx (i + suc n * st)))
      × (has_next (after n r) ≡ true)
      × (has_next (after m r) ≡ false)
      × (next_interval (after m r) ≡ (after m r, pos 0))
intervals_closed m i mx st n r made l mb p h b =
    let e = new_counter m i mx st r made in
    let rising : least mx (least mx (i + n * st) + st) ≡ least mx (i + suc n * st) = ground arith in
    let (no_next, stays) = last_counter m (least mx (i + m * st)) mx st (omega arith) in
    rw
      (
        after_new n m i mx st r e (omega arith) mb p h b,
        after_new m m i mx st r e (omega arith) mb p h b,
        next_interval-counter n m (least mx (i + n * st)) mx st l mb p (ground arith) b,
        rising,
      )
      (refl, has_next-counter n m (least mx (i + n * st)) mx st l, no_next, stays)
