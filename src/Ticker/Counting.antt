-- ===== src/Ticker/Counting.antt =====
-- When the counting ticker of async/ticker.go fires, and its normalized options.
use b_go_util.Base.{
  ℕ, ℤ, pos, negsuc, ap, ◌∙◌, inl, inr, Option-cases, ◌≡◌, refl, ◌+◌, ◌^◌, ◌<◌, ◌≤◌, ◌+ℤ◌, ◌-ℤ◌,
  ◌≤ℤ◌, false, none, some, List, [], ◌∷◌, arith, wrap64,
}
use b_go_util.Ticker.{Ticker, TickerOption, must_normalize, new_ticker, incr_count, fire_tick}

-- IncrCount of each number in turn, each at its time.
abbrev pub count_all : Ticker → List (ℕ × ℤ) → Ticker
count_all t [] = t
count_all t ((n, now) ∷ ns) = count_all (incr_count t (pos n) now) ns

abbrev pub total : List (ℕ × ℤ) → ℕ
total [] = 0
total ((n, _) ∷ ns) = n + total ns

-- An open ticker with nothing in its channel.
abbrev pub counting : TickerOption → ℤ → ℕ → Ticker
counting o last c = record {
  option = o;
  tick_stream = none;
  is_closed = false;
  last_tick_time = last;
  current_count = pos c;
}

zero_add : (n : ℕ) → 0 + n ≡ n
zero_add n = omega arith

pos_add : (a b : ℕ) → a + b < 2 ^ 63 → wrap64 (pos a +ℤ pos b) ≡ pos (a + b)
unfolding ◌+ℤ◌ wrap64
pos_add a b h = ground arith

pos_self : (a : ℤ) → wrap64 (a -ℤ a) ≡ pos 0
unfolding ◌-ℤ◌ wrap64
pos_self (pos a) = ground arith
pos_self (negsuc a) = ground arith

incr_count-below :
    (o : TickerOption) (last now : ℤ) (c max n : ℕ)
    → o.max_count ≡ pos max
    → max < 2 ^ 63
    → c + n < max
    → incr_count (counting o last c) (pos n) now ≡ counting o last (c + n)
unfolding incr_count
incr_count-below o last now c max n m b h = rw (pos_add c n (omega arith), m) (ground arith)

incr_count-reached :
    (o : TickerOption) (last now : ℤ) (c max n : ℕ)
    → o.max_count ≡ pos max
    → c + n < 2 ^ 63
    → 0 < max
    → c < max
    → max ≤ c + n
    → incr_count (counting o last c) (pos n) now
      ≡ record (counting o now 0) { tick_stream = some now }
unfolding incr_count fire_tick
incr_count-reached o last now c max n m b p q h =
    rw (pos_add c n (omega arith), m, pos_self (pos (c + n))) (ground arith)

count_all-below :
    (o : TickerOption) (last : ℤ) (c max : ℕ) (ns : List (ℕ × ℤ))
    → o.max_count ≡ pos max
    → max < 2 ^ 63
    → c + total ns < max
    → count_all (counting o last c) ns ≡ counting o last (c + total ns)
count_all-below o last c max [] m b h = ap (counting o last) (omega arith)
count_all-below o last c max ((n, now) ∷ ns) m b h =
    rw
      (
        incr_count-below o last now c max n m b (omega arith),
        count_all-below o last (c + n) max ns m b (omega arith),
      )
      (ap (counting o last) (omega arith))

normalized :
    (o o' : TickerOption)
    → must_normalize o ≡ some o'
    → (pos 0 ≤ℤ o'.period)
      × (pos 0 ≤ℤ o'.min_count)
      × (o'.min_count ≤ℤ o'.max_count)
      × (o'.period ≡ o.period)
      × (o'.min_count ≡ o.min_count)
      × (o'.max_count ≡ o.max_count)
unfolding must_normalize
normalized o o' h = ground arith

new_ticker-counting :
    (option : TickerOption) (start : ℤ) (t : Ticker)
    → new_ticker option start ≡ some t
    → (o : TickerOption) × (t ≡ counting o start 0) × (o.max_count ≡ option.max_count)
unfolding new_ticker
new_ticker-counting option start t h = elim (Option-cases (must_normalize option)) [
  | inl e ↦ absurd (ground arith)
  | inr (o, e) ↦ (o, ground arith, (normalized option o e).5)
]

-- A new ticker whose option has a max count, with what is counted in turn below it, has not fired
-- and has the sum; the next number that brings the sum to the max fires at once and resets the
-- count. The sum stays an int64.
pub fires_at_max :
    (option : TickerOption) (start : ℤ) (t : Ticker) (max : ℕ) (ns : List (ℕ × ℤ)) (n : ℕ) (now : ℤ)
    → new_ticker option start ≡ some t
    → option.max_count ≡ pos max
    → total ns < max
    → max ≤ total ns + n
    → total ns + n < 2 ^ 63
    → ((count_all t ns).tick_stream ≡ none)
      × ((count_all t ns).current_count ≡ pos (total ns))
      × ((incr_count (count_all t ns) (pos n) now).tick_stream ≡ some now)
      × ((incr_count (count_all t ns) (pos n) now).current_count ≡ pos 0)
fires_at_max option start t max ns n now h m below reached bound =
    let (o, e, same_max) = new_ticker-counting option start t h in
    let counted =
      count_all-below o start 0 max ns (same_max ∙ m) (omega arith) (omega arith)
      ∙ ap (counting o start) (zero_add (total ns)) in
    let fired =
      incr_count-reached o start now (total ns) max n (same_max ∙ m) bound (omega arith)
        (omega arith) reached in
    rw (e, counted, fired) (refl, refl, refl, refl)
