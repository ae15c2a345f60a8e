-- ===== src/Barrier/Overlap.antt =====
-- The goroutines that call Do of a period barrier of async/barrier.go.
use b_go_util.Base.{
  ℕ, ◌+◌, ◌≤◌, ◌≡◌, ◌↔◌, refl, arith, true, false, ◌⊎◌, some, List, [], ◌∷◌, length, ℕ_discrete,
  ℤ-discrete, has_key, del_key,
}
use b_go_util.Atomic.{AtomicBool, new_bool, set_bool, cas_bool, bool_value}
use b_go_util.Barrier.{
  PeriodBarrier, new_period_barrier, Callers, Move, passes, checks, swaps, ends, clears, move,
  moves, no_callers,
}

-- The flag is set just while one goroutine is between its swap and its reset.
abbrev IsExclusive : Callers → Type 0
IsExclusive c =
    ((length c.running + length c.stamped ≡ 0) × (bool_value c.barrier.is_invoking ≡ false))
    ⊎ ((length c.running + length c.stamped ≡ 1) × (bool_value c.barrier.is_invoking ≡ true))

swap_free :
    (b : AtomicBool)
    → bool_value b ≡ false
    → ((cas_bool b false).1 ≡ true) × (bool_value (cas_bool b false).0 ≡ true)
      ⊎ ((cas_bool b false).1 ≡ false) × ((cas_bool b false).0 ≡ b)
unfolding cas_bool bool_value ℤ-discrete ℕ_discrete
swap_free b h = ground arith

swap_taken : (b : AtomicBool) → bool_value b ≡ true → cas_bool b false ≡ (b, false)
unfolding cas_bool bool_value ℤ-discrete ℕ_discrete
swap_taken b h = ground arith

reset : (b : AtomicBool) → bool_value (set_bool b false) ≡ false
unfolding set_bool bool_value ℤ-discrete ℕ_discrete
reset b = refl

take_only :
    (g : ℕ) (xs : List ℕ)
    → length xs ≤ 1
    → has_key ℕ_discrete g xs ≡ true
    → (length xs ≡ 1) × (length (del_key ℕ_discrete g xs) ≡ 0)
unfolding has_key del_key
take_only g [] l h = ground arith
take_only g (x ∷ []) l h = ground arith
take_only g (x ∷ y ∷ xs) l h = omega arith

move-IsExclusive : (c : Callers) (m : Move) → IsExclusive c → IsExclusive (move c m)
unfolding move
move-IsExclusive c (passes n) i = i
move-IsExclusive c (checks g) i = ground arith
move-IsExclusive c (swaps g) i =
    ground (arith, swap_free c.barrier.is_invoking, swap_taken c.barrier.is_invoking)
move-IsExclusive c (ends g) i = ground (arith, take_only g c.running)
move-IsExclusive c (clears g) i = ground (arith, take_only g c.stamped, reset c.barrier.is_invoking)

moves-IsExclusive : (c : Callers) (ms : List Move) → IsExclusive c → IsExclusive (moves c ms)
unfolding moves
moves-IsExclusive c [] i = i
moves-IsExclusive c (m ∷ ms) i = moves-IsExclusive (move c m) ms (move-IsExclusive c m i)

new_barrier-IsExclusive :
    (period now : ℕ) (b : PeriodBarrier)
    → new_period_barrier period ≡ some b
    → IsExclusive (no_callers b now)
unfolding new_period_barrier no_callers new_bool bool_value ℤ-discrete ℕ_discrete
new_barrier-IsExclusive period now b e = ground arith

-- However the steps of the goroutines that call Do of a new barrier interleave, at most one of them
-- is in the function or has yet to reset the flag after it, and the flag is set just while one is.
pub one_at_a_time :
    (period now : ℕ) (b : PeriodBarrier) (ms : List Move)
    → new_period_barrier period ≡ some b
    → (length (moves (no_callers b now) ms).running + length (moves (no_callers b now) ms).stamped
        ≤ 1)
      × ((bool_value (moves (no_callers b now) ms).barrier.is_invoking ≡ true) ↔ (
          length (moves (no_callers b now) ms).running
            + length (moves (no_callers b now) ms).stamped
          ≡ 1))
one_at_a_time period now b ms e =
    ground (arith, moves-IsExclusive (no_callers b now) ms (new_barrier-IsExclusive period now b e))
