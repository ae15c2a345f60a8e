-- ===== src/Barrier/Spacing.antt =====
-- Calls of Do of a period barrier of async/barrier.go, one after another.
use b_go_util.Base.{
  ℕ, ◌+◌, ◌≤◌, ◌<◌, ◌≡◌, ◌↔◌, ◌∙◌, refl, sym, arith, Bool, true, false, Option, none, some, List,
  [], ◌∷◌, if◌then◌else◌, ◌⊎◌, inl, inr, true_and_false, ℕ_discrete, ℤ-discrete,
}
use b_go_util.Atomic.{AtomicBool, new_bool, set_bool, cas_bool}
use b_go_util.Barrier.{
  new_time, PeriodBarrier, new_period_barrier, time_value, set_time, is_due, take_turn,
  allow_invoke, stamp, clear, after_invoke, do_fn,
}

-- A call of Do: when it begins, when it returns, and whether it ran the function.
pub record Call : Type 0 where
  pub begin : ℕ
  pub end : ℕ
  pub ran : Bool

-- Calls from a time on, each some time after the return of the one before it, and with what the
-- function takes if it runs.
unfoldable pub do_all : PeriodBarrier → ℕ → List (ℕ × ℕ) → List Call
do_all b now [] = []
do_all b now ((gap, takes) ∷ later) =
    let (b', ran) = do_fn b (now + gap) takes in
    let end = if ran then now + gap + takes else now + gap in
    record { begin = now + gap; end = end; ran = ran } ∷ do_all b' end later

-- The time is a period or more after the last end.
abbrev pub IsOver : ℕ → Option ℕ → ℕ → Type 0
IsOver period none now = Unit
IsOver period (some t) now = t + period ≤ now

-- A call runs the function just when a period has passed since the last run ended.
abbrev pub IsThrottled : ℕ → Option ℕ → List Call → Type 0
IsThrottled period last [] = Unit
IsThrottled period last (c ∷ calls) =
    ((c.ran ≡ true) ↔ IsOver period last c.begin)
    × IsThrottled period (if c.ran then some c.end else last) calls

due_cases :
    (b : PeriodBarrier) (now : ℕ)
    → 0 < b.period
    → ((is_due b now ≡ true) × IsOver b.period b.last_invoke_time.time now)
      ⊎ ((is_due b now ≡ false) × (¬ IsOver b.period b.last_invoke_time.time now))
unfolding is_due time_value
due_cases b now p = ground arith

swap_false : (b : AtomicBool) → b ≡ new_bool false → (cas_bool b false).1 ≡ true
unfolding cas_bool new_bool ℤ-discrete ℕ_discrete
swap_false b h = ground arith

set_false : (b : AtomicBool) → set_bool b false ≡ new_bool false
unfolding set_bool new_bool
set_false b = refl

-- What a call that finds no other does.
do_fn_facts :
    (b : PeriodBarrier) (now takes : ℕ)
    → 0 < b.period
    → b.is_invoking ≡ new_bool false
    → (((do_fn b now takes).1 ≡ true)
        × IsOver b.period b.last_invoke_time.time now
        × ((do_fn b now takes).0.last_invoke_time.time ≡ some (now + takes))
        × ((do_fn b now takes).0.period ≡ b.period)
        × ((do_fn b now takes).0.is_invoking ≡ new_bool false))
      ⊎ (((do_fn b now takes).1 ≡ false)
          × (¬ IsOver b.period b.last_invoke_time.time now)
          × ((do_fn b now takes).0 ≡ b))
unfolding do_fn allow_invoke take_turn after_invoke stamp set_time clear
do_fn_facts b now takes p i = ground (
  arith,
  due_cases b now p,
  swap_false b.is_invoking i,
  set_false (cas_bool b.is_invoking false).0,
)

do_all-IsThrottled :
    (b : PeriodBarrier) (period now : ℕ) (last : Option ℕ) (calls : List (ℕ × ℕ))
    → 0 < period
    → b.period ≡ period
    → b.last_invoke_time.time ≡ last
    → b.is_invoking ≡ new_bool false
    → IsThrottled period last (do_all b now calls)
unfolding do_all
do_all-IsThrottled b period now last [] p bp bl i = tt
do_all-IsThrottled b period now last ((gap, takes) ∷ later) p bp bl i =
    elim (do_fn_facts b (now + gap) takes (rw bp p) i) [
      | inl (ran, over, stamped, kept, free) ↦
          let IH =
            do_all-IsThrottled (do_fn b (now + gap) takes).0 period (now + gap + takes)
              (some (now + gap + takes)) later p (kept ∙ bp) stamped free in
          rw ran ((λ _. rw (sym bp, sym bl) over, λ _. refl), IH)
      | inr (ran, over, kept) ↦
          let IH = do_all-IsThrottled b period (now + gap) last later p bp bl i in
          rw (ran, kept)
            ((λ e. absurd (true_and_false e refl), λ o. absurd (over (rw (bp, bl) o))), IH)
    ]

-- Calls of Do of a new barrier that do not overlap: the first runs its function, and a later one runs
-- its function just when the period has passed since the last run ended.
pub calls-IsThrottled :
    (period now : ℕ) (b : PeriodBarrier) (calls : List (ℕ × ℕ))
    → new_period_barrier period ≡ some b
    → IsThrottled period none (do_all b now calls)
unfolding new_period_barrier new_time
calls-IsThrottled period now b calls e = ground (arith, do_all-IsThrottled b period now none calls)
