-- ===== src/Latch/Wakeups.antt =====
-- The goroutines that wait at a latch of async/latch.go.
use b_go_util.Base.{
  ℕ, Bool, true, false, ◌||◌, ◌≡◌, refl, ◌⊎◌, inr, List, [], ◌∷◌, ◌++◌, arith, ℕ_discrete,
  ℤ-discrete, has_key, has_key-del_key,
}
use b_go_util.Atomic.{AtomicBool, new_bool, cas_bool, bool_value, is_true, is_false}
use b_go_util.Latch.{
  is_opened, Latch, new_latch, ca_swap, open_latch, close_latch, wait, turn, Act, opens, closes,
  swaps, waits, turns, act, acts,
}

-- An open latch has nobody in its queue.
abbrev pub IsQuiet : Latch → Type 0
IsQuiet l = (bool_value l.is_closed ≡ true) ⊎ (l.waiting ≡ [])

ca_swap-IsQuiet : (l : Latch) (expect : Bool) → IsQuiet l → IsQuiet (ca_swap l expect).0
unfolding ca_swap is_false bool_value
ca_swap-IsQuiet l expect i = ground arith

act-IsQuiet : (l : Latch) (a : Act) → IsQuiet l → IsQuiet (act l a)
unfolding act open_latch close_latch wait turn is_true is_false bool_value
act-IsQuiet l opens i = ground (arith, ca_swap-IsQuiet l true i)
act-IsQuiet l closes i = ground (arith, ca_swap-IsQuiet l false i)
act-IsQuiet l (swaps expect) i = ca_swap-IsQuiet l expect i
act-IsQuiet l (waits g) i = ground arith
act-IsQuiet l (turns g) i = ground arith

acts-append : (l : Latch) (s s' : List Act) → acts l (s ++ s') ≡ acts (acts l s) s'
unfolding acts
acts-append l [] s' = refl
acts-append l (a ∷ s) s' = acts-append (act l a) s s'

new_latch-IsQuiet : (closed : Bool) → IsQuiet (new_latch closed)
unfolding new_latch
new_latch-IsQuiet closed = inr refl

acts-IsQuiet : (l : Latch) (s : List Act) → IsQuiet l → IsQuiet (acts l s)
unfolding acts
acts-IsQuiet l [] i = i
acts-IsQuiet l (a ∷ s) i = acts-IsQuiet (act l a) s (act-IsQuiet l a i)

has : ℕ → List ℕ → Bool
has g xs = has_key ℕ_discrete g xs

has-append : (g : ℕ) (xs ys : List ℕ) → has g (xs ++ ys) ≡ (has g xs || has g ys)
unfolding has has_key
has-append g [] ys = refl
has-append g (x ∷ xs) ys = ground (arith, has-append g xs ys)

has_last : (g : ℕ) (xs : List ℕ) → has g (xs ++ g ∷ []) ≡ true
unfolding has has_key
has_last g [] = ground arith
has_last g (x ∷ xs) = ground (arith, has_last g xs)

-- The goroutine is in one of the three places.
Somewhere : Latch → ℕ → Type 0
Somewhere l g = (has g l.entering || has g l.waiting || has g l.passed) ≡ true

ca_swap-Somewhere :
    (l : Latch) (expect : Bool) (g : ℕ) → Somewhere l g → Somewhere (ca_swap l expect).0 g
unfolding Somewhere ca_swap has has_key
ca_swap-Somewhere l expect g k = ground (arith, has-append g l.entering l.waiting)

wait-Somewhere : (l : Latch) (h g : ℕ) → Somewhere l g → Somewhere (wait l h) g
unfolding Somewhere wait
wait-Somewhere l h g k =
    ground (arith, has-append g l.passed (h ∷ []), has-append g l.entering (h ∷ []))

wait_arrives : (l : Latch) (g : ℕ) → Somewhere (wait l g) g
unfolding Somewhere wait
wait_arrives l g = ground (arith, has_last g l.passed, has_last g l.entering)

turn-Somewhere : (l : Latch) (h g : ℕ) → Somewhere l g → Somewhere (turn l h) g
unfolding Somewhere turn has
turn-Somewhere l h g k = ground (
  arith,
  has-append g l.passed (h ∷ []),
  has-append g l.waiting (h ∷ []),
  has_last h l.passed,
  has_last h l.waiting,
  has_key-del_key ℕ_discrete h g l.entering,
)

act-Somewhere : (l : Latch) (a : Act) (g : ℕ) → Somewhere l g → Somewhere (act l a) g
unfolding act open_latch close_latch
act-Somewhere l opens g k = ground (arith, ca_swap-Somewhere l true g k)
act-Somewhere l closes g k = ground (arith, ca_swap-Somewhere l false g k)
act-Somewhere l (swaps expect) g k = ca_swap-Somewhere l expect g k
act-Somewhere l (waits h) g k = wait-Somewhere l h g k
act-Somewhere l (turns h) g k = turn-Somewhere l h g k

acts-Somewhere : (l : Latch) (s : List Act) (g : ℕ) → Somewhere l g → Somewhere (acts l s) g
unfolding acts
acts-Somewhere l [] g k = k
acts-Somewhere l (a ∷ s) g k = acts-Somewhere (act l a) s g (act-Somewhere l a g k)

value_of_false : bool_value (new_bool false) ≡ false
unfolding bool_value new_bool ℤ-discrete ℕ_discrete
value_of_false = refl

cas_true : (b : AtomicBool) → bool_value b ≡ true → cas_bool b true ≡ (new_bool false, true)
unfolding cas_bool bool_value new_bool
cas_true b h = ground arith

open_latch_opens :
    (l : Latch)
    → IsQuiet l
    → ((open_latch l).waiting ≡ []) × (bool_value (open_latch l).is_closed ≡ false)
unfolding open_latch ca_swap is_true is_false
open_latch_opens l i = ground (arith, cas_true l.is_closed, value_of_false)

turn_passes :
    (l : Latch) (g : ℕ)
    → Somewhere l g
    → l.waiting ≡ []
    → bool_value l.is_closed ≡ false
    → has g (turn l g).passed ≡ true
unfolding Somewhere turn is_true has has_key
turn_passes l g k w o = ground (arith, has_last g l.passed)

-- Whatever goroutines do to a new latch, before and after a goroutine calls Wait: an Open then
-- leaves the queue empty and the latch open, and the turn of the goroutine after it, if it has not
-- passed before, lets it pass.
pub waiter_passes :
    (closed : Bool) (s s' : List Act) (g : ℕ)
    → ((open_latch (acts (new_latch closed) (s ++ waits g ∷ s'))).waiting ≡ [])
      × (is_opened (open_latch (acts (new_latch closed) (s ++ waits g ∷ s'))) ≡ true)
      × (has_key ℕ_discrete g
            (turn (open_latch (acts (new_latch closed) (s ++ waits g ∷ s'))) g).passed
          ≡ true)
unfolding is_opened has acts act
waiter_passes closed s s' g =
    let l = acts (new_latch closed) (s ++ waits g ∷ s') in
    let known : Somewhere l g =
      rw (acts-append (new_latch closed) s (waits g ∷ s'))
        (acts-Somewhere _ s' g (wait_arrives (acts (new_latch closed) s) g)) in
    let (empty, opened) =
      open_latch_opens l
        (acts-IsQuiet (new_latch closed) (s ++ waits g ∷ s') (new_latch-IsQuiet closed)) in
    (
      empty,
      rw opened refl,
      turn_passes (open_latch l) g (act-Somewhere l opens g known) empty opened,
    )
