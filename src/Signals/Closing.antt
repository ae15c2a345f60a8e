-- ===== src/Signals/Closing.antt =====
-- The goroutines that call Close of a done channel of async/done.go.
use b_go_util.Base.{
  ℕ, suc, ◌+◌, ◌≤◌, ◌≡◌, ◌↔◌, refl, arith, Bool, true, false, ◌⊎◌, inl, Option, none, some, List,
  [], ◌∷◌, length, ℕ_discrete, ℤ-discrete, has_key, del_key, if◌then◌else◌,
}
use b_go_util.Atomic.{AtomicBool, new_bool, cas_bool, bool_value}
use b_go_util.Signals.{
  new_done, is_done_channel, close_channel, Closers, CloseStep, swaps, closes, close_step,
  close_steps,
}

-- How many calls of Close have returned true.
pub closed_by : List (ℕ × Bool) → ℕ
closed_by [] = 0
closed_by ((g, closed) ∷ later) = if closed then suc (closed_by later) else closed_by later

abbrev HasOneCloser : Closers → Type 0
HasOneCloser c =
    ((bool_value c.channel.is_done ≡ false)
      × (length c.closing ≡ 0)
      × (closed_by c.returned ≡ 0)
      × (c.channel.is_closed ≡ false))
    ⊎ ((bool_value c.channel.is_done ≡ true)
        × (((length c.closing ≡ 1) × (closed_by c.returned ≡ 0) × (c.channel.is_closed ≡ false))
            ⊎ ((length c.closing ≡ 0) × (closed_by c.returned ≡ 1) × (c.channel.is_closed ≡ true))))

swap_sets :
    (b : AtomicBool)
    → ((cas_bool b false).1 ≡ true) × (bool_value (cas_bool b false).0 ≡ true)
      ⊎ ((cas_bool b false) ≡ (b, false))
unfolding cas_bool bool_value ℤ-discrete ℕ_discrete
swap_sets b = ground arith

swap_taken : (b : AtomicBool) → bool_value b ≡ true → cas_bool b false ≡ (b, false)
unfolding cas_bool bool_value ℤ-discrete ℕ_discrete
swap_taken b h = ground arith

take_only :
    (g : ℕ) (xs : List ℕ)
    → has_key ℕ_discrete g xs ≡ true
    → length xs ≡ 1
    → length (del_key ℕ_discrete g xs) ≡ 0
unfolding has_key del_key
take_only g [] h l = omega arith
take_only g (x ∷ []) h l = ground arith
take_only g (x ∷ y ∷ xs) h l = omega arith

nobody : (g : ℕ) (xs : List ℕ) → has_key ℕ_discrete g xs ≡ true → length xs ≡ 0 → ⊥
unfolding has_key
nobody g [] h l = ground arith
nobody g (x ∷ xs) h l = omega arith

-- The step did not panic, and leaves one closer.
abbrev IsFine : Option Closers → Type 0
IsFine none = ⊥
IsFine (some c) = HasOneCloser c

close_step-IsFine : (c : Closers) (s : CloseStep) → HasOneCloser c → IsFine (close_step c s)
unfolding close_step close_channel closed_by
close_step-IsFine c (swaps g) i =
    ground (arith, swap_sets c.channel.is_done, swap_taken c.channel.is_done)
close_step-IsFine c (closes g) i = ground (arith, take_only g c.closing, nobody g c.closing)

close_steps-IsFine :
    (c : Closers) (ss : List CloseStep) → HasOneCloser c → IsFine (close_steps c ss)
unfolding close_steps
close_steps-IsFine c [] i = i
close_steps-IsFine c (s ∷ ss) i =
    later (λ c' i'. close_steps-IsFine c' ss i') (close_step c s) (close_step-IsFine c s i)
  where
    later :
        ((c' : Closers) → HasOneCloser c' → IsFine (close_steps c' ss))
        → (o : Option Closers) → IsFine o
        → IsFine (elim o [ some c' ↦ close_steps c' ss | none ↦ none ])
    later ih none i = i
    later ih (some c') i = ih c' i

-- What callers see: no more than one Close has returned true, IsDone holds from the swap of that
-- call on, and the channel is closed when it returns.
abbrev pub IsClosedOnce : Closers → Type 0
IsClosedOnce c =
    (closed_by c.returned ≤ 1)
    × ((is_done_channel c.channel ≡ true) ↔ (length c.closing + closed_by c.returned ≡ 1))
    × ((c.channel.is_closed ≡ true) ↔ (closed_by c.returned ≡ 1))

HasOneCloser-IsClosedOnce : (c : Closers) → HasOneCloser c → IsClosedOnce c
unfolding is_done_channel
HasOneCloser-IsClosedOnce c i = ground arith

new_done-HasOneCloser : HasOneCloser (record { channel = new_done; closing = []; returned = [] })
unfolding new_done new_bool bool_value closed_by ℤ-discrete ℕ_discrete
new_done-HasOneCloser = inl (refl, refl, refl, refl)

unwrapped : (o : Option Closers) → IsFine o → (c : Closers) × (o ≡ some c) × IsClosedOnce c
unwrapped none i = absurd i
unwrapped (some c) i = (c, refl, HasOneCloser-IsClosedOnce c i)

-- However the steps of goroutines that close a new channel interleave, none of them closes the
-- channel a second time, which would panic; at most one Close has returned true, IsDone is true just
-- from the swap of that Close on, and the channel is closed just when it has returned.
pub closed_once :
    (ss : List CloseStep)
    → (c : Closers) × (close_steps (record { channel = new_done; closing = []; returned = [] }) ss
        ≡ some c)
      × IsClosedOnce c
closed_once ss = unwrapped _ (close_steps-IsFine _ ss new_done-HasOneCloser)
