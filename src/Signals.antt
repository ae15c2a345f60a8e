-- ===== src/Signals.antt =====
-- async/done.go and async/blocker.go: a channel that is closed once, and a value that goroutines wait
-- for. `none` is a panic: a channel that is closed again, or a WaitGroup counter that would get negative.
-- Each method of Blocker holds its lock for what is one step here; Close of DoneChannel is two, the swap
-- and the closing. ToDoneable, which is a type assertion, is left out.
pub mod Closing
pub mod Blocking
mod Tests
use b_go_util.Base.{
  ℕ, zero, suc, Bool, true, false, not, Option, none, some, List, [], ◌∷◌, if◌then◌else◌,
  ℕ_discrete, has_key, del_key,
}
use b_go_util.Atomic.{AtomicBool, new_bool, cas_bool, bool_value}

pub record DoneChannel : Type 0 where
  pub is_closed : Bool  -- the channel
  pub is_done : AtomicBool

unfoldable pub new_done : DoneChannel
new_done = record { is_closed = false; is_done = new_bool false }

unfoldable pub is_done_channel : DoneChannel → Bool
is_done_channel c = bool_value c.is_done

-- close(c.ch)
unfoldable pub close_channel : DoneChannel → Option DoneChannel
close_channel c = if c.is_closed then none else some (record c { is_closed = true })

-- A channel, the goroutines between the swap of Close and its close(c.ch), and those whose Close has
-- returned, with the result.
pub record Closers : Type 0 where
  pub channel : DoneChannel
  pub closing : List ℕ
  pub returned : List (ℕ × Bool)

pub data CloseStep : Type 0 where
  swaps : ℕ → CloseStep
  closes : ℕ → CloseStep

unfoldable pub close_step : Closers → CloseStep → Option Closers
close_step c (swaps g) =
    let (flag, swapped) = cas_bool c.channel.is_done false in
    let channel = record c.channel { is_done = flag } in
    some (
      if swapped
      then record c { channel = channel; closing = g ∷ c.closing }
      else record c { channel = channel; returned = (g, false) ∷ c.returned })
close_step c (closes g) =
    if has_key ℕ_discrete g c.closing
    then (elim (close_channel c.channel) [
      | some channel ↦ some (record {
        channel = channel;
        closing = del_key ℕ_discrete g c.closing;
        returned = (g, true) ∷ c.returned;
      })
      | none ↦ none
    ])
    else some c

unfoldable pub close_steps : Closers → List CloseStep → Option Closers
close_steps c [] = some c
close_steps c (s ∷ later) = elim (close_step c s) [ some c' ↦ close_steps c' later | none ↦ none ]

pub record Blocker (V : Type 0) : Type 0 where
  pub count : ℕ  -- the counter of its WaitGroup
  pub has_value : Bool
  pub val : Option V

module _ {V : Type 0} where
  unfoldable pub new_blocker : Blocker V
  new_blocker = record { count = 1; has_value = false; val = none }

  unfoldable pub new_blocker_of : Option V → Blocker V
  new_blocker_of val = record { count = 0; has_value = true; val = val }

  unfoldable pub blocker_has_value : Blocker V → Bool
  blocker_has_value b = b.has_value

  -- The value, once the counter is 0; none while it blocks.
  unfoldable pub get_value : Blocker V → Option (Option V)
  get_value b = elim (b.count) [ zero ↦ some b.val | suc n ↦ none ]

  unfoldable pub peek_value : Blocker V → Option V
  peek_value b = b.val

  unfoldable pub put_value : Blocker V → Option V → Option (Blocker V)
  put_value b val =
      if not b.has_value
      then (elim (b.count) [
        | zero ↦ none
        | suc n ↦ some (record { count = n; has_value = true; val = val })
      ])
      else some (record b { val = val })

  unfoldable pub remove_value : Blocker V → Blocker V × Option V
  remove_value b = (
    (if b.has_value
        then record { count = suc b.count; has_value = false; val = none }
        else record b { val = none }),
    b.val,
  )

-- A call that changes a blocker.
pub data Change (V : Type 0) : Type 0 where
  puts : Option V → Change V
  removes : Change V

module _ {V : Type 0} where
  unfoldable pub change : Blocker V → Change V → Option (Blocker V)
  unfolding put_value remove_value
  change b (puts val) = put_value b val
  change b removes = some ((remove_value b).0)

  unfoldable pub changes : Blocker V → List (Change V) → Option (Blocker V)
  changes b [] = some b
  changes b (c ∷ later) = elim (change b c) [ some b' ↦ changes b' later | none ↦ none ]
