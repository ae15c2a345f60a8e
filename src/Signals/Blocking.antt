-- ===== src/Signals/Blocking.antt =====
-- What a blocker of async/blocker.go holds: nothing, or a value.
use b_go_util.Base.{◌≡◌, refl, arith, true, false, Option, none, some, List, [], ◌∷◌, is_some}
use b_go_util.Signals.{
  Blocker, new_blocker, new_blocker_of, blocker_has_value, get_value, peek_value, put_value,
  remove_value, Change, puts, removes, change, changes,
}

module _ {V : Type 0} where
  -- The value that is left after some calls: none if there is none, `some none` if it is nil.
  pub left : Option (Option V) → List (Change V) → Option (Option V)
  left held [] = held
  left held (puts val ∷ later) = left (some val) later
  left held (removes ∷ later) = left none later

  unfoldable pub flat : Option (Option V) → Option V
  flat none = none
  flat (some val) = val

  -- The blocker holds just this.
  abbrev Holds : Blocker V → Option (Option V) → Type 0
  Holds b none = (b.count ≡ 1) × (b.has_value ≡ false) × (b.val ≡ none)
  Holds b (some val) = (b.count ≡ 0) × (b.has_value ≡ true) × (b.val ≡ val)

  after_change : Option (Option V) → Change V → Option (Option V)
  after_change held (puts val) = some val
  after_change held removes = none

  -- The blocker that a call leaves, when it does not panic.
  changed : Blocker V → Option (Option V) → Change V → Blocker V
  changed b held (puts val) = record { count = 0; has_value = true; val = val }
  changed b held removes = record { count = 1; has_value = false; val = none }

  changed-Holds :
      (b : Blocker V) (held : Option (Option V)) (c : Change V)
      → Holds (changed b held c) (after_change held c)
  unfolding changed after_change
  changed-Holds b held (puts val) = (refl, refl, refl)
  changed-Holds b held removes = (refl, refl, refl)

  change_holding :
      (b : Blocker V) (held : Option (Option V)) (c : Change V)
      → Holds b held
      → change b c ≡ some (changed b held c)
  unfolding change put_value remove_value changed
  change_holding b none (puts val) h = ground arith
  change_holding b none removes h = ground arith
  change_holding b (some v) (puts val) h = ground arith
  change_holding b (some v) removes h = ground arith

  changes_holding :
      (b : Blocker V) (held : Option (Option V)) (cs : List (Change V))
      → Holds b held
      → (b' : Blocker V) × (changes b cs ≡ some b') × Holds b' (left held cs)
  unfolding changes left after_change
  changes_holding b held [] h = (b, refl, h)
  changes_holding b held (puts val ∷ later) h =
      rw (changes, change_holding b held (puts val) h)
        (changes_holding (changed b held (puts val)) (some val) later
          (changed-Holds b held (puts val)))
  changes_holding b held (removes ∷ later) h =
      rw (changes, change_holding b held removes h)
        (changes_holding (changed b held removes) none later (changed-Holds b held removes))

  -- What the readers of a blocker show of what it holds.
  abbrev pub Shows : Blocker V → Option (Option V) → Type 0
  Shows b held =
      (get_value b ≡ held)
      × (blocker_has_value b ≡ is_some held)
      × (peek_value b ≡ flat held)
      × ((remove_value b).1 ≡ flat held)

  Holds-Shows : (b : Blocker V) (held : Option (Option V)) → Holds b held → Shows b held
  unfolding get_value blocker_has_value peek_value remove_value flat
  Holds-Shows b none h = ground arith
  Holds-Shows b (some v) h = ground arith

  -- No sequence of Put and Remove on a new blocker, empty or with a value, panics. After it Get blocks
  -- if the last call was Remove, or if there was none and the blocker was empty; else it returns the
  -- value of the last Put, or the first value, nil included. HasValue is true just when Get does not
  -- block, after a Put of nil too, and Peek returns at once, nil if there is no value: the comments on both
  -- in the source say otherwise. Remove returns what Peek does.
  pub blocker_refines :
      (first : Option V) (cs : List (Change V))
      → ((b : Blocker V) × (changes new_blocker cs ≡ some b) × Shows b (left none cs))
        × ((b : Blocker V) × (changes (new_blocker_of first) cs ≡ some b)
            × Shows b (left (some first) cs))
  unfolding new_blocker new_blocker_of
  blocker_refines first cs =
      let (b, e, h) = changes_holding new_blocker none cs (refl, refl, refl) in
      let (b', e', h') =
        changes_holding (new_blocker_of first) (some first) cs (refl, refl, refl) in
      ((b, e, Holds-Shows b _ h), (b', e', Holds-Shows b' _ h'))
