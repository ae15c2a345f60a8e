-- ===== src/Locker/Settling.antt =====
-- The attempt that decides what obtainLock of rdb/locker.go returns, and what its task assigns.
use b_go_util.Base.{
  ℕ, zero, suc, ◌≡◌, refl, arith, true, false, none, some, List, [], ◌∷◌, if◌then◌else◌,
}
use b_go_util.Loops.{CtxErr}
use b_go_util.Loops.Interval.{TickCall}
use b_go_util.Loops.Calls.{told}
use b_go_util.Locker.{Outcome, got, not_obtained, failed, Attempt, is_settled, assigned}

module _ {L E : Type 0} where
  -- The first outcome that is not ErrNotObtained, of rest many attempts rest there are retries and one more;
  -- ErrNotObtained if there is none, or if the context is done before.
  unfoldable pub first_settled : ℕ → List (Attempt L E) → Outcome L E
  first_settled n [] = not_obtained
  first_settled n (a ∷ attempts) = elim (a.at_select) [
    | some e ↦ not_obtained
    | none ↦ if is_settled a.outcome then a.outcome else next (λ m. first_settled m attempts) n
  ]
    where
      next : (ℕ → Outcome L E) → ℕ → Outcome L E
      next later zero = not_obtained
      next later (suc m) = later m

  pub settled_stops :
      (n : ℕ) (a : Attempt L E) (rest : List (Attempt L E)) (e : CtxErr)
      → a.at_select ≡ some e
      → first_settled n (a ∷ rest) ≡ not_obtained
  unfolding first_settled
  settled_stops n a rest e h = rw (first_settled, h) refl

  pub settled_now :
      (n : ℕ) (a : Attempt L E) (rest : List (Attempt L E))
      → a.at_select ≡ none
      → is_settled a.outcome ≡ true
      → first_settled n (a ∷ rest) ≡ a.outcome
  unfolding first_settled
  settled_now n a rest h k = rw (first_settled, h, k) refl

  pub settled_last :
      (a : Attempt L E) (rest : List (Attempt L E))
      → a.at_select ≡ none
      → is_settled a.outcome ≡ false
      → first_settled 0 (a ∷ rest) ≡ not_obtained
  unfolding first_settled
  settled_last a rest h k = rw (first_settled, h, k) refl

  pub settled_later :
      (n : ℕ) (a : Attempt L E) (rest : List (Attempt L E))
      → a.at_select ≡ none
      → is_settled a.outcome ≡ false
      → first_settled (suc n) (a ∷ rest) ≡ first_settled n rest
  unfolding first_settled
  settled_later n a rest h k = rw (first_settled, h, k) refl

  pub unsettled : (o : Outcome L E) → is_settled o ≡ false → o ≡ not_obtained
  unsettled (got l) h = ground arith
  unsettled not_obtained h = refl
  unsettled (failed e) h = ground arith

  pub assigned-told :
      (b : Outcome L E) (t : TickCall) (a : Attempt L E) (rest : List (Attempt L E))
      → told t.call ≡ true
      → assigned b (t ∷ []) (a ∷ rest) ≡ b
  unfolding assigned
  assigned-told b t a rest h = rw h refl

  pub assigned-call :
      (b : Outcome L E) (t : TickCall) (ts : List TickCall) (a : Attempt L E)
      (rest : List (Attempt L E))
      → told t.call ≡ false
      → assigned b (t ∷ ts) (a ∷ rest) ≡ assigned a.outcome ts rest
  unfolding assigned
  assigned-call b t ts a rest h = rw h refl

  pub assigned-none : (b : Outcome L E) (rest : List (Attempt L E)) → assigned b [] rest ≡ b
  unfolding assigned
  assigned-none b rest = refl
