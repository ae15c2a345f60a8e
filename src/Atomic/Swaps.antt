-- ===== src/Atomic/Swaps.antt =====
-- The swaps of util/atomic.go, also when many goroutines race.
use b_go_util.Base.{
  ℕ_discrete, is_yes, ℕ, suc, pos, ℤ-discrete, Bool, true, false, not, ◌≡◌, refl, ap, ◌⊎◌, inl, inr,
  if◌then◌else◌, arith, Option, none, some, List, [], ◌∷◌,
}
use b_go_util.Atomic.{
  AtomicBool, new_bool, set_bool, cas_bool, bool_value, is_true, is_false, word_of, AtomicError,
  new_error, error_value, set_error_if_absent, cas_error,
}

-- The word is 0 or 1.
abbrev pub IsBool : AtomicBool → Type 0
IsBool b = (b.word ≡ pos 0) ⊎ (b.word ≡ pos 1)

abbrev pub Swaps : AtomicBool → Bool → Bool → Type 0
Swaps b expect v =
    ((cas_bool b expect).1 ≡ (if expect then is_true b else is_false b))
    × (bool_value (cas_bool b expect).0
        ≡ (if (cas_bool b expect).1 then not expect else bool_value b))
    × IsBool (cas_bool b expect).0
    × (bool_value (set_bool b v) ≡ v)
    × IsBool (set_bool b v)

Swaps-at : (w expect v : Bool) → Swaps (new_bool w) expect v
unfolding cas_bool bool_value is_true is_false set_bool new_bool word_of ℤ-discrete ℕ_discrete
Swaps-at true true true = (refl, refl, inl refl, refl, inr refl)
Swaps-at true true false = (refl, refl, inl refl, refl, inl refl)
Swaps-at true false true = (refl, refl, inr refl, refl, inr refl)
Swaps-at true false false = (refl, refl, inr refl, refl, inl refl)
Swaps-at false true true = (refl, refl, inl refl, refl, inr refl)
Swaps-at false true false = (refl, refl, inl refl, refl, inl refl)
Swaps-at false false true = (refl, refl, inr refl, refl, inr refl)
Swaps-at false false false = (refl, refl, inr refl, refl, inl refl)

bool_cases : (b : AtomicBool) → IsBool b → (w : Bool) × (b ≡ new_bool w)
unfolding new_bool word_of
bool_cases b (inl h) = (false, ap (λ w. record { word = w }) h)
bool_cases b (inr h) = (true, ap (λ w. record { word = w }) h)

-- On a word that is 0 or 1, CASwap swaps exactly if the value is the expected one; the value is then
-- the opposite, else what it was; Set gives the value that is set; both leave a word that is 0 or 1.
pub cas_bool-Swaps : (b : AtomicBool) (expect v : Bool) → IsBool b → Swaps b expect v
cas_bool-Swaps b expect v i = let (w, e) = bool_cases b i in rw e (Swaps-at w expect v)

not_same {ℓ} : {P : Type ℓ} (d : Dec P) → (P → ⊥) → is_yes d ≡ false
not_same (yes p) n = absurd (n p)
not_same (no _) n = refl

are_same {ℓ} : {P : Type ℓ} (d : Dec P) → P → is_yes d ≡ true
are_same (yes _) p = refl
are_same (no n) p = absurd (n p)

module _ {ℓ} {E : Type ℓ} (dec : Discrete (Option E)) where
  -- SetIfAbsent by each goroutine in turn: the value, and how many of the calls returned true.
  abbrev pub set_all : AtomicError E → List E → AtomicError E × ℕ
  set_all a [] = (a, 0)
  set_all a (err ∷ errs) =
      let (a', won) = set_error_if_absent dec a (some err) in
      let rest = set_all a' errs in (rest.0, if won then suc rest.1 else rest.1)

  set_when_present :
      (e err : E)
      → set_error_if_absent dec (record { packed = some e }) (some err)
        ≡ (record { packed = some e }, false)
  unfolding set_error_if_absent cas_error
  set_when_present e err = rw (not_same (dec (some e) none) (λ h. absurd (ground arith))) refl

  all_present :
      (e : E) (errs : List E)
      → set_all (record { packed = some e }) errs ≡ (record { packed = some e }, 0)
  all_present e [] = refl
  all_present e (err ∷ errs) = rw (set_when_present e err, all_present e errs) refl

  set_when_absent :
      (e : E)
      → set_error_if_absent dec (new_error dec) (some e) ≡ (record { packed = some e }, true)
  unfolding set_error_if_absent cas_error new_error
  set_when_absent e = rw (are_same (dec none none) refl) refl

  -- Of any goroutines that call SetIfAbsent with an error, in whatever order, the first wins: its
  -- error stays, and its call is the only one that returns true.
  pub first_error_wins :
      (e : E) (errs : List E)
      → (error_value dec (set_all (new_error dec) (e ∷ errs)).0 ≡ some e)
        × ((set_all (new_error dec) (e ∷ errs)).1 ≡ 1)
  unfolding error_value
  first_error_wins e errs = rw (set_when_absent e, all_present e errs) (refl, refl)
