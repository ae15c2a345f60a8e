-- ===== src/Base/Lists.antt =====
-- Lists measured and indexed by native numbers, under the library's names.
use Prim.Native.Nat.{ℕ, zero, suc, ◌+◌, ◌-◌, ◌<◌, ◌≤◌, min}
use mathlib.Core.Path.{◌≡◌, refl, ap, ◌∙◌}
use mathlib.Core.Logic.{◌≢◌, ite, if_pos, if_neg}
use mathlib.Core.List.{List, [], ◌∷◌, ◌++◌}
use mathlib.Core.Option.{Option, none, some}
use native.Mathlib.Omega.{arith}
use native.Mathlib.Decide.{ℕ_discrete}

module _ {ℓ} {A : Type ℓ} where
  abbrev pub length : List A → ℕ
  length [] = 0
  length (x ∷ xs) = suc (length xs)

  abbrev pub get_elem? : List A → ℕ → Option A
  get_elem? [] i = none
  get_elem? (x ∷ xs) zero = some x
  get_elem? (x ∷ xs) (suc i) = get_elem? xs i

  -- A write out of bounds changes nothing.
  abbrev pub set : List A → ℕ → A → List A
  set [] i v = []
  set (x ∷ xs) zero v = v ∷ xs
  set (x ∷ xs) (suc i) v = x ∷ set xs i v

  abbrev pub take : ℕ → List A → List A
  take zero xs = []
  take (suc n) [] = []
  take (suc n) (x ∷ xs) = x ∷ take n xs

  abbrev pub drop : ℕ → List A → List A
  drop zero xs = xs
  drop (suc n) [] = []
  drop (suc n) (x ∷ xs) = drop n xs

  abbrev pub replicate : ℕ → A → List A
  replicate zero a = []
  replicate (suc n) a = a ∷ replicate n a

  pub length-append : (xs ys : List A) → length (xs ++ ys) ≡ length xs + length ys
  length-append [] ys = omega arith
  length-append (x ∷ xs) ys = omega (arith, length-append xs ys)

  pub length-set : (xs : List A) (i : ℕ) (v : A) → length (set xs i v) ≡ length xs
  length-set [] i v = refl
  length-set (x ∷ xs) zero v = refl
  length-set (x ∷ xs) (suc i) v = ap suc (length-set xs i v)

  pub get_elem?-set_self :
      (xs : List A) (i : ℕ) (v : A) → i < length xs → get_elem? (set xs i v) i ≡ some v
  get_elem?-set_self [] i v h = elim h [ ]
  get_elem?-set_self (x ∷ xs) zero v h = refl
  get_elem?-set_self (x ∷ xs) (suc i) v h = get_elem?-set_self xs i v (omega arith)

  pub get_elem?-set_ne :
      (xs : List A) (i j : ℕ) (v : A) → i ≢ j → get_elem? (set xs i v) j ≡ get_elem? xs j
  get_elem?-set_ne [] i j v h = refl
  get_elem?-set_ne (x ∷ xs) zero zero v h = absurd (h refl)
  get_elem?-set_ne (x ∷ xs) zero (suc j) v h = refl
  get_elem?-set_ne (x ∷ xs) (suc i) zero v h = refl
  get_elem?-set_ne (x ∷ xs) (suc i) (suc j) v h = get_elem?-set_ne xs i j v (λ e. h (ap suc e))

  pub take-append-drop : (n : ℕ) (xs : List A) → take n xs ++ drop n xs ≡ xs
  take-append-drop zero xs = refl
  take-append-drop (suc n) [] = refl
  take-append-drop (suc n) (x ∷ xs) = rw (take-append-drop n xs)

  pub take-append : (xs ys : List A) → take (length xs) (xs ++ ys) ≡ xs
  take-append [] ys = refl
  take-append (x ∷ xs) ys = ap (λ t. x ∷ t) (take-append xs ys)

  pub drop-append : (xs ys : List A) → drop (length xs) (xs ++ ys) ≡ ys
  drop-append [] ys = refl
  drop-append (x ∷ xs) ys = drop-append xs ys

  pub length-take : (n : ℕ) (xs : List A) → length (take n xs) ≡ min n (length xs)
  length-take zero xs = omega arith
  length-take (suc n) [] = omega arith
  length-take (suc n) (x ∷ xs) = omega (arith, length-take n xs)

  pub length-drop : (n : ℕ) (xs : List A) → length (drop n xs) ≡ length xs - n
  length-drop zero xs = omega arith
  length-drop (suc n) [] = omega arith
  length-drop (suc n) (x ∷ xs) = omega (arith, length-drop n xs)

  pub get_elem?-lt : (xs : List A) (i : ℕ) (v : A) → get_elem? xs i ≡ some v → i < length xs
  get_elem?-lt [] i v h = cc
  get_elem?-lt (x ∷ xs) zero v h = omega arith
  get_elem?-lt (x ∷ xs) (suc i) v h = omega (arith, get_elem?-lt xs i v h)

  pub get_elem?-some : (xs : List A) (i : ℕ) → i < length xs → (v : A) × (get_elem? xs i ≡ some v)
  get_elem?-some [] i h = elim h [ ]
  get_elem?-some (x ∷ xs) zero h = (x, refl)
  get_elem?-some (x ∷ xs) (suc i) h = get_elem?-some xs i (omega arith)

  pub get_elem?-append :
      (xs ys : List A) (i : ℕ) → i < length xs → get_elem? (xs ++ ys) i ≡ get_elem? xs i
  get_elem?-append [] ys i h = elim h [ ]
  get_elem?-append (x ∷ xs) ys zero h = refl
  get_elem?-append (x ∷ xs) ys (suc i) h = get_elem?-append xs ys i (omega arith)

  pub get_elem?-length : (xs : List A) (v : A) → get_elem? (xs ++ v ∷ []) (length xs) ≡ some v
  get_elem?-length [] v = refl
  get_elem?-length (x ∷ xs) v = get_elem?-length xs v

  -- The element, or a default out of range.
  abbrev pub get_or : List A → ℕ → A → A
  get_or [] i d = d
  get_or (x ∷ xs) zero d = x
  get_or (x ∷ xs) (suc i) d = get_or xs i d

  pub get_or-set :
      (xs : List A) (i j : ℕ) (v d : A)
      → i < length xs
      → get_or (set xs i v) j d ≡ ite (ℕ_discrete i j) v (get_or xs j d)
  get_or-set [] i j v d h = elim h [ ]
  get_or-set (x ∷ xs) zero zero v d h = rw (if_pos _ refl)
  get_or-set (x ∷ xs) zero (suc j) v d h =
      rw (if_neg _ (λ (e : zero ≡ suc j). absurd (omega arith)))
  get_or-set (x ∷ xs) (suc i) zero v d h =
      rw (if_neg _ (λ (e : suc i ≡ zero). absurd (omega arith)))
  get_or-set (x ∷ xs) (suc i) (suc j) v d h =
      get_or-set xs i j v d (omega arith) ∙ elim (ℕ_discrete i j) [
        | yes e ↦ rw (if_pos _ e, if_pos _ (ap suc e))
        | no n ↦ rw (if_neg _ n, if_neg _ (λ (e : suc i ≡ suc j). n (omega arith)))
      ]

  pub get_or-replicate : (n i : ℕ) (d : A) → get_or (replicate n d) i d ≡ d
  get_or-replicate zero i d = refl
  get_or-replicate (suc n) zero d = refl
  get_or-replicate (suc n) (suc i) d = get_or-replicate n i d

  pub length-replicate : (n : ℕ) (d : A) → length (replicate n d) ≡ n
  length-replicate zero d = refl
  length-replicate (suc n) d = ap suc (length-replicate n d)

  pub get_or_out : (xs : List A) (i : ℕ) (d : A) → length xs ≤ i → get_or xs i d ≡ d
  get_or_out [] i d h = refl
  get_or_out (x ∷ xs) zero d h = absurd (omega arith)
  get_or_out (x ∷ xs) (suc i) d h = get_or_out xs i d (omega arith)
