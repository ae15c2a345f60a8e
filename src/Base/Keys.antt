-- ===== src/Base/Keys.antt =====
-- The keys of a Go map with no values (map[K]struct{}), in one of the orders in which `range` may
-- visit them: no operation of the library says which, so every list stands for its keys.
use Prim.Native.Nat.{suc}
use mathlib.Core.Path.{◌≡◌, refl}
use mathlib.Core.Logic.{ite, if_pos, if_neg}
use mathlib.Core.Bool.{Bool, true, false, not, ◌&&◌, ◌||◌}
use mathlib.Core.List.{List, [], ◌∷◌, ◌++◌}
use native.Mathlib.Omega.{arith}
use b_go_util.Base.Tests.{if◌then◌else◌, is_yes}
use b_go_util.Base.Lists.{length}

module _ {ℓ} {K : Type ℓ} (dec : Discrete K) where
  -- k == x
  abbrev pub same : K → K → Bool
  same k x = is_yes (dec k x)

  -- _, ok := m[k]
  unfoldable pub has_key : K → List K → Bool
  has_key k [] = false
  has_key k (x ∷ xs) = same k x || has_key k xs

  -- m[k] = struct{}{}
  unfoldable pub put_key : K → List K → List K
  put_key k [] = k ∷ []
  put_key k (x ∷ xs) = ite (dec k x) (x ∷ xs) (x ∷ put_key k xs)

  -- delete(m, k)
  unfoldable pub del_key : K → List K → List K
  del_key k [] = []
  del_key k (x ∷ xs) = let rest = del_key k xs in ite (dec k x) rest (x ∷ rest)

  -- A map holds a key once.
  abbrev pub Distinct : List K → Type 0
  Distinct [] = Unit
  Distinct (x ∷ xs) = (has_key x xs ≡ false) × Distinct xs

  pub has_key-put_key :
      (k j : K) (xs : List K) → has_key j (put_key k xs) ≡ (same j k || has_key j xs)
  unfolding has_key put_key
  has_key-put_key k j [] = refl
  has_key-put_key k j (x ∷ xs) = ground (arith, has_key-put_key k j xs)

  pub has_key-del_key :
      (k j : K) (xs : List K) → has_key j (del_key k xs) ≡ (not (same j k) && has_key j xs)
  unfolding has_key del_key
  has_key-del_key k j [] = ground arith
  has_key-del_key k j (x ∷ xs) = ground (arith, has_key-del_key k j xs)

  pub put_key-Distinct : (k : K) (xs : List K) → Distinct xs → Distinct (put_key k xs)
  unfolding has_key put_key
  put_key-Distinct k [] d = (refl, tt)
  put_key-Distinct k (x ∷ xs) d = elim (dec k x) [
    | yes e ↦ rw (if_pos _ e) d
    | no n ↦ rw (if_neg _ n) (ground (arith, has_key-put_key k x xs), put_key-Distinct k xs d.1)
  ]

  pub del_key-Distinct : (k : K) (xs : List K) → Distinct xs → Distinct (del_key k xs)
  unfolding has_key del_key
  del_key-Distinct k [] d = tt
  del_key-Distinct k (x ∷ xs) d = elim (dec k x) [
    | yes e ↦ rw (if_pos _ e) (del_key-Distinct k xs d.1)
    | no n ↦ rw (if_neg _ n) (ground (arith, has_key-del_key k x xs), del_key-Distinct k xs d.1)
  ]

  pub del_key_absent : (k : K) (xs : List K) → has_key k xs ≡ false → del_key k xs ≡ xs
  unfolding has_key del_key
  del_key_absent k [] h = refl
  del_key_absent k (x ∷ xs) h = ground (arith, del_key_absent k xs)

  pub length-put_key :
      (k : K) (xs : List K)
      → length (put_key k xs) ≡ (if has_key k xs then length xs else suc (length xs))
  unfolding has_key put_key
  length-put_key k [] = refl
  length-put_key k (x ∷ xs) = ground (arith, length-put_key k xs)

  -- Deleting a key that is there takes one entry away.
  pub length-del_key :
      (k : K) (xs : List K)
      → Distinct xs
      → has_key k xs ≡ true
      → suc (length (del_key k xs)) ≡ length xs
  unfolding has_key del_key
  length-del_key k [] d h = cc
  length-del_key k (x ∷ xs) d h = ground (arith, length-del_key k xs d.1, del_key_absent k xs)

  pub has_key-append :
      (k : K) (xs ys : List K) → has_key k (xs ++ ys) ≡ (has_key k xs || has_key k ys)
  unfolding has_key
  has_key-append k [] ys = refl
  has_key-append k (x ∷ xs) ys = ground (arith, has_key-append k xs ys)

  pub has_key_self : (k : K) (xs : List K) → has_key k (k ∷ xs) ≡ true
  unfolding has_key
  has_key_self k xs = elim (dec k k) [ yes e ↦ ground arith | no n ↦ absurd (n refl) ]
