-- ===== src/Base/Dict.antt =====
-- A Go map with values, as an association list in one of the orders that `range` may take.
use Prim.Native.Nat.{suc}
use mathlib.Core.Path.{◌≡◌, refl}
use mathlib.Core.Logic.{ite}
use mathlib.Core.List.{List, [], ◌∷◌}
use mathlib.Core.Option.{Option, none, some}
use native.Mathlib.Omega.{arith}
use b_go_util.Base.Tests.{is_some, if◌then◌else◌}
use b_go_util.Base.Lists.{length}
use b_go_util.Base.Keys.{has_key, put_key, del_key, Distinct, put_key-Distinct, del_key-Distinct}

module _ {ℓ} {K V : Type ℓ} where
  abbrev pub keys : List (K × V) → List K
  keys [] = []
  keys ((k, v) ∷ m) = k ∷ keys m

module _ {ℓ} {K V : Type ℓ} (dec : Discrete K) where
  -- v, ok := m[k]
  unfoldable pub get : K → List (K × V) → Option V
  get k [] = none
  get k ((j, v) ∷ m) = ite (dec k j) (some v) (get k m)

  -- m[k] = v
  unfoldable pub put : K → V → List (K × V) → List (K × V)
  put k v [] = (k, v) ∷ []
  put k v ((j, w) ∷ m) = ite (dec k j) ((j, v) ∷ m) ((j, w) ∷ put k v m)

  -- delete(m, k)
  unfoldable pub delete : K → List (K × V) → List (K × V)
  delete k [] = []
  delete k ((j, w) ∷ m) = let rest = delete k m in ite (dec k j) rest ((j, w) ∷ rest)

  abbrev pub DistinctKeys : List (K × V) → Type 0
  DistinctKeys m = Distinct dec (keys m)

  pub get-put :
      (k j : K) (v : V) (m : List (K × V)) → get j (put k v m) ≡ ite (dec j k) (some v) (get j m)
  unfolding get put
  get-put k j v [] = refl
  get-put k j v ((i, w) ∷ m) = ground (arith, get-put k j v m)

  pub get-delete : (k j : K) (m : List (K × V)) → get j (delete k m) ≡ ite (dec j k) none (get j m)
  unfolding get delete
  get-delete k j [] = ground arith
  get-delete k j ((i, w) ∷ m) = ground (arith, get-delete k j m)

  pub has_key-keys : (k : K) (m : List (K × V)) → has_key dec k (keys m) ≡ is_some (get k m)
  unfolding get has_key
  has_key-keys k [] = refl
  has_key-keys k ((j, v) ∷ m) = ground (arith, has_key-keys k m)

  keys-put : (k : K) (v : V) (m : List (K × V)) → keys (put k v m) ≡ put_key dec k (keys m)
  unfolding put put_key
  keys-put k v [] = refl
  keys-put k v ((j, w) ∷ m) = ground (arith, keys-put k v m)

  keys-delete : (k : K) (m : List (K × V)) → keys (delete k m) ≡ del_key dec k (keys m)
  unfolding delete del_key
  keys-delete k [] = refl
  keys-delete k ((j, w) ∷ m) = ground (arith, keys-delete k m)

  pub put-DistinctKeys :
      (k : K) (v : V) (m : List (K × V)) → DistinctKeys m → DistinctKeys (put k v m)
  put-DistinctKeys k v m d = rw (keys-put k v m) (put_key-Distinct dec k (keys m) d)

  pub delete-DistinctKeys : (k : K) (m : List (K × V)) → DistinctKeys m → DistinctKeys (delete k m)
  delete-DistinctKeys k m d = rw (keys-delete k m) (del_key-Distinct dec k (keys m) d)

  pub length-put :
      (k : K) (v : V) (m : List (K × V))
      → length (put k v m) ≡ (if is_some (get k m) then length m else suc (length m))
  unfolding get put
  length-put k v [] = refl
  length-put k v ((j, w) ∷ m) = ground (arith, length-put k v m)
