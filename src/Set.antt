-- ===== src/Set.antt =====
-- _set/string_set.go: a set of keys behind a pointer, for any type of keys with decidable equality.
-- The state is the map's keys. A `*StringSet` that the source tests for nil is an `Option`.
-- A `range` over the map visits the keys in the order of the list, which is any order.
pub mod Loops
pub mod Members
pub mod Invariant
pub mod Equality
pub mod Split
mod Tests
use b_go_util.Base.{
  ℕ, suc, ◌==◌, ◌++◌, Bool, true, false, not, ◌&&◌, Option, none, some, List, [], ◌∷◌,
  if◌then◌else◌, length, ℤ, pos, leb_ℤ, ltb_ℤ, pos_part, has_key, put_key, del_key,
}

pub record KeySet {ℓ} (K : Type ℓ) : Type ℓ where
  pub m : List K

module _ {ℓ} {K : Type ℓ} where
  unfoldable pub size : Option (KeySet K) → ℕ
  size none = 0
  size (some h) = length h.m

  unfoldable pub empty : Option (KeySet K) → Bool
  empty none = true
  empty (some h) = length h.m == 0

  -- `fn` may change its own state and says whether to go on.
  visit {κ} : {S : Type κ} → (K → S → Bool × S) → List K → S → S
  visit fn [] s = s
  visit fn (k ∷ ks) s =
      let (more, s') = fn k s in let rest = visit fn ks s' in if more then rest else s'

  unfoldable pub for_each {κ} : {S : Type κ} → KeySet K → (K → S → Bool × S) → S → S
  unfolding visit
  for_each h fn s = visit fn h.m s

  unfoldable pub clear : KeySet K → KeySet K
  clear h = record { m = [] }

  append_each : List K → List K → List K
  append_each [] list = list
  append_each (k ∷ ks) list = append_each ks (list ++ k ∷ [])

  unfoldable pub to_slice : KeySet K → List K
  unfolding append_each
  to_slice h = append_each h.m []

module _ {ℓ} {K : Type ℓ} (dec : Discrete K) where
  -- for _, v := range items { m[v] = struct{}{} }
  unfoldable pub put_all : List K → List K → List K
  put_all [] m = m
  put_all (k ∷ ks) m = put_all ks (put_key dec k m)

  -- for _, item := range items { delete(m, item) }
  unfoldable pub del_all : List K → List K → List K
  del_all [] m = m
  del_all (k ∷ ks) m = del_all ks (del_key dec k m)

  -- Are all of these keys of `m`? The loop leaves at the first that is not.
  unfoldable pub all_in : List K → List K → Bool
  all_in [] m = true
  all_in (k ∷ ks) m = let rest = all_in ks m in if not (has_key dec k m) then false else rest

  -- Put into `out` the keys that are in `m`, or those that are not.
  unfoldable pub put_where : Bool → List K → List K → List K → List K
  put_where true m [] out = out
  put_where false m [] out = out
  put_where true m (k ∷ ks) out =
      put_where true m ks (if has_key dec k m then put_key dec k out else out)
  put_where false m (k ∷ ks) out =
      put_where false m ks (if has_key dec k m then out else put_key dec k out)

  unfoldable pub new_set : List K → KeySet K
  new_set items = record { m = put_all items [] }

  unfoldable pub contains : KeySet K → K → Bool
  contains h item = has_key dec item h.m

  unfoldable pub contains_all : KeySet K → List K → Bool
  contains_all h items = all_in items h.m

  unfoldable pub contains_set : KeySet K → Option (KeySet K) → Bool
  contains_set h none = true
  contains_set h (some other) = if size (some other) == 0 then true else all_in other.m h.m

  -- Sizes agree and are not 0 here, so neither pointer is nil.
  same_keys : Option (KeySet K) → Option (KeySet K) → Bool
  same_keys (some h) (some other) = all_in h.m other.m
  same_keys _ _ = false

  unfoldable pub equal : Option (KeySet K) → Option (KeySet K) → Bool
  unfolding same_keys size empty
  equal h other =
      if not (size h == size other)
      then false
      else if empty h && empty other
      then true
      else same_keys h other

  unfoldable pub add : KeySet K → K → KeySet K
  add h item = record { m = put_key dec item h.m }

  unfoldable pub add_all : KeySet K → List K → KeySet K
  add_all h items = record { m = put_all items h.m }

  unfoldable pub remove : KeySet K → K → KeySet K × Bool
  remove h item =
      if not (has_key dec item h.m) then (h, false) else (record { m = del_key dec item h.m }, true)

  unfoldable pub remove_all : KeySet K → List K → KeySet K
  remove_all h items = record { m = del_all items h.m }

  unfoldable pub clone : KeySet K → KeySet K
  clone h = record { m = put_all h.m [] }

  -- The loop of `Pop`: `i` keys are in `m` so far, and `rest` is the receiver's map.
  unfoldable pub pop_loop : List K → ℕ → ℕ → List K → List K → List K × List K
  pop_loop [] i n m rest = (m, rest)
  pop_loop (k ∷ ks) i n m rest =
      let more = pop_loop ks (suc i) n (put_key dec k m) (del_key dec k rest) in
      if suc i == n then (put_key dec k m, del_key dec k rest) else more

  -- The set that is returned, and the receiver afterwards.
  unfoldable pub pop : KeySet K → ℤ → KeySet K × KeySet K
  unfolding new_set
  pop h n =
      if ltb_ℤ n (pos 1)
      then (new_set [], h)
      else if leb_ℤ (pos (length h.m)) n
      then (record { m = h.m }, record { m = [] })
      else (record { m = popped.0 }, record { m = popped.1 })
    where
      popped : List K × List K
      popped = pop_loop h.m 0 (pos_part n) [] h.m

  unfoldable pub union : KeySet K → Option (KeySet K) → KeySet K
  union h none = h
  union h (some other) = if length other.m == 0 then h else record { m = put_all other.m h.m }

  unfoldable pub diff : KeySet K → Option (KeySet K) → KeySet K
  diff h none = h
  diff h (some other) = if length other.m == 0 then h else record { m = del_all other.m h.m }

  unfoldable pub new_diff : KeySet K → Option (KeySet K) → KeySet K
  unfolding clone
  new_diff h none = clone h
  new_diff h (some other) =
      if length other.m == 0 then clone h else record { m = put_where false other.m h.m [] }

  unfoldable pub intersect : KeySet K → Option (KeySet K) → KeySet K
  intersect h none = record { m = [] }
  intersect h (some other) =
      if length other.m == 0
      then record { m = [] }
      else record { m = put_where true other.m h.m [] }
