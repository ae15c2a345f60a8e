-- ===== src/Set/Members.antt =====
-- What the operations of Set.antt do to membership (_set/string_set.go).
use b_go_util.Base.{
  ◌≡◌, refl, ◌↔◌, inl, inr, Bool, true, false, not, ◌&&◌, ◌||◌, Option, none, some, List, [], arith,
  length, same, has_key, has_key-put_key, has_key-del_key, Bool-cases, ◌==◌, ==_iff, if◌then◌else◌,
  length-put_key, length-del_key, suc, Distinct,
}
use b_go_util.Set.{
  KeySet, size, contains, contains_all, contains_set, add, add_all, remove, remove_all, clone,
  clear, union, diff, new_diff, intersect, new_set,
}
use b_go_util.Set.Loops.{
  has_key_none, has_key-put_all, has_key-del_all, has_key-put_where-true, has_key-put_where-false,
  all_in_sound, all_in_complete,
}

-- Is `k` in a set that may be a nil pointer?
abbrev pub in_other {ℓ} : {K : Type ℓ} → Discrete K → Option (KeySet K) → K → Bool
in_other dec none k = false
in_other dec (some o) k = has_key dec k o.m

module _ {ℓ} {K : Type ℓ} (dec : Discrete K) where
  contains-union :
      (h : KeySet K) (o : Option (KeySet K)) (k : K)
      → contains dec (union dec h o) k ≡ (contains dec h k || in_other dec o k)
  unfolding contains union
  contains-union h none k = ground arith
  contains-union h (some o) k =
      ground (arith, has_key-put_all dec k o.m h.m, has_key_none dec k o.m)

  contains-diff :
      (h : KeySet K) (o : Option (KeySet K)) (k : K)
      → contains dec (diff dec h o) k ≡ (contains dec h k && not (in_other dec o k))
  unfolding contains diff
  contains-diff h none k = ground arith
  contains-diff h (some o) k = ground (arith, has_key-del_all dec k o.m h.m, has_key_none dec k o.m)

  contains-new_diff :
      (h : KeySet K) (o : Option (KeySet K)) (k : K)
      → contains dec (new_diff dec h o) k ≡ (contains dec h k && not (in_other dec o k))
  unfolding contains new_diff has_key
  contains-new_diff h none k = ground (arith, has_key-put_all dec k h.m [])
  contains-new_diff h (some o) k = ground (
    arith,
    has_key-put_all dec k h.m [],
    has_key-put_where-false dec k o.m h.m [],
    has_key_none dec k o.m,
  )

  contains-intersect :
      (h : KeySet K) (o : Option (KeySet K)) (k : K)
      → contains dec (intersect dec h o) k ≡ (contains dec h k && in_other dec o k)
  unfolding contains intersect has_key
  contains-intersect h none k = ground arith
  contains-intersect h (some o) k =
      ground (arith, has_key-put_where-true dec k o.m h.m [], has_key_none dec k o.m)

  -- For every other set, nil included, a key is in the union if it is in either set, in the
  -- intersection if it is in both, and in both differences if it is in the receiver alone.
  pub contains_algebra :
      (h : KeySet K) (o : Option (KeySet K)) (k : K)
      → (contains dec (union dec h o) k ≡ (contains dec h k || in_other dec o k))
        × (contains dec (intersect dec h o) k ≡ (contains dec h k && in_other dec o k))
        × (contains dec (diff dec h o) k ≡ (contains dec h k && not (in_other dec o k)))
        × (contains dec (new_diff dec h o) k ≡ (contains dec h k && not (in_other dec o k)))
  contains_algebra h o k =
      (contains-union h o k, contains-intersect h o k, contains-diff h o k, contains-new_diff h o k)

  -- After `Add` and `AddAll` exactly the given keys are new; after `Remove` and `RemoveAll` exactly
  -- the given keys are gone, and `Remove` returns whether its key was there; a new set holds its
  -- items, a clone what the receiver holds, and a cleared set nothing.
  pub contains_updates :
      (h : KeySet K) (item : K) (items : List K) (k : K)
      → (contains dec (add dec h item) k ≡ (same dec k item || contains dec h k))
        × (contains dec (add_all dec h items) k ≡ (has_key dec k items || contains dec h k))
        × (contains dec (remove dec h item).0 k ≡ (not (same dec k item) && contains dec h k))
        × ((remove dec h item).1 ≡ contains dec h item)
        × (contains dec (remove_all dec h items) k
            ≡ (not (has_key dec k items) && contains dec h k))
        × (contains dec (new_set dec items) k ≡ has_key dec k items)
        × (contains dec (clone dec h) k ≡ contains dec h k)
        × (contains dec (clear h) k ≡ false)
  unfolding contains add add_all remove remove_all new_set clone clear has_key
  contains_updates h item items k = (
    has_key-put_key dec item k h.m,
    has_key-put_all dec k items h.m,
    ground (arith, has_key-del_key dec item k h.m),
    ground arith,
    has_key-del_all dec k items h.m,
    ground (arith, has_key-put_all dec k items []),
    ground (arith, has_key-put_all dec k h.m []),
    refl,
  )

  -- `ContainsSet` holds exactly if every key of the other set, which may be nil, is in the receiver,
  -- and `ContainsAll` exactly if every given item is.
  pub contains_set_iff :
      (h : KeySet K) (o : Option (KeySet K)) (items : List K)
      → ((contains_set dec h o ≡ true)
          ↔ ((k : K) → in_other dec o k ≡ true → contains dec h k ≡ true))
        × ((contains_all dec h items ≡ true)
            ↔ ((k : K) → has_key dec k items ≡ true → contains dec h k ≡ true))
  unfolding contains_set contains_all contains size
  contains_set_iff h none items = (
    (λ _ k e. cc, λ _. refl),
    (λ e k. all_in_sound dec items h.m k e, all_in_complete dec items h.m),
  )
  contains_set_iff h (some o) items = (
    (
      λ e k. elim (Bool-cases (length o.m == 0)) [
        | inl z ↦ λ i. cc (has_key_none dec k o.m ((==_iff _ _).0 z))
        | inr p ↦ all_in_sound dec o.m h.m k (rw p at e)
      ],
      λ f. ground (arith, all_in_complete dec o.m h.m f),
    ),
    (λ e k. all_in_sound dec items h.m k e, all_in_complete dec items h.m),
  )

  -- On a map with distinct keys, `Add` grows the size by one exactly if the key is new, and `Remove`
  -- shrinks it by one exactly if the key was there.
  pub size_updates :
      (h : KeySet K) (item : K)
      → Distinct dec h.m
      → (size (some (add dec h item))
          ≡ (if contains dec h item then size (some h) else suc (size (some h))))
        × ((if contains dec h item
              then suc (size (some (remove dec h item).0))
              else size (some (remove dec h item).0))
            ≡ size (some h))
  unfolding size add remove contains
  size_updates h item d =
      (length-put_key dec item h.m, ground (arith, length-del_key dec item h.m d))
