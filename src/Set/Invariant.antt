-- ===== src/Set/Invariant.antt =====
-- The keys of a set that its operations reach (_set/string_set.go).
use b_go_util.Base.{
  Option, none, some, List, [], Distinct, put_key-Distinct, del_key-Distinct, Bool, true, false,
  if◌then◌else◌, Bool-cases, inl, inr, length, ◌==◌, has_key,
}
use b_go_util.Set.{
  KeySet, new_set, add, add_all, remove, remove_all, clone, clear, union, diff, new_diff, intersect,
}
use b_go_util.Set.Loops.{put_all-Distinct, del_all-Distinct, put_where-Distinct}

module _ {ℓ} {K : Type ℓ} (dec : Discrete K) where
  abbrev pub IsValid : KeySet K → Type 0
  IsValid h = Distinct dec h.m

  if-IsValid : (b : Bool) (g h : KeySet K) → IsValid g → IsValid h → IsValid (if b then g else h)
  if-IsValid true g h v w = v
  if-IsValid false g h v w = w

  remove-IsValid : (h : KeySet K) (item : K) → IsValid h → IsValid (remove dec h item).0
  unfolding remove
  remove-IsValid h item v = elim (Bool-cases (has_key dec item h.m)) [
    | inl e ↦ rw e (del_key-Distinct dec item h.m v)
    | inr e ↦ rw e v
  ]

  union-IsValid : (h : KeySet K) (o : Option (KeySet K)) → IsValid h → IsValid (union dec h o)
  unfolding union
  union-IsValid h none v = v
  union-IsValid h (some o) v = if-IsValid (length o.m == 0) _ _ v (put_all-Distinct dec o.m h.m v)

  diff-IsValid : (h : KeySet K) (o : Option (KeySet K)) → IsValid h → IsValid (diff dec h o)
  unfolding diff
  diff-IsValid h none v = v
  diff-IsValid h (some o) v = if-IsValid (length o.m == 0) _ _ v (del_all-Distinct dec o.m h.m v)

  new_diff-IsValid : (h : KeySet K) (o : Option (KeySet K)) → IsValid (new_diff dec h o)
  unfolding new_diff
  new_diff-IsValid h none = put_all-Distinct dec h.m [] tt
  new_diff-IsValid h (some o) =
      if-IsValid (length o.m == 0) _ _ (put_all-Distinct dec h.m [] tt)
        (put_where-Distinct dec false o.m h.m [] tt)

  intersect-IsValid : (h : KeySet K) (o : Option (KeySet K)) → IsValid (intersect dec h o)
  unfolding intersect
  intersect-IsValid h none = tt
  intersect-IsValid h (some o) =
      if-IsValid (length o.m == 0) _ _ tt (put_where-Distinct dec true o.m h.m [] tt)

  -- Every constructor gives a set in which no key stands twice, and every operation that changes a
  -- valid set leaves it so, with another set that may be nil and need not be valid.
  pub operations-IsValid :
      (h : KeySet K) (o : Option (KeySet K)) (item : K) (items : List K)
      → IsValid h
      → IsValid (new_set dec items)
        × IsValid (clone dec h)
        × IsValid (clear h)
        × IsValid (add dec h item)
        × IsValid (add_all dec h items)
        × IsValid (remove dec h item).0
        × IsValid (remove_all dec h items)
        × IsValid (union dec h o)
        × IsValid (diff dec h o)
        × IsValid (new_diff dec h o)
        × IsValid (intersect dec h o)
  unfolding new_set clone clear add add_all remove_all
  operations-IsValid h o item items v = (
    put_all-Distinct dec items [] tt,
    put_all-Distinct dec h.m [] tt,
    tt,
    put_key-Distinct dec item h.m v,
    put_all-Distinct dec items h.m v,
    remove-IsValid h item v,
    del_all-Distinct dec items h.m v,
    union-IsValid h o v,
    diff-IsValid h o v,
    new_diff-IsValid h o,
    intersect-IsValid h o,
  )
