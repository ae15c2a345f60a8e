-- ===== src/Bolt/Cursor.antt =====
-- ForEach of bolt/repo.go and the cursor's loop that it runs.
use b_go_util.Base.{
  ◌≡◌, refl, arith, Bool, true, false, not, ◌||◌, Option, none, some, is_some, List, [], ◌∷◌,
  if◌then◌else◌, Bool-cases, inl, inr,
}
use b_go_util.Bolt.{Bytes, Fault, nil_bucket, Bolt, BoltLaws, less, has_prefix, drop_before, Sorted}

abbrev Pairs : Type 0
Pairs = List (Bytes × Bytes)

module _ {E : Type 0} (fn : Bytes → Bytes → Bool × Option (Fault E)) where
  -- The pairs that fn is called with, and the error of the loop.
  unfoldable pub each_with : Bytes → Pairs → Pairs × Option (Fault E)
  unfolding has_prefix
  each_with p [] = ([], none)
  each_with p ((k, v) ∷ pairs) =
      let rest = each_with p pairs in
      if not (has_prefix k p)
      then ([], none)
      else if not (fn k v).0 || is_some (fn k v).1
      then ((k, v) ∷ [], (fn k v).1)
      else ((k, v) ∷ rest.0, rest.1)

  unfoldable pub each_pair : Pairs → Pairs × Option (Fault E)
  each_pair [] = ([], none)
  each_pair ((k, v) ∷ pairs) =
      let rest = each_pair pairs in
      if not (fn k v).0 || is_some (fn k v).1
      then ((k, v) ∷ [], (fn k v).1)
      else ((k, v) ∷ rest.0, rest.1)

  -- iterateCursor; `blank` is what _string.Empty says of the prefix.
  unfoldable pub iterate_cursor :
      (Bytes → Bool) → (B : Bolt E) → B.Bucket → Option Bytes → Pairs × Option (Fault E)
  unfolding each_with each_pair
  iterate_cursor blank B b none = each_pair (B.pairs b)
  iterate_cursor blank B b (some p) =
      if blank p then each_pair (B.pairs b) else each_with p (B.seek b p)

  -- ForEach: the pairs that fn is called with if the view runs its function, and what ForEach returns.
  unfoldable pub for_each :
      (Bytes → Bool) → (B : Bolt E) → Bytes → B.Db → Option Bytes → Pairs × Option (Fault E)
  unfolding iterate_cursor
  for_each blank B name db prefix = (
    elim (B.bucket db name) [ none ↦ [] | some b ↦ (iterate_cursor blank B b prefix).0 ],
    B.view db (λ tx. elim (B.bucket tx name) [
      | none ↦ some nil_bucket
      | some b ↦ (iterate_cursor blank B b prefix).1
    ]),
  )

-- The keys of a bucket that have the prefix.
abbrev pub with_prefix : Bytes → List (Bytes × Bytes) → List (Bytes × Bytes)
with_prefix p [] = []
with_prefix p ((k, v) ∷ pairs) =
    if has_prefix k p then (k, v) ∷ with_prefix p pairs else with_prefix p pairs

prefix-Least : (k p : Bytes) → less k p ≡ true → has_prefix k p ≡ false
unfolding less has_prefix
prefix-Least [] [] h = cc
prefix-Least [] (b ∷ p) h = refl
prefix-Least (a ∷ k) [] h = cc
prefix-Least (a ∷ k) (b ∷ p) h = ground (arith, prefix-Least k p)

past_prefix :
    (k j p : Bytes)
    → less k p ≡ false
    → has_prefix k p ≡ false
    → less k j ≡ true
    → has_prefix j p ≡ false
unfolding less has_prefix
past_prefix k j [] h q l = cc
past_prefix [] j (b ∷ p) h q l = cc
past_prefix (a ∷ k) [] (b ∷ p) h q l = refl
past_prefix (a ∷ k) (c ∷ j) (b ∷ p) h q l = ground (arith, past_prefix k j p)

past_start : (k j p : Bytes) → less k p ≡ false → less k j ≡ true → less j p ≡ false
unfolding less
past_start k [] [] h l = refl
past_start k (c ∷ j) [] h l = refl
past_start [] j (b ∷ p) h l = cc
past_start (a ∷ k) [] (b ∷ p) h l = cc
past_start (a ∷ k) (c ∷ j) (b ∷ p) h l = ground (arith, past_start k j p)

Sorted-tail : (k v : Bytes) (pairs : Pairs) → Sorted ((k, v) ∷ pairs) → Sorted pairs
Sorted-tail k v [] s = tt
Sorted-tail k v ((j, w) ∷ pairs) s = s.1

-- Past the keys with the prefix there are none.
none_left :
    (k v p : Bytes) (pairs : Pairs)
    → Sorted ((k, v) ∷ pairs)
    → less k p ≡ false
    → has_prefix k p ≡ false
    → with_prefix p pairs ≡ []
none_left k v p [] s l h = refl
none_left k v p ((j, w) ∷ pairs) (kj, s) l h =
    let past = past_prefix k j p l h kj in
    rw past (none_left j w p pairs s (past_start k j p l kj) past)

module _ {E : Type 0} (fn : Bytes → Bytes → Bool × Option (Fault E)) where
  each_with-Started :
      (k v p : Bytes) (pairs : Pairs)
      → Sorted ((k, v) ∷ pairs)
      → less k p ≡ false
      → each_with fn p ((k, v) ∷ pairs) ≡ each_pair fn (with_prefix p ((k, v) ∷ pairs))
  unfolding each_with each_pair
  each_with-Started k v p [] s l = ground arith
  each_with-Started k v p ((j, w) ∷ pairs) (kj, s) l = elim (Bool-cases (has_prefix k p)) [
    | inl h ↦ rw (h, each_with-Started j w p pairs s (past_start k j p l kj)) refl
    | inr h ↦ rw (each_with, h, none_left k v p ((j, w) ∷ pairs) (kj, s) l h) refl
  ]

  each_with_lem :
      (p : Bytes) (pairs : Pairs)
      → Sorted pairs
      → each_with fn p (drop_before p pairs) ≡ each_pair fn (with_prefix p pairs)
  unfolding each_with each_pair
  each_with_lem p [] s = refl
  each_with_lem p ((k, v) ∷ pairs) s = elim (Bool-cases (less k p)) [
    | inl h ↦ rw (h, prefix-Least k p h) (each_with_lem p pairs (Sorted-tail k v pairs s))
    | inr h ↦ rw h (each_with-Started k v p pairs s h)
  ]

  -- The cursor's loop from Seek on, for a prefix that is not blank, calls the callback with the same
  -- pairs in the same order, and ends with the same error, as the loop over all pairs would if the
  -- bucket held nothing but the pairs whose key has the prefix.
  pub prefix_visits :
      (blank : Bytes → Bool) (B : Bolt E) (laws : BoltLaws B) (b : B.Bucket) (p : Bytes)
      → blank p ≡ false
      → iterate_cursor fn blank B b (some p) ≡ each_pair fn (with_prefix p (B.pairs b))
  unfolding iterate_cursor
  prefix_visits blank B laws b p h =
      rw (h, laws.seek_law b p) (each_with_lem p (B.pairs b) (laws.pairs_law b))
