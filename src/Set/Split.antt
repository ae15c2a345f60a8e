-- ===== src/Set/Split.antt =====
-- `Pop`, `ForEach` and `ToSlice` of _set/string_set.go.
use mathlib.Core.List.{append-nil, append_assoc}
use b_go_util.Base.{
  Bool-cases, ltb_ℤ, leb_ℤ, inl, inr, ℕ, zero, suc, ◌+◌, ◌-◌, ◌≤◌, min, ◌≡◌, refl, sym, ◌∙◌, ap,
  some, Bool, true, false, ◌&&◌, ◌||◌, List, [], ◌∷◌, ◌++◌, arith, length, take, drop,
  take-append-drop, length-take, length-drop, has_key, put_key, del_key, Distinct, has_key-append,
  del_key_absent, if◌then◌else◌, ℤ, pos, negsuc, pos_part, if_pos,
}
use b_go_util.Set.{
  KeySet, size, contains, put_all, pop, pop_loop, visit, for_each, append_each, to_slice,
}

below_one_neg : (n : ℕ) → ltb_ℤ (negsuc n) (pos 1) ≡ true
below_one_neg n = ground arith

not_below_one : (w : ℕ) → ltb_ℤ (pos (suc w)) (pos 1) ≡ false
not_below_one w = ground arith

fits : (a w : ℕ) → leb_ℤ (pos a) (pos (suc w)) ≡ true → a ≤ suc w
fits a w h = ground arith

module _ {ℓ} {K : Type ℓ} (dec : Discrete K) where
  put_key_absent : (k : K) (m : List K) → has_key dec k m ≡ false → put_key dec k m ≡ m ++ k ∷ []
  unfolding has_key put_key
  put_key_absent k [] h = refl
  put_key_absent k (x ∷ xs) h = ground (arith, put_key_absent k xs)

  del_key_head : (k : K) (ks : List K) → has_key dec k ks ≡ false → del_key dec k (k ∷ ks) ≡ ks
  unfolding del_key
  del_key_head k ks h = elim (dec k k) [
    | yes e ↦ rw (if_pos _ e) (del_key_absent dec k ks h)
    | no n ↦ absurd (n refl)
  ]

  -- `m` holds none of the keys that are left.
  abbrev Fresh : List K → List K → Type 0
  Fresh [] m = Unit
  Fresh (k ∷ ks) m = (has_key dec k m ≡ false) × Fresh ks m

  Fresh-append :
      (k : K) (ks m : List K) → has_key dec k ks ≡ false → Fresh ks m → Fresh ks (m ++ k ∷ [])
  unfolding has_key
  Fresh-append k [] m h f = tt
  Fresh-append k (x ∷ ks) m h f =
      (ground (arith, has_key-append dec x m (k ∷ [])), Fresh-append k ks m (ground arith) f.1)

  -- The loop moves the first keys that `range` visits, as many as are still wanted.
  pop_loop_lem :
      (ks m : List K) (i w n : ℕ)
      → n ≡ i + suc w
      → Distinct dec ks
      → Fresh ks m
      → pop_loop dec ks i n m ks ≡ (m ++ take (suc w) ks, drop (suc w) ks)
  unfolding pop_loop
  pop_loop_lem [] m i w n e d f = rw append-nil
  pop_loop_lem (k ∷ ks) m i zero n e d f =
      rw (put_key_absent k m f.0, del_key_head k ks d.0) (ground arith)
  pop_loop_lem (k ∷ ks) m i (suc w) n e d f =
      rw (put_key_absent k m f.0, del_key_head k ks d.0)
        (ground (
          arith,
          pop_loop_lem ks (m ++ k ∷ []) (suc i) w n (omega arith) d.1 (Fresh-append k ks m d.0 f.1),
          append_assoc m (k ∷ []) (take (suc w) ks),
        ))

  Fresh-nil : (ks : List K) → Fresh ks []
  unfolding has_key
  Fresh-nil [] = tt
  Fresh-nil (k ∷ ks) = (refl, Fresh-nil ks)

  take_all : (n : ℕ) (xs : List K) → length xs ≤ n → (take n xs ≡ xs) × (drop n xs ≡ [])
  take_all zero [] h = (refl, refl)
  take_all zero (x ∷ xs) h = absurd (omega arith)
  take_all (suc n) [] h = (refl, refl)
  take_all (suc n) (x ∷ xs) h = ground (arith, take_all n xs)

  -- `Pop` cuts the order of visits in two, on each of its branches.
  pop-take :
      (h : KeySet K) (n : ℤ)
      → Distinct dec h.m
      → ((pop dec h n).0.m ≡ take (pos_part n) h.m) × ((pop dec h n).1.m ≡ drop (pos_part n) h.m)
  unfolding pop put_all
  pop-take h (negsuc n) d = rw (below_one_neg n) (refl, refl)
  pop-take h (pos zero) d = (refl, refl)
  pop-take h (pos (suc w)) d =
      rw (not_below_one w) (elim (Bool-cases (leb_ℤ (pos (length h.m)) (pos (suc w)))) [
        | inl e ↦
            let (all, none_left) = take_all (suc w) h.m (fits (length h.m) w e) in
            rw e (sym all, sym none_left)
        | inr e ↦
            rw (e, pop_loop_lem h.m [] 0 w (suc w) (omega arith) d (Fresh-nil h.m)) (refl, refl)
      ])

  apart :
      (xs ys : List K) (k : K)
      → Distinct dec (xs ++ ys)
      → (has_key dec k xs && has_key dec k ys) ≡ false
  unfolding has_key
  apart [] ys k d = refl
  apart (x ∷ xs) ys k d = ground (arith, apart xs ys k d.1, has_key-append dec x xs ys)

  -- `Pop(n)` moves min(n, size) keys (none if n is negative) to the set that it returns: every key
  -- of the receiver is then in exactly one of the two sets, and no other key is in either.
  pub pop_splits :
      (h : KeySet K) (n : ℤ)
      → Distinct dec h.m
      → (size (some (pop dec h n).0) ≡ min (pos_part n) (size (some h)))
        × (size (some (pop dec h n).1) ≡ size (some h) - pos_part n)
        × ((k : K)
            → ((contains dec (pop dec h n).0 k || contains dec (pop dec h n).1 k)
                ≡ contains dec h k)
              × ((contains dec (pop dec h n).0 k && contains dec (pop dec h n).1 k) ≡ false))
  unfolding size contains
  pop_splits h n d =
      let (front, back) = pop-take h n d in
      rw (front, back)
        (
          length-take (pos_part n) h.m,
          length-drop (pos_part n) h.m,
          λ k. (
            sym (has_key-append dec k (take (pos_part n) h.m) (drop (pos_part n) h.m))
                ∙ ap (has_key dec k) (take-append-drop (pos_part n) h.m),
            apart (take (pos_part n) h.m) (drop (pos_part n) h.m) k
                (rw (take-append-drop (pos_part n) h.m) d),
          ),
        )

module _ {ℓ} {K : Type ℓ} where
  append_each_lem : (ks list : List K) → append_each ks list ≡ list ++ ks
  unfolding append_each
  append_each_lem [] list = rw append-nil
  append_each_lem (k ∷ ks) list =
      append_each_lem ks (list ++ k ∷ []) ∙ append_assoc list (k ∷ []) ks

  -- The prefix of keys up to and with the first that `more` refuses.
  abbrev pub up_to : (K → Bool) → List K → List K
  up_to more [] = []
  up_to more (k ∷ ks) = k ∷ (if more k then up_to more ks else [])

  -- A callback that notes each key it is given, and goes on as long as `more` says.
  abbrev pub noting : (K → Bool) → K → List K → Bool × List K
  noting more k seen = (more k, seen ++ k ∷ [])

  visit-noting :
      (more : K → Bool) (ks seen : List K) → visit (noting more) ks seen ≡ seen ++ up_to more ks
  unfolding visit
  visit-noting more [] seen = rw append-nil
  visit-noting more (k ∷ ks) seen =
      ground
        (arith, visit-noting more ks (seen ++ k ∷ []), append_assoc seen (k ∷ []) (up_to more ks))

  -- `ForEach` calls back on the keys in the order of the map's visit, each once, up to and with the
  -- first for which the callback returns false; `ToSlice` lists the keys in that order.
  pub for_each_visits :
      (h : KeySet K) (more : K → Bool)
      → (for_each h (noting more) [] ≡ up_to more (to_slice h)) × (to_slice h ≡ h.m)
  unfolding for_each to_slice
  for_each_visits h more = rw (append_each_lem h.m []) (visit-noting more h.m [], refl)
