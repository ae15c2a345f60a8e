-- ===== src/Set/Loops.antt =====
-- The loops of Set.antt over the keys of a map: membership and distinctness of their results.
use b_go_util.Base.{
  ◌≡◌, refl, Bool, true, false, not, ◌&&◌, ◌||◌, List, [], ◌∷◌, arith, if◌then◌else◌, has_key,
  put_key, del_key, Distinct, has_key-put_key, has_key-del_key, put_key-Distinct, del_key-Distinct,
  length,
}
use b_go_util.Set.{put_all, del_all, all_in, put_where}

module _ {ℓ} {K : Type ℓ} (dec : Discrete K) where
  pub has_key_none : (j : K) (xs : List K) → length xs ≡ 0 → has_key dec j xs ≡ false
  unfolding has_key
  has_key_none j [] h = refl
  has_key_none j (x ∷ xs) h = absurd (omega arith)

  pub has_key-put_all :
      (j : K) (xs m : List K)
      → has_key dec j (put_all dec xs m) ≡ (has_key dec j xs || has_key dec j m)
  unfolding put_all has_key
  has_key-put_all j [] m = refl
  has_key-put_all j (x ∷ xs) m =
      ground (arith, has_key-put_all j xs (put_key dec x m), has_key-put_key dec x j m)

  pub has_key-del_all :
      (j : K) (xs m : List K)
      → has_key dec j (del_all dec xs m) ≡ (not (has_key dec j xs) && has_key dec j m)
  unfolding del_all has_key
  has_key-del_all j [] m = refl
  has_key-del_all j (x ∷ xs) m =
      ground (arith, has_key-del_all j xs (del_key dec x m), has_key-del_key dec x j m)

  pub has_key-put_where-true :
      (j : K) (m xs out : List K)
      → has_key dec j (put_where dec true m xs out)
        ≡ (has_key dec j xs && has_key dec j m || has_key dec j out)
  unfolding put_where has_key
  has_key-put_where-true j m [] out = refl
  has_key-put_where-true j m (x ∷ xs) out = ground (
    arith,
    has_key-put_where-true j m xs (if has_key dec x m then put_key dec x out else out),
    has_key-put_key dec x j out,
  )

  pub has_key-put_where-false :
      (j : K) (m xs out : List K)
      → has_key dec j (put_where dec false m xs out)
        ≡ (has_key dec j xs && not (has_key dec j m) || has_key dec j out)
  unfolding put_where has_key
  has_key-put_where-false j m [] out = refl
  has_key-put_where-false j m (x ∷ xs) out = ground (
    arith,
    has_key-put_where-false j m xs (if has_key dec x m then out else put_key dec x out),
    has_key-put_key dec x j out,
  )

  pub put_all-Distinct : (xs m : List K) → Distinct dec m → Distinct dec (put_all dec xs m)
  unfolding put_all
  put_all-Distinct [] m d = d
  put_all-Distinct (x ∷ xs) m d = put_all-Distinct xs (put_key dec x m) (put_key-Distinct dec x m d)

  pub del_all-Distinct : (xs m : List K) → Distinct dec m → Distinct dec (del_all dec xs m)
  unfolding del_all
  del_all-Distinct [] m d = d
  del_all-Distinct (x ∷ xs) m d = del_all-Distinct xs (del_key dec x m) (del_key-Distinct dec x m d)

  if-Distinct :
      (b : Bool) (xs ys : List K)
      → Distinct dec xs
      → Distinct dec ys
      → Distinct dec (if b then xs else ys)
  if-Distinct true xs ys d e = d
  if-Distinct false xs ys d e = e

  pub put_where-Distinct :
      (b : Bool) (m xs out : List K) → Distinct dec out → Distinct dec (put_where dec b m xs out)
  unfolding put_where
  put_where-Distinct true m [] out d = d
  put_where-Distinct false m [] out d = d
  put_where-Distinct true m (x ∷ xs) out d =
      put_where-Distinct true m xs _
        (if-Distinct (has_key dec x m) _ _ (put_key-Distinct dec x out d) d)
  put_where-Distinct false m (x ∷ xs) out d =
      put_where-Distinct false m xs _
        (if-Distinct (has_key dec x m) _ _ d (put_key-Distinct dec x out d))

  -- `all_in` says whether every key of the one list is a key of the other.
  pub all_in_sound :
      (xs m : List K) (j : K)
      → all_in dec xs m ≡ true
      → has_key dec j xs ≡ true
      → has_key dec j m ≡ true
  unfolding all_in has_key
  all_in_sound [] m j h k = cc
  all_in_sound (x ∷ xs) m j h k = ground (arith, all_in_sound xs m j)

  pub all_in_complete :
      (xs m : List K)
      → ((j : K) → has_key dec j xs ≡ true → has_key dec j m ≡ true)
      → all_in dec xs m ≡ true
  unfolding all_in has_key
  all_in_complete [] m h = refl
  all_in_complete (x ∷ xs) m h =
      ground (arith, h x, all_in_complete xs m (λ j k. h j (ground arith)))
