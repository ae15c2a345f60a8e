-- ===== src/Scripts/Increments.antt =====
-- IncrEQ, IncrNEQ and HIncrEQ of rdb/ca.go.
use Prim.Native.String.{String}
use b_go_util.Base.{
  ℤ, pos, ◌+ℤ◌, IsInt64, wrap64_of_IsInt64, ℤ-discrete, true, false, ◌≡◌, ◌≢◌, ◌⊎◌, refl, sym,
  arith, none, some, same, String-discrete, inl, inr,
}
use b_go_util.Scripts.Swaps.{
  value_some, value_none, formats_apart, format_not_empty, counted, counted_missing,
}
use b_go_util.Scripts.{
  Numbers, Commands, incr_eq_script, incr_neq_script, int64_reply, Increment, incr_eq_result,
  incr_neq_result, incr_eq, incr_neq, hincr_eq_script, hincr_eq_result, hincr_eq,
}

abbrev pub failed_increment : Increment
failed_increment = record { ok = false; value_after = pos 0; failed = true }

same_texts : (v w : String) → v ≡ w → same String-discrete v w ≡ true
same_texts v w e = ground arith

other_texts : (v w : String) → v ≢ w → same String-discrete v w ≡ false
other_texts v w e = ground arith

same_numbers : (n m : ℤ) → n ≡ m → same ℤ-discrete n m ≡ true
same_numbers n m e = ground arith

other_numbers : (n m : ℤ) → n ≢ m → same ℤ-discrete n m ≡ false
other_numbers n m e = ground arith

module _ {K S : Type 0} (num : Numbers) (redis : Commands K S num) where
  -- An increment that was made, and one that was not.
  abbrev pub Made : K → S → ℤ → S × Increment → Type 0
  Made k s n r =
      (redis.get k r.0 ≡ some (num.format n))
      × (r.1 ≡ record { ok = true; value_after = n; failed = false })

  abbrev pub Refused : S → ℤ → S × Increment → Type 0
  Refused s n r = (r.0 ≡ s) × (r.1 ≡ record { ok = false; value_after = n; failed = false })

  module _ (k : K) (n val : ℤ) (s : S) where
    incr_eq-Made :
        redis.get k s ≡ some (num.format n)
        → IsInt64 n
        → IsInt64 val
        → IsInt64 (n +ℤ val)
        → Made k s (n +ℤ val) (incr_eq num redis k n val s)
    unfolding incr_eq incr_eq_script int64_reply incr_eq_result
    incr_eq-Made h i v j =
        let (s', e, g) = counted num redis k n val (num.format n) s h i v j in
        rw
          (
            value_some num redis k (num.format n) s h,
            same_texts (num.format n) (num.format n) refl,
            e,
            num.parse_format n i,
            same_numbers n n refl,
            wrap64_of_IsInt64 (n +ℤ val) j,
          )
          (g, refl)

    hincr_eq-Made :
        redis.get k s ≡ some (num.format n)
        → IsInt64 n
        → IsInt64 val
        → IsInt64 (n +ℤ val)
        → Made k s (n +ℤ val) (hincr_eq num redis k n val s)
    unfolding hincr_eq hincr_eq_script hincr_eq_result
    hincr_eq-Made h i v j =
        let (s', e, g) = redis.incr_some k n val s h i v j in
        rw
          (
            value_some num redis k (num.format n) s h,
            same_texts (num.format n) (num.format n) refl,
            e,
            wrap64_of_IsInt64 (n +ℤ val) j,
          )
          (g, refl)

    incr_neq-Refused :
        redis.get k s ≡ some (num.format n) → IsInt64 n → Refused s n (incr_neq num redis k n val s)
    unfolding incr_neq incr_neq_script int64_reply incr_neq_result
    incr_neq-Refused h i =
        rw
          (
            value_some num redis k (num.format n) s h,
            same_texts (num.format n) (num.format n) refl,
            num.parse_format n i,
            same_numbers n n refl,
          )
          (refl, refl)

  module _ (k : K) (n expect val : ℤ) (s : S) where
    incr_eq-Refused :
        redis.get k s ≡ some (num.format n)
        → IsInt64 n
        → IsInt64 expect
        → n ≢ expect
        → Refused s n (incr_eq num redis k expect val s)
    unfolding incr_eq incr_eq_script int64_reply incr_eq_result
    incr_eq-Refused h i j d =
        rw
          (
            value_some num redis k (num.format n) s h,
            other_texts (num.format n) (num.format expect) (formats_apart num redis n expect i j d),
            num.parse_format n i,
            other_numbers n expect d,
          )
          (refl, refl)

    hincr_eq-Refused :
        redis.get k s ≡ some (num.format n)
        → IsInt64 n
        → IsInt64 expect
        → n ≢ expect
        → Refused s (pos 0) (hincr_eq num redis k expect val s)
    unfolding hincr_eq hincr_eq_script hincr_eq_result
    hincr_eq-Refused h i j d =
        rw
          (
            value_some num redis k (num.format n) s h,
            other_texts (num.format n) (num.format expect) (formats_apart num redis n expect i j d),
          )
          (refl, refl)

    incr_neq-Made :
        redis.get k s ≡ some (num.format n)
        → IsInt64 n
        → IsInt64 expect
        → IsInt64 val
        → IsInt64 (n +ℤ val)
        → n ≢ expect
        → Made k s (n +ℤ val) (incr_neq num redis k expect val s)
    unfolding incr_neq incr_neq_script int64_reply incr_neq_result
    incr_neq-Made h i j v b d =
        let (s', e, g) = counted num redis k n val (num.format n) s h i v b in
        rw
          (
            value_some num redis k (num.format n) s h,
            other_texts (num.format n) (num.format expect) (formats_apart num redis n expect i j d),
            e,
            num.parse_format n i,
            other_numbers n expect d,
            wrap64_of_IsInt64 (n +ℤ val) b,
          )
          (g, refl)

  -- On a key that holds an int64 n, where the sum does not overflow: IncrEQ and HIncrEQ add the int64 val and
  -- report the sum just when n is the expected number, IncrNEQ just when it is not; else they leave all as
  -- it was and report no success, IncrEQ and IncrNEQ with n, HIncrEQ with 0. A val of 0 is no exception,
  -- against the comment on IncrNEQ in the source.
  pub increments_compare :
      (k : K) (n expect val : ℤ) (s : S)
      → redis.get k s ≡ some (num.format n)
      → IsInt64 n
      → IsInt64 expect
      → IsInt64 val
      → IsInt64 (n +ℤ val)
      → ((n ≡ expect)
          × Made k s (n +ℤ val) (incr_eq num redis k expect val s)
          × Made k s (n +ℤ val) (hincr_eq num redis k expect val s)
          × Refused s n (incr_neq num redis k expect val s))
        ⊎ ((n ≢ expect)
            × Refused s n (incr_eq num redis k expect val s)
            × Refused s (pos 0) (hincr_eq num redis k expect val s)
            × Made k s (n +ℤ val) (incr_neq num redis k expect val s))
  increments_compare k n expect val s h i j v b = elim (ℤ-discrete n expect) [
    | yes e ↦ inl (
      e,
      rw (sym e) (incr_eq-Made k n val s h i v b),
      rw (sym e) (hincr_eq-Made k n val s h i v b),
      rw (sym e) (incr_neq-Refused k n val s h i),
    )
    | no d ↦ inr (
      d,
      incr_eq-Refused k n expect val s h i j d,
      hincr_eq-Refused k n expect val s h i j d,
      incr_neq-Made k n expect val s h i j v b d,
    )
  ]

  -- On a missing key IncrEQ fails, whatever int64 it expects, 0 included, and leaves all as it was.
  -- IncrNEQ returns the same error, but the key then holds val.
  pub missing_key_fails :
      (k : K) (expect val : ℤ) (s : S)
      → redis.get k s ≡ none
      → IsInt64 expect
      → IsInt64 val
      → (incr_eq num redis k expect val s ≡ (s, failed_increment))
        × ((incr_neq num redis k expect val s).1 ≡ failed_increment)
        × (redis.get k (incr_neq num redis k expect val s).0 ≡ some (num.format val))
  unfolding incr_eq incr_eq_script int64_reply incr_eq_result incr_neq incr_neq_script
      incr_neq_result
  missing_key_fails k expect val s h i v =
      let (s', e, g) = counted_missing num redis k val "" s h v in
      let apart : "" ≢ num.format expect = λ e. format_not_empty num redis expect i (sym e) in
      rw (value_none num redis k s h, other_texts "" (num.format expect) apart, e, num.parse_empty)
        (refl, refl, g)
