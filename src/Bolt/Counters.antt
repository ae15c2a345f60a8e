-- ===== src/Bolt/Counters.antt =====
-- Incr and GetInt64 of bolt/repo.go.
use b_go_util.Base.{
  ℤ, ◌+ℤ◌, wrap64, IsInt64, wrap64-IsInt64, ◌≡◌, ◌⊎◌, inl, inr, refl, sym, ap, ◌∙◌, Option, none,
  some,
}
use mathlib.Core.Path.{subst}
use b_go_util.Bolt.{Bytes, Fault, nil_bucket, Bolt, BoltLaws}
use b_go_util.Bolt.Repository.{
  ok, fault, Strconv, view_bucket, get, get_string, get_int, then_res, incremented, incr,
}
use b_go_util.Bolt.Refinement.{lookup, incr-Incremented, Res-cases, ok_eq}

module _ {E : Type 0} (B : Bolt E) (conv : Strconv E) (name : Bytes) where
  get_int-Reads :
      (laws : BoltLaws B) (key val : Bytes) (m : ℤ) (db : B.Db) (b : B.Bucket)
      → B.bucket db name ≡ some b
      → B.get b key ≡ some val
      → conv.parse_int val ≡ ok m
      → ((e : Fault E) × (get_int B conv name key db ≡ fault e))
        ⊎ (get_int B conv name key db ≡ ok m)
  unfolding get_int get_string get view_bucket
  get_int-Reads laws key val m db b k g p =
      elim (laws.view_law db
        (λ tx. elim (B.bucket tx name) [ none ↦ some nil_bucket | some b ↦ none ])) [
          | inl (e, h) ↦ inl (e, rw h refl)
          | inr (c, h) ↦ inr (rw (h, k, g, p) refl)
        ]

  incremented-IsInt64 :
      (n m : ℤ) (val : Option Bytes) → IsInt64 n → incremented B conv name n val ≡ ok m → IsInt64 m
  unfolding incremented
  incremented-IsInt64 n m none h e = subst IsInt64 (ok_eq e) h
  incremented-IsInt64 n m (some val) h e = elim (Res-cases (conv.parse_int val)) [
    | inl (v, p) ↦
        subst IsInt64 (ok_eq (sym (ap (λ r. then_res r (λ v. ok (wrap64 (n +ℤ v)))) p) ∙ e))
          (wrap64-IsInt64 (n +ℤ v))
    | inr (f, p) ↦ absurd (cc (sym (ap (λ r. then_res r (λ v. ok (wrap64 (n +ℤ v)))) p) ∙ e))
  ]

  -- On any database Incr of an int64 either returns an error and changes nothing, or the key had no
  -- value, or one that ParseInt reads, and Incr returns the sum, cut to an int64 (the given number if
  -- there was no value); after it GetInt64 gives that number too, or an error.
  pub incr_counts :
      (laws : BoltLaws B)
      (conv_law : (v : ℤ) → IsInt64 v → conv.parse_int (conv.format_int v) ≡ ok v) (key : Bytes)
      (n : ℤ) (db : B.Db)
      → IsInt64 n
      → ((e : Fault E) × (incr B conv name key n db ≡ (db, fault e)))
        ⊎ ((m : ℤ) × (after : B.Db) × (incr B conv name key n db ≡ (after, ok m))
            × (incremented B conv name n (lookup B conv name db key) ≡ ok m)
            × (((e : Fault E) × (get_int B conv name key after ≡ fault e))
                ⊎ (get_int B conv name key after ≡ ok m)))
  unfolding lookup
  incr_counts laws conv_law key n db h = elim (incr-Incremented B conv name laws key n db) [
    | inl failed ↦ inl failed
    | inr (b, m, k, i, c, ran) ↦ inr (
      m,
      B.set_bucket db name (B.put b key (conv.format_int m)).0,
      ran,
      rw (lookup, k) i,
      get_int-Reads laws key (conv.format_int m) m
          (B.set_bucket db name (B.put b key (conv.format_int m)).0)
          (B.put b key (conv.format_int m)).0
          (laws.bucket_law db name (B.put b key (conv.format_int m)).0)
          (laws.put_law b key (conv.format_int m) c)
          (conv_law m (incremented-IsInt64 n m (B.get b key) h i)),
    )
  ]
