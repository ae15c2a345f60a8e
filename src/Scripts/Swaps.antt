-- ===== src/Scripts/Swaps.antt =====
-- What the compare-and-change scripts of rdb/ca.go do to a key, and what they report.
use Prim.Native.String.{String}
use b_go_util.Base.{
  ℤ, ◌+ℤ◌, IsInt64, Bool, true, false, ◌≡◌, ◌≢◌, ◌↔◌, ◌∙◌, refl, sym, ap, arith, Option, none, some,
}
use b_go_util.Scripts.{Numbers, Commands, value, set_eq, del_eq, set_neq, del_neq, incremented}

module _ {K S : Type 0} (num : Numbers) (redis : Commands K S num) where
  -- A change happened just when the test held, and it left this; else nothing changed.
  abbrev pub Changed : K → S → (Type 0) → Option String → S × Bool → Type 0
  Changed k s Test after r =
      ((r.1 ≡ true) ↔ Test) × ((r.1 ≡ true) → redis.get k r.0 ≡ after) × ((r.1 ≡ false) → r.0 ≡ s)

  -- SetEQ and DelEQ change a key just when its value, the empty text for a missing key, is the expected
  -- one, SetNEQ and DelNEQ just when it is not; they report whether they did, and else leave all as it was.
  pub swaps_compare :
      (k : K) (expect val : String) (s : S)
      → Changed k s (value num redis k s ≡ expect) (some val) (set_eq num redis k expect val s)
        × Changed k s (value num redis k s ≡ expect) none (del_eq num redis k expect s)
        × Changed k s (value num redis k s ≢ expect) (some val) (set_neq num redis k expect val s)
        × Changed k s (value num redis k s ≢ expect) none (del_neq num redis k expect s)
  unfolding set_eq del_eq set_neq del_neq
  swaps_compare k expect val s = ground (arith, redis.get_set k val s, redis.get_del k s)

  pub value_some : (k : K) (v : String) (s : S) → redis.get k s ≡ some v → value num redis k s ≡ v
  unfolding value
  value_some k v s h = rw (value, h) refl

  pub value_none : (k : K) (s : S) → redis.get k s ≡ none → value num redis k s ≡ ""
  unfolding value
  value_none k s h = rw (value, h) refl

  pub formats_apart : (n m : ℤ) → IsInt64 n → IsInt64 m → n ≢ m → num.format n ≢ num.format m
  formats_apart n m i j d e =
      d (some_injective (sym (num.parse_format n i) ∙ ap num.parse e ∙ num.parse_format m j))
    where
      some_injective : {a b : ℤ} → some a ≡ some b → a ≡ b
      some_injective h = ground arith

  pub format_not_empty : (n : ℤ) → IsInt64 n → num.format n ≢ ""
  format_not_empty n i e =
      absurd (none_some (sym num.parse_empty ∙ sym (ap num.parse e) ∙ num.parse_format n i))
    where
      none_some : {a : ℤ} → none ≡ some a → ⊥
      none_some h = ground arith

  -- What INCRBY leaves, on the key with a number.
  pub counted :
      (k : K) (n d : ℤ) (reply : String) (s : S)
      → redis.get k s ≡ some (num.format n)
      → IsInt64 n
      → IsInt64 d
      → IsInt64 (n +ℤ d)
      → (s' : S) × (incremented num redis k (num.format d) reply s ≡ (s', some reply))
        × (redis.get k s' ≡ some (num.format (n +ℤ d)))
  unfolding incremented
  counted k n d reply s h i j b =
      let (s', e, g) = redis.incr_some k n d s h i j b in (s', rw (incremented, e) refl, g)

  pub counted_missing :
      (k : K) (d : ℤ) (reply : String) (s : S)
      → redis.get k s ≡ none
      → IsInt64 d
      → (s' : S) × (incremented num redis k (num.format d) reply s ≡ (s', some reply))
        × (redis.get k s' ≡ some (num.format d))
  unfolding incremented
  counted_missing k d reply s h i =
      let (s', e, g) = redis.incr_missing k d s h i in (s', rw (incremented, e) refl, g)
