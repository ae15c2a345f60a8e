-- ===== src/Set/Equality.antt =====
-- `Equal` of _set/string_set.go, which compares sizes and then goes one way only.
use b_go_util.Base.{
  ℕ, ◌≤◌, ◌≡◌, ◌≢◌, refl, sym, ◌∙◌, ◌↔◌, inl, inr, Bool, true, false, Option, none, some, List, [],
  ◌∷◌, arith, length, has_key, del_key, Distinct, has_key-del_key, has_key_self, del_key-Distinct,
  length-del_key, Bool-cases, ◌==◌, ==_iff, if◌then◌else◌,
}
use b_go_util.Set.{KeySet, size, empty, equal, all_in}
use b_go_util.Set.Loops.{all_in_sound, all_in_complete}
use b_go_util.Set.Members.{in_other}

ne_of_test : (a b : ℕ) → (a == b) ≡ false → a ≢ b
ne_of_test a b h = ground arith

module _ {ℓ} {K : Type ℓ} (dec : Discrete K) where
  abbrev Within : List K → List K → Type ℓ
  Within xs ys = (k : K) → has_key dec k xs ≡ true → has_key dec k ys ≡ true

  Within-del_key :
      (x : K) (xs ys : List K)
      → has_key dec x xs ≡ false
      → Within (x ∷ xs) ys
      → Within xs (del_key dec x ys)
  unfolding has_key
  Within-del_key x xs ys new w k h = ground (arith, w k, has_key-del_key dec x k ys)

  -- Pigeonholes: distinct keys that all lie in another map are no more than its keys.
  length-le_of_Within :
      (xs ys : List K) → Distinct dec xs → Distinct dec ys → Within xs ys → length xs ≤ length ys
  length-le_of_Within [] ys d e w = omega arith
  length-le_of_Within (x ∷ xs) ys d e w = omega (
    arith,
    length-le_of_Within xs (del_key dec x ys) d.1 (del_key-Distinct dec x ys e)
        (Within-del_key x xs ys d.0 w),
    length-del_key dec x ys e (w x (has_key_self dec x xs)),
  )

  Within-back :
      (xs ys : List K)
      → Distinct dec xs
      → Distinct dec ys
      → length xs ≡ length ys
      → Within xs ys
      → Within ys xs
  Within-back xs ys d e n w k h = elim (Bool-cases (has_key dec k xs)) [
    | inl y ↦ y
    | inr absent ↦ absurd (
        omega (
          arith,
          length-le_of_Within xs (del_key dec k ys) d (del_key-Distinct dec k ys e)
              (λ j i. ground (arith, w j i, has_key-del_key dec k j ys)),
          length-del_key dec k ys e h,
        ))
  ]

  abbrev pub keys_of : Option (KeySet K) → List K
  keys_of none = []
  keys_of (some h) = h.m

  all_in_none : (xs ys : List K) → length xs ≡ 0 → all_in dec xs ys ≡ true
  unfolding all_in
  all_in_none [] ys h = refl
  all_in_none (x ∷ xs) ys h = absurd (omega arith)

  in_other-keys_of : (h : Option (KeySet K)) (k : K) → in_other dec h k ≡ has_key dec k (keys_of h)
  unfolding has_key
  in_other-keys_of none k = refl
  in_other-keys_of (some h) k = refl

  -- The code's ladder of tests, as one test of the two key lists.
  equal-all_in :
      (h o : Option (KeySet K))
      → equal dec h o ≡ (
          if length (keys_of h) == length (keys_of o)
          then all_in dec (keys_of h) (keys_of o)
          else false)
  unfolding equal size empty all_in
  equal-all_in none none = refl
  equal-all_in none (some o) = ground arith
  equal-all_in (some h) none = at_nil h.m
    where
      at_nil :
          (xs : List K)
          → equal dec (some (record { m = xs })) none
            ≡ (if length xs == 0 then all_in dec xs [] else false)
      at_nil [] = refl
      at_nil (x ∷ xs) = ground arith
  equal-all_in (some h) (some o) = ground (arith, all_in_none h.m o.m)

  agree : (a b : Bool) → (a ≡ true → b ≡ true) → (b ≡ true → a ≡ true) → a ≡ b
  agree a b f g = ground arith

  lists_iff :
      (xs ys : List K)
      → Distinct dec xs
      → Distinct dec ys
      → ((if length xs == length ys then all_in dec xs ys else false) ≡ true)
        ↔ ((k : K) → has_key dec k xs ≡ has_key dec k ys)
  lists_iff xs ys d e = elim (Bool-cases (length xs == length ys)) [
    | inl z ↦ rw z (
      λ h k.
          let w = all_in_sound dec xs ys in
          agree (has_key dec k xs) (has_key dec k ys) (w k h)
            (Within-back xs ys d e ((==_iff _ _).0 z) (λ j. w j h) k),
      λ f. all_in_complete dec xs ys (λ k i. cc (f k)),
    )
    | inr z ↦ rw z (
      λ h. absurd (cc),
      λ f. absurd (
          omega (
            arith,
            length-le_of_Within xs ys d e (λ k i. cc (f k)),
            length-le_of_Within ys xs e d (λ k i. cc (f k)),
            ne_of_test (length xs) (length ys) z,
          )),
    )
  ]

  -- `Equal` holds of two pointers, nil or not, exactly if the same keys are in both sets; a nil
  -- pointer counts as the empty set. The maps hold each key once.
  pub equal_iff :
      (h o : Option (KeySet K))
      → Distinct dec (keys_of h)
      → Distinct dec (keys_of o)
      → (equal dec h o ≡ true) ↔ ((k : K) → in_other dec h k ≡ in_other dec o k)
  equal_iff h o d e =
      let same_lists = lists_iff (keys_of h) (keys_of o) d e in
      (
        λ q k.
            in_other-keys_of h k
            ∙ same_lists.0 (sym (equal-all_in h o) ∙ q) k
            ∙ sym (in_other-keys_of o k),
        λ f.
            equal-all_in h o
            ∙ same_lists.1 (λ k. sym (in_other-keys_of h k) ∙ f k ∙ in_other-keys_of o k),
      )
