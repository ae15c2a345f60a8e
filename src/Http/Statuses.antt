-- ===== src/Http/Statuses.antt =====
-- The statuses that ToHttpErrStatus of http/mw_err_handler.go makes of error codes.
use b_go_util.Base.{
  ℕ, zero, suc, ◌/◌, ◌%◌, ◌<◌, ◌≤◌, ◌≡◌, ◌∙◌, refl, ap, arith, ltb, false, ◌||◌, List, [], ◌∷◌,
  ◌++◌, take, length, length-append, ℤ, pos, negsuc, dec_lt, Bool-cases, inl, inr, get,
}
use b_go_util.Errors.{to_http_status}
use b_go_util.Http.{digits, number_of, first_three, ErrorHandler, to_http_err_status}

-- A number without its last digits.
pub divided : ℕ → ℕ → ℕ
divided zero n = n
divided (suc k) n = divided k (n / 10)

take-append_long : (xs ys : List ℕ) → 3 ≤ length xs → take 3 (xs ++ ys) ≡ take 3 xs
take-append_long [] ys h = absurd (omega arith)
take-append_long (a ∷ []) ys h = absurd (omega arith)
take-append_long (a ∷ b ∷ []) ys h = absurd (omega arith)
take-append_long (a ∷ b ∷ c ∷ xs) ys h = refl

digits_more : (f n : ℕ) → 10 ≤ n → digits (suc f) n ≡ digits f (n / 10) ++ (n % 10 ∷ [])
unfolding digits
digits_more f n h = ground arith

digits_one : (f n : ℕ) → n < 10 → digits f n ≡ n ∷ []
unfolding digits
digits_one zero n h = refl
digits_one (suc f) n h = ground arith

three_digits :
    (f n : ℕ)
    → 100 ≤ n
    → n < 1000
    → digits (suc (suc f)) n ≡ n / 10 / 10 ∷ n / 10 % 10 ∷ n % 10 ∷ []
three_digits f n l h =
    rw
      (
        digits_more (suc f) n (omega arith),
        digits_more f (n / 10) (omega arith),
        digits_one f (n / 10 / 10) (omega arith),
      )
      refl

number_of_three : (n : ℕ) → n < 1000 → number_of 0 (n / 10 / 10 ∷ n / 10 % 10 ∷ n % 10 ∷ []) ≡ n
unfolding number_of
number_of_three n h = omega arith

-- The first three digits, with more fuel than digits.
abbrev IsLead : ℕ → List ℕ → Type 0
IsLead n ds =
    (3 ≤ length ds)
    × (100 ≤ number_of 0 (take 3 ds))
    × (number_of 0 (take 3 ds) < 1000)
    × (k : ℕ) × (number_of 0 (take 3 ds) ≡ divided k n)
    × (1000 ≤ n → 0 < k)

short-IsLead : (f n : ℕ) → 100 ≤ n → n < 1000 → IsLead n (digits (suc (suc f)) n)
unfolding divided
short-IsLead f n l h =
    rw (three_digits f n l h, number_of_three n h)
      (omega arith, l, h, 0, refl, λ m. absurd (omega arith))

longer-IsLead : (n d : ℕ) (ds : List ℕ) → IsLead (n / 10) ds → IsLead n (ds ++ d ∷ [])
unfolding divided
longer-IsLead n d ds (long, low, high, k, e, p) =
    rw (take-append_long ds (d ∷ []) long)
      (omega (arith, length-append ds (d ∷ [])), low, high, suc k, e, λ _. omega arith)

digits-IsLead : (f n : ℕ) → 100 ≤ n → n ≤ f → IsLead n (digits f n)
digits-IsLead zero n l h = absurd (omega arith)
digits-IsLead (suc zero) n l h = absurd (omega arith)
digits-IsLead (suc (suc f)) n l h = elim (dec_lt n 1000) [
  | yes s ↦ short-IsLead f n l s
  | no s ↦ rw (digits_more (suc f) n (omega arith)) (
      longer-IsLead n (n % 10) (digits (suc f) (n / 10))
        (digits-IsLead (suc f) (n / 10) (omega arith) (omega arith)))
]

to_http_status_valid :
    (code : ℤ) → (100 ≤ to_http_status code 500) × (to_http_status code 500 < 1000)
unfolding to_http_status get
to_http_status_valid code = ground arith

-- The status of an error code is one that an HTTP response may have, from 100 to 999. That of a code of
-- four digits or more is the code without its last digits, unless parsing is disabled.
pub status_valid :
    (h : ErrorHandler) (code : ℤ)
    → (100 ≤ to_http_err_status h code)
      × (to_http_err_status h code < 1000)
      × ((n : ℕ)
          → code ≡ pos n
          → 1000 ≤ n
          → h.disable_parse ≡ false
          → (k : ℕ) × (0 < k) × (to_http_err_status h code ≡ divided k n))
unfolding to_http_err_status first_three
status_valid h (negsuc m) =
    let (low, high) = to_http_status_valid (negsuc m) in
    (low, high, λ n e l d. absurd (ground arith))
status_valid h (pos m) = elim (Bool-cases (ltb m 1000 || h.disable_parse)) [
  | inl b ↦
      let (low, high) = to_http_status_valid (pos m) in
      rw b (low, high, λ n e l d. absurd (ground (arith, b)))
  | inr b ↦
      let (long, low, high, k, e, p) = digits-IsLead m m (ground (arith, b)) (omega arith) in
      rw b (low, high, λ n e' l d. (k, ground (arith, p), e ∙ ap (divided k) (ground arith)))
]
