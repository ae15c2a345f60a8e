-- ===== src/Http/Tests.antt =====
-- The theorems on the error handler at concrete errors.
use Prim.Native.String.{String}
use b_go_util.Base.{
  ℕ, zero, suc, ◌≤◌, ◌<◌, pos, false, ◌≡◌, refl, arith, Option, none, some, List, [], ◌∷◌, ltb,
  if◌then◌else◌,
}
use b_go_util.Errors.{Arg, BizError, get_code}
use b_go_util.Http.{
  HttpError, Kind, validation_error, other_kind, GinErr, gin_error, bare, new_error_handler,
  to_http_err_status, first_three, digits, number_of, Answer, silent, handle, to_http_err_code,
  to_http_err, http_err_of, last_error, send_err_rsp,
}
use b_go_util.Http.Statuses.{divided, status_valid}
use b_go_util.Http.Answers.{IsAnswer, Explains, WhySilent, handle_answers}

status_valid_example :
    (100 ≤ to_http_err_status new_error_handler (pos 40312))
    × (to_http_err_status new_error_handler (pos 40312) < 1000)
    × ((n : ℕ)
        → pos 40312 ≡ pos n
        → 1000 ≤ n
        → new_error_handler.disable_parse ≡ false
        → (k : ℕ) × (0 < k) × (to_http_err_status new_error_handler (pos 40312) ≡ divided k n))
status_valid_example = status_valid new_error_handler (pos 40312)

first_three_test : first_three 40312 ≡ 403
unfolding first_three digits number_of
first_three_test = refl

-- Errors are numbers: 1 is a validation.Error with the code 1001, 2 leads to a nil *Error, and 3 to
-- one with status 409.
abbrev conflict : HttpError ℕ
conflict = record { status = pos 409; code = pos 4091; msg = "conflict"; cause = none }

own_of : ℕ → Option (Option (HttpError ℕ))
own_of zero = none
own_of (suc zero) = none
own_of (suc (suc zero)) = some none
own_of (suc (suc (suc n))) = some (some conflict)

some_find : GinErr ℕ → Option (Option (HttpError ℕ))
some_find (gin_error bind e) = own_of e
some_find (bare e) = own_of e

own_valid : (n : ℕ) (o : Option (HttpError ℕ)) → own_of n ≡ some o → IsAnswer o
unfolding own_of
own_valid zero o h = absurd (ground arith)
own_valid (suc zero) o h = absurd (ground arith)
own_valid (suc (suc zero)) none h = tt
own_valid (suc (suc zero)) (some x) h = absurd (ground arith)
own_valid (suc (suc (suc n))) none h = absurd (ground arith)
own_valid (suc (suc (suc n))) (some x) h = ground arith

find_valid : (e : GinErr ℕ) (o : Option (HttpError ℕ)) → some_find e ≡ some o → IsAnswer o
unfolding some_find
find_valid (gin_error bind e) o h = own_valid e o h
find_valid (bare e) o h = own_valid e o h

abbrev some_kind : ℕ → Kind
some_kind e = if ltb e 2 then validation_error (some (pos 1001)) else other_kind

abbrev no_text : ℕ → String
no_text e = "e"

abbrev no_format : String → List (Arg ℕ ℕ) → String
no_format f args = f

abbrev no_biz : ℕ → Option (Option (BizError ℕ))
no_biz e = none

handle_answers_example :
    (a : Answer ℕ) × (handle no_text no_format no_biz some_find some_kind new_error_handler false
        none none false
        (gin_error false 1 ∷ gin_error false 3 ∷ [])
      ≡ some a)
    × Explains
        (WhySilent no_text no_format no_biz some_find some_kind none false
          (gin_error false 1 ∷ gin_error false 3 ∷ []))
        a
handle_answers_example =
    handle_answers no_text no_format no_biz some_find some_kind new_error_handler false none false
      (gin_error false 1 ∷ gin_error false 3 ∷ []) find_valid

-- The code of a validation.Error is not that of the response: the *gin.Error around it hides it.
hidden_code_test :
    (to_http_err_code no_text no_format no_biz some_find some_kind (bare 1) ≡ pos 1001)
    × (to_http_err_code no_text no_format no_biz some_find some_kind (gin_error false 1)
        ≡ get_code no_biz (some 1))
unfolding to_http_err_code get_code
hidden_code_test = (refl, refl)

-- An error that leads to a nil *Error is not answered.
silent_test :
    handle no_text no_format no_biz some_find some_kind new_error_handler false none none false
      (gin_error false 2 ∷ [])
    ≡ some silent
unfolding handle to_http_err http_err_of last_error some_find own_of send_err_rsp
silent_test = refl
