-- ===== src/Errors.antt =====
-- util/error.go, with util.Sprintf of util/print.go: errors with codes. An error of any other type,
-- its text, errors.As, fmt.Sprintf and the %v of an integer are parameters; nil is `none`. A panic is
-- `none`.
pub mod Rpc
pub mod Codes
pub mod Transport
pub mod Agreement
mod Tests
use b_go_util.Base.{
  ℕ, ℤ, pos, negsuc, ℤ-discrete, same, get, ◌≡◌, refl, Bool, true, false, not, ◌&&◌, Option, none,
  some, map_option, List, [], ◌∷◌, if◌then◌else◌,
}
use Prim.Native.String.{String, ◌++◌}

-- The codes that the code tells apart.
abbrev pub code_unknown : ℤ
code_unknown = negsuc 0

abbrev pub code_ok : ℤ
code_ok = pos 0

abbrev pub code_nil : ℤ
code_nil = pos 1

abbrev pub code_internal : ℤ
code_internal = pos 2

abbrev pub code_assert_fail : ℤ
code_assert_fail = pos 3

abbrev pub code_illegal_arg : ℤ
code_illegal_arg = pos 4

abbrev pub code_illegal_state : ℤ
code_illegal_state = pos 5

abbrev pub code_type_cast : ℤ
code_type_cast = pos 6

abbrev pub code_un_auth : ℤ
code_un_auth = pos 7

abbrev pub code_forbidden : ℤ
code_forbidden = pos 8

abbrev pub code_timeout : ℤ
code_timeout = pos 9

abbrev pub code_too_often : ℤ
code_too_often = pos 10

abbrev pub code_canceled : ℤ
code_canceled = pos 11

abbrev pub code_aborted : ℤ
code_aborted = pos 12

abbrev pub code_not_found : ℤ
code_not_found = pos 13

abbrev pub code_redis : ℤ
code_redis = pos 100

abbrev pub code_db : ℤ
code_db = pos 200

pub record BizError (E : Type 0) : Type 0 where
  pub code : ℤ
  pub msg : String
  pub cause : Option E

-- A value of type interface{}, as far as the code looks at it.
pub data Arg (E V : Type 0) : Type 0 where
  err : E → Arg E V
  str : String → Arg E V
  val : V → Arg E V

abbrev pub code_prefix : (ℤ → String) → ℤ → String
code_prefix show c = "(" ++ show c ++ ")"

module _ {E V : Type 0} (text : E → String) (format : String → List (Arg E V) → String) where
  -- sprintf; none is the panic.
  unfoldable pub sprintf : List (Arg E V) → Option String
  sprintf [] = some ""
  sprintf (str f ∷ []) = some f
  sprintf (str f ∷ a ∷ args) = some (format f (a ∷ args))
  sprintf (err e ∷ args) = none
  sprintf (val v ∷ args) = none

  -- Sprintf.
  unfoldable pub sprint : List (Arg E V) → Option String
  unfolding sprintf
  sprint [] = some ""
  sprint (err e ∷ []) = some (text e)
  sprint (err e ∷ a ∷ args) = map_option (λ m. m ++ "->" ++ text e) (sprintf (a ∷ args))
  sprint (str f ∷ args) = sprintf (str f ∷ args)
  sprint (val v ∷ args) = sprintf (val v ∷ args)

  module _ (show : ℤ → String) where
    unfoldable pub new_biz_error : ℤ → List (Arg E V) → Option (BizError E)
    unfolding sprint
    new_biz_error code [] =
        some (record { code = code; msg = code_prefix show code ++ ""; cause = none })
    new_biz_error code (err e ∷ args) =
        map_option
          (λ m. record {
            code = code;
            msg = (code_prefix show code ++ m) ++ "->" ++ text e;
            cause = some e;
          })
          (sprint args)
    new_biz_error code (str f ∷ args) =
        map_option (λ m. record { code = code; msg = code_prefix show code ++ m; cause = none })
          (sprint (str f ∷ args))
    new_biz_error code (val v ∷ args) =
        map_option (λ m. record { code = code; msg = code_prefix show code ++ m; cause = none })
          (sprint (val v ∷ args))

    unfoldable pub new_nil_error : List (Arg E V) → Option (BizError E)
    new_nil_error args = new_biz_error code_nil args

    unfoldable pub new_not_found_error : List (Arg E V) → Option (BizError E)
    new_not_found_error args = new_biz_error code_not_found args

    unfoldable pub new_assert_fail_error : List (Arg E V) → Option (BizError E)
    new_assert_fail_error args = new_biz_error code_assert_fail args

    unfoldable pub new_internal_error : List (Arg E V) → Option (BizError E)
    new_internal_error args = new_biz_error code_internal args

    unfoldable pub new_illegal_arg_error : List (Arg E V) → Option (BizError E)
    new_illegal_arg_error args = new_biz_error code_illegal_arg args

    unfoldable pub new_illegal_state_error : List (Arg E V) → Option (BizError E)
    new_illegal_state_error args = new_biz_error code_illegal_state args

    unfoldable pub new_type_cast_error : List (Arg E V) → Option (BizError E)
    new_type_cast_error args = new_biz_error code_type_cast args

    unfoldable pub new_un_auth_error : List (Arg E V) → Option (BizError E)
    new_un_auth_error args = new_biz_error code_un_auth args

    unfoldable pub new_forbidden_error : List (Arg E V) → Option (BizError E)
    new_forbidden_error args = new_biz_error code_forbidden args

    unfoldable pub new_too_often_error : List (Arg E V) → Option (BizError E)
    new_too_often_error args = new_biz_error code_too_often args

    unfoldable pub new_redis_error : List (Arg E V) → Option (BizError E)
    new_redis_error args = new_biz_error code_redis args

    unfoldable pub new_db_error : List (Arg E V) → Option (BizError E)
    new_db_error args = new_biz_error code_db args

-- The methods of *BizError; a nil pointer is none.
module _ {E : Type 0} where
  unfoldable pub error_text : Option (BizError E) → String
  error_text none = ""
  error_text (some e) = e.msg

  unfoldable pub code_of : Option (BizError E) → ℤ
  code_of none = code_ok
  code_of (some e) = e.code

  unfoldable pub unwrap : Option (BizError E) → Option E
  unwrap none = none
  unwrap (some e) = e.cause

-- errors.As for *BizError: what it finds in the chain of an error, a nil pointer too.
module _ {E : Type 0} (find_biz : E → Option (Option (BizError E))) where
  -- AsBizError; with a nil error errors.As is false.
  unfoldable pub as_biz_error : Option E → Option (Option (BizError E))
  as_biz_error none = none
  as_biz_error (some e) = find_biz e

  unfoldable pub is_biz_error : Option E → Bool
  unfolding as_biz_error
  is_biz_error e = elim (as_biz_error e) [ none ↦ false | some _ ↦ true ]

  unfoldable pub get_code : Option E → ℤ
  unfolding as_biz_error code_of
  get_code none = code_ok
  get_code (some e) = elim (find_biz e) [ none ↦ code_unknown | some b ↦ code_of b ]

  unfoldable pub has_code : Option E → ℤ → Bool
  unfolding as_biz_error code_of
  has_code none code = same ℤ-discrete code code_ok
  has_code (some e) code = elim (find_biz e) [
    | none ↦ false
    | some b ↦ same ℤ-discrete (code_of b) code
  ]

  unfoldable pub is_ok_err : Option E → Bool
  is_ok_err e = has_code e code_ok

  unfoldable pub is_nil_err : Option E → Bool
  is_nil_err e = has_code e code_nil

  unfoldable pub is_un_auth_err : Option E → Bool
  is_un_auth_err e = has_code e code_un_auth

  unfoldable pub is_forbidden_err : Option E → Bool
  is_forbidden_err e = has_code e code_forbidden

module _ {E V : Type 0} (text : E → String) (format : String → List (Arg E V) → String)
    (show : ℤ → String) (find_biz : E → Option (Option (BizError E))) where
  -- ToBizError of an error that is not a BizError.
  unfoldable pub unknown_error : E → Option (BizError E)
  unfolding new_biz_error
  unknown_error e = new_biz_error text format show code_unknown (str (text e) ∷ [])

  unfoldable pub to_biz_error : Option E → Option (BizError E)
  unfolding new_biz_error unknown_error as_biz_error
  to_biz_error none = new_biz_error text format show code_ok []
  to_biz_error (some e) = elim (find_biz e) [
    | none ↦ unknown_error e
    | some none ↦ unknown_error e
    | some (some b) ↦ some b
  ]

abbrev pub code_http_status : List (ℤ × ℕ)
code_http_status =
    (code_illegal_arg, 400)
    ∷ (code_illegal_state, 425)
    ∷ (code_un_auth, 401)
    ∷ (code_forbidden, 403)
    ∷ (code_too_often, 429)
    ∷ (code_not_found, 404)
    ∷ (code_ok, 200)
    ∷ []

unfoldable pub to_http_status : ℤ → ℕ → ℕ
unfolding get
to_http_status code default_status = elim (get ℤ-discrete code code_http_status) [
  | none ↦ default_status
  | some s ↦ s
]
