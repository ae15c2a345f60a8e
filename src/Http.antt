-- ===== src/Http.antt =====
-- http/error.go and http/mw_err_handler.go: errors with an HTTP status, and the gin middleware that answers
-- with them. Errors of other packages are a type E: their text, what errors.As finds in them and their kind
-- as far as the code looks at it are parameters. A nil pointer is none. A *gin.Error has no text of its own.
-- Logging and the body of a response beyond the error in it are left out.
pub mod Statuses
pub mod Json
pub mod Answers
mod Tests
use Prim.Native.String.{String, ◌++◌}
use b_go_util.Base.{
  ℕ, zero, suc, ◌+◌, ◌*◌, ◌/◌, ◌%◌, ℤ, pos, negsuc, ltb_ℤ, ltb, same, Bool, true, false, not, ◌&&◌,
  ◌||◌, Option, none, some, map_option, List, [], ◌∷◌, ◌++◌ as ◌+++◌, take, if◌then◌else◌,
  String-discrete, ℤ-discrete,
}
use b_go_util.Errors.{Arg, err, str, val, sprint, BizError, get_code, to_http_status}

pub record HttpError (E : Type 0) : Type 0 where
  pub status : ℤ
  pub code : ℤ
  pub msg : String
  pub cause : Option E

module _ {E V : Type 0} (text : E → String) (format : String → List (Arg E V) → String) where
  unfoldable pub new_error : ℤ → ℤ → List (Arg E V) → Option (HttpError E)
  new_error status code (err e ∷ args) =
      map_option
        (λ m. record { status = status; code = code; msg = m ++ "->" ++ text e; cause = some e })
        (sprint text format args)
  new_error status code [] =
      map_option (λ m. record { status = status; code = code; msg = m; cause = none })
        (sprint text format [])
  new_error status code (str f ∷ args) =
      map_option (λ m. record { status = status; code = code; msg = m; cause = none })
        (sprint text format (str f ∷ args))
  new_error status code (val v ∷ args) =
      map_option (λ m. record { status = status; code = code; msg = m; cause = none })
        (sprint text format (val v ∷ args))

  unfoldable pub new400_error : ℤ → List (Arg E V) → Option (HttpError E)
  new400_error code args = new_error (pos 400) code args

  unfoldable pub new500_error : ℤ → List (Arg E V) → Option (HttpError E)
  new500_error code args = new_error (pos 500) code args

module _ {E : Type 0} where
  unfoldable pub error_text : Option (HttpError E) → String
  error_text none = ""
  error_text (some e) = e.msg

  unfoldable pub status_of : Option (HttpError E) → ℤ
  status_of none = pos 200
  status_of (some e) = e.status

  unfoldable pub code_of : Option (HttpError E) → ℤ
  code_of none = pos 0
  code_of (some e) = e.code

  unfoldable pub unwrap : Option (HttpError E) → Option E
  unwrap none = none
  unwrap (some e) = e.cause

  unfoldable pub is_ok : Option (HttpError E) → Bool
  is_ok none = true
  is_ok (some e) = same ℤ-discrete e.status (pos 200)

-- What ErrorAlias holds, and JSON of it.
pub record ErrorAlias : Type 0 where
  pub status : ℤ
  pub code : ℤ
  pub msg : String

module _ {E : Type 0} (encode : Option ErrorAlias → String)
    (decode : String → Option ErrorAlias) where
  unfoldable pub marshal_json : Option (HttpError E) → String
  marshal_json none = encode none
  marshal_json (some e) = encode (some (record { status = e.status; code = e.code; msg = e.msg }))

  -- The error, and whether there was one in decoding.
  unfoldable pub unmarshal_json : HttpError E → String → HttpError E × Bool
  unmarshal_json e data_text = elim (decode data_text) [
    | none ↦ (e, true)
    | some a ↦ (record e { status = a.status; code = a.code; msg = a.msg }, false)
  ]

-- What the handler looks at in an error: the types of the two validation packages, with the number of
-- errors in a map and what Atoi makes of the code of a validation.Error.
pub data Kind : Type 0 where
  validator_errors : Kind
  validation_errors : ℕ → Kind
  validation_error : Option ℤ → Kind
  other_kind : Kind

-- An error as it reaches the handler: a *gin.Error around one, of type bind or not, or any other.
pub data GinErr (E : Type 0) : Type 0 where
  gin_error : Bool → E → GinErr E
  bare : E → GinErr E

abbrev pub cause_of : {E : Type 0} → GinErr E → E
cause_of (gin_error bind e) = e
cause_of (bare e) = e

abbrev pub is_validation_kind : Kind → Bool
is_validation_kind validator_errors = true
is_validation_kind (validation_errors n) = true
is_validation_kind (validation_error code) = true
is_validation_kind other_kind = false

-- strconv.Itoa of a number that is not negative, as its digits; n digits are enough.
unfoldable pub digits : ℕ → ℕ → List ℕ
digits zero n = n ∷ []
digits (suc fuel) n =
    let rest = digits fuel (n / 10) in if ltb n 10 then n ∷ [] else rest +++ (n % 10 ∷ [])

-- strconv.Atoi of digits, after a number.
unfoldable pub number_of : ℕ → List ℕ → ℕ
number_of acc [] = acc
number_of acc (d ∷ ds) = number_of (acc * 10 + d) ds

pub record ErrorHandler : Type 0 where
  pub rsp_err_field : String
  pub enable_log400 : Bool
  pub disable_parse : Bool  -- disableParseHttpStatusFromErrCode

unfoldable pub new_error_handler : ErrorHandler
new_error_handler = record { rsp_err_field = ""; enable_log400 = false; disable_parse = false }

unfoldable pub enable_log400_err : ErrorHandler → Bool → ErrorHandler
enable_log400_err h enable = record h { enable_log400 = enable }

unfoldable pub disable_parse_status : ErrorHandler → Bool → ErrorHandler
disable_parse_status h disable = record h { disable_parse = disable }

unfoldable pub with_rsp_err_field : ErrorHandler → String → ErrorHandler
with_rsp_err_field h field = record h { rsp_err_field = field }

-- strconv.Itoa(code)[:3], as a number
unfoldable pub first_three : ℕ → ℕ
unfolding digits number_of
first_three n = number_of 0 (take 3 (digits n n))

unfoldable pub to_http_err_status : ErrorHandler → ℤ → ℕ
unfolding first_three
to_http_err_status h (negsuc n) = to_http_status (negsuc n) 500
to_http_err_status h (pos n) =
    if ltb n 1000 || h.disable_parse then to_http_status (pos n) 500 else first_three n

-- What the middleware sends: nothing, what a hook sends, or an error as JSON, alone or in a field.
pub data Answer (E : Type 0) : Type 0 where
  silent : Answer E
  by_hook : HttpError E → Answer E
  sends : ℤ → String → HttpError E → Answer E

-- Whether an answer is logged.
unfoldable pub is_logged : {E : Type 0} → ErrorHandler → HttpError E → Bool
is_logged h e = h.enable_log400 || ltb_ℤ (pos 400) e.status

unfoldable pub send_err_rsp : {E : Type 0} → ErrorHandler → Bool → Option (HttpError E) → Answer E
send_err_rsp h has_hook none = silent
send_err_rsp h has_hook (some e) = if has_hook then by_hook e else sends e.status h.rsp_err_field e

module _ {E V : Type 0} (text : E → String) (format : String → List (Arg E V) → String)
    (find_biz : E → Option (Option (BizError E)))
    (find_http : GinErr E → Option (Option (HttpError E))) (kind : E → Kind) where
  unfoldable pub is_validation_err : GinErr E → Bool
  is_validation_err (gin_error bind e) = if bind then true else is_validation_kind (kind e)
  is_validation_err (bare e) = is_validation_kind (kind e)

  -- A switch with one case for each type: a validation error inside a *gin.Error is not looked at.
  unfoldable pub to_http_err_code : GinErr E → ℤ
  to_http_err_code (gin_error bind e) = get_code find_biz (some e)
  to_http_err_code (bare e) = coded (kind e)
    where
      coded : Kind → ℤ
      coded (validation_error (some code)) = code
      coded (validation_error none) = get_code find_biz (some e)
      coded (validation_errors n) = get_code find_biz (some e)
      coded validator_errors = get_code find_biz (some e)
      coded other_kind = get_code find_biz (some e)

  -- The last of the errors.
  unfoldable pub last_error : GinErr E → List (GinErr E) → GinErr E
  last_error e [] = e
  last_error e (e' ∷ es) = last_error e' es

  -- ToHttpErr without a hook, of the last error; none is a panic in formatting, some none is nil.
  unfoldable pub http_err_of : ErrorHandler → GinErr E → Option (Option (HttpError E))
  unfolding new400_error new_error to_http_err_status to_http_err_code is_validation_err
  http_err_of h e = elim (find_http e) [
    | some own ↦ some own
    | none ↦
        let code = to_http_err_code e in
        if is_validation_err e
        then map_option (λ x. some x) (new400_error text format code (str (text (cause_of e)) ∷ []))
        else map_option (λ x. some x)
            (new_error text format (pos (to_http_err_status h code)) code
              (str (text (cause_of e)) ∷ []))
  ]

  unfoldable pub to_http_err :
      ErrorHandler → Option (Option (HttpError E)) → List (GinErr E) → Option (Option (HttpError E))
  unfolding http_err_of last_error
  to_http_err h hook [] = some none
  to_http_err h (some answer) (e ∷ es) = some answer
  to_http_err h none (e ∷ es) = http_err_of h (last_error e es)

  -- Handle, after c.Next() has returned: the panic that it recovered, whether the context is aborted, and
  -- its errors; `hook` is what toHttpErrHook returns, if it is set.
  unfoldable pub handle :
      ErrorHandler
      → Bool
      → Option (Option (HttpError E))
      → Option E
      → Bool
      → List (GinErr E)
      → Option (Answer E)
  unfolding new500_error new_error send_err_rsp
  handle h has_send_hook hook (some e) aborted errors =
      map_option (λ x. send_err_rsp h has_send_hook (some x))
        (new500_error text format (get_code find_biz (some e)) (err e ∷ str "服务器崩溃" ∷ []))
  handle h has_send_hook hook none aborted [] = some silent
  handle h has_send_hook hook none aborted (e ∷ es) =
      if aborted
      then some silent
      else map_option (send_err_rsp h has_send_hook) (to_http_err h hook (e ∷ es))
