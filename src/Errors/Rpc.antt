-- ===== src/Errors/Rpc.antt =====
-- rpc/error.go: errors with codes and the status errors of gRPC. status.FromError (the status, if
-- any, and whether it is one), status.Error and strings.TrimPrefix are parameters; a code of gRPC is
-- a uint32.
use b_go_util.Base.{
  ℕ, ◌%◌, ◌^◌, ℤ, pos, ℤ-discrete, ℕ_discrete, bits64, get, put, leb, Bool, true, false, Option,
  none, some, map_option, List, [], ◌∷◌, if◌then◌else◌,
}
use b_go_util.Errors.{
  Arg, err, str, BizError, code_of, as_biz_error, new_biz_error, sprint, code_prefix, to_biz_error,
  code_unknown, code_ok, code_internal, code_illegal_arg, code_illegal_state, code_un_auth,
  code_forbidden, code_timeout, code_too_often, code_canceled, code_aborted, code_not_found,
}
use Prim.Native.String.{String}

-- codes.InvalidArgument and the others by their numbers in google.golang.org/grpc/codes.
abbrev pub code_rpc_code : List (ℤ × ℕ)
code_rpc_code =
    (code_illegal_arg, 3)
    ∷ (code_illegal_state, 9)
    ∷ (code_un_auth, 16)
    ∷ (code_forbidden, 7)
    ∷ (code_too_often, 8)
    ∷ (code_timeout, 4)
    ∷ (code_internal, 13)
    ∷ (code_not_found, 5)
    ∷ (code_canceled, 1)
    ∷ (code_aborted, 10)
    ∷ (code_unknown, 2)
    ∷ (code_ok, 0)
    ∷ []

-- rpcCodeCodeMap, in one of the orders in which the loop may meet the entries.
unfoldable pub inverted : List (ℤ × ℕ) → List (ℕ × ℤ)
unfolding put
inverted [] = []
inverted ((k, v) ∷ m) = put ℕ_discrete v k (inverted m)

unfoldable pub to_rpc_code : ℤ → ℕ → ℕ
unfolding get
to_rpc_code code default_code = elim (get ℤ-discrete code code_rpc_code) [
  | none ↦ default_code
  | some v ↦ v
]

unfoldable pub to_biz_code : ℕ → ℤ → ℤ
unfolding get inverted
to_biz_code code default_code = elim (get ℕ_discrete code (inverted code_rpc_code)) [
  | none ↦ default_code
  | some v ↦ v
]

unfoldable pub is_rpc_code : ℕ → Bool
is_rpc_code code = leb code 16

-- codes.Code(code) of an int.
abbrev pub uint32_of : ℤ → ℕ
uint32_of code = bits64 code % 2 ^ 32

module _ {E V : Type 0} (text : E → String) (format : String → List (Arg E V) → String)
    (show : ℤ → String) (find_biz : E → Option (Option (BizError E)))
    (from_error : E → Option (ℕ × String) × Bool) (status_error : ℕ → String → Option E)
    (trim_prefix : String → String → String) where
  unfoldable pub is_rpc_err : Option E → Bool
  is_rpc_err none = true
  is_rpc_err (some e) = (from_error e).1

  -- The code that ToRpcErr sends.
  unfoldable pub rpc_code_of : E → ℕ
  unfolding as_biz_error code_of to_rpc_code
  rpc_code_of e = elim (as_biz_error find_biz (some e)) [
    | none ↦ 2
    | some b ↦ to_rpc_code (code_of b) (uint32_of (code_of b))
  ]

  -- ToRpcErr; status.Errorf formats what Sprintf gives again.
  unfoldable pub to_rpc_err : Option E → List (Arg E V) → Option (Option E)
  unfolding is_rpc_err rpc_code_of sprint
  to_rpc_err none args = some none
  to_rpc_err (some e) [] =
      if is_rpc_err (some e) then some (some e) else some (status_error (rpc_code_of e) (text e))
  to_rpc_err (some e) (a ∷ args) =
      if is_rpc_err (some e)
      then some (some e)
      else map_option (λ m. status_error (rpc_code_of e) (format m []))
          (sprint text format (err e ∷ a ∷ args))

  -- The BizError of a status.
  unfoldable pub biz_of_status : ℕ → String → Option (BizError E)
  unfolding to_biz_code new_biz_error
  biz_of_status c m =
      let code = to_biz_code c (pos c) in
      new_biz_error text format show code (str (trim_prefix m (code_prefix show code)) ∷ [])

  abbrev pub if_status : Option (ℕ × String) × Bool → Option (BizError E) → Option (BizError E)
  if_status (some (c, m), true) other = biz_of_status c m
  if_status (some (c, m), false) other = other
  if_status (none, ok) other = other

  -- ToBizErr of an error that is not nil.
  unfoldable pub to_biz_err : E → Option (BizError E)
  unfolding biz_of_status to_biz_error
  to_biz_err e = if_status (from_error e) (to_biz_error text format show find_biz (some e))
