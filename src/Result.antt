-- ===== src/Result.antt =====
-- async/result.go: BaseResult, the result of a task. The list and the map of results are in
-- Result/Lists and Result/Maps. `E` is the type of the errors; an `error` is an `Option E`, nil is
-- `none`. A getter that asserts is `none` where it panics.
pub mod Lists
pub mod Maps
pub mod Getters
pub mod Collections
mod Tests
use Prim.Native.String.{String}
use b_go_util.Base.{ℤ, pos, Bool, true, false, Option, none, some}
use b_go_util.Value.{
  Value, nil_value, bool_value, int_value, int8_value, int16_value, int32_value, int64_value,
  string_value, other,
}

pub record BaseResult {ℓ} (E A : Type ℓ) : Type ℓ where
  pub value : Value A
  pub err : Option E
  pub canceled : Bool
  pub timeout : Bool

-- assertNilErr, on what a getter returned.
unfoldable pub assert_nil_err {ℓ} : {X E : Type ℓ} → X × Option E → Option X
assert_nil_err (v, none) = some v
assert_nil_err (v, some _) = none

module _ {E A : Type 0} where
  unfoldable pub new_result : Value A → Option E → BaseResult E A
  new_result v err = record { value = v; err = err; canceled = false; timeout = false }

  -- The context gives whether it is canceled, whether it timed out, and its error.
  unfoldable pub new_result_with_ctx : Bool → Bool → Option E → BaseResult E A
  new_result_with_ctx canceled timeout err = record {
    value = nil_value;
    err = err;
    canceled = canceled;
    timeout = timeout;
  }

module _ {E A : Type 0} (type_cast_err : E) where
  unfoldable pub get_bool : BaseResult E A → Bool × Option E
  get_bool b = elim (b.err) [
    | some e ↦ (false, some e)
    | none ↦ elim (b.value) [ bool_value v ↦ (v, none) | _ ↦ (false, some type_cast_err) ]
  ]

  unfoldable pub get_int : BaseResult E A → ℤ × Option E
  get_int b = elim (b.err) [
    | some e ↦ (pos 0, some e)
    | none ↦ elim (b.value) [ int_value v ↦ (v, none) | _ ↦ (pos 0, some type_cast_err) ]
  ]

  unfoldable pub get_int32 : BaseResult E A → ℤ × Option E
  get_int32 b = elim (b.err) [
    | some e ↦ (pos 0, some e)
    | none ↦ elim (b.value) [ int32_value v ↦ (v, none) | _ ↦ (pos 0, some type_cast_err) ]
  ]

  unfoldable pub get_int64 : BaseResult E A → ℤ × Option E
  get_int64 b = elim (b.err) [
    | some e ↦ (pos 0, some e)
    | none ↦ elim (b.value) [ int64_value v ↦ (v, none) | _ ↦ (pos 0, some type_cast_err) ]
  ]

  unfoldable pub get_string : BaseResult E A → String × Option E
  get_string b = elim (b.err) [
    | some e ↦ ("", some e)
    | none ↦ elim (b.value) [ string_value v ↦ (v, none) | _ ↦ ("", some type_cast_err) ]
  ]

  unfoldable pub must_bool : BaseResult E A → Option Bool
  must_bool b = assert_nil_err (get_bool b)

  unfoldable pub must_int : BaseResult E A → Option ℤ
  must_int b = assert_nil_err (get_int b)

  unfoldable pub must_int32 : BaseResult E A → Option ℤ
  must_int32 b = assert_nil_err (get_int32 b)

  unfoldable pub must_int64 : BaseResult E A → Option ℤ
  must_int64 b = assert_nil_err (get_int64 b)

  unfoldable pub must_string : BaseResult E A → Option String
  must_string b = assert_nil_err (get_string b)
