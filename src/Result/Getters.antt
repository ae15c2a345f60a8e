-- ===== src/Result/Getters.antt =====
-- The typed getters of BaseResult in async/result.go: which of them have a value.
use Prim.Native.String.{String}
use b_go_util.Base.{ℤ, ◌≡◌, ◌↔◌, Bool, none, some, arith}
use b_go_util.Value.{bool_value, int_value, int32_value, int64_value, string_value}
use b_go_util.Result.{
  BaseResult, get_bool, get_int, get_int32, get_int64, get_string, must_bool, must_int, must_int32,
  must_int64, must_string, assert_nil_err,
}

module _ {E A : Type 0} (type_cast_err : E) where
  -- Each getter that asserts gives a value exactly if the result has no error and its value is of
  -- the type that the getter is for, not of another width; it gives that value, and panics else.
  pub must_getters_iff :
      (b : BaseResult E A) (v : Bool) (n : ℤ) (s : String)
      → (must_bool type_cast_err b ≡ some v ↔ (b.err ≡ none) × (b.value ≡ bool_value v))
        × (must_int type_cast_err b ≡ some n ↔ (b.err ≡ none) × (b.value ≡ int_value n))
        × (must_int32 type_cast_err b ≡ some n ↔ (b.err ≡ none) × (b.value ≡ int32_value n))
        × (must_int64 type_cast_err b ≡ some n ↔ (b.err ≡ none) × (b.value ≡ int64_value n))
        × (must_string type_cast_err b ≡ some s ↔ (b.err ≡ none) × (b.value ≡ string_value s))
  unfolding must_bool must_int must_int32 must_int64 must_string get_bool get_int get_int32
      get_int64 get_string assert_nil_err
  must_getters_iff b v n s = ground arith
