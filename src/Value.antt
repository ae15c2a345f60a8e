-- ===== src/Value.antt =====
-- An `interface{}` of Go, as the typed getters of async/result.go and store/store.go see it: its
-- dynamic type and its value. `other` is a value of a type that no getter reads.
use Prim.Native.String.{String}
use b_go_util.Base.{ℤ, Bool}

pub data Value {ℓ} (A : Type ℓ) : Type ℓ where
  nil_value : Value A
  bool_value : Bool → Value A
  int_value : ℤ → Value A
  int8_value : ℤ → Value A
  int16_value : ℤ → Value A
  int32_value : ℤ → Value A
  int64_value : ℤ → Value A
  string_value : String → Value A
  other : A → Value A
