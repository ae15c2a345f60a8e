-- ===== src/Store.antt =====
-- store/store.go: MemoryStore, a map from strings to values of any type, with typed getters. Every
-- method holds the lock from its first to its last statement, so it is one step. strconv and fmt are
-- parameters. int is 64 bits wide, as int64 is.
pub mod Getters
pub mod Updates
mod Tests
use Prim.Native.String.{String}
use b_go_util.Base.{
  ℤ, pos, Bool, true, false, is_some, Option, none, some, List, [], ◌∷◌, keys, get, put, delete,
  String-discrete,
}
use b_go_util.Value.{
  Value, nil_value, bool_value, int_value, int8_value, int16_value, int32_value, int64_value,
  string_value, other,
}

pub record MemoryStore (A : Type 0) : Type 0 where
  pub m : List (String × Value A)

module _ {A : Type 0} where
  -- NewMemoryStore; the size is a hint for the allocation.
  unfoldable pub new_memory_store : ℤ → MemoryStore A
  new_memory_store size = record { m = [] }

  -- for k, v := range m { nm[k] = v }
  unfoldable pub copy_entries :
      List (String × Value A) → List (String × Value A) → List (String × Value A)
  copy_entries nm [] = nm
  copy_entries nm ((k, v) ∷ m) = copy_entries (put String-discrete k v nm) m

  unfoldable pub new_memory_store_of : List (String × Value A) → MemoryStore A
  new_memory_store_of m = record { m = copy_entries [] m }

  unfoldable pub store_keys : MemoryStore A → List String
  store_keys s = keys s.m

  -- val, ok := s.m[key]
  unfoldable pub lookup : MemoryStore A → String → Value A × Bool
  lookup s key = elim (get String-discrete key s.m) [
    | some v ↦ (v, true)
    | none ↦ (nil_value, false)
  ]

  unfoldable pub has_store_key : MemoryStore A → String → Bool
  has_store_key s key = (lookup s key).1

  unfoldable pub get_val : MemoryStore A → String → Value A
  get_val s key = (lookup s key).0

  unfoldable pub get_or_default : MemoryStore A → String → Value A → Value A
  get_or_default s key df = elim (get String-discrete key s.m) [ some v ↦ v | none ↦ df ]

  -- The store, and the value that the key had, nil if it had none.
  unfoldable pub put_value : MemoryStore A → String → Value A → MemoryStore A × Value A
  put_value s key value = (record { m = put String-discrete key value s.m }, get_val s key)

  unfoldable pub remove_value : MemoryStore A → String → MemoryStore A × Value A
  remove_value s key = (record { m = delete String-discrete key s.m }, get_val s key)

  unfoldable pub clear_store : MemoryStore A → MemoryStore A
  clear_store s = record { m = [] }

-- What the typed getters call: ErrKeyNotExist and the error of newCastErr, fmt.Sprintf of `%v`,
-- strconv.ParseBool, strconv.Atoi and strconv.ParseInt to base 10 and 64 bits.
pub record Conversions (E A : Type 0) : Type 0 where
  pub key_not_exist : E
  pub cast_err : String → Value A → E
  pub sprint : Value A → String
  pub parse_bool : String → Bool × Option E
  pub atoi : String → ℤ × Option E
  pub parse_int : String → ℤ × Option E

-- if v, err := ...; err == nil { return v }; return df
unfoldable pub unless_err : {E X : Type 0} → X × Option E → X → X
unless_err (v, none) df = v
unless_err (v, some err) df = df

module _ {E A : Type 0} (c : Conversions E A) where
  unfoldable pub string_of_value : Value A → String × Option E
  string_of_value (string_value val) = (val, none)
  string_of_value val = (c.sprint val, none)

  unfoldable pub bool_of_value : Value A → Bool × Option E
  bool_of_value (bool_value val) = (val, none)
  bool_of_value (string_value val) = c.parse_bool val
  bool_of_value v = (false, some (c.cast_err "bool" v))

  unfoldable pub int_of_value : Value A → ℤ × Option E
  int_of_value (string_value val) = c.atoi val
  int_of_value (int_value val) = (val, none)
  int_of_value (int8_value val) = (val, none)
  int_of_value (int16_value val) = (val, none)
  int_of_value (int32_value val) = (val, none)
  int_of_value (int64_value val) = (val, none)
  int_of_value v = (pos 0, some (c.cast_err "int" v))

  unfoldable pub int64_of_value : Value A → ℤ × Option E
  int64_of_value (string_value val) = c.parse_int val
  int64_of_value (int64_value val) = (val, none)
  int64_of_value (int_value val) = (val, none)
  int64_of_value (int8_value val) = (val, none)
  int64_of_value (int16_value val) = (val, none)
  int64_of_value (int32_value val) = (val, none)
  int64_of_value v = (pos 0, some (c.cast_err "int64" v))

  unfoldable pub get_string : MemoryStore A → String → String × Option E
  get_string s key = elim (get String-discrete key s.m) [
    | some v ↦ string_of_value v
    | none ↦ ("", some (c.key_not_exist))
  ]

  unfoldable pub get_bool : MemoryStore A → String → Bool × Option E
  get_bool s key = elim (get String-discrete key s.m) [
    | some v ↦ bool_of_value v
    | none ↦ (false, some (c.key_not_exist))
  ]

  unfoldable pub get_int : MemoryStore A → String → ℤ × Option E
  get_int s key = elim (get String-discrete key s.m) [
    | some v ↦ int_of_value v
    | none ↦ (pos 0, some (c.key_not_exist))
  ]

  unfoldable pub get_int64 : MemoryStore A → String → ℤ × Option E
  get_int64 s key = elim (get String-discrete key s.m) [
    | some v ↦ int64_of_value v
    | none ↦ (pos 0, some (c.key_not_exist))
  ]

  unfoldable pub get_string_or_default : MemoryStore A → String → String → String
  get_string_or_default s key df = unless_err (get_string s key) df

  unfoldable pub get_bool_or_default : MemoryStore A → String → Bool → Bool
  get_bool_or_default s key df = unless_err (get_bool s key) df

  unfoldable pub get_int_or_default : MemoryStore A → String → ℤ → ℤ
  get_int_or_default s key df = unless_err (get_int s key) df

  unfoldable pub get_int64_or_default : MemoryStore A → String → ℤ → ℤ
  get_int64_or_default s key df = unless_err (get_int64 s key) df
