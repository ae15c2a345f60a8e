-- ===== src/Store/Tests.antt =====
-- The theorems on the store at concrete stores.
use Prim.Native.String.{String}
use b_go_util.Base.{
  ℕ, pos, ◌≡◌, refl, ◌⊎◌, true, false, none, some, [], ◌∷◌, if◌then◌else◌, same, is_some,
  String-discrete, has_key, DistinctKeys,
}
use b_go_util.Value.{Value, nil_value, bool_value, int8_value, string_value}
use b_go_util.Store.{
  MemoryStore, Conversions, lookup, has_store_key, store_keys, get_val, get_or_default, put_value,
  remove_value, clear_store, new_memory_store, new_memory_store_of, get_string, get_bool, get_int,
  get_int64, get_string_or_default, get_bool_or_default, get_int_or_default, get_int64_or_default,
}
use b_go_util.Store.Updates.{store_updates, keys_once}
use b_go_util.Store.Getters.{ints_agree, removed_defaults}

-- Conversions that know a few strings.
abbrev few : Conversions String ℕ
few = record {
  key_not_exist = "key not exist";
  cast_err = λ expect v. expect;
  sprint = λ v. "";
  parse_bool = λ s. (same String-discrete s "true", none);
  atoi = λ s. (pos 0, some "syntax");
  parse_int = λ s. (pos 0, some "syntax");
}

abbrev two : MemoryStore ℕ
two = record { m = ("a", int8_value (pos 5)) ∷ ("b", bool_value true) ∷ [] }

store_updates_test :
    (lookup (put_value two "a" (string_value "x")).0 "b"
      ≡ (if same String-discrete "b" "a" then (string_value "x", true) else lookup two "b"))
    × (lookup (remove_value two "a").0 "b"
        ≡ (if same String-discrete "b" "a" then (nil_value, false) else lookup two "b"))
    × ((put_value two "a" (string_value "x")).1 ≡ get_val two "a")
    × ((remove_value two "a").1 ≡ get_val two "a")
    × (lookup (clear_store two) "b" ≡ (nil_value, false))
    × (get_or_default (put_value two "a" (string_value "x")).0 "b" nil_value ≡ (
        if same String-discrete "b" "a"
        then string_value "x"
        else get_or_default two "b" nil_value))
    × (get_or_default (remove_value two "a").0 "b" nil_value
        ≡ (if same String-discrete "b" "a" then nil_value else get_or_default two "b" nil_value))
store_updates_test = store_updates two "a" "b" (string_value "x") nil_value

keys_once_test :
    (has_key String-discrete "b" (store_keys two) ≡ has_store_key two "b")
    × DistinctKeys String-discrete (new_memory_store {A = ℕ} (pos 4)).m
    × DistinctKeys String-discrete (new_memory_store_of two.m).m
    × DistinctKeys String-discrete (put_value two "a" nil_value).0.m
    × DistinctKeys String-discrete (remove_value two "a").0.m
    × DistinctKeys String-discrete (clear_store two).m
unfolding has_key String-discrete
keys_once_test = keys_once two two.m "a" "b" nil_value (pos 4) (refl, (refl, tt))

abbrev nine : Value ℕ
nine = int8_value (pos 9)

ints_agree_test :
    ((t : String) × (nine ≡ string_value t))
    ⊎ ((get_int few (put_value two "a" nine).0 "a").0
        ≡ (get_int64 few (put_value two "a" nine).0 "a").0)
      × (is_some (get_int few (put_value two "a" nine).0 "a").1
          ≡ is_some (get_int64 few (put_value two "a" nine).0 "a").1)
ints_agree_test = ints_agree few two "a" nine

removed_defaults_test :
    ((get_string few (remove_value two "a").0 "a").1 ≡ some (few.key_not_exist))
    × ((get_bool few (remove_value two "a").0 "a").1 ≡ some (few.key_not_exist))
    × ((get_int few (remove_value two "a").0 "a").1 ≡ some (few.key_not_exist))
    × ((get_int64 few (remove_value two "a").0 "a").1 ≡ some (few.key_not_exist))
    × (get_string_or_default few (remove_value two "a").0 "a" "x" ≡ "x")
    × (get_bool_or_default few (remove_value two "a").0 "a" true ≡ true)
    × (get_int_or_default few (remove_value two "a").0 "a" (pos 1) ≡ pos 1)
    × (get_int64_or_default few (remove_value two "a").0 "a" (pos 1) ≡ pos 1)
removed_defaults_test = removed_defaults few two "a" "x" true (pos 1)
