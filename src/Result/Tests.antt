-- ===== src/Result/Tests.antt =====
-- Runs of the results and their collections, and their theorems at concrete ones.
use Prim.Native.String.{String}
use b_go_util.Base.{
  ℕ, ℤ-discrete, pos, negsuc, ◌≡◌, refl, ◌↔◌, ◌+◌, ◌-◌, ◌&&◌, ◌||◌, not, ◌++◌, true, false, Option,
  none, some, List, [], ◌∷◌, if◌then◌else◌, length, same, get, has_key,
}
use b_go_util.Value.{bool_value, int_value, int32_value, int64_value, string_value}
use b_go_util.Result.{
  BaseResult, new_result, get_int, must_bool, must_int, must_int32, must_int64, must_string,
}
use b_go_util.Result.Getters.{must_getters_iff}
use b_go_util.Result.Lists.{
  ResultList, SyncResultList, item, list_add, list_get, list_has, list_size, list_to_slice,
  sync_list_add, sync_list_get, sync_list_has, sync_list_size, sync_list_to_slice,
}
use b_go_util.Result.Maps.{
  ResultMap, SyncResultMap, map_put, map_get, map_has, map_del, map_to_map, sync_map_put,
  sync_map_get, sync_map_has, sync_map_del, sync_map_to_map,
}
use b_go_util.Result.Collections.{list_add_appends, map_updates, sync_map_updates, to_map_copies}

abbrev seven : BaseResult String ℕ
seven = record { value = int_value (pos 7); err = none; canceled = false; timeout = false }

int32_test : must_int32 "type cast err" seven ≡ none
unfolding must_int32 b_go_util.Result.get_int32 b_go_util.Result.assert_nil_err
int32_test = refl

must_getters_iff_example :
    (must_bool "type cast err" seven ≡ some true
      ↔ (seven.err ≡ none) × (seven.value ≡ bool_value true))
    × (must_int "type cast err" seven ≡ some (pos 7)
        ↔ (seven.err ≡ none) × (seven.value ≡ int_value (pos 7)))
    × (must_int32 "type cast err" seven ≡ some (pos 7)
        ↔ (seven.err ≡ none) × (seven.value ≡ int32_value (pos 7)))
    × (must_int64 "type cast err" seven ≡ some (pos 7)
        ↔ (seven.err ≡ none) × (seven.value ≡ int64_value (pos 7)))
    × (must_string "type cast err" seven ≡ some ""
        ↔ (seven.err ≡ none) × (seven.value ≡ string_value ""))
must_getters_iff_example = must_getters_iff "type cast err" seven true (pos 7) ""

abbrev three : List (Option ℕ)
three = some 3 ∷ []

abbrev one_two : ResultList ℕ
one_two = record { values = some 1 ∷ some 2 ∷ [] }

abbrev locked : SyncResultList ℕ
locked = record { sync_values = some 5 ∷ [] }

list_add_appends_test :
    (list_to_slice (list_add one_two three) ≡ list_to_slice one_two ++ three)
    × (list_size (list_add one_two three) ≡ pos (length one_two.values + length three))
    × (list_get (list_add one_two three) (pos 2) ≡ (
        if list_has one_two (pos 2)
        then list_get one_two (pos 2)
        else item three (2 - length one_two.values)))
    × (list_get (list_add one_two three) (negsuc 2) ≡ none)
    × (sync_list_to_slice (sync_list_add locked three) ≡ sync_list_to_slice locked ++ three)
    × (sync_list_size (sync_list_add locked three) ≡ pos (length locked.sync_values + length three))
    × (sync_list_get (sync_list_add locked three) (pos 2) ≡ (
        if sync_list_has locked (pos 2)
        then sync_list_get locked (pos 2)
        else item three (2 - length locked.sync_values)))
    × (sync_list_get (sync_list_add locked three) (negsuc 2) ≡ none)
list_add_appends_test = list_add_appends one_two locked three 2

abbrev entries : ResultMap ℕ
entries = record { values = (pos 1, some 4) ∷ (negsuc 0, none) ∷ [] }

abbrev locked_entries : SyncResultMap ℕ
locked_entries = record { sync_values = (pos 1, some 4) ∷ (negsuc 0, none) ∷ [] }

map_updates_test :
    (map_get (map_put entries (pos 1) none) (negsuc 0)
      ≡ (if same ℤ-discrete (negsuc 0) (pos 1) then none else map_get entries (negsuc 0)))
    × (map_has (map_put entries (pos 1) none) (negsuc 0)
        ≡ (same ℤ-discrete (negsuc 0) (pos 1) || map_has entries (negsuc 0)))
    × ((map_del entries (pos 1)).1 ≡ map_get entries (pos 1))
    × (map_get (map_del entries (pos 1)).0 (negsuc 0)
        ≡ (if same ℤ-discrete (negsuc 0) (pos 1) then none else map_get entries (negsuc 0)))
    × (map_has (map_del entries (pos 1)).0 (negsuc 0)
        ≡ (not (same ℤ-discrete (negsuc 0) (pos 1)) && map_has entries (negsuc 0)))
map_updates_test = map_updates entries (pos 1) (negsuc 0) none

sync_map_updates_test :
    (sync_map_get (sync_map_put locked_entries (pos 1) none) (negsuc 0) ≡ (
      if same ℤ-discrete (negsuc 0) (pos 1) then none else sync_map_get locked_entries (negsuc 0)))
    × (sync_map_has (sync_map_put locked_entries (pos 1) none) (negsuc 0)
        ≡ (same ℤ-discrete (negsuc 0) (pos 1) || sync_map_has locked_entries (negsuc 0)))
    × ((sync_map_del locked_entries (pos 1)).1 ≡ sync_map_get locked_entries (pos 1))
    × (sync_map_get (sync_map_del locked_entries (pos 1)).0 (negsuc 0) ≡ (
        if same ℤ-discrete (negsuc 0) (pos 1)
        then none
        else sync_map_get locked_entries (negsuc 0)))
    × (sync_map_has (sync_map_del locked_entries (pos 1)).0 (negsuc 0)
        ≡ (not (same ℤ-discrete (negsuc 0) (pos 1)) && sync_map_has locked_entries (negsuc 0)))
sync_map_updates_test = sync_map_updates locked_entries (pos 1) (negsuc 0) none

to_map_copies_test :
    (get ℤ-discrete (pos 1) (map_to_map entries) ≡ get ℤ-discrete (pos 1) entries.values)
    × (get ℤ-discrete (pos 1) (sync_map_to_map locked_entries)
        ≡ get ℤ-discrete (pos 1) locked_entries.sync_values)
unfolding has_key ℤ-discrete
to_map_copies_test =
    to_map_copies entries locked_entries (pos 1) (refl, (refl, tt)) (refl, (refl, tt))
