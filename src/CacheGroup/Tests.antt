-- ===== src/CacheGroup/Tests.antt =====
-- The theorem on cache groups at a concrete group.
use Prim.Native.String.{String}
use b_go_util.Base.{
  ℕ, ◌≡◌, refl, Bool, true, false, none, some, List, [], ◌∷◌, same, ℕ_discrete, String-discrete,
  get,
}
use b_go_util.CacheGroup.{
  CacheGroup, Call, calls, ends, deletes, new_cache_group, do_start, do_end, returned, get_cached,
  serve_calls,
}
use b_go_util.CacheGroup.Flights.{single_flight, leaves}

-- Only the empty string is blank here.
abbrev empty_is_blank : String → Bool
empty_is_blank s = same String-discrete s ""

abbrev before_end : List (Call ℕ)
before_end = calls "a" ∷ calls "b" ∷ ends 1 (some 4) ∷ []

abbrev after_end : List (Call ℕ)
after_end = deletes "b" ∷ calls "a" ∷ []

a_is_not_blank : empty_is_blank "a" ≡ false
unfolding String-discrete
a_is_not_blank = refl

no_holder : get_cached (new_cache_group {R = ℕ}) "a" ≡ none
unfolding get_cached new_cache_group get
no_holder = refl

before_leaves : leaves "a" 0 before_end ≡ true
unfolding ℕ_discrete String-discrete
before_leaves = refl

after_leaves : leaves "a" 0 after_end ≡ true
unfolding ℕ_discrete String-discrete
after_leaves = refl

single_flight_example :
    (g' : CacheGroup ℕ) × (do_start empty_is_blank new_cache_group "a" ≡ some (g', 0, true))
    × (do_start empty_is_blank (serve_calls g' before_end) "a"
        ≡ some (serve_calls g' before_end, 0, false))
    × (do_start empty_is_blank
          (serve_calls (do_end (serve_calls g' before_end) 0 (some 9)) after_end)
          "a"
        ≡ some (serve_calls (do_end (serve_calls g' before_end) 0 (some 9)) after_end, 0, false))
    × (returned (serve_calls (do_end (serve_calls g' before_end) 0 (some 9)) after_end) 0
        ≡ some (some 9))
unfolding new_cache_group
single_flight_example =
    single_flight empty_is_blank new_cache_group "a" (some 9) before_end after_end a_is_not_blank
      no_holder before_leaves after_leaves
