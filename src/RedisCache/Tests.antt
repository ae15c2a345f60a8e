-- ===== src/RedisCache/Tests.antt =====
-- Witnesses and tests of rdb/cache.go.
use b_go_util.Base.{
  pos, ◌-ℤ◌, same, ◌≡◌, ◌≢◌, refl, arith, Bool, false, none, some, List, [], ◌∷◌, String-discrete,
}
use Prim.Native.String.{String}
use text.Mathlib.TextEquality.{eq_iff}
use b_go_util.RedisCache.{
  CacheHash, script_get, script_expire, on_get, on_expire, on_set, on_unlock, CacheEvent, do_event,
  is_before,
}
use b_go_util.RedisCache.Fetching.{
  CacheOption, load, loaded, whole_seconds, ran, give, fetch, fetch_new,
}
use b_go_util.RedisCache.Owners.{run_events, lost_lock_is_harmless, holder_stores}
use b_go_util.RedisCache.Replies.{replies_sound, expire_forces_load, SoundFetch, SoundFetchNew}

abbrev some_options : CacheOption
some_options = record {
  lock_ttl = pos 3000000000;
  lock_retry_delay = pos 1;
  empty_cache_ttl = pos 0;
  expired_cache_ttl = pos 10000000000;
}

abbrev held_hash : CacheHash
held_hash = record { v = some "old"; t = some 13; o = some "ann"; ttl = some (pos 60) }

abbrev expired_hash : CacheHash
expired_hash = record { v = some "old"; t = some 0; o = none; ttl = some (pos 10) }

abbrev others : List CacheEvent
others = on_get "bob" 11 14 ∷ on_unlock "bob" ∷ []

lost_lock_is_harmless_example :
    (load false
      (pos 0)
      some_options
      "ann"
      (pos 5000000000)
      (loaded "stale")
      (run_events others (do_event (on_expire (pos 10)) held_hash))).0
    ≡ run_events others (do_event (on_expire (pos 10)) held_hash)
unfolding String-discrete
lost_lock_is_harmless_example =
    lost_lock_is_harmless "ann" (on_expire (pos 10)) others held_hash false (pos 0) some_options
      (pos 5000000000) (loaded "stale") (ground (arith, eq_iff "ann" "")) refl refl refl

holder_stores_example :
    (run_events others (script_get "ann" 10 13 expired_hash).0
      ≡ (script_get "ann" 10 13 expired_hash).0)
    × ((load false
          (pos 0)
          some_options
          "ann"
          (pos 5000000000)
          (loaded "new")
          (run_events others (script_get "ann" 10 13 expired_hash).0)).0
        ≡ record {
          v = some "new";
          t = none;
          o = none;
          ttl = some (whole_seconds (pos 5000000000 -ℤ pos 0));
        })
unfolding script_get is_before whole_seconds ◌-ℤ◌ String-discrete
holder_stores_example =
    holder_stores "ann" 10 13 expired_hash others (pos 0) some_options (pos 5000000000) "new" refl
      refl (ground (arith, eq_iff "new" "")) refl

replies_sound_test :
    SoundFetch "bob" held_hash
      (script_get "bob" 12 15 held_hash).0
      (fetch (ran (script_get "bob" 12 15 held_hash).1))
    × SoundFetchNew "bob" held_hash
        (script_get "bob" 12 15 held_hash).0
        (fetch_new (ran (script_get "bob" 12 15 held_hash).1))
replies_sound_test = replies_sound "bob" 12 15 held_hash

abbrev old_owner : String → Bool
old_owner o = same String-discrete o "ann"

expire_forces_load_test :
    fetch_new (
      ran
        (script_get "cat" 12 15 (
          run_events
            (on_get "bob" 11 14 ∷ on_set "stale" "ann" (pos 60) ∷ [])
            (script_expire (pos 10) held_hash))).1)
    ≢ give "old"
unfolding String-discrete
expire_forces_load_test =
    expire_forces_load old_owner (pos 10) (on_get "bob" 11 14 ∷ on_set "stale" "ann" (pos 60) ∷ [])
      held_hash "cat" 12 15 "old" refl
