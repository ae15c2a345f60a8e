-- ===== src/RedisCache/Fetching.antt =====
-- The calls of rdb/cache.go around its scripts.
use b_go_util.Base.{
  ℤ, pos, negsuc, ◌-ℤ◌, neg_part, ◌/◌, ltb_ℤ, leb_ℤ, ℤ-discrete, same, Bool, true, false, ◌&&◌,
  Option, none, some, if◌then◌else◌, String-discrete,
}
use Prim.Native.String.{String}
use b_go_util.RedisCache.{
  CacheHash, no_hash, LockReply, got, until, script_set, script_expire, script_unlock,
}

-- CacheOption but for the float CacheTTLAdjust; durations are in nanoseconds.
pub record CacheOption : Type 0 where
  pub lock_ttl : ℤ
  pub lock_retry_delay : ℤ
  pub empty_cache_ttl : ℤ
  pub expired_cache_ttl : ℤ

abbrev pub or_default : Bool → ℤ → ℤ → ℤ
or_default bad d x = if bad then d else x

unfoldable pub must_normalize : CacheOption → CacheOption
must_normalize o = record {
  lock_ttl = or_default (leb_ℤ o.lock_ttl (pos 0)) (pos 3000000000) o.lock_ttl;
  lock_retry_delay =
      or_default (leb_ℤ o.lock_retry_delay (pos 0)) (pos 100000000) o.lock_retry_delay;
  empty_cache_ttl =
      or_default (same ℤ-discrete o.empty_cache_ttl (pos 0)) (pos 30000000000) o.empty_cache_ttl;
  expired_cache_ttl =
      or_default (leb_ℤ o.expired_cache_ttl (pos 0)) (pos 10000000000) o.expired_cache_ttl;
}

-- int(d / time.Second); Go's division truncates.
unfoldable pub whole_seconds : ℤ → ℤ
whole_seconds (pos n) = pos (n / 1000000000)
whole_seconds (negsuc n) = pos 0 -ℤ pos ((neg_part (negsuc n)) / 1000000000)

-- What redis makes of a call: it runs, or the call returns an error.
pub data Reply (A : Type 0) : Type 0 where
  ran : A → Reply A
  failed : Reply A

-- runScriptSet, whether it fails; `cut` is what the random factor takes off the TTL.
unfoldable pub run_set : Bool → ℤ → String → String → ℤ → CacheHash → CacheHash × Bool
unfolding script_set whole_seconds
run_set fails cut val owner ttl h =
    if fails then (h, true) else ((script_set val owner (whole_seconds (ttl -ℤ cut)) h).0, false)

unfoldable pub run_unlock : Bool → String → CacheHash → CacheHash
unfolding script_unlock
run_unlock fails owner h = if fails then h else (script_unlock owner h).0

-- Expire, Del and Set of Cache, and whether they return an error.
unfoldable pub expire_cache : Bool → CacheOption → CacheHash → CacheHash × Bool
unfolding script_expire whole_seconds
expire_cache fails option h =
    if fails then (h, true) else (script_expire (whole_seconds option.expired_cache_ttl) h, false)

unfoldable pub del_cache : Bool → CacheHash → CacheHash × Bool
del_cache fails h = if fails then (h, true) else (no_hash, false)

unfoldable pub set_cache : Bool → ℤ → String → ℤ → CacheHash → CacheHash × Bool
unfolding run_set
set_cache fails cut val ttl h = run_set fails cut val "" ttl h

-- Get: the value and whether there is one.
unfoldable pub get_cache : Bool → CacheHash → Reply (String × Bool)
get_cache true h = failed
get_cache false h = elim (h.v) [ none ↦ ran ("", false) | some v ↦ ran (v, true) ]

-- What onLoad returns: a value, or an error.
pub data Loaded : Type 0 where
  loaded : String → Loaded
  load_failed : Loaded

-- load, after onLoad has returned and for one call of redis after it: the value and whether there is
-- an error.
unfoldable pub load :
    Bool → ℤ → CacheOption → String → ℤ → Loaded → CacheHash → CacheHash × (String × Bool)
unfolding run_set run_unlock del_cache
load fails cut option owner ttl load_failed h = (run_unlock fails owner h, ("", true))
load fails cut option owner ttl (loaded val) h =
    let stored =
      run_set fails cut val owner
        (if same String-discrete val "" then option.empty_cache_ttl else ttl) h in
    let deleted = del_cache fails h in
    if same String-discrete val "" && ltb_ℤ option.empty_cache_ttl (pos 0)
    then (deleted.0, ("", deleted.1))
    else (stored.0, (val, stored.1))

-- What Fetch does with a reply of the script; val.(string) of nil panics.
pub data Next : Type 0 where
  fail : Next
  try_again : Next
  give : String → Next
  load_and_give : Next
  give_and_load : String → Next
  panics : Next

unfoldable pub give_val : Option String → Next
give_val none = panics
give_val (some v) = give v

unfoldable pub fetch : Reply (Option String × LockReply) → Next
unfolding give_val
fetch failed = fail
fetch (ran (none, got)) = load_and_give
fetch (ran (none, until t)) = try_again
fetch (ran (some v, got)) = give_and_load v
fetch (ran (some v, until t)) = give_val (some v)

unfoldable pub fetch_new : Reply (Option String × LockReply) → Next
unfolding give_val
fetch_new failed = fail
fetch_new (ran (v, got)) = load_and_give
fetch_new (ran (v, until (some t))) = try_again
fetch_new (ran (v, until none)) = give_val v
