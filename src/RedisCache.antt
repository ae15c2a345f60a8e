-- ===== src/RedisCache.antt =====
-- rdb/cache.go: a cache in redis, a hash for each key with the value v, the time t at which the lock
-- on it expires and the lock's owner o. The Lua scripts are functions of the hash of their key; a
-- time is in whole seconds. An error of redis is a call that returns it and leaves the hash alone.
pub mod Fetching
pub mod Owners
pub mod Replies
mod Tests
use b_go_util.Base.{
  ℕ, zero, suc, ◌<◌, ltb, ℤ, pos, negsuc, ◌-ℤ◌, leb_ℤ, ltb_ℤ, ℤ-discrete, same, ◌≡◌, Bool, true,
  false, not, ◌&&◌, ◌||◌, Option, none, some, is_some, if◌then◌else◌, String-discrete,
}
use Prim.Native.String.{String}

-- The hash of a key, one without a field where there is no key, and the seconds that EXPIRE gave it.
pub record CacheHash : Type 0 where
  pub v : Option String
  pub t : Option ℕ
  pub o : Option String
  pub ttl : Option ℤ

abbrev pub no_hash : CacheHash
no_hash = record { v = none; t = none; o = none; ttl = none }

-- EXISTS
unfoldable pub exists : CacheHash → Bool
exists h = is_some h.v || is_some h.t || is_some h.o

-- EXPIRE; a time of 0 or less deletes the key.
unfoldable pub expire_in : ℤ → CacheHash → CacheHash
expire_in seconds h = if leb_ℤ seconds (pos 0) then no_hash else record h { ttl = some seconds }

unfoldable pub is_owner : Option String → String → Bool
is_owner none owner = false
is_owner (some o) owner = same String-discrete o owner

unfoldable pub is_before : Option ℕ → ℕ → Bool
is_before none now = false
is_before (some t) now = ltb t now

-- The second part of what cacheGetScript returns: '1', or the time t.
pub data LockReply : Type 0 where
  got : LockReply
  until : Option ℕ → LockReply

unfoldable pub script_get : String → ℕ → ℕ → CacheHash → CacheHash × (Option String × LockReply)
unfolding is_before
script_get owner now expires h =
    if is_before h.t now || (not (is_some h.t) && not (is_some h.v))
    then (record h { t = some expires; o = some owner }, (h.v, got))
    else (h, (h.v, until h.t))

unfoldable pub script_set : String → String → ℤ → CacheHash → CacheHash × Bool
unfolding is_owner expire_in
script_set val owner ttl h =
    if not (same String-discrete owner "") && not (is_owner h.o owner)
    then (h, false)
    else (expire_in ttl (record h { v = some val; t = none; o = none }), true)

unfoldable pub script_expire : ℤ → CacheHash → CacheHash
unfolding exists expire_in
script_expire ttl h = if exists h then expire_in ttl (record h { t = some 0; o = none }) else h

-- The owner that it returns.
unfoldable pub script_lock : String → ℕ → ℕ → CacheHash → CacheHash × Option String
unfolding is_owner is_before
script_lock owner now expires h =
    if not (is_some h.t) || is_before h.t now || is_owner h.o owner
    then (record h { t = some expires; o = some owner }, some owner)
    else (h, h.o)

unfoldable pub script_unlock : String → CacheHash → CacheHash × Bool
unfolding is_owner
script_unlock owner h =
    if is_owner h.o owner then (record h { t = some 0; o = none }, true) else (h, false)

-- A call of the cache that changes the hash, by any process, or that redis does when the key
-- expires.
pub data CacheEvent : Type 0 where
  on_get : String → ℕ → ℕ → CacheEvent
  on_lock : String → ℕ → ℕ → CacheEvent
  on_set : String → String → ℤ → CacheEvent
  on_unlock : String → CacheEvent
  on_expire : ℤ → CacheEvent
  on_del : CacheEvent

unfoldable pub do_event : CacheEvent → CacheHash → CacheHash
unfolding script_get script_lock script_set script_unlock script_expire
do_event (on_get owner now expires) h = (script_get owner now expires h).0
do_event (on_lock owner now expires) h = (script_lock owner now expires h).0
do_event (on_set val owner ttl) h = (script_set val owner ttl h).0
do_event (on_unlock owner) h = (script_unlock owner h).0
do_event (on_expire ttl) h = script_expire ttl h
do_event on_del h = no_hash
