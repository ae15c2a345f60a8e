-- ===== src/RedisCache/Owners.antt =====
-- Who stores a value, in rdb/cache.go: the owner of the lock, as long as it is.
use b_go_util.Base.{
  ℕ, leb, ℤ, pos, ◌-ℤ◌, ltb_ℤ, leb_ℤ, same, ◌≡◌, ◌≢◌, refl, arith, Bool, true, false, not, ◌&&◌,
  none, some, List, [], ◌∷◌, String-discrete,
}
use Prim.Native.String.{String}
use b_go_util.RedisCache.{
  CacheHash, exists, expire_in, is_owner, is_before, got, script_get, script_set, script_expire,
  script_lock, script_unlock, CacheEvent, on_get, on_lock, on_set, on_unlock, on_expire, on_del,
  do_event,
}
use b_go_util.RedisCache.Fetching.{
  CacheOption, whole_seconds, run_set, run_unlock, Loaded, loaded, load_failed, load,
}

-- A process that uses the cache, and what is around it.
unfoldable pub run_events : List CacheEvent → CacheHash → CacheHash
run_events [] h = h
run_events (e ∷ es) h = run_events es (do_event e h)

abbrev pub every : (CacheEvent → Bool) → List CacheEvent → Bool
every p [] = true
every p (e ∷ es) = p e && every p es

-- A call that asks for no lock in the name of the owner.
abbrev pub asks_not : String → CacheEvent → Bool
asks_not a (on_get owner now u) = not (same String-discrete owner a)
asks_not a (on_lock owner now u) = not (same String-discrete owner a)
asks_not a (on_set val owner ttl) = true
asks_not a (on_unlock owner) = true
asks_not a (on_expire ttl) = true
asks_not a on_del = true

-- Expire, Del, and Set of a client: each takes the lock from its owner.
abbrev pub invalidates : CacheEvent → Bool
invalidates (on_get owner now u) = false
invalidates (on_lock owner now u) = false
invalidates (on_set val owner ttl) = same String-discrete owner ""
invalidates (on_unlock owner) = false
invalidates (on_expire ttl) = true
invalidates on_del = true

invalidates_lem :
    (a : String) (e : CacheEvent) (h : CacheHash)
    → invalidates e ≡ true
    → is_owner (do_event e h).o a ≡ false
unfolding do_event script_set script_expire expire_in exists is_owner
invalidates_lem a (on_get owner now u) h i = cc
invalidates_lem a (on_lock owner now u) h i = cc
invalidates_lem a (on_set val owner ttl) h i = ground arith
invalidates_lem a (on_unlock owner) h i = cc
invalidates_lem a (on_expire ttl) h i = ground arith
invalidates_lem a on_del h i = refl

stays_out :
    (a : String) (e : CacheEvent) (h : CacheHash)
    → asks_not a e ≡ true
    → is_owner h.o a ≡ false
    → is_owner (do_event e h).o a ≡ false
unfolding do_event script_get script_lock script_set script_unlock script_expire expire_in exists
    is_owner
stays_out a (on_get owner now u) h i k = ground arith
stays_out a (on_lock owner now u) h i k = ground arith
stays_out a (on_set val owner ttl) h i k = ground arith
stays_out a (on_unlock owner) h i k = ground arith
stays_out a (on_expire ttl) h i k = ground arith
stays_out a on_del h i k = refl

all_stay_out :
    (a : String) (es : List CacheEvent) (h : CacheHash)
    → every (asks_not a) es ≡ true
    → is_owner h.o a ≡ false
    → is_owner (run_events es h).o a ≡ false
unfolding run_events
all_stay_out a [] h i k = k
all_stay_out a (e ∷ es) h i k =
    all_stay_out a es (do_event e h) (ground (arith, i)) (stays_out a e h (ground (arith, i)) k)

-- load does not end in Del.
abbrev pub stores : CacheOption → Loaded → Bool
stores option (loaded val) =
    not (same String-discrete val "" && ltb_ℤ option.empty_cache_ttl (pos 0))
stores option load_failed = true

out-load :
    (fails : Bool) (cut : ℤ) (option : CacheOption) (a : String) (ttl : ℤ) (l : Loaded)
    (h : CacheHash)
    → a ≢ ""
    → is_owner h.o a ≡ false
    → stores option l ≡ true
    → (load fails cut option a ttl l h).0 ≡ h
unfolding load run_set run_unlock script_set script_unlock
out-load fails cut option a ttl load_failed h d k s = ground (arith, k)
out-load fails cut option a ttl (loaded val) h d k s = ground (arith, k, d)

-- After Expire, Del or a client's Set of a key, and any calls that do not ask for the lock in the name
-- of an owner, the load of that owner leaves the hash alone, whatever it has loaded and whether or
-- not redis fails; but for an empty value that the options say not to keep.
pub lost_lock_is_harmless :
    (a : String) (e : CacheEvent) (es : List CacheEvent) (h : CacheHash) (fails : Bool) (cut : ℤ)
    (option : CacheOption) (ttl : ℤ) (l : Loaded)
    → a ≢ ""
    → invalidates e ≡ true
    → every (asks_not a) es ≡ true
    → stores option l ≡ true
    → (load fails cut option a ttl l (run_events es (do_event e h))).0
      ≡ run_events es (do_event e h)
lost_lock_is_harmless a e es h fails cut option ttl l d i n s =
    out-load fails cut option a ttl l (run_events es (do_event e h)) d
      (all_stay_out a es (do_event e h) n (invalidates_lem a e h i)) s

-- A call of another process while the lock has not expired.
abbrev pub lets_be : String → ℕ → CacheEvent → Bool
lets_be a u (on_get owner now u') = leb now u
lets_be a u (on_lock owner now u') = leb now u && not (same String-discrete owner a)
lets_be a u (on_set val owner ttl) =
    not (same String-discrete owner "") && not (same String-discrete owner a)
lets_be a u (on_unlock owner) = not (same String-discrete owner a)
lets_be a u (on_expire ttl) = false
lets_be a u on_del = false

undisturbed :
    (a : String) (u : ℕ) (e : CacheEvent) (h : CacheHash)
    → lets_be a u e ≡ true
    → h.t ≡ some u
    → h.o ≡ some a
    → do_event e h ≡ h
unfolding do_event script_get script_lock script_set script_unlock is_before is_owner
undisturbed a u (on_get owner now u') h i t o = ground arith
undisturbed a u (on_lock owner now u') h i t o = ground arith
undisturbed a u (on_set val owner ttl) h i t o = ground arith
undisturbed a u (on_unlock owner) h i t o = ground arith
undisturbed a u (on_expire ttl) h i t o = cc
undisturbed a u on_del h i t o = cc

all_undisturbed :
    (a : String) (u : ℕ) (es : List CacheEvent) (h : CacheHash)
    → every (lets_be a u) es ≡ true
    → h.t ≡ some u
    → h.o ≡ some a
    → run_events es h ≡ h
unfolding run_events
all_undisturbed a u [] h i t o = refl
all_undisturbed a u (e ∷ es) h i t o =
    let same_hash = undisturbed a u e h (ground (arith, i)) t o in
    rw same_hash (all_undisturbed a u es h (ground (arith, i)) t o)

got-Held :
    (a : String) (now u : ℕ) (h : CacheHash)
    → (script_get a now u h).1.1 ≡ got
    → ((script_get a now u h).0.t ≡ some u) × ((script_get a now u h).0.o ≡ some a)
unfolding script_get is_before
got-Held a now u h g = ground (arith, g)

set-Held :
    (a val : String) (seconds : ℤ) (h : CacheHash)
    → h.o ≡ some a
    → leb_ℤ seconds (pos 0) ≡ false
    → (script_set val a seconds h).0
      ≡ record { v = some val; t = none; o = none; ttl = some seconds }
unfolding script_set expire_in is_owner
set-Held a val seconds h o s = ground arith

-- After the script of Fetch has given an owner the lock of a key, calls of others up to the time at
-- which the lock expires change nothing, if there is no Expire, no Del and no Set of a client among them
-- and the key does not run out of its own time to live meanwhile (`on_del` too); a value that is not empty,
-- which the owner then loads with a TTL of at least a second after the cut, is stored without a lock, if
-- the redis call that stores it does not fail.
pub holder_stores :
    (a : String) (now u : ℕ) (h : CacheHash) (es : List CacheEvent) (cut : ℤ) (option : CacheOption)
    (ttl : ℤ) (val : String)
    → (script_get a now u h).1.1 ≡ got
    → every (lets_be a u) es ≡ true
    → val ≢ ""
    → leb_ℤ (whole_seconds (ttl -ℤ cut)) (pos 0) ≡ false
    → (run_events es (script_get a now u h).0 ≡ (script_get a now u h).0)
      × ((load false cut option a ttl (loaded val) (run_events es (script_get a now u h).0)).0
          ≡ record { v = some val; t = none; o = none; ttl = some (whole_seconds (ttl -ℤ cut)) })
unfolding load run_set
holder_stores a now u h es cut option ttl val g i d s =
    let (t, o) = got-Held a now u h g in
    let quiet = all_undisturbed a u es (script_get a now u h).0 i t o in
    (
      quiet,
      rw quiet (
          ground
            (arith, d, set-Held a val (whole_seconds (ttl -ℤ cut)) (script_get a now u h).0 o s)),
    )
