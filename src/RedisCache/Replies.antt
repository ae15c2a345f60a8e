-- ===== src/RedisCache/Replies.antt =====
-- What Fetch and FetchNew of rdb/cache.go do with the replies of their script.
use b_go_util.Base.{
  ℕ, ltb, ℤ, same, ◌≡◌, ◌≢◌, ◌∙◌, refl, arith, Bool, true, Bool-cases, inl, inr, ap, not, ◌&&◌,
  ◌||◌, Option, none, some, is_some, List, [], ◌∷◌, String-discrete,
}
use Prim.Native.String.{String}
use b_go_util.RedisCache.{
  CacheHash, exists, expire_in, is_owner, is_before, script_get, script_set, script_expire,
  script_lock, script_unlock, CacheEvent, on_get, on_lock, on_set, on_unlock, on_expire, on_del,
  do_event,
}
use b_go_util.RedisCache.Fetching.{
  ran, Next, fail, give, panics, give_and_load, load_and_give, try_again, give_val, fetch,
  fetch_new,
}
use b_go_util.RedisCache.Owners.{run_events, every}

-- What a process does is sound for the hash before and after its script.
abbrev pub SoundFetch : String → CacheHash → CacheHash → Next → Type 0
SoundFetch owner h h' fail = Unit
SoundFetch owner h h' try_again = (h.v ≡ none) × (h' ≡ h)
SoundFetch owner h h' (give v) = (h.v ≡ some v) × (h' ≡ h)
SoundFetch owner h h' load_and_give = (h.v ≡ none) × (h'.o ≡ some owner)
SoundFetch owner h h' (give_and_load v) = (h.v ≡ some v) × (h'.o ≡ some owner)
SoundFetch owner h h' panics = ⊥

abbrev pub SoundFetchNew : String → CacheHash → CacheHash → Next → Type 0
SoundFetchNew owner h h' fail = Unit
SoundFetchNew owner h h' try_again = (is_some h.t ≡ true) × (h' ≡ h)
SoundFetchNew owner h h' (give v) = (h.v ≡ some v) × (h.t ≡ none) × (h' ≡ h)
SoundFetchNew owner h h' load_and_give = h'.o ≡ some owner
SoundFetchNew owner h h' (give_and_load v) = ⊥
SoundFetchNew owner h h' panics = ⊥

abbrev SoundHash : String → ℕ → ℕ → CacheHash → Type 0
SoundHash owner now u h =
    SoundFetch owner h (script_get owner now u h).0 (fetch (ran (script_get owner now u h).1))
    × SoundFetchNew owner h (script_get owner now u h).0
        (fetch_new (ran (script_get owner now u h).1))

sound_fields :
    (owner : String) (now u : ℕ) (v : Option String) (t : Option ℕ) (o : Option String)
    (ttl : Option ℤ)
    → SoundHash owner now u (record { v = v; t = t; o = o; ttl = ttl })
unfolding script_get is_before fetch fetch_new give_val
sound_fields owner now u none none o ttl = ((refl, refl), refl)
sound_fields owner now u (some v) none o ttl = ((refl, refl), (refl, refl, refl))
sound_fields owner now u none (some t) o ttl = elim (Bool-cases (ltb t now)) [
  | inl h ↦ rw (script_get, is_before, h) ((refl, refl), refl)
  | inr h ↦ rw (script_get, is_before, h) ((refl, refl), (refl, refl))
]
sound_fields owner now u (some v) (some t) o ttl = elim (Bool-cases (ltb t now)) [
  | inl h ↦ rw (script_get, is_before, h) ((refl, refl), refl)
  | inr h ↦ rw (script_get, is_before, h) ((refl, refl), (refl, refl))
]

-- On any hash Fetch and FetchNew do not panic on the reply of their script; they load only as the
-- owner of the lock, else leave the hash alone; Fetch returns or waits for the value as it stands, and
-- FetchNew returns only a value that has no lock.
pub replies_sound :
    (owner : String) (now u : ℕ) (h : CacheHash)
    → SoundFetch owner h (script_get owner now u h).0 (fetch (ran (script_get owner now u h).1))
      × SoundFetchNew owner h
          (script_get owner now u h).0
          (fetch_new (ran (script_get owner now u h).1))
unfolding script_get is_before fetch fetch_new give_val
replies_sound owner now u h = sound_fields owner now u h.v h.t h.o h.ttl

-- Owners from before take no lock any more, and nobody sets a value with no owner.
abbrev pub after_expire : (String → Bool) → CacheEvent → Bool
after_expire old (on_get owner now u) = not (old owner)
after_expire old (on_lock owner now u) = not (old owner)
after_expire old (on_set val owner ttl) = old owner && not (same String-discrete owner "")
after_expire old (on_unlock owner) = true
after_expire old (on_expire ttl) = true
after_expire old on_del = true

abbrev not_old : (String → Bool) → Option String → Bool
not_old old none = true
not_old old (some o) = not (old o)

-- No old owner has the lock, and what value there is has a lock.
abbrev Outdated : (String → Bool) → CacheHash → Type 0
Outdated old h = (not_old old h.o ≡ true) × ((is_some h.t || not (is_some h.v)) ≡ true)

expire-Outdated :
    (old : String → Bool) (ttl : ℤ) (h : CacheHash) → Outdated old (script_expire ttl h)
unfolding script_expire expire_in exists
expire-Outdated old ttl h = ground arith

stays-Outdated :
    (old : String → Bool) (e : CacheEvent) (h : CacheHash)
    → after_expire old e ≡ true
    → Outdated old h
    → Outdated old (do_event e h)
unfolding do_event script_get script_lock script_unlock script_expire script_set expire_in exists
    is_owner is_before
stays-Outdated old (on_get owner now u) h k i = ground arith
stays-Outdated old (on_lock owner now u) h k i = ground arith
stays-Outdated old (on_set val owner ttl) h k i = ground arith
stays-Outdated old (on_unlock owner) h k i = ground arith
stays-Outdated old (on_expire ttl) h k i = ground arith
stays-Outdated old on_del h k i = (refl, refl)

all_stay_Outdated :
    (old : String → Bool) (es : List CacheEvent) (h : CacheHash)
    → every (after_expire old) es ≡ true
    → Outdated old h
    → Outdated old (run_events es h)
unfolding run_events
all_stay_Outdated old [] h k i = i
all_stay_Outdated old (e ∷ es) h k i =
    all_stay_Outdated old es (do_event e h) (ground (arith, k))
      (stays-Outdated old e h (ground (arith, k)) i)

Outdated-fetch_new :
    (old : String → Bool) (owner : String) (now u : ℕ) (h : CacheHash) (v : String)
    → Outdated old h
    → fetch_new (ran (script_get owner now u h).1) ≢ give v
Outdated-fetch_new old owner now u h v (not_held, locked) g = outdated_given h.t h.v locked (
    given (fetch_new (ran (script_get owner now u h).1)) (script_get owner now u h).0
      (replies_sound owner now u h).1 g)
  where
    given :
        (n : Next) (h' : CacheHash)
        → SoundFetchNew owner h h' n
        → n ≡ give v
        → (h.v ≡ some v) × (h.t ≡ none)
    given fail h' s e = absurd (cc)
    given try_again h' s e = absurd (cc)
    given (give w) h' (a, b, c) e = (a ∙ ap some (cc), b)
    given load_and_give h' s e = absurd (cc)
    given (give_and_load w) h' s e = absurd s
    given panics h' s e = absurd s

    outdated_given :
        (t : Option ℕ) (w : Option String)
        → (is_some t || not (is_some w)) ≡ true
        → (w ≡ some v) × (t ≡ none)
        → ⊥
    outdated_given t w l (a, b) = ground arith

-- After Expire of a key, as long as no owner from before it takes the lock again and nobody but those
-- owners stores a value, FetchNew returns no value by the reply of its script, whatever loads they end
-- and whoever asks for the lock, lets it go, expires or deletes the key in between.
pub expire_forces_load :
    (old : String → Bool) (ttl : ℤ) (es : List CacheEvent) (h : CacheHash) (owner : String)
    (now u : ℕ) (v : String)
    → every (after_expire old) es ≡ true
    → fetch_new (ran (script_get owner now u (run_events es (script_expire ttl h))).1) ≢ give v
expire_forces_load old ttl es h owner now u v k =
    Outdated-fetch_new old owner now u (run_events es (script_expire ttl h)) v
      (all_stay_Outdated old es (script_expire ttl h) k (expire-Outdated old ttl h))
