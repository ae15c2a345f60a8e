-- ===== src/Limiter/Windows.antt =====
-- How often the rate limiter of rdb/limiter.go lets a key through between two expiries.
use Prim.Native.String.{String, ◌++◌}
use b_go_util.Base.{
  ℕ, suc, ◌<◌, ℤ, pos, ltb, Bool, true, false, ◌||◌, ◌≡◌, ◌∙◌, refl, ap, arith, none, some, List,
  [], ◌∷◌, ◌⊎◌, inl,
}
use b_go_util.Limiter.{
  Commands, RateLimiter, too_often_key, too_freq_key, whole_seconds, tf_incr_script,
  is_too_frequent, is_too_often, del_too_frequent, KeyEvent, asks, lapses, replies,
}

-- The replies of calls after so many in the window: true from the one after the limit on.
pub limited : ℕ → ℕ → List KeyEvent → List Bool
limited limit n [] = []
limited limit n (asks ∷ later) = ltb limit (suc n) ∷ limited limit (suc n) later
limited limit n (lapses ∷ later) = limited limit 0 later

pub any_true : List Bool → Bool
any_true [] = false
any_true (b ∷ bs) = b || any_true bs

module _ {S : Type 0} (redis : Commands S) (r : RateLimiter) (key : String) where
  -- The counter is that of the window, and has been given a time to live.
  abbrev pub IsTimed : ℕ → S → Type 0
  IsTimed seconds s =
      (redis.counter (too_freq_key r key) s ≡ 0)
      ⊎ (redis.expiry (too_freq_key r key) s ≡ some (pos seconds))

  script_facts :
      (k : String) (seconds : ℕ) (s : S)
      → 0 < seconds
      → (redis.counter k s ≡ 0) ⊎ (redis.expiry k s ≡ some (pos seconds))
      → ((tf_incr_script redis k (pos seconds) s).1 ≡ suc (redis.counter k s))
        × (redis.counter k (tf_incr_script redis k (pos seconds) s).0 ≡ suc (redis.counter k s))
        × (redis.expiry k (tf_incr_script redis k (pos seconds) s).0 ≡ some (pos seconds))
  unfolding tf_incr_script
  script_facts k seconds s p t = ground (
    arith,
    redis.counter_incr k s,
    redis.expiry_incr k s,
    redis.counter_expire k seconds (redis.incr k s),
    redis.expiry_expire k seconds (redis.incr k s),
  )

  asked :
      (limit seconds : ℕ) (expire : ℤ) (s : S)
      → 0 < limit
      → 0 < seconds
      → whole_seconds expire ≡ pos seconds
      → IsTimed seconds s
      → ((is_too_frequent redis r key (pos limit) expire none s).1
          ≡ ltb limit (suc (redis.counter (too_freq_key r key) s)))
        × (redis.counter
              (too_freq_key r key)
              (is_too_frequent redis r key (pos limit) expire none s).0
            ≡ suc (redis.counter (too_freq_key r key) s))
        × IsTimed seconds (is_too_frequent redis r key (pos limit) expire none s).0
  unfolding is_too_frequent
  asked limit seconds expire s p q e t =
      ground (arith, e, script_facts (too_freq_key r key) seconds s q t)

  lapsed :
      (seconds : ℕ) (s : S)
      → redis.counter (too_freq_key r key) (del_too_frequent redis r key s) ≡ 0
  unfolding del_too_frequent too_freq_key
  lapsed seconds s = redis.counter_del (r.too_freq_prefix ++ key) s

  module _ (limit seconds : ℕ) (expire : ℤ) where
    replies-limited :
        (events : List KeyEvent) (s : S)
        → 0 < limit
        → 0 < seconds
        → whole_seconds expire ≡ pos seconds
        → IsTimed seconds s
        → ((replies redis r key (pos limit) expire events s).1
            ≡ limited limit (redis.counter (too_freq_key r key) s) events)
          × IsTimed seconds (replies redis r key (pos limit) expire events s).0
    unfolding replies limited
    replies-limited [] s p q e t = (refl, t)
    replies-limited (asks ∷ later) s p q e t =
        let s' = (is_too_frequent redis r key (pos limit) expire none s).0 in
        let (reply, counts, timed) = asked limit seconds expire s p q e t in
        let (rest, last) = replies-limited later s' p q e timed in
        (ground (arith, reply, counts, rest), last)
    replies-limited (lapses ∷ later) s p q e t =
        let gone = lapsed seconds s in
        let (rest, last) =
          replies-limited later (del_too_frequent redis r key s) p q e (inl gone) in
        (ground (arith, gone, rest), last)

module _ {S : Type 0} (redis : Commands S) (r : RateLimiter) (key : String) where
  -- With a limit of 1 or more and a time to live that has 1 whole second or more: from a store without
  -- the key on, whatever calls of IsTooFrequent for it and expiries or deletions of it follow and if no
  -- command fails, the calls since the last expiry return false as often as the limit says and true after
  -- that, and the key, if there is one, has the time to live.
  pub windows_limited :
      (limit seconds : ℕ) (expire : ℤ) (events : List KeyEvent) (s : S)
      → 0 < limit
      → 0 < seconds
      → whole_seconds expire ≡ pos seconds
      → redis.counter (too_freq_key r key) s ≡ 0
      → ((replies redis r key (pos limit) expire events s).1 ≡ limited limit 0 events)
        × IsTimed redis r key seconds (replies redis r key (pos limit) expire events s).0
  windows_limited limit seconds expire events s p q e z =
      let (replied, timed) =
        replies-limited redis r key limit seconds expire events s p q e (inl z) in
      (replied ∙ ap (λ n. limited limit n events) z, timed)

  -- Where the time to live has no whole second, EXPIRE deletes the key.
  at_once :
      (limit : ℕ) (expire : ℤ) (s : S)
      → 0 < limit
      → whole_seconds expire ≡ pos 0
      → redis.counter (too_freq_key r key) s ≡ 0
      → ((is_too_frequent redis r key (pos limit) expire none s).1 ≡ false)
        × (redis.counter
              (too_freq_key r key)
              (is_too_frequent redis r key (pos limit) expire none s).0
            ≡ 0)
  unfolding is_too_frequent tf_incr_script
  at_once limit expire s p e z = ground (
    arith,
    e,
    redis.counter_incr (too_freq_key r key) s,
    redis.expire_at_once (too_freq_key r key) (redis.incr (too_freq_key r key) s),
  )

  -- With a limit of 1 or more and a time to live below a second, IsTooFrequent never returns true.
  pub never_limited :
      (limit : ℕ) (expire : ℤ) (events : List KeyEvent) (s : S)
      → 0 < limit
      → whole_seconds expire ≡ pos 0
      → redis.counter (too_freq_key r key) s ≡ 0
      → any_true (replies redis r key (pos limit) expire events s).1 ≡ false
  unfolding replies any_true
  never_limited limit expire [] s p e z = refl
  never_limited limit expire (asks ∷ later) s p e z =
      let s' = (is_too_frequent redis r key (pos limit) expire none s).0 in
      let (reply, gone) = at_once limit expire s p e z in
      ground (arith, reply, never_limited limit expire later s' p e gone)
  never_limited limit expire (lapses ∷ later) s p e z =
      never_limited limit expire later (del_too_frequent redis r key s) p e (lapsed redis r key 0 s)

  -- IsTooOften is false just when the key was not there, and it is there after the call, unless a command
  -- fails.
  too_often_once :
      (expire : ℤ) (s : S)
      → ((is_too_often redis r key expire none s).1 ≡ redis.is_set (too_often_key r key) s)
        × (redis.is_set (too_often_key r key) (is_too_often redis r key expire none s).0 ≡ true)
  unfolding is_too_often
  too_often_once expire s = ground (
    arith,
    redis.set_nx_reply (too_often_key r key) expire s,
    redis.is_set_nx (too_often_key r key) expire s,
  )
