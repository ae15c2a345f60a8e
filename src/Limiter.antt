-- ===== src/Limiter.antt =====
-- rdb/limiter.go: limits on how often something may be done, kept in redis. The commands are Redis's:
-- operations on a store, with the laws that the Redis documentation gives them. A script runs alone. The
-- float that Seconds() returns is taken as exact, which its whole part is below 2^24 seconds.
pub mod Windows
mod Tests
use Prim.Native.String.{String, ◌++◌}
use b_go_util.Base.{
  ℕ, zero, suc, ◌+◌, ◌/◌, ◌^◌, ◌≢◌, ℤ, pos, negsuc, leb_ℤ, ltb_ℤ, ltb, ◌==◌, Bool, true, false, not,
  ◌≡◌, Option, none, some, is_some, if◌then◌else◌, same, String-discrete, ◌<◌, List, [], ◌∷◌,
}

-- A failure of a command: redis.Nil or another error.
pub data Failure : Type 0 where
  nil_reply other_failure : Failure

-- INCR, EXPIRE, DEL and SET NX on a store of type S. `counter` is the number at a key, 0 where there is no
-- key, and `expiry` the seconds that it was given to live.
pub record Commands (S : Type 0) : Type 0 where
  pub counter : String → S → ℕ
  pub expiry : String → S → Option ℤ
  pub is_set : String → S → Bool
  pub incr : String → S → S
  pub expire : String → ℤ → S → S
  pub del : String → S → S
  pub set_nx : String → ℤ → S → S × Bool
  pub counter_incr : (k : String) (s : S) → counter k (incr k s) ≡ suc (counter k s)
  pub expiry_incr : (k : String) (s : S) → expiry k (incr k s) ≡ expiry k s
  pub counter_expire :
      (k : String) (n : ℕ) (s : S) → 0 < n → counter k (expire k (pos n) s) ≡ counter k s
  pub expiry_expire :
      (k : String) (n : ℕ) (s : S)
      → 0 < n
      → 0 < counter k s
      → expiry k (expire k (pos n) s) ≡ some (pos n)
  pub expire_at_once : (k : String) (s : S) → counter k (expire k (pos 0) s) ≡ 0
  pub counter_del : (k : String) (s : S) → counter k (del k s) ≡ 0
  pub is_set_del : (k : String) (s : S) → is_set k (del k s) ≡ false
  pub set_nx_reply : (k : String) (n : ℤ) (s : S) → (set_nx k n s).1 ≡ not (is_set k s)
  pub is_set_nx : (k : String) (n : ℤ) (s : S) → is_set k (set_nx k n s).0 ≡ true

pub record RateLimiter : Type 0 where
  pub too_often_prefix : String
  pub too_freq_prefix : String

-- none is the panic for an empty prefix; `is_blank` is whether strings.TrimSpace of a string is empty.
unfoldable pub new_rate_limiter : (String → Bool) → String → Option RateLimiter
new_rate_limiter is_blank prefix =
    if is_blank prefix
    then none
    else some (record { too_often_prefix = "to_" ++ prefix; too_freq_prefix = "tf_" ++ prefix })

unfoldable pub too_often_key : RateLimiter → String → String
too_often_key r key = r.too_often_prefix ++ key

unfoldable pub too_freq_key : RateLimiter → String → String
too_freq_key r key = r.too_freq_prefix ++ key

-- int64(expire.Seconds()), truncated. Seconds() is a float64, which holds the quotient closely enough for
-- this up to 2^24 seconds; for longer times it may round up to the next whole second.
unfoldable pub whole_seconds : ℤ → ℤ
whole_seconds (pos n) = pos (n / 10 ^ 9)
whole_seconds (negsuc n) = negative ((n + 1) / 10 ^ 9)
  where
    negative : ℕ → ℤ
    negative zero = pos 0
    negative (suc n) = negsuc n

module _ {S : Type 0} (redis : Commands S) where
  -- tfIncrScript; the reply is the counter.
  unfoldable pub tf_incr_script : String → ℤ → S → S × ℕ
  tf_incr_script k seconds s =
      let s' = redis.incr k s in
      let v = redis.counter k s' in if v == 1 then (redis.expire k seconds s', v) else (s', v)

  -- A call that fails is taken not to have run the script; Int64() then returns 0.
  unfoldable pub is_too_frequent : RateLimiter → String → ℤ → ℤ → Option Failure → S → S × Bool
  unfolding tf_incr_script too_freq_key whole_seconds
  is_too_frequent r key limit expire failure s =
      if leb_ℤ limit (pos 0) then (s, true) else called failure
    where
      called : Option Failure → S × Bool
      called none =
          let (s', v) = tf_incr_script (too_freq_key r key) (whole_seconds expire) s in
          (s', ltb_ℤ limit (pos v))
      called (some nil_reply) = (s, ltb_ℤ limit (pos 0))
      called (some other_failure) = (s, true)

  -- The Val() of a call that fails is false.
  unfoldable pub is_too_often : RateLimiter → String → ℤ → Option Failure → S → S × Bool
  unfolding too_often_key
  is_too_often r key expire failure s = if is_some failure then (s, true) else replied
    where
      replied : S × Bool
      replied = let (s', set) = redis.set_nx (too_often_key r key) expire s in (s', not set)

  unfoldable pub del_too_often : RateLimiter → String → S → S
  del_too_often r key s = redis.del (r.too_often_prefix ++ key) s

  unfoldable pub del_too_frequent : RateLimiter → String → S → S
  del_too_frequent r key s = redis.del (r.too_freq_prefix ++ key) s

-- What happens to one key: IsTooFrequent is called, or the key is deleted or expires.
pub data KeyEvent : Type 0 where
  asks lapses : KeyEvent

module _ {S : Type 0} (redis : Commands S) (r : RateLimiter) (key : String) (limit expire : ℤ) where
  -- The replies of the calls, and the store after them.
  unfoldable pub replies : List KeyEvent → S → S × List Bool
  unfolding is_too_frequent del_too_frequent
  replies [] s = (s, [])
  replies (asks ∷ later) s =
      let (s', reply) = is_too_frequent redis r key limit expire none s in
      let (s'', rest) = replies later s' in (s'', reply ∷ rest)
  replies (lapses ∷ later) s = replies later (del_too_frequent redis r key s)
