-- ===== src/Limiter/Tests.antt =====
-- The theorems on rate limiters at a store that holds one key.
use b_go_util.Base.{
  ℕ, zero, suc, ◌<◌, ℤ, pos, negsuc, Bool, true, false, not, ◌≡◌, refl, arith, Option, none, some,
  List, [], ◌∷◌, String-discrete, same, if◌then◌else◌,
}
use b_go_util.Limiter.{
  Commands, RateLimiter, new_rate_limiter, whole_seconds, KeyEvent, asks, lapses, replies,
}
use b_go_util.Limiter.Windows.{limited, IsTimed, windows_limited, any_true, never_limited}

record OneKey : Type 0 where
  number : ℕ
  ttl : Option ℤ

abbrev no_key : OneKey
no_key = record { number = 0; ttl = none }

abbrev expire_one : ℤ → OneKey → OneKey
expire_one (pos zero) s = no_key
expire_one (pos (suc n)) s = record s { ttl = some (pos (suc n)) }
expire_one (negsuc n) s = no_key

abbrev above_zero : ℕ → Bool
above_zero zero = false
above_zero (suc n) = true

counter_kept : (n : ℕ) (s : OneKey) → 0 < n → (expire_one (pos n) s).number ≡ s.number
counter_kept zero s p = absurd (omega arith)
counter_kept (suc n) s p = refl

ttl_given : (n : ℕ) (s : OneKey) → 0 < n → (expire_one (pos n) s).ttl ≡ some (pos n)
ttl_given zero s p = absurd (omega arith)
ttl_given (suc n) s p = refl

set_reply : (n : ℕ) → above_zero (if above_zero n then n else 1) ≡ true
set_reply zero = refl
set_reply (suc n) = refl

abbrev one_key : Commands OneKey
one_key = record {
  counter = λ _ s. s.number;
  expiry = λ _ s. s.ttl;
  is_set = λ _ s. above_zero s.number;
  incr = λ _ s. record s { number = suc s.number };
  expire = λ _ n s. expire_one n s;
  del = λ _ _. no_key;
  set_nx = λ _ n s. (
    record s { number = if above_zero s.number then s.number else 1 },
    not (above_zero s.number),
  );
  counter_incr = λ _ _. refl;
  expiry_incr = λ _ _. refl;
  counter_expire = λ _ n s p. counter_kept n s p;
  expiry_expire = λ _ n s p _. ttl_given n s p;
  expire_at_once = λ _ _. refl;
  counter_del = λ _ _. refl;
  is_set_del = λ _ _. refl;
  set_nx_reply = λ _ _ _. refl;
  is_set_nx = λ _ _ s. set_reply s.number;
}

abbrev some_limiter : RateLimiter
some_limiter = record { too_often_prefix = "to_a"; too_freq_prefix = "tf_a" }

some_limiter_test : new_rate_limiter (λ t. same String-discrete t "") "a" ≡ some some_limiter
unfolding new_rate_limiter String-discrete
some_limiter_test = refl

abbrev events : List KeyEvent
events = asks ∷ asks ∷ asks ∷ lapses ∷ asks ∷ []

-- Two calls in each minute.
windows_limited_example :
    ((replies one_key some_limiter "k" (pos 2) (pos 60000000000) events no_key).1
      ≡ limited 2 0 events)
    × IsTimed one_key some_limiter "k" 60
        (replies one_key some_limiter "k" (pos 2) (pos 60000000000) events no_key).0
unfolding whole_seconds
windows_limited_example =
    windows_limited one_key some_limiter "k" 2 60 (pos 60000000000) events no_key (omega arith)
      (omega arith) refl refl

-- Half a second is no time.
half_second_test :
    any_true (replies one_key some_limiter "k" (pos 2) (pos 500000000) events no_key).1 ≡ false
unfolding whole_seconds
half_second_test =
    never_limited one_key some_limiter "k" 2 (pos 500000000) events no_key (omega arith) refl refl
