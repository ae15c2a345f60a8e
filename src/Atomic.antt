-- ===== src/Atomic.antt =====
-- util/atomic.go: the values that several goroutines share. Each method is one atomic operation of
-- sync/atomic, so it is one step. AtomicTime and the printing of AtomicInt64 are left out.
pub mod Swaps
mod Tests
use b_go_util.Base.{
  ℕ, ℤ, pos, negsuc, ◌+ℤ◌, leb_ℤ, ltb, ◌-◌, ◌%◌, ◌^◌, wrap64, ℤ-discrete, same, Bool, true, false,
  not, ◌≡◌, if◌then◌else◌, ite, Option, none, some,
}

-- The int32 holds 1 for true and 0 for false.
pub record AtomicBool : Type 0 where
  pub word : ℤ

-- var i int32 = 0; if v { i = 1 }
unfoldable pub word_of : Bool → ℤ
word_of v = if v then pos 1 else pos 0

unfoldable pub new_bool : Bool → AtomicBool
unfolding word_of
new_bool v = record { word = word_of v }

unfoldable pub set_bool : AtomicBool → Bool → AtomicBool
unfolding word_of
set_bool b v = record { word = word_of v }

-- The value and whether it was swapped.
unfoldable pub cas_bool : AtomicBool → Bool → AtomicBool × Bool
unfolding word_of
cas_bool b expect =
    let old = if expect then pos 1 else pos 0 in
    let new = if expect then pos 0 else pos 1 in
    if same ℤ-discrete b.word old then (record { word = new }, true) else (b, false)

unfoldable pub bool_value : AtomicBool → Bool
bool_value b = same ℤ-discrete b.word (pos 1)

unfoldable pub is_true : AtomicBool → Bool
unfolding bool_value
is_true b = bool_value b

unfoldable pub is_false : AtomicBool → Bool
unfolding bool_value
is_false b = not (bool_value b)

pub record AtomicInt64 : Type 0 where
  pub number : ℤ

unfoldable pub new_int64 : ℤ → AtomicInt64
new_int64 v = record { number = v }

unfoldable pub set_int64 : AtomicInt64 → ℤ → AtomicInt64
set_int64 s v = record { number = v }

-- The sum wraps around; it is also returned.
unfoldable pub incr_int64 : AtomicInt64 → ℤ → AtomicInt64 × ℤ
incr_int64 s n = (record { number = wrap64 (s.number +ℤ n) }, wrap64 (s.number +ℤ n))

unfoldable pub cas_int64 : AtomicInt64 → ℤ → ℤ → AtomicInt64 × Bool
cas_int64 s expect target =
    if same ℤ-discrete s.number expect then (record { number = target }, true) else (s, false)

unfoldable pub int64_value : AtomicInt64 → ℤ
int64_value s = s.number

-- int is 64 bits wide.
unfoldable pub int_of : AtomicInt64 → ℤ
int_of s = s.number

-- The low 32 bits, as a signed number.
abbrev low32 : ℤ → ℕ
low32 (pos n) = n % 2 ^ 32
low32 (negsuc n) = 2 ^ 32 - 1 - n % 2 ^ 32

unfoldable pub int32_of : AtomicInt64 → ℤ
int32_of s = let u = low32 s.number in if ltb u (2 ^ 31) then pos u else negsuc (2 ^ 32 - 1 - u)

-- The error is packed, so nil can be stored. Errors are compared as Go compares interfaces.
pub record AtomicError {ℓ} (E : Type ℓ) : Type ℓ where
  pub packed : Option E

module _ {ℓ} {E : Type ℓ} (dec : Discrete (Option E)) where
  unfoldable pub set_error : AtomicError E → Option E → AtomicError E
  set_error a err = record { packed = err }

  unfoldable pub new_error : AtomicError E
  new_error = record { packed = none }

  unfoldable pub error_value : AtomicError E → Option E
  error_value a = a.packed

  unfoldable pub cas_error : AtomicError E → Option E → Option E → AtomicError E × Bool
  cas_error a expect target =
      if same dec a.packed expect then (record { packed = target }, true) else (a, false)

  unfoldable pub set_error_if_absent : AtomicError E → Option E → AtomicError E × Bool
  unfolding cas_error
  set_error_if_absent a err = cas_error a none err
