-- ===== src/Scripts.antt =====
-- rdb/ca.go: the Lua scripts that compare the value of a key, or of a field of a hash, and change it.
-- The commands that the scripts call are Redis's: they are operations on a store, with the laws that
-- the Redis documentation gives them, for keys K, which are strings, or a key and a field. A script runs
-- alone. Arguments are texts; numbers are formatted by `format` and read by `parse`. A reply that cannot
-- be read, or a command that fails, is an error; the errors of the connection are left out.
pub mod Swaps
pub mod Increments
pub mod Tallies
mod Tests
use Prim.Native.String.{String}
use b_go_util.Base.{
  ℕ, ℤ, pos, ◌+ℤ◌, wrap64, IsInt64, ℤ-discrete, Bool, true, false, not, ◌≡◌, Option, none, some,
  if◌then◌else◌, ite, same, String-discrete,
}

-- strconv.FormatInt of the arguments, and strconv.ParseInt of the replies.
pub record Numbers : Type 0 where
  pub format : ℤ → String
  pub parse : String → Option ℤ
  pub parse_format : (n : ℤ) → IsInt64 n → parse (format n) ≡ some n
  pub parse_empty : parse "" ≡ none

-- GET, SET, DEL and INCRBY, or their forms for hashes, on a store of type S. INCRBY fails on a value
-- that is no number and where the sum is out of bounds; a missing key is 0 to it.
pub record Commands (K S : Type 0) (num : Numbers) : Type 0 where
  pub get : K → S → Option String
  pub set : K → String → S → S
  pub del : K → S → S
  pub incr_by : K → String → S → Option S
  pub get_set : (k : K) (v : String) (s : S) → get k (set k v s) ≡ some v
  pub get_del : (k : K) (s : S) → get k (del k s) ≡ none
  pub incr_some :
      (k : K) (n d : ℤ) (s : S)
      → get k s ≡ some (num.format n)
      → IsInt64 n
      → IsInt64 d
      → IsInt64 (n +ℤ d)
      → (s' : S) × (incr_by k (num.format d) s ≡ some s') × (get k s' ≡ some (num.format (n +ℤ d)))
  pub incr_missing :
      (k : K) (d : ℤ) (s : S)
      → get k s ≡ none
      → IsInt64 d
      → (s' : S) × (incr_by k (num.format d) s ≡ some s') × (get k s' ≡ some (num.format d))

module _ {K S : Type 0} (num : Numbers) (redis : Commands K S num) where
  -- local v = redis.call("get", KEYS[1]) or ''
  unfoldable pub value : K → S → String
  value k s = elim (redis.get k s) [ some v ↦ v | none ↦ "" ]

  -- The scripts that return 1 or 0, read by Bool().
  unfoldable pub set_eq : K → String → String → S → S × Bool
  unfolding value
  set_eq k expect val s =
      if same String-discrete (value k s) expect then (redis.set k val s, true) else (s, false)

  unfoldable pub del_eq : K → String → S → S × Bool
  unfolding value
  del_eq k expect s =
      if same String-discrete (value k s) expect then (redis.del k s, true) else (s, false)

  unfoldable pub set_neq : K → String → String → S → S × Bool
  unfolding value
  set_neq k expect val s =
      if same String-discrete (value k s) expect then (s, false) else (redis.set k val s, true)

  unfoldable pub del_neq : K → String → S → S × Bool
  unfolding value
  del_neq k expect s =
      if same String-discrete (value k s) expect then (s, false) else (redis.del k s, true)

  -- The store and the reply of a script that calls INCRBY; a command that fails ends the script.
  unfoldable pub incremented : K → String → String → S → S × Option String
  incremented k d reply s = elim (redis.incr_by k d s) [
    | some s' ↦ (s', some reply)
    | none ↦ (s, none)
  ]

  unfoldable pub incr_eq_script : K → String → String → S → S × Option String
  unfolding value incremented
  incr_eq_script k expect d s =
      if same String-discrete (value k s) expect
      then incremented k d (value k s) s
      else (s, some (value k s))

  unfoldable pub incr_neq_script : K → String → String → S → S × Option String
  unfolding value incremented
  incr_neq_script k expect d s =
      if same String-discrete (value k s) expect
      then (s, some (value k s))
      else incremented k d (value k s) s

  -- .Int64()
  unfoldable pub int64_reply : Option String → Option ℤ
  int64_reply none = none
  int64_reply (some reply) = num.parse reply

-- What IncrEQ and IncrNEQ return: ok, the value, and whether there is an error.
pub record Increment : Type 0 where
  pub ok : Bool
  pub value_after : ℤ
  pub failed : Bool

-- The value that Int64() returns with an error is 0, since what it reads is no number.
unfoldable pub incr_eq_result : ℤ → ℤ → Option ℤ → Increment
incr_eq_result expect val none = record { ok = false; value_after = pos 0; failed = true }
incr_eq_result expect val (some v) =
    if same ℤ-discrete v expect
    then record { ok = true; value_after = wrap64 (v +ℤ val); failed = false }
    else record { ok = false; value_after = v; failed = false }

unfoldable pub incr_neq_result : ℤ → ℤ → Option ℤ → Increment
incr_neq_result expect val none = record { ok = false; value_after = pos 0; failed = true }
incr_neq_result expect val (some v) =
    if same ℤ-discrete v expect
    then record { ok = false; value_after = v; failed = false }
    else record { ok = true; value_after = wrap64 (v +ℤ val); failed = false }

module _ {K S : Type 0} (num : Numbers) (redis : Commands K S num) where
  unfoldable pub incr_eq : K → ℤ → ℤ → S → S × Increment
  unfolding incr_eq_script int64_reply incr_eq_result
  incr_eq k expect val s =
      let (s', reply) = incr_eq_script num redis k (num.format expect) (num.format val) s in
      (s', incr_eq_result expect val (int64_reply num redis reply))

  unfoldable pub incr_neq : K → ℤ → ℤ → S → S × Increment
  unfolding incr_neq_script int64_reply incr_neq_result
  incr_neq k expect val s =
      let (s', reply) = incr_neq_script num redis k (num.format expect) (num.format val) s in
      (s', incr_neq_result expect val (int64_reply num redis reply))

  -- HSetEQ and HDelEQ, whose scripts are these for a key and a field.
  unfoldable pub hset_eq : K → String → String → S → S × Bool
  unfolding set_eq
  hset_eq k expect val s = set_eq num redis k expect val s

  unfoldable pub hdel_eq : K → String → S → S × Bool
  unfolding del_eq
  hdel_eq k expect s = del_eq num redis k expect s

  -- The script of HIncrEQ returns 1 or 0.
  unfoldable pub hincr_eq_script : K → String → String → S → S × Option Bool
  unfolding value
  hincr_eq_script k expect d s =
      if same String-discrete (value num redis k s) expect
      then (elim (redis.incr_by k d s) [ some s' ↦ (s', some true) | none ↦ (s, none) ])
      else (s, some false)

  unfoldable pub hincr_eq_result : ℤ → ℤ → Option Bool → Increment
  hincr_eq_result expect val none = record { ok = false; value_after = pos 0; failed = true }
  hincr_eq_result expect val (some false) = record {
    ok = false;
    value_after = pos 0;
    failed = false;
  }
  hincr_eq_result expect val (some true) = record {
    ok = true;
    value_after = wrap64 (expect +ℤ val);
    failed = false;
  }

  unfoldable pub hincr_eq : K → ℤ → ℤ → S → S × Increment
  unfolding hincr_eq_script hincr_eq_result
  hincr_eq k expect val s =
      let (s', reply) = hincr_eq_script k (num.format expect) (num.format val) s in
      (s', hincr_eq_result expect val reply)
