-- ===== src/Bolt/Tests.antt =====
-- Witnesses and tests of bolt/repo.go.
use b_go_util.Base.{
  ℕ, ℤ, pos, negsuc, IsInt64, ◌≡◌, ◌≢◌, ◌⊎◌, inl, inr, refl, arith, ite, if_pos, if_neg, true,
  false, Option, none, some, List, [], ◌∷◌, if◌then◌else◌,
}
use b_go_util.Bolt.{Bytes, Fault, failure, less, drop_before, Sorted, Bolt, BoltLaws, Atomically}
use b_go_util.Bolt.Repository.{Res, ok, fault, Strconv, incr, get_int, incremented}
use b_go_util.Bolt.Cursor.{iterate_cursor, each_pair, with_prefix, prefix_visits}
use b_go_util.Bolt.Refinement.{
  Bytes-discrete, lookup, Command, put_command, del_command, incr_command, run_commands, model_run,
  commands_refine,
}
use b_go_util.Bolt.Counters.{incr_counts}

-- A bucket that takes two keys only, and a database of such buckets.
abbrev key_a : Bytes
key_a = 1 ∷ []

abbrev key_b : Bytes
key_b = 1 ∷ 2 ∷ []

record Pair : Type 0 where
  at_a : Option Bytes
  at_b : Option Bytes

abbrev get_pair : Pair → Bytes → Option Bytes
get_pair b k = ite (Bytes-discrete k key_a) b.at_a (ite (Bytes-discrete k key_b) b.at_b none)

abbrev set_pair : Pair → Bytes → Option Bytes → Pair × Option (Fault ℕ)
set_pair b k v =
    ite (Bytes-discrete k key_a) (record b { at_a = v }, none)
      (ite (Bytes-discrete k key_b) (record b { at_b = v }, none) (b, some (failure 1)))

abbrev listed : Bytes → Option Bytes → List (Bytes × Bytes) → List (Bytes × Bytes)
listed k none rest = rest
listed k (some v) rest = (k, v) ∷ rest

abbrev pairs_of : Pair → List (Bytes × Bytes)
pairs_of b = listed key_a b.at_a (listed key_b b.at_b [])

abbrev Buckets : Type 0
Buckets = Bytes → Option Pair

abbrev commit : Buckets → Buckets × Option (Fault ℕ) → Buckets × Option (Fault ℕ)
commit db (after, none) = (after, none)
commit db (after, some e) = (db, some e)

abbrev run_tx : Buckets → (Buckets → Buckets × Option (Fault ℕ)) → Buckets × Option (Fault ℕ)
run_tx db f = commit db (f db)

abbrev set_in : Buckets → Bytes → Option Pair → Buckets
set_in db n b m = ite (Bytes-discrete n m) b (db m)

abbrev empty_pair : Pair
empty_pair = record { at_a = none; at_b = none }

abbrev small_bolt : Bolt ℕ
small_bolt = record {
  Db = Buckets;
  Bucket = Pair;
  update = run_tx;
  batch = run_tx;
  view = λ db f. f db;
  bucket = λ db n. db n;
  set_bucket = λ db n b. set_in db n (some b);
  create_if_not_exists =
      λ db n. (elim (db n) [ none ↦ set_in db n (some empty_pair) | some b ↦ db ], none);
  create = λ db n. (set_in db n (some empty_pair), none);
  delete_bucket = λ db n. (set_in db n none, none);
  get = get_pair;
  put = λ b k v. set_pair b k (some v);
  delete = λ b k. set_pair b k none;
  pairs = pairs_of;
  seek = λ b p. drop_before p (pairs_of b);
  next_sequence = λ b. (b, 1);
  key_n = λ b. 0;
}

commit-Atomically : (db : Buckets) (r : Buckets × Option (Fault ℕ)) → Atomically db r (commit db r)
commit-Atomically db (after, none) = inr (refl, refl)
commit-Atomically db (after, some e) = inl (e, refl)

got_set :
    (b : Pair) (k : Bytes) (v : Option Bytes)
    → (set_pair b k v).1 ≡ none
    → get_pair (set_pair b k v).0 k ≡ v
got_set b k v h = ground arith

got_other :
    (b : Pair) (k : Bytes) (v : Option Bytes) (j : Bytes)
    → k ≢ j
    → get_pair (set_pair b k v).0 j ≡ get_pair b j
got_other b k v j d = ground arith

pairs_of-Sorted : (v w : Option Bytes) → Sorted (pairs_of (record { at_a = v; at_b = w }))
unfolding less
pairs_of-Sorted none none = tt
pairs_of-Sorted none (some w) = tt
pairs_of-Sorted (some v) none = tt
pairs_of-Sorted (some v) (some w) = (refl, tt)

small_bolt-Laws : BoltLaws small_bolt
small_bolt-Laws = record {
  update_law = λ db f. commit-Atomically db (f db);
  batch_law = λ db f. commit-Atomically db (f db);
  view_law = λ db f. viewed (f db);
  bucket_law = λ db n k. if_pos (Bytes-discrete n n) refl (some k) (db n);
  other_bucket_law = λ db n m k d. if_neg (Bytes-discrete n m) d (some k) (db m);
  put_law = λ k key val h. got_set k key (some val) h;
  other_put_law = λ k key val j d. got_other k key (some val) j d;
  delete_law = λ k key h. got_set k key none h;
  other_delete_law = λ k key j d. got_other k key none j d;
  pairs_law = λ k. pairs_of-Sorted k.at_a k.at_b;
  seek_law = λ k p. refl;
}
  where
    viewed : (r : Option (Fault ℕ)) → ((e : Fault ℕ) × (r ≡ some e)) ⊎ ((r ≡ none) × (r ≡ none))
    viewed none = inr (refl, refl)
    viewed (some e) = inl (e, refl)

-- A conversion of small numbers to one byte, which is enough for laws that it keeps.
abbrev some_db : Buckets
some_db = set_in (λ n. none) (7 ∷ []) (some (record { at_a = none; at_b = some (9 ∷ []) }))

abbrev byte_of : ℤ → Bytes
byte_of (pos n) = n ∷ []
byte_of (negsuc n) = 0 ∷ n ∷ []

abbrev read_bytes : Bytes → Res ℕ ℤ
read_bytes [] = fault (failure 2)
read_bytes (n ∷ []) = ok (pos n)
read_bytes (m ∷ n ∷ rest) = ok (negsuc n)

abbrev small_conv : Strconv ℕ
small_conv = record {
  format_int = byte_of;
  format_bool = λ b. if b then 1 ∷ [] else [];
  parse_int = read_bytes;
  parse_bool = λ s. ok true;
}

read_bytes-byte_of : (v : ℤ) → IsInt64 v → read_bytes (byte_of v) ≡ ok v
read_bytes-byte_of (pos n) h = refl
read_bytes-byte_of (negsuc n) h = refl

incr_counts_test :
    ((e : Fault ℕ) × (incr small_bolt small_conv (7 ∷ []) key_b (pos 2) some_db
        ≡ (some_db, fault e)))
    ⊎ ((m : ℤ) × (after : Buckets) × (incr small_bolt small_conv (7 ∷ []) key_b (pos 2) some_db
          ≡ (after, ok m))
        × (incremented small_bolt small_conv
              (7 ∷ [])
              (pos 2)
              (lookup small_bolt small_conv (7 ∷ []) some_db key_b)
            ≡ ok m)
        × (((e : Fault ℕ) × (get_int small_bolt small_conv (7 ∷ []) key_b after ≡ fault e))
            ⊎ (get_int small_bolt small_conv (7 ∷ []) key_b after ≡ ok m)))
incr_counts_test =
    incr_counts small_bolt small_conv (7 ∷ []) small_bolt-Laws read_bytes-byte_of key_b (pos 2)
      some_db (omega arith)

abbrev some_commands : List (Command small_bolt small_conv (7 ∷ []))
some_commands = put_command key_a (3 ∷ []) ∷ incr_command key_b (pos 2) ∷ del_command key_a ∷ []

commands_refine_example :
    ((k : Bytes)
      → lookup small_bolt small_conv
          (7 ∷ [])
          (run_commands small_bolt small_conv (7 ∷ []) some_commands some_db).0
          k
        ≡ model_run small_bolt small_conv
            (7 ∷ [])
            some_commands
            (run_commands small_bolt small_conv (7 ∷ []) some_commands some_db).1
            (lookup small_bolt small_conv (7 ∷ []) some_db)
            k)
    × ((other : Bytes)
        → (7 ∷ []) ≢ other
        → (run_commands small_bolt small_conv (7 ∷ []) some_commands some_db).0 other
          ≡ some_db other)
commands_refine_example =
    commands_refine small_bolt small_conv (7 ∷ []) small_bolt-Laws some_commands some_db

prefix_visits_example :
    iterate_cursor
      (λ k v. (true, none))
      (λ p. false)
      small_bolt
      (record { at_a = some (4 ∷ []); at_b = some (5 ∷ []) })
      (some key_b)
    ≡ each_pair
        (λ k v. (true, none))
        (with_prefix key_b (pairs_of (record { at_a = some (4 ∷ []); at_b = some (5 ∷ []) })))
prefix_visits_example =
    prefix_visits (λ k v. (true, none)) (λ p. false) small_bolt small_bolt-Laws
      (record { at_a = some (4 ∷ []); at_b = some (5 ∷ []) }) key_b refl
