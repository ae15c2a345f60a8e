-- ===== src/Bolt.antt =====
-- bolt/repo.go: a repository of keys and values in a bucket of bbolt. bbolt is the record Bolt, whose
-- laws are those of its documentation; keys and values are lists of bytes. strconv and
-- strings.TrimSpace, by what it says of a name, are parameters.
pub mod Repository
pub mod Cursor
pub mod Refinement
pub mod Counters
mod Tests
use b_go_util.Base.{
  ℕ, ℤ, ◌≡◌, ◌≢◌, ◌⊎◌, Bool, true, false, not, ◌&&◌, Option, none, some, List, [], ◌∷◌,
  if◌then◌else◌, ltb,
}

abbrev pub Bytes : Type 0
Bytes = List ℕ

-- What a function of a transaction, or the transaction, ends with: a panic on a bucket that is nil,
-- or an error.
pub data Fault (E : Type 0) : Type 0 where
  nil_bucket : Fault E
  failure : E → Fault E

-- Byte order, and bytes.HasPrefix.
unfoldable pub less : Bytes → Bytes → Bool
less [] [] = false
less [] (b ∷ t) = true
less (a ∷ s) [] = false
less (a ∷ s) (b ∷ t) =
    let rest = less s t in if ltb a b then true else if ltb b a then false else rest

unfoldable pub has_prefix : Bytes → Bytes → Bool
has_prefix k [] = true
has_prefix [] (b ∷ p) = false
has_prefix (a ∷ k) (b ∷ p) = not (ltb a b) && not (ltb b a) && has_prefix k p

abbrev pub drop_before : Bytes → List (Bytes × Bytes) → List (Bytes × Bytes)
drop_before p [] = []
drop_before p ((k, v) ∷ items) = if less k p then drop_before p items else (k, v) ∷ items

abbrev pub Sorted : List (Bytes × Bytes) → Type 0
Sorted [] = Unit
Sorted ((k, v) ∷ []) = Unit
Sorted ((k, v) ∷ (j, w) ∷ items) = (less k j ≡ true) × Sorted ((j, w) ∷ items)

-- A database and what a transaction does in it: Update, Batch and View run a function of the
-- transaction; the bucket of a name, nil if there is none, is a pointer, so what is done to it is put
-- back; the cursor's pairs from First and from Seek on; the sequence; the number of keys.
pub record Bolt (E : Type 0) : Type 1 where
  pub Db : Type 0
  pub Bucket : Type 0
  pub update : Db → (Db → Db × Option (Fault E)) → Db × Option (Fault E)
  pub batch : Db → (Db → Db × Option (Fault E)) → Db × Option (Fault E)
  pub view : Db → (Db → Option (Fault E)) → Option (Fault E)
  pub bucket : Db → Bytes → Option Bucket
  pub set_bucket : Db → Bytes → Bucket → Db
  pub create_if_not_exists : Db → Bytes → Db × Option (Fault E)
  pub create : Db → Bytes → Db × Option (Fault E)
  pub delete_bucket : Db → Bytes → Db × Option (Fault E)
  pub get : Bucket → Bytes → Option Bytes
  pub put : Bucket → Bytes → Bytes → Bucket × Option (Fault E)
  pub delete : Bucket → Bytes → Bucket × Option (Fault E)
  pub pairs : Bucket → List (Bytes × Bytes)
  pub seek : Bucket → Bytes → List (Bytes × Bytes)
  pub next_sequence : Bucket → Bucket × ℕ
  pub key_n : Bucket → ℕ

-- A transaction is committed whole or not at all.
abbrev pub Atomically : {E D : Type 0} → D → D × Option (Fault E) → D × Option (Fault E) → Type 0
Atomically {E} db ran result =
    ((e : Fault E) × (result ≡ (db, some e))) ⊎ ((ran.1 ≡ none) × (result ≡ (ran.0, none)))

-- The laws that the theorems rely on.
pub record BoltLaws {E : Type 0} (b : Bolt E) : Type 0 where
  pub update_law :
      (db : b.Db) (f : b.Db → b.Db × Option (Fault E)) → Atomically db (f db) (b.update db f)
  pub batch_law :
      (db : b.Db) (f : b.Db → b.Db × Option (Fault E)) → Atomically db (f db) (b.batch db f)
  pub view_law :
      (db : b.Db) (f : b.Db → Option (Fault E))
      → ((e : Fault E) × (b.view db f ≡ some e)) ⊎ ((f db ≡ none) × (b.view db f ≡ none))
  pub bucket_law :
      (db : b.Db) (n : Bytes) (k : b.Bucket) → b.bucket (b.set_bucket db n k) n ≡ some k
  pub other_bucket_law :
      (db : b.Db) (n m : Bytes) (k : b.Bucket)
      → n ≢ m
      → b.bucket (b.set_bucket db n k) m ≡ b.bucket db m
  pub put_law :
      (k : b.Bucket) (key val : Bytes)
      → (b.put k key val).1 ≡ none
      → b.get (b.put k key val).0 key ≡ some val
  pub other_put_law :
      (k : b.Bucket) (key val j : Bytes) → key ≢ j → b.get (b.put k key val).0 j ≡ b.get k j
  pub delete_law :
      (k : b.Bucket) (key : Bytes) → (b.delete k key).1 ≡ none → b.get (b.delete k key).0 key ≡ none
  pub other_delete_law :
      (k : b.Bucket) (key j : Bytes) → key ≢ j → b.get (b.delete k key).0 j ≡ b.get k j
  pub pairs_law : (k : b.Bucket) → Sorted (b.pairs k)
  pub seek_law : (k : b.Bucket) (p : Bytes) → b.seek k p ≡ drop_before p (b.pairs k)
