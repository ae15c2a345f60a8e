-- ===== src/Bolt/Repository.antt =====
-- The methods of Repository of bolt/repo.go, with the state of the database passed on. `none` is a
-- failed assertion or a panic of NewRepository.
use b_go_util.Base.{
  ℕ, ℤ, ◌+ℤ◌, wrap64, signed64, ◌%◌, ◌^◌, Bool, false, not, ◌&&◌, Option, none, some, is_some, [],
  if◌then◌else◌,
}
use b_go_util.Bolt.{Bytes, Fault, nil_bucket, Bolt}

-- What a method returns: its results, or an error.
pub data Res (E A : Type 0) : Type 0 where
  ok : A → Res E A
  fault : Fault E → Res E A

-- strconv's conversions to text, and those from text, which may fail.
pub record Strconv (E : Type 0) : Type 0 where
  pub format_int : ℤ → Bytes
  pub format_bool : Bool → Bytes
  pub parse_int : Bytes → Res E ℤ
  pub parse_bool : Bytes → Res E Bool

module _ {E A : Type 0} where
  -- if err != nil { return 0, err }; return x, nil
  abbrev pub or_fault : Option (Fault E) → A → Res E A
  or_fault none x = ok x
  or_fault (some e) x = fault e

  abbrev pub then_res : {B : Type 0} → Res E A → (A → Res E B) → Res E B
  then_res (ok x) f = f x
  then_res (fault e) f = fault e

  -- if v, err := …; err == nil { return v }; return df
  abbrev pub res_or : Res E A → A → A
  res_or (ok x) d = x
  res_or (fault e) d = d

module _ {E : Type 0} (B : Bolt E) (conv : Strconv E) (name : Bytes) where
  -- r.Update, r.Batch and r.View with a function of the bucket.
  abbrev pub in_bucket : (B.Bucket → B.Bucket × Option (Fault E)) → B.Db → B.Db × Option (Fault E)
  in_bucket f tx = elim (B.bucket tx name) [
    | none ↦ (tx, some nil_bucket)
    | some b ↦ (B.set_bucket tx name (f b).0, (f b).1)
  ]

  unfoldable pub update_bucket :
      (B.Bucket → B.Bucket × Option (Fault E)) → B.Db → B.Db × Option (Fault E)
  update_bucket f db = B.update db (in_bucket f)

  unfoldable pub batch_bucket :
      (B.Bucket → B.Bucket × Option (Fault E)) → B.Db → B.Db × Option (Fault E)
  batch_bucket f db = B.batch db (in_bucket f)

  -- A view, and what its function reads of the bucket into a variable that is `unread` before.
  unfoldable pub view_bucket : {A : Type 0} → A → (B.Bucket → A) → B.Db → Res E A
  view_bucket unread f db =
      or_fault
        (B.view db (λ tx. elim (B.bucket tx name) [ none ↦ some nil_bucket | some b ↦ none ]))
        (elim (B.bucket db name) [ none ↦ unread | some b ↦ f b ])

  unfoldable pub create_bucket_if_not_exists : B.Db → B.Db × Option (Fault E)
  create_bucket_if_not_exists db = B.update db (λ tx. B.create_if_not_exists tx name)

  -- NewRepository; whether TrimSpace leaves nothing of the name.
  unfoldable pub new_repository : Bool → B.Db → Option B.Db
  unfolding create_bucket_if_not_exists
  new_repository blank db =
      let made = create_bucket_if_not_exists db in
      if not blank && not (is_some made.1) then some made.0 else none

  unfoldable pub del_bucket : B.Db → B.Db × Option (Fault E)
  del_bucket db = B.update db (λ tx. B.delete_bucket tx name)

  unfoldable pub recreate_bucket : B.Db → B.Db × Option (Fault E)
  recreate_bucket db = B.update db (λ tx. elim ((B.delete_bucket tx name).1) [
    | some e ↦ B.delete_bucket tx name
    | none ↦ B.create (B.delete_bucket tx name).0 name
  ])

  unfoldable pub del : Bytes → B.Db → B.Db × Option (Fault E)
  unfolding update_bucket
  del key db = update_bucket (λ b. B.delete b key) db

  unfoldable pub put : Bytes → Bytes → B.Db → B.Db × Option (Fault E)
  unfolding update_bucket
  put key val db = update_bucket (λ b. B.put b key val) db

  unfoldable pub put_bool : Bytes → Bool → B.Db → B.Db × Option (Fault E)
  put_bool key val db = put key (conv.format_bool val) db

  -- PutInt and PutInt64.
  unfoldable pub put_int : Bytes → ℤ → B.Db → B.Db × Option (Fault E)
  put_int key val db = put key (conv.format_int val) db

  unfoldable pub batch_put : Bytes → Bytes → B.Db → B.Db × Option (Fault E)
  unfolding batch_bucket
  batch_put key val db = batch_bucket (λ b. B.put b key val) db

  unfoldable pub batch_put_bool : Bytes → Bool → B.Db → B.Db × Option (Fault E)
  batch_put_bool key val db = batch_put key (conv.format_bool val) db

  unfoldable pub batch_put_int : Bytes → ℤ → B.Db → B.Db × Option (Fault E)
  batch_put_int key val db = batch_put key (conv.format_int val) db

  -- The function that Incr gives to Update: what n is then, or the error of ParseInt.
  unfoldable pub incremented : ℤ → Option Bytes → Res E ℤ
  incremented n none = ok n
  incremented n (some val) = then_res (conv.parse_int val) (λ v. ok (wrap64 (n +ℤ v)))

  unfoldable pub incr_body : Bytes → ℤ → B.Bucket → B.Bucket × Option (Fault E)
  unfolding incremented
  incr_body key n b = elim (incremented n (B.get b key)) [
    | ok m ↦ B.put b key (conv.format_int m)
    | fault e ↦ (b, some e)
  ]

  unfoldable pub incr : Bytes → ℤ → B.Db → B.Db × Res E ℤ
  unfolding update_bucket incremented incr_body
  incr key n db =
      let ran = update_bucket (incr_body key n) db in
      let captured : ℤ = elim (B.bucket db name) [
        | none ↦ n
        | some b ↦ res_or (incremented n (B.get b key)) n
      ] in
      (ran.0, or_fault ran.1 captured)

  unfoldable pub has : Bytes → B.Db → Res E Bool
  unfolding view_bucket
  has key db = view_bucket false (λ b. is_some (B.get b key)) db

  unfoldable pub has_or_default : Bytes → Bool → B.Db → Bool
  has_or_default key d db = res_or (has key db) d

  -- Get: the copied bytes, or nil.
  unfoldable pub get : Bytes → B.Db → Res E (Option Bytes)
  unfolding view_bucket
  get key db = view_bucket none (λ b. B.get b key) db

  abbrev pub text_of : Option Bytes → Bytes
  text_of none = []
  text_of (some bytes) = bytes

  unfoldable pub get_string : Bytes → B.Db → Res E Bytes
  get_string key db = then_res (get key db) (λ val. ok (text_of val))

  unfoldable pub get_bool : Bytes → B.Db → Res E Bool
  unfolding get_string
  get_bool key db = then_res (get_string key db) conv.parse_bool

  -- GetInt and GetInt64, by Atoi and ParseInt.
  unfoldable pub get_int : Bytes → B.Db → Res E ℤ
  unfolding get_string
  get_int key db = then_res (get_string key db) conv.parse_int

  unfoldable pub get_string_or_default : Bytes → Bytes → B.Db → Bytes
  get_string_or_default key d db = res_or (get_string key db) d

  unfoldable pub get_bool_or_default : Bytes → Bool → B.Db → Bool
  get_bool_or_default key d db = res_or (get_bool key db) d

  unfoldable pub get_int_or_default : Bytes → ℤ → B.Db → ℤ
  get_int_or_default key d db = res_or (get_int key db) d

  unfoldable pub next_id : B.Db → B.Db × Res E ℕ
  unfolding update_bucket
  next_id db =
      let ran = update_bucket (λ b. ((B.next_sequence b).0, none)) db in
      (
        ran.0,
        or_fault ran.1 (elim (B.bucket db name) [ none ↦ 0 | some b ↦ (B.next_sequence b).1 ]),
      )

  -- int64 of a uint64
  unfoldable pub next_id_int64 : B.Db → B.Db × Res E ℤ
  next_id_int64 db = let r = next_id db in (r.0, then_res r.1 (λ id. ok (signed64 (id % 2 ^ 64))))

  unfoldable pub next_id_string : B.Db → B.Db × Res E Bytes
  unfolding next_id_int64
  next_id_string db =
      let r = next_id_int64 db in (r.0, then_res r.1 (λ id. ok (conv.format_int id)))
