-- ===== src/Bolt/Refinement.antt =====
-- The repository of bolt/repo.go as a map from keys to values.
use b_go_util.Base.{
  ℕ_discrete, ℤ, ◌+ℤ◌, wrap64, ◌≡◌, ◌≢◌, ◌⊎◌, inl, inr, refl, sym, ap, ◌∙◌, ite, if_pos, if_neg,
  Bool, true, false, not, Option, none, some, is_some, Option-cases, List, [], ◌∷◌, if◌then◌else◌,
}
use mathlib.Core.Path.{fun_ext}
use b_go_util.Bolt.{Bytes, Fault, nil_bucket, Bolt, BoltLaws}
use b_go_util.Bolt.Repository.{
  Res, ok, fault, Strconv, in_bucket, update_bucket, put, del, then_res, incremented, incr_body,
  incr,
}

unfoldable pub Bytes-discrete : Discrete Bytes
Bytes-discrete = hlevel ℕ_discrete

pub ok_eq : {E : Type 0} {v w : ℤ} → ◌≡◌ {A = Res E ℤ} (ok v) (ok w) → v ≡ w
ok_eq h = cc

pub Res-cases :
    {E A : Type 0} (r : Res E A) → ((x : A) × (r ≡ ok x)) ⊎ ((e : Fault E) × (r ≡ fault e))
Res-cases (ok x) = inl (x, refl)
Res-cases (fault e) = inr (e, refl)

module _ {E : Type 0} (B : Bolt E) (conv : Strconv E) (name : Bytes) where
  -- What Get reads: no value where the bucket or the key is missing.
  unfoldable pub lookup : B.Db → Bytes → Option Bytes
  lookup db key = elim (B.bucket db name) [ none ↦ none | some b ↦ B.get b key ]

  -- An update either fails and changes nothing, or its function has run on the bucket.
  abbrev pub Updated :
      (B.Bucket → B.Bucket × Option (Fault E)) → B.Db → B.Db × Option (Fault E) → Type 0
  Updated f db result =
      ((e : Fault E) × (result ≡ (db, some e)))
      ⊎ ((b : B.Bucket) × (B.bucket db name ≡ some b)
          × ((f b).1 ≡ none)
          × (result ≡ (B.set_bucket db name (f b).0, none)))

  nil_run :
      (f : B.Bucket → B.Bucket × Option (Fault E)) (db : B.Db)
      → B.bucket db name ≡ none
      → in_bucket B conv name f db ≡ (db, some nil_bucket)
  nil_run f db h = rw (in_bucket, h) refl

  bucket_run :
      (f : B.Bucket → B.Bucket × Option (Fault E)) (db : B.Db) (b : B.Bucket)
      → B.bucket db name ≡ some b
      → in_bucket B conv name f db ≡ (B.set_bucket db name (f b).0, (f b).1)
  bucket_run f db b h = rw (in_bucket, h) refl

  pub update_bucket-Updated :
      (laws : BoltLaws B) (f : B.Bucket → B.Bucket × Option (Fault E)) (db : B.Db)
      → Updated f db (update_bucket B conv name f db)
  unfolding update_bucket
  update_bucket-Updated laws f db = elim (laws.update_law db (in_bucket B conv name f)) [
    | inl (e, h) ↦ inl (e, h)
    | inr (clean, h) ↦ elim (Option-cases (B.bucket db name)) [
      | inl k ↦ absurd (cc (clean, ap (λ r. r.1) (nil_run f db k)))
      | inr (b, k) ↦
          let ran = bucket_run f db b k in
          let no_error : (f b).1 ≡ none = sym (ap (λ r. r.1) ran) ∙ clean in
          inr (b, k, no_error, h ∙ ap (λ r. (r.0, none)) ran)
    ]
  ]

  body_ok :
      (key : Bytes) (n m : ℤ) (b : B.Bucket)
      → incremented B conv name n (B.get b key) ≡ ok m
      → incr_body B conv name key n b ≡ B.put b key (conv.format_int m)
  unfolding incr_body
  body_ok key n m b h = rw (incr_body, h) refl

  body_fault :
      (key : Bytes) (n : ℤ) (e : Fault E) (b : B.Bucket)
      → incremented B conv name n (B.get b key) ≡ fault e
      → incr_body B conv name key n b ≡ (b, some e)
  unfolding incr_body
  body_fault key n e b h = rw (incr_body, h) refl

  -- Incr either fails and changes nothing, or has stored the number that it returns.
  abbrev pub Incremented : Bytes → ℤ → B.Db → B.Db × Res E ℤ → Type 0
  Incremented key n db result =
      ((e : Fault E) × (result ≡ (db, fault e)))
      ⊎ ((b : B.Bucket) × (m : ℤ) × (B.bucket db name ≡ some b)
          × (incremented B conv name n (B.get b key) ≡ ok m)
          × ((B.put b key (conv.format_int m)).1 ≡ none)
          × (result ≡ (B.set_bucket db name (B.put b key (conv.format_int m)).0, ok m)))

  pub incr-Incremented :
      (laws : BoltLaws B) (key : Bytes) (n : ℤ) (db : B.Db)
      → Incremented key n db (incr B conv name key n db)
  unfolding incr
  incr-Incremented laws key n db =
      elim (update_bucket-Updated laws (incr_body B conv name key n) db) [
        | inl (e, h) ↦ inl (e, rw (incr, h) refl)
        | inr (b, k, c, h) ↦ elim (Res-cases (incremented B conv name n (B.get b key))) [
          | inr (e, i) ↦ absurd (cc (c, ap (λ r. r.1) (body_fault key n e b i)))
          | inl (m, i) ↦
              let stored = body_ok key n m b i in
              inr (b, m, k, i, sym (ap (λ r. r.1) stored) ∙ c, rw (incr, h, k, i, stored) refl)
        ]
      ]

  pub data Command : Type 0 where
    put_command : Bytes → Bytes → Command
    del_command : Bytes → Command
    incr_command : Bytes → ℤ → Command

  abbrev succeeded : Res E ℤ → Bool
  succeeded (ok v) = true
  succeeded (fault e) = false

  -- A command, and whether it returns no error.
  unfoldable pub do_command : Command → B.Db → B.Db × Bool
  unfolding put del
  do_command (put_command key val) db =
      let r = put B conv name key val db in (r.0, not (is_some r.1))
  do_command (del_command key) db = let r = del B conv name key db in (r.0, not (is_some r.1))
  do_command (incr_command key n) db = let r = incr B conv name key n db in (r.0, succeeded r.1)

  -- The map that a command makes of a map.
  unfoldable pub model_step : Command → (Bytes → Option Bytes) → Bytes → Option Bytes
  model_step (put_command key val) m k = ite (Bytes-discrete key k) (some val) (m k)
  model_step (del_command key) m k = ite (Bytes-discrete key k) none (m k)
  model_step (incr_command key n) m k =
      ite (Bytes-discrete key k)
        (elim (m key) [
          | none ↦ some (conv.format_int n)
          | some val ↦ elim (conv.parse_int val) [
            | ok v ↦ some (conv.format_int (wrap64 (n +ℤ v)))
            | fault e ↦ m k
          ]
        ])
        (m k)

  -- What the map holds at the key that Incr has counted up.
  model_step-incr :
      (key : Bytes) (n w : ℤ) (m : Bytes → Option Bytes) (k : Bytes)
      → incremented B conv name n (m key) ≡ ok w
      → model_step (incr_command key n) m k
        ≡ ite (Bytes-discrete key k) (some (conv.format_int w)) (m k)
  unfolding model_step incremented
  model_step-incr key n w m k h = at_key (m key) h (λ x. ite (Bytes-discrete key k) x (m k))
    where
      at_key :
          (old : Option Bytes)
          → incremented B conv name n old ≡ ok w
          → (f : Option Bytes → Option Bytes)
          → f (elim old [
            | none ↦ some (conv.format_int n)
            | some val ↦ elim (conv.parse_int val) [
              | ok v ↦ some (conv.format_int (wrap64 (n +ℤ v)))
              | fault e ↦ m k
            ]
          ])
            ≡ f (some (conv.format_int w))
      at_key none h f = ap (λ v. f (some (conv.format_int v))) (ok_eq h)
      at_key (some val) h f = elim (Res-cases (conv.parse_int val)) [
        | inl (v, p) ↦ rw p (
            ap (λ v. f (some (conv.format_int v)))
              (ok_eq (sym (ap (λ r. then_res r (λ v. ok (wrap64 (n +ℤ v)))) p) ∙ h)))
        | inr (e, p) ↦ absurd (cc (sym (ap (λ r. then_res r (λ v. ok (wrap64 (n +ℤ v)))) p) ∙ h))
      ]

  -- What one command does: nothing, or the step of the map, with the other buckets as they were.
  abbrev StepOf : Command → B.Db → B.Db × Bool → Type 0
  StepOf c db r =
      ((r.1 ≡ false) × (r.0 ≡ db))
      ⊎ ((r.1 ≡ true)
          × ((k : Bytes) → lookup r.0 k ≡ model_step c (lookup db) k)
          × ((other : Bytes) → name ≢ other → B.bucket r.0 other ≡ B.bucket db other))

  lookup-set :
      (laws : BoltLaws B) (db : B.Db) (b : B.Bucket) (k : Bytes)
      → lookup (B.set_bucket db name b) k ≡ B.get b k
  unfolding lookup
  lookup-set laws db b k = rw (lookup, laws.bucket_law db name b) refl

  lookup-here :
      (db : B.Db) (b : B.Bucket) (k : Bytes) → B.bucket db name ≡ some b → lookup db k ≡ B.get b k
  unfolding lookup
  lookup-here db b k h = rw (lookup, h) refl

  got_put :
      (laws : BoltLaws B) (b : B.Bucket) (key val k : Bytes)
      → (B.put b key val).1 ≡ none
      → B.get (B.put b key val).0 k ≡ ite (Bytes-discrete key k) (some val) (B.get b k)
  got_put laws b key val k c = elim (Bytes-discrete key k) [
    | yes e ↦ rw (if_pos (Bytes-discrete key k) e, sym e) (laws.put_law b key val c)
    | no d ↦ rw (if_neg (Bytes-discrete key k) d) (laws.other_put_law b key val k d)
  ]

  got_deleted :
      (laws : BoltLaws B) (b : B.Bucket) (key k : Bytes)
      → (B.delete b key).1 ≡ none
      → B.get (B.delete b key).0 k ≡ ite (Bytes-discrete key k) none (B.get b k)
  got_deleted laws b key k c = elim (Bytes-discrete key k) [
    | yes e ↦ rw (if_pos (Bytes-discrete key k) e, sym e) (laws.delete_law b key c)
    | no d ↦ rw (if_neg (Bytes-discrete key k) d) (laws.other_delete_law b key k d)
  ]

  do_command-StepOf : (laws : BoltLaws B) (c : Command) (db : B.Db) → StepOf c db (do_command c db)
  unfolding do_command put del model_step
  do_command-StepOf laws (put_command key val) db =
      elim (update_bucket-Updated laws (λ b. B.put b key val) db) [
        | inl (e, h) ↦ rw h (inl (refl, refl))
        | inr (b, k, c, h) ↦ rw h (
            inr (
              refl,
              (λ j.
                  rw (model_step, lookup-set laws db (B.put b key val).0 j, lookup-here db b j k)
                    (got_put laws b key val j c)),
              (λ m d. laws.other_bucket_law db name m (B.put b key val).0 d),
            ))
      ]
  do_command-StepOf laws (del_command key) db =
      elim (update_bucket-Updated laws (λ b. B.delete b key) db) [
        | inl (e, h) ↦ rw h (inl (refl, refl))
        | inr (b, k, c, h) ↦ rw h (
            inr (
              refl,
              (λ j.
                  rw (model_step, lookup-set laws db (B.delete b key).0 j, lookup-here db b j k)
                    (got_deleted laws b key j c)),
              (λ m d. laws.other_bucket_law db name m (B.delete b key).0 d),
            ))
      ]
  do_command-StepOf laws (incr_command key n) db = elim (incr-Incremented laws key n db) [
    | inl (e, h) ↦ rw h (inl (refl, refl))
    | inr (b, m, k, i, c, h) ↦ rw h (
        inr (
          refl,
          (λ j.
              lookup-set laws db (B.put b key (conv.format_int m)).0 j
              ∙ got_put laws b key (conv.format_int m) j c
              ∙ sym (
                  model_step-incr key n m (lookup db) j (rw (lookup-here db b key k) i)
                  ∙ rw (lookup-here db b j k) refl)),
          (λ o d. laws.other_bucket_law db name o (B.put b key (conv.format_int m)).0 d),
        ))
  ]

  unfoldable pub run_commands : List Command → B.Db → B.Db × List Bool
  unfolding do_command
  run_commands [] db = (db, [])
  run_commands (c ∷ cs) db =
      let r = do_command c db in let rest = run_commands cs r.0 in (rest.0, r.1 ∷ rest.1)

  -- The map after the commands that returned no error.
  unfoldable pub model_run :
      List Command → List Bool → (Bytes → Option Bytes) → Bytes → Option Bytes
  unfolding model_step
  model_run [] flags m = m
  model_run (c ∷ cs) [] m = m
  model_run (c ∷ cs) (done ∷ flags) m = model_run cs flags (if done then model_step c m else m)

  -- Whatever Put, Del and Incr a client calls, with bbolt failing where it may, the bucket then holds
  -- the map that the calls which returned no error make of the map before, in order, the failed ones
  -- changing nothing, and no other bucket has changed.
  pub commands_refine :
      (laws : BoltLaws B) (cs : List Command) (db : B.Db)
      → ((k : Bytes)
          → lookup (run_commands cs db).0 k ≡ model_run cs (run_commands cs db).1 (lookup db) k)
        × ((other : Bytes)
            → name ≢ other
            → B.bucket (run_commands cs db).0 other ≡ B.bucket db other)
  unfolding run_commands model_run
  commands_refine laws [] db = ((λ k. refl), (λ o d. refl))
  commands_refine laws (c ∷ cs) db =
      let (maps, others) = commands_refine laws cs (do_command c db).0 in
      elim (do_command-StepOf laws c db) [
        | inl (no_step, unchanged) ↦ (
          (λ k.
              maps k
              ∙ ap (λ m. model_run cs (run_commands cs (do_command c db).0).1 m k)
                  (rw no_step (ap lookup unchanged))),
          (λ o d. others o d ∙ ap (λ t. B.bucket t o) unchanged),
        )
        | inr (done, map, same) ↦ (
          (λ k.
              maps k
              ∙ ap (λ m. model_run cs (run_commands cs (do_command c db).0).1 m k)
                  (rw done (fun_ext map))),
          (λ o d. others o d ∙ same o d),
        )
      ]
