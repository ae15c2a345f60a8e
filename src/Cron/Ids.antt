-- ===== src/Cron/Ids.antt =====
-- The ids in the map of tasks of scheduler/scheduler.go.
use Prim.Native.String.{String}
use b_go_util.Base.{
  ℕ, true, ◌≡◌, refl, arith, none, some, List, [], ◌∷◌, ◌++◌, map, get, put, delete,
  String-discrete, ℕ_discrete, has_key, del_key, Distinct, DistinctKeys, has_key-keys,
  del_key_absent,
}

abbrev pub ids : List (String × ℕ) → List ℕ
ids m = map (λ e. e.1) m

pub ids-put :
    (name : String) (id : ℕ) (m : List (String × ℕ))
    → get String-discrete name m ≡ none
    → ids (put String-discrete name id m) ≡ ids m ++ id ∷ []
unfolding get put
ids-put name id [] h = refl
ids-put name id ((k, v) ∷ m) h = ground (arith, ids-put name id m)

pub has_id :
    (name : String) (id : ℕ) (m : List (String × ℕ))
    → get String-discrete name m ≡ some id
    → has_key ℕ_discrete id (ids m) ≡ true
unfolding get has_key
has_id name id [] h = ground arith
has_id name id ((k, v) ∷ m) h = ground (arith, has_id name id m)

delete_absent :
    (name : String) (m : List (String × ℕ))
    → get String-discrete name m ≡ none
    → delete String-discrete name m ≡ m
unfolding get delete
delete_absent name [] h = refl
delete_absent name ((k, v) ∷ m) h = ground (arith, delete_absent name m)

module _ (name : String) (id : ℕ) where
  pub ids-delete :
      (m : List (String × ℕ))
      → get String-discrete name m ≡ some id
      → Distinct ℕ_discrete (ids m)
      → DistinctKeys String-discrete m
      → ids (delete String-discrete name m) ≡ del_key ℕ_discrete id (ids m)
  unfolding get delete del_key
  ids-delete [] h d e = refl
  ids-delete ((k, v) ∷ m) h d e = ground (
    arith,
    ids-delete m,
    has_id name id m,
    delete_absent name m,
    has_key-keys String-discrete name m,
    del_key_absent ℕ_discrete id (ids m),
  )

pub name_of :
    (j : ℕ) (m : List (String × ℕ))
    → has_key ℕ_discrete j (ids m) ≡ true
    → DistinctKeys String-discrete m
    → (name : String) × (get String-discrete name m ≡ some j)
unfolding get has_key
name_of j [] h d = absurd (ground arith)
name_of j ((k, v) ∷ m) h d = elim (ℕ_discrete j v) [
  | yes e ↦ (k, ground arith)
  | no n ↦
      let (name, held) = name_of j m (ground (arith, h)) d.1 in
      (name, ground (arith, has_key-keys String-discrete k m))
]

pub one_name :
    (j : ℕ) (a b : String) (m : List (String × ℕ))
    → get String-discrete a m ≡ some j
    → get String-discrete b m ≡ some j
    → Distinct ℕ_discrete (ids m)
    → a ≡ b
unfolding get
one_name j a b [] h k d = absurd (ground arith)
one_name j a b ((n, v) ∷ m) h k d = ground (arith, one_name j a b m, has_id a j m, has_id b j m)
