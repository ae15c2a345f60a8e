-- ===== src/Store/Updates.antt =====
-- What the operations of store/store.go that change a store do to its values.
use Prim.Native.String.{String}
use b_go_util.Base.{
  ℤ, ◌≡◌, refl, true, false, List, [], ◌∷◌, arith, if◌then◌else◌, same, get, put, get-put,
  get-delete, String-discrete, has_key, DistinctKeys, has_key-keys, put-DistinctKeys,
  delete-DistinctKeys,
}
use b_go_util.Value.{Value, nil_value}
use b_go_util.Store.{
  MemoryStore, lookup, has_store_key, get_val, get_or_default, put_value, remove_value, clear_store,
  store_keys, new_memory_store, new_memory_store_of, copy_entries,
}

module _ {A : Type 0} where
  -- After Put, the key has the value; after Remove, it has none; every other key has what it had.
  -- Put and Remove return what GetVal gave before, nil for a key that was not there. After Clear no key has a value.
  pub store_updates :
      (s : MemoryStore A) (k j : String) (v df : Value A)
      → (lookup (put_value s k v).0 j
          ≡ (if same String-discrete j k then (v, true) else lookup s j))
        × (lookup (remove_value s k).0 j
            ≡ (if same String-discrete j k then (nil_value, false) else lookup s j))
        × ((put_value s k v).1 ≡ get_val s k)
        × ((remove_value s k).1 ≡ get_val s k)
        × (lookup (clear_store s) j ≡ (nil_value, false))
        × (get_or_default (put_value s k v).0 j df
            ≡ (if same String-discrete j k then v else get_or_default s j df))
        × (get_or_default (remove_value s k).0 j df
            ≡ (if same String-discrete j k then df else get_or_default s j df))
  unfolding lookup put_value remove_value clear_store get_or_default get
  store_updates s k j v df = (
    rw (lookup, get-put String-discrete k j v s.m) (ground arith),
    rw (lookup, get-delete String-discrete k j s.m) (ground arith),
    refl,
    refl,
    refl,
    rw (get_or_default, get-put String-discrete k j v s.m) (ground arith),
    rw (get_or_default, get-delete String-discrete k j s.m) (ground arith),
  )

  copy_entries-DistinctKeys :
      (nm m : List (String × Value A))
      → DistinctKeys String-discrete nm
      → DistinctKeys String-discrete (copy_entries nm m)
  unfolding copy_entries
  copy_entries-DistinctKeys nm [] d = d
  copy_entries-DistinctKeys nm ((k, v) ∷ m) d =
      copy_entries-DistinctKeys (put String-discrete k v nm) m
        (put-DistinctKeys String-discrete k v nm d)

  -- Keys lists a key exactly if HasKey is true of it; and the map of a store holds a key once, after
  -- each constructor and after each operation on such a store.
  pub keys_once :
      (s : MemoryStore A) (m : List (String × Value A)) (k j : String) (v : Value A) (size : ℤ)
      → DistinctKeys String-discrete s.m
      → (has_key String-discrete j (store_keys s) ≡ has_store_key s j)
        × DistinctKeys String-discrete (new_memory_store {A = A} size).m
        × DistinctKeys String-discrete (new_memory_store_of m).m
        × DistinctKeys String-discrete (put_value s k v).0.m
        × DistinctKeys String-discrete (remove_value s k).0.m
        × DistinctKeys String-discrete (clear_store s).m
  unfolding store_keys has_store_key lookup new_memory_store new_memory_store_of put_value
      remove_value clear_store
  keys_once s m k j v size d = (
    rw (has_key-keys String-discrete j s.m) (ground arith),
    tt,
    copy_entries-DistinctKeys [] m tt,
    put-DistinctKeys String-discrete k v s.m d,
    delete-DistinctKeys String-discrete k s.m d,
    tt,
  )
