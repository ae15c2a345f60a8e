-- ===== src/Result/Collections.antt =====
-- What the lists and maps of async/result.go hold after each operation; the same of those with a lock.
use mathlib.Core.List.{append-nil, append_assoc}
use b_go_util.Base.{
  ℕ, ℤ, pos, negsuc, ◌≡◌, refl, sym, ◌∙◌, ap, ◌+◌, ◌-◌, ℤ-discrete, false, not, ◌||◌, Option, none,
  some, List, [], ◌∷◌, ◌++◌, arith, if◌then◌else◌, ite, length, length-append, Option-cases, inl,
  inr, if_pos, if_neg, ltb, ltb_ℤ, leb_ℤ, ◌&&◌, zero, suc, get, put, get-put, get-delete,
  DistinctKeys, keys, has_key-keys, has_key, same,
}
use b_go_util.Result.Lists.{
  ResultList, SyncResultList, list_size, list_has, list_get, list_add, list_to_slice,
  sync_list_size, sync_list_has, sync_list_get, sync_list_add, sync_list_to_slice, append_each,
  item,
}
use b_go_util.Result.Maps.{
  ResultMap, SyncResultMap, map_has, map_get, map_put, map_del, map_to_map, map_copy_entries,
  sync_map_has, sync_map_get, sync_map_put, sync_map_del, sync_map_copy_entries, sync_map_to_map,
}

module _ {ℓ} {R : Type ℓ} where
  append_each-append : (values rs : List (Option R)) → append_each values rs ≡ values ++ rs
  unfolding append_each
  append_each-append values [] = sym (append-nil values)
  append_each-append values (r ∷ rs) =
      append_each-append (values ++ r ∷ []) rs ∙ append_assoc values (r ∷ []) rs

  -- An index past the first list reads the second.
  item-append :
      (vs rs : List (Option R)) (i : ℕ)
      → item (vs ++ rs) i ≡ (if ltb i (length vs) then item vs i else item rs (i - length vs))
  item-append [] rs i = ground arith
  item-append (v ∷ vs) rs zero = ground arith
  item-append (v ∷ vs) rs (suc i) = ground (arith, item-append vs rs i)

  item_outside : (vs : List (Option R)) (i : ℕ) → ltb i (length vs) ≡ false → item vs i ≡ none
  item_outside [] i h = refl
  item_outside (v ∷ vs) zero h = ground arith
  item_outside (v ∷ vs) (suc i) h = item_outside vs i (ground arith)

  -- What the indexing of both lists does.
  abbrev read : List (Option R) → ℕ → Option R
  read vs i = if leb_ℤ (pos 0) (pos i) && ltb_ℤ (pos i) (pos (length vs)) then item vs i else none

  read-item : (vs : List (Option R)) (i : ℕ) → read vs i ≡ item vs i
  read-item vs i = ground (arith, item_outside vs i)

  read-append_each :
      (vs rs : List (Option R)) (i : ℕ)
      → read (append_each vs rs) i ≡ (
          if leb_ℤ (pos 0) (pos i) && ltb_ℤ (pos i) (pos (length vs))
          then read vs i
          else item rs (i - length vs))
  read-append_each vs rs i =
      rw (append_each-append vs rs, read-item (vs ++ rs) i, read-item vs i, item-append vs rs i)
        (ground arith)

  length-append_each :
      (vs rs : List (Option R)) → pos (length (append_each vs rs)) ≡ pos (length vs + length rs)
  length-append_each vs rs = ap pos (ap length (append_each-append vs rs) ∙ length-append vs rs)

  -- Add appends the results in order: the list is the old one and then them, its size grows by their
  -- number, an index that was in range reads what it read, one past it reads the results, and a
  -- negative index or one past the end reads nil; in both lists, the one with a lock and the other.
  pub list_add_appends :
      (l : ResultList R) (s : SyncResultList R) (rs : List (Option R)) (i : ℕ)
      → (list_to_slice (list_add l rs) ≡ list_to_slice l ++ rs)
        × (list_size (list_add l rs) ≡ pos (length l.values + length rs))
        × (list_get (list_add l rs) (pos i)
            ≡ (if list_has l (pos i) then list_get l (pos i) else item rs (i - length l.values)))
        × (list_get (list_add l rs) (negsuc i) ≡ none)
        × (sync_list_to_slice (sync_list_add s rs) ≡ sync_list_to_slice s ++ rs)
        × (sync_list_size (sync_list_add s rs) ≡ pos (length s.sync_values + length rs))
        × (sync_list_get (sync_list_add s rs) (pos i) ≡ (
            if sync_list_has s (pos i)
            then sync_list_get s (pos i)
            else item rs (i - length s.sync_values)))
        × (sync_list_get (sync_list_add s rs) (negsuc i) ≡ none)
  unfolding list_get sync_list_get list_add list_to_slice list_size list_has sync_list_add
      sync_list_to_slice sync_list_size sync_list_has
  list_add_appends l s rs i = (
    append_each-append l.values rs,
    length-append_each l.values rs,
    read-append_each l.values rs i,
    ground arith,
    append_each-append s.sync_values rs,
    length-append_each s.sync_values rs,
    read-append_each s.sync_values rs i,
    ground arith,
  )

module _ {R : Type 0} where
  abbrev over : Option (Option R) → Option (Option R) → Option (Option R)
  over none o = o
  over (some v) o = some v

  -- A copy has the entries that are copied, over those that were there.
  get-map_copy_entries :
      (j : ℤ) (rs m : List (ℤ × Option R))
      → DistinctKeys ℤ-discrete m
      → get ℤ-discrete j (map_copy_entries rs m) ≡ over (get ℤ-discrete j m) (get ℤ-discrete j rs)
  unfolding map_copy_entries get
  get-map_copy_entries j rs [] d = refl
  get-map_copy_entries j rs ((k, v) ∷ m) d =
      rw (get-map_copy_entries j (put ℤ-discrete k v rs) m d.1, get-put ℤ-discrete k j v rs)
        (ground (arith, absent k m d.0))
    where
      absent :
          (k : ℤ) (m : List (ℤ × Option R))
          → has_key ℤ-discrete k (keys m) ≡ false
          → get ℤ-discrete k m ≡ none
      absent k m h = ground (arith, has_key-keys ℤ-discrete k m)

  sync_map_copy_same :
      (rs m : List (ℤ × Option R)) → sync_map_copy_entries rs m ≡ map_copy_entries rs m
  unfolding map_copy_entries sync_map_copy_entries
  sync_map_copy_same rs [] = refl
  sync_map_copy_same rs ((k, v) ∷ m) = sync_map_copy_same (put ℤ-discrete k v rs) m

  get-map_del :
      (m : ResultMap R) (k j : ℤ)
      → get ℤ-discrete j (map_del m k).0.values
        ≡ ite (ℤ-discrete j k) none (get ℤ-discrete j m.values)
  unfolding map_del
  get-map_del m k j = elim (Option-cases (get ℤ-discrete k m.values)) [
    | inl h ↦
        rw (map_del, h)
          (elim (ℤ-discrete j k) [ yes e ↦ rw (if_pos _ e) (rw e h) | no n ↦ rw (if_neg _ n) refl ])
    | inr (old, h) ↦ rw (map_del, h) (get-delete ℤ-discrete k j m.values)
  ]

  -- After Put of a key, Get gives the value for it and Has is true; Del returns what Get gave; after
  -- it Get gives nil for the key and Has is false. Other keys keep what they had.
  pub map_updates :
      (m : ResultMap R) (k j : ℤ) (v : Option R)
      → (map_get (map_put m k v) j ≡ (if same ℤ-discrete j k then v else map_get m j))
        × (map_has (map_put m k v) j ≡ (same ℤ-discrete j k || map_has m j))
        × ((map_del m k).1 ≡ map_get m k)
        × (map_get (map_del m k).0 j ≡ (if same ℤ-discrete j k then none else map_get m j))
        × (map_has (map_del m k).0 j ≡ (not (same ℤ-discrete j k) && map_has m j))
  unfolding map_get map_put map_has map_del
  map_updates m k j v = (
    rw (get-put ℤ-discrete k j v m.values) (ground arith),
    rw (get-put ℤ-discrete k j v m.values) (ground arith),
    ground arith,
    rw (get-map_del m k j) (ground arith),
    rw (get-map_del m k j) (ground arith),
  )

  get-sync_map_del :
      (m : SyncResultMap R) (k j : ℤ)
      → get ℤ-discrete j (sync_map_del m k).0.sync_values
        ≡ ite (ℤ-discrete j k) none (get ℤ-discrete j m.sync_values)
  unfolding sync_map_del
  get-sync_map_del m k j = elim (Option-cases (get ℤ-discrete k m.sync_values)) [
    | inl h ↦
        rw (sync_map_del, h)
          (elim (ℤ-discrete j k) [ yes e ↦ rw (if_pos _ e) (rw e h) | no n ↦ rw (if_neg _ n) refl ])
    | inr (old, h) ↦ rw (sync_map_del, h) (get-delete ℤ-discrete k j m.sync_values)
  ]

  -- After Put of a key, Get gives the value for it and Has is true; Del returns what Get gave; after
  -- it Get gives nil for the key and Has is false. Other keys keep what they had, in the map with a lock.
  pub sync_map_updates :
      (m : SyncResultMap R) (k j : ℤ) (v : Option R)
      → (sync_map_get (sync_map_put m k v) j
          ≡ (if same ℤ-discrete j k then v else sync_map_get m j))
        × (sync_map_has (sync_map_put m k v) j ≡ (same ℤ-discrete j k || sync_map_has m j))
        × ((sync_map_del m k).1 ≡ sync_map_get m k)
        × (sync_map_get (sync_map_del m k).0 j
            ≡ (if same ℤ-discrete j k then none else sync_map_get m j))
        × (sync_map_has (sync_map_del m k).0 j ≡ (not (same ℤ-discrete j k) && sync_map_has m j))
  unfolding sync_map_get sync_map_put sync_map_has sync_map_del
  sync_map_updates m k j v = (
    rw (get-put ℤ-discrete k j v m.sync_values) (ground arith),
    rw (get-put ℤ-discrete k j v m.sync_values) (ground arith),
    ground arith,
    rw (get-sync_map_del m k j) (ground arith),
    rw (get-sync_map_del m k j) (ground arith),
  )

  -- For maps that hold a key once, ToMap of both maps copies every entry and no other.
  pub to_map_copies :
      (m : ResultMap R) (s : SyncResultMap R) (j : ℤ)
      → DistinctKeys ℤ-discrete m.values
      → DistinctKeys ℤ-discrete s.sync_values
      → (get ℤ-discrete j (map_to_map m) ≡ get ℤ-discrete j m.values)
        × (get ℤ-discrete j (sync_map_to_map s) ≡ get ℤ-discrete j s.sync_values)
  unfolding map_to_map sync_map_to_map get
  to_map_copies m s j d e = (
    get-map_copy_entries j [] m.values d ∙ over_none _,
    ap (get ℤ-discrete j) (sync_map_copy_same [] s.sync_values)
        ∙ get-map_copy_entries j [] s.sync_values e
        ∙ over_none _,
  )
    where
      over_none : (o : Option (Option R)) → over o none ≡ o
      over_none none = refl
      over_none (some v) = refl
