-- ===== src/Result/Maps.antt =====
-- ResultMap and SyncResultMap of async/result.go. A `Result` is an `Option R`, nil is `none`, so a key
-- may have nil as its value. Every method of SyncResultMap holds the lock from its first to its last
-- statement, so it is one step.
use b_go_util.Base.{
  ℕ, ℤ, ℤ-discrete, Bool, is_some, Option, none, some, List, [], ◌∷◌, length, get, put, delete,
}

-- m.values[key], which is nil for a missing key.
abbrev pub or_nil : {R : Type 0} → Option (Option R) → Option R
or_nil none = none
or_nil (some r) = r

pub record ResultMap (R : Type 0) : Type 0 where
  pub values : List (ℤ × Option R)

module _ {R : Type 0} where
  unfoldable pub new_map : ResultMap R
  new_map = record { values = [] }

  unfoldable pub map_size : ResultMap R → ℕ
  map_size m = length m.values

  unfoldable pub map_has : ResultMap R → ℤ → Bool
  map_has m key = is_some (get ℤ-discrete key m.values)

  unfoldable pub map_get : ResultMap R → ℤ → Option R
  map_get m key = or_nil (get ℤ-discrete key m.values)

  unfoldable pub map_put : ResultMap R → ℤ → Option R → ResultMap R
  map_put m key val = record { values = put ℤ-discrete key val m.values }

  unfoldable pub map_del : ResultMap R → ℤ → ResultMap R × Option R
  map_del m key = elim (get ℤ-discrete key m.values) [
    | some old ↦ (record { values = delete ℤ-discrete key m.values }, old)
    | none ↦ (m, none)
  ]

  -- for k, v := range m.values { rs[k] = v }
  unfoldable pub map_copy_entries : List (ℤ × Option R) → List (ℤ × Option R) → List (ℤ × Option R)
  map_copy_entries rs [] = rs
  map_copy_entries rs ((k, v) ∷ m) = map_copy_entries (put ℤ-discrete k v rs) m

  unfoldable pub map_to_map : ResultMap R → List (ℤ × Option R)
  unfolding map_copy_entries
  map_to_map m = map_copy_entries [] m.values

pub record SyncResultMap (R : Type 0) : Type 0 where
  pub sync_values : List (ℤ × Option R)

module _ {R : Type 0} where
  unfoldable pub new_sync_map : SyncResultMap R
  new_sync_map = record { sync_values = [] }

  unfoldable pub sync_map_size : SyncResultMap R → ℕ
  sync_map_size m = length m.sync_values

  unfoldable pub sync_map_has : SyncResultMap R → ℤ → Bool
  sync_map_has m key = is_some (get ℤ-discrete key m.sync_values)

  unfoldable pub sync_map_get : SyncResultMap R → ℤ → Option R
  sync_map_get m key = or_nil (get ℤ-discrete key m.sync_values)

  unfoldable pub sync_map_put : SyncResultMap R → ℤ → Option R → SyncResultMap R
  sync_map_put m key val = record { sync_values = put ℤ-discrete key val m.sync_values }

  unfoldable pub sync_map_del : SyncResultMap R → ℤ → SyncResultMap R × Option R
  sync_map_del m key = elim (get ℤ-discrete key m.sync_values) [
    | some old ↦ (record { sync_values = delete ℤ-discrete key m.sync_values }, old)
    | none ↦ (m, none)
  ]

  -- for k, v := range m.values { rs[k] = v }
  unfoldable pub sync_map_copy_entries :
      List (ℤ × Option R) → List (ℤ × Option R) → List (ℤ × Option R)
  sync_map_copy_entries rs [] = rs
  sync_map_copy_entries rs ((k, v) ∷ m) = sync_map_copy_entries (put ℤ-discrete k v rs) m

  unfoldable pub sync_map_to_map : SyncResultMap R → List (ℤ × Option R)
  unfolding sync_map_copy_entries
  sync_map_to_map m = sync_map_copy_entries [] m.sync_values
