-- ===== src/Result/Lists.antt =====
-- ResultList and SyncResultList of async/result.go. A `Result` is an `Option R`, nil is `none`. Every
-- method of SyncResultList holds the lock from its first to its last statement, so it is one step;
-- ToSlice copies, so later steps do not change its result.
use b_go_util.Base.{
  ℕ, ℤ, pos, pos_part, leb_ℤ, ltb_ℤ, Bool, ◌&&◌, Option, none, some, List, [], ◌∷◌, ◌++◌,
  if◌then◌else◌, length, get_elem?,
}

-- l.values[idx], for an index in range.
abbrev pub item {ℓ} : {R : Type ℓ} → List (Option R) → ℕ → Option R
item values i = elim (get_elem? values i) [ some r ↦ r | none ↦ none ]

-- values = append(values, result), for each of the results.
unfoldable pub append_each {ℓ} : {R : Type ℓ} → List (Option R) → List (Option R) → List (Option R)
append_each values [] = values
append_each values (r ∷ rs) = append_each (values ++ r ∷ []) rs

pub record ResultList {ℓ} (R : Type ℓ) : Type ℓ where
  pub values : List (Option R)

module _ {ℓ} {R : Type ℓ} where
  unfoldable pub new_list : ResultList R
  new_list = record { values = [] }

  unfoldable pub list_size : ResultList R → ℤ
  list_size l = pos (length l.values)

  unfoldable pub list_has : ResultList R → ℤ → Bool
  list_has l idx = leb_ℤ (pos 0) idx && ltb_ℤ idx (pos (length l.values))

  unfoldable pub list_get : ResultList R → ℤ → Option R
  list_get l idx =
      if leb_ℤ (pos 0) idx && ltb_ℤ idx (pos (length l.values))
      then item l.values (pos_part idx)
      else none

  unfoldable pub list_add : ResultList R → List (Option R) → ResultList R
  list_add l results = record { values = append_each l.values results }

  unfoldable pub list_to_slice : ResultList R → List (Option R)
  list_to_slice l = l.values

pub record SyncResultList {ℓ} (R : Type ℓ) : Type ℓ where
  pub sync_values : List (Option R)

module _ {ℓ} {R : Type ℓ} where
  unfoldable pub new_sync_list : SyncResultList R
  new_sync_list = record { sync_values = [] }

  unfoldable pub sync_list_size : SyncResultList R → ℤ
  sync_list_size l = pos (length l.sync_values)

  unfoldable pub sync_list_has : SyncResultList R → ℤ → Bool
  sync_list_has l idx = leb_ℤ (pos 0) idx && ltb_ℤ idx (pos (length l.sync_values))

  unfoldable pub sync_list_get : SyncResultList R → ℤ → Option R
  sync_list_get l idx =
      if leb_ℤ (pos 0) idx && ltb_ℤ idx (pos (length l.sync_values))
      then item l.sync_values (pos_part idx)
      else none

  unfoldable pub sync_list_add : SyncResultList R → List (Option R) → SyncResultList R
  sync_list_add l results = record { sync_values = append_each l.sync_values results }

  unfoldable pub sync_list_to_slice : SyncResultList R → List (Option R)
  sync_list_to_slice l = l.sync_values
