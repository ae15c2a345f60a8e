-- ===== src/Set/Tests.antt =====
-- Runs of the set's operations, and its theorems at concrete sets.
use b_go_util.Base.{
  ℕ, ℕ_discrete, ◌≡◌, refl, Bool, true, false, not, ◌&&◌, ◌||◌, ◌↔◌, some, [], ◌∷◌, pos, has_key,
  put_key, min, ◌-◌, suc, if◌then◌else◌, same,
}
use b_go_util.Set.{
  KeySet, new_set, contains, contains_set, contains_all, union, intersect, diff, new_diff, equal,
  pop, add, remove, size, to_slice, for_each, clone, clear, add_all, remove_all, put_all, all_in,
}
use b_go_util.Set.Members.{contains_algebra, contains_updates, contains_set_iff, size_updates}
use b_go_util.Set.Invariant.{IsValid, operations-IsValid}
use b_go_util.Set.Equality.{equal_iff}
use b_go_util.Set.Split.{pop_splits, for_each_visits, noting, up_to}

abbrev odds : KeySet ℕ
odds = record { m = 1 ∷ 3 ∷ 5 ∷ [] }

abbrev shuffled : KeySet ℕ
shuffled = record { m = 5 ∷ 1 ∷ 3 ∷ [] }

odds-IsValid : IsValid ℕ_discrete odds
unfolding has_key ℕ_discrete
odds-IsValid = (refl, (refl, (refl, tt)))

shuffled-IsValid : IsValid ℕ_discrete shuffled
unfolding has_key ℕ_discrete
shuffled-IsValid = (refl, (refl, (refl, tt)))

new_set_test : new_set ℕ_discrete (3 ∷ 1 ∷ 3 ∷ []) ≡ record { m = 3 ∷ 1 ∷ [] }
unfolding new_set put_all put_key ℕ_discrete
new_set_test = refl

equal_test : equal ℕ_discrete (some odds) (some shuffled) ≡ true
unfolding equal all_in has_key ℕ_discrete
equal_test = refl

contains_algebra_example :
    (contains ℕ_discrete (union ℕ_discrete odds (some (record { m = 4 ∷ [] }))) 4
      ≡ (contains ℕ_discrete odds 4 || has_key ℕ_discrete 4 (4 ∷ [])))
    × (contains ℕ_discrete (intersect ℕ_discrete odds (some (record { m = 4 ∷ [] }))) 4
        ≡ (contains ℕ_discrete odds 4 && has_key ℕ_discrete 4 (4 ∷ [])))
    × (contains ℕ_discrete (diff ℕ_discrete odds (some (record { m = 4 ∷ [] }))) 4
        ≡ (contains ℕ_discrete odds 4 && not (has_key ℕ_discrete 4 (4 ∷ []))))
    × (contains ℕ_discrete (new_diff ℕ_discrete odds (some (record { m = 4 ∷ [] }))) 4
        ≡ (contains ℕ_discrete odds 4 && not (has_key ℕ_discrete 4 (4 ∷ []))))
contains_algebra_example = contains_algebra ℕ_discrete odds (some (record { m = 4 ∷ [] })) 4

contains_updates_test :
    (contains ℕ_discrete (add ℕ_discrete odds 7) 3
      ≡ (same ℕ_discrete 3 7 || contains ℕ_discrete odds 3))
    × (contains ℕ_discrete (add_all ℕ_discrete odds (8 ∷ [])) 3
        ≡ (has_key ℕ_discrete 3 (8 ∷ []) || contains ℕ_discrete odds 3))
    × (contains ℕ_discrete (remove ℕ_discrete odds 7).0 3
        ≡ (not (same ℕ_discrete 3 7) && contains ℕ_discrete odds 3))
    × ((remove ℕ_discrete odds 7).1 ≡ contains ℕ_discrete odds 7)
    × (contains ℕ_discrete (remove_all ℕ_discrete odds (8 ∷ [])) 3
        ≡ (not (has_key ℕ_discrete 3 (8 ∷ [])) && contains ℕ_discrete odds 3))
    × (contains ℕ_discrete (new_set ℕ_discrete (8 ∷ [])) 3 ≡ has_key ℕ_discrete 3 (8 ∷ []))
    × (contains ℕ_discrete (clone ℕ_discrete odds) 3 ≡ contains ℕ_discrete odds 3)
    × (contains ℕ_discrete (clear odds) 3 ≡ false)
contains_updates_test = contains_updates ℕ_discrete odds 7 (8 ∷ []) 3

contains_set_iff_test :
    ((contains_set ℕ_discrete odds (some shuffled) ≡ true)
      ↔ ((k : ℕ) → has_key ℕ_discrete k shuffled.m ≡ true → contains ℕ_discrete odds k ≡ true))
    × ((contains_all ℕ_discrete odds (2 ∷ []) ≡ true)
        ↔ ((k : ℕ) → has_key ℕ_discrete k (2 ∷ []) ≡ true → contains ℕ_discrete odds k ≡ true))
contains_set_iff_test = contains_set_iff ℕ_discrete odds (some shuffled) (2 ∷ [])

size_updates_test :
    (size (some (add ℕ_discrete odds 3))
      ≡ (if contains ℕ_discrete odds 3 then size (some odds) else suc (size (some odds))))
    × ((if contains ℕ_discrete odds 3
          then suc (size (some (remove ℕ_discrete odds 3).0))
          else size (some (remove ℕ_discrete odds 3).0))
        ≡ size (some odds))
size_updates_test = size_updates ℕ_discrete odds 3 odds-IsValid

operations-IsValid_test :
    IsValid ℕ_discrete (new_set ℕ_discrete (2 ∷ 2 ∷ []))
    × IsValid ℕ_discrete (clone ℕ_discrete odds)
    × IsValid ℕ_discrete (clear odds)
    × IsValid ℕ_discrete (add ℕ_discrete odds 3)
    × IsValid ℕ_discrete (add_all ℕ_discrete odds (2 ∷ 2 ∷ []))
    × IsValid ℕ_discrete (remove ℕ_discrete odds 3).0
    × IsValid ℕ_discrete (remove_all ℕ_discrete odds (2 ∷ 2 ∷ []))
    × IsValid ℕ_discrete (union ℕ_discrete odds (some shuffled))
    × IsValid ℕ_discrete (diff ℕ_discrete odds (some shuffled))
    × IsValid ℕ_discrete (new_diff ℕ_discrete odds (some shuffled))
    × IsValid ℕ_discrete (intersect ℕ_discrete odds (some shuffled))
operations-IsValid_test =
    operations-IsValid ℕ_discrete odds (some shuffled) 3 (2 ∷ 2 ∷ []) odds-IsValid

equal_iff_test :
    (equal ℕ_discrete (some odds) (some shuffled) ≡ true)
    ↔ ((k : ℕ) → has_key ℕ_discrete k odds.m ≡ has_key ℕ_discrete k shuffled.m)
equal_iff_test = equal_iff ℕ_discrete (some odds) (some shuffled) odds-IsValid shuffled-IsValid

pop_splits_test :
    (size (some (pop ℕ_discrete odds (pos 2)).0) ≡ min 2 (size (some odds)))
    × (size (some (pop ℕ_discrete odds (pos 2)).1) ≡ size (some odds) - 2)
    × ((k : ℕ)
        → ((contains ℕ_discrete (pop ℕ_discrete odds (pos 2)).0 k
              || contains ℕ_discrete (pop ℕ_discrete odds (pos 2)).1 k)
            ≡ contains ℕ_discrete odds k)
          × ((contains ℕ_discrete (pop ℕ_discrete odds (pos 2)).0 k
                && contains ℕ_discrete (pop ℕ_discrete odds (pos 2)).1 k)
              ≡ false))
pop_splits_test = pop_splits ℕ_discrete odds (pos 2) odds-IsValid

abbrev until_three : ℕ → Bool
until_three k = not (has_key ℕ_discrete k (3 ∷ []))

for_each_visits_test :
    (for_each odds (noting until_three) [] ≡ up_to until_three (to_slice odds))
    × (to_slice odds ≡ odds.m)
for_each_visits_test = for_each_visits odds until_three
