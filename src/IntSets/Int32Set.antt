-- ===== src/IntSets/Int32Set.antt =====
-- _set/int32_set.go.
use b_go_util.Base.{ℕ, ℤ, ℤ-discrete, Bool, Option, List}
use b_go_util.Set.{KeySet}
use b_go_util.Set

abbrev pub Int32Set : Type 0
Int32Set = KeySet ℤ

unfoldable pub new_set : List ℤ → Int32Set
new_set items = Set.new_set ℤ-discrete items

unfoldable pub size : Option Int32Set → ℕ
size h = Set.size h

unfoldable pub empty : Option Int32Set → Bool
empty h = Set.empty h

unfoldable pub contains : Int32Set → ℤ → Bool
contains h item = Set.contains ℤ-discrete h item

unfoldable pub contains_all : Int32Set → List ℤ → Bool
contains_all h items = Set.contains_all ℤ-discrete h items

unfoldable pub contains_set : Int32Set → Option Int32Set → Bool
contains_set h other = Set.contains_set ℤ-discrete h other

unfoldable pub for_each {κ} : {S : Type κ} → Int32Set → (ℤ → S → Bool × S) → S → S
for_each h fn s = Set.for_each h fn s

unfoldable pub add : Int32Set → ℤ → Int32Set
add h item = Set.add ℤ-discrete h item

unfoldable pub add_all : Int32Set → List ℤ → Int32Set
add_all h items = Set.add_all ℤ-discrete h items

unfoldable pub remove : Int32Set → ℤ → Int32Set × Bool
remove h item = Set.remove ℤ-discrete h item

unfoldable pub remove_all : Int32Set → List ℤ → Int32Set
remove_all h items = Set.remove_all ℤ-discrete h items

unfoldable pub clear : Int32Set → Int32Set
clear h = Set.clear h

unfoldable pub clone : Int32Set → Int32Set
clone h = Set.clone ℤ-discrete h

unfoldable pub to_slice : Int32Set → List ℤ
to_slice h = Set.to_slice h

unfoldable pub union : Int32Set → Option Int32Set → Int32Set
union h other = Set.union ℤ-discrete h other

unfoldable pub diff : Int32Set → Option Int32Set → Int32Set
diff h other = Set.diff ℤ-discrete h other

unfoldable pub intersect : Int32Set → Option Int32Set → Int32Set
intersect h other = Set.intersect ℤ-discrete h other
