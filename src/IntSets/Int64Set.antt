-- ===== src/IntSets/Int64Set.antt =====
-- _set/int64_set.go.
use b_go_util.Base.{ℕ, ℤ, ℤ-discrete, Bool, Option, List}
use b_go_util.Set.{KeySet}
use b_go_util.Set

abbrev pub Int64Set : Type 0
Int64Set = KeySet ℤ

unfoldable pub new_set : List ℤ → Int64Set
new_set items = Set.new_set ℤ-discrete items

unfoldable pub size : Option Int64Set → ℕ
size h = Set.size h

unfoldable pub empty : Option Int64Set → Bool
empty h = Set.empty h

unfoldable pub contains : Int64Set → ℤ → Bool
contains h item = Set.contains ℤ-discrete h item

unfoldable pub contains_all : Int64Set → List ℤ → Bool
contains_all h items = Set.contains_all ℤ-discrete h items

unfoldable pub contains_set : Int64Set → Option Int64Set → Bool
contains_set h other = Set.contains_set ℤ-discrete h other

unfoldable pub for_each {κ} : {S : Type κ} → Int64Set → (ℤ → S → Bool × S) → S → S
for_each h fn s = Set.for_each h fn s

unfoldable pub add : Int64Set → ℤ → Int64Set
add h item = Set.add ℤ-discrete h item

unfoldable pub add_all : Int64Set → List ℤ → Int64Set
add_all h items = Set.add_all ℤ-discrete h items

unfoldable pub remove : Int64Set → ℤ → Int64Set × Bool
remove h item = Set.remove ℤ-discrete h item

unfoldable pub remove_all : Int64Set → List ℤ → Int64Set
remove_all h items = Set.remove_all ℤ-discrete h items

unfoldable pub clear : Int64Set → Int64Set
clear h = Set.clear h

unfoldable pub clone : Int64Set → Int64Set
clone h = Set.clone ℤ-discrete h

unfoldable pub to_slice : Int64Set → List ℤ
to_slice h = Set.to_slice h

unfoldable pub union : Int64Set → Option Int64Set → Int64Set
union h other = Set.union ℤ-discrete h other

unfoldable pub diff : Int64Set → Option Int64Set → Int64Set
diff h other = Set.diff ℤ-discrete h other

unfoldable pub intersect : Int64Set → Option Int64Set → Int64Set
intersect h other = Set.intersect ℤ-discrete h other
