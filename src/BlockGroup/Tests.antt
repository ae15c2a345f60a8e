-- ===== src/BlockGroup/Tests.antt =====
-- The theorems on block groups at a concrete group.
use Prim.Native.String.{String}
use b_go_util.Base.{
  ℕ, ◌≡◌, refl, inl, inr, arith, Bool, false, none, some, [], ◌∷◌, same, get, delete,
  String-discrete,
}
use b_go_util.BlockGroup.{
  BlockGroup, has, peek, received, put_finds, put_fills, remove, fill, holder_at, unblock, done,
  store_holder,
}
use b_go_util.BlockGroup.Unblocking.{IsSound, put_unblocks, remove_unblocks, late_put_panics}

-- Only the empty string is blank here.
abbrev blank : String → Bool
blank s = same String-discrete s ""

-- A goroutine waits for key "a".
abbrev awaited : BlockGroup ℕ
awaited = record {
  holders = ("a", 0) ∷ [];
  heap = record { count = 1; has_result = false; result = none } ∷ [];
}

abbrev removed : BlockGroup ℕ
removed = record {
  holders = [];
  heap = record { count = 0; has_result = false; result = none } ∷ [];
}

found : get String-discrete "a" (awaited.holders) ≡ some 0
unfolding get String-discrete
found = refl

not_blank : blank "a" ≡ false
unfolding String-discrete
not_blank = refl

awaited-IsSound : IsSound (holder_at awaited 0)
unfolding holder_at
awaited-IsSound = refl

removed_test : remove blank awaited "a" ≡ some (removed, none)
unfolding remove unblock done store_holder holder_at get delete String-discrete
removed_test = refl

abbrev unknown : BlockGroup ℕ
unknown = record { holders = []; heap = [] }

unknown_test : put_finds blank unknown "a" ≡ some none
unfolding put_finds get String-discrete
unknown_test = refl

awaited_test : put_finds blank awaited "a" ≡ some (some 0)
unfolding put_finds get String-discrete
awaited_test = refl

-- A Get adds the holder between the parts of Put.
put_unblocks_example :
    (g' : BlockGroup ℕ) × (put_fills blank awaited "a" none (some 7) ≡ some g')
    × (received blank g' 0 ≡ some (some 7))
    × (peek blank g' "a" ≡ some 7)
    × IsSound (holder_at g' 0)
put_unblocks_example =
    put_unblocks blank unknown awaited "a" 0 none (some 7) unknown_test (inl refl) found
      (omega arith) awaited-IsSound

put_alone_test :
    (g' : BlockGroup ℕ) × (put_fills blank awaited "a" (some 0) (some 7) ≡ some g')
    × (received blank g' 0 ≡ some (some 7))
    × (peek blank g' "a" ≡ some 7)
    × IsSound (holder_at g' 0)
put_alone_test =
    put_unblocks blank awaited awaited "a" 0 (some 0) (some 7) awaited_test (inr refl) found
      (omega arith) awaited-IsSound

remove_unblocks_example :
    (g' : BlockGroup ℕ) × (remove blank awaited "a" ≡ some (g', peek blank awaited "a"))
    × (has blank g' "a" ≡ false)
    × (received blank g' 0 ≡ some (peek blank awaited "a"))
remove_unblocks_example =
    remove_unblocks blank awaited "a" 0 not_blank found (omega arith) awaited-IsSound

late_put_panics_example : fill blank removed 0 (some 7) ≡ none
unfolding holder_at
late_put_panics_example =
    late_put_panics blank awaited removed "a" 0 none (some 7) not_blank found (omega arith)
      awaited-IsSound refl removed_test
