-- ===== src/Scripts/Tests.antt =====
-- The theorems on scripts at a store that holds one key, whose numbers are tallies.
use Prim.Native.String.{String}
use b_go_util.Base.{pos, ◌+ℤ◌, ◌≡◌, ◌≢◌, ◌⊎◌, refl, arith, Option, none, some}
use b_go_util.Scripts.{Commands, incr_eq, incr_neq, hincr_eq}
use b_go_util.Scripts.Tallies.{tallies, one_key, some_format}
use b_go_util.Scripts.Increments.{
  Made, Refused, increments_compare, failed_increment, missing_key_fails,
}

abbrev store : Commands Unit (Option String) tallies
store = one_key

abbrev held : Option String
held = some (some_format (pos 7))

increments_compare_example :
    ((pos 7 ≡ pos 7)
      × Made tallies store tt held (pos 7 +ℤ pos 5) (incr_eq tallies store tt (pos 7) (pos 5) held)
      × Made tallies store tt held (pos 7 +ℤ pos 5) (hincr_eq tallies store tt (pos 7) (pos 5) held)
      × Refused tallies store held (pos 7) (incr_neq tallies store tt (pos 7) (pos 5) held))
    ⊎ ((pos 7 ≢ pos 7)
        × Refused tallies store held (pos 7) (incr_eq tallies store tt (pos 7) (pos 5) held)
        × Refused tallies store held (pos 0) (hincr_eq tallies store tt (pos 7) (pos 5) held)
        × Made tallies store tt held
            (pos 7 +ℤ pos 5)
            (incr_neq tallies store tt (pos 7) (pos 5) held))
unfolding ◌+ℤ◌
increments_compare_example =
    increments_compare tallies store tt (pos 7) (pos 7) (pos 5) held refl (omega arith)
      (omega arith) (omega arith) (omega arith)

missing_key_fails_test :
    (incr_eq tallies store tt (pos 0) (pos 5) none ≡ (none, failed_increment))
    × ((incr_neq tallies store tt (pos 0) (pos 5) none).1 ≡ failed_increment)
    × ((incr_neq tallies store tt (pos 0) (pos 5) none).0 ≡ some (some_format (pos 5)))
missing_key_fails_test =
    missing_key_fails tallies store tt (pos 0) (pos 5) none refl (omega arith) (omega arith)
