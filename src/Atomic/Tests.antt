-- ===== src/Atomic/Tests.antt =====
-- The theorems on atomic values at concrete ones.
use b_go_util.Base.{ℕ, ℕ_discrete, pos, ◌≡◌, refl, inr, true, false, Option, some, [], ◌∷◌}
use b_go_util.Atomic.{AtomicBool, new_error, error_value, int32_of}
use b_go_util.Atomic.Swaps.{Swaps, cas_bool-Swaps, first_error_wins, set_all}

abbrev held : AtomicBool
held = record { word = pos 1 }

low_bits_test : int32_of (record { number = pos 4_294_967_301 }) ≡ pos 5
unfolding int32_of
low_bits_test = refl

word_test : Swaps held true false
word_test = cas_bool-Swaps held true false (inr refl)

number_errors : Discrete (Option ℕ)
number_errors = hlevel ℕ_discrete

first_error_wins_example :
    (error_value number_errors (set_all number_errors (new_error number_errors) (4 ∷ 5 ∷ 6 ∷ [])).0
      ≡ some 4)
    × ((set_all number_errors (new_error number_errors) (4 ∷ 5 ∷ 6 ∷ [])).1 ≡ 1)
first_error_wins_example = first_error_wins number_errors 4 (5 ∷ 6 ∷ [])
