-- ===== src/Errors/Tests.antt =====
-- Witnesses and tests of util/error.go and rpc/error.go.
use b_go_util.Base.{
  ℕ, ℤ, pos, negsuc, ℤ-discrete, ℕ_discrete, same, ◌≡◌, ◌≢◌, ◌&&◌, refl, arith, Bool, true, false,
  Option, none, some, List, [], ◌∷◌, if◌then◌else◌, ite,
}
use Prim.Native.Char.{code}
use Prim.Native.String.{String, ◌++◌}
use Prim.Native.String.append.{nil, cons}
use b_go_util.Errors.{
  Arg, str, BizError, new_biz_error, sprint, sprintf, code_unknown, get_code, has_code,
  to_biz_error, code_prefix,
}
use b_go_util.Errors.Rpc.{to_rpc_err, to_biz_err}
use b_go_util.Errors.Codes.{kept, through_rpc, code_round_trip}
use b_go_util.Errors.Transport.{error_round_trip}
use b_go_util.Errors.Agreement.{finds_nil, is_known, codes_agree}

-- Errors: a BizError, one of gRPC, any other; nil causes only.
data SomeError : Type 0 where
  of_biz : ℤ → String → SomeError
  of_status : ℕ → String → SomeError
  plain : String → SomeError

abbrev text_of : SomeError → String
text_of (of_biz c m) = m
text_of (of_status c m) = m
text_of (plain m) = m

abbrev find_in : SomeError → Option (Option (BizError SomeError))
find_in (of_biz c m) = some (some (record { code = c; msg = m; cause = none }))
find_in (of_status c m) = none
find_in (plain m) = none

abbrev status_of : SomeError → Option (ℕ × String) × Bool
status_of (of_biz c m) = (none, false)
status_of (of_status c m) = (some (c, m), true)
status_of (plain m) = (none, false)

abbrev new_status : ℕ → String → Option SomeError
new_status c m = if same ℕ_discrete c 0 then none else some (of_status c m)

abbrev no_format : String → List (Arg SomeError ℕ) → String
no_format f args = f

abbrev show_code : ℤ → String
show_code (pos n) = if same ℕ_discrete n 7 then "7" else "?"
show_code (negsuc n) = "-"

new_status-Law :
    (c : ℕ) (m : String)
    → c ≢ 0
    → (e : SomeError) × (new_status c m ≡ some e) × (status_of e ≡ (some (c, m), true))
new_status-Law c m h = (of_status c m, ground (arith, h), refl)

-- strings.TrimPrefix.
strip : String → String → Option String
strip s String.[] = some s
strip String.[] (String.◌∷◌ c p) = none
strip (String.◌∷◌ d s) (String.◌∷◌ c p) = ite (ℕ_discrete (code d) (code c)) (strip s p) none

trim : String → String → String
trim s p = elim (strip s p) [ none ↦ s | some t ↦ t ]

strip-append : (p t : String) → strip (p ++ t) p ≡ some t
unfolding strip
strip-append String.[] t = rw (nil t) refl
strip-append (String.◌∷◌ c p) t = rw (cons c p t) (ground (arith, strip-append p t))

trim-append : (p t : String) → trim (p ++ t) p ≡ t
unfolding trim
trim-append p t = rw (trim, strip-append p t) refl

abbrev a_biz_error : BizError SomeError
a_biz_error = record { code = pos 7; msg = code_prefix show_code (pos 7) ++ "who?"; cause = none }

error_round_trip_example :
    (sent : SomeError) × (received : BizError SomeError) × (to_rpc_err text_of no_format show_code
        find_in status_of new_status trim
        (some (of_biz (pos 7) "(7)who?"))
        []
      ≡ some (some sent))
    × (to_biz_err text_of no_format show_code find_in status_of new_status trim sent
        ≡ some received)
    × (received.code ≡ pos 7)
    × (received.msg ≡ "(7)who?")
unfolding new_biz_error sprint sprintf ℕ_discrete
error_round_trip_example =
    error_round_trip text_of no_format show_code find_in status_of new_status trim new_status-Law
      trim-append (pos 7) (str "who?" ∷ []) a_biz_error (of_biz (pos 7) "(7)who?") refl refl refl
      refl refl (cc)

code_round_trip_test : same ℤ-discrete (through_rpc (pos 3)) (pos 3) ≡ kept (pos 3)
code_round_trip_test = code_round_trip (pos 3)

codes_agree_test :
    (b : BizError SomeError) × (to_biz_error text_of no_format show_code find_in (some (plain "no"))
      ≡ some b)
    × (b.code ≡ (
        if finds_nil find_in (some (plain "no"))
        then code_unknown
        else get_code find_in (some (plain "no"))))
    × (has_code find_in (some (plain "no")) code_unknown ≡ (
        is_known find_in (some (plain "no"))
        && same ℤ-discrete code_unknown (get_code find_in (some (plain "no")))))
    × (is_known find_in (some (plain "no")) ≡ false
        → get_code find_in (some (plain "no")) ≡ code_unknown)
codes_agree_test = codes_agree text_of no_format show_code find_in (some (plain "no")) code_unknown
