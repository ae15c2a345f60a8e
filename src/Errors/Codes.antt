-- ===== src/Errors/Codes.antt =====
-- The codes that go through ToRpcErrCode and ToBizErrCode of rpc/error.go, and the errors that go
-- through ToRpcErr and ToBizErr.
use b_go_util.Base.{
  ℕ, zero, suc, ◌≤◌, ◌<◌, ◌^◌, ltb, ℤ, pos, negsuc, ℤ-discrete, ℕ_discrete, same, ◌≡◌, ◌≢◌, refl,
  sym, ◌∙◌, dec_lt, true_and_false, arith, Bool, true, false, not, ◌&&◌, ◌||◌, if◌then◌else◌,
}
use b_go_util.Errors.Rpc.{inverted, to_rpc_code, to_biz_code, uint32_of}

-- A BizError's code as gRPC carries it and ToBizErr reads it.
abbrev pub through_rpc : ℤ → ℤ
through_rpc code = let sent = to_rpc_code code (uint32_of code) in to_biz_code sent (pos sent)

-- The codes that are not changed: all that a uint32 holds but 1 (nil), 3 (a failed assertion) and
-- 16, and -1.
abbrev pub kept : ℤ → Bool
kept (pos n) =
    ltb n (2 ^ 32) && not (same ℕ_discrete n 1 || same ℕ_discrete n 3 || same ℕ_discrete n 16)
kept (negsuc n) = same ℕ_discrete n 0

abbrev same_code : ℤ → Bool
same_code code = same ℤ-discrete (through_rpc code) code

abbrev all_below : ℕ → (ℕ → Bool) → Bool
all_below zero p = true
all_below (suc n) p = p n && all_below n p

below : (p : ℕ → Bool) (n k : ℕ) → all_below n p ≡ true → k < n → p k ≡ true
below p zero k h l = absurd (omega arith)
below p (suc n) k h l = elim (ℕ_discrete k n) [
  | yes e ↦ rw e (ground (arith, h))
  | no d ↦ below p n k (ground (arith, h)) (omega (arith, d))
]

agrees : ℕ → Bool
agrees n = if same_code (pos n) then kept (pos n) else not (kept (pos n))

small_agree : all_below 17 agrees ≡ true
unfolding agrees to_rpc_code to_biz_code ℕ_discrete ℤ-discrete
small_agree = refl

large : (n : ℕ) → 17 ≤ n → n < 2 ^ 32 → through_rpc (pos n) ≡ pos n
unfolding to_rpc_code to_biz_code inverted
large n h k = ground arith

abbrev fits : ℤ → Bool
fits (pos n) = ltb n (2 ^ 32)
fits (negsuc n) = same ℕ_discrete n 0

rpc_code_bound : (code : ℤ) → to_rpc_code code (uint32_of code) < 2 ^ 32
unfolding to_rpc_code
rpc_code_bound code = ground arith

biz_code_fits : (n : ℕ) → n < 2 ^ 32 → fits (to_biz_code n (pos n)) ≡ true
unfolding to_biz_code inverted
biz_code_fits n h = ground arith

unfit_changes : (code : ℤ) → fits code ≡ false → same_code code ≡ false
unfit_changes code h = elim (ℤ-discrete (through_rpc code) code) [
  | yes e ↦ absurd (
      true_and_false (biz_code_fits (to_rpc_code code (uint32_of code)) (rpc_code_bound code))
        (rw e h))
  | no d ↦ ground (arith, d)
]

minus_one : same ℤ-discrete (through_rpc (negsuc 0)) (negsuc 0) ≡ kept (negsuc 0)
unfolding to_rpc_code to_biz_code ℕ_discrete ℤ-discrete
minus_one = refl

-- A BizError's code is the same after ToRpcErrCode, the conversion of a code with no entry to a
-- uint32, and ToBizErrCode back exactly if it is -1, or at least 0 and below 2^32 and not 1
-- (ErrCodeNil), 3 (ErrCodeAssertFail) or 16.
pub code_round_trip : (code : ℤ) → same ℤ-discrete (through_rpc code) code ≡ kept code
unfolding agrees
code_round_trip (pos n) = elim (dec_lt n 17) [
  | yes h ↦ ground (arith, below agrees 17 n small_agree h)
  | no h ↦ elim (dec_lt n (2 ^ 32)) [
    | yes k ↦ rw (large n (omega (arith, h)) k) (ground (arith, h))
    | no k ↦ unfit_changes (pos n) (ground (arith, k)) ∙ ground (arith, k)
  ]
]
code_round_trip (negsuc zero) = minus_one
code_round_trip (negsuc (suc n)) = unfit_changes (negsuc (suc n)) (ground arith) ∙ ground arith

pub kept-through : (code : ℤ) → kept code ≡ true → through_rpc code ≡ code
kept-through code h = elim (ℤ-discrete (through_rpc code) code) [
  | yes e ↦ e
  | no d ↦ absurd (true_and_false h (sym (code_round_trip code) ∙ ground (arith, d)))
]

ok_back : to_biz_code 0 (pos 0) ≡ pos 0
unfolding to_biz_code inverted
ok_back = ground arith

pub kept-sent : (code : ℤ) → kept code ≡ true → code ≢ pos 0 → to_rpc_code code (uint32_of code) ≢ 0
kept-sent code h d z = d (sym (kept-through code h) ∙ rw z ok_back)
