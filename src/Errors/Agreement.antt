-- ===== src/Errors/Agreement.antt =====
-- GetBizErrCode, HasErrCode and ToBizError of util/error.go on the same error.
use b_go_util.Base.{
  ℤ, ℤ-discrete, same, ◌≡◌, refl, arith, Bool, true, false, ◌&&◌, Option, none, some, is_some, List,
  inl, inr, Option-cases, if◌then◌else◌,
}
use Prim.Native.String.{String}
use b_go_util.Errors.{
  Arg, BizError, code_of, new_biz_error, sprint, sprintf, get_code, has_code, unknown_error,
  to_biz_error, code_unknown,
}

module _ {E : Type 0} (find_biz : E → Option (Option (BizError E))) where
  -- What errors.As finds is a nil pointer.
  unfoldable pub finds_nil : Option E → Bool
  finds_nil none = false
  finds_nil (some e) = elim (find_biz e) [ none ↦ false | some none ↦ true | some (some b) ↦ false ]

  -- The error is nil, or errors.As finds a BizError.
  abbrev pub is_known : Option E → Bool
  is_known none = true
  is_known (some e) = is_some (find_biz e)

-- ToBizError does not panic; its code is the one of GetBizErrCode, but -1 where what errors.As finds
-- is a nil pointer; HasErrCode says whether that code of GetBizErrCode is the given one, but is false
-- for an error in which errors.As finds nothing, whose code is -1.
pub codes_agree :
    {E V : Type 0} (text : E → String) (format : String → List (Arg E V) → String)
    (show : ℤ → String) (find_biz : E → Option (Option (BizError E))) (e : Option E) (code : ℤ)
    → (b : BizError E) × (to_biz_error text format show find_biz e ≡ some b)
      × (b.code ≡ (if finds_nil find_biz e then code_unknown else get_code find_biz e))
      × (has_code find_biz e code
          ≡ (is_known find_biz e && same ℤ-discrete code (get_code find_biz e)))
      × (is_known find_biz e ≡ false → get_code find_biz e ≡ code_unknown)
unfolding to_biz_error unknown_error new_biz_error sprint sprintf get_code has_code code_of
    finds_nil
codes_agree text format show find_biz none code = (_, refl, refl, ground arith, λ h. cc)
codes_agree text format show find_biz (some e) code = elim (Option-cases (find_biz e)) [
  | inl h ↦ rw (to_biz_error, get_code, has_code, finds_nil, h) (_, refl, refl, refl, λ h. refl)
  | inr (none, h) ↦
      rw (to_biz_error, get_code, has_code, finds_nil, h) (_, refl, refl, ground arith, λ h. cc)
  | inr (some b, h) ↦
      rw (to_biz_error, get_code, has_code, finds_nil, h) (_, refl, refl, ground arith, λ h. cc)
]
