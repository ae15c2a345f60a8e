-- ===== src/Errors/Transport.antt =====
-- ToRpcErr and ToBizErr of rpc/error.go, one after the other.
use b_go_util.Base.{
  ℕ, ℤ, pos, ◌≡◌, ◌≢◌, refl, sym, ◌∙◌, arith, Bool, true, false, Option, none, some, Option-cases,
  inl, inr, map_option, List, [], ◌∷◌,
}
use Prim.Native.String.{String, ◌++◌}
use b_go_util.Base.Texts.{append_assoc}
use b_go_util.Errors.{
  Arg, err, str, val, BizError, code_of, as_biz_error, new_biz_error, sprint, sprintf, code_prefix,
}
use b_go_util.Errors.Rpc.{
  to_rpc_code, uint32_of, is_rpc_err, rpc_code_of, to_rpc_err, biz_of_status, to_biz_err,
}
use b_go_util.Errors.Codes.{kept, through_rpc, kept-through, kept-sent}

module _ {E V : Type 0} (text : E → String) (format : String → List (Arg E V) → String)
    (show : ℤ → String) (find_biz : E → Option (Option (BizError E)))
    (from_error : E → Option (ℕ × String) × Bool) (status_error : ℕ → String → Option E)
    (trim_prefix : String → String → String) where
  -- The text of a BizError begins with its code.
  abbrev Prefixed : ℤ → BizError E → Type 0
  Prefixed code b = (b.code ≡ code) × (t : String) × (b.msg ≡ code_prefix show code ++ t)

  of_some : {b c : BizError E} → some b ≡ some c → b ≡ c
  of_some h = cc

  plain :
      (code : ℤ) (m : Option String) (b : BizError E)
      → map_option (λ m. record { code = code; msg = code_prefix show code ++ m; cause = none }) m
        ≡ some b
      → Prefixed code b
  plain code none b h = absurd (cc)
  plain code (some m) b h = rw (sym (of_some h)) (refl, m, refl)

  new_biz_error-Prefixed :
      (code : ℤ) (args : List (Arg E V)) (b : BizError E)
      → new_biz_error text format show code args ≡ some b
      → Prefixed code b
  unfolding new_biz_error
  new_biz_error-Prefixed code [] b h = rw (sym (of_some h)) (refl, "", refl)
  new_biz_error-Prefixed code (err e ∷ args) b h = elim (Option-cases (sprint text format args)) [
    | inl k ↦ absurd (ground (arith, h, k))
    | inr (m, k) ↦
        let made : some (record {
          code = code;
          msg = (code_prefix show code ++ m) ++ "->" ++ text e;
          cause = some e;
        })
            ≡ some b =
          sym (rw k refl) ∙ h in
        rw (sym (of_some made))
          (refl, m ++ "->" ++ text e, append_assoc (code_prefix show code) m ("->" ++ text e))
  ]
  new_biz_error-Prefixed code (str f ∷ args) b h =
      plain code (sprint text format (str f ∷ args)) b h
  new_biz_error-Prefixed code (val v ∷ args) b h =
      plain code (sprint text format (val v ∷ args)) b h

  -- A BizError that is no status error, made by NewBizError with a code that is kept and not 0, as
  -- ToRpcErr sends it and ToBizErr reads it: the same code and the same text. status.Error gives, for
  -- a code that is not OK, an error that status.FromError takes apart; TrimPrefix takes a prefix off.
  pub error_round_trip :
      (status_law : (c : ℕ) (m : String)
        → c ≢ 0
        → (e : E) × (status_error c m ≡ some e) × (from_error e ≡ (some (c, m), true)))
      (trim_law : (p t : String) → trim_prefix (p ++ t) p ≡ t) (code : ℤ) (args : List (Arg E V))
      (b : BizError E) (e : E)
      → new_biz_error text format show code args ≡ some b
      → find_biz e ≡ some (some b)
      → text e ≡ b.msg
      → (from_error e).1 ≡ false
      → kept code ≡ true
      → code ≢ pos 0
      → (sent : E) × (received : BizError E) × (to_rpc_err text format show find_biz from_error
            status_error trim_prefix
            (some e)
            []
          ≡ some (some sent))
        × (to_biz_err text format show find_biz from_error status_error trim_prefix sent
            ≡ some received)
        × (received.code ≡ b.code)
        × (received.msg ≡ b.msg)
  unfolding to_rpc_err is_rpc_err rpc_code_of as_biz_error code_of to_biz_err biz_of_status
      new_biz_error sprint sprintf
  error_round_trip status_law trim_law code args b e made found shown plain_error k d =
      let (coded, t, said) = new_biz_error-Prefixed code args b made in
      let (sent, is_sent, is_read) =
        status_law (to_rpc_code code (uint32_of code)) (text e) (kept-sent code k d) in
      let code_sent : rpc_code_of text format show find_biz from_error status_error trim_prefix e
          ≡ to_rpc_code code (uint32_of code) =
        rw (rpc_code_of, found, coded) refl in
      let read : through_rpc code ≡ code = kept-through code k in
      (
        sent,
        record { code = code; msg = code_prefix show code ++ t; cause = none },
        rw (to_rpc_err, is_rpc_err, plain_error, code_sent, is_sent) refl,
        rw
            (
              to_biz_err, is_read, biz_of_status, shown, said, read, trim_law, new_biz_error,
              sprint, sprintf,
            )
            refl,
        sym coded,
        sym said,
      )
