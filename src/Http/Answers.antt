-- ===== src/Http/Answers.antt =====
-- What Handle of http/mw_err_handler.go answers with.
use Prim.Native.String.{String}
use b_go_util.Base.{
  ◌≤◌, ◌<◌, ℤ, pos, negsuc, ◌≡◌, refl, arith, Bool, true, false, Option, none, some, map_option,
  List, [], ◌∷◌, Bool-cases, Option-cases, inl, inr, ◌⊎◌,
}
use b_go_util.Errors.{Arg, BizError, sprint, sprintf}
use b_go_util.Http.{
  HttpError, new_error, new400_error, new500_error, Kind, GinErr, ErrorHandler, Answer, silent,
  by_hook, sends, send_err_rsp, is_validation_err, to_http_err_code, last_error, http_err_of,
  to_http_err, handle,
}
use b_go_util.Http.Statuses.{status_valid}

-- A status that net/http accepts.
abbrev pub IsStatus : ℤ → Type 0
IsStatus (pos n) = (100 ≤ n) × (n < 1000)
IsStatus (negsuc n) = ⊥

abbrev pub IsAnswer : {E : Type 0} → Option (HttpError E) → Type 0
IsAnswer none = Unit
IsAnswer (some e) = IsStatus e.status

-- An answer has a valid status, and where there is none there is a reason for it.
abbrev pub Explains : {E : Type 0} → Type 0 → Answer E → Type 0
Explains Why silent = Why
Explains Why (by_hook e) = IsStatus e.status
Explains Why (sends status field e) = IsStatus status

-- An error that is found or made, or the reason why there is none.
abbrev Answered : {E : Type 0} → Type 0 → Option (Option (HttpError E)) → Type 0
Answered Why none = ⊥
Answered Why (some none) = Why
Answered Why (some (some e)) = IsStatus e.status

abbrev Handled : {E : Type 0} → Type 0 → Option (Answer E) → Type 0
Handled Why none = ⊥
Handled Why (some a) = Explains Why a

own-Answered :
    {E : Type 0} (o : Option (HttpError E)) → IsAnswer o → Answered (some o ≡ some none) (some o)
own-Answered none i = refl
own-Answered (some x) i = i

module _ {E V : Type 0} (text : E → String) (format : String → List (Arg E V) → String)
    (find_biz : E → Option (Option (BizError E)))
    (find_http : GinErr E → Option (Option (HttpError E))) (kind : E → Kind) where
  -- The error that the last error is answered with.
  made :
      (h : ErrorHandler) (e : GinErr E)
      → ((o : Option (HttpError E)) → find_http e ≡ some o → IsAnswer o)
      → Answered (find_http e ≡ some none) (http_err_of text format find_biz find_http kind h e)
  unfolding http_err_of new400_error new_error sprint sprintf
  made h e own = elim (Option-cases (find_http e)) [
    | inr (o, k) ↦ rw (http_err_of, k) (own-Answered o (own o k))
    | inl k ↦ elim (Bool-cases (is_validation_err text format find_biz find_http kind e)) [
      | inl v ↦ rw (http_err_of, k, v) (omega arith, omega arith)
      | inr v ↦
          let (low, high, prefix) =
            status_valid h (to_http_err_code text format find_biz find_http kind e) in
          rw (http_err_of, k, v) (low, high)
    ]
  ]

  -- Why there is no response: no panic, and a handler that sent its own, no error, or a nil *Error.
  pub WhySilent : Option E → Bool → List (GinErr E) → Type 0
  WhySilent (some e) aborted errors = ⊥
  WhySilent none aborted [] = Unit
  WhySilent none aborted (e ∷ es) =
      (aborted ≡ true)
      ⊎ (find_http (last_error text format find_biz find_http kind e es) ≡ some none)

  handled :
      (h : ErrorHandler) (has_send_hook : Bool) (panic : Option E) (aborted : Bool)
      (errors : List (GinErr E))
      → ((e : GinErr E) (o : Option (HttpError E)) → find_http e ≡ some o → IsAnswer o)
      → Handled
          (WhySilent panic aborted errors)
          (handle text format find_biz find_http kind h has_send_hook none panic aborted errors)
  unfolding handle new500_error new_error send_err_rsp sprint sprintf to_http_err WhySilent
  handled h true (some e) aborted errors own = (omega arith, omega arith)
  handled h false (some e) aborted errors own = (omega arith, omega arith)
  handled h s none aborted [] own = tt
  handled h s none true (e ∷ es) own = inl refl
  handled h s none false (e ∷ es) own =
      let last = last_error text format find_biz find_http kind e es in
      weakened (find_http last ≡ some none) (λ w. inr w)
        (http_err_of text format find_biz find_http kind h last) (made h last (own last))
    where
      weakened :
          (Why : Type 0)
          → (Why → (false ≡ true) ⊎ Why)
          → (o : Option (Option (HttpError E))) → Answered Why o
          → Handled ((false ≡ true) ⊎ Why) (map_option (send_err_rsp h s) o)
      weakened Why f none i = i
      weakened Why f (some none) i = f i
      weakened Why f (some (some x)) i = elim (Bool-cases s) [ inl e ↦ rw e i | inr e ↦ rw e i ]

  explained :
      (Why : Type 0) (o : Option (Answer E))
      → Handled Why o
      → (a : Answer E) × (o ≡ some a) × Explains Why a
  explained Why none i = absurd i
  explained Why (some a) i = (a, refl, i)

  -- Without a ToHttpErr hook, and if the *Errors that errors.As finds have valid statuses: Handle
  -- does not panic itself; each answer has a status from 100 to 999; and it sends none only if nothing
  -- panicked and the context is aborted, has no error, or its last error leads to a nil *Error.
  pub handle_answers :
      (h : ErrorHandler) (has_send_hook : Bool) (panic : Option E) (aborted : Bool)
      (errors : List (GinErr E))
      → ((e : GinErr E) (o : Option (HttpError E)) → find_http e ≡ some o → IsAnswer o)
      → (a : Answer E) × (handle text format find_biz find_http kind h has_send_hook none panic
            aborted errors
          ≡ some a)
        × Explains (WhySilent panic aborted errors) a
  handle_answers h has_send_hook panic aborted errors own =
      explained _ _ (handled h has_send_hook panic aborted errors own)
