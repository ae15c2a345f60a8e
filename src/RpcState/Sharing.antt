-- ===== src/RpcState/Sharing.antt =====
-- Requests that go through one MWState of rpc/mw_state.go.
use b_go_util.Base.{
  ℕ, ◌<◌, ◌≢◌, ◌≡◌, refl, sym, ℕ_discrete, if_pos, if_neg, Option, none, some, List, [], length,
  get_or, put, get-put, get_or-set,
}
use b_go_util.Value.{Value}
use b_go_util.RpcState.{put_state, get_state, handle}

module _ {K A : Type 0} (E : Type 0) (dec : Discrete K) where
  -- A callback that puts a value in the state.
  abbrev pub putting :
      K → Value A → ℕ → List (List (K × Value A)) → List (List (K × Value A)) × Option E
  putting key val p heap = (put_state dec p key val heap, none)

  -- A value that the callback puts in the state of a request without one is what the next request
  -- without a state finds in its state; a request that has a state of its own does not change the
  -- one that they share.
  pub requests_share :
      (own p : ℕ) (key : K) (val : Value A) (heap : List (List (K × Value A)))
      → own < length heap
      → p < length heap
      → own ≢ p
      → (get_state dec
            (handle dec own (putting key val) none heap).1.0
            key
            (handle dec own (putting key val) none heap).0
          ≡ some val)
        × ((handle dec own
              (putting key val)
              none
              (handle dec own (putting key val) none heap).0).1.0
            ≡ (handle dec own (putting key val) none heap).1.0)
        × (get_state dec own key (handle dec own (putting key val) (some p) heap).0
            ≡ get_state dec own key heap)
  unfolding handle put_state get_state
  requests_share own p key val heap h k d = (
    rw
        (
          get_state,
          put_state,
          get_or-set heap own own (put dec key val (get_or heap own [])) [] h,
          if_pos (ℕ_discrete own own) refl,
          get-put dec key key val (get_or heap own []),
          if_pos (dec key key) refl,
        )
        refl,
    refl,
    rw
        (
          get_state,
          put_state,
          get_or-set heap p own (put dec key val (get_or heap p [])) [] k,
          if_neg (ℕ_discrete p own) (λ e. d (sym e)),
        )
        refl,
  )
