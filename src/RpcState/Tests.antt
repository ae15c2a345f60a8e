-- ===== src/RpcState/Tests.antt =====
-- Witnesses of rpc/mw_state.go.
use b_go_util.Base.{ℕ, ℕ_discrete, pos, ◌≡◌, arith, none, some, List, [], ◌∷◌}
use b_go_util.Value.{Value, int_value}
use b_go_util.RpcState.{get_state, handle}
use b_go_util.RpcState.Sharing.{putting, requests_share}

abbrev two_states : List (List (ℕ × Value ℕ))
two_states = [] ∷ ((3, int_value (pos 1)) ∷ []) ∷ []

requests_share_test :
    (get_state ℕ_discrete 0 3
        (handle ℕ_discrete 0 (putting ℕ ℕ_discrete 3 (int_value (pos 7))) none two_states).0
      ≡ some (int_value (pos 7)))
    × ((handle ℕ_discrete 0
          (putting ℕ ℕ_discrete 3 (int_value (pos 7)))
          none
          (handle ℕ_discrete 0 (putting ℕ ℕ_discrete 3 (int_value (pos 7))) none two_states).0).1.0
        ≡ 0)
    × (get_state ℕ_discrete 0 3
          (handle ℕ_discrete 0 (putting ℕ ℕ_discrete 3 (int_value (pos 7))) (some 1) two_states).0
        ≡ get_state ℕ_discrete 0 3 two_states)
unfolding handle
requests_share_test =
    requests_share ℕ ℕ_discrete 0 1 3 (int_value (pos 7)) two_states (omega arith) (omega arith)
      (λ e. absurd (omega arith))
