-- ===== src/RpcState.antt =====
-- rpc/mw_state.go: the values that a request's context carries. A *BaseState is an index of a list of
-- maps, so that contexts can share one; a context is the index that it carries, if any. A panic is
-- `none`.
pub mod Sharing
mod Tests
use b_go_util.Base.{
  ℕ, ℤ, ◌≡◌, Bool, true, false, not, Option, none, some, is_some, List, [], ◌∷◌, ◌++◌, length,
  get_or, set, get, put, delete, if◌then◌else◌,
}
use Prim.Native.String.{String}
use b_go_util.Value.{
  Value, nil_value, bool_value, int_value, int8_value, int16_value, int32_value, int64_value,
  string_value, other,
}

-- v, ok := x.(int), and so on.
abbrev pub int_of : {A : Type 0} → Value A → Option ℤ
int_of nil_value = none
int_of (bool_value v) = none
int_of (int_value v) = some v
int_of (int8_value v) = none
int_of (int16_value v) = none
int_of (int32_value v) = none
int_of (int64_value v) = none
int_of (string_value v) = none
int_of (other v) = none

abbrev pub int64_of : {A : Type 0} → Value A → Option ℤ
int64_of nil_value = none
int64_of (bool_value v) = none
int64_of (int_value v) = none
int64_of (int8_value v) = none
int64_of (int16_value v) = none
int64_of (int32_value v) = none
int64_of (int64_value v) = some v
int64_of (string_value v) = none
int64_of (other v) = none

abbrev pub string_of : {A : Type 0} → Value A → Option String
string_of nil_value = none
string_of (bool_value v) = none
string_of (int_value v) = none
string_of (int8_value v) = none
string_of (int16_value v) = none
string_of (int32_value v) = none
string_of (int64_value v) = none
string_of (string_value v) = some v
string_of (other v) = none

module _ {K A : Type 0} (dec : Discrete K) where
  -- NewStateOf, whose copy of the map has the same entries, and NewState.
  unfoldable pub new_state_of :
      List (List (K × Value A)) → List (K × Value A) → List (List (K × Value A)) × ℕ
  new_state_of heap vals = (heap ++ (vals ∷ []), length heap)

  unfoldable pub new_state : List (List (K × Value A)) → List (List (K × Value A)) × ℕ
  unfolding new_state_of
  new_state heap = new_state_of heap []

  unfoldable pub put_state : ℕ → K → Value A → List (List (K × Value A)) → List (List (K × Value A))
  put_state p key val heap = set heap p (put dec key val (get_or heap p []))

  unfoldable pub del_state : ℕ → K → List (List (K × Value A)) → List (List (K × Value A))
  del_state p key heap =
      if is_some (get dec key (get_or heap p []))
      then set heap p (delete dec key (get_or heap p []))
      else heap

  unfoldable pub clear_state : ℕ → List (List (K × Value A)) → List (List (K × Value A))
  clear_state p heap = set heap p []

  unfoldable pub state_map : ℕ → List (List (K × Value A)) → List (K × Value A)
  state_map p heap = get_or heap p []

  unfoldable pub get_state : ℕ → K → List (List (K × Value A)) → Option (Value A)
  get_state p key heap = get dec key (get_or heap p [])

  unfoldable pub has_state : ℕ → K → List (List (K × Value A)) → Bool
  unfolding get_state
  has_state p key heap = is_some (get_state p key heap)

  -- MustInt, MustInt64 and MustString: a type assertion on the value, nil for a key that is missing.
  unfoldable pub must_int : ℕ → K → List (List (K × Value A)) → Option ℤ
  unfolding get_state
  must_int p key heap = elim (get_state p key heap) [ none ↦ none | some v ↦ int_of v ]

  unfoldable pub must_int64 : ℕ → K → List (List (K × Value A)) → Option ℤ
  unfolding get_state
  must_int64 p key heap = elim (get_state p key heap) [ none ↦ none | some v ↦ int64_of v ]

  unfoldable pub must_string : ℕ → K → List (List (K × Value A)) → Option String
  unfolding get_state
  must_string p key heap = elim (get_state p key heap) [ none ↦ none | some v ↦ string_of v ]

  -- handle of an MWState with its own state: the context that goes on, and what onRequest does to the
  -- states and returns.
  unfoldable pub handle :
      {E : Type 0}
      → ℕ
      → (ℕ → List (List (K × Value A)) → List (List (K × Value A)) × Option E)
      → Option ℕ
      → List (List (K × Value A))
      → List (List (K × Value A)) × (ℕ × Option E)
  handle own on_request none heap = ((on_request own heap).0, (own, (on_request own heap).1))
  handle own on_request (some p) heap = ((on_request p heap).0, (p, (on_request p heap).1))
