-- ===== src/CacheGroup.antt =====
-- async/cache_group.go: results of tasks by key, where only the first caller of a key runs its task.
-- Holders are objects that waiting callers keep after their key is deleted, so they live in a heap and
-- the map holds their indices. Do is three steps: finding or adding the holder, which holds the lock,
-- the end of the task, and the end of the wait. `none` is a failed assertion. `is_blank` is whether
-- strings.TrimSpace of a string is empty. A result is an `Option R`, nil is `none`.
pub mod Flights
mod Tests
use Prim.Native.String.{String}
use b_go_util.Base.{
  ℕ, Bool, true, false, Option, none, some, List, [], ◌∷◌, ◌++◌, if◌then◌else◌, length, get_elem?,
  set, get, put, delete, String-discrete,
}

pub record CacheHolder (R : Type 0) : Type 0 where
  pub is_done : Bool  -- the counter of its WaitGroup is 0
  pub result : Option R

pub record CacheGroup (R : Type 0) : Type 0 where
  pub holders : List (String × ℕ)
  pub heap : List (CacheHolder R)

-- Calls of the group and ends of tasks.
pub data Call (R : Type 0) : Type 0 where
  calls : String → Call R
  ends : ℕ → Option R → Call R
  deletes : String → Call R

module _ {R : Type 0} where
  unfoldable pub new_cache_group : CacheGroup R
  new_cache_group = record { holders = []; heap = [] }

  unfoldable pub new_cache_holder : CacheHolder R
  new_cache_holder = record { is_done = false; result = none }

  -- The holder at an index, which every index in use has.
  unfoldable pub cached_at : CacheGroup R → ℕ → CacheHolder R
  cached_at g p = elim (get_elem? g.heap p) [ some h ↦ h | none ↦ new_cache_holder ]

  -- Do, up to the wait or the task: the holder's index, and whether the caller runs its task.
  unfoldable pub find_or_add : CacheGroup R → String → CacheGroup R × ℕ × Bool
  find_or_add g key = elim (get String-discrete key g.holders) [
    | some p ↦ (g, p, false)
    | none ↦ (
      record {
        holders = put String-discrete key (length g.heap) g.holders;
        heap = g.heap ++ new_cache_holder ∷ [];
      },
      length g.heap,
      true,
    )
  ]

  unfoldable pub do_start :
      (String → Bool) → CacheGroup R → String → Option (CacheGroup R × ℕ × Bool)
  unfolding find_or_add
  do_start is_blank g key = if is_blank key then none else some (find_or_add g key)

  -- The end of the task that the caller of Do runs for a holder.
  unfoldable pub do_end : CacheGroup R → ℕ → Option R → CacheGroup R
  do_end g p r = record g { heap = set g.heap p (record { is_done = true; result = r }) }

  -- What Do and Get return for a holder, once its task has ended; none while they wait.
  unfoldable pub returned : CacheGroup R → ℕ → Option (Option R)
  returned g p = if (cached_at g p).is_done then some ((cached_at g p).result) else none

  -- Get, up to the wait: the holder to wait for, if the key has one.
  unfoldable pub get_cached : CacheGroup R → String → Option ℕ
  get_cached g key = get String-discrete key g.holders

  -- Del, with the result that the holder has, nil if its task runs.
  unfoldable pub del_cached : CacheGroup R → String → CacheGroup R × Option R
  del_cached g key = elim (get String-discrete key g.holders) [
    | some p ↦ (record g { holders = delete String-discrete key g.holders }, (cached_at g p).result)
    | none ↦ (g, none)
  ]

  unfoldable pub serve_call : CacheGroup R → Call R → CacheGroup R
  unfolding find_or_add do_end del_cached
  serve_call g (calls key) = (find_or_add g key).0
  serve_call g (ends p r) = do_end g p r
  serve_call g (deletes key) = (del_cached g key).0

  unfoldable pub serve_calls : CacheGroup R → List (Call R) → CacheGroup R
  serve_calls g [] = g
  serve_calls g (c ∷ cs) = serve_calls (serve_call g c) cs
