-- ===== src/BlockGroup.antt =====
-- async/block_group.go: a group of results that goroutines wait for by key. Holders are objects that
-- waiting goroutines keep after their key is removed, so they live in a heap and the map holds their
-- indices. `none` is a panic: a failed assertion, or a WaitGroup counter that would get negative.
-- `is_blank` is whether strings.TrimSpace of a string is empty. Each method holds the lock for what is one
-- step here, but Put lets it go between finding a holder and filling it: these are two functions.
pub mod Unblocking
mod Tests
use Prim.Native.String.{String}
use b_go_util.Base.{
  ℕ, zero, suc, Bool, true, false, not, is_some, Option, none, some, List, [], ◌∷◌, ◌++◌,
  if◌then◌else◌, length, get_elem?, set, get, put, delete, String-discrete,
}

pub record Holder (V : Type 0) : Type 0 where
  pub count : ℕ  -- the counter of its WaitGroup
  pub has_result : Bool
  pub result : Option V

pub record BlockGroup (V : Type 0) : Type 0 where
  pub holders : List (String × ℕ)
  pub heap : List (Holder V)

module _ {V : Type 0} where
  unfoldable pub new_holder : Holder V
  new_holder = record { count = 1; has_result = false; result = none }

  -- wg.Done()
  unfoldable pub done : Holder V → Option (Holder V)
  done h = elim (h.count) [ zero ↦ none | suc n ↦ some (record h { count = n }) ]

  unfoldable pub put_holder : Holder V → Option V → Option (Holder V)
  put_holder h v =
      if not h.has_result
      then done (record h { result = v; has_result = true })
      else some (record h { result = v })

  unfoldable pub unblock : Holder V → Option (Holder V)
  unblock h = if not h.has_result then done h else some h

  unfoldable pub new_group : BlockGroup V
  new_group = record { holders = []; heap = [] }

  -- What an update of the holder at an index leaves of the group.
  unfoldable pub store_holder : BlockGroup V → ℕ → Option (Holder V) → Option (BlockGroup V)
  store_holder g p none = none
  store_holder g p (some h) = some (record g { heap = set g.heap p h })

  -- The holder at an index, which every index in use has.
  unfoldable pub holder_at : BlockGroup V → ℕ → Holder V
  holder_at g p = elim (get_elem? g.heap p) [ some h ↦ h | none ↦ new_holder ]

  unfoldable pub added : BlockGroup V → String → Holder V → BlockGroup V
  added g key h = record {
    holders = put String-discrete key (length g.heap) g.holders;
    heap = g.heap ++ h ∷ [];
  }

module _ {V : Type 0} (is_blank : String → Bool) where
  unfoldable pub has : BlockGroup V → String → Bool
  has g key = if is_blank key then false else is_some (get String-discrete key g.holders)

  unfoldable pub peek : BlockGroup V → String → Option V
  peek g key = if is_blank key then none else (elim (get String-discrete key g.holders) [
    | some p ↦ (holder_at g p).result
    | none ↦ none
  ])

  -- The first part of Get: the holder to wait for, none for a blank key. The key is looked up again
  -- under the lock that adds a holder.
  unfoldable pub get_holder : BlockGroup V → String → BlockGroup V × Option ℕ
  get_holder g key = if is_blank key then (g, none) else (elim (get String-discrete key g.holders) [
    | some p ↦ (g, some p)
    | none ↦ (added g key new_holder, some (length g.heap))
  ])

  -- The second part of Get: the result, once the counter is 0; none while it blocks.
  unfoldable pub received : BlockGroup V → ℕ → Option (Option V)
  received g p = elim ((holder_at g p).count) [
    | zero ↦ some ((holder_at g p).result)
    | suc n ↦ none
  ]

  -- The second part of Put on a holder that it found.
  unfoldable pub fill : BlockGroup V → ℕ → Option V → Option (BlockGroup V)
  fill g p val = store_holder g p (put_holder (holder_at g p) val)

  -- The first part of Put: none for a failed assertion, else the holder that the key has.
  unfoldable pub put_finds : BlockGroup V → String → Option (Option ℕ)
  put_finds g key = if is_blank key then none else some (get String-discrete key g.holders)

  -- The second part, on the group as it is by then: fills the holder that the first found; if it found
  -- none, looks again under the lock.
  unfoldable pub put_fills : BlockGroup V → String → Option ℕ → Option V → Option (BlockGroup V)
  unfolding fill
  put_fills g key (some p) val = fill g p val
  put_fills g key none val = elim (get String-discrete key g.holders) [
    | some p ↦ fill g p val
    | none ↦ elim (put_holder new_holder val) [ some h ↦ some (added g key h) | none ↦ none ]
  ]

  unfoldable pub put_if_exist : BlockGroup V → String → Option V → Option (BlockGroup V × Bool)
  unfolding fill
  put_if_exist g key val =
      if is_blank key then some (g, false) else (elim (get String-discrete key g.holders) [
        | some p ↦ elim (fill g p val) [ some g' ↦ some (g', true) | none ↦ none ]
        | none ↦ some (g, false)
      ])

  unfoldable pub remove : BlockGroup V → String → Option (BlockGroup V × Option V)
  remove g key =
      if is_blank key then some (g, none) else (elim (get String-discrete key g.holders) [
        | some p ↦
            let g' = record g { holders = delete String-discrete key g.holders } in
            elim (store_holder g' p (unblock (holder_at g p))) [
              | some g'' ↦ some (g'', (holder_at g'' p).result)
              | none ↦ none
            ]
        | none ↦ some (g, none)
      ])

  -- for _, holder := range g.holders { holder.Unblock() }
  unfoldable pub unblock_all : List (String × ℕ) → BlockGroup V → Option (BlockGroup V)
  unblock_all [] g = some g
  unblock_all ((key, p) ∷ entries) g = elim (store_holder g p (unblock (holder_at g p))) [
    | some g' ↦ unblock_all entries g'
    | none ↦ none
  ]

  unfoldable pub remove_all : BlockGroup V → Option (BlockGroup V)
  unfolding unblock_all
  remove_all g = elim (unblock_all g.holders g) [
    | some g' ↦ some (record g' { holders = [] })
    | none ↦ none
  ]
