-- ===== src/Groups/Members.antt =====
-- RunnerGroup of async/runner.go: a set of runners that are started and stopped together. A runner is a
-- key of a map, whose values are all 1. What Start and Stop do to the runner with a key is a parameter,
-- and so is the order in which `range` goes through the map: it is that of the list.
use b_go_util.Base.{
  ℕ, Bool, false, ◌||◌, ◌&&◌, not, ◌≡◌, ◌∙◌, ap, refl, sym, arith, same, ◌==◌, List, [], ◌∷◌,
  if◌then◌else◌, ℕ_discrete, has_key, put_key, del_key, Distinct, has_key-put_key, has_key-del_key,
  put_key-Distinct, del_key-Distinct,
}

pub record RunnerGroup : Type 0 where
  pub runners : List ℕ

unfoldable pub new_runner_group : RunnerGroup
new_runner_group = record { runners = [] }

unfoldable pub add_runners : RunnerGroup → List ℕ → RunnerGroup
add_runners g [] = g
add_runners g (r ∷ rs) = add_runners (record g { runners = put_key ℕ_discrete r g.runners }) rs

-- if g.runners[runner] == 1 { delete(g.runners, runner) }
unfoldable pub del_runner : RunnerGroup → ℕ → RunnerGroup
del_runner g r =
    if has_key ℕ_discrete r g.runners
    then record g { runners = del_key ℕ_discrete r g.runners }
    else g

unfoldable pub del_runners : RunnerGroup → List ℕ → RunnerGroup
unfolding del_runner
del_runners g [] = g
del_runners g (r ∷ rs) = del_runners (del_runner g r) rs

-- The runners that the program has, by their keys.
abbrev pub Heap {ℓ} : Type ℓ → Type ℓ
Heap S = ℕ → S

-- What a method does to one runner.
unfoldable pub on_runner {ℓ} : {S : Type ℓ} → (S → S) → ℕ → Heap S → Heap S
on_runner f r h = λ k. if k == r then f (h k) else h k

-- for runner := range g.runners { runner.Start() }, or Stop
unfoldable pub each {ℓ} : {S : Type ℓ} → (S → S) → List ℕ → Heap S → Heap S
unfolding on_runner
each f [] h = h
each f (r ∷ rs) h = each f rs (on_runner f r h)

unfoldable pub start_group {ℓ} : {S : Type ℓ} → (S → S) → RunnerGroup → Heap S → Heap S
unfolding each
start_group start g h = each start g.runners h

unfoldable pub stop_group {ℓ} : {S : Type ℓ} → (S → S) → RunnerGroup → Heap S → Heap S
unfolding each
stop_group stop g h = each stop g.runners h

pub data GroupCall : Type 0 where
  adds : List ℕ → GroupCall
  dels : List ℕ → GroupCall

unfoldable pub group_call : RunnerGroup → GroupCall → RunnerGroup
unfolding add_runners del_runners
group_call g (adds rs) = add_runners g rs
group_call g (dels rs) = del_runners g rs

unfoldable pub group_calls : RunnerGroup → List GroupCall → RunnerGroup
group_calls g [] = g
group_calls g (c ∷ cs) = group_calls (group_call g c) cs

-- Whether a runner is in the group after some calls, if it was or was not before.
pub is_member : ℕ → Bool → List GroupCall → Bool
is_member r was [] = was
is_member r was (adds rs ∷ cs) = is_member r (was || has_key ℕ_discrete r rs) cs
is_member r was (dels rs ∷ cs) = is_member r (was && not (has_key ℕ_discrete r rs)) cs

add_runners-Distinct :
    (g : RunnerGroup) (rs : List ℕ)
    → Distinct ℕ_discrete g.runners
    → Distinct ℕ_discrete (add_runners g rs).runners
unfolding add_runners
add_runners-Distinct g [] d = d
add_runners-Distinct g (r ∷ rs) d =
    add_runners-Distinct (record { runners = put_key ℕ_discrete r g.runners }) rs
      (put_key-Distinct ℕ_discrete r g.runners d)

add_runners_member :
    (g : RunnerGroup) (k : ℕ) (rs : List ℕ)
    → has_key ℕ_discrete k (add_runners g rs).runners
      ≡ (has_key ℕ_discrete k g.runners || has_key ℕ_discrete k rs)
unfolding add_runners has_key
add_runners_member g k [] = ground arith
add_runners_member g k (r ∷ rs) = ground (
  arith,
  has_key-put_key ℕ_discrete r k g.runners,
  add_runners_member (record { runners = put_key ℕ_discrete r g.runners }) k rs,
)

del_runner-Distinct :
    (g : RunnerGroup) (r : ℕ)
    → Distinct ℕ_discrete g.runners
    → Distinct ℕ_discrete (del_runner g r).runners
unfolding del_runner
del_runner-Distinct g r d = ground (arith, del_key-Distinct ℕ_discrete r g.runners d)

del_runner_member :
    (g : RunnerGroup) (r k : ℕ)
    → has_key ℕ_discrete k (del_runner g r).runners
      ≡ (has_key ℕ_discrete k g.runners && not (same ℕ_discrete k r))
unfolding del_runner
del_runner_member g r k = ground (arith, has_key-del_key ℕ_discrete r k g.runners)

del_runners-Distinct :
    (g : RunnerGroup) (rs : List ℕ)
    → Distinct ℕ_discrete g.runners
    → Distinct ℕ_discrete (del_runners g rs).runners
unfolding del_runners
del_runners-Distinct g [] d = d
del_runners-Distinct g (r ∷ rs) d =
    del_runners-Distinct (del_runner g r) rs (del_runner-Distinct g r d)

del_runners_member :
    (g : RunnerGroup) (k : ℕ) (rs : List ℕ)
    → has_key ℕ_discrete k (del_runners g rs).runners
      ≡ (has_key ℕ_discrete k g.runners && not (has_key ℕ_discrete k rs))
unfolding del_runners has_key
del_runners_member g k [] = ground arith
del_runners_member g k (r ∷ rs) =
    ground (arith, del_runner_member g r k, del_runners_member (del_runner g r) k rs)

group_call-Distinct :
    (g : RunnerGroup) (c : GroupCall)
    → Distinct ℕ_discrete g.runners
    → Distinct ℕ_discrete (group_call g c).runners
unfolding group_call
group_call-Distinct g (adds rs) d = add_runners-Distinct g rs d
group_call-Distinct g (dels rs) d = del_runners-Distinct g rs d

group_calls_facts :
    (g : RunnerGroup) (cs : List GroupCall) (k : ℕ)
    → Distinct ℕ_discrete g.runners
    → Distinct ℕ_discrete (group_calls g cs).runners
      × (has_key ℕ_discrete k (group_calls g cs).runners
          ≡ is_member k (has_key ℕ_discrete k g.runners) cs)
unfolding group_calls is_member group_call
group_calls_facts g [] k d = (d, refl)
group_calls_facts g (adds rs ∷ cs) k d =
    rw (sym (add_runners_member g k rs))
      (group_calls_facts (add_runners g rs) cs k (add_runners-Distinct g rs d))
group_calls_facts g (dels rs ∷ cs) k d =
    rw (sym (del_runners_member g k rs))
      (group_calls_facts (del_runners g rs) cs k (del_runners-Distinct g rs d))

module _ {S : Type 0} (f : S → S) where
  on_runner_at : (r k : ℕ) (h : Heap S) → on_runner f r h k ≡ (if k == r then f (h k) else h k)
  unfolding on_runner
  on_runner_at r k h = refl

  each_member :
      (rs : List ℕ) (h : Heap S) (k : ℕ)
      → Distinct ℕ_discrete rs
      → each f rs h k ≡ (if has_key ℕ_discrete k rs then f (h k) else h k)
  unfolding each has_key
  each_member [] h k d = refl
  each_member (r ∷ rs) h k d =
      ground (arith, each_member rs (on_runner f r h) k d.1, on_runner_at r k h)

nobody : (k : ℕ) → has_key ℕ_discrete k new_runner_group.runners ≡ false
unfolding new_runner_group has_key
nobody k = refl

nobody-Distinct : Distinct ℕ_discrete new_runner_group.runners
unfolding new_runner_group
nobody-Distinct = tt

module _ {S : Type 0} (start stop : S → S) where
  -- After any calls of Add and Del on a new group, Start starts, once, just the runners that were
  -- added and not deleted since, and leaves the others alone; Stop stops the same ones.
  pub start_members :
      (cs : List GroupCall) (h : Heap S) (k : ℕ)
      → (start_group start (group_calls new_runner_group cs) h k
          ≡ (if is_member k false cs then start (h k) else h k))
        × (stop_group stop (group_calls new_runner_group cs) h k
            ≡ (if is_member k false cs then stop (h k) else h k))
  unfolding start_group stop_group
  start_members cs h k =
      let (d, m) = group_calls_facts new_runner_group cs k nobody-Distinct in
      let member = m ∙ ap (λ b. is_member k b cs) (nobody k) in
      (
        rw (sym member) (each_member start (group_calls new_runner_group cs).runners h k d),
        rw (sym member) (each_member stop (group_calls new_runner_group cs).runners h k d),
      )
