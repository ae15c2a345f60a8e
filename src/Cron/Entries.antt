-- ===== src/Cron/Entries.antt =====
-- The tasks of a scheduler of scheduler/scheduler.go and the entries of its Cron.
use Prim.Native.String.{String}
use mathlib.Core.Path.{subst}
use b_go_util.Base.{
  ℕ, Bool, true, false, ◌||◌, ◌==◌, ◌≡◌, ◌↔◌, ◌∙◌, refl, sym, ap, arith, Option, none, some,
  is_some, List, [], ◌∷◌, ◌++◌, if◌then◌else◌, get, put, delete, String-discrete, ℕ_discrete,
  has_key, Distinct, DistinctKeys, has_key-del_key, del_key-Distinct, Option-cases, Bool-cases, inl,
  inr, put-DistinctKeys, delete-DistinctKeys,
}
use b_go_util.Cron.Ids.{ids, ids-put, has_id, ids-delete, name_of, one_name}
use b_go_util.Cron.{
  TaskOption, Job, Cron, Scheduler, normal_options, new_scheduler, has_task, wrapped, added_task,
  must_add_task, remove_task, remove_tasks, Call, adds, removes, call, calls,
}

-- The entries of the Cron are those of the tasks, one for each name.
module _ {J C : Type 0} (is_blank : String → Bool) (cron : Cron J C) where
  record IsMatched (s : Scheduler C) : Type 0 where
    entries : (j : ℕ) → cron.has_entry s.cr j ≡ has_key ℕ_discrete j (ids s.tasks)
    distinct_ids : Distinct ℕ_discrete (ids s.tasks)
    distinct_names : DistinctKeys String-discrete s.tasks

  has_key_last :
      (j id : ℕ) (xs : List ℕ)
      → has_key ℕ_discrete j (xs ++ id ∷ []) ≡ ((j == id) || has_key ℕ_discrete j xs)
  unfolding has_key
  has_key_last j id [] = ground arith
  has_key_last j id (x ∷ xs) = ground (arith, has_key_last j id xs)

  Distinct-last :
      (id : ℕ) (xs : List ℕ)
      → Distinct ℕ_discrete xs
      → has_key ℕ_discrete id xs ≡ false
      → Distinct ℕ_discrete (xs ++ id ∷ [])
  unfolding has_key
  Distinct-last id [] d h = (refl, tt)
  Distinct-last id (x ∷ xs) d h = ground (arith, Distinct-last id xs d.1, has_key_last x id xs)

  added-IsMatched :
      (s : Scheduler C) (name : String) (spec : String) (job : Job J) (c : C) (id : ℕ)
      → IsMatched s
      → get String-discrete name s.tasks ≡ none
      → cron.add_job s.cr spec job ≡ some (c, id)
      → IsMatched (record s { cr = c; tasks = put String-discrete name id s.tasks })
  added-IsMatched s name spec job c id i absent added = record {
    entries = λ j.
        cron.added_entry s.cr c spec job id j added
        ∙ ap (λ b. (j == id) || b) (i.entries j)
        ∙ sym (rw (ids-put name id s.tasks absent) (has_key_last j id (ids s.tasks)));
    distinct_ids = rw (ids-put name id s.tasks absent) (
        Distinct-last id (ids s.tasks) i.distinct_ids
          (sym (i.entries id) ∙ cron.fresh_entry s.cr c spec job id added));
    distinct_names = put-DistinctKeys String-discrete name id s.tasks i.distinct_names;
  }

  removed-IsMatched :
      (s : Scheduler C) (name : String) (id : ℕ)
      → IsMatched s
      → get String-discrete name s.tasks ≡ some id
      → IsMatched
          (record s { cr = cron.remove s.cr id; tasks = delete String-discrete name s.tasks })
  removed-IsMatched s name id i held =
      let gone = ids-delete name id s.tasks held i.distinct_ids i.distinct_names in
      record {
        entries = λ j.
            cron.removed_entry s.cr id j
            ∙ rw (gone, i.entries j)
                (ground (arith, has_key-del_key ℕ_discrete id j (ids s.tasks)));
        distinct_ids = rw gone (del_key-Distinct ℕ_discrete id (ids s.tasks) i.distinct_ids);
        distinct_names = delete-DistinctKeys String-discrete name s.tasks i.distinct_names;
      }

  remove_task-IsMatched :
      (s : Scheduler C) (name : String) → IsMatched s → IsMatched (remove_task is_blank cron s name)
  unfolding remove_task
  remove_task-IsMatched s name i = elim (Option-cases (get String-discrete name s.tasks)) [
    | inl h ↦ rw (remove_task, h) i
    | inr (id, h) ↦ rw (remove_task, h) (removed-IsMatched s name id i h)
  ]

  remove_tasks-IsMatched :
      (s : Scheduler C) (names : List String)
      → IsMatched s
      → IsMatched (remove_tasks is_blank cron s names)
  unfolding remove_tasks
  remove_tasks-IsMatched s [] i = i
  remove_tasks-IsMatched s (name ∷ names) i =
      remove_tasks-IsMatched (remove_task is_blank cron s name) names
        (remove_task-IsMatched s name i)

  -- What a call leaves: the scheduler, after a panic as it was.
  abbrev KeepsMatched : Option (Scheduler C) → Type 0
  KeepsMatched none = Unit
  KeepsMatched (some s) = IsMatched s

  added_task-KeepsMatched :
      (s : Scheduler C) (name spec : String) (job : Job J) (o : Option (C × ℕ))
      → IsMatched s
      → get String-discrete name s.tasks ≡ none
      → cron.add_job s.cr spec job ≡ o
      → KeepsMatched (added_task is_blank cron s name o)
  unfolding added_task
  added_task-KeepsMatched s name spec job none i h e = tt
  added_task-KeepsMatched s name spec job (some (c, id)) i h e =
      added-IsMatched s name spec job c id i h e

  opened :
      (s : Scheduler C) (name : String) (task : J) (opt : Option TaskOption) (old : Option ℕ)
      → IsMatched s
      → get String-discrete name s.tasks ≡ old
      → KeepsMatched (elim opt [
        | none ↦ none
        | some opt ↦
            if is_some old
            then none
            else added_task is_blank cron s name (cron.add_job s.cr opt.cron (wrapped opt task))
      ])
  opened s name task none old i h = tt
  opened s name task (some opt) (some id) i h = tt
  opened s name task (some opt) none i h =
      added_task-KeepsMatched s name opt.cron (wrapped opt task) _ i h refl

  must_add_task-KeepsMatched :
      (s : Scheduler C) (name : String) (task : Option J)
      → IsMatched s
      → KeepsMatched (must_add_task is_blank cron s name task)
  unfolding must_add_task has_task
  must_add_task-KeepsMatched s name none i = tt
  must_add_task-KeepsMatched s name (some task) i = elim (Bool-cases (is_blank name)) [
    | inl h ↦ rw (must_add_task, h) tt
    | inr h ↦
        rw (must_add_task, h)
          (opened s name task (get String-discrete name s.options)
            (get String-discrete name s.tasks) i refl)
  ]

  call-IsMatched : (s : Scheduler C) (c : Call J) → IsMatched s → IsMatched (call is_blank cron s c)
  unfolding call
  call-IsMatched s (adds name task) i =
      after (must_add_task is_blank cron s name task) (must_add_task-KeepsMatched s name task i)
    where
      after :
          (o : Option (Scheduler C))
          → KeepsMatched o
          → IsMatched (elim o [ none ↦ s | some s' ↦ s' ])
      after none k = i
      after (some s') k = k
  call-IsMatched s (removes names) i = remove_tasks-IsMatched s names i

  calls-IsMatched :
      (s : Scheduler C) (cs : List (Call J)) → IsMatched s → IsMatched (calls is_blank cron s cs)
  unfolding calls
  calls-IsMatched s [] i = i
  calls-IsMatched s (c ∷ cs) i = calls-IsMatched (call is_blank cron s c) cs (call-IsMatched s c i)

-- The entries are those of the tasks: each that is there has a task, and no other task has it.
abbrev pub Corresponds : {J C : Type 0} → Cron J C → Scheduler C → Type 0
Corresponds cron s =
    (j : ℕ)
    → ((cron.has_entry s.cr j ≡ true)
        ↔ ((name : String) × (get String-discrete name s.tasks ≡ some j)))
      × ((a b : String)
          → get String-discrete a s.tasks ≡ some j
          → get String-discrete b s.tasks ≡ some j
          → a ≡ b)

IsMatched-Corresponds :
    {J C : Type 0} (is_blank : String → Bool) (cron : Cron J C) (s : Scheduler C)
    → IsMatched is_blank cron s
    → Corresponds cron s
IsMatched-Corresponds is_blank cron s i j = (
  (
    (λ h. name_of j s.tasks (sym (i.entries j) ∙ h) i.distinct_names),
    (λ (name, held). i.entries j ∙ has_id name j s.tasks held),
  ),
  (λ a b h k. one_name j a b s.tasks h k i.distinct_ids),
)

new_scheduler-IsMatched :
    {J C : Type 0} (is_blank : String → Bool) (cron : Cron J C)
    (options : List (String × TaskOption)) (c : C) (o : Option (Scheduler C))
    → ((j : ℕ) → cron.has_entry c j ≡ false)
    → new_scheduler is_blank options c ≡ o
    → KeepsMatched is_blank cron o
unfolding new_scheduler has_key
new_scheduler-IsMatched is_blank cron options c o empty e =
    subst (KeepsMatched is_blank cron) e (elim (Bool-cases (normal_options is_blank options)) [
      | inl h ↦ rw h (record { entries = empty; distinct_ids = tt; distinct_names = tt })
      | inr h ↦ rw h tt
    ])

-- After any calls of MustAddTask and RemoveTasks on a new scheduler, those that panic included, whose Cron
-- had no entries: the entries of the Cron are those whose ids the scheduler holds, each for one name.
pub entries_correspond :
    {J C : Type 0} (is_blank : String → Bool) (cron : Cron J C)
    (options : List (String × TaskOption)) (c : C) (s : Scheduler C) (cs : List (Call J))
    → ((j : ℕ) → cron.has_entry c j ≡ false)
    → new_scheduler is_blank options c ≡ some s
    → Corresponds cron (calls is_blank cron s cs)
entries_correspond is_blank cron options c s cs empty made =
    IsMatched-Corresponds is_blank cron (calls is_blank cron s cs) (
      calls-IsMatched is_blank cron s cs
        (new_scheduler-IsMatched is_blank cron options c (some s) empty made))
