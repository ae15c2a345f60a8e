-- ===== src/Cron/Tests.antt =====
-- The theorem on schedulers at a Cron that numbers its entries.
use Prim.Native.String.{String}
use b_go_util.Base.{
  ℕ, suc, Bool, true, false, not, ◌&&◌, ◌||◌, ◌==◌, ◌≡◌, refl, arith, Option, some, List, [], ◌∷◌,
  ℕ_discrete, has_key, del_key, has_key-del_key, ltb, same, String-discrete,
}
use b_go_util.Cron.{
  TaskOption, Cron, Scheduler, normal_options, new_scheduler, Call, adds, removes, calls,
}
use b_go_util.Cron.Entries.{Corresponds, entries_correspond}

record Numbered : Type 0 where
  next : ℕ
  live : List ℕ

abbrev has : Numbered → ℕ → Bool
has c j = ltb j c.next && has_key ℕ_discrete j c.live

abbrev add : Numbered → Option (Numbered × ℕ)
add c = some (record { next = suc c.next; live = c.next ∷ c.live }, c.next)

abbrev remove_id : Numbered → ℕ → Numbered
remove_id c id = record c { live = del_key ℕ_discrete id c.live }

fresh : (c c' : Numbered) (id : ℕ) → add c ≡ some (c', id) → has c id ≡ false
fresh c c' id e = ground arith

added : (c c' : Numbered) (id j : ℕ) → add c ≡ some (c', id) → has c' j ≡ ((j == id) || has c j)
unfolding has_key
added c c' id j e = ground arith

removed : (c : Numbered) (id j : ℕ) → has (remove_id c id) j ≡ (not (j == id) && has c j)
removed c id j = ground (arith, has_key-del_key ℕ_discrete id j c.live)

abbrev numbering : Cron ℕ Numbered
numbering = record {
  has_entry = has;
  add_job = λ c _ _. add c;
  remove = remove_id;
  fresh_entry = λ c c' _ _ id e. fresh c c' id e;
  added_entry = λ c c' _ _ id j e. added c c' id j e;
  removed_entry = removed;
}

abbrev hourly : TaskOption
hourly = record {
  cron = "0 * * * *";
  enable_recover = true;
  skip_if_still_running = true;
  delay_if_still_running = false;
}

abbrev two_options : List (String × TaskOption)
two_options = ("a", hourly) ∷ ("b", hourly) ∷ []

abbrev no_entries : Numbered
no_entries = record { next = 1; live = [] }

-- Texts of no characters.
abbrev no_text : String → Bool
no_text t = same String-discrete t ""

abbrev fresh_scheduler : Scheduler Numbered
fresh_scheduler = record { options = two_options; cr = no_entries; tasks = [] }

fresh_scheduler_test : new_scheduler no_text two_options no_entries ≡ some fresh_scheduler
unfolding new_scheduler normal_options String-discrete
fresh_scheduler_test = refl

none_yet : (j : ℕ) → has no_entries j ≡ false
unfolding has_key
none_yet j = ground arith

-- The second task "a" panics, and so does "c", which has no option.
abbrev some_calls : List (Call ℕ)
some_calls =
    adds "a" (some 1)
    ∷ adds "b" (some 2)
    ∷ adds "a" (some 3)
    ∷ adds "c" (some 4)
    ∷ removes ("a" ∷ [])
    ∷ []

entries_correspond_example :
    Corresponds numbering (calls no_text numbering fresh_scheduler some_calls)
entries_correspond_example =
    entries_correspond no_text numbering two_options no_entries fresh_scheduler some_calls none_yet
      fresh_scheduler_test
