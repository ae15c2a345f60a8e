-- ===== src/Ticker/Batches.antt =====
-- The batches of the executor of async/ticker.go, and the tasks that wait.
use mathlib.Core.List.{append-nil, append_assoc}
use b_go_util.Base.{
  ℤ, ◌≡◌, refl, sym, ◌∙◌, inl, inr, Option-cases, Bool-cases, true_and_false, ap, Bool, true, false,
  some, List, [], ◌∷◌, ◌++◌, arith,
}
use b_go_util.Ticker.{TickerOption, close_ticker}
use b_go_util.Ticker.Executor.{
  TickerExecutor, Event, add, invoke_now, close, time_event, receive, new_executor, hand_over,
  invoke, close_executor, add_tasks, receive_tick, serve, run,
}

module _ {ℓ} {A : Type ℓ} where
  -- The tasks that are added before the close, in order.
  abbrev pub accepted : Bool → List (Event A) → List A
  accepted true evs = []
  accepted false [] = []
  accepted false (add _ new _ ∷ evs) = new ++ accepted false evs
  accepted false (close ∷ evs) = []
  accepted false (invoke_now ∷ evs) = accepted false evs
  accepted false (time_event _ ∷ evs) = accepted false evs
  accepted false (receive ∷ evs) = accepted false evs

  abbrev pub batched : List (List A) → List A
  batched [] = []
  batched (b ∷ bs) = b ++ batched bs

  batched-append : (bs cs : List (List A)) → batched (bs ++ cs) ≡ batched bs ++ batched cs
  batched-append [] cs = refl
  batched-append (b ∷ bs) cs = rw (batched-append bs cs) (sym (append_assoc b _ _))

  hand_over_lem :
      (ts : List A) (e : TickerExecutor A)
      → e.tasks ≡ ts
      → (batched (hand_over ts e).1 ++ (hand_over ts e).0.tasks ≡ ts)
        × ((hand_over ts e).0.is_closed ≡ e.is_closed)
        × ((hand_over ts e).0.tasks ≡ [])
  unfolding hand_over
  hand_over_lem [] e h = (h, refl, h)
  hand_over_lem (x ∷ xs) e h = (simp append-nil, refl, refl)

  invoke_lem :
      (e : TickerExecutor A)
      → (batched (invoke e).1 ++ (invoke e).0.tasks ≡ e.tasks)
        × ((invoke e).0.is_closed ≡ e.is_closed)
        × ((invoke e).0.tasks ≡ [])
  unfolding invoke
  invoke_lem e = hand_over_lem e.tasks e refl

  -- What one event adds to the tasks that wait.
  abbrev taken : Bool → Event A → List A
  taken true ev = []
  taken false (add _ new _) = new
  taken false close = []
  taken false invoke_now = []
  taken false (time_event _) = []
  taken false receive = []

  abbrev shut : Bool → Event A → Bool
  shut true ev = true
  shut false close = true
  shut false (add _ _ _) = false
  shut false invoke_now = false
  shut false (time_event _) = false
  shut false receive = false

  accepted-shut :
      (b : Bool) (ev : Event A) (evs : List (Event A))
      → accepted b (ev ∷ evs) ≡ taken b ev ++ accepted (shut b ev) evs
  accepted-shut true ev evs = refl
  accepted-shut false (add _ new _) evs = refl
  accepted-shut false close evs = refl
  accepted-shut false invoke_now evs = refl
  accepted-shut false (time_event _) evs = refl
  accepted-shut false receive evs = refl

  taken-true : (ev : Event A) → (taken true ev ≡ []) × (shut true ev ≡ true)
  taken-true ev = (refl, refl)

  abbrev Kept : TickerExecutor A → List (List A) → TickerExecutor A → List A → Bool → Type ℓ
  Kept e' batch e new b = (batched batch ++ e'.tasks ≡ e.tasks ++ new) × (e'.is_closed ≡ b)

  Kept-invoke :
      (e e' : TickerExecutor A)
      → e'.tasks ≡ e.tasks
      → Kept (invoke e').0 (invoke e').1 e [] e'.is_closed
  Kept-invoke e e' h = ((invoke_lem e').0 ∙ h ∙ sym (append-nil _), (invoke_lem e').1)

  receive_tick-Kept :
      (e : TickerExecutor A) → Kept (receive_tick e).0 (receive_tick e).1 e [] e.is_closed
  unfolding receive_tick
  receive_tick-Kept e = elim (Option-cases e.ticker.tick_stream) [
    | inl h ↦ rw h (sym (append-nil _), refl)
    | inr (t, h) ↦ rw h (Kept-invoke e _ refl)
  ]

  serve-taken :
      (e : TickerExecutor A) (ev : Event A) (b : Bool)
      → e.is_closed ≡ b
      → Kept (serve e ev).0 (serve e ev).1 e (taken b ev) (shut b ev)
  unfolding serve add_tasks close_executor receive_tick
  serve-taken e (add n new now) true h = rw h (sym (append-nil _), refl)
  serve-taken e (add n new now) false h = rw h (refl, refl)
  serve-taken e invoke_now true h = rw (sym h) (Kept-invoke e e refl)
  serve-taken e invoke_now false h = rw (sym h) (Kept-invoke e e refl)
  serve-taken e close true h = rw h (sym (append-nil _), refl)
  serve-taken e close false h = rw h (Kept-invoke e _ refl)
  serve-taken e (time_event now) true h = (sym (append-nil _), h)
  serve-taken e (time_event now) false h = (sym (append-nil _), h)
  serve-taken e receive true h = rw (sym h) (receive_tick-Kept e)
  serve-taken e receive false h = rw (sym h) (receive_tick-Kept e)

  run-accepted :
      (e : TickerExecutor A) (evs : List (Event A))
      → batched (run e evs).1 ++ (run e evs).0.tasks ≡ e.tasks ++ accepted e.is_closed evs
  unfolding run
  run-accepted e [] = run_nothing e.is_closed
    where
      run_nothing : (b : Bool) → e.tasks ≡ e.tasks ++ accepted b []
      run_nothing true = sym (append-nil _)
      run_nothing false = sym (append-nil _)
  run-accepted e (ev ∷ evs) =
      let (kept, shuts) = serve-taken e ev e.is_closed refl in
      let rest = run-accepted (serve e ev).0 evs in
      rw
        (
          batched-append (serve e ev).1 (run (serve e ev).0 evs).1,
          append_assoc (batched (serve e ev).1) (batched (run (serve e ev).0 evs).1)
              (run (serve e ev).0 evs).0.tasks,
          rest,
          sym (
              append_assoc (batched (serve e ev).1) (serve e ev).0.tasks
                (accepted (serve e ev).0.is_closed evs)),
          kept,
          shuts,
          accepted-shut e.is_closed ev evs,
          append_assoc e.tasks (taken e.is_closed ev) (accepted (shut e.is_closed ev) evs),
        )
        refl

  -- A closed executor has no task that waits.
  abbrev Idle : TickerExecutor A → Type ℓ
  Idle e = (e.is_closed ≡ true) × (e.tasks ≡ [])

  serve-Idle : (e : TickerExecutor A) (ev : Event A) → Idle e → Idle (serve e ev).0
  unfolding serve add_tasks close_executor receive_tick invoke hand_over
  serve-Idle e (add n new now) (c, t) = rw c (refl, t)
  serve-Idle e invoke_now (c, t) = rw t (c, refl)
  serve-Idle e close (c, t) = rw c (refl, t)
  serve-Idle e (time_event now) h = h
  serve-Idle e receive (c, t) = elim (Option-cases e.ticker.tick_stream) [
    | inl h ↦ rw h (c, t)
    | inr (_, h) ↦ rw (h, t) (c, refl)
  ]

  run-Idle : (e : TickerExecutor A) (evs : List (Event A)) → Idle e → Idle (run e evs).0
  unfolding run
  run-Idle e [] h = h
  run-Idle e (ev ∷ evs) h = run-Idle (serve e ev).0 evs (serve-Idle e ev h)

  close-Idle : (e : TickerExecutor A) → (e.is_closed ≡ true → e.tasks ≡ []) → Idle (serve e close).0
  unfolding serve close_executor
  close-Idle e h = elim (Bool-cases e.is_closed) [
    | inl c ↦ rw c (refl, h c)
    | inr c ↦
        let r = invoke_lem (record e { is_closed = true; ticker = close_ticker e.ticker }) in
        rw c (r.1, r.2)
  ]

  serve_closes :
      (e : TickerExecutor A) (ev : Event A)
      → e.is_closed ≡ false
      → (serve e ev).0.is_closed ≡ true
      → (serve e ev).0.tasks ≡ []
  unfolding serve invoke
  serve_closes e close was c = (close-Idle e (λ h. absurd (true_and_false h was))).1
  serve_closes e (add n new now) was c =
      absurd (true_and_false c (serve-taken e (add n new now) false was).1)
  serve_closes e invoke_now was c = (invoke_lem e).2
  serve_closes e (time_event now) was c = absurd (true_and_false c was)
  serve_closes e receive was c = absurd (true_and_false c (serve-taken e receive false was).1)

  -- After a close nothing waits, if nothing waits in a closed executor before it.
  run-close-Idle :
      (e : TickerExecutor A) (evs later : List (Event A))
      → (e.is_closed ≡ true → e.tasks ≡ [])
      → Idle (run e (evs ++ close ∷ later)).0
  unfolding run
  run-close-Idle e [] later h = run-Idle (serve e close).0 later (close-Idle e h)
  run-close-Idle e (ev ∷ evs) later h =
      run-close-Idle (serve e ev).0 evs later (serve_closed e ev h)
    where
      serve_closed :
          (e : TickerExecutor A) (ev : Event A)
          → (e.is_closed ≡ true → e.tasks ≡ [])
          → (serve e ev).0.is_closed ≡ true
          → (serve e ev).0.tasks ≡ []
      serve_closed e ev h c = elim (Bool-cases e.is_closed) [
        | inl was ↦ (serve-Idle e ev (was, h was)).1
        | inr was ↦ serve_closes e ev was c
      ]

  new_executor-fresh :
      (option : TickerOption) (now : ℤ) (e : TickerExecutor A)
      → new_executor option now ≡ some e
      → (e.is_closed ≡ false) × (e.tasks ≡ [])
  unfolding new_executor
  new_executor-fresh option now e h = ground arith

  -- For a valid option NewTickerExecutor gives an executor, of which every sequence of events
  -- keeps each task that is added before the close, once and in order: handed over or waiting. After
  -- the close all of them are handed over.
  pub hands_over_all :
      (option : TickerOption) (now : ℤ) (e : TickerExecutor A) (evs later : List (Event A))
      → new_executor option now ≡ some e
      → (batched (run e evs).1 ++ (run e evs).0.tasks ≡ accepted false evs)
        × (batched (run e (evs ++ close ∷ later)).1 ≡ accepted false (evs ++ close ∷ later))
  hands_over_all option now e evs later h =
      let (open_yet, none_yet) = new_executor-fresh option now e h in
      let idle = run-close-Idle e evs later (λ _. none_yet) in
      let total : (later : List (Event A))
          → batched (run e later).1 ++ (run e later).0.tasks ≡ accepted false later =
        λ later. rw (run-accepted e later, none_yet, open_yet) refl in
      (
        total evs,
        sym (append-nil _)
            ∙ ap (λ t. batched (run e (evs ++ close ∷ later)).1 ++ t) (sym idle.1)
            ∙ total (evs ++ close ∷ later),
      )
