-- ===== src/Schedule/Sleep.antt =====
-- How long the dispatcher of scheduled tasks sleeps
-- (apps/shaiden/src/schedule/schedule-dispatcher.ts), against the tasks that can be claimed
-- (apps/shaiden/src/tasks/pg-task-repository.ts).
use keidai.Common.{
  ℕ, zero, suc, ◌+◌, ◌≤◌, ◌<◌, max, String, ◌≡◌, ◌⊎◌, refl, ap, subst, ◌∙◌, sym, Bool, true, false,
  not, ◌&&◌, Option, none, some, List, [], ◌∷◌, map, arith, any, filter, Option-cases, inl, inr,
  leb,
}
use keidai.Schedule.{TaskTrigger}
use keidai.Schedule.Rows.{
  Task, TaskRow, is_claimable, insert_row, order_rows, limit_rows, due_rows, claim_due_tasks,
  row_to_saved_task, is_earlier, earlier_of, peek_min_next_run_at,
}
use keidai.Schedule.Dispatcher.{
  Store, StartResult, schedule_sleep_ms, fire_due_scheduled_tasks, dispatcher_round,
}

-- The time that the peek returns has come.
abbrev pub has_come : Option ℕ → ℕ → Bool
has_come none now = false
has_come (some at) now = leb at now

any-ext : {A : Type 0} (p q : A → Bool) (xs : List A) → ((x : A) → p x ≡ q x) → any p xs ≡ any q xs
any-ext p q [] h = refl
any-ext p q (x ∷ xs) h = ground (arith, h x, any-ext p q xs h)

-- The peek's time has come exactly when some row can be claimed.
peek-claimable :
    (now : ℕ) (rows : List TaskRow)
    → has_come (peek_min_next_run_at rows) now ≡ any (is_claimable now) rows
unfolding is_claimable peek_min_next_run_at earlier_of
peek-claimable now [] = refl
peek-claimable now (r ∷ rs) = elim (Option-cases (peek_min_next_run_at rs)) [
  | inl n ↦ ground (arith, n, peek-claimable now rs)
  | inr (t, n) ↦ ground (arith, n, peek-claimable now rs)
]

abbrev pub is_empty {ℓ} : {A : Type ℓ} → List A → Bool
is_empty [] = true
is_empty (x ∷ xs) = false

module _ (id_before : String → String → Bool) where
  order-empty :
      (rows : List TaskRow) → is_empty (order_rows (is_earlier id_before) rows) ≡ is_empty rows
  unfolding order_rows insert_row
  order-empty [] = refl
  order-empty (r ∷ rs) =
      elim (order_rows (is_earlier id_before) rs)
        as (λ xs. is_empty (insert_row (is_earlier id_before) r xs) ≡ false) [
          | [] ↦ refl
          | x ∷ xs ↦ ground arith
        ]

  limit-empty : (n : ℕ) (rows : List TaskRow) → is_empty (limit_rows (suc n) rows) ≡ is_empty rows
  unfolding limit_rows
  limit-empty n [] = refl
  limit-empty n (r ∷ rs) = refl

  filter-empty :
      (p : TaskRow → Bool) (rows : List TaskRow) → is_empty (filter p rows) ≡ not (any p rows)
  filter-empty p [] = refl
  filter-empty p (r ∷ rs) = ground (arith, filter-empty p rs)

  map-empty : {A B : Type 0} (f : A → B) (xs : List A) → is_empty (map f xs) ≡ is_empty xs
  map-empty f [] = refl
  map-empty f (x ∷ xs) = refl

  -- Where no row is locked, a claim at a time, of one task or more, returns a task exactly when the time
  -- that the peek returns has come.
  pub claim-peek :
      (now until limit : ℕ) (rows : List TaskRow)
      → 0 < limit
      → not (is_empty (claim_due_tasks id_before now until limit (λ _. false) rows).0)
        ≡ has_come (peek_min_next_run_at rows) now
  unfolding claim_due_tasks due_rows
  claim-peek now until zero rows pos = absurd (omega arith)
  claim-peek now until (suc n) rows pos =
      let waits : TaskRow → Bool = λ r. is_claimable now r && not false in
      ap not (
        map-empty row_to_saved_task
          (limit_rows (suc n) (order_rows (is_earlier id_before) (filter waits rows)))
        ∙ limit-empty n (order_rows (is_earlier id_before) (filter waits rows))
        ∙ order-empty (filter waits rows)
        ∙ filter-empty waits rows)
      ∙ ground (
        arith,
        any-ext waits (is_claimable now) rows (λ r. ground arith),
        peek-claimable now rows,
      )

pub schedule_sleep_ms_bounds :
    (peek : Option ℕ) (now max_sleep due_wake : ℕ)
    → 0 < max_sleep
    → 0 < due_wake
    → let delay = schedule_sleep_ms peek now max_sleep due_wake in
      (0 < delay) × (delay ≤ max max_sleep due_wake)
unfolding schedule_sleep_ms
schedule_sleep_ms_bounds none now max_sleep due_wake h k = ground arith
schedule_sleep_ms_bounds (some at) now max_sleep due_wake h k = ground arith

sleep-has_come :
    (peek : Option ℕ) (now max_sleep due_wake later : ℕ)
    → has_come peek later ≡ true
    → now + schedule_sleep_ms peek now max_sleep due_wake ≤ max later (now + due_wake)
unfolding schedule_sleep_ms
sleep-has_come none now max_sleep due_wake later h = cc
sleep-has_come (some at) now max_sleep due_wake later h = ground arith

module _ (next_run_at : TaskTrigger → ℕ → Bool → Option (Option ℕ))
    (start_task_run : Task → String → Store → StartResult × Store)
    (id_before : String → String → Bool) where
  -- If, after a round of the dispatcher and with nothing else changing the tasks, a claim of one task or
  -- more at some time would return a task, then the sleep that the round takes, by the clock `then_now`,
  -- is over by that time, or within `due_wake` of the round, unless the round ended by an exception of
  -- nextRunAt. When `max_sleep` and `due_wake` are positive, so is the sleep, and it is no longer than the
  -- longer of the two.
  pub dispatcher_round-punctual :
      (claim_ms now limit : ℕ) (locked : TaskRow → Bool) (then_now max_sleep due_wake : ℕ)
      (s : Store) (later until size : ℕ)
      → 0 < max_sleep
      → 0 < due_wake
      → 0 < size
      → not (
          is_empty
            (claim_due_tasks id_before later until size
              (λ _. false)
              (dispatcher_round next_run_at start_task_run claim_ms now id_before limit locked
                then_now max_sleep due_wake s).1.tasks).0)
        ≡ true
      → let delay =
          (dispatcher_round next_run_at start_task_run claim_ms now id_before limit locked then_now
            max_sleep due_wake s).0 in
        (0 < delay)
        × (delay ≤ max max_sleep due_wake)
        × (((fire_due_scheduled_tasks next_run_at start_task_run claim_ms now id_before limit locked
                s).0
              ≡ none)
            ⊎ (then_now + delay ≤ max later (then_now + due_wake)))
  unfolding dispatcher_round
  dispatcher_round-punctual claim_ms now limit locked then_now max_sleep due_wake s later until size
        h k pos e =
      let round =
        fire_due_scheduled_tasks next_run_at start_task_run claim_ms now id_before limit locked s in
      let s' = round.1 in
      let peek = peek_min_next_run_at s'.tasks in
      let Punctual : ℕ → Type 0 = λ delay.
        (0 < delay)
        × (delay ≤ max max_sleep due_wake)
        × ((round.0 ≡ none) ⊎ (then_now + delay ≤ max later (then_now + due_wake))) in
      let delay_of : Option ℕ → ℕ = λ o. elim o [
        | none ↦ max_sleep
        | some _ ↦ schedule_sleep_ms peek then_now max_sleep due_wake
      ] in
      let (positive, bounded) = schedule_sleep_ms_bounds peek then_now max_sleep due_wake h k in
      let come = sym (claim-peek id_before later until size s'.tasks pos) ∙ e in
      elim (Option-cases round.0) [
        | inl n ↦ subst (λ o. Punctual (delay_of o)) (sym n) (h, omega arith, inl n)
        | inr (count, n) ↦
            subst (λ o. Punctual (delay_of o)) (sym n)
              (positive, bounded, inr (sleep-has_come peek then_now max_sleep due_wake later come))
      ]
