-- ===== src/Schedule/Slots.antt =====
-- What a round of the dispatcher of scheduled tasks makes of the tasks that it claimed
-- (apps/shaiden/src/schedule/schedule-dispatcher.ts).
use keidai.Common.{
  ℕ, ◌+◌, ◌<◌, String, str_eq, eq_iff, ◌≡◌, refl, sym, subst, ap, ◌∙◌, Bool, true, false, not, ◌&&◌,
  ◌||◌, Option, none, some, List, [], ◌∷◌, map, arith, any, find, leb, Bool-cases, Option-cases,
  inl, inr, if◌then◌else◌, update_where, option_both, option_eq, if_both, if_eq, All, All-update,
  IsDistinct, Elem, map-key_update, find-holds, find-Elem, All-at,
}
use keidai.Schedule.{TaskTrigger}
use keidai.Runs.Ops.{is_none}
use keidai.Schedule.Rows.{
  Task, TaskRow, SavedTask, has_task_id, is_live, is_due_at, is_claimable, row_to_saved_task,
  get_task_row, get_task, update_task_row, due_rows, claim_due_tasks, cleared_row, start_failed_row,
  record_schedule_success, record_schedule_start_failure, defer_schedule_claim,
}
use keidai.Schedule.Dispatcher.{
  Store, StartResult, run_started, already_running, start_threw, running_covers_slot, advance,
  defer, settle_start, start_claimed_task, is_not_due, fire_current_task, fire_claimed_task,
  fire_claimed, fire_due_scheduled_tasks, running_started_at,
}

abbrev pub task_key : TaskRow → String
task_key r = r.id

-- The callback leaves the tasks as they are.
abbrev pub KeepsTasks : (Task → String → Store → StartResult × Store) → Type 0
KeepsTasks start = (task : Task) (id : String) (s : Store) → (start task id s).1.tasks ≡ s.tasks

-- A next run after a time is later than it.
abbrev pub IsStrict : (TaskTrigger → ℕ → Bool → Option (Option ℕ)) → Type 0
IsStrict next =
    (trigger : TaskTrigger) (from at : ℕ) → next trigger from true ≡ some (some at) → from < at

-- A row that keeps a claim until a time, or has no slot that was due at `now`.
abbrev is_set_aside : ℕ → ℕ → TaskRow → Bool
is_set_aside until now r =
    (elim r.schedule_claim_until [ none ↦ false | some t ↦ leb until t ]) || not (is_due_at now r)

-- An update of the row of an id, where no two rows share an id, is an update of the row found.
module _ (P : TaskRow → Type 0) (id : String) (guard : TaskRow → Bool) (f : TaskRow → TaskRow) where
  All-update_absent :
      (rows : List TaskRow)
      → ¬ Elem id (map task_key rows)
      → All P rows
      → All P (update_where (λ r. has_task_id id r && guard r) f rows)
  All-update_absent [] absent h = tt
  All-update_absent (x ∷ xs) absent (p, h) =
      ground (arith, p, eq_iff x.id id, All-update_absent xs (λ m. absent (inr m)) h)

  All-update_found :
      (rows : List TaskRow) (r : TaskRow)
      → IsDistinct (map task_key rows)
      → find (has_task_id id) rows ≡ some r
      → (P r → P (f r))
      → All P rows
      → All P (update_where (λ r. has_task_id id r && guard r) f rows)
  All-update_found [] r d e keep h = tt
  All-update_found (x ∷ xs) r (fresh, d) e keep (p, h) = elim (Bool-cases (has_task_id id x)) [
    | inl t ↦
        let same : x ≡ r = ground (arith, t, e) in
        let p' : P (f x) = subst (λ y. P (f y)) (sym same) (keep (subst P same p)) in
        let rest =
          All-update_absent xs
            (subst (λ k. ¬ Elem k (map task_key xs)) ((eq_iff x.id id).0 t) fresh) h in
        elim (Bool-cases (guard x)) [
          | inl g ↦ ground (arith, t, g, p', rest)
          | inr g ↦ ground (arith, t, g, p, rest)
        ]
    | inr n ↦ ground (arith, n, p, All-update_found xs r d (ground (arith, n, e)) keep h)
  ]

-- The rows that were claimed, by their ids, are set aside; no two rows share an id.
module _ (due : List TaskRow) (until now : ℕ) where
  abbrev IsDone : TaskRow → Type 0
  IsDone r = any (has_task_id r.id) due ≡ true → is_set_aside until now r ≡ true

  record AreDone (rows : List TaskRow) : Type 0 where
    distinct : IsDistinct (map task_key rows)
    done : All IsDone rows

  update-AreDone :
      (id : String) (guard : TaskRow → Bool) (f : TaskRow → TaskRow) (rows : List TaskRow)
      → ((r : TaskRow) → (f r).id ≡ r.id)
      → ((r : TaskRow) → is_set_aside until now (f r) ≡ true)
      → AreDone rows
      → AreDone (update_task_row id guard f rows).1
  unfolding update_task_row
  update-AreDone id guard f rows keep aside h = record {
    distinct =
        subst IsDistinct
          (sym (map-key_update task_key (λ r. has_task_id id r && guard r) f rows keep)) h.distinct;
    done = All-update IsDone (λ r. has_task_id id r && guard r) f rows (λ r _ _ _. aside r) h.done;
  }

  -- The row found is written so that it stays set aside if it was.
  found-AreDone :
      (id : String) (guard : TaskRow → Bool) (f : TaskRow → TaskRow) (rows : List TaskRow)
      (r : TaskRow)
      → ((r : TaskRow) → (f r).id ≡ r.id)
      → find (has_task_id id) rows ≡ some r
      → is_set_aside until now (f r) ≡ true
      → AreDone rows
      → AreDone (update_task_row id guard f rows).1
  unfolding update_task_row
  found-AreDone id guard f rows r keep e aside h = record {
    distinct =
        subst IsDistinct
          (sym (map-key_update task_key (λ r. has_task_id id r && guard r) f rows keep)) h.distinct;
    done = All-update_found IsDone id guard f rows r h.distinct e (λ _ _. aside) h.done;
  }

get_task-row :
    (id : String) (rows : List TaskRow) (saved : SavedTask)
    → get_task id rows ≡ some saved
    → (r : TaskRow) × (get_task_row id rows ≡ some r) × (saved ≡ row_to_saved_task r) × (r.id ≡ id)
unfolding get_task get_task_row
get_task-row id rows saved e = elim (Option-cases (find (has_task_id id) rows)) [
  | inl n ↦ absurd (ground (arith, n, e))
  | inr (r, n) ↦
      (r, n, ground (arith, n, e), (eq_iff r.id id).0 (find-holds (has_task_id id) rows r n))
]

module _ (next_run_at : TaskTrigger → ℕ → Bool → Option (Option ℕ))
    (start_task_run : Task → String → Store → StartResult × Store) (strict : IsStrict next_run_at)
    (keeps : KeepsTasks start_task_run) (claim_ms now : ℕ) (due : List TaskRow) where
  -- A slot that a claimed task may be moved on to.
  abbrev IsNext : Option ℕ → Type 0
  IsNext next = (at : ℕ) → next ≡ some at → now < at

  abbrev Done : Store → Type 0
  Done s = AreDone due (now + claim_ms) now s.tasks

  advance-Done :
      (next : Option ℕ) (current : SavedTask) (s : Store)
      → IsNext next
      → Done s
      → Done (advance next_run_at start_task_run claim_ms now next current s)
  unfolding advance record_schedule_success
  advance-Done next current s later h =
      update-AreDone due (now + claim_ms) now current.id is_live (cleared_row next) s.tasks
        (λ r. refl)
        (λ r. elim (Option-cases next) [
          | inl n ↦ ground (arith, n)
          | inr (at, e) ↦ ground (arith, e, later at e)
        ])
        h

  settle-Done :
      (next : Option ℕ) (current : SavedTask) (result : StartResult) (s : Store)
      → IsNext next
      → Done s
      → Done (settle_start next_run_at start_task_run claim_ms now next current result s).1
  unfolding settle_start record_schedule_start_failure start_failed_row
  settle-Done next current run_started s later h = advance-Done next current s later h
  settle-Done next current already_running s later h = advance-Done next current s later h
  settle-Done next current (start_threw message) s later h =
      update-AreDone due (now + claim_ms) now current.id is_live
        (start_failed_row (now + claim_ms) now message) s.tasks (λ r. refl) (λ r. ground arith) h

  start-Done :
      (next : Option ℕ) (current : SavedTask) (s : Store)
      → IsNext next
      → Done s
      → Done (start_claimed_task next_run_at start_task_run claim_ms now next current s).1
  unfolding start_claimed_task
  start-Done next current s later h =
      let (result, s') = start_task_run current.task current.id s in
      settle-Done next current result s' later
        (subst (AreDone due (now + claim_ms) now) (sym (keeps current.task current.id s)) h)

  defer-Done :
      (current : SavedTask) (s : Store)
      → Done s
      → Done (defer next_run_at start_task_run claim_ms now current (some (now + claim_ms)) s)
  unfolding defer defer_schedule_claim
  defer-Done current s h =
      update-AreDone due (now + claim_ms) now current.id is_live
        (λ r. record r { schedule_claim_until = some (now + claim_ms) }) s.tasks (λ r. refl)
        (λ r. ground arith) h

  -- A claim is only dropped from the row of a slot that is not due.
  drop-Done :
      (r : TaskRow) (s : Store)
      → get_task_row r.id s.tasks ≡ some r
      → is_not_due next_run_at start_task_run claim_ms now r.next_run_at ≡ true
      → Done s
      → Done (defer next_run_at start_task_run claim_ms now (row_to_saved_task r) none s)
  unfolding defer defer_schedule_claim get_task_row row_to_saved_task
  drop-Done r s found idle h =
      found-AreDone due (now + claim_ms) now r.id is_live
        (λ r. record r { schedule_claim_until = none }) s.tasks r (λ r. refl) found
        (elim (Option-cases r.next_run_at) [
          | inl n ↦ ground (arith, n)
          | inr (at, e) ↦ ground (arith, e, idle)
        ])
        h

  current-Done :
      (r : TaskRow) (running : Option ℕ) (s : Store)
      → get_task_row r.id s.tasks ≡ some r
      → Done s
      → Done
          (fire_current_task next_run_at start_task_run claim_ms now
            (row_to_saved_task r)
            running
            s).1
  unfolding fire_current_task row_to_saved_task
  current-Done r running s found h =
      let P : Option Bool × Store → Type 0 = λ x. Done x.1 in
      let not_due = is_not_due next_run_at start_task_run claim_ms now r.next_run_at in
      let current = row_to_saved_task r in
      if_both P (not (is_none current.archived_at) || not (is_none current.schedule_failed_at)) _ _
        h
        (if_eq P not_due _ _ (λ idle. drop-Done r s found idle h)
          (λ _. option_eq P (next_run_at r.task.trigger now true) _ _ h (λ next e.
            let later : IsNext next =
              λ at n. strict r.task.trigger now at (e ∙ ap (λ x. some x) n) in
            option_both P running _ _ (start-Done next current s later h) (λ started.
              if_both P (running_covers_slot started current.next_run_at) _ _
                (advance-Done next current s later h) (defer-Done current s h)))))

  claimed-Done :
      (id : String) (running : Option ℕ) (s : Store)
      → Done s
      → Done (fire_claimed_task next_run_at start_task_run claim_ms now id running s).1
  unfolding fire_claimed_task get_task
  claimed-Done id running s h =
      option_eq (λ (x : Option Bool × Store). Done x.1) (get_task id s.tasks) _ _ h
        (λ current e.
          let (r, found, same, own) = get_task-row id s.tasks current e in
          subst
            (λ c. Done (fire_current_task next_run_at start_task_run claim_ms now c running s).1)
            (sym same)
            (current-Done r running s (subst (λ k. get_task_row k s.tasks ≡ some r) (sym own) found)
              h))

  loop-Done :
      (todo : List SavedTask) (running : String → Option ℕ) (started : ℕ) (s : Store)
      → Done s
      → Done (fire_claimed next_run_at start_task_run claim_ms now todo running started s).1
  unfolding fire_claimed
  loop-Done [] running started s h = h
  loop-Done (saved ∷ todo) running started s h =
      let result =
        fire_claimed_task next_run_at start_task_run claim_ms now saved.id (running saved.id) s in
      let h1 = claimed-Done saved.id (running saved.id) s h in
      option_both (λ (x : Option ℕ × Store). Done x.1) result.0 _ _ h1
        (λ fired.
          loop-Done todo
            (if fired then (λ id. if str_eq saved.id id then some now else running id) else running)
            (if fired then started + 1 else started) result.1 h1)

-- What the claim itself writes.
claim-AreDone :
    (due : List TaskRow) (until now : ℕ) (rows : List TaskRow)
    → IsDistinct (map task_key rows)
    → AreDone due until now (
        update_where
          (λ r. any (has_task_id r.id) due)
          (λ r. record r { schedule_claim_until = some until })
          rows)
claim-AreDone due until now rows d = record {
  distinct =
      subst IsDistinct
        (sym (
          map-key_update task_key (λ r. any (has_task_id r.id) due)
            (λ r. record r { schedule_claim_until = some until }) rows (λ r. refl)))
        d;
  done = claimed_rows rows;
}
  where
    claimed_rows :
        (rows : List TaskRow)
        → All (IsDone due until now) (
            update_where
              (λ r. any (has_task_id r.id) due)
              (λ r. record r { schedule_claim_until = some until })
              rows)
    claimed_rows [] = tt
    claimed_rows (r ∷ rs) = elim (Bool-cases (any (has_task_id r.id) due)) [
      | inl e ↦ ground (arith, e, claimed_rows rs)
      | inr e ↦ ground (arith, e, claimed_rows rs)
    ]

later_slot :
    {until now : ℕ} (r : TaskRow) (at later : ℕ)
    → r.next_run_at ≡ some at
    → is_set_aside until now r ≡ true
    → is_claimable later r ≡ true
    → later < until
    → now < at
unfolding is_claimable
later_slot r at later e aside free early = ground (arith, e, aside, free)

-- Where no two tasks share an id, the callback leaves the tasks alone, and a next run after a time is
-- later than it: a task that a round claims is not claimed again before the claim's time has passed,
-- unless for a slot that lies after the round.
pub fire_due_scheduled_tasks-once :
    (next_run_at : TaskTrigger → ℕ → Bool → Option (Option ℕ))
    (start_task_run : Task → String → Store → StartResult × Store)
    (id_before : String → String → Bool) (claim_ms now limit : ℕ) (locked : TaskRow → Bool)
    (s : Store) (later : ℕ) (r : TaskRow)
    → IsStrict next_run_at
    → KeepsTasks start_task_run
    → IsDistinct (map task_key s.tasks)
    → any (has_task_id r.id) (due_rows id_before now limit locked s.tasks) ≡ true
    → get_task_row r.id
        (fire_due_scheduled_tasks next_run_at start_task_run claim_ms now id_before limit locked
          s).1.tasks
      ≡ some r
    → is_claimable later r ≡ true
    → later < now + claim_ms
    → (at : ℕ) × (r.next_run_at ≡ some at) × (now < at)
unfolding fire_due_scheduled_tasks claim_due_tasks get_task_row is_claimable
fire_due_scheduled_tasks-once next_run_at start_task_run id_before claim_ms now limit locked s later
      r strict keeps distinct claimed found free early =
    let due = due_rows id_before now limit locked s.tasks in
    let h =
      loop-Done next_run_at start_task_run strict keeps claim_ms now due (map row_to_saved_task due)
        (λ id. running_started_at id s.runs.runs) 0
        (record s {
          tasks =
              update_where (λ r. any (has_task_id r.id) due)
                (λ r. record r { schedule_claim_until = some (now + claim_ms) }) s.tasks;
        })
        (claim-AreDone due (now + claim_ms) now s.tasks distinct) in
    let rows =
      (fire_due_scheduled_tasks next_run_at start_task_run claim_ms now id_before limit locked
        s).1.tasks in
    let aside =
      All-at (IsDone due (now + claim_ms) now) r rows h.done
        (find-Elem (has_task_id r.id) rows r found) claimed in
    elim (Option-cases r.next_run_at) [
      | inl n ↦ absurd (ground (arith, n, free))
      | inr (at, e) ↦ (at, e, later_slot r at later e aside free early)
    ]
