-- ===== src/Schedule/Dispatcher.antt =====
-- The dispatcher of scheduled tasks: apps/shaiden/src/schedule/schedule-dispatcher.ts. `next_run_at`
-- is nextRunAt of packages/shared/src/next-run-at.ts, which throws (`none`) on what it cannot read, and `start_task_run` the callback of that name,
-- which may change the store.
use keidai.Common.{
  ℕ, ◌+◌, ◌-◌, min, max, String, str_eq, Bool, true, false, not, ◌||◌, Option, none, some, List, [],
  ◌∷◌, if◌then◌else◌, ltb, leb,
}
use keidai.Runs.{RunRow, RunTables, runs_task}
use keidai.Runs.Ops.{is_none}
use keidai.Schedule.{TaskTrigger}
use keidai.Schedule.Rows.{
  Task, TaskRow, SavedTask, get_task, claim_due_tasks, record_schedule_success,
  record_schedule_start_failure, defer_schedule_claim, peek_min_next_run_at,
}

abbrev pub default_schedule_max_sleep_ms : ℕ
default_schedule_max_sleep_ms = 30000

abbrev pub default_schedule_claim_ms : ℕ
default_schedule_claim_ms = 30000

abbrev pub default_schedule_due_wake_ms : ℕ
default_schedule_due_wake_ms = 50

abbrev pub default_schedule_claim_limit : ℕ
default_schedule_claim_limit = 10

unfoldable pub schedule_sleep_ms : Option ℕ → ℕ → ℕ → ℕ → ℕ
schedule_sleep_ms none now max_sleep due_wake = max_sleep
schedule_sleep_ms (some at) now max_sleep due_wake =
    if leb at now then due_wake else min (at - now) max_sleep

-- A slot that is missing is covered.
abbrev pub running_covers_slot : ℕ → Option ℕ → Bool
running_covers_slot started none = true
running_covers_slot started (some slot) = leb slot started

-- The store that the dispatcher and the callback share.
pub record Store : Type 0 where
  pub tasks : List TaskRow
  pub runs : RunTables

pub data StartResult : Type 0 where
  run_started : StartResult
  already_running : StartResult
  start_threw : String → StartResult

-- The start of the running run of a task: the last in the order of listRunningRuns.
unfoldable pub running_started_at : String → List RunRow → Option ℕ
running_started_at task_id [] = none
running_started_at task_id (r ∷ rs) =
    let rest = running_started_at task_id rs in
    if runs_task task_id r
    then some (elim rest [ none ↦ r.started_at | some at ↦ max r.started_at at ])
    else rest

module _ (next_run_at : TaskTrigger → ℕ → Bool → Option (Option ℕ))
    (start_task_run : Task → String → Store → StartResult × Store) (claim_ms now : ℕ) where
  -- `next` is `nextAfterFire`.
  unfoldable pub advance : Option ℕ → SavedTask → Store → Store
  unfolding record_schedule_success
  advance next current s = record s { tasks = (record_schedule_success current.id next s.tasks).1 }

  unfoldable pub defer : SavedTask → Option ℕ → Store → Store
  unfolding defer_schedule_claim
  defer current until s = record s { tasks = (defer_schedule_claim current.id until s.tasks).1 }

  -- What the code does after the call of startTaskRun, by how the call ended.
  unfoldable pub settle_start : Option ℕ → SavedTask → StartResult → Store → Bool × Store
  unfolding advance record_schedule_start_failure
  settle_start next current run_started s = (true, advance next current s)
  settle_start next current already_running s = (false, advance next current s)
  settle_start next current (start_threw message) s = (
    false,
    record s {
      tasks = (record_schedule_start_failure current.id (now + claim_ms) now message s.tasks).1;
    },
  )

  unfoldable pub start_claimed_task : Option ℕ → SavedTask → Store → Bool × Store
  unfolding settle_start
  start_claimed_task next current s =
      let (result, s') = start_task_run current.task current.id s in
      settle_start next current result s'

  -- `!current.nextRunAt || Date.parse(current.nextRunAt) > now`
  abbrev pub is_not_due : Option ℕ → Bool
  is_not_due none = true
  is_not_due (some at) = ltb now at

  -- Whether a run was started; `none` is an exception.
  unfoldable pub fire_current_task : SavedTask → Option ℕ → Store → Option Bool × Store
  unfolding advance defer start_claimed_task
  fire_current_task current running s =
      if not (is_none current.archived_at) || not (is_none current.schedule_failed_at)
      then (some false, s)
      else if is_not_due current.next_run_at
      then (some false, defer current none s)
      else elim (next_run_at current.task.trigger now true) [
        | none ↦ (none, s)
        | some next ↦ elim running [
          | none ↦ let (fired, s') = start_claimed_task next current s in (some fired, s')
          | some started ↦
              if running_covers_slot started current.next_run_at
              then (some false, advance next current s)
              else (some false, defer current (some (now + claim_ms)) s)
        ]
      ]

  unfoldable pub fire_claimed_task : String → Option ℕ → Store → Option Bool × Store
  unfolding fire_current_task get_task
  fire_claimed_task id running s = elim (get_task id s.tasks) [
    | none ↦ (some false, s)
    | some current ↦ fire_current_task current running s
  ]

  -- The loop over the claimed tasks, which an exception ends. `running` is the map `runningByTaskId`, from ids to starts.
  unfoldable pub fire_claimed : List SavedTask → (String → Option ℕ) → ℕ → Store → Option ℕ × Store
  unfolding fire_claimed_task
  fire_claimed [] running started s = (some started, s)
  fire_claimed (saved ∷ due) running started s =
      let result = fire_claimed_task saved.id (running saved.id) s in
      elim result.0 [
        | none ↦ (none, result.1)
        | some fired ↦
            fire_claimed due
              (if fired
                then (λ id. if str_eq saved.id id then some now else running id)
                else running)
              (if fired then started + 1 else started) result.1
      ]

  module _ (id_before : String → String → Bool) (limit : ℕ) (locked : TaskRow → Bool) where
    unfoldable pub fire_due_scheduled_tasks : Store → Option ℕ × Store
    unfolding claim_due_tasks running_started_at fire_claimed
    fire_due_scheduled_tasks s =
        let claim = claim_due_tasks id_before now (now + claim_ms) limit locked s.tasks in
        fire_claimed claim.0 (λ id. running_started_at id s.runs.runs) 0
          (record s { tasks = claim.1 })

    -- A round of the dispatcher's loop: the sleep that it takes, by the clock `then_now` after the
    -- round. After an exception it is the longest.
    unfoldable pub dispatcher_round : ℕ → ℕ → ℕ → Store → ℕ × Store
    unfolding fire_due_scheduled_tasks peek_min_next_run_at schedule_sleep_ms
    dispatcher_round then_now max_sleep due_wake s =
        let (fired, s') = fire_due_scheduled_tasks s in
        (
          elim fired [
            | none ↦ max_sleep
            | some _ ↦ schedule_sleep_ms (peek_min_next_run_at s'.tasks) then_now max_sleep due_wake
          ],
          s',
        )
