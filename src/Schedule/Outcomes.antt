-- ===== src/Schedule/Outcomes.antt =====
-- What becomes of one due slot of a schedule (fireClaimedTask of
-- apps/shaiden/src/schedule/schedule-dispatcher.ts).
use keidai.Common.{
  ℕ, ◌+◌, ◌≤◌, String, ◌≡◌, ◌≢◌, if◌then◌else◌, ◌↔◌, Bool, true, false, Option, none, some,
}
use keidai.Schedule.{TaskTrigger}
use keidai.Schedule.Rows.{
  Task, TaskRow, is_claimable, row_to_saved_task, get_task_row, cleared_row,
  max_schedule_start_attempts,
}
use keidai.Schedule.Dispatcher.{
  Store, StartResult, run_started, already_running, start_threw, advance, defer, start_claimed_task,
  running_covers_slot,
}
use keidai.Schedule.Slots.{KeepsTasks}

-- A run of the task started at the slot or later: one that the round saw running, the one that it
-- starts, or one that the start ran into.
pub data IsCovered (running : Option ℕ) (result : StartResult) (at : ℕ) : Type 0 where
  by_running : (started : ℕ) → running ≡ some started → at ≤ started → IsCovered running result at
  by_start : running ≡ none → result ≡ run_started → IsCovered running result at
  by_other : running ≡ none → result ≡ already_running → IsCovered running result at

-- What the slot `at` of the row `r` may become.
pub data SlotOutcome (running : Option ℕ) (result : StartResult) (at until now : ℕ)
    (next : Option (Option ℕ)) (r r' : TaskRow) : Type 0 where
  used :
      (after : Option ℕ)
      → next ≡ some after
      → IsCovered running result at
      → r' ≡ cleared_row after r
      → SlotOutcome running result at until now next r r'
  kept :
      r'.next_run_at ≡ some at
      → is_claimable until r' ≡ true
      → r'.schedule_start_attempts
        ≡ r.schedule_start_attempts + (elim running [ none ↦ 1 | some _ ↦ 0 ])
      → SlotOutcome running result at until now next r r'
  -- An exception of nextRunAt, before the start.
  aborted : next ≡ none → r' ≡ r → SlotOutcome running result at until now next r r'
  stopped :
      (message : String)
      → result ≡ start_threw message
      → max_schedule_start_attempts ≤ r.schedule_start_attempts + 1
      → r'.schedule_failed_at ≡ some now
      → r'.schedule_error ≡ some message
      → r'.next_run_at ≡ none
      → SlotOutcome running result at until now next r r'

module _ (next_run_at : TaskTrigger → ℕ → Bool → Option (Option ℕ))
    (start_task_run : Task → String → Store → StartResult × Store)
    (keeps : KeepsTasks start_task_run) (claim_ms now at : ℕ) (r : TaskRow) (s : Store)
    (found : get_task_row r.id s.tasks ≡ some r) (due : r.next_run_at ≡ some at) (le : at ≤ now)
    (live : r.archived_at ≡ none) (unfailed : r.schedule_failed_at ≡ none) where
  -- The row after a step, whose answer is `fired`.
  abbrev Ends : Option (Option ℕ) → Option ℕ → StartResult → Option Bool × Store → Type 0
  Ends next running result x =
      (r' : TaskRow) × (get_task_row r.id x.1.tasks ≡ some r')
      × SlotOutcome running result at (now + claim_ms) now next r r'
      × ((x.0 ≡ some true) ↔ ((next ≢ none) × (running ≡ none) × (result ≡ run_started)))

  abbrev result_of_start : StartResult
  result_of_start = (start_task_run r.task r.id s).0

  -- What `fire_current_task` does with a due slot of a live task, by what nextRunAt gives.
  abbrev fire_due : Option (Option ℕ) → Option ℕ → Option Bool × Store
  fire_due none running = (none, s)
  fire_due (some next) running = elim running [
    | none ↦
        let (fired, s') =
          start_claimed_task next_run_at start_task_run claim_ms now next (row_to_saved_task r) s in
        (some fired, s')
    | some started ↦
        if running_covers_slot started (some at)
        then (
          some false,
          advance next_run_at start_task_run claim_ms now next (row_to_saved_task r) s,
        )
        else (
          some false,
          defer next_run_at start_task_run claim_ms now (row_to_saved_task r)
              (some (now + claim_ms)) s,
        )
  ]
