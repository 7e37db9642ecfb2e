-- ===== src/Schedule/Edited.antt =====
-- Edits of tasks and the cursors of their schedules
-- (update of apps/shaiden/src/tasks/pg-task-repository.ts).
use keidai.Common.{
  ℕ, eq_iff, ◌≡◌, refl, Bool, true, ◌&&◌, Option, none, some, List, [], ◌∷◌, arith, Bool-cases, inl,
  inr, all, find, update_where, find-update_guarded,
}
use keidai.Schedule.{
  Weekday, TaskTrigger, now, schedule, ScheduleRecurrence, daily, weekly, monthly, has_day,
  is_paused, recurrence_equal, task_triggers_equal,
}
use keidai.Schedule.Rows.{
  TaskRow, has_task_id, is_live, update_task_row, row_to_saved_task, get_task_row, cleared_row,
  record_schedule_success,
}
use keidai.Schedule.Edits.{
  UpdateTaskRequest, merge_task, write_task, edited_row, next_run_at_after_update,
}
use keidai.Schedule.Slots.{task_key}

has_day-all :
    (days rest : List Weekday)
    → ((d : Weekday) → has_day rest d ≡ true → has_day days d ≡ true)
    → all (has_day days) rest ≡ true
has_day-all days [] h = refl
has_day-all days (x ∷ xs) h =
    ground (arith, h x, has_day-all days xs (λ d e. h d (ground (arith, e))))

recurrence_equal_refl : (r : Option ScheduleRecurrence) → recurrence_equal r r ≡ true
unfolding recurrence_equal
recurrence_equal_refl none = refl
recurrence_equal_refl (some daily) = refl
recurrence_equal_refl (some (weekly days)) = ground (arith, has_day-all days days (λ d h. h))
recurrence_equal_refl (some monthly) = refl

task_triggers_equal_refl : (t : TaskTrigger) → task_triggers_equal t t ≡ true
unfolding task_triggers_equal
task_triggers_equal_refl now = refl
task_triggers_equal_refl (schedule t) = elim (Bool-cases (is_paused t)) [
  | inl e ↦
      ground (
        arith,
        e,
        eq_iff t.timezone t.timezone,
        eq_iff t.at t.at,
        recurrence_equal_refl t.recurrence,
      )
  | inr e ↦
      ground (
        arith,
        e,
        eq_iff t.timezone t.timezone,
        eq_iff t.at t.at,
        recurrence_equal_refl t.recurrence,
      )
]

kept_cursor :
    (next_run_at : TaskTrigger → ℕ → Bool → Option ℕ) (input : UpdateTaskRequest) (r : TaskRow)
    (at : ℕ)
    → input.trigger ≡ none
    → (next_run_at_after_update next_run_at r.task.trigger r.next_run_at
        (merge_task input r.task).trigger
        at).next_run_at
      ≡ r.next_run_at
unfolding next_run_at_after_update merge_task
kept_cursor next_run_at input r at same =
    ground (arith, same, task_triggers_equal_refl r.task.trigger)

-- An edit that leaves the trigger alone, of a task that is not archived, whose read comes before the
-- dispatcher moves the task's schedule on and whose write comes after it: the write puts the old slot
-- back.
pub write_task-stale :
    (next_run_at : TaskTrigger → ℕ → Bool → Option ℕ) (input : UpdateTaskRequest) (r : TaskRow)
    (next : Option ℕ) (at : ℕ) (rows : List TaskRow)
    → get_task_row r.id rows ≡ some r
    → r.archived_at ≡ none
    → input.trigger ≡ none
    → let moved = (record_schedule_success r.id next rows).1 in
      let rows' = write_task next_run_at input (row_to_saved_task r) at moved in
      (get_task_row r.id moved ≡ some (cleared_row next r))
      × ((r' : TaskRow) × (get_task_row r.id rows' ≡ some r')
          × (r'.next_run_at ≡ r.next_run_at)
          × (r'.schedule_claim_until ≡ none))
unfolding get_task_row record_schedule_success write_task update_task_row row_to_saved_task
write_task-stale next_run_at input r next at rows found live same =
    let merged = merge_task input r.task in
    let cursor =
      next_run_at_after_update next_run_at r.task.trigger r.next_run_at merged.trigger at in
    let moved_rows = (record_schedule_success r.id next rows).1 in
    let moved : find (has_task_id r.id) moved_rows ≡ some (cleared_row next r) = ground (
      arith,
      find-update_guarded task_key r.id is_live (cleared_row next) rows (λ x. refl),
      found,
      live,
    ) in
    let back : find (has_task_id r.id) (
          update_where (λ x. has_task_id r.id x && true) (edited_row next_run_at merged cursor at)
            moved_rows)
        ≡ some (edited_row next_run_at merged cursor at (cleared_row next r)) =
      ground (
        arith,
        find-update_guarded task_key r.id (λ _. true) (edited_row next_run_at merged cursor at)
            moved_rows (λ x. refl),
        moved,
      ) in
    (
      moved,
      (
        edited_row next_run_at merged cursor at (cleared_row next r),
        back,
        kept_cursor next_run_at input r at same,
        ground arith,
      ),
    )
