-- ===== src/Schedule/Edits.antt =====
-- The creation and the edits of tasks: create and update of
-- apps/shaiden/src/tasks/pg-task-repository.ts. An edit is two statements, a read and a write, and
-- others may run between them.
use keidai.Common.{
  ℕ, String, str_eq, Bool, true, false, Option, none, some, List, [], ◌∷◌, ◌++◌, if◌then◌else◌, any,
}
use keidai.Run.Loop.Rounds.{TaskLimits}
use keidai.Schedule.{TaskTrigger, task_triggers_equal}
use keidai.Schedule.Rows.{
  Task, TaskRow, SavedTask, has_task_id, update_task_row, get_task, row_to_saved_task,
}

-- A field of the request that is `none` was left out; `some none` clears the model.
pub record UpdateTaskRequest : Type 0 where
  pub goal : Option String
  pub trigger : Option TaskTrigger
  pub assignee : Option String
  pub limits : Option TaskLimits
  pub model_id : Option (Option String)

-- `a ?? b`
abbrev or_else {ℓ} : {A : Type ℓ} → Option A → A → A
or_else none b = b
or_else (some a) b = a

-- `...(modelId ? { modelId } : {})`
abbrev given : Option String → Option String
given none = none
given (some m) = if str_eq m "" then none else some m

unfoldable pub merge_task : UpdateTaskRequest → Task → Task
merge_task input existing = record {
  goal = or_else input.goal existing.goal;
  trigger = or_else input.trigger existing.trigger;
  assignee = or_else input.assignee existing.assignee;
  limits = elim input.limits [ none ↦ existing.limits | some l ↦ some l ];
  model_id = given (or_else input.model_id existing.model_id);
}

pub record Cursor : Type 0 where
  pub next_run_at : Option ℕ
  pub reset_schedule_state : Bool

pub data Inserted : Type 0 where
  inserted : SavedTask → Inserted
  insert_throws : Inserted

module _ (next_run_at : TaskTrigger → ℕ → Bool → Option ℕ) where
  unfoldable pub new_task_row : String → Task → ℕ → TaskRow
  new_task_row id task now = record {
    id = id;
    task = task;
    created_at = now;
    updated_at = now;
    archived_at = none;
    next_run_at = next_run_at task.trigger now false;
    schedule_claim_until = none;
    schedule_start_attempts = 0;
    schedule_failed_at = none;
    schedule_error = none;
  }

  -- `id` is the one drawn; an id that is there already makes the INSERT throw.
  unfoldable pub create_task : String → Task → ℕ → List TaskRow → Inserted × List TaskRow
  unfolding new_task_row row_to_saved_task
  create_task id task now rows = if any (has_task_id id) rows then (insert_throws, rows) else (
    inserted (row_to_saved_task (new_task_row id task now)),
    rows ++ new_task_row id task now ∷ [],
  )

  -- nextRunAtAfterUpdate of packages/shared/src/next-run-at.ts.
  unfoldable pub next_run_at_after_update : TaskTrigger → Option ℕ → TaskTrigger → ℕ → Cursor
  next_run_at_after_update existing_trigger existing_next merged_trigger now =
      if task_triggers_equal existing_trigger merged_trigger
      then record { next_run_at = existing_next; reset_schedule_state = false }
      else record {
        next_run_at = next_run_at merged_trigger now false;
        reset_schedule_state = true;
      }

  abbrev pub edited_row : Task → Cursor → ℕ → TaskRow → TaskRow
  edited_row merged cursor now r =
      let reset = cursor.reset_schedule_state in
      record r {
        task = merged;
        updated_at = now;
        next_run_at = cursor.next_run_at;
        schedule_claim_until = if reset then none else r.schedule_claim_until;
        schedule_start_attempts = if reset then 0 else r.schedule_start_attempts;
        schedule_failed_at = if reset then none else r.schedule_failed_at;
        schedule_error = if reset then none else r.schedule_error;
      }

  -- The write of an edit, by what its read returned.
  unfoldable pub write_task : UpdateTaskRequest → SavedTask → ℕ → List TaskRow → List TaskRow
  unfolding merge_task next_run_at_after_update update_task_row
  write_task input existing now rows =
      let merged = merge_task input existing.task in
      let cursor =
        next_run_at_after_update existing.task.trigger existing.next_run_at merged.trigger now in
      (update_task_row existing.id (λ _. true) (edited_row merged cursor now) rows).1

  -- What update answers.
  unfoldable pub edited_task : UpdateTaskRequest → SavedTask → ℕ → SavedTask
  unfolding merge_task next_run_at_after_update
  edited_task input existing now =
      let merged = merge_task input existing.task in
      let cursor =
        next_run_at_after_update existing.task.trigger existing.next_run_at merged.trigger now in
      record existing {
        task = merged;
        updated_at = now;
        next_run_at = cursor.next_run_at;
        schedule_failed_at =
            if cursor.reset_schedule_state then none else existing.schedule_failed_at;
        schedule_error = if cursor.reset_schedule_state then none else existing.schedule_error;
      }

  -- An edit that nothing runs in between.
  unfoldable pub update_task :
      String → UpdateTaskRequest → ℕ → List TaskRow → Option SavedTask × List TaskRow
  unfolding get_task write_task edited_task
  update_task id input now rows = elim (get_task id rows) [
    | none ↦ (none, rows)
    | some existing ↦ (some (edited_task input existing now), write_task input existing now rows)
  ]
