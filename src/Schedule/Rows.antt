-- ===== src/Schedule/Rows.antt =====
-- The table of tasks and the statements on it: apps/shaiden/src/tasks/pg-task-repository.ts. Times
-- are numbers of milliseconds; `next_run_at` is nextRunAt of packages/shared/src/next-run-at.ts.
use keidai.Common.{
  ℕ, zero, suc, ◌+◌, max, String, str_eq, Bool, true, false, not, ◌&&◌, ◌||◌, Option, none, some,
  List, [], ◌∷◌, map, if◌then◌else◌, ltb, leb, ◌==◌, find, any, filter, update_where, count_where,
  delete_where,
}
use keidai.Run.Loop.Rounds.{TaskLimits}
use keidai.Runs.Ops.{is_none}
use keidai.Schedule.{TaskTrigger}

pub record Task : Type 0 where
  pub goal : String
  pub trigger : TaskTrigger
  pub assignee : String
  pub limits : Option TaskLimits
  pub model_id : Option String

pub record TaskRow : Type 0 where
  pub id : String
  pub task : Task
  pub created_at : ℕ
  pub updated_at : ℕ
  pub archived_at : Option ℕ
  pub next_run_at : Option ℕ
  pub schedule_claim_until : Option ℕ
  pub schedule_start_attempts : ℕ
  pub schedule_failed_at : Option ℕ
  pub schedule_error : Option String

-- The columns of TASK_COLUMNS, as rowToSavedTask reads them.
pub record SavedTask : Type 0 where
  pub id : String
  pub task : Task
  pub created_at : ℕ
  pub updated_at : ℕ
  pub next_run_at : Option ℕ
  pub archived_at : Option ℕ
  pub schedule_failed_at : Option ℕ
  pub schedule_error : Option String

unfoldable pub row_to_saved_task : TaskRow → SavedTask
row_to_saved_task r = record {
  id = r.id;
  task = r.task;
  created_at = r.created_at;
  updated_at = r.updated_at;
  next_run_at = r.next_run_at;
  archived_at = r.archived_at;
  schedule_failed_at = r.schedule_failed_at;
  schedule_error = if is_none r.schedule_failed_at then none else r.schedule_error;
}

abbrev pub has_task_id : String → TaskRow → Bool
has_task_id id r = str_eq r.id id

abbrev pub is_live : TaskRow → Bool
is_live r = is_none r.archived_at

-- An `UPDATE tasks SET f WHERE id = $1 AND guard`, and whether a row was hit.
unfoldable pub update_task_row :
    String → (TaskRow → Bool) → (TaskRow → TaskRow) → List TaskRow → Bool × List TaskRow
update_task_row id guard f rows = (
  not (count_where (λ r. has_task_id id r && guard r) rows == 0),
  update_where (λ r. has_task_id id r && guard r) f rows,
)

unfoldable pub get_task_row : String → List TaskRow → Option TaskRow
get_task_row id rows = find (has_task_id id) rows

unfoldable pub get_task : String → List TaskRow → Option SavedTask
unfolding get_task_row row_to_saved_task
get_task id rows = elim (get_task_row id rows) [ none ↦ none | some r ↦ some (row_to_saved_task r) ]

-- `ORDER BY`, by a test for what comes before.
module _ (before : TaskRow → TaskRow → Bool) where
  unfoldable pub insert_row : TaskRow → List TaskRow → List TaskRow
  insert_row r [] = r ∷ []
  insert_row r (x ∷ xs) = let rest = insert_row r xs in if before r x then r ∷ x ∷ xs else x ∷ rest

  unfoldable pub order_rows : List TaskRow → List TaskRow
  unfolding insert_row
  order_rows [] = []
  order_rows (r ∷ rs) = insert_row r (order_rows rs)

-- `LIMIT`
unfoldable pub limit_rows : ℕ → List TaskRow → List TaskRow
limit_rows zero rows = []
limit_rows (suc n) [] = []
limit_rows (suc n) (r ∷ rs) = r ∷ limit_rows n rs

-- `next_run_at <= now`, with SQL's answer for no next run.
abbrev pub is_due_at : ℕ → TaskRow → Bool
is_due_at now r = elim r.next_run_at [ none ↦ false | some at ↦ leb at now ]

abbrev pub is_unclaimed : ℕ → TaskRow → Bool
is_unclaimed now r = elim r.schedule_claim_until [ none ↦ true | some until ↦ leb until now ]

-- The conditions of claimDueTasks.
unfoldable pub is_claimable : ℕ → TaskRow → Bool
is_claimable now r =
    is_due_at now r && (is_live r && (is_none r.schedule_failed_at && is_unclaimed now r))

abbrev due_time : TaskRow → ℕ
due_time r = elim r.next_run_at [ none ↦ 0 | some at ↦ at ]

module _ (id_before : String → String → Bool) where
  -- `ORDER BY next_run_at ASC, id ASC`; the rows ordered all have a next run.
  unfoldable pub is_earlier : TaskRow → TaskRow → Bool
  is_earlier a b =
      ltb (due_time a) (due_time b) || (due_time a == due_time b && id_before a.id b.id)

  -- The rows of the common table expression `due`. Those that another transaction holds locked are
  -- skipped.
  unfoldable pub due_rows : ℕ → ℕ → (TaskRow → Bool) → List TaskRow → List TaskRow
  unfolding is_claimable is_earlier order_rows limit_rows
  due_rows now limit locked rows =
      limit_rows limit
        (order_rows is_earlier (filter (λ r. is_claimable now r && not (locked r)) rows))

  unfoldable pub claim_due_tasks :
      ℕ → ℕ → ℕ → (TaskRow → Bool) → List TaskRow → List SavedTask × List TaskRow
  unfolding due_rows row_to_saved_task
  claim_due_tasks now claim_until limit locked rows =
      let due = due_rows now limit locked rows in
      (
        map row_to_saved_task due,
        update_where (λ r. any (has_task_id r.id) due)
            (λ r. record r { schedule_claim_until = some claim_until }) rows,
      )

abbrev pub cleared_row : Option ℕ → TaskRow → TaskRow
cleared_row next r = record r {
  next_run_at = next;
  schedule_claim_until = none;
  schedule_start_attempts = 0;
  schedule_failed_at = none;
  schedule_error = none;
}

unfoldable pub record_schedule_success : String → Option ℕ → List TaskRow → Bool × List TaskRow
unfolding update_task_row
record_schedule_success id next rows = update_task_row id is_live (cleared_row next) rows

abbrev pub max_schedule_start_attempts : ℕ
max_schedule_start_attempts = 2

unfoldable pub start_failed_row : ℕ → ℕ → String → TaskRow → TaskRow
start_failed_row retry_until now error r =
    let last = leb max_schedule_start_attempts (r.schedule_start_attempts + 1) in
    record r {
      schedule_start_attempts = r.schedule_start_attempts + 1;
      schedule_claim_until = if last then none else some retry_until;
      next_run_at = if last then none else r.next_run_at;
      schedule_failed_at = if last then some now else r.schedule_failed_at;
      schedule_error = if last then some error else r.schedule_error;
    }

pub data ScheduleStartFailureOutcome : Type 0 where
  retry failed missing : ScheduleStartFailureOutcome

unfoldable pub record_schedule_start_failure :
    String → ℕ → ℕ → String → List TaskRow → ScheduleStartFailureOutcome × List TaskRow
unfolding update_task_row start_failed_row
record_schedule_start_failure id retry_until now error rows =
    let after = (update_task_row id is_live (start_failed_row retry_until now error) rows).1 in
    (
      elim (find (λ r. has_task_id id r && is_live r) after) [
        | none ↦ missing
        | some r ↦ if is_none r.schedule_failed_at then retry else failed
      ],
      after,
    )

unfoldable pub defer_schedule_claim : String → Option ℕ → List TaskRow → Bool × List TaskRow
unfolding update_task_row
defer_schedule_claim id claim_until rows =
    update_task_row id is_live (λ r. record r { schedule_claim_until = claim_until }) rows

-- When a row may be claimed, seen from its claim: `GREATEST(next_run_at, schedule_claim_until)`.
abbrev pub wake_time : ℕ → TaskRow → ℕ
wake_time at r = elim r.schedule_claim_until [ none ↦ at | some until ↦ max at until ]

unfoldable pub earlier_of : ℕ → Option ℕ → ℕ
earlier_of a none = a
earlier_of a (some b) = if leb a b then a else b

unfoldable pub peek_min_next_run_at : List TaskRow → Option ℕ
unfolding earlier_of
peek_min_next_run_at [] = none
peek_min_next_run_at (r ∷ rs) =
    let rest = peek_min_next_run_at rs in
    elim r.next_run_at [
      | none ↦ rest
      | some at ↦
          if is_live r && is_none r.schedule_failed_at
          then some (earlier_of (wake_time at r) rest)
          else rest
    ]

unfoldable pub archive_task : String → ℕ → List TaskRow → Bool × List TaskRow
unfolding update_task_row
archive_task id now rows =
    update_task_row id is_live
      (λ r. record (cleared_row none r) { archived_at = some now; updated_at = now }) rows

unfoldable pub delete_task : String → List TaskRow → Bool × List TaskRow
delete_task id rows =
    (not (count_where (has_task_id id) rows == 0), delete_where (has_task_id id) rows)

unfoldable pub set_next_run_at : String → Option ℕ → List TaskRow → Bool × List TaskRow
unfolding update_task_row
set_next_run_at id next rows =
    update_task_row id (λ _. true) (λ r. record r { next_run_at = next }) rows
