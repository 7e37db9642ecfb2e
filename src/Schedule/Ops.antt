-- ===== src/Schedule/Ops.antt =====
-- Any sequence of statements on the table of tasks
-- (apps/shaiden/src/tasks/pg-task-repository.ts), by the dispatcher and by others.
use keidai.Common.{
  ℕ, ◌+◌, ◌≤◌, ◌<◌, String, eq_iff, ◌≡◌, refl, sym, subst, Bool, true, false, ◌&&◌, Option, none,
  some, List, [], ◌∷◌, map, map-append, arith, any, leb, Bool-cases, inl, inr, if◌then◌else◌, if_eq,
  update_where, All, All-update, All-delete, All-append, IsDistinct, IsDistinct-append,
  IsDistinct-delete, Elem, map-key_update,
}
use keidai.Schedule.{TaskTrigger}
use keidai.Schedule.Rows.{
  Task, TaskRow, SavedTask, has_task_id, is_live, update_task_row, due_rows, claim_due_tasks,
  cleared_row, start_failed_row, max_schedule_start_attempts, record_schedule_success,
  record_schedule_start_failure, defer_schedule_claim, archive_task, delete_task, set_next_run_at,
}
use keidai.Schedule.Edits.{
  UpdateTaskRequest, Inserted, merge_task, new_task_row, create_task, write_task, edited_row,
  next_run_at_after_update,
}
use keidai.Schedule.Slots.{task_key}

-- The write of an edit comes with whatever its read returned.
pub data TaskOp : Type 0 where
  op_create : String → Task → TaskOp
  op_write : UpdateTaskRequest → SavedTask → TaskOp
  op_archive : String → TaskOp
  op_delete : String → TaskOp
  op_claim : ℕ → ℕ → (TaskRow → Bool) → TaskOp
  op_success : String → Option ℕ → TaskOp
  op_failure : String → ℕ → String → TaskOp
  op_defer : String → Option ℕ → TaskOp
  op_set_next : String → Option ℕ → TaskOp

-- A schedule is stopped, with an error, exactly when its attempts have run out.
abbrev pub AreCounted : Option ℕ → ℕ → Option String → Type 0
AreCounted none attempts error = (attempts < max_schedule_start_attempts) × (error ≡ none)
AreCounted (some at) attempts error =
    (max_schedule_start_attempts ≤ attempts) × ((message : String) × (error ≡ some message))

abbrev pub IsCounted : TaskRow → Type 0
IsCounted r = AreCounted r.schedule_failed_at r.schedule_start_attempts r.schedule_error

pub record IsSoundTable (rows : List TaskRow) : Type 0 where
  pub distinct : IsDistinct (map task_key rows)
  pub counted : All IsCounted rows

update-IsSoundTable :
    (q : TaskRow → Bool) (f : TaskRow → TaskRow) (rows : List TaskRow)
    → ((r : TaskRow) → (f r).id ≡ r.id)
    → ((r : TaskRow) → IsCounted r → IsCounted (f r))
    → IsSoundTable rows
    → IsSoundTable (update_where q f rows)
update-IsSoundTable q f rows keep count h = record {
  distinct = subst IsDistinct (sym (map-key_update task_key q f rows keep)) h.distinct;
  counted = All-update IsCounted q f rows (λ r _ c. count r c) h.counted;
}

failed-AreCounted :
    (now : ℕ) (message : String) (failed_at : Option ℕ) (attempts : ℕ) (error : Option String)
    → AreCounted failed_at attempts error
    → let last = leb max_schedule_start_attempts (attempts + 1) in
      AreCounted
        (if last then some now else failed_at)
        (attempts + 1)
        (if last then some message else error)
failed-AreCounted now message none attempts error (lt, e) =
    elim (Bool-cases (leb max_schedule_start_attempts (attempts + 1))) [
      | inl t ↦ rw t (ground (arith, t), (message, refl))
      | inr t ↦ rw t (ground (arith, t), e)
    ]
failed-AreCounted now message (some at) attempts error (le, (old, e)) =
    let t : leb max_schedule_start_attempts (attempts + 1) ≡ true = ground (arith, le) in
    rw t (omega (arith, le), (message, refl))

start_failed-IsCounted :
    (retry_until now : ℕ) (error : String) (r : TaskRow)
    → IsCounted r
    → IsCounted (start_failed_row retry_until now error r)
unfolding start_failed_row
start_failed-IsCounted retry_until now error r c =
    failed-AreCounted now error r.schedule_failed_at r.schedule_start_attempts r.schedule_error c

any-id :
    (id : String) (rows : List TaskRow)
    → any (has_task_id id) rows ≡ false
    → ¬ Elem id (map task_key rows)
any-id id [] h = λ m. m
any-id id (r ∷ rows) h = ground (arith, eq_iff r.id id, any-id id rows)

module _ (next_run_at : TaskTrigger → ℕ → Bool → Option ℕ)
    (id_before : String → String → Bool) where
  unfoldable pub apply_task_op : TaskOp → ℕ → List TaskRow → List TaskRow
  apply_task_op (op_create id task) now rows = (create_task next_run_at id task now rows).1
  apply_task_op (op_write input existing) now rows = write_task next_run_at input existing now rows
  apply_task_op (op_archive id) now rows = (archive_task id now rows).1
  apply_task_op (op_delete id) now rows = (delete_task id rows).1
  apply_task_op (op_claim until limit locked) now rows =
      (claim_due_tasks id_before now until limit locked rows).1
  apply_task_op (op_success id next) now rows = (record_schedule_success id next rows).1
  apply_task_op (op_failure id retry_until error) now rows =
      (record_schedule_start_failure id retry_until now error rows).1
  apply_task_op (op_defer id until) now rows = (defer_schedule_claim id until rows).1
  apply_task_op (op_set_next id next) now rows = (set_next_run_at id next rows).1

  unfoldable pub apply_task_ops : List (TaskOp × ℕ) → List TaskRow → List TaskRow
  unfolding apply_task_op
  apply_task_ops [] rows = rows
  apply_task_ops ((op, now) ∷ ops) rows = apply_task_ops ops (apply_task_op op now rows)

  create-IsSoundTable :
      (id : String) (task : Task) (now : ℕ) (rows : List TaskRow)
      → IsSoundTable rows
      → IsSoundTable (create_task next_run_at id task now rows).1
  unfolding create_task new_task_row
  create-IsSoundTable id task now rows h =
      let row = new_task_row next_run_at id task now in
      if_eq (λ (x : Inserted × List TaskRow). IsSoundTable x.1) (any (has_task_id id) rows) _ _
        (λ _. h)
        (λ fresh. record {
          distinct =
              subst IsDistinct (sym (map-append task_key rows (row ∷ [])))
                (IsDistinct-append (map task_key rows) id (any-id id rows fresh) h.distinct);
          counted = All-append IsCounted rows (row ∷ []) h.counted (((omega arith, refl)), tt);
        })

  apply_task_op-IsSoundTable :
      (op : TaskOp) (now : ℕ) (rows : List TaskRow)
      → IsSoundTable rows
      → IsSoundTable (apply_task_op op now rows)
  unfolding apply_task_op write_task archive_task delete_task claim_due_tasks
      record_schedule_success record_schedule_start_failure defer_schedule_claim set_next_run_at
      update_task_row start_failed_row
  apply_task_op-IsSoundTable (op_create id task) now rows h = create-IsSoundTable id task now rows h
  apply_task_op-IsSoundTable (op_write input existing) now rows h =
      let merged = merge_task input existing.task in
      let cursor =
        next_run_at_after_update next_run_at existing.task.trigger existing.next_run_at
          merged.trigger now in
      update-IsSoundTable (λ r. has_task_id existing.id r && true)
        (edited_row next_run_at merged cursor now) rows (λ r. refl)
        (λ r c.
          elim cursor.reset_schedule_state
            as (λ b.
              AreCounted (if b then none else r.schedule_failed_at)
                (if b then 0 else r.schedule_start_attempts)
                (if b then none else r.schedule_error)) [ true ↦ (omega arith, refl) | false ↦ c ])
        h
  apply_task_op-IsSoundTable (op_archive id) now rows h =
      update-IsSoundTable (λ r. has_task_id id r && is_live r)
        (λ r. record (cleared_row none r) { archived_at = some now; updated_at = now }) rows
        (λ r. refl) (λ r c. (omega arith, refl)) h
  apply_task_op-IsSoundTable (op_delete id) now rows h = record {
    distinct = IsDistinct-delete task_key (has_task_id id) rows h.distinct;
    counted = All-delete IsCounted (has_task_id id) rows h.counted;
  }
  apply_task_op-IsSoundTable (op_claim until limit locked) now rows h =
      let due = due_rows id_before now limit locked rows in
      update-IsSoundTable (λ r. any (has_task_id r.id) due)
        (λ r. record r { schedule_claim_until = some until }) rows (λ r. refl) (λ r c. c) h
  apply_task_op-IsSoundTable (op_success id next) now rows h =
      update-IsSoundTable (λ r. has_task_id id r && is_live r) (cleared_row next) rows (λ r. refl)
        (λ r c. (omega arith, refl)) h
  apply_task_op-IsSoundTable (op_failure id retry_until error) now rows h =
      update-IsSoundTable (λ r. has_task_id id r && is_live r)
        (start_failed_row retry_until now error) rows (λ r. refl)
        (start_failed-IsCounted retry_until now error) h
  apply_task_op-IsSoundTable (op_defer id until) now rows h =
      update-IsSoundTable (λ r. has_task_id id r && is_live r)
        (λ r. record r { schedule_claim_until = until }) rows (λ r. refl) (λ r c. c) h
  apply_task_op-IsSoundTable (op_set_next id next) now rows h =
      update-IsSoundTable (λ r. has_task_id id r && true) (λ r. record r { next_run_at = next })
        rows (λ r. refl) (λ r c. c) h

  -- After any statements on an empty table of tasks: no two tasks share an id, and of every task the
  -- schedule is stopped, with an error's message, exactly when its starts have failed as often as they
  -- may; a schedule that is not stopped has an attempt left and no error.
  pub apply_task_ops-IsSoundTable : (ops : List (TaskOp × ℕ)) → IsSoundTable (apply_task_ops ops [])
  unfolding apply_task_ops
  apply_task_ops-IsSoundTable ops = from_rows ops [] (record { distinct = tt; counted = tt })
    where
      from_rows :
          (ops : List (TaskOp × ℕ)) (rows : List TaskRow)
          → IsSoundTable rows
          → IsSoundTable (apply_task_ops ops rows)
      from_rows [] rows h = h
      from_rows ((op, now) ∷ ops) rows h =
          from_rows ops (apply_task_op op now rows) (apply_task_op-IsSoundTable op now rows h)
