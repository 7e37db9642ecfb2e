-- ===== src/Tasks/Statements.antt =====
-- The statements of the task store's methods, in any order: a method other than createWorkingTask is a
-- SELECT and later an UPDATE, and the statements of other calls run between them
-- (apps/torii/src/tasks/task-store.service.ts).
use keidai.Common.{ℕ, zero, suc, String, Option, none, some, List, [], ◌∷◌, ◌++◌}
use keidai.Tasks.{
  StoredMcpTask, CreateMcpTaskInput, Table, completed, failed, get_record, save, require_owned_task,
  create_working_task, attach_read, respond_read, cancel_read, require_read, required, finish_read,
  is_mcp_task_terminal_status,
}
use keidai.Tasks.Calls.{Op, create, attach, respond, cancel, ask, finish_ok, finish_error}

-- What the method of an operation is to save, by its SELECT. `create` has no SELECT.
unfoldable pub select : Op → Table → Option StoredMcpTask
unfolding get_record require_owned_task is_mcp_task_terminal_status
select (create id input now) table = none
select (attach id origin now) table = attach_read origin now (get_record id table)
select (respond agent id responses now) table =
    respond_read responses now (require_owned_task agent id now table)
select (cancel agent id now) table = cancel_read now (require_owned_task agent id now table)
select (ask id requests now) table = required (require_read requests now (get_record id table))
select (finish_ok id result now) table =
    finish_read completed (some result) none now (get_record id table)
select (finish_error id error now) table =
    finish_read failed none (some error) now (get_record id table)

-- The UPDATEs of the calls that have read and not yet written.
pub record StoreState : Type 0 where
  pub table : Table
  pub pending : List StoredMcpTask

-- One statement: an INSERT, the SELECT of a call, or the UPDATE of the call at a place of the list.
pub data Statement : Type 0 where
  insert_row : String → CreateMcpTaskInput → ℕ → Statement
  select_row : Op → Statement
  update_row : ℕ → Statement

abbrev pub put_first :
    StoredMcpTask
    → Option (StoredMcpTask × List StoredMcpTask)
    → Option (StoredMcpTask × List StoredMcpTask)
put_first w none = none
put_first w (some (next, rest)) = some (next, w ∷ rest)

-- The element at a place, and the others.
unfoldable pub take_out : ℕ → List StoredMcpTask → Option (StoredMcpTask × List StoredMcpTask)
take_out k [] = none
take_out zero (w ∷ ws) = some (w, ws)
take_out (suc k) (w ∷ ws) = put_first w (take_out k ws)

unfoldable pub execute : Statement → StoreState → StoreState
unfolding select take_out save create_working_task
execute (insert_row id input now) s = record s {
  table = (create_working_task id input now s.table).1;
}
execute (select_row op) s = elim (select op s.table) [
  | none ↦ s
  | some next ↦ record s { pending = s.pending ++ next ∷ [] }
]
execute (update_row k) s = elim (take_out k s.pending) [
  | none ↦ s
  | some (next, rest) ↦ record { table = save next s.table; pending = rest }
]

unfoldable pub execute_all : List Statement → StoreState → StoreState
unfolding execute
execute_all [] s = s
execute_all (statement ∷ statements) s = execute_all statements (execute statement s)
