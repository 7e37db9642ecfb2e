-- ===== src/Tasks/Overwritten.antt =====
-- An UPDATE of the task store that overwrites what another call wrote after its SELECT
-- (apps/torii/src/tasks/task-store.service.ts).
use keidai.Common.{ℕ, String, eq_refl, ◌≡◌, refl, ap, ◌∙◌, false, none, some, List, [], ◌∷◌, arith}
use keidai.Tasks.Inputs.{Payload, Requests, apply_responses}
use keidai.Tasks.{
  StoredMcpTask, Table, input_required, completed, ok, or_else, get_record, save, overlay, answered,
  apply_to, finished, require_owned_task, is_mcp_task_terminal_status,
}
use keidai.Tasks.Laws.{get_record-save, require_owned_task-ok}
use keidai.Tasks.Calls.{respond, finish_ok}
use keidai.Tasks.Statements.{select_row, update_row, select, take_out, execute, execute_all}

-- A record that is saved over the row of its id.
save-seen :
    (id : String) (row next : StoredMcpTask) (table : Table)
    → get_record id table ≡ some row
    → next.task_id ≡ row.task_id
    → get_record id (save next table) ≡ some (overlay next row)
save-seen id row next table found same =
    ground (arith, get_record-save id next table, found, same, eq_refl row.task_id)

answered-unfinished :
    (rs : Requests) (used : List String) (now : ℕ) (t row : StoredMcpTask)
    → (is_mcp_task_terminal_status (overlay (answered rs used now t) row).status ≡ false)
      × ((overlay (answered rs used now t) row).result ≡ t.result)
      × ((answered rs used now t).task_id ≡ t.task_id)
unfolding is_mcp_task_terminal_status overlay
answered-unfinished [] used now t row = (refl, refl, refl)
answered-unfinished (r ∷ rs) used now t row = (refl, refl, refl)

-- The SELECTs of two calls, and the UPDATE of the second.
read_twice :
    (agent_id id : String) (responses : List String) (result : Payload) (now now' : ℕ)
    (table : Table) (task : StoredMcpTask)
    → require_owned_task agent_id id now table ≡ ok task
    → task.status ≡ input_required
    → execute_all
        (select_row (respond agent_id id responses now)
          ∷ select_row (finish_ok id result now')
          ∷ update_row 1
          ∷ [])
        (record { table = table; pending = [] })
      ≡ record {
        table = save (finished completed (some result) none now' task) table;
        pending = apply_to responses now task ∷ [];
      }
unfolding execute_all execute select take_out is_mcp_task_terminal_status
read_twice agent_id id responses result now now' table task found waiting =
    ground (arith, found, waiting, (require_owned_task-ok agent_id id now table task found).0)

-- The owner responds to a task that is not expired and waits for input, and the task is completed
-- between the SELECT and the UPDATE of that call, by a call that read it as well before: the task is
-- completed with its result, and after the UPDATE it is not terminal any more, and its result is the one
-- from before.
pub respond-overwrites :
    (agent_id id : String) (responses : List String) (result : Payload) (now now' : ℕ)
    (table : Table) (task : StoredMcpTask)
    → require_owned_task agent_id id now table ≡ ok task
    → task.status ≡ input_required
    → let s =
        execute_all
          (select_row (respond agent_id id responses now)
            ∷ select_row (finish_ok id result now')
            ∷ update_row 1
            ∷ [])
          (record { table = table; pending = [] }) in
      ((t : StoredMcpTask) × (get_record id s.table ≡ some t)
        × (t.status ≡ completed)
        × (t.result ≡ some result))
      × ((t : StoredMcpTask) × (get_record id (execute (update_row 0) s).table ≡ some t)
          × (is_mcp_task_terminal_status t.status ≡ false)
          × (t.result ≡ task.result))
unfolding execute take_out overlay
respond-overwrites agent_id id responses result now now' table task found waiting =
    let done = finished completed (some result) none now' task in
    let next = apply_to responses now task in
    let read = (require_owned_task-ok agent_id id now table task found).0 in
    let first = save-seen id task done table read refl in
    let state = read_twice agent_id id responses result now now' table task found waiting in
    let (rs, used) =
      apply_responses responses (or_else task.input_requests []) task.satisfied_input_keys in
    let (open_still, kept, same) = answered-unfinished rs used now task (overlay done task) in
    let second = save-seen id (overlay done task) next (save done table) first same in
    (
      (overlay done task, ap (λ x. get_record id x.table) state ∙ first, refl, refl),
      (
        overlay next (overlay done task),
        ap (λ x. get_record id (execute (update_row 0) x).table) state ∙ second,
        open_still,
        kept,
      ),
    )
