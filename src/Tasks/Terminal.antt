-- ===== src/Tasks/Terminal.antt =====
-- Tasks along the statements of the store's methods, in any order
-- (apps/torii/src/tasks/task-store.service.ts).
use keidai.Common.{
  ℕ, zero, suc, String, ◌≡◌, ◌≢◌, sym, subst, ◌∙◌, true, Option, none, some, List, [], ◌∷◌, ◌++◌,
  arith, inl, inr, Option-cases, All, All-append,
}
use keidai.Tasks.{
  StoredMcpTask, CreateMcpTaskInput, Table, get_record, save, new_task, create_working_task,
  is_mcp_task_terminal_status,
}
use keidai.Tasks.Laws.{
  IsReadFrom, Saves, attach-Saves, require-Saves, complete-Saves, fail-Saves, respond-Saves,
  cancel-Saves, get_record-save_ne, get_record-append_ne,
}
use keidai.Tasks.Calls.{Op, create, attach, respond, cancel, ask, finish_ok, finish_error}
use keidai.Tasks.Statements.{
  StoreState, Statement, insert_row, select_row, update_row, select, put_first, take_out, execute,
  execute_all,
}

select-Saves : (op : Op) (table : Table) → Saves (λ next. IsReadFrom next table) (select op table)
unfolding select
select-Saves (create id input now) table = tt
select-Saves (attach id origin now) table = attach-Saves id now table origin
select-Saves (respond agent id responses now) table = respond-Saves id now table agent responses
select-Saves (cancel agent id now) table = cancel-Saves id now table agent
select-Saves (ask id requests now) table = require-Saves id now table requests
select-Saves (finish_ok id result now) table = complete-Saves id now table result
select-Saves (finish_error id error now) table = fail-Saves id now table error

-- What holds of all pending writes holds of the one taken out and of the rest.
abbrev Taken : (StoredMcpTask → Type 0) → Option (StoredMcpTask × List StoredMcpTask) → Type 0
Taken P none = Unit
Taken P (some (next, rest)) = P next × All P rest

take_out-Taken :
    (P : StoredMcpTask → Type 0) (k : ℕ) (ws : List StoredMcpTask)
    → All P ws
    → Taken P (take_out k ws)
unfolding take_out
take_out-Taken P k [] h = tt
take_out-Taken P zero (w ∷ ws) h = h
take_out-Taken P (suc k) (w ∷ ws) (p, h) = put_first-Taken (take_out k ws) (take_out-Taken P k ws h)
  where
    put_first-Taken :
        (o : Option (StoredMcpTask × List StoredMcpTask)) → Taken P o → Taken P (put_first w o)
    put_first-Taken none t = tt
    put_first-Taken (some (next, rest)) (q, t) = (q, (p, t))

-- A predicate on rows and one on the pending writes hold together along the statements, if a new row
-- meets the one, a record that is saved meets the other, and writing it keeps the first.
module _ (P : Table → Type 0) (Q : StoredMcpTask → Type 0)
    (inserts : (id : String) (input : CreateMcpTaskInput) (now : ℕ) (table : Table)
      → get_record id table ≡ none
      → P table
      → P (table ++ new_task id input now ∷ []))
    (selects : (next : StoredMcpTask) (table : Table) → IsReadFrom next table → P table → Q next)
    (updates : (next : StoredMcpTask) (table : Table)
      → Q next
      → P table
      → P (save next table)) where
  abbrev Both : StoreState → Type 0
  Both s = P s.table × All Q s.pending

  select_row-Both :
      (s : StoreState) (o : Option StoredMcpTask)
      → Saves (λ next. IsReadFrom next s.table) o
      → Both s
      → let s' : StoreState = elim o [
        | none ↦ s
        | some next ↦ record s { pending = s.pending ++ next ∷ [] }
      ] in
        Both s'
  select_row-Both s none r h = h
  select_row-Both s (some next) r (p, q) =
      (p, All-append Q s.pending (next ∷ []) q (selects next s.table r p, tt))

  update_row-Both :
      (s : StoreState) (o : Option (StoredMcpTask × List StoredMcpTask))
      → Taken Q o
      → Both s
      → let s' : StoreState = elim o [
        | none ↦ s
        | some (next, rest) ↦ record { table = save next s.table; pending = rest }
      ] in
        Both s'
  update_row-Both s none t h = h
  update_row-Both s (some (next, rest)) (t, q) (p, _) = (updates next s.table t p, q)

  execute-Both : (statement : Statement) (s : StoreState) → Both s → Both (execute statement s)
  unfolding execute create_working_task
  execute-Both (insert_row id input now) s (p, q) =
      let after : Option StoredMcpTask → Option StoredMcpTask × Table = λ o. elim o [
        | some _ ↦ (none, s.table)
        | none ↦ (some (new_task id input now), s.table ++ new_task id input now ∷ [])
      ] in
      (
        elim (Option-cases (get_record id s.table)) [
          | inl e ↦ subst (λ o. P (after o).1) (sym e) (inserts id input now s.table e p)
          | inr (old, e) ↦ subst (λ o. P (after o).1) (sym e) p
        ],
        q,
      )
  execute-Both (select_row op) s h =
      select_row-Both s (select op s.table) (select-Saves op s.table) h
  execute-Both (update_row k) s h =
      update_row-Both s (take_out k s.pending) (take_out-Taken Q k s.pending h.1) h

  execute_all-Both :
      (statements : List Statement) (s : StoreState) → Both s → Both (execute_all statements s)
  unfolding execute_all
  execute_all-Both [] s h = h
  execute_all-Both (statement ∷ statements) s h =
      execute_all-Both statements (execute statement s) (execute-Both statement s h)

-- A task that is completed, failed or cancelled stays as it is along any statements of the store's
-- methods, in any order, as long as no UPDATE of it is pending when they start: none of a call that read
-- the task before it ended.
pub execute_all-terminal :
    (id : String) (task : StoredMcpTask) (statements : List Statement) (s : StoreState)
    → is_mcp_task_terminal_status task.status ≡ true
    → get_record id s.table ≡ some task
    → All (λ next. next.task_id ≢ id) s.pending
    → get_record id (execute_all statements s).table ≡ some task
unfolding new_task
execute_all-terminal id task statements s done found none_pending =
    (execute_all-Both (λ table. get_record id table ≡ some task) (λ next. next.task_id ≢ id)
      (λ new input now table absent there.
        get_record-append_ne id (new_task new input now) table
          (λ k. ground (arith, subst (λ j. get_record j table ≡ none) k absent, there))
        ∙ there)
      (λ next table r there k.
        ground (
          arith,
          subst (λ j. get_record j table ≡ some r.row) k r.found,
          there,
          r.unfinished,
          done,
        ))
      (λ next table ne there. get_record-save_ne id next table ne ∙ there) statements s
      (found, none_pending)).0
