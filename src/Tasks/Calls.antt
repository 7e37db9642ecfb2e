-- ===== src/Tasks/Calls.antt =====
-- Calls of the task store's methods, one after the other
-- (apps/torii/src/tasks/task-store.service.ts).
use keidai.Common.{ℕ, String, List, [], ◌∷◌}
use keidai.Tasks.Inputs.{Payload, Requests}
use keidai.Tasks.{
  CreateMcpTaskInput, BackendOrigin, Table, create_working_task, attach_backend_origin,
  apply_input_responses, request_cancel, require_input, complete, fail,
}

pub data Op : Type 0 where
  create : String → CreateMcpTaskInput → ℕ → Op
  attach : String → BackendOrigin → ℕ → Op
  respond : String → String → List String → ℕ → Op
  cancel : String → String → ℕ → Op
  ask : String → Requests → ℕ → Op
  finish_ok : String → Payload → ℕ → Op
  finish_error : String → Payload → ℕ → Op

-- The table after one operation.
unfoldable pub run_op : Op → Table → Table
run_op (create id input now) table = (create_working_task id input now table).1
run_op (attach id origin now) table = (attach_backend_origin id origin now table).1
run_op (respond agent id responses now) table =
    (apply_input_responses agent id responses now table).1
run_op (cancel agent id now) table = (request_cancel agent id now table).1
run_op (ask id requests now) table = (require_input id requests now table).1
run_op (finish_ok id result now) table = (complete id result now table).1
run_op (finish_error id error now) table = (fail id error now table).1

unfoldable pub run : List Op → Table → Table
unfolding run_op
run [] table = table
run (op ∷ ops) table = run ops (run_op op table)
