-- ===== src/Tasks/Examples.antt =====
-- The task store at concrete tables: tests, and the theorems at inputs that meet their hypotheses.
use keidai.Common.{false, String, ◌≡◌, refl, ◌≢◌, inl, none, some, List, [], ◌∷◌, arith, eq_iff}
use keidai.Tasks.Inputs.{Requests, merge_requests, any_used}
use keidai.Tasks.{
  StoredMcpTask, CreateMcpTaskInput, after, create_working_task, is_mcp_task_terminal_status, ok,
  completed, working, input_required, get_record, require_owned_task, apply_input_responses,
  require_input, throws,
}
use keidai.Tasks.Answers.{unanswered}
use keidai.Tasks.Invariant.{IsWellFormed}
use keidai.Tasks.Calls.{Op, create, cancel, respond, ask, finish_ok, finish_error, run}
use keidai.Tasks.Statements.{Statement, insert_row, select_row, update_row, execute, execute_all}
use keidai.Tasks.Terminal.{execute_all-terminal}
use keidai.Tasks.Overwritten.{respond-overwrites}
use keidai.Tasks.Respond.{respond_outcome, prototype_key_used_up}

abbrev input : CreateMcpTaskInput
input = record {
  agent_id = "a1";
  owner_id = "o1";
  request_method = none;
  status_message = none;
  ttl_ms = after 1000;
  poll_interval_ms = none;
}

abbrev requests : Requests
requests = ("name", "?") ∷ ("city", "?") ∷ []

abbrev asking : List Op
asking = create "t1" input 10 ∷ ask "t1" requests 20 ∷ []

abbrev asked : StoredMcpTask
asked = record {
  task_id = "t1";
  agent_id = "a1";
  owner_id = "o1";
  request_method = "tools/call";
  status = input_required;
  status_message = none;
  created_at_ms = 10;
  last_updated_at_ms = 20;
  ttl_ms = some 1000;
  poll_interval_ms = some 5000;
  input_requests = some requests;
  satisfied_input_keys = [];
  result = none;
  error = none;
  backend_server = none;
  backend_task_id = none;
}

asked_stored : run asking [] ≡ asked ∷ []
unfolding run create_working_task require_input merge_requests any_used
asked_stored = refl

asked_owned : require_owned_task "a1" "t1" 30 (asked ∷ []) ≡ ok asked
unfolding require_owned_task
asked_owned = refl

abbrev finished_task : StoredMcpTask
finished_task = record asked {
  status = completed;
  input_requests = none;
  result = some "{}";
  last_updated_at_ms = 40;
}

execute_all-terminal_example :
    get_record "t1"
      (execute_all
        (select_row (cancel "a1" "t1" 50)
          ∷ insert_row "t2" input 55
          ∷ select_row (finish_error "t2" "late" 60)
          ∷ update_row 0
          ∷ [])
        (record { table = finished_task ∷ []; pending = [] })).table
    ≡ some finished_task
unfolding get_record is_mcp_task_terminal_status
execute_all-terminal_example =
    execute_all-terminal "t1" finished_task
      (select_row (cancel "a1" "t1" 50)
        ∷ insert_row "t2" input 55
        ∷ select_row (finish_error "t2" "late" 60)
        ∷ update_row 0
        ∷ [])
      (record { table = finished_task ∷ []; pending = [] }) refl refl tt

-- Two requests for input that read the same row.
abbrev asking_twice : List Statement
asking_twice =
    insert_row "t1" input 10
    ∷ select_row (ask "t1" requests 20)
    ∷ select_row (ask "t1" (("age", "?") ∷ []) 21)
    ∷ update_row 1
    ∷ update_row 0
    ∷ []

respond-overwrites_example :
    let s =
      execute_all
        (select_row (respond "a1" "t1" ("city" ∷ []) 30)
          ∷ select_row (finish_ok "t1" "{}" 31)
          ∷ update_row 1
          ∷ [])
        (record { table = asked ∷ []; pending = [] }) in
    ((t : StoredMcpTask) × (get_record "t1" s.table ≡ some t)
      × (t.status ≡ completed)
      × (t.result ≡ some "{}"))
    × ((t : StoredMcpTask) × (get_record "t1" (execute (update_row 0) s).table ≡ some t)
        × (is_mcp_task_terminal_status t.status ≡ false)
        × (t.result ≡ none))
respond-overwrites_example =
    respond-overwrites "a1" "t1" ("city" ∷ []) "{}" 30 31 (asked ∷ []) asked asked_owned refl

a1_ne_a2 : ◌≢◌ {A = String} "a1" "a2"
a1_ne_a2 = ground (arith, eq_iff "a1" "a2")

asked_foreign :
    (task : StoredMcpTask) → get_record "t1" (asked ∷ []) ≡ some task → task.agent_id ≢ "a2"
unfolding get_record
asked_foreign task e = ground (arith, e, a1_ne_a2)

asked-IsWellFormed : IsWellFormed asked
asked-IsWellFormed = record {
  asks = λ _ e. cc;
  asks_only = λ n. absurd (n refl);
  has_result = λ e. cc;
  result_only = λ _. refl;
  has_error = λ e. cc;
  error_only = λ _. refl;
  fresh = ((λ h. h), ((λ h. h), tt));
}

respond_outcome_example :
    (t : StoredMcpTask) × (get_record "t1"
        (apply_input_responses "a1" "t1" ("city" ∷ []) 30 (asked ∷ [])).1
      ≡ some t)
    × (unanswered ("city" ∷ []) requests ≡ [] → (t.status ≡ working) × (t.input_requests ≡ none))
    × (unanswered ("city" ∷ []) requests ≢ []
        → (t.status ≡ input_required)
          × (t.input_requests ≡ some (unanswered ("city" ∷ []) requests)))
respond_outcome_example =
    respond_outcome "a1" "t1" ("city" ∷ []) 30 (asked ∷ []) asked requests asked_owned refl refl
      asked-IsWellFormed

prototype_key_used_up_example :
    (require_input "t1"
      (("constructor", "?") ∷ [])
      40
      (apply_input_responses "a1" "t1" ("constructor" ∷ []) 30 (asked ∷ [])).1).0
    ≡ throws
prototype_key_used_up_example =
    prototype_key_used_up "a1" "t1" "constructor" "?" 30 40 (asked ∷ []) asked asked_owned refl
      (inl refl) (λ h. h)
