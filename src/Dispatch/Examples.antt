-- ===== src/Dispatch/Examples.antt =====
-- The dispatcher in a concrete world: one backend, and a clock that stands still.
use keidai.Common.{
  ℕ, suc, ◌+◌, ◌≤◌, String, ◌≡◌, refl, ◌⊎◌, true, false, none, some, List, [], ◌∷◌, count_where,
}
use keidai.Policy.{allow, AgentPrincipal, GroupPolicySnapshot}
use keidai.Tasks.Inputs.{Payload}
use keidai.Tasks.{
  StoredMcpTask, is_mcp_task_terminal_status, working, completed, get_record, require_owned_task,
  is_mcp_task_expired, complete, finish, save, overlay,
}
use keidai.Approvals.{ApprovalRecord, approved, mark_used, get_approval_by_task_id}
use mathlib.Core.Option
use keidai.Tasks.Calls as TaskSteps
use keidai.Approvals.Steps as ApprovalSteps
use keidai.Approvals.Gate.{cancel_pending_for_task, claim_approved_execution, may_claim}
use keidai.Dispatch.{
  emit, owner_of, Backends, returned, threw, DispatchState, CallContext, CallResult, CatalogTool,
  Connection, store_failed,
}
use keidai.Dispatch.Backend.{
  connect, resolve_connected_backend, post_backend, send_request, Target, adopt_backend_task,
}
use keidai.Dispatch.Call.{call_backend, proxy_call_to_backend, settle_answer, call_tool}
use keidai.Dispatch.Sync.{
  cancel_parked_task, sync_non_terminal_task, execute_approved_task, execute_claimed,
  sync_backend_originated_task, find_backend_origin_task,
}
use keidai.Dispatch.Classify.{classify_backend_tool_result, Raw, BackendTask}
use keidai.Dispatch.Moves.{is_call, Ends}
use keidai.Dispatch.Gated.{IsPermitted, call_tool-counted}
use keidai.Dispatch.Once.{PollEvent, poll, cancel, others, serve_polls, serve_polls-once}
use keidai.Dispatch.Adopted.{IsReachable, IsHanded, IsCancelled, adopt_backend_task-settled}

abbrev mail : CatalogTool
mail = record { server = "mail"; bare_name = "send" }

abbrev online : Connection
online = record {
  name = "mail";
  is_failed = false;
  error = none;
  has_client = true;
  http_url = some "http://mail";
}

abbrev done : Raw
done = record {
  is_object = true;
  result_type = none;
  as_task = none;
  as_status = none;
  is_error = false;
  body = "sent";
}

-- The world counts the ids that were drawn.
abbrev world : Backends ℕ
world = record {
  find_tool = λ name w. some mail;
  get_connection = λ server owner w. some online;
  ensure_connected = λ server owner w. (returned online, w);
  resolve = λ c w. (returned "token", w);
  answer = λ post w. (returned done, w);
  meanwhile = λ post w. ([], []);
  new_id = λ w. ("t9", suc w);
  now = λ w. 50;
  text_of = λ e. "failed";
}

abbrev agent : AgentPrincipal
agent = record { agent_id = "a1"; owner_id = "o1"; groups = "staff" ∷ [] }

abbrev staff : GroupPolicySnapshot
staff = record {
  name = "staff";
  servers =
      record { server = "mail"; allow = "send" ∷ []; deny = []; gated = []; default = allow } ∷ [];
}

abbrev task : StoredMcpTask
task = record {
  task_id = "t1";
  agent_id = "a1";
  owner_id = "o1";
  request_method = "tools/call";
  status = working;
  status_message = none;
  created_at_ms = 0;
  last_updated_at_ms = 0;
  ttl_ms = none;
  poll_interval_ms = none;
  input_requests = none;
  satisfied_input_keys = [];
  result = none;
  error = none;
  backend_server = none;
  backend_task_id = none;
}

abbrev finished_task : StoredMcpTask
finished_task = record task { task_id = "t2"; status = completed; result = some "{}" }

abbrev approval : ApprovalRecord
approval = record {
  id = "p1";
  agent_id = "a1";
  owner_id = "o1";
  tool_name = "mail.send";
  params = "{}";
  params_hash = "{}";
  run_id = none;
  step_id = none;
  task_id = some "t1";
  status = approved;
  rejection_reason = none;
  created_at = 10;
  expires_at = 100;
  decided_at = some 20;
  used_at = none;
}

abbrev start : DispatchState ℕ
start = record {
  world = 0;
  gate = record {
    store = record { approvals = approval ∷ []; rejections = [] };
    tasks = task ∷ finished_task ∷ [];
  };
  traces = [];
  posts = [];
}

abbrev send : CallContext
send = record {
  name = "mail.send";
  upstream_args = "{}";
  run_id = some "r1";
  step_id = none;
  principal = some agent;
}

abbrev hash : Payload → String
hash p = p

abbrev as_record : CallResult → Payload
as_record r = "{}"

abbrev as_error : String → Payload
as_error text = text

call_tool-counted_example :
    let end = call_tool world (staff ∷ []) hash send true start in
    Ends 1 start end × ((end.1.posts ≡ start.posts) ⊎ IsPermitted world (staff ∷ []) hash send)
call_tool-counted_example = call_tool-counted world (staff ∷ []) hash send true start

abbrev polls : List PollEvent
polls = poll agent ∷ others [] [] ∷ poll agent ∷ cancel agent ∷ []

serve_polls-once_example :
    count_where is_call
      (serve_polls world (staff ∷ []) hash as_record as_error "t1" polls start).posts
    ≤ count_where is_call start.posts + 1
serve_polls-once_example =
    serve_polls-once world (staff ∷ []) hash as_record as_error "t1" polls start ((λ m. m), tt)

abbrev target : Target
target = record { entry = mail; connection = online }

abbrev handle : BackendTask
handle = record { task_id = "m1"; poll_interval_ms = none; ttl_ms = none }

online-IsReachable : IsReachable world "mail" online "http://mail" "token"
online-IsReachable = record {
  connects = λ w. refl;
  has_url = refl;
  has_client = refl;
  resolves = λ w. refl;
}

adopt_backend_task-settled_example :
    let end =
      adopt_backend_task world send target handle
        (record { client_declares_tasks = true; existing_task_id = none })
        start in
    IsHanded world send target handle online "http://mail" "token" end
    ⊎ IsCancelled world send target handle online "http://mail" "token" end
    ⊎ (end.0 ≡ threw store_failed)
adopt_backend_task-settled_example =
    adopt_backend_task-settled world send target handle online "http://mail" "token"
      (record { client_declares_tasks = true; existing_task_id = none }) start online-IsReachable

-- The first poll calls the tool and completes the task, and the second does not call it again.
polled_twice :
    let s = serve_polls world (staff ∷ []) hash as_record as_error "t1" polls start in
    (count_where is_call s.posts ≡ 1)
    × (Option.map (λ t. t.result) (get_record "t1" s.gate.tasks) ≡ some (some "{}"))
unfolding cancel_parked_task cancel_pending_for_task sync_non_terminal_task execute_approved_task
    execute_claimed sync_backend_originated_task find_backend_origin_task call_backend
    resolve_connected_backend connect owner_of proxy_call_to_backend settle_answer
    classify_backend_tool_result send_request post_backend emit claim_approved_execution may_claim
    mark_used get_approval_by_task_id require_owned_task get_record is_mcp_task_expired complete
    finish save overlay is_mcp_task_terminal_status TaskSteps.run ApprovalSteps.run
polled_twice = (refl, refl)
