-- ===== src/Dispatch/Sync.antt =====
-- What a poll of a task makes the dispatcher do: executeApprovedTask, syncBackendOriginatedTask and
-- cancelParkedTask of apps/torii/src/dispatch/tool-dispatch.service.ts.
use Prim.Native.String
use keidai.Common.{String, Bool, true, false, not, Option, none, some, List, if◌then◌else◌}
use keidai.Policy.{AgentPrincipal, GroupPolicySnapshot}
use keidai.Tasks.Inputs.{Payload}
use keidai.Tasks.{
  StoredMcpTask, McpTaskStatus, working, ok, err, is_mcp_task_terminal_status, require_owned_task,
  complete, fail, attach_backend_origin, request_cancel,
}
use keidai.Approvals.{ApprovalRecord}
use keidai.Approvals.Gate as Gate
use keidai.Dispatch.Classify.{
  Raw, result_text, BackendStatus, backend_working, backend_input_required, backend_completed,
  backend_failed, backend_cancelled, unrecognized_message, backend_task_input_required_message,
}
use keidai.Dispatch.{
  lookup_failed, Try, returned, threw, Connection, tasks_get, Backends, DispatchState, CallContext,
  CallResult, refused_result, task_result,
}
use keidai.Dispatch.Backend.{post_backend, post_backend_cancel}
use keidai.Dispatch.Call.{call_backend}

abbrev pub is_working : McpTaskStatus → Bool
is_working working = true
is_working _ = false

pub record Origin : Type 0 where
  pub server : String
  pub backend_task_id : String

-- `hasBackendOrigin`: both fields, or neither.
abbrev pub backend_origin : StoredMcpTask → Option Origin
backend_origin t = elim t.backend_server [
  | none ↦ none
  | some server ↦ elim t.backend_task_id [
    | none ↦ none
    | some id ↦ some (record { server = server; backend_task_id = id })
  ]
]

unfoldable pub unavailable_text : String → String
unavailable_text server = String.◌++◌ "Backend \"" (String.◌++◌ server "\" is unavailable")

-- `result_record` is `callToolResultToRecord`, `error_record` the JSON of an error.
module _ {W : Type 0} (b : Backends W) (groups : List GroupPolicySnapshot) (hash : Payload → String)
    (result_record : CallResult → Payload) (error_record : String → Payload)
    (principal : AgentPrincipal) where
  abbrev pub complete_task : String → CallResult → DispatchState W → DispatchState W
  complete_task id result s = record s {
    gate = record s.gate {
      tasks = (complete id (result_record result) (b.now s.world) s.gate.tasks).1;
    };
  }

  abbrev pub fail_task : String → Payload → DispatchState W → DispatchState W
  fail_task id error s = record s {
    gate = record s.gate { tasks = (fail id error (b.now s.world) s.gate.tasks).1 };
  }

  abbrev pub settle_task : String → Try CallResult → DispatchState W → DispatchState W
  settle_task id (returned (task_result t)) s = s
  settle_task id (returned result) s = complete_task id result s
  settle_task id (threw e) s = fail_task id (error_record (b.text_of e)) s

  abbrev pub approved_call : ApprovalRecord → CallContext
  approved_call r = record {
    name = r.tool_name;
    upstream_args = r.params;
    run_id = r.run_id;
    step_id = r.step_id;
    principal = some principal;
  }

  -- The call of an approval that was claimed, if its task is still working.
  unfoldable pub execute_claimed :
      String → ApprovalRecord → DispatchState W → Try (Unit {0}) × DispatchState W
  unfolding call_backend
  execute_claimed id r s =
      elim (require_owned_task principal.agent_id id (b.now s.world) s.gate.tasks) [
        | err e ↦ (threw (lookup_failed e), s)
        | ok t ↦
            if not (is_working t.status)
            then (returned tt, s)
            else (let (result, s') =
                  call_backend b groups hash (approved_call r)
                    (record { client_declares_tasks = true; existing_task_id = some id }) s in
                (returned tt, settle_task id result s'))
      ]

  unfoldable pub execute_approved_task : String → DispatchState W → Try (Unit {0}) × DispatchState W
  unfolding execute_claimed
  execute_approved_task id s =
      let (claimed, store) =
        Gate.claim_approved_execution id principal (b.now s.world) s.gate.store in
      let s' = record s { gate = record s.gate { store = store } } in
      elim claimed [ none ↦ (returned tt, s') | some r ↦ execute_claimed id r s' ]

  -- The stored task and the backend's task that it stands for.
  unfoldable pub find_backend_origin_task :
      String → DispatchState W → Option (StoredMcpTask × Origin)
  find_backend_origin_task id s =
      elim (require_owned_task principal.agent_id id (b.now s.world) s.gate.tasks) [
        | err e ↦ none
        | ok t ↦ elim (backend_origin t) [ none ↦ none | some o ↦ some (t, o) ]
      ]

  unfoldable pub abandon_backend_task :
      StoredMcpTask → Origin → String → DispatchState W → DispatchState W
  abandon_backend_task t o text s =
      post_backend_cancel b o.server o.backend_task_id (some t.owner_id)
        (complete_task t.task_id (refused_result text) s)

  abbrev pub result_type_text : Raw → String
  result_type_text raw = elim raw.result_type [ some (result_text t) ↦ t | _ ↦ "invalid" ]

  -- What the backend says of its task, written to the gateway's.
  unfoldable pub mirror_status :
      String → StoredMcpTask → Origin → BackendStatus → DispatchState W → DispatchState W
  unfolding abandon_backend_task
  mirror_status id t o (backend_working interval) s = record s {
    gate = record s.gate {
      tasks =
          (attach_backend_origin id
            (record {
              server = o.server;
              backend_task_id = o.backend_task_id;
              poll_interval_ms = interval;
              status_message = t.status_message;
            })
            (b.now s.world) s.gate.tasks).1;
    };
  }
  mirror_status id t o backend_input_required s =
      abandon_backend_task t o backend_task_input_required_message s
  mirror_status id t o (backend_completed result) s = record s {
    gate = record s.gate { tasks = (complete id result (b.now s.world) s.gate.tasks).1 };
  }
  mirror_status id t o (backend_failed error) s = fail_task id error s
  mirror_status id t o backend_cancelled s = record s {
    gate = record s.gate { tasks = (request_cancel t.agent_id id (b.now s.world) s.gate.tasks).1 };
  }

  -- A poll over a connection that can be used; only the request's own errors are caught.
  unfoldable pub poll_backend :
      String
      → StoredMcpTask
      → Origin
      → Connection
      → String
      → DispatchState W
      → Try (Unit {0}) × DispatchState W
  unfolding mirror_status post_backend
  poll_backend id t o c url s =
      let (resolved, w) = b.resolve c s.world in
      let s' = record s { world = w } in
      elim resolved [
        | threw e ↦ (threw e, s')
        | returned credentials ↦
            let (answer, s'') =
              post_backend b
                (record {
                  url = url;
                  request = tasks_get o.backend_task_id;
                  credentials = credentials;
                })
                s' in
            elim answer [
              | threw e ↦ (returned tt, fail_task id (error_record (b.text_of e)) s'')
              | returned raw ↦ elim raw.as_status [
                | none ↦ (
                  returned tt,
                  abandon_backend_task t o (unrecognized_message (result_type_text raw)) s'',
                )
                | some status ↦ (returned tt, mirror_status id t o status s'')
              ]
            ]
      ]

  unfoldable pub sync_backend_originated_task :
      String → DispatchState W → Try (Unit {0}) × DispatchState W
  unfolding find_backend_origin_task poll_backend
  sync_backend_originated_task id s = elim (find_backend_origin_task id s) [
    | none ↦ (returned tt, s)
    | some (t, o) ↦
        if is_mcp_task_terminal_status t.status
        then (returned tt, s)
        else (let (connected, w) = b.ensure_connected o.server (some t.owner_id) s.world in
            let s' = record s { world = w } in
            elim connected [
              | threw e ↦ (threw e, s')
              | returned c ↦
                  if not c.has_client
                  then (returned tt, fail_task id (error_record (unavailable_text o.server)) s')
                  else elim c.http_url [
                    | none ↦
                        (returned tt, fail_task id (error_record (unavailable_text o.server)) s')
                    | some url ↦ poll_backend id t o c url s'
                  ]
            ])
  ]

  unfoldable pub sync_non_terminal_task :
      String → DispatchState W → Try (Unit {0}) × DispatchState W
  unfolding execute_approved_task sync_backend_originated_task
  sync_non_terminal_task id s =
      let (executed, s') = execute_approved_task id s in
      elim executed [ threw e ↦ (threw e, s') | returned _ ↦ sync_backend_originated_task id s' ]

  unfoldable pub cancel_parked_task : String → DispatchState W → DispatchState W
  unfolding find_backend_origin_task
  cancel_parked_task id s =
      let s' = record s {
        gate = record s.gate {
          store = Gate.cancel_pending_for_task id (b.now s.world) s.gate.store;
        };
      } in
      elim (find_backend_origin_task id s') [
        | none ↦ s'
        | some (t, o) ↦ post_backend_cancel b o.server o.backend_task_id (some t.owner_id) s'
      ]
