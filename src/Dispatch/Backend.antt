-- ===== src/Dispatch/Backend.antt =====
-- A tool call at its backend: resolveConnectedBackend, proxyCallToBackend, adoptBackendTask,
-- rejectBackendTask and postBackendCancel of apps/torii/src/dispatch/tool-dispatch.service.ts.
use Prim.Native.String
use keidai.Common.{
  String, Bool, true, false, not, ◌&&◌, ◌||◌, Option, none, some, [], ◌∷◌, ◌++◌, if◌then◌else◌,
}
use keidai.Catalog.{parse_namespaced_tool_name}
use keidai.Policy.{AgentPrincipal, allowed}
use keidai.Tasks.{
  BackendOrigin, CreateMcpTaskInput, never, after, create_working_task, attach_backend_origin,
}
use keidai.Tasks.Calls as TaskSteps
use keidai.Approvals.Steps as ApprovalSteps
use keidai.Dispatch.Classify.{Raw, BackendTask, without_capability_message}
use keidai.Dispatch.{
  tool_not_found, backend_unavailable, store_failed, error_message, Try, returned, threw,
  CatalogTool, Connection, Request, tasks_cancel, Post, Backends, TraceError, unknown_tool,
  unavailable, message, DispatchState, CallContext, CallResult, refused_result, task_result,
  TraceFields, emit, owner_of,
}

pub record Target : Type 0 where
  pub entry : CatalogTool
  pub connection : Connection

pub record ProxyOptions : Type 0 where
  pub client_declares_tasks : Bool
  pub existing_task_id : Option String

-- A trace of the call that was allowed, under a tool's own server and name.
abbrev pub about : CatalogTool → Option TraceError → TraceFields
about entry error = record {
  server = entry.server;
  tool = entry.bare_name;
  decision = allowed;
  error = error;
  task_id = none;
  backend_task_id = none;
}

-- The name as the caller wrote it.
abbrev pub entry_of : CallContext → CatalogTool
entry_of ctx =
    let parsed = parse_namespaced_tool_name ctx.name in
    record { server = parsed.server; bare_name = parsed.bare_name }

-- `!connection || connection.state === "failed" || !connection.client`
abbrev pub is_unusable : Option Connection → Bool
is_unusable none = true
is_unusable (some c) = c.is_failed || not c.has_client

-- `connection.error?.message ?? "connection failed"`
abbrev pub failed_reason : Connection → String
failed_reason c = elim c.error [ none ↦ "connection failed" | some e ↦ e ]

abbrev is_absent : Option String → Bool
is_absent none = true
is_absent (some id) = false

module _ {W : Type 0} (b : Backends W) where
  -- The connection that is there, or the one that another attempt brings.
  unfoldable pub connect : String → Option String → W → Try Connection × W
  connect server owner w = elim (b.get_connection server owner w) [
    | none ↦ b.ensure_connected server owner w
    | some c ↦ if is_unusable (some c) then b.ensure_connected server owner w else (returned c, w)
  ]

  unfoldable pub unavailable_backend :
      {A : Type 0} → CallContext → CatalogTool → String → DispatchState W → Try A × DispatchState W
  unavailable_backend ctx entry reason s = (
    threw (backend_unavailable entry.server reason),
    emit ctx (about entry (some (unavailable entry.server reason))) s,
  )

  unfoldable pub resolve_connected_backend :
      CallContext → DispatchState W → Try Target × DispatchState W
  unfolding connect unavailable_backend
  resolve_connected_backend ctx s = elim (b.find_tool ctx.name s.world) [
    | none ↦ (
      threw (tool_not_found ctx.name),
      emit ctx (about (entry_of ctx) (some (unknown_tool ctx.name))) s,
    )
    | some entry ↦
        let (connected, w) = connect entry.server (owner_of ctx.principal) s.world in
        let s' = record s { world = w } in
        elim connected [
          | threw e ↦ unavailable_backend ctx entry (b.text_of e) s'
          | returned c ↦
              if c.is_failed
              then unavailable_backend ctx entry (failed_reason c) s'
              else if not c.has_client
              then unavailable_backend ctx entry "not connected" s'
              else (returned (record { entry = entry; connection = c }), s')
        ]
  ]

  -- A request to a backend, and what other requests do to the stores meanwhile.
  unfoldable pub post_backend : Post → DispatchState W → Try Raw × DispatchState W
  post_backend post s =
      let (answer, w) = b.answer post s.world in
      let (approval_steps, task_steps) = b.meanwhile post s.world in
      (
        answer,
        record s {
          world = w;
          gate = record {
            store = ApprovalSteps.run approval_steps s.gate.store;
            tasks = TaskSteps.run task_steps s.gate.tasks;
          };
          posts = s.posts ++ post ∷ [];
        },
      )

  -- The credentials, then the URL, then the request.
  unfoldable pub send_request : Connection → Request → DispatchState W → Try Raw × DispatchState W
  unfolding post_backend
  send_request c request s =
      let (resolved, w) = b.resolve c s.world in
      let s' = record s { world = w } in
      elim resolved [
        | threw e ↦ (threw e, s')
        | returned credentials ↦ elim c.http_url [
          | none ↦ (
            threw (
                error_message (
                  String.◌++◌ "Unsupported transport type for server \""
                    (String.◌++◌ c.name "\""))),
            s',
          )
          | some url ↦
              post_backend (record { url = url; request = request; credentials = credentials }) s'
        ]
      ]

  -- Whatever goes wrong is swallowed.
  unfoldable pub post_backend_cancel :
      String → String → Option String → DispatchState W → DispatchState W
  unfolding send_request
  post_backend_cancel server backend_task_id owner s =
      let (connected, w) = b.ensure_connected server owner s.world in
      let s' = record s { world = w } in
      elim connected [
        | threw e ↦ s'
        | returned c ↦ elim c.http_url [
          | none ↦ s'
          | some url ↦
              if not c.has_client then s' else (send_request c (tasks_cancel backend_task_id) s').1
        ]
      ]

  unfoldable pub reject_backend_task :
      CallContext → Target → BackendTask → String → DispatchState W → CallResult × DispatchState W
  unfolding post_backend_cancel
  reject_backend_task ctx target task text s = (
    refused_result text,
    post_backend_cancel target.entry.server task.task_id none (
        emit ctx
          (record (about target.entry (some (message text))) {
            backend_task_id = some task.task_id;
          })
          s),
  )

  abbrev pub waiting_message : CatalogTool → String
  waiting_message entry = String.◌++◌ "Waiting on " (String.◌++◌ entry.server " task")

  abbrev pub origin_of : CatalogTool → BackendTask → BackendOrigin
  origin_of entry task = record {
    server = entry.server;
    backend_task_id = task.task_id;
    poll_interval_ms = task.poll_interval_ms;
    status_message = some (waiting_message entry);
  }

  abbrev pub reminted : AgentPrincipal → CatalogTool → BackendTask → CreateMcpTaskInput
  reminted principal entry task = record {
    agent_id = principal.agent_id;
    owner_id = principal.owner_id;
    request_method = none;
    status_message = some (waiting_message entry);
    ttl_ms = elim task.ttl_ms [ none ↦ never | some n ↦ after n ];
    poll_interval_ms = task.poll_interval_ms;
  }

  -- The gateway's task for the backend's: the one that there is, or a new one.
  unfoldable pub task_for :
      AgentPrincipal
      → CatalogTool
      → BackendTask
      → Option String
      → DispatchState W
      → Try String × DispatchState W
  task_for principal entry task (some id) s = (returned id, s)
  task_for principal entry task none s =
      let (id, w) = b.new_id s.world in
      let (created, tasks) =
        create_working_task id (reminted principal entry task) (b.now w) s.gate.tasks in
      let s' = record s { world = w; gate = record s.gate { tasks = tasks } } in
      elim created [ none ↦ (threw store_failed, s') | some t ↦ (returned t.task_id, s') ]

  unfoldable pub adopt_backend_task :
      CallContext
      → Target
      → BackendTask
      → ProxyOptions
      → DispatchState W
      → Try CallResult × DispatchState W
  unfolding reject_backend_task task_for
  adopt_backend_task ctx target task options s =
      let reject : String → DispatchState W → Try CallResult × DispatchState W =
        λ text s. let (r, s') = reject_backend_task ctx target task text s in (returned r, s') in
      if not options.client_declares_tasks && is_absent options.existing_task_id
      then reject without_capability_message s
      else elim ctx.principal [
        | none ↦ reject "Backend returned a task but the call has no agent principal" s
        | some principal ↦
            let (id, s') = task_for principal target.entry task options.existing_task_id s in
            elim id [
              | threw e ↦ (threw e, s')
              | returned id ↦
                  let (stored, tasks) =
                    attach_backend_origin id (origin_of target.entry task) (b.now s'.world)
                      s'.gate.tasks in
                  let s'' = record s' { gate = record s'.gate { tasks = tasks } } in
                  elim stored [
                    | none ↦ reject "Failed to persist backend-originated task" s''
                    | some t ↦ (
                      returned (task_result t),
                      emit ctx
                          (record (about target.entry none) {
                            task_id = some t.task_id;
                            backend_task_id = some task.task_id;
                          })
                          s'',
                    )
                  ]
            ]
      ]
