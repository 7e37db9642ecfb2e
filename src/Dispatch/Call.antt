-- ===== src/Dispatch/Call.antt =====
-- A tool call of an agent, from the policy to the backend's answer: callTool, enforcePolicyOrThrow,
-- tryHandleApprovalGate and proxyCallToBackend of
-- apps/torii/src/dispatch/tool-dispatch.service.ts.
use keidai.Common.{String, Bool, Option, none, some, List, if◌then◌else◌}
use keidai.Policy.{AgentPrincipal, GroupPolicySnapshot, allowed, denied, evaluate_policy}
use keidai.Tasks.Inputs.{Payload}
use keidai.Approvals.Gate as Gate
use keidai.Dispatch.Classify.{
  Raw, classify_backend_tool_result, complete_result, task_handle, input_required_result,
  unrecognized, unrecognized_message, backend_input_required_message,
}
use keidai.Dispatch.{
  Failure, policy_denied_error, linking_required, store_failed, Try, returned, threw, tools_call,
  Backends, by_policy, tool_error, message, by_failure, DispatchState, CallContext, CallResult,
  backend_result, refused_result, linking_result, approval_denied, task_result, emit,
}
use keidai.Dispatch.Backend.{
  Target, ProxyOptions, about, entry_of, resolve_connected_backend, send_request,
  adopt_backend_task,
}

module _ {W : Type 0} (b : Backends W) where
  -- The answer of the backend, as a result or a task of the gateway. What `adoptBackendTask` throws is
  -- not caught here: its promise is returned, not awaited.
  unfoldable pub settle_answer :
      CallContext → Target → ProxyOptions → Raw → DispatchState W → Try CallResult × DispatchState W
  unfolding classify_backend_tool_result
  settle_answer ctx target options raw s = elim (classify_backend_tool_result raw) [
    | complete_result body is_error ↦ (
      returned (backend_result body is_error),
      emit ctx (about target.entry (if is_error then some (tool_error body) else none)) s,
    )
    | task_handle task ↦ adopt_backend_task b ctx target task options s
    | input_required_result ↦ (
      returned (refused_result backend_input_required_message),
      emit ctx (about target.entry (some (message backend_input_required_message))) s,
    )
    | unrecognized t ↦ (
      returned (refused_result (unrecognized_message t)),
      emit ctx (about target.entry (some (message (unrecognized_message t)))) s,
    )
  ]

  unfoldable pub proxy_failed :
      CallContext → Target → Failure → DispatchState W → Try CallResult × DispatchState W
  proxy_failed ctx target (linking_required text) s =
      (returned (linking_result text), emit ctx (about target.entry (some (message text))) s)
  proxy_failed ctx target e s = (threw e, emit ctx (about target.entry (some (by_failure e))) s)

  unfoldable pub proxy_call_to_backend :
      CallContext → Target → ProxyOptions → DispatchState W → Try CallResult × DispatchState W
  unfolding settle_answer proxy_failed
  proxy_call_to_backend ctx target options s =
      let (answer, s') =
        send_request b target.connection (tools_call target.entry.bare_name ctx.upstream_args) s in
      elim answer [
        | threw e ↦ proxy_failed ctx target e s'
        | returned raw ↦ settle_answer ctx target options raw s'
      ]

  module _ (groups : List GroupPolicySnapshot) (hash : Payload → String) where
    unfoldable pub enforce_policy : CallContext → DispatchState W → Try (Unit {0}) × DispatchState W
    enforce_policy ctx s =
        let evaluation =
          evaluate_policy ctx.principal groups (entry_of ctx).server (entry_of ctx).bare_name in
        elim evaluation.decision [
          | allowed ↦ (returned tt, s)
          | denied ↦ (
            threw (policy_denied_error ctx.name),
            emit ctx
                (record (about (entry_of ctx) (some (by_policy evaluation.reason))) {
                  decision = denied;
                })
                s,
          )
        ]

    abbrev pub gated_result : Gate.GatedCallIntercept → CallResult
    gated_result (Gate.denied reason) = approval_denied reason
    gated_result (Gate.parked task) = task_result task

    abbrev pub gated_call : CallContext → AgentPrincipal → Gate.GatedCall
    gated_call ctx principal = record {
      principal = principal;
      tool_name = ctx.name;
      upstream_args = ctx.upstream_args;
      run_id = ctx.run_id;
      step_id = ctx.step_id;
    }

    -- A gated call: what the gate makes of it, under the ids that it draws.
    unfoldable pub gate_call :
        CallContext → AgentPrincipal → DispatchState W → Try CallResult × DispatchState W
    gate_call ctx principal s =
        let (task_id, w) = b.new_id s.world in
        let (approval_id, w') = b.new_id w in
        let (intercepted, gate) =
          Gate.intercept_gated_call hash task_id approval_id (gated_call ctx principal) (b.now w')
            s.gate in
        let s' = record s { world = w'; gate = gate } in
        elim intercepted [
          | none ↦ (threw store_failed, s')
          | some i ↦ (returned (gated_result i), emit ctx (about (entry_of ctx) none) s')
        ]

    unfoldable pub call_backend :
        CallContext → ProxyOptions → DispatchState W → Try CallResult × DispatchState W
    unfolding resolve_connected_backend proxy_call_to_backend
    call_backend ctx options s =
        let (target, s') = resolve_connected_backend b ctx s in
        elim target [
          | threw e ↦ (threw e, s')
          | returned t ↦ proxy_call_to_backend ctx t options s'
        ]

    -- The principal whose call an approval of the operator has to let through.
    unfoldable pub gated_principal : CallContext → Option AgentPrincipal
    gated_principal ctx = elim ctx.principal [
      | none ↦ none
      | some p ↦ if Gate.requires_approval (some p) groups ctx.name then some p else none
    ]

    unfoldable pub call_tool :
        CallContext → Bool → DispatchState W → Try CallResult × DispatchState W
    unfolding enforce_policy gate_call call_backend gated_principal
    call_tool ctx client_declares_tasks s =
        let (permitted, s') = enforce_policy ctx s in
        elim permitted [
          | threw e ↦ (threw e, s')
          | returned _ ↦ elim (gated_principal ctx) [
            | some p ↦ gate_call ctx p s'
            | none ↦
                call_backend ctx
                  (record {
                    client_declares_tasks = client_declares_tasks;
                    existing_task_id = none;
                  })
                  s'
          ]
        ]
