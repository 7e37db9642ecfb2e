-- ===== src/Approvals/Gate.antt =====
-- The approval gate: apps/torii/src/policy/approval-gate.service.ts, over the approval store and the
-- task store, which one transaction writes together.
use Prim.Native.String
use keidai.Common.{
  ℕ, String, str_eq, Bool, true, false, not, Option, none, some, List, if◌then◌else◌, leb,
}
use keidai.Catalog.{parse_namespaced_tool}
use keidai.Policy.{AgentPrincipal, GroupPolicySnapshot, is_gated_tool_for_groups}
use keidai.Tasks.Inputs.{Payload}
use keidai.Tasks.{
  StoredMcpTask, Table, CreateMcpTaskInput, after, create_working_task, default_mcp_task_ttl_ms,
}
use keidai.Approvals.{
  ApprovalStore, ApprovalRecord, ApprovalRecordStatus, approved, PendingInput, is_pending,
  create_pending_approval, get_approval_by_task_id, find_recent_rejection, mark_used, cancel,
}

-- What the gate writes: the approvals and the tasks.
pub record GateStore : Type 0 where
  pub store : ApprovalStore
  pub tasks : Table

unfoldable pub requires_approval : Option AgentPrincipal → List GroupPolicySnapshot → String → Bool
requires_approval principal groups tool_name = elim (parse_namespaced_tool tool_name) [
  | none ↦ false
  | some t ↦ is_gated_tool_for_groups principal groups t.server t.bare_name
]

pub data GatedCallIntercept : Type 0 where
  denied : Option String → GatedCallIntercept
  parked : StoredMcpTask → GatedCallIntercept

pub record GatedCall : Type 0 where
  pub principal : AgentPrincipal
  pub tool_name : String
  pub upstream_args : Payload
  pub run_id : Option String
  pub step_id : Option String

-- `hashToolParams` is the parameter `hash`; the two ids are what the random sources drew.
module _ (hash : Payload → String) where
  abbrev pub parked_task : GatedCall → CreateMcpTaskInput
  parked_task call = record {
    agent_id = call.principal.agent_id;
    owner_id = call.principal.owner_id;
    request_method = none;
    status_message = some (String.◌++◌ "Awaiting operator approval for " call.tool_name);
    ttl_ms = after default_mcp_task_ttl_ms;
    poll_interval_ms = none;
  }

  abbrev pub pending_for : GatedCall → String → PendingInput
  pending_for call task_id = record {
    principal = call.principal;
    tool_name = call.tool_name;
    params = call.upstream_args;
    params_hash = hash call.upstream_args;
    run_id = call.run_id;
    step_id = call.step_id;
    task_id = some task_id;
    ttl_ms = some default_mcp_task_ttl_ms;
  }

  -- The body of the transaction; `none` is a rollback.
  unfoldable pub park :
      String → String → GatedCall → ℕ → GateStore → Option (StoredMcpTask × GateStore)
  park task_id approval_id call now g =
      let (created, tasks) = create_working_task task_id (parked_task call) now g.tasks in
      elim created [
        | none ↦ none
        | some task ↦
            let (made, store) =
              create_pending_approval approval_id (pending_for call task.task_id) now g.store in
            elim made [
              | none ↦ none
              | some _ ↦ some (task, record { store = store; tasks = tasks })
            ]
      ]

  -- `none` in the result is an exception of the transaction, which leaves both tables as they were
  -- after the look-up of a rejection.
  unfoldable pub intercept_gated_call :
      String → String → GatedCall → ℕ → GateStore → Option GatedCallIntercept × GateStore
  unfolding park
  intercept_gated_call task_id approval_id call now g =
      let (suppressed, store) =
        find_recent_rejection call.principal.agent_id call.tool_name (hash call.upstream_args) now
          g.store in
      let g' = record g { store = store } in
      elim suppressed [
        | some e ↦ (some (denied e.rejection_reason), g')
        | none ↦ elim (park task_id approval_id call now g') [
          | none ↦ (none, g')
          | some (task, g'') ↦ (some (parked task), g'')
        ]
      ]

abbrev pub is_approved : ApprovalRecordStatus → Bool
is_approved approved = true
is_approved _ = false

-- The checks of `claimApprovedExecution` on the record that it read.
unfoldable pub may_claim : AgentPrincipal → ℕ → ApprovalRecord → Bool
may_claim principal now r =
    if not (str_eq r.agent_id principal.agent_id)
    then false
    else if not (is_approved r.status)
    then false
    else not (leb r.expires_at now)

unfoldable pub claim_approved_execution :
    String → AgentPrincipal → ℕ → ApprovalStore → Option ApprovalRecord × ApprovalStore
unfolding may_claim
claim_approved_execution task_id principal now s = elim (get_approval_by_task_id task_id s) [
  | none ↦ (none, s)
  | some r ↦ if may_claim principal now r then mark_used r.id now s else (none, s)
]

unfoldable pub cancel_pending_for_task : String → ℕ → ApprovalStore → ApprovalStore
cancel_pending_for_task task_id now s = elim (get_approval_by_task_id task_id s) [
  | none ↦ s
  | some r ↦ if is_pending r.status then (cancel r.id now s).1 else s
]
