-- ===== src/Approvals.antt =====
-- The approval store: apps/torii/src/policy/approval-store.service.ts. The tables `approvals` and
-- `approval_rejections` are lists of rows; a method takes the store, and returns its result and the
-- store after it. Times are numbers of milliseconds; `x < now - ttl` is written `x + ttl < now`.
-- The gate that uses the store is `Approvals.Gate`.
pub mod Gate
pub mod Decide
pub mod Parking
pub mod Steps
pub mod Keys
pub mod Single
pub mod Suppress
mod Examples
use keidai.Common.{
  ℕ, ◌+◌, ◌*◌, String, str_eq, Bool, true, false, ◌||◌, ◌&&◌, Option, none, some, List, [], ◌∷◌,
  ◌++◌, if◌then◌else◌, leb, ltb, ◌==◌, find, any, update_where, count_where, delete_where, min, max,
}
use keidai.Tasks.Inputs.{Payload}
use keidai.Policy.{AgentPrincipal}

abbrev pub default_approval_ttl_ms : ℕ
default_approval_ttl_ms = 24 * 60 * 60 * 1000

abbrev pub rejection_suppression_ttl_ms : ℕ
rejection_suppression_ttl_ms = 60 * 60 * 1000

-- packages/shared/src/approval.ts
pub data ApprovalRecordStatus : Type 0 where
  pending approved rejected cancelled : ApprovalRecordStatus

pub record ApprovalRecord : Type 0 where
  pub id : String
  pub agent_id : String
  pub owner_id : String
  pub tool_name : String
  pub params : Payload
  pub params_hash : String
  pub run_id : Option String
  pub step_id : Option String
  pub task_id : Option String
  pub status : ApprovalRecordStatus
  pub rejection_reason : Option String
  pub created_at : ℕ
  pub expires_at : ℕ
  pub decided_at : Option ℕ
  pub used_at : Option ℕ

pub record RejectedParamsEntry : Type 0 where
  pub agent_id : String
  pub tool_name : String
  pub params_hash : String
  pub rejection_reason : Option String
  pub rejected_at : ℕ

pub record ApprovalStore : Type 0 where
  pub approvals : List ApprovalRecord
  pub rejections : List RejectedParamsEntry

pub record PendingInput : Type 0 where
  pub principal : AgentPrincipal
  pub tool_name : String
  pub params : Payload
  pub params_hash : String
  pub run_id : Option String
  pub step_id : Option String
  pub task_id : Option String
  pub ttl_ms : Option ℕ

abbrev ttl_or : Option ℕ → ℕ
ttl_or none = default_approval_ttl_ms
ttl_or (some ttl) = ttl

unfoldable pub new_approval : String → PendingInput → ℕ → ApprovalRecord
new_approval id input now = record {
  id = id;
  agent_id = input.principal.agent_id;
  owner_id = input.principal.owner_id;
  tool_name = input.tool_name;
  params = input.params;
  params_hash = input.params_hash;
  run_id = input.run_id;
  step_id = input.step_id;
  task_id = input.task_id;
  status = pending;
  rejection_reason = none;
  created_at = now;
  expires_at = now + ttl_or input.ttl_ms;
  decided_at = none;
  used_at = none;
}

-- `task_id = $1`, false on NULL.
abbrev pub is_task : String → Option String → Bool
is_task id none = false
is_task id (some task_id) = str_eq task_id id

unfoldable pub get_approval : String → ApprovalStore → Option ApprovalRecord
get_approval id s = find (λ r. str_eq r.id id) s.approvals

unfoldable pub get_approval_by_task_id : String → ApprovalStore → Option ApprovalRecord
get_approval_by_task_id task_id s = find (λ r. is_task task_id r.task_id) s.approvals

-- A row that breaks the primary key or the unique index on `task_id`.
unfoldable pub conflicts : ApprovalRecord → ApprovalRecord → Bool
conflicts new r =
    str_eq r.id new.id
    || (elim new.task_id [ none ↦ false | some task_id ↦ is_task task_id r.task_id ])

-- The INSERT of `createPendingApproval` under the id that was drawn; `none` when it throws.
unfoldable pub create_pending_approval :
    String → PendingInput → ℕ → ApprovalStore → Option ApprovalRecord × ApprovalStore
unfolding conflicts
create_pending_approval id input now s =
    if any (conflicts (new_approval id input now)) s.approvals then (none, s) else (
      some (new_approval id input now),
      record s { approvals = s.approvals ++ new_approval id input now ∷ [] },
    )

abbrev pub is_pending : ApprovalRecordStatus → Bool
is_pending pending = true
is_pending _ = false

-- The statuses that `decidePending` is called with.
pub data Decision : Type 0 where
  approve_it reject_it cancel_it : Decision

abbrev pub status_of : Decision → ApprovalRecordStatus
status_of approve_it = approved
status_of reject_it = rejected
status_of cancel_it = cancelled

-- `status === "rejected" ? (rejectionReason ?? null) : null`
abbrev pub reason_of : Decision → Option String → Option String
reason_of reject_it reason = reason
reason_of _ reason = none

abbrev pub decided : Decision → Option String → ℕ → ApprovalRecord → ApprovalRecord
decided d reason now r = record r {
  status = status_of d;
  rejection_reason = reason_of d reason;
  decided_at = some now;
}

-- `status = 'pending' AND expires_at > $5`
abbrev pub is_decidable : ℕ → ApprovalRecord → Bool
is_decidable now r = is_pending r.status && ltb now r.expires_at

unfoldable pub decide_pending :
    String → Decision → Option String → ℕ → ApprovalStore → Option ApprovalRecord × ApprovalStore
unfolding get_approval
decide_pending id d reason now s =
    let matches : ApprovalRecord → Bool = λ r. str_eq r.id id && is_decidable now r in
    let s' = record s { approvals = update_where matches (decided d reason now) s.approvals } in
    (if count_where matches s.approvals == 0 then none else get_approval id s', s')

unfoldable pub approve : String → ℕ → ApprovalStore → Option ApprovalRecord × ApprovalStore
unfolding decide_pending
approve id now s = decide_pending id approve_it none now s

unfoldable pub cancel : String → ℕ → ApprovalStore → Option ApprovalRecord × ApprovalStore
unfolding decide_pending
cancel id now s = decide_pending id cancel_it none now s

-- `rejected_at < now - ttl`
abbrev pub is_stale : ℕ → RejectedParamsEntry → Bool
is_stale now e = ltb (e.rejected_at + rejection_suppression_ttl_ms) now

unfoldable pub prune_rejections : ℕ → ApprovalStore → ApprovalStore
prune_rejections now s = record s { rejections = delete_where (is_stale now) s.rejections }

-- A row of `approval_rejections` under one primary key.
abbrev pub is_rejection_of : String → String → String → RejectedParamsEntry → Bool
is_rejection_of agent_id tool_name params_hash e =
    str_eq e.agent_id agent_id && (str_eq e.tool_name tool_name && str_eq e.params_hash params_hash)

-- `INSERT ... ON CONFLICT (agent_id, tool_name, params_hash) DO UPDATE`
unfoldable pub upsert_rejection : RejectedParamsEntry → ApprovalStore → ApprovalStore
upsert_rejection new s =
    let same : RejectedParamsEntry → Bool =
      is_rejection_of new.agent_id new.tool_name new.params_hash in
    record s {
      rejections =
          if any same s.rejections
          then update_where same
              (λ e. record e {
                rejection_reason = new.rejection_reason;
                rejected_at = new.rejected_at;
              })
              s.rejections
          else s.rejections ++ new ∷ [];
    }

abbrev pub rejection_of : ApprovalRecord → Option String → ℕ → RejectedParamsEntry
rejection_of r reason now = record {
  agent_id = r.agent_id;
  tool_name = r.tool_name;
  params_hash = r.params_hash;
  rejection_reason = reason;
  rejected_at = now;
}

unfoldable pub reject :
    String → Option String → ℕ → ApprovalStore → Option ApprovalRecord × ApprovalStore
unfolding decide_pending upsert_rejection prune_rejections
reject id reason now s =
    let (r?, s') = decide_pending id reject_it reason now s in
    elim r? [
      | none ↦ (none, s')
      | some r ↦ (some r, prune_rejections now (upsert_rejection (rejection_of r reason now) s'))
    ]

abbrev pub is_unused : ApprovalRecord → Bool
is_unused r = elim r.used_at [ none ↦ true | some _ ↦ false ]

unfoldable pub mark_used : String → ℕ → ApprovalStore → Option ApprovalRecord × ApprovalStore
unfolding get_approval
mark_used id now s =
    let matches : ApprovalRecord → Bool = λ r. str_eq r.id id && is_unused r in
    let s' = record s {
      approvals = update_where matches (λ r. record r { used_at = some now }) s.approvals;
    } in
    (if count_where matches s.approvals == 0 then none else get_approval id s', s')

unfoldable pub find_recent_rejection :
    String → String → String → ℕ → ApprovalStore → Option RejectedParamsEntry × ApprovalStore
unfolding prune_rejections
find_recent_rejection agent_id tool_name params_hash now s =
    let s' = prune_rejections now s in
    (
      find
          (λ e.
            is_rejection_of agent_id tool_name params_hash e
            && leb now (e.rejected_at + rejection_suppression_ttl_ms))
          s'.rejections,
      s',
    )
