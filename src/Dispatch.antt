-- ===== src/Dispatch.antt =====
-- The dispatcher of tool calls: apps/torii/src/dispatch/tool-dispatch.service.ts. This file has its
-- data and what it calls: the catalog, the connections, the credentials and the backends are functions
-- on a world of any type, and the approvals and tasks are the gate's store.
pub mod Classify
pub mod Backend
pub mod Call
pub mod Sync
pub mod Moves
pub mod Sent
pub mod Counted
pub mod Gated
pub mod Polled
pub mod Used
pub mod Once
pub mod Adopted
mod Examples
use keidai.Common.{ℕ, String, Bool, true, false, Option, none, some, List, [], ◌∷◌, ◌++◌}
use keidai.Policy.{AgentPrincipal, PolicyDecision, Reason}
use keidai.Tasks.Inputs.{Payload}
use keidai.Tasks.{StoredMcpTask, Table, LookupError}
use keidai.Tasks.Calls as TaskSteps
use keidai.Approvals.Steps as ApprovalSteps
use keidai.Approvals.Gate.{GateStore}
use keidai.Dispatch.Classify.{Raw}

-- What a call throws; `store_failed` is an exception of the database.
pub data Failure : Type 0 where
  policy_denied_error : String → Failure
  tool_not_found : String → Failure
  backend_unavailable : String → String → Failure
  linking_required : String → Failure
  lookup_failed : LookupError → Failure
  store_failed : Failure
  error_message : String → Failure

pub data Try (A : Type 0) : Type 0 where
  returned : A → Try A
  threw : Failure → Try A

pub record CatalogTool : Type 0 where
  pub server : String
  pub bare_name : String

-- `is_failed` is the state "failed", with the message of the connection's error.
pub record Connection : Type 0 where
  pub name : String
  pub is_failed : Bool
  pub error : Option String
  pub has_client : Bool
  pub http_url : Option String

pub data Request : Type 0 where
  tools_call : String → Payload → Request
  tasks_get : String → Request
  tasks_cancel : String → Request

pub record Post : Type 0 where
  pub url : String
  pub request : Request
  pub credentials : Payload

-- `meanwhile` is what other requests do to the stores while a backend answers, and `text_of` the message
-- of an error.
pub record Backends (W : Type 0) : Type 0 where
  pub find_tool : String → W → Option CatalogTool
  pub get_connection : String → Option String → W → Option Connection
  pub ensure_connected : String → Option String → W → Try Connection × W
  pub resolve : Connection → W → Try Payload × W
  pub answer : Post → W → Try Raw × W
  pub meanwhile : Post → W → List ApprovalSteps.Op × List TaskSteps.Op
  pub new_id : W → String × W
  pub now : W → ℕ
  pub text_of : Failure → String

-- The error of a trace.
pub data TraceError : Type 0 where
  by_policy : Option Reason → TraceError
  unknown_tool : String → TraceError
  unavailable : String → String → TraceError
  tool_error : Payload → TraceError
  message : String → TraceError
  by_failure : Failure → TraceError

pub record CallTrace : Type 0 where
  pub server : String
  pub tool : String
  pub decision : PolicyDecision
  pub error : Option TraceError
  pub task_id : Option String
  pub backend_task_id : Option String
  pub run_id : Option String
  pub step_id : Option String

pub record DispatchState (W : Type 0) : Type 0 where
  pub world : W
  pub gate : GateStore
  pub traces : List CallTrace
  pub posts : List Post

-- The arguments of the call, less those that name the run and the step.
pub record CallContext : Type 0 where
  pub name : String
  pub upstream_args : Payload
  pub run_id : Option String
  pub step_id : Option String
  pub principal : Option AgentPrincipal

pub data CallResult : Type 0 where
  backend_result : Payload → Bool → CallResult
  refused_result : String → CallResult
  linking_result : String → CallResult
  approval_denied : Option String → CallResult
  task_result : StoredMcpTask → CallResult

-- What a trace says beside its call's run and step.
pub record TraceFields : Type 0 where
  pub server : String
  pub tool : String
  pub decision : PolicyDecision
  pub error : Option TraceError
  pub task_id : Option String
  pub backend_task_id : Option String

unfoldable pub emit : {W : Type 0} → CallContext → TraceFields → DispatchState W → DispatchState W
emit ctx fields s = record s {
  traces =
      s.traces
      ++ record {
        server = fields.server;
        tool = fields.tool;
        decision = fields.decision;
        error = fields.error;
        task_id = fields.task_id;
        backend_task_id = fields.backend_task_id;
        run_id = ctx.run_id;
        step_id = ctx.step_id;
      }
        ∷ [];
}

unfoldable pub owner_of : Option AgentPrincipal → Option String
owner_of none = none
owner_of (some p) = some p.owner_id
