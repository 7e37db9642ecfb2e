-- ===== src/Dispatch/Classify.antt =====
-- What a backend's answer is taken for: apps/torii/src/dispatch/utils/classify-backend-tool-result.ts.
use Prim.Native.String
use keidai.Common.{ℕ, String, str_eq, Bool, not, Option, none, some, if◌then◌else◌}
use keidai.Tasks.Inputs.{Payload}

-- A field `resultType` that is a text or something else.
pub data ResultType : Type 0 where
  result_text : String → ResultType
  result_other : ResultType

pub record BackendTask : Type 0 where
  pub task_id : String
  pub poll_interval_ms : Option ℕ
  pub ttl_ms : Option ℕ

pub data BackendStatus : Type 0 where
  backend_working : Option ℕ → BackendStatus
  backend_input_required : BackendStatus
  backend_completed : Payload → BackendStatus
  backend_failed : Payload → BackendStatus
  backend_cancelled : BackendStatus

-- An answer with what the schemas of `tools/call` and of `tasks/get` parse it to.
pub record Raw : Type 0 where
  pub is_object : Bool
  pub result_type : Option ResultType
  pub as_task : Option BackendTask
  pub as_status : Option BackendStatus
  pub is_error : Bool
  pub body : Payload

pub data Classified : Type 0 where
  complete_result : Payload → Bool → Classified
  task_handle : BackendTask → Classified
  input_required_result : Classified
  unrecognized : String → Classified

abbrev pub create_task_type : String
create_task_type = "task"

abbrev pub complete_type : String
complete_type = "complete"

abbrev pub input_required_type : String
input_required_type = "input_required"

unfoldable pub classify_backend_tool_result : Raw → Classified
classify_backend_tool_result raw =
    if not raw.is_object then unrecognized "invalid" else elim raw.result_type [
      | none ↦ complete_result raw.body raw.is_error
      | some result_other ↦ unrecognized "invalid"
      | some (result_text t) ↦
          if str_eq t create_task_type
          then (elim raw.as_task [
            | none ↦ unrecognized create_task_type
            | some task ↦ task_handle task
          ])
          else if str_eq t input_required_type
          then input_required_result
          else if str_eq t complete_type
          then complete_result raw.body raw.is_error
          else unrecognized t
    ]

abbrev pub backend_input_required_message : String
backend_input_required_message =
    "Backend returned resultType \"input_required\", which Torii does not relay"

abbrev pub backend_task_input_required_message : String
backend_task_input_required_message = "Backend task requires input, which Torii does not relay"

unfoldable pub unrecognized_message : String → String
unrecognized_message t =
    String.◌++◌ "Backend returned unrecognised resultType \"" (String.◌++◌ t "\"")

abbrev pub without_capability_message : String
without_capability_message =
    "Backend returned a task, but the client did not declare io.modelcontextprotocol/tasks"
