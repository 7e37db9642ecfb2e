-- ===== src/Tasks.antt =====
-- The MCP task store: apps/torii/src/tasks/task-store.service.ts, its row type in types/mcp-task.ts,
-- and the helpers of utils/to-mcp-task.ts. The table `mcp_tasks` is the list of its rows; a method
-- takes the table, and returns its result and the table after it. JSON payloads that the store only
-- keeps are opaque texts. Times are numbers of milliseconds.
pub mod Inputs
pub mod Laws
pub mod Calls
pub mod Statements
pub mod Terminal
pub mod Overwritten
pub mod Respond
pub mod Answers
pub mod Access
pub mod Invariant
mod Examples
use keidai.Common.{
  ℕ, ◌+◌, ◌*◌, String, str_eq, Bool, true, false, not, ◌||◌, ◌&&◌, Option, none, some, List, [],
  ◌∷◌, ◌++◌, if◌then◌else◌, leb, find, update_where, count_where, ◌==◌, includes,
}
use keidai.Tasks.Inputs.{Payload, Requests, keys, apply_responses, merge_requests, any_used}

-- packages/shared/src/mcp-tasks.ts
pub data McpTaskStatus : Type 0 where
  working input_required completed failed cancelled : McpTaskStatus

unfoldable pub is_mcp_task_terminal_status : McpTaskStatus → Bool
is_mcp_task_terminal_status completed = true
is_mcp_task_terminal_status failed = true
is_mcp_task_terminal_status cancelled = true
is_mcp_task_terminal_status _ = false

abbrev pub default_mcp_task_ttl_ms : ℕ
default_mcp_task_ttl_ms = 24 * 60 * 60 * 1000

abbrev pub default_mcp_task_poll_interval_ms : ℕ
default_mcp_task_poll_interval_ms = 5000

pub record StoredMcpTask : Type 0 where
  pub task_id : String
  pub agent_id : String
  pub owner_id : String
  pub request_method : String
  pub status : McpTaskStatus
  pub status_message : Option String
  pub created_at_ms : ℕ
  pub last_updated_at_ms : ℕ
  pub ttl_ms : Option ℕ
  pub poll_interval_ms : Option ℕ
  pub input_requests : Option Requests
  pub satisfied_input_keys : List String
  pub result : Option Payload
  pub error : Option Payload
  pub backend_server : Option String
  pub backend_task_id : Option String

-- `undefined` for a `ttlMs` that is left out, `null` for one that never expires.
pub data Ttl : Type 0 where
  unset : Ttl
  never : Ttl
  after : ℕ → Ttl

pub record CreateMcpTaskInput : Type 0 where
  pub agent_id : String
  pub owner_id : String
  pub request_method : Option String
  pub status_message : Option String
  pub ttl_ms : Ttl
  pub poll_interval_ms : Option ℕ

abbrev pub Table : Type 0
Table = List StoredMcpTask

pub data LookupError : Type 0 where
  not_found expired : LookupError

pub data Lookup (A : Type 0) : Type 0 where
  ok : A → Lookup A
  err : LookupError → Lookup A

abbrev pub or_else {ℓ} : {A : Type ℓ} → Option A → A → A
or_else none a = a
or_else (some b) a = b

-- `private getRecord`: the row of a primary key.
unfoldable pub get_record : String → Table → Option StoredMcpTask
get_record id table = find (λ t. str_eq t.task_id id) table

-- The columns that `private save` sets.
unfoldable pub overlay : StoredMcpTask → StoredMcpTask → StoredMcpTask
overlay next row = record row {
  status = next.status;
  status_message = next.status_message;
  last_updated_at_ms = next.last_updated_at_ms;
  poll_interval_ms = next.poll_interval_ms;
  input_requests = next.input_requests;
  satisfied_input_keys = next.satisfied_input_keys;
  result = next.result;
  error = next.error;
  backend_server = next.backend_server;
  backend_task_id = next.backend_task_id;
}

unfoldable pub save : StoredMcpTask → Table → Table
unfolding overlay
save next table = update_where (λ t. str_eq t.task_id next.task_id) (overlay next) table

abbrev ttl_of : Ttl → Option ℕ
ttl_of unset = some default_mcp_task_ttl_ms
ttl_of never = none
ttl_of (after n) = some n

unfoldable pub new_task : String → CreateMcpTaskInput → ℕ → StoredMcpTask
new_task id input now = record {
  task_id = id;
  agent_id = input.agent_id;
  owner_id = input.owner_id;
  request_method = or_else input.request_method "tools/call";
  status = working;
  status_message = input.status_message;
  created_at_ms = now;
  last_updated_at_ms = now;
  ttl_ms = ttl_of input.ttl_ms;
  poll_interval_ms = some (or_else input.poll_interval_ms default_mcp_task_poll_interval_ms);
  input_requests = none;
  satisfied_input_keys = [];
  result = none;
  error = none;
  backend_server = none;
  backend_task_id = none;
}

-- The INSERT of `createWorkingTask` under the id that was drawn; an id that the table has is a
-- violation of the primary key, which throws (`none`).
unfoldable pub create_working_task :
    String → CreateMcpTaskInput → ℕ → Table → Option StoredMcpTask × Table
unfolding get_record new_task
create_working_task id input now table = elim (get_record id table) [
  | some _ ↦ (none, table)
  | none ↦ (some (new_task id input now), table ++ new_task id input now ∷ [])
]

-- `record.ttlMs !== null && record.createdAtMs + record.ttlMs <= now`
unfoldable pub is_mcp_task_expired : StoredMcpTask → ℕ → Bool
is_mcp_task_expired task now = elim task.ttl_ms [
  | none ↦ false
  | some ttl ↦ leb (task.created_at_ms + ttl) now
]

unfoldable pub require_owned_task : String → String → ℕ → Table → Lookup StoredMcpTask
unfolding get_record is_mcp_task_expired
require_owned_task agent_id id now table = elim (get_record id table) [
  | none ↦ err not_found
  | some task ↦
      if not (str_eq task.agent_id agent_id)
      then err not_found
      else if is_mcp_task_expired task now
      then err expired
      else ok task
]

pub record BackendOrigin : Type 0 where
  pub server : String
  pub backend_task_id : String
  pub poll_interval_ms : Option ℕ
  pub status_message : Option String

-- `...(v !== undefined ? { field: v } : {})`
abbrev pub keep_or {ℓ} : {A : Type ℓ} → Option A → Option A → Option A
keep_or none old = old
keep_or (some v) old = some v

abbrev pub attached : BackendOrigin → ℕ → StoredMcpTask → StoredMcpTask
attached origin now task = record task {
  backend_server = some origin.server;
  backend_task_id = some origin.backend_task_id;
  poll_interval_ms = keep_or origin.poll_interval_ms task.poll_interval_ms;
  status_message = keep_or origin.status_message task.status_message;
  last_updated_at_ms = now;
}

-- What the UPDATE of a method writes, if there is one. Each of the methods below is a SELECT and then
-- such an UPDATE, which has no guard but the id; `*_read` is what the method makes of the row that the
-- SELECT found, and the method is a call in which no other statement runs between the two.
abbrev pub update : Option StoredMcpTask → Table → Table
update none table = table
update (some next) table = save next table

abbrev pub attach_read : BackendOrigin → ℕ → Option StoredMcpTask → Option StoredMcpTask
attach_read origin now none = none
attach_read origin now (some task) =
    if is_mcp_task_terminal_status task.status then none else some (attached origin now task)

unfoldable pub attach_backend_origin :
    String → BackendOrigin → ℕ → Table → Option StoredMcpTask × Table
unfolding get_record save is_mcp_task_terminal_status
attach_backend_origin id origin now table =
    let next = attach_read origin now (get_record id table) in (next, update next table)

abbrev pub is_input_required : McpTaskStatus → Bool
is_input_required input_required = true
is_input_required _ = false

-- The record that `applyInputResponses` saves, from the outstanding and satisfied keys of its loop.
abbrev pub answered : Requests → List String → ℕ → StoredMcpTask → StoredMcpTask
answered [] satisfied now task = record task {
  status = working;
  input_requests = none;
  satisfied_input_keys = satisfied;
  last_updated_at_ms = now;
}
answered (r ∷ rs) satisfied now task = record task {
  status = input_required;
  input_requests = some (r ∷ rs);
  satisfied_input_keys = satisfied;
  last_updated_at_ms = now;
}

abbrev pub apply_to : List String → ℕ → StoredMcpTask → StoredMcpTask
apply_to responses now task =
    let (outstanding, satisfied) =
      apply_responses responses (or_else task.input_requests []) task.satisfied_input_keys in
    answered outstanding satisfied now task

-- The answer of the methods that only acknowledge.
abbrev pub acknowledged : Lookup StoredMcpTask → Lookup (Unit {0})
acknowledged (err e) = err e
acknowledged (ok task) = ok tt

abbrev pub respond_read : List String → ℕ → Lookup StoredMcpTask → Option StoredMcpTask
respond_read responses now (err e) = none
respond_read responses now (ok task) =
    if is_input_required task.status then some (apply_to responses now task) else none

unfoldable pub apply_input_responses :
    String → String → List String → ℕ → Table → Lookup (Unit {0}) × Table
unfolding require_owned_task save
apply_input_responses agent_id id responses now table =
    let found = require_owned_task agent_id id now table in
    (acknowledged found, update (respond_read responses now found) table)

abbrev pub cancelled_task : ℕ → StoredMcpTask → StoredMcpTask
cancelled_task now task = record task {
  status = cancelled;
  input_requests = none;
  last_updated_at_ms = now;
}

abbrev pub cancel_read : ℕ → Lookup StoredMcpTask → Option StoredMcpTask
cancel_read now (err e) = none
cancel_read now (ok task) =
    if is_mcp_task_terminal_status task.status then none else some (cancelled_task now task)

unfoldable pub request_cancel : String → String → ℕ → Table → Lookup (Unit {0}) × Table
unfolding require_owned_task save is_mcp_task_terminal_status
request_cancel agent_id id now table =
    let found = require_owned_task agent_id id now table in
    (acknowledged found, update (cancel_read now found) table)

-- `throws` is the error of a key that was used before.
pub data RequireInput : Type 0 where
  throws : RequireInput
  returns : Option StoredMcpTask → RequireInput

abbrev pub requiring : Requests → ℕ → StoredMcpTask → StoredMcpTask
requiring requests now task = record task {
  status = input_required;
  input_requests = some (merge_requests (or_else task.input_requests []) requests);
  last_updated_at_ms = now;
}

abbrev pub require_read : Requests → ℕ → Option StoredMcpTask → RequireInput
require_read requests now none = returns none
require_read requests now (some task) =
    if is_mcp_task_terminal_status task.status
    then returns none
    else if any_used task.satisfied_input_keys (keys requests)
    then throws
    else returns (some (requiring requests now task))

-- The record of the answer is the one that is saved.
abbrev pub required : RequireInput → Option StoredMcpTask
required throws = none
required (returns next) = next

unfoldable pub require_input : String → Requests → ℕ → Table → RequireInput × Table
unfolding get_record save is_mcp_task_terminal_status
require_input id requests now table =
    let answer = require_read requests now (get_record id table) in
    (answer, update (required answer) table)

abbrev pub finished :
    McpTaskStatus → Option Payload → Option Payload → ℕ → StoredMcpTask → StoredMcpTask
finished status result error now task = record task {
  status = status;
  result = result;
  error = error;
  input_requests = none;
  last_updated_at_ms = now;
}

abbrev pub finish_read :
    McpTaskStatus
    → Option Payload
    → Option Payload
    → ℕ
    → Option StoredMcpTask
    → Option StoredMcpTask
finish_read status result error now none = none
finish_read status result error now (some task) =
    if is_mcp_task_terminal_status task.status
    then none
    else some (finished status result error now task)

-- `private finish`; a task that is already terminal is returned as it is.
unfoldable pub finish :
    String
    → McpTaskStatus
    → Option Payload
    → Option Payload
    → ℕ
    → Table
    → Option StoredMcpTask × Table
unfolding get_record save is_mcp_task_terminal_status
finish id status result error now table =
    let found = get_record id table in
    let next = finish_read status result error now found in
    (elim next [ none ↦ found | some task ↦ some task ], update next table)

unfoldable pub complete : String → Payload → ℕ → Table → Option StoredMcpTask × Table
unfolding finish
complete id result now table = finish id completed (some result) none now table

unfoldable pub fail : String → Payload → ℕ → Table → Option StoredMcpTask × Table
unfolding finish
fail id error now table = finish id failed none (some error) now table
