-- ===== src/Lib.antt =====
-- Keidai runs agents' tasks behind a gateway. Torii (apps/torii) is the gateway: it evaluates the
-- group policies on each tool call, parks a gated call as an MCP task with an approval of the operator,
-- and executes it once approved. Shaiden (apps/shaiden) runs the tasks: a loop of model calls and tool
-- calls, whose tools are Torii's. Packages that both share stand in packages/shared.
--
-- The files and the code they model:
--   Policy: apps/torii/src/policy/utils/evaluate-policy.ts (evaluatePolicy, isGatedToolForGroups,
--     isToolGrantedByAnyGroup), with its specification in Policy/Spec and the theorems in Policy/Laws;
--     Policy/Validate: apps/torii/src/policy/utils/assert-valid-group-servers.ts.
--   Catalog: the parsers of tool names, apps/torii/src/catalog/utils/namespacing.ts and
--     apps/torii/src/trace/utils/parse-namespaced-tool-name.ts.
--   Tasks: apps/torii/src/tasks/task-store.service.ts. Tasks/Inputs has the input requests of a task;
--     Tasks/Laws what a method may save; Tasks/Calls has calls of the methods, Tasks/Statements their SELECTs
--     and UPDATEs in any order; Tasks/Terminal, Overwritten, Invariant, Access, Answers and Respond are the
--     theorems.
--   Approvals: apps/torii/src/policy/approval-store.service.ts; Approvals/Gate:
--     apps/torii/src/policy/approval-gate.service.ts. Approvals/Decide, Steps, Keys, Single, Suppress and
--     Parking are the theorems.
--   Run: apps/shaiden/src/run. Run/Pending: pending-tool-calls.ts; Run/Assessment: step-assessment.ts and
--     the step that model-step.ts makes; Run/Stop: run-stop-controller.ts; Run/Loop and Run/Loop/Rounds:
--     task-loop.ts. Run/Loop/Proper, Results, Outcome, Returns and Failed are the theorems on the loop.
--   Runs: the run repository, apps/shaiden/src/runs/pg-run-repository.ts, over the tables of
--     apps/shaiden/src/storage/migrations/001_baseline.ts: Runs has the rows, create, appendStep and
--     complete, Runs/Ops the updates of one run and its lease, Runs/FollowUps the messages for a parked
--     run, Runs/Continue beginContinuation with runs/utils/conversation-history.ts, and Runs/Steps any
--     sequence of operations. Runs/Changes, Updates and Applied say what an operation may change;
--     Runs/Single, Held, Lease, Ordered, Queue and Restart are the theorems.
--   Dispatch: apps/torii/src/dispatch/tool-dispatch.service.ts, over the approvals and the tasks:
--     Dispatch/Classify is utils/classify-backend-tool-result.ts beside it, Dispatch/Backend the call at
--     its backend, Dispatch/Call callTool, and Dispatch/Sync the execution of an approved call and the
--     polls and cancels of a backend's task. Dispatch/Moves, Sent, Counted, Gated and Polled say what each
--     step sends, records and writes, and Dispatch/Used is about claims; Gated, Once and Adopted have the
--     theorems.
--   Schedule: the triggers of packages/shared/src/task.ts; Schedule/Civil and Schedule/NextRun:
--     packages/shared/src/next-run-at.ts, with Text, Cursor, Instants, Found and Total on the way to the
--     theorems of Recurring, After and Same; Schedule/Rows and Edits:
--     apps/shaiden/src/tasks/pg-task-repository.ts; Schedule/Dispatcher:
--     apps/shaiden/src/schedule/schedule-dispatcher.ts. Schedule/Sleep, Slots, Outcomes, Ops and Edited
--     have the theorems on the table of tasks and on the dispatcher.
--   Harness: a worker that drives runs, over the run repository: Harness has run/run-completion.ts and the
--     local reporter of run/run-reporter.ts in apps/shaiden/src, Harness/Sweep: run/resume-parked-runs.ts
--     and parkedTaskPollFromGet of mcp/poll-mcp-task.ts, Harness/Waiter: run/parked-mcp-task-waiter.ts,
--     and Harness/Drive: driveHarnessRun of run/harness.ts. Leased, Tracked and Stages follow the row of
--     a run; Overtaken and Looped the worker
--     whose run another one holds; Swept, Released, Refused, Hibernated and Taken are the theorems.
--   Common: Boolean tests on the native numbers, lists, and tables of keyed rows.
--
-- A table of the database is a list of rows, and a method takes the table and returns its result and the
-- table after it. Where a method is one SQL statement, or a transaction, the interleavings of concurrent
-- callers are sequences of such steps (Op and run of Approvals/Steps, RunOp and apply_ops of Runs/Steps).
-- The methods of the task store are not: each is a SELECT and then an UPDATE without a guard, outside a
-- transaction. Tasks/Statements has these as statements of their own, in any order. Where the dispatcher
-- and others call the store's methods (Op and run of Tasks/Calls), each call is one step, in which no other
-- statement comes between its SELECT and its UPDATE; the theorems of Dispatch hold for such calls only.
-- A method of the run repository that reads a row before its statement is one step as well. The times
-- that the code reads from the clock and the ids that it draws are arguments. Times are natural numbers
-- of milliseconds.
-- JSON values that are only stored and echoed are their text; an object of input requests is an
-- association list, and the order in which a JSON object lists its keys is not modelled. hashToolParams
-- is a parameter of the gate. Of AgentPrincipal the model has the fields that the modelled code reads.
--
-- The preview of a goal, the order of texts that breaks ties of time, and the number of completed runs
-- that are kept are parameters of the run repository. The attempts that appendStep records for
-- statistics, and the order in which claimable runs are listed, are not modelled.
--
-- What the dispatcher calls (the catalog, the connections, the credentials, the backends, and the
-- sources of ids and times) is a record of functions on a world of any type. While a backend answers,
-- other requests run any operations of the approval store and the task store; at the dispatcher's other
-- waits they do not. An exception of the database is modelled where an id that was drawn is there
-- already. Recording a trace does not fail; of a trace the model leaves out the principal, the
-- credential's reference, the ids and the times, and of a result the metadata that withToriiCallMeta
-- adds. Of a request's headers the model has the credentials.
--
-- What the task loop calls (the model, the dispatcher, the waiter, the clock, the stop signal and the
-- callbacks) is a record of functions on a world of any type; the model, the dispatcher and the waiter
-- may throw, the callbacks return. The loop takes two fuels: `rounds`, for which the limit of iterations is
-- enough, and `parks`, the waits of one tool call, for which one is enough when the waiter hibernates as
-- it is asked to (Run/Loop/Returns). The failure class of an outcome is written only where the loop does
-- not fix it by the outcome's status.
--
-- A worker's state is the tables of runs with a world of any type. Each of its statements comes after
-- `meanwhile`, any function on that state: what other workers, and its own heartbeat, do while the
-- statement waits its turn. The backend, the model, the dispatcher of tool calls, the poll of a task and
-- the resumption of a run are functions on the state, and the loss of the lease, that the heartbeat
-- notices, and the request to stop are functions of the world. The statements that only log are left out,
-- and so is a read of the run's start for the drive's result.
--
-- The schedule's dates are those of the proleptic Gregorian calendar, by the definitions that ECMAScript
-- gives for Date; instants are counted from 1 January of year 0, where the code counts from 1970.
-- The dispatcher's nextRunAt may throw, which ends the round; in the edits of tasks it is a function that
-- does not throw. Intl.DateTimeFormat is a parameter, which the theorem on recurring schedules assumes to be at most a day
-- from UTC. The loop of nextRunAt has the code's own 400 rounds. The start of a run is a callback on the
-- store; where a theorem needs it, it leaves the tasks alone. The database does not fail within a round
-- of the dispatcher, and the checks that the schemas make of stored and incoming tasks have passed.
--
-- Not modelled: the lease heartbeat, the launch and the resumption of a run, the harness's dispatcher of
-- tool calls, HTTP controllers, JSON-RPC framing, OAuth and credentials, the identity provider
-- (apps/fuda), the web interface (apps/keidai-ui), the sandbox, the listings for operators' pages, logs
-- and statistics.
pub mod Common
pub mod Approvals
pub mod Catalog
pub mod Dispatch
pub mod Harness
pub mod Policy
pub mod Run
pub mod Runs
pub mod Schedule
pub mod Tasks
