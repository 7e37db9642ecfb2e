-- ===== src/Harness/Waiter.antt =====
-- The wait for a parked task: apps/shaiden/src/run/parked-mcp-task-waiter.ts.
use keidai.Common.{ℕ, String, true, false, Option, none, some, if◌then◌else◌}
use keidai.Run.{ModelToolCall}
use keidai.Run.Loop.{Answer, returns, throws, ToolDispatchResult, ApprovalWaitContext}
use keidai.Runs.{RunTables, get_run_row}
use keidai.Runs.Ops.{set_parked_mcp_task, clear_parked_mcp_task, set_next_poll_at, renew_run_lease}
use keidai.Harness.{
  HarnessState, HarnessDeps, waiting_approval_step, tool_result_step, lease_expires_at, statement,
  record_step,
}
use Prim.Native.String

abbrev pub lost_run_lease : String → String
lost_run_lease run_id = String.◌++◌ "lost run lease for " run_id

abbrev pub hibernated_result : ToolDispatchResult
hibernated_result = record {
  is_error = false;
  text = "";
  approval_required = none;
  approval_denied = false;
  policy_denied = false;
  hibernated = true;
}

abbrev pub stored_interval : String → RunTables → Option ℕ × RunTables
stored_interval run_id t = (
  elim (get_run_row run_id t) [
    | none ↦ none
    | some r ↦ elim r.mcp_task_id [ none ↦ none | some _ ↦ r.mcp_task_poll_interval_ms ]
  ],
  t,
)

module _ {W : Type 0} (deps : HarnessDeps W) (run_id replica : String) (lease : ℕ)
    (poll_mcp_task : String
      → Option ℕ
      → HarnessState W
      → Option (Answer ToolDispatchResult) × HarnessState W) where
  unfoldable pub wait_interval : ApprovalWaitContext → HarnessState W → Option ℕ × HarnessState W
  unfolding statement
  wait_interval context s = elim context.poll_interval_ms [
    | some ms ↦ (some ms, s)
    | none ↦ statement deps (stored_interval run_id) s
  ]

  -- The task's id is stored, and the step recorded.
  unfoldable pub park_run :
      String → ApprovalWaitContext → ModelToolCall → Option ℕ → HarnessState W → HarnessState W
  unfolding statement record_step
  park_run mcp_task_id context call interval s =
      let s1 =
        (statement deps (set_parked_mcp_task run_id mcp_task_id interval (deps.clock s.world))
          s).1 in
      (record_step deps run_id context.step_id (waiting_approval_step mcp_task_id call.tool_name)
        s1).1

  -- What follows the poll. `none` is a poll that the loss of the lease cut short.
  unfoldable pub after_wait_poll :
      ModelToolCall
      → Option (Answer ToolDispatchResult) × HarnessState W
      → Answer ToolDispatchResult × HarnessState W
  unfolding statement record_step
  after_wait_poll call (none, s) = (throws (lost_run_lease run_id), s)
  after_wait_poll call (some (throws error), s) = (throws error, s)
  after_wait_poll call (some (returns result), s) =
      let (renewed, s1) =
        statement deps
          (renew_run_lease run_id replica (lease_expires_at (deps.clock s.world) lease)) s in
      let s2 =
        if result.approval_denied
        then s1
        else (record_step deps run_id none (tool_result_step call result) s1).1 in
      if renewed
      then (
        returns result,
        (statement deps (clear_parked_mcp_task run_id (deps.clock s2.world)) s2).1,
      )
      else (throws (lost_run_lease run_id), s1)

  unfoldable pub wait_for_parked :
      String
      → ApprovalWaitContext
      → ModelToolCall
      → HarnessState W
      → Answer ToolDispatchResult × HarnessState W
  unfolding wait_interval park_run after_wait_poll statement
  wait_for_parked mcp_task_id context call s =
      let (interval, s1) = wait_interval context s in
      let s2 = park_run mcp_task_id context call interval s1 in
      if context.hibernate
      then (
        returns hibernated_result,
        (statement deps (set_next_poll_at run_id (deps.clock s2.world)) s2).1,
      )
      else after_wait_poll call (poll_mcp_task mcp_task_id interval s2)
