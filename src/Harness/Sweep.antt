-- ===== src/Harness/Sweep.antt =====
-- The sweep over parked runs: apps/shaiden/src/run/resume-parked-runs.ts, with the answers of
-- apps/shaiden/src/mcp/poll-mcp-task.ts. The poll of a backend's task, the delay to the next one and
-- the resumption of a run are functions on the worker's state.
use keidai.Common.{ℕ, suc, ◌+◌, String, not, Option, none, some, List, [], ◌∷◌, map, if◌then◌else◌}
use keidai.Tasks.Inputs.{Payload}
use keidai.Tasks.{McpTaskStatus, is_input_required, is_mcp_task_terminal_status}
use keidai.Run.{ConversationEntry}
use keidai.Run.Assessment.{failed, platform}
use keidai.Runs.{RunRow, RunTables, is_running, get_run_row}
use keidai.Runs.Ops.{
  set_parked_mcp_task, set_next_poll_at, list_claimable_parked_mcp_tasks, claim_run,
}
use keidai.Harness.{
  HarnessState, HarnessDeps, lease_expires_at, statement, complete_run_with_outcome_step,
}

pub data ParkedTaskPoll : Type 0 where
  terminal : ParkedTaskPoll
  pending : Option ℕ → ParkedTaskPoll
  poll_failed : String → ParkedTaskPoll

abbrev pub mcp_input_required_failure_reason : String
mcp_input_required_failure_reason = "MCP task requires client input, which Shaiden does not support"

unfoldable pub parked_task_poll_from_get : McpTaskStatus → Option ℕ → ParkedTaskPoll
unfolding is_mcp_task_terminal_status
parked_task_poll_from_get status interval =
    if is_input_required status
    then poll_failed mcp_input_required_failure_reason
    else if is_mcp_task_terminal_status status
    then terminal
    else pending interval

pub record ParkedMcpTask : Type 0 where
  pub run_id : String
  pub mcp_task_id : String
  pub poll_interval_ms : Option ℕ
  pub next_poll_at : Option ℕ

-- A row of the list; it has a parked task.
abbrev pub parked_mcp_task_from_row : RunRow → ParkedMcpTask
parked_mcp_task_from_row r = record {
  run_id = r.id;
  mcp_task_id = elim r.mcp_task_id [ none ↦ "" | some id ↦ id ];
  poll_interval_ms = r.mcp_task_poll_interval_ms;
  next_poll_at = r.next_poll_at;
}

pub record SweepDeps (W : Type 0) : Type 0 where
  pub poll_parked_task : ParkedMcpTask → Payload → HarnessState W → ParkedTaskPoll × HarnessState W
  pub next_poll_delay_ms : Option ℕ → HarnessState W → ℕ
  -- The error, if the run could not be launched.
  pub resume_harness_run :
      String → List ConversationEntry → Payload → HarnessState W → Option String × HarnessState W

-- How far the sweep got with a run; an error of `resumeHarnessRun` ends the sweep.
pub data Swept : Type 0 where
  left : Swept
  resumed : Swept
  sweep_throws : String → Swept

abbrev pub or_else {ℓ} : {A : Type ℓ} → Option A → Option A → Option A
or_else none b = b
or_else (some a) b = some a

-- getConversationHistory
abbrev pub stored_history : String → RunTables → Option (List ConversationEntry)
stored_history run_id t = elim (get_run_row run_id t) [
  | none ↦ none
  | some r ↦ r.conversation_history
]

-- A statement that only reads.
abbrev pub reading : {A : Type 0} → (RunTables → A) → RunTables → A × RunTables
reading f t = (f t, t)

module _ {W : Type 0} (deps : HarnessDeps W) (sweep : SweepDeps W) (replica : String)
    (lease now : ℕ) where
  unfoldable pub poll_again : ParkedMcpTask → Option ℕ → HarnessState W → HarnessState W
  unfolding statement
  poll_again parked interval s =
      let delay = sweep.next_poll_delay_ms (or_else interval parked.poll_interval_ms) s in
      let s1 = (statement deps (set_next_poll_at parked.run_id (now + delay)) s).1 in
      elim interval [
        | none ↦ s1
        | some ms ↦
            (statement deps
              (set_parked_mcp_task parked.run_id parked.mcp_task_id (some ms) (deps.clock s1.world))
              s1).1
      ]

  unfoldable pub fail_parked : ParkedMcpTask → String → HarnessState W → HarnessState W
  unfolding statement complete_run_with_outcome_step
  fail_parked parked reason s =
      let (claimed, s1) =
        statement deps (claim_run parked.run_id replica (lease_expires_at now lease) now) s in
      if claimed
      then complete_run_with_outcome_step deps parked.run_id (failed reason platform) s1
      else s1

  unfoldable pub resume_parked_run :
      ParkedMcpTask → Payload → HarnessState W → Swept × HarnessState W
  unfolding statement
  resume_parked_run parked task s =
      let (history, s1) = statement deps (reading (stored_history parked.run_id)) s in
      elim history [
        | none ↦ (left, s1)
        | some history ↦
            let (error, s2) = sweep.resume_harness_run parked.run_id history task s1 in
            (elim error [ none ↦ resumed | some e ↦ sweep_throws e ], s2)
      ]

  abbrev pub after_poll :
      ParkedMcpTask → Payload → ParkedTaskPoll × HarnessState W → Swept × HarnessState W
  after_poll parked task (pending interval, s) = (left, poll_again parked interval s)
  after_poll parked task (poll_failed reason, s) = (left, fail_parked parked reason s)
  after_poll parked task (terminal, s) = resume_parked_run parked task s

  unfoldable pub sweep_run : ParkedMcpTask → HarnessState W → Swept × HarnessState W
  unfolding statement poll_again fail_parked resume_parked_run
  sweep_run parked s =
      let (row, s1) = statement deps (reading (get_run_row parked.run_id)) s in
      elim row [
        | none ↦ (left, s1)
        | some r ↦
            if not (is_running r)
            then (left, s1)
            else after_poll parked r.task_snapshot
                (sweep.poll_parked_task parked r.task_snapshot s1)
      ]

  -- The loop, with the count of the runs resumed so far.
  unfoldable pub sweep_runs :
      List ParkedMcpTask → ℕ → HarnessState W → (Option String × ℕ) × HarnessState W
  unfolding sweep_run
  sweep_runs [] count s = ((none, count), s)
  sweep_runs (parked ∷ rest) count s =
      let result = sweep_run parked s in
      elim result.0 [
        | left ↦ sweep_runs rest count result.1
        | resumed ↦ sweep_runs rest (suc count) result.1
        | sweep_throws e ↦ ((some e, count), result.1)
      ]

  unfoldable pub resume_parked_harness_runs : HarnessState W → (Option String × ℕ) × HarnessState W
  unfolding statement sweep_runs
  resume_parked_harness_runs s =
      let (rows, s1) = statement deps (reading (list_claimable_parked_mcp_tasks now)) s in
      sweep_runs (map parked_mcp_task_from_row rows) 0 s1
