-- ===== src/Harness/Drive.antt =====
-- The drive of a run: driveHarnessRun of apps/shaiden/src/run/harness.ts. `run_session` is the
-- connection to the backend with the task loop in it; `connect_error` of it is an exception.
use keidai.Common.{ℕ, String, Bool, Option, none, some, List, if◌then◌else◌}
use keidai.Run.{ModelToolCall, ConversationEntry}
use keidai.Run.Assessment.{failed, platform, ModelStep}
use keidai.Run.Loop.{
  Answer, returns, throws, ToolDispatchResult, TaskLoopDeps, TaskLoopResult, ended, parked,
  RunBudget,
}
use keidai.Run.Loop.Rounds.{TaskLimits, TaskLoopStart, run_task_loop}
use keidai.Runs.{RunTables, is_running, get_run_row}
use keidai.Runs.FollowUps.{drain_parked_follow_ups}
use keidai.Runs.Ops.{set_conversation_history, set_run_budget, claim_run, release_run}
use keidai.Harness.{
  HarnessState, HarnessDeps, model_step, lease_expires_at, statement, record_step,
  complete_run_with_outcome_step,
}
use keidai.Harness.Sweep.{reading}
use keidai.Harness.Waiter.{wait_for_parked}

-- What the worker calls besides the tables: the session with the backend, the model, the dispatcher of
-- tool calls (harness-tool-dispatch.ts), and the signals of the lease and of the stop.
pub record DriveDeps (W : Type 0) : Type 0 where
  pub connect : HarnessState W → Option String × HarnessState W
  pub close : HarnessState W → HarnessState W
  pub base_call_model : List ConversationEntry → HarnessState W → Answer ModelStep × HarnessState W
  pub dispatch_tool_call :
      ModelToolCall → HarnessState W → Answer ToolDispatchResult × HarnessState W
  pub poll_mcp_task :
      String → Option ℕ → HarnessState W → Option (Answer ToolDispatchResult) × HarnessState W
  pub stop_requested : W → Bool
  pub lost_lease : W → Bool

pub data SessionResult : Type 0 where
  looped : TaskLoopResult → SessionResult
  session_threw : String → SessionResult

-- How the drive ends.
pub data DriveEnd : Type 0 where
  hibernated : DriveEnd
  finished : TaskLoopResult → DriveEnd
  threw_not_claimed : DriveEnd
  threw_lease_lost : DriveEnd
  threw : String → DriveEnd

-- getRunBudget and getParkedMcpTask.
abbrev pub stored_budget : String → RunTables → Option RunBudget
stored_budget run_id t = elim (get_run_row run_id t) [
  | none ↦ none
  | some r ↦
      some (record { iterations_used = r.iterations_used; active_elapsed_ms = r.active_elapsed_ms })
]

abbrev pub parked_task_id : String → RunTables → Option String
parked_task_id run_id t = elim (get_run_row run_id t) [ none ↦ none | some r ↦ r.mcp_task_id ]

module _ {W : Type 0} (deps : HarnessDeps W) (drive : DriveDeps W)
    (id_before : String → String → Bool) (run_id replica : String) (lease : ℕ) where
  unfoldable pub call_model :
      List ConversationEntry → HarnessState W → Answer ModelStep × HarnessState W
  unfolding record_step
  call_model history s =
      let (answer, s1) = drive.base_call_model history s in
      elim answer [
        | throws error ↦ (throws error, s1)
        | returns step ↦ (returns step, (record_step deps run_id none (model_step step) s1).1)
      ]

  -- What the task loop is given.
  unfoldable pub loop_deps : TaskLoopDeps (HarnessState W)
  unfolding call_model statement
  loop_deps = record {
    call_model = call_model;
    dispatch_tool_call = drive.dispatch_tool_call;
    wait_for_approval = some (λ mcp_task_id context call s.
        wait_for_parked deps run_id replica lease drive.poll_mcp_task mcp_task_id context call s);
    now = λ s. (deps.clock s.world, s);
    drain_pending_user_messages = λ s. statement deps (drain_parked_follow_ups id_before run_id) s;
    on_history_changed =
        λ history s. (statement deps (set_conversation_history run_id history) s).1;
    on_budget_changed = λ budget s. (statement deps (set_run_budget run_id budget) s).1;
    stop_requested = λ s. drive.stop_requested s.world;
  }

  -- The session; `none` when the task loop runs out of fuel.
  unfoldable pub run_session :
      ℕ
      → ℕ
      → TaskLimits
      → List ConversationEntry
      → Option String
      → HarnessState W
      → Option (SessionResult × HarnessState W)
  run_session parks rounds limits initial_history parked_id s =
      let (error, s1) = drive.connect s in
      elim error [
        | some e ↦ some (session_threw e, s1)
        | none ↦
            let (budget, s2) = statement deps (reading (stored_budget run_id)) s1 in
            let start : TaskLoopStart = record {
              initial_history = initial_history;
              limits = limits;
              budget = budget;
              resume_parked_approval = parked_id;
            } in
            elim (run_task_loop (HarnessState W) loop_deps parks rounds start s2) [
              | none ↦ none
              | some (result, state) ↦ some (looped result, state.world)
            ]
      ]

  -- What follows the task loop, within the session.
  unfoldable pub finish_loop : TaskLoopResult → HarnessState W → DriveEnd × HarnessState W
  finish_loop result s =
      let s1 = (statement deps (set_conversation_history run_id result.history) s).1 in
      if drive.lost_lease s.world then (threw_lease_lost, s) else elim result.outcome [
        | parked ↦ (hibernated, s1)
        | ended outcome ↦ (finished result, complete_run_with_outcome_step deps run_id outcome s1)
      ]

  -- The handler of the exceptions of the session.
  unfoldable pub session_failed : String → HarnessState W → DriveEnd × HarnessState W
  session_failed error s =
      if drive.lost_lease s.world
      then (threw_lease_lost, s)
      else let (row, s1) = statement deps (reading (get_run_row run_id)) s in
        elim row [
          | none ↦ (threw error, s1)
          | some r ↦
              if is_running r
              then (
                threw error,
                complete_run_with_outcome_step deps run_id (failed error platform) s1,
              )
              else (threw error, s1)
        ]

  abbrev pub settle_session : SessionResult → HarnessState W → DriveEnd × HarnessState W
  settle_session (looped result) s = let (end, s1) = finish_loop result s in (end, drive.close s1)
  settle_session (session_threw error) s = session_failed error s

  -- The `finally` block.
  unfoldable pub release_drive : DriveEnd × HarnessState W → DriveEnd × HarnessState W
  unfolding statement
  release_drive (end, s) =
      if drive.lost_lease s.world
      then (end, s)
      else (end, (statement deps (release_run run_id replica) s).1)

  unfoldable pub drive_harness_run :
      ℕ
      → ℕ
      → TaskLimits
      → List ConversationEntry
      → HarnessState W
      → Option (DriveEnd × HarnessState W)
  drive_harness_run parks rounds limits initial_history s =
      let (parked_id, s1) = statement deps (reading (parked_task_id run_id)) s in
      let now = deps.clock s1.world in
      let (claimed, s2) =
        statement deps (claim_run run_id replica (lease_expires_at now lease) now) s1 in
      if claimed
      then elim (run_session parks rounds limits initial_history parked_id s2) [
        | none ↦ none
        | some (result, s3) ↦ some (release_drive (settle_session result s3))
      ]
      else some (threw_not_claimed, s2)
