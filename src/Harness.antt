-- ===== src/Harness.antt =====
-- A worker that drives runs: apps/shaiden/src/run. The state of a worker is the tables of runs, which
-- it shares with other workers, and a world `W` with all else. What others do to the tables and to the
-- world while a statement of this worker waits its turn is the function `meanwhile`.
pub mod Sweep
pub mod Waiter
pub mod Drive
pub mod Leased
pub mod Swept
pub mod Released
pub mod Refused
pub mod Tracked
pub mod Stages
pub mod Hibernated
pub mod Overtaken
pub mod Looped
pub mod Taken
mod Examples
use keidai.Common.{ℕ, ◌+◌, String, Bool, true, false, Option, none, some, List, []}
use keidai.Tasks.Inputs.{Payload}
use keidai.Run.{ModelToolCall, ConversationEntry}
use keidai.Run.Assessment.{TerminationOutcome, ModelStep}
use keidai.Run.Loop.{ToolDispatchResult}
use keidai.Runs.{RunTables, RunStep, Appended, append_step, complete_run}

pub record HarnessState (W : Type 0) : Type 0 where
  pub runs : RunTables
  pub world : W

-- What a step records, besides its id and time.
pub data StepBody : Type 0 where
  outcome_step : TerminationOutcome → StepBody
  waiting_approval_step : String → String → StepBody
  tool_result_step : ModelToolCall → ToolDispatchResult → StepBody
  model_step : ModelStep → StepBody

-- The clock, the ids drawn for steps, and JSON.stringify of a step with its kind.
pub record HarnessDeps (W : Type 0) : Type 0 where
  pub clock : W → ℕ
  pub meanwhile : HarnessState W → HarnessState W
  pub new_step_id : W → String
  pub step_kind : StepBody → String
  pub step_payload : StepBody → Payload
  pub delete_workspace : Option (String → HarnessState W → HarnessState W)

abbrev pub lease_expires_at : ℕ → ℕ → ℕ
lease_expires_at now ttl = now + ttl

module _ {W : Type 0} (deps : HarnessDeps W) where
  -- A statement on the tables.
  unfoldable pub statement :
      {A : Type 0} → (RunTables → A × RunTables) → HarnessState W → A × HarnessState W
  statement f s = let s' = deps.meanwhile s in ((f s'.runs).0, record s' { runs = (f s'.runs).1 })

  -- recordStep of the local reporter; its time is that of the call.
  unfoldable pub record_step :
      String → Option String → StepBody → HarnessState W → Appended × HarnessState W
  unfolding statement
  record_step run_id id body s =
      let at = deps.clock s.world in
      statement
        (append_step
          (record {
            id = elim id [ none ↦ deps.new_step_id s.world | some i ↦ i ];
            run_id = run_id;
            timestamp = at;
            kind = deps.step_kind body;
            payload = deps.step_payload body;
          })
          at)
        s

  -- A workspace that is not deleted here is swept later.
  unfoldable pub complete_run_with_outcome_step :
      String → TerminationOutcome → HarnessState W → HarnessState W
  unfolding statement record_step
  complete_run_with_outcome_step run_id outcome s =
      let s1 = (record_step run_id none (outcome_step outcome) s).1 in
      let s2 = (statement (complete_run run_id outcome (deps.clock s1.world)) s1).1 in
      elim deps.delete_workspace [ none ↦ s2 | some delete ↦ delete run_id s2 ]
