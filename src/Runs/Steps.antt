-- ===== src/Runs/Steps.antt =====
-- Any operation on the run repository (apps/shaiden/src/runs/pg-run-repository.ts), and sequences of
-- them. Each runs alone on the tables: it is one statement, one transaction, or a read of a row before
-- one.
use keidai.Common.{ℕ, String, Bool, Option, List, [], ◌∷◌}
use keidai.Run.{ConversationEntry}
use keidai.Run.Assessment.{TerminationOutcome}
use keidai.Run.Loop.{RunBudget}
use keidai.Runs.{
  RunTables, RunStep, FollowUp, CreateRunRequest, create_run, append_step, complete_run,
}
use keidai.Runs.FollowUps.{enqueue_parked_follow_up, drain_parked_follow_ups}
use keidai.Runs.Continue.{NewMessage, begin_continuation}
use keidai.Runs.Ops.{
  set_conversation_history, set_run_budget, set_parked_mcp_task, clear_parked_mcp_task,
  set_next_poll_at, claim_run, renew_run_lease, release_run,
}

pub data RunOp : Type 0 where
  op_create : CreateRunRequest → RunOp
  op_append : RunStep → RunOp
  op_complete : String → TerminationOutcome → RunOp
  op_history : String → List ConversationEntry → RunOp
  op_budget : String → RunBudget → RunOp
  op_park : String → String → Option ℕ → RunOp
  op_unpark : String → RunOp
  op_poll : String → ℕ → RunOp
  op_enqueue : FollowUp → RunStep → RunOp
  op_drain : String → RunOp
  op_claim : String → String → ℕ → RunOp
  op_renew : String → String → ℕ → RunOp
  op_release : String → String → RunOp
  op_continue : String → Option NewMessage → RunOp

module _ (preview : String → String) (id_after id_before : String → String → Bool)
    (retention : ℕ) where
  -- An operation at a time.
  unfoldable pub apply_op : RunOp → ℕ → RunTables → RunTables
  apply_op (op_create input) now s = (create_run preview id_after retention input s).1
  apply_op (op_append step) now s = (append_step step now s).1
  apply_op (op_complete id outcome) now s = (complete_run id outcome now s).1
  apply_op (op_history id history) now s = (set_conversation_history id history s).1
  apply_op (op_budget id budget) now s = (set_run_budget id budget s).1
  apply_op (op_park id mcp_task_id interval) now s =
      (set_parked_mcp_task id mcp_task_id interval now s).1
  apply_op (op_unpark id) now s = (clear_parked_mcp_task id now s).1
  apply_op (op_poll id at) now s = (set_next_poll_at id at s).1
  apply_op (op_enqueue follow_up step) now s = (enqueue_parked_follow_up follow_up step now s).1
  apply_op (op_drain id) now s = (drain_parked_follow_ups id_before id s).1
  apply_op (op_claim id owner expires) now s = (claim_run id owner expires now s).1
  apply_op (op_renew id owner expires) now s = (renew_run_lease id owner expires s).1
  apply_op (op_release id owner) now s = (release_run id owner s).1
  apply_op (op_continue id message) now s = (begin_continuation id message now s).1

  unfoldable pub apply_ops : List (RunOp × ℕ) → RunTables → RunTables
  unfolding apply_op
  apply_ops [] s = s
  apply_ops ((op, now) ∷ ops) s = apply_ops ops (apply_op op now s)
