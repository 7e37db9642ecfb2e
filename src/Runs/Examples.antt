-- ===== src/Runs/Examples.antt =====
-- The run repository at concrete tables: tests, and the theorems at inputs that meet their hypotheses.
use keidai.Common.{
  ℕ, ◌+◌, ◌≤◌, String, ◌≡◌, refl, Bool, true, false, Option, none, some, List, [], ◌∷◌, ◌++◌, inl,
  inr, All, arith, count_where, eq_iff, eq_iff,
}
use keidai.Run.{user}
use keidai.Run.Assessment.{goal_met}
use keidai.Runs.{
  running, completed, RunTables, RunRow, RunStep, FollowUp, no_tables, runs_task, get_run_row,
  update_run, CreateRunRequest, new_run, create_run, is_excess, trim, complete_run,
}
use keidai.Runs.FollowUps.{insert_by, order_by, enqueue_parked_follow_up, drain_parked_follow_ups}
use keidai.Runs.Continue.{NewMessage, begun, begin_continuation}
use keidai.Runs.Ops.{
  set_conversation_history, set_parked_mcp_task, claim_run, list_claimable_parked_mcp_tasks,
}
use keidai.Runs.Steps.{
  RunOp, op_create, op_complete, op_history, op_park, op_claim, op_renew, op_release, apply_op,
  apply_ops,
}
use keidai.Runs.Changes.{IsConsistent}
use keidai.Runs.Single.{apply_ops-single, apply_ops-IsConsistent}
use keidai.Runs.Held.{IsHeld}
use keidai.Runs.Lease.{claim_run-exclusive, claimable-claimed}
use keidai.Runs.Queue.{Queues, QueueEvent, enqueue, drain}
use keidai.Runs.Restart.{IsContinuable, begin_continuation-idle}

abbrev preview : String → String
preview s = s

abbrev no_tie : String → String → Bool
no_tie a b = false

abbrev request : String → ℕ → CreateRunRequest
request id at = record {
  id = id;
  task_id = "t1";
  task = "{}";
  started_at = at;
  assignee = "a1";
  goal = "tidy up";
  persona_version = none;
  persona = none;
  model_id = none;
  agent_owner_id = some "o1";
}

abbrev step : String → ℕ → RunStep
step id at = record {
  id = id;
  run_id = "r1";
  timestamp = at;
  kind = "user_message";
  payload = "{}";
}

abbrev all_ops : List (RunOp × ℕ) → RunTables
all_ops ops = apply_ops preview no_tie no_tie 200 ops no_tables

abbrev parked_ops : List (RunOp × ℕ)
parked_ops =
    (op_create (request "r1" 10), 10)
    ∷ (op_history "r1" (user "go" ∷ []), 11)
    ∷ (op_park "r1" "m1" none, 12)
    ∷ []

abbrev done_ops : List (RunOp × ℕ)
done_ops =
    (op_create (request "r1" 10), 10)
    ∷ (op_history "r1" (user "go" ∷ []), 11)
    ∷ (op_complete "r1" goal_met, 12)
    ∷ []

abbrev busy_ops : List (RunOp × ℕ)
busy_ops =
    (op_create (request "r1" 10), 10)
    ∷ (op_history "r1" (user "go" ∷ []), 11)
    ∷ (op_complete "r1" goal_met, 12)
    ∷ (op_create (request "r2" 20), 20)
    ∷ []

abbrev first_row : RunRow
first_row = new_run preview (request "r1" 10)

abbrev waiting_row : RunRow
waiting_row = record first_row {
  conversation_history = some (user "go" ∷ []);
  mcp_task_id = some "m1";
  updated_at = 12;
}

abbrev done_row : RunRow
done_row = record first_row {
  conversation_history = some (user "go" ∷ []);
  status = completed;
  outcome = some goal_met;
  updated_at = 12;
}

abbrev message : Option NewMessage
message = some (record { text = "again"; step = some (step "s1" 30) })

apply_ops-single_example : count_where (runs_task "t1") (all_ops busy_ops).runs ≤ 1
apply_ops-single_example = apply_ops-single preview no_tie no_tie 200 busy_ops "t1"

apply_ops-IsConsistent_example : All IsConsistent (all_ops busy_ops).runs
apply_ops-IsConsistent_example = apply_ops-IsConsistent preview no_tie no_tie 200 busy_ops

abbrev after_claim : List (RunOp × ℕ)
after_claim =
    (op_claim "r1" "w2" 60, 20) ∷ (op_renew "r1" "w1" 70, 30) ∷ (op_release "r1" "w2", 35) ∷ []

claim_run-exclusive_example :
    let s = all_ops parked_ops in
    let s' = apply_ops preview no_tie no_tie 200 after_claim (claim_run "r1" "w1" 50 13 s).1 in
    IsHeld "r1" "w1" 50 s'.runs × (claim_run "r1" "w2" 90 40 s' ≡ (false, s'))
unfolding claim_run update_run apply_ops apply_op create_run trim is_excess new_run
    set_conversation_history set_parked_mcp_task get_run_row
claim_run-exclusive_example =
    claim_run-exclusive preview no_tie no_tie 200 parked_ops after_claim "r1" "w1" "w2" 50 13 90 40
      refl
      (
        inr (omega arith),
        (inr (inr (omega arith)), (inr (λ e. ground (arith, (eq_iff "w2" "w1").1 e)), tt)),
      )
      (omega arith)

claimable-claimed_example :
    let s = all_ops parked_ops in
    ((claim_run "r1" "w1" 50 13 s).0 ≡ true)
    × IsHeld "r1" "w1" 50 (claim_run "r1" "w1" 50 13 s).1.runs
unfolding update_run apply_ops apply_op create_run trim is_excess new_run set_conversation_history
    set_parked_mcp_task get_run_row list_claimable_parked_mcp_tasks
claimable-claimed_example =
    claimable-claimed preview no_tie no_tie 200 parked_ops waiting_row "w1" 50 13 (inl refl)

done-IsContinuable : IsContinuable "r1" done_row (user "go") [] (all_ops done_ops)
unfolding update_run apply_ops apply_op create_run trim is_excess new_run set_conversation_history
    complete_run get_run_row
done-IsContinuable = record {
  found = refl;
  stopped_running = refl;
  eligible = refl;
  history = refl;
}

begin_continuation-idle_example :
    let s = all_ops done_ops in
    let (answer, s') = begin_continuation "r1" message 31 s in
    (answer ≡ begun (user "go" ∷ user "again" ∷ []))
    × (get_run_row "r1" s'
        ≡ some (record done_row {
          status = running;
          outcome = none;
          conversation_history = some (user "go" ∷ user "again" ∷ []);
          step_count = done_row.step_count + 1;
          iterations_used = 0;
          active_elapsed_ms = 0;
          updated_at = 31;
        }))
    × (s'.run_steps ≡ s.run_steps ++ step "s1" 30 ∷ [])
unfolding update_run apply_ops apply_op create_run trim is_excess new_run set_conversation_history
    complete_run get_run_row
begin_continuation-idle_example =
    begin_continuation-idle preview no_tie no_tie 200 done_ops "r1" done_row (user "go") [] "again"
      (step "s1" 30) 31 done-IsContinuable refl refl

abbrev follow_up : String → String → ℕ → FollowUp
follow_up id text at = record { id = id; run_id = "r1"; text = text; created_at = at }

abbrev events : List QueueEvent
events =
    enqueue (follow_up "f1" "one" 20) (step "s1" 20) 20
    ∷ enqueue (follow_up "f2" "two" 21) (step "s2" 21) 21
    ∷ drain "r1"
    ∷ []

abbrev empty_queues : Queues
empty_queues id = []

served :
    (drain_parked_follow_ups no_tie "r1"
      (enqueue_parked_follow_up
        (follow_up "f2" "two" 21)
        (step "s2" 21)
        21
        (enqueue_parked_follow_up
          (follow_up "f1" "one" 20)
          (step "s1" 20)
          20
          (all_ops parked_ops)).1).1).0
    ≡ user "one" ∷ user "two" ∷ []
unfolding update_run apply_ops apply_op create_run trim is_excess new_run set_conversation_history
    set_parked_mcp_task get_run_row enqueue_parked_follow_up drain_parked_follow_ups insert_by
    order_by
served = refl
