-- ===== src/Harness/Examples.antt =====
-- Two workers over concrete tables: tests, and the theorems at inputs that meet their hypotheses.
use keidai.Common.{
  Elem, true, ℕ, suc, String, ◌≡◌, refl, Bool, false, Option, none, some, List, [], ◌∷◌, arith,
  eq_iff,
}
use keidai.Run.{user, ModelToolCall, ConversationEntry, assistant}
use keidai.Run.Assessment.{ModelStep}
use keidai.Run.Loop.{
  parked, ApprovalWaitContext, TaskLoopResult, returns, ended, call_failed, ToolDispatchResult,
}
use keidai.Run.Loop.Rounds.{TaskLimits}
use keidai.Runs.{
  RunTables, RunRow, RunStatus, completed, no_tables, get_run_row, update_run, CreateRunRequest,
  new_run, create_run, is_excess, trim, append_step, complete_run,
}
use keidai.Runs.Ops.{
  set_conversation_history, set_parked_mcp_task, claim_run, list_claimable_parked_mcp_tasks,
}
use keidai.Runs.Steps.{RunOp, op_create, op_history, op_park, op_claim, apply_op, apply_ops}
use keidai.Runs.Single.{apply_ops-IsSound, no_tables-IsSound}
use keidai.Harness.{HarnessState, HarnessDeps}
use keidai.Harness.Sweep.{SweepDeps, poll_failed, resume_parked_harness_runs}
use keidai.Harness.Tracked.{IsKept, HasRow}
use keidai.Harness.Hibernated.{wait_for_parked-listed}
use keidai.Harness.Waiter.{wait_for_parked, lost_run_lease}
use keidai.Harness.Drive.{
  hibernated, looped, release_drive, settle_session, DriveDeps, DriveEnd, drive_harness_run,
  finished, run_session,
}
use keidai.Harness.Leased.{IsLeased, KeepsLease}
use keidai.Harness.Swept.{resume_parked_harness_runs-IsLeased}
use keidai.Harness.Released.{HasReleased, drive_harness_run-released}
use keidai.Harness.Overtaken.{IsEnded}
use keidai.Run.Pending.{find_unanswered_tool_calls}
use keidai.Harness.Taken.{run_session-overtaken}

abbrev preview : String → String
preview s = s

abbrev no_tie : String → String → Bool
no_tie a b = false

abbrev request : String → String → CreateRunRequest
request id task = record {
  id = id;
  task_id = task;
  task = "{}";
  started_at = 10;
  assignee = "a1";
  goal = "tidy up";
  persona_version = none;
  persona = none;
  model_id = none;
  agent_owner_id = some "o1";
}

-- Two parked runs; the worker w1 holds the first until 50.
abbrev two_runs : List (RunOp × ℕ)
two_runs =
    (op_create (request "r1" "t1"), 10)
    ∷ (op_create (request "r2" "t2"), 10)
    ∷ (op_history "r1" (user "go" ∷ []), 11)
    ∷ (op_history "r2" (user "go" ∷ []), 11)
    ∷ (op_park "r1" "m1" none, 12)
    ∷ (op_park "r2" "m2" none, 12)
    ∷ (op_claim "r1" "w1" 50, 13)
    ∷ []

-- The world is the clock.
abbrev start : HarnessState ℕ
start = record { runs = apply_ops preview no_tie no_tie 200 two_runs no_tables; world = 20 }

abbrev wait : HarnessState ℕ → HarnessState ℕ
wait s = record s { world = suc s.world }

abbrev deps : HarnessDeps ℕ
deps = record {
  clock = λ w. w;
  meanwhile = wait;
  new_step_id = λ w. "s1";
  step_kind = λ body. "step";
  step_payload = λ body. "{}";
  delete_workspace = none;
}

-- The backend refuses every parked task.
abbrev sweep : SweepDeps ℕ
sweep = record {
  poll_parked_task = λ parked task s. (poll_failed "gone", s);
  next_poll_delay_ms = λ interval s. 5;
  resume_harness_run = λ run_id history task s. (none, s);
}

abbrev held_row : RunRow
held_row = record (new_run preview (request "r1" "t1")) {
  conversation_history = some (user "go" ∷ []);
  mcp_task_id = some "m1";
  owner_id = some "w1";
  lease_expires_at = some 50;
  updated_at = 12;
}

wait-KeepsLease : KeepsLease "r1" "w1" 50 wait
wait-KeepsLease s h = record { sound = h.sound; held = h.held }

start-IsLeased : IsLeased "r1" "w1" 50 start
unfolding update_run apply_ops apply_op create_run trim is_excess new_run set_conversation_history
    set_parked_mcp_task get_run_row claim_run
start-IsLeased = record {
  sound =
      apply_ops-IsSound preview no_tie no_tie 200 two_runs no_tables
        (no_tables-IsSound preview no_tie no_tie 200);
  held = (held_row, refl, (refl, refl, refl));
}

resume_parked_harness_runs-IsLeased_example :
    IsLeased "r1" "w1" 50 (resume_parked_harness_runs deps sweep "w2" 15 20 start).1
resume_parked_harness_runs-IsLeased_example =
    resume_parked_harness_runs-IsLeased deps sweep "r1" "w1" "w2" 50 15 20 start wait-KeepsLease
      (λ parked task s h. h) (λ run_id history task s h. h)
      (λ run_id delete e. absurd (ground (arith, e))) (omega arith) start-IsLeased

abbrev status_of : String → RunTables → Option RunStatus
status_of id t = elim (get_run_row id t) [ none ↦ none | some r ↦ some r.status ]

-- The sweep gives up the other run, and counts none as resumed.
given_up :
    let (count, s) = resume_parked_harness_runs deps sweep "w2" 15 20 start in
    (count ≡ (none, 0)) × (status_of "r2" s.runs ≡ some completed)
unfolding resume_parked_harness_runs update_run apply_ops apply_op create_run trim is_excess new_run
    set_conversation_history set_parked_mcp_task get_run_row claim_run
    list_claimable_parked_mcp_tasks append_step complete_run
given_up = (refl, refl)

abbrev greeting : ModelStep
greeting = record { text = "hello"; tool_calls = []; assessment = none }

abbrev drive : DriveDeps ℕ
drive = record {
  connect = λ s. (none, s);
  close = λ s. s;
  base_call_model = λ history s. (returns greeting, s);
  dispatch_tool_call = λ call s. (
    returns (record {
      is_error = false;
      text = "sent";
      approval_required = none;
      approval_denied = false;
      policy_denied = false;
      hibernated = false;
    }),
    s,
  );
  poll_mcp_task = λ id interval s. (none, s);
  stop_requested = λ w. false;
  lost_lease = λ w. false;
}

abbrev limits : TaskLimits
limits = record { max_iterations = some 3; timeout_seconds = none }

drive_harness_run-released_example :
    (end : DriveEnd) × (s' : HarnessState ℕ) × (drive_harness_run deps drive no_tie "r2" "w2" 15 1 3
        limits
        (user "go" ∷ [])
        start
      ≡ some (end, s'))
    × HasReleased deps drive no_tie "r2" "w2" 15 end s'
drive_harness_run-released_example =
    drive_harness_run-released deps drive no_tie "r2" "w2" 15 3 0 3 limits (user "go" ∷ []) start
      refl (omega arith)

abbrev context : ApprovalWaitContext
context = record { step_id = none; poll_interval_ms = none; hibernate = true }

abbrev call : ModelToolCall
call = record { tool_call_id = "c1"; tool_name = "mail.send"; input = "{}" }

unchanged : (r : RunRow) → IsKept r r
unchanged r = record { status = refl; owner_id = refl; mcp_task_id = refl; next_poll_at = refl }

wait_for_parked-listed_example :
    let waited =
      (wait_for_parked deps "r1" "w1" 15 drive.poll_mcp_task "m7" context call start).1 in
    let result : TaskLoopResult = record {
      outcome = parked;
      history = user "go" ∷ [];
      iterations = 1;
    } in
    let left =
      release_drive deps drive no_tie "r1" "w1" 15
        (settle_session deps drive no_tie "r1" "w1" 15 (looped result) waited) in
    (left.0 ≡ hibernated)
    × ((x : RunRow) × Elem x (list_claimable_parked_mcp_tasks 90 left.1.runs)
        × (x.id ≡ "r1")
        × (x.mcp_task_id ≡ some "m7"))
unfolding update_run apply_ops apply_op create_run trim is_excess new_run set_conversation_history
    set_parked_mcp_task get_run_row claim_run wait_for_parked
wait_for_parked-listed_example =
    wait_for_parked-listed deps drive no_tie "r1" "w1" 15 (λ s r found. (r, found, unchanged r))
      "m7" context call (user "go" ∷ []) 1 90 start held_row (λ s r found. (r, found, unchanged r))
      (λ w. refl) (λ s. omega arith) refl refl refl refl (omega arith)

abbrev reply : ToolDispatchResult
reply = record {
  is_error = false;
  text = "sent";
  approval_required = none;
  approval_denied = false;
  policy_denied = false;
  hibernated = false;
}

-- The task is done only when the other worker holds the run.
abbrev slow_drive : DriveDeps ℕ
slow_drive = record drive { poll_mcp_task = λ id interval s. (some (returns reply), start) }

abbrev open_history : List ConversationEntry
open_history = user "go" ∷ assistant "" (call ∷ []) ∷ []

call_open : find_unanswered_tool_calls open_history ≡ call ∷ []
unfolding find_unanswered_tool_calls
call_open = refl

run_session-overtaken_example :
    let outcome = call_failed call (lost_run_lease "r1") in
    (r : TaskLoopResult) × (s1 : HarnessState ℕ) × (run_session deps slow_drive no_tie "r1" "w2" 15
        1 3 limits open_history
        (some "m1")
        start
      ≡ some (looped r, s1))
    × (r.outcome ≡ ended outcome)
    × let done = settle_session deps slow_drive no_tie "r1" "w2" 15 (looped r) s1 in
      (done.0 ≡ finished r) × HasRow (IsEnded outcome) "r1" done.1.runs
run_session-overtaken_example =
    run_session-overtaken deps slow_drive no_tie "r1" "w2" "w1" 15 50 wait-KeepsLease call reply
      "m1" (λ e. ground (arith, (eq_iff "w2" "w1").1 e)) (λ id interval s. refl)
      (λ id interval s. start-IsLeased) 1 3 limits open_history [] start refl (λ s. refl) call_open
      refl (λ w. refl)
