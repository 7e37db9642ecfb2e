-- ===== src/Run/Examples.antt =====
-- Runs at concrete inputs: tests, and the theorems at inputs that meet their hypotheses.
use mathlib.Core.Option.{some-injective}
use keidai.Common.{
  ℕ, ltb, All, ◌+◌, ◌≤◌, max, ◌≡◌, ◌↔◌, refl, ap, true, false, Option, none, some, List, [], ◌∷◌,
  arith, all, filter, not,
}
use keidai.Tasks.Inputs.{Payload}
use keidai.Run.{ModelToolCall, ConversationEntry, user, assistant, tool}
use keidai.Run.Pending.{find_unanswered_tool_calls, close_unanswered_tool_calls}
use keidai.Run.Assessment.{
  StepAssessment, goal_reached, cannot_complete, goal_met, stopped, failed, agent, ModelStep,
  map_terminal_assessment_to_outcome, is_report, is_harness_local_tool, model_step, reported,
  step_outcome,
}
use keidai.Run.Assessment.Laws.{step_outcome-goal_met_iff}
use keidai.Run.Loop.{
  throws, returns, ToolDispatchResult, TaskLoopDeps, TaskLoopResult, State, ended, settle_call,
  call_failed,
}
use keidai.Run.Loop.Rounds.{TaskLoopStart, run_task_loop}
use keidai.Run.Pending.Users.{IsUser}
use keidai.Run.Loop.Failed.{failed_call-open, others_than}
use keidai.Run.Loop.Outcome.{stopped-answered, iterations-bounded, iterations_before}
use keidai.Run.Loop.Returns.{IsReturned, IsHibernating, run_task_loop-IsReturned}

abbrev mail_call : ModelToolCall
mail_call = record { tool_call_id = "c1"; tool_name = "mail.send"; input = "{}" }

abbrev second_call : ModelToolCall
second_call = record { tool_call_id = "c2"; tool_name = "mail.read"; input = "{}" }

abbrev report_call : ModelToolCall
report_call = record { tool_call_id = "c3"; tool_name = "report_step_assessment"; input = "met" }

abbrev half_answered : List ConversationEntry
half_answered =
    user "go"
    ∷ assistant "" (mail_call ∷ second_call ∷ [])
    ∷ tool "c1" "mail.send" "sent" false
    ∷ []

one_open : find_unanswered_tool_calls half_answered ≡ second_call ∷ []
unfolding find_unanswered_tool_calls
one_open = refl

abbrev met : StepAssessment
met = record { status = goal_reached; message = "done" }

abbrev parse : Payload → Option StepAssessment
parse input = some met

abbrev gave_up : StepAssessment
gave_up = record { status = cannot_complete; message = "  " }

blank_reason :
    map_terminal_assessment_to_outcome (some gave_up)
    ≡ failed "agent reported cannot complete" agent
unfolding map_terminal_assessment_to_outcome
blank_reason = refl

step_outcome-goal_met_iff_example :
    (step_outcome (model_step parse (report_call ∷ []) "bye") ≡ some goal_met) ↔ (
      (a : StepAssessment) × (reported parse (report_call ∷ []) ≡ some a)
      × (a.status ≡ goal_reached)
      × (all
            (λ call. is_harness_local_tool call.tool_name)
            (filter (λ call. not (is_report call)) (report_call ∷ []))
          ≡ true))
step_outcome-goal_met_iff_example = step_outcome-goal_met_iff parse (report_call ∷ []) "bye"

-- A world that counts the calls; the operator stops the run while its first tool call is out.
abbrev sent : ToolDispatchResult
sent = record {
  is_error = false;
  text = "sent";
  approval_required = none;
  approval_denied = false;
  policy_denied = false;
  hibernated = false;
}

abbrev asleep : ToolDispatchResult
asleep = record sent { hibernated = true }

abbrev two_calls : ModelStep
two_calls = record { text = ""; tool_calls = mail_call ∷ second_call ∷ []; assessment = none }

abbrev deps : TaskLoopDeps ℕ
deps = record {
  call_model = λ history w. (returns two_calls, w);
  dispatch_tool_call = λ call w. (returns sent, w + 1);
  wait_for_approval = some (λ id context call w. (returns asleep, w));
  now = λ w. (w, w);
  drain_pending_user_messages = λ w. ([], w);
  on_history_changed = λ history w. w;
  on_budget_changed = λ budget w. w;
  stop_requested = λ w. ltb 0 w;
}

abbrev start : TaskLoopStart
start = record {
  initial_history = user "go" ∷ [];
  limits = record { max_iterations = some 1; timeout_seconds = some 60 };
  budget = none;
  resume_parked_approval = none;
}

only_users : (w : ℕ) → All IsUser (deps.drain_pending_user_messages w).0
only_users w = tt

abbrev stopped_history : List ConversationEntry
stopped_history =
    close_unanswered_tool_calls (user "go" ∷ assistant "" (mail_call ∷ second_call ∷ []) ∷ [])

abbrev stopped_run : TaskLoopResult
stopped_run = record { outcome = ended stopped; history = stopped_history; iterations = 1 }

abbrev final_state : State ℕ
final_state = record {
  iterations_used = 1;
  active_elapsed_ms = 0;
  segment_started_at = 0;
  active_clock_paused = false;
  history = stopped_history;
  world = 1;
}

stopped_early : run_task_loop ℕ deps 1 1 start 0 ≡ some (stopped_run, final_state)
unfolding run_task_loop
stopped_early = refl

stopped-answered_example : find_unanswered_tool_calls stopped_history ≡ []
stopped-answered_example =
    stopped-answered ℕ deps only_users 1 1 start 0 stopped_run final_state stopped_early refl

iterations-bounded_example : 1 ≤ max 1 (iterations_before start)
iterations-bounded_example =
    iterations-bounded ℕ deps only_users 1 1 start 0 stopped_run final_state stopped_early 1 refl

deps-IsHibernating : IsHibernating deps
deps-IsHibernating wait id context call w result e h r =
    let same = some-injective _ _ e in
    let answer = ap (λ f. (f id context call w).0) same in ground (arith, answer, r)

run_task_loop-IsReturned_example : IsReturned (run_task_loop ℕ deps 1 1 start 0)
run_task_loop-IsReturned_example =
    run_task_loop-IsReturned ℕ deps deps-IsHibernating 0 1 1 start 0 refl (omega arith)

abbrev failing : State ℕ
failing = record final_state {
  history = user "go" ∷ assistant "" (mail_call ∷ second_call ∷ []) ∷ [];
  world = 0;
}

failed_call-open_example :
    (r : TaskLoopResult) × ((settle_call ℕ deps mail_call 1 (throws "no route") failing).0 ≡ some r)
    × (r.outcome ≡ ended (call_failed mail_call "no route"))
    × (find_unanswered_tool_calls r.history
        ≡ others_than "c1" (find_unanswered_tool_calls failing.history))
failed_call-open_example = failed_call-open ℕ deps only_users mail_call 1 "no route" failing refl

still_open : others_than "c1" (find_unanswered_tool_calls failing.history) ≡ second_call ∷ []
unfolding find_unanswered_tool_calls
still_open = refl
