-- ===== src/Runs/Continue.antt =====
-- Starting a completed run again: beginContinuation of apps/shaiden/src/runs/pg-run-repository.ts and
-- apps/shaiden/src/runs/utils/conversation-history.ts.
use keidai.Common.{
  ℕ, ◌+◌, String, Bool, true, false, not, ◌||◌, Option, none, some, List, [], ◌∷◌, ◌++◌,
  if◌then◌else◌, any,
}
use keidai.Run.{ConversationEntry, user}
use keidai.Run.Assessment.{
  TerminationOutcome, goal_met, iteration_exhausted, timeout, human_reject, stopped, failed,
}
use keidai.Runs.{
  RunRow, RunStep, RunTables, running, is_running, is_completed, runs_task, update_run, get_run_row,
  is_step,
}

pub data BeginContinuationFailure : Type 0 where
  not_found not_terminal ineligible_outcome missing_history concurrent_continuation :
      BeginContinuationFailure

pub data BeginContinuation : Type 0 where
  begun : List ConversationEntry → BeginContinuation
  refused : BeginContinuationFailure → BeginContinuation
  begin_throws : BeginContinuation

abbrev pub is_eligible_continuation_outcome : Option TerminationOutcome → Bool
is_eligible_continuation_outcome none = false
is_eligible_continuation_outcome (some (failed reason class)) = true
is_eligible_continuation_outcome (some goal_met) = true
is_eligible_continuation_outcome (some iteration_exhausted) = true
is_eligible_continuation_outcome (some timeout) = true
is_eligible_continuation_outcome (some stopped) = true
is_eligible_continuation_outcome (some human_reject) = false

-- A message that is absent or empty is `none`; with one comes the step that records it.
pub record NewMessage : Type 0 where
  pub text : String
  pub step : Option RunStep

abbrev pub updated_history : List ConversationEntry → Option NewMessage → List ConversationEntry
updated_history history none = history
updated_history history (some m) = history ++ user m.text ∷ []

abbrev step_of : Option NewMessage → Option RunStep
step_of none = none
step_of (some m) = m.step

abbrev pub steps_of : Option NewMessage → List RunStep
steps_of message = elim (step_of message) [ none ↦ [] | some step ↦ step ∷ [] ]

abbrev has_step : Option NewMessage → ℕ
has_step message = elim (step_of message) [ none ↦ 0 | some step ↦ 1 ]

abbrev pub continued : List ConversationEntry → Option NewMessage → ℕ → RunRow → RunRow
continued history message now r = record r {
  status = running;
  outcome = none;
  conversation_history = some (updated_history history message);
  step_count = r.step_count + has_step message;
  iterations_used = elim message [ none ↦ r.iterations_used | some m ↦ 0 ];
  active_elapsed_ms = elim message [ none ↦ r.active_elapsed_ms | some m ↦ 0 ];
  updated_at = now;
}

-- The transaction on the row that was read: the UPDATE throws where the task has a running run, and
-- the INSERT of the step where the step is there.
unfoldable pub continue_row :
    String
    → RunRow
    → List ConversationEntry
    → Option NewMessage
    → ℕ
    → RunTables
    → BeginContinuation × RunTables
unfolding update_run
continue_row id r history message now s =
    let (hit, s') = update_run id is_completed (continued history message now) s in
    if not hit
    then (refused concurrent_continuation, s)
    else if any (runs_task r.task_id) s.runs
        || any (λ new. any (is_step new) s.run_steps) (steps_of message)
    then (begin_throws, s)
    else (
      begun (updated_history history message),
      record s' { run_steps = s.run_steps ++ steps_of message },
    )

unfoldable pub begin_continuation :
    String → Option NewMessage → ℕ → RunTables → BeginContinuation × RunTables
unfolding continue_row get_run_row
begin_continuation id message now s = elim (get_run_row id s) [
  | none ↦ (refused not_found, s)
  | some r ↦
      if is_running r
      then (refused not_terminal, s)
      else if not (is_eligible_continuation_outcome r.outcome)
      then (refused ineligible_outcome, s)
      else elim r.conversation_history [
        | none ↦ (refused missing_history, s)
        | some [] ↦ (refused missing_history, s)
        | some (entry ∷ rest) ↦ continue_row id r (entry ∷ rest) message now s
      ]
]
