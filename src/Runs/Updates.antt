-- ===== src/Runs/Updates.antt =====
-- What each statement of the run repository on one existing run changes in the table `runs`.
use keidai.Common.{
  ℕ, String, str_eq, refl, ◌&&◌, ◌||◌, inl, inr, Option, some, List, arith, Bool-cases,
  Option-cases, any, find,
}
use keidai.Run.{ConversationEntry}
use keidai.Run.Assessment.{TerminationOutcome}
use keidai.Run.Loop.{RunBudget}
use keidai.Runs.{
  always, RunStep, FollowUp, RunTables, is_running, has_id, update_run, get_run_row, is_step,
  append_step, with_step, completed_run, complete_run,
}
use keidai.Runs.FollowUps.{is_parked, enqueue_parked_follow_up}
use keidai.Runs.Ops.{
  parked_row, unparked_row, polled_row, claimed_row, renewed_row, released_row, is_none, is_unowned,
  is_owned_by, set_conversation_history, set_run_budget, set_parked_mcp_task, clear_parked_mcp_task,
  set_next_poll_at, claim_run, renew_run_lease, release_run,
}
use keidai.Runs.Steps.{
  op_append, op_complete, op_history, op_budget, op_park, op_unpark, op_poll, op_enqueue, op_claim,
  op_renew, op_release,
}
use keidai.Runs.Changes.{
  owner_unique, Change, same, write, IsQuiet-row, running-IsQuiet, cleared-IsQuiet,
}

module _ (id : String) (now : ℕ) (s : RunTables) where
  pub append-Change :
      (step : RunStep) → Change (op_append step) now s.runs (append_step step now s).1.runs
  unfolding append_step update_run get_run_row
  append-Change step = elim (Option-cases (find (has_id step.run_id) s.runs)) [
    | inl e ↦ same (ground (arith, e))
    | inr (r, e) ↦ elim (Bool-cases (any (is_step step) s.run_steps)) [
      | inl d ↦ same (ground (arith, e, d))
      | inr d ↦
          write step.run_id always (with_step now)
            (IsQuiet-row (op_append step) now step.run_id always (with_step now) (λ r. refl)
              (λ r. refl) (λ r. refl) (λ o at r g a h. h) (λ r _ c. c))
            (ground (arith, e, d))
    ]
  ]

  pub enqueue-Change :
      (f : FollowUp) (step : RunStep)
      → Change (op_enqueue f step) now s.runs (enqueue_parked_follow_up f step now s).1.runs
  unfolding enqueue_parked_follow_up update_run
  enqueue-Change f step = elim (Bool-cases (any (λ r. has_id f.run_id r && is_parked r) s.runs)) [
    | inr e ↦ same (ground (arith, e))
    | inl e ↦
        elim (Bool-cases
          (any (λ g. str_eq g.id f.id) s.follow_ups || any (is_step step) s.run_steps)) [
            | inl d ↦ same (ground (arith, e, d))
            | inr d ↦
                write f.run_id always (with_step now)
                  (IsQuiet-row (op_enqueue f step) now f.run_id always (with_step now) (λ r. refl)
                    (λ r. refl) (λ r. refl) (λ o at r g a h. h) (λ r _ c. c))
                  (ground (arith, e, d))
          ]
  ]

  pub complete-Change :
      (outcome : TerminationOutcome)
      → Change (op_complete id outcome) now s.runs (complete_run id outcome now s).1.runs
  unfolding complete_run update_run get_run_row
  complete-Change outcome = elim (Option-cases (find (has_id id) s.runs)) [
    | inl e ↦ same (ground (arith, e))
    | inr (r, e) ↦
        write id always (completed_run outcome now)
          (record {
            keeps_id = λ r. refl;
            keeps_task = λ r. refl;
            starts_none = λ r h. cc;
            keeps_consistent = λ r h c. (refl, refl, refl, refl, refl, refl);
            keeps_held = λ o at r g a h. absurd (a refl);
          })
          (ground (arith, e))
  ]

  pub history-Change :
      (history : List ConversationEntry)
      → Change (op_history id history) now s.runs (set_conversation_history id history s).1.runs
  unfolding set_conversation_history update_run get_run_row
  history-Change history = elim (Bool-cases (is_none (find (has_id id) s.runs))) [
    | inl e ↦ same (ground (arith, e))
    | inr e ↦
        write id always (λ r. record r { conversation_history = some history })
          (IsQuiet-row (op_history id history) now id always _ (λ r. refl) (λ r. refl) (λ r. refl)
            (λ o at r g a h. h) (λ r _ c. c))
          (ground (arith, e))
  ]

  pub budget-Change :
      (budget : RunBudget)
      → Change (op_budget id budget) now s.runs (set_run_budget id budget s).1.runs
  unfolding set_run_budget update_run
  budget-Change budget =
      write id always _
        (IsQuiet-row (op_budget id budget) now id always _ (λ r. refl) (λ r. refl) (λ r. refl)
          (λ o at r g a h. h) (λ r _ c. c))
        refl

  pub park-Change :
      (mcp_task_id : String) (interval : Option ℕ)
      → Change
          (op_park id mcp_task_id interval)
          now
          s.runs
          (set_parked_mcp_task id mcp_task_id interval now s).1.runs
  unfolding set_parked_mcp_task update_run
  park-Change mcp_task_id interval =
      write id is_running (parked_row mcp_task_id interval now)
        (running-IsQuiet (op_park id mcp_task_id interval) now id is_running
          (parked_row mcp_task_id interval now) (λ r. refl) (λ r. refl) (λ r. refl)
          (λ o at r g a h. h) (λ r. refl) (λ r h. ground (arith, h)))
        refl

  pub unpark-Change : Change (op_unpark id) now s.runs (clear_parked_mcp_task id now s).1.runs
  unfolding clear_parked_mcp_task update_run
  unpark-Change =
      write id always (unparked_row now)
        (cleared-IsQuiet (op_unpark id) now id always (unparked_row now) (λ r. refl) (λ r. refl)
          (λ r. refl) (λ o at r g a h. h) (λ r. refl) (λ r e. refl) (λ r e. refl) (λ r e. refl)
          (λ r e. e) (λ r e. e))
        refl

  pub poll-Change : (at : ℕ) → Change (op_poll id at) now s.runs (set_next_poll_at id at s).1.runs
  unfolding set_next_poll_at update_run
  poll-Change at =
      write id is_running (polled_row at)
        (running-IsQuiet (op_poll id at) now id is_running (polled_row at) (λ r. refl) (λ r. refl)
          (λ r. refl) (λ o t r g a h. h) (λ r. refl) (λ r h. ground (arith, h)))
        refl

  pub claim-Change :
      (owner : String) (expires : ℕ)
      → Change (op_claim id owner expires) now s.runs (claim_run id owner expires now s).1.runs
  unfolding claim_run update_run
  claim-Change owner expires =
      write id (λ r. is_running r && is_unowned now r) (claimed_row owner expires)
        (running-IsQuiet (op_claim id owner expires) now id (λ r. is_running r && is_unowned now r)
          (claimed_row owner expires) (λ r. refl) (λ r. refl) (λ r. refl)
          (λ o at r g a h. ground (arith, g, a, h)) (λ r. refl) (λ r h. ground (arith, h)))
        refl

  pub renew-Change :
      (owner : String) (expires : ℕ)
      → Change (op_renew id owner expires) now s.runs (renew_run_lease id owner expires s).1.runs
  unfolding renew_run_lease update_run
  renew-Change owner expires =
      write id (λ r. is_owned_by owner r && is_running r) (renewed_row expires)
        (running-IsQuiet (op_renew id owner expires) now id
          (λ r. is_owned_by owner r && is_running r) (renewed_row expires) (λ r. refl) (λ r. refl)
          (λ r. refl) (λ o at r g a h. ground (arith, owner_unique owner o r, g, a, h)) (λ r. refl)
          (λ r h. ground (arith, h)))
        refl

  pub release-Change :
      (owner : String) → Change (op_release id owner) now s.runs (release_run id owner s).1.runs
  unfolding release_run update_run
  release-Change owner =
      write id (is_owned_by owner) released_row
        (cleared-IsQuiet (op_release id owner) now id (is_owned_by owner) released_row (λ r. refl)
          (λ r. refl) (λ r. refl)
          (λ o at r g a h. absurd (ground (arith, owner_unique owner o r, g, h, a))) (λ r. refl)
          (λ r e. e) (λ r e. e) (λ r e. e) (λ r e. refl) (λ r e. refl))
        refl
