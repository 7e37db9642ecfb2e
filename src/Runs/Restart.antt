-- ===== src/Runs/Restart.antt =====
-- When a completed run starts again (beginContinuation of
-- apps/shaiden/src/runs/pg-run-repository.ts), and what a reader then finds.
use keidai.Common.{
  ℕ, ◌+◌, [], none, String, ◌≡◌, refl, ap, ◌∙◌, Bool, true, false, not, ◌&&◌, Option, some, List,
  ◌∷◌, ◌++◌, arith, any, find, update_where, count_where, ◌==◌, find-update_guarded,
}
use keidai.Run.{ConversationEntry, user}
use keidai.Runs.{
  RunRow, RunStep, RunTables, running, no_tables, is_running, is_completed, has_id, runs_task,
  get_run_row, update_run, is_step,
}
use keidai.Runs.Continue.{
  NewMessage, begun, is_eligible_continuation_outcome, updated_history, steps_of, continued,
  continue_row, begin_continuation,
}
use keidai.Runs.Steps.{RunOp, apply_ops}
use keidai.Runs.Single.{row_id, IsSound, apply_ops-IsSound, no_tables-IsSound}
use keidai.Runs.Lease.{hit}

-- The run is there, completed with an outcome to go on from, and has a history.
pub record IsContinuable (id : String) (r : RunRow) (entry : ConversationEntry)
    (rest : List ConversationEntry) (s : RunTables) : Type 0 where
  pub found : get_run_row id s ≡ some r
  pub stopped_running : is_running r ≡ false
  pub eligible : is_eligible_continuation_outcome r.outcome ≡ true
  pub history : r.conversation_history ≡ some (entry ∷ rest)

module _ (id : String) (r : RunRow) (entry : ConversationEntry) (rest : List ConversationEntry)
    (message : Option NewMessage) (now : ℕ) (s : RunTables)
    (h : IsContinuable id r entry rest s) where
  begin-row : begin_continuation id message now s ≡ continue_row id r (entry ∷ rest) message now s
  unfolding begin_continuation
  begin-row = ground (arith, h.found, h.stopped_running, h.eligible, h.history)

  module _ (sound : IsSound s.runs) where
    row-hit : not (count_where (λ x. has_id id x && is_completed x) s.runs == 0) ≡ true
    unfolding get_run_row
    row-hit = hit id s.runs sound is_completed r h.found ∙ ground (arith, h.stopped_running)

    continue_row-idle :
        any (runs_task r.task_id) s.runs ≡ false
        → any (λ new. any (is_step new) s.run_steps) (steps_of message) ≡ false
        → let (answer, s') = continue_row id r (entry ∷ rest) message now s in
          (answer ≡ begun (updated_history (entry ∷ rest) message))
          × (s'.runs
              ≡ update_where
                  (λ x. has_id id x && is_completed x)
                  (continued (entry ∷ rest) message now)
                  s.runs)
          × (s'.run_steps ≡ s.run_steps ++ steps_of message)
    unfolding continue_row update_run
    continue_row-idle idle fresh = ground (arith, row-hit, idle, fresh)

    row-continued :
        find (has_id id) (
          update_where
            (λ x. has_id id x && is_completed x)
            (continued (entry ∷ rest) message now)
            s.runs)
        ≡ some (continued (entry ∷ rest) message now r)
    unfolding get_run_row
    row-continued = ground (
      arith,
      find-update_guarded row_id id is_completed (continued (entry ∷ rest) message now) s.runs
          (λ x. refl),
      h.found,
      h.stopped_running,
    )

module _ (preview : String → String) (id_after id_before : String → String → Bool)
    (retention : ℕ) where
  -- What a run that starts again answers, and leaves.
  begin-restarted :
      (ops : List (RunOp × ℕ)) (id : String) (r : RunRow) (entry : ConversationEntry)
      (rest : List ConversationEntry) (message : Option NewMessage) (now : ℕ)
      → IsContinuable id r entry rest (apply_ops preview id_after id_before retention ops no_tables)
      → any
          (runs_task r.task_id)
          (apply_ops preview id_after id_before retention ops no_tables).runs
        ≡ false
      → any
          (λ new.
            any
              (is_step new)
              (apply_ops preview id_after id_before retention ops no_tables).run_steps)
          (steps_of message)
        ≡ false
      → let s = apply_ops preview id_after id_before retention ops no_tables in
        let (answer, s') = begin_continuation id message now s in
        (answer ≡ begun (updated_history (entry ∷ rest) message))
        × (get_run_row id s' ≡ some (continued (entry ∷ rest) message now r))
        × (s'.run_steps ≡ s.run_steps ++ steps_of message)
  unfolding get_run_row
  begin-restarted ops id r entry rest message now h idle fresh =
      let s = apply_ops preview id_after id_before retention ops no_tables in
      let sound =
        apply_ops-IsSound preview id_after id_before retention ops no_tables
          (no_tables-IsSound preview id_after id_before retention) in
      let begins = begin-row id r entry rest message now s h in
      let (answers, rows, steps) =
        continue_row-idle id r entry rest message now s h sound idle fresh in
      (
        ap (λ x. x.0) begins ∙ answers,
        ap (λ x. find (has_id id) x.1.runs) begins
            ∙ (ap (find (has_id id)) rows ∙ row-continued id r entry rest message now s h sound),
        ap (λ x. x.1.run_steps) begins ∙ steps,
      )

  -- After any operations on empty tables, a completed run with an outcome to go on from and a history,
  -- and no running run of its task, gets a message with a step that is not there yet. The run starts
  -- again: the answer is its history with the message of the user at the end, its row is running with
  -- that history, without an outcome, with one step more, none of its iterations or its time used and
  -- the time of the update, and the step is recorded after the others.
  pub begin_continuation-idle :
      (ops : List (RunOp × ℕ)) (id : String) (r : RunRow) (entry : ConversationEntry)
      (rest : List ConversationEntry) (text : String) (step : RunStep) (now : ℕ)
      → IsContinuable id r entry rest (apply_ops preview id_after id_before retention ops no_tables)
      → any
          (runs_task r.task_id)
          (apply_ops preview id_after id_before retention ops no_tables).runs
        ≡ false
      → any (is_step step) (apply_ops preview id_after id_before retention ops no_tables).run_steps
        ≡ false
      → let s = apply_ops preview id_after id_before retention ops no_tables in
        let message : NewMessage = record { text = text; step = some step } in
        let (answer, s') = begin_continuation id (some message) now s in
        (answer ≡ begun ((entry ∷ rest) ++ user text ∷ []))
        × (get_run_row id s'
            ≡ some (record r {
              status = running;
              outcome = none;
              conversation_history = some ((entry ∷ rest) ++ user text ∷ []);
              step_count = r.step_count + 1;
              iterations_used = 0;
              active_elapsed_ms = 0;
              updated_at = now;
            }))
        × (s'.run_steps ≡ s.run_steps ++ step ∷ [])
  begin_continuation-idle ops id r entry rest text step now h idle fresh =
      begin-restarted ops id r entry rest (some (record { text = text; step = some step })) now h
        idle (ground (arith, fresh))
