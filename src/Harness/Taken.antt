-- ===== src/Harness/Taken.antt =====
-- A drive that resumes a parked call while another worker takes its run (apps/shaiden/src/run): the task
-- loop, from the waiter's exception to its end.
use keidai.Common.{
  ℕ, String, ◌≡◌, ◌≢◌, sym, ap, ◌∙◌, subst, Bool, false, Option, none, some, List, ◌∷◌,
}
use keidai.Run.{ModelToolCall, ConversationEntry}
use keidai.Run.Pending.{find_unanswered_tool_calls}
use keidai.Run.Loop.{
  and_then, returns, throws, ToolDispatchResult, TaskLoopResult, State, ended, call_failed,
  refuse_denied, checkpoint, pause_active_clock, terminate, wait_for_parked_result,
  push_tool_error_result,
}
use keidai.Run.Loop.Rounds.{
  TaskLimits, TaskLoopStart, plain_wait, initial_state, after_parked, resume_call, resume_parked,
  first_round, conclude, run_task_loop,
}
use keidai.Harness.{HarnessState, HarnessDeps, statement}
use keidai.Harness.Waiter.{
  lost_run_lease, wait_interval, park_run, after_wait_poll, wait_for_parked,
}
use keidai.Harness.Drive.{
  DriveDeps, SessionResult, looped, session_threw, finished, stored_budget, loop_deps, run_session,
  finish_loop, settle_session,
}
use keidai.Harness.Sweep.{reading}
use keidai.Harness.Tracked.{HasRow}
use keidai.Harness.Leased.{IsLeased, KeepsLease}
use keidai.Harness.Overtaken.{IsEnded, wait-thrown, finish-completed}
use keidai.Harness.Looped.{push-Leased, resume_clock-Leased, terminate-Leased}

module _ {W : Type 0} (deps : HarnessDeps W) (drive : DriveDeps W)
    (id_before : String → String → Bool) (run_id replica holder : String) (lease expires : ℕ)
    (others : KeepsLease run_id holder expires deps.meanwhile) where
  module _ (call : ModelToolCall) (result : ToolDispatchResult) (task : String)
      (ne : replica ≢ holder)
      (answers : (id : String) (interval : Option ℕ) (s : HarnessState W)
        → (drive.poll_mcp_task id interval s).0 ≡ some (returns result))
      (taken : (id : String) (interval : Option ℕ) (s : HarnessState W)
        → IsLeased run_id holder expires (drive.poll_mcp_task id interval s).1) where
    wait-Leased :
        (s : HarnessState W)
        → let x =
            wait_for_parked deps run_id replica lease drive.poll_mcp_task task plain_wait call s in
          (x.0 ≡ throws (lost_run_lease run_id)) × IsLeased run_id holder expires x.1
    unfolding wait_for_parked
    wait-Leased s =
        let interval = wait_interval deps run_id replica lease drive.poll_mcp_task plain_wait s in
        let s2 =
          park_run deps run_id replica lease drive.poll_mcp_task task plain_wait call interval.0
            interval.1 in
        let poll = drive.poll_mcp_task task interval.0 s2 in
        subst
          (λ o.
            let x =
              after_wait_poll deps run_id replica lease drive.poll_mcp_task call (o, poll.1) in
            (x.0 ≡ throws (lost_run_lease run_id)) × IsLeased run_id holder expires x.1)
          (sym (answers task interval.0 s2))
          (wait-thrown deps drive id_before run_id replica holder lease expires others call result
            poll.1 ne (taken task interval.0 s2))

    parked-Leased :
        (s : State (HarnessState W))
        → let x =
            wait_for_parked_result
              (HarnessState W)
              (loop_deps deps drive id_before run_id replica lease)
              call
              task
              plain_wait
              s in
          (x.0 ≡ throws (lost_run_lease run_id)) × IsLeased run_id holder expires x.1.world
    unfolding wait_for_parked_result loop_deps
    parked-Leased s =
        let s1 = checkpoint (HarnessState W) (loop_deps deps drive id_before run_id replica lease) (
          pause_active_clock (HarnessState W) (loop_deps deps drive id_before run_id replica lease)
            s) in
        let (thrown, leased) = wait-Leased s1.world in
        (
          ap refuse_denied thrown,
          resume_clock-Leased deps drive id_before run_id replica holder lease expires others
              (record s1 { world = _ }) leased,
        )

    resume-Leased :
        (parks : ℕ) (rest : List ModelToolCall) (s : State (HarnessState W))
        → find_unanswered_tool_calls s.history ≡ call ∷ rest
        → (r : TaskLoopResult) × (s' : State (HarnessState W)) × (resume_parked
              (HarnessState W)
              (loop_deps deps drive id_before run_id replica lease)
              parks
              (some task)
              s
            ≡ some (some r, s'))
          × (r.outcome ≡ ended (call_failed call (lost_run_lease run_id)))
          × IsLeased run_id holder expires s'.world
    unfolding resume_parked resume_call after_parked
    resume-Leased parks rest s unanswered =
        let given = loop_deps deps drive id_before run_id replica lease in
        let error = lost_run_lease run_id in
        let waited = wait_for_parked_result (HarnessState W) given call task plain_wait s in
        let (thrown, leased) = parked-Leased s in
        let failed = push_tool_error_result (HarnessState W) given call error waited.1 in
        let end =
          terminate (HarnessState W) given (call_failed call error) waited.1.iterations_used
            failed in
        let (outcome, held) =
          terminate-Leased deps drive id_before run_id replica holder lease expires others
            (call_failed call error) waited.1.iterations_used failed
            (push-Leased deps drive id_before run_id replica holder lease expires others _ waited.1
              leased) in
        (
          end.0,
          end.1,
          ap (λ calls. resume_call (HarnessState W) given parks task calls s) unanswered
              ∙ ap (λ answer. after_parked (HarnessState W) given parks call rest answer waited.1)
                  thrown,
          outcome,
          held,
        )

    -- A session that resumes a run parked on a task: its history has calls without a result, and the poll
    -- of the task gives one, but only when another worker holds the run, over sound tables that others
    -- keep so with the run held. The heartbeat has not noticed it, there is no sandbox, and the session
    -- connects. Then the task loop ends with the first of these calls failed because the lease is lost,
    -- and the end of the session completes the run with that outcome: it has no owner any more.
    pub run_session-overtaken :
        (parks rounds : ℕ) (limits : TaskLimits) (history : List ConversationEntry)
        (rest : List ModelToolCall) (s : HarnessState W)
        → (drive.connect s).0 ≡ none
        → ((s : HarnessState W) → (drive.close s).runs ≡ s.runs)
        → find_unanswered_tool_calls history ≡ call ∷ rest
        → deps.delete_workspace ≡ none
        → ((w : W) → drive.lost_lease w ≡ false)
        → let outcome = call_failed call (lost_run_lease run_id) in
          (r : TaskLoopResult) × (s1 : HarnessState W) × (run_session deps drive id_before run_id
              replica lease parks rounds limits history
              (some task)
              s
            ≡ some (looped r, s1))
          × (r.outcome ≡ ended outcome)
          × let done = settle_session deps drive id_before run_id replica lease (looped r) s1 in
            (done.0 ≡ finished r) × HasRow (IsEnded outcome) run_id done.1.runs
    unfolding run_session run_task_loop
    run_session-overtaken parks rounds limits history rest s connects closes unanswered stays
          unaware =
        let given = loop_deps deps drive id_before run_id replica lease in
        let outcome = call_failed call (lost_run_lease run_id) in
        let connection = drive.connect s in
        let budget = statement deps (reading (stored_budget run_id)) connection.1 in
        let start : TaskLoopStart = record {
          initial_history = history;
          limits = limits;
          budget = budget.0;
          resume_parked_approval = some task;
        } in
        let (r, state, resumed, is_ended, leased) =
          resume-Leased parks rest (initial_state (HarnessState W) given parks start budget.1)
            unanswered in
        let (end, row) =
          finish-completed deps drive id_before run_id replica holder lease expires others r outcome
            state.world is_ended stays (unaware state.world.world) leased in
        let looped_to : Option (TaskLoopResult × State (HarnessState W))
            → Option (SessionResult × HarnessState W) =
          λ o. elim o [ none ↦ none | some x ↦ some (looped x.0, x.1.world) ] in
        let ran : run_task_loop (HarnessState W) given parks rounds start budget.1
            ≡ some (r, state) =
          ap
            (λ o. and_then o (
              conclude (HarnessState W) given parks
                (first_round (HarnessState W) given parks rounds limits)))
            resumed in
        let session : run_session deps drive id_before run_id replica lease parks rounds limits
              history (some task) s
            ≡ some (looped r, state.world) =
          ap
            (λ o. elim o [
              | some e ↦ some (session_threw e, connection.1)
              | none ↦ looped_to (run_task_loop (HarnessState W) given parks rounds start budget.1)
            ])
            connects
          ∙ ap looped_to ran in
        let finish = finish_loop deps drive id_before run_id replica lease r state.world in
        (
          r,
          state.world,
          session,
          is_ended,
          (end, subst (HasRow (IsEnded outcome) run_id) (sym (closes finish.1)) row),
        )
