-- ===== src/Harness/Hibernated.antt =====
-- A run that its worker parks and leaves (apps/shaiden/src/run).
use keidai.Common.{
  ℕ, ◌≤◌, String, ◌≡◌, refl, sym, ap, subst, Bool, true, false, Option, some, List, arith,
  if◌then◌else◌, if_eq, option_both, Elem,
}
use keidai.Run.{ModelToolCall, ConversationEntry}
use keidai.Run.Loop.{Answer, ToolDispatchResult, ApprovalWaitContext, TaskLoopResult, parked}
use keidai.Runs.{RunRow, running, is_running, get_run_row}
use keidai.Runs.Ops.{
  is_owned_by, parked_row, polled_row, released_row, set_parked_mcp_task, set_next_poll_at,
  release_run, set_conversation_history, list_claimable_parked_mcp_tasks,
}
use keidai.Harness.{HarnessState, HarnessDeps, waiting_approval_step, statement}
use keidai.Harness.Waiter.{stored_interval, wait_interval, park_run, wait_for_parked}
use keidai.Harness.Drive.{
  DriveDeps, DriveEnd, hibernated, threw_lease_lost, looped, finish_loop, settle_session,
  release_drive,
}
use keidai.Harness.Tracked.{
  HasRow, LeavesRun, leaves-HasRow, update-HasRow, history-HasRow, statement-HasRow,
  record_step-HasRow,
}
use keidai.Harness.Stages.{
  IsWorked, IsParked, IsPolled, IsLeft, IsWorked-kept, IsParked-kept, IsPolled-kept, runs_on,
  written, list-Elem,
}

module _ {W : Type 0} (deps : HarnessDeps W) (drive : DriveDeps W)
    (id_before : String → String → Bool) (run_id replica : String) (lease : ℕ)
    (others : LeavesRun run_id deps.meanwhile) where
  wait_interval-HasRow :
      (context : ApprovalWaitContext) (s : HarnessState W)
      → HasRow (IsWorked replica) run_id s.runs
      → HasRow
          (IsWorked replica)
          run_id
          (wait_interval deps run_id replica lease drive.poll_mcp_task context s).1.runs
  unfolding wait_interval
  wait_interval-HasRow context s h =
      option_both (λ (x : Option ℕ × HarnessState W). HasRow (IsWorked replica) run_id x.1.runs)
        context.poll_interval_ms (statement deps (stored_interval run_id) s) (λ ms. (some ms, s))
        (statement-HasRow deps {P = IsWorked replica} run_id
          (leaves-HasRow {P = IsWorked replica} run_id deps.meanwhile others
            (IsWorked-kept replica))
          {Q = IsWorked replica} (stored_interval run_id) s (λ t h. h) h)
        (λ ms. h)

  park_run-HasRow :
      (task : String) (context : ApprovalWaitContext) (call : ModelToolCall) (interval : Option ℕ)
      (s : HarnessState W)
      → HasRow (IsWorked replica) run_id s.runs
      → HasRow
          (IsParked replica task)
          run_id
          (park_run deps run_id replica lease drive.poll_mcp_task task context call interval s).runs
  unfolding park_run set_parked_mcp_task
  park_run-HasRow task context call interval s h =
      let now = deps.clock s.world in
      let h1 =
        statement-HasRow deps {P = IsWorked replica} run_id
          (leaves-HasRow {P = IsWorked replica} run_id deps.meanwhile others
            (IsWorked-kept replica))
          {Q = IsParked replica task} (set_parked_mcp_task run_id task interval now) s
          (λ t.
            update-HasRow {P = IsWorked replica} {Q = IsParked replica task} run_id is_running
              (parked_row task interval now) t (λ r. refl)
              (λ r w.
                written (IsParked replica task) (is_running r) (parked_row task interval now r) r
                  (runs_on r w.0) (w, refl)))
          h in
      record_step-HasRow deps {P = IsParked replica task} run_id
        (leaves-HasRow {P = IsParked replica task} run_id deps.meanwhile others
          (IsParked-kept replica task))
        context.step_id (waiting_approval_step task call.tool_name)
        (statement deps (set_parked_mcp_task run_id task interval now) s).1 (λ r now p. p) h1

  -- What a wait that hibernates leaves, and how it answers.
  wait-HasRow :
      (task : String) (context : ApprovalWaitContext) (call : ModelToolCall) (s : HarnessState W)
      → ((s : HarnessState W) → deps.clock s.world ≤ deps.clock (deps.meanwhile s).world)
      → context.hibernate ≡ true
      → HasRow (IsWorked replica) run_id s.runs
      → let s' =
          (wait_for_parked deps run_id replica lease drive.poll_mcp_task task context call s).1 in
        (at : ℕ) × (at ≤ deps.clock s'.world) × HasRow (IsPolled replica task at) run_id s'.runs
  unfolding wait_for_parked set_next_poll_at statement
  wait-HasRow task context call s ticks hibernates h =
      let interval = wait_interval deps run_id replica lease drive.poll_mcp_task context s in
      let s2 =
        park_run deps run_id replica lease drive.poll_mcp_task task context call interval.0
          interval.1 in
      let at = deps.clock s2.world in
      let h2 =
        park_run-HasRow task context call interval.0 interval.1
          (wait_interval-HasRow context s h) in
      let h3 =
        statement-HasRow deps {P = IsParked replica task} run_id
          (leaves-HasRow {P = IsParked replica task} run_id deps.meanwhile others
            (IsParked-kept replica task))
          {Q = IsPolled replica task at} (set_next_poll_at run_id at) s2
          (λ t.
            update-HasRow {P = IsParked replica task} {Q = IsPolled replica task at} run_id
              is_running (polled_row at) t (λ r. refl)
              (λ r w.
                written (IsPolled replica task at) (is_running r) (polled_row at r) r
                  (runs_on r w.0.0) (w, refl)))
          h2 in
      if_eq
        (λ (x : Answer ToolDispatchResult × HarnessState W).
          (at : ℕ) × (at ≤ deps.clock x.1.world)
          × HasRow (IsPolled replica task at) run_id x.1.runs)
        context.hibernate _ _ (λ _. (at, ticks s2, h3))
        (λ e. absurd (ground (arith, e, hibernates)))

  -- The end of a drive whose loop is parked.
  leave-HasRow :
      (task : String) (at : ℕ) (history : List ConversationEntry) (iterations : ℕ)
      (s : HarnessState W)
      → LeavesRun run_id drive.close
      → ((w : W) → drive.lost_lease w ≡ false)
      → HasRow (IsPolled replica task at) run_id s.runs
      → let result : TaskLoopResult = record {
        outcome = parked;
        history = history;
        iterations = iterations;
      } in
        let left =
          release_drive deps drive id_before run_id replica lease
            (settle_session deps drive id_before run_id replica lease (looped result) s) in
        (left.0 ≡ hibernated) × HasRow (IsLeft task at) run_id left.1.runs
  unfolding finish_loop release_drive release_run
  leave-HasRow task at history iterations s closes keeps h =
      let P = IsPolled replica task at in
      let others_keep =
        leaves-HasRow {P = P} run_id deps.meanwhile others (IsPolled-kept replica task at) in
      let s1 = (statement deps (set_conversation_history run_id history) s).1 in
      let h1 =
        statement-HasRow deps {P = P} run_id others_keep {Q = P}
          (set_conversation_history run_id history) s
          (λ t. history-HasRow {P = P} run_id history t (λ r p. p)) h in
      let h2 =
        leaves-HasRow {P = P} run_id drive.close closes (IsPolled-kept replica task at) s1 h1 in
      let h3 =
        statement-HasRow deps {P = P} run_id others_keep {Q = IsLeft task at}
          (release_run run_id replica) (drive.close s1)
          (λ t.
            update-HasRow {P = P} {Q = IsLeft task at} run_id (is_owned_by replica) released_row t
              (λ r. refl)
              (λ r w.
                written (IsLeft task at) (is_owned_by replica r) (released_row r) r w.0.0.1
                  (w.0.0.0, refl, w.0.1, w.1)))
          h2 in
      let Left : DriveEnd × HarnessState W → Type 0 =
        λ x. (x.0 ≡ hibernated) × HasRow (IsLeft task at) run_id x.1.runs in
      let finish =
        finish_loop deps drive id_before run_id replica lease
          (record { outcome = parked; history = history; iterations = iterations }) s in
      let release = release_drive deps drive id_before run_id replica lease in
      let kept : finish ≡ (hibernated, s1) =
        ap (λ c. if c then (threw_lease_lost, s) else (hibernated, s1)) (keeps s.world) in
      let released : release (hibernated, drive.close s1)
          ≡ (hibernated, (statement deps (release_run run_id replica) (drive.close s1)).1) =
        ap
          (λ c.
            if c
            then (hibernated, drive.close s1)
            else (hibernated, (statement deps (release_run run_id replica) (drive.close s1)).1))
          (keeps (drive.close s1).world) in
      subst (λ x. Left (release (x.0, drive.close x.1))) (sym kept)
        (subst Left (sym released) (refl, h3))

  -- A running run that its worker owns is parked by a wait that hibernates, and the task loop ends as
  -- parked. Others, and the close of the session, leave the run's status, owner, parked task and time of
  -- the next poll; the clock does not run back, and the lease is never lost. Then the drive ends
  -- hibernated, and from the time at which the wait returned the run is listed with its task for any
  -- worker to claim.
  pub wait_for_parked-listed :
      (task : String) (context : ApprovalWaitContext) (call : ModelToolCall)
      (history : List ConversationEntry) (iterations now : ℕ) (s : HarnessState W) (r : RunRow)
      → LeavesRun run_id drive.close
      → ((w : W) → drive.lost_lease w ≡ false)
      → ((s : HarnessState W) → deps.clock s.world ≤ deps.clock (deps.meanwhile s).world)
      → context.hibernate ≡ true
      → get_run_row run_id s.runs ≡ some r
      → r.status ≡ running
      → is_owned_by replica r ≡ true
      → deps.clock
          (wait_for_parked deps run_id replica lease drive.poll_mcp_task task context call
            s).1.world
        ≤ now
      → let waited =
          (wait_for_parked deps run_id replica lease drive.poll_mcp_task task context call s).1 in
        let result : TaskLoopResult = record {
          outcome = parked;
          history = history;
          iterations = iterations;
        } in
        let left =
          release_drive deps drive id_before run_id replica lease
            (settle_session deps drive id_before run_id replica lease (looped result) waited) in
        (left.0 ≡ hibernated)
        × ((x : RunRow) × Elem x (list_claimable_parked_mcp_tasks now left.1.runs)
            × (x.id ≡ run_id)
            × (x.mcp_task_id ≡ some task))
  wait_for_parked-listed task context call history iterations now s r closes keeps ticks hibernates
        found runs owned later =
      let (at, le, parked_row) =
        wait-HasRow task context call s ticks hibernates (r, found, (runs, owned)) in
      let waited =
        (wait_for_parked deps run_id replica lease drive.poll_mcp_task task context call s).1 in
      let (end, left) = leave-HasRow task at history iterations waited closes keeps parked_row in
      (end, list-Elem run_id task at now _ (omega (arith, le, later)) left)
