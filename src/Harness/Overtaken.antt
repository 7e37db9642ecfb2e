-- ===== src/Harness/Overtaken.antt =====
-- A worker whose lease of a run another worker has taken over (apps/shaiden/src/run).
use keidai.Common.{
  ℕ, String, str_eq, ◌≡◌, ◌≢◌, refl, sym, ap, ◌∙◌, subst, Bool, true, false, ◌&&◌, Option, none,
  some, arith, inl, inr, if◌then◌else◌, if_eq, eq_iff, delete_where,
}
use keidai.Run.{ModelToolCall}
use keidai.Run.Assessment.{TerminationOutcome}
use keidai.Run.Loop.{Answer, returns, throws, ToolDispatchResult, TaskLoopResult, ended, parked}
use keidai.Runs.{
  RunRow, RunTables, completed, is_running, always, get_run_row, update_run, completed_run,
  complete_run,
}
use keidai.Runs.Ops.{is_owned_by, renew_run_lease, set_conversation_history}
use keidai.Runs.Steps.{op_renew, op_history, apply_op}
use keidai.Runs.Single.{IsSound}
use keidai.Runs.Held.{IsHeld}
use keidai.Runs.Lease.{hit}
use keidai.Harness.{
  HarnessState, HarnessDeps, outcome_step, lease_expires_at, statement, record_step,
  complete_run_with_outcome_step,
}
use keidai.Harness.Waiter.{lost_run_lease, after_wait_poll}
use keidai.Harness.Drive.{DriveDeps, DriveEnd, hibernated, finished, threw_lease_lost, finish_loop}
use keidai.Harness.Leased.{IsLeased, KeepsLease, statement-IsLeased, record_step-IsLeased}
use keidai.Harness.Tracked.{HasRow, update-HasRow}

-- The row of a run that ended.
abbrev pub IsEnded : TerminationOutcome → RunRow → Type 0
IsEnded outcome r = (r.status ≡ completed) × (r.outcome ≡ some outcome) × (r.owner_id ≡ none)

other_owner :
    (replica holder : String) (o : Option String)
    → replica ≢ holder
    → (elim o [ none ↦ false | some x ↦ str_eq x holder ]) ≡ true
    → (elim o [ none ↦ false | some x ↦ str_eq x replica ]) ≡ false
other_owner replica holder none ne e = refl
other_owner replica holder (some x) ne e = ground (
  arith,
  eq_iff x holder,
  eq_iff x replica,
  e,
  λ (a : x ≡ replica) (b : x ≡ holder). ne (sym a ∙ b),
)

complete-IsEnded :
    (id : String) (outcome : TerminationOutcome) (now : ℕ) (t : RunTables) (r : RunRow)
    → get_run_row id t ≡ some r
    → HasRow (IsEnded outcome) id (complete_run id outcome now t).1
unfolding complete_run get_run_row
complete-IsEnded id outcome now t r found =
    let updated = (update_run id always (completed_run outcome now) t).1 in
    let s' = record updated { follow_ups = delete_where (λ f. str_eq f.run_id id) t.follow_ups } in
    let done : HasRow (IsEnded outcome) id updated =
      update-HasRow {P = λ r. Unit} {Q = IsEnded outcome} id always (completed_run outcome now) t
        (λ r. refl) (λ r u. (refl, refl, refl)) (r, found, tt) in
    subst
      (λ o.
        let x : Option RunRow × RunTables = elim o [
          | none ↦ (none, t)
          | some _ ↦ (get_run_row id s', s')
        ] in
        HasRow (IsEnded outcome) id x.1)
      (sym found) done

module _ {W : Type 0} (deps : HarnessDeps W) (drive : DriveDeps W)
    (id_before : String → String → Bool) (run_id replica holder : String) (lease expires : ℕ)
    (others : KeepsLease run_id holder expires deps.meanwhile) where
  renew-refused :
      (until : ℕ) (t : RunTables)
      → replica ≢ holder
      → IsSound t.runs
      → IsHeld run_id holder expires t.runs
      → (renew_run_lease run_id replica until t).0 ≡ false
  unfolding renew_run_lease update_run
  renew-refused until t ne sound (r, found, (runs, owned, lasts)) =
      hit run_id t.runs sound (λ r. is_owned_by replica r && is_running r) r found
      ∙ ground (arith, other_owner replica holder r.owner_id ne owned)

  pub wait-thrown :
      (call : ModelToolCall) (result : ToolDispatchResult) (s : HarnessState W)
      → replica ≢ holder
      → IsLeased run_id holder expires s
      → let x =
          after_wait_poll deps run_id replica lease drive.poll_mcp_task call
            (some (returns result), s) in
        (x.0 ≡ throws (lost_run_lease run_id)) × IsLeased run_id holder expires x.1
  unfolding after_wait_poll apply_op statement
  wait-thrown call result s ne h =
      let until = lease_expires_at (deps.clock s.world) lease in
      let renew = statement deps (renew_run_lease run_id replica until) s in
      let h1 =
        statement-IsLeased run_id holder expires deps others (renew_run_lease run_id replica until)
          (op_renew run_id replica until) 0 s (λ t. refl) (inr (inl ne)) h in
      let h' = others s h in
      let refused : renew.0 ≡ false =
        renew-refused until (deps.meanwhile s).runs ne h'.sound h'.held in
      if_eq
        (λ (x : Answer ToolDispatchResult × HarnessState W).
          (x.0 ≡ throws (lost_run_lease run_id)) × IsLeased run_id holder expires x.1)
        renew.0 _ _ (λ e. absurd (ground (arith, e, refused))) (λ _. (refl, h1))

  complete-HasRow :
      (outcome : TerminationOutcome) (s : HarnessState W)
      → deps.delete_workspace ≡ none
      → IsLeased run_id holder expires s
      → HasRow (IsEnded outcome) run_id (complete_run_with_outcome_step deps run_id outcome s).runs
  unfolding complete_run_with_outcome_step get_run_row statement
  complete-HasRow outcome s stays h =
      let s1 = (record_step deps run_id none (outcome_step outcome) s).1 in
      let h1 = others s1 (
        record_step-IsLeased run_id holder expires deps others run_id none (outcome_step outcome) s
          h) in
      let now = deps.clock s1.world in
      let s2 = (statement deps (complete_run run_id outcome now) s1).1 in
      subst
        (λ o.
          let x : HarnessState W = elim o [ none ↦ s2 | some delete ↦ delete run_id s2 ] in
          HasRow (IsEnded outcome) run_id x.runs)
        (sym stays)
        (complete-IsEnded run_id outcome now (deps.meanwhile s1).runs h1.held.0 h1.held.1)

  pub finish-completed :
      (result : TaskLoopResult) (outcome : TerminationOutcome) (s : HarnessState W)
      → result.outcome ≡ ended outcome
      → deps.delete_workspace ≡ none
      → drive.lost_lease s.world ≡ false
      → IsLeased run_id holder expires s
      → let x = finish_loop deps drive id_before run_id replica lease result s in
        (x.0 ≡ finished result) × HasRow (IsEnded outcome) run_id x.1.runs
  unfolding finish_loop apply_op
  finish-completed result outcome s is_ended stays unaware h =
      let s1 = (statement deps (set_conversation_history run_id result.history) s).1 in
      let h1 =
        statement-IsLeased run_id holder expires deps others
          (set_conversation_history run_id result.history) (op_history run_id result.history) 0 s
          (λ t. refl) tt h in
      let complete : TerminationOutcome → DriveEnd × HarnessState W =
        λ o. (finished result, complete_run_with_outcome_step deps run_id o s1) in
      let settled : finish_loop deps drive id_before run_id replica lease result s
          ≡ complete outcome =
        ap
          (λ c.
            if c
            then (threw_lease_lost, s)
            else (elim result.outcome [ parked ↦ (hibernated, s1) | ended o ↦ complete o ]))
          unaware
        ∙ ap (λ o. elim o [ parked ↦ (hibernated, s1) | ended o ↦ complete o ]) is_ended in
      subst
        (λ (x : DriveEnd × HarnessState W).
          (x.0 ≡ finished result) × HasRow (IsEnded outcome) run_id x.1.runs)
        (sym settled) (refl, complete-HasRow outcome s1 stays h1)
