-- ===== src/Harness/Released.antt =====
-- How a drive ends (driveHarnessRun of apps/shaiden/src/run/harness.ts).
use keidai.Common.{
  ℕ, ◌≤◌, String, ◌≡◌, ◌⊎◌, refl, sym, ap, ◌∙◌, subst, Bool, true, false, ◌&&◌, Option, none, some,
  List, [], ◌∷◌, arith, inl, inr, Bool-cases, if_eq, if_both, option_both, suc, All, update_where,
}
use keidai.Run.{ConversationEntry}
use keidai.Run.{ModelToolCall}
use keidai.Run.Loop.{TaskLoopResult, returns, throws, ApprovalWaitContext, State}
use keidai.Run.Loop.Returns.{IsReturned, IsHibernating, run_task_loop-IsReturned}
use keidai.Run.Loop.Rounds.{TaskLimits, run_task_loop}
use keidai.Runs.{RunRow, has_id, update_run}
use keidai.Runs.Ops.{claim_run, release_run, released_row, is_owned_by}
use keidai.Harness.{HarnessState, HarnessDeps, lease_expires_at, statement}
use keidai.Harness.Sweep.{reading}
use keidai.Harness.Drive.{
  DriveDeps, DriveEnd, SessionResult, threw_not_claimed, parked_task_id, stored_budget, looped,
  loop_deps, run_session, settle_session, release_drive, drive_harness_run,
}
use keidai.Harness.Waiter.{hibernated_result, wait_for_parked}

-- No row of the run is the worker's.
abbrev pub IsReleased : String → String → List RunRow → Type 0
IsReleased run_id replica rows = All (λ r. (has_id run_id r && is_owned_by replica r) ≡ false) rows

release-IsReleased :
    (run_id replica : String) (rows : List RunRow)
    → IsReleased run_id replica
        (update_where (λ r. has_id run_id r && is_owned_by replica r) released_row rows)
release-IsReleased run_id replica [] = tt
release-IsReleased run_id replica (r ∷ rows) =
    elim (Bool-cases (has_id run_id r && is_owned_by replica r)) [
      | inl e ↦ ground (arith, e, release-IsReleased run_id replica rows)
      | inr e ↦ ground (arith, e, release-IsReleased run_id replica rows)
    ]

module _ {W : Type 0} (deps : HarnessDeps W) (drive : DriveDeps W)
    (id_before : String → String → Bool) (run_id replica : String) (lease : ℕ) where
  -- The ends of a drive: the claim was refused, the lease is lost, or the run is released.
  abbrev pub HasReleased : DriveEnd → HarnessState W → Type 0
  HasReleased end s =
      (end ≡ threw_not_claimed)
      ⊎ (drive.lost_lease s.world ≡ true)
      ⊎ IsReleased run_id replica s.runs.runs

  -- The result of a drive that comes to such an end.
  abbrev Released : Option (DriveEnd × HarnessState W) → Type 0
  Released o = (end : DriveEnd) × (s' : HarnessState W) × (o ≡ some (end, s')) × HasReleased end s'

  release_drive-HasReleased :
      (x : DriveEnd × HarnessState W)
      → let y = release_drive deps drive id_before run_id replica lease x in HasReleased y.0 y.1
  unfolding release_drive statement release_run update_run
  release_drive-HasReleased (end, s) =
      if_eq (λ (x : DriveEnd × HarnessState W). HasReleased x.0 x.1) (drive.lost_lease s.world) _ _
        (λ e. inr (inl e))
        (λ _. inr (inr (release-IsReleased run_id replica (deps.meanwhile s).runs.runs)))

  from_session :
      (o : Option (SessionResult × HarnessState W))
      → IsReturned o
      → Released (elim o [
        | none ↦ none
        | some x ↦ some (
            release_drive deps drive id_before run_id replica lease
              (settle_session deps drive id_before run_id replica lease x.0 x.1))
      ])
  from_session none h = absurd h
  from_session (some (result, s)) h =
      let x = settle_session deps drive id_before run_id replica lease result s in
      let y = release_drive deps drive id_before run_id replica lease x in
      (y.0, y.1, refl, release_drive-HasReleased x)

  waits :
      (context : ApprovalWaitContext) (mcp_task_id : String) (call : ModelToolCall)
      (s : HarnessState W)
      → context.hibernate ≡ true
      → (wait_for_parked deps run_id replica lease drive.poll_mcp_task mcp_task_id context call s).0
        ≡ returns hibernated_result
  unfolding wait_for_parked
  waits context mcp_task_id call s h = ground (arith, h)

  loop_deps-IsHibernating : IsHibernating (loop_deps deps drive id_before run_id replica lease)
  unfolding loop_deps
  loop_deps-IsHibernating wait id context call s result is_wait h e =
      let given = wait_for_parked deps run_id replica lease drive.poll_mcp_task in
      let same = ap (λ o. elim o [ none ↦ given | some x ↦ x ]) is_wait in
      let back : (given id context call s).0 ≡ returns result =
        subst (λ w. (w id context call s).0 ≡ returns result) (sym same) e in
      let equal : returns hibernated_result ≡ returns result =
        sym (waits context id call s h) ∙ back in
      ap (λ a. elim a [ returns x ↦ x.hibernated | throws _ ↦ true ]) (sym equal)

  run_session-IsReturned :
      (limit parks rounds : ℕ) (limits : TaskLimits) (history : List ConversationEntry)
      (parked_id : Option String) (s : HarnessState W)
      → limits.max_iterations ≡ some limit
      → limit ≤ rounds
      → IsReturned (
          run_session deps drive id_before run_id replica lease
            (suc parks)
            rounds
            limits
            history
            parked_id
            s)
  unfolding run_session
  run_session-IsReturned limit parks rounds limits history parked_id s e le =
      let connection = drive.connect s in
      let budget = statement deps (reading (stored_budget run_id)) connection.1 in
      option_both IsReturned connection.0 _ _
        (from_loop
          (run_task_loop (HarnessState W) (loop_deps deps drive id_before run_id replica lease)
            (suc parks) rounds
            (record {
              initial_history = history;
              limits = limits;
              budget = budget.0;
              resume_parked_approval = parked_id;
            })
            budget.1)
          (run_task_loop-IsReturned (HarnessState W)
            (loop_deps deps drive id_before run_id replica lease) loop_deps-IsHibernating parks
            limit rounds
            (record {
              initial_history = history;
              limits = limits;
              budget = budget.0;
              resume_parked_approval = parked_id;
            })
            budget.1 e le))
        (λ error. tt)
    where
      from_loop :
          (o : Option (TaskLoopResult × State (HarnessState W)))
          → IsReturned o
          → IsReturned {A = SessionResult × HarnessState W}
              (elim o [ none ↦ none | some x ↦ some (looped x.0, x.1.world) ])
      from_loop none h = h
      from_loop (some x) h = h

  -- A drive of a run with a limit of iterations comes to an end, when it has as many rounds as the limit
  -- and one wait for each parked call. However the session ended: if the claim was not refused and the
  -- lease is not lost, then no row of the run is owned by the worker.
  pub drive_harness_run-released :
      (limit parks rounds : ℕ) (limits : TaskLimits) (history : List ConversationEntry)
      (s : HarnessState W)
      → limits.max_iterations ≡ some limit
      → limit ≤ rounds
      → (end : DriveEnd) × (s' : HarnessState W) × (drive_harness_run deps drive id_before run_id
            replica lease
            (suc parks)
            rounds
            limits
            history
            s
          ≡ some (end, s'))
        × HasReleased end s'
  unfolding drive_harness_run
  drive_harness_run-released limit parks rounds limits history s e le =
      let read = statement deps (reading (parked_task_id run_id)) s in
      let now = deps.clock read.1.world in
      let claim =
        statement deps (claim_run run_id replica (lease_expires_at now lease) now) read.1 in
      if_both Released claim.0 _ _
        (from_session
          (run_session deps drive id_before run_id replica lease (suc parks) rounds limits history
            read.0 claim.1)
          (run_session-IsReturned limit parks rounds limits history read.0 claim.1 e le))
        (threw_not_claimed, claim.1, refl, inl refl)
