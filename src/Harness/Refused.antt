-- ===== src/Harness/Refused.antt =====
-- Runs that another worker holds, at the two ends of a drive (apps/shaiden/src/run/harness.ts).
use keidai.Common.{ℕ, ◌≤◌, String, ◌≡◌, ap, Bool, none, some, List, if◌then◌else◌}
use keidai.Run.{ConversationEntry}
use keidai.Run.Loop.Rounds.{TaskLimits}
use keidai.Harness.{HarnessState, HarnessDeps, lease_expires_at, statement}
use keidai.Harness.Sweep.{reading}
use keidai.Harness.Drive.{
  DriveDeps, threw_not_claimed, parked_task_id, run_session, settle_session, release_drive,
  drive_harness_run,
}
use keidai.Harness.Leased.{IsLeased, KeepsLease, claim-refused}

-- A drive of a run that another worker holds, by the clock at the claim no later than the lease lasts,
-- over sound tables that others keep so with the run held: it is refused, and changes nothing.
drive_harness_run-refused :
    {W : Type 0} (deps : HarnessDeps W) (drive : DriveDeps W) (id_before : String → String → Bool)
    (run_id replica holder : String) (lease expires parks rounds : ℕ) (limits : TaskLimits)
    (history : List ConversationEntry) (s : HarnessState W)
    → KeepsLease run_id holder expires deps.meanwhile
    → deps.clock (deps.meanwhile s).world ≤ expires
    → IsLeased run_id holder expires s
    → drive_harness_run deps drive id_before run_id replica lease parks rounds limits history s
      ≡ some (threw_not_claimed, deps.meanwhile (deps.meanwhile s))
unfolding drive_harness_run statement
drive_harness_run-refused deps drive id_before run_id replica holder lease expires parks rounds
      limits history s others early h =
    let read = (statement deps (reading (parked_task_id run_id)) s).1 in
    let now = deps.clock read.world in
    let refused =
      claim-refused run_id holder expires deps others replica (lease_expires_at now lease) now read
        early (others s h) in
    ap
      (λ (x : Bool × HarnessState _).
        if x.0
        then elim (run_session deps drive id_before run_id replica lease parks rounds limits history
            (statement deps (reading (parked_task_id run_id)) s).0 x.1) [
              | none ↦ none
              | some (result, s3) ↦ some (
                  release_drive deps drive id_before run_id replica lease
                    (settle_session deps drive id_before run_id replica lease result s3))
            ]
        else some (threw_not_claimed, x.1))
      refused
