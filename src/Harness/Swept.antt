-- ===== src/Harness/Swept.antt =====
-- Leases of runs along the sweep of another worker
-- (apps/shaiden/src/run/resume-parked-runs.ts).
use keidai.Common.{
  ℕ, ◌+◌, ◌≤◌, String, ◌≡◌, refl, sym, ap, subst, Bool, false, not, Option, some, List, [], ◌∷◌,
  inl, inr, str_eq-cases, if◌then◌else◌, if_both, option_both, suc, map,
}
use keidai.Tasks.Inputs.{Payload}
use keidai.Run.{ConversationEntry}
use keidai.Run.Assessment.{failed, platform}
use keidai.Runs.{is_running, get_run_row}
use keidai.Runs.Ops.{
  claim_run, set_next_poll_at, set_parked_mcp_task, list_claimable_parked_mcp_tasks,
}
use keidai.Runs.Steps.{op_park, op_poll, op_claim, apply_op}
use keidai.Harness.{
  HarnessState, HarnessDeps, lease_expires_at, statement, complete_run_with_outcome_step,
}
use keidai.Harness.Sweep.{
  ParkedTaskPoll, terminal, pending, poll_failed, ParkedMcpTask, SweepDeps, Swept, left, resumed,
  sweep_throws, reading, or_else, parked_mcp_task_from_row, stored_history, poll_again, fail_parked,
  resume_parked_run, after_poll, sweep_run, sweep_runs, resume_parked_harness_runs,
}
use keidai.Harness.Leased.{
  IsLeased, KeepsLease, statement-IsLeased, reading-IsLeased, complete-IsLeased, claim-refused,
}

module _ {W : Type 0} (id holder : String) (expires : ℕ) (deps : HarnessDeps W)
    (others : KeepsLease id holder expires deps.meanwhile) (sweep : SweepDeps W) (replica : String)
    (lease now : ℕ) (early : now ≤ expires)
    (polls : (parked : ParkedMcpTask) (task : Payload)
      → KeepsLease id holder expires (λ s. (sweep.poll_parked_task parked task s).1))
    (resumes : (run_id : String) (history : List ConversationEntry) (task : Payload)
      → KeepsLease id holder expires (λ s. (sweep.resume_harness_run run_id history task s).1))
    (deletes : (run_id : String) (delete : String → HarnessState W → HarnessState W)
      → deps.delete_workspace ≡ some delete
      → KeepsLease id holder expires (delete run_id)) where
  abbrev Leased : HarnessState W → Type 0
  Leased = IsLeased id holder expires

  poll_again-IsLeased :
      (parked : ParkedMcpTask) (interval : Option ℕ) (s : HarnessState W)
      → IsLeased id holder expires s
      → IsLeased id holder expires (poll_again deps sweep replica lease now parked interval s)
  unfolding poll_again apply_op
  poll_again-IsLeased parked interval s h =
      let at = now + sweep.next_poll_delay_ms (or_else interval parked.poll_interval_ms) s in
      let s1 = (statement deps (set_next_poll_at parked.run_id at) s).1 in
      let h1 =
        statement-IsLeased id holder expires deps others (set_next_poll_at parked.run_id at)
          (op_poll parked.run_id at) now s (λ t. refl) tt h in
      option_both Leased interval _ _ h1 (λ ms.
        let later = deps.clock s1.world in
        statement-IsLeased id holder expires deps others
          (set_parked_mcp_task parked.run_id parked.mcp_task_id (some ms) later)
          (op_park parked.run_id parked.mcp_task_id (some ms)) later s1 (λ t. refl) tt h1)

  fail_parked-IsLeased :
      (parked : ParkedMcpTask) (reason : String) (s : HarnessState W)
      → IsLeased id holder expires s
      → IsLeased id holder expires (fail_parked deps sweep replica lease now parked reason s)
  unfolding fail_parked apply_op
  fail_parked-IsLeased parked reason s h = elim (str_eq-cases parked.run_id id) [
    | inl (same, _) ↦
        let refused =
          subst
            (λ k.
              statement deps (claim_run k replica (lease_expires_at now lease) now) s
              ≡ (false, deps.meanwhile s))
            (sym same)
            (claim-refused id holder expires deps others replica (lease_expires_at now lease) now s
              early h) in
        subst Leased
          (sym (
            ap
              (λ (x : Bool × HarnessState W).
                if x.0
                then complete_run_with_outcome_step deps parked.run_id (failed reason platform) x.1
                else x.1)
              refused))
          (others s h)
    | inr (ne, _) ↦
        let claim =
          statement deps (claim_run parked.run_id replica (lease_expires_at now lease) now) s in
        let h1 =
          statement-IsLeased id holder expires deps others
            (claim_run parked.run_id replica (lease_expires_at now lease) now)
            (op_claim parked.run_id replica (lease_expires_at now lease)) now s (λ t. refl) (inl ne)
            h in
        if_both Leased claim.0 _ _
          (complete-IsLeased id holder expires deps others parked.run_id (failed reason platform)
            claim.1 (deletes parked.run_id) ne h1)
          h1
  ]

  resume-IsLeased :
      (parked : ParkedMcpTask) (task : Payload) (s : HarnessState W)
      → IsLeased id holder expires s
      → IsLeased id holder expires (resume_parked_run deps sweep replica lease now parked task s).1
  unfolding resume_parked_run
  resume-IsLeased parked task s h =
      let read = statement deps (reading (stored_history parked.run_id)) s in
      let h1 = reading-IsLeased id holder expires deps others (stored_history parked.run_id) s h in
      option_both (λ (x : Swept × HarnessState W). IsLeased id holder expires x.1) read.0 _ _ h1
        (λ history. resumes parked.run_id history task read.1 h1)

  after_poll-IsLeased :
      (parked : ParkedMcpTask) (task : Payload) (poll : ParkedTaskPoll) (s : HarnessState W)
      → IsLeased id holder expires s
      → IsLeased id holder expires (after_poll deps sweep replica lease now parked task (poll, s)).1
  after_poll-IsLeased parked task terminal s h = resume-IsLeased parked task s h
  after_poll-IsLeased parked task (pending interval) s h = poll_again-IsLeased parked interval s h
  after_poll-IsLeased parked task (poll_failed reason) s h = fail_parked-IsLeased parked reason s h

  sweep_run-IsLeased :
      (parked : ParkedMcpTask) (s : HarnessState W)
      → IsLeased id holder expires s
      → IsLeased id holder expires (sweep_run deps sweep replica lease now parked s).1
  unfolding sweep_run
  sweep_run-IsLeased parked s h =
      let P : Swept × HarnessState W → Type 0 = λ x. IsLeased id holder expires x.1 in
      let read = statement deps (reading (get_run_row parked.run_id)) s in
      let h1 = reading-IsLeased id holder expires deps others (get_run_row parked.run_id) s h in
      option_both P read.0 _ _ h1 (λ r. if_both P (not (is_running r)) _ _ h1 (
        after_poll-IsLeased parked r.task_snapshot
          (sweep.poll_parked_task parked r.task_snapshot read.1).0
          (sweep.poll_parked_task parked r.task_snapshot read.1).1
          (polls parked r.task_snapshot read.1 h1)))

  sweep_runs-IsLeased :
      (list : List ParkedMcpTask) (count : ℕ) (s : HarnessState W)
      → IsLeased id holder expires s
      → IsLeased id holder expires (sweep_runs deps sweep replica lease now list count s).1
  unfolding sweep_runs
  sweep_runs-IsLeased [] count s h = h
  sweep_runs-IsLeased (parked ∷ list) count s h =
      let result = sweep_run deps sweep replica lease now parked s in
      let h1 = sweep_run-IsLeased parked s h in
      elim result.0
        as (λ x.
          let after : (Option String × ℕ) × HarnessState W = elim x [
            | left ↦ sweep_runs deps sweep replica lease now list count result.1
            | resumed ↦ sweep_runs deps sweep replica lease now list (suc count) result.1
            | sweep_throws e ↦ ((some e, count), result.1)
          ] in
          IsLeased id holder expires after.1) [
            | left ↦ sweep_runs-IsLeased list count result.1 h1
            | resumed ↦ sweep_runs-IsLeased list (suc count) result.1 h1
            | sweep_throws e ↦ h1
          ]

-- A run that another worker holds with a lease until some time is still held so after a sweep that
-- starts no later, over sound tables: where all that happens besides (what others do meanwhile, the
-- polls, the resumptions and the deletions of workspaces) leaves such tables sound and the run held.
pub resume_parked_harness_runs-IsLeased :
    {W : Type 0} (deps : HarnessDeps W) (sweep : SweepDeps W) (id holder replica : String)
    (expires lease now : ℕ) (s : HarnessState W)
    → KeepsLease id holder expires deps.meanwhile
    → ((parked : ParkedMcpTask) (task : Payload)
        → KeepsLease id holder expires (λ s. (sweep.poll_parked_task parked task s).1))
    → ((run_id : String) (history : List ConversationEntry) (task : Payload)
        → KeepsLease id holder expires (λ s. (sweep.resume_harness_run run_id history task s).1))
    → ((run_id : String) (delete : String → HarnessState W → HarnessState W)
        → deps.delete_workspace ≡ some delete
        → KeepsLease id holder expires (delete run_id))
    → now ≤ expires
    → IsLeased id holder expires s
    → IsLeased id holder expires (resume_parked_harness_runs deps sweep replica lease now s).1
unfolding resume_parked_harness_runs
resume_parked_harness_runs-IsLeased deps sweep id holder replica expires lease now s others polls
      resumes deletes early h =
    let list = statement deps (reading (list_claimable_parked_mcp_tasks now)) s in
    sweep_runs-IsLeased id holder expires deps others sweep replica lease now early polls resumes
      deletes (map parked_mcp_task_from_row list.0) 0 list.1
      (reading-IsLeased id holder expires deps others (list_claimable_parked_mcp_tasks now) s h)
