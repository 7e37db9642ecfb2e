-- ===== src/Harness/Leased.antt =====
-- Leases of runs along the sweep and the drive of another worker (apps/shaiden/src/run).
use keidai.Common.{
  ℕ, ◌≤◌, String, ◌≡◌, ◌≢◌, refl, sym, ap, subst, Bool, false, Option, none, some, [], ◌∷◌,
  option_eq,
}
use keidai.Run.Assessment.{TerminationOutcome}
use keidai.Runs.{RunStep, RunTables, append_step, complete_run}
use keidai.Runs.Ops.{claim_run}
use keidai.Runs.Steps.{RunOp, op_append, op_complete, apply_op, apply_ops}
use keidai.Runs.Changes.{Respects}
use keidai.Runs.Single.{IsSound, apply_op-IsSound}
use keidai.Runs.Held.{IsHeld, apply_ops-IsHeld}
use keidai.Runs.Lease.{claim_run-held}
use keidai.Harness.{
  HarnessState, HarnessDeps, StepBody, outcome_step, statement, record_step,
  complete_run_with_outcome_step,
}
use keidai.Harness.Sweep.{reading}

-- Any operation on the repository, for which its parameters do not matter.
abbrev any_op : RunOp → ℕ → RunTables → RunTables
any_op = apply_op (λ text. text) (λ a b. false) (λ a b. false) 0

module _ {W : Type 0} (id holder : String) (expires : ℕ) where
  -- The tables are sound, and the holder has the run until the time or longer.
  pub record IsLeased (s : HarnessState W) : Type 0 where
    pub sound : IsSound s.runs.runs
    pub held : IsHeld id holder expires s.runs.runs

  abbrev pub KeepsLease : (HarnessState W → HarnessState W) → Type 0
  KeepsLease f = (s : HarnessState W) → IsLeased s → IsLeased (f s)

  tables-IsLeased :
      (s : HarnessState W) (op : RunOp) (now : ℕ)
      → Respects id holder expires op now
      → IsLeased s
      → IsLeased (record s { runs = any_op op now s.runs })
  unfolding apply_ops
  tables-IsLeased s op now respects h = record {
    sound = apply_op-IsSound (λ text. text) (λ a b. false) (λ a b. false) 0 op now s.runs h.sound;
    held =
        apply_ops-IsHeld (λ text. text) (λ a b. false) (λ a b. false) 0 id holder expires
          ((op, now) ∷ []) s.runs (respects, tt) h.held;
  }

  module _ (deps : HarnessDeps W) (others : KeepsLease deps.meanwhile) where
    -- A statement that is an operation which respects the lease.
    pub statement-IsLeased :
        {A : Type 0} (f : RunTables → A × RunTables) (op : RunOp) (now : ℕ) (s : HarnessState W)
        → ((t : RunTables) → (f t).1 ≡ any_op op now t)
        → Respects id holder expires op now
        → IsLeased s
        → IsLeased (statement deps f s).1
    unfolding statement
    statement-IsLeased f op now s same respects h =
        subst (λ t. IsLeased (record (deps.meanwhile s) { runs = t }))
          (sym (same (deps.meanwhile s).runs))
          (tables-IsLeased (deps.meanwhile s) op now respects (others s h))

    pub reading-IsLeased :
        {A : Type 0} (f : RunTables → A) (s : HarnessState W)
        → IsLeased s
        → IsLeased (statement deps (reading f) s).1
    unfolding statement
    reading-IsLeased f s h = others s h

    pub record_step-IsLeased :
        (run_id : String) (step_id : Option String) (body : StepBody) (s : HarnessState W)
        → IsLeased s
        → IsLeased (record_step deps run_id step_id body s).1
    unfolding record_step apply_op
    record_step-IsLeased run_id step_id body s h =
        let at = deps.clock s.world in
        let step : RunStep = record {
          id = elim step_id [ none ↦ deps.new_step_id s.world | some i ↦ i ];
          run_id = run_id;
          timestamp = at;
          kind = deps.step_kind body;
          payload = deps.step_payload body;
        } in
        statement-IsLeased (append_step step at) (op_append step) at s (λ t. refl) tt h

    pub complete-IsLeased :
        (run_id : String) (outcome : TerminationOutcome) (s : HarnessState W)
        → ((delete : String → HarnessState W → HarnessState W)
            → deps.delete_workspace ≡ some delete
            → KeepsLease (delete run_id))
        → run_id ≢ id
        → IsLeased s
        → IsLeased (complete_run_with_outcome_step deps run_id outcome s)
    unfolding complete_run_with_outcome_step apply_op
    complete-IsLeased run_id outcome s deletes ne h =
        let s1 = (record_step deps run_id none (outcome_step outcome) s).1 in
        let now = deps.clock s1.world in
        let h2 =
          statement-IsLeased (complete_run run_id outcome now) (op_complete run_id outcome) now s1
            (λ t. refl) ne (record_step-IsLeased run_id none (outcome_step outcome) s h) in
        option_eq IsLeased deps.delete_workspace _ _ h2 (λ delete e. deletes delete e _ h2)

    -- A claim of the leased run is refused, and leaves the tables as they are.
    pub claim-refused :
        (replica : String) (until now : ℕ) (s : HarnessState W)
        → now ≤ expires
        → IsLeased s
        → statement deps (claim_run id replica until now) s ≡ (false, deps.meanwhile s)
    unfolding statement
    claim-refused replica until now s le h =
        let h' = others s h in
        ap (λ (x : Bool × RunTables). (x.0, record (deps.meanwhile s) { runs = x.1 }))
          (claim_run-held id replica until now (deps.meanwhile s).runs h'.sound holder expires
            h'.held le)
