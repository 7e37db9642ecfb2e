-- ===== src/Dispatch/Used.antt =====
-- Approvals that were claimed, along what the dispatcher and others do afterwards
-- (claimApprovedExecution of apps/torii/src/policy/approval-gate.service.ts).
use keidai.Common.{ℕ, String, ◌≡◌, sym, ap, ◌∙◌, subst, none, some, List, ◌++◌}
use keidai.Policy.{AgentPrincipal}
use keidai.Approvals.{ApprovalRecord, ApprovalStore}
use keidai.Approvals.Decide.{IsKeyed}
use keidai.Approvals.Keys.{run-IsKeyed}
use keidai.Approvals.Single.{claim_once}
use keidai.Approvals.Steps as ApprovalSteps
use keidai.Approvals.Gate as Gate
use keidai.Dispatch.{DispatchState}
use keidai.Dispatch.Moves.{approvals-append, Moves}

-- The approval of the task has been claimed, and then any operations have run.
unfoldable pub IsUsed : String → ApprovalStore → Type 0
IsUsed id store =
    (s : ApprovalStore) × (r : ApprovalRecord) × (p : AgentPrincipal) × (now : ℕ) × (ops : List
      ApprovalSteps.Op)
    × IsKeyed s
    × ((Gate.claim_approved_execution id p now s).0 ≡ some r)
    × (store ≡ ApprovalSteps.run ops (Gate.claim_approved_execution id p now s).1)

pub IsUsed-refused :
    (id : String) (p : AgentPrincipal) (now : ℕ) (store : ApprovalStore)
    → IsUsed id store
    → (Gate.claim_approved_execution id p now store).0 ≡ none
unfolding IsUsed
IsUsed-refused id p now store (s, r, q, at, ops, keyed, claimed, e) =
    subst (λ x. (Gate.claim_approved_execution id p now x).0 ≡ none) (sym e)
      (claim_once id q p at now ops s r keyed claimed)

IsUsed-run :
    (id : String) (store : ApprovalStore) (ops : List ApprovalSteps.Op)
    → IsUsed id store
    → IsUsed id (ApprovalSteps.run ops store)
unfolding IsUsed
IsUsed-run id store ops (s, r, q, at, xs, keyed, claimed, e) = (
  s,
  r,
  q,
  at,
  xs ++ ops,
  keyed,
  claimed,
  ap (ApprovalSteps.run ops) e
      ∙ sym (approvals-append xs ops (Gate.claim_approved_execution id q at s).1),
)

module _ {W : Type 0} where
  pub Moves-IsUsed :
      (id : String) (k m : ℕ) (s s' : DispatchState W)
      → Moves k m s s'
      → IsUsed id s.gate.store
      → IsUsed id s'.gate.store
  Moves-IsUsed id k m s s' h used =
      let (ops, e) = h.approvals_by in
      subst (IsUsed id) (sym e) (IsUsed-run id s.gate.store ops used)

  pub Moves-IsKeyed :
      (k m : ℕ) (s s' : DispatchState W)
      → Moves k m s s'
      → IsKeyed s.gate.store
      → IsKeyed s'.gate.store
  Moves-IsKeyed k m s s' h keyed =
      let (ops, e) = h.approvals_by in subst IsKeyed (sym e) (run-IsKeyed ops s.gate.store keyed)
