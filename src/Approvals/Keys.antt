-- ===== src/Approvals/Keys.antt =====
-- The ids of the approvals stay distinct, whatever operations run.
use mathlib.Core.List.{map-append}
use keidai.Common.{
  IsDistinct-append, ℕ, String, str_eq, eq_iff, ◌≡◌, refl, sym, subst, ◌∙◌, ap, inl, inr, Bool,
  false, ◌&&◌, Option, none, some, List, [], ◌∷◌, ◌++◌, map, arith, IsDistinct, Elem, Option-cases,
  Bool-cases, any, map-key_update, update_where,
}
use keidai.Policy.{AgentPrincipal}
use keidai.Approvals.{
  ApprovalStore, ApprovalRecord, PendingInput, Decision, reject_it, approve_it, cancel_it,
  get_approval_by_task_id, decide_pending, mark_used, is_unused, is_decidable, decided,
  create_pending_approval, conflicts, new_approval, approve, reject, cancel, find_recent_rejection,
}
use keidai.Approvals.Gate.{claim_approved_execution, may_claim}
use keidai.Approvals.Decide.{IsKeyed}
use keidai.Approvals.Steps.{
  Op, create, accept, refuse, withdraw, mark, claim, look_up, run_op, run, reject-approvals,
}

update-IsKeyed :
    (q : ApprovalRecord → Bool) (f : ApprovalRecord → ApprovalRecord) (s s' : ApprovalStore)
    → s'.approvals ≡ update_where q f s.approvals
    → ((r : ApprovalRecord) → (f r).id ≡ r.id)
    → IsKeyed s
    → IsKeyed s'
update-IsKeyed q f s s' e keep h =
    subst IsDistinct
      (sym (ap (map (λ r. r.id)) e ∙ map-key_update (λ r. r.id) q f s.approvals keep)) h

same-IsKeyed : (s s' : ApprovalStore) → s'.approvals ≡ s.approvals → IsKeyed s → IsKeyed s'
same-IsKeyed s s' e h = subst (λ l. IsDistinct (map (λ r. r.id) l)) (sym e) h

decide_pending-IsKeyed :
    (id : String) (d : Decision) (reason : Option String) (now : ℕ) (s : ApprovalStore)
    → IsKeyed s
    → IsKeyed (decide_pending id d reason now s).1
unfolding decide_pending
decide_pending-IsKeyed id d reason now s h =
    update-IsKeyed (λ r. str_eq r.id id && is_decidable now r) (decided d reason now) s
      (decide_pending id d reason now s).1 refl (λ r. refl) h

pub mark_used-IsKeyed :
    (id : String) (now : ℕ) (s : ApprovalStore) → IsKeyed s → IsKeyed (mark_used id now s).1
unfolding mark_used
mark_used-IsKeyed id now s h =
    update-IsKeyed (λ r. str_eq r.id id && is_unused r) (λ r. record r { used_at = some now }) s
      (mark_used id now s).1 refl (λ r. refl) h

-- A row that conflicts with none has an id of its own.
not-Elem-conflicts :
    (new : ApprovalRecord) (xs : List ApprovalRecord)
    → any (conflicts new) xs ≡ false
    → ¬ Elem new.id (map (λ r. r.id) xs)
unfolding conflicts
not-Elem-conflicts new [] h m = m
not-Elem-conflicts new (r ∷ rs) h m =
    ground (arith, h, m, eq_iff r.id new.id, not-Elem-conflicts new rs)

append-IsKeyed :
    (new : ApprovalRecord) (s s' : ApprovalStore)
    → s'.approvals ≡ s.approvals ++ new ∷ []
    → ¬ Elem new.id (map (λ r. r.id) s.approvals)
    → IsKeyed s
    → IsKeyed s'
append-IsKeyed new s s' e n h =
    let names = map-append (λ (r : ApprovalRecord). r.id) s.approvals (new ∷ []) in
    subst IsDistinct (sym (ap (map (λ r. r.id)) e ∙ names))
      (IsDistinct-append (map (λ r. r.id) s.approvals) new.id n h)

create-IsKeyed :
    (id : String) (input : PendingInput) (now : ℕ) (s : ApprovalStore)
    → IsKeyed s
    → IsKeyed (create_pending_approval id input now s).1
unfolding create_pending_approval
create-IsKeyed id input now s h =
    let new = new_approval id input now in
    elim (Bool-cases (any (conflicts new) s.approvals)) [
      | inl e ↦ same-IsKeyed s (create_pending_approval id input now s).1 (ground (arith, e)) h
      | inr e ↦
          append-IsKeyed new s (create_pending_approval id input now s).1 (ground (arith, e))
            (not-Elem-conflicts new s.approvals e) h
    ]

claim-IsKeyed :
    (task_id : String) (principal : AgentPrincipal) (now : ℕ) (s : ApprovalStore)
    → IsKeyed s
    → IsKeyed (claim_approved_execution task_id principal now s).1
unfolding claim_approved_execution
claim-IsKeyed task_id principal now s h =
    let s' = (claim_approved_execution task_id principal now s).1 in
    elim (Option-cases (get_approval_by_task_id task_id s)) [
      | inl e ↦ same-IsKeyed s s' (ground (arith, e)) h
      | inr (r, e) ↦ elim (Bool-cases (may_claim principal now r)) [
        | inl t ↦
            same-IsKeyed (mark_used r.id now s).1 s' (ground (arith, e, t))
              (mark_used-IsKeyed r.id now s h)
        | inr n ↦ same-IsKeyed s s' (ground (arith, e, n)) h
      ]
    ]

run_op-IsKeyed : (op : Op) (s : ApprovalStore) → IsKeyed s → IsKeyed (run_op op s)
unfolding run_op approve cancel find_recent_rejection
run_op-IsKeyed (create id input now) s h = create-IsKeyed id input now s h
run_op-IsKeyed (accept id now) s h = decide_pending-IsKeyed id approve_it none now s h
run_op-IsKeyed (refuse id reason now) s h =
    same-IsKeyed (decide_pending id reject_it reason now s).1 (reject id reason now s).1
      (reject-approvals id reason now s) (decide_pending-IsKeyed id reject_it reason now s h)
run_op-IsKeyed (withdraw id now) s h = decide_pending-IsKeyed id cancel_it none now s h
run_op-IsKeyed (mark id now) s h = mark_used-IsKeyed id now s h
run_op-IsKeyed (claim task_id principal now) s h = claim-IsKeyed task_id principal now s h
run_op-IsKeyed (look_up agent_id tool params_hash now) s h =
    same-IsKeyed s (find_recent_rejection agent_id tool params_hash now s).1 refl h

pub run-IsKeyed : (ops : List Op) (s : ApprovalStore) → IsKeyed s → IsKeyed (run ops s)
unfolding run
run-IsKeyed [] s h = h
run-IsKeyed (op ∷ ops) s h = run-IsKeyed ops (run_op op s) (run_op-IsKeyed op s h)
