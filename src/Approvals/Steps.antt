-- ===== src/Approvals/Steps.antt =====
-- Any number of operations on the approval store, in any order: a record only moves forward, and an
-- approval is used once. Concurrent claims are sequences of reads and `markUsed` statements.
use keidai.Common.{
  ℕ, String, str_eq, ◌≡◌, refl, ap, inl, inr, Bool, true, false, ◌&&◌, Option, none, some, List, [],
  ◌∷◌, arith, Option-cases, Bool-cases, find, find-update, find-append, update_where, any,
}
use keidai.Policy.{AgentPrincipal}
use keidai.Approvals.{
  ApprovalStore, ApprovalRecord, Decision, approve_it, reject_it, cancel_it, PendingInput, decided,
  is_decidable, get_approval, decide_pending, mark_used, is_unused, is_pending,
  create_pending_approval, conflicts, new_approval, approve, reject, cancel, find_recent_rejection,
  get_approval_by_task_id,
}
use keidai.Approvals.Gate.{claim_approved_execution, may_claim}

pub data Op : Type 0 where
  create : String → PendingInput → ℕ → Op
  accept : String → ℕ → Op
  refuse : String → Option String → ℕ → Op
  withdraw : String → ℕ → Op
  mark : String → ℕ → Op
  claim : String → AgentPrincipal → ℕ → Op
  look_up : String → String → String → ℕ → Op

unfoldable pub run_op : Op → ApprovalStore → ApprovalStore
run_op (create id input now) s = (create_pending_approval id input now s).1
run_op (accept id now) s = (approve id now s).1
run_op (refuse id reason now) s = (reject id reason now s).1
run_op (withdraw id now) s = (cancel id now s).1
run_op (mark id now) s = (mark_used id now s).1
run_op (claim task_id principal now) s = (claim_approved_execution task_id principal now s).1
run_op (look_up agent_id tool params_hash now) s =
    (find_recent_rejection agent_id tool params_hash now s).1

unfoldable pub run : List Op → ApprovalStore → ApprovalStore
unfolding run_op
run [] s = s
run (op ∷ ops) s = run ops (run_op op s)

-- What may become of a record: what was asked never changes, a decision is kept, and so is the time
-- of the use.
pub record Later (r r' : ApprovalRecord) : Type 0 where
  pub same_id : r'.id ≡ r.id
  pub same_agent : r'.agent_id ≡ r.agent_id
  pub same_tool : r'.tool_name ≡ r.tool_name
  pub same_params : r'.params ≡ r.params
  pub same_task : r'.task_id ≡ r.task_id
  pub same_expiry : r'.expires_at ≡ r.expires_at
  pub kept_status : is_pending r.status ≡ false → r'.status ≡ r.status
  pub kept_reason : is_pending r.status ≡ false → r'.rejection_reason ≡ r.rejection_reason
  pub kept_time : is_pending r.status ≡ false → r'.decided_at ≡ r.decided_at
  pub kept_use : is_unused r ≡ false → r'.used_at ≡ r.used_at

Later-refl : (r : ApprovalRecord) → Later r r
Later-refl r = ground arith

Later-trans : (r r' r'' : ApprovalRecord) → Later r r' → Later r' r'' → Later r r''
Later-trans r r' r'' h k = ground arith

pub reject-approvals :
    (id : String) (reason : Option String) (now : ℕ) (s : ApprovalStore)
    → (reject id reason now s).1.approvals ≡ (decide_pending id reject_it reason now s).1.approvals
unfolding reject
reject-approvals id reason now s =
    elim (Option-cases (decide_pending id reject_it reason now s).0) [
      | inl e ↦ ground (arith, e)
      | inr (r, e) ↦ ground (arith, e)
    ]

-- What a test on the record's names finds stays found, in a later form.
module _ (p : ApprovalRecord → Bool)
    (stable : (r r' : ApprovalRecord) → r'.id ≡ r.id → r'.task_id ≡ r.task_id → p r' ≡ p r) where
  abbrev Follows : ApprovalStore → ApprovalStore → Type 0
  Follows s s' =
      (r : ApprovalRecord)
      → find p s.approvals ≡ some r
      → (r' : ApprovalRecord) × (find p s'.approvals ≡ some r') × Later r r'

  update-Follows :
      (q : ApprovalRecord → Bool) (f : ApprovalRecord → ApprovalRecord) (s s' : ApprovalStore)
      → s'.approvals ≡ update_where q f s.approvals
      → ((r : ApprovalRecord) → ((f r).id ≡ r.id) × ((f r).task_id ≡ r.task_id))
      → ((r : ApprovalRecord) → q r ≡ true → Later r (f r))
      → Follows s s'
  update-Follows q f s s' e keep later r found =
      let seen = find-update p q f s.approvals (λ x. stable x (f x) (keep x).0 (keep x).1) in
      elim (Bool-cases (q r)) [
        | inl t ↦ (f r, ground (arith, e, seen, found, t), later r t)
        | inr n ↦ (r, ground (arith, e, seen, found, n), Later-refl r)
      ]

  same-Follows : (s s' : ApprovalStore) → s'.approvals ≡ s.approvals → Follows s s'
  same-Follows s s' e r found = (r, ground (arith, e, found), Later-refl r)

  Follows-along :
      (s s' s'' : ApprovalStore) → s''.approvals ≡ s'.approvals → Follows s s' → Follows s s''
  Follows-along s s' s'' e h r found =
      let (r', there, l) = h r found in (r', ground (arith, e, there), l)

  decide_pending-Follows :
      (id : String) (d : Decision) (reason : Option String) (now : ℕ) (s : ApprovalStore)
      → Follows s (decide_pending id d reason now s).1
  unfolding decide_pending
  decide_pending-Follows id d reason now s =
      update-Follows (λ r. str_eq r.id id && is_decidable now r) (decided d reason now) s
        (decide_pending id d reason now s).1 refl (λ r. (refl, refl)) (λ r t. ground arith)

  mark_used-Follows : (id : String) (now : ℕ) (s : ApprovalStore) → Follows s (mark_used id now s).1
  unfolding mark_used
  mark_used-Follows id now s =
      update-Follows (λ r. str_eq r.id id && is_unused r) (λ r. record r { used_at = some now }) s
        (mark_used id now s).1 refl (λ r. (refl, refl)) (λ r t. ground arith)

  create-Follows :
      (id : String) (input : PendingInput) (now : ℕ) (s : ApprovalStore)
      → Follows s (create_pending_approval id input now s).1
  unfolding create_pending_approval
  create-Follows id input now s r found =
      elim (Bool-cases (any (conflicts (new_approval id input now)) s.approvals)) [
        | inl e ↦ (r, ground (arith, e, found), Later-refl r)
        | inr e ↦ (
          r,
          ground (arith, e, found, find-append p s.approvals (new_approval id input now)),
          Later-refl r,
        )
      ]

  claim-Follows :
      (task_id : String) (principal : AgentPrincipal) (now : ℕ) (s : ApprovalStore)
      → Follows s (claim_approved_execution task_id principal now s).1
  unfolding claim_approved_execution
  claim-Follows task_id principal now s =
      let s' = (claim_approved_execution task_id principal now s).1 in
      elim (Option-cases (get_approval_by_task_id task_id s)) [
        | inl e ↦ same-Follows s s' (ground (arith, e))
        | inr (r, e) ↦ elim (Bool-cases (may_claim principal now r)) [
          | inl t ↦
              Follows-along s (mark_used r.id now s).1 s' (ground (arith, e, t))
                (mark_used-Follows r.id now s)
          | inr n ↦ same-Follows s s' (ground (arith, e, n))
        ]
      ]

  run_op-Follows : (op : Op) (s : ApprovalStore) → Follows s (run_op op s)
  unfolding run_op approve cancel find_recent_rejection
  run_op-Follows (create id input now) s = create-Follows id input now s
  run_op-Follows (accept id now) s = decide_pending-Follows id approve_it none now s
  run_op-Follows (refuse id reason now) s =
      Follows-along s (decide_pending id reject_it reason now s).1 (reject id reason now s).1
        (reject-approvals id reason now s) (decide_pending-Follows id reject_it reason now s)
  run_op-Follows (withdraw id now) s = decide_pending-Follows id cancel_it none now s
  run_op-Follows (mark id now) s = mark_used-Follows id now s
  run_op-Follows (claim task_id principal now) s = claim-Follows task_id principal now s
  run_op-Follows (look_up agent_id tool params_hash now) s =
      same-Follows s (find_recent_rejection agent_id tool params_hash now s).1 refl

  pub run-Follows : (ops : List Op) (s : ApprovalStore) → Follows s (run ops s)
  unfolding run
  run-Follows [] s r found = (r, found, Later-refl r)
  run-Follows (op ∷ ops) s r found =
      let (r', there, l) = run_op-Follows op s r found in
      let (r'', at_end, l') = run-Follows ops (run_op op s) r' there in
      (r'', at_end, Later-trans r r' r'' l l')

-- A record of the store is there after any further operations; what was asked (agent, tool,
-- arguments, task, expiry) is the same, a decision once made is the same with its reason and time,
-- and so is the time of its use once it was used.
pub run-Later :
    (ops : List Op) (s : ApprovalStore) (id : String) (r : ApprovalRecord)
    → get_approval id s ≡ some r
    → (r' : ApprovalRecord) × (get_approval id (run ops s) ≡ some r') × Later r r'
unfolding get_approval
run-Later ops s id r found =
    run-Follows (λ x. str_eq x.id id) (λ x x' e _. ap (λ k. str_eq k id) e) ops s r found
