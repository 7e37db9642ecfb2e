-- ===== src/Approvals/Single.antt =====
-- An approval is used at most once: `markUsed` and `claimApprovedExecution`.
use mathlib.Core.Option.{some-injective}
use keidai.Common.{
  ℕ, String, eq_iff, ◌≡◌, refl, sym, ◌∙◌, ap, inl, inr, Bool, true, false, none, some, List, ◌∷◌,
  arith, ◌<◌, Option-cases, Bool-cases, count-by_key, find-update_guarded, find_key, find-Elem,
  subst,
}
use keidai.Policy.{AgentPrincipal}
use keidai.Approvals.{
  ApprovalStore, ApprovalRecord, get_approval, get_approval_by_task_id, mark_used, is_unused,
  is_task, approved,
}
use keidai.Approvals.Gate.{claim_approved_execution, may_claim}
use keidai.Approvals.Decide.{IsKeyed}
use keidai.Approvals.Steps.{Op, claim, run_op, run, run-Follows, run-Later}
use keidai.Approvals.Keys.{run-IsKeyed, mark_used-IsKeyed}

abbrev used_now : ℕ → ApprovalRecord → ApprovalRecord
used_now now r = record r { used_at = some now }

mark_used-missing :
    (id : String) (now : ℕ) (s : ApprovalStore)
    → IsKeyed s
    → get_approval id s ≡ none
    → (mark_used id now s).0 ≡ none
unfolding mark_used get_approval
mark_used-missing id now s keyed missing =
    ground (arith, missing, count-by_key (λ x. x.id) id is_unused s.approvals keyed)

mark_used-unused :
    (id : String) (now : ℕ) (s : ApprovalStore) (r : ApprovalRecord)
    → IsKeyed s
    → get_approval id s ≡ some r
    → is_unused r ≡ true
    → ((mark_used id now s).0 ≡ some (used_now now r))
      × (get_approval id (mark_used id now s).1 ≡ some (used_now now r))
unfolding mark_used get_approval
mark_used-unused id now s r keyed found unused =
    let seen =
      find-update_guarded (λ x. x.id) id is_unused (used_now now) s.approvals (λ x. refl) in
    ground (arith, found, unused, seen, count-by_key (λ x. x.id) id is_unused s.approvals keyed)

mark_used_again :
    (id : String) (now : ℕ) (s : ApprovalStore) (r : ApprovalRecord)
    → IsKeyed s
    → get_approval id s ≡ some r
    → is_unused r ≡ false
    → (mark_used id now s).0 ≡ none
unfolding mark_used get_approval
mark_used_again id now s r keyed found used =
    ground (arith, found, used, count-by_key (λ x. x.id) id is_unused s.approvals keyed)

-- A successful `markUsed` returns the stored record with the time of its use, which was not set.
mark_used-some :
    (id : String) (now : ℕ) (s : ApprovalStore) (r : ApprovalRecord)
    → IsKeyed s
    → (mark_used id now s).0 ≡ some r
    → (old : ApprovalRecord) × (get_approval id s ≡ some old)
      × (is_unused old ≡ true)
      × (r ≡ used_now now old)
      × (get_approval id (mark_used id now s).1 ≡ some r)
mark_used-some id now s r keyed e = elim (Option-cases (get_approval id s)) [
  | inl missing ↦ absurd (ground (arith, e, mark_used-missing id now s keyed missing))
  | inr (old, found) ↦ elim (Bool-cases (is_unused old)) [
    | inl unused ↦
        let (result, stored) = mark_used-unused id now s old keyed found unused in
        let same = some-injective r (used_now now old) (sym e ∙ result) in
        (old, found, unused, same, stored ∙ ap (λ x. some x) (sym same))
    | inr used ↦ absurd (ground (arith, e, mark_used_again id now s old keyed found used))
  ]
]

-- In a store whose approvals have distinct ids: of any number of uses of one approval, by
-- concurrent callers in any interleaving with all other operations, at most the first gets the
-- record: after a successful `markUsed` every later one on the same approval is refused.
pub mark_used_once :
    (id : String) (now now' : ℕ) (ops : List Op) (s : ApprovalStore) (r : ApprovalRecord)
    → IsKeyed s
    → (mark_used id now s).0 ≡ some r
    → (mark_used id now' (run ops (mark_used id now s).1)).0 ≡ none
mark_used_once id now now' ops s r keyed e =
    let (old, found, unused, same, stored) = mark_used-some id now s r keyed e in
    let (r', there, l) = run-Later ops (mark_used id now s).1 id r stored in
    mark_used_again id now' (run ops (mark_used id now s).1) r'
      (run-IsKeyed ops (mark_used id now s).1 (mark_used-IsKeyed id now s keyed)) there
      (ground (arith, same, l.kept_use))

-- What a successful claim found, and the use that it made of it.
claim-used :
    (task_id : String) (principal : AgentPrincipal) (now : ℕ) (s : ApprovalStore)
    (r : ApprovalRecord)
    → IsKeyed s
    → (claim_approved_execution task_id principal now s).0 ≡ some r
    → (old : ApprovalRecord) × (get_approval_by_task_id task_id s ≡ some old)
      × (old.agent_id ≡ principal.agent_id)
      × (old.status ≡ approved)
      × (now < old.expires_at)
      × ((mark_used old.id now s).0 ≡ some r)
unfolding claim_approved_execution may_claim
claim-used task_id principal now s r keyed e =
    elim (Option-cases (get_approval_by_task_id task_id s)) [
      | inl missing ↦ absurd (ground (arith, e, missing))
      | inr (old, found) ↦ (
        old,
        found,
        ground (arith, e, found, eq_iff old.agent_id principal.agent_id),
        ground (arith, e, found),
        ground (arith, e, found),
        ground (arith, e, found),
      )
    ]

claim-state :
    (task_id : String) (principal : AgentPrincipal) (now : ℕ) (s : ApprovalStore)
    (old r : ApprovalRecord)
    → get_approval_by_task_id task_id s ≡ some old
    → (claim_approved_execution task_id principal now s).0 ≡ some r
    → (claim_approved_execution task_id principal now s).1 ≡ (mark_used old.id now s).1
unfolding claim_approved_execution
claim-state task_id principal now s old r found e = ground (arith, found, e)

-- In a store whose approvals have distinct ids: a claim succeeds only on the approval of the task,
-- for the agent that asked, when the operator approved it, before it expires, and when its time of use
-- was not set. What it hands back is that approval with its time of use set to now, and so it is stored.
pub claim_approved_execution_sound :
    (task_id : String) (principal : AgentPrincipal) (now : ℕ) (s : ApprovalStore)
    (r : ApprovalRecord)
    → IsKeyed s
    → (claim_approved_execution task_id principal now s).0 ≡ some r
    → (old : ApprovalRecord) × (get_approval_by_task_id task_id s ≡ some old)
      × (old.agent_id ≡ principal.agent_id)
      × (old.status ≡ approved)
      × (now < old.expires_at)
      × (old.used_at ≡ none)
      × (r ≡ record old { used_at = some now })
      × (get_approval old.id (claim_approved_execution task_id principal now s).1 ≡ some r)
unfolding get_approval get_approval_by_task_id
claim_approved_execution_sound task_id principal now s r keyed e =
    let (old, found, agent, status, open_still, used) =
      claim-used task_id principal now s r keyed e in
    let (stored, there, unused, marked, after) = mark_used-some old.id now s r keyed used in
    let own =
      find_key (λ x. x.id) s.approvals old keyed
        (find-Elem (λ x. is_task task_id x.task_id) s.approvals old found) in
    let same : stored ≡ old = some-injective stored old (sym there ∙ own) in
    (
      old,
      found,
      agent,
      status,
      open_still,
      unused_at old (subst (λ x. is_unused x ≡ true) same unused),
      subst (λ x. r ≡ used_now now x) same marked,
      ap (get_approval old.id) (claim-state task_id principal now s old r found e) ∙ after,
    )
  where
    unused_at : (x : ApprovalRecord) → is_unused x ≡ true → x.used_at ≡ none
    unused_at x h = elim (Option-cases x.used_at) [
      | inl n ↦ n
      | inr (at, n) ↦ absurd (ground (arith, n, h))
    ]

claim_refused :
    (task_id : String) (principal : AgentPrincipal) (now : ℕ) (s : ApprovalStore)
    (r : ApprovalRecord)
    → get_approval_by_task_id task_id s ≡ some r
    → (mark_used r.id now s).0 ≡ none
    → (claim_approved_execution task_id principal now s).0 ≡ none
unfolding claim_approved_execution
claim_refused task_id principal now s r found e = ground (arith, found, e)

-- In a store whose approvals have distinct ids: the approval of a task is executed once, after a
-- successful claim, and any further operations, every other claim on that task is refused, whoever
-- makes it and whenever.
pub claim_once :
    (task_id : String) (principal principal' : AgentPrincipal) (now now' : ℕ) (ops : List Op)
    (s : ApprovalStore) (r : ApprovalRecord)
    → IsKeyed s
    → (claim_approved_execution task_id principal now s).0 ≡ some r
    → (claim_approved_execution task_id principal' now'
        (run ops (claim_approved_execution task_id principal now s).1)).0
      ≡ none
unfolding get_approval_by_task_id run run_op
claim_once task_id principal principal' now now' ops s r keyed e =
    let (old, found, _, _, _, used) = claim-used task_id principal now s r keyed e in
    let s' = (claim_approved_execution task_id principal now s).1 in
    let p : ApprovalRecord → Bool = λ x. is_task task_id x.task_id in
    let stable : (x x' : ApprovalRecord) → x'.id ≡ x.id → x'.task_id ≡ x.task_id → p x' ≡ p x =
      λ x x' _ k. ap (is_task task_id) k in
    let (r', there, l) = run-Follows p stable (claim task_id principal now ∷ ops) s old found in
    let again = mark_used_once old.id now now' ops s r keyed used in
    claim_refused task_id principal' now' (run ops s') r' there
      (rw (claim-state task_id principal now s old r found e, l.same_id) again)
