-- ===== src/Approvals/Suppress.antt =====
-- The suppression of a call that was rejected lately: `reject`, `findRecentRejection` and
-- `pruneRejections` of apps/torii/src/policy/approval-store.service.ts.
use keidai.Common.{
  ℕ, ◌+◌, ◌≤◌, String, eq_iff, eq_refl, ◌≡◌, refl, ◌∙◌, ap, inl, inr, Bool, true, false, ◌&&◌,
  Option, none, some, List, [], ◌∷◌, arith, if◌then◌else◌, Option-cases, Bool-cases, leb, find, any,
  update_where, find-delete, find-append,
}
use keidai.Approvals.{
  ApprovalStore, ApprovalRecord, RejectedParamsEntry, reject_it, decide_pending, is_stale,
  is_rejection_of, rejection_of, upsert_rejection, prune_rejections, reject, find_recent_rejection,
  rejection_suppression_ttl_ms,
}

-- The test of `findRecentRejection` on a row.
abbrev is_recent : String → String → String → ℕ → RejectedParamsEntry → Bool
is_recent agent_id tool_name params_hash now e =
    is_rejection_of agent_id tool_name params_hash e
    && leb now (e.rejected_at + rejection_suppression_ttl_ms)

-- Pruning takes no row away that a look-up at that time or later would find.
find-prune :
    (agent_id tool_name params_hash : String) (now now' : ℕ) (s : ApprovalStore)
    → now ≤ now'
    → find (is_recent agent_id tool_name params_hash now') (prune_rejections now s).rejections
      ≡ find (is_recent agent_id tool_name params_hash now') s.rejections
unfolding prune_rejections
find-prune agent_id tool_name params_hash now now' s h =
    find-delete (is_recent agent_id tool_name params_hash now') (is_stale now) s.rejections
      (λ e r. ground (arith, h))

abbrev replaced : RejectedParamsEntry → RejectedParamsEntry → RejectedParamsEntry
replaced new e = record e { rejection_reason = new.rejection_reason; rejected_at = new.rejected_at }

is_rejection_of_self :
    (e : RejectedParamsEntry) → is_rejection_of e.agent_id e.tool_name e.params_hash e ≡ true
is_rejection_of_self e =
    ground (arith, eq_refl e.agent_id, eq_refl e.tool_name, eq_refl e.params_hash)

module _ (new : RejectedParamsEntry) (now : ℕ) where
  abbrev same : RejectedParamsEntry → Bool
  same = is_rejection_of new.agent_id new.tool_name new.params_hash

  abbrev recent : RejectedParamsEntry → Bool
  recent = is_recent new.agent_id new.tool_name new.params_hash now

  abbrev in_time : Bool
  in_time = leb now (new.rejected_at + rejection_suppression_ttl_ms)

  same-eq : (e : RejectedParamsEntry) → same e ≡ true → replaced new e ≡ new
  same-eq e h = ground (
    arith,
    h,
    eq_iff e.agent_id new.agent_id,
    eq_iff e.tool_name new.tool_name,
    eq_iff e.params_hash new.params_hash,
  )

  find-none_of_same : (xs : List RejectedParamsEntry) → any same xs ≡ false → find recent xs ≡ none
  find-none_of_same [] h = refl
  find-none_of_same (x ∷ xs) h = ground (arith, h, find-none_of_same xs)

  -- Every row of the key becomes the new one.
  find-replaced :
      (xs : List RejectedParamsEntry)
      → find recent (update_where same (replaced new) xs)
        ≡ (if any same xs then if in_time then some new else none else none)
  find-replaced [] = refl
  find-replaced (x ∷ xs) = elim (Bool-cases (same x)) [
    | inl t ↦ ground (arith, t, same-eq x t, find-replaced xs)
    | inr n ↦ ground (arith, n, find-replaced xs)
  ]

  find-upsert :
      (s : ApprovalStore)
      → find recent (upsert_rejection new s).rejections ≡ (if in_time then some new else none)
  unfolding upsert_rejection
  find-upsert s = elim (Bool-cases (any same s.rejections)) [
    | inl t ↦ ground (arith, t, find-replaced s.rejections)
    | inr n ↦ ground (
      arith,
      n,
      find-none_of_same s.rejections n,
      find-append recent s.rejections new,
      is_rejection_of_self new,
    )
  ]

pub reject-store :
    (id : String) (reason : Option String) (now : ℕ) (s : ApprovalStore) (r : ApprovalRecord)
    → (reject id reason now s).0 ≡ some r
    → (reject id reason now s).1.rejections
      ≡ (prune_rejections now (
          upsert_rejection
            (rejection_of r reason now)
            (decide_pending id reject_it reason now s).1)).rejections
unfolding reject
reject-store id reason now s r e =
    elim (Option-cases (decide_pending id reject_it reason now s).0) [
      | inl n ↦ absurd (ground (arith, e, n))
      | inr (r', m) ↦ ground (arith, e, m)
    ]

-- After the operator rejected a call, the same agent's call of the same tool with the same
-- arguments is found rejected, with the operator's reason, from then on for one hour and not
-- longer.
pub find_recent_rejection-reject :
    (id : String) (reason : Option String) (now now' : ℕ) (s : ApprovalStore) (r : ApprovalRecord)
    → (reject id reason now s).0 ≡ some r
    → now ≤ now'
    → (find_recent_rejection r.agent_id r.tool_name r.params_hash now' (reject id reason now s).1).0
      ≡ (if leb now' (now + rejection_suppression_ttl_ms)
          then some (rejection_of r reason now)
          else none)
unfolding find_recent_rejection
find_recent_rejection-reject id reason now now' s r e h =
    let s' = (reject id reason now s).1 in
    let s0 =
      upsert_rejection (rejection_of r reason now) (decide_pending id reject_it reason now s).1 in
    let p = is_recent r.agent_id r.tool_name r.params_hash now' in
    find-prune r.agent_id r.tool_name r.params_hash now' now' s' (omega arith)
    ∙ ap (find p) (reject-store id reason now s r e)
    ∙ find-prune r.agent_id r.tool_name r.params_hash now now' s0 h
    ∙ find-upsert (rejection_of r reason now) now' (decide_pending id reject_it reason now s).1
