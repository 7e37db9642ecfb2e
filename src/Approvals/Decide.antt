-- ===== src/Approvals/Decide.antt =====
-- Decisions: what `approve`, `reject` and `cancel` of
-- apps/torii/src/policy/approval-store.service.ts do to the record and to all others.
use mathlib.Core.Option
use keidai.Common.{
  ℕ, String, str_eq, ◌≡◌, refl, ◌≢◌, inl, inr, true, false, ◌&&◌, Option, none, some, map, arith,
  if◌then◌else◌, IsDistinct, Option-cases, count-by_key, find-update_guarded, find-update_other,
  update-none, count_where, ◌∙◌,
}
use keidai.Approvals.{
  ApprovalStore, ApprovalRecord, Decision, decided, is_decidable, get_approval, decide_pending,
}

-- `id` is the primary key of `approvals`.
abbrev pub IsKeyed : ApprovalStore → Type 0
IsKeyed s = IsDistinct (map (λ r. r.id) s.approvals)

module _ (id : String) (d : Decision) (reason : Option String) (now : ℕ) (s : ApprovalStore) where
  pub get_approval-decide :
      get_approval id (decide_pending id d reason now s).1
      ≡ Option.map
          (λ r. if is_decidable now r then decided d reason now r else r)
          (get_approval id s)
  unfolding get_approval decide_pending
  get_approval-decide =
      find-update_guarded (λ r. r.id) id (is_decidable now) (decided d reason now) s.approvals
        (λ r. refl)

  -- In a store whose approvals have distinct ids: a decision on a record that is pending and has
  -- not expired is made: the record takes the status of the decision, its time, and the reason if
  -- it is a rejection; this record is returned and is what later readers get.
  pub decide_pending-decided :
      (r : ApprovalRecord)
      → IsKeyed s
      → get_approval id s ≡ some r
      → is_decidable now r ≡ true
      → ((decide_pending id d reason now s).0 ≡ some (decided d reason now r))
        × (get_approval id (decide_pending id d reason now s).1 ≡ some (decided d reason now r))
  unfolding decide_pending get_approval
  decide_pending-decided r keyed found undecided = ground (
    arith,
    found,
    undecided,
    get_approval-decide,
    count-by_key (λ r. r.id) id (is_decidable now) s.approvals keyed,
  )

  nothing_decided :
      IsKeyed s
      → ((r : ApprovalRecord) → get_approval id s ≡ some r → is_decidable now r ≡ false)
      → count_where (λ r. str_eq r.id id && is_decidable now r) s.approvals ≡ 0
  unfolding get_approval
  nothing_decided keyed closed = elim (Option-cases (get_approval id s)) [
    | inl missing ↦
        count-by_key (λ r. r.id) id (is_decidable now) s.approvals keyed ∙ ground (arith, missing)
    | inr (r, found) ↦
        count-by_key (λ r. r.id) id (is_decidable now) s.approvals keyed
        ∙ ground (arith, found, closed r found)
  ]

  -- In a store whose approvals have distinct ids: a decision on a record that does not exist, is
  -- already decided, or has expired, is refused and changes nothing.
  pub decide_pending-refused :
      IsKeyed s
      → ((r : ApprovalRecord) → get_approval id s ≡ some r → is_decidable now r ≡ false)
      → decide_pending id d reason now s ≡ (none, s)
  unfolding decide_pending
  decide_pending-refused keyed closed =
      let zero_rows = nothing_decided keyed closed in
      let same =
        update-none (λ r. str_eq r.id id && is_decidable now r) (decided d reason now) s.approvals
          zero_rows in
      ground (arith, zero_rows, same)

  -- A decision on one record leaves every other record.
  pub decide_pending-other :
      (other : String)
      → id ≢ other
      → get_approval other (decide_pending id d reason now s).1 ≡ get_approval other s
  unfolding decide_pending get_approval
  decide_pending-other other n =
      find-update_other (λ r. r.id) id other (is_decidable now) (decided d reason now) s.approvals
        (λ r. refl) n
