-- ===== src/Approvals/Parking.antt =====
-- What the approval gate leaves behind a gated call (`interceptGatedCall` of
-- apps/torii/src/policy/approval-gate.service.ts).
use keidai.Common.{
  ℕ, ◌+◌, String, str_eq, eq_refl, ◌≡◌, ◌↔◌, refl, inl, inr, false, Option, none, some, List, [],
  ◌∷◌, arith, Option-cases, Bool-cases, find, any, find-append,
}
use keidai.Tasks.Inputs.{Payload}
use keidai.Tasks.{
  StoredMcpTask, CreateMcpTaskInput, Table, get_record, create_working_task, new_task, working,
  default_mcp_task_ttl_ms,
}
use keidai.Approvals.{
  ApprovalStore, ApprovalRecord, RejectedParamsEntry, pending, PendingInput, is_task, new_approval,
  conflicts, create_pending_approval, get_approval_by_task_id, find_recent_rejection,
}
use keidai.Approvals.Gate.{
  GateStore, GatedCall, GatedCallIntercept, denied, parked, parked_task, pending_for, park,
  intercept_gated_call,
}

create_working_task-some :
    (id : String) (now : ℕ) (input : CreateMcpTaskInput) (table : Table) (t : StoredMcpTask)
    → (create_working_task id input now table).0 ≡ some t
    → (t ≡ new_task id input now)
      × (get_record id (create_working_task id input now table).1 ≡ some t)
unfolding create_working_task get_record new_task
create_working_task-some id now input table t e = elim (Option-cases (get_record id table)) [
  | inl absent ↦ ground (
    arith,
    e,
    absent,
    find-append (λ x. str_eq x.task_id id) table (new_task id input now),
    eq_refl id,
  )
  | inr (old, found) ↦ absurd (ground (arith, e, found))
]

no_conflict-task :
    (new : ApprovalRecord) (task_id : String) (xs : List ApprovalRecord)
    → new.task_id ≡ some task_id
    → any (conflicts new) xs ≡ false
    → find (λ r. is_task task_id r.task_id) xs ≡ none
unfolding conflicts
no_conflict-task new task_id [] k h = refl
no_conflict-task new task_id (x ∷ xs) k h = ground (arith, k, h, no_conflict-task new task_id xs k)

create_pending-some :
    (id task_id : String) (input : PendingInput) (now : ℕ) (s : ApprovalStore) (r : ApprovalRecord)
    → input.task_id ≡ some task_id
    → (create_pending_approval id input now s).0 ≡ some r
    → (r ≡ new_approval id input now)
      × (get_approval_by_task_id task_id (create_pending_approval id input now s).1 ≡ some r)
unfolding create_pending_approval get_approval_by_task_id new_approval
create_pending-some id task_id input now s r k e =
    elim (Bool-cases (any (conflicts (new_approval id input now)) s.approvals)) [
      | inl c ↦ absurd (ground (arith, e, c))
      | inr c ↦ ground (
        arith,
        e,
        c,
        k,
        no_conflict-task (new_approval id input now) task_id s.approvals k c,
        find-append (λ x. is_task task_id x.task_id) s.approvals (new_approval id input now),
        eq_refl task_id,
      )
    ]

module _ (hash : Payload → String) (task_id approval_id : String) (call : GatedCall) (now : ℕ) where
  -- The approval that the operator finds for a parked call.
  pub record IsAwaiting (t : StoredMcpTask) (r : ApprovalRecord) : Type 0 where
    pub task : r.task_id ≡ some t.task_id
    pub agent : r.agent_id ≡ call.principal.agent_id
    pub owner : r.owner_id ≡ call.principal.owner_id
    pub tool : r.tool_name ≡ call.tool_name
    pub params : r.params ≡ call.upstream_args
    pub params_hash : r.params_hash ≡ hash call.upstream_args
    pub status : r.status ≡ pending
    pub unused : r.used_at ≡ none
    pub agent_of_task : t.agent_id ≡ r.agent_id
    pub task_working : t.status ≡ working
    pub task_ttl : t.ttl_ms ≡ some default_mcp_task_ttl_ms
    pub same_end : r.expires_at ≡ t.created_at_ms + default_mcp_task_ttl_ms

  IsAwaiting-new :
      (t : StoredMcpTask) (r : ApprovalRecord)
      → t ≡ new_task task_id (parked_task hash call) now
      → r ≡ new_approval approval_id (pending_for hash call t.task_id) now
      → IsAwaiting t r
  unfolding new_task new_approval
  IsAwaiting-new t r e f = ground (arith, e, f)

  -- A committed transaction holds a working task of the caller, and a pending, unused approval of
  -- that task for the same agent, tool and arguments, which ends when the task does.
  abbrev pub IsParked : StoredMcpTask → GateStore → Type 0
  IsParked t g =
      (r : ApprovalRecord) × (get_record t.task_id g.tasks ≡ some t)
      × (get_approval_by_task_id t.task_id g.store ≡ some r)
      × IsAwaiting t r

  park-IsParked :
      (g g' : GateStore) (t : StoredMcpTask)
      → park hash task_id approval_id call now g ≡ some (t, g')
      → IsParked t g'
  unfolding park new_task
  park-IsParked g g' t e =
      elim (Option-cases (create_working_task task_id (parked_task hash call) now g.tasks).0) [
        | inl none_made ↦ absurd (ground (arith, e, none_made))
        | inr (t', made) ↦
            let input = pending_for hash call t'.task_id in
            elim (Option-cases (create_pending_approval approval_id input now g.store).0) [
              | inl none_made ↦ absurd (ground (arith, e, made, none_made))
              | inr (r, asked) ↦
                  let c =
                    create_working_task-some task_id now (parked_task hash call) g.tasks t' made in
                  let d =
                    create_pending-some approval_id t'.task_id input now g.store r refl asked in
                  (
                    r,
                    ground (arith, e, made, asked, c),
                    ground (arith, e, made, asked, d.1),
                    IsAwaiting-new t r (ground (arith, e, made, asked, c.0))
                        (ground (arith, e, made, asked, d.0)),
                  )
            ]
      ]

  -- A gated call that is parked leaves a working task of the caller, and a pending, unused approval
  -- of that task for the same agent, tool and arguments, which ends when the task does.
  pub intercept_gated_call-parked :
      (g g' : GateStore) (t : StoredMcpTask)
      → intercept_gated_call hash task_id approval_id call now g ≡ (some (parked t), g')
      → IsParked t g'
  unfolding intercept_gated_call
  intercept_gated_call-parked g g' t e =
      let looked =
        find_recent_rejection call.principal.agent_id call.tool_name (hash call.upstream_args) now
          g.store in
      let g1 : GateStore = record g { store = looked.1 } in
      elim (Option-cases looked.0) [
        | inl fresh ↦ elim (Option-cases (park hash task_id approval_id call now g1)) [
          | inl thrown ↦ absurd (ground (arith, e, fresh, thrown))
          | inr ((t', g''), made) ↦ park-IsParked g1 g' t (ground (arith, e, fresh, made))
        ]
        | inr (entry, seen) ↦ absurd (ground (arith, e, seen))
      ]

  abbrev after_park : GateStore → Option GatedCallIntercept
  after_park g = elim (park hash task_id approval_id call now g) [
    | none ↦ none
    | some m ↦ some (parked m.0)
  ]

  not_denied : (g : GateStore) (reason : Option String) → ¬ (after_park g ≡ some (denied reason))
  not_denied g reason e = elim (Option-cases (park hash task_id approval_id call now g)) [
    | inl thrown ↦ ground (arith, e, thrown)
    | inr (m, made) ↦ ground (arith, e, made)
  ]

  -- A gated call is denied with a reason exactly when `findRecentRejection` finds an entry of the
  -- same agent, tool and arguments, and the entry has that reason.
  intercept_gated_call-denied_iff :
      (reason : Option String) (g : GateStore)
      → ((intercept_gated_call hash task_id approval_id call now g).0 ≡ some (denied reason)) ↔ (
          (entry : RejectedParamsEntry) × ((find_recent_rejection call.principal.agent_id
              call.tool_name
              (hash call.upstream_args)
              now
              g.store).0
            ≡ some entry)
          × (entry.rejection_reason ≡ reason))
  unfolding intercept_gated_call
  intercept_gated_call-denied_iff reason g =
      let looked =
        find_recent_rejection call.principal.agent_id call.tool_name (hash call.upstream_args) now
          g.store in
      let g1 : GateStore = record g { store = looked.1 } in
      (
        (λ e. elim (Option-cases looked.0) [
          | inl fresh ↦ absurd (not_denied g1 reason (ground (arith, e, fresh)))
          | inr (entry, seen) ↦ (entry, seen, ground (arith, e, seen))
        ]),
        λ (entry, seen, same). ground (arith, seen, same),
      )
