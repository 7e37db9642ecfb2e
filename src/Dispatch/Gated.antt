-- ===== src/Dispatch/Gated.antt =====
-- Gated calls as operations of the stores, and the tool call as a whole (callTool of
-- apps/torii/src/dispatch/tool-dispatch.service.ts).
use keidai.Common.{
  ℕ, String, ◌≡◌, refl, sym, subst, ◌⊎◌, inl, inr, Bool, none, some, List, [], ◌∷◌, arith,
  Option-cases,
}
use keidai.Policy.{
  AgentPrincipal, GroupPolicySnapshot, PolicyDecision, allowed, denied, evaluate_policy,
}
use keidai.Tasks.Inputs.{Payload}
use keidai.Tasks.Calls as TaskSteps
use keidai.Tasks.{StoredMcpTask, create_working_task}
use keidai.Approvals.{find_recent_rejection, create_pending_approval}
use keidai.Approvals.Steps as ApprovalSteps
use keidai.Approvals.Gate as Gate
use keidai.Dispatch.{
  Try, threw, Backends, DispatchState, CallContext, CallResult, emit, TraceFields, by_policy,
  policy_denied_error,
}
use keidai.Dispatch.Backend.{ProxyOptions, about, entry_of}
use keidai.Dispatch.Call.{
  enforce_policy, gate_call, call_backend, gated_principal, gated_call, call_tool,
}
use keidai.Dispatch.Moves.{Moves, emit-Moves, Ends, Ends-after, Ends-more}
use keidai.Dispatch.Sent.{option_both}
use keidai.Dispatch.Counted.{call_backend-Ends}

-- One store after operations of the stores on another.
record IsBy (g g' : Gate.GateStore) : Type 0 where
  approvals_by : (ops : List ApprovalSteps.Op) × (g'.store ≡ ApprovalSteps.run ops g.store)
  tasks_by : (ops : List TaskSteps.Op) × (g'.tasks ≡ TaskSteps.run ops g.tasks)

module _ (hash : Payload → String) (task_id approval_id : String) (call : Gate.GatedCall)
    (now : ℕ) where
  abbrev look : ApprovalSteps.Op
  look = ApprovalSteps.look_up call.principal.agent_id call.tool_name (hash call.upstream_args) now

  abbrev seen : Gate.GateStore → Gate.GateStore
  seen g = record g { store = ApprovalSteps.run_op look g.store }

  looked-IsBy : (g : Gate.GateStore) → IsBy g (seen g)
  unfolding ApprovalSteps.run TaskSteps.run
  looked-IsBy g = record { approvals_by = (look ∷ [], refl); tasks_by = ([], refl) }

  park-IsBy :
      (g g' : Gate.GateStore) (t : StoredMcpTask)
      → Gate.park hash task_id approval_id call now (seen g) ≡ some (t, g')
      → IsBy g g'
  unfolding Gate.park ApprovalSteps.run TaskSteps.run ApprovalSteps.run_op TaskSteps.run_op
  park-IsBy g g' t e =
      let created = create_working_task task_id (Gate.parked_task hash call) now g.tasks in
      elim (Option-cases created.0) [
        | inl c ↦ absurd (ground (arith, c, e))
        | inr (task, c) ↦
            let pending = Gate.pending_for hash call task.task_id in
            let made = create_pending_approval approval_id pending now (seen g).store in
            elim (Option-cases made.0) [
              | inl m ↦ absurd (ground (arith, c, m, e))
              | inr (r, m) ↦ record {
                approvals_by = (
                  look ∷ ApprovalSteps.create approval_id pending now ∷ [],
                  ground (arith, c, m, e),
                );
                tasks_by = (
                  TaskSteps.create task_id (Gate.parked_task hash call) now ∷ [],
                  ground (arith, c, m, e),
                );
              }
            ]
      ]

  intercept-IsBy :
      (g : Gate.GateStore)
      → IsBy g (Gate.intercept_gated_call hash task_id approval_id call now g).1
  unfolding Gate.intercept_gated_call ApprovalSteps.run_op
  intercept-IsBy g =
      let found =
        find_recent_rejection call.principal.agent_id call.tool_name (hash call.upstream_args) now
          g.store in
      elim (Option-cases found.0) [
        | inr (r, f) ↦ subst (IsBy g) (ground (arith, f)) (looked-IsBy g)
        | inl f ↦ elim (Option-cases (Gate.park hash task_id approval_id call now (seen g))) [
          | inl p ↦ subst (IsBy g) (ground (arith, f, p)) (looked-IsBy g)
          | inr ((t, g'), p) ↦ subst (IsBy g) (ground (arith, f, p)) (park-IsBy g g' t p)
        ]
      ]

Decision-cases : (d : PolicyDecision) → (d ≡ allowed) ⊎ (d ≡ denied)
Decision-cases allowed = inl refl
Decision-cases denied = inr refl

emit-posts :
    {W : Type 0} (ctx : CallContext) (fields : TraceFields) (s : DispatchState W)
    → (emit ctx fields s).posts ≡ s.posts
unfolding emit
emit-posts ctx fields s = refl

module _ {W : Type 0} (b : Backends W) (groups : List GroupPolicySnapshot)
    (hash : Payload → String) where
  gate-Ends :
      (ctx : CallContext) (p : AgentPrincipal) (s : DispatchState W)
      → Ends 0 s (gate_call b groups hash ctx p s)
  unfolding gate_call
  gate-Ends ctx p s =
      let (task_id, w) = b.new_id s.world in
      let (approval_id, w') = b.new_id w in
      let end =
        Gate.intercept_gated_call hash task_id approval_id (gated_call b groups hash ctx p)
          (b.now w') s.gate in
      let s' = record s { world = w'; gate = end.1 } in
      let by =
        intercept-IsBy hash task_id approval_id (gated_call b groups hash ctx p) (b.now w')
          s.gate in
      let moved : Moves 0 0 s s' = record {
        approvals_by = by.approvals_by;
        tasks_by = by.tasks_by;
        called = omega arith;
        traced = omega arith;
      } in
      let P : Try CallResult × DispatchState W → Type 0 = λ x. Ends 0 s x in
      option_both P end.0 _ _ (inr (refl, moved))
        (λ i. Ends-after 0 0 s s' _ moved (inl (emit-Moves ctx _ s')))

  gate-posts :
      (ctx : CallContext) (p : AgentPrincipal) (s : DispatchState W)
      → (gate_call b groups hash ctx p s).1.posts ≡ s.posts
  unfolding gate_call emit
  gate-posts ctx p s =
      let P : Try CallResult × DispatchState W → Type 0 = λ x. x.1.posts ≡ s.posts in
      let (task_id, w) = b.new_id s.world in
      let (approval_id, w') = b.new_id w in
      option_both P
        (Gate.intercept_gated_call hash task_id approval_id (gated_call b groups hash ctx p)
          (b.now w') s.gate).0
        _ _ refl (λ i. refl)

  -- The policy allows the call, and no approval is asked for.
  abbrev pub IsPermitted : CallContext → Type 0
  IsPermitted ctx =
      ((evaluate_policy ctx.principal groups (entry_of ctx).server
          (entry_of ctx).bare_name).decision
        ≡ allowed)
      × (gated_principal b groups hash ctx ≡ none)

  -- A tool call sends its backend at most one request to call the tool, and none unless the policy allows
  -- the call and no approval is asked for. It leaves exactly one trace, or throws an exception of the
  -- database and leaves none. The approvals and the tasks change by operations of their stores only.
  pub call_tool-counted :
      (ctx : CallContext) (client_declares_tasks : Bool) (s : DispatchState W)
      → let end = call_tool b groups hash ctx client_declares_tasks s in
        Ends 1 s end × ((end.1.posts ≡ s.posts) ⊎ IsPermitted ctx)
  unfolding call_tool enforce_policy
  call_tool-counted ctx client_declares_tasks s =
      let evaluation =
        evaluate_policy ctx.principal groups (entry_of ctx).server (entry_of ctx).bare_name in
      let P : Try CallResult × DispatchState W → Type 0 =
        λ x. Ends 1 s x × ((x.1.posts ≡ s.posts) ⊎ IsPermitted ctx) in
      let fields : TraceFields =
        record (about (entry_of ctx) (some (by_policy evaluation.reason))) { decision = denied } in
      let refused : Try CallResult × DispatchState W =
        (threw (policy_denied_error ctx.name), emit ctx fields s) in
      let options : ProxyOptions = record {
        client_declares_tasks = client_declares_tasks;
        existing_task_id = none;
      } in
      let end = call_tool b groups hash ctx client_declares_tasks s in
      elim (Decision-cases evaluation.decision) [
        | inr d ↦
            subst P (sym {a = end} {b = refused} (ground (arith, d)))
              (Ends-more s refused (inl (emit-Moves ctx fields s)), inl (emit-posts ctx fields s))
        | inl d ↦ elim (Option-cases (gated_principal b groups hash ctx)) [
          | inr (p, g) ↦
              let gated = gate_call b groups hash ctx p s in
              subst P (sym {a = end} {b = gated} (ground (arith, d, g)))
                (Ends-more s gated (gate-Ends ctx p s), inl (gate-posts ctx p s))
          | inl g ↦
              let backend = call_backend b groups hash ctx options s in
              subst P (sym {a = end} {b = backend} (ground (arith, d, g)))
                (call_backend-Ends b groups hash ctx options s, inr (d, g))
        ]
      ]
