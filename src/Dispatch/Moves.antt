-- ===== src/Dispatch/Moves.antt =====
-- What a step of the dispatcher (apps/torii/src/dispatch/tool-dispatch.service.ts) may do to its state:
-- operations of the stores, traces, and calls of backends.
use keidai.Common.{
  ℕ, ◌+◌, ◌≤◌, ◌≡◌, refl, sym, ap, ◌∙◌, subst, ◌⊎◌, inl, inr, Bool, true, false, List, [], ◌∷◌,
  ◌++◌, arith, length, length-append, count_where,
}
use keidai.Tasks.{Table}
use keidai.Tasks.Calls as TaskSteps
use keidai.Approvals.{ApprovalStore}
use keidai.Approvals.Steps as ApprovalSteps
use keidai.Dispatch.{
  store_failed, Try, threw, Request, tools_call, tasks_get, tasks_cancel, Post, DispatchState,
  CallContext, TraceFields, emit,
}

abbrev pub is_call_request : Request → Bool
is_call_request (tools_call name args) = true
is_call_request (tasks_get id) = false
is_call_request (tasks_cancel id) = false

abbrev pub is_call : Post → Bool
is_call p = is_call_request p.request

pub approvals-append :
    (xs ys : List ApprovalSteps.Op) (s : ApprovalStore)
    → ApprovalSteps.run (xs ++ ys) s ≡ ApprovalSteps.run ys (ApprovalSteps.run xs s)
unfolding ApprovalSteps.run
approvals-append [] ys s = refl
approvals-append (x ∷ xs) ys s = approvals-append xs ys (ApprovalSteps.run_op x s)

tasks-append :
    (xs ys : List TaskSteps.Op) (s : Table)
    → TaskSteps.run (xs ++ ys) s ≡ TaskSteps.run ys (TaskSteps.run xs s)
unfolding TaskSteps.run
tasks-append [] ys s = refl
tasks-append (x ∷ xs) ys s = tasks-append xs ys (TaskSteps.run_op x s)

module _ {W : Type 0} where
  -- At most `k` calls of backends more, `m` traces more, and the stores after operations of their own.
  pub record Moves (k m : ℕ) (s s' : DispatchState W) : Type 0 where
    pub approvals_by :
        (ops : List ApprovalSteps.Op) × (s'.gate.store ≡ ApprovalSteps.run ops s.gate.store)
    pub tasks_by : (ops : List TaskSteps.Op) × (s'.gate.tasks ≡ TaskSteps.run ops s.gate.tasks)
    pub called : count_where is_call s'.posts ≤ count_where is_call s.posts + k
    pub traced : length s'.traces ≡ length s.traces + m

  pub Moves-then :
      (k m j n : ℕ) (s s' s'' : DispatchState W)
      → Moves k m s s'
      → Moves j n s' s''
      → Moves (k + j) (m + n) s s''
  Moves-then k m j n s s' s'' h g =
      let (xs, ex) = h.approvals_by in
      let (ys, ey) = g.approvals_by in
      let (us, eu) = h.tasks_by in
      let (vs, ev) = g.tasks_by in
      record {
        approvals_by = (
          xs ++ ys,
          ey ∙ (ap (ApprovalSteps.run ys) ex ∙ sym (approvals-append xs ys s.gate.store)),
        );
        tasks_by =
            (us ++ vs, ev ∙ (ap (TaskSteps.run vs) eu ∙ sym (tasks-append us vs s.gate.tasks)));
        called = omega (arith, h.called, g.called);
        traced = omega (arith, h.traced, g.traced);
      }

  pub Moves-more : (k j m : ℕ) (s s' : DispatchState W) → k ≤ j → Moves k m s s' → Moves j m s s'
  Moves-more k j m s s' le h = record {
    approvals_by = h.approvals_by;
    tasks_by = h.tasks_by;
    called = omega (arith, le, h.called);
    traced = h.traced;
  }

  pub quiet-then :
      (k m : ℕ) (s s' s'' : DispatchState W) → Moves 0 0 s s' → Moves k m s' s'' → Moves k m s s''
  quiet-then k m s s' s'' h g =
      subst (λ n. Moves n m s s'') (omega arith)
        (subst (λ n. Moves (0 + k) n s s'') (omega arith) (Moves-then 0 0 k m s s' s'' h g))

  pub then-quiet :
      (k m : ℕ) (s s' s'' : DispatchState W) → Moves k m s s' → Moves 0 0 s' s'' → Moves k m s s''
  then-quiet k m s s' s'' h g =
      subst (λ n. Moves n m s s'') (omega arith)
        (subst (λ n. Moves (k + 0) n s s'') (omega arith) (Moves-then k m 0 0 s s' s'' h g))

  -- A step that writes no store, sends nothing and records nothing.
  pub world-Moves :
      (k : ℕ) (s s' : DispatchState W)
      → s'.gate ≡ s.gate
      → s'.posts ≡ s.posts
      → s'.traces ≡ s.traces
      → Moves k 0 s s'
  unfolding ApprovalSteps.run TaskSteps.run
  world-Moves k s s' g p t = record {
    approvals_by = ([], ap (λ x. x.store) g);
    tasks_by = ([], ap (λ x. x.tasks) g);
    called = ground (arith, p);
    traced = ground (arith, t);
  }

  -- A step of the task store alone.
  pub task-Moves :
      (op : TaskSteps.Op) (s : DispatchState W)
      → Moves 0 0 s (record s { gate = record s.gate { tasks = TaskSteps.run_op op s.gate.tasks } })
  unfolding ApprovalSteps.run TaskSteps.run
  task-Moves op s = record {
    approvals_by = ([], refl);
    tasks_by = (op ∷ [], refl);
    called = omega arith;
    traced = omega arith;
  }

  pub emit-Moves :
      (ctx : CallContext) (fields : TraceFields) (s : DispatchState W)
      → Moves 0 1 s (emit ctx fields s)
  unfolding ApprovalSteps.run TaskSteps.run emit
  emit-Moves ctx fields s = record {
    approvals_by = ([], refl);
    tasks_by = ([], refl);
    called = omega arith;
    traced = length-append s.traces _;
  }

  -- One more trace, or an exception of the database and none.
  abbrev pub Ends : {A : Type 0} → ℕ → DispatchState W → Try A × DispatchState W → Type 0
  Ends k s end = Moves k 1 s end.1 ⊎ ((end.0 ≡ threw store_failed) × Moves k 0 s end.1)

  pub Ends-after :
      {A : Type 0} (k j : ℕ) (s s' : DispatchState W) (end : Try A × DispatchState W)
      → Moves k 0 s s'
      → Ends j s' end
      → Ends (k + j) s end
  Ends-after k j s s' end h (inl g) = inl (Moves-then k 0 j 1 s s' end.1 h g)
  Ends-after k j s s' end h (inr (e, g)) = inr (e, Moves-then k 0 j 0 s s' end.1 h g)

  pub Ends-more :
      {A : Type 0} (s : DispatchState W) (end : Try A × DispatchState W)
      → Ends 0 s end
      → Ends 1 s end
  Ends-more s end (inl g) = inl (Moves-more 0 1 1 s end.1 (omega arith) g)
  Ends-more s end (inr (e, g)) = inr (e, Moves-more 0 1 0 s end.1 (omega arith) g)
