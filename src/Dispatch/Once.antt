-- ===== src/Dispatch/Once.antt =====
-- Polls of a task: how often they call its tool
-- (syncNonTerminalTask of apps/torii/src/dispatch/tool-dispatch.service.ts).
use keidai.Common.{
  ℕ, ◌+◌, ◌≤◌, String, ◌≡◌, refl, sym, subst, inl, inr, Option, none, some, List, [], ◌∷◌, arith,
  Option-cases, count_where,
}
use keidai.Policy.{AgentPrincipal, GroupPolicySnapshot}
use keidai.Tasks.Inputs.{Payload}
use keidai.Tasks.Calls as TaskSteps
use keidai.Approvals.{ApprovalRecord, ApprovalStore}
use keidai.Approvals.Decide.{IsKeyed}
use keidai.Approvals.Steps as ApprovalSteps
use keidai.Approvals.Gate as Gate
use keidai.Dispatch.{Try, returned, Backends, DispatchState, CallResult}
use keidai.Dispatch.Sync.{
  execute_claimed, execute_approved_task, sync_non_terminal_task, cancel_parked_task,
}
use keidai.Dispatch.Moves.{is_call, Moves, Moves-more, quiet-then, then-quiet}
use keidai.Dispatch.Sent.{try_both}
use keidai.Dispatch.Polled.{Calls, execute_claimed-Calls, sync-Moves, cancel-Moves}
use keidai.Dispatch.Used.{IsUsed, IsUsed-refused, Moves-IsUsed, Moves-IsKeyed}

-- A poll of the task, a cancel of it, or what others do to the stores.
pub data PollEvent : Type 0 where
  poll : AgentPrincipal → PollEvent
  cancel : AgentPrincipal → PollEvent
  others : List ApprovalSteps.Op → List TaskSteps.Op → PollEvent

module _ {W : Type 0} (b : Backends W) (groups : List GroupPolicySnapshot) (hash : Payload → String)
    (result_record : CallResult → Payload) (error_record : String → Payload) (id : String) where
  abbrev pub serve_poll : PollEvent → DispatchState W → DispatchState W
  serve_poll (poll p) s = (sync_non_terminal_task b groups hash result_record error_record p id s).1
  serve_poll (cancel p) s = cancel_parked_task b groups hash result_record error_record p id s
  serve_poll (others approval_steps task_steps) s = record s {
    gate = record {
      store = ApprovalSteps.run approval_steps s.gate.store;
      tasks = TaskSteps.run task_steps s.gate.tasks;
    };
  }

  abbrev pub serve_polls : List PollEvent → DispatchState W → DispatchState W
  serve_polls [] s = s
  serve_polls (e ∷ events) s = serve_polls events (serve_poll e s)

  -- A poll is a claim, the call that it lets through, and a poll of the backend.
  poll-after_claim :
      (p : AgentPrincipal) (from s : DispatchState W) (k m : ℕ)
      → Moves k m from (execute_approved_task b groups hash result_record error_record p id s).1
      → Moves k m from (serve_poll (poll p) s)
  unfolding sync_non_terminal_task
  poll-after_claim p from s k m h =
      let P : Try (Unit {0}) × DispatchState W → Type 0 = λ x. Moves k m from x.1 in
      let end = execute_approved_task b groups hash result_record error_record p id s in
      try_both P end.0 _ _ (λ e _. h)
        (λ _ _.
          then-quiet k m from end.1 _ h
            (sync-Moves b groups hash result_record error_record p id end.1))

  module _ (p : AgentPrincipal) (s : DispatchState W) where
    abbrev claimed : Option ApprovalRecord × ApprovalStore
    claimed = Gate.claim_approved_execution id p (b.now s.world) s.gate.store

    abbrev after_claim : DispatchState W
    after_claim = record s { gate = record s.gate { store = claimed.1 } }

    claim-Moves : Moves 0 0 s after_claim
    unfolding ApprovalSteps.run ApprovalSteps.run_op TaskSteps.run
    claim-Moves = record {
      approvals_by = (ApprovalSteps.claim id p (b.now s.world) ∷ [], refl);
      tasks_by = ([], refl);
      called = omega arith;
      traced = omega arith;
    }

    execute-refused :
        claimed.0 ≡ none
        → Moves 0 0 s (execute_approved_task b groups hash result_record error_record p id s).1
    unfolding execute_approved_task
    execute-refused e =
        subst (λ x. Moves 0 0 s x.1)
          (sym {a = execute_approved_task b groups hash result_record error_record p id s}
            {b = (returned tt, after_claim)} (ground (arith, e)))
          claim-Moves

    execute-claimed :
        (r : ApprovalRecord)
        → claimed.0 ≡ some r
        → Calls b groups hash result_record error_record p after_claim
            (execute_approved_task b groups hash result_record error_record p id s).1
    unfolding execute_approved_task
    execute-claimed r e =
        let end = execute_claimed b groups hash result_record error_record p id r after_claim in
        subst (λ x. Calls b groups hash result_record error_record p after_claim x.1)
          (sym {a = execute_approved_task b groups hash result_record error_record p id s} {b = end}
            (ground (arith, e)))
          (execute_claimed-Calls b groups hash result_record error_record p id r after_claim)

  others-Moves :
      (xs : List ApprovalSteps.Op) (ys : List TaskSteps.Op) (s : DispatchState W)
      → Moves 0 0 s (serve_poll (others xs ys) s)
  others-Moves xs ys s = record {
    approvals_by = (xs, refl);
    tasks_by = (ys, refl);
    called = omega arith;
    traced = omega arith;
  }

  used-Moves :
      (e : PollEvent) (s : DispatchState W) → IsUsed id s.gate.store → Moves 0 0 s (serve_poll e s)
  used-Moves (others xs ys) s used = others-Moves xs ys s
  used-Moves (cancel p) s used = cancel-Moves b groups hash result_record error_record p id s
  used-Moves (poll p) s used =
      poll-after_claim p s s 0 0
        (execute-refused p s (IsUsed-refused id p (b.now s.world) s.gate.store used))

  used-calls :
      (events : List PollEvent) (s : DispatchState W)
      → IsUsed id s.gate.store
      → count_where is_call (serve_polls events s).posts ≤ count_where is_call s.posts
  used-calls [] s used = omega arith
  used-calls (e ∷ events) s used =
      let h = used-Moves e s used in
      let rest =
        used-calls events (serve_poll e s) (Moves-IsUsed id 0 0 s (serve_poll e s) h used) in
      omega (arith, h.called, rest)

  -- The first poll whose claim succeeds: one call at most, and the approval is used.
  claimed-calls :
      (p : AgentPrincipal) (s : DispatchState W) (r : ApprovalRecord)
      → IsKeyed s.gate.store
      → (claimed p s).0 ≡ some r
      → ((m : ℕ) × Moves 1 m s (serve_poll (poll p) s))
        × IsUsed id (serve_poll (poll p) s).gate.store
  unfolding IsUsed ApprovalSteps.run
  claimed-calls p s r keyed e =
      let (m, h) = execute-claimed p s r e in
      let s' = after_claim p s in
      let moved = quiet-then 1 m s s' _ (claim-Moves p s) h in
      let used : IsUsed id s'.gate.store =
        (s.gate.store, r, p, b.now s.world, [], keyed, e, refl) in
      let polled = poll-after_claim p s' s 1 m h in
      (
        (m, poll-after_claim p s s 1 m moved),
        Moves-IsUsed id 1 m s' (serve_poll (poll p) s) polled used,
      )

  -- In a store whose approvals have distinct ids: however often a task is polled and cancelled, by whomever, and
  -- whatever other requests do to the approvals and the tasks between the polls and while backends
  -- answer, the polls send a backend at most one request to call the tool.
  pub serve_polls-once :
      (events : List PollEvent) (s : DispatchState W)
      → IsKeyed s.gate.store
      → count_where is_call (serve_polls events s).posts ≤ count_where is_call s.posts + 1
  serve_polls-once [] s keyed = omega arith
  serve_polls-once (others xs ys ∷ events) s keyed =
      let h = others-Moves xs ys s in
      let s' = serve_poll (others xs ys) s in
      omega (arith, h.called, serve_polls-once events s' (Moves-IsKeyed 0 0 s s' h keyed))
  serve_polls-once (cancel p ∷ events) s keyed =
      let h = cancel-Moves b groups hash result_record error_record p id s in
      let s' = serve_poll (cancel p) s in
      omega (arith, h.called, serve_polls-once events s' (Moves-IsKeyed 0 0 s s' h keyed))
  serve_polls-once (poll p ∷ events) s keyed =
      let s' = serve_poll (poll p) s in
      elim (Option-cases (claimed p s).0) [
        | inl e ↦
            let h = poll-after_claim p s s 0 0 (execute-refused p s e) in
            omega (arith, h.called, serve_polls-once events s' (Moves-IsKeyed 0 0 s s' h keyed))
        | inr (r, e) ↦
            let ((m, h), used) = claimed-calls p s r keyed e in
            omega (arith, h.called, used-calls events s' used)
      ]

  serve_poll-Moves : (e : PollEvent) (s : DispatchState W) → (m : ℕ) × Moves 1 m s (serve_poll e s)
  serve_poll-Moves (others xs ys) s =
      (0, Moves-more 0 1 0 s (serve_poll (others xs ys) s) (omega arith) (others-Moves xs ys s))
  serve_poll-Moves (cancel p) s = (
    0,
    Moves-more 0 1 0 s (serve_poll (cancel p) s) (omega arith)
        (cancel-Moves b groups hash result_record error_record p id s),
  )
  serve_poll-Moves (poll p) s = elim (Option-cases (claimed p s).0) [
    | inl e ↦ (
      0,
      Moves-more 0 1 0 s (serve_poll (poll p) s) (omega arith)
          (poll-after_claim p s s 0 0 (execute-refused p s e)),
    )
    | inr (r, e) ↦
        let (m, h) = execute-claimed p s r e in
        (m, poll-after_claim p s s 1 m (quiet-then 1 m s (after_claim p s) _ (claim-Moves p s) h))
  ]
