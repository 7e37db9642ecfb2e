-- ===== src/Dispatch/Polled.antt =====
-- What polls of a task send and record: executeApprovedTask, syncBackendOriginatedTask and
-- cancelParkedTask of apps/torii/src/dispatch/tool-dispatch.service.ts.
use keidai.Common.{
  ℕ, String, refl, inl, inr, true, not, some, List, arith, ◌∷◌, [], Option-cases, Bool-cases,
}
use keidai.Policy.{AgentPrincipal, GroupPolicySnapshot}
use keidai.Tasks.Inputs.{Payload}
use keidai.Tasks.Calls as TaskSteps
use keidai.Tasks.{
  StoredMcpTask, Lookup, ok, err, LookupError, is_mcp_task_terminal_status, require_owned_task,
}
use keidai.Approvals.{ApprovalRecord, get_approval_by_task_id, is_pending}
use keidai.Dispatch.Sync.{
  cancel_parked_task, Origin, is_working, complete_task, fail_task, settle_task, approved_call,
  execute_claimed, find_backend_origin_task, abandon_backend_task, mirror_status, poll_backend,
  sync_backend_originated_task, unavailable_text,
}
use keidai.Approvals.Steps as ApprovalSteps
use keidai.Approvals.Gate as Gate
use keidai.Dispatch.Classify.{
  BackendStatus, backend_working, backend_input_required, backend_completed, backend_failed,
  backend_cancelled, backend_task_input_required_message,
}
use keidai.Dispatch.{
  Try, returned, threw, tasks_get, Connection, Backends, DispatchState, CallResult, backend_result,
  refused_result, linking_result, approval_denied, task_result, Post,
}
use keidai.Dispatch.Backend.{ProxyOptions, post_backend}
use keidai.Dispatch.Call.{call_backend}
use keidai.Dispatch.Moves.{Moves, Moves-then, quiet-then, world-Moves, task-Moves}
use keidai.Dispatch.Sent.{
  try_both, option_both, if_both, post_backend-Moves, post_backend_cancel-Moves,
}
use keidai.Dispatch.Counted.{call_backend-Ends}

lookup_both :
    {A R : Type 0} (P : R → Type 0) (x : Lookup A) (f : LookupError → R) (g : A → R)
    → ((e : LookupError) → P (f e))
    → ((a : A) → P (g a))
    → P (elim x [ err e ↦ f e | ok a ↦ g a ])
lookup_both P (err e) f g h k = h e
lookup_both P (ok a) f g h k = k a

module _ {W : Type 0} (b : Backends W) (groups : List GroupPolicySnapshot) (hash : Payload → String)
    (result_record : CallResult → Payload) (error_record : String → Payload)
    (principal : AgentPrincipal) where
  complete-Moves :
      (id : String) (result : CallResult) (s : DispatchState W)
      → Moves 0 0 s (complete_task b groups hash result_record error_record principal id result s)
  unfolding TaskSteps.run_op
  complete-Moves id result s =
      task-Moves (TaskSteps.finish_ok id (result_record result) (b.now s.world)) s

  fail-Moves :
      (id : String) (error : Payload) (s : DispatchState W)
      → Moves 0 0 s (fail_task b groups hash result_record error_record principal id error s)
  unfolding TaskSteps.run_op
  fail-Moves id error s = task-Moves (TaskSteps.finish_error id error (b.now s.world)) s

  settle-Moves :
      (id : String) (r : Try CallResult) (s : DispatchState W)
      → Moves 0 0 s (settle_task b groups hash result_record error_record principal id r s)
  settle-Moves id (returned (task_result t)) s = world-Moves 0 s s refl refl refl
  settle-Moves id (returned (backend_result x y)) s = complete-Moves id (backend_result x y) s
  settle-Moves id (returned (refused_result x)) s = complete-Moves id (refused_result x) s
  settle-Moves id (returned (linking_result x)) s = complete-Moves id (linking_result x) s
  settle-Moves id (returned (approval_denied x)) s = complete-Moves id (approval_denied x) s
  settle-Moves id (threw e) s = fail-Moves id (error_record (b.text_of e)) s

  -- At most one call of a backend, and some traces.
  abbrev pub Calls : DispatchState W → DispatchState W → Type 0
  Calls s s' = (m : ℕ) × Moves 1 m s s'

  pub execute_claimed-Calls :
      (id : String) (r : ApprovalRecord) (s : DispatchState W)
      → Calls s (execute_claimed b groups hash result_record error_record principal id r s).1
  unfolding execute_claimed
  execute_claimed-Calls id r s =
      let P : Try (Unit {0}) × DispatchState W → Type 0 = λ x. Calls s x.1 in
      let stay : Calls s s = (0, world-Moves 1 s s refl refl refl) in
      let ctx = approved_call b groups hash result_record error_record principal r in
      let options : ProxyOptions = record {
        client_declares_tasks = true;
        existing_task_id = some id;
      } in
      let end = call_backend b groups hash ctx options s in
      lookup_both P (require_owned_task principal.agent_id id (b.now s.world) s.gate.tasks) _ _
        (λ e. stay)
        (λ t.
          if_both P (not (is_working t.status)) _ _ stay
            (elim (call_backend-Ends b groups hash ctx options s) [
              | inl h ↦ (1, Moves-then 1 1 0 0 s end.1 _ h (settle-Moves id end.0 end.1))
              | inr (e, h) ↦ (0, Moves-then 1 0 0 0 s end.1 _ h (settle-Moves id end.0 end.1))
            ]))

  abandon-Moves :
      (t : StoredMcpTask) (o : Origin) (text : String) (s : DispatchState W)
      → Moves 0 0 s
          (abandon_backend_task b groups hash result_record error_record principal t o text s)
  unfolding abandon_backend_task
  abandon-Moves t o text s =
      let s' =
        complete_task b groups hash result_record error_record principal t.task_id
          (refused_result text) s in
      quiet-then 0 0 s s' _ (complete-Moves t.task_id (refused_result text) s)
        (post_backend_cancel-Moves b o.server o.backend_task_id (some t.owner_id) s')

  mirror-Moves :
      (id : String) (t : StoredMcpTask) (o : Origin) (status : BackendStatus) (s : DispatchState W)
      → Moves 0 0 s
          (mirror_status b groups hash result_record error_record principal id t o status s)
  unfolding mirror_status TaskSteps.run_op
  mirror-Moves id t o (backend_working interval) s =
      task-Moves
        (TaskSteps.attach id
          (record {
            server = o.server;
            backend_task_id = o.backend_task_id;
            poll_interval_ms = interval;
            status_message = t.status_message;
          })
          (b.now s.world))
        s
  mirror-Moves id t o backend_input_required s =
      abandon-Moves t o backend_task_input_required_message s
  mirror-Moves id t o (backend_completed result) s =
      task-Moves (TaskSteps.finish_ok id result (b.now s.world)) s
  mirror-Moves id t o (backend_failed error) s = fail-Moves id error s
  mirror-Moves id t o backend_cancelled s =
      task-Moves (TaskSteps.cancel t.agent_id id (b.now s.world)) s

  poll-Moves :
      (id : String) (t : StoredMcpTask) (o : Origin) (c : Connection) (url : String)
      (s : DispatchState W)
      → Moves 0 0 s
          (poll_backend b groups hash result_record error_record principal id t o c url s).1
  unfolding poll_backend
  poll-Moves id t o c url s =
      let P : Try (Unit {0}) × DispatchState W → Type 0 = λ x. Moves 0 0 s x.1 in
      let s' = record s { world = (b.resolve c s.world).1 } in
      let stay = world-Moves 0 s s' refl refl refl in
      try_both P (b.resolve c s.world).0 _ _ (λ e _. stay)
        (λ credentials _.
          let post : Post = record {
            url = url;
            request = tasks_get o.backend_task_id;
            credentials = credentials;
          } in
          let s'' = (post_backend b post s').1 in
          let posted = quiet-then 0 0 s s' s'' stay (post_backend-Moves b post s') in
          try_both P (post_backend b post s').0 _ _
            (λ e _. quiet-then 0 0 s s'' _ posted (fail-Moves id (error_record (b.text_of e)) s''))
            (λ raw _.
              option_both P raw.as_status _ _
                (quiet-then 0 0 s s'' _ posted (abandon-Moves t o _ s''))
                (λ status. quiet-then 0 0 s s'' _ posted (mirror-Moves id t o status s''))))

  pub sync-Moves :
      (id : String) (s : DispatchState W)
      → Moves 0 0 s
          (sync_backend_originated_task b groups hash result_record error_record principal id s).1
  unfolding sync_backend_originated_task
  sync-Moves id s =
      let P : Try (Unit {0}) × DispatchState W → Type 0 = λ x. Moves 0 0 s x.1 in
      let none_moved = world-Moves 0 s s refl refl refl in
      option_both P
        (find_backend_origin_task b groups hash result_record error_record principal id s) _ _
        none_moved
        (λ found.
          let (t, o) = found in
          let s' = record s { world = (b.ensure_connected o.server (some t.owner_id) s.world).1 } in
          let stay = world-Moves 0 s s' refl refl refl in
          let unavailable =
            quiet-then 0 0 s s' _ stay
              (fail-Moves id (error_record (unavailable_text o.server)) s') in
          if_both P (is_mcp_task_terminal_status t.status) _ _ none_moved (
            try_both P (b.ensure_connected o.server (some t.owner_id) s.world).0 _ _ (λ e _. stay)
              (λ c _. if_both P (not c.has_client) _ _ unavailable (
                option_both P c.http_url _ _ unavailable
                  (λ url. quiet-then 0 0 s s' _ stay (poll-Moves id t o c url s'))))))

  cancel_pending-Moves :
      (id : String) (s : DispatchState W)
      → Moves 0 0 s (record s {
        gate = record s.gate {
          store = Gate.cancel_pending_for_task id (b.now s.world) s.gate.store;
        };
      })
  unfolding Gate.cancel_pending_for_task ApprovalSteps.run ApprovalSteps.run_op TaskSteps.run
  cancel_pending-Moves id s = record {
    approvals_by = elim (Option-cases (get_approval_by_task_id id s.gate.store)) [
      | inl e ↦ ([], ground (arith, e))
      | inr (r, e) ↦ elim (Bool-cases (is_pending r.status)) [
        | inl d ↦ (ApprovalSteps.withdraw r.id (b.now s.world) ∷ [], ground (arith, e, d))
        | inr d ↦ ([], ground (arith, e, d))
      ]
    ];
    tasks_by = ([], refl);
    called = omega arith;
    traced = omega arith;
  }

  pub cancel-Moves :
      (id : String) (s : DispatchState W)
      → Moves 0 0 s (cancel_parked_task b groups hash result_record error_record principal id s)
  unfolding cancel_parked_task
  cancel-Moves id s =
      let s' = record s {
        gate = record s.gate {
          store = Gate.cancel_pending_for_task id (b.now s.world) s.gate.store;
        };
      } in
      let P : DispatchState W → Type 0 = λ x. Moves 0 0 s x in
      let h = cancel_pending-Moves id s in
      option_both P
        (find_backend_origin_task b groups hash result_record error_record principal id s') _ _ h
        (λ found. quiet-then 0 0 s s' _ h (
          post_backend_cancel-Moves b found.1.server found.1.backend_task_id (some found.0.owner_id)
            s'))
