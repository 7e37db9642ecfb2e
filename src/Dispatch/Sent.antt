-- ===== src/Dispatch/Sent.antt =====
-- What the steps of a call at its backend send and record (apps/torii/src/dispatch/tool-dispatch.service.ts).
use keidai.Common.{
  ℕ, suc, ◌+◌, String, ◌≡◌, refl, ap, inl, inr, not, Option, none, some, [], ◌∷◌, arith,
  count-append, if◌then◌else◌,
}
pub use keidai.Common.{option_both, option_eq, if_both}
use keidai.Policy.{AgentPrincipal}
use keidai.Tasks.{create_working_task, attach_backend_origin}
use keidai.Tasks.Calls as TaskSteps
use keidai.Dispatch.Classify.{Raw, BackendTask}
use keidai.Dispatch.{
  Failure, store_failed, Try, returned, threw, Connection, Request, tools_call, tasks_get,
  tasks_cancel, Post, Backends, DispatchState, CallContext, CallResult, task_result, emit,
  CatalogTool, message,
}
use keidai.Dispatch.Backend.{
  Target, ProxyOptions, about, post_backend, send_request, post_backend_cancel, reject_backend_task,
  task_for, adopt_backend_task, origin_of, reminted,
}
use keidai.Dispatch.Moves.{
  is_call, is_call_request, Moves, Moves-then, quiet-then, world-Moves, task-Moves, emit-Moves,
  Ends, Ends-after,
}

-- The results of each kind, under a predicate.
module _ {R : Type 0} (P : R → Type 0) where
  pub try_both :
      {A : Type 0} (x : Try A) (f : Failure → R) (g : A → R)
      → ((e : Failure) → x ≡ threw e → P (f e))
      → ((a : A) → x ≡ returned a → P (g a))
      → P (elim x [ threw e ↦ f e | returned a ↦ g a ])
  try_both (threw e) f g h k = h e refl
  try_both (returned a) f g h k = k a refl

abbrev pub calls_made : Request → ℕ
calls_made (tools_call name args) = 1
calls_made (tasks_get id) = 0
calls_made (tasks_cancel id) = 0

one_call : (r : Request) (n : ℕ) → (if is_call_request r then suc n else n) ≡ n + calls_made r
one_call (tools_call name args) n = omega arith
one_call (tasks_get id) n = omega arith
one_call (tasks_cancel id) n = omega arith

module _ {W : Type 0} (b : Backends W) where
  pub post_backend-Moves :
      (post : Post) (s : DispatchState W)
      → Moves (calls_made post.request) 0 s (post_backend b post s).1
  unfolding post_backend
  post_backend-Moves post s = record {
    approvals_by = ((b.meanwhile post s.world).0, refl);
    tasks_by = ((b.meanwhile post s.world).1, refl);
    called = omega (arith, count-append is_call s.posts (post ∷ []), one_call post.request 0);
    traced = omega arith;
  }

  pub send_request-Moves :
      (c : Connection) (request : Request) (s : DispatchState W)
      → Moves (calls_made request) 0 s (send_request b c request s).1
  unfolding send_request
  send_request-Moves c request s =
      let P : Try Raw × DispatchState W → Type 0 = λ end. Moves (calls_made request) 0 s end.1 in
      let s' = record s { world = (b.resolve c s.world).1 } in
      try_both P (b.resolve c s.world).0 _ _
        (λ e _. world-Moves (calls_made request) s s' refl refl refl)
        (λ a _.
          option_both P c.http_url _ _ (world-Moves (calls_made request) s s' refl refl refl)
            (λ url.
              quiet-then (calls_made request) 0 s s' _ (world-Moves 0 s s' refl refl refl)
                (post_backend-Moves (record { url = url; request = request; credentials = a }) s')))

  pub post_backend_cancel-Moves :
      (server id : String) (owner : Option String) (s : DispatchState W)
      → Moves 0 0 s (post_backend_cancel b server id owner s)
  unfolding post_backend_cancel
  post_backend_cancel-Moves server id owner s =
      let P : DispatchState W → Type 0 = λ end. Moves 0 0 s end in
      let s' = record s { world = (b.ensure_connected server owner s.world).1 } in
      let stay = world-Moves 0 s s' refl refl refl in
      try_both P (b.ensure_connected server owner s.world).0 _ _ (λ e _. stay)
        (λ c _. option_both P c.http_url _ _ stay (λ url.
          if_both P (not c.has_client) s' _ stay
            (Moves-then 0 0 0 0 s s' _ stay (send_request-Moves c (tasks_cancel id) s'))))

  reject-Moves :
      (ctx : CallContext) (target : Target) (task : BackendTask) (text : String)
      (s : DispatchState W)
      → Moves 0 1 s (reject_backend_task b ctx target task text s).1
  unfolding reject_backend_task
  reject-Moves ctx target task text s =
      let fields = record (about target.entry (some (message text))) {
        backend_task_id = some task.task_id;
      } in
      Moves-then 0 1 0 0 s (emit ctx fields s) _ (emit-Moves ctx fields s)
        (post_backend_cancel-Moves target.entry.server task.task_id none (emit ctx fields s))

  task_for-Moves :
      (principal : AgentPrincipal) (entry : CatalogTool) (task : BackendTask)
      (existing : Option String) (s : DispatchState W)
      → Moves 0 0 s (task_for b principal entry task existing s).1
  unfolding task_for TaskSteps.run_op
  task_for-Moves principal entry task (some id) s = world-Moves 0 s s refl refl refl
  task_for-Moves principal entry task none s =
      let (id, w) = b.new_id s.world in
      let s' = record s { world = w } in
      let P : Try String × DispatchState W → Type 0 = λ end. Moves 0 0 s end.1 in
      let made =
        Moves-then 0 0 0 0 s s' _ (world-Moves 0 s s' refl refl refl)
          (task-Moves (TaskSteps.create id (reminted b principal entry task) (b.now w)) s') in
      option_both P
        (create_working_task id (reminted b principal entry task) (b.now w) s.gate.tasks).0 _ _ made
        (λ t. made)

  -- The only exception of the task that the gateway makes is the database's.
  pub task_for-throws :
      (principal : AgentPrincipal) (entry : CatalogTool) (task : BackendTask)
      (existing : Option String) (s : DispatchState W) (e : Failure)
      → (task_for b principal entry task existing s).0 ≡ threw e
      → e ≡ store_failed
  unfolding task_for
  task_for-throws principal entry task (some id) s e h = cc
  task_for-throws principal entry task none s e h = ground (arith, h)

  attach-Ends :
      (ctx : CallContext) (target : Target) (task : BackendTask) (id : String) (s : DispatchState W)
      → Ends {A = CallResult} 0 s (
          let (stored, tasks) =
            attach_backend_origin id (origin_of b target.entry task) (b.now s.world) s.gate.tasks in
          let s' = record s { gate = record s.gate { tasks = tasks } } in
          elim stored [
            | none ↦
                let (r, s'') =
                  reject_backend_task b ctx target task "Failed to persist backend-originated task"
                    s' in
                (returned r, s'')
            | some t ↦ (
              returned (task_result t),
              emit ctx
                  (record (about target.entry none) {
                    task_id = some t.task_id;
                    backend_task_id = some task.task_id;
                  })
                  s',
            )
          ])
  unfolding TaskSteps.run_op
  attach-Ends ctx target task id s =
      let op = TaskSteps.attach id (origin_of b target.entry task) (b.now s.world) in
      let s' = record s { gate = record s.gate { tasks = TaskSteps.run_op op s.gate.tasks } } in
      let P : Try CallResult × DispatchState W → Type 0 = λ end. Ends 0 s end in
      option_both P
        (attach_backend_origin id (origin_of b target.entry task) (b.now s.world) s.gate.tasks).0 _
        _ (Ends-after 0 0 s s' _ (task-Moves op s) (inl (reject-Moves ctx target task _ s')))
        (λ t. Ends-after 0 0 s s' _ (task-Moves op s) (inl (emit-Moves ctx _ s')))

  pub adopt-Ends :
      (ctx : CallContext) (target : Target) (task : BackendTask) (options : ProxyOptions)
      (s : DispatchState W)
      → Ends 0 s (adopt_backend_task b ctx target task options s)
  unfolding adopt_backend_task
  adopt-Ends ctx target task options s =
      let P : Try CallResult × DispatchState W → Type 0 = λ end. Ends 0 s end in
      if_both P _ _ _ (inl (reject-Moves ctx target task _ s)) (
        option_both P ctx.principal _ _ (inl (reject-Moves ctx target task _ s)) (λ principal.
          let s' = (task_for b principal target.entry task options.existing_task_id s).1 in
          let made = task_for-Moves principal target.entry task options.existing_task_id s in
          try_both P (task_for b principal target.entry task options.existing_task_id s).0 _ _
            (λ e h. inr (
              ap threw (task_for-throws principal target.entry task options.existing_task_id s e h),
              made,
            ))
            (λ id _. Ends-after 0 0 s s' _ made (attach-Ends ctx target task id s'))))
