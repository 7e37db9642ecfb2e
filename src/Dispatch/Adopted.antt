-- ===== src/Dispatch/Adopted.antt =====
-- What becomes of a task that a backend answers a call with (adoptBackendTask of
-- apps/torii/src/dispatch/tool-dispatch.service.ts).
use keidai.Common.{
  ℕ, String, List, [], ◌∷◌, ◌++◌, true, eq_iff, ◌≡◌, refl, sym, ap, ◌∙◌, subst, ◌⊎◌, inl, inr,
  false, none, some, arith, Option-cases, Bool-cases,
}
use keidai.Tasks.Inputs.{Payload}
use keidai.Tasks.{
  Table, StoredMcpTask, BackendOrigin, get_record, save, overlay, attached, attach_backend_origin,
  is_mcp_task_terminal_status,
}
use keidai.Tasks.Laws.{get_record-save, get_record-task_id}
use keidai.Dispatch.Classify.{BackendTask, without_capability_message}
use keidai.Dispatch.{
  Connection, Post, tasks_cancel, Try, returned, threw, store_failed, Backends, DispatchState,
  CallContext, CallResult, refused_result, task_result, emit,
}
use keidai.Dispatch.Backend.{
  Target, ProxyOptions, post_backend, send_request, post_backend_cancel, reject_backend_task,
  task_for, adopt_backend_task, origin_of,
}
use keidai.Dispatch.Sent.{try_both, if_both, option_both, option_eq, task_for-throws}

-- The server of a backend can be reached, at a URL and with credentials.
pub record IsReachable {W : Type 0} (b : Backends W) (server : String) (c : Connection)
    (url : String) (credentials : Payload) : Type 0 where
  pub connects : (w : W) → (b.ensure_connected server none w).0 ≡ returned c
  pub has_url : c.http_url ≡ some url
  pub has_client : c.has_client ≡ true
  pub resolves : (w : W) → (b.resolve c w).0 ≡ returned credentials

cancel-posted :
    {W : Type 0} (b : Backends W) (server : String) (c : Connection) (url : String)
    (credentials : Payload) (id : String) (s : DispatchState W)
    → IsReachable b server c url credentials
    → (post_backend_cancel b server id none s).posts
      ≡ s.posts ++ record { url = url; request = tasks_cancel id; credentials = credentials } ∷ []
unfolding post_backend_cancel send_request post_backend
cancel-posted b server c url credentials id s h = ground (
  arith,
  h.connects s.world,
  h.has_url,
  h.has_client,
  h.resolves (b.ensure_connected server none s.world).1,
)

-- The task that an origin is attached to is stored with it, and is not finished.
attach-stored :
    (id : String) (origin : BackendOrigin) (now : ℕ) (table : Table) (t : StoredMcpTask)
    → (attach_backend_origin id origin now table).0 ≡ some t
    → (get_record t.task_id (attach_backend_origin id origin now table).1 ≡ some t)
      × (t.backend_server ≡ some origin.server)
      × (t.backend_task_id ≡ some origin.backend_task_id)
      × (is_mcp_task_terminal_status t.status ≡ false)
unfolding attach_backend_origin overlay
attach-stored id origin now table t e = elim (Option-cases (get_record id table)) [
  | inl n ↦ absurd (ground (arith, n, e))
  | inr (old, found) ↦ elim (Bool-cases (is_mcp_task_terminal_status old.status)) [
    | inl d ↦ absurd (ground (arith, found, d, e))
    | inr d ↦
        let same_id = get_record-task_id id table old found in
        let next = attached origin now old in
        let is_next : next ≡ t = ground (arith, found, d, e) in
        let stored : (attach_backend_origin id origin now table).1 ≡ save next table =
          ground (arith, found, d) in
        let seen : get_record old.task_id (save next table) ≡ some next = ground (
          arith,
          get_record-save old.task_id next table,
          subst (λ i. get_record i table ≡ some old) (sym same_id) found,
          (eq_iff old.task_id old.task_id).1 refl,
        ) in
        subst
          (λ x.
            (get_record x.task_id (attach_backend_origin id origin now table).1 ≡ some x)
            × (x.backend_server ≡ some origin.server)
            × (x.backend_task_id ≡ some origin.backend_task_id)
            × (is_mcp_task_terminal_status x.status ≡ false))
          is_next (ap (get_record old.task_id) stored ∙ seen, refl, refl, d)
  ]
]

module _ {W : Type 0} (b : Backends W) (ctx : CallContext) (target : Target) (task : BackendTask)
    (c : Connection) (url : String) (credentials : Payload) where
  -- The call hands out a stored task that stands for the backend's.
  abbrev pub IsHanded : Try CallResult × DispatchState W → Type 0
  IsHanded end =
      (t : StoredMcpTask) × (end.0 ≡ returned (task_result t))
      × (get_record t.task_id end.1.gate.tasks ≡ some t)
      × (t.backend_server ≡ some target.entry.server)
      × (t.backend_task_id ≡ some task.task_id)
      × (is_mcp_task_terminal_status t.status ≡ false)

  -- The call refuses the backend's task, and the last request that it sent is the cancel of it.
  abbrev pub IsCancelled : Try CallResult × DispatchState W → Type 0
  IsCancelled end =
      (text : String) × (sent : List Post) × (end.0 ≡ returned (refused_result text))
      × (end.1.posts
          ≡ sent
            ++ record { url = url; request = tasks_cancel task.task_id; credentials = credentials }
              ∷ [])

  abbrev IsSettled : Try CallResult × DispatchState W → Type 0
  IsSettled end = IsHanded end ⊎ IsCancelled end ⊎ (end.0 ≡ threw store_failed)

  refused :
      (text : String) (s : DispatchState W)
      → IsReachable b target.entry.server c url credentials
      → IsCancelled (
        returned (reject_backend_task b ctx target task text s).0,
        (reject_backend_task b ctx target task text s).1,
      )
  unfolding reject_backend_task emit
  refused text s reachable = (
    text,
    s.posts,
    refl,
    cancel-posted b target.entry.server c url credentials task.task_id _ reachable,
  )

  -- A task that a backend answers a call with, where the backend's server can be reached: it is handed
  -- to the agent as a stored, unfinished task that names the backend and its task, or it is refused and
  -- the last request sent is its cancel, to the backend, or the database throws.
  pub adopt_backend_task-settled :
      (options : ProxyOptions) (s : DispatchState W)
      → IsReachable b target.entry.server c url credentials
      → let end = adopt_backend_task b ctx target task options s in
        IsHanded end ⊎ IsCancelled end ⊎ (end.0 ≡ threw store_failed)
  unfolding adopt_backend_task emit
  adopt_backend_task-settled options s reachable =
      if_both IsSettled _ _ _ (inr (inl (refused without_capability_message s reachable))) (
        option_both IsSettled ctx.principal _ _ (inr (inl (refused _ s reachable))) (λ principal.
          let s' = (task_for b principal target.entry task options.existing_task_id s).1 in
          try_both IsSettled (task_for b principal target.entry task options.existing_task_id s).0 _
            _
            (λ e h. inr (
              inr (
                ap threw
                  (task_for-throws b principal target.entry task options.existing_task_id s e h))))
            (λ id _.
              let origin = origin_of b target.entry task in
              let stored = attach_backend_origin id origin (b.now s'.world) s'.gate.tasks in
              option_eq IsSettled stored.0 _ _ (inr (inl (refused _ _ reachable))) (λ t e.
                let (seen, server, backend_id, open_still) =
                  attach-stored id origin (b.now s'.world) s'.gate.tasks t e in
                inl (t, refl, seen, server, backend_id, open_still)))))
