-- ===== src/Dispatch/Counted.antt =====
-- What a tool call sends and records (callTool of apps/torii/src/dispatch/tool-dispatch.service.ts).
use keidai.Common.{String, refl, inl, Bool, not, List, arith}
use keidai.Policy.{GroupPolicySnapshot}
use keidai.Tasks.Inputs.{Payload}
use keidai.Dispatch.Classify.{
  Raw, BackendTask, Classified, classify_backend_tool_result, complete_result, task_handle,
  input_required_result, unrecognized,
}
use keidai.Dispatch.{
  Failure, policy_denied_error, tool_not_found, backend_unavailable, linking_required,
  lookup_failed, store_failed, error_message, Try, returned, threw, tools_call, Backends,
  DispatchState, CallContext, CallResult, owner_of, CatalogTool,
}
use keidai.Dispatch.Backend.{
  Target, ProxyOptions, connect, unavailable_backend, resolve_connected_backend, send_request,
  failed_reason,
}
use keidai.Dispatch.Call.{settle_answer, proxy_failed, proxy_call_to_backend, call_backend}
use keidai.Dispatch.Moves.{Moves, Moves-more, quiet-then, world-Moves, emit-Moves, Ends, Ends-after}
use keidai.Dispatch.Sent.{try_both, option_both, if_both, send_request-Moves, adopt-Ends}

classified_both :
    {R : Type 0} (P : R → Type 0) (x : Classified) (c : Payload → Bool → R) (t : BackendTask → R)
    (i : R) (u : String → R)
    → ((body : Payload) (is_error : Bool) → P (c body is_error))
    → ((task : BackendTask) → P (t task))
    → P i
    → ((text : String) → P (u text))
    → P (elim x [
      | complete_result body is_error ↦ c body is_error
      | task_handle task ↦ t task
      | input_required_result ↦ i
      | unrecognized text ↦ u text
    ])
classified_both P (complete_result body is_error) c t i u hc ht hi hu = hc body is_error
classified_both P (task_handle task) c t i u hc ht hi hu = ht task
classified_both P input_required_result c t i u hc ht hi hu = hi
classified_both P (unrecognized text) c t i u hc ht hi hu = hu text

module _ {W : Type 0} (b : Backends W) where
  -- With a backend found nothing is recorded yet; a failure to find one is recorded.
  abbrev Resolves : DispatchState W → Try Target × DispatchState W → Type 0
  Resolves s (returned t, s') = Moves 0 0 s s'
  Resolves s (threw e, s') = Moves 0 1 s s'

  unavailable-Resolves :
      (ctx : CallContext) (entry : CatalogTool) (reason : String) (s s' : DispatchState W)
      → Moves 0 0 s s'
      → Resolves s (unavailable_backend b ctx entry reason s')
  unfolding unavailable_backend
  unavailable-Resolves ctx entry reason s s' h = quiet-then 0 1 s s' _ h (emit-Moves ctx _ s')

  resolve-Resolves :
      (ctx : CallContext) (s : DispatchState W) → Resolves s (resolve_connected_backend b ctx s)
  unfolding resolve_connected_backend
  resolve-Resolves ctx s =
      let P : Try Target × DispatchState W → Type 0 = Resolves s in
      option_both P (b.find_tool ctx.name s.world) _ _ (emit-Moves ctx _ s) (λ entry.
        let s' = record s { world = (connect b entry.server (owner_of ctx.principal) s.world).1 } in
        let stay = world-Moves 0 s s' refl refl refl in
        try_both P (connect b entry.server (owner_of ctx.principal) s.world).0 _ _
          (λ e _. unavailable-Resolves ctx entry (b.text_of e) s s' stay)
          (λ c _.
            if_both P c.is_failed _ _ (unavailable-Resolves ctx entry (failed_reason c) s s' stay) (
              if_both P (not c.has_client) _ _
                (unavailable-Resolves ctx entry "not connected" s s' stay) stay)))

  after-resolve :
      (x : Try Target) (s s' : DispatchState W) (k : Target → Try CallResult × DispatchState W)
      → Resolves s (x, s')
      → ((t : Target) → Ends 1 s' (k t))
      → Ends {A = CallResult} 1 s (elim x [ threw e ↦ (threw e, s') | returned t ↦ k t ])
  after-resolve (threw e) s s' k h g = inl (Moves-more 0 1 1 s s' (omega arith) h)
  after-resolve (returned t) s s' k h g = Ends-after 0 1 s s' (k t) h (g t)

  settle-Ends :
      (ctx : CallContext) (target : Target) (options : ProxyOptions) (raw : Raw)
      (s : DispatchState W)
      → Ends 0 s (settle_answer b ctx target options raw s)
  unfolding settle_answer
  settle-Ends ctx target options raw s =
      let P : Try CallResult × DispatchState W → Type 0 = λ end. Ends 0 s end in
      classified_both P (classify_backend_tool_result raw) _ _ _ _
        (λ body is_error. inl (emit-Moves ctx _ s)) (λ task. adopt-Ends b ctx target task options s)
        (inl (emit-Moves ctx _ s)) (λ text. inl (emit-Moves ctx _ s))

  failed-Ends :
      (ctx : CallContext) (target : Target) (e : Failure) (s : DispatchState W)
      → Ends 0 s (proxy_failed b ctx target e s)
  unfolding proxy_failed
  failed-Ends ctx target (linking_required text) s = inl (emit-Moves ctx _ s)
  failed-Ends ctx target (policy_denied_error x) s = inl (emit-Moves ctx _ s)
  failed-Ends ctx target (tool_not_found x) s = inl (emit-Moves ctx _ s)
  failed-Ends ctx target (backend_unavailable x y) s = inl (emit-Moves ctx _ s)
  failed-Ends ctx target (lookup_failed x) s = inl (emit-Moves ctx _ s)
  failed-Ends ctx target store_failed s = inl (emit-Moves ctx _ s)
  failed-Ends ctx target (error_message x) s = inl (emit-Moves ctx _ s)

  proxy-Ends :
      (ctx : CallContext) (target : Target) (options : ProxyOptions) (s : DispatchState W)
      → Ends 1 s (proxy_call_to_backend b ctx target options s)
  unfolding proxy_call_to_backend
  proxy-Ends ctx target options s =
      let P : Try CallResult × DispatchState W → Type 0 = λ end. Ends 1 s end in
      let request = tools_call target.entry.bare_name ctx.upstream_args in
      let s' = (send_request b target.connection request s).1 in
      let sent = send_request-Moves b target.connection request s in
      try_both P (send_request b target.connection request s).0 _ _
        (λ e _. Ends-after 1 0 s s' _ sent (failed-Ends ctx target e s'))
        (λ raw _. Ends-after 1 0 s s' _ sent (settle-Ends ctx target options raw s'))

  module _ (groups : List GroupPolicySnapshot) (hash : Payload → String) where
    pub call_backend-Ends :
        (ctx : CallContext) (options : ProxyOptions) (s : DispatchState W)
        → Ends 1 s (call_backend b groups hash ctx options s)
    unfolding call_backend
    call_backend-Ends ctx options s =
        let end = resolve_connected_backend b ctx s in
        after-resolve end.0 s end.1 _ (resolve-Resolves ctx s) (λ t. proxy-Ends ctx t options end.1)
