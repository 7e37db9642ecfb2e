-- ===== src/Run/Loop/Returns.antt =====
-- The task loop comes back: the fuel that is enough for it.
use keidai.Common.{
  ℕ, zero, suc, ◌≤◌, ◌<◌, ◌+◌, String, ◌≡◌, refl, sym, subst, inl, inr, true, false, Option, none,
  some, List, [], ◌∷◌, arith, if◌then◌else◌, Bool-cases, Option-cases,
}
use keidai.Run.{ModelToolCall}
use keidai.Run.Assessment.{ModelStep}
use keidai.Run.Pending.{find_unanswered_tool_calls}
use keidai.Run.Loop.{
  Answer, returns, throws, ToolDispatchResult, ApprovalWaitContext, TaskLoopDeps, TaskLoopResult,
  State, and_then, refuse_denied, wait_for_parked_result, after_wait, live_wait, await_approval,
  resolve_tool_result, Turn, dispatch_call, pause_active_clock, drain_pending_user_messages,
  checkpoint,
}
use keidai.Run.Loop.Rounds.{
  TaskLimits, TaskLoopStart, is_within, go_on, dispatch_rest, dispatch_step, after_model,
  is_timed_out, round, run_rounds, conclude, first_round, after_parked, resume_call, resume_parked,
  initial_state, run_task_loop, take_step,
}
use keidai.Run.Loop.Proper.{both, unless, answer-cases}

abbrev pub IsReturned : {A : Type 0} → Option A → Type 0
IsReturned none = ⊥
IsReturned (some a) = Unit

IsReturned-then :
    {A B : Type 0} (f : A → Option B) (o : Option A)
    → IsReturned o
    → ((a : A) → IsReturned (f a))
    → IsReturned (and_then o f)
IsReturned-then f none h k = h
IsReturned-then f (some a) h k = k a

-- The waiter does as it is asked: when it may hibernate, it does not come back with an answer of
-- another kind, or it throws.
abbrev pub IsHibernating : {W : Type 0} → TaskLoopDeps W → Type 0
IsHibernating {W} deps =
    (wait : String → ApprovalWaitContext → ModelToolCall → W → Answer ToolDispatchResult × W)
    (id : String) (context : ApprovalWaitContext) (call : ModelToolCall) (w : W)
    (result : ToolDispatchResult)
    → deps.wait_for_approval ≡ some wait
    → context.hibernate ≡ true
    → (wait id context call w).0 ≡ returns result
    → result.hibernated ≡ true

refuse_denied-returns :
    (answer : Answer ToolDispatchResult) (result : ToolDispatchResult)
    → refuse_denied answer ≡ returns result
    → answer ≡ returns result
refuse_denied-returns (throws error) result e = cc
refuse_denied-returns (returns x) result e = elim (Bool-cases x.policy_denied) [
  | inl denied ↦ absurd (ground (arith, e, denied))
  | inr free ↦ ground (arith, e, free)
]

module _ (W : Type 0) (deps : TaskLoopDeps W) (hibernating : IsHibernating deps) (parks : ℕ) where
  wait-hibernated :
      (call : ModelToolCall) (id : String) (context : ApprovalWaitContext) (s : State W)
      (result : ToolDispatchResult)
      → context.hibernate ≡ true
      → (wait_for_parked_result W deps call id context s).0 ≡ returns result
      → result.hibernated ≡ true
  unfolding wait_for_parked_result
  wait-hibernated call id context s result h e = elim (Option-cases deps.wait_for_approval) [
    | inl missing ↦ absurd (ground (arith, e, missing))
    | inr (wait, there) ↦
        let s' = checkpoint W deps (pause_active_clock W deps s) in
        let answer = (wait id context call s'.world).0 in
        hibernating wait id context call s'.world result there h
          (refuse_denied-returns answer result (ground (arith, e, there)))
  ]

  after_wait-IsReturned :
      (again : ToolDispatchResult → State W → Option (Answer ToolDispatchResult × State W))
      (t : Answer ToolDispatchResult × State W)
      → ((result : ToolDispatchResult) → t.0 ≡ returns result → result.hibernated ≡ true)
      → IsReturned (after_wait W deps again t)
  after_wait-IsReturned again (throws error, s) h = tt
  after_wait-IsReturned again (returns next, s) h =
      subst (λ b. IsReturned (if b then some (returns next, s) else again next s))
        (sym (h next refl)) tt

  await_approval-IsReturned :
      (call : ModelToolCall) (result : ToolDispatchResult) (s : State W)
      → IsReturned (await_approval W deps (suc parks) call result s)
  unfolding await_approval
  await_approval-IsReturned call result s = elim (Option-cases result.approval_required) [
    | inl e ↦
        subst IsReturned
          (sym {a = await_approval W deps (suc parks) call result s} {b = some (returns result, s)}
            (ground (arith, e)))
          tt
    | inr (required, e) ↦
        let waited =
          wait_for_parked_result W deps call required.approval_id (live_wait W deps required) s in
        let later = after_wait W deps (await_approval W deps parks call) waited in
        subst IsReturned
          (sym {a = await_approval W deps (suc parks) call result s}
            {b = if deps.stop_requested s.world then some (returns result, s) else later}
            (ground (arith, e)))
          (both IsReturned (deps.stop_requested s.world) tt (
            after_wait-IsReturned (await_approval W deps parks call) waited (λ next n.
              wait-hibernated call required.approval_id (live_wait W deps required) s next refl n)))
  ]

  resolve-IsReturned :
      (call : ModelToolCall) (s : State W)
      → IsReturned (resolve_tool_result W deps (suc parks) call s)
  unfolding resolve_tool_result
  resolve-IsReturned call s =
      let s' = record s { world = (deps.dispatch_tool_call call s.world).1 } in
      elim (answer-cases (deps.dispatch_tool_call call s.world).0) [
        | inl (error, e) ↦
            subst IsReturned
              (sym {a = resolve_tool_result W deps (suc parks) call s} {b = some (throws error, s')}
                (ground (arith, e)))
              tt
        | inr (result, e) ↦
            subst IsReturned
              (sym {a = resolve_tool_result W deps (suc parks) call s}
                {b = await_approval W deps (suc parks) call result s'} (ground (arith, e)))
              (await_approval-IsReturned call result s')
      ]

  dispatch_call-IsReturned :
      (call : ModelToolCall) (iterations : ℕ) (s : State W)
      → IsReturned (dispatch_call W deps (suc parks) call iterations s)
  unfolding dispatch_call
  dispatch_call-IsReturned call iterations s =
      IsReturned-then _ (resolve_tool_result W deps (suc parks) call s) (resolve-IsReturned call s)
        (λ a. tt)

  go_on-IsReturned :
      (next : State W → Option (Turn W deps)) (turn : Turn W deps)
      → ((s : State W) → IsReturned (next s))
      → IsReturned (go_on W deps (suc parks) next turn)
  go_on-IsReturned next (some result, s) h = tt
  go_on-IsReturned next (none, s) h = h s

  dispatch_rest-IsReturned :
      (calls : List ModelToolCall) (iterations : ℕ) (s : State W)
      → IsReturned (dispatch_rest W deps (suc parks) calls iterations s)
  unfolding dispatch_rest
  dispatch_rest-IsReturned [] iterations s = tt
  dispatch_rest-IsReturned (call ∷ calls) iterations s =
      IsReturned-then _ (dispatch_call W deps (suc parks) call iterations s)
        (dispatch_call-IsReturned call iterations s)
        (λ turn.
          go_on-IsReturned (dispatch_rest W deps (suc parks) calls iterations) turn
            (λ t. dispatch_rest-IsReturned calls iterations t))

  dispatch_step-IsReturned :
      (calls : List ModelToolCall) (iterations : ℕ) (s : State W)
      → IsReturned (dispatch_step W deps (suc parks) calls iterations s)
  unfolding dispatch_step
  dispatch_step-IsReturned [] iterations s = tt
  dispatch_step-IsReturned (call ∷ calls) iterations s =
      both IsReturned (deps.stop_requested s.world) tt (
        IsReturned-then _ (dispatch_call W deps (suc parks) call iterations s)
          (dispatch_call-IsReturned call iterations s)
          (λ turn.
            go_on-IsReturned (dispatch_step W deps (suc parks) calls iterations) turn
              (λ t. dispatch_step-IsReturned calls iterations t)))

  after_model-IsReturned :
      (answer : Answer ModelStep) (iteration : ℕ) (s : State W)
      → IsReturned (after_model W deps (suc parks) answer iteration s)
  unfolding after_model
  after_model-IsReturned (throws error) iteration s = tt
  after_model-IsReturned (returns step) iteration s =
      let s' = take_step W deps (suc parks) step iteration s in
      both IsReturned (deps.stop_requested s'.world) tt (
        IsReturned-then _ (dispatch_step W deps (suc parks) step.tool_calls iteration s')
          (dispatch_step-IsReturned step.tool_calls iteration s')
          (λ turn. go_on-IsReturned _ turn (λ t. tt)))

  round-IsReturned :
      (limits : TaskLimits) (iteration : ℕ) (s : State W)
      → IsReturned (round W deps (suc parks) limits iteration s)
  unfolding round
  round-IsReturned limits iteration s =
      let (late, s1) = is_timed_out W deps (suc parks) limits.timeout_seconds s in
      let s2 = drain_pending_user_messages W deps false s1 in
      let (answer, w) = deps.call_model s2.history s2.world in
      both (IsReturned {A = Turn W deps}) late tt (
        both (IsReturned {A = Turn W deps}) (deps.stop_requested s1.world) tt
          (after_model-IsReturned answer iteration (record s2 { world = w })))

  conclude-IsReturned :
      (next : State W → Option (TaskLoopResult × State W)) (turn : Turn W deps)
      → ((s : State W) → IsReturned (next s))
      → IsReturned (conclude W deps (suc parks) next turn)
  conclude-IsReturned next (some result, s) h = tt
  conclude-IsReturned next (none, s) h = h s

  run_rounds-IsReturned :
      (limit rounds : ℕ) (limits : TaskLimits) (iteration : ℕ) (s : State W)
      → limits.max_iterations ≡ some limit
      → limit < iteration + rounds
      → IsReturned (run_rounds W deps (suc parks) rounds limits iteration s)
  unfolding run_rounds
  run_rounds-IsReturned limit zero limits iteration s e h =
      unless (IsReturned {A = TaskLoopResult × State W}) (is_within limits.max_iterations iteration)
        none (ground (arith, e, h)) tt
  run_rounds-IsReturned limit (suc rounds) limits iteration s e h =
      both IsReturned (is_within limits.max_iterations iteration)
        (IsReturned-then _ (round W deps (suc parks) limits iteration s)
          (round-IsReturned limits iteration s)
          (λ turn.
            conclude-IsReturned (run_rounds W deps (suc parks) rounds limits (suc iteration)) turn
              (λ t. run_rounds-IsReturned limit rounds limits (suc iteration) t e (omega arith))))
        tt

  after_parked-IsReturned :
      (call : ModelToolCall) (rest : List ModelToolCall) (answer : Answer ToolDispatchResult)
      (s : State W)
      → IsReturned (after_parked W deps (suc parks) call rest answer s)
  unfolding after_parked
  after_parked-IsReturned call rest (throws error) s = tt
  after_parked-IsReturned call rest (returns result) s =
      both IsReturned result.approval_denied tt (dispatch_rest-IsReturned rest _ _)

  resume_call-IsReturned :
      (id : String) (open_calls : List ModelToolCall) (s : State W)
      → IsReturned (resume_call W deps (suc parks) id open_calls s)
  unfolding resume_call
  resume_call-IsReturned id [] s = tt
  resume_call-IsReturned id (call ∷ rest) s = after_parked-IsReturned call rest _ _

  resume_parked-IsReturned :
      (approval : Option String) (s : State W)
      → IsReturned (resume_parked W deps (suc parks) approval s)
  unfolding resume_parked
  resume_parked-IsReturned none s = tt
  resume_parked-IsReturned (some id) s =
      resume_call-IsReturned id (find_unanswered_tool_calls s.history) s

  -- With a limit of iterations, the loop comes back within that many rounds, and one wait for each
  -- parked call is enough, when a waiter that may hibernate does so or throws.
  pub run_task_loop-IsReturned :
      (limit rounds : ℕ) (start : TaskLoopStart) (world : W)
      → start.limits.max_iterations ≡ some limit
      → limit ≤ rounds
      → IsReturned (run_task_loop W deps (suc parks) rounds start world)
  unfolding run_task_loop first_round
  run_task_loop-IsReturned limit rounds start world e h =
      IsReturned-then
        (conclude W deps (suc parks) (first_round W deps (suc parks) rounds start.limits))
        (resume_parked W deps (suc parks) start.resume_parked_approval
          (initial_state W deps (suc parks) start world))
        (resume_parked-IsReturned start.resume_parked_approval
          (initial_state W deps (suc parks) start world))
        (λ turn.
          conclude-IsReturned (first_round W deps (suc parks) rounds start.limits) turn
            (λ s. run_rounds-IsReturned limit rounds start.limits _ _ e (omega arith)))
