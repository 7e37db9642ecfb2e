-- ===== src/Run/Loop/Results.antt =====
-- Every result of the task loop: how many iterations it reports, and what a stop leaves behind.
use keidai.Common.{
  ℕ, zero, suc, String, ◌≡◌, refl, sym, ap, ◌∙◌, subst, inl, inr, Bool, true, false, Option, none,
  some, List, [], ◌∷◌, arith, if◌then◌else◌, All, Option-cases,
}
use keidai.Run.{ModelToolCall, ConversationEntry}
use keidai.Run.Pending.{find_unanswered_tool_calls}
use keidai.Run.Assessment.{iteration_exhausted, timeout, ModelStep, step_outcome}
use keidai.Run.Assessment.Laws.{not-step_outcome-stopped}
use keidai.Run.Loop.{
  Answer, returns, throws, ToolDispatchResult, TaskLoopDeps, TaskLoopResult, State,
  drain_pending_user_messages, terminate, wait_for_parked_result, checkpoint, Turn, ends,
  dispatch_call,
}
use keidai.Run.Loop.Rounds.{
  TaskLimits, TaskLoopStart, is_within, go_on, dispatch_rest, dispatch_step, end_step, after_model,
  is_timed_out, round, conclude, first_round, take_step, run_rounds, after_parked, resume_call,
  plain_wait, resume_parked, initial_state, run_task_loop,
}
use keidai.Run.Pending.Users.{IsUser}
use keidai.Run.Loop.Proper.{
  Holds, Holds-then, both, IsProper, Post, terminate-IsProper, stop_now-IsProper, wait-iterations,
  dispatch_call-Post,
}

when :
    {A : Type 0} (P : A → Type 0) (b : Bool) {x y : A}
    → (b ≡ true → P x)
    → P y
    → P (if b then x else y)
when P true h k = h refl
when P false h k = k

module _ (W : Type 0) (deps : TaskLoopDeps W)
    (users : (w : W) → All IsUser (deps.drain_pending_user_messages w).0) (parks : ℕ)
    (fits : ℕ → Type 0) where
  go_on-Post :
      (used : ℕ) (next : State W → Option (Turn W deps)) (turn : Turn W deps)
      → Post W deps users fits used turn
      → ((s : State W) → s.iterations_used ≡ used → Holds (Post W deps users fits used) (next s))
      → Holds (Post W deps users fits used) (go_on W deps parks next turn)
  go_on-Post used next (some result, s) h k = h
  go_on-Post used next (none, s) h k = k s h

  dispatch_rest-Post :
      (used iterations : ℕ) (calls : List ModelToolCall) (s : State W)
      → fits iterations
      → s.iterations_used ≡ used
      → Holds (Post W deps users fits used) (dispatch_rest W deps parks calls iterations s)
  unfolding dispatch_rest
  dispatch_rest-Post used iterations [] s h k = k
  dispatch_rest-Post used iterations (call ∷ calls) s h k =
      Holds-then (Post W deps users fits used) (Post W deps users fits used)
        (go_on W deps parks (dispatch_rest W deps parks calls iterations))
        (dispatch_call W deps parks call iterations s)
        (dispatch_call-Post W deps users parks fits used iterations call s h k)
        (λ turn p.
          go_on-Post used (dispatch_rest W deps parks calls iterations) turn p
            (λ t l. dispatch_rest-Post used iterations calls t h l))

  dispatch_step-Post :
      (used iterations : ℕ) (calls : List ModelToolCall) (s : State W)
      → fits iterations
      → s.iterations_used ≡ used
      → Holds (Post W deps users fits used) (dispatch_step W deps parks calls iterations s)
  unfolding dispatch_step
  dispatch_step-Post used iterations [] s h k = k
  dispatch_step-Post used iterations (call ∷ calls) s h k =
      both (Holds (Post W deps users fits used)) (deps.stop_requested s.world)
        (stop_now-IsProper W deps users fits iterations s h)
        (Holds-then (Post W deps users fits used) (Post W deps users fits used)
          (go_on W deps parks (dispatch_step W deps parks calls iterations))
          (dispatch_call W deps parks call iterations s)
          (dispatch_call-Post W deps users parks fits used iterations call s h k)
          (λ turn p.
            go_on-Post used (dispatch_step W deps parks calls iterations) turn p
              (λ t l. dispatch_step-Post used iterations calls t h l)))

  end_step-Post :
      (used iteration : ℕ) (step : ModelStep) (s : State W)
      → fits iteration
      → s.iterations_used ≡ used
      → Post W deps users fits used (end_step W deps parks step iteration s)
  unfolding end_step
  end_step-Post used iteration step s h k = elim (Option-cases (step_outcome step)) [
    | inl e ↦
        subst (Post W deps users fits used)
          (sym {a = end_step W deps parks step iteration s} {b = (none, checkpoint W deps s)}
            (ground (arith, e)))
          k
    | inr (outcome, e) ↦
        subst (Post W deps users fits used)
          (sym {a = end_step W deps parks step iteration s}
            {b = ends W deps (terminate W deps outcome iteration s)} (ground (arith, e)))
          (terminate-IsProper W deps users fits iteration outcome s
            (λ o. not-step_outcome-stopped step (e ∙ ap (λ x. some x) o)) h)
  ]

  after_model-Post :
      (iteration : ℕ) (answer : Answer ModelStep) (s : State W)
      → fits iteration
      → Holds (Post W deps users fits iteration) (after_model W deps parks answer iteration s)
  unfolding after_model
  after_model-Post iteration (throws error) s h =
      terminate-IsProper W deps users fits iteration _ _ (λ e. cc) h
  after_model-Post iteration (returns step) s h =
      let s' = take_step W deps parks step iteration s in
      both (Holds (Post W deps users fits iteration)) (deps.stop_requested s'.world)
        (stop_now-IsProper W deps users fits iteration s' h)
        (Holds-then (Post W deps users fits iteration) (Post W deps users fits iteration)
          (go_on W deps parks (λ t. some (end_step W deps parks step iteration t)))
          (dispatch_step W deps parks step.tool_calls iteration s')
          (dispatch_step-Post iteration iteration step.tool_calls s' h refl)
          (λ turn p.
            go_on-Post iteration (λ t. some (end_step W deps parks step iteration t)) turn p
              (λ t l. end_step-Post iteration iteration step t h l)))

  timed_out-iterations :
      (limit : Option ℕ) (s : State W)
      → (is_timed_out W deps parks limit s).1.iterations_used ≡ s.iterations_used
  unfolding is_timed_out
  timed_out-iterations none s = refl
  timed_out-iterations (some seconds) s = refl

  round-Post :
      (limits : TaskLimits) (iteration : ℕ) (s : State W)
      → fits s.iterations_used
      → fits iteration
      → Holds (Post W deps users fits iteration) (round W deps parks limits iteration s)
  unfolding round
  round-Post limits iteration s f h =
      let (late, s1) = is_timed_out W deps parks limits.timeout_seconds s in
      let s2 = drain_pending_user_messages W deps false s1 in
      let (answer, w) = deps.call_model s2.history s2.world in
      let before = subst fits (sym (timed_out-iterations limits.timeout_seconds s)) f in
      both (Holds (Post W deps users fits iteration)) late
        (terminate-IsProper W deps users fits s1.iterations_used timeout s1 (λ e. cc) before)
        (both (Holds (Post W deps users fits iteration)) (deps.stop_requested s1.world)
          (stop_now-IsProper W deps users fits s1.iterations_used s1 before)
          (after_model-Post iteration answer (record s2 { world = w }) h))

  abbrev pub Ended : TaskLoopResult × State W → Type 0
  Ended r = IsProper fits r.0

  conclude-Ended :
      (used : ℕ) (next : State W → Option (TaskLoopResult × State W)) (turn : Turn W deps)
      → Post W deps users fits used turn
      → ((s : State W) → s.iterations_used ≡ used → Holds Ended (next s))
      → Holds Ended (conclude W deps parks next turn)
  conclude-Ended used next (some result, s) h k = h
  conclude-Ended used next (none, s) h k = k s h

  run_rounds-Ended :
      (rounds : ℕ) (limits : TaskLimits) (iteration : ℕ) (s : State W)
      → ((i : ℕ) → is_within limits.max_iterations i ≡ true → fits i)
      → fits s.iterations_used
      → Holds Ended (run_rounds W deps parks rounds limits iteration s)
  unfolding run_rounds
  run_rounds-Ended zero limits iteration s all_fit f =
      both (Holds Ended) (is_within limits.max_iterations iteration) tt
        (terminate-IsProper W deps users fits s.iterations_used iteration_exhausted s (λ e. cc) f)
  run_rounds-Ended (suc rounds) limits iteration s all_fit f =
      when (Holds Ended) (is_within limits.max_iterations iteration)
        (λ w.
          Holds-then (Post W deps users fits iteration) Ended
            (conclude W deps parks (run_rounds W deps parks rounds limits (suc iteration)))
            (round W deps parks limits iteration s)
            (round-Post limits iteration s f (all_fit iteration w))
            (λ turn p.
              conclude-Ended iteration (run_rounds W deps parks rounds limits (suc iteration)) turn
                p
                (λ t k.
                  run_rounds-Ended rounds limits (suc iteration) t all_fit
                    (subst fits (sym k) (all_fit iteration w)))))
        (terminate-IsProper W deps users fits s.iterations_used iteration_exhausted s (λ e. cc) f)

  after_parked-Post :
      (call : ModelToolCall) (rest : List ModelToolCall) (answer : Answer ToolDispatchResult)
      (s : State W)
      → fits s.iterations_used
      → Holds
          (Post W deps users fits s.iterations_used)
          (after_parked W deps parks call rest answer s)
  unfolding after_parked
  after_parked-Post call rest (throws error) s f =
      terminate-IsProper W deps users fits s.iterations_used _ _ (λ e. cc) f
  after_parked-Post call rest (returns result) s f =
      both (Holds (Post W deps users fits s.iterations_used)) result.approval_denied
        (terminate-IsProper W deps users fits s.iterations_used _ _ (λ e. cc) f)
        (dispatch_rest-Post s.iterations_used s.iterations_used rest _ f refl)

  resume_call-Post :
      (id : String) (open_calls : List ModelToolCall) (s : State W)
      → fits s.iterations_used
      → Holds (Post W deps users fits s.iterations_used) (resume_call W deps parks id open_calls s)
  unfolding resume_call
  resume_call-Post id [] s f =
      terminate-IsProper W deps users fits s.iterations_used _ _ (λ e. cc) f
  resume_call-Post id (call ∷ rest) s f =
      let waited = wait_for_parked_result W deps call id (plain_wait) s in
      let kept = wait-iterations W deps users call id (plain_wait) s in
      subst
        (λ n.
          Holds (Post W deps users fits n) (after_parked W deps parks call rest waited.0 waited.1))
        kept (after_parked-Post call rest waited.0 waited.1 (subst fits (sym kept) f))

  resume_parked-Post :
      (approval : Option String) (s : State W)
      → fits s.iterations_used
      → Holds (Post W deps users fits s.iterations_used) (resume_parked W deps parks approval s)
  unfolding resume_parked
  resume_parked-Post none s f = refl
  resume_parked-Post (some id) s f = resume_call-Post id (find_unanswered_tool_calls s.history) s f

  drain-fits :
      (s : State W) (pending : List ConversationEntry)
      → (deps.drain_pending_user_messages s.world).0 ≡ pending
      → fits 0
      → fits s.iterations_used
      → fits (drain_pending_user_messages W deps true s).iterations_used
  unfolding drain_pending_user_messages
  drain-fits s [] e z f = subst fits (ground (arith, e)) f
  drain-fits s (entry ∷ entries) e z f = subst fits (ground (arith, e)) z

  pub run_task_loop-Ended :
      (rounds : ℕ) (start : TaskLoopStart) (world : W)
      → ((i : ℕ) → is_within start.limits.max_iterations i ≡ true → fits i)
      → fits 0
      → fits (initial_state W deps parks start world).iterations_used
      → Holds Ended (run_task_loop W deps parks rounds start world)
  unfolding run_task_loop first_round
  run_task_loop-Ended rounds start world all_fit z f =
      let s0 = initial_state W deps parks start world in
      Holds-then (Post W deps users fits s0.iterations_used) Ended
        (conclude W deps parks (first_round W deps parks rounds start.limits))
        (resume_parked W deps parks start.resume_parked_approval s0)
        (resume_parked-Post start.resume_parked_approval s0 f)
        (λ turn p.
          conclude-Ended s0.iterations_used (first_round W deps parks rounds start.limits) turn p
            (λ s k. run_rounds-Ended rounds start.limits _ _ all_fit (
              drain-fits s (deps.drain_pending_user_messages s.world).0 refl z
                (subst fits (sym k) f))))
