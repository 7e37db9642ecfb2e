-- ===== src/Run/Loop/Rounds.antt =====
-- The rounds of the task loop (`runTaskLoop` of apps/shaiden/src/run/task-loop.ts): a parked call is
-- resumed first; then each round calls the model and dispatches its tool calls.
use Prim.Native.String
use keidai.Common.{
  ℕ, zero, suc, ◌*◌, String, Bool, true, false, Option, none, some, List, [], ◌∷◌, if◌then◌else◌,
  leb,
}
use keidai.Run.{ModelToolCall, ConversationEntry, assistant}
use keidai.Run.Pending.{find_unanswered_tool_calls}
use keidai.Run.Assessment.{
  TerminationOutcome, failed, human_reject, iteration_exhausted, timeout, platform, ModelStep,
  step_outcome,
}
use keidai.Run.Loop.{
  Answer, returns, throws, ToolDispatchResult, ApprovalWaitContext, RunBudget, TaskLoopDeps,
  TaskLoopResult, State, and_then, call_failed, current_active_elapsed, checkpoint, push,
  drain_pending_user_messages, terminate, stop_now, wait_for_parked_result, push_tool_error_result,
  append_tool_result, Turn, ends, dispatch_call,
}

-- packages/shared/src/task.ts; `none` is no limit.
pub record TaskLimits : Type 0 where
  pub max_iterations : Option ℕ
  pub timeout_seconds : Option ℕ

pub record TaskLoopStart : Type 0 where
  pub initial_history : List ConversationEntry
  pub limits : TaskLimits
  pub budget : Option RunBudget
  pub resume_parked_approval : Option String

abbrev pub is_within : Option ℕ → ℕ → Bool
is_within none iteration = true
is_within (some max) iteration = leb iteration max

abbrev pub plain_wait : ApprovalWaitContext
plain_wait = record { step_id = none; poll_interval_ms = none; hibernate = false }

module _ (W : Type 0) (deps : TaskLoopDeps W) (parks : ℕ) where
  -- What follows a turn that did not end the run.
  abbrev pub go_on : (State W → Option (Turn W deps)) → Turn W deps → Option (Turn W deps)
  go_on next (some result, s) = some (some result, s)
  go_on next (none, s) = next s

  -- The calls after a resumed one, which are dispatched without a look at the stop signal.
  unfoldable pub dispatch_rest : List ModelToolCall → ℕ → State W → Option (Turn W deps)
  unfolding dispatch_call
  dispatch_rest [] iterations s = some (none, s)
  dispatch_rest (call ∷ calls) iterations s =
      and_then (dispatch_call W deps parks call iterations s)
        (go_on (dispatch_rest calls iterations))

  -- The calls of a step.
  unfoldable pub dispatch_step : List ModelToolCall → ℕ → State W → Option (Turn W deps)
  unfolding dispatch_call stop_now
  dispatch_step [] iterations s = some (none, s)
  dispatch_step (call ∷ calls) iterations s =
      if deps.stop_requested s.world
      then some (ends W deps (stop_now W deps iterations s))
      else and_then (dispatch_call W deps parks call iterations s)
          (go_on (dispatch_step calls iterations))

  -- After the calls of a step.
  unfoldable pub end_step : ModelStep → ℕ → State W → Turn W deps
  unfolding step_outcome terminate
  end_step step iteration s = elim (step_outcome step) [
    | none ↦ (none, checkpoint W deps s)
    | some outcome ↦ ends W deps (terminate W deps outcome iteration s)
  ]

  abbrev pub model_failed : String → TerminationOutcome
  model_failed error = failed (String.◌++◌ "model call failed: " error) platform

  abbrev pub take_step : ModelStep → ℕ → State W → State W
  take_step step iteration s =
      push W deps (assistant step.text step.tool_calls ∷ [])
        (record s { iterations_used = iteration })

  -- The rest of a round, from the answer of the model.
  unfoldable pub after_model : Answer ModelStep → ℕ → State W → Option (Turn W deps)
  unfolding dispatch_step end_step stop_now terminate
  after_model (throws error) iteration s = some (
      ends W deps (
        terminate W deps (model_failed error) iteration (record s { iterations_used = iteration })))
  after_model (returns step) iteration s =
      let s' = take_step step iteration s in
      if deps.stop_requested s'.world
      then some (ends W deps (stop_now W deps iteration s'))
      else and_then (dispatch_step step.tool_calls iteration s')
          (go_on (λ s''. some (end_step step iteration s'')))

  -- `timeoutMs != null && currentActiveElapsed() >= timeoutMs`
  unfoldable pub is_timed_out : Option ℕ → State W → Bool × State W
  unfolding current_active_elapsed
  is_timed_out none s = (false, s)
  is_timed_out (some seconds) s =
      let (elapsed, w) = current_active_elapsed W deps s in
      (leb (seconds * 1000) elapsed, record s { world = w })

  -- One round, in which `iteration` is within the limit.
  unfoldable pub round : TaskLimits → ℕ → State W → Option (Turn W deps)
  unfolding is_timed_out after_model stop_now terminate drain_pending_user_messages
  round limits iteration s =
      let (late, s1) = is_timed_out limits.timeout_seconds s in
      let s2 = drain_pending_user_messages W deps false s1 in
      let (answer, w) = deps.call_model s2.history s2.world in
      if late
      then some (ends W deps (terminate W deps timeout s1.iterations_used s1))
      else if deps.stop_requested s1.world
      then some (ends W deps (stop_now W deps s1.iterations_used s1))
      else after_model answer iteration (record s2 { world = w })

  -- What follows a turn, up to the end of the run.
  abbrev pub conclude :
      (State W → Option (TaskLoopResult × State W))
      → Turn W deps
      → Option (TaskLoopResult × State W)
  conclude next (some result, s) = some (result, s)
  conclude next (none, s) = next s

  -- The loop; `none` when it takes more than `rounds` rounds.
  unfoldable pub run_rounds : ℕ → TaskLimits → ℕ → State W → Option (TaskLoopResult × State W)
  unfolding round terminate
  run_rounds zero limits iteration s =
      if is_within limits.max_iterations iteration
      then none
      else some (terminate W deps iteration_exhausted s.iterations_used s)
  run_rounds (suc rounds) limits iteration s =
      let next =
        and_then (round limits iteration s) (conclude (run_rounds rounds limits (suc iteration))) in
      if is_within limits.max_iterations iteration
      then next
      else some (terminate W deps iteration_exhausted s.iterations_used s)

  abbrev no_pending_call : String → TerminationOutcome
  no_pending_call approval_id =
      failed
        (String.◌++◌ "parked MCP task "
          (String.◌++◌ approval_id " has no pending tool call in history"))
        platform

  unfoldable pub after_parked :
      ModelToolCall
      → List ModelToolCall
      → Answer ToolDispatchResult
      → State W
      → Option (Turn W deps)
  unfolding dispatch_rest terminate
  after_parked call rest (throws error) s = some (
      ends W deps (
        terminate W deps (call_failed call error) s.iterations_used
          (push_tool_error_result W deps call error s)))
  after_parked call rest (returns result) s =
      let s' = append_tool_result W deps call result s in
      if result.approval_denied
      then some (ends W deps (terminate W deps human_reject s'.iterations_used s'))
      else dispatch_rest rest s'.iterations_used s'

  -- The calls without a result, the first of which is the parked one.
  unfoldable pub resume_call : String → List ModelToolCall → State W → Option (Turn W deps)
  unfolding after_parked wait_for_parked_result terminate
  resume_call approval_id [] s =
      some (ends W deps (terminate W deps (no_pending_call approval_id) s.iterations_used s))
  resume_call approval_id (call ∷ rest) s =
      let (answer, s') = wait_for_parked_result W deps call approval_id plain_wait s in
      after_parked call rest answer s'

  unfoldable pub resume_parked : Option String → State W → Option (Turn W deps)
  unfolding resume_call find_unanswered_tool_calls
  resume_parked none s = some (none, s)
  resume_parked (some approval_id) s =
      resume_call approval_id (find_unanswered_tool_calls s.history) s

  abbrev pub initial_state : TaskLoopStart → W → State W
  initial_state start world =
      let (time, w) = deps.now world in
      record {
        iterations_used = elim start.budget [ none ↦ 0 | some b ↦ b.iterations_used ];
        active_elapsed_ms = elim start.budget [ none ↦ 0 | some b ↦ b.active_elapsed_ms ];
        segment_started_at = time;
        active_clock_paused = false;
        history = start.initial_history;
        world = w;
      }

  -- The loop from its first round.
  unfoldable pub first_round : ℕ → TaskLimits → State W → Option (TaskLoopResult × State W)
  unfolding run_rounds drain_pending_user_messages
  first_round rounds limits s =
      let s' = drain_pending_user_messages W deps true s in
      run_rounds rounds limits (suc s'.iterations_used) s'

  unfoldable pub run_task_loop : ℕ → TaskLoopStart → W → Option (TaskLoopResult × State W)
  unfolding resume_parked first_round
  run_task_loop rounds start world =
      and_then (resume_parked start.resume_parked_approval (initial_state start world))
        (conclude (first_round rounds start.limits))
