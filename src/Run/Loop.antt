-- ===== src/Run/Loop.antt =====
-- The task loop: apps/shaiden/src/run/task-loop.ts, with the types of types/task-loop.ts. What the
-- loop calls (the model, the dispatcher, the waiter, the clock and the callbacks) is a record of
-- functions on a world `W` of their effects; the callbacks return. The loop's variables are `State`.
-- The one loop inside a tool call takes the fuel `parks`; the loop itself is `Run.Loop.Rounds`.
pub mod Rounds
pub mod Proper
pub mod Results
pub mod Outcome
pub mod Returns
pub mod Failed
use Prim.Native.String
use keidai.Common.{
  ℕ, zero, suc, ◌+◌, ◌-◌, String, Bool, true, false, not, Option, none, some, List, [], ◌∷◌, ◌++◌,
  if◌then◌else◌,
}
use keidai.Run.{ModelToolCall, ConversationEntry, user, assistant, tool}
use keidai.Run.Pending.{close_unanswered_tool_calls}
use keidai.Run.Assessment.{TerminationOutcome, stopped, failed, human_reject, platform, ModelStep}

-- A call that returns or throws; an error is its description (`describeError`).
pub data Answer (A : Type 0) : Type 0 where
  returns : A → Answer A
  throws : String → Answer A

pub record ApprovalRequired : Type 0 where
  pub approval_id : String
  pub step_id : Option String
  pub poll_interval_ms : Option ℕ

pub record ToolDispatchResult : Type 0 where
  pub is_error : Bool
  pub text : String
  pub approval_required : Option ApprovalRequired
  pub approval_denied : Bool
  pub policy_denied : Bool
  pub hibernated : Bool

pub record ApprovalWaitContext : Type 0 where
  pub step_id : Option String
  pub poll_interval_ms : Option ℕ
  pub hibernate : Bool

pub record RunBudget : Type 0 where
  pub iterations_used : ℕ
  pub active_elapsed_ms : ℕ

-- A drain that is not configured returns no messages.
pub record TaskLoopDeps (W : Type 0) : Type 0 where
  pub call_model : List ConversationEntry → W → Answer ModelStep × W
  pub dispatch_tool_call : ModelToolCall → W → Answer ToolDispatchResult × W
  pub wait_for_approval :
      Option (String → ApprovalWaitContext → ModelToolCall → W → Answer ToolDispatchResult × W)
  pub now : W → ℕ × W
  pub drain_pending_user_messages : W → List ConversationEntry × W
  pub on_history_changed : List ConversationEntry → W → W
  pub on_budget_changed : RunBudget → W → W
  pub stop_requested : W → Bool

pub data TaskLoopOutcome : Type 0 where
  ended : TerminationOutcome → TaskLoopOutcome
  parked : TaskLoopOutcome

pub record TaskLoopResult : Type 0 where
  pub outcome : TaskLoopOutcome
  pub history : List ConversationEntry
  pub iterations : ℕ

pub record State (W : Type 0) : Type 0 where
  pub iterations_used : ℕ
  pub active_elapsed_ms : ℕ
  pub segment_started_at : ℕ
  pub active_clock_paused : Bool
  pub history : List ConversationEntry
  pub world : W

-- The rest of a computation that may have run out of fuel.
abbrev pub and_then {ℓ μ} : {A : Type ℓ} {B : Type μ} → Option A → (A → Option B) → Option B
and_then none f = none
and_then (some a) f = f a

-- `tool call "${call.toolName}" ${what}`
abbrev about_call : ModelToolCall → String → String
about_call call what =
    String.◌++◌ "tool call \"" (String.◌++◌ call.tool_name (String.◌++◌ "\" " what))

abbrev pub call_failed : ModelToolCall → String → TerminationOutcome
call_failed call error = failed (about_call call (String.◌++◌ "failed: " error)) platform

-- A policy that denies the call after its approval is an error.
abbrev pub refuse_denied : Answer ToolDispatchResult → Answer ToolDispatchResult
refuse_denied (throws error) = throws error
refuse_denied (returns result) =
    if result.policy_denied
    then throws (String.◌++◌ "policy denied after approval resume: " result.text)
    else returns result

module _ (W : Type 0) (deps : TaskLoopDeps W) where
  -- `Math.max(0, now() - segmentStartedAt)` is the subtraction of ℕ.
  unfoldable pub current_active_elapsed : State W → ℕ × W
  current_active_elapsed s =
      let (time, w) = deps.now s.world in
      if s.active_clock_paused
      then (s.active_elapsed_ms, s.world)
      else (s.active_elapsed_ms + (time - s.segment_started_at), w)

  abbrev pub report_budget : State W → State W
  report_budget s =
      let (elapsed, w) = current_active_elapsed s in
      let budget : RunBudget = record {
        iterations_used = s.iterations_used;
        active_elapsed_ms = elapsed;
      } in
      record s { world = deps.on_budget_changed budget w }

  abbrev pub checkpoint : State W → State W
  checkpoint s = report_budget (record s { world = deps.on_history_changed s.history s.world })

  -- `history.push(entry)` of each entry, and a checkpoint.
  abbrev pub push : List ConversationEntry → State W → State W
  push entries s = checkpoint (record s { history = s.history ++ entries })

  unfoldable pub pause_active_clock : State W → State W
  unfolding current_active_elapsed
  pause_active_clock s =
      let (elapsed, w) = current_active_elapsed s in
      if s.active_clock_paused
      then s
      else record s { active_elapsed_ms = elapsed; active_clock_paused = true; world = w }

  unfoldable pub resume_active_clock : State W → State W
  resume_active_clock s =
      let (time, w) = deps.now s.world in
      if s.active_clock_paused
      then record s { segment_started_at = time; active_clock_paused = false; world = w }
      else s

  abbrev restarted : State W → State W
  restarted s =
      let (time, w) = deps.now s.world in
      record s {
        iterations_used = 0;
        active_elapsed_ms = 0;
        segment_started_at = time;
        active_clock_paused = false;
        world = w;
      }

  -- The flag is `options.resetBudget`.
  unfoldable pub drain_pending_user_messages : Bool → State W → State W
  drain_pending_user_messages reset_budget s =
      let (pending, w) = deps.drain_pending_user_messages s.world in
      let s' : State W = record s { world = w } in
      elim pending [
        | [] ↦ s'
        | entry ∷ entries ↦ push (entry ∷ entries) (if reset_budget then restarted s' else s')
      ]

  unfoldable pub terminate : TerminationOutcome → ℕ → State W → TaskLoopResult × State W
  unfolding drain_pending_user_messages
  terminate outcome iterations s =
      let s' = report_budget (drain_pending_user_messages false s) in
      (record { outcome = ended outcome; history = s'.history; iterations = iterations }, s')

  unfoldable pub stop_now : ℕ → State W → TaskLoopResult × State W
  unfolding terminate close_unanswered_tool_calls
  stop_now iterations s =
      terminate stopped iterations
        (checkpoint (record s { history = close_unanswered_tool_calls s.history }))

  unfoldable pub wait_for_parked_result :
      ModelToolCall → String → ApprovalWaitContext → State W → Answer ToolDispatchResult × State W
  unfolding pause_active_clock resume_active_clock
  wait_for_parked_result call approval_id context s = elim deps.wait_for_approval [
    | none ↦ (throws (about_call call "requires approval but no waiter is configured"), s)
    | some wait ↦
        let s' = checkpoint (pause_active_clock s) in
        let (answer, w) = wait approval_id context call s'.world in
        (refuse_denied answer, resume_active_clock (record s' { world = w }))
  ]

  abbrev pub live_wait : ApprovalRequired → ApprovalWaitContext
  live_wait required = record {
    step_id = required.step_id;
    poll_interval_ms = required.poll_interval_ms;
    hibernate = true;
  }

  -- The body of the `while` after the wait; `again` is the loop.
  abbrev pub after_wait :
      (ToolDispatchResult → State W → Option (Answer ToolDispatchResult × State W))
      → Answer ToolDispatchResult × State W
      → Option (Answer ToolDispatchResult × State W)
  after_wait again (throws error, s) = some (throws error, s)
  after_wait again (returns next, s) =
      let rest = again next s in if next.hibernated then some (returns next, s) else rest

  -- `while (result.approvalRequired)`; `none` when the call was parked again more than `parks` times.
  unfoldable pub await_approval :
      ℕ
      → ModelToolCall
      → ToolDispatchResult
      → State W
      → Option (Answer ToolDispatchResult × State W)
  unfolding wait_for_parked_result
  await_approval zero call result s = elim result.approval_required [
    | none ↦ some (returns result, s)
    | some required ↦ if deps.stop_requested s.world then some (returns result, s) else none
  ]
  await_approval (suc parks) call result s = elim result.approval_required [
    | none ↦ some (returns result, s)
    | some required ↦
        let later =
          after_wait (await_approval parks call)
            (wait_for_parked_result call required.approval_id (live_wait required) s) in
        if deps.stop_requested s.world then some (returns result, s) else later
  ]

  unfoldable pub resolve_tool_result :
      ℕ → ModelToolCall → State W → Option (Answer ToolDispatchResult × State W)
  unfolding await_approval
  resolve_tool_result parks call s =
      let (answer, w) = deps.dispatch_tool_call call s.world in
      let s' : State W = record s { world = w } in
      elim answer [
        | throws error ↦ some (throws error, s')
        | returns result ↦ await_approval parks call result s'
      ]

  abbrev pub push_tool_error_result : ModelToolCall → String → State W → State W
  push_tool_error_result call error s =
      push (tool call.tool_call_id call.tool_name error true ∷ []) s

  abbrev pub append_tool_result : ModelToolCall → ToolDispatchResult → State W → State W
  append_tool_result call result s =
      push (tool call.tool_call_id call.tool_name result.text result.is_error ∷ []) s

  -- The end of the run, or that it goes on.
  abbrev pub Turn : Type 0
  Turn = Option TaskLoopResult × State W

  abbrev pub ends : TaskLoopResult × State W → Turn
  ends (result, s) = (some result, s)

  -- `dispatchCall` after the call was resolved.
  unfoldable pub settle_call : ModelToolCall → ℕ → Answer ToolDispatchResult → State W → Turn
  unfolding stop_now terminate
  settle_call call iterations (throws error) s =
      if deps.stop_requested s.world
      then ends (stop_now iterations s)
      else ends
          (terminate (call_failed call error) iterations (push_tool_error_result call error s))
  settle_call call iterations (returns result) s =
      if result.hibernated
      then (some (record { outcome = parked; history = s.history; iterations = iterations }), s)
      else if deps.stop_requested s.world
      then ends (stop_now iterations s)
      else if result.approval_denied
      then ends (terminate human_reject iterations (append_tool_result call result s))
      else (none, append_tool_result call result s)

  unfoldable pub dispatch_call : ℕ → ModelToolCall → ℕ → State W → Option Turn
  unfolding resolve_tool_result settle_call
  dispatch_call parks call iterations s =
      and_then (resolve_tool_result parks call s)
        (λ (answer, s'). some (settle_call call iterations answer s'))
