-- ===== src/Run/Loop/Failed.antt =====
-- What a failed tool call leaves behind in the task loop (`dispatchCall` of
-- apps/shaiden/src/run/task-loop.ts).
use keidai.Common.{
  ℕ, String, str_eq, ◌≡◌, refl, ap, ◌∙◌, inl, inr, Bool, true, false, not, ◌||◌, some, List, [],
  ◌∷◌, ◌++◌, arith, All, Bool-cases, Option-cases, filter, includes,
}
use keidai.Run.{ModelToolCall, ConversationEntry, user, assistant, tool}
use keidai.Run.Pending.{answered_ids, last_calls, find_unanswered_tool_calls}
use keidai.Run.Loop.{
  throws, TaskLoopDeps, TaskLoopResult, State, ended, call_failed, terminate,
  push_tool_error_result, settle_call,
}
use keidai.Run.Pending.Users.{IsUser}
use keidai.Run.Loop.Proper.{terminate-answered}

answered_ids-result :
    (history : List ConversationEntry) (id name output : String) (is_error : Bool)
    → answered_ids (history ++ tool id name output is_error ∷ []) ≡ answered_ids history ++ id ∷ []
unfolding answered_ids
answered_ids-result [] id name output is_error = refl
answered_ids-result (user text ∷ rest) id name output is_error =
    answered_ids-result rest id name output is_error
answered_ids-result (assistant text calls ∷ rest) id name output is_error =
    answered_ids-result rest id name output is_error
answered_ids-result (tool i n o e ∷ rest) id name output is_error =
    ap (λ l. i ∷ l) (answered_ids-result rest id name output is_error)

last_calls-result :
    (history : List ConversationEntry) (id name output : String) (is_error : Bool)
    → last_calls (history ++ tool id name output is_error ∷ []) ≡ last_calls history
unfolding last_calls
last_calls-result [] id name output is_error = refl
last_calls-result (entry ∷ rest) id name output is_error =
    ground (arith, last_calls-result rest id name output is_error)

includes-append_last :
    (x y : String) (xs : List String) → includes (xs ++ y ∷ []) x ≡ (includes xs x || str_eq y x)
includes-append_last x y [] = ground arith
includes-append_last x y (z ∷ xs) = ground (arith, includes-append_last x y xs)

-- The calls with another id.
abbrev pub others_than : String → List ModelToolCall → List ModelToolCall
others_than id calls = filter (λ call. not (str_eq id call.tool_call_id)) calls

filter-answered :
    (done : List String) (id : String) (calls : List ModelToolCall)
    → filter (λ call. not (includes (done ++ id ∷ []) call.tool_call_id)) calls
      ≡ others_than id (filter (λ call. not (includes done call.tool_call_id)) calls)
filter-answered done id [] = refl
filter-answered done id (call ∷ calls) =
    let split = includes-append_last call.tool_call_id id done in
    let rest = filter-answered done id calls in
    elim (Bool-cases (includes done call.tool_call_id)) [
      | inl t ↦ ground (arith, split, t, rest)
      | inr f ↦ elim (Bool-cases (str_eq id call.tool_call_id)) [
        | inl same ↦ ground (arith, split, f, same, rest)
        | inr other ↦ ground (arith, split, f, other, rest)
      ]
    ]

find_unanswered-result :
    (history : List ConversationEntry) (id name output : String) (is_error : Bool)
    → find_unanswered_tool_calls (history ++ tool id name output is_error ∷ [])
      ≡ others_than id (find_unanswered_tool_calls history)
unfolding find_unanswered_tool_calls
find_unanswered-result history id name output is_error =
    let ids = answered_ids-result history id name output is_error in
    let calls = last_calls-result history id name output is_error in
    elim (Option-cases (last_calls history)) [
      | inl e ↦ ground (arith, ids, calls, e)
      | inr (cs, e) ↦ ground (arith, ids, calls, e, filter-answered (answered_ids history) id cs)
    ]

-- When the dispatch of a tool call throws, no stop was asked for, and only messages of the user are
-- drained into the conversation, the run fails, and every call with
-- another id that had no result is left without one.
pub failed_call-open :
    (W : Type 0) (deps : TaskLoopDeps W)
    (users : (w : W) → All IsUser (deps.drain_pending_user_messages w).0) (call : ModelToolCall)
    (iterations : ℕ) (error : String) (s : State W)
    → deps.stop_requested s.world ≡ false
    → (r : TaskLoopResult) × ((settle_call W deps call iterations (throws error) s).0 ≡ some r)
      × (r.outcome ≡ ended (call_failed call error))
      × (find_unanswered_tool_calls r.history
          ≡ others_than call.tool_call_id (find_unanswered_tool_calls s.history))
unfolding settle_call
failed_call-open W deps users call iterations error s running =
    let failed_state = push_tool_error_result W deps call error s in
    let r = (terminate W deps (call_failed call error) iterations failed_state).0 in
    (
      r,
      ground (arith, running),
      refl,
      terminate-answered W deps users (call_failed call error) iterations failed_state
          ∙ find_unanswered-result s.history call.tool_call_id call.tool_name error true,
    )
