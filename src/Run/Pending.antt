-- ===== src/Run/Pending.antt =====
-- Tool calls without a result: apps/shaiden/src/run/pending-tool-calls.ts.
pub mod Laws
pub mod Users
use keidai.Common.{
  String, Bool, true, not, Option, none, some, List, [], ◌∷◌, ◌++◌, map, includes, filter,
}
use keidai.Run.{ModelToolCall, ConversationEntry, user, assistant, tool}

abbrev pub run_stopped_tool_output : String
run_stopped_tool_output = "cancelled: run stopped"

-- The ids of the entries that are tool results.
unfoldable pub answered_ids : List ConversationEntry → List String
answered_ids [] = []
answered_ids (user text ∷ rest) = answered_ids rest
answered_ids (assistant text calls ∷ rest) = answered_ids rest
answered_ids (tool id name output is_error ∷ rest) = id ∷ answered_ids rest

abbrev calls_of : ConversationEntry → Option (List ModelToolCall)
calls_of (user text) = none
calls_of (assistant text calls) = some calls
calls_of (tool id name output is_error) = none

-- The calls of the last assistant entry.
unfoldable pub last_calls : List ConversationEntry → Option (List ModelToolCall)
last_calls [] = none
last_calls (entry ∷ rest) = elim (last_calls rest) [
  | none ↦ calls_of entry
  | some calls ↦ some calls
]

unfoldable pub find_unanswered_tool_calls : List ConversationEntry → List ModelToolCall
unfolding answered_ids last_calls
find_unanswered_tool_calls history = elim (last_calls history) [
  | none ↦ []
  | some calls ↦ filter (λ call. not (includes (answered_ids history) call.tool_call_id)) calls
]

-- The result that is made up for a call of a stopped run.
abbrev pub stopped_result : ModelToolCall → ConversationEntry
stopped_result call = tool call.tool_call_id call.tool_name run_stopped_tool_output true

unfoldable pub close_unanswered_tool_calls : List ConversationEntry → List ConversationEntry
unfolding find_unanswered_tool_calls
close_unanswered_tool_calls history =
    history ++ map stopped_result (find_unanswered_tool_calls history)
