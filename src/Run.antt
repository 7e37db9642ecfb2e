-- ===== src/Run.antt =====
-- The parts of a run of an agent's task: apps/shaiden/src/run, with the types of
-- types/task-loop.ts and types/conversation-history.ts.
pub mod Pending
pub mod Assessment
pub mod Loop
pub mod Stop
mod Examples
use keidai.Common.{String, Bool, List}
use keidai.Tasks.Inputs.{Payload}

pub record ModelToolCall : Type 0 where
  pub tool_call_id : String
  pub tool_name : String
  pub input : Payload

pub data ConversationEntry : Type 0 where
  user : String → ConversationEntry
  assistant : String → List ModelToolCall → ConversationEntry
  tool : String → String → String → Bool → ConversationEntry
