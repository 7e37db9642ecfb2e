-- ===== src/Run/Pending/Users.antt =====
-- Messages of the user after a history leave its unanswered tool calls
-- (apps/shaiden/src/run/pending-tool-calls.ts) as they are.
use keidai.Common.{◌≡◌, refl, ap, List, [], ◌∷◌, ◌++◌, arith, All}
use keidai.Run.{ConversationEntry, user, assistant, tool}
use keidai.Run.Pending.{answered_ids, last_calls, find_unanswered_tool_calls}

abbrev pub IsUser : ConversationEntry → Type 0
IsUser (user text) = Unit
IsUser (assistant text calls) = ⊥
IsUser (tool id name output is_error) = ⊥

answered_ids-users :
    (history entries : List ConversationEntry)
    → All IsUser entries
    → answered_ids (history ++ entries) ≡ answered_ids history
unfolding answered_ids
answered_ids-users [] [] h = refl
answered_ids-users [] (user text ∷ entries) (_, h) = answered_ids-users [] entries h
answered_ids-users [] (assistant text calls ∷ entries) (h, _) = absurd h
answered_ids-users [] (tool id name output e ∷ entries) (h, _) = absurd h
answered_ids-users (user text ∷ rest) entries h = answered_ids-users rest entries h
answered_ids-users (assistant text calls ∷ rest) entries h = answered_ids-users rest entries h
answered_ids-users (tool id name output e ∷ rest) entries h =
    ap (λ l. id ∷ l) (answered_ids-users rest entries h)

last_calls-users :
    (history entries : List ConversationEntry)
    → All IsUser entries
    → last_calls (history ++ entries) ≡ last_calls history
unfolding last_calls
last_calls-users [] [] h = refl
last_calls-users [] (user text ∷ entries) (_, h) = ground (arith, last_calls-users [] entries h)
last_calls-users [] (assistant text calls ∷ entries) (h, _) = absurd h
last_calls-users [] (tool id name output e ∷ entries) (h, _) = absurd h
last_calls-users (entry ∷ rest) entries h = ground (arith, last_calls-users rest entries h)

pub find_unanswered-users :
    (history entries : List ConversationEntry)
    → All IsUser entries
    → find_unanswered_tool_calls (history ++ entries) ≡ find_unanswered_tool_calls history
unfolding find_unanswered_tool_calls
find_unanswered-users history entries h =
    ground (arith, answered_ids-users history entries h, last_calls-users history entries h)
