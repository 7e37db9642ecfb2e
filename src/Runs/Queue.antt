-- ===== src/Runs/Queue.antt =====
-- The messages for parked runs as a queue for each run, and the repository
-- (apps/shaiden/src/runs/pg-run-repository.ts) as an implementation of these queues.
use keidai.Common.{
  ℕ, ◌≤◌, ◌<◌, String, str_eq, ◌≡◌, Bool, List, [], ◌∷◌, ◌++◌, map, if◌then◌else◌, All,
}
use keidai.Run.{ConversationEntry, user}
use keidai.Runs.{RunTables, RunStep, FollowUp, Appended, appended}
use keidai.Runs.FollowUps.{enqueue_parked_follow_up, drain_parked_follow_ups}
use keidai.Runs.Ordered.{IsOrdered}

abbrev pub Queues : Type 0
Queues = String → List String

abbrev pub push : String → String → Queues → Queues
push id text q j = q j ++ (if str_eq id j then text ∷ [] else [])

abbrev pub flush : String → Queues → Queues
flush id q j = if str_eq id j then [] else q j

pub data Answer : Type 0 where
  took : String → String → Answer
  left_out : Answer
  handed : String → List ConversationEntry → Answer

-- The answers that queues can give, one after another: a message is taken or left out, and a run is
-- handed its messages in the order that they came in, each once.
pub data IsFifo : Queues → List Answer → Type 0 where
  fifo_done : {q : Queues} → IsFifo q []
  fifo_took :
      {q : Queues} {answers : List Answer} (id text : String)
      → IsFifo (push id text q) answers
      → IsFifo q (took id text ∷ answers)
  fifo_left_out :
      {q : Queues} {answers : List Answer} → IsFifo q answers → IsFifo q (left_out ∷ answers)
  fifo_handed :
      {q : Queues} {answers : List Answer} (id : String)
      → IsFifo (flush id q) answers
      → IsFifo q (handed id (map user (q id)) ∷ answers)

pub data QueueEvent : Type 0 where
  enqueue : FollowUp → RunStep → ℕ → QueueEvent
  drain : String → QueueEvent

abbrev pub answer_of : FollowUp → Appended → Answer
answer_of f appended = took f.run_id f.text
answer_of f _ = left_out

-- The messages of a run, in the order of the table.
abbrev pub queue_of : List FollowUp → Queues
queue_of [] id = []
queue_of (f ∷ fs) id = (if str_eq f.run_id id then f.text ∷ [] else []) ++ queue_of fs id

-- The clock goes on from one message to the next.
abbrev pub IsAscending : ℕ → List QueueEvent → Type 0
IsAscending last [] = Unit
IsAscending last (enqueue f step now ∷ events) =
    (last < f.created_at) × IsAscending f.created_at events
IsAscending last (drain id ∷ events) = IsAscending last events

module _ (id_before : String → String → Bool) where
  abbrev pub serve : List QueueEvent → RunTables → List Answer
  serve [] s = []
  serve (enqueue f step now ∷ events) s =
      let (answer, s') = enqueue_parked_follow_up f step now s in
      answer_of f answer ∷ serve events s'
  serve (drain id ∷ events) s =
      let (messages, s') = drain_parked_follow_ups id_before id s in
      handed id messages ∷ serve events s'

  -- What the table holds is what the queues hold, in order, and no later than a time.
  pub record Simulates (fs : List FollowUp) (q : Queues) (last : ℕ) : Type 0 where
    pub ordered : IsOrdered id_before fs
    pub past : All (λ g. g.created_at ≤ last) fs
    pub agrees : (id : String) → queue_of fs id ≡ q id
