-- ===== src/Tasks/Respond.antt =====
-- A response to a task that waits for input, as later readers of the store see it.
use keidai.Common.{
  ℕ, String, eq_refl, ◌≡◌, ◌≢◌, none, refl, true, false, ◌||◌, some, List, [], ◌∷◌, ◌++◌, arith,
  Elem, includes, includes_iff,
}
use keidai.Tasks.Inputs.{
  Payload, Requests, keys, object_prototype_keys, in_object, apply_responses, any_used,
}
use keidai.Tasks.Invariant.{IsWellFormed}
use keidai.Tasks.Answers.{unanswered, apply_responses-unanswered}
use keidai.Tasks.Laws.{get_record-save, require_owned_task-ok}
use keidai.Tasks.{
  StoredMcpTask, Table, ok, working, input_required, or_else, get_record, overlay, answered,
  apply_to, require_owned_task, apply_input_responses, require_input, throws,
  is_mcp_task_terminal_status,
}

overlay-answered :
    (rs : Requests) (used : List String) (now : ℕ) (t : StoredMcpTask)
    → overlay (answered rs used now t) t ≡ answered rs used now t
unfolding overlay
overlay-answered [] used now t = refl
overlay-answered (r ∷ rs) used now t = refl

answered-task_id :
    (rs : Requests) (used : List String) (now : ℕ) (t : StoredMcpTask)
    → (answered rs used now t).task_id ≡ t.task_id
answered-task_id [] used now t = refl
answered-task_id (r ∷ rs) used now t = refl

get_record-respond :
    (agent_id id : String) (responses : List String) (now : ℕ) (table : Table)
    (task : StoredMcpTask)
    → require_owned_task agent_id id now table ≡ ok task
    → task.status ≡ input_required
    → get_record id (apply_input_responses agent_id id responses now table).1
      ≡ some (apply_to responses now task)
unfolding apply_input_responses
get_record-respond agent_id id responses now table task found waiting =
    let read = (require_owned_task-ok agent_id id now table task found).0 in
    let (rs, used) =
      apply_responses responses (or_else task.input_requests []) task.satisfied_input_keys in
    ground (
      arith,
      found,
      waiting,
      read,
      get_record-save id (answered rs used now task) table,
      overlay-answered rs used now task,
      answered-task_id rs used now task,
      eq_refl task.task_id,
    )

answered-none :
    (rs : Requests) (used : List String) (now : ℕ) (t : StoredMcpTask)
    → rs ≡ []
    → ((answered rs used now t).status ≡ working) × ((answered rs used now t).input_requests ≡ none)
answered-none [] used now t e = (refl, refl)
answered-none (r ∷ rs) used now t e = absurd (ground (arith, e))

answered-some :
    (rs : Requests) (used : List String) (now : ℕ) (t : StoredMcpTask)
    → rs ≢ []
    → ((answered rs used now t).status ≡ input_required)
      × ((answered rs used now t).input_requests ≡ some rs)
answered-some [] used now t n = absurd (n refl)
answered-some (r ∷ rs) used now t n = (refl, refl)

-- After the owner's response to a well-formed task that is not expired and waits for input: if the
-- response answered all its requests, the task is working and has none; otherwise it still waits for
-- input, with exactly the requests whose keys were not answered.
pub respond_outcome :
    (agent_id id : String) (responses : List String) (now : ℕ) (table : Table)
    (task : StoredMcpTask) (requests : Requests)
    → require_owned_task agent_id id now table ≡ ok task
    → task.status ≡ input_required
    → task.input_requests ≡ some requests
    → IsWellFormed task
    → (t : StoredMcpTask) × (get_record id (apply_input_responses agent_id id responses now table).1
        ≡ some t)
      × (unanswered responses requests ≡ [] → (t.status ≡ working) × (t.input_requests ≡ none))
      × (unanswered responses requests ≢ []
          → (t.status ≡ input_required) × (t.input_requests ≡ some (unanswered responses requests)))
respond_outcome agent_id id responses now table task requests found waiting asked w =
    let used = (apply_responses responses requests task.satisfied_input_keys).1 in
    let left = unanswered responses requests in
    (
      answered left used now task,
      ground (
        arith,
        asked,
        get_record-respond agent_id id responses now table task found waiting,
        apply_responses-unanswered responses requests task.satisfied_input_keys
            (ground (arith, asked, w.fresh)),
      ),
      answered-none left used now task,
      answered-some left used now task,
    )

includes-append_last : (used : List String) (key : String) → includes (used ++ key ∷ []) key ≡ true
includes-append_last [] key = ground (arith, eq_refl key)
includes-append_last (u ∷ used) key = ground (arith, includes-append_last used key)

in_object-prototype :
    (key : String) (rs : Requests) → Elem key object_prototype_keys → in_object key rs ≡ true
unfolding in_object
in_object-prototype key rs proto =
    elim (includes (keys rs) key) as (λ b. (b || includes object_prototype_keys key) ≡ true) [
      | true ↦ refl
      | false ↦ (includes_iff object_prototype_keys key).1 proto
    ]

apply_responses-prototype :
    (key : String) (rs : Requests) (used : List String)
    → Elem key object_prototype_keys
    → ¬ Elem key used
    → (apply_responses (key ∷ []) rs used).1 ≡ used ++ key ∷ []
unfolding apply_responses
apply_responses-prototype key rs used proto new =
    ground (arith, in_object-prototype key rs proto, includes_iff used key)

require_input-answered :
    (id key : String) (value : Payload) (rs : Requests) (used : List String) (now now' : ℕ)
    (task : StoredMcpTask) (table : Table)
    → get_record id table ≡ some (answered rs used now task)
    → includes used key ≡ true
    → (require_input id ((key, value) ∷ []) now' table).0 ≡ throws
unfolding require_input any_used is_mcp_task_terminal_status
require_input-answered id key value [] used now now' task table found u = ground (arith, found, u)
require_input-answered id key value (r ∷ rs) used now now' task table found u =
    ground (arith, found, u)

-- A response to a waiting task under a name of `Object.prototype` that was not used before counts
-- as an answer although the task never asked for it: after it, asking the task for that key throws.
pub prototype_key_used_up :
    (agent_id id key : String) (value : Payload) (now now' : ℕ) (table : Table)
    (task : StoredMcpTask)
    → require_owned_task agent_id id now table ≡ ok task
    → task.status ≡ input_required
    → Elem key object_prototype_keys
    → ¬ Elem key task.satisfied_input_keys
    → (require_input id
        ((key, value) ∷ [])
        now'
        (apply_input_responses agent_id id (key ∷ []) now table).1).0
      ≡ throws
prototype_key_used_up agent_id id key value now now' table task found waiting proto new =
    let (rs, used) =
      apply_responses (key ∷ []) (or_else task.input_requests []) task.satisfied_input_keys in
    let same =
      apply_responses-prototype key (or_else task.input_requests []) task.satisfied_input_keys proto
        new in
    require_input-answered id key value rs used now now' task _
      (get_record-respond agent_id id (key ∷ []) now table task found waiting)
      (rw same (includes-append_last task.satisfied_input_keys key))
