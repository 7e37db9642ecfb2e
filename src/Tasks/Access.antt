-- ===== src/Tasks/Access.antt =====
-- Who may touch a task, and what an agent can tell about the tasks of others.
use keidai.Common.{
  ℕ, String, str_eq, eq_iff, ◌≡◌, ◌≢◌, ◌↔◌, ◌+◌, ◌≤◌, inl, inr, true, some, List, arith,
  Option-cases,
}
use keidai.Tasks.{
  StoredMcpTask, Table, get_record, require_owned_task, apply_input_responses, request_cancel,
  not_found, err, expired,
}

-- To an agent a task of another agent is a task that does not exist: the lookup answers
-- `not_found`, neither a response nor a cancel changes the table, and both give that answer.
pub foreign_task :
    (agent_id id : String) (responses : List String) (now : ℕ) (table : Table)
    → ((task : StoredMcpTask) → get_record id table ≡ some task → task.agent_id ≢ agent_id)
    → (require_owned_task agent_id id now table ≡ err not_found)
      × (apply_input_responses agent_id id responses now table ≡ (err not_found, table))
      × (request_cancel agent_id id now table ≡ (err not_found, table))
unfolding require_owned_task apply_input_responses request_cancel
foreign_task agent_id id responses now table foreign = elim (Option-cases (get_record id table)) [
  | inl e ↦ ground (arith, e)
  | inr (t, e) ↦ ground (arith, e, foreign t e, eq_iff t.agent_id agent_id)
]

-- Of an agent's own task the lookup fails exactly when its time is over, with the answer `expired`;
-- a task without a time to live never expires.
own_task-expired_iff :
    (agent_id id : String) (now : ℕ) (table : Table) (task : StoredMcpTask)
    → get_record id table ≡ some task
    → task.agent_id ≡ agent_id
    → (require_owned_task agent_id id now table ≡ err expired)
      ↔ ((ttl : ℕ) × (task.ttl_ms ≡ some ttl) × (task.created_at_ms + ttl ≤ now))
unfolding require_owned_task
own_task-expired_iff agent_id id now table task e own = elim (Option-cases task.ttl_ms) [
  | inl forever ↦ ground (arith, e, forever, eq_iff task.agent_id agent_id)
  | inr (ttl, limited) ↦
      let mine : str_eq task.agent_id agent_id ≡ true = (eq_iff task.agent_id agent_id).1 own in
      (
        (λ h. (ttl, limited, ground (arith, e, mine, limited))),
        λ (n, same_ttl, over). ground (arith, e, mine, limited, same_ttl, over),
      )
]
