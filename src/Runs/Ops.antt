-- ===== src/Runs/Ops.antt =====
-- The updates of one run: its history, budget, parked task and lease
-- (apps/shaiden/src/runs/pg-run-repository.ts).
use keidai.Common.{
  ℕ, String, str_eq, Bool, true, false, not, ◌&&◌, ◌||◌, Option, none, some, List, if◌then◌else◌,
  ltb, leb, filter,
}
use keidai.Run.{ConversationEntry}
use keidai.Run.Loop.{RunBudget}
use keidai.Runs.{always, RunRow, RunTables, is_running, update_run, get_run_row}

abbrev pub is_none {ℓ} : {A : Type ℓ} → Option A → Bool
is_none none = true
is_none (some a) = false

-- The row is read first; the answer is whether it was there.
unfoldable pub set_conversation_history :
    String → List ConversationEntry → RunTables → Bool × RunTables
unfolding update_run get_run_row
set_conversation_history id history s =
    if is_none (get_run_row id s)
    then (false, s)
    else (true, (update_run id always (λ r. record r { conversation_history = some history }) s).1)

unfoldable pub set_run_budget : String → RunBudget → RunTables → Bool × RunTables
unfolding update_run
set_run_budget id budget s =
    update_run id always
      (λ r. record r {
        iterations_used = budget.iterations_used;
        active_elapsed_ms = budget.active_elapsed_ms;
      })
      s

abbrev pub parked_row : String → Option ℕ → ℕ → RunRow → RunRow
parked_row mcp_task_id poll_interval now r = record r {
  mcp_task_id = some mcp_task_id;
  mcp_task_poll_interval_ms = poll_interval;
  updated_at = now;
}

unfoldable pub set_parked_mcp_task : String → String → Option ℕ → ℕ → RunTables → Bool × RunTables
unfolding update_run
set_parked_mcp_task id mcp_task_id poll_interval now s =
    update_run id is_running (parked_row mcp_task_id poll_interval now) s

abbrev pub unparked_row : ℕ → RunRow → RunRow
unparked_row now r = record r {
  mcp_task_id = none;
  mcp_task_poll_interval_ms = none;
  next_poll_at = none;
  updated_at = now;
}

unfoldable pub clear_parked_mcp_task : String → ℕ → RunTables → Bool × RunTables
unfolding update_run
clear_parked_mcp_task id now s = update_run id always (unparked_row now) s

abbrev pub polled_row : ℕ → RunRow → RunRow
polled_row at r = record r { next_poll_at = some at }

unfoldable pub set_next_poll_at : String → ℕ → RunTables → Bool × RunTables
unfolding update_run
set_next_poll_at id at s = update_run id is_running (polled_row at) s

-- `owner_id IS NULL OR lease_expires_at IS NULL OR lease_expires_at < $4`
abbrev pub is_unowned : ℕ → RunRow → Bool
is_unowned now r =
    is_none r.owner_id || (elim r.lease_expires_at [ none ↦ true | some expires ↦ ltb expires now ])

-- `next_poll_at IS NULL OR next_poll_at <= $1`
abbrev pub is_due : ℕ → RunRow → Bool
is_due now r = elim r.next_poll_at [ none ↦ true | some at ↦ leb at now ]

-- The rows of `listClaimableParkedMcpTasks`; their order is not modelled.
unfoldable pub list_claimable_parked_mcp_tasks : ℕ → RunTables → List RunRow
list_claimable_parked_mcp_tasks now s =
    filter
      (λ r. is_running r && (not (is_none r.mcp_task_id) && (is_unowned now r && is_due now r)))
      s.runs

abbrev pub claimed_row : String → ℕ → RunRow → RunRow
claimed_row owner expires r = record r { owner_id = some owner; lease_expires_at = some expires }

unfoldable pub claim_run : String → String → ℕ → ℕ → RunTables → Bool × RunTables
unfolding update_run
claim_run id owner expires now s =
    update_run id (λ r. is_running r && is_unowned now r) (claimed_row owner expires) s

abbrev pub is_owned_by : String → RunRow → Bool
is_owned_by owner r = elim r.owner_id [ none ↦ false | some o ↦ str_eq o owner ]

abbrev pub renewed_row : ℕ → RunRow → RunRow
renewed_row expires r = record r { lease_expires_at = some expires }

unfoldable pub renew_run_lease : String → String → ℕ → RunTables → Bool × RunTables
unfolding update_run
renew_run_lease id owner expires s =
    update_run id (λ r. is_owned_by owner r && is_running r) (renewed_row expires) s

abbrev pub released_row : RunRow → RunRow
released_row r = record r { owner_id = none; lease_expires_at = none }

unfoldable pub release_run : String → String → RunTables → Bool × RunTables
unfolding update_run
release_run id owner s = update_run id (is_owned_by owner) released_row s
