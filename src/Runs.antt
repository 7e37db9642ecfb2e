-- ===== src/Runs.antt =====
-- The run repository: apps/shaiden/src/runs/pg-run-repository.ts, over the tables `runs`,
-- `run_steps` and `run_follow_ups` as lists of rows. Every statement that updates one run by its id is
-- an `update_run`. `nowIso()` and the times that callers pass are numbers of milliseconds.
pub mod FollowUps
pub mod Continue
pub mod Ops
pub mod Steps
pub mod Changes
mod Updates
pub mod Applied
pub mod Single
pub mod Held
pub mod Lease
pub mod Ordered
pub mod Queue
pub mod Restart
mod Examples
use keidai.Common.{
  ℕ, zero, suc, ◌+◌, String, str_eq, Bool, true, false, not, ◌&&◌, ◌||◌, Option, none, some, List,
  [], ◌∷◌, ◌++◌, if◌then◌else◌, ltb, leb, ◌==◌, find, any, filter, update_where, count_where,
  delete_where,
}
use keidai.Tasks.Inputs.{Payload}
use keidai.Run.{ConversationEntry}
use keidai.Run.Assessment.{TerminationOutcome}

pub data RunStatus : Type 0 where
  running completed : RunStatus

pub record RunRow : Type 0 where
  pub id : String
  pub task_id : String
  pub task_snapshot : Payload
  pub started_at : ℕ
  pub assignee : String
  pub goal_preview : String
  pub status : RunStatus
  pub outcome : Option TerminationOutcome
  pub step_count : ℕ
  pub conversation_history : Option (List ConversationEntry)
  pub persona_version : Option ℕ
  pub persona : Option String
  pub model_id : Option String
  pub agent_owner_id : Option String
  pub iterations_used : ℕ
  pub active_elapsed_ms : ℕ
  pub mcp_task_id : Option String
  pub mcp_task_poll_interval_ms : Option ℕ
  pub next_poll_at : Option ℕ
  pub owner_id : Option String
  pub lease_expires_at : Option ℕ
  pub updated_at : ℕ

pub record RunStep : Type 0 where
  pub id : String
  pub run_id : String
  pub timestamp : ℕ
  pub kind : String
  pub payload : Payload

pub record FollowUp : Type 0 where
  pub id : String
  pub run_id : String
  pub text : String
  pub created_at : ℕ

pub record RunTables : Type 0 where
  pub runs : List RunRow
  pub run_steps : List RunStep
  pub follow_ups : List FollowUp

abbrev pub no_tables : RunTables
no_tables = record { runs = []; run_steps = []; follow_ups = [] }

abbrev pub is_running : RunRow → Bool
is_running r = elim r.status [ running ↦ true | completed ↦ false ]

abbrev pub has_id : String → RunRow → Bool
has_id id r = str_eq r.id id

-- `UPDATE runs SET f WHERE id = $1 AND guard`, and whether a row was hit.
unfoldable pub update_run :
    String → (RunRow → Bool) → (RunRow → RunRow) → RunTables → Bool × RunTables
update_run id guard f s = (
  not (count_where (λ r. has_id id r && guard r) s.runs == 0),
  record s { runs = update_where (λ r. has_id id r && guard r) f s.runs },
)

unfoldable pub get_run_row : String → RunTables → Option RunRow
get_run_row id s = find (has_id id) s.runs

abbrev pub always : RunRow → Bool
always r = true

pub record CreateRunRequest : Type 0 where
  pub id : String
  pub task_id : String
  pub task : Payload
  pub started_at : ℕ
  pub assignee : String
  pub goal : String
  pub persona_version : Option ℕ
  pub persona : Option String
  pub model_id : Option String
  pub agent_owner_id : Option String

-- `formatGoalPreview` is the parameter `preview`.
unfoldable pub new_run : (String → String) → CreateRunRequest → RunRow
new_run preview input = record {
  id = input.id;
  task_id = input.task_id;
  task_snapshot = input.task;
  started_at = input.started_at;
  assignee = input.assignee;
  goal_preview = preview input.goal;
  status = running;
  outcome = none;
  step_count = 0;
  conversation_history = none;
  persona_version = input.persona_version;
  persona = input.persona;
  model_id = input.model_id;
  agent_owner_id = input.agent_owner_id;
  iterations_used = 0;
  active_elapsed_ms = 0;
  mcp_task_id = none;
  mcp_task_poll_interval_ms = none;
  next_poll_at = none;
  owner_id = none;
  lease_expires_at = none;
  updated_at = input.started_at;
}

-- A row that the index `idx_runs_one_running_per_task` has under this task.
abbrev pub runs_task : String → RunRow → Bool
runs_task task_id r = is_running r && str_eq r.task_id task_id

-- `ORDER BY started_at DESC, id DESC`, by the order `id_after` of the texts.
abbrev pub is_newer : (String → String → Bool) → RunRow → RunRow → Bool
is_newer id_after a b =
    ltb b.started_at a.started_at || (a.started_at == b.started_at && id_after a.id b.id)

abbrev pub is_completed : RunRow → Bool
is_completed r = not (is_running r)

-- A completed run with `retention` newer ones: those past `OFFSET retention`.
unfoldable pub is_excess : (String → String → Bool) → ℕ → List RunRow → RunRow → Bool
is_excess id_after retention runs r =
    is_completed r
    && leb retention (count_where (λ x. is_completed x && is_newer id_after x r) runs)

-- The loop of `trim`; a run's follow-ups go with it by the foreign key.
unfoldable pub trim : (String → String → Bool) → ℕ → RunTables → RunTables
unfolding is_excess
trim id_after retention s =
    let excess = filter (is_excess id_after retention s.runs) s.runs in
    record s {
      runs = delete_where (is_excess id_after retention s.runs) s.runs;
      run_steps = delete_where (λ step. any (has_id step.run_id) excess) s.run_steps;
      follow_ups = delete_where (λ f. any (has_id f.run_id) excess) s.follow_ups;
    }

pub data Created : Type 0 where
  created : RunRow → Created
  task_already_running : Created
  create_throws : Created

module _ (preview : String → String) (id_after : String → String → Bool) (retention : ℕ) where
  unfoldable pub create_run : CreateRunRequest → RunTables → Created × RunTables
  unfolding trim new_run
  create_run input s =
      if any (has_id input.id) s.runs
      then (create_throws, s)
      else if any (runs_task input.task_id) s.runs
      then (task_already_running, s)
      else (
        created (new_run preview input),
        trim id_after retention (record s { runs = s.runs ++ new_run preview input ∷ [] }),
      )

abbrev pub with_step : ℕ → RunRow → RunRow
with_step now r = record r { step_count = r.step_count + 1; updated_at = now }

-- A step under a key of the table; an INSERT of such a step throws.
abbrev pub is_step : RunStep → RunStep → Bool
is_step new old = old.timestamp == new.timestamp && str_eq old.id new.id

pub data Appended : Type 0 where
  no_run : Appended
  appended : Appended
  append_throws : Appended

-- `appendStep`; the attempt that an outcome step records is not modelled.
unfoldable pub append_step : RunStep → ℕ → RunTables → Appended × RunTables
unfolding update_run get_run_row
append_step step now s = elim (get_run_row step.run_id s) [
  | none ↦ (no_run, s)
  | some r ↦ if any (is_step step) s.run_steps then (append_throws, s) else (
    appended,
    (update_run step.run_id always (with_step now)
        (record s { run_steps = s.run_steps ++ step ∷ [] })).1,
  )
]

abbrev pub completed_run : TerminationOutcome → ℕ → RunRow → RunRow
completed_run outcome now r = record r {
  status = completed;
  outcome = some outcome;
  mcp_task_id = none;
  mcp_task_poll_interval_ms = none;
  next_poll_at = none;
  owner_id = none;
  lease_expires_at = none;
  updated_at = now;
}

unfoldable pub complete_run :
    String → TerminationOutcome → ℕ → RunTables → Option RunRow × RunTables
unfolding update_run get_run_row
complete_run id outcome now s = elim (get_run_row id s) [
  | none ↦ (none, s)
  | some r ↦
      let (_, updated) = update_run id always (completed_run outcome now) s in
      let s' = record updated {
        follow_ups = delete_where (λ f. str_eq f.run_id id) s.follow_ups;
      } in
      (get_run_row id s', s')
]
