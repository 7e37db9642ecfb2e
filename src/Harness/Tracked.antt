-- ===== src/Harness/Tracked.antt =====
-- The row of a run along the statements of its worker (apps/shaiden/src/run).
use keidai.Common.{
  ℕ, ◌≡◌, refl, String, Bool, Option, none, some, List, ◌++◌, [], ◌∷◌, arith, any, if◌then◌else◌,
  if_both, option_both, find-update_guarded,
}
use keidai.Run.{ConversationEntry}
use keidai.Runs.{
  RunRow, RunStep, RunTables, Appended, no_run, append_throws, appended, is_step, always, with_step,
  update_run, get_run_row, append_step,
}
use keidai.Runs.Ops.{is_none, set_conversation_history}
use keidai.Runs.Single.{row_id}
use keidai.Harness.{HarnessState, HarnessDeps, StepBody, statement, record_step}

-- The run's row is there, with a property.
abbrev pub HasRow : (RunRow → Type 0) → String → RunTables → Type 0
HasRow P id t = (r : RunRow) × (get_run_row id t ≡ some r) × P r

pub update-HasRow :
    {P Q : RunRow → Type 0} (id : String) (guard : RunRow → Bool) (f : RunRow → RunRow)
    (t : RunTables)
    → ((r : RunRow) → (f r).id ≡ r.id)
    → ((r : RunRow) → P r → Q (if guard r then f r else r))
    → HasRow P id t
    → HasRow Q id (update_run id guard f t).1
unfolding update_run get_run_row
update-HasRow id guard f t keep step (r, found, p) = (
  if guard r then f r else r,
  ground (arith, find-update_guarded row_id id guard f t.runs keep, found),
  step r p,
)

module _ {P : RunRow → Type 0} where
  append-HasRow :
      (step : RunStep) (now : ℕ) (t : RunTables)
      → ((r : RunRow) → P r → P (with_step now r))
      → HasRow P step.run_id t
      → HasRow P step.run_id (append_step step now t).1
  unfolding append_step get_run_row
  append-HasRow step now t keep h =
      let inserted = record t { run_steps = t.run_steps ++ step ∷ [] } in
      option_both (λ (x : Appended × RunTables). HasRow P step.run_id x.1)
        (get_run_row step.run_id t) (no_run, t) _ h
        (λ r.
          if_both (λ (x : Appended × RunTables). HasRow P step.run_id x.1)
            (any (is_step step) t.run_steps) (append_throws, t)
            (appended, (update_run step.run_id always (with_step now) inserted).1) h
            (update-HasRow {P = P} {Q = P} step.run_id always (with_step now) inserted (λ r. refl)
              keep h))

  pub history-HasRow :
      (id : String) (history : List ConversationEntry) (t : RunTables)
      → ((r : RunRow) → P r → P (record r { conversation_history = some history }))
      → HasRow P id t
      → HasRow P id (set_conversation_history id history t).1
  unfolding set_conversation_history
  history-HasRow id history t keep h =
      let write : RunRow → RunRow = λ r. record r { conversation_history = some history } in
      if_both (λ (x : Bool × RunTables). HasRow P id x.1) (is_none (get_run_row id t)) _ _ h
        (update-HasRow {P = P} {Q = P} id always write t (λ r. refl) keep h)

-- What others leave of a run's row: the fields that make it parked, due and its worker's.
pub record IsKept (r r' : RunRow) : Type 0 where
  pub status : r'.status ≡ r.status
  pub owner_id : r'.owner_id ≡ r.owner_id
  pub mcp_task_id : r'.mcp_task_id ≡ r.mcp_task_id
  pub next_poll_at : r'.next_poll_at ≡ r.next_poll_at

abbrev pub LeavesRun : {W : Type 0} → String → (HarnessState W → HarnessState W) → Type 0
LeavesRun {W} id f =
    (s : HarnessState W) (r : RunRow)
    → get_run_row id s.runs ≡ some r
    → HasRow (IsKept r) id (f s).runs

pub leaves-HasRow :
    {W : Type 0} {P : RunRow → Type 0} (id : String) (f : HarnessState W → HarnessState W)
    → LeavesRun id f
    → ((r r' : RunRow) → IsKept r r' → P r → P r')
    → (s : HarnessState W) → HasRow P id s.runs
    → HasRow P id (f s).runs
leaves-HasRow id f leaves closed s (r, found, p) =
    let (r', found', kept) = leaves s r found in (r', found', closed r r' kept p)

module _ {W : Type 0} (deps : HarnessDeps W) {P : RunRow → Type 0} (id : String)
    (others : (s : HarnessState W) → HasRow P id s.runs → HasRow P id (deps.meanwhile s).runs) where
  pub statement-HasRow :
      {Q : RunRow → Type 0} {A : Type 0} (f : RunTables → A × RunTables) (s : HarnessState W)
      → ((t : RunTables) → HasRow P id t → HasRow Q id (f t).1)
      → HasRow P id s.runs
      → HasRow Q id (statement deps f s).1.runs
  unfolding statement
  statement-HasRow f s step h = step (deps.meanwhile s).runs (others s h)

  pub record_step-HasRow :
      (step_id : Option String) (body : StepBody) (s : HarnessState W)
      → ((r : RunRow) (now : ℕ) → P r → P (with_step now r))
      → HasRow P id s.runs
      → HasRow P id (record_step deps id step_id body s).1.runs
  unfolding record_step
  record_step-HasRow step_id body s keep h =
      let at = deps.clock s.world in
      let step : RunStep = record {
        id = elim step_id [ none ↦ deps.new_step_id s.world | some i ↦ i ];
        run_id = id;
        timestamp = at;
        kind = deps.step_kind body;
        payload = deps.step_payload body;
      } in
      statement-HasRow {Q = P} {A = Appended} (append_step step at) s
        (λ t. append-HasRow step at t (λ r. keep r at)) h
