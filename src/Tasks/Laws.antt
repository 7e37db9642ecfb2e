-- ===== src/Tasks/Laws.antt =====
-- The store's rows and lookups, and what a method's UPDATE writes after its SELECT: a record of the row
-- that was read, which is never a terminal one.
use mathlib.Core.Option
use keidai.Common.{
  ℕ, String, str_eq, eq_iff, ◌≡◌, refl, ap, sym, subst, ◌∙◌, ◌≢◌, ◌⊎◌, inl, inr, true, false,
  Option, none, some, List, [], ◌∷◌, ◌++◌, arith, if◌then◌else◌, Option-cases, option_eq, if_eq,
  find-update, find-holds, find-append,
}
use keidai.Tasks.Inputs.{Payload, Requests, any_used, keys}
use keidai.Tasks.Invariant.{
  IsWellFormed, attached-IsWellFormed, cancelled_task-IsWellFormed, finished-IsWellFormed_completed,
  finished-IsWellFormed_failed, requiring-IsWellFormed, apply_to-IsWellFormed,
}
use keidai.Tasks.{
  McpTaskStatus, input_required, completed, failed, is_mcp_task_terminal_status, StoredMcpTask,
  Table, BackendOrigin, get_record, overlay, save, require_owned_task, ok, err, Lookup, LookupError,
  is_mcp_task_expired, attach_read, respond_read, cancel_read, require_read, required, finish_read,
  attached, apply_to, answered, cancelled_task, requiring, finished, is_input_required,
}

pub get_record-task_id :
    (id : String) (table : Table) (task : StoredMcpTask)
    → get_record id table ≡ some task
    → task.task_id ≡ id
unfolding get_record
get_record-task_id id table task e =
    (eq_iff _ _).0 (find-holds (λ t. str_eq t.task_id id) table task e)

-- What a write leaves for a reader.
pub get_record-save :
    (id : String) (next : StoredMcpTask) (table : Table)
    → get_record id (save next table)
      ≡ Option.map
          (λ t. if str_eq t.task_id next.task_id then overlay next t else t)
          (get_record id table)
unfolding get_record save overlay
get_record-save id next table =
    find-update (λ t. str_eq t.task_id id) (λ t. str_eq t.task_id next.task_id) (overlay next) table
      (λ t. refl)

pub get_record-save_ne :
    (id : String) (next : StoredMcpTask) (table : Table)
    → next.task_id ≢ id
    → get_record id (save next table) ≡ get_record id table
get_record-save_ne id next table ne = elim (Option-cases (get_record id table)) [
  | inl e ↦ rw (get_record-save, e) refl
  | inr (t, e) ↦ ground (
    arith,
    get_record-save id next table,
    e,
    get_record-task_id id table t e,
    eq_iff t.task_id next.task_id,
  )
]

pub get_record-append_ne :
    (id : String) (task : StoredMcpTask) (table : Table)
    → task.task_id ≢ id
    → get_record id (table ++ task ∷ []) ≡ get_record id table
unfolding get_record
get_record-append_ne id task table ne =
    ground (arith, find-append (λ t. str_eq t.task_id id) table task, eq_iff task.task_id id)

pub Lookup-cases :
    {A : Type 0} (l : Lookup A) → ((x : LookupError) × (l ≡ err x)) ⊎ ((a : A) × (l ≡ ok a))
Lookup-cases (err x) = inl (x, refl)
Lookup-cases (ok a) = inr (a, refl)

-- What a successful lookup has checked.
pub require_owned_task-ok :
    (agent_id id : String) (now : ℕ) (table : Table) (task : StoredMcpTask)
    → require_owned_task agent_id id now table ≡ ok task
    → (get_record id table ≡ some task)
      × (task.agent_id ≡ agent_id)
      × (is_mcp_task_expired task now ≡ false)
unfolding require_owned_task
require_owned_task-ok agent_id id now table task e = elim (Option-cases (get_record id table)) [
  | inl m ↦ absurd (ground (arith, m))
  | inr (t, m) ↦ ground (arith, m, eq_iff t.agent_id agent_id)
]

answered-task_id :
    (rs : Requests) (satisfied : List String) (now : ℕ) (t : StoredMcpTask)
    → (answered rs satisfied now t).task_id ≡ t.task_id
answered-task_id [] satisfied now t = refl
answered-task_id (r ∷ rs) satisfied now t = refl

apply_to-task_id :
    (responses : List String) (now : ℕ) (t : StoredMcpTask)
    → (apply_to responses now t).task_id ≡ t.task_id
apply_to-task_id responses now t = answered-task_id _ _ now t

pub input_required-not_terminal :
    (s : McpTaskStatus) → is_input_required s ≡ true → is_mcp_task_terminal_status s ≡ false
unfolding is_mcp_task_terminal_status
input_required-not_terminal input_required e = refl
input_required-not_terminal _ e = cc

-- A record that a method is to save: it has the id of a row that was read, which is not a terminal one.
pub record IsReadFrom (next : StoredMcpTask) (table : Table) : Type 0 where
  pub row : StoredMcpTask
  pub found : get_record next.task_id table ≡ some row
  pub unfinished : is_mcp_task_terminal_status row.status ≡ false
  pub keeps : IsWellFormed row → IsWellFormed next

read_from :
    (id : String) (table : Table) (row next : StoredMcpTask)
    → get_record id table ≡ some row
    → next.task_id ≡ row.task_id
    → is_mcp_task_terminal_status row.status ≡ false
    → (IsWellFormed row → IsWellFormed next)
    → IsReadFrom next table
read_from id table row next found same unfinished keeps = record {
  row = row;
  found = ap (λ j. get_record j table) (same ∙ get_record-task_id id table row found) ∙ found;
  unfinished = unfinished;
  keeps = keeps;
}

-- Each method, from what its SELECT found.
module _ (P : StoredMcpTask → Type 0) where
  abbrev pub Saves : Option StoredMcpTask → Type 0
  Saves none = Unit
  Saves (some next) = P next

module _ (id : String) (now : ℕ) (table : Table) where
  abbrev SavesRead : Option StoredMcpTask → Type 0
  SavesRead = Saves (λ next. IsReadFrom next table)

  pub attach-Saves :
      (origin : BackendOrigin)
      → Saves (λ next. IsReadFrom next table) (attach_read origin now (get_record id table))
  attach-Saves origin = option_eq SavesRead (get_record id table) _ _ tt (λ row found.
      if_eq SavesRead (is_mcp_task_terminal_status row.status) _ _ (λ _. tt)
        (λ d.
          read_from id table row (attached origin now row) found refl d
            (λ w. attached-IsWellFormed row w origin now)))

  pub require-Saves :
      (requests : Requests)
      → Saves
          (λ next. IsReadFrom next table)
          (required (require_read requests now (get_record id table)))
  unfolding any_used
  require-Saves requests = elim (Option-cases (get_record id table)) [
    | inl e ↦ subst (λ o. SavesRead (required (require_read requests now o))) (sym e) tt
    | inr (row, e) ↦
        subst (λ o. SavesRead (required (require_read requests now o))) (sym e)
          (if_eq (λ a. SavesRead (required a)) (is_mcp_task_terminal_status row.status) _ _
            (λ _. tt)
            (λ d.
              if_eq (λ a. SavesRead (required a))
                (any_used row.satisfied_input_keys (keys requests)) _ _ (λ _. tt)
                (λ u.
                  read_from id table row (requiring requests now row) e refl d
                    (λ w. requiring-IsWellFormed row w requests now d u))))
  ]

  finish-Saves :
      (status : McpTaskStatus) (result error : Option Payload)
      → ((t : StoredMcpTask) → IsWellFormed t → IsWellFormed (finished status result error now t))
      → SavesRead (finish_read status result error now (get_record id table))
  finish-Saves status result error keep =
      option_eq SavesRead (get_record id table) _ _ tt (λ row found.
        if_eq SavesRead (is_mcp_task_terminal_status row.status) _ _ (λ _. tt)
          (λ d.
            read_from id table row (finished status result error now row) found refl d (keep row)))

  pub complete-Saves :
      (result : Payload)
      → Saves
          (λ next. IsReadFrom next table)
          (finish_read completed (some result) none now (get_record id table))
  complete-Saves result =
      finish-Saves completed (some result) none
        (λ t w. finished-IsWellFormed_completed t w result now)

  pub fail-Saves :
      (error : Payload)
      → Saves
          (λ next. IsReadFrom next table)
          (finish_read failed none (some error) now (get_record id table))
  fail-Saves error =
      finish-Saves failed none (some error) (λ t w. finished-IsWellFormed_failed t w error now)

  pub respond-Saves :
      (agent_id : String) (responses : List String)
      → Saves
          (λ next. IsReadFrom next table)
          (respond_read responses now (require_owned_task agent_id id now table))
  respond-Saves agent_id responses =
      elim (Lookup-cases (require_owned_task agent_id id now table)) [
        | inl (x, e) ↦ subst (λ l. SavesRead (respond_read responses now l)) (sym e) tt
        | inr (row, e) ↦
            subst (λ l. SavesRead (respond_read responses now l)) (sym e)
              (if_eq SavesRead (is_input_required row.status) _ _
                (λ waiting.
                  read_from id table row (apply_to responses now row)
                    (require_owned_task-ok agent_id id now table row e).0
                    (apply_to-task_id responses now row)
                    (input_required-not_terminal row.status waiting)
                    (λ w. apply_to-IsWellFormed row w responses now waiting))
                (λ _. tt))
      ]

  pub cancel-Saves :
      (agent_id : String)
      → Saves
          (λ next. IsReadFrom next table)
          (cancel_read now (require_owned_task agent_id id now table))
  cancel-Saves agent_id = elim (Lookup-cases (require_owned_task agent_id id now table)) [
    | inl (x, e) ↦ subst (λ l. SavesRead (cancel_read now l)) (sym e) tt
    | inr (row, e) ↦
        subst (λ l. SavesRead (cancel_read now l)) (sym e)
          (if_eq SavesRead (is_mcp_task_terminal_status row.status) _ _ (λ _. tt)
            (λ d.
              read_from id table row (cancelled_task now row)
                (require_owned_task-ok agent_id id now table row e).0 refl d
                (λ w. cancelled_task-IsWellFormed row w now d)))
  ]
