-- ===== src/Harness/Stages.antt =====
-- The stages of a run's row from its worker's drive to the list of claimable runs
-- (apps/shaiden/src/run).
use keidai.Common.{
  ℕ, ◌≤◌, String, str_eq, ◌≡◌, sym, ap, ◌∙◌, subst, Bool, true, false, not, ◌&&◌, none, some, List,
  [], ◌∷◌, arith, if◌then◌else◌, if_eq, Elem, filter, find-Elem, find-holds, eq_iff,
}
use keidai.Runs.{RunRow, RunTables, running, completed, is_running, has_id, get_run_row}
use keidai.Runs.Ops.{is_none, is_unowned, is_due, is_owned_by, list_claimable_parked_mcp_tasks}
use keidai.Harness.Tracked.{HasRow, IsKept}

-- The stages of a run that its worker leaves.
abbrev pub IsWorked : String → RunRow → Type 0
IsWorked replica r = (r.status ≡ running) × (is_owned_by replica r ≡ true)

abbrev pub IsParked : String → String → RunRow → Type 0
IsParked replica task r = IsWorked replica r × (r.mcp_task_id ≡ some task)

abbrev pub IsPolled : String → String → ℕ → RunRow → Type 0
IsPolled replica task at r = IsParked replica task r × (r.next_poll_at ≡ some at)

abbrev pub IsLeft : String → ℕ → RunRow → Type 0
IsLeft task at r =
    (r.status ≡ running)
    × (r.owner_id ≡ none)
    × (r.mcp_task_id ≡ some task)
    × (r.next_poll_at ≡ some at)

pub IsWorked-kept :
    (replica : String) (r r' : RunRow) → IsKept r r' → IsWorked replica r → IsWorked replica r'
IsWorked-kept replica r r' k (runs, owned) = (
  k.status ∙ runs,
  subst (λ o. (elim o [ none ↦ false | some o ↦ str_eq o replica ]) ≡ true) (sym k.owner_id) owned,
)

pub IsParked-kept :
    (replica task : String) (r r' : RunRow)
    → IsKept r r'
    → IsParked replica task r
    → IsParked replica task r'
IsParked-kept replica task r r' k (worked, there) =
    (IsWorked-kept replica r r' k worked, k.mcp_task_id ∙ there)

pub IsPolled-kept :
    (replica task : String) (at : ℕ) (r r' : RunRow)
    → IsKept r r'
    → IsPolled replica task at r
    → IsPolled replica task at r'
IsPolled-kept replica task at r r' k (stays, due) =
    (IsParked-kept replica task r r' k stays, k.next_poll_at ∙ due)

pub runs_on : (r : RunRow) → r.status ≡ running → is_running r ≡ true
runs_on r e = ap (λ x. elim x [ running ↦ true | completed ↦ false ]) e

-- A guarded write to a row that meets the guard.
pub written :
    (P : RunRow → Type 0) (c : Bool) (x y : RunRow) → c ≡ true → P x → P (if c then x else y)
written P c x y e h = if_eq P c x y (λ _. h) (λ off. absurd (ground (arith, e, off)))

Elem-filter_kept :
    {A : Type 0} (p : A → Bool) (x : A) (xs : List A)
    → Elem x xs
    → p x ≡ true
    → Elem x (filter p xs)
Elem-filter_kept p x [] m h = absurd m
Elem-filter_kept p x (y ∷ ys) m h =
    ground (arith, m, h, λ (r : Elem x ys). Elem-filter_kept p x ys r h, λ (e : y ≡ x). ap p e)

pub list-Elem :
    (id task : String) (at now : ℕ) (t : RunTables)
    → at ≤ now
    → HasRow (IsLeft task at) id t
    → (r : RunRow) × Elem r (list_claimable_parked_mcp_tasks now t)
      × (r.id ≡ id)
      × (r.mcp_task_id ≡ some task)
unfolding list_claimable_parked_mcp_tasks get_run_row
list-Elem id task at now t le (r, found, (runs, free, there, due)) =
    let ready : (is_running r
          && (not (is_none r.mcp_task_id) && (is_unowned now r && is_due now r)))
        ≡ true =
      ground (arith, runs_on r runs, free, there, due, le) in
    (
      r,
      Elem-filter_kept
          (λ x. is_running x && (not (is_none x.mcp_task_id) && (is_unowned now x && is_due now x)))
          r t.runs (find-Elem (has_id id) t.runs r found) ready,
      (eq_iff r.id id).0 (find-holds (has_id id) t.runs r found),
      there,
    )
