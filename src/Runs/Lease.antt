-- ===== src/Runs/Lease.antt =====
-- Claims of runs (apps/shaiden/src/runs/pg-run-repository.ts): when they succeed, and whom they shut
-- out.
use keidai.Common.{
  ℕ, ◌≤◌, String, eq_iff, ◌≡◌, refl, ap, sym, Bool, true, false, not, ◌&&◌, none, some, List, arith,
  inl, inr, Bool-cases, Option-cases, Elem, ◌∙◌, find, find_key, update-none, Elem-filter,
  find-update_guarded, update_where, count_where, count-by_key, ◌==◌,
}
use keidai.Runs.{RunRow, RunTables, no_tables, is_running, has_id, get_run_row, update_run}
use keidai.Runs.Ops.{
  is_none, is_unowned, is_due, claim_run, claimed_row, list_claimable_parked_mcp_tasks,
}
use keidai.Runs.Steps.{RunOp, op_claim, apply_op, apply_ops}
use keidai.Runs.Single.{row_id, IsSound, apply_op-IsSound, apply_ops-IsSound, no_tables-IsSound}
use keidai.Runs.Held.{IsHeld, RespectAll, apply_ops-IsHeld}

-- What a guarded update of the row of an id answers, and what it leaves when the guard holds.
module _ (id : String) (rows : List RunRow) (h : IsSound rows) where
  pub hit :
      (guard : RunRow → Bool) (r : RunRow)
      → find (has_id id) rows ≡ some r
      → not (count_where (λ x. has_id id x && guard x) rows == 0) ≡ guard r
  hit guard r found = elim (Bool-cases (guard r)) [
    | inl e ↦ ground (arith, count-by_key row_id id guard rows h.distinct, found, e)
    | inr e ↦ ground (arith, count-by_key row_id id guard rows h.distinct, found, e)
  ]

  miss :
      (guard : RunRow → Bool)
      → find (has_id id) rows ≡ none
      → not (count_where (λ x. has_id id x && guard x) rows == 0) ≡ false
  miss guard found = ground (arith, count-by_key row_id id guard rows h.distinct, found)

module _ (id owner : String) (expires now : ℕ) (s : RunTables) (h : IsSound s.runs) where
  claimed :
      (r : RunRow)
      → get_run_row id s ≡ some r
      → is_running r ≡ true
      → is_unowned now r ≡ true
      → ((claim_run id owner expires now s).0 ≡ true)
        × IsHeld id owner expires (claim_run id owner expires now s).1.runs
  unfolding claim_run update_run get_run_row
  claimed r found runs free =
      let guard : RunRow → Bool = λ x. is_running x && is_unowned now x in
      let seen : find (has_id id)
            (update_where (λ x. has_id id x && guard x) (claimed_row owner expires) s.runs)
          ≡ some (claimed_row owner expires r) =
        ground (
          arith,
          find-update_guarded row_id id guard (claimed_row owner expires) s.runs (λ x. refl),
          found,
          runs,
          free,
        ) in
      (
        hit id s.runs h guard r found ∙ ground (arith, runs, free),
        (claimed_row owner expires r, seen, (runs, (eq_iff owner owner).1 refl, ground arith)),
      )

  claim_run-IsHeld :
      (claim_run id owner expires now s).0 ≡ true
      → IsHeld id owner expires (claim_run id owner expires now s).1.runs
  unfolding claim_run update_run get_run_row
  claim_run-IsHeld ok = elim (Option-cases (find (has_id id) s.runs)) [
    | inl e ↦
        absurd (ground (arith, miss id s.runs h (λ x. is_running x && is_unowned now x) e, ok))
    | inr (r, e) ↦
        let free = sym (hit id s.runs h (λ x. is_running x && is_unowned now x) r e) ∙ ok in
        (claimed r e (ground (arith, free)) (ground (arith, free))).1
  ]

  -- A claim of a held run changes nothing.
  pub claim_run-held :
      (holder : String) (until : ℕ)
      → IsHeld id holder until s.runs
      → now ≤ until
      → claim_run id owner expires now s ≡ (false, s)
  unfolding claim_run update_run
  claim_run-held holder until (r, found, held) le =
      let guard : RunRow → Bool = λ x. is_running x && is_unowned now x in
      let none_hit : count_where (λ x. has_id id x && guard x) s.runs ≡ 0 =
        ground (arith, hit id s.runs h guard r found, held, le) in
      let rows = update_where (λ x. has_id id x && guard x) (claimed_row owner expires) s.runs in
      ap (λ n. (not (n == 0), record s { runs = rows })) none_hit
      ∙ ap (λ x. (false, record s { runs = x }))
          (update-none (λ x. has_id id x && guard x) (claimed_row owner expires) s.runs none_hit)

module _ (preview : String → String) (id_after id_before : String → String → Bool)
    (retention : ℕ) where
  -- After any operations on empty tables, when a worker's claim of a run succeeds, and the operations that
  -- follow do not complete the run, do not release it or shorten its lease in that worker's name, and
  -- claim it no later than its lease lasts, the worker still holds the run with that lease or a longer
  -- one, and a claim of it by anyone, no later than the lease lasts, is refused and changes nothing.
  pub claim_run-exclusive :
      (before after : List (RunOp × ℕ)) (id owner other : String) (expires now until at : ℕ)
      → (claim_run id owner expires now
          (apply_ops preview id_after id_before retention before no_tables)).0
        ≡ true
      → RespectAll id owner expires after
      → at ≤ expires
      → let s = apply_ops preview id_after id_before retention before no_tables in
        let s' =
          apply_ops preview id_after id_before retention after
            (claim_run id owner expires now s).1 in
        IsHeld id owner expires s'.runs × (claim_run id other until at s' ≡ (false, s'))
  unfolding apply_op
  claim_run-exclusive before after id owner other expires now until at ok respects le =
      let s = apply_ops preview id_after id_before retention before no_tables in
      let sound =
        apply_ops-IsSound preview id_after id_before retention before no_tables
          (no_tables-IsSound preview id_after id_before retention) in
      let claimed_sound =
        apply_op-IsSound preview id_after id_before retention (op_claim id owner expires) now s
          sound in
      let s' =
        apply_ops preview id_after id_before retention after (claim_run id owner expires now s).1 in
      let held =
        apply_ops-IsHeld preview id_after id_before retention id owner expires after
          (claim_run id owner expires now s).1 respects
          (claim_run-IsHeld id owner expires now s sound ok) in
      let sound' =
        apply_ops-IsSound preview id_after id_before retention after
          (claim_run id owner expires now s).1 claimed_sound in
      (held, claim_run-held id other until at s' sound' owner expires held le)

  -- After any operations on empty tables, a run that is listed as claimable at a time can be claimed at
  -- that time: the claim succeeds, and leaves the run held by the worker until the time it asked for.
  pub claimable-claimed :
      (ops : List (RunOp × ℕ)) (r : RunRow) (owner : String) (expires now : ℕ)
      → Elem r (
          list_claimable_parked_mcp_tasks now
            (apply_ops preview id_after id_before retention ops no_tables))
      → let s = apply_ops preview id_after id_before retention ops no_tables in
        ((claim_run r.id owner expires now s).0 ≡ true)
        × IsHeld r.id owner expires (claim_run r.id owner expires now s).1.runs
  unfolding list_claimable_parked_mcp_tasks get_run_row
  claimable-claimed ops r owner expires now m =
      let s = apply_ops preview id_after id_before retention ops no_tables in
      let sound =
        apply_ops-IsSound preview id_after id_before retention ops no_tables
          (no_tables-IsSound preview id_after id_before retention) in
      let (there, ready) =
        Elem-filter
          (λ x. is_running x && (not (is_none x.mcp_task_id) && (is_unowned now x && is_due now x)))
          r s.runs m in
      claimed r.id owner expires now s sound r (find_key row_id s.runs r sound.distinct there)
        (ground (arith, ready)) (ground (arith, ready))
