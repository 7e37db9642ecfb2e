-- ===== src/Runs/Held.antt =====
-- The lease of a run (apps/shaiden/src/runs/pg-run-repository.ts) along operations that respect it.
use keidai.Common.{
  ℕ, String, ◌≡◌, refl, sym, subst, Bool, true, false, ◌&&◌, some, List, [], ◌∷◌, ◌++◌, arith,
  if◌then◌else◌, inl, inr, Bool-cases, str_eq-cases, ◌∙◌, find-delete_kept, find, delete_where,
  find-update_guarded, find-update_other, find-append, update_where,
}
use mathlib.Core.Option
use keidai.Runs.{RunRow, RunTables, is_running, is_completed, has_id}
use keidai.Runs.Continue.{continued}
use keidai.Runs.Steps.{RunOp, apply_op, apply_ops}
use keidai.Runs.Changes.{Change, same, insert, write, restart, IsHeldRow, Respects}
use keidai.Runs.Applied.{apply_op-Change}
use keidai.Runs.Single.{row_id}

-- The run is there, runs, and is leased to the owner until the time or longer.
abbrev pub IsHeld : String → String → ℕ → List RunRow → Type 0
IsHeld id owner expires rows =
    (r : RunRow) × (find (has_id id) rows ≡ some r) × IsHeldRow owner expires r

abbrev pub RespectAll : String → String → ℕ → List (RunOp × ℕ) → Type 0
RespectAll id owner expires [] = Unit
RespectAll id owner expires ((op, now) ∷ ops) =
    Respects id owner expires op now × RespectAll id owner expires ops

module _ (id owner : String) (expires : ℕ) where
  insert-IsHeld :
      (new : RunRow) (gone : RunRow → Bool) (rows : List RunRow)
      → ((x : RunRow) → is_running x ≡ true → gone x ≡ false)
      → IsHeld id owner expires rows
      → IsHeld id owner expires (delete_where gone (rows ++ new ∷ []))
  insert-IsHeld new gone rows spares (r, found, held) = (
    r,
    find-delete_kept (has_id id) gone (rows ++ new ∷ []) r
        (ground (arith, find-append (has_id id) rows new, found)) (spares r held.0),
    held,
  )

  -- A guarded write to the row of an id, where it keeps the lease if that is the run's own.
  update-IsHeld :
      (j : String) (guard : RunRow → Bool) (f : RunRow → RunRow) (rows : List RunRow)
      → ((r : RunRow) → (f r).id ≡ r.id)
      → (j ≡ id
          → (r : RunRow) → guard r ≡ true
          → IsHeldRow owner expires r
          → IsHeldRow owner expires (f r))
      → IsHeld id owner expires rows
      → IsHeld id owner expires (update_where (λ r. has_id j r && guard r) f rows)
  update-IsHeld j guard f rows keep keeps_held (r, found, held) = elim (str_eq-cases j id) [
    | inr (ne, _) ↦ (r, find-update_other row_id j id guard f rows keep ne ∙ found, held)
    | inl (e, _) ↦
        let seen =
          subst
            (λ k.
              find (has_id id) (update_where (λ r. has_id k r && guard r) f rows)
              ≡ Option.map (λ x. if guard x then f x else x) (find (has_id id) rows))
            (sym e) (find-update_guarded row_id id guard f rows keep) in
        elim (Bool-cases (guard r)) [
          | inl g ↦ (f r, ground (arith, seen, found, g), keeps_held e r g held)
          | inr g ↦ (r, ground (arith, seen, found, g), held)
        ]
  ]

  change-IsHeld :
      (op : RunOp) (now : ℕ) (rows rows' : List RunRow)
      → Change op now rows rows'
      → Respects id owner expires op now
      → IsHeld id owner expires rows
      → IsHeld id owner expires rows'
  change-IsHeld op now rows rows' (same e) a h = subst (IsHeld id owner expires) (sym e) h
  change-IsHeld op now rows rows' (insert r gone fresh idle c spares e) a h =
      subst (IsHeld id owner expires) (sym e) (insert-IsHeld r gone rows spares h)
  change-IsHeld op now rows rows' (write j guard f quiet e) a h =
      subst (IsHeld id owner expires) (sym e) (
        update-IsHeld j guard f rows quiet.keeps_id
          (λ k r g held.
            quiet.keeps_held owner expires r g
              (subst (λ i. Respects i owner expires op now) (sym k) a) held)
          h)
  change-IsHeld op now rows rows' (restart r history message t found idle e) a h =
      subst (IsHeld id owner expires) (sym e) (
        update-IsHeld r.id is_completed (continued history message t) rows (λ x. refl)
          (λ k x g held. absurd (ground (arith, g, held))) h)

module _ (preview : String → String) (id_after id_before : String → String → Bool)
    (retention : ℕ) where
  pub apply_ops-IsHeld :
      (id owner : String) (expires : ℕ) (ops : List (RunOp × ℕ)) (s : RunTables)
      → RespectAll id owner expires ops
      → IsHeld id owner expires s.runs
      → IsHeld id owner expires (apply_ops preview id_after id_before retention ops s).runs
  unfolding apply_ops
  apply_ops-IsHeld id owner expires [] s a h = h
  apply_ops-IsHeld id owner expires ((op, now) ∷ ops) s (a, bs) h =
      let next = apply_op preview id_after id_before retention op now s in
      apply_ops-IsHeld id owner expires ops next bs (
        change-IsHeld id owner expires op now s.runs next.runs
          (apply_op-Change preview id_after id_before retention now s op) a h)
