-- ===== src/Runs/Single.antt =====
-- The running runs of a task, and the fields that go with a row's status, after any operations of the
-- run repository (apps/shaiden/src/runs/pg-run-repository.ts).
use keidai.Common.{
  ℕ, ◌≤◌, String, str_eq, eq_iff, ◌≡◌, refl, sym, subst, Bool, false, ◌&&◌, Option, some, List, [],
  ◌∷◌, ◌++◌, map, arith, if◌then◌else◌, inl, inr, Bool-cases, Elem, IsDistinct, IsDistinct-append,
  All, All-append, any, find, update_where, delete_where, count_where, count-update_le,
  count-update_quiet, count-delete_le, count-append, count-any, count-by_key, count-ext,
  IsDistinct-delete, All-update, All-delete, map-key_update, map-append,
}
use keidai.Runs.{RunRow, RunTables, no_tables, is_completed, has_id, runs_task}
use keidai.Runs.Continue.{NewMessage, continued}
use keidai.Run.{ConversationEntry}
use keidai.Runs.Steps.{RunOp, apply_op, apply_ops}
use keidai.Runs.Changes.{Change, same, insert, write, restart, IsConsistent, IsQuiet}
use keidai.Runs.Applied.{apply_op-Change}

abbrev pub row_id : RunRow → String
row_id r = r.id

pub record IsSound (rows : List RunRow) : Type 0 where
  pub distinct : IsDistinct (map row_id rows)
  pub single : (task : String) → count_where (runs_task task) rows ≤ 1
  pub consistent : All IsConsistent rows

any-id :
    (id : String) (rows : List RunRow) → any (has_id id) rows ≡ false → ¬ Elem id (map row_id rows)
any-id id [] h = λ m. m
any-id id (r ∷ rows) h = ground (arith, eq_iff r.id id, any-id id rows)

runs_task-append :
    (task : String) (r : RunRow) (rows : List RunRow)
    → count_where (runs_task task) rows ≤ 1
    → any (runs_task r.task_id) rows ≡ false
    → count_where (runs_task task) (rows ++ r ∷ []) ≤ 1
runs_task-append task r rows h fresh = elim (Bool-cases (str_eq r.task_id task)) [
  | inl e ↦
      let same_task = (eq_iff r.task_id task).0 e in
      let none_there =
        count-any (runs_task task) rows
          (subst (λ t. any (runs_task t) rows ≡ false) same_task fresh) in
      ground (arith, none_there, count-append (runs_task task) rows (r ∷ []))
  | inr e ↦ ground (arith, h, e, count-append (runs_task task) rows (r ∷ []))
]

insert-IsSound :
    (r : RunRow) (gone : RunRow → Bool) (rows : List RunRow)
    → any (has_id r.id) rows ≡ false
    → any (runs_task r.task_id) rows ≡ false
    → IsConsistent r
    → IsSound rows
    → IsSound (delete_where gone (rows ++ r ∷ []))
insert-IsSound r gone rows fresh idle c h = record {
  distinct = IsDistinct-delete row_id gone (rows ++ r ∷ []) (
      subst IsDistinct (sym (map-append row_id rows (r ∷ [])))
        (IsDistinct-append (map row_id rows) r.id (any-id r.id rows fresh) h.distinct));
  single = λ task. omega (
    arith,
    count-delete_le (runs_task task) gone (rows ++ r ∷ []),
    runs_task-append task r rows (h.single task) idle,
  );
  consistent =
      All-delete IsConsistent gone (rows ++ r ∷ [])
        (All-append IsConsistent rows (r ∷ []) h.consistent (c, tt));
}

write-IsSound :
    (op : RunOp) (now : ℕ) (id : String) (guard : RunRow → Bool) (f : RunRow → RunRow)
    (rows : List RunRow)
    → IsQuiet op now id guard f
    → IsSound rows
    → IsSound (update_where (λ r. has_id id r && guard r) f rows)
write-IsSound op now id guard f rows quiet h = record {
  distinct =
      subst IsDistinct
        (sym (map-key_update row_id (λ r. has_id id r && guard r) f rows quiet.keeps_id))
        h.distinct;
  single = λ task.
      let le =
        count-update_quiet (runs_task task) (λ r. has_id id r && guard r) f rows
          (λ x e. ground (arith, e, quiet.starts_none x, quiet.keeps_task x)) in
      omega (arith, le, h.single task);
  consistent =
      All-update IsConsistent (λ r. has_id id r && guard r) f rows
        (λ x e c. quiet.keeps_consistent x (ground (arith, e)) c) h.consistent;
}

module _ (r : RunRow) (history : List ConversationEntry) (message : Option NewMessage) (now : ℕ)
    (rows : List RunRow) where
  -- The rows that the write turns into running ones of a task: the row itself, if it is of the task.
  restarted-count :
      (task : String)
      → IsDistinct (map row_id rows)
      → find (has_id r.id) rows ≡ some r
      → count_where
          (λ x.
            (has_id r.id x && is_completed x) && runs_task task (continued history message now x))
          rows
        ≡ (if is_completed r && str_eq r.task_id task then 1 else 0)
  restarted-count task d found = ground (
    arith,
    count-ext
        (λ x. (has_id r.id x && is_completed x) && runs_task task (continued history message now x))
        (λ x. has_id r.id x && (is_completed x && str_eq x.task_id task)) rows (λ x. ground arith),
    count-by_key row_id r.id (λ x. is_completed x && str_eq x.task_id task) rows d,
    found,
  )

  restart-IsSound :
      find (has_id r.id) rows ≡ some r
      → any (runs_task r.task_id) rows ≡ false
      → IsSound rows
      → IsSound
          (update_where (λ x. has_id r.id x && is_completed x) (continued history message now) rows)
  restart-IsSound found idle h = record {
    distinct =
        subst IsDistinct
          (sym (
            map-key_update row_id (λ x. has_id r.id x && is_completed x)
              (continued history message now) rows (λ x. refl)))
          h.distinct;
    single = λ task.
        let le =
          count-update_le (runs_task task) (λ x. has_id r.id x && is_completed x)
            (continued history message now) rows in
        elim (Bool-cases (str_eq r.task_id task)) [
          | inl e ↦
              let same_task = (eq_iff r.task_id task).0 e in
              let idle_task =
                count-any (runs_task task) rows
                  (subst (λ t. any (runs_task t) rows ≡ false) same_task idle) in
              ground (arith, le, idle_task, restarted-count task h.distinct found)
          | inr e ↦ ground (arith, e, le, h.single task, restarted-count task h.distinct found)
        ];
    consistent =
        All-update IsConsistent (λ x. has_id r.id x && is_completed x)
          (continued history message now) rows (λ x e c. refl) h.consistent;
  }

change-IsSound :
    (op : RunOp) (now : ℕ) (rows rows' : List RunRow)
    → Change op now rows rows'
    → IsSound rows
    → IsSound rows'
change-IsSound op now rows rows' (same e) h = subst IsSound (sym e) h
change-IsSound op now rows rows' (insert r gone fresh idle c spares e) h =
    subst IsSound (sym e) (insert-IsSound r gone rows fresh idle c h)
change-IsSound op now rows rows' (write id guard f quiet e) h =
    subst IsSound (sym e) (write-IsSound op now id guard f rows quiet h)
change-IsSound op time rows rows' (restart r history message now found idle e) h =
    subst IsSound (sym e) (restart-IsSound r history message now rows found idle h)

module _ (preview : String → String) (id_after id_before : String → String → Bool)
    (retention : ℕ) where
  pub apply_op-IsSound :
      (op : RunOp) (now : ℕ) (s : RunTables)
      → IsSound s.runs
      → IsSound (apply_op preview id_after id_before retention op now s).runs
  apply_op-IsSound op now s h =
      change-IsSound op now s.runs (apply_op preview id_after id_before retention op now s).runs
        (apply_op-Change preview id_after id_before retention now s op) h

  pub apply_ops-IsSound :
      (ops : List (RunOp × ℕ)) (s : RunTables)
      → IsSound s.runs
      → IsSound (apply_ops preview id_after id_before retention ops s).runs
  unfolding apply_ops
  apply_ops-IsSound [] s h = h
  apply_ops-IsSound ((op, now) ∷ ops) s h =
      apply_ops-IsSound ops (apply_op preview id_after id_before retention op now s)
        (apply_op-IsSound op now s h)

  pub no_tables-IsSound : IsSound no_tables.runs
  no_tables-IsSound = record { distinct = tt; single = λ task. omega arith; consistent = tt }

  -- After any operations on empty tables, at most one run of a task is running, however the calls that
  -- create runs, complete them and start completed ones again follow one another.
  pub apply_ops-single :
      (ops : List (RunOp × ℕ)) (task : String)
      → count_where
          (runs_task task)
          (apply_ops preview id_after id_before retention ops no_tables).runs
        ≤ 1
  apply_ops-single ops task = (apply_ops-IsSound ops no_tables no_tables-IsSound).single task

  -- After any operations on empty tables, a running run has no outcome, and a completed one has an
  -- outcome and neither an owner, a lease, a parked call nor a time of its next poll.
  pub apply_ops-IsConsistent :
      (ops : List (RunOp × ℕ))
      → All IsConsistent (apply_ops preview id_after id_before retention ops no_tables).runs
  apply_ops-IsConsistent ops = (apply_ops-IsSound ops no_tables no_tables-IsSound).consistent
