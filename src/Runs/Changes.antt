-- ===== src/Runs/Changes.antt =====
-- The operations of the run repository as changes of the table `runs`: nothing, a new row and the
-- deletion of completed ones, a write to the row of an id that starts no run, or the write that starts
-- a completed run again.
use keidai.Common.{
  ℕ, String, eq_iff, Option-cases, ◌≡◌, refl, Bool, true, false, ◌&&◌, ◌⊎◌, ◌≢◌, ◌≤◌, leb, inl, inr,
  Option, none, some, List, [], ◌∷◌, ◌++◌, arith, Option-cases, any, find, update_where,
  delete_where,
}
use keidai.Run.{ConversationEntry}
use keidai.Runs.{RunRow, RunStatus, running, completed, is_running, is_completed, has_id, runs_task}
use keidai.Runs.Continue.{NewMessage, continued}
use keidai.Runs.Ops.{is_none, is_owned_by}
use keidai.Runs.Steps.{RunOp, op_complete, op_claim, op_renew, op_release}

-- A running run has no outcome; a completed one has an outcome, and nothing that a worker could hold
-- or poll.
abbrev pub IsConsistent : RunRow → Type 0
IsConsistent r = elim r.status [
  | running ↦ r.outcome ≡ none
  | completed ↦
      (is_none r.outcome ≡ false)
      × (r.mcp_task_id ≡ none)
      × (r.mcp_task_poll_interval_ms ≡ none)
      × (r.next_poll_at ≡ none)
      × (r.owner_id ≡ none)
      × (r.lease_expires_at ≡ none)
]

-- The row is leased to the owner until the time or longer.
abbrev pub IsHeldRow : String → ℕ → RunRow → Type 0
IsHeldRow owner expires r =
    (is_running r ≡ true)
    × (is_owned_by owner r ≡ true)
    × ((elim r.lease_expires_at [ none ↦ false | some at ↦ leb expires at ]) ≡ true)

-- An operation at a time that respects a lease: it does not complete the run, does not release it or
-- shorten its lease in the owner's name, and claims it no later than the lease lasts.
abbrev pub Respects : String → String → ℕ → RunOp → ℕ → Type 0
Respects id owner expires (op_complete j outcome) now = j ≢ id
Respects id owner expires (op_release j o) now = (j ≢ id) ⊎ (o ≢ owner)
Respects id owner expires (op_renew j o at) now = (j ≢ id) ⊎ (o ≢ owner) ⊎ (expires ≤ at)
Respects id owner expires (op_claim j o at) now = (j ≢ id) ⊎ (now ≤ expires)
Respects id owner expires _ now = Unit

-- A write that starts no run, and where its guard holds keeps a consistent row consistent, and a lease
-- that the operation respects.
pub record IsQuiet (op : RunOp) (now : ℕ) (id : String) (guard : RunRow → Bool)
    (f : RunRow → RunRow) : Type 0 where
  pub keeps_id : (r : RunRow) → (f r).id ≡ r.id
  pub keeps_task : (r : RunRow) → (f r).task_id ≡ r.task_id
  pub starts_none : (r : RunRow) → is_running (f r) ≡ true → is_running r ≡ true
  pub keeps_consistent : (r : RunRow) → guard r ≡ true → IsConsistent r → IsConsistent (f r)
  pub keeps_held :
      (owner : String) (expires : ℕ) (r : RunRow)
      → guard r ≡ true
      → Respects id owner expires op now
      → IsHeldRow owner expires r
      → IsHeldRow owner expires (f r)

pub data Change (op : RunOp) (time : ℕ) (rows rows' : List RunRow) : Type 0 where
  same : rows' ≡ rows → Change op time rows rows'
  insert :
      (r : RunRow) (gone : RunRow → Bool)
      → any (has_id r.id) rows ≡ false
      → any (runs_task r.task_id) rows ≡ false
      → IsConsistent r
      → ((x : RunRow) → is_running x ≡ true → gone x ≡ false)
      → rows' ≡ delete_where gone (rows ++ r ∷ [])
      → Change op time rows rows'
  write :
      (id : String) (guard : RunRow → Bool) (f : RunRow → RunRow)
      → IsQuiet op time id guard f
      → rows' ≡ update_where (λ r. has_id id r && guard r) f rows
      → Change op time rows rows'
  restart :
      (r : RunRow) (history : List ConversationEntry) (message : Option NewMessage) (now : ℕ)
      → find (has_id r.id) rows ≡ some r
      → any (runs_task r.task_id) rows ≡ false
      → rows'
        ≡ update_where (λ x. has_id r.id x && is_completed x) (continued history message now) rows
      → Change op time rows rows'

pub owner_unique :
    (a b : String) (r : RunRow) → is_owned_by a r ≡ true → is_owned_by b r ≡ true → a ≡ b
owner_unique a b r h k = elim (Option-cases r.owner_id) [
  | inl e ↦ absurd (ground (arith, e))
  | inr (o, e) ↦ ground (arith, e, eq_iff o a, eq_iff o b)
]

Status-cases : (s : RunStatus) → (s ≡ running) ⊎ (s ≡ completed)
Status-cases running = inl refl
Status-cases completed = inr refl

-- A write that keeps the status and the outcome, and sets nothing that a completed row has not.
module _ (r r' : RunRow) (same_status : r'.status ≡ r.status)
    (same_outcome : r'.outcome ≡ r.outcome) where
  running-IsConsistent : is_running r ≡ true → IsConsistent r → IsConsistent r'
  running-IsConsistent h c = elim (Status-cases r.status) [
    | inl e ↦ ground (arith, e, same_status, same_outcome)
    | inr e ↦ absurd (ground (arith, e))
  ]

  cleared-IsConsistent :
      (r.mcp_task_id ≡ none → r'.mcp_task_id ≡ none)
      → (r.mcp_task_poll_interval_ms ≡ none → r'.mcp_task_poll_interval_ms ≡ none)
      → (r.next_poll_at ≡ none → r'.next_poll_at ≡ none)
      → (r.owner_id ≡ none → r'.owner_id ≡ none)
      → (r.lease_expires_at ≡ none → r'.lease_expires_at ≡ none)
      → IsConsistent r
      → IsConsistent r'
  cleared-IsConsistent f g h k l c = elim (Status-cases r.status) [
    | inl e ↦ ground (arith, e, same_status, same_outcome)
    | inr e ↦ ground (arith, e, same_status, same_outcome)
  ]

-- Writes that keep the status.
module _ (op : RunOp) (now : ℕ) (id : String) (guard : RunRow → Bool) (f : RunRow → RunRow)
    (keep_id : (r : RunRow) → (f r).id ≡ r.id)
    (keep_task : (r : RunRow) → (f r).task_id ≡ r.task_id)
    (keep_status : (r : RunRow) → (f r).status ≡ r.status)
    (keep_held : (owner : String) (expires : ℕ) (r : RunRow)
      → guard r ≡ true
      → Respects id owner expires op now
      → IsHeldRow owner expires r
      → IsHeldRow owner expires (f r)) where
  pub IsQuiet-row :
      ((r : RunRow) → guard r ≡ true → IsConsistent r → IsConsistent (f r))
      → IsQuiet op now id guard f
  IsQuiet-row c = record {
    keeps_id = keep_id;
    keeps_task = keep_task;
    starts_none = λ r h. ground (arith, keep_status r, h);
    keeps_consistent = c;
    keeps_held = keep_held;
  }

  module _ (keep_outcome : (r : RunRow) → (f r).outcome ≡ r.outcome) where
    pub running-IsQuiet :
        ((r : RunRow) → guard r ≡ true → is_running r ≡ true) → IsQuiet op now id guard f
    running-IsQuiet h =
        IsQuiet-row
          (λ r g c. running-IsConsistent r (f r) (keep_status r) (keep_outcome r) (h r g) c)

    pub cleared-IsQuiet :
        ((r : RunRow) → r.mcp_task_id ≡ none → (f r).mcp_task_id ≡ none)
        → ((r : RunRow)
            → r.mcp_task_poll_interval_ms ≡ none
            → (f r).mcp_task_poll_interval_ms ≡ none)
        → ((r : RunRow) → r.next_poll_at ≡ none → (f r).next_poll_at ≡ none)
        → ((r : RunRow) → r.owner_id ≡ none → (f r).owner_id ≡ none)
        → ((r : RunRow) → r.lease_expires_at ≡ none → (f r).lease_expires_at ≡ none)
        → IsQuiet op now id guard f
    cleared-IsQuiet a b c d e = IsQuiet-row (λ r _ h.
        cleared-IsConsistent r (f r) (keep_status r) (keep_outcome r) (a r) (b r) (c r) (d r) (e r)
          h)
