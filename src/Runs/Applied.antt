-- ===== src/Runs/Applied.antt =====
-- What any operation of the run repository changes in the table `runs`.
use keidai.Common.{
  ℕ, String, ◌≡◌, refl, Bool, true, false, ◌&&◌, ◌⊎◌, inl, inr, Option, none, some, List, [], ◌∷◌,
  ◌++◌, arith, Bool-cases, Option-cases, any, find, find-holds, count_where, ◌==◌, subst, sym,
  eq_iff, update_where,
}
use keidai.Run.{ConversationEntry}
use keidai.Runs.{
  RunRow, RunTables, is_running, is_completed, has_id, runs_task, update_run, get_run_row,
  is_excess, trim, CreateRunRequest, new_run, create_run, is_step,
}
use keidai.Runs.FollowUps.{drain_parked_follow_ups}
use keidai.Runs.Continue.{
  NewMessage, continued, continue_row, begin_continuation, is_eligible_continuation_outcome,
  steps_of,
}
use keidai.Runs.Steps.{
  RunOp, op_create, op_append, op_complete, op_history, op_budget, op_park, op_unpark, op_poll,
  op_enqueue, op_drain, op_claim, op_renew, op_release, op_continue, apply_op,
}
use keidai.Runs.Changes.{Change, same, insert, restart}
use keidai.Runs.Updates.{
  append-Change, enqueue-Change, complete-Change, history-Change, budget-Change, park-Change,
  unpark-Change, poll-Change, claim-Change, renew-Change, release-Change,
}

running-not_excess :
    (id_after : String → String → Bool) (retention : ℕ) (rows : List RunRow) (x : RunRow)
    → is_running x ≡ true
    → is_excess id_after retention rows x ≡ false
unfolding is_excess
running-not_excess id_after retention rows x h = ground (arith, h)

module _ (preview : String → String) (id_after : String → String → Bool) (retention now : ℕ)
    (s : RunTables) where
  create-Change :
      (input : CreateRunRequest)
      → Change (op_create input) now s.runs (create_run preview id_after retention input s).1.runs
  unfolding create_run trim new_run
  create-Change input = elim (Bool-cases (any (has_id input.id) s.runs)) [
    | inl e ↦ same (ground (arith, e))
    | inr e ↦ elim (Bool-cases (any (runs_task input.task_id) s.runs)) [
      | inl d ↦ same (ground (arith, e, d))
      | inr d ↦
          insert (new_run preview input)
            (is_excess id_after retention (s.runs ++ new_run preview input ∷ [])) e d refl
            (running-not_excess id_after retention (s.runs ++ new_run preview input ∷ []))
            (ground (arith, e, d))
    ]
  ]

History-cases :
    (h : Option (List ConversationEntry))
    → (h ≡ none)
      ⊎ (h ≡ some [])
      ⊎ ((e : ConversationEntry) × (rest : List ConversationEntry) × (h ≡ some (e ∷ rest)))
History-cases none = inl refl
History-cases (some []) = inr (inl refl)
History-cases (some (e ∷ rest)) = inr (inr (e, rest, refl))

module _ (id : String) (message : Option NewMessage) (now : ℕ) (s : RunTables) where
  continue_row-Change :
      (r : RunRow) (history : List ConversationEntry)
      → find (has_id id) s.runs ≡ some r
      → r.id ≡ id
      → Change (op_continue id message) now s.runs (continue_row id r history message now s).1.runs
  unfolding continue_row update_run
  continue_row-Change r history found k =
      elim (Bool-cases (count_where (λ x. has_id id x && is_completed x) s.runs == 0)) [
        | inl e ↦ same (ground (arith, e))
        | inr e ↦ elim (Bool-cases (any (runs_task r.task_id) s.runs)) [
          | inl d ↦ same (ground (arith, e, d))
          | inr d ↦
              elim (Bool-cases (any (λ new. any (is_step new) s.run_steps) (steps_of message))) [
                | inl g ↦ same (ground (arith, e, d, g))
                | inr g ↦
                    restart r history message now
                      (subst (λ j. find (has_id j) s.runs ≡ some r) (sym k) found) d
                      (subst
                        (λ j.
                          (continue_row id r history message now s).1.runs
                          ≡ update_where (λ x. has_id j x && is_completed x)
                              (continued history message now) s.runs)
                        (sym k) (ground (arith, e, d, g)))
              ]
        ]
      ]

  continue-Change :
      Change (op_continue id message) now s.runs (begin_continuation id message now s).1.runs
  unfolding begin_continuation get_run_row
  continue-Change = elim (Option-cases (find (has_id id) s.runs)) [
    | inl e ↦ same (ground (arith, e))
    | inr (r, e) ↦ elim (Bool-cases (is_running r)) [
      | inl d ↦ same (ground (arith, e, d))
      | inr d ↦ elim (Bool-cases (is_eligible_continuation_outcome r.outcome)) [
        | inr g ↦ same (ground (arith, e, d, g))
        | inl g ↦ elim (History-cases r.conversation_history) [
          | inl h ↦ same (ground (arith, e, d, g, h))
          | inr (inl h) ↦ same (ground (arith, e, d, g, h))
          | inr (inr (entry, rest, h)) ↦
              subst (λ rows. Change (op_continue id message) now s.runs rows)
                (sym (ground (arith, e, d, g, h)))
                (continue_row-Change r (entry ∷ rest) e
                  ((eq_iff r.id id).0 (find-holds (has_id id) s.runs r e)))
        ]
      ]
    ]
  ]

module _ (preview : String → String) (id_after id_before : String → String → Bool) (retention : ℕ)
    (now : ℕ) (s : RunTables) where
  pub apply_op-Change :
      (op : RunOp)
      → Change op now s.runs (apply_op preview id_after id_before retention op now s).runs
  unfolding apply_op drain_parked_follow_ups
  apply_op-Change (op_create input) = create-Change preview id_after retention now s input
  apply_op-Change (op_append step) = append-Change "" now s step
  apply_op-Change (op_complete id outcome) = complete-Change id now s outcome
  apply_op-Change (op_history id history) = history-Change id now s history
  apply_op-Change (op_budget id budget) = budget-Change id now s budget
  apply_op-Change (op_park id mcp_task_id interval) = park-Change id now s mcp_task_id interval
  apply_op-Change (op_unpark id) = unpark-Change id now s
  apply_op-Change (op_poll id at) = poll-Change id now s at
  apply_op-Change (op_enqueue f step) = enqueue-Change "" now s f step
  apply_op-Change (op_drain id) = same refl
  apply_op-Change (op_claim id owner expires) = claim-Change id now s owner expires
  apply_op-Change (op_renew id owner expires) = renew-Change id now s owner expires
  apply_op-Change (op_release id owner) = release-Change id now s owner
  apply_op-Change (op_continue id message) = continue-Change id message now s
