-- ===== src/Runs/FollowUps.antt =====
-- Messages for a parked run: enqueueParkedFollowUp and drainParkedFollowUps of
-- apps/shaiden/src/runs/pg-run-repository.ts.
use keidai.Common.{
  ℕ, String, str_eq, Bool, true, false, not, ◌&&◌, ◌||◌, none, some, List, [], ◌∷◌, ◌++◌, map,
  if◌then◌else◌, ltb, ◌==◌, any, filter, delete_where,
}
use keidai.Run.{ConversationEntry, user}
use keidai.Runs.{
  always, RunRow, RunStep, FollowUp, RunTables, is_running, has_id, update_run, with_step, is_step,
  Appended, no_run, appended, append_throws,
}

abbrev pub is_parked : RunRow → Bool
is_parked r = is_running r && (elim r.mcp_task_id [ none ↦ false | some id ↦ true ])

-- `follow_up` holds the message under the id and the time that the statement draws; `no_run` is the
-- answer false.
unfoldable pub enqueue_parked_follow_up : FollowUp → RunStep → ℕ → RunTables → Appended × RunTables
unfolding update_run
enqueue_parked_follow_up follow_up step now s =
    if not (any (λ r. has_id follow_up.run_id r && is_parked r) s.runs)
    then (no_run, s)
    else if any (λ f. str_eq f.id follow_up.id) s.follow_ups || any (is_step step) s.run_steps
    then (append_throws, s)
    else (
      appended,
      (update_run follow_up.run_id always (with_step now) (record s {
        follow_ups = s.follow_ups ++ follow_up ∷ [];
        run_steps = s.run_steps ++ step ∷ [];
      })).1,
    )

-- `ORDER BY created_at ASC, id ASC`, by the order `id_before` of the texts.
module _ (id_before : String → String → Bool) where
  abbrev pub comes_before : FollowUp → FollowUp → Bool
  comes_before a b =
      ltb a.created_at b.created_at || (a.created_at == b.created_at && id_before a.id b.id)

  unfoldable pub insert_by : FollowUp → List FollowUp → List FollowUp
  insert_by f [] = f ∷ []
  insert_by f (g ∷ gs) =
      let rest = insert_by f gs in if comes_before f g then f ∷ g ∷ gs else g ∷ rest

  unfoldable pub order_by : List FollowUp → List FollowUp
  unfolding insert_by
  order_by [] = []
  order_by (f ∷ fs) = insert_by f (order_by fs)

  unfoldable pub drain_parked_follow_ups : String → RunTables → List ConversationEntry × RunTables
  unfolding order_by
  drain_parked_follow_ups id s = (
    map (λ f. user f.text) (order_by (filter (λ f. str_eq f.run_id id) s.follow_ups)),
    record s { follow_ups = delete_where (λ f. str_eq f.run_id id) s.follow_ups },
  )
