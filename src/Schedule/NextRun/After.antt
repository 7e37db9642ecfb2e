-- ===== src/Schedule/NextRun/After.antt =====
-- The times that nextRunAt of packages/shared/src/next-run-at.ts returns, for any trigger, and the
-- dispatcher of scheduled tasks that is given it (apps/shaiden/src/schedule/schedule-dispatcher.ts).
use keidai.Common.{
  ℕ, zero, suc, ◌+◌, ◌≤◌, ◌<◌, ◌≡◌, arith, Bool, true, false, String, Option, none, some, map, any,
  if◌then◌else◌, option_eq, if_both, if_eq, IsDistinct,
}
use keidai.Schedule.{TaskTrigger, now, schedule, ScheduleRecurrence, is_paused}
use keidai.Schedule.Civil.{CivilDateTime}
use keidai.Schedule.NextRun.{
  ZoneParts, Search, codes, is_eligible, matches_recurrence, next_cursor, parse_local_date_time,
  format_local_date_time, zoned_local_to_utc, find_occurrence, start_cursor, first_run, next_run_at,
  max_rounds,
}
use keidai.Schedule.Rows.{Task, TaskRow, has_task_id, due_rows, is_claimable, get_task_row}
use keidai.Schedule.Dispatcher.{Store, StartResult, fire_due_scheduled_tasks}
use keidai.Schedule.Slots.{task_key, KeepsTasks, IsStrict, fire_due_scheduled_tasks-once}

-- A result that lies at or after a time, and after it where that is asked for.
abbrev IsFrom : ℕ → Bool → Option (Option ℕ) → Type 0
IsFrom from after none = Unit
IsFrom from after (some none) = Unit
IsFrom from after (some (some i)) = from + (if after then 1 else 0) ≤ i

eligible-IsFrom :
    (i from at : ℕ) (after : Bool)
    → is_eligible i from at after ≡ true
    → IsFrom from after (some (some i))
eligible-IsFrom i from at true h = ground (arith, h)
eligible-IsFrom i from at false h = ground (arith, h)

module _ (format_to_parts : String → ℕ → ZoneParts) where
  find-IsFrom :
      (k : ℕ) (q : Search format_to_parts) (c : CivilDateTime)
      → IsFrom q.from q.after (find_occurrence format_to_parts k q c)
  unfolding find_occurrence
  find-IsFrom zero q c = tt
  find-IsFrom (suc k) q c =
      let P : Option (Option ℕ) → Type 0 = IsFrom q.from q.after in
      let rest = find-IsFrom k q (next_cursor q.at_civil c) in
      if_both P (matches_recurrence c q.at_civil.day (some q.recurrence)) _ _
        (option_eq P (zoned_local_to_utc format_to_parts (format_local_date_time c) q.zone) _ _ tt
          (λ i _.
            if_eq P (is_eligible i q.from q.at_utc q.after) _ _
              (eligible-IsFrom i q.from q.at_utc q.after) (λ _. rest)))
        rest

  first_run-IsFrom :
      (recurrence : Option ScheduleRecurrence) (at : CivilDateTime) (at_utc from : ℕ) (after : Bool)
      (zone : String)
      → IsFrom from after (first_run format_to_parts recurrence at at_utc from after zone)
  unfolding first_run
  first_run-IsFrom none at at_utc from after zone =
      if_eq (IsFrom from after) (is_eligible at_utc from at_utc after) _ _
        (eligible-IsFrom at_utc from at_utc after) (λ _. tt)
  first_run-IsFrom (some recurrence) at at_utc from after zone =
      find-IsFrom max_rounds
        (record {
          at_civil = at;
          at_utc = at_utc;
          from = from;
          after = after;
          zone = zone;
          recurrence = recurrence;
        })
        (start_cursor format_to_parts at at_utc from zone)

  next_run_at-IsFrom :
      (trigger : TaskTrigger) (from : ℕ) (after : Bool)
      → IsFrom from after (next_run_at format_to_parts trigger from after)
  unfolding next_run_at
  next_run_at-IsFrom now from after = tt
  next_run_at-IsFrom (schedule t) from after =
      let P : Option (Option ℕ) → Type 0 = IsFrom from after in
      if_both P (is_paused t) _ _ tt (
        option_eq P (parse_local_date_time (codes t.at)) _ _ tt (λ at _.
          option_eq P (zoned_local_to_utc format_to_parts (codes t.at) t.timezone) _ _ tt
            (λ at_utc _. first_run-IsFrom t.recurrence at at_utc from after t.timezone)))

  next_run_at-IsStrict : IsStrict (next_run_at format_to_parts)
  next_run_at-IsStrict trigger from at e =
      strict_of (next_run_at format_to_parts trigger from true) at
        (next_run_at-IsFrom trigger from true) e
    where
      strict_of :
          (r : Option (Option ℕ)) (at : ℕ) → IsFrom from true r → r ≡ some (some at) → from < at
      strict_of none at h e = cc
      strict_of (some none) at h e = cc
      strict_of (some (some i)) at h e = ground (arith, h, e)

  -- A round of the dispatcher with nextRunAt, where no two tasks share an id and the callback leaves the
  -- tasks alone: a task that the round claims cannot be claimed again before the claim's time has
  -- passed, unless for a slot that lies after the round.
  pub fire_due_scheduled_tasks-next :
      (start_task_run : Task → String → Store → StartResult × Store)
      (id_before : String → String → Bool) (claim_ms at limit : ℕ) (locked : TaskRow → Bool)
      (s : Store) (later : ℕ) (r : TaskRow)
      → KeepsTasks start_task_run
      → IsDistinct (map task_key s.tasks)
      → any (has_task_id r.id) (due_rows id_before at limit locked s.tasks) ≡ true
      → get_task_row r.id
          (fire_due_scheduled_tasks
            (next_run_at format_to_parts)
            start_task_run
            claim_ms
            at
            id_before
            limit
            locked
            s).1.tasks
        ≡ some r
      → is_claimable later r ≡ true
      → later < at + claim_ms
      → (slot : ℕ) × (r.next_run_at ≡ some slot) × (at < slot)
  fire_due_scheduled_tasks-next start_task_run id_before claim_ms at limit locked s later r keeps =
      fire_due_scheduled_tasks-once (next_run_at format_to_parts) start_task_run id_before claim_ms
        at limit locked s later r next_run_at-IsStrict keeps
