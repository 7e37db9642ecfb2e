-- ===== src/Schedule/Examples.antt =====
-- Schedules at concrete inputs: tests, and the theorems at inputs that meet their hypotheses.
use keidai.Common.{
  ◌⊎◌, ℕ, ◌+◌, ◌/◌, ◌%◌, ◌≤◌, ◌<◌, max, String, ◌≡◌, refl, sym, subst, Bool, true, false, Option,
  none, some, List, [], ◌∷◌, arith,
}
use keidai.Runs.{no_tables}
use keidai.Schedule.{
  Weekday, mon, wed, thu, TaskTrigger, schedule, ScheduleTrigger, daily, weekly,
  task_triggers_equal,
}
use keidai.Schedule.Civil.{
  CivilDateTime, day_number, day_ms, date_utc, date_of_day, year_of_day, month_of_day, year_upto,
  month_upto, days_before_year, days_before_month, days_in_month, weekday_of_civil_date,
  add_utc_days, utc_day,
}
use keidai.Schedule.NextRun.{
  ZoneParts, codes, parse_local_date_time, format_local_date_time, read_digits, read_mark,
  to_string, pad2, next_run_at, first_run, find_occurrence, start_cursor, zoned_local_to_utc,
  minus_offset, as_utc, parts_in_zone, matches_recurrence, next_cursor,
}
use keidai.Schedule.NextRun.Text.{parse-format}
use keidai.Schedule.NextRun.Found.{FirstOccurrence}
use keidai.Schedule.NextRun.Recurring.{IsUsual, every_day, next_run_at-recurring}
use keidai.Schedule.NextRun.After.{fire_due_scheduled_tasks-next}
use keidai.Schedule.NextRun.Same.{task_triggers_equal-next}
use keidai.Schedule.Rows.{
  Task, TaskRow, is_claimable, due_rows, claim_due_tasks, row_to_saved_task, get_task_row, get_task,
  update_task_row, cleared_row, record_schedule_success,
}
use keidai.Schedule.Edits.{UpdateTaskRequest, write_task}
use keidai.Schedule.Dispatcher.{
  Store, StartResult, run_started, start_threw, fire_claimed_task, fire_due_scheduled_tasks,
  dispatcher_round, fire_current_task, start_claimed_task, settle_start, advance,
}
use keidai.Schedule.Sleep.{dispatcher_round-punctual}
use keidai.Schedule.Ops.{
  op_create, op_failure, IsSoundTable, apply_task_ops, apply_task_ops-IsSoundTable,
}
use keidai.Schedule.Edited.{write_task-stale}
use keidai.Schedule.NextRun.Cursor.{date_of_day-IsDate}
use keidai.Schedule.NextRun.Instants.{IsZone}

abbrev nov_26 : CivilDateTime
nov_26 = record { year = 2026; month = 11; day = 26; hour = 9; minute = 30 }

epoch : day_number 1970 0 1 ≡ 719528
unfolding day_number days_before_year days_before_month
epoch = refl

leap_february : days_in_month 2024 2 ≡ 29
unfolding days_in_month day_number date_of_day year_of_day month_of_day year_upto month_upto
    days_before_year days_before_month
leap_february = refl

a_thursday : weekday_of_civil_date nov_26 ≡ thu
unfolding weekday_of_civil_date utc_day day_number days_before_year days_before_month
a_thursday = refl

-- The clocks of a zone that is on UTC.
abbrev on_utc : String → ℕ → ZoneParts
on_utc zone t = record {
  civil = record (date_of_day (t / day_ms)) {
    hour = t % day_ms / 3600000;
    minute = t % 3600000 / 60000;
  };
  second = t % 60000 / 1000;
}

abbrev daily_930 : ScheduleTrigger
daily_930 = record {
  timezone = "UTC";
  at = "2026-11-26T09:30";
  recurrence = some daily;
  paused = none;
}

abbrev nov_26_instant : ℕ
nov_26_instant = 63962904600000

daily_next :
    next_run_at on_utc (schedule daily_930) nov_26_instant true
    ≡ some (some (nov_26_instant + day_ms))
unfolding next_run_at first_run parse_local_date_time zoned_local_to_utc find_occurrence
    start_cursor minus_offset as_utc parts_in_zone date_utc day_number matches_recurrence
    next_cursor format_local_date_time read_digits read_mark to_string pad2 date_of_day year_of_day
    month_of_day year_upto month_upto days_before_year days_before_month add_utc_days
daily_next = refl

on_utc-IsZone : IsZone on_utc "UTC"
unfolding as_utc parts_in_zone date_utc
on_utc-IsZone = record {
  ahead = λ t h.
      let (date, same) = date_of_day-IsDate (t / day_ms) (omega (arith, h)) in
      ground (arith, same, h);
  behind = λ t h.
      let (date, same) = date_of_day-IsDate (t / day_ms) (omega (arith, h)) in
      ground (arith, same, h);
  shows = λ t h.
      let (date, same) = date_of_day-IsDate (t / day_ms) (omega (arith, h)) in
      record {
        date = record {
          year_bound = date.year_bound;
          month_pos = date.month_pos;
          month_bound = date.month_bound;
          day_pos = date.day_pos;
          day_bound = date.day_bound;
        };
        hour_bound = ground arith;
        minute_bound = ground arith;
      };
  seconds = λ t h. omega arith;
}

parse-format_example : parse_local_date_time (format_local_date_time nov_26) ≡ some nov_26
parse-format_example =
    parse-format nov_26 (omega arith) (omega arith) (omega arith) (omega arith) (omega arith)
      (omega arith)

nov_26-IsUsual : IsUsual on_utc nov_26
nov_26-IsUsual = record {
  date_time = record {
    date = record {
      year_bound = omega arith;
      month_pos = omega arith;
      month_bound = omega arith;
      day_pos = omega arith;
      day_bound = omega arith;
    };
    hour_bound = omega arith;
    minute_bound = omega arith;
  };
  from_1001 = omega arith;
  to_9990 = omega arith;
}

shown_now : (parts_in_zone on_utc nov_26_instant "UTC").civil ≡ nov_26
unfolding parts_in_zone date_of_day year_of_day month_of_day year_upto month_upto days_before_year
    days_before_month
shown_now = refl

read_at : parse_local_date_time (codes daily_930.at) ≡ some nov_26
unfolding parse_local_date_time read_digits read_mark
read_at = refl

next_run_at-recurring_example :
    (at_utc i : ℕ) × (zoned_local_to_utc on_utc (codes daily_930.at) daily_930.timezone
      ≡ some at_utc)
    × (next_run_at on_utc (schedule daily_930) nov_26_instant true ≡ some (some i))
    × FirstOccurrence on_utc
        (record {
          at_civil = nov_26;
          at_utc = at_utc;
          from = nov_26_instant;
          after = true;
          zone = daily_930.timezone;
          recurrence = daily;
        })
        (start_cursor on_utc nov_26 at_utc nov_26_instant daily_930.timezone)
        i
    × (at_utc ≤ i)
    × (nov_26_instant + 1 ≤ i)
next_run_at-recurring_example =
    next_run_at-recurring on_utc daily_930 daily nov_26 nov_26_instant true refl refl every_day
      read_at on_utc-IsZone nov_26-IsUsual (subst (IsUsual on_utc) (sym shown_now) nov_26-IsUsual)
      (omega arith)

abbrev weekly_930 : List Weekday → TaskTrigger
weekly_930 days = schedule (record daily_930 { recurrence = some (weekly days) })

task_triggers_equal-next_example :
    next_run_at on_utc (weekly_930 (mon ∷ wed ∷ [])) nov_26_instant false
    ≡ next_run_at on_utc (weekly_930 (wed ∷ mon ∷ [])) nov_26_instant false
unfolding task_triggers_equal
task_triggers_equal-next_example =
    task_triggers_equal-next on_utc (weekly_930 (mon ∷ wed ∷ [])) (weekly_930 (wed ∷ mon ∷ []))
      nov_26_instant false refl refl

abbrev a_task : Task
a_task = record {
  goal = "water the plants";
  trigger = schedule daily_930;
  assignee = "a1";
  limits = none;
  model_id = none;
}

abbrev due_row : TaskRow
due_row = record {
  id = "t1";
  task = a_task;
  created_at = 1;
  updated_at = 1;
  archived_at = none;
  next_run_at = some nov_26_instant;
  schedule_claim_until = none;
  schedule_start_attempts = 0;
  schedule_failed_at = none;
  schedule_error = none;
}

abbrev due_store : Store
due_store = record { tasks = due_row ∷ []; runs = no_tables }

abbrev starts : Task → String → Store → StartResult × Store
starts task id s = (run_started, s)

abbrev fails : Task → String → Store → StartResult × Store
fails task id s = (start_threw "no agent", s)

abbrev no_tie : String → String → Bool
no_tie a b = false

-- Another way to find the next run.
abbrev tomorrow : TaskTrigger → ℕ → Bool → Option ℕ
tomorrow trigger from after = some (from + day_ms)

abbrev unlocked : TaskRow → Bool
unlocked r = false

apply_task_ops-IsSoundTable_example : IsSoundTable (
    apply_task_ops tomorrow no_tie
      ((op_create "t1" a_task, 1) ∷ (op_failure "t1" 9 "no agent", 2) ∷ [])
      [])
apply_task_ops-IsSoundTable_example =
    apply_task_ops-IsSoundTable tomorrow no_tie
      ((op_create "t1" a_task, 1) ∷ (op_failure "t1" 9 "no agent", 2) ∷ [])

abbrev new_goal : UpdateTaskRequest
new_goal = record {
  goal = some "water them well";
  trigger = none;
  assignee = none;
  limits = none;
  model_id = none;
}

write_task-stale_example :
    let moved = (record_schedule_success "t1" (some 9) (due_row ∷ [])).1 in
    let rows' = write_task tomorrow new_goal (row_to_saved_task due_row) 5 moved in
    (get_task_row "t1" moved ≡ some (cleared_row (some 9) due_row))
    × ((r' : TaskRow) × (get_task_row "t1" rows' ≡ some r')
        × (r'.next_run_at ≡ some nov_26_instant)
        × (r'.schedule_claim_until ≡ none))
unfolding get_task_row
write_task-stale_example =
    write_task-stale tomorrow new_goal due_row (some 9) 5 (due_row ∷ []) refl refl refl

-- The row once its slot has been used.
abbrev used_row : TaskRow
used_row = cleared_row (some (nov_26_instant + day_ms)) due_row

used_row_next :
    get_task_row "t1"
      (fire_due_scheduled_tasks
        (next_run_at on_utc)
        starts
        172800000
        nov_26_instant
        no_tie
        10
        unlocked
        due_store).1.tasks
    ≡ some used_row
unfolding get_task_row fire_due_scheduled_tasks claim_due_tasks due_rows fire_claimed_task
    fire_current_task start_claimed_task settle_start advance record_schedule_success
    update_task_row get_task row_to_saved_task next_run_at first_run parse_local_date_time
    zoned_local_to_utc find_occurrence start_cursor minus_offset as_utc parts_in_zone date_utc
    day_number matches_recurrence next_cursor format_local_date_time read_digits read_mark to_string
    pad2 date_of_day year_of_day month_of_day year_upto month_upto days_before_year
    days_before_month add_utc_days
used_row_next = refl

fire_due_scheduled_tasks-next_example :
    (slot : ℕ) × (used_row.next_run_at ≡ some slot) × (nov_26_instant < slot)
unfolding due_rows is_claimable
fire_due_scheduled_tasks-next_example =
    fire_due_scheduled_tasks-next on_utc starts no_tie 172800000 nov_26_instant 10 unlocked
      due_store (nov_26_instant + day_ms) used_row (λ task id s. refl) ((λ m. m), tt) refl
      used_row_next refl (omega arith)

-- A store with a task that is due at 9000.
abbrev later_store : Store
later_store = record { tasks = record due_row { next_run_at = some 9000 } ∷ []; runs = no_tables }

dispatcher_round-punctual_example :
    let delay =
      (dispatcher_round
        (next_run_at on_utc)
        starts
        30000
        1000
        no_tie
        10
        unlocked
        1000
        30000
        50
        later_store).0 in
    (0 < delay)
    × (delay ≤ max 30000 50)
    × (((fire_due_scheduled_tasks
            (next_run_at on_utc)
            starts
            30000
            1000
            no_tie
            10
            unlocked
            later_store).0
          ≡ none)
        ⊎ (1000 + delay ≤ max 9000 (1000 + 50)))
unfolding dispatcher_round claim_due_tasks due_rows is_claimable
dispatcher_round-punctual_example =
    dispatcher_round-punctual (next_run_at on_utc) starts no_tie 30000 1000 10 unlocked 1000 30000
      50 later_store 9000 30000 10 (omega arith) (omega arith) (omega arith) refl

dispatcher_round_delay :
    (dispatcher_round
      (next_run_at on_utc)
      starts
      30000
      1000
      no_tie
      10
      unlocked
      1000
      30000
      50
      later_store).0
    ≡ 8000
unfolding dispatcher_round claim_due_tasks due_rows is_claimable
dispatcher_round_delay = refl
