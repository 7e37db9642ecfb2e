-- ===== src/Schedule/NextRun/Recurring.antt =====
-- Daily and weekly schedules (nextRunAt of packages/shared/src/next-run-at.ts).
use keidai.Common.{
  ℕ, ◌+◌, ◌-◌, ◌*◌, ◌%◌, ◌≤◌, ◌<◌, ◌≡◌, refl, sym, subst, arith, Bool, true, false, String, some,
  List, ◌∷◌, if◌then◌else◌, ltb, Bool-cases, inl, inr, if_eq,
}
use keidai.Schedule.{
  Weekday, mon, tue, wed, thu, fri, sat, sun, weekday_index, schedule, ScheduleTrigger,
  ScheduleRecurrence, daily, weekly, is_paused,
}
use keidai.Schedule.Civil.{CivilDateTime, days_before_year, day_ms, utc_day, weekday_of_civil_date}
use keidai.Schedule.NextRun.{
  ZoneParts, Search, codes, matches_recurrence, next_cursor, parse_local_date_time, parts_in_zone,
  zoned_local_to_utc, find_occurrence, start_cursor, first_run, next_run_at, max_rounds,
}
use keidai.Schedule.NextRun.Cursor.{IsDate, number}
use keidai.Schedule.NextRun.Instants.{IsDateTime, first_instant, IsZone, from_bounds, zoned_bounds}
use keidai.Schedule.NextRun.Found.{eligible, FirstOccurrence, here, later}
use keidai.Schedule.NextRun.Total.{number_range, reach}

-- A recurrence by days of the week, with a day.
pub data IsWeekly : ScheduleRecurrence → Type 0 where
  every_day : IsWeekly daily
  on_days : (day : Weekday) (days : List Weekday) → IsWeekly (weekly (day ∷ days))

weekday_bound : (w : Weekday) → weekday_index w < 7
weekday_bound mon = omega arith
weekday_bound tue = omega arith
weekday_bound wed = omega arith
weekday_bound thu = omega arith
weekday_bound fri = omega arith
weekday_bound sat = omega arith
weekday_bound sun = omega arith

weekday_of_number :
    (c : CivilDateTime) (w : Weekday)
    → (number c + 5) % 7 ≡ weekday_index w
    → weekday_index (weekday_of_civil_date c) ≡ weekday_index w
unfolding weekday_of_civil_date utc_day
weekday_of_number c w e =
    let i : (((number c + 6) % 7 + 6) % 7) ≡ weekday_index w = omega (arith, e) in
    ground (arith, i, weekday_bound w)

-- From three days on, a week is enough.
weekly_steps :
    {r : ScheduleRecurrence} (n at_day : ℕ)
    → IsWeekly r
    → (steps : ℕ) × (3 ≤ steps)
      × (steps < 10)
      × ((c : CivilDateTime)
          → IsDate c
          → number c ≡ n + steps
          → matches_recurrence c at_day (some r) ≡ true)
unfolding matches_recurrence
weekly_steps n at_day every_day = (3, omega arith, omega arith, λ c h e. refl)
weekly_steps n at_day (on_days day days) =
    let wait = (weekday_index day + 7 - (n + 8) % 7) % 7 in
    (
      3 + wait,
      omega arith,
      omega arith,
      λ c h e.
          let same = weekday_of_number c day (omega (arith, e, weekday_bound day)) in
          ground (arith, same),
    )

start_range :
    (y n : ℕ)
    → 1001 ≤ y
    → y ≤ 9990
    → days_before_year y ≤ n
    → n ≤ days_before_year y + 365
    → (days_before_year 1001 ≤ n) × (n + 10 < days_before_year 10000)
unfolding days_before_year
start_range y n low high begun ends = (omega arith, omega arith)

module _ (format_to_parts : String → ℕ → ZoneParts) where
  first-eligible :
      (q : Search format_to_parts) (c : CivilDateTime) (i : ℕ)
      → FirstOccurrence format_to_parts q c i
      → eligible format_to_parts q i ≡ true
  first-eligible q c i (here m e h) = h
  first-eligible q c i (later p rest) = first-eligible q (next_cursor q.at_civil c) i rest

  eligible_later :
      (q : Search format_to_parts) (i : ℕ)
      → q.at_utc ≤ i
      → q.from < i
      → eligible format_to_parts q i ≡ true
  eligible_later q i h k = elim (Bool-cases q.after) [
    | inl e ↦ ground (arith, e, h, k)
    | inr e ↦ ground (arith, e, h, k)
  ]

  -- A date of a year that the texts can write.
  pub record IsUsual (c : CivilDateTime) : Type 0 where
    pub date_time : IsDateTime c
    pub from_1001 : 1001 ≤ c.year
    pub to_9990 : c.year ≤ 9990

  module _ (q : Search format_to_parts) (z : IsZone format_to_parts q.zone)
      (at_usual : IsUsual q.at_civil)
      (at_bound : q.at_utc < number q.at_civil * day_ms + 2 * day_ms)
      (from_usual : IsUsual (parts_in_zone format_to_parts q.from q.zone).civil)
      (from_first : first_instant ≤ q.from) where
    start_of : CivilDateTime
    start_of = start_cursor format_to_parts q.at_civil q.at_utc q.from q.zone

    -- The loop's first date, whose instants lie past both times two days on.
    start_lem :
        IsUsual start_of
        × (q.at_utc < number start_of * day_ms + 2 * day_ms)
        × (q.from < number start_of * day_ms + 2 * day_ms)
    unfolding start_of start_cursor
    start_lem =
        if_eq
          (λ c.
            let d : CivilDateTime = record c {
              hour = q.at_civil.hour;
              minute = q.at_civil.minute;
            } in
            IsUsual d
            × (q.at_utc < number d * day_ms + 2 * day_ms)
            × (q.from < number d * day_ms + 2 * day_ms))
          (ltb q.from q.at_utc) _ _ (λ e. (at_usual, at_bound, ground (arith, e, at_bound)))
          (λ e.
            let seen = from_bounds format_to_parts q.zone q.from z from_first in
            let shown = from_usual.date_time.date in
            (
              record {
                date_time = record {
                  date = record {
                    year_bound = shown.year_bound;
                    month_pos = shown.month_pos;
                    month_bound = shown.month_bound;
                    day_pos = shown.day_pos;
                    day_bound = shown.day_bound;
                  };
                  hour_bound = at_usual.date_time.hour_bound;
                  minute_bound = at_usual.date_time.minute_bound;
                };
                from_1001 = from_usual.from_1001;
                to_9990 = from_usual.to_9990;
              },
              ground (arith, e, seen),
              seen,
            ))

    find_lem :
        {r : ScheduleRecurrence}
        → q.recurrence ≡ r
        → IsWeekly r
        → (i : ℕ) × (find_occurrence format_to_parts max_rounds q start_of ≡ some (some i))
          × FirstOccurrence format_to_parts q start_of i
          × (q.at_utc ≤ i)
          × (q.from + (if q.after then 1 else 0) ≤ i)
    find_lem {r} e w =
        let (usual, at_passed, from_passed) = start_lem in
        let n = number start_of in
        let (steps, low, high, hit) = weekly_steps n q.at_civil.day w in
        let (begun, ends) = number_range start_of usual.date_time.date in
        let (first, last) = start_range start_of.year n usual.from_1001 usual.to_9990 begun ends in
        let (i, found, occurrence) =
          reach format_to_parts q z at_usual.date_time steps max_rounds (n + steps) start_of
            usual.date_time refl (omega arith) first (omega arith)
            (λ c h same.
              subst (λ r. matches_recurrence c q.at_civil.day (some r) ≡ true) (sym e)
                (hit c h same))
            (λ i day_start.
              eligible_later q i (omega (arith, day_start, at_passed, low))
                (omega (arith, day_start, from_passed, low))) in
        let ok = first-eligible q start_of i occurrence in
        (i, found, occurrence, ground (arith, ok), ground (arith, ok))

  -- A daily schedule, or a weekly one with a day, that is not paused: its `at` is a date and time that
  -- there is, the zone's clocks are at most a day from UTC and show such dates (from the year 110 on,
  -- say), `from` lies no earlier than that, and the years of `at` and of the local date of `from` are
  -- 1001 to 9990. Then a next run is found. It is that of the first date, from the loop's start on, that
  -- the recurrence takes in and whose instant may be used; it is not before the schedule's `at` and not
  -- before `from`, and after `from` where that is asked for.
  pub next_run_at-recurring :
      (t : ScheduleTrigger) (r : ScheduleRecurrence) (at : CivilDateTime) (from : ℕ) (after : Bool)
      → is_paused t ≡ false
      → t.recurrence ≡ some r
      → IsWeekly r
      → parse_local_date_time (codes t.at) ≡ some at
      → IsZone format_to_parts t.timezone
      → IsUsual at
      → IsUsual (parts_in_zone format_to_parts from t.timezone).civil
      → first_instant ≤ from
      → (at_utc i : ℕ) × (zoned_local_to_utc format_to_parts (codes t.at) t.timezone ≡ some at_utc)
        × (next_run_at format_to_parts (schedule t) from after ≡ some (some i))
        × FirstOccurrence format_to_parts
            (record {
              at_civil = at;
              at_utc = at_utc;
              from = from;
              after = after;
              zone = t.timezone;
              recurrence = r;
            })
            (start_cursor format_to_parts at at_utc from t.timezone)
            i
        × (at_utc ≤ i)
        × (from + (if after then 1 else 0) ≤ i)
  unfolding next_run_at first_run start_of
  next_run_at-recurring t r at from after active rec w parsed z usual from_usual first =
      let (at_utc, zoned, low, high) =
        zoned_bounds format_to_parts t.timezone (codes t.at) at z parsed usual.date_time
          (omega (arith, usual.from_1001)) in
      let q : Search format_to_parts = record {
        at_civil = at;
        at_utc = at_utc;
        from = from;
        after = after;
        zone = t.timezone;
        recurrence = r;
      } in
      let (i, found, occurrence, at_le, from_le) =
        find_lem q z usual high from_usual first refl w in
      (
        at_utc,
        i,
        zoned,
        ground (arith, active, rec, parsed, zoned, found),
        occurrence,
        at_le,
        from_le,
      )
