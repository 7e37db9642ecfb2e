-- ===== src/Schedule/NextRun/Total.antt =====
-- That a recurring schedule runs again (nextRunAt of packages/shared/src/next-run-at.ts).
use keidai.Common.{ℕ, zero, suc, ◌+◌, ◌-◌, ◌*◌, ◌≤◌, ◌<◌, ◌≡◌, arith, true, String, some}
use keidai.Schedule.Civil.{CivilDateTime, days_before_year, days_before_month, is_leap, day_ms}
use keidai.Schedule.Civil.Numbers.{day_number_lem}
use keidai.Schedule.NextRun.{ZoneParts, Search, next_cursor, format_local_date_time}
use keidai.Schedule.NextRun.Text.{parse-format}
use keidai.Schedule.NextRun.Cursor.{IsDate, number, next_cursor_lem}
use keidai.Schedule.NextRun.Instants.{IsDateTime, IsZone, zoned_bounds}
use keidai.Schedule.NextRun.Found.{search_instant, matches, eligible, Finds, find-here, find-later}

abbrev pub first_day : ℕ
first_day = days_before_year 1001

abbrev pub last_day : ℕ
last_day = days_before_year 10000

month_start : (y m : ℕ) → m ≤ 11 → days_before_month y m ≤ 335
unfolding days_before_month is_leap
month_start y m h = ground arith

year_range_of :
    (y n : ℕ)
    → days_before_year y ≤ n
    → n ≤ days_before_year y + 365
    → days_before_year 1001 ≤ n
    → n < days_before_year 10000
    → (1000 ≤ y) × (y < 10000)
unfolding days_before_year
year_range_of y n low high first last = (omega arith, omega arith)

-- A date lies within a year of its year's start.
pub number_range :
    (c : CivilDateTime)
    → IsDate c
    → (days_before_year c.year ≤ number c) × (number c ≤ days_before_year c.year + 365)
number_range c h =
    let e = day_number_lem c.year (c.month - 1) c.day h.year_bound (omega (arith, h.month_bound)) in
    let start = month_start c.year (c.month - 1) (omega (arith, h.month_bound)) in
    (omega (arith, e, h.day_pos), omega (arith, e, h.day_bound, start))

-- A date between these days has a year of four digits.
year_range :
    (c : CivilDateTime)
    → IsDate c
    → first_day ≤ number c
    → number c < last_day
    → (1000 ≤ c.year) × (c.year < 10000)
year_range c h first last =
    let (low, high) = number_range c h in year_range_of c.year (number c) low high first last

module _ (format_to_parts : String → ℕ → ZoneParts) (q : Search format_to_parts)
    (z : IsZone format_to_parts q.zone) (at : IsDateTime q.at_civil) where
  -- The cursor's date has an instant.
  cursor_instant :
      (c : CivilDateTime)
      → IsDateTime c
      → first_day ≤ number c
      → number c < last_day
      → (i : ℕ) × (search_instant format_to_parts q c ≡ some i)
        × (number c * day_ms ≤ i + day_ms)
        × (i < number c * day_ms + 2 * day_ms)
  cursor_instant c h first last =
      let (low, high) = year_range c h.date first last in
      zoned_bounds format_to_parts q.zone (format_local_date_time c) c z
        (parse-format c low high (omega (arith, h.date.month_bound))
          (omega (arith, h.date.day_bound)) (omega (arith, h.hour_bound))
          (omega (arith, h.minute_bound)))
        h low

  -- The loop comes to a day that the recurrence takes in and whose instants may be used, if it has the
  -- rounds.
  pub reach :
      (steps k day : ℕ) (c : CivilDateTime)
      → IsDateTime c
      → number c + steps ≡ day
      → steps < k
      → first_day ≤ number c
      → day < last_day
      → ((c' : CivilDateTime) → IsDate c' → number c' ≡ day → matches format_to_parts q c' ≡ true)
      → ((i : ℕ) → day * day_ms ≤ i + day_ms → eligible format_to_parts q i ≡ true)
      → Finds format_to_parts k q c
  reach steps zero day c h e lt first last hit use_it = absurd (omega arith)
  reach zero (suc k) day c h e lt first last hit use_it =
      let same : number c ≡ day = omega arith in
      let (i, there, low, high) = cursor_instant c h first (omega arith) in
      find-here format_to_parts k q c i there (hit c h.date same) (use_it i (omega (arith, low)))
  reach (suc steps) (suc k) day c h e lt first last hit use_it =
      let (i, there, low, high) = cursor_instant c h first (omega arith) in
      let (date, moved, hour, minute) = next_cursor_lem q.at_civil c h.date in
      find-later format_to_parts k q c i there (
        reach steps k day (next_cursor q.at_civil c)
          (record {
            date = date;
            hour_bound = omega (arith, hour, at.hour_bound);
            minute_bound = omega (arith, minute, at.minute_bound);
          })
          (omega (arith, moved)) (omega arith) (omega (arith, moved)) last hit use_it)
