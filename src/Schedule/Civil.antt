-- ===== src/Schedule/Civil.antt =====
-- Civil dates and times (packages/shared/src/next-run-at.ts), with what the code uses of JavaScript's
-- Date: Date.UTC and the UTC getters, in the proleptic Gregorian calendar. A day is counted from
-- 1 January of year 0, and an instant is a number of milliseconds from there, so that the code's
-- instants, which are counted from 1970, differ from these by a constant.
use keidai.Common.{
  ℕ, zero, suc, ◌+◌, ◌-◌, ◌*◌, ◌/◌, ◌%◌, Bool, true, false, not, ◌&&◌, ◌||◌, ltb, leb, ◌==◌,
  if◌then◌else◌,
}
use keidai.Schedule.Days.{Weekday, mon, tue, wed, thu, fri, sat, sun}
pub mod Numbers

pub record CivilDateTime : Type 0 where
  pub year : ℕ
  pub month : ℕ
  pub day : ℕ
  pub hour : ℕ
  pub minute : ℕ

unfoldable pub is_leap : ℕ → Bool
is_leap y = y % 4 == 0 && (not (y % 100 == 0) || y % 400 == 0)

-- The days before 1 January of a year.
unfoldable pub days_before_year : ℕ → ℕ
days_before_year y = 365 * y + (y + 3) / 4 + (y + 399) / 400 - (y + 99) / 100

abbrev leap_day : ℕ → ℕ
leap_day y = if is_leap y then 1 else 0

-- The days of a year before its month, which is counted from 0.
unfoldable pub days_before_month : ℕ → ℕ → ℕ
unfolding is_leap
days_before_month y m =
    if m == 0
    then 0
    else if m == 1
    then 31
    else leap_day y
      + (if m == 2
          then 59
          else if m == 3
          then 90
          else if m == 4
          then 120
          else if m == 5
          then 151
          else if m == 6
          then 181
          else if m == 7
          then 212
          else if m == 8
          then 243
          else if m == 9
          then 273
          else if m == 10
          then 304
          else if m == 11
          then 334
          else 365)

-- A month past the twelfth falls into a later year, and a day past the month's last into a later
-- month; Date.UTC reads a year below 100 as one of the twentieth century.
unfoldable pub day_number : ℕ → ℕ → ℕ → ℕ
day_number year month_index day =
    let full = (if ltb year 100 then 1900 + year else year) + month_index / 12 in
    days_before_year full + days_before_month full (month_index % 12) + day - 1

abbrev pub day_ms : ℕ
day_ms = 86400000

unfoldable pub date_utc : ℕ → ℕ → ℕ → ℕ → ℕ → ℕ → ℕ
date_utc year month_index day hour minute second =
    day_number year month_index day * day_ms + hour * 3600000 + minute * 60000 + second * 1000

-- The last year, up to a given one, that has begun by a day.
unfoldable pub year_upto : ℕ → ℕ → ℕ
year_upto zero n = 0
year_upto (suc y) n =
    let earlier = year_upto y n in if leb (days_before_year (suc y)) n then suc y else earlier

unfoldable pub year_of_day : ℕ → ℕ
year_of_day n = year_upto (n / 365) n

-- The last month, up to a given one, that has begun by a day of the year.
unfoldable pub month_upto : ℕ → ℕ → ℕ → ℕ
month_upto y zero d = 0
month_upto y (suc m) d =
    let earlier = month_upto y m d in if leb (days_before_month y (suc m)) d then suc m else earlier

unfoldable pub month_of_day : ℕ → ℕ → ℕ
month_of_day y d = month_upto y 11 d

-- The date of a day, at midnight.
unfoldable pub date_of_day : ℕ → CivilDateTime
date_of_day n =
    let y = year_of_day n in
    let d = n - days_before_year y in
    let m = month_of_day y d in
    record { year = y; month = m + 1; day = d - days_before_month y m + 1; hour = 0; minute = 0 }

unfoldable pub add_utc_days : CivilDateTime → ℕ → CivilDateTime
add_utc_days civil days =
    let t = date_utc civil.year (civil.month - 1) (civil.day + days) civil.hour civil.minute 0 in
    record (date_of_day (t / day_ms)) { hour = t % day_ms / 3600000; minute = t % 3600000 / 60000 }

-- Day 0 of the next month, counted from 0.
unfoldable pub days_in_month : ℕ → ℕ → ℕ
days_in_month year month = (date_of_day (day_number year month 0)).day

-- WEEKDAYS[index]
abbrev weekday_at : ℕ → Weekday
weekday_at i =
    if i == 0
    then mon
    else if i == 1
    then tue
    else if i == 2
    then wed
    else if i == 3
    then thu
    else if i == 4
    then fri
    else if i == 5
    then sat
    else sun

-- getUTCDay counts from Sunday; day 0 is a Saturday.
unfoldable pub utc_day : ℕ → ℕ
utc_day n = (n + 6) % 7

unfoldable pub weekday_of_civil_date : CivilDateTime → Weekday
weekday_of_civil_date civil =
    weekday_at ((utc_day (day_number civil.year (civil.month - 1) civil.day) + 6) % 7)
