-- ===== src/Schedule/NextRun/Cursor.antt =====
-- The dates that the loop of nextRunAt goes through (packages/shared/src/next-run-at.ts).
use keidai.Common.{ℕ, ◌+◌, ◌-◌, ◌≤◌, ◌≡◌, refl, sym, ap, ◌∙◌, subst, arith}
use keidai.Schedule.Civil.{
  CivilDateTime, days_before_year, days_before_month, is_leap, day_number, date_utc, date_of_day,
  add_utc_days,
}
use keidai.Schedule.Civil.Numbers.{day_number_lem, date_of_day_lem}
use keidai.Schedule.NextRun.{next_cursor}

-- A date from the year 100 on, of a month that there is.
pub record IsDate (c : CivilDateTime) : Type 0 where
  pub year_bound : 100 ≤ c.year
  pub month_pos : 1 ≤ c.month
  pub month_bound : c.month ≤ 12
  pub day_pos : 1 ≤ c.day
  pub day_bound : c.day ≤ 31

abbrev pub number : CivilDateTime → ℕ
number c = day_number c.year (c.month - 1) c.day

month_length : (y m : ℕ) → 1 ≤ m → m ≤ 12 → days_before_month y m ≤ days_before_month y (m - 1) + 31
unfolding days_before_month is_leap
month_length y m h k = ground arith

pub date_of_day-IsDate : (n : ℕ) → 36525 ≤ n → IsDate (date_of_day n) × (number (date_of_day n) ≡ n)
date_of_day-IsDate n le =
    let c = date_of_day n in
    let (same, big, month_pos, month_bound, day_pos, fits) = date_of_day_lem n le in
    (
      record {
        year_bound = big;
        month_pos = month_pos;
        month_bound = month_bound;
        day_pos = day_pos;
        day_bound = omega (arith, fits, month_length c.year c.month month_pos month_bound);
      },
      same,
    )

number_suc :
    (c : CivilDateTime) → IsDate c → day_number c.year (c.month - 1) (c.day + 1) ≡ number c + 1
number_suc c h = omega (
  arith,
  day_number_lem c.year (c.month - 1) (c.day + 1) h.year_bound (omega (arith, h.month_bound)),
  day_number_lem c.year (c.month - 1) c.day h.year_bound (omega (arith, h.month_bound)),
  h.day_pos,
)

days_before_year_bound : (y : ℕ) → 100 ≤ y → 36525 ≤ days_before_year y
unfolding days_before_year
days_before_year_bound y h = omega arith

pub number_bound : (c : CivilDateTime) → IsDate c → 36525 ≤ number c
number_bound c h = omega (
  arith,
  day_number_lem c.year (c.month - 1) c.day h.year_bound (omega (arith, h.month_bound)),
  days_before_year_bound c.year h.year_bound,
  h.day_pos,
)

next_cursor_date :
    (at c : CivilDateTime)
    → next_cursor at c ≡ record (date_of_day (day_number c.year (c.month - 1) (c.day + 1))) {
      hour = at.hour;
      minute = at.minute;
    }
unfolding next_cursor add_utc_days date_utc
next_cursor_date at c =
    ap (λ n. record (date_of_day n) { hour = at.hour; minute = at.minute }) (omega arith)

-- The cursor moves on by one day.
pub next_cursor_lem :
    (at c : CivilDateTime)
    → IsDate c
    → let c' = next_cursor at c in
      IsDate c' × (number c' ≡ number c + 1) × (c'.hour ≡ at.hour) × (c'.minute ≡ at.minute)
next_cursor_lem at c h =
    let n = day_number c.year (c.month - 1) (c.day + 1) in
    let (date, same) = date_of_day-IsDate n (omega (arith, number_suc c h, number_bound c h)) in
    subst
      (λ c'. IsDate c' × (number c' ≡ number c + 1) × (c'.hour ≡ at.hour) × (c'.minute ≡ at.minute))
      (sym (next_cursor_date at c))
      (
        record {
          year_bound = date.year_bound;
          month_pos = date.month_pos;
          month_bound = date.month_bound;
          day_pos = date.day_pos;
          day_bound = date.day_bound;
        },
        same ∙ number_suc c h,
        refl,
        refl,
      )
