-- ===== src/Schedule/Civil/Numbers.antt =====
-- The dates of day numbers (packages/shared/src/next-run-at.ts).
use keidai.Common.{ℕ, zero, suc, ◌+◌, ◌-◌, ◌/◌, ◌%◌, ◌≤◌, ◌<◌, ◌≡◌, ◌∙◌, ap, arith, leb, if_eq}
use keidai.Schedule.Civil.{
  is_leap, days_before_year, leap_day, days_before_month, day_number, year_upto, year_of_day,
  month_upto, month_of_day, date_of_day,
}

days_before_year-suc : (y : ℕ) → days_before_year (suc y) ≡ days_before_year y + 365 + leap_day y
unfolding days_before_year is_leap
days_before_year-suc y = ground arith

days_before_year_mono : (y z : ℕ) → y ≤ z → days_before_year y ≤ days_before_year z
unfolding days_before_year
days_before_year_mono y z le = omega arith

year_zero : (n : ℕ) → days_before_year 0 ≤ n
unfolding days_before_year
year_zero n = omega arith

-- The year of a day has begun, and its end is still to come.
year_upto_lem :
    (k n : ℕ)
    → n < days_before_year (suc k)
    → let y = year_upto k n in (days_before_year y ≤ n) × (n < days_before_year (suc y))
unfolding year_upto
year_upto_lem zero n h = (year_zero n, h)
year_upto_lem (suc k) n h =
    if_eq (λ y. (days_before_year y ≤ n) × (n < days_before_year (suc y)))
      (leb (days_before_year (suc k)) n) _ _ (λ e. (ground (arith, e), h))
      (λ e. year_upto_lem k n (ground (arith, e)))

year_bound : (n : ℕ) → n < days_before_year (suc (n / 365))
unfolding days_before_year
year_bound n = omega arith

pub year_of_day_lem :
    (n : ℕ) → let y = year_of_day n in (days_before_year y ≤ n) × (n < days_before_year (suc y))
unfolding year_of_day
year_of_day_lem n = year_upto_lem (n / 365) n (year_bound n)

month_upto_lem :
    (y k d : ℕ)
    → d < days_before_month y (suc k)
    → let m = month_upto y k d in
      (m ≤ k) × (days_before_month y m ≤ d) × (d < days_before_month y (suc m))
unfolding month_upto days_before_month
month_upto_lem y zero d h = (omega arith, omega arith, h)
month_upto_lem y (suc k) d h =
    if_eq (λ m. (m ≤ suc k) × (days_before_month y m ≤ d) × (d < days_before_month y (suc m)))
      (leb (days_before_month y (suc k)) d) _ _ (λ e. (omega arith, ground (arith, e), h))
      (λ e.
        let (bound, begun, ends) = month_upto_lem y k d (ground (arith, e)) in
        (omega (arith, bound), begun, ends))

year_length : (y : ℕ) → days_before_month y 12 ≡ 365 + leap_day y
unfolding days_before_month
year_length y = omega arith

days_before_year_100 : (y n : ℕ) → 36525 ≤ n → n < days_before_year (suc y) → 100 ≤ y
unfolding days_before_year
days_before_year_100 y n le lt = omega arith

pub day_number_lem :
    (y m d : ℕ)
    → 100 ≤ y
    → m ≤ 11
    → day_number y m d ≡ days_before_year y + days_before_month y m + d - 1
unfolding day_number
day_number_lem y m d h k =
    let quotient : m / 12 ≡ 0 = omega arith in
    let remainder : m % 12 ≡ m = omega arith in rw (quotient, remainder) (ground (arith, h))

-- A day from the year 100 on is the day of its date, in a year and a month that there are.
pub date_of_day_lem :
    (n : ℕ)
    → 36525 ≤ n
    → let c = date_of_day n in
      (day_number c.year (c.month - 1) c.day ≡ n)
      × (100 ≤ c.year)
      × (1 ≤ c.month)
      × (c.month ≤ 12)
      × (1 ≤ c.day)
      × (days_before_month c.year (c.month - 1) + c.day ≤ days_before_month c.year c.month)
unfolding date_of_day month_of_day
date_of_day_lem n le =
    let y = year_of_day n in
    let (begun, ends) = year_of_day_lem n in
    let d = n - days_before_year y in
    let (month_bound, month_begun, month_ends) =
      month_upto_lem y 11 d (omega (arith, begun, ends, year_length y, days_before_year-suc y)) in
    let m = month_upto y 11 d in
    let big : 100 ≤ y = days_before_year_100 y n le ends in
    let back : days_before_month y (m + 1 - 1) ≡ days_before_month y m =
      ap (days_before_month y) (omega arith) in
    let on : days_before_month y (suc m) ≡ days_before_month y (m + 1) =
      ap (days_before_month y) (omega arith) in
    (
      day_number_lem y (m + 1 - 1) (d - days_before_month y m + 1) big (omega (arith, month_bound))
          ∙ omega (arith, back, begun, month_begun),
      big,
      omega arith,
      omega (arith, month_bound),
      omega arith,
      omega (arith, back, on, begun, month_begun, month_ends),
    )
