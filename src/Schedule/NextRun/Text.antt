-- ===== src/Schedule/NextRun/Text.antt =====
-- Local dates and times as text: formatLocalDateTime and parseLocalDateTime of
-- packages/shared/src/next-run-at.ts.
use keidai.Common.{
  ℕ, suc, ◌+◌, ◌/◌, ◌%◌, ◌≤◌, ◌<◌, ◌≡◌, refl, arith, some, List, [], ◌∷◌, ◌++◌, ltb, Bool-cases,
  inl, inr,
}
use keidai.Schedule.Civil.{CivilDateTime}
use keidai.Schedule.NextRun.{
  read_digits, read_mark, parse_local_date_time, digits_upto, to_string, pad2,
  format_local_date_time,
}

one_digit : (k n : ℕ) → n < 10 → digits_upto (suc k) n ≡ (b'0' + n) ∷ []
unfolding digits_upto
one_digit k n h = ground (arith, h)

more_digits :
    (k n : ℕ) → 10 ≤ n → digits_upto (suc k) n ≡ digits_upto k (n / 10) ++ (b'0' + n % 10) ∷ []
unfolding digits_upto
more_digits k n h = ground (arith, h)

pad2_lem : (n : ℕ) → n < 100 → pad2 n ≡ (b'0' + n / 10) ∷ (b'0' + n % 10) ∷ []
unfolding pad2
pad2_lem n h = elim (Bool-cases (ltb n 10)) [
  | inl e ↦ ground (arith, e, one_digit (suc (suc (suc n))) n (ground (arith, e)))
  | inr e ↦ ground (
    arith,
    e,
    more_digits (suc (suc (suc n))) n (ground (arith, e)),
    one_digit (suc (suc n)) (n / 10) (omega (arith, h)),
  )
]

year_digits :
    (y : ℕ)
    → 1000 ≤ y
    → y < 10000
    → to_string y
      ≡ (b'0' + y / 1000) ∷ (b'0' + y / 100 % 10) ∷ (b'0' + y / 10 % 10) ∷ (b'0' + y % 10) ∷ []
unfolding to_string
year_digits y h k = ground (
  arith,
  more_digits (suc (suc (suc y))) y (omega arith),
  more_digits (suc (suc y)) (y / 10) (omega arith),
  more_digits (suc y) (y / 10 / 10) (omega arith),
  one_digit y (y / 10 / 10 / 10) (omega arith),
)

read_two : (n : ℕ) (rest : List ℕ) → n < 100 → read_digits 2 0 (pad2 n ++ rest) ≡ some (n, rest)
unfolding read_digits
read_two n rest h = rw (pad2_lem n h) (ground (arith, h))

read_last : (n : ℕ) → n < 100 → read_digits 2 0 (pad2 n) ≡ some (n, [])
unfolding read_digits
read_last n h = rw (pad2_lem n h) (ground (arith, h))

read_year :
    (y : ℕ) (rest : List ℕ)
    → 1000 ≤ y
    → y < 10000
    → read_digits 4 0 (to_string y ++ rest) ≡ some (y, rest)
unfolding read_digits
read_year y rest h k = rw (year_digits y h k) (ground (arith, h, k))

-- A date and time that has a year of four digits, and two digits at most for its other parts, is read
-- back from its text.
pub parse-format :
    (c : CivilDateTime)
    → 1000 ≤ c.year
    → c.year < 10000
    → c.month < 100
    → c.day < 100
    → c.hour < 100
    → c.minute < 100
    → parse_local_date_time (format_local_date_time c) ≡ some c
unfolding parse_local_date_time format_local_date_time read_mark
parse-format c y1 y2 m d h n =
    rw
      (
        read_year c.year _ y1 y2,
        read_two c.month _ m,
        read_two c.day _ d,
        read_two c.hour _ h,
        read_last c.minute n,
      )
      refl
