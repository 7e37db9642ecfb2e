-- ===== src/Schedule/Days.antt =====
-- The days of the week (packages/shared/src/task.ts).
use keidai.Common.{ℕ, Bool, ◌==◌}

pub data Weekday : Type 0 where
  mon tue wed thu fri sat sun : Weekday

-- The place in WEEKDAYS.
abbrev pub weekday_index : Weekday → ℕ
weekday_index mon = 0
weekday_index tue = 1
weekday_index wed = 2
weekday_index thu = 3
weekday_index fri = 4
weekday_index sat = 5
weekday_index sun = 6

abbrev pub is_day : Weekday → Weekday → Bool
is_day a b = weekday_index a == weekday_index b
