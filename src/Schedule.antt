-- ===== src/Schedule.antt =====
-- The triggers of a task (packages/shared/src/task.ts): when it is to run. A schedule's `at` is a
-- local date and time, `YYYY-MM-DDTHH:mm`, in the zone `timezone`.
use keidai.Common.{
  ℕ, String, str_eq, Bool, true, false, not, ◌&&◌, Option, none, some, List, [], ◌∷◌, length, any,
  all, ◌==◌, if◌then◌else◌,
}
pub mod Days
pub mod Civil
pub mod NextRun
pub use Days.{Weekday, mon, tue, wed, thu, fri, sat, sun, weekday_index, is_day}
pub mod Rows
pub mod Edits
pub mod Dispatcher
pub mod Sleep
pub mod Slots
pub mod Outcomes
pub mod Ops
pub mod Edited
mod Examples

pub data ScheduleRecurrence : Type 0 where
  daily : ScheduleRecurrence
  weekly : List Weekday → ScheduleRecurrence
  monthly : ScheduleRecurrence

pub record ScheduleTrigger : Type 0 where
  pub timezone : String
  pub at : String
  pub recurrence : Option ScheduleRecurrence
  pub paused : Option Bool

pub data TaskTrigger : Type 0 where
  now : TaskTrigger
  schedule : ScheduleTrigger → TaskTrigger

-- `Boolean(trigger.paused)`
abbrev pub is_paused : ScheduleTrigger → Bool
is_paused t = elim t.paused [ none ↦ false | some b ↦ b ]

-- `days.includes(day)`, and `new Set(days).has(day)`.
abbrev pub has_day : List Weekday → Weekday → Bool
has_day days day = any (λ d. is_day d day) days

unfoldable pub recurrence_equal : Option ScheduleRecurrence → Option ScheduleRecurrence → Bool
recurrence_equal none none = true
recurrence_equal none (some r) = false
recurrence_equal (some l) none = false
recurrence_equal (some daily) (some daily) = true
recurrence_equal (some daily) (some (weekly days)) = false
recurrence_equal (some daily) (some monthly) = false
recurrence_equal (some (weekly days)) (some daily) = false
recurrence_equal (some (weekly left)) (some (weekly right)) =
    if not (length left == length right) then false else all (has_day right) left
recurrence_equal (some (weekly days)) (some monthly) = false
recurrence_equal (some monthly) (some daily) = false
recurrence_equal (some monthly) (some (weekly days)) = false
recurrence_equal (some monthly) (some monthly) = true

abbrev same_flag : Bool → Bool → Bool
same_flag true b = b
same_flag false b = not b

unfoldable pub task_triggers_equal : TaskTrigger → TaskTrigger → Bool
unfolding recurrence_equal
task_triggers_equal now now = true
task_triggers_equal now (schedule r) = false
task_triggers_equal (schedule l) now = false
task_triggers_equal (schedule l) (schedule r) =
    str_eq l.timezone r.timezone
    && (str_eq l.at r.at
        && (same_flag (is_paused l) (is_paused r) && recurrence_equal l.recurrence r.recurrence))
