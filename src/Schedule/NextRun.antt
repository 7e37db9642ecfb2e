-- ===== src/Schedule/NextRun.antt =====
-- When a schedule runs next: packages/shared/src/next-run-at.ts. Local dates and times are texts as
-- lists of code points; `none` stands for the exception of a text that is no local date and time.
-- Intl.DateTimeFormat is the parameter `format_to_parts`, from a zone and an instant.
pub mod Text
pub mod Cursor
pub mod Instants
pub mod Found
pub mod Total
pub mod Recurring
pub mod After
pub mod Same
use Prim.Native.Char.{code}
use Prim.Native.String.{String}
use keidai.Common.{
  ℕ, zero, suc, ◌+◌, ◌-◌, ◌*◌, ◌/◌, ◌%◌, min, Bool, true, false, not, ◌&&◌, ◌||◌, Option, none,
  some, List, [], ◌∷◌, ◌++◌, length, if◌then◌else◌, ltb, leb, ◌==◌,
}
use keidai.Schedule.{
  has_day, TaskTrigger, now, schedule, ScheduleTrigger, ScheduleRecurrence, daily, weekly, monthly,
  is_paused,
}
use keidai.Schedule.Civil.{
  CivilDateTime, date_utc, add_utc_days, days_in_month, weekday_of_civil_date,
}

abbrev pub codes : String → List ℕ
codes String.[] = []
codes (String.◌∷◌ c s) = code c ∷ codes s

-- `\d`, so many times, as one number, and the rest of the text.
unfoldable pub read_digits : ℕ → ℕ → List ℕ → Option (ℕ × List ℕ)
read_digits zero n text = some (n, text)
read_digits (suc k) n [] = none
read_digits (suc k) n (c ∷ text) =
    let rest = read_digits k (n * 10 + (c - b'0')) text in
    if leb b'0' c && leb c b'9' then rest else none

unfoldable pub read_mark : ℕ → List ℕ → Option (List ℕ)
read_mark mark [] = none
read_mark mark (c ∷ text) = if c == mark then some text else none

abbrev and_then {ℓ κ} : {A : Type ℓ} {B : Type κ} → Option A → (A → Option B) → Option B
and_then none f = none
and_then (some a) f = f a

abbrev at_end : CivilDateTime → List ℕ → Option CivilDateTime
at_end civil [] = some civil
at_end civil (c ∷ text) = none

-- The pattern LOCAL_DATE_TIME.
unfoldable pub parse_local_date_time : List ℕ → Option CivilDateTime
parse_local_date_time text = and_then (read_digits 4 0 text) λ y. and_then (read_mark b'-' y.1) λ a.
    and_then (read_digits 2 0 a) λ m. and_then (read_mark b'-' m.1) λ b.
      and_then (read_digits 2 0 b) λ d. and_then (read_mark b'T' d.1) λ c.
        and_then (read_digits 2 0 c) λ h. and_then (read_mark b':' h.1) λ e.
          and_then (read_digits 2 0 e) λ n.
            at_end (record { year = y.0; month = m.0; day = d.0; hour = h.0; minute = n.0 }) n.1

-- `String(value)`, with more rounds than the value has digits.
unfoldable pub digits_upto : ℕ → ℕ → List ℕ
digits_upto zero n = []
digits_upto (suc k) n =
    let rest = digits_upto k (n / 10) in
    if ltb n 10 then (b'0' + n) ∷ [] else rest ++ (b'0' + n % 10) ∷ []

unfoldable pub to_string : ℕ → List ℕ
unfolding digits_upto
to_string n = digits_upto (suc (suc (suc (suc n)))) n

unfoldable pub pad2 : ℕ → List ℕ
unfolding to_string
pad2 n =
    let s = to_string n in
    if ltb (length s) 2 then (if length s == 0 then b'0' ∷ b'0' ∷ [] else b'0' ∷ s) else s

unfoldable pub format_local_date_time : CivilDateTime → List ℕ
format_local_date_time c =
    to_string c.year
    ++ (b'-'
        ∷ (pad2 c.month
            ++ (b'-' ∷ (pad2 c.day ++ (b'T' ∷ (pad2 c.hour ++ (b':' ∷ pad2 c.minute)))))))

-- The parts that the formatter gives, the hour maybe 24.
pub record ZoneParts : Type 0 where
  pub civil : CivilDateTime
  pub second : ℕ

-- isEligible
abbrev pub is_eligible : ℕ → ℕ → ℕ → Bool → Bool
is_eligible instant from at after =
    if ltb instant at then false else if after then ltb from instant else leb from instant

unfoldable pub matches_recurrence : CivilDateTime → ℕ → Option ScheduleRecurrence → Bool
unfolding weekday_of_civil_date days_in_month
matches_recurrence civil at_day none = civil.day == at_day
matches_recurrence civil at_day (some daily) = true
matches_recurrence civil at_day (some (weekly days)) = has_day days (weekday_of_civil_date civil)
matches_recurrence civil at_day (some monthly) =
    civil.day == min at_day (days_in_month civil.year civil.month)

-- The body of the loop that moves the cursor on.
unfoldable pub next_cursor : CivilDateTime → CivilDateTime → CivilDateTime
unfolding add_utc_days
next_cursor at cursor = record (add_utc_days (record cursor { hour = 0; minute = 0 }) 1) {
  hour = at.hour;
  minute = at.minute;
}

abbrev pub max_rounds : ℕ
max_rounds = 400

module _ (format_to_parts : String → ℕ → ZoneParts) where
  unfoldable pub parts_in_zone : ℕ → String → ZoneParts
  parts_in_zone date zone =
      let parts = format_to_parts zone date in
      record parts {
        civil = record parts.civil {
          hour = if parts.civil.hour == 24 then 0 else parts.civil.hour;
        };
      }

  -- The instant at which the zone's clocks would show what they show, were they on UTC.
  unfoldable pub as_utc : ℕ → String → ℕ
  as_utc date zone =
      let parts = parts_in_zone date zone in
      let c = parts.civil in date_utc c.year (c.month - 1) c.day c.hour c.minute parts.second

  -- `guess - offsetMs(date, timeZone)`, where offsetMs is `asUtc - date`.
  unfoldable pub minus_offset : ℕ → ℕ → String → ℕ
  minus_offset guess date zone = guess + date - as_utc date zone

  unfoldable pub zoned_local_to_utc : List ℕ → String → Option ℕ
  zoned_local_to_utc local zone = elim (parse_local_date_time local) [
    | none ↦ none
    | some civil ↦
        let guess = date_utc civil.year (civil.month - 1) civil.day civil.hour civil.minute 0 in
        some (minus_offset guess (minus_offset guess guess zone) zone)
  ]

  -- What one run of nextRunAt works with: the trigger's date, its instant, the time it starts from.
  pub record Search : Type 0 where
    pub at_civil : CivilDateTime
    pub at_utc : ℕ
    pub from : ℕ
    pub after : Bool
    pub zone : String
    pub recurrence : ScheduleRecurrence

  unfoldable pub find_occurrence : ℕ → Search → CivilDateTime → Option (Option ℕ)
  find_occurrence zero q cursor = some none
  find_occurrence (suc k) q cursor =
      let rest = find_occurrence k q (next_cursor q.at_civil cursor) in
      if matches_recurrence cursor q.at_civil.day (some q.recurrence)
      then elim (zoned_local_to_utc (format_local_date_time cursor) q.zone) [
        | none ↦ none
        | some instant ↦
            if is_eligible instant q.from q.at_utc q.after then some (some instant) else rest
      ]
      else rest

  -- The date that the loop starts at, with the trigger's hour and minute.
  unfoldable pub start_cursor : CivilDateTime → ℕ → ℕ → String → CivilDateTime
  start_cursor at at_utc from zone =
      let date = if ltb from at_utc then at else (parts_in_zone from zone).civil in
      record date { hour = at.hour; minute = at.minute }

  -- The part of nextRunAt that depends on the recurrence.
  unfoldable pub first_run :
      Option ScheduleRecurrence → CivilDateTime → ℕ → ℕ → Bool → String → Option (Option ℕ)
  first_run none at at_utc from after zone =
      if is_eligible at_utc from at_utc after then some (some at_utc) else some none
  first_run (some recurrence) at at_utc from after zone =
      find_occurrence max_rounds
        (record {
          at_civil = at;
          at_utc = at_utc;
          from = from;
          after = after;
          zone = zone;
          recurrence = recurrence;
        })
        (start_cursor at at_utc from zone)

  unfoldable pub next_run_at : TaskTrigger → ℕ → Bool → Option (Option ℕ)
  next_run_at now from after = some none
  next_run_at (schedule t) from after =
      if is_paused t then some none else elim (parse_local_date_time (codes t.at)) [
        | none ↦ none
        | some at ↦ elim (zoned_local_to_utc (codes t.at) t.timezone) [
          | none ↦ none
          | some at_utc ↦ first_run t.recurrence at at_utc from after t.timezone
        ]
      ]

  -- Whether oneShotMustBeFutureError returns its error.
  unfoldable pub one_shot_must_be_future : TaskTrigger → ℕ → Option Bool
  one_shot_must_be_future now at_time = some false
  one_shot_must_be_future (schedule t) at_time =
      if is_paused t || (elim t.recurrence [ none ↦ false | some _ ↦ true ])
      then some false
      else elim (zoned_local_to_utc (codes t.at) t.timezone) [
        | none ↦ none
        | some at ↦ some (leb at at_time)
      ]
