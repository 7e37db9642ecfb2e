-- ===== src/Schedule/NextRun/Instants.antt =====
-- The instants of local dates and times in a zone (zonedLocalToUtc of
-- packages/shared/src/next-run-at.ts).
use keidai.Common.{ℕ, ◌+◌, ◌-◌, ◌*◌, ◌≤◌, ◌<◌, ◌≡◌, arith, String, some, List}
use keidai.Schedule.Civil.{CivilDateTime, days_before_year, day_ms, date_utc}
use keidai.Schedule.Civil.Numbers.{day_number_lem}
use keidai.Schedule.NextRun.{
  ZoneParts, parse_local_date_time, parts_in_zone, as_utc, minus_offset, zoned_local_to_utc,
}
use keidai.Schedule.NextRun.Cursor.{IsDate, number}

-- A date with an hour and a minute of a clock.
pub record IsDateTime (c : CivilDateTime) : Type 0 where
  pub date : IsDate c
  pub hour_bound : c.hour ≤ 23
  pub minute_bound : c.minute ≤ 59

-- From here on, within the year 109, dates are counted on.
abbrev pub first_instant : ℕ
first_instant = 40000 * day_ms

first_number : (c : CivilDateTime) → IsDate c → 1000 ≤ c.year → 365000 ≤ number c
unfolding days_before_year
first_number c h y = omega (
  arith,
  day_number_lem c.year (c.month - 1) c.day h.year_bound (omega (arith, h.month_bound)),
  h.day_pos,
)

module _ (format_to_parts : String → ℕ → ZoneParts) (zone : String) where
  -- From that instant on, the zone's clocks are at most a day from UTC, and show dates and times that
  -- there are.
  pub record IsZone : Type 0 where
    pub ahead : (t : ℕ) → first_instant ≤ t → as_utc format_to_parts t zone ≤ t + day_ms
    pub behind : (t : ℕ) → first_instant ≤ t → t ≤ as_utc format_to_parts t zone + day_ms
    pub shows :
        (t : ℕ) → first_instant ≤ t → IsDateTime (parts_in_zone format_to_parts t zone).civil
    pub seconds : (t : ℕ) → first_instant ≤ t → (parts_in_zone format_to_parts t zone).second ≤ 59

  -- The start of a date and the end of it, for its time on a clock on UTC.
  guess_bounds :
      (c : CivilDateTime) (second : ℕ)
      → IsDateTime c
      → second ≤ 59
      → let guess = date_utc c.year (c.month - 1) c.day c.hour c.minute second in
        (number c * day_ms ≤ guess) × (guess < number c * day_ms + day_ms)
  unfolding date_utc
  guess_bounds c second h k = omega (arith, h.hour_bound, h.minute_bound)

  pub from_bounds :
      (t : ℕ)
      → IsZone
      → first_instant ≤ t
      → t < number (parts_in_zone format_to_parts t zone).civil * day_ms + 2 * day_ms
  unfolding as_utc
  from_bounds t z here =
      let (low, high) =
        guess_bounds (parts_in_zone format_to_parts t zone).civil
          (parts_in_zone format_to_parts t zone).second (z.shows t here) (z.seconds t here) in
      omega (arith, z.behind t here, high)

  -- The instant of a local time is within a day of what a clock on UTC would make of it.
  pub zoned_bounds :
      (local : List ℕ) (c : CivilDateTime)
      → IsZone
      → parse_local_date_time local ≡ some c
      → IsDateTime c
      → 1000 ≤ c.year
      → (i : ℕ) × (zoned_local_to_utc format_to_parts local zone ≡ some i)
        × (number c * day_ms ≤ i + day_ms)
        × (i < number c * day_ms + 2 * day_ms)
  unfolding zoned_local_to_utc minus_offset
  zoned_bounds local c z e h y =
      let guess = date_utc c.year (c.month - 1) c.day c.hour c.minute 0 in
      let first = guess + guess - as_utc format_to_parts guess zone in
      let (low, high) = guess_bounds c 0 h (omega arith) in
      let counted = first_number c h.date y in
      let early = z.ahead guess (omega (arith, low, counted)) in
      let there : first_instant ≤ first = omega (arith, low, early, counted) in
      (
        guess + first - as_utc format_to_parts first zone,
        ground (arith, e),
        omega (arith, low, z.ahead first there),
        omega (arith, high, z.behind first there),
      )
