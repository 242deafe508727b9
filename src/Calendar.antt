-- ===== src/Calendar.antt =====
-- The UTC calendar of package time, over instants since the zero Time (1 January of year 1, a Monday).
use serversmonitor.Prelude.{
  ℕ, ◌+◌, ◌-◌, ◌*◌, ◌/◌, ◌%◌, Bool, ◌&&◌, ◌||◌, not, if◌then◌else◌, ◌==◌, ltb, leb,
}
use serversmonitor.Time.{Time, hour}

abbrev pub day_length : ℕ
day_length = 24 * hour

pub record Civil : Type 0 where
  pub year : ℕ
  pub month : ℕ
  pub day : ℕ

-- The date of a day, counted from 1 March of year 0 (day 306 is 1 January of year 1).
civil_of_day : ℕ → Civil
civil_of_day z =
    let doe = z % 146097 in
    let yoe = (doe - doe / 1460 + doe / 36524 - doe / 146096) / 365 in
    let doy = doe - (365 * yoe + yoe / 4 - yoe / 100) in
    let mp = (5 * doy + 2) / 153 in
    let m = if ltb mp 10 then mp + 3 else mp - 9 in
    record {
      year = yoe + 400 * (z / 146097) + (if leb m 2 then 1 else 0);
      month = m;
      day = doy - (153 * mp + 2) / 5 + 1;
    }

-- `t.Year()`, `t.Month()` and `t.Day()` in UTC
unfoldable pub civil : Time → Civil
unfolding civil_of_day
civil t = civil_of_day (t / day_length + 306)

is_leap : ℕ → Bool
is_leap y = y % 4 == 0 && (not (y % 100 == 0) || y % 400 == 0)

-- `time.Date(y, m+1, 0, ...).Day()`: day 0 of the next month is the last day of this one.
unfoldable pub last_day : ℕ → ℕ → ℕ
unfolding is_leap
last_day y m =
    if m == 2
    then (if is_leap y then 29 else 28)
    else if m == 4 || m == 6 || m == 9 || m == 11
    then 30
    else 31
