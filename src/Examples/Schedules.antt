-- ===== src/Examples/Schedules.antt =====
-- A stop schedule in a month without a change of clocks, and one in a month with it.
use serversmonitor.Prelude.{
  ℕ, ◌*◌, ◌+◌, ◌-◌, ◌/◌, ◌%◌, ◌≡◌, refl, true, false, Option, some, List, [], ◌∷◌, if◌then◌else◌,
  ltb, arith, All,
}
use serversmonitor.Prelude.Int.{pos, pos_part}
use serversmonitor.Time.{Time, minute, hour}
use serversmonitor.Guardrails.Windows.{Window, minutes, minutes_of_bytes, is_digit}
use serversmonitor.Guardrails.WindowChecks.{hh_mm}
use serversmonitor.Guardrails.Schedule.{
  Zone, Interval, raw_intervals, intervals, is_off, merge, merge_into, sort_intervals,
  insert_interval, day_intervals, windows_intervals, window_interval, clock, earlier_occurrence,
  contains, last_boundary,
}
use serversmonitor.Guardrails.Boundaries.{IsUsual, last_boundary-is_off, empty_window_turns_off}

abbrev pub day_length : ℕ
day_length = 24 * hour

-- One month whose first day is a Sunday.
abbrev pub month_of_days : Zone
month_of_days = record {
  date = λ y m d h n. (pos_part d - 1) * day_length + h * hour + n * minute;
  year = λ t. 2026;
  month = λ t. 3;
  day = λ t. t / day_length + 1;
  hour_of = λ t. t % day_length / hour;
  minute_of = λ t. t % hour / minute;
  weekday = λ t. t / day_length % 7;
  offset = λ t. pos 0;
}

-- 19:00 to 07:00 on Tuesdays.
abbrev pub nights : List Window
nights = record { days = pos 2 ∷ []; from = hh_mm 1140; to = hh_mm 420 } ∷ []

-- 23:00 on the tenth day, a Tuesday.
abbrev pub late : Time
late = 9 * day_length + 23 * hour

abbrev overlapping : List Interval
overlapping =
    record { start = 1; stop = 5 }
    ∷ record { start = 4; stop = 9 }
    ∷ record { start = 12; stop = 13 }
    ∷ []

nights-IsUsual : All IsUsual (raw_intervals month_of_days nights late)
unfolding raw_intervals day_intervals windows_intervals window_interval clock earlier_occurrence
    contains minutes minutes_of_bytes is_digit
nights-IsUsual = ((omega arith, omega arith), tt)

last_boundary-is_off_example :
    (last_boundary month_of_days nights late).off ≡ is_off month_of_days nights late
last_boundary-is_off_example = last_boundary-is_off month_of_days nights late nights-IsUsual

-- The clocks go from 02:00 to 03:00 on the tenth day.
abbrev gap : Time
gap = 9 * day_length + 2 * hour

abbrev in_spring : Time → Time
in_spring raw = if ltb raw (gap + hour) then raw else raw - hour

abbrev local : Time → Time
local t = if ltb t gap then t else t + hour

abbrev spring : Zone
spring = record {
  date = λ y m d h n. in_spring ((pos_part d - 1) * day_length + h * hour + n * minute);
  year = λ t. 2026;
  month = λ t. 3;
  day = λ t. local t / day_length + 1;
  hour_of = λ t. local t % day_length / hour;
  minute_of = λ t. local t % hour / minute;
  weekday = λ t. local t / day_length % 7;
  offset = λ t. if ltb t gap then pos 0 else pos 3600;
}

-- 02:10 to 02:50, an hour that the tenth day does not have.
abbrev in_the_gap : List Window
in_the_gap = record { days = pos 2 ∷ []; from = hh_mm 130; to = hh_mm 170 } ∷ []

empty_window_turns_off_example :
    ((last_boundary spring in_the_gap late).off ≡ true) × (is_off spring in_the_gap late ≡ false)
unfolding intervals merge merge_into sort_intervals insert_interval raw_intervals day_intervals
    windows_intervals window_interval clock earlier_occurrence contains minutes minutes_of_bytes
    is_digit
empty_window_turns_off_example =
    empty_window_turns_off spring in_the_gap late (record { start = gap; stop = gap }) refl refl
      (omega arith) (omega arith)

abbrev pub reads_nights : List ℕ → Option (List Window)
reads_nights s = some nights
