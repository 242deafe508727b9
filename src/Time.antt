-- ===== src/Time.antt =====
-- Go's time.Time and time.Duration. An instant is the number of nanoseconds since the zero Time, a
-- duration a signed number of nanoseconds; differences are taken to stay within int64, as package
-- time documents for spans under 292 years.
use serversmonitor.Prelude.Int.{ℤ, pos, negsuc, sub_ℕ, leb_ℤ}
use serversmonitor.Prelude.{ℕ, ◌+◌, ◌-◌, ◌*◌, Bool, ltb, suc}

abbrev pub Time : Type 0
Time = ℕ

abbrev pub Duration : Type 0
Duration = ℤ

-- `t.Sub(u)`
abbrev pub time_sub : Time → Time → Duration
time_sub t u = sub_ℕ t u

-- `t.Add(d)`, for results that are not before the zero Time
abbrev pub time_add : Time → Duration → Time
time_add t (pos n) = t + n
time_add t (negsuc n) = t - suc n

-- `t.After(u)`
abbrev pub after : Time → Time → Bool
after t u = ltb u t

-- `t.Before(u)`
abbrev pub before : Time → Time → Bool
before t u = ltb t u

abbrev pub second : ℕ
second = 1_000_000_000

abbrev pub minute : ℕ
minute = 60 * second

abbrev pub hour : ℕ
hour = 60 * minute

-- `a <= b` on durations
abbrev pub dur_le : Duration → Duration → Bool
dur_le a b = leb_ℤ a b

abbrev pub no_time : Duration
no_time = pos 0
