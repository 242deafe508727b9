-- ===== src/Guardrails/Schedule.antt =====
-- internal/hub/guardrails/schedule.go: off windows as intervals of time. A time zone is a parameter:
-- what time.Date and the accessors of time.Time answer in that zone, which the tz database decides.
use serversmonitor.Prelude.{
  ℕ, zero, suc, ◌+◌, ◌-◌, ◌*◌, ◌/◌, ◌%◌, Bool, true, false, List, [], ◌∷◌, ◌++◌, not, ◌&&◌, ◌||◌,
  if◌then◌else◌, leb, ◌==◌,
}
use serversmonitor.Prelude.Int.{ℤ, pos, negsuc, sub_ℕ, leb_ℤ, ltb_ℤ, pos_part, neg_part}
use serversmonitor.Time.{Time, after, before, second, minute, hour}
use serversmonitor.Guardrails.Windows.{Window, minutes, minutes_or_zero}

pub record Zone : Type 0 where
  -- `time.Date(year, month, day, hour, minute, 0, 0, loc)`, the day out of range included
  pub date : ℕ → ℕ → ℤ → ℕ → ℕ → Time
  -- the fields of `t.In(loc)`
  pub year : Time → ℕ
  pub month : Time → ℕ
  pub day : Time → ℕ
  pub hour_of : Time → ℕ
  pub minute_of : Time → ℕ
  -- 0 is Sunday
  pub weekday : Time → ℕ
  -- seconds east of UTC, the second result of Zone
  pub offset : Time → ℤ

pub record Interval : Type 0 where
  pub start : Time
  pub stop : Time

-- `n + d` for a day of the month and a small offset
abbrev pub add_days : ℕ → ℤ → ℤ
add_days n (pos d) = pos (n + d)
add_days n (negsuc d) = sub_ℕ n (suc d)

-- `a - b` of two offsets
abbrev pub offset_sub : ℤ → ℤ → ℤ
offset_sub a b = sub_ℕ (pos_part a + neg_part b) (neg_part a + pos_part b)

abbrev pub int_eq : ℤ → ℤ → Bool
int_eq a b = leb_ℤ a b && leb_ℤ b a

unfoldable pub contains : List ℤ → ℤ → Bool
contains [] x = false
contains (v ∷ xs) x = int_eq v x || contains xs x

module _ (z : Zone) where
  -- Midnight of the day that is `off` days after that of t.
  abbrev pub midnight : Time → ℤ → Time
  midnight t off = z.date (z.year t) (z.month t) (add_days (z.day t) off) 0 0

  -- The earlier occurrence of a wall clock that happens twice, where there is one.
  unfoldable pub earlier_occurrence : Time → ℕ → ℕ → Time
  earlier_occurrence t hh mm =
      let delta = offset_sub (z.offset (t - 6 * hour)) (z.offset t) in
      let earlier = t - pos_part delta * second in
      if ltb_ℤ (pos 0) delta
      then (if z.hour_of earlier == hh && z.minute_of earlier == mm then earlier else t)
      else t

  unfoldable pub clock : Time → ℕ → Time
  unfolding earlier_occurrence
  clock day mins =
      let hh = mins / 60 in
      let mm = mins % 60 in
      let t = z.date (z.year day) (z.month day) (pos (z.day day)) hh mm in
      if leb (24 * 60) mins
      then z.date (z.year day) (z.month day) (pos (z.day day + 1)) 0 0
      else if not (z.hour_of t * 60 + z.minute_of t == mins)
      then z.date (z.year day) (z.month day) (pos (z.day day)) (hh + 1) 0
      else earlier_occurrence t hh mm

  -- The interval of a window on a day, if the window has that day.
  unfoldable pub window_interval : Time → ℤ → Window → List Interval
  window_interval day iso w =
      let from = minutes_or_zero (minutes w.from false) in
      let to = minutes_or_zero (minutes w.to true) in
      let stop = if leb to from then clock (midnight day (pos 1)) to else clock day to in
      if not (contains w.days iso) then [] else record { start = clock day from; stop = stop } ∷ []

  unfoldable pub windows_intervals : Time → ℤ → List Window → List Interval
  windows_intervals day iso [] = []
  windows_intervals day iso (w ∷ ws) = window_interval day iso w ++ windows_intervals day iso ws

  abbrev pub iso_weekday : Time → ℤ
  iso_weekday day = if z.weekday day == 0 then pos 7 else pos (z.weekday day)

  unfoldable pub day_intervals : List Window → Time → ℤ → List Interval
  day_intervals ws t off = let day = midnight t off in windows_intervals day (iso_weekday day) ws

-- sort.Slice by the start; intervals that start together may come in either order.
unfoldable pub insert_interval : Interval → List Interval → List Interval
insert_interval iv [] = iv ∷ []
insert_interval iv (jv ∷ rest) =
    if leb iv.start jv.start then iv ∷ (jv ∷ rest) else jv ∷ insert_interval iv rest

unfoldable pub sort_intervals : List Interval → List Interval
sort_intervals [] = []
sort_intervals (iv ∷ rest) = insert_interval iv (sort_intervals rest)

-- The loop of merge behind its first round; `last` is `out[n-1]`.
unfoldable pub merge_into : Interval → List Interval → List Interval
merge_into last [] = last ∷ []
merge_into last (iv ∷ rest) =
    let joined =
      merge_into (if after iv.stop last.stop then record last { stop = iv.stop } else last) rest in
    let apart = last ∷ merge_into iv rest in
    if not (after iv.start last.stop) then joined else apart

unfoldable pub merge : List Interval → List Interval
merge [] = []
merge (iv ∷ rest) = merge_into iv rest

-- `!t.Before(iv.start) && t.Before(iv.end)`
abbrev pub inside : Time → Interval → Bool
inside t iv = not (before t iv.start) && before t iv.stop

unfoldable pub covered : Time → List Interval → Bool
covered t [] = false
covered t (iv ∷ rest) = inside t iv || covered t rest

-- The variables of LastBoundary.
pub record Boundary : Type 0 where
  pub best : Time
  pub off : Bool
  pub ok : Bool

-- One round of its loop.
unfoldable pub boundary_step : Time → Boundary → Interval → Boundary
boundary_step t b iv =
    let b1 =
      if not (after iv.start t) && after iv.start b.best
      then record { best = iv.start; off = true; ok = true }
      else b in
    if not (after iv.stop t) && after iv.stop b1.best
    then record { best = iv.stop; off = false; ok = true }
    else b1

unfoldable pub boundary_loop : Time → Boundary → List Interval → Boundary
boundary_loop t b [] = b
boundary_loop t b (iv ∷ rest) = boundary_loop t (boundary_step t b iv) rest

abbrev pub no_boundary : Boundary
no_boundary = record { best = 0; off = false; ok = false }

module _ (z : Zone) where
  -- The intervals before merge, unsorted.
  unfoldable pub raw_intervals : List Window → Time → List Interval
  raw_intervals ws t =
      day_intervals z ws t (negsuc 1)
      ++ (day_intervals z ws t (negsuc 0)
          ++ (day_intervals z ws t (pos 0) ++ day_intervals z ws t (pos 1)))

  unfoldable pub intervals : List Window → Time → List Interval
  intervals ws t = merge (sort_intervals (raw_intervals ws t))

  -- Off
  unfoldable pub is_off : List Window → Time → Bool
  is_off ws t = covered t (intervals ws t)

  -- LastBoundary
  unfoldable pub last_boundary : List Window → Time → Boundary
  last_boundary ws t = boundary_loop t no_boundary (intervals ws t)

  -- The minutes of CoversWholeWeek from t on.
  unfoldable pub covers_minutes : ℕ → List Window → Time → Bool
  covers_minutes zero ws t = true
  covers_minutes (suc n) ws t =
      let rest = covers_minutes n ws (t + minute) in if not (is_off ws t) then false else rest

  -- The zone is UTC there. The loop makes one round for each of the 7 * 24 * 60 minutes.
  unfoldable pub covers_whole_week : List Window → Bool
  covers_whole_week [] = false
  covers_whole_week (w ∷ ws) = covers_minutes (7 * 24 * 60) (w ∷ ws) (z.date 2026 1 (pos 5) 0 0)
