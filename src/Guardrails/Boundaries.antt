-- ===== src/Guardrails/Boundaries.antt =====
-- LastBoundary of internal/hub/guardrails/schedule.go against Off.
use serversmonitor.Prelude.{
  ◌≤◌, ◌<◌, ◌≡◌, refl, ◌∙◌, Bool, true, false, List, [], ◌∷◌, not, arith, if◌then◌else◌, Bool-cases,
  inl, inr, All,
}
use serversmonitor.Time.{Time, after}
use serversmonitor.Guardrails.Windows.{Window}
use serversmonitor.Guardrails.Schedule.{
  Zone, Interval, insert_interval, sort_intervals, merge, covered, raw_intervals, intervals, is_off,
  Boundary, boundary_step, boundary_loop, no_boundary, last_boundary,
}
use serversmonitor.Guardrails.Intervals.{Apart, IsProper, SortedFrom, merge-Apart}

-- The first interval has started.
abbrev started : Time → List Interval → Bool
started t [] = false
started t (iv ∷ rest) = not (after iv.start t)

boundary_loop_later :
    (t lo : Time) (b : Boundary) (ivs : List Interval)
    → Apart lo ivs
    → t ≤ lo
    → boundary_loop t b ivs ≡ b
unfolding boundary_loop boundary_step
boundary_loop_later t lo b [] a h = refl
boundary_loop_later t lo b (iv ∷ rest) a h =
    ground (arith, boundary_loop_later t iv.stop b rest (a.2))

covered_later : (t lo : Time) (ivs : List Interval) → Apart lo ivs → t ≤ lo → covered t ivs ≡ false
unfolding covered
covered_later t lo [] a h = refl
covered_later t lo (iv ∷ rest) a h = ground (arith, covered_later t iv.stop rest (a.2))

covered_not_started :
    (t lo : Time) (ivs : List Interval)
    → Apart lo ivs
    → started t ivs ≡ false
    → covered t ivs ≡ false
unfolding covered
covered_not_started t lo [] a h = refl
covered_not_started t lo (iv ∷ rest) a h = ground (arith, covered_later t iv.stop rest (a.2))

boundary_loop-off :
    (t lo : Time) (b : Boundary) (ivs : List Interval)
    → Apart lo ivs
    → b.best ≤ lo
    → (boundary_loop t b ivs).off ≡ (if started t ivs then covered t ivs else b.off)
unfolding boundary_loop boundary_step covered
boundary_loop-off t lo b [] a h = refl
boundary_loop-off t lo b (iv ∷ rest) a h =
    let ended : Boundary = record { best = iv.stop; off = false; ok = true } in
    let begun : Boundary = record { best = iv.start; off = true; ok = true } in
    ground (
      arith,
      boundary_loop_later t iv.stop b rest (a.2),
      boundary_loop_later t iv.stop begun rest (a.2),
      boundary_loop-off t iv.stop ended rest (a.2),
      covered_not_started t iv.stop rest (a.2),
      covered_later t iv.stop rest (a.2),
    )

-- A window whose interval is after the zero Time and not empty.
abbrev pub IsUsual : Interval → Type 0
IsUsual iv = (0 < iv.start) × IsProper iv

insert_interval-IsUsual :
    (lo : Time) (iv : Interval) (ivs : List Interval)
    → (lo ≤ iv.start) × IsProper iv
    → SortedFrom lo ivs × All IsProper ivs
    → SortedFrom lo (insert_interval iv ivs) × All IsProper (insert_interval iv ivs)
unfolding insert_interval
insert_interval-IsUsual lo iv [] h s = ((h.0, tt), (h.1, tt))
insert_interval-IsUsual lo iv (jv ∷ rest) h s =
    ground (arith, insert_interval-IsUsual jv.start iv rest)

sort_intervals-IsUsual :
    (ivs : List Interval)
    → All IsUsual ivs
    → SortedFrom 1 (sort_intervals ivs) × All IsProper (sort_intervals ivs)
unfolding sort_intervals
sort_intervals-IsUsual [] u = (tt, tt)
sort_intervals-IsUsual (iv ∷ rest) u =
    insert_interval-IsUsual 1 iv (sort_intervals rest) (u.0) (sort_intervals-IsUsual rest (u.1))

-- Where no window is empty and none starts at the zero Time, LastBoundary says that the resource
-- should be off exactly when Off says that it is in an off window.
pub last_boundary-is_off :
    (z : Zone) (ws : List Window) (t : Time)
    → All IsUsual (raw_intervals z ws t)
    → (last_boundary z ws t).off ≡ is_off z ws t
unfolding last_boundary is_off intervals
last_boundary-is_off z ws t u =
    let s = sort_intervals-IsUsual (raw_intervals z ws t) u in
    let ivs = merge (sort_intervals (raw_intervals z ws t)) in
    let a = merge-Apart (sort_intervals (raw_intervals z ws t)) (s.0) (s.1) in
    boundary_loop-off t 0 no_boundary ivs a (omega arith) ∙ by_start ivs a
  where
    by_start :
        (ivs : List Interval)
        → Apart 0 ivs
        → (if started t ivs then covered t ivs else false) ≡ covered t ivs
    by_start ivs a = elim (Bool-cases (started t ivs)) [
      | inl e ↦ rw e
      | inr e ↦ rw (e, covered_not_started t 0 ivs a e)
    ]

-- A boundary of the interval is not after t only if it is not after the best one.
abbrev pub NotMissed : Time → Boundary → Interval → Type 0
NotMissed t b iv = (iv.start ≤ t → iv.start ≤ b.best) × (iv.stop ≤ t → iv.stop ≤ b.best)

boundary_step_latest :
    (t : Time) (b : Boundary) (iv : Interval)
    → b.best ≤ t
    → let b' = boundary_step t b iv in
      (b.best ≤ b'.best)
      × (b'.best ≤ t)
      × (iv.start ≤ t → iv.start ≤ b'.best)
      × (iv.stop ≤ t → iv.stop ≤ b'.best)
unfolding boundary_step
boundary_step_latest t b iv h =
    (ground arith, ground arith, (λ e. ground arith), (λ e. ground arith))

boundary_loop_latest :
    (t : Time) (b : Boundary) (ivs : List Interval)
    → b.best ≤ t
    → let r = boundary_loop t b ivs in (b.best ≤ r.best) × (r.best ≤ t) × All (NotMissed t r) ivs
unfolding boundary_loop
boundary_loop_latest t b [] h = (omega arith, h, tt)
boundary_loop_latest t b (iv ∷ rest) h =
    let s = boundary_step_latest t b iv h in
    let r = boundary_loop_latest t (boundary_step t b iv) rest (s.1) in
    (
      omega (arith, s.0, r.0),
      r.1,
      (((λ e. omega (arith, s.2 e, r.0)), (λ e. omega (arith, s.3 e, r.0))), r.2),
    )

-- The boundary is not after t, and no start or end of an interval lies between it and t.
pub last_boundary_latest :
    (z : Zone) (ws : List Window) (t : Time)
    → ((last_boundary z ws t).best ≤ t)
      × All (NotMissed t (last_boundary z ws t)) (intervals z ws t)
unfolding last_boundary
last_boundary_latest z ws t =
    let r = boundary_loop_latest t no_boundary (intervals z ws t) (omega arith) in (r.1, r.2)

-- Where the only off interval about t is one that a change of the clock left empty (its start and
-- its end are the same instant, after the zero Time and not after t), LastBoundary answers that the
-- resource should be off from that instant on, while Off says that no window is open.
pub empty_window_turns_off :
    (z : Zone) (ws : List Window) (t : Time) (iv : Interval)
    → intervals z ws t ≡ iv ∷ []
    → iv.stop ≡ iv.start
    → 0 < iv.start
    → iv.start ≤ t
    → ((last_boundary z ws t).off ≡ true) × (is_off z ws t ≡ false)
unfolding last_boundary boundary_loop boundary_step is_off covered
empty_window_turns_off z ws t iv e empty later past = (rw e (ground arith), rw e (ground arith))
