-- ===== src/Guardrails/Intervals.antt =====
-- Sorting and merging the intervals of internal/hub/guardrails/schedule.go.
use serversmonitor.Prelude.{
  ◌≤◌, ◌<◌, ◌≡◌, refl, ap, ◌∙◌, false, List, [], ◌∷◌, ◌||◌, arith, if◌then◌else◌, Bool-cases, inl,
  inr, All,
}
use serversmonitor.Time.{Time, after}
use serversmonitor.Guardrails.Windows.{Window}
use serversmonitor.Guardrails.Schedule.{
  Zone, Interval, insert_interval, sort_intervals, merge_into, merge, inside, covered,
  raw_intervals, intervals, is_off,
}

-- The starts rise along the list, and lie at or after a bound.
abbrev pub SortedFrom : Time → List Interval → Type 0
SortedFrom lo [] = Unit
SortedFrom lo (iv ∷ rest) = (lo ≤ iv.start) × SortedFrom iv.start rest

SortedFrom-le :
    (lo lo' : Time) (ivs : List Interval) → lo' ≤ lo → SortedFrom lo ivs → SortedFrom lo' ivs
SortedFrom-le lo lo' [] h s = tt
SortedFrom-le lo lo' (iv ∷ rest) h s = (omega arith, s.1)

insert_interval-SortedFrom :
    (lo : Time) (iv : Interval) (ivs : List Interval)
    → lo ≤ iv.start
    → SortedFrom lo ivs
    → SortedFrom lo (insert_interval iv ivs)
unfolding insert_interval
insert_interval-SortedFrom lo iv [] h s = (h, tt)
insert_interval-SortedFrom lo iv (jv ∷ rest) h s =
    ground (arith, insert_interval-SortedFrom jv.start iv rest)

sort_intervals-SortedFrom : (ivs : List Interval) → SortedFrom 0 (sort_intervals ivs)
unfolding sort_intervals
sort_intervals-SortedFrom [] = tt
sort_intervals-SortedFrom (iv ∷ rest) =
    insert_interval-SortedFrom 0 iv (sort_intervals rest) (omega arith)
      (sort_intervals-SortedFrom rest)

covered-insert_interval :
    (t : Time) (iv : Interval) (ivs : List Interval)
    → covered t (insert_interval iv ivs) ≡ (inside t iv || covered t ivs)
unfolding insert_interval covered
covered-insert_interval t iv [] = refl
covered-insert_interval t iv (jv ∷ rest) = ground (arith, covered-insert_interval t iv rest)

covered-sort_intervals :
    (t : Time) (ivs : List Interval) → covered t (sort_intervals ivs) ≡ covered t ivs
unfolding sort_intervals covered
covered-sort_intervals t [] = refl
covered-sort_intervals t (iv ∷ rest) =
    covered-insert_interval t iv (sort_intervals rest)
    ∙ ap (λ b. inside t iv || b) (covered-sort_intervals t rest)

-- The last interval after another one that starts before its end.
abbrev extended : Interval → Interval → Interval
extended last iv = if after iv.stop last.stop then record last { stop = iv.stop } else last

extended-start : (last iv : Interval) → (extended last iv).start ≡ last.start
extended-start last iv = ground arith

extended-stop :
    (last iv : Interval)
    → (last.stop ≤ (extended last iv).stop) × (iv.stop ≤ (extended last iv).stop)
extended-stop last iv = ground arith

inside-extended :
    (t : Time) (last iv : Interval)
    → last.start ≤ iv.start
    → after iv.start last.stop ≡ false
    → inside t (extended last iv) ≡ (inside t last || inside t iv)
inside-extended t last iv h e = ground arith

covered-merge_into :
    (t : Time) (last : Interval) (ivs : List Interval)
    → SortedFrom last.start ivs
    → covered t (merge_into last ivs) ≡ (inside t last || covered t ivs)
unfolding merge_into covered
covered-merge_into t last [] s = refl
covered-merge_into t last (iv ∷ rest) s = elim (Bool-cases (after iv.start last.stop)) [
  | inl e ↦ rw (e, merge_into) (ap (λ b. inside t last || b) (covered-merge_into t iv rest (s.1)))
  | inr e ↦
      rw (e, merge_into)
        (covered-merge_into t (extended last iv) rest (
            SortedFrom-le iv.start (extended last iv).start rest
              (omega (arith, extended-start last iv, s.0)) (s.1))
          ∙ ground (arith, inside-extended t last iv (s.0) e))
]

covered-merge :
    (t : Time) (ivs : List Interval) → SortedFrom 0 ivs → covered t (merge ivs) ≡ covered t ivs
unfolding merge covered
covered-merge t [] s = refl
covered-merge t (iv ∷ rest) s = covered-merge_into t iv rest (s.1)

-- Sorting and merging do not change which instants are off.
pub is_off_lem :
    (z : Zone) (ws : List Window) (t : Time) → is_off z ws t ≡ covered t (raw_intervals z ws t)
unfolding is_off intervals
is_off_lem z ws t =
    covered-merge t (sort_intervals (raw_intervals z ws t))
      (sort_intervals-SortedFrom (raw_intervals z ws t))
    ∙ covered-sort_intervals t (raw_intervals z ws t)

-- Each interval starts after the bound and ends after its start, and the next one starts later still.
abbrev pub Apart : Time → List Interval → Type 0
Apart lo [] = Unit
Apart lo (iv ∷ rest) = (lo < iv.start) × (iv.start < iv.stop) × Apart iv.stop rest

abbrev pub IsProper : Interval → Type 0
IsProper iv = iv.start < iv.stop

merge_into-Apart :
    (lo : Time) (last : Interval) (ivs : List Interval)
    → lo < last.start
    → IsProper last
    → SortedFrom last.start ivs
    → All IsProper ivs
    → Apart lo (merge_into last ivs)
unfolding merge_into
merge_into-Apart lo last [] h p s ps = (h, p, tt)
merge_into-Apart lo last (iv ∷ rest) h p s ps = elim (Bool-cases (after iv.start last.stop)) [
  | inl e ↦
      rw (e, merge_into)
        (h, p, merge_into-Apart last.stop iv rest (ground (arith, e)) (ps.0) (s.1) (ps.1))
  | inr e ↦
      rw (e, merge_into)
        (merge_into-Apart lo (extended last iv) rest (omega (arith, extended-start last iv, h))
          (omega (arith, extended-start last iv, extended-stop last iv, p))
          (SortedFrom-le iv.start (extended last iv).start rest
            (omega (arith, extended-start last iv, s.0)) (s.1))
          (ps.1))
]

-- Merging intervals that are in the order of their starts, start after the zero Time and are not
-- empty leaves intervals in order that neither overlap nor touch nor are empty.
pub merge-Apart : (ivs : List Interval) → SortedFrom 1 ivs → All IsProper ivs → Apart 0 (merge ivs)
unfolding merge
merge-Apart [] s ps = tt
merge-Apart (iv ∷ rest) s ps = merge_into-Apart 0 iv rest (s.0) (ps.0) (s.1) (ps.1)
