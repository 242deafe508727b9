-- ===== src/Guardrails/Windows.antt =====
-- internal/hub/guardrails/schedule.go: off windows as a person writes them, and how they are checked.
-- A text is the list of its bytes. JSON decoding is a parameter: `decode` is json.Unmarshal into a list
-- of windows, `none` where it reports an error.
use serversmonitor.Prelude.{
  ℕ, ◌+◌, ◌-◌, ◌*◌, Bool, true, false, Option, none, some, List, [], ◌∷◌, not, ◌&&◌, ◌||◌,
  if◌then◌else◌, ltb, leb, ◌==◌,
}
use serversmonitor.Prelude.Int.{ℤ, pos, leb_ℤ, ltb_ℤ}
use mathlib.Core.List.{reverse}

pub data MinutesError : Type 0 where
  expected_hh_mm not_a_time : MinutesError

pub data Minutes : Type 0 where
  at_minute : ℕ → Minutes
  refused : MinutesError → Minutes

unfoldable pub is_digit : ℕ → Bool
is_digit b = leb b'0' b && leb b b'9'

-- The checks and the value of the five bytes; the last argument is `end`.
unfoldable pub minutes_of_bytes : ℕ → ℕ → ℕ → ℕ → ℕ → Bool → Minutes
unfolding is_digit
minutes_of_bytes h1 h0 colon m1 m0 end =
    if not (colon == b':')
      || not (is_digit h1)
      || not (is_digit h0)
      || not (is_digit m1)
      || not (is_digit m0)
    then refused expected_hh_mm
    else (let hh = (h1 - b'0') * 10 + (h0 - b'0') in
        let mm = (m1 - b'0') * 10 + (m0 - b'0') in
        if ltb 59 mm || ltb 24 hh || (hh == 24 && (not (mm == 0) || not end))
        then refused not_a_time
        else at_minute (hh * 60 + mm))

-- minutes: `len(s) != 5` is every other shape.
unfoldable pub minutes : List ℕ → Bool → Minutes
unfolding minutes_of_bytes
minutes (h1 ∷ h0 ∷ colon ∷ m1 ∷ m0 ∷ []) end = minutes_of_bytes h1 h0 colon m1 m0 end
minutes _ end = refused expected_hh_mm

-- `v, _ := minutes(...)`: the value is 0 where there is an error.
abbrev pub minutes_or_zero : Minutes → ℕ
minutes_or_zero (at_minute n) = n
minutes_or_zero (refused e) = 0

abbrev pub is_refused : Minutes → Bool
is_refused (at_minute n) = false
is_refused (refused e) = true

pub record Window : Type 0 where
  pub days : List ℤ
  pub from : List ℕ
  pub to : List ℕ

pub data WindowsError : Type 0 where
  not_a_list : WindowsError
  no_day : ℕ → WindowsError
  bad_day : ℕ → ℤ → WindowsError
  bad_from : ℕ → WindowsError
  bad_to : ℕ → WindowsError

pub data Parsed : Type 0 where
  parsed : List Window → Parsed
  invalid : WindowsError → Parsed

abbrev pub is_empty : List ℤ → Bool
is_empty [] = true
is_empty _ = false

-- The first day that is not between 1 and 7.
unfoldable pub first_bad_day : List ℤ → Option ℤ
first_bad_day [] = none
first_bad_day (d ∷ ds) = if ltb_ℤ d (pos 1) || ltb_ℤ (pos 7) d then some d else first_bad_day ds

-- sort.Ints
unfoldable pub insert_int : ℤ → List ℤ → List ℤ
insert_int d [] = d ∷ []
insert_int d (e ∷ es) = if leb_ℤ d e then d ∷ (e ∷ es) else e ∷ insert_int d es

unfoldable pub sort_ints : List ℤ → List ℤ
unfolding insert_int
sort_ints [] = []
sort_ints (d ∷ ds) = insert_int d (sort_ints ds)

-- The checks of one window, which is the i-th counted from 1.
unfoldable pub window_error : ℕ → Window → Option WindowsError
window_error i w = if is_empty w.days then some (no_day i) else (elim (first_bad_day w.days) [
  | some d ↦ some (bad_day i d)
  | none ↦
      if is_refused (minutes w.from false)
      then some (bad_from i)
      else if is_refused (minutes w.to true)
      then some (bad_to i)
      else none
])

-- The loop over the windows, which sorts the days of each.
unfoldable pub check_windows : ℕ → List Window → Parsed
check_windows i [] = parsed []
check_windows i (w ∷ ws) =
    let rest = check_windows (i + 1) ws in
    elim (window_error i w) [
      | some e ↦ invalid e
      | none ↦ elim rest [
        | parsed out ↦ parsed (record w { days = sort_ints w.days } ∷ out)
        | invalid e ↦ invalid e
      ]
    ]

-- The white space of strings.TrimSpace among the ASCII bytes.
abbrev pub is_space : ℕ → Bool
is_space b = b == 32 || (leb 9 b && leb b 13)

unfoldable pub trim_left : List ℕ → List ℕ
trim_left [] = []
trim_left (b ∷ bs) = if is_space b then trim_left bs else b ∷ bs

unfoldable pub trim_space : List ℕ → List ℕ
unfolding trim_left
trim_space s = reverse (trim_left (reverse (trim_left s)))

-- ParseWindows
unfoldable pub parse_windows : (List ℕ → Option (List Window)) → List ℕ → Parsed
parse_windows decode raw = elim (trim_space raw) [
  | [] ↦ parsed []
  | b ∷ bs ↦ elim (decode (b ∷ bs)) [ none ↦ invalid not_a_list | some ws ↦ check_windows 1 ws ]
]
