-- ===== src/Guardrails/WindowChecks.antt =====
-- What the checks of internal/hub/guardrails/schedule.go let through.
use serversmonitor.Prelude.{
  ℕ, suc, ◌⊎◌, ◌+◌, ◌*◌, ◌/◌, ◌%◌, ◌≤◌, ◌<◌, ◌≡◌, ◌≢◌, refl, ap, ◌∙◌, subst, Bool, true, false,
  Option, none, some, List, [], ◌∷◌, arith, Option-cases, inl, inr, All, length,
}
use serversmonitor.Prelude.Int.{ℤ, pos, ◌≤ℤ◌}
use serversmonitor.Guardrails.Windows.{
  at_minute, minutes_of_bytes, minutes, is_refused, Window, Parsed, parsed, invalid, is_empty,
  first_bad_day, insert_int, sort_ints, window_error, check_windows, trim_space, parse_windows,
  not_a_list,
}

minutes_of_bytes_bounds :
    (h1 h0 c m1 m0 : ℕ) (end : Bool) (n : ℕ)
    → minutes_of_bytes h1 h0 c m1 m0 end ≡ at_minute n
    → (n ≤ 24 * 60) × (end ≡ false → n < 24 * 60)
unfolding minutes_of_bytes
minutes_of_bytes_bounds h1 h0 c m1 m0 end n e = (ground arith, λ f. ground arith)

-- The text of a time of day, "HH:MM".
abbrev pub hh_mm : ℕ → List ℕ
hh_mm n =
    (b'0' + n / 60 / 10)
    ∷ (b'0' + n / 60 % 10)
    ∷ b':'
    ∷ (b'0' + n % 60 / 10)
    ∷ (b'0' + n % 60 % 10)
    ∷ []

minutes_of_digits :
    (a b c d : ℕ) (end : Bool)
    → a ≤ 9
    → b ≤ 9
    → c ≤ 9
    → d ≤ 9
    → c * 10 + d ≤ 59
    → (a * 10 + b < 24) ⊎ ((a * 10 + b ≡ 24) × (c * 10 + d ≡ 0) × (end ≡ true))
    → minutes_of_bytes (b'0' + a) (b'0' + b) b':' (b'0' + c) (b'0' + d) end
      ≡ at_minute ((a * 10 + b) * 60 + (c * 10 + d))
unfolding minutes_of_bytes
minutes_of_digits a b c d end ha hb hc hd hm hh = ground arith

-- `minutes` reads back every time of day that is written as HH:MM, and 24:00 as an end only.
pub minutes-hh_mm :
    (n : ℕ) (end : Bool)
    → (n < 24 * 60) ⊎ ((n ≡ 24 * 60) × (end ≡ true))
    → minutes (hh_mm n) end ≡ at_minute n
unfolding minutes
minutes-hh_mm n end h =
    minutes_of_digits (n / 60 / 10) (n / 60 % 10) (n % 60 / 10) (n % 60 % 10) end (omega arith)
      (omega arith) (omega arith) (omega arith) (omega arith)
      (elim h [ inl e ↦ inl (omega arith) | inr (e, f) ↦ inr (omega arith, omega arith, f) ])
    ∙ ap at_minute (omega arith)

-- Whatever `minutes` accepts lies within the day; only an end may be its last instant.
pub minutes_bounds :
    (s : List ℕ) (end : Bool) (n : ℕ)
    → minutes s end ≡ at_minute n
    → (n ≤ 24 * 60) × (end ≡ false → n < 24 * 60)
unfolding minutes
minutes_bounds (h1 ∷ h0 ∷ c ∷ m1 ∷ m0 ∷ []) end n e = minutes_of_bytes_bounds h1 h0 c m1 m0 end n e
minutes_bounds _ end n e = cc

abbrev pub IsWeekday : ℤ → Type 0
IsWeekday d = (pos 1 ≤ℤ d) × (d ≤ℤ pos 7)

first_bad_day-none : (ds : List ℤ) → first_bad_day ds ≡ none → All IsWeekday ds
unfolding first_bad_day
first_bad_day-none [] e = tt
first_bad_day-none (d ∷ ds) e = ground (arith, first_bad_day-none ds)

insert_int-All :
    (d : ℤ) (ds : List ℤ) → IsWeekday d → All IsWeekday ds → All IsWeekday (insert_int d ds)
unfolding insert_int
insert_int-All d [] h hs = (h, tt)
insert_int-All d (e ∷ es) h hs = ground (arith, insert_int-All d es)

sort_ints-All : (ds : List ℤ) → All IsWeekday ds → All IsWeekday (sort_ints ds)
unfolding sort_ints
sort_ints-All [] h = tt
sort_ints-All (d ∷ ds) h = insert_int-All d (sort_ints ds) (h.0) (sort_ints-All ds (h.1))

insert_int-ne-nil : (d : ℤ) (ds : List ℤ) → insert_int d ds ≢ []
unfolding insert_int
insert_int-ne-nil d [] e = cc
insert_int-ne-nil d (x ∷ xs) e = ground arith

sort_ints-ne-nil : (ds : List ℤ) → ds ≢ [] → sort_ints ds ≢ []
unfolding sort_ints
sort_ints-ne-nil [] h e = h refl
sort_ints-ne-nil (d ∷ ds) h e = insert_int-ne-nil d (sort_ints ds) e

-- What the schedule code relies on: a day of the week in every window, and two times that parse.
pub record IsValidWindow (w : Window) : Type 0 where
  pub some_day : w.days ≢ []
  pub weekdays : All IsWeekday w.days
  pub from_parses : is_refused (minutes w.from false) ≡ false
  pub to_parses : is_refused (minutes w.to true) ≡ false

not_empty : (ds : List ℤ) → is_empty ds ≡ false → ds ≢ []
not_empty [] e = cc
not_empty (d ∷ ds) e = λ f. cc

window_error-none : (i : ℕ) (w : Window) → window_error i w ≡ none → IsValidWindow w
unfolding window_error
window_error-none i w e = record {
  some_day = not_empty w.days (ground arith);
  weekdays = first_bad_day-none w.days (ground arith);
  from_parses = ground arith;
  to_parses = ground arith;
}

sorted_IsValidWindow :
    (w : Window) → IsValidWindow w → IsValidWindow (record w { days = sort_ints w.days })
sorted_IsValidWindow w v = record {
  some_day = sort_ints-ne-nil w.days v.some_day;
  weekdays = sort_ints-All w.days v.weekdays;
  from_parses = v.from_parses;
  to_parses = v.to_parses;
}

abbrev Accepts : ℕ → Parsed → Type 0
Accepts n (invalid e) = Unit
Accepts n (parsed out) = All IsValidWindow out × (length out ≡ n)

abbrev with_window : Window → Parsed → Parsed
with_window w (parsed out) = parsed (record w { days = sort_ints w.days } ∷ out)
with_window w (invalid e) = invalid e

with_window-Accepts :
    (w : Window) (n : ℕ) (r : Parsed)
    → IsValidWindow w
    → Accepts n r
    → Accepts (suc n) (with_window w r)
with_window-Accepts w n (invalid e) v h = tt
with_window-Accepts w n (parsed out) v h = ((sorted_IsValidWindow w v, h.0), ap suc (h.1))

check_windows-Accepts : (i : ℕ) (ws : List Window) → Accepts (length ws) (check_windows i ws)
unfolding check_windows
check_windows-Accepts i [] = (tt, refl)
check_windows-Accepts i (w ∷ ws) = elim (Option-cases (window_error i w)) [
  | inl e ↦
      rw (e, check_windows)
        (with_window-Accepts w (length ws) (check_windows (i + 1) ws) (window_error-none i w e)
          (check_windows-Accepts (i + 1) ws))
  | inr (err, e) ↦ rw (e, check_windows) tt
]

abbrev Passes : Parsed → Type 0
Passes (invalid e) = Unit
Passes (parsed out) = All IsValidWindow out

Accepts-Passes : (n : ℕ) (r : Parsed) → Accepts n r → Passes r
Accepts-Passes n (invalid e) h = tt
Accepts-Passes n (parsed out) h = h.0

-- The rest of ParseWindows once the text is trimmed.
abbrev parse_trimmed : (List ℕ → Option (List Window)) → List ℕ → Parsed
parse_trimmed decode s = elim s [
  | [] ↦ parsed []
  | b ∷ bs ↦ elim (decode (b ∷ bs)) [ none ↦ invalid not_a_list | some ws ↦ check_windows 1 ws ]
]

parse_trimmed-Passes :
    (decode : List ℕ → Option (List Window)) (s : List ℕ) → Passes (parse_trimmed decode s)
parse_trimmed-Passes decode [] = tt
parse_trimmed-Passes decode (b ∷ bs) = after_decode (decode (b ∷ bs))
  where
    after_decode :
        (o : Option (List Window))
        → Passes (elim o [ none ↦ invalid not_a_list | some ws ↦ check_windows 1 ws ])
    after_decode none = tt
    after_decode (some ws) =
        Accepts-Passes (length ws) (check_windows 1 ws) (check_windows-Accepts 1 ws)

-- Every window of a list that ParseWindows accepts names at least one day, only days from 1 to 7, and
-- two times that `minutes` accepts.
pub parse_windows_valid :
    (decode : List ℕ → Option (List Window)) (raw : List ℕ) (out : List Window)
    → parse_windows decode raw ≡ parsed out
    → All IsValidWindow out
unfolding parse_windows
parse_windows_valid decode raw out e = subst Passes e (parse_trimmed-Passes decode (trim_space raw))
