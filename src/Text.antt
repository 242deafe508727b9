-- ===== src/Text.antt =====
-- strconv.Itoa, strings.TrimSuffix of a slash, and the last segment of an Azure id.
use Prim.Native.String.{[], ◌∷◌, ◌++◌ as str_append}
use mathlib.Core.Option.{Option, none, some}
use serversmonitor.Prelude.{ℕ, zero, suc, ◌/◌, ◌%◌, String, if◌then◌else◌, ◌==◌, ltb, text_eq}
use serversmonitor.Prelude.Int.{ℤ, pos, negsuc}

digit_text : ℕ → String
digit_text n =
    if n == 0
    then "0"
    else if n == 1
    then "1"
    else if n == 2
    then "2"
    else if n == 3
    then "3"
    else if n == 4
    then "4"
    else if n == 5
    then "5"
    else if n == 6
    then "6"
    else if n == 7
    then "7"
    else if n == 8
    then "8"
    else "9"

-- The fuel is one more than the number, which has fewer digits than that.
digits_text : ℕ → ℕ → String
digits_text zero n = ""
digits_text (suc fuel) n =
    let rest = digits_text fuel (n / 10) in
    if ltb n 10 then digit_text n else str_append rest (digit_text (n % 10))

unfoldable pub itoa : ℤ → String
unfolding digit_text digits_text
itoa (pos n) = digits_text (suc n) n
itoa (negsuc n) = str_append "-" (digits_text (suc (suc n)) (suc n))

-- `strings.TrimSuffix(s, "/")`
unfoldable pub trim_slash : String → String
trim_slash [] = ""
trim_slash (c ∷ s) = let rest = trim_slash s in if text_eq (c ∷ s) "/" then "" else c ∷ rest

-- What follows the last slash.
after_slash : String → Option String
after_slash [] = none
after_slash (c ∷ s) = elim (after_slash s) [
  | some t ↦ some t
  | none ↦ if text_eq (c ∷ "") "/" then some s else none
]

-- LastSegment of internal/hub/azure/inventory.go
unfoldable pub last_segment : String → String
unfolding after_slash
last_segment id = elim (after_slash id) [ none ↦ id | some t ↦ if text_eq t "" then id else t ]
