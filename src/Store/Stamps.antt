-- ===== src/Store/Stamps.antt =====
-- internal/hub/store/store.go: the order of the instants that the database keeps as text. RFC3339Nano
-- writes the date and the time of day in fields of a fixed width, so that their bytes compare as the
-- numbers of seconds do, then the fraction of the second without its trailing zeros, and `Z`.
use serversmonitor.Time.{Time, second}
use serversmonitor.Prelude.{
  ℕ, zero, suc, ◌+◌, ◌*◌, ◌/◌, ◌%◌, ◌^◌, ◌<◌, ◌≡◌, ◌⊎◌, Bool, true, false, ◌&&◌, ◌||◌, List, [],
  ◌∷◌, if◌then◌else◌, ltb, ◌==◌, arith,
}

-- The digits of a fraction of k places, up to its last digit that is not zero, and the closing `Z`.
unfoldable pub fraction_digits : ℕ → ℕ → List ℕ
fraction_digits zero f = 90 ∷ []
fraction_digits (suc k) f =
    let rest = fraction_digits k (f % 10 ^ k) in
    if f == 0 then 90 ∷ [] else (48 + f / 10 ^ k) ∷ rest

-- The bytes that follow the seconds.
unfoldable pub fraction_text : Time → List ℕ
fraction_text t = let f = t % second in if f == 0 then 90 ∷ [] else 46 ∷ fraction_digits 9 f

-- SQLite's order of two texts, byte by byte.
unfoldable pub bytes_lt : List ℕ → List ℕ → Bool
bytes_lt [] [] = false
bytes_lt [] (y ∷ ys) = true
bytes_lt (x ∷ xs) [] = false
bytes_lt (x ∷ xs) (y ∷ ys) = let rest = bytes_lt xs ys in ltb x y || ((x == y) && rest)

-- `fmtTime(t) < fmtTime(u)`
unfoldable pub stamp_lt : Time → Time → Bool
stamp_lt t u =
    ltb (t / second) (u / second)
    || ((t / second == u / second) && bytes_lt (fraction_text t) (fraction_text u))

-- The order of two stored instants is that of time, unless both fall in the same second.
pub stamp_lt-agrees : (t u : Time) → (stamp_lt t u ≡ ltb t u) ⊎ (t / second ≡ u / second)
unfolding stamp_lt
stamp_lt-agrees t u = ground arith

whole_seconds : (s f : ℕ) → f < second → (s * second + f) / second ≡ s
whole_seconds s f h = omega arith

whole_rest : (s f : ℕ) → f < second → (s * second + f) % second ≡ f
whole_rest s f h = omega arith

-- Within a second the order is not that of time: a stored instant with a fraction comes before the
-- whole second that it follows.
pub stamp_lt-whole_second_last :
    (s f : ℕ) → 0 < f → f < second → stamp_lt (s * second + f) (s * second) ≡ true
unfolding stamp_lt fraction_text bytes_lt
stamp_lt-whole_second_last s f lo hi = ground (
  arith,
  whole_seconds s f hi,
  whole_rest s f hi,
  whole_seconds s 0 (omega arith),
  whole_rest s 0 (omega arith),
)
