-- ===== src/Auth/Lockout.antt =====
-- When internal/hub/auth/limiter.go locks a key out, and for how long.
use serversmonitor.Prelude.{
  lt→ltb, ℕ, ◌+◌, ◌≤◌, ◌<◌, ◌≡◌, refl, ap, ◌∙◌, true, false, Option, none, some, List, [], ◌∷◌,
  String, lookup, String_discrete, if◌then◌else◌, ltb, leb, arith, length, lookup-insert_self,
  Bool-cases, inl, inr,
}
use serversmonitor.Time.{Time, time_sub, dur_le}
use serversmonitor.Auth.Limiter.{Entry, Limiter, allowed_entry, allowed, entry_or_new, fail}

abbrev pub entry_of : Limiter → String → Option Entry
entry_of l key = lookup String_discrete key l.entries

-- Failures of one key, the latest first.
unfoldable pub fail_all : Limiter → String → List Time → Limiter
fail_all l key [] = l
fail_all l key (t ∷ ts) = fail (fail_all l key ts) key t

pub fail-settings :
    (l : Limiter) (key : String) (ts : List Time)
    → ((fail_all l key ts).max_failures ≡ l.max_failures)
      × ((fail_all l key ts).lockout ≡ l.lockout)
unfolding fail_all fail
fail-settings l key [] = (refl, refl)
fail-settings l key (t ∷ ts) = fail-settings l key ts

-- What the entry of a key is after its failures.
abbrev Counted : ℕ → List Time → Option Entry → Type 0
Counted max [] o = o ≡ none
Counted max (t ∷ ts) o =
    (e : Entry) × (o ≡ some e)
    × (e.failures ≡ length (t ∷ ts))
    × (max ≤ length (t ∷ ts) → e.locked_at ≡ t)

fail_all-Counted :
    (l : Limiter) (key : String) (ts : List Time)
    → entry_of l key ≡ none
    → Counted l.max_failures ts (entry_of (fail_all l key ts) key)
unfolding fail_all fail
fail_all-Counted l key [] h = h
fail_all-Counted l key (t ∷ ts) h =
    let l' = fail_all l key ts in
    let e = entry_or_new (entry_of l' key) in
    let new : Entry = record {
      failures = e.failures + 1;
      locked_at = if leb l'.max_failures (e.failures + 1) then t else e.locked_at;
    } in
    let n = counted ts (entry_of l' key) (fail_all-Counted l key ts h) in
    (
      new,
      lookup-insert_self String_discrete key new l'.entries,
      omega (arith, n),
      λ full. ground (arith, n, full, (fail-settings l key ts).0),
    )
  where
    counted :
        (us : List Time) (o : Option Entry)
        → Counted l.max_failures us o
        → (entry_or_new o).failures ≡ length us
    counted [] o c = ap (λ p. (entry_or_new p).failures) c
    counted (u ∷ us) o c = ap (λ p. (entry_or_new p).failures) (c.1) ∙ c.2

-- Fewer failures than the limit leave the key allowed, and the asking changes nothing.
pub allowed_few :
    (l : Limiter) (key : String) (ts : List Time) (now : Time)
    → entry_of l key ≡ none
    → length ts < l.max_failures
    → allowed (fail_all l key ts) key now ≡ (fail_all l key ts, true)
unfolding allowed
allowed_few l key [] now h few =
    ap (allowed_entry (fail_all l key []) key now) (fail_all-Counted l key [] h)
allowed_few l key (t ∷ ts) now h few =
    let (e, at, count, locked) = fail_all-Counted l key (t ∷ ts) h in
    ap (allowed_entry (fail_all l key (t ∷ ts)) key now) at
    ∙ with_entry (fail_all l key (t ∷ ts)) e count (fail-settings l key (t ∷ ts)).0
  where
    with_entry :
        (l' : Limiter) (e : Entry)
        → e.failures ≡ length (t ∷ ts)
        → l'.max_failures ≡ l.max_failures
        → allowed_entry l' key now (some e) ≡ (l', true)
    with_entry l' e count same =
        rw (lt→ltb e.failures l'.max_failures (omega (arith, count, same, few))) refl

leb_of_not_ltb : (a b : ℕ) → ltb a b ≡ false → b ≤ a
leb_of_not_ltb a b e = ground arith

-- After failures at the times ts (the latest first) on a key with no entry, the key is allowed if they
-- are fewer than the limit, and otherwise exactly once the lockout has passed since the latest one.
pub allowed_after_failures :
    (l : Limiter) (key : String) (t : Time) (ts : List Time) (now : Time)
    → entry_of l key ≡ none
    → (allowed (fail_all l key (t ∷ ts)) key now).1
      ≡ (if ltb (length (t ∷ ts)) l.max_failures then true else dur_le l.lockout (time_sub now t))
unfolding allowed
allowed_after_failures l key t ts now h =
    let (e, at, count, locked) = fail_all-Counted l key (t ∷ ts) h in
    ap (λ o. (allowed_entry (fail_all l key (t ∷ ts)) key now o).1) at
    ∙ with_entry (fail_all l key (t ∷ ts)) e count locked (fail-settings l key (t ∷ ts))
  where
    with_entry :
        (l' : Limiter) (e : Entry)
        → e.failures ≡ length (t ∷ ts)
        → (l.max_failures ≤ length (t ∷ ts) → e.locked_at ≡ t)
        → (l'.max_failures ≡ l.max_failures) × (l'.lockout ≡ l.lockout)
        → (allowed_entry l' key now (some e)).1 ≡ (
            if ltb (length (t ∷ ts)) l.max_failures
            then true
            else dur_le l.lockout (time_sub now t))
    with_entry l' e count locked same = elim (Bool-cases (ltb (length (t ∷ ts)) l.max_failures)) [
      | inl few ↦ ground (arith, few, count, same)
      | inr full ↦ ground (arith, full, count, same, locked (leb_of_not_ltb _ _ full))
    ]
