-- ===== src/Ingest/Accepting.antt =====
-- internal/hub/ingest/handler.go: which samples of a connection are stored.
use serversmonitor.Prelude.{
  ℕ, suc, ◌+◌, ◌/◌, ◌≤◌, ◌<◌, ◌≡◌, refl, sym, ◌∙◌, Bool, true, false, ◌&&◌, not, Option, none, some,
  List, [], ◌∷◌, ◌++◌, map, if◌then◌else◌, leb, ◌==◌, arith, Bool-cases, inl, inr,
}
use mathlib.Core.List.{append_assoc, append-nil}
use serversmonitor.Time.{Time, second}
use serversmonitor.Store.Rows.{SampleRow}
use serversmonitor.Store.Stamps.{stamp_lt}
use serversmonitor.Store.Samples.{
  SampleTables, Inserted, insert_sample, stored, last_sample_at, has_sample, sample_row, is_late,
  insert_containers, later_stamp,
}
use serversmonitor.Proto.Messages.{Sample}
use serversmonitor.Ingest.Serve.{
  Reading, Turn, inserted_at, receive_sample, store_sample, too_soon, mark_online,
}

module _ {F : Type 0} where
  -- A connection's samples, each with the instants of its turn, one after the other.
  unfoldable pub receive_all : ℕ → Reading F → ℕ → List (Turn × Sample F) → Reading F
  receive_all gap rd id [] = rd
  receive_all gap rd id ((turn, sm) ∷ rest) =
      receive_all gap (receive_sample gap rd id turn sm) id rest

  is_stored : Inserted F → Bool
  is_stored (stored t) = true
  is_stored _ = false

  -- Whether a sample is stored.
  unfoldable pub accepts : ℕ → Reading F → ℕ → Turn → Sample F → Bool
  unfolding is_stored
  accepts gap rd id turn sm =
      not (too_soon gap rd.last_accepted turn.arrived)
      && is_stored (insert_sample rd.hub.tables id sm)

  -- The instants at which the samples that are stored arrive.
  unfoldable pub accepted : ℕ → Reading F → ℕ → List (Turn × Sample F) → List Time
  accepted gap rd id [] = []
  accepted gap rd id ((turn, sm) ∷ rest) =
      let later = accepted gap (receive_sample gap rd id turn sm) id rest in
      if accepts gap rd id turn sm then turn.arrived ∷ later else later

-- Each instant is at least `gap` after the one before it.
abbrev pub Spaced : ℕ → Option Time → List Time → Type 0
Spaced gap last [] = Unit
Spaced gap none (t ∷ ts) = Spaced gap (some t) ts
Spaced gap (some last) (t ∷ ts) = (last + gap ≤ t) × Spaced gap (some t) ts

Spaced-earlier :
    (gap : ℕ) (first later : Time) (ts : List Time)
    → first ≤ later
    → Spaced gap (some later) ts
    → Spaced gap (some first) ts
Spaced-earlier gap first later [] h s = tt
Spaced-earlier gap first later (t ∷ ts) h s = (omega (arith, h, s.0), s.1)

Spaced-none :
    (gap : ℕ) (last : Option Time) (turn : Turn) (ts : List Time)
    → 0 < gap
    → too_soon gap last turn.arrived ≡ false
    → Spaced gap (some (inserted_at turn)) ts
    → Spaced gap last (turn.arrived ∷ ts)
Spaced-none gap none turn ts g h s =
    Spaced-earlier gap turn.arrived (inserted_at turn) ts (omega arith) s
Spaced-none gap (some last) turn ts g h s =
    (ground (arith, h, g), Spaced-earlier gap turn.arrived (inserted_at turn) ts (omega arith) s)

div_lt : (t u : ℕ) → suc (t / second) ≤ u / second → t < u
div_lt t u h = omega (arith, h)

-- Whether the last stored instant, if any, is of a second before s.
abbrev BeforeSecond : Option Time → ℕ → Type 0
BeforeSecond none s = Unit
BeforeSecond (some t) s = suc (t / second) ≤ s

later_stamp-before :
    (t : Time) (o : Option Time) (s : ℕ)
    → suc (t / second) ≤ s
    → BeforeSecond o s
    → BeforeSecond (later_stamp t o) s
later_stamp-before t none s h g = h
later_stamp-before t (some u) s h g = elim (Bool-cases (stamp_lt t u)) [
  | inl e ↦ rw e g
  | inr e ↦ rw e h
]

is_late-before : (o : Option Time) (at : Time) → BeforeSecond o (at / second) → is_late o at ≡ false
is_late-before none at h = refl
is_late-before (some t) at h = ground (arith, h, div_lt t at h)

module _ {F : Type 0} where
  receive_sample-last :
      (gap : ℕ) (rd : Reading F) (id : ℕ) (turn : Turn) (sm : Sample F)
      → (receive_sample gap rd id turn sm).last_accepted
        ≡ (if accepts gap rd id turn sm then some (inserted_at turn) else rd.last_accepted)
  unfolding receive_sample store_sample accepts
  receive_sample-last gap rd id turn sm = ground arith

  accepts-late :
      (gap : ℕ) (rd : Reading F) (id : ℕ) (turn : Turn) (sm : Sample F)
      → accepts gap rd id turn sm ≡ true
      → too_soon gap rd.last_accepted turn.arrived ≡ false
  unfolding accepts
  accepts-late gap rd id turn sm h = ground (arith, h)

  -- On one connection, the samples that are stored arrive at least the gap apart, and the first of
  -- them at least the gap after the last one stored before: whatever comes sooner is dropped.
  pub accepted-Spaced :
      (gap : ℕ) (rd : Reading F) (id : ℕ) (arrivals : List (Turn × Sample F))
      → 0 < gap
      → Spaced gap rd.last_accepted (accepted gap rd id arrivals)
  unfolding accepted receive_sample
  accepted-Spaced gap rd id [] g = tt
  accepted-Spaced gap rd id ((turn, sm) ∷ rest) g =
      let later = accepted-Spaced gap (receive_sample gap rd id turn sm) id rest g in
      let last = receive_sample-last gap rd id turn sm in
      elim (Bool-cases (accepts gap rd id turn sm)) [
        | inl e ↦ rw e (
            Spaced-none gap rd.last_accepted turn _ g (accepts-late gap rd id turn sm e)
              (rw (last, e) at later))
        | inr e ↦ rw e (rw (last, e) at later)
      ]

  -- One more than the greatest second of a host's stored samples; 0 when it has none.
  unfoldable pub newest_second : List (SampleRow F) → ℕ → ℕ
  newest_second [] id = 0
  newest_second (r ∷ rows) id =
      let n = newest_second rows id in
      if r.host_id == id
      then (if leb (suc (r.at / second)) n then n else suc (r.at / second))
      else n

  newest_second-cons :
      (r : SampleRow F) (rows : List (SampleRow F)) (id s : ℕ)
      → newest_second (r ∷ rows) id ≤ s
      → (newest_second rows id ≤ s) × ((r.host_id == id) ≡ true → suc (r.at / second) ≤ s)
  unfolding newest_second
  newest_second-cons r rows id s h = (ground (arith, h), λ e. ground (arith, h, e))

  last_sample_at-before :
      (rows : List (SampleRow F)) (id s : ℕ)
      → newest_second rows id ≤ s
      → BeforeSecond (last_sample_at rows id) s
  unfolding last_sample_at newest_second
  last_sample_at-before [] id s h = tt
  last_sample_at-before (r ∷ rows) id s h =
      let parts = newest_second-cons r rows id s h in
      elim (Bool-cases (r.host_id == id)) [
        | inl e ↦
            rw e (later_stamp-before r.at _ s (parts.1 e) (last_sample_at-before rows id s parts.0))
        | inr e ↦ rw e (last_sample_at-before rows id s parts.0)
      ]

  has_sample-newest :
      (rows : List (SampleRow F)) (id : ℕ) (at : Time)
      → newest_second rows id ≤ at / second
      → has_sample rows id at ≡ false
  unfolding has_sample newest_second
  has_sample-newest [] id at h = refl
  has_sample-newest (r ∷ rows) id at h = ground (arith, h, has_sample-newest rows id at)

  newest_second-append :
      (rows : List (SampleRow F)) (id : ℕ) (r : SampleRow F) (s : ℕ)
      → newest_second rows id ≤ s
      → suc (r.at / second) ≤ s
      → newest_second (rows ++ r ∷ []) id ≤ s
  unfolding newest_second
  newest_second-append [] id r s h g = ground (arith, h, g)
  newest_second-append (q ∷ rows) id r s h g =
      ground (arith, h, g, newest_second-append rows id r s)

  insert_sample-newer :
      (t : SampleTables F) (id : ℕ) (sm : Sample F)
      → newest_second t.samples id ≤ sm.at / second
      → (t' : SampleTables F) × ((insert_sample t id sm ≡ stored t')
          × (t'.samples ≡ t.samples ++ sample_row id sm ∷ []))
  unfolding insert_sample insert_containers
  insert_sample-newer t id sm h =
      let t' : SampleTables F = record t { samples = t.samples ++ sample_row id sm ∷ [] } in
      let late =
        is_late-before (last_sample_at t.samples id) sm.at
          (last_sample_at-before t.samples id (sm.at / second) h) in
      let absent = has_sample-newest t.samples id sm.at h in
      elim (Bool-cases sm.docker_available) [
        | inl e ↦ (insert_containers id sm t', (rw (insert_sample, late, absent, e) refl, refl))
        | inr e ↦ (t', (rw (insert_sample, late, absent, e) refl, refl))
      ]

  receive_sample-newer :
      (gap : ℕ) (rd : Reading F) (id : ℕ) (turn : Turn) (sm : Sample F)
      → too_soon gap rd.last_accepted turn.arrived ≡ false
      → newest_second rd.hub.tables.samples id ≤ sm.at / second
      → ((receive_sample gap rd id turn sm).last_accepted ≡ some (inserted_at turn))
        × ((receive_sample gap rd id turn sm).hub.tables.samples
            ≡ rd.hub.tables.samples ++ sample_row id sm ∷ [])
  unfolding mark_online receive_sample sample_row store_sample
  receive_sample-newer gap rd id turn sm soon new =
      let fits = insert_sample-newer rd.hub.tables id sm new in
      rw (receive_sample, store_sample, soon, fits.1.0) (refl, fits.1.1)

  -- Samples each of which arrives at least the gap after the one before it was stored and is of a later
  -- second; the first arrives at least the gap after `last` and is of the second s or a later one.
  abbrev pub Steady : ℕ → Option Time → ℕ → List (Turn × Sample F) → Type 0
  Steady gap last s [] = Unit
  Steady gap last s ((turn, sm) ∷ rest) =
      (too_soon gap last turn.arrived ≡ false)
      × (s ≤ sm.at / second)
      × Steady gap (some (inserted_at turn)) (suc (sm.at / second)) rest

  -- Samples that arrive at least the gap after the one before them was in the table, each of a later
  -- second than the one before and than every sample stored for the host, are all stored, in order,
  -- behind those that were.
  pub receive_all-stores :
      (gap : ℕ) (rd : Reading F) (id : ℕ) (arrivals : List (Turn × Sample F)) (s : ℕ)
      → newest_second rd.hub.tables.samples id ≤ s
      → Steady gap rd.last_accepted s arrivals
      → (receive_all gap rd id arrivals).hub.tables.samples
        ≡ rd.hub.tables.samples ++ map (λ a. sample_row id a.1) arrivals
  unfolding receive_all sample_row
  receive_all-stores gap rd id [] s old steady = sym (append-nil rd.hub.tables.samples)
  receive_all-stores gap rd id ((turn, sm) ∷ rest) s old steady =
      let rd' = receive_sample gap rd id turn sm in
      let one = receive_sample-newer gap rd id turn sm steady.0 (omega (arith, old, steady.1)) in
      let old' =
        newest_second-append rd.hub.tables.samples id (sample_row id sm) (suc (sm.at / second))
          (omega (arith, old, steady.1)) (omega arith) in
      receive_all-stores gap rd' id rest (suc (sm.at / second)) (rw one.1 old') (rw one.0 steady.2)
      ∙ rw one.1 (
          append_assoc rd.hub.tables.samples (sample_row id sm ∷ [])
            (map (λ a. sample_row id a.1) rest))
