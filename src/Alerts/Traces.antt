-- ===== src/Alerts/Traces.antt =====
-- What a key reports over a sequence of observations of internal/hub/alerts/machine.go, whatever the
-- observations of other keys between them.
use serversmonitor.Prelude.{
  ◌≡◌, refl, ap, ◌⊎◌, ◌≢◌, Bool, true, false, List, [], ◌∷◌, lookup-insert_self, lookup-insert_ne,
  lookup-delete_self, lookup-delete_ne, ite, arith, if_pos, if_neg, subst,
}
use serversmonitor.Prelude.Int.{◌≤ℤ◌}
use serversmonitor.Time.{Time, Duration, time_sub}
use serversmonitor.Alerts.Machine.{
  State, ok, pending, firing, Key, Key-discrete, Transition, nothing, fired, resolved, Cell,
  Machine, found_or_new, cell_at, state_of, forget, observe_cell, observe,
}

-- One call of Observe.
pub record Observation : Type 0 where
  pub key : Key
  pub breached : Bool
  pub now : Time
  pub duration : Duration

abbrev pub observe_one : Machine → Observation → Machine × Transition
observe_one m o = observe m o.key o.breached o.now o.duration

pub cell_at-observe_self :
    (m : Machine) (o : Observation)
    → cell_at (observe_one m o).0 o.key
      ≡ (observe_cell (cell_at m o.key).state (cell_at m o.key) o.breached o.now o.duration).0
unfolding observe cell_at
cell_at-observe_self m o = ap found_or_new (lookup-insert_self Key-discrete o.key _ m.cells)

pub cell_at-observe_ne :
    (m : Machine) (o : Observation) (j : Key)
    → o.key ≢ j
    → cell_at (observe_one m o).0 j ≡ cell_at m j
unfolding observe cell_at
cell_at-observe_ne m o j h = ap found_or_new (lookup-insert_ne Key-discrete o.key j _ m.cells h)

pub state_of-observe_ne :
    (m : Machine) (o : Observation) (j : Key)
    → o.key ≢ j
    → state_of (observe_one m o).0 j ≡ state_of m j
unfolding state_of
state_of-observe_ne m o j h = ap (λ c. c.state) (cell_at-observe_ne m o j h)

pub observe-transition :
    (m : Machine) (o : Observation)
    → (observe_one m o).1
      ≡ (observe_cell (cell_at m o.key).state (cell_at m o.key) o.breached o.now o.duration).1
unfolding observe
observe-transition m o = refl

-- Forget starts the key over and leaves every other key alone.
pub forget_lem :
    (m : Machine) (k j : Key) → state_of (forget m k) j ≡ ite (Key-discrete k j) ok (state_of m j)
unfolding forget state_of
forget_lem m k j = elim (Key-discrete k j) [
  | yes p ↦ ground (arith, lookup-delete_self Key-discrete k m.cells)
  | no p ↦ ground (arith, lookup-delete_ne Key-discrete k j m.cells p)
]

-- What key k reports over the observations, `nothing` included.
unfoldable pub reports : Key → Machine → List Observation → List Transition
reports k m [] = []
reports k m (o ∷ os) =
    let rest = reports k (observe_one m o).0 os in
    ite (Key-discrete o.key k) ((observe_one m o).1 ∷ rest) rest

abbrev pub is_firing : State → Bool
is_firing firing = true
is_firing _ = false

-- A fired is reported only while not firing, a resolved only while firing.
abbrev pub Alternates : Bool → List Transition → Type 0
Alternates b [] = Unit
Alternates b (nothing ∷ ts) = Alternates b ts
Alternates false (fired ∷ ts) = Alternates true ts
Alternates true (fired ∷ ts) = ⊥
Alternates false (resolved ∷ ts) = ⊥
Alternates true (resolved ∷ ts) = Alternates false ts

abbrev Continues : State → Transition → State → Type 0
Continues s t s' =
    (ts : List Transition) → Alternates (is_firing s') ts → Alternates (is_firing s) (t ∷ ts)

observe_cell-Continues :
    (s : State) (c : Cell) (b : Bool) (now : Time) (d : Duration)
    → c.state ≡ s
    → let r = observe_cell s c b now d in Continues s r.1 r.0.state
unfolding observe_cell
observe_cell-Continues ok c false now d e ts h = ground arith
observe_cell-Continues ok c true now d e ts h = ground arith
observe_cell-Continues pending c false now d e ts h = ground arith
observe_cell-Continues pending c true now d e ts h = ground arith
observe_cell-Continues firing c false now d e ts h = ground arith
observe_cell-Continues firing c true now d e ts h = ground arith

observe-Continues :
    (m : Machine) (o : Observation)
    → Continues (state_of m o.key) (observe_one m o).1 (state_of (observe_one m o).0 o.key)
unfolding state_of
observe-Continues m o ts h = rw (observe-transition m o) (
    observe_cell-Continues (cell_at m o.key).state (cell_at m o.key) o.breached o.now o.duration
      refl ts (rw (← cell_at-observe_self m o) h))

observe-Alternates :
    (m : Machine) (o : Observation) (k : Key)
    → o.key ≡ k
    → (ts : List Transition) → Alternates (is_firing (state_of (observe_one m o).0 k)) ts
    → Alternates (is_firing (state_of m k)) ((observe_one m o).1 ∷ ts)
observe-Alternates m o k p ts =
    subst
      (λ j.
        Alternates (is_firing (state_of (observe_one m o).0 j)) ts
        → Alternates (is_firing (state_of m j)) ((observe_one m o).1 ∷ ts))
      p (observe-Continues m o ts)

-- Between two fired reports of a key lies a resolved one and the other way round; the first is a
-- fired one exactly if the key was not firing before. Observations of other keys do not matter.
pub reports-Alternates :
    (k : Key) (m : Machine) (os : List Observation)
    → Alternates (is_firing (state_of m k)) (reports k m os)
unfolding reports
reports-Alternates k m [] = tt
reports-Alternates k m (o ∷ os) = elim (Key-discrete o.key k) [
  | yes p ↦
      rw (if_pos (Key-discrete o.key k) p)
        (observe-Alternates m o k p _ (reports-Alternates k (observe_one m o).0 os))
  | no p ↦
      rw (if_neg (Key-discrete o.key k) p)
        (rw (state_of-observe_ne m o k p) at (reports-Alternates k (observe_one m o).0 os))
]

-- The machine after a history, the latest observation first.
unfoldable pub after_all : Machine → List Observation → Machine
after_all m [] = m
after_all m (o ∷ os) = (observe_one (after_all m os) o).0

-- From the observation at t0 up to the latest one, every observation of k was a breach.
abbrev pub BreachedSince : Key → Time → List Observation → Type 0
BreachedSince k t0 [] = ⊥
BreachedSince k t0 (o ∷ os) =
    ite (Key-discrete o.key k) ((o.breached ≡ true) × ((o.now ≡ t0) ⊎ BreachedSince k t0 os))
      (BreachedSince k t0 os)

-- A pending cell dates from a breach after which only breaches followed.
abbrev pub PendingSince : Machine → List Observation → Type 0
PendingSince m os = (k : Key) → state_of m k ≡ pending → BreachedSince k (cell_at m k).since os

pub observe_cell_pending :
    (s : State) (c : Cell) (b : Bool) (now : Time) (d : Duration)
    → c.state ≡ s
    → (observe_cell s c b now d).0.state ≡ pending
    → (b ≡ true)
      × ((now ≡ (observe_cell s c b now d).0.since)
          ⊎ ((s ≡ pending) × (c.since ≡ (observe_cell s c b now d).0.since)))
unfolding observe_cell
observe_cell_pending ok c false now d e h = ground arith
observe_cell_pending ok c true now d e h = ground arith
observe_cell_pending pending c false now d e h = ground arith
observe_cell_pending pending c true now d e h = ground arith
observe_cell_pending firing c false now d e h = ground arith
observe_cell_pending firing c true now d e h = ground arith

pub observe_cell_fired :
    (s : State) (c : Cell) (b : Bool) (now : Time) (d : Duration)
    → c.state ≡ s
    → (observe_cell s c b now d).1 ≡ fired
    → (b ≡ true) × ((d ≤ℤ time_sub now now) ⊎ ((s ≡ pending) × (d ≤ℤ time_sub now c.since)))
unfolding observe_cell
observe_cell_fired ok c false now d e h = ground arith
observe_cell_fired ok c true now d e h = ground arith
observe_cell_fired pending c false now d e h = ground arith
observe_cell_fired pending c true now d e h = ground arith
observe_cell_fired firing c false now d e h = ground arith
observe_cell_fired firing c true now d e h = ground arith
