-- ===== src/Alerts/Sustained.antt =====
-- The breaches behind a fired alert of internal/hub/alerts/machine.go.
use serversmonitor.Prelude.{
  ◌≡◌, refl, sym, ap, ◌⊎◌, inl, inr, ◌≢◌, true, List, [], ◌∷◌, lookup-insert_self, lookup-insert_ne,
  lookup, insert, ◌∙◌, arith, if_pos, if_neg, subst,
}
use serversmonitor.Prelude.Int.{◌≤ℤ◌}
use serversmonitor.Time.{Time, time_sub}
use serversmonitor.Alerts.Machine.{
  ok, pending, firing, Key, Key-discrete, fired, Machine, new_machine, restore, cell_at, state_of,
  observe_cell, found_or_new,
}
use serversmonitor.Alerts.Traces.{
  Observation, observe_one, cell_at-observe_self, cell_at-observe_ne, state_of-observe_ne,
  observe-transition, observe_cell_pending, observe_cell_fired, after_all, BreachedSince,
  PendingSince,
}

BreachedSince-self :
    (o : Observation) (os : List Observation) (t : Time)
    → o.breached ≡ true
    → (o.now ≡ t) ⊎ BreachedSince o.key t os
    → BreachedSince o.key t (o ∷ os)
BreachedSince-self o os t b h = rw (if_pos (Key-discrete o.key o.key) refl) (b, h)

module _ (m : Machine) (os : List Observation) (ps : PendingSince m os) (o : Observation) where
  pending_self :
      state_of (observe_one m o).0 o.key ≡ pending
      → BreachedSince o.key (cell_at (observe_one m o).0 o.key).since (o ∷ os)
  unfolding state_of
  pending_self h =
      let c = cell_at m o.key in
      let p =
        observe_cell_pending c.state c o.breached o.now o.duration refl
          (sym (ap (λ r. r.state) (cell_at-observe_self m o)) ∙ h) in
      BreachedSince-self o os _ (p.0) (elim (p.1) [
        | inl e ↦ inl (e ∙ sym since_self)
        | inr (s, e) ↦ inr (subst (λ t. BreachedSince o.key t os) (e ∙ sym since_self) (ps o.key s))
      ])
    where
      since_self :
          (cell_at (observe_one m o).0 o.key).since
          ≡ (observe_cell
              (cell_at m o.key).state
              (cell_at m o.key)
              o.breached
              o.now
              o.duration).0.since
      since_self = ap (λ r. r.since) (cell_at-observe_self m o)

  observe-PendingSince : PendingSince (observe_one m o).0 (o ∷ os)
  observe-PendingSince k h = elim (Key-discrete o.key k) [
    | yes p ↦
        subst
          (λ j.
            state_of (observe_one m o).0 j ≡ pending
            → BreachedSince j (cell_at (observe_one m o).0 j).since (o ∷ os))
          p pending_self h
    | no p ↦ rw (if_neg (Key-discrete o.key k) p) (
        subst (λ t. BreachedSince k t os) (ap (λ c. c.since) (sym (cell_at-observe_ne m o k p)))
          (ps k (rw (state_of-observe_ne m o k p) at h)))
  ]

  fired_since :
      (observe_one m o).1 ≡ fired
      → (t0 : Time) × BreachedSince o.key t0 (o ∷ os) × (o.duration ≤ℤ time_sub o.now t0)
  unfolding state_of
  fired_since h =
      let c = cell_at m o.key in
      let f =
        observe_cell_fired c.state c o.breached o.now o.duration refl
          (rw (observe-transition m o) at h) in
      elim (f.1) [
        | inl e ↦ (o.now, BreachedSince-self o os o.now (f.0) (inl refl), e)
        | inr (s, e) ↦ (c.since, BreachedSince-self o os c.since (f.0) (inr (ps o.key s)), e)
      ]

after_all-PendingSince :
    (m : Machine) (os : List Observation)
    → ((k : Key) → state_of m k ≢ pending)
    → PendingSince (after_all m os) os
unfolding after_all
after_all-PendingSince m [] h = λ k e. absurd (h k e)
after_all-PendingSince m (o ∷ os) h =
    observe-PendingSince (after_all m os) os (after_all-PendingSince m os h) o

-- The cells of Restore are firing.
pub restore-state :
    (ks : List Key) (m : Machine) (k : Key)
    → (state_of (restore ks m) k ≡ firing) ⊎ (state_of (restore ks m) k ≡ state_of m k)
unfolding restore state_of cell_at
restore-state [] m k = inr refl
restore-state (j ∷ ks) m k =
    let m' = record m {
      cells = insert Key-discrete j (record { state = firing; since = 0 }) m.cells;
    } in
    elim (restore-state ks m' k) [
      | inl e ↦ inl e
      | inr e ↦ elim (Key-discrete j k) [
        | yes p ↦ inl (
            e
            ∙ ap (λ c. (found_or_new c).state)
                (ap (λ i. lookup Key-discrete i m'.cells) (sym p)
                  ∙ lookup-insert_self Key-discrete j _ m.cells))
        | no p ↦
            inr
              (e ∙ ap (λ c. (found_or_new c).state) (lookup-insert_ne Key-discrete j k _ m.cells p))
      ]
    ]

pub new_machine-state : (k : Key) → state_of new_machine k ≡ ok
unfolding new_machine state_of cell_at lookup
new_machine-state k = refl

restored_not_pending : (ks : List Key) (k : Key) → state_of (restore ks new_machine) k ≢ pending
restored_not_pending ks k e = ground (arith, restore-state ks new_machine k, new_machine-state k)

-- In a machine that started from the restored keys and saw the observations os (the latest first),
-- an observation that reports fired was preceded by nothing but breaches of its key since some
-- instant t0 at which one was observed, and at least the rule's duration has passed since t0.
pub fired_sustained :
    (ks : List Key) (os : List Observation) (o : Observation)
    → (observe_one (after_all (restore ks new_machine) os) o).1 ≡ fired
    → (t0 : Time) × BreachedSince o.key t0 (o ∷ os) × (o.duration ≤ℤ time_sub o.now t0)
fired_sustained ks os o h =
    fired_since (after_all (restore ks new_machine) os) os
      (after_all-PendingSince (restore ks new_machine) os (restored_not_pending ks)) o h
