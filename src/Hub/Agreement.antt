-- ===== src/Hub/Agreement.antt =====
-- The machine and the journal through a tick of internal/hub/hub.go.
use serversmonitor.Prelude.{
  ◌||◌, Option-cases, inl, inr, ℕ, ◌++◌, ◌≡◌, refl, sym, ◌∙◌, ap, subst, Bool, true, false, Option,
  List, [], ◌∷◌, String, ite, if_pos, if_neg, arith, insert, lookup, lookup-insert_self,
  lookup-insert_ne, if◌then◌else◌,
}
use serversmonitor.Time.{Time, Duration, no_time}
use serversmonitor.Float.{Float}
use serversmonitor.Store.Rows.{Host, SampleRow, Rule, AlertEvent}
use serversmonitor.Store.AlertEvents.{EventTable, key_of, insert_alert_event}
use serversmonitor.Alerts.Machine.{
  State, ok, pending, firing, Key, Key-discrete, Transition, nothing, Cell, Machine, restore,
  cell_at, state_of, observe_cell, found_or_new,
}
use serversmonitor.Alerts.Traces.{
  Observation, observe_one, is_firing, cell_at-observe_self, state_of-observe_ne,
  observe-transition,
}
use serversmonitor.Alerts.Evaluate.{
  Input, status_rule_id, metric_value, emit, event, observe_rule, status_step, rules_steps,
  fresh_row, applicable, host_step, hosts_steps, evaluate, is_offline,
}
use serversmonitor.Hub.Alerting.{is_fired, journal, Alerting, tick}

-- Whether the newest event of a key is a fired one.
unfoldable pub fires : {F : Type 0} → Key → List (AlertEvent F) → Bool
fires k [] = false
fires k (e ∷ es) = ite (Key-discrete (key_of e) k) (is_fired e.kind) (fires k es)

-- The machine is firing exactly where the newest journalled event is a fired one.
abbrev pub Agrees : {F : Type 0} → Machine → List (AlertEvent F) → Type 0
Agrees m rows = (k : Key) → is_firing (state_of m k) ≡ fires k rows

abbrev pub after_transition : Transition → Bool → Bool
after_transition nothing b = b
after_transition Transition.fired b = true
after_transition Transition.resolved b = false

pub observe_cell-is_firing :
    (s : State) (c : Cell) (b : Bool) (now : Time) (d : Duration)
    → c.state ≡ s
    → let r = observe_cell s c b now d in is_firing r.0.state ≡ after_transition r.1 (is_firing s)
unfolding observe_cell
observe_cell-is_firing ok c false now d e = ground arith
observe_cell-is_firing ok c true now d e = ground arith
observe_cell-is_firing pending c false now d e = ground arith
observe_cell-is_firing pending c true now d e = ground arith
observe_cell-is_firing firing c false now d e = ground arith
observe_cell-is_firing firing c true now d e = ground arith

pub observe-is_firing :
    (m : Machine) (o : Observation) (k : Key)
    → is_firing (state_of (observe_one m o).0 k)
      ≡ ite
          (Key-discrete o.key k)
          (after_transition (observe_one m o).1 (is_firing (state_of m k)))
          (is_firing (state_of m k))
unfolding state_of
observe-is_firing m o k = elim (Key-discrete o.key k) [
  | yes p ↦ rw (if_pos (Key-discrete o.key k) p) (
      subst
        (λ j.
          is_firing (cell_at (observe_one m o).0 j).state
          ≡ after_transition (observe_one m o).1 (is_firing (cell_at m j).state))
        p
        (rw (cell_at-observe_self m o, observe-transition m o)
          (observe_cell-is_firing (cell_at m o.key).state (cell_at m o.key) o.breached o.now
            o.duration refl)))
  | no p ↦ rw (if_neg (Key-discrete o.key k) p) (ap is_firing (state_of-observe_ne m o k p))
]

module _ (fl : Float) (stores : AlertEvent fl.F → Bool)
    (up : (e : AlertEvent fl.F) → stores e ≡ true) where
  open fl use {F}

  abbrev pub written : EventTable F → List (AlertEvent F) → EventTable F
  written t es = (journal stores t es).0

  pub written-cons :
      (t : EventTable F) (x : AlertEvent F) (xs : List (AlertEvent F))
      → written t (x ∷ xs) ≡ written (insert_alert_event t x).0 xs
  unfolding journal
  written-cons t x xs = ground (arith, up x)

  pub written-nil : (t : EventTable F) → written t [] ≡ t
  unfolding journal
  written-nil t = refl

  pub written-append :
      (t : EventTable F) (xs ys : List (AlertEvent F))
      → written t (xs ++ ys) ≡ written (written t xs) ys
  written-append t [] ys = ap (λ u. written u ys) (sym (written-nil t))
  written-append t (x ∷ xs) ys =
      written-cons t x (xs ++ ys)
      ∙ written-append (insert_alert_event t x).0 xs ys
      ∙ ap (λ u. written u ys) (sym (written-cons t x xs))

  pub fires-emit :
      (t : EventTable F) (rule_id host_id : ℕ) (metric : String) (tr : Transition) (v : F)
      (now : Time) (k : Key)
      → fires k (written t (emit fl rule_id host_id metric tr v now)).rows
        ≡ ite
            (Key-discrete (record { rule_id = rule_id; host_id = host_id }) k)
            (after_transition tr (fires k t.rows))
            (fires k t.rows)
  unfolding fires emit event journal insert_alert_event
  fires-emit t r h metric nothing v now k = ground arith
  fires-emit t r h metric Transition.fired v now k =
      ground (arith, up (event fl r h metric Transition.fired v now))
  fires-emit t r h metric Transition.resolved v now k =
      ground (arith, up (event fl r h metric Transition.resolved v now))

  -- A step that leaves the machine and the journal in agreement.
  abbrev pub Keeps : EventTable F → Machine × List (AlertEvent F) → Type 0
  Keeps t r = Agrees r.0 (written t r.1).rows

  pub Keeps-if :
      (t : EventTable F) (b : Bool) (x y : Machine × List (AlertEvent F))
      → Keeps t x
      → Keeps t y
      → Keeps t (if b then x else y)
  Keeps-if t true x y hx hy = hx
  Keeps-if t false x y hx hy = hy

  pub Keeps-nil : (t : EventTable F) (m : Machine) → Agrees m t.rows → Keeps t (m, [])
  unfolding journal
  Keeps-nil t m same = same

  pub Keeps-append :
      (t : EventTable F) (xs : List (AlertEvent F)) (m : Machine) (ys : List (AlertEvent F))
      → Keeps (written t xs) (m, ys)
      → Keeps t (m, xs ++ ys)
  Keeps-append t xs m ys h k =
      h k ∙ ap (λ u. fires k (EventTable.rows u)) (sym (written-append t xs ys))

  pub observe_rule-Keeps :
      (m : Machine) (t : EventTable F)
      → Agrees m t.rows
      → (rule_id host_id : ℕ) (metric : String) (b : Bool) (v : F) (now : Time) (d : Duration)
      → Keeps t (observe_rule fl m rule_id host_id metric b v now d)
  unfolding observe_rule
  observe_rule-Keeps m t same r h metric b v now d k =
      let key : Key = record { rule_id = r; host_id = h } in
      let o : Observation = record { key = key; breached = b; now = now; duration = d } in
      observe-is_firing m o k
      ∙ ap (λ x. ite (Key-discrete key k) (after_transition (observe_one m o).1 x) x) (same k)
      ∙ sym (fires-emit t r h metric (observe_one m o).1 v now k)

  pub status_step-Keeps :
      (m : Machine) (t : EventTable F) (inp : Input F) (h : Host)
      → Agrees m t.rows
      → Keeps t (status_step fl m inp h)
  unfolding status_step
  status_step-Keeps m t inp h same =
      Keeps-if t _ _ _
        (observe_rule-Keeps m t same status_rule_id h.id "status" (is_offline h.status) _ inp.now
          no_time)
        (Keeps-nil t m same)

  pub rules_steps-Keeps :
      (rs : List (Rule F)) (m : Machine) (t : EventTable F) (now : Time) (h : Host)
      (row : SampleRow F)
      → Agrees m t.rows
      → Keeps t (rules_steps fl m now h row rs)
  unfolding rules_steps
  rules_steps-Keeps [] m t now h row same = Keeps-nil t m same
  rules_steps-Keeps (r ∷ rs) m t now h row same =
      elim (Option-cases (metric_value fl r.metric row h)) [
        | inl e ↦ rw (e, rules_steps) (rules_steps-Keeps rs m t now h row same)
        | inr (v, e) ↦
            rw (e, rules_steps)
              (let one =
                  observe_rule fl m r.id h.id r.metric (fl.gt v r.threshold) v now r.duration in
                Keeps-append t one.1 _ _ (
                  rules_steps-Keeps rs one.0 (written t one.1) now h row
                    (observe_rule-Keeps m t same r.id h.id r.metric _ v now r.duration)))
      ]

  module _ (visit : List (Rule F) → List (Rule F)) where
    host_step-Keeps :
        (m : Machine) (t : EventTable F) (inp : Input F) (h : Host)
        → Agrees m t.rows
        → Keeps t (host_step fl visit m inp h)
    unfolding host_step
    host_step-Keeps m t inp h same =
        let s = status_step fl m inp h in
        let kept = status_step-Keeps m t inp h same in
        elim (Option-cases (fresh_row fl inp h.id)) [
          | inl e ↦ rw (e, host_step) (Keeps-if t h.muted _ _ kept kept)
          | inr (row, e) ↦
              rw (e, host_step)
                (Keeps-if t h.muted _ _ kept (
                  Keeps-append t s.1 _ _ (
                    rules_steps-Keeps (applicable fl visit inp.rules h.id) s.0 (written t s.1)
                      inp.now h row kept)))
        ]

    hosts_steps-Keeps :
        (hs : List Host) (m : Machine) (t : EventTable F) (inp : Input F)
        → Agrees m t.rows
        → Keeps t (hosts_steps fl visit m inp hs)
    unfolding hosts_steps
    hosts_steps-Keeps [] m t inp same = Keeps-nil t m same
    hosts_steps-Keeps (h ∷ hs) m t inp same =
        let one = host_step fl visit m inp h in
        Keeps-append t one.1 _ _
          (hosts_steps-Keeps hs one.0 (written t one.1) inp (host_step-Keeps m t inp h same))

    -- A tick of the hub keeps the machine and the journal in agreement.
    pub tick-Agrees :
        (a : Alerting F) (inp : Input F)
        → Agrees a.machine a.table.rows
        → let a' = (tick fl visit stores a inp).0 in Agrees a'.machine a'.table.rows
    unfolding tick evaluate
    tick-Agrees a inp same = hosts_steps-Keeps inp.hosts a.machine a.table inp same

abbrev pub marked : Machine → Key → Machine
marked m j = record m {
  cells = insert Key-discrete j (record { state = firing; since = 0 }) m.cells;
}

pub marked-is_firing :
    (m : Machine) (j k : Key)
    → is_firing (state_of (marked m j) k) ≡ ite (Key-discrete j k) true (is_firing (state_of m k))
unfolding state_of cell_at
marked-is_firing m j k = elim (Key-discrete j k) [
  | yes p ↦ rw (if_pos (Key-discrete j k) p) (
      ap firing_at (
        ap (λ i. lookup Key-discrete i (marked m j).cells) (sym p)
        ∙ lookup-insert_self Key-discrete j _ m.cells))
  | no p ↦
      rw (if_neg (Key-discrete j k) p)
        (ap firing_at (lookup-insert_ne Key-discrete j k _ m.cells p))
]
  where
    firing_at : Option Cell → Bool
    firing_at o = is_firing (found_or_new o).state

abbrev pub in_keys : Key → List Key → Bool
in_keys k [] = false
in_keys k (j ∷ js) = ite (Key-discrete j k) true (in_keys k js)

pub restore-is_firing :
    (ks : List Key) (m : Machine) (k : Key)
    → is_firing (state_of (restore ks m) k) ≡ (in_keys k ks || is_firing (state_of m k))
unfolding restore
restore-is_firing [] m k = refl
restore-is_firing (j ∷ ks) m k =
    ground (arith, restore-is_firing ks (marked m j) k, marked-is_firing m j k)
