-- ===== src/Hub/Alerting.antt =====
-- internal/hub/hub.go: how New rebuilds the machine from the journal of alert events, and how
-- evaluate journals what the machine reports. `stores` says whether the database accepts an event:
-- one that it refuses is logged and left out.
use serversmonitor.Prelude.{Bool, true, false, List, [], ◌∷◌, if◌then◌else◌}
use serversmonitor.Float.{Float}
use serversmonitor.Store.Rows.{Rule, Kind, fired, AlertEvent}
use serversmonitor.Store.AlertEvents.{EventTable, insert_alert_event, last_event_per_key}
use serversmonitor.Alerts.Machine.{Machine, Key, new_machine, restore}
use serversmonitor.Alerts.Evaluate.{Input, evaluate}

abbrev pub is_fired : Kind → Bool
is_fired fired = true
is_fired _ = false

module _ {F : Type 0} where
  -- The loop of New over the last events.
  unfoldable pub firing_keys : List (Key × AlertEvent F) → List Key
  firing_keys [] = []
  firing_keys ((k, e) ∷ rest) = if is_fired e.kind then k ∷ firing_keys rest else firing_keys rest

  -- The machine that New starts with.
  unfoldable pub restored_machine : EventTable F → Machine
  unfolding firing_keys
  restored_machine t = restore (firing_keys (last_event_per_key t.rows)) new_machine

  -- The loop of evaluate that stores the events; the second component is `saved`.
  unfoldable pub journal :
      (AlertEvent F → Bool)
      → EventTable F
      → List (AlertEvent F)
      → EventTable F × List (AlertEvent F)
  journal stores t [] = (t, [])
  journal stores t (e ∷ es) =
      let (t', stored) = insert_alert_event t e in
      let (kept, saved) = journal stores t' es in
      let skipped = journal stores t es in if stores e then (kept, stored ∷ saved) else skipped

-- The state of the alerting between two ticks.
pub record Alerting (F : Type 0) : Type 0 where
  pub machine : Machine
  pub table : EventTable F

module _ (fl : Float) (visit : List (Rule fl.F) → List (Rule fl.F)) where
  open fl use {F}

  -- evaluate, up to the notification of the saved events.
  unfoldable pub tick :
      (AlertEvent F → Bool) → Alerting F → Input F → Alerting F × List (AlertEvent F)
  tick stores a inp =
      let (m, events) = evaluate fl visit a.machine inp in
      let (t, saved) = journal stores a.table events in (record { machine = m; table = t }, saved)
