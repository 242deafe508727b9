-- ===== src/Store/AlertEvents.antt =====
-- The alert_events table of internal/hub/store/alerts.go. Rows are kept newest first: ids grow with
-- each insert, so the row of the greatest id of a group is the first one found.
use serversmonitor.Prelude.{ℕ, suc, List, [], ◌∷◌, insert}
use serversmonitor.Store.Rows.{AlertEvent}
use serversmonitor.Alerts.Machine.{Key, Key-discrete}

pub record EventTable (F : Type 0) : Type 0 where
  pub rows : List (AlertEvent F)
  pub next_id : ℕ

module _ {F : Type 0} where
  abbrev pub key_of : AlertEvent F → Key
  key_of e = record { rule_id = e.rule_id; host_id = e.host_id }

  -- InsertAlertEvent: the stored event carries its new id.
  unfoldable pub insert_alert_event : EventTable F → AlertEvent F → EventTable F × AlertEvent F
  insert_alert_event t e =
      let stored = record e { id = t.next_id } in
      (record t { rows = stored ∷ t.rows; next_id = suc t.next_id }, stored)

  -- LastEventPerKey
  unfoldable pub last_event_per_key : List (AlertEvent F) → List (Key × AlertEvent F)
  last_event_per_key [] = []
  last_event_per_key (e ∷ es) = insert Key-discrete (key_of e) e (last_event_per_key es)
