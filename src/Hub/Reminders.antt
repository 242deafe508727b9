-- ===== src/Hub/Reminders.antt =====
-- internal/hub/reminders.go and the replay of internal/hub/notify.go: what repeats a fired alert, what
-- sends the deliveries that waited for the end of quiet hours, and what a restart sends again. The
-- statements of the store succeed.
use serversmonitor.Prelude.{
  ℕ, suc, Bool, true, false, not, Option, none, some, List, [], ◌∷◌, ◌++◌, String, if◌then◌else◌,
  ◌==◌,
}
use serversmonitor.Time.{Time, Duration, time_sub, dur_le, no_time}
use serversmonitor.Store.Rows.{Host, Rule, reminder, AlertEvent}
use serversmonitor.Store.Deliveries.{
  Deliveries, Delivery, DeliverySpec, add_delivery, fired_channels, last_reminder, release_delivery,
  mark_delivery_failed, held_deliveries, pending_deliveries, is_fired_kind,
}
use serversmonitor.Alerts.Machine.{Key}
use serversmonitor.Alerts.Evaluate.{status_rule_id}
use serversmonitor.Guardrails.Windows.{Window}
use serversmonitor.Guardrails.Schedule.{Zone}
use serversmonitor.Notify.Message.{Message}
use serversmonitor.Notify.Route.{route, has_name}
use serversmonitor.Notify.Dispatcher.{Job}
use serversmonitor.Hub.Notifying.{
  Config, alert_spec, alert_route, host_by_id, rule_by_id, message, hold_for,
}

-- due
unfoldable pub due : Deliveries → ℕ → Bool → Time → Duration → Time → Bool
due t event_id guardrail fired_at every now = elim (last_reminder t event_id guardrail) [
  | none ↦ dur_le every (time_sub now fired_at)
  | some at ↦ dur_le every (time_sub now at)
]

module _ {F : Type 0} where
  -- The interval of the reminders of an alert, none when its rule is gone.
  unfoldable pub remind_every : Config → List (Rule F) → AlertEvent F → Option Duration
  remind_every cfg rules e =
      if e.rule_id == status_rule_id
      then some cfg.offline_remind
      else (elim (rule_by_id rules e.rule_id) [ some r ↦ some r.remind | none ↦ none ])

  -- The loop over the channels of a reminder: a channel in its quiet hours is skipped.
  unfoldable pub remind_rows :
      (String → Bool)
      → (String → Bool → DeliverySpec)
      → Message F
      → Time
      → List String
      → Deliveries
      → Deliveries × List (Job F)
  remind_rows holds spec m now [] t = (t, [])
  remind_rows holds spec m now (ch ∷ chans) t =
      let skipped = remind_rows holds spec m now chans t in
      let (t', d) = add_delivery t (spec ch false) now in
      let (t'', jobs) = remind_rows holds spec m now chans t' in
      let job : Job F = record { delivery_id = d.id; channel = ch; message = m } in
      if holds ch then skipped else (t'', job ∷ jobs)

  -- A reminder of a message, since the time of the event.
  abbrev pub as_reminder : Message F → Time → Time → Message F
  as_reminder m since at = record m { kind = reminder; since = since; at = at }

module _ {F : Type 0} (zero_value : F) (z : Zone) (decode : List ℕ → Option (List Window))
    (cfg : Config) (chans : List String) (hosts : List Host) (rules : List (Rule F))
    (now : Time) where
  -- One round of remindAlerts.
  unfoldable pub remind_one :
      List (AlertEvent F) → Deliveries → AlertEvent F → Deliveries × List (Job F)
  remind_one events t e =
      if not (is_fired_kind e.kind) then (t, []) else (elim (remind_every cfg rules e) [
        | none ↦ (t, [])
        | some every ↦
            if dur_le every no_time then (t, []) else (elim (host_by_id hosts e.host_id) [
              | none ↦ (t, [])
              | some host ↦
                  if host.muted
                  then (t, [])
                  else if not (due t e.id false e.at every now)
                  then (t, [])
                  else remind_rows
                      (λ ch. hold_for z decode cfg ch (e.rule_id == status_rule_id) now)
                      (alert_spec e.id true)
                      (as_reminder (message zero_value cfg e host rules) e.at now) now
                      (route chans (alert_route cfg e rules)
                        (fired_channels events t e.rule_id e.host_id (suc e.id)))
                      t
            ])
      ])

  -- remindAlerts; `last` is LastEventPerKey.
  unfoldable pub remind_alerts :
      List (AlertEvent F) → Deliveries → List (Key × AlertEvent F) → Deliveries × List (Job F)
  remind_alerts events t [] = (t, [])
  remind_alerts events t ((k, e) ∷ es) =
      let (t', jobs) = remind_one events t e in
      let (t'', rest) = remind_alerts events t' es in (t'', jobs ++ rest)

-- An error of an update is only logged.
abbrev pub or_same : Deliveries → Option Deliveries → Deliveries
or_same t none = t
or_same t (some t') = t'

-- The rebuilder's job, over what a delivery is about, none when the event is gone.
unfoldable pub rebuilt : {F : Type 0} → (Delivery → Option (Message F)) → Delivery → List (Job F)
rebuilt find d = elim (find d) [
  | none ↦ []
  | some m ↦
      let told = if d.is_repeat then as_reminder m m.at d.created_at else m in
      record { delivery_id = d.id; channel = d.channel; message = told } ∷ []
]

module _ {F : Type 0} (find : Delivery → Option (Message F)) (quiet : String → Bool)
    (chans : List String) (now : Time) where
  -- One round of releaseHeld.
  unfoldable pub release_one : Deliveries → Delivery → Deliveries × List (Job F)
  release_one t d =
      if not (has_name chans d.channel)
      then (or_same t (mark_delivery_failed t d.id now 0 "channel disabled"), [])
      else if quiet d.channel
      then (t, [])
      else (elim (release_delivery t d.id now) [ none ↦ (t, []) | some t' ↦ (t', rebuilt find d) ])

  unfoldable pub release_rows : Deliveries → List Delivery → Deliveries × List (Job F)
  release_rows t [] = (t, [])
  release_rows t (d ∷ ds) =
      let (t', jobs) = release_one t d in
      let (t'', rest) = release_rows t' ds in (t'', jobs ++ rest)

  -- releaseHeld
  unfoldable pub release_held : Deliveries → Deliveries × List (Job F)
  release_held t = release_rows t (held_deliveries t)

  -- One round of replayPendingDeliveries.
  unfoldable pub replay_one : Deliveries → Delivery → Deliveries × List (Job F)
  replay_one t d =
      if not (has_name chans d.channel)
      then (or_same t (mark_delivery_failed t d.id now 0 "channel disabled"), [])
      else (t, rebuilt find d)

  unfoldable pub replay_rows : Deliveries → List Delivery → Deliveries × List (Job F)
  replay_rows t [] = (t, [])
  replay_rows t (d ∷ ds) =
      let (t', jobs) = replay_one t d in let (t'', rest) = replay_rows t' ds in (t'', jobs ++ rest)

  -- replayPendingDeliveries
  unfoldable pub replay_pending : Deliveries → Deliveries × List (Job F)
  replay_pending t = replay_rows t (pending_deliveries t)
